-- ===== src/Bridge/Registration.antt =====
-- What a reconcile of the installation asks of the API, and what it stores.

use ivory_operator.Bridge.{
  Secret, create_installation, patch, create_auth_object, key_bridge_local_time, no_installation,
  BridgeCall, key_bridge_token, Installation, SecretWrites,
}
use ivory_operator.Bridge.Client.{
  auth_result-401, auth_result, renewed, unauthorized, refused, is_unauthorized,
  installation_result, Renewal, is_401,
}
use ivory_operator.Bridge.Reconcile.{
  bridge_fails, empty_secret, retry_conflict, reconcile_installation, read_secret, with_version,
  with_extract, with_write, reconcile_secret, refresh, touched, is_far, stored_installation,
  dated_key, persist, BridgeOutcome, stamped, register, BridgeEnv,
}
use ivory_operator.Kube.{ApiErrors, found, failed, Answer}
use ivory_operator.Prelude.{
  lookup-first, none, Option, eq_iff, inr, if◌then◌else◌, ap, ◌∷◌, ◌∙◌, if_elim, lookup-insert,
  str_eq, [], ◌⊎◌, ◌||◌, inl, false, true, refl, is_empty, arith, some, All, lookup, insert, String,
  ◌≡◌, Labels,
}

lookup_token : lookup {V = String} key_bridge_token (insert key_bridge_token "" []) ≡ some ""
unfolding insert lookup
lookup_token = refl

module _ {E W : Type 0} ⦃sw : SecretWrites W⦄ (env : BridgeEnv E W) where
  -- The entries that are written hold the singleton after the call.
  abbrev pub IsStored : Installation → W → Type 0
  IsStored memory w = lookup key_bridge_token (sw.data_of w) ≡ some (env.show_installation memory)

  -- The installation expired: the API answered 401, the token is cleared, and the installation moves to
  -- its dated key.
  abbrev pub IsExpired : Labels → Installation → W → Type 0
  IsExpired entries memory w =
      (memory ≡ no_installation)
      × (lookup key_bridge_token (sw.data_of w) ≡ some "")
      × (lookup (dated_key env (stored_installation env entries)) (sw.data_of w)
          ≡ some (env.show_installation (stored_installation env entries)))
      × (is_401 (env.auth_reply (stored_installation env entries).auth_object) ≡ true)

  -- A call that has its reason in the singleton before it, the entries of the secret, and the outcome.
  abbrev pub IsDueCall : Installation → Labels → BridgeOutcome E W → BridgeCall W → Type 0
  IsDueCall before entries out create_installation =
      (is_empty (stored_installation env entries).id ≡ true) × (is_empty before.id ≡ true)
  IsDueCall before entries out (create_auth_object a) =
      (a ≡ (stored_installation env entries).auth_object)
      × (is_empty (stored_installation env entries).id ≡ false)
      × ((is_empty before.id || is_far env (touched env entries)) ≡ true)
  IsDueCall before entries out (patch w) =
      (IsStored out.memory w
        × ((lookup key_bridge_local_time (sw.data_of w) ≡ some (env.show_time env.now))
            ⊎ ((out.memory ≡ before) × (is_empty before.id ≡ false))))
      ⊎ IsExpired entries out.memory w

  abbrev pub AllDue : Installation → Labels → BridgeOutcome E W → Type 0
  AllDue before entries out = All (IsDueCall before entries out) out.calls

  lookup_written :
      (w : W) (m : Labels) (k v : String)
      → lookup k m ≡ some v
      → lookup k (sw.data_of (sw.with_data w m)) ≡ some v
  lookup_written w m k v e = ground (arith, e, sw.lookup-with_data w m k)

  lookup-stamped :
      (i : Installation)
      → (lookup key_bridge_token (stamped env i) ≡ some (env.show_installation i))
        × (lookup key_bridge_local_time (stamped env i) ≡ some (env.show_time env.now))
  unfolding stamped insert lookup
  lookup-stamped i = (refl, refl)

  register-AllDue :
      (before : Installation) (entries : Labels) (write : W) (answer : Answer E Installation)
      → is_empty (stored_installation env entries).id ≡ true
      → is_empty before.id ≡ true
      → AllDue before entries (register env before write answer)
  unfolding register persist
  register-AllDue before entries write (failed e) h k = ((h, k), tt)
  register-AllDue before entries write (found i) h k =
      let (token, time) = lookup-stamped i in
      (
        inl (
          lookup_written write (stamped env i) key_bridge_token (env.show_installation i) token,
          inl (
              lookup_written write (stamped env i) key_bridge_local_time (env.show_time env.now)
                time),
        ),
        ((h, k), tt),
      )

  lookup-expired :
      (i : Installation)
      → str_eq (dated_key env i) key_bridge_token ≡ false
      → let m =
          insert (dated_key env i) (env.show_installation i) (insert key_bridge_token "" []) in
        (lookup key_bridge_token m ≡ some "")
        × (lookup (dated_key env i) m ≡ some (env.show_installation i))
  lookup-expired i d =
      let m = insert key_bridge_token "" [] in
      let k = dated_key env i in
      let v = env.show_installation i in
      (
        lookup-insert k key_bridge_token v m
            ∙ (ap (λ b. if b then some v else lookup key_bridge_token m) d ∙ lookup_token),
        lookup-insert k k v m ∙ ap (λ b. if b then some v else lookup k m) ((eq_iff k k).1 refl),
      )

  refresh-AllDue :
      (before : Installation) (entries : Labels) (write : W) (answer : Renewal E)
      → let i = stored_installation env entries in
        is_empty i.id ≡ false
        → (is_empty before.id || is_far env (touched env entries)) ≡ true
        → str_eq (dated_key env i) key_bridge_token ≡ false
        → (is_unauthorized answer ≡ true → is_401 (env.auth_reply i.auth_object) ≡ true)
        → AllDue before entries (refresh env before i write answer)
  unfolding refresh persist
  refresh-AllDue before entries write (refused e) h k d u = ((refl, h, k), tt)
  refresh-AllDue before entries write (unauthorized e) h k d u =
      let i = stored_installation env entries in
      let m = insert (dated_key env i) (env.show_installation i) (insert key_bridge_token "" []) in
      let (token, dated) = lookup-expired i d in
      (
        inr (
          refl,
          lookup_written write m key_bridge_token "" token,
          lookup_written write m (dated_key env i) (env.show_installation i) dated,
          u refl,
        ),
        ((refl, h, k), tt),
      )
  refresh-AllDue before entries write (renewed a) h k d u =
      let j : Installation = record (stored_installation env entries) { auth_object = a } in
      let (token, time) = lookup-stamped j in
      (
        inl (
          lookup_written write (stamped env j) key_bridge_token (env.show_installation j) token,
          inl (
              lookup_written write (stamped env j) key_bridge_local_time (env.show_time env.now)
                time),
        ),
        ((refl, h, k), tt),
      )

  with_write-AllDue :
      (before : Installation) (entries : Labels) (write : W)
      → str_eq (dated_key env (stored_installation env entries)) key_bridge_token ≡ false
      → AllDue before entries (with_write env before entries write)
  unfolding with_write persist
  with_write-AllDue before entries write d =
      let i = stored_installation env entries in
      if_elim {A = BridgeOutcome E W} (AllDue before entries) (is_empty i.id)
        (λ h.
          if_elim {A = BridgeOutcome E W} (AllDue before entries) (is_empty before.id)
            (λ k.
              register-AllDue before entries write
                (installation_result env.client env.installation_reply) h k)
            (λ k. (
              inl (
                lookup_written write ((key_bridge_token, env.show_installation before) ∷ [])
                    key_bridge_token (env.show_installation before)
                    (lookup-first key_bridge_token (env.show_installation before) []),
                inr (refl, k),
              ),
              tt,
            )))
        (λ h.
          if_elim {A = BridgeOutcome E W} (AllDue before entries)
            (is_empty before.id || is_far env (touched env entries))
            (λ k.
              refresh-AllDue before entries write
                (auth_result env.client (env.auth_reply i.auth_object)) h k d
                (auth_result-401 env.client (env.auth_reply i.auth_object)))
            (λ _. tt))

  pub reconcile_secret-AllDue :
      (before : Installation) (secret : Secret)
      → str_eq (dated_key env (stored_installation env secret.entries_of)) key_bridge_token ≡ false
      → AllDue before secret.entries_of (reconcile_secret env before secret)
  unfolding reconcile_secret
  reconcile_secret-AllDue before secret d = go (env.extract secret)
    where
      go :
          (answer : Answer E W)
          → AllDue before secret.entries_of (with_extract env before secret answer)
      go (failed e) = tt
      go (found w) =
          with_write-AllDue before secret.entries_of (with_version env secret.resource_version w) d

-- The entries of the secret, and none of a secret that is missing.
abbrev pub entries_read : {E : Type 0} → Answer E Secret → Labels
entries_read (found s) = s.entries_of
entries_read (failed e) = []

module _ {E W : Type 0} ⦃errs : ApiErrors E⦄ ⦃sw : SecretWrites W⦄ (env : BridgeEnv E W) where
  retry_conflict-AllDue :
      (before : Installation) (entries : Labels) (out : BridgeOutcome E W) (err : Option E)
      → AllDue env before entries out
      → AllDue env before entries (retry_conflict env out err)
  unfolding retry_conflict
  retry_conflict-AllDue before entries out none h = h
  retry_conflict-AllDue before entries out (some e) h =
      if_elim {A = BridgeOutcome E W} (AllDue env before entries) (errs.is_conflict e) (λ _. h)
        (λ _. h)

  read_secret-AllDue :
      (namespace name : String) (before : Installation) (got : Answer E Secret)
      → str_eq (dated_key env (stored_installation env (entries_read got))) key_bridge_token ≡ false
      → AllDue env before (entries_read got) (read_secret env namespace name before got)
  unfolding read_secret
  read_secret-AllDue namespace name before (found s) d =
      reconcile_secret-AllDue env before (record s { namespace = namespace; name = name }) d
  read_secret-AllDue namespace name before (failed e) d = go (errs.ignore_not_found (some e))
    where
      go :
          (ignored : Option E)
          → AllDue env before [] (elim ignored [
            | none ↦ reconcile_secret env before (empty_secret env namespace name)
            | some other ↦ bridge_fails env [] before other
          ])
      go none = reconcile_secret-AllDue env before (empty_secret env namespace name) d
      go (some other) = tt

  -- An installation is registered only when neither the secret nor the memory has one. Its tokens are
  -- renewed only for the installation of the secret, when the memory has none or the time in the secret
  -- is farther than the interval. Each write holds the installation that the memory has after it, and
  -- the time unless the memory only restores the secret; or else the API answered 401 for the
  -- installation of the secret, the memory and the token are cleared, and the write keeps that
  -- installation under its date. This supposes that the dated key is not the key of the token.
  pub reconcile_installation-AllDue :
      (namespace name : String) (before : Installation) (got : Answer E Secret)
      → str_eq (dated_key env (stored_installation env (entries_read got))) key_bridge_token ≡ false
      → AllDue env before (entries_read got) (reconcile_installation env namespace name before got)
  unfolding reconcile_installation
  reconcile_installation-AllDue namespace name before got d =
      let out = read_secret env namespace name before got in
      retry_conflict-AllDue before (entries_read got) out out.err
        (read_secret-AllDue namespace name before got d)
