-- ===== src/Bridge/Reconcile.antt =====
-- internal/bridge/installation.go: Reconcile of InstallationReconciler, with the singleton in memory as
-- an argument and a result. In the model a reconcile reads the clock once.

use ivory_operator.Bridge.{
  create_auth_object, patch, no_installation, key_bridge_local_time, AuthObject, key_bridge_token,
  create_installation, BridgeCall, some, Installation, Secret, SecretWrites,
}
use ivory_operator.Bridge.Client.{
  refused, unauthorized, auth_result, Reply, installation_result, renewed, ClientEnv, Renewal,
}
use ivory_operator.Kube.{failed, found, Answer, ApiErrors}
use ivory_operator.Prelude.{
  ◌-◌, ◌||◌, true, ◌∷◌, ◌+◌, none, label, false, is_empty, ltb, concat, insert, if◌then◌else◌, [],
  get_or, Labels, ℕ, Bool, List, String, Option,
}

-- corev1apply.ExtractSecret, sigs.k8s.io/yaml, encoding/json and time: what reads (`none` on an error)
-- and shows an Installation and a time, the date of a dated key, and wait.Jitter by 0.1; the replies to
-- the two requests; the answer to a patch; the interval and the time.
pub record BridgeEnv (E W : Type 0) : Type 0 where
  pub extract : Secret → Answer E W
  pub read_installation : String → Option Installation
  pub show_installation : Installation → String
  pub read_time : String → Option ℕ
  pub show_time : ℕ → String
  pub format_date : ℕ → String
  pub jitter : ℕ → ℕ
  pub client : ClientEnv E
  pub auth_reply : AuthObject → Reply E
  pub installation_reply : Reply E
  pub send_patch : W → Option E
  pub refresh_interval : ℕ
  pub now : ℕ

-- What is returned, the singleton, and the calls, newest first.
pub record BridgeOutcome (E W : Type 0) : Type 0 where
  pub err : Option E
  pub requeue : Bool
  pub requeue_after : ℕ
  pub memory : Installation
  pub calls : List (BridgeCall W)

module _ {E W : Type 0} ⦃sw : SecretWrites W⦄ (env : BridgeEnv E W) where
  abbrev pub bridge_fails : List (BridgeCall W) → Installation → E → BridgeOutcome E W
  bridge_fails calls memory e = record {
    err = some e;
    requeue = false;
    requeue_after = 0;
    memory = memory;
    calls = calls;
  }

  unfoldable pub persist : List (BridgeCall W) → Installation → W → BridgeOutcome E W
  persist calls memory w = record {
    err = env.send_patch w;
    requeue = false;
    requeue_after = 0;
    memory = memory;
    calls = patch w ∷ calls;
  }

  -- The data that register and refresh write.
  unfoldable pub stamped : Installation → Labels
  stamped i =
      insert key_bridge_token (env.show_installation i)
        (insert key_bridge_local_time (env.show_time env.now) [])

  unfoldable pub register : Installation → W → Answer E Installation → BridgeOutcome E W
  unfolding persist stamped
  register memory write (failed e) = bridge_fails (create_installation ∷ []) memory e
  register memory write (found i) =
      persist (create_installation ∷ []) i (sw.with_data write (stamped i))

  unfoldable pub dated_key : Installation → String
  dated_key i = concat (key_bridge_token ∷ env.format_date i.auth_object.expires_at ∷ [])

  unfoldable pub refresh : Installation → Installation → W → Renewal E → BridgeOutcome E W
  unfolding persist stamped dated_key
  refresh memory i write (renewed a) =
      let j : Installation = record i { auth_object = a } in
      persist (create_auth_object i.auth_object ∷ []) j (sw.with_data write (stamped j))
  refresh memory i write (unauthorized e) =
      persist (create_auth_object i.auth_object ∷ []) no_installation (
        sw.with_data write
          (insert (dated_key i) (env.show_installation i) (insert key_bridge_token "" [])))
  refresh memory i write (refused e) = bridge_fails (create_auth_object i.auth_object ∷ []) memory e

  -- The Installation and the time that the secret holds.
  unfoldable pub stored_installation : Labels → Installation
  stored_installation entries =
      get_or (env.read_installation (label key_bridge_token entries)) no_installation

  unfoldable pub touched : Labels → ℕ
  touched entries = get_or (env.read_time (label key_bridge_local_time entries)) 0

  unfoldable pub is_far : ℕ → Bool
  is_far t = ltb (t + env.refresh_interval) env.now || ltb (env.now + env.refresh_interval) t

  unfoldable pub with_write : Installation → Labels → W → BridgeOutcome E W
  unfolding register refresh stored_installation touched is_far
  with_write memory entries write =
      let i = stored_installation entries in
      if is_empty i.id
      then (if is_empty memory.id
          then register memory write (installation_result env.client env.installation_reply)
          else persist [] memory
              (sw.with_data write ((key_bridge_token, env.show_installation memory) ∷ [])))
      else if is_empty memory.id || is_far (touched entries)
      then refresh memory i write (auth_result env.client (env.auth_reply i.auth_object))
      else record {
        err = none;
        requeue = false;
        requeue_after = env.jitter ((touched entries + env.refresh_interval) - env.now);
        memory = memory;
        calls = [];
      }

  unfoldable pub with_version : String → W → W
  with_version version w = if is_empty version then w else sw.with_resource_version w version

  unfoldable pub with_extract : Installation → Secret → Answer E W → BridgeOutcome E W
  unfolding with_write with_version
  with_extract memory secret (failed e) = bridge_fails [] memory e
  with_extract memory secret (found w) =
      with_write memory secret.entries_of (with_version secret.resource_version w)

  -- reconcile
  unfoldable pub reconcile_secret : Installation → Secret → BridgeOutcome E W
  unfolding with_extract
  reconcile_secret memory secret = with_extract memory secret (env.extract secret)

module _ {E W : Type 0} ⦃errs : ApiErrors E⦄ ⦃sw : SecretWrites W⦄ (env : BridgeEnv E W) where
  -- The end of Reconcile: a conflict is retried.
  unfoldable pub retry_conflict : BridgeOutcome E W → Option E → BridgeOutcome E W
  retry_conflict out none = out
  retry_conflict out (some e) =
      if errs.is_conflict e
      then record out { err = none; requeue = true; requeue_after = 0 }
      else out

  abbrev pub empty_secret : String → String → Secret
  empty_secret namespace name = record {
    namespace = namespace;
    name = name;
    resource_version = "";
    entries_of = [];
    managed = "";
  }

  unfoldable pub read_secret : String → String → Installation → Answer E Secret → BridgeOutcome E W
  unfolding reconcile_secret
  read_secret namespace name memory (found s) =
      reconcile_secret env memory (record s { namespace = namespace; name = name })
  read_secret namespace name memory (failed e) = elim (errs.ignore_not_found (some e)) [
    | none ↦ reconcile_secret env memory (empty_secret namespace name)
    | some other ↦ bridge_fails env [] memory other
  ]

  -- Reconcile, with what the Get of the secret answers.
  unfoldable pub reconcile_installation :
      String → String → Installation → Answer E Secret → BridgeOutcome E W
  unfolding retry_conflict read_secret
  reconcile_installation namespace name memory got =
      let out = read_secret namespace name memory got in retry_conflict out out.err
