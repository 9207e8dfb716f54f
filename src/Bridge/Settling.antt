-- ===== src/Bridge/Settling.antt =====
-- The reconcile after a write reads back what was written, and is quiet.

use mathlib.Core.Bool.{false≢true}
use mathlib.Core.List.{Memᴰ}
use ivory_operator.Bridge.{
  no_installation, key_bridge_local_time, patch, key_bridge_token, Secret, Installation,
  SecretWrites,
}
use ivory_operator.Bridge.Reconcile.{
  with_version, dated_key, touched, BridgeOutcome, stored_installation, is_far, with_extract,
  reconcile_secret, with_write, BridgeEnv,
}
use ivory_operator.Bridge.Registration.{reconcile_secret-AllDue}
use ivory_operator.Kube.{found}
use ivory_operator.Prelude.{
  All_at, inr, get_or, inl, ◌≤◌, some, arith, ◌||◌, ap, ◌∙◌, [], ◌-◌, str_eq, ◌+◌, if_elim, label,
  false, is_empty, none, sym, ◌≡◌, Labels, ℕ,
}

module _ {E W : Type 0} ⦃sw : SecretWrites W⦄ where
  -- Nothing is called, and the next reconcile is after the rest of the interval.
  abbrev pub quiet : BridgeEnv E W → Installation → ℕ → BridgeOutcome E W
  quiet env memory t = record {
    err = none;
    requeue = false;
    requeue_after = env.jitter ((t + env.refresh_interval) - env.now);
    memory = memory;
    calls = [];
  }

  with_write-quiet :
      (env : BridgeEnv E W) (memory : Installation) (entries : Labels) (write : W) (t : ℕ)
      → stored_installation env entries ≡ memory
      → touched env entries ≡ t
      → is_empty memory.id ≡ false
      → is_far env t ≡ false
      → with_write env memory entries write ≡ quiet env memory t
  unfolding with_write
  with_write-quiet env memory entries write t s u h f =
      if_elim {A = BridgeOutcome E W} (λ out. out ≡ quiet env memory t)
        (is_empty (stored_installation env entries).id)
        (λ e. absurd (false≢true (sym h ∙ (sym (ap (λ i. is_empty i.id) s) ∙ e))))
        (λ _.
          if_elim {A = BridgeOutcome E W} (λ out. out ≡ quiet env memory t)
            (is_empty memory.id || is_far env (touched env entries))
            (λ e. absurd (false≢true (sym f ∙ (sym (ap (is_far env) u) ∙ ground (arith, e, h)))))
            (λ _. ap (quiet env memory) u))

  -- What was written with the time is read back: within the interval after it, the next reconcile makes
  -- no call, keeps the installation, and is repeated at the end of the interval. This supposes that the
  -- installation and the time are read as they were shown, and that the secret holds the entries that
  -- were written.
  pub reconcile_secret-settles :
      (env : BridgeEnv E W) (before : Installation) (secret : Secret) (w : W) (after : Secret)
      (next : W) (t later : ℕ)
      → str_eq (dated_key env (stored_installation env secret.entries_of)) key_bridge_token ≡ false
      → Memᴰ (patch w) (reconcile_secret env before secret).calls
      → is_empty (reconcile_secret env before secret).memory.id ≡ false
      → label key_bridge_local_time (sw.data_of w) ≡ env.show_time env.now
      → env.read_installation (env.show_installation (reconcile_secret env before secret).memory)
        ≡ some (reconcile_secret env before secret).memory
      → env.read_time (env.show_time env.now) ≡ some t
      → after.entries_of ≡ sw.data_of w
      → env.extract after ≡ found next
      → later ≤ t + env.refresh_interval
      → t ≤ later + env.refresh_interval
      → reconcile_secret
          (record env { now = later })
          (reconcile_secret env before secret).memory
          after
        ≡ quiet (record env { now = later }) (reconcile_secret env before secret).memory t
  unfolding reconcile_secret with_extract is_far stored_installation touched label
  reconcile_secret-settles env before secret w after next t later d m h time shown read entries
        extract early late =
      let out = reconcile_secret env before secret in
      let env2 : BridgeEnv E W = record env { now = later } in
      let due = All_at _ out.calls (reconcile_secret-AllDue env before secret d) m in
      let token : label key_bridge_token after.entries_of ≡ env.show_installation out.memory =
        elim due [
          | inl (stored, _) ↦ ap (label key_bridge_token) entries ∙ ap (λ o. get_or o "") stored
          | inr (empty, _, _, _) ↦ absurd (false≢true (sym h ∙ ap (λ i. is_empty i.id) empty))
        ] in
      ap (with_extract env2 out.memory after) extract
      ∙ with_write-quiet env2 out.memory after.entries_of
          (with_version env2 after.resource_version next) t
          (ap (λ s. get_or (env.read_installation s) no_installation) token
            ∙ ap (λ o. get_or o no_installation) shown)
          (ap (λ s. get_or (env.read_time (label key_bridge_local_time s)) 0) entries
            ∙ (ap (λ s. get_or (env.read_time s) 0) time ∙ ap (λ o. get_or o 0) read))
          h (ground arith)
