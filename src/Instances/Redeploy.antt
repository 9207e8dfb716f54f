-- ===== src/Instances/Redeploy.antt =====
-- instance.go: rolloutInstance, which redeploys one instance by a switchover or by deleting its pod.

-- What is done, in so far as others see it.
use mathlib.Core.Bool.{false≢true}
use ivory_operator.Instances.{is_primary, surely, Instance, Pod, Runner}
use ivory_operator.Prelude.{
  ap, inr, sym, Option-cases, inl, ◌≤◌, refl, length, ◌∙◌, ◌&&◌, ltb, ◌⊎◌, is_none, ◌*◌,
  if◌then◌else◌, none, arith, if_elim, ◌∷◌, false, ◌≡◌, some, ◌/◌, [], true, Option, Bool, any,
  String, List, ℕ,
}

pub data Action : Type 0 where
  switched_over : String → Action
  tried_checkpoint : ℕ → Action
  warned_no_checkpoint warned_slow_checkpoint : Action
  deleted : String → Action

-- What the calls answer, after the actions before them: ChangePrimaryAndWait of Patroni, a
-- checkpoint with its duration in nanoseconds, and the deletion of the pod. The last two are the
-- errors that rolloutInstance makes itself.
pub record RolloutEnv (E : Type 0) : Type 0 where
  pub change_primary_and_wait : String → Bool × Option E
  pub checkpoint : List Action → ℕ → ℕ × Option E
  pub delete_pod : List Action → String → Option E
  pub unexpected_state : Instance → E
  pub unable_to_switchover : E

pub record Rollout (E : Type 0) : Type 0 where
  pub err : Option E
  pub actions : List Action

-- corev1.DefaultTerminationGracePeriodSeconds where the pod says nothing.
unfoldable pub grace_seconds : Option ℕ → ℕ
grace_seconds none = 30
grace_seconds (some seconds) = seconds

-- Half the grace period, in nanoseconds.
unfoldable pub threshold : ℕ → ℕ
threshold seconds = seconds / 2 * 1000000000

-- The outcome of a switchover.
unfoldable pub switchover_error : {E : Type 0} → E → Bool × Option E → Option E
switchover_error unable (success, some e) = some e
switchover_error unable (success, none) = if success then none else some unable

-- The warning about the last checkpoint.
unfoldable pub warn : {E : Type 0} → ℕ → ℕ × Option E → List Action → List Action
warn limit (duration, some e) done = warned_no_checkpoint ∷ done
warn limit (duration, none) done =
    if ltb limit duration then warned_slow_checkpoint ∷ done else done

module _ {E : Type 0} (env : RolloutEnv E) where
  -- One checkpoint, and one more when the first is slow.
  unfoldable pub checkpoints : ℕ → List Action
  unfolding warn
  checkpoints seconds =
      let limit = threshold seconds in
      let (duration, err) = env.checkpoint [] seconds in
      if is_none err && ltb limit duration
      then warn limit (env.checkpoint (tried_checkpoint seconds ∷ []) seconds)
          (tried_checkpoint seconds ∷ tried_checkpoint seconds ∷ [])
      else warn limit (duration, err) (tried_checkpoint seconds ∷ [])

  unfoldable pub rollout_pod : Bool → List Instance → Pod → Rollout E
  unfolding checkpoints switchover_error
  rollout_pod primary instances pod =
      let before =
        if primary then checkpoints (grace_seconds pod.termination_grace_period_seconds) else [] in
      if primary && ltb 1 (length instances)
      then record {
        err = switchover_error env.unable_to_switchover (env.change_primary_and_wait pod.name);
        actions = switched_over pod.name ∷ [];
      }
      else record { err = env.delete_pod before pod.name; actions = deleted pod.name ∷ before }

  -- The one pod of an instance that has a runner.
  unfoldable pub only_pod : Option Runner → List Pod → Option Pod
  only_pod none pods = none
  only_pod (some r) [] = none
  only_pod (some r) (p ∷ []) = some p
  only_pod (some r) (p ∷ q ∷ rest) = none

  unfoldable pub rollout_found : Option Pod → List Instance → Instance → Rollout E
  unfolding rollout_pod
  rollout_found none instances i = record { err = some (env.unexpected_state i); actions = [] }
  rollout_found (some pod) instances i = rollout_pod (surely (is_primary i)) instances pod

  -- rolloutInstance, for an instance of those of the cluster.
  unfoldable pub rollout_instance : List Instance → Instance → Rollout E
  unfolding rollout_found only_pod
  rollout_instance instances i = rollout_found (only_pod i.runner i.pods) instances i

abbrev pub is_deletion : Action → Bool
is_deletion (deleted name) = true
is_deletion (switched_over name) = false
is_deletion (tried_checkpoint seconds) = false
is_deletion warned_no_checkpoint = false
is_deletion warned_slow_checkpoint = false

abbrev pub is_checkpoint : Action → Bool
is_checkpoint (tried_checkpoint seconds) = true
is_checkpoint (deleted name) = false
is_checkpoint (switched_over name) = false
is_checkpoint warned_no_checkpoint = false
is_checkpoint warned_slow_checkpoint = false

warn-checkpoint :
    {E : Type 0} (limit : ℕ) (answer : ℕ × Option E) (done : List Action)
    → any is_checkpoint (warn limit answer done) ≡ any is_checkpoint done
unfolding warn any
warn-checkpoint limit (duration, some e) done = refl
warn-checkpoint limit (duration, none) done = ground arith

module _ {E : Type 0} (env : RolloutEnv E) where
  checkpoints-checkpoint : (seconds : ℕ) → any is_checkpoint (checkpoints env seconds) ≡ true
  unfolding checkpoints
  checkpoints-checkpoint seconds =
      if_elim {A = List Action} (λ l. any is_checkpoint l ≡ true)
        (is_none (env.checkpoint [] seconds).1
          && ltb (threshold seconds) (env.checkpoint [] seconds).0)
        (λ _.
          warn-checkpoint {E = E} (threshold seconds)
            (env.checkpoint (tried_checkpoint seconds ∷ []) seconds)
            (tried_checkpoint seconds ∷ tried_checkpoint seconds ∷ [])
          ∙ unfold any in refl)
        (λ _.
          warn-checkpoint {E = E} (threshold seconds) (env.checkpoint [] seconds)
            (tried_checkpoint seconds ∷ [])
          ∙ unfold any in refl)

  -- The actions are a deletion, newest, after a checkpoint.
  abbrev pub DeletedAfterCheckpoint : List Action → Type 0
  DeletedAfterCheckpoint actions =
      (name : String) × (before : List Action) × (actions ≡ deleted name ∷ before)
      × (any is_checkpoint before ≡ true)

  rollout_pod_gentle :
      (primary : Bool) (instances : List Instance) (pod : Pod)
      → any is_deletion (rollout_pod env primary instances pod).actions ≡ true
      → (primary ≡ false)
        ⊎ ((ltb 1 (length instances) ≡ false)
            × DeletedAfterCheckpoint (rollout_pod env primary instances pod).actions)
  unfolding rollout_pod any
  rollout_pod_gentle false instances pod h = inl refl
  rollout_pod_gentle true instances pod h =
      if_elim {A = Rollout E}
        (λ t.
          any is_deletion t.actions ≡ true
          → (true ≡ false)
            ⊎ ((ltb 1 (length instances) ≡ false) × DeletedAfterCheckpoint t.actions))
        (ltb 1 (length instances)) (λ _ h. absurd (false≢true h))
        (λ e _.
          let seconds = grace_seconds pod.termination_grace_period_seconds in
          inr (e, (pod.name, checkpoints env seconds, refl, checkpoints-checkpoint seconds)))
        h

  -- Redeploying an instance deletes its pod only when the instance is not known to be the primary,
  -- or when it is the only instance of the cluster; then the deletion is the last action and a
  -- checkpoint is among the actions before it. So a primary that others can replace is never
  -- deleted.
  pub rollout_instance-gentle :
      (instances : List Instance) (i : Instance)
      → any is_deletion (rollout_instance env instances i).actions ≡ true
      → (surely (is_primary i) ≡ false)
        ⊎ ((length instances ≤ 1)
            × ((name : String) × (before : List Action) × ((rollout_instance env instances
                    i).actions
                  ≡ deleted name ∷ before)
                × (any is_checkpoint before ≡ true)))
  unfolding rollout_instance rollout_found any
  rollout_instance-gentle instances i h = elim (Option-cases (only_pod env i.runner i.pods)) [
    | inl e ↦ absurd (
        false≢true
          (sym (ap (λ o. any is_deletion (rollout_found env o instances i).actions) e) ∙ h))
    | inr (p, e) ↦
        elim (rollout_pod_gentle (surely (is_primary i)) instances p
          (sym (ap (λ o. any is_deletion (rollout_found env o instances i).actions) e) ∙ h)) [
            | inl n ↦ inl n
            | inr (one, (name, before, last, tried)) ↦ inr (
              ground arith,
              (name, before, ap (λ o. (rollout_found env o instances i).actions) e ∙ last, tried),
            )
          ]
  ]
