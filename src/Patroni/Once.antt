-- ===== src/Patroni/Once.antt =====
-- A switchover that is asked for once happens at most once, over any run of reconciles.

-- One reconcile: what it sees, whether the status it leaves is stored, and the timeline of Patroni
-- once it is over.
use mathlib.Core.Bool.{false≢true}
use ivory_operator.Instances.{Instance, Pod}
use ivory_operator.Kube.{found, failed, Answer}
use ivory_operator.Patroni.Switchover.{
  type_failover, running_pod, ended, choose_target, with_running_pod, with_target, read_timeline,
  switch_enabled, refused, Change, reconcile_patroni_switchover, record_change, is_switched,
  Switched, compare_timeline, SwitchoverStatus, SwitchoverEnv, SwitchoverSpec,
}
use ivory_operator.Prelude.{
  Bool-cases, get_or, length, leb, ◌||◌, subst, is_empty, ap, ◌∙◌, arith, sym, not, inr, if_elim,
  ◌<◌, suc, inl, ltb, refl, false, some, eq_iff, [], ◌≤◌, ◌&&◌, Option, ◌==◌, Bool, is_some, true,
  ◌⊎◌, ◌∷◌, if◌then◌else◌, str_eq, none, ◌≡◌, String, ℕ, List,
}

pub record Moment (E : Type 0) : Type 0 where
  pub env : SwitchoverEnv E
  pub instances : List Instance
  pub saved : Bool
  pub after : ℕ

-- The stored status, the timeline of Patroni, and how often a call of the operator has changed it.
pub record SwitchoverWorld : Type 0 where
  pub status : SwitchoverStatus
  pub timeline : ℕ
  pub changes : ℕ

-- A pod that answers without error tells the timeline, or that it knows none. A timeline never goes back.
abbrev pub IsHonest : {E : Type 0} → SwitchoverWorld → Moment E → Type 0
IsHonest w m =
    ((p : Pod)
      → (m.env.get_timeline p).1 ≡ none
      → ((m.env.get_timeline p).0 ≡ 0) ⊎ ((m.env.get_timeline p).0 ≡ w.timeline))
    × (w.timeline ≤ m.after)

str_eq_refl : (s : String) → str_eq s s ≡ true
str_eq_refl s = (eq_iff s s).1 refl

-- The status shows the switchover as done, or was written for an earlier timeline.
abbrev IsPast : String → ℕ → SwitchoverStatus → Type 0
IsPast annotation timeline s =
    (is_switched annotation s.switchover ≡ true)
    ⊎ ((t : ℕ) × (s.timeline ≡ some t) × ((t == 0) ≡ false) × (t < timeline))

-- An outcome that calls nothing and stays past.
abbrev IsQuiet : {E : Type 0} → String → ℕ → Switched E → Type 0
IsQuiet annotation timeline out = (out.called ≡ none) × IsPast annotation timeline out.status

-- An outcome that calls only for the current timeline, and then leaves the status or completes it.
abbrev IsDue : {E : Type 0} → String → ℕ → SwitchoverStatus → Switched E → Type 0
IsDue annotation timeline s out =
    (out.called ≡ none)
    ⊎ ((s.timeline ≡ some timeline)
        × ((timeline == 0) ≡ false)
        × ((is_switched annotation out.status.switchover ≡ true) ⊎ (out.status ≡ s)))

module _ {E : Type 0} (env : SwitchoverEnv E) (annotation : String) (timeline : ℕ)
    (status : SwitchoverStatus) where
  IsDue-record :
      (change : Change) (answer : Bool × Option E)
      → status.timeline ≡ some timeline
      → (timeline == 0) ≡ false
      → IsDue annotation timeline status (record_change env annotation status change answer)
  unfolding record_change is_switched
  IsDue-record change (success, some x) e h = inr (e, h, inr refl)
  IsDue-record change (success, none) e h =
      if_elim {A = Switched E} (IsDue annotation timeline status) success
        (λ _. inr (e, h, inl (str_eq_refl annotation))) (λ _. inr (e, h, inr refl))

  IsDue-compare :
      (change : Change) (p : Pod) (requested : Option ℕ)
      → status.timeline ≡ requested
      → IsDue annotation timeline status
          (compare_timeline env annotation status change p timeline requested)
  unfolding compare_timeline
  IsDue-compare change p none e = inl refl
  IsDue-compare change p (some t) e =
      if_elim {A = Switched E} (IsDue annotation timeline status) (t == 0) (λ _. inl refl)
        (λ h.
          if_elim {A = Switched E} (IsDue annotation timeline status) (not (t == timeline))
            (λ _. inl refl)
            (λ k.
              IsDue-record change (env.change p change) (e ∙ ap some (ground arith))
                (ground arith)))

  IsQuiet-compare :
      (change : Change) (p : Pod) (t : ℕ)
      → (t == 0) ≡ false
      → t < timeline
      → IsQuiet annotation timeline
          (compare_timeline env annotation status change p timeline (some t))
  unfolding compare_timeline is_switched
  IsQuiet-compare change p t h l =
      if_elim {A = Switched E} (IsQuiet annotation timeline) (t == 0)
        (λ k. absurd (false≢true (sym h ∙ k)))
        (λ _.
          if_elim {A = Switched E} (IsQuiet annotation timeline) (not (t == timeline))
            (λ _. (refl, inl (str_eq_refl annotation))) (λ k. absurd (false≢true (ground arith))))

-- What the stages pass on: a predicate of refusals that leave the status, and of what is done once
-- the timeline is known.
module _ {E : Type 0} (Q : Switched E → Type 0) (env : SwitchoverEnv E) (annotation : String)
    (timeline : ℕ) (status : SwitchoverStatus) (refusal : (e : E) → Q (refused status e))
    (compared : (change : Change) (p : Pod)
      → Q (compare_timeline env annotation status change p timeline status.timeline))
    (honest : (p : Pod)
      → (env.get_timeline p).1 ≡ none
      → ((env.get_timeline p).0 ≡ 0) ⊎ ((env.get_timeline p).0 ≡ timeline)) where
  pass_read :
      (change : Change) (p : Pod) (answer : ℕ × Option E)
      → (answer.1 ≡ none → (answer.0 ≡ 0) ⊎ (answer.0 ≡ timeline))
      → Q (read_timeline env annotation status change p answer)
  unfolding read_timeline
  pass_read change p (t, some e) h = refusal e
  pass_read change p (t, none) h =
      if_elim {A = Switched E} Q (t == 0) (λ _. refusal _)
        (λ k. elim (h refl) [
          | inl z ↦ absurd (false≢true (ground arith))
          | inr z ↦
              subst (λ u. Q (compare_timeline env annotation status change p u status.timeline))
                (sym z) (compared change p)
        ])

  pass_pod :
      (change : Change) (p : Option Pod) → Q (with_running_pod env annotation status change p)
  unfolding with_running_pod
  pass_pod change none = refusal _
  pass_pod change (some p) = pass_read change p (env.get_timeline p) (honest p)

  pass_target :
      (failover : Bool) (instances : List Instance) (target : Answer E Pod)
      → Q (with_target env annotation failover status instances target)
  unfolding with_target
  pass_target failover instances (failed e) = refusal e
  pass_target failover instances (found p) = pass_pod _ (running_pod instances)

  pass_enabled :
      (spec : SwitchoverSpec) (instances : List Instance)
      → ((is_empty annotation || is_switched annotation status.switchover) ≡ true
          → Q (ended (record status { timeline = none })))
      → Q (switch_enabled env spec annotation status instances)
  unfolding switch_enabled choose_target
  pass_enabled spec instances h =
      if_elim {A = Switched E} Q (is_empty annotation || is_switched annotation status.switchover) h
        (λ _.
          if_elim {A = Switched E} Q (leb (length instances) 1) (λ _. refusal _)
            (λ _.
              if_elim {A = Switched E} Q (is_empty (get_or spec.target_instance ""))
                (λ _.
                  if_elim {A = Switched E} Q (str_eq spec.type type_failover) (λ _. refusal _)
                    (λ _. pass_pod _ (running_pod instances)))
                (λ _. pass_target (str_eq spec.type type_failover) instances _)))

-- No change yet, or one, after which the status is past.
abbrev AtMostOne : String → SwitchoverWorld → Type 0
AtMostOne annotation w = (w.changes ≡ 0) ⊎ ((w.changes ≡ 1) × IsPast annotation w.timeline w.status)

later :
    (annotation : String) (s : SwitchoverStatus) (a b : ℕ)
    → a ≤ b
    → IsPast annotation a s
    → IsPast annotation b s
later annotation s a b l (inl h) = inl h
later annotation s a b l (inr (t, e, nz, k)) = inr (t, e, nz, omega arith)

module _ {E : Type 0} (spec : SwitchoverSpec) (annotation : String) where
  abbrev pub outcome : Moment E → SwitchoverWorld → Switched E
  outcome m w = reconcile_patroni_switchover m.env (some spec) annotation w.status m.instances

  -- A change of the timeline during a call counts as its work.
  unfoldable pub next_world : Moment E → SwitchoverWorld → SwitchoverWorld
  next_world m w = record {
    status = if m.saved then (outcome m w).status else w.status;
    timeline = m.after;
    changes =
        if is_some (outcome m w).called && ltb w.timeline m.after then suc w.changes else w.changes;
  }

  unfoldable pub run : List (Moment E) → SwitchoverWorld → SwitchoverWorld
  run [] w = w
  run (m ∷ rest) w = run rest (next_world m w)

  abbrev pub HonestRun : List (Moment E) → SwitchoverWorld → Type 0
  HonestRun [] w = Unit
  HonestRun (m ∷ rest) w = IsHonest w m × HonestRun rest (next_world m w)

  module _ (enabled : spec.enabled ≡ true) (asked : is_empty annotation ≡ false) where
    outcome-IsDue :
        (w : SwitchoverWorld) (m : Moment E)
        → IsHonest w m
        → IsDue annotation w.timeline w.status (outcome m w)
    unfolding reconcile_patroni_switchover
    outcome-IsDue w m honest =
        if_elim {A = Switched E} (IsDue annotation w.timeline w.status) (not spec.enabled)
          (λ _. inl refl)
          (λ _.
            pass_enabled (IsDue annotation w.timeline w.status) m.env annotation w.timeline w.status
              (λ _. inl refl)
              (λ change p.
                IsDue-compare m.env annotation w.timeline w.status change p w.status.timeline refl)
              honest.0 spec m.instances (λ _. inl refl))

    outcome-IsQuiet :
        (w : SwitchoverWorld) (m : Moment E)
        → IsHonest w m
        → IsPast annotation w.timeline w.status
        → IsQuiet annotation w.timeline (outcome m w)
    unfolding reconcile_patroni_switchover
    outcome-IsQuiet w m honest past =
        if_elim {A = Switched E} (IsQuiet annotation w.timeline) (not spec.enabled)
          (λ h. absurd (false≢true (ground arith)))
          (λ _. elim past [
            | inl switched ↦
                if_elim {A = Switched E} (IsQuiet annotation w.timeline)
                  (is_empty annotation || is_switched annotation w.status.switchover)
                  (λ _. (refl, inl switched)) (λ h. absurd (false≢true (ground arith)))
            | inr (t, e, nz, l) ↦
                pass_enabled (IsQuiet annotation w.timeline) m.env annotation w.timeline w.status
                  (λ _. (refl, inr (t, e, nz, l)))
                  (λ change p.
                    subst
                      (λ o.
                        IsQuiet annotation w.timeline
                          (compare_timeline m.env annotation w.status change p w.timeline o))
                      (sym e)
                      (IsQuiet-compare m.env annotation w.timeline w.status change p t nz l))
                  honest.0 spec m.instances (λ h. (refl, inl (ground arith)))
          ])

    AtMostOne-next :
        (w : SwitchoverWorld) (m : Moment E)
        → IsHonest w m
        → AtMostOne annotation w
        → AtMostOne annotation (next_world m w)
    unfolding next_world
    AtMostOne-next w m honest (inr (one, past)) =
        let (quiet, past') = outcome-IsQuiet w m honest past in
        inr (
          ap (λ c. if is_some c && ltb w.timeline m.after then suc w.changes else w.changes) quiet
              ∙ one,
          later annotation _ w.timeline m.after honest.1 (
              if_elim {A = SwitchoverStatus} (IsPast annotation w.timeline) m.saved (λ _. past')
                (λ _. past)),
        )
    AtMostOne-next w m honest (inl zero_changes) = elim (outcome-IsDue w m honest) [
      | inl quiet ↦ inl (
          ap (λ c. if is_some c && ltb w.timeline m.after then suc w.changes else w.changes) quiet
          ∙ zero_changes)
      | inr (e, nz, left) ↦
          elim (Bool-cases (is_some (outcome m w).called && ltb w.timeline m.after)) [
            | inr h ↦ inl (ap (λ b. if b then suc w.changes else w.changes) h ∙ zero_changes)
            | inl h ↦ inr (
              ap (λ b. if b then suc w.changes else w.changes) h ∙ ap suc zero_changes,
              if_elim {A = SwitchoverStatus} (IsPast annotation m.after) m.saved
                  (λ _. elim left [
                    | inl done ↦ inl done
                    | inr same ↦
                        subst (IsPast annotation m.after) (sym same)
                          (inr (w.timeline, e, nz, ground arith))
                  ])
                  (λ _. inr (w.timeline, e, nz, ground arith)),
            )
          ]
    ]

    AtMostOne-run :
        (ms : List (Moment E)) (w : SwitchoverWorld)
        → HonestRun ms w
        → AtMostOne annotation w
        → AtMostOne annotation (run ms w)
    unfolding run
    AtMostOne-run [] w honest h = h
    AtMostOne-run (m ∷ rest) w honest h =
        AtMostOne-run rest (next_world m w) honest.1 (AtMostOne-next w m honest.0 h)

  -- However often it reconciles, whatever it observes, whether or not the status that it leaves is
  -- stored, and also when a call fails after it took effect, the operator changes the primary at
  -- most once for a switchover that is enabled and annotated: of its calls of SwitchoverAndWait and
  -- FailoverAndWait, at most one comes with a new timeline. This supposes that pods that tell a
  -- timeline tell the current one, and that timelines do not go back.
  pub run_once :
      spec.enabled ≡ true
      → is_empty annotation ≡ false
      → (ms : List (Moment E)) (w : SwitchoverWorld) → HonestRun ms w
      → w.changes ≡ 0
      → (run ms w).changes ≤ 1
  run_once enabled asked ms w honest zero_changes =
      elim (AtMostOne-run enabled asked ms w honest (inl zero_changes)) [
        | inl h ↦ omega arith
        | inr (h, _) ↦ omega arith
      ]
