-- ===== src/Volumes/Resizing.antt =====
-- volumes.go: the condition that observePersistentVolumeClaims sets.

-- The fields of the condition that the loops write.
use ivory_operator.Kube.{StatusConditions}
use ivory_operator.Prelude.{
  ltb, ◌&&◌, ◌||◌, str_eq, [], not, is_empty, ◌==◌, Bool, if◌then◌else◌, ◌∷◌, ℕ, List, String,
}
use ivory_operator.Volumes.{condition_resizing, Pvc, PvcCondition}

pub record Resizing : Type 0 where
  pub status : String
  pub reason : String
  pub message : String
  pub last_transition_time : ℕ

abbrev pub not_resizing : Resizing
not_resizing = record {
  status = "";
  reason = "";
  message = "One or more volumes are changing size";
  last_transition_time = 0;
}

unfoldable pub min_not_zero : ℕ → ℕ → ℕ
min_not_zero a b = if b == 0 || (ltb a b && not (a == 0)) then a else b

-- The types of conditions that count: Resizing and FileSystemResizePending.
unfoldable pub is_resize : PvcCondition → Bool
is_resize c = str_eq c.type "Resizing" || str_eq c.type "FileSystemResizePending"

unfoldable pub reason_of : PvcCondition → String
reason_of c = if is_empty c.reason then c.type else c.reason

-- From the first condition.
unfoldable pub init_resizing : PvcCondition → Resizing → Resizing
unfolding reason_of
init_resizing c r =
    if is_empty r.status
    then record r {
      status = c.status;
      reason = reason_of c;
      last_transition_time = c.last_transition_time;
    }
    else r

-- From an adverse condition.
unfoldable pub worsen : PvcCondition → Resizing → Resizing
unfolding reason_of
worsen c r =
    if not (str_eq c.status "True")
    then record {
      status = c.status;
      reason = reason_of c;
      message = c.message;
      last_transition_time = c.last_transition_time;
    }
    else r

unfoldable pub keep_oldest : PvcCondition → Resizing → Resizing
unfolding min_not_zero
keep_oldest c r =
    if str_eq r.status "True" && str_eq c.status "True"
    then record r {
      last_transition_time = min_not_zero r.last_transition_time c.last_transition_time;
    }
    else r

unfoldable pub note_condition : PvcCondition → Resizing → Resizing
unfolding is_resize init_resizing worsen keep_oldest
note_condition c r = if is_resize c then keep_oldest c (worsen c (init_resizing c r)) else r

unfoldable pub note_conditions : List PvcCondition → Resizing → Resizing
unfolding note_condition
note_conditions [] r = r
note_conditions (c ∷ rest) r = note_conditions rest (note_condition c r)

unfoldable pub note_claims : List Pvc → Resizing → Resizing
unfolding note_conditions
note_claims [] r = r
note_claims (v ∷ rest) r = note_claims rest (note_conditions v.conditions r)

-- The end of observePersistentVolumeClaims, for the claims that were listed. The condition that is set
-- leaves out the time.
unfoldable pub observe_resizing : {C : Type 0} → ⦃sc : StatusConditions C⦄ → ℕ → List Pvc → C → C
unfolding note_claims
observe_resizing ⦃sc⦄ generation volumes cs =
    let r = note_claims volumes not_resizing in
    if not (is_empty r.status)
    then sc.set cs (record {
      type = condition_resizing;
      status = r.status;
      reason = r.reason;
      message = r.message;
      observed_generation = generation;
    })
    else sc.remove cs condition_resizing
