-- ===== src/Volumes/Failures.antt =====
-- volumes.go: handlePersistentVolumeClaimError, getRepoPVCNames and getPGPVCName.

-- metav1.StatusCause
use ivory_operator.Backups.{label_pgbackrest_repo}
use ivory_operator.Kube.{found, failed, Answer, StatusConditions}
use ivory_operator.Prelude.{
  false, not, some, true, none, ◌∷◌, ◌&&◌, if◌then◌else◌, [], str_eq, ℕ, label, String, Labels,
  insert, List, Option, Bool,
}
use ivory_operator.Volumes.{condition_resizing, Pvc}

pub record StatusCause : Type 0 where
  pub type : String
  pub field_name : String

-- What the errors of the API say: apierrors.IsForbidden and IsInvalid, ReasonForError, Error(), and the
-- causes among the details of the status, where it has details.
pub record VolumeErrors (E : Type 0) : Type 0 where
  pub is_forbidden : E → Bool
  pub is_invalid : E → Bool
  pub reason : E → String
  pub text : E → String
  pub causes : E → Option (List StatusCause)

-- The error that is returned, the conditions of the cluster, and the warnings, newest first.
pub record VolumeFailure (E C : Type 0) : Type 0 where
  pub err : Option E
  pub conditions : C
  pub events : List String

-- The two causes that are understood.
unfoldable pub is_unbound : StatusCause → Bool
is_unbound cause = str_eq cause.type "FieldValueForbidden" && str_eq cause.field_name "spec"

unfoldable pub is_unresizable : StatusCause → Bool
is_unresizable cause =
    str_eq cause.type "FieldValueForbidden"
    && str_eq cause.field_name "spec.resources.requests.storage"

unfoldable pub has_causes : List StatusCause → Bool
has_causes [] = false
has_causes (cause ∷ rest) = true

module _ {E C : Type 0} (errors : VolumeErrors E) ⦃sc : StatusConditions C⦄ (generation : ℕ) where
  unfoldable pub cannot_resize : E → C → C
  cannot_resize e cs = sc.set cs (record {
    type = condition_resizing;
    status = "False";
    reason = errors.reason e;
    message = "One or more volumes cannot be resized";
    observed_generation = generation;
  })

  -- One cause: whether it is unknown, the conditions and the warnings.
  unfoldable pub note_cause : E → StatusCause → Bool × C × List String → Bool × C × List String
  unfolding cannot_resize is_unbound is_unresizable
  note_cause e cause (unknown_cause, cs, events) =
      if is_unbound cause
      then (unknown_cause, cs, errors.text e ∷ events)
      else if is_unresizable cause
      then (unknown_cause, cannot_resize e cs, errors.text e ∷ events)
      else (true, cs, events)

  unfoldable pub note_causes :
      E → List StatusCause → Bool × C × List String → Bool × C × List String
  unfolding note_cause
  note_causes e [] noted = noted
  note_causes e (cause ∷ rest) noted = note_causes e rest (note_cause e cause noted)

  -- The end of the loop over the causes.
  unfoldable pub judge_causes : E → List StatusCause → Bool × C × List String → VolumeFailure E C
  unfolding has_causes
  judge_causes e causes (unknown_cause, cs, events) = record {
    err = if has_causes causes && not unknown_cause then none else some e;
    conditions = cs;
    events = events;
  }

  unfoldable pub handle_persistent_volume_claim_error : C → Option E → VolumeFailure E C
  unfolding cannot_resize note_causes judge_causes has_causes
  handle_persistent_volume_claim_error cs none = record { err = none; conditions = cs; events = [] }
  handle_persistent_volume_claim_error cs (some e) =
      if errors.is_forbidden e
      then record { err = none; conditions = cannot_resize e cs; events = errors.text e ∷ [] }
      else elim (errors.causes e) [
        | none ↦ record { err = some e; conditions = cs; events = [] }
        | some causes ↦
            if errors.is_invalid e
            then judge_causes e causes (note_causes e causes (false, cs, []))
            else record { err = some e; conditions = cs; events = [] }
      ]

unfoldable pub pvc_of_repo : String → List Pvc → Option String
unfolding label
pvc_of_repo repo_name [] = none
pvc_of_repo repo_name (v ∷ rest) =
    if str_eq (label label_pgbackrest_repo v.labels) repo_name
    then some v.name
    else pvc_of_repo repo_name rest

-- The loop of getRepoPVCNames, from a map.
unfoldable pub add_repo_pvc_names : List String → List Pvc → Labels → Labels
unfolding pvc_of_repo insert
add_repo_pvc_names [] volumes names = names
add_repo_pvc_names (repo_name ∷ rest) volumes names =
    add_repo_pvc_names rest volumes (elim (pvc_of_repo repo_name volumes) [
      | none ↦ names
      | some name ↦ insert repo_name name names
    ])

unfoldable pub get_repo_pvc_names : List String → List Pvc → Labels
unfolding add_repo_pvc_names
get_repo_pvc_names repo_names volumes = add_repo_pvc_names repo_names volumes []

-- The first claim whose labels the selector matches; the selector is AsSelector's answer.
unfoldable pub first_matching : (Labels → Bool) → List Pvc → String
first_matching matches [] = ""
first_matching matches (v ∷ rest) = if matches v.labels then v.name else first_matching matches rest

unfoldable pub get_pg_pvc_name :
    {E : Type 0} → Answer E (Labels → Bool) → List Pvc → String × Option E
unfolding first_matching
get_pg_pvc_name (failed e) volumes = ("", some e)
get_pg_pvc_name (found matches) volumes = (first_matching matches volumes, none)
