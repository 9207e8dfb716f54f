-- ===== src/Samples/Volumes.antt =====
-- A cluster over volumes that were there before.

use ivory_operator.Kube.{found, Condition}
use ivory_operator.Prelude.{
  ltb, ◌||◌, is_some, any, ◌&&◌, str_eq, filter, refl, if◌then◌else◌, true, ◌≡◌, ◌∷◌, none, false,
  map, ℕ, [], length, some, String, List,
}
use ivory_operator.Samples.Kube.{sample_labels, sample_conditions, other, SampleError}
use ivory_operator.Volumes.{condition_resizing, Pvc, PvcCondition}
use ivory_operator.Volumes.Adopted.{configure_existing_pvcs-IsAdoption, IsAdoption}
use ivory_operator.Volumes.Existing.{
  DataSourceVolume, DataSourceVolumes, VolumesEnv, configure_existing_pvcs, VolumesSpec,
  StartupStatus,
}
use ivory_operator.Volumes.Failures.{handle_persistent_volume_claim_error, VolumeErrors}
use ivory_operator.Volumes.Moved.{reconcile_dir_move_jobs-is_moved, is_moved}
use ivory_operator.Volumes.Moves.{move_wal_dir, move_job_name, ObservedMove, MoveEnv, MoveSpec}
use ivory_operator.Volumes.Moving.{wanted_move, reconcile_dir_move_jobs}
use ivory_operator.Volumes.Reported.{
  num_warnings, repeated, handle_persistent_volume_claim_error-is_reported, resize_failed,
  blames_resize, is_reported,
}
use ivory_operator.Volumes.Resized.{note_claims-resize_summary, resize_summary, all_conditions}
use ivory_operator.Volumes.Resizing.{is_resize, not_resizing, note_claims}

abbrev sample_volumes_env : VolumesEnv SampleError
sample_volumes_env = record {
  set_controller = λ v. none;
  apply = λ v. none;
  generate_startup_instance = λ s. s;
}

abbrev source_named : String → DataSourceVolume
source_named name = record { pvc_name = name; directory = "old" }

abbrev sample_sources : DataSourceVolumes
sample_sources = record {
  pg_data_volume = some (source_named "data-pvc");
  pg_wal_volume = some (source_named "wal-pvc");
  pgbackrest_volume = none;
}

abbrev sample_volumes_spec : VolumesSpec
sample_volumes_spec = record {
  cluster_name = "hippo";
  first_set = some ("one", "data claim");
  first_repo = none;
  volumes = some sample_sources;
}

abbrev claim_of : String → List PvcCondition → Pvc
claim_of name conditions = record { name = name; labels = []; spec = ""; conditions = conditions }

abbrev not_started : StartupStatus
not_started = record { startup_instance = ""; startup_instance_set = "" }

-- The claim of the WAL is given the specification of the data volume.
wal_claim_test :
    map {B = String × String}
      (λ (v : Pvc). (v.name, v.spec))
      (configure_existing_pvcs sample_volumes_env sample_volumes_spec [] not_started).1.applied
    ≡ ("wal-pvc", "data claim") ∷ ("data-pvc", "data claim") ∷ []
unfolding configure_existing_pvcs any
wal_claim_test = refl

configure_existing_pvcs-IsAdoption_example :
    IsAdoption
      (claim_of "other" [] ∷ [])
      (configure_existing_pvcs sample_volumes_env sample_volumes_spec
        (claim_of "other" [] ∷ [])
        not_started).1
configure_existing_pvcs-IsAdoption_example =
    configure_existing_pvcs-IsAdoption sample_volumes_env (claim_of "other" [] ∷ [])
      sample_volumes_spec not_started

abbrev sample_move_spec : MoveSpec
sample_move_spec = record {
  cluster_name = "hippo";
  metadata_labels = [];
  metadata_annotations = [];
  postgres_version = 14;
  postgres_image = "postgres";
  pgbackrest_image = "pgbackrest";
  image_pull_policy = "";
  image_pull_secrets = [];
  pod_security_context = "";
  first_set = none;
  repo_host = none;
  volumes = some sample_sources;
}

abbrev sample_move_env : MoveEnv SampleError
sample_move_env = record { set_controller = λ job. none; apply = λ before job. none }

abbrev moved_as : String → String → ObservedMove
moved_as name type = record {
  name = name;
  conditions = record { type = type; status = "True" } ∷ [];
}

-- Both directories were moved.
abbrev all_moved : List ObservedMove
all_moved =
    moved_as "hippo-move-pgdata-dir" "Complete" ∷ moved_as "hippo-move-pgwal-dir" "Complete" ∷ []

reconcile_dir_move_jobs-is_moved_example :
    is_moved (move_job_name move_wal_dir "hippo") all_moved ≡ true
unfolding reconcile_dir_move_jobs wanted_move
reconcile_dir_move_jobs-is_moved_example =
    reconcile_dir_move_jobs-is_moved sample_move_env sample_move_spec sample_sources all_moved refl
      refl refl move_wal_dir (source_named "wal-pvc") refl

-- The job for the data has failed.
abbrev one_failed : List ObservedMove
one_failed =
    moved_as "hippo-move-pgdata-dir" "Failed" ∷ moved_as "hippo-move-pgwal-dir" "Complete" ∷ []

again_test :
    length (reconcile_dir_move_jobs sample_move_env sample_move_spec (found one_failed)).applied ≡ 1
unfolding reconcile_dir_move_jobs
again_test = refl

abbrev resize_as : String → ℕ → PvcCondition
resize_as status time = record {
  type = "Resizing";
  status = status;
  reason = "";
  message = "said";
  last_transition_time = time;
}

abbrev resizing_claims : List Pvc
resizing_claims =
    claim_of "a" (resize_as "True" 7 ∷ []) ∷ claim_of "b" (resize_as "True" 5 ∷ []) ∷ []

oldest_test : (note_claims resizing_claims not_resizing).last_transition_time ≡ 5
unfolding note_claims
oldest_test = refl

note_claims-resize_summary_example :
    note_claims resizing_claims not_resizing
    ≡ resize_summary (filter is_resize (all_conditions resizing_claims))
unfolding all_conditions
note_claims-resize_summary_example = note_claims-resize_summary resizing_claims (refl, (refl, tt))

abbrev sample_volume_errors : VolumeErrors SampleError
sample_volume_errors = record {
  is_forbidden = λ e. false;
  is_invalid = λ e. true;
  reason = λ e. "Invalid";
  text = λ e. "cannot resize";
  causes = λ e. some (
      record { type = "FieldValueForbidden"; field_name = "spec.resources.requests.storage" } ∷ []);
}

abbrev no_conditions : List Condition
no_conditions = []

handle_persistent_volume_claim_error-is_reported_example :
    let failure =
      handle_persistent_volume_claim_error sample_volume_errors 3 no_conditions (some other) in
    (failure.err ≡ (if is_reported sample_volume_errors other then none else some other))
    × (failure.events
        ≡ repeated (num_warnings sample_volume_errors other) (sample_volume_errors.text other))
    × ((is_some failure.err || ltb 0 (length failure.events)) ≡ true)
    × (sample_conditions.find failure.conditions condition_resizing ≡ (
        if str_eq condition_resizing condition_resizing && blames_resize sample_volume_errors other
        then some (resize_failed sample_volume_errors 3 other)
        else none))
handle_persistent_volume_claim_error-is_reported_example =
    handle_persistent_volume_claim_error-is_reported sample_volume_errors 3 no_conditions other
      condition_resizing
