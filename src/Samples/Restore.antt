-- ===== src/Samples/Restore.antt =====
-- A cluster that is down, and one that still runs.
use ivory_operator.Instances.{is_running, is_primary}
use ivory_operator.Kube.{found, Answer, Condition}
use ivory_operator.Prelude.{
  true, some, String, false, length, any, label, ◌∷◌, refl, ◌≡◌, [], none, List,
}
use ivory_operator.Restore.{
  RestoreOutcome, runners_of, cluster_running, RestoreState, RestoreEnv, prepare_for_restore,
}
use ivory_operator.Restore.Decide.{cluster_source, populate, DataSourceSpec, requested, decide}
use ivory_operator.Restore.Ready.{prepare_for_restore-Prepared, Prepared}
use ivory_operator.Restore.Restored.{decide-populates}
use ivory_operator.Samples.Instances.{set_one, three}
use ivory_operator.Samples.Kube.{sample_errors, sample_conditions, SampleError, other}

abbrev restore_env : RestoreEnv SampleError
restore_env = record {
  respond = λ before call. none;
  generate_startup_instance = λ set. "hippo-one-abcd";
  new_error = λ s. other;
}

abbrev restore_state : RestoreState (List Condition)
restore_state = record {
  conditions = [];
  repos = [];
  manual = none;
  restore = none;
  startup_instance = "";
  startup_instance_set = "";
  system_identifier = "7";
  pgbouncer_revision = "";
  exporter_configuration = "";
}

restore_test :
    length
      (prepare_for_restore restore_env 1 [] three ("hippo-ha" ∷ []) none "now" restore_state).writes
    ≡ 3
unfolding prepare_for_restore is_primary label any is_running
restore_test = refl

prepare_for_restore-Prepared_example :
    Prepared restore_env 1 none
      (cluster_running three)
      (runners_of three)
      ("hippo-ha" ∷ [])
      restore_state
      (prepare_for_restore restore_env 1 [] three ("hippo-ha" ∷ []) none "now" restore_state)
prepare_for_restore-Prepared_example =
    prepare_for_restore-Prepared restore_env 1 [] three ("hippo-ha" ∷ []) none "now" restore_state

-- Nothing of the cluster is left: it is prepared, and then populated.
abbrev restore_spec : DataSourceSpec
restore_spec = record {
  name = "hippo";
  restore_annotation = "now";
  restore = some (true, some (cluster_source "hippo" "repo1" []));
  data_source = none;
}

abbrev hash_configs : List String → Answer SampleError String
hash_configs configs = found "digest"

abbrev prepared : RestoreOutcome SampleError (List Condition)
prepared = prepare_for_restore restore_env 1 (set_one ∷ []) [] [] none "now" restore_state

is_requested : requested restore_spec ≡ some ("now", some (cluster_source "hippo" "repo1" []))
unfolding requested
is_requested = refl

none_running : cluster_running [] ≡ false
unfolding cluster_running any
none_running = refl

is_accepted : prepared.err ≡ none
unfolding prepare_for_restore any
is_accepted = refl

is_safe : prepared.panics ≡ false
unfolding prepare_for_restore any
is_safe = refl

decide-populates_example :
    decide hash_configs restore_spec none prepared.state
    ≡ populate (some (cluster_source "hippo" "repo1" [])) "digest"
decide-populates_example =
    decide-populates restore_env 1 hash_configs restore_spec (set_one ∷ []) [] "now" "digest"
      (some (cluster_source "hippo" "repo1" [])) restore_state is_requested refl none_running
      is_accepted is_safe
