-- ===== src/Samples/Patroni.antt =====
-- A switchover over three reconciles, of which the second loses its status; and configurations.
use ivory_operator.Instances.{running_status, of_one_pod, is_running}
use ivory_operator.Patroni.Config.{
  as_section, no_values, items, no_entries, section, Value, Parameters, Settings, text, values,
  entries,
}
use ivory_operator.Patroni.Lookups.{section_at}
use ivory_operator.Patroni.Mandatory.{
  other_value, with_other, dynamic_configuration-mandatory, postgresql_of,
}
use ivory_operator.Patroni.Once.{SwitchoverWorld, run_once, Moment, next_world, run}
use ivory_operator.Patroni.Restarting.{handle_patroni_restarts-IsDueRestart, IsDueRestart}
use ivory_operator.Patroni.Restarts.{handle_patroni_restarts}
use ivory_operator.Patroni.Switchover.{
  only_one, is_switched, record_change, compare_timeline, read_timeline, running_pod,
  with_running_pod, choose_target, switch_enabled, reconcile_patroni_switchover, SwitchoverEnv,
  SwitchoverSpec,
}
use ivory_operator.Postgres.{new_hbas, to_text}
use ivory_operator.Postgres.Parameters.{
  copy_labels, as_map, add_all_refines, last_added, new_parameter_set, deep_copy, add, add_all, get,
  new_parameters,
}
use ivory_operator.Prelude.{
  if◌then◌else◌, refl, some, arith, ◌≡◌, false, [], str_eq, inr, ◌∷◌, insert, ◌≤◌, true, Bool,
  count, none, GoMap, ℕ, lookup, List, String,
}
use ivory_operator.Samples.Instances.{three}
use ivory_operator.Samples.Kube.{other, SampleError}

abbrev switch_spec : SwitchoverSpec
switch_spec = record { enabled = true; type = "Switchover"; target_instance = none }

abbrev env_at : ℕ → SwitchoverEnv SampleError
env_at timeline = record {
  get_timeline = λ pod. (timeline, none);
  change = λ pod change. (true, none);
  new_error = λ s. other;
}

abbrev moment_at : ℕ → Bool → ℕ → Moment SampleError
moment_at timeline saved after = record {
  env = env_at timeline;
  instances = three;
  saved = saved;
  after = after;
}

abbrev moments : List (Moment SampleError)
moments = moment_at 5 true 5 ∷ moment_at 5 false 6 ∷ moment_at 6 true 6 ∷ []

abbrev begin_at : SwitchoverWorld
begin_at = record {
  status = record { switchover = none; timeline = none };
  timeline = 5;
  changes = 0;
}

run_test : run switch_spec "now" moments begin_at ≡ record {
  status = record { switchover = some "now"; timeline = none };
  timeline = 6;
  changes = 1;
}
unfolding run next_world reconcile_patroni_switchover switch_enabled choose_target with_running_pod
    running_pod read_timeline compare_timeline record_change is_switched only_one is_running
    of_one_pod running_status
run_test = refl

run_once_example : (run switch_spec "now" moments begin_at).changes ≤ 1
unfolding next_world
run_once_example =
    run_once switch_spec "now" refl refl moments begin_at
      (
        (λ p h. inr refl, omega arith),
        ((λ p h. inr refl, omega arith), ((λ p h. inr refl, omega arith), tt)),
      )
      refl

handle_patroni_restarts-IsDueRestart_example : IsDueRestart three (handle_patroni_restarts three)
handle_patroni_restarts-IsDueRestart_example = handle_patroni_restarts-IsDueRestart three

abbrev lower : String → String
lower name = name

abbrev sample_settings : Settings
sample_settings = record {
  leader_lease_duration_seconds = 30;
  sync_period_seconds = 10;
  postgres_version = 14;
  standby = none;
}

abbrev preloading_parameters : Parameters
preloading_parameters = record {
  mandatory = ("ssl", "on") ∷ ("shared_preload_libraries", "pgaudit") ∷ [];
  defaults = ("jit", "off") ∷ ("shared_preload_libraries", "auto_explain") ∷ [];
}

-- A user who wants no encryption and another library, and writes rules.
abbrev user_configuration : GoMap Value
user_configuration =
    (
      "postgresql",
      section (
          entries "parameters"
            (section (
              entries "ssl" (text "off")
                (entries "shared_preload_libraries" (text "pg_cron") no_entries)))
            (entries "pg_hba" (items (values (text "host all all all trust") no_values))
              no_entries)),
    )
    ∷ []

dynamic_configuration-mandatory_example :
    lookup "shared_preload_libraries" (
      section_at "parameters" (
        postgresql_of sample_settings
          (to_text lower)
          (new_hbas lower)
          preloading_parameters
          user_configuration))
    ≡ some (
        text (
          if str_eq "shared_preload_libraries" "shared_preload_libraries"
          then with_other "pgaudit" (
              other_value "shared_preload_libraries" user_configuration
                preloading_parameters.defaults)
          else "pgaudit"))
unfolding lookup count as_section
dynamic_configuration-mandatory_example =
    dynamic_configuration-mandatory sample_settings (to_text lower) (new_hbas lower)
      preloading_parameters user_configuration "shared_preload_libraries" "pgaudit" refl refl
      (omega arith) (omega arith) (omega arith) (omega arith)

-- The string of the user comes after the mandatory one, and counts before the default.
preloaded_test :
    with_other "pgaudit"
      (other_value "shared_preload_libraries" user_configuration preloading_parameters.defaults)
    ≡ "pgaudit,pg_cron"
unfolding with_other other_value lookup as_section
preloaded_test = refl

add_all_refines_example :
    get lower (add_all lower (("jit", "on") ∷ ("jit", "off") ∷ []) new_parameter_set)
    ≡ last_added lower (("jit", "on") ∷ ("jit", "off") ∷ []) (get lower new_parameter_set)
add_all_refines_example =
    add_all_refines lower (("jit", "on") ∷ ("jit", "off") ∷ []) new_parameter_set

deep_copy_test : get lower (deep_copy (new_parameters lower).mandatory) "ssl" ≡ some "on"
unfolding new_parameters add insert get lookup deep_copy as_map copy_labels
deep_copy_test = refl
