-- ===== src/Samples/Upgrade.antt =====
-- An upgrade from version 13 to 14 of a cluster with one primary and one replica.
use mathlib.Core.List.{Memᴰ}
use ivory_operator.Kube.{OwnerReference, found, Condition}
use ivory_operator.Prelude.{
  any, arith, decimal, insert, length, lookup, label, false, refl, Labels, ◌↔◌, map, true, ◌⊎◌,
  none, some, ◌∷◌, [], ◌≡◌, String, All, List,
}
use ivory_operator.Samples.Kube.{
  other, sample_errors, sample_conditions, sample_labels, sample_owners, SampleError,
}
use ivory_operator.Upgrade.{
  label_pg_upgrade, label_cluster, label_version, label_instance, JobCondition, label_role,
  StatefulSet, label_patroni, Job, annotation_allow_upgrade, PgUpgrade, PodTemplate, Cluster,
  Endpoints,
}
use ivory_operator.Upgrade.Effects.{
  stop_with, delete_all_endpoints, apply, set_condition, delete_endpoints, not_progressing,
  scan_remove_data, apply_job, progressing_if_reason_was, see_jobs, stop, patch_upgrade_status, Env,
}
use ivory_operator.Upgrade.Jobs.{
  job_failed, job_completed, generate_remove_data_job, build_job, pg_upgrade_job,
  generate_upgrade_job,
}
use ivory_operator.Upgrade.Observe.{visit_stateful_set, visit_stateful_sets, observe_world}
use ivory_operator.Upgrade.Observed.{observe_shutdown_iff, answered}
use ivory_operator.Upgrade.Order.{clear_endpoints_last}
use ivory_operator.Upgrade.Progress.{CanStart, check_upgrade-Applied}
use ivory_operator.Upgrade.Reconcile.{
  send_status, after_apply, remove_complete, has_succeeded, clear_endpoints, run_jobs, act,
  check_cluster, check_versions, check_world, check_upgrade, reconcile,
}
use ivory_operator.Upgrade.Safety.{reconcile-Authorised, Authorised}
use ivory_operator.Upgrade.Success.{reconcile_success-Achieved, Achieved}

abbrev template : PodTemplate
template = record {
  labels = [];
  annotations = [];
  containers =
      record {
        name = "database";
        image = "pg";
        image_pull_policy = "";
        security_context = "";
        volume_mounts = [];
        resources = "";
      }
      ∷ [];
  init_containers = [];
  ephemeral_containers = [];
  image_pull_secrets = [];
  restart_policy = "Always";
  affinity = none;
  priority_class_name = "";
  tolerations = [];
  copied = "";
}

abbrev set_of : String → StatefulSet
set_of name = record { name = name; labels = (label_instance, name) ∷ []; template = template }

abbrev hippo : Cluster
hippo = record {
  name = "hippo";
  generation = 2;
  annotations = (annotation_allow_upgrade, "up") ∷ [];
  postgres_version = 13;
  shutdown = some true;
  observed_generation = 2;
  startup_instance = "hippo-a";
  set_replicas = 0 ∷ [];
  status_version = 0;
  status_repos = [];
}

abbrev up : PgUpgrade
up = record {
  namespace = "ns";
  name = "up";
  uid = "1";
  generation = 1;
  postgres_cluster_name = "hippo";
  from_version = 13;
  to_version = 14;
  metadata_labels = (label_role, "other") ∷ [];
  metadata_annotations = [];
  image = some "img";
  image_pull_policy = "";
  image_pull_secrets = [];
  resources = "";
  affinity = none;
  priority_class_name = none;
  tolerations = [];
}

abbrev endpoint : Endpoints
endpoint = record { name = "hippo-ha"; labels = (label_patroni, "hippo-ha") ∷ [] }

abbrev sets : List StatefulSet
sets = set_of "hippo-a" ∷ set_of "hippo-b" ∷ []

-- The environment at the start, and with jobs and a cluster of choice.
abbrev env_with : Cluster → List Job → Env SampleError (List Condition)
env_with c jobs = record {
  get_upgrade = found (up, []);
  reads = answered c (endpoint ∷ []) jobs sets;
  respond = λ ws w. none;
  range = λ k m. map (λ (e : String × Job). e.1) m;
  getenv = λ s. "";
}

abbrev begin : Env SampleError (List Condition)
begin = env_with hippo []

abbrev owner : OwnerReference
owner = record {
  api_version = "postgres-operator.crunchydata.com/v1beta1";
  kind = "PGUpgrade";
  name = "up";
  uid = "1";
  controller = true;
  block_owner_deletion = true;
}

-- What the stand-in merges from the metadata, the common labels and more.
abbrev built_labels : String → Labels → Labels
built_labels role more =
    (label_role, role) ∷ (label_cluster, "hippo") ∷ (label_pg_upgrade, "up") ∷ more

abbrev built_template : Labels → PodTemplate
built_template labels = record template {
  labels = labels;
  restart_policy = "Never";
  containers =
      record {
        name = "database";
        image = "img";
        image_pull_policy = "";
        security_context = "";
        volume_mounts = [];
        resources = "";
      }
      ∷ [];
}

-- Applied to a job with conditions, as the controller sees it later.
abbrev done_as : String → List JobCondition → String → Job
done_as name conditions role = record {
  namespace = "ns";
  name = name;
  labels = (label_role, role) ∷ [];
  annotations = [];
  owners = [];
  backoff_limit = some 0;
  template = template;
  conditions = conditions;
}

abbrev complete : List JobCondition
complete = record { type = "Complete"; status = "True" } ∷ []

abbrev all_done : List Job
all_done =
    done_as "up-pgdata" complete "pgupgrade" ∷ done_as "up-hippo-b" complete "removedata" ∷ []

-- The jobs that the controller builds, with the labels that the stand-in merges.
abbrev first_job : Job
first_job = record {
  namespace = "ns";
  name = "up-pgdata";
  labels = built_labels "pgupgrade" ((label_version, "14") ∷ []);
  annotations = [];
  owners = owner ∷ [];
  backoff_limit = some 0;
  template = built_template (built_labels "pgupgrade" ((label_version, "14") ∷ []));
  conditions = [];
}

abbrev second_job : Job
second_job = record first_job {
  name = "up-hippo-b";
  labels = built_labels "removedata" [];
  template = built_template (built_labels "removedata" []);
}

abbrev upgraded : Cluster
upgraded = record hippo { status_version = 14; postgres_version = 14 }

reconcile-Authorised_example :
    All (λ wr. (wr ≡ patch_upgrade_status) ⊎ Authorised begin up wr) (reconcile begin []).writes
reconcile-Authorised_example = reconcile-Authorised begin [] [] up refl

-- The first reconcile applies the job and deletes the endpoints, and asks to be called again.
begin_requeues : ((reconcile begin []).requeue ≡ true) × (length (reconcile begin []).writes ≡ 3)
unfolding reconcile check_upgrade check_world observe_world check_versions check_cluster act
    run_jobs has_succeeded progressing_if_reason_was not_progressing set_condition see_jobs
    scan_remove_data remove_complete generate_upgrade_job build_job after_apply apply
    clear_endpoints delete_all_endpoints send_status stop stop_with lookup insert label
    visit_stateful_sets visit_stateful_set pg_upgrade_job
begin_requeues = (refl, refl)

fresh : has_succeeded {C = List Condition} [] ≡ false
unfolding has_succeeded
fresh = refl

reports : has_succeeded (reconcile (env_with upgraded all_done) []).conditions ≡ true
unfolding reconcile check_upgrade check_world observe_world check_versions check_cluster act
    run_jobs has_succeeded progressing_if_reason_was not_progressing set_condition see_jobs
    scan_remove_data remove_complete generate_upgrade_job build_job after_apply apply
    clear_endpoints delete_all_endpoints send_status stop stop_with lookup insert label
    visit_stateful_sets visit_stateful_set pg_upgrade_job job_completed job_failed
reports = refl

builds_first : generate_upgrade_job (λ s. "") up (set_of "hippo-a") ≡ some first_job
unfolding generate_upgrade_job build_job lookup insert decimal
builds_first = refl

builds_second : generate_remove_data_job (λ s. "") up (set_of "hippo-b") ≡ some second_job
unfolding generate_remove_data_job build_job lookup insert
builds_second = refl

can_start : CanStart begin up [] hippo (set_of "hippo-a")
unfolding reconcile check_upgrade check_world observe_world check_versions check_cluster act
    run_jobs has_succeeded progressing_if_reason_was not_progressing set_condition see_jobs
    scan_remove_data remove_complete generate_upgrade_job build_job after_apply apply
    clear_endpoints delete_all_endpoints send_status stop stop_with lookup insert label
    visit_stateful_sets visit_stateful_set pg_upgrade_job any
can_start = record {
  fresh = fresh;
  older = omega arith;
  read = refl;
  present = refl;
  observed = refl;
  at_version = refl;
  not_yet = omega arith;
  shut_down = refl;
  primary = refl;
  allowed = refl;
  no_upgrade_failed = refl;
  no_remove_failed = refl;
  incomplete = refl;
  has_database = refl;
}

reconcile_success-Achieved_example : Achieved (env_with upgraded all_done) up
reconcile_success-Achieved_example =
    reconcile_success-Achieved (env_with upgraded all_done) [] [] up refl fresh reports

check_upgrade-Applied_example :
    (j : Job) × (generate_upgrade_job begin.getenv up (set_of "hippo-a") ≡ some j)
    × Memᴰ (apply_job j) (check_upgrade begin up []).writes
    × ((check_upgrade begin up []).panicked ≡ false)
check_upgrade-Applied_example = check_upgrade-Applied begin up [] hippo (set_of "hippo-a") can_start

observe_shutdown_iff_example :
    ((observe_world {E = SampleError} (answered hippo [] [] sets)).0.cluster_shutdown ≡ true) ↔ (
      (hippo.shutdown ≡ some true)
      × (hippo.observed_generation ≡ hippo.generation)
      × All (λ n. n ≡ 0) hippo.set_replicas)
observe_shutdown_iff_example = observe_shutdown_iff SampleError hippo [] [] sets

clear_endpoints_last_example :
    clear_endpoints begin up (endpoint ∷ []) [] (some other) [] ≡ record {
      requeue = true;
      err = none;
      panicked = false;
      conditions = [];
      writes = delete_endpoints endpoint ∷ [];
    }
clear_endpoints_last_example = clear_endpoints_last begin up [] endpoint [] (some other) []
