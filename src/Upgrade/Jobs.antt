-- ===== src/Upgrade/Jobs.antt =====
-- jobs.go and utils.go: the jobs that the controller writes, and how it reads their conditions.
use mathlib.Core.List.{foldl}
use ivory_operator.Kube.{LabelSets, OwnerReferences}
use ivory_operator.Prelude.{
  String, Bool, true, false, Option, none, some, List, [], ◌∷◌, ◌++◌, Labels, is_empty, get_or,
  is_some, str_eq, concat, decimal, if◌then◌else◌,
}
use ivory_operator.Upgrade.{
  PgUpgrade, Job, JobCondition, StatefulSet, Container, PodTemplate, label_pg_upgrade,
  label_cluster, label_role, label_version, container_database, pg_upgrade, remove_data,
}

-- The return in the loop of jobFailed and jobCompleted: the first condition of the type decides.
unfoldable pub first_condition : String → List JobCondition → Bool
first_condition t [] = false
first_condition t (c ∷ rest) =
    if str_eq c.type t then str_eq c.status "True" else first_condition t rest

unfoldable pub job_failed : Job → Bool
unfolding first_condition
job_failed job = first_condition "Failed" job.conditions

unfoldable pub job_completed : Job → Bool
unfolding first_condition
job_completed job = first_condition "Complete" job.conditions

-- The name that pgUpgradeJob gives.
unfoldable pub pg_upgrade_job : PgUpgrade → String
unfolding concat
pg_upgrade_job u = concat (u.name ∷ "-pgdata" ∷ [])

unfoldable pub common_labels : String → PgUpgrade → Labels
common_labels role u =
    (label_pg_upgrade, u.name) ∷ (label_cluster, u.postgres_cluster_name) ∷ (label_role, role) ∷ []

-- Merge of utils.go, over any number of sets.
unfoldable pub merge_all : ⦃ls : LabelSets⦄ → List Labels → Labels
merge_all ⦃ls⦄ sets = foldl ls.merge [] sets

-- The loop that looks for the database container: the last one of that name.
unfoldable pub find_database : List Container → Option Container → Option Container
find_database [] found = found
find_database (c ∷ rest) found =
    find_database rest (if str_eq c.name container_database then some c else found)

-- The value of the image, else of the environment variable.
unfoldable pub default_from_env : (String → String) → String → String → String
default_from_env getenv value key = if is_empty value then getenv key else value

unfoldable pub pg_upgrade_container_image : (String → String) → PgUpgrade → String
unfolding default_from_env
pg_upgrade_container_image getenv u =
    default_from_env getenv (get_or u.image "") "RELATED_IMAGE_PGUPGRADE"

-- `none` is a panic: another controller is set.
unfoldable pub set_controller_reference : ⦃os : OwnerReferences⦄ → PgUpgrade → Job → Option Job
set_controller_reference ⦃os⦄ owner job =
    if is_some (os.controller_of job.owners)
    then none
    else some (record job {
      owners =
          job.owners
          ++ record {
            api_version = "postgres-operator.crunchydata.com/v1beta1";
            kind = "PGUpgrade";
            name = owner.name;
            uid = owner.uid;
            controller = true;
            block_owner_deletion = true;
          }
            ∷ [];
    })

-- The template that both jobs have, from that of a StatefulSet.
unfoldable pub job_template :
    (String → String) → PgUpgrade → Labels → PodTemplate → Container → PodTemplate
unfolding pg_upgrade_container_image
job_template getenv u labels template database = record template {
  labels = labels;
  annotations = u.metadata_annotations;
  image_pull_secrets = u.image_pull_secrets;
  restart_policy = "Never";
  ephemeral_containers = [];
  init_containers = [];
  containers =
      record {
        name = database.name;
        security_context = database.security_context;
        volume_mounts = database.volume_mounts;
        image = pg_upgrade_container_image getenv u;
        image_pull_policy = u.image_pull_policy;
        resources = u.resources;
      }
      ∷ [];
  affinity = u.affinity;
  priority_class_name = get_or u.priority_class_name "";
  tolerations = u.tolerations;
}

-- What generateUpgradeJob and generateRemoveDataJob have in common, from the name, the labels and the
-- database container that was found. `none` is a panic: without one, a nil pointer is read.
unfoldable pub build_job :
    ⦃os : OwnerReferences⦄
    → (String → String)
    → PgUpgrade
    → String
    → Labels
    → PodTemplate
    → Option Container
    → Option Job
unfolding job_template set_controller_reference
build_job getenv u name labels template none = none
build_job getenv u name labels template (some database) = set_controller_reference u (record {
  namespace = u.namespace;
  name = name;
  labels = labels;
  annotations = u.metadata_annotations;
  owners = [];
  backoff_limit = some 0;
  template = job_template getenv u labels template database;
  conditions = [];
})

module _ ⦃ls : LabelSets⦄ ⦃os : OwnerReferences⦄ where
  unfoldable pub generate_upgrade_job : (String → String) → PgUpgrade → StatefulSet → Option Job
  unfolding find_database merge_all common_labels pg_upgrade_job
  generate_upgrade_job getenv u startup =
      build_job getenv u (pg_upgrade_job u)
        (merge_all (
          u.metadata_labels
          ∷ common_labels pg_upgrade u
          ∷ ((label_version, decimal u.to_version) ∷ [])
          ∷ []))
        startup.template (find_database startup.template.containers none)

  unfoldable pub generate_remove_data_job : (String → String) → PgUpgrade → StatefulSet → Option Job
  unfolding find_database common_labels concat
  generate_remove_data_job getenv u sts =
      build_job getenv u (concat (u.name ∷ "-" ∷ sts.name ∷ []))
        (ls.merge u.metadata_labels (common_labels remove_data u)) sts.template
        (find_database sts.template.containers none)
