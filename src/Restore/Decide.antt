-- ===== src/Restore/Decide.antt =====
-- internal/controller/postgrescluster/cluster.go: what reconcileDataSource decides, once it has observed
-- the endpoints and the restore job.

-- PostgresClusterDataSource and PGBackRestDataSource: the cluster or the stanza, the repository, and the
-- options.
use ivory_operator.Backups.{pgbackrest_config_hash, is_true, JobStatus, BackupJob}
use ivory_operator.Kube.{found, failed, Answer, Condition, StatusConditions}
use ivory_operator.Prelude.{
  ◌||◌, label, str_eq, ◌∷◌, ◌&&◌, concat, none, [], false, is_empty, List, some, if◌then◌else◌, not,
  Option, Bool, String,
}
use ivory_operator.Restore.{
  reason_ready_for_restore, condition_postgres_data_initialized,
  condition_pgbackrest_restore_progressing, RestoreState,
}

pub data Source : Type 0 where
  cluster_source : String → String → List String → Source
  cloud_source : String → String → List String → Source

-- What is read of the cluster. `restore` has whether a restore is enabled, and its source;
-- `data_source` has the two sources of spec.dataSource.
pub record DataSourceSpec : Type 0 where
  pub name : String
  pub restore_annotation : String
  pub restore : Option (Bool × Option Source)
  pub data_source : Option (Option Source × Option Source)

pub data Decision (E : Type 0) : Type 0 where
  not_requested : Decision E
  hash_refused : E → Decision E
  prepare : String → Decision E
  initialized : Decision E
  populate : Option Source → String → Decision E

unfoldable pub restore_in_place : DataSourceSpec → Bool
restore_in_place spec =
    not (is_empty spec.restore_annotation)
    && (elim spec.restore [ none ↦ false | some (enabled, _) ↦ enabled ])

unfoldable pub source_of_restore : Option (Bool × Option Source) → Option Source
source_of_restore none = none
source_of_restore (some (enabled, source)) = source

unfoldable pub source_of_spec : Option Source → Option Source → Option Source
source_of_spec (some source) cloud = some source
source_of_spec none cloud = cloud

-- The data source of a new cluster, under its own identifier.
unfoldable pub requested_init :
    String → Option (Option Source × Option Source) → Option (String × Option Source)
unfolding source_of_spec
requested_init name none = none
requested_init name (some (none, none)) = none
requested_init name (some (some source, cloud)) =
    some (concat ("~pgo-bootstrap-" ∷ name ∷ []), source_of_spec (some source) cloud)
requested_init name (some (none, some cloud)) =
    some (concat ("~pgo-bootstrap-" ∷ name ∷ []), source_of_spec none (some cloud))

unfoldable pub requested : DataSourceSpec → Option (String × Option Source)
unfolding restore_in_place source_of_restore requested_init
requested spec =
    if restore_in_place spec
    then some (spec.restore_annotation, source_of_restore spec.restore)
    else requested_init spec.name spec.data_source

unfoldable pub configs : Option Source → List String
configs none = []
configs (some (cluster_source cluster_name repo_name options)) = cluster_name ∷ repo_name ∷ options
configs (some (cloud_source stanza repo_name options)) = stanza ∷ repo_name ∷ options

unfoldable pub is_reason : String → Option Condition → Bool
is_reason reason none = false
is_reason reason (some c) = str_eq c.reason reason

unfoldable pub id_of : Option JobStatus → String
id_of none = ""
id_of (some status) = status.id

unfoldable pub config_changed : String → Option BackupJob → Bool
config_changed hash none = false
config_changed hash (some job) = not (str_eq hash (label pgbackrest_config_hash job.annotations))

module _ {C : Type 0} ⦃sc : StatusConditions C⦄ where
  -- Whether prepareForRestore runs.
  unfoldable pub must_prepare : String → String → Option BackupJob → RestoreState C → Bool
  unfolding is_reason id_of config_changed
  must_prepare restore_id hash job s =
      let condition = sc.find s.conditions condition_pgbackrest_restore_progressing in
      let restoring = is_true condition in
      let ready = restoring && is_reason reason_ready_for_restore condition in
      (restoring && (not ready || config_changed hash job))
      || not (str_eq restore_id (id_of s.restore))

module _ {E C : Type 0} ⦃sc : StatusConditions C⦄ where
  unfoldable pub decide_hashed :
      Option BackupJob → RestoreState C → String → Option Source → Answer E String → Decision E
  unfolding must_prepare
  decide_hashed job s restore_id source (failed e) = hash_refused e
  decide_hashed job s restore_id source (found hash) =
      if must_prepare restore_id hash job s
      then prepare restore_id
      else if is_true (sc.find s.conditions condition_postgres_data_initialized)
      then initialized
      else populate source hash

  unfoldable pub decide_requested :
      (List String → Answer E String)
      → Option BackupJob
      → RestoreState C
      → Option (String × Option Source)
      → Decision E
  unfolding decide_hashed configs
  decide_requested hash job s none = not_requested
  decide_requested hash job s (some (restore_id, source)) =
      decide_hashed job s restore_id source (hash (configs source))

  -- reconcileDataSource up to the call that it makes; `hash` is safeHash32.
  unfoldable pub decide :
      (List String → Answer E String)
      → DataSourceSpec
      → Option BackupJob
      → RestoreState C
      → Decision E
  unfolding decide_requested requested
  decide hash spec job s = decide_requested hash job s (requested spec)
