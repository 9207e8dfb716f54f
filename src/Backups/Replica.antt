-- ===== src/Backups/Replica.antt =====
-- pgbackrest.go: reconcileReplicaCreateBackup and getPGBackRestExecSelector.

use ivory_operator.Backups.{
  job_completed, delete_job, condition_replica_repo_ready, condition_repo_host_ready,
  pgbackrest_config_hash, is_true, pgbackrest_current_config, label_pgbackrest_repo,
  dedicated_repo_host_enabled, cluster_writable, BackupOutcome, BackupState, some, BackupSpec,
  job_failed, condition_replica_create, ◌∷◌, BackupEnv, BackupJob, RepoStatus, Repo,
}
use ivory_operator.Backups.Created.{repo_status_of}
use ivory_operator.Backups.Job.{fails, stays, make_job}
use ivory_operator.Instances.{Instance}
use ivory_operator.Kube.{Condition, StatusConditions, LabelSets}
use ivory_operator.Patroni.Switchover.{container_database}
use ivory_operator.Prelude.{
  ◌&&◌, label, not, ◌||◌, [], none, str_eq, true, Bool, if◌then◌else◌, Option, ℕ, List, String,
}

-- PGBackRestRepoContainerName of internal/naming.
abbrev pub container_repo_host : String
container_repo_host = "pgbackrest"

-- The container of getPGBackRestExecSelector; `primary` is what AsSelector refuses of the selector
-- of the primary.
unfoldable pub exec_selector : {E : Type 0} → Option E → Repo → String × Option E
exec_selector primary repo =
    if repo.has_volume then (container_repo_host, none) else (container_database, primary)

-- The condition that the deferred function sets.
unfoldable pub replica_create_condition : ℕ → Option RepoStatus → Condition
replica_create_condition generation none = record {
  type = condition_replica_create;
  status = "Unknown";
  reason = "RepoStatusMissing";
  message = "Status is missing for the replica create repo";
  observed_generation = generation;
}
replica_create_condition generation (some s) =
    if s.replica_create_backup_complete
    then record {
      type = condition_replica_create;
      status = "True";
      reason = "RepoBackupComplete";
      message = "pgBackRest replica creation is now possible";
      observed_generation = generation;
    }
    else record {
      type = condition_replica_create;
      status = "False";
      reason = "RepoBackupNotComplete";
      message = "pgBackRest replica creation is not currently possible";
      observed_generation = generation;
    }

-- The status that the pointer is to, the first of the name, is marked.
unfoldable pub mark_complete : String → List RepoStatus → List RepoStatus
mark_complete name [] = []
mark_complete name (s ∷ rest) =
    let later = mark_complete name rest in
    if str_eq s.name name
    then record s { replica_create_backup_complete = true } ∷ rest
    else s ∷ later

-- A job that is deleted, whether it runs or not.
unfoldable pub is_stale : String → String → String → BackupJob → Bool
is_stale repo_name container config_hash job =
    job_failed job
    || not (str_eq repo_name (label label_pgbackrest_repo job.labels))
    || not (str_eq (label pgbackrest_current_config job.annotations) container)
    || not (str_eq (label pgbackrest_config_hash job.annotations) config_hash)

unfoldable pub no_backup_to_take : List Instance → Option RepoStatus → Bool
no_backup_to_take instances none = true
no_backup_to_take instances (some status) =
    not (cluster_writable instances) || status.replica_create_backup_complete

module _ {E C : Type 0} ⦃ls : LabelSets⦄ ⦃sc : StatusConditions C⦄ (env : BackupEnv E) where
  -- The job is made, under the name of the first repository. The caller passes
  -- the first repository as `repo`; without any the code would panic here, but then no status has the name
  -- of `repo` and this is not called.
  unfoldable pub apply_replica_create :
      BackupSpec → Option BackupJob → Repo → String → String → BackupState C → BackupOutcome E C
  unfolding make_job
  apply_replica_create spec current repo container config_hash s = elim spec.repos [
    | [] ↦ stays env s
    | first ∷ _ ↦
        make_job env spec s current repo first.name "replica-create"
          ((pgbackrest_current_config, container) ∷ (pgbackrest_config_hash, config_hash) ∷ []) []
  ]

  unfoldable pub take_replica_create :
      BackupSpec → List BackupJob → Repo → String → String → BackupState C → BackupOutcome E C
  unfolding apply_replica_create is_stale mark_complete
  take_replica_create spec [] repo container config_hash s =
      if (dedicated_repo_host_enabled spec.repos
          && not (is_true (sc.find s.conditions condition_repo_host_ready)))
        || not (is_true (sc.find s.conditions condition_replica_repo_ready))
      then stays env s
      else apply_replica_create spec none repo container config_hash s
  take_replica_create spec (job ∷ rest) repo container config_hash s =
      if is_stale repo.name container config_hash job
      then record { err = env.respond [] (delete_job job); state = s; writes = delete_job job ∷ [] }
      else if job_completed job
      then stays env (record s { repos = mark_complete repo.name s.repos })
      else apply_replica_create spec (some job) repo container config_hash s

  unfoldable pub select_replica_create :
      BackupSpec
      → List BackupJob
      → Repo
      → String
      → BackupState C
      → String × Option E
      → BackupOutcome E C
  unfolding take_replica_create
  select_replica_create spec jobs repo config_hash s (container, some e) = fails env s e
  select_replica_create spec jobs repo config_hash s (container, none) =
      take_replica_create spec jobs repo container config_hash s

  -- reconcileReplicaCreateBackup, with the jobs that were found.
  unfoldable pub reconcile_replica_create_backup :
      BackupSpec
      → List Instance
      → List BackupJob
      → String
      → Repo
      → Option E
      → BackupState C
      → BackupOutcome E C
  unfolding select_replica_create no_backup_to_take exec_selector replica_create_condition
  reconcile_replica_create_backup spec instances jobs config_hash repo primary s =
      let out : BackupOutcome E C =
        if no_backup_to_take instances (repo_status_of repo.name s.repos)
        then stays env s
        else select_replica_create spec jobs repo config_hash s (exec_selector primary repo) in
      record out {
        state = record out.state {
          conditions =
              sc.set out.state.conditions (
                replica_create_condition spec.generation
                  (repo_status_of repo.name out.state.repos));
        };
      }
