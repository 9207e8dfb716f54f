-- ===== src/Backups.antt =====
-- internal/controller/postgrescluster/pgbackrest.go and internal/pgbackrest: the objects that the
-- backups are about. Times are opaque text.
pub mod Stanza
pub mod Created
pub mod Repos
pub mod Carried
pub mod Job
pub mod Manual
pub mod ManualDue
pub mod Replica
pub mod ReplicaOwed
pub mod ReplicaDue
pub mod ManualKept
pub mod OneJob
pub mod Honest
pub mod Cleanup
pub mod Gather
pub mod Spared
pub mod Unneeded
pub mod Keeping
pub mod Needed
use mathlib.Core.List.{foldl}
use ivory_operator.Instances.{is_writable, surely, Instance}
use ivory_operator.Kube.{Condition, Answer, LabelSets}
use ivory_operator.Prelude.{
  none, some, is_some, false, str_eq, [], if◌then◌else◌, any, ◌∷◌, ℕ, Option, Labels, Bool, String,
  List,
}
use ivory_operator.Upgrade.{label_cluster, JobCondition}
use ivory_operator.Upgrade.Jobs.{first_condition}

-- v1beta1.PGBackRestRepo; the three fields of a storage are whether it is given.
pub record Repo : Type 0 where
  pub name : String
  pub has_volume : Bool
  pub full_schedule : Option String
  pub differential_schedule : Option String
  pub incremental_schedule : Option String
  pub has_schedules : Bool

-- v1beta1.RepoStatus
pub record RepoStatus : Type 0 where
  pub name : String
  pub bound : Bool
  pub volume_name : String
  pub stanza_created : Bool
  pub replica_create_backup_complete : Bool
  pub repo_options_hash : String

-- A persistent volume claim of a repository.
pub record RepoVolume : Type 0 where
  pub labels : Labels
  pub phase : String
  pub volume_name : String

-- v1beta1.PGBackRestJobStatus
pub record JobStatus : Type 0 where
  pub id : String
  pub finished : Bool
  pub start_time : String
  pub completion_time : String
  pub active : ℕ
  pub succeeded : ℕ
  pub failed : ℕ

-- batchv1.Job; `spec` is what generateBackupJobSpecIntent makes.
pub record BackupJob : Type 0 where
  pub name : String
  pub labels : Labels
  pub annotations : Labels
  pub spec : String
  pub conditions : List JobCondition
  pub start_time : String
  pub completion_time : String
  pub active : ℕ
  pub succeeded : ℕ
  pub failed : ℕ

-- v1beta1.PGBackRestManualBackup
pub record ManualBackup : Type 0 where
  pub repo_name : String
  pub options : List String

-- What is read of the cluster but its status.
pub record BackupSpec : Type 0 where
  pub cluster_name : String
  pub generation : ℕ
  pub annotations : Labels
  pub metadata_labels : Labels
  pub metadata_annotations : Labels
  pub pgbackrest_labels : Labels
  pub pgbackrest_annotations : Labels
  pub repos : List Repo
  pub manual : Option ManualBackup

-- The status of the cluster.
pub record BackupState (C : Type 0) : Type 0 where
  pub conditions : C
  pub repos : List RepoStatus
  pub manual : Option JobStatus

pub data BackupWrite : Type 0 where
  delete_job : BackupJob → BackupWrite
  apply_job : BackupJob → BackupWrite
  event : String → BackupWrite

-- What is returned, the status, and the writes, newest first.
pub record BackupOutcome (E C : Type 0) : Type 0 where
  pub err : Option E
  pub state : BackupState C
  pub writes : List BackupWrite

-- The answers of the API, the jobs that generateBackupJobSpecIntent and SetControllerReference
-- refuse, the random name of PGBackRestBackupJob, and errors.Errorf.
pub record BackupEnv (E : Type 0) : Type 0 where
  pub respond : List BackupWrite → BackupWrite → Option E
  pub job_spec : Repo → Labels → Labels → List String → Answer E String
  pub set_controller : BackupJob → Option E
  pub new_job_name : String
  pub new_error : String → E

-- The constants of pgbackrest.go and of internal/naming.
abbrev pub condition_manual_backup_successful : String
condition_manual_backup_successful = "PGBackRestManualBackupSuccessful"

abbrev pub condition_replica_create : String
condition_replica_create = "PGBackRestReplicaCreate"

abbrev pub condition_replica_repo_ready : String
condition_replica_repo_ready = "PGBackRestReplicaRepoReady"

abbrev pub condition_repo_host_ready : String
condition_repo_host_ready = "PGBackRestRepoHostReady"

abbrev pub label_pgbackrest : String
label_pgbackrest = "postgres-operator.crunchydata.com/pgbackrest"

abbrev pub label_pgbackrest_backup : String
label_pgbackrest_backup = "postgres-operator.crunchydata.com/pgbackrest-backup"

abbrev pub label_pgbackrest_repo : String
label_pgbackrest_repo = "postgres-operator.crunchydata.com/pgbackrest-repo"

abbrev pub pgbackrest_backup : String
pgbackrest_backup = "postgres-operator.crunchydata.com/pgbackrest-backup"

abbrev pub pgbackrest_config_hash : String
pgbackrest_config_hash = "postgres-operator.crunchydata.com/pgbackrest-hash"

abbrev pub pgbackrest_current_config : String
pgbackrest_current_config = "postgres-operator.crunchydata.com/pgbackrest-config"

unfoldable pub job_failed : BackupJob → Bool
job_failed job = first_condition "Failed" job.conditions

unfoldable pub job_completed : BackupJob → Bool
job_completed job = first_condition "Complete" job.conditions

-- `condition != nil && condition.Status == metav1.ConditionTrue`
unfoldable pub is_true : Option Condition → Bool
is_true none = false
is_true (some c) = str_eq c.status "True"

-- The loop that looks for a writable instance.
unfoldable pub cluster_writable : List Instance → Bool
cluster_writable is = any (λ i. surely (is_writable i)) is

-- DedicatedRepoHostEnabled
unfoldable pub dedicated_repo_host_enabled : List Repo → Bool
dedicated_repo_host_enabled repos = any (λ (r : Repo). r.has_volume) repos

-- backupScheduleFound
unfoldable pub backup_schedule_found : Repo → String → Bool
backup_schedule_found repo backup_type =
    if repo.has_schedules
    then (if str_eq backup_type "full"
        then is_some repo.full_schedule
        else if str_eq backup_type "diff"
        then is_some repo.differential_schedule
        else if str_eq backup_type "incr"
        then is_some repo.incremental_schedule
        else false)
    else false

-- Merge of naming, over any number of sets.
unfoldable pub merge_labels : ⦃ls : LabelSets⦄ → List Labels → Labels
merge_labels ⦃ls⦄ sets = foldl ls.merge [] sets

unfoldable pub pgbackrest_labels : String → Labels
pgbackrest_labels cluster_name = (label_cluster, cluster_name) ∷ (label_pgbackrest, "") ∷ []

unfoldable pub pgbackrest_backup_job_labels : ⦃ls : LabelSets⦄ → String → String → String → Labels
unfolding pgbackrest_labels
pgbackrest_backup_job_labels ⦃ls⦄ cluster_name repo_name backup_type =
    ls.merge ((label_pgbackrest_repo, repo_name) ∷ (label_pgbackrest_backup, backup_type) ∷ [])
      (pgbackrest_labels cluster_name)
