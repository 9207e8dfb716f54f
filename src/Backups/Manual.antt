-- ===== src/Backups/Manual.antt =====
-- pgbackrest.go: reconcileManualBackup.

use ivory_operator.Backups.{
  condition_replica_create, condition_repo_host_ready, is_true, cluster_writable, delete_job, event,
  dedicated_repo_host_enabled, pgbackrest_backup, job_failed, job_completed, ◌∷◌,
  condition_manual_backup_successful, some, BackupOutcome, Repo, ManualBackup, RepoStatus,
  BackupSpec, BackupEnv, JobStatus, BackupState, BackupJob,
}
use ivory_operator.Backups.Job.{stays, fails, make_job}
use ivory_operator.Instances.{Instance}
use ivory_operator.Kube.{StatusConditions, LabelSets}
use ivory_operator.Patroni.Api.{contains}
use ivory_operator.Prelude.{
  any, ◌&&◌, is_empty, not, concat, true, [], label, none, str_eq, false, ◌||◌, if◌then◌else◌, Bool,
  List, String, Option,
}

-- What a job tells of the backup that the status is about.
unfoldable pub note_job : BackupJob → JobStatus → JobStatus
note_job job status = record {
  id = status.id;
  finished = status.finished || (job_completed job || job_failed job);
  start_time = job.start_time;
  completion_time = job.completion_time;
  active = job.active;
  succeeded = job.succeeded;
  failed = job.failed;
}

-- A status for the backup that is asked for.
unfoldable pub is_status_for : String → Option JobStatus → Bool
is_status_for annotation none = false
is_status_for annotation (some status) = str_eq status.id annotation

module _ {C : Type 0} ⦃sc : StatusConditions C⦄ where
  unfoldable pub note_result : BackupSpec → BackupJob → C → C
  note_result spec job cs =
      if job_completed job
      then sc.set cs (record {
        type = condition_manual_backup_successful;
        status = "True";
        reason = "ManualBackupComplete";
        message = "Manual backup completed successfully";
        observed_generation = spec.generation;
      })
      else if job_failed job
      then sc.set cs (record {
        type = condition_manual_backup_successful;
        status = "False";
        reason = "ManualBackupFailed";
        message = "Manual backup did not complete successfully";
        observed_generation = spec.generation;
      })
      else cs

  unfoldable pub note_manual :
      BackupSpec → BackupJob → Option JobStatus → BackupState C → BackupState C
  unfolding note_job note_result
  note_manual spec job none s = s
  note_manual spec job (some status) s =
      if str_eq status.id (label pgbackrest_backup job.annotations)
      then record s {
        conditions = note_result spec job s.conditions;
        manual = some (note_job job status);
      }
      else s

  unfoldable pub begin_manual : String → BackupState C → BackupState C
  unfolding is_status_for
  begin_manual annotation s = if is_status_for annotation s.manual then s else record s {
    conditions = sc.remove s.conditions condition_manual_backup_successful;
    manual = some (record {
      id = annotation;
      finished = false;
      start_time = "";
      completion_time = "";
      active = 0;
      succeeded = 0;
      failed = 0;
    });
  }

unfoldable pub is_finished : Option JobStatus → Bool
is_finished none = false
is_finished (some status) = status.finished

-- The loop over the statuses: whether there is one of the name, and the mark of the last.
unfoldable pub find_status : String → List RepoStatus → Bool × Bool → Bool × Bool
find_status name [] seen = seen
find_status name (s ∷ rest) seen =
    find_status name rest (if str_eq s.name name then (true, s.stanza_created) else seen)

-- The last repository of the name.
unfoldable pub find_repo : String → List Repo → Option Repo → Option Repo
find_repo name [] seen = seen
find_repo name (r ∷ rest) seen = find_repo name rest (if str_eq r.name name then some r else seen)

-- An option that names a repository.
unfoldable pub names_repo : String → Bool
unfolding contains
names_repo opt = contains opt "--repo=" || contains opt "--repo "

module _ {E C : Type 0} ⦃ls : LabelSets⦄ ⦃sc : StatusConditions C⦄ (env : BackupEnv E) where
  abbrev pub warns : BackupState C → String → BackupOutcome E C
  warns s reason = record { err = none; state = s; writes = event reason ∷ [] }

  -- The repository is found, unless its name is empty.
  unfoldable pub back_up :
      BackupSpec
      → ManualBackup
      → String
      → Option BackupJob
      → BackupState C
      → Option Repo
      → BackupOutcome E C
  unfolding make_job
  back_up spec manual annotation current s none = fails env s (
      env.new_error
        (concat ("repo \"" ∷ manual.repo_name ∷ "\" is not defined for this cluster" ∷ [])))
  back_up spec manual annotation current s (some repo) =
      if is_empty repo.name
      then fails env s (
          env.new_error
            (concat ("repo \"" ∷ manual.repo_name ∷ "\" is not defined for this cluster" ∷ [])))
      else if any names_repo manual.options
      then warns s "InvalidManualBackup"
      else make_job env spec s current repo manual.repo_name "manual"
          ((pgbackrest_backup, annotation) ∷ []) manual.options

  -- The guards on the status.
  unfoldable pub check_manual :
      BackupSpec → ManualBackup → String → Option BackupJob → BackupState C → BackupOutcome E C
  unfolding back_up find_status find_repo is_finished names_repo
  check_manual spec manual annotation current s =
      let (status_found, stanza_created) = find_status manual.repo_name s.repos (false, false) in
      if is_finished s.manual
      then stays env s
      else if dedicated_repo_host_enabled spec.repos
          && not (is_true (sc.find s.conditions condition_repo_host_ready))
      then stays env s
      else if not (is_true (sc.find s.conditions condition_replica_create))
      then stays env s
      else if not status_found
      then warns s "InvalidBackupRepo"
      else if not stanza_created
      then warns s "StanzaNotCreated"
      else back_up spec manual annotation current s (find_repo manual.repo_name spec.repos none)

  -- The backup is asked for, and can be taken.
  unfoldable pub take_manual :
      BackupSpec → List Instance → Option BackupJob → BackupState C → BackupOutcome E C
  unfolding check_manual begin_manual
  take_manual spec instances current s =
      let annotation = label pgbackrest_backup spec.annotations in
      if not (cluster_writable instances) || is_empty annotation
      then stays env s
      else elim spec.manual [
        | none ↦ stays env s
        | some manual ↦ check_manual spec manual annotation current (begin_manual annotation s)
      ]

  -- reconcileManualBackup, with the manual backup jobs that were found.
  unfoldable pub reconcile_manual_backup :
      BackupSpec → List BackupJob → List Instance → BackupState C → BackupOutcome E C
  unfolding take_manual note_manual
  reconcile_manual_backup spec [] instances s = take_manual spec instances none s
  reconcile_manual_backup spec (job ∷ rest) instances s =
      let annotation = label pgbackrest_backup spec.annotations in
      let noted = note_manual spec job s.manual s in
      if (job_completed job || job_failed job)
        && (not (is_empty annotation)
            && not (str_eq (label pgbackrest_backup job.annotations) annotation))
      then record {
        err = env.respond [] (delete_job job);
        state = noted;
        writes = delete_job job ∷ [];
      }
      else take_manual spec instances (some job) noted
