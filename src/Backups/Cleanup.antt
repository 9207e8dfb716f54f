-- ===== src/Backups/Cleanup.antt =====
-- pgbackrest.go: getPGBackRestResources and what it calls.

-- An object of one of the six kinds that are listed: the names of its owners, in order, and what the
-- status of a job says.
use ivory_operator.Backups.{
  dedicated_repo_host_enabled, backup_schedule_found, label_pgbackrest_backup, some, ◌∷◌,
  label_pgbackrest_repo, Repo,
}
use ivory_operator.Kube.{Answer}
use ivory_operator.Prelude.{
  is_empty, ◌&&◌, map, is_some, not, is_none, Bool, Labels, none, [], str_eq, if◌then◌else◌, ◌∷◌,
  ◌++◌, ℕ, concat, List, String, lookup, label, filter, Option,
}
use ivory_operator.Volumes.Existing.{label_pgbackrest_repo_volume}

pub record RepoResource : Type 0 where
  pub name : String
  pub labels : Labels
  pub owner_names : List String
  pub start_time : String
  pub completion_time : String
  pub active : ℕ
  pub succeeded : ℕ
  pub failed : ℕ

-- RepoResources
pub record RepoResources : Type 0 where
  pub replica_create_backup_jobs : List RepoResource
  pub manual_backup_jobs : List RepoResource
  pub pvcs : List RepoResource
  pub hosts : List RepoResource
  pub cronjobs : List RepoResource

-- PGBackRestScheduledBackupStatus
pub record ScheduledBackup : Type 0 where
  pub cron_job_name : String
  pub repo_name : String
  pub type : String
  pub start_time : String
  pub completion_time : String
  pub active : ℕ
  pub succeeded : ℕ
  pub failed : ℕ

-- The group, version and kind of a list.
pub data ResourceKind : Type 0 where
  config_map_list job_list pvc_list secret_list stateful_set_list cron_job_list : ResourceKind

-- What is read of the cluster, and whether it is bootstrapped.
pub record CleanupSpec : Type 0 where
  pub cluster_name : String
  pub repos : List Repo
  pub bootstrapped : Bool

-- The answers of the API, given the deletions so far, newest first, and of the converter.
pub record ResourcesEnv (E : Type 0) : Type 0 where
  pub list : List RepoResource → ResourceKind → Answer E (List RepoResource)
  pub delete : List RepoResource → RepoResource → Option E
  pub convert : ResourceKind → List RepoResource → Option E

-- The resources that remain, the error, and the deletions, newest first.
pub record Cleaned (E : Type 0) : Type 0 where
  pub owned : List RepoResource
  pub err : Option E
  pub deleted : List RepoResource

-- The resources, or nil after an error; the scheduled backups of the status, where it has any part for
-- pgBackRest.
pub record Gathered (E : Type 0) : Type 0 where
  pub err : Option E
  pub resources : Option RepoResources
  pub scheduled : Option (List ScheduledBackup)
  pub deleted : List RepoResource

abbrev pub label_pgbackrest_config : String
label_pgbackrest_config = "postgres-operator.crunchydata.com/pgbackrest-config"

abbrev pub label_pgbackrest_dedicated : String
label_pgbackrest_dedicated = "postgres-operator.crunchydata.com/pgbackrest-dedicated"

abbrev pub label_pgbackrest_cron_job : String
label_pgbackrest_cron_job = "postgres-operator.crunchydata.com/pgbackrest-cronjob"

abbrev pub label_pgbackrest_restore : String
label_pgbackrest_restore = "postgres-operator.crunchydata.com/pgbackrest-restore"

unfoldable pub has_label : String → RepoResource → Bool
unfolding lookup
has_label key r = is_some (lookup key r.labels)

unfoldable pub repo_of : RepoResource → String
unfolding label
repo_of r = label label_pgbackrest_repo r.labels

unfoldable pub pgbackrest_ssh_config : String → String
unfolding concat
pgbackrest_ssh_config cluster_name = concat (cluster_name ∷ "-ssh-config" ∷ [])

unfoldable pub pgbackrest_ssh_secret : String → String
unfolding concat
pgbackrest_ssh_secret cluster_name = concat (cluster_name ∷ "-ssh" ∷ [])

-- A loop over the repositories that appends the resource at each that fits.
unfoldable pub for_repos : (Repo → Bool) → List Repo → RepoResource → List RepoResource
for_repos fits [] r = []
for_repos fits (repo ∷ rest) r =
    let later = for_repos fits rest r in if fits repo then r ∷ later else later

-- The loop for a CronJob, which stops at the first repository of its name.
unfoldable pub for_schedule : List Repo → RepoResource → List RepoResource
unfolding repo_of label
for_schedule [] r = []
for_schedule (repo ∷ rest) r =
    let later = for_schedule rest r in
    if str_eq repo.name (repo_of r)
    then if backup_schedule_found repo (label label_pgbackrest_cron_job r.labels)
      then r ∷ []
      else []
    else later

-- What the switch appends for a resource; nothing where it is to be deleted.
unfoldable pub keep_resource : CleanupSpec → RepoResource → List RepoResource
unfolding has_label for_repos for_schedule repo_of pgbackrest_ssh_config pgbackrest_ssh_secret
keep_resource spec r =
    if has_label label_pgbackrest_config r
    then r ∷ []
    else if has_label label_pgbackrest_dedicated r
    then if not (str_eq r.name (pgbackrest_ssh_config spec.cluster_name))
        && not (str_eq r.name (pgbackrest_ssh_secret spec.cluster_name))
        && dedicated_repo_host_enabled spec.repos
      then r ∷ []
      else []
    else if has_label label_pgbackrest_repo_volume r
    then for_repos (λ (repo : Repo). repo.has_volume && str_eq repo.name (repo_of r)) spec.repos r
    else if has_label label_pgbackrest_backup r
    then for_repos (λ (repo : Repo). str_eq repo.name (repo_of r)) spec.repos r
    else if has_label label_pgbackrest_cron_job r
    then for_schedule spec.repos r
    else if has_label label_pgbackrest_restore r
    then if not spec.bootstrapped then r ∷ [] else []
    else []

-- The status of a job that a CronJob made.
unfoldable pub scheduled_backup : RepoResource → ScheduledBackup
unfolding label repo_of
scheduled_backup job = record {
  cron_job_name = elim job.owner_names [ [] ↦ "" | owner ∷ rest ↦ owner ];
  repo_name = repo_of job;
  type = label label_pgbackrest_cron_job job.labels;
  start_time = job.start_time;
  completion_time = job.completion_time;
  active = job.active;
  succeeded = job.succeeded;
  failed = job.failed;
}

unfoldable pub is_scheduled : RepoResource → Bool
unfolding label
is_scheduled job = not (is_empty (label label_pgbackrest_cron_job job.labels))

-- The jobs of a type of backup.
unfoldable pub jobs_of : String → List RepoResource → List RepoResource
unfolding filter label
jobs_of backup_type jobs =
    filter (λ (job : RepoResource). str_eq (label label_pgbackrest_backup job.labels) backup_type)
      jobs

-- unstructuredToRepoResources, once the list is converted; its "unexpected kind" cannot occur.
unfoldable pub add_resources : ResourceKind → List RepoResource → RepoResources → RepoResources
unfolding jobs_of
add_resources job_list items rs = record rs {
  replica_create_backup_jobs = rs.replica_create_backup_jobs ++ jobs_of "replica-create" items;
  manual_backup_jobs = rs.manual_backup_jobs ++ jobs_of "manual" items;
}
add_resources pvc_list items rs = record rs { pvcs = rs.pvcs ++ items }
add_resources stateful_set_list items rs = record rs { hosts = rs.hosts ++ items }
add_resources cron_job_list items rs = record rs { cronjobs = rs.cronjobs ++ items }
add_resources config_map_list items rs = rs
add_resources secret_list items rs = rs

module _ {E : Type 0} (env : ResourcesEnv E) (spec : CleanupSpec) where
  -- The loop of cleanupRepoResources.
  unfoldable pub cleanup_from :
      List RepoResource → List RepoResource → List RepoResource → Cleaned E
  unfolding keep_resource
  cleanup_from [] owned deleted = record { owned = owned; err = none; deleted = deleted }
  cleanup_from (r ∷ rest) owned deleted = elim (keep_resource spec r) [
    | [] ↦ elim (env.delete deleted r) [
      | some e ↦ record { owned = []; err = some e; deleted = r ∷ deleted }
      | none ↦ cleanup_from rest owned (r ∷ deleted)
    ]
    | c ∷ cs ↦ cleanup_from rest (owned ++ c ∷ cs) deleted
  ]

  unfoldable pub cleanup_repo_resources : List RepoResource → List RepoResource → Cleaned E
  unfolding cleanup_from
  cleanup_repo_resources items deleted = cleanup_from items [] deleted

  -- setScheduledJobStatus, which a refusal of the converter ends.
  unfoldable pub set_scheduled_job_status :
      List RepoResource → Option (List ScheduledBackup) → Option (List ScheduledBackup)
  unfolding filter is_scheduled scheduled_backup
  set_scheduled_job_status items old =
      if is_none (env.convert job_list items)
      then some (map scheduled_backup (filter is_scheduled items))
      else old
