-- ===== src/Backups/Gather.antt =====
-- pgbackrest.go: getPGBackRestResources, one kind of resource after the other.

use ivory_operator.Backups.Cleanup.{
  cron_job_list, stateful_set_list, secret_list, pvc_list, Cleaned, job_list, config_map_list,
  RepoResource, RepoResources, ScheduledBackup, ResourceKind, add_resources, Gathered,
  cleanup_repo_resources, set_scheduled_job_status, CleanupSpec, ResourcesEnv,
}
use ivory_operator.Kube.{found, failed}
use ivory_operator.Prelude.{none, [], some, ◌∷◌, Option, List}

-- The kinds in the order in which they are listed.
abbrev pub resource_kinds : List ResourceKind
resource_kinds =
    config_map_list ∷ job_list ∷ pvc_list ∷ secret_list ∷ stateful_set_list ∷ cron_job_list ∷ []

abbrev pub nothing_gathered : {E : Type 0} → Option (List ScheduledBackup) → Gathered E
nothing_gathered scheduled = record {
  err = none;
  resources = some (record {
    replica_create_backup_jobs = [];
    manual_backup_jobs = [];
    pvcs = [];
    hosts = [];
    cronjobs = [];
  });
  scheduled = scheduled;
  deleted = [];
}

module _ {E : Type 0} (env : ResourcesEnv E) (spec : CleanupSpec) where
  -- An error on the way: no resources are returned.
  abbrev pub gives_up : Gathered E → List RepoResource → E → Gathered E
  gives_up g deleted e = record {
    err = some e;
    resources = none;
    scheduled = g.scheduled;
    deleted = deleted;
  }

  -- The status of scheduled backups is written for the list of jobs alone.
  unfoldable pub note_schedule :
      ResourceKind
      → List RepoResource
      → Option (List ScheduledBackup)
      → Option (List ScheduledBackup)
  unfolding set_scheduled_job_status
  note_schedule job_list items old = set_scheduled_job_status env spec items old
  note_schedule kind items old = old

  -- The converter's answer, for the kinds that are converted.
  unfoldable pub converted : ResourceKind → List RepoResource → Option E
  converted config_map_list items = none
  converted secret_list items = none
  converted kind items = env.convert kind items

  -- What follows the clean-up of a kind.
  unfoldable pub add_owned : ResourceKind → Gathered E → RepoResources → Cleaned E → Gathered E
  unfolding add_resources note_schedule converted
  add_owned kind g rs c = elim c.err [
    | some e ↦ gives_up g c.deleted e
    | none ↦ elim (converted kind c.owned) [
      | some e ↦ gives_up g c.deleted e
      | none ↦ record {
        err = none;
        resources = some (add_resources kind c.owned rs);
        scheduled = note_schedule kind c.owned g.scheduled;
        deleted = c.deleted;
      }
    ]
  ]

  unfoldable pub add_listed :
      ResourceKind → Gathered E → RepoResources → List RepoResource → Gathered E
  unfolding add_owned cleanup_repo_resources
  add_listed kind g rs [] = g
  add_listed kind g rs (r ∷ rest) =
      add_owned kind g rs (cleanup_repo_resources env spec (r ∷ rest) g.deleted)

  -- The round of the loop for a kind, which an earlier error has left.
  unfoldable pub gather_kind : ResourceKind → Gathered E → Gathered E
  unfolding add_listed
  gather_kind kind g = elim g.resources [
    | none ↦ g
    | some rs ↦ elim (env.list g.deleted kind) [
      | failed e ↦ gives_up g g.deleted e
      | found items ↦ add_listed kind g rs items
    ]
  ]

  unfoldable pub gather_kinds : List ResourceKind → Gathered E → Gathered E
  unfolding gather_kind
  gather_kinds [] g = g
  gather_kinds (kind ∷ rest) g = gather_kinds rest (gather_kind kind g)

  unfoldable pub get_pgbackrest_resources : Option (List ScheduledBackup) → Gathered E
  unfolding gather_kinds
  get_pgbackrest_resources scheduled = gather_kinds resource_kinds (nothing_gathered scheduled)
