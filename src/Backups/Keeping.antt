-- ===== src/Backups/Keeping.antt =====
-- What keep_resource keeps of a resource and add_resources sorts by its type: only what is asked for.

use ivory_operator.Backups.{
  dedicated_repo_host_enabled, backup_schedule_found, label_pgbackrest_backup, ◌∷◌, Repo,
}
use ivory_operator.Backups.Cleanup.{
  secret_list, label_pgbackrest_restore, config_map_list, label_pgbackrest_cron_job, cron_job_list,
  pgbackrest_ssh_secret, label_pgbackrest_dedicated, pgbackrest_ssh_config, stateful_set_list,
  pvc_list, label_pgbackrest_config, repo_of, has_label, job_list, RepoResources, ResourceKind,
  for_repos, keep_resource, jobs_of, CleanupSpec, add_resources, for_schedule, RepoResource,
}
use ivory_operator.Backups.Spared.{first_named, is_scheduled_by, is_needed}
use ivory_operator.Prelude.{
  not, ◌&&◌, sym, refl, eq_iff, arith, subst, [], false, inr, true, str_eq, Bool, inl, label, ◌≡◌,
  any, ◌++◌, String, Bool-cases, if_elim, filter, List, All,
}
use ivory_operator.Volumes.Existing.{label_pgbackrest_repo_volume}

abbrev pub IsNeeded : CleanupSpec → RepoResource → Type 0
IsNeeded spec r = is_needed spec r ≡ true

-- A job of a type of backup that is asked for.
abbrev pub IsNeededJob : CleanupSpec → String → RepoResource → Type 0
IsNeededJob spec backup_type job =
    IsNeeded spec job × (label label_pgbackrest_backup job.labels ≡ backup_type)

-- Each list of the resources holds only what is asked for, and the lists of jobs those of their type.
pub record AreNeeded (spec : CleanupSpec) (rs : RepoResources) : Type 0 where
  pub first_backups : All (IsNeededJob spec "replica-create") rs.replica_create_backup_jobs
  pub manual_backups : All (IsNeededJob spec "manual") rs.manual_backup_jobs
  pub volumes : All (IsNeeded spec) rs.pvcs
  pub hosts : All (IsNeeded spec) rs.hosts
  pub cronjobs : All (IsNeeded spec) rs.cronjobs

pub All-append :
    {A : Type 0} (P : A → Type 0) (xs ys : List A) → All P xs → All P ys → All P (xs ++ ys)
All-append P [] ys h k = k
All-append P (x ∷ xs) ys (h, hs) k = (h, All-append P xs ys hs k)

for_repos-none :
    (fits : Repo → Bool) (repos : List Repo) (r : RepoResource)
    → any fits repos ≡ false
    → for_repos fits repos r ≡ []
unfolding for_repos any
for_repos-none fits [] r e = refl
for_repos-none fits (repo ∷ rest) r e = ground (arith, for_repos-none fits rest r)

for_schedule-none :
    (repos : List Repo) (r : RepoResource)
    → is_scheduled_by repos r ≡ false
    → for_schedule repos r ≡ []
unfolding for_schedule is_scheduled_by first_named repo_of
for_schedule-none [] r e = refl
for_schedule-none (repo ∷ rest) r e = ground (arith, for_schedule-none rest r)

-- What nothing asks for is not kept.
keep_resource-none :
    (spec : CleanupSpec) (r : RepoResource) → is_needed spec r ≡ false → keep_resource spec r ≡ []
unfolding keep_resource is_needed has_label repo_of pgbackrest_ssh_config pgbackrest_ssh_secret
keep_resource-none spec r e =
    let volume =
      for_repos-none (λ (repo : Repo). repo.has_volume && str_eq repo.name (repo_of r)) spec.repos
        r in
    let backup = for_repos-none (λ (repo : Repo). str_eq repo.name (repo_of r)) spec.repos r in
    ground (arith, volume, backup, for_schedule-none spec.repos r)

module _ (P : RepoResource → Type 0) (r : RepoResource) (h : P r) where
  for_repos-All : (fits : Repo → Bool) (repos : List Repo) → All P (for_repos fits repos r)
  unfolding for_repos
  for_repos-All fits [] = tt
  for_repos-All fits (repo ∷ rest) =
      if_elim {A = List RepoResource} (All P) (fits repo) (λ _. (h, for_repos-All fits rest))
        (λ _. for_repos-All fits rest)

  for_schedule-All : (repos : List Repo) → All P (for_schedule repos r)
  unfolding for_schedule
  for_schedule-All [] = tt
  for_schedule-All (repo ∷ rest) =
      if_elim {A = List RepoResource} (All P) (str_eq repo.name (repo_of r))
        (λ _.
          if_elim {A = List RepoResource} (All P)
            (backup_schedule_found repo (label label_pgbackrest_cron_job r.labels)) (λ _. (h, tt))
            (λ _. tt))
        (λ _. for_schedule-All rest)

  -- Only the resource itself is kept.
  keep_resource-All : (spec : CleanupSpec) → All P (keep_resource spec r)
  unfolding keep_resource
  keep_resource-All spec =
      if_elim {A = List RepoResource} (All P) (has_label label_pgbackrest_config r) (λ _. (h, tt))
        (λ _.
          if_elim {A = List RepoResource} (All P) (has_label label_pgbackrest_dedicated r)
            (λ _.
              if_elim {A = List RepoResource} (All P)
                (not (str_eq r.name (pgbackrest_ssh_config spec.cluster_name))
                  && not (str_eq r.name (pgbackrest_ssh_secret spec.cluster_name))
                  && dedicated_repo_host_enabled spec.repos)
                (λ _. (h, tt)) (λ _. tt))
            (λ _.
              if_elim {A = List RepoResource} (All P) (has_label label_pgbackrest_repo_volume r)
                (λ _. for_repos-All _ spec.repos)
                (λ _.
                  if_elim {A = List RepoResource} (All P) (has_label label_pgbackrest_backup r)
                    (λ _. for_repos-All _ spec.repos)
                    (λ _.
                      if_elim {A = List RepoResource} (All P)
                        (has_label label_pgbackrest_cron_job r) (λ _. for_schedule-All spec.repos)
                        (λ _.
                          if_elim {A = List RepoResource} (All P)
                            (has_label label_pgbackrest_restore r)
                            (λ _.
                              if_elim {A = List RepoResource} (All P) (not spec.bootstrapped)
                                (λ _. (h, tt)) (λ _. tt))
                            (λ _. tt))))))

pub keep_resource-IsNeeded :
    (spec : CleanupSpec) (r : RepoResource) → All (IsNeeded spec) (keep_resource spec r)
keep_resource-IsNeeded spec r = elim (Bool-cases (is_needed spec r)) [
  | inl e ↦ keep_resource-All (IsNeeded spec) r e spec
  | inr e ↦ subst (All (IsNeeded spec)) (sym (keep_resource-none spec r e)) tt
]

jobs_of-IsNeededJob :
    (spec : CleanupSpec) (backup_type : String) (items : List RepoResource)
    → All (IsNeeded spec) items
    → All (IsNeededJob spec backup_type) (jobs_of backup_type items)
unfolding jobs_of filter
jobs_of-IsNeededJob spec backup_type [] h = tt
jobs_of-IsNeededJob spec backup_type (job ∷ rest) (h, hs) =
    if_elim {A = List RepoResource} (All (IsNeededJob spec backup_type))
      (str_eq (label label_pgbackrest_backup job.labels) backup_type)
      (λ e. (
        (h, (eq_iff (label label_pgbackrest_backup job.labels) backup_type).0 e),
        jobs_of-IsNeededJob spec backup_type rest hs,
      ))
      (λ _. jobs_of-IsNeededJob spec backup_type rest hs)

pub add_resources-AreNeeded :
    (spec : CleanupSpec) (kind : ResourceKind) (items : List RepoResource) (rs : RepoResources)
    → All (IsNeeded spec) items
    → AreNeeded spec rs
    → AreNeeded spec (add_resources kind items rs)
unfolding add_resources
add_resources-AreNeeded spec job_list items rs h before = record {
  first_backups =
      All-append _ rs.replica_create_backup_jobs _ before.first_backups
        (jobs_of-IsNeededJob spec "replica-create" items h);
  manual_backups =
      All-append _ rs.manual_backup_jobs _ before.manual_backups
        (jobs_of-IsNeededJob spec "manual" items h);
  volumes = before.volumes;
  hosts = before.hosts;
  cronjobs = before.cronjobs;
}
add_resources-AreNeeded spec pvc_list items rs h before = record {
  first_backups = before.first_backups;
  manual_backups = before.manual_backups;
  volumes = All-append _ rs.pvcs items before.volumes h;
  hosts = before.hosts;
  cronjobs = before.cronjobs;
}
add_resources-AreNeeded spec stateful_set_list items rs h before = record {
  first_backups = before.first_backups;
  manual_backups = before.manual_backups;
  volumes = before.volumes;
  hosts = All-append _ rs.hosts items before.hosts h;
  cronjobs = before.cronjobs;
}
add_resources-AreNeeded spec cron_job_list items rs h before = record {
  first_backups = before.first_backups;
  manual_backups = before.manual_backups;
  volumes = before.volumes;
  hosts = before.hosts;
  cronjobs = All-append _ rs.cronjobs items before.cronjobs h;
}
add_resources-AreNeeded spec config_map_list items rs h before = before
add_resources-AreNeeded spec secret_list items rs h before = before
