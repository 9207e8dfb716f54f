-- ===== src/Backups/ReplicaOwed.antt =====
-- What the steps of reconcileReplicaCreateBackup owe to the status and the jobs before them.
use ivory_operator.Backups.{
  condition_replica_repo_ready, pgbackrest_current_config, condition_repo_host_ready,
  dedicated_repo_host_enabled, BackupOutcome, event, pgbackrest_config_hash, apply_job,
  job_completed, delete_job, BackupWrite, ◌∷◌, BackupJob, BackupSpec, BackupState, RepoStatus,
  is_true, BackupEnv, Repo,
}
use ivory_operator.Backups.Job.{make_job-elim, make_job, job_name, stays}
use ivory_operator.Backups.ManualDue.{label-job_annotations}
use ivory_operator.Backups.Replica.{
  take_replica_create, apply_replica_create, exec_selector, select_replica_create,
  container_repo_host, is_stale, mark_complete,
}
use ivory_operator.Kube.{StatusConditions, LabelSets}
use ivory_operator.Patroni.Switchover.{container_database}
use ivory_operator.Prelude.{
  inr, subst, inl, ◌||◌, lookup, sym, ◌⊎◌, All, if_elim, ◌∙◌, ap, label, if◌then◌else◌, true, not,
  refl, ◌&&◌, [], none, arith, false, ◌≡◌, some, Bool, List, String, Option,
}

abbrev pub is_complete : Option RepoStatus → Bool
is_complete none = false
is_complete (some status) = status.replica_create_backup_complete

abbrev pub has_condition : {C : Type 0} → ⦃sc : StatusConditions C⦄ → BackupState C → String → Bool
has_condition ⦃sc⦄ s type = is_true (sc.find s.conditions type)

abbrev pub container_of : Repo → String
container_of repo = if repo.has_volume then container_repo_host else container_database

-- The first job is finished, and is of this repository, container and configuration.
abbrev pub has_backup : Repo → String → List BackupJob → Bool
has_backup repo config_hash [] = false
has_backup repo config_hash (job ∷ rest) =
    job_completed job && not (is_stale repo.name (container_of repo) config_hash job)

-- The first backup waits for the repository.
abbrev pub waits : {C : Type 0} → ⦃sc : StatusConditions C⦄ → BackupSpec → BackupState C → Bool
waits ⦃sc⦄ spec s =
    (dedicated_repo_host_enabled spec.repos && not (has_condition s condition_repo_host_ready))
    || not (has_condition s condition_replica_repo_ready)

-- A write of reconcileReplicaCreateBackup that has its reason in the status before it.
abbrev pub IsDueReplica :
    {C : Type 0}
    → ⦃sc : StatusConditions C⦄ → BackupSpec
    → List BackupJob
    → String
    → Repo
    → BackupState C
    → BackupWrite
    → Type 0
IsDueReplica ⦃sc⦄ spec jobs config_hash repo s (delete_job job) =
    is_stale repo.name (container_of repo) config_hash job ≡ true
IsDueReplica ⦃sc⦄ spec [] config_hash repo s (apply_job job) =
    (label pgbackrest_config_hash job.annotations ≡ config_hash) × (waits spec s ≡ false)
IsDueReplica ⦃sc⦄ spec (current ∷ rest) config_hash repo s (apply_job job) =
    (label pgbackrest_config_hash job.annotations ≡ config_hash)
    × (job.name ≡ current.name)
    × (job_completed current ≡ false)
    × (is_stale repo.name (container_of repo) config_hash current ≡ false)
IsDueReplica ⦃sc⦄ spec jobs config_hash repo s (event reason) = ⊥

pub exec_selector-container :
    {E : Type 0}
    → (primary : Option E) (repo : Repo) → (exec_selector primary repo).0 ≡ container_of repo
unfolding exec_selector
exec_selector-container {E} primary repo =
    if_elim {A = String × Option E} (λ p. p.0 ≡ container_of repo) repo.has_volume
      (λ e. sym (ap (λ b. if b then container_repo_host else container_database) e))
      (λ e. sym (ap (λ b. if b then container_repo_host else container_database) e))

lookup-second :
    (hash container : String)
    → lookup pgbackrest_config_hash
        ((pgbackrest_current_config, container) ∷ (pgbackrest_config_hash, hash) ∷ [])
      ≡ some hash
unfolding lookup
lookup-second hash container = refl

module _ {E C : Type 0} ⦃ls : LabelSets⦄ ⦃sc : StatusConditions C⦄ (env : BackupEnv E)
    (spec : BackupSpec) (config_hash : String) (repo : Repo) where
  -- What an outcome owes to the status before it and to the jobs that were found.
  abbrev pub Owed : BackupState C → List BackupJob → BackupOutcome E C → Type 0
  Owed s jobs out =
      All (IsDueReplica spec jobs config_hash repo s) out.writes
      × ((out.state ≡ s)
          ⊎ ((out.writes ≡ [])
              × (out.state ≡ record s { repos = mark_complete repo.name s.repos })
              × (has_backup repo config_hash jobs ≡ true)))

  apply_replica_create-Owed :
      (s : BackupState C) (jobs : List BackupJob) (current : Option BackupJob)
      → ((job : BackupJob)
          → job.name ≡ job_name env current
          → label pgbackrest_config_hash job.annotations ≡ config_hash
          → IsDueReplica spec jobs config_hash repo s (apply_job job))
      → Owed s jobs (apply_replica_create env spec current repo (container_of repo) config_hash s)
  unfolding apply_replica_create
  apply_replica_create-Owed s jobs current h = go spec.repos
    where
      go :
          (repos : List Repo)
          → Owed s jobs (elim repos [
            | [] ↦ stays env s
            | first ∷ _ ↦
                make_job env spec s current repo first.name "replica-create"
                  ((pgbackrest_current_config, container_of repo)
                    ∷ (pgbackrest_config_hash, config_hash)
                    ∷ [])
                  []
          ])
      go [] = (tt, inl refl)
      go (first ∷ _) =
          make_job-elim env (Owed s jobs) spec s current repo first.name "replica-create" _ []
            (λ e. (tt, inl refl))
            (λ job r l a n. (
              (
                h job n (
                    ap (label pgbackrest_config_hash) a
                    ∙ label-job_annotations spec _ pgbackrest_config_hash config_hash
                        (lookup-second config_hash (container_of repo))),
                tt,
              ),
              inl refl,
            ))

  take_replica_create-Owed :
      (s : BackupState C) (jobs : List BackupJob)
      → Owed s jobs (take_replica_create env spec jobs repo (container_of repo) config_hash s)
  unfolding take_replica_create
  take_replica_create-Owed s [] =
      if_elim {A = BackupOutcome E C} (Owed s []) (waits spec s) (λ _. (tt, inl refl))
        (λ w. apply_replica_create-Owed s [] none (λ job n a. (a, w)))
  take_replica_create-Owed s (job ∷ rest) =
      if_elim {A = BackupOutcome E C} (Owed s (job ∷ rest))
        (is_stale repo.name (container_of repo) config_hash job) (λ e. ((e, tt), inl refl))
        (λ e.
          if_elim {A = BackupOutcome E C} (Owed s (job ∷ rest)) (job_completed job)
            (λ d. (tt, inr (refl, refl, ground (arith, d, e))))
            (λ d. apply_replica_create-Owed s (job ∷ rest) (some job) (λ made n a. (a, n, d, e))))

  pub select_replica_create-Owed :
      (s : BackupState C) (jobs : List BackupJob) (selected : String × Option E)
      → selected.0 ≡ container_of repo
      → Owed s jobs (select_replica_create env spec jobs repo config_hash s selected)
  unfolding select_replica_create
  select_replica_create-Owed s jobs (container, some e) h = (tt, inl refl)
  select_replica_create-Owed s jobs (container, none) h =
      subst (λ c. Owed s jobs (take_replica_create env spec jobs repo c config_hash s)) (sym h)
        (take_replica_create-Owed s jobs)
