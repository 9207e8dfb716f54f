-- ===== src/Backups/ReplicaDue.antt =====
-- When reconcileReplicaCreateBackup writes, and what the status tells after it.

use ivory_operator.Backups.{
  BackupOutcome, condition_replica_create, BackupJob, BackupSpec, BackupState, RepoStatus, is_true,
  BackupEnv, Repo,
}
use ivory_operator.Backups.Created.{repo_status_of}
use ivory_operator.Backups.Job.{stays}
use ivory_operator.Backups.Replica.{
  exec_selector, select_replica_create, no_backup_to_take, replica_create_condition,
  reconcile_replica_create_backup, mark_complete,
}
use ivory_operator.Backups.ReplicaOwed.{
  exec_selector-container, select_replica_create-Owed, has_backup, IsDueReplica, is_complete,
}
use ivory_operator.Instances.{Instance}
use ivory_operator.Kube.{Condition, StatusConditions, LabelSets}
use ivory_operator.Prelude.{
  All-map, inr, inl, sym, ◌⊎◌, All, if_elim, eq_iff, ◌∙◌, ap, if◌then◌else◌, true, refl, [], none,
  arith, false, ◌≡◌, some, ℕ, List, String, Option,
}

is_true-replica_create_condition :
    (generation : ℕ) (status : Option RepoStatus)
    → is_true (some (replica_create_condition generation status)) ≡ is_complete status
unfolding replica_create_condition is_true
is_true-replica_create_condition generation none = ground arith
is_true-replica_create_condition generation (some status) =
    if_elim {A = Condition} (λ c. is_true (some c) ≡ status.replica_create_backup_complete)
      status.replica_create_backup_complete (λ e. sym e) (λ e. sym e)

type-replica_create_condition :
    (generation : ℕ) (status : Option RepoStatus)
    → (replica_create_condition generation status).type ≡ condition_replica_create
unfolding replica_create_condition
type-replica_create_condition generation none = refl
type-replica_create_condition generation (some status) = ground arith

module _ {E C : Type 0} ⦃ls : LabelSets⦄ ⦃sc : StatusConditions C⦄ (env : BackupEnv E)
    (spec : BackupSpec) (instances : List Instance) (jobs : List BackupJob) (config_hash : String)
    (repo : Repo) (primary : Option E) where
  -- The condition tells what the status tells, whatever the outcome: replicas can be created exactly
  -- when the status of the repository says that its backup is complete.
  pub reconcile_replica_create_backup-condition :
      (s : BackupState C)
      → is_true (
          sc.find
            (reconcile_replica_create_backup env spec instances jobs config_hash repo primary
              s).state.conditions
            condition_replica_create)
        ≡ is_complete (
            repo_status_of repo.name
              (reconcile_replica_create_backup env spec instances jobs config_hash repo primary
                s).state.repos)
  unfolding reconcile_replica_create_backup
  reconcile_replica_create_backup-condition s =
      let out : BackupOutcome E C =
        if no_backup_to_take instances (repo_status_of repo.name s.repos)
        then stays env s
        else select_replica_create env spec jobs repo config_hash s (exec_selector primary repo) in
      let status = repo_status_of repo.name out.state.repos in
      let c = replica_create_condition spec.generation status in
      ap is_true (
        sc.find-set out.state.conditions c condition_replica_create
        ∙ ap (λ b. if b then some c else sc.find out.state.conditions condition_replica_create)
            ((eq_iff c.type condition_replica_create).1
              (type-replica_create_condition spec.generation status)))
      ∙ is_true-replica_create_condition spec.generation status

  -- A job for the first backup is deleted only when it failed or is of another repository, container
  -- or configuration. One is applied only with the hash of this configuration: when there is none,
  -- once the repository, and the repository host where there is one, are ready, and else under the
  -- name of the current job, which is neither complete nor stale. Either happens only while an
  -- instance is writable and the status exists and has no backup. The status gets its mark only when
  -- the job is complete, of this repository, container and configuration, and keeps the rest.
  pub reconcile_replica_create_backup-IsDue :
      (s : BackupState C)
      → let out =
          reconcile_replica_create_backup env spec instances jobs config_hash repo primary s in
        All
          (λ w.
            (no_backup_to_take instances (repo_status_of repo.name s.repos) ≡ false)
            × IsDueReplica spec jobs config_hash repo s w)
          out.writes
        × ((out.state.repos ≡ s.repos)
            ⊎ ((out.writes ≡ [])
                × (out.state.repos ≡ mark_complete repo.name s.repos)
                × (has_backup repo config_hash jobs ≡ true)))
  unfolding reconcile_replica_create_backup
  reconcile_replica_create_backup-IsDue s =
      if_elim {A = BackupOutcome E C}
        (λ out.
          All
            (λ w.
              (no_backup_to_take instances (repo_status_of repo.name s.repos) ≡ false)
              × IsDueReplica spec jobs config_hash repo s w)
            out.writes
          × ((out.state.repos ≡ s.repos)
              ⊎ ((out.writes ≡ [])
                  × (out.state.repos ≡ mark_complete repo.name s.repos)
                  × (has_backup repo config_hash jobs ≡ true))))
        (no_backup_to_take instances (repo_status_of repo.name s.repos)) (λ _. (tt, inl refl))
        (λ e.
          let (writes, after) =
            select_replica_create-Owed env spec config_hash repo s jobs (exec_selector primary repo)
              (exec_selector-container primary repo) in
          (
            All-map _ _ _ (λ w h. (e, h)) writes,
            elim after [
              | inl h ↦ inl (ap (λ t. t.repos) h)
              | inr (w, h, b) ↦ inr (w, ap (λ t. t.repos) h, b)
            ],
          ))
