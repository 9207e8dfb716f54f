-- ===== src/Backups/OneJob.antt =====
-- The two reconcilers of backup jobs in the order of reconcilePGBackRest: the backup for replicas, and
-- then the manual backup.

use mathlib.Core.Bool.{false≢true}
use ivory_operator.Backups.{
  event, delete_job, RepoStatus, ◌∷◌, condition_replica_create, is_true, BackupOutcome, some, Repo,
  apply_job, BackupJob, BackupSpec, BackupState, BackupWrite, BackupEnv,
}
use ivory_operator.Backups.Created.{repo_status_of}
use ivory_operator.Backups.Manual.{reconcile_manual_backup}
use ivory_operator.Backups.ManualDue.{reconcile_manual_backup-IsDue}
use ivory_operator.Backups.ManualKept.{reconcile_manual_backup-Same}
use ivory_operator.Backups.Replica.{no_backup_to_take, reconcile_replica_create_backup}
use ivory_operator.Backups.ReplicaDue.{
  reconcile_replica_create_backup-condition, reconcile_replica_create_backup-IsDue,
}
use ivory_operator.Backups.ReplicaOwed.{is_complete}
use ivory_operator.Instances.{Instance}
use ivory_operator.Kube.{StatusConditions, LabelSets}
use ivory_operator.Prelude.{
  Bool-cases, arith, All, inr, sym, inl, [], ◌&&◌, refl, ap, none, ◌∙◌, true, false, Option, ◌≡◌,
  any, Bool, String, List,
}

-- Whether a job is applied.
abbrev pub applies : List BackupWrite → Bool
applies writes = any (λ w. elim w [ apply_job _ ↦ true | _ ↦ false ]) writes

-- Where a job is applied, what its reason tells holds.
applies-due :
    (P : BackupWrite → Type 0) (b c : Bool) (ws : List BackupWrite)
    → ((job : BackupJob) → P (apply_job job) → b ≡ c)
    → All P ws
    → applies ws ≡ true
    → b ≡ c
unfolding any
applies-due P b c [] f h e = ground (arith, e)
applies-due P b c (apply_job job ∷ ws) f h e = f job h.0
applies-due P b c (delete_job job ∷ ws) f h e = applies-due P b c ws f h.1 e
applies-due P b c (event reason ∷ ws) f h e = applies-due P b c ws f h.1 e

is_complete_of_taken :
    (instances : List Instance) (status : Option RepoStatus)
    → no_backup_to_take instances status ≡ false
    → is_complete status ≡ false
unfolding no_backup_to_take
is_complete_of_taken instances none h = refl
is_complete_of_taken instances (some status) h = ground arith

module _ {E C : Type 0} ⦃ls : LabelSets⦄ ⦃sc : StatusConditions C⦄ (env : BackupEnv E)
    (spec : BackupSpec) (instances : List Instance) where
  -- The end of reconcilePGBackRest: the errors of both are logged only.
  unfoldable pub reconcile_backup_jobs :
      List BackupJob
      → List BackupJob
      → String
      → Repo
      → Option E
      → BackupState C
      → BackupOutcome E C × BackupOutcome E C
  reconcile_backup_jobs replica_jobs manual_jobs config_hash repo primary s =
      let first =
        reconcile_replica_create_backup env spec instances replica_jobs config_hash repo primary
          s in
      (first, reconcile_manual_backup env spec manual_jobs instances first.state)

  -- The status has no backup where a job was applied.
  applied-incomplete :
      (jobs : List BackupJob) (config_hash : String) (repo : Repo) (primary : Option E)
      (s : BackupState C)
      → let out =
          reconcile_replica_create_backup env spec instances jobs config_hash repo primary s in
        applies out.writes ≡ true → is_complete (repo_status_of repo.name out.state.repos) ≡ false
  unfolding any
  applied-incomplete jobs config_hash repo primary s h =
      let (writes, after) =
        reconcile_replica_create_backup-IsDue env spec instances jobs config_hash repo primary s in
      elim after [
        | inl e ↦
            ap (λ repos. is_complete (repo_status_of repo.name repos)) e
            ∙ is_complete_of_taken instances (repo_status_of repo.name s.repos)
                (applies-due _ _ _ _ (λ job p. p.0) writes h)
        | inr (none_written, _, _) ↦ absurd (false≢true (sym (ap applies none_written) ∙ h))
      ]

  -- One pass applies at most one backup job: where a job for the first backup is applied, none for a
  -- manual backup is.
  pub reconcile_backup_jobs-exclusive :
      (replica_jobs manual_jobs : List BackupJob) (config_hash : String) (repo : Repo)
      (primary : Option E) (s : BackupState C)
      → let (first, second) =
          reconcile_backup_jobs replica_jobs manual_jobs config_hash repo primary s in
        (applies first.writes && applies second.writes) ≡ false
  unfolding reconcile_backup_jobs
  reconcile_backup_jobs-exclusive replica_jobs manual_jobs config_hash repo primary s =
      let first =
        reconcile_replica_create_backup env spec instances replica_jobs config_hash repo primary
          s in
      let second = reconcile_manual_backup env spec manual_jobs instances first.state in
      let kept =
        reconcile_manual_backup-Same env spec instances condition_replica_create manual_jobs
          first.state refl in
      let condition =
        reconcile_replica_create_backup-condition env spec instances replica_jobs config_hash repo
          primary s in
      let incomplete = applied-incomplete replica_jobs config_hash repo primary s in
      let due = reconcile_manual_backup-IsDue env spec instances manual_jobs first.state in
      elim (Bool-cases (applies first.writes && applies second.writes)) [
        | inr h ↦ h
        | inl h ↦ absurd (
            false≢true (
              sym (incomplete (ground (arith, h)))
              ∙ (sym condition
                  ∙ (sym (ap is_true kept.0)
                      ∙ applies-due _ _ _ second.writes (λ job p. p.1.1.1.replica_create) due
                          (ground (arith, h))))))
      ]
