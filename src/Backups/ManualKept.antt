-- ===== src/Backups/ManualKept.antt =====
-- What reconcileManualBackup keeps of the status: every other condition, and the repositories.
use ivory_operator.Backups.{
  ◌∷◌, cluster_writable, condition_replica_create, condition_repo_host_ready, is_true, job_failed,
  dedicated_repo_host_enabled, pgbackrest_backup, BackupOutcome, job_completed, some, Repo,
  JobStatus, ManualBackup, condition_manual_backup_successful, BackupJob, BackupSpec, BackupState,
  BackupEnv,
}
use ivory_operator.Backups.Job.{stays, make_job-elim}
use ivory_operator.Backups.Manual.{
  take_manual, reconcile_manual_backup, find_repo, find_status, names_repo, is_finished,
  is_status_for, check_manual, back_up, note_manual, note_result, begin_manual,
}
use ivory_operator.Instances.{Instance}
use ivory_operator.Kube.{Condition, StatusConditions, LabelSets}
use ivory_operator.Prelude.{
  inr, sym, subst, inl, [], Option-cases, ◌||◌, not, if◌then◌else◌, ◌&&◌, refl, ap, none, is_empty,
  ◌∙◌, label, if_elim, false, Option, ◌≡◌, any, str_eq, String, List,
}

module _ {C : Type 0} ⦃sc : StatusConditions C⦄ where
  abbrev pub Same : String → BackupState C → BackupState C → Type 0
  Same t s after = (sc.find after.conditions t ≡ sc.find s.conditions t) × (after.repos ≡ s.repos)

  find-set_other :
      (cs : C) (c : Condition) (t : String)
      → str_eq c.type t ≡ false
      → sc.find (sc.set cs c) t ≡ sc.find cs t
  find-set_other cs c t h = sc.find-set cs c t ∙ ap (λ b. if b then some c else sc.find cs t) h

  note_result-other :
      (t : String) (spec : BackupSpec) (job : BackupJob) (cs : C)
      → str_eq condition_manual_backup_successful t ≡ false
      → sc.find (note_result spec job cs) t ≡ sc.find cs t
  unfolding note_result
  note_result-other t spec job cs h =
      if_elim {A = C} (λ after. sc.find after t ≡ sc.find cs t) (job_completed job)
        (λ _. find-set_other cs _ t h)
        (λ _.
          if_elim {A = C} (λ after. sc.find after t ≡ sc.find cs t) (job_failed job)
            (λ _. find-set_other cs _ t h) (λ _. refl))

  note_manual-Same :
      (t : String) (spec : BackupSpec) (job : BackupJob) (status : Option JobStatus)
      (s : BackupState C)
      → str_eq condition_manual_backup_successful t ≡ false
      → Same t s (note_manual spec job status s)
  unfolding note_manual
  note_manual-Same t spec job none s h = (refl, refl)
  note_manual-Same t spec job (some status) s h =
      if_elim {A = BackupState C} (Same t s)
        (str_eq status.id (label pgbackrest_backup job.annotations))
        (λ _. (note_result-other t spec job s.conditions h, refl)) (λ _. (refl, refl))

  begin_manual-Same :
      (t annotation : String) (s : BackupState C)
      → str_eq condition_manual_backup_successful t ≡ false
      → Same t s (begin_manual annotation s)
  unfolding begin_manual
  begin_manual-Same t annotation s h =
      if_elim {A = BackupState C} (Same t s) (is_status_for annotation s.manual) (λ _. (refl, refl))
        (λ _. (
          sc.find-remove s.conditions condition_manual_backup_successful t
              ∙ ap (λ b. if b then none else sc.find s.conditions t) h,
          refl,
        ))

module _ {E C : Type 0} ⦃ls : LabelSets⦄ ⦃sc : StatusConditions C⦄ (env : BackupEnv E)
    (spec : BackupSpec) (instances : List Instance) where
  back_up-state :
      (manual : ManualBackup) (annotation : String) (current : Option BackupJob) (s : BackupState C)
      (repo : Option Repo)
      → (back_up env spec manual annotation current s repo).state ≡ s
  unfolding back_up
  back_up-state manual annotation current s none = refl
  back_up-state manual annotation current s (some r) =
      if_elim {A = BackupOutcome E C} (λ o. o.state ≡ s) (is_empty r.name) (λ _. refl)
        (λ _.
          if_elim {A = BackupOutcome E C} (λ o. o.state ≡ s) (any names_repo manual.options)
            (λ _. refl)
            (λ _.
              make_job-elim env (λ o. o.state ≡ s) spec s current r manual.repo_name "manual" _
                manual.options (λ e. refl) (λ job answer l a n. refl)))

  check_manual-state :
      (manual : ManualBackup) (annotation : String) (current : Option BackupJob) (s : BackupState C)
      → (check_manual env spec manual annotation current s).state ≡ s
  unfolding check_manual
  check_manual-state manual annotation current s =
      if_elim {A = BackupOutcome E C} (λ o. o.state ≡ s) (is_finished s.manual) (λ _. refl)
        (λ _.
          if_elim {A = BackupOutcome E C} (λ o. o.state ≡ s)
            (dedicated_repo_host_enabled spec.repos
              && not (is_true (sc.find s.conditions condition_repo_host_ready)))
            (λ _. refl)
            (λ _.
              if_elim {A = BackupOutcome E C} (λ o. o.state ≡ s)
                (not (is_true (sc.find s.conditions condition_replica_create))) (λ _. refl)
                (λ _.
                  if_elim {A = BackupOutcome E C} (λ o. o.state ≡ s)
                    (not (find_status manual.repo_name s.repos (false, false)).0) (λ _. refl)
                    (λ _.
                      if_elim {A = BackupOutcome E C} (λ o. o.state ≡ s)
                        (not (find_status manual.repo_name s.repos (false, false)).1) (λ _. refl)
                        (λ _.
                          back_up-state manual annotation current s
                            (find_repo manual.repo_name spec.repos none))))))

  abbrev Kept : String → BackupState C → BackupOutcome E C → Type 0
  Kept t s o = Same t s o.state

  take_manual-Same :
      (t : String) (current : Option BackupJob) (s : BackupState C)
      → str_eq condition_manual_backup_successful t ≡ false
      → Same t s (take_manual env spec instances current s).state
  unfolding take_manual
  take_manual-Same t current s h =
      let annotation = label pgbackrest_backup spec.annotations in
      if_elim {A = BackupOutcome E C} (Kept t s)
        (not (cluster_writable instances) || is_empty annotation) (λ _. (refl, refl))
        (λ _. elim (Option-cases spec.manual) [
          | inl n ↦
              subst
                (λ m. Kept t s (elim m [
                  | none ↦ stays env s
                  | some manual ↦
                      check_manual env spec manual annotation current (begin_manual annotation s)
                ]))
                (sym n) (refl, refl)
          | inr (manual, m) ↦
              subst
                (λ o. Kept t s (elim o [
                  | none ↦ stays env s
                  | some manual ↦
                      check_manual env spec manual annotation current (begin_manual annotation s)
                ]))
                (sym m)
                (subst (Same t s)
                  (sym (check_manual-state manual annotation current (begin_manual annotation s)))
                  (begin_manual-Same t annotation s h))
        ])

  pub reconcile_manual_backup-Same :
      (t : String) (jobs : List BackupJob) (s : BackupState C)
      → str_eq condition_manual_backup_successful t ≡ false
      → Same t s (reconcile_manual_backup env spec jobs instances s).state
  unfolding reconcile_manual_backup
  reconcile_manual_backup-Same t [] s h = take_manual-Same t none s h
  reconcile_manual_backup-Same t (job ∷ rest) s h =
      let noted = note_manual spec job s.manual s in
      let (a, b) = note_manual-Same t spec job s.manual s h in
      let (c, d) = take_manual-Same t (some job) noted h in
      if_elim {A = BackupOutcome E C} (Kept t s)
        ((job_completed job || job_failed job)
          && (not (is_empty (label pgbackrest_backup spec.annotations))
              && not (
                  str_eq (label pgbackrest_backup job.annotations)
                    (label pgbackrest_backup spec.annotations))))
        (λ _. (a, b)) (λ _. (c ∙ a, d ∙ b))
