-- ===== src/Backups/ManualDue.antt =====
-- When reconcileManualBackup writes.

use ivory_operator.Backups.{
  BackupJob, BackupOutcome, BackupEnv, merge_labels, condition_replica_create,
  condition_repo_host_ready, is_true, dedicated_repo_host_enabled, event, apply_job, job_failed,
  ◌∷◌, pgbackrest_backup, job_completed, delete_job, cluster_writable, BackupWrite, ManualBackup,
  BackupState, RepoStatus, Repo, BackupSpec,
}
use ivory_operator.Backups.Job.{stays, make_job-elim, job_annotations}
use ivory_operator.Backups.Manual.{
  note_manual, begin_manual, reconcile_manual_backup, take_manual, check_manual, back_up,
  names_repo, is_finished, is_status_for, find_repo, find_status,
}
use ivory_operator.Instances.{Instance}
use ivory_operator.Kube.{LabelSets, StatusConditions}
use ivory_operator.Prelude.{
  lookup-first, subst, Option-cases, refl, eq_iff, none, if_elim, All, lookup, Labels, [], ◌∙◌, ap,
  not, if◌then◌else◌, sym, arith, inl, false, Bool-cases, inr, ◌⊎◌, label, ◌||◌, ◌&&◌, str_eq,
  is_empty, true, some, ◌≡◌, Bool, Option, String, List, any,
}

-- What find_repo answers is of the list, and of the name.
find_repo-any :
    (name : String) (rs : List Repo) (seen : Option Repo) (r : Repo)
    → find_repo name rs seen ≡ some r
    → (any (λ (x : Repo). str_eq x.name name) rs ≡ true) ⊎ (seen ≡ some r)
unfolding find_repo any
find_repo-any name [] seen r e = inr e
find_repo-any name (x ∷ rs) seen r e = elim (Bool-cases (str_eq x.name name)) [
  | inl h ↦ inl (ground (arith, h))
  | inr h ↦ elim (find_repo-any name rs (if str_eq x.name name then some x else seen) r e) [
    | inl k ↦ inl (ground (arith, k))
    | inr k ↦ inr (sym (ap (λ b. if b then some x else seen) h) ∙ k)
  ]
]

-- A status of the name has a stanza.
find_status-any :
    (name : String) (ss : List RepoStatus) (seen : Bool × Bool)
    → (find_status name ss seen).1 ≡ true
    → (any (λ (x : RepoStatus). str_eq x.name name && x.stanza_created) ss || seen.1) ≡ true
unfolding find_status any
find_status-any name [] seen e = e
find_status-any name (x ∷ ss) (a, b) e = elim (Bool-cases (str_eq x.name name)) [
  | inl h ↦ ground (
    arith,
    h,
    find_status-any name ss (true, x.stanza_created)
        (sym (ap (λ c. (find_status name ss (if c then (true, x.stanza_created) else (a, b))).1) h)
          ∙ e),
  )
  | inr h ↦ ground (
    arith,
    h,
    find_status-any name ss (a, b)
        (sym (ap (λ c. (find_status name ss (if c then (true, x.stanza_created) else (a, b))).1) h)
          ∙ e),
  )
]

module _ {C : Type 0} ⦃sc : StatusConditions C⦄ where
  -- A manual backup of the cluster can be taken in this status.
  pub record IsDue (spec : BackupSpec) (instances : List Instance) (s : BackupState C)
      (manual : ManualBackup) : Type 0 where
    pub writable : cluster_writable instances ≡ true
    pub asked : is_empty (label pgbackrest_backup spec.annotations) ≡ false
    pub status : is_status_for (label pgbackrest_backup spec.annotations) s.manual ≡ true
    pub unfinished : is_finished s.manual ≡ false
    pub repo_host :
        (dedicated_repo_host_enabled spec.repos
          && not (is_true (sc.find s.conditions condition_repo_host_ready)))
        ≡ false
    pub replica_create : is_true (sc.find s.conditions condition_replica_create) ≡ true
    pub stanza :
        any (λ (x : RepoStatus). str_eq x.name manual.repo_name && x.stanza_created) s.repos ≡ true
    pub defined : any (λ (x : Repo). str_eq x.name manual.repo_name) spec.repos ≡ true
    pub options : any names_repo manual.options ≡ false

  -- A write of reconcileManualBackup that has its reason.
  abbrev pub IsDueManual : BackupSpec → List Instance → BackupState C → BackupWrite → Type 0
  IsDueManual spec instances s (delete_job job) =
      ((job_completed job || job_failed job) ≡ true)
      × (is_empty (label pgbackrest_backup spec.annotations) ≡ false)
      × (str_eq (label pgbackrest_backup job.annotations) (label pgbackrest_backup spec.annotations)
          ≡ false)
  IsDueManual spec instances s (apply_job job) =
      (label pgbackrest_backup job.annotations ≡ label pgbackrest_backup spec.annotations)
      × ((manual : ManualBackup) × ((spec.manual ≡ some manual) × IsDue spec instances s manual))
  IsDueManual spec instances s (event reason) = Unit {0}

-- The last set of annotations wins.
pub label-job_annotations :
    ⦃ls : LabelSets⦄
    → (spec : BackupSpec) (own : Labels) (k v : String) → lookup k own ≡ some v
    → label k (job_annotations spec own) ≡ v
unfolding merge_labels label
label-job_annotations ⦃ls⦄ spec own k v e = ground (
  arith,
  e,
  ls.lookup-merge (ls.merge (ls.merge [] spec.metadata_annotations) spec.pgbackrest_annotations) own
      k,
)

module _ {E C : Type 0} ⦃ls : LabelSets⦄ ⦃sc : StatusConditions C⦄ (env : BackupEnv E)
    (spec : BackupSpec) (instances : List Instance) where
  abbrev Due : BackupOutcome E C → Type 0
  Due out = All (IsDueManual spec instances out.state) out.writes

  back_up-Due :
      (manual : ManualBackup) (current : Option BackupJob) (s : BackupState C) (repo : Option Repo)
      → ((r : Repo)
          → repo ≡ some r
          → any names_repo manual.options ≡ false
          → IsDue spec instances s manual)
      → spec.manual ≡ some manual
      → Due (back_up env spec manual (label pgbackrest_backup spec.annotations) current s repo)
  unfolding back_up
  back_up-Due manual current s none h m = tt
  back_up-Due manual current s (some r) h m =
      if_elim {A = BackupOutcome E C} Due (is_empty r.name) (λ _. tt)
        (λ _.
          if_elim {A = BackupOutcome E C} Due (any names_repo manual.options) (λ _. (tt, tt))
            (λ o.
              make_job-elim env Due spec s current r manual.repo_name "manual" _ manual.options
                (λ e. tt)
                (λ job answer l a n. (
                  (
                    ap (label pgbackrest_backup) a
                        ∙ label-job_annotations spec _ pgbackrest_backup
                            (label pgbackrest_backup spec.annotations)
                            (lookup-first pgbackrest_backup
                              (label pgbackrest_backup spec.annotations) []),
                    (manual, (m, h r refl o)),
                  ),
                  tt,
                ))))

  check_manual-Due :
      (manual : ManualBackup) (current : Option BackupJob) (s : BackupState C)
      → spec.manual ≡ some manual
      → cluster_writable instances ≡ true
      → is_empty (label pgbackrest_backup spec.annotations) ≡ false
      → is_status_for (label pgbackrest_backup spec.annotations) s.manual ≡ true
      → Due (check_manual env spec manual (label pgbackrest_backup spec.annotations) current s)
  unfolding check_manual
  check_manual-Due manual current s m w a t =
      if_elim {A = BackupOutcome E C} Due (is_finished s.manual) (λ _. tt)
        (λ f.
          if_elim {A = BackupOutcome E C} Due
            (dedicated_repo_host_enabled spec.repos
              && not (is_true (sc.find s.conditions condition_repo_host_ready)))
            (λ _. tt)
            (λ d.
              if_elim {A = BackupOutcome E C} Due
                (not (is_true (sc.find s.conditions condition_replica_create))) (λ _. tt)
                (λ c.
                  if_elim {A = BackupOutcome E C} Due
                    (not (find_status manual.repo_name s.repos (false, false)).0) (λ _. (tt, tt))
                    (λ _.
                      if_elim {A = BackupOutcome E C} Due
                        (not (find_status manual.repo_name s.repos (false, false)).1)
                        (λ _. (tt, tt))
                        (λ z.
                          back_up-Due manual current s (find_repo manual.repo_name spec.repos none)
                            (λ r e o. record {
                              writable = w;
                              asked = a;
                              status = t;
                              unfinished = f;
                              repo_host = d;
                              replica_create = ground (arith, c);
                              stanza = ground (
                                arith,
                                z,
                                find_status-any manual.repo_name s.repos (false, false),
                              );
                              defined = elim (find_repo-any manual.repo_name spec.repos none r e) [
                                | inl x ↦ x
                                | inr x ↦ ground (arith, x)
                              ];
                              options = o;
                            })
                            m)))))

  begin_manual-status :
      (annotation : String) (s : BackupState C)
      → is_status_for annotation (begin_manual annotation s).manual ≡ true
  unfolding begin_manual is_status_for
  begin_manual-status annotation s =
      if_elim {A = BackupState C} (λ t. is_status_for annotation t.manual ≡ true)
        (is_status_for annotation s.manual) (λ e. e) (λ _. (eq_iff annotation annotation).1 refl)

  take_manual-Due :
      (current : Option BackupJob) (s : BackupState C)
      → Due (take_manual env spec instances current s)
  unfolding take_manual
  take_manual-Due current s =
      if_elim {A = BackupOutcome E C} Due
        (not (cluster_writable instances) || is_empty (label pgbackrest_backup spec.annotations))
        (λ _. tt)
        (λ e. elim (Option-cases spec.manual) [
          | inl n ↦
              subst
                (λ m. Due (elim m [
                  | none ↦ stays env s
                  | some manual ↦
                      check_manual env spec manual (label pgbackrest_backup spec.annotations)
                        current (begin_manual (label pgbackrest_backup spec.annotations) s)
                ]))
                (sym n) tt
          | inr (manual, m) ↦
              subst
                (λ o. Due (elim o [
                  | none ↦ stays env s
                  | some manual ↦
                      check_manual env spec manual (label pgbackrest_backup spec.annotations)
                        current (begin_manual (label pgbackrest_backup spec.annotations) s)
                ]))
                (sym m)
                (check_manual-Due manual current
                  (begin_manual (label pgbackrest_backup spec.annotations) s) m (ground (arith, e))
                  (ground (arith, e))
                  (begin_manual-status (label pgbackrest_backup spec.annotations) s))
        ])

  -- A job is written only for the backup that is asked for, which its annotation names, and only when
  -- the status after the call is for that backup and not finished, an instance is writable, the
  -- repository host is ready where there is one, the backup for replicas is there, the repository is
  -- in the spec and has a stanza, and no option names a repository. A job is deleted only when it is
  -- finished and is for another backup than the one asked for.
  pub reconcile_manual_backup-IsDue :
      (jobs : List BackupJob) (s : BackupState C)
      → All
          (IsDueManual spec instances (reconcile_manual_backup env spec jobs instances s).state)
          (reconcile_manual_backup env spec jobs instances s).writes
  unfolding reconcile_manual_backup
  reconcile_manual_backup-IsDue [] s = take_manual-Due none s
  reconcile_manual_backup-IsDue (job ∷ rest) s =
      if_elim {A = BackupOutcome E C} Due
        ((job_completed job || job_failed job)
          && (not (is_empty (label pgbackrest_backup spec.annotations))
              && not (
                  str_eq (label pgbackrest_backup job.annotations)
                    (label pgbackrest_backup spec.annotations))))
        (λ e. ((ground (arith, e), ground (arith, e), ground (arith, e)), tt))
        (λ _. take_manual-Due (some job) (note_manual spec job s.manual s))
