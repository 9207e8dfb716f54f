-- ===== src/Backups/Job.antt =====
-- pgbackrest.go: the end of reconcileManualBackup and reconcileReplicaCreateBackup, which is alike: a
-- Job is made and applied.

use ivory_operator.Backups.{
  pgbackrest_backup_job_labels, merge_labels, apply_job, Repo, BackupJob, BackupOutcome, BackupSpec,
  BackupState, BackupEnv,
}
use ivory_operator.Kube.{found, failed, Answer, LabelSets}
use ivory_operator.Prelude.{refl, ◌≡◌, ◌∷◌, List, some, none, [], Labels, String, Option}

-- A job by its name, labels and annotations.
abbrev pub empty_job : String → Labels → Labels → BackupJob
empty_job name labels annotations = record {
  name = name;
  labels = labels;
  annotations = annotations;
  spec = "";
  conditions = [];
  start_time = "";
  completion_time = "";
  active = 0;
  succeeded = 0;
  failed = 0;
}

-- The name of the current job, or else a new one.
unfoldable pub job_name : {E : Type 0} → BackupEnv E → Option BackupJob → String
job_name env none = env.new_job_name
job_name env (some job) = job.name

-- The labels and annotations of a job: the three sources, later ones first.
abbrev pub job_labels : ⦃ls : LabelSets⦄ → BackupSpec → String → String → Labels
job_labels ⦃ls⦄ spec repo_label backup_type = merge_labels (
    spec.metadata_labels
    ∷ spec.pgbackrest_labels
    ∷ pgbackrest_backup_job_labels spec.cluster_name repo_label backup_type
    ∷ [])

abbrev pub job_annotations : ⦃ls : LabelSets⦄ → BackupSpec → Labels → Labels
job_annotations ⦃ls⦄ spec own =
    merge_labels (spec.metadata_annotations ∷ spec.pgbackrest_annotations ∷ own ∷ [])

module _ {E C : Type 0} ⦃ls : LabelSets⦄ (env : BackupEnv E) where
  abbrev pub stays : BackupState C → BackupOutcome E C
  stays s = record { err = none; state = s; writes = [] }

  abbrev pub fails : BackupState C → E → BackupOutcome E C
  fails s e = record { err = some e; state = s; writes = [] }

  unfoldable pub send_job : BackupState C → BackupJob → Option E → BackupOutcome E C
  send_job s job (some e) = fails s e
  send_job s job none = record {
    err = env.respond [] (apply_job job);
    state = s;
    writes = apply_job job ∷ [];
  }

  unfoldable pub with_spec : BackupState C → BackupJob → Answer E String → BackupOutcome E C
  unfolding send_job
  with_spec s job (failed e) = fails s e
  with_spec s job (found spec) =
      let made : BackupJob = record job { spec = spec } in send_job s made (env.set_controller made)

  unfoldable pub make_job :
      BackupSpec
      → BackupState C
      → Option BackupJob
      → Repo
      → String
      → String
      → Labels
      → List String
      → BackupOutcome E C
  unfolding with_spec job_name
  make_job spec s current repo repo_label backup_type own_annotations options =
      let labels = job_labels spec repo_label backup_type in
      let annotations = job_annotations spec own_annotations in
      with_spec s (empty_job (job_name env current) labels annotations)
        (env.job_spec repo labels annotations options)

  -- Every outcome of make_job is a refusal, or the answer to a job of the labels and annotations.
  send_job-elim :
      (Q : BackupOutcome E C → Type 0) (s : BackupState C) (job : BackupJob) (answer : Option E)
      → ((e : E) → Q (fails s e))
      → ((r : Option E) → Q (record { err = r; state = s; writes = apply_job job ∷ [] }))
      → Q (send_job s job answer)
  unfolding send_job
  send_job-elim Q s job (some e) h k = h e
  send_job-elim Q s job none h k = k (env.respond [] (apply_job job))

  with_spec-elim :
      (Q : BackupOutcome E C → Type 0) (s : BackupState C) (job : BackupJob)
      (answer : Answer E String)
      → ((e : E) → Q (fails s e))
      → ((x : String) (r : Option E)
          → Q (record { err = r; state = s; writes = apply_job (record job { spec = x }) ∷ [] }))
      → Q (with_spec s job answer)
  unfolding with_spec
  with_spec-elim Q s job (failed e) h k = h e
  with_spec-elim Q s job (found x) h k =
      send_job-elim Q s (record job { spec = x }) (env.set_controller (record job { spec = x })) h
        (k x)

  pub make_job-elim :
      (Q : BackupOutcome E C → Type 0) (spec : BackupSpec) (s : BackupState C)
      (current : Option BackupJob) (repo : Repo) (repo_label backup_type : String) (own : Labels)
      (options : List String)
      → ((e : E) → Q (fails s e))
      → ((job : BackupJob) (r : Option E)
          → job.labels ≡ job_labels spec repo_label backup_type
          → job.annotations ≡ job_annotations spec own
          → job.name ≡ job_name env current
          → Q (record { err = r; state = s; writes = apply_job job ∷ [] }))
      → Q (make_job spec s current repo repo_label backup_type own options)
  unfolding make_job
  make_job-elim Q spec s current repo repo_label backup_type own options h k =
      let labels = job_labels spec repo_label backup_type in
      let annotations = job_annotations spec own in
      with_spec-elim Q s (empty_job (job_name env current) labels annotations)
        (env.job_spec repo labels annotations options) h
        (λ x r.
          k (record (empty_job (job_name env current) labels annotations) { spec = x }) r refl refl
            refl)
