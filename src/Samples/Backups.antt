-- ===== src/Samples/Backups.antt =====
-- A cluster with one repository on a volume: its first backup, and a manual backup after it.
use ivory_operator.Backups.{
  is_true, dedicated_repo_host_enabled, cluster_writable, label_pgbackrest_repo, RepoVolume,
  condition_replica_create, condition_replica_repo_ready, condition_repo_host_ready, RepoStatus,
  pgbackrest_backup, BackupSpec, BackupEnv, Repo, BackupState,
}
use ivory_operator.Backups.Carried.{get_repo_volume_status-founded, is_unfounded}
use ivory_operator.Backups.Created.{reconcile_stanza_create, repo_status_of}
use ivory_operator.Backups.Honest.{reconcile_stanza_create-IsHonest, Agrees, IsHonest}
use ivory_operator.Backups.Manual.{reconcile_manual_backup}
use ivory_operator.Backups.ManualDue.{reconcile_manual_backup-IsDue, IsDueManual}
use ivory_operator.Backups.OneJob.{reconcile_backup_jobs-exclusive, applies, reconcile_backup_jobs}
use ivory_operator.Backups.Replica.{
  mark_complete, no_backup_to_take, reconcile_replica_create_backup,
}
use ivory_operator.Backups.ReplicaDue.{reconcile_replica_create_backup-IsDue}
use ivory_operator.Backups.ReplicaOwed.{has_backup, IsDueReplica}
use ivory_operator.Backups.Repos.{get_repo_volume_status}
use ivory_operator.Backups.Stanza.{
  StanzaRun, db_mismatch, stanza_create_or_upgrade-returns, stanza_create_or_upgrade, StanzaEnv,
}
use ivory_operator.Instances.{is_writable, Instance}
use ivory_operator.Kube.{found, Condition}
use ivory_operator.Prelude.{
  inl, label, arith, ◌⊎◌, if◌then◌else◌, Option, ◌&&◌, any, refl, All, ◌≡◌, false, some, none, [],
  ◌∷◌, true, String, Bool, List,
}
use ivory_operator.Samples.Instances.{writer_pod, instance_with}
use ivory_operator.Samples.Kube.{sample_labels, sample_conditions, other, SampleError}
use mathlib.Core.List.Perm

abbrev backup_env : BackupEnv SampleError
backup_env = record {
  respond = λ before call. none;
  job_spec = λ repo labels annotations options. found "backup";
  set_controller = λ job. none;
  new_job_name = "hippo-backup-abcd";
  new_error = λ s. other;
}

abbrev repo1 : Repo
repo1 = record {
  name = "repo1";
  has_volume = true;
  full_schedule = none;
  differential_schedule = none;
  incremental_schedule = none;
  has_schedules = false;
}

abbrev backup_spec : BackupSpec
backup_spec = record {
  cluster_name = "hippo";
  generation = 3;
  annotations = (pgbackrest_backup, "now") ∷ [];
  metadata_labels = [];
  metadata_annotations = [];
  pgbackrest_labels = [];
  pgbackrest_annotations = [];
  repos = repo1 ∷ [];
  manual = some (record { repo_name = "repo1"; options = "--type=full" ∷ [] });
}

abbrev true_condition : String → Condition
true_condition type = record {
  type = type;
  status = "True";
  reason = "Ready";
  message = "";
  observed_generation = 3;
}

abbrev status_of : Bool → Bool → RepoStatus
status_of stanza complete = record {
  name = "repo1";
  bound = true;
  volume_name = "pv-1";
  stanza_created = stanza;
  replica_create_backup_complete = complete;
  repo_options_hash = "";
}

abbrev backup_state : Bool → Bool → BackupState (List Condition)
backup_state stanza complete = record {
  conditions =
      true_condition condition_repo_host_ready ∷ true_condition condition_replica_repo_ready ∷ [];
  repos = status_of stanza complete ∷ [];
  manual = none;
}

abbrev ready_state : BackupState (List Condition)
ready_state = record {
  conditions =
      true_condition condition_repo_host_ready ∷ true_condition condition_replica_create ∷ [];
  repos = status_of true true ∷ [];
  manual = none;
}

abbrev writable_instances : List Instance
writable_instances = instance_with writer_pod ∷ []

-- The first backup is taken, and no manual one.
one_job_test :
    applies
      (reconcile_backup_jobs backup_env backup_spec writable_instances [] [] "hash" repo1 none
        (backup_state true false)).0.writes
    ≡ true
unfolding reconcile_backup_jobs any reconcile_replica_create_backup repo_status_of cluster_writable
    is_writable label dedicated_repo_host_enabled is_true
one_job_test = refl

-- The manual backup is taken once the first one is there.
manual_test :
    applies
      (reconcile_manual_backup backup_env backup_spec [] writable_instances ready_state).writes
    ≡ true
unfolding reconcile_manual_backup any cluster_writable is_writable label dedicated_repo_host_enabled
    is_true
manual_test = refl

reconcile_manual_backup-IsDue_example :
    All
      (IsDueManual backup_spec writable_instances
        (reconcile_manual_backup backup_env backup_spec [] writable_instances ready_state).state)
      (reconcile_manual_backup backup_env backup_spec [] writable_instances ready_state).writes
reconcile_manual_backup-IsDue_example =
    reconcile_manual_backup-IsDue backup_env backup_spec writable_instances [] ready_state

reconcile_replica_create_backup-IsDue_example :
    let out =
      reconcile_replica_create_backup backup_env backup_spec writable_instances [] "hash" repo1 none
        (backup_state true false) in
    All
      (λ w.
        (no_backup_to_take writable_instances
            (repo_status_of repo1.name (backup_state true false).repos)
          ≡ false)
        × IsDueReplica backup_spec [] "hash" repo1 (backup_state true false) w)
      out.writes
    × ((out.state.repos ≡ (backup_state true false).repos)
        ⊎ ((out.writes ≡ [])
            × (out.state.repos ≡ mark_complete repo1.name (backup_state true false).repos)
            × (has_backup repo1 "hash" [] ≡ true)))
reconcile_replica_create_backup-IsDue_example =
    reconcile_replica_create_backup-IsDue backup_env backup_spec writable_instances [] "hash" repo1
      none (backup_state true false)

reconcile_backup_jobs-exclusive_example :
    let (first, second) =
      reconcile_backup_jobs backup_env backup_spec writable_instances [] [] "hash" repo1 none
        (backup_state true false) in
    (applies first.writes && applies second.writes) ≡ false
reconcile_backup_jobs-exclusive_example =
    reconcile_backup_jobs-exclusive backup_env backup_spec writable_instances [] [] "hash" repo1
      none (backup_state true false)

abbrev stanza_answer : Bool × Option SampleError
stanza_answer = (false, none)

reconcile_stanza_create-IsHonest_example :
    IsHonest backup_spec writable_instances stanza_answer (backup_state false false) (
      reconcile_stanza_create backup_spec writable_instances
        (backup_state false false)
        stanza_answer)
    × Agrees backup_spec backup_spec.repos
        (reconcile_stanza_create backup_spec writable_instances
          (backup_state false false)
          stanza_answer).state
reconcile_stanza_create-IsHonest_example =
    reconcile_stanza_create-IsHonest backup_spec writable_instances (backup_state false false)
      stanza_answer

-- Another database first, and success when pgBackRest is to upgrade.
abbrev upgrade_env : StanzaEnv SampleError
upgrade_env = record {
  exec = λ n upgrade. if upgrade then ("", none) else (db_mismatch, some other);
  wrap = λ e s. e;
}

stanza_create_or_upgrade-returns_example :
    (result : Bool × Option SampleError) × (stanza_create_or_upgrade upgrade_env 2 0 false
      ≡ some result)
    × StanzaRun upgrade_env 0 false result
stanza_create_or_upgrade-returns_example =
    stanza_create_or_upgrade-returns upgrade_env 1 2 0 false (inl refl) (omega arith)

-- The volume is another one than before.
abbrev moved_volume : RepoVolume
moved_volume = record {
  labels = (label_pgbackrest_repo, "repo1") ∷ [];
  phase = "Bound";
  volume_name = "pv-2";
}

abbrev moved_status : List RepoStatus
moved_status =
    get_repo_volume_status (λ l. l) (status_of true true ∷ []) (moved_volume ∷ []) [] "repo1"

moved_test : moved_status ≡ record (status_of false false) { volume_name = "pv-2" } ∷ []
unfolding get_repo_volume_status label
moved_test = refl

get_repo_volume_status-founded_example :
    All (λ s. is_unfounded (status_of true true ∷ []) s ≡ false) moved_status
get_repo_volume_status-founded_example =
    get_repo_volume_status-founded (λ l. l) (status_of true true ∷ []) (moved_volume ∷ []) []
      "repo1" (Perm.refl _)
