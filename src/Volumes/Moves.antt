-- ===== src/Volumes/Moves.antt =====
-- volumes.go: reconcileDirMoveJobs and its three jobs, which move existing directories into place.

-- What a set of instances, or the repository host, gives to a container.
use ivory_operator.Backups.{merge_labels}
use ivory_operator.Kube.{LabelSets}
use ivory_operator.Prelude.{
  false, none, some, [], ℕ, decimal, List, Labels, ◌∷◌, Bool, String, concat, Option,
}
use ivory_operator.Upgrade.{JobCondition, label_cluster}
use ivory_operator.Volumes.Existing.{DataSourceVolumes, DataSourceVolume}

pub record Scheduling : Type 0 where
  pub resources : String
  pub priority_class_name : Option String

-- What is read of the cluster, with the images that the configuration finds for it.
pub record MoveSpec : Type 0 where
  pub cluster_name : String
  pub metadata_labels : Labels
  pub metadata_annotations : Labels
  pub postgres_version : ℕ
  pub postgres_image : String
  pub pgbackrest_image : String
  pub image_pull_policy : String
  pub image_pull_secrets : List String
  pub pod_security_context : String
  pub first_set : Option Scheduling
  pub repo_host : Option Scheduling
  pub volumes : Option DataSourceVolumes

-- batchv1.Job, as far as the three functions set it. The constant security context of the container is
-- left out.
pub record MoveJob : Type 0 where
  pub name : String
  pub labels : Labels
  pub annotations : Labels
  pub command : List String
  pub image : String
  pub image_pull_policy : String
  pub container : String
  pub mount_path : String
  pub resources : String
  pub image_pull_secrets : List String
  pub pod_security_context : String
  pub restart_policy : String
  pub automount_token : Bool
  pub volume_name : String
  pub claim_name : String
  pub priority_class_name : String

-- A job of the list.
pub record ObservedMove : Type 0 where
  pub name : String
  pub conditions : List JobCondition

-- What SetControllerReference and the apply answer, the latter for the jobs that were applied before.
pub record MoveEnv (E : Type 0) : Type 0 where
  pub set_controller : MoveJob → Option E
  pub apply : List MoveJob → MoveJob → Option E

pub record MoveOutcome (E : Type 0) : Type 0 where
  pub return_early : Bool
  pub err : Option E
  pub applied : List MoveJob

-- The directory of the Postgres data, of its WAL and of a pgBackRest repository.
pub data MoveKind : Type 0 where
  move_pg_data_dir : MoveKind
  move_wal_dir : MoveKind
  move_repo_dir : MoveKind

-- MovePGDataDirJob, MovePGWALDirJob and MovePGBackRestRepoDirJob
unfoldable pub move_job_name : MoveKind → String → String
unfolding concat
move_job_name move_pg_data_dir cluster_name = concat (cluster_name ∷ "-move-pgdata-dir" ∷ [])
move_job_name move_wal_dir cluster_name = concat (cluster_name ∷ "-move-pgwal-dir" ∷ [])
move_job_name move_repo_dir cluster_name = concat (cluster_name ∷ "-move-pgbackrest-repo-dir" ∷ [])

unfoldable pub directory_move_job_labels : String → Labels
directory_move_job_labels cluster_name =
    (label_cluster, cluster_name) ∷ ("postgres-operator.crunchydata.com/move-job", "") ∷ []

unfoldable pub move_labels : ⦃ls : LabelSets⦄ → MoveSpec → String → Labels
unfolding merge_labels directory_move_job_labels
move_labels spec own =
    merge_labels
      (spec.metadata_labels ∷ directory_move_job_labels spec.cluster_name ∷ ((own, "") ∷ []) ∷ [])

-- A job with what the three have in common.
unfoldable pub move_job :
    ⦃ls : LabelSets⦄
    → MoveSpec
    → MoveKind
    → DataSourceVolume
    → Option Scheduling
    → String
    → String
    → MoveJob
unfolding move_job_name move_labels merge_labels
move_job spec kind source scheduling own_label script = record {
  name = move_job_name kind spec.cluster_name;
  labels = move_labels spec own_label;
  annotations = merge_labels (spec.metadata_annotations ∷ []);
  command = "bash" ∷ "-ceu" ∷ script ∷ [];
  image = spec.postgres_image;
  image_pull_policy = spec.image_pull_policy;
  container = "pgdata-move-job";
  mount_path = "/pgdata";
  resources = elim scheduling [ none ↦ "" | some s ↦ s.resources ];
  image_pull_secrets = spec.image_pull_secrets;
  pod_security_context = spec.pod_security_context;
  restart_policy = "Never";
  automount_token = false;
  volume_name = "postgres-data";
  claim_name = source.pvc_name;
  priority_class_name = elim scheduling [
    | none ↦ ""
    | some s ↦ elim s.priority_class_name [ none ↦ "" | some name ↦ name ]
  ];
}

-- The lines of a script.
unfoldable pub script_of : List String → String
unfolding concat
script_of [] = ""
script_of (line ∷ rest) = concat (line ∷ "\n    " ∷ script_of rest ∷ [])

unfoldable pub pg_data_script : MoveSpec → DataSourceVolume → String
unfolding concat script_of decimal
pg_data_script spec source =
    let version = decimal spec.postgres_version in
    script_of (
      concat ("echo \"Preparing cluster " ∷ spec.cluster_name ∷ " volumes for PGO v5.x\"" ∷ [])
      ∷ concat ("echo \"pgdata_pvc=" ∷ source.pvc_name ∷ "\"" ∷ [])
      ∷ "echo \"Current PG data directory volume contents:\" "
      ∷ "ls -lh \"/pgdata\""
      ∷ "echo \"Now updating PG data directory...\""
      ∷ concat (
          "[ -d \"/pgdata/" ∷ source.directory ∷ "\" ] && mv \"/pgdata/" ∷ source.directory
          ∷ "\" \"/pgdata/pg" ∷ version ∷ "_bootstrap\"" ∷ [])
      ∷ concat ("rm -f \"/pgdata/pg" ∷ version ∷ "/patroni.dynamic.json\"" ∷ [])
      ∷ "echo \"Updated PG data directory contents:\" "
      ∷ "ls -lh \"/pgdata\""
      ∷ "echo \"PG Data directory preparation complete\""
      ∷ [])

unfoldable pub wal_script : MoveSpec → DataSourceVolume → String
unfolding concat script_of
wal_script spec source = script_of (
    concat ("echo \"Preparing cluster " ∷ spec.cluster_name ∷ " volumes for PGO v5.x\"" ∷ [])
    ∷ concat ("echo \"pg_wal_pvc=" ∷ source.pvc_name ∷ "\"" ∷ [])
    ∷ "echo \"Current PG WAL directory volume contents:\""
    ∷ "ls -lh \"/pgwal\""
    ∷ "echo \"Now updating PG WAL directory...\""
    ∷ concat (
        "[ -d \"/pgwal/" ∷ source.directory ∷ "\" ] && mv \"/pgwal/" ∷ source.directory
        ∷ "\" \"/pgwal/" ∷ spec.cluster_name ∷ "-wal\"" ∷ [])
    ∷ "echo \"Updated PG WAL directory contents:\""
    ∷ "ls -lh \"/pgwal\""
    ∷ "echo \"PG WAL directory preparation complete\""
    ∷ [])

-- One line of the script for the repository, which moves `part`.
unfoldable pub move_part : DataSourceVolume → String → String
unfolding concat
move_part source part = concat (
    "[ -d \"/pgbackrest/" ∷ source.directory ∷ "\" ] && mv -t \"/pgbackrest/\" \"/pgbackrest/"
    ∷ source.directory ∷ "/" ∷ part ∷ "\"" ∷ [])

unfoldable pub repo_script : MoveSpec → DataSourceVolume → String
unfolding concat script_of move_part
repo_script spec source = script_of (
    concat (
      "echo \"Preparing cluster " ∷ spec.cluster_name ∷ " pgBackRest repo volume for PGO v5.x\""
      ∷ [])
    ∷ concat ("echo \"repo_pvc=" ∷ source.pvc_name ∷ "\"" ∷ [])
    ∷ "echo \"pgbackrest directory:\""
    ∷ "ls -lh /pgbackrest"
    ∷ "echo \"Current pgBackRest repo directory volume contents:\" "
    ∷ concat ("ls -lh \"/pgbackrest/" ∷ source.directory ∷ "\"" ∷ [])
    ∷ "echo \"Now updating repo directory...\""
    ∷ move_part source "archive"
    ∷ move_part source "backup"
    ∷ "echo \"Updated /pgbackrest directory contents:\""
    ∷ "ls -lh \"/pgbackrest\""
    ∷ "echo \"Repo directory preparation complete\""
    ∷ [])

-- The jobs that the three functions make.
unfoldable pub move_intent : ⦃ls : LabelSets⦄ → MoveKind → MoveSpec → DataSourceVolume → MoveJob
unfolding move_job pg_data_script wal_script repo_script
move_intent move_pg_data_dir spec source =
    move_job spec move_pg_data_dir source spec.first_set
      "postgres-operator.crunchydata.com/move-pgdata-dir" (pg_data_script spec source)
move_intent move_wal_dir spec source =
    record (move_job spec move_wal_dir source spec.first_set
      "postgres-operator.crunchydata.com/move-pgwal-dir" (wal_script spec source)) {
        container = "pgwal-move-job";
        mount_path = "/pgwal";
        volume_name = "postgres-wal";
      }
move_intent move_repo_dir spec source =
    record (move_job spec move_repo_dir source spec.repo_host
      "postgres-operator.crunchydata.com/move-pgbackrest-repo-dir" (repo_script spec source)) {
        image = spec.pgbackrest_image;
        container = "repo-move-job";
        mount_path = "/pgbackrest";
        volume_name = "pgbackrest-repo";
      }
