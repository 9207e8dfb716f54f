-- ===== src/Upgrade.antt =====
-- internal/controller/pgupgrade: the objects that the PGUpgrade controller reads and writes. Parts
-- of a pod that the controller only copies are held as one serialised text each, and the Command
-- of a container is left out.
pub mod Observe
pub mod Jobs
pub mod Effects
pub mod Reconcile
pub mod Safety
pub mod Success
pub mod Observed
pub mod Labelled
pub mod Progress
pub mod Order
use ivory_operator.Kube.{OwnerReference}
use ivory_operator.Prelude.{ℕ, String, Bool, Option, none, List, [], GoMap, Labels}
use ivory_operator.Prelude.Int.{ℤ, pos}

-- corev1.Container
pub record Container : Type 0 where
  pub name : String
  pub image : String
  pub image_pull_policy : String
  pub security_context : String
  pub volume_mounts : List String
  pub resources : String

-- corev1.PodTemplateSpec. `copied` stands for the fields that the controller does not name: the
-- service account, volumes, DNS policies and scheduling constraints.
pub record PodTemplate : Type 0 where
  pub labels : Labels
  pub annotations : Labels
  pub containers : List Container
  pub init_containers : List Container
  pub ephemeral_containers : List Container
  pub image_pull_secrets : List String
  pub restart_policy : String
  pub affinity : Option String
  pub priority_class_name : String
  pub tolerations : List String
  pub copied : String

-- batchv1.JobCondition
pub record JobCondition : Type 0 where
  pub type : String
  pub status : String

-- batchv1.Job
pub record Job : Type 0 where
  pub namespace : String
  pub name : String
  pub labels : Labels
  pub annotations : Labels
  pub owners : List OwnerReference
  pub backoff_limit : Option ℕ
  pub template : PodTemplate
  pub conditions : List JobCondition

-- appsv1.StatefulSet
pub record StatefulSet : Type 0 where
  pub name : String
  pub labels : Labels
  pub template : PodTemplate

-- corev1.Endpoints
pub record Endpoints : Type 0 where
  pub name : String
  pub labels : Labels

-- v1beta1.PostgresCluster, its fields that the controller reads. `set_replicas` has the Replicas of
-- each element of Status.InstanceSets.
pub record Cluster : Type 0 where
  pub name : String
  pub generation : ℕ
  pub annotations : Labels
  pub postgres_version : ℕ
  pub shutdown : Option Bool
  pub observed_generation : ℕ
  pub startup_instance : String
  pub set_replicas : List ℕ
  pub status_version : ℕ
  pub status_repos : List String

-- v1beta1.PGUpgrade, its metadata and specification. The conditions of its status are kept apart.
pub record PgUpgrade : Type 0 where
  pub namespace : String
  pub name : String
  pub uid : String
  pub generation : ℕ
  pub postgres_cluster_name : String
  pub from_version : ℕ
  pub to_version : ℕ
  pub metadata_labels : Labels
  pub metadata_annotations : Labels
  pub image : Option String
  pub image_pull_policy : String
  pub image_pull_secrets : List String
  pub resources : String
  pub affinity : Option String
  pub priority_class_name : Option String
  pub tolerations : List String

-- The struct World of world.go, with the errors `E` of the API.
pub record World (E : Type 0) : Type 0 where
  pub cluster : Option Cluster
  pub cluster_not_found : Option E
  pub cluster_primary : Option StatefulSet
  pub cluster_replicas : List StatefulSet
  pub cluster_shutdown : Bool
  pub replicas_expected : ℤ
  pub patroni_endpoints : List Endpoints
  pub jobs : GoMap Job

-- The constants of labels.go.
abbrev pub condition_progressing : String
condition_progressing = "Progressing"

abbrev pub condition_succeeded : String
condition_succeeded = "Succeeded"

abbrev pub label_pg_upgrade : String
label_pg_upgrade = "postgres-operator.crunchydata.com/pgupgrade"

abbrev pub label_cluster : String
label_cluster = "postgres-operator.crunchydata.com/cluster"

abbrev pub label_role : String
label_role = "postgres-operator.crunchydata.com/role"

abbrev pub label_version : String
label_version = "postgres-operator.crunchydata.com/version"

abbrev pub label_patroni : String
label_patroni = "postgres-operator.crunchydata.com/patroni"

abbrev pub label_backup : String
label_backup = "postgres-operator.crunchydata.com/pgbackrest-backup"

abbrev pub label_instance : String
label_instance = "postgres-operator.crunchydata.com/instance"

abbrev pub replica_create : String
replica_create = "replica-create"

abbrev pub container_database : String
container_database = "database"

abbrev pub pg_upgrade : String
pg_upgrade = "pgupgrade"

abbrev pub remove_data : String
remove_data = "removedata"

-- AnnotationAllowUpgrade
abbrev pub annotation_allow_upgrade : String
annotation_allow_upgrade = "postgres-operator.crunchydata.com/allow-upgrade"
