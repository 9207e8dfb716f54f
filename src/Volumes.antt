-- ===== src/Volumes.antt =====
-- internal/controller/postgrescluster/volumes.go: the claims of a cluster.
pub mod Resizing
pub mod Resized
pub mod Existing
pub mod Adopted
pub mod Moves
pub mod Moving
pub mod Moved
pub mod Failures
pub mod Claims
pub mod Tablespaces
pub mod Safe
pub mod Reported
-- corev1.PersistentVolumeClaimCondition; a time is 0 where it is zero.
use ivory_operator.Prelude.{List, ℕ, Labels, String}

pub record PvcCondition : Type 0 where
  pub type : String
  pub status : String
  pub reason : String
  pub message : String
  pub last_transition_time : ℕ

-- corev1.PersistentVolumeClaim; `spec` is its Spec.
pub record Pvc : Type 0 where
  pub name : String
  pub labels : Labels
  pub spec : String
  pub conditions : List PvcCondition

abbrev pub condition_resizing : String
condition_resizing = "PersistentVolumeResizing"
