-- ===== src/Samples/Claims.antt =====
-- An instance whose WAL volume is no longer specified.

use ivory_operator.Kube.{Condition, found}
use ivory_operator.Prelude.{refl, true, List, none, some, false, ◌≡◌, length, [], String, All}
use ivory_operator.Samples.Instances.{leader_pod, instance_with}
use ivory_operator.Samples.Kube.{sample_labels, sample_conditions, sample_errors, SampleError}
use ivory_operator.Volumes.Claims.{
  wal_directory, ClaimOutcome, ClaimsEnv, InstanceClaims, reconcile_postgres_wal_volume,
}
use ivory_operator.Volumes.Failures.{VolumeErrors}
use ivory_operator.Volumes.Safe.{reconcile_postgres_wal_volume-IsSafeWrite, IsSafeWrite}

abbrev without_wal : InstanceClaims
without_wal = record {
  cluster_name = "hippo";
  postgres_version = 14;
  metadata_labels = [];
  metadata_annotations = [];
  set_name = "one";
  set_labels = [];
  set_annotations = [];
  instance_name = "hippo-one-abcd";
  data_claim = "data claim";
  wal_claim = none;
  tablespaces_enabled = false;
  tablespaces = [];
}

-- The pod says where its WAL is.
abbrev claims_env : String → ClaimsEnv SampleError
claims_env directory = record {
  select = λ labels. found (λ given. false);
  set_controller = λ intent. none;
  apply = λ intent. none;
  get = λ name. found (record { deleting = false; controlled = true });
  delete = λ name. none;
  exec = λ pod. (directory, none);
  trim = λ s. s;
}

abbrev claim_errors : VolumeErrors SampleError
claim_errors = record {
  is_forbidden = λ e. false;
  is_invalid = λ e. false;
  reason = λ e. "";
  text = λ e. "";
  causes = λ e. none;
}

abbrev wal_outcome : String → ClaimOutcome SampleError (List Condition)
wal_outcome directory =
    reconcile_postgres_wal_volume (claims_env directory) claim_errors 1 without_wal [] []
      (some (instance_with leader_pod))

-- The claim is deleted once the WAL has moved, and not before.
moved_test :
    (length (wal_outcome "/pgdata/pg14_wal").writes ≡ 1)
    × (length (wal_outcome "/pgwal/pg14_wal").writes ≡ 0)
unfolding reconcile_postgres_wal_volume wal_directory
moved_test = (refl, refl)

reconcile_postgres_wal_volume-IsSafeWrite_example :
    All
      (IsSafeWrite (claims_env "/pgdata/pg14_wal") without_wal (some (instance_with leader_pod)))
      (wal_outcome "/pgdata/pg14_wal").writes
reconcile_postgres_wal_volume-IsSafeWrite_example =
    reconcile_postgres_wal_volume-IsSafeWrite (claims_env "/pgdata/pg14_wal") claim_errors 1
      without_wal [] [] (some (instance_with leader_pod))
