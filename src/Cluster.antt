-- ===== src/Cluster.antt =====
-- internal/controller/postgrescluster: delete.go (handleDelete) and controller.go (Reconcile), the
-- reconciler of a whole PostgresCluster.
pub mod Deletion
pub mod Finalized
pub mod Loop
pub mod Ordered
-- reconcile.Result of sigs.k8s.io/controller-runtime.
use ivory_operator.Instances.Stop.{Scaled}
use ivory_operator.Prelude.{ltb, ◌&&◌, ◌==◌, not, if◌then◌else◌, ℕ, List, Bool, ◌||◌, false, String}

pub record Result : Type 0 where
  pub requeue : Bool
  pub requeue_after : ℕ

abbrev pub no_result : Result
no_result = record { requeue = false; requeue_after = 0 }

-- updateReconcileResult of util.go.
unfoldable pub update_reconcile_result : Result → Result → Result
update_reconcile_result current next = record {
  requeue = next.requeue || current.requeue;
  requeue_after =
      if not (next.requeue_after == 0)
        && (current.requeue_after == 0 || ltb next.requeue_after current.requeue_after)
      then next.requeue_after
      else current.requeue_after;
}

-- Finalizer of internal/naming.
abbrev pub finalizer : String
finalizer = "postgres-operator.crunchydata.com/finalizer"

-- What the deletion of a cluster writes.
pub data ClusterWrite : Type 0 where
  scale : Scaled → ClusterWrite
  delete_patroni_endpoints : ClusterWrite
  set_finalizers : List String → ClusterWrite
