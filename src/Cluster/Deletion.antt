-- ===== src/Cluster/Deletion.antt =====
-- delete.go: handleDelete.

-- What handleDelete reads: whether there is a time of deletion, and the finalizers.
use ivory_operator.Cluster.{
  delete_patroni_endpoints, set_finalizers, no_result, scale, finalizer, ClusterWrite, Result,
}
use ivory_operator.Instances.{Pod}
use ivory_operator.Instances.Stop.{delete_instances, Scaled, Stopping, OwnErrors}
use ivory_operator.Kube.{Responses, OwnerReferences, ApiErrors}
use ivory_operator.Prelude.{
  if◌then◌else◌, [], map, ◌∷◌, str_eq, not, none, ◌++◌, any, filter, some, String, List, Bool,
  Option,
}

pub record Deletable : Type 0 where
  pub deleting : Bool
  pub finalizers : List String

-- The answers to the patch of the finalizers and to deletePatroniArtifacts; `list_set` is List of
-- sets.String, which tells the elements of a set in order and once.
pub record DeleteEnv (E : Type 0) : Type 0 where
  pub patch_finalizers : List String → Option E
  pub delete_artifacts : Option E
  pub list_set : List String → List String

-- What handleDelete returns, and its writes, newest first.
pub record Handled (E : Type 0) : Type 0 where
  pub result : Option Result
  pub err : Option E
  pub writes : List ClusterWrite

unfoldable pub has_finalizer : List String → Bool
has_finalizer fs = any (λ f. str_eq f finalizer) fs

unfoldable pub without_finalizer : List String → List String
without_finalizer fs = filter (λ f. not (str_eq f finalizer)) fs

module _ {E : Type 0} (env : DeleteEnv E) where
  unfoldable pub set_finalizer : List String → Handled E
  set_finalizer fs =
      let intent = fs ++ finalizer ∷ [] in
      record {
        result = none;
        err = env.patch_finalizers intent;
        writes = set_finalizers intent ∷ [];
      }

  -- The end of the finalization, from the answer to the deletion of what Patroni left.
  unfoldable pub remove_finalizer : List String → Option E → Handled E
  unfolding without_finalizer
  remove_finalizer fs (some e) = record {
    result = none;
    err = some e;
    writes = delete_patroni_endpoints ∷ [];
  }
  remove_finalizer fs none =
      let intent = env.list_set (without_finalizer fs) in
      record {
        result = some no_result;
        err = env.patch_finalizers intent;
        writes = set_finalizers intent ∷ delete_patroni_endpoints ∷ [];
      }

  unfoldable pub after_instances : List String → Option E → Stopping E → Handled E
  unfolding remove_finalizer
  after_instances fs (some e) s = record {
    result = none;
    err = some e;
    writes = map (λ c. scale c) s.scaled;
  }
  after_instances fs none s =
      if s.has_result
      then record {
        result = some (record { requeue = s.requeue; requeue_after = s.requeue_after });
        err = none;
        writes = map (λ c. scale c) s.scaled;
      }
      else remove_finalizer fs env.delete_artifacts

module _ {E : Type 0} ⦃errs : ApiErrors E⦄ ⦃os : OwnerReferences⦄ (env : DeleteEnv E)
    (own : OwnErrors E) (respond : Responses Scaled E) where
  -- handleDelete, with the pods of the cluster as deleteInstances lists them.
  unfoldable pub handle_delete : Deletable → List Pod × Option E → Handled E
  unfolding set_finalizer after_instances has_finalizer
  handle_delete cluster pods =
      if not cluster.deleting
      then (if has_finalizer cluster.finalizers
          then record { result = none; err = none; writes = [] }
          else set_finalizer env cluster.finalizers)
      else if not (has_finalizer cluster.finalizers)
      then record { result = some no_result; err = none; writes = [] }
      else (let s = delete_instances own respond pods in
          after_instances env cluster.finalizers s.err s)
