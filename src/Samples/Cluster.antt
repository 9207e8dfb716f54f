-- ===== src/Samples/Cluster.antt =====
-- A cluster whose reconcile fails on the way, and one that is being deleted.
use ivory_operator.Cluster.{no_result, delete_patroni_endpoints, set_finalizers, finalizer}
use ivory_operator.Cluster.Deletion.{Deletable, DeleteEnv, handle_delete}
use ivory_operator.Cluster.Finalized.{handle_delete-IsFinalTurn, IsFinalTurn}
use ivory_operator.Cluster.Loop.{
  cluster_pod_service, Answered, ClusterObject, ClusterOutcome, Step, reconcile_cluster,
  ClusterStatus, LoopEnv,
}
use ivory_operator.Cluster.Ordered.{reconcile_cluster-TakesSteps, TakesSteps, ends_before}
use ivory_operator.Instances.Stop.{delete_instances, Scaled, OwnErrors}
use ivory_operator.Kube.{found, Condition, Responses}
use ivory_operator.Prelude.{
  filter, any, refl, ◌==◌, some, ◌⊎◌, ℕ, ◌≡◌, false, none, true, length, ◌∷◌, [], List, Bool, All,
}
use ivory_operator.Samples.Instances.{leader_pod}
use ivory_operator.Samples.Kube.{
  sample_errors, sample_owners, sample_conditions, other, SampleError,
}

abbrev deletion_env : DeleteEnv SampleError
deletion_env = record {
  patch_finalizers = λ fs. none;
  delete_artifacts = none;
  list_set = λ fs. fs;
}

abbrev cluster_errors : OwnErrors SampleError
cluster_errors = record { no_owner = λ p. other; unexpected_kind = λ k. other }

abbrev accepts_scale : Responses Scaled SampleError
accepts_scale before call = none

abbrev last_turn : Deletable
last_turn = record { deleting = true; finalizers = "keep" ∷ finalizer ∷ [] }

finalizer_test :
    (handle_delete deletion_env cluster_errors accepts_scale last_turn ([], none)).writes
    ≡ set_finalizers ("keep" ∷ []) ∷ delete_patroni_endpoints ∷ []
unfolding handle_delete any delete_instances filter
finalizer_test = refl

handle_delete-IsFinalTurn_example :
    All
      (IsFinalTurn deletion_env last_turn ([], none))
      (handle_delete deletion_env cluster_errors accepts_scale last_turn ([], none)).writes
handle_delete-IsFinalTurn_example =
    handle_delete-IsFinalTurn deletion_env cluster_errors accepts_scale last_turn ([], none)

abbrev sample_status : ClusterStatus (List Condition) ℕ
sample_status = record { conditions = []; observed_generation = 1; rest = 0 }

-- The service of the pods cannot be written.
abbrev sample_step :
    Step
    → ClusterStatus (List Condition) ℕ
    → Answered SampleError (ClusterStatus (List Condition) ℕ)
sample_step s status = record {
  err = elim s [ cluster_pod_service ↦ some other | _ ↦ none ];
  result = no_result;
  return_early = false;
  status = status;
}

abbrev loop_env : LoopEnv SampleError (ClusterStatus (List Condition) ℕ)
loop_env = record {
  step = sample_step;
  same_status = λ a b. a.observed_generation == b.observed_generation;
  patch_status = λ s. none;
  invalid_standby = other;
  verbose = false;
}

abbrev sample_cluster : Bool → ClusterObject (ClusterStatus (List Condition) ℕ)
sample_cluster deleting = record {
  deletable = record { deleting = deleting; finalizers = finalizer ∷ [] };
  generation = 2;
  paused = false;
  standby = none;
  status = sample_status;
}

abbrev sample_outcome : Bool → ClusterOutcome SampleError (ClusterStatus (List Condition) ℕ)
sample_outcome deleting =
    reconcile_cluster loop_env deletion_env cluster_errors accepts_scale (leader_pod ∷ [], none)
      (found (sample_cluster deleting))

-- The error of the eighth step is returned, and the generation counts as observed.
failing_test :
    (length (sample_outcome false).taken ≡ 8)
    × ((sample_outcome false).err ≡ some other)
    × ((sample_outcome false).patched ≡ true)
unfolding reconcile_cluster handle_delete any
failing_test = (refl, refl, refl)

reconcile_cluster-TakesSteps_example :
    ((ends_before loop_env deletion_env cluster_errors accepts_scale
          (leader_pod ∷ [], none)
          (sample_cluster false)
        ≡ true)
      × ((sample_outcome false).taken ≡ []))
    ⊎ ((ends_before loop_env deletion_env cluster_errors accepts_scale
            (leader_pod ∷ [], none)
            (sample_cluster false)
          ≡ false)
        × TakesSteps loop_env deletion_env cluster_errors accepts_scale
            (sample_cluster false)
            (sample_outcome false))
reconcile_cluster-TakesSteps_example =
    reconcile_cluster-TakesSteps loop_env deletion_env cluster_errors accepts_scale
      (leader_pod ∷ [], none) (sample_cluster false)
