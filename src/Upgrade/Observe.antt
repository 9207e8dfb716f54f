-- ===== src/Upgrade/Observe.antt =====
-- world.go: what one reconcile observes before it acts.
use ivory_operator.Kube.{Answer, found, failed, ApiErrors}
use ivory_operator.Prelude.{
  ℕ, String, Bool, false, not, ◌&&◌, Option, none, some, List, [], ◌∷◌, ◌++◌, GoMap, insert, label,
  is_empty, is_some, str_eq, ◌==◌, if◌then◌else◌,
}
use ivory_operator.Prelude.Int.{pos, negsuc, suc_ℤ}
use ivory_operator.Upgrade.{
  World, Cluster, StatefulSet, Endpoints, Job, label_patroni, label_instance,
}

-- The answers to the reads of observeWorld. A List answers its items and an error, if any.
pub record Reads (E : Type 0) : Type 0 where
  pub get_cluster : Answer E Cluster
  pub list_endpoints : List Endpoints × Option E
  pub list_jobs : List Job × Option E
  pub list_stateful_sets : List StatefulSet × Option E

-- NewWorld
unfoldable pub new_world : {E : Type 0} → World E
new_world = record {
  cluster = none;
  cluster_not_found = none;
  cluster_primary = none;
  cluster_replicas = [];
  cluster_shutdown = false;
  replicas_expected = pos 0;
  patroni_endpoints = [];
  jobs = [];
}

-- The loop over Status.InstanceSets at the end of populateShutdown.
unfoldable pub all_stopped : List ℕ → Bool → Bool
all_stopped [] shutdown = shutdown
all_stopped (n ∷ rest) shutdown = all_stopped rest (if not (n == 0) then false else shutdown)

unfoldable pub specified_shutdown : Option Bool → Bool
specified_shutdown none = false
specified_shutdown (some b) = b

unfoldable pub index_jobs : GoMap Job → List Job → GoMap Job
index_jobs m [] = m
index_jobs m (j ∷ rest) = index_jobs (insert j.name j m) rest

module _ {E : Type 0} where
  unfoldable pub populate_cluster :
      ⦃errs : ApiErrors E⦄ → World E → Answer E Cluster → World E × Option E
  populate_cluster w (found c) = (record w { cluster = some c; cluster_not_found = none }, none)
  populate_cluster ⦃errs⦄ w (failed e) =
      if errs.is_not_found e
      then (record w { cluster = none; cluster_not_found = some e }, none)
      else (w, some e)

  unfoldable pub populate_patroni_endpoints : World E → List Endpoints → World E
  populate_patroni_endpoints w [] = w
  populate_patroni_endpoints w (e ∷ rest) =
      populate_patroni_endpoints
        (if is_empty (label label_patroni e.labels)
          then w
          else record w { patroni_endpoints = w.patroni_endpoints ++ e ∷ [] })
        rest

  -- The body of the loop in populateStatefulSets.
  unfoldable pub visit_stateful_set : String → World E → StatefulSet → World E
  visit_stateful_set startup w sts =
      let seen = record w { replicas_expected = suc_ℤ w.replicas_expected } in
      if is_empty (label label_instance sts.labels)
      then w
      else if is_empty startup
      then seen
      else if str_eq sts.name startup
      then record seen { cluster_primary = some sts }
      else record seen { cluster_replicas = w.cluster_replicas ++ sts ∷ [] }

  unfoldable pub visit_stateful_sets : String → World E → List StatefulSet → World E
  visit_stateful_sets startup w [] = w
  visit_stateful_sets startup w (sts ∷ rest) =
      visit_stateful_sets startup (visit_stateful_set startup w sts) rest

  unfoldable pub populate_stateful_sets : World E → List StatefulSet → World E
  populate_stateful_sets w sets =
      let none_yet = record w { replicas_expected = negsuc 0 } in
      elim w.cluster [
        | none ↦ none_yet
        | some c ↦ visit_stateful_sets c.startup_instance none_yet sets
      ]

  unfoldable pub populate_shutdown : World E → World E
  unfolding all_stopped specified_shutdown
  populate_shutdown w = elim w.cluster [
    | none ↦ w
    | some c ↦ record w {
      cluster_shutdown =
          all_stopped c.set_replicas
            (specified_shutdown c.shutdown && c.observed_generation == c.generation);
    }
  ]

  -- observeWorld. Each part is read only while there is no error, and what a List answers beside an
  -- error is kept.
  unfoldable pub observe_world : ⦃errs : ApiErrors E⦄ → Reads E → World E × Option E
  unfolding populate_cluster populate_patroni_endpoints populate_stateful_sets populate_shutdown
      index_jobs new_world
  observe_world reads =
      let (w, err) = populate_cluster new_world reads.get_cluster in
      if is_some err
      then (w, err)
      else let (endpoints, err) = reads.list_endpoints in
        let w = populate_patroni_endpoints w endpoints in
        if is_some err
        then (w, err)
        else let (jobs, err) = reads.list_jobs in
          let w = record w { jobs = index_jobs w.jobs jobs } in
          if is_some err
          then (w, err)
          else let (sets, err) = reads.list_stateful_sets in
            let w = populate_stateful_sets w sets in
            if is_some err then (w, err) else (populate_shutdown w, none)
