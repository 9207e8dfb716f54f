-- ===== src/Cluster/Loop.antt =====
-- controller.go: Reconcile of a PostgresCluster. The functions that it calls in turn are steps.

-- The calls, in the order of the code.
use ivory_operator.Cluster.{update_reconcile_result, no_result, ClusterWrite, Result}
use ivory_operator.Cluster.Deletion.{handle_delete, DeleteEnv, Handled, Deletable}
use ivory_operator.Instances.{Pod}
use ivory_operator.Instances.Stop.{Scaled, OwnErrors}
use ivory_operator.Kube.{
  found, failed, Answer, Responses, OwnerReferences, StatusConditions, ApiErrors,
}
use ivory_operator.Prelude.{
  ◌||◌, is_some, not, is_empty, is_none, ltb, [], none, ◌∷◌, some, true, false, ◌&&◌, List, String,
  if◌then◌else◌, ℕ, Bool, Option,
}

pub data Step : Type 0 where
  root_certificate dir_move_jobs observe_volumes existing_volumes observe_instances : Step
  patroni_status patroni_switchover cluster_pod_service rbac_resources data_source : Step
  cluster_config_map replication_secret patroni_leader_lease primary_service replica_service : Step
  cluster_certificate distributed_configuration dynamic_configuration monitoring_secret : Step
  exporter_web_config instance_sets postgres_databases postgres_users pgbackrest pgbouncer : Step
  pgmonitor database_init_sql pgadmin patroni_restarts : Step

abbrev pub all_steps : List Step
all_steps =
    root_certificate ∷ dir_move_jobs ∷ observe_volumes ∷ existing_volumes ∷ observe_instances
    ∷ patroni_status ∷ patroni_switchover ∷ cluster_pod_service ∷ rbac_resources ∷ data_source
    ∷ cluster_config_map ∷ replication_secret ∷ patroni_leader_lease ∷ primary_service
    ∷ replica_service ∷ cluster_certificate ∷ distributed_configuration ∷ dynamic_configuration
    ∷ monitoring_secret ∷ exporter_web_config ∷ instance_sets ∷ postgres_databases ∷ postgres_users
    ∷ pgbackrest ∷ pgbouncer ∷ pgmonitor ∷ database_init_sql ∷ pgadmin ∷ patroni_restarts ∷ []

-- The steps whose result is merged, and those that may end the reconcile.
unfoldable pub updates_result : Step → Bool
updates_result patroni_status = true
updates_result pgbackrest = true
updates_result _ = false

unfoldable pub may_return_early : Step → Bool
may_return_early dir_move_jobs = true
may_return_early data_source = true
may_return_early _ = false

-- The status of the cluster; `rest` is all but the conditions and the generation.
pub record ClusterStatus (C R : Type 0) : Type 0 where
  pub conditions : C
  pub observed_generation : ℕ
  pub rest : R

-- What a step answers: its error, its result and whether to return early, where it has them, and the
-- status.
pub record Answered (E S : Type 0) : Type 0 where
  pub err : Option E
  pub result : Result
  pub return_early : Bool
  pub status : S

-- Where Reconcile stands, with the steps that were taken, newest first.
pub record Progress (E S : Type 0) : Type 0 where
  pub err : Option E
  pub result : Result
  pub ended : Bool
  pub status : S
  pub taken : List Step

module _ {E S : Type 0} (step : Step → S → Answered E S) where
  unfoldable pub take_step : Step → Progress E S → Progress E S
  unfolding updates_result may_return_early
  take_step s p =
      let a = step s p.status in
      record {
        err = a.err;
        result =
            if updates_result s && is_none a.err
            then update_reconcile_result p.result a.result
            else p.result;
        ended = may_return_early s && (is_some a.err || a.return_early);
        status = a.status;
        taken = s ∷ p.taken;
      }

  -- `if err == nil`, and nothing after an early return.
  unfoldable pub take_steps : List Step → Progress E S → Progress E S
  unfolding take_step
  take_steps [] p = p
  take_steps (s ∷ rest) p =
      take_steps rest (if is_none p.err && not p.ended then take_step s p else p)

-- What is read of a cluster: its deletion, its generation, whether it is paused, and spec.standby, as
-- whether it is enabled, its host and its repository.
pub record ClusterObject (S : Type 0) : Type 0 where
  pub deletable : Deletable
  pub generation : ℕ
  pub paused : Bool
  pub standby : Option (Bool × String × String)
  pub status : S

-- What is returned, the status, the writes of the deletion, whether the status was patched, and the
-- steps that were taken, newest first.
pub record ClusterOutcome (E S : Type 0) : Type 0 where
  pub err : Option E
  pub result : Result
  pub status : Option S
  pub writes : List ClusterWrite
  pub patched : Bool
  pub taken : List Step

-- The steps, DeepEqual of two statuses, the answer to the patch of the status, the error of
-- field.Invalid, and whether the log is verbose.
pub record LoopEnv (E S : Type 0) : Type 0 where
  pub step : Step → S → Answered E S
  pub same_status : S → S → Bool
  pub patch_status : S → Option E
  pub invalid_standby : E
  pub verbose : Bool

unfoldable pub standby_invalid : Option (Bool × String × String) → Bool
standby_invalid none = false
standby_invalid (some (enabled, host, repo_name)) = enabled && is_empty host && is_empty repo_name

module _ {E S : Type 0} (env : LoopEnv E S) where
  -- patchClusterStatus: an error of the patch takes the place of the one before.
  unfoldable pub patch_cluster_status : S → Result → Option E → S → List Step → ClusterOutcome E S
  patch_cluster_status before result err status taken =
      if env.same_status before status
      then record {
        err = err;
        result = result;
        status = some status;
        writes = [];
        patched = false;
        taken = taken;
      }
      else record {
        err = elim (env.patch_status status) [ none ↦ err | some e ↦ some e ];
        result = result;
        status = some status;
        writes = [];
        patched = true;
        taken = taken;
      }

  abbrev pub ends : List ClusterWrite → Result → Option E → ClusterOutcome E S
  ends writes result err = record {
    err = err;
    result = result;
    status = none;
    writes = writes;
    patched = false;
    taken = [];
  }

  -- RequeueAfter implies Requeue only where the log is verbose.
  unfoldable pub deletion_result : Result → Result
  deletion_result r = record r {
    requeue = if env.verbose && ltb 0 r.requeue_after then true else r.requeue;
  }

abbrev pub condition_progressing_cluster : String
condition_progressing_cluster = "Progressing"

module _ {E C R : Type 0} ⦃sc : StatusConditions C⦄ (env : LoopEnv E (ClusterStatus C R)) where
  unfoldable pub set_paused : ℕ → ClusterStatus C R → ClusterStatus C R
  set_paused generation s = record s {
    conditions = sc.set s.conditions (record {
      type = condition_progressing_cluster;
      status = "False";
      reason = "Paused";
      message = "No spec changes will be applied and no other statuses will be updated.";
      observed_generation = generation;
    });
  }

  unfoldable pub begin_steps : ClusterStatus C R → Progress E (ClusterStatus C R)
  begin_steps s = record {
    err = none;
    result = no_result;
    ended = false;
    status = record s { conditions = sc.remove s.conditions condition_progressing_cluster };
    taken = [];
  }

  -- The end of Reconcile, after an early return and without one.
  unfoldable pub finish :
      ClusterStatus C R → ℕ → Progress E (ClusterStatus C R) → ClusterOutcome E (ClusterStatus C R)
  unfolding patch_cluster_status
  finish before generation p =
      patch_cluster_status env before p.result p.err
        (if p.ended then p.status else record p.status { observed_generation = generation }) p.taken

  unfoldable pub reconcile_existing :
      ClusterObject (ClusterStatus C R) → ClusterOutcome E (ClusterStatus C R)
  unfolding finish set_paused begin_steps standby_invalid take_steps
  reconcile_existing cluster =
      if standby_invalid cluster.standby
      then ends env [] no_result (some env.invalid_standby)
      else if cluster.paused
      then patch_cluster_status env cluster.status no_result none
          (set_paused cluster.generation cluster.status) []
      else finish cluster.status cluster.generation
          (take_steps env.step all_steps (begin_steps cluster.status))

  -- What follows handleDelete. Where it wrote and the reconcile goes on, its writes are kept.
  unfoldable pub after_delete :
      ClusterObject (ClusterStatus C R)
      → Handled E
      → Option E
      → Option Result
      → ClusterOutcome E (ClusterStatus C R)
  unfolding reconcile_existing deletion_result
  after_delete cluster h (some e) result = ends env h.writes no_result (some e)
  after_delete cluster h none (some result) = ends env h.writes (deletion_result env result) none
  after_delete cluster h none none = record (reconcile_existing cluster) { writes = h.writes }

module _ {E C R : Type 0} ⦃errs : ApiErrors E⦄ ⦃os : OwnerReferences⦄ ⦃sc : StatusConditions C⦄
    (env : LoopEnv E (ClusterStatus C R)) (deletion : DeleteEnv E) (own : OwnErrors E)
    (respond : Responses Scaled E) where
  -- Reconcile, with what the Get of the cluster answers and the list of its pods.
  unfoldable pub reconcile_cluster :
      List Pod × Option E
      → Answer E (ClusterObject (ClusterStatus C R))
      → ClusterOutcome E (ClusterStatus C R)
  unfolding after_delete
  reconcile_cluster pods (failed e) = ends env [] no_result (errs.ignore_not_found (some e))
  reconcile_cluster pods (found cluster) =
      let h = handle_delete deletion own respond cluster.deletable pods in
      after_delete env cluster h h.err h.result
