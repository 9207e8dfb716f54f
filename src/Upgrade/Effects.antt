-- ===== src/Upgrade/Effects.antt =====
-- pgupgrade_controller.go: the writes of Reconcile and its changes to the conditions of the upgrade.
-- The writes made so far are passed along, newest first.
use ivory_operator.Kube.{Condition, ApiErrors, StatusConditions, Responses, Answer}
use ivory_operator.Prelude.{
  ℕ, suc, String, Bool, true, false, not, ◌&&◌, Option, none, some, List, [], ◌∷◌, GoMap, lookup,
  label, is_none, str_eq, concat, if◌then◌else◌,
}
use ivory_operator.Upgrade.{
  PgUpgrade, World, Cluster, Job, Endpoints, StatefulSet, condition_progressing, label_role,
  label_backup, replica_create, remove_data,
}
use ivory_operator.Upgrade.Jobs.{job_failed, job_completed, pg_upgrade_job}
use ivory_operator.Upgrade.Observe.{observe_world, Reads}

-- The writes of the controller.
pub data Write : Type 0 where
  apply_job : Job → Write
  delete_job : Job → Write
  delete_endpoints : Endpoints → Write
  patch_cluster_status : Cluster → Write
  patch_upgrade_status : Write

-- What the environment answers in one reconcile. `range k m` is the order in which the k-th loop
-- over the map goes through its values.
pub record Env (E C : Type 0) : Type 0 where
  pub get_upgrade : Answer E (PgUpgrade × C)
  pub reads : Reads E
  pub respond : Responses Write E
  pub range : ℕ → GoMap Job → List Job
  pub getenv : String → String

pub record Outcome (E C : Type 0) : Type 0 where
  pub requeue : Bool
  pub err : Option E
  pub panicked : Bool
  pub conditions : C
  pub writes : List Write

-- The reads of world.Jobs before the first decision.
pub record JobsSeen : Type 0 where
  pub upgrade_complete : Bool
  pub upgrade_failed : Bool
  pub remove_failed : Bool
  pub remove_completed : ℕ

-- The loop over world.Jobs with its `break`: whether a job failed, and the number of completed.
unfoldable pub scan_remove_data : List Job → ℕ → Bool × ℕ
scan_remove_data [] n = (false, n)
scan_remove_data (j ∷ rest) n =
    let chosen = str_eq (label label_role j.labels) remove_data in
    let completed = job_completed j in
    let later = scan_remove_data rest (if chosen && completed then suc n else n) in
    if chosen && not completed && job_failed j then (true, n) else later

-- A test on a job that may be missing from the map.
unfoldable pub seen_as : (Job → Bool) → Option Job → Bool
seen_as test none = false
seen_as test (some j) = test j

unfoldable pub see_jobs : {E : Type 0} → PgUpgrade → World E → List Job → JobsSeen
unfolding seen_as
see_jobs u w order =
    let upgrade_job = lookup (pg_upgrade_job u) w.jobs in
    let (remove_failed, completed) = scan_remove_data order 0 in
    record {
      upgrade_complete = seen_as job_completed upgrade_job;
      upgrade_failed = seen_as job_failed upgrade_job;
      remove_failed = remove_failed;
      remove_completed = completed;
    }

-- What the first loop of a reconcile sees.
abbrev pub jobs_seen : {E C : Type 0} ⦃errs : ApiErrors E⦄ → Env E C → PgUpgrade → JobsSeen
jobs_seen env u = let w = (observe_world env.reads).0 in see_jobs u w (env.range 0 w.jobs)

module _ {E C : Type 0} where
  unfoldable pub stop : C → Outcome E C
  stop cs = record { requeue = false; err = none; panicked = false; conditions = cs; writes = [] }

  unfoldable pub stop_with : Option E → C → List Write → Outcome E C
  stop_with err cs ws = record {
    requeue = false;
    err = err;
    panicked = false;
    conditions = cs;
    writes = ws;
  }

-- Whether a condition is missing or has the reason.
unfoldable pub reason_was : String → Option Condition → Bool
reason_was reason none = true
reason_was reason (some c) = str_eq c.reason reason

module _ {C : Type 0} ⦃sc : StatusConditions C⦄ where
  -- meta.SetStatusCondition with the generation of the upgrade.
  unfoldable pub set_condition : PgUpgrade → String → String → String → String → C → C
  set_condition u type status reason message cs = sc.set cs (record {
    type = type;
    status = status;
    reason = reason;
    message = message;
    observed_generation = u.generation;
  })

  -- The Progressing condition is set to False at each early return.
  unfoldable pub not_progressing : PgUpgrade → String → String → C → C
  not_progressing u reason message cs =
      set_condition u condition_progressing "False" reason message cs

  unfoldable pub progressing_if_reason_was : String → PgUpgrade → C → C
  unfolding reason_was
  progressing_if_reason_was reason u cs =
      if reason_was reason (sc.find cs condition_progressing)
      then set_condition u condition_progressing "True" "PGUpgradeProgressing"
          (concat ("Upgrade progressing for cluster " ∷ u.postgres_cluster_name ∷ [])) cs
      else cs

-- The writes of the last stages, each with the error that it leaves.
module _ {E : Type 0} (respond : Responses Write E) where
  -- The loop that deletes replica-create jobs until an error.
  unfoldable pub delete_replica_create :
      ⦃errs : ApiErrors E⦄ → List Job → Option E → List Write → Option E × List Write
  delete_replica_create [] err ws = (err, ws)
  delete_replica_create ⦃errs⦄ (j ∷ rest) err ws =
      let chosen = is_none err && str_eq (label label_backup j.labels) replica_create in
      delete_replica_create rest
        (if chosen then errs.ignore_not_found (respond ws (delete_job j)) else err)
        (if chosen then delete_job j ∷ ws else ws)

  -- r.apply of a job; `none` is a panic while the job was built.
  unfoldable pub apply : Option Job → List Write → Option (Option E × List Write)
  apply none ws = none
  apply (some job) ws = some (respond ws (apply_job job), apply_job job ∷ ws)

  -- The loop over world.ClusterReplicas. The last component says whether it panicked.
  unfoldable pub apply_all :
      (StatefulSet → Option Job)
      → List StatefulSet
      → Option E
      → List Write
      → Option E × List Write × Bool
  apply_all job [] err ws = (err, ws, false)
  apply_all job (sts ∷ rest) (some e) ws = apply_all job rest (some e) ws
  apply_all job (sts ∷ rest) none ws = elim (apply (job sts) ws) [
    | none ↦ (none, ws, true)
    | some (err', ws') ↦ apply_all job rest err' ws'
  ]

  -- The loop over world.PatroniEndpoints: each deletion overwrites the error before it.
  unfoldable pub delete_all_endpoints :
      ⦃errs : ApiErrors E⦄ → List Endpoints → Option E → List Write → Option E × List Write
  delete_all_endpoints [] err ws = (err, ws)
  delete_all_endpoints ⦃errs⦄ (e ∷ rest) err ws =
      delete_all_endpoints rest (errs.ignore_not_found (respond ws (delete_endpoints e)))
        (delete_endpoints e ∷ ws)
