-- ===== src/Upgrade/Reconcile.antt =====
-- pgupgrade_controller.go: Reconcile, cut at its comments into stages that hand over to the next.
-- Each early `return` of the source ends its stage by `stop` or `stop_with`.
use ivory_operator.Kube.{
  Answer, Condition, ApiErrors, StatusConditions, LabelSets, OwnerReferences, found, failed,
}
use ivory_operator.Prelude.{
  ap, ◌≡◌, Bool, true, false, not, ◌&&◌, ◌||◌, Option, none, some, List, [], ◌∷◌, label, is_none,
  str_eq, concat, decimal, leb, ◌==◌, if◌then◌else◌,
}
use ivory_operator.Prelude.Int.{eqb_ℤ}
use ivory_operator.Upgrade.{
  PgUpgrade, World, Cluster, StatefulSet, Endpoints, condition_succeeded, annotation_allow_upgrade,
}
use ivory_operator.Upgrade.Effects.{
  Write, patch_cluster_status, patch_upgrade_status, Env, Outcome, JobsSeen, see_jobs, stop,
  stop_with, set_condition, not_progressing, progressing_if_reason_was, delete_replica_create,
  apply, apply_all, delete_all_endpoints,
}
use ivory_operator.Upgrade.Jobs.{generate_upgrade_job, generate_remove_data_job}
use ivory_operator.Upgrade.Observe.{observe_world}

unfoldable pub remove_complete : {E : Type 0} → World E → JobsSeen → Bool
remove_complete w seen = eqb_ℤ seen.remove_completed w.replicas_expected

-- Whether the upgrade has succeeded in an earlier reconcile.
unfoldable pub is_success : Option Condition → Bool
is_success none = false
is_success (some c) = str_eq c.reason "PGUpgradeSucceeded"

unfoldable pub has_succeeded : {C : Type 0} ⦃sc : StatusConditions C⦄ → C → Bool
unfolding is_success
has_succeeded ⦃sc⦄ cs = is_success (sc.find cs condition_succeeded)

module _ {E C : Type 0} ⦃errs : ApiErrors E⦄ ⦃sc : StatusConditions C⦄ where
  unfoldable pub panic : C → List Write → Outcome E C
  panic cs ws = record {
    requeue = false;
    err = none;
    panicked = true;
    conditions = cs;
    writes = ws;
  }

  module _ (env : Env E C) (u : PgUpgrade) where
    -- The cluster is told its version, unless a job could not be deleted.
    unfoldable pub patch_cluster : Cluster → C → Option E → List Write → Outcome E C
    patch_cluster cluster cs (some e) ws = stop_with (some e) cs ws
    patch_cluster cluster cs none ws =
        let patched = record cluster { status_version = u.to_version; status_repos = [] } in
        stop_with (env.respond ws (patch_cluster_status patched)) cs
          (patch_cluster_status patched ∷ ws)

    -- All jobs are done.
    unfoldable pub complete_upgrade : World E → Cluster → C → Outcome E C
    complete_upgrade w cluster cs =
        let (err, ws) = delete_replica_create env.respond (env.range 1 w.jobs) none [] in
        patch_cluster cluster cs err ws

    -- The DCS endpoints are deleted, and the reconcile ends.
    unfoldable pub clear_endpoints : List Endpoints → C → Option E → List Write → Outcome E C
    clear_endpoints [] cs err ws = stop_with err cs ws
    clear_endpoints (e ∷ rest) cs err ws =
        let (err', ws') = delete_all_endpoints env.respond (e ∷ rest) err ws in
        record { requeue = true; err = err'; panicked = false; conditions = cs; writes = ws' }

    -- What follows the application of one job, and of those for the replicas.
    unfoldable pub after_apply : World E → C → Option (Option E × List Write) → Outcome E C
    unfolding clear_endpoints
    after_apply w cs none = panic cs []
    after_apply w cs (some (err, ws)) = clear_endpoints w.patroni_endpoints cs err ws

    unfoldable pub after_apply_all : World E → C → Option E × List Write × Bool → Outcome E C
    unfolding clear_endpoints
    after_apply_all w cs (err, ws, true) = panic cs ws
    after_apply_all w cs (err, ws, false) = clear_endpoints w.patroni_endpoints cs err ws

    module _ ⦃ls : LabelSets⦄ ⦃os : OwnerReferences⦄ where
      -- The upgrade job, and after it the jobs that remove data.
      unfoldable pub run_jobs : World E → StatefulSet → JobsSeen → C → Outcome E C
      run_jobs w startup seen cs =
          if not seen.upgrade_complete
          then after_apply w cs (apply env.respond (generate_upgrade_job env.getenv u startup) [])
          else if not (remove_complete w seen)
          then after_apply_all w cs (
              apply_all env.respond (generate_remove_data_job env.getenv u) w.cluster_replicas none
                [])
          else clear_endpoints w.patroni_endpoints cs none []

      -- The annotation of the cluster, and whether jobs have failed or are done.
      unfoldable pub act : World E → Cluster → StatefulSet → JobsSeen → C → Outcome E C
      act w cluster startup seen cs =
          let allowed = str_eq (label annotation_allow_upgrade cluster.annotations) u.name in
          let cs' = progressing_if_reason_was "PGClusterMissingRequiredAnnotation" u cs in
          if not allowed
          then stop (
              not_progressing u "PGClusterMissingRequiredAnnotation"
                (concat (
                  "PostgresCluster " ∷ u.postgres_cluster_name ∷ " lacks annotation for upgrade "
                  ∷ u.name ∷ []))
                cs)
          else if seen.upgrade_failed || seen.remove_failed
          then stop (
              set_condition u condition_succeeded "False" "PGUpgradeFailed"
                "Upgrade jobs failed, please check individual pod logs" cs')
          else if seen.upgrade_complete
              && remove_complete w seen
              && not (cluster.status_version == u.to_version)
          then complete_upgrade w cluster cs'
          else run_jobs w startup seen cs'

      -- The cluster is shut down, at the version that the upgrade expects.
      unfoldable pub check_cluster : World E → Cluster → JobsSeen → C → Outcome E C
      check_cluster w cluster seen cs =
          let waiting = stop (
            not_progressing u "PGClusterNotShutdown" "PostgresCluster instances still running"
              cs) in
          let cs1 = progressing_if_reason_was "PGClusterNotShutdown" u cs in
          let cs2 = progressing_if_reason_was "PGUpgradeInvalidForCluster" u cs1 in
          if not w.cluster_shutdown then waiting else elim w.cluster_primary [
            | none ↦ waiting
            | some startup ↦
                if not (cluster.postgres_version == u.from_version)
                  && not (cluster.status_version == u.to_version)
                then stop (
                    not_progressing u "PGUpgradeInvalidForCluster"
                      (concat (
                        "Current postgres version is "
                        ∷ decimal cluster.postgres_version
                        ∷ ", but upgrade expected "
                        ∷ decimal u.from_version
                        ∷ []))
                      cs1)
                else act w cluster startup seen cs2
          ]

      -- Whether the cluster already has the version.
      unfoldable pub check_versions : World E → Cluster → C → Outcome E C
      check_versions w cluster cs =
          let seen = see_jobs u w (env.range 0 w.jobs) in
          let cs1 = progressing_if_reason_was "PGUpgradeResolved" u cs in
          let cs2 =
            not_progressing u "PGUpgradeCompleted"
              (concat (
                "PostgresCluster "
                ∷ u.postgres_cluster_name
                ∷ " is running version "
                ∷ decimal u.to_version
                ∷ []))
              cs1 in
          if cluster.postgres_version == u.to_version && not seen.upgrade_complete
          then stop (
              not_progressing u "PGUpgradeResolved"
                (concat (
                  "PostgresCluster "
                  ∷ u.postgres_cluster_name
                  ∷ " is already running version "
                  ∷ decimal u.to_version
                  ∷ []))
                cs)
          else if cluster.status_version == u.to_version
          then stop (
              if seen.upgrade_complete && remove_complete w seen
              then set_condition u condition_succeeded "True" "PGUpgradeSucceeded"
                  (concat (
                    "PostgresCluster "
                    ∷ u.postgres_cluster_name
                    ∷ " is ready to complete upgrade to version "
                    ∷ decimal u.to_version
                    ∷ []))
                  cs2
              else cs2)
          else check_cluster w cluster seen cs1

      -- The world is observed.
      unfoldable pub check_world : C → Outcome E C
      check_world cs =
          let (w, err) = observe_world env.reads in
          let cs1 = progressing_if_reason_was "PGClusterErrorWhenObservingWorld" u cs in
          let cs2 = progressing_if_reason_was "PGClusterNotFound" u cs1 in
          elim err [
            | some e ↦
                stop_with (some e)
                  (not_progressing u "PGClusterErrorWhenObservingWorld" (errs.text e) cs) []
            | none ↦ elim w.cluster_not_found [
              | some e ↦ stop (not_progressing u "PGClusterNotFound" (errs.text e) cs1)
              | none ↦ elim w.cluster [
                | none ↦ panic cs2 []
                | some cluster ↦ check_versions w cluster cs2
              ]
            ]
          ]

      -- The early exit, and the versions of the specification.
      unfoldable pub check_upgrade : C → Outcome E C
      check_upgrade cs =
          let cs1 = progressing_if_reason_was "" u cs in
          if has_succeeded cs
          then stop cs
          else if leb u.to_version u.from_version
          then stop (
              not_progressing u "PGUpgradeInvalid"
                (concat (
                  "Cannot upgrade from postgres version "
                  ∷ decimal u.from_version
                  ∷ " to "
                  ∷ decimal u.to_version
                  ∷ []))
                cs1)
          else check_world (progressing_if_reason_was "PGUpgradeInvalid" u cs1)

  -- The deferred function: changes of the status are written on the way out.
  unfoldable pub send_status : Env E C → C → Outcome E C → Outcome E C
  send_status env before out =
      let status = env.respond out.writes patch_upgrade_status in
      if sc.same before out.conditions then out else record out {
        err = if is_none out.err then status else out.err;
        writes = patch_upgrade_status ∷ out.writes;
      }

  module _ ⦃ls : LabelSets⦄ ⦃os : OwnerReferences⦄ where
    -- What follows the Get of the upgrade; `absent` stands for the conditions of one not found.
    unfoldable pub handle_upgrade : Env E C → C → Answer E (PgUpgrade × C) → Outcome E C
    handle_upgrade env absent (failed e) = stop_with (errs.ignore_not_found (some e)) absent []
    handle_upgrade env absent (found (u, cs)) = send_status env cs (check_upgrade env u cs)

    unfoldable pub reconcile : Env E C → C → Outcome E C
    unfolding handle_upgrade
    reconcile env absent = handle_upgrade env absent env.get_upgrade

    pub reconcile-found :
        (env : Env E C) (absent cs : C) (u : PgUpgrade)
        → env.get_upgrade ≡ found (u, cs)
        → reconcile env absent ≡ send_status env cs (check_upgrade env u cs)
    unfolding reconcile
    reconcile-found env absent cs u e = ap (handle_upgrade env absent) e
