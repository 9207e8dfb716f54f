-- ===== src/Upgrade/Success.antt =====
-- The Succeeded condition: what is observed before it is set, and what follows from it.
use mathlib.Core.Bool.{false≢true}
use ivory_operator.Kube.{found, OwnerReferences, LabelSets, ApiErrors, StatusConditions}
use ivory_operator.Prelude.{
  sym, ◌∙◌, arith, leb, ◌<◌, ◌⊎◌, ◌==◌, ◌&&◌, ◌||◌, [], label, none, str_eq, some, ◌∷◌, not, Option,
  List, true, refl, if_elim, ap, inr, inl, Option-cases, false, ◌≡◌, String, Bool,
}
use ivory_operator.Upgrade.{
  annotation_allow_upgrade, StatefulSet, Endpoints, Cluster, World, condition_progressing,
  condition_succeeded, PgUpgrade,
}
use ivory_operator.Upgrade.Effects.{
  jobs_seen, Write, JobsSeen, stop, stop_with, Outcome, Env, reason_was, progressing_if_reason_was,
  not_progressing, set_condition,
}
use ivory_operator.Upgrade.Observe.{observe_world}
use ivory_operator.Upgrade.Reconcile.{
  reconcile-found, send_status, reconcile, check_world, check_versions, check_upgrade,
  check_cluster, remove_complete, complete_upgrade, run_jobs, act, panic, clear_endpoints,
  after_apply, after_apply_all, patch_cluster, is_success, has_succeeded,
}

module _ {C : Type 0} ⦃sc : StatusConditions C⦄ (u : PgUpgrade) where
  has_succeeded-not_progressing :
      (reason message : String) (cs : C)
      → has_succeeded (not_progressing u reason message cs) ≡ has_succeeded cs
  unfolding has_succeeded not_progressing set_condition
  has_succeeded-not_progressing reason message cs =
      ap is_success (sc.find-set cs _ condition_succeeded)

  has_succeeded-progressing_if :
      (reason : String) (cs : C)
      → has_succeeded (progressing_if_reason_was reason u cs) ≡ has_succeeded cs
  unfolding has_succeeded progressing_if_reason_was set_condition
  has_succeeded-progressing_if reason cs =
      if_elim {A = C} (λ cs'. has_succeeded cs' ≡ has_succeeded cs)
        (reason_was reason (sc.find cs condition_progressing))
        (λ _. ap is_success (sc.find-set cs _ condition_succeeded)) (λ _. refl)

  has_succeeded-failed :
      (message : String) (cs : C)
      → has_succeeded (set_condition u condition_succeeded "False" "PGUpgradeFailed" message cs)
        ≡ false
  unfolding has_succeeded set_condition
  has_succeeded-failed message cs = ap is_success (sc.find-set cs _ condition_succeeded)

module _ {E C : Type 0} ⦃errs : ApiErrors E⦄ ⦃sc : StatusConditions C⦄ (env : Env E C)
    (u : PgUpgrade) where
  conditions-clear_endpoints :
      (es : List Endpoints) (cs : C) (err : Option E) (ws : List Write)
      → (clear_endpoints env u es cs err ws).conditions ≡ cs
  unfolding clear_endpoints stop_with
  conditions-clear_endpoints [] cs err ws = refl
  conditions-clear_endpoints (e ∷ rest) cs err ws = refl

  conditions-after_apply :
      (w : World E) (cs : C) (o : Option (Option E × List Write))
      → (after_apply env u w cs o).conditions ≡ cs
  unfolding after_apply panic
  conditions-after_apply w cs none = refl
  conditions-after_apply w cs (some (err, ws)) =
      conditions-clear_endpoints w.patroni_endpoints cs err ws

  conditions-after_apply_all :
      (w : World E) (cs : C) (t : Option E × List Write × Bool)
      → (after_apply_all env u w cs t).conditions ≡ cs
  unfolding after_apply_all panic
  conditions-after_apply_all w cs (err, ws, true) = refl
  conditions-after_apply_all w cs (err, ws, false) =
      conditions-clear_endpoints w.patroni_endpoints cs err ws

  conditions-patch_cluster :
      (cluster : Cluster) (cs : C) (err : Option E) (ws : List Write)
      → (patch_cluster env u cluster cs err ws).conditions ≡ cs
  unfolding patch_cluster stop_with
  conditions-patch_cluster cluster cs none ws = refl
  conditions-patch_cluster cluster cs (some e) ws = refl

  -- An outcome that reports success only if the conditions before it did.
  abbrev Keeps : C → Outcome E C → Type 0
  Keeps cs out = has_succeeded out.conditions ≡ true → has_succeeded cs ≡ true

  module _ ⦃ls : LabelSets⦄ ⦃os : OwnerReferences⦄ where
    conditions-run_jobs :
        (w : World E) (startup : StatefulSet) (seen : JobsSeen) (cs : C)
        → (run_jobs env u w startup seen cs).conditions ≡ cs
    unfolding run_jobs
    conditions-run_jobs w startup seen cs =
        if_elim {A = Outcome E C} (λ out. out.conditions ≡ cs) (not seen.upgrade_complete)
          (λ _. conditions-after_apply w cs _)
          (λ _.
            if_elim {A = Outcome E C} (λ out. out.conditions ≡ cs) (not (remove_complete w seen))
              (λ _. conditions-after_apply_all w cs _)
              (λ _. conditions-clear_endpoints w.patroni_endpoints cs none []))

    act-Keeps :
        (w : World E) (cluster : Cluster) (startup : StatefulSet) (seen : JobsSeen) (cs : C)
        → Keeps cs (act env u w cluster startup seen cs)
    unfolding act stop complete_upgrade
    act-Keeps w cluster startup seen cs =
        if_elim (Keeps cs)
          (not (str_eq (label annotation_allow_upgrade cluster.annotations) u.name))
          (λ _ h. cc (has_succeeded-not_progressing u _ _ cs))
          (λ _.
            if_elim (Keeps cs) (seen.upgrade_failed || seen.remove_failed)
              (λ _ h. cc (has_succeeded-failed u _ (progressing_if_reason_was missing u cs)))
              (λ _.
                if_elim (Keeps cs)
                  (seen.upgrade_complete
                    && remove_complete w seen
                    && not (cluster.status_version == u.to_version))
                  (λ _ h. cc (
                    conditions-patch_cluster cluster _ _ _,
                    has_succeeded-progressing_if u missing cs,
                  ))
                  (λ _ h. cc (
                    conditions-run_jobs w startup seen (progressing_if_reason_was missing u cs),
                    has_succeeded-progressing_if u missing cs,
                  ))))
      where
        missing : String
        missing = "PGClusterMissingRequiredAnnotation"

    check_cluster-Keeps :
        (w : World E) (cluster : Cluster) (seen : JobsSeen) (cs : C)
        → Keeps cs (check_cluster env u w cluster seen cs)
    unfolding check_cluster stop
    check_cluster-Keeps w cluster seen cs =
        if_elim (Keeps cs) (not w.cluster_shutdown) (λ _ h. cc waiting)
          (λ _. elim (Option-cases w.cluster_primary) [
            | inl e ↦ rw e (λ h. cc waiting)
            | inr (startup, e) ↦ rw e (
                if_elim (Keeps cs)
                  (not (cluster.postgres_version == u.from_version)
                    && not (cluster.status_version == u.to_version))
                  (λ _ h. cc (
                    has_succeeded-not_progressing u invalid _
                        (progressing_if_reason_was running u cs),
                    first,
                  ))
                  (λ _ h. cc (
                    act-Keeps w cluster startup seen _ h,
                    has_succeeded-progressing_if u invalid (progressing_if_reason_was running u cs),
                    first,
                  )))
          ])
      where
        running : String
        running = "PGClusterNotShutdown"

        invalid : String
        invalid = "PGUpgradeInvalidForCluster"

        waiting :
            has_succeeded (not_progressing u running "PostgresCluster instances still running" cs)
            ≡ has_succeeded cs
        waiting = has_succeeded-not_progressing u running _ cs

        first : has_succeeded (progressing_if_reason_was running u cs) ≡ has_succeeded cs
        first = has_succeeded-progressing_if u running cs

-- What has been observed when a reconcile reports success.
pub record Achieved {E C : Type 0} ⦃errs : ApiErrors E⦄ (env : Env E C) (u : PgUpgrade)
    : Type 0 where
  pub older : u.from_version < u.to_version
  pub cluster : Cluster
  pub observed : (observe_world env.reads).0.cluster ≡ some cluster
  pub at_version : cluster.status_version ≡ u.to_version
  pub upgrade_complete : (jobs_seen env u).upgrade_complete ≡ true
  pub removed : remove_complete (observe_world env.reads).0 (jobs_seen env u) ≡ true

module _ {E C : Type 0} ⦃errs : ApiErrors E⦄ ⦃sc : StatusConditions C⦄ ⦃ls : LabelSets⦄
    ⦃os : OwnerReferences⦄ (env : Env E C) (u : PgUpgrade) where
  -- An outcome that reports success where it was reported before, or where it is achieved.
  abbrev Earned : C → Outcome E C → Type 0
  Earned cs out = has_succeeded out.conditions ≡ true → (has_succeeded cs ≡ true) ⊎ Achieved env u

  earlier : {b c : Bool} → b ≡ c → (b ≡ true) ⊎ Achieved env u → (c ≡ true) ⊎ Achieved env u
  earlier e (inl k) = inl (cc)
  earlier e (inr a) = inr a

  check_versions-Earned :
      (cluster : Cluster) (cs : C)
      → u.from_version < u.to_version
      → (observe_world env.reads).0.cluster ≡ some cluster
      → Earned cs (check_versions env u (observe_world env.reads).0 cluster cs)
  unfolding check_versions stop
  check_versions-Earned cluster cs lt o =
      if_elim (Earned cs) (cluster.postgres_version == u.to_version && not seen.upgrade_complete)
        (λ _ h. inl (cc (has_succeeded-not_progressing u resolved _ cs)))
        (λ _.
          if_elim (Earned cs) (cluster.status_version == u.to_version)
            (λ v.
              if_elim {A = C}
                (λ cs'. has_succeeded cs' ≡ true → (has_succeeded cs ≡ true) ⊎ Achieved env u)
                (seen.upgrade_complete && remove_complete w seen)
                (λ c h. inr (record {
                  older = lt;
                  cluster = cluster;
                  observed = o;
                  at_version = ground arith;
                  upgrade_complete = ground arith;
                  removed = ground arith;
                }))
                (λ _ h. inl (
                  cc (
                    has_succeeded-not_progressing u "PGUpgradeCompleted" _
                        (progressing_if_reason_was resolved u cs),
                    first,
                  ))))
            (λ _ h. inl (cc (check_cluster-Keeps env u w cluster seen _ h, first))))
    where
      w : World E
      w = (observe_world env.reads).0

      seen : JobsSeen
      seen = jobs_seen env u

      resolved : String
      resolved = "PGUpgradeResolved"

      first : has_succeeded (progressing_if_reason_was resolved u cs) ≡ has_succeeded cs
      first = has_succeeded-progressing_if u resolved cs

  check_world-Earned : (cs : C) → u.from_version < u.to_version → Earned cs (check_world env u cs)
  unfolding check_world stop stop_with panic
  check_world-Earned cs lt = elim (Option-cases (observe_world env.reads).1) [
    | inr (e, p) ↦
        rw (p, check_world)
          (λ h. inl (cc (has_succeeded-not_progressing u unread (errs.text e) cs)))
    | inl p ↦
        rw (p, check_world)
          (elim (Option-cases (observe_world env.reads).0.cluster_not_found) [
            | inr (e, q) ↦
                rw (q, check_world)
                  (λ h. inl (
                    cc (
                      has_succeeded-not_progressing u absent (errs.text e)
                          (progressing_if_reason_was unread u cs),
                      first,
                    )))
            | inl q ↦
                rw (q, check_world)
                  (elim (Option-cases (observe_world env.reads).0.cluster) [
                    | inl r ↦ rw (r, check_world) (λ h. inl (cc (first, second)))
                    | inr (cluster, r) ↦
                        rw (r, check_world)
                          (λ h. earlier (second ∙ first) (check_versions-Earned cluster _ lt r h))
                  ])
          ])
  ]
    where
      unread : String
      unread = "PGClusterErrorWhenObservingWorld"

      absent : String
      absent = "PGClusterNotFound"

      first : has_succeeded (progressing_if_reason_was unread u cs) ≡ has_succeeded cs
      first = has_succeeded-progressing_if u unread cs

      second :
          has_succeeded (progressing_if_reason_was absent u (progressing_if_reason_was unread u cs))
          ≡ has_succeeded (progressing_if_reason_was unread u cs)
      second = has_succeeded-progressing_if u absent (progressing_if_reason_was unread u cs)

  pub check_upgrade-Earned : (cs : C) → Earned cs (check_upgrade env u cs)
  unfolding check_upgrade stop
  check_upgrade-Earned cs =
      if_elim (Earned cs) (has_succeeded cs) (λ s _. inl s)
        (λ _.
          if_elim (Earned cs) (leb u.to_version u.from_version)
            (λ _ h. inl (
              cc (
                has_succeeded-not_progressing u "PGUpgradeInvalid" _
                    (progressing_if_reason_was "" u cs),
                first,
              )))
            (λ v h. earlier (second ∙ first) (check_world-Earned _ (ground arith) h)))
    where
      first : has_succeeded (progressing_if_reason_was "" u cs) ≡ has_succeeded cs
      first = has_succeeded-progressing_if u "" cs

      second :
          has_succeeded
            (progressing_if_reason_was "PGUpgradeInvalid" u (progressing_if_reason_was "" u cs))
          ≡ has_succeeded (progressing_if_reason_was "" u cs)
      second = has_succeeded-progressing_if u "PGUpgradeInvalid" (progressing_if_reason_was "" u cs)

module _ {E C : Type 0} ⦃errs : ApiErrors E⦄ ⦃sc : StatusConditions C⦄ ⦃ls : LabelSets⦄
    ⦃os : OwnerReferences⦄ (env : Env E C) (absent cs : C) (u : PgUpgrade)
    (read : env.get_upgrade ≡ found (u, cs)) where
  conditions-reconcile : (reconcile env absent).conditions ≡ (check_upgrade env u cs).conditions
  unfolding send_status
  conditions-reconcile = rw (reconcile-found env absent cs u read) (
      if_elim {A = Outcome E C} (λ out. out.conditions ≡ (check_upgrade env u cs).conditions)
        (sc.same cs (check_upgrade env u cs).conditions) (λ _. refl) (λ _. refl))

  -- For an upgrade that the reconcile reads: where the outcome's conditions report success and
  -- those read did not, the upgrade's versions ascend, the cluster was observed with its status at
  -- the new version, the upgrade job is complete, and as many jobs that remove data are complete as
  -- there are replicas.
  pub reconcile_success-Achieved :
      has_succeeded cs ≡ false
      → has_succeeded (reconcile env absent).conditions ≡ true
      → Achieved env u
  reconcile_success-Achieved before after =
      elim (check_upgrade-Earned env u cs (ap has_succeeded (sym conditions-reconcile) ∙ after)) [
        | inl k ↦ absurd (false≢true (sym before ∙ k))
        | inr a ↦ a
      ]
