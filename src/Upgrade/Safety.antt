-- ===== src/Upgrade/Safety.antt =====
-- When Reconcile writes: what was observed before any of its writes.
pub mod Stages
use ivory_operator.Kube.{found, OwnerReferences, StatusConditions, LabelSets, ApiErrors}
use ivory_operator.Prelude.{
  refl, ◌⊎◌, leb, All-map, ◌&&◌, eq_iff, ◌==◌, inr, arith, ◌||◌, inl, Option-cases, str_eq, not,
  if_elim, false, true, some, label, ◌≢◌, ◌≡◌, All, ◌<◌, Bool,
}
use ivory_operator.Upgrade.{annotation_allow_upgrade, StatefulSet, World, Cluster, PgUpgrade}
use ivory_operator.Upgrade.Effects.{
  patch_upgrade_status, stop_with, jobs_seen, JobsSeen, stop, Outcome, Write, Env,
}
use ivory_operator.Upgrade.Observe.{observe_world}
use ivory_operator.Upgrade.Reconcile.{
  reconcile-found, panic, send_status, has_succeeded, check_versions, check_world, check_upgrade,
  reconcile, remove_complete, act, check_cluster,
}
use ivory_operator.Upgrade.Safety.Stages.{run_jobs-Permitted, complete_upgrade-Permitted, Permitted}

-- Everything that holds when a reconcile of `u` makes a write.
pub record Authorised {E C : Type 0} ⦃errs : ApiErrors E⦄ ⦃ls : LabelSets⦄ ⦃os : OwnerReferences⦄
    (env : Env E C) (u : PgUpgrade) (wr : Write) : Type 0 where
  pub older : u.from_version < u.to_version
  pub cluster : Cluster
  pub observed : (observe_world env.reads).0.cluster ≡ some cluster
  pub shut_down : (observe_world env.reads).0.cluster_shutdown ≡ true
  pub startup : StatefulSet
  pub primary : (observe_world env.reads).0.cluster_primary ≡ some startup
  pub at_version : cluster.postgres_version ≡ u.from_version
  pub not_yet : cluster.status_version ≢ u.to_version
  pub allowed : label annotation_allow_upgrade cluster.annotations ≡ u.name
  pub no_upgrade_failed : (jobs_seen env u).upgrade_failed ≡ false
  pub no_remove_failed : (jobs_seen env u).remove_failed ≡ false
  pub permitted : Permitted env u (observe_world env.reads).0 cluster startup (jobs_seen env u) wr

module _ {E C : Type 0} ⦃errs : ApiErrors E⦄ ⦃sc : StatusConditions C⦄ ⦃ls : LabelSets⦄
    ⦃os : OwnerReferences⦄ (env : Env E C) (u : PgUpgrade) (P : Write → Type 0) where
  abbrev Good : Outcome E C → Type 0
  Good out = All P out.writes

  All-act :
      (w : World E) (cluster : Cluster) (startup : StatefulSet) (seen : JobsSeen) (cs : C)
      → (label annotation_allow_upgrade cluster.annotations ≡ u.name
          → seen.upgrade_failed ≡ false
          → seen.remove_failed ≡ false
          → (wr : Write) → Permitted env u w cluster startup seen wr
          → P wr)
      → Good (act env u w cluster startup seen cs)
  unfolding act stop
  All-act w cluster startup seen cs k =
      if_elim Good (not (str_eq (label annotation_allow_upgrade cluster.annotations) u.name))
        (λ _. tt)
        (λ a.
          if_elim Good (seen.upgrade_failed || seen.remove_failed) (λ _. tt)
            (λ f.
              let k' : (wr : Write) → Permitted env u w cluster startup seen wr → P wr =
                k
                  (ground
                    (arith, eq_iff (label annotation_allow_upgrade cluster.annotations) u.name))
                  (ground arith) (ground arith) in
              if_elim Good
                (seen.upgrade_complete
                  && remove_complete w seen
                  && not (cluster.status_version == u.to_version))
                (λ c. All-map _ P _ k' (
                  complete_upgrade-Permitted env u w cluster startup seen _ (ground arith)
                    (ground arith)))
                (λ c. All-map _ P _ k' (run_jobs-Permitted env u w cluster startup seen _))))

  All-check_cluster :
      (w : World E) (cluster : Cluster) (seen : JobsSeen) (cs : C)
      → cluster.status_version ≢ u.to_version
      → ((startup : StatefulSet)
          → w.cluster_shutdown ≡ true
          → w.cluster_primary ≡ some startup
          → cluster.postgres_version ≡ u.from_version
          → label annotation_allow_upgrade cluster.annotations ≡ u.name
          → seen.upgrade_failed ≡ false
          → seen.remove_failed ≡ false
          → (wr : Write) → Permitted env u w cluster startup seen wr
          → P wr)
      → Good (check_cluster env u w cluster seen cs)
  unfolding check_cluster stop
  All-check_cluster w cluster seen cs ne k =
      if_elim Good (not w.cluster_shutdown) (λ _. tt)
        (λ d. elim (Option-cases w.cluster_primary) [
          | inl e ↦ rw (e, All) tt
          | inr (startup, e) ↦
              rw (e, All)
                (if_elim Good
                  (not (cluster.postgres_version == u.from_version)
                    && not (cluster.status_version == u.to_version))
                  (λ _. tt)
                  (λ v.
                    All-act w cluster startup seen _ (k startup (ground arith) e (ground arith))))
        ])

module _ {E C : Type 0} ⦃errs : ApiErrors E⦄ ⦃sc : StatusConditions C⦄ ⦃ls : LabelSets⦄
    ⦃os : OwnerReferences⦄ (env : Env E C) (u : PgUpgrade) where
  abbrev Authority : Outcome E C → Type 0
  Authority out = All (Authorised env u) out.writes

  check_versions-Authorised :
      (cluster : Cluster) (cs : C)
      → u.from_version < u.to_version
      → (observe_world env.reads).0.cluster ≡ some cluster
      → Authority (check_versions env u (observe_world env.reads).0 cluster cs)
  unfolding check_versions stop
  check_versions-Authorised cluster cs lt o =
      let w = (observe_world env.reads).0 in
      if_elim Authority
        (cluster.postgres_version == u.to_version && not (jobs_seen env u).upgrade_complete)
        (λ _. tt)
        (λ _.
          if_elim Authority (cluster.status_version == u.to_version) (λ _. tt)
            (λ s.
              All-check_cluster env u (Authorised env u) w cluster (jobs_seen env u) _
                (λ e. ground arith)
                (λ startup d p v a f r wr q. record {
                  older = lt;
                  cluster = cluster;
                  observed = o;
                  shut_down = d;
                  startup = startup;
                  primary = p;
                  at_version = v;
                  not_yet = (λ e. ground arith);
                  allowed = a;
                  no_upgrade_failed = f;
                  no_remove_failed = r;
                  permitted = q;
                })))

  check_world-Authorised :
      (cs : C) → u.from_version < u.to_version → Authority (check_world env u cs)
  unfolding check_world stop stop_with panic
  check_world-Authorised cs lt = elim (Option-cases (observe_world env.reads).1) [
    | inr (e, p) ↦ rw (p, All) tt
    | inl p ↦
        rw (p, All)
          (elim (Option-cases (observe_world env.reads).0.cluster_not_found) [
            | inr (e, q) ↦ rw (q, All) tt
            | inl q ↦
                rw (q, All)
                  (elim (Option-cases (observe_world env.reads).0.cluster) [
                    | inl r ↦ rw (r, All) tt
                    | inr (cluster, r) ↦ rw (r, All) (check_versions-Authorised cluster _ lt r)
                  ])
          ])
  ]

  pub check_upgrade-Authorised : (cs : C) → Authority (check_upgrade env u cs)
  unfolding check_upgrade stop
  check_upgrade-Authorised cs =
      if_elim Authority (has_succeeded cs) (λ _. tt)
        (λ _.
          if_elim Authority (leb u.to_version u.from_version) (λ _. tt)
            (λ v. check_world-Authorised _ (ground arith)))

-- Each write of a reconcile that finds its upgrade is the patch of the upgrade's own status, or is
-- Authorised: the versions of the upgrade ascend, the cluster was observed shut down with a known
-- primary, at the version that the upgrade starts from and not marked as upgraded, its annotation
-- names the upgrade, no job has failed, and the write is of a kind that the state of the jobs
-- permits.
pub reconcile-Authorised :
    {E C : Type 0} ⦃errs : ApiErrors E⦄ ⦃sc : StatusConditions C⦄ ⦃ls : LabelSets⦄
    ⦃os : OwnerReferences⦄ (env : Env E C) (absent cs : C) (u : PgUpgrade)
    → env.get_upgrade ≡ found (u, cs)
    → All (λ wr. (wr ≡ patch_upgrade_status) ⊎ Authorised env u wr) (reconcile env absent).writes
unfolding send_status
reconcile-Authorised {E} {C} ⦃sc⦄ env absent cs u e =
    rw (reconcile-found env absent cs u e, All)
      (if_elim {A = Outcome E C} (λ out. All P out.writes)
        (sc.same cs (check_upgrade env u cs).conditions) (λ _. inner) (λ _. (inl refl, inner)))
  where
    P : Write → Type 0
    P wr = (wr ≡ patch_upgrade_status) ⊎ Authorised env u wr

    inner : All P (check_upgrade env u cs).writes
    inner =
        All-map (Authorised env u) P (check_upgrade env u cs).writes (λ wr a. inr a)
          (check_upgrade-Authorised env u cs)
