-- ===== src/Upgrade/Progress.antt =====
-- That a reconcile acts: with all conditions met, the upgrade job is applied.
use mathlib.Core.Bool.{false≢true, ◌&&◌, ◌||◌}
use mathlib.Core.List.{Memᴰ}
use ivory_operator.Kube.{OwnerReferences, LabelSets, StatusConditions, ApiErrors}
use ivory_operator.Prelude.{
  ap, String, any, leb, eq_iff, ◌∙◌, ◌==◌, sym, arith, true, str_eq, not, ◌≢◌, refl, if_elim, none,
  [], ◌∷◌, some, ◌<◌, Option, false, label, ◌≡◌, List,
}
use ivory_operator.Upgrade.{
  container_database, Container, annotation_allow_upgrade, Endpoints, World, StatefulSet, Cluster,
  Job, PgUpgrade,
}
use ivory_operator.Upgrade.Effects.{
  see_jobs, jobs_seen, apply, JobsSeen, apply_job, stop_with, Write, Outcome, delete_all_endpoints,
  Env,
}
use ivory_operator.Upgrade.Jobs.{
  set_controller_reference, pg_upgrade_job, build_job, find_database, generate_upgrade_job,
}
use ivory_operator.Upgrade.Labelled.{set_controller_reference_fresh}
use ivory_operator.Upgrade.Observe.{observe_world}
use ivory_operator.Upgrade.Reconcile.{
  remove_complete, check_versions, check_world, check_cluster, check_upgrade, after_apply,
  has_succeeded, run_jobs, act, clear_endpoints,
}

-- What a reconcile must find to start the upgrade of a cluster.
pub record CanStart {E C : Type 0} ⦃errs : ApiErrors E⦄ ⦃sc : StatusConditions C⦄ ⦃ls : LabelSets⦄
    ⦃os : OwnerReferences⦄ (env : Env E C) (u : PgUpgrade) (cs : C) (cluster : Cluster)
    (startup : StatefulSet) : Type 0 where
  pub fresh : has_succeeded cs ≡ false
  pub older : u.from_version < u.to_version
  pub read : (observe_world env.reads).1 ≡ none
  pub present : (observe_world env.reads).0.cluster_not_found ≡ none
  pub observed : (observe_world env.reads).0.cluster ≡ some cluster
  pub at_version : cluster.postgres_version ≡ u.from_version
  pub not_yet : cluster.status_version ≢ u.to_version
  pub shut_down : (observe_world env.reads).0.cluster_shutdown ≡ true
  pub primary : (observe_world env.reads).0.cluster_primary ≡ some startup
  pub allowed : label annotation_allow_upgrade cluster.annotations ≡ u.name
  pub no_upgrade_failed : (jobs_seen env u).upgrade_failed ≡ false
  pub no_remove_failed : (jobs_seen env u).remove_failed ≡ false
  pub incomplete : (jobs_seen env u).upgrade_complete ≡ false
  pub has_database :
      any (λ (c : Container). str_eq c.name container_database) startup.template.containers ≡ true

-- The search for the container of the database, from one that is found already.
find_database-found :
    (containers : List Container) (c : Container)
    → (found : Container) × (find_database containers (some c) ≡ some found)
unfolding find_database
find_database-found [] c = (c, refl)
find_database-found (d ∷ rest) c =
    if_elim {A = Option Container} (λ o. (found : Container) × (find_database rest o ≡ some found))
      (str_eq d.name container_database) (λ _. find_database-found rest d)
      (λ _. find_database-found rest c)

find_database-any :
    (containers : List Container) (before : Option Container)
    → any (λ (c : Container). str_eq c.name container_database) containers ≡ true
    → (found : Container) × (find_database containers before ≡ some found)
unfolding find_database any
find_database-any [] before h = absurd (false≢true h)
find_database-any (d ∷ rest) before h =
    if_elim {A = Option Container} (λ o. (found : Container) × (find_database rest o ≡ some found))
      (str_eq d.name container_database) (λ _. find_database-found rest d)
      (λ e. find_database-any rest before (ground arith))

-- With a container of the database, the job is built.
generate_upgrade_job-built :
    ⦃ls : LabelSets⦄ ⦃os : OwnerReferences⦄ (getenv : String → String) (u : PgUpgrade)
    (startup : StatefulSet)
    → any (λ (c : Container). str_eq c.name container_database) startup.template.containers ≡ true
    → (j : Job) × (generate_upgrade_job getenv u startup ≡ some j)
unfolding generate_upgrade_job build_job set_controller_reference
generate_upgrade_job-built ⦃ls⦄ ⦃os⦄ getenv u startup h =
    let (found, e) = find_database-any startup.template.containers none h in
    (
      _,
      ap (build_job getenv u (pg_upgrade_job u) _ startup.template) e
          ∙ set_controller_reference_fresh u _ refl,
    )

module _ {E C : Type 0} ⦃errs : ApiErrors E⦄ ⦃sc : StatusConditions C⦄ ⦃ls : LabelSets⦄
    ⦃os : OwnerReferences⦄ (env : Env E C) (u : PgUpgrade) (j : Job) where
  -- An outcome that has applied the job and did not panic.
  abbrev Applied : Outcome E C → Type 0
  Applied out = Memᴰ (apply_job j) out.writes × (out.panicked ≡ false)

  delete_all_endpoints-keeps :
      (wr : Write) (es : List Endpoints) (err : Option E) (ws : List Write)
      → Memᴰ wr ws
      → Memᴰ wr (delete_all_endpoints env.respond es err ws).1
  unfolding delete_all_endpoints
  delete_all_endpoints-keeps wr [] err ws m = m
  delete_all_endpoints-keeps wr (e ∷ rest) err ws m =
      delete_all_endpoints-keeps wr rest _ _ (Memᴰ.tail m)

  clear_endpoints-Applied :
      (es : List Endpoints) (cs : C) (err : Option E) (ws : List Write)
      → Memᴰ (apply_job j) ws
      → Applied (clear_endpoints env u es cs err ws)
  unfolding clear_endpoints stop_with
  clear_endpoints-Applied [] cs err ws m = (m, refl)
  clear_endpoints-Applied (e ∷ rest) cs err ws m =
      (delete_all_endpoints-keeps (apply_job j) (e ∷ rest) err ws m, refl)

  run_jobs-Applied :
      (w : World E) (startup : StatefulSet) (seen : JobsSeen) (cs : C)
      → seen.upgrade_complete ≡ false
      → generate_upgrade_job env.getenv u startup ≡ some j
      → Applied (run_jobs env u w startup seen cs)
  unfolding run_jobs after_apply apply
  run_jobs-Applied w startup seen cs n b =
      if_elim Applied (not seen.upgrade_complete)
        (λ _. rw b (clear_endpoints-Applied w.patroni_endpoints cs _ _ (Memᴰ.head refl)))
        (λ c. absurd (false≢true (ground arith)))

  act-Applied :
      (w : World E) (cluster : Cluster) (startup : StatefulSet) (seen : JobsSeen) (cs : C)
      → label annotation_allow_upgrade cluster.annotations ≡ u.name
      → seen.upgrade_failed ≡ false
      → seen.remove_failed ≡ false
      → seen.upgrade_complete ≡ false
      → generate_upgrade_job env.getenv u startup ≡ some j
      → Applied (act env u w cluster startup seen cs)
  unfolding act
  act-Applied w cluster startup seen cs a f r n b =
      if_elim Applied (not (str_eq (label annotation_allow_upgrade cluster.annotations) u.name))
        (λ h. absurd (
          false≢true (
            ground (arith, a, eq_iff (label annotation_allow_upgrade cluster.annotations) u.name))))
        (λ _.
          if_elim Applied (seen.upgrade_failed || seen.remove_failed)
            (λ h. absurd (false≢true (ground arith)))
            (λ _.
              if_elim Applied
                (seen.upgrade_complete
                  && remove_complete w seen
                  && not (cluster.status_version == u.to_version))
                (λ h. absurd (false≢true (ground arith)))
                (λ _. run_jobs-Applied w startup seen _ n b)))

  check_cluster-Applied :
      (w : World E) (cluster : Cluster) (startup : StatefulSet) (seen : JobsSeen) (cs : C)
      → w.cluster_shutdown ≡ true
      → w.cluster_primary ≡ some startup
      → cluster.postgres_version ≡ u.from_version
      → ((cs' : C) → Applied (act env u w cluster startup seen cs'))
      → Applied (check_cluster env u w cluster seen cs)
  unfolding check_cluster
  check_cluster-Applied w cluster startup seen cs d p v k =
      if_elim Applied (not w.cluster_shutdown) (λ h. absurd (false≢true (ground arith)))
        (λ _.
          rw (p, check_cluster)
            (if_elim Applied
              (not (cluster.postgres_version == u.from_version)
                && not (cluster.status_version == u.to_version))
              (λ h. absurd (false≢true (ground arith))) (λ _. k _)))

  check_versions-Applied :
      (w : World E) (cluster : Cluster) (cs : C)
      → u.from_version < u.to_version
      → cluster.postgres_version ≡ u.from_version
      → cluster.status_version ≢ u.to_version
      → ((cs' : C)
          → Applied (check_cluster env u w cluster (see_jobs u w (env.range 0 w.jobs)) cs'))
      → Applied (check_versions env u w cluster cs)
  unfolding check_versions
  check_versions-Applied w cluster cs lt v ne k =
      if_elim Applied
        (cluster.postgres_version == u.to_version
          && not (see_jobs u w (env.range 0 w.jobs)).upgrade_complete)
        (λ h. absurd (false≢true (ground arith)))
        (λ _.
          if_elim Applied (cluster.status_version == u.to_version) (λ h. absurd (ne (ground arith)))
            (λ _. k _))

  check_world-Applied :
      (cs : C) (cluster : Cluster)
      → (observe_world env.reads).1 ≡ none
      → (observe_world env.reads).0.cluster_not_found ≡ none
      → (observe_world env.reads).0.cluster ≡ some cluster
      → ((cs' : C) → Applied (check_versions env u (observe_world env.reads).0 cluster cs'))
      → Applied (check_world env u cs)
  unfolding check_world
  check_world-Applied cs cluster r p o k =
      rw (r, check_world) (rw (p, check_world) (rw (o, check_world) (k _)))

-- When a reconcile reads an upgrade that has not succeeded, whose versions ascend, and observes its
-- cluster shut down with a known primary that has a container named "database", at the first version,
-- not marked as upgraded, annotated with the upgrade's name, with no failed job and the upgrade job
-- not complete, then it builds the upgrade job for the primary, applies it, and does not panic.
pub check_upgrade-Applied :
    {E C : Type 0} ⦃errs : ApiErrors E⦄ ⦃sc : StatusConditions C⦄ ⦃ls : LabelSets⦄
    ⦃os : OwnerReferences⦄ (env : Env E C) (u : PgUpgrade) (cs : C) (cluster : Cluster)
    (startup : StatefulSet)
    → CanStart env u cs cluster startup
    → (j : Job) × (generate_upgrade_job env.getenv u startup ≡ some j)
      × Memᴰ (apply_job j) (check_upgrade env u cs).writes
      × ((check_upgrade env u cs).panicked ≡ false)
unfolding check_upgrade
check_upgrade-Applied env u cs cluster startup s =
    let (j, built) = generate_upgrade_job-built env.getenv u startup s.has_database in
    let (applied, calm) =
      if_elim (Applied env u j) (has_succeeded cs) (λ h. absurd (false≢true (sym s.fresh ∙ h)))
        (λ _.
          if_elim (Applied env u j) (leb u.to_version u.from_version)
            (λ h. absurd (false≢true (ground arith)))
            (λ _. check_world-Applied env u j _ cluster s.read s.present s.observed (λ c1.
              check_versions-Applied env u j (observe_world env.reads).0 cluster c1 s.older
                s.at_version s.not_yet
                (λ c2.
                  check_cluster-Applied env u j (observe_world env.reads).0 cluster startup
                    (jobs_seen env u) c2 s.shut_down s.primary s.at_version
                    (λ c3.
                      act-Applied env u j (observe_world env.reads).0 cluster startup
                        (jobs_seen env u) c3 s.allowed s.no_upgrade_failed s.no_remove_failed
                        s.incomplete built))))) in
    (j, built, applied, calm)
