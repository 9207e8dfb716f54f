-- ===== src/Upgrade/Safety/Stages.antt =====
-- The loops and last stages of Reconcile: what is known of each of their writes.
use mathlib.Core.List.{Memᴰ}
use ivory_operator.Kube.{ApiErrors, StatusConditions, LabelSets, OwnerReferences, Responses}
use ivory_operator.Prelude.{
  All-Memᴰ, not, if_elim, All-map, Bool, true, false, Option, none, some, List, [], ◌∷◌, ◌≡◌, refl,
  ◌⊎◌, inl, inr, label, arith, str_eq, eq_iff, if◌then◌else◌, ◌&&◌, All, is_none, Option-cases,
}
use ivory_operator.Upgrade.{
  PgUpgrade, World, Cluster, StatefulSet, Endpoints, Job, label_backup, replica_create,
}
use ivory_operator.Upgrade.Effects.{
  Write, apply_job, delete_job, delete_endpoints, patch_cluster_status, patch_upgrade_status, Env,
  Outcome, JobsSeen, stop_with, delete_replica_create, apply, apply_all, delete_all_endpoints,
}
use ivory_operator.Upgrade.Jobs.{generate_upgrade_job, generate_remove_data_job}
use ivory_operator.Upgrade.Reconcile.{
  panic, patch_cluster, after_apply_all, after_apply, remove_complete, complete_upgrade,
  clear_endpoints, run_jobs,
}

-- The loops keep a property of the writes that each of their own writes has.
All-if {ℓ κ} :
    {A : Type ℓ} (P : A → Type κ) (b : Bool) (x : A) (xs : List A)
    → (b ≡ true → P x)
    → All P xs
    → All P (if b then x ∷ xs else xs)
All-if P true x xs p h = (p refl, h)
All-if P false x xs p h = h

module _ {E : Type 0} (respond : Responses Write E) (P : Write → Type 0) where
  All-delete_replica_create :
      ⦃errs : ApiErrors E⦄ (jobs : List Job) (err : Option E) (ws : List Write)
      → ((j : Job) → label label_backup j.labels ≡ replica_create → P (delete_job j))
      → All P ws
      → All P (delete_replica_create respond jobs err ws).1
  unfolding delete_replica_create
  All-delete_replica_create [] err ws p h = h
  All-delete_replica_create (j ∷ rest) err ws p h = All-delete_replica_create rest _ _ p (
      All-if _ (is_none err && str_eq (label label_backup j.labels) replica_create) (delete_job j)
        ws (λ e. p j (ground (arith, eq_iff (label label_backup j.labels) replica_create))) h)

  All-apply_all :
      (job : StatefulSet → Option Job) (sets : List StatefulSet) (err : Option E) (ws : List Write)
      → All (λ sts. (j : Job) → job sts ≡ some j → P (apply_job j)) sets
      → All P ws
      → All P (apply_all respond job sets err ws).1
  unfolding apply_all apply
  All-apply_all job [] err ws p h = h
  All-apply_all job (sts ∷ rest) (some e) ws p h = All-apply_all job rest (some e) ws p.1 h
  All-apply_all job (sts ∷ rest) none ws p h = elim (Option-cases (job sts)) [
    | inl e ↦ rw (e, apply_all, apply, All) h
    | inr (j, e) ↦ rw (e, apply_all, apply, All) (All-apply_all job rest _ _ p.1 (p.0 j e, h))
  ]

  All-delete_all_endpoints :
      ⦃errs : ApiErrors E⦄ (es : List Endpoints) (err : Option E) (ws : List Write)
      → All (λ e. P (delete_endpoints e)) es
      → All P ws
      → All P (delete_all_endpoints respond es err ws).1
  unfolding delete_all_endpoints
  All-delete_all_endpoints [] err ws p h = h
  All-delete_all_endpoints (e ∷ rest) err ws p h =
      All-delete_all_endpoints rest _ (delete_endpoints e ∷ ws) p.1 (p.0, h)

-- What is known of a write, from the observations alone.
module _ {E C : Type 0} ⦃ls : LabelSets⦄ ⦃os : OwnerReferences⦄ (env : Env E C)
    (u : PgUpgrade) where
  abbrev pub Permitted : World E → Cluster → StatefulSet → JobsSeen → Write → Type 0
  Permitted w cluster startup seen (apply_job j) =
      (seen.upgrade_complete ≡ false) × (generate_upgrade_job env.getenv u startup ≡ some j)
      ⊎ (seen.upgrade_complete ≡ true)
        × (remove_complete w seen ≡ false)
        × ((sts : StatefulSet) × Memᴰ sts w.cluster_replicas
            × (generate_remove_data_job env.getenv u sts ≡ some j))
  Permitted w cluster startup seen (delete_job j) =
      (seen.upgrade_complete ≡ true)
      × (remove_complete w seen ≡ true)
      × (label label_backup j.labels ≡ replica_create)
  Permitted w cluster startup seen (delete_endpoints e) = Memᴰ e w.patroni_endpoints
  Permitted w cluster startup seen (patch_cluster_status c) =
      (seen.upgrade_complete ≡ true)
      × (remove_complete w seen ≡ true)
      × (c ≡ record cluster { status_version = u.to_version; status_repos = [] })
  Permitted w cluster startup seen patch_upgrade_status = ⊥

module _ {E C : Type 0} ⦃errs : ApiErrors E⦄ ⦃sc : StatusConditions C⦄ where
  module _ (env : Env E C) (u : PgUpgrade) where
    All-clear_endpoints :
        (P : Write → Type 0) (es : List Endpoints) (cs : C) (err : Option E) (ws : List Write)
        → All (λ e. P (delete_endpoints e)) es
        → All P ws
        → All P (clear_endpoints env u es cs err ws).writes
    unfolding clear_endpoints stop_with
    All-clear_endpoints P [] cs err ws p h = h
    All-clear_endpoints P (e ∷ rest) cs err ws p h =
        All-delete_all_endpoints env.respond P (e ∷ rest) err ws p h

    All-after_apply :
        (P : Write → Type 0) (w : World E) (cs : C) (o : Option Job)
        → ((j : Job) → o ≡ some j → P (apply_job j))
        → All (λ e. P (delete_endpoints e)) w.patroni_endpoints
        → All P (after_apply env u w cs (apply env.respond o [])).writes
    unfolding after_apply apply panic
    All-after_apply P w cs none p q = tt
    All-after_apply P w cs (some j) p q =
        All-clear_endpoints P w.patroni_endpoints cs _ _ q (p j refl, tt)

    All-after_apply_all :
        (P : Write → Type 0) (w : World E) (cs : C) (t : Option E × List Write × Bool)
        → All P t.1
        → All (λ e. P (delete_endpoints e)) w.patroni_endpoints
        → All P (after_apply_all env u w cs t).writes
    unfolding after_apply_all panic
    All-after_apply_all P w cs (err, ws, true) h q = h
    All-after_apply_all P w cs (err, ws, false) h q =
        All-clear_endpoints P w.patroni_endpoints cs err ws q h

    All-patch_cluster :
        (P : Write → Type 0) (cluster : Cluster) (cs : C) (err : Option E) (ws : List Write)
        → P (
            patch_cluster_status
              (record cluster { status_version = u.to_version; status_repos = [] }))
        → All P ws
        → All P (patch_cluster env u cluster cs err ws).writes
    unfolding patch_cluster stop_with
    All-patch_cluster P cluster cs none ws p h = (p, h)
    All-patch_cluster P cluster cs (some e) ws p h = h

    module _ ⦃ls : LabelSets⦄ ⦃os : OwnerReferences⦄ where
      module _ (w : World E) (cluster : Cluster) (startup : StatefulSet) (seen : JobsSeen)
          (cs : C) where
        endpoints-Permitted :
            All
              (λ e. Permitted env u w cluster startup seen (delete_endpoints e))
              w.patroni_endpoints
        endpoints-Permitted = All-Memᴰ w.patroni_endpoints

        abbrev pub HasGood : Outcome E C → Type 0
        HasGood out = All (Permitted env u w cluster startup seen) out.writes

        replicas-Permitted :
            seen.upgrade_complete ≡ true
            → remove_complete w seen ≡ false
            → All
                (λ sts.
                  (j : Job)
                  → generate_remove_data_job env.getenv u sts ≡ some j
                  → Permitted env u w cluster startup seen (apply_job j))
                w.cluster_replicas
        replicas-Permitted c r =
            All-map _ _ w.cluster_replicas (λ sts m j e. inr (c, r, (sts, m, e)))
              (All-Memᴰ w.cluster_replicas)

        pub run_jobs-Permitted : HasGood (run_jobs env u w startup seen cs)
        unfolding run_jobs
        run_jobs-Permitted =
            if_elim HasGood (not seen.upgrade_complete)
              (λ e. All-after_apply _ w cs _ (λ j g. inl (ground arith, g)) endpoints-Permitted)
              (λ c.
                if_elim HasGood (not (remove_complete w seen))
                  (λ r.
                    All-after_apply_all _ w cs _
                      (All-apply_all env.respond _ _ w.cluster_replicas none []
                        (replicas-Permitted (ground arith) (ground arith)) tt)
                      endpoints-Permitted)
                  (λ r.
                    All-clear_endpoints _ w.patroni_endpoints cs none [] endpoints-Permitted tt))

        pub complete_upgrade-Permitted :
            seen.upgrade_complete ≡ true
            → remove_complete w seen ≡ true
            → HasGood (complete_upgrade env u w cluster cs)
        unfolding complete_upgrade
        complete_upgrade-Permitted c r =
            All-patch_cluster _ cluster cs _ _ (c, r, refl)
              (All-delete_replica_create env.respond _ (env.range 1 w.jobs) none []
                (λ j e. (c, r, e)) tt)
