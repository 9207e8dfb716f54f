-- ===== src/Cluster/Ordered.antt =====
-- Which steps a reconcile of a cluster takes.

-- A list that stands newest first, put before another in order.
use mathlib.Core.Bool.{false≢true}
use ivory_operator.Cluster.{no_result, Result}
use ivory_operator.Cluster.Deletion.{handle_delete, Handled, DeleteEnv}
use ivory_operator.Cluster.Finalized.{handle_delete-handled}
use ivory_operator.Cluster.Loop.{
  set_paused, all_steps, begin_steps, standby_invalid, ClusterOutcome, finish, after_delete,
  ClusterObject, reconcile_cluster, reconcile_existing, may_return_early, take_step, Progress,
  ClusterStatus, take_steps, patch_cluster_status, Answered, LoopEnv, Step,
}
use ivory_operator.Instances.{Pod}
use ivory_operator.Instances.Stop.{result, Scaled, OwnErrors}
use ivory_operator.Kube.{found, Responses, StatusConditions, OwnerReferences, ApiErrors}
use ivory_operator.Prelude.{
  none, inr, arith, sym, some, inl, refl, Bool-cases, ◌⊎◌, if_elim, ◌∙◌, Option, ap, ◌||◌, false,
  true, is_some, ◌≡◌, not, ◌&&◌, is_none, [], if◌then◌else◌, Bool, ◌∷◌, List,
}

abbrev pub unwind : {A : Type 0} → List A → List A → List A
unwind [] rest = rest
unwind (x ∷ xs) rest = unwind xs (x ∷ rest)

module _ {E S : Type 0} (step : Step → S → Answered E S) where
  abbrev pub proceeds : Step → S → Bool
  proceeds s status =
      let a = step s status in
      is_none a.err && not (may_return_early s && (is_some a.err || a.return_early))

  -- The steps in order, up to the first that fails or returns early.
  abbrev pub reference_steps : List Step → S → List Step
  reference_steps [] status = []
  reference_steps (s ∷ rest) status =
      let later = reference_steps rest (step s status).status in
      s ∷ (if proceeds s status then later else [])

  take_steps_idle :
      (steps : List Step) (p : Progress E S)
      → (is_none p.err && not p.ended) ≡ false
      → take_steps step steps p ≡ p
  unfolding take_steps
  take_steps_idle [] p h = refl
  take_steps_idle (s ∷ rest) p h =
      ap (λ b. take_steps step rest (if b then take_step step s p else p)) h
      ∙ take_steps_idle rest p h

  take_steps-taken :
      (steps : List Step) (p : Progress E S)
      → (is_none p.err && not p.ended) ≡ true
      → unwind (take_steps step steps p).taken [] ≡ unwind p.taken (reference_steps steps p.status)
  unfolding take_steps take_step
  take_steps-taken [] p h = refl
  take_steps-taken (s ∷ rest) p h =
      let q = take_step step s p in
      ap (λ b. unwind (take_steps step rest (if b then q else p)).taken []) h
      ∙ elim (Bool-cases (proceeds s p.status)) [
        | inl e ↦
            take_steps-taken rest q e
            ∙ ap
                (λ b.
                  unwind p.taken
                    (s ∷ (if b then reference_steps rest (step s p.status).status else [])))
                (sym e)
        | inr e ↦
            ap (λ (r : Progress E S). unwind r.taken []) (take_steps_idle rest q e)
            ∙ ap
                (λ b.
                  unwind p.taken
                    (s ∷ (if b then reference_steps rest (step s p.status).status else [])))
                (sym e)
      ]

module _ {E S : Type 0} (env : LoopEnv E S) where
  patch_cluster_status-keeps :
      (before : S) (result : Result) (err : Option E) (status : S) (taken : List Step)
      → let out = patch_cluster_status env before result err status taken in
        (out.taken ≡ taken) × (out.status ≡ some status)
  unfolding patch_cluster_status
  patch_cluster_status-keeps before result err status taken =
      if_elim {A = ClusterOutcome E S} (λ o. (o.taken ≡ taken) × (o.status ≡ some status))
        (env.same_status before status) (λ _. (refl, refl)) (λ _. (refl, refl))

module _ {E C R : Type 0} ⦃errs : ApiErrors E⦄ ⦃os : OwnerReferences⦄ ⦃sc : StatusConditions C⦄
    (env : LoopEnv E (ClusterStatus C R)) (deletion : DeleteEnv E) (own : OwnErrors E)
    (respond : Responses Scaled E) where
  -- The steps that were taken are those of the reference, and the status tells the generation of the
  -- cluster unless a step returned early.
  abbrev pub TakesSteps :
      ClusterObject (ClusterStatus C R) → ClusterOutcome E (ClusterStatus C R) → Type 0
  TakesSteps cluster out =
      let begun = begin_steps env cluster.status in
      (unwind out.taken [] ≡ reference_steps env.step all_steps begun.status)
      × ((s : ClusterStatus C R) × ((out.status ≡ some s)
            × (((take_steps env.step all_steps begun).ended ≡ true)
                ⊎ (s.observed_generation ≡ cluster.generation))))

  -- Whether Reconcile ends before the steps.
  abbrev pub ends_before : List Pod × Option E → ClusterObject (ClusterStatus C R) → Bool
  ends_before pods cluster =
      let h = handle_delete deletion own respond cluster.deletable pods in
      is_some h.err || is_some h.result || standby_invalid cluster.standby || cluster.paused

  finish-TakesSteps :
      (cluster : ClusterObject (ClusterStatus C R))
      → TakesSteps cluster (
          finish env cluster.status cluster.generation
            (take_steps env.step all_steps (begin_steps env cluster.status)))
  unfolding finish begin_steps
  finish-TakesSteps cluster =
      let begun = begin_steps env cluster.status in
      let p = take_steps env.step all_steps begun in
      let s =
        if p.ended
        then p.status
        else record p.status { observed_generation = cluster.generation } in
      let (taken, status) =
        patch_cluster_status-keeps env cluster.status p.result p.err s p.taken in
      (
        ap (λ t. unwind t []) taken ∙ take_steps-taken env.step all_steps begun refl,
        (
          s,
          (
            status,
            elim (Bool-cases p.ended) [
              | inl e ↦ inl e
              | inr e ↦ inr (
                  ap
                    (λ b.
                      (if b then p.status else record p.status {
                        observed_generation = cluster.generation;
                      }).observed_generation)
                    e)
            ],
          ),
        ),
      )

  -- The outcome for each end.
  abbrev Cases :
      Bool → ClusterObject (ClusterStatus C R) → ClusterOutcome E (ClusterStatus C R) → Type 0
  Cases before cluster out =
      ((before ≡ true) × (out.taken ≡ [])) ⊎ ((before ≡ false) × TakesSteps cluster out)

  reconcile_existing-Cases :
      (cluster : ClusterObject (ClusterStatus C R))
      → Cases
          (standby_invalid cluster.standby || cluster.paused)
          cluster
          (reconcile_existing env cluster)
  unfolding reconcile_existing
  reconcile_existing-Cases cluster =
      let bad = standby_invalid cluster.standby || cluster.paused in
      if_elim {A = ClusterOutcome E (ClusterStatus C R)} (Cases bad cluster)
        (standby_invalid cluster.standby) (λ i. inl (ground (arith, i), refl))
        (λ i.
          if_elim {A = ClusterOutcome E (ClusterStatus C R)} (Cases bad cluster) cluster.paused
            (λ p. inl (
              ground (arith, p),
              (patch_cluster_status-keeps env cluster.status no_result none
                  (set_paused env cluster.generation cluster.status) []).0,
            ))
            (λ p. inr (ground (arith, i, p), finish-TakesSteps cluster)))

  after_delete-Cases :
      (cluster : ClusterObject (ClusterStatus C R)) (h : Handled E) (err : Option E)
      (result : Option Result)
      → Cases
          (is_some err || is_some result || standby_invalid cluster.standby || cluster.paused)
          cluster
          (after_delete env cluster h err result)
  unfolding after_delete
  after_delete-Cases cluster h (some e) result = inl (refl, refl)
  after_delete-Cases cluster h none (some r) = inl (refl, refl)
  after_delete-Cases cluster h none none = reconcile_existing-Cases cluster

  -- A reconcile of a cluster takes no step where handleDelete failed or has a result, the standby is
  -- invalid, or the cluster is paused; else it takes the steps in order up to the first that fails or
  -- returns early. Then the status tells the generation of the cluster as observed, whether or not the
  -- last step failed, unless a step that may return early ended the reconcile.
  pub reconcile_cluster-TakesSteps :
      (pods : List Pod × Option E) (cluster : ClusterObject (ClusterStatus C R))
      → let out = reconcile_cluster env deletion own respond pods (found cluster) in
        ((ends_before pods cluster ≡ true) × (out.taken ≡ []))
        ⊎ ((ends_before pods cluster ≡ false) × TakesSteps cluster out)
  unfolding reconcile_cluster
  reconcile_cluster-TakesSteps pods cluster =
      let h = handle_delete deletion own respond cluster.deletable pods in
      after_delete-Cases cluster h h.err h.result

  -- Nothing is reconciled of a cluster that is being deleted: no step is taken and its status stays.
  pub reconcile_cluster_deleting :
      (pods : List Pod × Option E) (cluster : ClusterObject (ClusterStatus C R))
      → cluster.deletable.deleting ≡ true
      → let out = reconcile_cluster env deletion own respond pods (found cluster) in
        (out.taken ≡ [])
        × (out.patched ≡ false)
        × (out.writes ≡ (handle_delete deletion own respond cluster.deletable pods).writes)
  unfolding reconcile_cluster
  reconcile_cluster_deleting pods cluster d =
      let h = handle_delete deletion own respond cluster.deletable pods in
      go h.err h.result (handle_delete-handled deletion own respond cluster.deletable pods d)
    where
      go :
          (err : Option E) (result : Option Result)
          → (is_some err || is_some result) ≡ true
          → let h = handle_delete deletion own respond cluster.deletable pods in
            let out = after_delete env cluster h err result in
            (out.taken ≡ []) × (out.patched ≡ false) × (out.writes ≡ h.writes)
      go (some e) result k = (refl, refl, refl)
      go none (some r) k = (refl, refl, refl)
      go none none k = absurd (false≢true k)
