-- ===== src/Upgrade/Observed.antt =====
-- What observeWorld finds: the instances of the cluster, and whether it is shut down.
use mathlib.Core.Bool.{◌&&◌, false≢true}
use mathlib.Core.List.{append_assoc, append-nil}
use ivory_operator.Kube.{found, ApiErrors}
use ivory_operator.Prelude.{
  All-filter, All-map, ◌∙◌, ◌≢◌, Option, Option-cases, ap, if_elim, none, if◌then◌else◌, subst,
  ◌==◌, refl, zero, suc, inr, eq_iff, [], sym, All, ◌∷◌, inl, ◌⊎◌, arith, ◌++◌, ◌↔◌, label, ◌+◌,
  false, true, some, ◌≡◌, ℕ, length, is_empty, List, not, str_eq, count, String, filter, Bool,
}
use ivory_operator.Prelude.Int.{eq_of_parts, pos, negsuc, neg_part, pos_part}
use ivory_operator.Upgrade.{
  label_patroni, Job, Endpoints, Cluster, label_instance, World, StatefulSet,
}
use ivory_operator.Upgrade.Observe.{
  specified_shutdown, populate_stateful_sets, populate_shutdown, index_jobs, new_world,
  observe_world, Reads, populate_patroni_endpoints, visit_stateful_set, visit_stateful_sets,
  all_stopped,
}

abbrev pub is_instance : StatefulSet → Bool
is_instance sts = not (is_empty (label label_instance sts.labels))

abbrev pub is_named : String → StatefulSet → Bool
is_named name sts = str_eq sts.name name

module _ {E : Type 0} where
  visit-cluster_replicas :
      (startup : String) (w : World E) (sets : List StatefulSet)
      → is_empty startup ≡ false
      → (visit_stateful_sets startup w sets).cluster_replicas
        ≡ w.cluster_replicas ++ filter (λ s. not (is_named startup s)) (filter is_instance sets)
  unfolding visit_stateful_sets visit_stateful_set filter
  visit-cluster_replicas startup w [] h = sym (append-nil w.cluster_replicas)
  visit-cluster_replicas startup w (s ∷ rest) h = ground (
    arith,
    visit-cluster_replicas startup (visit_stateful_set startup w s) rest h,
    append_assoc w.cluster_replicas (s ∷ [])
        (filter (λ s. not (is_named startup s)) (filter is_instance rest)),
  )

  visit-replicas_expected :
      (startup : String) (w : World E) (sets : List StatefulSet)
      → let r = (visit_stateful_sets startup w sets).replicas_expected in
        pos_part r + neg_part w.replicas_expected
        ≡ neg_part r + pos_part w.replicas_expected + length (filter is_instance sets)
  unfolding visit_stateful_sets visit_stateful_set filter
  visit-replicas_expected startup w [] = omega arith
  visit-replicas_expected startup w (s ∷ rest) =
      ground (arith, visit-replicas_expected startup (visit_stateful_set startup w s) rest)

  visit_one :
      (startup : String) (w : World E) (t s : StatefulSet)
      → (visit_stateful_set startup w t).cluster_primary ≡ some s
      → (w.cluster_primary ≡ some s) ⊎ ((s.name ≡ startup) × (is_instance s ≡ true))
  unfolding visit_stateful_set
  visit_one startup w t s h = ground (arith, eq_iff t.name startup)

  visit-cluster_primary :
      (startup : String) (w : World E) (sets : List StatefulSet) (s : StatefulSet)
      → (visit_stateful_sets startup w sets).cluster_primary ≡ some s
      → (w.cluster_primary ≡ some s) ⊎ ((s.name ≡ startup) × (is_instance s ≡ true))
  unfolding visit_stateful_sets
  visit-cluster_primary startup w [] s h = inl h
  visit-cluster_primary startup w (t ∷ rest) s h =
      elim (visit-cluster_primary startup (visit_stateful_set startup w t) rest s h) [
        | inl k ↦ visit_one startup w t s k
        | inr n ↦ inr n
      ]

count-filter :
    {A : Type 0} (p q : A → Bool) (xs : List A)
    → length (filter (λ s. not (p s)) (filter q xs)) + count p (filter q xs) ≡ length (filter q xs)
unfolding filter count
count-filter p q [] = omega arith
count-filter p q (x ∷ xs) = ground (arith, count-filter p q xs)

asked_shutdown : (o : Option Bool) → specified_shutdown o ≡ true → o ≡ some true
unfolding specified_shutdown
asked_shutdown none h = absurd (false≢true h)
asked_shutdown (some b) h = ap some h

none≢some : {A : Type 0} {a : A} → none ≡ some a → ⊥
none≢some e = cc

suc-ne-zero : (n : ℕ) → (suc n == 0) ≡ false
suc-ne-zero n = ground arith

all_stopped_iff :
    (ns : List ℕ) (b : Bool) → (all_stopped ns b ≡ true) ↔ ((b ≡ true) × All (λ n. n ≡ 0) ns)
unfolding all_stopped
all_stopped_iff [] b = ((λ h. (h, tt)), (λ h. h.0))
all_stopped_iff (zero ∷ rest) b = (
  (λ h. let (p, q) = (all_stopped_iff rest b).0 h in (p, (refl, q))),
  (λ h. (all_stopped_iff rest b).1 (h.0, h.1.1)),
)
all_stopped_iff (suc n ∷ rest) b = (
  (λ h. absurd (
      false≢true
        ((all_stopped_iff rest false).0 (
          subst (λ t. all_stopped rest (if not t then false else b) ≡ true) (suc-ne-zero n) h)).0)),
  (λ h. absurd (omega (arith, h.1.0))),
)

module _ {E : Type 0} where
  cluster-populate_patroni_endpoints :
      (w : World E) (es : List Endpoints)
      → (populate_patroni_endpoints w es
          ≡ record w { patroni_endpoints = (populate_patroni_endpoints w es).patroni_endpoints })
  unfolding populate_patroni_endpoints
  cluster-populate_patroni_endpoints w [] = refl
  cluster-populate_patroni_endpoints w (e ∷ rest) =
      if_elim {A = World E}
        (λ v.
          populate_patroni_endpoints v rest
          ≡ record w { patroni_endpoints = (populate_patroni_endpoints v rest).patroni_endpoints })
        (is_empty (label label_patroni e.labels)) (λ _. cluster-populate_patroni_endpoints w rest)
        (λ _.
          cluster-populate_patroni_endpoints
            (record w { patroni_endpoints = w.patroni_endpoints ++ e ∷ [] }) rest)

  visit-cluster :
      (startup : String) (w : World E) (sets : List StatefulSet)
      → (visit_stateful_sets startup w sets).cluster ≡ w.cluster
  unfolding visit_stateful_sets visit_stateful_set
  visit-cluster startup w [] = refl
  visit-cluster startup w (s ∷ rest) =
      ground (arith, visit-cluster startup (visit_stateful_set startup w s) rest)

-- Reads that succeed.
abbrev pub answered :
    {E : Type 0} → Cluster → List Endpoints → List Job → List StatefulSet → Reads E
answered c es js sets = record {
  get_cluster = found c;
  list_endpoints = (es, none);
  list_jobs = (js, none);
  list_stateful_sets = (sets, none);
}

module _ (E : Type 0) ⦃errs : ApiErrors E⦄ (c : Cluster) (es : List Endpoints) (js : List Job)
    (sets : List StatefulSet) where
  -- The world before the StatefulSets are counted.
  abbrev start : World E
  start = record (new_world {E = E}) { cluster = some c }

  abbrev before_sets : World E
  before_sets = record (new_world {E = E}) {
    cluster = some c;
    patroni_endpoints = (populate_patroni_endpoints start es).patroni_endpoints;
    jobs = index_jobs [] js;
    replicas_expected = negsuc 0;
  }

  observe_world_success :
      observe_world {E = E} (answered c es js sets)
      ≡ (populate_shutdown (visit_stateful_sets c.startup_instance before_sets sets), none)
  unfolding observe_world
  observe_world_success =
      ap
        (λ w. (
          populate_shutdown
              (populate_stateful_sets (record w { jobs = index_jobs w.jobs js }) sets),
          none,
        ))
        (cluster-populate_patroni_endpoints start es)

  shutdown-populate_shutdown :
      (w : World E)
      → w.cluster ≡ some c
      → ((populate_shutdown w).cluster_shutdown ≡ true) ↔ (
          (c.shutdown ≡ some true)
          × (c.observed_generation ≡ c.generation)
          × All (λ n. n ≡ 0) c.set_replicas)
  unfolding populate_shutdown
  shutdown-populate_shutdown w e = rw e (
      let asked : Bool = specified_shutdown c.shutdown && c.observed_generation == c.generation in
      let (to, from) = all_stopped_iff c.set_replicas asked in
      (
        (λ h. (
          asked_shutdown c.shutdown (ground (arith, (to h).0)),
          ground (arith, (to h).0),
          (to h).1,
        )),
        (λ h. from (ground (arith, h.0, h.1), h.2)),
      ))

  -- When the reads of observeWorld succeed, the cluster counts as shut down exactly when its
  -- specification says so, its status is of the current generation, and no instance set has
  -- replicas left.
  pub observe_shutdown_iff :
      ((observe_world {E = E} (answered c es js sets)).0.cluster_shutdown ≡ true) ↔ (
        (c.shutdown ≡ some true)
        × (c.observed_generation ≡ c.generation)
        × All (λ n. n ≡ 0) c.set_replicas)
  observe_shutdown_iff = rw observe_world_success (
      shutdown-populate_shutdown (visit_stateful_sets c.startup_instance before_sets sets)
        (visit-cluster c.startup_instance before_sets sets))

  abbrev counted : World E
  counted = visit_stateful_sets c.startup_instance before_sets sets

  -- The counts of the StatefulSets are those of the loop.
  kept_by_shutdown :
      (w : World E)
      → ((populate_shutdown w).cluster_replicas ≡ w.cluster_replicas)
        × ((populate_shutdown w).cluster_primary ≡ w.cluster_primary)
        × ((populate_shutdown w).replicas_expected ≡ w.replicas_expected)
  unfolding populate_shutdown
  kept_by_shutdown w = elim (Option-cases w.cluster) [
    | inl e ↦ rw e (refl, refl, refl)
    | inr (d, e) ↦ rw e (refl, refl, refl)
  ]

  -- When the reads of observeWorld succeed and the cluster names a startup instance, the replicas
  -- are the StatefulSets of instances with another name, in order; and where a primary is found, it
  -- is an instance with the startup name, so that no replica has its name.
  pub observe_primary :
      (s : StatefulSet)
      → is_empty c.startup_instance ≡ false
      → (observe_world {E = E} (answered c es js sets)).0.cluster_primary ≡ some s
      → ((observe_world {E = E} (answered c es js sets)).0.cluster_replicas
          ≡ filter (λ r. not (is_named c.startup_instance r)) (filter is_instance sets))
        × (s.name ≡ c.startup_instance)
        × (is_instance s ≡ true)
        × All
            (λ r. r.name ≢ s.name)
            (observe_world {E = E} (answered c es js sets)).0.cluster_replicas
  unfolding new_world
  observe_primary s named = rw observe_world_success (λ p.
      elim (visit-cluster_primary c.startup_instance before_sets sets s
        (sym ((kept_by_shutdown counted).1) ∙ p)) [
          | inl none_yet ↦ absurd (none≢some none_yet)
          | inr (same, inst) ↦
              let found_replicas : (populate_shutdown counted).cluster_replicas
                  ≡ filter (λ r. not (is_named c.startup_instance r)) (filter is_instance sets) =
                (kept_by_shutdown counted).0
                ∙ visit-cluster_replicas c.startup_instance before_sets sets named in
              (
                found_replicas,
                same,
                inst,
                subst (All (λ r. r.name ≢ s.name)) (sym found_replicas) (
                    All-map _ _
                      (filter (λ r. not (is_named c.startup_instance r)) (filter is_instance sets))
                      (λ r t e. ground (arith, same, e, eq_iff r.name c.startup_instance))
                      (All-filter (λ r. not (is_named c.startup_instance r))
                        (filter is_instance sets))),
              )
        ])

  -- When the reads of observeWorld succeed and exactly one StatefulSet of an instance has the
  -- startup name, which is not empty, the expected number of replicas is the number of replicas found.
  pub observe_replicas_expected :
      is_empty c.startup_instance ≡ false
      → count (is_named c.startup_instance) (filter is_instance sets) ≡ 1
      → (observe_world {E = E} (answered c es js sets)).0.replicas_expected
        ≡ pos (length (observe_world {E = E} (answered c es js sets)).0.cluster_replicas)
  unfolding new_world
  observe_replicas_expected named one = rw observe_world_success (
      eq_of_parts _ _ (
        omega (
          arith,
          ap pos_part ((kept_by_shutdown counted).2),
          ap neg_part ((kept_by_shutdown counted).2),
          visit-replicas_expected c.startup_instance before_sets sets,
          ap length ((kept_by_shutdown counted).0),
          ap length (visit-cluster_replicas c.startup_instance before_sets sets named),
          count-filter (is_named c.startup_instance) is_instance sets,
        )))
