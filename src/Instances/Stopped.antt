-- ===== src/Instances/Stopped.antt =====
-- Which instances deleteInstances stops.
use mathlib.Core.Bool.{false≢true}
use mathlib.Core.List.{Memᴰ}
use ivory_operator.Instances.{Pod}
use ivory_operator.Instances.Stop.{
  result, Stopping, is_stoppable, stop, stop_all, delete_instances, Scaled, OwnErrors,
}
use ivory_operator.Kube.{OwnerReference, Responses, ApiErrors, OwnerReferences}
use ivory_operator.Prelude.{
  sym, ap, eq_iff, ◌∙◌, arith, str_eq, inr, Bool-cases, ◌&&◌, refl, [], inl, All-Memᴰ, is_none, ◌⊎◌,
  All-map, Option-cases, if_elim, true, not, some, false, none, ◌≡◌, ◌∷◌, All, any, List,
}

-- The write stops a pod of the list that is a replica or takes no part in the Patroni cluster: it
-- is of the StatefulSet that controls the pod.
abbrev pub StopsOneOf : ⦃os : OwnerReferences⦄ → List Pod → Scaled → Type 0
StopsOneOf ⦃os⦄ pods c =
    (p : Pod) × Memᴰ p pods
    × (is_stoppable p ≡ true)
    × ((r : OwnerReference) × (os.controller_of p.owners ≡ some r)
        × (r.kind ≡ "StatefulSet")
        × (r.name ≡ c.name))

module _ {E : Type 0} ⦃errs : ApiErrors E⦄ ⦃os : OwnerReferences⦄ (own : OwnErrors E)
    (respond : Responses Scaled E) where
  All-stop :
      (P : Scaled → Type 0) (p : Pod) (s : Stopping E)
      → ((r : OwnerReference)
          → os.controller_of p.owners ≡ some r
          → r.kind ≡ "StatefulSet"
          → P (record { api_version = r.api_version; kind = r.kind; name = r.name }))
      → All P s.scaled
      → All P (stop own respond p s).scaled
  unfolding stop
  All-stop P p s k h = elim (Option-cases (os.controller_of p.owners)) [
    | inl e ↦ rw (e, All) h
    | inr (r, e) ↦
        rw (e, All)
          (if_elim {A = Stopping E} (λ t. All P t.scaled) (str_eq r.kind "StatefulSet")
            (λ q. (k r e (ground (arith, eq_iff r.kind "StatefulSet")), h)) (λ _. h))
  ]

  All-stop_all :
      (P : Scaled → Type 0) (pods : List Pod) (s : Stopping E)
      → All
          (λ p.
            is_stoppable p ≡ true
            → (r : OwnerReference) → os.controller_of p.owners ≡ some r
            → r.kind ≡ "StatefulSet"
            → P (record { api_version = r.api_version; kind = r.kind; name = r.name }))
          pods
      → All P s.scaled
      → All P (stop_all own respond pods s).scaled
  unfolding stop_all
  All-stop_all P [] s k h = h
  All-stop_all P (p ∷ rest) s k h = All-stop_all P rest _ k.1 (
      if_elim {A = Stopping E} (λ t. All P t.scaled) (is_none s.err && is_stoppable p)
        (λ q. All-stop P p s (k.0 (ground arith)) h) (λ _. h))

  stop_all_idle :
      (pods : List Pod) (s : Stopping E)
      → any is_stoppable pods ≡ false
      → stop_all own respond pods s ≡ s
  unfolding stop_all any
  stop_all_idle [] s h = refl
  stop_all_idle (p ∷ rest) s h =
      if_elim {A = Stopping E} (λ t. stop_all own respond rest t ≡ s)
        (is_none s.err && is_stoppable p) (λ q. absurd (false≢true (ground arith)))
        (λ _. stop_all_idle rest s (ground arith))

  stop_all_keeps :
      (pods : List Pod) (s : Stopping E)
      → s.requeue ≡ false
      → (stop_all own respond pods s).requeue ≡ false
  unfolding stop_all
  stop_all_keeps [] s h = h
  stop_all_keeps (p ∷ rest) s h = stop_all_keeps rest _ (
      if_elim {A = Stopping E} (λ t. t.requeue ≡ false) (is_none s.err && is_stoppable p)
        (λ _. refl) (λ _. h))

  stop_all-requeue :
      (pods : List Pod) (s : Stopping E)
      → s.err ≡ none
      → any is_stoppable pods ≡ true
      → (stop_all own respond pods s).requeue ≡ false
  unfolding stop_all any
  stop_all-requeue [] s e h = absurd (false≢true h)
  stop_all-requeue (p ∷ rest) s e h =
      if_elim {A = Stopping E} (λ t. (stop_all own respond rest t).requeue ≡ false)
        (is_none s.err && is_stoppable p) (λ q. stop_all_keeps rest _ refl)
        (λ q. stop_all-requeue rest s e (ground arith))

  -- While more than one instance is left, deleting a cluster stops only instances that are replicas
  -- or take no part in the Patroni cluster, each by the StatefulSet that controls its pod. So the
  -- primary is stopped alone, after the others.
  pub delete_instances-StopsOneOf :
      (p q : Pod) (rest : List Pod)
      → All (StopsOneOf (p ∷ q ∷ rest)) (delete_instances own respond (p ∷ q ∷ rest, none)).scaled
  unfolding delete_instances
  delete_instances-StopsOneOf p q rest =
      All-stop_all (StopsOneOf (p ∷ q ∷ rest)) (p ∷ q ∷ rest) (result true)
        (All-map (λ x. Memᴰ x (p ∷ q ∷ rest)) _ (p ∷ q ∷ rest)
          (λ x m st r e k. (x, m, st, (r, e, k, refl))) (All-Memᴰ (p ∷ q ∷ rest)))
        tt

  -- With more than one instance left, the result asks to be called again exactly when no instance
  -- can be stopped yet, and then nothing is written.
  pub delete_instances-requeue :
      (p q : Pod) (rest : List Pod)
      → let out = delete_instances own respond (p ∷ q ∷ rest, none) in
        (out.requeue ≡ not (any is_stoppable (p ∷ q ∷ rest)))
        × ((any is_stoppable (p ∷ q ∷ rest) ≡ true) ⊎ (out.scaled ≡ []))
  unfolding delete_instances
  delete_instances-requeue p q rest = elim (Bool-cases (any is_stoppable (p ∷ q ∷ rest))) [
    | inl e ↦ (stop_all-requeue (p ∷ q ∷ rest) (result true) refl e ∙ ap not (sym e), inl e)
    | inr e ↦ (
      ap (λ (t : Stopping E). t.requeue) (stop_all_idle (p ∷ q ∷ rest) (result true) e)
          ∙ ap not (sym e),
      inr (ap (λ (t : Stopping E). t.scaled) (stop_all_idle (p ∷ q ∷ rest) (result true) e)),
    )
  ]
