-- ===== src/Instances/Observing.antt =====
-- What newObservedInstances keeps of the objects it is given.

-- The name of an instance, and whether it lacks a runner: what a pod does not change.
use ivory_operator.Instances.{◌∷◌, Pod, Instance}
use ivory_operator.Instances.Observe.{
  lacks_runner, add_instance, ObservedInstances, instance_at, add_pod_at,
}
use ivory_operator.Prelude.{
  eq_iff, zero, sym, refl, ap, suc, lookup-insert, ◌∙◌, [], arith, inr, some≢none, false, ◌∷◌, inl,
  true, if◌then◌else◌, some, none, ◌++◌, Bool-cases, is_none, ◌≡◌, length, Bool, str_eq, lookup,
  Option, ℕ, List, String,
}

abbrev pub key : Instance → String × Bool
key i = (i.name, is_none i.runner)

unfoldable pub key_at : ℕ → List Instance → Option (String × Bool)
key_at at [] = none
key_at zero (i ∷ rest) = some (key i)
key_at (suc at) (i ∷ rest) = key_at at rest

pub key_at-add_pod_at :
    (n at : ℕ) (p : Pod) (is : List Instance) → key_at n (add_pod_at at p is) ≡ key_at n is
unfolding key_at add_pod_at
key_at-add_pod_at n at p [] = refl
key_at-add_pod_at zero zero p (i ∷ rest) = refl
key_at-add_pod_at (suc n) zero p (i ∷ rest) = refl
key_at-add_pod_at zero (suc at) p (i ∷ rest) = refl
key_at-add_pod_at (suc n) (suc at) p (i ∷ rest) = key_at-add_pod_at n at p rest

pub key_at-last :
    (is : List Instance) (i : Instance) → key_at (length is) (is ++ i ∷ []) ≡ some (key i)
unfolding key_at
key_at-last [] i = refl
key_at-last (j ∷ is) i = key_at-last is i

pub key_at-append :
    (n : ℕ) (is : List Instance) (i : Instance) {k : String × Bool}
    → key_at n is ≡ some k
    → key_at n (is ++ i ∷ []) ≡ some k
unfolding key_at
key_at-append n [] i h = absurd (some≢none (sym h))
key_at-append zero (j ∷ is) i h = h
key_at-append (suc n) (j ∷ is) i h = key_at-append n is i h

pub lacks_runner_at :
    (n : ℕ) (is : List Instance) {k : String × Bool}
    → key_at n is ≡ some k
    → lacks_runner (instance_at n is) ≡ k.1
unfolding key_at instance_at lacks_runner
lacks_runner_at n [] h = absurd (some≢none (sym h))
lacks_runner_at zero (j ∷ is) h = cc
lacks_runner_at (suc n) (j ∷ is) h = lacks_runner_at n is h

-- The map by_name points to instances of that name.
unfoldable pub Coherent : ObservedInstances → Type 0
Coherent o =
    (n : String) (at : ℕ)
    → lookup n o.by_name ≡ some at
    → (b : Bool) × (key_at at o.for_cluster ≡ some (n, b))

-- The map by_name points to an instance of that name that has a runner.
unfoldable pub Running : String → ObservedInstances → Type 0
Running n o =
    (at : ℕ) × (lookup n o.by_name ≡ some at) × (key_at at o.for_cluster ≡ some (n, false))

module _ (set : String) (i : Instance) (o : ObservedInstances) where
  lookup_added :
      (n : String)
      → lookup n (add_instance set i o).by_name
        ≡ (if str_eq i.name n then some (length o.for_cluster) else lookup n o.by_name)
  unfolding add_instance
  lookup_added n = lookup-insert i.name n (length o.for_cluster) o.by_name

  added_here :
      (n : String) (at : ℕ)
      → str_eq i.name n ≡ true
      → lookup n (add_instance set i o).by_name ≡ some at
      → key_at at (add_instance set i o).for_cluster ≡ some (n, is_none i.runner)
  unfolding add_instance
  added_here n at q e =
      ap (λ m. key_at m (o.for_cluster ++ i ∷ [])) place
      ∙ (key_at-last o.for_cluster i ∙ ap (λ m. some (m, is_none i.runner)) ((eq_iff i.name n).0 q))
    where
      place : at ≡ length o.for_cluster
      place = ground (arith, lookup_added n)

  pub Coherent-add_instance : Coherent o → Coherent (add_instance set i o)
  unfolding Coherent add_instance
  Coherent-add_instance h n at e = elim (Bool-cases (str_eq i.name n)) [
    | inl q ↦ (is_none i.runner, added_here n at q e)
    | inr q ↦
        (let (b, k) = h n at (ground (arith, lookup_added n)) in
          (b, key_at-append at o.for_cluster i k))
  ]

  pub Running-add_instance :
      (n : String) → str_eq i.name n ≡ false → Running n o → Running n (add_instance set i o)
  unfolding Running add_instance
  Running-add_instance n q (at, e, k) =
      (at, lookup_added n ∙ ground arith, key_at-append at o.for_cluster i k)

  pub Running-added :
      (n : String)
      → str_eq i.name n ≡ true
      → is_none i.runner ≡ false
      → Running n (add_instance set i o)
  unfolding Running
  Running-added n q r = (
    length o.for_cluster,
    here,
    added_here n (length o.for_cluster) q here ∙ ap (λ b. some (n, b)) r,
  )
    where
      here : lookup n (add_instance set i o).by_name ≡ some (length o.for_cluster)
      here = lookup_added n ∙ ground arith
