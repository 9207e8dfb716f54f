-- ===== src/Instances/Writable.antt =====
-- Which pod writablePod gives.

use mathlib.Core.Bool.{false≢true}
use mathlib.Core.List.{Memᴰ}
use ivory_operator.Instances.{Pod, ◌∷◌, of_one_pod, Instance, is_terminating}
use ivory_operator.Instances.Observe.{
  first_pod, ObservedInstances, is_writable_in, writable_pod_in, writable_pod,
}
use ivory_operator.Prelude.{
  ◌∙◌, if◌then◌else◌, ap, sym, subst, Bool-cases, inr, inl, refl, none, arith, false, true, [], ◌≡◌,
  some, Option, List, String, any,
}

lone_pod :
    (container : String) (i : Instance) (pods : List Pod)
    → is_writable_in container (record i { pods = pods }) ≡ true
    → (p : Pod) × (pods ≡ p ∷ [])
unfolding is_writable_in is_terminating of_one_pod
lone_pod container i [] h = absurd (false≢true h)
lone_pod container i (p ∷ []) h = (p, refl)
lone_pod container i (p ∷ q ∷ rest) h = absurd (false≢true h)

first_pod-lone : (pods : List Pod) (p : Pod) → pods ≡ p ∷ [] → first_pod pods ≡ some p
unfolding first_pod
first_pod-lone pods p q = ap first_pod q

-- What was found among the instances: the only pod of one that meets the conditions, or nothing
-- where none does.
abbrev pub Chosen : String → List Instance → Option (Pod × Instance) → Type 0
Chosen container is none = any (is_writable_in container) is ≡ false
Chosen container is (some (p, i)) =
    Memᴰ i is × (i.pods ≡ p ∷ []) × (is_writable_in container i ≡ true)

Chosen-cons :
    (container : String) (i : Instance) (rest : List Instance) (found : Option (Pod × Instance))
    → is_writable_in container i ≡ false
    → Chosen container rest found
    → Chosen container (i ∷ rest) found
unfolding any
Chosen-cons container i rest none e h = ground arith
Chosen-cons container i rest (some (p, j)) e (m, q, w) = (Memᴰ.tail m, q, w)

Chosen-writable_pod_in :
    (container : String) (is : List Instance) → Chosen container is (writable_pod_in container is)
unfolding writable_pod_in any
Chosen-writable_pod_in container [] = refl
Chosen-writable_pod_in container (i ∷ rest) =
    let ih = Chosen-writable_pod_in container rest in
    elim (Bool-cases (is_writable_in container i)) [
      | inl e ↦
          (let (p, q) = lone_pod container i i.pods e in
            subst (Chosen container (i ∷ rest)) (sym (first_found p q e)) (Memᴰ.head refl, q, e))
      | inr e ↦
          subst (Chosen container (i ∷ rest)) (sym (passed_over e))
            (Chosen-cons container i rest (writable_pod_in container rest) e ih)
    ]
  where
    first_found :
        (p : Pod)
        → i.pods ≡ p ∷ []
        → is_writable_in container i ≡ true
        → writable_pod_in container (i ∷ rest) ≡ some (p, i)
    first_found p q e =
        ap
          (λ o. elim o [
            | none ↦ writable_pod_in container rest
            | some p' ↦
                if is_writable_in container i then some (p', i) else writable_pod_in container rest
          ])
          (first_pod-lone i.pods p q)
        ∙ ap (λ b. if b then some (p, i) else writable_pod_in container rest) e

    passed_over :
        is_writable_in container i ≡ false
        → writable_pod_in container (i ∷ rest) ≡ writable_pod_in container rest
    passed_over e =
        ap
          (λ b. elim (first_pod i.pods) [
            | none ↦ writable_pod_in container rest
            | some p' ↦ if b then some (p', i) else writable_pod_in container rest
          ])
          e
        ∙ same_either (first_pod i.pods)
      where
        same_either :
            (o : Option Pod)
            → (elim o [
              | none ↦ writable_pod_in container rest
              | some p' ↦ writable_pod_in container rest
            ])
              ≡ writable_pod_in container rest
        same_either none = refl
        same_either (some p') = refl

-- The pod that writablePod gives is the only pod of its instance, one of the cluster that is known
-- not to be terminating, to be writable, and to run the container. It gives none only when no
-- instance is such.
pub writable_pod-Chosen :
    (container : String) (o : ObservedInstances)
    → Chosen container o.for_cluster (writable_pod container (some o))
unfolding writable_pod
writable_pod-Chosen container o = Chosen-writable_pod_in container o.for_cluster
