-- ===== src/Instances/Observed.antt =====
-- What newObservedInstances does with each pod and runner, and the names that are free for reuse.

use ivory_operator.Instances.{SetSpec, Runner, Pod, Instance}
use ivory_operator.Instances.Observe.{
  new_observed_instances, add_pod_at, ObservedInstances, place_pod, add_instance, add_pods,
  add_runners,
}
use ivory_operator.Instances.Observing.{
  key_at-last, key_at-add_pod_at, Coherent-add_instance, key_at, Coherent,
}
use ivory_operator.Instances.Scale.{instance_of, cluster_pods}
use ivory_operator.Prelude.{
  none, zero, true, length, suc, lookup, sym, some≢none, Option, ap, refl, some, ◌∙◌, arith,
  count-append, subst, ◌+◌, [], ◌≡◌, ◌∷◌, GoMap, ◌++◌, str_eq, ℕ, All, count, Bool, String, List,
}

abbrev pub is_of : String → Runner → Bool
is_of name r = str_eq r.name name

count-cluster_pods-append :
    (q : Pod → Bool) (is : List Instance) (i : Instance)
    → count q (cluster_pods (is ++ i ∷ [])) ≡ count q (cluster_pods is) + count q i.pods
unfolding cluster_pods count
count-cluster_pods-append q [] i = count-append q i.pods [] ∙ omega arith
count-cluster_pods-append q (j ∷ is) i = omega (
  arith,
  count-append q j.pods (cluster_pods (is ++ i ∷ [])),
  count-append q j.pods (cluster_pods is),
  count-cluster_pods-append q is i,
)

count-cluster_pods-add_pod_at :
    (q : Pod → Bool) (at : ℕ) (p : Pod) (is : List Instance) {k : String × Bool}
    → key_at at is ≡ some k
    → count q (cluster_pods (add_pod_at at p is)) ≡ count q (p ∷ []) + count q (cluster_pods is)
unfolding cluster_pods key_at add_pod_at
count-cluster_pods-add_pod_at q at p [] h = absurd (some≢none (sym h))
count-cluster_pods-add_pod_at q zero p (i ∷ rest) h = omega (
  arith,
  count-append q (i.pods ++ p ∷ []) (cluster_pods rest),
  count-append q i.pods (p ∷ []),
  count-append q i.pods (cluster_pods rest),
)
count-cluster_pods-add_pod_at q (suc at) p (i ∷ rest) h = omega (
  arith,
  count-append q i.pods (cluster_pods (add_pod_at at p rest)),
  count-append q i.pods (cluster_pods rest),
  count-cluster_pods-add_pod_at q at p rest h,
)

abbrev pub IsOwnPods : Instance → Type 0
IsOwnPods i = All (λ p. instance_of p ≡ i.name) i.pods

All_snoc :
    {A : Type 0} (P : A → Type 0) (xs : List A) (x : A) → All P xs → P x → All P (xs ++ x ∷ [])
All_snoc P [] x h k = (k, tt)
All_snoc P (y ∷ xs) x h k = (h.0, All_snoc P xs x h.1 k)

All-add_pod_at :
    (at : ℕ) (p : Pod) (is : List Instance) (b : Bool)
    → key_at at is ≡ some (instance_of p, b)
    → All IsOwnPods is
    → All IsOwnPods (add_pod_at at p is)
unfolding key_at add_pod_at
All-add_pod_at at p [] b h k = absurd (some≢none (sym h))
All-add_pod_at zero p (i ∷ rest) b h k =
    (All_snoc (λ x. instance_of x ≡ i.name) i.pods p k.0 cc, k.1)
All-add_pod_at (suc at) p (i ∷ rest) b h k = (k.0, All-add_pod_at at p rest b h k.1)

-- What holds after every step of newObservedInstances, `seen` being the pods placed so far.
record Placed (seen : Pod → Bool) (n : ℕ) (o : ObservedInstances) : Type 0 where
  coherent : Coherent o
  all_placed : count seen (cluster_pods o.for_cluster) ≡ n
  own : All IsOwnPods o.for_cluster

Placed-add_instance :
    (q : Pod → Bool) (n : ℕ) (set : String) (i : Instance) (o : ObservedInstances)
    → i.pods ≡ []
    → Placed q n o
    → Placed q n (add_instance set i o)
unfolding add_instance count
Placed-add_instance q n set i o e h = record {
  coherent = Coherent-add_instance set i o h.coherent;
  all_placed =
      count-cluster_pods-append q o.for_cluster i ∙ omega (arith, h.all_placed, ap (count q) e);
  own =
      All_snoc IsOwnPods o.for_cluster i h.own
        (subst (All (λ p. instance_of p ≡ i.name)) (sym e) tt);
}

Placed-add_runners :
    (q : Pod → Bool) (n : ℕ) (sets : GoMap SetSpec) (rs : List Runner) (o : ObservedInstances)
    → Placed q n o
    → Placed q n (add_runners sets rs o)
unfolding add_runners
Placed-add_runners q n sets [] o h = h
Placed-add_runners q n sets (r ∷ rest) o h =
    Placed-add_runners q n sets rest _ (Placed-add_instance q n _ _ o refl h)

Placed-add_pod_at :
    (q : Pod → Bool) (n at : ℕ) (p : Pod) (b : Bool) (o : ObservedInstances)
    → key_at at o.for_cluster ≡ some (instance_of p, b)
    → Placed q n o
    → Placed q (count q (p ∷ []) + n) (record o { for_cluster = add_pod_at at p o.for_cluster })
unfolding Coherent
Placed-add_pod_at q n at p b o e h = record {
  coherent = λ m to k.
      (let (c, l) = h.coherent m to k in (c, key_at-add_pod_at to at p o.for_cluster ∙ l));
  all_placed =
      count-cluster_pods-add_pod_at q at p o.for_cluster e
      ∙ ap (λ m. count q (p ∷ []) + m) h.all_placed;
  own = All-add_pod_at at p o.for_cluster b e h.own;
}

Placed-place_pod :
    (q : Pod → Bool) (n : ℕ) (sets : GoMap SetSpec) (p : Pod) (found : Option ℕ)
    (o : ObservedInstances)
    → lookup (instance_of p) o.by_name ≡ found
    → Placed q n o
    → Placed q (count q (p ∷ []) + n) (place_pod sets p found o)
unfolding place_pod Coherent
Placed-place_pod q n sets p (some at) o e h =
    (let (b, k) = h.coherent (instance_of p) at e in Placed-add_pod_at q n at p b o k h)
Placed-place_pod q n sets p none o e h =
    Placed-add_pod_at q n (length o.for_cluster) p true _
      (unfold add_instance in key_at-last o.for_cluster _) (Placed-add_instance q n _ _ o refl h)

Placed-add_pods :
    (q : Pod → Bool) (n : ℕ) (sets : GoMap SetSpec) (pods : List Pod) (o : ObservedInstances)
    → Placed q n o
    → Placed q (count q pods + n) (add_pods sets pods o)
unfolding add_pods count
Placed-add_pods q n sets [] o h = subst (λ m. Placed q m o) (omega arith) h
Placed-add_pods q n sets (p ∷ rest) o h =
    subst (λ m. Placed q m (add_pods sets (p ∷ rest) o)) (ground arith)
      (Placed-add_pods q (count q (p ∷ []) + n) sets rest _
        (Placed-place_pod q n sets p _ o refl h))

Placed-new :
    (q : Pod → Bool) (specs : List SetSpec) (runners : List Runner) (pods : List Pod)
    → Placed q (count q pods + 0) (new_observed_instances specs runners pods)
unfolding new_observed_instances Coherent lookup cluster_pods count
Placed-new q specs runners pods = Placed-add_pods q 0 _ pods _ (
    Placed-add_runners q 0 _ runners _
      (record { coherent = λ n at e. absurd (some≢none (sym e)); all_placed = refl; own = tt }))

-- Observing a cluster gives each pod to an instance whose name is the pod's instance label, and
-- loses and doubles none: of the pods that meet a test, the instances have as many as were read.
pub new_observed_instances-pods :
    (specs : List SetSpec) (runners : List Runner) (pods : List Pod)
    → let is = (new_observed_instances specs runners pods).for_cluster in
      All IsOwnPods is × ((q : Pod → Bool) → count q (cluster_pods is) ≡ count q pods)
new_observed_instances-pods specs runners pods = (
  (Placed-new (λ _. true) specs runners pods).own,
  λ q. (Placed-new q specs runners pods).all_placed ∙ omega arith,
)
