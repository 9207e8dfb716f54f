-- ===== src/Instances/Reuse.antt =====
-- findAvailableInstanceNames: the names of instances that are free for reuse.

use mathlib.Core.Bool.{false≢true}
use mathlib.Core.List.{Memᴰ}
use ivory_operator.Instances.{
  label_instance_set, label_instance, role_postgres_wal, role_postgres_data, some, Runner, ◌∷◌, Pod,
  SetSpec, Instance,
}
use ivory_operator.Instances.Observe.{
  is_volume, volumes_with_wal, find_available_instance_names, Volume, add_instance, lacks_runner,
  add_pod_at, ObservedInstances, instance_named, add_runners, add_pods, new_observed_instances,
  place_pod,
}
use ivory_operator.Instances.Observed.{is_of}
use ivory_operator.Instances.Observing.{
  Running-add_instance, lacks_runner_at, Running-added, key_at-add_pod_at, Running,
}
use ivory_operator.Instances.Scale.{instance_of}
use ivory_operator.Prelude.{
  if_elim, All-mapped, if◌then◌else◌, map, All_at, All-filter-Memᴰ, All-append, filter, any_of_Memᴰ,
  ◌&&◌, All-map, label, All, Bool, none, length, eq_iff, arith, ap, inr, sym, some≢none, inl,
  Bool-cases, ◌⊎◌, refl, str_eq, ◌∙◌, true, [], false, lookup, Option, ◌≡◌, List, is_none, GoMap, ℕ,
  any, String,
}

-- The instance that a pod adds.
abbrev newcomer : GoMap SetSpec → Pod → Instance
newcomer sets p = record {
  name = instance_of p;
  pods = [];
  runner = none;
  spec = lookup (label label_instance_set p.labels) sets;
}

module _ (n : String) where
  Running-add_pod_at :
      (at : ℕ) (p : Pod) (o : ObservedInstances)
      → Running n o
      → Running n (record o { for_cluster = add_pod_at at p o.for_cluster })
  unfolding Running
  Running-add_pod_at at p o (to, e, k) = (to, e, key_at-add_pod_at to at p o.for_cluster ∙ k)

  Running-place_pod :
      (sets : GoMap SetSpec) (p : Pod) (found : Option ℕ) (o : ObservedInstances)
      → lookup (instance_of p) o.by_name ≡ found
      → Running n o
      → Running n (place_pod sets p found o)
  unfolding place_pod Running
  Running-place_pod sets p (some at) o e h = Running-add_pod_at at p o h
  Running-place_pod sets p none o e h = elim (Bool-cases (str_eq (instance_of p) n)) [
    | inl q ↦
        absurd (
          some≢none (sym (ap (λ m. lookup m o.by_name) ((eq_iff (instance_of p) n).0 q) ∙ h.1) ∙ e))
    | inr q ↦
        Running-add_pod_at (length o.for_cluster) p
          (add_instance (label label_instance_set p.labels) (newcomer sets p) o)
          (Running-add_instance (label label_instance_set p.labels) (newcomer sets p) o n q h)
  ]

  Running-add_pods :
      (sets : GoMap SetSpec) (pods : List Pod) (o : ObservedInstances)
      → Running n o
      → Running n (add_pods sets pods o)
  unfolding add_pods
  Running-add_pods sets [] o h = h
  Running-add_pods sets (p ∷ rest) o h =
      Running-add_pods sets rest _ (Running-place_pod sets p _ o refl h)

  Running-add_runner :
      (set : String) (i : Instance) (o : ObservedInstances)
      → is_none i.runner ≡ false
      → (str_eq i.name n ≡ true) ⊎ Running n o
      → Running n (add_instance set i o)
  Running-add_runner set i o r h = elim (Bool-cases (str_eq i.name n)) [
    | inl q ↦ Running-added set i o n q r
    | inr q ↦
        Running-add_instance set i o n q
          (elim h [ inl e ↦ absurd (false≢true (sym q ∙ e)) | inr k ↦ k ])
  ]

  Running-add_runners :
      (sets : GoMap SetSpec) (rs : List Runner) (o : ObservedInstances)
      → (any (is_of n) rs ≡ true) ⊎ Running n o
      → Running n (add_runners sets rs o)
  unfolding add_runners any
  Running-add_runners sets [] o h = elim h [ inl e ↦ absurd (false≢true e) | inr k ↦ k ]
  Running-add_runners sets (r ∷ rest) o h =
      Running-add_runners sets rest _ (elim (Bool-cases (is_of n r)) [
        | inl q ↦ inr (Running-add_runner _ _ o refl (inl q))
        | inr q ↦ elim h [
          | inl e ↦ inl (ground arith)
          | inr k ↦ inr (Running-add_runner _ _ o refl (inr k))
        ]
      ])

  lacks_runner-Running :
      (o : ObservedInstances) → Running n o → lacks_runner (instance_named n o) ≡ false
  unfolding instance_named Running
  lacks_runner-Running o (at, e, k) = rw (e, instance_named) (lacks_runner_at at o.for_cluster k)

  keeps_its_runner :
      (specs : List SetSpec) (runners : List Runner) (pods : List Pod)
      → any (is_of n) runners ≡ true
      → lacks_runner (instance_named n (new_observed_instances specs runners pods)) ≡ false
  unfolding new_observed_instances
  keeps_its_runner specs runners pods h =
      lacks_runner-Running _ (Running-add_pods _ pods _ (Running-add_runners _ runners _ (inl h)))

-- There is a claim of this role, for this instance of this set, that is not terminating.
abbrev pub has_volume : String → String → List Volume → String → Bool
has_volume role set volumes name =
    any (λ v. is_volume role set v && str_eq (label label_instance v.labels) name) volumes

has_volume_of_Memᴰ :
    (role set : String) (volumes : List Volume) (v : Volume) (name : String)
    → Memᴰ v volumes
    → is_volume role set v ≡ true
    → str_eq (label label_instance v.labels) name ≡ true
    → has_volume role set volumes name ≡ true
has_volume_of_Memᴰ role set volumes v name m h k =
    any_of_Memᴰ (λ w. is_volume role set w && str_eq (label label_instance w.labels) name) volumes m
      (ground arith)

All-data :
    (set : String) (volumes : List Volume)
    → All
        (λ v. has_volume role_postgres_data set volumes (label label_instance v.labels) ≡ true)
        (filter (is_volume role_postgres_data set) volumes)
All-data set volumes =
    All-map _ _ (filter (is_volume role_postgres_data set) volumes)
      (λ v h.
        has_volume_of_Memᴰ role_postgres_data set volumes v _ h.0 h.1
          ((eq_iff (label label_instance v.labels) _).1 refl))
      (All-filter-Memᴰ (is_volume role_postgres_data set) volumes)

abbrev HasBoth : String → List Volume → Volume → Type 0
HasBoth set volumes v =
    (has_volume role_postgres_data set volumes (label label_instance v.labels) ≡ true)
    × (has_volume role_postgres_wal set volumes (label label_instance v.labels) ≡ true)

All-volumes_with_wal :
    (set : String) (volumes vs : List Volume)
    → All (λ v. has_volume role_postgres_data set volumes (label label_instance v.labels) ≡ true) vs
    → All (HasBoth set volumes) (volumes_with_wal set volumes vs)
unfolding volumes_with_wal
All-volumes_with_wal set volumes [] h = tt
All-volumes_with_wal set volumes (v ∷ rest) h =
    All-append (HasBoth set volumes) (filter matches volumes) _
      (All-map _ (HasBoth set volumes) (filter matches volumes)
        (λ w k. (
          ap (λ n. has_volume role_postgres_data set volumes n)
                ((eq_iff (label label_instance w.labels) (label label_instance v.labels)).0
                  (ground (arith, k.1)))
              ∙ h.0,
          has_volume_of_Memᴰ role_postgres_wal set volumes w _ k.0 (ground (arith, k.1))
              ((eq_iff (label label_instance w.labels) _).1 refl),
        ))
        (All-filter-Memᴰ matches volumes))
      (All-volumes_with_wal set volumes rest h.1)
  where
    matches : Volume → Bool
    matches w =
        is_volume role_postgres_wal set w
        && str_eq (label label_instance w.labels) (label label_instance v.labels)

abbrev HasVolumes : SetSpec → List Volume → String → Type 0
HasVolumes set volumes name =
    (has_volume role_postgres_data set.name volumes name ≡ true)
    × ((set.has_wal ≡ false) ⊎ (has_volume role_postgres_wal set.name volumes name ≡ true))

All-set_volumes :
    (set : SetSpec) (volumes : List Volume)
    → All (HasVolumes set volumes) (
        map
          (λ v. label label_instance v.labels)
          (if set.has_wal
            then volumes_with_wal set.name volumes
                (filter (is_volume role_postgres_data set.name) volumes)
            else filter (is_volume role_postgres_data set.name) volumes))
All-set_volumes set volumes =
    All-mapped (HasVolumes set volumes) (λ (v : Volume). label label_instance v.labels) _
      (if_elim {A = List Volume} (All (λ v. HasVolumes set volumes (label label_instance v.labels)))
        set.has_wal
        (λ _.
          All-map (HasBoth set.name volumes) _ _ (λ v h. (h.0, inr h.1))
            (All-volumes_with_wal set.name volumes _ (All-data set.name volumes)))
        (λ e.
          All-map _ _ (filter (is_volume role_postgres_data set.name) volumes) (λ v h. (h, inl e))
            (All-data set.name volumes)))

-- A name that is free for reuse in a set: no StatefulSet has it, and its instance has the volumes
-- that the set asks for, none of them terminating.
abbrev pub IsReusable : SetSpec → List Runner → List Volume → String → Type 0
IsReusable set runners volumes name =
    (any (is_of name) runners ≡ false)
    × (has_volume role_postgres_data set.name volumes name ≡ true)
    × ((set.has_wal ≡ false) ⊎ (has_volume role_postgres_wal set.name volumes name ≡ true))

-- Every name that findAvailableInstanceNames returns for the observed instances is the name of no
-- StatefulSet, is the instance of a data volume of the set that is not terminating and, where the
-- set asks for a WAL volume, of such a WAL volume too.
pub find_available_instance_names-IsReusable :
    (set : SetSpec) (specs : List SetSpec) (runners : List Runner) (pods : List Pod)
    (volumes : List Volume)
    → All
        (IsReusable set runners volumes)
        (find_available_instance_names set (new_observed_instances specs runners pods) volumes)
unfolding find_available_instance_names
find_available_instance_names-IsReusable set specs runners pods volumes =
    All-map _ (IsReusable set runners volumes) _
      (λ name h.
        let (has_data, has_wal) =
          All_at (HasVolumes set volumes) _ (All-set_volumes set volumes) h.0 in
        (
          elim (Bool-cases (any (is_of name) runners)) [
            | inl e ↦ absurd (false≢true (sym (keeps_its_runner name specs runners pods e) ∙ h.1))
            | inr e ↦ e
          ],
          has_data,
          has_wal,
        ))
      (All-filter-Memᴰ _ _)
