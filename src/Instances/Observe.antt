-- ===== src/Instances/Observe.antt =====
-- instance.go: newObservedInstances, writablePod, observeInstances and findAvailableInstanceNames.

-- The struct observedInstances. Its pointers to instances are shared: a pointer is the place in
-- `for_cluster` of what it points to, since forCluster has every instance.
use ivory_operator.Instances.{
  is_running, pod_matches_pod_template, is_ready, surely, label_role, is_writable,
  label_instance_set, label_instance, role_postgres_data, is_terminating, some, role_postgres_wal,
  Instance, ◌∷◌, Pod, Runner, SetSpec,
}
use ivory_operator.Prelude.{
  false, zero, ◌||◌, map, length, str_eq, ◌&&◌, suc, ◌+◌, label, none, insert, ◌++◌, lookup, not,
  is_none, any, true, Bool, if◌then◌else◌, [], filter, String, GoMap, List, ℕ, Labels, Option,
}

pub record ObservedInstances : Type 0 where
  pub by_name : GoMap ℕ
  pub by_set : GoMap (List ℕ)
  pub for_cluster : List Instance
  pub set_names : List String

-- Insert of sets.String
unfoldable pub add_name : String → List String → List String
add_name name names = if any (str_eq name) names then names else names ++ name ∷ []

-- The value of a map of lists at a key that it may lack.
unfoldable pub entries : {V : Type 0} → Option (List V) → List V
entries none = []
entries (some vs) = vs

-- A new instance, in every field.
unfoldable pub add_instance : String → Instance → ObservedInstances → ObservedInstances
unfolding entries
add_instance set i o = record {
  by_name = insert i.name (length o.for_cluster) o.by_name;
  by_set = insert set (entries (lookup set o.by_set) ++ length o.for_cluster ∷ []) o.by_set;
  for_cluster = o.for_cluster ++ i ∷ [];
  set_names = add_name set o.set_names;
}

-- The loop over the sets of the specification.
unfoldable pub index_sets : List SetSpec → GoMap SetSpec → List String → GoMap SetSpec × List String
index_sets [] sets names = (sets, names)
index_sets (s ∷ rest) sets names = index_sets rest (insert s.name s sets) (add_name s.name names)

unfoldable pub add_runners : GoMap SetSpec → List Runner → ObservedInstances → ObservedInstances
unfolding add_instance
add_runners sets [] o = o
add_runners sets (r ∷ rest) o =
    let set = label label_instance_set r.labels in
    add_runners sets rest (
      add_instance set
        (record { name = r.name; pods = []; runner = some r; spec = lookup set sets }) o)

-- The append to the pods of the instance at a place.
unfoldable pub add_pod_at : ℕ → Pod → List Instance → List Instance
add_pod_at at p [] = []
add_pod_at zero p (i ∷ rest) = record i { pods = i.pods ++ p ∷ [] } ∷ rest
add_pod_at (suc at) p (i ∷ rest) = i ∷ add_pod_at at p rest

-- A pod, once its instance was looked for by name.
unfoldable pub place_pod : GoMap SetSpec → Pod → Option ℕ → ObservedInstances → ObservedInstances
unfolding add_instance add_pod_at
place_pod sets p (some at) o = record o { for_cluster = add_pod_at at p o.for_cluster }
place_pod sets p none o =
    let set = label label_instance_set p.labels in
    let instance_name = label label_instance p.labels in
    let added =
      add_instance set
        (record { name = instance_name; pods = []; runner = none; spec = lookup set sets }) o in
    record added { for_cluster = add_pod_at (length o.for_cluster) p added.for_cluster }

unfoldable pub add_pods : GoMap SetSpec → List Pod → ObservedInstances → ObservedInstances
unfolding place_pod
add_pods sets [] o = o
add_pods sets (p ∷ rest) o =
    add_pods sets rest (place_pod sets p (lookup (label label_instance p.labels) o.by_name) o)

abbrev pub nothing_observed : List String → ObservedInstances
nothing_observed names = record { by_name = []; by_set = []; for_cluster = []; set_names = names }

unfoldable pub new_observed_instances : List SetSpec → List Runner → List Pod → ObservedInstances
unfolding index_sets add_runners add_pods
new_observed_instances specs runners pods =
    let (sets, names) = index_sets specs [] [] in
    add_pods sets pods (add_runners sets runners (nothing_observed names))

-- The conditions of writablePod on an instance.
unfoldable pub is_writable_in : String → Instance → Bool
is_writable_in container i =
    let (terminating, known_terminating) = is_terminating i in
    let (writable, known_writable) = is_writable i in
    if terminating || not known_terminating
    then false
    else if not writable || not known_writable
    then false
    else surely (is_running container i)

-- `instance.Pods[0]`, where there is one.
unfoldable pub first_pod : List Pod → Option Pod
first_pod [] = none
first_pod (p ∷ rest) = some p

unfoldable pub writable_pod_in : String → List Instance → Option (Pod × Instance)
unfolding is_writable_in first_pod
writable_pod_in container [] = none
writable_pod_in container (i ∷ rest) =
    let later = writable_pod_in container rest in
    elim (first_pod i.pods) [
      | none ↦ later
      | some p ↦ if is_writable_in container i then some (p, i) else later
    ]

unfoldable pub writable_pod : String → Option ObservedInstances → Option (Pod × Instance)
unfolding writable_pod_in
writable_pod container none = none
writable_pod container (some o) = writable_pod_in container o.for_cluster

-- v1beta1.PostgresInstanceSetStatus
pub record SetStatus : Type 0 where
  pub name : String
  pub replicas : ℕ
  pub ready_replicas : ℕ
  pub updated_replicas : ℕ

-- The instance that a pointer points to.
unfoldable pub instance_at : ℕ → List Instance → Option Instance
instance_at at [] = none
instance_at zero (i ∷ rest) = some i
instance_at (suc at) (i ∷ rest) = instance_at at rest

-- The body of the loop over the instances of a set.
unfoldable pub count_instance : Option Instance → SetStatus → SetStatus
count_instance none s = s
count_instance (some i) s = record s {
  replicas = s.replicas + length i.pods;
  ready_replicas = if surely (is_ready i) then suc s.ready_replicas else s.ready_replicas;
  updated_replicas =
      if surely (pod_matches_pod_template i) then suc s.updated_replicas else s.updated_replicas;
}

unfoldable pub count_instances : List Instance → List ℕ → SetStatus → SetStatus
unfolding count_instance instance_at
count_instances store [] s = s
count_instances store (at ∷ rest) s =
    count_instances store rest (count_instance (instance_at at store) s)

unfoldable pub fill_status : ObservedInstances → List String → List SetStatus
unfolding count_instances entries
fill_status o [] = []
fill_status o (name ∷ rest) =
    count_instances o.for_cluster (entries (lookup name o.by_set))
      (record { name = name; replicas = 0; ready_replicas = 0; updated_replicas = 0 })
    ∷ fill_status o rest

-- observeInstances, from the answers of the two calls of List. The second is only made when the
-- first succeeds. `sorted` is the order of sets.String.List. The result has the status of the sets.
unfoldable pub observe_instances :
    {E : Type 0}
    → (List String → List String)
    → List SetSpec
    → List Pod × Option E
    → List Runner × Option E
    → ObservedInstances × List SetStatus × Option E
unfolding new_observed_instances fill_status
observe_instances sorted specs (pods, err) (runners, runners_err) =
    let observed = new_observed_instances specs (if is_none err then runners else []) pods in
    (
      observed,
      fill_status observed (sorted observed.set_names),
      if is_none err then runners_err else err,
    )

-- corev1.PersistentVolumeClaim; `deleting` is whether its DeletionTimestamp is set.
pub record Volume : Type 0 where
  pub labels : Labels
  pub deleting : Bool

-- A claim of a role for a set that is not terminating.
unfoldable pub is_volume : String → String → Volume → Bool
is_volume role set v =
    not v.deleting
    && (str_eq (label label_role v.labels) role && str_eq (label label_instance_set v.labels) set)

-- The loops that look for the WAL claims of the instances that have data.
unfoldable pub volumes_with_wal : String → List Volume → List Volume → List Volume
volumes_with_wal set all [] = []
volumes_with_wal set all (v ∷ rest) =
    filter
      (λ w.
        is_volume role_postgres_wal set w
        && str_eq (label label_instance w.labels) (label label_instance v.labels))
      all
    ++ volumes_with_wal set all rest

-- `instance == nil || instance.Runner == nil`
unfoldable pub lacks_runner : Option Instance → Bool
lacks_runner none = true
lacks_runner (some i) = is_none i.runner

unfoldable pub instance_named : String → ObservedInstances → Option Instance
unfolding instance_at
instance_named name o = elim (lookup name o.by_name) [
  | none ↦ none
  | some at ↦ instance_at at o.for_cluster
]

unfoldable pub find_available_instance_names :
    SetSpec → ObservedInstances → List Volume → List String
unfolding is_volume volumes_with_wal lacks_runner instance_named
find_available_instance_names set o volumes =
    let data_volumes = filter (is_volume role_postgres_data set.name) volumes in
    let set_volumes =
      if set.has_wal then volumes_with_wal set.name volumes data_volumes else data_volumes in
    filter (λ name. lacks_runner (instance_named name o))
      (map (λ v. label label_instance v.labels) set_volumes)
