-- ===== src/Instances/Scale.antt =====
-- instance.go: podsToKeep and scaleDownInstances.

use ivory_operator.Instances.{
  label_instance_set, label_role, label_instance, ◌∷◌, SetSpec, Instance, Pod,
}
use ivory_operator.Kube.{Responses}
use ivory_operator.Prelude.{
  length, any, none, ◌&&◌, filter, [], not, is_none, insert, ltb, ◌++◌, map, if◌then◌else◌, str_eq,
  label, Option, Bool, ℕ, String, GoMap, List,
}

abbrev pub is_master : Pod → Bool
is_master p = str_eq (label label_role p.labels) "master"

abbrev pub is_in_set : String → Pod → Bool
is_in_set name p = str_eq (label label_instance_set p.labels) name

abbrev pub instance_of : Pod → String
instance_of p = label label_instance p.labels

-- The second loop of the function f in podsToKeep.
unfoldable pub fill : List Pod → ℕ → List Pod → List Pod
fill [] want keep = keep
fill (p ∷ rest) want keep =
    fill rest want (if not (is_master p) && ltb (length keep) want then keep ++ p ∷ [] else keep)

-- The function f in podsToKeep.
unfoldable pub keep_in_set : List Pod → ℕ → List Pod
unfolding fill
keep_in_set pods want = fill pods want (if ltb 0 want then filter is_master pods else [])

-- podsToKeep, with the entries of the map `want` in the order that range visits them.
unfoldable pub pods_to_keep : List Pod → GoMap ℕ → List Pod
unfolding keep_in_set
pods_to_keep pods [] = []
pods_to_keep pods ((name, num) ∷ rest) =
    keep_in_set (filter (is_in_set name) pods) num ++ pods_to_keep pods rest

-- The map `want`.
unfoldable pub want_of : List SetSpec → GoMap ℕ → GoMap ℕ
want_of [] want = want
want_of (s ∷ rest) want = want_of rest (insert s.name s.replicas want)

unfoldable pub cluster_pods : List Instance → List Pod
cluster_pods [] = []
cluster_pods (i ∷ rest) = i.pods ++ cluster_pods rest

-- The loop over the pods of one instance. The state is the error, after which nothing more is
-- called, and the names that deleteInstance was called with, newest first.
unfoldable pub delete_pods :
    {E : Type 0}
    → Responses String E
    → List String
    → List Pod
    → Option E × List String
    → Option E × List String
delete_pods respond names_to_keep [] (err, done) = (err, done)
delete_pods respond names_to_keep (p ∷ rest) (err, done) =
    let chosen = is_none err && not (any (str_eq (instance_of p)) names_to_keep) in
    delete_pods respond names_to_keep rest (
      if chosen then respond done (instance_of p) else err,
      if chosen then instance_of p ∷ done else done,
    )

unfoldable pub delete_extra :
    {E : Type 0}
    → Responses String E
    → List String
    → List Instance
    → Option E × List String
    → Option E × List String
unfolding delete_pods
delete_extra respond names_to_keep [] s = s
delete_extra respond names_to_keep (i ∷ rest) s =
    delete_extra respond names_to_keep rest (delete_pods respond names_to_keep i.pods s)

-- scaleDownInstances. `visit` is the order in which range visits the entries of a map.
unfoldable pub scale_down_instances :
    {E : Type 0}
    → (GoMap ℕ → GoMap ℕ)
    → Responses String E
    → List SetSpec
    → List Instance
    → Option E × List String
unfolding pods_to_keep want_of cluster_pods delete_extra
scale_down_instances visit respond sets instances =
    delete_extra respond
      (map instance_of (pods_to_keep (cluster_pods instances) (visit (want_of sets [])))) instances
      (none, [])
