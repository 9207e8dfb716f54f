-- ===== src/Instances.antt =====
-- internal/controller/postgrescluster/instance.go: the instances of a cluster and what is known of
-- them. A method that returns (value, known) returns the pair.
pub mod Keeping
pub mod Observe
pub mod Observing
pub mod Redeploy
pub mod Observed
pub mod Reuse
pub mod Rollout
pub mod Rolling
pub mod Scale
pub mod Stop
pub mod Stopped
pub mod Writable
use Prim.Native.String.{◌∷◌, len, slice, compare}
use mathlib.Core.Bool.{◌&&◌}
use text.Mathlib.Text.{is_lt, starts_with, find?}
use ivory_operator.Kube.{OwnerReference}
use ivory_operator.Prelude.{
  ◌==◌, none, ◌∷◌, some, [], Labels, ℕ, false, true, not, String, if◌then◌else◌, label, List,
  Option, str_eq, Bool,
}

-- corev1.ContainerStatus; `running` is whether State.Running is set.
pub record ContainerStatus : Type 0 where
  pub name : String
  pub running : Bool

-- corev1.PodCondition
pub record PodCondition : Type 0 where
  pub type : String
  pub status : String

-- corev1.Pod; `deleting` is whether its DeletionTimestamp is set.
pub record Pod : Type 0 where
  pub name : String
  pub labels : Labels
  pub annotations : Labels
  pub deleting : Bool
  pub termination_grace_period_seconds : Option ℕ
  pub conditions : List PodCondition
  pub container_statuses : List ContainerStatus
  pub init_container_statuses : List ContainerStatus
  pub owners : List OwnerReference

-- appsv1.StatefulSet, as the runner of an instance
pub record Runner : Type 0 where
  pub name : String
  pub labels : Labels
  pub generation : ℕ
  pub observed_generation : ℕ
  pub update_revision : String

-- v1beta1.PostgresInstanceSetSpec; `has_wal` is whether WALVolumeClaimSpec is set.
pub record SetSpec : Type 0 where
  pub name : String
  pub replicas : ℕ
  pub has_wal : Bool

-- The struct Instance.
pub record Instance : Type 0 where
  pub name : String
  pub pods : List Pod
  pub runner : Option Runner
  pub spec : Option SetSpec

-- The constants of internal/naming/labels.go and of k8s.io/api that instance.go names.
abbrev pub label_cluster : String
label_cluster = "postgres-operator.crunchydata.com/cluster"

abbrev pub label_instance : String
label_instance = "postgres-operator.crunchydata.com/instance"

abbrev pub label_instance_set : String
label_instance_set = "postgres-operator.crunchydata.com/instance-set"

abbrev pub label_role : String
label_role = "postgres-operator.crunchydata.com/role"

abbrev pub role_patroni_leader : String
role_patroni_leader = "master"

abbrev pub role_patroni_replica : String
role_patroni_replica = "replica"

abbrev pub role_postgres_data : String
role_postgres_data = "pgdata"

abbrev pub role_postgres_wal : String
role_postgres_wal = "pgwal"

-- appsv1.StatefulSetRevisionLabel
abbrev pub stateful_set_revision_label : String
stateful_set_revision_label = "controller-revision-hash"

-- The loop of IsReady: the first Ready condition decides.
unfoldable pub ready_condition : List PodCondition → Bool × Bool
ready_condition [] = (false, false)
ready_condition (c ∷ rest) =
    if str_eq c.type "Ready" then (str_eq c.status "True", true) else ready_condition rest

-- The loops of IsRunning, over the containers and then the others given.
unfoldable pub running_status : String → List ContainerStatus → Bool × Bool → Bool × Bool
running_status container [] otherwise = otherwise
running_status container (s ∷ rest) otherwise =
    if str_eq s.name container then (s.running, true) else running_status container rest otherwise

-- What a member's status annotation says of its role.
unfoldable pub written_role : String → Option ℕ → Bool × Bool
written_role member none = (false, false)
written_role member (some at) =
    (starts_with (slice member at (len member)) "\"role\":\"master\"", true)

-- The question asked of the pods of an instance: unknown unless there is exactly one.
unfoldable pub of_one_pod : (Pod → Bool × Bool) → List Pod → Bool × Bool
of_one_pod ask [] = (false, false)
of_one_pod ask (p ∷ []) = ask p
of_one_pod ask (p ∷ q ∷ rest) = (false, false)

unfoldable pub is_primary : Instance → Bool × Bool
unfolding of_one_pod
is_primary i =
    of_one_pod (λ p. (str_eq (label label_role p.labels) role_patroni_leader, true)) i.pods

unfoldable pub is_ready : Instance → Bool × Bool
unfolding of_one_pod ready_condition
is_ready i = of_one_pod (λ p. ready_condition p.conditions) i.pods

unfoldable pub is_running : String → Instance → Bool × Bool
unfolding of_one_pod running_status
is_running container i =
    of_one_pod
      (λ p.
        running_status container p.container_statuses
          (running_status container p.init_container_statuses (false, false)))
      i.pods

unfoldable pub is_terminating : Instance → Bool × Bool
unfolding of_one_pod
is_terminating i = of_one_pod (λ p. (p.deleting, true)) i.pods

unfoldable pub is_writable : Instance → Bool × Bool
unfolding of_one_pod written_role
is_writable i =
    of_one_pod
      (λ p.
        let member = label "status" p.annotations in written_role member (find? member "\"role\":"))
      i.pods

unfoldable pub is_available : Instance → Bool × Bool
unfolding is_terminating is_ready
is_available i =
    let (terminating, known_terminating) = is_terminating i in
    let (ready, known_ready) = is_ready i in
    (ready && not terminating, known_ready && known_terminating)

-- The comparison of PodMatchesPodTemplate, with the runner that the instance may lack.
unfoldable pub matches_revision : Option Runner → Pod → Bool × Bool
matches_revision none p = (false, false)
matches_revision (some r) p =
    if not (r.observed_generation == r.generation)
    then (false, false)
    else (str_eq (label stateful_set_revision_label p.labels) r.update_revision, true)

unfoldable pub pod_matches_pod_template : Instance → Bool × Bool
unfolding of_one_pod matches_revision
pod_matches_pod_template i = of_one_pod (matches_revision i.runner) i.pods

-- `known && value`
abbrev pub surely : Bool × Bool → Bool
surely (value, known) = known && value

-- The function `less` of byPriority.
unfoldable pub by_priority : Instance → Instance → Bool
unfolding is_primary is_available
by_priority a b =
    if surely (is_primary a)
    then false
    else if surely (is_primary b)
    then true
    else if surely (is_available a)
    then false
    else if surely (is_available b)
    then true
    else is_lt (compare a.name b.name)
