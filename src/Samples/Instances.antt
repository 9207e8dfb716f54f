-- ===== src/Samples/Instances.antt =====
-- A cluster of one instance set that wants two replicas, with a leader and two replicas.

use mathlib.Core.List.{Perm}
use ivory_operator.Instances.{
  running_status, written_role, is_running, is_writable, surely, is_primary, ready_condition,
  matches_revision, of_one_pod, pod_matches_pod_template, is_ready, is_available, is_terminating,
  stateful_set_revision_label, label_role, label_instance_set, label_instance, Runner, SetSpec,
  Instance, Pod,
}
use ivory_operator.Instances.Keeping.{scale_down_instances-primary}
use ivory_operator.Instances.Observe.{
  is_writable_in, first_pod, nothing_observed, writable_pod_in, writable_pod, ObservedInstances,
  entries, add_name, add_pod_at, add_instance, place_pod, add_pods, add_runners, index_sets,
  instance_at, instance_named, lacks_runner, volumes_with_wal, is_volume,
  find_available_instance_names, Volume, new_observed_instances,
}
use ivory_operator.Instances.Observed.{new_observed_instances-pods, IsOwnPods}
use ivory_operator.Instances.Redeploy.{
  Action, tried_checkpoint, warned_slow_checkpoint, deleted, grace_seconds, rollout_instance-gentle,
  threshold, is_checkpoint, warn, checkpoints, only_pod, rollout_pod, rollout_found,
  rollout_instance, RolloutEnv,
}
use ivory_operator.Instances.Reuse.{find_available_instance_names-IsReusable, IsReusable}
use ivory_operator.Instances.Rolling.{rollout_instances-bound, available_in}
use ivory_operator.Instances.Rollout.{
  is_down, is_considered, in_turn, is_outdated, redeploy_all, survey, num_specified,
  rollout_instances, disrupted,
}
use ivory_operator.Instances.Scale.{scale_down_instances, want_of, cluster_pods}
use ivory_operator.Instances.Stop.{Scaled, delete_instances, OwnErrors}
use ivory_operator.Instances.Stopped.{delete_instances-StopsOneOf, StopsOneOf}
use ivory_operator.Kube.{Responses}
use ivory_operator.Prelude.{
  arith, insert, refl, map, str_eq, any, count, length, lookup, Option, filter, All, label, ◌≤◌,
  ◌+◌, if◌then◌else◌, ◌⊎◌, ◌≡◌, some, [], none, Bool, ◌∷◌, false, true, String, List,
}
use ivory_operator.Samples.Kube.{sample_errors, sample_owners, other, SampleError}
use mathlib.Core.List.Perm
use mathlib.Core.List.Memᴰ

abbrev pub pod_named : String → String → String → Bool → Pod
pod_named name role revision ready = record {
  name = name;
  labels =
      (label_instance, name)
      ∷ (label_instance_set, "one")
      ∷ (label_role, role)
      ∷ (stateful_set_revision_label, revision)
      ∷ [];
  annotations = [];
  deleting = false;
  termination_grace_period_seconds = none;
  conditions = record { type = "Ready"; status = if ready then "True" else "False" } ∷ [];
  container_statuses = record { name = "database"; running = true } ∷ [];
  init_container_statuses = [];
  owners =
      record {
        api_version = "apps/v1";
        kind = "StatefulSet";
        name = name;
        uid = name;
        controller = true;
        block_owner_deletion = true;
      }
      ∷ [];
}

abbrev pub leader_pod : Pod
leader_pod = pod_named "a" "master" "old" true

abbrev pub replica_pod : Pod
replica_pod = pod_named "b" "replica" "old" true

abbrev pub down_pod : Pod
down_pod = pod_named "c" "replica" "old" false

abbrev pub runner_named : String → Runner
runner_named name = record {
  name = name;
  labels = (label_instance_set, "one") ∷ [];
  generation = 3;
  observed_generation = 3;
  update_revision = "new";
}

abbrev pub set_one : SetSpec
set_one = record { name = "one"; replicas = 2; has_wal = true }

abbrev pub instance_with : Pod → Instance
instance_with p = record {
  name = p.name;
  pods = p ∷ [];
  runner = some (runner_named p.name);
  spec = some set_one;
}

abbrev pub three : List Instance
three = instance_with leader_pod ∷ instance_with replica_pod ∷ instance_with down_pod ∷ []

-- A sort that puts the last first, which byPriority does for these.
abbrev sorted : List Instance → List Instance
sorted [] = []
sorted (x ∷ []) = x ∷ []
sorted (x ∷ y ∷ []) = y ∷ x ∷ []
sorted (x ∷ y ∷ z ∷ []) = z ∷ y ∷ x ∷ []
sorted (x ∷ y ∷ z ∷ w ∷ rest) = x ∷ y ∷ z ∷ w ∷ rest

abbrev accepts : {Call : Type 0} → Responses Call SampleError
accepts done call = none

perm_three : (x y z : Instance) → Perm (x ∷ y ∷ z ∷ []) (z ∷ y ∷ x ∷ [])
perm_three x y z =
    Perm.trans (Perm.swap y x (z ∷ []))
      (Perm.trans (Perm.cons y (Perm.swap z x [])) (Perm.swap z y (x ∷ [])))

abbrev rollout : Option SampleError × List Instance
unfolding rollout_instances
rollout = rollout_instances sorted (accepts {Call = Instance}) (set_one ∷ []) three

-- The instance that is down is redeployed, then one replica; the leader waits.
rollout_example : map (λ (i : Instance). i.name) rollout.1 ≡ "b" ∷ "c" ∷ []
unfolding rollout_instances survey redeploy_all in_turn num_specified label lookup is_outdated
    is_considered is_down is_available is_ready is_terminating pod_matches_pod_template of_one_pod
    matches_revision ready_condition
rollout_example = refl

rollout_instances-bound_example :
    (disrupted (rollout_instances sorted (accepts {Call = Instance}) (set_one ∷ []) three).1 ≡ 0)
    ⊎ (num_specified (set_one ∷ [])
          + disrupted (rollout_instances sorted (accepts {Call = Instance}) (set_one ∷ []) three).1
        ≤ available_in three + 1)
rollout_instances-bound_example =
    rollout_instances-bound sorted (accepts {Call = Instance}) (set_one ∷ []) three

abbrev own_errors : OwnErrors SampleError
own_errors = record { no_owner = λ p. other; unexpected_kind = λ k. other }

delete_instances-StopsOneOf_example :
    All
      (StopsOneOf (leader_pod ∷ replica_pod ∷ down_pod ∷ []))
      (delete_instances own_errors
        (accepts {Call = Scaled})
        (leader_pod ∷ replica_pod ∷ down_pod ∷ [], none)).scaled
delete_instances-StopsOneOf_example =
    delete_instances-StopsOneOf own_errors (accepts {Call = Scaled}) leader_pod replica_pod
      (down_pod ∷ [])

scale_down_instances-primary_example :
    any
      (str_eq "a")
      (scale_down_instances
        (λ m. m)
        (accepts {Call = String})
        (record set_one { replicas = 1 } ∷ [])
        three).1
    ≡ false
unfolding label lookup count cluster_pods want_of insert
scale_down_instances-primary_example =
    scale_down_instances-primary (λ m. m) (accepts {Call = String})
      (record set_one { replicas = 1 } ∷ []) three leader_pod (record set_one { replicas = 1 })
      (Memᴰ.head refl) refl (Memᴰ.head refl) refl refl (omega arith) (Perm.refl _)

new_observed_instances-pods_example :
    let is =
      (new_observed_instances
        (set_one ∷ [])
        (runner_named "a" ∷ [])
        (leader_pod ∷ replica_pod ∷ [])).for_cluster in
    All IsOwnPods is
    × ((q : Pod → Bool) → count q (cluster_pods is) ≡ count q (leader_pod ∷ replica_pod ∷ []))
new_observed_instances-pods_example =
    new_observed_instances-pods (set_one ∷ []) (runner_named "a" ∷ [])
      (leader_pod ∷ replica_pod ∷ [])

abbrev volume_of : String → String → Volume
volume_of name role = record {
  labels = (label_instance, name) ∷ (label_instance_set, "one") ∷ (label_role, role) ∷ [];
  deleting = false;
}

abbrev volumes : List Volume
volumes =
    volume_of "a" "pgdata"
    ∷ volume_of "a" "pgwal"
    ∷ volume_of "d" "pgdata"
    ∷ volume_of "d" "pgwal"
    ∷ volume_of "e" "pgdata"
    ∷ []

find_available_instance_names_test :
    find_available_instance_names set_one
      (new_observed_instances (set_one ∷ []) (runner_named "a" ∷ []) (leader_pod ∷ []))
      volumes
    ≡ "d" ∷ []
unfolding find_available_instance_names new_observed_instances is_volume volumes_with_wal
    lacks_runner instance_named instance_at index_sets add_runners add_pods place_pod add_instance
    add_pod_at add_name entries filter any label lookup insert
find_available_instance_names_test = refl

find_available_instance_names-IsReusable_example :
    All (IsReusable set_one (runner_named "a" ∷ []) volumes) (
      find_available_instance_names set_one
        (new_observed_instances (set_one ∷ []) (runner_named "a" ∷ []) (leader_pod ∷ []))
        volumes)
find_available_instance_names-IsReusable_example =
    find_available_instance_names-IsReusable set_one (set_one ∷ []) (runner_named "a" ∷ [])
      (leader_pod ∷ []) volumes

abbrev rollout_env : RolloutEnv SampleError
rollout_env = record {
  change_primary_and_wait = λ pod. (true, none);
  checkpoint = λ done seconds. (16000000000, none);
  delete_pod = λ done pod. none;
  unexpected_state = λ i. other;
  unable_to_switchover = other;
}

-- A single primary with a slow checkpoint.
rollout_instance_test :
    (rollout_instance rollout_env
      (instance_with leader_pod ∷ [])
      (instance_with leader_pod)).actions
    ≡ deleted "a" ∷ warned_slow_checkpoint ∷ tried_checkpoint 30 ∷ tried_checkpoint 30 ∷ []
unfolding rollout_instance rollout_found rollout_pod only_pod checkpoints warn threshold
    grace_seconds is_primary of_one_pod label lookup
rollout_instance_test = refl

rollout_instance-gentle_example :
    (surely (is_primary (instance_with leader_pod)) ≡ false)
    ⊎ ((length (instance_with leader_pod ∷ []) ≤ 1)
        × ((name : String) × (before : List Action) × ((rollout_instance rollout_env
                (instance_with leader_pod ∷ [])
                (instance_with leader_pod)).actions
              ≡ deleted name ∷ before)
            × (any is_checkpoint before ≡ true)))
unfolding rollout_instance rollout_found rollout_pod only_pod is_primary of_one_pod label lookup any
rollout_instance-gentle_example =
    rollout_instance-gentle rollout_env (instance_with leader_pod ∷ []) (instance_with leader_pod)
      refl

abbrev pub writer_pod : Pod
writer_pod = record leader_pod { annotations = ("status", "{\"role\":\"master\"}") ∷ [] }

abbrev writers : ObservedInstances
writers = record (nothing_observed []) {
  for_cluster = instance_with replica_pod ∷ instance_with writer_pod ∷ [];
}

writable_pod_test :
    writable_pod "database" (some writers) ≡ some (writer_pod, instance_with writer_pod)
unfolding writable_pod writable_pod_in first_pod is_writable_in is_terminating is_writable
    is_running of_one_pod written_role running_status label lookup
writable_pod_test = refl
