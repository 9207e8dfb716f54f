-- ===== src/Patroni/Switchover.antt =====
-- internal/controller/postgrescluster/patroni.go: reconcilePatroniSwitchover. It is cut into stages;
-- each early `return` ends its stage.

-- v1beta1.PatroniSwitchover
use ivory_operator.Instances.{is_running, surely, Instance, Pod}
use ivory_operator.Kube.{found, failed, Answer}
use ivory_operator.Prelude.{
  get_or, length, decimal, leb, concat, ◌||◌, [], str_eq, ◌==◌, is_empty, not, false, if◌then◌else◌,
  ◌∷◌, ℕ, Option, none, List, Bool, String, some,
}

pub record SwitchoverSpec : Type 0 where
  pub enabled : Bool
  pub type : String
  pub target_instance : Option String

-- The fields Switchover and SwitchoverTimeline of the status. Timelines of PostgreSQL are positive.
pub record SwitchoverStatus : Type 0 where
  pub switchover : Option String
  pub timeline : Option ℕ

-- A call of SwitchoverAndWait or FailoverAndWait.
pub record Change : Type 0 where
  pub failover : Bool
  pub next : String

-- What is returned, the status, and the call that was made, if any.
pub record Switched (E : Type 0) : Type 0 where
  pub err : Option E
  pub status : SwitchoverStatus
  pub called : Option Change

-- The answers of the calls of Patroni in the running pod, and errors.New.
pub record SwitchoverEnv (E : Type 0) : Type 0 where
  pub get_timeline : Pod → ℕ × Option E
  pub change : Pod → Change → Bool × Option E
  pub new_error : String → E

-- naming.ContainerDatabase
abbrev pub container_database : String
container_database = "database"

-- v1beta1.PatroniSwitchoverTypeFailover
abbrev pub type_failover : String
type_failover = "Failover"

-- `len(pods) == 1`, and that pod.
unfoldable pub only_one : List Pod → Option Pod
only_one [] = none
only_one (p ∷ []) = some p
only_one (p ∷ q ∷ rest) = none

-- `status != nil && *status == annotation`
unfoldable pub is_switched : String → Option String → Bool
is_switched annotation none = false
is_switched annotation (some status) = str_eq status annotation

-- The loop that looks for the target, which takes the last of that name.
unfoldable pub find_target : String → List Instance → Option Instance → Option Instance
find_target name [] seen = seen
find_target name (i ∷ rest) seen =
    find_target name rest (if str_eq name i.name then some i else seen)

unfoldable pub running_pod : List Instance → Option Pod
unfolding only_one
running_pod [] = none
running_pod (i ∷ rest) =
    let later = running_pod rest in
    elim (only_one i.pods) [
      | none ↦ later
      | some p ↦ if surely (is_running container_database i) then some p else later
    ]

-- The status once the switchover that an annotation asked for is done.
abbrev pub done_for : String → SwitchoverStatus
done_for annotation = record { switchover = some annotation; timeline = none }

abbrev pub ended : {E : Type 0} → SwitchoverStatus → Switched E
ended status = record { err = none; status = status; called = none }

abbrev pub refused : {E : Type 0} → SwitchoverStatus → E → Switched E
refused status e = record { err = some e; status = status; called = none }

module _ {E : Type 0} (env : SwitchoverEnv E) where
  -- The pod of the target, where one is named.
  unfoldable pub target_pod : Option Instance → Answer E Pod
  unfolding only_one
  target_pod none =
      failed (env.new_error "TargetInstance was specified but not found in the cluster")
  target_pod (some i) = elim (only_one i.pods) [
    | none ↦ failed (
        env.new_error (
          concat
            ("TargetInstance should have one pod. Pods (" ∷ decimal (length i.pods) ∷ ")" ∷ [])))
    | some p ↦ found p
  ]

  -- What follows the call.
  unfoldable pub record_change : String → SwitchoverStatus → Change → Bool × Option E → Switched E
  record_change annotation status change (success, some e) = record {
    err = some e;
    status = status;
    called = some change;
  }
  record_change annotation status change (success, none) =
      if success
      then record { err = none; status = done_for annotation; called = some change }
      else record {
        err = some (env.new_error "unable to switchover");
        status = status;
        called = some change;
      }

  -- The current timeline against the one of the request.
  unfoldable pub compare_timeline :
      String → SwitchoverStatus → Change → Pod → ℕ → Option ℕ → Switched E
  unfolding record_change
  compare_timeline annotation status change pod timeline none =
      ended (record status { timeline = some timeline })
  compare_timeline annotation status change pod timeline (some requested) =
      if requested == 0
      then ended (record status { timeline = some timeline })
      else if not (requested == timeline)
      then ended (done_for annotation)
      else record_change annotation status change (env.change pod change)

  unfoldable pub read_timeline :
      String → SwitchoverStatus → Change → Pod → ℕ × Option E → Switched E
  unfolding compare_timeline
  read_timeline annotation status change pod (timeline, some e) = refused status e
  read_timeline annotation status change pod (timeline, none) =
      if timeline == 0
      then refused status (env.new_error "error getting and parsing current timeline")
      else compare_timeline annotation status change pod timeline status.timeline

  unfoldable pub with_running_pod : String → SwitchoverStatus → Change → Option Pod → Switched E
  unfolding read_timeline
  with_running_pod annotation status change none =
      refused status (env.new_error "Could not find a running pod when attempting switchover.")
  with_running_pod annotation status change (some pod) =
      read_timeline annotation status change pod (env.get_timeline pod)

  unfoldable pub with_target :
      String → Bool → SwitchoverStatus → List Instance → Answer E Pod → Switched E
  unfolding with_running_pod running_pod
  with_target annotation failover status instances (failed e) = refused status e
  with_target annotation failover status instances (found p) =
      with_running_pod annotation status (record { failover = failover; next = p.name })
        (running_pod instances)

  -- A target that is missing or empty.
  unfoldable pub choose_target :
      String → Bool → SwitchoverStatus → List Instance → String → Switched E
  unfolding with_target target_pod with_running_pod running_pod find_target
  choose_target annotation failover status instances target =
      if is_empty target
      then (if failover
          then refused status (env.new_error "TargetInstance required when running failover")
          else with_running_pod annotation status (record { failover = false; next = "" })
              (running_pod instances))
      else with_target annotation failover status instances
          (target_pod (find_target target instances none))

  unfoldable pub switch_enabled :
      SwitchoverSpec → String → SwitchoverStatus → List Instance → Switched E
  unfolding choose_target is_switched
  switch_enabled spec annotation status instances =
      if is_empty annotation || is_switched annotation status.switchover
      then ended (record status { timeline = none })
      else if leb (length instances) 1
      then refused status (env.new_error "Need more than one instance to switchover")
      else choose_target annotation (str_eq spec.type type_failover) status instances
          (get_or spec.target_instance "")

  -- reconcilePatroniSwitchover, where the spec is `none` when Patroni or its Switchover is nil.
  unfoldable pub reconcile_patroni_switchover :
      Option SwitchoverSpec → String → SwitchoverStatus → List Instance → Switched E
  unfolding switch_enabled
  reconcile_patroni_switchover none annotation status instances =
      ended (record { switchover = none; timeline = none })
  reconcile_patroni_switchover (some spec) annotation status instances =
      if not spec.enabled
      then ended (record { switchover = none; timeline = none })
      else switch_enabled spec annotation status instances
