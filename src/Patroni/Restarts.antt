-- ===== src/Patroni/Restarts.antt =====
-- internal/controller/postgrescluster/patroni.go: handlePatroniRestarts, reconcilePatroniStatus and
-- reconcilePatroniDynamicConfiguration.

-- An instance that must restart, and can: its first pod, and whether it is the primary. The loop
-- takes the last of each kind, until it has seen both.
use ivory_operator.Instances.{
  is_ready, Pod, is_primary, is_running, surely, is_terminating, Instance,
}
use ivory_operator.Instances.Observe.{first_pod}
use ivory_operator.Kube.{failed, found, Answer, ApiErrors}
use ivory_operator.Patroni.Api.{
  failover_and_wait, switchover_and_wait, get_timeline, Executor, replace_configuration,
  pod_requires_restart,
}
use ivory_operator.Patroni.Switchover.{SwitchoverEnv}
use ivory_operator.Prelude.{
  is_empty, label, ℕ, Labels, [], if◌then◌else◌, is_some, ◌||◌, not, false, ◌&&◌, some, Bool, none,
  ◌∷◌, String, List, Option,
}
use ivory_operator.Upgrade.{container_database}

unfoldable pub needs_restart : Instance → Bool
unfolding first_pod pod_requires_restart
needs_restart i = elim (first_pod i.pods) [
  | none ↦ false
  | some p ↦
      let (terminating, known) = is_terminating i in
      pod_requires_restart p
      && not (terminating || not known)
      && surely (is_running container_database i)
]

unfoldable pub find_restarts :
    List Instance → Option Instance → Option Instance → Option Instance × Option Instance
unfolding needs_restart
find_restarts [] primary replica = (primary, replica)
find_restarts (i ∷ rest) primary replica =
    let chosen = needs_restart i && not (is_some primary && is_some replica) in
    let (is_leader, known) = is_primary i in
    find_restarts rest (if chosen && is_leader then some i else primary)
      (if chosen && not is_leader then some i else replica)

-- A call of RestartPendingMembers in the first pod of an instance.
pub record Restart : Type 0 where
  pub through : Instance
  pub role : String

unfoldable pub choose_restart : Option Instance × Option Instance → Option Restart
choose_restart (some i, replica) = some (record { through = i; role = "master" })
choose_restart (none, some i) = some (record { through = i; role = "replica" })
choose_restart (none, none) = none

-- handlePatroniRestarts, as the call that it makes, whose error it returns.
unfoldable pub handle_patroni_restarts : List Instance → Option Restart
unfolding find_restarts choose_restart
handle_patroni_restarts instances = choose_restart (find_restarts instances none none)

-- The first pod through which to configure Patroni.
unfoldable pub is_configurable : Instance → Bool
is_configurable i =
    let (terminating, known) = is_terminating i in
    not terminating && known && surely (is_running container_database i)

unfoldable pub configurable_pod : List Instance → Option Pod
unfolding is_configurable first_pod
configurable_pod [] = none
configurable_pod (i ∷ rest) =
    let later = configurable_pod rest in if is_configurable i then first_pod i.pods else later

-- The pod to configure Patroni in, once it is bootstrapped.
unfoldable pub configures_in : String → List Instance → Option Pod
unfolding configurable_pod
configures_in system_identifier instances =
    if is_empty system_identifier then none else configurable_pod instances

-- reconcilePatroniDynamicConfiguration, for the executor of a pod and the configuration that
-- DynamicConfiguration makes.
unfoldable pub reconcile_patroni_dynamic_configuration :
    {E J : Type 0} → (Pod → Executor E J) → String → List Instance → J → Option E
unfolding configures_in replace_configuration
reconcile_patroni_dynamic_configuration exec system_identifier instances configuration =
    elim (configures_in system_identifier instances) [
      | none ↦ none
      | some pod ↦ replace_configuration (exec pod) configuration
    ]

-- What reconcilePatroniStatus returns: the delay in seconds before it wants to be called again, the
-- error, and the system identifier in the status.
pub record PatroniStatus (E : Type 0) : Type 0 where
  pub requeue_after : ℕ
  pub err : Option E
  pub system_identifier : String

unfoldable pub any_ready : List Instance → Bool
any_ready [] = false
any_ready (i ∷ rest) = let (ready, known) = is_ready i in ready || any_ready rest

-- What follows the Get of the Endpoints, by their annotations. Those of missing ones are empty.
unfoldable pub patroni_status :
    {E : Type 0} → Option E → Labels → List Instance → String → PatroniStatus E
unfolding any_ready
patroni_status (some e) annotations instances old = record {
  requeue_after = 0;
  err = some e;
  system_identifier = old;
}
patroni_status none annotations instances old =
    let initialize = label "initialize" annotations in
    if not (is_empty initialize)
    then record { requeue_after = 0; err = none; system_identifier = initialize }
    else record {
      requeue_after = if any_ready instances then 1 else 0;
      err = none;
      system_identifier = old;
    }

unfoldable pub reconcile_patroni_status :
    {E : Type 0} → ⦃errs : ApiErrors E⦄ → Answer E Labels → List Instance → String → PatroniStatus E
unfolding patroni_status
reconcile_patroni_status (found annotations) instances old =
    patroni_status none annotations instances old
reconcile_patroni_status ⦃errs⦄ (failed e) instances old =
    patroni_status (errs.ignore_not_found (some e)) [] instances old

-- The answers that reconcilePatroniSwitchover gets by way of an executor for each pod.
unfoldable pub switchover_env :
    {E J : Type 0} → (String → E) → (Pod → Executor E J) → SwitchoverEnv E
unfolding switchover_and_wait failover_and_wait get_timeline
switchover_env errors_new x = record {
  get_timeline = λ pod. get_timeline (x pod);
  change = λ pod change.
      if change.failover
      then failover_and_wait (x pod) change.next
      else switchover_and_wait (x pod) change.next;
  new_error = errors_new;
}
