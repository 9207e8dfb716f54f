-- ===== src/Patroni/Api.antt =====
-- internal/patroni/api.go: the Executor, which calls "patronictl" in a pod, and PodRequiresRestart of
-- internal/patroni/reconcile.go.

-- What a command prints, and its error.
use text.Mathlib.Text.{find?}
use ivory_operator.Instances.{Pod}
use ivory_operator.Kube.{found, failed, Answer}
use ivory_operator.Prelude.{
  ◌&&◌, is_empty, none, inr, str_eq, label, [], concat, if◌then◌else◌, is_some, some, inl, ◌⊎◌, ◌∷◌,
  Bool, ℕ, List, String, Option,
}

pub record Output (E : Type 0) : Type 0 where
  pub stdout : String
  pub stderr : String
  pub err : Option E

-- An element of the list that "patronictl list" prints.
pub record Member : Type 0 where
  pub role : String
  pub state : String
  pub timeline : ℕ

-- strings.Contains
unfoldable pub contains : String → String → Bool
contains text part = is_some (find? text part)

-- `exec` with standard input and a command line. `encode` and `decode_members` are those of
-- encoding/json, and `new_error` is errors.New.
pub record Executor (E J : Type 0) : Type 0 where
  pub exec : String → List String → Output E
  pub encode : J → String ⊎ E
  pub decode_members : String → Answer E (List Member)
  pub new_error : String → E

-- The first leader that runs.
unfoldable pub leader_timeline : List Member → ℕ
leader_timeline [] = 0
leader_timeline (m ∷ rest) =
    let later = leader_timeline rest in
    if str_eq m.role "Leader" && str_eq m.state "running" then m.timeline else later

module _ {E J : Type 0} (x : Executor E J) where
  unfoldable pub change_primary_and_wait : String → String → Bool × Option E
  unfolding contains
  change_primary_and_wait current next =
      let out = x.exec "" (
        "patronictl"
        ∷ "switchover"
        ∷ "--scheduled=now"
        ∷ "--force"
        ∷ concat ("--master=" ∷ current ∷ [])
        ∷ concat ("--candidate=" ∷ next ∷ [])
        ∷ []) in
      (contains out.stdout "switched over", out.err)

  unfoldable pub switchover_and_wait : String → Bool × Option E
  unfolding contains
  switchover_and_wait target =
      let out = x.exec "" (
        "patronictl"
        ∷ "switchover"
        ∷ "--scheduled=now"
        ∷ "--force"
        ∷ concat ("--candidate=" ∷ target ∷ [])
        ∷ []) in
      (contains out.stdout "switched over", out.err)

  unfoldable pub failover_and_wait : String → Bool × Option E
  unfolding contains
  failover_and_wait target =
      let out =
        x.exec ""
          ("patronictl" ∷ "failover" ∷ "--force" ∷ concat ("--candidate=" ∷ target ∷ []) ∷ []) in
      (contains out.stdout "failed over", out.err)

  -- The encoder ends its output with a newline.
  unfoldable pub replace_configuration : J → Option E
  replace_configuration configuration = elim (x.encode configuration) [
    | inl text ↦ (x.exec text ("patronictl" ∷ "edit-config" ∷ "--replace=-" ∷ "--force" ∷ [])).err
    | inr e ↦ some e
  ]

  unfoldable pub restart_pending_members : String → String → Option E
  restart_pending_members role scope =
      (x.exec "" (
        "patronictl"
        ∷ "restart"
        ∷ "--pending"
        ∷ "--force"
        ∷ concat ("--role=" ∷ role ∷ [])
        ∷ scope
        ∷ [])).err

  unfoldable pub timeline_of : Answer E (List Member) → ℕ × Option E
  unfolding leader_timeline
  timeline_of (failed e) = (0, some e)
  timeline_of (found members) = (leader_timeline members, none)

  unfoldable pub read_list : Output E → ℕ × Option E
  unfolding timeline_of
  read_list out = elim out.err [
    | some e ↦ (0, some e)
    | none ↦
        if is_empty out.stderr
        then timeline_of (x.decode_members out.stdout)
        else (0, some (x.new_error out.stderr))
  ]

  unfoldable pub get_timeline : ℕ × Option E
  unfolding read_list
  get_timeline = read_list (x.exec "" ("patronictl" ∷ "list" ∷ "--format" ∷ "json" ∷ []))

-- PodRequiresRestart
unfoldable pub pod_requires_restart : Pod → Bool
unfolding contains
pod_requires_restart pod = contains (label "status" pod.annotations) "\"pending_restart\":true"

-- PodIsStandbyLeader
unfoldable pub pod_is_standby_leader : Pod → Bool
unfolding contains
pod_is_standby_leader pod = contains (label "status" pod.annotations) "\"role\":\"standby_leader\""
