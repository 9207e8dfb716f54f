-- ===== src/Users/Revisions.antt =====
-- postgres.go: reconcilePostgresDatabases and reconcilePostgresUsersInPostgreSQL, which run SQL where its
-- hash has changed.

-- What running SQL answers: whether pgAudit and PostGIS could be enabled, and the error of the rest. Of
-- a hash there is safeHash32's answer: the SQL that is hashed enables pgAudit, enables PostGIS where it
-- is wanted, and creates the databases.
use Prim.Native.String.{len}
use ivory_operator.Instances.Observe.{writable_pod_in, ObservedInstances, writable_pod}
use ivory_operator.Kube.{found, failed, Answer}
use ivory_operator.Prelude.{
  GoMap, Labels, label, ltb, none, str_eq, some, ◌&&◌, ◌||◌, not, ◌++◌, is_none, [], if◌then◌else◌,
  ◌∷◌, String, Option, List, Bool,
}
use ivory_operator.Upgrade.{container_database}
use ivory_operator.Users.{UserSecret, UserSpec, UsersSpec}

pub record SqlEnv (E : Type 0) : Type 0 where
  pub revision_of : Bool → List String → Answer E String
  pub enable_pgaudit : Bool
  pub enable_postgis : Bool
  pub run : List String → Option E
  -- sets.String's List
  pub sorted : List String → List String

-- The error, the revision of the status, what was run, newest first, and the warnings.
pub record SqlOutcome (E A : Type 0) : Type 0 where
  pub err : Option E
  pub revision : String
  pub ran : List A
  pub events : List String

-- The databases that should exist, and the warnings.
unfoldable pub databases_of : List UserSpec → List String
databases_of [] = []
databases_of (user ∷ rest) = user.databases ++ databases_of rest

unfoldable pub wanted_databases : UsersSpec → List String × List String
unfolding databases_of
wanted_databases spec = elim spec.users [
  | none ↦
      if ltb 63 (len spec.cluster_name)
      then ([], "InvalidDatabase" ∷ [])
      else (spec.cluster_name ∷ [], [])
  | some users ↦ (databases_of users, [])
]

-- Nothing is run.
abbrev pub settled : {E A : Type 0} → Option E → String → List String → SqlOutcome E A
settled err revision events = record { err = err; revision = revision; ran = []; events = events }

module _ {E : Type 0} (env : SqlEnv E) where
  -- The warnings of `create` where it is executed.
  unfoldable pub extension_events : Bool → List String → List String
  extension_events wants_postgis events =
      let audited = if env.enable_pgaudit then events else "pgAuditDisabled" ∷ events in
      if not wants_postgis || env.enable_postgis then audited else "PostGISDisabled" ∷ audited

  unfoldable pub run_create :
      Bool → List String → String → String → List String → SqlOutcome E (List String)
  unfolding extension_events
  run_create wants_postgis databases revision old events = record {
    err = env.run databases;
    revision =
        if is_none (env.run databases)
          && (env.enable_pgaudit && (not wants_postgis || env.enable_postgis))
        then revision
        else old;
    ran = databases ∷ [];
    events = extension_events wants_postgis events;
  }

  unfoldable pub revise_databases :
      Bool → List String → String → List String → Answer E String → SqlOutcome E (List String)
  unfolding run_create
  revise_databases wants_postgis databases old events (failed e) = settled (some e) old events
  revise_databases wants_postgis databases old events (found revision) =
      if str_eq revision old
      then settled none old events
      else run_create wants_postgis databases revision old events

  unfoldable pub reconcile_postgres_databases :
      UsersSpec → Bool → Option ObservedInstances → String → SqlOutcome E (List String)
  unfolding revise_databases wanted_databases writable_pod
  reconcile_postgres_databases spec wants_postgis instances old =
      elim (writable_pod container_database instances) [
        | none ↦ settled none old []
        | some (pod, instance) ↦
            let (databases, events) = wanted_databases spec in
            let names = env.sorted databases in
            revise_databases wants_postgis names old events (env.revision_of wants_postgis names)
      ]

-- What writing the users answers, and safeHash32 of that.
pub record UsersSqlEnv (E : Type 0) : Type 0 where
  pub revision_of_users : List UserSpec → Labels → Answer E String
  pub write_users : List UserSpec → Labels → Option E

-- The verifier of each secret, by its user.
unfoldable pub verifiers_of : GoMap UserSecret → Labels
unfolding label
verifiers_of [] = []
verifiers_of ((user_name, secret) ∷ rest) =
    (user_name, label "verifier" secret.entries) ∷ verifiers_of rest

module _ {E : Type 0} (env : UsersSqlEnv E) where
  unfoldable pub write_revision :
      List UserSpec → Labels → String → String → SqlOutcome E (List UserSpec × Labels)
  write_revision users verifiers revision old = record {
    err = env.write_users users verifiers;
    revision = if is_none (env.write_users users verifiers) then revision else old;
    ran = (users, verifiers) ∷ [];
    events = [];
  }

  unfoldable pub revise_users :
      List UserSpec → Labels → String → Answer E String → SqlOutcome E (List UserSpec × Labels)
  unfolding write_revision
  revise_users users verifiers old (failed e) = settled (some e) old []
  revise_users users verifiers old (found revision) =
      if str_eq revision old
      then settled none old []
      else write_revision users verifiers revision old

  unfoldable pub reconcile_postgres_users_in_postgresql :
      ObservedInstances
      → List UserSpec
      → GoMap UserSecret
      → String
      → SqlOutcome E (List UserSpec × Labels)
  unfolding revise_users verifiers_of writable_pod_in
  reconcile_postgres_users_in_postgresql instances users secrets old =
      elim (writable_pod_in container_database instances.for_cluster) [
        | none ↦ settled none old []
        | some (pod, instance) ↦
            let verifiers = verifiers_of secrets in
            revise_users users verifiers old (env.revision_of_users users verifiers)
      ]
