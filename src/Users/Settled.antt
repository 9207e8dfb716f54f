-- ===== src/Users/Settled.antt =====
-- The SQL for databases and users is run until it has succeeded, and then no more until it changes.

use ivory_operator.Instances.Observe.{writable_pod_in, writable_pod, ObservedInstances}
use ivory_operator.Kube.{found, failed, Answer}
use ivory_operator.Prelude.{
  GoMap, inr, inl, Bool-cases, refl, eq_iff, Option-cases, arith, str_eq, some≢none, [], true,
  false, none, ◌≡◌, Labels, ◌||◌, String, not, Option, ◌&&◌, List, Bool,
}
use ivory_operator.Upgrade.{container_database}
use ivory_operator.Users.{UserSecret, UserSpec, UsersSpec}
use ivory_operator.Users.Revisions.{
  verifiers_of, wanted_databases, reconcile_postgres_users_in_postgresql, settled, revise_users,
  reconcile_postgres_databases, revise_databases, UsersSqlEnv, SqlEnv,
}

module _ {E : Type 0} (env : SqlEnv E) where
  -- The extensions that are wanted could be enabled.
  abbrev pub extensions_enabled : Bool → Bool
  extensions_enabled wants_postgis = env.enable_pgaudit && (not wants_postgis || env.enable_postgis)

  revise_databases-settles :
      (wants_postgis : Bool) (databases : List String) (old : String) (events : List String)
      (answer : Answer E String)
      → (revise_databases env wants_postgis databases old events answer).err ≡ none
      → extensions_enabled wants_postgis ≡ true
      → revise_databases env wants_postgis databases
          (revise_databases env wants_postgis databases old events answer).revision
          events
          answer
        ≡ settled none
            (revise_databases env wants_postgis databases old events answer).revision
            events
  unfolding revise_databases
  revise_databases-settles wants_postgis databases old events (failed e) ok enabled =
      absurd (some≢none ok)
  revise_databases-settles wants_postgis databases old events (found revision) ok enabled =
      let same : str_eq revision revision ≡ true = (eq_iff revision revision).1 refl in
      elim (Bool-cases (str_eq revision old)) [
        | inl e ↦ ground (arith, e)
        | inr e ↦ elim (Option-cases (env.run databases)) [
          | inl ran ↦ ground (arith, e, ran, same)
          | inr (err, bad) ↦ ground (arith, e, bad)
        ]
      ]

  revise_databases-retries :
      (wants_postgis : Bool) (databases : List String) (old : String) (events : List String)
      (answer : Answer E String)
      → extensions_enabled wants_postgis ≡ false
      → (revise_databases env wants_postgis databases old events answer).revision ≡ old
  unfolding revise_databases
  revise_databases-retries wants_postgis databases old events (failed e) missing = refl
  revise_databases-retries wants_postgis databases old events (found revision) missing =
      ground arith

  -- After a turn without an error, in which the wanted extensions could be enabled, the same turn runs
  -- no SQL and changes no revision.
  pub reconcile_postgres_databases-settles :
      (spec : UsersSpec) (wants_postgis : Bool) (instances : Option ObservedInstances)
      (old : String)
      → (reconcile_postgres_databases env spec wants_postgis instances old).err ≡ none
      → extensions_enabled wants_postgis ≡ true
      → let after = (reconcile_postgres_databases env spec wants_postgis instances old).revision in
        ((reconcile_postgres_databases env spec wants_postgis instances after).ran ≡ [])
        × ((reconcile_postgres_databases env spec wants_postgis instances after).revision ≡ after)
  unfolding reconcile_postgres_databases
  reconcile_postgres_databases-settles spec wants_postgis instances old ok enabled =
      elim (Option-cases (writable_pod container_database instances)) [
        | inl e ↦ (ground (arith, e), ground (arith, e))
        | inr ((pod, instance), e) ↦
            let (databases, events) = wanted_databases spec in
            let names = env.sorted databases in
            let again =
              revise_databases-settles wants_postgis names old events
                (env.revision_of wants_postgis names) (ground (arith, e)) enabled in
            (ground (arith, e, again), ground (arith, e, again))
      ]

  -- Where an extension that is wanted could not be enabled, the revision stays, and so the SQL is due again.
  pub reconcile_postgres_databases-retries :
      (spec : UsersSpec) (wants_postgis : Bool) (instances : Option ObservedInstances)
      (old : String)
      → extensions_enabled wants_postgis ≡ false
      → (reconcile_postgres_databases env spec wants_postgis instances old).revision ≡ old
  unfolding reconcile_postgres_databases
  reconcile_postgres_databases-retries spec wants_postgis instances old missing =
      elim (Option-cases (writable_pod container_database instances)) [
        | inl e ↦ ground (arith, e)
        | inr ((pod, instance), e) ↦
            let (databases, events) = wanted_databases spec in
            let names = env.sorted databases in
            ground (
              arith,
              e,
              revise_databases-retries wants_postgis names old events
                  (env.revision_of wants_postgis names) missing,
            )
      ]

module _ {E : Type 0} (env : UsersSqlEnv E) where
  revise_users-settles :
      (users : List UserSpec) (verifiers : Labels) (old : String) (answer : Answer E String)
      → (revise_users env users verifiers old answer).err ≡ none
      → revise_users env users verifiers
          (revise_users env users verifiers old answer).revision
          answer
        ≡ settled none (revise_users env users verifiers old answer).revision []
  unfolding revise_users
  revise_users-settles users verifiers old (failed e) ok = absurd (some≢none ok)
  revise_users-settles users verifiers old (found revision) ok =
      let same : str_eq revision revision ≡ true = (eq_iff revision revision).1 refl in
      elim (Bool-cases (str_eq revision old)) [
        | inl e ↦ ground (arith, e)
        | inr e ↦ elim (Option-cases (env.write_users users verifiers)) [
          | inl ran ↦ ground (arith, e, ran, same)
          | inr (err, bad) ↦ ground (arith, e, bad)
        ]
      ]

  -- After a turn without an error the same turn, for the same users and secrets, runs no SQL and changes
  -- no revision.
  pub reconcile_postgres_users_in_postgresql-settles :
      (instances : ObservedInstances) (users : List UserSpec) (secrets : GoMap UserSecret)
      (old : String)
      → (reconcile_postgres_users_in_postgresql env instances users secrets old).err ≡ none
      → let after =
          (reconcile_postgres_users_in_postgresql env instances users secrets old).revision in
        ((reconcile_postgres_users_in_postgresql env instances users secrets after).ran ≡ [])
        × ((reconcile_postgres_users_in_postgresql env instances users secrets after).revision
            ≡ after)
  unfolding reconcile_postgres_users_in_postgresql
  reconcile_postgres_users_in_postgresql-settles instances users secrets old ok =
      elim (Option-cases (writable_pod_in container_database instances.for_cluster)) [
        | inl e ↦ (ground (arith, e), ground (arith, e))
        | inr ((pod, instance), e) ↦
            let verifiers = verifiers_of secrets in
            let again =
              revise_users-settles users verifiers old (env.revision_of_users users verifiers)
                (ground (arith, e)) in
            (ground (arith, e, again), ground (arith, e, again))
      ]
