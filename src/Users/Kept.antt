-- ===== src/Users/Kept.antt =====
-- Which secrets of users reconcilePostgresUserSecrets deletes and applies.

use ivory_operator.Kube.{found, failed, Answer, Responses, LabelSets}
use ivory_operator.Prelude.{
  ◌∙◌, none, some, refl, str_eq, false, is_none, if_elim, ◌∷◌, lookup, true, [], Option, ◌≡◌,
  is_some, All, String, List, GoMap,
}
use ivory_operator.Users.{UserSecret, UserSpec, UsersSpec, UsersEnv}
use ivory_operator.Users.Secret.{generate_postgres_user_secret, Generated}
use ivory_operator.Users.Secrets.{
  no_secrets, deprecated_postgres_user_secret, apply_secret, existing_secret, secret_user,
  specified_users, index_users, delete_secret, SecretsState, delete_controlled_secret,
  reconcile_postgres_user_secrets, index_secret, index_secrets, apply_generated, reconcile_users,
  reconcile_user, SecretWrite,
}

module _ {E : Type 0} ⦃ls : LabelSets⦄ (env : UsersEnv E) (respond : Responses SecretWrite E)
    (spec : UsersSpec) where
  -- A deletion is of a secret that the cluster controls and whose user is not specified; an application
  -- is of a secret generated, owned by the cluster, for one of the users.
  abbrev pub IsDueWrite : GoMap UserSpec → SecretWrite → Type 0
  IsDueWrite users (delete_secret secret) =
      (secret.controlled ≡ true) × (is_some (lookup (secret_user secret) users) ≡ false)
  IsDueWrite users (apply_secret secret) =
      (user : UserSpec) × (existing : Option UserSecret) × (generate_postgres_user_secret env spec
          user existing
        ≡ record { secret = some secret; err = none })

  delete_controlled_secret-IsDueWrite :
      (users : GoMap UserSpec) (secret : UserSecret) (s : SecretsState E)
      → is_some (lookup (secret_user secret) users) ≡ false
      → All (IsDueWrite users) s.writes
      → All (IsDueWrite users) (delete_controlled_secret env respond spec secret s).writes
  unfolding delete_controlled_secret
  delete_controlled_secret-IsDueWrite users secret s unspecified due =
      if_elim {A = SecretsState E} (λ t. All (IsDueWrite users) t.writes) secret.controlled
        (λ ours. ((ours, unspecified), due)) (λ other. due)

  index_secret-IsDueWrite :
      (users : GoMap UserSpec) (secret : UserSecret) (s : SecretsState E)
      → All (IsDueWrite users) s.writes
      → All (IsDueWrite users) (index_secret env respond spec users secret s).writes
  unfolding index_secret
  index_secret-IsDueWrite users secret s due =
      if_elim {A = SecretsState E} (λ t. All (IsDueWrite users) t.writes)
        (is_some (lookup (secret_user secret) users))
        (λ specified.
          if_elim {A = SecretsState E} (λ t. All (IsDueWrite users) t.writes)
            (str_eq secret.name (deprecated_postgres_user_secret spec.cluster_name))
            (λ default_name. due) (λ other. due))
        (λ unspecified.
          if_elim {A = SecretsState E} (λ t. All (IsDueWrite users) t.writes) (is_none s.err)
            (λ going. delete_controlled_secret-IsDueWrite users secret s unspecified due)
            (λ stopped. due))

  index_secrets-IsDueWrite :
      (users : GoMap UserSpec) (secrets : List UserSecret) (s : SecretsState E)
      → All (IsDueWrite users) s.writes
      → All (IsDueWrite users) (index_secrets env respond spec users secrets s).writes
  unfolding index_secrets
  index_secrets-IsDueWrite users [] s due = due
  index_secrets-IsDueWrite users (secret ∷ rest) s due =
      index_secrets-IsDueWrite users rest (index_secret env respond spec users secret s)
        (index_secret-IsDueWrite users secret s due)

  apply_generated-IsDueWrite :
      (users : GoMap UserSpec) (user_name : String) (user : UserSpec) (existing : Option UserSecret)
      (g : Generated E) (s : SecretsState E)
      → generate_postgres_user_secret env spec user existing ≡ g
      → All (IsDueWrite users) s.writes
      → All (IsDueWrite users) (apply_generated env respond spec user_name g s).writes
  unfolding apply_generated
  apply_generated-IsDueWrite users user_name user existing g s made due =
      from_generated g.secret g.err refl refl
    where
      from_generated :
          (secret : Option UserSecret) (err : Option E)
          → g.secret ≡ secret
          → g.err ≡ err
          → All (IsDueWrite users) (apply_generated env respond spec user_name g s).writes
      from_generated none err e1 e2 = rw (e1, All) due
      from_generated (some secret) (some e) e1 e2 = rw (e1, e2, All) due
      from_generated (some secret) none e1 e2 =
          rw (e1, e2, All)
            ((user, existing, made ∙ (λ i. record { secret = e1 i; err = e2 i })), due)

  reconcile_user-IsDueWrite :
      (users : GoMap UserSpec) (user_name : String) (user : UserSpec) (s : SecretsState E)
      → All (IsDueWrite users) s.writes
      → All (IsDueWrite users) (reconcile_user env respond spec user_name user s).writes
  unfolding reconcile_user
  reconcile_user-IsDueWrite users user_name user s due =
      if_elim {A = SecretsState E} (λ t. All (IsDueWrite users) t.writes) (is_none s.err)
        (λ going.
          apply_generated-IsDueWrite users user_name user
            (existing_secret env respond spec user_name s)
            (generate_postgres_user_secret env spec user
              (existing_secret env respond spec user_name s))
            s refl due)
        (λ stopped. due)

  reconcile_users-IsDueWrite :
      (users visited : GoMap UserSpec) (s : SecretsState E)
      → All (IsDueWrite users) s.writes
      → All (IsDueWrite users) (reconcile_users env respond spec visited s).writes
  unfolding reconcile_users
  reconcile_users-IsDueWrite users [] s due = due
  reconcile_users-IsDueWrite users ((user_name, user) ∷ rest) s due =
      reconcile_users-IsDueWrite users rest (reconcile_user env respond spec user_name user s)
        (reconcile_user-IsDueWrite users user_name user s due)

  -- Whatever is listed and answered, and in whatever order the users are visited, a secret that is deleted
  -- is controlled by the cluster and of no specified user, and a secret that is applied was generated for
  -- a user without an error.
  pub reconcile_postgres_user_secrets-IsDueWrite :
      (range : GoMap UserSpec → GoMap UserSpec) (listed : Answer E (List UserSecret))
      → All
          (IsDueWrite (index_users (specified_users env spec).0 []))
          (reconcile_postgres_user_secrets env respond spec range listed).1.writes
  unfolding reconcile_postgres_user_secrets
  reconcile_postgres_user_secrets-IsDueWrite range (failed e) =
      let users = index_users (specified_users env spec).0 [] in
      reconcile_users-IsDueWrite users (range users) (no_secrets (some e)) tt
  reconcile_postgres_user_secrets-IsDueWrite range (found secrets) =
      let users = index_users (specified_users env spec).0 [] in
      reconcile_users-IsDueWrite users (range users)
        (index_secrets env respond spec users secrets (no_secrets none))
        (index_secrets-IsDueWrite users secrets (no_secrets none) tt)
