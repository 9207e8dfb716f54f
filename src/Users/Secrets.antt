-- ===== src/Users/Secrets.antt =====
-- postgres.go: reconcilePostgresUserSecrets.

use Prim.Native.String.{len}
use ivory_operator.Kube.{found, failed, Answer, Responses, LabelSets}
use ivory_operator.Prelude.{
  not, ◌||◌, str_eq, none, ltb, is_none, is_some, some, [], ◌∷◌, if◌then◌else◌, lookup, String,
  List, Option, GoMap, concat, label, insert,
}
use ivory_operator.Users.{label_postgres_user, UserSpec, UsersSpec, UserSecret, UsersEnv}
use ivory_operator.Users.Secret.{generate_postgres_user_secret, Generated}

unfoldable pub deprecated_postgres_user_secret : String → String
unfolding concat
deprecated_postgres_user_secret cluster_name = concat (cluster_name ∷ "-pguser" ∷ [])

-- What the API answers, given the secrets that were written and deleted before, newest first.
pub data SecretWrite : Type 0 where
  delete_secret : UserSecret → SecretWrite
  apply_secret : UserSecret → SecretWrite

-- The users that are acted on, and the warnings: without users one of the cluster's name, where that is
-- a valid name of a user.
unfoldable pub specified_users : {E : Type 0} → UsersEnv E → UsersSpec → List UserSpec × List String
specified_users env spec = elim spec.users [
  | some users ↦ (users, [])
  | none ↦
      if ltb 63 (len spec.cluster_name) || not (env.matches_user spec.cluster_name)
      then ([], "InvalidUser" ∷ [])
      else (
        record {
          name = spec.cluster_name;
          password_type = none;
          databases = spec.cluster_name ∷ [];
        }
            ∷ [],
        [],
      )
]

-- The index of the specifications: a later user of a name wins.
unfoldable pub index_users : List UserSpec → GoMap UserSpec → GoMap UserSpec
unfolding insert
index_users [] m = m
index_users (user ∷ rest) m = index_users rest (insert user.name user m)

-- The state of the two loops: the secrets by user, the deprecated default secret with its user, the
-- error and the writes, newest first.
pub record SecretsState (E : Type 0) : Type 0 where
  pub user_secrets : GoMap UserSecret
  pub default_secret : Option (String × UserSecret)
  pub err : Option E
  pub writes : List SecretWrite

abbrev pub no_secrets : {E : Type 0} → Option E → SecretsState E
no_secrets err = record { user_secrets = []; default_secret = none; err = err; writes = [] }

unfoldable pub secret_user : UserSecret → String
unfolding label
secret_user secret = label label_postgres_user secret.labels

module _ {E : Type 0} ⦃ls : LabelSets⦄ (env : UsersEnv E) (respond : Responses SecretWrite E)
    (spec : UsersSpec) where
  -- deleteControlled
  unfoldable pub delete_controlled_secret : UserSecret → SecretsState E → SecretsState E
  delete_controlled_secret secret s =
      if secret.controlled
      then record s {
        err = respond s.writes (delete_secret secret);
        writes = delete_secret secret ∷ s.writes;
      }
      else s

  -- One secret of the list.
  unfoldable pub index_secret : GoMap UserSpec → UserSecret → SecretsState E → SecretsState E
  unfolding delete_controlled_secret secret_user lookup insert deprecated_postgres_user_secret
  index_secret users secret s =
      if is_some (lookup (secret_user secret) users)
      then (if str_eq secret.name (deprecated_postgres_user_secret spec.cluster_name)
          then record s { default_secret = some (secret_user secret, secret) }
          else record s { user_secrets = insert (secret_user secret) secret s.user_secrets })
      else if is_none s.err
      then delete_controlled_secret secret s
      else s

  unfoldable pub index_secrets : GoMap UserSpec → List UserSecret → SecretsState E → SecretsState E
  unfolding index_secret
  index_secrets users [] s = s
  index_secrets users (secret ∷ rest) s = index_secrets users rest (index_secret users secret s)

  -- The secret that a user has, else the deprecated one, where it is of the user.
  unfoldable pub existing_secret : String → SecretsState E → Option UserSecret
  unfolding lookup
  existing_secret user_name s = elim (lookup user_name s.user_secrets) [
    | some secret ↦ some secret
    | none ↦ elim s.default_secret [
      | none ↦ none
      | some (of_user, secret) ↦ if str_eq user_name of_user then some secret else none
    ]
  ]

  -- A secret that was generated is kept in the index, and applied unless there was an error. A nil secret
  -- comes with an error, after which the index is not read.
  unfoldable pub apply_generated : String → Generated E → SecretsState E → SecretsState E
  unfolding insert
  apply_generated user_name g s = elim g.secret [
    | none ↦ record s { err = g.err }
    | some secret ↦
        let known = insert user_name secret s.user_secrets in
        if is_none g.err
        then record s {
          user_secrets = known;
          err = respond s.writes (apply_secret secret);
          writes = apply_secret secret ∷ s.writes;
        }
        else record s { user_secrets = known; err = g.err }
  ]

  unfoldable pub reconcile_user : String → UserSpec → SecretsState E → SecretsState E
  unfolding apply_generated existing_secret generate_postgres_user_secret
  reconcile_user user_name user s =
      if is_none s.err
      then apply_generated user_name
          (generate_postgres_user_secret env spec user (existing_secret user_name s)) s
      else s

  unfoldable pub reconcile_users : GoMap UserSpec → SecretsState E → SecretsState E
  unfolding reconcile_user
  reconcile_users [] s = s
  reconcile_users ((user_name, user) ∷ rest) s =
      reconcile_users rest (reconcile_user user_name user s)

  -- `range` gives the entries of the map in the order in which it visits them, which is up to the map.
  unfoldable pub reconcile_postgres_user_secrets :
      (GoMap UserSpec → GoMap UserSpec)
      → Answer E (List UserSecret)
      → List UserSpec × SecretsState E
  unfolding reconcile_users index_secrets index_users specified_users
  reconcile_postgres_user_secrets range listed =
      let users = (specified_users env spec).0 in
      let user_specs = index_users users [] in
      (
        users,
        reconcile_users (range user_specs) (elim listed [
          | failed e ↦ no_secrets (some e)
          | found secrets ↦ index_secrets user_specs secrets (no_secrets none)
        ]),
      )
