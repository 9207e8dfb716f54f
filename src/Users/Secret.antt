-- ===== src/Users/Secret.antt =====
-- postgres.go: generatePostgresUserSecret. The entries are made in the order of the code.

use ivory_operator.Backups.{merge_labels}
use ivory_operator.Kube.{found, failed, Answer, LabelSets}
use ivory_operator.Prelude.{
  ℕ, List, true, str_eq, some, none, is_empty, if◌then◌else◌, [], ◌∷◌, String, decimal, Labels,
  label, Option, concat, insert,
}
use ivory_operator.Upgrade.{label_role, label_cluster}
use ivory_operator.Users.{
  password_alpha_numeric, label_postgres_user, UsersSpec, UserSpec, UserSecret, UsersEnv,
}

unfoldable pub postgres_user_secret_name : String → String → String
unfolding concat
postgres_user_secret_name cluster_name user_name =
    concat (cluster_name ∷ "-pguser-" ∷ user_name ∷ [])

-- `name.namespace.svc`
unfoldable pub service_host : String → String → String
unfolding concat
service_host name namespace = concat (name ∷ "." ∷ namespace ∷ ".svc" ∷ [])

-- The host, the port and the user, and what an existing secret holds of the password.
unfoldable pub base_entries : UsersSpec → String → Option UserSecret → Labels
unfolding insert label service_host concat decimal
base_entries spec user_name existing =
    let host = service_host (concat (spec.cluster_name ∷ "-primary" ∷ [])) spec.namespace in
    let m = insert "user" user_name (insert "port" (decimal spec.port) (insert "host" host [])) in
    elim existing [
      | none ↦ m
      | some secret ↦
          insert "verifier" (label "verifier" secret.entries)
            (insert "password" (label "password" secret.entries) m)
    ]

-- A secret and its error, either of which may be nil.
pub record Generated (E : Type 0) : Type 0 where
  pub secret : Option UserSecret
  pub err : Option E

module _ {E : Type 0} (env : UsersEnv E) where
  unfoldable pub generate_password : UserSpec → Answer E String
  generate_password user = elim user.password_type [
    | none ↦ env.generate_ascii user.name
    | some t ↦
        if str_eq t password_alpha_numeric
        then env.generate_alphanumeric user.name
        else env.generate_ascii user.name
  ]

  -- A new password drops the verifier.
  unfoldable pub with_password : Labels → Answer E String → Answer E Labels
  unfolding insert
  with_password m (failed e) = failed e
  with_password m (found password) = found (insert "verifier" "" (insert "password" password m))

  unfoldable pub ensure_password : UserSpec → Labels → Answer E Labels
  unfolding with_password generate_password label
  ensure_password user m =
      if is_empty (label "password" m) then with_password m (generate_password user) else found m

  unfoldable pub with_verifier : Labels → Answer E String → Answer E Labels
  unfolding insert
  with_verifier m (failed e) = failed e
  with_verifier m (found verifier) = found (insert "verifier" verifier m)

  unfoldable pub ensure_verifier : Labels → Answer E Labels
  unfolding with_verifier label
  ensure_verifier m =
      if is_empty (label "verifier" m)
      then with_verifier m (env.build_verifier (label "password" m))
      else found m

  -- The database and the URIs, where a database is specified.
  unfoldable pub add_database : String → String → String → List String → Labels → Labels
  unfolding insert label
  add_database host port user_name [] m = m
  add_database host port user_name (database ∷ rest) m =
      let password = label "password" m in
      let query : Labels = insert "password" password (insert "user" user_name []) in
      insert "jdbc-uri" (env.jdbc_uri (env.join_host_port host port) database query) (
        insert "uri" (env.user_uri user_name password (env.join_host_port host port) database)
          (insert "dbname" database m))

  unfoldable pub add_pgbouncer_database : String → String → String → List String → Labels → Labels
  unfolding insert label
  add_pgbouncer_database host port user_name [] m = m
  add_pgbouncer_database host port user_name (database ∷ rest) m =
      let password = label "password" m in
      let query : Labels =
        insert "prepareThreshold" "0" (insert "password" password (insert "user" user_name [])) in
      insert "pgbouncer-jdbc-uri" (env.jdbc_uri (env.join_host_port host port) database query) (
        insert "pgbouncer-uri"
          (env.user_uri user_name password (env.join_host_port host port) database) m)

  unfoldable pub add_pgbouncer_port : UsersSpec → UserSpec → Labels → Option ℕ → Labels
  unfolding insert add_pgbouncer_database service_host concat decimal
  add_pgbouncer_port spec user m none = m
  add_pgbouncer_port spec user m (some number) =
      let host = service_host (concat (spec.cluster_name ∷ "-pgbouncer" ∷ [])) spec.namespace in
      let port = decimal number in
      add_pgbouncer_database host port user.name user.databases
        (insert "pgbouncer-port" port (insert "pgbouncer-host" host m))

  unfoldable pub add_pgbouncer : UsersSpec → UserSpec → Labels → Labels
  unfolding add_pgbouncer_port
  add_pgbouncer spec user m = add_pgbouncer_port spec user m spec.pgbouncer_port

  -- The secret of its entries, once the password and the verifier are there.
  unfoldable pub finish_secret : ⦃ls : LabelSets⦄ → UsersSpec → UserSpec → Labels → Generated E
  unfolding add_database add_pgbouncer postgres_user_secret_name service_host concat decimal
      merge_labels
  finish_secret spec user m =
      let host = service_host (concat (spec.cluster_name ∷ "-primary" ∷ [])) spec.namespace in
      let entries =
        add_pgbouncer spec user
          (add_database host (decimal spec.port) user.name user.databases m) in
      let own : Labels =
        (label_cluster, spec.cluster_name)
        ∷ (label_role, "pguser")
        ∷ (label_postgres_user, user.name)
        ∷ [] in
      let secret : UserSecret = record {
        name = postgres_user_secret_name spec.cluster_name user.name;
        labels = merge_labels (spec.metadata_labels ∷ own ∷ []);
        annotations = spec.metadata_annotations;
        entries = entries;
        controlled = true;
      } in
      record { secret = some secret; err = env.set_controller secret }

  unfoldable pub verify_entries :
      ⦃ls : LabelSets⦄ → UsersSpec → UserSpec → Answer E Labels → Generated E
  unfolding finish_secret
  verify_entries spec user (failed e) = record { secret = none; err = some e }
  verify_entries spec user (found m) = finish_secret spec user m

  unfoldable pub secure_entries :
      ⦃ls : LabelSets⦄ → UsersSpec → UserSpec → Answer E Labels → Generated E
  unfolding verify_entries ensure_verifier
  secure_entries spec user (failed e) = record { secret = none; err = some e }
  secure_entries spec user (found m) = verify_entries spec user (ensure_verifier m)

  unfoldable pub generate_postgres_user_secret :
      ⦃ls : LabelSets⦄ → UsersSpec → UserSpec → Option UserSecret → Generated E
  unfolding secure_entries ensure_password base_entries
  generate_postgres_user_secret spec user existing =
      secure_entries spec user (ensure_password user (base_entries spec user.name existing))
