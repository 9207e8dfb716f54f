-- ===== src/Samples/Users.antt =====
-- A cluster with one user, whose secret is there, and a secret of a user that is gone.

use ivory_operator.Instances.{is_terminating, is_writable}
use ivory_operator.Instances.Observe.{ObservedInstances}
use ivory_operator.Kube.{found, Answer, Responses}
use ivory_operator.Prelude.{
  true, refl, List, some, ◌∷◌, ◌≡◌, none, [], length, label, false, get_or, concat, All, String,
}
use ivory_operator.Samples.Instances.{leader_pod, instance_with}
use ivory_operator.Samples.Kube.{sample_labels, sample_conditions, SampleError}
use ivory_operator.Users.{label_postgres_user, UserSecret, UserSpec, UsersEnv, UsersSpec}
use ivory_operator.Users.Kept.{reconcile_postgres_user_secrets-IsDueWrite, IsDueWrite}
use ivory_operator.Users.Revisions.{SqlEnv, reconcile_postgres_databases}
use ivory_operator.Users.Secret.{Generated, generate_postgres_user_secret}
use ivory_operator.Users.Secrets.{
  specified_users, index_users, SecretWrite, reconcile_postgres_user_secrets,
}
use ivory_operator.Users.Settled.{reconcile_postgres_databases-settles}
use ivory_operator.Users.Verified.{generate_postgres_user_secret-IsVerified, IsVerified}

abbrev ann : UserSpec
ann = record { name = "ann"; password_type = none; databases = "app" ∷ [] }

abbrev sample_users_spec : UsersSpec
sample_users_spec = record {
  cluster_name = "hippo";
  namespace = "ns";
  metadata_labels = [];
  metadata_annotations = [];
  port = 5432;
  pgbouncer_port = some 5431;
  users = some (ann ∷ []);
}

abbrev sample_users_env : UsersEnv SampleError
sample_users_env = record {
  generate_ascii = λ user. found "new";
  generate_alphanumeric = λ user. found "new";
  build_verifier = λ password. found (concat ("SCRAM " ∷ password ∷ []));
  join_host_port = λ host port. concat (host ∷ ":" ∷ port ∷ []);
  user_uri = λ user password host path. concat (user ∷ "@" ∷ host ∷ []);
  jdbc_uri = λ host path query. host;
  set_controller = λ secret. none;
  matches_user = λ name. true;
}

abbrev secret_of : String → String → UserSecret
secret_of user password = record {
  name = concat ("hippo-pguser-" ∷ user ∷ []);
  labels = (label_postgres_user, user) ∷ [];
  annotations = [];
  entries = ("password", password) ∷ [];
  controlled = true;
}

-- The password is kept, and a verifier is added.
abbrev generated_for_ann : Generated SampleError
generated_for_ann =
    generate_postgres_user_secret sample_users_env sample_users_spec ann
      (some (secret_of "ann" "old"))

abbrev ann_secret : UserSecret
ann_secret = get_or generated_for_ann.secret (secret_of "nobody" "")

kept_test :
    (label "password" ann_secret.entries ≡ "old")
    × (label "verifier" ann_secret.entries ≡ "SCRAM old")
unfolding generate_postgres_user_secret label concat
kept_test = (refl, refl)

generate_postgres_user_secret-IsVerified_example :
    IsVerified sample_users_env (some (secret_of "ann" "old")) ann_secret
unfolding generate_postgres_user_secret
generate_postgres_user_secret-IsVerified_example =
    generate_postgres_user_secret-IsVerified sample_users_env sample_users_spec ann
      (some (secret_of "ann" "old")) ann_secret refl

abbrev accepts_secrets : Responses SecretWrite SampleError
accepts_secrets before call = none

abbrev listed_secrets : Answer SampleError (List UserSecret)
listed_secrets = found (secret_of "ann" "old" ∷ secret_of "bob" "gone" ∷ [])

two_writes_test :
    length
      (reconcile_postgres_user_secrets sample_users_env accepts_secrets sample_users_spec
        (λ m. m)
        listed_secrets).1.writes
    ≡ 2
unfolding reconcile_postgres_user_secrets
two_writes_test = refl

reconcile_postgres_user_secrets-IsDueWrite_example :
    All
      (IsDueWrite sample_users_env accepts_secrets sample_users_spec
        (index_users (specified_users sample_users_env sample_users_spec).0 []))
      (reconcile_postgres_user_secrets sample_users_env accepts_secrets sample_users_spec
        (λ m. m)
        listed_secrets).1.writes
reconcile_postgres_user_secrets-IsDueWrite_example =
    reconcile_postgres_user_secrets-IsDueWrite sample_users_env accepts_secrets sample_users_spec
      (λ m. m) listed_secrets

abbrev sample_sql_env : SqlEnv SampleError
sample_sql_env = record {
  revision_of = λ wants_postgis names. found (concat names);
  enable_pgaudit = true;
  enable_postgis = false;
  run = λ names. none;
  sorted = λ names. names;
}

abbrev sample_instances : ObservedInstances
sample_instances = record {
  by_name = [];
  by_set = [];
  for_cluster = instance_with leader_pod ∷ [];
  set_names = [];
}

reconcile_postgres_databases-settles_example :
    let after =
      (reconcile_postgres_databases sample_sql_env sample_users_spec false
        (some sample_instances)
        "").revision in
    ((reconcile_postgres_databases sample_sql_env sample_users_spec false
        (some sample_instances)
        after).ran
      ≡ [])
    × ((reconcile_postgres_databases sample_sql_env sample_users_spec false
          (some sample_instances)
          after).revision
        ≡ after)
unfolding reconcile_postgres_databases is_terminating is_writable label
reconcile_postgres_databases-settles_example =
    reconcile_postgres_databases-settles sample_sql_env sample_users_spec false
      (some sample_instances) "" refl refl
