-- ===== src/Users.antt =====
-- internal/controller/postgrescluster/postgres.go: the users of a cluster, their secrets and databases.
pub mod Secret
pub mod Alike
pub mod Verified
pub mod Secrets
pub mod Kept
pub mod Revisions
pub mod Settled
-- v1beta1.PostgresUserSpec; `password_type` is that of its Password, where it has one.
use ivory_operator.Kube.{Answer}
use ivory_operator.Prelude.{ℕ, List, Bool, Option, Labels, String}

pub record UserSpec : Type 0 where
  pub name : String
  pub password_type : Option String
  pub databases : List String

-- A Secret of a user: its Data holds text, and nil as "". `controlled` is IsControlledBy of the cluster.
pub record UserSecret : Type 0 where
  pub name : String
  pub labels : Labels
  pub annotations : Labels
  pub entries : Labels
  pub controlled : Bool

-- What is read of the cluster; a port of PgBouncer is there where PgBouncer is enabled.
pub record UsersSpec : Type 0 where
  pub cluster_name : String
  pub namespace : String
  pub metadata_labels : Labels
  pub metadata_annotations : Labels
  pub port : ℕ
  pub pgbouncer_port : Option ℕ
  pub users : Option (List UserSpec)

-- What the libraries and the rest of the operator answer: the password generators, the SCRAM verifier of
-- a password, net.JoinHostPort, net/url for the two kinds of URI, the owner of a secret, the pattern of
-- user names, and the API, given the writes before, newest first.
pub record UsersEnv (E : Type 0) : Type 0 where
  pub generate_ascii : String → Answer E String
  pub generate_alphanumeric : String → Answer E String
  pub build_verifier : String → Answer E String
  pub join_host_port : String → String → String
  pub user_uri : String → String → String → String → String
  pub jdbc_uri : String → String → Labels → String
  pub set_controller : UserSecret → Option E
  pub matches_user : String → Bool

abbrev pub label_postgres_user : String
label_postgres_user = "postgres-operator.crunchydata.com/pguser"

abbrev pub password_alpha_numeric : String
password_alpha_numeric = "AlphaNumeric"
