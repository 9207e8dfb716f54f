-- ===== src/Postgres.antt =====
-- internal/postgres/hba.go: the records of pg_hba.conf. Each setter gives the record that it changes
-- in place. `double_quotes` is strings.ReplaceAll of a quote by two, `trim_space` strings.TrimSpace.
pub mod Access
pub mod Parameters
use ivory_operator.Prelude.{str_eq, if◌then◌else◌, [], concat, Labels, ◌∷◌, List, String}

pub record HostBasedAuthentication : Type 0 where
  pub origin : String
  pub database : String
  pub user : String
  pub address : String
  pub method : String
  pub options : String

pub record Hbas : Type 0 where
  pub mandatory : List HostBasedAuthentication
  pub defaults : List HostBasedAuthentication

-- postgres.ReplicationUser
abbrev pub replication_user : String
replication_user = "_crunchyrepl"

unfoldable pub all_databases : HostBasedAuthentication → HostBasedAuthentication
all_databases hba = record hba { database = "all" }

unfoldable pub all_networks : HostBasedAuthentication → HostBasedAuthentication
all_networks hba = record hba { address = "all" }

unfoldable pub all_users : HostBasedAuthentication → HostBasedAuthentication
all_users hba = record hba { user = "all" }

unfoldable pub new_hba : HostBasedAuthentication
unfolding all_databases all_networks all_users
new_hba = all_users (
    all_networks (
      all_databases (record {
        origin = "";
        database = "";
        user = "";
        address = "";
        method = "";
        options = "";
      })))

unfoldable pub on_local : HostBasedAuthentication → HostBasedAuthentication
on_local hba = record hba { origin = "local" }

unfoldable pub with_method : String → HostBasedAuthentication → HostBasedAuthentication
with_method name hba = record hba { method = name }

unfoldable pub on_no_ssl : HostBasedAuthentication → HostBasedAuthentication
on_no_ssl hba = record hba { origin = "hostnossl" }

unfoldable pub of_replication : HostBasedAuthentication → HostBasedAuthentication
of_replication hba = record hba { database = "replication" }

unfoldable pub on_same_network : HostBasedAuthentication → HostBasedAuthentication
on_same_network hba = record hba { address = "samenet" }

unfoldable pub on_tls : HostBasedAuthentication → HostBasedAuthentication
on_tls hba = record hba { origin = "hostssl" }

unfoldable pub on_tcp : HostBasedAuthentication → HostBasedAuthentication
on_tcp hba = record hba { origin = "host" }

-- String
unfoldable pub to_text : (String → String) → HostBasedAuthentication → String
to_text trim_space hba = trim_space (
    concat (
      if str_eq hba.origin "local"
      then "local " ∷ hba.database ∷ " " ∷ hba.user ∷ " " ∷ hba.method ∷ " " ∷ hba.options ∷ []
      else hba.origin ∷ " " ∷ hba.database ∷ " " ∷ hba.user ∷ " " ∷ hba.address ∷ " " ∷ hba.method
        ∷ " " ∷ hba.options ∷ []))

module _ (double_quotes : String → String) where
  unfoldable pub quote : String → String
  quote value = concat ("\"" ∷ double_quotes value ∷ "\"" ∷ [])

  unfoldable pub of_database : String → HostBasedAuthentication → HostBasedAuthentication
  of_database name hba = record hba { database = quote name }

  unfoldable pub from_network : String → HostBasedAuthentication → HostBasedAuthentication
  from_network block hba = record hba { address = quote block }

  -- The loop of Options, over the entries in the order that range visits them.
  unfoldable pub join_options : Labels → String → String
  join_options [] text = text
  join_options ((k, v) ∷ rest) text =
      join_options rest (concat (text ∷ " " ∷ k ∷ "=" ∷ quote v ∷ []))

  unfoldable pub with_options : Labels → HostBasedAuthentication → HostBasedAuthentication
  unfolding join_options
  with_options opts hba = record hba { options = join_options opts "" }

  unfoldable pub of_role : String → HostBasedAuthentication → HostBasedAuthentication
  of_role name hba = record hba { user = concat ("+" ∷ quote name ∷ []) }

  unfoldable pub of_user : String → HostBasedAuthentication → HostBasedAuthentication
  of_user name hba = record hba { user = quote name }

  unfoldable pub new_hbas : Hbas
  unfolding of_user of_database
  new_hbas = record {
    mandatory =
        with_method "peer" (of_user "postgres" (on_local new_hba))
        ∷ of_replication (with_method "cert" (of_user replication_user (on_tls new_hba)))
        ∷ of_database "postgres" (with_method "cert" (of_user replication_user (on_tls new_hba)))
        ∷ with_method "reject" (of_user replication_user (on_tcp new_hba))
        ∷ [];
    defaults = with_method "md5" (on_tls new_hba) ∷ [];
  }
