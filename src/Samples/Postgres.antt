-- ===== src/Samples/Postgres.antt =====
-- Connections of the replication user; names without quotes stay as they are.

use ivory_operator.Postgres.{
  all_users, all_networks, all_databases, new_hba, on_tls, with_method, to_text, new_hbas,
}
use ivory_operator.Postgres.Access.{new_hbas-replication, method_of, Connection}
use ivory_operator.Prelude.{[], ◌∷◌, map, concat, refl, some, ◌≡◌, false, ◌++◌, String}

abbrev plain : String → String
plain value = value

abbrev without_tls : Connection
without_tls = record {
  local = false;
  tls = false;
  replication = false;
  database = "app";
  user = "_crunchyrepl";
}

new_hbas-replication_example :
    method_of plain ((new_hbas plain).mandatory ++ (new_hbas plain).defaults) without_tls
    ≡ some "reject"
new_hbas-replication_example =
    new_hbas-replication plain without_tls (new_hbas plain).defaults refl refl

to_text_test : map (to_text plain) (new_hbas plain).defaults ≡ "hostssl all all all md5 " ∷ []
unfolding new_hbas to_text with_method on_tls new_hba all_databases all_networks all_users concat
to_text_test = refl
