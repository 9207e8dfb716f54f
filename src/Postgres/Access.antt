-- ===== src/Postgres/Access.antt =====
-- Which record of pg_hba.conf a connection meets first, by the rules that PostgreSQL documents: `all`
-- never matches a connection for physical replication, nor `replication` any other.

use ivory_operator.Postgres.{
  replication_user, all_users, all_networks, all_databases, new_hba, on_tcp, on_tls, on_local,
  of_replication, with_method, ◌∷◌, quote, of_database, of_user, HostBasedAuthentication, new_hbas,
}
use ivory_operator.Prelude.{
  sym, eq_iff, ap, arith, ◌++◌, ◌≡◌, [], some, none, Option, false, true, ◌&&◌, ◌||◌, str_eq, List,
  if◌then◌else◌, Bool, String,
}

pub record Connection : Type 0 where
  pub local : Bool
  pub tls : Bool
  pub replication : Bool
  pub database : String
  pub user : String

unfoldable pub matches_origin : String → Connection → Bool
matches_origin origin c =
    if c.local
    then str_eq origin "local"
    else if str_eq origin "host"
    then true
    else if c.tls
    then str_eq origin "hostssl"
    else str_eq origin "hostnossl"

module _ (double_quotes : String → String) where
  unfoldable pub matches_database : String → Connection → Bool
  matches_database database c =
      if c.replication
      then str_eq database "replication"
      else if str_eq database "replication"
      then false
      else str_eq database "all" || str_eq database (quote double_quotes c.database)

  unfoldable pub matches_user : String → Connection → Bool
  matches_user user c = str_eq user "all" || str_eq user (quote double_quotes c.user)

  unfoldable pub matches : HostBasedAuthentication → Connection → Bool
  unfolding matches_origin matches_database matches_user
  matches hba c =
      matches_origin hba.origin c && (matches_database hba.database c && matches_user hba.user c)

  -- The method of the first record that matches, of records whose address is `all`.
  unfoldable pub method_of : List HostBasedAuthentication → Connection → Option String
  unfolding matches
  method_of [] c = none
  method_of (hba ∷ rest) c =
      let later = method_of rest c in if matches hba c then some hba.method else later

  -- However pg_hba.conf goes on after the mandatory records, they decide every connection of the
  -- replication user over a network but one: over TLS, a certificate is asked of replication and of
  -- connections to the database "postgres", and every other connection that is not for physical
  -- replication is rejected. Physical replication without TLS is left to the records that follow.
  pub new_hbas-replication :
      (c : Connection) (rest : List HostBasedAuthentication)
      → c.local ≡ false
      → c.user ≡ replication_user
      → method_of ((new_hbas double_quotes).mandatory ++ rest) c ≡ (
          if c.replication
          then (if c.tls then some "cert" else method_of rest c)
          else if c.tls && matches_database (quote double_quotes "postgres") c
          then some "cert"
          else some "reject")
  unfolding new_hbas method_of matches matches_origin matches_user of_user of_database with_method
      of_replication on_local on_tls on_tcp new_hba all_databases all_networks all_users
  new_hbas-replication c rest l u = ground (
    arith,
    l,
    ap (quote double_quotes) u,
    (eq_iff (quote double_quotes replication_user) (quote double_quotes c.user)).1
        (sym (ap (quote double_quotes) u)),
  )
