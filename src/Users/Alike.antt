-- ===== src/Users/Alike.antt =====
-- What generatePostgresUserSecret adds to its entries last leaves the password and the verifier alone.

-- Other entries leave one alone.
use ivory_operator.Kube.{LabelSets}
use ivory_operator.Prelude.{
  subst, ap, none, some, ℕ, Option, refl, [], ◌∷◌, List, false, lookup-insert, arith, str_eq,
  if◌then◌else◌, ◌≡◌, insert, Labels, String, label,
}
use ivory_operator.Users.{UsersSpec, UserSecret, UserSpec, UsersEnv}
use ivory_operator.Users.Secret.{
  add_pgbouncer_port, add_pgbouncer, add_pgbouncer_database, finish_secret, add_database,
}

pub label-insert :
    (key asked value : String) (m : Labels)
    → label asked (insert key value m) ≡ (if str_eq key asked then value else label asked m)
unfolding label
label-insert key asked value m = ground (arith, lookup-insert key asked value m)

-- Two maps with the same password and verifier.
pub record IsAlike (m n : Labels) : Type 0 where
  pub same_password : label "password" m ≡ label "password" n
  pub same_verifier : label "verifier" m ≡ label "verifier" n

IsAlike-insert :
    {m n : Labels} (key value : String)
    → str_eq key "password" ≡ false
    → str_eq key "verifier" ≡ false
    → IsAlike m n
    → IsAlike (insert key value m) n
IsAlike-insert {m} key value other_password other_verifier alike = record {
  same_password = ground (arith, label-insert key "password" value m, alike.same_password);
  same_verifier = ground (arith, label-insert key "verifier" value m, alike.same_verifier);
}

IsAlike-refl : (m : Labels) → IsAlike m m
IsAlike-refl m = record { same_password = refl; same_verifier = refl }

entries_of : Option UserSecret → Labels
entries_of none = []
entries_of (some secret) = secret.entries

module _ {E : Type 0} (env : UsersEnv E) where
  -- The entries that come after the password and the verifier keep both.
  add_database-IsAlike :
      {m n : Labels} (host port user_name : String) (databases : List String)
      → IsAlike m n
      → IsAlike (add_database env host port user_name databases m) n
  unfolding add_database
  add_database-IsAlike host port user_name [] alike = alike
  add_database-IsAlike host port user_name (database ∷ rest) alike =
      IsAlike-insert "jdbc-uri" _ refl refl
        (IsAlike-insert "uri" _ refl refl (IsAlike-insert "dbname" database refl refl alike))

  add_pgbouncer_database-IsAlike :
      {m n : Labels} (host port user_name : String) (databases : List String)
      → IsAlike m n
      → IsAlike (add_pgbouncer_database env host port user_name databases m) n
  unfolding add_pgbouncer_database
  add_pgbouncer_database-IsAlike host port user_name [] alike = alike
  add_pgbouncer_database-IsAlike host port user_name (database ∷ rest) alike =
      IsAlike-insert "pgbouncer-jdbc-uri" _ refl refl
        (IsAlike-insert "pgbouncer-uri" _ refl refl alike)

  add_pgbouncer_port-IsAlike :
      {m n : Labels} (spec : UsersSpec) (user : UserSpec) (port : Option ℕ)
      → IsAlike m n
      → IsAlike (add_pgbouncer_port env spec user m port) n
  unfolding add_pgbouncer_port
  add_pgbouncer_port-IsAlike spec user none alike = alike
  add_pgbouncer_port-IsAlike spec user (some number) alike =
      add_pgbouncer_database-IsAlike _ _ user.name user.databases (
        IsAlike-insert "pgbouncer-port" _ refl refl
          (IsAlike-insert "pgbouncer-host" _ refl refl alike))

  -- The secret that is returned has the password and the verifier of the entries it is made of.
  pub finish_secret-IsAlike :
      ⦃ls : LabelSets⦄ (spec : UsersSpec) (user : UserSpec) (m : Labels) (secret : UserSecret)
      → (finish_secret env spec user m).secret ≡ some secret
      → IsAlike secret.entries m
  unfolding finish_secret entries_of add_pgbouncer
  finish_secret-IsAlike spec user m secret e =
      subst (λ (n : Labels). IsAlike n m) (ap entries_of e)
        (add_pgbouncer_port-IsAlike spec user spec.pgbouncer_port
          (add_database-IsAlike _ _ user.name user.databases (IsAlike-refl m)))
