-- ===== src/Patroni/Config.antt =====
-- internal/patroni/config.go: DynamicConfiguration. `interface{}` is Value, whose maps keep their
-- entries; a map is read and changed as a GoMap.

use ivory_operator.Postgres.{Hbas, HostBasedAuthentication}
use ivory_operator.Prelude.{
  ltb, ◌==◌, label, map, concat, ◌++◌, lookup, is_empty, false, length, none, not, str_eq, [], ◌∷◌,
  some, insert, if◌then◌else◌, filter, Labels, Bool, List, String, ℕ, Option, GoMap,
}

mutual
  pub data Value : Type 0 where
    text : String → Value
    number : ℕ → Value
    flag : Bool → Value
    -- any other value, by its JSON
    raw : String → Value
    items : Values → Value
    section : Entries → Value

  pub data Values : Type 0 where
    no_values : Values
    values : Value → Values → Values

  pub data Entries : Type 0 where
    no_entries : Entries
    entries : String → Value → Entries → Entries

unfoldable pub to_map : Entries → GoMap Value
to_map no_entries = []
to_map (entries k v rest) = (k, v) ∷ to_map rest

unfoldable pub of_map : GoMap Value → Entries
of_map [] = no_entries
of_map ((k, v) ∷ rest) = entries k v (of_map rest)

unfoldable pub of_texts : List String → Values
of_texts [] = no_values
of_texts (s ∷ rest) = values (text s) (of_texts rest)

-- `section, ok := value.(map[string]interface{})`, and nothing where it is not.
unfoldable pub as_section : Option Value → GoMap Value
unfolding to_map
as_section none = []
as_section (some (text s)) = []
as_section (some (number n)) = []
as_section (some (flag b)) = []
as_section (some (raw s)) = []
as_section (some (items vs)) = []
as_section (some (section es)) = to_map es

-- The strings of `section, ok := value.([]interface{})`.
unfoldable pub texts_of : Values → List String
texts_of no_values = []
texts_of (values (text s) rest) = s ∷ texts_of rest
texts_of (values (number n) rest) = texts_of rest
texts_of (values (flag b) rest) = texts_of rest
texts_of (values (raw s) rest) = texts_of rest
texts_of (values (items vs) rest) = texts_of rest
texts_of (values (section es) rest) = texts_of rest

unfoldable pub as_texts : Option Value → List String
unfolding texts_of
as_texts none = []
as_texts (some (text s)) = []
as_texts (some (number n)) = []
as_texts (some (flag b)) = []
as_texts (some (raw s)) = []
as_texts (some (items vs)) = texts_of vs
as_texts (some (section es)) = []

-- `s, ok := value.(string)`
unfoldable pub as_text : Option Value → Option String
as_text none = none
as_text (some (text s)) = some s
as_text (some (number n)) = none
as_text (some (flag b)) = none
as_text (some (raw s)) = none
as_text (some (items vs)) = none
as_text (some (section es)) = none

-- `for k, v := range from { into[k] = v }`
unfoldable pub copy_into : GoMap Value → GoMap Value → GoMap Value
copy_into [] into = into
copy_into ((k, v) ∷ rest) into = copy_into rest (insert k v into)

unfoldable pub copy_texts : Labels → GoMap Value → GoMap Value
copy_texts [] into = into
copy_texts ((k, v) ∷ rest) into = copy_texts rest (insert k (text v) into)

-- The value of a mandatory parameter, over one that is there.
unfoldable pub override : String → String → Option String → String
override k v none = v
override k v (some s) = if str_eq k "shared_preload_libraries" then concat (v ∷ "," ∷ s ∷ []) else v

unfoldable pub override_all : Labels → GoMap Value → GoMap Value
unfolding override as_text
override_all [] parameters = parameters
override_all ((k, v) ∷ rest) parameters =
    override_all rest (insert k (text (override k v (as_text (lookup k parameters)))) parameters)

-- `delete(m, key)`
unfoldable pub remove : String → GoMap Value → GoMap Value
remove key m = filter (λ e. not (str_eq e.0 key)) m

-- v1beta1.PostgresStandbySpec
pub record Standby : Type 0 where
  pub enabled : Bool
  pub host : String
  pub port : Option ℕ
  pub repo_name : String

-- The fields of the cluster that are read. LeaderLeaseDurationSeconds and SyncPeriodSeconds are not
-- nil, since PostgresCluster.Default sets them.
pub record Settings : Type 0 where
  pub leader_lease_duration_seconds : ℕ
  pub sync_period_seconds : ℕ
  pub postgres_version : ℕ
  pub standby : Option Standby

-- postgres.Parameters, by the maps of its two sets; a set that is nil has the empty map.
pub record Parameters : Type 0 where
  pub mandatory : Labels
  pub defaults : Labels

unfoldable pub combine_parameters : Parameters → GoMap Value → GoMap Value
unfolding copy_texts copy_into override_all
combine_parameters p user = override_all p.mandatory (copy_into user (copy_texts p.defaults []))

-- The lines of pg_hba: the mandatory ones, then those of the user or else the defaults.
unfoldable pub combine_hbas : List String → List String → List String → List String
combine_hbas mandatory user defaults =
    if length (mandatory ++ user) == length mandatory
    then (mandatory ++ user) ++ defaults
    else mandatory ++ user

unfoldable pub with_host : Standby → GoMap Value → GoMap Value
with_host s standby =
    if is_empty s.host
    then standby
    else (let hosted = insert "host" (text s.host) standby in
        elim s.port [ none ↦ hosted | some port ↦ insert "port" (number port) hosted ])

unfoldable pub with_repo : Standby → String → GoMap Value → GoMap Value
with_repo s restore_command standby =
    if is_empty s.repo_name
    then standby
    else insert "restore_command" (text restore_command) standby

unfoldable pub replica_methods : Standby → List String
replica_methods s =
    let methods = if is_empty s.host then [] else "basebackup" ∷ [] in
    if is_empty s.repo_name then methods else "pgbackrest" ∷ methods

unfoldable pub standby_section : Standby → String → GoMap Value → GoMap Value
unfolding remove with_host with_repo replica_methods of_texts copy_into
standby_section s restore_command user =
    insert "create_replica_methods" (items (of_texts (replica_methods s)))
      (with_repo s restore_command (with_host s (remove "restore_command" (copy_into user []))))

unfoldable pub with_standby : Option Standby → String → GoMap Value → GoMap Value
unfolding standby_section as_section of_map
with_standby none restore_command root = root
with_standby (some s) restore_command root =
    if s.enabled
    then insert "standby_cluster"
        (section
          (of_map (standby_section s restore_command (as_section (lookup "standby_cluster" root)))))
        root
    else root

module _ (settings : Settings) (hba_text : HostBasedAuthentication → String) (hbas : Hbas)
    (parameters : Parameters) where
  unfoldable pub postgresql_section : GoMap Value → GoMap Value
  unfolding combine_parameters combine_hbas copy_into as_section as_texts of_map of_texts
  postgresql_section user =
      let copied = copy_into user (("use_slots", flag false) ∷ []) in
      let combined = combine_parameters parameters (as_section (lookup "parameters" copied)) in
      let with_parameters = insert "parameters" (section (of_map combined)) copied in
      let lines =
        combine_hbas (map hba_text hbas.mandatory) (as_texts (lookup "pg_hba" with_parameters))
          (map hba_text hbas.defaults) in
      insert "use_pg_rewind" (flag (ltb 10 settings.postgres_version))
        (insert "pg_hba" (items (of_texts lines)) with_parameters)

  unfoldable pub dynamic_configuration : GoMap Value → GoMap Value
  unfolding postgresql_section with_standby copy_into as_section of_map
  dynamic_configuration configuration =
      let root = insert "loop_wait" (number settings.sync_period_seconds) (
        insert "ttl" (number settings.leader_lease_duration_seconds)
          (copy_into configuration [])) in
      let postgresql = postgresql_section (as_section (lookup "postgresql" root)) in
      with_standby settings.standby (label "restore_command" parameters.mandatory)
        (insert "postgresql" (section (of_map postgresql)) root)
