-- ===== src/Postgres/Parameters.antt =====
-- internal/postgres/parameters.go: sets of parameters, whose names are not case-sensitive. `to_lower`
-- is strings.ToLower.

-- ParameterSet, by its map `values`.
use mathlib.Core.Path.{fun_ext}
use ivory_operator.Prelude.{
  inr, sym, ap, inl, ◌∙◌, arith, Bool-cases, ◌∷◌, [], lookup-insert, refl, none, some, ◌≤◌, is_some,
  if◌then◌else◌, insert, Bool, str_eq, ◌≡◌, Option, get_or, String, Labels, lookup, count,
}

pub record ParameterSet : Type 0 where
  pub values : Labels

pub record ParameterSets : Type 0 where
  pub mandatory : ParameterSet
  pub defaults : ParameterSet

abbrev pub new_parameter_set : ParameterSet
new_parameter_set = record { values = [] }

-- The loop of AsMap, over the entries in the order that range visits them.
unfoldable pub copy_labels : Labels → Labels → Labels
copy_labels [] out = out
copy_labels ((k, v) ∷ rest) out = copy_labels rest (insert k v out)

unfoldable pub as_map : ParameterSet → Labels
unfolding copy_labels
as_map ps = copy_labels ps.values []

unfoldable pub deep_copy : ParameterSet → ParameterSet
unfolding as_map
deep_copy ps = record { values = as_map ps }

-- postgres.SocketDirectory
abbrev pub socket_directory : String
socket_directory = "/tmp/postgres"

module _ (to_lower : String → String) where
  unfoldable pub add : String → String → ParameterSet → ParameterSet
  add name value ps = record { values = insert (to_lower name) value ps.values }

  unfoldable pub get : ParameterSet → String → Option String
  get ps name = lookup (to_lower name) ps.values

  unfoldable pub has : ParameterSet → String → Bool
  unfolding get
  has ps name = is_some (get ps name)

  unfoldable pub value_of : ParameterSet → String → String
  unfolding get
  value_of ps name = get_or (get ps name) ""

  unfoldable pub new_parameters : ParameterSets
  unfolding add
  new_parameters = record {
    mandatory = add "ssl_ca_file" "/pgconf/tls/ca.crt" (
        add "ssl_key_file" "/pgconf/tls/tls.key" (
          add "ssl_cert_file" "/pgconf/tls/tls.crt" (
            add "ssl" "on" (
              add "wal_level" "logical"
                (add "unix_socket_directories" socket_directory new_parameter_set)))));
    defaults = add "password_encryption" "scram-sha-256" (add "jit" "off" new_parameter_set);
  }

  -- The calls of Add on a set.
  unfoldable pub add_all : Labels → ParameterSet → ParameterSet
  unfolding add
  add_all [] ps = ps
  add_all ((name, value) ∷ rest) ps = add_all rest (add name value ps)

  -- The last value given to a name in any case, or else what it had: the promise of a set of
  -- parameters, with no map in it.
  unfoldable pub last_added : Labels → (String → Option String) → String → Option String
  last_added [] before asked = before asked
  last_added ((name, value) ∷ rest) before asked =
      last_added rest (λ a. if str_eq (to_lower name) (to_lower a) then some value else before a)
        asked

  get-add :
      (ps : ParameterSet) (name value asked : String)
      → get (add name value ps) asked
        ≡ (if str_eq (to_lower name) (to_lower asked) then some value else get ps asked)
  unfolding get add
  get-add ps name value asked = lookup-insert (to_lower name) (to_lower asked) value ps.values

  -- After any calls of Add, Get answers for each name the value of the last call with that name,
  -- whatever its case, and else what it answered before.
  pub add_all_refines :
      (calls : Labels) (ps : ParameterSet) → get (add_all calls ps) ≡ last_added calls (get ps)
  unfolding add_all last_added
  add_all_refines [] ps = refl
  add_all_refines ((name, value) ∷ rest) ps =
      add_all_refines rest (add name value ps)
      ∙ ap (last_added rest) (fun_ext (get-add ps name value))

lookup-copy_labels_absent :
    (key : String) (from out : Labels)
    → count (λ e. str_eq e.0 key) from ≡ 0
    → lookup key (copy_labels from out) ≡ lookup key out
unfolding copy_labels count
lookup-copy_labels_absent key [] out h = refl
lookup-copy_labels_absent key ((k, v) ∷ rest) out h =
    lookup-copy_labels_absent key rest _ (ground arith) ∙ (lookup-insert k key v out ∙ ground arith)

lookup-copy_labels :
    (key : String) (from out : Labels)
    → count (λ e. str_eq e.0 key) from ≤ 1
    → lookup key out ≡ none
    → lookup key (copy_labels from out) ≡ lookup key from
unfolding copy_labels count lookup
lookup-copy_labels key [] out h e = e
lookup-copy_labels key ((k, w) ∷ rest) out h e = elim (Bool-cases (str_eq k key)) [
  | inl q ↦
      lookup-copy_labels_absent key rest _ (ground arith)
      ∙ (lookup-insert k key w out
          ∙ (ap (λ b. if b then some w else lookup key out) q
              ∙ sym (ap (λ b. if b then some w else lookup key rest) q)))
  | inr q ↦
      lookup-copy_labels key rest _ (ground arith)
        (lookup-insert k key w out ∙ (ap (λ b. if b then some w else lookup key out) q ∙ e))
      ∙ sym (ap (λ b. if b then some w else lookup key rest) q)
]

-- A deep copy of a set answers for every name what the set answers, where its map has no key twice.
pub deep_copy-get :
    (to_lower : String → String) (ps : ParameterSet) (name : String)
    → count (λ e. str_eq e.0 (to_lower name)) ps.values ≤ 1
    → get to_lower (deep_copy ps) name ≡ get to_lower ps name
unfolding get deep_copy as_map lookup
deep_copy-get to_lower ps name h = lookup-copy_labels (to_lower name) ps.values [] h refl
