-- ===== src/Patroni/Mandatory.antt =====
-- What users cannot change of the configuration of Patroni.

use mathlib.Core.Bool.{false≢true}
use mathlib.Core.List.{append-nil}
use ivory_operator.Patroni.Config.{
  of_texts, texts_of, as_texts, combine_hbas, copy_texts, flag, number, dynamic_configuration,
  combine_parameters, postgresql_section, Parameters, Settings, copy_into, as_text, override, text,
  Value, as_section,
}
use ivory_operator.Patroni.Lookups.{
  lookup-override_all, lookup-copy_texts, lookup-insert_here, lookup-with_standby,
  section_at-insert, lookup-copy_into, lookup-copy_over, lookup-insert-other, section_at,
  occurrences,
}
use ivory_operator.Postgres.{Hbas, HostBasedAuthentication}
use ivory_operator.Prelude.{
  length-append, ◌==◌, length, map, ◌++◌, List, ◌≤◌, concat, label, if◌then◌else◌, [], ◌∷◌, refl,
  arith, ◌∙◌, none, if_elim, ap, false, some, str_eq, lookup, Labels, ◌≡◌, insert, Option, GoMap,
  String,
}

module _ (settings : Settings) (hba_text : HostBasedAuthentication → String) (hbas : Hbas)
    (parameters : Parameters) where
  -- The sections of the result.
  abbrev pub postgresql_of : GoMap Value → GoMap Value
  postgresql_of configuration =
      section_at "postgresql"
        (dynamic_configuration settings hba_text hbas parameters configuration)

  pub root_of : GoMap Value → GoMap Value
  root_of configuration =
      insert "loop_wait" (number settings.sync_period_seconds)
        (insert "ttl" (number settings.leader_lease_duration_seconds) (copy_into configuration []))

  pub postgresql_of_lem :
      (configuration : GoMap Value)
      → postgresql_of configuration
        ≡ postgresql_section settings hba_text hbas parameters
            (section_at "postgresql" (root_of configuration))
  unfolding dynamic_configuration root_of
  postgresql_of_lem configuration =
      ap as_section (
        lookup-with_standby settings.standby (label "restore_command" parameters.mandatory)
          "postgresql" _ refl)
      ∙ section_at-insert "postgresql" _ (root_of configuration)

  parameters_of_lem :
      (user : GoMap Value)
      → section_at "parameters" (postgresql_section settings hba_text hbas parameters user)
        ≡ combine_parameters parameters
            (section_at "parameters" (copy_into user (("use_slots", flag false) ∷ [])))
  unfolding postgresql_section
  parameters_of_lem user =
      ap as_section (
        lookup-insert-other "use_pg_rewind" "parameters" _ _ refl
        ∙ lookup-insert-other "pg_hba" "parameters" _ _ refl)
      ∙ section_at-insert "parameters" _ _

-- The lines of the user, or else the defaults.
abbrev pub or_else : List String → List String → List String
or_else [] defaults = defaults
or_else (s ∷ rest) defaults = s ∷ rest

combine_hbas-or_else :
    (mandatory user defaults : List String)
    → combine_hbas mandatory user defaults ≡ mandatory ++ or_else user defaults
unfolding combine_hbas
combine_hbas-or_else mandatory [] defaults =
    if_elim {A = List String} (λ l. l ≡ mandatory ++ defaults)
      (length (mandatory ++ []) == length mandatory)
      (λ _. ap (λ l. l ++ defaults) (append-nil mandatory))
      (λ h. absurd (false≢true (ground (arith, length-append mandatory []))))
combine_hbas-or_else mandatory (s ∷ rest) defaults =
    if_elim {A = List String} (λ l. l ≡ mandatory ++ s ∷ rest)
      (length (mandatory ++ s ∷ rest) == length mandatory)
      (λ h. absurd (false≢true (ground (arith, length-append mandatory (s ∷ rest))))) (λ _. refl)

texts_of-of_texts : (ss : List String) → texts_of (of_texts ss) ≡ ss
unfolding texts_of of_texts
texts_of-of_texts [] = refl
texts_of-of_texts (s ∷ rest) = ap (λ (r : List String). s ∷ r) (texts_of-of_texts rest)

-- The parameters that a user writes.
abbrev pub user_parameters_of : GoMap Value → GoMap Value
user_parameters_of configuration = section_at "parameters" (section_at "postgresql" configuration)

-- The string that a user or else the defaults set a parameter to.
unfoldable pub other_value : String → GoMap Value → Labels → Option String
unfolding as_text lookup
other_value key configuration defaults = elim (lookup key (user_parameters_of configuration)) [
  | none ↦ lookup key defaults
  | some v ↦ as_text (some v)
]

-- A value, and another one after a comma.
unfoldable pub with_other : String → Option String → String
unfolding concat
with_other value none = value
with_other value (some s) = concat (value ∷ "," ∷ s ∷ [])

as_text_defaulted :
    (set : Option Value) (default : Option String)
    → as_text (elim set [
      | none ↦ elim default [ none ↦ none | some s ↦ some (text s) ]
      | some v ↦ some v
    ])
      ≡ elim set [ none ↦ default | some v ↦ as_text (some v) ]
unfolding as_text
as_text_defaulted none none = refl
as_text_defaulted none (some s) = refl
as_text_defaulted (some v) default = refl

override_lem :
    (key value : String) (before : Option Value) (set : Option String)
    → as_text before ≡ set
    → override key value (as_text before)
      ≡ (if str_eq key "shared_preload_libraries" then with_other value set else value)
unfolding override with_other
override_lem key value before none e = ground (arith, e)
override_lem key value before (some s) e = ground (arith, e)

module _ (settings : Settings) (hba_text : HostBasedAuthentication → String) (hbas : Hbas)
    (parameters : Parameters) where
  user_section :
      (configuration : GoMap Value)
      → occurrences "postgresql" configuration ≤ 1
      → section_at "postgresql" (root_of settings hba_text hbas parameters configuration)
        ≡ section_at "postgresql" configuration
  unfolding root_of lookup
  user_section configuration once = ap as_section (
      lookup-insert-other "loop_wait" "postgresql" _ _ refl
      ∙ (lookup-insert-other "ttl" "postgresql" _ _ refl
          ∙ lookup-copy_into "postgresql" configuration [] once refl))

  -- The parameters of a user that are combined with the others.
  user_parameters :
      (configuration : GoMap Value)
      → occurrences "postgresql" configuration ≤ 1
      → occurrences "parameters" (section_at "postgresql" configuration) ≤ 1
      → section_at "parameters" (
          copy_into
            (section_at "postgresql" (root_of settings hba_text hbas parameters configuration))
            (("use_slots", flag false) ∷ []))
        ≡ section_at "parameters" (section_at "postgresql" configuration)
  unfolding lookup
  user_parameters configuration once once' =
      ap (λ m. section_at "parameters" (copy_into m (("use_slots", flag false) ∷ [])))
        (user_section configuration once)
      ∙ ap as_section (lookup-copy_into "parameters" _ _ once' refl)

  -- Whatever configuration a user writes, every mandatory parameter has its mandatory value in what
  -- Patroni is told. The value of shared_preload_libraries is the mandatory one alone, or with a comma
  -- and another string after it: the user's, where the user sets the parameter to a string, and the
  -- default, where the user does not set it and there is one. The mandatory set has the name of the
  -- parameter once, and the default set, the sections "postgresql" and "parameters" of the user and
  -- the parameter among those of the user stand at most once in the maps that hold them.
  pub dynamic_configuration-mandatory :
      (configuration : GoMap Value) (key value : String)
      → occurrences key parameters.mandatory ≡ 1
      → lookup key parameters.mandatory ≡ some value
      → occurrences key parameters.defaults ≤ 1
      → occurrences "postgresql" configuration ≤ 1
      → occurrences "parameters" (section_at "postgresql" configuration) ≤ 1
      → occurrences key (user_parameters_of configuration) ≤ 1
      → lookup key
          (section_at "parameters" (postgresql_of settings hba_text hbas parameters configuration))
        ≡ some (
            text (
              if str_eq key "shared_preload_libraries"
              then with_other value (other_value key configuration parameters.defaults)
              else value))
  unfolding combine_parameters override with_other other_value as_text lookup
  dynamic_configuration-mandatory configuration key value once e once_default once' once''
        once_key =
      ap (λ m. lookup key (section_at "parameters" m))
        (postgresql_of_lem settings hba_text hbas parameters configuration)
      ∙ (ap (λ m. lookup key m) (parameters_of_lem settings hba_text hbas parameters _)
          ∙ (lookup-override_all parameters.mandatory key value _ once e
              ∙ (ap (λ o. some (text (override key value (as_text o)))) other
                  ∙ ap (λ s. some (text s))
                      (override_lem key value _ _ (
                        as_text_defaulted (lookup key (user_parameters_of configuration))
                          (lookup key parameters.defaults))))))
    where
      other :
          lookup key (
            copy_into
              (section_at "parameters" (
                copy_into
                  (section_at "postgresql"
                    (root_of settings hba_text hbas parameters configuration))
                  (("use_slots", flag false) ∷ [])))
              (copy_texts parameters.defaults []))
          ≡ elim (lookup key (user_parameters_of configuration)) [
            | none ↦ elim (lookup key parameters.defaults) [ none ↦ none | some s ↦ some (text s) ]
            | some v ↦ some v
          ]
      other =
          ap (λ m. lookup key (copy_into m (copy_texts parameters.defaults [])))
            (user_parameters configuration once' once'')
          ∙ (lookup-copy_over key (user_parameters_of configuration) _ once_key
              ∙ ap
                  (λ o. elim (lookup key (user_parameters_of configuration)) [
                    | none ↦ o
                    | some v ↦ some v
                  ])
                  (lookup-copy_texts key parameters.defaults [] once_default))

  hbas_of_lem :
      (user : GoMap Value)
      → as_texts (lookup "pg_hba" (postgresql_section settings hba_text hbas parameters user))
        ≡ combine_hbas
            (map hba_text hbas.mandatory)
            (as_texts (lookup "pg_hba" (copy_into user (("use_slots", flag false) ∷ []))))
            (map hba_text hbas.defaults)
  unfolding postgresql_section as_texts
  hbas_of_lem user =
      ap as_texts
        (lookup-insert-other "use_pg_rewind" "pg_hba" _ _ refl ∙ lookup-insert_here "pg_hba" _ _)
      ∙ (texts_of-of_texts _
          ∙ ap
              (λ o.
                combine_hbas (map hba_text hbas.mandatory) (as_texts o)
                  (map hba_text hbas.defaults))
              (lookup-insert-other "parameters" "pg_hba" _ _ refl))

  -- The lines of pg_hba that Patroni is told are the mandatory ones and after them those that a user
  -- wrote, or the defaults when the user wrote none that is a string. The maps of the user have the
  -- sections "postgresql" and "pg_hba" at most once.
  pub dynamic_configuration-hbas :
      (configuration : GoMap Value)
      → occurrences "postgresql" configuration ≤ 1
      → occurrences "pg_hba" (section_at "postgresql" configuration) ≤ 1
      → as_texts (lookup "pg_hba" (postgresql_of settings hba_text hbas parameters configuration))
        ≡ map hba_text hbas.mandatory
          ++ or_else
              (as_texts (lookup "pg_hba" (section_at "postgresql" configuration)))
              (map hba_text hbas.defaults)
  unfolding lookup
  dynamic_configuration-hbas configuration once once' =
      ap (λ m. as_texts (lookup "pg_hba" m))
        (postgresql_of_lem settings hba_text hbas parameters configuration)
      ∙ (hbas_of_lem _
          ∙ (combine_hbas-or_else _ _ _
              ∙ ap
                  (λ o.
                    map hba_text hbas.mandatory
                    ++ or_else (as_texts o) (map hba_text hbas.defaults))
                  (ap (λ m. lookup "pg_hba" (copy_into m (("use_slots", flag false) ∷ [])))
                      (user_section configuration once)
                    ∙ lookup-copy_into "pg_hba" _ _ once' refl)))
