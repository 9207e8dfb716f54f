-- ===== src/Patroni/Lookups.antt =====
-- Reading the maps of the configuration of Patroni after insert, copy_into, copy_texts and override_all.

use ivory_operator.Patroni.Config.{
  copy_texts, copy_into, as_text, override, text, section, Standby, of_map, Value, with_standby,
  as_section, to_map, override_all,
}
use ivory_operator.Prelude.{
  ◌≤◌, ℕ, inr, if◌then◌else◌, inl, Bool-cases, [], ◌∷◌, sym, some≢none, eq_iff, refl, arith, ◌∙◌,
  none, if_elim, ap, lookup-insert, false, some, str_eq, lookup, Labels, ◌≡◌, insert, Option, count,
  GoMap, String,
}

pub to_map-of_map : (m : GoMap Value) → to_map (of_map m) ≡ m
unfolding to_map of_map
to_map-of_map [] = refl
to_map-of_map ((k, v) ∷ rest) = ap (λ (r : GoMap Value). (k, v) ∷ r) (to_map-of_map rest)

-- The section of a map under a key.
abbrev pub section_at : String → GoMap Value → GoMap Value
section_at key m = as_section (lookup key m)

pub lookup-insert_here :
    (key : String) (v : Value) (m : GoMap Value) → lookup key (insert key v m) ≡ some v
lookup-insert_here key v m = lookup-insert key key v m ∙ ground (arith, eq_iff key key)

pub section_at-insert :
    (key : String) (m into : GoMap Value)
    → section_at key (insert key (section (of_map m)) into) ≡ m
unfolding as_section
section_at-insert key m into =
    ap as_section (lookup-insert_here key (section (of_map m)) into) ∙ to_map-of_map m

pub lookup-insert-other :
    (key asked : String) (v : Value) (m : GoMap Value)
    → str_eq key asked ≡ false
    → lookup asked (insert key v m) ≡ lookup asked m
lookup-insert-other key asked v m h = lookup-insert key asked v m ∙ ground arith

pub lookup-with_standby :
    (s : Option Standby) (restore asked : String) (root : GoMap Value)
    → str_eq "standby_cluster" asked ≡ false
    → lookup asked (with_standby s restore root) ≡ lookup asked root
unfolding with_standby
lookup-with_standby none restore asked root h = refl
lookup-with_standby (some s) restore asked root h =
    if_elim {A = GoMap Value} (λ m. lookup asked m ≡ lookup asked root) s.enabled
      (λ _. lookup-insert-other "standby_cluster" asked _ root h) (λ _. refl)

pub lookup-override_all_absent :
    (mandatory : Labels) (key : String) (parameters : GoMap Value)
    → count (λ e. str_eq e.0 key) mandatory ≡ 0
    → lookup key (override_all mandatory parameters) ≡ lookup key parameters
unfolding override_all count
lookup-override_all_absent [] key parameters h = refl
lookup-override_all_absent ((k, v) ∷ rest) key parameters h =
    lookup-override_all_absent rest key _ (ground arith)
    ∙ lookup-insert-other k key _ parameters (ground arith)

pub lookup-override_all :
    (mandatory : Labels) (key value : String) (parameters : GoMap Value)
    → count (λ e. str_eq e.0 key) mandatory ≡ 1
    → lookup key mandatory ≡ some value
    → lookup key (override_all mandatory parameters)
      ≡ some (text (override key value (as_text (lookup key parameters))))
unfolding override_all count lookup
lookup-override_all [] key value parameters h e = absurd (some≢none (sym e))
lookup-override_all ((k, v) ∷ rest) key value parameters h e = elim (Bool-cases (str_eq k key)) [
  | inl q ↦
      lookup-override_all_absent rest key _ (ground arith)
      ∙ (lookup-insert k key _ parameters
          ∙ (ap
                (λ b.
                  if b
                  then some (text (override k v (as_text (lookup k parameters))))
                  else lookup key parameters)
                q
              ∙ (ap (λ n. some (text (override n v (as_text (lookup n parameters)))))
                    ((eq_iff k key).0 q)
                  ∙ ap
                      (λ t. elim t [
                        | none ↦ some (text "")
                        | some w ↦ some (text (override key w (as_text (lookup key parameters))))
                      ])
                      (sym (ap (λ b. if b then some v else lookup key rest) q) ∙ e))))
  | inr q ↦
      lookup-override_all rest key value _ (ground arith) (ground arith)
      ∙ ap (λ o. some (text (override key value (as_text o))))
          (lookup-insert-other k key _ parameters q)
]

abbrev pub occurrences : {V : Type 0} → String → GoMap V → ℕ
occurrences key m = count (λ e. str_eq e.0 key) m

pub lookup-copy_into_absent :
    (key : String) (from into : GoMap Value)
    → occurrences key from ≡ 0
    → lookup key (copy_into from into) ≡ lookup key into
unfolding copy_into count
lookup-copy_into_absent key [] into h = refl
lookup-copy_into_absent key ((k, v) ∷ rest) into h =
    lookup-copy_into_absent key rest _ (ground arith)
    ∙ lookup-insert-other k key v into (ground arith)

pub lookup-copy_into_present :
    (key : String) (v : Value) (from into : GoMap Value)
    → occurrences key from ≡ 1
    → lookup key from ≡ some v
    → lookup key (copy_into from into) ≡ some v
unfolding copy_into count lookup
lookup-copy_into_present key v [] into h e = absurd (some≢none (sym e))
lookup-copy_into_present key v ((k, w) ∷ rest) into h e = elim (Bool-cases (str_eq k key)) [
  | inl q ↦
      lookup-copy_into_absent key rest _ (ground arith)
      ∙ (lookup-insert k key w into
          ∙ (ap (λ b. if b then some w else lookup key into) q
              ∙ (sym (ap (λ b. if b then some w else lookup key rest) q) ∙ e)))
  | inr q ↦
      lookup-copy_into_present key v rest _ (ground arith)
        (sym (ap (λ b. if b then some w else lookup key rest) q) ∙ e)
]

pub lookup-copy_into :
    (key : String) (from into : GoMap Value)
    → occurrences key from ≤ 1
    → lookup key into ≡ none
    → lookup key (copy_into from into) ≡ lookup key from
unfolding copy_into count lookup
lookup-copy_into key [] into h e = e
lookup-copy_into key ((k, w) ∷ rest) into h e = elim (Bool-cases (str_eq k key)) [
  | inl q ↦
      lookup-copy_into_absent key rest _ (ground arith)
      ∙ (lookup-insert k key w into
          ∙ (ap (λ b. if b then some w else lookup key into) q
              ∙ sym (ap (λ b. if b then some w else lookup key rest) q)))
  | inr q ↦
      lookup-copy_into key rest _ (ground arith) (lookup-insert-other k key w into q ∙ e)
      ∙ sym (ap (λ b. if b then some w else lookup key rest) q)
]

-- Copying over another map.
pub lookup-copy_over :
    (key : String) (from into : GoMap Value)
    → occurrences key from ≤ 1
    → lookup key (copy_into from into)
      ≡ elim (lookup key from) [ none ↦ lookup key into | some v ↦ some v ]
unfolding copy_into count lookup
lookup-copy_over key [] into h = refl
lookup-copy_over key ((k, w) ∷ rest) into h = elim (Bool-cases (str_eq k key)) [
  | inl q ↦
      lookup-copy_into_absent key rest _ (ground arith)
      ∙ (lookup-insert k key w into ∙ ground (arith, q))
  | inr q ↦
      lookup-copy_over key rest _ (ground arith)
      ∙ ground (arith, q, lookup-insert-other k key w into q)
]

pub lookup-copy_texts_absent :
    (key : String) (from : Labels) (into : GoMap Value)
    → occurrences key from ≡ 0
    → lookup key (copy_texts from into) ≡ lookup key into
unfolding copy_texts count
lookup-copy_texts_absent key [] into h = refl
lookup-copy_texts_absent key ((k, s) ∷ rest) into h =
    lookup-copy_texts_absent key rest _ (ground arith)
    ∙ lookup-insert-other k key (text s) into (ground arith)

pub lookup-copy_texts :
    (key : String) (from : Labels) (into : GoMap Value)
    → occurrences key from ≤ 1
    → lookup key (copy_texts from into)
      ≡ elim (lookup key from) [ none ↦ lookup key into | some s ↦ some (text s) ]
unfolding copy_texts count lookup
lookup-copy_texts key [] into h = refl
lookup-copy_texts key ((k, s) ∷ rest) into h = elim (Bool-cases (str_eq k key)) [
  | inl q ↦
      lookup-copy_texts_absent key rest _ (ground arith)
      ∙ (lookup-insert k key (text s) into ∙ ground (arith, q))
  | inr q ↦
      lookup-copy_texts key rest _ (ground arith)
      ∙ ground (arith, q, lookup-insert-other k key (text s) into q)
]
