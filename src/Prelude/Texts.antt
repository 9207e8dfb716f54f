-- ===== src/Prelude/Texts.antt =====
-- Text: Go maps from strings as association lists, and numbers printed in decimal.
use Prim.Native.Nat.{ℕ, zero, suc, ◌/◌, ◌%◌}
use Prim.Native.String.{String, ◌++◌}
use mathlib.Core.Bool.{Bool}
use mathlib.Core.List.{List, [], ◌∷◌}
use mathlib.Core.Option.{Option, none, some}
use mathlib.Core.Path.{◌≡◌, refl, ap}
use native.Mathlib.Omega.{arith}
use text.Mathlib.Text.{◌==◌ as str_eq}
use text.Mathlib.TextEquality.{eq_iff}
use ivory_operator.Prelude.Tests.{get_or, if◌then◌else◌, ◌==◌, ltb}

-- A Go map with string keys: its entries. The keys of a map differ, which `insert` keeps.
abbrev pub GoMap {ℓ} : Type ℓ → Type ℓ
GoMap V = List (String × V)

abbrev pub Labels : Type 0
Labels = GoMap String

module _ {ℓ} {V : Type ℓ} where
  -- `value, ok := m[key]`
  unfoldable pub lookup : String → GoMap V → Option V
  lookup key [] = none
  lookup key ((other, value) ∷ rest) = if str_eq other key then some value else lookup key rest

  -- `m[key] = value`
  unfoldable pub insert : String → V → GoMap V → GoMap V
  insert key value [] = (key, value) ∷ []
  insert key value ((other, old) ∷ rest) =
      let kept = insert key value rest in
      if str_eq other key then (key, value) ∷ rest else (other, old) ∷ kept

  pub lookup-insert :
      (key asked : String) (value : V) (m : GoMap V)
      → lookup asked (insert key value m)
        ≡ (if str_eq key asked then some value else lookup asked m)
  unfolding lookup insert
  lookup-insert key asked value [] = refl
  lookup-insert key asked value ((other, old) ∷ rest) =
      let later = lookup-insert key asked value rest in
      ground (arith, later, eq_iff other key, eq_iff other asked, eq_iff key asked)

pub lookup-first :
    {V : Type 0} → (k : String) (v : V) (rest : GoMap V) → lookup k ((k, v) ∷ rest) ≡ some v
unfolding lookup
lookup-first k v rest = ap (λ b. if b then some v else lookup k rest) ((eq_iff k k).1 refl)

-- `+` over several texts, and `fmt.Sprintf` with its parts in order.
unfoldable pub concat : List String → String
concat [] = ""
concat (s ∷ rest) = s ++ concat rest

-- `m[k]`, which is "" where the key is missing.
unfoldable pub label : String → Labels → String
unfolding lookup
label k m = get_or (lookup k m) ""

abbrev pub is_empty : String → Bool
is_empty s = str_eq s ""

digit : ℕ → String
digit n =
    if n == 0
    then "0"
    else if n == 1
    then "1"
    else if n == 2
    then "2"
    else if n == 3
    then "3"
    else if n == 4
    then "4"
    else if n == 5
    then "5"
    else if n == 6
    then "6"
    else if n == 7
    then "7"
    else if n == 8
    then "8"
    else "9"

digits : ℕ → ℕ → String
digits zero n = ""
digits (suc fuel) n =
    let rest = digits fuel (n / 10) in if ltb n 10 then digit n else rest ++ digit (n % 10)

-- `%d` of a number. The fuel is one more than the number, and each round divides it by ten.
unfoldable pub decimal : ℕ → String
unfolding digits digit
decimal n = digits (suc n) n
