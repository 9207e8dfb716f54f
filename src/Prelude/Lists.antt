-- ===== src/Prelude/Lists.antt =====
-- Lists measured by native numbers, filters by a Boolean test, and a predicate on all elements.
use Prim.Native.Nat.{◌<◌, ℕ, suc, ◌+◌, ◌≤◌}
use mathlib.Core.Bool.{◌||◌, ◌&&◌, Bool, true, false}
use mathlib.Core.List.{Memᴰ, map, List, [], ◌∷◌, ◌++◌}
use mathlib.Core.Path.{◌≡◌, refl, ap, subst, sym}
use native.Mathlib.Omega.{arith}
use ivory_operator.Prelude.Tests.{if◌then◌else◌, if_elim}

module _ {ℓ} {A : Type ℓ} where
  abbrev pub length : List A → ℕ
  length [] = 0
  length (x ∷ xs) = suc (length xs)

  -- The elements that pass the test, in order.
  unfoldable pub filter : (A → Bool) → List A → List A
  filter p [] = []
  filter p (x ∷ xs) = let rest = filter p xs in if p x then x ∷ rest else rest

  unfoldable pub any : (A → Bool) → List A → Bool
  any p [] = false
  any p (x ∷ xs) = if p x then true else any p xs

  unfoldable pub count : (A → Bool) → List A → ℕ
  count p [] = 0
  count p (x ∷ xs) = if p x then suc (count p xs) else count p xs

  abbrev pub All {κ} : (A → Type κ) → List A → Type κ
  All P [] = Unit
  All P (x ∷ xs) = P x × All P xs

module _ {ℓ} {A : Type ℓ} where
  pub length-append : (xs ys : List A) → length (xs ++ ys) ≡ length xs + length ys
  length-append [] ys = omega arith
  length-append (x ∷ xs) ys = omega (arith, length-append xs ys)

  pub All-map {κ μ} :
      (P : A → Type κ) (Q : A → Type μ) (xs : List A) → ((x : A) → P x → Q x) → All P xs → All Q xs
  All-map P Q [] f h = tt
  All-map P Q (x ∷ xs) f h = (f x h.0, All-map P Q xs f h.1)

  pub All-filter : (p : A → Bool) (xs : List A) → All (λ x. p x ≡ true) (filter p xs)
  unfolding filter
  All-filter p [] = tt
  All-filter p (x ∷ xs) = ground (arith, All-filter p xs)

  pub length-filter-le : (p : A → Bool) (xs : List A) → length (filter p xs) ≤ length xs
  unfolding filter
  length-filter-le p [] = omega arith
  length-filter-le p (x ∷ xs) = ground (arith, length-filter-le p xs)

  pub filter-append :
      (p : A → Bool) (xs ys : List A) → filter p (xs ++ ys) ≡ filter p xs ++ filter p ys
  unfolding filter
  filter-append p [] ys = refl
  filter-append p (x ∷ xs) ys = ground (arith, filter-append p xs ys)

  pub All_of_none : (p : A → Bool) (xs : List A) → any p xs ≡ false → All (λ x. p x ≡ false) xs
  unfolding any
  All_of_none p [] h = tt
  All_of_none p (x ∷ xs) h = (ground arith, All_of_none p xs (ground arith))

module _ {ℓ} {A : Type ℓ} where
  pub All-Memᴰ : (xs : List A) → All (λ x. Memᴰ x xs) xs
  All-Memᴰ [] = tt
  All-Memᴰ (x ∷ xs) = (
    Memᴰ.head refl,
    All-map (λ y. Memᴰ y xs) (λ y. Memᴰ y (x ∷ xs)) xs (λ y m. Memᴰ.tail m) (All-Memᴰ xs),
  )

pub any_of_Memᴰ :
    {A : Type 0} (q : A → Bool) {x : A} (xs : List A) → Memᴰ x xs → q x ≡ true → any q xs ≡ true
unfolding any
any_of_Memᴰ q [] m h = elim m [ ]
any_of_Memᴰ q (y ∷ ys) (Memᴰ.head e) h = ground (arith, ap q e)
any_of_Memᴰ q (y ∷ ys) (Memᴰ.tail m) h = ground (arith, any_of_Memᴰ q ys m h)

pub any-append :
    {A : Type 0} (q : A → Bool) (xs ys : List A) → any q (xs ++ ys) ≡ (any q xs || any q ys)
unfolding any
any-append q [] ys = refl
any-append q (x ∷ xs) ys = ground (arith, any-append q xs ys)

pub any-filter :
    {A : Type 0} (q p : A → Bool) (xs : List A) → any q (filter p xs) ≡ any (λ x. p x && q x) xs
unfolding any filter
any-filter q p [] = refl
any-filter q p (x ∷ xs) = ground (arith, any-filter q p xs)

pub any-map :
    {A B : Type 0} (q : B → Bool) (f : A → B) (xs : List A)
    → any q (map f xs) ≡ any (λ x. q (f x)) xs
unfolding any
any-map q f [] = refl
any-map q f (x ∷ xs) = ground (arith, any-map q f xs)

pub count_of_Memᴰ :
    {A : Type 0} (q : A → Bool) {x : A} (xs : List A) → Memᴰ x xs → q x ≡ true → 0 < count q xs
unfolding count
count_of_Memᴰ q [] m h = elim m [ ]
count_of_Memᴰ q (y ∷ ys) (Memᴰ.head e) h = ground (arith, ap q e)
count_of_Memᴰ q (y ∷ ys) (Memᴰ.tail m) h = ground (arith, count_of_Memᴰ q ys m h)

pub count-append :
    {A : Type 0} (q : A → Bool) (xs ys : List A) → count q (xs ++ ys) ≡ count q xs + count q ys
unfolding count
count-append q [] ys = omega arith
count-append q (x ∷ xs) ys = ground (arith, count-append q xs ys)

module _ {ℓ} {A : Type ℓ} where
  pub All-filter-Memᴰ :
      (p : A → Bool) (xs : List A) → All (λ x. Memᴰ x xs × (p x ≡ true)) (filter p xs)
  unfolding filter
  All-filter-Memᴰ p [] = tt
  All-filter-Memᴰ p (x ∷ xs) =
      let rest =
        All-map (λ y. Memᴰ y xs × (p y ≡ true)) (λ y. Memᴰ y (x ∷ xs) × (p y ≡ true)) (filter p xs)
          (λ y h. (Memᴰ.tail h.0, h.1)) (All-filter-Memᴰ p xs) in
      if_elim {A = List A} (λ l. All (λ y. Memᴰ y (x ∷ xs) × (p y ≡ true)) l) (p x)
        (λ e. ((Memᴰ.head refl, e), rest)) (λ _. rest)

  pub All-append {κ} : (P : A → Type κ) (xs ys : List A) → All P xs → All P ys → All P (xs ++ ys)
  All-append P [] ys h k = k
  All-append P (x ∷ xs) ys h k = (h.0, All-append P xs ys h.1 k)

  pub All_filtered {κ} :
      (P : A → Type κ) (p : A → Bool) (xs : List A) → All P xs → All P (filter p xs)
  unfolding filter
  All_filtered P p [] h = tt
  All_filtered P p (x ∷ xs) h =
      if_elim {A = List A} (All P) (p x) (λ _. (h.0, All_filtered P p xs h.1))
        (λ _. All_filtered P p xs h.1)

  pub All-mapped {κ} :
      {B : Type ℓ} (P : B → Type κ) (f : A → B) (xs : List A)
      → All (λ x. P (f x)) xs
      → All P (map f xs)
  All-mapped P f [] h = tt
  All-mapped P f (x ∷ xs) h = (h.0, All-mapped P f xs h.1)

  pub All_at {κ} : (P : A → Type κ) {x : A} (xs : List A) → All P xs → Memᴰ x xs → P x
  All_at P [] h m = elim m [ ]
  All_at P (y ∷ ys) h (Memᴰ.head e) = subst P (sym e) h.0
  All_at P (y ∷ ys) h (Memᴰ.tail m) = All_at P ys h.1 m
