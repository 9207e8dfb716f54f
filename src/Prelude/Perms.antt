-- ===== src/Prelude/Perms.antt =====
-- Counting and searching do not depend on the order of a list.
use mathlib.Core.Bool.{Bool-set}
use mathlib.Core.List.{Perm, Permᴰ}
use mathlib.Core.Logic.{∥∥₁_elim}
use native.Mathlib.Nat.{ℕ_set}
use ivory_operator.Prelude.{refl, ◌∙◌, ap, arith, ◌≡◌, count, any, List, Bool}

module _ {A : Type 0} (p : A → Bool) where
  any-permᴰ : {xs ys : List A} → Permᴰ xs ys → any p xs ≡ any p ys
  unfolding any
  any-permᴰ Permᴰ.nil = refl
  any-permᴰ (Permᴰ.cons e h) = ground (arith, any-permᴰ h, ap p e)
  any-permᴰ (Permᴰ.swap e f) = ground (arith, ap p e, ap p f)
  any-permᴰ (Permᴰ.trans h k) = any-permᴰ h ∙ any-permᴰ k

  count-permᴰ : {xs ys : List A} → Permᴰ xs ys → count p xs ≡ count p ys
  unfolding count
  count-permᴰ Permᴰ.nil = refl
  count-permᴰ (Permᴰ.cons e h) = ground (arith, count-permᴰ h, ap p e)
  count-permᴰ (Permᴰ.swap e f) = ground (arith, ap p e, ap p f)
  count-permᴰ (Permᴰ.trans h k) = count-permᴰ h ∙ count-permᴰ k

  pub any-perm : {xs ys : List A} → Perm xs ys → any p xs ≡ any p ys
  any-perm h = ∥∥₁_elim h (Bool-set _ _) any-permᴰ

  pub count-perm : {xs ys : List A} → Perm xs ys → count p xs ≡ count p ys
  count-perm h = ∥∥₁_elim h (ℕ_set _ _) count-permᴰ
