-- ===== src/Users/Verified.antt =====
-- What generatePostgresUserSecret keeps of a password, and that its verifier fits.
use mathlib.Core.Bool.{true≢false}
use ivory_operator.Kube.{Answer-cases, failed, Answer, found, LabelSets}
use ivory_operator.Prelude.{
  eq_iff, some≢none, sym, inl, inr, Bool-cases, ap, ◌⊎◌, ◌&&◌, not, true, ◌||◌, is_empty, none,
  some, Option, refl, ◌∙◌, false, arith, str_eq, ◌≡◌, insert, Labels, String, label,
}
use ivory_operator.Users.{UsersSpec, UserSecret, UserSpec, UsersEnv}
use ivory_operator.Users.Alike.{IsAlike, label-insert, finish_secret-IsAlike}
use ivory_operator.Users.Secret.{
  verify_entries, secure_entries, generate_postgres_user_secret, generate_password, ensure_verifier,
  base_entries, ensure_password,
}

found-injective : {E A : Type 0} {a b : A} → ◌≡◌ {A = Answer E A} (found a) (found b) → a ≡ b
found-injective {E} {A} {a} e = ap (λ (x : Answer E A). elim x [ found y ↦ y | failed err ↦ a ]) e

found≢failed : {E A : Type 0} {a : A} {err : E} → failed err ≡ found a → ⊥
found≢failed e = cc

-- An entry of an existing secret, or else "".
unfoldable pub old_entry : String → Option UserSecret → String
unfolding label
old_entry key none = ""
old_entry key (some secret) = label key secret.entries

module _ {E : Type 0} (env : UsersEnv E) where
  base_entries-old_entry :
      (spec : UsersSpec) (user_name : String) (existing : Option UserSecret)
      → (label "password" (base_entries spec user_name existing) ≡ old_entry "password" existing)
        × (label "verifier" (base_entries spec user_name existing) ≡ old_entry "verifier" existing)
  unfolding base_entries old_entry
  base_entries-old_entry spec user_name none = (refl, refl)
  base_entries-old_entry spec user_name (some secret) = (refl, refl)

  ensure_password-cases :
      (user : UserSpec) (m n : Labels)
      → ensure_password env user m ≡ found n
      → ((is_empty (label "password" m) ≡ false) × (n ≡ m))
        ⊎ ((is_empty (label "password" m) ≡ true) × (label "verifier" n ≡ ""))
  unfolding ensure_password
  ensure_password-cases user m n e = elim (Bool-cases (is_empty (label "password" m))) [
    | inr e2 ↦ inl (e2, found-injective {E = E} (ground (arith, e, e2)))
    | inl e2 ↦ elim (Answer-cases (generate_password env user)) [
      | inl (err, bad) ↦ absurd (found≢failed {a = n} {err = err} (ground (arith, e, e2, bad)))
      | inr (password, made) ↦
          let same : insert "verifier" "" (insert "password" password m) ≡ n =
            found-injective {E = E} (ground (arith, e, e2, made)) in
          inr (
            e2,
            ap (label "verifier") (sym same)
                ∙ label-insert "verifier" "verifier" "" (insert "password" password m),
          )
    ]
  ]

  ensure_verifier-cases :
      (m n : Labels)
      → ensure_verifier env m ≡ found n
      → ((is_empty (label "verifier" m) ≡ false) × (n ≡ m))
        ⊎ ((is_empty (label "verifier" m) ≡ true)
            × (label "password" n ≡ label "password" m)
            × (env.build_verifier (label "password" n) ≡ found (label "verifier" n)))
  unfolding ensure_verifier
  ensure_verifier-cases m n e = elim (Bool-cases (is_empty (label "verifier" m))) [
    | inr e2 ↦ inl (e2, found-injective {E = E} (ground (arith, e, e2)))
    | inl e2 ↦ elim (Answer-cases (env.build_verifier (label "password" m))) [
      | inl (err, bad) ↦ absurd (found≢failed {a = n} {err = err} (ground (arith, e, e2, bad)))
      | inr (verifier, made) ↦
          let same : insert "verifier" verifier m ≡ n =
            found-injective {E = E} (ground (arith, e, e2, made)) in
          let kept : label "password" n ≡ label "password" m =
            ap (label "password") (sym same) ∙ label-insert "verifier" "password" verifier m in
          let new : label "verifier" n ≡ verifier =
            ap (label "verifier") (sym same) ∙ label-insert "verifier" "verifier" verifier m in
          inr (e2, kept, ap env.build_verifier kept ∙ made ∙ ap found (sym new))
    ]
  ]

  -- What a secret owes to the one that was there: its password, if it had one, with the verifier that it
  -- had, and else the verifier of the password.
  abbrev pub IsVerified : Option UserSecret → UserSecret → Type 0
  IsVerified existing secret =
      ((is_empty (old_entry "password" existing)
          || str_eq (label "password" secret.entries) (old_entry "password" existing))
        ≡ true)
      × ((str_eq (label "verifier" secret.entries) (old_entry "verifier" existing)
              && (not (is_empty (old_entry "password" existing))
                  && not (is_empty (old_entry "verifier" existing)))
            ≡ true)
          ⊎ (((is_empty (old_entry "password" existing) || is_empty (old_entry "verifier" existing))
                ≡ true)
              × (env.build_verifier (label "password" secret.entries)
                  ≡ found (label "verifier" secret.entries))))

  IsVerified-cases :
      (existing : Option UserSecret) (secret : UserSecret) (m n : Labels)
      → ((is_empty (old_entry "password" existing) ≡ false)
          × (label "password" m ≡ old_entry "password" existing)
          × (label "verifier" m ≡ old_entry "verifier" existing))
        ⊎ ((is_empty (old_entry "password" existing) ≡ true) × (label "verifier" m ≡ ""))
      → ((is_empty (label "verifier" m) ≡ false) × (n ≡ m))
        ⊎ ((is_empty (label "verifier" m) ≡ true)
            × (label "password" n ≡ label "password" m)
            × (env.build_verifier (label "password" n) ≡ found (label "verifier" n)))
      → IsAlike secret.entries n
      → IsVerified existing secret
  IsVerified-cases existing secret m n of_password of_verifier alike =
      let password_of =
        λ (m_n : label "password" n ≡ label "password" m)
            (m_old : label "password" m ≡ old_entry "password" existing).
          (eq_iff (label "password" secret.entries) (old_entry "password" existing)).1
            (alike.same_password ∙ m_n ∙ m_old) in
      elim of_verifier [
        | inl (given, same) ↦ elim of_password [
          | inl (had, p, v) ↦
              let verifier =
                (eq_iff (label "verifier" secret.entries) (old_entry "verifier" existing)).1
                  (alike.same_verifier ∙ ap (label "verifier") same ∙ v) in
              (
                ground (arith, password_of (ap (label "password") same) p),
                inl (ground (arith, verifier, had, given, ap (λ s. is_empty s) v)),
              )
          | inr (lost, v) ↦ absurd (true≢false (ground (arith, given, ap (λ s. is_empty s) v)))
        ]
        | inr (none_there, same, built) ↦
            let built_here =
              ap env.build_verifier alike.same_password
              ∙ built
              ∙ ap found (sym alike.same_verifier) in
            elim of_password [
              | inl (had, p, v) ↦ (
                ground (arith, password_of same p),
                inr (ground (arith, none_there, ap (λ s. is_empty s) v), built_here),
              )
              | inr (lost, v) ↦ (ground (arith, lost), inr (ground (arith, lost), built_here))
            ]
      ]

  -- A secret that is made keeps the password of the one that was there, where it had one, and with it
  -- the verifier, where it had one; in all other cases its verifier is the one built for its password.
  -- So of a secret that lacks the verifier alone the password is kept and only the verifier is made
  -- anew, where the comment of the function says that both are generated.
  pub generate_postgres_user_secret-IsVerified :
      ⦃ls : LabelSets⦄ (spec : UsersSpec) (user : UserSpec) (existing : Option UserSecret)
      (secret : UserSecret)
      → (generate_postgres_user_secret env spec user existing).secret ≡ some secret
      → IsVerified existing secret
  unfolding generate_postgres_user_secret secure_entries verify_entries
  generate_postgres_user_secret-IsVerified spec user existing secret e =
      let base = base_entries spec user.name existing in
      let (old_password, old_verifier) = base_entries-old_entry spec user.name existing in
      elim (Answer-cases (ensure_password env user base)) [
        | inl (err, bad) ↦ absurd (some≢none (sym e ∙ ground (arith, bad)))
        | inr (m, passed) ↦ elim (Answer-cases (ensure_verifier env m)) [
          | inl (err, bad) ↦ absurd (some≢none (sym e ∙ ground (arith, passed, bad)))
          | inr (n, verified) ↦
              IsVerified-cases existing secret m n
                (elim (ensure_password-cases user base m passed) [
                  | inl (had, same) ↦ inl (
                    ground (arith, had, ap (λ s. is_empty s) old_password),
                    ap (label "password") same ∙ old_password,
                    ap (label "verifier") same ∙ old_verifier,
                  )
                  | inr (lost, dropped) ↦
                      inr (ground (arith, lost, ap (λ s. is_empty s) old_password), dropped)
                ])
                (ensure_verifier-cases m n verified)
                (finish_secret-IsAlike env spec user n secret (ground (arith, e, passed, verified)))
        ]
      ]
