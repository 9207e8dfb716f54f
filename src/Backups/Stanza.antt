-- ===== src/Backups/Stanza.antt =====
-- internal/pgbackrest/pgbackrest.go: StanzaCreateOrUpgrade, which calls itself again as long as
-- pgBackRest tells of another database.

use mathlib.Core.Bool.{false≢true}
use ivory_operator.Patroni.Api.{contains}
use ivory_operator.Prelude.{
  eq_iff, sym, Bool-cases, inr, some≢none, inl, ◌≢◌, ◌⊎◌, Option-cases, ◌&&◌, refl, ◌∙◌, arith,
  str_eq, not, if◌then◌else◌, some, ap, zero, suc, ◌≡◌, ◌<◌, false, none, true, Bool, Option, ℕ,
  String,
}

abbrev pub hash_mismatch : String
hash_mismatch = "postgres operator error: pgBackRest config hash mismatch"

abbrev pub db_mismatch : String
db_mismatch = "backup and archive info files exist but do not match the database"

-- What the script in the container answers, by the number of calls before it and whether it is to
-- upgrade: what it prints as an error, and its error. `wrap` is the error that is made of both.
pub record StanzaEnv (E : Type 0) : Type 0 where
  pub exec : ℕ → Bool → String × Option E
  pub wrap : E → String → E

-- Whether to call again, from an answer.
unfoldable pub calls_again : {E : Type 0} → String × Option E → Bool
unfolding contains
calls_again (stderr, none) = false
calls_again (stderr, some e) = not (str_eq stderr hash_mismatch) && contains stderr db_mismatch

module _ {E : Type 0} (env : StanzaEnv E) where
  -- The result of an answer that is the last one.
  unfoldable pub stanza_result : String × Option E → Bool × Option E
  stanza_result (stderr, none) = (false, none)
  stanza_result (stderr, some e) =
      if str_eq stderr hash_mismatch then (true, none) else (false, some (env.wrap e stderr))

  -- StanzaCreateOrUpgrade, on fuel: `none` while it still calls itself.
  unfoldable pub stanza_create_or_upgrade : ℕ → ℕ → Bool → Option (Bool × Option E)
  unfolding calls_again stanza_result
  stanza_create_or_upgrade zero n upgrade = none
  stanza_create_or_upgrade (suc fuel) n upgrade =
      let again = stanza_create_or_upgrade fuel (suc n) true in
      if calls_again (env.exec n upgrade) then again else some (stanza_result (env.exec n upgrade))

  -- What the runs of the script may lead to: a retry as an upgrade after an answer that tells of
  -- another database, and otherwise the end, with the mismatch of the hash reported as such, success,
  -- or the error wrapped.
  pub data StanzaRun : ℕ → Bool → Bool × Option E → Type 0 where
    created :
        {n : ℕ} {upgrade : Bool} → (env.exec n upgrade).1 ≡ none → StanzaRun n upgrade (false, none)
    mismatched :
        {n : ℕ} {upgrade : Bool} {e : E}
        → (env.exec n upgrade).1 ≡ some e
        → (env.exec n upgrade).0 ≡ hash_mismatch
        → StanzaRun n upgrade (true, none)
    refused :
        {n : ℕ} {upgrade : Bool} {e : E}
        → (env.exec n upgrade).1 ≡ some e
        → (env.exec n upgrade).0 ≢ hash_mismatch
        → contains (env.exec n upgrade).0 db_mismatch ≡ false
        → StanzaRun n upgrade (false, some (env.wrap e (env.exec n upgrade).0))
    upgraded :
        {n : ℕ} {upgrade : Bool} {e : E} {result : Bool × Option E}
        → (env.exec n upgrade).1 ≡ some e
        → contains (env.exec n upgrade).0 db_mismatch ≡ true
        → StanzaRun (suc n) true result
        → StanzaRun n upgrade result

  abbrev Settles : ℕ → ℕ → Bool → Type 0
  Settles fuel n upgrade =
      (result : Bool × Option E) × (stanza_create_or_upgrade fuel n upgrade ≡ some result)
      × StanzaRun n upgrade result

  -- One call, and the rest where it is made anew.
  stanza_create_or_upgrade-Settles :
      (fuel n : ℕ) (upgrade : Bool)
      → ((e : E)
          → (env.exec n upgrade).1 ≡ some e
          → contains (env.exec n upgrade).0 db_mismatch ≡ true
          → Settles fuel (suc n) true)
      → Settles (suc fuel) n upgrade
  unfolding stanza_create_or_upgrade
  stanza_create_or_upgrade-Settles fuel n upgrade again =
      elim (Option-cases (env.exec n upgrade).1) [
        | inl ok ↦ ((false, none), ground (arith, ok), created ok)
        | inr (e, err) ↦ elim (Bool-cases (str_eq (env.exec n upgrade).0 hash_mismatch)) [
          | inl same ↦ (
            (true, none),
            ground (arith, err, same),
            mismatched err ((eq_iff (env.exec n upgrade).0 hash_mismatch).0 same),
          )
          | inr other ↦ elim (Bool-cases (contains (env.exec n upgrade).0 db_mismatch)) [
            | inl tells ↦
                let (result, returns, run) = again e err tells in
                (result, ground (arith, err, other, tells, returns), upgraded err tells run)
            | inr silent ↦ (
              (false, some (env.wrap e (env.exec n upgrade).0)),
              ground (arith, err, other, silent),
              refused err
                  (λ same.
                    false≢true (sym other ∙ (eq_iff (env.exec n upgrade).0 hash_mismatch).1 same))
                  silent,
            )
          ]
        ]
      ]

  -- The answer of the script to the call after `k` others, all but the first to upgrade.
  abbrev pub answer : ℕ → ℕ → Bool → String × Option E
  answer zero n upgrade = env.exec n upgrade
  answer (suc k) n upgrade = answer k (suc n) true

  -- Once an answer has no error or does not tell of another database, the function returns, for any fuel
  -- above the number of calls before that answer: success after an answer without an error, a mismatch
  -- of the hash where the answer says so, the wrapped error where it says neither, and after an answer
  -- that tells of another database what it returns when called anew to upgrade.
  pub stanza_create_or_upgrade-returns :
      (k fuel n : ℕ) (upgrade : Bool)
      → ((answer k n upgrade).1 ≡ none) ⊎ (contains (answer k n upgrade).0 db_mismatch ≡ false)
      → k < fuel
      → (result : Bool × Option E) × (stanza_create_or_upgrade fuel n upgrade ≡ some result)
        × StanzaRun n upgrade result
  stanza_create_or_upgrade-returns k zero n upgrade last f = absurd (omega arith)
  stanza_create_or_upgrade-returns zero (suc fuel) n upgrade (inl ok) f =
      stanza_create_or_upgrade-Settles fuel n upgrade
        (λ e err tells. absurd (some≢none (sym err ∙ ok)))
  stanza_create_or_upgrade-returns zero (suc fuel) n upgrade (inr silent) f =
      stanza_create_or_upgrade-Settles fuel n upgrade
        (λ e err tells. absurd (false≢true (sym silent ∙ tells)))
  stanza_create_or_upgrade-returns (suc k) (suc fuel) n upgrade last f =
      stanza_create_or_upgrade-Settles fuel n upgrade
        (λ e err tells. stanza_create_or_upgrade-returns k fuel (suc n) true last (omega arith))

  -- While pgBackRest tells of another database also when it is to upgrade, no number of calls is enough.
  pub stanza_create_or_upgrade-diverges :
      (n fuel : ℕ)
      → ((m : ℕ) → calls_again (env.exec m true) ≡ true)
      → stanza_create_or_upgrade fuel n true ≡ none
  unfolding stanza_create_or_upgrade
  stanza_create_or_upgrade-diverges n zero h = refl
  stanza_create_or_upgrade-diverges n (suc fuel) h =
      ap
        (λ b.
          if b
          then stanza_create_or_upgrade fuel (suc n) true
          else some (stanza_result (env.exec n true)))
        (h n)
      ∙ stanza_create_or_upgrade-diverges (suc n) fuel h
