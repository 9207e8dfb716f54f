-- ===== src/Volumes/Reported.antt =====
-- Which errors of writing a claim are turned into conditions and warnings, and which claim a repository
-- is given.

-- A cause that is understood.
use mathlib.Core.Bool.{false≢true}
use mathlib.Core.List.{append-nil}
use ivory_operator.Kube.{Condition, StatusConditions}
use ivory_operator.Prelude.{
  length-append, ltb, length, is_some, refl, ◌∙◌, Bool-cases, zero, count, suc, ◌<◌, ◌++◌, ap, inr,
  inl, [], Option-cases, eq_iff, ◌∷◌, none, some, arith, str_eq, not, false, if◌then◌else◌, true,
  String, List, ◌&&◌, ◌||◌, ◌≡◌, ℕ, Bool, any,
}
use ivory_operator.Volumes.{condition_resizing}
use ivory_operator.Volumes.Failures.{
  note_cause, cannot_resize, judge_causes, note_causes, handle_persistent_volume_claim_error,
  StatusCause, is_unresizable, has_causes, VolumeErrors, is_unbound,
}

unfoldable pub is_known : StatusCause → Bool
unfolding is_unbound is_unresizable
is_known cause = is_unbound cause || is_unresizable cause

-- An error that needs no retry: forbidden, or invalid for understood causes alone, of which there is one.
unfoldable pub is_reported : {E : Type 0} → VolumeErrors E → E → Bool
unfolding is_known any has_causes
is_reported errors e =
    errors.is_forbidden e
    || errors.is_invalid e && elim (errors.causes e) [
      | none ↦ false
      | some causes ↦ has_causes causes && not (any (λ (c : StatusCause). not (is_known c)) causes)
    ]

-- An error that says of a claim that it cannot be resized.
unfoldable pub blames_resize : {E : Type 0} → VolumeErrors E → E → Bool
unfolding any is_unresizable
blames_resize errors e =
    errors.is_forbidden e
    || errors.is_invalid e
      && elim (errors.causes e) [ none ↦ false | some causes ↦ any is_unresizable causes ]

-- How many warnings an error deserves: one where it is forbidden, and otherwise one for each understood
-- cause of an invalid claim.
unfoldable pub num_warnings : {E : Type 0} → VolumeErrors E → E → ℕ
unfolding is_known
num_warnings errors e =
    if errors.is_forbidden e
    then 1
    else if errors.is_invalid e
    then elim (errors.causes e) [ none ↦ 0 | some causes ↦ count is_known causes ]
    else 0

-- The two understood causes exclude each other.
is_unbound-excludes : (cause : StatusCause) → is_unbound cause ≡ true → is_unresizable cause ≡ false
unfolding is_unbound is_unresizable
is_unbound-excludes cause e =
    let text : cause.field_name ≡ "spec" = (eq_iff cause.field_name "spec").0 (ground arith) in
    ground (arith, ap (λ s. str_eq s "spec.resources.requests.storage") text)

-- The same text, a number of times.
unfoldable pub repeated : ℕ → String → List String
repeated zero s = []
repeated (suc n) s = s ∷ repeated n s

repeated_push :
    (n : ℕ) (s : String) (l : List String) → repeated n s ++ s ∷ l ≡ s ∷ repeated n s ++ l
unfolding repeated
repeated_push zero s l = refl
repeated_push (suc n) s l = ap (λ (r : List String). s ∷ r) (repeated_push n s l)

-- The condition that says that a claim cannot be resized.
abbrev pub resize_failed : {E : Type 0} → VolumeErrors E → ℕ → E → Condition
resize_failed errors generation e = record {
  type = condition_resizing;
  status = "False";
  reason = errors.reason e;
  message = "One or more volumes cannot be resized";
  observed_generation = generation;
}

-- Causes that are all understood, and of which there is one, are counted.
has_causes-known :
    (causes : List StatusCause)
    → has_causes causes ≡ true
    → any (λ (c : StatusCause). not (is_known c)) causes ≡ false
    → 0 < count is_known causes
unfolding has_causes any count
has_causes-known [] h all_known = absurd (false≢true h)
has_causes-known (cause ∷ rest) h all_known = ground arith

length-repeated : (n : ℕ) (s : String) → length (repeated n s) ≡ n
unfolding repeated
length-repeated zero s = refl
length-repeated (suc n) s = ap suc (length-repeated n s)

module _ {E C : Type 0} (errors : VolumeErrors E) ⦃sc : StatusConditions C⦄ (generation : ℕ) where
  note_causes-unknown :
      (e : E) (causes : List StatusCause) (noted : Bool × C × List String)
      → (note_causes errors generation e causes noted).0
        ≡ (noted.0 || any (λ (c : StatusCause). not (is_known c)) causes)
  unfolding note_causes any is_known
  note_causes-unknown e [] (u, cs, events) = ground arith
  note_causes-unknown e (cause ∷ rest) (u, cs, events) =
      ground
        (arith, note_causes-unknown e rest (note_cause errors generation e cause (u, cs, events)))

  note_cause-events :
      (e : E) (cause : StatusCause) (noted : Bool × C × List String)
      → (note_cause errors generation e cause noted).2
        ≡ (if is_known cause then errors.text e ∷ noted.2 else noted.2)
  unfolding note_cause is_known
  note_cause-events e cause (u, cs, events) = ground arith

  note_causes-events :
      (e : E) (causes : List StatusCause) (noted : Bool × C × List String)
      → (note_causes errors generation e causes noted).2
        ≡ repeated (count is_known causes) (errors.text e) ++ noted.2
  unfolding note_causes count repeated
  note_causes-events e [] (u, cs, events) = refl
  note_causes-events e (cause ∷ rest) (u, cs, events) = elim (Bool-cases (is_known cause)) [
    | inl known ↦
        note_causes-events e rest (note_cause errors generation e cause (u, cs, events))
        ∙ (ap (λ (l : List String). repeated (count is_known rest) (errors.text e) ++ l)
              (note_cause-events e cause (u, cs, events)
                ∙ ap (λ b. if b then errors.text e ∷ events else events) known)
            ∙ (repeated_push (count is_known rest) (errors.text e) events ∙ ground (arith, known)))
    | inr unknown ↦
        note_causes-events e rest (note_cause errors generation e cause (u, cs, events))
        ∙ (ap (λ (l : List String). repeated (count is_known rest) (errors.text e) ++ l)
              (note_cause-events e cause (u, cs, events)
                ∙ ap (λ b. if b then errors.text e ∷ events else events) unknown)
            ∙ ground (arith, unknown))
  ]

  note_causes-find :
      (e : E) (asked : String) (causes : List StatusCause) (noted : Bool × C × List String)
      → sc.find (note_causes errors generation e causes noted).1 asked ≡ (
          if str_eq condition_resizing asked && any is_unresizable causes
          then some (resize_failed errors generation e)
          else sc.find noted.1 asked)
  unfolding note_causes any
  note_causes-find e asked [] (u, cs, events) = ground arith
  note_causes-find e asked (cause ∷ rest) (u, cs, events) = ground (
    arith,
    is_unbound-excludes cause,
    sc.find-set cs (resize_failed errors generation e) asked,
    note_causes-find e asked rest (note_cause errors generation e cause (u, cs, events)),
  )

  -- An error is returned unless it is reported. A warning with its text is raised when it is forbidden,
  -- and when it is invalid one for each understood cause; there are no other warnings. Every error is
  -- returned or raised as a warning. The condition about resizing says why where the error blames the
  -- resize, and all else stays.
  pub handle_persistent_volume_claim_error-is_reported :
      (cs : C) (e : E) (asked : String)
      → let failure = handle_persistent_volume_claim_error errors generation cs (some e) in
        (failure.err ≡ (if is_reported errors e then none else some e))
        × (failure.events ≡ repeated (num_warnings errors e) (errors.text e))
        × ((is_some failure.err || ltb 0 (length failure.events)) ≡ true)
        × (sc.find failure.conditions asked ≡ (
            if str_eq condition_resizing asked && blames_resize errors e
            then some (resize_failed errors generation e)
            else sc.find cs asked))
  unfolding handle_persistent_volume_claim_error is_reported blames_resize judge_causes
      cannot_resize num_warnings repeated has_causes any count
  handle_persistent_volume_claim_error-is_reported cs e asked =
      elim (Option-cases (errors.causes e)) [
        | inl none_e ↦ (
          ground arith,
          ground arith,
          ground arith,
          ground (arith, sc.find-set cs (resize_failed errors generation e) asked),
        )
        | inr (causes, some_e) ↦
            let noted : Bool × C × List String = (false, cs, []) in
            (
              ground (arith, note_causes-unknown e causes noted),
              ground (
                arith,
                note_causes-events e causes noted,
                append-nil (repeated (count is_known causes) (errors.text e)),
              ),
              ground (
                arith,
                note_causes-unknown e causes noted,
                note_causes-events e causes noted,
                length-append (repeated (count is_known causes) (errors.text e)) [],
                length-repeated (count is_known causes) (errors.text e),
                has_causes-known causes,
              ),
              ground (
                arith,
                sc.find-set cs (resize_failed errors generation e) asked,
                note_causes-find e asked causes noted,
              ),
            )
      ]
