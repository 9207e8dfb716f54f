-- ===== src/Volumes/Resized.antt =====
-- What observePersistentVolumeClaims finds: the last adverse condition, or else the healthy ones.

-- The last condition that is not "True".
use ivory_operator.Prelude.{
  All_filtered, All-filter, eq_iff, arith, Option-cases, ap, false, inr, inl, is_empty, sym, str_eq,
  Bool-cases, refl, true, if◌then◌else◌, ◌∙◌, [], none, All, some, ◌∷◌, ◌++◌, ◌≡◌, filter, ℕ,
  Option, List,
}
use ivory_operator.Volumes.{Pvc, PvcCondition}
use ivory_operator.Volumes.Resizing.{
  keep_oldest, worsen, init_resizing, note_condition, is_resize, not_resizing, Resizing,
  note_claims, note_conditions, min_not_zero, reason_of,
}

unfoldable pub last_adverse : List PvcCondition → Option PvcCondition
last_adverse [] = none
last_adverse (c ∷ rest) = elim (last_adverse rest) [
  | some later ↦ some later
  | none ↦ if str_eq c.status "True" then none else some c
]

abbrev pub adverse : PvcCondition → Resizing
adverse c = record {
  status = c.status;
  reason = reason_of c;
  message = c.message;
  last_transition_time = c.last_transition_time;
}

-- The oldest time of a list that is not zero, starting at one.
unfoldable pub oldest : ℕ → List PvcCondition → ℕ
unfolding min_not_zero
oldest time [] = time
oldest time (c ∷ rest) = oldest (min_not_zero time c.last_transition_time) rest

-- The summary of healthy conditions.
unfoldable pub healthy : List PvcCondition → Resizing
unfolding oldest reason_of
healthy [] = not_resizing
healthy (c ∷ rest) = record not_resizing {
  status = "True";
  reason = reason_of c;
  last_transition_time = oldest c.last_transition_time rest;
}

-- What follows when `r` stands and the last adverse condition is known.
abbrev pub settle : Resizing → Option PvcCondition → Resizing
settle r (some c) = adverse c
settle r none = r

unfoldable pub resize_summary : List PvcCondition → Resizing
unfolding last_adverse healthy reason_of
resize_summary cs = settle (healthy cs) (last_adverse cs)

last_adverse-good :
    (c : PvcCondition) (rest : List PvcCondition)
    → str_eq c.status "True" ≡ true
    → last_adverse (c ∷ rest) ≡ last_adverse rest
unfolding last_adverse
last_adverse-good c rest good = elim (Option-cases (last_adverse rest)) [
  | inl e ↦ ground arith
  | inr (a, e) ↦ ground arith
]

settle-bad :
    (c : PvcCondition) (rest : List PvcCondition) (r : Resizing)
    → str_eq c.status "True" ≡ false
    → settle r (last_adverse (c ∷ rest)) ≡ settle (adverse c) (last_adverse rest)
unfolding last_adverse
settle-bad c rest r bad = elim (Option-cases (last_adverse rest)) [
  | inl e ↦ ground arith
  | inr (a, e) ↦ ground arith
]

-- The conditions of all claims, in order.
unfoldable pub all_conditions : List Pvc → List PvcCondition
all_conditions [] = []
all_conditions (v ∷ rest) = v.conditions ++ all_conditions rest

note_conditions-append :
    (xs ys : List PvcCondition) (r : Resizing)
    → note_conditions (xs ++ ys) r ≡ note_conditions ys (note_conditions xs r)
unfolding note_conditions
note_conditions-append [] ys r = refl
note_conditions-append (c ∷ rest) ys r = note_conditions-append rest ys (note_condition c r)

note_claims-all_conditions :
    (volumes : List Pvc) (r : Resizing)
    → note_claims volumes r ≡ note_conditions (all_conditions volumes) r
unfolding note_claims note_conditions all_conditions
note_claims-all_conditions [] r = refl
note_claims-all_conditions (v ∷ rest) r =
    note_claims-all_conditions rest (note_conditions v.conditions r)
    ∙ sym (note_conditions-append v.conditions (all_conditions rest) r)

filter-kept :
    (c : PvcCondition) (rest : List PvcCondition)
    → is_resize c ≡ true
    → filter is_resize (c ∷ rest) ≡ c ∷ filter is_resize rest
unfolding filter
filter-kept c rest e = rw e refl

filter-dropped :
    (c : PvcCondition) (rest : List PvcCondition)
    → is_resize c ≡ false
    → filter is_resize (c ∷ rest) ≡ filter is_resize rest
unfolding filter
filter-dropped c rest e = rw e refl

note_condition-skipped :
    (c : PvcCondition) (r : Resizing) → is_resize c ≡ false → note_condition c r ≡ r
unfolding note_condition
note_condition-skipped c r e = rw e refl

-- Conditions of other types do not count.
note_conditions-filter :
    (cs : List PvcCondition) (r : Resizing)
    → note_conditions cs r ≡ note_conditions (filter is_resize cs) r
unfolding note_conditions filter
note_conditions-filter [] r = refl
note_conditions-filter (c ∷ rest) r = elim (Bool-cases (is_resize c)) [
  | inl e ↦
      note_conditions-filter rest (note_condition c r)
      ∙ ap (λ l. note_conditions l r) (sym (filter-kept c rest e))
  | inr e ↦
      ap (note_conditions rest) (note_condition-skipped c r e)
      ∙ note_conditions-filter rest r
      ∙ ap (λ l. note_conditions l r) (sym (filter-dropped c rest e))
]

-- Once adverse, only an adverse condition changes the outcome.
-- The step on an adverse condition, and on a healthy one.
note_condition-adverse :
    (c : PvcCondition) (r : Resizing)
    → is_resize c ≡ true
    → str_eq c.status "True" ≡ false
    → note_condition c r ≡ record (adverse c) { message = c.message }
unfolding note_condition init_resizing worsen keep_oldest reason_of
note_condition-adverse c r resize bad = ground arith

note_condition-kept :
    (c : PvcCondition) (r : Resizing)
    → is_resize c ≡ true
    → str_eq c.status "True" ≡ true
    → is_empty r.status ≡ false
    → str_eq r.status "True" ≡ false
    → note_condition c r ≡ r
unfolding note_condition init_resizing worsen keep_oldest
note_condition-kept c r resize good given bad = ground arith

note_condition-healthy :
    (c : PvcCondition) (r : Resizing)
    → is_resize c ≡ true
    → str_eq c.status "True" ≡ true
    → str_eq r.status "True" ≡ true
    → is_empty r.status ≡ false
    → note_condition c r ≡ record r {
      last_transition_time = min_not_zero r.last_transition_time c.last_transition_time;
    }
unfolding note_condition init_resizing worsen keep_oldest
note_condition-healthy c r resize good good_r given = ground arith

note_conditions-adverse :
    (cs : List PvcCondition) (r : Resizing)
    → All (λ c. is_resize c ≡ true) cs
    → All (λ c. is_empty c.status ≡ false) cs
    → is_empty r.status ≡ false
    → str_eq r.status "True" ≡ false
    → note_conditions cs r ≡ settle r (last_adverse cs)
unfolding note_conditions last_adverse
note_conditions-adverse [] r resize given given_r bad = refl
note_conditions-adverse (c ∷ rest) r (resize, resizes) (given, givens) given_r bad =
    elim (Bool-cases (str_eq c.status "True")) [
      | inl good ↦
          ap (note_conditions rest) (note_condition-kept c r resize good given_r bad)
          ∙ note_conditions-adverse rest r resizes givens given_r bad
          ∙ ap (settle r) (sym (last_adverse-good c rest good))
      | inr worse ↦
          ap (note_conditions rest) (note_condition-adverse c r resize worse)
          ∙ note_conditions-adverse rest (adverse c) resizes givens given worse
          ∙ sym (settle-bad c rest r worse)
    ]

note_conditions-healthy :
    (cs : List PvcCondition) (r : Resizing)
    → All (λ c. is_resize c ≡ true) cs
    → All (λ c. is_empty c.status ≡ false) cs
    → is_empty r.status ≡ false
    → str_eq r.status "True" ≡ true
    → note_conditions cs r
      ≡ settle
          (record r { last_transition_time = oldest r.last_transition_time cs })
          (last_adverse cs)
unfolding note_conditions last_adverse oldest
note_conditions-healthy [] r resize given given_r good_r = refl
note_conditions-healthy (c ∷ rest) r (resize, resizes) (given, givens) given_r good_r =
    elim (Bool-cases (str_eq c.status "True")) [
      | inl good ↦
          let next : Resizing = record r {
            last_transition_time = min_not_zero r.last_transition_time c.last_transition_time;
          } in
          ap (note_conditions rest) (note_condition-healthy c r resize good good_r given_r)
          ∙ note_conditions-healthy rest next resizes givens given_r good_r
          ∙ ap
              (settle
                (record next { last_transition_time = oldest next.last_transition_time rest }))
              (sym (last_adverse-good c rest good))
      | inr worse ↦
          ap (note_conditions rest) (note_condition-adverse c r resize worse)
          ∙ note_conditions-adverse rest (adverse c) resizes givens given worse
          ∙ sym (
              settle-bad c rest
                (record r { last_transition_time = oldest r.last_transition_time (c ∷ rest) })
                worse)
    ]

-- The first condition, where it is healthy.
init-healthy :
    (c : PvcCondition)
    → is_resize c ≡ true
    → str_eq c.status "True" ≡ true
    → note_condition c not_resizing ≡ record not_resizing {
      status = "True";
      reason = reason_of c;
      last_transition_time = c.last_transition_time;
    }
unfolding note_condition init_resizing worsen keep_oldest min_not_zero reason_of
init-healthy c resize good = ground (arith, eq_iff c.status "True")

note_conditions-resize_summary :
    (cs : List PvcCondition)
    → All (λ c. is_resize c ≡ true) cs
    → All (λ c. is_empty c.status ≡ false) cs
    → note_conditions cs not_resizing ≡ resize_summary cs
unfolding note_conditions resize_summary healthy last_adverse
note_conditions-resize_summary [] resize given = refl
note_conditions-resize_summary (c ∷ rest) (resize, resizes) (given, givens) =
    elim (Bool-cases (str_eq c.status "True")) [
      | inl good ↦
          let first : Resizing = record not_resizing {
            status = "True";
            reason = reason_of c;
            last_transition_time = c.last_transition_time;
          } in
          ap (note_conditions rest) (init-healthy c resize good)
          ∙ note_conditions-healthy rest first resizes givens refl refl
          ∙ ap (settle (healthy (c ∷ rest))) (sym (last_adverse-good c rest good))
      | inr worse ↦
          ap (note_conditions rest) (note_condition-adverse c not_resizing resize worse)
          ∙ note_conditions-adverse rest (adverse c) resizes givens given worse
          ∙ sym (settle-bad c rest (healthy (c ∷ rest)) worse)
    ]

-- The condition that the claims of a cluster give: what the last adverse resize condition says, or else
-- "True" with the reason of the first and the oldest time that is not zero, or else nothing; each
-- condition of a claim has a status.
pub note_claims-resize_summary :
    (volumes : List Pvc)
    → All (λ c. is_empty c.status ≡ false) (all_conditions volumes)
    → note_claims volumes not_resizing ≡ resize_summary (filter is_resize (all_conditions volumes))
note_claims-resize_summary volumes given =
    note_claims-all_conditions volumes not_resizing
    ∙ note_conditions-filter (all_conditions volumes) not_resizing
    ∙ note_conditions-resize_summary (filter is_resize (all_conditions volumes))
        (All-filter is_resize (all_conditions volumes))
        (All_filtered (λ c. is_empty c.status ≡ false) is_resize (all_conditions volumes) given)
