-- ===== src/Instances/Rolling.antt =====
-- What a rollout redeploys, and how many instances it disrupts.
use Prim.Native.String.{compare}
use mathlib.Core.Bool.{◌||◌}
use mathlib.Core.List.{Perm}
use text.Mathlib.Text.{is_lt}
use ivory_operator.Instances.{by_priority, is_primary, SetSpec, ◌∷◌, is_available, surely, Instance}
use ivory_operator.Instances.Rollout.{
  redeploy_all-bound, num_specified, in_turn, disrupted, next, rollout_instances, is_down,
  is_outdated, redeploy_all, is_considered, survey,
}
use ivory_operator.Kube.{Responses}
use ivory_operator.Prelude.{
  some≢none, ◌==◌, inl, All_of_none, All-map, ◌≤◌, length, true, ltb, ◌⊎◌, All, ◌∙◌, sym, ap, ◌||◌,
  is_none, ◌++◌, refl, suc, if_elim, [], if◌then◌else◌, false, arith, ◌+◌, Option, some, not, none,
  ◌&&◌, ◌≡◌, any, ℕ, count, List, Bool,
}
use ivory_operator.Prelude.Int.{sub_ℕ, pos, ltb_ℤ, ℤ}
use ivory_operator.Prelude.Perms.{any-perm, count-perm}
use Prim.Native.Nat.add

-- The instances that count as available.
abbrev pub available_in : List Instance → ℕ
available_in = count (λ i. is_considered i && surely (is_available i))

abbrev pub is_wanted : Instance → Bool
is_wanted i = is_considered i && is_outdated i

survey-available :
    (is : List Instance) (n : ℕ) (c : List Instance) → (survey is n c).0 ≡ n + available_in is
unfolding survey count
survey-available [] n c = omega arith
survey-available (i ∷ rest) n c = ground (
  arith,
  survey-available rest n c,
  survey-available rest (suc n) c,
  survey-available rest n (c ++ i ∷ []),
  survey-available rest (suc n) (c ++ i ∷ []),
)

any_snoc :
    {A : Type 0} (p : A → Bool) (xs : List A) (x : A)
    → any p xs ≡ false
    → p x ≡ false
    → any p (xs ++ x ∷ []) ≡ false
unfolding any
any_snoc p [] x h k = ground arith
any_snoc p (y ∷ xs) x h k = ground (arith, any_snoc p xs x)

survey-consider :
    (is : List Instance) (n : ℕ) (c : List Instance)
    → any (λ i. not (is_wanted i)) c ≡ false
    → any (λ i. not (is_wanted i)) (survey is n c).1 ≡ false
unfolding survey
survey-consider [] n c h = h
survey-consider (i ∷ rest) n c h = survey-consider rest _ (if is_wanted i then c ++ i ∷ [] else c) (
    if_elim {A = List Instance} (λ l. any (λ i. not (is_wanted i)) l ≡ false) (is_wanted i)
      (λ w. any_snoc (λ i. not (is_wanted i)) c i h (ap not w)) (λ _. h))

module _ {E : Type 0} (respond : Responses Instance E) where
  redeploy_all-wanted :
      (p : Instance → Bool) (todo : List Instance) (v : ℤ) (err : Option E) (done : List Instance)
      → any p todo ≡ false
      → any p done ≡ false
      → any p (redeploy_all respond todo v err done).1 ≡ false
  unfolding redeploy_all any
  redeploy_all-wanted p [] v err done t d = d
  redeploy_all-wanted p (i ∷ rest) v err done t d =
      redeploy_all-wanted p rest _ _ _ (ground arith) (
        if_elim {A = List Instance} (λ l. any p l ≡ false)
          (is_none err && (is_down i || ltb_ℤ v (pos 1))) (λ _. ground arith) (λ _. d))

  redeploy_all-failed :
      (todo : List Instance) (v : ℤ) (e : E) (done : List Instance)
      → redeploy_all respond todo v (some e) done ≡ (some e, done)
  unfolding redeploy_all
  redeploy_all-failed [] v e done = refl
  redeploy_all-failed (i ∷ rest) v e done = redeploy_all-failed rest v e done

  redeploy_all-down :
      (todo : List Instance) (v : ℤ) (err : Option E) (done : List Instance)
      → (redeploy_all respond todo v err done).0 ≡ none
      → count is_down (redeploy_all respond todo v err done).1
        ≡ count is_down done + count is_down todo
  unfolding redeploy_all count
  redeploy_all-down [] v err done h = omega arith
  redeploy_all-down (i ∷ rest) v (some e) done h = absurd (
      some≢none
        (sym (ap (λ (t : Option E × List Instance). t.0) (redeploy_all-failed rest v e done)) ∙ h))
  redeploy_all-down (i ∷ rest) v none done h =
      redeploy_all-down rest (next {E = E} i v none) (if chosen then respond done i else none)
        (if chosen then i ∷ done else done) h
      ∙ ground arith
    where
      chosen : Bool
      chosen = is_down i || ltb_ℤ v (pos 1)

module _ {E : Type 0} (sort : List Instance → List Instance) (respond : Responses Instance E)
    (specs : List SetSpec) (is : List Instance) where
  abbrev consider : List Instance
  consider = (survey is 0 []).1

  -- However the calls of redeploy end, a rollout redeploys no instance that is not known to be down,
  -- or those that it does leave at most one of the specified replicas unavailable: replicas
  -- specified and instances so redeployed are together at most one more than those available.
  pub rollout_instances-bound :
      (disrupted (rollout_instances sort respond specs is).1 ≡ 0)
      ⊎ (num_specified specs + disrupted (rollout_instances sort respond specs is).1
          ≤ available_in is + 1)
  unfolding rollout_instances count
  rollout_instances-bound =
      redeploy_all-bound respond (in_turn sort consider)
        (sub_ℕ (num_specified specs) (survey is 0 []).0) none [] (num_specified specs)
        (available_in is) (ground (arith, survey-available is 0 [])) (inl refl)

  -- A rollout redeploys only instances that have a set in the specification, are known not to be
  -- terminating, and whose pod is known to differ from its template, when sort.Sort permutes.
  pub rollout_instances-wanted :
      Perm consider (sort consider)
      → All
          (λ i. (is_considered i ≡ true) × (is_outdated i ≡ true))
          (rollout_instances sort respond specs is).1
  unfolding rollout_instances any in_turn survey
  rollout_instances-wanted perm =
      All-map _ _ (rollout_instances sort respond specs is).1 (λ i w. (ground arith, ground arith))
        (All_of_none (λ i. not (is_wanted i)) _
          (redeploy_all-wanted respond (λ i. not (is_wanted i)) (in_turn sort consider) _ none []
            (if_elim {A = List Instance} (λ l. any (λ i. not (is_wanted i)) l ≡ false)
              (ltb 1 (length consider))
              (λ _. sym (any-perm (λ i. not (is_wanted i)) perm) ∙ survey-consider is 0 [] refl)
              (λ _. survey-consider is 0 [] refl))
            refl))

  -- A rollout that ends without error has redeployed every instance it considered that was known to
  -- be down, when sort.Sort permutes.
  pub rollout_instances-down :
      Perm consider (sort consider)
      → (rollout_instances sort respond specs is).0 ≡ none
      → count is_down (rollout_instances sort respond specs is).1 ≡ count is_down (survey is 0 []).1
  unfolding rollout_instances count in_turn
  rollout_instances-down perm ok =
      redeploy_all-down respond (in_turn sort consider) _ none [] ok
      ∙ (add.zero _
          ∙ if_elim {A = List Instance} (λ l. count is_down l ≡ count is_down consider)
              (ltb 1 (length consider)) (λ _. sym (count-perm is_down perm)) (λ _. refl))

-- How much an instance is wanted to keep running: the primary most, then the available.
abbrev pub rank : Instance → ℕ
rank i = if surely (is_primary i) then 2 else if surely (is_available i) then 1 else 0

-- byPriority orders instances by rank: the primary last, an available instance after one that is
-- not. Names decide only between two instances that are neither primary nor known to be available;
-- two available ones are not ordered.
pub by_priority-rank :
    (a b : Instance)
    → by_priority a b ≡ (
        if rank a == rank b
        then rank a == 0 && is_lt (compare a.name b.name)
        else ltb (rank a) (rank b))
unfolding by_priority
by_priority-rank a b = ground arith
