-- ===== src/Instances/Rollout.antt =====
-- instance.go: rolloutInstances, which redeploys the pods that differ from their template.
use mathlib.Core.Bool.{◌||◌}
use ivory_operator.Instances.{
  surely, ◌∷◌, is_available, is_terminating, pod_matches_pod_template, SetSpec, Instance,
}
use ivory_operator.Kube.{Responses}
use ivory_operator.Prelude.{
  ◌++◌, suc, length, arith, ltb, if◌then◌else◌, ◌≤◌, ◌⊎◌, none, ◌≡◌, ◌||◌, not, is_none, ◌+◌, [],
  is_some, ◌&&◌, count, Option, ℕ, List, Bool,
}
use ivory_operator.Prelude.Int.{suc_ℤ, pos, ltb_ℤ, neg_part, sub_ℕ, pos_part, ℤ}

-- An instance that counts: it has a set in the specification, and is not terminating.
unfoldable pub is_considered : Instance → Bool
is_considered i =
    let (terminating, known) = is_terminating i in is_some i.spec && not (not known || terminating)

-- An instance whose pod is known to differ from its template.
unfoldable pub is_outdated : Instance → Bool
is_outdated i = let (same, known) = pod_matches_pod_template i in known && not same

-- The first loop: how many instances are available, and which to redeploy.
unfoldable pub survey : List Instance → ℕ → List Instance → ℕ × List Instance
survey [] available consider = (available, consider)
survey (i ∷ rest) available consider =
    survey rest (if is_considered i && surely (is_available i) then suc available else available)
      (if is_considered i && is_outdated i then consider ++ i ∷ [] else consider)

unfoldable pub num_specified : List SetSpec → ℕ
num_specified [] = 0
num_specified (s ∷ rest) = s.replicas + num_specified rest

-- An instance that is known to be unavailable is redeployed at once.
unfoldable pub is_down : Instance → Bool
is_down i = let (available, known) = is_available i in known && not available

-- The last loop, with the redeployed instances, newest first. `respond` answers each call of
-- redeploy from the calls before it.
unfoldable pub redeploy_all :
    {E : Type 0}
    → Responses Instance E
    → List Instance
    → ℤ
    → Option E
    → List Instance
    → Option E × List Instance
redeploy_all respond [] unavailable err done = (err, done)
redeploy_all respond (i ∷ rest) unavailable err done =
    let chosen = is_none err && (is_down i || ltb_ℤ unavailable (pos 1)) in
    redeploy_all respond rest (if chosen && not (is_down i) then suc_ℤ unavailable else unavailable)
      (if chosen then respond done i else err) (if chosen then i ∷ done else done)

-- sort.Sort by byPriority where there is more than one.
unfoldable pub in_turn : (List Instance → List Instance) → List Instance → List Instance
in_turn sort consider = if ltb 1 (length consider) then sort consider else consider

-- rolloutInstances, for the instance sets of the specification and the observed instances.
unfoldable pub rollout_instances :
    {E : Type 0}
    → (List Instance → List Instance)
    → Responses Instance E
    → List SetSpec
    → List Instance
    → Option E × List Instance
rollout_instances sort respond sets instances =
    let (available, consider) = survey instances 0 [] in
    redeploy_all respond (in_turn sort consider) (sub_ℕ (num_specified sets) available) none []

-- How many redeployed instances were not known to be down.
abbrev pub disrupted : List Instance → ℕ
disrupted done = count (λ i. not (is_down i)) done

module _ {E : Type 0} where
  abbrev pub picked : Instance → ℤ → Option E → Bool
  picked i v err = is_none err && (is_down i || ltb_ℤ v (pos 1))

  abbrev pub next : Instance → ℤ → Option E → ℤ
  next i v err = if picked i v err && not (is_down i) then suc_ℤ v else v

module _ {E : Type 0} (respond : Responses Instance E) where
  pub redeploy_all-bound :
      (todo : List Instance) (v : ℤ) (err : Option E) (done : List Instance)
      (specified available : ℕ)
      → pos_part v + available ≡ neg_part v + specified + disrupted done
      → (disrupted done ≡ 0) ⊎ (specified + disrupted done ≤ available + 1)
      → (disrupted (redeploy_all respond todo v err done).1 ≡ 0)
        ⊎ (specified + disrupted (redeploy_all respond todo v err done).1 ≤ available + 1)
  unfolding redeploy_all count
  redeploy_all-bound [] v err done specified available e h = h
  redeploy_all-bound (i ∷ rest) v err done specified available e h =
      redeploy_all-bound rest (next i v err) _ (if picked i v err then i ∷ done else done) specified
        available (ground arith) (ground arith)
