-- ===== src/Patroni/Restarting.antt =====
-- Whom handlePatroniRestarts restarts.

use mathlib.Core.List.{Memᴰ}
use ivory_operator.Instances.{is_primary, Instance}
use ivory_operator.Patroni.Restarts.{
  Restart, needs_restart, find_restarts, choose_restart, handle_patroni_restarts,
}
use ivory_operator.Prelude.{
  ◌∙◌, sym, refl, if◌then◌else◌, [], inr, arith, if_elim, inl, ◌⊎◌, not, ◌∷◌, ◌||◌, false, ◌≡◌,
  true, some, All, All-Memᴰ, ◌&&◌, is_some, Option, none, any, List, Bool,
}

abbrev pub leads : Instance → Bool
leads i = (is_primary i).0

find_restarts-primary :
    (is : List Instance) (p r : Option Instance)
    → is_some (find_restarts is p r).0 ≡ (is_some p || any (λ i. needs_restart i && leads i) is)
unfolding find_restarts any
find_restarts-primary [] p r = ground arith
find_restarts-primary (i ∷ rest) p r =
    let chosen = needs_restart i && not (is_some p && is_some r) in
    find_restarts-primary rest (if chosen && leads i then some i else p)
      (if chosen && not (leads i) then some i else r)
    ∙ if_elim {A = Option Instance}
        (λ o.
          (is_some o || any (λ j. needs_restart j && leads j) rest)
          ≡ (is_some p || any (λ j. needs_restart j && leads j) (i ∷ rest)))
        (chosen && leads i) (λ h. ground arith) (λ h. ground arith)

find_restarts-replica :
    (is : List Instance) (p r : Option Instance)
    → is_some (find_restarts is p r).1
      ≡ (is_some r || any (λ i. needs_restart i && not (leads i)) is)
unfolding find_restarts any
find_restarts-replica [] p r = ground arith
find_restarts-replica (i ∷ rest) p r =
    let chosen = needs_restart i && not (is_some p && is_some r) in
    find_restarts-replica rest (if chosen && leads i then some i else p)
      (if chosen && not (leads i) then some i else r)
    ∙ if_elim {A = Option Instance}
        (λ o.
          (is_some o || any (λ j. needs_restart j && not (leads j)) rest)
          ≡ (is_some r || any (λ j. needs_restart j && not (leads j)) (i ∷ rest)))
        (chosen && not (leads i)) (λ h. ground arith) (λ h. ground arith)

-- What was found is one of the instances, needs to restart, and is of its kind.
abbrev IsFit : Bool → List Instance → Option Instance → Type 0
IsFit leader all none = Unit {0}
IsFit leader all (some i) = Memᴰ i all × (needs_restart i ≡ true) × (leads i ≡ leader)

find_restarts-IsFit :
    (all is : List Instance) (p r : Option Instance)
    → All (λ i. Memᴰ i all) is
    → IsFit true all p
    → IsFit false all r
    → IsFit true all (find_restarts is p r).0 × IsFit false all (find_restarts is p r).1
unfolding find_restarts
find_restarts-IsFit all [] p r m h k = (h, k)
find_restarts-IsFit all (i ∷ rest) p r m h k =
    find_restarts-IsFit all rest _ _ m.1
      (if_elim {A = Option Instance} (IsFit true all)
        (needs_restart i && not (is_some p && is_some r) && leads i)
        (λ c. (m.0, ground arith, ground arith)) (λ _. h))
      (if_elim {A = Option Instance} (IsFit false all)
        (needs_restart i && not (is_some p && is_some r) && not (leads i))
        (λ c. (m.0, ground arith, ground arith)) (λ _. k))

-- The restart is due: of the primary when it needs one, else of replicas, and of nothing when no
-- instance does.
abbrev pub IsDueRestart : List Instance → Option Restart → Type 0
IsDueRestart is none = any needs_restart is ≡ false
IsDueRestart is (some r) =
    Memᴰ r.through is
    × (needs_restart r.through ≡ true)
    × (((r.role ≡ "master") × (leads r.through ≡ true))
        ⊎ ((r.role ≡ "replica")
            × (leads r.through ≡ false)
            × (any (λ i. needs_restart i && leads i) is ≡ false)))

any_split :
    (is : List Instance)
    → any (λ i. needs_restart i && leads i) is ≡ false
    → any (λ i. needs_restart i && not (leads i)) is ≡ false
    → any needs_restart is ≡ false
unfolding any
any_split [] h k = refl
any_split (i ∷ rest) h k = ground (arith, any_split rest)

IsDueRestart-choose :
    (is : List Instance) (p r : Option Instance)
    → IsFit true is p
    → IsFit false is r
    → is_some p ≡ any (λ i. needs_restart i && leads i) is
    → is_some r ≡ any (λ i. needs_restart i && not (leads i)) is
    → IsDueRestart is (choose_restart (p, r))
unfolding choose_restart
IsDueRestart-choose is (some i) r (m, n, l) k e f = (m, n, inl (refl, l))
IsDueRestart-choose is none (some i) h (m, n, l) e f = (m, n, inr (refl, l, sym e))
IsDueRestart-choose is none none h k e f = any_split is (sym e) (sym f)

-- Restarts go to the primary before any replica: a restart of replicas is asked for only when no
-- primary that runs needs one, a restart is asked for through an instance that needs it and runs,
-- and none is asked for only when no instance needs one.
pub handle_patroni_restarts-IsDueRestart :
    (is : List Instance) → IsDueRestart is (handle_patroni_restarts is)
unfolding handle_patroni_restarts
handle_patroni_restarts-IsDueRestart is =
    let (h, k) = find_restarts-IsFit is is none none (All-Memᴰ is) tt tt in
    IsDueRestart-choose is (find_restarts is none none).0 (find_restarts is none none).1 h k
      (find_restarts-primary is none none) (find_restarts-replica is none none)
