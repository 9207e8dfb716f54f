-- ===== src/Backups/Honest.antt =====
-- What the status and the condition tell after reconcileStanzaCreate.

use ivory_operator.Backups.{
  cluster_writable, ◌∷◌, condition_replica_repo_ready, Repo, BackupState, BackupSpec, is_true,
  RepoStatus,
}
use ivory_operator.Backups.Created.{
  stanzas_created, mark_created, reconcile_stanza_create, after_stanza, StanzaOutcome,
  note_repo_ready, repo_status_of, repo_ready,
}
use ivory_operator.Instances.{Instance}
use ivory_operator.Kube.{Condition, StatusConditions}
use ivory_operator.Prelude.{
  eq_iff, inr, if◌then◌else◌, inl, ◌∙◌, ◌||◌, ap, true, not, ◌⊎◌, sym, refl, [], arith, none, false,
  if_elim, Bool, List, some, ◌≡◌, ℕ, Option,
}

abbrev pub has_stanza : Option RepoStatus → Bool
has_stanza none = false
has_stanza (some status) = status.stanza_created

is_true-repo_ready :
    (generation : ℕ) (status : Option RepoStatus)
    → is_true (some (repo_ready generation status)) ≡ has_stanza status
unfolding repo_ready is_true
is_true-repo_ready generation none = refl
is_true-repo_ready generation (some status) =
    if_elim {A = Condition} (λ c. is_true (some c) ≡ status.stanza_created) status.stanza_created
      (λ e. sym e) (λ e. sym e)

type-repo_ready :
    (generation : ℕ) (status : Option RepoStatus)
    → (repo_ready generation status).type ≡ condition_replica_repo_ready
unfolding repo_ready
type-repo_ready generation none = refl
type-repo_ready generation (some status) = ground arith

module _ {C : Type 0} ⦃sc : StatusConditions C⦄ (spec : BackupSpec) where
  -- The condition and the status of the first repository agree.
  abbrev pub Agrees : List Repo → BackupState C → Type 0
  Agrees [] s = Unit {0}
  Agrees (repo ∷ rest) s =
      is_true (sc.find s.conditions condition_replica_repo_ready)
      ≡ has_stanza (repo_status_of repo.name s.repos)

  note_repo_ready-Agrees :
      (s : BackupState C)
      → Agrees spec.repos (note_repo_ready spec s) × ((note_repo_ready spec s).repos ≡ s.repos)
  unfolding note_repo_ready
  note_repo_ready-Agrees s = go spec.repos
    where
      go :
          (repos : List Repo)
          → let after : BackupState C = elim repos [
            | [] ↦ s
            | repo ∷ rest ↦ record s {
              conditions =
                  sc.set s.conditions
                    (repo_ready spec.generation (repo_status_of repo.name s.repos));
            }
          ] in
            Agrees repos after × (after.repos ≡ s.repos)
      go [] = (tt, refl)
      go (repo ∷ rest) =
          let status = repo_status_of repo.name s.repos in
          let c = repo_ready spec.generation status in
          (
            ap is_true (
                  sc.find-set s.conditions c condition_replica_repo_ready
                  ∙ ap
                      (λ b. if b then some c else sc.find s.conditions condition_replica_repo_ready)
                      ((eq_iff c.type condition_replica_repo_ready).1
                        (type-repo_ready spec.generation status)))
                ∙ is_true-repo_ready spec.generation status,
            refl,
          )

module _ {E C : Type 0} ⦃sc : StatusConditions C⦄ (spec : BackupSpec)
    (instances : List Instance) where
  -- The stanzas are marked as created by a call that ran on a writable instance, found its
  -- configuration, and succeeded; or no mark changes.
  abbrev pub IsHonest : Bool × Option E → BackupState C → StanzaOutcome E C → Type 0
  IsHonest answer s out =
      (out.state.repos ≡ s.repos)
      ⊎ ((out.state.repos ≡ mark_created s.repos)
          × (cluster_writable instances ≡ true)
          × (answer ≡ (false, none))
          × (out.mismatch ≡ false)
          × (out.err ≡ none))

  after_stanza-IsHonest :
      (s : BackupState C) (answer : Bool × Option E)
      → cluster_writable instances ≡ true
      → IsHonest answer s (after_stanza s answer)
  unfolding after_stanza
  after_stanza-IsHonest s (mismatch, some e) w = inl refl
  after_stanza-IsHonest s (true, none) w = inl refl
  after_stanza-IsHonest s (false, none) w = inr (refl, w, refl, refl, refl)

  -- Stanzas get their mark only from a call on a writable instance that found the configuration it
  -- looked for and returned no error, and keep their marks otherwise. After every outcome, the
  -- condition of the first repository is true exactly when its status has the mark.
  pub reconcile_stanza_create-IsHonest :
      (s : BackupState C) (answer : Bool × Option E)
      → IsHonest answer s (reconcile_stanza_create spec instances s answer)
        × Agrees spec spec.repos (reconcile_stanza_create spec instances s answer).state
  unfolding reconcile_stanza_create
  reconcile_stanza_create-IsHonest s answer =
      if_elim {A = StanzaOutcome E C}
        (λ out.
          IsHonest answer s (record out { state = note_repo_ready spec out.state })
          × Agrees spec spec.repos (note_repo_ready spec out.state))
        (not (cluster_writable instances) || stanzas_created s.repos)
        (λ _. (inl (note_repo_ready-Agrees spec s).1, (note_repo_ready-Agrees spec s).0))
        (λ e.
          let out : StanzaOutcome E C = after_stanza s answer in
          let (agrees, repos) = note_repo_ready-Agrees spec out.state in
          (
            elim (after_stanza-IsHonest s answer (ground (arith, e))) [
              | inl h ↦ inl (repos ∙ h)
              | inr (h, w, a, m, n) ↦ inr (repos ∙ h, w, a, m, n)
            ],
            agrees,
          ))
