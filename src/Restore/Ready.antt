-- ===== src/Restore/Ready.antt =====
-- When prepareForRestore deletes, and when it lets the cluster bootstrap again.

use mathlib.Core.List.{Memᴰ}
use ivory_operator.Backups.{BackupJob}
use ivory_operator.Instances.{Instance, SetSpec, Runner}
use ivory_operator.Kube.{StatusConditions, ApiErrors}
use ivory_operator.Prelude.{
  is_empty, if_elim, refl, All-Memᴰ, All-mapped, All-map, inr, map, sym, subst, true, [], ◌∙◌,
  false, Option-cases, inl, ◌∷◌, some, ◌⊎◌, none, ◌≡◌, All, Bool, List, String, Option, ℕ,
}
use ivory_operator.Restore.{
  last_primary, choose_startup, begin_restore, runners_of, nil_set, cluster_running, undetermined,
  startup, Startup, prepare_for_restore, with_startup, delete_endpoints, delete_runner,
  delete_restore_job, RestoreOutcome, condition_postgres_data_initialized, RestoreWrite,
  RestoreState, take_down, set_ready, delete_each, set_preparing, RestoreEnv,
}

-- A write that has its turn: jobs first, then what runs, and then what Patroni left.
abbrev pub IsInTurn : Option BackupJob → Bool → List Runner → List String → RestoreWrite → Type 0
IsInTurn job running runners endpoints (delete_restore_job j) = job ≡ some j
IsInTurn job running runners endpoints (delete_runner r) =
    (job ≡ none) × (running ≡ true) × Memᴰ r runners
IsInTurn job running runners endpoints (delete_endpoints n) =
    (job ≡ none) × (running ≡ false) × Memᴰ n endpoints

module _ {E : Type 0} ⦃errs : ApiErrors E⦄ (env : RestoreEnv E) where
  delete_each-All :
      (P : RestoreWrite → Type 0) (done ws : List RestoreWrite)
      → All P done
      → All P ws
      → All P (delete_each env done ws).1
  unfolding delete_each
  delete_each-All P done [] d h = d
  delete_each-All P done (w ∷ rest) d h =
      elim (Option-cases (errs.ignore_not_found (env.respond done w))) [
        | inl n ↦
            subst (λ o. All P (step w rest done o).1) (sym n)
              (delete_each-All P (w ∷ done) rest (h.0, d) h.1)
        | inr (e, n) ↦ subst (λ o. All P (step w rest done o).1) (sym n) (h.0, d)
      ]
    where
      step :
          RestoreWrite
          → List RestoreWrite
          → List RestoreWrite
          → Option E
          → Option E × List RestoreWrite
      step w rest done o = elim o [
        | none ↦ delete_each env (w ∷ done) rest
        | some e ↦ (some e, w ∷ done)
      ]

module _ {E C : Type 0} ⦃errs : ApiErrors E⦄ ⦃sc : StatusConditions C⦄ (env : RestoreEnv E)
    (generation : ℕ) where
  -- The cluster stays initialized, unless nothing of it is left; then it is ready for the restore.
  abbrev pub IsKept :
      Option BackupJob → Bool → List String → RestoreState C → RestoreOutcome E C → Type 0
  IsKept job running endpoints s out =
      (sc.find out.state.conditions condition_postgres_data_initialized
        ≡ sc.find s.conditions condition_postgres_data_initialized)
      ⊎ ((job ≡ none)
          × (running ≡ false)
          × (endpoints ≡ [])
          × (out.writes ≡ [])
          × (sc.find out.state.conditions condition_postgres_data_initialized ≡ none))

  abbrev pub Prepared :
      Option BackupJob
      → Bool
      → List Runner
      → List String
      → RestoreState C
      → RestoreOutcome E C
      → Type 0
  Prepared job running runners endpoints s out =
      All (IsInTurn job running runners endpoints) out.writes × IsKept job running endpoints s out

  find-preparing :
      (resource : String) (s : RestoreState C)
      → sc.find
          (set_preparing env generation resource s).conditions
          condition_postgres_data_initialized
        ≡ sc.find s.conditions condition_postgres_data_initialized
  unfolding set_preparing
  find-preparing resource s = sc.find-set s.conditions _ condition_postgres_data_initialized

  find-ready :
      (s : RestoreState C)
      → sc.find (set_ready env generation s).conditions condition_postgres_data_initialized ≡ none
  unfolding set_ready
  find-ready s =
      sc.find-set (sc.remove s.conditions condition_postgres_data_initialized) _
        condition_postgres_data_initialized
      ∙ sc.find-remove s.conditions condition_postgres_data_initialized
          condition_postgres_data_initialized

  take_down-Prepared :
      (job : Option BackupJob) (running : Bool) (runners : List Runner) (endpoints : List String)
      (s : RestoreState C)
      → Prepared job running runners endpoints s
          (take_down env generation job running runners endpoints s)
  unfolding take_down
  take_down-Prepared (some job) running runners endpoints s =
      ((refl, tt), inl (find-preparing "removing restore job" s))
  take_down-Prepared none true runners endpoints s = (
    delete_each-All env _ [] (map (λ r. delete_runner r) runners) tt (
        All-mapped (IsInTurn none true runners endpoints) (λ r. delete_runner r) runners
          (All-map (λ r. Memᴰ r runners)
            (λ r. IsInTurn none true runners endpoints (delete_runner r)) runners
            (λ r m. (refl, refl, m)) (All-Memᴰ runners))),
    inl (find-preparing "removing runners" s),
  )
  take_down-Prepared none false runners [] s = (tt, inr (refl, refl, refl, refl, find-ready s))
  take_down-Prepared none false runners (e ∷ rest) s = (
    delete_each-All env _ [] (map (λ n. delete_endpoints n) (e ∷ rest)) tt (
        All-mapped (IsInTurn none false runners (e ∷ rest)) (λ n. delete_endpoints n) (e ∷ rest)
          (All-map (λ n. Memᴰ n (e ∷ rest))
            (λ n. IsInTurn none false runners (e ∷ rest) (delete_endpoints n)) (e ∷ rest)
            (λ n m. (refl, refl, m)) (All-Memᴰ (e ∷ rest)))),
    inl (find-preparing "removing DCS" s),
  )

  with_startup-Prepared :
      (job : Option BackupJob) (running : Bool) (runners : List Runner) (endpoints : List String)
      (s : RestoreState C) (chosen : Startup)
      → Prepared job running runners endpoints s
          (with_startup env generation job running runners endpoints s chosen)
  unfolding with_startup
  with_startup-Prepared job running runners endpoints s (startup name set) =
      take_down-Prepared job running runners endpoints
        (record s { startup_instance = name; startup_instance_set = set })
  with_startup-Prepared job running runners endpoints s undetermined = (tt, inl refl)
  with_startup-Prepared job running runners endpoints s nil_set = (tt, inl refl)

  -- The cluster goes down in order: a restore job that exists is deleted before anything else, the
  -- runners of instances only while an instance runs, and the endpoints of Patroni only when none does.
  -- The cluster stops counting as initialized only when there is no restore job, no instance runs, and
  -- no endpoints are left.
  pub prepare_for_restore-Prepared :
      (sets : List SetSpec) (instances : List Instance) (endpoints : List String)
      (job : Option BackupJob) (restore_id : String) (s : RestoreState C)
      → Prepared job
          (cluster_running instances)
          (runners_of instances)
          endpoints
          s
          (prepare_for_restore env generation sets instances endpoints job restore_id s)
  unfolding prepare_for_restore
  prepare_for_restore-Prepared sets instances endpoints job restore_id s =
      let begun = begin_restore env generation restore_id s in
      let running = cluster_running instances in
      let runners = runners_of instances in
      if_elim {A = RestoreOutcome E C} (Prepared job running runners endpoints s)
        (is_empty s.startup_instance)
        (λ _.
          with_startup-Prepared job running runners endpoints begun
            (choose_startup env (last_primary instances none) runners sets))
        (λ _. take_down-Prepared job running runners endpoints begun)
