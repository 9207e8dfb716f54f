-- ===== src/Volumes/Moved.antt =====
-- When reconcileDirMoveJobs lets the cluster start, and which jobs it makes.

-- A completed job of a name is listed.
use ivory_operator.Kube.{found, LabelSets}
use ivory_operator.Prelude.{
  subst, ap, sym, ◌∙◌, some≢none, inr, inl, [], arith, Option-cases, ◌∷◌, refl, true, ◌||◌, false,
  All, Option, ◌&&◌, str_eq, some, none, not, ◌≡◌, Bool, List, String, any,
}
use ivory_operator.Volumes.Existing.{DataSourceVolume, DataSourceVolumes}
use ivory_operator.Volumes.Moves.{
  move_repo_dir, move_wal_dir, move_pg_data_dir, move_intent, move_job_name, MoveOutcome, MoveKind,
  MoveJob, MoveSpec, ObservedMove, MoveEnv,
}
use ivory_operator.Volumes.Moving.{
  reconcile_dir_move_jobs, wanted_move, apply_move, take_move, reconcile_move, move_completed,
  existing_move, move_failed,
}

unfoldable pub is_moved : String → List ObservedMove → Bool
unfolding any move_completed
is_moved name jobs = any (λ (job : ObservedMove). str_eq job.name name && move_completed job) jobs

-- A job is of another name, or has failed without having completed.
unfoldable pub is_spent : String → ObservedMove → Bool
unfolding move_failed move_completed
is_spent name job = not (str_eq job.name name) || (move_failed job && not (move_completed job))

existing_move-is_moved :
    (name : String) (jobs : List ObservedMove)
    → existing_move name jobs ≡ some false
    → is_moved name jobs ≡ true
unfolding existing_move is_moved any
existing_move-is_moved name [] e = ground arith
existing_move-is_moved name (job ∷ rest) e =
    let ih : existing_move name rest ≡ some false → is_moved name rest ≡ true =
      existing_move-is_moved name rest in
    ground (arith, ih)

existing_move-is_spent :
    (name : String) (jobs : List ObservedMove)
    → existing_move name jobs ≡ none
    → All (λ job. is_spent name job ≡ true) jobs
unfolding existing_move is_spent
existing_move-is_spent name [] e = tt
existing_move-is_spent name (job ∷ rest) e =
    (ground arith, existing_move-is_spent name rest (ground arith))

module _ {E : Type 0} ⦃ls : LabelSets⦄ (env : MoveEnv E) (spec : MoveSpec) where
  -- A job is the one that is wanted of some kind, and all listed jobs of its name are spent.
  pub IsDueMove : List ObservedMove → DataSourceVolumes → MoveJob → Type 0
  IsDueMove jobs volumes job =
      (kind : MoveKind) × (source : DataSourceVolume) × (wanted_move kind volumes ≡ some source)
      × (job ≡ move_intent kind spec source)
      × All (λ o. is_spent (move_job_name kind spec.cluster_name) o ≡ true) jobs

  apply_move-clears :
      (applied : List MoveJob) (job : MoveJob) (answer : Option E)
      → (apply_move env spec applied job answer).return_early ≡ true
  unfolding apply_move
  apply_move-clears applied job none = refl
  apply_move-clears applied job (some e) = refl

  reconcile_move-is_moved :
      (kind : MoveKind) (jobs : List ObservedMove) (applied : List MoveJob)
      (source : DataSourceVolume)
      → (reconcile_move env spec kind jobs applied source).return_early ≡ false
      → is_moved (move_job_name kind spec.cluster_name) jobs ≡ true
  unfolding reconcile_move
  reconcile_move-is_moved kind jobs applied source early =
      let name = move_job_name kind spec.cluster_name in
      elim (Option-cases (existing_move name jobs)) [
        | inl e ↦
            let job = move_intent kind spec source in
            ground (arith, apply_move-clears applied job (env.set_controller job))
        | inr (found_early, e) ↦ existing_move-is_moved name jobs (e ∙ ap some (ground arith))
      ]

  take_move-Proceeds :
      (jobs : List ObservedMove) (volumes : DataSourceVolumes) (kind : MoveKind)
      (so_far : MoveOutcome E)
      → (take_move env spec jobs volumes kind so_far).err ≡ none
      → (take_move env spec jobs volumes kind so_far).return_early ≡ false
      → (so_far.err ≡ none)
        × (so_far.return_early ≡ false)
        × ((source : DataSourceVolume)
            → wanted_move kind volumes ≡ some source
            → is_moved (move_job_name kind spec.cluster_name) jobs ≡ true)
  unfolding take_move
  take_move-Proceeds jobs volumes kind so_far no_err early = elim (Option-cases so_far.err) [
    | inr (e, stopped) ↦ absurd (some≢none (sym stopped ∙ ground arith))
    | inl going ↦ elim (Option-cases (wanted_move kind volumes)) [
      | inl unwanted ↦ (going, ground arith, λ source w. absurd (some≢none (sym w ∙ unwanted)))
      | inr (asked, wanted) ↦
          let m = reconcile_move env spec kind jobs so_far.applied asked in
          let clear : so_far.return_early || m.return_early ≡ false = ground arith in
          (
            going,
            ground arith,
            λ source w. reconcile_move-is_moved kind jobs so_far.applied asked (ground arith),
          )
    ]
  ]

  -- A cluster whose directories were all looked after goes on, without an early return and without an
  -- error, only where each wanted directory has a completed job.
  pub reconcile_dir_move_jobs-is_moved :
      (volumes : DataSourceVolumes) (jobs : List ObservedMove)
      → spec.volumes ≡ some volumes
      → (reconcile_dir_move_jobs env spec (found jobs)).err ≡ none
      → (reconcile_dir_move_jobs env spec (found jobs)).return_early ≡ false
      → (kind : MoveKind) (source : DataSourceVolume) → wanted_move kind volumes ≡ some source
      → is_moved (move_job_name kind spec.cluster_name) jobs ≡ true
  unfolding reconcile_dir_move_jobs
  reconcile_dir_move_jobs-is_moved volumes jobs given no_err early kind source wanted =
      let start : MoveOutcome E = record { return_early = false; err = none; applied = [] } in
      let first = take_move env spec jobs volumes move_pg_data_dir start in
      let second = take_move env spec jobs volumes move_wal_dir first in
      let (err3, early3, moved3) =
        take_move-Proceeds jobs volumes move_repo_dir second (ground (arith, given))
          (ground (arith, given)) in
      let (err2, early2, moved2) = take_move-Proceeds jobs volumes move_wal_dir first err3 early3 in
      let (err1, early1, moved1) =
        take_move-Proceeds jobs volumes move_pg_data_dir start err2 early2 in
      elim kind
          as (λ k.
            wanted_move k volumes ≡ some source
            → is_moved (move_job_name k spec.cluster_name) jobs ≡ true) [
              | move_pg_data_dir ↦ moved1 source
              | move_wal_dir ↦ moved2 source
              | move_repo_dir ↦ moved3 source
            ]
        wanted

  apply_move-IsDueMove :
      (volumes : DataSourceVolumes) (jobs : List ObservedMove) (applied : List MoveJob)
      (job : MoveJob) (answer : Option E)
      → IsDueMove jobs volumes job
      → All (IsDueMove jobs volumes) applied
      → All (IsDueMove jobs volumes) (apply_move env spec applied job answer).applied
  unfolding apply_move
  apply_move-IsDueMove volumes jobs applied job none here due = (here, due)
  apply_move-IsDueMove volumes jobs applied job (some e) here due = due

  reconcile_move-IsDueMove :
      (volumes : DataSourceVolumes) (kind : MoveKind) (jobs : List ObservedMove)
      (applied : List MoveJob) (source : DataSourceVolume)
      → wanted_move kind volumes ≡ some source
      → All (IsDueMove jobs volumes) applied
      → All (IsDueMove jobs volumes) (reconcile_move env spec kind jobs applied source).applied
  unfolding reconcile_move IsDueMove
  reconcile_move-IsDueMove volumes kind jobs applied source wanted due =
      let name = move_job_name kind spec.cluster_name in
      elim (Option-cases (existing_move name jobs)) [
        | inr (early, e) ↦ rw (e, All) due
        | inl e ↦
            let job = move_intent kind spec source in
            rw (e, All)
              (apply_move-IsDueMove volumes jobs applied job (env.set_controller job)
                (kind, source, wanted, refl, existing_move-is_spent name jobs e) due)
      ]

  take_move-IsDueMove :
      (volumes : DataSourceVolumes) (kind : MoveKind) (jobs : List ObservedMove)
      (so_far : MoveOutcome E)
      → All (IsDueMove jobs volumes) so_far.applied
      → All (IsDueMove jobs volumes) (take_move env spec jobs volumes kind so_far).applied
  unfolding take_move
  take_move-IsDueMove volumes kind jobs so_far due = elim (Option-cases so_far.err) [
    | inr (e, stopped) ↦ rw stopped due
    | inl going ↦ elim (Option-cases (wanted_move kind volumes)) [
      | inl unwanted ↦ rw (going, unwanted) due
      | inr (source, wanted) ↦
          rw (going, wanted)
            (reconcile_move-IsDueMove volumes kind jobs so_far.applied source wanted due)
    ]
  ]

  -- Each job that is applied is the one wanted of its kind, and all the listed jobs of its name have
  -- failed without having completed.
  pub reconcile_dir_move_jobs-IsDueMove :
      (volumes : DataSourceVolumes) (jobs : List ObservedMove)
      → spec.volumes ≡ some volumes
      → All (IsDueMove jobs volumes) (reconcile_dir_move_jobs env spec (found jobs)).applied
  unfolding reconcile_dir_move_jobs
  reconcile_dir_move_jobs-IsDueMove volumes jobs given =
      let start : MoveOutcome E = record { return_early = false; err = none; applied = [] } in
      let first = take_move env spec jobs volumes move_pg_data_dir start in
      let second = take_move env spec jobs volumes move_wal_dir first in
      let third = take_move env spec jobs volumes move_repo_dir second in
      let all_three : (reconcile_dir_move_jobs env spec (found jobs)).applied ≡ third.applied =
        ground (arith, given) in
      subst (λ (l : List MoveJob). All (IsDueMove jobs volumes) l) (sym all_three)
        (take_move-IsDueMove volumes move_repo_dir jobs second (
          take_move-IsDueMove volumes move_wal_dir jobs first
            (take_move-IsDueMove volumes move_pg_data_dir jobs start tt)))
