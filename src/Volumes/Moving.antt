-- ===== src/Volumes/Moving.antt =====
-- volumes.go: the control flow of reconcileDirMoveJobs and of its three jobs.

use ivory_operator.Kube.{found, failed, Answer, LabelSets}
use ivory_operator.Prelude.{
  ◌&&◌, is_empty, ◌||◌, not, [], str_eq, is_none, true, some, false, if◌then◌else◌, ◌∷◌, none, Bool,
  Option, List, String,
}
use ivory_operator.Upgrade.Jobs.{first_condition}
use ivory_operator.Volumes.Existing.{DataSourceVolume, DataSourceVolumes}
use ivory_operator.Volumes.Moves.{
  move_pg_data_dir, move_wal_dir, move_repo_dir, move_job_name, MoveOutcome, move_intent, MoveJob,
  MoveSpec, ObservedMove, MoveEnv, MoveKind,
}

unfoldable pub move_failed : ObservedMove → Bool
unfolding first_condition
move_failed job = first_condition "Failed" job.conditions

unfoldable pub move_completed : ObservedMove → Bool
unfolding first_condition
move_completed job = first_condition "Complete" job.conditions

-- The search for an existing job: whether to return early, or nothing where a job is to be made.
unfoldable pub existing_move : String → List ObservedMove → Option Bool
unfolding move_failed move_completed
existing_move name [] = none
existing_move name (job ∷ rest) =
    let later = existing_move name rest in
    if str_eq job.name name
    then if move_completed job
      then some false
      else if not (move_failed job)
      then some true
      else later
    else later

unfoldable pub source_of : MoveKind → DataSourceVolumes → Option DataSourceVolume
source_of move_pg_data_dir volumes = volumes.pg_data_volume
source_of move_wal_dir volumes = volumes.pg_wal_volume
source_of move_repo_dir volumes = volumes.pgbackrest_volume

-- The volume of a kind, where its directory and its claim are given.
unfoldable pub wanted_move : MoveKind → DataSourceVolumes → Option DataSourceVolume
unfolding source_of
wanted_move kind volumes = elim (source_of kind volumes) [
  | none ↦ none
  | some source ↦
      if not (is_empty source.directory) && not (is_empty source.pvc_name)
      then some source
      else none
]

module _ {E : Type 0} ⦃ls : LabelSets⦄ (env : MoveEnv E) (spec : MoveSpec) where
  unfoldable pub apply_move : List MoveJob → MoveJob → Option E → MoveOutcome E
  apply_move applied job (some e) = record { return_early = true; err = some e; applied = applied }
  apply_move applied job none = record {
    return_early = true;
    err = env.apply applied job;
    applied = job ∷ applied;
  }

  -- reconcileMovePGDataDir, reconcileMoveWALDir and reconcileMoveRepoDir
  unfoldable pub reconcile_move :
      MoveKind → List ObservedMove → List MoveJob → DataSourceVolume → MoveOutcome E
  unfolding existing_move apply_move move_intent
  reconcile_move kind jobs applied source =
      elim (existing_move (move_job_name kind spec.cluster_name) jobs) [
        | some early ↦ record { return_early = early; err = none; applied = applied }
        | none ↦
            let job = move_intent kind spec source in
            apply_move applied job (env.set_controller job)
      ]

  unfoldable pub take_move :
      List ObservedMove → DataSourceVolumes → MoveKind → MoveOutcome E → MoveOutcome E
  unfolding reconcile_move wanted_move
  take_move jobs volumes kind so_far =
      if is_none so_far.err
      then elim (wanted_move kind volumes) [
        | none ↦ so_far
        | some source ↦
            let m = reconcile_move kind jobs so_far.applied source in
            record m { return_early = so_far.return_early || m.return_early }
      ]
      else so_far

  unfoldable pub reconcile_dir_move_jobs : Answer E (List ObservedMove) → MoveOutcome E
  unfolding take_move
  reconcile_dir_move_jobs listed = elim spec.volumes [
    | none ↦ record { return_early = false; err = none; applied = [] }
    | some volumes ↦ elim listed [
      | failed e ↦ record { return_early = false; err = some e; applied = [] }
      | found jobs ↦ take_move jobs volumes move_repo_dir (
          take_move jobs volumes move_wal_dir (
            take_move jobs volumes move_pg_data_dir
              (record { return_early = false; err = none; applied = [] })))
    ]
  ]
