-- ===== src/Restore.antt =====
-- internal/controller/postgrescluster/pgbackrest.go: prepareForRestore, which takes a cluster down in
-- steps before a restore in place.
pub mod Ready
pub mod Decide
pub mod Restored
use ivory_operator.Backups.{JobStatus, RepoStatus, BackupJob}
use ivory_operator.Instances.{label_instance_set, is_primary, is_running, Runner, SetSpec, Instance}
use ivory_operator.Kube.{Condition, StatusConditions, ApiErrors}
use ivory_operator.Prelude.{
  map, true, [], false, concat, label, is_empty, if◌then◌else◌, ℕ, some, any, ◌∷◌, none, Bool,
  String, Option, List,
}
use ivory_operator.Upgrade.{container_database}

abbrev pub condition_postgres_data_initialized : String
condition_postgres_data_initialized = "PostgresDataInitialized"

abbrev pub condition_pgbackrest_restore_progressing : String
condition_pgbackrest_restore_progressing = "PGBackRestoreProgressing"

abbrev pub reason_ready_for_restore : String
reason_ready_for_restore = "ReadyForRestore"

-- The status of the cluster, as far as it is written.
pub record RestoreState (C : Type 0) : Type 0 where
  pub conditions : C
  pub repos : List RepoStatus
  pub manual : Option JobStatus
  pub restore : Option JobStatus
  pub startup_instance : String
  pub startup_instance_set : String
  pub system_identifier : String
  pub pgbouncer_revision : String
  pub exporter_configuration : String

pub data RestoreWrite : Type 0 where
  delete_restore_job : BackupJob → RestoreWrite
  delete_runner : Runner → RestoreWrite
  delete_endpoints : String → RestoreWrite

-- The answers to the writes, GenerateStartupInstance of internal/naming for an instance set, and
-- errors.New.
pub record RestoreEnv (E : Type 0) : Type 0 where
  pub respond : List RestoreWrite → RestoreWrite → Option E
  pub generate_startup_instance : String → String
  pub new_error : String → E

-- What is returned, the status, and the writes, newest first; `panics` where the code reads a nil
-- pointer.
pub record RestoreOutcome (E C : Type 0) : Type 0 where
  pub err : Option E
  pub panics : Bool
  pub state : RestoreState C
  pub writes : List RestoreWrite

unfoldable pub runners_of : List Instance → List Runner
runners_of [] = []
runners_of (i ∷ rest) =
    let later = runners_of rest in elim i.runner [ none ↦ later | some r ↦ r ∷ later ]

-- The last primary.
unfoldable pub last_primary : List Instance → Option Instance → Option Instance
last_primary [] seen = seen
last_primary (i ∷ rest) seen = last_primary rest (if (is_primary i).0 then some i else seen)

unfoldable pub cluster_running : List Instance → Bool
cluster_running is = any (λ i. (is_running container_database i).0) is

-- The instance that starts: its name and its set, none at all, or a nil pointer for the set of a
-- primary that is no longer in the spec.
pub data Startup : Type 0 where
  startup : String → String → Startup
  undetermined : Startup
  nil_set : Startup

unfoldable pub startup_of_primary : Instance → Option SetSpec → Startup
startup_of_primary i none = nil_set
startup_of_primary i (some set) = startup i.name set.name

module _ {E : Type 0} (env : RestoreEnv E) where
  unfoldable pub choose_startup : Option Instance → List Runner → List SetSpec → Startup
  unfolding startup_of_primary
  choose_startup (some i) runners sets = startup_of_primary i i.spec
  choose_startup none (r ∷ rest) sets = startup r.name (label label_instance_set r.labels)
  choose_startup none [] (set ∷ rest) = startup (env.generate_startup_instance set.name) set.name
  choose_startup none [] [] = undetermined

  -- The loops that delete, up to the first error that is not NotFound.
  unfoldable pub delete_each :
      ⦃errs : ApiErrors E⦄ → List RestoreWrite → List RestoreWrite → Option E × List RestoreWrite
  delete_each ⦃errs⦄ done [] = (none, done)
  delete_each ⦃errs⦄ done (w ∷ rest) =
      let next = delete_each (w ∷ done) rest in
      elim (errs.ignore_not_found (env.respond done w)) [
        | none ↦ next
        | some e ↦ (some e, w ∷ done)
      ]

abbrev pub progressing : ℕ → String → String → Condition
progressing generation reason message = record {
  type = condition_pgbackrest_restore_progressing;
  status = "True";
  reason = reason;
  message = message;
  observed_generation = generation;
}

module _ {E C : Type 0} ⦃errs : ApiErrors E⦄ ⦃sc : StatusConditions C⦄ (env : RestoreEnv E)
    (generation : ℕ) where
  unfoldable pub set_preparing : String → RestoreState C → RestoreState C
  set_preparing resource s = record s {
    conditions = sc.set s.conditions (
        progressing generation "RestoreInPlaceRequested"
          (concat ("Preparing cluster to restore in-place: " ∷ resource ∷ [])));
  }

  unfoldable pub set_ready : RestoreState C → RestoreState C
  set_ready s = record s {
    conditions =
        sc.set (sc.remove s.conditions condition_postgres_data_initialized)
          (progressing generation reason_ready_for_restore "Restoring cluster in-place");
    system_identifier = "";
    pgbouncer_revision = "";
    exporter_configuration = "";
  }

  abbrev pub after_deletes : RestoreState C → Option E × List RestoreWrite → RestoreOutcome E C
  after_deletes s (err, writes) = record { err = err; panics = false; state = s; writes = writes }

  -- The steps, one in each reconcile.
  unfoldable pub take_down :
      Option BackupJob → Bool → List Runner → List String → RestoreState C → RestoreOutcome E C
  unfolding set_preparing set_ready delete_each
  take_down (some job) running runners endpoints s =
      after_deletes (set_preparing "removing restore job" s)
        (env.respond [] (delete_restore_job job), delete_restore_job job ∷ [])
  take_down none true runners endpoints s =
      after_deletes (set_preparing "removing runners" s)
        (delete_each env [] (map (λ r. delete_runner r) runners))
  take_down none false runners [] s = after_deletes (set_ready s) (none, [])
  take_down none false runners (e ∷ rest) s =
      after_deletes (set_preparing "removing DCS" s)
        (delete_each env [] (map (λ n. delete_endpoints n) (e ∷ rest)))

  -- The status that a restore begins with.
  unfoldable pub begin_restore : String → RestoreState C → RestoreState C
  begin_restore restore_id s = record s {
    repos = [];
    manual = none;
    restore = some (record {
      id = restore_id;
      finished = false;
      start_time = "";
      completion_time = "";
      active = 0;
      succeeded = 0;
      failed = 0;
    });
  }

  unfoldable pub with_startup :
      Option BackupJob
      → Bool
      → List Runner
      → List String
      → RestoreState C
      → Startup
      → RestoreOutcome E C
  unfolding take_down
  with_startup job running runners endpoints s (startup name set) =
      take_down job running runners endpoints
        (record s { startup_instance = name; startup_instance_set = set })
  with_startup job running runners endpoints s undetermined = record {
    err = some (env.new_error "unable to determine startup instance for restore");
    panics = false;
    state = s;
    writes = [];
  }
  with_startup job running runners endpoints s nil_set = record {
    err = none;
    panics = true;
    state = s;
    writes = [];
  }

  -- prepareForRestore
  unfoldable pub prepare_for_restore :
      List SetSpec
      → List Instance
      → List String
      → Option BackupJob
      → String
      → RestoreState C
      → RestoreOutcome E C
  unfolding begin_restore with_startup take_down choose_startup cluster_running last_primary
      runners_of
  prepare_for_restore sets instances endpoints job restore_id s =
      let begun = begin_restore restore_id s in
      let running = cluster_running instances in
      let runners = runners_of instances in
      if is_empty s.startup_instance
      then with_startup job running runners endpoints begun
          (choose_startup env (last_primary instances none) runners sets)
      else take_down job running runners endpoints begun
