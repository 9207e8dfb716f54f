-- ===== src/Restore/Restored.antt =====
-- The reconcile after the cluster is down populates its data directory.

use mathlib.Core.Bool.{false≢true}
use ivory_operator.Backups.{is_true}
use ivory_operator.Instances.{Runner, Instance, SetSpec}
use ivory_operator.Kube.{found, Answer, StatusConditions, ApiErrors}
use ivory_operator.Prelude.{
  refl, true, is_empty, if_elim, Bool, sym, eq_iff, str_eq, [], ◌||◌, not, if◌then◌else◌, ◌&&◌, ◌∙◌,
  ap, false, some, ◌≡◌, none, Option, List, String, ℕ,
}
use ivory_operator.Restore.{
  nil_set, undetermined, last_primary, choose_startup, startup, Startup, runners_of, take_down,
  RestoreOutcome, begin_restore, with_startup, prepare_for_restore, cluster_running,
  reason_ready_for_restore, progressing, condition_postgres_data_initialized,
  condition_pgbackrest_restore_progressing, RestoreState, set_ready, RestoreEnv,
}
use ivory_operator.Restore.Decide.{
  decide_requested, is_reason, initialized, prepare, configs, requested, populate, DataSourceSpec,
  Source, id_of, config_changed, decide_hashed, must_prepare, decide,
}

some≢none : {A : Type 0} {a : A} → some a ≡ none → ⊥
some≢none e = cc

module _ {E C : Type 0} ⦃errs : ApiErrors E⦄ ⦃sc : StatusConditions C⦄ (env : RestoreEnv E)
    (generation : ℕ) where
  -- The status that set_ready leaves for a restore.
  abbrev IsReadyFor : String → RestoreState C → Type 0
  IsReadyFor restore_id s =
      (sc.find s.conditions condition_pgbackrest_restore_progressing
        ≡ some (progressing generation reason_ready_for_restore "Restoring cluster in-place"))
      × (sc.find s.conditions condition_postgres_data_initialized ≡ none)
      × (id_of s.restore ≡ restore_id)

  IsReadyFor-set_ready :
      (restore_id : String) (s : RestoreState C)
      → id_of s.restore ≡ restore_id
      → IsReadyFor restore_id (set_ready env generation s)
  unfolding set_ready
  IsReadyFor-set_ready restore_id s h = (
    sc.find-set (sc.remove s.conditions condition_postgres_data_initialized) _
        condition_pgbackrest_restore_progressing,
    sc.find-set (sc.remove s.conditions condition_postgres_data_initialized) _
          condition_postgres_data_initialized
        ∙ sc.find-remove s.conditions condition_postgres_data_initialized
            condition_postgres_data_initialized,
    h,
  )

  must_prepare-ready :
      (restore_id hash : String) (s : RestoreState C)
      → IsReadyFor restore_id s
      → must_prepare restore_id hash none s ≡ false
  unfolding must_prepare config_changed is_true
  must_prepare-ready restore_id hash s (p, i, h) =
      ap
        (λ c.
          (is_true c && (not (is_true c && is_reason reason_ready_for_restore c) || false))
          || not (str_eq restore_id (id_of s.restore)))
        p
      ∙ ap not ((eq_iff restore_id (id_of s.restore)).1 (sym h))

  decide_hashed-ready :
      (restore_id hash : String) (source : Option Source) (s : RestoreState C)
      → IsReadyFor restore_id s
      → decide_hashed {E = E} none s restore_id source (found hash) ≡ populate source hash
  unfolding decide_hashed is_true
  decide_hashed-ready restore_id hash source s r =
      ap
        (λ b.
          if b
          then prepare restore_id
          else if is_true (sc.find s.conditions condition_postgres_data_initialized)
          then initialized
          else populate source hash)
        (must_prepare-ready restore_id hash s r)
      ∙ ap (λ c. if is_true c then initialized else populate source hash) (r.1)

  -- An outcome that neither fails nor panics leaves the status ready.
  abbrev Readies : String → RestoreOutcome E C → Type 0
  Readies restore_id out = out.err ≡ none → out.panics ≡ false → IsReadyFor restore_id out.state

  take_down-Readies :
      (running : Bool) (runners : List Runner) (restore_id : String) (s : RestoreState C)
      → running ≡ false
      → id_of s.restore ≡ restore_id
      → Readies restore_id (take_down env generation none running runners [] s)
  unfolding take_down
  take_down-Readies true runners restore_id s r h e p = absurd (false≢true (sym r))
  take_down-Readies false runners restore_id s r h e p = IsReadyFor-set_ready restore_id s h

  with_startup-Readies :
      (running : Bool) (runners : List Runner) (restore_id : String) (s : RestoreState C)
      (chosen : Startup)
      → running ≡ false
      → id_of s.restore ≡ restore_id
      → Readies restore_id (with_startup env generation none running runners [] s chosen)
  unfolding with_startup
  with_startup-Readies running runners restore_id s (startup name set) r h =
      take_down-Readies running runners restore_id
        (record s { startup_instance = name; startup_instance_set = set }) r h
  with_startup-Readies running runners restore_id s undetermined r h = λ e p. absurd (some≢none e)
  with_startup-Readies running runners restore_id s nil_set r h = λ e p. absurd (false≢true (sym p))

  prepare_for_restore-Readies :
      (sets : List SetSpec) (instances : List Instance) (restore_id : String) (s : RestoreState C)
      → cluster_running instances ≡ false
      → Readies restore_id (prepare_for_restore env generation sets instances [] none restore_id s)
  unfolding prepare_for_restore begin_restore id_of
  prepare_for_restore-Readies sets instances restore_id s r =
      let begun = begin_restore env generation restore_id s in
      let running = cluster_running instances in
      let runners = runners_of instances in
      if_elim {A = RestoreOutcome E C} (Readies restore_id) (is_empty s.startup_instance)
        (λ _.
          with_startup-Readies running runners restore_id begun
            (choose_startup env (last_primary instances none) runners sets) r refl)
        (λ _. take_down-Readies running runners restore_id begun r refl)

  -- Once no restore job, no running instance and no endpoints are left, and prepareForRestore neither
  -- failed nor read a nil pointer, the next reconcile of the same request, which still finds no job,
  -- does not prepare again: it populates the data directory from the requested source. This supposes
  -- that the request has a hash.
  pub decide-populates :
      (hash : List String → Answer E String) (spec : DataSourceSpec) (sets : List SetSpec)
      (instances : List Instance) (restore_id digest : String) (source : Option Source)
      (s : RestoreState C)
      → requested spec ≡ some (restore_id, source)
      → hash (configs source) ≡ found digest
      → cluster_running instances ≡ false
      → (prepare_for_restore env generation sets instances [] none restore_id s).err ≡ none
      → (prepare_for_restore env generation sets instances [] none restore_id s).panics ≡ false
      → decide hash spec none
          (prepare_for_restore env generation sets instances [] none restore_id s).state
        ≡ populate source digest
  unfolding decide
  decide-populates hash spec sets instances restore_id digest source s r d running e p =
      let after = (prepare_for_restore env generation sets instances [] none restore_id s).state in
      ap (decide_requested hash none after) r
      ∙ (ap (decide_hashed none after restore_id source) d
          ∙ decide_hashed-ready restore_id digest source after
              (prepare_for_restore-Readies sets instances restore_id s running e p))
