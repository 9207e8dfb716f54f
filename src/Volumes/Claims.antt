-- ===== src/Volumes/Claims.antt =====
-- postgres.go: the claims of an instance, for its data, its tablespaces and its WAL.

-- What is read of the cluster, of an instance set and of an instance; a tablespace is its name and the
-- spec of its claim.
use ivory_operator.Backups.{merge_labels}
use ivory_operator.Instances.{
  role_postgres_wal, role_postgres_data, label_instance_set, Instance, Pod, is_running,
}
use ivory_operator.Kube.{found, failed, ApiErrors, StatusConditions, Answer, LabelSets}
use ivory_operator.Prelude.{
  str_eq, ◌&&◌, is_none, false, none, [], some, is_empty, is_some, true, ◌∷◌, if◌then◌else◌,
  decimal, ℕ, Option, List, Bool, concat, Labels, String,
}
use ivory_operator.Upgrade.{container_database, label_role, label_instance, label_cluster}
use ivory_operator.Volumes.{Pvc}
use ivory_operator.Volumes.Existing.{label_data}
use ivory_operator.Volumes.Failures.{
  handle_persistent_volume_claim_error, get_pg_pvc_name, VolumeErrors,
}

pub record InstanceClaims : Type 0 where
  pub cluster_name : String
  pub postgres_version : ℕ
  pub metadata_labels : Labels
  pub metadata_annotations : Labels
  pub set_name : String
  pub set_labels : Labels
  pub set_annotations : Labels
  pub instance_name : String
  pub data_claim : String
  pub wal_claim : Option String
  pub tablespaces_enabled : Bool
  pub tablespaces : List (String × String)

-- A claim as it is applied.
pub record ClaimIntent : Type 0 where
  pub name : String
  pub labels : Labels
  pub annotations : Labels
  pub spec : String

-- What is read of a claim that exists.
pub record ClaimFound : Type 0 where
  pub deleting : Bool
  pub controlled : Bool

-- The answers of the API and of the command that prints where the WAL is: its output and its error.
-- `trim` is strings.TrimRight for line ends, and `select` is AsSelector.
pub record ClaimsEnv (E : Type 0) : Type 0 where
  pub select : Labels → Answer E (Labels → Bool)
  pub set_controller : ClaimIntent → Option E
  pub apply : ClaimIntent → Option E
  pub get : String → Answer E ClaimFound
  pub delete : String → Option E
  pub exec : Pod → String × Option E
  pub trim : String → String

pub data ClaimWrite : Type 0 where
  apply_claim : ClaimIntent → ClaimWrite
  delete_claim : String → ClaimWrite

-- The name of the claim that is returned, if any, the error, the conditions, the warnings and the writes,
-- the last two newest first.
pub record ClaimOutcome (E C : Type 0) : Type 0 where
  pub pvc : Option String
  pub err : Option E
  pub conditions : C
  pub events : List String
  pub writes : List ClaimWrite

unfoldable pub instance_postgres_data_volume : String → String
unfolding concat
instance_postgres_data_volume instance_name = concat (instance_name ∷ "-pgdata" ∷ [])

unfoldable pub instance_postgres_wal_volume : String → String
unfolding concat
instance_postgres_wal_volume instance_name = concat (instance_name ∷ "-pgwal" ∷ [])

unfoldable pub instance_tablespace_data_volume : String → String → String
unfolding concat
instance_tablespace_data_volume instance_name tablespace =
    concat (instance_name ∷ "-" ∷ tablespace ∷ "-tablespace" ∷ [])

-- WALDirectory
unfoldable pub wal_directory : InstanceClaims → String
unfolding concat decimal
wal_directory spec = concat (
    (if is_some spec.wal_claim then "/pgwal" else "/pgdata")
    ∷ "/pg"
    ∷ decimal spec.postgres_version
    ∷ "_wal"
    ∷ [])

-- The labels by which a claim is found.
unfoldable pub claim_labels : InstanceClaims → String → String → Labels
claim_labels spec role value =
    (label_cluster, spec.cluster_name)
    ∷ (label_instance_set, spec.set_name)
    ∷ (label_instance, spec.instance_name)
    ∷ (label_role, role)
    ∷ (label_data, value)
    ∷ []

-- The name of an existing claim, or else the one by default.
unfoldable pub claim_name : String → String → String
claim_name existing default_name = if is_empty existing then default_name else existing

-- `len(Pods) == 1`, for the pods after the first.
unfoldable pub no_more : List Pod → Bool
no_more [] = true
no_more (pod ∷ rest) = false

-- The pod in which the WAL directory can be read.
unfoldable pub wal_pod : Option Instance → Option Pod
unfolding is_running no_more
wal_pod none = none
wal_pod (some instance) = elim instance.pods [
  | [] ↦ none
  | pod ∷ rest ↦
      if no_more rest
        && ((is_running container_database instance).0
            && (is_running container_database instance).1)
      then some pod
      else none
]

-- What follows the look-up of the name in the three functions.
unfoldable pub claim_intent :
    ⦃ls : LabelSets⦄ → InstanceClaims → String → Labels → String → ClaimIntent
unfolding merge_labels
claim_intent spec name labels claim_spec = record {
  name = name;
  labels = merge_labels (spec.metadata_labels ∷ spec.set_labels ∷ labels ∷ []);
  annotations = merge_labels (spec.metadata_annotations ∷ spec.set_annotations ∷ []);
  spec = claim_spec;
}

module _ {E : Type 0} (env : ClaimsEnv E) where
  unfoldable pub read_wal : Option Pod → String × Option E
  read_wal none = ("", none)
  read_wal (some pod) = (env.trim (env.exec pod).0, (env.exec pod).1)

module _ {E C : Type 0} ⦃ls : LabelSets⦄ ⦃sc : StatusConditions C⦄ (env : ClaimsEnv E)
    (errors : VolumeErrors E) (generation : ℕ) (spec : InstanceClaims) where
  unfoldable pub write_claim : C → ClaimIntent → Option E → ClaimOutcome E C
  unfolding handle_persistent_volume_claim_error
  write_claim cs intent (some e) = record {
    pvc = some intent.name;
    err = some e;
    conditions = cs;
    events = [];
    writes = [];
  }
  write_claim cs intent none =
      let f = handle_persistent_volume_claim_error errors generation cs (env.apply intent) in
      record {
        pvc = some intent.name;
        err = f.err;
        conditions = f.conditions;
        events = f.events;
        writes = apply_claim intent ∷ [];
      }

  abbrev pub no_claim : C → Option E → ClaimOutcome E C
  no_claim cs err = record { pvc = none; err = err; conditions = cs; events = []; writes = [] }

  unfoldable pub reconcile_claim : C → List Pvc → Labels → String → String → ClaimOutcome E C
  unfolding write_claim claim_intent get_pg_pvc_name claim_name
  reconcile_claim cs volumes labels default_name claim_spec =
      let (existing, err) = get_pg_pvc_name (env.select labels) volumes in
      elim err [
        | some e ↦ no_claim cs (some e)
        | none ↦
            let intent = claim_intent spec (claim_name existing default_name) labels claim_spec in
            write_claim cs intent (env.set_controller intent)
      ]

  unfoldable pub reconcile_postgres_data_volume : C → List Pvc → ClaimOutcome E C
  unfolding reconcile_claim claim_labels instance_postgres_data_volume
  reconcile_postgres_data_volume cs volumes =
      reconcile_claim cs volumes (claim_labels spec role_postgres_data "postgres")
        (instance_postgres_data_volume spec.instance_name) spec.data_claim

  -- Removing the claim of a WAL that has no spec: only where the WAL is where it should be.
  unfoldable pub delete_wal :
      ⦃errs : ApiErrors E⦄ → C → String → ClaimFound → String × Option E → ClaimOutcome E C
  delete_wal ⦃errs⦄ cs name claim (directory, err) =
      if is_none err && str_eq directory (wal_directory spec)
      then (if claim.controlled
          then record {
            pvc = none;
            err = errs.ignore_not_found (env.delete name);
            conditions = cs;
            events = [];
            writes = delete_claim name ∷ [];
          }
          else no_claim cs none)
      else record { pvc = some name; err = err; conditions = cs; events = []; writes = [] }

  unfoldable pub remove_wal :
      ⦃errs : ApiErrors E⦄ → C → String → Option Instance → Answer E ClaimFound → ClaimOutcome E C
  unfolding delete_wal read_wal wal_pod
  remove_wal ⦃errs⦄ cs name observed (failed e) = no_claim cs (errs.ignore_not_found (some e))
  remove_wal ⦃errs⦄ cs name observed (found claim) =
      if claim.deleting
      then no_claim cs none
      else delete_wal cs name claim (read_wal env (wal_pod observed))

  -- The WAL of an instance with a spec for its volume, or without one.
  unfoldable pub settle_wal :
      ⦃errs : ApiErrors E⦄
      → C
      → String
      → Labels
      → Option Instance
      → Option String
      → ClaimOutcome E C
  unfolding write_claim claim_intent remove_wal
  settle_wal ⦃errs⦄ cs name labels observed none = remove_wal cs name observed (env.get name)
  settle_wal ⦃errs⦄ cs name labels observed (some claim_spec) =
      let intent = claim_intent spec name labels claim_spec in
      write_claim cs intent (env.set_controller intent)

  unfoldable pub with_wal_name :
      ⦃errs : ApiErrors E⦄ → C → Labels → Option Instance → String × Option E → ClaimOutcome E C
  unfolding settle_wal claim_name instance_postgres_wal_volume
  with_wal_name ⦃errs⦄ cs labels observed (existing, some e) = no_claim cs (some e)
  with_wal_name ⦃errs⦄ cs labels observed (existing, none) =
      settle_wal cs (claim_name existing (instance_postgres_wal_volume spec.instance_name)) labels
        observed spec.wal_claim

  unfoldable pub reconcile_postgres_wal_volume :
      ⦃errs : ApiErrors E⦄ → C → List Pvc → Option Instance → ClaimOutcome E C
  unfolding with_wal_name get_pg_pvc_name claim_labels
  reconcile_postgres_wal_volume ⦃errs⦄ cs volumes observed =
      let labels = claim_labels spec role_postgres_wal "postgres" in
      with_wal_name cs labels observed (get_pg_pvc_name (env.select labels) volumes)
