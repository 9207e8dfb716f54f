-- ===== src/Volumes/Existing.antt =====
-- volumes.go: configureExistingPVCs and what it calls, for volumes that were there before the cluster.

-- spec.dataSource.volumes: the names of the claims, and of the directories.
use ivory_operator.Backups.{label_pgbackrest_repo, pgbackrest_labels}
use ivory_operator.Instances.{role_postgres_data, role_postgres_wal, label_instance_set}
use ivory_operator.Kube.{LabelSets}
use ivory_operator.Prelude.{
  ◌&&◌, is_none, str_eq, ◌∷◌, ◌++◌, is_empty, false, any, [], true, not, some, Labels,
  if◌then◌else◌, none, Bool, String, List, Option,
}
use ivory_operator.Upgrade.{label_role, label_instance, label_cluster}
use ivory_operator.Volumes.{Pvc}

pub record DataSourceVolume : Type 0 where
  pub pvc_name : String
  pub directory : String

pub record DataSourceVolumes : Type 0 where
  pub pg_data_volume : Option DataSourceVolume
  pub pg_wal_volume : Option DataSourceVolume
  pub pgbackrest_volume : Option DataSourceVolume

-- What is read of the cluster: its name, the first instance set, as its name and DataVolumeClaimSpec,
-- and the first repository, as its name and the spec of its volume.
pub record VolumesSpec : Type 0 where
  pub cluster_name : String
  pub first_set : Option (String × String)
  pub first_repo : Option (String × Option String)
  pub volumes : Option DataSourceVolumes

-- status.startupInstance and status.startupInstanceSet
pub record StartupStatus : Type 0 where
  pub startup_instance : String
  pub startup_instance_set : String

-- What setControllerReference and the apply answer, and GenerateStartupInstance for a set.
pub record VolumesEnv (E : Type 0) : Type 0 where
  pub set_controller : Pvc → Option E
  pub apply : Pvc → Option E
  pub generate_startup_instance : String → String

-- The volumes and the error that are returned, the claims that were applied, newest first, and whether
-- a nil pointer or a missing instance set was read.
pub record Configured (E : Type 0) : Type 0 where
  pub volumes : List Pvc
  pub err : Option E
  pub applied : List Pvc
  pub panics : Bool

abbrev pub label_data : String
label_data = "postgres-operator.crunchydata.com/data"

abbrev pub label_pgbackrest_repo_volume : String
label_pgbackrest_repo_volume = "postgres-operator.crunchydata.com/pgbackrest-volume"

unfoldable pub is_observed : String → List Pvc → Bool
is_observed name volumes = any (λ (v : Pvc). str_eq name v.name) volumes

-- The labels of the claim of an instance.
unfoldable pub instance_volume_labels : String → String → String → String → Labels
instance_volume_labels cluster_name set_name instance_name role =
    (label_cluster, cluster_name)
    ∷ (label_instance_set, set_name)
    ∷ (label_instance, instance_name)
    ∷ (label_role, role)
    ∷ (label_data, "postgres")
    ∷ []

unfoldable pub pgbackrest_repo_labels : ⦃ls : LabelSets⦄ → String → String → Labels
unfolding pgbackrest_labels
pgbackrest_repo_labels ⦃ls⦄ cluster_name repo_name =
    ls.merge (pgbackrest_labels cluster_name) ((label_pgbackrest_repo, repo_name) ∷ [])

unfoldable pub pgbackrest_repo_volume_labels : ⦃ls : LabelSets⦄ → String → String → Labels
unfolding pgbackrest_repo_labels
pgbackrest_repo_volume_labels ⦃ls⦄ cluster_name repo_name =
    ls.merge (pgbackrest_repo_labels cluster_name repo_name)
      ((label_pgbackrest_repo_volume, "") ∷ (label_data, "pgbackrest") ∷ [])

module _ {E : Type 0} where
  abbrev pub leaves : List Pvc → List Pvc → Configured E
  leaves volumes applied = record {
    volumes = volumes;
    err = none;
    applied = applied;
    panics = false;
  }

  abbrev pub breaks : List Pvc → List Pvc → Configured E
  breaks volumes applied = record {
    volumes = volumes;
    err = none;
    applied = applied;
    panics = true;
  }

module _ {E : Type 0} (env : VolumesEnv E) where
  -- A claim is owned, applied and added.
  unfoldable pub add_volume : List Pvc → List Pvc → Pvc → Option E → Configured E
  add_volume volumes applied v (some e) = record {
    volumes = volumes;
    err = some e;
    applied = applied;
    panics = false;
  }
  add_volume volumes applied v none = record {
    volumes = elim (env.apply v) [ none ↦ volumes ++ v ∷ [] | some _ ↦ volumes ];
    err = env.apply v;
    applied = v ∷ applied;
    panics = false;
  }

  unfoldable pub claim_volume : List Pvc → List Pvc → String → Labels → String → Configured E
  unfolding add_volume
  claim_volume volumes applied name labels spec =
      let v : Pvc = record { name = name; labels = labels; spec = spec; conditions = [] } in
      add_volume volumes applied v (env.set_controller v)

  unfoldable pub configure_existing_pg_volumes :
      VolumesSpec → List Pvc → DataSourceVolume → String → Configured E
  unfolding claim_volume is_observed instance_volume_labels
  configure_existing_pg_volumes spec volumes source instance_name =
      if is_observed source.pvc_name volumes then leaves volumes [] else elim spec.first_set [
        | none ↦ leaves volumes []
        | some (set_name, claim_spec) ↦
            if not (is_empty source.pvc_name)
            then claim_volume volumes [] source.pvc_name
                (instance_volume_labels spec.cluster_name set_name instance_name role_postgres_data)
                claim_spec
            else leaves volumes []
      ]

  -- The code takes the spec of the data volume here, too.
  unfoldable pub configure_existing_pg_wal_volume :
      VolumesSpec → List Pvc → List Pvc → DataSourceVolume → String → Configured E
  unfolding claim_volume is_observed instance_volume_labels
  configure_existing_pg_wal_volume spec volumes applied source instance_name =
      if is_observed source.pvc_name volumes
      then leaves volumes applied
      else if not (is_empty source.pvc_name)
      then elim spec.first_set [
        | none ↦ breaks volumes applied
        | some (set_name, claim_spec) ↦
            claim_volume volumes applied source.pvc_name
              (instance_volume_labels spec.cluster_name set_name instance_name role_postgres_wal)
              claim_spec
      ]
      else leaves volumes applied

  unfoldable pub claim_repo_volume :
      ⦃ls : LabelSets⦄
      → VolumesSpec
      → List Pvc
      → List Pvc
      → String
      → String
      → Option String
      → Configured E
  unfolding claim_volume pgbackrest_repo_volume_labels
  claim_repo_volume ⦃ls⦄ spec volumes applied name repo_name none = breaks volumes applied
  claim_repo_volume ⦃ls⦄ spec volumes applied name repo_name (some claim_spec) =
      claim_volume volumes applied name (pgbackrest_repo_volume_labels spec.cluster_name repo_name)
        claim_spec

  unfoldable pub configure_existing_repo_volumes :
      ⦃ls : LabelSets⦄ → VolumesSpec → List Pvc → List Pvc → DataSourceVolume → Configured E
  unfolding claim_repo_volume is_observed
  configure_existing_repo_volumes ⦃ls⦄ spec volumes applied source =
      if is_observed source.pvc_name volumes then leaves volumes applied else elim spec.first_repo [
        | none ↦ leaves volumes applied
        | some (repo_name, claim_spec) ↦
            if not (is_empty source.pvc_name)
            then claim_repo_volume spec volumes applied source.pvc_name repo_name claim_spec
            else leaves volumes applied
      ]

  -- The status of the cluster, after the claim of the data volume has named the instance; nothing where
  -- there is no instance set to name it after.
  unfoldable pub name_startup_instance : VolumesSpec → StartupStatus → Option StartupStatus
  name_startup_instance spec status =
      if is_empty status.startup_instance
      then elim spec.first_set [
        | none ↦ none
        | some (set_name, claim_spec) ↦ some (record {
          startup_instance = env.generate_startup_instance set_name;
          startup_instance_set = set_name;
        })
      ]
      else some status

  -- The data volume, then the WAL volume.
  unfoldable pub configure_pair :
      VolumesSpec → List Pvc → DataSourceVolumes → DataSourceVolume → String → Configured E
  unfolding configure_existing_pg_volumes configure_existing_pg_wal_volume
  configure_pair spec volumes sources source instance_name =
      let c = configure_existing_pg_volumes spec volumes source instance_name in
      elim sources.pg_wal_volume [
        | none ↦ c
        | some wal ↦
            if is_none c.err
            then configure_existing_pg_wal_volume spec c.volumes c.applied wal instance_name
            else c
      ]

  unfoldable pub configure_pg :
      VolumesSpec → List Pvc → DataSourceVolumes → StartupStatus → StartupStatus × Configured E
  unfolding configure_pair name_startup_instance
  configure_pg spec volumes sources status = elim sources.pg_data_volume [
    | none ↦ (status, leaves volumes [])
    | some source ↦ elim (name_startup_instance spec status) [
      | none ↦ (status, breaks volumes [])
      | some named ↦ (named, configure_pair spec volumes sources source named.startup_instance)
    ]
  ]

  unfoldable pub configure_repo :
      ⦃ls : LabelSets⦄ → VolumesSpec → DataSourceVolumes → Configured E → Configured E
  unfolding configure_existing_repo_volumes
  configure_repo ⦃ls⦄ spec sources c = elim sources.pgbackrest_volume [
    | none ↦ c
    | some source ↦
        if is_none c.err && not c.panics
        then configure_existing_repo_volumes spec c.volumes c.applied source
        else c
  ]

  unfoldable pub configure_existing_pvcs :
      ⦃ls : LabelSets⦄ → VolumesSpec → List Pvc → StartupStatus → StartupStatus × Configured E
  unfolding configure_pg configure_repo
  configure_existing_pvcs ⦃ls⦄ spec volumes status = elim spec.volumes [
    | none ↦ (status, leaves volumes [])
    | some sources ↦
        let pg = configure_pg spec volumes sources status in
        (pg.0, configure_repo spec sources pg.1)
  ]
