-- ===== src/Volumes/Adopted.antt =====
-- Which claims configureExistingPVCs applies.

-- Each applied claim, newest first, has a name of its own that was not observed.
use ivory_operator.Instances.{role_postgres_data, role_postgres_wal}
use ivory_operator.Kube.{LabelSets}
use ivory_operator.Prelude.{
  sym, subst, ◌&&◌, is_none, inr, inl, str_eq, Option-cases, any-append, not, if_elim, arith,
  Labels, ◌++◌, some≢none, some, [], Option, false, any, ◌||◌, none, is_empty, ◌≡◌, ◌∷◌, String,
  List,
}
use ivory_operator.Volumes.{Pvc}
use ivory_operator.Volumes.Existing.{
  breaks, name_startup_instance, StartupStatus, pgbackrest_repo_volume_labels, DataSourceVolumes,
  claim_repo_volume, configure_repo, configure_pair, configure_pg, configure_existing_repo_volumes,
  configure_existing_pvcs, instance_volume_labels, configure_existing_pg_wal_volume, claim_volume,
  DataSourceVolume, is_observed, VolumesSpec, configure_existing_pg_volumes, Configured, add_volume,
  VolumesEnv,
}

abbrev pub AreFresh : List Pvc → List Pvc → Type 0
AreFresh volumes [] = Unit
AreFresh volumes (v ∷ rest) =
    (is_empty v.name ≡ false)
    × (is_observed v.name volumes ≡ false)
    × (is_observed v.name rest ≡ false)
    × AreFresh volumes rest

-- `now` are the volumes of `before` and those that were applied.
abbrev pub AreJoined : List Pvc → List Pvc → List Pvc → Type 0
AreJoined before now applied =
    (name : String) → is_observed name now ≡ (is_observed name before || is_observed name applied)

-- What holds unless there is an error.
abbrev pub OnSuccess : {E : Type 0} → Option E → Type 0 → Type 0
OnSuccess none P = P
OnSuccess (some e) P = Unit

on_success : {E P : Type 0} (err : Option E) → OnSuccess err P → err ≡ none → P
on_success none p ok = p
on_success (some e) p ok = absurd (some≢none ok)

module _ {E : Type 0} where
  abbrev pub IsAdoption : List Pvc → Configured E → Type 0
  IsAdoption before c =
      AreFresh before c.applied × OnSuccess c.err (AreJoined before c.volumes c.applied)

AreJoined-refl : (volumes : List Pvc) → AreJoined volumes volumes []
unfolding is_observed any
AreJoined-refl volumes name = ground arith

module _ {E : Type 0} (env : VolumesEnv E) (before : List Pvc) where
  add_volume-IsAdoption :
      (now applied : List Pvc) (v : Pvc) (answer : Option E)
      → AreFresh before applied
      → AreJoined before now applied
      → is_observed v.name now ≡ false
      → is_empty v.name ≡ false
      → IsAdoption before (add_volume env now applied v answer)
  unfolding add_volume is_observed any
  add_volume-IsAdoption now applied v (some e) fresh joined new given = (fresh, tt)
  add_volume-IsAdoption now applied v none fresh joined new given =
      let step : (name : String)
          → is_observed name (now ++ v ∷ [])
            ≡ (is_observed name before || is_observed name (v ∷ applied)) =
        λ name.
          ground (arith, joined name, any-append (λ (w : Pvc). str_eq name w.name) now (v ∷ [])) in
      (
        (given, ground (arith, joined v.name), ground (arith, joined v.name), fresh),
        elim (Option-cases (env.apply v)) [ inl ok ↦ rw ok step | inr (e, bad) ↦ rw bad tt ],
      )

  claim_volume-IsAdoption :
      (now applied : List Pvc) (name : String) (labels : Labels) (claim_spec : String)
      → AreFresh before applied
      → AreJoined before now applied
      → is_observed name now ≡ false
      → is_empty name ≡ false
      → IsAdoption before (claim_volume env now applied name labels claim_spec)
  unfolding claim_volume
  claim_volume-IsAdoption now applied name labels claim_spec fresh joined new given =
      let v : Pvc = record { name = name; labels = labels; spec = claim_spec; conditions = [] } in
      add_volume-IsAdoption now applied v (env.set_controller v) fresh joined new given

  configure_existing_pg_volumes-IsAdoption :
      (spec : VolumesSpec) (source : DataSourceVolume) (instance_name : String)
      → IsAdoption before (configure_existing_pg_volumes env spec before source instance_name)
  unfolding configure_existing_pg_volumes
  configure_existing_pg_volumes-IsAdoption spec source instance_name =
      let joined : AreJoined before before [] = AreJoined-refl before in
      if_elim {A = Configured E} (IsAdoption before) (is_observed source.pvc_name before)
        (λ old. (tt, joined))
        (λ new. elim (Option-cases spec.first_set) [
          | inl e ↦ rw e (tt, joined)
          | inr ((set_name, claim_spec), e) ↦ rw e (
              if_elim {A = Configured E} (IsAdoption before) (not (is_empty source.pvc_name))
                (λ given.
                  claim_volume-IsAdoption before [] source.pvc_name
                    (instance_volume_labels spec.cluster_name set_name instance_name
                      role_postgres_data)
                    claim_spec tt joined new (ground arith))
                (λ absent. (tt, joined)))
        ])

  configure_existing_pg_wal_volume-IsAdoption :
      (spec : VolumesSpec) (now applied : List Pvc) (source : DataSourceVolume)
      (instance_name : String)
      → AreFresh before applied
      → AreJoined before now applied
      → IsAdoption before
          (configure_existing_pg_wal_volume env spec now applied source instance_name)
  unfolding configure_existing_pg_wal_volume
  configure_existing_pg_wal_volume-IsAdoption spec now applied source instance_name fresh joined =
      let c = configure_existing_pg_wal_volume env spec now applied source instance_name in
      if_elim {A = Configured E} (IsAdoption before) (is_observed source.pvc_name now)
        (λ old. (fresh, joined))
        (λ new.
          if_elim {A = Configured E} (IsAdoption before) (not (is_empty source.pvc_name))
            (λ given. elim (Option-cases spec.first_set) [
              | inl e ↦ rw e (fresh, joined)
              | inr ((set_name, claim_spec), e) ↦ rw e (
                  claim_volume-IsAdoption now applied source.pvc_name
                    (instance_volume_labels spec.cluster_name set_name instance_name
                      role_postgres_wal)
                    claim_spec fresh joined new (ground arith))
            ])
            (λ absent. (fresh, joined)))

  configure_existing_repo_volumes-IsAdoption :
      ⦃ls : LabelSets⦄ (spec : VolumesSpec) (now applied : List Pvc) (source : DataSourceVolume)
      → AreFresh before applied
      → AreJoined before now applied
      → IsAdoption before (configure_existing_repo_volumes env spec now applied source)
  unfolding configure_existing_repo_volumes claim_repo_volume
  configure_existing_repo_volumes-IsAdoption spec now applied source fresh joined =
      if_elim {A = Configured E} (IsAdoption before) (is_observed source.pvc_name now)
        (λ old. (fresh, joined))
        (λ new. elim (Option-cases spec.first_repo) [
          | inl e ↦ rw e (fresh, joined)
          | inr ((repo_name, claim_spec), e) ↦ rw e (
              if_elim {A = Configured E} (IsAdoption before) (not (is_empty source.pvc_name))
                (λ given. elim (Option-cases claim_spec) [
                  | inl none_e ↦ rw none_e (fresh, joined)
                  | inr (s, some_e) ↦ rw some_e (
                      claim_volume-IsAdoption now applied source.pvc_name
                        (pgbackrest_repo_volume_labels spec.cluster_name repo_name) s fresh joined
                        new (ground arith))
                ])
                (λ absent. (fresh, joined)))
        ])

  configure_pair-IsAdoption :
      (spec : VolumesSpec) (sources : DataSourceVolumes) (source : DataSourceVolume)
      (instance_name : String)
      → IsAdoption before (configure_pair env spec before sources source instance_name)
  unfolding configure_pair
  configure_pair-IsAdoption spec sources source instance_name =
      let c = configure_existing_pg_volumes env spec before source instance_name in
      let first = configure_existing_pg_volumes-IsAdoption spec source instance_name in
      elim (Option-cases sources.pg_wal_volume) [
        | inl e ↦ rw e first
        | inr (wal, e) ↦ rw e (elim (Option-cases c.err) [
          | inl ok ↦ rw ok (
              configure_existing_pg_wal_volume-IsAdoption spec c.volumes c.applied wal instance_name
                first.0 (on_success c.err first.1 ok))
          | inr (err, e2) ↦ rw e2 first
        ])
      ]

  configure_pg-IsAdoption :
      (spec : VolumesSpec) (sources : DataSourceVolumes) (status : StartupStatus)
      → IsAdoption before (configure_pg env spec before sources status).1
  unfolding configure_pg
  configure_pg-IsAdoption spec sources status = elim (Option-cases sources.pg_data_volume) [
    | inl e ↦ rw e (tt, AreJoined-refl before)
    | inr (source, e) ↦ elim (Option-cases (name_startup_instance env spec status)) [
      | inl e2 ↦ from_eq (breaks before []) (ground (arith, e, e2)) (tt, AreJoined-refl before)
      | inr (named, e2) ↦
          from_eq (configure_pair env spec before sources source named.startup_instance)
            (ground (arith, e, e2))
            (configure_pair-IsAdoption spec sources source named.startup_instance)
    ]
  ]
    where
      from_eq :
          (c : Configured E)
          → (configure_pg env spec before sources status).1 ≡ c
          → IsAdoption before c
          → IsAdoption before (configure_pg env spec before sources status).1
      from_eq c e h = subst (IsAdoption before) (sym e) h

  configure_repo-IsAdoption :
      ⦃ls : LabelSets⦄ (spec : VolumesSpec) (sources : DataSourceVolumes) (c : Configured E)
      → IsAdoption before c
      → IsAdoption before (configure_repo env spec sources c)
  unfolding configure_repo
  configure_repo-IsAdoption spec sources c first = elim (Option-cases sources.pgbackrest_volume) [
    | inl e ↦ rw e first
    | inr (source, e) ↦ rw e (
        if_elim {A = Configured E} (IsAdoption before) (is_none c.err && not c.panics)
          (λ go.
            configure_existing_repo_volumes-IsAdoption spec c.volumes c.applied source first.0
              (on_success c.err first.1 (ground arith)))
          (λ stay. first))
  ]

  -- Each claim that is applied has a name, which is that of no claim observed or applied before it, and
  -- without an error the claims that are returned are those observed and those applied.
  pub configure_existing_pvcs-IsAdoption :
      ⦃ls : LabelSets⦄ (spec : VolumesSpec) (status : StartupStatus)
      → IsAdoption before (configure_existing_pvcs env spec before status).1
  unfolding configure_existing_pvcs
  configure_existing_pvcs-IsAdoption spec status = elim (Option-cases spec.volumes) [
    | inl e ↦ rw e (tt, AreJoined-refl before)
    | inr (sources, e) ↦
        rw e
          (configure_repo-IsAdoption spec sources _ (configure_pg-IsAdoption spec sources status))
  ]
