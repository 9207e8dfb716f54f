-- ===== src/Volumes/Tablespaces.antt =====
-- postgres.go: reconcileTablespaceVolumes.
use ivory_operator.Kube.{LabelSets, StatusConditions}
use ivory_operator.Prelude.{
  ◌++◌, some, [], ◌∷◌, none, is_none, if◌then◌else◌, Option, ℕ, String, List,
}
use ivory_operator.Volumes.{Pvc}
use ivory_operator.Volumes.Claims.{
  instance_tablespace_data_volume, claim_labels, ClaimOutcome, reconcile_claim, ClaimWrite,
  InstanceClaims, ClaimsEnv,
}
use ivory_operator.Volumes.Failures.{VolumeErrors}

-- The claims of the tablespaces so far, and the state of the conditions, the warnings and the writes;
-- after an error no claims are returned.
pub record TablespaceOutcome (E C : Type 0) : Type 0 where
  pub pvcs : List String
  pub err : Option E
  pub conditions : C
  pub events : List String
  pub writes : List ClaimWrite

module _ {E C : Type 0} ⦃ls : LabelSets⦄ ⦃sc : StatusConditions C⦄ (env : ClaimsEnv E)
    (errors : VolumeErrors E) (generation : ℕ) (spec : InstanceClaims) where
  unfoldable pub add_tablespace : TablespaceOutcome E C → ClaimOutcome E C → TablespaceOutcome E C
  add_tablespace t o = record {
    pvcs =
        if is_none o.err
        then elim o.pvc [ none ↦ t.pvcs | some name ↦ t.pvcs ++ name ∷ [] ]
        else [];
    err = o.err;
    conditions = o.conditions;
    events = o.events ++ t.events;
    writes = o.writes ++ t.writes;
  }

  unfoldable pub reconcile_tablespaces :
      List (String × String) → List Pvc → TablespaceOutcome E C → TablespaceOutcome E C
  unfolding add_tablespace reconcile_claim claim_labels instance_tablespace_data_volume
  reconcile_tablespaces [] volumes t = t
  reconcile_tablespaces ((name, claim_spec) ∷ rest) volumes t = reconcile_tablespaces rest volumes (
      if is_none t.err
      then add_tablespace t (
          reconcile_claim env errors generation spec t.conditions volumes
            (claim_labels spec "tablespace" name)
            (instance_tablespace_data_volume spec.instance_name name) claim_spec)
      else t)

  unfoldable pub reconcile_tablespace_volumes : C → List Pvc → TablespaceOutcome E C
  unfolding reconcile_tablespaces
  reconcile_tablespace_volumes cs volumes =
      let start : TablespaceOutcome E C = record {
        pvcs = [];
        err = none;
        conditions = cs;
        events = [];
        writes = [];
      } in
      if spec.tablespaces_enabled
      then reconcile_tablespaces spec.tablespaces volumes start
      else start
