-- ===== src/Ownership.antt =====
-- internal/controller/postgrescluster/controller_ref_manager.go: which objects a cluster adopts and
-- releases.
pub mod Claims
pub mod Settling
-- v1beta1.PostgresCluster, as an owner; `deleting` is whether its DeletionTimestamp is set.
use ivory_operator.Kube.{
  found, failed, OwnerReferences, ApiErrors, Answer, OwnerReference, Responses,
}
use ivory_operator.Prelude.{
  ◌≡◌, str_eq, ◌||◌, is_empty, not, label, lookup, some, ◌∷◌, if◌then◌else◌, is_some, [], Labels,
  List, none, String, Bool, Option,
}
use ivory_operator.Upgrade.{label_cluster}

pub record Owner : Type 0 where
  pub name : String
  pub uid : String
  pub deleting : Bool

-- client.Object
pub record Owned : Type 0 where
  pub labels : Labels
  pub deleting : Bool
  pub owners : List OwnerReference

-- The patches: the list of owners to merge, or the owner to remove by its UID.
pub data RefPatch : Type 0 where
  adopt_patch : List OwnerReference → RefPatch
  release_patch : String → RefPatch

-- controllerutil.SetControllerReference, which sets the owner as controller of an object, or fails.
pub record ControllerSetter (E : Type 0) (os : OwnerReferences) : Type 0 where
  pub set_controller_reference : Owner → List OwnerReference → Answer E (List OwnerReference)
  pub set_controller_reference-found :
      (owner : Owner) (olds news : List OwnerReference)
      → set_controller_reference owner olds ≡ found news
      → (r : OwnerReference) × (os.controller_of news ≡ some r) × (r.uid ≡ owner.uid)

-- What is returned, and the patches that were sent, newest first.
pub record Claim (E : Type 0) : Type 0 where
  pub err : Option E
  pub patches : List RefPatch

abbrev pub claimed : {E : Type 0} → Claim E
claimed = record { err = none; patches = [] }

unfoldable pub has_cluster_label : Owned → Bool
has_cluster_label obj = is_some (lookup label_cluster obj.labels)

module _ {E : Type 0} (respond : Responses RefPatch E) where
  abbrev pub send : RefPatch → Claim E
  send patch = record { err = respond [] patch; patches = patch ∷ [] }

  unfoldable pub adopt_with : Answer E (List OwnerReference) → Claim E
  adopt_with (failed e) = record { err = some e; patches = [] }
  adopt_with (found owners) = send (adopt_patch owners)

  unfoldable pub release_object : Owner → Claim E
  release_object cluster = send (release_patch cluster.uid)

  module _ ⦃os : OwnerReferences⦄ (setter : ControllerSetter E os) where
    unfoldable pub adopt_object : Owner → Owned → Claim E
    unfolding adopt_with
    adopt_object cluster obj = adopt_with (setter.set_controller_reference cluster obj.owners)

    module _ ⦃errs : ApiErrors E⦄ where
      -- An object with a controller is released, where it is the cluster's but has lost its label.
      unfoldable pub claim_controlled : Owner → Owned → OwnerReference → Claim E
      unfolding release_object
      claim_controlled cluster obj r =
          let released = release_object cluster in
          if not (str_eq r.uid cluster.uid)
          then claimed
          else if has_cluster_label obj
          then claimed
          else if cluster.deleting
          then claimed
          else record released { err = errs.ignore_not_found released.err }

      -- An orphan is adopted, where it has the label.
      unfoldable pub claim_orphan : Owner → Owned → Claim E
      unfolding adopt_object
      claim_orphan cluster obj =
          let adopted = adopt_object cluster obj in
          if cluster.deleting || not (has_cluster_label obj)
          then claimed
          else if obj.deleting
          then claimed
          else record adopted { err = errs.ignore_not_found adopted.err }

      unfoldable pub claim_by : Owner → Owned → Option OwnerReference → Claim E
      unfolding claim_controlled claim_orphan
      claim_by cluster obj none = claim_orphan cluster obj
      claim_by cluster obj (some r) = claim_controlled cluster obj r

      unfoldable pub claim_object : Owner → Owned → Claim E
      unfolding claim_by
      claim_object cluster obj = claim_by cluster obj (os.controller_of obj.owners)

      -- The name of the cluster: of the controller, or else of the label.
      unfoldable pub cluster_name_of : Option OwnerReference → Owned → String
      cluster_name_of none obj = label label_cluster obj.labels
      cluster_name_of (some r) obj =
          if str_eq r.kind "PostgresCluster" then r.name else label label_cluster obj.labels

      -- What follows the Get of the cluster.
      unfoldable pub manage_found : Answer E Owner → Owned → Claim E
      unfolding claim_object
      manage_found (found cluster) obj = claim_object cluster obj
      manage_found (failed e) obj = record claimed {
        err = if errs.is_not_found e then none else some e;
      }

      unfoldable pub manage_controller_refs : (String → Answer E Owner) → Owned → Claim E
      unfolding manage_found cluster_name_of
      manage_controller_refs get obj =
          let cluster_name = cluster_name_of (os.controller_of obj.owners) obj in
          if is_empty cluster_name then claimed else manage_found (get cluster_name) obj
