-- ===== src/Ownership/Settling.antt =====
-- After a claim, there is nothing left to claim.
use mathlib.Core.Bool.{false≢true}
use ivory_operator.Kube.{OwnerReference, Responses, ApiErrors, OwnerReferences}
use ivory_operator.Ownership.{
  Claim, claim_by, claim_object, has_cluster_label, release_patch, Owned, adopt_patch, Owner,
  claim_orphan, claim_controlled, ControllerSetter, RefPatch,
}
use ivory_operator.Ownership.Claims.{claim_object-IsDue, IsDue}
use ivory_operator.Prelude.{
  Option, true, inr, refl, Option-cases, ap, ◌||◌, All, inl, arith, subst, ◌∷◌, ◌∙◌, if_elim, sym,
  [], some≢none, ◌&&◌, false, none, some, str_eq, ◌≡◌, not, List, String, filter,
}

controller_of_cons_other :
    ⦃os : OwnerReferences⦄ (uid : String) (o : OwnerReference) (rest : List OwnerReference)
    (r : OwnerReference)
    → not (str_eq o.uid uid) ≡ true
    → (os.controller_of rest ≡ some r → str_eq r.uid uid ≡ false)
    → os.controller_of (o ∷ rest) ≡ some r
    → str_eq r.uid uid ≡ false
controller_of_cons_other ⦃os⦄ uid o rest r k ih h =
    if_elim {A = Option OwnerReference} (λ t. t ≡ some r → str_eq r.uid uid ≡ false) o.controller
      (λ _ g. sym (ap (λ t. elim t [ none ↦ false | some x ↦ str_eq x.uid uid ]) g) ∙ ground arith)
      (λ _ g. ih g) (sym (os.controller_of-cons o rest) ∙ h)

-- The reference that controls is of the list, so a test that all pass it passes.
controller_of-filter :
    ⦃os : OwnerReferences⦄ (uid : String) (owners : List OwnerReference) (r : OwnerReference)
    → os.controller_of (filter (λ o. not (str_eq o.uid uid)) owners) ≡ some r
    → str_eq r.uid uid ≡ false
unfolding filter
controller_of-filter ⦃os⦄ uid [] r h = absurd (some≢none (sym h ∙ os.controller_of-nil))
controller_of-filter ⦃os⦄ uid (o ∷ rest) r h =
    if_elim {A = List OwnerReference} (λ l. os.controller_of l ≡ some r → str_eq r.uid uid ≡ false)
      (not (str_eq o.uid uid))
      (λ k g. controller_of_cons_other uid o _ r k (controller_of-filter uid rest r) g)
      (λ _ g. controller_of-filter uid rest r g) h

module _ {E : Type 0} ⦃os : OwnerReferences⦄ ⦃errs : ApiErrors E⦄ (respond : Responses RefPatch E)
    (setter : ControllerSetter E os) where
  claim_orphan_unlabelled :
      (cluster : Owner) (obj : Owned)
      → has_cluster_label obj ≡ false
      → (claim_orphan respond setter cluster obj).patches ≡ []
  unfolding claim_orphan
  claim_orphan_unlabelled cluster obj h =
      if_elim {A = Claim E} (λ c. c.patches ≡ []) (cluster.deleting || not (has_cluster_label obj))
        (λ _. refl) (λ k. absurd (false≢true (ground arith)))

  claim_controlled_idle :
      (cluster : Owner) (obj : Owned) (r : OwnerReference)
      → (str_eq r.uid cluster.uid && not (has_cluster_label obj)) ≡ false
      → (claim_controlled respond setter cluster obj r).patches ≡ []
  unfolding claim_controlled
  claim_controlled_idle cluster obj r h =
      if_elim {A = Claim E} (λ c. c.patches ≡ []) (not (str_eq r.uid cluster.uid)) (λ _. refl)
        (λ k.
          if_elim {A = Claim E} (λ c. c.patches ≡ []) (has_cluster_label obj) (λ _. refl)
            (λ l. absurd (false≢true (ground arith))))

  module _ (after : List OwnerReference → RefPatch → List OwnerReference)
      (after-adopt : (olds news : List OwnerReference) (r : OwnerReference)
        → os.controller_of olds ≡ none
        → os.controller_of news ≡ some r
        → os.controller_of (after olds (adopt_patch news)) ≡ some r)
      (after-release : (olds : List OwnerReference) (uid : String)
        → after olds (release_patch uid) ≡ filter (λ o. not (str_eq o.uid uid)) olds) where
    settled :
        (cluster : Owner) (obj : Owned) (patch : RefPatch)
        → IsDue respond setter cluster obj patch
        → (claim_object respond setter cluster
            (record obj { owners = after obj.owners patch })).patches
          ≡ []
    unfolding claim_object claim_by has_cluster_label
    settled cluster obj (adopt_patch owners) (n, h, k, l, (r, e, u)) =
        rw (after-adopt obj.owners owners r n e) (
          claim_controlled_idle cluster
            (record obj { owners = after obj.owners (adopt_patch owners) }) r (ground arith))
    settled cluster obj (release_patch uid) ((r, e, u), h, k, l) =
        rw (after-release obj.owners uid)
          (elim (Option-cases
            (os.controller_of (filter (λ o. not (str_eq o.uid uid)) obj.owners))) [
              | inl q ↦ rw (q) (
                  claim_orphan_unlabelled cluster
                    (record obj { owners = filter (λ o. not (str_eq o.uid uid)) obj.owners }) h)
              | inr (t, q) ↦ rw (q) (
                  claim_controlled_idle cluster
                    (record obj { owners = filter (λ o. not (str_eq o.uid uid)) obj.owners }) t
                    (ground
                      (arith, ap (str_eq t.uid) (sym l) ∙ controller_of-filter uid obj.owners t q)))
            ])

    -- Once the patch of a claim is done, claiming the same object again sends nothing: an adopted
    -- object has the cluster as its controller, and a released one is no longer the cluster's. This
    -- supposes what a strategic merge patch does to a list of owners: an orphan gets the
    -- controller of the list that is merged, and a removal leaves the owners of other UIDs.
    pub claim_object_settled :
        (cluster : Owner) (obj : Owned) (patch : RefPatch)
        → (claim_object respond setter cluster obj).patches ≡ patch ∷ []
        → (claim_object respond setter cluster
            (record obj { owners = after obj.owners patch })).patches
          ≡ []
    claim_object_settled cluster obj patch h =
        settled cluster obj patch
          (subst (All (IsDue respond setter cluster obj)) h
            (claim_object-IsDue respond setter cluster obj)).0
