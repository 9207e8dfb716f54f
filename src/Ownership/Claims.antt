-- ===== src/Ownership/Claims.antt =====
-- When claimObject adopts and releases, and what it reports.

use ivory_operator.Kube.{
  found, failed, OwnerReference, Answer, Responses, ApiErrors, OwnerReferences,
}
use ivory_operator.Ownership.{
  cluster_name_of, manage_controller_refs, manage_found, release_patch, has_cluster_label,
  adopt_patch, release_object, Owned, adopt_object, claim_by, claim_orphan, Claim, adopt_with,
  claim_controlled, Owner, claim_object, ControllerSetter, RefPatch,
}
use ivory_operator.Prelude.{
  is_empty, String, ap, if◌then◌else◌, Bool-cases, arith, ◌∙◌, eq_iff, refl, inr, sym, str_eq, ◌||◌,
  not, some≢none, true, inl, if_elim, Option-cases, false, List, All, none, some, ◌≡◌, Option,
}

module _ {E : Type 0} ⦃os : OwnerReferences⦄ ⦃errs : ApiErrors E⦄ (respond : Responses RefPatch E)
    (setter : ControllerSetter E os) where
  -- The patch is due: an orphan with the label is adopted while neither it nor the cluster is being
  -- deleted, and an object that the cluster controls is released once it has lost the label.
  abbrev pub IsDue : Owner → Owned → RefPatch → Type 0
  IsDue cluster obj (adopt_patch owners) =
      (os.controller_of obj.owners ≡ none)
      × (has_cluster_label obj ≡ true)
      × (cluster.deleting ≡ false)
      × (obj.deleting ≡ false)
      × ((r : OwnerReference) × (os.controller_of owners ≡ some r) × (r.uid ≡ cluster.uid))
  IsDue cluster obj (release_patch uid) =
      ((r : OwnerReference) × (os.controller_of obj.owners ≡ some r) × (r.uid ≡ cluster.uid))
      × (has_cluster_label obj ≡ false)
      × (cluster.deleting ≡ false)
      × (uid ≡ cluster.uid)

  IsDue-adopt :
      (cluster : Owner) (obj : Owned) (answer : Answer E (List OwnerReference))
      → setter.set_controller_reference cluster obj.owners ≡ answer
      → os.controller_of obj.owners ≡ none
      → (cluster.deleting || not (has_cluster_label obj)) ≡ false
      → obj.deleting ≡ false
      → All (IsDue cluster obj) (adopt_with respond answer).patches
  unfolding adopt_with
  IsDue-adopt cluster obj (failed e) a n h k = tt
  IsDue-adopt cluster obj (found owners) a n h k = (
    (
      n,
      ground arith,
      ground arith,
      k,
      setter.set_controller_reference-found cluster obj.owners owners a,
    ),
    tt,
  )

  IsDue-claim_orphan :
      (cluster : Owner) (obj : Owned)
      → os.controller_of obj.owners ≡ none
      → All (IsDue cluster obj) (claim_orphan respond setter cluster obj).patches
  unfolding claim_orphan adopt_object
  IsDue-claim_orphan cluster obj n =
      if_elim {A = Claim E} (λ c. All (IsDue cluster obj) c.patches)
        (cluster.deleting || not (has_cluster_label obj)) (λ _. tt)
        (λ h.
          if_elim {A = Claim E} (λ c. All (IsDue cluster obj) c.patches) obj.deleting (λ _. tt)
            (λ k. IsDue-adopt cluster obj _ refl n h k))

  IsDue-claim_controlled :
      (cluster : Owner) (obj : Owned) (r : OwnerReference)
      → os.controller_of obj.owners ≡ some r
      → All (IsDue cluster obj) (claim_controlled respond setter cluster obj r).patches
  unfolding claim_controlled release_object
  IsDue-claim_controlled cluster obj r e =
      if_elim {A = Claim E} (λ c. All (IsDue cluster obj) c.patches)
        (not (str_eq r.uid cluster.uid)) (λ _. tt)
        (λ h.
          if_elim {A = Claim E} (λ c. All (IsDue cluster obj) c.patches) (has_cluster_label obj)
            (λ _. tt)
            (λ k.
              if_elim {A = Claim E} (λ c. All (IsDue cluster obj) c.patches) cluster.deleting
                (λ _. tt)
                (λ l. (((r, e, (eq_iff r.uid cluster.uid).0 (ground arith)), k, l, refl), tt))))

  -- A claim sends a patch only when it is due: it adopts only an orphan that has the cluster label,
  -- with a list of owners in which the cluster is the controller, while neither is being deleted,
  -- and releases only an object that the cluster controls and that lacks the label.
  pub claim_object-IsDue :
      (cluster : Owner) (obj : Owned)
      → All (IsDue cluster obj) (claim_object respond setter cluster obj).patches
  unfolding claim_object claim_by
  claim_object-IsDue cluster obj = elim (Option-cases (os.controller_of obj.owners)) [
    | inl e ↦ rw (e) (IsDue-claim_orphan cluster obj e)
    | inr (r, e) ↦ rw (e) (IsDue-claim_controlled cluster obj r e)
  ]

  abbrev IsReported : Claim E → Type 0
  IsReported c = (e : E) → c.err ≡ some e → errs.is_not_found e ≡ false

  reported :
      {e e' : E}
      → (if errs.is_not_found e' then none else some e') ≡ some e
      → errs.is_not_found e' ≡ false
      → errs.is_not_found e ≡ false
  reported {e} {e'} h k = some_not_found (ground arith)
    where
      some_not_found : some e' ≡ some e → errs.is_not_found e ≡ false
      some_not_found g = sym (ap (λ o. elim o [ none ↦ true | some x ↦ errs.is_not_found x ]) g) ∙ k

  ignored :
      (err : Option E) (e : E) → errs.ignore_not_found err ≡ some e → errs.is_not_found e ≡ false
  ignored none e h = absurd (some≢none (sym h ∙ errs.ignore_not_found-none))
  ignored (some e') e h = elim (Bool-cases (errs.is_not_found e')) [
    | inl k ↦ absurd (some≢none (sym h ∙ (errs.ignore_not_found-some e' ∙ ground arith)))
    | inr k ↦ reported (sym (errs.ignore_not_found-some e') ∙ h) k
  ]

  IsReported-claim_by :
      (cluster : Owner) (obj : Owned) (owner : Option OwnerReference)
      → IsReported (claim_by respond setter cluster obj owner)
  unfolding claim_by claim_orphan claim_controlled
  IsReported-claim_by cluster obj none =
      if_elim {A = Claim E} IsReported (cluster.deleting || not (has_cluster_label obj))
        (λ _ e h. absurd (some≢none (sym h)))
        (λ _.
          if_elim {A = Claim E} IsReported obj.deleting (λ _ e h. absurd (some≢none (sym h)))
            (λ _ e h. ignored _ e h))
  IsReported-claim_by cluster obj (some r) =
      if_elim {A = Claim E} IsReported (not (str_eq r.uid cluster.uid))
        (λ _ e h. absurd (some≢none (sym h)))
        (λ _.
          if_elim {A = Claim E} IsReported (has_cluster_label obj)
            (λ _ e h. absurd (some≢none (sym h)))
            (λ _.
              if_elim {A = Claim E} IsReported cluster.deleting
                (λ _ e h. absurd (some≢none (sym h))) (λ _ e h. ignored _ e h)))

  IsReported-manage_found :
      (answer : Answer E Owner) (obj : Owned) → IsReported (manage_found respond setter answer obj)
  unfolding manage_found claim_object
  IsReported-manage_found (found cluster) obj e h =
      IsReported-claim_by cluster obj (os.controller_of obj.owners) e h
  IsReported-manage_found (failed e') obj e h = elim (Bool-cases (errs.is_not_found e')) [
    | inl k ↦ absurd (some≢none (sym h ∙ ground arith))
    | inr k ↦ reported h k
  ]

  -- Whatever the API answers, managing the owners of an object never reports an error that says that
  -- something was not found: neither the cluster, nor the object.
  pub manage_controller_refs-error :
      (get : String → Answer E Owner) (obj : Owned) (e : E)
      → (manage_controller_refs respond setter get obj).err ≡ some e
      → errs.is_not_found e ≡ false
  unfolding manage_controller_refs
  manage_controller_refs-error get obj e =
      if_elim {A = Claim E} (λ c. c.err ≡ some e → errs.is_not_found e ≡ false)
        (is_empty (cluster_name_of respond setter (os.controller_of obj.owners) obj))
        (λ _ h. absurd (some≢none (sym h))) (λ _ h. IsReported-manage_found _ obj e h)
