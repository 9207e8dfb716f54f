-- ===== src/Kube.antt =====
-- What the program takes from the Kubernetes libraries (k8s.io/apimachinery and
-- sigs.k8s.io/controller-runtime), none of which the repository holds: interfaces with the
-- behaviour that their documentation promises. A section that uses one takes it as an instance.
use ivory_operator.Prelude.{
  inl, inr, ◌⊎◌, refl, ℕ, String, ◌≡◌, Bool, true, Option, none, some, List, [], ◌∷◌, Labels,
  lookup, str_eq, if◌then◌else◌,
}

-- The errors of the API, `E`, as the program tells them apart.
pub record ApiErrors (E : Type 0) : Type 0 where
  -- apierrors.IsNotFound and apierrors.IsConflict
  pub is_not_found : E → Bool
  pub is_conflict : E → Bool
  -- err.Error()
  pub text : E → String
  -- client.IgnoreNotFound returns nil on NotFound errors, and other values unmodified.
  pub ignore_not_found : Option E → Option E
  pub ignore_not_found-none : ignore_not_found none ≡ none
  pub ignore_not_found-some :
      (e : E) → ignore_not_found (some e) ≡ (if is_not_found e then none else some e)

-- metav1.Condition, without the time of its last transition, which the program never reads back.
pub record Condition : Type 0 where
  pub type : String
  pub status : String
  pub reason : String
  pub message : String
  pub observed_generation : ℕ

-- meta.FindStatusCondition and meta.SetStatusCondition over a list of conditions, `C`.
pub record StatusConditions (C : Type 0) : Type 0 where
  pub find : C → String → Option Condition
  pub set : C → Condition → C
  -- A condition that was set is found under its type, and those of other types stay.
  pub find-set :
      (cs : C) (c : Condition) (t : String)
      → find (set cs c) t ≡ (if str_eq c.type t then some c else find cs t)
  -- meta.RemoveStatusCondition
  pub remove : C → String → C
  -- The conditions of a type are gone, and those of other types stay.
  pub find-remove :
      (cs : C) (t asked : String)
      → find (remove cs t) asked ≡ (if str_eq t asked then none else find cs asked)
  -- equality.Semantic.DeepEqual of two lists of conditions
  pub same : C → C → Bool
  pub same_refl : (cs : C) → same cs cs ≡ true

-- labels.Merge of k8s.io/apimachinery/pkg/labels: the second set wins in case of conflicts.
pub record LabelSets : Type 0 where
  pub merge : Labels → Labels → Labels
  pub lookup-merge :
      (a b : Labels) (k : String)
      → lookup k (merge a b) ≡ (elim (lookup k b) [ none ↦ lookup k a | some v ↦ some v ])

-- metav1.OwnerReference
pub record OwnerReference : Type 0 where
  pub api_version : String
  pub kind : String
  pub name : String
  pub uid : String
  pub controller : Bool
  pub block_owner_deletion : Bool

-- metav1.GetControllerOf and GetControllerOfNoCopy: the reference that is marked as controller.
pub record OwnerReferences : Type 0 where
  pub controller_of : List OwnerReference → Option OwnerReference
  pub controller_of-nil : controller_of [] ≡ none
  pub controller_of-cons :
      (r : OwnerReference) (rs : List OwnerReference)
      → controller_of (r ∷ rs) ≡ (if r.controller then some r else controller_of rs)

-- The answers of the API server to writes. An answer may depend on all the writes before it,
-- newest first. `none` is success.
abbrev pub Responses : Type 0 → Type 0 → Type 0
Responses Call E = List Call → Call → Option E

-- What a Get answers.
pub data Answer (E A : Type 0) : Type 0 where
  found : A → Answer E A
  failed : E → Answer E A

pub Answer-cases :
    {E A : Type 0}
    → (answer : Answer E A) → ((e : E) × (answer ≡ failed e)) ⊎ ((a : A) × (answer ≡ found a))
Answer-cases (failed e) = inl (e, refl)
Answer-cases (found a) = inr (a, refl)
