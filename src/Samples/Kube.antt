-- ===== src/Samples/Kube.antt =====
-- Small stand-ins for the Kubernetes libraries, which show that the interfaces can be met.
use ivory_operator.Kube.{
  OwnerReference, Condition, StatusConditions, ApiErrors, OwnerReferences, LabelSets,
}
use ivory_operator.Prelude.{
  eq_iff, ◌∙◌, lookup-insert, arith, insert, [], ◌==◌, str_eq, ◌∷◌, lookup, length, refl,
  if◌then◌else◌, false, ◌≡◌, true, none, String, some, Labels, Option, List,
}

pub data SampleError : Type 0 where
  missing conflict other : SampleError

abbrev pub ignore : Option SampleError → Option SampleError
ignore none = none
ignore (some missing) = none
ignore (some conflict) = some conflict
ignore (some other) = some other

pub ignore-some :
    (e : SampleError)
    → ignore (some e) ≡ (if elim e [ missing ↦ true | _ ↦ false ] then none else some e)
ignore-some missing = refl
ignore-some conflict = refl
ignore-some other = refl

instance abbrev pub sample_errors : ApiErrors SampleError
sample_errors = record {
  is_not_found = λ e. elim e [ missing ↦ true | _ ↦ false ];
  is_conflict = λ e. elim e [ conflict ↦ true | _ ↦ false ];
  text = λ e. "error";
  ignore_not_found = ignore;
  ignore_not_found-none = refl;
  ignore_not_found-some = ignore-some;
}

abbrev pub find_in : List Condition → String → Option Condition
find_in [] t = none
find_in (c ∷ cs) t = if str_eq c.type t then some c else find_in cs t

abbrev pub set_in : List Condition → Condition → List Condition
set_in cs c = c ∷ cs

abbrev pub remove_in : List Condition → String → List Condition
remove_in [] t = []
remove_in (c ∷ cs) t = if str_eq c.type t then remove_in cs t else c ∷ remove_in cs t

pub find_in-remove_in :
    (cs : List Condition) (t asked : String)
    → find_in (remove_in cs t) asked ≡ (if str_eq t asked then none else find_in cs asked)
find_in-remove_in [] t asked = ground arith
find_in-remove_in (c ∷ cs) t asked =
    ground
      (arith, find_in-remove_in cs t asked, eq_iff c.type t, eq_iff c.type asked, eq_iff t asked)

pub same_length : (cs : List Condition) → (length cs == length cs) ≡ true
same_length cs = ground arith

instance abbrev pub sample_conditions : StatusConditions (List Condition)
sample_conditions = record {
  find = find_in;
  set = set_in;
  find-set = λ cs c t. refl;
  remove = remove_in;
  find-remove = find_in-remove_in;
  same = λ a b. length a == length b;
  same_refl = same_length;
}

abbrev pub merge_in : Labels → Labels → Labels
merge_in a [] = a
merge_in a ((k, v) ∷ b) = insert k v (merge_in a b)

lookup_either :
    (a b : Labels) (j k v : String)
    → lookup k (merge_in a b) ≡ (elim (lookup k b) [ none ↦ lookup k a | some w ↦ some w ])
    → (if str_eq j k then some v else lookup k (merge_in a b))
      ≡ (elim (lookup k ((j, v) ∷ b)) [ none ↦ lookup k a | some w ↦ some w ])
unfolding lookup
lookup_either a b j k v h = ground arith

pub lookup-merge_in :
    (a b : Labels) (k : String)
    → lookup k (merge_in a b) ≡ (elim (lookup k b) [ none ↦ lookup k a | some v ↦ some v ])
lookup-merge_in a [] k = unfold lookup in refl
lookup-merge_in a ((j, v) ∷ b) k =
    lookup-insert j k v (merge_in a b) ∙ lookup_either a b j k v (lookup-merge_in a b k)

instance abbrev pub sample_labels : LabelSets
sample_labels = record { merge = merge_in; lookup-merge = lookup-merge_in }

abbrev pub controller_in : List OwnerReference → Option OwnerReference
controller_in [] = none
controller_in (r ∷ rs) = if r.controller then some r else controller_in rs

instance abbrev pub sample_owners : OwnerReferences
sample_owners = record {
  controller_of = controller_in;
  controller_of-nil = refl;
  controller_of-cons = λ r rs. refl;
}
