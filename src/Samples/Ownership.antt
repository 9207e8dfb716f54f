-- ===== src/Samples/Ownership.antt =====
-- A cluster, and objects of it.

use ivory_operator.Kube.{failed, found, OwnerReference, Responses}
use ivory_operator.Ownership.{
  has_cluster_label, adopt_with, release_patch, adopt_object, claim_orphan, adopt_patch, RefPatch,
  claim_by, Owned, ControllerSetter, Owner, claim_object,
}
use ivory_operator.Ownership.Claims.{claim_object-IsDue, IsDue}
use ivory_operator.Ownership.Settling.{claim_object_settled}
use ivory_operator.Prelude.{
  sym, str_eq, refl, not, ap, lookup, filter, ◌≡◌, none, true, [], false, ◌∷◌, All, List,
}
use ivory_operator.Samples.Kube.{controller_in, sample_errors, sample_owners, SampleError}
use ivory_operator.Upgrade.{label_cluster}

abbrev hippo : Owner
hippo = record { name = "hippo"; uid = "1"; deleting = false }

abbrev reference_to : Owner → OwnerReference
reference_to o = record {
  api_version = "postgres-operator.crunchydata.com/v1beta1";
  kind = "PostgresCluster";
  name = o.name;
  uid = o.uid;
  controller = true;
  block_owner_deletion = true;
}

abbrev orphan : Owned
orphan = record { labels = (label_cluster, "hippo") ∷ []; deleting = false; owners = [] }

abbrev setter : ControllerSetter SampleError sample_owners
setter = record {
  set_controller_reference = λ o olds. found (reference_to o ∷ olds);
  set_controller_reference-found = λ o olds news e. (
    reference_to o,
    ap (λ a. elim a [ failed _ ↦ none | found l ↦ controller_in l ]) (sym e),
    refl,
  );
}

abbrev accepting : Responses RefPatch SampleError
accepting done call = none

abbrev after_patch : List OwnerReference → RefPatch → List OwnerReference
after_patch olds (adopt_patch news) = news
after_patch olds (release_patch uid) = filter (λ o. not (str_eq o.uid uid)) olds

adopted_test :
    (claim_object accepting setter hippo orphan).patches
    ≡ adopt_patch (reference_to hippo ∷ []) ∷ []
unfolding claim_object claim_by claim_orphan adopt_object adopt_with has_cluster_label lookup
adopted_test = refl

claim_object-IsDue_example :
    All (IsDue accepting setter hippo orphan) (claim_object accepting setter hippo orphan).patches
claim_object-IsDue_example = claim_object-IsDue accepting setter hippo orphan

claim_object_settled_example :
    (claim_object accepting setter hippo
      (record orphan { owners = reference_to hippo ∷ [] })).patches
    ≡ []
claim_object_settled_example =
    claim_object_settled accepting setter after_patch (λ olds news r h k. k) (λ olds uid. refl)
      hippo orphan (adopt_patch (reference_to hippo ∷ [])) adopted_test
