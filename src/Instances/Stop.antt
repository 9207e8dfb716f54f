-- ===== src/Instances/Stop.antt =====
-- instance.go: deleteInstances, which stops the instances of a cluster that is deleted.
use mathlib.Core.Bool.{◌||◌, ◌&&◌}
use ivory_operator.Instances.{role_patroni_replica, label_role, some, ◌∷◌, Pod}
use ivory_operator.Kube.{OwnerReference, Responses, OwnerReferences, ApiErrors}
use ivory_operator.Prelude.{
  is_empty, is_none, is_some, none, if◌then◌else◌, label, [], false, str_eq, true, List, Option, ℕ,
  String, Bool,
}

-- The writes: the owner of a pod is scaled to zero.
pub record Scaled : Type 0 where
  pub api_version : String
  pub kind : String
  pub name : String

-- What deleteInstances returns: whether there is a result, its fields, and the error.
pub record Stopping (E : Type 0) : Type 0 where
  pub has_result : Bool
  pub requeue : Bool
  pub requeue_after : ℕ
  pub err : Option E
  pub scaled : List Scaled

-- The errors that stop makes itself.
pub record OwnErrors (E : Type 0) : Type 0 where
  pub no_owner : Pod → E
  pub unexpected_kind : String → E

-- A pod that the loop stops: a replica, or one that takes no part in the Patroni cluster.
unfoldable pub is_stoppable : Pod → Bool
is_stoppable p =
    str_eq (label label_role p.labels) role_patroni_replica || is_empty (label label_role p.labels)

abbrev pub result : {E : Type 0} → Bool → Stopping E
result requeue = record {
  has_result = true;
  requeue = requeue;
  requeue_after = 0;
  err = none;
  scaled = [];
}

module _ {E : Type 0} ⦃errs : ApiErrors E⦄ ⦃os : OwnerReferences⦄ (own : OwnErrors E)
    (respond : Responses Scaled E) where
  -- The patch in stop, for the owner that was found. A failed patch asks to come back in ten
  -- seconds, and is no error when the owner is gone.
  unfoldable pub scale_owner : OwnerReference → Stopping E → Stopping E
  scale_owner r s =
      let call : Scaled = record { api_version = r.api_version; kind = r.kind; name = r.name } in
      let answer = respond s.scaled call in
      record s {
        requeue_after = if is_some answer then 10 else s.requeue_after;
        err = errs.ignore_not_found answer;
        scaled = call ∷ s.scaled;
      }

  unfoldable pub stop_owner : Option OwnerReference → Pod → Stopping E → Stopping E
  unfolding scale_owner
  stop_owner none p s = record s { err = some (own.no_owner p) }
  stop_owner (some r) p s =
      if str_eq r.kind "StatefulSet"
      then scale_owner r s
      else record s { err = some (own.unexpected_kind r.kind) }

  unfoldable pub stop : Pod → Stopping E → Stopping E
  unfolding stop_owner
  stop p s = stop_owner (os.controller_of p.owners) p s

  -- The loop over several pods. Its two tests of a role exclude each other.
  unfoldable pub stop_all : List Pod → Stopping E → Stopping E
  stop_all [] s = s
  stop_all (p ∷ rest) s = stop_all rest (
      if is_none s.err && is_stoppable p
      then (let t = stop p s in record t { requeue = false })
      else s)

  -- The cases on the pods that were listed.
  unfoldable pub stop_listed : List Pod → Stopping E
  stop_listed [] = record (result false) { has_result = false }
  stop_listed (p ∷ []) = stop p (result false)
  stop_listed (p ∷ q ∷ rest) = stop_all (p ∷ q ∷ rest) (result true)

  unfoldable pub delete_instances : List Pod × Option E → Stopping E
  unfolding stop_listed
  delete_instances (pods, none) = stop_listed pods
  delete_instances (pods, some e) = record (result false) { has_result = false; err = some e }
