-- ===== src/Cluster/Finalized.antt =====
-- When handleDelete lets the cluster go.

use mathlib.Core.Bool.{false≢true}
use ivory_operator.Cluster.{
  delete_patroni_endpoints, set_finalizers, scale, ClusterWrite, finalizer,
}
use ivory_operator.Cluster.Deletion.{
  Handled, set_finalizer, handle_delete, Deletable, remove_finalizer, after_instances,
  has_finalizer, DeleteEnv,
}
use ivory_operator.Instances.{Pod}
use ivory_operator.Instances.Stop.{
  result, is_stoppable, stop_owner, stop_all, delete_instances, Stopping, stop, Scaled, OwnErrors,
}
use ivory_operator.Kube.{OwnerReference, Responses, OwnerReferences, ApiErrors}
use ivory_operator.Prelude.{
  ◌∙◌, sym, inl, refl, some≢none, str_eq, inr, ◌&&◌, not, ◌⊎◌, map, is_none, arith, some, if_elim,
  ◌||◌, false, [], All, true, none, is_some, ◌∷◌, ◌≡◌, ◌++◌, Option, String, List, any,
}

has_finalizer-append : (fs : List String) → has_finalizer (fs ++ finalizer ∷ []) ≡ true
unfolding has_finalizer any
has_finalizer-append [] = refl
has_finalizer-append (f ∷ fs) = ground (arith, has_finalizer-append fs)

module _ {E : Type 0} ⦃errs : ApiErrors E⦄ ⦃os : OwnerReferences⦄ (own : OwnErrors E)
    (respond : Responses Scaled E) where
  stop-has_result :
      (p : Pod) (s : Stopping E) → s.has_result ≡ true → (stop own respond p s).has_result ≡ true
  unfolding stop
  stop-has_result p s h = go (os.controller_of p.owners)
    where
      go : (owner : Option OwnerReference) → (stop_owner own respond owner p s).has_result ≡ true
      go none = h
      go (some r) =
          if_elim {A = Stopping E} (λ t. t.has_result ≡ true) (str_eq r.kind "StatefulSet") (λ _. h)
            (λ _. h)

  stop_all-has_result :
      (pods : List Pod) (s : Stopping E)
      → s.has_result ≡ true
      → (stop_all own respond pods s).has_result ≡ true
  unfolding stop_all
  stop_all-has_result [] s h = h
  stop_all-has_result (p ∷ rest) s h = stop_all-has_result rest _ (
      if_elim {A = Stopping E} (λ t. t.has_result ≡ true) (is_none s.err && is_stoppable p)
        (λ _. stop-has_result p s h) (λ _. h))

  -- Without a result and without an error there are no pods.
  delete_instances_done :
      (pods : List Pod × Option E)
      → (delete_instances own respond pods).err ≡ none
      → (delete_instances own respond pods).has_result ≡ false
      → pods ≡ ([], none)
  unfolding delete_instances
  delete_instances_done (pods, some e) h k = absurd (some≢none h)
  delete_instances_done ([], none) h k = refl
  delete_instances_done (p ∷ [], none) h k =
      absurd (false≢true (sym k ∙ stop-has_result p (result false) refl))
  delete_instances_done (p ∷ q ∷ rest, none) h k =
      absurd (false≢true (sym k ∙ stop_all-has_result (p ∷ q ∷ rest) (result true) refl))

module _ {E : Type 0} (env : DeleteEnv E) where
  -- A write of handleDelete that has its turn: instances stop and Patroni's endpoints go only when the
  -- cluster is being deleted, the endpoints after the pods, and the finalizer after both.
  abbrev pub IsFinalTurn : Deletable → List Pod × Option E → ClusterWrite → Type 0
  IsFinalTurn cluster pods (scale c) = cluster.deleting ≡ true
  IsFinalTurn cluster pods delete_patroni_endpoints =
      (cluster.deleting ≡ true) × (pods ≡ ([], none))
  IsFinalTurn cluster pods (set_finalizers fs) =
      ((cluster.deleting ≡ false) × (has_finalizer fs ≡ true))
      ⊎ ((cluster.deleting ≡ true) × (pods ≡ ([], none)) × (env.delete_artifacts ≡ none))

  scaled-IsFinalTurn :
      (cluster : Deletable) (pods : List Pod × Option E) (cs : List Scaled)
      → cluster.deleting ≡ true
      → All (IsFinalTurn cluster pods) (map (λ c. scale c) cs)
  scaled-IsFinalTurn cluster pods [] d = tt
  scaled-IsFinalTurn cluster pods (c ∷ cs) d = (d, scaled-IsFinalTurn cluster pods cs d)

  remove_finalizer-IsFinalTurn :
      (cluster : Deletable) (pods : List Pod × Option E) (answer : Option E)
      → cluster.deleting ≡ true
      → pods ≡ ([], none)
      → env.delete_artifacts ≡ answer
      → All (IsFinalTurn cluster pods) (remove_finalizer env cluster.finalizers answer).writes
  unfolding remove_finalizer
  remove_finalizer-IsFinalTurn cluster pods (some e) d p a = ((d, p), tt)
  remove_finalizer-IsFinalTurn cluster pods none d p a = (inr (d, p, a), ((d, p), tt))

  after_instances-IsFinalTurn :
      (cluster : Deletable) (pods : List Pod × Option E) (err : Option E) (s : Stopping E)
      → cluster.deleting ≡ true
      → (err ≡ none → s.has_result ≡ false → pods ≡ ([], none))
      → All (IsFinalTurn cluster pods) (after_instances env cluster.finalizers err s).writes
  unfolding after_instances
  after_instances-IsFinalTurn cluster pods (some e) s d p =
      scaled-IsFinalTurn cluster pods s.scaled d
  after_instances-IsFinalTurn cluster pods none s d p =
      if_elim {A = Handled E} (λ h. All (IsFinalTurn cluster pods) h.writes) s.has_result
        (λ _. scaled-IsFinalTurn cluster pods s.scaled d)
        (λ n. remove_finalizer-IsFinalTurn cluster pods env.delete_artifacts d (p refl n) refl)

  after_instances-handled :
      (fs : List String) (err : Option E) (s : Stopping E)
      → (is_some (after_instances env fs err s).err
          || is_some (after_instances env fs err s).result)
        ≡ true
  unfolding after_instances remove_finalizer
  after_instances-handled fs (some e) s = refl
  after_instances-handled fs none s =
      if_elim {A = Handled E} (λ h. (is_some h.err || is_some h.result) ≡ true) s.has_result
        (λ _. refl) (λ _. removed env.delete_artifacts)
    where
      removed :
          (answer : Option E)
          → (is_some (remove_finalizer env fs answer).err
              || is_some (remove_finalizer env fs answer).result)
            ≡ true
      removed (some e) = refl
      removed none = ground arith

module _ {E : Type 0} ⦃errs : ApiErrors E⦄ ⦃os : OwnerReferences⦄ (env : DeleteEnv E)
    (own : OwnErrors E) (respond : Responses Scaled E) where
  -- A cluster that is not being deleted only gets the finalizer; one that is being deleted loses it
  -- only when the list of its pods was read and is empty, and what Patroni left was deleted without an
  -- error. Instances are stopped, and what Patroni left is deleted, only when the cluster is being
  -- deleted, and the latter after the pods are gone.
  pub handle_delete-IsFinalTurn :
      (cluster : Deletable) (pods : List Pod × Option E)
      → All (IsFinalTurn env cluster pods) (handle_delete env own respond cluster pods).writes
  unfolding handle_delete set_finalizer
  handle_delete-IsFinalTurn cluster pods =
      let s = delete_instances own respond pods in
      if_elim {A = Handled E} (λ h. All (IsFinalTurn env cluster pods) h.writes)
        (not cluster.deleting)
        (λ d.
          if_elim {A = Handled E} (λ h. All (IsFinalTurn env cluster pods) h.writes)
            (has_finalizer cluster.finalizers) (λ _. tt)
            (λ _. (inl (ground (arith, d), has_finalizer-append cluster.finalizers), tt)))
        (λ d.
          if_elim {A = Handled E} (λ h. All (IsFinalTurn env cluster pods) h.writes)
            (not (has_finalizer cluster.finalizers)) (λ _. tt)
            (λ _.
              after_instances-IsFinalTurn env cluster pods s.err s (ground (arith, d))
                (delete_instances_done own respond pods)))

  -- The caller goes on only with a cluster that is not being deleted.
  pub handle_delete-handled :
      (cluster : Deletable) (pods : List Pod × Option E)
      → cluster.deleting ≡ true
      → let h = handle_delete env own respond cluster pods in
        (is_some h.err || is_some h.result) ≡ true
  unfolding handle_delete
  handle_delete-handled cluster pods d =
      let s = delete_instances own respond pods in
      if_elim {A = Handled E} (λ h. (is_some h.err || is_some h.result) ≡ true)
        (not cluster.deleting) (λ n. absurd (false≢true (ground (arith, d, n))))
        (λ _.
          if_elim {A = Handled E} (λ h. (is_some h.err || is_some h.result) ≡ true)
            (not (has_finalizer cluster.finalizers)) (λ _. refl)
            (λ _. after_instances-handled env cluster.finalizers s.err s))
