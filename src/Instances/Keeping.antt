-- ===== src/Instances/Keeping.antt =====
-- What scaling down keeps.

use mathlib.Core.Bool.{false≢true}
use mathlib.Core.List.{Perm, Memᴰ}
use ivory_operator.Instances.{SetSpec, Instance, label_instance_set, ◌∷◌, Pod}
use ivory_operator.Instances.Scale.{
  instance_of, cluster_pods, scale_down_instances, want_of, delete_pods, delete_extra, is_in_set,
  is_master, pods_to_keep, keep_in_set, fill,
}
use ivory_operator.Kube.{Responses}
use ivory_operator.Prelude.{
  any_of_Memᴰ, any-map, any-filter, count_of_Memᴰ, any-append, length-append, leb, ◌==◌,
  if◌then◌else◌, ◌+◌, none, is_none, lookup-insert, false, Option, ◌<◌, some≢none, count, inr,
  eq_iff, inl, Bool-cases, sym, length, refl, ap, [], not, ◌∙◌, label, arith, if_elim, ◌||◌, ◌++◌,
  ◌&&◌, ltb, some, true, List, ◌≡◌, str_eq, ℕ, GoMap, filter, Bool, String, lookup, any,
}
use ivory_operator.Prelude.Perms.{any-perm}

any-fill :
    (q : Pod → Bool) (pods : List Pod) (want : ℕ) (keep : List Pod)
    → any q keep ≡ true
    → any q (fill pods want keep) ≡ true
unfolding fill
any-fill q [] want keep h = h
any-fill q (p ∷ rest) want keep h = any-fill q rest want _ (
    if_elim {A = List Pod} (λ l. any q l ≡ true) (not (is_master p) && ltb (length keep) want)
      (λ _. any-append q keep (p ∷ []) ∙ ground arith) (λ _. h))

any-keep_in_set :
    (q : Pod → Bool) (pods : List Pod) (want : ℕ)
    → ltb 0 want ≡ true
    → any (λ p. is_master p && q p) pods ≡ true
    → any q (keep_in_set pods want) ≡ true
unfolding keep_in_set
any-keep_in_set q pods want w h = any-fill q pods want _ (
    if_elim {A = List Pod} (λ l. any q l ≡ true) (ltb 0 want) (λ _. any-filter q is_master pods ∙ h)
      (λ e. absurd (false≢true (sym e ∙ w))))

-- The map wants pods of this set.
abbrev pub wants : String → String × ℕ → Bool
wants set e = str_eq e.0 set && ltb 0 e.1

any-pods_to_keep :
    (q : Pod → Bool) (pods : List Pod) (p : Pod) (want : GoMap ℕ)
    → Memᴰ p pods
    → is_master p ≡ true
    → q p ≡ true
    → any (wants (label label_instance_set p.labels)) want ≡ true
    → any q (pods_to_keep pods want) ≡ true
unfolding pods_to_keep any
any-pods_to_keep q pods p [] m h k w = absurd (false≢true w)
any-pods_to_keep q pods p ((name, num) ∷ rest) m h k w =
    any-append q (keep_in_set (filter (is_in_set name) pods) num) (pods_to_keep pods rest)
    ∙ elim (Bool-cases (wants (label label_instance_set p.labels) (name, num))) [
      | inl e ↦
          ap (λ b. b || any q (pods_to_keep pods rest))
            (any-keep_in_set q (filter (is_in_set name) pods) num (ground arith) (
              any-filter (λ x. is_master x && q x) (is_in_set name) pods
              ∙ any_of_Memᴰ (λ x. is_in_set name x && (is_master x && q x)) pods m
                  (ground (
                    arith,
                    eq_iff name (label label_instance_set p.labels),
                    eq_iff (label label_instance_set p.labels) name,
                  ))))
      | inr e ↦ ground (arith, any-pods_to_keep q pods p rest m h k (ground arith))
    ]

any_of_lookup :
    (set : String) (want : GoMap ℕ) (n : ℕ)
    → lookup set want ≡ some n
    → ltb 0 n ≡ true
    → any (wants set) want ≡ true
unfolding lookup any
any_of_lookup set [] n h k = absurd (some≢none (sym h))
any_of_lookup set ((name, m) ∷ rest) n h k = ground (arith, any_of_lookup set rest n)

any-delete_pods :
    {E : Type 0} (respond : Responses String E) (name : String) (names : List String)
    (pods : List Pod) (s : Option E × List String)
    → any (str_eq name) names ≡ true
    → any (str_eq name) s.1 ≡ false
    → any (str_eq name) (delete_pods respond names pods s).1 ≡ false
unfolding delete_pods any
any-delete_pods respond name names [] s k h = h
any-delete_pods {E} respond name names (p ∷ rest) s k h =
    any-delete_pods respond name names rest _ k (
      if_elim {A = List String} (λ l. any (str_eq name) l ≡ false)
        (is_none s.0 && not (any (str_eq (instance_of p)) names))
        (λ c. elim (Bool-cases (str_eq name (instance_of p))) [
          | inl e ↦ absurd (
              false≢true (
                ground (arith, ap (λ n. any (str_eq n) names) ((eq_iff name (instance_of p)).0 e))))
          | inr e ↦ ground arith
        ])
        (λ _. h))

any-delete_extra :
    {E : Type 0} (respond : Responses String E) (name : String) (names : List String)
    (is : List Instance) (s : Option E × List String)
    → any (str_eq name) names ≡ true
    → any (str_eq name) s.1 ≡ false
    → any (str_eq name) (delete_extra respond names is s).1 ≡ false
unfolding delete_extra
any-delete_extra respond name names [] s k h = h
any-delete_extra respond name names (i ∷ rest) s k h =
    any-delete_extra respond name names rest _ k (any-delete_pods respond name names i.pods s k h)

lt_irrefl_at : {n : ℕ} → 0 < n → n ≡ 0 → ⊥
lt_irrefl_at h e = omega arith

lookup-want_of :
    (name : String) (sets : List SetSpec) (want : GoMap ℕ)
    → count (λ s. str_eq s.name name) sets ≡ 0
    → lookup name (want_of sets want) ≡ lookup name want
unfolding want_of count
lookup-want_of name [] want h = refl
lookup-want_of name (s ∷ rest) want h =
    lookup-want_of name rest _ (ground arith)
    ∙ (lookup-insert s.name name s.replicas want ∙ ground arith)

lookup-want_of-Memᴰ :
    (name : String) (sets : List SetSpec) (s : SetSpec) (want : GoMap ℕ)
    → Memᴰ s sets
    → str_eq s.name name ≡ true
    → count (λ t. str_eq t.name name) sets ≡ 1
    → lookup name (want_of sets want) ≡ some s.replicas
unfolding want_of count
lookup-want_of-Memᴰ name [] s want m e h = elim m [ ]
lookup-want_of-Memᴰ name (t ∷ rest) s want (Memᴰ.head q) e h =
    lookup-want_of name rest _ (ground (arith, ap (λ (u : SetSpec). str_eq u.name name) q))
    ∙ (lookup-insert t.name name t.replicas want
        ∙ ground
            (arith, ap (λ (u : SetSpec). str_eq u.name name) q, ap (λ (u : SetSpec). u.replicas) q))
lookup-want_of-Memᴰ name (t ∷ rest) s want (Memᴰ.tail m) e h =
    elim (Bool-cases (str_eq t.name name)) [
      | inl k ↦
          absurd (lt_irrefl_at (count_of_Memᴰ (λ u. str_eq u.name name) rest m e) (ground arith))
      | inr k ↦ lookup-want_of-Memᴰ name rest s _ m e (ground arith)
    ]

module _ {E : Type 0} (visit : GoMap ℕ → GoMap ℕ) (respond : Responses String E)
    (sets : List SetSpec) (is : List Instance) where
  -- Scaling down never deletes the instance of a pod that is the Patroni leader while its instance
  -- set is in the specification, once, with at least one replica, when range visits each entry of
  -- a map once.
  pub scale_down_instances-primary :
      (p : Pod) (s : SetSpec)
      → Memᴰ p (cluster_pods is)
      → is_master p ≡ true
      → Memᴰ s sets
      → is_in_set s.name p ≡ true
      → count (λ t. str_eq t.name s.name) sets ≡ 1
      → 0 < s.replicas
      → Perm (want_of sets []) (visit (want_of sets []))
      → any (str_eq (instance_of p)) (scale_down_instances visit respond sets is).1 ≡ false
  unfolding scale_down_instances any
  scale_down_instances-primary p s m lead ms own once more perm =
      any-delete_extra respond (instance_of p) _ is (none, [])
        (any-map (str_eq (instance_of p)) instance_of
            (pods_to_keep (cluster_pods is) (visit (want_of sets [])))
          ∙ any-pods_to_keep (λ x. str_eq (instance_of p) (instance_of x)) (cluster_pods is) p _ m
              lead ((eq_iff (instance_of p) (instance_of p)).1 refl)
              (sym (any-perm (wants (label label_instance_set p.labels)) perm)
                ∙ any_of_lookup (label label_instance_set p.labels) (want_of sets []) s.replicas
                    (ap (λ n. lookup n (want_of sets []))
                        ((eq_iff (label label_instance_set p.labels) s.name).0 own)
                      ∙ lookup-want_of-Memᴰ s.name sets s [] ms ((eq_iff s.name s.name).1 refl)
                          once)
                    (ground arith)))
        refl

abbrev others : List Pod → ℕ
others = count (λ p. not (is_master p))

length-fill :
    (pods : List Pod) (want : ℕ) (keep : List Pod)
    → length (fill pods want keep) ≡ (
        if leb (length keep + others pods) want
        then length keep + others pods
        else if leb want (length keep)
        then length keep
        else want)
unfolding fill count
length-fill [] want keep = ground arith
length-fill (p ∷ rest) want keep = ground (
  arith,
  length-fill rest want keep,
  length-fill rest want (keep ++ p ∷ []),
  length-append keep (p ∷ []),
)

length-filter-others :
    (pods : List Pod) → length (filter is_master pods) + others pods ≡ length pods
unfolding filter count
length-filter-others [] = omega arith
length-filter-others (p ∷ rest) = ground (arith, length-filter-others rest)

-- Of the pods of one set, none is kept when none is wanted. Otherwise as many are kept as are
-- wanted, but no more than there are, and no fewer than there are Patroni leaders.
pub keep_in_set-length :
    (pods : List Pod) (want : ℕ)
    → length (keep_in_set pods want) ≡ (
        if want == 0
        then 0
        else if leb want (length (filter is_master pods))
        then length (filter is_master pods)
        else if leb (length pods) want
        then length pods
        else want)
unfolding keep_in_set
keep_in_set-length pods want = ground (
  arith,
  length-fill pods want (filter is_master pods),
  length-fill pods want [],
  length-filter-others pods,
)
