-- ===== src/Backups/Needed.antt =====
-- What getPGBackRestResources hands on to the reconcile that called it.

use ivory_operator.Backups.{◌∷◌}
use ivory_operator.Backups.Cleanup.{
  cleanup_repo_resources, ScheduledBackup, Cleaned, cleanup_from, Gathered, ResourcesEnv,
  RepoResources, ResourceKind, keep_resource, CleanupSpec, add_resources, RepoResource,
}
use ivory_operator.Backups.Gather.{
  converted, nothing_gathered, resource_kinds, add_listed, add_owned, gather_kinds,
  get_pgbackrest_resources, gather_kind,
}
use ivory_operator.Backups.Keeping.{
  keep_resource-IsNeeded, All-append, add_resources-AreNeeded, IsNeeded, AreNeeded,
}
use ivory_operator.Backups.Spared.{
  cleanup_from-failed, cleanup_from-deleted, cleanup_from-kept, List-cases,
}
use ivory_operator.Kube.{Answer-cases}
use ivory_operator.Prelude.{
  none, ap, ◌∙◌, some≢none, Option-cases, some, Option, sym, arith, subst, [], inr, inl, ◌≡◌, ◌++◌,
  List, All,
}

abbrev from_some : {A : Type 0} → A → Option A → A
from_some default none = default
from_some default (some x) = x

module _ {E : Type 0} (env : ResourcesEnv E) (spec : CleanupSpec) where
  cleanup_from-IsNeeded :
      (items owned deleted : List RepoResource)
      → All (IsNeeded spec) owned
      → All (IsNeeded spec) (cleanup_from env spec items owned deleted).owned
  unfolding cleanup_from
  cleanup_from-IsNeeded [] owned deleted before = before
  cleanup_from-IsNeeded (r ∷ rest) owned deleted before = elim (List-cases (keep_resource spec r)) [
    | inr (c, cs, e) ↦ back (cleanup_from-kept env spec r rest owned deleted c cs e) (
        cleanup_from-IsNeeded rest (owned ++ c ∷ cs) deleted (
          All-append (IsNeeded spec) owned (c ∷ cs) before
            (subst (All (IsNeeded spec)) e (keep_resource-IsNeeded spec r))))
    | inl e ↦ elim (Option-cases (env.delete deleted r)) [
      | inl ok ↦
          back (cleanup_from-deleted env spec r rest owned deleted e ok)
            (cleanup_from-IsNeeded rest owned (r ∷ deleted) before)
      | inr (err, bad) ↦ back (cleanup_from-failed env spec r rest owned deleted err e bad) tt
    ]
  ]
    where
      back : {x y : Cleaned E} → x ≡ y → All (IsNeeded spec) y.owned → All (IsNeeded spec) x.owned
      back e h = subst (λ (c : Cleaned E). All (IsNeeded spec) c.owned) (sym e) h

  -- The resources so far, where there are any.
  abbrev GathersNeeded : Gathered E → Type 0
  GathersNeeded g = (rs : RepoResources) → g.resources ≡ some rs → AreNeeded spec rs

  add_owned-GathersNeeded :
      (kind : ResourceKind) (g : Gathered E) (rs : RepoResources) (c : Cleaned E)
      → AreNeeded spec rs
      → All (IsNeeded spec) c.owned
      → GathersNeeded (add_owned env spec kind g rs c)
  unfolding add_owned
  add_owned-GathersNeeded kind g rs c before h now e = elim (Option-cases c.err) [
    | inr (err, bad) ↦ absurd (some≢none (sym e ∙ ground (arith, bad)))
    | inl ok ↦ elim (Option-cases (converted env spec kind c.owned)) [
      | inr (err, bad) ↦ absurd (some≢none (sym e ∙ ground (arith, ok, bad)))
      | inl fine ↦
          let step : (add_owned env spec kind g rs c).resources
              ≡ some (add_resources kind c.owned rs) =
            ground (arith, ok, fine) in
          subst (AreNeeded spec) (ap (from_some rs) (sym step ∙ e))
            (add_resources-AreNeeded spec kind c.owned rs h before)
    ]
  ]

  gather_kind-GathersNeeded :
      (kind : ResourceKind) (g : Gathered E)
      → GathersNeeded g
      → GathersNeeded (gather_kind env spec kind g)
  unfolding gather_kind add_listed cleanup_repo_resources
  gather_kind-GathersNeeded kind g before = elim (Option-cases g.resources) [
    | inl stopped ↦ same {next = g} (ground (arith, stopped)) before
    | inr (rs, going) ↦ elim (Answer-cases (env.list g.deleted kind)) [
      | inl (e, bad) ↦ λ now h. absurd (some≢none (sym h ∙ ground (arith, going, bad)))
      | inr (items, ok) ↦
          same {next = add_listed env spec kind g rs items} (ground (arith, going, ok))
            (add_listed-GathersNeeded items rs (before rs going))
    ]
  ]
    where
      same :
          {next : Gathered E}
          → gather_kind env spec kind g ≡ next
          → GathersNeeded next
          → GathersNeeded (gather_kind env spec kind g)
      same e h = subst GathersNeeded (sym e) h

      add_listed-GathersNeeded :
          (items : List RepoResource) (rs : RepoResources)
          → AreNeeded spec rs
          → GathersNeeded (add_listed env spec kind g rs items)
      add_listed-GathersNeeded [] rs h = before
      add_listed-GathersNeeded (r ∷ rest) rs h =
          add_owned-GathersNeeded kind g rs _ h (cleanup_from-IsNeeded (r ∷ rest) [] g.deleted tt)

  gather_kinds-GathersNeeded :
      (kinds : List ResourceKind) (g : Gathered E)
      → GathersNeeded g
      → GathersNeeded (gather_kinds env spec kinds g)
  unfolding gather_kinds
  gather_kinds-GathersNeeded [] g before = before
  gather_kinds-GathersNeeded (kind ∷ rest) g before =
      gather_kinds-GathersNeeded rest (gather_kind env spec kind g)
        (gather_kind-GathersNeeded kind g before)

  -- Whatever is listed and answered, all the volumes, hosts, CronJobs and jobs that are handed on are
  -- asked for by the specification; the jobs are in the list of the type that their label names.
  pub get_pgbackrest_resources-AreNeeded :
      (scheduled : Option (List ScheduledBackup)) (rs : RepoResources)
      → (get_pgbackrest_resources env spec scheduled).resources ≡ some rs
      → AreNeeded spec rs
  unfolding get_pgbackrest_resources
  get_pgbackrest_resources-AreNeeded scheduled =
      gather_kinds-GathersNeeded resource_kinds (nothing_gathered scheduled) (λ rs e.
        subst (AreNeeded spec) (ap (from_some rs) e) (record {
          first_backups = tt;
          manual_backups = tt;
          volumes = tt;
          hosts = tt;
          cronjobs = tt;
        }))
