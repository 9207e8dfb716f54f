-- ===== src/Backups/Unneeded.antt =====
-- What getPGBackRestResources deletes, over all the kinds.

use ivory_operator.Backups.Cleanup.{
  cron_job_list, stateful_set_list, secret_list, pvc_list, config_map_list, job_list, Cleaned,
  RepoResource, RepoResources, Gathered, ScheduledBackup, ResourceKind, cleanup_repo_resources,
  CleanupSpec, ResourcesEnv,
}
use ivory_operator.Backups.Gather.{
  converted, note_schedule, nothing_gathered, resource_kinds, add_listed, get_pgbackrest_resources,
  add_owned, gather_kind, gather_kinds,
}
use ivory_operator.Backups.Spared.{cleanup_from-IsUnneeded, IsUnneeded}
use ivory_operator.Kube.{found, Answer-cases}
use ivory_operator.Prelude.{
  refl, ◌⊎◌, ◌∙◌, ap, sym, arith, inl, subst, [], inr, ◌≡◌, ◌∷◌, Option-cases, All, List, Option,
}

module _ {E : Type 0} (env : ResourcesEnv E) (spec : CleanupSpec) where
  add_owned-deleted :
      (kind : ResourceKind) (g : Gathered E) (rs : RepoResources) (c : Cleaned E)
      → (add_owned env spec kind g rs c).deleted ≡ c.deleted
  unfolding add_owned
  add_owned-deleted kind g rs c = elim (Option-cases c.err) [
    | inr (e, bad) ↦ ground (arith, bad)
    | inl ok ↦ elim (Option-cases (converted env spec kind c.owned)) [
      | inr (e, bad) ↦ ground (arith, ok, bad)
      | inl fine ↦ ground (arith, ok, fine)
    ]
  ]

  add_listed-IsUnneeded :
      (kind : ResourceKind) (g : Gathered E) (rs : RepoResources) (items : List RepoResource)
      → All (IsUnneeded spec) g.deleted
      → All (IsUnneeded spec) (add_listed env spec kind g rs items).deleted
  unfolding add_listed cleanup_repo_resources
  add_listed-IsUnneeded kind g rs [] before = before
  add_listed-IsUnneeded kind g rs (r ∷ rest) before =
      subst (All (IsUnneeded spec))
        (sym (add_owned-deleted kind g rs (cleanup_repo_resources env spec (r ∷ rest) g.deleted)))
        (cleanup_from-IsUnneeded env spec (r ∷ rest) [] g.deleted before)

  gather_kind-IsUnneeded :
      (kind : ResourceKind) (g : Gathered E)
      → All (IsUnneeded spec) g.deleted
      → All (IsUnneeded spec) (gather_kind env spec kind g).deleted
  unfolding gather_kind
  gather_kind-IsUnneeded kind g before = elim (Option-cases g.resources) [
    | inl stopped ↦ same (ground (arith, stopped)) before
    | inr (rs, going) ↦ elim (Answer-cases (env.list g.deleted kind)) [
      | inl (e, bad) ↦ same (ground (arith, going, bad)) before
      | inr (items, ok) ↦
          same (ground (arith, going, ok)) (add_listed-IsUnneeded kind g rs items before)
    ]
  ]
    where
      same :
          {l : List RepoResource}
          → (gather_kind env spec kind g).deleted ≡ l
          → All (IsUnneeded spec) l
          → All (IsUnneeded spec) (gather_kind env spec kind g).deleted
      same e h = subst (All (IsUnneeded spec)) (sym e) h

  gather_kinds-IsUnneeded :
      (kinds : List ResourceKind) (g : Gathered E)
      → All (IsUnneeded spec) g.deleted
      → All (IsUnneeded spec) (gather_kinds env spec kinds g).deleted
  unfolding gather_kinds
  gather_kinds-IsUnneeded [] g before = before
  gather_kinds-IsUnneeded (kind ∷ rest) g before =
      gather_kinds-IsUnneeded rest (gather_kind env spec kind g)
        (gather_kind-IsUnneeded kind g before)

  -- Whatever is listed and answered, each object that is deleted is one that nothing asks for. By the
  -- first of its labels that counts it is no configuration; no part of the dedicated repository host
  -- while that is enabled, but for the objects of SSH; no volume of a repository that still has a volume;
  -- no backup for a repository of the specification; no CronJob of a schedule that the first repository
  -- of its name has; and no restore while the cluster is not bootstrapped.
  pub get_pgbackrest_resources-IsUnneeded :
      (scheduled : Option (List ScheduledBackup))
      → All (IsUnneeded spec) (get_pgbackrest_resources env spec scheduled).deleted
  unfolding get_pgbackrest_resources
  get_pgbackrest_resources-IsUnneeded scheduled =
      gather_kinds-IsUnneeded resource_kinds (nothing_gathered scheduled) tt

  -- The kinds whose round leaves the status of the scheduled backups alone.
  add_owned-scheduled :
      (kind : ResourceKind) (g : Gathered E) (rs : RepoResources) (c : Cleaned E)
      → ((items : List RepoResource) → note_schedule env spec kind items g.scheduled ≡ g.scheduled)
      → (add_owned env spec kind g rs c).scheduled ≡ g.scheduled
  unfolding add_owned
  add_owned-scheduled kind g rs c same = elim (Option-cases c.err) [
    | inr (e, bad) ↦ ground (arith, bad)
    | inl ok ↦ elim (Option-cases (converted env spec kind c.owned)) [
      | inr (e, bad) ↦ ground (arith, ok, bad)
      | inl fine ↦ ground (arith, ok, fine, same c.owned)
    ]
  ]

  -- All the kinds but that of jobs.
  note_schedule-other :
      (kind : ResourceKind) (old : Option (List ScheduledBackup))
      → (kind ≡ job_list)
        ⊎ ((items : List RepoResource) → note_schedule env spec kind items old ≡ old)
  unfolding note_schedule
  note_schedule-other job_list old = inl refl
  note_schedule-other config_map_list old = inr (λ items. refl)
  note_schedule-other pvc_list old = inr (λ items. refl)
  note_schedule-other secret_list old = inr (λ items. refl)
  note_schedule-other stateful_set_list old = inr (λ items. refl)
  note_schedule-other cron_job_list old = inr (λ items. refl)

  add_listed-scheduled :
      (kind : ResourceKind) (g : Gathered E) (rs : RepoResources) (items : List RepoResource)
      → ((owned : List RepoResource) → note_schedule env spec kind owned g.scheduled ≡ g.scheduled)
      → (add_listed env spec kind g rs items).scheduled ≡ g.scheduled
  unfolding add_listed
  add_listed-scheduled kind g rs [] same = refl
  add_listed-scheduled kind g rs (r ∷ rest) same =
      add_owned-scheduled kind g rs (cleanup_repo_resources env spec (r ∷ rest) g.deleted) same

  gather_kind-scheduled :
      (kind : ResourceKind) (g : Gathered E)
      → ((deleted : List RepoResource) → env.list deleted job_list ≡ found [])
      → (gather_kind env spec kind g).scheduled ≡ g.scheduled
  unfolding gather_kind add_listed
  gather_kind-scheduled kind g no_jobs = elim (Option-cases g.resources) [
    | inl stopped ↦ ground (arith, stopped)
    | inr (rs, going) ↦ elim (note_schedule-other kind g.scheduled) [
      | inl e ↦ ground (arith, going, ap (env.list g.deleted) e, no_jobs g.deleted)
      | inr same ↦ elim (Answer-cases (env.list g.deleted kind)) [
        | inl (e, bad) ↦ ground (arith, going, bad)
        | inr (items, ok) ↦ ground (arith, going, ok, add_listed-scheduled kind g rs items same)
      ]
    ]
  ]

  gather_kinds-scheduled :
      (kinds : List ResourceKind) (g : Gathered E)
      → ((deleted : List RepoResource) → env.list deleted job_list ≡ found [])
      → (gather_kinds env spec kinds g).scheduled ≡ g.scheduled
  unfolding gather_kinds
  gather_kinds-scheduled [] g no_jobs = refl
  gather_kinds-scheduled (kind ∷ rest) g no_jobs =
      gather_kinds-scheduled rest (gather_kind env spec kind g) no_jobs
      ∙ gather_kind-scheduled kind g no_jobs

  -- Where no job is listed, the status keeps the scheduled backups that it had, also of jobs that are gone.
  pub get_pgbackrest_resources-scheduled :
      (scheduled : Option (List ScheduledBackup))
      → ((deleted : List RepoResource) → env.list deleted job_list ≡ found [])
      → (get_pgbackrest_resources env spec scheduled).scheduled ≡ scheduled
  unfolding get_pgbackrest_resources
  get_pgbackrest_resources-scheduled scheduled no_jobs =
      gather_kinds-scheduled resource_kinds (nothing_gathered scheduled) no_jobs
