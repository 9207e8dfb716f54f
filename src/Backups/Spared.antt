-- ===== src/Backups/Spared.antt =====
-- Which pgBackRest resources getPGBackRestResources deletes, and which it hands on.

use mathlib.Core.List.{append_assoc, append-nil}
use ivory_operator.Backups.{
  dedicated_repo_host_enabled, backup_schedule_found, label_pgbackrest_repo,
  label_pgbackrest_backup, Repo,
}
use ivory_operator.Backups.Cleanup.{
  pgbackrest_ssh_secret, for_schedule, pgbackrest_ssh_config, label_pgbackrest_restore,
  label_pgbackrest_cron_job, label_pgbackrest_config, label_pgbackrest_dedicated, Cleaned,
  RepoResource, repo_of, cleanup_from, CleanupSpec, keep_resource, has_label, ResourcesEnv,
  for_repos,
}
use ivory_operator.Prelude.{
  concat, lookup, if◌then◌else◌, is_some, Option, String, label, some≢none, not, ◌||◌, ◌∙◌,
  Option-cases, inr, sym, ap, str_eq, refl, inl, arith, subst, some, ◌&&◌, ◌++◌, ◌⊎◌, All, none, [],
  Bool, ◌∷◌, false, any, ◌≡◌, List,
}
use ivory_operator.Volumes.Existing.{label_pgbackrest_repo_volume}

-- The first repository of a name.
unfoldable pub first_named : String → List Repo → Option Repo
first_named name [] = none
first_named name (repo ∷ rest) =
    let later = first_named name rest in if str_eq repo.name name then some repo else later

-- The schedule of a CronJob is that of the first repository of the name on its label.
unfoldable pub is_scheduled_by : List Repo → RepoResource → Bool
unfolding first_named label
is_scheduled_by repos r = elim (first_named (label label_pgbackrest_repo r.labels) repos) [
  | none ↦ false
  | some repo ↦ backup_schedule_found repo (label label_pgbackrest_cron_job r.labels)
]

-- What makes a resource be asked for, by the first of its labels: a configuration always; a part of the
-- dedicated repository host while it is enabled, save the configuration and the secret of SSH; the
-- volume of a repository that has a volume; a backup for a repository; a CronJob with a schedule; a
-- restore before the cluster is bootstrapped.
unfoldable pub is_needed : CleanupSpec → RepoResource → Bool
unfolding label any is_scheduled_by
is_needed spec r =
    let dedicated = is_some (lookup label_pgbackrest_dedicated r.labels) in
    let volume = is_some (lookup label_pgbackrest_repo_volume r.labels) in
    let backup = is_some (lookup label_pgbackrest_backup r.labels) in
    let cron_job = is_some (lookup label_pgbackrest_cron_job r.labels) in
    let restore = is_some (lookup label_pgbackrest_restore r.labels) in
    let named = label label_pgbackrest_repo r.labels in
    is_some (lookup label_pgbackrest_config r.labels)
    || dedicated
      && (dedicated_repo_host_enabled spec.repos
          && not (str_eq r.name (concat (spec.cluster_name ∷ "-ssh-config" ∷ [])))
          && not (str_eq r.name (concat (spec.cluster_name ∷ "-ssh" ∷ []))))
    || not dedicated
      && (volume && any (λ (repo : Repo). repo.has_volume && str_eq repo.name named) spec.repos
          || not volume
            && (backup && any (λ (repo : Repo). str_eq repo.name named) spec.repos
                || not backup
                  && (cron_job && is_scheduled_by spec.repos r
                      || not cron_job && (restore && not spec.bootstrapped))))

abbrev pub IsUnneeded : CleanupSpec → RepoResource → Type 0
IsUnneeded spec r = is_needed spec r ≡ false

-- A loop over the repositories appends nothing exactly when none fits, and only the resource.
for_repos-any :
    (fits : Repo → Bool) (repos : List Repo) (r : RepoResource)
    → for_repos fits repos r ≡ []
    → any fits repos ≡ false
unfolding for_repos any
for_repos-any fits [] r e = refl
for_repos-any fits (repo ∷ rest) r e = ground (arith, for_repos-any fits rest r)

for_schedule-is_scheduled_by :
    (repos : List Repo) (r : RepoResource)
    → for_schedule repos r ≡ []
    → is_scheduled_by repos r ≡ false
unfolding for_schedule is_scheduled_by first_named repo_of
for_schedule-is_scheduled_by [] r e = refl
for_schedule-is_scheduled_by (repo ∷ rest) r e = ground (arith, for_schedule-is_scheduled_by rest r)

keep_resource-IsUnneeded :
    (spec : CleanupSpec) (r : RepoResource) → keep_resource spec r ≡ [] → IsUnneeded spec r
unfolding keep_resource is_needed has_label repo_of pgbackrest_ssh_config pgbackrest_ssh_secret
keep_resource-IsUnneeded spec r e =
    let volume =
      for_repos-any (λ (repo : Repo). repo.has_volume && str_eq repo.name (repo_of r)) spec.repos
        r in
    let backup = for_repos-any (λ (repo : Repo). str_eq repo.name (repo_of r)) spec.repos r in
    ground (arith, volume, backup, for_schedule-is_scheduled_by spec.repos r)

pub List-cases : {A : Type 0} → (l : List A) → (l ≡ []) ⊎ ((c : A) × (cs : List A) × (l ≡ c ∷ cs))
List-cases [] = inl refl
List-cases (c ∷ cs) = inr (c, cs, refl)

-- What is kept of a list, and what is deleted, newest first.
unfoldable pub kept_resources : CleanupSpec → List RepoResource → List RepoResource
kept_resources spec [] = []
kept_resources spec (r ∷ rest) = keep_resource spec r ++ kept_resources spec rest

unfoldable pub delete_resources :
    CleanupSpec → List RepoResource → List RepoResource → List RepoResource
delete_resources spec [] deleted = deleted
delete_resources spec (r ∷ rest) deleted =
    delete_resources spec rest (elim (keep_resource spec r) [ [] ↦ r ∷ deleted | c ∷ cs ↦ deleted ])

module _ {E : Type 0} (env : ResourcesEnv E) (spec : CleanupSpec) where
  -- The three ways of a round.
  pub cleanup_from-deleted :
      (r : RepoResource) (rest owned deleted : List RepoResource)
      → keep_resource spec r ≡ []
      → env.delete deleted r ≡ none
      → cleanup_from env spec (r ∷ rest) owned deleted
        ≡ cleanup_from env spec rest owned (r ∷ deleted)
  unfolding cleanup_from
  cleanup_from-deleted r rest owned deleted e ok = ground (arith, e, ok)

  pub cleanup_from-failed :
      (r : RepoResource) (rest owned deleted : List RepoResource) (err : E)
      → keep_resource spec r ≡ []
      → env.delete deleted r ≡ some err
      → cleanup_from env spec (r ∷ rest) owned deleted
        ≡ record { owned = []; err = some err; deleted = r ∷ deleted }
  unfolding cleanup_from
  cleanup_from-failed r rest owned deleted err e bad = ground (arith, e, bad)

  pub cleanup_from-kept :
      (r : RepoResource) (rest owned deleted : List RepoResource) (c : RepoResource)
      (cs : List RepoResource)
      → keep_resource spec r ≡ c ∷ cs
      → cleanup_from env spec (r ∷ rest) owned deleted
        ≡ cleanup_from env spec rest (owned ++ c ∷ cs) deleted
  unfolding cleanup_from
  cleanup_from-kept r rest owned deleted c cs e = ground (arith, e)

  pub cleanup_from-IsUnneeded :
      (items owned deleted : List RepoResource)
      → All (IsUnneeded spec) deleted
      → All (IsUnneeded spec) (cleanup_from env spec items owned deleted).deleted
  unfolding cleanup_from
  cleanup_from-IsUnneeded [] owned deleted before = before
  cleanup_from-IsUnneeded (r ∷ rest) owned deleted before =
      elim (List-cases (keep_resource spec r)) [
        | inr (c, cs, e) ↦
            back (cleanup_from-kept r rest owned deleted c cs e)
              (cleanup_from-IsUnneeded rest (owned ++ c ∷ cs) deleted before)
        | inl e ↦
            let here = keep_resource-IsUnneeded spec r e in
            elim (Option-cases (env.delete deleted r)) [
              | inl ok ↦
                  back (cleanup_from-deleted r rest owned deleted e ok)
                    (cleanup_from-IsUnneeded rest owned (r ∷ deleted) (here, before))
              | inr (err, bad) ↦
                  back (cleanup_from-failed r rest owned deleted err e bad) (here, before)
            ]
      ]
    where
      back :
          {x y : Cleaned E}
          → x ≡ y
          → All (IsUnneeded spec) y.deleted
          → All (IsUnneeded spec) x.deleted
      back e h = subst (λ (c : Cleaned E). All (IsUnneeded spec) c.deleted) (sym e) h

  delete_resources-deleted :
      (r : RepoResource) (rest deleted : List RepoResource)
      → keep_resource spec r ≡ []
      → delete_resources spec (r ∷ rest) deleted ≡ delete_resources spec rest (r ∷ deleted)
  unfolding delete_resources
  delete_resources-deleted r rest deleted e = ground (arith, e)

  delete_resources-kept :
      (r : RepoResource) (rest deleted : List RepoResource) (c : RepoResource)
      (cs : List RepoResource)
      → keep_resource spec r ≡ c ∷ cs
      → delete_resources spec (r ∷ rest) deleted ≡ delete_resources spec rest deleted
  unfolding delete_resources
  delete_resources-kept r rest deleted c cs e = ground (arith, e)

  abbrev pub cleaned_all : List RepoResource → List RepoResource → Cleaned E
  cleaned_all owned deleted = record { owned = owned; err = none; deleted = deleted }

  -- Unless a deletion fails, what is kept and what is deleted are all that is listed, in order.
  pub cleanup_from-all :
      (items owned deleted : List RepoResource)
      → (cleanup_from env spec items owned deleted).err ≡ none
      → cleanup_from env spec items owned deleted
        ≡ cleaned_all (owned ++ kept_resources spec items) (delete_resources spec items deleted)
  unfolding cleanup_from kept_resources delete_resources
  cleanup_from-all [] owned deleted ok = ap (λ l. cleaned_all l deleted) (sym (append-nil owned))
  cleanup_from-all (r ∷ rest) owned deleted ok = elim (List-cases (keep_resource spec r)) [
    | inr (c, cs, e) ↦
        let step = cleanup_from-kept r rest owned deleted c cs e in
        step
        ∙ cleanup_from-all rest (owned ++ c ∷ cs) deleted
            (ap (λ (x : Cleaned E). x.err) (sym step) ∙ ok)
        ∙ (λ i.
            cleaned_all (append_assoc owned (c ∷ cs) (kept_resources spec rest) i)
              (sym (delete_resources-kept r rest deleted c cs e) i))
        ∙ ap
            (λ l.
              cleaned_all (owned ++ (l ++ kept_resources spec rest))
                (delete_resources spec (r ∷ rest) deleted))
            (sym e)
    | inl e ↦ elim (Option-cases (env.delete deleted r)) [
      | inl answered ↦
          let step = cleanup_from-deleted r rest owned deleted e answered in
          step
          ∙ cleanup_from-all rest owned (r ∷ deleted)
              (ap (λ (x : Cleaned E). x.err) (sym step) ∙ ok)
          ∙ ap (cleaned_all (owned ++ kept_resources spec rest))
              (sym (delete_resources-deleted r rest deleted e))
          ∙ ap
              (λ l.
                cleaned_all (owned ++ (l ++ kept_resources spec rest))
                  (delete_resources spec (r ∷ rest) deleted))
              (sym e)
      | inr (err, bad) ↦ absurd (
          some≢none (
            ap (λ (x : Cleaned E). x.err) (sym (cleanup_from-failed r rest owned deleted err e bad))
            ∙ ok))
    ]
  ]
