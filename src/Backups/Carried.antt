-- ===== src/Backups/Carried.antt =====
-- What getRepoVolumeStatus carries over.

use mathlib.Core.List.{Perm}
use ivory_operator.Backups.{label_pgbackrest_repo, ◌∷◌, RepoVolume, RepoStatus}
use ivory_operator.Backups.Repos.{
  renew_volume, updated_repo_status, volume_status, external_status, update_external, update_volume,
  get_repo_volume_status,
}
use ivory_operator.Prelude.{
  any-append, ◌∙◌, label, eq_iff, sym, if_elim, refl, All_of_none, [], arith, ◌∷◌, ◌||◌, false, not,
  All, true, str_eq, ◌≡◌, ◌&&◌, is_empty, map, Bool, Labels, List, String, any,
}
use ivory_operator.Prelude.Perms.{any-perm}

-- The old status vouches for the new: it is of the same repository, with the same volume or none
-- known, or with the same hash of the options.
abbrev pub vouches : RepoStatus → RepoStatus → Bool
vouches new old =
    str_eq old.name new.name
    && str_eq old.repo_options_hash new.repo_options_hash
    && (is_empty old.volume_name || str_eq old.volume_name new.volume_name)

-- A stanza or a backup that no old status vouches for.
abbrev pub is_unfounded : List RepoStatus → RepoStatus → Bool
is_unfounded olds new =
    (new.stanza_created && not (any (λ old. vouches new old && old.stanza_created) olds))
    || (new.replica_create_backup_complete
        && not (any (λ old. vouches new old && old.replica_create_backup_complete) olds))

abbrev unfounded_stanza : List RepoStatus → RepoStatus → Bool
unfounded_stanza olds new =
    new.stanza_created && not (any (λ old. vouches new old && old.stanza_created) olds)

abbrev unfounded_backup : List RepoStatus → RepoStatus → Bool
unfounded_backup olds new =
    new.replica_create_backup_complete
    && not (any (λ old. vouches new old && old.replica_create_backup_complete) olds)

any_later :
    (p : RepoStatus → Bool) (b : Bool) (s : RepoStatus) (rest : List RepoStatus)
    → (b && not (any p rest)) ≡ false
    → (b && not (any p (s ∷ rest))) ≡ false
unfolding any
any_later p b s rest h = ground arith

any_first :
    (p : RepoStatus → Bool) (b : Bool) (s : RepoStatus) (rest : List RepoStatus)
    → (b ≡ true → p s ≡ true)
    → (b && not (any p (s ∷ rest))) ≡ false
unfolding any
any_first p b s rest h = ground (arith, h)

module _ (repo : String) where
  vouched-update_volume :
      (v : RepoVolume) (s : RepoStatus)
      → is_empty s.repo_options_hash ≡ true
      → (update_volume repo v s).stanza_created ≡ true
      → (vouches (update_volume repo v s) s && s.stanza_created) ≡ true
  unfolding update_volume renew_volume
  vouched-update_volume v s e h =
      ground (arith, eq_iff s.name s.name, eq_iff s.repo_options_hash s.repo_options_hash)

  vouched_backup-update_volume :
      (v : RepoVolume) (s : RepoStatus)
      → is_empty s.repo_options_hash ≡ true
      → (update_volume repo v s).replica_create_backup_complete ≡ true
      → (vouches (update_volume repo v s) s && s.replica_create_backup_complete) ≡ true
  unfolding update_volume renew_volume
  vouched_backup-update_volume v s e h =
      ground (arith, eq_iff s.name s.name, eq_iff s.repo_options_hash s.repo_options_hash)

  founded-volume_status :
      (v : RepoVolume) (olds : List RepoStatus)
      → (unfounded_stanza olds (volume_status repo v olds) ≡ false)
        × (unfounded_backup olds (volume_status repo v olds) ≡ false)
  unfolding volume_status
  founded-volume_status v [] = (refl, refl)
  founded-volume_status v (s ∷ rest) =
      if_elim {A = RepoStatus}
        (λ r. (unfounded_stanza (s ∷ rest) r ≡ false) × (unfounded_backup (s ∷ rest) r ≡ false))
        (str_eq s.name (label label_pgbackrest_repo v.labels) && is_empty s.repo_options_hash)
        (λ h. (
          any_first _ _ s rest (vouched-update_volume v s (ground arith)),
          any_first _ _ s rest (vouched_backup-update_volume v s (ground arith)),
        ))
        (λ _.
          let (a, b) = founded-volume_status v rest in
          (any_later _ _ s rest a, any_later _ _ s rest b))

  vouched-update_external :
      (hash : String) (s : RepoStatus)
      → is_empty s.volume_name ≡ true
      → (update_external repo hash s).stanza_created ≡ true
      → (vouches (update_external repo hash s) s && s.stanza_created) ≡ true
  unfolding update_external
  vouched-update_external hash s e h = ground (arith, eq_iff s.name s.name)

  vouched_backup-update_external :
      (hash : String) (s : RepoStatus)
      → is_empty s.volume_name ≡ true
      → (update_external repo hash s).replica_create_backup_complete ≡ true
      → (vouches (update_external repo hash s) s && s.replica_create_backup_complete) ≡ true
  unfolding update_external
  vouched_backup-update_external hash s e h = ground (arith, eq_iff s.name s.name)

  founded-external_status :
      (name hash : String) (olds : List RepoStatus)
      → (unfounded_stanza olds (external_status repo name hash olds) ≡ false)
        × (unfounded_backup olds (external_status repo name hash olds) ≡ false)
  unfolding external_status
  founded-external_status name hash [] = (refl, refl)
  founded-external_status name hash (s ∷ rest) =
      if_elim {A = RepoStatus}
        (λ r. (unfounded_stanza (s ∷ rest) r ≡ false) × (unfounded_backup (s ∷ rest) r ≡ false))
        (str_eq s.name name && not s.bound && is_empty s.volume_name)
        (λ h. (
          any_first _ _ s rest (vouched-update_external hash s (ground arith)),
          any_first _ _ s rest (vouched_backup-update_external hash s (ground arith)),
        ))
        (λ _.
          let (a, b) = founded-external_status name hash rest in
          (any_later _ _ s rest a, any_later _ _ s rest b))

  founded-volumes :
      (olds : List RepoStatus) (volumes : List RepoVolume)
      → any (is_unfounded olds) (map (λ v. volume_status repo v olds) volumes) ≡ false
  unfolding any
  founded-volumes olds [] = refl
  founded-volumes olds (v ∷ rest) =
      let (a, b) = founded-volume_status v olds in ground (arith, founded-volumes olds rest, a, b)

  founded-externals :
      (olds : List RepoStatus) (hashes : Labels)
      → any
          (is_unfounded olds)
          (map (λ (e : String × String). external_status repo e.0 e.1 olds) hashes)
        ≡ false
  unfolding any
  founded-externals olds [] = refl
  founded-externals olds ((name, hash) ∷ rest) =
      let (a, b) = founded-external_status name hash olds in
      ground (arith, founded-externals olds rest, a, b)

-- A repository keeps the mark that its stanza was created, or that it has the backup for replicas,
-- only from a status of the same name with that mark, the same hash of the options, and the same
-- volume or none known: a repository that is new, has other options, or lies on another volume has
-- neither mark. This supposes that the sort permutes.
pub get_repo_volume_status-founded :
    (sort : List RepoStatus → List RepoStatus) (olds : List RepoStatus) (volumes : List RepoVolume)
    (hashes : Labels) (repo : String)
    → Perm
        (updated_repo_status olds volumes hashes repo)
        (sort (updated_repo_status olds volumes hashes repo))
    → All (λ s. is_unfounded olds s ≡ false) (get_repo_volume_status sort olds volumes hashes repo)
unfolding get_repo_volume_status updated_repo_status
get_repo_volume_status-founded sort olds volumes hashes repo perm =
    All_of_none (is_unfounded olds) _ (
      sym (any-perm (is_unfounded olds) perm)
      ∙ (any-append (is_unfounded olds) (map (λ v. volume_status repo v olds) volumes) _
          ∙ ground (arith, founded-volumes repo olds volumes, founded-externals repo olds hashes)))
