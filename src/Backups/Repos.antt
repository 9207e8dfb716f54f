-- ===== src/Backups/Repos.antt =====
-- pgbackrest.go: getRepoVolumeStatus.

use ivory_operator.Backups.{◌∷◌, label_pgbackrest_repo, RepoStatus, RepoVolume}
use ivory_operator.Prelude.{
  [], ◌||◌, ◌++◌, if◌then◌else◌, map, is_empty, str_eq, label, ◌&&◌, false, Labels, not, String,
  List,
}

-- A volume that is another one than before has no stanza and no backup.
unfoldable pub renew_volume : RepoVolume → RepoStatus → RepoStatus
renew_volume v s =
    let changed = not (is_empty s.volume_name) && not (str_eq s.volume_name v.volume_name) in
    record s {
      volume_name = v.volume_name;
      stanza_created = if changed then false else s.stanza_created;
      replica_create_backup_complete = if changed then false else s.replica_create_backup_complete;
    }

-- The status of a volume, from one that is there. The code sets RepoOptionsHash to "" where it is
-- that already.
unfoldable pub update_volume : String → RepoVolume → RepoStatus → RepoStatus
unfolding renew_volume
update_volume replica_create_repo v s =
    let other =
      (s.replica_create_backup_complete && not (str_eq s.name replica_create_repo))
      || not (is_empty s.repo_options_hash) in
    renew_volume v (record s {
      replica_create_backup_complete = if other then false else s.replica_create_backup_complete;
      repo_options_hash = if other then "" else s.repo_options_hash;
      bound = str_eq v.phase "Bound";
    })

-- The first status of the name, for a volume, or a new one.
unfoldable pub volume_status : String → RepoVolume → List RepoStatus → RepoStatus
unfolding update_volume
volume_status replica_create_repo v [] = record {
  name = label label_pgbackrest_repo v.labels;
  bound = str_eq v.phase "Bound";
  volume_name = v.volume_name;
  stanza_created = false;
  replica_create_backup_complete = false;
  repo_options_hash = "";
}
volume_status replica_create_repo v (s ∷ rest) =
    let later = volume_status replica_create_repo v rest in
    if str_eq s.name (label label_pgbackrest_repo v.labels) && is_empty s.repo_options_hash
    then update_volume replica_create_repo v s
    else later

-- The status of an external repository, from one that is there.
unfoldable pub update_external : String → String → RepoStatus → RepoStatus
update_external replica_create_repo hash s =
    let other = s.replica_create_backup_complete && not (str_eq s.name replica_create_repo) in
    let changed = not (str_eq s.repo_options_hash hash) in
    record s {
      repo_options_hash = hash;
      stanza_created = if changed then false else s.stanza_created;
      replica_create_backup_complete =
          if changed || other then false else s.replica_create_backup_complete;
    }

unfoldable pub external_status : String → String → String → List RepoStatus → RepoStatus
unfolding update_external
external_status replica_create_repo name hash [] = record {
  name = name;
  bound = false;
  volume_name = "";
  stanza_created = false;
  replica_create_backup_complete = false;
  repo_options_hash = hash;
}
external_status replica_create_repo name hash (s ∷ rest) =
    let later = external_status replica_create_repo name hash rest in
    if str_eq s.name name && not s.bound && is_empty s.volume_name
    then update_external replica_create_repo hash s
    else later

-- Before the sort; the hashes are in the order in which range visits them.
unfoldable pub updated_repo_status :
    List RepoStatus → List RepoVolume → Labels → String → List RepoStatus
unfolding volume_status external_status
updated_repo_status old volumes hashes replica_create_repo =
    map (λ v. volume_status replica_create_repo v old) volumes
    ++ map (λ (e : String × String). external_status replica_create_repo e.0 e.1 old) hashes

-- getRepoVolumeStatus. `sort` is sort.Slice by name.
unfoldable pub get_repo_volume_status :
    (List RepoStatus → List RepoStatus)
    → List RepoStatus
    → List RepoVolume
    → Labels
    → String
    → List RepoStatus
unfolding updated_repo_status
get_repo_volume_status sort old volumes hashes replica_create_repo =
    sort (updated_repo_status old volumes hashes replica_create_repo)
