-- ===== src/Samples/Cleanup.antt =====
-- A cluster with one repository, a volume of it, and a volume of a repository that is gone.

use ivory_operator.Backups.{label_pgbackrest_repo, Repo}
use ivory_operator.Backups.Cleanup.{
  RepoResources, pvc_list, RepoResource, ResourcesEnv, CleanupSpec,
}
use ivory_operator.Backups.Gather.{get_pgbackrest_resources}
use ivory_operator.Backups.Keeping.{AreNeeded}
use ivory_operator.Backups.Needed.{get_pgbackrest_resources-AreNeeded}
use ivory_operator.Backups.Spared.{IsUnneeded}
use ivory_operator.Backups.Unneeded.{get_pgbackrest_resources-IsUnneeded}
use ivory_operator.Kube.{found}
use ivory_operator.Prelude.{some, refl, ◌≡◌, false, none, [], map, true, ◌∷◌, Labels, String, All}
use ivory_operator.Samples.Kube.{SampleError}
use ivory_operator.Volumes.Existing.{label_pgbackrest_repo_volume}

abbrev resource_with : String → Labels → RepoResource
resource_with name labels = record {
  name = name;
  labels = labels;
  owner_names = [];
  start_time = "";
  completion_time = "";
  active = 0;
  succeeded = 0;
  failed = 0;
}

abbrev volume_of : String → RepoResource
volume_of repo =
    resource_with repo ((label_pgbackrest_repo_volume, "") ∷ (label_pgbackrest_repo, repo) ∷ [])

abbrev repo_one : Repo
repo_one = record {
  name = "repo1";
  has_volume = true;
  full_schedule = none;
  differential_schedule = none;
  incremental_schedule = none;
  has_schedules = false;
}

abbrev sample_cleanup_spec : CleanupSpec
sample_cleanup_spec = record { cluster_name = "hippo"; repos = repo_one ∷ []; bootstrapped = true }

abbrev sample_resources_env : ResourcesEnv SampleError
sample_resources_env = record {
  list = λ deleted kind. elim kind [
    | pvc_list ↦ found (volume_of "repo1" ∷ volume_of "repo2" ∷ [])
    | _ ↦ found []
  ];
  delete = λ before r. none;
  convert = λ kind rs. none;
}

one_deleted_test :
    map
      (λ (r : RepoResource). r.name)
      (get_pgbackrest_resources sample_resources_env sample_cleanup_spec none).deleted
    ≡ "repo2" ∷ []
unfolding get_pgbackrest_resources
one_deleted_test = refl

get_pgbackrest_resources-IsUnneeded_example :
    All
      (IsUnneeded sample_cleanup_spec)
      (get_pgbackrest_resources sample_resources_env sample_cleanup_spec none).deleted
get_pgbackrest_resources-IsUnneeded_example =
    get_pgbackrest_resources-IsUnneeded sample_resources_env sample_cleanup_spec none

-- The resources of the sample: the volume that stays.
abbrev sample_gathered : RepoResources
sample_gathered = record {
  replica_create_backup_jobs = [];
  manual_backup_jobs = [];
  pvcs = volume_of "repo1" ∷ [];
  hosts = [];
  cronjobs = [];
}

gathers_sample :
    (get_pgbackrest_resources sample_resources_env sample_cleanup_spec none).resources
    ≡ some sample_gathered
unfolding get_pgbackrest_resources
gathers_sample = refl

get_pgbackrest_resources-AreNeeded_example : AreNeeded sample_cleanup_spec sample_gathered
get_pgbackrest_resources-AreNeeded_example =
    get_pgbackrest_resources-AreNeeded sample_resources_env sample_cleanup_spec none sample_gathered
      gathers_sample
