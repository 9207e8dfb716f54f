-- ===== src/Backups/Created.antt =====
-- pgbackrest.go: reconcileStanzaCreate.

use ivory_operator.Backups.{
  cluster_writable, condition_replica_repo_ready, ◌∷◌, some, BackupState, BackupSpec, RepoStatus,
}
use ivory_operator.Instances.{Instance}
use ivory_operator.Kube.{Condition, StatusConditions}
use ivory_operator.Prelude.{
  ◌||◌, [], str_eq, false, if◌then◌else◌, any, true, none, map, not, Option, String, ℕ, Bool, List,
}

-- The first status of the name.
unfoldable pub repo_status_of : String → List RepoStatus → Option RepoStatus
repo_status_of name [] = none
repo_status_of name (s ∷ rest) =
    let later = repo_status_of name rest in if str_eq s.name name then some s else later

-- The condition that the deferred function sets, for the first status of the first repository.
unfoldable pub repo_ready : ℕ → Option RepoStatus → Condition
repo_ready generation none = record {
  type = condition_replica_repo_ready;
  status = "Unknown";
  reason = "RepoStatusMissing";
  message = "Status is missing for the replica creation repo";
  observed_generation = generation;
}
repo_ready generation (some s) =
    if s.stanza_created
    then record {
      type = condition_replica_repo_ready;
      status = "True";
      reason = "StanzaCreated";
      message = "pgBackRest replica create repo is ready for backups";
      observed_generation = generation;
    }
    else record {
      type = condition_replica_repo_ready;
      status = "False";
      reason = "StanzaNotCreated";
      message = "pgBackRest replica create repo is not ready for backups";
      observed_generation = generation;
    }

unfoldable pub stanzas_created : List RepoStatus → Bool
stanzas_created repos = not (any (λ (s : RepoStatus). not s.stanza_created) repos)

unfoldable pub mark_created : List RepoStatus → List RepoStatus
mark_created repos = map (λ (s : RepoStatus). record s { stanza_created = true }) repos

-- What is returned, the status, and the events, newest first.
pub record StanzaOutcome (E C : Type 0) : Type 0 where
  pub mismatch : Bool
  pub err : Option E
  pub state : BackupState C
  pub events : List String

unfoldable pub note_repo_ready :
    {C : Type 0} → ⦃sc : StatusConditions C⦄ → BackupSpec → BackupState C → BackupState C
unfolding repo_ready repo_status_of
note_repo_ready ⦃sc⦄ spec s = elim spec.repos [
  | [] ↦ s
  | repo ∷ rest ↦ record s {
    conditions =
        sc.set s.conditions (repo_ready spec.generation (repo_status_of repo.name s.repos));
  }
]

module _ {E C : Type 0} ⦃sc : StatusConditions C⦄ where
  -- What follows StanzaCreateOrUpgrade.
  unfoldable pub after_stanza : BackupState C → Bool × Option E → StanzaOutcome E C
  unfolding mark_created
  after_stanza s (mismatch, some e) = record {
    mismatch = false;
    err = some e;
    state = s;
    events = "UnableToCreateStanzas" ∷ [];
  }
  after_stanza s (mismatch, none) =
      if mismatch then record { mismatch = true; err = none; state = s; events = [] } else record {
        mismatch = false;
        err = none;
        state = record s { repos = mark_created s.repos };
        events = "StanzasCreated" ∷ [];
      }

  -- reconcileStanzaCreate, where StanzaCreateOrUpgrade returns.
  unfoldable pub reconcile_stanza_create :
      BackupSpec → List Instance → BackupState C → Bool × Option E → StanzaOutcome E C
  unfolding note_repo_ready after_stanza stanzas_created
  reconcile_stanza_create spec instances s answer =
      let out : StanzaOutcome E C =
        if not (cluster_writable instances) || stanzas_created s.repos
        then record { mismatch = false; err = none; state = s; events = [] }
        else after_stanza s answer in
      record out { state = note_repo_ready spec out.state }
