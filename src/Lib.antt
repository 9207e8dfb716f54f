-- ===== src/Lib.antt =====
-- The verification library of the Postgres Operator: models of its controllers' decisions and
-- theorems about them.
--
-- The operator runs controllers over the Kubernetes API. Each reconcile reads the objects that it
-- watches, decides, and writes. The models take the answers of the API as arguments (values that a
-- Get or a List returned, and a function that answers each write from the writes before it), so that
-- a theorem holds for every behaviour of the API server. Writes are recorded newest first. Parts of
-- objects that a controller only copies are held as opaque text.
--
-- Files and the code they model:
-- - Prelude: shared notation; Prelude/Texts has Go maps with string keys and `fmt.Sprintf`,
--   Prelude/Int the signed integers that the counts need, Prelude/Lists and Prelude/Perms the lemmas on
--   lists.
-- - Kube: interfaces to k8s.io/apimachinery and sigs.k8s.io/controller-runtime, with the behaviour
--   that their documentation promises: errors, status conditions, label sets, owner references.
-- - Upgrade and below: internal/controller/pgupgrade. Upgrade has the objects, Upgrade/Observe is
--   world.go (observeWorld and its parts), Upgrade/Jobs is jobs.go and utils.go, Upgrade/Effects and
--   Upgrade/Reconcile are pgupgrade_controller.go: Reconcile is cut into stages, each of which ends
--   or calls the next. The other modules hold proofs: Safety (when it writes), Success (when it
--   reports success), Progress (that it acts), Observed, Labelled and Order.
-- - Instances and below: internal/controller/postgrescluster/instance.go. Instances has the objects
--   and the tests on one instance (IsAvailable and so on), Instances/Observe is newObservedInstances,
--   writablePod, observeInstances and findAvailableInstanceNames, with the pointers that the Go code
--   shares as places in a list; Instances/Rollout is rolloutInstances,
--   Instances/Redeploy is rolloutInstance, Instances/Scale is podsToKeep
--   and scaleDownInstances, Instances/Stop is deleteInstances. The proofs are in Rolling, Keeping,
--   Stopped, Observing, Observed, Reuse and Writable.
-- - Ownership and below: internal/controller/postgrescluster/controller_ref_manager.go, with
--   claimObject as claim_object and manageControllerRefs as manage_controller_refs; Claims and Settling
--   are proofs.
-- - Postgres and Postgres/Parameters: internal/postgres/hba.go and parameters.go; Postgres/Access has the rules by which PostgreSQL picks a record.
-- - Patroni and below: internal/controller/postgrescluster/patroni.go (Patroni/Switchover is
--   reconcilePatroniSwitchover; Patroni/Restarts is handlePatroniRestarts, reconcilePatroniStatus and
--   reconcilePatroniDynamicConfiguration), internal/patroni/api.go (Patroni/Api) and
--   DynamicConfiguration of internal/patroni/config.go (Patroni/Config). Once, Restarting,
--   Lookups and Mandatory are proofs.
-- - Backups and below: internal/controller/postgrescluster/pgbackrest.go, for pgBackRest. Backups has the
--   objects and the labels of internal/naming; Backups/Stanza is StanzaCreateOrUpgrade of
--   internal/pgbackrest/pgbackrest.go, Backups/Created reconcileStanzaCreate, Backups/Repos
--   getRepoVolumeStatus, Backups/Manual reconcileManualBackup, Backups/Replica
--   reconcileReplicaCreateBackup, Backups/Job the end of those two. Their proofs are in Honest, Carried,
--   ManualDue, ManualKept, ReplicaOwed and ReplicaDue; OneJob has the two in the order of reconcilePGBackRest. Backups/Cleanup is
--   cleanupRepoResources and Backups/Gather getPGBackRestResources, with Spared, Unneeded,
--   Keeping and Needed as proofs.
-- - Bridge and below: internal/bridge. Bridge has the objects, Bridge/Client is client.go, Bridge/Reconcile
--   is installation.go: the singleton `self` is an argument and a result. Registration and Settling are
--   proofs.
-- - Restore: prepareForRestore of pgbackrest.go, with Restore/Ready as its proof; Restore/Decide is what
--   reconcileDataSource of cluster.go in the same directory decides, and Restore/Restored has the two
--   one after the other.
-- - Cluster and below: Reconcile of internal/controller/postgrescluster/controller.go and delete.go.
--   Cluster/Deletion is handleDelete; Cluster/Loop is Reconcile with its steps in order, each step an
--   answer that may depend on the status. Finalized and Ordered are proofs.
-- - Volumes and below: volumes.go in the same directory. Volumes/Resizing is the condition that
--   observePersistentVolumeClaims sets, Volumes/Existing configureExistingPVCs, Volumes/Moves the jobs
--   that move directories and Volumes/Moving reconcileDirMoveJobs, Volumes/Failures
--   handlePersistentVolumeClaimError and the searches for claims, Volumes/Claims and
--   Volumes/Tablespaces the claims of an instance, of postgres.go. Resized, Adopted, Moved, Reported and
--   Safe are proofs.
-- - Users and below: postgres.go in the same directory. Users/Secret is generatePostgresUserSecret,
--   Users/Secrets reconcilePostgresUserSecrets, Users/Revisions reconcilePostgresDatabases and
--   reconcilePostgresUsersInPostgreSQL. Alike, Verified, Kept and Settled are proofs.
-- - Samples: the theorems at concrete inputs, over small stand-ins for the interfaces.
--
-- Loops over lists and maps are structural recursion. On fuel run the printing of a number in decimal,
-- whose fuel is one more than the number, doWithRetry, which sends as long as the server delays it, and
-- StanzaCreateOrUpgrade, which has no bound of its own:
-- fuel above the number of calls that are answered by a mismatch of the databases is enough.
--
-- The order in which Go visits a map, the results of sort.Sort and of sets.String.List, and the calls
-- that redeploy or delete one instance are parameters; where it matters, a sort and a visit permute.
--
-- The API server's answers to the deletion and the claims of a cluster are functions of what is asked,
-- and a command run in a pod is one of its output and its error.
--
-- Not modelled: the shell commands of the upgrade jobs, SQL, certificates and proxies, logging, the
-- watches that enqueue reconciles, and the encoding of objects for the API.
pub mod Prelude
pub mod Kube
pub mod Upgrade
pub mod Instances
pub mod Ownership
pub mod Patroni
pub mod Cluster
pub mod Backups
pub mod Users
pub mod Volumes
pub mod Bridge
pub mod Restore
pub mod Postgres
pub mod Samples
