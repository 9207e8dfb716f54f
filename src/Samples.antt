-- ===== src/Samples.antt =====
-- Concrete inputs: the theorems at values that meet their hypotheses, and small tests.
mod Backups
mod Bridge
mod Cluster
mod Kube
mod Instances
mod Ownership
mod Patroni
mod Postgres
mod Restore
mod Upgrade
mod Volumes
mod Users
mod Cleanup
mod Claims
