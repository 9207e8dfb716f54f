-- ===== src/Upgrade/Labelled.antt =====
-- The jobs that the controller builds, as its next reconcile recognises them.
use ivory_operator.Kube.{OwnerReferences, LabelSets}
use ivory_operator.Prelude.{
  subst, sym, is_some, if◌then◌else◌, Option, ◌∷◌, [], decimal, ◌++◌, true, All, length, refl, ◌∙◌,
  get_or, ap, some, none, ◌≡◌, lookup, String, Labels, label,
}
use ivory_operator.Upgrade.{
  Container, PodTemplate, label_version, pg_upgrade, remove_data, label_role, label_cluster,
  label_pg_upgrade, StatefulSet, Job, PgUpgrade,
}
use ivory_operator.Upgrade.Jobs.{
  job_template, set_controller_reference, common_labels, build_job, pg_upgrade_job,
  generate_upgrade_job, generate_remove_data_job,
}

module _ ⦃ls : LabelSets⦄ (a b : Labels) (k : String) where
  label-merge_last : {v : String} → lookup k b ≡ some v → label k (ls.merge a b) ≡ v
  unfolding label
  label-merge_last h = ap (λ o. get_or o "") (ls.lookup-merge a b k) ∙ rw h refl

  label-merge_before : lookup k b ≡ none → label k (ls.merge a b) ≡ label k a
  unfolding label
  label-merge_before h = ap (λ o. get_or o "") (ls.lookup-merge a b k) ∙ rw h refl

-- What a job that the controller builds carries, whatever the metadata of the upgrade.
pub record IsOwnJob (u : PgUpgrade) (role : String) (j : Job) : Type 0 where
  pub of_upgrade : label label_pg_upgrade j.labels ≡ u.name
  pub of_cluster : label label_cluster j.labels ≡ u.postgres_cluster_name
  pub has_role : label label_role j.labels ≡ role
  pub in_namespace : j.namespace ≡ u.namespace
  pub once : j.backoff_limit ≡ some 0
  pub never_restarts : j.template.restart_policy ≡ "Never"
  pub same_labels : j.template.labels ≡ j.labels
  pub one_container : length j.template.containers ≡ 1
  pub owned : All (λ r. (r.uid ≡ u.uid) × (r.controller ≡ true)) j.owners
  pub one_owner : length j.owners ≡ 1

some_cancel : {A : Type 0} {a b : A} → some a ≡ some b → a ≡ b
some_cancel e = cc

none≢some : {A : Type 0} {a : A} → none ≡ some a → ⊥
none≢some e = cc

-- A job with the upgrade as its owner.
abbrev own : PgUpgrade → Job → Job
own u job = record job {
  owners =
      job.owners
      ++ record {
        api_version = "postgres-operator.crunchydata.com/v1beta1";
        kind = "PGUpgrade";
        name = u.name;
        uid = u.uid;
        controller = true;
        block_owner_deletion = true;
      }
        ∷ [];
}

pub set_controller_reference_fresh :
    ⦃os : OwnerReferences⦄ (u : PgUpgrade) (job : Job)
    → job.owners ≡ []
    → set_controller_reference u job ≡ some (own u job)
unfolding set_controller_reference
set_controller_reference_fresh ⦃os⦄ u job e =
    ap (λ o. if is_some o then none else some (own u job))
      (ap os.controller_of e ∙ os.controller_of-nil)

-- The same of any labels and name that the builder is given.
record IsBuilt (u : PgUpgrade) (name : String) (labels : Labels) (j : Job) : Type 0 where
  named : j.name ≡ name
  labelled : j.labels ≡ labels
  in_namespace : j.namespace ≡ u.namespace
  once : j.backoff_limit ≡ some 0
  never_restarts : j.template.restart_policy ≡ "Never"
  same_labels : j.template.labels ≡ j.labels
  one_container : length j.template.containers ≡ 1
  owned : All (λ r. (r.uid ≡ u.uid) × (r.controller ≡ true)) j.owners
  one_owner : length j.owners ≡ 1

build_job-IsBuilt :
    ⦃os : OwnerReferences⦄ (getenv : String → String) (u : PgUpgrade) (name : String)
    (labels : Labels) (t : PodTemplate) (o : Option Container) (j : Job)
    → build_job getenv u name labels t o ≡ some j
    → IsBuilt u name labels j
unfolding build_job
build_job-IsBuilt getenv u name labels t none j h = absurd (none≢some h)
build_job-IsBuilt ⦃os⦄ getenv u name labels t (some d) j h =
    subst (IsBuilt u name labels) (some_cancel built) (record {
      named = refl;
      labelled = refl;
      in_namespace = refl;
      once = refl;
      never_restarts = refl;
      same_labels = refl;
      one_container = refl;
      owned = ((refl, refl), tt);
      one_owner = refl;
    })
  where
    job : Job
    job = record {
      namespace = u.namespace;
      name = name;
      labels = labels;
      annotations = u.metadata_annotations;
      owners = [];
      backoff_limit = some 0;
      template = job_template getenv u labels t d;
      conditions = [];
    }

    built : some (own u job) ≡ some j
    built = sym (set_controller_reference_fresh u job refl) ∙ h

module _ ⦃ls : LabelSets⦄ ⦃os : OwnerReferences⦄ (getenv : String → String) (u : PgUpgrade)
    (sts : StatefulSet) (j : Job) where
  -- A job that generateUpgradeJob returns is named as the next reconcile looks it up, runs once, has
  -- one container and one owner, the upgrade as controller, and carries the labels of the upgrade,
  -- its cluster and its role even where the upgrade's metadata sets them otherwise.
  pub generate_upgrade_job-IsOwnJob :
      generate_upgrade_job getenv u sts ≡ some j
      → (j.name ≡ pg_upgrade_job u) × IsOwnJob u pg_upgrade j
  unfolding generate_upgrade_job lookup
  generate_upgrade_job-IsOwnJob h =
      let b = build_job-IsBuilt getenv u (pg_upgrade_job u) _ sts.template _ j h in
      (b.named, owns b)
    where
      version : Labels
      version = (label_version, decimal u.to_version) ∷ []

      first : Labels
      first = ls.merge [] u.metadata_labels

      owns :
          IsBuilt u
            (pg_upgrade_job u)
            (ls.merge (ls.merge first (common_labels pg_upgrade u)) version)
            j
          → IsOwnJob u pg_upgrade j
      owns b = record {
        of_upgrade =
            ap (label label_pg_upgrade) b.labelled
            ∙ label-merge_before _ version _ refl
            ∙ label-merge_last first (common_labels pg_upgrade u) label_pg_upgrade refl;
        of_cluster =
            ap (label label_cluster) b.labelled
            ∙ label-merge_before _ version _ refl
            ∙ label-merge_last first (common_labels pg_upgrade u) label_cluster refl;
        has_role =
            ap (label label_role) b.labelled
            ∙ label-merge_before _ version _ refl
            ∙ label-merge_last first (common_labels pg_upgrade u) label_role refl;
        in_namespace = b.in_namespace;
        once = b.once;
        never_restarts = b.never_restarts;
        same_labels = b.same_labels;
        one_container = b.one_container;
        owned = b.owned;
        one_owner = b.one_owner;
      }

  -- A job that generateRemoveDataJob returns runs once, has one container and one owner, the upgrade
  -- as controller, and carries the labels of the upgrade, its cluster and its role even where the
  -- upgrade's metadata sets them otherwise.
  pub generate_remove_data_job-IsOwnJob :
      generate_remove_data_job getenv u sts ≡ some j → IsOwnJob u remove_data j
  unfolding generate_remove_data_job lookup
  generate_remove_data_job-IsOwnJob h =
      let b =
        build_job-IsBuilt getenv u _ (ls.merge u.metadata_labels (common_labels remove_data u))
          sts.template _ j h in
      record {
        of_upgrade =
            ap (label label_pg_upgrade) b.labelled
            ∙ label-merge_last u.metadata_labels (common_labels remove_data u) label_pg_upgrade
                refl;
        of_cluster =
            ap (label label_cluster) b.labelled
            ∙ label-merge_last u.metadata_labels (common_labels remove_data u) label_cluster refl;
        has_role =
            ap (label label_role) b.labelled
            ∙ label-merge_last u.metadata_labels (common_labels remove_data u) label_role refl;
        in_namespace = b.in_namespace;
        once = b.once;
        never_restarts = b.never_restarts;
        same_labels = b.same_labels;
        one_container = b.one_container;
        owned = b.owned;
        one_owner = b.one_owner;
      }
