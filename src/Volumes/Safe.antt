-- ===== src/Volumes/Safe.antt =====
-- When reconcilePostgresWALVolume deletes the claim of a WAL.
use Prim.Native.String.{count, ◌++◌ as append}
use mathlib.Core.Bool.{true≢false}
use text.Mathlib.TextLemmas.{length-append}
use ivory_operator.Instances.{role_postgres_wal, Pod, Instance}
use ivory_operator.Kube.{failed, Answer, found, ApiErrors, StatusConditions, LabelSets}
use ivory_operator.Prelude.{
  refl, Labels, sym, ◌∙◌, ◌&&◌, List, if_elim, is_none, ap, arith, eq_iff, true, inl, inr, some,
  Bool-cases, All, decimal, is_some, none, if◌then◌else◌, Option, String, false, ℕ, ◌≡◌, str_eq,
  concat,
}
use ivory_operator.Volumes.{Pvc}
use ivory_operator.Volumes.Claims.{
  instance_postgres_wal_volume, claim_intent, settle_wal, with_wal_name, claim_labels, ClaimOutcome,
  ClaimIntent, write_claim, remove_wal, reconcile_postgres_wal_volume, wal_pod, delete_claim,
  read_wal, apply_claim, ClaimWrite, ClaimFound, delete_wal, ClaimsEnv, InstanceClaims,
  wal_directory, claim_name,
}
use ivory_operator.Volumes.Failures.{get_pg_pvc_name, VolumeErrors}

wal_directory_given : (spec : InstanceClaims) → str_eq "" (wal_directory spec) ≡ false
unfolding wal_directory concat
wal_directory_given spec =
    let storage : String = if is_some spec.wal_claim then "/pgwal" else "/pgdata" in
    let rest : String = append (decimal spec.postgres_version) (append "_wal" "") in
    elim (Bool-cases (str_eq "" (wal_directory spec))) [
      | inr e ↦ e
      | inl e ↦
          let same : "" ≡ wal_directory spec = (eq_iff "" (wal_directory spec)).0 e in
          absurd (
            omega (
              arith,
              ap count same,
              length-append storage (append "/pg" rest),
              length-append "/pg" rest,
            ))
    ]

-- A claim is applied only with a spec for the WAL. A claim is deleted only without one, where the cluster
-- controls it and nothing else deletes it, and where the one pod of the instance has said, without an
-- error, that its WAL is in the directory of a WAL without a volume.
abbrev pub IsSafeWrite :
    {E : Type 0} → ClaimsEnv E → InstanceClaims → Option Instance → ClaimWrite → Type 0
IsSafeWrite env spec observed (apply_claim intent) = spec.wal_claim ≡ some intent.spec
IsSafeWrite env spec observed (delete_claim name) =
    (spec.wal_claim ≡ none)
    × (env.get name ≡ found (record { deleting = false; controlled = true }))
    × (pod : Pod) × (wal_pod observed ≡ some pod)
    × ((env.exec pod).1 ≡ none)
    × (str_eq (env.trim (env.exec pod).0) (wal_directory spec) ≡ true)

-- Only a pod gives a directory.
read_wal-pod :
    {E : Type 0} (env : ClaimsEnv E) (spec : InstanceClaims) (o : Option Pod)
    → is_none (read_wal env o).1 ≡ true
    → str_eq (read_wal env o).0 (wal_directory spec) ≡ true
    → (pod : Pod) × (o ≡ some pod)
      × ((env.exec pod).1 ≡ none)
      × (str_eq (env.trim (env.exec pod).0) (wal_directory spec) ≡ true)
unfolding read_wal
read_wal-pod env spec none ok there = absurd (true≢false (sym there ∙ wal_directory_given spec))
read_wal-pod env spec (some pod) ok there = (pod, refl, ground arith, there)

module _ {E C : Type 0} ⦃ls : LabelSets⦄ ⦃sc : StatusConditions C⦄ ⦃errs : ApiErrors E⦄
    (env : ClaimsEnv E) (errors : VolumeErrors E) (generation : ℕ) (spec : InstanceClaims) where
  delete_wal-IsSafeWrite :
      (cs : C) (name : String) (claim : ClaimFound) (observed : Option Instance)
      → spec.wal_claim ≡ none
      → env.get name ≡ found claim
      → claim.deleting ≡ false
      → All
          (IsSafeWrite env spec observed)
          (delete_wal env errors generation spec cs name claim
            (read_wal env (wal_pod observed))).writes
  unfolding delete_wal
  delete_wal-IsSafeWrite cs name claim observed no_spec got kept =
      let read = read_wal env (wal_pod observed) in
      if_elim {A = ClaimOutcome E C} (λ o. All (IsSafeWrite env spec observed) o.writes)
        (is_none read.1 && str_eq read.0 (wal_directory spec))
        (λ there.
          if_elim {A = ClaimOutcome E C} (λ o. All (IsSafeWrite env spec observed) o.writes)
            claim.controlled
            (λ ours.
              let (pod, only, ok, said) =
                read_wal-pod env spec (wal_pod observed) (ground arith) (ground arith) in
              (
                (
                  no_spec,
                  got ∙ ap found (λ i. record { deleting = kept i; controlled = ours i }),
                  pod,
                  only,
                  ok,
                  said,
                ),
                tt,
              ))
            (λ other. tt))
        (λ elsewhere. tt)

  remove_wal-IsSafeWrite :
      (cs : C) (name : String) (observed : Option Instance) (answer : Answer E ClaimFound)
      → spec.wal_claim ≡ none
      → env.get name ≡ answer
      → All
          (IsSafeWrite env spec observed)
          (remove_wal env errors generation spec cs name observed answer).writes
  unfolding remove_wal
  remove_wal-IsSafeWrite cs name observed (failed e) no_spec got = tt
  remove_wal-IsSafeWrite cs name observed (found claim) no_spec got =
      if_elim {A = ClaimOutcome E C} (λ o. All (IsSafeWrite env spec observed) o.writes)
        claim.deleting (λ going. tt)
        (λ kept. delete_wal-IsSafeWrite cs name claim observed no_spec got kept)

  write_claim-IsSafeWrite :
      (cs : C) (intent : ClaimIntent) (observed : Option Instance) (answer : Option E)
      → spec.wal_claim ≡ some intent.spec
      → All
          (IsSafeWrite env spec observed)
          (write_claim env errors generation spec cs intent answer).writes
  unfolding write_claim
  write_claim-IsSafeWrite cs intent observed (some e) given = tt
  write_claim-IsSafeWrite cs intent observed none given = (given, tt)

  settle_wal-IsSafeWrite :
      (cs : C) (name : String) (labels : Labels) (observed : Option Instance)
      (claim : Option String)
      → spec.wal_claim ≡ claim
      → All
          (IsSafeWrite env spec observed)
          (settle_wal env errors generation spec cs name labels observed claim).writes
  unfolding settle_wal
  settle_wal-IsSafeWrite cs name labels observed none given =
      remove_wal-IsSafeWrite cs name observed (env.get name) given refl
  settle_wal-IsSafeWrite cs name labels observed (some claim_spec) given =
      let intent = claim_intent spec name labels claim_spec in
      write_claim-IsSafeWrite cs intent observed (env.set_controller intent) given

  with_wal_name-IsSafeWrite :
      (cs : C) (labels : Labels) (observed : Option Instance) (selected : String × Option E)
      → All
          (IsSafeWrite env spec observed)
          (with_wal_name env errors generation spec cs labels observed selected).writes
  unfolding with_wal_name
  with_wal_name-IsSafeWrite cs labels observed (existing, some e) = tt
  with_wal_name-IsSafeWrite cs labels observed (existing, none) =
      settle_wal-IsSafeWrite cs
        (claim_name existing (instance_postgres_wal_volume spec.instance_name)) labels observed
        spec.wal_claim refl

  -- The claim of a WAL is applied only where a WAL volume is specified. It is deleted only where none is
  -- specified, where the cluster controls the claim and nothing else deletes it, and where the database
  -- runs in the one pod of the instance, which has said without an error that the WAL is in the
  -- directory in which it is kept.
  pub reconcile_postgres_wal_volume-IsSafeWrite :
      (cs : C) (volumes : List Pvc) (observed : Option Instance)
      → All
          (IsSafeWrite env spec observed)
          (reconcile_postgres_wal_volume env errors generation spec cs volumes observed).writes
  unfolding reconcile_postgres_wal_volume
  reconcile_postgres_wal_volume-IsSafeWrite cs volumes observed =
      let labels = claim_labels spec role_postgres_wal "postgres" in
      with_wal_name-IsSafeWrite cs labels observed (get_pg_pvc_name (env.select labels) volumes)
