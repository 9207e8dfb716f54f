-- ===== src/Samples/Bridge.antt =====
-- A registration with an empty secret, and the reconcile after it.
use mathlib.Core.List.{Memᴰ}
use ivory_operator.Bridge.{
  create_installation, key_bridge_local_time, key_bridge_token, Installation, no_installation,
  patch, Secret, SecretWrites,
}
use ivory_operator.Bridge.Client.{installation_result, reply, ClientEnv}
use ivory_operator.Bridge.Reconcile.{
  reconcile_installation, stored_installation, stamped, reconcile_secret, BridgeEnv, dated_key,
}
use ivory_operator.Bridge.Registration.{reconcile_installation-AllDue, AllDue}
use ivory_operator.Bridge.Settling.{reconcile_secret-settles, quiet}
use ivory_operator.Kube.{failed, found}
use ivory_operator.Prelude.{
  insert, concat, arith, ap, none, sym, ◌∷◌, refl, false, some, ◌≡◌, if◌then◌else◌, subst, [],
  str_eq, label, Labels, is_empty, String,
}
use ivory_operator.Samples.Kube.{sample_errors, merge_in, sample_labels, other, SampleError}

instance abbrev pub sample_writes : SecretWrites Labels
sample_writes = record {
  data_of = λ w. w;
  with_data = merge_in;
  with_resource_version = λ w v. w;
  lookup-with_data = sample_labels.lookup-merge;
}

abbrev installation_named : String → Installation
installation_named name = record {
  id = name;
  auth_object = record { id = "auth"; expires_at = 200; secret = "secret" };
}

abbrev bridge_client : ClientEnv SampleError
bridge_client = record {
  read_auth_object = λ s. failed other;
  read_installation = λ s. found (installation_named s);
  authentication_failed = λ s. other;
  unexpected = λ a b. other;
  malformed = λ e s. e;
}

abbrev bridge_env : BridgeEnv SampleError Labels
bridge_env = record {
  extract = λ s. found [];
  read_installation = λ s. if str_eq s "" then none else some (installation_named s);
  show_installation = λ i. i.id;
  read_time = λ s. if str_eq s "" then none else some 99;
  show_time = λ t. "noon";
  format_date = λ t. "--2024-01-01";
  jitter = λ d. d;
  client = bridge_client;
  auth_reply =
      λ a. reply (record { status_code = 401; status = "401"; retry_after = 0; body = "" });
  installation_reply =
      reply (record { status_code = 200; status = "200"; retry_after = 0; body = "abc" });
  send_patch = λ w. none;
  refresh_interval = 50;
  now = 100;
}

abbrev no_secret : Secret
no_secret = record {
  namespace = "ns";
  name = "bridge";
  resource_version = "";
  entries_of = [];
  managed = "";
}

abbrev written : Labels
written = merge_in [] (stamped bridge_env (installation_named "abc"))

abbrev written_secret : Secret
written_secret = record no_secret { entries_of = written }

registered : reconcile_secret bridge_env no_installation no_secret ≡ record {
  err = none;
  requeue = false;
  requeue_after = 0;
  memory = installation_named "abc";
  calls = patch written ∷ create_installation ∷ [];
}
unfolding reconcile_secret label installation_result
registered = refl

expired_undated :
    (str_eq
      (dated_key bridge_env (stored_installation bridge_env ((key_bridge_token, "old") ∷ [])))
      key_bridge_token)
    ≡ false
unfolding dated_key concat
expired_undated = refl

empty_undated :
    (str_eq (dated_key bridge_env (stored_installation bridge_env [])) key_bridge_token) ≡ false
unfolding dated_key concat
empty_undated = refl

-- The token in the secret has expired.
reconcile_installation-AllDue_example :
    AllDue bridge_env no_installation ((key_bridge_token, "old") ∷ []) (
      reconcile_installation bridge_env "ns" "bridge" no_installation
        (found (record no_secret { entries_of = (key_bridge_token, "old") ∷ [] })))
reconcile_installation-AllDue_example =
    reconcile_installation-AllDue bridge_env "ns" "bridge" no_installation
      (found (record no_secret { entries_of = (key_bridge_token, "old") ∷ [] })) expired_undated

written_member : Memᴰ (patch written) (reconcile_secret bridge_env no_installation no_secret).calls
written_member = subst (λ o. Memᴰ (patch written) o.calls) (sym registered) (Memᴰ.head refl)

named_memory : is_empty (reconcile_secret bridge_env no_installation no_secret).memory.id ≡ false
named_memory = ap (λ o. is_empty o.memory.id) registered

written_time : label key_bridge_local_time written ≡ "noon"
unfolding label stamped insert
written_time = refl

shown_memory :
    bridge_env.read_installation
      (bridge_env.show_installation (reconcile_secret bridge_env no_installation no_secret).memory)
    ≡ some (reconcile_secret bridge_env no_installation no_secret).memory
unfolding reconcile_secret label installation_result
shown_memory = refl

reconcile_secret-settles_example :
    reconcile_secret
      (record bridge_env { now = 120 })
      (reconcile_secret bridge_env no_installation no_secret).memory
      written_secret
    ≡ quiet
        (record bridge_env { now = 120 })
        (reconcile_secret bridge_env no_installation no_secret).memory
        99
reconcile_secret-settles_example =
    reconcile_secret-settles bridge_env no_installation no_secret written written_secret [] 99 120
      empty_undated written_member named_memory written_time shown_memory refl refl refl
      (omega arith) (omega arith)
