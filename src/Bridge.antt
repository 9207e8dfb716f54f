-- ===== src/Bridge.antt =====
-- internal/bridge/installation.go: what is registered with the API of Crunchy Bridge, and the secret
-- that holds it. Times count nanoseconds from the zero time; the bytes of the secret are text.
pub mod Client
pub mod Reconcile
pub mod Registration
pub mod Settling
use ivory_operator.Prelude.{none, some, ◌≡◌, lookup, ℕ, Labels, String}

-- AuthObject
pub record AuthObject : Type 0 where
  pub id : String
  pub expires_at : ℕ
  pub secret : String

-- Installation
pub record Installation : Type 0 where
  pub id : String
  pub auth_object : AuthObject

abbrev pub no_installation : Installation
no_installation = record { id = ""; auth_object = record { id = ""; expires_at = 0; secret = "" } }

-- corev1.Secret, as far as it is read; `managed` is what only ExtractSecret reads.
pub record Secret : Type 0 where
  pub namespace : String
  pub name : String
  pub resource_version : String
  pub entries_of : Labels
  pub managed : String

-- KeyBridgeToken and KeyBridgeLocalTime
abbrev pub key_bridge_token : String
key_bridge_token = "bridge-token"

abbrev pub key_bridge_local_time : String
key_bridge_local_time = "bridge-local-time"

-- SecretApplyConfiguration of k8s.io/client-go, `W`: WithData puts the entries into the field Data and
-- overwrites those with the same key.
pub record SecretWrites (W : Type 0) : Type 0 where
  pub data_of : W → Labels
  pub with_data : W → Labels → W
  pub with_resource_version : W → String → W
  pub lookup-with_data :
      (w : W) (m : Labels) (k : String)
      → lookup k (data_of (with_data w m))
        ≡ (elim (lookup k m) [ none ↦ lookup k (data_of w) | some v ↦ some v ])

-- The calls of a reconcile.
pub data BridgeCall (W : Type 0) : Type 0 where
  create_installation : BridgeCall W
  create_auth_object : AuthObject → BridgeCall W
  patch : W → BridgeCall W
