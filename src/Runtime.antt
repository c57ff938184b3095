-- ===== src/Runtime.antt =====
-- The configuration of the proxy (src/runtime.rs): what the file holds, and what is published of it.
-- `UriOps` is `axum::http::Uri`, and `in_soft_range` the test `(0.0..1.0).contains` of `f64`.
pub mod Config
pub mod Plain
pub mod Accepted
pub mod InUse
pub mod Apply
pub mod Reload
pub mod Applied
pub mod Instances
pub mod Published
mod Tests
use mistralrs_proxy.Prelude.{ℕ, Bool, Option, List, Str}
use mistralrs_proxy.Prelude.Maps.{Map}
use mistralrs_proxy.Backend.Slot.{BackendSpec}
use mistralrs_proxy.Backend.Registry.{BackendRegistry}

abbrev pub runtime_schema_version : ℕ
runtime_schema_version = 1

-- `RoutingPolicy` of the source has the one variant `LeastPressureV1`.
pub data RoutingPolicy : Type 0 where
  least_pressure_v1 : RoutingPolicy

pub record RoutingConfig (F : Type 0) : Type 0 where
  pub policy : RoutingPolicy
  pub kv_soft_limit : F

pub record TelemetryConfig : Type 0 where
  pub scrape_interval_ms : ℕ
  pub scrape_timeout_ms : ℕ
  pub stale_after_ms : ℕ

pub record ReadinessConfig : Type 0 where
  pub probe_interval_ms : ℕ
  pub probe_timeout_ms : ℕ
  pub success_threshold : ℕ
  pub failure_threshold : ℕ

pub record RegistrationConfig : Type 0 where
  pub enabled : Bool
  pub max_keys : Option ℕ

pub record OpenWebUiConfig : Type 0 where
  pub key_name : Option Str

pub record Backend (U : Type 0) : Type 0 where
  pub id : Str
  pub url : U
  pub metrics_url : U
  pub readiness_url : U
  pub capacity : Option ℕ

pub record RuntimeConfig (U F : Type 0) : Type 0 where
  pub backends : List (Backend U)
  pub routing : RoutingConfig F
  pub telemetry : TelemetryConfig
  pub readiness : ReadinessConfig
  pub registration : RegistrationConfig
  pub openwebui : OpenWebUiConfig

pub record BackendFile : Type 0 where
  pub id : Str
  pub url : Str
  pub metrics_url : Option Str
  pub readiness_url : Option Str
  pub capacity : Option ℕ

pub record RuntimeFile (F : Type 0) : Type 0 where
  pub schema_version : ℕ
  pub backends : List BackendFile
  pub routing : RoutingConfig F
  pub telemetry : TelemetryConfig
  pub readiness : ReadinessConfig
  pub registration : RegistrationConfig
  pub openwebui : OpenWebUiConfig

-- `build` takes a scheme, an authority and a path.
pub record UriOps (U : Type 0) : Type 0 where
  pub parse : Str → Option U
  pub scheme : U → Option Str
  pub authority : U → Option Str
  pub path : U → Str
  pub query : U → Option Str
  pub build : Str → Str → Str → Option U
  pub to_string : U → Str
  pub uri_eq : U → U → Bool

pub record PublishedRuntime (U F : Type 0) : Type 0 where
  pub config : RuntimeConfig U F
  pub revision : ℕ
  pub backend_generations : Map ℕ
  pub next_backend_generation : ℕ

pub record RuntimeState (U F : Type 0) : Type 0 where
  pub inner : PublishedRuntime U F
  pub registry : BackendRegistry

-- `Backend::registry_spec`.
unfoldable pub registry_spec : {U : Type 0} → UriOps U → Backend U → BackendSpec
registry_spec uris b = record { id = b.id; endpoint = uris.to_string b.url }
