-- ===== src/Routing.antt =====
-- The live state of the backends and the routing on it (src/routing.rs): the types that the parts
-- share. Instants and durations are numbers of nanoseconds; `f64` is the type `F`.
pub mod Breaker
pub mod Health
pub mod Pressure
pub mod Select
pub mod Status
pub mod Statuses
pub mod Request
mod Tests
use mistralrs_proxy.Prelude.{ℕ, Bool, true, false, Option, none, some, Str}

pub data ReadinessState : Type 0 where
  checking ready unready unreachable : ReadinessState

pub data TelemetryState : Type 0 where
  fresh stale unavailable : TelemetryState

pub data CircuitState : Type 0 where
  closed open_state half_open : CircuitState

pub data BackendDisplayState : Type 0 where
  disabled draining checking unreachable unready circuit_open probing degraded ready :
      BackendDisplayState

pub data ReadinessFailureKind : Type 0 where
  unready unreachable : ReadinessFailureKind

-- From src/telemetry.rs.
pub record KvCacheMetrics : Type 0 where
  pub used : ℕ
  pub total : ℕ

pub record MistralRsMetrics (F : Type 0) : Type 0 where
  pub sequences_running : ℕ
  pub sequences_waiting : ℕ
  pub sequences_capacity : Option ℕ
  pub kv_cache : Option KvCacheMetrics
  pub tokens_processed_total : Option F
  pub prefill_tokens_processed_total : Option F
  pub decode_tokens_processed_total : Option F
  pub sequences_completed_total : Option F

pub record MetricsObservation (F : Type 0) : Type 0 where
  pub metrics : MistralRsMetrics F
  pub observed_at : ℕ
  pub dispatches_at_observation : ℕ
  pub scrape_serial : ℕ

pub record MetricsScrapeContext : Type 0 where
  pub serial : ℕ
  pub dispatches_at_observation : ℕ
  pub observed_at : ℕ

pub data Circuit : Type 0 where
  closed : Circuit
  open_until : ℕ → Circuit
  half_open : Bool → Circuit

pub record LiveBackend (F : Type 0) : Type 0 where
  pub topology_generation : ℕ
  pub readiness : ReadinessState
  pub readiness_successes : ℕ
  pub readiness_failures : ℕ
  pub readiness_error : Option Str
  pub readiness_checked_at : Option ℕ
  pub metrics : Option (MetricsObservation F)
  pub metrics_error : Option Str
  pub metrics_attempted_at : Option ℕ
  pub metrics_generation : ℕ
  pub metrics_scrapes_started : ℕ
  pub metrics_last_completed_scrape : ℕ
  pub engine_idle_streak : ℕ
  pub token_rate : Option F
  pub previous_token_counter : Option (F × ℕ)
  pub prefill_token_rate : Option F
  pub previous_prefill_counter : Option (F × ℕ)
  pub decode_token_rate : Option F
  pub previous_decode_counter : Option (F × ℕ)
  pub circuit : Circuit
  pub circuit_epoch : ℕ
  pub consecutive_request_failures : ℕ

unfoldable pub new_live : {F : Type 0} → ℕ → LiveBackend F
new_live topology_generation = record {
  topology_generation = topology_generation;
  readiness = ReadinessState.checking;
  readiness_successes = 0;
  readiness_failures = 0;
  readiness_error = none;
  readiness_checked_at = none;
  metrics = none;
  metrics_error = none;
  metrics_attempted_at = none;
  metrics_generation = 0;
  metrics_scrapes_started = 0;
  metrics_last_completed_scrape = 0;
  engine_idle_streak = 0;
  token_rate = none;
  previous_token_counter = none;
  prefill_token_rate = none;
  previous_prefill_counter = none;
  decode_token_rate = none;
  previous_decode_counter = none;
  circuit = Circuit.closed;
  circuit_epoch = 0;
  consecutive_request_failures = 0;
}
