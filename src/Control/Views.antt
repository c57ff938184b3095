-- ===== src/Control/Views.antt =====
-- What an operator can read of the control plane (src/control.rs): the backends and the operations.
use mistralrs_proxy.Prelude.{ℕ, Bool, Option, none, some, List, [], ◌∷◌, Str}
use mistralrs_proxy.Backend.Slot.{BackendMode, Result, ok, err}
use mistralrs_proxy.Routing.{ReadinessState, TelemetryState, CircuitState, BackendDisplayState}
use mistralrs_proxy.Routing.Status.{BackendStatusSnapshot}
use mistralrs_proxy.Routing.Statuses.{statuses}
use mistralrs_proxy.Control.{
  DrainProgress, ControlError, unknown_backend, unknown_operation, ControlState, Environment,
  find_operation, status_in, seen,
}

pub record BackendView (F : Type 0) : Type 0 where
  pub id : Str
  pub url : Str
  pub mode : BackendMode
  pub state : BackendDisplayState
  pub readiness : ReadinessState
  pub telemetry : TelemetryState
  pub circuit : CircuitState
  pub eligible : Bool
  pub proxy_active : ℕ
  pub oldest_proxy_request_ms : Option ℕ
  pub running : Option ℕ
  pub waiting : Option ℕ
  pub reported_capacity : Option ℕ
  pub configured_capacity : Option ℕ
  pub effective_capacity : Option ℕ
  pub capacity_mismatch : Bool
  pub kv_ratio : Option F
  pub token_rate : Option F
  pub prefill_token_rate : Option F
  pub decode_token_rate : Option F
  pub pressure : Option F
  pub metrics_age_ms : Option ℕ
  pub readiness_age_ms : Option ℕ
  pub metrics_error : Option Str
  pub readiness_error : Option Str

module _ {F : Type 0} where
  -- `From<BackendStatusSnapshot>`.
  unfoldable pub view : BackendStatusSnapshot F → BackendView F
  view s = record {
    id = s.id;
    url = s.url;
    mode = s.mode;
    state = s.state;
    readiness = s.readiness;
    telemetry = s.telemetry;
    circuit = s.circuit;
    eligible = s.eligible;
    proxy_active = s.proxy_active;
    oldest_proxy_request_ms = s.oldest_proxy_request_ms;
    running = s.running;
    waiting = s.waiting;
    reported_capacity = s.reported_capacity;
    configured_capacity = s.configured_capacity;
    effective_capacity = s.effective_capacity;
    capacity_mismatch = s.capacity_mismatch;
    kv_ratio = s.kv_ratio;
    token_rate = s.token_rate;
    prefill_token_rate = s.prefill_token_rate;
    decode_token_rate = s.decode_token_rate;
    pressure = s.pressure;
    metrics_age_ms = s.metrics_age_ms;
    readiness_age_ms = s.readiness_age_ms;
    metrics_error = s.metrics_error;
    readiness_error = s.readiness_error;
  }

  unfoldable pub views : List (BackendStatusSnapshot F) → List (BackendView F)
  unfolding view
  views [] = []
  views (s ∷ ss) = view s ∷ views ss

  -- The backends of `list_backends`.
  unfoldable pub list_backends :
      Environment F → ℕ → ControlState F → List (BackendView F) × ControlState F
  unfolding views
  list_backends env now st = (
    views (
        statuses env.ops env.configs env.generations env.stale_after env.kv_soft_limit now
          st.parts),
    seen env st,
  )

  unfoldable pub get_backend :
      Environment F
      → ℕ
      → Str
      → ControlState F
      → Result (BackendView F) ControlError × ControlState F
  unfolding view
  get_backend env now id st = elim (status_in env now id st) [
    | none ↦ (err (unknown_backend id), seen env st)
    | some s ↦ (ok (view s), seen env st)
  ]

  unfoldable pub get_operation : ℕ → ControlState F → Result DrainProgress ControlError
  get_operation id st = elim (find_operation id st.operations) [
    | none ↦ err (unknown_operation id)
    | some operation ↦ ok operation.progress
  ]
