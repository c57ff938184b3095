-- ===== src/Control.antt =====
-- The control plane (src/control.rs): the state behind its socket, its drain operations and its errors.
-- A handler holds the lifecycle lock throughout and is one step, but `disable` is two: requests take and
-- release leases beside them. `Environment` is what the handlers read: the published configuration, and, not from this
-- repository, the operations on `f64`, serde_json and `Uuid::new_v4`.
pub mod Drain
pub mod Views
pub mod Actions
pub mod Changed
pub mod Agrees
pub mod Outcomes
pub mod Idle
pub mod Safe
pub mod Kept
pub mod Requests
pub mod History
pub mod Reload
mod Tests
use mistralrs_proxy.Prelude.{
  ℕ, ◌-◌, ◌==◌, leb, min, ◌&&◌, Bool, true, false, Option, none, some, List, [], ◌∷◌, if◌then◌else◌,
  Str, str_eq,
}
use mistralrs_proxy.Prelude.Maps.{Map, insert}
use mistralrs_proxy.Prelude.Monad.{Outcome, returned, panicked, Method}
use mistralrs_proxy.Backend.Slot.{BackendSlot, BackendMode, ModeChangeError, Result}
use mistralrs_proxy.Routing.{ReadinessState, TelemetryState, fresh, stale, unavailable}
use mistralrs_proxy.Routing.Pressure.{FloatOps, BackendConfig}
use mistralrs_proxy.Routing.Select.{RoutingParts}
use mistralrs_proxy.Routing.Status.{BackendStatusSnapshot, duration_ms}
use mistralrs_proxy.Routing.Statuses.{ensured, status}
use mistralrs_proxy.State.{StateFile, StateError, FileSystem, BackendStateStore, store_mode}

pub data DrainPhase : Type 0 where
  draining complete failed cancelled : DrainPhase

-- The messages of a drain, by what they say.
pub data DrainMessage : Type 0 where
  disappeared is_disabled superseded proxy_and_engine_idle : DrainMessage
  not_persisted : StateError → DrainMessage

pub record DrainProgress : Type 0 where
  pub operation_id : ℕ
  pub backend_id : Str
  pub phase : DrainPhase
  pub safe_to_stop : Bool
  pub elapsed_ms : ℕ
  pub proxy_active : ℕ
  pub engine_running : Option ℕ
  pub engine_waiting : Option ℕ
  pub telemetry : TelemetryState
  pub message : Option DrainMessage

-- `progress` is the value of the watch channel.
pub record DrainOperation : Type 0 where
  pub id : ℕ
  pub backend_id : Str
  pub started_at : ℕ
  pub metrics_scrapes_started_at_start : ℕ
  pub progress : DrainProgress

-- `ControlError`, by the text of its message.
pub data ControlError : Type 0 where
  unknown_backend : Str → ControlError
  unknown_operation : ℕ → ControlError
  backend_is_draining : ControlError
  not_ready : ReadinessState → ControlError
  telemetry_is : TelemetryState → ControlError
  not_activated : ModeChangeError → Option StateError → ControlError
  requests_in_flight : ℕ → ControlError
  drain_not_persisted fence_not_removed disabled_not_persisted : StateError → ControlError

pub data StatusCode : Type 0 where
  not_found conflict bad_request internal_server_error : StatusCode

unfoldable pub error_status : ControlError → StatusCode
error_status (unknown_backend _) = not_found
error_status (unknown_operation _) = not_found
error_status backend_is_draining = conflict
error_status (not_ready _) = conflict
error_status (telemetry_is _) = conflict
error_status (not_activated _ _) = conflict
error_status (requests_in_flight _) = conflict
error_status (drain_not_persisted _) = internal_server_error
error_status (fence_not_removed _) = internal_server_error
error_status (disabled_not_persisted _) = internal_server_error

-- `operations` is a map by `id`; a new id goes last.
pub record ControlState (F : Type 0) : Type 0 where
  pub parts : RoutingParts F
  pub store : BackendStateStore
  pub operations : List DrainOperation

-- A handler's view of the rest; `new_v4` is the id drawn beside those in use.
pub record Environment (F : Type 0) : Type 0 where
  pub ops : FloatOps F
  pub configs : Map (BackendConfig × ℕ)
  pub generations : Map ℕ
  pub stale_after : ℕ
  pub kv_soft_limit : F
  pub to_json : StateFile → Option (List ℕ)
  pub new_v4 : List DrainOperation → ℕ

-- The clocks at a step: the monotonic one, and milliseconds of the system time.
pub record Clock : Type 0 where
  pub instant : ℕ
  pub unix_ms : ℕ

unfoldable pub insert_operation : DrainOperation → List DrainOperation → List DrainOperation
insert_operation o [] = o ∷ []
insert_operation o (p ∷ ps) = if p.id == o.id then o ∷ ps else p ∷ insert_operation o ps

abbrev pub phase_is_draining : DrainPhase → Bool
phase_is_draining draining = true
phase_is_draining _ = false

-- The operation of a backend that is still draining.
unfoldable pub find_draining : Str → List DrainOperation → Option DrainOperation
find_draining id [] = none
find_draining id (o ∷ os) =
    if str_eq o.backend_id id && phase_is_draining o.progress.phase
    then some o
    else find_draining id os

unfoldable pub find_operation : ℕ → List DrainOperation → Option DrainOperation
find_operation id [] = none
find_operation id (o ∷ os) = if o.id == id then some o else find_operation id os

abbrev pub elapsed_since : ℕ → ℕ → ℕ
elapsed_since started_at now = duration_ms (now - started_at)

-- `send_replace` on the watch channel of an operation.
unfoldable pub send_replace : ℕ → DrainProgress → List DrainOperation → List DrainOperation
send_replace id progress [] = []
send_replace id progress (o ∷ os) =
    if o.id == id then record o { progress = progress } ∷ os else o ∷ send_replace id progress os

abbrev telemetry_is_fresh : TelemetryState → Bool
telemetry_is_fresh fresh = true
telemetry_is_fresh _ = false

abbrev is_zero : Option ℕ → Bool
is_zero none = false
is_zero (some n) = n == 0

module _ {F : Type 0} where
  abbrev pub put_slot : Str → BackendSlot → ControlState F → ControlState F
  put_slot id slot st = record st {
    parts = record st.parts { registry = insert id slot st.parts.registry };
  }

  abbrev pub put_store : BackendStateStore → ControlState F → ControlState F
  put_store store st = record st { store = store }

  -- A method of a slot; the registry holds the slot that it changes.
  abbrev pub on_slot {ℓ} : {A : Type ℓ} → Str → Outcome BackendSlot A → Method (ControlState F) A
  on_slot id (returned a u) st = returned a (put_slot id u st)
  on_slot id (panicked u) st = panicked (put_slot id u st)

  -- `routing.status(id)`, which first brings the live map up to date.
  abbrev pub status_in : Environment F → ℕ → Str → ControlState F → Option (BackendStatusSnapshot F)
  status_in env now id st =
      status env.ops env.configs env.generations env.stale_after env.kv_soft_limit now id st.parts

  abbrev pub seen : Environment F → ControlState F → ControlState F
  seen env st = record st {
    parts = ensured env.ops env.configs env.generations env.stale_after env.kv_soft_limit st.parts;
  }

  abbrev pub save_mode :
      Environment F
      → FileSystem
      → Clock
      → Str
      → BackendMode
      → ControlState F
      → Result (Unit {0}) StateError × BackendStateStore
  save_mode env fs clock id mode st = store_mode env.to_json fs clock.unix_ms id mode st.store

  unfoldable pub progress_from_status :
      ℕ
      → DrainOperation
      → BackendStatusSnapshot F
      → DrainPhase
      → Bool
      → Option DrainMessage
      → DrainProgress
  progress_from_status now operation status phase safe message = record {
    operation_id = operation.id;
    backend_id = operation.backend_id;
    phase = phase;
    safe_to_stop = safe;
    elapsed_ms = elapsed_since operation.started_at now;
    proxy_active = status.proxy_active;
    engine_running = status.running;
    engine_waiting = status.waiting;
    telemetry = status.telemetry;
    message = message;
  }

  -- A fresh idle sample, of at least the second scrape since the drain, that ends a streak of two.
  unfoldable pub engine_idle : DrainOperation → BackendStatusSnapshot F → Bool
  engine_idle operation s =
      let post_drain_samples =
        s.metrics_observation_serial - operation.metrics_scrapes_started_at_start in
      telemetry_is_fresh s.telemetry
      && is_zero s.running
      && is_zero s.waiting
      && leb 2 (min s.engine_idle_streak post_drain_samples)
