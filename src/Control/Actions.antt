-- ===== src/Control/Actions.antt =====
-- The handlers of the control plane (src/control.rs) that change a mode: activation, disabling and the
-- start of a drain.
use mistralrs_proxy.Prelude.{
  ℕ, ltb, not, ◌&&◌, Bool, true, false, Option, none, some, if◌then◌else◌, Str,
}
use mistralrs_proxy.Prelude.Monad.{Method, returned, bind_outcome}
use mistralrs_proxy.Backend.Slot.{
  BackendSlot, BackendMode, active, draining, disabled, mode_eq, Result, ok, err, activate, disable,
}
use mistralrs_proxy.Backend.Registry.{get}
use mistralrs_proxy.Routing.{ReadinessState, TelemetryState, fresh}
use mistralrs_proxy.State.{StateError, FileSystem}
use mistralrs_proxy.Control.{
  DrainOperation, ControlError, unknown_backend, backend_is_draining, not_ready, telemetry_is,
  not_activated, requests_in_flight, fence_not_removed, disabled_not_persisted, ControlState,
  Environment, Clock, put_store, on_slot, status_in, seen, save_mode,
}
use mistralrs_proxy.Control.Drain.{begin_drain}

-- The message of an `ActionResponse`, by what it says.
pub data ActionMessage : Type 0 where
  already_active activated already_disabled backend_disabled : ActionMessage
  still_running : ℕ → ActionMessage

pub record ActionResponse : Type 0 where
  pub backend_id : Str
  pub mode : BackendMode
  pub message : ActionMessage

pub record DrainStartedResponse : Type 0 where
  pub operation_id : ℕ
  pub backend_id : Str
  pub mode : BackendMode
  pub safe_to_stop : Bool

-- Where `disable` is after its checks.
pub data DisableStep : Type 0 where
  answered : Result ActionResponse ControlError → DisableStep
  closing : ℕ → DisableStep

pub data SuccessCode : Type 0 where
  success accepted : SuccessCode

abbrev pub readiness_is_ready : ReadinessState → Bool
readiness_is_ready ReadinessState.ready = true
readiness_is_ready _ = false

abbrev pub is_fresh : TelemetryState → Bool
is_fresh fresh = true
is_fresh _ = false

abbrev error_of {ℓ} : {A : Type ℓ} → Result A StateError → Option StateError
error_of (ok a) = none
error_of (err e) = some e

-- The message and the code of a drain that was begun.
unfoldable pub started_response : Str → DrainOperation → SuccessCode × DrainStartedResponse
started_response id operation =
    let safe = operation.progress.safe_to_stop in
    (
      if safe then success else accepted,
      record {
        operation_id = operation.id;
        backend_id = id;
        mode = if safe then disabled else draining;
        safe_to_stop = safe;
      },
    )

module _ {F : Type 0} where
  unfoldable pub start_drain :
      Environment F
      → FileSystem
      → Clock
      → Str
      → Method (ControlState F) (Result (SuccessCode × DrainStartedResponse) ControlError)
  unfolding started_response
  start_drain env fs clock id st = bind_outcome (begin_drain env fs clock id st) λ started after.
      elim started [
        | err e ↦ returned (err e) after
        | ok operation ↦ returned (ok (started_response id operation)) after
      ]

  -- `slot.activate()` once the fence is gone; `fs` is of the save that puts it back.
  unfoldable pub open_gate :
      Environment F
      → FileSystem
      → Clock
      → Str
      → BackendSlot
      → Method (ControlState F) (Result ActionResponse ControlError)
  open_gate env fs clock id slot st =
      bind_outcome (on_slot id (activate clock.instant slot) st) λ opened after. elim opened [
        | ok _ ↦
            returned
              (ok (record { backend_id = id; mode = active; message = ActionMessage.activated }))
              after
        | err e ↦
            (let (saved, store) = save_mode env fs clock id disabled after in
              returned (err (not_activated e (error_of saved))) (put_store store after))
      ]

  -- `activate` from the lookup of the slot on.
  unfoldable pub remove_fence :
      Environment F
      → FileSystem
      → FileSystem
      → Clock
      → Str
      → Method (ControlState F) (Result ActionResponse ControlError)
  unfolding open_gate
  remove_fence env fs rollback clock id st = elim (get id st.parts.registry) [
    | none ↦ returned (err (unknown_backend id)) st
    | some slot ↦
        (let (saved, store) = save_mode env fs clock id active st in
          elim saved [
            | err e ↦ returned (err (fence_not_removed e)) (put_store store st)
            | ok _ ↦ open_gate env rollback clock id slot (put_store store st)
          ])
  ]

  unfoldable pub activate_backend :
      Environment F
      → FileSystem
      → FileSystem
      → Clock
      → Str
      → Method (ControlState F) (Result ActionResponse ControlError)
  unfolding remove_fence
  activate_backend env fs rollback clock id st = elim (status_in env clock.instant id st) [
    | none ↦ returned (err (unknown_backend id)) (seen env st)
    | some s ↦
        if mode_eq s.mode active
        then returned (ok (record { backend_id = id; mode = active; message = already_active }))
            (seen env st)
        else if mode_eq s.mode draining
        then returned (err backend_is_draining) (seen env st)
        else if not (readiness_is_ready s.readiness)
        then returned (err (not_ready s.readiness)) (seen env st)
        else if not (is_fresh s.telemetry)
        then returned (err (telemetry_is s.telemetry)) (seen env st)
        else remove_fence env fs rollback clock id (seen env st)
  ]

  -- `disable` from the lookup of the slot on; `in_flight` is of the status.
  unfoldable pub close_gate :
      Environment F
      → FileSystem
      → Clock
      → Str
      → Bool
      → ℕ
      → Method (ControlState F) (Result ActionResponse ControlError)
  close_gate env fs clock id force in_flight st = elim (get id st.parts.registry) [
    | none ↦ returned (err (unknown_backend id)) st
    | some slot ↦
        (let (saved, store) = save_mode env fs clock id disabled st in
          elim saved [
            | err e ↦ returned (err (disabled_not_persisted e)) (put_store store st)
            | ok _ ↦
                bind_outcome (on_slot id (disable clock.instant slot) (put_store store st)) λ _.
                  returned (
                    ok (record {
                      backend_id = id;
                      mode = disabled;
                      message =
                          if force && ltb 0 in_flight
                          then still_running in_flight
                          else backend_disabled;
                    }))
          ])
  ]

  -- `disable` up to the lookup of the slot: its answer, or the requests in flight at the check.
  unfoldable pub check_disable :
      Environment F → Clock → Str → Bool → ControlState F → DisableStep × ControlState F
  check_disable env clock id force st = elim (status_in env clock.instant id st) [
    | none ↦ (answered (err (unknown_backend id)), seen env st)
    | some s ↦
        if mode_eq s.mode disabled
        then (
          answered (ok (record { backend_id = id; mode = disabled; message = already_disabled })),
          seen env st,
        )
        else if not force && ltb 0 s.proxy_active
        then (answered (err (requests_in_flight s.proxy_active)), seen env st)
        else (closing s.proxy_active, seen env st)
  ]

  -- The lifecycle lock does not hold requests back, so `between` is what they do before the gate closes.
  unfoldable pub disable_backend :
      Environment F
      → FileSystem
      → Clock
      → Str
      → Bool
      → (ControlState F → ControlState F)
      → Method (ControlState F) (Result ActionResponse ControlError)
  unfolding check_disable close_gate
  disable_backend env fs clock id force between st =
      let (checked, after) = check_disable env clock id force st in
      elim checked [
        | answered r ↦ returned r after
        | closing in_flight ↦ close_gate env fs clock id force in_flight (between after)
      ]
