-- ===== src/Control/Drain.antt =====
-- Drains of the control plane (src/control.rs): how one begins, and the task that drives it. A round
-- of the task looks at the backend and sleeps, or takes the lifecycle lock and looks again.
use mistralrs_proxy.Prelude.{
  ℕ, ◌==◌, not, ◌&&◌, true, false, Option, none, some, List, [], ◌∷◌, if◌then◌else◌, Str,
}
use mistralrs_proxy.Prelude.Monad.{returned, panicked, Method, bind_outcome}
use mistralrs_proxy.Backend.Slot.{
  BackendSlot, BackendSnapshot, BackendMode, active, draining, disabled, mode_eq, DrainToken,
  Result, ok, err, activate, disable,
}
use mistralrs_proxy.Backend.Registry.{get, snapshots}
use mistralrs_proxy.Routing.{TelemetryState, unavailable}
use mistralrs_proxy.Routing.Status.{BackendStatusSnapshot}
use mistralrs_proxy.Routing.Statuses.{status}
use mistralrs_proxy.State.{FileSystem}
use mistralrs_proxy.Control.{
  DrainPhase, disappeared, is_disabled, superseded, proxy_and_engine_idle, not_persisted,
  DrainProgress, DrainOperation, ControlError, unknown_backend, drain_not_persisted, ControlState,
  Environment, Clock, insert_operation, find_draining, elapsed_since, send_replace, put_slot,
  put_store, on_slot, status_in, seen, save_mode, progress_from_status, engine_idle,
}

-- Where the task of an operation stands.
pub data DriveState (F : Type 0) : Type 0 where
  looking : DriveState F
  -- the first status was idle
  confirming : BackendStatusSnapshot F → DriveState F
  sleeping finished : DriveState F

-- The `match before` after a fence that could not be saved. A failed activation is ignored.
unfoldable pub restore_mode : ℕ → BackendMode → Method BackendSlot (Unit {0})
restore_mode now active t = bind_outcome (activate now t) (λ _. returned tt)
restore_mode now disabled t = bind_outcome (disable now t) (λ _. returned tt)
-- `unreachable!`
restore_mode now draining t = panicked t

abbrev disappeared_progress : ℕ → DrainOperation → DrainProgress
disappeared_progress now operation = record {
  operation_id = operation.id;
  backend_id = operation.backend_id;
  phase = DrainPhase.failed;
  safe_to_stop = false;
  elapsed_ms = elapsed_since operation.started_at now;
  proxy_active = 0;
  engine_running = none;
  engine_waiting = none;
  telemetry = unavailable;
  message = some disappeared;
}

module _ {F : Type 0} where
  abbrev active_or_zero : Option (BackendStatusSnapshot F) → ℕ
  active_or_zero none = 0
  active_or_zero (some s) = s.proxy_active

  abbrev started_or_zero : Option (BackendStatusSnapshot F) → ℕ
  started_or_zero none = 0
  started_or_zero (some s) = s.metrics_scrapes_started

  abbrev running_of : Option (BackendStatusSnapshot F) → Option ℕ
  running_of none = none
  running_of (some s) = s.running

  abbrev waiting_of : Option (BackendStatusSnapshot F) → Option ℕ
  waiting_of none = none
  waiting_of (some s) = s.waiting

  abbrev telemetry_or_unavailable : Option (BackendStatusSnapshot F) → TelemetryState
  telemetry_or_unavailable none = unavailable
  telemetry_or_unavailable (some s) = s.telemetry

  unfoldable pub new_operation : ℕ → ℕ → Str → Option (BackendStatusSnapshot F) → DrainOperation
  new_operation id now backend_id status = record {
    id = id;
    backend_id = backend_id;
    started_at = now;
    metrics_scrapes_started_at_start = started_or_zero status;
    progress = record {
      operation_id = id;
      backend_id = backend_id;
      phase = DrainPhase.draining;
      safe_to_stop = false;
      elapsed_ms = 0;
      proxy_active = active_or_zero status;
      engine_running = running_of status;
      engine_waiting = waiting_of status;
      telemetry = telemetry_or_unavailable status;
      message = none;
    };
  }

  abbrev add_operation : DrainOperation → ControlState F → ControlState F
  add_operation o st = record st { operations = insert_operation o st.operations }

  unfoldable pub ensure_drain_operation :
      Environment F → Clock → Str → ControlState F → DrainOperation × ControlState F
  unfolding new_operation
  ensure_drain_operation env clock backend_id st = elim (find_draining backend_id st.operations) [
    | some existing ↦ (existing, st)
    | none ↦
        let operation =
          new_operation (env.new_v4 st.operations) clock.instant backend_id
            (status_in env clock.instant backend_id st) in
        (operation, add_operation operation (seen env st))
  ]

  unfoldable pub resume_each :
      Environment F → Clock → List BackendSnapshot → ControlState F → ControlState F
  unfolding ensure_drain_operation
  resume_each env clock [] st = st
  resume_each env clock (s ∷ ss) st =
      let ensured_one = (ensure_drain_operation env clock s.spec.id st).1 in
      resume_each env clock ss (if mode_eq s.mode draining then ensured_one else st)

  unfoldable pub resume_persisted_drains : Environment F → Clock → ControlState F → ControlState F
  unfolding resume_each
  resume_persisted_drains env clock st =
      resume_each env clock (snapshots clock.instant st.parts.registry) st

  -- `begin_drain` of a slot that was in the mode `before`, after `slot.begin_drain()`.
  unfoldable pub persist_drain :
      Environment F
      → FileSystem
      → Clock
      → Str
      → BackendMode
      → BackendSlot
      → Method (ControlState F) (Result DrainOperation ControlError)
  unfolding restore_mode ensure_drain_operation
  persist_drain env fs clock id before slot st =
      if mode_eq before draining
      then (let (operation, after) = ensure_drain_operation env clock id st in
          returned (ok operation) after)
      else (let (saved, store) = save_mode env fs clock id draining st in
          elim saved [
            | ok _ ↦
                (let (operation, after) =
                    ensure_drain_operation env clock id (put_store store st) in
                  returned (ok operation) after)
            | err e ↦
                bind_outcome
                  (on_slot id (restore_mode clock.instant before slot) (put_store store st))
                  (λ _. returned (err (drain_not_persisted e)))
          ])

  unfoldable pub begin_drain :
      Environment F
      → FileSystem
      → Clock
      → Str
      → Method (ControlState F) (Result DrainOperation ControlError)
  unfolding persist_drain mistralrs_proxy.Backend.Slot.begin_drain
  begin_drain env fs clock id st = elim (get id st.parts.registry) [
    | none ↦ returned (err (unknown_backend id)) st
    | some slot ↦ elim (mistralrs_proxy.Backend.Slot.begin_drain slot) [
      | panicked u ↦ panicked (put_slot id u st)
      | returned token u ↦ persist_drain env fs clock id slot.mode u (put_slot id u st)
    ]
  ]

  abbrev pub report : DrainOperation → DrainProgress → ControlState F → ControlState F
  report operation progress st = record st {
    operations = send_replace operation.id progress st.operations;
  }

  -- The end of a drain whose backend is not draining any more.
  abbrev mode_changed : ℕ → DrainOperation → BackendStatusSnapshot F → DrainProgress
  mode_changed now operation s =
      if mode_eq s.mode disabled
      then progress_from_status now operation s DrainPhase.complete true (some is_disabled)
      else progress_from_status now operation s DrainPhase.cancelled false (some superseded)

  -- The first half of a round.
  unfoldable pub look :
      Environment F → Clock → DrainOperation → ControlState F → DriveState F × ControlState F
  unfolding progress_from_status engine_idle
  look env clock operation st = elim (status_in env clock.instant operation.backend_id st) [
    | none ↦
        (finished, report operation (disappeared_progress clock.instant operation) (seen env st))
    | some s ↦
        if not (mode_eq s.mode draining)
        then (finished, report operation (mode_changed clock.instant operation s) (seen env st))
        else if s.proxy_active == 0 && engine_idle operation s
        then (confirming s, seen env st)
        else (
          sleeping,
          report operation
              (progress_from_status clock.instant operation s DrainPhase.draining false none)
              (seen env st),
        )
  ]

  abbrev or_confirmed :
      Option (BackendStatusSnapshot F) → BackendStatusSnapshot F → BackendStatusSnapshot F
  or_confirmed none confirmed = confirmed
  or_confirmed (some s) confirmed = s

  -- The last report, once the slot is disabled.
  unfoldable pub complete_drain :
      Environment F
      → Clock
      → DrainOperation
      → BackendStatusSnapshot F
      → ControlState F
      → ControlState F
  unfolding progress_from_status
  complete_drain env clock operation confirmed st =
      report operation
        (progress_from_status clock.instant operation
          (or_confirmed (status_in env clock.instant operation.backend_id st) confirmed)
          DrainPhase.complete true (some proxy_and_engine_idle))
        (seen env st)

  unfoldable pub disable_registered : ℕ → Str → Method (ControlState F) (Unit {0})
  disable_registered now id st = elim (get id st.parts.registry) [
    | none ↦ returned tt st
    | some slot ↦ bind_outcome (on_slot id (disable now slot) st) (λ _. returned tt)
  ]

  -- The second half of a round, under the lifecycle lock; `first` is the status of the first.
  unfoldable pub finish_drain :
      Environment F
      → FileSystem
      → Clock
      → DrainOperation
      → BackendStatusSnapshot F
      → Method (ControlState F) (DriveState F)
  unfolding progress_from_status engine_idle disable_registered complete_drain
  finish_drain env fs clock operation first st =
      elim (status_in env clock.instant operation.backend_id st) [
        | none ↦ returned looking (seen env st)
        | some confirmed ↦
            if not (
              mode_eq confirmed.mode draining
              && (confirmed.proxy_active == 0 && engine_idle operation confirmed))
            then returned looking (seen env st)
            else (let (saved, store) = save_mode env fs clock operation.backend_id disabled st in
                elim saved [
                  | err e ↦ returned finished (
                      report operation
                        (progress_from_status clock.instant operation first DrainPhase.failed false
                          (some (not_persisted e)))
                        (put_store store (seen env st)))
                  | ok _ ↦
                      bind_outcome
                        (disable_registered clock.instant operation.backend_id
                          (put_store store (seen env st)))
                        (λ _ after.
                          returned finished (complete_drain env clock operation confirmed after))
                ])
      ]

  -- One step of the task.
  unfoldable pub drive :
      Environment F
      → FileSystem
      → Clock
      → DrainOperation
      → DriveState F
      → Method (ControlState F) (DriveState F)
  unfolding look finish_drain
  drive env fs clock operation looking st =
      let (next, after) = look env clock operation st in returned next after
  drive env fs clock operation sleeping st = returned looking st
  drive env fs clock operation (confirming first) st = finish_drain env fs clock operation first st
  drive env fs clock operation finished st = returned finished st
