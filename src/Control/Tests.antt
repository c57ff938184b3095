-- ===== src/Control/Tests.antt =====
-- Handlers on a concrete backend, with natural numbers for `f64`, and the theorems on them.
use mistralrs_proxy.Prelude.{
  Bool, ℕ, ◌+◌, ◌-◌, ◌/◌, ◌≤◌, ◌≡◌, refl, ◌⊎◌, leb, min, true, false, none, some, Option, List, [],
  ◌∷◌, arith, Str, str_eq, length,
}
use mistralrs_proxy.Prelude.Maps.{Map, lookup, insert, remove}
use mistralrs_proxy.Prelude.Monad.{returned}
use mistralrs_proxy.Backend.Slot.{
  BackendSpec, BackendSlot, BackendMode, active, draining, disabled, new, snapshot, Result, ok, err,
  activate, disable, set_mode,
}
use mistralrs_proxy.Backend.Registry.{get, get_retained, snapshots}
use mistralrs_proxy.Routing.{ReadinessState, fresh, MetricsObservation, LiveBackend, new_live}
use mistralrs_proxy.Routing.Breaker.{circuit_state}
use mistralrs_proxy.Routing.Health.{
  ensure_backends, ensure_entries, ensure_entry, retain_configured,
}
use mistralrs_proxy.Routing.Pressure.{
  FloatOps, BackendConfig, effective_capacity, kv_cache_ratio, score_of,
}
use mistralrs_proxy.Routing.Select.{nat_cmp}
use mistralrs_proxy.Routing.Status.{
  BackendStatusSnapshot, status_snapshot, status_of, telemetry_of, display_state,
}
use mistralrs_proxy.Routing.Statuses.{Keyed, statuses_of, statuses, find_status, status}
use mistralrs_proxy.State.{
  PersistedBackend, StateFile, FileSystem, BackendStateStore, empty_file, validate, check_backends,
  write_file, save_file, store_mode, fence, durable_mode,
}
use mistralrs_proxy.Control.{
  put_slot, seen, DrainPhase, DrainOperation, ControlError, ControlState, Environment, Clock,
  insert_operation, find_draining, find_operation, send_replace, status_in, engine_idle,
  progress_from_status, proxy_and_engine_idle,
}
use mistralrs_proxy.Control.Drain.{
  new_operation, ensure_drain_operation, persist_drain, begin_drain, finished, finish_drain,
  disable_registered, complete_drain,
}
use mistralrs_proxy.Control.Changed.{
  Agrees, ModesAgree, Changed, Unchanged, Settled, insert-Agrees, begin_drain-Changed,
}
use mistralrs_proxy.Control.Actions.{
  ActionResponse, activated, backend_disabled, activate_backend, remove_fence, open_gate,
  check_disable, disable_backend, close_gate,
}
use mistralrs_proxy.Control.Outcomes.{Disables, disable_backend_lem, activate_backend_lem}
use mistralrs_proxy.Control.History.{here, next_step, drains, History-IsValid}
use mistralrs_proxy.Control.Idle.{CertifiedIdle}
use mistralrs_proxy.Control.Safe.{finish_drain-CertifiedIdle}
use mistralrs_proxy.Routing.{MetricsScrapeContext}
use mistralrs_proxy.Routing.Health.{Float, begin_scrape, metrics_success}
use mistralrs_proxy.Routing.Health.Scrapes.{Certifies}
use mistralrs_proxy.Routing.Health.Confirmed.{Scraped, at_first, begins, succeeds, elsewhere}

abbrev ops : FloatOps ℕ
ops = record {
  of_u64 = λ n. n;
  add = λ a b. a + b;
  sub = λ a b. a - b;
  div = λ a b. a / b;
  zero = 0;
  one = 1;
  max_zero = λ a. a;
  clamp_unit = λ a. min a 1;
  is_finite = λ a. true;
  in_unit = λ a. leb a 1;
  total_cmp = nat_cmp;
}

abbrev id_a : Str
id_a = b'a' ∷ []

abbrev spec_a : BackendSpec
spec_a = record { id = id_a; endpoint = b'h' ∷ [] }

abbrev config_a : BackendConfig
config_a = record { url = b'h' ∷ []; capacity = none }

abbrev env : Environment ℕ
env = record {
  ops = ops;
  configs = (id_a, (config_a, 1)) ∷ [];
  generations = (id_a, 1) ∷ [];
  stale_after = 10;
  kv_soft_limit = 1;
  to_json = λ s. some (b'j' ∷ []);
  new_v4 = λ os. length os + 1;
}

abbrev all_well : FileSystem
all_well = record {
  directory_created = true;
  opened = true;
  written = true;
  synced = true;
  hardened = true;
  renamed = true;
  directory_synced = true;
}

abbrev clock : Clock
clock = record { instant = 7; unix_ms = 70 }

abbrev idle_metrics : MetricsObservation ℕ
idle_metrics = record {
  metrics = record {
    sequences_running = 0;
    sequences_waiting = 0;
    sequences_capacity = none;
    kv_cache = none;
    tokens_processed_total = none;
    prefill_tokens_processed_total = none;
    decode_tokens_processed_total = none;
    sequences_completed_total = none;
  };
  observed_at = 6;
  dispatches_at_observation = 0;
  scrape_serial = 5;
}

-- Ready, and idle in the last two of five scrapes.
abbrev live_a : LiveBackend ℕ
live_a = record (new_live 1) {
  readiness = ReadinessState.ready;
  metrics = some idle_metrics;
  metrics_scrapes_started = 5;
  metrics_last_completed_scrape = 5;
  engine_idle_streak = 2;
}

abbrev in_mode : BackendMode → ℕ → BackendSlot
in_mode mode changes = record {
  state = record {
    spec = spec_a;
    registered = true;
    mode = mode;
    mode_epoch = changes;
    sequence = changes;
    spec_revision = 0;
    next_lease_serial = 0;
    total_acquired = 0;
    leases = [];
  };
  changed = changes;
}

abbrev store_of : Map PersistedBackend → Option (List ℕ) → BackendStateStore
store_of fences file = record {
  file = file;
  state = record { schema_version = 1; backends = fences };
}

abbrev fenced : BackendMode → Map PersistedBackend
fenced mode = (id_a, record { mode = mode; changed_at_unix_ms = 70 }) ∷ []

abbrev saved : Option (List ℕ)
saved = some (b'j' ∷ b'\n' ∷ [])

abbrev state_with : BackendSlot → BackendStateStore → List DrainOperation → ControlState ℕ
state_with slot store os = record {
  parts = record {
    inner = record { backends = (id_a, live_a) ∷ []; rotating_cursor = 0 };
    registry = (id_a, slot) ∷ [];
  };
  store = store;
  operations = os;
}

abbrev starting_state : ControlState ℕ
starting_state = state_with (in_mode active 0) (store_of [] none) []

no_backends : (state : StateFile) → Agrees [] state
unfolding Agrees lookup
no_backends state id slot found registered = absurd (ground arith)

starting_state-ModesAgree : ModesAgree starting_state
unfolding insert durable_mode lookup
starting_state-ModesAgree =
    insert-Agrees id_a (in_mode active 0) [] empty_file empty_file (no_backends empty_file)
      (λ r. refl) (λ j other. refl)

abbrev op_a : DrainOperation
op_a =
    new_operation 1 7 id_a
      (status_in env 7 id_a (state_with (in_mode draining 1) (store_of (fenced draining) saved) []))

drain_begun :
    begin_drain env all_well clock id_a starting_state
    ≡ returned
        (ok op_a)
        (state_with (in_mode draining 1) (store_of (fenced draining) saved) (op_a ∷ []))
unfolding begin_drain persist_drain mistralrs_proxy.Backend.Slot.begin_drain ensure_drain_operation
    new_operation find_draining insert_operation get get_retained lookup insert remove
    mistralrs_proxy.Prelude.str_eq store_mode save_file write_file validate check_backends fence
    ensure_backends ensure_entries ensure_entry retain_configured new_live
drain_begun = refl

abbrev begun : Result DrainOperation ControlError
begun = ok op_a

begin_drain-Changed_example :
    ((o : DrainOperation) × (begun ≡ ok o)
      × Changed id_a draining starting_state
          (state_with (in_mode draining 1) (store_of (fenced draining) saved) (op_a ∷ [])))
    ⊎ ((x : ControlError) × (begun ≡ err x)
        × Changed id_a active starting_state
            (state_with (in_mode draining 1) (store_of (fenced draining) saved) (op_a ∷ [])))
unfolding get get_retained lookup mistralrs_proxy.Prelude.str_eq
begin_drain-Changed_example =
    begin_drain-Changed env all_well clock id_a starting_state
      (state_with (in_mode draining 1) (store_of (fenced draining) saved) (op_a ∷ []))
      (in_mode active 0) begun starting_state-ModesAgree refl drain_begun

starting_state-Keyed : Keyed starting_state.parts.registry
unfolding lookup
starting_state-Keyed = (refl, refl, tt)

abbrev draining_state : ControlState ℕ
draining_state =
    state_with (in_mode draining 1) (store_of (fenced draining) saved)
      (record op_a { metrics_scrapes_started_at_start = 3 } ∷ [])

draining_state-ModesAgree : ModesAgree draining_state
unfolding insert durable_mode lookup mistralrs_proxy.Prelude.str_eq
draining_state-ModesAgree =
    insert-Agrees id_a (in_mode draining 1) [] empty_file (store_of (fenced draining) saved).state
      (no_backends empty_file) (λ r. refl) (λ j other. ground arith)

draining_state-Keyed : Keyed draining_state.parts.registry
unfolding lookup
draining_state-Keyed = (refl, refl, tt)

abbrev rolled_back : FileSystem
rolled_back = record all_well { opened = false }

History-IsValid_example :
    Keyed
      (state_with
        (in_mode draining 1)
        (store_of (fenced draining) saved)
        (op_a ∷ [])).parts.registry
    × ModesAgree (state_with (in_mode draining 1) (store_of (fenced draining) saved) (op_a ∷ []))
History-IsValid_example =
    History-IsValid starting_state
      (state_with (in_mode draining 1) (store_of (fenced draining) saved) (op_a ∷ []))
      (next_step here (drains env all_well clock id_a begun drain_begun))
      (starting_state-Keyed, starting_state-ModesAgree)

-- The operation, as it is driven: three scrapes had begun when it began.
abbrev op_b : DrainOperation
op_b = record op_a { metrics_scrapes_started_at_start = 3 }

abbrev status_a : BackendStatusSnapshot ℕ
status_a = status_snapshot ops (snapshot 7 (in_mode draining 1).state) live_a config_a 7 10 1

abbrev closed_state : ControlState ℕ
closed_state = state_with (in_mode disabled 2) (store_of (fenced disabled) saved) (op_b ∷ [])

abbrev drained_state : ControlState ℕ
unfolding complete_drain
drained_state = complete_drain env clock op_b status_a closed_state

abbrev op_c : DrainOperation
op_c = record op_b {
  progress =
      progress_from_status 7 op_b
        (status_snapshot ops (snapshot 7 (in_mode disabled 2).state) live_a config_a 7 10 1)
        DrainPhase.complete true (some proxy_and_engine_idle);
}

drain_finished :
    finish_drain env all_well clock op_b status_a draining_state ≡ returned finished drained_state
unfolding finish_drain disable_registered complete_drain engine_idle progress_from_status
    status_snapshot snapshot telemetry_of mistralrs_proxy.Backend.Slot.disable set_mode
    new_operation get get_retained lookup insert remove mistralrs_proxy.Prelude.str_eq store_mode
    save_file write_file validate check_backends fence ensure_backends ensure_entries ensure_entry
    retain_configured new_live status statuses statuses_of status_of find_status snapshots
    display_state effective_capacity kv_cache_ratio score_of circuit_state send_replace
drain_finished = refl

-- The live entry when the drain began: the third scrape has failed.
abbrev live_b : LiveBackend ℕ
live_b = record live_a {
  metrics = some (record idle_metrics { scrape_serial = 2 });
  metrics_scrapes_started = 3;
  metrics_last_completed_scrape = 3;
  engine_idle_streak = 0;
}

abbrev whole : Float
whole = record {
  F = ℕ;
  add = λ a b. a + b;
  sub = λ a b. a;
  mul = λ a b. a;
  div = λ a b. a;
  ge = λ a b. true;
  le_zero = λ a. false;
  as_secs = λ a. a;
  keep_weight = 0;
  new_weight = 1;
}

abbrev scrape_at : ℕ → MetricsScrapeContext
scrape_at serial = record { serial = serial; dispatches_at_observation = 0; observed_at = 6 }

live_b-Certifies : Certifies live_b
live_b-Certifies = record {
  observed = omega arith;
  completed = omega arith;
  streak_below = omega arith;
  newest = λ h. absurd (omega arith);
  idle = λ h. absurd (omega arith);
  no_error = λ h. absurd (omega arith);
}

-- Two scrapes that find the engine idle.
live_a-Scraped : Scraped whole live_b 3 false (true ∷ true ∷ []) live_a
unfolding begin_scrape metrics_success new_live
live_a-Scraped =
    elsewhere
      (record {
        metrics_kept = refl;
        started_kept = refl;
        completed_kept = refl;
        streak_kept = refl;
      })
      (succeeds idle_metrics.metrics (scrape_at 5) 6 refl (
        begins 0 6 (scrape_at 5) refl (
          succeeds idle_metrics.metrics (scrape_at 4) 6 refl
            (begins 0 6 (scrape_at 4) refl at_first))))

abbrev status_b : BackendStatusSnapshot ℕ
status_b = status_snapshot ops (snapshot 7 (in_mode draining 1).state) live_b config_a 7 10 1

abbrev fenced_state : List DrainOperation → ControlState ℕ
fenced_state os = record (state_with (in_mode draining 1) (store_of (fenced draining) saved) os) {
  parts = record {
    inner = record { backends = (id_a, live_b) ∷ []; rotating_cursor = 0 };
    registry = (id_a, in_mode draining 1) ∷ [];
  };
}

fenced_state-Keyed : Keyed (fenced_state []).parts.registry
unfolding lookup
fenced_state-Keyed = (refl, refl, tt)

status_b_seen : status_in env 7 id_a (fenced_state []) ≡ some status_b
unfolding status_snapshot snapshot telemetry_of lookup mistralrs_proxy.Prelude.str_eq
    ensure_backends ensure_entries ensure_entry retain_configured new_live status statuses
    statuses_of status_of find_status snapshots
status_b_seen = refl

registered_b :
    ensure_drain_operation env clock id_a (fenced_state []) ≡ (op_b, fenced_state (op_b ∷ []))
unfolding ensure_drain_operation new_operation find_draining insert_operation status_snapshot
    snapshot telemetry_of lookup insert mistralrs_proxy.Prelude.str_eq ensure_backends
    ensure_entries ensure_entry retain_configured new_live status statuses statuses_of status_of
    find_status snapshots
registered_b = refl

finish_drain-CertifiedIdle_example :
    CertifiedIdle env 7 id_a live_b.metrics_scrapes_started draining_state drained_state
    × ((older : List Bool) × (true ∷ true ∷ [] ≡ true ∷ true ∷ older))
unfolding complete_drain progress_from_status status_snapshot snapshot telemetry_of find_operation
    send_replace find_draining new_operation lookup insert mistralrs_proxy.Prelude.str_eq
    ensure_backends ensure_entries ensure_entry retain_configured new_live status statuses
    statuses_of status_of find_status snapshots
finish_drain-CertifiedIdle_example =
    finish_drain-CertifiedIdle whole env env all_well clock clock id_a op_b op_b op_c status_a
      status_b (fenced_state []) (fenced_state (op_b ∷ [])) draining_state drained_state finished
      live_b live_a 3 false (true ∷ true ∷ []) refl fenced_state-Keyed status_b_seen registered_b
      refl live_b-Certifies live_a-Scraped refl draining_state-Keyed draining_state-ModesAgree refl
      refl drain_finished refl refl

abbrev forced : ActionResponse
forced = record { backend_id = id_a; mode = disabled; message = backend_disabled }

abbrev forced_result : Result ActionResponse ControlError
forced_result = ok forced

abbrev disabled_state : ControlState ℕ
disabled_state = state_with (in_mode disabled 1) (store_of (fenced disabled) saved) []

abbrev leased : BackendMode → ℕ → ℕ → BackendSlot
leased mode epoch changes = record {
  state = record {
    spec = spec_a;
    registered = true;
    mode = mode;
    mode_epoch = epoch;
    sequence = changes;
    spec_revision = 0;
    next_lease_serial = 1;
    total_acquired = 1;
    leases = (record { started_at = 6; serial = 0 }) ∷ [];
  };
  changed = changes;
}

-- A request takes a lease after the check.
abbrev held_meanwhile : ControlState ℕ → ControlState ℕ
held_meanwhile st = put_slot id_a (leased active 0 1) st

abbrev disabled_meanwhile_state : ControlState ℕ
disabled_meanwhile_state = state_with (leased disabled 1 2) (store_of (fenced disabled) saved) []

active_disabled :
    disable_backend env all_well clock id_a false held_meanwhile starting_state
    ≡ returned (ok forced) disabled_meanwhile_state
unfolding disable_backend check_disable close_gate status_snapshot snapshot telemetry_of
    mistralrs_proxy.Backend.Slot.disable set_mode get get_retained lookup insert remove
    mistralrs_proxy.Prelude.str_eq store_mode save_file write_file validate check_backends fence
    ensure_backends ensure_entries ensure_entry retain_configured new_live status statuses
    statuses_of status_of find_status snapshots
active_disabled = refl

disable_backend_lem_example :
    ((o : ActionResponse) × (forced_result ≡ ok o)
      × Disables id_a false starting_state
          (held_meanwhile (seen env starting_state))
          disabled_meanwhile_state)
    ⊎ ((x : ControlError) × (forced_result ≡ err x)
        × (Unchanged starting_state disabled_meanwhile_state
            ⊎ Unchanged (held_meanwhile (seen env starting_state)) disabled_meanwhile_state))
disable_backend_lem_example =
    disable_backend_lem env all_well clock id_a false held_meanwhile starting_state
      disabled_meanwhile_state forced_result starting_state-Keyed starting_state-ModesAgree
      active_disabled

disabled_state-Keyed : Keyed disabled_state.parts.registry
unfolding lookup
disabled_state-Keyed = (refl, refl, tt)

disabled_state-ModesAgree : ModesAgree disabled_state
unfolding insert durable_mode lookup mistralrs_proxy.Prelude.str_eq
disabled_state-ModesAgree =
    insert-Agrees id_a (in_mode disabled 1) [] empty_file (store_of (fenced disabled) saved).state
      (no_backends empty_file) (λ r. refl) (λ j other. ground arith)

abbrev activated_response : ActionResponse
activated_response = record { backend_id = id_a; mode = active; message = activated }

abbrev activated_result : Result ActionResponse ControlError
activated_result = ok activated_response

abbrev reactivated_state : ControlState ℕ
reactivated_state = state_with (in_mode active 2) (store_of [] saved) []

reactivated :
    activate_backend env all_well all_well clock id_a disabled_state
    ≡ returned (ok activated_response) reactivated_state
unfolding activate_backend remove_fence open_gate status_snapshot snapshot telemetry_of
    mistralrs_proxy.Backend.Slot.activate set_mode get get_retained lookup insert remove
    mistralrs_proxy.Prelude.str_eq store_mode save_file write_file validate check_backends fence
    ensure_backends ensure_entries ensure_entry retain_configured new_live status statuses
    statuses_of status_of find_status snapshots
reactivated = refl

activate_backend_lem_example :
    ((o : ActionResponse) × (activated_result ≡ ok o)
      × (Settled id_a active reactivated_state)
      × ((Settled id_a active disabled_state)
          ⊎ ((s : BackendStatusSnapshot ℕ) × (status_in env 7 id_a disabled_state ≡ some s)
              × (s.mode ≡ disabled)
              × (s.readiness ≡ ReadinessState.ready)
              × (s.telemetry ≡ fresh))))
    ⊎ ((x : ControlError) × (activated_result ≡ err x) × Unchanged disabled_state reactivated_state)
activate_backend_lem_example =
    activate_backend_lem env all_well all_well clock id_a disabled_state reactivated_state
      activated_result disabled_state-Keyed disabled_state-ModesAgree reactivated
