-- ===== src/Routing/Status.antt =====
-- What the operator sees of a backend (src/routing.rs): `statuses` reports, from the same lock and
-- the same maps as `select` reads, each configured backend's dimensions and one state for display.
use mistralrs_proxy.Prelude.{
  ℕ, ◌-◌, ◌/◌, ◌≡◌, ◌↔◌, ◌⊎◌, inl, inr, ◌==◌, leb, not, ◌&&◌, Bool, true, false, Option, none, some,
  if◌then◌else◌, min, u64_max, Str, arith, Option-cases,
}
use mistralrs_proxy.Prelude.Maps.{Map, lookup}
use mistralrs_proxy.Backend.Slot.{BackendMode, mode_eq, BackendSnapshot, active, draining, disabled}
use mistralrs_proxy.Routing.{
  ReadinessState, TelemetryState, fresh, stale, unavailable, CircuitState, open_state,
  BackendDisplayState, circuit_open, probing, degraded, MetricsObservation, LiveBackend,
}
use mistralrs_proxy.Routing.Breaker.{circuit_state}
use mistralrs_proxy.Routing.Health.{RoutingInner}
use mistralrs_proxy.Routing.Pressure.{
  FloatOps, BackendConfig, effective_capacity, kv_cache_ratio, score_of, score_candidate,
}
use mistralrs_proxy.Routing.Select.{Candidate, listed, candidate_of}

pub record BackendStatusSnapshot (F : Type 0) : Type 0 where
  pub id : Str
  pub url : Str
  pub mode : BackendMode
  pub state : BackendDisplayState
  pub readiness : ReadinessState
  pub telemetry : TelemetryState
  pub circuit : CircuitState
  pub eligible : Bool
  pub proxy_active : ℕ
  pub oldest_proxy_request_ms : Option ℕ
  pub running : Option ℕ
  pub waiting : Option ℕ
  pub reported_capacity : Option ℕ
  pub configured_capacity : Option ℕ
  pub effective_capacity : Option ℕ
  pub capacity_mismatch : Bool
  pub kv_ratio : Option F
  pub token_rate : Option F
  pub prefill_token_rate : Option F
  pub decode_token_rate : Option F
  pub pressure : Option F
  pub metrics_age_ms : Option ℕ
  pub metrics_generation : ℕ
  pub metrics_scrapes_started : ℕ
  pub metrics_observation_serial : ℕ
  pub engine_idle_streak : ℕ
  pub readiness_age_ms : Option ℕ
  pub metrics_error : Option Str
  pub readiness_error : Option Str

-- `match circuit` for a backend that is ready.
abbrev ready_state : TelemetryState → CircuitState → BackendDisplayState
ready_state telemetry open_state = circuit_open
ready_state telemetry CircuitState.half_open = probing
ready_state fresh CircuitState.closed = BackendDisplayState.ready
ready_state stale CircuitState.closed = degraded
ready_state unavailable CircuitState.closed = degraded

abbrev active_state : ReadinessState → TelemetryState → CircuitState → BackendDisplayState
active_state ReadinessState.checking telemetry circuit = BackendDisplayState.checking
active_state ReadinessState.unreachable telemetry circuit = BackendDisplayState.unreachable
active_state ReadinessState.unready telemetry circuit = BackendDisplayState.unready
active_state ReadinessState.ready telemetry circuit = ready_state telemetry circuit

unfoldable pub display_state :
    BackendMode → ReadinessState → TelemetryState → CircuitState → BackendDisplayState
display_state disabled readiness telemetry circuit = BackendDisplayState.disabled
display_state draining readiness telemetry circuit = BackendDisplayState.draining
display_state active readiness telemetry circuit = active_state readiness telemetry circuit

-- Whole milliseconds of an age in nanoseconds, capped at the `u64` limit.
abbrev pub duration_ms : ℕ → ℕ
duration_ms age = min (age / 1_000_000) u64_max

abbrev pub map_to {ℓ κ} : {A : Type ℓ} {B : Type κ} → (A → B) → Option A → Option B
map_to f none = none
map_to f (some a) = some (f a)

abbrev pub and_then {ℓ κ} : {A : Type ℓ} {B : Type κ} → Option A → (A → Option B) → Option B
and_then none f = none
and_then (some a) f = f a

abbrev mismatched : Option ℕ → Option ℕ → Bool
mismatched (some reported) (some configured) = not (reported == configured)
mismatched _ _ = false

abbrev serial_or_zero : {F : Type 0} → Option (MetricsObservation F) → ℕ
serial_or_zero none = 0
serial_or_zero (some o) = o.scrape_serial

abbrev is_fresh : TelemetryState → Bool
is_fresh fresh = true
is_fresh _ = false

abbrev is_open : CircuitState → Bool
is_open open_state = true
is_open _ = false

abbrev is_ready : ReadinessState → Bool
is_ready ReadinessState.ready = true
is_ready _ = false

module _ {F : Type 0} (ops : FloatOps F) where
  unfoldable pub telemetry_of : ℕ → ℕ → Option (MetricsObservation F) → TelemetryState
  telemetry_of now stale_after none = unavailable
  telemetry_of now stale_after (some o) =
      if leb (now - o.observed_at) stale_after then fresh else stale

  unfoldable pub status_snapshot :
      BackendSnapshot → LiveBackend F → BackendConfig → ℕ → ℕ → F → BackendStatusSnapshot F
  unfolding display_state telemetry_of effective_capacity kv_cache_ratio score_of
  status_snapshot snapshot live config now stale_after kv_soft_limit =
      let telemetry = telemetry_of now stale_after live.metrics in
      let circuit = circuit_state live.circuit now in
      let eligible =
        mode_eq snapshot.mode active && (is_ready live.readiness && not (is_open circuit)) in
      let reported = and_then live.metrics (λ o. o.metrics.sequences_capacity) in
      let effective = effective_capacity reported config.capacity in
      record {
        id = snapshot.spec.id;
        url = config.url;
        mode = snapshot.mode;
        state = display_state snapshot.mode live.readiness telemetry circuit;
        readiness = live.readiness;
        telemetry = telemetry;
        circuit = circuit;
        eligible = eligible;
        proxy_active = snapshot.local_active;
        oldest_proxy_request_ms = map_to duration_ms snapshot.oldest_active_age;
        running = map_to (λ o. o.metrics.sequences_running) live.metrics;
        waiting = map_to (λ o. o.metrics.sequences_waiting) live.metrics;
        reported_capacity = reported;
        configured_capacity = config.capacity;
        effective_capacity = effective;
        capacity_mismatch = mismatched reported config.capacity;
        kv_ratio = and_then live.metrics (λ o. kv_cache_ratio ops o.metrics);
        token_rate = live.token_rate;
        prefill_token_rate = live.prefill_token_rate;
        decode_token_rate = live.decode_token_rate;
        pressure =
            if eligible && is_fresh telemetry
            then (and_then live.metrics (λ o.
                map_to (λ s. s.pressure)
                  (score_of ops kv_soft_limit o
                    (snapshot.total_acquired - o.dispatches_at_observation) effective)))
            else none;
        metrics_age_ms = map_to (λ o. duration_ms (now - o.observed_at)) live.metrics;
        metrics_generation = live.metrics_generation;
        metrics_scrapes_started = live.metrics_scrapes_started;
        metrics_observation_serial = serial_or_zero live.metrics;
        engine_idle_streak = live.engine_idle_streak;
        readiness_age_ms = map_to (λ at. duration_ms (now - at)) live.readiness_checked_at;
        metrics_error = live.metrics_error;
        readiness_error = live.readiness_error;
      }

  -- The closure of `statuses`; `none` leaves the backend out.
  unfoldable pub status_of :
      Map (BackendConfig × ℕ)
      → ℕ
      → ℕ
      → F
      → RoutingInner F
      → BackendSnapshot
      → Option (BackendStatusSnapshot F)
  unfolding status_snapshot
  status_of configs now stale_after kv_soft_limit inner snapshot =
      and_then (lookup snapshot.spec.id configs) λ (config, generation).
        and_then (lookup snapshot.spec.id inner.backends) λ live.
          if not (live.topology_generation == generation)
          then none
          else some (status_snapshot snapshot live config now stale_after kv_soft_limit)

  -- A backend is reported as eligible exactly if its displayed state is ready, probing or degraded.
  pub status_snapshot-eligible_iff :
      (snapshot : BackendSnapshot) (live : LiveBackend F) (config : BackendConfig)
      (now stale_after : ℕ) (kv_soft_limit : F)
      → ((status_snapshot snapshot live config now stale_after kv_soft_limit).eligible ≡ true) ↔ (
          ((status_snapshot snapshot live config now stale_after kv_soft_limit).state
            ≡ BackendDisplayState.ready)
          ⊎ (((status_snapshot snapshot live config now stale_after kv_soft_limit).state ≡ probing)
              ⊎ ((status_snapshot snapshot live config now stale_after kv_soft_limit).state
                  ≡ degraded)))
  unfolding status_snapshot display_state telemetry_of
  status_snapshot-eligible_iff snapshot live config now stale_after kv_soft_limit = ground arith

  -- Selection and status agree: on the same state and instant, a backend is a candidate exactly if its
  -- status is there and says that it is eligible.
  pub candidate_of-status_of :
      (configs : Map (BackendConfig × ℕ)) (now stale_after : ℕ) (kv_soft_limit : F)
      (inner : RoutingInner F) (snapshot : BackendSnapshot)
      → ((c : Candidate F) × (candidate_of ops configs now stale_after kv_soft_limit inner snapshot
            ≡ some c))
        ↔ ((s : BackendStatusSnapshot F) × (status_of configs now stale_after kv_soft_limit inner
                snapshot
              ≡ some s)
            × (s.eligible ≡ true))
  unfolding candidate_of status_of status_snapshot score_candidate
  candidate_of-status_of configs now stale_after kv_soft_limit inner snapshot =
      elim (Option-cases (lookup snapshot.spec.id inner.backends)) [
        | inl missing ↦ ((λ (c, e). absurd (ground arith)), (λ (s, e, f). absurd (ground arith)))
        | inr (live, found) ↦ elim (Option-cases (lookup snapshot.spec.id configs)) [
          | inl missing ↦ ((λ (c, e). absurd (ground arith)), (λ (s, e, f). absurd (ground arith)))
          | inr ((config, generation), configured) ↦ (
            (λ (c, e). (
              status_snapshot snapshot live config now stale_after kv_soft_limit,
              ground arith,
              ground arith,
            )),
            (λ (s, e, f).
                (listed ops snapshot live config now stale_after kv_soft_limit, ground arith)),
          )
        ]
      ]
