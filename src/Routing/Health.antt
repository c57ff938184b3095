-- ===== src/Routing/Health.antt =====
-- Readiness probes and metrics scrapes of a backend (src/routing.rs): what each result does to the
-- live entry of its backend, and the lookup of that entry by id and topology generation. The clock,
-- the thresholds and the configured backends are arguments; `Float` is `f64`.
pub mod Readiness
pub mod Scrapes
pub mod Confirmed
use mistralrs_proxy.Prelude.{
  ℕ, ◌+◌, ◌-◌, ◌%◌, Bool, true, false, Option, none, some, List, [], ◌∷◌, ltb, leb, ◌==◌, ◌&&◌, not,
  if◌then◌else◌, Str, checked_increment, saturating_increment, u32_max, u64_max,
}
use mistralrs_proxy.Prelude.Maps.{Map, lookup, insert}
use mistralrs_proxy.Prelude.Monad.{returned, panicked, Method}
use mistralrs_proxy.Routing.{
  ReadinessState, ReadinessFailureKind, MistralRsMetrics, MetricsObservation, MetricsScrapeContext,
  LiveBackend, new_live,
}

-- The `f64` operations that `counter_rate` uses.
pub record Float : Type 1 where
  pub F : Type 0
  pub add : F → F → F
  pub sub : F → F → F
  pub mul : F → F → F
  pub div : F → F → F
  -- `a >= b` and `a <= 0.0`
  pub ge : F → F → Bool
  pub le_zero : F → Bool
  -- `Duration::as_secs_f64`, and the constants 0.8 and 0.2
  pub as_secs : ℕ → F
  pub keep_weight : F
  pub new_weight : F

pub record RoutingInner (F : Type 0) : Type 0 where
  pub backends : Map (LiveBackend F)
  pub rotating_cursor : ℕ

abbrev pub readiness_eq : ReadinessState → ReadinessState → Bool
readiness_eq ReadinessState.checking ReadinessState.checking = true
readiness_eq ReadinessState.ready ReadinessState.ready = true
readiness_eq ReadinessState.unready ReadinessState.unready = true
readiness_eq ReadinessState.unreachable ReadinessState.unreachable = true
readiness_eq _ _ = false

abbrev failed_state : ReadinessFailureKind → ReadinessState
failed_state ReadinessFailureKind.unready = ReadinessState.unready
failed_state ReadinessFailureKind.unreachable = ReadinessState.unreachable

abbrev pub Change : Type 0
Change = Option (ReadinessState × ReadinessState)

abbrev change : ReadinessState → ReadinessState → Change
change previous current = if readiness_eq previous current then none else some (previous, current)

module _ {F : Type 0} where
  -- The entry's part of `record_readiness_success_for`.
  unfoldable pub readiness_success : ℕ → ℕ → LiveBackend F → LiveBackend F
  readiness_success threshold now live =
      let successes = saturating_increment u32_max live.readiness_successes in
      record live {
        readiness_checked_at = some now;
        readiness_error = none;
        readiness_failures = 0;
        readiness_successes = successes;
        readiness = if leb threshold successes then ReadinessState.ready else live.readiness;
      }

  -- The entry's part of `record_readiness_failure_for`.
  unfoldable pub readiness_failure :
      ℕ → ℕ → ReadinessFailureKind → Str → LiveBackend F → LiveBackend F
  readiness_failure threshold now kind error live =
      let failures = saturating_increment u32_max live.readiness_failures in
      record live {
        readiness_checked_at = some now;
        readiness_error = some error;
        readiness_successes = 0;
        readiness_failures = failures;
        readiness = if leb threshold failures then failed_state kind else live.readiness;
      }

  -- `retain` by membership, and the loop over the configured generations.
  unfoldable pub retain_configured : Map ℕ → Map (LiveBackend F) → Map (LiveBackend F)
  retain_configured configured [] = []
  retain_configured configured ((id, live) ∷ rest) =
      let kept = retain_configured configured rest in
      elim (lookup id configured) [ none ↦ kept | some g ↦ (id, live) ∷ kept ]

  unfoldable pub ensure_entry : Str → ℕ → Map (LiveBackend F) → Map (LiveBackend F)
  ensure_entry id generation m = elim (lookup id m) [
    | none ↦ insert id (new_live generation) m
    | some live ↦
        if not (live.topology_generation == generation)
        then insert id (new_live generation) m
        else m
  ]

  unfoldable pub ensure_entries : Map ℕ → Map (LiveBackend F) → Map (LiveBackend F)
  ensure_entries [] m = m
  ensure_entries ((id, generation) ∷ rest) m = ensure_entries rest (ensure_entry id generation m)

  unfoldable pub ensure_backends : Map ℕ → RoutingInner F → RoutingInner F
  ensure_backends configured inner = record inner {
    backends = ensure_entries configured (retain_configured configured inner.backends);
  }

  -- `get_mut(id)` and the generation check, around a change of the entry; `none` is an early return.
  unfoldable pub live_entry : Str → ℕ → RoutingInner F → Option (LiveBackend F)
  live_entry id generation inner = elim (lookup id inner.backends) [
    | none ↦ none
    | some live ↦ if not (live.topology_generation == generation) then none else some live
  ]

  abbrev put_entry : Str → LiveBackend F → RoutingInner F → RoutingInner F
  put_entry id live inner = record inner { backends = insert id live inner.backends }

  unfoldable pub record_readiness_success_for :
      Map ℕ → Str → ℕ → ℕ → ℕ → RoutingInner F → Change × RoutingInner F
  record_readiness_success_for configured id generation threshold now inner =
      let ensured = ensure_backends configured inner in
      elim (live_entry id generation ensured) [
        | none ↦ (none, ensured)
        | some live ↦
            let live' = readiness_success threshold now live in
            (change live.readiness live'.readiness, put_entry id live' ensured)
      ]

  unfoldable pub record_readiness_failure_for :
      Map ℕ
      → Str
      → ℕ
      → ℕ
      → ℕ
      → ReadinessFailureKind
      → Str
      → RoutingInner F
      → Change × RoutingInner F
  record_readiness_failure_for configured id generation threshold now kind error inner =
      let ensured = ensure_backends configured inner in
      elim (live_entry id generation ensured) [
        | none ↦ (none, ensured)
        | some live ↦
            let live' = readiness_failure threshold now kind error live in
            (change live.readiness live'.readiness, put_entry id live' ensured)
      ]

  -- The entry's part of `begin_metrics_scrape`; `dispatches` is the slot's `total_acquired`, read
  -- before.
  unfoldable pub begin_scrape : ℕ → ℕ → Method (LiveBackend F) MetricsScrapeContext
  begin_scrape dispatches observed_at live = elim (checked_increment live.metrics_scrapes_started) [
    | none ↦ panicked live
    | some serial ↦
        returned
          (record {
            serial = serial;
            dispatches_at_observation = dispatches;
            observed_at = observed_at;
          })
          (record live { metrics_scrapes_started = serial })
  ]

  -- The entry's part of `record_metrics_failure_for`.
  unfoldable pub metrics_failure : ℕ → ℕ → Str → LiveBackend F → LiveBackend F
  metrics_failure scrape_serial now error live =
      if leb scrape_serial live.metrics_last_completed_scrape then live else record live {
        metrics_last_completed_scrape = scrape_serial;
        engine_idle_streak = 0;
        metrics_attempted_at = some now;
        metrics_error = some error;
      }

-- `sequences_running == 0 && sequences_waiting == 0`.
abbrev pub engine_idle : {F : Type 0} → MistralRsMetrics F → Bool
engine_idle m = m.sequences_running == 0 && m.sequences_waiting == 0

module _ (float : Float) where
  open float use {F, add, sub, mul, div, ge, le_zero, as_secs, keep_weight, new_weight}

  smooth : Option F → F → F
  smooth none rate = rate
  smooth (some old) rate = add (mul old keep_weight) (mul rate new_weight)

  unfoldable pub counter_rate : F → Option (F × ℕ) → ℕ → Option F → Option F
  unfolding smooth
  counter_rate current none now old_rate = none
  counter_rate current (some (previous_value, at)) now old_rate =
      let elapsed = as_secs (now - at) in
      if le_zero elapsed
      then old_rate
      else (let delta = if ge current previous_value then sub current previous_value else current in
          some (smooth old_rate (div delta elapsed)))

  -- One of the three counters: its new rate, and its new previous value.
  observe_counter : Option F → Option (F × ℕ) → ℕ → Option F → Option F × Option (F × ℕ)
  unfolding counter_rate
  observe_counter none previous now rate = (rate, previous)
  observe_counter (some tokens) previous now rate =
      (counter_rate tokens previous now rate, some (tokens, now))

  -- The entry's part of `record_metrics_success_for`.
  unfoldable pub metrics_success :
      MistralRsMetrics F → MetricsScrapeContext → ℕ → LiveBackend F → LiveBackend F
  unfolding observe_counter
  metrics_success metrics scrape now live =
      if leb scrape.serial live.metrics_last_completed_scrape
      then live
      else (let (rate, counter) =
            observe_counter metrics.tokens_processed_total live.previous_token_counter now
              live.token_rate in
          let (prefill_rate, prefill_counter) =
            observe_counter metrics.prefill_tokens_processed_total live.previous_prefill_counter now
              live.prefill_token_rate in
          let (decode_rate, decode_counter) =
            observe_counter metrics.decode_tokens_processed_total live.previous_decode_counter now
              live.decode_token_rate in
          record live {
            token_rate = rate;
            previous_token_counter = counter;
            prefill_token_rate = prefill_rate;
            previous_prefill_counter = prefill_counter;
            decode_token_rate = decode_rate;
            previous_decode_counter = decode_counter;
            metrics = some (record {
              metrics = metrics;
              observed_at = scrape.observed_at;
              dispatches_at_observation = scrape.dispatches_at_observation;
              scrape_serial = scrape.serial;
            });
            metrics_attempted_at = some now;
            metrics_generation = (live.metrics_generation + 1) % 18446744073709551616;
            metrics_last_completed_scrape = scrape.serial;
            engine_idle_streak =
                if engine_idle metrics
                then saturating_increment u64_max live.engine_idle_streak
                else 0;
            metrics_error = none;
          })
