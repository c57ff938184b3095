-- ===== src/Routing/Tests.antt =====
-- The breaker, the probes and the scrapes of one backend, and the theorems at concrete histories.
use mistralrs_proxy.Prelude.{
  List, ℕ, ◌+◌, ◌≡◌, refl, ◌⊎◌, true, false, none, some, [], ◌∷◌, arith, min, u32_max,
}
use mistralrs_proxy.Prelude.Monad.{returned}
use mistralrs_proxy.Routing.{
  ReadinessState, ReadinessFailureKind, Circuit, open_until, LiveBackend, MistralRsMetrics,
  MetricsScrapeContext, new_live,
}
use mistralrs_proxy.Routing.Breaker.{
  failure, CircuitPermit, BodyFailureObserver, circuit_open_for, admit, try_circuit_permit, resolve,
}
use mistralrs_proxy.Routing.Breaker.Fits.{Fits}
use mistralrs_proxy.Routing.Breaker.Epochs.{
  Reach, here, next, takes, resolves, start, Reach-one_trial,
}
use mistralrs_proxy.Routing.Breaker.Trips.{respond_all, third_in_a_row, respond_all-opens}
use mistralrs_proxy.Routing.Health.{Float, begin_scrape}
use mistralrs_proxy.Routing.Health.Readiness.{
  passed, failed, leading_passes, leading_failures, readiness_of, probe_all, probe_all-readiness_of,
}
use mistralrs_proxy.Routing.Health.Scrapes.{
  Certifies, begins, succeeds, handle, handle_all, AllBegun, handle_all-new_live,
}

-- A backend whose circuit opened at instant 0 in epoch 1.
abbrev live_0 : LiveBackend ℕ
live_0 = record {
  topology_generation = 1;
  readiness = ReadinessState.checking;
  readiness_successes = 0;
  readiness_failures = 0;
  readiness_error = none;
  readiness_checked_at = none;
  metrics = none;
  metrics_error = none;
  metrics_attempted_at = none;
  metrics_generation = 0;
  metrics_scrapes_started = 0;
  metrics_last_completed_scrape = 0;
  engine_idle_streak = 0;
  token_rate = none;
  previous_token_counter = none;
  prefill_token_rate = none;
  previous_prefill_counter = none;
  decode_token_rate = none;
  previous_decode_counter = none;
  circuit = Circuit.closed;
  circuit_epoch = 0;
  consecutive_request_failures = 0;
}

abbrev opened : LiveBackend ℕ
opened = record live_0 {
  circuit = open_until circuit_open_for;
  circuit_epoch = 1;
  consecutive_request_failures = 3;
}

abbrev plain_permit : CircuitPermit
plain_permit = record { circuit_epoch = 0; trial = false; resolved = false }

abbrev late_observer : BodyFailureObserver
late_observer = record { circuit_epoch = 0; open_immediately = false }

abbrev failed_once : LiveBackend ℕ
failed_once = record live_0 { consecutive_request_failures = 1 }

one_failure : Reach (start {F = ℕ} 1) (record { live = failed_once; permits = []; observers = [] })
unfolding new_live try_circuit_permit admit resolve
one_failure = next (next here (takes 0 plain_permit live_0 refl)) (
    resolves 0 failure [] [] plain_permit (record plain_permit { resolved = true }) failed_once refl
      refl)

Reach-one_trial_example : Fits Circuit.closed 0 1 [] []
Reach-one_trial_example =
    Reach-one_trial 1 (record { live = failed_once; permits = []; observers = [] }) one_failure

-- A second apart; the third failure is at three seconds.
abbrev some_answers : List (ℕ × ℕ)
some_answers =
    (0, 500)
    ∷ (1_000_000_000, 429)
    ∷ (2_000_000_000, 503)
    ∷ (3_000_000_000, 502)
    ∷ (4_000_000_000, 200)
    ∷ []

respond_all-opens_example :
    (after : LiveBackend ℕ) × (respond_all 0 some_answers live_0 ≡ returned tt after)
    × (((third : ℕ) × (third_in_a_row 0 some_answers ≡ some third)
          × (after.circuit ≡ open_until (third + 10_000_000_000))
          × (after.circuit_epoch ≡ 0 + 1))
        ⊎ ((third_in_a_row 0 some_answers ≡ none)
            × (after.circuit ≡ Circuit.closed)
            × (after.circuit_epoch ≡ 0)))
respond_all-opens_example =
    respond_all-opens 0 0 some_answers live_0 (omega arith) (omega arith) refl refl refl

row_of_three : third_in_a_row 0 some_answers ≡ some 3_000_000_000
unfolding third_in_a_row
row_of_three = refl

row_broken : third_in_a_row 0 ((0, 500) ∷ (1, 503) ∷ (2, 200) ∷ (3, 502) ∷ []) ≡ none
unfolding third_in_a_row
row_broken = refl

probe_all-readiness_of_example :
    let history = passed 3 ∷ passed 2 ∷ failed 1 ReadinessFailureKind.unready [] ∷ [] in
    let live = probe_all 2 3 {F = ℕ} history (new_live 1) in
    (live.readiness ≡ readiness_of 2 3 history)
    × (live.readiness_successes ≡ min u32_max (leading_passes history))
    × (live.readiness_failures ≡ min u32_max (leading_failures history))
probe_all-readiness_of_example =
    probe_all-readiness_of 2 3 ℕ 1
      (passed 3 ∷ passed 2 ∷ failed 1 ReadinessFailureKind.unready [] ∷ []) (omega arith)
      (omega arith)

-- Numbers in place of `f64`.
abbrev whole : Float
whole = record {
  F = ℕ;
  add = λ a b. a + b;
  sub = λ a b. a;
  mul = λ a b. a;
  div = λ a b. a;
  ge = λ a b. true;
  le_zero = λ a. false;
  as_secs = λ a. a;
  keep_weight = 0;
  new_weight = 1;
}

abbrev idle_metrics : MistralRsMetrics ℕ
idle_metrics = record {
  sequences_running = 0;
  sequences_waiting = 0;
  sequences_capacity = none;
  kv_cache = none;
  tokens_processed_total = some 5;
  prefill_tokens_processed_total = none;
  decode_tokens_processed_total = none;
  sequences_completed_total = none;
}

abbrev first_scrape : MetricsScrapeContext
first_scrape = record { serial = 1; dispatches_at_observation = 0; observed_at = 4 }

scrapes_begun : AllBegun whole (begins 0 4 ∷ succeeds idle_metrics first_scrape 6 ∷ []) (new_live 1)
unfolding handle new_live begin_scrape
scrapes_begun = (tt, (omega arith, tt))

handle_all-new_live_example :
    Certifies
      (handle_all whole (begins 0 4 ∷ succeeds idle_metrics first_scrape 6 ∷ []) (new_live 1))
handle_all-new_live_example =
    handle_all-new_live whole 1 (begins 0 4 ∷ succeeds idle_metrics first_scrape 6 ∷ [])
      scrapes_begun
