-- ===== src/Telemetry/Parse.antt =====
-- `parse_mistralrs_metrics` of src/telemetry.rs: its loop over the lines, and the snapshot that it makes
-- of the gauges and counters.
use mistralrs_proxy.Prelude.{
  ℕ, ◌+◌, true, false, Option, none, some, List, [], ◌∷◌, if◌then◌else◌, Str,
}
use mistralrs_proxy.Backend.Slot.{Result, ok, err}
use mistralrs_proxy.Routing.{MistralRsMetrics, KvCacheMetrics}
use mistralrs_proxy.Telemetry.{
  Metric, sequences_running, sequences_waiting, sequences_capacity, kv_cache_blocks_used,
  kv_cache_blocks_total, tokens_processed_total, prefill_tokens_processed_total,
  decode_tokens_processed_total, sequences_completed_total, metric_of, Reason, MetricsParseError,
  missing_required_metric, malformed_required_metric, incomplete_kv_cache_metrics, ParsedSample,
  MetricFloat, RequiredGauge, new_gauge, OptionalSingleCounter, OptionalCounterFamily,
  observe_gauge, observe_counter, invalidate_counter, finish_counter, observe_family,
  invalidate_family, finish_family,
}
use mistralrs_proxy.Telemetry.Line.{trim, lines, ends, metric_name_prefix, parse_sample_line}

-- The variables of the loop.
pub record Parsing (F : Type 0) : Type 0 where
  pub running : RequiredGauge
  pub waiting : RequiredGauge
  pub capacity : RequiredGauge
  pub kv_used : RequiredGauge
  pub kv_total : RequiredGauge
  pub tokens : OptionalSingleCounter F
  pub prefill_tokens : OptionalSingleCounter F
  pub decode_tokens : OptionalSingleCounter F
  pub completions : OptionalCounterFamily F

-- An error that is returned, or the `unreachable!` of the loop.
pub data ParseFailure : Type 0 where
  refused : MetricsParseError → ParseFailure
  metric_changed : ParseFailure

abbrev pub with_gauge {ℓ} :
    {A : Type ℓ}
    → Result RequiredGauge MetricsParseError
    → (RequiredGauge → A)
    → Result A ParseFailure
with_gauge (ok g) put = ok (put g)
with_gauge (err e) put = err (refused e)

module _ {F : Type 0} (fl : MetricFloat F) where
  abbrev new_counter : OptionalSingleCounter F
  new_counter = record { value = none; invalid = false }

  unfoldable pub start : Parsing F
  start = record {
    running = new_gauge sequences_running false;
    waiting = new_gauge sequences_waiting false;
    capacity = new_gauge sequences_capacity true;
    kv_used = new_gauge kv_cache_blocks_used false;
    kv_total = new_gauge kv_cache_blocks_total true;
    tokens = new_counter;
    prefill_tokens = new_counter;
    decode_tokens = new_counter;
    completions = record { total = fl.zero; seen = false; invalid = false; series = [] };
  }

  -- The arms of the `match` on the name of a sample.
  unfoldable pub observe_as :
      Metric → ParsedSample → ℕ → Parsing F → Result (Parsing F) ParseFailure
  unfolding observe_gauge observe_counter observe_family
  observe_as sequences_running s at st =
      with_gauge (observe_gauge fl s at st.running) (λ g. record st { running = g })
  observe_as sequences_waiting s at st =
      with_gauge (observe_gauge fl s at st.waiting) (λ g. record st { waiting = g })
  observe_as sequences_capacity s at st =
      with_gauge (observe_gauge fl s at st.capacity) (λ g. record st { capacity = g })
  observe_as kv_cache_blocks_used s at st =
      with_gauge (observe_gauge fl s at st.kv_used) (λ g. record st { kv_used = g })
  observe_as kv_cache_blocks_total s at st =
      with_gauge (observe_gauge fl s at st.kv_total) (λ g. record st { kv_total = g })
  observe_as tokens_processed_total s at st =
      ok (record st { tokens = observe_counter fl s st.tokens })
  observe_as prefill_tokens_processed_total s at st =
      ok (record st { prefill_tokens = observe_counter fl s st.prefill_tokens })
  observe_as decode_tokens_processed_total s at st =
      ok (record st { decode_tokens = observe_counter fl s st.decode_tokens })
  observe_as sequences_completed_total s at st =
      ok (record st { completions = observe_family fl s st.completions })

  unfoldable pub observe : ParsedSample → ℕ → Parsing F → Result (Parsing F) ParseFailure
  unfolding observe_as
  observe s at st = elim (metric_of s.name) [
    | none ↦ err metric_changed
    | some k ↦ observe_as k s at st
  ]

  -- A line of a metric that cannot be parsed.
  unfoldable pub unreadable : Metric → ℕ → Reason → Parsing F → Result (Parsing F) ParseFailure
  unfolding invalidate_counter invalidate_family
  unreadable tokens_processed_total at reason st =
      ok (record st { tokens = invalidate_counter fl st.tokens })
  unreadable prefill_tokens_processed_total at reason st =
      ok (record st { prefill_tokens = invalidate_counter fl st.prefill_tokens })
  unreadable decode_tokens_processed_total at reason st =
      ok (record st { decode_tokens = invalidate_counter fl st.decode_tokens })
  unreadable sequences_completed_total at reason st =
      ok (record st { completions = invalidate_family fl st.completions })
  unreadable sequences_running at reason st =
      err (refused (malformed_required_metric sequences_running at reason))
  unreadable sequences_waiting at reason st =
      err (refused (malformed_required_metric sequences_waiting at reason))
  unreadable sequences_capacity at reason st =
      err (refused (malformed_required_metric sequences_capacity at reason))
  unreadable kv_cache_blocks_used at reason st =
      err (refused (malformed_required_metric kv_cache_blocks_used at reason))
  unreadable kv_cache_blocks_total at reason st =
      err (refused (malformed_required_metric kv_cache_blocks_total at reason))

  unfoldable pub read_metric : Metric → ℕ → Str → Parsing F → Result (Parsing F) ParseFailure
  unfolding parse_sample_line observe unreadable
  read_metric k at line st = elim (parse_sample_line line) [
    | err reason ↦ unreadable k at reason st
    | ok sample ↦ observe sample at st
  ]

  unfoldable pub read_line : ℕ → Str → Parsing F → Result (Parsing F) ParseFailure
  unfolding trim read_metric
  read_line at raw_line st =
      let line = trim raw_line in
      if ends line then ok st else elim (metric_of (metric_name_prefix line)) [
        | none ↦ ok st
        | some k ↦ read_metric k at line st
      ]

  unfoldable pub read_lines : ℕ → List Str → Parsing F → Result (Parsing F) ParseFailure
  unfolding read_line
  read_lines at [] st = ok st
  read_lines at (line ∷ later) st = elim (read_line at line st) [
    | err e ↦ err e
    | ok next ↦ read_lines (at + 1) later next
  ]

  abbrev kv_pair : Option ℕ → Option ℕ → Result (Option KvCacheMetrics) MetricsParseError
  kv_pair none none = ok none
  kv_pair (some used) (some total) = ok (some (record { used = used; total = total }))
  kv_pair none (some total) = err (incomplete_kv_cache_metrics kv_cache_blocks_used)
  kv_pair (some used) none = err (incomplete_kv_cache_metrics kv_cache_blocks_total)

  unfoldable pub finish : Parsing F → Result (MistralRsMetrics F) MetricsParseError
  unfolding finish_counter finish_family
  finish st = elim st.running.value [
    | none ↦ err (missing_required_metric sequences_running)
    | some running ↦ elim st.waiting.value [
      | none ↦ err (missing_required_metric sequences_waiting)
      | some waiting ↦ elim (kv_pair st.kv_used.value st.kv_total.value) [
        | err e ↦ err e
        | ok kv_cache ↦ ok (record {
          sequences_running = running;
          sequences_waiting = waiting;
          sequences_capacity = st.capacity.value;
          kv_cache = kv_cache;
          tokens_processed_total = finish_counter fl st.tokens;
          prefill_tokens_processed_total = finish_counter fl st.prefill_tokens;
          decode_tokens_processed_total = finish_counter fl st.decode_tokens;
          sequences_completed_total = finish_family fl st.completions;
        })
      ]
    ]
  ]

  unfoldable pub parse_mistralrs_metrics : Str → Result (MistralRsMetrics F) ParseFailure
  unfolding lines read_lines start finish
  parse_mistralrs_metrics input = elim (read_lines 1 (lines input) start) [
    | err e ↦ err e
    | ok st ↦ elim (finish st) [ err e ↦ err (refused e) | ok metrics ↦ ok metrics ]
  ]
