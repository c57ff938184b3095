-- ===== src/Telemetry.antt =====
-- The parser of a backend's metrics (src/telemetry.rs): the metrics that it recognises, its errors, and
-- the gauges and counters that it fills. `MetricFloat` is the `f64` of the source, with its parser.
pub mod Line
pub mod Parse
pub mod Scan
pub mod Sample
pub mod Once
pub mod Reachable
mod Tests
use mistralrs_proxy.Prelude.{
  ℕ, Bool, true, false, not, ◌&&◌, ◌||◌, Option, none, some, List, [], ◌∷◌, if◌then◌else◌, Str,
  str_eq, codes,
}
use mistralrs_proxy.Backend.Slot.{Result, ok, err}

pub data Metric : Type 0 where
  sequences_running sequences_waiting sequences_capacity : Metric
  kv_cache_blocks_used kv_cache_blocks_total : Metric
  tokens_processed_total prefill_tokens_processed_total decode_tokens_processed_total : Metric
  sequences_completed_total : Metric

abbrev pub metric_name : Metric → Str
metric_name sequences_running = codes "mistralrs_sequences_running"
metric_name sequences_waiting = codes "mistralrs_sequences_waiting"
metric_name sequences_capacity = codes "mistralrs_sequences_capacity"
metric_name kv_cache_blocks_used = codes "mistralrs_kv_cache_blocks_used"
metric_name kv_cache_blocks_total = codes "mistralrs_kv_cache_blocks_total"
metric_name tokens_processed_total = codes "mistralrs_tokens_processed_total"
metric_name prefill_tokens_processed_total = codes "mistralrs_prefill_tokens_processed_total"
metric_name decode_tokens_processed_total = codes "mistralrs_decode_tokens_processed_total"
metric_name sequences_completed_total = codes "mistralrs_sequences_completed_total"

abbrev pub all_metrics : List Metric
all_metrics =
    sequences_running ∷ sequences_waiting ∷ sequences_capacity ∷ kv_cache_blocks_used
    ∷ kv_cache_blocks_total ∷ tokens_processed_total ∷ prefill_tokens_processed_total
    ∷ decode_tokens_processed_total ∷ sequences_completed_total ∷ []

unfoldable pub find_metric : Str → List Metric → Option Metric
find_metric name [] = none
find_metric name (k ∷ ks) = if str_eq name (metric_name k) then some k else find_metric name ks

-- The `match` on the name of a metric; `none` is its last arm.
unfoldable pub metric_of : Str → Option Metric
unfolding find_metric
metric_of name = find_metric name all_metrics

-- The texts of a `reason`.
pub data Reason : Type 0 where
  labels_not_allowed : Reason
  not_a_number not_finite negative not_positive not_an_integer too_large : Reason
  invalid_metric_name expected_whitespace value_missing unterminated_label_set : Reason
  unexpected_after_value unexpected_after_timestamp : Reason

pub data MetricsParseError : Type 0 where
  missing_required_metric : Metric → MetricsParseError
  duplicate_required_metric : Metric → ℕ → ℕ → MetricsParseError
  malformed_required_metric : Metric → ℕ → Reason → MetricsParseError
  incomplete_kv_cache_metrics : Metric → MetricsParseError

pub record ParsedSample : Type 0 where
  pub name : Str
  pub labels : Option Str
  pub value : Str

pub record MetricFloat (F : Type 0) : Type 0 where
  pub parse : Str → Option F
  pub is_finite : F → Bool
  pub is_negative : F → Bool
  pub is_zero : F → Bool
  pub has_fraction : F → Bool
  -- above `MAX_EXACT_F64_INTEGER`
  pub above_max_exact : F → Bool
  pub to_u64 : F → ℕ
  pub add : F → F → F
  pub zero : F

pub record RequiredGauge : Type 0 where
  pub metric : Metric
  pub value : Option ℕ
  pub line : Option ℕ
  pub positive : Bool

abbrev pub new_gauge : Metric → Bool → RequiredGauge
new_gauge metric positive = record {
  metric = metric;
  value = none;
  line = none;
  positive = positive;
}

pub record OptionalSingleCounter (F : Type 0) : Type 0 where
  pub value : Option F
  pub invalid : Bool

-- `series` is the set of label sets that were seen.
pub record OptionalCounterFamily (F : Type 0) : Type 0 where
  pub total : F
  pub seen : Bool
  pub invalid : Bool
  pub series : List Str

abbrev pub has_series : Str → List Str → Bool
has_series s [] = false
has_series s (t ∷ ts) = str_eq s t || has_series s ts

abbrev labels_or_default : Option Str → Str
labels_or_default none = []
labels_or_default (some labels) = labels

abbrev is_some : Option Str → Bool
is_some none = false
is_some (some s) = true

module _ {F : Type 0} (fl : MetricFloat F) where
  unfoldable pub parse_gauge_count : Str → Bool → Result ℕ Reason
  parse_gauge_count text positive = elim (fl.parse text) [
    | none ↦ err not_a_number
    | some value ↦
        if not (fl.is_finite value)
        then err not_finite
        else if fl.is_negative value
        then err negative
        else if positive && fl.is_zero value
        then err not_positive
        else if fl.has_fraction value
        then err not_an_integer
        else if fl.above_max_exact value
        then err too_large
        else ok (fl.to_u64 value)
  ]

  unfoldable pub parse_counter : Str → Option F
  parse_counter text = elim (fl.parse text) [
    | none ↦ none
    | some value ↦ if fl.is_finite value && not (fl.is_negative value) then some value else none
  ]

  unfoldable pub observe_gauge :
      ParsedSample → ℕ → RequiredGauge → Result RequiredGauge MetricsParseError
  unfolding parse_gauge_count
  observe_gauge sample at g = elim g.line [
    | some first_line ↦ err (duplicate_required_metric g.metric first_line at)
    | none ↦
        if is_some sample.labels
        then err (malformed_required_metric g.metric at labels_not_allowed)
        else elim (parse_gauge_count sample.value g.positive) [
          | err reason ↦ err (malformed_required_metric g.metric at reason)
          | ok value ↦ ok (record g { value = some value; line = some at })
        ]
  ]

  abbrev invalid_counter : OptionalSingleCounter F
  invalid_counter = record { value = none; invalid = true }

  abbrev is_seen : Option F → Bool
  is_seen none = false
  is_seen (some v) = true

  unfoldable pub observe_counter : ParsedSample → OptionalSingleCounter F → OptionalSingleCounter F
  unfolding parse_counter
  observe_counter sample c =
      if is_seen c.value || is_some sample.labels
      then invalid_counter
      else elim (parse_counter sample.value) [
        | some value ↦ record c { value = some value }
        | none ↦ record c { invalid = true }
      ]

  unfoldable pub invalidate_counter : OptionalSingleCounter F → OptionalSingleCounter F
  invalidate_counter c = invalid_counter

  unfoldable pub finish_counter : OptionalSingleCounter F → Option F
  finish_counter c = if not c.invalid then c.value else none

  unfoldable pub observe_family : ParsedSample → OptionalCounterFamily F → OptionalCounterFamily F
  unfolding parse_counter
  observe_family sample c =
      let series = labels_or_default sample.labels in
      elim (parse_counter sample.value) [
        | none ↦ record c { invalid = true }
        | some value ↦
            if has_series series c.series
            then record c { invalid = true }
            else (let total = fl.add c.total value in
                record {
                  total = total;
                  seen = true;
                  invalid = if not (fl.is_finite total) then true else c.invalid;
                  series = series ∷ c.series;
                })
      ]

  unfoldable pub invalidate_family : OptionalCounterFamily F → OptionalCounterFamily F
  invalidate_family c = record c { invalid = true }

  unfoldable pub finish_family : OptionalCounterFamily F → Option F
  finish_family c = if c.seen && not c.invalid then some c.total else none
