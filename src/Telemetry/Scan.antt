-- ===== src/Telemetry/Scan.antt =====
-- Names of metrics (src/telemetry.rs): what is recognised, and that a sample has the name that its line
-- was recognised by.
use mistralrs_proxy.Prelude.{
  ℕ, ◌≡◌, refl, sym, ap, ◌∙◌, ◌⊎◌, inl, inr, Bool, true, false, not, ◌||◌, Option, none, some, List,
  [], ◌∷◌, arith, Bool-cases, Option-cases, if◌then◌else◌, Str, str_eq, str_eq_iff,
}
use mistralrs_proxy.Backend.Slot.{ok, Result-cases}
use mistralrs_proxy.Telemetry.{
  Metric, sequences_running, sequences_waiting, sequences_capacity, kv_cache_blocks_used,
  kv_cache_blocks_total, tokens_processed_total, prefill_tokens_processed_total,
  decode_tokens_processed_total, sequences_completed_total, all_metrics, metric_of, find_metric,
  metric_name, ParsedSample,
}
use mistralrs_proxy.Telemetry.Line.{
  span, is_metric_name_continue, metric_name_prefix, labels_of, value_of, parse_sample_line,
}

pub metric_of-metric_name : (k : Metric) → metric_of (metric_name k) ≡ some k
unfolding metric_of find_metric mistralrs_proxy.Prelude.str_eq
metric_of-metric_name sequences_running = refl
metric_of-metric_name sequences_waiting = refl
metric_of-metric_name sequences_capacity = refl
metric_of-metric_name kv_cache_blocks_used = refl
metric_of-metric_name kv_cache_blocks_total = refl
metric_of-metric_name tokens_processed_total = refl
metric_of-metric_name prefill_tokens_processed_total = refl
metric_of-metric_name decode_tokens_processed_total = refl
metric_of-metric_name sequences_completed_total = refl

find_metric-some :
    (name : Str) (ks : List Metric) (k : Metric)
    → find_metric name ks ≡ some k
    → name ≡ metric_name k
unfolding find_metric
find_metric-some name [] k e = absurd (ground arith)
find_metric-some name (j ∷ ks) k e = elim (Bool-cases (str_eq name (metric_name j))) [
  | inl here ↦
      let same : j ≡ k = ground arith in
      (str_eq_iff name (metric_name j)).0 here ∙ ap metric_name same
  | inr later ↦ find_metric-some name ks k (ground arith)
]

-- Only the name of a metric is recognised as that metric.
pub metric_of-some : (name : Str) (k : Metric) → metric_of name ≡ some k → name ≡ metric_name k
unfolding metric_of
metric_of-some name k e = find_metric-some name all_metrics k e

pub value_of-name :
    (name : Str) (labels : Option Str) (rest : Str) (s : ParsedSample)
    → value_of name labels rest ≡ ok s
    → s.name ≡ name
unfolding value_of
value_of-name name labels rest s e = ground arith

pub parse_sample_line-name :
    (line : Str) (s : ParsedSample)
    → parse_sample_line line ≡ ok s
    → s.name ≡ metric_name_prefix line
unfolding parse_sample_line metric_name_prefix
parse_sample_line-name line s e =
    let (name, rest) = span is_metric_name_continue line in
    elim (Result-cases (labels_of (span is_metric_name_continue line).1)) [
      | inr (x, bad) ↦ absurd (ground arith)
      | inl ((labels, tail), good) ↦
          let shown = value_of-name (span is_metric_name_continue line).0 labels tail s in
          ground arith
    ]

-- Whether a line is of a metric, read off its name: the text of the parser's dispatch.
pub metric_name_inj :
    (name : Str) (k j : Metric)
    → metric_of name ≡ some k
    → str_eq name (metric_name j) ≡ true
    → k ≡ j
metric_name_inj name k j e same =
    let named : metric_of name ≡ some j =
      ap metric_of ((str_eq_iff name (metric_name j)).0 same) ∙ metric_of-metric_name j in
    ground arith

pub metric_of-none :
    (name : Str) (j : Metric) → metric_of name ≡ none → str_eq name (metric_name j) ≡ false
metric_of-none name j e = elim (Bool-cases (str_eq name (metric_name j))) [
  | inl same ↦
      let named : metric_of name ≡ some j =
        ap metric_of ((str_eq_iff name (metric_name j)).0 same) ∙ metric_of-metric_name j in
      absurd (ground arith)
  | inr other ↦ other
]
