-- ===== src/Telemetry/Tests.antt =====
-- Texts of metrics, with natural numbers for `f64`, and the theorems on them.
use mistralrs_proxy.Prelude.{
  ℕ, ◌+◌, ◌*◌, ◌-◌, ◌≡◌, ◌≢◌, refl, ltb, true, false, Bool, Option, none, some, List, [], ◌∷◌, ◌++◌,
  arith, if◌then◌else◌, Str, codes,
}
use mistralrs_proxy.Backend.Slot.{ok, err}
use mistralrs_proxy.Routing.{MistralRsMetrics}
use mistralrs_proxy.Telemetry.{
  MetricFloat, metric_of, find_metric, sequences_running, sequences_waiting, parse_gauge_count,
  observe_gauge, finish_counter, finish_family,
}
use mistralrs_proxy.Telemetry.Line.{
  space_length, trim_from, trim_start, trim_end, trim, until_whitespace, lines_from, lines, span,
  metric_name_prefix, labels_of, check_remainder, value_of, is_digit, parse_sample_line,
}
use mistralrs_proxy.Telemetry.Parse.{
  start, observe_as, observe, read_metric, read_line, read_lines, finish, metric_changed,
  parse_mistralrs_metrics,
}
use mistralrs_proxy.Telemetry.Once.{
  running, waiting, capacity, kv_used, kv_total, lines_of, Once, Says, parse_mistralrs_metrics-ok,
}
use mistralrs_proxy.Telemetry.Reachable.{parse_mistralrs_metrics-reachable}
use mistralrs_proxy.Telemetry.Sample.{
  literal, escaped, plain, quoted, Piece, label_text, parse_sample_line-text,
}

abbrev decimal : ℕ → Str → Option ℕ
decimal n [] = some n
decimal n (b ∷ rest) = if is_digit b then decimal (n * 10 + (b - b'0')) rest else none

abbrev fl : MetricFloat ℕ
fl = record {
  parse = decimal 0;
  is_finite = λ n. true;
  is_negative = λ n. false;
  is_zero = λ n. ltb n 1;
  has_fraction = λ n. false;
  above_max_exact = λ n. ltb 9_007_199_254_740_991 n;
  to_u64 = λ n. n;
  add = λ a b. a + b;
  zero = 0;
}

-- A comment, two gauges, and an unknown metric.
abbrev text : Str
text =
    codes "# g"
    ++ (b'\n' ∷ codes "mistralrs_sequences_running 3"
        ++ (b'\n' ∷ codes "up 1" ++ (b'\n' ∷ codes "mistralrs_sequences_waiting 12 # w")))

abbrev metrics : MistralRsMetrics ℕ
metrics = record {
  sequences_running = 3;
  sequences_waiting = 12;
  sequences_capacity = none;
  kv_cache = none;
  tokens_processed_total = none;
  prefill_tokens_processed_total = none;
  decode_tokens_processed_total = none;
  sequences_completed_total = none;
}

text_parsed : parse_mistralrs_metrics fl text ≡ ok metrics
unfolding parse_mistralrs_metrics read_lines read_line read_metric observe observe_as observe_gauge
    parse_gauge_count start finish finish_counter finish_family lines lines_from trim trim_start
    trim_from trim_end space_length until_whitespace span metric_name_prefix metric_of find_metric
    mistralrs_proxy.Prelude.str_eq labels_of check_remainder value_of parse_sample_line
text_parsed = refl

parse_mistralrs_metrics-ok_example :
    Once fl running (lines_of sequences_running (lines text)) 3
    × Once fl waiting (lines_of sequences_waiting (lines text)) 12
    × Says fl capacity (lines text) none
    × Says fl kv_used (lines text) none
    × Says fl kv_total (lines text) none
parse_mistralrs_metrics-ok_example = parse_mistralrs_metrics-ok fl text metrics text_parsed

parse_mistralrs_metrics-reachable_example : parse_mistralrs_metrics fl text ≢ err metric_changed
parse_mistralrs_metrics-reachable_example = parse_mistralrs_metrics-reachable fl text

-- A closing brace and an escaped quote inside a string.
abbrev pieces : List Piece
pieces = plain b'a' ∷ plain b'=' ∷ quoted (literal b'}' ∷ escaped b'"' ∷ []) ∷ []

parse_sample_line-text_example :
    parse_sample_line (b'm' ∷ b'x' ∷ b'{' ∷ label_text pieces (b' ' ∷ b'7' ∷ []))
    ≡ ok (record {
      name = b'm' ∷ b'x' ∷ [];
      labels = some (b'{' ∷ label_text pieces []);
      value = b'7' ∷ [];
    })
parse_sample_line-text_example =
    parse_sample_line-text b'm' (b'x' ∷ []) pieces b'7' [] refl (refl, tt)
      (
        ((λ e. ground arith), (λ e. ground arith)),
        (
          ((λ e. ground arith), (λ e. ground arith)),
          ((((λ e. ground arith), (λ e. ground arith)), (tt, tt)), tt),
        ),
      )
      (refl, tt)
