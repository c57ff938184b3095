-- ===== src/Telemetry/Reachable.antt =====
-- The arm of the parser's `match` that is marked unreachable (src/telemetry.rs).
use mistralrs_proxy.Prelude.{
  ℕ, ◌+◌, ◌≡◌, ap, ◌∙◌, ◌≢◌, inl, inr, some, List, [], ◌∷◌, arith, Option-cases, Str,
}
use mistralrs_proxy.Backend.Slot.{err, Result-cases}
use mistralrs_proxy.Telemetry.{Metric, metric_of, MetricFloat}
use mistralrs_proxy.Telemetry.Line.{trim, lines, metric_name_prefix, parse_sample_line}
use mistralrs_proxy.Telemetry.Parse.{
  Parsing, metric_changed, start, observe_as, observe, unreadable, read_metric, read_line,
  read_lines, parse_mistralrs_metrics,
}
use mistralrs_proxy.Telemetry.Scan.{parse_sample_line-name}

module _ {F : Type 0} (fl : MetricFloat F) where
  read_metric-reachable :
      (k : Metric) (at : ℕ) (line : Str) (st : Parsing F)
      → metric_of (metric_name_prefix line) ≡ some k
      → read_metric fl k at line st ≢ err metric_changed
  unfolding read_metric observe observe_as unreadable
  read_metric-reachable k at line st known e = elim (Result-cases (parse_sample_line line)) [
    | inr (reason, bad) ↦ ground arith
    | inl (s, good) ↦
        let named : metric_of s.name ≡ some k =
          ap metric_of (parse_sample_line-name line s good) ∙ known in
        ground arith
  ]

  read_lines-reachable :
      (at : ℕ) (ls : List Str) (st : Parsing F) → read_lines fl at ls st ≢ err metric_changed
  unfolding read_lines read_line
  read_lines-reachable at [] st e = ground arith
  read_lines-reachable at (raw ∷ ls) st e =
      let rest : (next : Parsing F) → read_lines fl (at + 1) ls next ≢ err metric_changed =
        λ next. read_lines-reachable (at + 1) ls next in
      elim (Option-cases (metric_of (metric_name_prefix (trim raw)))) [
        | inl unknown ↦ rest st (ground arith)
        | inr (k, known) ↦
            let reachable = read_metric-reachable k at (trim raw) st known in
            elim (Result-cases (read_line fl at raw st)) [
              | inl (mid, good) ↦ rest mid (ground arith)
              | inr (x, bad) ↦ ground arith
            ]
      ]

  -- No text reaches the `unreachable!` of the loop: a sample has the name that its line was recognised by.
  pub parse_mistralrs_metrics-reachable :
      (input : Str) → parse_mistralrs_metrics fl input ≢ err metric_changed
  unfolding parse_mistralrs_metrics
  parse_mistralrs_metrics-reachable input e =
      let r = read_lines-reachable 1 (lines input) (start fl) in ground arith
