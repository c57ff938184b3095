-- ===== src/Telemetry/Once.antt =====
-- What a parsed snapshot of metrics tells (src/telemetry.rs): how often each gauge occurs in the text.
use mistralrs_proxy.Prelude.{
  ℕ, ◌+◌, ◌≡◌, refl, ap, subst, ◌∙◌, ◌≢◌, ◌⊎◌, inl, inr, Bool, true, false, not, ◌&&◌, Option, none,
  some, List, [], ◌∷◌, ◌++◌, arith, Bool-cases, Option-cases, if◌then◌else◌, Str, str_eq,
  str_eq_iff,
}
use mathlib.Core.List.{append_assoc, append-nil}
use mistralrs_proxy.Backend.Slot.{ok, Result-cases}
use mistralrs_proxy.Routing.{MistralRsMetrics, KvCacheMetrics}
use mistralrs_proxy.Telemetry.{
  Metric, sequences_running, sequences_waiting, sequences_capacity, kv_cache_blocks_used,
  kv_cache_blocks_total, tokens_processed_total, prefill_tokens_processed_total,
  decode_tokens_processed_total, sequences_completed_total, metric_of, metric_name, ParsedSample,
  MetricFloat, RequiredGauge, parse_gauge_count, observe_gauge,
}
use mistralrs_proxy.Telemetry.Line.{trim, lines, ends, metric_name_prefix, parse_sample_line}
use mistralrs_proxy.Telemetry.Parse.{
  Parsing, start, observe_as, observe, unreadable, read_metric, read_line, read_lines, finish,
  parse_mistralrs_metrics,
}
use mistralrs_proxy.Telemetry.Scan.{
  metric_of-some, metric_of-none, metric_name_inj, parse_sample_line-name,
}

-- The gauges among the metrics.
pub data Gauge : Type 0 where
  running waiting capacity kv_used kv_total : Gauge

abbrev pub gauge_metric : Gauge → Metric
gauge_metric running = sequences_running
gauge_metric waiting = sequences_waiting
gauge_metric capacity = sequences_capacity
gauge_metric kv_used = kv_cache_blocks_used
gauge_metric kv_total = kv_cache_blocks_total

abbrev pub must_be_positive : Gauge → Bool
must_be_positive running = false
must_be_positive waiting = false
must_be_positive capacity = true
must_be_positive kv_used = false
must_be_positive kv_total = true

-- Whether a line is of a metric, by the name that it begins with; a comment is of none.
abbrev pub is_of : Metric → Str → Bool
is_of k raw = not (ends (trim raw)) && str_eq (metric_name_prefix (trim raw)) (metric_name k)

-- The lines of a metric, trimmed.
unfoldable pub lines_of : Metric → List Str → List Str
lines_of k [] = []
lines_of k (raw ∷ later) =
    let rest = lines_of k later in if is_of k raw then trim raw ∷ rest else rest

-- A line of the metric `k` is recognised by the name of `k` alone.
is_other :
    (line : Str) (k : Metric) (g : Gauge)
    → k ≡ gauge_metric g
    → metric_of (metric_name_prefix line) ≡ some k
    → str_eq (metric_name_prefix line) (metric_name (gauge_metric g)) ≡ false
    → ⊥
is_other line k g h known other =
    let name = metric_of-some (metric_name_prefix line) k known ∙ ap metric_name h in
    ground (arith, (str_eq_iff (metric_name_prefix line) (metric_name (gauge_metric g))).1 name)

module _ {F : Type 0} (fl : MetricFloat F) where
  abbrev gauge_of : Gauge → Parsing F → RequiredGauge
  gauge_of running st = st.running
  gauge_of waiting st = st.waiting
  gauge_of capacity st = st.capacity
  gauge_of kv_used st = st.kv_used
  gauge_of kv_total st = st.kv_total

  -- Exactly one line is of that gauge, and it is unlabelled and has that value.
  pub record Once (g : Gauge) (seen : List Str) (v : ℕ) : Type 0 where
    pub line : Str
    pub sample : ParsedSample
    pub only : seen ≡ line ∷ []
    pub parsed : parse_sample_line line ≡ ok sample
    pub unlabelled : sample.labels ≡ none
    pub counted : parse_gauge_count fl sample.value (must_be_positive g) ≡ ok v

  -- What the loop has stored of a gauge, after those lines of it.
  abbrev Stored : Gauge → List Str → RequiredGauge → Type 0
  Stored g seen r =
      (r.positive ≡ must_be_positive g)
      × (((r.value ≡ none) × (r.line ≡ none) × (seen ≡ []))
          ⊎ ((v : ℕ) × (n : ℕ) × (r.value ≡ some v) × (r.line ≡ some n) × Once g seen v))

  observe_as-same :
      (g : Gauge) (s : ParsedSample) (at : ℕ) (st after : Parsing F)
      → observe_as fl (gauge_metric g) s at st ≡ ok after
      → observe_gauge fl s at (gauge_of g st) ≡ ok (gauge_of g after)
  unfolding observe_as
  observe_as-same running s at st after e = ground arith
  observe_as-same waiting s at st after e = ground arith
  observe_as-same capacity s at st after e = ground arith
  observe_as-same kv_used s at st after e = ground arith
  observe_as-same kv_total s at st after e = ground arith

  observe_as-other :
      (k : Metric) (g : Gauge) (s : ParsedSample) (at : ℕ) (st after : Parsing F)
      → k ≢ gauge_metric g
      → observe_as fl k s at st ≡ ok after
      → gauge_of g after ≡ gauge_of g st
  unfolding observe_as
  observe_as-other k g s at st after n e = ground arith

  observe_gauge-Stored :
      (g : Gauge) (line : Str) (s : ParsedSample) (at : ℕ) (seen : List Str)
      (r after : RequiredGauge)
      → parse_sample_line line ≡ ok s
      → observe_gauge fl s at r ≡ ok after
      → Stored g seen r
      → Stored g (seen ++ (line ∷ [])) after
  unfolding observe_gauge
  observe_gauge-Stored g line s at seen r after p e (pos, inr (v, n, has_value, has_line, once)) =
      absurd (ground arith)
  observe_gauge-Stored g line s at seen r after p e (pos, inl (no_value, no_line, none_seen)) =
      elim (Result-cases (parse_gauge_count fl s.value r.positive)) [
        | inr (x, bad) ↦ absurd (ground arith)
        | inl (v, counted) ↦ (
          ground arith,
          inr (
            v,
            at,
            ground arith,
            ground arith,
            record {
              line = line;
              sample = s;
              only = ap (λ xs. xs ++ (line ∷ [])) none_seen;
              parsed = p;
              unlabelled = ground arith;
              counted = subst (λ b. parse_gauge_count fl s.value b ≡ ok v) pos counted;
            },
          ),
        )
      ]

  unreadable-gauge_of :
      (k : Metric) (g : Gauge) (at : ℕ) (reason : mistralrs_proxy.Telemetry.Reason)
      (st after : Parsing F)
      → unreadable fl k at reason st ≡ ok after
      → (k ≢ gauge_metric g) × (gauge_of g after ≡ gauge_of g st)
  unfolding unreadable
  unreadable-gauge_of k g at reason st after e = ((λ h. ground arith), ground arith)

  -- What a line of the metric `k` adds to a gauge.
  read_metric-Stored :
      (k : Metric) (g : Gauge) (at : ℕ) (line : Str) (seen : List Str) (st after : Parsing F)
      → metric_of (metric_name_prefix line) ≡ some k
      → read_metric fl k at line st ≡ ok after
      → Stored g seen (gauge_of g st)
      → Stored g
          (if str_eq (metric_name_prefix line) (metric_name (gauge_metric g))
            then seen ++ (line ∷ [])
            else seen)
          (gauge_of g after)
  unfolding read_metric observe
  read_metric-Stored k g at line seen st after known e stored =
      elim (Result-cases (parse_sample_line line)) [
        | inr (reason, bad) ↦
            let (differs, same) = unreadable-gauge_of k g at reason st after (ground arith) in
            elim (Bool-cases (str_eq (metric_name_prefix line) (metric_name (gauge_metric g)))) [
              | inl mine ↦ absurd (
                  differs (metric_name_inj (metric_name_prefix line) k (gauge_metric g) known mine))
              | inr other ↦ rw other (rw same stored)
            ]
        | inl (s, good) ↦
            let named = parse_sample_line-name line s good in
            let named_k : metric_of s.name ≡ some k = ap metric_of named ∙ known in
            let e' : observe_as fl k s at st ≡ ok after = ground arith in
            elim (Bool-cases (str_eq (metric_name_prefix line) (metric_name (gauge_metric g)))) [
              | inl mine ↦
                  let is : k ≡ gauge_metric g =
                    metric_name_inj (metric_name_prefix line) k (gauge_metric g) known mine in
                  rw mine (
                    observe_gauge-Stored g line s at seen (gauge_of g st) (gauge_of g after) good
                      (observe_as-same g s at st after
                        (subst (λ j. observe_as fl j s at st ≡ ok after) is e'))
                      stored)
              | inr other ↦
                  let differs : k ≢ gauge_metric g =
                    λ h. absurd (is_other line k g h known other) in
                  rw other (rw (observe_as-other k g s at st after differs e') stored)
            ]
      ]

  read_line-Stored :
      (g : Gauge) (at : ℕ) (raw : Str) (seen : List Str) (st after : Parsing F)
      → read_line fl at raw st ≡ ok after
      → Stored g seen (gauge_of g st)
      → Stored g
          (if is_of (gauge_metric g) raw then seen ++ (trim raw ∷ []) else seen)
          (gauge_of g after)
  unfolding read_line
  read_line-Stored g at raw seen st after e stored =
      let line = trim raw in
      elim (Bool-cases (ends line)) [
        | inl skipped ↦
            let same : st ≡ after = ground arith in
            let none_seen : is_of (gauge_metric g) raw ≡ false = ground arith in
            rw none_seen (subst (λ t. Stored g seen (gauge_of g t)) same stored)
        | inr content ↦ elim (Option-cases (metric_of (metric_name_prefix line))) [
          | inl unknown ↦
              let same : st ≡ after = ground arith in
              let other = metric_of-none (metric_name_prefix line) (gauge_metric g) unknown in
              let none_seen : is_of (gauge_metric g) raw ≡ false = ground arith in
              rw none_seen (subst (λ t. Stored g seen (gauge_of g t)) same stored)
          | inr (k, known) ↦
              let is : is_of (gauge_metric g) raw
                  ≡ str_eq (metric_name_prefix line) (metric_name (gauge_metric g)) =
                ground arith in
              rw is (read_metric-Stored k g at line seen st after known (ground arith) stored)
        ]
      ]

  read_lines-Stored :
      (g : Gauge) (at : ℕ) (ls seen : List Str) (st after : Parsing F)
      → read_lines fl at ls st ≡ ok after
      → Stored g seen (gauge_of g st)
      → Stored g (seen ++ lines_of (gauge_metric g) ls) (gauge_of g after)
  unfolding read_lines lines_of
  read_lines-Stored g at [] seen st after e stored =
      let same : st ≡ after = ground arith in
      rw (append-nil seen) (subst (λ t. Stored g seen (gauge_of g t)) same stored)
  read_lines-Stored g at (raw ∷ ls) seen st after e stored =
      elim (Result-cases (read_line fl at raw st)) [
        | inr (x, bad) ↦ absurd (ground arith)
        | inl (mid, good) ↦
            let rest : read_lines fl (at + 1) ls mid ≡ ok after = ground arith in
            let one = read_line-Stored g at raw seen st mid good stored in
            elim (Bool-cases (is_of (gauge_metric g) raw)) [
              | inl mine ↦
                  let shape : lines_of (gauge_metric g) (raw ∷ ls)
                      ≡ trim raw ∷ lines_of (gauge_metric g) ls =
                    ground arith in
                  rw shape (
                    subst (λ xs. Stored g xs (gauge_of g after))
                      (append_assoc seen (trim raw ∷ []) (lines_of (gauge_metric g) ls))
                      (read_lines-Stored g (at + 1) ls (seen ++ (trim raw ∷ [])) mid after rest (
                        subst
                          (λ b.
                            Stored g (if b then seen ++ (trim raw ∷ []) else seen) (gauge_of g mid))
                          mine one)))
              | inr other ↦
                  let shape : lines_of (gauge_metric g) (raw ∷ ls) ≡ lines_of (gauge_metric g) ls =
                    ground arith in
                  rw shape (
                    read_lines-Stored g (at + 1) ls seen mid after rest (
                      subst
                        (λ b.
                          Stored g (if b then seen ++ (trim raw ∷ []) else seen) (gauge_of g mid))
                        other one))
            ]
      ]

  start-Stored : (g : Gauge) → Stored g [] (gauge_of g (start fl))
  unfolding start
  start-Stored running = (refl, inl (refl, refl, refl))
  start-Stored waiting = (refl, inl (refl, refl, refl))
  start-Stored capacity = (refl, inl (refl, refl, refl))
  start-Stored kv_used = (refl, inl (refl, refl, refl))
  start-Stored kv_total = (refl, inl (refl, refl, refl))

  -- What the text says of a gauge: that there is no line of it, or one with that value.
  unfoldable pub Says : Gauge → List Str → Option ℕ → Type 0
  Says g ls none = lines_of (gauge_metric g) ls ≡ []
  Says g ls (some v) = Once g (lines_of (gauge_metric g) ls) v

  Stored-Says :
      (g : Gauge) (ls : List Str) (r : RequiredGauge)
      → Stored g (lines_of (gauge_metric g) ls) r
      → Says g ls r.value
  unfolding Says
  Stored-Says g ls r (pos, inl (no_value, no_line, none_seen)) = rw no_value none_seen
  Stored-Says g ls r (pos, inr (v, n, has_value, has_line, once)) = rw has_value once

  abbrev kv_used_of : Option KvCacheMetrics → Option ℕ
  kv_used_of none = none
  kv_used_of (some kv) = some kv.used

  abbrev kv_total_of : Option KvCacheMetrics → Option ℕ
  kv_total_of none = none
  kv_total_of (some kv) = some kv.total

  finish-gauges :
      (st : Parsing F) (m : MistralRsMetrics F)
      → finish fl st ≡ ok m
      → (st.running.value ≡ some m.sequences_running)
        × (st.waiting.value ≡ some m.sequences_waiting)
        × (st.capacity.value ≡ m.sequences_capacity)
        × (st.kv_used.value ≡ kv_used_of m.kv_cache)
        × (st.kv_total.value ≡ kv_total_of m.kv_cache)
  unfolding finish
  finish-gauges st m e = ground arith

  -- If the text parses, then running and waiting have each exactly one line, which is unlabelled and
  -- has the value of the snapshot; of capacity and of the two gauges of the KV cache the snapshot has
  -- the value of the one such line, or there is no line, and the snapshot has both of the KV cache or
  -- neither.
  pub parse_mistralrs_metrics-ok :
      (input : Str) (m : MistralRsMetrics F)
      → parse_mistralrs_metrics fl input ≡ ok m
      → Once running (lines_of sequences_running (lines input)) m.sequences_running
        × Once waiting (lines_of sequences_waiting (lines input)) m.sequences_waiting
        × Says capacity (lines input) m.sequences_capacity
        × Says kv_used (lines input) (kv_used_of m.kv_cache)
        × Says kv_total (lines input) (kv_total_of m.kv_cache)
  unfolding parse_mistralrs_metrics Says
  parse_mistralrs_metrics-ok input m e =
      elim (Result-cases (read_lines fl 1 (lines input) (start fl))) [
        | inr (x, bad) ↦ absurd (ground arith)
        | inl (st, read) ↦ elim (Result-cases (finish fl st)) [
          | inr (x, bad) ↦ absurd (ground arith)
          | inl (m', made) ↦
              let same : m' ≡ m = ground arith in
              let (r, w, c, u, t) = finish-gauges st m (made ∙ ap (λ x. ok x) same) in
              let says : (g : Gauge) → Says g (lines input) (gauge_of g st).value = λ g.
                Stored-Says g (lines input) (gauge_of g st)
                  (read_lines-Stored g 1 (lines input) [] (start fl) st read (start-Stored g)) in
              (
                subst (Says running (lines input)) r (says running),
                subst (Says waiting (lines input)) w (says waiting),
                subst (Says capacity (lines input)) c (says capacity),
                subst (Says kv_used (lines input)) u (says kv_used),
                subst (Says kv_total (lines input)) t (says kv_total),
              )
        ]
      ]
