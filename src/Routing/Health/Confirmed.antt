-- ===== src/Routing/Health/Confirmed.antt =====
-- The scrapes of a backend one after the other (src/routing.rs), as its worker makes them, and what an
-- idle streak then says of those that began after a given moment.
use mistralrs_proxy.Prelude.{
  ℕ, ◌∙◌, ◌+◌, ◌≤◌, ◌<◌, ◌≡◌, Bool, true, false, List, [], ◌∷◌, arith, length, Str,
}
use mistralrs_proxy.Prelude.Monad.{returned}
use mistralrs_proxy.Routing.{MistralRsMetrics, MetricsScrapeContext, LiveBackend, new_live}
use mistralrs_proxy.Routing.Health.{
  Float, engine_idle, begin_scrape, metrics_failure, metrics_success,
}
use mistralrs_proxy.Routing.Health.Scrapes.{serial_of, Certifies}

-- Probes and requests change nothing of what scrapes do.
pub record SameScrapes {F : Type 0} (t u : LiveBackend F) : Type 0 where
  pub metrics_kept : u.metrics ≡ t.metrics
  pub started_kept : u.metrics_scrapes_started ≡ t.metrics_scrapes_started
  pub completed_kept : u.metrics_last_completed_scrape ≡ t.metrics_last_completed_scrape
  pub streak_kept : u.engine_idle_streak ≡ t.engine_idle_streak

abbrev in_flight_count : Bool → ℕ
in_flight_count true = 1
in_flight_count false = 0

module _ (float : Float) where
  open float use {F}

  -- A live entry some time after it was `first`: whether a scrape that began since is in flight, and, the
  -- newest first, whether each that has completed found the engine idle. Scrapes up to the serial `m`
  -- had begun before, and may complete at any time. A new topology generation replaces the entry.
  pub data Scraped (first : LiveBackend F) : ℕ → Bool → List Bool → LiveBackend F → Type 0 where
    at_first : Scraped first first.metrics_scrapes_started false [] first
    begins :
        {m : ℕ} {rs : List Bool} {live begun : LiveBackend F} (dispatches now : ℕ)
        (scrape : MetricsScrapeContext)
        → begin_scrape dispatches now live ≡ returned scrape begun
        → Scraped first m false rs live
        → Scraped first m true rs begun
    succeeds :
        {m : ℕ} {rs : List Bool} {live : LiveBackend F} (metrics : MistralRsMetrics F)
        (scrape : MetricsScrapeContext) (now : ℕ)
        → scrape.serial ≡ live.metrics_scrapes_started
        → Scraped first m true rs live
        → Scraped first m false
            (engine_idle metrics ∷ rs)
            (metrics_success float metrics scrape now live)
    fails :
        {m : ℕ} {rs : List Bool} {live : LiveBackend F} (serial now : ℕ) (error : Str)
        → serial ≡ live.metrics_scrapes_started
        → Scraped first m true rs live
        → Scraped first m false (false ∷ rs) (metrics_failure serial now error live)
    late_success :
        {m : ℕ} {flight : Bool} {rs : List Bool} {live : LiveBackend F}
        (metrics : MistralRsMetrics F) (scrape : MetricsScrapeContext) (now : ℕ)
        → scrape.serial ≤ m
        → Scraped first m flight rs live
        → Scraped first m flight rs (metrics_success float metrics scrape now live)
    late_failure :
        {m : ℕ} {flight : Bool} {rs : List Bool} {live : LiveBackend F} (serial now : ℕ)
        (error : Str)
        → serial ≤ m
        → Scraped first m flight rs live
        → Scraped first m flight rs (metrics_failure serial now error live)
    elsewhere :
        {m : ℕ} {flight : Bool} {rs : List Bool} {live after : LiveBackend F}
        → SameScrapes live after
        → Scraped first m flight rs live
        → Scraped first m flight rs after
    replaced :
        {m : ℕ} {flight : Bool} {rs : List Bool} {live : LiveBackend F} (generation : ℕ)
        → Scraped first m flight rs live
        → Scraped first 0 false [] (new_live generation)

  -- Where the completed scrapes stand, by how many there are.
  abbrev Completed : ℕ → List Bool → LiveBackend F → Type 0
  Completed m [] live = live.metrics_last_completed_scrape ≤ m
  Completed m (r ∷ []) live =
      (live.metrics_last_completed_scrape ≡ m + 1) × (0 < live.engine_idle_streak → r ≡ true)
  Completed m (r ∷ q ∷ rs) live =
      (live.metrics_last_completed_scrape ≡ m + 2 + length rs)
      × (0 < live.engine_idle_streak → r ≡ true)
      × (1 < live.engine_idle_streak → q ≡ true)

  record Follows (n m : ℕ) (flight : Bool) (rs : List Bool) (live : LiveBackend F) : Type 0 where
    pub base_below : m ≤ n
    pub started : live.metrics_scrapes_started ≡ m + length rs + in_flight_count flight
    pub observed : serial_of live.metrics ≤ live.metrics_last_completed_scrape
    pub completed : Completed m rs live

  success-Follows :
      (n m : ℕ) (rs : List Bool) (live : LiveBackend F) (metrics : MistralRsMetrics F)
      (scrape : MetricsScrapeContext) (now : ℕ)
      → scrape.serial ≡ live.metrics_scrapes_started
      → Follows n m true rs live
      → Follows n m false (engine_idle metrics ∷ rs) (metrics_success float metrics scrape now live)
  unfolding metrics_success
  success-Follows n m [] live metrics scrape now e f = ground arith
  success-Follows n m (r ∷ []) live metrics scrape now e f = ground arith
  success-Follows n m (r ∷ q ∷ rs) live metrics scrape now e f = ground arith

  failure-Follows :
      (n m : ℕ) (rs : List Bool) (live : LiveBackend F) (serial now : ℕ) (error : Str)
      → serial ≡ live.metrics_scrapes_started
      → Follows n m true rs live
      → Follows n m false (false ∷ rs) (metrics_failure serial now error live)
  unfolding metrics_failure
  failure-Follows n m [] live serial now error e f = ground arith
  failure-Follows n m (r ∷ []) live serial now error e f = ground arith
  failure-Follows n m (r ∷ q ∷ rs) live serial now error e f = ground arith

  late_success-Follows :
      (n m : ℕ) (flight : Bool) (rs : List Bool) (live : LiveBackend F)
      (metrics : MistralRsMetrics F) (scrape : MetricsScrapeContext) (now : ℕ)
      → scrape.serial ≤ m
      → Follows n m flight rs live
      → Follows n m flight rs (metrics_success float metrics scrape now live)
  unfolding metrics_success
  late_success-Follows n m flight [] live metrics scrape now e f = ground arith
  late_success-Follows n m flight (r ∷ []) live metrics scrape now e f = ground arith
  late_success-Follows n m flight (r ∷ q ∷ rs) live metrics scrape now e f = ground arith

  late_failure-Follows :
      (n m : ℕ) (flight : Bool) (rs : List Bool) (live : LiveBackend F) (serial now : ℕ)
      (error : Str)
      → serial ≤ m
      → Follows n m flight rs live
      → Follows n m flight rs (metrics_failure serial now error live)
  unfolding metrics_failure
  late_failure-Follows n m flight [] live serial now error e f = ground arith
  late_failure-Follows n m flight (r ∷ []) live serial now error e f = ground arith
  late_failure-Follows n m flight (r ∷ q ∷ rs) live serial now error e f = ground arith

  same-Completed :
      (m : ℕ) (rs : List Bool) (live after : LiveBackend F)
      → after.metrics_last_completed_scrape ≡ live.metrics_last_completed_scrape
      → after.engine_idle_streak ≡ live.engine_idle_streak
      → Completed m rs live
      → Completed m rs after
  same-Completed m [] live after e f c = ground arith
  same-Completed m (r ∷ []) live after e f c = ground arith
  same-Completed m (r ∷ q ∷ rs) live after e f c = ground arith

  Scraped-Follows :
      (first live : LiveBackend F) (m : ℕ) (flight : Bool) (rs : List Bool)
      → Certifies first
      → Scraped first m flight rs live
      → Follows first.metrics_scrapes_started m flight rs live
  unfolding begin_scrape new_live
  Scraped-Follows first _ _ _ _ c at_first = record {
    base_below = ground arith;
    started = ground arith;
    observed = c.observed;
    completed = c.completed;
  }
  Scraped-Follows first live m _ rs c (begins {live = before} dispatches now scrape e s) =
      let f = Scraped-Follows first before m false rs c s in
      record {
        base_below = f.base_below;
        started = ground (arith, f.started);
        observed = ground (arith, f.observed);
        completed = same-Completed m rs before live (ground arith) (ground arith) f.completed;
      }
  Scraped-Follows first _ m _ _ c (succeeds {rs = rs} {live = before} metrics scrape now e s) =
      success-Follows first.metrics_scrapes_started m rs before metrics scrape now e
        (Scraped-Follows first before m true rs c s)
  Scraped-Follows first _ m _ _ c (fails {rs = rs} {live = before} serial now error e s) =
      failure-Follows first.metrics_scrapes_started m rs before serial now error e
        (Scraped-Follows first before m true rs c s)
  Scraped-Follows first _ m flight rs c (late_success {live = before} metrics scrape now e s) =
      late_success-Follows first.metrics_scrapes_started m flight rs before metrics scrape now e
        (Scraped-Follows first before m flight rs c s)
  Scraped-Follows first _ m flight rs c (late_failure {live = before} serial now error e s) =
      late_failure-Follows first.metrics_scrapes_started m flight rs before serial now error e
        (Scraped-Follows first before m flight rs c s)
  Scraped-Follows first live m flight rs c (elsewhere {live = before} same s) =
      let f = Scraped-Follows first before m flight rs c s in
      record {
        base_below = f.base_below;
        started = same.started_kept ∙ f.started;
        observed = ground (arith, f.observed, same.metrics_kept, same.completed_kept);
        completed =
            same-Completed m rs before live same.completed_kept same.streak_kept f.completed;
      }
  Scraped-Follows first _ _ _ _ c (replaced generation s) = record {
    base_below = ground arith;
    started = ground arith;
    observed = ground arith;
    completed = ground arith;
  }

  -- A streak of two that ends in at least the second scrape after those that had begun at `first` is of two
  -- scrapes that began since, the last two to complete, and each found the engine idle.
  pub Scraped-idle_twice :
      (first live : LiveBackend F) (m : ℕ) (flight : Bool) (rs : List Bool)
      → Certifies first
      → Scraped first m flight rs live
      → first.metrics_scrapes_started + 2 ≤ serial_of live.metrics
      → 2 ≤ live.engine_idle_streak
      → (older : List Bool) × (rs ≡ true ∷ true ∷ older)
  Scraped-idle_twice first live m flight rs c s serial streak =
      let f = Scraped-Follows first live m flight rs c s in
      newest rs f.completed f.base_below f.observed
    where
      newest :
          (qs : List Bool)
          → Completed m qs live
          → m ≤ first.metrics_scrapes_started
          → serial_of live.metrics ≤ live.metrics_last_completed_scrape
          → (older : List Bool) × (qs ≡ true ∷ true ∷ older)
      newest [] k b o = absurd (ground arith)
      newest (r ∷ []) k b o = absurd (ground arith)
      newest (r ∷ q ∷ older) k b o = (older, ground arith)
