-- ===== src/Routing/Health/Scrapes.antt =====
-- Scrapes that complete in any order (src/routing.rs): what the live entry then certifies.
use mistralrs_proxy.Prelude.{ℕ, ◌≤◌, ◌<◌, ◌≡◌, true, Option, none, some, List, [], ◌∷◌, arith, Str}
use mistralrs_proxy.Prelude.Monad.{state_after}
use mistralrs_proxy.Routing.{
  MistralRsMetrics, MetricsObservation, MetricsScrapeContext, LiveBackend, new_live,
}
use mistralrs_proxy.Routing.Health.{
  Float, engine_idle, begin_scrape, metrics_failure, metrics_success,
}

-- The serial of an observation.
abbrev pub serial_of : {F : Type 0} → Option (MetricsObservation F) → ℕ
serial_of none = 0
serial_of (some o) = o.scrape_serial

abbrev IsIdle : {F : Type 0} → Option (MetricsObservation F) → Type 0
IsIdle none = ⊥
IsIdle (some o) = engine_idle o.metrics ≡ true

-- A streak of idle scrapes rests on the scrape completed last: it succeeded, it is the observation
-- shown, and it found the engine idle.
pub record Certifies {F : Type 0} (live : LiveBackend F) : Type 0 where
  pub observed : serial_of live.metrics ≤ live.metrics_last_completed_scrape
  pub completed : live.metrics_last_completed_scrape ≤ live.metrics_scrapes_started
  pub streak_below : live.engine_idle_streak ≤ live.metrics_last_completed_scrape
  pub newest :
      0 < live.engine_idle_streak → serial_of live.metrics ≡ live.metrics_last_completed_scrape
  pub idle : 0 < live.engine_idle_streak → IsIdle live.metrics
  pub no_error : 0 < live.engine_idle_streak → live.metrics_error ≡ none

module _ (float : Float) where
  open float use {F}

  -- A scrape begins, or a scrape that has begun completes, whichever that is.
  pub data Event : Type 0 where
    begins : ℕ → ℕ → Event
    succeeds : MistralRsMetrics F → MetricsScrapeContext → ℕ → Event
    fails : ℕ → ℕ → Str → Event

  unfoldable pub handle : Event → LiveBackend F → LiveBackend F
  handle (begins dispatches now) live = state_after (begin_scrape dispatches now live)
  handle (succeeds metrics scrape now) live = metrics_success float metrics scrape now live
  handle (fails serial now error) live = metrics_failure serial now error live

  -- Only a scrape that has begun completes.
  abbrev pub HasBegun : Event → LiveBackend F → Type 0
  HasBegun (begins dispatches now) live = Unit {0}
  HasBegun (succeeds metrics scrape now) live = scrape.serial ≤ live.metrics_scrapes_started
  HasBegun (fails serial now error) live = serial ≤ live.metrics_scrapes_started

  handle-Certifies :
      (e : Event) (live : LiveBackend F)
      → HasBegun e live
      → Certifies live
      → Certifies (handle e live)
  unfolding handle begin_scrape metrics_success metrics_failure
  handle-Certifies (begins dispatches now) live h c = ground arith
  handle-Certifies (succeeds metrics scrape now) live h c = ground arith
  handle-Certifies (fails serial now error) live h c = ground arith

  unfoldable pub handle_all : List Event → LiveBackend F → LiveBackend F
  handle_all [] live = live
  handle_all (e ∷ es) live = handle_all es (handle e live)

  abbrev pub AllBegun : List Event → LiveBackend F → Type 0
  AllBegun [] live = Unit {0}
  AllBegun (e ∷ es) live = HasBegun e live × AllBegun es (handle e live)

  handle_all-Certifies :
      (es : List Event) (live : LiveBackend F)
      → AllBegun es live
      → Certifies live
      → Certifies (handle_all es live)
  unfolding handle_all
  handle_all-Certifies [] live h c = c
  handle_all-Certifies (e ∷ es) live h c =
      handle_all-Certifies es (handle e live) h.1 (handle-Certifies e live h.0 c)

  -- However scrapes of a new backend begin and complete, each after it has begun, in order or not
  -- and some twice: the counters and the observation agree as in `Certifies`, and so a positive
  -- idle streak says that the scrape completed last found the engine idle.
  pub handle_all-new_live :
      (generation : ℕ) (es : List Event)
      → AllBegun es (new_live generation)
      → Certifies (handle_all es (new_live generation))
  unfolding new_live
  handle_all-new_live generation es h =
      handle_all-Certifies es (new_live generation) h (ground arith)
