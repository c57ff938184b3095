-- ===== src/Routing/Health/Readiness.antt =====
-- The readiness of a backend as a function of its probe history (src/routing.rs).
use mistralrs_proxy.Prelude.{
  ℕ, suc, ◌≤◌, ◌≡◌, refl, List, [], ◌∷◌, arith, leb, min, if◌then◌else◌, u32_max, Str,
}
use mistralrs_proxy.Routing.{ReadinessState, ReadinessFailureKind, LiveBackend, new_live}
use mistralrs_proxy.Routing.Health.{failed_state, readiness_success, readiness_failure}

pub data Probe : Type 0 where
  passed : ℕ → Probe
  failed : ℕ → ReadinessFailureKind → Str → Probe

-- How many of the newest probes passed, or failed, in a row; histories are newest first.
abbrev pub leading_passes : List Probe → ℕ
leading_passes [] = 0
leading_passes (passed now ∷ older) = suc (leading_passes older)
leading_passes (failed now kind error ∷ older) = 0

abbrev pub leading_failures : List Probe → ℕ
leading_failures [] = 0
leading_failures (passed now ∷ older) = 0
leading_failures (failed now kind error ∷ older) = suc (leading_failures older)

module _ (success_threshold failure_threshold : ℕ) where
  -- The readiness that a history stands for, told from its rows alone.
  unfoldable pub readiness_of : List Probe → ReadinessState
  readiness_of [] = ReadinessState.checking
  readiness_of (passed now ∷ older) =
      if leb success_threshold (suc (leading_passes older))
      then ReadinessState.ready
      else readiness_of older
  readiness_of (failed now kind error ∷ older) =
      if leb failure_threshold (suc (leading_failures older))
      then failed_state kind
      else readiness_of older

  -- The entry after the probes of a history.
  unfoldable pub probe_all : {F : Type 0} → List Probe → LiveBackend F → LiveBackend F
  probe_all [] live = live
  probe_all (passed now ∷ older) live =
      readiness_success success_threshold now (probe_all older live)
  probe_all (failed now kind error ∷ older) live =
      readiness_failure failure_threshold now kind error (probe_all older live)

  -- A new backend's readiness after any probes is the one of the newest row that was long enough:
  -- `success_threshold` passes in a row make it ready, `failure_threshold` failures in a row
  -- unready or unreachable, as the newest failure says, and shorter rows change nothing; before any
  -- such row it is checking. The counters are the lengths of the newest row, up to the `u32` limit.
  pub probe_all-readiness_of :
      (F : Type 0) (generation : ℕ) (history : List Probe)
      → success_threshold ≤ u32_max
      → failure_threshold ≤ u32_max
      → let live = probe_all {F = F} history (new_live generation) in
        (live.readiness ≡ readiness_of history)
        × (live.readiness_successes ≡ min u32_max (leading_passes history))
        × (live.readiness_failures ≡ min u32_max (leading_failures history))
  unfolding probe_all readiness_of readiness_success readiness_failure new_live
  probe_all-readiness_of F generation [] a b = (refl, refl, refl)
  probe_all-readiness_of F generation (passed now ∷ older) a b =
      let ih = probe_all-readiness_of F generation older a b in ground arith
  probe_all-readiness_of F generation (failed now kind error ∷ older) a b =
      let ih = probe_all-readiness_of F generation older a b in ground arith
