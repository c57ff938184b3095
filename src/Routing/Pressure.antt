-- ===== src/Routing/Pressure.antt =====
-- The least-pressure score of a backend (src/telemetry.rs and `score_candidate` of src/routing.rs).
-- `FloatOps` is what it uses of `f64`.
use mistralrs_proxy.Prelude.{
  ℕ, ◌+◌, ◌-◌, ◌==◌, ltb, not, min, Bool, Option, none, some, if◌then◌else◌, u64_max, Str,
}
use mistralrs_proxy.Backend.Slot.{BackendSnapshot, Result, ok, err}
use mistralrs_proxy.Routing.{KvCacheMetrics, MistralRsMetrics, MetricsObservation, LiveBackend}

pub data Ordering : Type 0 where
  less equal greater : Ordering

pub record FloatOps (F : Type 0) : Type 0 where
  pub of_u64 : ℕ → F
  pub add : F → F → F
  pub sub : F → F → F
  pub div : F → F → F
  pub zero : F
  pub one : F
  -- `max(0.0)`, `clamp(0.0, 1.0)`, `is_finite` and `(0.0..=1.0).contains`
  pub max_zero : F → F
  pub clamp_unit : F → F
  pub is_finite : F → Bool
  pub in_unit : F → Bool
  pub total_cmp : F → F → Ordering

-- What the router uses of a configured backend.
pub record BackendConfig : Type 0 where
  pub url : Str
  pub capacity : Option ℕ

pub record LeastPressureV1Inputs (F : Type 0) : Type 0 where
  pub running : ℕ
  pub waiting : ℕ
  pub capacity : ℕ
  pub new_sequences : ℕ
  pub kv_ratio : Option F

pub record LeastPressureV1Score (F : Type 0) : Type 0 where
  pub occupancy : F
  pub kv_penalty : F
  pub pressure : F

pub data PressureInputError : Type 0 where
  zero_capacity non_finite_kv_ratio kv_ratio_out_of_range : PressureInputError

pub record CandidateMetrics (F : Type 0) : Type 0 where
  pub running : ℕ
  pub waiting : ℕ
  pub capacity : Option ℕ
  pub kv_ratio : Option F
  pub age : ℕ

-- `match (reported, configured)`.
unfoldable pub effective_capacity : Option ℕ → Option ℕ → Option ℕ
effective_capacity (some reported) (some configured) = some (min reported configured)
effective_capacity (some reported) none = some reported
effective_capacity none configured = configured

abbrev pub option_ok {ℓ κ} : {A : Type ℓ} {E : Type κ} → Result A E → Option A
option_ok (ok a) = some a
option_ok (err e) = none

module _ {F : Type 0} (ops : FloatOps F) where
  unfoldable pub ratio : KvCacheMetrics → F
  ratio kv = ops.clamp_unit (ops.div (ops.of_u64 kv.used) (ops.of_u64 kv.total))

  unfoldable pub kv_cache_ratio : MistralRsMetrics F → Option F
  unfolding ratio
  kv_cache_ratio m = elim m.kv_cache [ none ↦ none | some kv ↦ some (ratio kv) ]

  unfoldable pub pressure_inputs : ℕ → ℕ → MistralRsMetrics F → LeastPressureV1Inputs F
  unfolding kv_cache_ratio
  pressure_inputs new_sequences effective m = record {
    running = m.sequences_running;
    waiting = m.sequences_waiting;
    capacity = effective;
    new_sequences = new_sequences;
    kv_ratio = kv_cache_ratio m;
  }

  unfoldable pub kv_penalty_of : F → Option F → Result F PressureInputError
  kv_penalty_of kv_soft_limit none = ok ops.zero
  kv_penalty_of kv_soft_limit (some r) =
      if not (ops.is_finite r)
      then err non_finite_kv_ratio
      else if not (ops.in_unit r)
      then err kv_ratio_out_of_range
      else ok (ops.max_zero (ops.div (ops.sub r kv_soft_limit) (ops.sub ops.one kv_soft_limit)))

  abbrev occupancy_of : LeastPressureV1Inputs F → F
  occupancy_of i =
      ops.div
        (ops.add (ops.add (ops.of_u64 i.running) (ops.of_u64 i.waiting))
          (ops.of_u64 i.new_sequences))
        (ops.of_u64 i.capacity)

  unfoldable pub least_pressure_v1_with_soft_limit :
      F → LeastPressureV1Inputs F → Result (LeastPressureV1Score F) PressureInputError
  unfolding kv_penalty_of
  least_pressure_v1_with_soft_limit kv_soft_limit i =
      if i.capacity == 0 then err zero_capacity else elim (kv_penalty_of kv_soft_limit i.kv_ratio) [
        | err e ↦ err e
        | ok penalty ↦ ok (record {
          occupancy = occupancy_of i;
          kv_penalty = penalty;
          pressure = ops.add (occupancy_of i) penalty;
        })
      ]

  -- The score of an observation for `new_sequences`, once the capacity is known.
  unfoldable pub score_of :
      F → MetricsObservation F → ℕ → Option ℕ → Option (LeastPressureV1Score F)
  unfolding least_pressure_v1_with_soft_limit pressure_inputs
  score_of kv_soft_limit observation new_sequences none = none
  score_of kv_soft_limit observation new_sequences (some capacity) = option_ok (
      least_pressure_v1_with_soft_limit kv_soft_limit
        (pressure_inputs new_sequences capacity observation.metrics))

  unfoldable pub score_candidate :
      BackendSnapshot
      → LiveBackend F
      → BackendConfig
      → ℕ
      → ℕ
      → F
      → Option (LeastPressureV1Score F) × Option (CandidateMetrics F)
  unfolding score_of kv_cache_ratio effective_capacity
  score_candidate snapshot live config now stale_after kv_soft_limit = elim live.metrics [
    | none ↦ (none, none)
    | some observation ↦
        let age = now - observation.observed_at in
        if ltb stale_after age
        then (none, none)
        else let effective =
            effective_capacity observation.metrics.sequences_capacity config.capacity in
          let new_sequences = snapshot.total_acquired - observation.dispatches_at_observation in
          (
            score_of kv_soft_limit observation (min (new_sequences + 1) u64_max) effective,
            some (record {
              running = observation.metrics.sequences_running;
              waiting = observation.metrics.sequences_waiting;
              capacity = effective;
              kv_ratio = kv_cache_ratio observation.metrics;
              age = age;
            }),
          )
  ]
