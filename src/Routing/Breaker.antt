-- ===== src/Routing/Breaker.antt =====
-- The circuit breaker of a backend (src/routing.rs): the permits of requests, their outcomes, and the
-- observer of a response body. Each function holds the lock on the live state throughout; here it
-- works on the entry that `backends.get_mut(id)` found, and `Routing` has the lookup.
pub mod Fits
pub mod Epochs
pub mod Trips
use mistralrs_proxy.Prelude.{
  ℕ, ◌+◌, Bool, true, false, Option, none, some, ltb, leb, ◌==◌, not, ◌||◌, if◌then◌else◌,
  checked_increment, saturating_increment, u32_max,
}
use mistralrs_proxy.Prelude.Monad.{returned, panicked, Method, ◌>>=◌, ◌>>◌, bind_outcome, pure}
use mistralrs_proxy.Routing.{CircuitState, open_state, half_open, Circuit, open_until, LiveBackend}

abbrev pub circuit_failure_threshold : ℕ
circuit_failure_threshold = 3

-- Ten seconds.
abbrev pub circuit_open_for : ℕ
circuit_open_for = 10_000_000_000

-- `Circuit::state`.
unfoldable pub circuit_state : Circuit → ℕ → CircuitState
circuit_state Circuit.closed now = CircuitState.closed
circuit_state (open_until deadline) now =
    if leb deadline now then CircuitState.half_open else open_state
circuit_state (Circuit.half_open trial_in_flight) now = CircuitState.half_open

pub data CircuitOutcome : Type 0 where
  failure neutral : CircuitOutcome

-- What a permit and an observer keep beside the backend that they are for.
pub record CircuitPermit : Type 0 where
  pub circuit_epoch : ℕ
  pub trial : Bool
  pub resolved : Bool

pub record BodyFailureObserver : Type 0 where
  pub circuit_epoch : ℕ
  pub open_immediately : Bool

-- The trial that a request would be, and the circuit then; `none` refuses it.
unfoldable pub admit : Circuit → ℕ → Option (Bool × Circuit)
admit Circuit.closed now = some (false, Circuit.closed)
admit (open_until deadline) now =
    if leb deadline now then some (true, Circuit.half_open true) else none
admit (Circuit.half_open trial_in_flight) now =
    if not trial_in_flight then some (true, Circuit.half_open true) else none

module _ {F : Type 0} where
  unfoldable pub bump_circuit_epoch : Method (LiveBackend F) (Unit {0})
  bump_circuit_epoch live = elim (checked_increment live.circuit_epoch) [
    | none ↦ panicked live
    | some n ↦ returned tt (record live { circuit_epoch = n })
  ]

  -- The epoch is bumped and the circuit opened; what stands in both arms of the source.
  unfoldable pub trip : ℕ → Method (LiveBackend F) (Unit {0})
  unfolding bump_circuit_epoch
  trip now = do
    bump_circuit_epoch
    λ live. returned tt (record live { circuit = open_until (now + circuit_open_for) })

  unfoldable pub try_circuit_permit : ℕ → LiveBackend F → Option (CircuitPermit × LiveBackend F)
  try_circuit_permit now live = elim (admit live.circuit now) [
    | none ↦ none
    | some (trial, circuit) ↦ some (
      record { circuit_epoch = live.circuit_epoch; trial = trial; resolved = false },
      record live { circuit = circuit },
    )
  ]

  -- The `match` on the outcome.
  unfoldable pub apply_outcome : ℕ → Bool → CircuitOutcome → Method (LiveBackend F) (Unit {0})
  unfolding trip
  apply_outcome now true failure live =
      trip now (record live { consecutive_request_failures = circuit_failure_threshold })
  apply_outcome now false failure live =
      let failures = saturating_increment u32_max live.consecutive_request_failures in
      let counted = record live { consecutive_request_failures = failures } in
      if leb circuit_failure_threshold failures then trip now counted else returned tt counted
  apply_outcome now true neutral live =
      returned tt (record live { circuit = Circuit.half_open false })
  apply_outcome now false neutral live = returned tt live

  unfoldable pub record_circuit_outcome :
      ℕ → ℕ → Bool → CircuitOutcome → Method (LiveBackend F) (Unit {0})
  unfolding apply_outcome
  record_circuit_outcome now circuit_epoch trial outcome live =
      if not (live.circuit_epoch == circuit_epoch)
      then returned tt live
      else apply_outcome now trial outcome live

  unfoldable pub record_success_and_observer :
      ℕ → Bool → Method (LiveBackend F) (Option BodyFailureObserver)
  unfolding bump_circuit_epoch
  record_success_and_observer circuit_epoch trial live =
      if not (live.circuit_epoch == circuit_epoch)
      then returned none live
      else bind_outcome
          (let reset = record live { consecutive_request_failures = 0 } in
            if trial then bump_circuit_epoch reset else returned tt reset)
          λ _ bumped.
            returned
              (some (record { circuit_epoch = bumped.circuit_epoch; open_immediately = trial }))
              (record bumped { circuit = Circuit.closed })

  unfoldable pub record_body_failure : ℕ → ℕ → Bool → Method (LiveBackend F) (Unit {0})
  unfolding trip
  record_body_failure now circuit_epoch open_immediately live =
      if not (live.circuit_epoch == circuit_epoch)
      then returned tt live
      else let failures =
          if open_immediately
          then circuit_failure_threshold
          else saturating_increment u32_max live.consecutive_request_failures in
        let counted = record live { consecutive_request_failures = failures } in
        if leb circuit_failure_threshold failures then trip now counted else returned tt counted

  -- The methods of a permit: what it does to the backend, and the permit after it.
  unfoldable pub resolve : ℕ → CircuitOutcome → CircuitPermit → Method (LiveBackend F) CircuitPermit
  unfolding record_circuit_outcome
  resolve now outcome p live =
      if p.resolved
      then returned p live
      else bind_outcome (record_circuit_outcome now p.circuit_epoch p.trial outcome live)
          (λ _. pure (record p { resolved = true }))

  unfoldable pub success_with_body_observer :
      CircuitPermit → Method (LiveBackend F) (CircuitPermit × Option BodyFailureObserver)
  unfolding record_success_and_observer
  success_with_body_observer p live =
      if p.resolved
      then returned (p, none) live
      else bind_outcome (record_success_and_observer p.circuit_epoch p.trial live)
          (λ observer. pure (record p { resolved = true }, observer))

  -- `Drop for CircuitPermit`.
  unfoldable pub drop_permit : ℕ → CircuitPermit → Method (LiveBackend F) CircuitPermit
  unfolding resolve
  drop_permit now p live = if not p.resolved then resolve now neutral p live else returned p live

  -- The circuit part of `RouteSelection::into_response_guard`; the permit is dropped at its end.
  unfoldable pub response_outcome :
      ℕ → ℕ → CircuitPermit → Method (LiveBackend F) (CircuitPermit × Option BodyFailureObserver)
  unfolding resolve success_with_body_observer
  response_outcome now status p =
      if status == 500 || status == 502 || status == 503 || status == 504
      then (do q ← resolve now failure p; pure (q, none))
      else if not (status == 429)
      then success_with_body_observer p
      else (do q ← resolve now neutral p; pure (q, none))
