-- ===== src/Routing/Breaker/Trips.antt =====
-- When the circuit of a backend opens, whom it admits, and what a late outcome does
-- (src/routing.rs).
use mistralrs_proxy.Prelude.{
  ℕ, Option, some, ◌+◌, ◌<◌, ◌≡◌, refl, ◌≢◌, ◌↔◌, ◌⊎◌, inl, inr, Bool, true, false, none, List, [],
  ◌∷◌, arith, ◌==◌, leb, ◌||◌, if◌then◌else◌, u64_max, Bool-cases,
}
use mistralrs_proxy.Prelude.Monad.{returned, Method, ◌>>◌, pure}
use mistralrs_proxy.Routing.{Circuit, open_until, LiveBackend}
use mistralrs_proxy.Routing.Breaker.{
  CircuitOutcome, CircuitPermit, BodyFailureObserver, circuit_open_for, admit, try_circuit_permit,
  record_body_failure, resolve, success_with_body_observer, response_outcome,
}

-- A circuit that admits nobody.
Refuses : Circuit → ℕ → Type 0
Refuses c now = ((d : ℕ) × (c ≡ open_until d) × (now < d)) ⊎ (c ≡ Circuit.half_open true)

admit-none : (c : Circuit) (now : ℕ) → admit c now ≡ none → Refuses c now
unfolding admit Refuses
admit-none Circuit.closed now e = cc
admit-none (open_until d) now e = inl (d, refl, ground arith)
admit-none (Circuit.half_open true) now e = inr refl
admit-none (Circuit.half_open false) now e = cc

none-admit : (c : Circuit) (now : ℕ) → Refuses c now → admit c now ≡ none
unfolding admit Refuses
none-admit c now (inl (d, e, h)) = ground arith
none-admit c now (inr e) = ground arith

module _ {F : Type 0} where
  -- A request is refused exactly while the circuit is open and its time has not come, and while it
  -- is half open with a trial in flight.
  pub try_circuit_permit-none_iff :
      (now : ℕ) (live : LiveBackend F)
      → (try_circuit_permit now live ≡ none) ↔ (
          ((d : ℕ) × (live.circuit ≡ open_until d) × (now < d))
          ⊎ (live.circuit ≡ Circuit.half_open true))
  unfolding try_circuit_permit Refuses
  try_circuit_permit-none_iff now live = (
    (λ e. admit-none live.circuit now (ground arith)),
    (λ h. ground (arith, none-admit live.circuit now h)),
  )

  -- An outcome of a permit or an observer whose epoch is over changes nothing of the backend,
  -- whatever it is.
  pub resolve-stale :
      (now : ℕ) (outcome : CircuitOutcome) (p : CircuitPermit) (o : BodyFailureObserver)
      (live : LiveBackend F)
      → p.resolved ≡ false
      → p.circuit_epoch ≢ live.circuit_epoch
      → o.circuit_epoch ≢ live.circuit_epoch
      → (resolve now outcome p live ≡ returned (record p { resolved = true }) live)
        × (success_with_body_observer p live ≡ returned (record p { resolved = true }, none) live)
        × (record_body_failure now o.circuit_epoch o.open_immediately live ≡ returned tt live)
  unfolding resolve success_with_body_observer record_body_failure
  resolve-stale now outcome p o live r e f = (ground arith, ground arith, ground arith)

  -- The answer to a request that was admitted in epoch `e`, no trial.
  unfoldable pub respond : ℕ → ℕ → ℕ → Method (LiveBackend F) (Unit {0})
  respond now e status = do
    response_outcome now status (record { circuit_epoch = e; trial = false; resolved = false })
    pure tt

  -- The answers to several such requests, in their order, each an instant and a status.
  unfoldable pub respond_all : ℕ → List (ℕ × ℕ) → Method (LiveBackend F) (Unit {0})
  respond_all e [] = pure tt
  respond_all e ((now, status) ∷ rest) = do respond now e status; respond_all e rest

-- Three failures in a row, `n` of them seen already; 429 neither counts nor breaks the row.
abbrev pub is_failure : ℕ → Bool
is_failure status = status == 500 || status == 502 || status == 503 || status == 504

abbrev pub in_a_row : ℕ → ℕ → ℕ
in_a_row n status = if is_failure status then n + 1 else if status == 429 then n else 0

-- The instant of the third failure of the first such row.
unfoldable pub third_in_a_row : ℕ → List (ℕ × ℕ) → Option ℕ
third_in_a_row n [] = none
third_in_a_row n ((now, status) ∷ rest) =
    let later = third_in_a_row (in_a_row n status) rest in
    if leb 3 (in_a_row n status) then some now else later

module _ {F : Type 0} where
  abbrev IsClosed : ℕ → ℕ → LiveBackend F → Type 0
  IsClosed e n live =
      (live.circuit ≡ Circuit.closed)
      × (live.circuit_epoch ≡ e)
      × (live.consecutive_request_failures ≡ n)

  abbrev IsOpened : ℕ → ℕ → LiveBackend F → Type 0
  IsOpened now e live =
      (live.circuit ≡ open_until (now + circuit_open_for)) × (live.circuit_epoch ≡ e + 1)

  abbrev answered : ℕ → ℕ → ℕ → LiveBackend F → LiveBackend F
  answered now n status live =
      if leb 3 (in_a_row n status)
      then record live {
        consecutive_request_failures = 3;
        circuit_epoch = live.circuit_epoch + 1;
        circuit = open_until (now + circuit_open_for);
      }
      else record live { consecutive_request_failures = in_a_row n status }

  respond-answered :
      (now e status n : ℕ) (live : LiveBackend F)
      → e < u64_max
      → n < 3
      → IsClosed e n live
      → respond now e status live ≡ returned tt (answered now n status live)
  unfolding respond response_outcome
  respond-answered now e status n live r l h = ground arith

  respond-stale :
      (now e status : ℕ) (live : LiveBackend F)
      → live.circuit_epoch ≢ e
      → respond now e status live ≡ returned tt live
  unfolding respond response_outcome
  respond-stale now e status live h = ground arith

  respond_all-stale :
      (e : ℕ) (answers : List (ℕ × ℕ)) (live : LiveBackend F)
      → live.circuit_epoch ≢ e
      → respond_all e answers live ≡ returned tt live
  unfolding respond_all
  respond_all-stale e [] live h = refl
  respond_all-stale e ((now, status) ∷ rest) live h =
      rw (respond-stale now e status live h) (respond_all-stale e rest live h)

  -- Answers to requests admitted while the circuit was closed, in any order and at any instants: if
  -- three of them in a row are 500, 502, 503 or 504 (429 aside, and counting `n` failures seen
  -- before), however much later each is, the circuit is open in the next epoch, until ten seconds
  -- after the third of the first such row, and answers after it change nothing; if not, it stays closed
  -- in its epoch.
  pub respond_all-opens :
      (e n : ℕ) (answers : List (ℕ × ℕ)) (live : LiveBackend F)
      → e < u64_max
      → n < 3
      → (live.circuit ≡ Circuit.closed)
      → (live.circuit_epoch ≡ e)
      → (live.consecutive_request_failures ≡ n)
      → (after : LiveBackend F) × (respond_all e answers live ≡ returned tt after)
        × (((third : ℕ) × (third_in_a_row n answers ≡ some third)
              × (after.circuit ≡ open_until (third + 10_000_000_000))
              × (after.circuit_epoch ≡ e + 1))
            ⊎ ((third_in_a_row n answers ≡ none)
                × (after.circuit ≡ Circuit.closed)
                × (after.circuit_epoch ≡ e)))
  unfolding respond_all third_in_a_row
  respond_all-opens e n [] live r l c i f = (live, refl, inr (refl, c, i))
  respond_all-opens e n ((now, status) ∷ rest) live r l c i f =
      let a = respond-answered now e status n live r l (c, i, f) in
      let t = answered now n status live in
      elim (Bool-cases (leb 3 (in_a_row n status))) [
        | inl third ↦ (
          t,
          rw a (respond_all-stale e rest t (ground arith)),
          inl (now, ground arith, ground arith, ground arith),
        )
        | inr not_yet ↦
            let (u, q, w) =
              respond_all-opens e (in_a_row n status) rest t r (ground arith) (ground arith)
                (ground arith) (ground arith) in
            (u, rw a q, rw not_yet w)
      ]
