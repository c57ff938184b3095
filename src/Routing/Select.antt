-- ===== src/Routing/Select.antt =====
-- The choice of a backend for a request (src/routing.rs): `select` gathers the candidates under the
-- lock of the live map, orders them, and then tries them in turn, each with a circuit permit and a
-- lease. Between the two parts other requests may run, so they are two functions, each on the state
-- that it finds. A call that reads the clock is given its instant.
pub mod Dispatch
pub mod Order
pub mod Granted
mod Tests
use mistralrs_proxy.Prelude.{
  ℕ, suc, ◌+◌, ◌%◌, ◌==◌, leb, not, ◌&&◌, ◌||◌, Bool, true, false, Option, none, some, List, [],
  ◌∷◌, if◌then◌else◌, length, u64_max, Str, str_eq,
}
use mistralrs_proxy.Prelude.Maps.{Map, lookup, insert}
use mistralrs_proxy.Prelude.Monad.{Outcome, returned, panicked, Method, bind_outcome, state_after}
use mistralrs_proxy.Backend.Slot.{BackendSnapshot, BackendLease, mode_eq, active, ok, err}
use mistralrs_proxy.Backend.Registry.{BackendRegistry, str_leb, registry_acquire}
use mistralrs_proxy.Routing.{ReadinessState, CircuitState, open_state, LiveBackend}
use mistralrs_proxy.Routing.Breaker.{CircuitPermit, circuit_state, try_circuit_permit, drop_permit}
use mistralrs_proxy.Routing.Health.{RoutingInner, readiness_eq, ensure_backends}
use mistralrs_proxy.Routing.Pressure.{
  Ordering, less, equal, greater, FloatOps, BackendConfig, LeastPressureV1Score, CandidateMetrics,
  score_candidate,
}

pub record Candidate (F : Type 0) : Type 0 where
  pub id : Str
  pub local_active : ℕ
  pub score : Option (LeastPressureV1Score F)
  pub metrics : Option (CandidateMetrics F)

-- What dispatch changes: the live map and the slots.
pub record RoutingParts (F : Type 0) : Type 0 where
  pub inner : RoutingInner F
  pub registry : BackendRegistry

abbrev pub then_with : Ordering → Ordering → Ordering
then_with less o = less
then_with equal o = o
then_with greater o = greater

abbrev pub nat_cmp : ℕ → ℕ → Ordering
nat_cmp a b = if a == b then equal else if leb a b then less else greater

abbrev pub str_cmp : Str → Str → Ordering
str_cmp a b = if str_eq a b then equal else if str_leb a b then less else greater

unfoldable pub rotated_cmp : Str → Str → ℕ → Ordering
rotated_cmp left right cursor = if cursor % 2 == 0 then str_cmp left right else str_cmp right left

abbrev is_open : CircuitState → Bool
is_open open_state = true
is_open _ = false

-- `circuit != Open`, the mode and the readiness.
abbrev pub routable : ℕ → BackendSnapshot → {F : Type 0} → LiveBackend F → Bool
routable now snapshot live =
    mode_eq snapshot.mode active
    && readiness_eq live.readiness ReadinessState.ready
    && not (is_open (circuit_state live.circuit now))

module _ {F : Type 0} (ops : FloatOps F) where
  -- The candidate that the loop pushes.
  unfoldable pub listed : BackendSnapshot → LiveBackend F → BackendConfig → ℕ → ℕ → F → Candidate F
  unfolding score_candidate
  listed snapshot live config now stale_after kv_soft_limit =
      let scored = score_candidate ops snapshot live config now stale_after kv_soft_limit in
      record {
        id = snapshot.spec.id;
        local_active = snapshot.local_active;
        score = scored.0;
        metrics = scored.1;
      }

  -- One turn of the loop over the snapshots; `none` is a `continue`.
  unfoldable pub candidate_of :
      Map (BackendConfig × ℕ) → ℕ → ℕ → F → RoutingInner F → BackendSnapshot → Option (Candidate F)
  unfolding listed
  candidate_of configs now stale_after kv_soft_limit inner snapshot =
      elim (lookup snapshot.spec.id inner.backends) [
        | none ↦ none
        | some live ↦
            if not (routable now snapshot live)
            then none
            else elim (lookup snapshot.spec.id configs) [
              | none ↦ none
              | some (config, generation) ↦
                  if not (live.topology_generation == generation)
                  then none
                  else some (listed snapshot live config now stale_after kv_soft_limit)
            ]
      ]

  unfoldable pub candidates_of :
      Map (BackendConfig × ℕ)
      → ℕ
      → ℕ
      → F
      → RoutingInner F
      → List BackendSnapshot
      → List (Candidate F)
  candidates_of configs now stale_after kv_soft_limit inner [] = []
  candidates_of configs now stale_after kv_soft_limit inner (snapshot ∷ snapshots) =
      let rest = candidates_of configs now stale_after kv_soft_limit inner snapshots in
      elim (candidate_of configs now stale_after kv_soft_limit inner snapshot) [
        | none ↦ rest
        | some c ↦ c ∷ rest
      ]

  abbrev pub is_scored : Candidate F → Bool
  is_scored c = elim c.score [ none ↦ false | some s ↦ true ]

  unfoldable pub any_scored : List (Candidate F) → Bool
  any_scored [] = false
  any_scored (c ∷ cs) = is_scored c || any_scored cs

  unfoldable pub retain_scored : List (Candidate F) → List (Candidate F)
  retain_scored [] = []
  retain_scored (c ∷ cs) = let rest = retain_scored cs in if is_scored c then c ∷ rest else rest

  -- `total_cmp` of the pressures; both are there once unscored candidates are gone.
  abbrev pub pressure_cmp : Candidate F → Candidate F → Ordering
  pressure_cmp left right = elim left.score [
    | none ↦ equal
    | some l ↦ elim right.score [ none ↦ equal | some r ↦ ops.total_cmp l.pressure r.pressure ]
  ]

  unfoldable pub inflight_cmp : ℕ → Candidate F → Candidate F → Ordering
  unfolding rotated_cmp
  inflight_cmp cursor left right =
      then_with (nat_cmp left.local_active right.local_active) (rotated_cmp left.id right.id cursor)

  unfoldable pub scored_cmp : ℕ → Candidate F → Candidate F → Ordering
  unfolding inflight_cmp
  scored_cmp cursor left right =
      then_with (pressure_cmp left right) (inflight_cmp cursor left right)

  -- The stable sort of the standard library, as insertion.
  unfoldable pub insert_by :
      (Candidate F → Candidate F → Ordering) → Candidate F → List (Candidate F) → List (Candidate F)
  insert_by cmp x [] = x ∷ []
  insert_by cmp x (y ∷ ys) =
      let rest = insert_by cmp x ys in
      elim (cmp x y) [ less ↦ x ∷ y ∷ ys | equal ↦ x ∷ y ∷ ys | greater ↦ y ∷ rest ]

  unfoldable pub sort_by :
      (Candidate F → Candidate F → Ordering) → List (Candidate F) → List (Candidate F)
  unfolding insert_by
  sort_by cmp [] = []
  sort_by cmp (x ∷ xs) = insert_by cmp x (sort_by cmp xs)

  unfoldable pub order_candidates : ℕ → List (Candidate F) → List (Candidate F)
  unfolding any_scored retain_scored sort_by
  order_candidates cursor cs =
      if any_scored cs
      then sort_by (scored_cmp cursor) (retain_scored cs)
      else sort_by (inflight_cmp cursor) cs

  -- The part of `select` under the lock: the ordered candidates, and how many there were.
  unfoldable pub gather :
      Map (BackendConfig × ℕ)
      → Map ℕ
      → ℕ
      → ℕ
      → F
      → List BackendSnapshot
      → RoutingInner F
      → (List (Candidate F) × ℕ) × RoutingInner F
  unfolding order_candidates candidates_of ensure_backends
  gather configs generations now stale_after kv_soft_limit snapshots inner =
      let ensured = ensure_backends generations inner in
      let cs = candidates_of configs now stale_after kv_soft_limit ensured snapshots in
      (
        (order_candidates ensured.rotating_cursor cs, length cs),
        record ensured { rotating_cursor = (ensured.rotating_cursor + 1) % suc u64_max },
      )

module _ {F : Type 0} where
  -- `try_circuit_permit` on the live map.
  unfoldable pub permit_for : ℕ → Str → RoutingInner F → Option (CircuitPermit × RoutingInner F)
  permit_for now id inner = elim (lookup id inner.backends) [
    | none ↦ none
    | some live ↦ elim (try_circuit_permit now live) [
      | none ↦ none
      | some (permit, after) ↦
          some (permit, record inner { backends = insert id after inner.backends })
    ]
  ]

  -- The drop of an unresolved permit, on the live map.
  unfoldable pub drop_permit_for : ℕ → Str → CircuitPermit → RoutingInner F → RoutingInner F
  drop_permit_for now id permit inner = elim (lookup id inner.backends) [
    | none ↦ inner
    | some live ↦ record inner {
      backends = insert id (state_after (drop_permit now permit live)) inner.backends;
    }
  ]

  -- One turn of the loop over the ordered candidates; a panic drops the permit as it unwinds.
  unfoldable pub dispatch_one :
      (Str → ℕ) → (Str → ℕ) → Str → Method (RoutingParts F) (Option (CircuitPermit × BackendLease))
  unfolding permit_for drop_permit_for registry_acquire
  dispatch_one permit_at lease_at id st = elim (permit_for (permit_at id) id st.inner) [
    | none ↦ returned none st
    | some (permit, inner) ↦ elim (registry_acquire (lease_at id) id st.registry) [
      | panicked r ↦
          panicked (record { inner = drop_permit_for (lease_at id) id permit inner; registry = r })
      | returned (ok lease) r ↦
          returned (some (permit, lease)) (record { inner = inner; registry = r })
      | returned (err e) r ↦
          returned none
            (record { inner = drop_permit_for (lease_at id) id permit inner; registry = r })
    ]
  ]

  unfoldable pub dispatch :
      (Str → ℕ)
      → (Str → ℕ)
      → List (Candidate F)
      → Method (RoutingParts F) (Option (Candidate F × (CircuitPermit × BackendLease)))
  dispatch permit_at lease_at [] st = returned none st
  dispatch permit_at lease_at (c ∷ cs) st = elim (dispatch_one permit_at lease_at c.id st) [
    | panicked after ↦ panicked after
    | returned (some granted) after ↦ returned (some (c, granted)) after
    | returned none after ↦ dispatch permit_at lease_at cs after
  ]
