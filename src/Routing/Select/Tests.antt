-- ===== src/Routing/Select/Tests.antt =====
-- Selections among concrete backends, with natural numbers for `f64`, and the theorems on them.
use mistralrs_proxy.Prelude.{
  ℕ, ◌+◌, ◌-◌, ◌/◌, ◌≡◌, ◌↔◌, refl, leb, min, true, false, none, some, Option, List, [], ◌∷◌, ◌++◌,
  arith, All, Str, str_eq,
}
use mistralrs_proxy.Prelude.Maps.{lookup, insert}
use mistralrs_proxy.Prelude.Monad.{returned}
use mistralrs_proxy.Backend.Leases.{insert as lease_insert}
use mistralrs_proxy.Backend.Slot.{
  BackendSpec, BackendSlot, BackendSnapshot, BackendLease, active, draining, new, snapshot,
  try_acquire, grant,
}
use mistralrs_proxy.Backend.Registry.{get_retained, registry_acquire}
use mistralrs_proxy.Routing.{ReadinessState, half_open, LiveBackend, new_live}
use mistralrs_proxy.Routing.Breaker.{CircuitPermit, admit, try_circuit_permit, resolve, drop_permit}
use mistralrs_proxy.Routing.Health.{RoutingInner}
use mistralrs_proxy.Routing.Pressure.{FloatOps, BackendConfig, LeastPressureV1Score}
use mistralrs_proxy.Routing.Select.{
  Candidate, RoutingParts, nat_cmp, any_scored, retain_scored, inflight_cmp, scored_cmp, insert_by,
  sort_by, order_candidates, candidate_of, permit_for, drop_permit_for, dispatch_one, dispatch,
}
use mistralrs_proxy.Routing.Select.Dispatch.{Passes, dispatch-none}
use mistralrs_proxy.Routing.Select.Granted.{Grants, dispatch-some}
use mistralrs_proxy.Routing.Select.Order.{IsTotalOrder, NotAbove, order_candidates-least_pressure}
use mistralrs_proxy.Routing.Status.{BackendStatusSnapshot, status_of, candidate_of-status_of}
use mistralrs_proxy.Prelude.Maps.{Map}
use mistralrs_proxy.Backend.Registry.{snapshots}
use mistralrs_proxy.Routing.Health.{
  ensure_backends, ensure_entries, ensure_entry, retain_configured,
}
use mistralrs_proxy.Routing.Breaker.{circuit_state}
use mistralrs_proxy.Routing.Pressure.{score_candidate}
use mistralrs_proxy.Routing.Select.{gather, candidates_of, listed}
use mistralrs_proxy.Routing.Request.{
  RouteSelection, least_inflight_fallback, decision_of, select, IsRoutable, select-IsRoutable,
}

abbrev ops : FloatOps ℕ
ops = record {
  of_u64 = λ n. n;
  add = λ a b. a + b;
  sub = λ a b. a - b;
  div = λ a b. a / b;
  zero = 0;
  one = 1;
  max_zero = λ a. a;
  clamp_unit = λ a. min a 1;
  is_finite = λ a. true;
  in_unit = λ a. leb a 1;
  total_cmp = nat_cmp;
}

ops-IsTotalOrder : IsTotalOrder ops
ops-IsTotalOrder = record { flips = λ a b. ground arith; transitive = λ a b c p q. ground arith }

abbrev id_a : Str
id_a = b'a' ∷ []

abbrev id_b : Str
id_b = b'b' ∷ []

abbrev spec_a : BackendSpec
spec_a = record { id = id_a; endpoint = b'h' ∷ [] }

-- A backend that is ready and whose breaker waits for a trial.
abbrev live_a : LiveBackend ℕ
live_a = record (new_live 1) { readiness = ReadinessState.ready; circuit = half_open false }

abbrev score_at : ℕ → LeastPressureV1Score ℕ
score_at pressure = record { occupancy = pressure; kv_penalty = 0; pressure = pressure }

abbrev candidate_at : Str → ℕ → Option (LeastPressureV1Score ℕ) → Candidate ℕ
candidate_at id local_active score = record {
  id = id;
  local_active = local_active;
  score = score;
  metrics = none;
}

abbrev inner_a : RoutingInner ℕ
inner_a = record { backends = (id_a, live_a) ∷ []; rotating_cursor = 0 }

abbrev draining_parts : RoutingParts ℕ
draining_parts = record { inner = inner_a; registry = (id_a, new spec_a draining) ∷ [] }

abbrev active_parts : RoutingParts ℕ
active_parts = record { inner = inner_a; registry = (id_a, new spec_a active) ∷ [] }

abbrev at_five : Str → ℕ
at_five id = 5

passed_over :
    dispatch at_five at_five (candidate_at id_a 0 none ∷ []) draining_parts
    ≡ returned none draining_parts
unfolding dispatch dispatch_one permit_for drop_permit_for registry_acquire get_retained lookup
    insert str_eq new_live new try_circuit_permit admit try_acquire drop_permit resolve
passed_over = refl

dispatch-none_example : Passes at_five draining_parts draining_parts
dispatch-none_example =
    dispatch-none at_five at_five (candidate_at id_a 0 none ∷ []) draining_parts draining_parts
      passed_over

abbrev lease_a : BackendLease
lease_a = record { key = some (record { started_at = 5; serial = 0 }); spec = spec_a }

abbrev trial_permit : CircuitPermit
trial_permit = record { circuit_epoch = 0; trial = true; resolved = false }

abbrev granted_slot : BackendSlot
granted_slot = record {
  state = record {
    spec = spec_a;
    registered = true;
    mode = active;
    mode_epoch = 0;
    sequence = 1;
    spec_revision = 0;
    next_lease_serial = 1;
    total_acquired = 1;
    leases = (record { started_at = 5; serial = 0 }) ∷ [];
  };
  changed = 1;
}

abbrev granted_parts : RoutingParts ℕ
granted_parts = record {
  inner = record inner_a { backends = (id_a, record live_a { circuit = half_open true }) ∷ [] };
  registry = (id_a, granted_slot) ∷ [];
}

-- `b` is unknown to the maps, so it is passed over.
abbrev two_candidates : List (Candidate ℕ)
two_candidates = candidate_at id_b 0 none ∷ candidate_at id_a 0 none ∷ []

taken :
    dispatch at_five at_five two_candidates active_parts
    ≡ returned (some (candidate_at id_a 0 none, (trial_permit, lease_a))) granted_parts
unfolding dispatch dispatch_one permit_for drop_permit_for registry_acquire get_retained lookup
    insert str_eq new_live new try_circuit_permit admit try_acquire grant lease_insert
taken = refl

dispatch-some_example :
    (earlier later : List (Candidate ℕ)) × (two_candidates
      ≡ earlier ++ (candidate_at id_a 0 none ∷ later))
    × (mid : RoutingParts ℕ) × Passes at_five active_parts mid
    × Grants id_a mid granted_parts trial_permit lease_a
dispatch-some_example =
    dispatch-some at_five at_five two_candidates active_parts granted_parts
      (candidate_at id_a 0 none) trial_permit lease_a taken

abbrev scored_candidates : List (Candidate ℕ)
scored_candidates =
    candidate_at id_b 0 (some (score_at 7)) ∷ candidate_at id_a 9 (some (score_at 4)) ∷ []

least_first :
    (any_scored ops scored_candidates ≡ true)
    × (order_candidates ops 0 scored_candidates
        ≡ candidate_at id_a 9 (some (score_at 4)) ∷ candidate_at id_b 0 (some (score_at 7)) ∷ [])
unfolding any_scored order_candidates retain_scored sort_by insert_by scored_cmp inflight_cmp
least_first = (refl, refl)

order_candidates-least_pressure_example :
    ((s : LeastPressureV1Score ℕ) × (some (score_at 4) ≡ some s))
    × All (NotAbove ops (candidate_at id_a 9 (some (score_at 4)))) scored_candidates
order_candidates-least_pressure_example =
    order_candidates-least_pressure ops 0 scored_candidates
      (candidate_at id_b 0 (some (score_at 7)) ∷ []) (candidate_at id_a 9 (some (score_at 4)))
      ops-IsTotalOrder least_first.0 least_first.1

abbrev unscored_candidates : List (Candidate ℕ)
unscored_candidates = candidate_at id_b 3 none ∷ candidate_at id_a 2 none ∷ []

fewest_first :
    (any_scored ops unscored_candidates ≡ false)
    × (order_candidates ops 0 unscored_candidates
        ≡ candidate_at id_a 2 none ∷ candidate_at id_b 3 none ∷ [])
unfolding any_scored order_candidates retain_scored sort_by insert_by inflight_cmp
fewest_first = (refl, refl)

abbrev snapshot_a : BackendSnapshot
snapshot_a = snapshot 5 (new spec_a active).state

abbrev config_a : BackendConfig
config_a = record { url = b'h' ∷ []; capacity = some 4 }

candidate_of-status_of_example :
    ((c : Candidate ℕ) × (candidate_of ops ((id_a, (config_a, 1)) ∷ []) 5 10 0 inner_a snapshot_a
        ≡ some c))
    ↔ ((s : BackendStatusSnapshot ℕ) × (status_of ops
            ((id_a, (config_a, 1)) ∷ [])
            5
            10
            0
            inner_a
            snapshot_a
          ≡ some s)
        × (s.eligible ≡ true))
candidate_of-status_of_example =
    candidate_of-status_of ops ((id_a, (config_a, 1)) ∷ []) 5 10 0 inner_a snapshot_a

abbrev selected_parts : RoutingParts ℕ
selected_parts = record granted_parts { inner = record granted_parts.inner { rotating_cursor = 1 } }

abbrev selection_a : RouteSelection ℕ
selection_a = record {
  lease = lease_a;
  decision = record {
    backend_id = id_a;
    routing_reason = least_inflight_fallback;
    eligible_backend_count = 1;
    backend_pressure_at_dispatch = none;
    backend_running_at_dispatch = none;
    backend_waiting_at_dispatch = none;
    backend_capacity_at_dispatch = none;
    backend_kv_pressure_at_dispatch = none;
    backend_metrics_age_ms = none;
    backend_proxy_active_at_dispatch = 1;
  };
  circuit_permit = trial_permit;
}

abbrev configs_a : Map (BackendConfig × ℕ)
configs_a = (id_a, (config_a, 1)) ∷ []

abbrev generations_a : Map ℕ
generations_a = (id_a, 1) ∷ []

selected :
    select ops configs_a generations_a 5 10 0 at_five at_five active_parts
    ≡ returned (some selection_a) selected_parts
unfolding select gather decision_of snapshots snapshot ensure_backends ensure_entries ensure_entry
    retain_configured candidates_of candidate_of listed score_candidate circuit_state any_scored
    order_candidates retain_scored sort_by insert_by inflight_cmp dispatch dispatch_one permit_for
    drop_permit_for registry_acquire get_retained lookup insert str_eq new_live new
    try_circuit_permit admit try_acquire grant lease_insert
selected = refl

select-IsRoutable_example :
    IsRoutable ops configs_a generations_a 5 10 0 at_five at_five inner_a id_a
    × (slot : BackendSlot) × (lookup id_a active_parts.registry ≡ some slot)
    × (slot.registered ≡ true)
    × (slot.mode ≡ active)
    × (lease_a.spec ≡ slot.spec)
select-IsRoutable_example =
    select-IsRoutable ops configs_a generations_a 5 10 0 at_five at_five active_parts selected_parts
      selection_a selected
