-- ===== src/Routing/Request.antt =====
-- A whole selection for a request (src/routing.rs): `select` from the snapshots of the registry to the
-- decision that is logged, when no other request runs in between.
use mistralrs_proxy.Prelude.{
  ℕ, ◌+◌, ◌≡◌, ◌≢◌, ◌++◌, ◌∙◌, inl, inr, refl, ap, subst, sym, true, Option, none, some, List, [],
  ◌∷◌, arith, All, length, Bool-cases, Option-cases, Str,
}
use mistralrs_proxy.Prelude.Maps.{Map, lookup}
use mistralrs_proxy.Prelude.Monad.{Outcome, returned, bind_outcome, bind_outcome-returned}
use mistralrs_proxy.Backend.Slot.{active, BackendLease, BackendSlot, BackendSnapshot}
use mistralrs_proxy.Backend.Registry.{snapshots}
use mistralrs_proxy.Routing.{ready, open_state, LiveBackend}
use mistralrs_proxy.Routing.Breaker.{CircuitPermit, circuit_state}
use mistralrs_proxy.Routing.Health.{RoutingInner, ensure_backends}
use mistralrs_proxy.Routing.Pressure.{FloatOps, BackendConfig, LeastPressureV1Score}
use mistralrs_proxy.Routing.Select.{
  Candidate, RoutingParts, listed, candidate_of, candidates_of, retain_scored, scored_cmp,
  inflight_cmp, any_scored, order_candidates, gather, dispatch,
}
use mistralrs_proxy.Routing.Select.Order.{sort_by-All}
use mistralrs_proxy.Routing.Select.Granted.{dispatch-some}
use mistralrs_proxy.Routing.Status.{duration_ms, map_to, and_then}

pub data RoutingReason : Type 0 where
  fresh_metrics_lowest_pressure least_inflight_fallback : RoutingReason

-- `routing_policy` is one constant of the source, so it is left out here.
pub record RoutingDecision (F : Type 0) : Type 0 where
  pub backend_id : Str
  pub routing_reason : RoutingReason
  pub eligible_backend_count : ℕ
  pub backend_pressure_at_dispatch : Option F
  pub backend_running_at_dispatch : Option ℕ
  pub backend_waiting_at_dispatch : Option ℕ
  pub backend_capacity_at_dispatch : Option ℕ
  pub backend_kv_pressure_at_dispatch : Option F
  pub backend_metrics_age_ms : Option ℕ
  pub backend_proxy_active_at_dispatch : ℕ

pub record RouteSelection (F : Type 0) : Type 0 where
  pub lease : BackendLease
  pub decision : RoutingDecision F
  pub circuit_permit : CircuitPermit

abbrev reason_of : {F : Type 0} → Option (LeastPressureV1Score F) → RoutingReason
reason_of none = least_inflight_fallback
reason_of (some s) = fresh_metrics_lowest_pressure

unfoldable pub decision_of : {F : Type 0} → ℕ → Candidate F → RoutingDecision F
decision_of eligible_backend_count c = record {
  backend_id = c.id;
  routing_reason = reason_of c.score;
  eligible_backend_count = eligible_backend_count;
  backend_pressure_at_dispatch = map_to (λ s. s.pressure) c.score;
  backend_running_at_dispatch = map_to (λ m. m.running) c.metrics;
  backend_waiting_at_dispatch = map_to (λ m. m.waiting) c.metrics;
  backend_capacity_at_dispatch = and_then c.metrics (λ m. m.capacity);
  backend_kv_pressure_at_dispatch = and_then c.metrics (λ m. m.kv_ratio);
  backend_metrics_age_ms = map_to (λ m. duration_ms m.age) c.metrics;
  backend_proxy_active_at_dispatch = c.local_active + 1;
}

-- The selection that `select` returns.
abbrev selection_of :
    {F : Type 0}
    → ℕ
    → Option (Candidate F × (CircuitPermit × BackendLease))
    → Option (RouteSelection F)
selection_of count none = none
selection_of count (some (c, (permit, lease))) =
    some (record { lease = lease; decision = decision_of count c; circuit_permit = permit })

module _ {F : Type 0} (ops : FloatOps F) (configs : Map (BackendConfig × ℕ)) (generations : Map ℕ)
    (now stale_after : ℕ) (kv_soft_limit : F) (permit_at lease_at : Str → ℕ) where
  unfoldable pub select : RoutingParts F → Outcome (RoutingParts F) (Option (RouteSelection F))
  unfolding gather decision_of
  select st =
      let gathered =
        gather ops configs generations now stale_after kv_soft_limit (snapshots now st.registry)
          st.inner in
      bind_outcome (dispatch permit_at lease_at gathered.0.0 (record st { inner = gathered.1 }))
        (λ taken. returned (selection_of gathered.0.1 taken))

  -- Ready, with a circuit that is not open, in the live map as it is brought up to date.
  abbrev pub IsRoutable : RoutingInner F → Str → Type 0
  IsRoutable inner id =
      (live : LiveBackend F) × (lookup id (ensure_backends generations inner).backends ≡ some live)
      × (live.readiness ≡ ready)
      × (circuit_state live.circuit now ≢ open_state)

  candidate_of-IsRoutable :
      (inner : RoutingInner F) (s : BackendSnapshot) (c : Candidate F)
      → candidate_of ops configs now stale_after kv_soft_limit (ensure_backends generations inner) s
        ≡ some c
      → IsRoutable inner c.id
  unfolding candidate_of listed
  candidate_of-IsRoutable inner s c e =
      let m = (ensure_backends generations inner).backends in
      elim (Option-cases (lookup s.spec.id m)) [
        | inl missing ↦ absurd (ground arith)
        | inr (live, found) ↦ elim (Option-cases (lookup s.spec.id configs)) [
          | inl missing ↦ absurd (ground arith)
          | inr ((config, generation), configured) ↦
              let same : c.id ≡ s.spec.id = ground arith in
              (
                live,
                subst (λ x. lookup x m ≡ some live) (sym same) found,
                ground arith,
                λ h. ground arith,
              )
        ]
      ]

  candidates_of-IsRoutable :
      (inner : RoutingInner F) (ss : List BackendSnapshot)
      → All
          (λ c. IsRoutable inner c.id)
          (candidates_of ops configs now stale_after kv_soft_limit
            (ensure_backends generations inner)
            ss)
  unfolding candidates_of
  candidates_of-IsRoutable inner [] = tt
  candidates_of-IsRoutable inner (s ∷ ss) =
      let e = ensure_backends generations inner in
      let rest = candidates_of ops configs now stale_after kv_soft_limit e ss in
      elim (Option-cases (candidate_of ops configs now stale_after kv_soft_limit e s)) [
        | inl skipped ↦
            let f : candidates_of ops configs now stale_after kv_soft_limit e (s ∷ ss) ≡ rest =
              ground arith in
            subst (All _) (sym f) (candidates_of-IsRoutable inner ss)
        | inr (c, pushed) ↦
            let f : candidates_of ops configs now stale_after kv_soft_limit e (s ∷ ss) ≡ c ∷ rest =
              ground arith in
            subst (All (λ c. IsRoutable inner c.id)) (sym f)
              (candidate_of-IsRoutable inner s c pushed, candidates_of-IsRoutable inner ss)
      ]

  retain_scored-All :
      (Q : Candidate F → Type 0) (cs : List (Candidate F)) → All Q cs → All Q (retain_scored ops cs)
  unfolding retain_scored
  retain_scored-All Q [] a = tt
  retain_scored-All Q (c ∷ cs) (q, a) = elim (Option-cases c.score) [
    | inl missing ↦
        let e : retain_scored ops (c ∷ cs) ≡ retain_scored ops cs = ground arith in
        subst (All Q) (sym e) (retain_scored-All Q cs a)
    | inr (s, found) ↦
        let e : retain_scored ops (c ∷ cs) ≡ c ∷ retain_scored ops cs = ground arith in
        subst (All Q) (sym e) (q, retain_scored-All Q cs a)
  ]

  order_candidates-All :
      (Q : Candidate F → Type 0) (cursor : ℕ) (cs : List (Candidate F))
      → All Q cs
      → All Q (order_candidates ops cursor cs)
  unfolding order_candidates
  order_candidates-All Q cursor cs a = elim (Bool-cases (any_scored ops cs)) [
    | inl scored ↦ rw scored (
        sort_by-All ops (scored_cmp ops cursor) Q (retain_scored ops cs) (retain_scored-All Q cs a))
    | inr unscored ↦ rw unscored (sort_by-All ops (inflight_cmp ops cursor) Q cs a)
  ]

  All-middle :
      (Q : Candidate F → Type 0) (xs ys : List (Candidate F)) (c : Candidate F)
      → All Q (xs ++ (c ∷ ys))
      → Q c
  All-middle Q [] ys c (q, a) = q
  All-middle Q (x ∷ xs) ys c (q, a) = All-middle Q xs ys c a

  chosen_of :
      (count : ℕ) (taken : Option (Candidate F × (CircuitPermit × BackendLease)))
      (s : RouteSelection F)
      → selection_of count taken ≡ some s
      → (c : Candidate F) × (taken ≡ some (c, (s.circuit_permit, s.lease)))
        × (s.decision ≡ decision_of count c)
  chosen_of count none s e = absurd (ground arith)
  chosen_of count (some (c, (p, l))) s e = (c, ground arith, ground arith)

  -- The backend that a selection names was ready, with a circuit that was not open, in the live map
  -- that the selection brought up to date, and its slot was registered and active; the lease is for
  -- that slot, with the spec that it had.
  pub select-IsRoutable :
      (st after : RoutingParts F) (s : RouteSelection F)
      → select st ≡ returned (some s) after
      → IsRoutable st.inner s.decision.backend_id
        × (slot : BackendSlot) × (lookup s.decision.backend_id st.registry ≡ some slot)
        × (slot.registered ≡ true)
        × (slot.mode ≡ active)
        × (s.lease.spec ≡ slot.spec)
  unfolding select gather decision_of
  select-IsRoutable st after s e =
      let ss = snapshots now st.registry in
      let inner = ensure_backends generations st.inner in
      let cs = candidates_of ops configs now stale_after kv_soft_limit inner ss in
      let ordered = order_candidates ops inner.rotating_cursor cs in
      let routable =
        order_candidates-All _ inner.rotating_cursor cs (candidates_of-IsRoutable st.inner ss) in
      let (taken, v, ran, f) = bind_outcome-returned (dispatch permit_at lease_at ordered _) _ e in
      let (c, g, d) = chosen_of (length cs) taken s (ground arith) in
      let (earlier, later, split, mid, passed, granted) =
        dispatch-some permit_at lease_at ordered _ v c s.circuit_permit s.lease (ran ∙ rw g refl) in
      let same : s.decision.backend_id ≡ c.id = ap (λ x. x.backend_id) d in
      (
        subst (IsRoutable st.inner) (sym same)
            (All-middle _ earlier later c (subst (All _) split routable)),
        granted.slot,
        subst (λ x. lookup x st.registry ≡ some granted.slot) (sym same)
            (sym (passed.slots_kept c.id) ∙ granted.slot_found),
        granted.registered,
        granted.is_active,
        granted.spec_captured,
      )
