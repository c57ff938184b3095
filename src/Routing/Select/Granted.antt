-- ===== src/Routing/Select/Granted.antt =====
-- The backend that the loop of `select` takes (src/routing.rs).
use mistralrs_proxy.Prelude.{
  ℕ, ◌≡◌, ◌≢◌, ◌++◌, ap, refl, subst, ◌∙◌, inl, inr, true, false, some, List, [], ◌∷◌, arith, Str,
  str_eq_refl, Option-cases,
}
use mistralrs_proxy.Prelude.Maps.{lookup, insert, lookup-insert}
use mistralrs_proxy.Prelude.Monad.{returned}
use mistralrs_proxy.Backend.Slot.{BackendSlot, BackendLease, ok, active, try_acquire, grant}
use mistralrs_proxy.Backend.Registry.{BackendRegistry, get_retained, registry_acquire}
use mistralrs_proxy.Routing.{half_open, LiveBackend}
use mistralrs_proxy.Routing.Breaker.{CircuitPermit, try_circuit_permit, admit}
use mistralrs_proxy.Routing.Select.{Candidate, RoutingParts, permit_for, dispatch_one, dispatch}
use mistralrs_proxy.Routing.Select.Dispatch.{
  acquired-cases, turn-cases, permit_for-some, Passes, Passes-refl, Passes-trans,
  dispatch_one-Passes,
}

try_acquire-ok :
    (now : ℕ) (t u : BackendSlot) (l : BackendLease)
    → try_acquire now t ≡ returned (ok l) u
    → (t.registered ≡ true) × (t.mode ≡ active) × (l.spec ≡ t.spec)
unfolding try_acquire grant
try_acquire-ok now t u l e = ground arith

registry_acquire-ok :
    (now : ℕ) (id : Str) (slots after : BackendRegistry) (l : BackendLease)
    → registry_acquire now id slots ≡ returned (ok l) after
    → (t u : BackendSlot) × (lookup id slots ≡ some t)
      × (try_acquire now t ≡ returned (ok l) u)
      × (lookup id after ≡ some u)
unfolding registry_acquire get_retained
registry_acquire-ok now id slots after l e = elim (Option-cases (lookup id slots)) [
  | inl missing ↦ absurd (ground arith)
  | inr (t, found) ↦ elim (acquired-cases (try_acquire now t)) [
    | inl (x, u, refused) ↦ absurd (ground arith)
    | inr (inl (m, u, granted)) ↦
        let k : after ≡ insert id u slots = ground arith in
        (t, u, found, ground arith, rw k (lookup-insert id id u slots ∙ rw (str_eq_refl id) refl))
    | inr (inr (u, lost)) ↦ absurd (ground arith)
  ]
]

-- The backend was admitted by its breaker and its slot, as they stood in `st`, and the slot and the
-- permit are those that the request goes on with.
pub record Grants {F : Type 0} (id : Str) (st after : RoutingParts F) (p : CircuitPermit)
    (l : BackendLease) : Type 0 where
  pub slot : BackendSlot
  pub slot_after : BackendSlot
  pub live : LiveBackend F
  pub acquired_at : ℕ
  pub slot_found : lookup id st.registry ≡ some slot
  pub slot_kept : lookup id after.registry ≡ some slot_after
  pub acquired : try_acquire acquired_at slot ≡ returned (ok l) slot_after
  pub registered : slot.registered ≡ true
  pub is_active : slot.mode ≡ active
  pub spec_captured : l.spec ≡ slot.spec
  pub live_found : lookup id st.inner.backends ≡ some live
  pub permit_current : p.circuit_epoch ≡ live.circuit_epoch
  pub permit_open : p.resolved ≡ false
  pub one_trial : p.trial ≡ true → live.circuit ≢ half_open true

module _ {F : Type 0} where
  permit_of :
      (now : ℕ) (live after : LiveBackend F) (p : CircuitPermit)
      → try_circuit_permit now live ≡ some (p, after)
      → (p.circuit_epoch ≡ live.circuit_epoch)
        × (p.resolved ≡ false)
        × (p.trial ≡ true → live.circuit ≢ half_open true)
  unfolding try_circuit_permit admit
  permit_of now live after p e = (ground arith, ground arith, λ t h. ground arith)

  dispatch_one-Grants :
      (permit_at lease_at : Str → ℕ) (id : Str) (st after : RoutingParts F) (p : CircuitPermit)
      (l : BackendLease)
      → dispatch_one permit_at lease_at id st ≡ returned (some (p, l)) after
      → Grants id st after p l
  unfolding dispatch_one
  dispatch_one-Grants permit_at lease_at id st after p l e =
      elim (Option-cases (permit_for (permit_at id) id st.inner)) [
        | inl refused ↦ absurd (ground arith)
        | inr ((q, inner), given) ↦
            elim (acquired-cases (registry_acquire (lease_at id) id st.registry)) [
              | inl (x, r, h) ↦ absurd (ground arith)
              | inr (inl (m, r, h)) ↦
                  let same : q ≡ p = ground arith in
                  let took : m ≡ l = ground arith in
                  let left : r ≡ after.registry = ground arith in
                  let (t, u, f, g, k) = registry_acquire-ok (lease_at id) id st.registry r m h in
                  let (live, now, found, tried, _) =
                    permit_for-some (permit_at id) id st.inner inner q given in
                  let (a, b, c) = try_acquire-ok (lease_at id) t u m g in
                  let (d, o, w) = permit_of (permit_at id) live now q tried in
                  record {
                    slot = t;
                    slot_after = u;
                    live = live;
                    acquired_at = lease_at id;
                    slot_found = f;
                    slot_kept = subst (λ x. lookup id x ≡ some u) left k;
                    acquired = subst (λ x. try_acquire (lease_at id) t ≡ returned (ok x) u) took g;
                    registered = a;
                    is_active = b;
                    spec_captured = subst (λ x. x.spec ≡ t.spec) took c;
                    live_found = found;
                    permit_current = subst (λ x. x.circuit_epoch ≡ live.circuit_epoch) same d;
                    permit_open = subst (λ x. x.resolved ≡ false) same o;
                    one_trial = subst (λ x. x.trial ≡ true → live.circuit ≢ half_open true) same w;
                  }
              | inr (inr (r, h)) ↦ absurd (ground arith)
            ]
      ]

  -- A selection that takes a backend takes one of its candidates. On those before it, it has left every
  -- slot as it was, and every live entry too, but that a circuit that was open until a time that had
  -- come may be half open, with no trial in flight (`Passes`). The backend's slot was registered and
  -- active then, the lease captures its spec, and the permit is unresolved, of the current epoch, and no
  -- second trial (`Grants`).
  pub dispatch-some :
      (permit_at lease_at : Str → ℕ) (cs : List (Candidate F)) (st after : RoutingParts F)
      (c : Candidate F) (p : CircuitPermit) (l : BackendLease)
      → dispatch permit_at lease_at cs st ≡ returned (some (c, (p, l))) after
      → (earlier later : List (Candidate F)) × (cs ≡ earlier ++ (c ∷ later))
        × (mid : RoutingParts F) × Passes permit_at st mid
        × Grants c.id mid after p l
  unfolding dispatch
  dispatch-some permit_at lease_at [] st after c p l e = absurd (ground arith)
  dispatch-some permit_at lease_at (d ∷ cs) st after c p l e =
      elim (turn-cases (dispatch_one permit_at lease_at d.id st)) [
        | inl (s, h) ↦
            let (earlier, later, split, mid, passed, g) =
              dispatch-some permit_at lease_at cs s after c p l (ground arith) in
            (
              d ∷ earlier,
              later,
              ap (λ x. d ∷ x) split,
              mid,
              Passes-trans (dispatch_one-Passes permit_at lease_at d.id st s h) passed,
              g,
            )
        | inr (inl ((q, m), s, h)) ↦
            let same : d ≡ c = ground arith in
            let f : dispatch_one permit_at lease_at c.id st ≡ returned (some (p, l)) after =
              ground arith in
            (
              [],
              cs,
              ap (λ x. x ∷ cs) same,
              st,
              Passes-refl permit_at st,
              dispatch_one-Grants permit_at lease_at c.id st after p l f,
            )
        | inr (inr (s, h)) ↦ absurd (ground arith)
      ]
