-- ===== src/Routing/Select/Dispatch.antt =====
-- The loop of `select` over its ordered candidates (src/routing.rs): what it takes, and what it leaves
-- behind on the backends that it passes over.
use mistralrs_proxy.Prelude.{
  ℕ, ◌≤◌, ap, false, ◌≡◌, refl, sym, subst, ◌∙◌, ◌⊎◌, inl, inr, true, Option, none, some, List, [],
  ◌∷◌, arith, Str, str_eq, str_eq_iff, str_eq_refl, if◌then◌else◌, Bool-cases, Option-cases,
}
use mistralrs_proxy.Prelude.Maps.{lookup, insert, lookup-insert}
use mistralrs_proxy.Prelude.Monad.{Outcome, returned, panicked, state_after}
use mistralrs_proxy.Backend.Slot.{Result, ok, err, try_acquire}
use mistralrs_proxy.Backend.Slot.Gate.{try_acquire-refused}
use mistralrs_proxy.Backend.Registry.{
  BackendRegistry, RegistryAcquireError, get_retained, registry_acquire,
}
use mistralrs_proxy.Routing.{closed, open_until, half_open, LiveBackend}
use mistralrs_proxy.Routing.Breaker.{CircuitPermit, try_circuit_permit, drop_permit, resolve, admit}
use mistralrs_proxy.Routing.Health.{RoutingInner}
use mistralrs_proxy.Routing.Select.{
  Candidate, RoutingParts, permit_for, drop_permit_for, dispatch_one, dispatch,
}

-- A live entry after requests that were not sent: an open circuit whose time had come by `now` may be
-- half open, with no trial in flight; all else is as it was.
pub record Quiet {F : Type 0} (now : ℕ) (t u : LiveBackend F) : Type 0 where
  pub others_kept : u ≡ record t { circuit = u.circuit }
  pub circuit_kept :
      (u.circuit ≡ t.circuit)
      ⊎ ((d : ℕ) × (t.circuit ≡ open_until d) × (d ≤ now) × (u.circuit ≡ half_open false))

pub acquired-cases :
    {A S E : Type 0} (o : Outcome S (Result A E))
    → ((x : E) × (s : S) × (o ≡ returned (err x) s))
      ⊎ (((a : A) × (s : S) × (o ≡ returned (ok a) s)) ⊎ ((s : S) × (o ≡ panicked s)))
acquired-cases (returned (ok a) s) = inr (inl (a, s, refl))
acquired-cases (returned (err x) s) = inl (x, s, refl)
acquired-cases (panicked s) = inr (inr (s, refl))

pub turn-cases :
    {A S : Type 0} (o : Outcome S (Option A))
    → ((s : S) × (o ≡ returned none s))
      ⊎ (((a : A) × (s : S) × (o ≡ returned (some a) s)) ⊎ ((s : S) × (o ≡ panicked s)))
turn-cases (returned none s) = inl (s, refl)
turn-cases (returned (some a) s) = inr (inl (a, s, refl))
turn-cases (panicked s) = inr (inr (s, refl))

registry_acquire-err :
    (now : ℕ) (id : Str) (slots after : BackendRegistry) (e : RegistryAcquireError) (j : Str)
    → registry_acquire now id slots ≡ returned (err e) after
    → lookup j after ≡ lookup j slots
unfolding registry_acquire get_retained
registry_acquire-err now id slots after e j h = elim (Option-cases (lookup id slots)) [
  | inl missing ↦ ground arith
  | inr (t, found) ↦ elim (acquired-cases (try_acquire now t)) [
    | inl (x, u, refused) ↦
        let same : u ≡ t = (try_acquire-refused now t u x refused).0 in
        let k : after ≡ insert id u slots = ground arith in
        ground (arith, lookup-insert id j u slots, str_eq_iff id j)
    | inr (inl (l, u, granted)) ↦ absurd (ground arith)
    | inr (inr (u, lost)) ↦ absurd (ground arith)
  ]
]

module _ {F : Type 0} where
  Quiet-refl : (now : ℕ) (t : LiveBackend F) → Quiet now t t
  Quiet-refl now t = record { others_kept = refl; circuit_kept = inl refl }

  Quiet-trans : (now : ℕ) (s t u : LiveBackend F) → Quiet now s t → Quiet now t u → Quiet now s u
  Quiet-trans now s t u p q = record {
    others_kept =
        q.others_kept ∙ ap (λ (x : LiveBackend F). record x { circuit = u.circuit }) p.others_kept;
    circuit_kept = elim q.circuit_kept [
      | inl same ↦ elim p.circuit_kept [
        | inl before ↦ inl (same ∙ before)
        | inr (d, was, past, is) ↦ inr (d, was, past, same ∙ is)
      ]
      | inr (d, was, past, is) ↦ elim p.circuit_kept [
        | inl before ↦ inr (d, sym before ∙ was, past, is)
        | inr (c, earlier, over, half) ↦ absurd (ground arith)
      ]
    ];
  }

  -- A permit that is taken and dropped unresolved.
  drop_permit-Quiet :
      (now later : ℕ) (live after : LiveBackend F) (p : CircuitPermit)
      → try_circuit_permit now live ≡ some (p, after)
      → Quiet now live (state_after (drop_permit later p after))
  unfolding try_circuit_permit drop_permit resolve admit
  drop_permit-Quiet now later live after p e =
      elim live.circuit
          as (λ c. live.circuit ≡ c → Quiet now live (state_after (drop_permit later p after))) [
            | closed ↦
                λ is. record { others_kept = ground arith; circuit_kept = inl (ground arith) }
            | open_until d ↦ λ is. record {
              others_kept = ground arith;
              circuit_kept = inr (d, is, ground arith, ground arith);
            }
            | half_open b ↦ λ is.
                elim b
                    as (λ x.
                      live.circuit ≡ half_open x
                      → Quiet now live (state_after (drop_permit later p after))) [
                        | true ↦ λ it. absurd (ground arith)
                        | false ↦ λ it. record {
                          others_kept = ground arith;
                          circuit_kept = inl (ground arith);
                        }
                      ]
                  is
          ]
        refl

  pub permit_for-some :
      (now : ℕ) (id : Str) (inner after : RoutingInner F) (p : CircuitPermit)
      → permit_for now id inner ≡ some (p, after)
      → (t u : LiveBackend F) × (lookup id inner.backends ≡ some t)
        × (try_circuit_permit now t ≡ some (p, u))
        × (after ≡ record inner { backends = insert id u inner.backends })
  unfolding permit_for
  permit_for-some now id inner after p e = elim (Option-cases (lookup id inner.backends)) [
    | inl missing ↦ absurd (ground arith)
    | inr (t, found) ↦ elim (Option-cases (try_circuit_permit now t)) [
      | inl refused ↦ absurd (ground arith)
      | inr ((q, u), given) ↦ (t, u, found, ground arith, ground arith)
    ]
  ]

  -- What a dispatch that takes no backend leaves: every slot as it was, and every live entry quiet.
  pub record Passes (permit_at : Str → ℕ) (st after : RoutingParts F) : Type 0 where
    pub slots_kept : (id : Str) → lookup id after.registry ≡ lookup id st.registry
    pub live_kept :
        (id : Str) (t : LiveBackend F)
        → lookup id st.inner.backends ≡ some t
        → (u : LiveBackend F) × (lookup id after.inner.backends ≡ some u) × Quiet (permit_at id) t u

  pub Passes-refl : (permit_at : Str → ℕ) (st : RoutingParts F) → Passes permit_at st st
  Passes-refl permit_at st = record {
    slots_kept = λ id. refl;
    live_kept = λ id t e. (t, e, Quiet-refl (permit_at id) t);
  }

  pub Passes-trans :
      {permit_at : Str → ℕ} {r s t : RoutingParts F}
      → Passes permit_at r s
      → Passes permit_at s t
      → Passes permit_at r t
  Passes-trans {permit_at} p q = record {
    slots_kept = λ id. q.slots_kept id ∙ p.slots_kept id;
    live_kept = λ id t e.
        let (u, f, k) = p.live_kept id t e in
        let (v, g, l) = q.live_kept id u f in (v, g, Quiet-trans (permit_at id) t u v k l);
  }

  dropped-Quiet :
      (permit_at : Str → ℕ) (later : ℕ) (id : Str) (inner after : RoutingInner F)
      (p : CircuitPermit)
      → permit_for (permit_at id) id inner ≡ some (p, after)
      → (j : Str) (t : LiveBackend F) → lookup j inner.backends ≡ some t
      → (u : LiveBackend F) × (lookup j (drop_permit_for later id p after).backends ≡ some u)
        × Quiet (permit_at j) t u
  unfolding drop_permit_for
  dropped-Quiet permit_at later id inner after p e j t found =
      let (s, u, f, g, h) = permit_for-some (permit_at id) id inner after p e in
      let k : lookup id after.backends ≡ some u =
        rw h (lookup-insert id id u inner.backends ∙ rw (str_eq_refl id) refl) in
      let d = state_after (drop_permit later p u) in
      let m : drop_permit_for later id p after
          ≡ record after { backends = insert id d after.backends } =
        ground arith in
      let l : lookup j after.backends ≡ (if str_eq id j then some u else lookup j inner.backends) =
        rw h (lookup-insert id j u inner.backends) in
      let n = lookup-insert id j d after.backends in
      elim (Bool-cases (str_eq id j)) [
        | inl same ↦
            let q : id ≡ j = (str_eq_iff id j).0 same in
            let w : s ≡ t = ground arith in
            (
              d,
              rw m (n ∙ rw same refl),
              subst (λ i. Quiet (permit_at i) t d) q
                  (subst (λ x. Quiet (permit_at id) x d) w
                    (drop_permit-Quiet (permit_at id) later s u p g)),
            )
        | inr other ↦ (t, rw m (n ∙ rw other (l ∙ rw other found)), Quiet-refl (permit_at j) t)
      ]

  pub dispatch_one-Passes :
      (permit_at lease_at : Str → ℕ) (id : Str) (st after : RoutingParts F)
      → dispatch_one permit_at lease_at id st ≡ returned none after
      → Passes permit_at st after
  unfolding dispatch_one
  dispatch_one-Passes permit_at lease_at id st after e =
      elim (Option-cases (permit_for (permit_at id) id st.inner)) [
        | inl refused ↦ subst (Passes permit_at st) (ground arith) (Passes-refl permit_at st)
        | inr ((p, inner), given) ↦
            elim (acquired-cases (registry_acquire (lease_at id) id st.registry)) [
              | inl (x, r, h) ↦
                  let k : after
                      ≡ record { inner = drop_permit_for (lease_at id) id p inner; registry = r } =
                    ground arith in
                  subst (Passes permit_at st) (sym k) (record {
                    slots_kept = λ j. registry_acquire-err (lease_at id) id st.registry r x j h;
                    live_kept = dropped-Quiet permit_at (lease_at id) id st.inner inner p given;
                  })
              | inr (inl (l, r, h)) ↦ absurd (ground arith)
              | inr (inr (r, h)) ↦ absurd (ground arith)
            ]
      ]

  -- A selection that takes no backend, from any state that its candidates find, leaves every slot as
  -- it was, so no lease, and every live entry as it was too, but that a circuit that was open until a
  -- time that had come may be half open, with no trial in flight (`Passes`).
  pub dispatch-none :
      (permit_at lease_at : Str → ℕ) (cs : List (Candidate F)) (st after : RoutingParts F)
      → dispatch permit_at lease_at cs st ≡ returned none after
      → Passes permit_at st after
  unfolding dispatch
  dispatch-none permit_at lease_at [] st after e =
      subst (Passes permit_at st) (ground arith) (Passes-refl permit_at st)
  dispatch-none permit_at lease_at (c ∷ cs) st after e =
      elim (turn-cases (dispatch_one permit_at lease_at c.id st)) [
        | inl (s, h) ↦
            Passes-trans (dispatch_one-Passes permit_at lease_at c.id st s h)
              (dispatch-none permit_at lease_at cs s after (ground arith))
        | inr (inl (g, s, h)) ↦ absurd (ground arith)
        | inr (inr (s, h)) ↦ absurd (ground arith)
      ]
