-- ===== src/Backend/Registry/Desired.antt =====
-- A whole reconciliation of the registry (src/backend.rs), from the list of specs that it is given.
use mistralrs_proxy.Prelude.{
  ℕ, ◌+◌, ◌≤◌, ◌≡◌, ◌≢◌, refl, sym, subst, ◌∙◌, ◌↔◌, inl, inr, Option, none, some, List, [], ◌∷◌,
  if◌then◌else◌, arith, Option-cases, Str, str_eq, str_eq_refl, str_eq_iff,
}
use mistralrs_proxy.Prelude.Maps.{Map, lookup, insert, lookup-insert}
use mistralrs_proxy.Prelude.Monad.{Outcome, returned, panicked, bind_outcome, bind_outcome-returned}
use mistralrs_proxy.Backend.Slot.{BackendSpec, BackendSlot, Result, ok, err, Result-cases}
use mistralrs_proxy.Backend.Registry.{
  BackendRegistry, ReconcileReport, ReconcileError, duplicate_backend_id, get_retained, get,
  collect, retire_absent, admit_desired, apply_desired, reconcile,
}
use mistralrs_proxy.Backend.Registry.Present.{Retains, Retains-trans}
use mistralrs_proxy.Backend.Registry.Reconcile.{
  Once, retire_absent-none, retire_absent-some, admit_desired-other, admit_desired-Admitted,
}

-- The first spec of an id.
abbrev pub spec_of : Str → List BackendSpec → Option BackendSpec
spec_of id [] = none
spec_of id (s ∷ specs) = if str_eq s.id id then some s else spec_of id specs

abbrev pub occurrences : Str → List BackendSpec → ℕ
occurrences id [] = 0
occurrences id (s ∷ specs) = (if str_eq s.id id then 1 else 0) + occurrences id specs

abbrev first_of : Option BackendSpec → Option BackendSpec → Option BackendSpec
first_of none s = s
first_of (some r) s = some r

abbrev held : Option BackendSpec → ℕ
held none = 0
held (some s) = 1

first_of-none : (o : Option BackendSpec) → first_of o none ≡ o
first_of-none none = refl
first_of-none (some s) = refl

held_le : (o : Option BackendSpec) → held o ≤ 1
held_le none = omega arith
held_le (some s) = omega arith

insert-Once :
    (id : Str) (spec : BackendSpec) (m : Map BackendSpec)
    → Once m
    → lookup id m ≡ none
    → Once (insert id spec m)
unfolding insert lookup
insert-Once id spec [] o n = (refl, tt)
insert-Once id spec ((j, s) ∷ m) o n =
    let (a, b) = o in
    ground (
      arith,
      insert-Once id spec m b,
      lookup-insert id j spec m,
      str_eq_iff j id,
      str_eq_iff id j,
      str_eq_refl id,
    )

collect-ok :
    (specs : List BackendSpec) (acc desired : Map BackendSpec)
    → Once acc
    → collect specs acc ≡ ok desired
    → Once desired
      × ((id : Str) → lookup id desired ≡ first_of (lookup id acc) (spec_of id specs))
      × ((id : Str) → occurrences id specs + held (lookup id acc) ≤ 1)
unfolding collect
collect-ok [] acc desired o e =
    let same : acc ≡ desired = ground arith in
    (
      subst Once same o,
      λ id.
          subst (λ m. lookup id m ≡ first_of (lookup id acc) none) same
            (sym (first_of-none (lookup id acc))),
      λ id. omega (arith, held_le (lookup id acc)),
    )
collect-ok (s ∷ specs) acc desired o e = elim (Option-cases (lookup s.id acc)) [
  | inl missing ↦
      let (a, b, c) =
        collect-ok specs (insert s.id s acc) desired (insert-Once s.id s acc o missing)
          (ground arith) in
      (
        a,
        λ id. ground (arith, b id, lookup-insert s.id id s acc, str_eq_iff s.id id),
        λ id. ground (arith, c id, lookup-insert s.id id s acc, str_eq_iff s.id id),
      )
  | inr (earlier, found) ↦ absurd (ground arith)
]

collect-err :
    (specs : List BackendSpec) (acc : Map BackendSpec) (id : Str)
    → collect specs acc ≡ err (duplicate_backend_id id)
    → 2 ≤ occurrences id specs + held (lookup id acc)
unfolding collect
collect-err [] acc id e = ground arith
collect-err (s ∷ specs) acc id e = elim (Option-cases (lookup s.id acc)) [
  | inl missing ↦
      let i = collect-err specs (insert s.id s acc) id (ground arith) in
      ground (arith, i, lookup-insert s.id id s acc, str_eq_iff s.id id)
  | inr (earlier, found) ↦ ground (arith, str_eq_refl id)
]

bind_outcome-ok :
    {S A : Type 0} (o : Outcome S A) (id : Str) {s : S}
    → bind_outcome o (λ a. returned (ok a)) ≢ returned (err (duplicate_backend_id id)) s
bind_outcome-ok (returned a t) id e = ground arith
bind_outcome-ok (panicked t) id e = ground arith

abbrev answer :
    ReconcileReport
    → BackendRegistry
    → Outcome BackendRegistry (Result ReconcileReport ReconcileError)
answer report slots = returned (ok report) slots

-- The loops of a reconciliation that returned a report.
record Ran (specs : List BackendSpec) (slots after : BackendRegistry) : Type 0 where
  desired : Map BackendSpec
  rest : BackendRegistry
  ids : List Str
  before : ReconcileReport
  counted : ReconcileReport
  collected : collect specs [] ≡ ok desired
  retired : retire_absent desired slots ≡ returned ids rest
  admitted : admit_desired desired before rest ≡ returned counted after

reconcile-Ran :
    (specs : List BackendSpec) (slots after : BackendRegistry) (report : ReconcileReport)
    → reconcile specs slots ≡ returned (ok report) after
    → Ran specs slots after
unfolding reconcile apply_desired
reconcile-Ran specs slots after report e = elim (Result-cases (collect specs [])) [
  | inl (desired, c) ↦
      let f : bind_outcome (apply_desired desired slots) answer ≡ returned (ok report) after =
        ground arith in
      let (r, u, g, h) = bind_outcome-returned (apply_desired desired slots) answer f in
      let (ids, rest, k, l) = bind_outcome-returned (retire_absent desired slots) _ g in
      let (q, v, m, n) = bind_outcome-returned (admit_desired desired _ rest) _ l in
      record {
        desired = desired;
        rest = rest;
        ids = ids;
        before = record { added = []; revived = []; updated = []; retired = ids };
        counted = q;
        collected = c;
        retired = k;
        admitted = ground arith;
      }
  | inr (x, c) ↦ absurd (ground arith)
]

abbrev pub spec_at : Option BackendSlot → Option BackendSpec
spec_at none = none
spec_at (some u) = some u.spec

-- After a reconciliation that returns a report, the registered backends are exactly those of the
-- specs it was given, each with that spec, whatever was registered before.
pub reconcile-registered :
    (specs : List BackendSpec) (slots after : BackendRegistry) (report : ReconcileReport) (id : Str)
    → reconcile specs slots ≡ returned (ok report) after
    → spec_at (get id after) ≡ spec_of id specs
unfolding get get_retained lookup
reconcile-registered specs slots after report id e =
    let r = reconcile-Ran specs slots after report e in
    let (o, found, _) = collect-ok specs [] r.desired tt r.collected in
    elim (Option-cases (lookup id r.desired)) [
      | inl missing ↦
          let same =
            admit_desired-other id r.desired r.before r.counted r.rest after r.admitted missing in
          elim (Option-cases (lookup id slots)) [
            | inl n ↦
                let m = retire_absent-none r.desired id slots r.rest r.ids r.retired n in
                ground (arith, found id, same, m)
            | inr (t, n) ↦
                let (u, m, _, q) =
                  retire_absent-some r.desired id slots r.rest r.ids t r.retired n in
                ground (arith, found id, same, m, q missing)
          ]
      | inr (spec, n) ↦
          let (u, m, (p, q, _)) =
            admit_desired-Admitted id r.desired r.before r.counted r.rest after spec o r.admitted
              n in
          ground (arith, found id, m, p, q)
    ]

-- No reconciliation that returns a report loses a slot: it keeps its leases, its lease serial and its
-- count of acquisitions, and a drain in progress keeps its mode and epoch, also when its backend is
-- retired or revived by it.
pub reconcile-Retains :
    (specs : List BackendSpec) (slots after : BackendRegistry) (report : ReconcileReport) (id : Str)
    (t : BackendSlot)
    → reconcile specs slots ≡ returned (ok report) after
    → get_retained id slots ≡ some t
    → (u : BackendSlot) × (get_retained id after ≡ some u) × Retains t u
unfolding get_retained
reconcile-Retains specs slots after report id t e n =
    let r = reconcile-Ran specs slots after report e in
    let (o, _, _) = collect-ok specs [] r.desired tt r.collected in
    let (u, m, k, _) = retire_absent-some r.desired id slots r.rest r.ids t r.retired n in
    elim (Option-cases (lookup id r.desired)) [
      | inl missing ↦ (
        u,
        admit_desired-other id r.desired r.before r.counted r.rest after r.admitted missing ∙ m,
        k,
      )
      | inr (spec, f) ↦
          let (v, g, (_, _, q)) =
            admit_desired-Admitted id r.desired r.before r.counted r.rest after spec o r.admitted
              f in
          (v, g, Retains-trans k (q u m))
    ]

-- A reconciliation is refused exactly if an id occurs twice in the specs, and then it changes nothing.
pub reconcile-duplicate_iff :
    (specs : List BackendSpec) (slots : BackendRegistry)
    → ((id : Str) × (2 ≤ occurrences id specs))
      ↔ ((id : Str) × (reconcile specs slots ≡ returned (err (duplicate_backend_id id)) slots))
unfolding reconcile lookup
reconcile-duplicate_iff specs slots = (
  λ (id, twice). elim (Result-cases (collect specs [])) [
    | inl (desired, c) ↦
        let (_, _, once) = collect-ok specs [] desired tt c in absurd (omega (arith, once id))
    | inr (duplicate_backend_id j, c) ↦ (j, ground arith)
  ],
  λ (id, e). elim (Result-cases (collect specs [])) [
    | inl (desired, c) ↦
        absurd (bind_outcome-ok (apply_desired desired slots) id {s = slots} (ground arith))
    | inr (duplicate_backend_id j, c) ↦ (j, omega (arith, collect-err specs [] j c))
  ],
)
