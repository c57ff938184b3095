-- ===== src/Backend/Registry/Reconcile.antt =====
-- The registry after a reconciliation (src/backend.rs).
use mistralrs_proxy.Prelude.{
  ◌≡◌, refl, ◌∙◌, subst, ◌⊎◌, inl, inr, Bool, true, false, Option, none, some, List, [], ◌∷◌, arith,
  Bool-cases, Option-cases, Str, str_eq, str_eq_iff,
}
use mistralrs_proxy.Prelude.Maps.{Map, lookup, insert, lookup-insert}
use mistralrs_proxy.Prelude.Monad.{Outcome, returned, panicked}
use mistralrs_proxy.Backend.Slot.{
  BackendSpec, disabled, BackendSlot, new, reconcile_present, reconcile_absent,
}
use mistralrs_proxy.Backend.Registry.{
  BackendRegistry, ReconcileReport, retire_one, retire_absent, admit_desired, report_present,
}
use mistralrs_proxy.Backend.Registry.Present.{
  Retains, Retains-refl, reconcile_present-Retains, reconcile_absent-Retains,
  reconcile_present-registered, reconcile_absent-registered,
}

Outcome-cases :
    {S A : Type 0} (o : Outcome S A)
    → ((a : A) × (s : S) × (o ≡ returned a s)) ⊎ ((s : S) × (o ≡ panicked s))
Outcome-cases (returned a s) = inl (a, s, refl)
Outcome-cases (panicked s) = inr (s, refl)

retire_one-returned :
    (desired : Map BackendSpec) (id : Str) (t u : BackendSlot) (gone : Bool)
    → retire_one desired id t ≡ returned gone u
    → Retains t u × (lookup id desired ≡ none → u.registered ≡ false)
unfolding retire_one
retire_one-returned desired id t u gone e = elim (Option-cases (lookup id desired)) [
  | inl missing ↦
      let f : reconcile_absent t ≡ returned gone u = ground arith in
      (reconcile_absent-Retains t u gone f, λ _. reconcile_absent-registered t u gone f)
  | inr (spec, found) ↦
      let f : t ≡ u = ground arith in
      (subst (Retains t) f (Retains-refl t), λ missing. absurd (ground arith))
]

retire_absent-returned :
    (desired : Map BackendSpec) (id : Str) (t : BackendSlot) (slots after : BackendRegistry)
    (ids : List Str)
    → retire_absent desired ((id, t) ∷ slots) ≡ returned ids after
    → (gone : Bool) × (u : BackendSlot) × (retire_one desired id t ≡ returned gone u)
      × (js : List Str) × (rest : BackendRegistry) × (retire_absent desired slots
          ≡ returned js rest)
      × (after ≡ (id, u) ∷ rest)
unfolding retire_absent
retire_absent-returned desired id t slots after ids e =
    elim (Outcome-cases (retire_one desired id t)) [
      | inl (gone, u, f) ↦ elim (Outcome-cases (retire_absent desired slots)) [
        | inl (js, rest, g) ↦ (gone, u, f, js, rest, g, ground arith)
        | inr (rest, g) ↦ absurd (ground arith)
      ]
      | inr (u, f) ↦ absurd (ground arith)
    ]

pub retire_absent-none :
    (desired : Map BackendSpec) (id : Str) (slots after : BackendRegistry) (ids : List Str)
    → retire_absent desired slots ≡ returned ids after
    → lookup id slots ≡ none
    → lookup id after ≡ none
unfolding retire_absent lookup
retire_absent-none desired id [] after ids e n = ground arith
retire_absent-none desired id ((j, t) ∷ slots) after ids e n =
    let (gone, u, f, js, rest, g, h) = retire_absent-returned desired j t slots after ids e in
    elim (Bool-cases (str_eq j id)) [
      | inl same ↦ absurd (ground arith)
      | inr other ↦
          let i = retire_absent-none desired id slots rest js g (ground arith) in rw h (rw other i)
    ]

pub retire_absent-some :
    (desired : Map BackendSpec) (id : Str) (slots after : BackendRegistry) (ids : List Str)
    (t : BackendSlot)
    → retire_absent desired slots ≡ returned ids after
    → lookup id slots ≡ some t
    → (u : BackendSlot) × (lookup id after ≡ some u)
      × Retains t u
      × (lookup id desired ≡ none → u.registered ≡ false)
unfolding retire_absent lookup
retire_absent-some desired id [] after ids t e n = absurd (ground arith)
retire_absent-some desired id ((j, s) ∷ slots) after ids t e n =
    let (gone, u, f, js, rest, g, h) = retire_absent-returned desired j s slots after ids e in
    elim (Bool-cases (str_eq j id)) [
      | inl same ↦
          let k : j ≡ id = (str_eq_iff j id).0 same in
          let m : s ≡ t = ground arith in
          let (r, q) = retire_one-returned desired j s u gone f in
          (
            u,
            rw h (rw same refl),
            subst (λ x. Retains x u) m r,
            subst (λ x. lookup x desired ≡ none → u.registered ≡ false) k q,
          )
      | inr other ↦
          let (v, found, r, q) = retire_absent-some desired id slots rest js t g (ground arith) in
          (v, rw h (rw other found), r, q)
    ]

-- Each id once.
abbrev pub Once : Map BackendSpec → Type 0
Once [] = Unit
Once ((id, spec) ∷ desired) = (lookup id desired ≡ none) × Once desired

-- What the second loop makes of the slot that an id has.
abbrev pub Admitted : BackendSpec → Option BackendSlot → BackendSlot → Type 0
Admitted spec before u =
    (u.registered ≡ true) × (u.spec ≡ spec) × ((t : BackendSlot) → before ≡ some t → Retains t u)

admit_desired-returned :
    (id : Str) (spec : BackendSpec) (desired : Map BackendSpec) (report r : ReconcileReport)
    (slots after : BackendRegistry)
    → admit_desired ((id, spec) ∷ desired) report slots ≡ returned r after
    → (u : BackendSlot) × (q : ReconcileReport) × Admitted spec (lookup id slots) u
      × (admit_desired desired q (insert id u slots) ≡ returned r after)
unfolding admit_desired new
admit_desired-returned id spec desired report r slots after e =
    elim (Option-cases (lookup id slots)) [
      | inl missing ↦ (
        new spec disabled,
        record report { added = id ∷ report.added },
        (refl, refl, λ t f. absurd (ground arith)),
        ground arith,
      )
      | inr (t, found) ↦ elim (Outcome-cases (reconcile_present spec t)) [
        | inl (outcome, u, f) ↦
            let (a, b) = reconcile_present-registered spec t u outcome f in
            let k = reconcile_present-Retains spec t u outcome f in
            (
              u,
              report_present id outcome report,
              (a, b, λ s g. subst (λ x. Retains x u) (ground arith) k),
              ground arith,
            )
        | inr (u, f) ↦ absurd (ground arith)
      ]
    ]

pub admit_desired-other :
    (id : Str) (desired : Map BackendSpec) (report r : ReconcileReport)
    (slots after : BackendRegistry)
    → admit_desired desired report slots ≡ returned r after
    → lookup id desired ≡ none
    → lookup id after ≡ lookup id slots
unfolding admit_desired lookup
admit_desired-other id [] report r slots after e n = ground arith
admit_desired-other id ((j, spec) ∷ desired) report r slots after e n =
    let (u, q, a, f) = admit_desired-returned j spec desired report r slots after e in
    let i = admit_desired-other id desired q r (insert j u slots) after f (ground arith) in
    ground (arith, lookup-insert j id u slots)

pub admit_desired-Admitted :
    (id : Str) (desired : Map BackendSpec) (report r : ReconcileReport)
    (slots after : BackendRegistry) (spec : BackendSpec)
    → Once desired
    → admit_desired desired report slots ≡ returned r after
    → lookup id desired ≡ some spec
    → (u : BackendSlot) × (lookup id after ≡ some u) × Admitted spec (lookup id slots) u
unfolding admit_desired lookup
admit_desired-Admitted id [] report r slots after spec o e n = absurd (ground arith)
admit_desired-Admitted id ((j, s) ∷ desired) report r slots after spec (m, o) e n =
    let (u, q, a, f) = admit_desired-returned j s desired report r slots after e in
    elim (Bool-cases (str_eq j id)) [
      | inl same ↦
          let k : j ≡ id = (str_eq_iff j id).0 same in
          let w : s ≡ spec = ground arith in
          let i =
            admit_desired-other id desired q r (insert j u slots) after f
              (subst (λ x. lookup x desired ≡ none) k m) in
          (
            u,
            i ∙ lookup-insert j id u slots ∙ rw same refl,
            subst (λ x. Admitted spec (lookup x slots) u) k
                (subst (λ x. Admitted x (lookup j slots) u) w a),
          )
      | inr other ↦
          let (v, found, b) =
            admit_desired-Admitted id desired q r (insert j u slots) after spec o f
              (ground arith) in
          let l : lookup id (insert j u slots) ≡ lookup id slots =
            lookup-insert j id u slots ∙ rw other refl in
          (v, found, subst (λ x. Admitted spec x v) l b)
    ]
