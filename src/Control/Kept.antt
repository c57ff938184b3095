-- ===== src/Control/Kept.antt =====
-- What each handler and task of the control plane (src/control.rs) keeps: every slot under its own id,
-- and agreement of slots and fences.
use mistralrs_proxy.Prelude.{
  ℕ, ◌==◌, ltb, not, ◌&&◌, ◌≡◌, refl, sym, ap, subst, ◌∙◌, inl, inr, Bool, false, none, some, List,
  [], ◌∷◌, arith, Bool-cases, Option-cases, Str, str_eq, str_eq_iff,
}
use mistralrs_proxy.Prelude.Maps.{lookup, insert, lookup-insert}
use mistralrs_proxy.Prelude.Monad.{returned, Outcome-cases}
use mistralrs_proxy.Backend.Slot.{
  BackendSlot, BackendSnapshot, BackendMode, BackendLease, active, draining, disabled, mode_eq,
  Result, ok, err, try_acquire, drop_lease,
}
use mistralrs_proxy.Backend.Slot.Modes.{SameMode, try_acquire-SameMode}
use mistralrs_proxy.Backend.Registry.{
  BackendRegistry, RegistryAcquireError, registry_acquire, get, get_retained,
}
use mistralrs_proxy.Routing.Status.{BackendStatusSnapshot}
use mistralrs_proxy.Routing.Statuses.{Keyed}
use mistralrs_proxy.State.{FileSystem, StateFile, durable_mode}
use mistralrs_proxy.State.Durable.{store_mode-cases}
use mistralrs_proxy.Control.{
  DrainOperation, ControlError, ControlState, Environment, Clock, put_slot, put_store, save_mode,
  status_in, seen, engine_idle,
}
use mistralrs_proxy.Control.Drain.{
  DriveState, begin_drain, look, finish_drain, resume_each, disable_registered, complete_drain,
  ensure_drain_operation,
}
use mistralrs_proxy.Control.Actions.{
  ActionResponse, activate_backend, check_disable, disable_backend, readiness_is_ready, is_fresh,
}
use mistralrs_proxy.Control.Changed.{
  Agrees, ModesAgree, Changed, Unchanged, insert-Agrees, Changed-ModesAgree, begin_drain-Changed,
  ensure_drain_operation_lem,
}
use mistralrs_proxy.Control.Agrees.{
  status_in-Settled, close_gate-ActionResult, remove_fence-ActionResult,
}
use mistralrs_proxy.Control.Idle.{disable_registered-Changed, Settled-get}

lookup-absent :
    (id j : Str) (u : BackendSlot) (slots : BackendRegistry)
    → str_eq id j ≡ false
    → lookup j slots ≡ none
    → lookup j (insert id u slots) ≡ none
lookup-absent id j u slots other new = ground (arith, lookup-insert id j u slots)

-- A slot written back where it stands.
pub insert-Keyed :
    (id : Str) (t u : BackendSlot) (slots : BackendRegistry)
    → lookup id slots ≡ some t
    → u.spec.id ≡ t.spec.id
    → Keyed slots
    → Keyed (insert id u slots)
unfolding lookup insert
insert-Keyed id t u [] found same k = absurd (ground arith)
insert-Keyed id t u ((j, v) ∷ slots) found same (own, new, k) = elim (Bool-cases (str_eq j id)) [
  | inl here ↦
      let e : insert id u ((j, v) ∷ slots) ≡ (j, u) ∷ slots = ground arith in
      rw e (same ∙ (ground arith ∙ own), new, k)
  | inr there ↦
      let e : insert id u ((j, v) ∷ slots) ≡ (j, v) ∷ insert id u slots = ground arith in
      rw e (
        own,
        lookup-absent id j u slots (ground (arith, str_eq_iff id j, str_eq_iff j id)) new,
        insert-Keyed id t u slots (ground arith) same k,
      )
]

module _ {F : Type 0} where
  abbrev pub IsValid : ControlState F → Type 0
  IsValid st = Keyed st.parts.registry × ModesAgree st

  pub Unchanged-IsValid :
      (st after : ControlState F) → Unchanged st after → IsValid st → IsValid after
  Unchanged-IsValid st after same (k, a) = (rw same.registry k, rw same.registry (rw same.fences a))

  pub Changed-IsValid :
      (id : Str) (mode : BackendMode) (st after : ControlState F)
      → Changed id mode st after
      → IsValid st
      → IsValid after
  Changed-IsValid id mode st after c (k, a) = (
    rw c.registry (
        insert-Keyed id c.old c.now_is st.parts.registry c.found
          (ap (λ (s : mistralrs_proxy.Backend.Slot.BackendSpec). s.id) c.moved.spec_kept) k),
    Changed-ModesAgree id mode st after c a,
  )

  unknown-same :
      (env : Environment F) (fs : FileSystem) (clock : Clock) (id : Str) (st after : ControlState F)
      (r : Result DrainOperation ControlError)
      → get id st.parts.registry ≡ none
      → begin_drain env fs clock id st ≡ returned r after
      → st ≡ after
  unfolding begin_drain
  unknown-same env fs clock id st after r missing e = ground arith

  pub begin_drain-IsValid :
      (env : Environment F) (fs : FileSystem) (clock : Clock) (id : Str) (st after : ControlState F)
      (r : Result DrainOperation ControlError)
      → begin_drain env fs clock id st ≡ returned r after
      → IsValid st
      → IsValid after
  begin_drain-IsValid env fs clock id st after r e (k, a) =
      elim (Option-cases (get id st.parts.registry)) [
        | inl missing ↦ subst IsValid (unknown-same env fs clock id st after r missing e) (k, a)
        | inr (t, g) ↦ elim (begin_drain-Changed env fs clock id st after t r a g e) [
          | inl (o, eq, c) ↦ Changed-IsValid id draining st after c (k, a)
          | inr (x, eq, c) ↦ Changed-IsValid id t.mode st after c (k, a)
        ]
      ]

  pub disable_backend-IsValid :
      (env : Environment F) (fs : FileSystem) (clock : Clock) (id : Str) (force : Bool)
      (between : ControlState F → ControlState F) (st after : ControlState F)
      (r : Result ActionResponse ControlError)
      → disable_backend env fs clock id force between st ≡ returned r after
      → (IsValid (seen env st) → IsValid (between (seen env st)))
      → IsValid st
      → IsValid after
  unfolding disable_backend check_disable
  disable_backend-IsValid env fs clock id force between st after r e kept v =
      elim (Option-cases (status_in env clock.instant id st)) [
        | inl missing ↦
            Unchanged-IsValid st after (record { registry = ground arith; fences = ground arith }) v
        | inr (s, known) ↦ elim (Bool-cases (mode_eq s.mode disabled)) [
          | inl already ↦
              Unchanged-IsValid st after (record { registry = ground arith; fences = ground arith })
                v
          | inr open_now ↦ elim (Bool-cases (not force && ltb 0 s.proxy_active)) [
            | inl busy ↦
                Unchanged-IsValid st after
                  (record { registry = ground arith; fences = ground arith }) v
            | inr free ↦
                elim (close_gate-ActionResult env fs clock id force s.proxy_active
                  (between (seen env st)) after r (ground arith)) [
                    | inl (o, eq, settled, c) ↦
                        Changed-IsValid id disabled (between (seen env st)) after c (kept v)
                    | inr (y, failed, same) ↦
                        Unchanged-IsValid (between (seen env st)) after same (kept v)
                  ]
          ]
        ]
      ]

  pub activate_backend-IsValid :
      (env : Environment F) (fs rollback : FileSystem) (clock : Clock) (id : Str)
      (st after : ControlState F) (r : Result ActionResponse ControlError)
      → activate_backend env fs rollback clock id st ≡ returned r after
      → IsValid st
      → IsValid after
  unfolding activate_backend
  activate_backend-IsValid env fs rollback clock id st after r e v =
      elim (Option-cases (status_in env clock.instant id st)) [
        | inl missing ↦
            Unchanged-IsValid st after (record { registry = ground arith; fences = ground arith }) v
        | inr (s, known) ↦
            elim (Bool-cases (
              mode_eq s.mode disabled
              && (readiness_is_ready s.readiness && is_fresh s.telemetry))) [
                | inr refused ↦
                    Unchanged-IsValid st after
                      (record { registry = ground arith; fences = ground arith }) v
                | inl may ↦
                    elim (remove_fence-ActionResult env fs rollback clock id (seen env st) after r
                      (ground arith)) [
                        | inl (o, eq, settled, c) ↦
                            Changed-IsValid id active (seen env st) after c v
                        | inr (y, failed, same) ↦ Unchanged-IsValid (seen env st) after same v
                      ]
              ]
      ]

  pub look-Unchanged :
      (env : Environment F) (clock : Clock) (operation : DrainOperation) (st : ControlState F)
      → Unchanged st (look env clock operation st).1
  unfolding look
  look-Unchanged env clock operation st =
      elim (Option-cases (status_in env clock.instant operation.backend_id st)) [
        | inl missing ↦ record { registry = ground arith; fences = ground arith }
        | inr (s, known) ↦ record { registry = ground arith; fences = ground arith }
      ]

  pub finish_drain-IsValid :
      (env : Environment F) (fs : FileSystem) (clock : Clock) (operation : DrainOperation)
      (first : BackendStatusSnapshot F) (st after : ControlState F) (next : DriveState F)
      → finish_drain env fs clock operation first st ≡ returned next after
      → IsValid st
      → IsValid after
  unfolding finish_drain complete_drain
  finish_drain-IsValid env fs clock operation first st after next e (k, a) =
      elim (Option-cases (status_in env clock.instant operation.backend_id st)) [
        | inl missing ↦
            Unchanged-IsValid st after (record { registry = ground arith; fences = ground arith })
              (k, a)
        | inr (s, known) ↦
            elim (Bool-cases
              (mode_eq s.mode draining && (s.proxy_active == 0 && engine_idle operation s))) [
                | inr busy ↦
                    Unchanged-IsValid st after
                      (record { registry = ground arith; fences = ground arith }) (k, a)
                | inl idle ↦
                    elim (store_mode-cases env.to_json fs clock.unix_ms operation.backend_id
                      disabled st.store) [
                        | inr (x, failed, same) ↦
                            Unchanged-IsValid st after
                              (record { registry = ground arith; fences = ground arith }) (k, a)
                        | inl (saved, fenced) ↦
                            let mid =
                              put_store (save_mode env fs clock operation.backend_id disabled st).1
                                (seen env st) in
                            let (d, counted) =
                              status_in-Settled env clock.instant operation.backend_id st s k a
                                known in
                            elim (Outcome-cases
                              (disable_registered clock.instant operation.backend_id mid)) [
                                | inr (u, broken) ↦ absurd (ground arith)
                                | inl (r, u, closed) ↦
                                    let c =
                                      disable_registered-Changed clock.instant operation.backend_id
                                        clock.unix_ms st mid u d.slot r
                                        (Settled-get operation.backend_id s.mode st d) refl fenced
                                        closed in
                                    Unchanged-IsValid u after
                                      (record { registry = ground arith; fences = ground arith })
                                      (Changed-IsValid operation.backend_id disabled st u c (k, a))
                              ]
                      ]
              ]
      ]

  pub resume_each-Unchanged :
      (env : Environment F) (clock : Clock) (ss : List BackendSnapshot) (st : ControlState F)
      → Unchanged st (resume_each env clock ss st)
  unfolding resume_each
  resume_each-Unchanged env clock [] st = record { registry = refl; fences = refl }
  resume_each-Unchanged env clock (s ∷ ss) st =
      let one = (ensure_drain_operation env clock s.spec.id st).1 in
      let (same_registry, same_store) = ensure_drain_operation_lem env clock s.spec.id st in
      elim (Bool-cases (mode_eq s.mode draining)) [
        | inl resumed ↦
            let rest = resume_each-Unchanged env clock ss one in
            let e : resume_each env clock (s ∷ ss) st ≡ resume_each env clock ss one =
              ground arith in
            rw e (record {
              registry = rest.registry ∙ same_registry;
              fences =
                  rest.fences
                  ∙ ap (λ (t : mistralrs_proxy.State.BackendStateStore). t.state) same_store;
            })
        | inr skipped ↦
            let e : resume_each env clock (s ∷ ss) st ≡ resume_each env clock ss st =
              ground arith in
            rw e (resume_each-Unchanged env clock ss st)
      ]

  -- A slot written back in the same mode.
  pub put_slot-IsValid :
      (id : Str) (t u : BackendSlot) (st : ControlState F)
      → lookup id st.parts.registry ≡ some t
      → SameMode t u
      → IsValid st
      → IsValid (put_slot id u st)
  unfolding Agrees
  put_slot-IsValid id t u st found same (k, a) = (
    insert-Keyed id t u st.parts.registry found
        (ap (λ (s : mistralrs_proxy.Backend.Slot.BackendSpec). s.id) same.spec_kept) k,
    insert-Agrees id u st.parts.registry st.store.state st.store.state a
        (λ registered. same.mode_kept ∙ a id t found (sym same.registered_kept ∙ registered))
        (λ j other. refl),
  )

  pub registry_acquire-IsValid :
      (now : ℕ) (id : Str) (slots : BackendRegistry) (r : Result BackendLease RegistryAcquireError)
      (st : ControlState F)
      → registry_acquire now id st.parts.registry ≡ returned r slots
      → IsValid st
      → IsValid (record st { parts = record st.parts { registry = slots } })
  unfolding registry_acquire get_retained
  registry_acquire-IsValid now id slots r st e v =
      elim (Option-cases (lookup id st.parts.registry)) [
        | inl missing ↦
            let same : st.parts.registry ≡ slots = ground arith in
            Unchanged-IsValid st (record st { parts = record st.parts { registry = slots } })
              (record { registry = sym same; fences = refl }) v
        | inr (t, found) ↦ elim (Outcome-cases (try_acquire now t)) [
          | inr (u, broken) ↦ absurd (ground arith)
          | inl (x, u, granted) ↦
              let same : insert id u st.parts.registry ≡ slots = ground arith in
              Unchanged-IsValid (put_slot id u st)
                (record st { parts = record st.parts { registry = slots } })
                (record { registry = sym same; fences = refl })
                (put_slot-IsValid id t u st found (try_acquire-SameMode now t u x granted) v)
        ]
      ]
