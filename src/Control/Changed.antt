-- ===== src/Control/Changed.antt =====
-- A change of a mode in a slot and in its fence (src/control.rs, src/backend_state.rs), as `begin_drain`
-- makes it.
use mistralrs_proxy.Prelude.{
  ℕ, ◌≡◌, refl, sym, ap, subst, ◌∙◌, ◌⊎◌, inl, inr, true, false, some, arith, Bool-cases,
  Option-cases, Str, str_eq, str_eq_iff, str_eq_refl,
}
use mistralrs_proxy.Prelude.Maps.{lookup, insert, lookup-insert, insert-insert}
use mistralrs_proxy.Prelude.Monad.{returned, bind_outcome, bind_outcome-returned, Outcome-cases}
use mistralrs_proxy.Backend.Slot.{
  BackendSlot, BackendMode, active, draining, disabled, mode_eq, Result, ok, err, activate, disable,
}
use mistralrs_proxy.Backend.Slot.Modes.{
  Moved, Moved-trans, begin_drain-Moved, disable-Moved, activate-Moved,
}
use mistralrs_proxy.Backend.Registry.{BackendRegistry, get, get_retained}
use mistralrs_proxy.State.{StateFile, FileSystem, fence, durable_mode}
use mistralrs_proxy.State.Durable.{durable_mode-fence, store_mode-cases}
use mistralrs_proxy.Control.{
  DrainOperation, ControlError, drain_not_persisted, ControlState, Environment, Clock,
  find_draining, put_slot, put_store, save_mode, on_slot,
}
use mistralrs_proxy.Control.Drain.{begin_drain, persist_drain, ensure_drain_operation, restore_mode}

unfoldable pub Agrees : BackendRegistry → StateFile → Type 0
Agrees slots state =
    (id : Str) (slot : BackendSlot)
    → lookup id slots ≡ some slot
    → slot.registered ≡ true
    → slot.mode ≡ durable_mode id state

-- A slot written back with the mode that its fence has, where no other fence changed.
pub insert-Agrees :
    (id : Str) (u : BackendSlot) (slots : BackendRegistry) (before after : StateFile)
    → Agrees slots before
    → (u.registered ≡ true → u.mode ≡ durable_mode id after)
    → ((j : Str) → str_eq id j ≡ false → durable_mode j after ≡ durable_mode j before)
    → Agrees (insert id u slots) after
unfolding Agrees
insert-Agrees id u slots before after a own others j slot found registered =
    let e = lookup-insert id j u slots in
    elim (Bool-cases (str_eq id j)) [
      | inl same ↦
          let eq : id ≡ j = (str_eq_iff id j).0 same in
          let is_u : u ≡ slot = ground arith in rw (sym eq) (rw (sym is_u) (own (ground arith)))
      | inr other ↦ a j slot (ground arith) registered ∙ sym (others j other)
    ]

-- The registered slot of an id.
pub get-some :
    (id : Str) (slots : BackendRegistry) (t : BackendSlot)
    → get id slots ≡ some t
    → (lookup id slots ≡ some t) × (t.registered ≡ true)
unfolding get get_retained
get-some id slots t e = elim (Option-cases (lookup id slots)) [
  | inl missing ↦ absurd (ground arith)
  | inr (u, found) ↦ ground arith
]

restore_mode-Moved :
    (now : ℕ) (before : BackendMode) (t u : BackendSlot) (r : Unit {0})
    → t.registered ≡ true
    → restore_mode now before t ≡ returned r u
    → Moved before t u
unfolding restore_mode
restore_mode-Moved now active t u r registered e =
    let (x, v, opened, same) = bind_outcome-returned (activate now t) (λ _. returned tt) e in
    let eq : v ≡ u = ground arith in rw (sym eq) (activate-Moved now t v x registered opened).0
restore_mode-Moved now disabled t u r registered e =
    let (x, v, closed, same) = bind_outcome-returned (disable now t) (λ _. returned tt) e in
    let eq : v ≡ u = ground arith in rw (sym eq) (disable-Moved now t v x closed)
restore_mode-Moved now draining t u r registered e = absurd (ground arith)

-- A mode was changed in slot and fence: the slot of `id` is now in that mode, and so is its fence;
-- no other slot and no other fence changed.
pub record Changed {F : Type 0} (id : Str) (mode : BackendMode) (before after : ControlState F)
    : Type 0 where
  pub old : BackendSlot
  pub now_is : BackendSlot
  pub found : lookup id before.parts.registry ≡ some old
  pub moved : Moved mode old now_is
  pub registry : after.parts.registry ≡ insert id now_is before.parts.registry
  pub durable : durable_mode id after.store.state ≡ mode
  pub others :
      (j : Str)
      → str_eq id j ≡ false
      → durable_mode j after.store.state ≡ durable_mode j before.store.state

module _ {F : Type 0} where
  abbrev pub ModesAgree : ControlState F → Type 0
  ModesAgree st = Agrees st.parts.registry st.store.state

  pub Changed-ModesAgree :
      (id : Str) (mode : BackendMode) (before after : ControlState F)
      → Changed id mode before after
      → ModesAgree before
      → ModesAgree after
  Changed-ModesAgree id mode before after c a = rw c.registry (
      insert-Agrees id c.now_is before.parts.registry before.store.state after.store.state a
        (λ _. c.moved.mode_is ∙ sym c.durable) c.others)

  -- A slot that moved, with its fence set.
  pub fence-Changed :
      (now : ℕ) (id : Str) (mode : BackendMode) (t u : BackendSlot) (before after : ControlState F)
      → lookup id before.parts.registry ≡ some t
      → Moved mode t u
      → after.parts.registry ≡ insert id u before.parts.registry
      → after.store.state ≡ fence now id mode before.store.state
      → Changed id mode before after
  fence-Changed now id mode t u before after found moved registry fenced = record {
    old = t;
    now_is = u;
    found = found;
    moved = moved;
    registry = registry;
    durable =
        ap (durable_mode id) fenced
        ∙ ground (arith, durable_mode-fence now id id mode before.store.state, str_eq_refl id);
    others = λ j other.
        ap (durable_mode j) fenced
        ∙ ground (arith, durable_mode-fence now id j mode before.store.state);
  }

  -- A slot that moved back to the mode that it had, with its fences as they were.
  pub same-Changed :
      (id : Str) (t u : BackendSlot) (before after : ControlState F)
      → ModesAgree before
      → lookup id before.parts.registry ≡ some t
      → t.registered ≡ true
      → Moved t.mode t u
      → after.parts.registry ≡ insert id u before.parts.registry
      → after.store.state ≡ before.store.state
      → Changed id t.mode before after
  unfolding Agrees
  same-Changed id t u before after a found registered moved registry same = record {
    old = t;
    now_is = u;
    found = found;
    moved = moved;
    registry = registry;
    durable = ap (durable_mode id) same ∙ sym (a id t found registered);
    others = λ j other. ap (durable_mode j) same;
  }

  pub ensure_drain_operation_lem :
      (env : Environment F) (clock : Clock) (id : Str) (st : ControlState F)
      → ((ensure_drain_operation env clock id st).1.parts.registry ≡ st.parts.registry)
        × ((ensure_drain_operation env clock id st).1.store ≡ st.store)
  unfolding ensure_drain_operation
  ensure_drain_operation_lem env clock id st =
      elim (Option-cases (find_draining id st.operations)) [
        | inl new ↦ ground arith
        | inr (o, known) ↦ ground arith
      ]

  -- `persist_drain` of a backend that was not draining.
  new_drain-Changed :
      (env : Environment F) (fs : FileSystem) (clock : Clock) (id : Str) (before : BackendMode)
      (st after : ControlState F) (t u : BackendSlot) (r : Result DrainOperation ControlError)
      → ModesAgree st
      → lookup id st.parts.registry ≡ some t
      → t.registered ≡ true
      → before ≡ t.mode
      → mode_eq before draining ≡ false
      → Moved draining t u
      → persist_drain env fs clock id before u (put_slot id u st) ≡ returned r after
      → ((o : DrainOperation) × (r ≡ ok o) × Changed id draining st after)
        ⊎ ((x : ControlError) × (r ≡ err x) × Changed id t.mode st after)
  unfolding persist_drain
  new_drain-Changed env fs clock id before st after t u r a found registered was fresh m e =
      let mid = put_slot id u st in
      elim (store_mode-cases env.to_json fs clock.unix_ms id draining st.store) [
        | inl (saved, fenced) ↦
            let stored = put_store (save_mode env fs clock id draining mid).1 mid in
            let k = ensure_drain_operation_lem env clock id stored in
            inl (
              (ensure_drain_operation env clock id stored).0,
              ground arith,
              fence-Changed clock.unix_ms id draining t u st after found m (ground arith)
                  (ground arith),
            )
        | inr (x, failed, same) ↦
            let stored = put_store (save_mode env fs clock id draining mid).1 mid in
            let e' : bind_outcome (on_slot id (restore_mode clock.instant before u) stored)
                  (λ _. returned (err (drain_not_persisted x)))
                ≡ returned r after =
              ground arith in
            elim (Outcome-cases (restore_mode clock.instant before u)) [
              | inr (v, broken) ↦ absurd (ground arith)
              | inl (y, v, restored) ↦
                  let back =
                    restore_mode-Moved clock.instant before u v y (m.registered_kept ∙ registered)
                      restored in
                  let is : after ≡ put_slot id v stored = ground arith in
                  inr (
                    drain_not_persisted x,
                    ground arith,
                    same-Changed id t v st after a found registered
                        (subst (λ mode. Moved mode t v) was
                          (Moved-trans draining before t u v m back))
                        (ap (λ (s : ControlState F). s.parts.registry) is
                          ∙ insert-insert id v u st.parts.registry)
                        (ap (λ (s : ControlState F). s.store.state) is ∙ same),
                  )
            ]
      ]

  -- `persist_drain` once the slot is draining.
  persist_drain-Changed :
      (env : Environment F) (fs : FileSystem) (clock : Clock) (id : Str) (before : BackendMode)
      (st after : ControlState F) (t u : BackendSlot) (r : Result DrainOperation ControlError)
      → ModesAgree st
      → lookup id st.parts.registry ≡ some t
      → t.registered ≡ true
      → before ≡ t.mode
      → Moved draining t u
      → persist_drain env fs clock id before u (put_slot id u st) ≡ returned r after
      → ((o : DrainOperation) × (r ≡ ok o) × Changed id draining st after)
        ⊎ ((x : ControlError) × (r ≡ err x) × Changed id t.mode st after)
  unfolding persist_drain
  persist_drain-Changed env fs clock id draining st after t u r a found registered was m e =
      let k = ensure_drain_operation_lem env clock id (put_slot id u st) in
      inl (
        (ensure_drain_operation env clock id (put_slot id u st)).0,
        ground arith,
        subst (λ mode. Changed id mode st after) (sym was)
            (same-Changed id t u st after a found registered (subst (λ mode. Moved mode t u) was m)
              (ground arith) (ground arith)),
      )
  persist_drain-Changed env fs clock id active st after t u r a found registered was m e =
      new_drain-Changed env fs clock id active st after t u r a found registered was refl m e
  persist_drain-Changed env fs clock id disabled st after t u r a found registered was m e =
      new_drain-Changed env fs clock id disabled st after t u r a found registered was refl m e

  -- `begin_drain` of a registered backend, where slots and fences agree: once it returns, the slot and the
  -- fence are draining, or it reports an error and both have the old mode; nothing of any other backend
  -- has changed.
  pub begin_drain-Changed :
      (env : Environment F) (fs : FileSystem) (clock : Clock) (id : Str) (st after : ControlState F)
      (t : BackendSlot) (r : Result DrainOperation ControlError)
      → ModesAgree st
      → get id st.parts.registry ≡ some t
      → begin_drain env fs clock id st ≡ returned r after
      → ((o : DrainOperation) × (r ≡ ok o) × Changed id draining st after)
        ⊎ ((x : ControlError) × (r ≡ err x) × Changed id t.mode st after)
  unfolding begin_drain
  begin_drain-Changed env fs clock id st after t r a g e =
      let (found, registered) = get-some id st.parts.registry t g in
      elim (Outcome-cases (mistralrs_proxy.Backend.Slot.begin_drain t)) [
        | inr (u, failed) ↦ absurd (ground arith)
        | inl (token, u, opened) ↦
            persist_drain-Changed env fs clock id t.mode st after t u r a found registered refl
              (begin_drain-Moved t u token opened) (ground arith)
      ]

-- Nothing that these handlers decide has changed.
pub record Unchanged {F : Type 0} (before after : ControlState F) : Type 0 where
  pub registry : after.parts.registry ≡ before.parts.registry
  pub fences : after.store.state ≡ before.store.state

-- A backend is registered and in that mode, in its slot and its fence.
pub record Settled {F : Type 0} (id : Str) (mode : BackendMode) (st : ControlState F) : Type 0 where
  pub slot : BackendSlot
  pub found : lookup id st.parts.registry ≡ some slot
  pub registered : slot.registered ≡ true
  pub mode_is : slot.mode ≡ mode
  pub durable : durable_mode id st.store.state ≡ mode
