-- ===== src/Control/Agrees.antt =====
-- The durable modes and the modes in memory (src/control.rs, src/backend_state.rs): what activation and
-- disabling do to them.
use mistralrs_proxy.Prelude.{
  ℕ, ltb, ◌&&◌, ◌≡◌, sym, ap, subst, ◌∙◌, ◌⊎◌, inl, inr, Bool, true, some, [], arith, Option-cases,
  if◌then◌else◌, Str, str_eq_refl, length,
}
use mistralrs_proxy.Prelude.Maps.{lookup, lookup-insert}
use mistralrs_proxy.Prelude.Monad.{returned, Outcome-cases}
use mistralrs_proxy.Backend.Slot.{
  BackendSlot, BackendMode, active, disabled, Result, ok, err, activate, disable, snapshot,
}
use mistralrs_proxy.Backend.Slot.Modes.{disable-Moved, activate-Moved}
use mistralrs_proxy.Backend.Registry.{get}
use mistralrs_proxy.Routing.Status.{BackendStatusSnapshot, status_snapshot}
use mistralrs_proxy.Routing.Statuses.{Keyed, status-Reports}
use mistralrs_proxy.State.{FileSystem}
use mistralrs_proxy.State.Durable.{store_mode-cases}
use mistralrs_proxy.Control.{
  ControlError, unknown_backend, disabled_not_persisted, fence_not_removed, ControlState,
  Environment, Clock, status_in, seen,
}
use mistralrs_proxy.Control.Actions.{
  ActionResponse, activated, still_running, backend_disabled, remove_fence, open_gate, close_gate,
}
use mistralrs_proxy.Control.Changed.{
  Agrees, ModesAgree, Changed, Unchanged, Settled, fence-Changed, get-some,
}

abbrev disabled_response : Str → Bool → ℕ → ActionResponse
disabled_response id force n = record {
  backend_id = id;
  mode = disabled;
  message = if force && ltb 0 n then still_running n else backend_disabled;
}

module _ {F : Type 0} where
  pub Changed-Settled :
      (id : Str) (mode : BackendMode) (t : BackendSlot) (before after : ControlState F)
      → Changed id mode before after
      → lookup id before.parts.registry ≡ some t
      → t.registered ≡ true
      → Settled id mode after
  Changed-Settled id mode t before after c found registered =
      let same : c.old ≡ t = ground (arith, c.found) in
      record {
        slot = c.now_is;
        found =
            ap (lookup id) c.registry
            ∙ ground (arith, lookup-insert id id c.now_is before.parts.registry, str_eq_refl id);
        registered =
            c.moved.registered_kept ∙ (ap (λ (s : BackendSlot). s.registered) same ∙ registered);
        mode_is = c.moved.mode_is;
        durable = c.durable;
      }

  -- What `disable` and `activate` do from the lookup of the slot on.
  abbrev pub ActionResult :
      Str
      → BackendMode
      → ControlState F
      → ControlState F
      → Result ActionResponse ControlError
      → Type 0
  ActionResult id mode before after r =
      ((o : ActionResponse) × (r ≡ ok o) × Settled id mode after × Changed id mode before after)
      ⊎ ((x : ControlError) × (r ≡ err x) × Unchanged before after)

  pub close_gate-ActionResult :
      (env : Environment F) (fs : FileSystem) (clock : Clock) (id : Str) (force : Bool) (n : ℕ)
      (st after : ControlState F) (r : Result ActionResponse ControlError)
      → close_gate env fs clock id force n st ≡ returned r after
      → ActionResult id disabled st after r
  unfolding close_gate
  close_gate-ActionResult env fs clock id force n st after r e =
      elim (Option-cases (get id st.parts.registry)) [
        | inl missing ↦ inr (
          unknown_backend id,
          ground arith,
          record { registry = ground arith; fences = ground arith },
        )
        | inr (t, g) ↦
            let (found, registered) = get-some id st.parts.registry t g in
            elim (store_mode-cases env.to_json fs clock.unix_ms id disabled st.store) [
              | inr (x, failed, same) ↦ inr (
                disabled_not_persisted x,
                ground arith,
                record { registry = ground arith; fences = ground arith },
              )
              | inl (saved, fenced) ↦ elim (Outcome-cases (disable clock.instant t)) [
                | inr (u, broken) ↦ absurd (ground arith)
                | inl (s, u, closed) ↦
                    let c =
                      fence-Changed clock.unix_ms id disabled t u st after found
                        (disable-Moved clock.instant t u s closed) (ground arith) (ground arith) in
                    inl (
                      disabled_response id force n,
                      ground arith,
                      Changed-Settled id disabled t st after c found registered,
                      c,
                    )
              ]
            ]
      ]

  pub remove_fence-ActionResult :
      (env : Environment F) (fs rollback : FileSystem) (clock : Clock) (id : Str)
      (st after : ControlState F) (r : Result ActionResponse ControlError)
      → remove_fence env fs rollback clock id st ≡ returned r after
      → ActionResult id active st after r
  unfolding remove_fence open_gate
  remove_fence-ActionResult env fs rollback clock id st after r e =
      elim (Option-cases (get id st.parts.registry)) [
        | inl missing ↦ inr (
          unknown_backend id,
          ground arith,
          record { registry = ground arith; fences = ground arith },
        )
        | inr (t, g) ↦
            let (found, registered) = get-some id st.parts.registry t g in
            elim (store_mode-cases env.to_json fs clock.unix_ms id active st.store) [
              | inr (x, failed, same) ↦ inr (
                fence_not_removed x,
                ground arith,
                record { registry = ground arith; fences = ground arith },
              )
              | inl (saved, fenced) ↦ elim (Outcome-cases (activate clock.instant t)) [
                | inr (u, broken) ↦ absurd (ground arith)
                | inl (opened, u, ran) ↦
                    let (m, (s, done)) = activate-Moved clock.instant t u opened registered ran in
                    let c =
                      fence-Changed clock.unix_ms id active t u st after found m (ground arith)
                        (ground arith) in
                    inl (
                      record { backend_id = id; mode = active; message = activated },
                      ground arith,
                      Changed-Settled id active t st after c found registered,
                      c,
                    )
              ]
            ]
      ]

  -- What the status of a backend says, where the two modes agree.
  pub status_in-Settled :
      (env : Environment F) (now : ℕ) (id : Str) (st : ControlState F) (s : BackendStatusSnapshot F)
      → Keyed st.parts.registry
      → ModesAgree st
      → status_in env now id st ≡ some s
      → (d : Settled id s.mode st) × (s.proxy_active ≡ length d.slot.leases)
  unfolding Agrees status_snapshot snapshot
  status_in-Settled env now id st s k a e =
      let r =
        status-Reports env.ops env.configs env.generations env.stale_after env.kv_soft_limit now id
          st.parts s k e in
      let own : s.mode ≡ r.slot.mode = ap (λ (t : BackendStatusSnapshot F). t.mode) r.reported in
      (
        record {
          slot = r.slot;
          found = r.slot_found;
          registered = r.registered;
          mode_is = sym own;
          durable = sym (a id r.slot r.slot_found r.registered) ∙ sym own;
        },
        ap (λ (t : BackendStatusSnapshot F). t.proxy_active) r.reported,
      )

  -- After `status`, in the same mode.
  pub seen-Settled :
      (env : Environment F) (id : Str) (m n : BackendMode) (st after : ControlState F)
      → seen env st ≡ after
      → m ≡ n
      → Settled id m st
      → Settled id n after
  seen-Settled env id m n st after was same d = subst (Settled id n) was (record {
    slot = d.slot;
    found = d.found;
    registered = d.registered;
    mode_is = d.mode_is ∙ same;
    durable = d.durable ∙ same;
  })

  pub no_leases :
      (id : Str) (mode n : BackendMode) (st after : ControlState F) (d : Settled id n st)
      → length d.slot.leases ≡ 0
      → (c : Changed id mode st after) → c.now_is.leases ≡ []
  no_leases id mode n st after d none_active c =
      let same : c.old ≡ d.slot = ground (arith, c.found, d.found) in
      c.moved.leases_kept ∙ (ap (λ (s : BackendSlot). s.leases) same ∙ ground (arith, none_active))
