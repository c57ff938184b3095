-- ===== src/Control/Outcomes.antt =====
-- What an operator is told of a change of mode (src/control.rs): what `disable` and `activate` have done
-- when they report success, and that an error changes nothing.
use mistralrs_proxy.Prelude.{
  ltb, not, ◌&&◌, ◌≡◌, refl, subst, ◌⊎◌, inl, inr, Bool, true, some, [], arith, Bool-cases,
  Option-cases, Str,
}
use mistralrs_proxy.Prelude.Maps.{lookup}
use mistralrs_proxy.Prelude.Monad.{returned}
use mistralrs_proxy.Backend.Slot.{BackendSlot, active, disabled, mode_eq, Result, ok, err}
use mistralrs_proxy.Routing.{ReadinessState, fresh}
use mistralrs_proxy.Routing.Status.{BackendStatusSnapshot}
use mistralrs_proxy.Routing.Statuses.{Keyed}
use mistralrs_proxy.State.{FileSystem}
use mistralrs_proxy.Control.{ControlError, ControlState, Environment, Clock, status_in, seen}
use mistralrs_proxy.Control.Actions.{
  ActionResponse, readiness_is_ready, is_fresh, activate_backend, remove_fence, check_disable,
  disable_backend,
}
use mistralrs_proxy.Control.Changed.{ModesAgree, Changed, Unchanged, Settled}
use mistralrs_proxy.Control.Agrees.{
  status_in-Settled, seen-Settled, close_gate-ActionResult, remove_fence-ActionResult,
}

module _ {F : Type 0} where
  -- What `disable` does to a backend when it reports success; `mid` is what the gate finds.
  abbrev pub Disables : Str → Bool → ControlState F → ControlState F → ControlState F → Type 0
  Disables id force st mid after =
      (Settled id disabled after)
      × ((Settled id disabled st)
          ⊎ ((Changed id disabled mid after)
              × ((force ≡ true)
                  ⊎ ((u : BackendSlot) × (lookup id st.parts.registry ≡ some u)
                      × (u.leases ≡ [])))))

  disable_backend-Disables :
      (env : Environment F) (fs : FileSystem) (clock : Clock) (id : Str) (force : Bool)
      (between : ControlState F → ControlState F) (st after : ControlState F) (o : ActionResponse)
      → Keyed st.parts.registry
      → ModesAgree st
      → disable_backend env fs clock id force between st ≡ returned (ok o) after
      → Disables id force st (between (seen env st)) after
  unfolding disable_backend check_disable
  disable_backend-Disables env fs clock id force between st after o k a e =
      elim (Option-cases (status_in env clock.instant id st)) [
        | inl missing ↦ absurd (ground arith)
        | inr (s, known) ↦
            let (d, counted) = status_in-Settled env clock.instant id st s k a known in
            elim (Bool-cases (mode_eq s.mode disabled)) [
              | inl already ↦
                  let was : s.mode ≡ disabled = ground arith in
                  (
                    seen-Settled env id s.mode disabled st after (ground arith) was d,
                    inl (subst (λ m. Settled id m st) was d),
                  )
              | inr open_now ↦ elim (Bool-cases (not force && ltb 0 s.proxy_active)) [
                | inl busy ↦ absurd (ground arith)
                | inr free ↦
                    elim (close_gate-ActionResult env fs clock id force s.proxy_active
                      (between (seen env st)) after (ok o) (ground arith)) [
                        | inr (x, failed, same) ↦ absurd (ground arith)
                        | inl (p, eq, settled, c) ↦ (
                          settled,
                          inr (
                            c,
                            elim (Bool-cases force) [
                              | inl forced ↦ inl forced
                              | inr waited ↦ inr (d.slot, d.found, ground (arith, counted))
                            ],
                          ),
                        )
                      ]
              ]
            ]
      ]

  -- A backend that reports to be active is, in slot and fence; it was active before, or its status
  -- was disabled, ready and fresh.
  pub activate_backend-ok :
      (env : Environment F) (fs rollback : FileSystem) (clock : Clock) (id : Str)
      (st after : ControlState F) (o : ActionResponse)
      → Keyed st.parts.registry
      → ModesAgree st
      → activate_backend env fs rollback clock id st ≡ returned (ok o) after
      → (Settled id active after)
        × ((Settled id active st)
            ⊎ ((s : BackendStatusSnapshot F) × (status_in env clock.instant id st ≡ some s)
                × (s.mode ≡ disabled)
                × (s.readiness ≡ ReadinessState.ready)
                × (s.telemetry ≡ fresh)))
  unfolding activate_backend
  activate_backend-ok env fs rollback clock id st after o k a e =
      elim (Option-cases (status_in env clock.instant id st)) [
        | inl missing ↦ absurd (ground arith)
        | inr (s, known) ↦
            let (d, counted) = status_in-Settled env clock.instant id st s k a known in
            elim (Bool-cases (mode_eq s.mode active)) [
              | inl already ↦
                  let was : s.mode ≡ active = ground arith in
                  (
                    seen-Settled env id s.mode active st after (ground arith) was d,
                    inl (subst (λ m. Settled id m st) was d),
                  )
              | inr closed ↦
                  let e' : remove_fence env fs rollback clock id (seen env st)
                      ≡ returned (ok o) after =
                    ground arith in
                  elim (remove_fence-ActionResult env fs rollback clock id (seen env st) after
                    (ok o) e') [
                      | inr (x, failed, same) ↦ absurd (ground arith)
                      | inl (p, eq, settled, c) ↦
                          (settled, inr (s, known, ground arith, ground arith, ground arith))
                    ]
            ]
      ]

  -- Disabling a backend that reports an error changes no slot and no fence.
  disable_backend-Unchanged :
      (env : Environment F) (fs : FileSystem) (clock : Clock) (id : Str) (force : Bool)
      (between : ControlState F → ControlState F) (st after : ControlState F) (x : ControlError)
      → disable_backend env fs clock id force between st ≡ returned (err x) after
      → Unchanged st after ⊎ Unchanged (between (seen env st)) after
  unfolding disable_backend check_disable
  disable_backend-Unchanged env fs clock id force between st after x e =
      elim (Option-cases (status_in env clock.instant id st)) [
        | inl missing ↦ inl (record { registry = ground arith; fences = ground arith })
        | inr (s, known) ↦ elim (Bool-cases (mode_eq s.mode disabled)) [
          | inl already ↦ absurd (ground arith)
          | inr open_now ↦ elim (Bool-cases (not force && ltb 0 s.proxy_active)) [
            | inl busy ↦ inl (record { registry = ground arith; fences = ground arith })
            | inr free ↦
                elim (close_gate-ActionResult env fs clock id force s.proxy_active
                  (between (seen env st)) after (err x) (ground arith)) [
                    | inl (o, eq, settled, c) ↦ absurd (ground arith)
                    | inr (y, failed, same) ↦ inr same
                  ]
          ]
        ]
      ]

  -- Activating a backend that reports an error changes no slot and no fence.
  pub activate_backend-err :
      (env : Environment F) (fs rollback : FileSystem) (clock : Clock) (id : Str)
      (st after : ControlState F) (x : ControlError)
      → activate_backend env fs rollback clock id st ≡ returned (err x) after
      → Unchanged st after
  unfolding activate_backend
  activate_backend-err env fs rollback clock id st after x e =
      elim (Option-cases (status_in env clock.instant id st)) [
        | inl missing ↦ record { registry = ground arith; fences = ground arith }
        | inr (s, known) ↦
            elim (Bool-cases (
              mode_eq s.mode disabled
              && (readiness_is_ready s.readiness && is_fresh s.telemetry))) [
                | inr refused ↦ record { registry = ground arith; fences = ground arith }
                | inl may ↦
                    let e' : remove_fence env fs rollback clock id (seen env st)
                        ≡ returned (err x) after =
                      ground arith in
                    elim (remove_fence-ActionResult env fs rollback clock id (seen env st) after
                      (err x) e') [
                        | inl (o, eq, settled, c) ↦ absurd (ground arith)
                        | inr (y, failed, same) ↦ record {
                          registry = same.registry;
                          fences = same.fences;
                        }
                      ]
              ]
      ]

module _ {F : Type 0} where
  -- Disabling a backend, where every slot stands under its own id and slots and fences agree, whatever
  -- other requests do between the check and the closing of the gate (`between`). If it reports success,
  -- the backend is disabled in slot and fence. It was so before, or only its mode was changed of what the
  -- requests had left, and then `force` was given or it held no lease at the check. If it reports an
  -- error, it has itself changed no slot and no fence.
  pub disable_backend_lem :
      (env : Environment F) (fs : FileSystem) (clock : Clock) (id : Str) (force : Bool)
      (between : ControlState F → ControlState F) (st after : ControlState F)
      (r : Result ActionResponse ControlError)
      → Keyed st.parts.registry
      → ModesAgree st
      → disable_backend env fs clock id force between st ≡ returned r after
      → ((o : ActionResponse) × (r ≡ ok o) × Disables id force st (between (seen env st)) after)
        ⊎ ((x : ControlError) × (r ≡ err x)
            × (Unchanged st after ⊎ Unchanged (between (seen env st)) after))
  disable_backend_lem env fs clock id force between st after (ok o) k a e =
      inl (o, refl, disable_backend-Disables env fs clock id force between st after o k a e)
  disable_backend_lem env fs clock id force between st after (err x) k a e =
      inr (x, refl, disable_backend-Unchanged env fs clock id force between st after x e)

  -- Activating a backend, where every slot stands under its own id and slots and fences agree. If it
  -- reports success, the backend is active in both, and it was so before, or its status was disabled,
  -- ready and fresh. If it reports an error, no slot and no fence has changed.
  pub activate_backend_lem :
      (env : Environment F) (fs rollback : FileSystem) (clock : Clock) (id : Str)
      (st after : ControlState F) (r : Result ActionResponse ControlError)
      → Keyed st.parts.registry
      → ModesAgree st
      → activate_backend env fs rollback clock id st ≡ returned r after
      → ((o : ActionResponse) × (r ≡ ok o)
          × (Settled id active after)
          × ((Settled id active st)
              ⊎ ((s : BackendStatusSnapshot F) × (status_in env clock.instant id st ≡ some s)
                  × (s.mode ≡ disabled)
                  × (s.readiness ≡ ReadinessState.ready)
                  × (s.telemetry ≡ fresh))))
        ⊎ ((x : ControlError) × (r ≡ err x) × Unchanged st after)
  activate_backend_lem env fs rollback clock id st after (ok o) k a e =
      let (settled, why) = activate_backend-ok env fs rollback clock id st after o k a e in
      inl (o, refl, settled, why)
  activate_backend_lem env fs rollback clock id st after (err x) k a e =
      inr (x, refl, activate_backend-err env fs rollback clock id st after x e)
