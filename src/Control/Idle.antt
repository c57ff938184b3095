-- ===== src/Control/Idle.antt =====
-- The last round of a drain (src/control.rs): what its task reads, and what it does then.
use mistralrs_proxy.Prelude.{
  ℕ, ◌+◌, ◌≤◌, ◌==◌, ◌&&◌, ◌≡◌, refl, ap, subst, ◌∙◌, inl, inr, true, false, none, some, List, [],
  ◌∷◌, arith, Bool-cases, Option-cases, Str, str_eq_refl,
}
use mistralrs_proxy.Prelude.Maps.{lookup, lookup-insert}
use mistralrs_proxy.Prelude.Monad.{returned, Outcome-cases}
use mistralrs_proxy.Backend.Slot.{
  BackendSnapshot, snapshot, BackendSlot, BackendMode, draining, disabled, mode_eq, disable,
}
use mistralrs_proxy.Backend.Slot.Modes.{disable-Moved}
use mistralrs_proxy.Backend.Registry.{get, get_retained}
use mistralrs_proxy.Routing.{MetricsObservation, LiveBackend, fresh}
use mistralrs_proxy.Routing.Health.{ensure_backends}
use mistralrs_proxy.Routing.Pressure.{BackendConfig}
use mistralrs_proxy.Routing.Status.{BackendStatusSnapshot, status_snapshot}
use mistralrs_proxy.Routing.Statuses.{Keyed, status-Reports}
use mistralrs_proxy.State.{StateError, FileSystem, BackendStateStore, durable_mode}
use mistralrs_proxy.State.Durable.{store_mode-cases}
use mistralrs_proxy.Control.{
  find_draining, DrainPhase, DrainOperation, DrainProgress, ControlState, Environment, Clock,
  send_replace, find_operation, not_persisted, put_store, save_mode, status_in, seen, engine_idle,
  progress_from_status,
}
use mistralrs_proxy.Control.Drain.{
  new_operation, ensure_drain_operation, DriveState, finish_drain, disable_registered,
  complete_drain,
}
use mistralrs_proxy.Control.Changed.{ModesAgree, Changed, Settled, fence-Changed, get-some}
use mistralrs_proxy.Control.Agrees.{status_in-Settled, no_leases}

find_operation-send_replace :
    (id : ℕ) (progress : DrainProgress) (os : List DrainOperation) (o : DrainOperation)
    → find_operation id (send_replace id progress os) ≡ some o
    → o.progress ≡ progress
unfolding find_operation send_replace
find_operation-send_replace id progress [] o e = absurd (ground arith)
find_operation-send_replace id progress (p ∷ ps) o e =
    let rest = find_operation-send_replace id progress ps o in
    elim (Bool-cases (p.id == id)) [ inl same ↦ ground arith | inr other ↦ rest (ground arith) ]

-- The live entry of a backend shows an idle engine: its observation is of a scrape that is at least the
-- second to begin after `started` had, and it ends a streak of at least two idle scrapes.
pub record SeenIdle {F : Type 0} (started : ℕ) (live : LiveBackend F) : Type 0 where
  pub observation : MetricsObservation F
  pub observation_is : live.metrics ≡ some observation
  pub none_running : observation.metrics.sequences_running ≡ 0
  pub none_waiting : observation.metrics.sequences_waiting ≡ 0
  pub after_start : started + 2 ≤ observation.scrape_serial
  pub idle_twice : 2 ≤ live.engine_idle_streak

-- What was seen of a backend when its drain completed, of which `started` scrapes had begun when the
-- drain did: the last status under the lifecycle lock, in `before`, was fresh and of an idle engine
-- (`SeenIdle`); then, in `after`, the slot is disabled, as is its fence, and holds no lease.
pub record CertifiedIdle {F : Type 0} (env : Environment F) (now : ℕ) (id : Str) (started : ℕ)
    (before after : ControlState F) : Type 0 where
  pub confirmed : BackendStatusSnapshot F
  pub confirmed_is : status_in env now id before ≡ some confirmed
  pub is_fresh : confirmed.telemetry ≡ fresh
  pub live : LiveBackend F
  pub live_found :
      lookup id (ensure_backends env.generations before.parts.inner).backends ≡ some live
  pub seen_idle : SeenIdle started live
  pub settled : Settled id disabled after
  pub no_lease : settled.slot.leases ≡ []

module _ {F : Type 0} where
  pub disable_registered-Changed :
      (now : ℕ) (id : Str) (unix_ms : ℕ) (st mid after : ControlState F) (t : BackendSlot)
      (r : Unit {0})
      → get id st.parts.registry ≡ some t
      → mid.parts.registry ≡ st.parts.registry
      → mid.store.state ≡ mistralrs_proxy.State.fence unix_ms id disabled st.store.state
      → disable_registered now id mid ≡ returned r after
      → Changed id disabled st after
  unfolding disable_registered
  disable_registered-Changed now id unix_ms st mid after t r g same fenced e =
      let (found, registered) = get-some id st.parts.registry t g in
      let g' : get id mid.parts.registry ≡ some t = ap (get id) same ∙ g in
      elim (Outcome-cases (disable now t)) [
        | inr (u, broken) ↦ absurd (ground arith)
        | inl (s, u, closed) ↦
            fence-Changed unix_ms id disabled t u st after found (disable-Moved now t u s closed)
              (ground arith) (ground arith)
      ]

  pub Settled-get :
      (id : Str) (mode : BackendMode) (st : ControlState F) (d : Settled id mode st)
      → get id st.parts.registry ≡ some d.slot
  unfolding get get_retained
  Settled-get id mode st d = ground (arith, d.found, d.registered)

  status_in-SeenIdle :
      (operation : DrainOperation) (s : BackendStatusSnapshot F) (sn : BackendSnapshot)
      (live : LiveBackend F) (env : Environment F) (config : BackendConfig) (now : ℕ)
      → s ≡ status_snapshot env.ops sn live config now env.stale_after env.kv_soft_limit
      → engine_idle operation s ≡ true
      → SeenIdle operation.metrics_scrapes_started_at_start live
  unfolding status_snapshot engine_idle
  status_in-SeenIdle operation s sn live env config now e idle = elim (Option-cases live.metrics) [
    | inl missing ↦ absurd (ground arith)
    | inr (o, is) ↦ record {
      observation = o;
      observation_is = is;
      none_running = ground arith;
      none_waiting = ground arith;
      after_start = ground arith;
      idle_twice = ground arith;
    }
  ]

  -- The operation that is registered for a drain has the count of scrapes of the status then.
  pub ensure_drain_operation-started :
      (env : Environment F) (clock : Clock) (id : Str) (st after : ControlState F)
      (operation : DrainOperation) (s : BackendStatusSnapshot F)
      → find_draining id st.operations ≡ none
      → status_in env clock.instant id st ≡ some s
      → ensure_drain_operation env clock id st ≡ (operation, after)
      → (operation.backend_id ≡ id)
        × (operation.metrics_scrapes_started_at_start ≡ s.metrics_scrapes_started)
  unfolding ensure_drain_operation new_operation
  ensure_drain_operation-started env clock id st after operation s new known e =
      (ground arith, ground arith)

  -- The branch in which the fence was saved.
  completed-CertifiedIdle :
      (env : Environment F) (fs : FileSystem) (clock : Clock) (operation : DrainOperation)
      (st mid after : ControlState F) (s : BackendStatusSnapshot F) (r : Unit {0})
      → Keyed st.parts.registry
      → ModesAgree st
      → status_in env clock.instant operation.backend_id st ≡ some s
      → s.proxy_active ≡ 0
      → engine_idle operation s ≡ true
      → mid.parts.registry ≡ st.parts.registry
      → mid.store.state
        ≡ mistralrs_proxy.State.fence clock.unix_ms operation.backend_id disabled st.store.state
      → disable_registered clock.instant operation.backend_id mid ≡ returned r after
      → CertifiedIdle env clock.instant operation.backend_id
          operation.metrics_scrapes_started_at_start st
          (complete_drain env clock operation s after)
  unfolding complete_drain engine_idle
  completed-CertifiedIdle env fs clock operation st mid after s r k a known quiet idle same fenced
        e =
      let id = operation.backend_id in
      let (d, counted) = status_in-Settled env clock.instant id st s k a known in
      let shown =
        status-Reports env.ops env.configs env.generations env.stale_after env.kv_soft_limit
          clock.instant id st.parts s k known in
      let c =
        disable_registered-Changed clock.instant id clock.unix_ms st mid after d.slot r
          (Settled-get id s.mode st d) same fenced e in
      record {
        confirmed = s;
        confirmed_is = known;
        is_fresh = ground arith;
        live = shown.live;
        live_found = shown.live_found;
        seen_idle =
            status_in-SeenIdle operation s (snapshot clock.instant shown.slot.state) shown.live env
              shown.config clock.instant shown.reported idle;
        settled = record {
          slot = c.now_is;
          found =
              ap (lookup id) c.registry
              ∙ ground (arith, lookup-insert id id c.now_is st.parts.registry, str_eq_refl id);
          registered = c.moved.registered_kept ∙ ground (arith, c.found, d.found, d.registered);
          mode_is = c.moved.mode_is;
          durable = c.durable;
        };
        no_lease = no_leases id disabled s.mode st after d (ground (arith, counted)) c;
      }

  -- The second half of a round that makes an operation safe to stop.
  pub finish_drain-safe :
      (env : Environment F) (fs : FileSystem) (clock : Clock)
      (operation before_op after_op : DrainOperation) (first : BackendStatusSnapshot F)
      (st after : ControlState F) (next : DriveState F)
      → Keyed st.parts.registry
      → ModesAgree st
      → find_operation operation.id st.operations ≡ some before_op
      → before_op.progress.safe_to_stop ≡ false
      → finish_drain env fs clock operation first st ≡ returned next after
      → find_operation operation.id after.operations ≡ some after_op
      → after_op.progress.safe_to_stop ≡ true
      → CertifiedIdle env clock.instant operation.backend_id
          operation.metrics_scrapes_started_at_start st after
  unfolding finish_drain progress_from_status
  finish_drain-safe env fs clock operation p q first st after next k a was unsafe e now_is safe =
      elim (Option-cases (status_in env clock.instant operation.backend_id st)) [
        | inl missing ↦ absurd (ground arith)
        | inr (s, known) ↦
            elim (Bool-cases
              (mode_eq s.mode draining && (s.proxy_active == 0 && engine_idle operation s))) [
                | inr busy ↦ absurd (ground arith)
                | inl idle ↦
                    elim (store_mode-cases env.to_json fs clock.unix_ms operation.backend_id
                      disabled st.store) [
                        | inr (x, failed, same) ↦
                            let sent =
                              find_operation-send_replace operation.id
                                (progress_from_status clock.instant operation first
                                  DrainPhase.failed false (some (not_persisted x)))
                                st.operations q in
                            absurd (ground arith)
                        | inl (saved, fenced) ↦
                            let mid =
                              put_store (save_mode env fs clock operation.backend_id disabled st).1
                                (seen env st) in
                            elim (Outcome-cases
                              (disable_registered clock.instant operation.backend_id mid)) [
                                | inr (u, broken) ↦ absurd (ground arith)
                                | inl (r, u, closed) ↦
                                    let is : complete_drain env clock operation s u ≡ after =
                                      ground arith in
                                    subst
                                      (CertifiedIdle env clock.instant operation.backend_id
                                        operation.metrics_scrapes_started_at_start st)
                                      is
                                      (completed-CertifiedIdle env fs clock operation st mid u s r k
                                        a known (ground arith) (ground arith) refl fenced closed)
                              ]
                      ]
              ]
      ]
