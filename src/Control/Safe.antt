-- ===== src/Control/Safe.antt =====
-- The end of a drain (src/control.rs): what a task has seen when it says that a backend may be stopped.
use mistralrs_proxy.Prelude.{
  ℕ, ◌≡◌, refl, ap, subst, ◌∙◌, true, false, Bool, none, some, List, ◌∷◌, arith, Str,
}
use mistralrs_proxy.Prelude.Maps.{lookup}
use mistralrs_proxy.Prelude.Monad.{returned}
use mistralrs_proxy.Routing.{LiveBackend}
use mistralrs_proxy.Routing.Health.{Float, ensure_backends}
use mistralrs_proxy.Routing.Health.Scrapes.{Certifies}
use mistralrs_proxy.Routing.Health.Confirmed.{Scraped, Scraped-idle_twice}
use mistralrs_proxy.Routing.Status.{BackendStatusSnapshot, status_snapshot}
use mistralrs_proxy.Routing.Statuses.{Keyed, status-Reports}
use mistralrs_proxy.State.{FileSystem}
use mistralrs_proxy.Control.{
  DrainOperation, ControlState, Environment, Clock, find_draining, find_operation, status_in,
}
use mistralrs_proxy.Control.Drain.{DriveState, ensure_drain_operation, finish_drain}
use mistralrs_proxy.Control.Changed.{ModesAgree}
use mistralrs_proxy.Control.Idle.{
  SeenIdle, CertifiedIdle, ensure_drain_operation-started, finish_drain-safe,
}

module _ {F : Type 0} where
  status_in-started :
      (env : Environment F) (now : ℕ) (id : Str) (st : ControlState F) (s : BackendStatusSnapshot F)
      (live : LiveBackend F)
      → Keyed st.parts.registry
      → status_in env now id st ≡ some s
      → lookup id (ensure_backends env.generations st.parts.inner).backends ≡ some live
      → s.metrics_scrapes_started ≡ live.metrics_scrapes_started
  unfolding status_snapshot
  status_in-started env now id st s live k known found =
      let r =
        status-Reports env.ops env.configs env.generations env.stale_after env.kv_soft_limit now id
          st.parts s k known in
      let same : r.live ≡ live = ground (arith, r.live_found) in
      ap (λ (t : BackendStatusSnapshot F). t.metrics_scrapes_started) r.reported
      ∙ ap (λ (l : LiveBackend F). l.metrics_scrapes_started) same

module _ (float : Float) where
  open float use {F}

  SeenIdle-idle_twice :
      (n : ℕ) (first live : LiveBackend F) (m : ℕ) (flight : Bool) (rs : List Bool)
      → n ≡ first.metrics_scrapes_started
      → SeenIdle n live
      → Certifies first
      → Scraped float first m flight rs live
      → (older : List Bool) × (rs ≡ true ∷ true ∷ older)
  SeenIdle-idle_twice n first live m flight rs same seen c s =
      Scraped-idle_twice float first live m flight rs c s
        (ground (arith, seen.after_start, seen.observation_is)) seen.idle_twice

  -- Take an operation that was registered for a drain of `id`, at a status that was there, and that is
  -- safe to stop after its task has taken the second half of a round, and was not before; in both states
  -- every slot stands under its own id, and in the second slots and fences agree. The live entry that the
  -- drain began with is as `Certifies` says, and since then scrapes were made one after the other, older
  -- ones completing at any time, and the entry perhaps replaced (`Scraped`). Then, in that round, the
  -- telemetry was fresh and the observation of an idle engine, and of the scrapes that began since the
  -- drain did, the last two to complete both found the engine idle; the slot and the fence are disabled
  -- after the round, and the slot holds no lease (`CertifiedIdle`).
  pub finish_drain-CertifiedIdle :
      (env env_0 : Environment F) (fs : FileSystem) (clock clock_0 : Clock) (id : Str)
      (operation before_op after_op : DrainOperation) (first started : BackendStatusSnapshot F)
      (st_0 begun st after : ControlState F) (next : DriveState F) (live_0 live : LiveBackend F)
      (m : ℕ) (flight : Bool) (rs : List Bool)
      → find_draining id st_0.operations ≡ none
      → Keyed st_0.parts.registry
      → status_in env_0 clock_0.instant id st_0 ≡ some started
      → ensure_drain_operation env_0 clock_0 id st_0 ≡ (operation, begun)
      → lookup id (ensure_backends env_0.generations st_0.parts.inner).backends ≡ some live_0
      → Certifies live_0
      → Scraped float live_0 m flight rs live
      → lookup id (ensure_backends env.generations st.parts.inner).backends ≡ some live
      → Keyed st.parts.registry
      → ModesAgree st
      → find_operation operation.id st.operations ≡ some before_op
      → before_op.progress.safe_to_stop ≡ false
      → finish_drain env fs clock operation first st ≡ returned next after
      → find_operation operation.id after.operations ≡ some after_op
      → after_op.progress.safe_to_stop ≡ true
      → CertifiedIdle env clock.instant id live_0.metrics_scrapes_started st after
        × ((older : List Bool) × (rs ≡ true ∷ true ∷ older))
  finish_drain-CertifiedIdle env env_0 fs clock clock_0 id operation p q first started st_0 begun st
        after next live_0 live m flight rs new k_0 known registered found_0 c scraped found k a was
        unsafe e now_is safe =
      let (own, count) =
        ensure_drain_operation-started env_0 clock_0 id st_0 begun operation started new known
          registered in
      let counted =
        count ∙ status_in-started env_0 clock_0.instant id st_0 started live_0 k_0 known found_0 in
      let sure =
        subst (λ i. CertifiedIdle env clock.instant i live_0.metrics_scrapes_started st after) own
          (subst (λ n. CertifiedIdle env clock.instant operation.backend_id n st after) counted
            (finish_drain-safe env fs clock operation p q first st after next k a was unsafe e
              now_is safe)) in
      let same : sure.live ≡ live = ground (arith, sure.live_found) in
      (
        sure,
        SeenIdle-idle_twice live_0.metrics_scrapes_started live_0 live m flight rs refl
            (subst (SeenIdle live_0.metrics_scrapes_started) same sure.seen_idle) c scraped,
      )
