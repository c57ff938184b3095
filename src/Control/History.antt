-- ===== src/Control/History.antt =====
-- Histories of the control plane (src/control.rs): handlers and tasks, beside requests. A reload is not
-- one of the steps, and neither is a call that panics.
use mistralrs_proxy.Prelude.{◌≡◌, subst, Bool, arith, Str}
use mistralrs_proxy.Prelude.Monad.{returned}
use mistralrs_proxy.Backend.Slot.{Result}
use mistralrs_proxy.Backend.Registry.{
  BackendRegistry, RegistryAcquireError, registry_acquire, get, get_retained,
}
use mistralrs_proxy.State.{FileSystem}
use mistralrs_proxy.Control.{DrainOperation, ControlError, ControlState, Environment, Clock, seen}
use mistralrs_proxy.Control.Drain.{
  DriveState, looking, confirming, sleeping, finished, begin_drain, look, drive,
  resume_persisted_drains,
}
use mistralrs_proxy.Control.Actions.{ActionResponse, activate_backend, disable_backend}
use mistralrs_proxy.Control.Requests.{Request, Requests, Request-IsValid, Requests-IsValid}
use mistralrs_proxy.Control.Kept.{
  IsValid, Unchanged-IsValid, begin_drain-IsValid, disable_backend-IsValid,
  activate_backend-IsValid, look-Unchanged, finish_drain-IsValid, resume_each-Unchanged,
}

module _ {F : Type 0} where
  -- One step.
  pub data Step : ControlState F → ControlState F → Type 0 where
    drains :
        {st after : ControlState F} (env : Environment F) (fs : FileSystem) (clock : Clock)
        (id : Str) (r : Result DrainOperation ControlError)
        → begin_drain env fs clock id st ≡ returned r after
        → Step st after
    activates :
        {st after : ControlState F} (env : Environment F) (fs rollback : FileSystem) (clock : Clock)
        (id : Str) (r : Result ActionResponse ControlError)
        → activate_backend env fs rollback clock id st ≡ returned r after
        → Step st after
    disables :
        {st after : ControlState F} (env : Environment F) (fs : FileSystem) (clock : Clock)
        (id : Str) (force : Bool) (between : ControlState F → ControlState F)
        (r : Result ActionResponse ControlError)
        → Requests (seen env st) (between (seen env st))
        → disable_backend env fs clock id force between st ≡ returned r after
        → Step st after
    drives :
        {st after : ControlState F} (env : Environment F) (fs : FileSystem) (clock : Clock)
        (operation : DrainOperation) (from to : DriveState F)
        → drive env fs clock operation from st ≡ returned to after
        → Step st after
    resumes :
        {st after : ControlState F} (env : Environment F) (clock : Clock)
        → after ≡ resume_persisted_drains env clock st
        → Step st after
    serves : {st after : ControlState F} → Request st after → Step st after

  pub data History : ControlState F → ControlState F → Type 0 where
    here : {st : ControlState F} → History st st
    next_step : {st mid after : ControlState F} → History st mid → Step mid after → History st after

  Step-IsValid : (st after : ControlState F) → Step st after → IsValid st → IsValid after
  unfolding drive resume_persisted_drains
  Step-IsValid st after (drains env fs clock id r e) v =
      begin_drain-IsValid env fs clock id st after r e v
  Step-IsValid st after (activates env fs rollback clock id r e) v =
      activate_backend-IsValid env fs rollback clock id st after r e v
  Step-IsValid st after (disables env fs clock id force between r served e) v =
      disable_backend-IsValid env fs clock id force between st after r e
        (Requests-IsValid (seen env st) (between (seen env st)) served) v
  Step-IsValid st after (drives env fs clock operation looking to e) v =
      let u = look-Unchanged env clock operation st in
      let is : (look env clock operation st).1 ≡ after = ground arith in
      subst IsValid is (Unchanged-IsValid st (look env clock operation st).1 u v)
  Step-IsValid st after (drives env fs clock operation (confirming first) to e) v =
      finish_drain-IsValid env fs clock operation first st after to e v
  Step-IsValid st after (drives env fs clock operation sleeping to e) v =
      let is : st ≡ after = ground arith in subst IsValid is v
  Step-IsValid st after (drives env fs clock operation finished to e) v =
      let is : st ≡ after = ground arith in subst IsValid is v
  Step-IsValid st after (resumes env clock e) v = rw e (
      Unchanged-IsValid st (resume_persisted_drains env clock st)
        (resume_each-Unchanged env clock
          (mistralrs_proxy.Backend.Registry.snapshots clock.instant st.parts.registry) st)
        v)
  Step-IsValid st after (serves request) v = Request-IsValid st after request v

  -- A history that starts where every slot stands under its own id, and slots and fences agree on the
  -- mode of every registered backend, ends in such a state, also if saves failed in it.
  pub History-IsValid : (st after : ControlState F) → History st after → IsValid st → IsValid after
  History-IsValid st _ here v = v
  History-IsValid st after (next_step {mid = mid} h s) v =
      Step-IsValid mid after s (History-IsValid st mid h v)
