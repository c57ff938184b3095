-- ===== src/Control/Requests.antt =====
-- What goes on beside the handlers of the control plane (src/control.rs): requests take and release
-- leases, and the live map of the router may change at any time.
use mistralrs_proxy.Prelude.{ℕ, ◌≡◌, some, Str}
use mistralrs_proxy.Prelude.Maps.{lookup}
use mistralrs_proxy.Prelude.Monad.{returned}
use mistralrs_proxy.Backend.Slot.{BackendSlot, BackendLease, Result, drop_lease}
use mistralrs_proxy.Backend.Slot.Modes.{drop_lease-SameMode}
use mistralrs_proxy.Backend.Registry.{BackendRegistry, RegistryAcquireError, registry_acquire}
use mistralrs_proxy.Routing.Health.{RoutingInner}
use mistralrs_proxy.Control.{ControlState, put_slot}
use mistralrs_proxy.Control.Kept.{IsValid, put_slot-IsValid, registry_acquire-IsValid}

module _ {F : Type 0} where
  pub data Request : ControlState F → ControlState F → Type 0 where
    acquires :
        {st after : ControlState F} (now : ℕ) (id : Str) (slots : BackendRegistry)
        (r : Result BackendLease RegistryAcquireError)
        → registry_acquire now id st.parts.registry ≡ returned r slots
        → after ≡ record st { parts = record st.parts { registry = slots } }
        → Request st after
    releases :
        {st after : ControlState F} (id : Str) (slot u : BackendSlot) (lease dropped : BackendLease)
        → lookup id st.parts.registry ≡ some slot
        → drop_lease lease slot ≡ returned dropped u
        → after ≡ put_slot id u st
        → Request st after
    observes :
        {st after : ControlState F} (inner : RoutingInner F)
        → after ≡ record st { parts = record st.parts { inner = inner } }
        → Request st after

  pub data Requests : ControlState F → ControlState F → Type 0 where
    idle : {st : ControlState F} → Requests st st
    next_request :
        {st mid after : ControlState F} → Requests st mid → Request mid after → Requests st after

  pub Request-IsValid : (st after : ControlState F) → Request st after → IsValid st → IsValid after
  Request-IsValid st after (acquires now id slots r e f) v =
      rw f (registry_acquire-IsValid now id slots r st e v)
  Request-IsValid st after (releases id slot u lease dropped found e f) v =
      rw f (put_slot-IsValid id slot u st found (drop_lease-SameMode lease slot u dropped e) v)
  Request-IsValid st after (observes inner f) v = rw f v

  pub Requests-IsValid :
      (st after : ControlState F) → Requests st after → IsValid st → IsValid after
  Requests-IsValid st _ idle v = v
  Requests-IsValid st after (next_request {mid = mid} before request) v =
      Request-IsValid mid after request (Requests-IsValid st mid before v)
