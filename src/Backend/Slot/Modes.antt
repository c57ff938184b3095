-- ===== src/Backend/Slot/Modes.antt =====
-- What a change of the mode of a slot keeps (src/backend.rs).
use mistralrs_proxy.Prelude.{ℕ, ◌≡◌, ◌∙◌, true, arith}
use mistralrs_proxy.Prelude.Monad.{returned}
use mistralrs_proxy.Backend.Slot.{
  BackendSlot, BackendSnapshot, BackendMode, active, draining, disabled, DrainToken,
  ModeChangeError, Result, ok, activate, disable, begin_drain, BackendLease, AcquireError,
  try_acquire, grant, drop_lease, release,
}

-- The slot `u` is `t` in that mode, up to its epoch and sequence.
pub record Moved (mode : BackendMode) (t u : BackendSlot) : Type 0 where
  pub mode_is : u.mode ≡ mode
  pub spec_kept : u.spec ≡ t.spec
  pub registered_kept : u.registered ≡ t.registered
  pub leases_kept : u.leases ≡ t.leases

pub begin_drain-Moved :
    (t u : BackendSlot) (token : DrainToken) → begin_drain t ≡ returned token u → Moved draining t u
unfolding begin_drain
begin_drain-Moved t u token e = ground arith

pub disable-Moved :
    (now : ℕ) (t u : BackendSlot) (s : BackendSnapshot)
    → disable now t ≡ returned s u
    → Moved disabled t u
unfolding disable
disable-Moved now t u s e = ground arith

pub activate-Moved :
    (now : ℕ) (t u : BackendSlot) (r : Result BackendSnapshot ModeChangeError)
    → t.registered ≡ true
    → activate now t ≡ returned r u
    → (Moved active t u) × ((s : BackendSnapshot) × (r ≡ ok s))
unfolding activate
activate-Moved now t u r h e = ground arith

pub Moved-trans :
    (m n : BackendMode) (t u v : BackendSlot) → Moved m t u → Moved n u v → Moved n t v
Moved-trans m n t u v a b = record {
  mode_is = b.mode_is;
  spec_kept = b.spec_kept ∙ a.spec_kept;
  registered_kept = b.registered_kept ∙ a.registered_kept;
  leases_kept = b.leases_kept ∙ a.leases_kept;
}

-- A slot that serves requests.
pub record SameMode (t u : BackendSlot) : Type 0 where
  pub mode_kept : u.mode ≡ t.mode
  pub spec_kept : u.spec ≡ t.spec
  pub registered_kept : u.registered ≡ t.registered

pub try_acquire-SameMode :
    (now : ℕ) (t u : BackendSlot) (r : Result BackendLease AcquireError)
    → try_acquire now t ≡ returned r u
    → SameMode t u
unfolding try_acquire grant
try_acquire-SameMode now t u r e = ground arith

pub drop_lease-SameMode :
    (lease : BackendLease) (t u : BackendSlot) (dropped : BackendLease)
    → drop_lease lease t ≡ returned dropped u
    → SameMode t u
unfolding drop_lease release
drop_lease-SameMode lease t u dropped e = ground arith
