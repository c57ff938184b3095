-- ===== src/Backend/Slot/Invariant.antt =====
-- What holds of a slot between two calls (src/backend.rs), also after a call that panicked.
use mistralrs_proxy.Prelude.{
  ℕ, ◌+◌, ◌≤◌, ◌≡◌, refl, ◌≢◌, Bool, true, false, List, [], ◌∷◌, arith, length, u64_max,
}
use mistralrs_proxy.Prelude.Monad.{state_after}
use mistralrs_proxy.Backend.Leases.{
  LeaseKey, Below, Distinct, Below-mono, Below-Fresh, insert-Below, insert-Distinct, length-insert,
  remove-Below, remove-Distinct, length-remove-le,
}
use mistralrs_proxy.Backend.Slot.{
  BackendSpec, BackendMode, active, disabled, BackendSlot, new, try_acquire, grant, set_mode,
  activate, disable, begin_drain, reconcile_present, reconcile_absent, release, Call, try_acquires,
  activates, disables, begin_drains, reconciles_present, reconciles_absent, releases, step, run,
}

pub record IsValid (t : BackendSlot) : Type 0 where
  -- the watch channel shows the sequence of the last change
  pub published : t.changed ≡ t.sequence
  pub in_range : (t.sequence ≤ u64_max) × (t.next_lease_serial ≤ u64_max)
  pub epoch_below : t.mode_epoch ≤ t.sequence
  pub serials_below : Below t.next_lease_serial t.leases
  pub serials_distinct : Distinct t.leases
  pub acquired_below : t.total_acquired ≤ t.next_lease_serial
  pub active_below : length t.leases ≤ t.total_acquired
  -- a retired slot is closed
  pub retired_closed : t.registered ≡ false → t.mode ≢ active

pub new-IsValid : (spec : BackendSpec) (mode : BackendMode) → IsValid (new spec mode)
unfolding new
new-IsValid spec mode = ground arith

try_acquire-IsValid :
    (now : ℕ) (t : BackendSlot) → IsValid t → IsValid (state_after (try_acquire now t))
unfolding try_acquire grant
try_acquire-IsValid now t v =
    let k : LeaseKey = record { started_at = now; serial = t.next_lease_serial } in
    let f = Below-Fresh t.next_lease_serial t.leases v.serials_below in
    ground (
      arith,
      Below-mono {m = t.next_lease_serial} {n = t.next_lease_serial + 1} t.leases,
      insert-Below k (t.next_lease_serial + 1) t.leases,
      insert-Distinct k t.leases f v.serials_distinct,
      length-insert k t.leases f,
    )

set_mode-IsValid :
    (now : ℕ) (mode : BackendMode) (required : Bool) (t : BackendSlot)
    → (mode ≡ active → required ≡ true)
    → IsValid t
    → IsValid (state_after (set_mode now mode required t))
unfolding set_mode
set_mode-IsValid now mode required t h v = ground arith

begin_drain-IsValid : (t : BackendSlot) → IsValid t → IsValid (state_after (begin_drain t))
unfolding begin_drain
begin_drain-IsValid t v = ground arith

reconcile_present-IsValid :
    (spec : BackendSpec) (t : BackendSlot)
    → IsValid t
    → IsValid (state_after (reconcile_present spec t))
unfolding reconcile_present
reconcile_present-IsValid spec t v = ground arith

reconcile_absent-IsValid :
    (t : BackendSlot) → IsValid t → IsValid (state_after (reconcile_absent t))
unfolding reconcile_absent
reconcile_absent-IsValid t v = ground arith

release-IsValid : (k : LeaseKey) (t : BackendSlot) → IsValid t → IsValid (state_after (release k t))
unfolding release
release-IsValid k t v = ground (
  arith,
  remove-Below k t.next_lease_serial t.leases v.serials_below,
  remove-Distinct k t.leases v.serials_distinct,
  length-remove-le k t.leases,
)

-- Every call keeps the slot valid, whether it returns, fails or panics.
pub step-IsValid : (c : Call) (t : BackendSlot) → IsValid t → IsValid (state_after (step c t))
unfolding step activate disable
step-IsValid (try_acquires now) t v = ground (arith, try_acquire-IsValid now t v)
step-IsValid (activates now) t v = ground (arith, set_mode-IsValid now active true t (λ _. refl) v)
step-IsValid (disables now) t v = ground (arith, set_mode-IsValid now disabled false t (λ e. cc) v)
step-IsValid begin_drains t v = ground (arith, begin_drain-IsValid t v)
step-IsValid (reconciles_present spec) t v = ground (arith, reconcile_present-IsValid spec t v)
step-IsValid reconciles_absent t v = ground (arith, reconcile_absent-IsValid t v)
step-IsValid (releases k) t v = release-IsValid k t v

run_from-IsValid : (cs : List Call) (t : BackendSlot) → IsValid t → IsValid (run cs t)
unfolding run
run_from-IsValid [] t v = v
run_from-IsValid (c ∷ cs) t v = run_from-IsValid cs (state_after (step c t)) (step-IsValid c t v)

-- Whatever calls are made of a new slot, in whatever order, and also after calls that panicked: the
-- watch channel shows the slot's sequence, no lease serial is used twice, the leases held are at
-- most the leases ever acquired, and a retired slot is not active.
pub run-IsValid :
    (spec : BackendSpec) (mode : BackendMode) (cs : List Call) → IsValid (run cs (new spec mode))
run-IsValid spec mode cs = run_from-IsValid cs (new spec mode) (new-IsValid spec mode)
