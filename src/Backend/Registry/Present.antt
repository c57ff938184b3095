-- ===== src/Backend/Registry/Present.antt =====
-- What reconciliation does to one slot (src/backend.rs).
use mistralrs_proxy.Prelude.{◌≡◌, refl, Bool, true, false, arith, str_eq_iff}
use mistralrs_proxy.Prelude.Monad.{returned}
use mistralrs_proxy.Backend.Slot.{
  BackendSpec, draining, BackendSlot, ReconciledSlot, reconcile_present, reconcile_absent,
}

-- What every reconciliation of a slot keeps: its leases, its counters, and a drain in progress.
pub record Retains (t u : BackendSlot) : Type 0 where
  pub leases_kept : u.leases ≡ t.leases
  pub serial_kept : u.next_lease_serial ≡ t.next_lease_serial
  pub total_kept : u.total_acquired ≡ t.total_acquired
  pub drain_kept : t.mode ≡ draining → (u.mode ≡ draining) × (u.mode_epoch ≡ t.mode_epoch)

pub Retains-refl : (t : BackendSlot) → Retains t t
Retains-refl t = record {
  leases_kept = refl;
  serial_kept = refl;
  total_kept = refl;
  drain_kept = λ d. (d, refl);
}

pub Retains-trans : {s t u : BackendSlot} → Retains s t → Retains t u → Retains s u
Retains-trans p q = record {
  leases_kept = ground (arith, p.leases_kept, q.leases_kept);
  serial_kept = ground (arith, p.serial_kept, q.serial_kept);
  total_kept = ground (arith, p.total_kept, q.total_kept);
  drain_kept = λ d. let (m, e) = p.drain_kept d in let (n, f) = q.drain_kept m in (n, ground arith);
}

pub reconcile_present-Retains :
    (spec : BackendSpec) (t u : BackendSlot) (r : ReconciledSlot)
    → reconcile_present spec t ≡ returned r u
    → Retains t u
unfolding reconcile_present
reconcile_present-Retains spec t u r e = record {
  leases_kept = ground arith;
  serial_kept = ground arith;
  total_kept = ground arith;
  drain_kept = ground arith;
}

pub reconcile_absent-Retains :
    (t u : BackendSlot) (r : Bool) → reconcile_absent t ≡ returned r u → Retains t u
unfolding reconcile_absent
reconcile_absent-Retains t u r e = record {
  leases_kept = ground arith;
  serial_kept = ground arith;
  total_kept = ground arith;
  drain_kept = ground arith;
}

pub reconcile_present-registered :
    (spec : BackendSpec) (t u : BackendSlot) (r : ReconciledSlot)
    → reconcile_present spec t ≡ returned r u
    → (u.registered ≡ true) × (u.spec ≡ spec)
unfolding reconcile_present
reconcile_present-registered spec t u r e = (
  ground arith,
  ground (arith, str_eq_iff t.spec.id spec.id, str_eq_iff t.spec.endpoint spec.endpoint),
)

pub reconcile_absent-registered :
    (t u : BackendSlot) (r : Bool) → reconcile_absent t ≡ returned r u → u.registered ≡ false
unfolding reconcile_absent
reconcile_absent-registered t u r e = ground arith
