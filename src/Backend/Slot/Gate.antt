-- ===== src/Backend/Slot/Gate.antt =====
-- The acquisition gate of a slot (src/backend.rs): who gets a lease, and what a lease is worth.
use mistralrs_proxy.Prelude.{
  ℕ, ◌+◌, ◌<◌, ◌≡◌, refl, ◌≢◌, ◌↔◌, ◌⊎◌, true, false, none, some, arith, length, u64_max,
}
use mistralrs_proxy.Prelude.Monad.{returned, panicked}
use mistralrs_proxy.Backend.Leases.{
  LeaseKey, insert, Below-Fresh, remove-insert, has-insert, not-has_of_Fresh, length-insert,
}
use mistralrs_proxy.Backend.Slot.{
  BackendSpec, BackendMode, active, BackendSlot, BackendLease, AcquireError, not_active, ok, err,
  try_acquire, grant, with_mode, release, drop_lease,
}
use mistralrs_proxy.Backend.Slot.Invariant.{IsValid}

-- The three counters that an acquisition bumps have room for one more.
abbrev pub HasRoom : BackendSlot → Type 0
HasRoom t = (t.sequence < u64_max) × (t.next_lease_serial < u64_max) × (t.total_acquired < u64_max)

-- The key and the slot that a granted call leaves.
abbrev lease_key : ℕ → BackendSlot → LeaseKey
lease_key now t = record { started_at = now; serial = t.next_lease_serial }

abbrev granted_slot : ℕ → BackendSlot → BackendSlot
granted_slot now t = record {
  state = record t.state {
    sequence = t.sequence + 1;
    next_lease_serial = t.next_lease_serial + 1;
    total_acquired = t.total_acquired + 1;
    leases = insert (lease_key now t) t.leases;
  };
  changed = t.sequence + 1;
}

grant-granted :
    (now : ℕ) (spec : BackendSpec) (t : BackendSlot)
    → HasRoom t
    → grant now spec t
      ≡ returned (ok (record { key = some (lease_key now t); spec = spec })) (granted_slot now t)
unfolding grant
grant-granted now spec t h = ground arith

try_acquire-granted :
    (now : ℕ) (t : BackendSlot)
    → HasRoom t
    → t.registered ≡ true
    → t.mode ≡ active
    → try_acquire now t
      ≡ returned (ok (record { key = some (lease_key now t); spec = t.spec })) (granted_slot now t)
unfolding try_acquire
try_acquire-granted now t h r m = ground (arith, grant-granted now t.spec t h)

-- While no counter is exhausted, `try_acquire` grants a lease exactly if the slot is registered and
-- active; the lease captures the current specification.
pub try_acquire-granted_iff :
    (now : ℕ) (t : BackendSlot)
    → HasRoom t
    → ((t.registered ≡ true) × (t.mode ≡ active)) ↔ (
        (l : BackendLease) × (u : BackendSlot) × (try_acquire now t ≡ returned (ok l) u)
        × (l.spec ≡ t.spec))
unfolding try_acquire
try_acquire-granted_iff now t h = (
  (λ (r, m). (
    record { key = some (lease_key now t); spec = t.spec },
    granted_slot now t,
    try_acquire-granted now t h r m,
    refl,
  )),
  (λ (l, u, e, _). ground arith),
)

-- A refused call leaves the slot as it was, and names what refused it.
pub try_acquire-refused :
    (now : ℕ) (t u : BackendSlot) (e : AcquireError)
    → try_acquire now t ≡ returned (err e) u
    → (u ≡ t)
      × (((t.registered ≡ false) × (e ≡ AcquireError.retired t.spec.id))
          ⊎ ((t.registered ≡ true) × (t.mode ≢ active) × (e ≡ not_active t.spec.id t.mode)))
unfolding try_acquire grant
try_acquire-refused now t u e h = ground arith

try_acquire-inversion :
    (now : ℕ) (t u : BackendSlot) (l : BackendLease)
    → try_acquire now t ≡ returned (ok l) u
    → (u ≡ granted_slot now t) × (l ≡ record { key = some (lease_key now t); spec = t.spec })
unfolding try_acquire grant
try_acquire-inversion now t u l e = ground arith

-- The slot after the drop of a granted lease.
abbrev dropped_slot : BackendSlot → BackendSlot → BackendSlot
dropped_slot t u = record {
  state = record u.state { sequence = u.sequence + 1; leases = t.leases };
  changed = u.sequence + 1;
}

release-granted :
    (now : ℕ) (t u : BackendSlot)
    → IsValid t
    → u.leases ≡ insert (lease_key now t) t.leases
    → u.sequence < u64_max
    → release (lease_key now t) u ≡ returned tt (dropped_slot t u)
unfolding release
release-granted now t u v e room = ground (
  arith,
  has-insert (lease_key now t) t.leases,
  remove-insert (lease_key now t) t.leases
      (Below-Fresh t.next_lease_serial t.leases v.serials_below),
)

release-twice :
    (now : ℕ) (t u : BackendSlot)
    → IsValid t
    → release (lease_key now t) (dropped_slot t u) ≡ panicked (dropped_slot t u)
unfolding release
release-twice now t u v = ground (
  arith,
  not-has_of_Fresh (lease_key now t) t.leases
      (Below-Fresh t.next_lease_serial t.leases v.serials_below),
)

-- A granted lease is counted, and its drop gives back exactly the leases held before, whatever mode
-- the slot was given in between. Dropping what the drop left releases nothing, and releasing the
-- same key again panics and leaves the slot as it was.
pub drop_lease-try_acquire :
    (now : ℕ) (t u : BackendSlot) (l : BackendLease) (mode : BackendMode)
    → IsValid t
    → try_acquire now t ≡ returned (ok l) u
    → u.sequence < u64_max
    → (length u.leases ≡ length t.leases + 1)
      × (u.total_acquired ≡ t.total_acquired + 1)
      × ((w : BackendSlot) × (k : LeaseKey) × (l.key ≡ some k)
          × (drop_lease l (with_mode mode u) ≡ returned (record l { key = none }) w)
          × (w.leases ≡ t.leases)
          × (w.mode ≡ mode)
          × (drop_lease (record l { key = none }) w ≡ returned (record l { key = none }) w)
          × (release k w ≡ panicked w))
unfolding drop_lease
drop_lease-try_acquire now t u l mode v e room =
    let (p, q) = try_acquire-inversion now t u l e in
    let f = Below-Fresh t.next_lease_serial t.leases v.serials_below in
    let m = with_mode mode u in
    (
      ground (arith, length-insert (lease_key now t) t.leases f),
      ground arith,
      (
        dropped_slot t m,
        lease_key now t,
        ground arith,
        ground (arith, release-granted now t m v (ground arith) room),
        refl,
        refl,
        refl,
        release-twice now t m v,
      ),
    )
