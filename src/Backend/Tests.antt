-- ===== src/Backend/Tests.antt =====
-- Runs of one slot, and the theorems at concrete slots.
use mistralrs_proxy.Prelude.{
  List, ◌+◌, ◌<◌, ◌≡◌, refl, ◌≢◌, ◌↔◌, ◌⊎◌, true, false, none, some, [], ◌∷◌, map, arith, length,
}
use mistralrs_proxy.Prelude.Monad.{returned, panicked}
use mistralrs_proxy.Backend.Leases.{LeaseKey, insert, has, remove}
use mistralrs_proxy.Backend.Slot.{
  Call, BackendSpec, active, draining, BackendSlot, BackendLease, DrainToken, ok, with_mode, new,
  snapshot, try_acquire, grant, begin_drain, wait_round, release, drop_lease, try_acquires,
  begin_drains, reconciles_absent, releases, step, run, run_clean,
}
use mistralrs_proxy.Backend.Slot.Invariant.{IsValid, run-IsValid}
use mistralrs_proxy.Backend.Slot.Gate.{try_acquire-granted_iff, drop_lease-try_acquire}
use mistralrs_proxy.Backend.Slot.Ends.{ended, attempted, released}
use mistralrs_proxy.Backend.Slot.Drain.{wait_round-certifies, begin_drain-completes}
use mistralrs_proxy.Prelude.{Str, ◌≤◌}
use mistralrs_proxy.Prelude.Maps.{lookup, insert as map_insert}
use mistralrs_proxy.Backend.Slot.{disabled, err, reconcile_present}
use mistralrs_proxy.Backend.Registry.{
  BackendRegistry, ReconcileReport, duplicate_backend_id, get_retained, get, sort, collect,
  retire_one, retire_absent, admit_desired, apply_desired, reconcile,
}
use mistralrs_proxy.Backend.Registry.Present.{Retains}
use mistralrs_proxy.Backend.Registry.Desired.{
  spec_at, spec_of, occurrences, reconcile-registered, reconcile-Retains, reconcile-duplicate_iff,
}

abbrev spec_a : BackendSpec
spec_a = record { id = b'a' ∷ []; endpoint = b'h' ∷ [] }

abbrev key_5 : LeaseKey
key_5 = record { started_at = 5; serial = 0 }

abbrev fresh_slot : BackendSlot
fresh_slot = record {
  state = record {
    spec = spec_a;
    registered = true;
    mode = active;
    mode_epoch = 0;
    sequence = 0;
    spec_revision = 0;
    next_lease_serial = 0;
    total_acquired = 0;
    leases = [];
  };
  changed = 0;
}

-- After one acquisition at instant 5.
abbrev held_slot : BackendSlot
held_slot = record {
  state = record fresh_slot.state {
    sequence = 1;
    next_lease_serial = 1;
    total_acquired = 1;
    leases = key_5 ∷ [];
  };
  changed = 1;
}

-- And after a drain began.
abbrev draining_slot : BackendSlot
draining_slot = record {
  state = record held_slot.state { mode = draining; mode_epoch = 1; sequence = 2 };
  changed = 2;
}

abbrev token_1 : DrainToken
token_1 = record { backend_id = b'a' ∷ []; mode_epoch = 1 }

abbrev lease_5 : BackendLease
lease_5 = record { key = some key_5; spec = spec_a }

fresh_slot-IsValid : IsValid fresh_slot
fresh_slot-IsValid = ground arith

history : run (try_acquires 5 ∷ begin_drains ∷ []) (new spec_a active) ≡ draining_slot
unfolding run step try_acquire grant begin_drain new insert
history = refl

run-IsValid_example :
    IsValid (run (try_acquires 5 ∷ begin_drains ∷ reconciles_absent ∷ []) (new spec_a active))
run-IsValid_example =
    run-IsValid spec_a active (try_acquires 5 ∷ begin_drains ∷ reconciles_absent ∷ [])

try_acquire-granted_iff_example : ((fresh_slot.registered ≡ true) × (fresh_slot.mode ≡ active)) ↔ (
    (l : BackendLease) × (u : BackendSlot) × (try_acquire 5 fresh_slot ≡ returned (ok l) u)
    × (l.spec ≡ spec_a))
try_acquire-granted_iff_example = try_acquire-granted_iff 5 fresh_slot (omega arith)

drop_lease-try_acquire_example :
    (length held_slot.leases ≡ length fresh_slot.leases + 1)
    × (held_slot.total_acquired ≡ fresh_slot.total_acquired + 1)
    × ((w : BackendSlot) × (k : LeaseKey) × (lease_5.key ≡ some k)
        × (drop_lease lease_5 (with_mode draining held_slot)
            ≡ returned (record lease_5 { key = none }) w)
        × (w.leases ≡ [])
        × (w.mode ≡ draining)
        × (drop_lease (record lease_5 { key = none }) w
            ≡ returned (record lease_5 { key = none }) w)
        × (release k w ≡ panicked w))
unfolding try_acquire grant insert
drop_lease-try_acquire_example =
    drop_lease-try_acquire 5 fresh_slot held_slot lease_5 draining fresh_slot-IsValid refl
      (omega arith)

-- The lease is released while the drain runs.
abbrev drained_slot : BackendSlot
drained_slot = record {
  state = record draining_slot.state { sequence = 3; leases = [] };
  changed = 3;
}

wait_round-certifies_example :
    (snapshot 9 drained_slot.state ≡ snapshot 9 drained_slot.state)
    × (drained_slot.leases ≡ [])
    × (drained_slot.mode ≡ draining)
    × (drained_slot.total_acquired ≡ draining_slot.total_acquired)
unfolding begin_drain run_clean step release has remove try_acquire wait_round snapshot
wait_round-certifies_example =
    wait_round-certifies (try_acquires 6 ∷ releases key_5 ∷ []) 9 held_slot draining_slot
      drained_slot token_1 (snapshot 9 drained_slot.state) refl refl refl

abbrev active_again : BackendSlot
active_again = record {
  state = record draining_slot.state { mode = active; mode_epoch = 2; sequence = 3 };
  changed = 3;
}

-- Two leases, of which the later one is released first.
abbrev key_6 : LeaseKey
key_6 = record { started_at = 6; serial = 1 }

abbrev twice_held_slot : BackendSlot
twice_held_slot = record held_slot {
  state = record held_slot.state { leases = key_5 ∷ key_6 ∷ []; next_lease_serial = 2 };
}

abbrev twice_draining_slot : BackendSlot
twice_draining_slot = record draining_slot {
  state = record draining_slot.state { leases = key_5 ∷ key_6 ∷ []; next_lease_serial = 2 };
}

abbrev later_first : List Call
later_first = releases key_6 ∷ try_acquires 8 ∷ releases key_5 ∷ []

begin_drain-completes_example :
    (w : BackendSlot) × (run_clean later_first twice_draining_slot ≡ returned tt w)
    × (w.total_acquired ≡ twice_draining_slot.total_acquired)
    × (wait_round token_1 (snapshot 9 w.state) ≡ some (ok (snapshot 9 w.state)))
unfolding begin_drain
begin_drain-completes_example =
    begin_drain-completes 9 twice_held_slot twice_draining_slot token_1 later_first refl
      (released key_6 (key_5 ∷ []) [] refl (attempted 8 (released key_5 [] [] refl ended)))
      (((λ e. omega arith), tt), (tt, tt)) (omega arith)

-- The registry with the slot that drains, reconciled to two specs, one of them new.
abbrev spec_b : BackendSpec
spec_b = record { id = b'b' ∷ []; endpoint = b'i' ∷ [] }

abbrev drained_registry : BackendRegistry
drained_registry = (b'a' ∷ [], drained_slot) ∷ []

abbrev reconciled_registry : BackendRegistry
reconciled_registry = (b'a' ∷ [], drained_slot) ∷ (b'b' ∷ [], new spec_b disabled) ∷ []

abbrev added_report : ReconcileReport
added_report = record { added = (b'b' ∷ []) ∷ []; revived = []; updated = []; retired = [] }

reconciled :
    reconcile (spec_a ∷ spec_b ∷ []) drained_registry
    ≡ returned (ok added_report) reconciled_registry
unfolding reconcile collect apply_desired retire_absent retire_one admit_desired sort lookup
    map_insert new reconcile_present mistralrs_proxy.Prelude.str_eq
reconciled = refl

reconcile-registered_example :
    spec_at (get (b'b' ∷ []) reconciled_registry) ≡ spec_of (b'b' ∷ []) (spec_a ∷ spec_b ∷ [])
reconcile-registered_example =
    reconcile-registered (spec_a ∷ spec_b ∷ []) drained_registry reconciled_registry added_report
      (b'b' ∷ []) reconciled

retained : get_retained (b'a' ∷ []) drained_registry ≡ some drained_slot
unfolding get_retained lookup mistralrs_proxy.Prelude.str_eq
retained = refl

reconcile-Retains_example :
    (u : BackendSlot) × (get_retained (b'a' ∷ []) reconciled_registry ≡ some u)
    × Retains drained_slot u
reconcile-Retains_example =
    reconcile-Retains (spec_a ∷ spec_b ∷ []) drained_registry reconciled_registry added_report
      (b'a' ∷ []) drained_slot reconciled retained

reconcile-duplicate_iff_example : ((id : Str) × (2 ≤ occurrences id (spec_a ∷ spec_a ∷ []))) ↔ (
    (id : Str) × (reconcile (spec_a ∷ spec_a ∷ []) drained_registry
      ≡ returned (err (duplicate_backend_id id)) drained_registry))
reconcile-duplicate_iff_example = reconcile-duplicate_iff (spec_a ∷ spec_a ∷ []) drained_registry
