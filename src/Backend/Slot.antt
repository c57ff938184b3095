-- ===== src/Backend/Slot.antt =====
-- One backend slot (src/backend.rs): the state behind its mutex, the sequence number that its watch
-- channel last published, and its operations. Each holds the mutex throughout, so it is one step on
-- the slot. A failed `expect` or `assert!` is a panic at that point.
pub mod Invariant
pub mod Gate
pub mod Ends
pub mod Drain
pub mod Modes
use mistralrs_proxy.Prelude.{
  ℕ, ◌-◌, ◌≡◌, refl, ◌⊎◌, inl, inr, Bool, true, false, not, ◌&&◌, ◌||◌, Option, none, some, List,
  [], ◌∷◌, ◌==◌, if◌then◌else◌, length, Str, str_eq, checked_increment,
}
use mistralrs_proxy.Prelude.Monad.{returned, panicked, Method, ◌>>=◌, ◌>>◌, bind_outcome, pure}
use mistralrs_proxy.Backend.Leases.{LeaseKey, insert, has, remove}

pub record BackendSpec : Type 0 where
  pub id : Str
  pub endpoint : Str

pub data BackendMode : Type 0 where
  active draining disabled : BackendMode

abbrev pub mode_eq : BackendMode → BackendMode → Bool
mode_eq active active = true
mode_eq draining draining = true
mode_eq disabled disabled = true
mode_eq _ _ = false

abbrev pub spec_eq : BackendSpec → BackendSpec → Bool
spec_eq a b = str_eq a.id b.id && str_eq a.endpoint b.endpoint

pub record SlotState : Type 0 where
  pub spec : BackendSpec
  pub registered : Bool
  pub mode : BackendMode
  pub mode_epoch : ℕ
  pub sequence : ℕ
  pub spec_revision : ℕ
  pub next_lease_serial : ℕ
  pub total_acquired : ℕ
  pub leases : List LeaseKey

-- `changed` is the value of the watch channel.
pub record BackendSlot : Type 0 where
  pub state : SlotState
  pub open state use *
  pub changed : ℕ

pub record BackendSnapshot : Type 0 where
  pub spec : BackendSpec
  pub registered : Bool
  pub mode : BackendMode
  pub mode_epoch : ℕ
  pub sequence : ℕ
  pub spec_revision : ℕ
  pub total_acquired : ℕ
  pub local_active : ℕ
  pub oldest_active_age : Option ℕ

pub record DrainToken : Type 0 where
  pub backend_id : Str
  pub mode_epoch : ℕ

pub data AcquireError : Type 0 where
  retired : Str → AcquireError
  not_active : Str → BackendMode → AcquireError

-- `ModeChangeError` of the source has the one variant `Retired`.
pub data ModeChangeError : Type 0 where
  retired : Str → ModeChangeError

pub data DrainWaitError : Type 0 where
  wrong_backend : Str → Str → DrainWaitError
  superseded : Str → ℕ → ℕ → BackendMode → DrainWaitError

pub data Result {ℓ κ} (A : Type ℓ) (E : Type κ) : Type (ℓ ⊔ κ) where
  ok : A → Result A E
  err : E → Result A E

pub Result-cases {ℓ κ} :
    {A : Type ℓ} {E : Type κ} (r : Result A E) → ((a : A) × (r ≡ ok a)) ⊎ ((e : E) × (r ≡ err e))
Result-cases (ok a) = inl (a, refl)
Result-cases (err e) = inr (e, refl)

-- What a lease holds beside its slot: the key, present until the drop, and the captured spec.
pub record BackendLease : Type 0 where
  pub key : Option LeaseKey
  pub spec : BackendSpec

pub record ReconciledSlot : Type 0 where
  pub revived : Bool
  pub updated : Bool

abbrev oldest_age : ℕ → List LeaseKey → Option ℕ
oldest_age now [] = none
oldest_age now (k ∷ ks) = some (now - k.started_at)

unfoldable pub snapshot : ℕ → SlotState → BackendSnapshot
snapshot now s = record {
  spec = s.spec;
  registered = s.registered;
  mode = s.mode;
  mode_epoch = s.mode_epoch;
  sequence = s.sequence;
  spec_revision = s.spec_revision;
  total_acquired = s.total_acquired;
  local_active = length s.leases;
  oldest_active_age = oldest_age now s.leases;
}

unfoldable pub locally_drained : BackendSnapshot → Bool
locally_drained s = mode_eq s.mode draining && s.local_active == 0

unfoldable pub new : BackendSpec → BackendMode → BackendSlot
new spec mode = record {
  state = record {
    spec = spec;
    registered = true;
    mode = mode;
    mode_epoch = 0;
    sequence = 0;
    spec_revision = 0;
    next_lease_serial = 0;
    total_acquired = 0;
    leases = [];
  };
  changed = 0;
}

-- `next_sequence` and the `send_replace` under the same lock.
unfoldable pub publish_locked : Method BackendSlot (Unit {0})
publish_locked t = elim (checked_increment t.sequence) [
  | none ↦ panicked t
  | some n ↦ returned tt (record { state = record t.state { sequence = n }; changed = n })
]

unfoldable pub next_mode_epoch : Method BackendSlot (Unit {0})
next_mode_epoch t = elim (checked_increment t.mode_epoch) [
  | none ↦ panicked t
  | some n ↦ returned tt (record t { state = record t.state { mode_epoch = n } })
]

abbrev pub with_mode : BackendMode → BackendSlot → BackendSlot
with_mode mode t = record t { state = record t.state { mode = mode } }

-- The counters of `try_acquire`, in the order in which they are bumped.
next_serial : Method BackendSlot ℕ
next_serial t = elim (checked_increment t.next_lease_serial) [
  | none ↦ panicked t
  | some n ↦
      returned t.next_lease_serial (record t { state = record t.state { next_lease_serial = n } })
]

count_acquired : Method BackendSlot (Unit {0})
count_acquired t = elim (checked_increment t.total_acquired) [
  | none ↦ panicked t
  | some n ↦ returned tt (record t { state = record t.state { total_acquired = n } })
]

add_lease : LeaseKey → Method BackendSlot (Unit {0})
add_lease k t = returned tt (record t { state = record t.state { leases = insert k t.leases } })

unfoldable pub grant : ℕ → BackendSpec → Method BackendSlot (Result BackendLease AcquireError)
unfolding next_serial count_acquired add_lease publish_locked
grant now spec = do
  serial ← next_serial
  count_acquired
  add_lease (record { started_at = now; serial = serial })
  publish_locked
  pure (ok (record { key = some (record { started_at = now; serial = serial }); spec = spec }))

unfoldable pub try_acquire : ℕ → Method BackendSlot (Result BackendLease AcquireError)
try_acquire now t =
    if not t.registered
    then returned (err (AcquireError.retired t.spec.id)) t
    else if not (mode_eq t.mode active)
    then returned (err (not_active t.spec.id t.mode)) t
    else grant now t.spec t

-- The body of `if state.mode != mode`.
change_mode : BackendMode → Method BackendSlot (Unit {0})
unfolding next_mode_epoch publish_locked
change_mode mode t =
    if mode_eq t.mode mode
    then returned tt t
    else bind_outcome (next_mode_epoch (with_mode mode t)) (λ _. publish_locked)

unfoldable pub set_mode :
    ℕ → BackendMode → Bool → Method BackendSlot (Result BackendSnapshot ModeChangeError)
unfolding change_mode
set_mode now mode require_registered t =
    if require_registered && not t.registered
    then returned (err (ModeChangeError.retired t.spec.id)) t
    else bind_outcome (change_mode mode t) (λ _ u. returned (ok (snapshot now u.state)) u)

unfoldable pub activate : ℕ → Method BackendSlot (Result BackendSnapshot ModeChangeError)
unfolding set_mode
activate now = set_mode now active true

-- `expect` on the result of `set_mode`.
abbrev expect_ok {ℓ κ} : {A : Type ℓ} {E : Type κ} → Result A E → Method BackendSlot A
expect_ok (ok a) t = returned a t
expect_ok (err e) t = panicked t

unfoldable pub disable : ℕ → Method BackendSlot BackendSnapshot
unfolding set_mode
disable now = do r ← set_mode now disabled false; expect_ok r

unfoldable pub begin_drain : Method BackendSlot DrainToken
unfolding change_mode
begin_drain = do
  change_mode draining
  λ t. returned (record { backend_id = t.spec.id; mode_epoch = t.mode_epoch }) t

-- The test at the head of `wait_for_local_zero`.
unfoldable pub check_token : DrainToken → Str → Result (Unit {0}) DrainWaitError
check_token token slot_id =
    if str_eq token.backend_id slot_id then ok tt else err (wrong_backend token.backend_id slot_id)

-- One round of its loop, on the snapshot taken in that round; `none` awaits the next change.
unfoldable pub wait_round :
    DrainToken → BackendSnapshot → Option (Result BackendSnapshot DrainWaitError)
wait_round token s =
    if not (mode_eq s.mode draining) || not (s.mode_epoch == token.mode_epoch)
    then some (err (superseded s.spec.id token.mode_epoch s.mode_epoch s.mode))
    else if s.local_active == 0
    then some (ok s)
    else none

-- The loop, over the snapshots that it takes in turn; `none` is still waiting after the last.
unfoldable pub wait_for_local_zero :
    DrainToken → List BackendSnapshot → Option (Result BackendSnapshot DrainWaitError)
wait_for_local_zero token [] = none
wait_for_local_zero token (s ∷ later) =
    let rest = wait_for_local_zero token later in
    elim (wait_round token s) [ none ↦ rest | some r ↦ some r ]

replace_spec : BackendSpec → Bool → Method BackendSlot (Unit {0})
replace_spec spec changed_spec t =
    if changed_spec
    then elim (checked_increment t.spec_revision) [
      | none ↦ panicked (record t { state = record t.state { spec = spec } })
      | some n ↦
          returned tt (record t { state = record t.state { spec = spec; spec_revision = n } })
    ]
    else returned tt t

unfoldable pub reconcile_present : BackendSpec → Method BackendSlot ReconciledSlot
unfolding replace_spec publish_locked
reconcile_present spec t =
    let was_registered = t.registered in
    let changed_spec = not (spec_eq t.spec spec) in
    bind_outcome
      (replace_spec spec changed_spec (record t { state = record t.state { registered = true } }))
      λ _. do
        if not was_registered || changed_spec then publish_locked else pure tt
        pure (record { revived = not was_registered; updated = changed_spec })

unfoldable pub reconcile_absent : Method BackendSlot Bool
unfolding next_mode_epoch publish_locked
reconcile_absent t =
    if not t.registered
    then returned false t
    else bind_outcome
        (let u = record t { state = record t.state { registered = false } } in
          if mode_eq u.mode active then next_mode_epoch (with_mode disabled u) else returned tt u)
        λ _. do publish_locked; pure true

unfoldable pub releasable_tombstone : SlotState → Bool
releasable_tombstone s = not s.registered && length s.leases == 0 && not (mode_eq s.mode draining)

unfoldable pub release : LeaseKey → Method BackendSlot (Unit {0})
unfolding publish_locked
release k t =
    if has k t.leases
    then publish_locked (record t { state = record t.state { leases = remove k t.leases } })
    else panicked t

-- `Drop for BackendLease`: the key is taken, so a second drop releases nothing.
unfoldable pub drop_lease : BackendLease → Method BackendSlot BackendLease
unfolding release
drop_lease l t = elim l.key [
  | none ↦ returned l t
  | some k ↦ bind_outcome (release k t) (λ _. pure (record l { key = none }))
]

-- The operations of a slot, for its histories.
pub data Call : Type 0 where
  try_acquires : ℕ → Call
  activates disables : ℕ → Call
  begin_drains : Call
  reconciles_present : BackendSpec → Call
  reconciles_absent : Call
  releases : LeaseKey → Call

abbrev done {ℓ} : {A : Type ℓ} → A → Method BackendSlot (Unit {0})
done _ = pure tt

unfoldable pub step : Call → Method BackendSlot (Unit {0})
step (try_acquires now) = do r ← try_acquire now; done r
step (activates now) = do r ← activate now; done r
step (disables now) = do r ← disable now; done r
step begin_drains = do r ← begin_drain; done r
step (reconciles_present spec) = do r ← reconcile_present spec; done r
step reconciles_absent = do r ← reconcile_absent; done r
step (releases k) = release k

-- A history that goes on after a panic, as the program does.
unfoldable pub run : List Call → BackendSlot → BackendSlot
run [] t = t
run (c ∷ cs) t = run cs (elim (step c t) [ returned _ u ↦ u | panicked u ↦ u ])

-- A history in which no call panics.
unfoldable pub run_clean : List Call → Method BackendSlot (Unit {0})
run_clean [] = pure tt
run_clean (c ∷ cs) = do step c; run_clean cs
