-- ===== src/Backend/Registry.antt =====
-- The set of backends (src/backend.rs): `BackendRegistry` holds a slot for each id, retired ones
-- included. Its map is the association list of slots, and a slot that a method changes is written
-- back where it stands. Reconciliation holds the write lock throughout; a panic in one slot leaves
-- the slots before it changed and those after it as they were.
pub mod Reconcile
pub mod Present
pub mod Desired
use mistralrs_proxy.Prelude.{
  ℕ, Bool, true, false, not, Option, none, some, List, [], ◌∷◌, ltb, ◌==◌, if◌then◌else◌, Str,
}
use mistralrs_proxy.Prelude.Maps.{Map, lookup, insert}
use mistralrs_proxy.Prelude.Monad.{Outcome, returned, panicked, Method, bind_outcome}
use mistralrs_proxy.Backend.Slot.{
  BackendSpec, disabled, BackendSlot, BackendLease, AcquireError, Result, ok, err, ReconciledSlot,
  BackendSnapshot, snapshot, new, try_acquire, reconcile_present, reconcile_absent,
  releasable_tombstone,
}

abbrev pub BackendRegistry : Type 0
BackendRegistry = Map BackendSlot

pub record ReconcileReport : Type 0 where
  pub added : List Str
  pub revived : List Str
  pub updated : List Str
  pub retired : List Str

-- `ReconcileError` of the source has the one variant `DuplicateBackendId`.
pub data ReconcileError : Type 0 where
  duplicate_backend_id : Str → ReconcileError

pub data RegistryAcquireError : Type 0 where
  unknown_backend : Str → RegistryAcquireError
  unavailable : AcquireError → RegistryAcquireError

-- The order of `str`, and `sort` of a list of ids.
abbrev pub str_leb : Str → Str → Bool
str_leb [] ys = true
str_leb (x ∷ xs) [] = false
str_leb (x ∷ xs) (y ∷ ys) = if x == y then str_leb xs ys else ltb x y

abbrev insert_sorted : Str → List Str → List Str
insert_sorted x [] = x ∷ []
insert_sorted x (y ∷ ys) = if str_leb x y then x ∷ y ∷ ys else y ∷ insert_sorted x ys

unfoldable pub sort : List Str → List Str
sort [] = []
sort (x ∷ xs) = insert_sorted x (sort xs)

unfoldable pub get_retained : Str → BackendRegistry → Option BackendSlot
get_retained id slots = lookup id slots

unfoldable pub get : Str → BackendRegistry → Option BackendSlot
get id slots = elim (get_retained id slots) [
  | none ↦ none
  | some slot ↦ if slot.registered then some slot else none
]

-- `BackendRegistry::try_acquire`.
unfoldable pub registry_acquire :
    ℕ → Str → Method BackendRegistry (Result BackendLease RegistryAcquireError)
registry_acquire now id slots = elim (get_retained id slots) [
  | none ↦ returned (err (unknown_backend id)) slots
  | some slot ↦ elim (try_acquire now slot) [
    | panicked s ↦ panicked (insert id s slots)
    | returned (ok lease) s ↦ returned (ok lease) (insert id s slots)
    | returned (err e) s ↦ returned (err (unavailable e)) (insert id s slots)
  ]
]

abbrev pub insert_snapshot : BackendSnapshot → List BackendSnapshot → List BackendSnapshot
insert_snapshot x [] = x ∷ []
insert_snapshot x (y ∷ ys) =
    if str_leb x.spec.id y.spec.id then x ∷ y ∷ ys else y ∷ insert_snapshot x ys

-- Registered slots, in the order of their ids.
unfoldable pub snapshots : ℕ → BackendRegistry → List BackendSnapshot
snapshots now [] = []
snapshots now ((id, slot) ∷ slots) =
    let rest = snapshots now slots in
    if slot.registered then insert_snapshot (snapshot now slot.state) rest else rest

-- The desired specs by id; the first id that comes a second time is refused.
unfoldable pub collect :
    List BackendSpec → Map BackendSpec → Result (Map BackendSpec) ReconcileError
collect [] desired = ok desired
collect (spec ∷ specs) desired = elim (lookup spec.id desired) [
  | some earlier ↦ err (duplicate_backend_id spec.id)
  | none ↦ collect specs (insert spec.id spec desired)
]

abbrev keep_front {ℓ} :
    {A : Type ℓ} → Str × BackendSlot → Outcome BackendRegistry A → Outcome BackendRegistry A
keep_front entry (returned a slots) = returned a (entry ∷ slots)
keep_front entry (panicked slots) = panicked (entry ∷ slots)

-- `!desired.contains_key(id) && slot.reconcile_absent()`.
unfoldable pub retire_one : Map BackendSpec → Str → Method BackendSlot Bool
retire_one desired id slot = elim (lookup id desired) [
  | some spec ↦ returned false slot
  | none ↦ reconcile_absent slot
]

-- The first loop: slots that are not desired are retired.
unfoldable pub retire_absent : Map BackendSpec → Method BackendRegistry (List Str)
retire_absent desired [] = returned [] []
retire_absent desired ((id, slot) ∷ slots) = elim (retire_one desired id slot) [
  | panicked s ↦ panicked ((id, s) ∷ slots)
  | returned gone s ↦
      keep_front (id, s)
        (bind_outcome (retire_absent desired slots)
          λ ids. returned (if gone then id ∷ ids else ids))
]

abbrev report_present : Str → ReconciledSlot → ReconcileReport → ReconcileReport
report_present id outcome report = record report {
  revived = if outcome.revived then id ∷ report.revived else report.revived;
  updated = if outcome.updated then id ∷ report.updated else report.updated;
}

-- The second loop: desired slots are brought up to date, or created disabled.
unfoldable pub admit_desired :
    Map BackendSpec → ReconcileReport → Method BackendRegistry ReconcileReport
admit_desired [] report slots = returned report slots
admit_desired ((id, spec) ∷ desired) report slots = elim (lookup id slots) [
  | none ↦
      admit_desired desired (record report { added = id ∷ report.added })
        (insert id (new spec disabled) slots)
  | some slot ↦ elim (reconcile_present spec slot) [
    | panicked s ↦ panicked (insert id s slots)
    | returned outcome s ↦
        admit_desired desired (report_present id outcome report) (insert id s slots)
  ]
]

abbrev sort_report : ReconcileReport → ReconcileReport
sort_report r = record {
  added = sort r.added;
  revived = sort r.revived;
  updated = sort r.updated;
  retired = sort r.retired;
}

-- Both loops on the desired specs.
unfoldable pub apply_desired : Map BackendSpec → Method BackendRegistry ReconcileReport
apply_desired desired slots = bind_outcome (retire_absent desired slots) λ retired after.
    bind_outcome
      (admit_desired desired (record { added = []; revived = []; updated = []; retired = retired })
        after)
      (λ report. returned (sort_report report))

unfoldable pub reconcile :
    List BackendSpec → Method BackendRegistry (Result ReconcileReport ReconcileError)
reconcile specs slots = elim (collect specs []) [
  | err e ↦ returned (err e) slots
  | ok desired ↦ bind_outcome (apply_desired desired slots) (λ report. returned (ok report))
]

unfoldable pub prune_retired : BackendRegistry → List Str × BackendRegistry
prune_retired [] = ([], [])
prune_retired ((id, slot) ∷ slots) =
    let (removed, kept) = prune_retired slots in
    if releasable_tombstone slot.state
    then (insert_sorted id removed, kept)
    else (removed, (id, slot) ∷ kept)
