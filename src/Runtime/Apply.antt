-- ===== src/Runtime/Apply.antt =====
-- Applying a configuration (src/runtime.rs): the guard on backends in use, the generations of their
-- endpoints, the reconciliation of the registry, and the modes that are restored before a backend can
-- be routed to. The whole is one step: the apply lock is held throughout.
use mistralrs_proxy.Prelude.{
  ℕ, ◌==◌, Bool, not, ◌&&◌, ◌||◌, Option, none, some, List, [], ◌∷◌, ◌++◌, if◌then◌else◌, Str,
  str_eq, checked_increment,
}
use mistralrs_proxy.Prelude.Maps.{Map, lookup, insert}
use mistralrs_proxy.Prelude.Monad.{returned, panicked, Method, bind_outcome}
use mistralrs_proxy.Backend.Slot.{
  BackendSpec, BackendMode, active, draining, disabled, mode_eq, BackendSlot, BackendSnapshot,
  Result, ok, err, snapshot, activate, disable, begin_drain,
}
use mistralrs_proxy.Backend.Registry.{
  BackendRegistry, ReconcileReport, ReconcileError, get, get_retained, snapshots, reconcile,
}
use mistralrs_proxy.Runtime.{Backend, RuntimeConfig, UriOps, RuntimeState, registry_spec}

pub data BackendChange : Type 0 where
  removed changed_endpoints : BackendChange

pub data RuntimeApplyError : Type 0 where
  reconcile_error : ReconcileError → RuntimeApplyError
  backend_must_be_disabled : Str → BackendChange → RuntimeApplyError

pub record RuntimeReloadReport : Type 0 where
  pub revision : ℕ
  pub reconciled : ReconcileReport

-- A slot in a stored mode. `expect` on the activation is a panic.
unfoldable pub restore_slot : ℕ → BackendMode → Method BackendSlot (Unit {0})
restore_slot now active t =
    bind_outcome (activate now t)
      λ opened u. elim opened [ ok s ↦ returned tt u | err e ↦ panicked u ]
restore_slot now draining t = bind_outcome (begin_drain t) (λ token. returned tt)
restore_slot now disabled t = bind_outcome (disable now t) (λ s. returned tt)

-- On the registered slot of an id; `expect` on the lookup is a panic.
unfoldable pub restore_in : ℕ → Str → BackendMode → Method BackendRegistry (Unit {0})
unfolding restore_slot
restore_in now id mode slots = elim (get id slots) [
  | none ↦ panicked slots
  | some slot ↦ elim (restore_slot now mode slot) [
    | returned a u ↦ returned tt (insert id u slots)
    | panicked u ↦ panicked (insert id u slots)
  ]
]

abbrev or_active : Option BackendMode → BackendMode
or_active none = active
or_active (some mode) = mode

-- The backends that were added or revived.
unfoldable pub restore_each : ℕ → Map BackendMode → List Str → Method BackendRegistry (Unit {0})
unfolding restore_in
restore_each now modes [] slots = returned tt slots
restore_each now modes (id ∷ ids) slots =
    bind_outcome (restore_in now id (or_active (lookup id modes)) slots)
      λ _. restore_each now modes ids

-- The stored fences of the other backends.
unfoldable pub reassert_each :
    ℕ → Map BackendMode → List BackendSnapshot → Method BackendRegistry (Unit {0})
unfolding restore_in
reassert_each now modes [] slots = returned tt slots
reassert_each now modes (s ∷ ss) slots = elim (lookup s.spec.id modes) [
  | none ↦ reassert_each now modes ss slots
  | some mode ↦ bind_outcome (restore_in now s.spec.id mode slots) λ _. reassert_each now modes ss
]

-- `restore_modes`, before the listener accepts traffic; a failed activation is ignored.
unfoldable pub restore_stored : ℕ → BackendMode → Method BackendSlot (Unit {0})
restore_stored now active t = bind_outcome (activate now t) (λ opened. returned tt)
restore_stored now draining t = bind_outcome (begin_drain t) (λ token. returned tt)
restore_stored now disabled t = bind_outcome (disable now t) (λ s. returned tt)

unfoldable pub restore_modes :
    ℕ → Map BackendMode → List BackendSnapshot → Method BackendRegistry (Unit {0})
unfolding restore_stored
restore_modes now modes [] slots = returned tt slots
restore_modes now modes (s ∷ ss) slots = elim (lookup s.spec.id modes) [
  | none ↦ restore_modes now modes ss slots
  | some mode ↦ elim (get s.spec.id slots) [
    | none ↦ panicked slots
    | some slot ↦ elim (restore_stored now mode slot) [
      | panicked u ↦ panicked (insert s.spec.id u slots)
      | returned a u ↦ restore_modes now modes ss (insert s.spec.id u slots)
    ]
  ]
]

-- A slot that serves, or may.
abbrev pub in_use : BackendSnapshot → Bool
in_use s = not (mode_eq s.mode disabled) || not (s.local_active == 0)

module _ {U : Type 0} (uris : UriOps U) where
  -- The backend of an id in a map that is collected from a list: the last one counts.
  unfoldable pub by_id : Str → List (Backend U) → Option (Backend U)
  by_id id [] = none
  by_id id (b ∷ bs) =
      let later = by_id id bs in
      elim later [ some c ↦ some c | none ↦ if str_eq b.id id then some b else none ]

  abbrev pub same_endpoints : Backend U → Backend U → Bool
  same_endpoints a b =
      uris.uri_eq a.url b.url
      && (uris.uri_eq a.metrics_url b.metrics_url && uris.uri_eq a.readiness_url b.readiness_url)

  -- How the desired set changes a backend.
  unfoldable pub change_of : Backend U → List (Backend U) → Option BackendChange
  unfolding by_id
  change_of old desired = elim (by_id old.id desired) [
    | none ↦ some removed
    | some b ↦ if same_endpoints b old then none else some changed_endpoints
  ]

  unfoldable pub refuses :
      ℕ → BackendRegistry → List (Backend U) → Backend U → Option RuntimeApplyError
  unfolding change_of
  refuses now slots desired old = elim (change_of old desired) [
    | none ↦ none
    | some change ↦ elim (get_retained old.id slots) [
      | none ↦ none
      | some slot ↦
          if in_use (snapshot now slot.state)
          then some (backend_must_be_disabled old.id change)
          else none
    ]
  ]

  -- The first loop.
  unfoldable pub check_current :
      ℕ → BackendRegistry → List (Backend U) → List (Backend U) → Option RuntimeApplyError
  unfolding refuses
  check_current now slots desired [] = none
  check_current now slots desired (old ∷ later) = elim (refuses now slots desired old) [
    | some e ↦ some e
    | none ↦ check_current now slots desired later
  ]

  -- A new generation, and the next one; `none` is a panic.
  abbrev pub new_generation : ℕ → Option (ℕ × ℕ)
  new_generation next = elim (checked_increment next) [
    | none ↦ none
    | some after ↦ some (next, after)
  ]

  -- The generation that a backend keeps, or a new one.
  unfoldable pub generation_for : List (Backend U) → Map ℕ → ℕ → Backend U → Option (ℕ × ℕ)
  unfolding by_id
  generation_for current generations next b = elim (by_id b.id current) [
    | none ↦ new_generation next
    | some old ↦
        if same_endpoints old b
        then elim (lookup b.id generations) [ none ↦ none | some g ↦ some (g, next) ]
        else new_generation next
  ]

  -- The second loop, with the map that it fills.
  unfoldable pub assign_generations :
      List (Backend U) → Map ℕ → ℕ → List (Backend U) → Map ℕ → Option (Map ℕ × ℕ)
  unfolding generation_for
  assign_generations current generations next [] assigned = some (assigned, next)
  assign_generations current generations next (b ∷ bs) assigned =
      elim (generation_for current generations next b) [
        | none ↦ none
        | some (g, after) ↦ assign_generations current generations after bs (insert b.id g assigned)
      ]

  unfoldable pub specs_of : List (Backend U) → List BackendSpec
  unfolding registry_spec
  specs_of [] = []
  specs_of (b ∷ bs) = registry_spec uris b ∷ specs_of bs

  -- The reconciliation and both restorations.
  unfoldable pub reconcile_modes :
      ℕ
      → Map BackendMode
      → List (Backend U)
      → Method BackendRegistry (Result ReconcileReport ReconcileError)
  unfolding specs_of restore_each reassert_each
  reconcile_modes now modes backends slots =
      bind_outcome (reconcile (specs_of backends) slots) λ reconciled after. elim reconciled [
        | err e ↦ returned (err e) after
        | ok report ↦
            bind_outcome (restore_each now modes (report.added ++ report.revived) after)
              λ _ restored.
                bind_outcome (reassert_each now modes (snapshots now restored) restored)
                  λ _. returned (ok report)
      ]

  module _ {F : Type 0} where
    abbrev put_registry : BackendRegistry → RuntimeState U F → RuntimeState U F
    put_registry slots st = record st { registry = slots }

    -- The assignments under the write lock; the revision comes last.
    unfoldable pub publish :
        RuntimeConfig U F
        → Map ℕ
        → ℕ
        → ReconcileReport
        → Method (RuntimeState U F) (Result RuntimeReloadReport RuntimeApplyError)
    publish config generations next report st =
        let filled = record st.inner {
          config = config;
          backend_generations = generations;
          next_backend_generation = next;
        } in
        elim (checked_increment st.inner.revision) [
          | none ↦ panicked (record st { inner = filled })
          | some revision ↦
              returned (ok (record { revision = revision; reconciled = report }))
                (record st { inner = record filled { revision = revision } })
        ]

    -- `apply_with_modes` from the second loop on.
    unfoldable pub apply_checked :
        ℕ
        → RuntimeConfig U F
        → Map BackendMode
        → Method (RuntimeState U F) (Result RuntimeReloadReport RuntimeApplyError)
    unfolding assign_generations reconcile_modes publish
    apply_checked now config modes st =
        elim (assign_generations st.inner.config.backends st.inner.backend_generations
          st.inner.next_backend_generation config.backends []) [
            | none ↦ panicked st
            | some (generations, next) ↦
                elim (reconcile_modes now modes config.backends st.registry) [
                  | panicked slots ↦ panicked (put_registry slots st)
                  | returned (err e) slots ↦
                      returned (err (reconcile_error e)) (put_registry slots st)
                  | returned (ok report) slots ↦
                      publish config generations next report (put_registry slots st)
                ]
          ]

    unfoldable pub apply_with_modes :
        ℕ
        → RuntimeConfig U F
        → Map BackendMode
        → Method (RuntimeState U F) (Result RuntimeReloadReport RuntimeApplyError)
    unfolding check_current apply_checked
    apply_with_modes now config modes st =
        elim (check_current now st.registry config.backends st.inner.config.backends) [
          | some e ↦ returned (err e) st
          | none ↦ apply_checked now config modes st
        ]
