-- ===== src/Runtime/Instances.antt =====
-- The first publication of a configuration, and what the router and the workers read of a published one
-- (src/runtime.rs).
use mistralrs_proxy.Prelude.{
  ℕ, Option, none, some, List, [], ◌∷◌, if◌then◌else◌, Str, str_eq, checked_increment,
}
use mistralrs_proxy.Prelude.Maps.{Map, lookup, insert}
use mistralrs_proxy.Prelude.Monad.{returned, panicked, Method, bind_outcome}
use mistralrs_proxy.Backend.Slot.{BackendMode, active, mode_eq, BackendSnapshot, ok, err}
use mistralrs_proxy.Backend.Registry.{BackendRegistry, snapshots, reconcile}
use mistralrs_proxy.Runtime.{Backend, RuntimeConfig, UriOps, RuntimeState}
use mistralrs_proxy.Runtime.Apply.{restore_in, specs_of}

-- The slots that were added are activated.
unfoldable pub activate_each : ℕ → List Str → Method BackendRegistry (Unit {0})
unfolding restore_in
activate_each now [] slots = returned tt slots
activate_each now (id ∷ ids) slots =
    bind_outcome (restore_in now id active slots) (λ _. activate_each now ids)

abbrev when_active : Str → BackendMode → Option Str → Option Str
when_active id mode later = if mode_eq mode active then some id else later

unfoldable pub first_active : List BackendSnapshot → Option Str
first_active [] = none
first_active (s ∷ ss) = let later = first_active ss in when_active s.spec.id s.mode later

module _ {U : Type 0} where
  -- Generations from `next` on; `none` is a panic.
  unfoldable pub number_backends : List (Backend U) → ℕ → Map ℕ → Option (Map ℕ × ℕ)
  number_backends [] next generations = some (generations, next)
  number_backends (b ∷ bs) next generations = elim (checked_increment next) [
    | none ↦ none
    | some after ↦ number_backends bs after (insert b.id next generations)
  ]

  unfoldable pub find_backend : Str → List (Backend U) → Option (Backend U)
  find_backend id [] = none
  find_backend id (b ∷ bs) = if str_eq b.id id then some b else find_backend id bs

  -- The generation of each backend; `none` is the panic of an index without an entry.
  unfoldable pub instances_of : Map ℕ → List (Backend U) → Option (List (Backend U × ℕ))
  instances_of generations [] = some []
  instances_of generations (b ∷ bs) =
      let rest = instances_of generations bs in
      elim (lookup b.id generations) [
        | none ↦ none
        | some g ↦ elim rest [ none ↦ none | some others ↦ some ((b, g) ∷ others) ]
      ]

  module _ {F : Type 0} where
    -- `from_config`; `none` is a panic.
    unfoldable pub from_config : UriOps U → ℕ → RuntimeConfig U F → Option (RuntimeState U F)
    unfolding activate_each number_backends specs_of
    from_config uris now config = elim (reconcile (specs_of uris config.backends) []) [
      | panicked slots ↦ none
      | returned (err e) slots ↦ none
      | returned (ok report) slots ↦ elim (activate_each now report.added slots) [
        | panicked after ↦ none
        | returned u after ↦ elim (number_backends config.backends 1 []) [
          | none ↦ none
          | some (generations, next) ↦ some (record {
            inner = record {
              config = config;
              revision = 1;
              backend_generations = generations;
              next_backend_generation = next;
            };
            registry = after;
          })
        ]
      ]
    ]

    unfoldable pub backend_instances : RuntimeState U F → Option (List (Backend U × ℕ))
    unfolding instances_of
    backend_instances st = instances_of st.inner.backend_generations st.inner.config.backends

    unfoldable pub backend_generation : Str → RuntimeState U F → Option ℕ
    backend_generation id st = lookup id st.inner.backend_generations

    unfoldable pub backend : Str → RuntimeState U F → Option (Backend U)
    unfolding find_backend
    backend id st = find_backend id st.inner.config.backends

    unfoldable pub available : ℕ → RuntimeState U F → Option (Backend U)
    unfolding first_active backend
    available now st = elim (first_active (snapshots now st.registry)) [
      | none ↦ none
      | some id ↦ backend id st
    ]
