-- ===== src/Runtime/Published.antt =====
-- States that the proxy publishes (src/runtime.rs): every backend of the configuration has a generation.
use mistralrs_proxy.Prelude.{
  ℕ, ◌≡◌, sym, subst, ◌≢◌, inl, inr, none, some, List, [], ◌∷◌, arith, All, Bool-cases,
  Option-cases, Str, str_eq, str_eq_refl, checked_increment,
}
use mistralrs_proxy.Prelude.Maps.{Map, lookup, insert, lookup-insert}
use mistralrs_proxy.Prelude.Monad.{returned, Outcome-cases}
use mistralrs_proxy.Backend.Slot.{BackendMode, Result, ok, err}
use mistralrs_proxy.Backend.Registry.{reconcile}
use mistralrs_proxy.Runtime.{Backend, RuntimeConfig, UriOps, RuntimeState}
use mistralrs_proxy.Runtime.Apply.{
  RuntimeApplyError, RuntimeReloadReport, specs_of, apply_with_modes,
}
use mistralrs_proxy.Runtime.Accepted.{Unrepeated}
use mistralrs_proxy.Runtime.Reload.{Assigned}
use mistralrs_proxy.Runtime.Applied.{apply_with_modes-ok, apply_with_modes-err}
use mistralrs_proxy.Runtime.Instances.{
  number_backends, instances_of, activate_each, from_config, backend_instances,
}

module _ {U : Type 0} where
  -- Every backend of the configuration has a generation.
  abbrev HasGeneration : Map ℕ → Backend U → Type 0
  HasGeneration generations b = (g : ℕ) × (lookup b.id generations ≡ some g)

  instances_of-some :
      (generations : Map ℕ) (bs : List (Backend U))
      → All (HasGeneration generations) bs
      → instances_of generations bs ≢ none
  unfolding instances_of
  instances_of-some generations [] a e = ground arith
  instances_of-some generations (b ∷ bs) ((g, found), a) e =
      let rest = instances_of-some generations bs a in ground arith

  insert-HasGeneration :
      (id : Str) (g : ℕ) (generations : Map ℕ) (b : Backend U)
      → HasGeneration generations b
      → HasGeneration (insert id g generations) b
  insert-HasGeneration id g generations b (h, found) = elim (Bool-cases (str_eq id b.id)) [
    | inl same ↦ (g, ground (arith, lookup-insert id b.id g generations))
    | inr other ↦ (h, ground (arith, lookup-insert id b.id g generations))
  ]

  number_backends-keeps :
      (bs : List (Backend U)) (next after : ℕ) (generations filled : Map ℕ) (c : Backend U)
      → number_backends bs next generations ≡ some (filled, after)
      → HasGeneration generations c
      → HasGeneration filled c
  unfolding number_backends
  number_backends-keeps [] next after generations filled c e h =
      let same : generations ≡ filled = ground arith in subst (λ m. HasGeneration m c) same h
  number_backends-keeps (b ∷ bs) next after generations filled c e h =
      elim (Option-cases (checked_increment next)) [
        | inl full ↦ absurd (ground arith)
        | inr (mid, room) ↦
            number_backends-keeps bs mid after (insert b.id next generations) filled c
              (ground arith) (insert-HasGeneration b.id next generations c h)
      ]

  number_backends-HasGeneration :
      (bs : List (Backend U)) (next after : ℕ) (generations filled : Map ℕ)
      → number_backends bs next generations ≡ some (filled, after)
      → All (HasGeneration filled) bs
  unfolding number_backends
  number_backends-HasGeneration [] next after generations filled e = tt
  number_backends-HasGeneration (b ∷ bs) next after generations filled e =
      elim (Option-cases (checked_increment next)) [
        | inl full ↦ absurd (ground arith)
        | inr (mid, room) ↦ (
          number_backends-keeps bs mid after (insert b.id next generations) filled b (ground arith)
              (next, ground (arith, lookup-insert b.id b.id next generations, str_eq_refl b.id)),
          number_backends-HasGeneration bs mid after (insert b.id next generations) filled
              (ground arith),
        )
      ]

  Assigned-HasGeneration :
      (uris : UriOps U) (current : List (Backend U)) (generations : Map ℕ) (next after : ℕ)
      (filled : Map ℕ) (bs : List (Backend U))
      → All (Assigned uris current generations next after filled) bs
      → All (HasGeneration filled) bs
  Assigned-HasGeneration uris current generations next after filled [] a = tt
  Assigned-HasGeneration uris current generations next after filled (b ∷ bs) (x, a) = (
    (x.generation, x.found),
    Assigned-HasGeneration uris current generations next after filled bs a,
  )

  module _ {F : Type 0} where
    -- The states that a first publication and then reloads lead to.
    pub data Published (uris : UriOps U) : RuntimeState U F → Type 0 where
      starts :
          {st : RuntimeState U F} (now : ℕ) (config : RuntimeConfig U F)
          → from_config uris now config ≡ some st
          → Published uris st
      reloads :
          {st after : RuntimeState U F} (now : ℕ) (config : RuntimeConfig U F)
          (modes : Map BackendMode) (r : Result RuntimeReloadReport RuntimeApplyError)
          → Published uris st
          → Unrepeated uris [] config.backends
          → apply_with_modes uris now config modes st ≡ returned r after
          → Published uris after

    from_config-HasGeneration :
        (uris : UriOps U) (now : ℕ) (config : RuntimeConfig U F) (st : RuntimeState U F)
        → from_config uris now config ≡ some st
        → All (HasGeneration st.inner.backend_generations) st.inner.config.backends
    unfolding from_config
    from_config-HasGeneration uris now config st e =
        elim (Outcome-cases (reconcile (specs_of uris config.backends) [])) [
          | inr (u, broken) ↦ absurd (ground arith)
          | inl (err x, u, ran) ↦ absurd (ground arith)
          | inl (ok report, u, ran) ↦ elim (Outcome-cases (activate_each now report.added u)) [
            | inr (v, broken) ↦ absurd (ground arith)
            | inl (t, v, activated) ↦ elim (Option-cases (number_backends config.backends 1 [])) [
              | inl full ↦ absurd (ground arith)
              | inr ((generations, next), numbered) ↦
                  let is_map : generations ≡ st.inner.backend_generations = ground arith in
                  let is_config : config ≡ st.inner.config = ground arith in
                  rw (sym is_map) (
                    rw (sym is_config) (
                      number_backends-HasGeneration config.backends 1 next [] generations numbered))
            ]
          ]
        ]

    Published-HasGeneration :
        (uris : UriOps U) (st : RuntimeState U F)
        → Published uris st
        → All (HasGeneration st.inner.backend_generations) st.inner.config.backends
    Published-HasGeneration uris st (starts now config e) =
        from_config-HasGeneration uris now config st e
    Published-HasGeneration uris _
          (reloads {st = st} {after = after} now config modes (ok report) p distinct e) =
        let (is_config, revised, idle, (grows, all)) =
          apply_with_modes-ok uris now config modes st after report distinct e in
        rw is_config (
          Assigned-HasGeneration uris st.inner.config.backends st.inner.backend_generations
            st.inner.next_backend_generation after.inner.next_backend_generation
            after.inner.backend_generations config.backends all)
    Published-HasGeneration uris _
          (reloads {st = st} {after = after} now config modes (err x) p distinct e) =
        rw (apply_with_modes-err uris now config modes st after x e)
          (Published-HasGeneration uris st p)

    -- After a first publication and any reloads of configurations with distinct ids, the lookup of the
    -- backends with their generations does not panic.
    pub backend_instances-Published :
        (uris : UriOps U) (st : RuntimeState U F) → Published uris st → backend_instances st ≢ none
    unfolding backend_instances
    backend_instances-Published uris st p =
        instances_of-some st.inner.backend_generations st.inner.config.backends
          (Published-HasGeneration uris st p)
