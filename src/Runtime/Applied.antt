-- ===== src/Runtime/Applied.antt =====
-- The outcomes of applying a configuration (src/runtime.rs).
use mistralrs_proxy.Prelude.{
  ℕ, ◌+◌, ◌≤◌, ◌≡◌, sym, ap, ◌∙◌, ◌≢◌, inl, inr, Bool, none, some, List, [], ◌∷◌, arith, All,
  Option-cases, Str, checked_increment,
}
use mistralrs_proxy.Prelude.Maps.{Map}
use mistralrs_proxy.Prelude.Monad.{returned, Outcome-cases}
use mistralrs_proxy.Backend.Slot.{BackendSpec, BackendMode, ok, err}
use mistralrs_proxy.Backend.Registry.{
  BackendRegistry, ReconcileError, duplicate_backend_id, reconcile,
}
use mistralrs_proxy.Backend.Registry.Desired.{occurrences, reconcile-duplicate_iff}
use mistralrs_proxy.Runtime.{Backend, RuntimeConfig, RuntimeFile, UriOps, RuntimeState}
use mistralrs_proxy.Runtime.Config.{parse_file}
use mistralrs_proxy.Runtime.Accepted.{Unrepeated, parse_file-IsAccepted}
use mistralrs_proxy.Runtime.Apply.{
  RuntimeApplyError, reconcile_error, RuntimeReloadReport, refuses, check_current,
  assign_generations, specs_of, reconcile_modes, publish, apply_checked, apply_with_modes,
}
use mistralrs_proxy.Runtime.InUse.{check_current-none, InUseStays, refuses-InUseStays}
use mistralrs_proxy.Runtime.Reload.{
  reconcile_modes-err, Unrepeated-once, Assigned, assign_generations-Assigned,
}

reconcile-once :
    (specs : List BackendSpec) (slots after : BackendRegistry) (y : ReconcileError)
    → ((id : Str) → occurrences id specs ≤ 1)
    → slots ≡ after
    → reconcile specs slots ≢ returned (err y) after
reconcile-once specs slots after (duplicate_backend_id id) once same e =
    let (j, twice) =
      (reconcile-duplicate_iff specs slots).1
        (id, e ∙ ap (λ s. returned (err (duplicate_backend_id id)) s) (sym same)) in
    absurd (omega (arith, once j))

module _ {U : Type 0} (uris : UriOps U) where
  check_current-reason :
      (now : ℕ) (slots : BackendRegistry) (desired current : List (Backend U)) (y : ReconcileError)
      → check_current uris now slots desired current ≢ some (reconcile_error y)
  unfolding check_current refuses
  check_current-reason now slots desired [] y e = ground arith
  check_current-reason now slots desired (old ∷ later) y e =
      let rest = check_current-reason now slots desired later y in ground arith

  All-InUseStays :
      (now : ℕ) (slots : BackendRegistry) (desired current : List (Backend U))
      → All (λ old. refuses uris now slots desired old ≡ none) current
      → All (InUseStays uris slots desired) current
  All-InUseStays now slots desired [] a = tt
  All-InUseStays now slots desired (old ∷ later) (fine, a) =
      (refuses-InUseStays uris now slots desired old fine, All-InUseStays now slots desired later a)

  module _ {F : Type 0} where
    apply_checked-err :
        (now : ℕ) (config : RuntimeConfig U F) (modes : Map BackendMode)
        (st after : RuntimeState U F) (x : RuntimeApplyError)
        → apply_checked uris now config modes st ≡ returned (err x) after
        → (st ≡ after)
          × ((y : ReconcileError) × (x ≡ reconcile_error y)
              × (reconcile (specs_of uris config.backends) st.registry
                  ≡ returned (err y) after.registry))
    unfolding apply_checked publish
    apply_checked-err now config modes st after x e =
        elim (Option-cases (
          assign_generations uris st.inner.config.backends st.inner.backend_generations
            st.inner.next_backend_generation config.backends [])) [
              | inl panics ↦ absurd (ground arith)
              | inr ((generations, next), given) ↦
                  elim (Outcome-cases
                    (reconcile_modes uris now modes config.backends st.registry)) [
                      | inr (u, broken) ↦ absurd (ground arith)
                      | inl (ok report, u, ran) ↦ absurd (ground arith)
                      | inl (err y, u, ran) ↦
                          let (refused, same) =
                            reconcile_modes-err uris now modes config.backends st.registry u y
                              ran in
                          (ground arith, (y, ground arith, ground arith))
                    ]
            ]

    -- A configuration that is refused changes nothing of what is published and of the registry.
    pub apply_with_modes-err :
        (now : ℕ) (config : RuntimeConfig U F) (modes : Map BackendMode)
        (st after : RuntimeState U F) (x : RuntimeApplyError)
        → apply_with_modes uris now config modes st ≡ returned (err x) after
        → after ≡ st
    unfolding apply_with_modes
    apply_with_modes-err now config modes st after x e =
        elim (Option-cases
          (check_current uris now st.registry config.backends st.inner.config.backends)) [
            | inr (y, bad) ↦ ground arith
            | inl fine ↦ sym (apply_checked-err now config modes st after x (ground arith)).0
          ]

    -- A configuration that was parsed is never refused by the registry: its ids occur once.
    pub apply_with_modes-parse_file :
        (in_soft_range : F → Bool) (file : RuntimeFile F) (config : RuntimeConfig U F) (now : ℕ)
        (modes : Map BackendMode) (st after : RuntimeState U F) (y : ReconcileError)
        → parse_file uris in_soft_range file ≡ ok config
        → apply_with_modes uris now config modes st ≢ returned (err (reconcile_error y)) after
    unfolding apply_with_modes
    apply_with_modes-parse_file in_soft_range file config now modes st after y p e =
        let accepted = parse_file-IsAccepted uris in_soft_range file config p in
        elim (Option-cases
          (check_current uris now st.registry config.backends st.inner.config.backends)) [
            | inr (x, bad) ↦
                check_current-reason now st.registry config.backends st.inner.config.backends y
                  (bad ∙ ground arith)
            | inl fine ↦
                let (same, (z, is, refused)) =
                  apply_checked-err now config modes st after (reconcile_error y) (ground arith) in
                reconcile-once (specs_of uris config.backends) st.registry after.registry z
                  (λ id. Unrepeated-once uris id [] config.backends accepted.ids_distinct)
                  (ap (λ (s : RuntimeState U F). s.registry) same) refused
          ]

    -- A configuration with distinct ids that is applied is published with the next revision. A backend
    -- whose slot was not disabled, or held a lease, is in it with the same URL, metrics URL and readiness
    -- URL. Each backend has its old generation, if these URLs are the old ones, or else one that was not
    -- given before.
    pub apply_with_modes-ok :
        (now : ℕ) (config : RuntimeConfig U F) (modes : Map BackendMode)
        (st after : RuntimeState U F) (report : RuntimeReloadReport)
        → Unrepeated uris [] config.backends
        → apply_with_modes uris now config modes st ≡ returned (ok report) after
        → (after.inner.config ≡ config)
          × ((report.revision ≡ st.inner.revision + 1) × (after.inner.revision ≡ report.revision))
          × All (InUseStays uris st.registry config.backends) st.inner.config.backends
          × ((st.inner.next_backend_generation ≤ after.inner.next_backend_generation)
              × All
                  (Assigned uris st.inner.config.backends st.inner.backend_generations
                    st.inner.next_backend_generation after.inner.next_backend_generation
                    after.inner.backend_generations)
                  config.backends)
    unfolding apply_with_modes apply_checked publish
    apply_with_modes-ok now config modes st after report distinct e =
        elim (Option-cases
          (check_current uris now st.registry config.backends st.inner.config.backends)) [
            | inr (y, bad) ↦ absurd (ground arith)
            | inl fine ↦
                elim (Option-cases (
                  assign_generations uris st.inner.config.backends st.inner.backend_generations
                    st.inner.next_backend_generation config.backends [])) [
                      | inl panics ↦ absurd (ground arith)
                      | inr ((generations, next), given) ↦
                          elim (Outcome-cases
                            (reconcile_modes uris now modes config.backends st.registry)) [
                              | inr (u, broken) ↦ absurd (ground arith)
                              | inl (err y, u, ran) ↦ absurd (ground arith)
                              | inl (ok done, u, ran) ↦
                                  elim (Option-cases (checked_increment st.inner.revision)) [
                                    | inl full ↦ absurd (ground arith)
                                    | inr (revision, room) ↦
                                        let (grows, others, all) =
                                          assign_generations-Assigned uris st.inner.config.backends
                                            st.inner.backend_generations
                                            st.inner.next_backend_generation config.backends [] []
                                            generations next distinct given in
                                        let is_next : next ≡ after.inner.next_backend_generation =
                                          ground arith in
                                        let is_map : generations ≡ after.inner.backend_generations =
                                          ground arith in
                                        (
                                          ground arith,
                                          (ground arith, ground arith),
                                          All-InUseStays now st.registry config.backends
                                              st.inner.config.backends
                                              (check_current-none uris now st.registry
                                                config.backends st.inner.config.backends fine),
                                          (
                                            rw (sym is_next) grows,
                                            rw (sym is_next) (rw (sym is_map) all),
                                          ),
                                        )
                                  ]
                            ]
                    ]
          ]
