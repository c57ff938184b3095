-- ===== src/Control/Reload.antt =====
-- The reload of the configuration by the control plane (src/control.rs), with the modes of its store.
-- Reading and parsing the file is done before, with its outcome here.
use mistralrs_proxy.Prelude.{
  ℕ, ◌*◌, ◌≡◌, refl, sym, ap, ◌∙◌, inl, inr, Option, none, some, List, [], ◌∷◌, arith, Option-cases,
  Str,
}
use mistralrs_proxy.Prelude.Maps.{Map, insert}
use mistralrs_proxy.Prelude.Monad.{returned, panicked, Method, Outcome-cases}
use mistralrs_proxy.Backend.Slot.{Result, ok, err}
use mistralrs_proxy.Routing.Pressure.{BackendConfig}
use mistralrs_proxy.State.{modes}
use mistralrs_proxy.Control.{ControlState, Environment, Clock}
use mistralrs_proxy.Control.Drain.{resume_persisted_drains}
use mistralrs_proxy.Runtime.{Backend, RuntimeConfig, UriOps, PublishedRuntime, RuntimeState}
use mistralrs_proxy.Runtime.Config.{RuntimeConfigError}
use mistralrs_proxy.Runtime.Apply.{RuntimeApplyError, RuntimeReloadReport, apply_with_modes}
use mistralrs_proxy.Runtime.Applied.{apply_with_modes-err}

pub data RuntimeReloadError : Type 0 where
  config_error : RuntimeConfigError → RuntimeReloadError
  apply_error : RuntimeApplyError → RuntimeReloadError

pub record ReloadResponse : Type 0 where
  pub revision : ℕ
  pub added : List Str
  pub revived : List Str
  pub updated : List Str
  pub retired : List Str

unfoldable pub reload_response : RuntimeReloadReport → ReloadResponse
reload_response report = record {
  revision = report.revision;
  added = report.reconciled.added;
  revived = report.reconciled.revived;
  updated = report.reconciled.updated;
  retired = report.reconciled.retired;
}

-- The control plane, with the published configuration.
pub record Served (U F : Type 0) : Type 0 where
  pub control : ControlState F
  pub published : PublishedRuntime U F

module _ {U : Type 0} (uris : UriOps U) where
  -- What the router reads of a published configuration; a backend without a generation is left out,
  -- and of two with one identifier the last counts.
  abbrev configs_from : Map ℕ → Map (BackendConfig × ℕ) → List (Backend U) → Map (BackendConfig × ℕ)
  configs_from generations acc [] = acc
  configs_from generations acc (b ∷ bs) =
      elim (mistralrs_proxy.Prelude.Maps.lookup b.id generations) [
        | none ↦ configs_from generations acc bs
        | some g ↦
            configs_from generations
              (insert b.id (record { url = uris.to_string b.url; capacity = b.capacity }, g) acc) bs
      ]

  abbrev configs_of : Map ℕ → List (Backend U) → Map (BackendConfig × ℕ)
  configs_of generations bs = configs_from generations [] bs

module _ {U F : Type 0} where
  abbrev runtime_of : Served U F → RuntimeState U F
  runtime_of sv = record { inner = sv.published; registry = sv.control.parts.registry }

  abbrev with_runtime : RuntimeState U F → Served U F → Served U F
  with_runtime rt sv = record {
    control = record sv.control { parts = record sv.control.parts { registry = rt.registry } };
    published = rt.inner;
  }

module _ {U F : Type 0} (uris : UriOps U) where
  abbrev environment_of : Environment F → PublishedRuntime U F → Environment F
  environment_of env published = record env {
    configs = configs_of uris published.backend_generations published.config.backends;
    generations = published.backend_generations;
    stale_after = published.config.telemetry.stale_after_ms * 1_000_000;
    kv_soft_limit = published.config.routing.kv_soft_limit;
  }

  -- `env` has what does not come from the configuration.
  unfoldable pub reload :
      Environment F
      → Clock
      → Result (RuntimeConfig U F) RuntimeConfigError
      → Method (Served U F) (Result ReloadResponse RuntimeReloadError)
  unfolding modes apply_with_modes resume_persisted_drains reload_response
  reload env clock loaded sv = elim loaded [
    | err e ↦ returned (err (config_error e)) sv
    | ok config ↦
        elim (apply_with_modes uris clock.instant config (modes sv.control.store.state)
          (runtime_of sv)) [
            | panicked rt ↦ panicked (with_runtime rt sv)
            | returned (err e) rt ↦ returned (err (apply_error e)) (with_runtime rt sv)
            | returned (ok report) rt ↦
                (let after = with_runtime rt sv in
                  returned (ok (reload_response report)) (record after {
                    control =
                        resume_persisted_drains (environment_of env rt.inner) clock after.control;
                  }))
          ]
  ]

  -- A reload that reports an error changes nothing.
  pub reload-err :
      (env : Environment F) (clock : Clock) (loaded : Result (RuntimeConfig U F) RuntimeConfigError)
      (sv after : Served U F) (x : RuntimeReloadError)
      → reload env clock loaded sv ≡ returned (err x) after
      → after ≡ sv
  unfolding reload
  reload-err env clock (err e) sv after x r = ground arith
  reload-err env clock (ok config) sv after x r =
      let fences = modes sv.control.store.state in
      elim (Outcome-cases (apply_with_modes uris clock.instant config fences (runtime_of sv))) [
        | inr (rt, broken) ↦ absurd (ground arith)
        | inl (ok report, rt, ran) ↦ absurd (ground arith)
        | inl (err y, rt, ran) ↦
            let same =
              apply_with_modes-err uris clock.instant config fences (runtime_of sv) rt y ran in
            let is : with_runtime rt sv ≡ after = ground arith in
            sym is ∙ ap (λ t. with_runtime t sv) same
      ]
