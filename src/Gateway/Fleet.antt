-- ===== src/Gateway/Fleet.antt =====
-- apps/sirius-api/src/gateway.service.ts: `listModels` and `getProviderHealth`, which ask every
-- provider and wait until all have settled.
pub mod Reports
use sirius_gateway.Base.{ℕ, String, List, [], ◌∷◌, ◌++◌, Option, some, none, or_else, map}
use sirius_gateway.Base.Dict.{Dict}
use sirius_gateway.Core.Numbers.{Numbers}
use sirius_gateway.Core.Models.{ModelInfo, ProviderHealth, down}
use sirius_gateway.Core.ProviderRegistry
use sirius_gateway.Observability.LatencyTracker.{get_average_latency}
use sirius_gateway.Gateway.Providers.{Settled, fulfilled, rejected, Provider}

-- The models of the fulfilled results.
collect_models : List (Settled (List ModelInfo)) → List ModelInfo
collect_models [] = []
collect_models (fulfilled models ∷ results) = models ++ collect_models results
collect_models (rejected reason ∷ results) = collect_models results

module _ (F : Numbers) (J : Type 0) where
  open F use {Num}

  pub list_models : Dict (Provider F J) → List ModelInfo
  unfolding collect_models
  list_models providers =
      collect_models (map (λ p. p.list_models) (ProviderRegistry.get_all providers))

  -- The report on one provider, at time `now`.
  pub health_report :
      Dict (List Num) → (now : ℕ) → String → Settled (ProviderHealth Num) → ProviderHealth Num
  health_report latencies now name (fulfilled h) = record h {
    latency_ms = or_else (get_average_latency F h.provider latencies) h.latency_ms;
  }
  health_report latencies now name (rejected reason) = record {
    provider = name;
    status = down;
    latency_ms = none;
    last_checked = now;
    error = some reason;
  }

  pub get_provider_health :
      Dict (Provider F J) → Dict (List Num) → (now : ℕ) → List (ProviderHealth Num)
  unfolding health_report
  get_provider_health providers latencies now =
      map (λ b. health_report latencies now b.0 b.1.health_check) providers
