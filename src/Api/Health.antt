-- ===== src/Api/Health.antt =====
-- apps/sirius-api/src/controllers/health.controller.ts.
mod Tests
pub mod Reloading
use sirius_gateway.Base.{
  ℕ, String, Bool, true, false, List, [], ◌∷◌, ◌++◌, Option, some, none, map, all, length,
}
use sirius_gateway.Base.Dict.{Dict}
use sirius_gateway.Core.Models.{
  ModelCapabilityMatrix, ProviderHealth, ProviderStatus, healthy, degraded, down,
}
use sirius_gateway.Policy.Breaker.{CircuitState, get_circuit_breaker_state}
use sirius_gateway.Registry.ModelRegistry.{ModelRegistry, list_models}
use sirius_gateway.Registry.ModelDiscovery.{Probe, backfill_provider_by_name}
use sirius_gateway.FromFile.{SiriusProviderFileEntry, Built}
use sirius_gateway.FromFile.Reconcile.{
  FromFileReloadResult, FromFileReloadService, distinct_from, reload,
}

pub record ProviderReport (N : Type 0) : Type 0 where
  pub provider : String
  pub status : ProviderStatus
  pub latency_ms : Option N
  pub is_open : Bool
  pub failures : ℕ
  pub error : Option String

abbrev is_healthy : ProviderStatus → Bool
is_healthy healthy = true
is_healthy degraded = false
is_healthy down = false

abbrev pub probes_of : {P : Type 0} → (P → Probe) → Dict P → Dict Probe
probes_of probe_of registry = map (λ (b : String × _). (b.0, probe_of b.1)) registry

module _ {N : Type 0} where
  -- `health`: how many providers have a model, and how many models there are.
  pub health_stats : ModelRegistry N → ℕ × ℕ
  health_stats r =
      let models = list_models r in
      (
        length (distinct_from [] (map (λ (m : ModelCapabilityMatrix N). m.provider) models)),
        length models,
      )

  report_of : Dict CircuitState → ProviderHealth N → ProviderReport N
  report_of circuits h =
      let circuit = get_circuit_breaker_state h.provider circuits in
      record {
        provider = h.provider;
        status = h.status;
        latency_ms = h.latency_ms;
        is_open = circuit.is_open;
        failures = circuit.failures;
        error = h.error;
      }

  -- `providersHealth`, given what the gateway reports: whether all is well, and each provider.
  pub providers_health :
      List (ProviderHealth N) → Dict CircuitState → Bool × List (ProviderReport N)
  unfolding report_of
  providers_health health circuits =
      (all (λ (h : ProviderHealth N). is_healthy h.status) health, map (report_of circuits) health)

  -- The backfill of the named providers, in the order in which their probes settle.
  pub backfill_names : List String → Dict Probe → ModelRegistry N → ModelRegistry N
  backfill_names [] probes r = r
  backfill_names (name ∷ names) probes r =
      backfill_names names probes (backfill_provider_by_name name probes r).0

  module _ {P : Type 0} (build_entry : SiriusProviderFileEntry → Built P)
      (probe_of : P → Probe) where
    -- `providersReload`; nothing when the reload throws. `settled` puts names in the order in which
    -- their probes settle.
    pub providers_reload :
        (load : String → Option (List SiriusProviderFileEntry))
        → (settled : List String → List String) → FromFileReloadService build_entry
        → ModelRegistry N
        → Option FromFileReloadResult × FromFileReloadService build_entry × ModelRegistry N
    unfolding backfill_names
    providers_reload load settled s models =
        let x = reload build_entry load s in
        elim x.0 [
          | none ↦ (none, x.1, models)
          | some result ↦ (
            some result,
            x.1,
            backfill_names (settled (result.added ++ result.kept)) (probes_of probe_of x.1.registry)
                models,
          )
        ]
