-- ===== src/Gateway/Responses.antt =====
-- apps/sirius-api/src/gateway.service.ts: `createResponse` and `createEmbeddings`.
pub mod Replies
use sirius_gateway.Base.{
  ℕ, zero, suc, String, Bool, true, false, List, [], ◌∷◌, Option, some, none, if◌then◌else◌, ltb,
  is_blank,
}
use sirius_gateway.Base.Dict.{Dict}
use sirius_gateway.Core.Numbers.{Numbers}
use sirius_gateway.Core.Models.{RoutingDecision}
use sirius_gateway.Core.Messages.{
  UnifiedAiRequest, UnifiedTool, UnifiedAiResponse, UnifiedEmbeddingResponse,
  UnifiedEmbeddingRequest,
}
use sirius_gateway.Core.ProviderRegistry
use sirius_gateway.Observability.LatencyTracker.{record_latency}
use sirius_gateway.Routing.Service.{Sources, RouteRequest, route}
use sirius_gateway.Policy.Breaker.{Settings, CircuitState, Error, Result, ok, err}
use sirius_gateway.Policy.Retry.{Attempt, Caller, execute_with_policy}
use sirius_gateway.Gateway.Providers.{Upstream, Provider}
use sirius_gateway.Gateway.Chain.{Link, build_provider_chain}

pub record GatewayMeta (N : Type 0) : Type 0 where
  pub provider : String
  pub model : String
  pub strategy : String
  pub tokens_used : ℕ
  pub provider_latency_ms : N
  pub fallback_used : Bool

-- How a gateway call ends. The errors are those that it makes, with what their messages name, and
-- the provider's.
pub data Reply (R : Type 0) : Type 0 where
  replied : R → Reply R
  no_provider : (reason : String) → Reply R
  not_registered : (provider : String) → Reply R
  all_failed : (last : Option Error) (model : String) → Reply R
  failed : Error → Reply R

-- What the call changes: the circuits of the policy and the windows of the latency tracker.
pub record GatewayState (N : Type 0) : Type 0 where
  pub circuits : Dict CircuitState
  pub latencies : Dict (List N)

module _ (F : Numbers) (J : Type 0) where
  open F use {Num}

  abbrev pub Response : Type 0
  Response = UnifiedAiResponse Num × GatewayMeta Num

  with_meta : String → Link (Provider F J) → ℕ → UnifiedAiResponse Num → Response
  with_meta strategy l i response = (
    response,
    record {
      provider = l.name;
      model = l.model_id;
      strategy = strategy;
      tokens_used = response.usage.total_tokens;
      provider_latency_ms = response.latency_ms;
      fallback_used = ltb 0 i;
    },
  )

  -- The loop of `createResponse` over the chain, from index `i`.
  respond_from :
      Settings
      → String
      → UnifiedAiRequest Num J
      → List (Link (Provider F J))
      → ℕ
      → Option Error
      → GatewayState Num
      → Reply Response × GatewayState Num
  unfolding with_meta
  respond_from s strategy request [] i last st = (all_failed last request.model, st)
  respond_from s strategy request (l ∷ chain) i last st =
      let up = l.provider.create_response (record request { model = l.model_id }) in
      let x = execute_with_policy s l.name up.attempts up.caller up.now st.circuits in
      elim x.result [
        | ok response ↦ (
          replied (with_meta strategy l i response),
          record {
            circuits = x.circuits;
            latencies = record_latency l.name response.latency_ms st.latencies;
          },
        )
        | err e ↦
            if up.aborted
            then (failed e, record st { circuits = x.circuits })
            else respond_from s strategy request chain (suc i) (some e)
                (record st { circuits = x.circuits })
      ]

  sources_of : Sources (Provider F J) Num → GatewayState Num → Sources (Provider F J) Num
  sources_of sources st = record sources { latencies = st.latencies }

  -- The call once it is routed.
  pub respond :
      Settings
      → UnifiedAiRequest Num J
      → Dict (Provider F J)
      → RoutingDecision
      → GatewayState Num
      → Reply Response × GatewayState Num
  unfolding respond_from
  respond s request providers decision st =
      if is_blank decision.selected_provider
      then (no_provider decision.reason, st)
      else respond_from s decision.strategy request (build_provider_chain decision providers) 0 none
          st

  -- The model registry, the providers and the time are in `sources`; the latencies are the state's.
  pub create_response :
      Settings
      → Sources (Provider F J) Num
      → UnifiedAiRequest Num J
      → GatewayState Num
      → Reply Response × GatewayState Num
  unfolding respond sources_of
  create_response s sources request st =
      respond s request sources.provider_registry
        (route F (sources_of sources st)
          (record {
            model = request.model;
            stream = false;
            tools = request.tools;
            embeddings = none;
          })
          none)
        st

  abbrev no_tools : Option (List (UnifiedTool J))
  no_tools = none

  embed_with :
      Settings
      → UnifiedEmbeddingRequest
      → String
      → Option (Provider F J)
      → GatewayState Num
      → Reply (UnifiedEmbeddingResponse Num) × GatewayState Num
  embed_with s request name none st = (not_registered name, st)
  embed_with s request name (some p) st =
      let up = p.create_embeddings request in
      let x = execute_with_policy s name up.attempts up.caller up.now st.circuits in
      elim x.result [
        | ok response ↦ (
          replied response,
          record {
            circuits = x.circuits;
            latencies = record_latency name response.latency_ms st.latencies;
          },
        )
        | err e ↦ (failed e, record st { circuits = x.circuits })
      ]

  embed :
      Settings
      → UnifiedEmbeddingRequest
      → Dict (Provider F J)
      → RoutingDecision
      → GatewayState Num
      → Reply (UnifiedEmbeddingResponse Num) × GatewayState Num
  unfolding embed_with
  embed s request providers decision st =
      if is_blank decision.selected_provider
      then (no_provider decision.reason, st)
      else embed_with s request decision.selected_provider
          (ProviderRegistry.get decision.selected_provider providers) st

  pub create_embeddings :
      Settings
      → Sources (Provider F J) Num
      → UnifiedEmbeddingRequest
      → GatewayState Num
      → Reply (UnifiedEmbeddingResponse Num) × GatewayState Num
  unfolding embed sources_of
  create_embeddings s sources request st =
      embed s request sources.provider_registry
        (route F (sources_of sources st)
          (record {
            model = request.model;
            stream = false;
            tools = no_tools;
            embeddings = some true;
          })
          none)
        st
