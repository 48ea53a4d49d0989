-- ===== src/Providers/OpenAiAdapter.antt =====
-- libs/provider-openai/src/openai.adapter.ts. `fetch` is an argument of each operation, as is the time
-- that a call has taken.
mod Tests
pub mod Refusals
use sirius_gateway.Base.{ℕ, String, Bool, true, false, List, Option, some, none, map, ◌&◌}
use sirius_gateway.Core.Models.{ModelInfo, ProviderHealth, healthy, down}
use sirius_gateway.Core.Messages.{
  UnifiedAiRequest, UnifiedAiResponse, UnifiedEmbeddingRequest, UnifiedEmbeddingResponse,
  UnifiedStreamEvent,
}
use sirius_gateway.Policy.Breaker.{Error, Result, ok, err, error_message}
use sirius_gateway.Providers.Fetched.{Fetched, json_refusal, reply, stream_reply}
use sirius_gateway.Providers.OpenAiMapper.{
  WireChatRequest, WireChatResponse, WireEmbeddingRequest, WireEmbeddingResponse,
  to_open_ai_request, from_open_ai_response, to_open_ai_embedding_request,
  from_open_ai_embedding_response,
}
use sirius_gateway.Providers.OpenAiStream.{OpenAiChatChunk, parse_open_ai_stream}

pub record WireModel : Type 0 where
  pub id : String
  pub created : ℕ
  pub owned_by : String

module _ (printed : ℕ → String) where
  module _ {N J : Type 0} where
    pub create_response :
        (WireChatRequest N J → Fetched WireChatResponse)
        → N
        → UnifiedAiRequest N J
        → Result (UnifiedAiResponse N)
    create_response fetch latency_ms request =
        reply (json_refusal printed "OpenAI API")
          (λ raw. from_open_ai_response raw "openai" latency_ms)
          (fetch (to_open_ai_request (record request { stream = false })))

    -- A body is nothing when the reply has none, and else its decoded chunks.
    pub stream_response :
        (parse : String → Option OpenAiChatChunk)
        → (WireChatRequest N J → Fetched (Option (List String)))
        → UnifiedAiRequest N J
        → List UnifiedStreamEvent × Option Error
    stream_response parse fetch request =
        stream_reply (json_refusal printed "OpenAI API") (parse_open_ai_stream parse)
          (fetch (to_open_ai_request (record request { stream = true })))

  module _ {N : Type 0} where
    pub create_embeddings :
        (id : String)
        → (WireEmbeddingRequest → Fetched (WireEmbeddingResponse N))
        → N
        → UnifiedEmbeddingRequest
        → Result (UnifiedEmbeddingResponse N)
    create_embeddings id fetch latency_ms request =
        reply (json_refusal printed "OpenAI Embeddings API")
          (λ raw. from_open_ai_embedding_response id raw "openai" latency_ms)
          (fetch (to_open_ai_embedding_request request))

  model_info : WireModel → ModelInfo
  model_info m = record {
    id = m.id;
    provider = "openai";
    created = some m.created;
    owned_by = some m.owned_by;
  }

  pub list_models : Fetched (List WireModel) → Result (List ModelInfo)
  unfolding model_info
  list_models models = reply (json_refusal printed "OpenAI Models API") (map model_info) models

  health_of : {N : Type 0} → N → (now : ℕ) → Result (List ModelInfo) → ProviderHealth N
  health_of latency_ms now (ok models) = record {
    provider = "openai";
    status = healthy;
    latency_ms = some latency_ms;
    last_checked = now;
    error = none;
  }
  health_of latency_ms now (err e) = record {
    provider = "openai";
    status = down;
    latency_ms = some latency_ms;
    last_checked = now;
    error = some (error_message printed e);
  }

  -- Healthy if the models can be listed.
  pub health_check : {N : Type 0} → N → (now : ℕ) → Fetched (List WireModel) → ProviderHealth N
  unfolding health_of
  health_check latency_ms now models = health_of latency_ms now (list_models models)
