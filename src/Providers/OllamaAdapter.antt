-- ===== src/Providers/OllamaAdapter.antt =====
-- libs/provider-ollama/src/ollama.adapter.ts. `fetch` is an argument of each operation, as is the time
-- that a call has taken.
use sirius_gateway.Base.{ℕ, String, true, false, List, Option, some, none, map, ◌&◌}
use sirius_gateway.Core.Json.{Json}
use sirius_gateway.Core.Models.{ModelInfo, ProviderHealth, healthy, down}
use sirius_gateway.Core.Messages.{
  UnifiedAiRequest, UnifiedAiResponse, UnifiedEmbeddingRequest, UnifiedEmbeddingResponse,
  UnifiedStreamEvent,
}
use sirius_gateway.Policy.Breaker.{Error, Result}
use sirius_gateway.Providers.Fetched.{
  Fetched, unreachable, not_ok, fetched, text_refusal, reply, stream_reply,
}
use sirius_gateway.Providers.OllamaMapper.{
  OllamaChatRequest, OllamaChatResponse, OllamaEmbedRequest, OllamaEmbedResponse, to_ollama_request,
  from_ollama_response, to_ollama_embed_request, from_ollama_embed_response,
}
use sirius_gateway.Providers.OllamaStream.{OllamaChatChunk, parse_ollama_stream}

module _ (json : Json) (fresh : ℕ → String) (printed : ℕ → String) where
  open json use {Value}

  module _ {N : Type 0} where
    pub create_response :
        (id : String)
        → (OllamaChatRequest N Value → Fetched (OllamaChatResponse Value))
        → N
        → UnifiedAiRequest N Value
        → Result (UnifiedAiResponse N)
    create_response id fetch latency_ms request =
        reply (text_refusal printed "Ollama API")
          (λ raw. from_ollama_response json fresh id raw "ollama" latency_ms)
          (fetch (to_ollama_request json (record request { stream = false })))

    -- A body is nothing when the reply has none, and else its decoded chunks.
    pub stream_response :
        (parse_chunk : String → Option (OllamaChatChunk Value))
        → (OllamaChatRequest N Value → Fetched (Option (List String)))
        → UnifiedAiRequest N Value
        → List UnifiedStreamEvent × Option Error
    stream_response parse_chunk fetch request =
        stream_reply (text_refusal printed "Ollama API")
          (parse_ollama_stream json fresh parse_chunk)
          (fetch (to_ollama_request json (record request { stream = true })))

module _ (printed : ℕ → String) where
  pub create_embeddings :
      {N : Type 0}
      → (id : String) → (OllamaEmbedRequest → Fetched (OllamaEmbedResponse N))
      → N
      → UnifiedEmbeddingRequest
      → Result (UnifiedEmbeddingResponse N)
  create_embeddings id fetch latency_ms request =
      reply (text_refusal printed "Ollama Embed API")
        (λ raw. from_ollama_embed_response id raw "ollama" latency_ms)
        (fetch (to_ollama_embed_request request))

  model_info : String → ModelInfo
  model_info name = record {
    id = name;
    provider = "ollama";
    created = none;
    owned_by = some "local";
  }

  -- The names of the reply's models are read.
  pub list_models : Fetched (List String) → Result (List ModelInfo)
  unfolding model_info
  list_models names = reply (text_refusal printed "Ollama Tags API") (map model_info) names

  report : {N : Type 0} → N → (now : ℕ) → Option String → ProviderHealth N
  report latency_ms now none = record {
    provider = "ollama";
    status = healthy;
    latency_ms = some latency_ms;
    last_checked = now;
    error = none;
  }
  report latency_ms now (some error) = record {
    provider = "ollama";
    status = down;
    latency_ms = some latency_ms;
    last_checked = now;
    error = some error;
  }

  abbrev problem_of : {A : Type 0} → Fetched A → Option String
  problem_of (unreachable message) = some message
  problem_of (not_ok r) = some ("HTTP " & printed r.status & ": " & r.status_text)
  problem_of (fetched body) = none

  -- Healthy if the root answers.
  pub health_check : {N A : Type 0} → N → (now : ℕ) → Fetched A → ProviderHealth N
  unfolding report
  health_check latency_ms now root = report latency_ms now (problem_of root)
