-- ===== src/Providers/AnthropicAdapter.antt =====
-- libs/provider-anthropic/src/anthropic.adapter.ts. `fetch` is an argument of each operation, as is the
-- time that a call has taken, and the message of the error that JSON.parse throws.
use sirius_gateway.Base.{
  ℕ, String, true, false, List, [], ◌∷◌, Option, some, none, if◌then◌else◌, is_blank, map,
}
use sirius_gateway.Core.Json.{Json}
use sirius_gateway.Core.Models.{ModelInfo, ProviderHealth, healthy, down}
use sirius_gateway.Core.Messages.{UnifiedAiRequest, UnifiedAiResponse, UnifiedStreamEvent}
use sirius_gateway.Policy.Breaker.{Error, thrown, Result, err}
use sirius_gateway.Providers.Fetched.{Fetched, json_refusal, reply, stream_reply}
use sirius_gateway.Providers.AnthropicTypes.{AnthropicRequest, AnthropicResponse}
use sirius_gateway.Providers.AnthropicMapper.{to_anthropic_request, from_anthropic_response}
use sirius_gateway.Providers.AnthropicStream.{AnthropicStreamEvent, parse_anthropic_stream}

module _ (json : Json) (printed : ℕ → String) (parse_error : String) where
  open json use {Value}

  module _ {N : Type 0} where
    send :
        (AnthropicRequest N Value → Fetched (AnthropicResponse Value))
        → N
        → Option (AnthropicRequest N Value)
        → Result (UnifiedAiResponse N)
    send fetch latency_ms none = err (thrown parse_error)
    send fetch latency_ms (some request) =
        reply (json_refusal printed "Anthropic API")
          (λ raw. from_anthropic_response json raw "anthropic" latency_ms) (fetch request)

    pub create_response :
        (AnthropicRequest N Value → Fetched (AnthropicResponse Value))
        → N
        → UnifiedAiRequest N Value
        → Result (UnifiedAiResponse N)
    unfolding send
    create_response fetch latency_ms request =
        send fetch latency_ms (to_anthropic_request json (record request { stream = false }))

    send_stream :
        (parse : String → Option AnthropicStreamEvent)
        → (AnthropicRequest N Value → Fetched (Option (List String)))
        → Option (AnthropicRequest N Value)
        → List UnifiedStreamEvent × Option Error
    send_stream parse fetch none = ([], some (thrown parse_error))
    send_stream parse fetch (some request) =
        stream_reply (json_refusal printed "Anthropic API") (parse_anthropic_stream parse)
          (fetch request)

    -- A body is nothing when the reply has none, and else its decoded chunks.
    pub stream_response :
        (parse : String → Option AnthropicStreamEvent)
        → (AnthropicRequest N Value → Fetched (Option (List String)))
        → UnifiedAiRequest N Value
        → List UnifiedStreamEvent × Option Error
    unfolding send_stream
    stream_response parse fetch request =
        send_stream parse fetch (to_anthropic_request json (record request { stream = true }))

pub create_embeddings : {A : Type 0} → Result A
create_embeddings = err (thrown "Anthropic does not support embeddings. Use a different provider.")

known : String → ModelInfo
known id = record { id = id; provider = "anthropic"; created = none; owned_by = none }

-- `KNOWN_MODELS`
pub list_models : List ModelInfo
unfolding known
list_models = map known (
    "claude-sonnet-4-20250514" ∷ "claude-opus-4-20250514" ∷ "claude-3-7-sonnet-20250219"
    ∷ "claude-3-5-sonnet-20241022" ∷ "claude-3-5-haiku-20241022" ∷ "claude-3-opus-20240229"
    ∷ "claude-3-haiku-20240307" ∷ [])

-- Healthy if there is a key.
pub health_check : {N : Type 0} → (api_key : String) → (now : ℕ) → ProviderHealth N
health_check api_key now =
    if is_blank api_key
    then record {
      provider = "anthropic";
      status = down;
      latency_ms = none;
      last_checked = now;
      error = some "API key not configured";
    }
    else record {
      provider = "anthropic";
      status = healthy;
      latency_ms = none;
      last_checked = now;
      error = none;
    }
