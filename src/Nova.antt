-- ===== src/Nova.antt =====
-- libs/provider-llamactl/src/llamactl.adapter.ts and libs/provider-fromfile/src/fromfile-provider.module.ts:
-- the translators between the gateway's types and those of the nova providers, which both adapters
-- wrap. Nova itself is not modelled: what its calls give is an argument. `N` is the type of numbers.
mod Tests
pub mod Llamactl
pub mod SiriusAdapter
pub mod Registration
use mathlib.Core.Option
use mathlib.Core.Option.{get_or}
use sirius_gateway.Base.{
  ℕ, String, Bool, List, [], ◌∷◌, Option, some, none, map, truthy, is_blank, if◌then◌else◌,
}
use sirius_gateway.Core.Messages.{
  UnifiedRole, PartType, UnifiedContentPart, Content, plain, parts, UnifiedToolCall, UnifiedMessage,
  UnifiedAiRequest, UnifiedFinishReason, UnifiedContent, UnifiedAiResponse, UnifiedEmbeddingRequest,
  UnifiedEmbeddingResponse, EmbeddingInput, UnifiedStreamEvent,
}
use sirius_gateway.Core.Models.{ModelInfo, ProviderHealth, ProviderStatus}
use sirius_gateway.OpenAi.Types.{OpenAiUsage}

pub data ContentBlock : Type 0 where
  text : String → ContentBlock
  image_url : (url : String) (detail : Option String) → ContentBlock

pub data NovaContent : Type 0 where
  whole : String → NovaContent
  blocks : List ContentBlock → NovaContent

pub record NovaMessage : Type 0 where
  pub role : UnifiedRole
  pub content : NovaContent
  pub name : Option String
  pub tool_call_id : Option String
  pub tool_calls : Option (List UnifiedToolCall)

-- The fields that the two adapters set.
pub record NovaRequest (N : Type 0) : Type 0 where
  pub model : String
  pub messages : List NovaMessage
  pub stream : Bool
  pub temperature : Option N
  pub top_p : Option N
  pub max_tokens : Option ℕ
  pub stop : Option (List String)
  pub user : Option String

-- The content, if it is a text.
pub record NovaChoice : Type 0 where
  pub content : Option String
  pub finish_reason : Option UnifiedFinishReason

pub record NovaResponse (N : Type 0) : Type 0 where
  pub id : String
  pub model : String
  pub choices : List NovaChoice
  pub usage : Option OpenAiUsage
  pub latency_ms : Option N

pub data Completion : Type 0 where
  upstream eof : Completion

-- `chunk` has the content of its first choice, if it is a text.
pub data NovaStreamEvent : Type 0 where
  chunk : (content : Option String) → NovaStreamEvent
  error : (message : String) (code : Option String) → NovaStreamEvent
  done : (finish_reason : Option String) → Completion → NovaStreamEvent
  tool_call : NovaStreamEvent

-- How the iteration over a nova stream ends.
pub data Ending : Type 0 where
  ended : Ending
  thrown : (message : String) → Ending

-- The embedding of a row is nothing if it is no array.
pub record NovaEmbeddingResponse (N : Type 0) : Type 0 where
  pub model : String
  pub rows : List (Option (List N))
  pub usage : Option OpenAiUsage
  pub latency_ms : Option N

content_block : PartType → UnifiedContentPart → ContentBlock
content_block PartType.text p = text (get_or p.text "")
content_block PartType.image_url p = image_url (get_or p.image_url "") (truthy p.detail)

-- `translateContent`, `toNovaContent`
pub translate_content : List UnifiedContentPart → List ContentBlock
unfolding content_block
translate_content ps = map (λ (p : UnifiedContentPart). content_block p.type p) ps

nova_content : Content → NovaContent
unfolding translate_content
nova_content (plain t) = whole t
nova_content (parts ps) = blocks (translate_content ps)

pub nova_message : UnifiedMessage → NovaMessage
unfolding nova_content
nova_message m = record {
  role = m.role;
  content = nova_content m.content;
  name = m.name;
  tool_call_id = m.tool_call_id;
  tool_calls = m.tool_calls;
}

abbrev first_choice : List NovaChoice → NovaChoice
first_choice [] = record { content = none; finish_reason = none }
first_choice (c ∷ cs) = c

abbrev no_usage : OpenAiUsage
no_usage = record { prompt_tokens = 0; completion_tokens = 0; total_tokens = 0 }

module _ {N : Type 0} (zero_ms : N) where
  -- `novaResponseToSirius`; `createResponse` of the other adapter does the same.
  pub nova_response_to_sirius : NovaResponse N → String → UnifiedAiResponse N
  nova_response_to_sirius res provider_name =
      let choice = first_choice res.choices in
      let usage = get_or res.usage no_usage in
      record {
        id = res.id;
        model = res.model;
        provider = provider_name;
        content = UnifiedContent.text (some (get_or choice.content "")) ∷ [];
        finish_reason = get_or choice.finish_reason UnifiedFinishReason.stop;
        usage = record {
          input_tokens = usage.prompt_tokens;
          output_tokens = usage.completion_tokens;
          total_tokens = usage.total_tokens;
        };
        latency_ms = get_or res.latency_ms zero_ms;
      }

  -- `createEmbeddings` of both; the id is drawn from the clock.
  pub nova_embeddings_to_sirius :
      (id : String) → NovaEmbeddingResponse N → String → UnifiedEmbeddingResponse N
  nova_embeddings_to_sirius id res provider_name =
      let usage = get_or res.usage no_usage in
      record {
        id = id;
        model = res.model;
        provider = provider_name;
        embeddings = map (λ (row : Option (List N)). get_or row []) res.rows;
        usage = record {
          input_tokens = usage.prompt_tokens;
          output_tokens = 0;
          total_tokens = usage.total_tokens;
        };
        latency_ms = get_or res.latency_ms zero_ms;
      }

-- A chunk with text is a content delta; a chunk without is nothing.
abbrev pub content_of_chunk : Option String → List UnifiedStreamEvent
content_of_chunk none = []
content_of_chunk (some t) = if is_blank t then [] else UnifiedStreamEvent.content_delta t ∷ []

-- `listModels` of both; nova's models have no provider.
pub record NovaModel : Type 0 where
  pub id : String
  pub created : Option ℕ
  pub owned_by : Option String

-- Nothing when the nova provider has no such method.
pub list_nova_models : Option (List NovaModel) → String → List ModelInfo
list_nova_models none provider_name = []
list_nova_models (some models) provider_name =
    map
      (λ (m : NovaModel). record {
        id = m.id;
        provider = provider_name;
        created = m.created;
        owned_by = m.owned_by;
      })
      models

-- The states that nova reports.
pub data NovaState : Type 0 where
  healthy degraded unhealthy unknown : NovaState

pub record NovaHealth (N : Type 0) : Type 0 where
  pub state : NovaState
  pub latency_ms : Option N
  pub last_checked : ℕ
  pub error : Option String

status_of : NovaState → ProviderStatus
status_of healthy = ProviderStatus.healthy
status_of unhealthy = ProviderStatus.down
status_of degraded = ProviderStatus.degraded
status_of unknown = ProviderStatus.degraded

-- `healthCheck` of both: a nova provider without one counts as healthy.
pub nova_health_to_sirius :
    {N : Type 0} → (now : ℕ) → Option (NovaHealth N) → String → ProviderHealth N
unfolding status_of
nova_health_to_sirius now none provider_name = record {
  provider = provider_name;
  status = ProviderStatus.healthy;
  latency_ms = none;
  last_checked = now;
  error = none;
}
nova_health_to_sirius now (some h) provider_name = record {
  provider = provider_name;
  status = status_of h.state;
  latency_ms = h.latency_ms;
  last_checked = h.last_checked;
  error = truthy h.error;
}
