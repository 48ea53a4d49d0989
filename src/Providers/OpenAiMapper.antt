-- ===== src/Providers/OpenAiMapper.antt =====
-- libs/provider-openai/src/openai.mapper.ts and openai.types.ts. The types have "Wire" in front where
-- libs/sirius-compat-openai has a type of that name. Ids drawn from the clock are arguments.
pub mod Transparency
use mathlib.Core.Option
use mathlib.Core.Option.{get_or}
use sirius_gateway.Base.{
  if_any, ℕ, String, Bool, List, [], ◌∷◌, ◌++◌, Option, some, none, if◌then◌else◌, ◌==◌, filter,
  map, join, truthy, or_else, is_blank, true, false,
}
use sirius_gateway.Core.Messages.{
  UnifiedRole, PartType, UnifiedContentPart, Content, plain, parts, UnifiedToolCall, UnifiedMessage,
  UnifiedTool, UnifiedToolChoice, UnifiedResponseFormat, StreamOptions, UnifiedAiRequest,
  UnifiedFinishReason, UnifiedContent, UnifiedAiResponse, UnifiedEmbeddingRequest,
  UnifiedEmbeddingResponse, EmbeddingInput,
}
use sirius_gateway.OpenAi.Types.{OpenAiUsage}

pub record WireContentPart : Type 0 where
  pub type : PartType
  pub text : Option String
  pub url : Option String

-- `string | OpenAiContentPart[] | null`
pub data WireContent : Type 0 where
  null : WireContent
  whole : String → WireContent
  pieces : List WireContentPart → WireContent

pub record WireMessage : Type 0 where
  pub role : UnifiedRole
  pub content : WireContent
  pub name : Option String
  pub tool_call_id : Option String
  pub tool_calls : Option (List UnifiedToolCall)

pub record WireChatRequest (N J : Type 0) : Type 0 where
  pub model : String
  pub messages : List WireMessage
  pub stream : Bool
  pub temperature : Option N
  pub top_p : Option N
  pub max_tokens : Option ℕ
  pub stop : Option (List String)
  pub user : Option String
  pub tools : Option (List (UnifiedTool J))
  pub tool_choice : Option UnifiedToolChoice
  pub stream_options : Option StreamOptions
  pub response_format : Option (UnifiedResponseFormat J)

pub record WireChoice : Type 0 where
  pub message : WireMessage
  pub finish_reason : Option String

pub record WireChatResponse : Type 0 where
  pub id : String
  pub model : String
  pub choices : List WireChoice
  pub usage : Option OpenAiUsage

pub record WireEmbeddingRequest : Type 0 where
  pub model : String
  pub input : EmbeddingInput
  pub dimensions : Option ℕ
  pub user : Option String

pub record WireEmbeddingUsage : Type 0 where
  pub prompt_tokens : Option ℕ
  pub total_tokens : Option ℕ

pub record WireEmbeddingResponse (N : Type 0) : Type 0 where
  pub model : String
  pub embeddings : List (List N)
  pub usage : Option WireEmbeddingUsage

content_part : PartType → UnifiedContentPart → WireContentPart
content_part PartType.image_url p = record {
  type = PartType.image_url;
  text = none;
  url = some (get_or p.image_url "");
}
content_part PartType.text p = record {
  type = PartType.text;
  text = some (get_or p.text "");
  url = none;
}

-- `mapContentPart`
pub map_content_part : UnifiedContentPart → WireContentPart
unfolding content_part
map_content_part p = content_part p.type p

map_content : Content → WireContent
unfolding map_content_part
map_content (plain t) = whole t
map_content (parts ps) = pieces (map map_content_part ps)

pub open_ai_message : UnifiedMessage → WireMessage
unfolding map_content
open_ai_message msg = record {
  role = msg.role;
  content = map_content msg.content;
  name = truthy msg.name;
  tool_call_id = truthy msg.tool_call_id;
  tool_calls = msg.tool_calls;
}

pub to_open_ai_request : {N J : Type 0} → UnifiedAiRequest N J → WireChatRequest N J
unfolding open_ai_message
to_open_ai_request unified = record {
  model = unified.model;
  messages = map open_ai_message unified.messages;
  stream = unified.stream;
  temperature = unified.temperature;
  top_p = unified.top_p;
  max_tokens = unified.max_tokens;
  stop = unified.stop;
  user = truthy unified.user;
  tools = if_any (get_or unified.tools []);
  tool_choice = unified.tool_choice;
  stream_options = unified.stream_options;
  response_format = unified.response_format;
}

-- `FINISH_REASON_MAP[raw] ?? 'stop'`; no reason is `stop` too.
pub unified_finish_reason : Option String → UnifiedFinishReason
unified_finish_reason none = UnifiedFinishReason.stop
unified_finish_reason (some raw) =
    if raw == "length"
    then UnifiedFinishReason.length
    else if raw == "tool_calls"
    then UnifiedFinishReason.tool_calls
    else if raw == "content_filter"
    then UnifiedFinishReason.content_filter
    else UnifiedFinishReason.stop

abbrev is_text_piece : WireContentPart → Bool
is_text_piece p = elim p.type [ PartType.text ↦ true | PartType.image_url ↦ false ]

pub response_text : WireContent → String
response_text null = ""
response_text (whole t) = t
response_text (pieces ps) =
    join "" (map (λ (p : WireContentPart). get_or p.text "") (filter is_text_piece ps))

text_items : String → List UnifiedContent
text_items t = if is_blank t then [] else UnifiedContent.text (some t) ∷ []

message_items : WireMessage → List UnifiedContent
unfolding text_items response_text
message_items m =
    text_items (response_text m.content)
    ++ map (λ (tc : UnifiedToolCall). UnifiedContent.tool_call (some tc)) (get_or m.tool_calls [])

abbrev first_choice : List WireChoice → Option WireChoice
first_choice [] = none
first_choice (c ∷ cs) = some c

choice_items : Option WireChoice → List UnifiedContent
unfolding message_items
choice_items none = []
choice_items (some c) = message_items c.message

choice_reason : Option WireChoice → Option String
choice_reason none = none
choice_reason (some c) = c.finish_reason

abbrev no_usage : OpenAiUsage
no_usage = record { prompt_tokens = 0; completion_tokens = 0; total_tokens = 0 }

pub from_open_ai_response : {N : Type 0} → WireChatResponse → String → N → UnifiedAiResponse N
unfolding choice_items choice_reason unified_finish_reason
from_open_ai_response raw provider latency_ms =
    let usage = get_or raw.usage no_usage in
    record {
      id = raw.id;
      model = raw.model;
      provider = provider;
      content = choice_items (first_choice raw.choices);
      finish_reason = unified_finish_reason (choice_reason (first_choice raw.choices));
      usage = record {
        input_tokens = usage.prompt_tokens;
        output_tokens = usage.completion_tokens;
        total_tokens = usage.total_tokens;
      };
      latency_ms = latency_ms;
    }

pub to_open_ai_embedding_request : UnifiedEmbeddingRequest → WireEmbeddingRequest
to_open_ai_embedding_request unified = record {
  model = unified.model;
  input = unified.input;
  dimensions = unified.dimensions;
  user = truthy unified.user;
}

abbrev no_embedding_usage : WireEmbeddingUsage
no_embedding_usage = record { prompt_tokens = none; total_tokens = none }

pub from_open_ai_embedding_response :
    {N : Type 0} → (id : String) → WireEmbeddingResponse N → String → N → UnifiedEmbeddingResponse N
from_open_ai_embedding_response id raw provider latency_ms =
    let usage = get_or raw.usage no_embedding_usage in
    record {
      id = id;
      model = raw.model;
      provider = provider;
      embeddings = raw.embeddings;
      usage = record {
        input_tokens = get_or usage.prompt_tokens 0;
        output_tokens = 0;
        total_tokens = get_or (or_else usage.total_tokens usage.prompt_tokens) 0;
      };
      latency_ms = latency_ms;
    }
