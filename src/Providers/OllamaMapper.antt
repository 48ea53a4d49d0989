-- ===== src/Providers/OllamaMapper.antt =====
-- libs/provider-ollama/src/ollama.mapper.ts and ollama.types.ts. Ids that are drawn from the clock
-- and at random are arguments.
use mathlib.Core.Option
use mathlib.Core.Option.{get_or}
use sirius_gateway.Base.{
  if_any, ℕ, ◌+◌, String, Bool, true, false, List, [], ◌∷◌, ◌++◌, Option, some, none, if◌then◌else◌,
  ◌==◌, ◌||◌, not, is_empty, is_some, filter, map, join, truthy,
}
use sirius_gateway.Core.Json.{Json}
use sirius_gateway.Core.Messages.{
  UnifiedRole, PartType, UnifiedContentPart, Content, plain, parts, UnifiedToolCall, UnifiedMessage,
  UnifiedTool, UnifiedAiRequest, UnifiedFinishReason, UnifiedContent, UnifiedAiResponse,
  UnifiedEmbeddingRequest, UnifiedEmbeddingResponse, EmbeddingInput,
}

pub record OllamaToolCall (J : Type 0) : Type 0 where
  pub name : String
  pub arguments : J

pub record OllamaMessage (J : Type 0) : Type 0 where
  pub role : UnifiedRole
  pub content : String
  pub images : Option (List String)
  pub tool_calls : Option (List (OllamaToolCall J))

pub record OllamaTool (J : Type 0) : Type 0 where
  pub name : String
  pub description : String
  pub parameters : J

pub record OllamaOptions (N : Type 0) : Type 0 where
  pub temperature : Option N
  pub top_p : Option N
  pub num_predict : Option ℕ
  pub stop : Option (List String)

pub record OllamaChatRequest (N J : Type 0) : Type 0 where
  pub model : String
  pub messages : List (OllamaMessage J)
  pub stream : Bool
  pub options : Option (OllamaOptions N)
  pub tools : Option (List (OllamaTool J))

-- Of a response's message the mapper reads the content and the calls.
pub record OllamaChatResponse (J : Type 0) : Type 0 where
  pub model : String
  pub content : String
  pub tool_calls : Option (List (OllamaToolCall J))
  pub done_reason : Option String
  pub prompt_eval_count : Option ℕ
  pub eval_count : Option ℕ

pub record OllamaEmbedRequest : Type 0 where
  pub model : String
  pub input : EmbeddingInput

pub record OllamaEmbedResponse (N : Type 0) : Type 0 where
  pub model : String
  pub embeddings : List (List N)
  pub prompt_eval_count : Option ℕ

-- Tool calls win; only "length" is surfaced.
unfoldable pub map_ollama_finish_reason :
    (has_tool_calls : Bool) → Option String → UnifiedFinishReason
map_ollama_finish_reason true reason = UnifiedFinishReason.tool_calls
map_ollama_finish_reason false none = UnifiedFinishReason.stop
map_ollama_finish_reason false (some reason) =
    if reason == "length" then UnifiedFinishReason.length else UnifiedFinishReason.stop

abbrev is_text : UnifiedContentPart → Bool
is_text p = elim p.type [ PartType.text ↦ true | PartType.image_url ↦ false ]

-- `p.imageUrl` of an image, if it is there.
abbrev image_of : UnifiedContentPart → Option String
image_of p = elim p.type [ PartType.text ↦ none | PartType.image_url ↦ truthy p.image_url ]

content_text : Content → String
content_text (plain t) = t
content_text (parts ps) =
    join "" (map (λ (p : UnifiedContentPart). get_or p.text "") (filter is_text ps))

images_of : List UnifiedContentPart → List String
images_of [] = []
images_of (p ∷ ps) = elim (image_of p) [ none ↦ images_of ps | some url ↦ url ∷ images_of ps ]

content_images : Content → Option (List String)
unfolding images_of
content_images (plain t) = none
content_images (parts ps) = if_any (images_of ps)

-- `Object.keys(options).length > 0`
abbrev any_option : {N : Type 0} → OllamaOptions N → Bool
any_option o = is_some o.temperature || is_some o.top_p || is_some o.num_predict || is_some o.stop

abbrev has_calls : {A : Type 0} → Option (List A) → Bool
has_calls calls = not (is_empty (get_or calls []))

module _ (json : Json) where
  open json use {Value, parse, stringify, empty_object, is_object}

  object_or_empty : Option Value → Value
  object_or_empty none = empty_object
  object_or_empty (some v) = if is_object v then v else empty_object

  -- Empty, malformed or non-object arguments become `{}`.
  pub parse_tool_arguments : String → Value
  unfolding object_or_empty
  parse_tool_arguments raw = object_or_empty (parse raw)

  ollama_call : UnifiedToolCall → OllamaToolCall Value
  unfolding parse_tool_arguments
  ollama_call tc = record { name = tc.name; arguments = parse_tool_arguments tc.arguments }

  calls_of_role : UnifiedRole → Option (List UnifiedToolCall) → Option (List (OllamaToolCall Value))
  unfolding ollama_call
  calls_of_role UnifiedRole.assistant calls =
      Option.map (map ollama_call) (if_any (get_or calls []))
  calls_of_role role calls = none

  pub ollama_message : UnifiedMessage → OllamaMessage Value
  unfolding content_text content_images calls_of_role
  ollama_message msg = record {
    role = msg.role;
    content = content_text msg.content;
    images = content_images msg.content;
    tool_calls = calls_of_role msg.role msg.tool_calls;
  }

  ollama_tool : UnifiedTool Value → OllamaTool Value
  ollama_tool t = record {
    name = t.name;
    description = get_or t.description "";
    parameters = get_or t.parameters empty_object;
  }

  abbrev options_of : {N : Type 0} → UnifiedAiRequest N Value → OllamaOptions N
  options_of unified = record {
    temperature = unified.temperature;
    top_p = unified.top_p;
    num_predict = unified.max_tokens;
    stop = unified.stop;
  }

  pub to_ollama_request : {N : Type 0} → UnifiedAiRequest N Value → OllamaChatRequest N Value
  unfolding ollama_message ollama_tool
  to_ollama_request unified = record {
    model = unified.model;
    messages = map ollama_message unified.messages;
    stream = unified.stream;
    options = if any_option (options_of unified) then some (options_of unified) else none;
    tools = Option.map (map ollama_tool) (if_any (get_or unified.tools []));
  }

  -- The calls of a response, from draw number `n` of an id on.
  call_items : (fresh : ℕ → String) → ℕ → List (OllamaToolCall Value) → List UnifiedContent
  call_items fresh n [] = []
  call_items fresh n (tc ∷ calls) =
      UnifiedContent.tool_call
        (some (record { id = fresh n; name = tc.name; arguments = stringify tc.arguments }))
      ∷ call_items fresh (n + 1) calls

  abbrev text_items : Option String → List UnifiedContent
  text_items none = []
  text_items (some t) = UnifiedContent.text (some t) ∷ []

  pub from_ollama_response :
      {N : Type 0}
      → (fresh : ℕ → String) → (id : String) → OllamaChatResponse Value
      → String
      → N
      → UnifiedAiResponse N
  unfolding call_items map_ollama_finish_reason
  from_ollama_response fresh id raw provider latency_ms = record {
    id = id;
    model = raw.model;
    provider = provider;
    content =
        text_items (truthy (some raw.content)) ++ call_items fresh 0 (get_or raw.tool_calls []);
    finish_reason = map_ollama_finish_reason (has_calls raw.tool_calls) raw.done_reason;
    usage = record {
      input_tokens = get_or raw.prompt_eval_count 0;
      output_tokens = get_or raw.eval_count 0;
      total_tokens = get_or raw.prompt_eval_count 0 + get_or raw.eval_count 0;
    };
    latency_ms = latency_ms;
  }

pub to_ollama_embed_request : UnifiedEmbeddingRequest → OllamaEmbedRequest
to_ollama_embed_request unified = record { model = unified.model; input = unified.input }

pub from_ollama_embed_response :
    {N : Type 0} → (id : String) → OllamaEmbedResponse N → String → N → UnifiedEmbeddingResponse N
from_ollama_embed_response id raw provider latency_ms = record {
  id = id;
  model = raw.model;
  provider = provider;
  embeddings = raw.embeddings;
  usage = record {
    input_tokens = get_or raw.prompt_eval_count 0;
    output_tokens = 0;
    total_tokens = get_or raw.prompt_eval_count 0;
  };
  latency_ms = latency_ms;
}
