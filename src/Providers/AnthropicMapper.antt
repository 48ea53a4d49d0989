-- ===== src/Providers/AnthropicMapper.antt =====
-- libs/provider-anthropic/src/anthropic.mapper.ts.
pub mod Calls
use mathlib.Core.Option
use mathlib.Core.Option.{get_or}
use sirius_gateway.Base.{
  if_any, ℕ, ◌+◌, String, Bool, true, false, List, [], ◌∷◌, ◌++◌, Option, some, none, if◌then◌else◌,
  ◌==◌, ◌&&◌, ◌||◌, not, is_blank, is_empty, is_some, filter, map, join, ◌&◌, truthy, and_then,
}
use sirius_gateway.Core.Json.{Json}
use sirius_gateway.Core.Messages.{
  UnifiedRole, system, user, assistant, tool, PartType, UnifiedContentPart, Content, plain, parts,
  UnifiedToolCall, UnifiedMessage, UnifiedTool, UnifiedToolChoice, UnifiedAiRequest,
  UnifiedFinishReason, UnifiedContent, UnifiedAiResponse,
}
use sirius_gateway.Providers.AnthropicTypes.{
  AnthropicContentBlock, tool_result, AnthropicContent, whole, blocks, AnthropicRole,
  AnthropicMessage, AnthropicTool, AnthropicToolChoice, any_tool, AnthropicRequest, AnthropicUsage,
  AnthropicResponse,
}

-- `STOP_REASON_MAP[raw] ?? 'stop'`; no reason is `stop` too.
pub map_stop_reason : Option String → UnifiedFinishReason
map_stop_reason none = UnifiedFinishReason.stop
map_stop_reason (some raw) =
    if raw == "max_tokens"
    then UnifiedFinishReason.length
    else if raw == "tool_use"
    then UnifiedFinishReason.tool_calls
    else UnifiedFinishReason.stop

abbrev plain_text : Content → String
plain_text (plain t) = t
plain_text (parts ps) = ""

part_text : UnifiedContentPart → String
part_text p = get_or p.text ""

is_text : PartType → Bool
is_text PartType.text = true
is_text PartType.image_url = false

-- The text of a system message.
system_text : Content → String
unfolding is_text part_text
system_text (plain t) = t
system_text (parts ps) =
    join "\n" (map part_text (filter (λ (p : UnifiedContentPart). is_text p.type) ps))

map_tool_choice : Option UnifiedToolChoice → Option AnthropicToolChoice
map_tool_choice none = none
map_tool_choice (some UnifiedToolChoice.none) = some AnthropicToolChoice.none
map_tool_choice (some UnifiedToolChoice.auto) = some AnthropicToolChoice.auto
map_tool_choice (some UnifiedToolChoice.required) = some any_tool
map_tool_choice (some (UnifiedToolChoice.function name)) = some (AnthropicToolChoice.tool name)

-- Without tools there is nothing to forbid.
choice_on_wire : Option AnthropicToolChoice → (has_tools : Bool) → Option AnthropicToolChoice
choice_on_wire none has_tools = none
choice_on_wire (some AnthropicToolChoice.none) has_tools =
    if has_tools then some AnthropicToolChoice.none else none
choice_on_wire (some choice) has_tools = some choice

role_of : UnifiedRole → AnthropicRole
role_of UnifiedRole.assistant = AnthropicRole.assistant
role_of role = AnthropicRole.user

module _ (json : Json) where
  open json use {Value, parse, stringify, empty_object}

  abbrev Block : Type 0
  Block = AnthropicContentBlock Value

  part_block : PartType → UnifiedContentPart → List Block
  part_block PartType.text p = elim (truthy p.text) [
    | none ↦ []
    | some t ↦ AnthropicContentBlock.text t ∷ []
  ]
  part_block PartType.image_url p = elim (truthy p.image_url) [
    | none ↦ []
    | some url ↦ AnthropicContentBlock.text ("[image: " & url & "]") ∷ []
  ]

  part_blocks : List UnifiedContentPart → List Block
  unfolding part_block
  part_blocks [] = []
  part_blocks (p ∷ ps) = part_block p.type p ++ part_blocks ps

  -- A single text block goes out as a text.
  simplified : List Block → AnthropicContent Value
  simplified (AnthropicContentBlock.text t ∷ []) = whole t
  simplified bs = blocks bs

  text_block : String → List Block
  text_block t = if is_blank t then [] else AnthropicContentBlock.text t ∷ []

  -- `JSON.parse(arguments || '{}')`, which throws for a text that is no JSON.
  pub tool_blocks : List UnifiedToolCall → Option (List Block)
  tool_blocks [] = some []
  tool_blocks (tc ∷ calls) =
      and_then (parse (if is_blank tc.arguments then "{}" else tc.arguments)) λ input.
        Option.map (λ bs. AnthropicContentBlock.tool_use tc.id tc.name input ∷ bs)
          (tool_blocks calls)

  user_content : Content → AnthropicContent Value
  unfolding simplified part_blocks
  user_content (plain t) = whole t
  user_content (parts ps) = simplified (part_blocks ps)

  assistant_content : Content → List UnifiedToolCall → Option (AnthropicContent Value)
  unfolding user_content text_block tool_blocks
  assistant_content content [] = some (user_content content)
  assistant_content content (tc ∷ calls) =
      Option.map (λ bs. blocks (text_block (plain_text content) ++ bs)) (tool_blocks (tc ∷ calls))

  -- Nothing if a call's arguments are refused: the function throws.
  content_of : UnifiedRole → UnifiedMessage → Option (AnthropicContent Value)
  unfolding user_content assistant_content
  content_of UnifiedRole.tool m =
      some (blocks (tool_result (get_or m.tool_call_id "") (plain_text m.content) ∷ []))
  content_of UnifiedRole.assistant m = assistant_content m.content (get_or m.tool_calls [])
  content_of role m = some (user_content m.content)

  pub to_anthropic_content : UnifiedMessage → Option (AnthropicContent Value)
  unfolding content_of
  to_anthropic_content m = content_of m.role m

  -- One message before what the rest of the loop comes to.
  split_message :
      UnifiedRole
      → UnifiedMessage
      → Option (List String × List (AnthropicMessage Value))
      → Option (List String × List (AnthropicMessage Value))
  unfolding system_text role_of
  split_message UnifiedRole.system m rest =
      Option.map (λ r. (system_text m.content ∷ r.0, r.1)) rest
  split_message role m rest = and_then (to_anthropic_content m) λ content.
      Option.map (λ r. (r.0, record { role = role_of role; content = content } ∷ r.1)) rest

  -- The loop: the system texts, and the other messages.
  pub split_messages : List UnifiedMessage → Option (List String × List (AnthropicMessage Value))
  unfolding split_message
  split_messages [] = some ([], [])
  split_messages (m ∷ ms) = split_message m.role m (split_messages ms)

  tool_of : UnifiedTool Value → AnthropicTool Value
  tool_of t = record {
    name = t.name;
    description = t.description;
    input_schema = get_or t.parameters empty_object;
  }

  content_item : Block → List UnifiedContent
  content_item (AnthropicContentBlock.text t) = UnifiedContent.text (some t) ∷ []
  content_item (AnthropicContentBlock.tool_use id name input) =
      UnifiedContent.tool_call (some (record { id = id; name = name; arguments = stringify input }))
      ∷ []
  content_item block = []

  pub content_items : List Block → List UnifiedContent
  unfolding content_item
  content_items [] = []
  content_items (b ∷ bs) = content_item b ++ content_items bs

  input_count : Option AnthropicUsage → ℕ
  input_count none = 0
  input_count (some u) = get_or u.input_tokens 0

  output_count : Option AnthropicUsage → ℕ
  output_count none = 0
  output_count (some u) = get_or u.output_tokens 0

  module _ {N : Type 0} where
    request_of :
        UnifiedAiRequest N Value
        → List String × List (AnthropicMessage Value)
        → AnthropicRequest N Value
    unfolding tool_of choice_on_wire map_tool_choice
    request_of unified (system_parts, messages) = record {
      model = unified.model;
      max_tokens = get_or unified.max_tokens 4096;
      messages = messages;
      system = Option.map (join "\n\n") (if_any system_parts);
      stream = unified.stream;
      temperature = unified.temperature;
      top_p = unified.top_p;
      stop_sequences = unified.stop;
      tools = Option.map (map tool_of) (if_any (get_or unified.tools []));
      tool_choice =
          choice_on_wire (map_tool_choice unified.tool_choice)
            (not (is_empty (get_or unified.tools [])));
      user_id = truthy unified.user;
    }

    -- Nothing if the function throws.
    pub to_anthropic_request : UnifiedAiRequest N Value → Option (AnthropicRequest N Value)
    unfolding split_messages request_of
    to_anthropic_request unified = Option.map (request_of unified) (split_messages unified.messages)

    pub from_anthropic_response : AnthropicResponse Value → String → N → UnifiedAiResponse N
    unfolding content_items map_stop_reason input_count output_count
    from_anthropic_response raw provider latency_ms = record {
      id = raw.id;
      model = raw.model;
      provider = provider;
      content = content_items raw.content;
      finish_reason = map_stop_reason raw.stop_reason;
      usage = record {
        input_tokens = input_count raw.usage;
        output_tokens = output_count raw.usage;
        total_tokens = input_count raw.usage + output_count raw.usage;
      };
      latency_ms = latency_ms;
    }
