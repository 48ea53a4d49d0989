-- ===== src/OpenAi/ResponsesRequests.antt =====
-- libs/sirius-compat-openai/src/openai-compat.service.ts: `parseResponsesRequest`. `printed` prints a
-- number.
pub mod Turns
use mathlib.Core.Option.{get_or}
use sirius_gateway.Base.{
  ℕ, ◌+◌, String, Bool, true, false, List, [], ◌∷◌, ◌++◌, Option, some, none, if◌then◌else◌,
  is_blank, ◌&◌, truthy,
}
use sirius_gateway.Core.Messages.{
  UnifiedAiRequest, UnifiedMessage, UnifiedRole, Content, UnifiedToolCall,
}
use sirius_gateway.OpenAi.Types.{
  OpenAiResponsesRequest, OpenAiResponsesInputItem, ResponsesInput, InputContent, InputPart,
  InputRole, no_text, some_text,
}
use sirius_gateway.OpenAi.Errors.{Parsed, parsed, refused, invalid_request, and_then}
use sirius_gateway.OpenAi.ChatMessages.{message_of}
use sirius_gateway.OpenAi.ChatRequests.{map_tools}

-- The texts of the parts that have one, in a row.
pub joined_parts : List InputPart → String
joined_parts [] = ""
joined_parts (no_text ∷ ps) = joined_parts ps
joined_parts (some_text t ∷ ps) = if is_blank t then joined_parts ps else t & joined_parts ps

-- `developer` becomes `system`.
pub role_of : InputRole → UnifiedRole
role_of InputRole.system = UnifiedRole.system
role_of InputRole.developer = UnifiedRole.system
role_of InputRole.user = UnifiedRole.user
role_of InputRole.assistant = UnifiedRole.assistant

abbrev has_assistant_role : UnifiedRole → Bool
has_assistant_role UnifiedRole.assistant = true
has_assistant_role _ = false

abbrev pub calls_or_empty : Option (List UnifiedToolCall) → List UnifiedToolCall
calls_or_empty none = []
calls_or_empty (some cs) = cs

abbrev calling : UnifiedToolCall → UnifiedMessage
calling c = record (message_of UnifiedRole.assistant (Content.plain "") none) {
  tool_calls = some (c ∷ []);
}

-- `appendResponsesFunctionCall`: the call joins the assistant message right before it.
pub append_function_call : List UnifiedMessage → UnifiedToolCall → List UnifiedMessage
append_function_call [] c = calling c ∷ []
append_function_call (m ∷ []) c =
    if has_assistant_role m.role
    then record m { tool_calls = some (calls_or_empty m.tool_calls ++ c ∷ []) } ∷ []
    else m ∷ calling c ∷ []
append_function_call (m ∷ n ∷ ms) c = m ∷ append_function_call (n ∷ ms) c

module _ (printed : ℕ → String) where
  -- What item number `index` does to the messages before it.
  pub add_input_item :
      ℕ → List UnifiedMessage → OpenAiResponsesInputItem → Parsed (List UnifiedMessage)
  unfolding joined_parts role_of append_function_call
  add_input_item index messages OpenAiResponsesInputItem.not_object =
      invalid_request ("Input item at index " & printed index & " must be an object.") none
  add_input_item index messages (OpenAiResponsesInputItem.function_call call_id name arguments) =
      parsed (
        append_function_call messages (record { id = call_id; name = name; arguments = arguments }))
  add_input_item index messages (OpenAiResponsesInputItem.function_call_output call_id output) =
      parsed (
        messages
        ++ record (message_of UnifiedRole.tool (Content.plain output) none) {
          tool_call_id = some call_id;
        }
          ∷ [])
  add_input_item index messages (OpenAiResponsesInputItem.message role InputContent.absent) =
      invalid_request ("Input item at index " & printed index & " has no content") none
  add_input_item index messages (OpenAiResponsesInputItem.message role (InputContent.plain t)) =
      parsed (messages ++ message_of (role_of role) (Content.plain t) none ∷ [])
  add_input_item index messages (OpenAiResponsesInputItem.message role (InputContent.parts ps)) =
      parsed (messages ++ message_of (role_of role) (Content.plain (joined_parts ps)) none ∷ [])

  -- The loop over the items.
  pub add_input_items :
      ℕ → List UnifiedMessage → List OpenAiResponsesInputItem → Parsed (List UnifiedMessage)
  unfolding add_input_item
  add_input_items index messages [] = parsed messages
  add_input_items index messages (item ∷ items) =
      and_then (add_input_item index messages item) (λ ms. add_input_items (index + 1) ms items)

  abbrev pub instruction_messages : Option String → List UnifiedMessage
  instruction_messages none = []
  instruction_messages (some t) = message_of UnifiedRole.system (Content.plain t) none ∷ []

  input_required : Parsed (List UnifiedMessage)
  input_required = invalid_request "The 'input' field is required." (some "input_required")

  -- The messages of the request.
  pub input_messages : Option String → ResponsesInput → Parsed (List UnifiedMessage)
  unfolding add_input_items input_required
  input_messages instructions ResponsesInput.absent = input_required
  input_messages instructions ResponsesInput.malformed =
      invalid_request "The 'input' field must be a string or an array." none
  input_messages instructions (ResponsesInput.plain t) =
      if is_blank t
      then input_required
      else parsed (
          instruction_messages (truthy instructions)
          ++ message_of UnifiedRole.user (Content.plain t) none ∷ [])
  input_messages instructions (ResponsesInput.items items) =
      add_input_items 0 (instruction_messages (truthy instructions)) items

  build_responses_request :
      {N J : Type 0}
      → String
      → OpenAiResponsesRequest N J
      → String
      → List UnifiedMessage
      → UnifiedAiRequest N J
  build_responses_request request_id body model messages = record {
    request_id = request_id;
    model = model;
    messages = messages;
    stream = get_or body.stream false;
    temperature = body.temperature;
    top_p = body.top_p;
    max_tokens = body.max_output_tokens;
    stop = none;
    tools = map_tools body.tools;
    tool_choice = body.tool_choice;
    response_format = none;
    stream_options = body.stream_options;
    user = truthy body.user;
    metadata = body.metadata;
  }

  parse_responses_with :
      {N J : Type 0}
      → OpenAiResponsesRequest N J
      → String
      → Option String
      → Parsed (UnifiedAiRequest N J)
  unfolding input_messages build_responses_request
  parse_responses_with body request_id none =
      invalid_request "The 'model' field is required." (some "model_required")
  parse_responses_with body request_id (some model) =
      and_then (input_messages body.instructions body.input)
        (λ ms. parsed (build_responses_request request_id body model ms))

  pub parse_responses_request :
      {N J : Type 0} → OpenAiResponsesRequest N J → String → Parsed (UnifiedAiRequest N J)
  unfolding parse_responses_with
  parse_responses_request body request_id = parse_responses_with body request_id (truthy body.model)
