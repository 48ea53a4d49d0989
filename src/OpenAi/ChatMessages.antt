-- ===== src/OpenAi/ChatMessages.antt =====
-- libs/sirius-compat-openai/src/openai-compat.service.ts: `mapOpenAiMessage`, and the tests of a
-- message in `parseChatCompletionRequest`.

use mathlib.Core.Option.{get_or}
use sirius_gateway.Base.{String, List, [], ◌∷◌, Option, some, none, if◌then◌else◌, map, truthy}
use sirius_gateway.Core.Messages.{
  UnifiedMessage, UnifiedRole, UnifiedContentPart, Content, UnifiedToolCall, PartType,
}
use sirius_gateway.OpenAi.Types.{OpenAiMessage, OpenAiContentPart, OpenAiToolCallMsg, UserContent}

map_part : OpenAiContentPart → UnifiedContentPart
map_part (OpenAiContentPart.image_url url detail) = record {
  type = PartType.image_url;
  text = none;
  image_url = some url;
  detail = detail;
}
map_part (OpenAiContentPart.text t) = record {
  type = PartType.text;
  text = some t;
  image_url = none;
  detail = none;
}

map_tool_call : OpenAiToolCallMsg → UnifiedToolCall
map_tool_call c = record { id = c.id; name = c.name; arguments = c.arguments }

-- `calls?.length`: no calls count as none.
map_tool_calls : Option (List OpenAiToolCallMsg) → Option (List UnifiedToolCall)
unfolding map_tool_call
map_tool_calls none = none
map_tool_calls (some []) = none
map_tool_calls (some (c ∷ cs)) = some (map map_tool_call (c ∷ cs))

abbrev pub message_of : UnifiedRole → Content → Option String → UnifiedMessage
message_of role content name = record {
  role = role;
  content = content;
  name = name;
  tool_call_id = none;
  tool_calls = none;
}

user_content : UserContent → Content
unfolding map_part
user_content (UserContent.plain t) = Content.plain t
user_content (UserContent.parts ps) = Content.parts (map map_part ps)
user_content UserContent.absent = Content.parts []
user_content UserContent.malformed = Content.parts []

abbrev text_or_empty : Option String → Content
text_or_empty t = Content.plain (get_or t "")

-- For a message that has passed the tests of `check_message`.
pub map_open_ai_message : OpenAiMessage → UnifiedMessage
unfolding user_content map_tool_calls
map_open_ai_message (OpenAiMessage.system content name) =
    message_of UnifiedRole.system (text_or_empty content) (truthy name)
map_open_ai_message (OpenAiMessage.user content name) =
    message_of UnifiedRole.user (user_content content) (truthy name)
map_open_ai_message (OpenAiMessage.assistant content name tool_calls) =
    record (message_of UnifiedRole.assistant (text_or_empty content) (truthy name)) {
      tool_calls = map_tool_calls tool_calls;
    }
map_open_ai_message (OpenAiMessage.tool content tool_call_id) =
    record (message_of UnifiedRole.tool (text_or_empty content) none) {
      tool_call_id = some tool_call_id;
    }
map_open_ai_message _ = message_of UnifiedRole.user (Content.plain "") none

-- The tests of one message: its role, its content, and the shape of a user's content.
pub data Fault : Type 0 where
  no_fault no_object no_role no_content bad_content : Fault

abbrev pub fault_if_absent : Option String → Fault
fault_if_absent none = no_content
fault_if_absent (some t) = no_fault

unfoldable pub fault_of : OpenAiMessage → Fault
fault_of OpenAiMessage.not_object = no_object
fault_of OpenAiMessage.missing_role = no_role
fault_of (OpenAiMessage.unknown_role has_content) = if has_content then no_fault else no_content
fault_of (OpenAiMessage.system content name) = fault_if_absent content
fault_of (OpenAiMessage.tool content tool_call_id) = fault_if_absent content
fault_of (OpenAiMessage.assistant content name tool_calls) = no_fault
fault_of (OpenAiMessage.user UserContent.absent name) = no_content
fault_of (OpenAiMessage.user UserContent.malformed name) = bad_content
fault_of (OpenAiMessage.user (UserContent.plain t) name) = no_fault
fault_of (OpenAiMessage.user (UserContent.parts ps) name) = no_fault
