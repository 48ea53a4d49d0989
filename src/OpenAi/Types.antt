-- ===== src/OpenAi/Types.antt =====
-- libs/sirius-compat-openai/src/types/openai.types.ts. Fixed tags (`object`, `type: 'function'`)
-- are left out. A request body is one that has its declared types, or misses what the service tests
-- for: an absent field, or a message that is none.
use sirius_gateway.Base.{ℕ, String, Bool, List, Option}
use sirius_gateway.Core.Messages.{UnifiedToolChoice, JsonSchema, StreamOptions}

pub record OpenAiToolCallMsg : Type 0 where
  pub id : String
  pub name : String
  pub arguments : String

pub data OpenAiContentPart : Type 0 where
  text : String → OpenAiContentPart
  image_url : (url : String) (detail : Option String) → OpenAiContentPart

-- The content of a user message; `malformed` is a number, a Boolean or an object.
pub data UserContent : Type 0 where
  absent malformed : UserContent
  plain : String → UserContent
  parts : List OpenAiContentPart → UserContent

pub data OpenAiMessage : Type 0 where
  system : (content name : Option String) → OpenAiMessage
  user : (content : UserContent) (name : Option String) → OpenAiMessage
  assistant :
      (content name : Option String) (tool_calls : Option (List OpenAiToolCallMsg)) → OpenAiMessage
  tool : (content : Option String) (tool_call_id : String) → OpenAiMessage
  unknown_role : (has_content : Bool) → OpenAiMessage
  missing_role : OpenAiMessage
  not_object : OpenAiMessage

pub record OpenAiTool (J : Type 0) : Type 0 where
  pub name : String
  pub description : Option String
  pub parameters : Option J
  pub strict : Option Bool

pub data OpenAiResponseFormat (J : Type 0) : Type 0 where
  text json_object : OpenAiResponseFormat J
  json_schema : Option (JsonSchema J) → OpenAiResponseFormat J

-- `string | string[]`
pub data Texts : Type 0 where
  one : String → Texts
  many : List String → Texts

pub record OpenAiChatCompletionRequest (N J : Type 0) : Type 0 where
  pub model : Option String
  pub messages : Option (List OpenAiMessage)
  pub stream : Option Bool
  pub stream_options : Option StreamOptions
  pub temperature : Option N
  pub top_p : Option N
  pub max_tokens : Option ℕ
  pub max_completion_tokens : Option ℕ
  pub stop : Option Texts
  pub tools : Option (List (OpenAiTool J))
  pub tool_choice : Option UnifiedToolChoice
  pub response_format : Option (OpenAiResponseFormat J)
  pub n : Option N
  pub user : Option String

-- A part of the content of an input item; `no_text` is null or has no text.
pub data InputPart : Type 0 where
  no_text : InputPart
  some_text : String → InputPart

pub data InputContent : Type 0 where
  absent : InputContent
  plain : String → InputContent
  parts : List InputPart → InputContent

pub data InputRole : Type 0 where
  system developer user assistant : InputRole

pub data OpenAiResponsesInputItem : Type 0 where
  message : (role : InputRole) (content : InputContent) → OpenAiResponsesInputItem
  function_call : (call_id name arguments : String) → OpenAiResponsesInputItem
  function_call_output : (call_id output : String) → OpenAiResponsesInputItem
  not_object : OpenAiResponsesInputItem

-- `malformed` is neither a text nor an array, and not an empty value.
pub data ResponsesInput : Type 0 where
  absent malformed : ResponsesInput
  plain : String → ResponsesInput
  items : List OpenAiResponsesInputItem → ResponsesInput

pub record OpenAiResponsesRequest (N J : Type 0) : Type 0 where
  pub model : Option String
  pub input : ResponsesInput
  pub instructions : Option String
  pub stream : Option Bool
  pub stream_options : Option StreamOptions
  pub temperature : Option N
  pub top_p : Option N
  pub max_output_tokens : Option ℕ
  pub tools : Option (List (OpenAiTool J))
  pub tool_choice : Option UnifiedToolChoice
  pub user : Option String
  pub metadata : Option J

pub record OpenAiEmbeddingRequest : Type 0 where
  pub model : Option String
  pub input : Option Texts
  pub dimensions : Option ℕ
  pub user : Option String

pub record OpenAiUsage : Type 0 where
  pub prompt_tokens : ℕ
  pub completion_tokens : ℕ
  pub total_tokens : ℕ

pub record OpenAiChoice : Type 0 where
  pub index : ℕ
  pub content : Option String
  pub tool_calls : Option (List OpenAiToolCallMsg)
  pub finish_reason : String

pub record OpenAiChatCompletion : Type 0 where
  pub id : String
  pub created : ℕ
  pub model : String
  pub choices : List OpenAiChoice
  pub usage : Option OpenAiUsage

pub record ToolCallDelta : Type 0 where
  pub index : ℕ
  pub id : Option String
  pub type : Option String
  pub name : Option String
  pub arguments : Option String

pub record OpenAiChunkDelta : Type 0 where
  pub role : Option String
  pub content : Option String
  pub tool_calls : Option (List ToolCallDelta)

pub record OpenAiChunkChoice : Type 0 where
  pub index : ℕ
  pub delta : OpenAiChunkDelta
  pub finish_reason : Option String

pub record OpenAiChatCompletionChunk : Type 0 where
  pub id : String
  pub created : ℕ
  pub model : String
  pub choices : List OpenAiChunkChoice
  pub usage : Option OpenAiUsage

pub record OpenAiEmbedding (N : Type 0) : Type 0 where
  pub index : ℕ
  pub embedding : List N

pub record OpenAiEmbeddingResponse (N : Type 0) : Type 0 where
  pub data_rows : List (OpenAiEmbedding N)
  pub model : String
  pub prompt_tokens : ℕ
  pub total_tokens : ℕ

pub record OpenAiModel : Type 0 where
  pub id : String
  pub created : ℕ
  pub owned_by : String

pub data OpenAiResponsesOutputItem : Type 0 where
  message : (id status : String) (texts : List String) → OpenAiResponsesOutputItem
  function_call : (id call_id name arguments status : String) → OpenAiResponsesOutputItem

pub record OpenAiResponsesResponse : Type 0 where
  pub id : String
  pub created_at : ℕ
  pub model : String
  pub output : List OpenAiResponsesOutputItem
  pub status : String
  pub usage : Option OpenAiUsage
