-- ===== src/Core/Messages.antt =====
-- libs/sirius-core/src/types: the unified messages, requests, responses and stream events. `N` is
-- the type of numbers, `J` that of JSON values that the gateway passes on unread.
use sirius_gateway.Base.{ℕ, String, Bool, List, Option}

pub data UnifiedRole : Type 0 where
  system user assistant tool : UnifiedRole

pub data PartType : Type 0 where
  text image_url : PartType

pub record UnifiedContentPart : Type 0 where
  pub type : PartType
  pub text : Option String
  pub image_url : Option String
  pub detail : Option String

-- `string | UnifiedContentPart[]`
pub data Content : Type 0 where
  plain : String → Content
  parts : List UnifiedContentPart → Content

pub record UnifiedToolCall : Type 0 where
  pub id : String
  pub name : String
  pub arguments : String

pub record UnifiedMessage : Type 0 where
  pub role : UnifiedRole
  pub content : Content
  pub name : Option String
  pub tool_call_id : Option String
  pub tool_calls : Option (List UnifiedToolCall)

pub record UnifiedTool (J : Type 0) : Type 0 where
  pub name : String
  pub description : Option String
  pub parameters : Option J
  pub strict : Option Bool

pub data UnifiedToolChoice : Type 0 where
  none auto required : UnifiedToolChoice
  function : String → UnifiedToolChoice

pub data FormatType : Type 0 where
  text json_object json_schema : FormatType

pub record JsonSchema (J : Type 0) : Type 0 where
  pub name : String
  pub schema : J
  pub strict : Option Bool

pub record UnifiedResponseFormat (J : Type 0) : Type 0 where
  pub type : FormatType
  pub schema : Option (JsonSchema J)

pub record StreamOptions : Type 0 where
  pub include_usage : Option Bool

pub record UnifiedAiRequest (N J : Type 0) : Type 0 where
  pub request_id : String
  pub model : String
  pub messages : List UnifiedMessage
  pub stream : Bool
  pub temperature : Option N
  pub top_p : Option N
  pub max_tokens : Option ℕ
  pub stop : Option (List String)
  pub tools : Option (List (UnifiedTool J))
  pub tool_choice : Option UnifiedToolChoice
  pub response_format : Option (UnifiedResponseFormat J)
  pub stream_options : Option StreamOptions
  pub user : Option String
  pub metadata : Option J

pub data UnifiedFinishReason : Type 0 where
  stop length tool_calls content_filter error : UnifiedFinishReason

-- The two forms of `UnifiedContent`, each with the field that its type announces, if it is there.
pub data UnifiedContent : Type 0 where
  text : Option String → UnifiedContent
  tool_call : Option UnifiedToolCall → UnifiedContent

pub record UsageMetrics : Type 0 where
  pub input_tokens : ℕ
  pub output_tokens : ℕ
  pub total_tokens : ℕ

pub record UnifiedAiResponse (N : Type 0) : Type 0 where
  pub id : String
  pub model : String
  pub provider : String
  pub content : List UnifiedContent
  pub finish_reason : UnifiedFinishReason
  pub usage : UsageMetrics
  pub latency_ms : N

pub data UnifiedStreamEvent : Type 0 where
  content_delta : String → UnifiedStreamEvent
  tool_call_delta : (index : ℕ) (id name arguments_delta : Option String) → UnifiedStreamEvent
  usage : UsageMetrics → UnifiedStreamEvent
  done : (finish_reason : String) → UnifiedStreamEvent
  error : (message : String) (code : Option String) → UnifiedStreamEvent

-- `string | string[]`
pub data EmbeddingInput : Type 0 where
  one : String → EmbeddingInput
  many : List String → EmbeddingInput

pub record UnifiedEmbeddingRequest : Type 0 where
  pub request_id : String
  pub model : String
  pub input : EmbeddingInput
  pub dimensions : Option ℕ
  pub user : Option String

pub record UnifiedEmbeddingResponse (N : Type 0) : Type 0 where
  pub id : String
  pub model : String
  pub provider : String
  pub embeddings : List (List N)
  pub usage : UsageMetrics
  pub latency_ms : N
