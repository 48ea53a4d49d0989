-- ===== src/Providers/AnthropicTypes.antt =====
-- libs/provider-anthropic/src/anthropic.types.ts. `N` is the type of numbers, `J` that of JSON values.
use sirius_gateway.Base.{ℕ, String, Bool, List, Option}

pub data AnthropicContentBlock (J : Type 0) : Type 0 where
  text : String → AnthropicContentBlock J
  image : AnthropicContentBlock J
  tool_use : (id name : String) → (input : J) → AnthropicContentBlock J
  tool_result : (tool_use_id content : String) → AnthropicContentBlock J

-- `string | AnthropicContentBlock[]`
pub data AnthropicContent (J : Type 0) : Type 0 where
  whole : String → AnthropicContent J
  blocks : List (AnthropicContentBlock J) → AnthropicContent J

pub data AnthropicRole : Type 0 where
  user assistant : AnthropicRole

pub record AnthropicMessage (J : Type 0) : Type 0 where
  pub role : AnthropicRole
  pub content : AnthropicContent J

pub record AnthropicTool (J : Type 0) : Type 0 where
  pub name : String
  pub description : Option String
  pub input_schema : J

pub data AnthropicToolChoice : Type 0 where
  auto any_tool none : AnthropicToolChoice
  tool : (name : String) → AnthropicToolChoice

pub record AnthropicRequest (N J : Type 0) : Type 0 where
  pub model : String
  pub max_tokens : ℕ
  pub messages : List (AnthropicMessage J)
  pub system : Option String
  pub stream : Bool
  pub temperature : Option N
  pub top_p : Option N
  pub stop_sequences : Option (List String)
  pub tools : Option (List (AnthropicTool J))
  pub tool_choice : Option AnthropicToolChoice
  pub user_id : Option String

-- Fields that the API may leave out after all.
pub record AnthropicUsage : Type 0 where
  pub input_tokens : Option ℕ
  pub output_tokens : Option ℕ

pub record AnthropicResponse (J : Type 0) : Type 0 where
  pub id : String
  pub model : String
  pub content : List (AnthropicContentBlock J)
  pub stop_reason : Option String
  pub usage : Option AnthropicUsage
