-- ===== src/Core/Models.antt =====
-- libs/sirius-core/src/types: models, provider health and routing decisions. `N` is the type of
-- numbers.
use sirius_gateway.Base.{ℕ, String, Bool, List, Option}

pub record ModelCapabilities : Type 0 where
  pub chat : Bool
  pub streaming : Bool
  pub tools : Bool
  pub embeddings : Bool
  pub vision : Bool
  pub json_mode : Bool

pub record ModelCapabilityMatrix (N : Type 0) : Type 0 where
  pub model_id : String
  pub provider : String
  pub display_name : Option String
  pub aliases : List String
  pub capabilities : ModelCapabilities
  pub context_window : ℕ
  pub max_output_tokens : ℕ
  pub cost_per_1k_input : Option N
  pub cost_per_1k_output : Option N

pub record ModelInfo : Type 0 where
  pub id : String
  pub provider : String
  pub created : Option ℕ
  pub owned_by : Option String

pub data ProviderStatus : Type 0 where
  healthy degraded down : ProviderStatus

-- `last_checked` is the time in milliseconds.
pub record ProviderHealth (N : Type 0) : Type 0 where
  pub provider : String
  pub status : ProviderStatus
  pub latency_ms : Option N
  pub last_checked : ℕ
  pub error : Option String

pub record RoutingDecision : Type 0 where
  pub selected_provider : String
  pub selected_model : String
  pub strategy : String
  pub reason : String
  pub fallback_chain : List String
  pub attempt_number : ℕ
