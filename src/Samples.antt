-- ===== src/Samples.antt =====
-- Sample models, registries and requests for the tests.
use sirius_gateway.Base.{
  ℕ, String, true, false, [], ◌∷◌, some, none, ◌&◌, after_prefix, after_prefix-append, refl,
}
use sirius_gateway.Core.Json.{Json}
use sirius_gateway.Core.Numbers.{Whole, whole_numbers}
use sirius_gateway.Core.Models.{ModelCapabilities, ModelCapabilityMatrix, healthy, down}
use sirius_gateway.Registry.ModelRegistry.{ModelRegistry, init, add_model}
use sirius_gateway.Routing.Strategies.{RoutingCandidate, RoutingContext}
use sirius_gateway.Core.Messages.{UnifiedAiResponse, UnifiedFinishReason, UnifiedStreamEvent}
use sirius_gateway.Policy.Breaker.{Settings, ok}
use sirius_gateway.Policy.Retry.{running}
use sirius_gateway.Gateway.Providers.{Upstream, StreamUpstream, fulfilled, rejected, Provider}
use sirius_gateway.Gateway.Responses.{GatewayState}

abbrev pub chat_only : ModelCapabilities
chat_only = record {
  chat = true;
  streaming = true;
  tools = false;
  embeddings = false;
  vision = false;
  json_mode = false;
}

abbrev pub cloud_model : ModelCapabilityMatrix Whole
cloud_model = record {
  model_id = "gpt-4o";
  provider = "openai";
  display_name = none;
  aliases = "gpt4" ∷ [];
  capabilities = chat_only;
  context_window = 128000;
  max_output_tokens = 4096;
  cost_per_1k_input = some (some 3);
  cost_per_1k_output = some (some 10);
}

abbrev pub local_model : ModelCapabilityMatrix Whole
local_model = record {
  model_id = "llama3";
  provider = "ollama";
  display_name = none;
  aliases = "llama" ∷ [];
  capabilities = chat_only;
  context_window = 8192;
  max_output_tokens = 2048;
  cost_per_1k_input = none;
  cost_per_1k_output = none;
}

abbrev pub with_latency : ModelCapabilityMatrix Whole → ℕ → RoutingCandidate Whole
with_latency m latency = record {
  model = m;
  health = record {
    provider = m.provider;
    status = healthy;
    latency_ms = some (some latency);
    last_checked = 0;
    error = none;
  };
}

abbrev pub slow_cloud : RoutingCandidate Whole
slow_cloud = with_latency cloud_model 90

abbrev pub fast_local : RoutingCandidate Whole
fast_local = with_latency local_model 20

abbrev pub broken : RoutingCandidate Whole
broken = record slow_cloud {
  health = record {
    provider = "openai";
    status = down;
    latency_ms = none;
    last_checked = 0;
    error = none;
  };
}

abbrev pub mixed : RoutingContext Whole
mixed = record {
  requested_model = "llama3";
  required_capabilities = "chat" ∷ [];
  candidates = broken ∷ slow_cloud ∷ fast_local ∷ [];
}

abbrev pub two_models : ModelRegistry Whole
two_models = add_model cloud_model (init (local_model ∷ []))

abbrev pub digits : ℕ → String
digits n = "0"

abbrev pub settings : Settings
settings = record {
  max_retries = 2;
  base_delay = 500;
  timeout_ms = 60000;
  circuit_breaker_threshold = 5;
  circuit_breaker_reset_ms = 30000;
}

abbrev pub answer : UnifiedAiResponse Whole
answer = record {
  id = "a1";
  model = "gpt-4o";
  provider = "openai";
  content = [];
  finish_reason = UnifiedFinishReason.stop;
  usage = record { input_tokens = 3; output_tokens = 2; total_tokens = 5 };
  latency_ms = some 40;
}

abbrev pub always : {R : Type 0} → R → Upstream R
always r = record {
  caller = running;
  now = 0;
  attempts = λ n. record { settles_after = 40; outcome = ok r; aborted = false; now = 40 };
  aborted = false;
}

abbrev pub streaming : StreamUpstream Whole
streaming = record {
  caller = running;
  now = 0;
  attempts = λ n. record {
    events = UnifiedStreamEvent.content_delta "a" ∷ UnifiedStreamEvent.done "stop" ∷ [];
    failure = none;
    aborted = false;
    now = 40;
  };
  waits = λ i. 5;
  elapsed = some 15;
  aborted = false;
}

abbrev pub provider : Provider whole_numbers String
provider = record {
  create_response = λ r. always answer;
  stream_response = λ r. streaming;
  list_models =
      fulfilled
        (record { id = "gpt-4o"; provider = "openai"; created = none; owned_by = none } ∷ []);
  health_check = rejected "offline";
  create_embeddings = λ r. always (record {
    id = "e1";
    model = r.model;
    provider = "openai";
    embeddings = [];
    usage = record { input_tokens = 3; output_tokens = 0; total_tokens = 3 };
    latency_ms = some 40;
  });
}

abbrev pub idle : GatewayState Whole
idle = record { circuits = []; latencies = [] }

-- JSON values that are texts, printed with a letter in front.
abbrev pub letter_json : Json
letter_json = record {
  Value = String;
  parse = λ t. after_prefix "j" t;
  stringify = λ v. "j" & v;
  parse-empty = refl;
  empty_object = "{}";
  is_object = λ v. true;
  parse-stringify = λ v. after_prefix-append "j" v;
}
