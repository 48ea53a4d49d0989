-- ===== src/Registry/ModelCatalog.antt =====
-- libs/sirius-model-registry/src/model-catalog.ts: the models that the registry starts with.
use sirius_gateway.Base.{Bool, true, false, List, [], ◌∷◌, some, none}
use sirius_gateway.Core.Numbers.{Numbers}
use sirius_gateway.Core.Models.{ModelCapabilities, ModelCapabilityMatrix}

abbrev capabilities : (chat streaming tools embeddings vision json_mode : Bool) → ModelCapabilities
capabilities chat streaming tools embeddings vision json_mode = record {
  chat = chat;
  streaming = streaming;
  tools = tools;
  embeddings = embeddings;
  vision = vision;
  json_mode = json_mode;
}

module _ (F : Numbers) where
  open F use {Num, decimal}

  abbrev gpt_4o : ModelCapabilityMatrix Num
  gpt_4o = record {
    model_id = "gpt-4o";
    provider = "openai";
    display_name = none;
    aliases = "gpt-4o-2024-08-06" ∷ [];
    capabilities = capabilities true true true false true true;
    context_window = 128000;
    max_output_tokens = 16384;
    cost_per_1k_input = some (decimal 25 4);
    cost_per_1k_output = some (decimal 1 2);
  }

  abbrev gpt_4o_mini : ModelCapabilityMatrix Num
  gpt_4o_mini = record {
    model_id = "gpt-4o-mini";
    provider = "openai";
    display_name = none;
    aliases = "gpt-4o-mini-2024-07-18" ∷ [];
    capabilities = capabilities true true true false true true;
    context_window = 128000;
    max_output_tokens = 16384;
    cost_per_1k_input = some (decimal 15 5);
    cost_per_1k_output = some (decimal 6 4);
  }

  abbrev gpt_4_1 : ModelCapabilityMatrix Num
  gpt_4_1 = record {
    model_id = "gpt-4.1";
    provider = "openai";
    display_name = none;
    aliases = [];
    capabilities = capabilities true true true false true true;
    context_window = 1047576;
    max_output_tokens = 32768;
    cost_per_1k_input = none;
    cost_per_1k_output = none;
  }

  abbrev gpt_4_1_mini : ModelCapabilityMatrix Num
  gpt_4_1_mini = record {
    model_id = "gpt-4.1-mini";
    provider = "openai";
    display_name = none;
    aliases = [];
    capabilities = capabilities true true true false true true;
    context_window = 1047576;
    max_output_tokens = 32768;
    cost_per_1k_input = none;
    cost_per_1k_output = none;
  }

  abbrev gpt_4_1_nano : ModelCapabilityMatrix Num
  gpt_4_1_nano = record {
    model_id = "gpt-4.1-nano";
    provider = "openai";
    display_name = none;
    aliases = [];
    capabilities = capabilities true true true false true true;
    context_window = 1047576;
    max_output_tokens = 32768;
    cost_per_1k_input = none;
    cost_per_1k_output = none;
  }

  abbrev o3 : ModelCapabilityMatrix Num
  o3 = record {
    model_id = "o3";
    provider = "openai";
    display_name = none;
    aliases = [];
    capabilities = capabilities true true true false true true;
    context_window = 200000;
    max_output_tokens = 100000;
    cost_per_1k_input = none;
    cost_per_1k_output = none;
  }

  abbrev o3_mini : ModelCapabilityMatrix Num
  o3_mini = record {
    model_id = "o3-mini";
    provider = "openai";
    display_name = none;
    aliases = [];
    capabilities = capabilities true true true false false true;
    context_window = 200000;
    max_output_tokens = 100000;
    cost_per_1k_input = none;
    cost_per_1k_output = none;
  }

  abbrev text_embedding_3_small : ModelCapabilityMatrix Num
  text_embedding_3_small = record {
    model_id = "text-embedding-3-small";
    provider = "openai";
    display_name = none;
    aliases = [];
    capabilities = capabilities false false false true false false;
    context_window = 8191;
    max_output_tokens = 0;
    cost_per_1k_input = some (decimal 2 5);
    cost_per_1k_output = some (decimal 0 0);
  }

  abbrev text_embedding_3_large : ModelCapabilityMatrix Num
  text_embedding_3_large = record {
    model_id = "text-embedding-3-large";
    provider = "openai";
    display_name = none;
    aliases = [];
    capabilities = capabilities false false false true false false;
    context_window = 8191;
    max_output_tokens = 0;
    cost_per_1k_input = some (decimal 13 5);
    cost_per_1k_output = some (decimal 0 0);
  }

  abbrev claude_sonnet_4_20250514 : ModelCapabilityMatrix Num
  claude_sonnet_4_20250514 = record {
    model_id = "claude-sonnet-4-20250514";
    provider = "anthropic";
    display_name = none;
    aliases = "claude-sonnet-4" ∷ [];
    capabilities = capabilities true true true false true true;
    context_window = 200000;
    max_output_tokens = 64000;
    cost_per_1k_input = none;
    cost_per_1k_output = none;
  }

  abbrev claude_haiku_3_5 : ModelCapabilityMatrix Num
  claude_haiku_3_5 = record {
    model_id = "claude-haiku-3-5";
    provider = "anthropic";
    display_name = none;
    aliases = "claude-3-5-haiku-20241022" ∷ [];
    capabilities = capabilities true true true false false true;
    context_window = 200000;
    max_output_tokens = 8192;
    cost_per_1k_input = none;
    cost_per_1k_output = none;
  }

  abbrev llama3_2 : ModelCapabilityMatrix Num
  llama3_2 = record {
    model_id = "llama3.2";
    provider = "ollama";
    display_name = none;
    aliases = "llama3.2:latest" ∷ [];
    capabilities = capabilities true true true false false true;
    context_window = 131072;
    max_output_tokens = 8192;
    cost_per_1k_input = none;
    cost_per_1k_output = none;
  }

  abbrev mistral : ModelCapabilityMatrix Num
  mistral = record {
    model_id = "mistral";
    provider = "ollama";
    display_name = none;
    aliases = "mistral:latest" ∷ [];
    capabilities = capabilities true true true false false false;
    context_window = 32768;
    max_output_tokens = 8192;
    cost_per_1k_input = none;
    cost_per_1k_output = none;
  }

  abbrev nomic_embed_text : ModelCapabilityMatrix Num
  nomic_embed_text = record {
    model_id = "nomic-embed-text";
    provider = "ollama";
    display_name = none;
    aliases = [];
    capabilities = capabilities false false false true false false;
    context_window = 8192;
    max_output_tokens = 0;
    cost_per_1k_input = none;
    cost_per_1k_output = none;
  }

  abbrev pub default_model_catalog : List (ModelCapabilityMatrix Num)
  default_model_catalog =
      gpt_4o ∷ gpt_4o_mini ∷ gpt_4_1 ∷ gpt_4_1_mini ∷ gpt_4_1_nano ∷ o3 ∷ o3_mini
      ∷ text_embedding_3_small ∷ text_embedding_3_large ∷ claude_sonnet_4_20250514
      ∷ claude_haiku_3_5 ∷ llama3_2 ∷ mistral ∷ nomic_embed_text ∷ []
