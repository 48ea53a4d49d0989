-- ===== src/Registry/ModelDiscovery.antt =====
-- libs/sirius-model-registry/src/model-discovery.service.ts. What a provider's `listModels` gives at
-- each probe is an argument; logging is left out.
pub mod Reachable
pub mod ByName
use sirius_gateway.Base.{
  ℕ, suc, ◌+◌, ◌-◌, ◌≤◌, String, Bool, true, false, List, [], ◌∷◌, Option, some, none,
  if◌then◌else◌, ◌&&◌, ◌||◌, not, nat_eq, leb, is_blank, is_empty, split_on, length, lowered_codes,
  includes_codes, starts_with_codes, ends_with_codes,
}
use sirius_gateway.Base.Dict.{Dict}
use sirius_gateway.Core.ProviderRegistry
use sirius_gateway.Core.Models.{ModelCapabilityMatrix, ModelInfo}
use sirius_gateway.Registry.ModelRegistry.{ModelRegistry, add_model}

pub record NormalizedId : Type 0 where
  pub canonical : String
  pub original : String
  pub had_prefix : Bool

abbrev untouched : String → NormalizedId
untouched raw_id = record { canonical = raw_id; original = raw_id; had_prefix = false }

-- Given the parts between the slashes: two parts are one slash.
normalize_parts : String → List String → NormalizedId
normalize_parts raw_id (prefix ∷ name ∷ []) =
    if is_blank name || is_blank prefix
    then untouched raw_id
    else record { canonical = name; original = raw_id; had_prefix = true }
normalize_parts raw_id _ = untouched raw_id

pub normalize_model_id : String → NormalizedId
unfolding normalize_parts
normalize_model_id raw_id = normalize_parts raw_id (split_on b'/' raw_id)

pub looks_like_embedding_model : String → Bool
looks_like_embedding_model id =
    let lower = lowered_codes id in
    includes_codes (lowered_codes "embed") lower
    || starts_with_codes (lowered_codes "text-embedding") lower
    || ends_with_codes (lowered_codes "-embed") lower
    || includes_codes (lowered_codes "-embedding-") lower

-- What `listModels` gives, or nothing when it throws.
abbrev pub Probe : Type 0
Probe = Option (List ModelInfo)

-- One provider at boot, with what its two probes give.
pub record Boot : Type 0 where
  pub name : String
  pub first : Probe
  pub second : Probe

module _ {N : Type 0} where
  pub to_capability_matrix : ModelInfo → String → ModelCapabilityMatrix N
  unfolding normalize_model_id looks_like_embedding_model
  to_capability_matrix info provider_name =
      let id = normalize_model_id info.id in
      let embeddings = looks_like_embedding_model id.canonical in
      record {
        model_id = id.canonical;
        provider = provider_name;
        display_name = none;
        aliases = if id.had_prefix then id.canonical ∷ id.original ∷ [] else id.canonical ∷ [];
        capabilities = record {
          chat = not embeddings;
          streaming = not embeddings;
          tools = false;
          embeddings = embeddings;
          vision = false;
          json_mode = false;
        };
        context_window = 8192;
        max_output_tokens = if embeddings then 0 else 4096;
        cost_per_1k_input = none;
        cost_per_1k_output = none;
      }

  -- The registry after the loop.
  pub register_models : String → List ModelInfo → ModelRegistry N → ModelRegistry N
  unfolding to_capability_matrix
  register_models name [] r = r
  register_models name (info ∷ models) r =
      register_models name models (add_model (to_capability_matrix info name) r)

  -- The registry and the number of models added.
  register_probe : String → Probe → ModelRegistry N → ModelRegistry N × ℕ
  unfolding register_models
  register_probe name none r = (r, 0)
  register_probe name (some models) r = (register_models name models r, length models)

  -- `second` is met only after an empty first answer, if a retry is wanted.
  pub backfill_provider :
      (retry_on_zero : Bool)
      → String
      → (first second : Probe) → ModelRegistry N
      → ModelRegistry N × ℕ
  unfolding register_probe
  backfill_provider retry_on_zero name none second r = (r, 0)
  backfill_provider retry_on_zero name (some []) second r =
      if retry_on_zero then register_probe name second r else (r, 0)
  backfill_provider retry_on_zero name (some (info ∷ models)) second r =
      register_probe name (some (info ∷ models)) r

  -- All providers, in the order in which their probes settle; the report is in that order.
  pub backfill_all : List Boot → ModelRegistry N → ModelRegistry N × List (String × ℕ)
  unfolding backfill_provider
  backfill_all [] r = (r, [])
  backfill_all (b ∷ boots) r =
      let x = backfill_provider true b.name b.first b.second r in
      let y = backfill_all boots x.0 in (y.0, (b.name, x.1) ∷ y.1)

  -- Of a provider that is not registered nothing is added.
  pub backfill_provider_by_name : String → Dict Probe → ModelRegistry N → ModelRegistry N × ℕ
  unfolding backfill_provider
  backfill_provider_by_name name providers r = elim (ProviderRegistry.get name providers) [
    | none ↦ (r, 0)
    | some probe ↦ backfill_provider false name probe none r
  ]
