-- ===== src/Registry/ModelRegistry.antt =====
-- libs/sirius-model-registry/src/model-registry.service.ts.
pub mod Validity
pub mod Resolution
use sirius_gateway.Base.{
  String, Bool, List, [], ◌∷◌, ◌++◌, Option, some, none, if◌then◌else◌, or_else, any, find, ◌==◌,
  filter, map, has_char, ◌&◌, is_blank,
}
use mathlib.Core.Option
use sirius_gateway.Base.Dict
use sirius_gateway.Base.Dict.{Dict}
use sirius_gateway.Core.Models.{ModelCapabilityMatrix}

pub record ModelRegistry (N : Type 0) : Type 0 where
  pub models : Dict (ModelCapabilityMatrix N)
  pub alias_map : Dict (List String)

-- What `resolveModel` returns.
pub record Resolved : Type 0 where
  pub model_id : String
  pub provider : String

-- The composite key "provider:modelId".
abbrev pub model_key : String → String → String
model_key provider model_id = provider & ":" & model_id

abbrev list_or_empty : Option (List String) → List String
list_or_empty none = []
list_or_empty (some xs) = xs

-- One round of the loop over a model's aliases.
unfoldable pub add_alias : String → String → Dict (List String) → Dict (List String)
add_alias key alias alias_map =
    let existing = list_or_empty (Dict.get alias alias_map) in
    if any (λ k. k == key) existing
    then alias_map
    else Dict.set alias (existing ++ key ∷ []) alias_map

unfoldable pub add_aliases : String → List String → Dict (List String) → Dict (List String)
unfolding add_alias
add_aliases key [] alias_map = alias_map
add_aliases key (alias ∷ aliases) alias_map =
    add_aliases key aliases (add_alias key alias alias_map)

module _ {N : Type 0} where
  abbrev pub resolved : ModelCapabilityMatrix N → Resolved
  resolved m = record { model_id = m.model_id; provider = m.provider }

  unfoldable pub register_model : ModelCapabilityMatrix N → ModelRegistry N → ModelRegistry N
  unfolding add_aliases
  register_model m r = record {
    models = Dict.set (model_key m.provider m.model_id) m r.models;
    alias_map = add_aliases (model_key m.provider m.model_id) m.aliases r.alias_map;
  }

  unfoldable pub add_model : ModelCapabilityMatrix N → ModelRegistry N → ModelRegistry N
  unfolding register_model
  add_model m r = register_model m r

  unfoldable pub register_all : List (ModelCapabilityMatrix N) → ModelRegistry N → ModelRegistry N
  unfolding register_model
  register_all [] r = r
  register_all (m ∷ ms) r = register_all ms (register_model m r)

  -- The constructor, given the catalog.
  unfoldable pub init : List (ModelCapabilityMatrix N) → ModelRegistry N
  unfolding register_all
  init catalog = register_all catalog (record { models = []; alias_map = [] })

  -- Step 1: a composite key.
  unfoldable pub by_key : String → ModelRegistry N → Option (ModelCapabilityMatrix N)
  by_key s r = if has_char b':' s then Dict.get s r.models else none

  -- Step 2: a canonical id, of the first model that has it.
  unfoldable pub by_id : String → ModelRegistry N → Option (ModelCapabilityMatrix N)
  by_id s r = find (λ m. m.model_id == s) (Dict.values r.models)

  unfoldable pub first_of_keys :
      Option (List String) → Dict (ModelCapabilityMatrix N) → Option (ModelCapabilityMatrix N)
  first_of_keys none models = none
  first_of_keys (some []) models = none
  first_of_keys (some (key ∷ keys)) models = Dict.get key models

  -- Step 3: an alias, by the first key that was registered for it.
  unfoldable pub by_alias : String → ModelRegistry N → Option (ModelCapabilityMatrix N)
  unfolding first_of_keys
  by_alias s r = first_of_keys (Dict.get s r.alias_map) r.models

  unfoldable pub resolve_model : String → ModelRegistry N → Option Resolved
  unfolding by_key by_id by_alias
  resolve_model s r =
      Option.map resolved (or_else (by_key s r) (or_else (by_id s r) (by_alias s r)))

  -- An empty provider counts as none.
  pub get_capabilities : String → Option String → ModelRegistry N → Option (ModelCapabilityMatrix N)
  unfolding by_id
  get_capabilities model_id none r = by_id model_id r
  get_capabilities model_id (some provider) r =
      if is_blank provider
      then by_id model_id r
      else Dict.get (model_key provider model_id) r.models

  unfoldable pub list_models : ModelRegistry N → List (ModelCapabilityMatrix N)
  list_models r = Dict.values r.models

  pub list_models_for_provider : String → ModelRegistry N → List (ModelCapabilityMatrix N)
  list_models_for_provider provider r = filter (λ m. m.provider == provider) (Dict.values r.models)

  pub get_providers_for_model : String → ModelRegistry N → List String
  get_providers_for_model model_id r =
      map (λ m. m.provider) (filter (λ m. m.model_id == model_id) (Dict.values r.models))
