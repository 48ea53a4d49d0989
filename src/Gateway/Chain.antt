-- ===== src/Gateway/Chain.antt =====
-- apps/sirius-api/src/gateway.service.ts: `buildProviderChain`, which reads the labels of a
-- decision's fallbacks ("provider/model") back. `A` is what is registered for a provider.
pub mod Labels
use sirius_gateway.Base.{
  String, Bool, true, false, List, [], ◌∷◌, ◌++◌, Option, some, none, if◌then◌else◌, ◌==◌, not,
  ◌||◌, is_blank, split_on,
}
use sirius_gateway.Base.Dict.{Dict}
use sirius_gateway.Core.Models.{RoutingDecision}
use sirius_gateway.Core.ProviderRegistry

-- A provider to try, with the model to ask it for.
pub record Link (A : Type 0) : Type 0 where
  pub name : String
  pub provider : A
  pub model_id : String

-- `const [providerName, modelId] = fallback.split('/')`, unless one of them is missing or empty.
parse_parts : List String → Option (String × String)
parse_parts [] = none
parse_parts (p ∷ []) = none
parse_parts (p ∷ m ∷ rest) = if is_blank p || is_blank m then none else some (p, m)

pub parse_label : String → Option (String × String)
unfolding parse_parts
parse_label label = parse_parts (split_on b'/' label)

module _ {A : Type 0} where
  abbrev pub link_to : String → String → Option A → List (Link A)
  link_to name model_id none = []
  link_to name model_id (some p) = record { name = name; provider = p; model_id = model_id } ∷ []

  -- One round of the loop over the fallbacks.
  fallback_link : String → Dict A → Option (String × String) → List (Link A)
  fallback_link selected providers none = []
  fallback_link selected providers (some (name, model_id)) =
      if name == selected then [] else link_to name model_id (ProviderRegistry.get name providers)

  pub fallback_links : String → Dict A → List String → List (Link A)
  unfolding fallback_link parse_label
  fallback_links selected providers [] = []
  fallback_links selected providers (label ∷ labels) =
      fallback_link selected providers (parse_label label)
      ++ fallback_links selected providers labels

  pub build_provider_chain : RoutingDecision → Dict A → List (Link A)
  unfolding fallback_links
  build_provider_chain decision providers =
      link_to decision.selected_provider decision.selected_model
        (ProviderRegistry.get decision.selected_provider providers)
      ++ fallback_links decision.selected_provider providers decision.fallback_chain
