-- ===== src/Routing/Service.antt =====
-- libs/sirius-routing/src/routing.service.ts. The two registries and the latency tracker that the
-- service reads are fields of `Sources`, with the time of the call; `A` is what is registered for a
-- provider, `T` what a request's tools are.
pub mod Eligibility
pub mod Availability
use sirius_gateway.Base.{
  ℕ, String, Bool, true, false, List, [], ◌∷◌, ◌++◌, Option, some, none, if◌then◌else◌, filter, map,
  all, ◌==◌, ◌&&◌, not, is_empty, is_some, ◌&◌,
}
use mathlib.Core.Option.{get_or}
use sirius_gateway.Base.Dict
use sirius_gateway.Base.Dict.{Dict}
use sirius_gateway.Core.Numbers.{Numbers}
use sirius_gateway.Core.Models.{
  ModelCapabilityMatrix, ModelCapabilities, ProviderHealth, RoutingDecision, healthy,
}
use sirius_gateway.Core.ProviderRegistry
use sirius_gateway.Observability.LatencyTracker.{get_average_latency}
use sirius_gateway.Registry.ModelRegistry
use sirius_gateway.Registry.ModelRegistry.{
  ModelRegistry, Resolved, resolve_model, list_models, get_providers_for_model,
}
use sirius_gateway.Routing.Strategies.{
  RoutingCandidate, RoutingContext, RoutingStrategy, pinned, fastest, cheapest, balanced,
  local_first, privacy_first, strategy_name, select, build_fallback_chain,
}

pub record RouteRequest (T : Type 0) : Type 0 where
  pub model : String
  pub stream : Bool
  pub tools : Option (List T)
  pub embeddings : Option Bool

-- The constructor's loop over the strategies.
set_strategies : List RoutingStrategy → Dict RoutingStrategy → Dict RoutingStrategy
unfolding strategy_name
set_strategies [] strategies = strategies
set_strategies (s ∷ ss) strategies = set_strategies ss (Dict.set (strategy_name s) s strategies)

pub strategies : Dict RoutingStrategy
unfolding set_strategies Dict.set
strategies =
    set_strategies (pinned ∷ fastest ∷ cheapest ∷ balanced ∷ local_first ∷ privacy_first ∷ []) []

-- An unknown name falls back to pinned, which the constructor has put into the map.
pub get_strategy : String → RoutingStrategy
unfolding strategies Dict.get
get_strategy name = get_or (Dict.get name strategies) pinned

abbrev pub get_default_strategy : String
get_default_strategy = "pinned"

abbrev is_true : Option Bool → Bool
is_true none = false
is_true (some b) = b

abbrev has_tools {ℓ} : {T : Type ℓ} → Option (List T) → Bool
has_tools none = false
has_tools (some tools) = not (is_empty tools)

unfoldable pub derive_capabilities : {T : Type 0} → RouteRequest T → List String
derive_capabilities request =
    (if is_true request.embeddings then "embeddings" ∷ [] else "chat" ∷ [])
    ++ (if request.stream then "streaming" ∷ [] else [])
    ++ (if has_tools request.tools then "tools" ∷ [] else [])

-- `model.capabilities[cap] === true`
unfoldable pub has_capability : ModelCapabilities → String → Bool
has_capability caps cap =
    if cap == "chat"
    then caps.chat
    else if cap == "streaming"
    then caps.streaming
    else if cap == "tools"
    then caps.tools
    else if cap == "embeddings"
    then caps.embeddings
    else if cap == "vision"
    then caps.vision
    else if cap == "jsonMode"
    then caps.json_mode
    else false

pub no_route : String → String → Option String → RoutingDecision
no_route model strategy reason = record {
  selected_provider = "";
  selected_model = model;
  strategy = strategy;
  reason = get_or reason "No eligible provider found";
  fallback_chain = [];
  attempt_number = 0;
}

-- `xs.join(', ')`
join : List String → String
join [] = ""
join (x ∷ []) = x
join (x ∷ y ∷ xs) = x & ", " & join (y ∷ xs)

unknown_model_reason : String → String
unknown_model_reason model =
    "The model '" & model & "' does not exist or you do not have access to it."

no_candidates_reason : String → List String → String
unfolding join
no_candidates_reason model_id [] = "No eligible candidates for model=" & model_id
no_candidates_reason model_id (p ∷ ps) =
    "The model '"
    & model_id
    & "' requires provider(s) '"
    & join (p ∷ ps)
    & "' which are not configured or are unhealthy."

pub record Sources (A N : Type 0) : Type 0 where
  pub model_registry : ModelRegistry N
  pub provider_registry : Dict A
  pub latencies : Dict (List N)
  pub now : ℕ

module _ (F : Numbers) where
  open F use {Num}

  -- "provider/modelId"
  abbrev pub label : RoutingCandidate Num → String
  label c = c.model.provider & "/" & c.model.model_id

  -- The decision once a strategy has chosen.
  decide :
      String
      → RoutingStrategy
      → RoutingContext Num
      → Option (RoutingCandidate Num)
      → RoutingDecision
  decide name strategy context none = no_route context.requested_model name none
  decide name strategy context (some selected) = record {
    selected_provider = selected.model.provider;
    selected_model = selected.model.model_id;
    strategy = strategy_name strategy;
    reason = "Selected by " & strategy_name strategy & " strategy";
    fallback_chain = map label (build_fallback_chain F strategy context);
    attempt_number = 1;
  }

module _ (F : Numbers) {A : Type 0} where
  open F use {Num, decimal}

  -- The candidate for a model of a registered provider: healthy, with its average latency, or 0.
  unfoldable pub candidate : Sources A Num → ModelCapabilityMatrix Num → RoutingCandidate Num
  candidate s model = record {
    model = model;
    health = record {
      provider = model.provider;
      status = healthy;
      latency_ms = some (get_or (get_average_latency F model.provider s.latencies) (decimal 0 0));
      last_checked = s.now;
      error = none;
    };
  }

  -- The loop of `buildCandidates` over the matching models.
  unfoldable pub candidates_from :
      Sources A Num → List String → List (ModelCapabilityMatrix Num) → List (RoutingCandidate Num)
  unfolding candidate
  candidates_from s caps [] = []
  candidates_from s caps (model ∷ models) =
      if is_some (ProviderRegistry.get model.provider s.provider_registry)
        && all (has_capability model.capabilities) caps
      then candidate s model ∷ candidates_from s caps models
      else candidates_from s caps models

  unfoldable pub build_candidates :
      Sources A Num → String → List String → List (RoutingCandidate Num)
  unfolding candidates_from
  build_candidates s model_id caps =
      candidates_from s caps (filter (λ m. m.model_id == model_id) (list_models s.model_registry))

  -- Steps 2 to 5, for a model that is known.
  route_resolved : Sources A Num → List String → String → Resolved → RoutingDecision
  unfolding decide no_candidates_reason
  route_resolved s caps name x =
      let candidates = build_candidates s x.model_id caps in
      let context : RoutingContext Num = record {
        requested_model = x.model_id;
        required_capabilities = caps;
        candidates = candidates;
      } in
      if is_empty candidates
      then no_route x.model_id name (
          some
            (no_candidates_reason x.model_id (get_providers_for_model x.model_id s.model_registry)))
      else decide F name (get_strategy name) context (select F (get_strategy name) context)

  pub route : {T : Type 0} → Sources A Num → RouteRequest T → Option String → RoutingDecision
  unfolding route_resolved unknown_model_reason
  route s request preferred =
      let name = get_or preferred get_default_strategy in
      elim (resolve_model request.model s.model_registry) [
        | none ↦ no_route request.model name (some (unknown_model_reason request.model))
        | some x ↦ route_resolved s (derive_capabilities request) name x
      ]
