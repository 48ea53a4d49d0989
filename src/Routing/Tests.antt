-- ===== src/Routing/Tests.antt =====
-- libs/sirius-routing/src on sample candidates and registries, and the uses of its theorems there.
use mathlib.Core.List.{Perm}
use sirius_gateway.Base.{
  ℕ, String, true, [], ◌∷◌, some, none, ◌≡◌, ◌≢◌, refl, is_some, sym, ◌∙◌, ◌↔◌,
}
use sirius_gateway.Base.Dict
use sirius_gateway.Base.Dict.{Dict}
use sirius_gateway.Core.Numbers.{Whole, whole_numbers}
use sirius_gateway.Core.ProviderRegistry
use sirius_gateway.Registry.ModelRegistry.{
  resolved, add_alias, add_aliases, register_model, add_model, register_all, init, resolve_model,
  by_key, by_id, by_alias, first_of_keys, list_models,
}
use sirius_gateway.Registry.ModelRegistry.Validity.{IsValid, register_model-IsValid, init-IsValid}
use sirius_gateway.Samples.{cloud_model, local_model, two_models, slow_cloud, fast_local, mixed}
use sirius_gateway.Routing.Sorting.{sort_by, insert_by}
use sirius_gateway.Routing.Strategies.{
  RoutingCandidate, pinned, fastest, local_first, privacy_first, rank_local_first, select,
}
use sirius_gateway.Routing.Strategies.Order.{plan, plan-perm}
use sirius_gateway.Routing.Service.{
  RouteRequest, Sources, route, candidate, candidates_from, has_capability, derive_capabilities,
  build_candidates,
}
use sirius_gateway.Routing.Service.Eligibility.{IsRouted, route-IsRouted}
use sirius_gateway.Routing.Service.Availability.{IsRoutable, route_iff}

abbrev IsOffered : RoutingCandidate Whole → Type 0
IsOffered c = is_some c.model.cost_per_1k_input ≡ is_some c.model.cost_per_1k_output

fastest-not-pinned : fastest ≢ pinned
fastest-not-pinned e = cc

fastest-not-privacy_first : fastest ≢ privacy_first
fastest-not-privacy_first e = cc

plan-perm_example : Perm (plan whole_numbers fastest mixed) (slow_cloud ∷ fast_local ∷ [])
plan-perm_example =
    plan-perm whole_numbers fastest mixed fastest-not-pinned fastest-not-privacy_first

local_first_test : select whole_numbers local_first mixed ≡ some fast_local
unfolding select rank_local_first sort_by insert_by
local_first_test = refl

abbrev ask : RouteRequest String
ask = record { model = "openai:gpt-4o"; stream = true; tools = none; embeddings = none }

abbrev sources : Sources ℕ Whole
sources = record {
  model_registry = two_models;
  provider_registry = ("openai", 7) ∷ [];
  latencies = [];
  now = 0;
}

two_models-IsValid : IsValid two_models
unfolding add_model
two_models-IsValid =
    register_model-IsValid cloud_model (init (local_model ∷ [])) (init-IsValid (local_model ∷ []))

IsRoutable_test : IsRoutable whole_numbers sources ask
unfolding resolve_model by_key by_id by_alias first_of_keys add_model register_model init
    register_all add_aliases add_alias Dict.set Dict.get Dict.delete build_candidates
    candidates_from candidate has_capability list_models derive_capabilities ProviderRegistry.get
IsRoutable_test = (
  resolved cloud_model,
  refl,
  record {
    model = cloud_model;
    registered = refl;
    same_model = refl;
    provided = refl;
    capable = refl;
  },
)

attempted : (route whole_numbers sources ask (some "fastest")).attempt_number ≢ 0
attempted e = cc (
    sym
      ((route_iff whole_numbers sources ask (some "fastest") two_models-IsValid).1 IsRoutable_test)
    ∙ e)

route-IsRouted_example :
    IsRouted whole_numbers sources
      ("chat" ∷ "streaming" ∷ [])
      (route whole_numbers sources ask (some "fastest"))
unfolding derive_capabilities
route-IsRouted_example =
    route-IsRouted whole_numbers sources ask (some "fastest") two_models-IsValid attempted

route_iff_example :
    ((route whole_numbers sources ask (some "fastest")).attempt_number ≡ 1)
    ↔ IsRoutable whole_numbers sources ask
route_iff_example = route_iff whole_numbers sources ask (some "fastest") two_models-IsValid
