-- ===== src/Routing/Service/Eligibility.antt =====
-- libs/sirius-routing/src/routing.service.ts: the candidates behind a decision.
use mathlib.Core.Bool.{and-eq-true_iff}
use mathlib.Core.Option.{get_or}
use sirius_gateway.Base.{
  String, true, List, [], ◌∷◌, Option, some, none, map, all, ◌==◌, ◌&&◌, is_empty, is_some, ◌≡◌,
  ◌≢◌, refl, All, All-filter, All-both, All-mono, filter-All, eq_iff, Bool-cases, Option-cases, inl,
  inr, sym, subst,
}
use sirius_gateway.Core.Numbers.{Numbers}
use sirius_gateway.Core.Models.{ModelCapabilityMatrix, RoutingDecision}
use sirius_gateway.Core.ProviderRegistry
use sirius_gateway.Registry.ModelRegistry.{Resolved, resolve_model, list_models}
use sirius_gateway.Registry.ModelRegistry.Validity.{IsValid, IsRegistered, registered-All}
use sirius_gateway.Routing.Strategies.{
  RoutingCandidate, RoutingContext, RoutingStrategy, is_up, select, build_fallback_chain,
}
use sirius_gateway.Routing.Strategies.Ranking.{strategy-All}
use sirius_gateway.Routing.Service.{
  Sources, RouteRequest, derive_capabilities, has_capability, build_candidates, candidates_from,
  candidate, decide, label, route, route_resolved, get_strategy, get_default_strategy, no_route,
}

module _ (F : Numbers) {A : Type 0} where
  open F use {Num}

  -- A candidate that may serve the request: a registered model with the wanted id, of a registered
  -- provider, with all capabilities that the request needs.
  pub record IsEligible (s : Sources A Num) (caps : List String) (model_id : String)
      (c : RoutingCandidate Num) : Type 0 where
    pub provided : is_some (ProviderRegistry.get c.model.provider s.provider_registry) ≡ true
    pub capable : all (has_capability c.model.capabilities) caps ≡ true
    pub same_model : c.model.model_id ≡ model_id
    pub registered : IsRegistered s.model_registry c.model

  module _ (s : Sources A Num) (caps : List String) (model_id : String) where
    Wanted : ModelCapabilityMatrix Num → Type 0
    Wanted m = IsRegistered s.model_registry m × (m.model_id ≡ model_id)

    candidates_from-IsEligible :
        (models : List (ModelCapabilityMatrix Num))
        → All (λ m. IsRegistered s.model_registry m × (m.model_id ≡ model_id)) models
        → All
            (λ c. IsEligible s caps model_id c × (is_up c ≡ true))
            (candidates_from F s caps models)
    unfolding candidates_from candidate
    candidates_from-IsEligible [] h = tt
    candidates_from-IsEligible (m ∷ models) ((listed, same), h) =
        elim (Bool-cases (
          is_some (ProviderRegistry.get m.provider s.provider_registry)
          && all (has_capability m.capabilities) caps)) [
            | inl fits ↦
                let (provided, capable) = (and-eq-true_iff _ _).0 fits in
                rw fits (
                  (
                    record {
                      provided = provided;
                      capable = capable;
                      same_model = same;
                      registered = listed;
                    },
                    refl,
                  ),
                  candidates_from-IsEligible models h,
                )
            | inr unfit ↦ rw unfit (candidates_from-IsEligible models h)
          ]

    pub build_candidates-IsEligible :
        IsValid s.model_registry
        → All
            (λ c. IsEligible s caps model_id c × (is_up c ≡ true))
            (build_candidates F s model_id caps)
    unfolding build_candidates list_models
    build_candidates-IsEligible v = candidates_from-IsEligible _ (
        All-mono (λ m h. (h.0, (eq_iff m.model_id model_id).0 h.1)) _
          (All-both (IsRegistered s.model_registry) (λ m. (m.model_id == model_id) ≡ true) _
            (All-filter (IsRegistered s.model_registry) (λ m. m.model_id == model_id) _
              (registered-All s.model_registry v))
            (filter-All (λ m. m.model_id == model_id) _)))

  -- A decision with a route: the chosen candidate and the fallbacks are all eligible.
  pub record IsRouted (s : Sources A Num) (caps : List String) (d : RoutingDecision) : Type 0 where
    pub chosen : RoutingCandidate Num
    pub fallbacks : List (RoutingCandidate Num)
    pub chosen_eligible : IsEligible s caps d.selected_model chosen
    pub provider : d.selected_provider ≡ chosen.model.provider
    pub fallback_labels : d.fallback_chain ≡ map (label F) fallbacks
    pub fallbacks_eligible : All (IsEligible s caps d.selected_model) fallbacks

  decide-IsRouted :
      (s : Sources A Num) (caps : List String) (name : String) (strategy : RoutingStrategy)
      (context : RoutingContext Num) (selected : Option (RoutingCandidate Num))
      → All (λ c. IsEligible s caps context.requested_model c × (is_up c ≡ true)) context.candidates
      → select F strategy context ≡ selected
      → (decide F name strategy context selected).attempt_number ≢ 0
      → IsRouted s caps (decide F name strategy context selected)
  unfolding decide no_route
  decide-IsRouted s caps name strategy context none h e ne = absurd (ne refl)
  decide-IsRouted s caps name strategy context (some c) h e ne =
      let (good, chain) =
        strategy-All F (λ c. IsEligible s caps context.requested_model c × (is_up c ≡ true))
          strategy context h in
      let elig = (good c e).0.0 in
      record {
        chosen = c;
        fallbacks = build_fallback_chain F strategy context;
        chosen_eligible = subst (λ i. IsEligible s caps i c) (sym elig.same_model) elig;
        provider = refl;
        fallback_labels = refl;
        fallbacks_eligible =
            All-mono (λ d k. subst (λ i. IsEligible s caps i d) (sym elig.same_model) k.0.0) _
              chain;
      }

  route_resolved-IsRouted :
      (s : Sources A Num) (caps : List String) (name : String) (x : Resolved)
      → IsValid s.model_registry
      → (route_resolved F s caps name x).attempt_number ≢ 0
      → IsRouted s caps (route_resolved F s caps name x)
  unfolding route_resolved no_route
  route_resolved-IsRouted s caps name x v ne =
      elim (Bool-cases (is_empty (build_candidates F s x.model_id caps))) [
        | inl nobody ↦ absurd (rw nobody at ne refl)
        | inr somebody ↦ rw somebody (
            decide-IsRouted s caps name (get_strategy name) _ _
              (build_candidates-IsEligible s caps x.model_id v) refl (rw somebody at ne))
      ]

  module _ {T : Type 0} (s : Sources A Num) (request : RouteRequest T) where
    -- If a decision has a route, then the selected provider and model, and every fallback, belong to
    -- a registered model of a registered provider that has all capabilities the request needs.
    pub route-IsRouted :
        (preferred : Option String)
        → IsValid s.model_registry
        → (route F s request preferred).attempt_number ≢ 0
        → IsRouted s (derive_capabilities request) (route F s request preferred)
    unfolding route no_route
    route-IsRouted preferred v ne =
        elim (Option-cases (resolve_model request.model s.model_registry)) [
          | inl unknown ↦ absurd (rw (unknown, route) at ne refl)
          | inr (x, known) ↦
              rw (known, route)
                (route_resolved-IsRouted s (derive_capabilities request)
                  (get_or preferred get_default_strategy) x v (rw (known, route) at ne))
        ]
