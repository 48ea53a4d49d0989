-- ===== src/Routing/Service/Availability.antt =====
-- libs/sirius-routing/src/routing.service.ts: decisions with and without a route.
use mathlib.Core.Option.{get_or}
use sirius_gateway.Base.{
  String, all, eq_refl, ◌==◌, ◌&&◌, true, false, List, [], ◌∷◌, Option, some, none, if◌then◌else◌,
  filter, map, is_empty, is_some, ◌≡◌, refl, All, All-mono, arith, Bool-cases, Option-cases, inl,
  inr, ◌↔◌, ap, ◌∙◌, sym, subst,
}
use sirius_gateway.Base.Dict
use sirius_gateway.Base.Dict.{Dict}
use sirius_gateway.Core.Models.{ModelCapabilityMatrix}
use sirius_gateway.Core.ProviderRegistry
use sirius_gateway.Core.Numbers.{Numbers}
use sirius_gateway.Registry.ModelRegistry.{Resolved, resolve_model, list_models}
use sirius_gateway.Registry.ModelRegistry.Validity.{IsValid, IsRegistered}
use sirius_gateway.Routing.Strategies.{
  RoutingCandidate, RoutingContext, RoutingStrategy, pinned, is_up, select,
}
use sirius_gateway.Routing.Strategies.Order.{is_some-select, build_fallback_chain-pinned}
use sirius_gateway.Routing.Service.{
  Sources, RouteRequest, derive_capabilities, build_candidates, candidates_from, has_capability,
  decide, label, route, route_resolved, get_strategy, get_default_strategy, no_route,
}
use sirius_gateway.Routing.Service.Eligibility.{IsEligible, build_candidates-IsEligible}

module _ (F : Numbers) where
  open F use {Num}

  decide-pinned :
      (name : String) (context : RoutingContext Num) (selected : Option (RoutingCandidate Num))
      → (decide F name pinned context selected).fallback_chain ≡ []
  unfolding decide no_route
  decide-pinned name context none = refl
  decide-pinned name context (some c) = ap (map (label F)) (build_fallback_chain-pinned F context)

  filter-up :
      (cs : List (RoutingCandidate Num)) → All (λ c. is_up c ≡ true) cs → filter is_up cs ≡ cs
  filter-up [] h = refl
  filter-up (c ∷ cs) (up, h) = rw up (ap (λ t. c ∷ t) (filter-up cs h))

  decide-attempt :
      (name : String) (strategy : RoutingStrategy) (context : RoutingContext Num)
      (selected : Option (RoutingCandidate Num))
      → is_some selected ≡ true
      → (decide F name strategy context selected).attempt_number ≡ 1
  unfolding decide
  decide-attempt name strategy context none h = cc
  decide-attempt name strategy context (some c) h = refl

  decide-routed :
      (name : String) (strategy : RoutingStrategy) (context : RoutingContext Num)
      → is_empty context.candidates ≡ false
      → All (λ c. is_up c ≡ true) context.candidates
      → (decide F name strategy context (select F strategy context)).attempt_number ≡ 1
  decide-routed name strategy context ne up =
      decide-attempt name strategy context _
        (is_some-select F strategy context ∙ rw (filter-up context.candidates up, ne))

module _ (F : Numbers) {A : Type 0} where
  open F use {Num}

  abbrev context_of : Sources A Num → List String → Resolved → RoutingContext Num
  context_of s caps x = record {
    requested_model = x.model_id;
    required_capabilities = caps;
    candidates = build_candidates F s x.model_id caps;
  }

  -- A registered model with an id, of a registered provider, that has all the capabilities.
  pub record IsOffered (s : Sources A Num) (caps : List String) (model_id : String) : Type 0 where
    pub model : ModelCapabilityMatrix Num
    pub registered : IsRegistered s.model_registry model
    pub same_model : model.model_id ≡ model_id
    pub provided : is_some (ProviderRegistry.get model.provider s.provider_registry) ≡ true
    pub capable : all (has_capability model.capabilities) caps ≡ true

  module _ (s : Sources A Num) (caps : List String) (model_id : String) where
    first-IsOffered :
        (cs : List (RoutingCandidate Num))
        → All (λ c. IsEligible F s caps model_id c × (is_up c ≡ true)) cs
        → is_empty cs ≡ false
        → IsOffered s caps model_id
    first-IsOffered [] h ne = cc
    first-IsOffered (c ∷ cs) ((e, up), h) ne = record {
      model = c.model;
      registered = e.registered;
      same_model = e.same_model;
      provided = e.provided;
      capable = e.capable;
    }

    abbrev IsUnfit : String × ModelCapabilityMatrix Num → Type 0
    IsUnfit b =
        ((b.1.model_id == model_id)
          && (is_some (ProviderRegistry.get b.1.provider s.provider_registry)
              && all (has_capability b.1.capabilities) caps))
        ≡ false

    IsUnfit-All :
        (models : Dict (ModelCapabilityMatrix Num))
        → is_empty
            (candidates_from F s caps (filter (λ m. m.model_id == model_id) (Dict.values models)))
          ≡ true
        → All IsUnfit models
    unfolding candidates_from
    IsUnfit-All [] h = tt
    IsUnfit-All ((k, m) ∷ models) h = elim (Bool-cases (m.model_id == model_id)) [
      | inr other ↦ (rw other refl, IsUnfit-All models (rw other at h))
      | inl same ↦
          elim (Bool-cases (
            is_some (ProviderRegistry.get m.provider s.provider_registry)
            && all (has_capability m.capabilities) caps)) [
              | inl fits ↦ absurd (cc (rw (same, fits) at h))
              | inr unfit ↦ (rw (same, unfit) refl, IsUnfit-All models (rw (same, unfit) at h))
            ]
    ]

    build_candidates-offered :
        IsOffered s caps model_id → is_empty (build_candidates F s model_id caps) ≡ false
    unfolding build_candidates list_models
    build_candidates-offered o = elim (Bool-cases (is_empty (build_candidates F s model_id caps))) [
      | inl nobody ↦
          let unfit =
            Dict.All-get IsUnfit _ o.model s.model_registry.models
              (IsUnfit-All s.model_registry.models nobody) o.registered in
          absurd (
            cc (
              rw (ap (λ i. i == model_id) o.same_model ∙ eq_refl model_id, o.provided, o.capable) at
                unfit))
      | inr somebody ↦ somebody
    ]

  module _ {T : Type 0} (s : Sources A Num) (request : RouteRequest T) where
    -- A strategy name that stands for `pinned` gives a decision without fallbacks.
    route-pinned :
        (preferred : Option String)
        → get_strategy (get_or preferred get_default_strategy) ≡ pinned
        → (route F s request preferred).fallback_chain ≡ []
    unfolding route route_resolved decide no_route
    route-pinned preferred p = elim (Option-cases (resolve_model request.model s.model_registry)) [
      | inl unknown ↦ rw (unknown, route)
      | inr (x, known) ↦ rw (known, route) (resolved_chain x)
    ]
      where
        name : String
        name = get_or preferred get_default_strategy

        resolved_chain :
            (x : Resolved)
            → (route_resolved F s (derive_capabilities request) name x).fallback_chain ≡ []
        resolved_chain x =
            rw (p, route_resolved)
              (ground (
                arith,
                decide-pinned F name (context_of s (derive_capabilities request) x)
                    (select F pinned (context_of s (derive_capabilities request) x)),
              ))

    -- Without a preferred strategy a decision has no fallbacks.
    pub route-no_fallbacks : (route F s request none).fallback_chain ≡ []
    unfolding get_strategy
    route-no_fallbacks = route-pinned none refl

    -- The request's model resolves, and a model with its id is offered.
    abbrev pub IsRoutable : Type 0
    IsRoutable =
        (x : Resolved) × (resolve_model request.model s.model_registry ≡ some x)
        × IsOffered s (derive_capabilities request) x.model_id

    route_resolved-attempt :
        (name : String) (x : Resolved)
        → IsValid s.model_registry
        → (route_resolved F s (derive_capabilities request) name x).attempt_number ≡ (
            if is_empty (build_candidates F s x.model_id (derive_capabilities request))
            then 0
            else 1)
    unfolding route_resolved no_route
    route_resolved-attempt name x v =
        elim (Bool-cases
          (is_empty (build_candidates F s x.model_id (derive_capabilities request)))) [
            | inl nobody ↦ rw nobody
            | inr somebody ↦ rw somebody (
                decide-routed F name (get_strategy name)
                  (context_of s (derive_capabilities request) x) somebody
                  (All-mono (λ c k. k.1) _
                    (build_candidates-IsEligible F s (derive_capabilities request) x.model_id v)))
          ]

    -- With a valid model registry a decision has a route, and is then the first attempt, exactly when
    -- the requested model resolves and a model with the resolved id is registered, whose provider is
    -- registered and that has all capabilities that the request needs, whatever the strategy.
    pub route_iff :
        (preferred : Option String)
        → IsValid s.model_registry
        → ((route F s request preferred).attempt_number ≡ 1) ↔ IsRoutable
    unfolding route no_route
    route_iff preferred v = elim (Option-cases (resolve_model request.model s.model_registry)) [
      | inl unknown ↦
          (λ e. absurd (omega (arith, rw (unknown, route) at e)), λ r. cc (sym unknown ∙ r.1))
      | inr (x, known) ↦ (
        λ e. (
          x,
          known,
          first-IsOffered s (derive_capabilities request) x.model_id _
              (build_candidates-IsEligible F s (derive_capabilities request) x.model_id v)
              (ground (arith, route_resolved-attempt name x v, rw (known, route) at e)),
        ),
        λ r.
            let same : r.0 ≡ x = cc (sym r.1 ∙ known) in
            rw (known, route)
              (route_resolved-attempt name x v
                ∙ rw
                    (build_candidates-offered s (derive_capabilities request) x.model_id
                      (subst (λ y. IsOffered s (derive_capabilities request) y.model_id) same r.2))
                    refl),
      )
    ]
      where
        name : String
        name = get_or preferred get_default_strategy
