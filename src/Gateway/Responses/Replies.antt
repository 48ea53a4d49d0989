-- ===== src/Gateway/Responses/Replies.antt =====
-- apps/sirius-api/src/gateway.service.ts: the replies of `createResponse`.
use sirius_gateway.Base.{
  ℕ, suc, String, false, List, [], ◌∷◌, Option, some, none, if◌then◌else◌, is_blank, ◌≡◌, refl, All,
  Bool-cases, inl, inr,
}
use sirius_gateway.Base.Dict.{Dict}
use sirius_gateway.Core.Numbers.{Numbers}
use sirius_gateway.Core.Models.{RoutingDecision}
use sirius_gateway.Core.Messages.{UnifiedAiRequest, UnifiedAiResponse}
use sirius_gateway.Core.ProviderRegistry
use sirius_gateway.Routing.Service.{Sources, route}
use sirius_gateway.Routing.Service.Availability.{route-no_fallbacks}
use sirius_gateway.Policy.Breaker.{Settings, CircuitState, Error, Result, ok, err}
use sirius_gateway.Policy.Retry.{Execution, execute_with_policy}
use sirius_gateway.Gateway.Chain.{Link, link_to}
use sirius_gateway.Gateway.Chain.Labels.{
  IsLive, build_provider_chain-IsLive, build_provider_chain-alone,
}
use sirius_gateway.Gateway.Responses.{
  Reply, replied, no_provider, all_failed, failed, GatewayState, Response, with_meta, respond_from,
  sources_of, respond, create_response,
}
use sirius_gateway.Gateway.Providers.{Provider}

module _ (F : Numbers) (J : Type 0) (s : Settings) (request : UnifiedAiRequest (F.Num) J) where
  open F use {Num}

  -- One use of a provider under the policy.
  abbrev pub use_provider :
      String → String → Provider F J → Dict CircuitState → Execution (UnifiedAiResponse Num)
  use_provider name model_id p circuits =
      let up = p.create_response (record request { model = model_id }) in
      execute_with_policy s name up.attempts up.caller up.now circuits

  -- A reply's response is what a provider of the registry answered under the policy, for the model
  -- that the reply names and under the provider's name.
  abbrev pub IsServed : Dict (Provider F J) → Reply (Response F J) → Type 0
  IsServed providers (replied (response, m)) =
      (p : Provider F J) × (ProviderRegistry.get m.provider providers ≡ some p)
      × ((circuits : Dict CircuitState) × ((use_provider m.provider m.model p circuits).result
            ≡ ok response))
  IsServed providers _ = Unit

  respond_from-IsServed :
      (providers : Dict (Provider F J)) (strategy : String) (chain : List (Link (Provider F J)))
      → All (IsLive providers) chain
      → (i : ℕ) (last : Option Error) (st : GatewayState Num)
      → IsServed providers (respond_from F J s strategy request chain i last st).0
  unfolding respond_from with_meta
  respond_from-IsServed providers strategy [] a i last st = tt
  respond_from-IsServed providers strategy (l ∷ chain) (live, a) i last st =
      by_result _ refl (respond_from-IsServed providers strategy chain a (suc i))
    where
      by_result :
          (r : Result (UnifiedAiResponse Num))
          → (use_provider l.name l.model_id l.provider st.circuits).result ≡ r
          → ((last : Option Error) (later : GatewayState Num)
              → IsServed providers (respond_from F J s strategy request chain (suc i) last later).0)
          → IsServed providers (respond_from F J s strategy request (l ∷ chain) i last st).0
      by_result (ok response) e later = rw (respond_from, e) (l.provider, live, (st.circuits, e))
      by_result (err x) e later =
          elim (Bool-cases
            (l.provider.create_response (record request { model = l.model_id })).aborted) [
              | inl gone ↦ rw (respond_from, e, gone) tt
              | inr there ↦ rw (respond_from, e, there) (later (some x) _)
            ]

  -- Whatever the routing decision, its fallbacks included: a reply's response is what a registered
  -- provider answered under the policy, for the model and the provider that the reply names.
  pub respond-IsServed :
      (providers : Dict (Provider F J)) (decision : RoutingDecision) (st : GatewayState Num)
      → IsServed providers (respond F J s request providers decision st).0
  unfolding respond
  respond-IsServed providers decision st = elim (Bool-cases (is_blank decision.selected_provider)) [
    | inl nobody ↦ rw (respond, nobody) tt
    | inr somebody ↦
        rw (respond, somebody)
          (respond_from-IsServed providers decision.strategy _
            (build_provider_chain-IsLive providers decision) 0 none st)
  ]

  -- The decision that `createResponse` takes.
  abbrev pub decision_for : Sources (Provider F J) Num → GatewayState Num → RoutingDecision
  decision_for sources st =
      route F (record sources { latencies = st.latencies })
        (record { model = request.model; stream = false; tools = request.tools; embeddings = none })
        none

  -- The reply of a gateway that tries the selected provider and no other.
  abbrev pub single_use :
      RoutingDecision → Option (Provider F J) → GatewayState Num → Reply (Response F J)
  single_use d none st = all_failed none request.model
  single_use d (some p) st =
      elim (use_provider d.selected_provider d.selected_model p st.circuits).result [
        | ok response ↦ replied (
          response,
          record {
            provider = d.selected_provider;
            model = d.selected_model;
            strategy = d.strategy;
            tokens_used = response.usage.total_tokens;
            provider_latency_ms = response.latency_ms;
            fallback_used = false;
          },
        )
        | err e ↦
            if (p.create_response (record request { model = d.selected_model })).aborted
            then failed e
            else all_failed (some e) request.model
      ]

  respond-single :
      (providers : Dict (Provider F J)) (d : RoutingDecision) (st : GatewayState Num)
      → d.fallback_chain ≡ []
      → (respond F J s request providers d st).0 ≡ (
          if is_blank d.selected_provider
          then no_provider d.reason
          else single_use d (ProviderRegistry.get d.selected_provider providers) st)
  unfolding respond respond_from with_meta
  respond-single providers d st h = elim (Bool-cases (is_blank d.selected_provider)) [
    | inl nobody ↦ rw nobody refl
    | inr somebody ↦ rw (somebody, build_provider_chain-alone providers d h) (found _)
  ]
    where
      tried :
          (p : Provider F J) (r : Result (UnifiedAiResponse Num))
          → (use_provider d.selected_provider d.selected_model p st.circuits).result ≡ r
          → (respond_from F J s d.strategy request
              (link_to d.selected_provider d.selected_model (some p))
              0
              none
              st).0
            ≡ single_use d (some p) st
      tried p (ok response) e = rw (respond_from, single_use, e) refl
      tried p (err x) e =
          elim (Bool-cases
            (p.create_response (record request { model = d.selected_model })).aborted) [
              | inl gone ↦ rw (respond_from, single_use, e, gone) refl
              | inr there ↦ rw (respond_from, single_use, e, there) refl
            ]

      found :
          (o : Option (Provider F J))
          → (respond_from F J s d.strategy request
              (link_to d.selected_provider d.selected_model o)
              0
              none
              st).0
            ≡ single_use d o st
      found none = refl
      found (some p) = tried p _ refl

  -- The call tries the selected provider and no other, and so reports no fallback: its own routing
  -- decision never has one.
  pub create_response-single :
      (sources : Sources (Provider F J) Num) (st : GatewayState Num)
      → let d = decision_for sources st in
        (create_response F J s sources request st).0 ≡ (
          if is_blank d.selected_provider
          then no_provider d.reason
          else single_use d (ProviderRegistry.get d.selected_provider sources.provider_registry) st)
  unfolding create_response sources_of
  create_response-single sources st =
      respond-single sources.provider_registry (decision_for sources st) st
        (route-no_fallbacks F (record sources { latencies = st.latencies }) _)
