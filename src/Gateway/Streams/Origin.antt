-- ===== src/Gateway/Streams/Origin.antt =====
-- apps/sirius-api/src/gateway.service.ts: the origin of the events of `streamResponse`.
use sirius_gateway.Base.{
  ℕ, suc, String, List, [], ◌∷◌, ◌++◌, Option, some, none, ltb, is_empty, is_blank, ◌≡◌, refl, sym,
  ap, ◌∙◌, ◌⊎◌, inl, inr, All, Bool-cases,
}
use mathlib.Core.List.{append-nil}
use sirius_gateway.Base.Dict.{Dict}
use sirius_gateway.Core.Numbers.{Numbers}
use sirius_gateway.Core.Models.{RoutingDecision}
use sirius_gateway.Core.Messages.{UnifiedAiRequest, UnifiedStreamEvent}
use sirius_gateway.Core.ProviderRegistry
use sirius_gateway.Observability.StreamingObserver.{observe, observe_lem}
use sirius_gateway.Routing.Service.{Sources}
use sirius_gateway.Policy.Breaker.{Settings, Error}
use sirius_gateway.Policy.Stream.{Streaming, execute_stream_with_policy}
use sirius_gateway.Policy.Stream.Splicing.{execute_stream_with_policy-origin}
use sirius_gateway.Gateway.Providers.{StreamUpstream, Provider}
use sirius_gateway.Gateway.Chain.{Link, build_provider_chain}
use sirius_gateway.Gateway.Chain.Labels.{IsLive, build_provider_chain-IsLive}
use sirius_gateway.Gateway.Responses.{GatewayState}
use sirius_gateway.Gateway.Streams.{
  take_events, error_event, stream_end, stream_chain, stream_decided, stream_response,
}

take_events-prefix :
    (idle_timeout : ℕ) (waits : ℕ → ℕ) (i : ℕ) (events : List UnifiedStreamEvent)
    (failure : Option Error)
    → (rest : List UnifiedStreamEvent) × ((take_events idle_timeout waits i events failure).0
          ++ rest
        ≡ events)
unfolding take_events
take_events-prefix idle_timeout waits i [] failure = ([], refl)
take_events-prefix idle_timeout waits i (e ∷ events) failure =
    elim (Bool-cases (ltb (waits i) idle_timeout)) [
      | inl early ↦
          let (rest, h) = take_events-prefix idle_timeout waits (suc i) events failure in
          rw early (rest, ap (λ t. e ∷ t) h)
      | inr late ↦ rw late (e ∷ events, refl)
    ]

-- Nothing, or one error event.
abbrev pub IsNotice : List UnifiedStreamEvent → Type 0
IsNotice notice = (notice ≡ []) ⊎ ((message : String) × (notice ≡ error_event message ∷ []))

module _ (F : Numbers) (J : Type 0) (printed : ℕ → String) (s : Settings) (idle_timeout : ℕ) where
  open F use {Num}

  module _ (request : UnifiedAiRequest Num J) (providers : Dict (Provider F J)) where
    -- The events are those of one attempt at a registered provider, for some model.
    pub record IsAttempt (events : List UnifiedStreamEvent) : Type 0 where
      pub name : String
      pub model_id : String
      pub provider : Provider F J
      pub registered : ProviderRegistry.get name providers ≡ some provider
      pub attempt : ℕ
      pub same :
          events
          ≡ ((provider.stream_response (record request { model = model_id })).attempts
              attempt).events

    -- What the client receives: the first events of one attempt, or nothing, and then at most one
    -- error event of the gateway.
    pub record IsUnspliced (events : List UnifiedStreamEvent) : Type 0 where
      pub shown : List UnifiedStreamEvent
      pub unshown : List UnifiedStreamEvent
      pub notice : List UnifiedStreamEvent
      pub all : events ≡ shown ++ notice
      pub origin : (shown ≡ []) ⊎ IsAttempt (shown ++ unshown)
      pub last : IsNotice notice

    unspliced :
        (shown unshown : List UnifiedStreamEvent)
        → (shown ≡ []) ⊎ IsAttempt (shown ++ unshown)
        → (message : String) → IsUnspliced shown × IsUnspliced (shown ++ error_event message ∷ [])
    unspliced shown unshown o message = (
      record {
        shown = shown;
        unshown = unshown;
        notice = [];
        all = sym (append-nil shown);
        origin = o;
        last = inl refl;
      },
      record {
        shown = shown;
        unshown = unshown;
        notice = error_event message ∷ [];
        all = refl;
        origin = o;
        last = inr (message, refl);
      },
    )

    stream_end-IsUnspliced :
        (up : StreamUpstream Num) (name : String) (yielded unshown : List UnifiedStreamEvent)
        (failure : Option Error) (st : GatewayState Num)
        (next : Error → List UnifiedStreamEvent × GatewayState Num)
        → (yielded ≡ []) ⊎ IsAttempt (yielded ++ unshown)
        → ((e : Error) → IsUnspliced (next e).0)
        → IsUnspliced (stream_end F J printed s idle_timeout up name yielded failure st next).0
    unfolding stream_end
    stream_end-IsUnspliced up name yielded unshown none st next o h =
        (unspliced yielded unshown o "").0
    stream_end-IsUnspliced up name yielded unshown (some e) st next o h =
        elim (Bool-cases up.aborted) [
          | inl gone ↦ rw gone (unspliced yielded unshown o "").0
          | inr there ↦ rw there (elim (Bool-cases (is_empty yielded)) [
            | inl silent ↦ rw silent (h e)
            | inr spoke ↦ rw spoke (unspliced yielded unshown o _).1
          ])
        ]

    link_origin :
        (l : Link (Provider F J)) (up : StreamUpstream Num) (x : Streaming UnifiedStreamEvent)
        → ProviderRegistry.get l.name providers ≡ some l.provider
        → up ≡ l.provider.stream_response (record request { model = l.model_id })
        → (x.events ≡ []) ⊎ ((i : ℕ) × (x.events ≡ (up.attempts i).events))
        → (shown unshown : List UnifiedStreamEvent) → shown ++ unshown ≡ x.events
        → (shown ≡ []) ⊎ IsAttempt (shown ++ unshown)
    link_origin l up x live same (inl silent) [] unshown h = inl refl
    link_origin l up x live same (inl silent) (e ∷ shown) unshown h = cc (h ∙ silent)
    link_origin l up x live same (inr (i, q)) shown unshown h = inr (record {
      name = l.name;
      model_id = l.model_id;
      provider = l.provider;
      registered = live;
      attempt = i;
      same = h ∙ q ∙ ap (λ (u : StreamUpstream Num). (u.attempts i).events) same;
    })

    stream_chain-IsUnspliced :
        (chain : List (Link (Provider F J)))
        → All (IsLive providers) chain
        → (last : Option Error) (st : GatewayState Num)
        → IsUnspliced (stream_chain F J printed s idle_timeout request chain last st).0
    unfolding stream_chain
    stream_chain-IsUnspliced [] a last st = (unspliced [] [] (inl refl) _).1
    stream_chain-IsUnspliced (l ∷ chain) (live, a) last st =
        let up = l.provider.stream_response (record request { model = l.model_id }) in
        let x = execute_stream_with_policy s l.name up.attempts up.caller up.now st.circuits in
        let (unshown, h) =
          take_events-prefix idle_timeout up.waits 0 (observe x.events).0 x.failure in
        stream_end-IsUnspliced up l.name _ unshown _ _ _
          (link_origin l up x live refl
            (execute_stream_with_policy-origin s l.name up.attempts up.caller up.now st.circuits) _
            unshown (h ∙ (observe_lem x.events).0))
          (λ e. stream_chain-IsUnspliced chain a (some e) (record st { circuits = x.circuits }))

    -- Whatever the decision, the providers and the timers do: the client of a stream receives the first
    -- events of exactly one attempt at one registered provider, or nothing, and after them at most one
    -- error event of the gateway.
    pub stream_decided-IsUnspliced :
        (decision : RoutingDecision) (st : GatewayState Num)
        → IsUnspliced
            (stream_decided F J printed s idle_timeout request providers decision st).0.events
    unfolding stream_decided
    stream_decided-IsUnspliced decision st =
        elim (Bool-cases (is_blank decision.selected_provider)) [
          | inl nobody ↦ rw (stream_decided, nobody) (unspliced [] [] (inl refl) "").0
          | inr somebody ↦
              rw (stream_decided, somebody)
                (stream_chain-IsUnspliced (build_provider_chain decision providers)
                  (build_provider_chain-IsLive providers decision) none st)
        ]

  pub stream_response-IsUnspliced :
      (request : UnifiedAiRequest Num J) (sources : Sources (Provider F J) Num)
      (st : GatewayState Num)
      → IsUnspliced request sources.provider_registry
          (stream_response F J printed s idle_timeout sources request st).0.events
  unfolding stream_response
  stream_response-IsUnspliced request sources st =
      stream_decided-IsUnspliced request sources.provider_registry _ st
