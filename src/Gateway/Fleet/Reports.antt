-- ===== src/Gateway/Fleet/Reports.antt =====
-- apps/sirius-api/src/gateway.service.ts: what `listModels` and `getProviderHealth` report.
use mathlib.Core.List.{append_assoc}
use sirius_gateway.Base.{
  ℕ, String, List, [], ◌∷◌, ◌++◌, some, map, ◌≡◌, refl, sym, ◌∙◌, ap, All, Bool-cases, inl, inr,
  ◌==◌,
}
use sirius_gateway.Base.Dict
use sirius_gateway.Base.Dict.{Dict}
use sirius_gateway.Core.Numbers.{Numbers}
use sirius_gateway.Core.Models.{ModelInfo, ProviderHealth}
use sirius_gateway.Core.ProviderRegistry
use sirius_gateway.Gateway.Providers.{Settled, fulfilled, rejected, Provider}
use sirius_gateway.Gateway.Fleet.{collect_models, list_models, health_report, get_provider_health}

-- Models stand somewhere in a list, in a row and in their order.
abbrev pub IsWithin : List ModelInfo → List ModelInfo → Type 0
IsWithin models all =
    (before : List ModelInfo) × (after : List ModelInfo) × (all ≡ before ++ (models ++ after))

IsWithin-next :
    (result : Settled (List ModelInfo)) (models : List ModelInfo)
    (results : List (Settled (List ModelInfo)))
    → IsWithin models (collect_models results)
    → IsWithin models (collect_models (result ∷ results))
unfolding collect_models
IsWithin-next (fulfilled ms) models results (before, after, e) =
    (ms ++ before, after, ap (λ t. ms ++ t) e ∙ sym (append_assoc ms before (models ++ after)))
IsWithin-next (rejected reason) models results h = h

module _ (F : Numbers) (J : Type 0) where
  open F use {Num}

  -- `listModels` lists the models of every provider that answers, whatever the other providers do.
  pub list_models-IsWithin :
      (name : String) (p : Provider F J) (models : List ModelInfo) (providers : Dict (Provider F J))
      → ProviderRegistry.get name providers ≡ some p
      → p.list_models ≡ fulfilled models
      → IsWithin models (list_models F J providers)
  unfolding list_models collect_models ProviderRegistry.get ProviderRegistry.get_all Dict.get
  list_models-IsWithin name p models [] h e = cc
  list_models-IsWithin name p models ((k, q) ∷ providers) h e = elim (Bool-cases (k == name)) [
    | inl same ↦
        let here : q.list_models ≡ fulfilled models = cc (rw same at h) in rw here ([], _, refl)
    | inr other ↦
        IsWithin-next q.list_models models _
          (list_models-IsWithin name p models providers (rw other at h) e)
  ]

  -- A provider that answers its health check reports itself.
  abbrev pub IsNamed : String × Provider F J → Type 0
  IsNamed b = (h : ProviderHealth Num) → b.1.health_check ≡ fulfilled h → h.provider ≡ b.0

  health_report-provider :
      (latencies : Dict (List Num)) (now : ℕ) (name : String)
      (result : Settled (ProviderHealth Num))
      → ((h : ProviderHealth Num) → result ≡ fulfilled h → h.provider ≡ name)
      → (health_report F J latencies now name result).provider ≡ name
  unfolding health_report
  health_report-provider latencies now name (fulfilled h) k = k h refl
  health_report-provider latencies now name (rejected reason) k = refl

  -- `getProviderHealth` has one report for each registered provider, in the order of registration,
  -- answered or not, if the providers that answer report themselves.
  pub get_provider_health-names :
      (providers : Dict (Provider F J)) (latencies : Dict (List Num)) (now : ℕ)
      → All IsNamed providers
      → map
          (λ (h : ProviderHealth Num). h.provider)
          (get_provider_health F J providers latencies now)
        ≡ ProviderRegistry.get_names providers
  unfolding get_provider_health ProviderRegistry.get_names
  get_provider_health-names [] latencies now a = refl
  get_provider_health-names ((k, q) ∷ providers) latencies now (h, a) =
      rw
        (
          health_report-provider latencies now k q.health_check h,
          get_provider_health-names providers latencies now a,
        )
        refl
