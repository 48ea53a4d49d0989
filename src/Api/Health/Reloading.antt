-- ===== src/Api/Health/Reloading.antt =====
-- apps/sirius-api/src/controllers/health.controller.ts: what resolves after a reload.
use sirius_gateway.Base.{
  String, true, List, [], ◌∷◌, ◌++◌, Option, some, none, map, is_some, ◌≡◌, refl, sym, ◌∙◌, All,
  subst,
}
use mathlib.Core.Option.{get_or}
use sirius_gateway.Base.Dict.{Dict}
use sirius_gateway.Core.Models.{ModelInfo}
use sirius_gateway.Registry.ModelRegistry.{ModelRegistry, resolve_model}
use sirius_gateway.Registry.ModelRegistry.Validity.{IsValid}
use sirius_gateway.Registry.ModelDiscovery.{Probe, Boot, backfill_all, backfill_provider_by_name}
use sirius_gateway.Registry.ModelDiscovery.Reachable.{found_by, found, backfill_all-resolves}
use sirius_gateway.Registry.ModelDiscovery.ByName.{
  probe_or_none, boot_of, backfill_all-by_name, backfill_all-nil,
}
use sirius_gateway.FromFile.{SiriusProviderFileEntry, Built}
use sirius_gateway.FromFile.Reconcile.{FromFileReloadResult, FromFileReloadService}
use sirius_gateway.FromFile.Reconcile.Reload.{after, reload-after}
use sirius_gateway.Api.Health.{probes_of, backfill_names, providers_reload}

-- What a provider lists, if it is registered and answers.
abbrev pub listed_by : Dict Probe → String → List ModelInfo
listed_by probes name = get_or (probe_or_none name probes) []

found_once : (probe : Probe) → found_by probe none ≡ get_or probe []
found_once none = refl
found_once (some []) = refl
found_once (some (info ∷ models)) = refl

module _ {N : Type 0} where
  backfill_names_lem :
      (names : List String) (probes : Dict Probe) (r : ModelRegistry N)
      → backfill_names names probes r ≡ (backfill_all (map (boot_of probes) names) r).0
  unfolding backfill_names
  backfill_names_lem [] probes r = sym (backfill_all-nil r)
  backfill_names_lem (name ∷ names) probes r =
      backfill_names_lem names probes (backfill_provider_by_name name probes r).0
      ∙ sym (backfill_all-by_name name probes (map (boot_of probes) names) r)

  -- Every model that one of some providers lists resolves.
  abbrev pub Resolves : ModelRegistry N → Dict Probe → List String → Type 0
  Resolves r probes names =
      All
        (λ (name : String).
          All (λ (info : ModelInfo). is_some (resolve_model info.id r) ≡ true)
            (listed_by probes name))
        names

  Resolves-boots :
      (r : ModelRegistry N) (probes : Dict Probe) (names : List String)
      → All
          (λ (b : Boot).
            All (λ (info : ModelInfo). is_some (resolve_model info.id r) ≡ true) (found b))
          (map (boot_of probes) names)
      → Resolves r probes names
  Resolves-boots r probes [] h = tt
  Resolves-boots r probes (name ∷ names) (h, k) = (
    subst (All (λ (info : ModelInfo). is_some (resolve_model info.id r) ≡ true))
        (found_once (probe_or_none name probes)) h,
    Resolves-boots r probes names k,
  )

  module _ {P : Type 0} (build_entry : SiriusProviderFileEntry → Built P)
      (probe_of : P → Probe) where
    -- If the provider file can be read and the model registry is valid, then after a reload every
    -- model that an added or a kept provider lists resolves, in whatever order the probes settle.
    pub providers_reload-Resolves :
        (load : String → Option (List SiriusProviderFileEntry))
        (settled : List String → List String) (s : FromFileReloadService build_entry)
        (models : ModelRegistry N) (entries : List SiriusProviderFileEntry)
        → load s.path ≡ some entries
        → IsValid models
        → (result : FromFileReloadResult) × ((providers_reload build_entry probe_of load settled s
              models).0
            ≡ some result)
          × Resolves
              (providers_reload build_entry probe_of load settled s models).2
              (probes_of probe_of
                (providers_reload build_entry probe_of load settled s models).1.registry)
              (settled (result.added ++ result.kept))
    unfolding providers_reload
    providers_reload-Resolves load settled s models entries h v =
        let r = after build_entry s.path entries s.registry s.owned in
        let names = settled (r.result.added ++ r.result.kept) in
        let probes = probes_of probe_of r.registry in
        (
          r.result,
          rw (providers_reload, reload-after build_entry load s entries h) refl,
          rw
              (
                providers_reload,
                reload-after build_entry load s entries h,
                reload-after build_entry load s entries h,
              )
              (subst (λ (q : ModelRegistry N). Resolves q probes names)
                (sym (backfill_names_lem names probes models))
                (Resolves-boots _ probes names
                  (backfill_all-resolves (map (boot_of probes) names) models v))),
        )
