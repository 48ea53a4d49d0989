-- ===== src/Registry/ModelDiscovery/ByName.antt =====
-- libs/sirius-model-registry/src/model-discovery.service.ts: `backfillProviderByName`, compared with
-- the backfill of all providers.
use sirius_gateway.Base.{
  String, true, false, List, [], ◌∷◌, some, none, Option-cases, inl, inr, ◌≡◌, refl, ap, sym,
}
use mathlib.Core.Option.{get_or}
use sirius_gateway.Base.Dict.{Dict}
use sirius_gateway.Core.ProviderRegistry
use sirius_gateway.Registry.ModelRegistry.{ModelRegistry}
use sirius_gateway.Registry.ModelDiscovery.{
  Probe, Boot, backfill_provider, backfill_all, backfill_provider_by_name, register_probe,
}

-- The probe of a name; a provider that is not registered lists nothing.
abbrev pub probe_or_none : String → Dict Probe → Probe
probe_or_none name probes = get_or (ProviderRegistry.get name probes) none

abbrev pub boot_of : Dict Probe → String → Boot
boot_of probes name = record { name = name; first = probe_or_none name probes; second = none }

module _ {N : Type 0} where
  retry_without_second :
      (name : String) (first : Probe) (r : ModelRegistry N)
      → backfill_provider false name first none r ≡ backfill_provider true name first none r
  unfolding backfill_provider register_probe
  retry_without_second name none r = refl
  retry_without_second name (some []) r = refl
  retry_without_second name (some (info ∷ models)) r = refl

  by_name_lem :
      (name : String) (probes : Dict Probe) (r : ModelRegistry N)
      → backfill_provider_by_name name probes r
        ≡ backfill_provider true name (probe_or_none name probes) none r
  unfolding backfill_provider_by_name backfill_provider
  by_name_lem name probes r = elim (Option-cases (ProviderRegistry.get name probes)) [
    | inl missing ↦ rw (backfill_provider_by_name, missing) refl
    | inr (probe, there) ↦ rw (backfill_provider_by_name, there) (retry_without_second name probe r)
  ]

  pub backfill_all-by_name :
      (name : String) (probes : Dict Probe) (boots : List Boot) (r : ModelRegistry N)
      → (backfill_all (boot_of probes name ∷ boots) r).0
        ≡ (backfill_all boots (backfill_provider_by_name name probes r).0).0
  unfolding backfill_all
  backfill_all-by_name name probes boots r =
      ap (λ x. (backfill_all boots x.0).0) (sym (by_name_lem name probes r))

  pub backfill_all-nil : (r : ModelRegistry N) → (backfill_all [] r).0 ≡ r
  unfolding backfill_all
  backfill_all-nil r = refl
