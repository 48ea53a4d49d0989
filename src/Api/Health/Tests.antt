-- ===== src/Api/Health/Tests.antt =====
-- apps/sirius-api/src/controllers: the reload of health.controller.ts and the list of
-- models.controller.ts on samples, and the uses of their theorems there.
use sirius_gateway.Base.{String, List, [], ◌∷◌, ◌++◌, Option, some, none, ◌≡◌, refl}
use sirius_gateway.Core.Numbers.{Whole}
use sirius_gateway.Core.Models.{ModelInfo}
use sirius_gateway.Samples.{cloud_model}
use sirius_gateway.Registry.ModelRegistry.{ModelRegistry, init}
use sirius_gateway.Registry.ModelRegistry.Validity.{init-IsValid}
use sirius_gateway.Registry.ModelDiscovery.{Probe}
use sirius_gateway.FromFile.{SiriusProviderFileEntry, Built, built}
use sirius_gateway.FromFile.Reconcile.{FromFileReloadResult, FromFileReloadService}
use sirius_gateway.Api.Health.{probes_of, providers_reload}
use sirius_gateway.Api.Health.Reloading.{Resolves, providers_reload-Resolves}

abbrev local : SiriusProviderFileEntry
local = record {
  name = "local";
  kind = "openai-compatible";
  api_key_ref = none;
  base_url = some "http://localhost:1234/v1";
  display_name = none;
}

abbrev build_name : SiriusProviderFileEntry → Built String
build_name e = built e.name

abbrev info : String → ModelInfo
info id = record { id = id; provider = "local"; created = none; owned_by = none }

-- Every provider lists a model of its name.
abbrev probe : String → Probe
probe name = some (info name ∷ [])

abbrev service : FromFileReloadService build_name
service = record { path = "f"; owned = []; registry = [] }

abbrev load : String → Option (List SiriusProviderFileEntry)
load path = some (local ∷ [])

abbrev sample : ModelRegistry Whole
sample = init (cloud_model ∷ [])

abbrev as_named : List String → List String
as_named names = names

providers_reload-Resolves_example :
    (result : FromFileReloadResult) × ((providers_reload build_name probe load as_named service
        sample).0
      ≡ some result)
    × Resolves
        (providers_reload build_name probe load as_named service sample).2
        (probes_of probe
          (providers_reload build_name probe load as_named service sample).1.registry)
        (as_named (result.added ++ result.kept))
providers_reload-Resolves_example =
    providers_reload-Resolves build_name probe load as_named service sample (local ∷ []) refl
      (init-IsValid (cloud_model ∷ []))
