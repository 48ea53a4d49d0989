-- ===== src/Registry/Tests.antt =====
-- libs/sirius-model-registry/src on sample models, and the uses of its theorems there.
use sirius_gateway.Base.{List, none, ◌∷◌, [], true, some, ◌≡◌, refl, All, is_some}
use sirius_gateway.Base.Dict
use sirius_gateway.Base.Dict.{Dict}
use sirius_gateway.Core.Models.{ModelCapabilityMatrix, ModelInfo}
use sirius_gateway.Registry.ModelDiscovery.{Boot, backfill_all}
use sirius_gateway.Registry.ModelDiscovery.Reachable.{found, backfill_all-resolves}
use sirius_gateway.Samples.{cloud_model, local_model, two_models}
use sirius_gateway.Registry.ModelRegistry.{
  resolved, add_alias, add_aliases, first_of_keys, register_model, add_model, register_all, init,
  resolve_model, by_key, by_id, by_alias,
}
use sirius_gateway.Registry.ModelRegistry.Validity.{
  IsValid, register_model-IsValid, init-IsValid, IsRegistered,
}
use sirius_gateway.Registry.ModelRegistry.Resolution.{StandsFor, resolve_model_sound}

two_models-IsValid : IsValid two_models
unfolding add_model
two_models-IsValid =
    register_model-IsValid cloud_model (init (local_model ∷ [])) (init-IsValid (local_model ∷ []))

register_model-IsValid_example : IsValid (register_model cloud_model (init (local_model ∷ [])))
register_model-IsValid_example =
    register_model-IsValid cloud_model (init (local_model ∷ [])) (init-IsValid (local_model ∷ []))

by_alias_test : resolve_model "gpt4" two_models ≡ some (resolved cloud_model)
unfolding resolve_model by_key by_id by_alias first_of_keys add_model register_model init
    register_all add_aliases add_alias Dict.set Dict.get Dict.delete
by_alias_test = refl

resolve_model_sound_example :
    (m : ModelCapabilityMatrix _) × IsRegistered two_models m
    × StandsFor two_models "gpt4" m
    × (resolved m ≡ resolved cloud_model)
resolve_model_sound_example =
    resolve_model_sound two_models "gpt4" (resolved cloud_model) two_models-IsValid by_alias_test

abbrev boots : List Boot
boots =
    record {
      name = "gemini";
      first = some [];
      second = some (
          record {
            id = "models/gemini-flash";
            provider = "gemini";
            created = none;
            owned_by = none;
          }
          ∷ []);
    }
    ∷ record { name = "offline"; first = none; second = none }
    ∷ []

backfill_all-resolves_example :
    All
      (λ (b : Boot).
        All
          (λ (info : ModelInfo).
            is_some (resolve_model info.id (backfill_all boots two_models).0) ≡ true)
          (found b))
      boots
backfill_all-resolves_example = backfill_all-resolves boots two_models two_models-IsValid
