-- ===== src/Api/Models.antt =====
-- apps/sirius-api/src/controllers/models.controller.ts.
pub mod Listing
use sirius_gateway.Base.{
  ℕ, String, Bool, true, false, List, [], ◌∷◌, ◌++◌, Option, some, none, if◌then◌else◌, map, ◌&◌,
}
use sirius_gateway.Core.Numbers.{Numbers}
use sirius_gateway.Core.Models.{ModelInfo, ModelCapabilityMatrix}
use sirius_gateway.OpenAi.Types.{OpenAiModel}
use sirius_gateway.OpenAi.Errors.{format_error}
use sirius_gateway.OpenAi.Replies.{format_model_list}
use sirius_gateway.Base.Dict.{Dict}
use sirius_gateway.Registry.ModelRegistry.{ModelRegistry, list_models, get_capabilities}
use sirius_gateway.Gateway.Providers.{Provider}
use sirius_gateway.Gateway.Fleet
use sirius_gateway.FromFile.Reconcile.{includes}
use sirius_gateway.Api.{Sent, sent, rejected, error_body}

abbrev pub ids_of : List ModelInfo → List String
ids_of models = map (λ (m : ModelInfo). m.id) models

-- The loop over the registry's models: those whose id has not been seen.
pub unseen : (seen : List String) → List ModelInfo → List ModelInfo
unseen seen [] = []
unseen seen (m ∷ models) =
    let skipped = unseen seen models in
    let rest = unseen (m.id ∷ seen) models in if includes m.id seen then skipped else m ∷ rest

info_of : {N : Type 0} → ModelCapabilityMatrix N → ModelInfo
info_of m = record {
  id = m.model_id;
  provider = m.provider;
  created = none;
  owned_by = some m.provider;
}

pub merged : List ModelInfo → List ModelInfo → List ModelInfo
unfolding unseen
merged models registry_models = models ++ unseen (ids_of models) registry_models

module _ (F : Numbers) (J : Type 0) where
  open F use {Num}

  -- `listModels`
  pub get_models : (now : ℕ) → Dict (Provider F J) → ModelRegistry Num → Sent (List OpenAiModel)
  unfolding merged info_of
  get_models now providers registry = sent (
      format_model_list now
        (merged (Fleet.list_models F J providers) (map info_of (list_models registry))))

module _ {N : Type 0} where
  model_reply : (id : String) → (now : ℕ) → Option (ModelCapabilityMatrix N) → Sent OpenAiModel
  model_reply id now none = rejected 404 (
      error_body (
        format_error 404 ("Model \"" & id & "\" not found.") (some "not_found_error")
          (some "model_not_found")))
  model_reply id now (some m) =
      sent (record { id = m.model_id; created = now; owned_by = m.provider })

  -- `getModel`
  pub get_model : (id : String) → (now : ℕ) → ModelRegistry N → Sent OpenAiModel
  unfolding model_reply
  get_model id now registry = model_reply id now (get_capabilities id none registry)
