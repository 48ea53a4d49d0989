-- ===== src/Registry/ModelDiscovery/Reachable.antt =====
-- libs/sirius-model-registry/src/model-discovery.service.ts: the registry after discovery.
use sirius_gateway.Base.{
  String, true, List, [], ◌∷◌, some, none, ◌||◌, is_blank, is_some, split_on, length, map, ◌≡◌,
  refl, sym, ap, subst, ◌⊎◌, inl, inr, All, All-mono, Bool-cases,
}
use sirius_gateway.Core.Models.{ModelCapabilityMatrix, ModelInfo}
use sirius_gateway.Registry.ModelRegistry.{
  ModelRegistry, model_key, add_aliases, register_model, add_model, resolve_model,
}
use sirius_gateway.Registry.ModelRegistry.Validity.{IsValid, register_model-IsValid}
use sirius_gateway.Registry.ModelRegistry.Resolution.{
  HasAlias, add_aliases-keeps, add_aliases-HasAlias, HasAlias-resolves,
}
use sirius_gateway.Registry.ModelDiscovery.{
  untouched, normalize_parts, normalize_model_id, to_capability_matrix, Probe, Boot,
  register_models, register_probe, backfill_provider, backfill_all,
}

normalize_parts-cases :
    (raw_id : String) (parts : List String)
    → (normalize_parts raw_id parts ≡ untouched raw_id)
      ⊎ (((normalize_parts raw_id parts).had_prefix ≡ true)
          × ((normalize_parts raw_id parts).original ≡ raw_id))
unfolding normalize_parts
normalize_parts-cases raw_id [] = inl refl
normalize_parts-cases raw_id (p ∷ []) = inl refl
normalize_parts-cases raw_id (p ∷ m ∷ []) = elim (Bool-cases (is_blank m || is_blank p)) [
  | inl bad ↦ rw bad (inl refl)
  | inr fine ↦ rw fine (inr (refl, refl))
]
normalize_parts-cases raw_id (p ∷ m ∷ q ∷ parts) = inl refl

matrix_alias :
    (N : Type 0) (P : String → Type 0) (info : ModelInfo) (name : String)
    → All P (to_capability_matrix {N = N} info name).aliases
    → P info.id
unfolding to_capability_matrix normalize_model_id
matrix_alias N P info name h = elim (normalize_parts-cases info.id (split_on b'/' info.id)) [
  | inl same ↦ (rw (to_capability_matrix, same) at h).0
  | inr (prefixed, original) ↦ subst P original (rw (to_capability_matrix, prefixed) at h).1.0
]

abbrev pub found_by : (first second : Probe) → List ModelInfo
found_by none second = []
found_by (some []) none = []
found_by (some []) (some models) = models
found_by (some (info ∷ models)) second = info ∷ models

-- The models that a provider's probes at boot come to: a retry only after an empty answer.
abbrev pub found : Boot → List ModelInfo
found b = found_by b.first b.second

module _ {N : Type 0} where
  register_models-IsValid :
      (name : String) (models : List ModelInfo) (r : ModelRegistry N)
      → IsValid r
      → IsValid (register_models name models r)
  unfolding register_models add_model
  register_models-IsValid name [] r v = v
  register_models-IsValid name (info ∷ models) r v =
      register_models-IsValid name models _
        (register_model-IsValid (to_capability_matrix info name) r v)

  register_models-keeps :
      (name : String) (models : List ModelInfo) (r : ModelRegistry N) (alias : String)
      → HasAlias r.alias_map alias
      → HasAlias (register_models name models r).alias_map alias
  unfolding register_models add_model register_model
  register_models-keeps name [] r alias h = h
  register_models-keeps name (info ∷ models) r alias h =
      let m : ModelCapabilityMatrix N = to_capability_matrix info name in
      register_models-keeps name models (add_model m r) alias
        (add_aliases-keeps (model_key m.provider m.model_id) m.aliases alias r.alias_map h)

  register_models-HasAlias :
      (name : String) (models : List ModelInfo) (r : ModelRegistry N)
      → All
          (λ (info : ModelInfo). HasAlias (register_models name models r).alias_map info.id)
          models
  unfolding register_models add_model register_model
  register_models-HasAlias name [] r = tt
  register_models-HasAlias name (info ∷ models) r =
      let m : ModelCapabilityMatrix N = to_capability_matrix info name in
      let key = model_key m.provider m.model_id in
      (
        register_models-keeps name models (add_model m r) info.id (
            matrix_alias N (HasAlias (add_aliases key m.aliases r.alias_map)) info name
              (add_aliases-HasAlias key m.aliases r.alias_map)),
        register_models-HasAlias name models (add_model m r),
      )

  by_probes :
      (name : String) (first second : Probe) (r : ModelRegistry N)
      → backfill_provider true name first second r
        ≡ (register_models name (found_by first second) r, length (found_by first second))
  unfolding backfill_provider register_probe register_models
  by_probes name none second r = refl
  by_probes name (some []) none r = refl
  by_probes name (some []) (some models) r = refl
  by_probes name (some (info ∷ models)) second r = refl

  backfill_provider_lem :
      (b : Boot) (r : ModelRegistry N)
      → backfill_provider true b.name b.first b.second r
        ≡ (register_models b.name (found b) r, length (found b))
  backfill_provider_lem b r = by_probes b.name b.first b.second r

  backfill_all-keeps :
      (boots : List Boot) (r : ModelRegistry N) (alias : String)
      → HasAlias r.alias_map alias
      → HasAlias (backfill_all boots r).0.alias_map alias
  unfolding backfill_all
  backfill_all-keeps [] r alias h = h
  backfill_all-keeps (b ∷ boots) r alias h = rw (backfill_provider_lem b r) (
      backfill_all-keeps boots (register_models b.name (found b) r) alias
        (register_models-keeps b.name (found b) r alias h))

  backfill_all-next :
      (b : Boot) (boots : List Boot) (r : ModelRegistry N)
      → (backfill_all (b ∷ boots) r).0 ≡ (backfill_all boots (register_models b.name (found b) r)).0
  unfolding backfill_all
  backfill_all-next b boots r = rw (backfill_provider_lem b r) refl

  backfill_all-HasAlias :
      (boots : List Boot) (r : ModelRegistry N)
      → All
          (λ (b : Boot).
            All
              (λ (info : ModelInfo). HasAlias (backfill_all boots r).0.alias_map info.id)
              (found b))
          boots
  unfolding backfill_all
  backfill_all-HasAlias [] r = tt
  backfill_all-HasAlias (b ∷ boots) r =
      subst
        (λ (q : ModelRegistry N).
          All (λ (c : Boot). All (λ (info : ModelInfo). HasAlias q.alias_map info.id) (found c))
            (b ∷ boots))
        (sym (backfill_all-next b boots r))
        (
          All-mono
              (λ (info : ModelInfo).
                backfill_all-keeps boots (register_models b.name (found b) r) info.id)
              (found b) (register_models-HasAlias b.name (found b) r),
          backfill_all-HasAlias boots (register_models b.name (found b) r),
        )

  -- Discovery keeps the registry valid.
  pub backfill_all-IsValid :
      (boots : List Boot) (r : ModelRegistry N) → IsValid r → IsValid (backfill_all boots r).0
  unfolding backfill_all
  backfill_all-IsValid [] r v = v
  backfill_all-IsValid (b ∷ boots) r v =
      rw (backfill_provider_lem b r)
        (backfill_all-IsValid boots _ (register_models-IsValid b.name (found b) r v))

  -- After discovery on a valid registry every id that a provider listed resolves, whatever the other
  -- providers listed and in whatever order they answered.
  pub backfill_all-resolves :
      (boots : List Boot) (r : ModelRegistry N)
      → IsValid r
      → All
          (λ (b : Boot).
            All
              (λ (info : ModelInfo).
                is_some (resolve_model info.id (backfill_all boots r).0) ≡ true)
              (found b))
          boots
  backfill_all-resolves boots r v =
      All-mono
        (λ (b : Boot) h.
          All-mono
            (λ (info : ModelInfo) k.
              HasAlias-resolves (backfill_all boots r).0 info.id (backfill_all-IsValid boots r v) k)
            (found b) h)
        boots (backfill_all-HasAlias boots r)

  -- The report of discovery counts, for each provider, the models that it listed.
  pub backfill_all-report :
      (boots : List Boot) (r : ModelRegistry N)
      → (backfill_all boots r).1 ≡ map (λ (b : Boot). (b.name, length (found b))) boots
  unfolding backfill_all
  backfill_all-report [] r = refl
  backfill_all-report (b ∷ boots) r = rw (backfill_provider_lem b r) (
      ap (λ t. (b.name, length (found b)) ∷ t)
        (backfill_all-report boots (register_models b.name (found b) r)))
