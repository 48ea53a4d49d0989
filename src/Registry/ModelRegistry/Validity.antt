-- ===== src/Registry/ModelRegistry/Validity.antt =====
-- libs/sirius-model-registry/src/model-registry.service.ts: the invariant of its two maps.
use sirius_gateway.Base.{
  String, List, [], ◌∷◌, ◌++◌, some, any, ◌==◌, ◌≡◌, refl, All, arith, eq_refl, false, true,
  Bool-cases, inl, inr, Option-cases, is_empty, is_empty-concat, is_some, All-append, All-map,
  All-mono, All-both, subst,
}
use sirius_gateway.Base.Dict
use sirius_gateway.Base.Dict.{Dict, Distinct}
use sirius_gateway.Core.Models.{ModelCapabilityMatrix}
use sirius_gateway.Registry.ModelRegistry.{
  ModelRegistry, model_key, list_or_empty, add_alias, add_aliases, register_model, register_all,
  init,
}

module _ {N : Type 0} where
  -- A key stands for the model that it is made of.
  abbrev pub IsKeyed : String × ModelCapabilityMatrix N → Type 0
  IsKeyed b = b.0 ≡ model_key b.1.provider b.1.model_id

  abbrev pub Known : Dict (ModelCapabilityMatrix N) → String → Type 0
  Known models k = is_some (Dict.get k models) ≡ true

  -- An alias points to some key, and only to registered ones.
  abbrev pub IsLinked : Dict (ModelCapabilityMatrix N) → String × List String → Type 0
  IsLinked models b = (is_empty b.1 ≡ false) × All (Known models) b.1

  pub record IsValid (r : ModelRegistry N) : Type 0 where
    pub distinct : Distinct r.models
    pub keyed : All IsKeyed r.models
    pub linked : All (IsLinked r.models) r.alias_map

  Known-set :
      (k j : String) (m : ModelCapabilityMatrix N) (models : Dict (ModelCapabilityMatrix N))
      → Known models j
      → Known (Dict.set k m models) j
  Known-set k j m models h = ground (arith, Dict.get-set k j m models)

  IsLinked-set :
      (k : String) (m : ModelCapabilityMatrix N) (models : Dict (ModelCapabilityMatrix N))
      (b : String × List String)
      → IsLinked models b
      → IsLinked (Dict.set k m models) b
  IsLinked-set k m models b (ne, h) = (ne, All-mono (λ j. Known-set k j m models) b.1 h)

  list_or_empty-Known :
      (models : Dict (ModelCapabilityMatrix N)) (alias : String) (alias_map : Dict (List String))
      → All (IsLinked models) alias_map
      → All (Known models) (list_or_empty (Dict.get alias alias_map))
  list_or_empty-Known models alias alias_map h = elim (Option-cases (Dict.get alias alias_map)) [
    | inl missing ↦ rw missing tt
    | inr (ks, found) ↦ rw found (Dict.All-get (IsLinked models) alias ks alias_map h found).1
  ]

  add_alias-IsLinked :
      (models : Dict (ModelCapabilityMatrix N)) (key alias : String)
      (alias_map : Dict (List String))
      → Known models key
      → All (IsLinked models) alias_map
      → All (IsLinked models) (add_alias key alias alias_map)
  unfolding add_alias
  add_alias-IsLinked models key alias alias_map k h =
      let existing = list_or_empty (Dict.get alias alias_map) in
      elim (Bool-cases (any (λ i. i == key) existing)) [
        | inl there ↦ rw there h
        | inr new ↦ rw new (
            Dict.All-set (IsLinked models) alias (existing ++ key ∷ []) alias_map
              (
                is_empty-concat existing key,
                All-append (Known models) existing (key ∷ [])
                    (list_or_empty-Known models alias alias_map h) (k, tt),
              )
              h)
      ]

  add_aliases-IsLinked :
      (models : Dict (ModelCapabilityMatrix N)) (key : String) (aliases : List String)
      (alias_map : Dict (List String))
      → Known models key
      → All (IsLinked models) alias_map
      → All (IsLinked models) (add_aliases key aliases alias_map)
  unfolding add_aliases
  add_aliases-IsLinked models key [] alias_map k h = h
  add_aliases-IsLinked models key (alias ∷ aliases) alias_map k h =
      add_aliases-IsLinked models key aliases (add_alias key alias alias_map) k
        (add_alias-IsLinked models key alias alias_map k h)

  -- Registering a model keeps the registry valid: keys are distinct and belong to their models, and
  -- each alias points to registered keys only, to one at least.
  pub register_model-IsValid :
      (m : ModelCapabilityMatrix N) (r : ModelRegistry N) → IsValid r → IsValid (register_model m r)
  unfolding register_model
  register_model-IsValid m r v =
      let key = model_key m.provider m.model_id in
      record {
        distinct = Dict.set-Distinct key m r.models v.distinct;
        keyed = Dict.All-set IsKeyed key m r.models refl v.keyed;
        linked =
            add_aliases-IsLinked (Dict.set key m r.models) key m.aliases r.alias_map
              (ground (arith, Dict.get-set key key m r.models, eq_refl key))
              (All-mono (IsLinked-set key m r.models) r.alias_map v.linked);
      }

  register_all-IsValid :
      (ms : List (ModelCapabilityMatrix N)) (r : ModelRegistry N)
      → IsValid r
      → IsValid (register_all ms r)
  unfolding register_all
  register_all-IsValid [] r v = v
  register_all-IsValid (m ∷ ms) r v =
      register_all-IsValid ms (register_model m r) (register_model-IsValid m r v)

  -- The constructor's registry is valid, for any catalog.
  pub init-IsValid : (catalog : List (ModelCapabilityMatrix N)) → IsValid (init catalog)
  unfolding init
  init-IsValid catalog =
      register_all-IsValid catalog _ (record { distinct = tt; keyed = tt; linked = tt })

  -- A model that stands in the map under its own key.
  abbrev pub IsRegistered : ModelRegistry N → ModelCapabilityMatrix N → Type 0
  IsRegistered r m = Dict.get (model_key m.provider m.model_id) r.models ≡ some m

  pub registered-All :
      (r : ModelRegistry N) → IsValid r → All (IsRegistered r) (Dict.values r.models)
  registered-All r v =
      All-map (IsRegistered r) (λ b. b.1) r.models
        (All-mono
          (λ b
              (h : (b.0 ≡ model_key b.1.provider b.1.model_id)
                × (Dict.get b.0 r.models ≡ some b.1)).
            subst (λ k. Dict.get k r.models ≡ some b.1) h.0 h.1)
          r.models
          (All-both IsKeyed (λ b. Dict.get b.0 r.models ≡ some b.1) r.models v.keyed
            (Dict.Distinct-get r.models v.distinct)))

  pub get-IsRegistered :
      (r : ModelRegistry N) (k : String) (m : ModelCapabilityMatrix N)
      → IsValid r
      → Dict.get k r.models ≡ some m
      → IsRegistered r m
  get-IsRegistered r k m v e =
      subst (λ j. Dict.get j r.models ≡ some m) (Dict.All-get IsKeyed k m r.models v.keyed e) e
