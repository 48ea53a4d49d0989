-- ===== src/Registry/ModelRegistry/Resolution.antt =====
-- libs/sirius-model-registry/src/model-registry.service.ts: what a model string resolves to.
use mathlib.Core.Option
use sirius_gateway.Base.{
  String, Bool, List, [], ◌∷◌, ◌++◌, Option, some, none, or_else, find, ◌==◌, has_char, ◌&◌, ◌≡◌,
  All, arith, eq_iff, eq_refl, false, true, inl, inr, Option-cases, is_empty, is_some, All-find,
  All-mono, has_char-append_right, has_char-colon, find-passes, ◌⊎◌,
}
use sirius_gateway.Base.Dict
use sirius_gateway.Base.Dict.{Dict, Distinct}
use sirius_gateway.Core.Models.{ModelCapabilityMatrix}
use sirius_gateway.Registry.ModelRegistry.{
  ModelRegistry, Resolved, model_key, resolved, list_or_empty, add_alias, add_aliases,
  register_model, add_model, by_key, by_id, by_alias, first_of_keys, resolve_model,
}
use sirius_gateway.Registry.ModelRegistry.Validity.{
  IsValid, IsRegistered, registered-All, get-IsRegistered, register_model-IsValid, IsLinked, Known,
}

abbrev pub HasAlias : Dict (List String) → String → Type 0
HasAlias alias_map alias = is_some (Dict.get alias alias_map) ≡ true

add_alias-HasAlias :
    (key alias : String) (alias_map : Dict (List String))
    → HasAlias (add_alias key alias alias_map) alias
unfolding add_alias
add_alias-HasAlias key alias alias_map = ground (
  arith,
  eq_refl alias,
  Dict.get-set alias alias (list_or_empty (Dict.get alias alias_map) ++ key ∷ []) alias_map,
)

add_alias-keeps :
    (key alias other : String) (alias_map : Dict (List String))
    → HasAlias alias_map other
    → HasAlias (add_alias key alias alias_map) other
unfolding add_alias
add_alias-keeps key alias other alias_map h = ground (
  arith,
  Dict.get-set alias other (list_or_empty (Dict.get alias alias_map) ++ key ∷ []) alias_map,
)

pub add_aliases-keeps :
    (key : String) (aliases : List String) (other : String) (alias_map : Dict (List String))
    → HasAlias alias_map other
    → HasAlias (add_aliases key aliases alias_map) other
unfolding add_aliases
add_aliases-keeps key [] other alias_map h = h
add_aliases-keeps key (a ∷ aliases) other alias_map h =
    add_aliases-keeps key aliases other (add_alias key a alias_map)
      (add_alias-keeps key a other alias_map h)

pub add_aliases-HasAlias :
    (key : String) (aliases : List String) (alias_map : Dict (List String))
    → All (HasAlias (add_aliases key aliases alias_map)) aliases
unfolding add_aliases
add_aliases-HasAlias key [] alias_map = tt
add_aliases-HasAlias key (a ∷ aliases) alias_map = (
  add_aliases-keeps key aliases a (add_alias key a alias_map) (add_alias-HasAlias key a alias_map),
  add_aliases-HasAlias key aliases (add_alias key a alias_map),
)

module _ {N : Type 0} where
  -- Why a string may stand for a model: it is its key, its id, or an alias whose first key leads to it.
  abbrev pub StandsFor : ModelRegistry N → String → ModelCapabilityMatrix N → Type 0
  StandsFor r s m =
      (Dict.get s r.models ≡ some m)
      ⊎ (m.model_id ≡ s)
      ⊎ (first_of_keys (Dict.get s r.alias_map) r.models ≡ some m)

  first_of_keys-get :
      (ks : Option (List String)) (models : Dict (ModelCapabilityMatrix N))
      (m : ModelCapabilityMatrix N)
      → first_of_keys ks models ≡ some m
      → (k : String) × (Dict.get k models ≡ some m)
  unfolding first_of_keys
  first_of_keys-get none models m e = cc
  first_of_keys-get (some []) models m e = cc
  first_of_keys-get (some (k ∷ ks)) models m e = (k, e)

  chosen :
      (r : ModelRegistry N) (s : String) (m : ModelCapabilityMatrix N)
      → IsValid r
      → or_else (by_key s r) (or_else (by_id s r) (by_alias s r)) ≡ some m
      → IsRegistered r m × StandsFor r s m
  unfolding by_alias
  chosen r s m v e = elim (Option-cases (by_key s r)) [
    | inr (k, hit) ↦
        let same : Dict.get s r.models ≡ some m = unfold by_key in ground arith in
        (get-IsRegistered r s m v same, inl same)
    | inl miss ↦ elim (Option-cases (by_id s r)) [
      | inr (i, hit) ↦
          let same : by_id s r ≡ some m = ground arith in
          let found =
            All-find (IsRegistered r) (λ n. n.model_id == s) (Dict.values r.models) m
              (registered-All r v) (unfold by_id in same) in
          (found.0, inr (inl ((eq_iff m.model_id s).0 found.1)))
      | inl none_there ↦
          let same : first_of_keys (Dict.get s r.alias_map) r.models ≡ some m = ground arith in
          let (k, hit) = first_of_keys-get (Dict.get s r.alias_map) r.models m same in
          (get-IsRegistered r k m v hit, inr (inr same))
    ]
  ]

  -- What a valid registry resolves a string to is a registered model, for which the string stands.
  pub resolve_model_sound :
      (r : ModelRegistry N) (s : String) (x : Resolved)
      → IsValid r
      → resolve_model s r ≡ some x
      → (m : ModelCapabilityMatrix N) × IsRegistered r m × StandsFor r s m × (resolved m ≡ x)
  unfolding resolve_model
  resolve_model_sound r s x v e =
      let (m, hit, same) = (Option.map-eq-some_iff _ _).0 e in
      let (registered, stands) = chosen r s m v hit in (m, registered, stands, same)

  -- The composite key of an added model resolves to that very model.
  pub resolve_model-key :
      (m : ModelCapabilityMatrix N) (r : ModelRegistry N)
      → resolve_model (model_key m.provider m.model_id) (add_model m r) ≡ some (resolved m)
  unfolding resolve_model by_key add_model register_model
  resolve_model-key m r =
      let key = model_key m.provider m.model_id in
      let colon =
        has_char-append_right b':' m.provider (":" & m.model_id) (has_char-colon m.model_id) in
      rw (colon, Dict.get-set key key m r.models, eq_refl key)

  find-set :
      (q : ModelCapabilityMatrix N → Bool) (k : String) (m : ModelCapabilityMatrix N)
      (models : Dict (ModelCapabilityMatrix N))
      → q m ≡ true
      → is_some (find q (Dict.values (Dict.set k m models))) ≡ true
  unfolding Dict.set
  find-set q k m [] h = ground arith
  find-set q k m ((j, n) ∷ models) h = ground (arith, find-set q k m models h)

  -- The id of an added model resolves to a model with that id, if the id has no colon.
  pub resolve_model-id :
      (m : ModelCapabilityMatrix N) (r : ModelRegistry N)
      → has_char b':' m.model_id ≡ false
      → (x : Resolved) × (resolve_model m.model_id (add_model m r) ≡ some x)
        × (x.model_id ≡ m.model_id)
  unfolding resolve_model add_model register_model by_key by_id
  resolve_model-id m r plain =
      let key = model_key m.provider m.model_id in
      elim (Option-cases
        (find (λ n. n.model_id == m.model_id) (Dict.values (Dict.set key m r.models)))) [
          | inl missed ↦ cc (
              rw missed at
                (find-set (λ n. n.model_id == m.model_id) key m r.models (eq_refl m.model_id)))
          | inr (n, hit) ↦ (
            resolved n,
            rw (plain, hit),
            (eq_iff n.model_id m.model_id).0 (
                find-passes (λ n. n.model_id == m.model_id) (Dict.values (Dict.set key m r.models))
                  n hit),
          )
        ]

  linked-first :
      (models : Dict (ModelCapabilityMatrix N)) (ks : List String)
      → (is_empty ks ≡ false) × All (Known models) ks
      → is_some (first_of_keys (some ks) models) ≡ true
  unfolding first_of_keys
  linked-first models [] (ne, h) = cc
  linked-first models (k ∷ ks) (ne, (h, hs)) = h

  pub HasAlias-resolves :
      (r : ModelRegistry N) (alias : String)
      → IsValid r
      → HasAlias r.alias_map alias
      → is_some (resolve_model alias r) ≡ true
  unfolding resolve_model by_alias
  HasAlias-resolves r alias v h = elim (Option-cases (Dict.get alias r.alias_map)) [
    | inl missing ↦ cc (rw missing at h)
    | inr (ks, found) ↦
        let known =
          linked-first r.models ks
            (Dict.All-get (IsLinked r.models) alias ks r.alias_map v.linked found) in
        ground (arith, known)
  ]

  -- In a valid registry every alias of a model that is added resolves to something afterwards.
  pub add_model-aliases :
      (m : ModelCapabilityMatrix N) (r : ModelRegistry N)
      → IsValid r
      → All (λ alias. is_some (resolve_model alias (add_model m r)) ≡ true) m.aliases
  unfolding add_model register_model
  add_model-aliases m r v =
      All-mono (λ a. HasAlias-resolves (add_model m r) a (register_model-IsValid m r v)) m.aliases
        (add_aliases-HasAlias (model_key m.provider m.model_id) m.aliases r.alias_map)
