-- ===== src/Gateway/Chain/Labels.antt =====
-- apps/sirius-api/src/gateway.service.ts: the labels that `buildProviderChain` reads back.
use text.Mathlib.TextLemmas.{cons-append, nil-append}
use mathlib.Core.List.{append-nil}
use sirius_gateway.Base.{
  String, true, false, List, [], ◌∷◌, ◌++◌, Option, some, none, if◌then◌else◌, ◌==◌, is_blank,
  split_on, ◌&◌, ◌≡◌, ◌≢◌, refl, All, All-append, All-both, All-mono, is_some, arith, Bool-cases,
  Option-cases, inl, inr, eq_iff, has_char, split_on-whole, split_on-append, map, ap, ◌∙◌,
}
use sirius_gateway.Base.Dict.{Dict}
use sirius_gateway.Core.Models.{RoutingDecision}
use sirius_gateway.Core.ProviderRegistry
use sirius_gateway.Gateway.Chain.{
  Link, parse_parts, parse_label, link_to, fallback_link, fallback_links, build_provider_chain,
}

-- No "/" in it, and not empty.
abbrev pub IsPlain : String → Type 0
IsPlain s = (has_char b'/' s ≡ false) × (is_blank s ≡ false)

split_label :
    (p m : String) → has_char b'/' p ≡ false → split_on b'/' (p & "/" & m) ≡ p ∷ split_on b'/' m
split_label p m h = rw (cons-append _ "" m, nil-append m) (split_on-append b'/' p _ m h refl)

-- The label of a provider and a model whose names are not empty and have no "/" reads back as both.
pub parse_label-plain :
    (p m : String) → IsPlain p → IsPlain m → parse_label (p & "/" & m) ≡ some (p, m)
unfolding parse_label parse_parts
parse_label-plain p m (h, k) (i, j) = rw (split_label p m h, split_on-whole b'/' m i, k, j)

-- Of a model id with a "/" only the part before it is read back: the fallback asks for another model.
pub parse_label-truncates :
    (p a b : String) → IsPlain p → IsPlain a → parse_label (p & "/" & (a & "/" & b)) ≡ some (p, a)
unfolding parse_label parse_parts
parse_label-truncates p a b (h, k) (i, j) =
    rw (split_label p (a & "/" & b) h, split_label a b i) (rw (k, j))

module _ {A : Type 0} (providers : Dict A) where
  -- A link to a registered provider, by its name.
  abbrev pub IsLive : Link A → Type 0
  IsLive l = ProviderRegistry.get l.name providers ≡ some l.provider

  link_to-IsLive :
      (name model_id : String) (o : Option A)
      → ProviderRegistry.get name providers ≡ o
      → All IsLive (link_to name model_id o)
  link_to-IsLive name model_id none e = tt
  link_to-IsLive name model_id (some p) e = (e, tt)

  link_to-name :
      (name model_id other : String) (o : Option A)
      → name ≢ other
      → All (λ l. l.name ≢ other) (link_to name model_id o)
  link_to-name name model_id other none ne = tt
  link_to-name name model_id other (some p) ne = (ne, tt)

  abbrev IsOther : String → Link A → Type 0
  IsOther selected l = IsLive l × (l.name ≢ selected)

  fallback_link-IsOther :
      (selected : String) (o : Option (String × String))
      → All (IsOther selected) (fallback_link selected providers o)
  unfolding fallback_link
  fallback_link-IsOther selected none = tt
  fallback_link-IsOther selected (some (name, model_id)) = elim (Bool-cases (name == selected)) [
    | inl same ↦ rw same tt
    | inr other ↦ rw other (
        All-both IsLive (λ l. l.name ≢ selected) _ (link_to-IsLive name model_id _ refl)
          (link_to-name name model_id selected _ (ground (arith, eq_iff name selected))))
  ]

  fallback_links-IsOther :
      (selected : String) (labels : List String)
      → All (IsOther selected) (fallback_links selected providers labels)
  unfolding fallback_links
  fallback_links-IsOther selected [] = tt
  fallback_links-IsOther selected (l ∷ labels) =
      All-append (IsOther selected) _ _ (fallback_link-IsOther selected (parse_label l))
        (fallback_links-IsOther selected labels)

  -- Every link of the chain leads to a registered provider.
  pub build_provider_chain-IsLive :
      (d : RoutingDecision) → All IsLive (build_provider_chain d providers)
  unfolding build_provider_chain
  build_provider_chain-IsLive d =
      All-append IsLive _ _ (link_to-IsLive d.selected_provider d.selected_model _ refl)
        (All-mono (λ l h. h.0) _ (fallback_links-IsOther d.selected_provider d.fallback_chain))

  -- A decision without fallbacks gives the selected provider alone.
  pub build_provider_chain-alone :
      (d : RoutingDecision)
      → d.fallback_chain ≡ []
      → build_provider_chain d providers
        ≡ link_to d.selected_provider d.selected_model
            (ProviderRegistry.get d.selected_provider providers)
  unfolding build_provider_chain fallback_links
  build_provider_chain-alone d h = rw (build_provider_chain, h) (append-nil _)

  -- The provider and model of a link, and of a candidate.
  abbrev pub link_names : List (Link A) → List (String × String)
  link_names ls = map (λ l. (l.name, l.model_id)) ls

  names-append : (xs ys : List (Link A)) → link_names (xs ++ ys) ≡ link_names xs ++ link_names ys
  names-append [] ys = refl
  names-append (x ∷ xs) ys = ap (λ t. (x.name, x.model_id) ∷ t) (names-append xs ys)

  fallback_link-names :
      (selected name model_id : String)
      → is_some (ProviderRegistry.get name providers) ≡ true
      → link_names (fallback_link selected providers (some (name, model_id)))
        ≡ (if name == selected then [] else (name, model_id) ∷ [])
  unfolding fallback_link
  fallback_link-names selected name model_id h =
      elim (Option-cases (ProviderRegistry.get name providers)) [
        | inl missing ↦ cc (rw missing at h)
        | inr (p, found) ↦ elim (Bool-cases (name == selected)) [
          | inl same ↦ rw same refl
          | inr other ↦ rw (other, found) refl
        ]
      ]

  -- A provider and model whose label reads back, of a registered provider.
  abbrev pub IsReadable : String × String → Type 0
  IsReadable (p, m) = IsPlain p × IsPlain m × (is_some (ProviderRegistry.get p providers) ≡ true)

  abbrev pub labels_of : List (String × String) → List String
  labels_of cs = map (λ c. c.0 & "/" & c.1) cs

  abbrev pub others : String → List (String × String) → List (String × String)
  others selected [] = []
  others selected (c ∷ cs) = (if c.0 == selected then [] else c ∷ []) ++ others selected cs

  -- The labels of a decision become links in their order, without those of the selected provider, if
  -- all their providers are registered and no name is empty or has a "/".
  pub fallback_links-names :
      (selected : String) (cs : List (String × String))
      → All IsReadable cs
      → link_names (fallback_links selected providers (labels_of cs)) ≡ others selected cs
  unfolding fallback_links
  fallback_links-names selected [] h = refl
  fallback_links-names selected ((p, m) ∷ cs) ((k, i, r), h) =
      names-append (fallback_link selected providers (parse_label (p & "/" & m))) _
      ∙ rw
          (
            parse_label-plain p m k i,
            fallback_link-names selected p m r,
            fallback_links-names selected cs h,
          )
          refl
