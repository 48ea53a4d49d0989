-- ===== src/Routing/Strategies/Locality.antt =====
-- libs/sirius-routing/src/strategies: the place of local providers.
use sirius_gateway.Base.{
  true, false, List, [], ◌∷◌, ◌++◌, some, ◌≡◌, refl, All, filter, filter-All, head?, head?-tail,
  is_empty-perm, is_empty, ◌∙◌, sym, All-head?,
}
use sirius_gateway.Core.Numbers.{Numbers}
use sirius_gateway.Routing.Sorting.{sort_by}
use sirius_gateway.Routing.Sorting.Ranked.{All-sort_by, sort_by-perm}
use sirius_gateway.Routing.Strategies.{
  RoutingCandidate, RoutingContext, local_first, privacy_first, is_up, is_local, latency_key,
  rank_local_first, rank_privacy_first, select, build_fallback_chain,
}
use sirius_gateway.Routing.Strategies.Order.{plan}

module _ (F : Numbers) where
  open F use {Num}

  -- Some candidate is local and not down.
  abbrev pub HasLocal : RoutingContext Num → Type 0
  HasLocal context = is_empty (filter is_local (filter is_up context.candidates)) ≡ false

  local_sorted :
      (up : List (RoutingCandidate Num))
      → is_empty (filter is_local up) ≡ false
      → is_empty (sort_by F (latency_key F) (filter is_local up)) ≡ false
  local_sorted up h = is_empty-perm _ _ (sort_by-perm F (latency_key F) (filter is_local up)) ∙ h

  sorted-local :
      (up : List (RoutingCandidate Num))
      → All (λ c. is_local c ≡ true) (sort_by F (latency_key F) (filter is_local up))
  sorted-local up =
      All-sort_by F (latency_key F) (λ c. is_local c ≡ true) _ (filter-All is_local up)

  -- While a local candidate is up, `privacy-first` tries local candidates only.
  pub privacy_first-local :
      (context : RoutingContext Num)
      → HasLocal context
      → All (λ c. is_local c ≡ true) (plan F privacy_first context)
  unfolding select build_fallback_chain rank_privacy_first
  privacy_first-local context h =
      let up = filter is_up context.candidates in
      rw (head?-tail (rank_privacy_first F context.candidates))
        (rw (local_sorted up h) (sorted-local up))

  head?-append : {A : Type 0} (xs ys : List A) → is_empty xs ≡ false → head? (xs ++ ys) ≡ head? xs
  head?-append [] ys h = cc
  head?-append (x ∷ xs) ys h = refl

  -- While a local candidate is up, `local-first` selects a local one.
  pub local_first-local :
      (context : RoutingContext Num) (c : RoutingCandidate Num)
      → HasLocal context
      → select F local_first context ≡ some c
      → is_local c ≡ true
  unfolding select rank_local_first
  local_first-local context c h e =
      let up = filter is_up context.candidates in
      All-head? (λ d. is_local d ≡ true) (sort_by F (latency_key F) (filter is_local up)) c
        (sorted-local up) (sym (head?-append _ _ (local_sorted up h)) ∙ e)
