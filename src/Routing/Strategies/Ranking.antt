-- ===== src/Routing/Strategies/Ranking.antt =====
-- libs/sirius-routing/src/strategies: the candidates that a strategy chooses from.
use sirius_gateway.Base.{
  true, List, some, ◌≡◌, All, All-filter, All-map, All-append, All-tail, All-head?, All-find,
  All-both, filter-All, filter, find, head?, tail, arith, Bool-cases, inl, inr, Option-cases,
  length, nat_eq, not, is_empty, ◌==◌,
}
use sirius_gateway.Core.Numbers.{Numbers}
use sirius_gateway.Routing.Sorting.{sort_by}
use sirius_gateway.Routing.Sorting.Ranked.{All-sort_by}
use sirius_gateway.Routing.Strategies.{
  RoutingCandidate, RoutingContext, RoutingStrategy, pinned, fastest, cheapest, balanced,
  local_first, privacy_first, is_up, is_local, latency_key, total_cost, pinned_select,
  sort_by_latency, sort_by_cost, score, rank_balanced, rank_local_first, rank_privacy_first, select,
  build_fallback_chain,
}

-- A healthy candidate is one that passes the filter that all strategies begin with.
module _ (F : Numbers) (P : RoutingCandidate F.Num → Type 0) where
  open F use {Num}

  All-up :
      (cs : List (RoutingCandidate Num))
      → All P cs
      → All (λ c. P c × (is_up c ≡ true)) (filter is_up cs)
  All-up cs h =
      All-both P (λ c. is_up c ≡ true) (filter is_up cs) (All-filter P is_up cs h)
        (filter-All is_up cs)

  abbrev Good : RoutingCandidate Num → Type 0
  Good c = P c × (is_up c ≡ true)

  ranked-Good :
      (ranked : List (RoutingCandidate Num))
      → All Good ranked
      → ((c : RoutingCandidate Num) → head? ranked ≡ some c → Good c) × All Good (tail ranked)
  ranked-Good ranked h = (λ c. All-head? Good ranked c h, All-tail Good ranked h)

  sort_by_latency-All :
      (cs : List (RoutingCandidate Num)) → All P cs → All Good (sort_by_latency F cs)
  unfolding sort_by_latency
  sort_by_latency-All cs h = All-sort_by F (latency_key F) Good _ (All-up cs h)

  sort_by_cost-All : (cs : List (RoutingCandidate Num)) → All P cs → All Good (sort_by_cost F cs)
  unfolding sort_by_cost
  sort_by_cost-All cs h = All-sort_by F (total_cost F) Good _ (All-up cs h)

  rank_balanced-All : (cs : List (RoutingCandidate Num)) → All P cs → All Good (rank_balanced F cs)
  unfolding rank_balanced score
  rank_balanced-All cs h =
      All-map Good (λ s. s.0) _
        (All-sort_by F (λ s. s.1) (λ s. Good s.0) _
          (All-map (λ s. Good s.0) _ (filter is_up cs) (All-up cs h)))

  rank_local_first-All :
      (cs : List (RoutingCandidate Num)) → All P cs → All Good (rank_local_first F cs)
  unfolding rank_local_first
  rank_local_first-All cs h =
      All-append Good _ _
        (All-sort_by F (latency_key F) Good _ (All-filter Good is_local _ (All-up cs h)))
        (All-sort_by F (latency_key F) Good _
          (All-filter Good (λ c. not (is_local c)) _ (All-up cs h)))

  rank_privacy_first-All :
      (cs : List (RoutingCandidate Num)) → All P cs → All Good (rank_privacy_first F cs)
  unfolding rank_privacy_first
  rank_privacy_first-All cs h =
      elim (Bool-cases (is_empty (sort_by F (latency_key F) (filter is_local (filter is_up cs))))) [
        | inl e ↦ rw e (All-sort_by F (latency_key F) Good _ (All-up cs h))
        | inr e ↦
            rw e (All-sort_by F (latency_key F) Good _ (All-filter Good is_local _ (All-up cs h)))
      ]

  pinned_select-Good :
      (context : RoutingContext Num) (c : RoutingCandidate Num)
      → All P context.candidates
      → pinned_select context ≡ some c
      → Good c
  unfolding pinned_select
  pinned_select-Good context c h e =
      let up = filter is_up context.candidates in
      let exact = find (λ c. c.model.model_id == context.requested_model) up in
      elim (Bool-cases (nat_eq (length up) 1)) [
        | inl one ↦ All-head? Good up c (All-up context.candidates h) (rw one at e)
        | inr more ↦ elim (Option-cases exact) [
          | inl missed ↦ All-head? Good up c (All-up context.candidates h) (rw (more, missed) at e)
          | inr (d, hit) ↦
              let same : d ≡ c = ground arith in
              rw (← same) (All-find Good _ up d (All-up context.candidates h) hit).0
        ]
      ]

  -- Whatever holds of every candidate holds of every candidate that a strategy selects or falls back
  -- to, and none of those is down.
  pub strategy-All :
      (s : RoutingStrategy) (context : RoutingContext Num)
      → All P context.candidates
      → ((c : RoutingCandidate Num) → select F s context ≡ some c → P c × (is_up c ≡ true))
        × All (λ c. P c × (is_up c ≡ true)) (build_fallback_chain F s context)
  unfolding select build_fallback_chain
  strategy-All pinned context h = (λ c. pinned_select-Good context c h, tt)
  strategy-All fastest context h = ranked-Good _ (sort_by_latency-All context.candidates h)
  strategy-All cheapest context h = ranked-Good _ (sort_by_cost-All context.candidates h)
  strategy-All balanced context h = ranked-Good _ (rank_balanced-All context.candidates h)
  strategy-All local_first context h = ranked-Good _ (rank_local_first-All context.candidates h)
  strategy-All privacy_first context h = ranked-Good _ (rank_privacy_first-All context.candidates h)
