-- ===== src/Routing/Strategies/Order.antt =====
-- libs/sirius-routing/src/strategies: the order in which candidates are tried.
use mathlib.Core.List.{Perm}
use mathlib.Core.List.Perm
use sirius_gateway.Base.{
  List, [], ◌∷◌, ◌++◌, ◌≡◌, refl, All, filter, find, Bool-cases, inl, inr, Option-cases, to_list,
  head?-tail, is_some-head?, filter-perm, is_empty-perm, find-not-empty, is_empty-filter, map,
  length, nat_eq, not, is_empty, ◌==◌, ap, ◌∙◌, sym, ◌≢◌, is_some, subst,
}
use sirius_gateway.Core.Numbers.{Numbers}
use sirius_gateway.Routing.Sorting.{sort_by}
use sirius_gateway.Routing.Sorting.Ranked.{
  IsRanked, NotBefore, All-sort_by, sort_by-IsRanked, sort_by-perm,
}
use sirius_gateway.Routing.Strategies.{
  RoutingCandidate, RoutingContext, RoutingStrategy, pinned, fastest, cheapest, balanced,
  local_first, privacy_first, is_up, is_local, latency_key, total_cost, pinned_select,
  sort_by_latency, sort_by_cost, score, rank_balanced, rank_local_first, rank_privacy_first, select,
  build_fallback_chain, candidate_score, max_finite,
}

is_some-pinned_select :
    {N : Type 0} (context : RoutingContext N)
    → is_some (pinned_select context) ≡ not (is_empty (filter is_up context.candidates))
unfolding pinned_select
is_some-pinned_select context =
    let up = filter is_up context.candidates in
    let exact = find (λ c. c.model.model_id == context.requested_model) up in
    elim (Bool-cases (nat_eq (length up) 1)) [
      | inl one ↦ rw one (is_some-head? up)
      | inr more ↦ elim (Option-cases exact) [
        | inl missed ↦ rw (more, missed) (is_some-head? up)
        | inr (c, hit) ↦ rw (more, hit) (sym (ap not (find-not-empty _ up c hit)))
      ]
    ]

module _ (F : Numbers) where
  open F use {Num}

  -- The candidates in the order in which they are tried: the selected one, then the fallbacks.
  abbrev pub plan : RoutingStrategy → RoutingContext Num → List (RoutingCandidate Num)
  plan s context = to_list (select F s context) ++ build_fallback_chain F s context

  map-fst {ℓ κ} :
      {A : Type ℓ} {B : Type κ} (f : A → B) (xs : List A)
      → map (λ (s : A × B). s.0) (map (λ a. (a, f a)) xs) ≡ xs
  map-fst f [] = refl
  map-fst f (x ∷ xs) = ap (λ t. x ∷ t) (map-fst f xs)

  rank_balanced-perm :
      (cs : List (RoutingCandidate Num)) → Perm (rank_balanced F cs) (filter is_up cs)
  unfolding rank_balanced score
  rank_balanced-perm cs =
      subst (λ t. Perm (rank_balanced F cs) t) (map-fst _ (filter is_up cs))
        (Perm.map (λ s. s.0) (sort_by-perm F (λ s. s.1) _))

  rank_local_first-perm :
      (cs : List (RoutingCandidate Num)) → Perm (rank_local_first F cs) (filter is_up cs)
  unfolding rank_local_first
  rank_local_first-perm cs =
      Perm.trans (Perm.append (sort_by-perm F (latency_key F) _) (sort_by-perm F (latency_key F) _))
        (filter-perm is_local (filter is_up cs))

  is_empty-rank_privacy_first :
      (cs : List (RoutingCandidate Num))
      → is_empty (rank_privacy_first F cs) ≡ is_empty (filter is_up cs)
  unfolding rank_privacy_first
  is_empty-rank_privacy_first cs =
      let up = filter is_up cs in
      let local = sort_by F (latency_key F) (filter is_local up) in
      elim (Bool-cases (is_empty local)) [
        | inl e ↦ rw e (is_empty-perm _ _ (sort_by-perm F (latency_key F) up))
        | inr e ↦ rw e (
            e
            ∙ sym (
                is_empty-filter is_local up (
                  sym (is_empty-perm _ _ (sort_by-perm F (latency_key F) (filter is_local up)))
                  ∙ e)))
      ]

  -- The strategies `fastest`, `cheapest`, `balanced` and `local-first` try every healthy candidate,
  -- as often as it was given, and no other.
  pub plan-perm :
      (s : RoutingStrategy) (context : RoutingContext Num)
      → s ≢ pinned
      → s ≢ privacy_first
      → Perm (plan s context) (filter is_up context.candidates)
  unfolding select build_fallback_chain sort_by_latency sort_by_cost
  plan-perm pinned context h k = absurd (h refl)
  plan-perm fastest context h k =
      rw (head?-tail (sort_by_latency F context.candidates)) (sort_by-perm F (latency_key F) _)
  plan-perm cheapest context h k =
      rw (head?-tail (sort_by_cost F context.candidates)) (sort_by-perm F (total_cost F) _)
  plan-perm balanced context h k =
      rw (head?-tail (rank_balanced F context.candidates)) (rank_balanced-perm context.candidates)
  plan-perm local_first context h k =
      rw (head?-tail (rank_local_first F context.candidates))
        (rank_local_first-perm context.candidates)
  plan-perm privacy_first context h k = absurd (k refl)

  -- `fastest` tries the candidates in ascending order of latency.
  pub plan-fastest-IsRanked :
      (context : RoutingContext Num) → IsRanked F (latency_key F) (plan fastest context)
  unfolding select build_fallback_chain sort_by_latency
  plan-fastest-IsRanked context =
      rw (head?-tail (sort_by_latency F context.candidates)) (sort_by-IsRanked F (latency_key F) _)

  -- `cheapest` tries them in ascending order of total cost.
  pub plan-cheapest-IsRanked :
      (context : RoutingContext Num) → IsRanked F (total_cost F) (plan cheapest context)
  unfolding select build_fallback_chain sort_by_cost
  plan-cheapest-IsRanked context =
      rw (head?-tail (sort_by_cost F context.candidates)) (sort_by-IsRanked F (total_cost F) _)

  -- The largest finite cost and latency of the healthy candidates, 1 at least.
  abbrev pub cost_scale : List (RoutingCandidate Num) → Num
  cost_scale cs = max_finite F (map (total_cost F) (filter is_up cs))

  abbrev pub latency_scale : List (RoutingCandidate Num) → Num
  latency_scale cs = max_finite F (map (latency_key F) (filter is_up cs))

  module _ (key : RoutingCandidate Num → Num) where
    map-NotBefore :
        (s : RoutingCandidate Num × Num) (ss : List (RoutingCandidate Num × Num))
        → s.1 ≡ key s.0
        → All (λ t. t.1 ≡ key t.0) ss
        → All (NotBefore F (λ t. t.1) s) ss
        → All (NotBefore F key s.0) (map (λ t. t.0) ss)
    map-NotBefore s [] e h k = tt
    map-NotBefore s (t ∷ ss) e (d, h) (b, k) = (rw (← d, ← e) b, map-NotBefore s ss e h k)

    map-IsRanked :
        (ss : List (RoutingCandidate Num × Num))
        → All (λ s. s.1 ≡ key s.0) ss
        → IsRanked F (λ s. s.1) ss
        → IsRanked F key (map (λ s. s.0) ss)
    map-IsRanked [] h r = tt
    map-IsRanked (s ∷ ss) (e, h) (first, r) = (map-NotBefore s ss e h first, map-IsRanked ss h r)

  All-scored :
      (f : RoutingCandidate Num → Num) (cs : List (RoutingCandidate Num))
      → All (λ (s : RoutingCandidate Num × Num). s.1 ≡ f s.0) (map (λ c. (c, f c)) cs)
  All-scored f [] = tt
  All-scored f (c ∷ cs) = (refl, All-scored f cs)

  -- `balanced` tries them in ascending order of half the normalized cost and half the normalized
  -- latency, both measured against the largest finite value among the healthy candidates, or 1.
  pub plan-balanced-IsRanked :
      (context : RoutingContext Num)
      → IsRanked F
          (candidate_score F (cost_scale context.candidates) (latency_scale context.candidates))
          (plan balanced context)
  unfolding select build_fallback_chain rank_balanced score
  plan-balanced-IsRanked context =
      let key =
        candidate_score F (cost_scale context.candidates) (latency_scale context.candidates) in
      rw (head?-tail (rank_balanced F context.candidates)) (
        map-IsRanked key (score F context.candidates)
          (All-sort_by F (λ s. s.1) (λ s. s.1 ≡ key s.0) _
            (All-scored key (filter is_up context.candidates)))
          (sort_by-IsRanked F (λ s. s.1) _))

  -- Exactly when a candidate is not down, a strategy selects one.
  pub is_some-select :
      (s : RoutingStrategy) (context : RoutingContext Num)
      → is_some (select F s context) ≡ not (is_empty (filter is_up context.candidates))
  unfolding select sort_by_latency sort_by_cost
  is_some-select pinned context = is_some-pinned_select context
  is_some-select fastest context =
      is_some-head? (sort_by_latency F context.candidates)
      ∙ ap not (is_empty-perm _ _ (sort_by-perm F (latency_key F) _))
  is_some-select cheapest context =
      is_some-head? (sort_by_cost F context.candidates)
      ∙ ap not (is_empty-perm _ _ (sort_by-perm F (total_cost F) _))
  is_some-select balanced context =
      is_some-head? (rank_balanced F context.candidates)
      ∙ ap not (is_empty-perm _ _ (rank_balanced-perm context.candidates))
  is_some-select local_first context =
      is_some-head? (rank_local_first F context.candidates)
      ∙ ap not (is_empty-perm _ _ (rank_local_first-perm context.candidates))
  is_some-select privacy_first context =
      is_some-head? (rank_privacy_first F context.candidates)
      ∙ ap not (is_empty-rank_privacy_first context.candidates)

  -- `pinned` has no fallbacks.
  pub build_fallback_chain-pinned :
      (context : RoutingContext Num) → build_fallback_chain F pinned context ≡ []
  unfolding build_fallback_chain
  build_fallback_chain-pinned context = refl
