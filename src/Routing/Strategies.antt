-- ===== src/Routing/Strategies.antt =====
-- libs/sirius-routing/src/strategies: the six ways to choose among the candidates for a model.
pub mod Ranking
pub mod Locality
pub mod Order
use sirius_gateway.Base.{
  ℕ, String, Bool, true, false, List, [], ◌∷◌, ◌++◌, Option, some, none, if◌then◌else◌, filter,
  find, head?, tail, map, ◌==◌, not, is_empty, any, or_else, length, nat_eq,
}
use mathlib.Core.Option.{get_or}
use mathlib.Core.List.{foldl}
use sirius_gateway.Core.Numbers.{Numbers}
use sirius_gateway.Core.Models.{
  ModelCapabilityMatrix, ProviderHealth, ProviderStatus, healthy, degraded, down,
}
use sirius_gateway.Routing.Sorting.{sort_by}

pub record RoutingCandidate (N : Type 0) : Type 0 where
  pub model : ModelCapabilityMatrix N
  pub health : ProviderHealth N

pub record RoutingContext (N : Type 0) : Type 0 where
  pub requested_model : String
  pub required_capabilities : List String
  pub candidates : List (RoutingCandidate N)

pub data RoutingStrategy : Type 0 where
  pinned fastest cheapest balanced local_first privacy_first : RoutingStrategy

unfoldable pub strategy_name : RoutingStrategy → String
strategy_name pinned = "pinned"
strategy_name fastest = "fastest"
strategy_name cheapest = "cheapest"
strategy_name balanced = "balanced"
strategy_name local_first = "local-first"
strategy_name privacy_first = "privacy-first"

abbrev pub local_providers : List String
local_providers = "ollama" ∷ []

abbrev is_down : ProviderStatus → Bool
is_down down = true
is_down _ = false

module _ {N : Type 0} where
  -- `c.health.status !== 'down'`
  abbrev pub is_up : RoutingCandidate N → Bool
  is_up c = not (is_down c.health.status)

  abbrev pub is_local : RoutingCandidate N → Bool
  is_local c = any (λ p. p == c.model.provider) local_providers

  -- `PinnedStrategy.select`
  pub pinned_select : RoutingContext N → Option (RoutingCandidate N)
  pinned_select context =
      let up = filter is_up context.candidates in
      if nat_eq (length up) 1
      then head? up
      else or_else (find (λ c. c.model.model_id == context.requested_model) up) (head? up)

module _ (F : Numbers) where
  open F use {Num, lt, infinity, add, mul, div, decimal}

  abbrev pub latency_key : RoutingCandidate Num → Num
  latency_key c = get_or c.health.latency_ms infinity

  abbrev price_key : Option Num → Option Num → Num
  price_key none none = infinity
  price_key input output = add (get_or input (decimal 0 0)) (get_or output (decimal 0 0))

  -- `totalCost`: without any price a model goes to the end.
  abbrev pub total_cost : RoutingCandidate Num → Num
  total_cost c = price_key c.model.cost_per_1k_input c.model.cost_per_1k_output

  -- `FastestStrategy.sortByLatency`
  pub sort_by_latency : List (RoutingCandidate Num) → List (RoutingCandidate Num)
  sort_by_latency candidates = sort_by F latency_key (filter is_up candidates)

  -- `CheapestStrategy.sortByCost`
  pub sort_by_cost : List (RoutingCandidate Num) → List (RoutingCandidate Num)
  sort_by_cost candidates = sort_by F total_cost (filter is_up candidates)

  -- `Math.max(...values.filter((v) => v < Infinity), 1)`
  pub max_finite : List Num → Num
  max_finite values =
      foldl (λ a b. if lt a b then b else a) (decimal 1 0) (filter (λ v. lt v infinity) values)

  -- A value over the largest finite one; a value that is not finite counts as 1.
  pub normalized : Num → Num → Num
  normalized value largest = if lt value infinity then div value largest else decimal 1 0

  -- The score of a candidate, given the largest cost and latency.
  pub candidate_score : Num → Num → RoutingCandidate Num → Num
  unfolding normalized
  candidate_score max_cost max_latency c =
      add (mul (decimal 5 1) (normalized (total_cost c) max_cost))
        (mul (decimal 5 1) (normalized (latency_key c) max_latency))

  -- `BalancedStrategy.score`, its pairs of a candidate and its score.
  pub score : List (RoutingCandidate Num) → List (RoutingCandidate Num × Num)
  unfolding max_finite candidate_score
  score candidates =
      let up = filter is_up candidates in
      let max_cost = max_finite (map total_cost up) in
      let max_latency = max_finite (map latency_key up) in
      sort_by F (λ s. s.1) (map (λ c. (c, candidate_score max_cost max_latency c)) up)

  pub rank_balanced : List (RoutingCandidate Num) → List (RoutingCandidate Num)
  unfolding score
  rank_balanced candidates = map (λ s. s.0) (score candidates)

  -- `LocalFirstStrategy.rank`
  unfoldable pub rank_local_first : List (RoutingCandidate Num) → List (RoutingCandidate Num)
  rank_local_first candidates =
      let up = filter is_up candidates in
      sort_by F latency_key (filter is_local up)
      ++ sort_by F latency_key (filter (λ c. not (is_local c)) up)

  -- `PrivacyFirstStrategy.rank`
  pub rank_privacy_first : List (RoutingCandidate Num) → List (RoutingCandidate Num)
  rank_privacy_first candidates =
      let up = filter is_up candidates in
      let local = sort_by F latency_key (filter is_local up) in
      if is_empty local then sort_by F latency_key up else local

  -- `strategy.select(context)`
  unfoldable pub select : RoutingStrategy → RoutingContext Num → Option (RoutingCandidate Num)
  unfolding pinned_select sort_by_latency sort_by_cost rank_balanced rank_local_first
      rank_privacy_first
  select pinned context = pinned_select context
  select fastest context = head? (sort_by_latency context.candidates)
  select cheapest context = head? (sort_by_cost context.candidates)
  select balanced context = head? (rank_balanced context.candidates)
  select local_first context = head? (rank_local_first context.candidates)
  select privacy_first context = head? (rank_privacy_first context.candidates)

  -- `strategy.buildFallbackChain(context)`
  pub build_fallback_chain : RoutingStrategy → RoutingContext Num → List (RoutingCandidate Num)
  unfolding sort_by_latency sort_by_cost rank_balanced rank_local_first rank_privacy_first
  build_fallback_chain pinned context = []
  build_fallback_chain fastest context = tail (sort_by_latency context.candidates)
  build_fallback_chain cheapest context = tail (sort_by_cost context.candidates)
  build_fallback_chain balanced context = tail (rank_balanced context.candidates)
  build_fallback_chain local_first context = tail (rank_local_first context.candidates)
  build_fallback_chain privacy_first context = tail (rank_privacy_first context.candidates)
