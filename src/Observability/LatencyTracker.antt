-- ===== src/Observability/LatencyTracker.antt =====
-- libs/sirius-observability/src/latency-tracker.service.ts: the last ten latencies of each provider.
pub mod Window
use mathlib.Core.List.{foldl}
use sirius_gateway.Base.{
  ℕ, String, Bool, List, [], ◌∷◌, ◌++◌, Option, some, none, ltb, if◌then◌else◌, length, tail,
  is_empty,
}
use sirius_gateway.Base.Dict
use sirius_gateway.Base.Dict.{Dict}
use sirius_gateway.Core.Numbers.{Numbers}

abbrev pub window_size : ℕ
window_size = 10

-- `history.push(x)`, then `history.shift()` when the window is exceeded.
unfoldable pub push {ℓ} : {A : Type ℓ} → List A → A → List A
push history x =
    let longer = history ++ x ∷ [] in
    if ltb window_size (length longer) then tail longer else longer

abbrev pub history_of {ℓ} : {A : Type ℓ} → Option (List A) → List A
history_of none = []
history_of (some history) = history

pub record_latency {ℓ} : {A : Type ℓ} → String → A → Dict (List A) → Dict (List A)
unfolding push
record_latency provider latency latencies =
    Dict.set provider (push (history_of (Dict.get provider latencies)) latency) latencies

module _ (F : Numbers) where
  open F use {Num, add, div, decimal}

  sum : List Num → Num
  sum history = foldl add (decimal 0 0) history

  average : Option (List Num) → Option Num
  unfolding sum
  average none = none
  average (some []) = none
  average (some (x ∷ xs)) = some (div (sum (x ∷ xs)) (decimal (length (x ∷ xs)) 0))

  pub get_average_latency : String → Dict (List Num) → Option Num
  unfolding average
  get_average_latency provider latencies = average (Dict.get provider latencies)

  abbrev add_average : String → Option Num → Dict Num → Dict Num
  add_average provider none averages = averages
  add_average provider (some avg) averages = Dict.set provider avg averages

  averages_from : Dict (List Num) → List String → Dict Num → Dict Num
  averages_from latencies [] averages = averages
  averages_from latencies (provider ∷ providers) averages =
      averages_from latencies providers
        (add_average provider (get_average_latency provider latencies) averages)

  pub get_all_averages : Dict (List Num) → Dict Num
  unfolding averages_from
  get_all_averages latencies = averages_from latencies (Dict.keys latencies) []
