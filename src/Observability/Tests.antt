-- ===== src/Observability/Tests.antt =====
-- libs/sirius-observability/src on sample calls and streams, and the uses of its theorems there.
use sirius_gateway.Base.{ℕ, String, List, [], ◌∷◌, ◌≡◌}
use sirius_gateway.Base.Dict
use sirius_gateway.Core.Messages.{UsageMetrics}
use sirius_gateway.Observability.LatencyTracker.{window_size, history_of}
use sirius_gateway.Observability.LatencyTracker.Window.{keep_last, record_all, window-record_all}

abbrev calls : List (String × ℕ)
calls = ("openai", 30) ∷ ("ollama", 5) ∷ ("openai", 40) ∷ []

window-record_all_example :
    history_of (Dict.get "openai" (record_all calls [])) ≡ keep_last window_size (30 ∷ 40 ∷ [])
window-record_all_example = window-record_all "openai" calls

abbrev tokens : UsageMetrics
tokens = record { input_tokens = 3; output_tokens = 2; total_tokens = 5 }
