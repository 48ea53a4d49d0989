-- ===== src/Nova/Tests.antt =====
-- libs/provider-llamactl/src and the adapter of libs/provider-fromfile/src on sample streams and
-- snapshots, and the uses of the results there.
use sirius_gateway.Base.{ℕ, List, String, true, false, [], ◌∷◌, Option, some, none}
use sirius_gateway.Nova.{chunk, ended, Ending}
use sirius_gateway.Nova.Llamactl.{stream_response}
use sirius_gateway.Nova.Llamactl.Endings.{Closes, stream_response-Closes}
use sirius_gateway.Nova.SiriusAdapter.{stream_from_core}
use sirius_gateway.Nova.SiriusAdapter.Truncation.{broken_off, stream_from_core-differs}

stream_response-Closes_example :
    Closes false
      (stream_response "llamactl-gpu1" (some (chunk (some "Hel") ∷ [], Ending.thrown "reset")))
stream_response-Closes_example =
    stream_response-Closes "llamactl-gpu1" (some (chunk (some "Hel") ∷ [], Ending.thrown "reset"))

stream_from_core-differs_example :
    Closes false (stream_response "n" (some (broken_off ("Hel" ∷ []) none, ended)))
    × Closes true (stream_from_core (some (broken_off ("Hel" ∷ []) none, ended))).0
stream_from_core-differs_example = stream_from_core-differs "n" ("Hel" ∷ []) none

abbrev same : String → String
same s = s

abbrev snapshots : List (Option String × ℕ)
snapshots = (some "a1", 10) ∷ (some "a2", 20) ∷ (none, 30) ∷ []
