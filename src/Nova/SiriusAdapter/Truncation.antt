-- ===== src/Nova/SiriusAdapter/Truncation.antt =====
-- libs/provider-fromfile/src/fromfile-provider.module.ts: streams that break off, beside those of
-- libs/provider-llamactl/src/llamactl.adapter.ts.
use sirius_gateway.Base.{String, true, false, List, [], ◌∷◌, Option, some, ◌≡◌, refl}
use sirius_gateway.Nova.{NovaStreamEvent, chunk, eof, ended}
use sirius_gateway.Nova.Llamactl.{stream_response}
use sirius_gateway.Nova.Llamactl.Endings.{Closes, Closes-content, completed, stream_response-Closes}
use sirius_gateway.Nova.SiriusAdapter.{translate_event, translate_events, stream_from_core}

-- A stream that breaks off after some text.
abbrev pub broken_off : List String → Option String → List NovaStreamEvent
broken_off [] reason = NovaStreamEvent.done reason eof ∷ []
broken_off (t ∷ ts) reason = chunk (some t) ∷ broken_off ts reason

from_core-Closes :
    (ts : List String) (reason : Option String)
    → Closes true (translate_events (broken_off ts reason))
unfolding translate_events translate_event
from_core-Closes [] reason = (refl, refl)
from_core-Closes (t ∷ ts) reason =
    Closes-content true (some t) (translate_events (broken_off ts reason))
      (from_core-Closes ts reason)

completed-broken_off :
    (ts : List String) (reason : Option String) → completed (broken_off ts reason) ≡ false
completed-broken_off [] reason = refl
completed-broken_off (t ∷ ts) reason = completed-broken_off ts reason

-- A stream that breaks off at the upstream ends in an error with the llamactl adapter, and as a
-- success with the adapter for providers from the file.
pub stream_from_core-differs :
    (name : String) (ts : List String) (reason : Option String)
    → Closes false (stream_response name (some (broken_off ts reason, ended)))
      × Closes true (stream_from_core (some (broken_off ts reason, ended))).0
unfolding stream_from_core
stream_from_core-differs name ts reason = (
  rw (← completed-broken_off ts reason)
      (stream_response-Closes name (some (broken_off ts reason, ended))),
  from_core-Closes ts reason,
)
