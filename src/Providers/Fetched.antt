-- ===== src/Providers/Fetched.antt =====
-- libs/provider-*/src/*.adapter.ts: what the three adapters make of a reply of `fetch`. Replies whose
-- body breaks off are left out.
use mathlib.Core.Option.{get_or}
use sirius_gateway.Base.{ℕ, String, List, [], ◌∷◌, Option, some, none, ◌&◌}
use sirius_gateway.Core.Messages.{UnifiedStreamEvent}
use sirius_gateway.Policy.Breaker.{Error, thrown, Result, ok, err}

-- A reply whose status is not ok: `message` is the field `error.message` of its JSON body, `text` the
-- body as a text; each is nothing if reading it fails or the field is not there.
pub record ErrorReply : Type 0 where
  pub status : ℕ
  pub status_text : String
  pub message : Option String
  pub text : Option String

pub data Fetched (A : Type 0) : Type 0 where
  unreachable : (message : String) → Fetched A
  not_ok : ErrorReply → Fetched A
  fetched : A → Fetched A

-- The messages of the adapters' errors: with the message of a JSON body, or with a body's text.
pub json_refusal : (printed : ℕ → String) → (label : String) → ErrorReply → String
json_refusal printed label r =
    label & " error " & printed r.status & ": " & get_or r.message r.status_text

pub text_refusal : (printed : ℕ → String) → (label : String) → ErrorReply → String
text_refusal printed label r =
    label & " error " & printed r.status & ": " & get_or r.text r.status_text

-- A refusal is thrown.
unfoldable pub reply : {A B : Type 0} → (ErrorReply → String) → (A → B) → Fetched A → Result B
reply describe translate (unreachable message) = err (thrown message)
reply describe translate (not_ok r) = err (thrown (describe r))
reply describe translate (fetched raw) = ok (translate raw)

-- What a stream yields, and the error that it then throws: a refusal is yielded, not thrown.
unfoldable pub stream_reply :
    {A : Type 0}
    → (ErrorReply → String)
    → (A → List UnifiedStreamEvent)
    → Fetched A
    → List UnifiedStreamEvent × Option Error
stream_reply describe translate (unreachable message) = ([], some (thrown message))
stream_reply describe translate (not_ok r) = (UnifiedStreamEvent.error (describe r) none ∷ [], none)
stream_reply describe translate (fetched body) = (translate body, none)
