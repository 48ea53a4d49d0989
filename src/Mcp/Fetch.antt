-- ===== src/Mcp/Fetch.antt =====
-- apps/sirius-mcp/src/server.ts: the calls of the gateway. What `fetch` gives is an argument; `J` is the
-- type of JSON values.
mod Tests
use mathlib.Core.Option
use mathlib.Core.Option.{get_or}
use sirius_gateway.Base.{
  ℕ, String, Bool, true, false, List, [], ◌∷◌, Option, some, none, if◌then◌else◌, ◌==◌, ◌&◌, not,
  map, filter, find, length, is_some, is_blank, split_on, join,
}

-- What calling `fetch` and reading the text comes to.
pub data HttpReply : Type 0 where
  responded : (ok : Bool) (status : ℕ) (text : String) → HttpReply
  unreachable : (message : String) → HttpReply

pub data Body (J : Type 0) : Type 0 where
  json : J → Body J
  raw : String → Body J
  null : Body J

pub record FetchResult (J : Type 0) : Type 0 where
  pub ok : Bool
  pub status : ℕ
  pub body : Body J
  pub error : Option String

parts_but_last : List String → List String
parts_but_last [] = []
parts_but_last (p ∷ []) = []
parts_but_last (p ∷ q ∷ ps) = p ∷ parts_but_last (q ∷ ps)

-- `replace(/\/$/, '')`: the text before a last slash, if it ends with one.
abbrev ends_in_slash : List String → Bool
ends_in_slash [] = false
ends_in_slash (p ∷ []) = is_blank p
ends_in_slash (p ∷ q ∷ ps) = ends_in_slash (q ∷ ps)

without_slash : String → String
unfolding parts_but_last
without_slash url =
    let ps = split_on b'/' url in if ends_in_slash ps then join "/" (parts_but_last ps) else url

pub sirius_base_url : (sirius_url : Option String) → String
unfolding without_slash
sirius_base_url sirius_url = without_slash (get_or sirius_url "http://127.0.0.1:3000")

module _ {J : Type 0} (parse : String → Option J) where
  -- A body that is no JSON stays a text.
  body_of : String → Option J → Body J
  body_of text none = raw text
  body_of text (some j) = json j

  -- `fetchJson`, and `postJson` likewise.
  pub fetch_json : HttpReply → FetchResult J
  unfolding body_of
  fetch_json (responded ok status text) = record {
    ok = ok;
    status = status;
    body = body_of text (parse text);
    error = none;
  }
  fetch_json (unreachable message) = record {
    ok = false;
    status = 0;
    body = null;
    error = some message;
  }
