-- ===== src/Providers/Lines.antt =====
-- libs/provider-*/src/*.stream-parser.ts: the loop that the three stream parsers share, over the
-- decoded chunks of a body, which it cuts into lines. `process_line` is what becomes of a line, and
-- of what the parser remembers.
pub mod Chunking
pub mod Events
use sirius_gateway.Base.{
  String, Bool, List, [], ◌∷◌, ◌++◌, if◌then◌else◌, is_blank, ◌&◌, split_on, trim,
}

abbrev pub last_part : List String → String
last_part [] = ""
last_part (part ∷ []) = part
last_part (part ∷ next ∷ parts) = last_part (next ∷ parts)

module _ {S E : Type 0} (process_line : S → String → List E × S) where
  -- `lines.pop()` leaves all parts but the last to the loop, and the last, possibly incomplete, in
  -- the buffer.
  abbrev pub processed : S → List String → List E × S
  processed st [] = ([], st)
  processed st (part ∷ []) = ([], st)
  processed st (part ∷ next ∷ parts) =
      let line = process_line st part in
      let rest = processed line.1 (next ∷ parts) in (line.0 ++ rest.0, rest.1)

  abbrev pub flush : S → String → List E
  flush st buffer = if is_blank (trim buffer) then [] else (process_line st buffer).0

  pub parse_from : S → (buffer : String) → (chunks : List String) → List E
  parse_from st buffer [] = flush st buffer
  parse_from st buffer (chunk ∷ chunks) =
      let parts = split_on b'\n' (buffer & chunk) in
      let lines = processed st parts in lines.0 ++ parse_from lines.1 (last_part parts) chunks

  pub parse_stream : S → List String → List E
  unfolding parse_from
  parse_stream st chunks = parse_from st "" chunks
