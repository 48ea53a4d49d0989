-- ===== src/Core/Json.antt =====
-- JavaScript's `JSON`, as far as the program uses it: `parse` gives nothing for a text that
-- `JSON.parse` refuses.
use Prim.Native.String.{String}
use mathlib.Core.Path.{◌≡◌}
use mathlib.Core.Bool.{Bool}
use mathlib.Core.Option.{Option, none, some}

pub record Json : Type 1 where
  pub Value : Type 0
  pub parse : String → Option Value
  pub stringify : Value → String
  pub parse-empty : parse "" ≡ none
  -- `{}`
  pub empty_object : Value
  -- Neither null, nor a list, nor a text, number or Boolean.
  pub is_object : Value → Bool
  pub parse-stringify : (v : Value) → parse (stringify v) ≡ some v
