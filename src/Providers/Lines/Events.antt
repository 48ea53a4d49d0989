-- ===== src/Providers/Lines/Events.antt =====
-- libs/provider-*/src/*.stream-parser.ts: the events of a body as those of its decoded lines.
use mathlib.Core.List.{append_assoc, append-nil}
use sirius_gateway.Base.{
  String, true, List, [], ◌∷◌, ◌++◌, Option, some, none, is_blank, split_on, split_on-parts, trim,
  Bool-cases, Option-cases, to_list, inl, inr, ◌≡◌, refl, sym, ap, ◌∙◌,
}
use sirius_gateway.Providers.Lines.{parse_stream}
use sirius_gateway.Providers.Lines.Chunking.{concat, finish, parse_stream-finish}

module _ {S E X : Type 0} (step : S → X → List E × S) where
  -- One payload after the other.
  abbrev pub run : S → List X → List E × S
  run st [] = ([], st)
  run st (x ∷ xs) = let here = step st x in let rest = run here.1 xs in (here.0 ++ rest.0, rest.1)

  abbrev step_if : S → Option X → List E × S
  step_if st none = ([], st)
  step_if st (some x) = step st x

  module _ (decode : String → Option X) where
    abbrev pub on_line : S → String → List E × S
    on_line st line = step_if st (decode line)

    -- The payloads of the lines of a body.
    abbrev pub payloads : List String → List X
    payloads [] = []
    payloads (line ∷ lines) = to_list (decode line) ++ payloads lines

    module _ (blank : (line : String) → is_blank (trim line) ≡ true → decode line ≡ none) where
      finish-payloads :
          (st : S) (line : String) (lines : List String)
          → finish on_line st (line ∷ lines) ≡ (run st (payloads (line ∷ lines))).0
      finish-payloads st line [] = elim (Bool-cases (is_blank (trim line))) [
        | inl e ↦ rw (e, blank line e) refl
        | inr e ↦ elim (Option-cases (decode line)) [
          | inl n ↦ rw (e, n) refl
          | inr (x, h) ↦ rw (e, h) (sym (append-nil (step st x).0))
        ]
      ]
      finish-payloads st line (next ∷ lines) = elim (Option-cases (decode line)) [
        | inl n ↦ rw n (finish-payloads st next lines)
        | inr (x, h) ↦ rw h (
            append_assoc (step st x).0 _ _
            ∙ ap (λ es. (step st x).0 ++ es) (finish-payloads (step st x).1 next lines))
      ]

      -- The events of a body in chunks are those of its payloads, line by line.
      pub parse_stream-payloads :
          (st : S) (chunks : List String)
          → parse_stream on_line st chunks ≡ (run st (payloads (split_on b'\n' (concat chunks)))).0
      parse_stream-payloads st chunks =
          let (p, ps, e) = split_on-parts b'\n' (concat chunks) in
          parse_stream-finish on_line st chunks ∙ rw e (finish-payloads st p ps)
