-- ===== src/Providers/Lines/Chunking.antt =====
-- libs/provider-*/src/*.stream-parser.ts: one body in different chunks.
use text.Mathlib.TextLemmas
use text.Mathlib.TextLemmas.{nil-append}
use mathlib.Core.List.{append_assoc, append-nil}
use sirius_gateway.Base.{
  String, false, List, [], ◌∷◌, ◌++◌, ◌&◌, split_on, split_on-whole, split_on-parts, split_on-join,
  split_on-All, join_parts, has_char, All, ◌≡◌, refl, sym, ap, ◌∙◌,
}
use sirius_gateway.Providers.Lines.{processed, last_part, flush, parse_from, parse_stream}

abbrev pub concat : List String → String
concat [] = ""
concat (s ∷ ss) = s & concat ss

last-plain :
    (parts : List String)
    → All (λ p. has_char b'\n' p ≡ false) parts
    → has_char b'\n' (last_part parts) ≡ false
last-plain [] h = refl
last-plain (p ∷ []) h = h.0
last-plain (p ∷ r ∷ parts) h = last-plain (r ∷ parts) h.1

module _ {S E : Type 0} (process_line : S → String → List E × S) where
  -- What becomes of the parts of a whole body.
  abbrev pub finish : S → List String → List E
  finish st parts =
      let lines = processed process_line st parts in
      lines.0 ++ flush process_line lines.1 (last_part parts)

  finish-join :
      (st : S) (p : String) (ps : List String) (q : String) (qs : List String)
      → finish st (join_parts (p ∷ ps) (q ∷ qs))
        ≡ (processed process_line st (p ∷ ps)).0
          ++ finish
              (processed process_line st (p ∷ ps)).1
              (join_parts (last_part (p ∷ ps) ∷ []) (q ∷ qs))
  finish-join st p [] q qs = refl
  finish-join st p (r ∷ []) q qs =
      let line = process_line st p in
      append_assoc line.0 _ _
      ∙ ap (λ x. x ++ finish line.1 ((r & q) ∷ qs)) (sym (append-nil line.0))
  finish-join st p (r ∷ t ∷ ps) q qs =
      let line = process_line st p in
      append_assoc line.0 _ _
      ∙ (ap (λ x. line.0 ++ x) (finish-join line.1 r (t ∷ ps) q qs)
          ∙ sym (append_assoc line.0 (processed process_line line.1 (r ∷ t ∷ ps)).0 _))

  -- What is left in the buffer after some chunks and what follows are as good as the whole.
  finish-split :
      (st : S) (s t : String)
      → finish st (split_on b'\n' (s & t))
        ≡ (processed process_line st (split_on b'\n' s)).0
          ++ finish
              (processed process_line st (split_on b'\n' s)).1
              (split_on b'\n' (last_part (split_on b'\n' s) & t))
  finish-split st s t =
      let (p, ps, e) = split_on-parts b'\n' s in
      let (q, qs, f) = split_on-parts b'\n' t in
      let buffer = last_part (split_on b'\n' s) in
      let whole =
        split_on-whole b'\n' buffer (last-plain (split_on b'\n' s) (split_on-All b'\n' s)) in
      rw (split_on-join b'\n' s t, split_on-join b'\n' buffer t, whole, e, f)
        (finish-join st p ps q qs)

  parse_from_lem :
      (st : S) (buffer : String) (chunks : List String)
      → has_char b'\n' buffer ≡ false
      → parse_from process_line st buffer chunks
        ≡ finish st (split_on b'\n' (buffer & concat chunks))
  unfolding parse_from
  parse_from_lem st buffer [] h =
      rw (TextLemmas.append-nil buffer, split_on-whole b'\n' buffer h) refl
  parse_from_lem st buffer (chunk ∷ chunks) h =
      let parts = split_on b'\n' (buffer & chunk) in
      let lines = processed process_line st parts in
      ap (λ x. lines.0 ++ x)
        (parse_from_lem lines.1 (last_part parts) chunks
          (last-plain parts (split_on-All b'\n' (buffer & chunk))))
      ∙ (sym (finish-split st (buffer & chunk) (concat chunks))
          ∙ ap (λ x. finish st (split_on b'\n' x))
              (TextLemmas.append_assoc buffer chunk (concat chunks)))

  pub parse_stream-finish :
      (st : S) (chunks : List String)
      → parse_stream process_line st chunks ≡ finish st (split_on b'\n' (concat chunks))
  unfolding parse_stream
  parse_stream-finish st chunks =
      parse_from_lem st "" chunks refl ∙ rw (nil-append (concat chunks)) refl

  -- However the network cuts a body into chunks, its events are those of the body as one chunk.
  pub parse_stream-concat :
      (st : S) (chunks : List String)
      → parse_stream process_line st chunks ≡ parse_stream process_line st (concat chunks ∷ [])
  unfolding parse_stream
  parse_stream-concat st chunks =
      parse_from_lem st "" chunks refl
      ∙ (ap (λ x. finish st (split_on b'\n' ("" & x))) (sym (TextLemmas.append-nil (concat chunks)))
          ∙ sym (parse_from_lem st "" (concat chunks ∷ []) refl))
