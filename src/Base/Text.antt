-- ===== src/Base/Text.antt =====
-- Texts walked character by character.
use Prim.Native.Char.{Char, code}
use Prim.Native.String
use Prim.Native.String.{String, [], ◌∷◌}
use mathlib.Core.Path.{◌≡◌, refl}
use mathlib.Core.Bool.{Bool, true, false, ◌||◌, ◌&&◌}
use mathlib.Core.List as L
use mathlib.Core.List.{List}
use mathlib.Core.Option.{Option, none, some}
use Prim.Native.Nat.{ℕ, ◌+◌}
use text.Mathlib.TextLemmas.{nil-append, cons-append}
use native.Mathlib.Omega.{arith}
use sirius_gateway.Base.Tests.{nat_eq, leb, if◌then◌else◌, Bool-cases}
use mathlib.Core.Logic.{inl, inr}
use mathlib.Core.Path.{sym, ap}

-- `s.includes(c)` for a single character.
abbrev pub has_char : ℕ → String → Bool
has_char c [] = false
has_char c (d ∷ s) = nat_eq (code d) c || has_char c s

infixr 65 ◌&◌
abbrev pub ◌&◌ : String → String → String
s & t = String.◌++◌ s t

-- JavaScript counts the empty text as false.
abbrev pub is_blank : String → Bool
is_blank [] = true
is_blank (c ∷ s) = false

pub has_char-append_right : (c : ℕ) (s t : String) → has_char c t ≡ true → has_char c (s & t) ≡ true
has_char-append_right c [] t h = rw nil-append h
has_char-append_right c (d ∷ s) t h = rw cons-append (ground (arith, has_char-append_right c s t h))

pub has_char-colon : (s : String) → has_char b':' (":" & s) ≡ true
has_char-colon s = rw (cons-append _ "" s)

-- `s.split(c)` for a single character; `c` ends a part.
abbrev add_char : Char → List String → List String
add_char d L.[] = L.◌∷◌ (d ∷ []) L.[]
add_char d (L.◌∷◌ part parts) = L.◌∷◌ (d ∷ part) parts

unfoldable pub split_on : ℕ → String → List String
split_on c [] = L.◌∷◌ "" L.[]
split_on c (d ∷ s) =
    let parts = split_on c s in if nat_eq (code d) c then L.◌∷◌ "" parts else add_char d parts

-- Without the separator there is one part.
pub split_on-whole : (c : ℕ) (s : String) → has_char c s ≡ false → split_on c s ≡ L.◌∷◌ s L.[]
unfolding split_on
split_on-whole c [] h = refl
split_on-whole c (d ∷ s) h = ground (arith, split_on-whole c s)

-- The first part ends at the first separator.
pub split_on-append :
    (c : ℕ) (s : String) (d : Char) (t : String)
    → has_char c s ≡ false
    → code d ≡ c
    → split_on c (s & (d ∷ t)) ≡ L.◌∷◌ s (split_on c t)
unfolding split_on
split_on-append c [] d t h e = rw nil-append (ground arith)
split_on-append c (a ∷ s) d t h e = rw cons-append (ground (arith, split_on-append c s d t))

-- A text that JavaScript counts as true, if there is one.
abbrev pub truthy : Option String → Option String
truthy none = none
truthy (some s) = if is_blank s then none else some s

pub empty_of_is_blank : (t : String) → is_blank t ≡ true → t ≡ ""
empty_of_is_blank [] h = refl
empty_of_is_blank (c ∷ s) h = cc

-- The codes of a text, with the letters A to Z made small. No other character has one of a to z and
-- the hyphen as its small form except the Kelvin sign, for k.
abbrev small_code : ℕ → ℕ
small_code c = if leb 65 c && leb c 90 then c + 32 else c

abbrev pub lowered_codes : String → List ℕ
lowered_codes [] = L.[]
lowered_codes (c ∷ s) = L.◌∷◌ (small_code (code c)) (lowered_codes s)

abbrev pub starts_with_codes : List ℕ → List ℕ → Bool
starts_with_codes L.[] s = true
starts_with_codes (L.◌∷◌ c t) L.[] = false
starts_with_codes (L.◌∷◌ c t) (L.◌∷◌ d s) = nat_eq c d && starts_with_codes t s

abbrev pub includes_codes : List ℕ → List ℕ → Bool
includes_codes t L.[] = starts_with_codes t L.[]
includes_codes t (L.◌∷◌ d s) = starts_with_codes t (L.◌∷◌ d s) || includes_codes t s

abbrev same_codes : List ℕ → List ℕ → Bool
same_codes s t = starts_with_codes s t && starts_with_codes t s

abbrev pub ends_with_codes : List ℕ → List ℕ → Bool
ends_with_codes t L.[] = same_codes t L.[]
ends_with_codes t (L.◌∷◌ d s) = same_codes t (L.◌∷◌ d s) || ends_with_codes t s

-- JavaScript's white space and line ends.
abbrev is_space : ℕ → Bool
is_space c =
    (leb 9 c && leb c 13)
    || nat_eq c 32
    || nat_eq c 160
    || nat_eq c 5760
    || (leb 8192 c && leb c 8202)
    || nat_eq c 8232
    || nat_eq c 8233
    || nat_eq c 8239
    || nat_eq c 8287
    || nat_eq c 12288
    || nat_eq c 65279

trim_start : String → String
trim_start [] = ""
trim_start (c ∷ s) = if is_space (code c) then trim_start s else c ∷ s

trim_end : String → String
trim_end [] = ""
trim_end (c ∷ s) =
    let rest = trim_end s in if is_space (code c) && is_blank rest then "" else c ∷ rest

unfoldable pub trim : String → String
unfolding trim_start trim_end
trim s = trim_end (trim_start s)

-- What follows a prefix.
abbrev pub after_prefix : String → String → Option String
after_prefix [] s = some s
after_prefix (c ∷ p) [] = none
after_prefix (c ∷ p) (d ∷ s) = if nat_eq (code c) (code d) then after_prefix p s else none

-- The parts of two texts in a row: the last part of the first and the first of the second are one.
abbrev pub join_parts : List String → List String → List String
join_parts L.[] qs = qs
join_parts (L.◌∷◌ p L.[]) L.[] = L.◌∷◌ p L.[]
join_parts (L.◌∷◌ p L.[]) (L.◌∷◌ q qs) = L.◌∷◌ (p & q) qs
join_parts (L.◌∷◌ p (L.◌∷◌ r ps)) qs = L.◌∷◌ p (join_parts (L.◌∷◌ r ps) qs)

pub split_on-parts :
    (c : ℕ) (s : String) → (p : String) × (ps : List String) × (split_on c s ≡ L.◌∷◌ p ps)
unfolding split_on
split_on-parts c [] = ("", L.[], refl)
split_on-parts c (d ∷ s) =
    let (p, ps, e) = split_on-parts c s in
    elim (Bool-cases (nat_eq (code d) c)) [
      | inl here ↦ rw here ("", split_on c s, refl)
      | inr there ↦ rw (there, e) (d ∷ p, ps, refl)
    ]

joined :
    (d : Char) (p q : String) (ps qs : List String)
    → add_char d (join_parts (L.◌∷◌ p ps) (L.◌∷◌ q qs))
      ≡ join_parts (add_char d (L.◌∷◌ p ps)) (L.◌∷◌ q qs)
joined d p q L.[] qs = ap (λ x. L.◌∷◌ x qs) (sym (cons-append d p q))
joined d p q (L.◌∷◌ r ps) qs = refl

pub split_on-join :
    (c : ℕ) (s t : String) → split_on c (s & t) ≡ join_parts (split_on c s) (split_on c t)
unfolding split_on
split_on-join c [] t =
    let (q, qs, e) = split_on-parts c t in
    rw (nil-append t, e) (ap (λ x. L.◌∷◌ x qs) (sym (nil-append q)))
split_on-join c (d ∷ s) t =
    let (p, ps, e) = split_on-parts c s in
    let (q, qs, f) = split_on-parts c t in
    elim (Bool-cases (nat_eq (code d) c)) [
      | inl here ↦ rw (cons-append d s t, here, split_on-join c s t, e, f) refl
      | inr there ↦ rw (cons-append d s t, there, split_on-join c s t, e, f) (joined d p q ps qs)
    ]

-- `parts.join(separator)`
abbrev pub join : String → List String → String
join separator L.[] = ""
join separator (L.◌∷◌ p L.[]) = p
join separator (L.◌∷◌ p (L.◌∷◌ q ps)) = p & separator & join separator (L.◌∷◌ q ps)
