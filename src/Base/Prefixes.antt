-- ===== src/Base/Prefixes.antt =====
-- Prefixes of texts, for `startsWith` and `slice`.
use Prim.Native.Char.{code}
use Prim.Native.String.{String, [], ◌∷◌}
use mathlib.Core.Path.{◌≡◌, refl, ap}
use mathlib.Core.Logic.{inl, inr}
use mathlib.Core.Option.{some}
use native.Mathlib.Omega.{arith}
use text.Mathlib.TextLemmas.{nil-append, cons-append}
use text.Mathlib.TextEquality.{Char-path}
use sirius_gateway.Base.Tests.{nat_eq, Bool-cases}
use sirius_gateway.Base.Text.{◌&◌, after_prefix}

pub after_prefix_sound : (p s t : String) → after_prefix p s ≡ some t → s ≡ p & t
after_prefix_sound [] s t h = cc (h, nil-append t)
after_prefix_sound (c ∷ p) [] t h = cc
after_prefix_sound (c ∷ p) (d ∷ s) t h = elim (Bool-cases (nat_eq (code c) (code d))) [
  | inl same ↦
      let e : c ≡ d = Char-path c d (ground arith) in
      rw (cons-append c p t, e) (ap (λ x. d ∷ x) (after_prefix_sound p s t (rw same at h)))
  | inr other ↦ cc (rw other at h)
]

pub after_prefix-append : (p t : String) → after_prefix p (p & t) ≡ some t
after_prefix-append [] t = rw nil-append refl
after_prefix-append (c ∷ p) t = rw (cons-append c p t) (ground (arith, after_prefix-append p t))
