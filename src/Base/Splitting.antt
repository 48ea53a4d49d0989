-- ===== src/Base/Splitting.antt =====
-- The parts that `split` gives.
use Prim.Native.Char.{code}
use Prim.Native.String.{String}
use Prim.Native.Nat.{ℕ}
use mathlib.Core.Path.{◌≡◌, refl}
use mathlib.Core.Logic.{inl, inr}
use mathlib.Core.Bool.{false}
use mathlib.Core.List.{◌∷◌}
use sirius_gateway.Base.Tests.{nat_eq, Bool-cases}
use sirius_gateway.Base.Text.{has_char, split_on, split_on-parts}
use sirius_gateway.Base.Lists.{All}

pub split_on-All : (c : ℕ) (s : String) → All (λ p. has_char c p ≡ false) (split_on c s)
unfolding split_on
split_on-All c String.[] = (refl, tt)
split_on-All c (String.◌∷◌ d s) =
    let (p, ps, e) = split_on-parts c s in
    elim (Bool-cases (nat_eq (code d) c)) [
      | inl here ↦ rw here (refl, split_on-All c s)
      | inr there ↦
          let h : All (λ p. has_char c p ≡ false) (p ∷ ps) = rw e at (split_on-All c s) in
          rw (there, e) (rw there h.0, h.1)
    ]
