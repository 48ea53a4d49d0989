-- ===== src/FromFile/DateSuffix.antt =====
-- libs/provider-fromfile/src/fromfile-provider.module.ts: `stripAnthropicDateSuffix`, over the
-- characters of a text.
use Prim.Native.Char.{code}
use Prim.Native.String.{String, [], ◌∷◌}
use mathlib.Core.Option
use mathlib.Core.Option.{Option, some, none}
use sirius_gateway.Base.{ℕ, zero, suc, Bool, true, false, if◌then◌else◌, ◌&&◌, nat_eq, leb}

is_digit : ℕ → Bool
is_digit c = leb b'0' c && leb c b'9'

-- The text is `n` digits.
all_digits : ℕ → String → Bool
unfolding is_digit
all_digits zero [] = true
all_digits zero (c ∷ s) = false
all_digits (suc n) [] = false
all_digits (suc n) (c ∷ s) = is_digit (code c) && all_digits n s

-- `-(\d{8})$`: a hyphen and eight digits.
is_date_suffix : String → Bool
unfolding all_digits
is_date_suffix [] = false
is_date_suffix (c ∷ s) = nat_eq (code c) b'-' && all_digits 8 s

-- What is before the suffix, at least one character.
pub strip_anthropic_date_suffix : String → Option String
unfolding is_date_suffix
strip_anthropic_date_suffix [] = none
strip_anthropic_date_suffix (c ∷ s) =
    let rest = strip_anthropic_date_suffix s in
    if is_date_suffix s then some (c ∷ "") else Option.map (λ t. c ∷ t) rest
