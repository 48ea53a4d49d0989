-- ===== src/Core/Numbers.antt =====
-- JavaScript numbers other than NaN, as far as the gateway computes with them (latencies, prices,
-- scores): the operations are parameters, with the laws of the order that sorting relies on.
use sirius_gateway.Base.{
  ℕ, Bool, true, false, ◌≡◌, ◌⊎◌, Option, some, none, ltb, arith, ◌+◌, ◌*◌, ◌/◌,
}

pub record Numbers : Type 1 where
  pub Num : Type 0
  pub lt : Num → Num → Bool
  pub infinity : Num
  pub add : Num → Num → Num
  pub mul : Num → Num → Num
  pub div : Num → Num → Num
  -- `decimal m k` is the literal `m / 10^k`.
  pub decimal : ℕ → ℕ → Num
  pub lt_irrefl : (a : Num) → lt a a ≡ false
  pub lt_trans : (a b c : Num) → lt a b ≡ true → lt b c ≡ true → lt a c ≡ true
  pub lt_weak : (a b c : Num) → lt a c ≡ true → (lt a b ≡ true) ⊎ (lt b c ≡ true)

-- The laws can be met: whole numbers with a largest element `none`.
abbrev pub Whole : Type 0
Whole = Option ℕ

abbrev pub whole_lt : Whole → Whole → Bool
whole_lt (some a) (some b) = ltb a b
whole_lt (some a) none = true
whole_lt none b = false

abbrev pub whole_op : (ℕ → ℕ → ℕ) → Whole → Whole → Whole
whole_op f (some a) (some b) = some (f a b)
whole_op f a b = none

pub whole_irrefl : (a : Whole) → whole_lt a a ≡ false
whole_irrefl a = ground arith

pub whole_trans : (a b c : Whole) → whole_lt a b ≡ true → whole_lt b c ≡ true → whole_lt a c ≡ true
whole_trans a b c = ground arith

pub whole_weak :
    (a b c : Whole) → whole_lt a c ≡ true → (whole_lt a b ≡ true) ⊎ (whole_lt b c ≡ true)
whole_weak a b c = ground arith

abbrev pub whole_numbers : Numbers
whole_numbers = record {
  Num = Whole;
  lt = whole_lt;
  infinity = none;
  add = whole_op ◌+◌;
  mul = whole_op ◌*◌;
  div = whole_op ◌/◌;
  decimal = λ m k. some m;
  lt_irrefl = whole_irrefl;
  lt_trans = whole_trans;
  lt_weak = whole_weak;
}
