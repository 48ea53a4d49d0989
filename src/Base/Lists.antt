-- ===== src/Base/Lists.antt =====
-- Lists under Boolean tests, measured by native numbers.
use Prim.Native.Nat.{ℕ, suc, ◌+◌, ◌≤◌}
use mathlib.Core.Path.{◌≡◌, refl}
use mathlib.Core.Logic.{inl, inr}
use mathlib.Core.Bool.{Bool, true, false, not, ◌&&◌, ◌||◌}
use mathlib.Core.Option.{Option, none, some}
use mathlib.Core.List.{List, [], ◌∷◌, ◌++◌, map}
use mathlib.Core.List.{Perm, perm_middle}
use mathlib.Core.List.Perm
use native.Mathlib.Omega.{arith}
use sirius_gateway.Base.Tests.{if◌then◌else◌, Bool-cases, is_some}

module _ {ℓ} {A : Type ℓ} where
  abbrev pub length : List A → ℕ
  length [] = 0
  length (x ∷ xs) = suc (length xs)

  pub length-append : (xs ys : List A) → length (xs ++ ys) ≡ length xs + length ys
  length-append [] ys = omega arith
  length-append (x ∷ xs) ys = omega (arith, length-append xs ys)

  abbrev pub is_empty : List A → Bool
  is_empty [] = true
  is_empty (x ∷ xs) = false

  pub is_empty-concat : (xs : List A) (x : A) → is_empty (xs ++ x ∷ []) ≡ false
  is_empty-concat [] x = refl
  is_empty-concat (y ∷ xs) x = refl

  abbrev pub head? : List A → Option A
  head? [] = none
  head? (x ∷ xs) = some x

  -- `xs.slice(1)`
  abbrev pub tail : List A → List A
  tail [] = []
  tail (x ∷ xs) = xs

  -- `xs.filter(p)`
  abbrev pub filter : (A → Bool) → List A → List A
  filter p [] = []
  filter p (x ∷ xs) = if p x then x ∷ filter p xs else filter p xs

  -- `xs.find(p)`
  abbrev pub find : (A → Bool) → List A → Option A
  find p [] = none
  find p (x ∷ xs) = if p x then some x else find p xs

  -- `xs.every(p)`
  abbrev pub all : (A → Bool) → List A → Bool
  all p [] = true
  all p (x ∷ xs) = p x && all p xs

  abbrev pub any : (A → Bool) → List A → Bool
  any p [] = false
  any p (x ∷ xs) = p x || any p xs

  pub length-filter-le : (p : A → Bool) (xs : List A) → length (filter p xs) ≤ length xs
  length-filter-le p [] = omega arith
  length-filter-le p (x ∷ xs) = ground (arith, length-filter-le p xs)

module _ {ℓ κ} {A : Type ℓ} (P : A → Type κ) where
  abbrev pub All : List A → Type κ
  All [] = Unit
  All (x ∷ xs) = P x × All xs

  pub All-append : (xs ys : List A) → All xs → All ys → All (xs ++ ys)
  All-append [] ys h k = k
  All-append (x ∷ xs) ys (p, h) k = (p, All-append xs ys h k)

  pub All-tail : (xs : List A) → All xs → All (tail xs)
  All-tail [] h = h
  All-tail (x ∷ xs) h = h.1

  pub All-filter : (q : A → Bool) (xs : List A) → All xs → All (filter q xs)
  All-filter q [] h = h
  All-filter q (x ∷ xs) (p, h) =
      elim (q x) as (λ b. All (if b then x ∷ filter q xs else filter q xs)) [
        | true ↦ (p, All-filter q xs h)
        | false ↦ All-filter q xs h
      ]

  -- What holds of every element holds of the first.
  pub All-head? : (xs : List A) (a : A) → All xs → head? xs ≡ some a → P a
  All-head? [] a h e = cc
  All-head? (x ∷ xs) a (p, h) e = ground (arith, p)

module _ {ℓ} {A : Type ℓ} where
  -- Every kept element passes the test.
  pub filter-All : (q : A → Bool) (xs : List A) → All (λ x. q x ≡ true) (filter q xs)
  filter-All q [] = tt
  filter-All q (x ∷ xs) = ground (arith, filter-All q xs)

module _ {ℓ κ μ} {A : Type ℓ} {P : A → Type κ} {Q : A → Type μ} where
  pub All-mono : ((a : A) → P a → Q a) → (xs : List A) → All P xs → All Q xs
  All-mono f [] h = tt
  All-mono f (x ∷ xs) (p, h) = (f x p, All-mono f xs h)

module _ {ℓ κ μ} {A : Type ℓ} (P : A → Type κ) (Q : A → Type μ) where
  pub All-both : (xs : List A) → All P xs → All Q xs → All (λ a. P a × Q a) xs
  All-both [] h k = tt
  All-both (x ∷ xs) (p, h) (q, k) = ((p, q), All-both xs h k)

module _ {ℓ κ μ} {A : Type ℓ} {B : Type μ} (P : B → Type κ) (f : A → B) where
  pub All-map : (xs : List A) → All (λ a. P (f a)) xs → All P (map f xs)
  All-map [] h = tt
  All-map (x ∷ xs) (p, h) = (p, All-map xs h)

module _ {ℓ κ} {A : Type ℓ} (P : A → Type κ) where
  -- What `find` returns passes the test, and has what every element has.
  pub All-find :
      (q : A → Bool) (xs : List A) (a : A) → All P xs → find q xs ≡ some a → P a × (q a ≡ true)
  All-find q [] a h e = cc
  All-find q (x ∷ xs) a (p, h) e = elim (Bool-cases (q x)) [
    | inl hit ↦ let same : x ≡ a = ground arith in rw (← same) (p, hit)
    | inr miss ↦ All-find q xs a h (ground arith)
  ]

module _ {ℓ} {A : Type ℓ} where
  pub find-passes : (q : A → Bool) (xs : List A) (a : A) → find q xs ≡ some a → q a ≡ true
  find-passes q [] a e = cc
  find-passes q (x ∷ xs) a e = elim (Bool-cases (q x)) [
    | inl hit ↦ let same : x ≡ a = ground arith in rw (← same) hit
    | inr miss ↦ find-passes q xs a (ground arith)
  ]

  -- A list of no element or one.
  abbrev pub to_list : Option A → List A
  to_list none = []
  to_list (some a) = a ∷ []

  pub head?-tail : (xs : List A) → to_list (head? xs) ++ tail xs ≡ xs
  head?-tail [] = refl
  head?-tail (x ∷ xs) = refl

  pub is_some-head? : (xs : List A) → is_some (head? xs) ≡ not (is_empty xs)
  is_some-head? [] = refl
  is_some-head? (x ∷ xs) = refl

  -- The elements that pass a test and those that fail it are all the elements.
  pub filter-perm :
      (p : A → Bool) (xs : List A) → Perm (filter p xs ++ filter (λ x. not (p x)) xs) xs
  filter-perm p [] = Perm.refl _
  filter-perm p (x ∷ xs) = elim (Bool-cases (p x)) [
    | inl yes_it ↦ rw yes_it (Perm.cons x (filter-perm p xs))
    | inr no_it ↦ rw no_it (
        Perm.trans (perm_middle (filter p xs) (filter (λ y. not (p y)) xs))
          (Perm.cons x (filter-perm p xs)))
  ]

  pub is_empty-perm : (xs ys : List A) → Perm xs ys → is_empty xs ≡ is_empty ys
  is_empty-perm [] [] h = refl
  is_empty-perm [] (y ∷ ys) h = cc (Perm.nil-eq h)
  is_empty-perm (x ∷ xs) [] h = cc (Perm.eq-nil h)
  is_empty-perm (x ∷ xs) (y ∷ ys) h = refl

  pub find-not-empty :
      (q : A → Bool) (xs : List A) (a : A) → find q xs ≡ some a → is_empty xs ≡ false
  find-not-empty q [] a e = cc
  find-not-empty q (x ∷ xs) a e = refl

  pub is_empty-filter :
      (q : A → Bool) (xs : List A) → is_empty (filter q xs) ≡ false → is_empty xs ≡ false
  is_empty-filter q [] e = e
  is_empty-filter q (x ∷ xs) e = refl

-- A step that may fail, and what follows it.
abbrev pub and_then {ℓ κ} : {A : Type ℓ} {B : Type κ} → Option A → (A → Option B) → Option B
and_then none f = none
and_then (some a) f = f a

-- The list, unless it is empty.
abbrev pub if_any {ℓ} : {A : Type ℓ} → List A → Option (List A)
if_any [] = none
if_any (x ∷ xs) = some (x ∷ xs)
