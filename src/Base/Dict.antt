-- ===== src/Base/Dict.antt =====
-- A JavaScript `Map` with text keys: pairs in the order in which their keys were first set.
use Prim.Native.String.{String}
use mathlib.Core.Path.{◌≡◌, refl, sym, subst, ◌∙◌}
use mathlib.Core.Logic.{inl, inr}
use mathlib.Core.Option.{Option, none, some}
use mathlib.Core.List.{List, [], ◌∷◌, map}
use native.Mathlib.Omega.{arith}
use text.Mathlib.Text.{◌==◌}
use text.Mathlib.TextEquality.{eq_iff}
use text.Mathlib.TextPositions.{eq_refl}
use sirius_gateway.Base.Tests.{if◌then◌else◌, Bool-cases}
use sirius_gateway.Base.Lists.{All, All-mono}

abbrev pub Dict {ℓ} : Type ℓ → Type ℓ
Dict V = List (String × V)

module _ {ℓ} {V : Type ℓ} where
  unfoldable pub get : String → Dict V → Option V
  get k [] = none
  get k ((j, v) ∷ m) = if j == k then some v else get k m

  -- A key that is there keeps its place, a new one goes to the end.
  unfoldable pub set : String → V → Dict V → Dict V
  set k v [] = (k, v) ∷ []
  set k v ((j, w) ∷ m) = if j == k then (j, v) ∷ m else (j, w) ∷ set k v m

  unfoldable pub delete : String → Dict V → Dict V
  delete k [] = []
  delete k ((j, w) ∷ m) = if j == k then delete k m else (j, w) ∷ delete k m

  abbrev pub values : Dict V → List V
  values m = map (λ b. b.1) m

  abbrev pub keys : Dict V → List String
  keys m = map (λ b. b.0) m

  pub get-set :
      (k j : String) (v : V) (m : Dict V) → get j (set k v m) ≡ (if k == j then some v else get j m)
  unfolding get set
  get-set k j v [] = refl
  get-set k j v ((i, w) ∷ m) = ground (arith, eq_iff k j, eq_iff i k, eq_iff i j, get-set k j v m)

  pub get-delete :
      (k j : String) (m : Dict V) → get j (delete k m) ≡ (if k == j then none else get j m)
  unfolding get delete
  get-delete k j [] = ground arith
  get-delete k j ((i, w) ∷ m) = ground (arith, eq_iff k j, eq_iff i k, eq_iff i j, get-delete k j m)

-- What holds of every pair of a map holds after a `set` of a pair that has it.
module _ {ℓ κ} {V : Type ℓ} (P : String × V → Type κ) where
  pub All-set : (k : String) (v : V) (m : Dict V) → P (k, v) → All P m → All P (set k v m)
  unfolding set
  All-set k v [] p h = (p, tt)
  All-set k v ((j, w) ∷ m) p (q, h) = elim (Bool-cases (j == k)) [
    | inl same ↦ rw same (subst (λ i. P (i, v)) (sym ((eq_iff j k).0 same)) p, h)
    | inr other ↦ rw other (q, All-set k v m p h)
  ]

  pub All-get : (k : String) (v : V) (m : Dict V) → All P m → get k m ≡ some v → P (k, v)
  unfolding get
  All-get k v [] h e = cc
  All-get k v ((j, w) ∷ m) (q, h) e = elim (Bool-cases (j == k)) [
    | inl same ↦ let hit : w ≡ v = ground arith in subst (λ b. P b) (cc ((eq_iff j k).0 same)) q
    | inr other ↦ All-get k v m h (ground arith)
  ]

-- No key stands twice.
module _ {ℓ} {V : Type ℓ} where
  abbrev pub Distinct : Dict V → Type ℓ
  Distinct [] = Unit
  Distinct ((k, v) ∷ m) = (get k m ≡ none) × Distinct m

  pub set-Distinct : (k : String) (v : V) (m : Dict V) → Distinct m → Distinct (set k v m)
  unfolding set get
  set-Distinct k v [] h = (refl, tt)
  set-Distinct k v ((j, w) ∷ m) (fresh, h) = elim (Bool-cases (j == k)) [
    | inl same ↦ rw same (fresh, h)
    | inr other ↦
        rw other (get-set k j v m ∙ ground (arith, eq_iff k j, eq_iff j k), set-Distinct k v m h)
  ]

  get-cons_fresh :
      (j k : String) (w v : V) (m : Dict V)
      → get j m ≡ none
      → get k m ≡ some v
      → get k ((j, w) ∷ m) ≡ some v
  unfolding get
  get-cons_fresh j k w v m fresh e = ground (arith, eq_iff j k)

  -- With distinct keys every pair is what a lookup of its key finds.
  pub Distinct-get : (m : Dict V) → Distinct m → All (λ b. get b.0 m ≡ some b.1) m
  unfolding get
  Distinct-get [] h = tt
  Distinct-get ((j, w) ∷ m) (fresh, h) =
      (rw (eq_refl j), All-mono (λ b e. get-cons_fresh j b.0 w b.1 m fresh e) m (Distinct-get m h))
