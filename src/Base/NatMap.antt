-- ===== src/Base/NatMap.antt =====
-- A JavaScript `Map` with numbers as keys: pairs in the order in which their keys were first set.
use Prim.Native.Nat.{ℕ}
use mathlib.Core.Path.{◌≡◌, refl}
use mathlib.Core.Option.{Option, none, some}
use mathlib.Core.List.{List, [], ◌∷◌, ◌++◌}
use native.Mathlib.Omega.{arith}
use sirius_gateway.Base.Tests.{if◌then◌else◌, nat_eq}

abbrev pub NatMap {ℓ} : Type ℓ → Type ℓ
NatMap V = List (ℕ × V)

module _ {ℓ} {V : Type ℓ} where
  unfoldable pub get : ℕ → NatMap V → Option V
  get k [] = none
  get k ((j, v) ∷ m) = if nat_eq j k then some v else get k m

  unfoldable pub set : ℕ → V → NatMap V → NatMap V
  set k v [] = (k, v) ∷ []
  set k v ((j, w) ∷ m) = if nat_eq j k then (j, v) ∷ m else (j, w) ∷ set k v m

  pub get-set :
      (k j : ℕ) (v : V) (m : NatMap V)
      → get j (set k v m) ≡ (if nat_eq k j then some v else get j m)
  unfolding get set
  get-set k j v [] = refl
  get-set k j v ((i, w) ∷ m) = ground (arith, get-set k j v m)

  -- A new key goes to the end.
  pub set-new : (k : ℕ) (v : V) (m : NatMap V) → get k m ≡ none → set k v m ≡ m ++ (k, v) ∷ []
  unfolding get set
  set-new k v [] h = refl
  set-new k v ((i, w) ∷ m) h = ground (arith, set-new k v m)
