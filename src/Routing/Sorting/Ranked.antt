-- ===== src/Routing/Sorting/Ranked.antt =====
-- Ranked lists, for the sorts of libs/sirius-routing/src/strategies.
use mathlib.Core.List.{Perm}
use mathlib.Core.List.Perm
use sirius_gateway.Base.{
  Bool, true, false, List, [], ◌∷◌, if◌then◌else◌, ◌≡◌, refl, All, All-mono, arith, Bool-cases, inl,
  inr, filter, not, ◌&&◌, ◌∙◌, ap,
}
use sirius_gateway.Core.Numbers.{Numbers}
use sirius_gateway.Routing.Sorting.{insert_by, sort_by}

module _ {ℓ} (F : Numbers) {A : Type ℓ} (key : A → F.Num) where
  open F use {Num, lt, lt_irrefl, lt_trans, lt_weak}

  -- `y` does not come strictly before `x`.
  abbrev pub NotBefore : A → A → Type 0
  NotBefore x y = lt (key y) (key x) ≡ false

  -- No element is followed by one with a smaller key.
  abbrev pub IsRanked : List A → Type 0
  IsRanked [] = Unit {0}
  IsRanked (x ∷ xs) = All (NotBefore x) xs × IsRanked xs

  insert_by-perm : (x : A) (xs : List A) → Perm (insert_by F key x xs) (x ∷ xs)
  unfolding insert_by
  insert_by-perm x [] = Perm.refl _
  insert_by-perm x (y ∷ ys) = elim (Bool-cases (lt (key y) (key x))) [
    | inl later ↦ rw later (Perm.trans (Perm.cons y (insert_by-perm x ys)) (Perm.swap x y ys))
    | inr here ↦ rw here (Perm.refl _)
  ]

  pub sort_by-perm : (xs : List A) → Perm (sort_by F key xs) xs
  unfolding sort_by
  sort_by-perm [] = Perm.refl _
  sort_by-perm (x ∷ xs) =
      Perm.trans (insert_by-perm x (sort_by F key xs)) (Perm.cons x (sort_by-perm xs))

  All-insert_by {κ} :
      (P : A → Type κ) (x : A) (xs : List A) → P x → All P xs → All P (insert_by F key x xs)
  unfolding insert_by
  All-insert_by P x [] p h = (p, tt)
  All-insert_by P x (y ∷ ys) p (q, h) = elim (Bool-cases (lt (key y) (key x))) [
    | inl later ↦ rw later (q, All-insert_by P x ys p h)
    | inr here ↦ rw here (p, (q, h))
  ]

  -- What holds of every element holds of every element of the sorted list.
  pub All-sort_by {κ} : (P : A → Type κ) (xs : List A) → All P xs → All P (sort_by F key xs)
  unfolding sort_by
  All-sort_by P [] h = tt
  All-sort_by P (x ∷ xs) (p, h) = All-insert_by P x (sort_by F key xs) p (All-sort_by P xs h)

  NotBefore-trans : (x y z : A) → NotBefore x y → NotBefore y z → NotBefore x z
  NotBefore-trans x y z h k = elim (Bool-cases (lt (key z) (key x))) [
    | inr fine ↦ fine
    | inl bad ↦ elim (lt_weak (key z) (key y) (key x) bad) [ inl a ↦ cc | inr b ↦ cc ]
  ]

  insert_by-IsRanked : (x : A) (xs : List A) → IsRanked xs → IsRanked (insert_by F key x xs)
  unfolding insert_by
  insert_by-IsRanked x [] r = (tt, tt)
  insert_by-IsRanked x (y ∷ ys) (first, r) = elim (Bool-cases (lt (key y) (key x))) [
    | inl later ↦
        rw later
          (All-insert_by (NotBefore y) x ys (not_after later) first, insert_by-IsRanked x ys r)
    | inr here ↦ rw here ((here, All-mono (λ z. NotBefore-trans x y z here) ys first), (first, r))
  ]
    where
      not_after : lt (key y) (key x) ≡ true → lt (key x) (key y) ≡ false
      not_after later = elim (Bool-cases (lt (key x) (key y))) [
        | inr fine ↦ fine
        | inl bad ↦ cc (lt_trans (key x) (key y) (key x) bad later, lt_irrefl (key x))
      ]

  pub sort_by-IsRanked : (xs : List A) → IsRanked (sort_by F key xs)
  unfolding sort_by
  sort_by-IsRanked [] = tt
  sort_by-IsRanked (x ∷ xs) = insert_by-IsRanked x (sort_by F key xs) (sort_by-IsRanked xs)

  -- Neither key is smaller.
  abbrev pub same_rank : Num → A → Bool
  same_rank k x = not (lt (key x) k) && not (lt k (key x))

  insert_by-same_rank :
      (k : Num) (x : A) (xs : List A)
      → filter (same_rank k) (insert_by F key x xs) ≡ filter (same_rank k) (x ∷ xs)
  unfolding insert_by
  insert_by-same_rank k x [] = refl
  insert_by-same_rank k x (y ∷ ys) = elim (Bool-cases (lt (key y) (key x))) [
    | inl later ↦
        rw later (ground (arith, lt_weak (key y) k (key x) later, insert_by-same_rank k x ys))
    | inr here ↦ rw here refl
  ]

  -- Elements of equal rank keep their order.
  pub sort_by_stable :
      (k : Num) (xs : List A) → filter (same_rank k) (sort_by F key xs) ≡ filter (same_rank k) xs
  unfolding sort_by
  sort_by_stable k [] = refl
  sort_by_stable k (x ∷ xs) =
      insert_by-same_rank k x (sort_by F key xs)
      ∙ ap (λ t. if same_rank k x then x ∷ t else t) (sort_by_stable k xs)
