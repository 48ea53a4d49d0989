-- ===== src/Observability/LatencyTracker/Window.antt =====
-- libs/sirius-observability/src/latency-tracker.service.ts: the window of latencies over a history.
use Prim.Native.Nat.{ℕ, zero, suc, ◌-◌, ◌≤◌, ◌<◌}
use native.Mathlib.Decide.{dec_lt}
use mathlib.Core.List.{append-nil, append_assoc}
use sirius_gateway.Base.{
  String, List, [], ◌∷◌, ◌++◌, if◌then◌else◌, length, tail, arith, ◌≡◌, refl, length-append, ap,
  Bool-cases, inl, inr, sym, ◌∙◌, ◌==◌, eq_iff,
}
use sirius_gateway.Base.Dict
use sirius_gateway.Base.Dict.{Dict}
use sirius_gateway.Observability.LatencyTracker.{push, record_latency, window_size, history_of}

module _ {ℓ} {A : Type ℓ} where
  abbrev pub drop : ℕ → List A → List A
  drop zero xs = xs
  drop (suc n) [] = []
  drop (suc n) (x ∷ xs) = drop n xs

  -- The last `n` elements.
  abbrev pub keep_last : ℕ → List A → List A
  keep_last n xs = drop (length xs - n) xs

  length-drop : (n : ℕ) (xs : List A) → length (drop n xs) ≡ length xs - n
  length-drop zero xs = omega arith
  length-drop (suc n) [] = omega arith
  length-drop (suc n) (x ∷ xs) = omega (arith, length-drop n xs)

  drop-append : (n : ℕ) (xs ys : List A) → n ≤ length xs → drop n (xs ++ ys) ≡ drop n xs ++ ys
  drop-append zero xs ys h = refl
  drop-append (suc n) [] ys h = absurd (omega arith)
  drop-append (suc n) (x ∷ xs) ys h = drop-append n xs ys (omega arith)

  tail-drop : (n : ℕ) (xs : List A) → tail (drop n xs) ≡ drop (suc n) xs
  tail-drop zero [] = refl
  tail-drop zero (x ∷ xs) = refl
  tail-drop (suc n) [] = refl
  tail-drop (suc n) (x ∷ xs) = tail-drop n xs

  push_short : (xs : List A) (x : A) → length xs < window_size → push xs x ≡ xs ++ x ∷ []
  unfolding push
  push_short xs x h = ground (arith, length-append xs (x ∷ []))

  push_full : (xs : List A) (x : A) → window_size ≤ length xs → push xs x ≡ tail (xs ++ x ∷ [])
  unfolding push
  push_full xs x h = ground (arith, length-append xs (x ∷ []))

  keep_last_all : (n : ℕ) (xs : List A) → length xs ≤ n → keep_last n xs ≡ xs
  keep_last_all n xs h = let e : length xs - n ≡ 0 = omega arith in rw e

  -- One more latency keeps the window at the last ten.
  pub push-keep_last :
      (xs : List A) (x : A)
      → push (keep_last window_size xs) x ≡ keep_last window_size (xs ++ x ∷ [])
  push-keep_last xs x = elim (dec_lt (length xs) window_size) [
    | yes short ↦
        ap (λ h. push h x) (keep_last_all window_size xs (omega arith))
        ∙ push_short xs x short
        ∙ sym (keep_last_all window_size (xs ++ x ∷ []) (omega (arith, length-append xs (x ∷ []))))
    | no full ↦
        push_full (drop (length xs - window_size) xs) x
          (omega (arith, length-drop (length xs - window_size) xs))
        ∙ ap tail (sym (drop-append (length xs - window_size) xs (x ∷ []) (omega arith)))
        ∙ tail-drop (length xs - window_size) (xs ++ x ∷ [])
        ∙ ap (λ n. drop n (xs ++ x ∷ [])) {x = suc (length xs - window_size)}
            (omega (arith, length-append xs (x ∷ [])))
  ]

  -- Calls of `record` in their order, for any providers.
  abbrev pub record_all : List (String × A) → Dict (List A) → Dict (List A)
  record_all [] latencies = latencies
  record_all ((provider, latency) ∷ calls) latencies =
      record_all calls (record_latency provider latency latencies)

  -- The latencies that the calls report for one provider.
  abbrev pub reported : String → List (String × A) → List A
  reported provider [] = []
  reported provider ((p, latency) ∷ calls) =
      if p == provider then latency ∷ reported provider calls else reported provider calls

  history_of-record :
      (p provider : String) (x : A) (latencies : Dict (List A))
      → history_of (Dict.get p (record_latency provider x latencies)) ≡ (
          if provider == p
          then push (history_of (Dict.get p latencies)) x
          else history_of (Dict.get p latencies))
  unfolding record_latency
  history_of-record p provider x latencies = ground (
    arith,
    eq_iff provider p,
    Dict.get-set provider p (push (history_of (Dict.get provider latencies)) x) latencies,
  )

  window_from :
      (p : String) (calls : List (String × A)) (latencies : Dict (List A)) (ys : List A)
      → history_of (Dict.get p latencies) ≡ keep_last window_size ys
      → history_of (Dict.get p (record_all calls latencies))
        ≡ keep_last window_size (ys ++ reported p calls)
  window_from p [] latencies ys h = rw append-nil h
  window_from p ((provider, x) ∷ calls) latencies ys h = elim (Bool-cases (provider == p)) [
    | inl same ↦ rw same (
        window_from p calls _ (ys ++ x ∷ []) (
          history_of-record p provider x latencies
          ∙ rw same (ap (λ t. push t x) h ∙ push-keep_last ys x))
        ∙ ap (keep_last window_size) (append_assoc ys (x ∷ []) (reported p calls)))
    | inr other ↦
        rw other (window_from p calls _ ys (history_of-record p provider x latencies ∙ rw other h))
  ]

-- Whatever calls of `record` were made from the start, for whatever providers in whatever order, a
-- provider's window is the last ten of the latencies that were reported for it.
pub window-record_all {ℓ} :
    {A : Type ℓ} (p : String) (calls : List (String × A))
    → history_of (Dict.get p (record_all calls [])) ≡ keep_last window_size (reported p calls)
unfolding Dict.get
window-record_all p calls = window_from p calls [] [] refl
