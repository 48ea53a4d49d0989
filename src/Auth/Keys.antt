-- ===== src/Auth/Keys.antt =====
-- libs/sirius-auth/src/auth.guard.ts: which requests get past the guard.
use sirius_gateway.Base.{
  String, true, false, List, Option, some, none, ◌==◌, ◌&◌, is_blank, empty_of_is_blank, any,
  truthy, after_prefix, after_prefix_sound, after_prefix-append, ◌≡◌, ◌↔◌, sym, ap, subst,
  Bool-cases, inl, inr,
}
use sirius_gateway.Auth.{granted, valid_keys, check_token, bearer, can_activate}

check_token-granted :
    (token : Option String) (keys : List String) (t : String)
    → (check_token token keys ≡ granted t) ↔ ((token ≡ some t) × (any (λ k. k == t) keys ≡ true))
unfolding check_token
check_token-granted none keys t = (λ h. cc, λ h. cc)
check_token-granted (some u) keys t = elim (Bool-cases (any (λ k. k == u) keys)) [
  | inl valid ↦ (
    λ h.
        let e : u ≡ t = cc (rw valid at h) in
        (ap some e, subst (λ x. any (λ k. k == x) keys ≡ true) e valid),
    λ (e, v). let same : u ≡ t = cc e in rw valid (ap granted same),
  )
  | inr invalid ↦ (
    λ h. cc (rw invalid at h),
    λ (e, v).
        let same : u ≡ t = cc e in
        cc (invalid, subst (λ x. any (λ k. k == x) keys ≡ true) (sym same) v),
  )
]

bearer_iff :
    (authorization : Option String) (t : String)
    → (bearer (truthy authorization) ≡ some t) ↔ (authorization ≡ some ("Bearer " & t))
bearer_iff none t = (λ h. cc, λ h. cc)
bearer_iff (some header) t = elim (Bool-cases (is_blank header)) [
  | inl empty ↦ (
    λ h. cc (rw empty at h),
    λ e.
        let same : "Bearer " & t ≡ "" = cc (e, empty_of_is_blank header empty) in
        let none_left : after_prefix "Bearer " "" ≡ some t =
          subst (λ x. after_prefix "Bearer " x ≡ some t) same (after_prefix-append "Bearer " t) in
        cc none_left,
  )
  | inr given ↦ (
    λ h. ap some (after_prefix_sound "Bearer " header t (rw given at h)),
    λ e.
        let same : header ≡ "Bearer " & t = cc e in
        rw given (
          subst (λ x. after_prefix "Bearer " x ≡ some t) (sym same)
            (after_prefix-append "Bearer " t)),
  )
]

-- On a route that is not public a request gets past with key `t` exactly when its authorization header
-- is "Bearer " and `t`, and `t` is one of the configured keys.
pub can_activate-granted :
    (authorization setting : Option String) (t : String)
    → (can_activate false authorization setting ≡ granted t)
      ↔ ((authorization ≡ some ("Bearer " & t)) × (any (λ k. k == t) (valid_keys setting) ≡ true))
unfolding can_activate
can_activate-granted authorization setting t = (
  λ h.
      let (a, b) = (check_token-granted _ (valid_keys setting) t).0 h in
      ((bearer_iff authorization t).0 a, b),
  λ (a, b). (check_token-granted _ (valid_keys setting) t).1 ((bearer_iff authorization t).1 a, b),
)
