-- ===== src/Auth/Tests.antt =====
-- libs/sirius-auth/src/auth.guard.ts on a sample header, and the use of its result there.
use sirius_gateway.Base.{true, false, some, ◌==◌, ◌&◌, any, ◌≡◌, ◌↔◌}
use sirius_gateway.Auth.{granted, valid_keys, can_activate}
use sirius_gateway.Auth.Keys.{can_activate-granted}

can_activate-granted_example :
    (can_activate false (some "Bearer k2") (some "k1, k2") ≡ granted "k2") ↔ (
      (some "Bearer k2" ≡ some ("Bearer " & "k2"))
      × (any (λ k. k == "k2") (valid_keys (some "k1, k2")) ≡ true))
can_activate-granted_example = can_activate-granted (some "Bearer k2") (some "k1, k2") "k2"
