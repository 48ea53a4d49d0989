-- ===== src/Mcp/Fetch/Tests.antt =====
-- apps/sirius-mcp/src/server.ts: a base URL.
use sirius_gateway.Base.{some, split_on, ◌≡◌, refl}
use sirius_gateway.Mcp.Fetch.{sirius_base_url, without_slash, parts_but_last}

base_url_test : sirius_base_url (some "http://gateway:3000/") ≡ "http://gateway:3000"
unfolding sirius_base_url without_slash parts_but_last split_on
base_url_test = refl
