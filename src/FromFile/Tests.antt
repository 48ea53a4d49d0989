-- ===== src/FromFile/Tests.antt =====
-- libs/provider-fromfile/src on sample files, and the uses of the results there.
use sirius_gateway.Base.{String, List, false, All, [], ◌∷◌, Option, some, none, ◌≡◌, refl}
use sirius_gateway.Base.Dict.{Dict}
use sirius_gateway.Core.ProviderRegistry
use sirius_gateway.FromFile.{SiriusProviderFileEntry, Built, failed, built}
use sirius_gateway.FromFile.Reconcile.{includes, Reconciled, reconcile_from_file_providers}
use sirius_gateway.FromFile.Reconcile.Lookup.{get-reconcile}
use sirius_gateway.FromFile.Reconcile.Reload.{
  after, then_after, after_all, IsUnbuilt, reconcile-escapes,
}
use sirius_gateway.FromFile.Reconcile.Settled.{reconcile-settled}

abbrev entry_of : String → Option String → SiriusProviderFileEntry
entry_of name base_url = record {
  name = name;
  kind = "openai-compatible";
  api_key_ref = none;
  base_url = base_url;
  display_name = none;
}

abbrev local : SiriusProviderFileEntry
local = entry_of "local" (some "http://localhost:1234/v1")

-- An entry without its base URL.
abbrev without_url : SiriusProviderFileEntry
without_url = entry_of "local" none

abbrev groq : SiriusProviderFileEntry
groq = entry_of "groq" (some "https://api.groq.com/openai/v1")

-- Providers are their base URLs.
abbrev by_url : Option String → Built String
by_url none = failed "no baseUrl"
by_url (some url) = built url

abbrev build_by_url : SiriusProviderFileEntry → Built String
build_by_url e = by_url e.base_url

abbrev registry : Dict String
registry = ("local", "http://localhost:1234/v1") ∷ ("openai", "https://api.openai.com/v1") ∷ []

get-reconcile_example :
    ProviderRegistry.get "local"
      (reconcile_from_file_providers build_by_url "f" (groq ∷ []) registry ("local" ∷ [])).registry
    ≡ none
get-reconcile_example = get-reconcile build_by_url "local" "f" (groq ∷ []) registry ("local" ∷ [])

without_url-IsUnbuilt : IsUnbuilt build_by_url "local" (without_url ∷ groq ∷ [])
without_url-IsUnbuilt = (λ e. ("no baseUrl", refl), (λ e. cc, tt))

later-IsUnbuilt : All (IsUnbuilt build_by_url "local") ((groq ∷ []) ∷ (without_url ∷ []) ∷ [] ∷ [])
later-IsUnbuilt = ((λ e. cc, tt), ((λ e. ("no baseUrl", refl), tt), (tt, tt)))

abbrev broken : Reconciled build_by_url
broken = after build_by_url "f" (without_url ∷ groq ∷ []) registry ("local" ∷ [])

-- The entry disappears, comes back as it was, and the file is emptied.
abbrev later : List (List SiriusProviderFileEntry)
later = (groq ∷ []) ∷ (without_url ∷ []) ∷ [] ∷ []

abbrev at_the_end : Dict String × List String
at_the_end = after_all build_by_url "f" later broken.registry broken.owned_after

reconcile-escapes_example :
    (ProviderRegistry.get "local" broken.registry ≡ ProviderRegistry.get "local" registry)
    × (includes "local" broken.owned_after ≡ false)
    × (ProviderRegistry.get "local" at_the_end.0 ≡ ProviderRegistry.get "local" registry)
    × (includes "local" at_the_end.1 ≡ false)
reconcile-escapes_example =
    reconcile-escapes build_by_url "local" "f" (without_url ∷ groq ∷ []) later registry
      ("local" ∷ []) refl without_url-IsUnbuilt later-IsUnbuilt

abbrev once : Reconciled build_by_url
once = after build_by_url "f" (local ∷ groq ∷ []) registry []

abbrev twice : Reconciled build_by_url
twice = then_after build_by_url "f" (local ∷ groq ∷ []) (local ∷ groq ∷ []) registry []

reconcile-settled_example :
    (twice.result.added ≡ [])
    × (twice.result.removed ≡ [])
    × (twice.owned_after ≡ once.owned_after)
    × (ProviderRegistry.get "groq" twice.registry ≡ ProviderRegistry.get "groq" once.registry)
reconcile-settled_example =
    reconcile-settled build_by_url "f" (local ∷ groq ∷ []) registry [] "groq"
