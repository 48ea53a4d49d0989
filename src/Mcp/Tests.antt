-- ===== src/Mcp/Tests.antt =====
-- apps/sirius-mcp/src/server.ts on a sample provider file, and the use of the result there.
use sirius_gateway.Base.{
  String, false, List, [], ◌∷◌, Option, some, none, if◌then◌else◌, ◌==◌, map, ◌&◌, ◌≡◌, refl,
}
use sirius_gateway.Core.ProviderRegistry
use sirius_gateway.FromFile.{
  SiriusProviderFileEntry, Built, built, Environment, absent, entry, providers, load_providers_file,
}
use sirius_gateway.FromFile.Loading.{written, load_providers_file-written}
use sirius_gateway.FromFile.Reconcile.{FromFileReloadService, reload}
use sirius_gateway.Mcp.Fetch.{HttpReply, unreachable}
use sirius_gateway.Mcp.Tools.{Deregistration, Audit, deregister_provider}
use sirius_gateway.Mcp.Tools.Deregister.{deregister_provider-reload}

abbrev entry_of : (name url : String) → SiriusProviderFileEntry
entry_of name url = record {
  name = name;
  kind = "openai-compatible";
  api_key_ref = none;
  base_url = some url;
  display_name = none;
}

abbrev local : SiriusProviderFileEntry
local = entry_of "local" "http://localhost:1234/v1"

abbrev groq : SiriusProviderFileEntry
groq = entry_of "groq" "https://api.groq.com/openai/v1"

abbrev entries : List SiriusProviderFileEntry
entries = local ∷ groq ∷ []

-- The text "both" is a file of two entries, any other text one of the second.
abbrev env : Environment
env = written "f" "both" (record {
  variable = λ name. none;
  file = λ path. absent;
  home = "/root";
  join_path = λ a b. a & "/" & b;
  parse_yaml = λ text. providers (map entry (if text == "both" then entries else groq ∷ []));
  read_error = λ path. "unreadable";
})

-- Providers are the names of their entries.
abbrev build_name : SiriusProviderFileEntry → Built String
build_name e = built e.name

abbrev service : FromFileReloadService build_name
service = record {
  path = "f";
  owned = "local" ∷ "groq" ∷ [];
  registry = ("local", "local") ∷ ("groq", "groq") ∷ [];
}

abbrev parse : String → Option String
parse text = some text

abbrev post : String → HttpReply
post text = unreachable "refused"

deregister_provider-reload_example :
    (answer : Deregistration String) × (text : String) × (audit : Audit) × (deregister_provider env
        parse
        (λ es. "one")
        post
        "local"
        (some false)
        (some "f")
      ≡ some ((answer, some text), audit))
    × ((other : String)
        → ProviderRegistry.get other
            (reload build_name (load_providers_file (written "f" text env)) service).1.registry
          ≡ (if "local" == other
              then none
              else ProviderRegistry.get other
                  (reload build_name (load_providers_file env) service).1.registry))
deregister_provider-reload_example =
    deregister_provider-reload build_name env parse (λ es. "one") post service entries
      (load_providers_file-written _ "f" "both" entries refl) "local" local refl refl refl
