-- ===== src/Mcp/Tools.antt =====
-- apps/sirius-mcp/src/server.ts: the tools of the MCP server. The YAML printer is an argument. A tool
-- gives its answer and its audit entry.
pub mod Deregister
use mathlib.Core.Option
use mathlib.Core.Option.{get_or}
use sirius_gateway.Base.{
  ℕ, String, Bool, true, false, List, [], ◌∷◌, Option, some, none, if◌then◌else◌, ◌==◌, ◌&◌, not,
  map, filter, find, length, is_some, is_blank, split_on, join,
}
use sirius_gateway.Base.Dict
use sirius_gateway.Base.Dict.{Dict}
use sirius_gateway.FromFile.{
  SiriusProviderFileEntry, Environment, load_providers_file, resolve_file_path,
}
use sirius_gateway.Mcp.Fetch.{HttpReply, FetchResult, fetch_json, sirius_base_url}

-- The fields of an entry that are shown: the reference to the key, not the key.
pub record ProviderView : Type 0 where
  pub name : String
  pub kind : String
  pub base_url : Option String
  pub display_name : Option String
  pub api_key_ref : Option String

pub provider_view : SiriusProviderFileEntry → ProviderView
provider_view p = record {
  name = p.name;
  kind = p.kind;
  base_url = p.base_url;
  display_name = p.display_name;
  api_key_ref = p.api_key_ref;
}

-- The name and the kind of an entry.
abbrev pub name_and_kind : SiriusProviderFileEntry → String × String
name_and_kind p = (p.name, p.kind)

pub data Audit : Type 0 where
  providers_list : (path : Option String) → Audit
  models_list : (status : ℕ) → Audit
  deregister :
      (name : String) (dry_run : Bool) (path : String) (was_present : Bool) (remaining_count : ℕ)
      → Audit
  health_all : (gateway providers : ℕ) → Audit
  chat : (model : String) (message_count status : ℕ) (ok : Bool) → Audit
  embed : (model : String) (status : ℕ) (ok : Bool) → Audit

pub data Deregistration (J : Type 0) : Type 0 where
  provider_not_found : (path message : String) → Deregistration J
  wet :
      (path : String) (removed : String × String) (remaining_count : ℕ)
      (remaining : List (String × String)) (reload : FetchResult J)
      → Deregistration J
  dry_run :
      (path : String) (target : Option ProviderView) (remaining_count : ℕ)
      (remaining : List (String × String))
      → Deregistration J

pub record ProvidersList : Type 0 where
  pub path : String
  pub count : ℕ
  pub providers : List ProviderView

abbrev pub remaining_of : String → List SiriusProviderFileEntry → List SiriusProviderFileEntry
remaining_of name providers =
    filter (λ (p : SiriusProviderFileEntry). not (p.name == name)) providers

module _ (env : Environment) where
  path_of : Option String → String
  path_of path = get_or path (resolve_file_path env)

  -- `sirius.providers.list`: nothing when loading the file throws.
  pub list_providers : (path : Option String) → Option (ProvidersList × Audit)
  unfolding path_of
  list_providers path = elim (load_providers_file env (path_of path)) [
    | none ↦ none
    | some providers ↦ some (
      record {
        path = path_of path;
        count = length providers;
        providers = map provider_view providers;
      },
      providers_list path,
    )
  ]

  module _ {J : Type 0} (parse : String → Option J)
      (stringify_yaml : List SiriusProviderFileEntry → String) (reload : String → HttpReply) where
    -- A target that is there is removed: the file is written, then the gateway reloads. `reload` is
    -- what the POST gives when the file holds a text.
    remove_target :
        (path name : String)
        → List SiriusProviderFileEntry
        → Option SiriusProviderFileEntry
        → Deregistration J × Option String
    remove_target path name remaining none =
        (provider_not_found path ("provider '" & name & "' is not in " & path), none)
    remove_target path name remaining (some target) =
        let text = stringify_yaml remaining in
        (
          wet path (name_and_kind target) (length remaining) (map name_and_kind remaining)
              (fetch_json parse (reload text)),
          some text,
        )

    deregister_from :
        (path name : String)
        → (dry : Bool) → List SiriusProviderFileEntry
        → Deregistration J × Option String
    unfolding remove_target
    deregister_from path name dry providers =
        let target = find (λ (p : SiriusProviderFileEntry). p.name == name) providers in
        let remaining = remaining_of name providers in
        if dry
        then (
          dry_run path (Option.map provider_view target) (length remaining)
              (map name_and_kind remaining),
          none,
        )
        else remove_target path name remaining target

    abbrev deregister_audit :
        (path name : String) → (dry : Bool) → List SiriusProviderFileEntry → Audit
    deregister_audit path name dry providers =
        deregister name dry path
          (is_some (find (λ (p : SiriusProviderFileEntry). p.name == name) providers))
          (length (remaining_of name providers))

    -- `sirius.providers.deregister`: the answer, what is written to the file, and the audit entry;
    -- nothing when loading the file throws.
    pub deregister_provider :
        (name : String)
        → (asked : Option Bool) → (path : Option String)
        → Option ((Deregistration J × Option String) × Audit)
    unfolding path_of deregister_from
    deregister_provider name asked path =
        let dry = get_or asked true in
        elim (load_providers_file env (path_of path)) [
          | none ↦ none
          | some providers ↦ some (
            deregister_from (path_of path) name dry providers,
            deregister_audit (path_of path) name dry providers,
          )
        ]

-- The tools that ask the gateway.
module _ {J : Type 0} (parse : String → Option J) where
  pub list_models : HttpReply → FetchResult J × Audit
  list_models reply = let result = fetch_json parse reply in (result, models_list result.status)

  -- `sirius.health.all`: its answer also holds the base URL.
  pub health :
      (sirius_url : Option String)
      → HttpReply
      → HttpReply
      → (String × FetchResult J × FetchResult J) × Audit
  health sirius_url gateway_reply providers_reply =
      let gateway = fetch_json parse gateway_reply in
      let providers = fetch_json parse providers_reply in
      ((sirius_base_url sirius_url, gateway, providers), health_all gateway.status providers.status)

  -- `{ ...input, stream: false }`; `off` is the JSON value `false`.
  pub chat_body : (off : J) → Dict J → Dict J
  chat_body off input = Dict.set "stream" off input

  -- `sirius.chat`: `post` is what the gateway answers to a body.
  pub ask :
      (off : J) (post : Dict J → HttpReply) (model : String) (message_count : ℕ)
      → Dict J
      → FetchResult J × Audit
  unfolding chat_body
  ask off post model message_count input =
      let result = fetch_json parse (post (chat_body off input)) in
      (result, chat model message_count result.status result.ok)

  pub embed_text : (post : Dict J → HttpReply) (model : String) → Dict J → FetchResult J × Audit
  embed_text post model input =
      let result = fetch_json parse (post input) in (result, embed model result.status result.ok)
