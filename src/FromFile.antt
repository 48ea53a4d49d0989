-- ===== src/FromFile.antt =====
-- libs/provider-fromfile/src/loader.ts, and `novaProviderFor` of fromfile-provider.module.ts: the
-- entries of the provider file and what is built of one. The environment, the files, the home
-- directory, `path.join` and the YAML parser are arguments.
mod Tests
pub mod Loading
pub mod DateSuffix
pub mod AnthropicNative
pub mod Reconcile
use mathlib.Core.Option.{get_or}
use sirius_gateway.Base.{
  String, Bool, true, false, List, [], ◌∷◌, Option, some, none, if◌then◌else◌, ◌==◌, ◌&◌, is_blank,
  trim, truthy, or_else, after_prefix,
}

-- A file that is there may still not be readable.
pub data File : Type 0 where
  absent unreadable : File
  contents : String → File

-- An element of the list `providers`: an object with a text as name and as kind, or anything else.
pub record SiriusProviderFileEntry : Type 0 where
  pub name : String
  pub kind : String
  pub api_key_ref : Option String
  pub base_url : Option String
  pub display_name : Option String

pub data YamlElement : Type 0 where
  entry : SiriusProviderFileEntry → YamlElement
  other : YamlElement

-- What the YAML parser makes of the file: it throws, or there is no list `providers`, or there is.
pub data Yaml : Type 0 where
  malformed no_list : Yaml
  providers : List YamlElement → Yaml

-- What building a provider comes to: an error with its message, or the provider.
pub data Built (P : Type 0) : Type 0 where
  failed : (reason : String) → Built P
  built : P → Built P

pub record Environment : Type 0 where
  pub variable : String → Option String
  pub file : String → File
  pub home : String
  pub join_path : String → String → String
  pub parse_yaml : String → Yaml
  -- The message of the error that reading an unreadable file throws.
  pub read_error : String → String

abbrev pub entries_only : List YamlElement → List SiriusProviderFileEntry
entries_only [] = []
entries_only (entry e ∷ es) = e ∷ entries_only es
entries_only (YamlElement.other ∷ es) = entries_only es

-- Nothing if the parser throws.
pub entries_of : Yaml → Option (List SiriusProviderFileEntry)
entries_of malformed = none
entries_of no_list = some []
entries_of (providers es) = some (entries_only es)

abbrev trimmed : Option String → Option String
trimmed none = none
trimmed (some s) = truthy (some (trim s))

-- `DEFAULT_BASE_URLS`
default_base_url : String → Option String
default_base_url kind =
    if kind == "openai"
    then some "https://api.openai.com/v1"
    else if kind == "anthropic"
    then some "https://api.anthropic.com/v1"
    else if kind == "together"
    then some "https://api.together.xyz/v1"
    else if kind == "groq"
    then some "https://api.groq.com/openai/v1"
    else if kind == "mistral"
    then some "https://api.mistral.ai/v1"
    else none

-- `replace(/^~(?=$|\/)/, home)`: a first `~` that is alone or before a slash.
expand_home : (home path : String) → String
expand_home home path = elim (after_prefix "~" path) [
  | none ↦ path
  | some rest ↦ elim (after_prefix "/" rest) [
    | some _ ↦ home & rest
    | none ↦ if is_blank rest then home else path
  ]
]

module _ (env : Environment) where
  open env use {variable, file, home, join_path, parse_yaml, read_error}

  pub resolve_file_path : String
  resolve_file_path = elim (trimmed (variable "LLAMACTL_PROVIDERS_FILE")) [
    | some path ↦ path
    | none ↦
        join_path (get_or (trimmed (variable "DEV_STORAGE")) (join_path home ".llamactl"))
          "sirius-providers.yaml"
  ]

  load_file : File → Option (List SiriusProviderFileEntry)
  unfolding entries_of
  load_file absent = some []
  load_file unreadable = none
  load_file (contents raw) = entries_of (parse_yaml raw)

  -- Nothing if reading or parsing throws.
  pub load_providers_file : String → Option (List SiriusProviderFileEntry)
  unfolding load_file
  load_providers_file path = load_file (file path)

  key_in_file : String → File → Built String
  key_in_file path absent = built ""
  key_in_file path unreadable = failed (read_error path)
  key_in_file path (contents raw) = built (trim raw)

  key_of : String → Option String → Built String
  unfolding key_in_file expand_home
  key_of ref (some name) = built (trim (get_or (variable name) ""))
  key_of ref none =
      let path = expand_home (get_or (variable "HOME") home) ref in key_in_file path (file path)

  -- `$VAR` or a path.
  pub resolve_api_key_ref : Option String → Built String
  unfolding key_of
  resolve_api_key_ref none = built ""
  resolve_api_key_ref (some ref) =
      if is_blank ref then built "" else key_of (trim ref) (after_prefix "$" (trim ref))

  module _ {P : Type 0}
      (adapter_of : SiriusProviderFileEntry → (base_url api_key : String) → P) where
    with_key : SiriusProviderFileEntry → String → Built String → Built P
    with_key e base_url (failed reason) = failed reason
    with_key e base_url (built api_key) = built (adapter_of e base_url api_key)

    -- `novaProviderFor` and the adapter around what it gives.
    pub build : SiriusProviderFileEntry → Built P
    unfolding with_key default_base_url resolve_api_key_ref
    build e =
        let base_url = get_or (or_else e.base_url (default_base_url e.kind)) "" in
        if is_blank base_url
        then failed
            ("sirius provider '" & e.name & "' (" & e.kind & ") has no baseUrl and no default")
        else with_key e base_url (resolve_api_key_ref e.api_key_ref)
