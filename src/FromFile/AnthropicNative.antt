-- ===== src/FromFile/AnthropicNative.antt =====
-- libs/provider-fromfile/src/fromfile-provider.module.ts: the listing and the health probe of an
-- Anthropic entry. What `fetch` gives is an argument.
use sirius_gateway.Base.{
  ℕ, String, List, [], ◌∷◌, ◌++◌, Option, some, none, if◌then◌else◌, leb, is_blank, ◌&◌,
}
use mathlib.Core.Option.{get_or}
use sirius_gateway.Core.Models.{ModelInfo, ProviderHealth, healthy, degraded, down}
use sirius_gateway.FromFile.DateSuffix.{strip_anthropic_date_suffix}

-- An element of `data`, with its creation in seconds, if that is a time.
pub record NativeModel : Type 0 where
  pub id : Option String
  pub created : Option ℕ

pub data NativeReply (A : Type 0) : Type 0 where
  unreachable : (message : String) → NativeReply A
  not_ok : (status : ℕ) (text : String) → NativeReply A
  accepted : A → NativeReply A

-- A listing that throws, with the message, or the models.
pub data Listing : Type 0 where
  threw : (message : String) → Listing
  listed : List ModelInfo → Listing

module _ (provider_name : String) where
  info_of : (id : String) → (created : Option ℕ) → ModelInfo
  info_of id created = record {
    id = id;
    provider = provider_name;
    created = created;
    owned_by = some "anthropic";
  }

  undated : Option String → List ModelInfo
  unfolding info_of
  undated none = []
  undated (some id) = info_of id none ∷ []

  -- A model and, if its id has a date, the id without.
  both_ids : NativeModel → List ModelInfo
  unfolding undated
  both_ids m =
      let id = get_or m.id "" in
      if is_blank id then [] else info_of id m.created ∷ undated (strip_anthropic_date_suffix id)

  pub native_models : List NativeModel → List ModelInfo
  unfolding both_ids
  native_models [] = []
  native_models (m ∷ ms) = both_ids m ++ native_models ms

  -- `first_500` cuts a text to 500 characters.
  pub list_anthropic_native_models :
      (printed : ℕ → String)
      → (first_500 : String → String) → NativeReply (Option (List NativeModel))
      → Listing
  unfolding native_models
  list_anthropic_native_models printed first_500 (unreachable message) = threw message
  list_anthropic_native_models printed first_500 (not_ok status text) =
      threw (provider_name & " /models " & printed status & ": " & first_500 text)
  list_anthropic_native_models printed first_500 (accepted models) =
      listed (native_models (get_or models []))

  pub probe_anthropic_health :
      {N A : Type 0}
      → (printed : ℕ → String) → (latency_ms : N) → (now : ℕ) → NativeReply A
      → ProviderHealth N
  probe_anthropic_health printed latency_ms now (unreachable message) = record {
    provider = provider_name;
    status = down;
    latency_ms = none;
    last_checked = now;
    error = some message;
  }
  probe_anthropic_health printed latency_ms now (not_ok status text) = record {
    provider = provider_name;
    status = if leb 500 status then down else degraded;
    latency_ms = some latency_ms;
    last_checked = now;
    error = some ("HTTP " & printed status);
  }
  probe_anthropic_health printed latency_ms now (accepted a) = record {
    provider = provider_name;
    status = healthy;
    latency_ms = some latency_ms;
    last_checked = now;
    error = none;
  }
