-- ===== src/Core/ProviderRegistry.antt =====
-- libs/sirius-core/src/provider-registry.ts. A registered provider is a pair of its name and the
-- rest of it, of type `A`; the map's key is always the provider's own name.
use sirius_gateway.Base.{
  String, Bool, List, [], Option, some, none, ◌≡◌, is_some, if◌then◌else◌, ◌==◌,
}
use sirius_gateway.Base.Dict
use sirius_gateway.Base.Dict.{Dict}

module _ {ℓ} {A : Type ℓ} where
  abbrev pub empty : Dict A
  empty = []

  unfoldable pub register : String → A → Dict A → Dict A
  register name provider providers = Dict.set name provider providers

  -- The new map, and whether the provider was there.
  pub unregister : String → Dict A → Dict A × Bool
  unregister name providers = (Dict.delete name providers, is_some (Dict.get name providers))

  unfoldable pub get : String → Dict A → Option A
  get name providers = Dict.get name providers

  unfoldable pub get_all : Dict A → List A
  get_all providers = Dict.values providers

  unfoldable pub get_names : Dict A → List String
  get_names providers = Dict.keys providers

  -- A lookup after a registration finds the new provider at its name and what was there elsewhere.
  pub get-register :
      (name other : String) (provider : A) (providers : Dict A)
      → get other (register name provider providers)
        ≡ (if name == other then some provider else get other providers)
  unfolding get register
  get-register name other provider providers = Dict.get-set name other provider providers

  -- After an unregistration the name is gone and every other name is as before.
  pub get-unregister :
      (name other : String) (providers : Dict A)
      → get other (unregister name providers).0
        ≡ (if name == other then none else get other providers)
  unfolding get unregister
  get-unregister name other providers = Dict.get-delete name other providers
