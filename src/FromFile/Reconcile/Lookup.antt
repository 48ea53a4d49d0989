-- ===== src/FromFile/Reconcile/Lookup.antt =====
-- libs/provider-fromfile/src/fromfile-provider.module.ts: what is registered after a reconciliation.
use sirius_gateway.Base.{
  String, List, [], ◌∷◌, Option, some, none, if◌then◌else◌, ◌==◌, ◌&&◌, not, or_else, eq_iff, inl,
  inr, ◌⊎◌, ◌≡◌, refl, ap, ◌∙◌, arith,
}
use sirius_gateway.Base.Dict.{Dict}
use sirius_gateway.Core.ProviderRegistry
use sirius_gateway.FromFile.{SiriusProviderFileEntry, Built, failed, built}
use sirius_gateway.FromFile.Reconcile.{
  includes, distinct_from, names_of, Progress, remove_gone, add_built, add_entries, start,
  reconcile_from_file_providers,
}

pub includes-distinct_from :
    (name : String) (seen names : List String)
    → includes name (distinct_from seen names) ≡ (includes name names && not (includes name seen))
includes-distinct_from name seen [] = refl
includes-distinct_from name seen (n ∷ names) = ground (
  arith,
  eq_iff n name,
  includes-distinct_from name seen names,
  includes-distinct_from name (n ∷ seen) names,
)

pub distinct_lem :
    (name : String) (names : List String)
    → includes name (distinct_from [] names) ≡ includes name names
distinct_lem name names = ground (arith, includes-distinct_from name [] names)

pub Built-cases :
    {P : Type 0} (b : Built P)
    → ((reason : String) × (b ≡ failed reason)) ⊎ ((p : P) × (b ≡ built p))
Built-cases (failed reason) = inl (reason, refl)
Built-cases (built p) = inr (p, refl)

or_else_assoc {ℓ} :
    {A : Type ℓ} (a b c : Option A) → or_else a (or_else b c) ≡ or_else (or_else a b) c
or_else_assoc none b c = refl
or_else_assoc (some a) b c = refl

module _ {P : Type 0} (build_entry : SiriusProviderFileEntry → Built P) where
  abbrev pub built_or_none : Built P → Option P
  built_or_none (failed reason) = none
  built_or_none (built p) = some p

  -- The provider of the last entry with a name that can be built.
  abbrev pub last_built : String → List SiriusProviderFileEntry → Option P
  last_built name [] = none
  last_built name (e ∷ entries) =
      or_else (last_built name entries)
        (if e.name == name then built_or_none (build_entry e) else none)

  get-remove_gone :
      (name : String) (wanted prev : List String) (registry : Dict P)
      → ProviderRegistry.get name (remove_gone build_entry wanted prev registry).0 ≡ (
          if includes name prev && not (includes name wanted)
          then none
          else ProviderRegistry.get name registry)
  unfolding remove_gone
  get-remove_gone name wanted [] registry = refl
  get-remove_gone name wanted (n ∷ prev) registry = ground (
    arith,
    eq_iff n name,
    get-remove_gone name wanted prev registry,
    get-remove_gone name wanted prev (ProviderRegistry.unregister n registry).0,
    ProviderRegistry.get-unregister n name registry,
  )

  pub get-add_built :
      (name : String) (prev : List String) (n : String) (b : Built P) (s : Progress build_entry)
      → ProviderRegistry.get name (add_built build_entry prev n b s).registry
        ≡ or_else
            (if n == name then built_or_none b else none)
            (ProviderRegistry.get name s.registry)
  unfolding add_built
  get-add_built name prev n (failed reason) s = ground arith
  get-add_built name prev n (built p) s =
      ground (arith, ProviderRegistry.get-register n name p s.registry)

  get-add_entries :
      (name : String) (prev : List String) (entries : List SiriusProviderFileEntry)
      (s : Progress build_entry)
      → ProviderRegistry.get name (add_entries build_entry prev entries s).registry
        ≡ or_else (last_built name entries) (ProviderRegistry.get name s.registry)
  unfolding add_entries
  get-add_entries name prev [] s = refl
  get-add_entries name prev (e ∷ entries) s =
      let s' = add_built build_entry prev e.name (build_entry e) s in
      get-add_entries name prev entries s'
      ∙ rw (get-add_built name prev e.name (build_entry e) s) (
          or_else_assoc (last_built name entries)
            (if e.name == name then built_or_none (build_entry e) else none)
            (ProviderRegistry.get name s.registry))

  -- What a name finds after a reconciliation: the provider of the last entry of that name that could
  -- be built; if there is none, nothing if the loader owned the name and the file no longer has it,
  -- and else what was there before.
  pub get-reconcile :
      (name path : String) (entries : List SiriusProviderFileEntry) (registry : Dict P)
      (owned : List String)
      → ProviderRegistry.get name
          (reconcile_from_file_providers build_entry path entries registry owned).registry
        ≡ or_else (last_built name entries) (
            if includes name owned && not (includes name (names_of entries))
            then none
            else ProviderRegistry.get name registry)
  unfolding reconcile_from_file_providers
  get-reconcile name path entries registry owned =
      let prev = distinct_from [] owned in
      get-add_entries name prev entries
        (start build_entry (remove_gone build_entry (names_of entries) prev registry).0)
      ∙ ap (or_else (last_built name entries)) (
          get-remove_gone name (names_of entries) prev registry ∙ rw (distinct_lem name owned) refl)
