-- ===== src/FromFile/Reconcile/Settled.antt =====
-- libs/provider-fromfile/src/fromfile-provider.module.ts: a reload of a file that has not changed, and
-- the start as a first reload.
use sirius_gateway.Base.{
  String, true, List, [], ◌∷◌, Option, some, none, or_else, is_some, eq_refl, ◌≡◌, refl, sym, ap,
  ◌∙◌, arith,
}
use sirius_gateway.Base.Dict.{Dict}
use sirius_gateway.Core.ProviderRegistry
use sirius_gateway.FromFile.{SiriusProviderFileEntry, Built, failed, built}
use sirius_gateway.FromFile.Reconcile.{
  includes, distinct_from, names_of, Progress, remove_gone, add_built, add_entries, start,
  Reconciled, reconcile_from_file_providers, boot_one, boot,
}
use sirius_gateway.FromFile.Reconcile.Lookup.{
  built_or_none, last_built, get-add_built, get-reconcile, distinct_lem,
}
use sirius_gateway.FromFile.Reconcile.Reload.{
  includes-built_names, built_names-wanted, after, then_after, reconcile-owned,
  reconcile-AllRegistered,
}

is_some-or_else_right :
    {A : Type 0} (a b : Option A) → is_some b ≡ true → is_some (or_else a b) ≡ true
is_some-or_else_right none b h = h
is_some-or_else_right (some a) b h = refl

module _ {P : Type 0} (build_entry : SiriusProviderFileEntry → Built P) where
  remove_gone-none :
      (wanted prev : List String) (registry : Dict P)
      → ((name : String) → includes name prev ≡ true → includes name wanted ≡ true)
      → remove_gone build_entry wanted prev registry ≡ (registry, [])
  unfolding remove_gone
  remove_gone-none wanted [] registry h = refl
  remove_gone-none wanted (n ∷ prev) registry h =
      rw (h n (rw (eq_refl n) refl))
        (remove_gone-none wanted prev registry (λ name k. h name (rw k (ground arith))))

  -- Every name with an entry that can be built is registered, and was owned before.
  abbrev Known : (prev : List String) → List SiriusProviderFileEntry → Dict P → Type 0
  Known prev entries registry =
      (name : String)
      → is_some (last_built build_entry name entries) ≡ true
      → (includes name prev ≡ true) × (is_some (ProviderRegistry.get name registry) ≡ true)

  add_built-known :
      (prev : List String) (name : String) (b : Built P) (s : Progress build_entry)
      → (is_some (built_or_none build_entry b) ≡ true
          → (includes name prev ≡ true) × (is_some (ProviderRegistry.get name s.registry) ≡ true))
      → (add_built build_entry prev name b s).added ≡ s.added
  unfolding add_built
  add_built-known prev name (failed reason) s h = refl
  add_built-known prev name (built p) s h = let (a, b) = h refl in rw (a, b) refl

  last_built-here :
      (e : SiriusProviderFileEntry) (entries : List SiriusProviderFileEntry)
      → is_some (built_or_none build_entry (build_entry e)) ≡ true
      → is_some (last_built build_entry e.name (e ∷ entries)) ≡ true
  last_built-here e entries h = ground (arith, eq_refl e.name)

  last_built-later :
      (name : String) (e : SiriusProviderFileEntry) (entries : List SiriusProviderFileEntry)
      → is_some (last_built build_entry name entries) ≡ true
      → is_some (last_built build_entry name (e ∷ entries)) ≡ true
  last_built-later name e entries h = ground arith

  add_entries-Known :
      (prev : List String) (entries : List SiriusProviderFileEntry) (s : Progress build_entry)
      → Known prev entries s.registry
      → (add_entries build_entry prev entries s).added ≡ s.added
  unfolding add_entries
  add_entries-Known prev [] s h = refl
  add_entries-Known prev (e ∷ entries) s h =
      let b = build_entry e in
      let s' = add_built build_entry prev e.name b s in
      add_entries-Known prev entries s' (λ name k.
        let (p, r) = h name (last_built-later name e entries k) in
        (p, rw (get-add_built build_entry name prev e.name b s) (is_some-or_else_right _ _ r)))
      ∙ add_built-known prev e.name b s (λ k. h e.name (last_built-here e entries k))

  rebuilt :
      (entries : List SiriusProviderFileEntry) (name : String) (p : P)
      → last_built build_entry name entries ≡ some p
      → (path : String) (registry : Dict P) (owned : List String)
      → ProviderRegistry.get name (after build_entry path entries registry owned).registry ≡ some p
  rebuilt entries name p e path registry owned =
      get-reconcile build_entry name path entries registry owned ∙ rw e refl

  module _ (path : String) (entries : List SiriusProviderFileEntry) (registry : Dict P)
      (owned : List String) where
    abbrev first : Reconciled build_entry
    first = after build_entry path entries registry owned

    abbrev owned_once : List String
    owned_once = distinct_from [] first.owned_after

    owned_once_lem :
        (name : String) → includes name owned_once ≡ is_some (last_built build_entry name entries)
    owned_once_lem name =
        distinct_lem name first.owned_after
        ∙ (ap (includes name) (reconcile-owned build_entry path entries registry owned)
            ∙ includes-built_names build_entry name entries)

    nothing_gone :
        remove_gone build_entry (names_of entries) owned_once first.registry ≡ (first.registry, [])
    nothing_gone = remove_gone-none (names_of entries) owned_once first.registry (λ name h.
        built_names-wanted build_entry name entries
          (includes-built_names build_entry name entries ∙ (sym (owned_once_lem name) ∙ h)))

    first-Known : Known owned_once entries first.registry
    first-Known name h = (
      owned_once_lem name ∙ h,
      reconcile-AllRegistered build_entry name path entries registry owned
          (sym (distinct_lem name first.owned_after) ∙ (owned_once_lem name ∙ h)),
    )

    same_lookup :
        (name : String) (o : Option P)
        → last_built build_entry name entries ≡ o
        → ProviderRegistry.get name
            (after build_entry path entries first.registry first.owned_after).registry
          ≡ ProviderRegistry.get name first.registry
    same_lookup name none e =
        get-reconcile build_entry name path entries first.registry first.owned_after
        ∙ rw (e, sym (distinct_lem name first.owned_after) ∙ (owned_once_lem name ∙ ap is_some e))
            refl
    same_lookup name (some p) e =
        rebuilt entries name p e path first.registry first.owned_after
        ∙ sym (rebuilt entries name p e path registry owned)

    removed_none : (then_after build_entry path entries entries registry owned).result.removed ≡ []
    unfolding reconcile_from_file_providers
    removed_none = rw nothing_gone refl

    added_none : (then_after build_entry path entries entries registry owned).result.added ≡ []
    unfolding reconcile_from_file_providers
    added_none = add_entries-Known owned_once entries _ (
        let e : (remove_gone build_entry (names_of entries) owned_once first.registry).0
            ≡ first.registry =
          ap (λ x. x.0) nothing_gone in
        rw e first-Known)

    -- A reload of a file that has not changed since the last one adds nothing, removes nothing,
    -- owns the same names, and leaves what every name finds as it was.
    pub reconcile-settled :
        (name : String)
        → ((then_after build_entry path entries entries registry owned).result.added ≡ [])
          × ((then_after build_entry path entries entries registry owned).result.removed ≡ [])
          × ((then_after build_entry path entries entries registry owned).owned_after
              ≡ first.owned_after)
          × (ProviderRegistry.get name
                (then_after build_entry path entries entries registry owned).registry
              ≡ ProviderRegistry.get name first.registry)
    reconcile-settled name = (
      added_none,
      removed_none,
      reconcile-owned build_entry path entries first.registry first.owned_after
          ∙ sym (reconcile-owned build_entry path entries registry owned),
      same_lookup name (last_built build_entry name entries) refl,
    )

  add_boot :
      (prev : List String) (name : String) (b : Built P) (s : Progress build_entry)
      → boot_one build_entry name b (s.registry, s.owned_after) ≡ (
        (add_built build_entry prev name b s).registry,
        (add_built build_entry prev name b s).owned_after,
      )
  unfolding boot_one add_built
  add_boot prev name (failed reason) s = refl
  add_boot prev name (built p) s = refl

  boot-add_entries :
      (prev : List String) (entries : List SiriusProviderFileEntry) (s : Progress build_entry)
      → boot build_entry entries (s.registry, s.owned_after) ≡ (
        (add_entries build_entry prev entries s).registry,
        (add_entries build_entry prev entries s).owned_after,
      )
  unfolding boot add_entries
  boot-add_entries prev [] s = refl
  boot-add_entries prev (e ∷ entries) s =
      ap (boot build_entry entries) (add_boot prev e.name (build_entry e) s)
      ∙ boot-add_entries prev entries (add_built build_entry prev e.name (build_entry e) s)

  -- The start registers and owns what a first reload, with no name owned, would.
  pub boot-reconcile :
      (path : String) (entries : List SiriusProviderFileEntry) (registry : Dict P)
      → boot build_entry entries (registry, []) ≡ (
        (after build_entry path entries registry []).registry,
        (after build_entry path entries registry []).owned_after,
      )
  unfolding reconcile_from_file_providers remove_gone
  boot-reconcile path entries registry = boot-add_entries [] entries (start build_entry registry)
