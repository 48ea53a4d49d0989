-- ===== src/FromFile/Reconcile/Reload.antt =====
-- libs/provider-fromfile/src/fromfile-provider.module.ts: ownership, repeated reloads, and the start.
use mathlib.Core.List.{append_assoc, append-nil}
use sirius_gateway.Base.{
  All, ◌==◌, Bool-cases, inl, inr, String, Bool, true, false, List, [], ◌∷◌, ◌++◌, Option, some,
  none, if◌then◌else◌, ◌||◌, or_else, is_some, eq_iff, ◌≡◌, refl, sym, ap, ◌∙◌, arith,
}
use sirius_gateway.Base.Dict.{Dict}
use sirius_gateway.Core.ProviderRegistry
use sirius_gateway.FromFile.{SiriusProviderFileEntry, Built, failed, built}
use sirius_gateway.FromFile.Reconcile.{
  includes, names_of, Progress, add_built, add_entries, Reconciled, reconcile_from_file_providers,
  FromFileReloadService, reload,
}
use sirius_gateway.FromFile.Reconcile.Lookup.{built_or_none, last_built, get-reconcile}

includes-append :
    (name : String) (xs ys : List String)
    → includes name (xs ++ ys) ≡ (includes name xs || includes name ys)
includes-append name [] ys = refl
includes-append name (x ∷ xs) ys = ground (arith, includes-append name xs ys)

abbrev pub name_if : Bool → String → List String
name_if b name = if b then name ∷ [] else []

module _ {P : Type 0} (build_entry : SiriusProviderFileEntry → Built P) where
  -- The names of the entries that can be built, in their order.
  abbrev pub built_names : List SiriusProviderFileEntry → List String
  built_names [] = []
  built_names (e ∷ entries) =
      name_if (is_some (built_or_none build_entry (build_entry e))) e.name ++ built_names entries

  pub includes-built_names :
      (name : String) (entries : List SiriusProviderFileEntry)
      → includes name (built_names entries) ≡ is_some (last_built build_entry name entries)
  includes-built_names name [] = refl
  includes-built_names name (e ∷ entries) =
      ground (arith, eq_iff e.name name, includes-built_names name entries)

  pub built_names-wanted :
      (name : String) (entries : List SiriusProviderFileEntry)
      → includes name (built_names entries) ≡ true
      → includes name (names_of entries) ≡ true
  built_names-wanted name [] h = h
  built_names-wanted name (e ∷ entries) h =
      ground (arith, eq_iff e.name name, built_names-wanted name entries)

  add_built-owned :
      (prev : List String) (name : String) (b : Built P) (s : Progress build_entry)
      → (add_built build_entry prev name b s).owned_after
        ≡ s.owned_after ++ name_if (is_some (built_or_none build_entry b)) name
  unfolding add_built
  add_built-owned prev name (failed reason) s = sym (append-nil s.owned_after)
  add_built-owned prev name (built p) s = refl

  add_entries-owned :
      (prev : List String) (entries : List SiriusProviderFileEntry) (s : Progress build_entry)
      → (add_entries build_entry prev entries s).owned_after ≡ s.owned_after ++ built_names entries
  unfolding add_entries
  add_entries-owned prev [] s = sym (append-nil s.owned_after)
  add_entries-owned prev (e ∷ entries) s =
      add_entries-owned prev entries (add_built build_entry prev e.name (build_entry e) s)
      ∙ rw (add_built-owned prev e.name (build_entry e) s) (append_assoc s.owned_after _ _)

  abbrev pub after :
      String → List SiriusProviderFileEntry → Dict P → List String → Reconciled build_entry
  after path entries registry owned =
      reconcile_from_file_providers build_entry path entries registry owned

  -- Two reconciliations in a row, with the contents of the file at each.
  abbrev pub then_after :
      String
      → (first second : List SiriusProviderFileEntry) → Dict P
      → List String
      → Reconciled build_entry
  then_after path first second registry owned =
      let r = after path first registry owned in after path second r.registry r.owned_after

  pub reconcile-owned :
      (path : String) (entries : List SiriusProviderFileEntry) (registry : Dict P)
      (owned : List String)
      → (after path entries registry owned).owned_after ≡ built_names entries
  unfolding reconcile_from_file_providers
  reconcile-owned path entries registry owned = add_entries-owned _ entries _

  is_some-or_else : {A : Type 0} (a b : Option A) → is_some (or_else a b) ≡ (is_some a || is_some b)
  is_some-or_else none b = refl
  is_some-or_else (some a) b = refl

  -- Whatever was registered or owned before, after a reconciliation exactly the names of the entries
  -- that can be built are owned, and every owned name is registered.
  pub reconcile-AllRegistered :
      (name path : String) (entries : List SiriusProviderFileEntry) (registry : Dict P)
      (owned : List String)
      → includes name (after path entries registry owned).owned_after ≡ true
      → is_some (ProviderRegistry.get name (after path entries registry owned).registry) ≡ true
  reconcile-AllRegistered name path entries registry owned h =
      let e = get-reconcile build_entry name path entries registry owned in
      let built_one : is_some (last_built build_entry name entries) ≡ true =
        sym (includes-built_names name entries)
        ∙ (ap (includes name) (sym (reconcile-owned path entries registry owned)) ∙ h) in
      rw e (is_some-or_else (last_built build_entry name entries) _ ∙ rw built_one refl)

  -- The reloads of the contents that a file has one after the other: what is registered and owned
  -- at their end.
  abbrev pub after_all :
      String → List (List SiriusProviderFileEntry) → Dict P → List String → Dict P × List String
  after_all path [] registry owned = (registry, owned)
  after_all path (entries ∷ files) registry owned =
      let r = after path entries registry owned in after_all path files r.registry r.owned_after

  -- No entry of a name can be built.
  abbrev pub IsUnbuilt : String → List SiriusProviderFileEntry → Type 0
  IsUnbuilt name entries =
      All (λ e. (e.name ≡ name) → (reason : String) × (build_entry e ≡ failed reason)) entries

  last_built-IsUnbuilt :
      (name : String) (entries : List SiriusProviderFileEntry)
      → IsUnbuilt name entries
      → last_built build_entry name entries ≡ none
  last_built-IsUnbuilt name [] h = refl
  last_built-IsUnbuilt name (e ∷ entries) (unbuilt, h) =
      rw (last_built-IsUnbuilt name entries h) (elim (Bool-cases (e.name == name)) [
        | inl same ↦ rw (same, (unbuilt ((eq_iff e.name name).0 same)).1) refl
        | inr other ↦ rw other refl
      ])

  unowned-after :
      (name path : String) (entries : List SiriusProviderFileEntry) (registry : Dict P)
      (owned : List String)
      → IsUnbuilt name entries
      → includes name (after path entries registry owned).owned_after ≡ false
  unowned-after name path entries registry owned h =
      ap (includes name) (reconcile-owned path entries registry owned)
      ∙ (includes-built_names name entries ∙ ap is_some (last_built-IsUnbuilt name entries h))

  unowned-after_all :
      (name path : String) (files : List (List SiriusProviderFileEntry)) (registry : Dict P)
      (owned : List String)
      → All (IsUnbuilt name) files
      → includes name owned ≡ false
      → (ProviderRegistry.get name (after_all path files registry owned).0
          ≡ ProviderRegistry.get name registry)
        × (includes name (after_all path files registry owned).1 ≡ false)
  unowned-after_all name path [] registry owned h free = (refl, free)
  unowned-after_all name path (entries ∷ files) registry owned (unbuilt, h) free =
      let r = after path entries registry owned in
      let (same, unowned) =
        unowned-after_all name path files r.registry r.owned_after h
          (unowned-after name path entries registry owned unbuilt) in
      (
        same
            ∙ (get-reconcile build_entry name path entries registry owned
                ∙ rw (last_built-IsUnbuilt name entries unbuilt, free) refl),
        unowned,
      )

  -- A provider that the loader has registered escapes it: if on a reload no entry of its name can be
  -- built, though the file names it, what the name finds stays as it was, but the name is no longer
  -- owned; and so it stays after any number of later reloads of any contents in which no entry of
  -- the name can be built, also of those without the name.
  pub reconcile-escapes :
      (name path : String) (broken : List SiriusProviderFileEntry)
      (later : List (List SiriusProviderFileEntry)) (registry : Dict P) (owned : List String)
      → includes name (names_of broken) ≡ true
      → IsUnbuilt name broken
      → All (IsUnbuilt name) later
      → let r = after path broken registry owned in
        let end = after_all path later r.registry r.owned_after in
        (ProviderRegistry.get name r.registry ≡ ProviderRegistry.get name registry)
        × (includes name r.owned_after ≡ false)
        × (ProviderRegistry.get name end.0 ≡ ProviderRegistry.get name registry)
        × (includes name end.1 ≡ false)
  reconcile-escapes name path broken later registry owned wanted h k =
      let r = after path broken registry owned in
      let free = unowned-after name path broken registry owned h in
      let kept : ProviderRegistry.get name r.registry ≡ ProviderRegistry.get name registry =
        get-reconcile build_entry name path broken registry owned
        ∙ rw (last_built-IsUnbuilt name broken h, wanted) (ground arith) in
      let (same, unowned) = unowned-after_all name path later r.registry r.owned_after k free in
      (kept, free, same ∙ kept, unowned)

  -- A reload whose file can be read is a reconciliation.
  pub reload-after :
      (load : String → Option (List SiriusProviderFileEntry))
      (s : FromFileReloadService build_entry) (entries : List SiriusProviderFileEntry)
      → load s.path ≡ some entries
      → reload build_entry load s ≡ (
        some (after s.path entries s.registry s.owned).result,
        record s {
          owned = (after s.path entries s.registry s.owned).owned_after;
          registry = (after s.path entries s.registry s.owned).registry;
        },
      )
  unfolding reload
  reload-after load s entries h = rw (reload, h) refl
