-- ===== src/FromFile/Reconcile.antt =====
-- libs/provider-fromfile/src/fromfile-provider.module.ts: `reconcileFromFileProviders`,
-- FromFileReloadService, and the registration at the start. Registered providers are of type `P`;
-- `build_entry` is what building an entry's provider comes to.
pub mod Lookup
pub mod Reload
pub mod Settled
use sirius_gateway.Base.{
  String, Bool, true, false, List, [], ◌∷◌, ◌++◌, Option, some, none, if◌then◌else◌, ◌==◌, ◌&&◌,
  not, any, filter, map, is_some,
}
use sirius_gateway.Base.Dict.{Dict}
use sirius_gateway.Core.ProviderRegistry
use sirius_gateway.FromFile.{SiriusProviderFileEntry, Built, failed, built}

pub record FromFileReloadResult : Type 0 where
  pub path : String
  pub added : List String
  pub removed : List String
  pub kept : List String
  pub skipped : List (String × String)

abbrev pub includes : String → List String → Bool
includes name names = any (λ n. n == name) names

-- The names of a `Set`, in order.
abbrev pub distinct_from : (seen names : List String) → List String
distinct_from seen [] = []
distinct_from seen (n ∷ names) =
    let rest = distinct_from (n ∷ seen) names in
    let same = distinct_from seen names in if includes n seen then same else n ∷ rest

abbrev pub names_of : List SiriusProviderFileEntry → List String
names_of entries = map (λ (e : SiriusProviderFileEntry). e.name) entries

module _ {P : Type 0} (build_entry : SiriusProviderFileEntry → Built P) where
  -- The registry and the lists that the loops fill.
  pub record Progress : Type 0 where
    pub registry : Dict P
    pub added : List String
    pub kept : List String
    pub skipped : List (String × String)
    pub owned_after : List String

  -- The first loop: names that have disappeared from the file are unregistered.
  pub remove_gone : (wanted prev : List String) → Dict P → Dict P × List String
  remove_gone wanted [] registry = (registry, [])
  remove_gone wanted (name ∷ prev) registry =
      let kept = remove_gone wanted prev registry in
      let rest = remove_gone wanted prev (ProviderRegistry.unregister name registry).0 in
      if includes name wanted then kept else (rest.0, name ∷ rest.1)

  -- One round of the second loop.
  pub add_built : (prev : List String) → (name : String) → Built P → Progress → Progress
  add_built prev name (failed reason) s = record s { skipped = s.skipped ++ (name, reason) ∷ [] }
  add_built prev name (built p) s =
      let was_kept = is_some (ProviderRegistry.get name s.registry) && includes name prev in
      record s {
        registry = ProviderRegistry.register name p s.registry;
        owned_after = s.owned_after ++ name ∷ [];
        kept = if was_kept then s.kept ++ name ∷ [] else s.kept;
        added = if was_kept then s.added else s.added ++ name ∷ [];
      }

  pub add_entries : (prev : List String) → List SiriusProviderFileEntry → Progress → Progress
  unfolding add_built
  add_entries prev [] s = s
  add_entries prev (e ∷ entries) s =
      add_entries prev entries (add_built prev e.name (build_entry e) s)

  abbrev pub start : Dict P → Progress
  start registry = record {
    registry = registry;
    added = [];
    kept = [];
    skipped = [];
    owned_after = [];
  }

  pub record Reconciled : Type 0 where
    pub registry : Dict P
    pub result : FromFileReloadResult
    pub owned_after : List String

  -- `entries` is what `loadProvidersFile` gives.
  pub reconcile_from_file_providers :
      String → List SiriusProviderFileEntry → Dict P → (previously_owned : List String) → Reconciled
  unfolding remove_gone add_entries
  reconcile_from_file_providers path entries registry previously_owned =
      let prev = distinct_from [] previously_owned in
      let gone = remove_gone (names_of entries) prev registry in
      let done = add_entries prev entries (start gone.0) in
      record {
        registry = done.registry;
        result = record {
          path = path;
          added = done.added;
          removed = gone.1;
          kept = done.kept;
          skipped = done.skipped;
        };
        owned_after = done.owned_after;
      }

  -- FromFileReloadService, with the registry that it holds.
  pub record FromFileReloadService : Type 0 where
    pub path : String
    pub owned : List String
    pub registry : Dict P

  -- `load` is nothing when reading the file throws; the service is then as it was.
  pub reload :
      (load : String → Option (List SiriusProviderFileEntry))
      → FromFileReloadService
      → Option FromFileReloadResult × FromFileReloadService
  unfolding reconcile_from_file_providers
  reload load s = elim (load s.path) [
    | none ↦ (none, s)
    | some entries ↦
        let r = reconcile_from_file_providers s.path entries s.registry s.owned in
        (some r.result, record s { owned = r.owned_after; registry = r.registry })
  ]

  boot_one : (name : String) → Built P → Dict P × List String → Dict P × List String
  boot_one name (failed reason) acc = acc
  boot_one name (built p) (registry, owned) =
      (ProviderRegistry.register name p registry, owned ++ name ∷ [])

  -- The loop at the start: every entry that can be built is registered and owned.
  pub boot : List SiriusProviderFileEntry → Dict P × List String → Dict P × List String
  unfolding boot_one
  boot [] acc = acc
  boot (e ∷ entries) acc = boot entries (boot_one e.name (build_entry e) acc)
