-- ===== src/Mcp/Tools/Deregister.antt =====
-- apps/sirius-mcp/src/server.ts with libs/provider-fromfile/src: a wet deregistration and the reload
-- that follows it.
use sirius_gateway.Base.{
  String, true, false, List, [], ◌∷◌, Option, some, none, if◌then◌else◌, ◌==◌, ◌&&◌, not, map, find,
  length, eq_iff, ◌≡◌, refl, subst, ◌∙◌, arith,
}
use sirius_gateway.Base.Dict.{Dict}
use sirius_gateway.Core.ProviderRegistry
use sirius_gateway.FromFile.{
  SiriusProviderFileEntry, Built, Environment, entry, providers, load_providers_file,
}
use sirius_gateway.FromFile.Reconcile.{includes, names_of, FromFileReloadService, reload}
use sirius_gateway.FromFile.Reconcile.Lookup.{last_built, get-reconcile}
use sirius_gateway.FromFile.Reconcile.Reload.{after, reload-after}
use sirius_gateway.FromFile.Loading.{written, load_providers_file-written}
use sirius_gateway.Mcp.Fetch.{HttpReply, fetch_json}
use sirius_gateway.Mcp.Tools.{
  Deregistration, Audit, wet, deregister, name_and_kind, remaining_of, path_of, remove_target,
  deregister_from, deregister_provider,
}

includes-remaining_of :
    (name other : String) (entries : List SiriusProviderFileEntry)
    → includes other (names_of (remaining_of name entries))
      ≡ (includes other (names_of entries) && not (name == other))
includes-remaining_of name other [] = refl
includes-remaining_of name other (e ∷ entries) = ground (
  arith,
  eq_iff e.name name,
  eq_iff e.name other,
  eq_iff name other,
  includes-remaining_of name other entries,
)

module _ {P : Type 0} (build_entry : SiriusProviderFileEntry → Built P) where
  last_built-remaining_of :
      (name other : String) (entries : List SiriusProviderFileEntry)
      → last_built build_entry other (remaining_of name entries)
        ≡ (if name == other then none else last_built build_entry other entries)
  last_built-remaining_of name other [] = ground arith
  last_built-remaining_of name other (e ∷ entries) = ground (
    arith,
    eq_iff e.name name,
    eq_iff e.name other,
    eq_iff name other,
    last_built-remaining_of name other entries,
  )

  get-after-remaining_of :
      (name other path : String) (entries : List SiriusProviderFileEntry) (registry : Dict P)
      (owned : List String)
      → includes name owned ≡ true
      → ProviderRegistry.get other
          (after build_entry path (remaining_of name entries) registry owned).registry
        ≡ (if name == other
            then none
            else ProviderRegistry.get other
                (after build_entry path entries registry owned).registry)
  get-after-remaining_of name other path entries registry owned h =
      let owned_too : name == other ≡ true → includes other owned ≡ true =
        λ same. subst (λ n. includes n owned ≡ true) ((eq_iff name other).0 same) h in
      get-reconcile build_entry other path (remaining_of name entries) registry owned
      ∙ (rw
          (
            last_built-remaining_of name other entries,
            includes-remaining_of name other entries,
            get-reconcile build_entry other path entries registry owned,
          )
          (ground (arith, owned_too)))

  -- If the provider file has an entry of a name, which the loader owns, a wet deregistration of the
  -- name writes a file such that, after a reload of it, the name finds nothing, and every other name
  -- finds what it would find after a reload of the file as it was. The YAML parser must read back
  -- what the printer writes for the entries that remain.
  pub deregister_provider-reload :
      {J : Type 0} (env : Environment) (parse : String → Option J)
      (stringify_yaml : List SiriusProviderFileEntry → String) (post : String → HttpReply)
      (s : FromFileReloadService build_entry) (entries : List SiriusProviderFileEntry)
      → load_providers_file env s.path ≡ some entries
      → (name : String) (target : SiriusProviderFileEntry)
      → env.parse_yaml (stringify_yaml (remaining_of name entries))
        ≡ providers (map entry (remaining_of name entries))
      → find (λ (p : SiriusProviderFileEntry). p.name == name) entries ≡ some target
      → includes name s.owned ≡ true
      → (answer : Deregistration J) × (text : String) × (audit : Audit) × (deregister_provider env
            parse stringify_yaml post name
            (some false)
            (some s.path)
          ≡ some ((answer, some text), audit))
        × ((other : String)
            → ProviderRegistry.get other
                (reload build_entry (load_providers_file (written s.path text env)) s).1.registry
              ≡ (if name == other
                  then none
                  else ProviderRegistry.get other
                      (reload build_entry (load_providers_file env) s).1.registry))
  unfolding deregister_provider path_of deregister_from remove_target
  deregister_provider-reload env parse stringify_yaml post s entries load name target yaml there
        owned =
      let remaining = remaining_of name entries in
      let text = stringify_yaml remaining in
      (
        wet s.path (name_and_kind target) (length remaining) (map name_and_kind remaining)
            (fetch_json parse (post text)),
        text,
        deregister name false s.path true (length remaining),
        rw (deregister_provider, load, there) refl,
        λ other.
            rw
              (
                reload-after build_entry (load_providers_file env) s entries load,
                reload-after build_entry (load_providers_file (written s.path text env)) s remaining
                    (load_providers_file-written env s.path text remaining yaml),
              )
              (get-after-remaining_of name other s.path entries s.registry s.owned owned),
      )
