-- ===== src/FromFile/Loading.antt =====
-- libs/provider-fromfile/src/loader.ts: reading a file that has been written.
use sirius_gateway.Base.{
  String, List, [], ◌∷◌, some, if◌then◌else◌, ◌==◌, map, eq_refl, ◌≡◌, refl, ap,
}
use sirius_gateway.FromFile.{
  SiriusProviderFileEntry, entry, providers, Environment, contents, load_providers_file, load_file,
  entries_of, entries_only,
}

-- The environment once a text has been written to a path.
abbrev pub written : (path text : String) → Environment → Environment
written path text env = record env { file = λ p. if p == path then contents text else env.file p }

entries_only-map :
    (entries : List SiriusProviderFileEntry) → entries_only (map entry entries) ≡ entries
entries_only-map [] = refl
entries_only-map (e ∷ entries) = ap (λ es. e ∷ es) (entries_only-map entries)

pub load_providers_file-written :
    (env : Environment) (path text : String) (entries : List SiriusProviderFileEntry)
    → env.parse_yaml text ≡ providers (map entry entries)
    → load_providers_file (written path text env) path ≡ some entries
unfolding load_providers_file load_file entries_of
load_providers_file-written env path text entries h =
    rw (eq_refl path, h) (ap some (entries_only-map entries))
