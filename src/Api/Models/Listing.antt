-- ===== src/Api/Models/Listing.antt =====
-- apps/sirius-api/src/controllers/models.controller.ts: which ids the list of models has.
use sirius_gateway.Base.{
  ℕ, ◌+◌, String, List, [], ◌∷◌, ◌++◌, if◌then◌else◌, ◌==◌, Bool, eq_iff, ◌≡◌, refl, ◌∙◌, arith,
}
use sirius_gateway.Core.Models.{ModelInfo}
use sirius_gateway.FromFile.Reconcile.{includes}
use sirius_gateway.Api.Models.{ids_of, unseen, merged}

-- How many models of a list have an id.
abbrev pub count : String → List ModelInfo → ℕ
count id [] = 0
count id (m ∷ models) = if m.id == id then 1 + count id models else count id models

abbrev pub once_if : Bool → ℕ
once_if b = if b then 1 else 0

count-append :
    (id : String) (xs ys : List ModelInfo) → count id (xs ++ ys) ≡ count id xs + count id ys
count-append id [] ys = omega arith
count-append id (m ∷ xs) ys = ground (arith, count-append id xs ys)

count-unseen :
    (id : String) (seen : List String) (models : List ModelInfo)
    → count id (unseen seen models)
      ≡ (if includes id seen then 0 else once_if (includes id (ids_of models)))
unfolding unseen
count-unseen id seen [] = ground arith
count-unseen id seen (m ∷ models) =
    ground
      (arith, eq_iff m.id id, count-unseen id seen models, count-unseen id (m.id ∷ seen) models)

count-absent :
    (id : String) (models : List ModelInfo)
    → count id models ≡ (if includes id (ids_of models) then count id models else 0)
count-absent id [] = refl
count-absent id (m ∷ models) = ground (arith, eq_iff m.id id, count-absent id models)

-- The list of models has each id as often as the providers list it; an id that no provider lists
-- appears once if the registry has it, and else not at all.
pub count-merged :
    (id : String) (models registry_models : List ModelInfo)
    → count id (merged models registry_models) ≡ (
        if includes id (ids_of models)
        then count id models
        else once_if (includes id (ids_of registry_models)))
unfolding merged
count-merged id models registry_models =
    count-append id models (unseen (ids_of models) registry_models)
    ∙ ground (arith, count-unseen id (ids_of models) registry_models, count-absent id models)
