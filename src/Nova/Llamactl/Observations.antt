-- ===== src/Nova/Llamactl/Observations.antt =====
-- libs/provider-llamactl/src/llamactl.adapter.ts: which call gets which usage observation.
use sirius_gateway.Base.{
  String, List, [], ◌∷◌, Option, some, none, if◌then◌else◌, ◌==◌, or_else, truthy, ◌≡◌, refl, ap,
  ◌∙◌, arith,
}
use sirius_gateway.Base.Dict
use sirius_gateway.Base.Dict.{Dict}
use sirius_gateway.Nova.Llamactl.{Awaited, resolved, failed, note, observe, with_observation}

module _ {O : Type 0} where
  abbrev own : String → Option String → O → Option O
  own attempt none o = none
  own attempt (some id) o = if id == attempt then some o else none

  -- The last snapshot of an attempt.
  abbrev pub last_of : String → List (Option String × O) → Option O
  last_of attempt [] = none
  last_of attempt ((id, o) ∷ snapshots) =
      or_else (last_of attempt snapshots) (own attempt (truthy id) o)

  or_else_assoc : (a b c : Option O) → or_else a (or_else b c) ≡ or_else (or_else a b) c
  or_else_assoc none b c = refl
  or_else_assoc (some a) b c = refl

  get-note :
      (attempt : String) (id : Option String) (o : O) (observations : Dict O)
      → Dict.get attempt (note id o observations)
        ≡ or_else (own attempt id o) (Dict.get attempt observations)
  unfolding note
  get-note attempt none o observations = refl
  get-note attempt (some k) o observations = ground (arith, Dict.get-set k attempt o observations)

  get-observe :
      (attempt : String) (snapshots : List (Option String × O)) (observations : Dict O)
      → Dict.get attempt (observe observations snapshots)
        ≡ or_else (last_of attempt snapshots) (Dict.get attempt observations)
  unfolding observe
  get-observe attempt [] observations = refl
  get-observe attempt ((id, o) ∷ snapshots) observations =
      get-observe attempt snapshots (note (truthy id) o observations)
      ∙ (ap (or_else (last_of attempt snapshots)) (get-note attempt (truthy id) o observations)
          ∙ or_else_assoc (last_of attempt snapshots) (own attempt (truthy id) o)
              (Dict.get attempt observations))

  or_else-none : (a : Option O) → or_else a none ≡ a
  or_else-none none = refl
  or_else-none (some a) = refl

  taken :
      (attempt other : String) (snapshots : List (Option String × O)) (observations : Dict O)
      → Dict.get other (Dict.delete attempt (observe observations snapshots)) ≡ (
          if attempt == other
          then none
          else or_else (last_of other snapshots) (Dict.get other observations))
  taken attempt other snapshots observations =
      Dict.get-delete attempt other (observe observations snapshots)
      ∙ rw (get-observe other snapshots observations) refl

  module _ {A B : Type 0} (translate : A → B) where
    -- What a call is given as its observation.
    abbrev pub observation_of : Awaited (B × Option O) → Option O
    observation_of (failed message) = none
    observation_of (resolved (b, o)) = o

    -- However many calls share the adapter, a call whose attempt has no entry yet gets the last
    -- observation of its own attempt, and none if there was none.
    pub with_observation-own :
        (attempt : String) (snapshots : List (Option String × O)) (res : A) (observations : Dict O)
        → Dict.get attempt observations ≡ none
        → (with_observation translate attempt snapshots (resolved res) observations).0
          ≡ resolved (translate res, last_of attempt snapshots)
    unfolding with_observation
    with_observation-own attempt snapshots res observations fresh =
        ap (λ o. resolved (translate res, o))
          (get-observe attempt snapshots observations
            ∙ rw fresh (or_else-none (last_of attempt snapshots)))

    -- Afterwards, also after a failure, no entry of the attempt is left, and every other attempt has
    -- the entry that the snapshots have left it.
    pub get-with_observation :
        (attempt other : String) (snapshots : List (Option String × O)) (awaited : Awaited A)
        (observations : Dict O)
        → Dict.get other (with_observation translate attempt snapshots awaited observations).1 ≡ (
            if attempt == other
            then none
            else or_else (last_of other snapshots) (Dict.get other observations))
    unfolding with_observation
    get-with_observation attempt other snapshots (resolved res) observations =
        taken attempt other snapshots observations
    get-with_observation attempt other snapshots (failed message) observations =
        taken attempt other snapshots observations
