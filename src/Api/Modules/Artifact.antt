-- ===== src/Api/Modules/Artifact.antt =====
-- The artifact of a module that ModuleService.create of apps-api/src/services/module.service.ts makes.
use psybot_ai.Base.{
  ◌≡◌, refl, sym, ap, subst, ℕ, Option, none, some, ◌∷◌, ◌++◌, length, if◌then◌else◌,
}
use psybot_ai.Base.Text.{Text, codes, text_eq_iff}
use psybot_ai.Api.Errors.{Result, err, ok, http_error}
use psybot_ai.Api.Storage.{
  StorageMode, local, s3, Objects, put_object, write_object, get_object, or_missing,
}
use psybot_ai.Api.Modules.{
  CreateModuleInput, NewModule, Codec, create, check_names, with_names, with_artifact, inserted,
  put_artifact,
}

-- The row names an object of the store that holds these bytes, with their hash and their number.
abbrev pub HasArtifact : Codec → StorageMode → Text → NewModule → Objects → Type 0
HasArtifact c mode bytes row objects =
    (key : Text) × (row.artifact_key ≡ some key)
    × (get_object mode objects key ≡ ok bytes)
    × (row.artifact_sha256 ≡ some (c.sha256_hex bytes))
    × (row.artifact_size ≡ some (length bytes))

module _ {W : Type 0} (c : Codec) (create_module : NewModule → W → Option (Text × W))
    (mode : StorageMode) (bytes : Text) where
  -- What holds of an outcome that is a row.
  Holds : Result (Text × NewModule) × Objects × W → Type 0
  Holds (err e, objects, w) = Unit
  Holds (ok (id, row), objects, w) = HasArtifact c mode bytes row objects

  inserted-Holds :
      (row : NewModule) (objects : Objects) (w : W) (o : Option (Text × W))
      → HasArtifact c mode bytes row objects
      → Holds (inserted c create_module row objects w o)
  unfolding Holds
  inserted-Holds row objects w none h = tt
  inserted-Holds row objects w (some (id, next)) h = h

  Holds-ok :
      (x : Result (Text × NewModule) × Objects × W) (id : Text) (row : NewModule)
      (objects : Objects) (w : W)
      → Holds x
      → x ≡ (ok (id, row), objects, w)
      → HasArtifact c mode bytes row objects
  unfolding Holds
  Holds-ok x id row objects w h e = subst Holds e h

get-write :
    (key bytes : Text) (objects : Objects)
    → get_object local (write_object key bytes objects) key ≡ ok bytes
unfolding get_object write_object
get-write key bytes objects =
    ap (λ b. or_missing (if b then some bytes else objects key)) ((text_eq_iff key key).1 refl)

module _ {W : Type 0} (c : Codec) (create_module : NewModule → W → Option (Text × W)) where
  stored-Holds :
      (mode : StorageMode) (input : CreateModuleInput) (u : ℕ) (b : Text) (objects : Objects)
      (w : W)
      → Holds c create_module mode (c.from_base64 (u ∷ b)) (
          with_artifact c create_module input objects w
            (put_artifact c mode (some (u ∷ b)) objects))
  unfolding Holds put_object http_error
  stored-Holds s3 input u b objects w = tt
  stored-Holds local input u b objects w =
      let bytes = c.from_base64 (u ∷ b) in
      let key = codes "obj/" ++ c.sha256_hex bytes in
      inserted-Holds c create_module local bytes _ _ w _
        (key, refl, get-write key bytes objects, refl, refl)

  named-Holds :
      (mode : StorageMode) (input : CreateModuleInput) (u : ℕ) (b : Text) (objects : Objects)
      (w : W) (r : Result Unit)
      → input.artifact_base64 ≡ some (u ∷ b)
      → Holds c create_module mode
          (c.from_base64 (u ∷ b))
          (with_names c create_module mode input objects w r)
  unfolding Holds
  named-Holds mode input u b objects w (err e) h = tt
  named-Holds mode input u b objects w (ok t) h =
      subst
        (λ a.
          Holds c create_module mode (c.from_base64 (u ∷ b))
            (with_artifact c create_module input objects w (put_artifact c mode a objects)))
        (sym h) (stored-Holds mode input u b objects w)

  -- A module that is made with an artifact names an object that the store then gives back: the
  -- decoded bytes of the artifact, with their hash and their number in the row.
  pub create-HasArtifact :
      (mode : StorageMode) (input : CreateModuleInput) (u : ℕ) (b : Text) (objects : Objects)
      (w : W) (id : Text) (row : NewModule) (after : Objects) (next : W)
      → input.artifact_base64 ≡ some (u ∷ b)
      → create c create_module mode input objects w ≡ (ok (id, row), after, next)
      → HasArtifact c mode (c.from_base64 (u ∷ b)) row after
  unfolding create
  create-HasArtifact mode input u b objects w id row after next h e =
      Holds-ok c create_module mode (c.from_base64 (u ∷ b)) _ id row after next
        (named-Holds mode input u b objects w (check_names input.name input.version) h) e
