-- ===== src/Api/Modules.antt =====
-- apps-api/src/services/module.service.ts: the making of a module. The database, the decoding of
-- base64, JSON and SHA-256 are arguments.
pub mod Artifact
use psybot_ai.Base.{ℕ, Option, none, some, [], ◌∷◌, or_default}
use psybot_ai.Base.Text.{Text, codes}
use psybot_ai.Base.Json.{Json, obj, end}
use psybot_ai.Api.Errors.{Result, err, ok, other, http_error}
use psybot_ai.Api.Storage.{StorageMode, Objects, PutObjectResult, put_object}

pub record CreateModuleInput : Type 0 where
  pub name : Text
  pub version : Text
  pub description : Option Text
  pub manifest : Option Json
  pub artifact_base64 : Option Text

-- The data of a new row.
pub record NewModule : Type 0 where
  pub name : Text
  pub version : Text
  pub description : Option Text
  pub manifest : Json
  pub manifest_sha256 : Text
  pub artifact_key : Option Text
  pub artifact_sha256 : Option Text
  pub artifact_size : Option ℕ
  pub status : Text

pub record Codec : Type 0 where
  pub sha256_hex : Text → Text
  pub stringify : Json → Text
  pub from_base64 : Text → Text

abbrev pub key_of : Option PutObjectResult → Option Text
key_of none = none
key_of (some p) = some p.key

abbrev pub sha256_of : Option PutObjectResult → Option Text
sha256_of none = none
sha256_of (some p) = some p.sha256

abbrev pub size_of : Option PutObjectResult → Option ℕ
size_of none = none
size_of (some p) = some p.size

abbrev pub stored : Result (PutObjectResult × Objects) → Result (Option PutObjectResult × Objects)
stored (err e) = err e
stored (ok (p, objects)) = ok (some p, objects)

-- `if (input.artifactBase64) { ... }`
abbrev pub put_artifact :
    Codec → StorageMode → Option Text → Objects → Result (Option PutObjectResult × Objects)
put_artifact c mode none objects = ok (none, objects)
put_artifact c mode (some []) objects = ok (none, objects)
put_artifact c mode (some (u ∷ b)) objects =
    stored (put_object c.sha256_hex mode (c.from_base64 (u ∷ b)) objects)

abbrev pub new_module : Codec → CreateModuleInput → Option PutObjectResult → NewModule
new_module c input put = record {
  name = input.name;
  version = input.version;
  description = input.description;
  manifest = or_default input.manifest (obj end);
  manifest_sha256 = c.sha256_hex (c.stringify (or_default input.manifest (obj end)));
  artifact_key = key_of put;
  artifact_sha256 = sha256_of put;
  artifact_size = size_of put;
  status = codes "ACTIVE";
}

abbrev missing_name : {A : Type 0} → Result A
missing_name = http_error 400 (codes "VALIDATION_ERROR") (codes "name and version are required")

-- `!input.name || !input.version`
abbrev pub check_names : Text → Text → Result Unit
check_names [] version = missing_name
check_names (c ∷ name) [] = missing_name
check_names (c ∷ name) (d ∷ version) = ok tt

-- The insertion gives the id of the row; `none` is an error of the database.
module _ {W : Type 0} (c : Codec) (create_module : NewModule → W → Option (Text × W)) where
  abbrev pub inserted :
      NewModule → Objects → W → Option (Text × W) → Result (Text × NewModule) × Objects × W
  inserted row objects w none = (err other, objects, w)
  inserted row objects w (some (id, next)) = (ok (id, row), objects, next)

  abbrev pub with_artifact :
      CreateModuleInput
      → Objects
      → W
      → Result (Option PutObjectResult × Objects)
      → Result (Text × NewModule) × Objects × W
  with_artifact input objects w (err e) = (err e, objects, w)
  with_artifact input objects w (ok (put, after)) =
      let row = new_module c input put in inserted row after w (create_module row w)

  abbrev pub with_names :
      StorageMode
      → CreateModuleInput
      → Objects
      → W
      → Result Unit
      → Result (Text × NewModule) × Objects × W
  with_names mode input objects w (err e) = (err e, objects, w)
  with_names mode input objects w (ok u) =
      with_artifact input objects w (put_artifact c mode input.artifact_base64 objects)

  -- `ModuleService.create`; an object that was stored stays when the insertion fails.
  unfoldable pub create :
      StorageMode → CreateModuleInput → Objects → W → Result (Text × NewModule) × Objects × W
  unfolding http_error put_object
  create mode input objects w =
      with_names mode input objects w (check_names input.name input.version)
