-- ===== src/Api/Storage.antt =====
-- apps-api/src/services/storage.service.ts: the object store. The local directory is a function from
-- keys to bytes; SHA-256 is an argument.
use psybot_ai.Base.{ℕ, Option, none, some, ◌++◌, length, if◌then◌else◌}
use psybot_ai.Base.Text.{Text, codes, text_eq}
use psybot_ai.Api.Errors.{Result, ok, http_error}

pub data StorageMode : Type 0 where
  local s3 : StorageMode

abbrev pub Objects : Type 0
Objects = Text → Option Text

pub record PutObjectResult : Type 0 where
  pub key : Text
  pub sha256 : Text
  pub size : ℕ

abbrev pub not_implemented : {A : Type 0} → Result A
not_implemented =
    http_error 501 (codes "STORAGE_NOT_IMPLEMENTED")
      (codes "S3 storage is not implemented in this build")

unfoldable pub write_object : Text → Text → Objects → Objects
unfolding text_eq
write_object key bytes objects = λ k. if text_eq key k then some bytes else objects k

-- `putObject`
unfoldable pub put_object :
    (Text → Text) → StorageMode → Text → Objects → Result (PutObjectResult × Objects)
unfolding http_error write_object
put_object sha256_hex s3 bytes objects = not_implemented
put_object sha256_hex local bytes objects =
    let sha256 = sha256_hex bytes in
    let key = codes "obj/" ++ sha256 in
    ok (record { key = key; sha256 = sha256; size = length bytes }, write_object key bytes objects)

abbrev pub or_missing : {A : Type 0} → Option A → Result A
or_missing none = http_error 404 (codes "NOT_FOUND") (codes "Object not found")
or_missing (some a) = ok a

-- `getObject`, for keys that the store has given out.
unfoldable pub get_object : StorageMode → Objects → Text → Result Text
unfolding http_error
get_object s3 objects key = not_implemented
get_object local objects key = or_missing (objects key)

abbrev size_of : Option Text → Option ℕ
size_of none = none
size_of (some b) = some (length b)

-- `headObject`
unfoldable pub head_object : StorageMode → Objects → Text → Result ℕ
unfolding http_error
head_object s3 objects key = not_implemented
head_object local objects key = or_missing (size_of (objects key))
