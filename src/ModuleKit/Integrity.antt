-- ===== src/ModuleKit/Integrity.antt =====
-- packages/module-kit/src/pack and src/validate/validate-signature.ts, with verifyPayload of
-- packages/crypto/src/signing.ts: the hash that packing writes into a manifest, and its check. The
-- stable printing, the hash and the signatures are parameters.
pub mod Mismatch
use psybot_ai.Base.{
  ℕ, Bool, true, false, ◌≡◌, ◌&&◌, not, [], ◌∷◌, Option, none, some, if◌then◌else◌, ℤ, pos, negsuc,
  ◌==◌,
}
use psybot_ai.Base.Text.{Text, codes, text_eq}
use psybot_ai.Base.Json.{Json, null, bool, num, str, arr, obj, Fields, end, field, get_field, get}

-- `delete o[k]`
unfoldable pub remove_field : Text → Fields → Fields
unfolding text_eq
remove_field k end = end
remove_field k (field j v fs) =
    let rest = remove_field k fs in if text_eq j k then rest else field j v rest

-- `o[k] = v`
unfoldable pub set_field : Text → Json → Fields → Fields
unfolding text_eq remove_field
set_field k v end = field k v end
set_field k v (field j w fs) =
    let rest = set_field k v fs in
    if text_eq j k then field k v (remove_field k fs) else field j w rest

pub record Crypto : Type 0 where
  pub stable_stringify : Json → Text
  pub sha256_hex : Text → Text
  pub stringify : Json → Text
  pub verify_detached : Text → Text → Text → Bool
  -- Equal texts come from objects with the same properties.
  pub stable-get :
      (x y : Fields)
      → stable_stringify (obj x) ≡ stable_stringify (obj y)
      → (k : Text) → get_field k x ≡ get_field k y

-- `integrityOfManifest`: the hash.
unfoldable pub hash_of : Crypto → Fields → Text
hash_of c manifest = c.sha256_hex (c.stable_stringify (obj manifest))

abbrev pub integrity_json : Text → Json
integrity_json hash =
    obj (field (codes "alg") (str (codes "sha256")) (field (codes "hash") (str hash) end))

-- `manifest.integrity = integrity` of `packModule`.
unfoldable pub pack : Crypto → Fields → Fields
unfolding hash_of set_field
pack c manifest = set_field (codes "integrity") (integrity_json (hash_of c manifest)) manifest

abbrev pub is_text : Option Json → Text → Bool
is_text (some (str s)) t = text_eq s t
is_text _ t = false

-- `verifyIntegrity`
unfoldable pub verify_integrity : Crypto → Fields → Json → Bool
unfolding hash_of get text_eq
verify_integrity c manifest integrity =
    is_text (get (codes "alg") integrity) (codes "sha256")
    && is_text (get (codes "hash") integrity) (hash_of c manifest)

abbrev text_of : Option Json → Text
text_of (some (str s)) = s
text_of _ = []

-- `verifyPayload`; `Buffer.from(_, "hex")` is part of the parameter.
unfoldable pub verify_payload : Crypto → Fields → Json → Bool
unfolding get text_eq
verify_payload c payload env =
    let digest = c.sha256_hex (c.stringify (obj payload)) in
    is_text (get (codes "hash") env) digest
    && c.verify_detached digest (text_of (get (codes "sig") env))
        (text_of (get (codes "pubkey") env))

-- A value that counts as true.
unfoldable pub truthy : Json → Bool
truthy null = false
truthy (bool b) = b
truthy (num (pos n)) = not (n == 0)
truthy (num (negsuc n)) = true
truthy (str []) = false
truthy (str (_ ∷ _)) = true
truthy (arr _) = true
truthy (obj _) = true

pub data Verdict : Type 0 where
  valid missing_integrity integrity_mismatch missing_signature signature_invalid : Verdict

-- `stripSignatureFields`
unfoldable pub strip_signature_fields : Fields → Fields
unfolding remove_field
strip_signature_fields m = remove_field (codes "signature") m

check_signature : Crypto → Fields → Option Json → Verdict
check_signature c m none = missing_signature
check_signature c m (some s) =
    if not (truthy s)
    then missing_signature
    else if verify_payload c (strip_signature_fields m) s
    then valid
    else signature_invalid

check_integrity : Crypto → Fields → Option Json → Verdict
unfolding check_signature
check_integrity c m none = missing_integrity
check_integrity c m (some i) =
    if not (truthy i)
    then missing_integrity
    else if verify_integrity c (strip_signature_fields m) i
    then check_signature c m (get_field (codes "signature") m)
    else integrity_mismatch

-- `validateSignature`
unfoldable pub validate_signature : Crypto → Fields → Verdict
unfolding check_integrity
validate_signature c m = check_integrity c m (get_field (codes "integrity") m)
