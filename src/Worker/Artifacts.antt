-- ===== src/Worker/Artifacts.antt =====
-- apps-worker/src/services/artifacts.ts and attestation.ts: a store of byte strings under the hash
-- of their content, and attestations. The files of the store are a function from keys to bytes;
-- `path.join` of a prefix and a hash is a parameter.
pub mod Laws
use psybot_ai.Base.{ℕ, Bool, Option, none, some, ◌++◌, if◌then◌else◌, length, String}
use psybot_ai.Base.Text.{Text, codes, text_eq}
use psybot_ai.Base.Json.{Json, Platform}

pub record ArtifactRef : Type 0 where
  pub key : Text
  pub sha256 : Text
  pub size : ℕ
  pub content_type : Text

abbrev pub Store : Type 0
Store = Text → Option Text

pub record Attestation : Type 0 where
  pub sha256 : Text
  pub payload_sha256 : Text
  pub created_at : Text
  pub signer : Text
  pub signature : Text

module _ (platform : Platform) (path_join : Text → Text → Text) where
  unfoldable pub put_bytes : Text → Text → Text → Store → ArtifactRef × Store
  unfolding text_eq
  put_bytes key_prefix bytes content_type store =
      let sha = platform.sha256_hex bytes in
      let key = path_join key_prefix sha in
      (
        record { key = key; sha256 = sha; size = length bytes; content_type = content_type },
        λ k. if text_eq key k then some bytes else store k,
      )

-- `readFile`; `none` is a throw.
unfoldable pub get_bytes : Text → Store → Option Text
get_bytes key store = store key

-- `rm(file, { force: true })`
unfoldable pub delete : Text → Store → Store
unfolding text_eq
delete key store = λ k. if text_eq key k then none else store k

-- `createAttestation`, at the time `created_at`.
unfoldable pub create_attestation : Platform → Text → Json → Attestation
create_attestation platform created_at payload =
    let payload_sha = platform.sha256_hex (platform.stringify payload) in
    let sha = platform.sha256_hex (payload_sha ++ created_at) in
    record {
      sha256 = sha;
      payload_sha256 = payload_sha;
      created_at = created_at;
      signer = codes "ephemeral";
      signature = platform.sha256_hex (codes "nuttoo" ++ sha);
    }
