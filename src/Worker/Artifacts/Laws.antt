-- ===== src/Worker/Artifacts/Laws.antt =====
-- Reading the store after a write and after a deletion.
use psybot_ai.Base.{◌≡◌, refl, some, if◌then◌else◌}
use psybot_ai.Base.Text.{Text, text_eq, text_eq_iff}
use psybot_ai.Base.Json.{Platform}
use psybot_ai.Worker.Artifacts.{Store, put_bytes, get_bytes}

module _ (platform : Platform) (path_join : Text → Text → Text) where
  -- After a write the key that it returned reads the bytes, and every other key reads as before.
  pub get_bytes-put_bytes :
      (key_prefix bytes content_type : Text) (store : Store) (k : Text)
      → let (ref, store') = put_bytes platform path_join key_prefix bytes content_type store in
        get_bytes k store' ≡ (if text_eq ref.key k then some bytes else get_bytes k store)
  unfolding put_bytes get_bytes
  get_bytes-put_bytes key_prefix bytes content_type store k = refl

  pub get_bytes-put_bytes_self :
      (key_prefix bytes content_type : Text) (store : Store)
      → let (ref, store') = put_bytes platform path_join key_prefix bytes content_type store in
        get_bytes ref.key store' ≡ some bytes
  unfolding put_bytes get_bytes
  get_bytes-put_bytes_self key_prefix bytes content_type store = rw ((text_eq_iff _ _).1 refl)
