-- ===== src/Agent/Cache.antt =====
-- apps-agent/src/storage/cache.ts: a cache in memory whose entries run out. `Date.now()` is an
-- argument; the map is an association list.
pub mod Lookup
pub mod Replay
use psybot_ai.Base.{ℕ, ◌+◌, Bool, Option, none, some, List, [], ◌∷◌, ltb, if◌then◌else◌, or_default}
use psybot_ai.Base.Text.{Text, text_eq}

pub record CacheEntry (T : Type 0) : Type 0 where
  pub value : T
  pub expires_at : ℕ

abbrev pub MapOf : Type 0 → Type 0
MapOf T = List (Text × CacheEntry T)

pub record MemoryCache (T : Type 0) : Type 0 where
  pub map : MapOf T
  pub default_ttl_ms : ℕ

module _ {T : Type 0} where
  unfoldable pub find : Text → MapOf T → Option (CacheEntry T)
  unfolding text_eq
  find k [] = none
  find k ((j, e) ∷ m) = if text_eq j k then some e else find k m

  unfoldable pub put : Text → CacheEntry T → MapOf T → MapOf T
  unfolding text_eq
  put k e [] = (k, e) ∷ []
  put k e ((j, d) ∷ m) = if text_eq j k then (j, e) ∷ m else (j, d) ∷ put k e m

  unfoldable pub erase : Text → MapOf T → MapOf T
  unfolding text_eq
  erase k [] = []
  erase k ((j, d) ∷ m) = let rest = erase k m in if text_eq j k then rest else (j, d) ∷ rest

  -- An entry that has run out is deleted.
  unfoldable pub get_entry :
      ℕ → Text → MemoryCache T → Option (CacheEntry T) → Option T × MemoryCache T
  unfolding erase
  get_entry now key c none = (none, c)
  get_entry now key c (some e) =
      if ltb e.expires_at now then (none, record c { map = erase key c.map }) else (some e.value, c)

  -- `get`
  unfoldable pub get : ℕ → Text → MemoryCache T → Option T × MemoryCache T
  unfolding get_entry find
  get now key c = get_entry now key c (find key c.map)

  -- `set`
  unfoldable pub set : ℕ → Text → T → Option ℕ → MemoryCache T → MemoryCache T
  unfolding put
  set now key value ttl_ms c =
      let ttl = or_default ttl_ms c.default_ttl_ms in
      record c { map = put key (record { value = value; expires_at = now + ttl }) c.map }

  unfoldable pub delete : Text → MemoryCache T → MemoryCache T
  unfolding erase
  delete key c = record c { map = erase key c.map }

  unfoldable pub clear : MemoryCache T → MemoryCache T
  clear c = record c { map = [] }
