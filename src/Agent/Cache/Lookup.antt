-- ===== src/Agent/Cache/Lookup.antt =====
-- What the cache returns after each operation.
use psybot_ai.Base.{
  ℕ, ◌+◌, ◌≤◌, ◌≡◌, refl, Option, none, some, [], ◌∷◌, arith, ltb, if◌then◌else◌, or_default,
}
use psybot_ai.Base.Text.{Text, text_eq, text_eq_iff}
use psybot_ai.Agent.Cache.{
  CacheEntry, MapOf, MemoryCache, find, put, erase, get_entry, get, set, delete, clear,
}

module _ {T : Type 0} where
  find-put :
      (k j : Text) (e : CacheEntry T) (m : MapOf T)
      → find j (put k e m) ≡ (if text_eq k j then some e else find j m)
  unfolding find put
  find-put k j e [] = refl
  find-put k j e ((i, d) ∷ m) =
      ground (arith, text_eq_iff k j, text_eq_iff i k, text_eq_iff i j, find-put k j e m)

  find-erase :
      (k j : Text) (m : MapOf T) → find j (erase k m) ≡ (if text_eq k j then none else find j m)
  unfolding find erase
  find-erase k j [] = ground arith
  find-erase k j ((i, d) ∷ m) =
      ground (arith, text_eq_iff k j, text_eq_iff i k, text_eq_iff i j, find-erase k j m)

  visible : ℕ → Option (CacheEntry T) → Option T
  visible now none = none
  visible now (some e) = if ltb e.expires_at now then none else some e.value

  -- The cache as its users see it: the value under a key at a time.
  pub view : ℕ → Text → MemoryCache T → Option T
  unfolding visible
  view now k c = visible now (find k c.map)

  get_entry-view :
      (now later : ℕ) (k j : Text) (c : MemoryCache T) (o : Option (CacheEntry T))
      → find k c.map ≡ o
      → now ≤ later
      → ((get_entry now k c o).0 ≡ visible now o)
        × (view later j (get_entry now k c o).1 ≡ view later j c)
  unfolding get_entry view
  get_entry-view now later k j c none e h = (refl, refl)
  get_entry-view now later k j c (some d) e h =
      ground (arith, find-erase k j c.map, text_eq_iff k j)

  -- A read returns what is visible, and the deletion that it may make is never seen: every key
  -- shows at every later time what it would have shown without the read.
  pub get-view :
      (now later : ℕ) (k j : Text) (c : MemoryCache T)
      → now ≤ later
      → ((get now k c).0 ≡ view now k c) × (view later j (get now k c).1 ≡ view later j c)
  unfolding get view
  get-view now later k j c h = get_entry-view now later k j c (find k c.map) refl h

  -- After a write the key shows the value up to the end of its time, which is the given one or the
  -- default, and nothing after it; every other key shows what it did.
  pub set-view :
      (stored now : ℕ) (k j : Text) (v : T) (ttl_ms : Option ℕ) (c : MemoryCache T)
      → view now j (set stored k v ttl_ms c) ≡ (
          if text_eq k j
          then (if ltb (stored + or_default ttl_ms c.default_ttl_ms) now then none else some v)
          else view now j c)
  unfolding set view
  set-view stored now k j v ttl_ms c =
      let e : CacheEntry T = record {
        value = v;
        expires_at = stored + or_default ttl_ms c.default_ttl_ms;
      } in
      ground (arith, find-put k j e c.map)

  -- A deleted key shows nothing, and every other key what it did; a cleared cache shows nothing.
  pub delete-view :
      (now : ℕ) (k j : Text) (c : MemoryCache T)
      → (view now j (delete k c) ≡ (if text_eq k j then none else view now j c))
        × (view now j (clear c) ≡ none)
  unfolding delete clear view find
  delete-view now k j c = (ground (arith, find-erase k j c.map), refl)
