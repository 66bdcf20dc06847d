-- ===== src/Agent/Cache/Replay.antt =====
-- The cache over any sequence of calls, against a map whose values run out.
use psybot_ai.Base.{
  ℕ, ◌+◌, ◌≤◌, ◌≡◌, refl, ap, ◌∙◌, Option, none, some, List, [], ◌∷◌, arith, ltb, if◌then◌else◌,
  or_default,
}
use psybot_ai.Base.Text.{Text, text_eq}
use psybot_ai.Agent.Cache.{CacheEntry, MemoryCache, find, get_entry, get, set, delete, clear}
use psybot_ai.Agent.Cache.Lookup.{view, get-view, set-view, delete-view}

-- A call, and the time of a read or a write.
pub data Call (T : Type 0) : Type 0 where
  get_at : ℕ → Text → Call T
  set_at : ℕ → Text → T → Option ℕ → Call T
  delete_it : Text → Call T
  clear_it : Call T

-- The abstract cache: what a key shows at a time.
abbrev pub Shown : Type 0 → Type 0
Shown T = ℕ → Text → Option T

module _ {T : Type 0} where
  -- What the reads of a sequence of calls return.
  unfoldable pub run : List (Call T) → MemoryCache T → List (Option T)
  run [] c = []
  run (get_at now k ∷ calls) c = (get now k c).0 ∷ run calls (get now k c).1
  run (set_at now k v ttl ∷ calls) c = run calls (set now k v ttl c)
  run (delete_it k ∷ calls) c = run calls (delete k c)
  run (clear_it ∷ calls) c = run calls (clear c)

  -- The same calls on the abstract cache, of which a read changes nothing.
  unfoldable pub replay : ℕ → List (Call T) → Shown T → List (Option T)
  replay ttl_ms [] f = []
  replay ttl_ms (get_at now k ∷ calls) f = f now k ∷ replay ttl_ms calls f
  replay ttl_ms (set_at now k v ttl ∷ calls) f = replay ttl_ms calls (λ t j.
      if text_eq k j then (if ltb (now + or_default ttl ttl_ms) t then none else some v) else f t j)
  replay ttl_ms (delete_it k ∷ calls) f =
      replay ttl_ms calls (λ t j. if text_eq k j then none else f t j)
  replay ttl_ms (clear_it ∷ calls) f = replay ttl_ms calls (λ t j. none)

  -- The times of the calls do not go back.
  abbrev pub IsOrdered : ℕ → List (Call T) → Type 0
  IsOrdered t [] = Unit
  IsOrdered t (get_at now k ∷ calls) = (t ≤ now) × IsOrdered now calls
  IsOrdered t (set_at now k v ttl ∷ calls) = (t ≤ now) × IsOrdered now calls
  IsOrdered t (delete_it k ∷ calls) = IsOrdered t calls
  IsOrdered t (clear_it ∷ calls) = IsOrdered t calls

  -- From a time on the cache shows what the abstract one does.
  Agrees : ℕ → MemoryCache T → Shown T → Type 0
  Agrees t c f = (now : ℕ) (j : Text) → t ≤ now → view now j c ≡ f now j

  get_entry_ttl :
      (now : ℕ) (k : Text) (c : MemoryCache T) (o : Option (CacheEntry T))
      → (get_entry now k c o).1.default_ttl_ms ≡ c.default_ttl_ms
  unfolding get_entry
  get_entry_ttl now k c none = refl
  get_entry_ttl now k c (some e) = ground arith

  -- No call changes the default time.
  get_ttl :
      (now : ℕ) (k : Text) (c : MemoryCache T) → (get now k c).1.default_ttl_ms ≡ c.default_ttl_ms
  unfolding get
  get_ttl now k c = get_entry_ttl now k c (find k c.map)

  set_ttl :
      (now : ℕ) (k : Text) (v : T) (ttl : Option ℕ) (c : MemoryCache T)
      → (set now k v ttl c).default_ttl_ms ≡ c.default_ttl_ms
  unfolding set
  set_ttl now k v ttl c = refl

  delete_ttl : (k : Text) (c : MemoryCache T) → (delete k c).default_ttl_ms ≡ c.default_ttl_ms
  unfolding delete
  delete_ttl k c = refl

  clear_ttl : (c : MemoryCache T) → (clear c).default_ttl_ms ≡ c.default_ttl_ms
  unfolding clear
  clear_ttl c = refl

  run-Agrees :
      (calls : List (Call T)) (t : ℕ) (c : MemoryCache T) (f : Shown T)
      → IsOrdered t calls
      → Agrees t c f
      → run calls c ≡ replay c.default_ttl_ms calls f
  unfolding run replay Agrees
  run-Agrees [] t c f o h = refl
  run-Agrees (get_at now k ∷ calls) t c f (o, os) h =
      let later =
        λ (n : ℕ) (j : Text) (p : now ≤ n). (get-view now n k j c p).1 ∙ h n j (omega arith) in
      let shown = (get-view now now k k c (omega arith)).0 ∙ h now k o in
      let rest = run-Agrees calls now (get now k c).1 f os later in
      rw (shown, rest, get_ttl now k c) refl
  run-Agrees (set_at now k v ttl ∷ calls) t c f (o, os) h =
      let g : Shown T = λ n j.
        if text_eq k j
        then (if ltb (now + or_default ttl c.default_ttl_ms) n then none else some v)
        else f n j in
      let later = λ (n : ℕ) (j : Text) (p : now ≤ n).
        set-view now n k j v ttl c
        ∙ ap
            (λ x.
              if text_eq k j
              then (if ltb (now + or_default ttl c.default_ttl_ms) n then none else some v)
              else x)
            (h n j (omega arith)) in
      run-Agrees calls now (set now k v ttl c) g os later
      ∙ ap (λ d. replay d calls g) (set_ttl now k v ttl c)
  run-Agrees (delete_it k ∷ calls) t c f os h =
      let g : Shown T = λ n j. if text_eq k j then none else f n j in
      let later = λ (n : ℕ) (j : Text) (p : t ≤ n).
        (delete-view n k j c).0 ∙ ap (λ x. if text_eq k j then none else x) (h n j p) in
      run-Agrees calls t (delete k c) g os later ∙ ap (λ d. replay d calls g) (delete_ttl k c)
  run-Agrees (clear_it ∷ calls) t c f os h =
      let later = λ (n : ℕ) (j : Text) (p : t ≤ n). (delete-view n j j c).1 in
      run-Agrees calls t (clear c) (λ n j. none) os later
      ∙ ap (λ d. replay d calls (λ n j. none)) (clear_ttl c)

  -- Whatever calls are made, at times that do not go back, the reads return what they return on a
  -- map that shows at first what the cache shows, from which values vanish by themselves when their
  -- time is over, and in which a read changes nothing.
  pub run-replay :
      (calls : List (Call T)) (t : ℕ) (c : MemoryCache T)
      → IsOrdered t calls
      → run calls c ≡ replay c.default_ttl_ms calls (λ now j. view now j c)
  unfolding Agrees
  run-replay calls t c o = run-Agrees calls t c (λ now j. view now j c) o (λ now j h. refl)
