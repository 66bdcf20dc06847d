-- ===== src/Scripts/EnvFile/RoundTrip.antt =====
-- Reading back a file that was written: split into lines, then by key.
use psybot_ai.Base.{
  ℕ, Bool, true, false, ◌≡◌, refl, sym, ap, ◌∙◌, subst, inl, inr, Option, none, some, List, [], ◌∷◌,
  ◌++◌, map, reverse, append-nil, append_assoc, arith, if◌then◌else◌, Bool-cases, All,
}
use mathlib.Core.List.{reverse-cons}
use psybot_ai.Base.Text.{Text, is_space, text_eq, text_eq_iff}
use psybot_ai.Scripts.EnvFile.{
  Kv, get, set, keys, mem, end_line, split_lines, parse_line, read_lines, parse_env_file,
  needs_quotes, render_value, render_line, join_lines, ordered_keys, serialize_env_file,
}
use psybot_ai.Scripts.EnvFile.Lookup.{get-set, mem-keys, mem-ordered_keys, All-mem}
use psybot_ai.Base.{All-append, is_some}
use psybot_ai.Scripts.EnvFile.Values.{
  NoBreak, IsKey, IsValue, KeyUnit, ValueUnit, render_value_quoted, render_value_plain,
  parse_line-render_value,
}

end_line-reverse : (acc : Text) → All NoBreak acc → end_line acc ≡ reverse acc
unfolding end_line
end_line-reverse [] h = refl
end_line-reverse (c ∷ acc) ((_, h), _) = rw h

split_lines-onto :
    (acc l rest : Text)
    → All NoBreak acc
    → All NoBreak l
    → split_lines acc (l ++ (b'\n' ∷ rest)) ≡ (reverse acc ++ l) ∷ split_lines [] rest
unfolding split_lines
split_lines-onto acc [] rest h k = rw (end_line-reverse acc h, append-nil)
split_lines-onto acc (c ∷ l) rest h ((a, b), k) = rw a (
    split_lines-onto (c ∷ acc) l rest ((a, b), h) k
    ∙ ap (λ s. s ∷ split_lines [] rest)
        (ap (λ r. r ++ l) (reverse-cons c acc) ∙ append_assoc (reverse acc) (c ∷ []) l))

-- A line is split off at its line feed.
split_lines-line :
    (l rest : Text) → All NoBreak l → split_lines [] (l ++ (b'\n' ∷ rest)) ≡ l ∷ split_lines [] rest
split_lines-line l rest h = split_lines-onto [] l rest tt h

split_lines-header :
    (ls : List Text) (rest : Text)
    → All (All NoBreak) ls
    → split_lines [] (join_lines (ls ++ [] ∷ []) ++ rest) ≡ ls ++ split_lines [] rest
unfolding join_lines
split_lines-header [] rest h = refl
split_lines-header (l ∷ []) rest (h, _) =
    ap (split_lines []) (append_assoc l (b'\n' ∷ []) rest) ∙ split_lines-line l rest h
split_lines-header (l ∷ m ∷ ls) rest (h, k) =
    ap (split_lines []) (append_assoc l (b'\n' ∷ join_lines (m ∷ ls ++ [] ∷ [])) rest)
    ∙ split_lines-line l (join_lines (m ∷ ls ++ [] ∷ []) ++ rest) h
    ∙ ap (λ r. l ∷ r) (split_lines-header (m ∷ ls) rest k)

-- The lines of the body, and the empty one behind the last line feed.
split_lines-body :
    (l : Text) (ls : List Text)
    → All (All NoBreak) (l ∷ ls)
    → split_lines [] (join_lines (l ∷ ls) ++ b'\n' ∷ []) ≡ (l ∷ ls) ++ [] ∷ []
unfolding join_lines split_lines
split_lines-body l [] (h, _) = split_lines-line l [] h
split_lines-body l (m ∷ ls) (h, k) =
    ap (split_lines []) (append_assoc l (b'\n' ∷ join_lines (m ∷ ls)) (b'\n' ∷ []))
    ∙ split_lines-line l (join_lines (m ∷ ls) ++ b'\n' ∷ []) h
    ∙ ap (λ r. l ∷ r) (split_lines-body m ls k)

NoBreak-plain : (c : ℕ) → is_space c ≡ false → NoBreak c
unfolding is_space
NoBreak-plain c h = ground arith

NoBreak-key : (k : Text) → All KeyUnit k → All NoBreak k
NoBreak-key [] h = tt
NoBreak-key (c ∷ k) ((a, _), h) = (NoBreak-plain c a, NoBreak-key k h)

NoBreak-value : (v : Text) → All ValueUnit v → All NoBreak v
NoBreak-value [] h = tt
NoBreak-value (c ∷ v) ((a, _), h) = (a, NoBreak-value v h)

NoBreak-render_value : (v : Text) → IsValue v → All NoBreak (render_value v)
NoBreak-render_value v (h, s) = elim (Bool-cases (needs_quotes v)) [
  | inl q ↦
      rw (render_value_quoted v (h, s) q)
        ((refl, refl), All-append NoBreak v (b'"' ∷ []) (NoBreak-value v h) ((refl, refl), tt))
  | inr q ↦ rw (render_value_plain v q) (NoBreak-value v h)
]

-- An entry of the object under this key, which can be written.
abbrev IsWritable : Kv → Text → Type 0
IsWritable kv k = (v : Text) × (get k kv ≡ some v) × IsKey k × IsValue v

IsKey-All : (k : Text) → IsKey k → All KeyUnit k
IsKey-All [] h = absurd h
IsKey-All (c ∷ k) (_, h) = h

render_line-entry :
    (kv : Kv) (k v : Text) → get k kv ≡ some v → render_line kv k ≡ k ++ (b'=' ∷ render_value v)
unfolding render_line
render_line-entry kv k v e = rw e refl

NoBreak-line : (kv : Kv) (k : Text) → IsWritable kv k → All NoBreak (render_line kv k)
NoBreak-line kv k (v, e, h, i) = rw (render_line-entry kv k v e) (
    All-append NoBreak k (b'=' ∷ render_value v) (NoBreak-key k (IsKey-All k h))
      ((refl, refl), NoBreak-render_value v i))

NoBreak-lines :
    (kv : Kv) (ks : List Text)
    → All (IsWritable kv) ks
    → All (All NoBreak) (map (render_line kv) ks)
NoBreak-lines kv [] h = tt
NoBreak-lines kv (k ∷ ks) (w, h) = (NoBreak-line kv k w, NoBreak-lines kv ks h)

parse_line-render_line :
    (kv : Kv) (k : Text) (w : IsWritable kv k) → parse_line (render_line kv k) ≡ some (k, w.0)
parse_line-render_line kv k (v, e, h, i) =
    rw (render_line-entry kv k v e) (parse_line-render_value k v h i)

read_lines_empty : (out : Kv) → read_lines out ([] ∷ []) ≡ out
unfolding read_lines
read_lines_empty out = refl

read_lines_line :
    (out : Kv) (l : Text) (ls : List Text) (k v : Text)
    → parse_line l ≡ some (k, v)
    → read_lines out (l ∷ ls) ≡ read_lines (set k v out) ls
unfolding read_lines
read_lines_line out l ls k v e = rw e refl

-- What is read from written lines, key by key.
get-read_lines :
    (kv : Kv) (ks : List Text) (out : Kv) (j : Text)
    → All (IsWritable kv) ks
    → get j (read_lines out (map (render_line kv) ks ++ [] ∷ []))
      ≡ (if mem j ks then get j kv else get j out)
unfolding mem
get-read_lines kv [] out j h = ap (get j) (read_lines_empty out)
get-read_lines kv (k ∷ ks) out j ((v, e, i, u), h) =
    let lines = map (render_line kv) ks ++ [] ∷ [] in
    let p = parse_line-render_line kv k (v, e, i, u) in
    let step = ap (get j) (read_lines_line out (render_line kv k) lines k v p) in
    ground
      (arith, step, e, get-read_lines kv ks (set k v out) j h, get-set k j v out, text_eq_iff k j)

-- The lines of a header: comments without line breaks.
abbrev pub IsHeader : List Text → Type 0
IsHeader = All (λ l. All NoBreak l × (parse_line l ≡ none))

read_lines-header :
    (out : Kv) (header ls : List Text)
    → IsHeader header
    → read_lines out (header ++ ls) ≡ read_lines out ls
unfolding read_lines
read_lines-header out [] ls h = refl
read_lines-header out (l ∷ header) ls ((_, p), h) =
    rw (p, read_lines) (read_lines-header out header ls h)

NoBreak-header : (header : List Text) → IsHeader header → All (All NoBreak) header
NoBreak-header [] h = tt
NoBreak-header (l ∷ header) ((a, _), h) = (a, NoBreak-header header h)

get-body :
    (kv : Kv) (ks : List Text) (j : Text)
    → All (IsWritable kv) ks
    → get j (read_lines [] (split_lines [] (join_lines (map (render_line kv) ks) ++ b'\n' ∷ [])))
      ≡ (if mem j ks then get j kv else none)
unfolding mem get join_lines split_lines read_lines
get-body kv [] j h = refl
get-body kv (k ∷ ks) j h =
    ap (λ ls. get j (read_lines [] ls))
      (split_lines-body (render_line kv k) (map (render_line kv) ks) (NoBreak-lines kv (k ∷ ks) h))
    ∙ get-read_lines kv (k ∷ ks) [] j h

-- Every entry can be written.
abbrev pub IsEntries : Kv → Type 0
IsEntries = All (λ e. IsKey e.0 × IsValue e.1)

IsWritable-mem : (kv : Kv) (k : Text) → IsEntries kv → mem k (keys kv) ≡ true → IsWritable kv k
unfolding mem keys get
IsWritable-mem [] k h m = cc
IsWritable-mem ((j, v) ∷ kv) k ((a, b), h) m = elim (Bool-cases (text_eq j k)) [
  | inl e ↦ rw e (v, refl, subst IsKey ((text_eq_iff j k).0 e) a, b)
  | inr n ↦ rw n (IsWritable-mem kv k h (ground arith))
]

if_is_some : (o : Option Text) → (if is_some o then o else none) ≡ o
if_is_some none = refl
if_is_some (some v) = refl

-- A file that was written is read back: under every key stands what stood there before, if the
-- lines of the header are comments, no key is empty, begins with `#` or holds a space or `=`, and
-- no value holds a line break or a double quote or stands in single quotes.
pub get-parse_env_file :
    (leq : Text → Text → Bool) (header order : List Text) (kv : Kv) (j : Text)
    → IsHeader header
    → IsEntries kv
    → get j (parse_env_file (serialize_env_file leq header order kv)) ≡ get j kv
unfolding parse_env_file serialize_env_file
get-parse_env_file leq header order kv j hs h =
    let ks = ordered_keys leq order (keys kv) in
    let body = join_lines (map (render_line kv) ks) ++ b'\n' ∷ [] in
    let writable =
      All-mem (IsWritable kv) ks
        (λ k m. IsWritable-mem kv k h (sym (mem-ordered_keys leq order (keys kv) k) ∙ m)) in
    ap (λ ls. get j (read_lines [] ls)) (split_lines-header header body (NoBreak-header header hs))
    ∙ ap (get j) (read_lines-header [] header (split_lines [] body) hs)
    ∙ get-body kv ks j writable
    ∙ rw (mem-ordered_keys leq order (keys kv) j, mem-keys j kv) (if_is_some (get j kv))
