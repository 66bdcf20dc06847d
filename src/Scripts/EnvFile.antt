-- ===== src/Scripts/EnvFile.antt =====
-- scripts/env: environment files as gen-dev-env.ts, gen-prod-env.ts and validate-env.ts read and
-- write them. An object of strings is the list of its properties in the order in which they were
-- made; keys that are integers, and names that every object inherits, are not modelled.
pub mod Lookup
pub mod Values
pub mod RoundTrip
use psybot_ai.Base.{
  ℕ, Bool, true, false, not, ◌&&◌, ◌||◌, Option, none, some, List, [], ◌∷◌, ◌++◌, map, reverse,
  ◌==◌, if◌then◌else◌, or_default,
}
use psybot_ai.Base.Text.{includes, lower, codes, Text, is_space, text_eq, starts_with, trim}

abbrev pub Kv : Type 0
Kv = List (Text × Text)

-- `kv[k]`
unfoldable pub get : Text → Kv → Option Text
unfolding text_eq
get k [] = none
get k ((j, v) ∷ kv) = if text_eq j k then some v else get k kv

-- `kv[k] = v`
unfoldable pub set : Text → Text → Kv → Kv
unfolding text_eq
set k v [] = (k, v) ∷ []
set k v ((j, w) ∷ kv) = if text_eq j k then (j, v) ∷ kv else (j, w) ∷ set k v kv

-- `{ ...base, ...incoming }`
unfoldable pub merge_env : Kv → Kv → Kv
unfolding set
merge_env base [] = base
merge_env base ((k, v) ∷ incoming) = merge_env (set k v base) incoming

-- `Object.keys`
unfoldable pub keys : Kv → List Text
keys [] = []
keys ((k, v) ∷ kv) = k ∷ keys kv

unfoldable pub mem : Text → List Text → Bool
unfolding text_eq
mem k [] = false
mem k (j ∷ ks) = text_eq j k || mem k ks

unfoldable pub keep : (Text → Bool) → List Text → List Text
keep p [] = []
keep p (k ∷ ks) = let rest = keep p ks in if p k then k ∷ rest else rest

-- `/\r?\n/` takes one carriage return before the line feed; the line so far is reversed.
unfoldable pub end_line : Text → Text
end_line [] = []
end_line (c ∷ acc) = if c == b'\r' then reverse acc else reverse (c ∷ acc)

-- `content.split(/\r?\n/)`
unfoldable pub split_lines : Text → Text → List Text
unfolding end_line
split_lines acc [] = reverse acc ∷ []
split_lines acc (c ∷ s) =
    let rest = split_lines [] s in
    let on = split_lines (c ∷ acc) s in if c == b'\n' then end_line acc ∷ rest else on

-- What stands before and behind the first `=`; `none` is `indexOf` of -1.
unfoldable pub split_eq : Text → Option (Text × Text)
split_eq [] = none
split_eq (c ∷ s) =
    let later = split_eq s in
    if c == b'=' then some ([], s) else elim later [ none ↦ none | some (k, v) ↦ some (c ∷ k, v) ]

abbrev pub is_empty : Text → Bool
is_empty [] = true
is_empty (_ ∷ _) = false

-- `s.startsWith(c) && s.endsWith(c)` for one unit `c`.
unfoldable pub is_quoted : ℕ → Text → Bool
unfolding starts_with
is_quoted c s = starts_with s (c ∷ []) && starts_with (reverse s) (c ∷ [])

abbrev tail_of : Text → Text
tail_of [] = []
tail_of (_ ∷ s) = s

-- `value.slice(1, -1)`, which is empty on one unit too.
unfoldable pub unquote : Text → Text
unfolding is_quoted
unquote v =
    if is_quoted b'"' v || is_quoted b'\'' v then reverse (tail_of (reverse (tail_of v))) else v

unfoldable pub entry_of : Option (Text × Text) → Option (Text × Text)
unfolding unquote trim
entry_of none = none
entry_of (some (k, v)) =
    let key = trim k in if is_empty key then none else some (key, unquote (trim v))

-- One line of the file: a comment and a line without `=` are skipped, and so is an empty key.
unfoldable pub parse_line : Text → Option (Text × Text)
unfolding entry_of split_eq trim starts_with
parse_line line =
    let trimmed = trim line in
    if is_empty trimmed || starts_with trimmed (b'#' ∷ [])
    then none
    else entry_of (split_eq trimmed)

abbrev pub put_entry : Option (Text × Text) → Kv → Kv
put_entry none out = out
put_entry (some (k, v)) out = set k v out

unfoldable pub read_lines : Kv → List Text → Kv
unfolding parse_line set
read_lines out [] = out
read_lines out (line ∷ lines) = read_lines (put_entry (parse_line line) out) lines

-- `parseEnvFile`
unfoldable pub parse_env_file : Text → Kv
unfolding read_lines split_lines
parse_env_file content = read_lines [] (split_lines [] content)

unfoldable pub any : (ℕ → Bool) → Text → Bool
any p [] = false
any p (c ∷ s) = p c || any p s

-- `/[\s#]/.test(v) || v.includes('"')`
unfoldable pub needs_quotes : Text → Bool
unfolding any is_space
needs_quotes v = any (λ c. is_space c || c == b'#') v || any (λ c. c == b'"') v

-- `v.replace(/"/g, '\\"')`
unfoldable pub escape : Text → Text
escape [] = []
escape (c ∷ s) = if c == b'"' then b'\\' ∷ b'"' ∷ escape s else c ∷ escape s

unfoldable pub render_value : Text → Text
unfolding needs_quotes escape
render_value v = if needs_quotes v then b'"' ∷ (escape v ++ b'"' ∷ []) else v

unfoldable pub render_line : Kv → Text → Text
unfolding render_value get
render_line kv k = k ++ (b'=' ∷ render_value (or_default (get k kv) []))

-- `lines.join("\n")`
unfoldable pub join_lines : List Text → Text
join_lines [] = []
join_lines (l ∷ []) = l
join_lines (l ∷ m ∷ ls) = l ++ (b'\n' ∷ join_lines (m ∷ ls))

-- `sort` by `localeCompare`, whose "not after" is a parameter: a stable sort.
unfoldable pub insert_sorted : (Text → Text → Bool) → Text → List Text → List Text
insert_sorted leq k [] = k ∷ []
insert_sorted leq k (j ∷ ks) = if leq k j then k ∷ j ∷ ks else j ∷ insert_sorted leq k ks

unfoldable pub sort : (Text → Text → Bool) → List Text → List Text
unfolding insert_sorted
sort leq [] = []
sort leq (k ∷ ks) = insert_sorted leq k (sort leq ks)

-- The preferred keys that are there, then the others in order.
unfoldable pub ordered_keys : (Text → Text → Bool) → List Text → List Text → List Text
unfolding keep mem sort
ordered_keys leq order ks =
    let preferred = keep (λ k. mem k ks) order in
    preferred ++ sort leq (keep (λ k. not (mem k preferred)) ks)

-- `serializeEnvFile`, with the lines of its header and its preferred order.
unfoldable pub serialize_env_file : (Text → Text → Bool) → List Text → List Text → Kv → Text
unfolding join_lines ordered_keys keys render_line
serialize_env_file leq header order kv =
    join_lines (header ++ [] ∷ [])
    ++ (join_lines (map (render_line kv) (ordered_keys leq order (keys kv))) ++ b'\n' ∷ [])

-- `Array.from(new Set(ks))`: the first of equal keys stays.
unfoldable pub distinct : List Text → List Text
unfolding keep text_eq
distinct [] = []
distinct (k ∷ ks) = k ∷ keep (λ j. not (text_eq k j)) (distinct ks)

-- `s.includes` of a local address in lower case.
unfoldable pub looks_like_localhost : Text → Bool
unfolding includes lower
looks_like_localhost url =
    let u = map lower url in
    includes u (codes "localhost") || includes u (codes "127.0.0.1") || includes u (codes "0.0.0.0")
