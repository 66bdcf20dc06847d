-- ===== src/Scripts/Tests.antt =====
-- Concrete runs of the scripts, and checks that the conditions of the theorems can be met.
mod Env
mod Build
mod Idls
use psybot_ai.Base.{
  ℕ, zero, suc, ◌+◌, ◌≤◌, Bool, true, false, ◌≡◌, ◌≢◌, refl, sym, ap, ◌∙◌, ◌&&◌, ◌||◌, not, Option,
  none, some, List, [], ◌∷◌, ◌++◌, if◌then◌else◌, or_default, All, arith, ◌==◌, length, map,
}
use psybot_ai.Base.Text.{
  Text, codes, is_space, text_eq, starts_with, trim, trim_start, lower, includes,
}
use psybot_ai.Scripts.Args.{Exit, ok, exit, parse_all}
use psybot_ai.Scripts.Root.{
  Paths, is_root, find_repo_root, ancestors, first, find_repo_root-first, climb,
}
use psybot_ai.Scripts.EnvFile.{
  Kv, get, set, is_quoted, parse_env_file, serialize_env_file, any, distinct,
}
use psybot_ai.Scripts.EnvFile.Values.{
  NoBreak, KeyUnit, IsKey, ValueUnit, IsValue, parse_line_comment,
}
use psybot_ai.Scripts.EnvFile.RoundTrip.{IsHeader, IsEntries, get-parse_env_file}

all_of : (ℕ → Bool) → Text → Bool
all_of p [] = true
all_of p (c ∷ s) = p c && all_of p s

and_true : (a b : Bool) → (a && b) ≡ true → (a ≡ true) × (b ≡ true)
and_true a b h = ground arith

not-true : (a : Bool) → not a ≡ true → a ≡ false
not-true a h = ground arith

module _ (P : ℕ → Type 0) (p : ℕ → Bool) (holds : (c : ℕ) → p c ≡ true → P c) where
  all_of-All : (s : Text) → all_of p s ≡ true → All P s
  unfolding all_of
  all_of-All [] h = tt
  all_of-All (c ∷ s) h = let (a, b) = and_true (p c) (all_of p s) h in (holds c a, all_of-All s b)

is_no_break : ℕ → Bool
is_no_break c = not (c == b'\n') && not (c == b'\r')

is_no_break-NoBreak : (c : ℕ) → is_no_break c ≡ true → NoBreak c
unfolding is_no_break
is_no_break-NoBreak c h =
    let (a, b) = and_true (not (c == b'\n')) (not (c == b'\r')) h in
    (not-true (c == b'\n') a, not-true (c == b'\r') b)

lines_of : (s : Text) → all_of is_no_break s ≡ true → All NoBreak s
lines_of s h = all_of-All NoBreak is_no_break is_no_break-NoBreak s h

is_key_unit : ℕ → Bool
is_key_unit c = not (is_space c) && not (c == b'=')

is_key_unit-KeyUnit : (c : ℕ) → is_key_unit c ≡ true → KeyUnit c
unfolding is_key_unit
is_key_unit-KeyUnit c h =
    let (a, b) = and_true (not (is_space c)) (not (c == b'=')) h in
    (not-true (is_space c) a, not-true (c == b'=') b)

is_value_unit : ℕ → Bool
unfolding is_no_break
is_value_unit c = is_no_break c && not (c == b'"')

is_value_unit-ValueUnit : (c : ℕ) → is_value_unit c ≡ true → ValueUnit c
unfolding is_value_unit
is_value_unit-ValueUnit c h =
    let (a, b) = and_true (is_no_break c) (not (c == b'"')) h in
    (is_no_break-NoBreak c a, not-true (c == b'"') b)

is_key : Text → Bool
unfolding all_of is_key_unit
is_key [] = false
is_key (c ∷ k) = not (c == b'#') && all_of is_key_unit (c ∷ k)

is_key-IsKey : (k : Text) → is_key k ≡ true → IsKey k
unfolding is_key
is_key-IsKey [] h = cc
is_key-IsKey (c ∷ k) h =
    let (a, b) = and_true (not (c == b'#')) (all_of is_key_unit (c ∷ k)) h in
    (not-true (c == b'#') a, all_of-All KeyUnit is_key_unit is_key_unit-KeyUnit (c ∷ k) b)

is_value : Text → Bool
unfolding all_of is_value_unit
is_value v = all_of is_value_unit v && not (is_quoted b'\'' v)

is_value-IsValue : (v : Text) → is_value v ≡ true → IsValue v
unfolding is_value
is_value-IsValue v h =
    let (a, b) = and_true (all_of is_value_unit v) (not (is_quoted b'\'' v)) h in
    (all_of-All ValueUnit is_value_unit is_value_unit-ValueUnit v a, not-true (is_quoted b'\'' v) b)

are_entries : Kv → Bool
unfolding is_key is_value
are_entries [] = true
are_entries ((k, v) ∷ kv) = (is_key k && is_value v) && are_entries kv

are_entries-IsEntries : (kv : Kv) → are_entries kv ≡ true → IsEntries kv
unfolding are_entries
are_entries-IsEntries [] h = tt
are_entries-IsEntries ((k, v) ∷ kv) h =
    let (a, b) = and_true (is_key k && is_value v) (are_entries kv) h in
    let (x, y) = and_true (is_key k) (is_value v) a in
    ((is_key-IsKey k x, is_value-IsValue v y), are_entries-IsEntries kv b)

abbrev small_env : Kv
small_env =
    (codes "PORT", codes "8787")
    ∷ (codes "NAME", codes "two words # here")
    ∷ (codes "EMPTY", [])
    ∷ []

abbrev small_header : List Text
small_header = codes "# Made by a script" ∷ []

small_header-IsHeader : IsHeader small_header
unfolding all_of is_no_break
small_header-IsHeader = (
  (lines_of (codes "# Made by a script") refl, parse_line_comment (codes " Made by a script")),
  tt,
)

small_env-IsEntries : IsEntries small_env
unfolding are_entries is_quoted starts_with is_space
small_env-IsEntries = are_entries-IsEntries small_env refl

abbrev keep_order : Text → Text → Bool
keep_order a b = true

get-parse_env_file_example :
    get
      (codes "NAME")
      (parse_env_file (serialize_env_file keep_order small_header (codes "EMPTY" ∷ []) small_env))
    ≡ get (codes "NAME") small_env
get-parse_env_file_example =
    get-parse_env_file keep_order small_header (codes "EMPTY" ∷ []) small_env (codes "NAME")
      small_header-IsHeader small_env-IsEntries

-- A double quote is written with a backslash, and the backslash is read as a part of the value.
quoted_value :
    get
      (codes "K")
      (parse_env_file (serialize_env_file keep_order [] [] ((codes "K", codes "a\"b") ∷ [])))
    ≡ some (codes "a\\\"b")
unfolding get parse_env_file serialize_env_file
quoted_value = refl

abbrev slash : Text → Text → Text
slash a b = a ++ (b'/' ∷ b)

abbrev parent : Text → Text
parent [] = []
parent (_ ∷ s) = s

-- Paths as lists from the bottom up, of which `/r` alone holds the workspace's files.
abbrev small_paths : Paths
small_paths = record {
  exists = λ p. starts_with p (codes "r/");
  resolve = λ p. p;
  dirname = parent;
  join = slash;
  is_absolute = λ p. false;
}

find_repo_root-first_example :
    find_repo_root small_paths (codes "xyr")
    ≡ or_default
        (first (is_root small_paths) (ancestors small_paths 12 (codes "xyr")))
        (codes "xyr")
find_repo_root-first_example = find_repo_root-first small_paths (codes "xyr")

found_root : find_repo_root small_paths (codes "xyr") ≡ codes "r"
unfolding find_repo_root starts_with
found_root = refl
