-- ===== src/Scripts/EnvFile/Lookup.antt =====
-- Reading and writing an object of strings, and which keys a list holds.
use psybot_ai.Base.{
  Bool, true, false, ◌≡◌, refl, ◌∙◌, Option, none, some, List, [], ◌∷◌, ◌++◌, arith, if◌then◌else◌,
  or_else, is_some, not, ◌&&◌, ◌||◌, All,
}
use psybot_ai.Base.Text.{Text, text_eq, text_eq_iff}
use psybot_ai.Scripts.EnvFile.{
  Kv, get, set, merge_env, keys, mem, keep, insert_sorted, sort, ordered_keys, put_entry,
  read_lines, parse_line, parse_env_file, split_lines,
}

pub get-set :
    (k j : Text) (v : Text) (kv : Kv)
    → get j (set k v kv) ≡ (if text_eq k j then some v else get j kv)
unfolding get set
get-set k j v [] = refl
get-set k j v ((i, w) ∷ kv) =
    ground (arith, text_eq_iff k j, text_eq_iff i k, text_eq_iff i j, get-set k j v kv)

pub mem-keys : (k : Text) (kv : Kv) → mem k (keys kv) ≡ is_some (get k kv)
unfolding mem keys get
mem-keys k [] = refl
mem-keys k ((j, v) ∷ kv) = ground (arith, mem-keys k kv)

-- No key stands twice.
abbrev pub IsUnique : Kv → Type 0
IsUnique [] = Unit
IsUnique ((k, v) ∷ kv) = (mem k (keys kv) ≡ false) × IsUnique kv

mem-keys-set :
    (k j : Text) (v : Text) (kv : Kv) → mem j (keys (set k v kv)) ≡ (text_eq k j || mem j (keys kv))
mem-keys-set k j v kv =
    let a = mem-keys j (set k v kv) in
    let b = mem-keys j kv in ground (arith, a, b, get-set k j v kv)

pub set-IsUnique : (k v : Text) (kv : Kv) → IsUnique kv → IsUnique (set k v kv)
unfolding set mem keys
set-IsUnique k v [] u = (refl, tt)
set-IsUnique k v ((j, w) ∷ kv) (n, u) =
    ground (arith, set-IsUnique k v kv u, mem-keys-set k j v kv, text_eq_iff j k, text_eq_iff k j)

-- The second object wins.
pub get-merge_env :
    (j : Text) (base incoming : Kv)
    → IsUnique incoming
    → get j (merge_env base incoming) ≡ or_else (get j incoming) (get j base)
unfolding merge_env get
get-merge_env j base [] u = refl
get-merge_env j base ((k, v) ∷ incoming) (n, u) = ground (
  arith,
  get-merge_env j (set k v base) incoming u,
  get-set k j v base,
  mem-keys k incoming,
  text_eq_iff k j,
)

pub merge_env-IsUnique : (base incoming : Kv) → IsUnique base → IsUnique (merge_env base incoming)
unfolding merge_env
merge_env-IsUnique base [] u = u
merge_env-IsUnique base ((k, v) ∷ incoming) u =
    merge_env-IsUnique (set k v base) incoming (set-IsUnique k v base u)

pub mem-append : (j : Text) (ks ls : List Text) → mem j (ks ++ ls) ≡ (mem j ks || mem j ls)
unfolding mem
mem-append j [] ls = refl
mem-append j (k ∷ ks) ls = ground (arith, mem-append j ks ls)

pub mem-keep : (j : Text) (p : Text → Bool) (ks : List Text) → mem j (keep p ks) ≡ (mem j ks && p j)
unfolding mem keep
mem-keep j p [] = refl
mem-keep j p (k ∷ ks) = ground (arith, mem-keep j p ks, text_eq_iff k j)

mem-insert_sorted :
    (leq : Text → Text → Bool) (j k : Text) (ks : List Text)
    → mem j (insert_sorted leq k ks) ≡ (text_eq k j || mem j ks)
unfolding mem insert_sorted
mem-insert_sorted leq j k [] = refl
mem-insert_sorted leq j k (i ∷ ks) = ground (arith, mem-insert_sorted leq j k ks)

mem-sort : (leq : Text → Text → Bool) (j : Text) (ks : List Text) → mem j (sort leq ks) ≡ mem j ks
unfolding mem sort
mem-sort leq j [] = refl
mem-sort leq j (k ∷ ks) = ground (arith, mem-sort leq j ks, mem-insert_sorted leq j k (sort leq ks))

-- No key is lost or added by the order.
pub mem-ordered_keys :
    (leq : Text → Text → Bool) (order ks : List Text) (j : Text)
    → mem j (ordered_keys leq order ks) ≡ mem j ks
unfolding ordered_keys
mem-ordered_keys leq order ks j =
    let preferred = keep (λ k. mem k ks) order in
    let rest = keep (λ k. not (mem k preferred)) ks in
    ground (
      arith,
      mem-append j preferred (sort leq rest),
      mem-sort leq j rest,
      mem-keep j (λ k. not (mem k preferred)) ks,
      mem-keep j (λ k. mem k ks) order,
    )

-- What holds of all members of a list holds of all its places.
pub All-mem : (P : Text → Type 0) (ks : List Text) → ((k : Text) → mem k ks ≡ true → P k) → All P ks
unfolding mem
All-mem P [] h = tt
All-mem P (k ∷ ks) h =
    (h k (ground (arith, text_eq_iff k k)), All-mem P ks (λ j m. h j (ground arith)))

pub get-set_ne :
    (k j : Text) (v : Text) (kv : Kv) → text_eq k j ≡ false → get j (set k v kv) ≡ get j kv
get-set_ne k j v kv h = get-set k j v kv ∙ rw h refl

put_entry-IsUnique : (e : Option (Text × Text)) (kv : Kv) → IsUnique kv → IsUnique (put_entry e kv)
put_entry-IsUnique none kv u = u
put_entry-IsUnique (some (k, v)) kv u = set-IsUnique k v kv u

read_lines-IsUnique : (lines : List Text) (kv : Kv) → IsUnique kv → IsUnique (read_lines kv lines)
unfolding read_lines
read_lines-IsUnique [] kv u = u
read_lines-IsUnique (l ∷ lines) kv u =
    read_lines-IsUnique lines (put_entry (parse_line l) kv) (put_entry-IsUnique (parse_line l) kv u)

-- No key stands twice in what was read.
pub parse_env_file-IsUnique : (content : Text) → IsUnique (parse_env_file content)
unfolding parse_env_file
parse_env_file-IsUnique content = read_lines-IsUnique (split_lines [] content) [] tt
