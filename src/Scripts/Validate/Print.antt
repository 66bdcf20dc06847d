-- ===== src/Scripts/Validate/Print.antt =====
-- scripts/env/validate-env.ts: what is printed of an environment. The order of `localeCompare` is a
-- parameter.
use psybot_ai.Base.{
  ℕ, ◌-◌, Bool, ◌&&◌, ◌||◌, not, List, [], ◌∷◌, ◌++◌, map, if◌then◌else◌, length, leb, reverse,
  take,
}
use psybot_ai.Base.Text.{Text, codes, includes}
use psybot_ai.Scripts.EnvFile.{Kv, keys, is_empty, sort}
use psybot_ai.Scripts.Validate.Checks.{value}

unfoldable pub is_secret : Text → Bool
unfolding includes
is_secret k =
    includes k (codes "SECRET")
    || includes k (codes "TOKEN")
    || includes k (codes "PASSWORD")
    || includes k (codes "KEY")
    || includes k (codes "SALT")

-- `toUpperCase` on ASCII letters.
unfoldable pub upper : ℕ → ℕ
upper c = if leb 97 c && leb c 122 then c - 32 else c

-- `redact`
unfoldable pub redact : Text → Text → Text
unfolding is_secret upper
redact k v =
    if not (is_secret (map upper k))
    then v
    else if is_empty v
    then []
    else if leb (length v) 6
    then codes "***"
    else take 3 v ++ (codes "***" ++ reverse (take 3 (reverse v)))

unfoldable pub print_lines : Kv → List Text → List Text
unfolding redact
print_lines env [] = []
print_lines env (k ∷ ks) = (k ++ (b'=' ∷ redact k (value k env))) ∷ print_lines env ks

-- `printEnv`
unfoldable pub print_env : (Text → Text → Bool) → Kv → List Text
unfolding print_lines sort keys
print_env not_after env = print_lines env (sort not_after (keys env))
