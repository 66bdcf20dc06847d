-- ===== src/Scripts/Validate/Checks.antt =====
-- scripts/env/validate-env.ts: the checks of an environment. What an issue says is a kind of
-- problem instead of a message. `Number` on a text, as far as it gives an integer, and the parts of
-- a `URL` are parameters.
use psybot_ai.Base.{
  ℕ, Bool, false, ◌&&◌, ◌||◌, not, Option, none, some, List, [], ◌∷◌, ◌++◌, map, if◌then◌else◌,
  or_default, length, ltb, leb, ℤ, pos, negsuc, ◌==◌,
}
use psybot_ai.Base.Text.{Text, codes, text_eq, starts_with, lower}
use psybot_ai.Scripts.EnvFile.{Kv, get, is_empty, mem, distinct, looks_like_localhost}
use psybot_ai.Scripts.Validate.CommandLine.{Mode, prod, Args, is_prod}

abbrev is_letter : ℕ → Bool
is_letter c = leb 65 c && leb c 90 || leb 97 c && leb c 122

abbrev is_scheme : ℕ → Bool
is_scheme c = is_letter c || leb 48 c && leb c 57 || c == b'+' || c == b'.' || c == b'-'

-- `[a-zA-Z0-9+.-]*:\/\/` at the start; no unit of the class is a colon.
unfoldable pub scheme_rest : Text → Bool
unfolding starts_with
scheme_rest [] = false
scheme_rest (c ∷ s) =
    let on = scheme_rest s in if is_scheme c then on else starts_with (c ∷ s) (codes "://")

-- `looksLikeUrl`
unfoldable pub looks_like_url : Text → Bool
unfolding scheme_rest
looks_like_url [] = false
looks_like_url (c ∷ s) = is_letter c && scheme_rest s

-- `looksLikeHttpUrl`
unfoldable pub looks_like_http_url : Text → Bool
unfolding starts_with
looks_like_http_url v = starts_with v (codes "http://") || starts_with v (codes "https://")

-- `requiredKeysForMode`
unfoldable pub required_keys_for_mode : Mode → List Text
required_keys_for_mode prod =
    codes "NODE_ENV"
    ∷ codes "PUBLIC_BASE_URL"
    ∷ codes "CORS_ORIGIN"
    ∷ codes "DATABASE_URL"
    ∷ codes "REDIS_URL"
    ∷ codes "JWT_SECRET"
    ∷ codes "API_KEY_SALT"
    ∷ []
required_keys_for_mode _ =
    codes "NODE_ENV"
    ∷ codes "NUTTOO_NAME"
    ∷ codes "NUTTOO_TICKER"
    ∷ codes "NUTTOO_API_PORT"
    ∷ codes "NUTTOO_WEB_PORT"
    ∷ codes "DATABASE_URL"
    ∷ codes "REDIS_URL"
    ∷ codes "CORS_ORIGIN"
    ∷ []

pub data IssueLevel : Type 0 where
  warn fail : IssueLevel

pub data Problem : Type 0 where
  missing empty_value unexpected_node_env not_production invalid_port invalid_url : Problem
  localhost invalid_http_url too_short port_mismatch : Problem

pub record Issue : Type 0 where
  pub level : IssueLevel
  pub key : Text
  pub problem : Problem

abbrev pub failure : Text → Problem → Issue
failure k p = record { level = fail; key = k; problem = p }

abbrev pub warning : Text → Problem → Issue
warning k p = record { level = warn; key = k; problem = p }

abbrev pub issue_if : Bool → Issue → List Issue
issue_if b i = if b then i ∷ [] else []

-- The value under a key that is there and not empty.
abbrev pub value : Text → Kv → Text
value k env = or_default (get k env) []

-- One required key.
unfoldable pub check_key : Args → Text → Option Text → List Issue
unfolding mem
check_key args k none = failure k missing ∷ []
check_key args k (some v) =
    issue_if (is_empty v && not (mem k args.allow_empty)) (failure k empty_value)

unfoldable pub check_keys : Args → Kv → List Text → List Issue
unfolding check_key get
check_keys args env [] = []
check_keys args env (k ∷ ks) = check_key args k (get k env) ++ check_keys args env ks

unfoldable pub check_required : Args → Kv → List Issue
unfolding check_keys required_keys_for_mode distinct
check_required args env =
    check_keys args env (distinct (required_keys_for_mode args.mode ++ args.required_extra))

unfoldable pub check_node_env : Args → Text → List Issue
check_node_env args [] = []
check_node_env args (c ∷ s) =
    let v = map lower (c ∷ s) in
    let k = codes "NODE_ENV" in
    let good =
      text_eq v (codes "development")
      || text_eq v (codes "production")
      || text_eq v (codes "test") in
    issue_if (not good) (warning k unexpected_node_env)
    ++ issue_if (is_prod args.mode && not (text_eq v (codes "production")))
        (failure k not_production)

-- `Number(v)` where it is finite and an integer, and `new URL(v)`; `none` is a throw.
pub record Parsers : Type 0 where
  pub number : Text → Option ℤ
  pub url_port : Text → Option Text
  pub url_is_https : Text → Bool

-- `asInt`
unfoldable pub as_int : Parsers → Text → Option ℤ
as_int js v = if is_empty v then none else js.number v

-- `n !== null && n > 0 && n <= 65535`
unfoldable pub is_port : Option ℤ → Bool
is_port none = false
is_port (some (pos n)) = ltb 0 n && leb n 65535
is_port (some (negsuc n)) = false

unfoldable pub check_port : Parsers → Text → Text → List Issue
unfolding as_int is_port
check_port js k v =
    if is_empty v then [] else issue_if (not (is_port (as_int js v))) (failure k invalid_port)

unfoldable pub check_server_url : Args → Text → Text → List Issue
unfolding looks_like_url looks_like_localhost
check_server_url args k v =
    if is_empty v
    then []
    else issue_if (not (looks_like_url v)) (failure k invalid_url)
      ++ issue_if (is_prod args.mode && not args.allow_localhost && looks_like_localhost v)
          (failure k localhost)

unfoldable pub check_cors : Args → Text → List Issue
unfolding looks_like_http_url looks_like_localhost
check_cors args v =
    let k = codes "CORS_ORIGIN" in
    if is_empty v
    then []
    else issue_if (not (looks_like_http_url v)) (failure k invalid_http_url)
      ++ issue_if (is_prod args.mode && looks_like_localhost v && not args.allow_localhost)
          (warning k localhost)

unfoldable pub check_public_base : Args → Text → List Issue
unfolding looks_like_http_url
check_public_base args v =
    issue_if (is_prod args.mode && not (is_empty v) && not (looks_like_http_url v))
      (failure (codes "PUBLIC_BASE_URL") invalid_http_url)

unfoldable pub check_secret : Args → Text → ℕ → Text → List Issue
check_secret args k least v =
    issue_if (is_prod args.mode && not (is_empty v) && ltb (length v) least) (failure k too_short)

-- `u.port || (u.protocol === "https:" ? "443" : "80")`
unfoldable pub port_of : Parsers → Text → Text → Text
port_of js base port =
    if is_empty port then (if js.url_is_https base then codes "443" else codes "80") else port

unfoldable pub compare_ports : Parsers → Text → Text → Option Text → List Issue
unfolding port_of
compare_ports js api_port base none = failure (codes "VITE_API_BASE_URL") invalid_url ∷ []
compare_ports js api_port base (some port) =
    issue_if (not (text_eq (port_of js base port) api_port))
      (warning (codes "VITE_API_BASE_URL") port_mismatch)

unfoldable pub check_ports : Parsers → Args → Text → Text → List Issue
unfolding compare_ports looks_like_http_url
check_ports js args api_port base =
    if not (is_prod args.mode)
      && not (is_empty api_port)
      && not (is_empty base)
      && looks_like_http_url base
    then compare_ports js api_port base (js.url_port base)
    else []

unfoldable pub concat : List (List Issue) → List Issue
concat [] = []
concat (is ∷ iss) = is ++ concat iss

-- The checks in their order.
unfoldable pub checks : Parsers → Args → Kv → List (List Issue)
checks js args env =
    check_required args env
    ∷ check_node_env args (value (codes "NODE_ENV") env)
    ∷ check_port js (codes "NUTTOO_API_PORT") (value (codes "NUTTOO_API_PORT") env)
    ∷ check_port js (codes "NUTTOO_WEB_PORT") (value (codes "NUTTOO_WEB_PORT") env)
    ∷ check_server_url args (codes "DATABASE_URL") (value (codes "DATABASE_URL") env)
    ∷ check_server_url args (codes "REDIS_URL") (value (codes "REDIS_URL") env)
    ∷ check_cors args (value (codes "CORS_ORIGIN") env)
    ∷ check_public_base args (value (codes "PUBLIC_BASE_URL") env)
    ∷ check_secret args (codes "JWT_SECRET") 32 (value (codes "JWT_SECRET") env)
    ∷ check_secret args (codes "API_KEY_SALT") 16 (value (codes "API_KEY_SALT") env)
    ∷ check_ports js args (value (codes "NUTTOO_API_PORT") env)
        (value (codes "VITE_API_BASE_URL") env)
    ∷ []

-- `validate`: each check pushes its issues behind those before it.
unfoldable pub validate : Parsers → Args → Kv → List Issue
unfolding concat
validate js args env = concat (checks js args env)
