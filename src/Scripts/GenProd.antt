-- ===== src/Scripts/GenProd.antt =====
-- scripts/env/gen-prod-env.ts: the environment file of a server, which is checked before it is
-- written.
pub mod Safe
pub mod Accepted
use psybot_ai.Base.{
  ℕ, Bool, true, false, ◌&&◌, ◌||◌, not, Option, none, some, List, [], ◌∷◌, ◌++◌, if◌then◌else◌,
  or_default, is_some, length, ltb,
}
use psybot_ai.Base.Text.{Text, codes, text_eq, trim}
use psybot_ai.Scripts.Args.{Exit, ok, exit, ◌>>=◌, ◌>>◌, guard, Options, parse_all}
use psybot_ai.Scripts.Root.{Paths, find_repo_root}
use psybot_ai.Scripts.EnvFile.{
  Kv, get, set, merge_env, is_empty, split_eq, parse_env_file, serialize_env_file, distinct, keep,
  looks_like_localhost,
}
use psybot_ai.Scripts.EnvArgs.{set_override, other_argument}
use psybot_ai.Scripts.GenDev.{Machine, Files, write, set_empty}

pub record Args : Type 0 where
  pub out_path : Text
  pub force : Bool
  pub merge : Bool
  pub print : Bool
  pub dry_run : Bool
  pub allow_localhost : Bool
  pub no_secrets : Bool
  pub overrides : Kv
  pub required_extra : List Text

abbrev pub no_args : Args
no_args = record {
  out_path = codes ".env.production";
  force = false;
  merge = false;
  print = false;
  dry_run = false;
  allow_localhost = false;
  no_secrets = false;
  overrides = [];
  required_extra = [];
}

takes_value : Text → Bool
takes_value a =
    text_eq a (codes "--out") || text_eq a (codes "--require") || text_eq a (codes "--set")

with_value : Text → Text → Args → Exit Args
unfolding set_override split_eq
with_value a v args =
    if is_empty v
    then exit 1
    else if text_eq a (codes "--out")
    then ok (record args { out_path = v })
    else if text_eq a (codes "--require")
    then ok (record args { required_extra = args.required_extra ++ v ∷ [] })
    else (do o ← set_override (split_eq v) args.overrides; ok (record args { overrides = o }))

argument : Text → Args → Exit Args
unfolding other_argument text_eq
argument a args =
    if text_eq a (codes "--force")
    then ok (record args { force = true })
    else if text_eq a (codes "--merge")
    then ok (record args { merge = true })
    else if text_eq a (codes "--print")
    then ok (record args { print = true })
    else if text_eq a (codes "--dry-run")
    then ok (record args { dry_run = true })
    else if text_eq a (codes "--allow-localhost")
    then ok (record args { allow_localhost = true })
    else if text_eq a (codes "--no-secrets")
    then ok (record args { no_secrets = true })
    else (do o ← other_argument a args.overrides; ok (record args { overrides = o }))

abbrev pub options : Options Args
unfolding takes_value with_value argument
options = record {
  takes_value = takes_value;
  with_value = with_value;
  without_value = λ a args. exit 1;
  argument = argument;
}

unfoldable pub parse_args : List Text → Exit Args
unfolding parse_all takes_value with_value argument
parse_args argv = parse_all options no_args argv

unfoldable pub build_prod_base : Text → Text → Kv
build_prod_base root hostname =
    (codes "NODE_ENV", codes "production")
    ∷ (codes "NUTTOO_NAME", codes "Nuttoo")
    ∷ (codes "NUTTOO_TICKER", codes "NUTTOO")
    ∷ (codes "LOG_LEVEL", codes "info")
    ∷ (codes "PUBLIC_BASE_URL", [])
    ∷ (codes "NUTTOO_API_PORT", codes "8787")
    ∷ (codes "NUTTOO_WEB_PORT", codes "5173")
    ∷ (codes "CORS_ORIGIN", [])
    ∷ (codes "DATABASE_URL", [])
    ∷ (codes "REDIS_URL", [])
    ∷ (codes "JWT_SECRET", [])
    ∷ (codes "API_KEY_SALT", [])
    ∷ (codes "NUTTOO_REPO_ROOT", root)
    ∷ (codes "NUTTOO_MACHINE", hostname)
    ∷ []

unfoldable pub apply_secrets : Machine → Bool → Kv → Kv
unfolding set_empty
apply_secrets m no_secrets env =
    if no_secrets
    then env
    else set_empty (codes "API_KEY_SALT") m.api_key_salt
        (set_empty (codes "JWT_SECRET") m.jwt_secret env)

abbrev pub base_keys : List Text
base_keys =
    codes "NODE_ENV"
    ∷ codes "PUBLIC_BASE_URL"
    ∷ codes "CORS_ORIGIN"
    ∷ codes "DATABASE_URL"
    ∷ codes "REDIS_URL"
    ∷ codes "JWT_SECRET"
    ∷ codes "API_KEY_SALT"
    ∷ []

-- `requiredKeys`
unfoldable pub required_keys : List Text → List Text → List Text
unfolding distinct
required_keys base extra = distinct (base ++ extra)

-- A key that is missing, or whose value holds only spaces.
unfoldable pub is_missing : Kv → Text → Bool
unfolding get trim
is_missing env k = is_empty (trim (or_default (get k env) []))

abbrev pub is_nil : List Text → Bool
is_nil [] = true
is_nil (_ ∷ _) = false

-- `ensureRequired`
unfoldable pub ensure_required : Kv → List Text → Exit (Unit {0})
ensure_required env ks = guard (is_nil (keep (is_missing env) ks)) 1

abbrev pub value : Text → Kv → Text
value k env = or_default (get k env) []

-- `validateProd`
unfoldable pub validate_prod : Kv → Bool → Exit (Unit {0})
validate_prod env allow_localhost = do
  guard (text_eq (value (codes "NODE_ENV") env) (codes "production")) 1
  guard (not (is_empty (value (codes "PUBLIC_BASE_URL") env))) 1
  guard (not (is_empty (value (codes "CORS_ORIGIN") env))) 1
  guard (allow_localhost || not (looks_like_localhost (value (codes "DATABASE_URL") env))) 1
  guard (allow_localhost || not (looks_like_localhost (value (codes "REDIS_URL") env))) 1
  guard (not (ltb (length (value (codes "JWT_SECRET") env)) 32)) 1
  guard (not (ltb (length (value (codes "API_KEY_SALT") env)) 16)) 1

unfoldable pub out_file : Machine → Args → Text
unfolding find_repo_root
out_file m args =
    if m.paths.is_absolute args.out_path
    then args.out_path
    else m.paths.join (find_repo_root m.paths m.cwd) args.out_path

-- The existing file over the base, if it is there and to be merged.
merge_existing : Bool → Option Text → Kv → Kv
unfolding merge_env parse_env_file
merge_existing merge none env = env
merge_existing merge (some raw) env = if merge then merge_env env (parse_env_file raw) else env

-- The base, the existing file, secrets, and overrides last.
unfoldable pub prod_env : Machine → Args → Option Text → Kv
unfolding merge_existing build_prod_base apply_secrets merge_env find_repo_root
prod_env m args file =
    let base = build_prod_base (find_repo_root m.paths m.cwd) m.hostname in
    merge_env (apply_secrets m args.no_secrets (merge_existing args.merge file base)) args.overrides

abbrev pub header : Text → List Text
header date =
    codes "# Auto-generated by scripts/env/gen-prod-env.ts"
    ∷ codes "# Production environment file"
    ∷ codes "# Do not commit secrets."
    ∷ (codes "# Generated at: " ++ date)
    ∷ []

abbrev pub preferred_order : List Text
preferred_order =
    codes "NODE_ENV"
    ∷ codes "NUTTOO_NAME"
    ∷ codes "NUTTOO_TICKER"
    ∷ codes "PUBLIC_BASE_URL"
    ∷ codes "NUTTOO_API_PORT"
    ∷ codes "NUTTOO_WEB_PORT"
    ∷ codes "CORS_ORIGIN"
    ∷ codes "DATABASE_URL"
    ∷ codes "REDIS_URL"
    ∷ codes "JWT_SECRET"
    ∷ codes "API_KEY_SALT"
    ∷ codes "LOG_LEVEL"
    ∷ []

-- `main` behind the arguments; on an exit nothing is written.
unfoldable pub generate : Machine → Args → Files → Exit Files
generate m args fs = do
  let out = out_file m args
  guard (not (is_some (fs out)) || args.force || args.merge) 1
  let env = prod_env m args (fs out)
  ensure_required env (required_keys base_keys args.required_extra)
  validate_prod env args.allow_localhost
  ok (
      if args.dry_run
      then fs
      else write out (serialize_env_file m.not_after (header m.date) preferred_order env) fs)

-- `main`
unfoldable pub main : Machine → List Text → Files → Exit Files
main m argv fs = do args ← parse_args argv; generate m args fs
