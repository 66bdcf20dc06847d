-- ===== src/Scripts/Validate/Sound.antt =====
-- What scripts/env/validate-env.ts lets through.
use psybot_ai.Base.{
  ℕ, Bool, true, false, ◌≡◌, ◌≢◌, refl, ap, ◌∙◌, ◌&&◌, ◌||◌, not, Option, none, some, List, [], ◌∷◌,
  ◌++◌, map, length, ltb, All, Bool-cases, Option-cases, arith, inl, inr,
}
use psybot_ai.Base.Text.{Text, codes, text_eq, lower}
use psybot_ai.Scripts.Args.{ok}
use psybot_ai.Scripts.Root.{Paths}
use psybot_ai.Scripts.EnvFile.{
  Kv, get, is_empty, mem, distinct, merge_env, parse_env_file, looks_like_localhost,
}
use psybot_ai.Scripts.Validate.CommandLine.{Args, is_prod, parse_args}
use psybot_ai.Scripts.Validate.Checks.{
  required_keys_for_mode, Issue, issue_if, missing, empty_value, invalid_port, invalid_url,
  localhost, too_short, not_production, unexpected_node_env, looks_like_url, failure, warning,
  value, check_key, check_keys, check_required, check_node_env, Parsers, as_int, is_port,
  check_port, check_server_url, check_secret, checks, concat, validate,
}
use psybot_ai.Scripts.Validate.Run.{
  is_fail, any_issue, exit_code, Files, file_of, check_file, run_args, main,
}

HasNoFail : List Issue → Type 0
HasNoFail is = any_issue is_fail is ≡ false

or_false : (a b : Bool) → (a || b) ≡ false → (a ≡ false) × (b ≡ false)
or_false false b h = (refl, h)
or_false true b h = cc

HasNoFail-append : (is js : List Issue) → HasNoFail (is ++ js) → HasNoFail is × HasNoFail js
unfolding HasNoFail any_issue
HasNoFail-append [] js h = (refl, h)
HasNoFail-append (i ∷ is) js h =
    let (a, r) = or_false (is_fail i.level) (any_issue is_fail (is ++ js)) h in
    let (b, c) = HasNoFail-append is js r in (rw (a, b) refl, c)

HasNoFail-concat : (iss : List (List Issue)) → HasNoFail (concat iss) → All HasNoFail iss
unfolding concat
HasNoFail-concat [] h = tt
HasNoFail-concat (is ∷ iss) h =
    let (a, r) = HasNoFail-append is (concat iss) h in (a, HasNoFail-concat iss r)

missing_fails : (k : Text) → HasNoFail (failure k missing ∷ []) → ⊥
unfolding HasNoFail any_issue
missing_fails k h = cc

issue_if-HasNoFail :
    (b : Bool) (i : Issue) → is_fail i.level ≡ true → HasNoFail (issue_if b i) → b ≡ false
unfolding HasNoFail any_issue
issue_if-HasNoFail true i e h = ground arith
issue_if-HasNoFail false i e h = refl

-- A database or queue: a URL, and in production not a local one unless that is allowed.
abbrev pub IsServerUrl : Args → Text → Type 0
IsServerUrl args v =
    ((is_empty v || looks_like_url v) ≡ true)
    × ((not (is_prod args.mode)
          || is_empty v
          || args.allow_localhost
          || not (looks_like_localhost v))
        ≡ true)

abbrev pub IsLong : Args → ℕ → Text → Type 0
IsLong args least v = (not (is_prod args.mode) || is_empty v || not (ltb (length v) least)) ≡ true

or_true : (a b : Bool) → (a || true || b) ≡ true
or_true true b = refl
or_true false b = refl

not_both : (a b : Bool) → (a && not b) ≡ false → (not a || false || b) ≡ true
not_both a b h = ground arith

not-false : (a : Bool) → not a ≡ false → a ≡ true
not-false a h = ground arith

not_all : (a b c : Bool) → (a && not b && c) ≡ false → (not a || false || b || not c) ≡ true
not_all a b c h = ground arith

too_long : (a b c : Bool) → (a && not b && c) ≡ false → (not a || b || not c) ≡ true
too_long a b c h = ground arith

-- What is required, of the environment and the arguments.
pub record IsSound (js : Parsers) (args : Args) (env : Kv) : Type 0 where
  pub required :
      All
        (λ k.
          (v : Text) × (get k env ≡ some v)
          × ((is_empty v && not (mem k args.allow_empty)) ≡ false))
        (distinct (required_keys_for_mode args.mode ++ args.required_extra))
  pub production :
      (not (is_prod args.mode)
        || is_empty (value (codes "NODE_ENV") env)
        || text_eq (map lower (value (codes "NODE_ENV") env)) (codes "production"))
      ≡ true
  pub api_port :
      (is_empty (value (codes "NUTTOO_API_PORT") env)
        || is_port (as_int js (value (codes "NUTTOO_API_PORT") env)))
      ≡ true
  pub web_port :
      (is_empty (value (codes "NUTTOO_WEB_PORT") env)
        || is_port (as_int js (value (codes "NUTTOO_WEB_PORT") env)))
      ≡ true
  pub database : IsServerUrl args (value (codes "DATABASE_URL") env)
  pub redis : IsServerUrl args (value (codes "REDIS_URL") env)
  pub jwt_secret : IsLong args 32 (value (codes "JWT_SECRET") env)
  pub api_key_salt : IsLong args 16 (value (codes "API_KEY_SALT") env)

check_key-HasNoFail :
    (args : Args) (env : Kv) (k : Text) (o : Option Text)
    → get k env ≡ o
    → HasNoFail (check_key args k o)
    → (v : Text) × (get k env ≡ some v) × ((is_empty v && not (mem k args.allow_empty)) ≡ false)
unfolding check_key
check_key-HasNoFail args env k none e h = absurd (missing_fails k h)
check_key-HasNoFail args env k (some v) e h =
    let b = is_empty v && not (mem k args.allow_empty) in
    (v, e, issue_if-HasNoFail b (failure k empty_value) refl h)

check_keys-HasNoFail :
    (args : Args) (env : Kv) (ks : List Text)
    → HasNoFail (check_keys args env ks)
    → All
        (λ k.
          (v : Text) × (get k env ≡ some v)
          × ((is_empty v && not (mem k args.allow_empty)) ≡ false))
        ks
unfolding check_keys
check_keys-HasNoFail args env [] h = tt
check_keys-HasNoFail args env (k ∷ ks) h =
    let (a, r) = HasNoFail-append (check_key args k (get k env)) (check_keys args env ks) h in
    (check_key-HasNoFail args env k (get k env) refl a, check_keys-HasNoFail args env ks r)

check_node_env-HasNoFail :
    (args : Args) (v : Text)
    → HasNoFail (check_node_env args v)
    → (not (is_prod args.mode) || is_empty v || text_eq (map lower v) (codes "production")) ≡ true
unfolding check_node_env
check_node_env-HasNoFail args [] h =
    or_true (not (is_prod args.mode)) (text_eq [] (codes "production"))
check_node_env-HasNoFail args (c ∷ s) h =
    let v = map lower (c ∷ s) in
    let good =
      text_eq v (codes "development")
      || text_eq v (codes "production")
      || text_eq v (codes "test") in
    let bad = is_prod args.mode && not (text_eq v (codes "production")) in
    let (_, r) =
      HasNoFail-append (issue_if (not good) (warning (codes "NODE_ENV") unexpected_node_env))
        (issue_if bad (failure (codes "NODE_ENV") not_production)) h in
    not_both (is_prod args.mode) (text_eq v (codes "production"))
      (issue_if-HasNoFail bad (failure (codes "NODE_ENV") not_production) refl r)

check_port-HasNoFail :
    (js : Parsers) (k v : Text)
    → HasNoFail (check_port js k v)
    → (is_empty v || is_port (as_int js v)) ≡ true
unfolding check_port
check_port-HasNoFail js k [] h = refl
check_port-HasNoFail js k (c ∷ s) h =
    not-false (is_port (as_int js (c ∷ s)))
      (issue_if-HasNoFail (not (is_port (as_int js (c ∷ s)))) (failure k invalid_port) refl h)

check_server_url-HasNoFail :
    (args : Args) (k v : Text) → HasNoFail (check_server_url args k v) → IsServerUrl args v
unfolding check_server_url
check_server_url-HasNoFail args k [] h = (refl, ground arith)
check_server_url-HasNoFail args k (c ∷ s) h =
    let local = is_prod args.mode && not args.allow_localhost && looks_like_localhost (c ∷ s) in
    let (a, r) =
      HasNoFail-append (issue_if (not (looks_like_url (c ∷ s))) (failure k invalid_url))
        (issue_if local (failure k localhost)) h in
    (
      not-false (looks_like_url (c ∷ s))
          (issue_if-HasNoFail (not (looks_like_url (c ∷ s))) (failure k invalid_url) refl a),
      not_all (is_prod args.mode) args.allow_localhost (looks_like_localhost (c ∷ s))
          (issue_if-HasNoFail local (failure k localhost) refl r),
    )

check_secret-HasNoFail :
    (args : Args) (k : Text) (least : ℕ) (v : Text)
    → HasNoFail (check_secret args k least v)
    → IsLong args least v
unfolding check_secret
check_secret-HasNoFail args k least v h =
    let short = is_prod args.mode && not (is_empty v) && ltb (length v) least in
    too_long (is_prod args.mode) (is_empty v) (ltb (length v) least)
      (issue_if-HasNoFail short (failure k too_short) refl h)

exit_code-HasNoFail : (strict : Bool) (is : List Issue) → exit_code strict is ≢ 2 → HasNoFail is
unfolding exit_code HasNoFail
exit_code-HasNoFail strict is h = elim (Bool-cases (any_issue is_fail is)) [
  | inl t ↦ absurd (h (rw t refl))
  | inr f ↦ f
]

HasNoFail-IsSound :
    (js : Parsers) (args : Args) (env : Kv) → HasNoFail (validate js args env) → IsSound js args env
unfolding validate checks check_required
HasNoFail-IsSound js args env h =
    let (a, (b, (c, (d, (e, (f, (_, (_, (g, (i, _)))))))))) =
      HasNoFail-concat (checks js args env) h in
    record {
      required =
          check_keys-HasNoFail args env
            (distinct (required_keys_for_mode args.mode ++ args.required_extra)) a;
      production = check_node_env-HasNoFail args (value (codes "NODE_ENV") env) b;
      api_port =
          check_port-HasNoFail js (codes "NUTTOO_API_PORT") (value (codes "NUTTOO_API_PORT") env) c;
      web_port =
          check_port-HasNoFail js (codes "NUTTOO_WEB_PORT") (value (codes "NUTTOO_WEB_PORT") env) d;
      database =
          check_server_url-HasNoFail args (codes "DATABASE_URL") (value (codes "DATABASE_URL") env)
            e;
      redis = check_server_url-HasNoFail args (codes "REDIS_URL") (value (codes "REDIS_URL") env) f;
      jwt_secret =
          check_secret-HasNoFail args (codes "JWT_SECRET") 32 (value (codes "JWT_SECRET") env) g;
      api_key_salt =
          check_secret-HasNoFail args (codes "API_KEY_SALT") 16 (value (codes "API_KEY_SALT") env)
            i;
    }

check_file-IsSound :
    (js : Parsers) (args : Args) (process_env : Kv) (raw : Text)
    → check_file js args process_env (some raw) ≢ 2
    → IsSound js args (merge_env (parse_env_file raw) process_env)
unfolding check_file
check_file-IsSound js args process_env raw h =
    let env = merge_env (parse_env_file raw) process_env in
    HasNoFail-IsSound js args env (exit_code-HasNoFail args.strict (validate js args env) h)

-- If the script does not end with 2 then the file is there, and the entries of the file under those
-- of the process have every required key, empty only where that is allowed, numbers from 1 to 65535
-- for the ports, URLs for the database and the queue, and in production NODE_ENV of production, a
-- database and a queue that are not local unless allowed, and secrets of 32 and 16 units; all but
-- the required keys may be missing.
pub main-IsSound :
    (js : Parsers) (p : Paths) (cwd : Text) (process_env : Kv) (fs : Files) (argv : List Text)
    (args : Args)
    → parse_args argv ≡ ok args
    → main js p cwd process_env fs argv ≢ 2
    → (raw : Text) × (fs (file_of p cwd args) ≡ some raw)
      × IsSound js args (merge_env (parse_env_file raw) process_env)
unfolding main run_args
main-IsSound js p cwd process_env fs argv args e h = elim (Option-cases (fs (file_of p cwd args))) [
  | inl n ↦ absurd (h (rw (e, run_args) (rw (n, check_file) refl)))
  | inr (raw, s) ↦ (
    raw,
    s,
    check_file-IsSound js args process_env raw
        (λ t. h (rw (e, run_args) (ap (check_file js args process_env) s ∙ t))),
  )
]
