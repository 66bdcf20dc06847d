-- ===== src/Scripts/GenProd/Accepted.antt =====
-- scripts/env/validate-env.ts on a file that gen-prod-env.ts wrote.
use psybot_ai.Base.{
  Bool, Bool-cases, inl, inr, or_else, ℕ, ◌≤◌, true, false, ◌≡◌, refl, sym, ap, ◌∙◌, subst, ◌||◌,
  not, Option, none, some, List, [], ◌∷◌, ◌++◌, if◌then◌else◌, or_default, length, All, arith,
}
use psybot_ai.Base.Text.{Text, codes, text_eq, text_eq_iff, lower, trim, trim_start}
use psybot_ai.Scripts.Args.{ok}
use psybot_ai.Scripts.EnvFile.{
  Kv, get, is_empty, distinct, keep, merge_env, parse_env_file, serialize_env_file,
  looks_like_localhost,
}
use psybot_ai.Scripts.EnvFile.Lookup.{IsUnique, get-merge_env}
use psybot_ai.Scripts.EnvFile.RoundTrip.{IsHeader, IsEntries, get-parse_env_file}
use psybot_ai.Scripts.GenDev.{Machine, Files, write}
use psybot_ai.Scripts.GenProd.{
  Args, parse_args, base_keys, required_keys, is_missing, value, out_file, prod_env, header,
  preferred_order, main,
}
use psybot_ai.Scripts.GenProd.Safe.{IsSafe, main-IsSafe}
use psybot_ai.Scripts.Validate.CommandLine
use psybot_ai.Scripts.Validate.CommandLine.{prod, is_prod}
use psybot_ai.Scripts.Validate.Checks.{
  check_key, check_keys, check_required, check_node_env, check_secret, required_keys_for_mode,
}

-- The checks that find nothing.
abbrev pub IsAccepted : CommandLine.Args → Kv → Type 0
IsAccepted a env =
    (check_required a env ≡ [])
    × (check_node_env a (value (codes "NODE_ENV") env) ≡ [])
    × (check_secret a (codes "JWT_SECRET") 32 (value (codes "JWT_SECRET") env) ≡ [])
    × (check_secret a (codes "API_KEY_SALT") 16 (value (codes "API_KEY_SALT") env) ≡ [])

is_missing-none : (env : Kv) (k : Text) → get k env ≡ none → is_missing env k ≡ true
unfolding is_missing trim trim_start
is_missing-none env k e = rw e refl

is_missing-empty : (env : Kv) (k : Text) → get k env ≡ some [] → is_missing env k ≡ true
unfolding is_missing trim trim_start
is_missing-empty env k e = rw e refl

check_key-is_missing :
    (a : CommandLine.Args) (env : Kv) (k : Text) (o : Option Text)
    → get k env ≡ o
    → is_missing env k ≡ false
    → check_key a k o ≡ []
unfolding check_key
check_key-is_missing a env k none e h = cc (is_missing-none env k e)
check_key-is_missing a env k (some []) e h = cc (is_missing-empty env k e)
check_key-is_missing a env k (some (c ∷ v)) e h = refl

check_keys-nil :
    (a : CommandLine.Args) (env : Kv) (ks : List Text)
    → All (λ k. is_missing env k ≡ false) ks
    → check_keys a env ks ≡ []
unfolding check_keys
check_keys-nil a env [] h = refl
check_keys-nil a env (k ∷ ks) (p, h) =
    rw (check_key-is_missing a env k (get k env) refl p) (check_keys-nil a env ks h)

check_node_env-production : (a : CommandLine.Args) → check_node_env a (codes "production") ≡ []
unfolding check_node_env text_eq lower
check_node_env-production a = ground arith

check_secret-long :
    (a : CommandLine.Args) (k : Text) (least : ℕ) (v : Text)
    → least ≤ length v
    → check_secret a k least v ≡ []
unfolding check_secret
check_secret-long a k least v h = ground arith

IsSafe-IsAccepted :
    (a : CommandLine.Args) (args : Args) (env : Kv)
    → a.mode ≡ prod
    → a.required_extra ≡ args.required_extra
    → IsSafe args env
    → IsAccepted a env
unfolding check_required required_keys required_keys_for_mode
IsSafe-IsAccepted a args env m x s = (
  ap (λ mode. check_keys a env (distinct (required_keys_for_mode mode ++ a.required_extra))) m
      ∙ ap (λ extra. check_keys a env (distinct (base_keys ++ extra))) x
      ∙ check_keys-nil a env (required_keys base_keys args.required_extra) s.required,
  ap (check_node_env a) s.production ∙ check_node_env-production a,
  check_secret-long a (codes "JWT_SECRET") 32 (value (codes "JWT_SECRET") env) s.jwt_secret,
  check_secret-long a (codes "API_KEY_SALT") 16 (value (codes "API_KEY_SALT") env) s.api_key_salt,
)

value-get : (k : Text) (x y : Kv) → get k y ≡ get k x → value k y ≡ value k x
value-get k x y e = ap (λ o. or_default o []) e

All-keep : (P : Text → Type 0) (p : Text → Bool) (ks : List Text) → All P ks → All P (keep p ks)
unfolding keep
All-keep P p [] h = tt
All-keep P p (k ∷ ks) (h, hs) = elim (Bool-cases (p k)) [
  | inl t ↦ rw t (h, All-keep P p ks hs)
  | inr f ↦ rw f (All-keep P p ks hs)
]

All-distinct : (P : Text → Type 0) (ks : List Text) → All P ks → All P (distinct ks)
unfolding distinct
All-distinct P [] h = tt
All-distinct P (k ∷ ks) (h, hs) =
    (h, All-keep P (λ j. not (text_eq k j)) (distinct ks) (All-distinct P ks hs))

All_missing :
    (x y : Kv) (ks : List Text)
    → All (λ k. get k y ≡ get k x) ks
    → All (λ k. is_missing x k ≡ false) ks
    → All (λ k. is_missing y k ≡ false) ks
unfolding is_missing
All_missing x y [] e h = tt
All_missing x y (k ∷ ks) (e, es) (p, h) =
    (ap (λ v. is_empty (trim v)) (value-get k x y e) ∙ p, All_missing x y ks es h)

-- Safety depends on what is read under the required keys only.
IsSafe-get :
    (args : Args) (x y : Kv)
    → All (λ k. get k y ≡ get k x) (base_keys ++ args.required_extra)
    → IsSafe args x
    → IsSafe args y
unfolding required_keys
IsSafe-get args x y all s =
    let agrees = λ (k : Text). get k y ≡ get k x in
    let (node_env, (_, (_, (database, (redis, (jwt, (salt, _))))))) = all in
    record {
      production = value-get (codes "NODE_ENV") x y node_env ∙ s.production;
      required =
          All_missing x y (required_keys base_keys args.required_extra)
            (All-distinct agrees (base_keys ++ args.required_extra) all) s.required;
      database =
          ap (λ v. args.allow_localhost || not (looks_like_localhost v))
            (value-get (codes "DATABASE_URL") x y database)
          ∙ s.database;
      redis =
          ap (λ v. args.allow_localhost || not (looks_like_localhost v))
            (value-get (codes "REDIS_URL") x y redis)
          ∙ s.redis;
      jwt_secret =
          subst (λ v. 32 ≤ length v) (sym (value-get (codes "JWT_SECRET") x y jwt)) s.jwt_secret;
      api_key_salt =
          subst (λ v. 16 ≤ length v) (sym (value-get (codes "API_KEY_SALT") x y salt))
            s.api_key_salt;
    }

All-map : {P Q : Text → Type 0} → ((k : Text) → P k → Q k) → (ks : List Text) → All P ks → All Q ks
All-map f [] h = tt
All-map f (k ∷ ks) (h, hs) = (f k h, All-map f ks hs)

write_self : (out content : Text) (fs : Files) → write out content fs out ≡ some content
write_self out content fs = rw ((text_eq_iff out out).1 refl) refl

-- What gen-prod-env.ts writes, validate-env.ts reads in its mode for production, with the same
-- additional keys and below the entries of its process, without a complaint about required keys,
-- NODE_ENV or the length of a secret; if the run is no dry run, the lines of the header are comments,
-- the entries can be read back, and the process has none of the required keys.
pub main-IsAccepted :
    (m : Machine) (argv : List Text) (args : Args) (fs fs' : Files) (a : CommandLine.Args)
    (process_env : Kv)
    → parse_args argv ≡ ok args
    → main m argv fs ≡ ok fs'
    → args.dry_run ≡ false
    → IsHeader (header m.date)
    → IsEntries (prod_env m args (fs (out_file m args)))
    → a.mode ≡ prod
    → a.required_extra ≡ args.required_extra
    → IsUnique process_env
    → All (λ k. get k process_env ≡ none) (base_keys ++ args.required_extra)
    → (raw : Text) × (fs' (out_file m args) ≡ some raw)
      × IsAccepted a (merge_env (parse_env_file raw) process_env)
main-IsAccepted m argv args fs fs' a process_env p e d hs h mode extra u free =
    let out = out_file m args in
    let env = prod_env m args (fs out) in
    let raw = serialize_env_file m.not_after (header m.date) preferred_order env in
    let merged = merge_env (parse_env_file raw) process_env in
    let (s, w, _) = main-IsSafe m argv args fs fs' p e in
    let read = λ (k : Text) (n : get k process_env ≡ none).
      get-merge_env k (parse_env_file raw) process_env u
      ∙ ap (λ o. or_else o (get k (parse_env_file raw))) n
      ∙ get-parse_env_file m.not_after (header m.date) preferred_order env k hs h in
    (
      raw,
      ap (λ (f : Files). f out) (w ∙ ap (λ b. if b then fs else write out raw fs) d)
          ∙ write_self out raw fs,
      IsSafe-IsAccepted a args merged mode extra
          (IsSafe-get args env merged (All-map read (base_keys ++ args.required_extra) free) s),
    )
