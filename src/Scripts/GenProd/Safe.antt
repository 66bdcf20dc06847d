-- ===== src/Scripts/GenProd/Safe.antt =====
-- What scripts/env/gen-prod-env.ts never writes.
use psybot_ai.Base.{
  ℕ, Bool, true, false, ◌≡◌, ◌≤◌, refl, sym, ◌||◌, not, List, [], ◌∷◌, if◌then◌else◌, is_some,
  length, ltb, All, Bool-cases, arith, inl, inr,
}
use psybot_ai.Base.Text.{Text, codes, text_eq, text_eq_iff}
use psybot_ai.Scripts.Args.{Exit, ok, exit, ok_eq, exit-ok, ◌>>◌, guard}
use psybot_ai.Scripts.EnvFile.{Kv, is_empty, keep, serialize_env_file, looks_like_localhost}
use psybot_ai.Scripts.GenDev.{Machine, Files, write}
use psybot_ai.Scripts.GenProd.{
  Args, parse_args, base_keys, required_keys, is_missing, is_nil, ensure_required, value,
  validate_prod, out_file, prod_env, header, preferred_order, generate, main,
}

-- An environment for a server.
pub record IsSafe (args : Args) (env : Kv) : Type 0 where
  pub production : value (codes "NODE_ENV") env ≡ codes "production"
  pub required : All (λ k. is_missing env k ≡ false) (required_keys base_keys args.required_extra)
  pub database :
      (args.allow_localhost || not (looks_like_localhost (value (codes "DATABASE_URL") env))) ≡ true
  pub redis :
      (args.allow_localhost || not (looks_like_localhost (value (codes "REDIS_URL") env))) ≡ true
  pub jwt_secret : 32 ≤ length (value (codes "JWT_SECRET") env)
  pub api_key_salt : 16 ≤ length (value (codes "API_KEY_SALT") env)

guard-ok :
    {A : Type 0} (b : Bool) (n : ℕ) (m : Exit A) {a : A}
    → (guard b n >> m) ≡ ok a
    → (b ≡ true) × (m ≡ ok a)
guard-ok true n m e = (refl, e)
guard-ok false n m e = absurd (exit-ok e)

guarded_true : (b : Bool) → guard b 1 ≡ ok tt → b ≡ true
guarded_true true h = refl
guarded_true false h = absurd (exit-ok h)

none_kept :
    (p : Text → Bool) (ks : List Text) → is_nil (keep p ks) ≡ true → All (λ k. p k ≡ false) ks
unfolding keep
none_kept p [] h = tt
none_kept p (k ∷ ks) h = elim (Bool-cases (p k)) [
  | inl t ↦ cc (rw t at h)
  | inr f ↦ (f, none_kept p ks (rw f at h))
]

-- The checks of `validateProd`, one after the other.
checked :
    (a b c d e f g : Bool)
    → (do guard a 1; guard b 1; guard c 1; guard d 1; guard e 1; guard f 1; guard g 1) ≡ ok tt
    → (a ≡ true) × (d ≡ true) × (e ≡ true) × (f ≡ true) × (g ≡ true)
checked true true true true true true true h = (refl, refl, refl, refl, refl)
checked true true true true true true false h = absurd (exit-ok h)
checked true true true true true false g h = absurd (exit-ok h)
checked true true true true false f g h = absurd (exit-ok h)
checked true true true false e f g h = absurd (exit-ok h)
checked true true false d e f g h = absurd (exit-ok h)
checked true false c d e f g h = absurd (exit-ok h)
checked false b c d e f g h = absurd (exit-ok h)

at_least : (n k : ℕ) → not (ltb n k) ≡ true → k ≤ n
at_least n k h = ground arith

validate_prod-IsSafe :
    (args : Args) (env : Kv)
    → ensure_required env (required_keys base_keys args.required_extra) ≡ ok tt
    → validate_prod env args.allow_localhost ≡ ok tt
    → IsSafe args env
unfolding validate_prod ensure_required
validate_prod-IsSafe args env r v =
    let local = args.allow_localhost in
    let ks = required_keys base_keys args.required_extra in
    let (a, d, e, f, g) =
      checked (text_eq (value (codes "NODE_ENV") env) (codes "production"))
        (not (is_empty (value (codes "PUBLIC_BASE_URL") env)))
        (not (is_empty (value (codes "CORS_ORIGIN") env)))
        (local || not (looks_like_localhost (value (codes "DATABASE_URL") env)))
        (local || not (looks_like_localhost (value (codes "REDIS_URL") env)))
        (not (ltb (length (value (codes "JWT_SECRET") env)) 32))
        (not (ltb (length (value (codes "API_KEY_SALT") env)) 16)) v in
    record {
      production = (text_eq_iff (value (codes "NODE_ENV") env) (codes "production")).0 a;
      required = none_kept (is_missing env) ks (guarded_true (is_nil (keep (is_missing env) ks)) r);
      database = d;
      redis = e;
      jwt_secret = at_least (length (value (codes "JWT_SECRET") env)) 32 f;
      api_key_salt = at_least (length (value (codes "API_KEY_SALT") env)) 16 g;
    }

>>-eq-ok :
    {A : Type 0} (m : Exit (Unit {0})) (k : Exit A) {a : A}
    → (m >> k) ≡ ok a
    → (m ≡ ok tt) × (k ≡ ok a)
>>-eq-ok (ok tt) k e = (refl, e)
>>-eq-ok (exit n) k e = absurd (exit-ok e)

-- The files after a run that succeeds.
abbrev pub written : Machine → Args → Files → Files
written m args fs =
    let env = prod_env m args (fs (out_file m args)) in
    if args.dry_run
    then fs
    else write (out_file m args)
        (serialize_env_file m.not_after (header m.date) preferred_order env) fs

generate-IsSafe :
    (m : Machine) (args : Args) (fs fs' : Files)
    → generate m args fs ≡ ok fs'
    → IsSafe args (prod_env m args (fs (out_file m args)))
      × (fs' ≡ written m args fs)
      × ((not (is_some (fs (out_file m args))) || args.force || args.merge) ≡ true)
unfolding generate
generate-IsSafe m args fs fs' e =
    let out = out_file m args in
    let env = prod_env m args (fs out) in
    let ks = required_keys base_keys args.required_extra in
    let local = args.allow_localhost in
    let end : Exit Files = ok (written m args fs) in
    let checks : Exit Files = ensure_required env ks >> (validate_prod env local >> end) in
    let free = not (is_some (fs out)) || args.force || args.merge in
    let (g, a) = >>-eq-ok (guard free 1) checks e in
    let (r, b) = >>-eq-ok (ensure_required env ks) (validate_prod env local >> end) a in
    let (v, c) = >>-eq-ok (validate_prod env local) end b in
    (validate_prod-IsSafe args env r v, sym (ok_eq c), guarded_true free g)

-- A run that succeeds has written nothing in a dry run, and else only the file named, which was not
-- there before unless `--force` or `--merge` is given. The environment that it wrote is safe: in
-- production, with every required key given by more than spaces, with a database and a queue that
-- are not local unless that is allowed, and with secrets of at least 32 and 16 units.
pub main-IsSafe :
    (m : Machine) (argv : List Text) (args : Args) (fs fs' : Files)
    → parse_args argv ≡ ok args
    → main m argv fs ≡ ok fs'
    → IsSafe args (prod_env m args (fs (out_file m args)))
      × (fs' ≡ written m args fs)
      × ((not (is_some (fs (out_file m args))) || args.force || args.merge) ≡ true)
unfolding main
main-IsSafe m argv args fs fs' p e = generate-IsSafe m args fs fs' (rw p at e)
