-- ===== src/Scripts/Reset/Consent.antt =====
-- When scripts/db/reset.ts touches the database.
use psybot_ai.Base.{
  Bool, true, false, ◌≡◌, refl, sym, ap, ◌∙◌, ◌&&◌, ◌||◌, not, List, [], ◌∷◌, ◌++◌, if◌then◌else◌,
  Bool-cases, inl, inr, arith,
}
use psybot_ai.Base.Text.{Text}
use psybot_ai.Scripts.Args.{ok, ok_eq, exit-ok, guard, >>=-eq-ok, parse_all}
use psybot_ai.Scripts.Reset.{
  Args, no_args, options, parse_args, Command, run_seed, Machine, says_yes, schema_path, is_set,
  schema_command, run_all, commands, reset, reset_parsed, main,
}

-- What is run begins with what was run before.
run_all-done :
    (m : Machine) (c : Command) (done cs : List Command)
    → (rest : List Command) × ((run_all m (c ∷ done) cs).0 ≡ c ∷ rest)
unfolding run_all
run_all-done m c done [] = (done, refl)
run_all-done m c done (d ∷ cs) = elim (Bool-cases (m.succeeds d)) [
  | inl t ↦ let (rest, e) = run_all-done m c (done ++ d ∷ []) cs in (rest, rw t e)
  | inr f ↦ (done ++ d ∷ [], rw f refl)
]

head_eq : {a b : Command} {as' bs : List Command} → a ∷ as' ≡ b ∷ bs → a ≡ b
head_eq e = cc

first_run :
    (m : Machine) (d : Command) (ds : List Command) (c : Command) (cs : List Command)
    → (run_all m [] (d ∷ ds)).0 ≡ c ∷ cs
    → c ≡ d
unfolding run_all
first_run m d ds c cs e = elim (Bool-cases (m.succeeds d)) [
  | inl t ↦ let (rest, r) = run_all-done m d [] ds in head_eq (sym (rw t at e) ∙ r)
  | inr f ↦ head_eq (sym (rw f at e))
]

guard-true : (b : Bool) → guard b 1 ≡ ok tt → b ≡ true
guard-true true h = refl
guard-true false h = absurd (exit-ok h)

not-true : (b : Bool) → not b ≡ true → b ≡ false
not-true b h = ground arith

-- What must hold before a command is run.
pub record MayRun (m : Machine) (args : Args) : Type 0 where
  pub schema_there : m.paths.exists (schema_path m args) ≡ true
  pub url_set : is_set m.database_url ≡ true
  pub tool_there : (args.no_install_check || m.has_pnpm) ≡ true
  pub agreed : (args.force || says_yes m.answer) ≡ true
  pub one_mode : (args.migrate && args.push) ≡ false

either : (a b : Bool) → (not a && not b) ≡ false → (a || b) ≡ true
either a b h = ground arith

not-not : (a : Bool) → not a ≡ false → a ≡ true
not-not a h = ground arith

parse_args-one_mode :
    (argv : List Text) (args : Args)
    → parse_args argv ≡ ok args
    → (args.migrate && args.push) ≡ false
unfolding parse_args
parse_args-one_mode argv args e =
    let (x, _, e1) = >>=-eq-ok (parse_all options no_args argv) _ e in
    let (_, g, e2) = >>=-eq-ok (guard (not (x.migrate && x.push)) 1) _ e1 in
    ap (λ (r : Args). r.migrate && r.push) (sym (ok_eq e2))
    ∙ not-true (x.migrate && x.push) (guard-true (not (x.migrate && x.push)) g)

reset-MayRun :
    (m : Machine) (args : Args) (c : Command) (cs : List Command)
    → (args.migrate && args.push) ≡ false
    → (reset m args).0 ≡ c ∷ cs
    → MayRun m args × (c ≡ schema_command args (schema_path m args))
unfolding reset commands
reset-MayRun m args c cs o e = elim (Bool-cases (not (m.paths.exists (schema_path m args)))) [
  | inl t ↦ cc (rw t at e)
  | inr s ↦ elim (Bool-cases (not (is_set m.database_url))) [
    | inl t ↦ cc (rw (s, t) at e)
    | inr u ↦ elim (Bool-cases (not args.no_install_check && not m.has_pnpm)) [
      | inl t ↦ cc (rw (s, u, t) at e)
      | inr p ↦ elim (Bool-cases (not args.force && not (says_yes m.answer))) [
        | inl t ↦ cc (rw (s, u, p, t) at e)
        | inr a ↦ (
          record {
            schema_there = not-not (m.paths.exists (schema_path m args)) s;
            url_set = not-not (is_set m.database_url) u;
            tool_there = either args.no_install_check m.has_pnpm p;
            agreed = either args.force (says_yes m.answer) a;
            one_mode = o;
          },
          first_run m (schema_command args (schema_path m args))
              (if args.seed then run_seed ∷ [] else []) c cs (rw (s, u, p, a) at e),
        )
      ]
    ]
  ]
]

-- If any command is run, then the schema is there, DATABASE_URL is set, pnpm was found unless the
-- check is turned off, the user agreed or gave `--force`, and not both modes were asked for; and the
-- first command is the one that `--drop`, `--migrate` or neither stands for.
pub main-MayRun :
    (m : Machine) (argv : List Text) (args : Args) (c : Command) (cs : List Command)
    → parse_args argv ≡ ok args
    → (main m argv).0 ≡ c ∷ cs
    → MayRun m args × (c ≡ schema_command args (schema_path m args))
unfolding main
main-MayRun m argv args c cs e h =
    reset-MayRun m args c cs (parse_args-one_mode argv args e) (rw (e, reset_parsed) at h)
