-- ===== src/Scripts/Tests/Env.antt =====
-- Concrete runs of the scripts for environment files.
use psybot_ai.Base.{
  All, true, false, ◌≡◌, ◌≢◌, refl, ◌||◌, not, none, some, List, [], ◌∷◌, ◌++◌, if◌then◌else◌,
  is_some, arith, pos,
}
use psybot_ai.Base.Text.{Text, codes, is_space, text_eq, starts_with}
use psybot_ai.Scripts.Args.{ok}
use psybot_ai.Scripts.Root.{find_repo_root}
use psybot_ai.Scripts.EnvFile.{
  get, merge_env, is_quoted, parse_env_file, serialize_env_file, looks_like_localhost,
}
use psybot_ai.Scripts.EnvFile.Values.{parse_line_comment}
use psybot_ai.Scripts.EnvFile.Lookup.{IsUnique}
use psybot_ai.Scripts.EnvFile.RoundTrip.{IsHeader, IsEntries}
use psybot_ai.Scripts.GenDev
use psybot_ai.Scripts.GenDev.{Machine, Files, write, final_env, out_file, existing_env}
use psybot_ai.Scripts.GenDev.Merge.{main-layered, layered, root_of, found}
use psybot_ai.Scripts.EnvFile.{keep, merge_env, mem, keys, parse_env_file, Kv, get}
use psybot_ai.Scripts.GenProd
use psybot_ai.Scripts.GenProd.Safe.{IsSafe, written, main-IsSafe}
use psybot_ai.Scripts.GenProd.Accepted.{IsAccepted, main-IsAccepted}
use psybot_ai.Scripts.Validate.Checks
use psybot_ai.Scripts.Validate.CommandLine
use psybot_ai.Scripts.Validate.Print
use psybot_ai.Scripts.Validate.Run
use psybot_ai.Scripts.Validate.Sound.{IsSound, main-IsSound}
use psybot_ai.Scripts.Validate.Redact.{redact_middle}
use psybot_ai.Scripts.Tests.{
  lines_of, all_of, is_no_break, are_entries, are_entries-IsEntries, small_paths, keep_order,
}

abbrev day : Text
day = codes "2025-01-02T03:04:05.678Z"

abbrev machine : Machine
machine = record {
  paths = small_paths;
  cwd = codes "xr";
  hostname = codes "pc";
  date = day;
  not_after = keep_order;
  jwt_secret = codes "0123456789abcdef0123456789abcdef0123456789abcdef0123456789abcdef";
  api_key_salt = codes "0123456789abcdef0123456789abcdef";
}

abbrev dev_argv : List Text
dev_argv = codes "LOG_LEVEL=debug" ∷ []

abbrev dev_args : GenDev.Args
dev_args = record GenDev.no_args { overrides = (codes "LOG_LEVEL", codes "debug") ∷ [] }

abbrev dev_out : Text
dev_out = codes "r/.env"

abbrev dev_files : Files
dev_files = λ p. if text_eq p dev_out then some (codes "NUTTOO_NAME='My name'\n") else none

dev_args_parsed : GenDev.parse_args dev_argv ≡ ok dev_args
unfolding GenDev.parse_args text_eq starts_with
dev_args_parsed = refl

dev_out_file : out_file machine dev_args ≡ dev_out
unfolding out_file starts_with
dev_out_file = refl

dev_header-IsHeader : IsHeader (GenDev.header day)
unfolding all_of is_no_break
dev_header-IsHeader = (
  (
    lines_of (codes "# Auto-generated by scripts/env/gen-dev-env.ts") refl,
    parse_line_comment (codes " Auto-generated by scripts/env/gen-dev-env.ts"),
  ),
  (
    (
      lines_of (codes "# Safe to edit locally. Do not commit this file.") refl,
      parse_line_comment (codes " Safe to edit locally. Do not commit this file."),
    ),
    (
      (
        lines_of (codes "# Generated at: 2025-01-02T03:04:05.678Z") refl,
        parse_line_comment (codes " Generated at: 2025-01-02T03:04:05.678Z"),
      ),
      tt,
    ),
  ),
)

dev_env-IsEntries :
    IsEntries (final_env machine dev_args (root_of machine) (found machine dev_args dev_files))
unfolding final_env are_entries is_quoted starts_with is_space text_eq existing_env out_file
    find_repo_root
dev_env-IsEntries =
    are_entries-IsEntries
      (final_env machine dev_args (root_of machine) (found machine dev_args dev_files)) refl

main-layered_example :
    (fs' : Files) × (GenDev.main machine dev_argv dev_files ≡ ok fs')
    × (get (codes "NUTTOO_NAME") (existing_env true (fs' (out_file machine dev_args)))
        ≡ layered machine dev_args
            (root_of machine)
            (found machine dev_args dev_files)
            (codes "NUTTOO_NAME"))
    × (fs'
        ≡ write
            (out_file machine dev_args)
            (serialize_env_file keep_order
              (GenDev.header day)
              GenDev.preferred_order
              (final_env machine dev_args (root_of machine) (found machine dev_args dev_files)))
            dev_files)
unfolding text_eq
main-layered_example =
    main-layered machine dev_argv dev_args dev_files (codes "NUTTOO_NAME") dev_args_parsed refl refl
      (refl, (refl, (refl, (refl, (refl, tt))))) dev_header-IsHeader dev_env-IsEntries

-- The name in the file is kept.
kept_name :
    layered machine dev_args
      (root_of machine)
      (found machine dev_args dev_files)
      (codes "NUTTOO_NAME")
    ≡ some (codes "My name")
unfolding text_eq existing_env out_file find_repo_root get starts_with
kept_name = refl

abbrev prod_argv : List Text
prod_argv =
    codes "--set"
    ∷ codes "DATABASE_URL=postgresql://db/n"
    ∷ codes "REDIS_URL=redis://q"
    ∷ codes "PUBLIC_BASE_URL=https://n.example"
    ∷ codes "CORS_ORIGIN=https://n.example"
    ∷ []

abbrev prod_args : GenProd.Args
prod_args = record GenProd.no_args {
  overrides =
      (codes "DATABASE_URL", codes "postgresql://db/n")
      ∷ (codes "REDIS_URL", codes "redis://q")
      ∷ (codes "PUBLIC_BASE_URL", codes "https://n.example")
      ∷ (codes "CORS_ORIGIN", codes "https://n.example")
      ∷ [];
}

abbrev no_files : Files
no_files = λ p. none

prod_args_parsed : GenProd.parse_args prod_argv ≡ ok prod_args
unfolding GenProd.parse_args text_eq starts_with
prod_args_parsed = refl

prod_ok : GenProd.main machine prod_argv no_files ≡ ok (written machine prod_args no_files)
unfolding GenProd.main GenProd.parse_args GenProd.generate GenProd.out_file GenProd.prod_env
    GenProd.ensure_required GenProd.required_keys GenProd.validate_prod GenProd.is_missing text_eq
    starts_with find_repo_root get looks_like_localhost keep
prod_ok = refl

prod_env-IsEntries :
    IsEntries (GenProd.prod_env machine prod_args (no_files (GenProd.out_file machine prod_args)))
unfolding GenProd.prod_env are_entries is_quoted starts_with is_space text_eq
prod_env-IsEntries =
    are_entries-IsEntries
      (GenProd.prod_env machine prod_args (no_files (GenProd.out_file machine prod_args))) refl

prod_header-IsHeader : IsHeader (GenProd.header day)
unfolding all_of is_no_break
prod_header-IsHeader = (
  (
    lines_of (codes "# Auto-generated by scripts/env/gen-prod-env.ts") refl,
    parse_line_comment (codes " Auto-generated by scripts/env/gen-prod-env.ts"),
  ),
  (
    (
      lines_of (codes "# Production environment file") refl,
      parse_line_comment (codes " Production environment file"),
    ),
    (
      (
        lines_of (codes "# Do not commit secrets.") refl,
        parse_line_comment (codes " Do not commit secrets."),
      ),
      (
        (
          lines_of (codes "# Generated at: 2025-01-02T03:04:05.678Z") refl,
          parse_line_comment (codes " Generated at: 2025-01-02T03:04:05.678Z"),
        ),
        tt,
      ),
    ),
  ),
)

main-IsSafe_example :
    IsSafe prod_args
      (GenProd.prod_env machine prod_args (no_files (GenProd.out_file machine prod_args)))
    × (written machine prod_args no_files ≡ written machine prod_args no_files)
    × ((not (is_some (no_files (GenProd.out_file machine prod_args)))
          || prod_args.force
          || prod_args.merge)
        ≡ true)
main-IsSafe_example =
    main-IsSafe machine prod_argv prod_args no_files (written machine prod_args no_files)
      prod_args_parsed prod_ok

abbrev prod_check : CommandLine.Args
prod_check = record CommandLine.no_args { mode = CommandLine.prod }

-- The entries of a process that sets other keys.
abbrev shell : Kv
shell = (codes "HOME", codes "/root") ∷ (codes "LANG", codes "C") ∷ []

shell_free : All (λ k. get k shell ≡ none) (GenProd.base_keys ++ prod_args.required_extra)
unfolding get text_eq
shell_free = (refl, (refl, (refl, (refl, (refl, (refl, (refl, tt)))))))

shell-IsUnique : IsUnique shell
unfolding mem keys text_eq
shell-IsUnique = (refl, (refl, tt))

main-IsAccepted_example :
    (raw : Text) × (written machine prod_args no_files (GenProd.out_file machine prod_args)
      ≡ some raw)
    × IsAccepted prod_check (merge_env (parse_env_file raw) shell)
main-IsAccepted_example =
    main-IsAccepted machine prod_argv prod_args no_files (written machine prod_args no_files)
      prod_check shell prod_args_parsed prod_ok refl prod_header-IsHeader prod_env-IsEntries refl
      refl shell-IsUnique shell_free

-- A port that is a number, and no URL.
abbrev parsers : Checks.Parsers
parsers = record {
  number = λ v. if text_eq v (codes "8787") then some (pos 8787) else none;
  url_port = λ v. none;
  url_is_https = λ v. false;
}

abbrev check_argv : List Text
check_argv = codes "--mode" ∷ codes "dev" ∷ []

abbrev check_args : CommandLine.Args
check_args = record CommandLine.no_args { file_path = codes ".env" }

abbrev check_raw : Text
check_raw =
    codes
      "NODE_ENV=development\nNUTTOO_NAME=N\nNUTTOO_TICKER=N\nNUTTOO_API_PORT=8787\nNUTTOO_WEB_PORT=8787\n"
    ++ codes "DATABASE_URL=a://b\nREDIS_URL=a://c\nCORS_ORIGIN=http://d\n"

abbrev check_files : Files
check_files = λ p. some check_raw

check_args_parsed : CommandLine.parse_args check_argv ≡ ok check_args
unfolding CommandLine.parse_args text_eq
check_args_parsed = refl

check_ok : Run.main parsers small_paths (codes "xr") [] check_files check_argv ≢ 2
unfolding Run.main CommandLine.parse_args Checks.validate Run.exit_code Checks.checks text_eq
    Checks.check_required Checks.check_node_env Checks.check_port Checks.check_server_url
    Checks.check_cors Checks.check_public_base Checks.check_secret Checks.check_ports get
    starts_with
check_ok = λ e. absurd (omega arith)

main-IsSound_example :
    (raw : Text) × (check_files (Run.file_of small_paths (codes "xr") check_args) ≡ some raw)
    × IsSound parsers check_args (merge_env (parse_env_file raw) [])
main-IsSound_example =
    main-IsSound parsers small_paths (codes "xr") [] check_files check_argv check_args
      check_args_parsed check_ok

redact_middle_example :
    Print.redact (codes "API_TOKEN") (codes "abc" ++ (codes "-" ++ codes "xyz"))
    ≡ Print.redact (codes "API_TOKEN") (codes "abc" ++ (codes "-----" ++ codes "xyz"))
unfolding Print.is_secret Print.upper starts_with
redact_middle_example =
    redact_middle (codes "API_TOKEN") (codes "abc") (codes "-") (codes "-----") (codes "xyz") refl
      refl refl (λ e. cc) (λ e. cc)
