-- ===== src/Scripts/Tests/Build.antt =====
-- Concrete runs of the scripts for versions, release notes, the tree, the database and wallets.
use psybot_ai.Base.{
  Bool, true, false, ◌≡◌, ◌≢◌, refl, not, none, some, List, [], ◌∷◌, ◌++◌, if◌then◌else◌, All,
  arith, length,
}
use psybot_ai.Base.Text.{Text, codes, is_space, text_eq, starts_with}
use psybot_ai.Scripts.Args.{ok}
use psybot_ai.Scripts.EnvFile.{any, distinct, mem}
use psybot_ai.Scripts.Version
use psybot_ai.Scripts.Version.Normal.{main-normalize_base}
use psybot_ai.Scripts.ReleaseNotes.{Commit, classify, no_commits}
use psybot_ai.Scripts.ReleaseNotes.Partition.{count, total, classify-total}
use psybot_ai.Scripts.LintTree
use psybot_ai.Scripts.LintTree.{Nodes, file, dir, nil, cons}
use psybot_ai.Scripts.LintTree.Sound.{here, inside, IsAllowed, main-IsAllowed}
use psybot_ai.Scripts.Seed.{Db, Ids, seed}
use psybot_ai.Scripts.Seed.Again.{seed-seed}
use psybot_ai.Scripts.Reset
use psybot_ai.Scripts.Reset.{Command, db_push, run_seed}
use psybot_ai.Scripts.Reset.Consent.{MayRun, main-MayRun}
use psybot_ai.Scripts.Wallets
use psybot_ai.Scripts.Wallets.{Files, WalletRecord, is_there}
use psybot_ai.Scripts.Wallets.Keep.{main_keeps}
use psybot_ai.Scripts.Tests.{small_paths, slash}

abbrev build_machine : Version.Machine
build_machine = record {
  paths = small_paths;
  cwd = codes "xr";
  env = (codes "GITHUB_SHA", codes "0123456789") ∷ (codes "BUILD_NUMBER", codes "42") ∷ [];
  git = none;
  package_version = some (some (codes "1.20.3-beta"));
}

abbrev build_argv : List Text
build_argv = codes "--tag" ∷ codes "ci" ∷ []

abbrev build_info : Version.VersionInfo
build_info = record {
  version = codes "1.20.3-ci.42+g0123456";
  base = codes "1.20.3";
  tag = Version.ci;
  sha = codes "0123456";
  build = codes "42";
}

build_ok : Version.main build_machine build_argv ≡ ok (build_info, [])
unfolding Version.main Version.parse_args Version.version_info Version.read_package_json_version
    Version.normalize_base Version.git_sha_short Version.build_number Version.compute_version
    Version.out_files text_eq Version.is_line_end Version.group Version.dot
build_ok = refl

main-normalize_base_example :
    Version.normalize_base (codes "1.20.3-ci.42+g0123456") ≡ ok (codes "1.20.3")
unfolding any Version.is_line_end
main-normalize_base_example =
    main-normalize_base build_machine build_argv build_info [] build_ok refl

abbrev commit : Text → Commit
commit s = record { sha = codes "0123456789"; subject = s; body = [] }

abbrev commits : List Commit
commits = commit (codes "feat: a") ∷ commit (codes "docs: b") ∷ commit (codes "Feat!: c") ∷ []

abbrev is_docs : Commit → Bool
is_docs c = starts_with c.subject (codes "docs")

classify-total_example :
    (total is_docs (classify commits) ≡ count is_docs commits)
    × All (λ s. no_commits s.commits ≡ false) (classify commits)
classify-total_example = classify-total is_docs commits

abbrev disk : LintTree.Disk
disk = record {
  paths = record small_paths { exists = λ p. not (text_eq p (codes "xr/dist")) };
  cwd = codes "xr";
  basename = λ p. p;
  extname = λ p. [];
  relative = λ r p. p;
  is_dir = λ p. true;
  limit = λ v. none;
}

abbrev lint_argv : List Text
lint_argv = codes "--root" ∷ codes "xr" ∷ codes "--deny" ∷ codes "dist" ∷ []

abbrev lint_args : LintTree.Args
lint_args = record LintTree.no_args { root = codes "xr"; deny_paths = codes "dist" ∷ [] }

abbrev lint_tree : Nodes
lint_tree = cons (codes "a") (dir (cons (codes "b") (file 7) nil)) nil

lint_parsed : LintTree.parse_args disk lint_argv ≡ ok lint_args
unfolding LintTree.parse_args text_eq
lint_parsed = refl

lint_ok : LintTree.main disk lint_tree lint_argv ≢ 2
unfolding LintTree.main LintTree.parse_args LintTree.exit_code LintTree.lint_structure LintTree.walk
    LintTree.walk_node LintTree.lint_file text_eq distinct mem LintTree.exists LintTree.is_file
lint_ok e = absurd (omega arith)

main-IsAllowed_example :
    All
      (λ p. not (LintTree.exists disk lint_args p) ≡ false)
      (distinct LintTree.default_required_paths)
    × All (λ p. LintTree.exists disk lint_args p ≡ false) (codes "dist" ∷ [])
    × All (λ p. LintTree.is_file disk lint_args p ≡ false) LintTree.script_dirs
    × IsAllowed disk lint_args (codes "xr/a/b")
main-IsAllowed_example =
    main-IsAllowed disk lint_tree lint_argv lint_args (codes "xr/a/b") lint_parsed lint_ok
      (inside (here refl))

abbrev ids : Ids
ids = record { user = codes "1"; project = codes "2"; module_of = λ k. k }

abbrev other_ids : Ids
other_ids = record { user = codes "3"; project = codes "4"; module_of = λ k. codes "5" }

abbrev no_rows : Db
no_rows = record { users = []; projects = []; modules = []; settings = [] }

seed-seed_example : seed false other_ids (seed true ids no_rows) ≡ seed true ids no_rows
seed-seed_example = seed-seed true ids other_ids no_rows

abbrev reset_machine : Reset.Machine
reset_machine = record {
  paths = record small_paths { exists = λ p. true };
  cwd = codes "r";
  database_url = some (codes "a://b");
  has_pnpm = true;
  answer = codes " Yes\n";
  succeeds = λ c. true;
}

abbrev reset_argv : List Text
reset_argv = codes "--schema" ∷ codes "s" ∷ codes "--seed" ∷ []

abbrev reset_args : Reset.Args
reset_args = record Reset.no_args { schema = codes "s"; seed = true }

reset_parsed : Reset.parse_args reset_argv ≡ ok reset_args
unfolding Reset.parse_args text_eq
reset_parsed = refl

reset_ran : (Reset.main reset_machine reset_argv).0 ≡ db_push (codes "r/s") ∷ run_seed ∷ []
unfolding Reset.main Reset.parse_args Reset.reset Reset.run_all Reset.commands Reset.says_yes
    text_eq is_space
reset_ran = refl

main-MayRun_example :
    MayRun reset_machine reset_args
    × (db_push (codes "r/s")
        ≡ Reset.schema_command reset_args (Reset.schema_path reset_machine reset_args))
main-MayRun_example =
    main-MayRun reset_machine reset_argv reset_args (db_push (codes "r/s")) (run_seed ∷ [])
      reset_parsed reset_ran

abbrev wallet_machine : Wallets.Machine
wallet_machine = record {
  numbers = record { natural = λ v. some 2; floor = λ v. some 0 };
  join = slash;
  basename = λ p. p;
  is_absolute = λ p. false;
  cwd = codes "r";
  default_dir = codes "d";
  has_keygen = true;
  has_solana = true;
  keygen = λ p. some (codes "[1]");
  pubkey = λ p. some (codes "key\n");
  solana = λ a. true;
}

abbrev wallet_argv : List Text
wallet_argv = codes "--count" ∷ codes "2" ∷ []

abbrev wallet_args : Wallets.Args
wallet_args = record (Wallets.defaults (codes "d")) { count = 2 }

abbrev wallet_files : Files
wallet_files = λ p. if text_eq p (codes "note") then some (codes "mine") else none

wallet_parsed : Wallets.parse_args wallet_machine.numbers (codes "d") wallet_argv ≡ ok wallet_args
unfolding Wallets.parse_args text_eq
wallet_parsed = refl

abbrev wallet : Text → WalletRecord
wallet name = record {
  name = codes "r/d/" ++ (name ++ codes ".json");
  file = codes "r/d/" ++ (name ++ codes ".json");
  pubkey = codes "key";
}

abbrev wallets : List WalletRecord
wallets = wallet (codes "wallet-001") ∷ wallet (codes "wallet-002") ∷ []

abbrev made_files : Files
made_files = Wallets.update (codes "r/d/wallet-002.json") (some (codes "[1]")) (
    Wallets.update (codes "r/d/wallet-002.json") none (
      Wallets.update (codes "r/d/wallet-001.json") (some (codes "[1]"))
        (Wallets.update (codes "r/d/wallet-001.json") none wallet_files)))

wallets_made : Wallets.main wallet_machine wallet_argv wallet_files ≡ ok (wallets, made_files)
unfolding Wallets.main Wallets.parse_args Wallets.create Wallets.create_wallets Wallets.out_dir_of
    text_eq is_space
wallets_made = refl

main_keeps_example :
    (length wallets ≡ 2)
    × (made_files (codes "note") ≡ some (codes "mine"))
    × All (λ (w : WalletRecord). is_there (wallet_files w.file) ≡ false) wallets
unfolding text_eq
main_keeps_example =
    main_keeps wallet_machine wallet_argv wallet_args wallet_files made_files wallets (codes "note")
      (codes "mine") wallet_parsed refl wallets_made refl
