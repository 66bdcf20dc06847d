-- ===== src/Scripts/Wallets.antt =====
-- scripts/solana/create-test-wallets.ts: key files and airdrops. The tools of Solana, the functions
-- of `path` and the numbers that `Number` reads are parameters; a file is its text, and a directory
-- is made where it is missing.
pub mod Keep
use psybot_ai.Base.{
  ℕ, zero, suc, ◌-◌, Bool, true, false, ◌&&◌, ◌||◌, not, Option, none, some, List, [], ◌∷◌, ◌++◌,
  map, ltb, leb, length, if◌then◌else◌, or_default,
}
use psybot_ai.Base.Text.{Text, codes, text_eq, trim}
use psybot_ai.Scripts.Args.{Exit, ok, exit, ◌>>=◌, ◌>>◌, guard, Options, parse_all}
use psybot_ai.Scripts.EnvFile.{is_empty, split_lines}
use psybot_ai.Agent.Summarizer.{decimal}

pub record Args : Type 0 where
  pub out_dir : Text
  pub count : ℕ
  pub prefix : Text
  pub force : Bool
  pub fund : Bool
  pub amount : Text
  pub url : Option Text
  pub keypair : Option Text
  pub commitment : Text
  pub sleep_ms : ℕ
  pub print : Bool
  pub json : Bool

-- `Number(v)` where it is a natural number, and the floor of one that is not negative.
pub record Numbers : Type 0 where
  pub natural : Text → Option ℕ
  pub floor : Text → Option ℕ

abbrev pub defaults : Text → Args
defaults out_dir = record {
  out_dir = out_dir;
  count = 5;
  prefix = codes "wallet";
  force = false;
  fund = false;
  amount = codes "2";
  url = none;
  keypair = none;
  commitment = codes "confirmed";
  sleep_ms = 250;
  print = false;
  json = false;
}

takes_value : Text → Bool
takes_value a =
    text_eq a (codes "--out")
    || text_eq a (codes "--count")
    || text_eq a (codes "--prefix")
    || text_eq a (codes "--amount")
    || text_eq a (codes "--url")
    || text_eq a (codes "--keypair")
    || text_eq a (codes "--commitment")
    || text_eq a (codes "--sleep")

-- From 1 to 500.
unfoldable pub read_count : Option ℕ → Exit ℕ
read_count none = exit 1
read_count (some n) = if ltb 0 n && leb n 500 then ok n else exit 1

-- Up to 60000.
unfoldable pub read_sleep : Option ℕ → Exit ℕ
read_sleep none = exit 1
read_sleep (some n) = if leb n 60000 then ok n else exit 1

with_value : Numbers → Text → Text → Args → Exit Args
unfolding read_count read_sleep
with_value js a v args =
    if is_empty v
    then exit 1
    else if text_eq a (codes "--out")
    then ok (record args { out_dir = v })
    else if text_eq a (codes "--count")
    then (do n ← read_count (js.natural v); ok (record args { count = n }))
    else if text_eq a (codes "--prefix")
    then ok (record args { prefix = v })
    else if text_eq a (codes "--amount")
    then ok (record args { amount = v })
    else if text_eq a (codes "--url")
    then ok (record args { url = some v })
    else if text_eq a (codes "--keypair")
    then ok (record args { keypair = some v })
    else if text_eq a (codes "--commitment")
    then ok (record args { commitment = v })
    else (do n ← read_sleep (js.floor v); ok (record args { sleep_ms = n }))

argument : Text → Args → Exit Args
argument a args =
    if text_eq a (codes "--force")
    then ok (record args { force = true })
    else if text_eq a (codes "--fund")
    then ok (record args { fund = true })
    else if text_eq a (codes "--print")
    then ok (record args { print = true })
    else if text_eq a (codes "--json")
    then ok (record args { json = true })
    else if text_eq a (codes "-h") || text_eq a (codes "--help")
    then exit 0
    else exit 1

abbrev options : Numbers → Options Args
unfolding takes_value with_value argument
options js = record {
  takes_value = takes_value;
  with_value = with_value js;
  without_value = λ a args. exit 1;
  argument = argument;
}

unfoldable pub parse_args : Numbers → Text → List Text → Exit Args
unfolding parse_all takes_value with_value argument
parse_args js out_dir argv = parse_all (options js) (defaults out_dir) argv

-- `url` and `keypair` are never empty: an option does not take an empty value.
unfoldable pub build_solana_args : Args → List Text
build_solana_args args =
    elim args.url [ none ↦ [] | some u ↦ codes "--url" ∷ u ∷ [] ]
    ++ elim args.keypair [ none ↦ [] | some k ↦ codes "--keypair" ∷ k ∷ [] ]

abbrev pub Files : Type 0
Files = Text → Option Text

-- The machine: the functions of `path`, of which `basename` drops `.json`, the file that
-- `solana-keygen new` writes and the text that `solana-keygen pubkey` prints, `none` if they fail, and
-- whether `solana` works with these arguments.
pub record Machine : Type 0 where
  pub numbers : Numbers
  pub join : Text → Text → Text
  pub basename : Text → Text
  pub is_absolute : Text → Bool
  pub cwd : Text
  pub default_dir : Text
  pub has_keygen : Bool
  pub has_solana : Bool
  pub keygen : Text → Option Text
  pub pubkey : Text → Option Text
  pub solana : List Text → Bool

unfoldable pub pad : ℕ → Text → Text
pad zero s = s
pad (suc n) s = b'0' ∷ pad n s

-- `padStart(3, "0")`
unfoldable pub pad_start : Text → Text
unfolding pad
pad_start s = pad (3 - length s) s

unfoldable pub wallet_name : Text → ℕ → Text
unfolding pad_start decimal
wallet_name prefix i = prefix ++ (b'-' ∷ pad_start (decimal i))

-- `walletFile`
unfoldable pub wallet_file : Machine → Text → Text → ℕ → Text
unfolding wallet_name
wallet_file m out_dir prefix i = m.join out_dir (wallet_name prefix i ++ codes ".json")

abbrev pub is_there : Option Text → Bool
is_there none = false
is_there (some _) = true

abbrev pub update : Text → Option Text → Files → Files
update file content fs = λ q. if text_eq file q then content else fs q

-- `solana-keygen new`
unfoldable pub new_key : Text → Option Text → Files → Exit Files
new_key path none fs = exit 1
new_key path (some key) fs = ok (update path (some key) fs)

-- `generateWallet`
unfoldable pub generate_wallet : Machine → Bool → Text → Files → Exit Files
unfolding new_key
generate_wallet m force path fs =
    if is_there (fs path) && not force
    then exit 1
    else new_key path (m.keygen path) (update path none fs)

abbrev last_of : Text → List Text → Text
last_of d [] = d
last_of d (l ∷ ls) = last_of l ls

abbrev last_line : Option Text → Exit Text
last_line none = exit 1
last_line (some out) = ok (last_of [] (split_lines [] (trim out)))

-- `readPubkey`
unfoldable pub read_pubkey : Machine → Text → Exit Text
unfolding split_lines trim
read_pubkey m path = last_line (m.pubkey path)

pub record WalletRecord : Type 0 where
  pub name : Text
  pub file : Text
  pub pubkey : Text

-- The loop over the wallets: the number of the next one, and how many are left.
unfoldable pub create_wallets :
    Machine → Args → Text → ℕ → ℕ → Files → Exit (List WalletRecord × Files)
unfolding generate_wallet read_pubkey wallet_file
create_wallets m args dir i zero fs = ok ([], fs)
create_wallets m args dir i (suc n) fs =
    let path = wallet_file m dir args.prefix i in
    generate_wallet m args.force path fs >>= λ (made : Files).
    read_pubkey m path >>= λ (key : Text).
    create_wallets m args dir (suc i) n made >>= λ (r : List WalletRecord × Files).
    ok (record { name = m.basename path; file = path; pubkey = key } ∷ r.0, r.1)

-- `fundWallet`: the arguments of `solana`.
unfoldable pub airdrop : Args → Text → List Text
unfolding build_solana_args
airdrop args pubkey =
    build_solana_args args
    ++ (codes "airdrop" ∷ args.amount ∷ pubkey ∷ codes "--commitment" ∷ args.commitment ∷ [])

unfoldable pub fund_wallets : Machine → Args → List WalletRecord → Exit (Unit {0})
unfolding airdrop
fund_wallets m args [] = ok tt
fund_wallets m args (w ∷ ws) =
    let rest = fund_wallets m args ws in if m.solana (airdrop args w.pubkey) then rest else exit 1

unfoldable pub out_dir_of : Machine → Args → Text
out_dir_of m args = if m.is_absolute args.out_dir then args.out_dir else m.join m.cwd args.out_dir

-- `main` behind the arguments: the wallets and the files.
unfoldable pub create : Machine → Args → Files → Exit (List WalletRecord × Files)
create m args fs = do
  guard m.has_keygen 1
  guard m.has_solana 1
  made ← create_wallets m args (out_dir_of m args) 1 args.count fs
  if args.fund then fund_wallets m args made.0 else ok tt
  ok made

-- `main`
unfoldable pub main : Machine → List Text → Files → Exit (List WalletRecord × Files)
main m argv fs = do args ← parse_args m.numbers m.default_dir argv; create m args fs
