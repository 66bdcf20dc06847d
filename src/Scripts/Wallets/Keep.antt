-- ===== src/Scripts/Wallets/Keep.antt =====
-- What scripts/solana/create-test-wallets.ts leaves alone.
use psybot_ai.Base.{
  ℕ, zero, suc, true, false, ◌≡◌, refl, sym, ap, ◌∙◌, subst, Option, none, some, List, [], ◌∷◌,
  length, All, if◌then◌else◌, Bool-cases, Option-cases, inl, inr,
}
use psybot_ai.Base.Text.{Text, text_eq, text_eq_iff}
use psybot_ai.Scripts.Args.{ok, ok_eq, exit-ok, guard, >>=-eq-ok}
use psybot_ai.Scripts.Wallets.{
  Args, parse_args, Files, Machine, wallet_file, is_there, update, new_key, generate_wallet,
  read_pubkey, WalletRecord, create_wallets, fund_wallets, out_dir_of, create, main,
}

there_some : {o : Option Text} {v : Text} → o ≡ some v → is_there o ≡ true
there_some e = rw e refl

new_key-some :
    (path : Text) (o : Option Text) (fs made : Files)
    → new_key path o fs ≡ ok made
    → (key : Text) × (made ≡ update path (some key) fs)
unfolding new_key
new_key-some path none fs made e = absurd (exit-ok e)
new_key-some path (some key) fs made e = (key, sym (ok_eq e))

update_twice :
    (path q : Text) (a b : Option Text) (fs : Files)
    → text_eq path q ≡ false
    → update path a (update path b fs) q ≡ fs q
update_twice path q a b fs h = rw h refl

module _ (m : Machine) (path : Text) (fs made : Files)
    (e : generate_wallet m false path fs ≡ ok made) where
  -- Without `--force` a file is made only where there is none.
  generate_wallet-new : is_there (fs path) ≡ false
  unfolding generate_wallet
  generate_wallet-new = elim (Bool-cases (is_there (fs path))) [
    | inl t ↦ absurd (exit-ok (rw t at e))
    | inr f ↦ f
  ]

  generate_wallet-made : (key : Text) × (made ≡ update path (some key) (update path none fs))
  unfolding generate_wallet
  generate_wallet-made =
      new_key-some path (m.keygen path) (update path none fs) made (rw generate_wallet-new at e)

  generate_wallet-keep : (q v : Text) → fs q ≡ some v → made q ≡ some v
  generate_wallet-keep q v h =
      let (key, made_is) = generate_wallet-made in
      elim (Bool-cases (text_eq path q)) [
        | inl t ↦
            let same = (text_eq_iff path q).0 t in
            cc (sym (there_some h) ∙ ap (λ p. is_there (fs p)) (sym same) ∙ generate_wallet-new)
        | inr f ↦ ap (λ (g : Files). g q) made_is ∙ update_twice path q (some key) none fs f ∙ h
      ]

  generate_wallet_absent : (q : Text) → is_there (made q) ≡ false → is_there (fs q) ≡ false
  generate_wallet_absent q h = elim (Option-cases (fs q)) [
    | inl n ↦ rw n refl
    | inr (v, s) ↦ cc (sym (there_some (generate_wallet-keep q v s)) ∙ h)
  ]

All_absent :
    (m : Machine) (path : Text) (fs made : Files) (e : generate_wallet m false path fs ≡ ok made)
    (ws : List WalletRecord)
    → All (λ (w : WalletRecord). is_there (made w.file) ≡ false) ws
    → All (λ (w : WalletRecord). is_there (fs w.file) ≡ false) ws
All_absent m path fs made e [] h = tt
All_absent m path fs made e (w ∷ ws) (p, h) =
    (generate_wallet_absent m path fs made e w.file p, All_absent m path fs made e ws h)

-- The outcome of a loop that made `n` wallets.
abbrev Keeps : ℕ → Text → Text → Files → List WalletRecord × Files → Type 0
Keeps n q v fs (ws, fs') =
    (length ws ≡ n) × (fs' q ≡ some v) × All (λ (w : WalletRecord). is_there (fs w.file) ≡ false) ws

create_wallets-Keeps :
    (m : Machine) (args : Args) (dir : Text) (i n : ℕ) (fs fs' : Files) (ws : List WalletRecord)
    (q v : Text)
    → args.force ≡ false
    → create_wallets m args dir i n fs ≡ ok (ws, fs')
    → fs q ≡ some v
    → (length ws ≡ n)
      × (fs' q ≡ some v)
      × All (λ (w : WalletRecord). is_there (fs w.file) ≡ false) ws
unfolding create_wallets
create_wallets-Keeps m args dir i zero fs fs' ws q v f e h =
    subst (Keeps 0 q v fs) (ok_eq e) (refl, h, tt)
create_wallets-Keeps m args dir i (suc n) fs fs' ws q v f e h =
    let path = wallet_file m dir args.prefix i in
    let (made, g, e1) = >>=-eq-ok (generate_wallet m args.force path fs) _ e in
    let (key, _, e2) = >>=-eq-ok (read_pubkey m path) _ e1 in
    let ((vs, last), r, e3) = >>=-eq-ok (create_wallets m args dir (suc i) n made) _ e2 in
    let g' = ap (λ b. generate_wallet m b path fs) (sym f) ∙ g in
    let (a, b, c) =
      create_wallets-Keeps m args dir (suc i) n made last vs q v f r
        (generate_wallet-keep m path fs made g' q v h) in
    subst (Keeps (suc n) q v fs) (ok_eq e3)
      (ap suc a, b, (generate_wallet-new m path fs made g', All_absent m path fs made g' vs c))

-- A run without `--force` that succeeds makes as many wallets as were asked for, each in a file
-- that was not there before, and every file that was there holds what it held.
pub main_keeps :
    (m : Machine) (argv : List Text) (args : Args) (fs fs' : Files) (ws : List WalletRecord)
    (q v : Text)
    → parse_args m.numbers m.default_dir argv ≡ ok args
    → args.force ≡ false
    → main m argv fs ≡ ok (ws, fs')
    → fs q ≡ some v
    → (length ws ≡ args.count)
      × (fs' q ≡ some v)
      × All (λ (w : WalletRecord). is_there (fs w.file) ≡ false) ws
unfolding main create
main_keeps m argv args fs fs' ws q v p f e h =
    let e0 = rw p at e in
    let (_, _, e1) = >>=-eq-ok (guard m.has_keygen 1) _ e0 in
    let (_, _, e2) = >>=-eq-ok (guard m.has_solana 1) _ e1 in
    let (made, c, e3) =
      >>=-eq-ok (create_wallets m args (out_dir_of m args) 1 args.count fs) _ e2 in
    let (_, _, e4) = >>=-eq-ok (if args.fund then fund_wallets m args made.0 else ok tt) _ e3 in
    create_wallets-Keeps m args (out_dir_of m args) 1 args.count fs fs' ws q v f (c ∙ e4) h
