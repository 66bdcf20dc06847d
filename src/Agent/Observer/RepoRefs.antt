-- ===== src/Agent/Observer/RepoRefs.antt =====
-- The references to repositories that parseRepo of apps-agent/src/cognition/observer.ts reads.
use psybot_ai.Base.{
  ◌≡◌, sym, ap, ◌∙◌, ◌≢◌, some, [], ◌∷◌, ◌++◌, All, append_assoc, append-nil, ==_ne,
}
use psybot_ai.Base.Text.{Text, codes}
use psybot_ai.Agent.Observer.{names_of, parse_repo, first_two}

-- A name that holds no slash and is not empty.
abbrev pub IsName : Text → Type 0
IsName [] = ⊥
IsName (c ∷ s) = All (λ d. d ≢ b'/') (c ∷ s)

names_of-word :
    (cur s rest : Text)
    → All (λ d. d ≢ b'/') s
    → names_of cur (s ++ rest) ≡ names_of (cur ++ s) rest
unfolding names_of
names_of-word cur [] rest h = ap (λ x. names_of x rest) (sym (append-nil cur))
names_of-word [] (c ∷ s) rest (n, h) = rw (names_of, ==_ne n) (names_of-word (c ∷ []) s rest h)
names_of-word (d ∷ cur) (c ∷ s) rest (n, h) =
    rw (names_of, ==_ne n)
      (names_of-word ((d ∷ cur) ++ c ∷ []) s rest h
        ∙ ap (λ x. names_of x rest) (append_assoc (d ∷ cur) (c ∷ []) s))

names_of-two :
    (owner repo : Text)
    → IsName owner
    → IsName repo
    → names_of [] (owner ++ b'/' ∷ repo) ≡ owner ∷ repo ∷ []
unfolding names_of
names_of-two [] repo h k = absurd h
names_of-two (c ∷ owner) [] h k = absurd k
names_of-two (c ∷ owner) (d ∷ repo) h k =
    names_of-word [] (c ∷ owner) (b'/' ∷ d ∷ repo) h
    ∙ ap (λ ns. (c ∷ owner) ∷ ns)
        (ap (names_of []) (sym (append-nil (d ∷ repo))) ∙ names_of-word [] (d ∷ repo) [] k)

-- The address of a repository on GitHub is read as its owner and its name.
pub parse_repo-url :
    (owner repo : Text)
    → IsName owner
    → IsName repo
    → parse_repo (codes "https://github.com/" ++ owner ++ b'/' ∷ repo)
      ≡ some (record { owner = owner; repo = repo })
unfolding parse_repo
parse_repo-url owner repo h k = ap first_two (names_of-two owner repo h k)
