-- ===== src/Api/Auth/Access.antt =====
-- What the hook of apps-api/src/middleware/auth.ts lets through.
use psybot_ai.Base.{
  ◌≡◌, ◌≢◌, refl, ◌⊎◌, inl, inr, ◌↔◌, true, Option, none, some, [], ◌∷◌, Bool-cases, ℕ,
}
use psybot_ai.Base.Text.{Text, codes, text_eq_iff}
use psybot_ai.Api.Errors.{Thrown, err, ok, http_error}
use psybot_ai.Api.Auth.{
  AuthMode, off, shared_secret, jwt, AuthOptions, Actor, check_secret, safe_eq, token_of,
  authenticate,
}

-- Nothing is guarded, or the token is not empty and has the bytes of the secret, which is not empty.
abbrev pub IsAllowed : (Text → Text) → AuthOptions → Option Text → Type 0
IsAllowed encode opts header =
    (opts.mode ≡ off)
    ⊎ ((opts.mode ≡ shared_secret)
        × (c : ℕ) × (s : Text) × (opts.secret ≡ some (c ∷ s))
        × (token_of header ≢ [])
        × (encode (token_of header) ≡ encode (c ∷ s)))

err-ok : {A : Type 0} {e : Thrown} {a : A} → err e ≡ ok a → ⊥
err-ok h = cc

not_nil : {c : ℕ} {s : Text} → c ∷ s ≢ []
not_nil h = cc

safe_eq_sound :
    (encode : Text → Text) (t : Text) (c : ℕ) (s : Text)
    → safe_eq encode t (c ∷ s) ≡ true
    → (t ≢ []) × (encode t ≡ encode (c ∷ s))
unfolding safe_eq
safe_eq_sound encode [] c s h = absurd cc
safe_eq_sound encode (d ∷ t) c s h = (not_nil, (text_eq_iff (encode (d ∷ t)) (encode (c ∷ s))).0 h)

safe_eq_complete :
    (encode : Text → Text) (t : Text) (c : ℕ) (s : Text)
    → t ≢ []
    → encode t ≡ encode (c ∷ s)
    → safe_eq encode t (c ∷ s) ≡ true
unfolding safe_eq
safe_eq_complete encode [] c s n h = absurd (n refl)
safe_eq_complete encode (d ∷ t) c s n h = (text_eq_iff (encode (d ∷ t)) (encode (c ∷ s))).1 h

check_secret_sound :
    (encode : Text → Text) (token : Text) (secret : Option Text) (a : Actor)
    → check_secret encode token secret ≡ ok a
    → (c : ℕ) × (s : Text) × (secret ≡ some (c ∷ s)) × (safe_eq encode token (c ∷ s) ≡ true)
unfolding http_error
check_secret_sound encode token none a h = absurd (err-ok h)
check_secret_sound encode token (some []) a h = absurd (err-ok h)
check_secret_sound encode token (some (c ∷ s)) a h =
    elim (Bool-cases (safe_eq encode token (c ∷ s))) [
      | inl e ↦ (c, s, refl, e)
      | inr e ↦ absurd (err-ok (rw e at h))
    ]

authenticate_sound :
    (encode : Text → Text) (mode : AuthMode) (secret : Option Text) (header : Option Text)
    (a : Actor)
    → authenticate encode (record { mode = mode; secret = secret }) header ≡ ok a
    → IsAllowed encode (record { mode = mode; secret = secret }) header
unfolding authenticate http_error
authenticate_sound encode off secret header a h = inl refl
authenticate_sound encode shared_secret secret header a h =
    let (c, s, e, k) = check_secret_sound encode (token_of header) secret a h in
    let (n, same) = safe_eq_sound encode (token_of header) c s k in inr (refl, c, s, e, n, same)
authenticate_sound encode jwt secret header a h = absurd (err-ok h)

authenticate_complete :
    (encode : Text → Text) (opts : AuthOptions) (header : Option Text)
    → IsAllowed encode opts header
    → (a : Actor) × (authenticate encode opts header ≡ ok a)
unfolding authenticate
authenticate_complete encode opts header (inl m) =
    (record { subject = codes "anonymous"; mode = off }, rw m refl)
authenticate_complete encode opts header (inr (m, c, s, e, n, same)) = (
  record { subject = codes "shared-secret"; mode = shared_secret },
  rw (m, e, safe_eq_complete encode (token_of header) c s n same) refl,
)

-- The hook lets a request through exactly if the mode is off, or the mode is that of the shared
-- secret, the secret is not empty, and the token of the request is not empty and has its bytes; in
-- the jwt mode, or with a secret that is missing or empty, it lets none through.
pub authenticate_iff :
    (encode : Text → Text) (opts : AuthOptions) (header : Option Text)
    → ((a : Actor) × (authenticate encode opts header ≡ ok a)) ↔ IsAllowed encode opts header
authenticate_iff encode opts header = (
  λ (a, h). authenticate_sound encode opts.mode opts.secret header a h,
  λ h. authenticate_complete encode opts header h,
)
