-- ===== src/Api/Auth.antt =====
-- apps-api/src/middleware/auth.ts and services/policy.service.ts: who may write.
pub mod Access
use psybot_ai.Base.{Bool, false, Option, none, some, [], ◌∷◌, map, drop, if◌then◌else◌, or_default}
use psybot_ai.Base.Text.{Text, codes, starts_with, is_space, trim, trim_start, lower, text_eq}
use psybot_ai.Api.Errors.{Result, err, ok, other, http_error}

pub data AuthMode : Type 0 where
  off shared_secret jwt : AuthMode

pub record AuthOptions : Type 0 where
  pub mode : AuthMode
  pub secret : Option Text

pub record Actor : Type 0 where
  pub subject : Text
  pub mode : AuthMode

-- The text after `\s+`, or all of it.
abbrev after_spaces : Text → Text → Text
after_spaces whole [] = whole
after_spaces whole (c ∷ s) = if is_space c then trim_start s else whole

-- `header.replace(/^Bearer\s+/i, "").trim()`, and the empty text for a missing header.
unfoldable pub token_of : Option Text → Text
unfolding starts_with lower is_space trim_start trim
token_of none = []
token_of (some h) =
    trim (if starts_with (map lower h) (codes "bearer") then after_spaces h (drop 6 h) else h)

-- `safeEq`; the bytes of a text are a parameter.
unfoldable pub safe_eq : (Text → Text) → Text → Text → Bool
unfolding text_eq
safe_eq encode [] b = false
safe_eq encode (c ∷ a) [] = false
safe_eq encode (c ∷ a) (d ∷ b) = text_eq (encode (c ∷ a)) (encode (d ∷ b))

abbrev pub check_secret : (Text → Text) → Text → Option Text → Result Actor
check_secret encode token none = err other
check_secret encode token (some []) = err other
check_secret encode token (some (c ∷ s)) =
    if safe_eq encode token (c ∷ s)
    then ok (record { subject = codes "shared-secret"; mode = shared_secret })
    else http_error 401 (codes "UNAUTHORIZED") (codes "Missing or invalid token")

-- The hook of `authPlugin`: the actor of the request. Fastify keeps it to that plugin, so that it
-- does not run for the routes.
unfoldable pub authenticate : (Text → Text) → AuthOptions → Option Text → Result Actor
unfolding token_of safe_eq http_error
authenticate encode opts header = elim opts.mode [
  | off ↦ ok (record { subject = codes "anonymous"; mode = off })
  | shared_secret ↦ check_secret encode (token_of header) opts.secret
  | jwt ↦
      http_error 501 (codes "AUTH_NOT_IMPLEMENTED") (codes "JWT auth is not enabled in this build")
]

-- `req.auth`, which the hook sets where it runs.
pub record RequestAuth : Type 0 where
  pub mode : AuthMode
  pub subject : Option Text

-- `actorFrom` of the controllers. Without `req.auth` the mode is off.
unfoldable pub actor_from : Option RequestAuth → Actor
actor_from none = record { subject = codes "anonymous"; mode = off }
actor_from (some a) = record { subject = or_default a.subject (codes "anonymous"); mode = a.mode }

-- `assertCanWrite`
unfoldable pub assert_can_write : Actor → Result (Unit)
unfolding http_error
assert_can_write actor = elim actor.mode [
  | off ↦ ok tt
  | shared_secret ↦ ok tt
  | jwt ↦ http_error 403 (codes "FORBIDDEN") (codes "Actor cannot write")
]
