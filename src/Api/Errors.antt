-- ===== src/Api/Errors.antt =====
-- packages/errors/src/{codes,http}.ts. The API passes a number for the code, so the code of an error
-- is a text or a number.
use psybot_ai.Base.{ℕ, Option, none, some, if◌then◌else◌}
use psybot_ai.Base.Text.{Text, codes, text_eq}

pub data Code : Type 0 where
  text : Text → Code
  number : ℕ → Code

pub record HttpError : Type 0 where
  pub code : Code
  pub message : Text
  pub details : Option Text
  pub status : ℕ

-- `ERROR_HTTP_STATUS[code] ?? 500`; no key of the table is a number.
unfoldable pub error_http_status : Code → ℕ
unfolding text_eq
error_http_status (number n) = 500
error_http_status (text c) =
    if text_eq c (codes "E_BAD_REQUEST")
    then 400
    else if text_eq c (codes "E_UNAUTHORIZED")
    then 401
    else if text_eq c (codes "E_FORBIDDEN")
    then 403
    else if text_eq c (codes "E_NOT_FOUND")
    then 404
    else if text_eq c (codes "E_CONFLICT")
    then 409
    else if text_eq c (codes "E_RATE_LIMITED")
    then 429
    else if text_eq c (codes "E_RPC")
    then 502
    else if text_eq c (codes "E_VALIDATION")
    then 422
    else if text_eq c (codes "E_SANDBOX")
    then 400
    else if text_eq c (codes "E_SIGNATURE")
    then 400
    else 500

-- `new HttpError(code, message, details)`
unfoldable pub new_http_error : Code → Text → Option Text → HttpError
unfolding error_http_status
new_http_error code message details = record {
  code = code;
  message = message;
  details = details;
  status = error_http_status code;
}

-- What a handler throws.
pub data Thrown : Type 0 where
  http : HttpError → Thrown
  -- any other error, as of the database, the queue or a schema
  other : Thrown

pub data Result (A : Type 0) : Type 0 where
  err : Thrown → Result A
  ok : A → Result A

infixl 5 ◌>>=◌
abbrev pub ◌>>=◌ : {A B : Type 0} → Result A → (A → Result B) → Result B
err e >>= f = err e
ok a >>= f = f a

-- `throw new HttpError(n, name, text)` as the API writes it.
unfoldable pub http_error : {A : Type 0} → ℕ → Text → Text → Result A
unfolding new_http_error
http_error n name what = err (http (new_http_error (number n) name (some what)))

abbrev pub or_other : {A : Type 0} → Option A → Result A
or_other none = err other
or_other (some a) = ok a
