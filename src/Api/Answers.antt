-- ===== src/Api/Answers.antt =====
-- apps-api/src/middleware/{error,request-id,rate-limit}.ts: the answer to an error, and the names of
-- a request and of a client. An identifier that `ulid` makes is a parameter.
use psybot_ai.Base.{
  zero, Bool, false, Option, none, some, if◌then◌else◌, or_default, ltb, leb, length, ℤ, pos,
  negsuc,
}
use psybot_ai.Base.Text.{Text, codes}
use psybot_ai.Base.Json.{Json, num, str, obj, Fields, end, field}
use psybot_ai.Api.Errors.{Code, text, number, HttpError}

-- The hook of `requestIdPlugin`.
unfoldable pub request_id : Text → Option Text → Text
request_id ulid none = ulid
request_id ulid (some header) = if ltb 4 (length header) then header else ulid

-- `keyGenerator`
unfoldable pub rate_limit_key : Text → Option Text → Text
rate_limit_key ip forwarded_for = or_default forwarded_for ip

-- What a handler has thrown: an error of the API, or another one, with its `statusCode` if that is an
-- integer, and its message.
pub record OtherError : Type 0 where
  pub status_code : Option ℤ
  pub message : Option Text

pub data Caught : Type 0 where
  http : HttpError → Caught
  other : OtherError → Caught

-- The status is none if it is undefined.
pub record Answer : Type 0 where
  pub status : Option ℤ
  pub body : Json

abbrev code_json : Code → Json
code_json (text s) = str s
code_json (number n) = num (pos n)

abbrev field_if : Text → Option Text → Fields → Fields
field_if k none fs = fs
field_if k (some s) fs = field k (str s) fs

-- `ApiErrorBody`
unfoldable pub error_body : Json → Text → Option Text → Option Text → Json
error_body code message id details = obj (
    field (codes "error")
      (obj (
        field (codes "code") code (
          field (codes "message") (str message)
            (field_if (codes "requestId") id (field_if (codes "details") details end)))))
      end)

-- `err.statusCode && Number.isInteger(err.statusCode) ? err.statusCode : 500`
unfoldable pub status_of : Option ℤ → ℤ
status_of none = pos 500
status_of (some (pos zero)) = pos 500
status_of (some n) = n

abbrev is_internal : ℤ → Bool
is_internal (pos n) = leb 500 n
is_internal (negsuc n) = false

-- The error handler of `errorPlugin`, which Fastify keeps to that plugin: the routes do not use it.
-- The class of the API's errors has no field `statusCode`.
unfoldable pub handle_error : Option Text → Caught → Answer
unfolding error_body status_of
handle_error id (http e) = record {
  status = none;
  body = error_body (code_json e.code) e.message id e.details;
}
handle_error id (other e) =
    let status = status_of e.status_code in
    record {
      status = some status;
      body =
          error_body (str (codes "INTERNAL_ERROR"))
            (if is_internal status
              then codes "Internal error"
              else or_default e.message (codes "Error"))
            id none;
    }
