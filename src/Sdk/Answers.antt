-- ===== src/Sdk/Answers.antt =====
-- What the client, packages/sdk/src, makes of a JSON answer.
use psybot_ai.Base.{ℕ, ◌≡◌, ◌≢◌, refl, Option, some, [], ◌∷◌, if◌then◌else◌}
use psybot_ai.Base.Text.{Text, codes}
use psybot_ai.Base.Json.{Json, null, bool, num, str, arr, obj, end, get, Platform}
use psybot_ai.Sdk.Client.{
  NuttooClient, Method, api_error, err, ok, is_ok, or_json, data_of, error_of, read_response,
  request,
}

-- Something with a property is not null.
or_json-get : (k : Text) (j d v : Json) → get k j ≡ some v → or_json (some j) d ≡ j
unfolding get
or_json-get k null d v h = absurd cc
or_json-get k (bool b) d v h = refl
or_json-get k (num n) d v h = refl
or_json-get k (str s) d v h = refl
or_json-get k (arr xs) d v h = refl
or_json-get k (obj fs) d v h = refl

data_of-stringify :
    (p : Platform) (t : Text) (j : Json) → t ≢ [] → p.parse t ≡ some j → data_of p.parse t ≡ j
unfolding data_of
data_of-stringify p [] j n e = absurd (n refl)
data_of-stringify p (c ∷ s) j n e = rw e refl

-- The client gives back an object with a code and a message, as it was sent, with a status from 200
-- to 299, and with any other status an error with that code, that message, its details and the
-- status, whatever was asked; if the object is printed as a text that is not empty.
pub request-stringify :
    (p : Platform) (client : NuttooClient) (method : Method) (path : Text) (body : Option Json)
    (n : ℕ) (j : Json) (code message : Text)
    → p.stringify j ≢ []
    → get (codes "code") j ≡ some (str code)
    → get (codes "message") j ≡ some (str message)
    → request p.stringify p.parse
        (λ r. some (record { status = n; text = p.stringify j }))
        client
        method
        path
        body
      ≡ (if is_ok n
          then ok j
          else err (
              api_error (record {
                code = str code;
                message = str message;
                status = n;
                details = get (codes "details") j;
              })))
unfolding request read_response error_of
request-stringify p client method path body n j code message filled c m =
    rw (data_of-stringify p (p.stringify j) j filled (p.parse-stringify j))
      (rw (or_json-get (codes "code") j (obj end) (str code) c, c, m) refl)
