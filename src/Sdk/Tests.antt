-- ===== src/Sdk/Tests.antt =====
-- Concrete requests, and the theorems about the client at concrete inputs.
use psybot_ai.Base.{◌≡◌, refl, none, some, [], if◌then◌else◌, pos}
use psybot_ai.Base.Text.{codes, starts_with}
use psybot_ai.Base.Json.{Json, num, str, obj, end, field, get}
use psybot_ai.Base.Json.Model.{model_platform, model_platform-filled}
use psybot_ai.Sdk.Client.{NuttooClient, get_method, api_error, err, ok, is_ok, new_client, request}
use psybot_ai.Sdk.Calls.{query, list_modules}
use psybot_ai.Sdk.Answers.{request-stringify}

abbrev client : NuttooClient
client = record { base_url = codes "http://h"; auth = none; timeout_ms = 15000 }

made_client :
    new_client (record { base_url = codes "http://h/"; auth = none; timeout_ms = none }) ≡ client
unfolding new_client starts_with
made_client = refl

page : query (record { take = some 20; skip = some 40 }) ≡ codes "?take=20&skip=40"
unfolding query
page = refl

-- An answer that is no JSON is returned under `raw`.
raw_answer :
    list_modules
      (λ j. [])
      (λ t. none)
      (λ s. s)
      (λ r. some (record { status = 200; text = codes "hi" }))
      client
      (record { take = none; skip = none })
    ≡ ok (obj (field (codes "raw") (str (codes "hi")) end))
unfolding list_modules
raw_answer = refl

-- The body with which Fastify answers an error on its own.
abbrev missing : Json
missing = obj (
    field (codes "statusCode") (num (pos 404)) (
      field (codes "code") (str (codes "FST")) (
        field (codes "error") (str (codes "Not Found"))
          (field (codes "message") (str (codes "no such run")) end))))

request-stringify_example :
    request model_platform.stringify model_platform.parse
      (λ r. some (record { status = 404; text = model_platform.stringify missing }))
      client
      get_method
      (codes "/runs/1")
      none
    ≡ (if is_ok 404
        then ok missing
        else err (
            api_error (record {
              code = str (codes "FST");
              message = str (codes "no such run");
              status = 404;
              details = get (codes "details") missing;
            })))
unfolding get
request-stringify_example =
    request-stringify model_platform client get_method (codes "/runs/1") none 404 missing
      (codes "FST") (codes "no such run") (model_platform-filled missing) refl refl
