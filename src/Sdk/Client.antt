-- ===== src/Sdk/Client.antt =====
-- packages/sdk/src/{auth,client}.ts: a request, and what is made of the answer. The network is a
-- parameter: it answers a request, or fails, as it does when the time is over.
use psybot_ai.Base.{
  ℕ, Bool, ◌&&◌, Option, none, some, List, [], ◌∷◌, ◌++◌, drop, reverse, if◌then◌else◌, or_default,
  leb,
}
use psybot_ai.Base.Text.{Text, codes, starts_with}
use psybot_ai.Base.Json.{Json, null, str, obj, end, field, get}
use psybot_ai.Agent.Summarizer.{decimal}

pub record AuthConfig : Type 0 where
  pub jwt : Option Text
  pub shared_secret : Option Text

pub record ClientOptions : Type 0 where
  pub base_url : Text
  pub auth : Option AuthConfig
  pub timeout_ms : Option ℕ

pub record NuttooClient : Type 0 where
  pub base_url : Text
  pub auth : Option AuthConfig
  pub timeout_ms : ℕ

-- `opts.baseUrl.replace(/\/$/, "")`
unfoldable pub without_slash : Text → Text
unfolding starts_with
without_slash url =
    if starts_with (reverse url) (b'/' ∷ []) then reverse (drop 1 (reverse url)) else url

-- The constructor.
unfoldable pub new_client : ClientOptions → NuttooClient
unfolding without_slash
new_client opts = record {
  base_url = without_slash opts.base_url;
  auth = opts.auth;
  timeout_ms = or_default opts.timeout_ms 15000;
}

-- A header whose value is there and not empty.
abbrev header_if : Text → Text → Option Text → List (Text × Text)
header_if name prefix none = []
header_if name prefix (some []) = []
header_if name prefix (some (c ∷ s)) = (name, prefix ++ (c ∷ s)) ∷ []

-- `authHeaders`
unfoldable pub auth_headers : Option AuthConfig → List (Text × Text)
auth_headers none = []
auth_headers (some auth) =
    header_if (codes "Authorization") (codes "Bearer ") auth.jwt
    ++ header_if (codes "X-Nuttoo-Internal") [] auth.shared_secret

pub data Method : Type 0 where
  get_method post_method : Method

pub record Request : Type 0 where
  pub method : Method
  pub url : Text
  pub headers : List (Text × Text)
  pub body : Option Text
  pub timeout_ms : ℕ

-- `body == null ? undefined : JSON.stringify(body)`
abbrev body_text : (Json → Text) → Option Json → Option Text
body_text stringify none = none
body_text stringify (some null) = none
body_text stringify (some j) = some (stringify j)

unfoldable pub new_request : (Json → Text) → NuttooClient → Method → Text → Option Json → Request
unfolding auth_headers
new_request stringify client method path body = record {
  method = method;
  url = client.base_url ++ path;
  headers = (codes "Content-Type", codes "application/json") ∷ auth_headers client.auth;
  body = body_text stringify body;
  timeout_ms = client.timeout_ms;
}

pub record Response : Type 0 where
  pub status : ℕ
  pub text : Text

-- `res.ok`
abbrev pub is_ok : ℕ → Bool
is_ok status = leb 200 status && leb status 299

-- The code and the message are what the answer holds, of whatever type.
pub record ApiError : Type 0 where
  pub code : Json
  pub message : Json
  pub status : ℕ
  pub details : Option Json

pub data Failure : Type 0 where
  api_error : ApiError → Failure
  network : Failure

pub data Result (A : Type 0) : Type 0 where
  err : Failure → Result A
  ok : A → Result A

-- `safeJson`
abbrev safe_json : (Text → Option Json) → Text → Json
safe_json parse s = or_default (parse s) (obj (field (codes "raw") (str s) end))

-- `text ? safeJson(text) : null`
unfoldable pub data_of : (Text → Option Json) → Text → Json
data_of parse [] = null
data_of parse (c ∷ s) = safe_json parse (c ∷ s)

-- `x ?? y`
abbrev pub or_json : Option Json → Json → Json
or_json none j = j
or_json (some null) j = j
or_json (some i) j = i

unfoldable pub error_of : ℕ → Json → ApiError
unfolding get decimal
error_of status value = record {
  code = or_json (get (codes "code") value) (str (codes "E_HTTP"));
  message = or_json (get (codes "message") value) (str (codes "HTTP " ++ decimal status));
  status = status;
  details = get (codes "details") value;
}

unfoldable pub read_response : (Text → Option Json) → Option Response → Result Json
unfolding data_of error_of
read_response parse none = err network
read_response parse (some res) =
    let value = data_of parse res.text in
    if is_ok res.status
    then ok (or_json (some value) (obj end))
    else err (api_error (error_of res.status value))

module _ (stringify : Json → Text) (parse : Text → Option Json)
    (fetch : Request → Option Response) where
  -- `request`
  unfoldable pub request : NuttooClient → Method → Text → Option Json → Result Json
  unfolding new_request read_response
  request client method path body =
      read_response parse (fetch (new_request stringify client method path body))
