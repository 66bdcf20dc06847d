-- ===== src/Sdk/Calls.antt =====
-- packages/sdk/src/{modules,forks,runs}.ts: the requests that the client makes of the API.
-- `encodeURIComponent` is a parameter.
use psybot_ai.Base.{ℕ, Option, none, some, [], ◌++◌}
use psybot_ai.Base.Text.{Text, codes}
use psybot_ai.Base.Json.{Json, str, obj, Fields, end, field}
use psybot_ai.Agent.Summarizer.{decimal}
use psybot_ai.Sdk.Client.{NuttooClient, get_method, post_method, Request, Response, Result, request}

pub record Pagination : Type 0 where
  pub take : Option ℕ
  pub skip : Option ℕ

-- `qs.toString()` with at most two numbers in it, behind a `?` if it is not empty.
unfoldable pub query : Pagination → Text
unfolding decimal
query p = elim p.take [
  | none ↦ elim p.skip [ none ↦ [] | some n ↦ codes "?skip=" ++ decimal n ]
  | some m ↦
      codes "?take="
      ++ (decimal m ++ elim p.skip [ none ↦ [] | some n ↦ codes "&skip=" ++ decimal n ])
]

-- A field that `JSON.stringify` leaves out if it is undefined.
abbrev field_if : Text → Option Json → Fields → Fields
field_if k none fs = fs
field_if k (some v) fs = field k v fs

abbrev text_json : Option Text → Option Json
text_json none = none
text_json (some s) = some (str s)

unfoldable pub fork_body : Text → Option Text → Json
fork_body module_id notes =
    obj (field (codes "moduleId") (str module_id) (field_if (codes "notes") (text_json notes) end))

unfoldable pub run_body : Text → Option Json → Option Text → Json
run_body module_id input fork_id = obj (
    field (codes "moduleId") (str module_id)
      (field_if (codes "input") input (field_if (codes "forkId") (text_json fork_id) end)))

module _ (stringify : Json → Text) (parse : Text → Option Json) (encode_uri : Text → Text)
    (fetch : Request → Option Response) (client : NuttooClient) where
  -- `ModulesAPI.list`
  unfoldable pub list_modules : Pagination → Result Json
  unfolding request query
  list_modules p =
      request stringify parse fetch client get_method (codes "/modules" ++ query p) none

  -- `ModulesAPI.get`
  unfoldable pub get_module : Text → Result Json
  unfolding request
  get_module id =
      request stringify parse fetch client get_method (codes "/modules/" ++ encode_uri id) none

  -- `ForksAPI.create`
  unfoldable pub create_fork : Text → Option Text → Result Json
  unfolding request fork_body
  create_fork module_id notes =
      request stringify parse fetch client post_method (codes "/forks")
        (some (fork_body module_id notes))

  -- `ForksAPI.get`
  unfoldable pub get_fork : Text → Result Json
  unfolding request
  get_fork id =
      request stringify parse fetch client get_method (codes "/forks/" ++ encode_uri id) none

  -- `RunsAPI.create`
  unfoldable pub create_run : Text → Option Json → Option Text → Result Json
  unfolding request run_body
  create_run module_id input fork_id =
      request stringify parse fetch client post_method (codes "/runs")
        (some (run_body module_id input fork_id))

  -- `RunsAPI.get`
  unfoldable pub get_run : Text → Result Json
  unfolding request
  get_run id =
      request stringify parse fetch client get_method (codes "/runs/" ++ encode_uri id) none
