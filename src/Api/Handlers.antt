-- ===== src/Api/Handlers.antt =====
-- apps-api/src/controllers/{runs,modules}.controller.ts: the handlers. The schemas, and
-- `Number` on a text, are parameters.
use psybot_ai.Base.{Option, none, some, ℤ, pos, min_ℤ, max_ℤ}
use psybot_ai.Base.Text.{Text}
use psybot_ai.Base.Json.{Json}
use psybot_ai.Api.Errors.{Result, err, ok, or_other, ◌>>=◌}
use psybot_ai.Api.Auth.{RequestAuth, actor_from, assert_can_write}
use psybot_ai.Api.Runs
use psybot_ai.Api.Runs.{Run, CreateRunInput, RunDb}
use psybot_ai.Api.Modules
use psybot_ai.Api.Modules.{CreateModuleInput, NewModule, Codec}
use psybot_ai.Api.Storage.{StorageMode, Objects}

-- What a body is parsed to, if the actor may write.
unfoldable pub parsed : {I : Type 0} → (Json → Option I) → Option RequestAuth → Json → Result I
unfolding actor_from assert_can_write
parsed schema auth body = do allowed ← assert_can_write (actor_from auth); or_other (schema body)

module _ {W : Type 0} (db : RunDb W) where
  abbrev create_run : W → Result CreateRunInput → Result Run × W
  create_run w (err e) = (err e, w)
  create_run w (ok input) = Runs.create db input w

  -- The handler of `POST /runs`.
  unfoldable pub post_runs :
      (Json → Option CreateRunInput) → Option RequestAuth → Json → W → Result Run × W
  unfolding parsed Runs.create
  post_runs schema auth body w = create_run w (parsed schema auth body)

module _ {W : Type 0} (c : Codec) (create_row : NewModule → W → Option (Text × W)) where
  abbrev create_module :
      StorageMode → Objects → W → Result CreateModuleInput → Result (Text × NewModule) × Objects × W
  create_module mode objects w (err e) = (err e, objects, w)
  create_module mode objects w (ok input) = Modules.create c create_row mode input objects w

  -- The handler of `POST /modules`.
  unfoldable pub post_modules :
      (Json → Option CreateModuleInput)
      → StorageMode
      → Option RequestAuth
      → Json
      → Objects
      → W
      → Result (Text × NewModule) × Objects × W
  unfolding parsed Modules.create
  post_modules schema mode auth body objects w =
      create_module mode objects w (parsed schema auth body)

-- The page size of `GET /runs`, of a number in the query if it is finite; those that are no integers
-- are not modelled.
unfoldable pub page_size : Option ℤ → ℤ
page_size none = pos 20
page_size (some n) = min_ℤ (max_ℤ n (pos 1)) (pos 200)
