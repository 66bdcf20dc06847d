-- ===== src/Api/Runs.antt =====
-- apps-api/src/services/run.service.ts and controllers/runs.controller.ts: the making of a run.
pub mod Queued
use psybot_ai.Base.{ℕ, Bool, true, false, Option, none, some, List, [], ◌∷◌, if◌then◌else◌, is_some}
use psybot_ai.Base.Text.{Text, codes, text_eq}
use psybot_ai.Base.Json.{Json}
use psybot_ai.Api.Errors.{Result, err, ok, other, http_error, or_other, ◌>>=◌}
use psybot_ai.Api.Auth.{AuthOptions, authenticate, assert_can_write}
use psybot_ai.Api.Forks.{Fork, or_not_found, required}

pub data RunStatus : Type 0 where
  queued created : RunStatus

pub record Run : Type 0 where
  pub id : Text
  pub module_id : Text
  pub fork_id : Option Text
  pub status : RunStatus

pub record CreateRunInput : Type 0 where
  pub module_id : Text
  pub fork_id : Option Text
  pub input : Option Json

-- The database and the queue, if there is one: `none` of a call is an error of it.
pub record RunDb (W : Type 0) : Type 0 where
  pub find_module : Text → W → Option (Option Text)
  pub find_fork : Text → W → Option (Option Fork)
  pub create_run : CreateRunInput → RunStatus → W → Option (Run × W)
  pub enqueue : Option (Text → W → Option W)

module _ {W : Type 0} (db : RunDb W) where
  abbrev pub same_module : Text → Fork → Result Unit
  same_module module_id fork =
      if text_eq fork.module_id module_id
      then ok tt
      else http_error 400 (codes "VALIDATION_ERROR") (codes "forkId must belong to moduleId")

  -- `if (input.forkId) { ... }`
  abbrev pub check_fork : Text → Option Text → W → Result Unit
  check_fork module_id none w = ok tt
  check_fork module_id (some []) w = ok tt
  check_fork module_id (some (c ∷ id)) w = do
    row ← or_other (db.find_fork (c ∷ id) w)
    fork ← or_not_found (codes "Fork not found") row
    same_module module_id fork

  -- The checks before the row is made.
  unfoldable pub check_run : CreateRunInput → W → Result Unit
  unfolding http_error text_eq
  check_run input w = do
    id ← required input.module_id
    row ← or_other (db.find_module id w)
    found ← or_not_found (codes "Module not found") row
    check_fork input.module_id input.fork_id w

  abbrev pub new_status : RunStatus
  new_status = if is_some db.enqueue then queued else created

  -- After `enqueue`; its error leaves the row that was made.
  abbrev pub enqueued : Run → W → Option W → Result Run × W
  enqueued run w none = (err other, w)
  enqueued run w (some next) = (ok run, next)

  abbrev pub send : Option (Text → W → Option W) → Run → W → Result Run × W
  send none run w = (ok run, w)
  send (some enqueue) run w = enqueued run w (enqueue run.id w)

  abbrev pub made : W → Option (Run × W) → Result Run × W
  made w none = (err other, w)
  made w (some (run, next)) = send db.enqueue run next

  abbrev pub checked : CreateRunInput → W → Result Unit → Result Run × W
  checked input w (err e) = (err e, w)
  checked input w (ok t) = made w (db.create_run input new_status w)

  -- `RunService.create`: the result and the world, as an error may come after a change.
  unfoldable pub create : CreateRunInput → W → Result Run × W
  unfolding check_run
  create input w = checked input w (check_run input w)
