-- ===== src/Api/Forks.antt =====
-- apps-api/src/services/fork.service.ts and controllers/forks.controller.ts: the making of a fork.
-- The database is a parameter; `none` of a call is an error of it.
pub mod Lineage
use psybot_ai.Base.{ℕ, Option, none, some, List, [], ◌∷◌, if◌then◌else◌}
use psybot_ai.Base.Text.{Text, codes, text_eq}
use psybot_ai.Base.Json.{Json}
use psybot_ai.Api.Errors.{Result, err, ok, http_error, or_other, ◌>>=◌}
use psybot_ai.Api.Auth.{RequestAuth, actor_from, assert_can_write}

pub record Fork : Type 0 where
  pub id : Text
  pub module_id : Text
  pub notes : Option Text
  pub parent_fork_id : Option Text

pub record CreateForkInput : Type 0 where
  pub module_id : Text
  pub notes : Option Text
  pub parent_fork_id : Option Text

-- The calls of the database: whether a module has an id, the fork of an id, and a new fork.
pub record ForkDb (W : Type 0) : Type 0 where
  pub find_module : Text → W → Option (Option Text)
  pub find_fork : Text → W → Option (Option Fork)
  pub create_fork : CreateForkInput → W → Option (Fork × W)

-- `if (!row) throw ...`
abbrev pub or_not_found : {A : Type 0} → Text → Option A → Result A
or_not_found what none = http_error 404 (codes "NOT_FOUND") what
or_not_found what (some a) = ok a

abbrev pub required : Text → Result Text
required [] = http_error 400 (codes "VALIDATION_ERROR") (codes "moduleId is required")
required (c ∷ s) = ok (c ∷ s)

module _ {W : Type 0} (db : ForkDb W) where
  abbrev pub same_module : Text → Fork → Result Unit
  same_module module_id parent =
      if text_eq parent.module_id module_id
      then ok tt
      else http_error 400 (codes "VALIDATION_ERROR")
          (codes "parentForkId must belong to the same module")

  -- `if (input.parentForkId) { ... }`
  abbrev pub check_parent : Text → Option Text → W → Result Unit
  check_parent module_id none w = ok tt
  check_parent module_id (some []) w = ok tt
  check_parent module_id (some (c ∷ id)) w = do
    row ← or_other (db.find_fork (c ∷ id) w)
    parent ← or_not_found (codes "Parent fork not found") row
    same_module module_id parent

  -- `ForkService.create`
  unfoldable pub create : CreateForkInput → W → Result (Fork × W)
  unfolding http_error text_eq
  create input w = do
    id ← required input.module_id
    row ← or_other (db.find_module id w)
    mod' ← or_not_found (codes "Module not found") row
    checked ← check_parent input.module_id input.parent_fork_id w
    or_other (db.create_fork input w)

  -- The handler of `POST /forks`; the schema is a parameter.
  unfoldable pub post_forks :
      (Json → Option CreateForkInput) → Option RequestAuth → Json → W → Result (Fork × W)
  unfolding actor_from assert_can_write create
  post_forks schema auth body w = do
    allowed ← assert_can_write (actor_from auth)
    input ← or_other (schema body)
    create input w
