-- ===== src/Indexer/Persist.antt =====
-- apps-indexer/src/services/persist.ts and sync/checkpoints.ts: the writes to the database. Each
-- call is guarded by a `catch` that logs, so only the database after the call counts; what a call
-- does to it is a parameter.
use psybot_ai.Base.{ℕ, Option, List, [], ◌∷◌, or_default}
use psybot_ai.Base.Text.{Text, codes}
use psybot_ai.Indexer.Events.{
  RegistryEvent, module_registered, module_status_changed, ForkEvent, fork_created,
  fork_status_changed, RunEvent, run_created, run_status,
}

-- `name ?? "unknown"` and so on: what is created.
pub record NewModule : Type 0 where
  pub name : Text
  pub version : Text
  pub manifest_sha256 : Text
  pub status : Text

-- What an update of a module sets; `none` leaves the column alone.
pub record ModuleUpdate : Type 0 where
  pub name : Option Text
  pub version : Option Text
  pub manifest_sha256 : Option Text

-- The calls of the database, with the id of the row first.
pub data Write : Type 0 where
  create_event : ℕ → Text → List RegistryEvent → List ForkEvent → List RunEvent → Write
  upsert_module : Text → NewModule → ModuleUpdate → Write
  update_module : Text → Text → Write
  upsert_fork : Text → Text → Option Text → Write
  update_fork : Text → Text → Write
  upsert_run : Text → Text → Option Text → Write
  update_run : Text → Text → Write
  upsert_checkpoint : Text → ℕ → Write

pub record Db (D : Type 0) : Type 0 where
  pub apply : Write → D → D
  -- the slot of a stream's row; `none` is no row or an error
  pub find_slot : Text → D → Option ℕ

unfoldable pub registry_write : RegistryEvent → Write
registry_write (module_registered id name version sha) =
    upsert_module id
      (record {
        name = or_default name (codes "unknown");
        version = or_default version (codes "0.0.0");
        manifest_sha256 = or_default sha [];
        status = codes "ACTIVE";
      })
      (record { name = name; version = version; manifest_sha256 = sha })
registry_write (module_status_changed id status) = update_module id status

unfoldable pub fork_write : ForkEvent → Write
fork_write (fork_created id module_id parent) = upsert_fork id module_id parent
fork_write (fork_status_changed id status) = update_fork id status

unfoldable pub run_write : RunEvent → Write
run_write (run_created id module_id fork_id) = upsert_run id module_id fork_id
run_write (run_status id status) = update_run id status

module _ {D : Type 0} (db : Db D) where
  -- One call for each event, in the order of the events.
  unfoldable pub write_each : {E : Type 0} → (E → Write) → List E → D → D
  write_each f [] d = d
  write_each f (e ∷ es) d = write_each f es (db.apply (f e) d)

  -- `persistEvents`
  unfoldable pub persist_events :
      ℕ → Text → List RegistryEvent → List ForkEvent → List RunEvent → D → D
  unfolding write_each registry_write fork_write run_write
  persist_events slot signature registry forks runs d = write_each run_write runs (
      write_each fork_write forks (
        write_each registry_write registry
          (db.apply (create_event slot signature registry forks runs) d)))

  -- `Checkpoints.getLatest`
  unfoldable pub get_latest : Text → D → Option ℕ
  get_latest stream d = db.find_slot stream d

  -- `Checkpoints.saveLatest`
  unfoldable pub save_latest : Text → ℕ → D → D
  save_latest stream slot d = db.apply (upsert_checkpoint stream slot) d
