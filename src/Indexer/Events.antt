-- ===== src/Indexer/Events.antt =====
-- apps-indexer/src/parsers/{registry,fork,run}.events.ts: the events that log lines report.
pub mod Runs
pub mod Forks
pub mod Registry
use psybot_ai.Base.{Option, none, some, List, [], ◌∷◌}
use psybot_ai.Base.Text.{Text, codes}
use psybot_ai.Indexer.Lines.{◌>>=◌, literal, key_value, optional_value, events_of}

pub data RegistryEvent : Type 0 where
  module_registered : Text → Option Text → Option Text → Option Text → RegistryEvent
  module_status_changed : Text → Text → RegistryEvent

pub data ForkEvent : Type 0 where
  fork_created : Text → Text → Option Text → ForkEvent
  fork_status_changed : Text → Text → ForkEvent

pub data RunEvent : Type 0 where
  run_created : Text → Text → Option Text → RunEvent
  run_status : Text → Text → RunEvent

-- RE_REGISTER and RE_STATUS of registry.events.ts, at the start of a text.
unfoldable pub match_registered : Text → Option RegistryEvent
unfolding literal key_value optional_value
match_registered s = do
  t ← literal (codes "nuttoo:module_registered") s
  (id, u) ← key_value (codes "moduleid=") t
  let (name, v) = optional_value (codes "name=") u
  let (version, w) = optional_value (codes "version=") v
  some (module_registered id name version (optional_value (codes "sha=") w).0)

unfoldable pub match_module_status : Text → Option RegistryEvent
unfolding literal key_value
match_module_status s = do
  t ← literal (codes "nuttoo:module_status") s
  (id, u) ← key_value (codes "moduleid=") t
  (status, v) ← key_value (codes "status=") u
  some (module_status_changed id status)

-- `parseRegistryEventsFromLogs`
unfoldable pub parse_registry_events : List Text → List RegistryEvent
unfolding events_of match_registered match_module_status
parse_registry_events logs = events_of match_registered match_module_status logs

-- RE_CREATED and RE_STATUS of fork.events.ts.
unfoldable pub match_fork_created : Text → Option ForkEvent
unfolding literal key_value optional_value
match_fork_created s = do
  t ← literal (codes "nuttoo:fork_created") s
  (id, u) ← key_value (codes "forkid=") t
  (module_id, v) ← key_value (codes "moduleid=") u
  some (fork_created id module_id (optional_value (codes "parentforkid=") v).0)

unfoldable pub match_fork_status : Text → Option ForkEvent
unfolding literal key_value
match_fork_status s = do
  t ← literal (codes "nuttoo:fork_status") s
  (id, u) ← key_value (codes "forkid=") t
  (status, v) ← key_value (codes "status=") u
  some (fork_status_changed id status)

-- `parseForkEventsFromLogs`
unfoldable pub parse_fork_events : List Text → List ForkEvent
unfolding events_of match_fork_created match_fork_status
parse_fork_events logs = events_of match_fork_created match_fork_status logs

-- RE_CREATED and RE_STATUS of run.events.ts.
unfoldable pub match_run_created : Text → Option RunEvent
unfolding literal key_value optional_value
match_run_created s = do
  t ← literal (codes "nuttoo:run_created") s
  (id, u) ← key_value (codes "runid=") t
  (module_id, v) ← key_value (codes "moduleid=") u
  some (run_created id module_id (optional_value (codes "forkid=") v).0)

unfoldable pub match_run_status : Text → Option RunEvent
unfolding literal key_value
match_run_status s = do
  t ← literal (codes "nuttoo:run_status") s
  (id, u) ← key_value (codes "runid=") t
  (status, v) ← key_value (codes "status=") u
  some (run_status id status)

-- `parseRunEventsFromLogs`
unfoldable pub parse_run_events : List Text → List RunEvent
unfolding events_of match_run_created match_run_status
parse_run_events logs = events_of match_run_created match_run_status logs
