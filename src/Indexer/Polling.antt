-- ===== src/Indexer/Polling.antt =====
-- apps-indexer/src/stream/polling.ts, stream/websockets.ts, sync/backfill.ts and services/metrics.ts:
-- how the indexer follows the chain. What the connection answers during one round is a parameter.
pub mod Slots
pub mod Resume
use psybot_ai.Base.{
  ℕ, zero, suc, ◌+◌, ◌-◌, min, Bool, Option, none, some, List, [], ◌∷◌, take, or_default, leb,
  if◌then◌else◌, is_some,
}
use psybot_ai.Base.Text.{Text, codes}
use psybot_ai.Indexer.Events.{
  RegistryEvent, ForkEvent, RunEvent, parse_registry_events, parse_fork_events, parse_run_events,
}
use psybot_ai.Indexer.Persist.{Db, persist_events, get_latest, save_latest}

-- `none` is a call that throws, or that gives nothing.
pub record Conn : Type 0 where
  pub slot : Option ℕ
  pub block_signatures : ℕ → Option (List Text)
  pub log_messages : Text → Option (List Text)

-- The counters of `MetricsService`.
pub record Metrics : Type 0 where
  pub log_batches : ℕ
  pub slot_scans : ℕ
  pub current_slot : ℕ

unfoldable pub on_log_batch : Metrics → Metrics
on_log_batch m = record m { log_batches = suc m.log_batches }

unfoldable pub on_slot_scan : Metrics → Metrics
on_slot_scan m = record m { slot_scans = suc m.slot_scans }

unfoldable pub set_current_slot : ℕ → Metrics → Metrics
set_current_slot slot m = record m { current_slot = slot }

pub record Stream (D : Type 0) : Type 0 where
  pub last : Option ℕ
  pub db : D
  pub metrics : Metrics

abbrev pub polling_key : Text
polling_key = codes "polling"

abbrev pub any_event : List RegistryEvent → List ForkEvent → List RunEvent → Bool
any_event [] [] [] = Bool.false
any_event _ _ _ = Bool.true

module _ {D : Type 0} (db : Db D) where
  -- The logs of one transaction: they are stored when they report an event.
  unfoldable pub index_logs : ℕ → Text → List Text → D → D
  unfolding persist_events parse_registry_events parse_fork_events parse_run_events
  index_logs slot signature logs d =
      let registry = parse_registry_events logs in
      let forks = parse_fork_events logs in
      let runs = parse_run_events logs in
      if any_event registry forks runs
      then persist_events db slot signature registry forks runs d
      else d

  abbrev pub scan_logs : ℕ → Text → Option (List Text) → Stream D → Stream D
  scan_logs slot signature none st = st
  scan_logs slot signature (some logs) st = record st {
    db = index_logs slot signature logs st.db;
    metrics = on_log_batch st.metrics;
  }

  unfoldable pub scan_signatures : Conn → ℕ → List Text → Stream D → Stream D
  unfolding index_logs on_log_batch
  scan_signatures conn slot [] st = st
  scan_signatures conn slot (s ∷ ss) st =
      scan_signatures conn slot ss (scan_logs slot s (conn.log_messages s) st)

  -- The body of the loop over the slots.
  unfoldable pub scan_slot : Conn → ℕ → Stream D → Stream D
  unfolding scan_signatures save_latest on_slot_scan
  scan_slot conn slot st =
      let begun = record st { metrics = on_slot_scan st.metrics } in
      let done =
        scan_signatures conn slot (take 200 (or_default (conn.block_signatures slot) [])) begun in
      record done { last = some slot; db = save_latest db polling_key slot done.db }

  -- `for (let slot = from; slot <= to; slot++)`, for as many slots as there are.
  unfoldable pub scan_slots : Conn → ℕ → ℕ → Stream D → Stream D
  unfolding scan_slot
  scan_slots conn slot zero st = st
  scan_slots conn slot (suc n) st = scan_slots conn (suc slot) n (scan_slot conn slot st)

  -- `last ? last + 1 : Math.max(0, current - 50)`
  abbrev pub from_slot : Option ℕ → ℕ → ℕ
  from_slot none current = current - 50
  from_slot (some zero) current = current - 50
  from_slot (some (suc n)) current = suc (suc n)

  abbrev pub poll_to : Conn → Option ℕ → Stream D → Stream D
  poll_to conn none st = st
  poll_to conn (some current) st =
      let from = from_slot st.last current in
      scan_slots conn from (suc current - from)
        (record st { metrics = set_current_slot current st.metrics })

  -- One round of `startPollingStream`; only `getSlot` throws into its `catch`.
  unfoldable pub poll : Conn → Stream D → Stream D
  unfolding scan_slots set_current_slot
  poll conn st = poll_to conn conn.slot st

  unfoldable pub polls : List Conn → Stream D → Stream D
  unfolding poll
  polls [] st = st
  polls (c ∷ cs) st = polls cs (poll c st)

  -- The stream as it starts.
  unfoldable pub start_polling : D → Metrics → Stream D
  unfolding get_latest
  start_polling d metrics = record { last = get_latest db polling_key d; db = d; metrics = metrics }

  -- The callback of `startWebsocketStream`, which stores also what reports no event.
  unfoldable pub on_logs : ℕ → Text → List Text → D × Metrics → D × Metrics
  unfolding persist_events save_latest on_log_batch parse_registry_events parse_fork_events
      parse_run_events
  on_logs slot signature logs (d, metrics) = (
    save_latest db (codes "logs") slot (
        persist_events db slot signature (parse_registry_events logs) (parse_fork_events logs)
          (parse_run_events logs) d),
    on_log_batch metrics,
  )

  -- A slot that JavaScript takes for false is missing or 0.
  abbrev pub truthy : Option ℕ → Option ℕ
  truthy none = none
  truthy (some zero) = none
  truthy (some (suc n)) = some (suc n)

  abbrev pub start_slot : Option ℕ → ℕ → ℕ
  start_slot none current = current - 100
  start_slot (some last) current = min last current

  abbrev pub save_missing : Text → ℕ → Option ℕ → D → D
  save_missing stream start none d = save_latest db stream start d
  save_missing stream start (some last) d = d

  -- `backfill`, at the current slot.
  unfoldable pub backfill : ℕ → D → D
  unfolding get_latest save_latest
  backfill current d =
      let last = truthy (get_latest db polling_key d) in
      let start = start_slot last current in
      let saved = save_missing polling_key start last d in
      save_missing (codes "logs") start (truthy (get_latest db (codes "logs") saved)) saved
