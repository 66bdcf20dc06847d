-- ===== src/Indexer/Polling/Slots.antt =====
-- Which slots the polling of apps-indexer/src/stream/polling.ts goes through.
use psybot_ai.Base.{
  if_holds, ◌≡◌, refl, sym, ap, ◌∙◌, ℕ, zero, suc, ◌+◌, ◌-◌, ◌≤◌, max, range, range-append, subst,
  Option, none, some, List, [], ◌∷◌, ◌++◌, take, or_default, append_assoc, append-nil, arith,
}
use psybot_ai.Base.Text.{Text}
use psybot_ai.Indexer.Events.{
  parse_registry_events, parse_fork_events, parse_run_events, RegistryEvent, ForkEvent, RunEvent,
  module_registered, module_status_changed, fork_created, fork_status_changed, run_created,
  run_status,
}
use psybot_ai.Indexer.Persist.{
  Write, upsert_checkpoint, Db, write_each, registry_write, fork_write, run_write, persist_events,
  save_latest,
}
use psybot_ai.Indexer.Polling.{
  Conn, Stream, index_logs, scan_logs, scan_signatures, scan_slot, scan_slots, from_slot, poll_to,
  poll, polls, any_event, set_current_slot, on_slot_scan, on_log_batch,
}

-- The newest slot that the connections report, from a slot `p` on.
abbrev pub newest_of : ℕ → Option ℕ → ℕ
newest_of p none = p
newest_of p (some current) = max p current

abbrev pub newest : ℕ → List Conn → ℕ
newest p [] = p
newest p (c ∷ cs) = newest (newest_of p c.slot) cs

newest_of_ge : (p : ℕ) (slot : Option ℕ) → p ≤ newest_of p slot
newest_of_ge p none = omega arith
newest_of_ge p (some current) = omega arith

newest_ge : (p : ℕ) (cs : List Conn) → p ≤ newest p cs
newest_ge p [] = omega arith
newest_ge p (c ∷ cs) = omega (arith, newest_ge (newest_of p c.slot) cs, newest_of_ge p c.slot)

-- The checkpoint that a call writes, if it writes one.
abbrev pub checkpoints_of : Write → List ℕ
checkpoints_of (upsert_checkpoint stream slot) = slot ∷ []
checkpoints_of _ = []

-- `seen` lists the checkpoints that a database has been given.
module _ {D : Type 0} (db : Db D) (seen : D → List ℕ)
    (law : (w : Write) (d : D) → seen (db.apply w d) ≡ seen d ++ checkpoints_of w) where
  write_each-seen :
      {E : Type 0} (f : E → Write) (es : List E) (d : D)
      → ((e : E) → checkpoints_of (f e) ≡ [])
      → seen (write_each db f es d) ≡ seen d
  unfolding write_each
  write_each-seen f [] d h = refl
  write_each-seen f (e ∷ es) d h =
      write_each-seen f es _ h ∙ law (f e) d ∙ ap (λ l. seen d ++ l) (h e) ∙ append-nil (seen d)

  registry_none : (e : RegistryEvent) → checkpoints_of (registry_write e) ≡ []
  unfolding registry_write
  registry_none (module_registered id n v s) = refl
  registry_none (module_status_changed id s) = refl

  fork_none : (e : ForkEvent) → checkpoints_of (fork_write e) ≡ []
  unfolding fork_write
  fork_none (fork_created id m p) = refl
  fork_none (fork_status_changed id s) = refl

  run_none : (e : RunEvent) → checkpoints_of (run_write e) ≡ []
  unfolding run_write
  run_none (run_created id m p) = refl
  run_none (run_status id s) = refl

  persist_events-seen :
      (slot : ℕ) (signature : Text) (registry : List RegistryEvent) (forks : List ForkEvent)
      (runs : List RunEvent) (d : D)
      → seen (persist_events db slot signature registry forks runs d) ≡ seen d
  unfolding persist_events
  persist_events-seen slot signature registry forks runs d =
      write_each-seen run_write runs _ run_none
      ∙ write_each-seen fork_write forks _ fork_none
      ∙ write_each-seen registry_write registry _ registry_none
      ∙ law _ d
      ∙ append-nil (seen d)

  index_logs-seen :
      (slot : ℕ) (signature : Text) (logs : List Text) (d : D)
      → seen (index_logs db slot signature logs d) ≡ seen d
  unfolding index_logs
  index_logs-seen slot signature logs d =
      if_holds (λ x. seen x ≡ seen d)
        (any_event (parse_registry_events logs) (parse_fork_events logs) (parse_run_events logs)) _
        _
        (persist_events-seen slot signature (parse_registry_events logs) (parse_fork_events logs)
          (parse_run_events logs) d)
        refl

  Same : Stream D → Stream D → Type 0
  Same st next =
      (next.last ≡ st.last)
      × (seen next.db ≡ seen st.db)
      × (next.metrics.slot_scans ≡ st.metrics.slot_scans)

  scan_logs-Same :
      (slot : ℕ) (s : Text) (logs : Option (List Text)) (st : Stream D)
      → Same st (scan_logs db slot s logs st)
  unfolding Same on_log_batch
  scan_logs-Same slot s none st = (refl, refl, refl)
  scan_logs-Same slot s (some logs) st = (refl, index_logs-seen slot s logs st.db, refl)

  scan_signatures-Same :
      (conn : Conn) (slot : ℕ) (ss : List Text) (st : Stream D)
      → Same st (scan_signatures db conn slot ss st)
  unfolding scan_signatures Same
  scan_signatures-Same conn slot [] st = (refl, refl, refl)
  scan_signatures-Same conn slot (s ∷ ss) st =
      let (l, d, m) =
        scan_signatures-Same conn slot ss (scan_logs db slot s (conn.log_messages s) st) in
      let (l', d', m') = scan_logs-Same slot s (conn.log_messages s) st in (l ∙ l', d ∙ d', m ∙ m')

  -- From a last slot `p`, the next `k` slots are scanned.
  Follows : ℕ → ℕ → Stream D → Stream D → Type 0
  Follows p k st next =
      (next.last ≡ some (p + k))
      × (seen next.db ≡ seen st.db ++ range (suc p) k)
      × (next.metrics.slot_scans ≡ k + st.metrics.slot_scans)

  Follows-last : (p k : ℕ) (st next : Stream D) → Follows p k st next → next.last ≡ some (p + k)
  unfolding Follows
  Follows-last p k st next f = f.0

  Follows-trans :
      (p j k : ℕ) (st mid next : Stream D)
      → Follows p j st mid
      → Follows (p + j) k mid next
      → Follows p (j + k) st next
  unfolding Follows
  Follows-trans p j k st mid next (l, d, m) (l', d', m') =
      let e : p + j + k ≡ p + (j + k) = omega arith in
      let f : suc (p + j) ≡ suc p + j = omega arith in
      (
        l' ∙ ap some e,
        d'
            ∙ ap (λ x. x ++ range (suc (p + j)) k) d
            ∙ append_assoc (seen st.db) (range (suc p) j) (range (suc (p + j)) k)
            ∙ ap (λ x. seen st.db ++ x)
                (ap (λ b. range (suc p) j ++ range b k) f ∙ range-append (suc p) j k),
        omega (arith, m, m'),
      )

  scan_slot-Follows :
      (conn : Conn) (p : ℕ) (st : Stream D) → Follows p 1 st (scan_slot db conn (suc p) st)
  unfolding Follows scan_slot save_latest on_slot_scan Same
  scan_slot-Follows conn p st =
      let begun = record st { metrics = on_slot_scan st.metrics } in
      let (l, d, m) =
        scan_signatures-Same conn (suc p) (take 200 (or_default (conn.block_signatures (suc p)) []))
          begun in
      let e : suc p ≡ p + 1 = omega arith in
      (ap some e, law _ _ ∙ ap (λ x. x ++ suc p ∷ []) d, omega (arith, m))

  scan_slots-Follows :
      (conn : Conn) (k p : ℕ) (st : Stream D)
      → st.last ≡ some p
      → Follows p k st (scan_slots db conn (suc p) k st)
  unfolding Follows scan_slots
  scan_slots-Follows conn zero p st h =
      let e : p ≡ p + 0 = omega arith in (h ∙ ap some e, sym (append-nil (seen st.db)), omega arith)
  scan_slots-Follows conn (suc k) p st h =
      let one = scan_slot db conn (suc p) st in
      let e : suc p + k ≡ p + suc k = omega arith in
      let (l1, d1, m1) = scan_slot-Follows conn p st in
      let (l, d, m) = scan_slots-Follows conn k (suc p) one refl in
      (
        l ∙ ap some e,
        d
            ∙ ap (λ x. x ++ range (suc (suc p)) k) d1
            ∙ append_assoc (seen st.db) (suc p ∷ []) (range (suc (suc p)) k),
        omega (arith, m, m1),
      )

  stays : (p : ℕ) (st : Stream D) → st.last ≡ some p → Follows p 0 st st
  unfolding Follows
  stays p st h =
      let e : p ≡ p + 0 = omega arith in (h ∙ ap some e, sym (append-nil (seen st.db)), omega arith)

  poll_to-Follows :
      (conn : Conn) (slot : Option ℕ) (n : ℕ) (st : Stream D)
      → st.last ≡ some (suc n)
      → Follows (suc n) (newest_of (suc n) slot - suc n) st (poll_to db conn slot st)
  unfolding Follows set_current_slot
  poll_to-Follows conn none n st h =
      let e : 0 ≡ suc n - suc n = omega arith in
      subst (λ k. Follows (suc n) k st st) e (stays (suc n) st h)
  poll_to-Follows conn (some current) n st h =
      let begun = record st { metrics = set_current_slot current st.metrics } in
      let from = sym (ap (λ l. from_slot db l current) h) in
      let e : suc current - suc (suc n) ≡ max (suc n) current - suc n = omega arith in
      subst (λ k. Follows (suc n) k st (poll_to db conn (some current) st))
        (ap (λ f. suc current - f) (sym from) ∙ e)
        (subst
          (λ f. Follows (suc n) (suc current - f) st (scan_slots db conn f (suc current - f) begun))
          from (scan_slots-Follows conn (suc current - suc (suc n)) (suc n) begun h))

  polls_lem :
      (conns : List Conn) (n : ℕ) (st : Stream D)
      → st.last ≡ some (suc n)
      → Follows (suc n) (newest (suc n) conns - suc n) st (polls db conns st)
  unfolding polls
  polls_lem [] n st h =
      let e : 0 ≡ suc n - suc n = omega arith in
      subst (λ k. Follows (suc n) k st st) e (stays (suc n) st h)
  polls_lem (c ∷ cs) n st h =
      let q = newest_of (suc n) c.slot in
      let j = q - suc n in
      let mid = poll db c st in
      let one = poll_to-Follows c c.slot n st h in
      let e : suc n + j ≡ suc (n + j) = omega arith in
      let g : suc (n + j) ≡ q = omega (arith, newest_of_ge (suc n) c.slot) in
      let rest = polls_lem cs (n + j) mid (Follows-last (suc n) j st mid one ∙ ap some e) in
      let moved : Follows q (newest q cs - q) mid (polls db cs mid) =
        subst (λ p. Follows p (newest p cs - p) mid (polls db cs mid)) g rest in
      let total : j + (newest q cs - q) ≡ newest q cs - suc n =
        omega (arith, newest_of_ge (suc n) c.slot, newest_ge q cs) in
      subst (λ k. Follows (suc n) k st (polls db cs mid)) total
        (Follows-trans (suc n) j (newest q cs - q) st mid (polls db cs mid) one
          (subst (λ p. Follows p (newest q cs - q) mid (polls db cs mid)) (sym (e ∙ g)) moved))

  -- Given a record of the checkpoints that a database was told to write, a stream that has a last
  -- slot above 0 follows the chain: over any number of rounds its last slot becomes the newest that
  -- the connection has reported, or stays if none is newer, and it counts and writes as checkpoints
  -- exactly the slots after its old last slot up to that one, each once and in order.
  pub polls-Follows :
      (conns : List Conn) (n : ℕ) (st : Stream D)
      → st.last ≡ some (suc n)
      → ((polls db conns st).last ≡ some (newest (suc n) conns))
        × (seen (polls db conns st).db
            ≡ seen st.db ++ range (suc (suc n)) (newest (suc n) conns - suc n))
        × ((polls db conns st).metrics.slot_scans
            ≡ newest (suc n) conns - suc n + st.metrics.slot_scans)
  unfolding Follows
  polls-Follows conns n st h =
      let (l, d, m) = polls_lem conns n st h in
      let e : suc n + (newest (suc n) conns - suc n) ≡ newest (suc n) conns =
        omega (arith, newest_ge (suc n) conns) in
      (l ∙ ap some e, d, m)
