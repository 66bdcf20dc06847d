-- ===== src/Indexer/Tests.antt =====
-- The theorems about the indexer at concrete inputs.
use psybot_ai.Base.{
  Option, if◌then◌else◌, ◌≡◌, refl, ℕ, none, some, List, [], ◌∷◌, ◌++◌, map, append-nil, sym, ap,
  ◌∙◌, append_assoc,
}
use psybot_ai.Base.Text.{Text, codes, is_space, text_eq}
use psybot_ai.Indexer.Events.{
  RunEvent, run_created, run_status, parse_run_events, ForkEvent, fork_created, fork_status_changed,
  RegistryEvent, module_registered, module_status_changed, parse_registry_events,
}
use psybot_ai.Indexer.Events.Runs.{render_run, parse_run_events-render}
use psybot_ai.Indexer.Events.Registry.{render_registry, parse_registry_events-render}
use psybot_ai.Indexer.Persist.{Db, Write, upsert_checkpoint, get_latest}
use psybot_ai.Indexer.Polling.{backfill, start_polling, Conn, Stream, polls}
use psybot_ai.Indexer.Polling.Resume.{backfill-get_latest}
use psybot_ai.Indexer.Polling.Slots.{checkpoints_of, polls-Follows}

abbrev two_runs : List RunEvent
two_runs =
    run_created (codes "r1") (codes "m1") (some (codes "f1"))
    ∷ run_created (codes "r2") (codes "m1") none
    ∷ run_status (codes "r1") (codes "DONE")
    ∷ []

parse_run_events-render_example : parse_run_events (map render_run two_runs) ≡ two_runs
unfolding is_space
parse_run_events-render_example = parse_run_events-render two_runs (
  ((refl, (refl, tt)), (refl, (refl, tt)), (refl, (refl, tt))),
  (
    ((refl, (refl, tt)), (refl, (refl, tt)), tt),
    (((refl, (refl, tt)), (refl, (refl, (refl, (refl, tt))))), tt),
  ),
)

abbrev two_forks : List ForkEvent
two_forks =
    fork_created (codes "f1") (codes "m1") (some (codes "f0"))
    ∷ fork_status_changed (codes "f1") (codes "OK")
    ∷ []

abbrev two_modules : List RegistryEvent
two_modules =
    module_registered (codes "m1") none (some (codes "1")) (some (codes "ab"))
    ∷ module_status_changed (codes "m1") (codes "OK")
    ∷ []

parse_registry_events-render_example :
    parse_registry_events (map render_registry two_modules) ≡ two_modules
unfolding is_space
parse_registry_events-render_example = parse_registry_events-render two_modules (
  ((refl, (refl, tt)), tt, (refl, tt), (refl, (refl, tt))),
  (((refl, (refl, tt)), (refl, (refl, tt))), tt),
)

-- A database that is the list of its calls.
abbrev log_db : Db (List Write)
log_db = record { apply = λ w d. d ++ w ∷ []; find_slot = λ stream d. none }

abbrev seen_of : List Write → List ℕ
seen_of [] = []
seen_of (w ∷ ws) = checkpoints_of w ++ seen_of ws

seen_of-append :
    (ws : List Write) (w : Write) → seen_of (ws ++ w ∷ []) ≡ seen_of ws ++ checkpoints_of w
seen_of-append [] w = append-nil (checkpoints_of w)
seen_of-append (v ∷ ws) w =
    ap (λ l. checkpoints_of v ++ l) (seen_of-append ws w)
    ∙ sym (append_assoc (checkpoints_of v) (seen_of ws) (checkpoints_of w))

abbrev conn : Conn
conn = record {
  slot = some 9;
  block_signatures = λ slot. some (codes "sig" ∷ []);
  log_messages = λ s. some (render_run (run_status (codes "r1") (codes "DONE")) ∷ []);
}

abbrev stream : Stream (List Write)
stream = record {
  last = some 7;
  db = [];
  metrics = record { log_batches = 0; slot_scans = 0; current_slot = 7 };
}

polls-Follows_example :
    ((polls log_db (conn ∷ conn ∷ []) stream).last ≡ some 9)
    × (seen_of (polls log_db (conn ∷ conn ∷ []) stream).db ≡ 8 ∷ 9 ∷ [])
    × ((polls log_db (conn ∷ conn ∷ []) stream).metrics.slot_scans ≡ 2)
polls-Follows_example =
    polls-Follows log_db seen_of (λ w d. seen_of-append d w) (conn ∷ conn ∷ []) 6 stream refl

-- A database that keeps only the checkpoints.
abbrev slot_db : Db (Text → Option ℕ)
slot_db = record {
  apply = λ w d. elim w [
    | upsert_checkpoint stream slot ↦ λ t. if text_eq stream t then some slot else d t
    | _ ↦ d
  ];
  find_slot = λ stream d. d stream;
}

backfill-get_latest_example :
    ((start_polling slot_db (backfill slot_db 500 (λ t. none)) stream.metrics).last ≡ some 400)
    × (get_latest slot_db (codes "logs") (backfill slot_db 500 (λ t. none)) ≡ some 400)
unfolding get_latest
backfill-get_latest_example =
    backfill-get_latest slot_db (λ s t slot d. refl) 500 (λ t. none) stream.metrics
