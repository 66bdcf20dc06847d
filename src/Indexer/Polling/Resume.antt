-- ===== src/Indexer/Polling/Resume.antt =====
-- Where apps-indexer/src/sync/backfill.ts makes the streams begin.
use psybot_ai.Base.{
  ◌≡◌, refl, ap, ◌∙◌, ℕ, zero, suc, true, false, Option, none, some, if◌then◌else◌, or_default,
}
use psybot_ai.Base.Text.{Text, codes, text_eq}
use psybot_ai.Indexer.Persist.{Db, upsert_checkpoint, get_latest, save_latest}
use psybot_ai.Indexer.Polling.{
  Metrics, polling_key, truthy, start_slot, save_missing, backfill, start_polling,
}

-- A checkpoint that is written is the one that is found, under its stream only.
module _ {D : Type 0} (db : Db D)
    (law : (stream t : Text) (slot : ℕ) (d : D)
      → db.find_slot t (db.apply (upsert_checkpoint stream slot) d)
        ≡ (if text_eq stream t then some slot else db.find_slot t d)) where
  truthy-some : (o : Option ℕ) (l : ℕ) → truthy db o ≡ some l → o ≡ some l
  truthy-some none l h = h
  truthy-some (some zero) l h = absurd cc
  truthy-some (some (suc n)) l h = h

  save_missing-same :
      (s : Text) (start : ℕ) (o : Option ℕ) (d : D)
      → text_eq s s ≡ true
      → truthy db (get_latest db s d) ≡ o
      → get_latest db s (save_missing db s start o d) ≡ some (or_default o start)
  unfolding get_latest save_latest
  save_missing-same s start none d e h =
      law s s start d ∙ ap (λ b. if b then some start else db.find_slot s d) e
  save_missing-same s start (some l) d e h = truthy-some (db.find_slot s d) l h

  save_missing-other :
      (s t : Text) (start : ℕ) (o : Option ℕ) (d : D)
      → text_eq s t ≡ false
      → get_latest db t (save_missing db s start o d) ≡ get_latest db t d
  unfolding get_latest save_latest
  save_missing-other s t start none d e =
      law s t start d ∙ ap (λ b. if b then some start else db.find_slot t d) e
  save_missing-other s t start (some l) d e = refl

  -- With a database that finds a checkpoint under the stream it was written for, and under no other,
  -- both streams have a checkpoint after the backfill: the one they had, if it was there and not 0,
  -- and else the slot that the start is computed as, and the polling begins at its checkpoint.
  pub backfill-get_latest :
      (current : ℕ) (d : D) (metrics : Metrics)
      → ((start_polling db (backfill db current d) metrics).last
          ≡ some (
              or_default
                (truthy db (get_latest db polling_key d))
                (start_slot db (truthy db (get_latest db polling_key d)) current)))
        × (get_latest db (codes "logs") (backfill db current d)
            ≡ some (
                or_default
                  (truthy db (get_latest db (codes "logs") d))
                  (start_slot db (truthy db (get_latest db polling_key d)) current)))
  unfolding backfill start_polling text_eq
  backfill-get_latest current d metrics =
      let last = truthy db (get_latest db polling_key d) in
      let start = start_slot db last current in
      let saved = save_missing db polling_key start last d in
      let logs = truthy db (get_latest db (codes "logs") saved) in
      (
        save_missing-other (codes "logs") polling_key start logs saved refl
            ∙ save_missing-same polling_key start last d refl refl,
        save_missing-same (codes "logs") start logs saved refl refl
            ∙ ap (λ o. some (or_default (truthy db o) start))
                (save_missing-other polling_key (codes "logs") start last d refl),
      )
