-- ===== src/Api/Runs/Queued.antt =====
-- What RunService.create of apps-api/src/services/run.service.ts leaves behind.
use psybot_ai.Base.{◌≡◌, refl, sym, ap, ◌∙◌, Option, none, some, if◌then◌else◌, is_some}
use psybot_ai.Base.Text.{Text}
use psybot_ai.Api.Errors.{Result, err, ok, other, Thrown}
use psybot_ai.Api.Runs.{
  Run, queued, created, CreateRunInput, RunDb, check_run, new_status, enqueued, send, made, checked,
  create,
}

module _ {W : Type 0} (db : RunDb W) where
  -- What can have happened: nothing was changed and the call failed; a row was made, its job could
  -- not be queued and the call failed; or a row was made, its job queued where there is a queue,
  -- and the row is the answer.
  pub data Leaves (input : CreateRunInput) (w : W) : Result Run × W → Type 0 where
    untouched : (e : Thrown) → Leaves input w (err e, w)
    orphan :
        (run : Run) (next : W) (enqueue : Text → W → Option W)
        → db.create_run input queued w ≡ some (run, next)
        → db.enqueue ≡ some enqueue
        → enqueue run.id next ≡ none
        → Leaves input w (err other, next)
    sent :
        (run : Run) (next last : W) (enqueue : Text → W → Option W)
        → db.create_run input queued w ≡ some (run, next)
        → db.enqueue ≡ some enqueue
        → enqueue run.id next ≡ some last
        → Leaves input w (ok run, last)
    unsent :
        (run : Run) (next : W)
        → db.create_run input created w ≡ some (run, next)
        → db.enqueue ≡ none
        → Leaves input w (ok run, next)

  enqueued-Leaves :
      (input : CreateRunInput) (w : W) (run : Run) (next : W) (enqueue : Text → W → Option W)
      (o : Option W)
      → db.create_run input queued w ≡ some (run, next)
      → db.enqueue ≡ some enqueue
      → enqueue run.id next ≡ o
      → Leaves input w (enqueued db run next o)
  enqueued-Leaves input w run next enqueue none h q e = orphan run next enqueue h q e
  enqueued-Leaves input w run next enqueue (some last) h q e = sent run next last enqueue h q e

  send-Leaves :
      (input : CreateRunInput) (w : W) (run : Run) (next : W) (queue : Option (Text → W → Option W))
      → db.enqueue ≡ queue
      → db.create_run input (new_status db) w ≡ some (run, next)
      → Leaves input w (send db queue run next)
  send-Leaves input w run next none q h =
      unsent run next
        (ap (λ o. db.create_run input (if is_some o then queued else created) w) (sym q) ∙ h) q
  send-Leaves input w run next (some enqueue) q h =
      enqueued-Leaves input w run next enqueue _
        (ap (λ o. db.create_run input (if is_some o then queued else created) w) (sym q) ∙ h) q refl

  made-Leaves :
      (input : CreateRunInput) (w : W) (o : Option (Run × W))
      → db.create_run input (new_status db) w ≡ o
      → Leaves input w (made db w o)
  made-Leaves input w none h = untouched other
  made-Leaves input w (some (run, next)) h = send-Leaves input w run next db.enqueue refl h

  checked-Leaves :
      (input : CreateRunInput) (w : W) (r : Result Unit) → Leaves input w (checked db input w r)
  checked-Leaves input w (err e) = untouched e
  checked-Leaves input w (ok t) = made-Leaves input w _ refl

  -- A call that makes a run either fails and changes nothing, or fails and leaves a row whose job
  -- could not be queued, or answers with the row that it made and queued, where there is a queue.
  pub create-Leaves : (input : CreateRunInput) (w : W) → Leaves input w (create db input w)
  unfolding create
  create-Leaves input w = checked-Leaves input w (check_run db input w)
