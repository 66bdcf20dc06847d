-- ===== src/Worker/Queue/Order.antt =====
-- The order in which jobs are taken, and how many.
use psybot_ai.Base.{
  ℕ, zero, suc, ◌+◌, ◌≡◌, ◌≢◌, refl, sym, Option, none, some, List, [], ◌∷◌, ◌++◌, append_assoc,
  append-nil, length, length-append, drop, drop-nil, ◌∙◌, min, arith,
}
use psybot_ai.Worker.Queue.{
  JobEnvelope, InMemoryQueue, push, pull, Worker, Clock, World, Log, job_done, job_failed,
  unknown_job_type, stuck, handle_job, work,
}

abbrev pub push_all : List JobEnvelope → InMemoryQueue → InMemoryQueue
push_all [] q = q
push_all (j ∷ js) q = push_all js (push j q)

abbrev with_pulled :
    Option JobEnvelope → List JobEnvelope × InMemoryQueue → List JobEnvelope × InMemoryQueue
with_pulled none r = r
with_pulled (some j) (js, q) = (j ∷ js, q)

-- The jobs that a number of pulls yields, and the queue after them.
abbrev pub pull_all : ℕ → InMemoryQueue → List JobEnvelope × InMemoryQueue
pull_all zero q = ([], q)
pull_all (suc n) q = with_pulled (pull q).0 (pull_all n (pull q).1)

pub push_all-append : (js : List JobEnvelope) (q : InMemoryQueue) → push_all js q ≡ q ++ js
unfolding push
push_all-append [] q = sym (append-nil q)
push_all-append (j ∷ js) q = push_all-append js (q ++ j ∷ []) ∙ append_assoc q (j ∷ []) js

pull_all-length : (js : List JobEnvelope) → pull_all (length js) js ≡ (js, [])
unfolding pull
pull_all-length [] = refl
pull_all-length (j ∷ js) = rw (pull_all-length js)

-- Jobs that are pushed on an empty queue are pulled in the order in which they were pushed, and
-- leave it empty.
pub pull_all-push_all : (js : List JobEnvelope) → pull_all (length js) (push_all js []) ≡ (js, [])
pull_all-push_all js = rw (push_all-append js []) (pull_all-length js)

-- Every job ends, by a result or by an error.
abbrev pub NeverStuck : Worker → Type 0
NeverStuck w = (t : Clock) (job : JobEnvelope) (s : World) → (handle_job w t job s).1 ≢ stuck

pub work_next :
    (w : Worker) (t : Clock) (ts : List Clock) (job : JobEnvelope) (q : InMemoryQueue) (s : World)
    (log : List Log) (line : Log)
    → (handle_job w t job s).1 ≡ line
    → line ≢ stuck
    → work w (t ∷ ts) (job ∷ q) s log ≡ work w ts q (handle_job w t job s).0 (log ++ line ∷ [])
unfolding work pull
work_next w t ts job q s log job_done e h = rw (e, work)
work_next w t ts job q s log job_failed e h = rw (e, work)
work_next w t ts job q s log unknown_job_type e h = rw (e, work)
work_next w t ts job q s log stuck e h = absurd (h refl)

pub work_end :
    (w : Worker) (q : InMemoryQueue) (s : World) (log : List Log) → work w [] q s log ≡ (s, q, log)
unfolding work
work_end w q s log = refl

pub work_idle :
    (w : Worker) (t : Clock) (ts : List Clock) (s : World) (log : List Log)
    → work w (t ∷ ts) [] s log ≡ work w ts [] s log
unfolding work pull
work_idle w t ts s log = refl

-- Each round of the loop takes one job while there is one, and logs one line for it, whether it
-- ended well or failed: after as many rounds as there are clock readings the queue has lost that
-- many jobs from its front, and the log has grown by the jobs taken.
pub work_counts :
    (w : Worker) (ts : List Clock) (q : InMemoryQueue) (s : World) (log : List Log)
    → NeverStuck w
    → let (_, q', log') = work w ts q s log in
      (q' ≡ drop (length ts) q) × (length log' ≡ length log + min (length ts) (length q))
work_counts w [] q s log h = rw (work_end w q s log) (refl, omega arith)
work_counts w (t ∷ ts) [] s log h =
    let (rest, count) = work_counts w ts [] s log h in
    rw (work_idle w t ts s log) (rest ∙ drop-nil (length ts), count ∙ omega arith)
work_counts w (t ∷ ts) (job ∷ q) s log h =
    let line = (handle_job w t job s).1 in
    let (rest, count) = work_counts w ts q (handle_job w t job s).0 (log ++ line ∷ []) h in
    rw (work_next w t ts job q s log line refl (h t job s))
      (rest, count ∙ omega (arith, length-append {0} log (line ∷ [])))
