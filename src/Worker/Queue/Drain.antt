-- ===== src/Worker/Queue/Drain.antt =====
-- What the loop of apps-worker/src/main.ts does with the jobs that were pushed.
use psybot_ai.Base.{◌≤◌, ◌≡◌, refl, ap, ◌∙◌, List, [], ◌∷◌, ◌++◌, length, arith}
use mathlib.Core.List.{foldl, zip, zip_with}
use psybot_ai.Worker.Queue.{JobEnvelope, Worker, Clock, World, Log, handle_job, work}
use psybot_ai.Worker.Queue.Order.{
  push_all, push_all-append, NeverStuck, work_next, work_end, work_idle,
}

-- One job after others: the world and the lines so far.
abbrev pub also : Worker → World × List Log → Clock × JobEnvelope → World × List Log
also w (s, log) (t, job) = let (s', line) = handle_job w t job s in (s', log ++ line ∷ [])

work_all_idle :
    (w : Worker) (ts : List Clock) (s : World) (log : List Log) → work w ts [] s log ≡ (s, [], log)
work_all_idle w [] s log = work_end w [] s log
work_all_idle w (t ∷ ts) s log = work_idle w t ts s log ∙ work_all_idle w ts s log

work-drained :
    (w : Worker) (ts : List Clock) (q : List JobEnvelope) (s : World) (log : List Log)
    → NeverStuck w
    → length q ≤ length ts
    → let (last, lines) = foldl (also w) (s, log) (zip ts q) in
      work w ts q s log ≡ (last, [], lines)
unfolding zip zip_with
work-drained w [] [] s log n h = work_all_idle w [] s log
work-drained w (t ∷ ts) [] s log n h = work_all_idle w (t ∷ ts) s log
work-drained w [] (job ∷ q) s log n h = absurd (omega arith)
work-drained w (t ∷ ts) (job ∷ q) s log n h =
    let line = (handle_job w t job s).1 in
    let next = (handle_job w t job s).0 in
    work_next w t ts job q s log line refl (n t job s)
    ∙ work-drained w ts q next (log ++ line ∷ []) n (omega arith)

-- Jobs that are pushed on an empty queue are all handled, in the order in which they were pushed:
-- after as many rounds as jobs, or more, the queue is empty, and the world and the log are those of
-- the fold of `handleJob` over the clock readings and the jobs, side by side; if every job ends.
pub work-push_all :
    (w : Worker) (ts : List Clock) (jobs : List JobEnvelope) (s : World)
    → NeverStuck w
    → length jobs ≤ length ts
    → let (last, lines) = foldl (also w) (s, []) (zip ts jobs) in
      work w ts (push_all jobs []) s [] ≡ (last, [], lines)
work-push_all w ts jobs s n h =
    ap (λ q. work w ts q s []) (push_all-append jobs []) ∙ work-drained w ts jobs s [] n h
