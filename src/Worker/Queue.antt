-- ===== src/Worker/Queue.antt =====
-- apps-worker/src/main.ts: the queue in memory, the dispatch of a job, and the loop. The schemas
-- that read a job's payload are parameters; `none` is a payload that they refuse.
pub mod Order
pub mod Drain
use psybot_ai.Base.{ℕ, Bool, true, false, Option, none, some, List, [], ◌∷◌, ◌++◌, if◌then◌else◌}
use psybot_ai.Base.Text.{Text, codes, text_eq}
use psybot_ai.Base.Json.{Json, str, arr, obj, cons, nil, end, field, Platform}
use psybot_ai.Worker.Container.{Fs, Host}
use psybot_ai.Worker.Artifacts.{Store}
use psybot_ai.Worker.Payloads.{
  Result, ok, err, pending, PackModuleJob, PackModuleResult, VerifyModuleJob, RunModuleJob,
  PublishModuleJob,
}
use psybot_ai.Worker.Jobs.{
  pack_module_processor, verify_module_processor, publish_module_processor, run_module_processor,
}

pub record JobEnvelope : Type 0 where
  pub type : Text
  pub payload : Json

abbrev pub InMemoryQueue : Type 0
InMemoryQueue = List JobEnvelope

unfoldable pub push : JobEnvelope → InMemoryQueue → InMemoryQueue
push job q = q ++ job ∷ []

-- `arr.shift() ?? null`
unfoldable pub pull : InMemoryQueue → Option JobEnvelope × InMemoryQueue
pull [] = (none, [])
pull (job ∷ q) = (some job, q)

pub record Schemas : Type 0 where
  pub pack : Json → Option PackModuleJob
  pub verify : Json → Option VerifyModuleJob
  pub run : Json → Option RunModuleJob
  pub publish : Json → Option PublishModuleJob

-- What the processors depend on, and the clock readings of one job.
pub record Worker : Type 0 where
  pub platform : Platform
  pub path_join : Text → Text → Text
  pub other_text : Option Json → Text
  pub host : Host
  pub schemas : Schemas

pub record Clock : Type 0 where
  pub created_at : Text
  pub started : ℕ
  pub finished : ℕ

pub record World : Type 0 where
  pub store : Store
  pub fs : Fs

-- The log line that a job ends in; `stuck` is a job that never ends.
pub data Log : Type 0 where
  job_done job_failed unknown_job_type stuck : Log

abbrev log_of : {A : Type 0} → Result A → Log
log_of (ok _) = job_done
log_of (err _) = job_failed
log_of pending = stuck

-- A schema's refusal is a throw.
abbrev handle_pack : Worker → Option PackModuleJob → World → World × Log
handle_pack w none s = (s, job_failed)
handle_pack w (some job) s = elim (pack_module_processor w.platform w.path_join job s.store) [
  | ok (_, store) ↦ (record s { store = store }, job_done)
  | err _ ↦ (s, job_failed)
  | pending ↦ (s, stuck)
]

abbrev handle_verify : Worker → Clock → Option VerifyModuleJob → World → World × Log
handle_verify w t none s = (s, job_failed)
handle_verify w t (some job) s =
    (s, log_of (verify_module_processor w.platform t.created_at job s.store))

abbrev handle_run : Worker → Clock → Option RunModuleJob → World → World × Log
handle_run w t none s = (s, job_failed)
handle_run w t (some job) s =
    let (fs, r) =
      run_module_processor w.platform w.other_text w.host job t.started t.finished s.store s.fs in
    (record s { fs = fs }, log_of r)

abbrev handle_publish : Worker → Clock → Option PublishModuleJob → World → World × Log
handle_publish w t none s = (s, job_failed)
handle_publish w t (some job) s =
    (s, log_of (ok (publish_module_processor w.platform t.created_at job)))

-- `handleJob` with the `catch` of the loop.
unfoldable pub handle_job : Worker → Clock → JobEnvelope → World → World × Log
unfolding text_eq
handle_job w t job s =
    if text_eq job.type (codes "pack-module")
    then handle_pack w (w.schemas.pack job.payload) s
    else if text_eq job.type (codes "verify-module")
    then handle_verify w t (w.schemas.verify job.payload) s
    else if text_eq job.type (codes "run-module")
    then handle_run w t (w.schemas.run job.payload) s
    else if text_eq job.type (codes "publish-module")
    then handle_publish w t (w.schemas.publish job.payload) s
    else (s, unknown_job_type)

-- Rounds of the loop, one for each clock reading: the world, the queue and the log so far. A round
-- that pulls no job sleeps; after a job that never ends there is no round.
unfoldable pub work :
    Worker → List Clock → InMemoryQueue → World → List Log → World × InMemoryQueue × List Log
unfolding pull
work w [] q s log = (s, q, log)
work w (t ∷ ts) q s log = elim (pull q).0 [
  | none ↦ work w ts (pull q).1 s log
  | some job ↦
      let (s', line) = handle_job w t job s in
      elim line [
        | stuck ↦ (s', (pull q).1, log ++ stuck ∷ [])
        | other ↦ work w ts (pull q).1 s' (log ++ other ∷ [])
      ]
]

-- `seedDemoJobs`
unfoldable pub seed_demo_jobs : InMemoryQueue → InMemoryQueue
unfolding push
seed_demo_jobs q =
    push
      (record {
        type = codes "pack-module";
        payload = obj (
            field (codes "moduleId") (str (codes "demo")) (
              field (codes "source")
                (obj (
                  field (codes "kind") (str (codes "inline")) (
                    field (codes "entryFile") (str (codes "index.mjs")) (
                      field (codes "files")
                        (arr (
                          cons
                            (obj (
                              field (codes "relPath") (str (codes "index.mjs")) (
                                field (codes "content")
                                  (str (codes "console.log('hello from module');")) end)))
                            nil))
                        end))))
                (field (codes "outputPrefix") (str (codes "modules/packed")) end)));
      })
      q
