-- ===== src/Worker/Tests.antt =====
-- Tests of the worker, and its theorems at concrete inputs.
use psybot_ai.Base.{
  ℕ, ◌≡◌, ◌≢◌, refl, true, false, Option, none, some, List, [], ◌∷◌, ◌++◌, arith, pos, negsuc,
  String,
}
use psybot_ai.Base.Text.{Text, codes, text_eq}
use psybot_ai.Base.Json.{Json, null}
use psybot_ai.Base.Json.Model.{model_platform}
use psybot_ai.Worker.Limits.{PartialLimits, default_sandbox_limits, clamp_limits}
use psybot_ai.Worker.Limits.Bounds.{IsInRange, clamp_limits-IsInRange, given}
use psybot_ai.Worker.Collect.{
  Event, out_data, err_data, timer, close, Child, spawned, FirejailResult, limit_marker, run_child,
  spawn_and_collect,
}
use psybot_ai.Worker.Collect.Output.{written_out, is_timely}
use psybot_ai.Worker.Container.{
  AbsPath, SandboxInput, SandboxOutput, Fs, is_under, split_slash, write_files, Host, waiting, done,
  sandbox_command, finish, run_sandbox,
}
use psybot_ai.Worker.Container.Isolation.{
  IsContained, StaysInside, run_sandbox-clean, run_sandbox-outside,
}
use psybot_ai.Worker.Container.Outcome.{run_sandbox-ok}
use psybot_ai.Worker.Artifacts.{Store}
use psybot_ai.Worker.Payloads.{
  ok, inline, PackModuleJob, PackModuleResult, VerifyModuleResult, RunModuleJob,
}
use psybot_ai.Worker.Jobs.{pack_module_processor, verify_module_processor}
use psybot_ai.Worker.Jobs.Pipeline.{packed, pack-verify}
use psybot_ai.Worker.Queue.{
  JobEnvelope, Worker, Clock, World, handle_job, work, push, job_done, job_failed, unknown_job_type,
}
use psybot_ai.Worker.Queue.Order.{push_all, NeverStuck}
use psybot_ai.Worker.Queue.Drain.{also, work-push_all}
use mathlib.Core.List.{foldl, zip}

-- A job that asks for too much, for too little, and for the network.
abbrev greedy : PartialLimits
greedy = record {
  cpu_time_ms = some (pos 99999);
  wall_time_ms = some (negsuc 4);
  max_output_bytes = none;
  max_memory_mb = some (pos 64);
  max_file_bytes = none;
  max_files = some (pos 0);
  network = none;
}

clamp_test : (clamp_limits greedy).wall_time_ms ≡ pos 500
unfolding clamp_limits
clamp_test = refl

clamp_limits-IsInRange_example :
    IsInRange (clamp_limits greedy)
    × (clamp_limits (given (clamp_limits greedy)) ≡ clamp_limits greedy)
clamp_limits-IsInRange_example = clamp_limits-IsInRange greedy

abbrev short_run : List Event
short_run = out_data (codes "ab") ∷ err_data (codes "c") ∷ close (some 0) none ∷ []

abbrev short_end : Child × Option ℕ × Option String
short_end = (
  record { stdout = codes "ab"; stderr = codes "c"; timed_out = false; killed = 0 },
  some 0,
  none,
)

short_closes : run_child (pos 3) spawned short_run ≡ some short_end
unfolding run_child
short_closes = refl

-- Past the limit each chunk adds the mark once more.
abbrev long_run : List Event
long_run = out_data (codes "abcd") ∷ out_data (codes "e") ∷ timer ∷ close none (some "SIGKILL") ∷ []

abbrev long_result : FirejailResult
long_result = record {
  code = none;
  signal = some "SIGKILL";
  stdout = codes "abcde";
  stderr = limit_marker ++ limit_marker;
  timed_out = true;
}

long_collects : spawn_and_collect (pos 3) long_run ≡ some long_result
unfolding spawn_and_collect
long_collects = refl

-- A host whose child prints a word and ends.
abbrev temp : AbsPath
temp = codes "tmp" ∷ codes "sbx" ∷ []

abbrev host : Host
host = record {
  linux = true;
  temp_dir = temp;
  blocked = λ _. false;
  child = λ _ fs. (fs, out_data (codes "hi") ∷ close (some 0) none ∷ []);
  show_number = λ _. [];
}

abbrev input : SandboxInput
input = record {
  entry_file = codes "runner.mjs";
  files = record { rel_path = codes "a/./b.js"; content = codes "x" } ∷ [];
  args = none;
  env = none;
  limits = default_sandbox_limits;
}

abbrev empty_fs : Fs
empty_fs _ = none

abbrev hi_output : SandboxOutput
hi_output = record {
  ok = true;
  exit_code = some 0;
  signal = none;
  stdout = codes "hi";
  stderr = [];
  duration_ms = 9;
}

written_before : (write_files (λ _. false) temp input.files empty_fs).1 ≡ true
unfolding write_files
written_before = refl

hi_runs : (run_sandbox host input 1 10 empty_fs).1 ≡ done hi_output
unfolding run_sandbox write_files finish spawn_and_collect
hi_runs = refl

hi_settles : (run_sandbox host input 1 10 empty_fs).1 ≢ waiting
unfolding run_sandbox write_files finish spawn_and_collect
hi_settles e = cc

below : is_under temp (codes "tmp" ∷ codes "sbx" ∷ codes "a" ∷ []) ≡ true
unfolding is_under
below = refl

beside : is_under temp (codes "tmp" ∷ []) ≡ false
unfolding is_under
beside = refl

contained : IsContained input.files
unfolding split_slash
contained = (((λ e. cc), ((λ e. cc), ((λ e. cc), tt))), tt)

run_sandbox-clean_example :
    (run_sandbox host input 1 10 empty_fs).0 (codes "tmp" ∷ codes "sbx" ∷ codes "a" ∷ []) ≡ none
run_sandbox-clean_example =
    run_sandbox-clean host input 1 10 empty_fs (codes "tmp" ∷ codes "sbx" ∷ codes "a" ∷ [])
      hi_settles below

child_stays : StaysInside host
child_stays c fs q h = refl

run_sandbox-outside_example : (run_sandbox host input 1 10 empty_fs).0 (codes "tmp" ∷ []) ≡ none
run_sandbox-outside_example =
    run_sandbox-outside host input 1 10 empty_fs (codes "tmp" ∷ []) child_stays contained beside

run_sandbox-ok_example :
    let (staged, written) = write_files host.blocked host.temp_dir input.files empty_fs in
    let events = (host.child (sandbox_command host input) staged).1 in
    (written ≡ true)
    × (hi_output.exit_code ≡ some 0)
    × (is_timely events ≡ true)
    × (hi_output.stdout ≡ written_out events)
run_sandbox-ok_example = run_sandbox-ok host input 1 10 empty_fs hi_output hi_runs refl

-- A packed module, verified and prepared for a run.
abbrev pack_job : PackModuleJob
pack_job = record {
  module_id = codes "demo";
  kind = inline;
  uri = none;
  files = some (record { rel_path = codes "i.mjs"; content = codes "1" } ∷ []);
  entry_file = some (codes "i.mjs");
  output_prefix = codes "p";
}

abbrev glue : Text → Text → Text
glue a b = a ++ b

abbrev no_store : Store
no_store _ = none

abbrev pack_result : PackModuleResult × Store
pack_result =
    packed model_platform glue pack_job (codes "i.mjs")
      (record { rel_path = codes "i.mjs"; content = codes "1" } ∷ []) no_store

packs : pack_module_processor model_platform glue pack_job no_store ≡ ok pack_result
unfolding pack_module_processor
packs = refl

pack-verify_example :
    (v : VerifyModuleResult) × (verify_module_processor model_platform
        (codes "now")
        (record { module_id = codes "demo"; packed_artifact_key = pack_result.0.artifact.key })
        pack_result.1
      ≡ ok v)
    × (v.ok ≡ true)
    × (v.fingerprint ≡ pack_result.0.manifest_sha256)
pack-verify_example =
    pack-verify model_platform glue pack_job no_store pack_result (codes "demo") (codes "now") packs

abbrev run_job : RunModuleJob
run_job = record {
  run_id = codes "r1";
  module_id = codes "demo";
  fork_id = none;
  packed_artifact_key = pack_result.0.artifact.key;
  input = none;
  limits = none;
}

abbrev other : Option Json → Text
other _ = codes "undefined"

abbrev job_of : Text → JobEnvelope
job_of t = record { type = t; payload = null }

abbrev jobs : List JobEnvelope
jobs = job_of (codes "run-module") ∷ job_of (codes "nothing") ∷ job_of (codes "pack-module") ∷ []

-- A worker whose schemas accept one job of packing and no other payload.
abbrev packer : Worker
packer = record {
  platform = model_platform;
  path_join = glue;
  other_text = other;
  host = host;
  schemas = record {
    pack = λ _. some pack_job;
    verify = λ _. none;
    run = λ _. none;
    publish = λ _. none;
  };
}

packer-NeverStuck : NeverStuck packer
unfolding handle_job pack_module_processor
packer-NeverStuck t job s = ground arith

abbrev tick : Clock
tick = record { created_at = codes "now"; started = 0; finished = 5 }

abbrev world : World
world = record { store = no_store; fs = empty_fs }

work-push_all_example :
    let (last, lines) = foldl (also packer) (world, []) (zip (tick ∷ tick ∷ tick ∷ []) jobs) in
    work packer (tick ∷ tick ∷ tick ∷ []) (push_all jobs []) world [] ≡ (last, [], lines)
work-push_all_example =
    work-push_all packer (tick ∷ tick ∷ tick ∷ []) jobs world packer-NeverStuck (omega arith)

-- A payload that is refused, an unknown type, and a module that is packed.
packed_lines :
    (work packer (tick ∷ tick ∷ tick ∷ []) (push_all jobs []) world []).2
    ≡ job_failed ∷ unknown_job_type ∷ job_done ∷ []
unfolding work push handle_job pack_module_processor text_eq
packed_lines = refl
