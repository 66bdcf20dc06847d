-- ===== src/Worker/Collect.antt =====
-- apps-worker/src/sandbox/firejail.ts and `spawnPlain` of container.ts: what is collected from a
-- child process. The child is the list of its events; a chunk is the decoded text of one buffer.
pub mod Output
use psybot_ai.Base.{
  ℕ, suc, ◌+◌, ◌*◌, Bool, true, false, not, Option, none, some, List, [], ◌∷◌, ◌++◌, String, ℤ, pos,
  leb_ℤ, if◌then◌else◌, length,
}
use psybot_ai.Base.Text.{Text, codes}
use psybot_ai.Worker.Limits.{SandboxLimits}

pub data Event : Type 0 where
  out_data err_data : Text → Event
  -- the timer of `timeoutMs` fires
  timer : Event
  -- the exit code and the signal
  close : Option ℕ → Option String → Event

pub record FirejailResult : Type 0 where
  pub code : Option ℕ
  pub signal : Option String
  pub stdout : Text
  pub stderr : Text
  pub timed_out : Bool

-- The variables of `spawnAndCollect`; `killed` counts the calls of `child.kill("SIGKILL")`.
pub record Child : Type 0 where
  pub stdout : Text
  pub stderr : Text
  pub timed_out : Bool
  pub killed : ℕ

abbrev pub spawned : Child
spawned = record { stdout = []; stderr = []; timed_out = false; killed = 0 }

abbrev pub limit_marker : Text
limit_marker = b'\n' ∷ codes "OUTPUT_LIMIT_EXCEEDED"

-- `stdout.length + stderr.length > input.maxOutputBytes`
abbrev pub is_over : ℤ → Child → Bool
is_over most c = not (leb_ℤ (pos (length c.stdout + length c.stderr)) most)

abbrev pub check_limit : ℤ → Child → Child
check_limit most c =
    if is_over most c
    then record c { killed = suc c.killed; stderr = c.stderr ++ limit_marker }
    else c

unfoldable pub collect_out : ℤ → Child → Text → Child
collect_out most c s = check_limit most (record c { stdout = c.stdout ++ s })

unfoldable pub collect_err : ℤ → Child → Text → Child
collect_err most c s = check_limit most (record c { stderr = c.stderr ++ s })

unfoldable pub on_timeout : Child → Child
on_timeout c = record c { timed_out = true; killed = suc c.killed }

-- The events up to the first `close`; `none` where there is none, and the promise stays open.
unfoldable pub run_child : ℤ → Child → List Event → Option (Child × Option ℕ × Option String)
unfolding collect_out collect_err on_timeout
run_child most c [] = none
run_child most c (out_data s ∷ es) = run_child most (collect_out most c s) es
run_child most c (err_data s ∷ es) = run_child most (collect_err most c s) es
run_child most c (timer ∷ es) = run_child most (on_timeout c) es
run_child most c (close code signal ∷ es) = some (c, code, signal)

abbrev pub to_result : Child × Option ℕ × Option String → FirejailResult
to_result (c, code, signal) = record {
  code = code;
  signal = signal;
  stdout = c.stdout;
  stderr = c.stderr;
  timed_out = c.timed_out;
}

unfoldable pub collected : Option (Child × Option ℕ × Option String) → Option FirejailResult
collected none = none
collected (some r) = some (to_result r)

-- `spawnAndCollect` from the spawn on.
unfoldable pub spawn_and_collect : ℤ → List Event → Option FirejailResult
unfolding run_child collected
spawn_and_collect most es = collected (run_child most spawned es)
