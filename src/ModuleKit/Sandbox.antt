-- ===== src/ModuleKit/Sandbox.antt =====
-- packages/module-kit/src/runtime/limits.ts and sandbox.ts: `runInSandbox` as a fold over the
-- events of the child process. What the child writes, and when, is the list of events. A chunk is
-- the decoded text of one buffer.
use psybot_ai.Base.{
  ℕ, suc, ◌+◌, ◌-◌, Bool, true, false, ◌&&◌, Option, List, [], ◌∷◌, ◌++◌, String, leb, ltb,
  if◌then◌else◌, take, or_default,
}
use psybot_ai.Base.Text.{Text}

pub record RuntimeLimits : Type 0 where
  pub max_cpu_ms : ℕ
  pub max_memory_mb : ℕ
  pub timeout_ms : ℕ
  pub max_output_bytes : ℕ

-- `Partial<RuntimeLimits>`
pub record PartialLimits : Type 0 where
  pub max_cpu_ms : Option ℕ
  pub max_memory_mb : Option ℕ
  pub timeout_ms : Option ℕ
  pub max_output_bytes : Option ℕ

abbrev pub default_limits : RuntimeLimits
default_limits = record {
  max_cpu_ms = 5000;
  max_memory_mb = 512;
  timeout_ms = 10000;
  max_output_bytes = 1000000;
}

-- `{ ...DEFAULT_LIMITS, ...(opts.limits ?? {}) }`
unfoldable pub merge_limits : PartialLimits → RuntimeLimits
merge_limits p = record {
  max_cpu_ms = or_default p.max_cpu_ms default_limits.max_cpu_ms;
  max_memory_mb = or_default p.max_memory_mb default_limits.max_memory_mb;
  timeout_ms = or_default p.timeout_ms default_limits.timeout_ms;
  max_output_bytes = or_default p.max_output_bytes default_limits.max_output_bytes;
}

abbrev is_high : ℕ → Bool
is_high u = leb 0xD800 u && leb u 0xDBFF

abbrev is_low : ℕ → Bool
is_low u = leb 0xDC00 u && leb u 0xDFFF

abbrev unit_bytes : ℕ → ℕ
unit_bytes u = if ltb u 0x80 then 1 else if ltb u 0x800 then 2 else 3

-- `Buffer.byteLength(s, "utf8")`: a surrogate pair takes four bytes, a lone surrogate three.
unfoldable pub byte_length : Text → ℕ
byte_length [] = 0
byte_length (u ∷ []) = unit_bytes u
byte_length (u ∷ v ∷ s) = elim (is_high u && is_low v) [
  | true ↦ 4 + byte_length s
  | false ↦ unit_bytes u + byte_length (v ∷ s)
]

pub data Event : Type 0 where
  out_data err_data : Text → Event
  -- the timer of `timeoutMs` fires
  timer : Event
  error : Event
  -- the exit code, the signal, and the clock at that moment
  close : Option ℕ → Option String → ℕ → Event

pub record SandboxResult : Type 0 where
  pub code : Option ℕ
  pub signal : Option String
  pub stdout : Text
  pub stderr : Text
  pub duration_ms : ℕ
  pub truncated : Bool

-- The promise that `runInSandbox` returns.
pub data Outcome : Type 0 where
  pending : Outcome
  rejected : Outcome
  resolved : SandboxResult → Outcome

-- The variables that the handlers share; `killed` counts the calls of `child.kill`.
pub record Child : Type 0 where
  pub stdout : Text
  pub stderr : Text
  pub truncated : Bool
  pub killed : ℕ

abbrev pub spawned : Child
spawned = record { stdout = []; stderr = []; truncated = false; killed = 0 }

-- `capAppend`: the new text, and whether it was cut.
unfoldable pub cap_append : ℕ → Text → Text → Text × Bool
cap_append limit dst chunk =
    let next = dst ++ chunk in
    if ltb limit (byte_length next) then (take limit next, true) else (next, false)

unfoldable pub on_stdout : ℕ → Child → Text → Child
unfolding cap_append
on_stdout limit c d =
    let (text, cut) = cap_append limit c.stdout d in
    record c { stdout = text; truncated = if cut then true else c.truncated }

unfoldable pub on_stderr : ℕ → Child → Text → Child
unfolding cap_append
on_stderr limit c d =
    let (text, cut) = cap_append limit c.stderr d in
    record c { stderr = text; truncated = if cut then true else c.truncated }

-- The events in their order; the first `error` or `close` settles the promise.
unfoldable pub run_events : RuntimeLimits → ℕ → Child → List Event → Outcome
unfolding on_stdout on_stderr
run_events limits start c [] = pending
run_events limits start c (out_data d ∷ es) =
    run_events limits start (on_stdout limits.max_output_bytes c d) es
run_events limits start c (err_data d ∷ es) =
    run_events limits start (on_stderr limits.max_output_bytes c d) es
run_events limits start c (timer ∷ es) =
    run_events limits start (record c { killed = suc c.killed }) es
run_events limits start c (error ∷ es) = rejected
run_events limits start c (close code signal now ∷ es) = resolved (record {
  code = code;
  signal = signal;
  stdout = c.stdout;
  stderr = c.stderr;
  duration_ms = now - start;
  truncated = c.truncated;
})

unfoldable pub run_in_sandbox : PartialLimits → ℕ → List Event → Outcome
unfolding merge_limits run_events
run_in_sandbox limits start es = run_events (merge_limits limits) start spawned es
