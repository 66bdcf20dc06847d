-- ===== src/Worker/Limits/Bounds.antt =====
-- The ranges of the limits.
use psybot_ai.Base.{◌≡◌, some, ℤ, pos, ◌≤ℤ◌, arith, or_default}
use psybot_ai.Worker.Limits.{
  SandboxLimits, PartialLimits, default_sandbox_limits, clamp, clamp_limits,
}

pub record IsInRange (l : SandboxLimits) : Type 0 where
  pub cpu : (pos 250 ≤ℤ l.cpu_time_ms) × (l.cpu_time_ms ≤ℤ pos 30000)
  pub wall : (pos 500 ≤ℤ l.wall_time_ms) × (l.wall_time_ms ≤ℤ pos 120000)
  pub output : (pos 8192 ≤ℤ l.max_output_bytes) × (l.max_output_bytes ≤ℤ pos 10000000)
  pub memory : (pos 64 ≤ℤ l.max_memory_mb) × (l.max_memory_mb ≤ℤ pos 4096)
  pub file : (pos 256000 ≤ℤ l.max_file_bytes) × (l.max_file_bytes ≤ℤ pos 200000000)
  pub files : (pos 10 ≤ℤ l.max_files) × (l.max_files ≤ℤ pos 10000)

clamp_bounds : (lo hi v : ℤ) → lo ≤ℤ hi → (lo ≤ℤ clamp lo hi v) × (clamp lo hi v ≤ℤ hi)
clamp_bounds lo hi v h = ground arith

clamp_of_bounds : (lo hi v : ℤ) → lo ≤ℤ v → v ≤ℤ hi → clamp lo hi v ≡ v
clamp_of_bounds lo hi v h k = ground arith

clamp_limits_lem : (input : PartialLimits) → IsInRange (clamp_limits input)
unfolding clamp_limits
clamp_limits_lem input =
    let d = default_sandbox_limits in
    record {
      cpu =
          clamp_bounds (pos 250) (pos 30000) (or_default input.cpu_time_ms d.cpu_time_ms)
            (omega arith);
      wall =
          clamp_bounds (pos 500) (pos 120000) (or_default input.wall_time_ms d.wall_time_ms)
            (omega arith);
      output =
          clamp_bounds (pos 8192) (pos 10000000)
            (or_default input.max_output_bytes d.max_output_bytes) (omega arith);
      memory =
          clamp_bounds (pos 64) (pos 4096) (or_default input.max_memory_mb d.max_memory_mb)
            (omega arith);
      file =
          clamp_bounds (pos 256000) (pos 200000000)
            (or_default input.max_file_bytes d.max_file_bytes) (omega arith);
      files =
          clamp_bounds (pos 10) (pos 10000) (or_default input.max_files d.max_files) (omega arith);
    }

-- All the limits, given.
abbrev pub given : SandboxLimits → PartialLimits
given l = record {
  cpu_time_ms = some l.cpu_time_ms;
  wall_time_ms = some l.wall_time_ms;
  max_output_bytes = some l.max_output_bytes;
  max_memory_mb = some l.max_memory_mb;
  max_file_bytes = some l.max_file_bytes;
  max_files = some l.max_files;
  network = some l.network;
}

-- Limits that are in their ranges are kept as they are.
clamp_limits-given : (l : SandboxLimits) → IsInRange l → clamp_limits (given l) ≡ l
unfolding clamp_limits
clamp_limits-given l h = λ i. record {
  cpu_time_ms = clamp_of_bounds (pos 250) (pos 30000) l.cpu_time_ms h.cpu.0 h.cpu.1 i;
  wall_time_ms = clamp_of_bounds (pos 500) (pos 120000) l.wall_time_ms h.wall.0 h.wall.1 i;
  max_output_bytes =
      clamp_of_bounds (pos 8192) (pos 10000000) l.max_output_bytes h.output.0 h.output.1 i;
  max_memory_mb = clamp_of_bounds (pos 64) (pos 4096) l.max_memory_mb h.memory.0 h.memory.1 i;
  max_file_bytes =
      clamp_of_bounds (pos 256000) (pos 200000000) l.max_file_bytes h.file.0 h.file.1 i;
  max_files = clamp_of_bounds (pos 10) (pos 10000) l.max_files h.files.0 h.files.1 i;
  network = l.network;
}

-- Whatever a job asks for, every numeric limit ends in its range, and clamping the result again
-- changes nothing.
pub clamp_limits-IsInRange :
    (input : PartialLimits)
    → IsInRange (clamp_limits input)
      × (clamp_limits (given (clamp_limits input)) ≡ clamp_limits input)
clamp_limits-IsInRange input =
    (clamp_limits_lem input, clamp_limits-given (clamp_limits input) (clamp_limits_lem input))
