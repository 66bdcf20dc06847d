-- ===== src/Worker/Limits.antt =====
-- apps-worker/src/sandbox/limits.ts: the limits of a run, brought into their ranges. A limit is an
-- integer of any sign, as a job may give one.
pub mod Bounds
use psybot_ai.Base.{Option, ℤ, pos, min_ℤ, max_ℤ, or_default}

pub data Network : Type 0 where
  deny allow : Network

pub record SandboxLimits : Type 0 where
  pub cpu_time_ms : ℤ
  pub wall_time_ms : ℤ
  pub max_output_bytes : ℤ
  pub max_memory_mb : ℤ
  pub max_file_bytes : ℤ
  pub max_files : ℤ
  pub network : Network

-- `Partial<SandboxLimits>`
pub record PartialLimits : Type 0 where
  pub cpu_time_ms : Option ℤ
  pub wall_time_ms : Option ℤ
  pub max_output_bytes : Option ℤ
  pub max_memory_mb : Option ℤ
  pub max_file_bytes : Option ℤ
  pub max_files : Option ℤ
  pub network : Option Network

abbrev pub default_sandbox_limits : SandboxLimits
default_sandbox_limits = record {
  cpu_time_ms = pos 2000;
  wall_time_ms = pos 8000;
  max_output_bytes = pos 512000;
  max_memory_mb = pos 256;
  max_file_bytes = pos 10000000;
  max_files = pos 200;
  network = deny;
}

-- `Math.max(lo, Math.min(hi, v))`
abbrev pub clamp : ℤ → ℤ → ℤ → ℤ
clamp lo hi v = max_ℤ lo (min_ℤ hi v)

unfoldable pub clamp_limits : PartialLimits → SandboxLimits
clamp_limits input =
    let d = default_sandbox_limits in
    record {
      cpu_time_ms = clamp (pos 250) (pos 30000) (or_default input.cpu_time_ms d.cpu_time_ms);
      wall_time_ms = clamp (pos 500) (pos 120000) (or_default input.wall_time_ms d.wall_time_ms);
      max_output_bytes =
          clamp (pos 8192) (pos 10000000) (or_default input.max_output_bytes d.max_output_bytes);
      max_memory_mb = clamp (pos 64) (pos 4096) (or_default input.max_memory_mb d.max_memory_mb);
      max_file_bytes =
          clamp (pos 256000) (pos 200000000) (or_default input.max_file_bytes d.max_file_bytes);
      max_files = clamp (pos 10) (pos 10000) (or_default input.max_files d.max_files);
      network = or_default input.network d.network;
    }
