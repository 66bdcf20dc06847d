-- ===== src/ModuleKit/Tests.antt =====
-- Runs of the module kit's sandbox at concrete events, and the theorems at them.
use psybot_ai.Base.{ℕ, ◌+◌, ◌≡◌, refl, true, false, none, some, List, [], ◌∷◌, take}
use psybot_ai.Base.Text.{Text, codes, trim}
use psybot_ai.Base.{ap, sym, ◌∙◌}
use psybot_ai.Base.Json.{Json, str, obj, Fields, end, field, get_field}
use psybot_ai.Base.Json.Model.{model_platform}
use psybot_ai.ModuleKit.Integrity.{Crypto}
use psybot_ai.ModuleKit.Sandbox.{
  PartialLimits, merge_limits, byte_length, Event, out_data, err_data, timer, close, SandboxResult,
  resolved, run_in_sandbox,
}
use psybot_ai.ModuleKit.Output.{written_out, written_err, run_in_sandbox-output}
use psybot_ai.ModuleKit.Runner.{run_module, looks_like_json, split_lines}
use psybot_ai.ModuleKit.Runner.LastLine.{run_module-output}

-- A limit of four bytes.
abbrev small : PartialLimits
small = record {
  max_cpu_ms = none;
  max_memory_mb = none;
  timeout_ms = some 100;
  max_output_bytes = some 4;
}

abbrev chatty : List Event
chatty =
    out_data (codes "ab")
    ∷ err_data (codes "x")
    ∷ out_data (codes "cde")
    ∷ timer
    ∷ close none (some "SIGKILL") 150
    ∷ []

abbrev cut_result : SandboxResult
cut_result = record {
  code = none;
  signal = some "SIGKILL";
  stdout = codes "abcd";
  stderr = codes "x";
  duration_ms = 50;
  truncated = true;
}

run_cut : run_in_sandbox small 100 chatty ≡ resolved cut_result
unfolding run_in_sandbox byte_length
run_cut = refl

-- One character of three bytes under a limit of one byte is kept whole.
abbrev euro : PartialLimits
euro = record {
  max_cpu_ms = none;
  max_memory_mb = none;
  timeout_ms = none;
  max_output_bytes = some 1;
}

abbrev euro_result : SandboxResult
euro_result = record {
  code = some 0;
  signal = none;
  stdout = 0x20AC ∷ [];
  stderr = [];
  duration_ms = 5;
  truncated = true;
}

run_euro :
    run_in_sandbox euro 0 (out_data (0x20AC ∷ []) ∷ close (some 0) none 5 ∷ [])
    ≡ resolved euro_result
unfolding run_in_sandbox byte_length
run_euro = refl

abbrev quiet : List Event
quiet = out_data (codes "log") ∷ out_data (codes "{}") ∷ close (some 0) none 107 ∷ []

abbrev no_limits : PartialLimits
no_limits = record {
  max_cpu_ms = none;
  max_memory_mb = none;
  timeout_ms = none;
  max_output_bytes = none;
}

abbrev whole_result : SandboxResult
whole_result = record {
  code = some 0;
  signal = none;
  stdout = codes "log{}";
  stderr = [];
  duration_ms = 7;
  truncated = false;
}

run_whole : run_in_sandbox no_limits 100 quiet ≡ resolved whole_result
unfolding run_in_sandbox byte_length
run_whole = refl

run_in_sandbox-output_example :
    (cut_result.stdout ≡ take (merge_limits small).max_output_bytes (written_out chatty))
    × (cut_result.stderr ≡ take (merge_limits small).max_output_bytes (written_err chatty))
run_in_sandbox-output_example = run_in_sandbox-output small 100 chatty cut_result run_cut

abbrev printed : SandboxResult
printed = record {
  code = some 0;
  signal = none;
  stdout = 104 ∷ 105 ∷ 10 ∷ 123 ∷ 125 ∷ 10 ∷ [];
  stderr = [];
  duration_ms = 7;
  truncated = false;
}

printed_lines : split_lines [] (trim printed.stdout) ≡ codes "hi" ∷ codes "{}" ∷ []
unfolding split_lines trim
printed_lines = refl

braces : looks_like_json (trim (codes "{}")) ≡ true
unfolding looks_like_json trim
braces = refl

run_module-output_example :
    (run_module (λ (t : Text). some t) printed).output ≡ some (trim (codes "{}"))
run_module-output_example =
    run_module-output (λ (t : Text). some t) printed (codes "hi" ∷ []) [] (codes "{}") printed_lines
      braces tt

same_json : {x y : Json} → some x ≡ some y → x ≡ y
same_json e = cc

stringify_eq : (x y : Json) → model_platform.stringify x ≡ model_platform.stringify y → x ≡ y
stringify_eq x y e = same_json (
    sym (model_platform.parse-stringify x)
    ∙ ap model_platform.parse e
    ∙ model_platform.parse-stringify y)

fields_eq : {x y : Fields} → obj x ≡ obj y → x ≡ y
fields_eq e = cc

sum : Text → ℕ
sum [] = 0
sum (c ∷ s) = c + sum s

-- A printing that can be read back, and a hash that has collisions: the sum of the units.
abbrev crypto : Crypto
crypto = record {
  stable_stringify = model_platform.stringify;
  sha256_hex = λ s. sum s ∷ [];
  stringify = model_platform.stringify;
  verify_detached = λ d s p. true;
  stable-get = λ x y e k. ap (get_field k) (fields_eq (stringify_eq (obj x) (obj y) e));
}

abbrev manifest : Fields
manifest = field (codes "name") (str (codes "demo")) end
