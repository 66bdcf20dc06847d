-- ===== src/ModuleKit/Runner.antt =====
-- packages/module-kit/src/runtime/runner.ts: the result of a run, read off the child's output.
-- `JSON.parse` is a parameter; `none` is a text that it refuses.
pub mod LastLine
use psybot_ai.Base.{
  ℕ, Bool, true, false, ◌||◌, Option, none, some, List, [], ◌∷◌, if◌then◌else◌, ◌==◌, or_default,
  reverse, ◌++◌,
}
use psybot_ai.Base.Text.{Text, trim, starts_with}
use psybot_ai.ModuleKit.Sandbox.{SandboxResult}

-- `s.split("\n")`, with the text since the last newline.
unfoldable pub split_lines : Text → Text → List Text
split_lines cur [] = cur ∷ []
split_lines cur (c ∷ s) = elim (c == b'\n') [
  | true ↦ cur ∷ split_lines [] s
  | false ↦ split_lines (cur ++ c ∷ []) s
]

unfoldable pub looks_like_json : Text → Bool
unfolding starts_with
looks_like_json line = starts_with line (b'{' ∷ []) || starts_with line (b'[' ∷ [])

module _ {J : Type 0} (parse : Text → Option J) where
  -- The loop over the lines, from the last one up.
  unfoldable pub last_json : List Text → Option J
  unfolding looks_like_json trim
  last_json [] = none
  last_json (line ∷ lines) =
      let rest = last_json lines in if looks_like_json (trim line) then parse (trim line) else rest

  -- `tryParseJsonFromStdout`; `none` is a throw, which `runModule` catches.
  unfoldable pub try_parse_json_from_stdout : Text → Option J
  unfolding last_json split_lines trim
  try_parse_json_from_stdout stdout = last_json (reverse (split_lines [] (trim stdout)))

  pub record RunModuleResult : Type 0 where
    pub ok : Bool
    pub output : Option J
    pub stdout : Text
    pub stderr : Text
    pub duration_ms : ℕ
    pub truncated : Bool

  -- `runModule` from the result of the sandbox on.
  unfoldable pub run_module : SandboxResult → RunModuleResult
  unfolding try_parse_json_from_stdout
  run_module result = record {
    ok = or_default result.code 1 == 0;
    output = try_parse_json_from_stdout result.stdout;
    stdout = result.stdout;
    stderr = result.stderr;
    duration_ms = result.duration_ms;
    truncated = result.truncated;
  }
