-- ===== src/ModuleKit/Runner/LastLine.antt =====
-- Which line of the output is read as the result.
use psybot_ai.Base.{
  ◌≡◌, refl, true, false, Option, List, [], ◌∷◌, ◌++◌, reverse, All, All-reverse, append_assoc,
}
use mathlib.Core.List.{reverse-append, reverse-cons}
use psybot_ai.Base.Text.{Text, trim}
use psybot_ai.ModuleKit.Sandbox.{SandboxResult}
use psybot_ai.ModuleKit.Runner.{
  split_lines, looks_like_json, last_json, try_parse_json_from_stdout, run_module,
}

module _ {J : Type 0} (parse : Text → Option J) where
  -- Lines that do not look like JSON are passed over.
  last_json-append :
      (after before : List Text)
      → All (λ l. looks_like_json (trim l) ≡ false) after
      → last_json parse (after ++ before) ≡ last_json parse before
  unfolding last_json
  last_json-append [] before h = refl
  last_json-append (l ∷ after) before (p, h) = rw p (last_json-append after before h)

  last_json-reverse :
      (before after : List Text) (line : Text)
      → looks_like_json (trim line) ≡ true
      → All (λ l. looks_like_json (trim l) ≡ false) after
      → last_json parse (reverse (before ++ line ∷ after)) ≡ parse (trim line)
  unfolding last_json
  last_json-reverse before after line h k =
      rw (reverse-append before (line ∷ after), reverse-cons line after)
        (rw (append_assoc (reverse after) (line ∷ []) (reverse before)) (
          rw (last_json-append (reverse after) (line ∷ reverse before) (All-reverse _ after k), h)))

-- The output of a run is read off the last line that begins with a brace or a bracket, whatever
-- stands in the lines before it; lines after it are passed over.
pub run_module-output :
    {J : Type 0} (parse : Text → Option J) (r : SandboxResult) (before after : List Text)
    (line : Text)
    → split_lines [] (trim r.stdout) ≡ before ++ line ∷ after
    → looks_like_json (trim line) ≡ true
    → All (λ l. looks_like_json (trim l) ≡ false) after
    → (run_module parse r).output ≡ parse (trim line)
unfolding run_module try_parse_json_from_stdout
run_module-output parse r before after line e h k =
    rw e (last_json-reverse parse before after line h k)
