-- ===== src/Scripts/Tests/Idls.antt =====
-- Concrete runs of scripts/solana/export-idls.ts.
use psybot_ai.Base.{
  true, false, ◌≡◌, refl, none, some, List, [], ◌∷◌, ◌++◌, if◌then◌else◌, All, map,
}
use psybot_ai.Base.Text.{Text, codes, is_space, text_eq, starts_with}
use psybot_ai.Scripts.Args.{ok, exit}
use psybot_ai.Scripts.GenDev.{Files, write}
use psybot_ai.Scripts.GenProd.{is_nil}
use psybot_ai.Scripts.ExportIdls.CommandLine.{Args, no_args, parse_args}
use psybot_ai.Scripts.ExportIdls.Index.{IdlMeta, index_ts}
use psybot_ai.Scripts.ExportIdls.Run.{
  Machine, cleaned, sources, write_index, out_dir_of, indexed, main,
}
use psybot_ai.Scripts.ExportIdls.Copies.{IsCopied, main-Exports}
use psybot_ai.Scripts.Tests.{small_paths, keep_order}

abbrev disk : Files
disk = λ p.
    if text_eq p (codes "i/idl/a-b.json")
    then some (codes "{}")
    else if text_eq p (codes "o/note")
    then some (codes "mine")
    else none

-- Every path is absolute; of the two names in the directory one is that of an IDL.
abbrev machine : Machine
machine = record {
  paths = record small_paths { is_absolute = λ p. true };
  cwd = codes "r";
  basename = λ p. if text_eq p (codes "i/idl/a-b.json") then codes "a-b.json" else p;
  names = λ fs d. some (codes "a-b.json" ∷ codes "x.md" ∷ []);
  is_under = λ d p. false;
  not_after = keep_order;
  valid_json = λ s. true;
  shasum = λ fs p. none;
  sha256sum = λ fs p. some (codes "12ab  o/a-b.json\n");
  date = codes "today";
  pretty = λ j. codes "{}";
  quote = λ s. codes "\"" ++ (s ++ codes "\"");
}

abbrev argv : List Text
argv = codes "--out" ∷ codes "o" ∷ codes "--target" ∷ codes "i" ∷ []

abbrev args : Args
args = record no_args { out_dir = codes "o"; target_dir = codes "i" }

args_parsed : parse_args argv ≡ ok args
unfolding parse_args text_eq
args_parsed = refl

abbrev metas : List IdlMeta
metas = record { name = codes "a-b"; idl_file = codes "a-b.json"; sha256 = codes "12ab" } ∷ []

index_text :
    index_ts (λ p. p) machine.quote metas
    ≡ codes
        "/* eslint-disable */\n// Auto-generated by scripts/solana/export-idls.ts\n\nimport a_b from \"./a-b.json\" assert { type: \"json\" };\n\nexport const idls = {\n  \"a-b\": a_b,\n} as const;\n\nexport type IdlName = keyof typeof idls;\n\n"
unfolding index_ts
index_text = refl

abbrev after : Files
after = indexed machine args (metas, write (codes "o/a-b.json") (codes "{}") disk)

exported : main machine argv disk ≡ ok (metas, after)
unfolding main parse_args text_eq is_space starts_with sources cleaned out_dir_of
exported = refl

-- A second run stops at the copy that is there.
exported_again : main machine argv after ≡ exit 1
unfolding main parse_args text_eq is_space starts_with sources cleaned out_dir_of write_index
exported_again = refl

note_there : cleaned machine args disk (codes "o/note") ≡ some (codes "mine")
unfolding cleaned text_eq
note_there = refl

main-Exports_example :
    let files = sources machine args (cleaned machine args disk) in
    (is_nil files ≡ false)
    × (map (λ (i : IdlMeta). i.idl_file) metas ≡ map machine.basename files)
    × ((copies : Files) × (after ≡ indexed machine args (metas, copies))
        × All (IsCopied machine (out_dir_of machine args) copies) files
        × (copies (codes "o/note") ≡ some (codes "mine")))
main-Exports_example =
    main-Exports machine argv args disk after metas (codes "o/note") (codes "mine") args_parsed refl
      exported note_there
