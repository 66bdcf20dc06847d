-- ===== src/Worker/Jobs.antt =====
-- apps-worker/src/processors: packing, verifying, running and publishing a module. A job is the
-- value that its schema lets through.
pub mod Pipeline
use psybot_ai.Base.{
  ℕ, Bool, true, false, not, ◌&&◌, ◌||◌, Option, none, some, List, [], ◌∷◌, ◌++◌, String,
  if◌then◌else◌, or_default, map,
}
use psybot_ai.Base.Text.{Text, codes}
use psybot_ai.Base.Json.{
  Json, null, str, arr, obj, Items, end, field, get, items_list, list_items, Platform,
}
use psybot_ai.Worker.Limits.{PartialLimits, clamp_limits}
use psybot_ai.Worker.Container.{
  SourceFile, SandboxInput, SandboxOutput, Fs, Host, Settled, waiting, threw, done, run_sandbox,
}
use psybot_ai.Worker.Artifacts.{
  ArtifactRef, Store, Attestation, put_bytes, get_bytes, create_attestation,
}
use psybot_ai.Worker.Payloads.{
  JobError, unsupported_source, invalid_bundle, missing_artifact, bad_json, not_an_object,
  sandbox_failed, Result, ok, err, pending, ◌>>=◌, or_throw, SourceKind, inline, PackModuleJob,
  PackModuleResult, VerifyModuleJob, VerifyModuleResult, RunModuleJob, RunModuleResult,
  PublishModuleJob, PublishModuleResult,
}

unfoldable pub file_json : SourceFile → Json
file_json f =
    obj (field (codes "relPath") (str f.rel_path) (field (codes "content") (str f.content) end))

-- The object literal that `packModuleProcessor` turns to text.
unfoldable pub bundle_json : Text → List SourceFile → Json
unfolding file_json list_items
bundle_json entry files = obj (
    field (codes "entryFile") (str entry)
      (field (codes "files") (arr (list_items (map file_json files))) end))

-- A source that can be packed: inline, with files, and with an entry that is not empty.
abbrev pub inline_source :
    SourceKind → Option (List SourceFile) → Option Text → Option (Text × List SourceFile)
inline_source inline (some files) (some (c ∷ entry)) = some (c ∷ entry, files)
inline_source _ _ _ = none

unfoldable pub is_string : Option Json → Bool
is_string (some (str s)) = true
is_string _ = false

unfoldable pub is_array : Option Json → Bool
is_array (some (arr xs)) = true
is_array _ = false

-- `!json || typeof json.entryFile !== "string" || !Array.isArray(json.files)`, negated; a value
-- without properties, such as null, fails both tests.
unfoldable pub is_bundle : Json → Bool
unfolding is_string is_array get
is_bundle json = is_string (get (codes "entryFile") json) && is_array (get (codes "files") json)

-- `Array.isArray(bundle.files) ? bundle.files : []`
abbrev pub file_values : Option Json → List Json
file_values (some (arr xs)) = items_list xs
file_values _ = []

module _ (platform : Platform) (path_join : Text → Text → Text) where
  -- `none` is the store unchanged.
  unfoldable pub pack_module_processor : PackModuleJob → Store → Result (PackModuleResult × Store)
  unfolding bundle_json put_bytes
  pack_module_processor job store = do
    (entry, files) ← or_throw (inline_source job.kind job.files job.entry_file) unsupported_source
    let bundle = platform.stringify (bundle_json entry files)
    let bytes = platform.encode bundle
    let put = put_bytes platform path_join job.output_prefix bytes (codes "application/json") store
    ok (
      record {
        module_id = job.module_id;
        artifact = put.0;
        manifest_sha256 = platform.sha256_hex bundle;
      },
      put.1,
    )

-- `JSON.parse(new TextDecoder().decode(await store.getBytes(key)))`
unfoldable pub load_json : Platform → Text → Store → Result Json
unfolding get_bytes
load_json platform key store = do
  bytes ← or_throw (get_bytes key store) missing_artifact
  or_throw (platform.parse (platform.decode bytes)) bad_json

-- The attested object of a verification.
abbrev verify_payload : Text → Text → Json
verify_payload module_id fingerprint =
    obj
      (field (codes "moduleId") (str module_id) (field (codes "fingerprint") (str fingerprint) end))

abbrev pub verified : Platform → Text → Text → Json → VerifyModuleResult
verified platform created_at module_id json =
    let fingerprint = platform.sha256_hex (platform.stringify json) in
    record {
      module_id = module_id;
      ok = true;
      attestation = create_attestation platform created_at (verify_payload module_id fingerprint);
      fingerprint = fingerprint;
    }

unfoldable pub verify_module_processor :
    Platform → Text → VerifyModuleJob → Store → Result VerifyModuleResult
unfolding load_json is_bundle create_attestation
verify_module_processor platform created_at job store = do
  json ← load_json platform job.packed_artifact_key store
  if is_bundle json
      then ok (verified platform created_at job.module_id json)
      else err invalid_bundle

unfoldable pub publish_module_processor : Platform → Text → PublishModuleJob → PublishModuleResult
unfolding create_attestation
publish_module_processor platform created_at job =
    let payload = obj (
      field (codes "moduleId") (str job.module_id) (
        field (codes "packedArtifactKey") (str job.packed_artifact_key) (
          field (codes "verifiedFingerprint") (str job.verified_fingerprint)
            (field (codes "destination") (str job.destination) end)))) in
    record {
      module_id = job.module_id;
      ok = true;
      attestation = create_attestation platform created_at payload;
      destination = job.destination;
    }

-- `String(v)`; the text of a value that is no string is a parameter.
abbrev pub to_text : (Option Json → Text) → Option Json → Text
to_text other (some (str s)) = s
to_text other v = other v

-- The map over `files`; a null among them throws.
unfoldable pub source_files : (Option Json → Text) → List Json → Result (List SourceFile)
unfolding get
source_files other [] = ok []
source_files other (null ∷ vs) = err not_an_object
source_files other (v ∷ vs) = do
  rest ← source_files other vs
  ok (
      record {
        rel_path = to_text other (get (codes "relPath") v);
        content = to_text other (get (codes "content") v);
      }
      ∷ rest)

-- `String(bundle.entryFile ?? "index.js")`
abbrev pub entry_text : (Option Json → Text) → Option Json → Text
entry_text other none = codes "index.js"
entry_text other (some null) = codes "index.js"
entry_text other v = to_text other v

abbrev newline : Text
newline = b'\n' ∷ []

-- The imports of the runner.
unfoldable pub runner_start : Text
runner_start =
    newline
    ++ (codes "import path from \"node:path\";" ++ newline)
    ++ (codes "import { fileURLToPath } from \"node:url\";" ++ newline ++ newline)
    ++ (codes "const __filename = fileURLToPath(import.meta.url);" ++ newline)
    ++ (codes "const __dirname = path.dirname(__filename);" ++ newline ++ newline)

-- `createRunnerBootstrap`
unfoldable pub create_runner_bootstrap : Platform → Text → Option Json → Text
unfolding runner_start
create_runner_bootstrap platform entry input =
    let safe_input = platform.stringify (or_default input null) in
    runner_start
    ++ (codes "process.env.NUTTOO_INPUT_JSON = "
        ++ platform.stringify (str safe_input)
        ++ codes ";"
        ++ newline)
    ++ (codes "const entry = path.join(__dirname, "
        ++ platform.stringify (str entry)
        ++ codes ");"
        ++ newline)
    ++ (codes "await import(entry);" ++ newline)

abbrev no_limits : PartialLimits
no_limits = record {
  cpu_time_ms = none;
  wall_time_ms = none;
  max_output_bytes = none;
  max_memory_mb = none;
  max_file_bytes = none;
  max_files = none;
  network = none;
}

-- The input of the sandbox, for a job and what its bundle holds.
unfoldable pub sandbox_input : Platform → RunModuleJob → Text → List SourceFile → SandboxInput
unfolding create_runner_bootstrap clamp_limits
sandbox_input platform job entry files = record {
  entry_file = codes "runner.mjs";
  files =
      files
      ++ record {
        rel_path = codes "runner.mjs";
        content = create_runner_bootstrap platform entry job.input;
      }
        ∷ [];
  args = some [];
  env = some ((codes "NUTTOO_RUN_ID", job.run_id) ∷ (codes "NUTTOO_MODULE_ID", job.module_id) ∷ []);
  limits = clamp_limits (or_default job.limits no_limits);
}

-- `bundle.files`, which throws on null.
abbrev pub not_null : Json → Result Json
not_null null = err not_an_object
not_null v = ok v

-- What is made of the parsed bundle.
unfoldable pub prepare_bundle :
    Platform → (Option Json → Text) → RunModuleJob → Json → Result SandboxInput
unfolding source_files get
prepare_bundle platform other job json = do
  bundle ← not_null json
  files ← source_files other (file_values (get (codes "files") bundle))
  ok (sandbox_input platform job (entry_text other (get (codes "entryFile") bundle)) files)

-- The processor up to the call of `runSandbox`.
unfoldable pub prepare_run :
    Platform → (Option Json → Text) → RunModuleJob → Store → Result SandboxInput
unfolding load_json
prepare_run platform other job store = do
  json ← load_json platform job.packed_artifact_key store
  prepare_bundle platform other job json

unfoldable pub report : RunModuleJob → Settled → Result RunModuleResult
report job waiting = pending
report job threw = err sandbox_failed
report job (done sbx) = ok (record {
  run_id = job.run_id;
  ok = sbx.ok;
  stdout = sbx.stdout;
  stderr = sbx.stderr;
  exit_code = sbx.exit_code;
  duration_ms = sbx.duration_ms;
})

abbrev run_prepared :
    Host → RunModuleJob → ℕ → ℕ → Fs → Result SandboxInput → Fs × Result RunModuleResult
run_prepared host job started finished fs (err e) = (fs, err e)
run_prepared host job started finished fs pending = (fs, pending)
run_prepared host job started finished fs (ok input) =
    let (fs', settled) = run_sandbox host input started finished fs in (fs', report job settled)

unfoldable pub run_module_processor :
    Platform
    → (Option Json → Text)
    → Host
    → RunModuleJob
    → ℕ
    → ℕ
    → Store
    → Fs
    → Fs × Result RunModuleResult
unfolding prepare_run prepare_bundle sandbox_input report
run_module_processor platform other host job started finished store fs =
    run_prepared host job started finished fs (prepare_run platform other job store)
