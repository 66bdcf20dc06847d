-- ===== src/Worker/Jobs/Pipeline.antt =====
-- What is packed is what is verified and what is run.
use psybot_ai.Base.{
  or_default, ◌++◌, ◌≡◌, ◌≢◌, subst, refl, true, Option, some, List, Option-cases, inl, inr,
}
use psybot_ai.Base.Text.{Text, codes}
use psybot_ai.Base.Json.{Json, null, str, Platform}
use psybot_ai.Worker.Container.{SourceFile}
use psybot_ai.Worker.Artifacts.{Store, put_bytes}
use psybot_ai.Worker.Artifacts.Laws.{get_bytes-put_bytes_self}
use psybot_ai.Worker.Payloads.{
  VerifyModuleResult, JobError, unsupported_source, Result, ok, PackModuleJob, PackModuleResult,
}
use psybot_ai.Worker.Jobs.{
  inline_source, bundle_json, pack_module_processor, load_json, is_bundle, verified,
  verify_module_processor,
}

bundle_json-is_bundle :
    (entry : Text) (files : List SourceFile) → is_bundle (bundle_json entry files) ≡ true
unfolding is_bundle bundle_json
bundle_json-is_bundle entry files = refl

-- The end of the runner: it passes on the input, or null for none, as a text of JSON, takes the entry
-- from beside itself and imports it.
abbrev pub runner_end : Platform → Option Json → Text → Text
runner_end platform input entry =
    codes "process.env.NUTTOO_INPUT_JSON = "
    ++ (platform.stringify (str (platform.stringify (or_default input null)))
        ++ (codes ";\nconst entry = path.join(__dirname, "
            ++ (platform.stringify (str entry) ++ codes ");\nawait import(entry);\n")))

not_ok : {A : Type 0} (e : JobError) (a : A) → Result.err e ≢ ok a
not_ok e a h = cc

ok_injective : {A : Type 0} (a b : A) → Result.ok a ≡ ok b → a ≡ b
ok_injective a b h = cc

module _ (platform : Platform) (path_join : Text → Text → Text) where
  -- What `packModuleProcessor` returns for a bundle.
  abbrev pub packed : PackModuleJob → Text → List SourceFile → Store → PackModuleResult × Store
  packed job entry files store =
      let bundle = platform.stringify (bundle_json entry files) in
      let put =
        put_bytes platform path_join job.output_prefix (platform.encode bundle)
          (codes "application/json") store in
      (
        record {
          module_id = job.module_id;
          artifact = put.0;
          manifest_sha256 = platform.sha256_hex bundle;
        },
        put.1,
      )

  load_json-stored :
      (key_prefix content : Text) (j : Json) (store : Store)
      → let put =
          put_bytes platform path_join key_prefix
            (platform.encode (platform.stringify j))
            content
            store in
        load_json platform put.0.key put.1 ≡ ok j
  unfolding load_json
  load_json-stored key_prefix content j store =
      let bytes = platform.encode (platform.stringify j) in
      rw (get_bytes-put_bytes_self platform path_join key_prefix bytes content store)
        (rw (platform.decode-encode j) (rw (platform.parse-stringify j)))

  pack_inversion :
      (job : PackModuleJob) (store : Store) (r : PackModuleResult × Store)
      → pack_module_processor platform path_join job store ≡ ok r
      → (entry : Text) × (files : List SourceFile) × (inline_source job.kind job.files
            job.entry_file
          ≡ some (entry, files))
        × (packed job entry files store ≡ r)
  unfolding pack_module_processor
  pack_inversion job store r h =
      elim (Option-cases (inline_source job.kind job.files job.entry_file)) [
        | inl refused ↦ absurd (not_ok unsupported_source r (rw refused at h))
        | inr ((entry, files), e) ↦ (entry, files, e, ok_injective _ r (rw e at h))
      ]

  -- A packed module verifies: the worker reads back the bundle that it stored, and the fingerprint
  -- of the verification is the manifest hash of the packing.
  pub pack-verify :
      (job : PackModuleJob) (store : Store) (r : PackModuleResult × Store)
      (module_id created_at : Text)
      → pack_module_processor platform path_join job store ≡ ok r
      → (v : VerifyModuleResult) × (verify_module_processor platform created_at
            (record { module_id = module_id; packed_artifact_key = r.0.artifact.key })
            r.1
          ≡ ok v)
        × (v.ok ≡ true)
        × (v.fingerprint ≡ r.0.manifest_sha256)
  unfolding verify_module_processor
  pack-verify job store r module_id created_at h =
      let (entry, files, _, e) = pack_inversion job store r h in
      let json = bundle_json entry files in
      subst
        (λ (r : PackModuleResult × Store).
          (v : VerifyModuleResult) × (verify_module_processor platform created_at
              (record { module_id = module_id; packed_artifact_key = r.0.artifact.key }) r.1
            ≡ ok v)
          × (v.ok ≡ true)
          × (v.fingerprint ≡ r.0.manifest_sha256))
        e
        (
          verified platform created_at module_id json,
          rw (load_json-stored job.output_prefix (codes "application/json") json store)
              (rw (bundle_json-is_bundle entry files)),
          refl,
          refl,
        )
