-- ===== src/Worker/Payloads.antt =====
-- apps-worker/src/processors: the jobs, as their schemas let them through, and their results.
use psybot_ai.Base.{ℕ, Bool, Option, none, some, List}
use psybot_ai.Base.Text.{Text}
use psybot_ai.Base.Json.{Json}
use psybot_ai.Worker.Limits.{PartialLimits}
use psybot_ai.Worker.Container.{SourceFile}
use psybot_ai.Worker.Artifacts.{ArtifactRef, Attestation}

pub data JobError : Type 0 where
  unsupported_source invalid_bundle missing_artifact bad_json not_an_object sandbox_failed :
      JobError

pub data Result (A : Type 0) : Type 0 where
  ok : A → Result A
  err : JobError → Result A
  -- the promise stays open, as for a child that never closes
  pending : Result A

infixl 5 ◌>>=◌
abbrev pub ◌>>=◌ : {A B : Type 0} → Result A → (A → Result B) → Result B
ok a >>= f = f a
err e >>= f = err e
pending >>= f = pending

abbrev pub or_throw : {A : Type 0} → Option A → JobError → Result A
or_throw none e = err e
or_throw (some a) e = ok a

pub data SourceKind : Type 0 where
  git tarball inline : SourceKind

pub record PackModuleJob : Type 0 where
  pub module_id : Text
  pub kind : SourceKind
  pub uri : Option Text
  pub files : Option (List SourceFile)
  pub entry_file : Option Text
  pub output_prefix : Text

pub record PackModuleResult : Type 0 where
  pub module_id : Text
  pub artifact : ArtifactRef
  pub manifest_sha256 : Text

pub record VerifyModuleJob : Type 0 where
  pub module_id : Text
  pub packed_artifact_key : Text

pub record VerifyModuleResult : Type 0 where
  pub module_id : Text
  pub ok : Bool
  pub attestation : Attestation
  pub fingerprint : Text

pub record RunModuleJob : Type 0 where
  pub run_id : Text
  pub module_id : Text
  pub fork_id : Option Text
  pub packed_artifact_key : Text
  pub input : Option Json
  pub limits : Option PartialLimits

pub record RunModuleResult : Type 0 where
  pub run_id : Text
  pub ok : Bool
  pub stdout : Text
  pub stderr : Text
  pub exit_code : Option ℕ
  pub duration_ms : ℕ

pub record PublishModuleJob : Type 0 where
  pub module_id : Text
  pub packed_artifact_key : Text
  pub verified_fingerprint : Text
  pub destination : Text

pub record PublishModuleResult : Type 0 where
  pub module_id : Text
  pub ok : Bool
  pub attestation : Attestation
  pub destination : Text
