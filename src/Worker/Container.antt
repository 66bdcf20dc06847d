-- ===== src/Worker/Container.antt =====
-- apps-worker/src/sandbox/container.ts and `runWithFirejail` of firejail.ts: one run in a directory
-- of its own. The file system is a function from paths to contents, and a path is absolute and
-- normal: the list of its names from the root.
pub mod Paths
pub mod Isolation
pub mod Outcome
use psybot_ai.Base.{
  ℕ, suc, ◌+◌, ◌-◌, ◌*◌, Bool, true, false, not, ◌&&◌, ◌||◌, Option, none, some, List, [], ◌∷◌,
  ◌++◌, String, ℤ, pos, if◌then◌else◌, ◌==◌, or_default, map, reverse,
}
use psybot_ai.Base.Text.{Text, codes, text_eq}
use psybot_ai.Worker.Limits.{SandboxLimits}
use psybot_ai.Worker.Collect.{Event, FirejailResult, spawn_and_collect}

abbrev pub AbsPath : Type 0
AbsPath = List Text

pub record SourceFile : Type 0 where
  pub rel_path : Text
  pub content : Text

pub record SandboxInput : Type 0 where
  pub entry_file : Text
  pub files : List SourceFile
  pub args : Option (List Text)
  pub env : Option (List (Text × Text))
  pub limits : SandboxLimits

pub record SandboxOutput : Type 0 where
  pub ok : Bool
  pub exit_code : Option ℕ
  pub signal : Option String
  pub stdout : Text
  pub stderr : Text
  pub duration_ms : ℕ

abbrev pub Fs : Type 0
Fs = AbsPath → Option Text

unfoldable pub path_eq : AbsPath → AbsPath → Bool
unfolding text_eq
path_eq [] [] = true
path_eq [] (_ ∷ _) = false
path_eq (_ ∷ _) [] = false
path_eq (x ∷ p) (y ∷ q) = text_eq x y && path_eq p q

-- Whether the second path is the first one or lies below it.
unfoldable pub is_under : AbsPath → AbsPath → Bool
unfolding text_eq
is_under [] q = true
is_under (_ ∷ _) [] = false
is_under (x ∷ p) (y ∷ q) = text_eq x y && is_under p q

-- The names between the slashes of a path.
unfoldable pub split_slash : Text → Text → List Text
split_slash cur [] = cur ∷ []
split_slash cur (c ∷ s) = elim (c == b'/') [
  | true ↦ cur ∷ split_slash [] s
  | false ↦ split_slash (cur ++ c ∷ []) s
]

abbrev pop : AbsPath → AbsPath
pop [] = []
pop (_ ∷ stack) = stack

-- One name, on the directories passed so far, the last at the head.
unfoldable pub resolve : AbsPath → Text → AbsPath
unfolding text_eq
resolve stack name =
    if text_eq name [] || text_eq name (codes ".")
    then stack
    else if text_eq name (codes "..")
    then pop stack
    else name ∷ stack

unfoldable pub resolve_all : AbsPath → List Text → AbsPath
unfolding resolve
resolve_all stack [] = stack
resolve_all stack (name ∷ names) = resolve_all (resolve stack name) names

-- `path.join(dir, rel)` for an absolute `dir`.
unfoldable pub join : AbsPath → Text → AbsPath
unfolding resolve_all split_slash
join dir rel = reverse (resolve_all (reverse dir) (split_slash [] rel))

unfoldable pub write_file : AbsPath → Text → Fs → Fs
unfolding path_eq
write_file p content fs = λ q. if path_eq p q then some content else fs q

-- `rm(dir, { recursive: true, force: true })`
unfoldable pub remove : AbsPath → Fs → Fs
unfolding is_under
remove dir fs = λ q. if is_under dir q then none else fs q

-- The loop over `input.files`; `blocked` are the paths that cannot be written, and false is a throw.
unfoldable pub write_files : (AbsPath → Bool) → AbsPath → List SourceFile → Fs → Fs × Bool
unfolding join write_file
write_files blocked dir [] fs = (fs, true)
write_files blocked dir (f ∷ files) fs =
    let p = join dir f.rel_path in
    let rest = write_files blocked dir files (write_file p f.content fs) in
    if blocked p then (fs, false) else rest

pub record Command : Type 0 where
  pub cmd : Text
  pub args : List Text
  pub cwd : AbsPath
  pub env : List (Text × Text)

-- The operating system: whether it is Linux, the directory of `mkdtemp`, the paths that cannot be
-- written, the child of a command (what it does to the files, and its events), and `String(n)`.
pub record Host : Type 0 where
  pub linux : Bool
  pub temp_dir : AbsPath
  pub blocked : AbsPath → Bool
  pub child : Command → Fs → Fs × List Event
  pub show_number : ℤ → Text

pub data Settled : Type 0 where
  -- the child never closes
  waiting : Settled
  -- a file could not be written
  threw : Settled
  done : SandboxOutput → Settled

-- A limit times 1024 * 1024, as `--rlimit-as` takes it.
abbrev megabytes : ℤ → ℤ
megabytes (pos n) = pos (n * 1048576)
megabytes (ℤ.negsuc n) = ℤ.negsuc ((n + 1) * 1048576 - 1)

-- `spawnPlain` takes the first argument for the command.
unfoldable pub plain_command : AbsPath → List (Text × Text) → List Text → Command
plain_command dir env [] = record { cmd = []; args = []; cwd = dir; env = env }
plain_command dir env (cmd ∷ args) = record { cmd = cmd; args = args; cwd = dir; env = env }

-- `!!result && !result.timedOut && result.code === 0`
abbrev pub is_ok : FirejailResult → Bool
is_ok r = not r.timed_out && elim r.code [ none ↦ false | some c ↦ c == 0 ]

abbrev pub to_output : ℕ → ℕ → FirejailResult → SandboxOutput
to_output started finished r = record {
  ok = is_ok r;
  exit_code = r.code;
  signal = r.signal;
  stdout = r.stdout;
  stderr = r.stderr;
  duration_ms = finished - started;
}

module _ (host : Host) where
  unfoldable pub firejail_args : SandboxLimits → List Text → List Text
  firejail_args limits args =
      codes "--quiet"
      ∷ codes "--private"
      ∷ codes "--noroot"
      ∷ codes "--nonewprivs"
      ∷ codes "--caps.drop=all"
      ∷ codes "--seccomp"
      ∷ codes "--net=none"
      ∷ codes "--dns=0.0.0.0"
      ∷ (codes "--rlimit-as=" ++ host.show_number (megabytes limits.max_memory_mb))
      ∷ (codes "--rlimit-fsize=" ++ host.show_number limits.max_file_bytes)
      ∷ codes "--"
      ∷ args

  unfoldable pub firejail_command :
      SandboxLimits → AbsPath → List (Text × Text) → List Text → Command
  unfolding firejail_args
  firejail_command limits dir env args = record {
    cmd = codes "firejail";
    args = firejail_args limits args;
    cwd = dir;
    env = env;
  }

  -- The command of a run, by `canUseFirejail()`.
  unfoldable pub sandbox_command : SandboxInput → Command
  unfolding plain_command firejail_command
  sandbox_command input =
      let exec_args = codes "node" ∷ input.entry_file ∷ or_default input.args [] in
      let env = or_default input.env [] in
      if host.linux
      then firejail_command input.limits host.temp_dir env exec_args
      else plain_command host.temp_dir env exec_args

  -- The end of a run: the output, and the directory removed by `finally`.
  unfoldable pub finish : ℕ → ℕ → Fs → Option FirejailResult → Fs × Settled
  unfolding remove
  finish started finished fs none = (fs, waiting)
  finish started finished fs (some r) =
      (remove host.temp_dir fs, done (to_output started finished r))

  -- `runSandbox`, with the readings of the clock at its start and its end.
  unfoldable pub run_sandbox : SandboxInput → ℕ → ℕ → Fs → Fs × Settled
  run_sandbox input started finished fs =
      let (staged, written) = write_files host.blocked host.temp_dir input.files fs in
      let (after, events) = host.child (sandbox_command input) staged in
      if written
      then finish started finished after (spawn_and_collect input.limits.max_output_bytes events)
      else (remove host.temp_dir staged, threw)
