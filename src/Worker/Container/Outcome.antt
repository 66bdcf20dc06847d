-- ===== src/Worker/Container/Outcome.antt =====
-- When a run counts as successful.
use psybot_ai.Base.{
  ℕ, ◌≡◌, ◌≢◌, sym, refl, ap, ◌∙◌, true, false, Option, none, some, [], ◌∷◌, arith, ℤ, pos, ◌≤ℤ◌,
  length, Bool-cases, inl, inr,
}
use psybot_ai.Base.Text.{Text}
use psybot_ai.Worker.Collect.{FirejailResult, limit_marker, out_data, close, spawn_and_collect}
use psybot_ai.Worker.Collect.Output.{
  written_out, is_timely, spawn_and_collect-stdout, spawn_and_collect-timely,
}
use psybot_ai.Worker.Container.{
  SandboxInput, SandboxOutput, Fs, write_files, Host, threw, done, is_ok, to_output,
  sandbox_command, finish, run_sandbox,
}

is_ok_sound : (r : FirejailResult) → is_ok r ≡ true → (r.code ≡ some 0) × (r.timed_out ≡ false)
is_ok_sound r h = ground arith

finish_done :
    (host : Host) (started finished : ℕ) (fs : Fs) (r : Option FirejailResult) (out : SandboxOutput)
    → (finish host started finished fs r).1 ≡ done out
    → (f : FirejailResult) × (r ≡ some f) × (out ≡ to_output started finished f)
unfolding finish
finish_done host started finished fs none out h = cc
finish_done host started finished fs (some f) out h = (f, refl, cc)

not_done : (out : SandboxOutput) → threw ≢ done out
not_done out h = cc

-- A run that counts as successful has written all its files; its child ended with exit code 0
-- and before its timer fired, and the reported standard output is all that the child wrote to it.
pub run_sandbox-ok :
    (host : Host) (input : SandboxInput) (started finished : ℕ) (fs : Fs) (out : SandboxOutput)
    → (run_sandbox host input started finished fs).1 ≡ done out
    → out.ok ≡ true
    → let (staged, written) = write_files host.blocked host.temp_dir input.files fs in
      let events = (host.child (sandbox_command host input) staged).1 in
      (written ≡ true)
      × (out.exit_code ≡ some 0)
      × (is_timely events ≡ true)
      × (out.stdout ≡ written_out events)
unfolding run_sandbox
run_sandbox-ok host input started finished fs out h good =
    elim (Bool-cases (write_files host.blocked host.temp_dir input.files fs).1) [
      | inl written ↦
          let (f, settled, same) = finish_done host started finished _ _ out (rw written at h) in
          let (zero_code, in_time) =
            is_ok_sound f (ap (λ (o : SandboxOutput). o.ok) (sym same) ∙ good) in
          (
            written,
            ap (λ (o : SandboxOutput). o.exit_code) same ∙ zero_code,
            spawn_and_collect-timely _ _ f settled in_time,
            ap (λ (o : SandboxOutput). o.stdout) same ∙ spawn_and_collect-stdout _ _ f settled,
          )
      | inr stopped ↦ absurd (not_done out (rw stopped at h))
    ]

-- A child that writes more than the limit in one piece, and ends with exit code 0 all the same,
-- counts as successful: the limit leaves only its mark as the error stream.
pub over_limit-is_ok :
    (most : ℤ) (d : Text)
    → ¬ (pos (length d) ≤ℤ most)
    → (r : FirejailResult) × (spawn_and_collect most (out_data d ∷ close (some 0) none ∷ [])
        ≡ some r)
      × (is_ok r ≡ true)
      × (r.stderr ≡ limit_marker)
unfolding spawn_and_collect
over_limit-is_ok most d h = (
  record { code = some 0; signal = none; stdout = d; stderr = limit_marker; timed_out = false },
  ground arith,
  refl,
  refl,
)
