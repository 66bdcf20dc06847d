-- ===== src/ModuleKit/Output.antt =====
-- What `runInSandbox` keeps of the child's output.
use psybot_ai.Base.{
  ℕ, suc, ◌*◌, ◌≤◌, ◌≡◌, sym, ap, ◌∙◌, false, inl, inr, List, [], ◌∷◌, ◌++◌, append_assoc,
  append-nil, arith, ltb, take, take-all, take-nil, take-take-append, length, length-take,
  Bool-cases,
}
use psybot_ai.Base.Text.{Text}
use psybot_ai.ModuleKit.Sandbox.{
  RuntimeLimits, PartialLimits, merge_limits, byte_length, Event, out_data, err_data, timer, error,
  close, SandboxResult, Outcome, resolved, Child, spawned, cap_append, on_stdout, on_stderr,
  run_events, run_in_sandbox,
}

length-le-byte_length : (s : Text) → length s ≤ byte_length s
unfolding byte_length
length-le-byte_length [] = omega arith
length-le-byte_length (u ∷ []) = ground arith
length-le-byte_length (u ∷ v ∷ s) =
    ground (arith, length-le-byte_length s, length-le-byte_length (v ∷ s))

byte_length-le : (s : Text) → byte_length s ≤ 3 * length s
unfolding byte_length
byte_length-le [] = omega arith
byte_length-le (u ∷ []) = ground arith
byte_length-le (u ∷ v ∷ s) = ground (arith, byte_length-le s, byte_length-le (v ∷ s))

-- One call of `capAppend` cuts the joined text to the limit, in code units.
cap_append_text :
    (limit : ℕ) (dst chunk : Text) → (cap_append limit dst chunk).0 ≡ take limit (dst ++ chunk)
unfolding cap_append
cap_append_text limit dst chunk = elim (Bool-cases (ltb limit (byte_length (dst ++ chunk)))) [
  | inl over ↦ rw over
  | inr fits ↦
      rw fits
        (sym (take-all limit (dst ++ chunk) (ground (arith, length-le-byte_length (dst ++ chunk)))))
]

-- All that the child wrote to one stream before it closed.
abbrev pub written_out : List Event → Text
written_out [] = []
written_out (out_data d ∷ es) = d ++ written_out es
written_out (error ∷ es) = []
written_out (close _ _ _ ∷ es) = []
written_out (_ ∷ es) = written_out es

abbrev pub written_err : List Event → Text
written_err [] = []
written_err (err_data d ∷ es) = d ++ written_err es
written_err (error ∷ es) = []
written_err (close _ _ _ ∷ es) = []
written_err (_ ∷ es) = written_err es

-- The streams of a settled promise.
abbrev stored_stdout : Outcome → Text
stored_stdout (resolved r) = r.stdout
stored_stdout _ = []

abbrev stored_stderr : Outcome → Text
stored_stderr (resolved r) = r.stderr
stored_stderr _ = []

on_stdout_text :
    (limit : ℕ) (c : Child) (whole d : Text)
    → c.stdout ≡ take limit whole
    → (on_stdout limit c d).stdout ≡ take limit (whole ++ d)
unfolding on_stdout
on_stdout_text limit c whole d k =
    cap_append_text limit c.stdout d
    ∙ ap (λ t. take limit (t ++ d)) k
    ∙ take-take-append limit whole d

stdout-eq :
    (limits : RuntimeLimits) (start : ℕ) (c : Child) (whole : Text) (es : List Event)
    (r : SandboxResult)
    → c.stdout ≡ take limits.max_output_bytes whole
    → run_events limits start c es ≡ resolved r
    → r.stdout ≡ take limits.max_output_bytes (whole ++ written_out es)
unfolding run_events
stdout-eq limits start c whole [] r k h = cc
stdout-eq limits start c whole (out_data d ∷ es) r k h =
    let limit = limits.max_output_bytes in
    stdout-eq limits start (on_stdout limit c d) (whole ++ d) es r
      (on_stdout_text limit c whole d k) h
    ∙ ap (take limit) (append_assoc whole d (written_out es))
stdout-eq limits start c whole (err_data d ∷ es) r k h =
    stdout-eq limits start (on_stderr limits.max_output_bytes c d) whole es r k h
stdout-eq limits start c whole (timer ∷ es) r k h =
    stdout-eq limits start (record c { killed = suc c.killed }) whole es r k h
stdout-eq limits start c whole (error ∷ es) r k h = cc
stdout-eq limits start c whole (close code signal now ∷ es) r k h =
    rw (append-nil whole) (ap (λ (o : Outcome). stored_stdout o) (sym h) ∙ k)

on_stderr_text :
    (limit : ℕ) (c : Child) (whole d : Text)
    → c.stderr ≡ take limit whole
    → (on_stderr limit c d).stderr ≡ take limit (whole ++ d)
unfolding on_stderr
on_stderr_text limit c whole d k =
    cap_append_text limit c.stderr d
    ∙ ap (λ t. take limit (t ++ d)) k
    ∙ take-take-append limit whole d

stderr-eq :
    (limits : RuntimeLimits) (start : ℕ) (c : Child) (whole : Text) (es : List Event)
    (r : SandboxResult)
    → c.stderr ≡ take limits.max_output_bytes whole
    → run_events limits start c es ≡ resolved r
    → r.stderr ≡ take limits.max_output_bytes (whole ++ written_err es)
unfolding run_events
stderr-eq limits start c whole [] r k h = cc
stderr-eq limits start c whole (err_data d ∷ es) r k h =
    let limit = limits.max_output_bytes in
    stderr-eq limits start (on_stderr limit c d) (whole ++ d) es r
      (on_stderr_text limit c whole d k) h
    ∙ ap (take limit) (append_assoc whole d (written_err es))
stderr-eq limits start c whole (out_data d ∷ es) r k h =
    stderr-eq limits start (on_stdout limits.max_output_bytes c d) whole es r k h
stderr-eq limits start c whole (timer ∷ es) r k h =
    stderr-eq limits start (record c { killed = suc c.killed }) whole es r k h
stderr-eq limits start c whole (error ∷ es) r k h = cc
stderr-eq limits start c whole (close code signal now ∷ es) r k h =
    rw (append-nil whole) (ap (λ (o : Outcome). stored_stderr o) (sym h) ∙ k)

-- Each stream of a finished run is what the child wrote to it before it closed, cut to the first
-- `maxOutputBytes` code units.
pub run_in_sandbox-output :
    (limits : PartialLimits) (start : ℕ) (es : List Event) (r : SandboxResult)
    → run_in_sandbox limits start es ≡ resolved r
    → (r.stdout ≡ take (merge_limits limits).max_output_bytes (written_out es))
      × (r.stderr ≡ take (merge_limits limits).max_output_bytes (written_err es))
unfolding run_in_sandbox
run_in_sandbox-output limits start es r h =
    let all = merge_limits limits in
    (
      stdout-eq all start spawned [] es r (sym (take-nil _)) h,
      stderr-eq all start spawned [] es r (sym (take-nil _)) h,
    )

-- A kept stream takes at most three bytes for each of the `maxOutputBytes` code units.
pub run_in_sandbox-bytes :
    (limits : PartialLimits) (start : ℕ) (es : List Event) (r : SandboxResult)
    → run_in_sandbox limits start es ≡ resolved r
    → byte_length r.stdout ≤ 3 * (merge_limits limits).max_output_bytes
run_in_sandbox-bytes limits start es r h =
    let e = (run_in_sandbox-output limits start es r h).0 in
    let n = (merge_limits limits).max_output_bytes in
    rw e (omega (arith, byte_length-le (take n (written_out es)), length-take n (written_out es)))

on_stdout_kept :
    (limit : ℕ) (c : Child) (d : Text)
    → (on_stdout limit c d).truncated ≡ false
    → (c.truncated ≡ false) × ((on_stdout limit c d).stdout ≡ c.stdout ++ d)
unfolding on_stdout
on_stdout_kept limit c d h = ground arith

on_stderr_kept :
    (limit : ℕ) (c : Child) (d : Text)
    → (on_stderr limit c d).truncated ≡ false
    → (c.truncated ≡ false) × ((on_stderr limit c d).stderr ≡ c.stderr ++ d)
unfolding on_stderr
on_stderr_kept limit c d h = ground arith

-- What holds of a run from `c` that ends in `r` with nothing cut.
abbrev IsWhole : Child → List Event → SandboxResult → Type 0
IsWhole c es r =
    (c.truncated ≡ false)
    × (r.stdout ≡ c.stdout ++ written_out es)
    × (r.stderr ≡ c.stderr ++ written_err es)

run_events-IsWhole :
    (limits : RuntimeLimits) (start : ℕ) (c : Child) (es : List Event) (r : SandboxResult)
    → run_events limits start c es ≡ resolved r
    → r.truncated ≡ false
    → IsWhole c es r
unfolding run_events
run_events-IsWhole limits start c [] r h t = cc
run_events-IsWhole limits start c (out_data d ∷ es) r h t =
    let limit = limits.max_output_bytes in
    let (kept, out, err) = run_events-IsWhole limits start (on_stdout limit c d) es r h t in
    let (before, text) = on_stdout_kept limit c d kept in
    (before, out ∙ ap (λ s. s ++ written_out es) text ∙ append_assoc c.stdout d _, err)
run_events-IsWhole limits start c (err_data d ∷ es) r h t =
    let limit = limits.max_output_bytes in
    let (kept, out, err) = run_events-IsWhole limits start (on_stderr limit c d) es r h t in
    let (before, text) = on_stderr_kept limit c d kept in
    (before, out, err ∙ ap (λ s. s ++ written_err es) text ∙ append_assoc c.stderr d _)
run_events-IsWhole limits start c (timer ∷ es) r h t =
    run_events-IsWhole limits start (record c { killed = suc c.killed }) es r h t
run_events-IsWhole limits start c (error ∷ es) r h t = cc
run_events-IsWhole limits start c (close code signal now ∷ es) r h t =
    rw (append-nil c.stdout, append-nil c.stderr) (ground arith)

-- Where a finished run is not marked as truncated, both streams are complete.
pub run_in_sandbox_complete :
    (limits : PartialLimits) (start : ℕ) (es : List Event) (r : SandboxResult)
    → run_in_sandbox limits start es ≡ resolved r
    → r.truncated ≡ false
    → (r.stdout ≡ written_out es) × (r.stderr ≡ written_err es)
unfolding run_in_sandbox
run_in_sandbox_complete limits start es r h t =
    let (_, out, err) = run_events-IsWhole (merge_limits limits) start spawned es r h t in
    (out, err)
