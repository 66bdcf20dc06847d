-- ===== src/Worker/Collect/Output.antt =====
-- What is collected of a child's output, and when the child is killed.
use psybot_ai.Base.{
  ℕ, ◌+◌, ◌≡◌, Bool, true, ◌≢◌, subst, sym, Option-cases, inl, inr, refl, ap, ◌∙◌, false, Option,
  none, some, List, [], ◌∷◌, ◌++◌, append_assoc, append-nil, arith, String, ℤ, pos, ◌≤ℤ◌, length,
}
use psybot_ai.Base.Text.{Text}
use psybot_ai.Worker.Collect.{
  Event, out_data, err_data, timer, close, Child, spawned, FirejailResult, collect_out, collect_err,
  on_timeout, run_child, collected, spawn_and_collect,
}

-- All that the child wrote to one stream before it closed.
abbrev pub written_out : List Event → Text
written_out [] = []
written_out (out_data d ∷ es) = d ++ written_out es
written_out (close _ _ ∷ es) = []
written_out (_ ∷ es) = written_out es

abbrev pub written_err : List Event → Text
written_err [] = []
written_err (err_data d ∷ es) = d ++ written_err es
written_err (close _ _ ∷ es) = []
written_err (_ ∷ es) = written_err es

-- No timer fires before the child closes.
abbrev pub is_timely : List Event → Bool
is_timely [] = true
is_timely (timer ∷ es) = false
is_timely (close _ _ ∷ es) = true
is_timely (_ ∷ es) = is_timely es

abbrev Ending : Type 0
Ending = Child × Option ℕ × Option String

collect_out_stdout :
    (most : ℤ) (c : Child) (s : Text) → (collect_out most c s).stdout ≡ c.stdout ++ s
unfolding collect_out
collect_out_stdout most c s = ground arith

collect_err_stdout : (most : ℤ) (c : Child) (s : Text) → (collect_err most c s).stdout ≡ c.stdout
unfolding collect_err
collect_err_stdout most c s = ground arith

run_child-stdout :
    (most : ℤ) (c : Child) (es : List Event) (r : Ending)
    → run_child most c es ≡ some r
    → r.0.stdout ≡ c.stdout ++ written_out es
unfolding run_child
run_child-stdout most c [] r h = cc
run_child-stdout most c (out_data s ∷ es) r h =
    run_child-stdout most (collect_out most c s) es r h
    ∙ ap (λ t. t ++ written_out es) (collect_out_stdout most c s)
    ∙ append_assoc c.stdout s (written_out es)
run_child-stdout most c (err_data s ∷ es) r h =
    run_child-stdout most (collect_err most c s) es r h
    ∙ ap (λ t. t ++ written_out es) (collect_err_stdout most c s)
run_child-stdout most c (timer ∷ es) r h = run_child-stdout most (on_timeout c) es r h
run_child-stdout most c (close code signal ∷ es) r h = rw (append-nil c.stdout) (ground arith)

-- A child that was never told to stop has kept within the limit and the time.
pub record IsWithin (most : ℤ) (c : Child) : Type 0 where
  pub small : c.killed ≡ 0 → pos (length c.stdout + length c.stderr) ≤ℤ most
  pub in_time : c.killed ≡ 0 → c.timed_out ≡ false

collect_out-IsWithin :
    (most : ℤ) (c : Child) (s : Text) → IsWithin most c → IsWithin most (collect_out most c s)
unfolding collect_out
collect_out-IsWithin most c s v = ground arith

collect_err-IsWithin :
    (most : ℤ) (c : Child) (s : Text) → IsWithin most c → IsWithin most (collect_err most c s)
unfolding collect_err
collect_err-IsWithin most c s v = ground arith

on_timeout-IsWithin : (most : ℤ) (c : Child) → IsWithin most c → IsWithin most (on_timeout c)
unfolding on_timeout
on_timeout-IsWithin most c v = ground arith

run_child-IsWithin :
    (most : ℤ) (c : Child) (es : List Event) (r : Ending)
    → IsWithin most c
    → run_child most c es ≡ some r
    → IsWithin most r.0
unfolding run_child
run_child-IsWithin most c [] r v h = cc
run_child-IsWithin most c (out_data s ∷ es) r v h =
    run_child-IsWithin most (collect_out most c s) es r (collect_out-IsWithin most c s v) h
run_child-IsWithin most c (err_data s ∷ es) r v h =
    run_child-IsWithin most (collect_err most c s) es r (collect_err-IsWithin most c s v) h
run_child-IsWithin most c (timer ∷ es) r v h =
    run_child-IsWithin most (on_timeout c) es r (on_timeout-IsWithin most c v) h
run_child-IsWithin most c (close code signal ∷ es) r v h = subst (IsWithin most) (ground arith) v

-- From a child that is never killed nothing is added to the error stream.
collect_out_quiet :
    (most : ℤ) (c : Child) (s : Text)
    → (collect_out most c s).killed ≡ 0
    → (c.killed ≡ 0) × ((collect_out most c s).stderr ≡ c.stderr)
unfolding collect_out
collect_out_quiet most c s h = ground arith

collect_err_quiet :
    (most : ℤ) (c : Child) (s : Text)
    → (collect_err most c s).killed ≡ 0
    → (c.killed ≡ 0) × ((collect_err most c s).stderr ≡ c.stderr ++ s)
unfolding collect_err
collect_err_quiet most c s h = ground arith

on_timeout_kills : (c : Child) → (on_timeout c).killed ≢ 0
unfolding on_timeout
on_timeout_kills c h = omega arith

run_child_quiet :
    (most : ℤ) (c : Child) (es : List Event) (r : Ending)
    → run_child most c es ≡ some r
    → r.0.killed ≡ 0
    → (c.killed ≡ 0) × (r.0.stderr ≡ c.stderr ++ written_err es)
unfolding run_child
run_child_quiet most c [] r h k = cc
run_child_quiet most c (out_data s ∷ es) r h k =
    let (still, err) = run_child_quiet most (collect_out most c s) es r h k in
    let (before, same) = collect_out_quiet most c s still in
    (before, err ∙ ap (λ t. t ++ written_err es) same)
run_child_quiet most c (err_data s ∷ es) r h k =
    let (still, err) = run_child_quiet most (collect_err most c s) es r h k in
    let (before, more) = collect_err_quiet most c s still in
    (before, err ∙ ap (λ t. t ++ written_err es) more ∙ append_assoc c.stderr s _)
run_child_quiet most c (timer ∷ es) r h k =
    let (still, err) = run_child_quiet most (on_timeout c) es r h k in
    absurd (on_timeout_kills c still)
run_child_quiet most c (close code signal ∷ es) r h k = rw (append-nil c.stderr) (ground arith)

-- A child that closes without having been told to stop wrote no more than the limit, in code
-- units of both streams together, did not time out, and its two streams are reported as written.
pub run_child_unkilled :
    (most : ℤ) (es : List Event) (r : Ending)
    → pos 0 ≤ℤ most
    → run_child most spawned es ≡ some r
    → r.0.killed ≡ 0
    → (pos (length (written_out es) + length (written_err es)) ≤ℤ most)
      × (r.0.timed_out ≡ false)
      × (r.0.stdout ≡ written_out es)
      × (r.0.stderr ≡ written_err es)
run_child_unkilled most es r p h k =
    let v = run_child-IsWithin most spawned es r start h in
    let out = run_child-stdout most spawned es r h in
    let err = (run_child_quiet most spawned es r h k).1 in
    (rw (← out, ← err) (v.small k), v.in_time k, out, err)
  where
    start : IsWithin most spawned
    start = record { small = λ _. p; in_time = λ _. refl }

not_settled : (r : FirejailResult) → collected none ≢ some r
unfolding collected
not_settled r h = cc

result_stdout :
    (e : Ending) (r : FirejailResult) → collected (some e) ≡ some r → r.stdout ≡ e.0.stdout
unfolding collected
result_stdout e r h = ground arith

result_timed_out :
    (e : Ending) (r : FirejailResult) → collected (some e) ≡ some r → r.timed_out ≡ e.0.timed_out
unfolding collected
result_timed_out e r h = ground arith

on_timeout_late : (c : Child) → (on_timeout c).timed_out ≢ false
unfolding on_timeout
on_timeout_late c h = cc

-- The standard output of a finished run is all that the child wrote to it before it closed,
-- whatever the limit.
pub spawn_and_collect-stdout :
    (most : ℤ) (es : List Event) (r : FirejailResult)
    → spawn_and_collect most es ≡ some r
    → r.stdout ≡ written_out es
unfolding spawn_and_collect
spawn_and_collect-stdout most es r h = elim (Option-cases (run_child most spawned es)) [
  | inl open_still ↦ absurd (not_settled r (rw open_still at h))
  | inr (e, closed) ↦ result_stdout e r (rw closed at h) ∙ run_child-stdout most spawned es e closed
]

collect_out_timed_out :
    (most : ℤ) (c : Child) (s : Text) → (collect_out most c s).timed_out ≡ c.timed_out
unfolding collect_out
collect_out_timed_out most c s = ground arith

collect_err_timed_out :
    (most : ℤ) (c : Child) (s : Text) → (collect_err most c s).timed_out ≡ c.timed_out
unfolding collect_err
collect_err_timed_out most c s = ground arith

run_child-timely :
    (most : ℤ) (c : Child) (es : List Event) (r : Ending)
    → run_child most c es ≡ some r
    → r.0.timed_out ≡ false
    → (c.timed_out ≡ false) × (is_timely es ≡ true)
unfolding run_child
run_child-timely most c [] r h k = cc
run_child-timely most c (out_data s ∷ es) r h k =
    let (before, timely) = run_child-timely most (collect_out most c s) es r h k in
    (sym (collect_out_timed_out most c s) ∙ before, timely)
run_child-timely most c (err_data s ∷ es) r h k =
    let (before, timely) = run_child-timely most (collect_err most c s) es r h k in
    (sym (collect_err_timed_out most c s) ∙ before, timely)
run_child-timely most c (timer ∷ es) r h k =
    absurd (on_timeout_late c (run_child-timely most (on_timeout c) es r h k).0)
run_child-timely most c (close code signal ∷ es) r h k = (ground arith, refl)

-- A run that is not reported as timed out has closed before its timer fired.
pub spawn_and_collect-timely :
    (most : ℤ) (es : List Event) (r : FirejailResult)
    → spawn_and_collect most es ≡ some r
    → r.timed_out ≡ false
    → is_timely es ≡ true
unfolding spawn_and_collect
spawn_and_collect-timely most es r h k = elim (Option-cases (run_child most spawned es)) [
  | inl open_still ↦ absurd (not_settled r (rw open_still at h))
  | inr (e, closed) ↦
      (run_child-timely most spawned es e closed
        (sym (result_timed_out e r (rw closed at h)) ∙ k)).1
]
