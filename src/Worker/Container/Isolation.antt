-- ===== src/Worker/Container/Isolation.antt =====
-- What a run leaves in the file system.
use psybot_ai.Base.{
  ℕ, ◌≡◌, ◌≢◌, refl, ◌∙◌, Bool, true, false, Option, none, some, List, [], ◌∷◌, ◌++◌, All, arith,
  Bool-cases, inl, inr,
}
use psybot_ai.Base.Text.{Text, codes, text_eq_iff}
use psybot_ai.Worker.Collect.{FirejailResult}
use psybot_ai.Worker.Container.{
  AbsPath, SourceFile, SandboxInput, Fs, path_eq, is_under, split_slash, join, write_file,
  write_files, remove, Command, Host, waiting, sandbox_command, finish, run_sandbox,
}
use psybot_ai.Worker.Container.Paths.{IsNoParent, join-is_under, join-parent}

path_eq_sound : (p q : AbsPath) → path_eq p q ≡ true → p ≡ q
unfolding path_eq
path_eq_sound [] [] h = refl
path_eq_sound [] (y ∷ q) h = cc
path_eq_sound (x ∷ p) [] h = cc
path_eq_sound (x ∷ p) (y ∷ q) h = ground (arith, text_eq_iff x y, path_eq_sound p q)

path_eq_refl : (p : AbsPath) → path_eq p p ≡ true
unfolding path_eq
path_eq_refl [] = refl
path_eq_refl (x ∷ p) = rw ((text_eq_iff x x).1 refl) (path_eq_refl p)

write_file-ne :
    (p q : AbsPath) (content : Text) (fs : Fs) → p ≢ q → write_file p content fs q ≡ fs q
unfolding write_file
write_file-ne p q content fs h = ground (arith, path_eq_sound p q)

ne_of_is_under : (dir p q : AbsPath) → is_under dir p ≡ true → is_under dir q ≡ false → p ≢ q
ne_of_is_under dir p q h k e = cc

-- No file of the bundle leads out of the directory.
abbrev pub IsContained : List SourceFile → Type 0
IsContained files = All (λ f. All IsNoParent (split_slash [] f.rel_path)) files

write_files-outside :
    (blocked : AbsPath → Bool) (dir : AbsPath) (files : List SourceFile) (fs : Fs) (q : AbsPath)
    → IsContained files
    → is_under dir q ≡ false
    → (write_files blocked dir files fs).0 q ≡ fs q
unfolding write_files
write_files-outside blocked dir [] fs q h k = refl
write_files-outside blocked dir (f ∷ files) fs q (p, h) k =
    let rest =
      write_files-outside blocked dir files (write_file (join dir f.rel_path) f.content fs) q h k in
    let apart = ne_of_is_under dir (join dir f.rel_path) q (join-is_under dir f.rel_path p) k in
    elim (Bool-cases (blocked (join dir f.rel_path))) [
      | inl stopped ↦ rw stopped
      | inr free ↦ rw free (rest ∙ write_file-ne (join dir f.rel_path) q f.content fs apart)
    ]

remove-under : (dir q : AbsPath) (fs : Fs) → is_under dir q ≡ true → remove dir fs q ≡ none
unfolding remove
remove-under dir q fs h = rw h

remove-outside : (dir q : AbsPath) (fs : Fs) → is_under dir q ≡ false → remove dir fs q ≡ fs q
unfolding remove
remove-outside dir q fs h = rw h

finish-under :
    (host : Host) (started finished : ℕ) (fs : Fs) (r : Option FirejailResult) (q : AbsPath)
    → (finish host started finished fs r).1 ≢ waiting
    → is_under host.temp_dir q ≡ true
    → (finish host started finished fs r).0 q ≡ none
unfolding finish
finish-under host started finished fs none q h k = absurd (h refl)
finish-under host started finished fs (some r) q h k = remove-under host.temp_dir q fs k

-- Once a run has settled, by a result or by a throw, nothing is left in its directory.
pub run_sandbox-clean :
    (host : Host) (input : SandboxInput) (started finished : ℕ) (fs : Fs) (q : AbsPath)
    → (run_sandbox host input started finished fs).1 ≢ waiting
    → is_under host.temp_dir q ≡ true
    → (run_sandbox host input started finished fs).0 q ≡ none
unfolding run_sandbox
run_sandbox-clean host input started finished fs q h k =
    elim (Bool-cases (write_files host.blocked host.temp_dir input.files fs).1) [
      | inl written ↦ rw written (finish-under host started finished _ _ q (rw written at h) k)
      | inr stopped ↦ rw stopped (remove-under host.temp_dir q _ k)
    ]

finish-outside :
    (host : Host) (started finished : ℕ) (fs : Fs) (r : Option FirejailResult) (q : AbsPath)
    → is_under host.temp_dir q ≡ false
    → (finish host started finished fs r).0 q ≡ fs q
unfolding finish
finish-outside host started finished fs none q k = refl
finish-outside host started finished fs (some r) q k = remove-outside host.temp_dir q fs k

-- The child changes no file outside of its directory.
abbrev pub StaysInside : Host → Type 0
StaysInside host =
    (c : Command) (fs : Fs) (q : AbsPath)
    → is_under host.temp_dir q ≡ false
    → (host.child c fs).0 q ≡ fs q

-- A run of a bundle whose paths hold no ".." changes no file outside of the run's directory, if the
-- child changes none there.
pub run_sandbox-outside :
    (host : Host) (input : SandboxInput) (started finished : ℕ) (fs : Fs) (q : AbsPath)
    → StaysInside host
    → IsContained input.files
    → is_under host.temp_dir q ≡ false
    → (run_sandbox host input started finished fs).0 q ≡ fs q
unfolding run_sandbox
run_sandbox-outside host input started finished fs q inside h k =
    let same = write_files-outside host.blocked host.temp_dir input.files fs q h k in
    let staged = (write_files host.blocked host.temp_dir input.files fs).0 in
    elim (Bool-cases (write_files host.blocked host.temp_dir input.files fs).1) [
      | inl written ↦ rw written (
          finish-outside host started finished _ _ q k
          ∙ inside (sandbox_command host input) staged q k
          ∙ same)
      | inr stopped ↦ rw stopped (remove-outside host.temp_dir q staged k ∙ same)
    ]

-- Where no path is blocked, a file of a bundle whose path begins with "../" is written at the rest
-- of its path, taken from the parent of the run's directory.
pub write_files-parent :
    (base : AbsPath) (last rel content : Text) (fs : Fs)
    → (write_files
          (λ _. false)
          (base ++ last ∷ [])
          (record { rel_path = codes "../" ++ rel; content = content } ∷ [])
          fs).0
        (join base rel)
      ≡ some content
unfolding write_files write_file
write_files-parent base last rel content fs =
    rw (join-parent base last rel) (rw (path_eq_refl (join base rel)))
