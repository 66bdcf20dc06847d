-- ===== src/Api/Tests.antt =====
-- The theorems about the API at concrete inputs.
use psybot_ai.Base.{
  ◌↔◌, map, pos, negsuc, ◌≡◌, refl, sym, ap, ◌∙◌, Option, none, some, List, [], ◌∷◌, All,
  if◌then◌else◌, subst, Bool-cases, inl, inr,
}
use mathlib.Core.List.{Mem, mem-cons_self, mem-cons_of_mem}
use psybot_ai.Base.Text.{Text, codes, text_eq, text_eq_iff}
use psybot_ai.Base.Json.{null}
use psybot_ai.Api.Errors.{ok, http_error}
use psybot_ai.Api.Auth.{AuthOptions, Actor, RequestAuth, shared_secret, jwt, authenticate}
use psybot_ai.Api.Forks.{Fork, CreateForkInput, ForkDb, create, post_forks}
use psybot_ai.Api.Forks.Lineage.{IsRooted, create-IsRooted}
use psybot_ai.Api.Auth.Access.{IsAllowed, authenticate_iff}
use psybot_ai.Api.Handlers.{post_runs, page_size}
use psybot_ai.Api.Storage.{local, Objects, write_object}
use psybot_ai.Api.Modules
use psybot_ai.Api.Modules.{CreateModuleInput, NewModule, Codec, new_module}
use psybot_ai.Api.Modules.Artifact.{HasArtifact, create-HasArtifact}
use psybot_ai.Api.Runs.{Run, RunStatus, CreateRunInput, RunDb}
use psybot_ai.Api.Runs
use psybot_ai.Api.Runs.Queued.{Leaves, create-Leaves}

-- A database that is the list of its forks, in which every module exists.
abbrev row_of : Text → List Fork → Option Fork
row_of id [] = none
row_of id (f ∷ fs) = if text_eq f.id id then some f else row_of id fs

abbrev fork_of : CreateForkInput → Fork
fork_of input = record {
  id = codes "new";
  module_id = input.module_id;
  notes = input.notes;
  parent_fork_id = input.parent_fork_id;
}

abbrev list_db : ForkDb (List Fork)
list_db = record {
  find_module = λ id w. some (some id);
  find_fork = λ id w. some (row_of id w);
  create_fork = λ input w. some (fork_of input, fork_of input ∷ w);
}

some_eq : {A : Type 0} {a b : A} → some a ≡ some b → a ≡ b
some_eq h = cc

row_of-Mem :
    (id : Text) (fs : List Fork) (f : Fork) → row_of id fs ≡ some f → Mem f fs × (f.id ≡ id)
row_of-Mem id [] f h = absurd cc
row_of-Mem id (g ∷ fs) f h = elim (Bool-cases (text_eq g.id id)) [
  | inl e ↦
      let same : g ≡ f = some_eq (sym (ap (λ b. if b then some g else row_of id fs) e) ∙ h) in
      (
        subst (λ x. Mem x (g ∷ fs)) same mem-cons_self,
        sym (ap (λ (x : Fork). x.id) same) ∙ (text_eq_iff g.id id).0 e,
      )
  | inr e ↦
      let (m, i) = row_of-Mem id fs f (sym (ap (λ b. if b then some g else row_of id fs) e) ∙ h) in
      (mem-cons_of_mem g m, i)
]

created_rows :
    (input : CreateForkInput) (w next : List Fork) (f : Fork)
    → list_db.create_fork input w ≡ some (f, next)
    → (next ≡ f ∷ w) × (f.module_id ≡ input.module_id) × (f.parent_fork_id ≡ input.parent_fork_id)
created_rows input w next f h =
    let e : (fork_of input, fork_of input ∷ w) ≡ (f, next) = some_eq h in
    let g : fork_of input ≡ f = ap (λ (x : Fork × List Fork). x.0) e in
    (
      sym (ap (λ (x : Fork × List Fork). x.1) e) ∙ ap (λ x. x ∷ w) g,
      sym (ap (λ (x : Fork). x.module_id) g),
      sym (ap (λ (x : Fork). x.parent_fork_id) g),
    )

abbrev first : Fork
first = record { id = codes "f0"; module_id = codes "m"; notes = none; parent_fork_id = none }

abbrev wanted : CreateForkInput
wanted = record { module_id = codes "m"; notes = none; parent_fork_id = some (codes "f0") }

creates : create list_db wanted (first ∷ []) ≡ ok (fork_of wanted, fork_of wanted ∷ first ∷ [])
unfolding create text_eq
creates = refl

create-IsRooted_example : All (IsRooted (fork_of wanted ∷ first ∷ [])) (fork_of wanted ∷ first ∷ [])
create-IsRooted_example =
    create-IsRooted list_db (λ w. w) (λ id w f h. row_of-Mem id w f (some_eq h))
      (λ input w next f h. created_rows input w next f h) wanted (first ∷ [])
      (fork_of wanted ∷ first ∷ []) (fork_of wanted) (tt, tt) creates

-- A parent of another module is refused.
other_module :
    create list_db (record wanted { module_id = codes "n" }) (first ∷ [])
    ≡ http_error 400
        (codes "VALIDATION_ERROR")
        (codes "parentForkId must belong to the same module")
unfolding create text_eq http_error
other_module = refl

abbrev guarded_by : Text → AuthOptions
guarded_by secret = record { mode = shared_secret; secret = some secret }

-- Without `req.auth` everyone may write.
posts :
    post_forks list_db (λ j. some wanted) none null (first ∷ [])
    ≡ ok (fork_of wanted, fork_of wanted ∷ first ∷ [])
unfolding post_forks create text_eq
posts = refl

authenticate_iff_example :
    ((a : Actor) × (authenticate (λ s. s) (guarded_by (codes "s3")) (some (codes "bearer  s3 "))
        ≡ ok a))
    ↔ IsAllowed (λ s. s) (guarded_by (codes "s3")) (some (codes "bearer  s3 "))
authenticate_iff_example =
    authenticate_iff (λ s. s) (guarded_by (codes "s3")) (some (codes "bearer  s3 "))

lets_through :
    authenticate (λ s. s) (guarded_by (codes "s3")) (some (codes "bearer  s3 "))
    ≡ ok (record { subject = codes "shared-secret"; mode = shared_secret })
unfolding authenticate
lets_through = refl

-- Every module exists and every run is made, but the queue is down.
abbrev run_db : RunDb (List Run)
run_db = record {
  find_module = λ id w. some (some id);
  find_fork = λ id w. some none;
  create_run = λ input status w.
      let run : Run = record {
        id = codes "r";
        module_id = input.module_id;
        fork_id = input.fork_id;
        status = status;
      } in
      some (run, run ∷ w);
  enqueue = some (λ id w. none);
}

abbrev run_input : CreateRunInput
run_input = record { module_id = codes "m"; fork_id = none; input = none }

create-Leaves_example : Leaves run_db run_input [] (Runs.create run_db run_input [])
create-Leaves_example = create-Leaves run_db run_input []

abbrev codec : Codec
codec = record { sha256_hex = λ s. s; stringify = λ j. codes "{}"; from_base64 = λ s. s }

abbrev module_input : CreateModuleInput
module_input = record {
  name = codes "n";
  version = codes "1";
  description = none;
  manifest = none;
  artifact_base64 = some (codes "ab");
}

abbrev no_objects : Objects
no_objects = λ k. none

abbrev ab_row : NewModule
ab_row =
    new_module codec module_input
      (some (record { key = codes "obj/ab"; sha256 = codes "ab"; size = 2 }))

abbrev one_object : Objects
one_object = write_object (codes "obj/ab") (codes "ab") no_objects

makes :
    Modules.create codec
      (λ row (w : List NewModule). some (codes "id", row ∷ w))
      local
      module_input
      no_objects
      []
    ≡ (ok (codes "id", ab_row), one_object, ab_row ∷ [])
unfolding Modules.create
makes = refl

create-HasArtifact_example : HasArtifact codec local (codes "ab") ab_row one_object
create-HasArtifact_example =
    create-HasArtifact codec (λ row (w : List NewModule). some (codes "id", row ∷ w)) local
      module_input b'a' (codes "b") no_objects [] (codes "id") ab_row one_object (ab_row ∷ []) refl
      makes

-- In the jwt mode nothing is written.
abbrev jwt_auth : RequestAuth
jwt_auth = record { mode = jwt; subject = none }

refused : (post_runs run_db (λ j. some run_input) (some jwt_auth) null []).1 ≡ []
unfolding post_runs
refused = refl

sizes :
    map page_size (none ∷ some (negsuc 4) ∷ some (pos 7) ∷ some (pos 900) ∷ [])
    ≡ pos 20 ∷ pos 1 ∷ pos 7 ∷ pos 200 ∷ []
unfolding page_size
sizes = refl
