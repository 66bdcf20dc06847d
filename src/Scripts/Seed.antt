-- ===== src/Scripts/Seed.antt =====
-- scripts/db/seed.ts: the rows that a database starts with. A table is the list of its rows, a call
-- of the database succeeds, and random identifiers are parameters.
pub mod Again
use psybot_ai.Base.{
  ℕ, Bool, true, false, ◌&&◌, ◌||◌, Option, none, some, List, [], ◌∷◌, ◌++◌, if◌then◌else◌,
}
use psybot_ai.Base.Text.{Text, codes, text_eq}

pub record User : Type 0 where
  pub id : Text
  pub handle : Text
  pub display_name : Text
  pub role : Text

pub record Project : Type 0 where
  pub id : Text
  pub slug : Text
  pub name : Text
  pub description : Text
  pub owner_id : Text
  pub visibility : Text

pub record Module : Type 0 where
  pub id : Text
  pub project_id : Text
  pub key : Text
  pub name : Text
  pub description : Text
  pub created_by : Text
  pub version : Text
  pub status : Text

pub record Setting : Type 0 where
  pub key : Text
  pub value : Text

pub record Db : Type 0 where
  pub users : List User
  pub projects : List Project
  pub modules : List Module
  pub settings : List Setting

-- The random parts of the identifiers of one run.
pub record Ids : Type 0 where
  pub user : Text
  pub project : Text
  pub module_of : Text → Text

-- `envFlag`
unfoldable pub env_flag : Option Text → Bool
unfolding text_eq
env_flag none = false
env_flag (some v) = text_eq v (codes "1") || text_eq v (codes "true")

module _ {A : Type 0} where
  -- `findUnique`
  unfoldable pub find : (A → Bool) → List A → Option A
  find p [] = none
  find p (x ∷ xs) = if p x then some x else find p xs

  -- The row that was found, or the new one, and the table.
  unfoldable pub found_or : A → List A → Option A → A × List A
  found_or new xs none = (new, xs ++ new ∷ [])
  found_or new xs (some x) = (x, xs)

  unfoldable pub ensure : (A → Bool) → A → List A → A × List A
  unfolding find found_or
  ensure p new xs = found_or new xs (find p xs)

  -- A loop over what is to be there: how a row is known, and how it is made.
  unfoldable pub ensure_each : {S : Type 0} → (S → A → Bool) → (S → A) → List S → List A → List A
  unfolding ensure
  ensure_each has make [] xs = xs
  ensure_each has make (s ∷ ss) xs = ensure_each has make ss (ensure (has s) (make s) xs).1

abbrev pub system_handle : Text
system_handle = codes "nuttoo-system"

abbrev pub is_system : User → Bool
is_system u = text_eq u.handle system_handle

abbrev pub new_user : Ids → User
new_user ids = record {
  id = codes "sys_" ++ ids.user;
  handle = system_handle;
  display_name = codes "Nuttoo System";
  role = codes "SYSTEM";
}

-- `ensureSystemUser`
unfoldable pub ensure_system_user : Ids → List User → User × List User
ensure_system_user ids users = ensure is_system (new_user ids) users

abbrev pub core_slug : Text
core_slug = codes "nuttoo-core"

abbrev pub is_core : Project → Bool
is_core p = text_eq p.slug core_slug

abbrev pub new_project : Ids → Text → Project
new_project ids owner = record {
  id = codes "proj_" ++ ids.project;
  slug = core_slug;
  name = codes "Nuttoo Core";
  description = codes "Core on-chain code organism";
  owner_id = owner;
  visibility = codes "PUBLIC";
}

-- `ensureDefaultProject`
unfoldable pub ensure_default_project : Ids → Text → List Project → Project × List Project
ensure_default_project ids owner projects = ensure is_core (new_project ids owner) projects

pub record ModuleSpec : Type 0 where
  pub key : Text
  pub name : Text
  pub description : Text

abbrev pub base_modules : List ModuleSpec
base_modules =
    record {
      key = codes "runtime";
      name = codes "Runtime Core";
      description = codes "Minimal execution and lifecycle management";
    }
    ∷ record {
      key = codes "registry";
      name = codes "Module Registry";
      description = codes "Module discovery and dependency resolution";
    }
    ∷ record {
      key = codes "evolution";
      name = codes "Evolution Engine";
      description = codes "Learning, mutation, and fork tracking";
    }
    ∷ record {
      key = codes "interface";
      name = codes "Developer Interface";
      description = codes "APIs and adapters for builders";
    }
    ∷ []

abbrev pub is_module : Text → ModuleSpec → Module → Bool
is_module project_id s m = text_eq m.project_id project_id && text_eq m.key s.key

abbrev pub new_module : Ids → Text → Text → ModuleSpec → Module
new_module ids project_id user_id s = record {
  id = codes "mod_" ++ ids.module_of s.key;
  project_id = project_id;
  key = s.key;
  name = s.name;
  description = s.description;
  created_by = user_id;
  version = codes "0.1.0";
  status = codes "ACTIVE";
}

-- `ensureBaseModules`
unfoldable pub ensure_base_modules : Ids → Text → Text → List Module → List Module
ensure_base_modules ids project_id user_id modules =
    ensure_each (is_module project_id) (new_module ids project_id user_id) base_modules modules

abbrev pub base_settings : List Setting
base_settings =
    record { key = codes "nuttoo.name"; value = codes "Nuttoo" }
    ∷ record { key = codes "nuttoo.ticker"; value = codes "NUTTOO" }
    ∷ record { key = codes "nuttoo.mode"; value = codes "development" }
    ∷ record { key = codes "nuttoo.forking.enabled"; value = codes "true" }
    ∷ []

abbrev pub is_setting : Setting → Setting → Bool
is_setting s t = text_eq t.key s.key

-- `ensureSettings`
unfoldable pub ensure_settings : List Setting → List Setting
ensure_settings settings = ensure_each is_setting (λ s. s) base_settings settings

-- `destructiveReset`
unfoldable pub destructive_reset : Bool → Db → Db
destructive_reset force db =
    if force then record { users = []; projects = []; modules = []; settings = [] } else db

-- What `main` does after the reset.
unfoldable pub fill : Ids → Db → Db
fill ids db =
    let (user, users) = ensure_system_user ids db.users in
    let (project, projects) = ensure_default_project ids user.id db.projects in
    record {
      users = users;
      projects = projects;
      modules = ensure_base_modules ids project.id user.id db.modules;
      settings = ensure_settings db.settings;
    }

-- `main`
unfoldable pub seed : Bool → Ids → Db → Db
seed force ids db = fill ids (destructive_reset force db)
