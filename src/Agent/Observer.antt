-- ===== src/Agent/Observer.antt =====
-- apps-agent/src/cognition/observer.ts: one observation of the configured sources.
pub mod RepoRefs
pub mod Complete
use psybot_ai.Base.{
  ℕ, Bool, true, false, Option, none, some, List, [], ◌∷◌, ◌++◌, ◌==◌, if◌then◌else◌, or_else, drop,
}
use psybot_ai.Base.Text.{Text, codes, starts_with}
use psybot_ai.Base.Json.{Json}
use psybot_ai.Agent.Sources.{
  Network, RepoRef, Head, PackageMeta, caught, get_default_branch_head, get_package_meta, health,
}

pub record RepoObs : Type 0 where
  pub repo : Text
  pub head_sha : Option Text
  pub note : Option Text

pub record PackageObs : Type 0 where
  pub pkg : Text
  pub version : Option Text
  pub note : Option Text

pub record OnchainObs : Type 0 where
  pub kind : Text
  pub note : Text

pub record Observation : Type 0 where
  pub at : ℕ
  pub github : List RepoObs
  pub npm : List PackageObs
  pub onchain : List OnchainObs

pub record ObserveConfig : Type 0 where
  pub github_enabled : Bool
  pub repos : List Text
  pub npm_enabled : Bool
  pub packages : List Text
  pub onchain_enabled : Bool
  pub api_base_url : Option Text

pub record Etags : Type 0 where
  pub github : Option Text
  pub npm : Option Text

-- `s.replace(/^p/, "")`
abbrev without_prefix : Text → ℕ → Text → Text
without_prefix p n s = if starts_with s p then drop n s else s

-- `s.split("/").filter(Boolean)`, with the name since the last slash.
unfoldable pub names_of : Text → Text → List Text
names_of [] [] = []
names_of (d ∷ cur) [] = (d ∷ cur) ∷ []
names_of cur (c ∷ s) = elim (c == b'/') [
  | true ↦ elim cur [ [] ↦ names_of [] s | d ∷ rest ↦ (d ∷ rest) ∷ names_of [] s ]
  | false ↦ names_of (cur ++ c ∷ []) s
]

abbrev pub first_two : List Text → Option RepoRef
first_two (owner ∷ repo ∷ _) = some (record { owner = owner; repo = repo })
first_two _ = none

-- `parseRepo`; `none` is the throw of an invalid reference.
unfoldable pub parse_repo : Text → Option RepoRef
unfolding names_of starts_with
parse_repo s =
    first_two (
      names_of [] (without_prefix (codes "github.com/") 11 (without_prefix (codes "https://") 8 s)))

abbrev pub repo_obs : Text → Option Head → RepoObs
repo_obs repo none = record { repo = repo; head_sha = none; note = some (codes "unavailable") }
repo_obs repo (some h) = record { repo = repo; head_sha = some h.sha; note = none }

abbrev pub head_etag : Option Head → Option Text
head_etag none = none
head_etag (some h) = h.etag

abbrev pub package_obs : Text → Option PackageMeta → PackageObs
package_obs pkg none = record { pkg = pkg; version = none; note = some (codes "unavailable") }
package_obs pkg (some m) = record { pkg = pkg; version = m.version; note = none }

abbrev meta_etag : Option PackageMeta → Option Text
meta_etag none = none
meta_etag (some m) = m.etag

abbrev api_note : Option Bool → Text
api_note (some true) = codes "ok"
api_note _ = codes "unknown"

module _ (other : Json → Text) (encode_component : Text → Text) (net : Network) where
  -- The loop over the repositories: the observations so far and the last etag.
  unfoldable pub observe_repos :
      List Text → List RepoObs → Option Text → Option (List RepoObs × Option Text)
  unfolding parse_repo
  observe_repos [] out etag = some (out, etag)
  observe_repos (repo ∷ repos) out etag = elim (parse_repo repo) [
    | none ↦ none
    | some ref ↦
        let head = caught (get_default_branch_head other net ref) in
        observe_repos repos (out ++ repo_obs repo head ∷ []) (or_else (head_etag head) etag)
  ]

  unfoldable pub observe_packages :
      List Text → List PackageObs → Option Text → List PackageObs × Option Text
  observe_packages [] out etag = (out, etag)
  observe_packages (pkg ∷ pkgs) out etag =
      let info = caught (get_package_meta other net encode_component pkg) in
      observe_packages pkgs (out ++ package_obs pkg info ∷ []) (or_else (meta_etag info) etag)

  abbrev observe_onchain : Bool → Option Text → List OnchainObs
  observe_onchain false url = []
  observe_onchain true url =
      record { kind = codes "api"; note = api_note (caught (health other net url)) } ∷ []

  -- The observation of what the sources gave; `none` is the throw of an invalid repository.
  abbrev pub assemble :
      ObserveConfig
      → ℕ
      → List PackageObs × Option Text
      → Option (List RepoObs × Option Text)
      → Option (Observation × Etags)
  assemble cfg at npm none = none
  assemble cfg at npm (some github) = some (
    record {
      at = at;
      github = github.0;
      npm = npm.0;
      onchain = observe_onchain cfg.onchain_enabled cfg.api_base_url;
    },
    record { github = github.1; npm = npm.1 },
  )

  -- `observe`, at the time `at`.
  unfoldable pub observe : ObserveConfig → ℕ → Option (Observation × Etags)
  unfolding observe_repos observe_packages
  observe cfg at =
      assemble cfg at (observe_packages (if cfg.npm_enabled then cfg.packages else []) [] none)
        (observe_repos (if cfg.github_enabled then cfg.repos else []) [] none)
