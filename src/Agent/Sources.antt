-- ===== src/Agent/Sources.antt =====
-- apps-agent/src/sources: what the agent reads of GitHub, npm and the API. The network during one
-- tick is a function from a URL to the response; `none` is a request that throws. Headers that are
-- sent are not modelled.
use psybot_ai.Base.{
  ℕ, Bool, ◌&&◌, Option, none, some, [], ◌∷◌, ◌++◌, leb, ◌==◌, if◌then◌else◌, or_else,
}
use psybot_ai.Base.Text.{Text, codes}
use psybot_ai.Base.Json.{Json, null, str, get}

pub record Response : Type 0 where
  pub status : ℕ
  pub etag : Option Text
  -- the parsed body; `none` is a body that is no JSON
  pub body : Option Json

abbrev pub Network : Type 0
Network = Text → Option Response

-- `res.ok`
abbrev pub is_ok : Response → Bool
is_ok r = leb 200 r.status && leb r.status 299

-- A fetch that a `catch` guards: a throw and `null` are one.
pub data Fetched (A : Type 0) : Type 0 where
  threw absent : Fetched A
  found : A → Fetched A

abbrev pub caught : {A : Type 0} → Fetched A → Option A
caught threw = none
caught absent = none
caught (found a) = some a

pub record RepoRef : Type 0 where
  pub owner : Text
  pub repo : Text

pub record Head : Type 0 where
  pub sha : Text
  pub etag : Option Text

pub record PackageMeta : Type 0 where
  pub version : Option Text
  pub etag : Option Text

-- `json.k`, which throws on null.
abbrev pub field_of : Text → Json → Fetched (Option Json)
field_of k null = threw
field_of k v = found (get k v)

-- `String(v ?? d)` with the text of a value that is no string as a parameter.
abbrev pub text_or : (Json → Text) → Option Json → Text → Text
text_or other none d = d
text_or other (some null) d = d
text_or other (some (str s)) d = s
text_or other (some v) d = other v

infixl 5 ◌>>=◌
abbrev ◌>>=◌ : {A B : Type 0} → Fetched A → (A → Fetched B) → Fetched B
threw >>= f = threw
absent >>= f = absent
found a >>= f = f a

abbrev or_throw : {A : Type 0} → Option A → Fetched A
or_throw none = threw
or_throw (some a) = found a

module _ (other : Json → Text) (net : Network) where
  abbrev repo_url : RepoRef → Text
  repo_url ref = codes "https://api.github.com/repos/" ++ ref.owner ++ codes "/" ++ ref.repo

  -- The commit that the second request answers with, if any.
  unfoldable pub head_of_commit : Option Text → Response → Fetched Head
  unfolding get
  head_of_commit etag res = do
    json ← (if is_ok res then or_throw res.body else absent)
    value ← field_of (codes "sha") json
    let sha = text_or other value []
    elim sha [ [] ↦ absent | c ∷ s ↦ found (record { sha = c ∷ s; etag = or_else res.etag etag }) ]

  -- `getDefaultBranchHead`
  unfoldable pub get_default_branch_head : RepoRef → Fetched Head
  unfolding head_of_commit get
  get_default_branch_head ref = do
    res ← or_throw (net (repo_url ref))
    json ← (if res.status == 404 then absent else if is_ok res then or_throw res.body else absent)
    value ← field_of (codes "default_branch") json
    let branch = text_or other value (codes "main")
    commit ← or_throw (net (repo_url ref ++ codes "/commits/" ++ branch))
    head_of_commit res.etag commit

  abbrev latest_version : Option Json → Option Text
  latest_version (some (str v)) = some v
  latest_version _ = none

  -- `json["dist-tags"] ?? {}` and its `latest`.
  abbrev dist_version : Option Json → Option Text
  dist_version none = none
  dist_version (some tags) = latest_version (get (codes "latest") tags)

  -- `getPackageMeta`; the name's percent-encoding is a parameter.
  unfoldable pub get_package_meta : (Text → Text) → Text → Fetched PackageMeta
  unfolding get
  get_package_meta encode_component name = do
    res ← or_throw (net (codes "https://registry.npmjs.org/" ++ encode_component name))
    json ← (if res.status == 404 then absent else if is_ok res then or_throw res.body else absent)
    tags ← field_of (codes "dist-tags") json
    found (record { version = dist_version tags; etag = res.etag })

  abbrev without_slash : Text → Text
  without_slash [] = []
  without_slash (c ∷ []) = if c == b'/' then [] else c ∷ []
  without_slash (c ∷ d ∷ s) = c ∷ without_slash (d ∷ s)

  -- `OnchainSource.health`: whether the API answers well.
  unfoldable pub health : Option Text → Fetched Bool
  health none = absent
  health (some []) = absent
  health (some (c ∷ base)) = do
    res ← or_throw (net (without_slash (c ∷ base) ++ codes "/healthz"))
    found (is_ok res)
