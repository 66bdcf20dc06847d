-- ===== src/Agent/Observer/Complete.antt =====
-- Every configured source is in the observation.
use psybot_ai.Base.{
  or_else, or_default, ◌≡◌, refl, sym, ap, ◌∙◌, Option, none, some, List, [], ◌∷◌, ◌++◌, map,
  append_assoc, append-nil, if◌then◌else◌, Option-cases, inl, inr, ℕ,
}
use mathlib.Core.List.{map-append}
use psybot_ai.Base.Text.{Text}
use psybot_ai.Base.Json.{Json}
use psybot_ai.Agent.Sources.{Network, Head, PackageMeta, RepoRef, caught, get_default_branch_head}
use psybot_ai.Agent.Observer.{
  RepoObs, PackageObs, Observation, ObserveConfig, Etags, parse_repo, observe_repos,
  observe_packages, observe, assemble, repo_obs, package_obs, head_etag,
}

none-some : {A : Type 0} {a : A} → none ≡ some a → ⊥
none-some e = cc

repo_obs-repo : (repo : Text) (h : Option Head) → (repo_obs repo h).repo ≡ repo
repo_obs-repo repo none = refl
repo_obs-repo repo (some h) = refl

package_obs-pkg : (pkg : Text) (m : Option PackageMeta) → (package_obs pkg m).pkg ≡ pkg
package_obs-pkg pkg none = refl
package_obs-pkg pkg (some m) = refl

-- A pass that adds one entry named `a` to `out`, and then those named `more`.
names_snoc {ℓ} :
    {A : Type ℓ} (name : A → Text) (out : List A) (x : A) (a : Text) (more : List Text)
    → name x ≡ a
    → map name (out ++ x ∷ []) ++ more ≡ map name out ++ a ∷ more
names_snoc name out x a more e =
    ap (λ l. l ++ more) (map-append name out (x ∷ []))
    ∙ append_assoc (map name out) (name x ∷ []) more
    ∙ ap (λ n. map name out ++ n ∷ more) e

module _ (other : Json → Text) (encode_component : Text → Text) (net : Network) where
  observe_packages-names :
      (pkgs : List Text) (out : List PackageObs) (etag : Option Text)
      → map
          (λ (p : PackageObs). p.pkg)
          (observe_packages other encode_component net pkgs out etag).0
        ≡ map (λ (p : PackageObs). p.pkg) out ++ pkgs
  unfolding observe_packages
  observe_packages-names [] out etag = sym (append-nil _)
  observe_packages-names (pkg ∷ pkgs) out etag =
      observe_packages-names pkgs _ _
      ∙ names_snoc (λ (p : PackageObs). p.pkg) out _ pkg pkgs (package_obs-pkg pkg _)

  observe_repos-none :
      (repo : Text) (repos : List Text) (out : List RepoObs) (etag : Option Text)
      → parse_repo repo ≡ none
      → observe_repos other encode_component net (repo ∷ repos) out etag ≡ none
  unfolding observe_repos
  observe_repos-none repo repos out etag h = rw h

  observe_repos-some :
      (repo : Text) (repos : List Text) (out : List RepoObs) (etag : Option Text) (ref : RepoRef)
      → parse_repo repo ≡ some ref
      → observe_repos other encode_component net (repo ∷ repos) out etag ≡ (
          let head = caught (get_default_branch_head other net ref) in
          observe_repos other encode_component net repos
            (out ++ repo_obs repo head ∷ [])
            (or_else (head_etag head) etag))
  unfolding observe_repos
  observe_repos-some repo repos out etag ref h = rw h

  observe_repos-names :
      (repos : List Text) (out : List RepoObs) (etag : Option Text) (r : List RepoObs × Option Text)
      → observe_repos other encode_component net repos out etag ≡ some r
      → map (λ (p : RepoObs). p.repo) r.0 ≡ map (λ (p : RepoObs). p.repo) out ++ repos
  unfolding observe_repos
  observe_repos-names [] out etag r e =
      ap (λ o. map (λ (p : RepoObs). p.repo) (or_default o r).0) (sym e) ∙ sym (append-nil _)
  observe_repos-names (repo ∷ repos) out etag r e = elim (Option-cases (parse_repo repo)) [
    | inl h ↦ absurd (none-some (sym (observe_repos-none repo repos out etag h) ∙ e))
    | inr (ref, h) ↦
        observe_repos-names repos _ _ r (sym (observe_repos-some repo repos out etag ref h) ∙ e)
        ∙ names_snoc (λ (p : RepoObs). p.repo) out _ repo repos (repo_obs-repo repo _)
  ]

  assemble-fields :
      (cfg : ObserveConfig) (at : ℕ) (npm : List PackageObs × Option Text)
      (github : Option (List RepoObs × Option Text)) (o : Observation) (etags : Etags)
      → assemble other encode_component net cfg at npm github ≡ some (o, etags)
      → (g : List RepoObs × Option Text) × (github ≡ some g) × (g.0 ≡ o.github) × (npm.0 ≡ o.npm)
  assemble-fields cfg at npm none o etags e = absurd (none-some e)
  assemble-fields cfg at npm (some g) o etags e = (
    g,
    refl,
    ap
        (λ (r : Option (Observation × Etags)).
          (or_default {A = Observation × Etags} r (o, etags)).0.github)
        e,
    ap
        (λ (r : Option (Observation × Etags)).
          (or_default {A = Observation × Etags} r (o, etags)).0.npm)
        e,
  )

  -- An observation that is made has one entry for every configured repository and one for every
  -- configured package, in their order, whatever the network answers, and none of a source that is
  -- switched off.
  pub observe-names :
      (cfg : ObserveConfig) (at : ℕ) (o : Observation) (etags : Etags)
      → observe other encode_component net cfg at ≡ some (o, etags)
      → (map (λ (p : RepoObs). p.repo) o.github ≡ (if cfg.github_enabled then cfg.repos else []))
        × (map (λ (p : PackageObs). p.pkg) o.npm ≡ (if cfg.npm_enabled then cfg.packages else []))
  unfolding observe
  observe-names cfg at o etags e =
      let (g, h, gh, nh) = assemble-fields cfg at _ _ o etags e in
      (
        ap (map (λ (p : RepoObs). p.repo)) (sym gh) ∙ observe_repos-names _ [] none g h,
        ap (map (λ (p : PackageObs). p.pkg)) (sym nh) ∙ observe_packages-names _ [] none,
      )
