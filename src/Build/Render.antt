-- ===== src/Build/Render.antt =====
-- internal/build/helm.go, `renderRelease`, `postRenderers` and `validateCRDsPolicy`, with
-- internal/helm/postrenderer/post_renderer.go: how Helm is asked to render a release.
use flux_build.Base.{
  ℕ, ◌≡◌, ◌↔◌, ◌⊎◌, Bool, true, false, ◌||◌, Option, none, some, List, [], ◌∷◌, ◌++◌, arith, ◌==◌,
  if◌then◌else◌, Option-cases, inl, inr,
}
use flux_build.Base.Results.{Result, ok, err, ◌>>=◌}
use flux_build.Base.Text.{Text, codes, text_eq, text_iff, is_empty}
use flux_build.Build.Objects.{
  HelmRelease, BuildError, load_failed, invalid_crds_policy, render_failed,
}

pub data PostRenderer (V P : Type 0) : Type 0 where
  kustomize_with : P → PostRenderer V P
  origin_labels : HelmRelease V P → PostRenderer V P
  release_namespace : HelmRelease V P → PostRenderer V P

-- Helm's install action, with the fields that are set; `api_versions` are those that are added to
-- Helm's own.
pub record InstallAction (V P : Type 0) : Type 0 where
  pub release_name : Text
  pub namespace : Text
  pub dry_run : Bool
  pub include_crds : Bool
  pub kube_version : Option Text
  pub client_only : Bool
  pub timeout : ℕ
  pub disable_hooks : Bool
  pub disable_open_api_validation : Bool
  pub skip_schema_validation : Bool
  pub devel : Bool
  pub enable_dns : Bool
  pub api_versions : List Text
  pub post_renderer : Option (List (PostRenderer V P))

pub record Rendered : Type 0 where
  pub manifest : Text
  pub hooks : List Text

-- `HelmOpts`, with the fields that are read here
pub record HelmOptions : Type 0 where
  pub api_versions : List Text
  pub kube_version : Option Text
  pub include_helm_hooks : Bool

-- `loader.Load`, and `RunWithContext` of the action
pub record RenderLibrary (V P : Type 0) : Type 1 where
  pub Chart : Type 0
  pub load : Text → Option Chart
  pub run : InstallAction V P → Chart → V → Option Rendered

-- `validateCRDsPolicy`
unfoldable pub validate_crds_policy : Text → Text → Result BuildError Text
validate_crds_policy policy default_value =
    if is_empty policy
    then ok default_value
    else if policy == codes "Skip" || (policy == codes "Create" || policy == codes "CreateReplace")
    then ok policy
    else err (invalid_crds_policy policy)

module _ {V P : Type 0} where
  -- The renderers of the release that have a kustomize patch
  kustomize_renderers : List (Option P) → List (PostRenderer V P)
  kustomize_renderers [] = []
  kustomize_renderers (none ∷ more) = kustomize_renderers more
  kustomize_renderers (some p ∷ more) = kustomize_with p ∷ kustomize_renderers more

  -- `postRenderers`
  unfoldable pub post_renderers : HelmRelease V P → Option (List (PostRenderer V P))
  unfolding kustomize_renderers
  post_renderers hr =
      let all =
        kustomize_renderers hr.post_renderers ++ (origin_labels hr ∷ release_namespace hr ∷ []) in
      if is_empty all then none else some all

  -- The action that `renderRelease` sets up
  unfoldable pub install_action : HelmOptions → HelmRelease V P → InstallAction V P
  install_action opts hr = record {
    release_name = hr.release_name;
    namespace = if is_empty hr.release_namespace then codes "default" else hr.release_namespace;
    dry_run = true;
    include_crds = if hr.install.skip_crds || hr.install.crds == codes "Skip" then false else true;
    kube_version = opts.kube_version;
    client_only = true;
    timeout = hr.install.timeout;
    disable_hooks = hr.install.disable_hooks;
    disable_open_api_validation = hr.install.disable_open_api_validation;
    skip_schema_validation = hr.install.disable_schema_validation;
    devel = true;
    enable_dns = true;
    api_versions = opts.api_versions;
    post_renderer = post_renderers hr;
  }

  -- `renderRelease`
  unfoldable pub render_release :
      (lib : RenderLibrary V P)
      → HelmOptions
      → HelmRelease V P
      → V
      → Text
      → Result BuildError Rendered
  render_release lib opts hr values path = elim (lib.load path) [
    | none ↦ err load_failed
    | some chart ↦ do
      let default_policy = if hr.install.skip_crds then codes "Skip" else codes "Create"
      _ ← validate_crds_policy hr.install.crds default_policy
      elim (lib.run (install_action opts hr) chart values) [
        | none ↦ err render_failed
        | some r ↦ ok r
      ]
  ]

-- `combinedPostRenderer.Run`: the renderers in order, on the manifests that the one before returned
unfoldable pub run_renderers {ℓ} :
    {R : Type ℓ} → (R → Text → Option Text) → List R → Text → Option Text
run_renderers run [] text = some text
run_renderers run (r ∷ rs) text = elim (run r text) [
  | none ↦ none
  | some t ↦ run_renderers run rs t
]

module _ {V P : Type 0} (lib : RenderLibrary V P) (opts : HelmOptions) where
  abbrev pub IsPolicy : Text → Type 0
  IsPolicy p =
      (p ≡ []) ⊎ ((p ≡ codes "Skip") ⊎ ((p ≡ codes "Create") ⊎ (p ≡ codes "CreateReplace")))

  -- A release is rendered to `r` exactly if its chart loads, its policy for CRDs is empty or one of
  -- the three that there are, and Helm renders the chart to `r`.
  pub render_release_iff :
      (hr : HelmRelease V P) (values : V) (path : Text) (r : Rendered)
      → (render_release lib opts hr values path ≡ ok r) ↔ (
          (c : lib.Chart) × (lib.load path ≡ some c)
          × IsPolicy hr.install.crds
          × (lib.run (install_action opts hr) c values ≡ some r))
  unfolding render_release validate_crds_policy
  render_release_iff hr values path r =
      let p = hr.install.crds in
      (
        λ e. elim (Option-cases (lib.load path)) [
          | inl missing ↦ absurd (ground arith)
          | inr (c, l) ↦ (
            c,
            l,
            ground (
              arith,
              text_iff p (codes "Skip"),
              text_iff p (codes "Create"),
              text_iff p (codes "CreateReplace"),
            ),
            ground arith,
          )
        ],
        λ (c, l, i, e). ground (
          arith,
          text_iff p (codes "Skip"),
          text_iff p (codes "Create"),
          text_iff p (codes "CreateReplace"),
        ),
      )
