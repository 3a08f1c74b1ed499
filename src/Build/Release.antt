-- ===== src/Build/Release.antt =====
-- internal/build/helm.go, `Build`: a HelmRelease of the index becomes the resources of its chart.
pub mod Parts
pub mod Resolved
use flux_build.Base.{
  ℕ, zero, suc, ◌+◌, ◌/◌, ◌%◌, Bool, true, false, Option, none, some, List, [], ◌∷◌, ◌++◌, ◌==◌,
  nat_eq, if◌then◌else◌,
}
use flux_build.Base.Dict.{lookup}
use flux_build.Base.Exec.{Exec, pure, fail, lift, ◌>>=◌, ◌>>◌}
use flux_build.Base.Results.{Result, ok, err}
use flux_build.Base.Text.{Text, codes, text_eq, is_empty}
use flux_build.Build.FromRepository.{ChartStore, Builder, HelmState, build_from_helm_repository}
use flux_build.Build.Index.{ResourceIndex}
use flux_build.Build.Objects.{
  Ref, ref_eq, Gvk, ChartTemplate, HelmRelease, HelmRepository, Object, helm_release,
  helm_repository, KubeLibrary, BuildError, marshal_failed, env_failed, decode_failed, wrong_type,
  chart_ref_unsupported, no_chart, no_source, unsupported_repository, file_failed, kustomize_failed,
}
use flux_build.Build.Render.{HelmOptions, RenderLibrary, Rendered, render_release}
use flux_build.Build.Repositories.{Downloader, HelmLibrary}
use flux_build.Build.Values.{compose_values}
use flux_build.Chart.Reference.{Build}
use flux_build.MemCache.{Cache}

abbrev pub release_gvk : Gvk
release_gvk = record {
  group = codes "helm.toolkit.fluxcd.io";
  version = codes "v2";
  kind = codes "HelmRelease";
}

abbrev pub repository_gvk : Gvk
repository_gvk = record {
  group = codes "source.toolkit.fluxcd.io";
  version = codes "v1beta2";
  kind = codes "HelmRepository";
}

-- `%d`: a number has fewer digits than its value and one.
decimal_from : ℕ → ℕ → Text → Text
decimal_from zero n acc = acc
decimal_from (suc f) n acc =
    let more = decimal_from f (n / 10) ((b'0' + n % 10) ∷ acc) in
    if n / 10 == 0 then (b'0' + n % 10) ∷ acc else more

unfoldable pub decimal : ℕ → Text
unfolding decimal_from
decimal n = decimal_from (suc n) n []

-- The files of the directory that kustomize is run on: `hook_<i>.yaml` for the hooks
unfoldable pub hook_files : ℕ → List Text → List (Text × Text)
unfolding decimal
hook_files i [] = []
hook_files i (h ∷ more) = (codes "hook_" ++ decimal i ++ codes ".yaml", h) ∷ hook_files (suc i) more

unfoldable pub manifest_files : Bool → Rendered → List (Text × Text)
unfolding hook_files
manifest_files include_hooks r =
    (codes "manifest.yaml", r.manifest) ∷ (if include_hooks then hook_files 0 r.hooks else [])

-- `envsubst.EvalEnv`, the temporary directory, the writes into it, and `Kustomize` of kustomize.go,
-- which is given the files
pub record OutputLibrary : Type 1 where
  pub ResMap : Type 0
  pub eval_env : Text → Option Text
  pub can_make_dir : Bool
  pub can_write : Text → Bool
  pub kustomize : List (Text × Text) → Option ResMap

module _ (lib : HelmLibrary) (store : ChartStore) (builder : Builder)
    (others : Cache Text (Option Downloader) → Cache Text (Option Downloader)) (out : OutputLibrary)
    (renders : RenderLibrary lib.kube.Values lib.kube.Patch) (opts : HelmOptions) where
  open lib.kube use {Resource, Values, Patch, set_gvk, as_yaml, decode}

  as_release : Object Values Patch → Result BuildError (HelmRelease Values Patch)
  as_release (helm_release hr) = ok hr
  as_release _ = err wrong_type

  -- The first part of `Build`: the release, from a copy of the resource
  unfoldable pub release_of : Resource → Result BuildError (HelmRelease Values Patch)
  unfolding as_release
  release_of r = elim (as_yaml (set_gvk r release_gvk)) [
    | none ↦ err marshal_failed
    | some raw ↦ elim (out.eval_env raw) [
      | none ↦ err env_failed
      | some substituted ↦ elim (decode substituted) [
        | none ↦ err decode_failed
        | some o ↦ as_release o
      ]
    ]
  ]

  unfoldable pub chart_of : HelmRelease Values Patch → Result BuildError ChartTemplate
  chart_of hr = elim hr.chart [
    | some c ↦ ok c
    | none ↦
        if hr.has_chart_ref
        then err (chart_ref_unsupported hr.namespace hr.name)
        else err (no_chart hr.namespace hr.name)
  ]

  -- The key of the source: its namespace is the release's, unless it has one of its own.
  unfoldable pub source_ref : HelmRelease Values Patch → ChartTemplate → Ref
  source_ref hr c = record {
    group = codes "source.toolkit.fluxcd.io";
    kind = c.source_kind;
    name = c.source_name;
    namespace = if is_empty c.source_namespace then hr.namespace else c.source_namespace;
  }

  unfoldable pub source_of : ResourceIndex lib.kube → Ref → Result BuildError Resource
  source_of db r = elim (lookup r db) [ none ↦ err (no_source r) | some res ↦ ok res ]

  -- `getRepository`, on a copy of the resource
  unfoldable pub get_repository : Resource → Result BuildError (Object Values Patch)
  get_repository r = elim (as_yaml (set_gvk r repository_gvk)) [
    | none ↦ err marshal_failed
    | some raw ↦ elim (decode raw) [ none ↦ err decode_failed | some o ↦ ok o ]
  ]

  -- The state of the builder, and the index, whose resources `composeValues` changes
  pub record RunState : Type 0 where
    pub helm : HelmState lib store builder
    pub index : ResourceIndex lib.kube

  on_helm :
      {A : Type 0} → Exec (HelmState lib store builder) BuildError A → Exec RunState BuildError A
  on_helm m s = let (r, h) = m s.helm in (r, record s { helm = h })

  on_index : {A : Type 0} → Exec (ResourceIndex lib.kube) BuildError A → Exec RunState BuildError A
  on_index m s = let (r, db) = m s.index in (r, record s { index = db })

  -- `buildChart`
  unfoldable pub build_chart : Object Values Patch → ChartTemplate → Exec RunState BuildError Build
  unfolding on_helm
  build_chart (helm_repository repo) c s =
      on_helm (build_from_helm_repository lib store builder others c repo s.index) s
  build_chart _ c s = (err unsupported_repository, s)

  -- The writes, up to the first that fails
  write_files : List (Text × Text) → Result BuildError (Unit {0})
  write_files [] = ok tt
  write_files ((name, content) ∷ more) =
      if out.can_write name then write_files more else err file_failed

  -- The last part of `Build`
  unfoldable pub kustomize_release : Rendered → Result BuildError out.ResMap
  unfolding write_files
  kustomize_release r =
      if out.can_make_dir
      then (elim (write_files (manifest_files opts.include_helm_hooks r)) [
        | err e ↦ err e
        | ok _ ↦ elim (out.kustomize (manifest_files opts.include_helm_hooks r)) [
          | none ↦ err kustomize_failed
          | some m ↦ ok m
        ]
      ])
      else err file_failed

  -- What `Build` finds before it touches anything: the release, its chart and its repository.
  unfoldable pub resolve :
      Resource
      → ResourceIndex lib.kube
      → Result BuildError (HelmRelease Values Patch × (ChartTemplate × Object Values Patch))
  resolve r db = elim (release_of r) [
    | err e ↦ err e
    | ok hr ↦ elim (chart_of hr) [
      | err e ↦ err e
      | ok c ↦ elim (source_of db (source_ref hr c)) [
        | err e ↦ err e
        | ok source ↦ elim (get_repository source) [ err e ↦ err e | ok o ↦ ok (hr, (c, o)) ]
      ]
    ]
  ]

  render_part : HelmRelease Values Patch → Build → Exec RunState BuildError out.ResMap
  unfolding on_index
  render_part hr b = do
    values ← on_index (compose_values lib.kube hr)
    rendered ← lift (render_release renders opts hr values b.path)
    lift (kustomize_release rendered)

  -- `Build`
  unfoldable pub build : Resource → Exec RunState BuildError out.ResMap
  unfolding render_part
  build r s =
      (lift (resolve r s.index) >>= λ (hr, (c, o)). build_chart o c >>= λ b. render_part hr b) s
