-- ===== src/Build/Release/Parts.antt =====
-- What a HelmRelease that builds comes from (internal/build/helm.go, `Build`).
use flux_build.Base.{◌≡◌, refl, sym, ap, ◌∙◌, Option, some, List, arith, if◌then◌else◌}
use flux_build.Base.Exec.{lift, >>=-eq-ok}
use flux_build.Base.Results.{Result, ok, ◌>>=◌ as ◌then◌}
use flux_build.Base.Text.{Text}
use flux_build.Build.FromRepository.{ChartStore, Builder, build_from_helm_repository}
use flux_build.Build.Index.{ResourceIndex}
use flux_build.Build.Objects.{
  Gvk, ChartTemplate, HelmRelease, HelmRepository, Object, helm_release, helm_repository,
  config_map, secret, other, KubeLibrary, BuildError,
}
use flux_build.Build.Release.{
  OutputLibrary, RunState, build_chart, manifest_files, kustomize_release, resolve, build,
  render_part, on_index,
}
use flux_build.Build.Release.Resolved.{
  IsResolved, AreManifests, resolve-IsResolved, manifest_files-AreManifests,
}
use flux_build.Build.Render.{HelmOptions, RenderLibrary, Rendered, render_release}
use flux_build.Build.Repositories.{Downloader, HelmLibrary}
use flux_build.Build.Values.{compose_values}
use flux_build.Build.Values.Order.{merged_from, compose_values-merged}
use flux_build.Chart.Reference.{Build}
use flux_build.MemCache.{Cache}

module _ (lib : HelmLibrary)
    (set_gvk_idem : (r : KubeLibrary.Resource lib.kube) (g : Gvk)
      → KubeLibrary.set_gvk lib.kube (KubeLibrary.set_gvk lib.kube r g) g
        ≡ KubeLibrary.set_gvk lib.kube r g)
    (store : ChartStore) (builder : Builder)
    (others : Cache Text (Option Downloader) → Cache Text (Option Downloader)) (out : OutputLibrary)
    (renders : RenderLibrary lib.kube.Values lib.kube.Patch) (opts : HelmOptions) where
  open lib.kube use {Resource, Values, Patch, no_values, merge_maps}

  abbrev Run : Type 0
  Run = RunState lib store builder others out renders opts

  kustomize_release-eq-ok :
      (r : Rendered) (m : out.ResMap)
      → kustomize_release lib store builder others out renders opts r ≡ ok m
      → out.kustomize (manifest_files opts.include_helm_hooks r) ≡ some m
  unfolding kustomize_release
  kustomize_release-eq-ok r m e = ground arith

  build_chart-eq-ok :
      (o : Object Values Patch) (c : ChartTemplate) (s : Run) (b : Build)
      → (build_chart lib store builder others out renders opts o c s).0 ≡ ok b
      → (repo : HelmRepository) × (o ≡ helm_repository repo)
        × ((build_from_helm_repository lib store builder others c repo s.index s.helm).0 ≡ ok b)
  unfolding build_chart
  build_chart-eq-ok (helm_repository repo) c s b e = (repo, refl, e)
  build_chart-eq-ok (helm_release hr) c s b e = cc
  build_chart-eq-ok (config_map m) c s b e = cc
  build_chart-eq-ok (secret t) c s b e = cc
  build_chart-eq-ok other c s b e = cc

  index-build_chart :
      (o : Object Values Patch) (c : ChartTemplate) (s : Run)
      → (build_chart lib store builder others out renders opts o c s).1.index ≡ s.index
  unfolding build_chart
  index-build_chart (helm_repository repo) c s = refl
  index-build_chart (helm_release hr) c s = refl
  index-build_chart (config_map m) c s = refl
  index-build_chart (secret t) c s = refl
  index-build_chart other c s = refl

  -- The values that a release is rendered with
  abbrev pub values_of :
      HelmRelease Values Patch → ResourceIndex lib.kube → Result BuildError Values
  values_of hr db = merged_from lib.kube set_gvk_idem db hr no_values hr.values_from then λ m.
      ok (merge_maps m hr.values)

  -- A release that builds is read from its resource with the environment put in, and has an inline
  -- chart whose source is found in the index under its kind and name, in its own namespace or else the
  -- release's, and is a HelmRepository; this repository gives the chart, Helm renders the chart with the
  -- values that the references have in the index as it was at the start, and the result is what
  -- kustomize makes of the manifest and, exactly where hooks are included, of the hooks, numbered and
  -- in their order. `SetGvk` is taken to be idempotent.
  pub build-parts :
      (r : Resource) (s : Run) (m : out.ResMap)
      → (build lib store builder others out renders opts r s).0 ≡ ok m
      → (hr : HelmRelease Values Patch) × (c : ChartTemplate) × (repo : HelmRepository)
        × (b : Build) × (values : Values) × (rendered : Rendered) × (files : List (Text × Text))
        × IsResolved lib store builder others out renders opts r s.index hr c repo
        × ((build_from_helm_repository lib store builder others c repo s.index s.helm).0 ≡ ok b)
        × (values_of hr s.index ≡ ok values)
        × (render_release renders opts hr values b.path ≡ ok rendered)
        × AreManifests opts.include_helm_hooks rendered files
        × (out.kustomize files ≡ some m)
  unfolding build render_part on_index
  build-parts r s m e =
      let (t, e1, r1) =
        >>=-eq-ok (lift (resolve lib store builder others out renders opts r s.index)) _ s e in
      let (hr, (c, o)) = t in
      let (b, e2, r2) =
        >>=-eq-ok (build_chart lib store builder others out renders opts o c) _ s r1 in
      let s1 = (build_chart lib store builder others out renders opts o c s).1 in
      let (values, e3, r3) =
        >>=-eq-ok (on_index lib store builder others out renders opts (compose_values lib.kube hr))
          _ s1 r2 in
      let (rendered, e4, e5) =
        >>=-eq-ok (lift (render_release renders opts hr values b.path)) _
          (on_index lib store builder others out renders opts (compose_values lib.kube hr) s1).1
          r3 in
      let (repo, same, made) = build_chart-eq-ok o c s b e2 in
      let merged : values_of hr s1.index ≡ ok values =
        sym (compose_values-merged lib.kube set_gvk_idem hr s1.index) ∙ e3 in
      (
        hr,
        c,
        repo,
        b,
        values,
        rendered,
        manifest_files opts.include_helm_hooks rendered,
        resolve-IsResolved lib store builder others out renders opts r s.index hr c repo
            (e1 ∙ ap (λ o'. ok (hr, (c, o'))) same),
        made,
        rw (index-build_chart o c s) at merged,
        e4,
        manifest_files-AreManifests opts.include_helm_hooks rendered,
        kustomize_release-eq-ok rendered m e5,
      )
