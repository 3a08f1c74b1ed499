-- ===== src/Tests/Builds.antt =====
-- The builder at a concrete release, repository and index.
use flux_build.Build.Values.{compose_from}
use flux_build.Base.Text.{trim_right}
use flux_build.Base.{◌≡◌, refl, Option, some, [], ◌∷◌}
use flux_build.Base.Dict.{lookup, insert}
use flux_build.Base.{List, ◌↔◌}
use flux_build.Base.Results.{ok, ◌>>=◌}
use flux_build.Base.Text.{Text, codes, text_eq, has_prefix, trim_prefix}
use flux_build.Build.FromRepository.{HelmState, build_from_helm_repository, lock_chart, deferring}
use flux_build.Build.FromRepository.Locks.{HoldsNone, build_from_helm_repository-HoldsNone}
use flux_build.Build.FromRepository.Release.{IsSound, build_from_helm_repository-releases}
use flux_build.Build.Index.{ResourceIndex}
use flux_build.Build.Objects.{Ref, ref_eq, ref_beq, HelmRelease, ChartTemplate, HelmRepository}
use flux_build.Build.Release.{
  RunState, build, resolve, manifest_files, release_of, chart_of, source_of, source_ref,
  get_repository, build_chart, kustomize_release, hook_files, decimal,
}
use flux_build.Build.Release.Parts.{values_of, build-parts}
use flux_build.Build.Release.Resolved.{IsResolved, AreManifests}
use flux_build.Build.Render.{
  render_release, validate_crds_policy, render_release_iff, IsPolicy, install_action, Rendered,
}
use flux_build.Build.Repositories.{Downloader, new_repository, credentials_for}
use flux_build.Build.Credentials.{get_helm_repository_secret, make_login_option}
use flux_build.Chart.Options.{get_values_files}
use flux_build.Chart.Reference.{with_escaped_name}
use flux_build.Chart.Reference.{Build}
use flux_build.Build.Values.{compose_values, values_ref, entry_text, values_data, merge_entry}
use flux_build.Build.Values.Order.{merged_from, compose_values-merged}
use flux_build.MemCache
use flux_build.MemCache.{Cache, value}
use flux_build.Repository.Urls.{normalize_url}
use flux_build.Tests.Instances.{
  out, renders, options, release_resource, repository_resource, kube, helm, store, builder,
  chart_template, repository, config, podinfo_release,
}

abbrev config_ref : Ref
config_ref = record {
  group = [];
  kind = codes "ConfigMap";
  name = codes "values";
  namespace = codes "default";
}

abbrev index : ResourceIndex kube
index = (config_ref, config) ∷ []

compose_values-merged_example : (compose_values kube podinfo_release index).0 ≡ (
    merged_from kube (λ r g. refl) index podinfo_release [] podinfo_release.values_from >>= λ m.
    ok (kube.merge_maps m podinfo_release.values))
compose_values-merged_example = compose_values-merged kube (λ r g. refl) podinfo_release index

abbrev Repos : Type 0
Repos = Cache Text (Option Downloader)

abbrev state : HelmState helm store builder
state = record { charts = 0; repos = MemCache.new; world = 0 }

state-HoldsNone : HoldsNone state.repos
unfolding MemCache.new lookup
state-HoldsNone k r h = cc

state-IsSound : IsSound state.repos
unfolding MemCache.new lookup
state-IsSound = (λ k ch h. cc, λ ch h. refl)

build_from_helm_repository-HoldsNone_example :
    HoldsNone
      (build_from_helm_repository helm store builder
        (λ c. c)
        chart_template
        repository
        index
        state).1.repos
build_from_helm_repository-HoldsNone_example =
    build_from_helm_repository-HoldsNone helm store builder (λ c. c) (λ c h. h) chart_template
      repository index state state-HoldsNone

normalized : normalize_url helm.urls repository.url ≡ ok (codes "https://charts/")
unfolding normalize_url has_prefix text_eq trim_prefix trim_right
normalized = refl

chart_locked :
    (lock_chart helm store builder
      (codes "https://charts/")
      (record { name = chart_template.chart; version = chart_template.version })
      state).0
    ≡ ok (codes "/tmp/chart.tgz", 0)
unfolding lock_chart
chart_locked = refl

build_from_helm_repository-releases_example :
    (v : Option Downloader) × (lookup
        (codes "https://charts/")
        (build_from_helm_repository helm store builder
          (λ c. c)
          chart_template
          repository
          index
          state).1.repos.items
      ≡ some (value v))
build_from_helm_repository-releases_example =
    build_from_helm_repository-releases helm store builder (λ c. c) (λ c h. h) chart_template
      repository index (codes "https://charts/") (codes "/tmp/chart.tgz", 0) state normalized
      chart_locked state-IsSound

render_release_iff_example :
    (render_release renders options podinfo_release [] (codes "/tmp/chart.tgz")
      ≡ ok (record { manifest = codes "/tmp/chart.tgz"; hooks = codes "job" ∷ [] }))
    ↔ ((c : renders.Chart) × (renders.load (codes "/tmp/chart.tgz") ≡ some c)
        × IsPolicy renders options podinfo_release.install.crds
        × (renders.run (install_action options podinfo_release) c []
            ≡ some (record { manifest = codes "/tmp/chart.tgz"; hooks = codes "job" ∷ [] })))
render_release_iff_example =
    render_release_iff renders options podinfo_release [] (codes "/tmp/chart.tgz")
      (record { manifest = codes "/tmp/chart.tgz"; hooks = codes "job" ∷ [] })

abbrev repository_ref : Ref
repository_ref = record {
  group = codes "source.toolkit.fluxcd.io";
  kind = codes "HelmRepository";
  name = codes "repo";
  namespace = codes "default";
}

abbrev full_index : ResourceIndex kube
full_index = (repository_ref, repository_resource) ∷ (config_ref, config) ∷ []

abbrev Run : Type 0
Run = RunState helm store builder (λ c. c) out renders options

abbrev run_state : Run
run_state = record { helm = state; index = full_index }

abbrev files : List (Text × Text)
files = (codes "manifest.yaml", codes "/tmp/chart.tgz") ∷ (codes "hook_0.yaml", codes "job") ∷ []

built :
    (build helm store builder (λ c. c) out renders options release_resource run_state).0 ≡ ok files
unfolding build resolve release_of chart_of source_of source_ref get_repository build_chart
    build_from_helm_repository lock_chart new_repository credentials_for get_helm_repository_secret
    make_login_option normalize_url text_eq has_prefix trim_prefix trim_right lookup insert ref_eq
    ref_beq MemCache.new MemCache.get_or_lock MemCache.set_unlock compose_values values_ref
    entry_text values_data merge_entry render_release validate_crds_policy kustomize_release
    manifest_files hook_files decimal deferring with_escaped_name get_values_files compose_from
built = refl

build-parts_example :
    (hr : HelmRelease (List Text) Text) × (c : ChartTemplate) × (repo : HelmRepository)
    × (b : Build) × (values : List Text) × (rendered : Rendered) × (made : List (Text × Text))
    × IsResolved helm store builder
        (λ c. c)
        out
        renders
        options
        release_resource
        full_index
        hr
        c
        repo
    × ((build_from_helm_repository helm store builder (λ c. c) c repo full_index state).0 ≡ ok b)
    × (values_of helm (λ r g. refl) store builder (λ c. c) out renders options hr full_index
        ≡ ok values)
    × (render_release renders options hr values b.path ≡ ok rendered)
    × AreManifests options.include_helm_hooks rendered made
    × (out.kustomize made ≡ some files)
build-parts_example =
    build-parts helm (λ r g. refl) store builder (λ c. c) out renders options release_resource
      run_state files built
