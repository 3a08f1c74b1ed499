-- ===== src/Tests/Dependencies.antt =====
-- The dependency manager and the local builder at concrete inputs.
use flux_build.Chart.Packages.{copy_file_to_path}
use flux_build.Chart.Options.{get_values_files}
use flux_build.Chart.Packages.{path_is_dir}
use flux_build.Chart.Metadata.{load_metadata}
use flux_build.Chart.Reference.{validate_local}
use flux_build.Chart.Dependencies.{is_local_dep}
use flux_build.Chart.Dependencies.Fetch.{fetch}
use flux_build.Base.Text.{trim_right}
use flux_build.Repository.Urls.{validate_dep_url}
use flux_build.Repository.Urls.{normalize_url}
use flux_build.Chart.Metadata.{with_api_version}
use flux_build.Chart.Metadata.{read_entry}
use flux_build.Chart.Metadata.{load_from_archive}
use flux_build.Chart.Reference.{validate}
use flux_build.Base.{
  ℕ, ◌≤◌, true, false, none, some, [], ◌∷◌, nat_eq, ◌≡◌, ◌≢◌, ◌↔◌, ◌∙◌, ap, refl, ◌⊎◌, arith, All,
  length,
}
use flux_build.Base.Dict.{Dict, lookup}
use flux_build.Base.Paths.{join_path}
use flux_build.Base.Results.{Result, ok, err}
use flux_build.Base.Text.{Text, codes, text_eq, text_iff, has_prefix, trim_prefix}
use flux_build.Auth.Types.{UrlLibrary}
use flux_build.Chart.Dependencies.{
  Session, resolve_repository, collect_missing, key_of, has_name, callback_failed, DependencyError,
}
use flux_build.Chart.Dependencies.Missing.{
  last_request, collect_missing_iff, collect_missing-nil_iff,
}
use flux_build.Chart.Dependencies.Resolved.{resolve_repository-after_failure}
use flux_build.Chart.Dependencies.Group.{
  fetching, Event, acquire, work, Group, start, step, run, wait, limit,
}
use flux_build.Chart.Dependencies.Group.Once.{occurrences, wait-occurrences}
use flux_build.Chart.Dependencies.Group.Ends.{run-limit, run-ends}
use flux_build.Chart.Host.{Dependency, Metadata}
use flux_build.Chart.Local.Placed.{IsPlaced, build-IsPlaced}
use flux_build.Chart.Local
use flux_build.Chart.Reference.{LocalReference, Reference, local_ref}
use flux_build.Chart.Remote
use flux_build.Chart.Remote.{generate_build_result, package_again, packaged_answer}
use flux_build.Tests.Host.{
  no_files, options, podinfo_build, Files, put, podinfo, files, content_of, path_laws, downloader,
  set_metadata,
}
use flux_build.Tests.Instances.{urls, semver}

abbrev redis : Dependency
redis = record { name = codes "redis"; version = codes "1"; repository = []; alias = [] }

collect_missing_iff_example :
    (lookup (codes "redis") (collect_missing [] (redis ∷ [])) ≡ some redis)
    ↔ ((false ≡ false) × (last_request (codes "redis") (redis ∷ []) ≡ some redis))
unfolding has_name
collect_missing_iff_example =
    collect_missing_iff [] (redis ∷ []) (codes "redis") redis (λ same. ground arith)

collect_missing-nil_iff_example : (collect_missing (podinfo ∷ []) (redis ∷ []) ≡ []) ↔ (
    (length (podinfo ∷ []) ≡ length (redis ∷ []))
    ⊎ All (λ dep. has_name (key_of dep) (podinfo ∷ []) ≡ true) (redis ∷ []))
collect_missing-nil_iff_example = collect_missing-nil_iff (podinfo ∷ []) (redis ∷ [])

abbrev asks : Session Files
asks = record {
  manager = record {
    downloaders = [];
    get_chart_downloader = some (λ url w. (some downloader, w));
    concurrent = 2;
  };
  world = no_files;
}

abbrev fails : Session Files
fails = record asks {
  manager = record asks.manager { get_chart_downloader = some (λ url w. (none, w)) };
}

abbrev repository : Text
repository = codes "https://charts"

resolved : (resolve_repository urls repository asks).0 ≡ ok (some downloader)
unfolding resolve_repository normalize_url has_prefix validate_dep_url text_eq lookup
resolved = refl

not_resolved :
    (resolve_repository urls repository fails).0 ≡ err (callback_failed (codes "https://charts/"))
unfolding resolve_repository normalize_url has_prefix validate_dep_url text_eq lookup trim_prefix
    trim_right
not_resolved = refl

resolve_repository-after_failure_example :
    (resolve_repository urls repository (resolve_repository urls repository fails).1).0 ≡ ok none
resolve_repository-after_failure_example =
    resolve_repository-after_failure urls repository repository (codes "https://charts/") fails refl
      not_resolved

abbrev local_urls : UrlLibrary
local_urls = record {
  parse = λ s. some (record { scheme = []; host = []; hostname = []; path = []; raw_path = [] });
  show = λ u. u.path;
}

abbrev charts_here : LocalReference
charts_here = record { work_dir = codes "/work"; path = codes "charts" }

abbrev here : Reference
here = local_ref charts_here

abbrev with_charts : Session Files
with_charts = record asks { world = put (codes "/work/charts") [] no_files }

abbrev wanted : Dict Text Dependency
wanted = (codes "redis", record redis { version = codes "1" }) ∷ []

abbrev begun : Group ℕ Files
begun = record {
  pending = [];
  running = fetching (codes "redis") redis ∷ [];
  added = [];
  failure = none;
  session = with_charts;
}

begun_run :
    run files local_urls semver here 2
      (acquire ∷ [])
      (start files local_urls semver wanted with_charts)
    ≡ some begun
unfolding run start
begun_run = refl

run-limit_example : 1 ≤ 2
unfolding limit
run-limit_example =
    run-limit files local_urls semver here 2 wanted with_charts (acquire ∷ []) begun begun_run

run-ends_example :
    (1 ≤ 3)
    × (((r : Result DependencyError (Dict Text Metadata)) × (wait files local_urls semver here 2
              begun
            ≡ some r))
        ⊎ ((e : Event) × (g : Group ℕ Files) × (step files local_urls semver here 2 e begun
              ≡ some g)))
run-ends_example =
    run-ends files local_urls semver here 2 wanted with_charts (acquire ∷ []) begun begun_run

abbrev finished : Group ℕ Files
finished = record begun { running = []; added = (codes "redis", podinfo) ∷ [] }

finished_run :
    run files local_urls semver here 2
      (acquire ∷ work 0 ∷ work 0 ∷ [])
      (start files local_urls semver wanted with_charts)
    ≡ some finished
unfolding run start fetch is_local_dep text_eq join_path
finished_run = refl

finished_answer :
    wait files local_urls semver here 2 finished ≡ some (ok ((codes "redis", podinfo) ∷ []))
unfolding wait
finished_answer = refl

wait-occurrences_example :
    occurrences (codes "redis") ((codes "redis", podinfo) ∷ []) ≡ occurrences (codes "redis") wanted
wait-occurrences_example =
    wait-occurrences files local_urls semver here 2 wanted with_charts
      (acquire ∷ work 0 ∷ work 0 ∷ []) finished ((codes "redis", podinfo) ∷ []) finished_run
      finished_answer (codes "redis")

abbrev packed : Files
packed = put (codes "/work/charts") (codes "chart") no_files

local_built :
    (Local.build files set_metadata none here (codes "/out") options packed).0
    ≡ (some podinfo_build, none)
unfolding Local.build validate validate_local load_metadata text_eq join_path load_from_archive
    read_entry has_prefix with_api_version Remote.is_cached Local.local_requires_packaging
    path_is_dir get_values_files copy_file_to_path
local_built = refl

here-elsewhere :
    (r : LocalReference)
    → here ≡ local_ref r
    → files.secure_join packed r.work_dir r.path ≢ some (codes "/out")
unfolding join_path
here-elsewhere r is joined =
    let same : charts_here ≡ r = cc in
    let at : some (codes "/work/charts") ≡ some (codes "/out") =
      ap (λ x. files.secure_join packed x.work_dir x.path) same ∙ joined in
    ground (arith, text_iff (codes "/work/charts") (codes "/out"))

build-IsPlaced_example :
    IsPlaced files set_metadata none content_of
      (λ c. codes "chart")
      (codes "/out")
      path_laws
      here
      options
      packed
      (Local.build files set_metadata none here (codes "/out") options packed).1
      podinfo_build
build-IsPlaced_example =
    build-IsPlaced files set_metadata none content_of (λ c. codes "chart") (codes "/out") path_laws
      here options packed podinfo_build here-elsewhere local_built
