-- ===== src/Chart/Dependencies/Fetch.antt =====
-- internal/helm/chart/dependency_manager.go: a dependency resolved, up to the chart that is added.
use flux_build.Base.{not, ◌&&◌, Option, none, some, ◌==◌, if◌then◌else◌}
use flux_build.Base.Exec.{Exec, lift, ◌>>=◌}
use flux_build.Base.Paths.{join_path}
use flux_build.Base.Results.{Result, ok, err}
use flux_build.Base.Text.{Text, codes, text_eq, is_empty}
use flux_build.Auth.Types.{UrlLibrary}
use flux_build.Chart.Dependencies.{
  DependencyError, no_local_reference, bad_local_url, outside, no_chart, stat_error, not_local,
  bad_constraint, load_failed, bad_version, no_valid_version, no_version, download_failed,
  nil_downloader, is_local_dep, Session, resolve_repository,
}
use flux_build.Chart.Host.{Dependency, Chart, Host, missing, stat_failed, found}
use flux_build.Chart.Reference.{LocalReference, Reference, local_ref, remote_ref}
use flux_build.Chart.Remote.{Downloader}
use flux_build.Repository.Versions.{Semver, ChartVersion}

module _ {V : Type 0} (host : Host V) (urls : UrlLibrary) (semver : Semver) where
  -- `secureLocalChartPath`; `filepath.Join` of three elements drops the empty ones.
  unfoldable pub secure_local_chart_path :
      host.World → LocalReference → Dependency → Result DependencyError Text
  secure_local_chart_path w ref dep = elim (urls.parse dep.repository) [
    | none ↦ err bad_local_url
    | some u ↦
        if not (is_empty u.scheme) && not (u.scheme == codes "file")
        then err (not_local dep.repository)
        else elim (host.secure_join w ref.work_dir (join_path (join_path ref.path u.host) u.path)) [
          | none ↦ err outside
          | some path ↦ ok path
        ]
  ]

  -- `constraint.Check` of the version of a chart
  unfoldable pub checked_version :
      semver.Constraint → Text → Chart V → Result DependencyError (Chart V)
  checked_version c wanted ch = elim (semver.parse_version ch.metadata.version) [
    | none ↦ err (bad_version ch.metadata.version)
    | some v ↦ if semver.check c v then ok ch else err (no_valid_version wanted)
  ]

  -- The chart at a local path
  unfoldable pub load_local :
      host.World → LocalReference → Dependency → Text → Result DependencyError (Chart V)
  unfolding checked_version
  load_local w ref dep path = elim (semver.new_constraint dep.version) [
    | none ↦ err (bad_constraint dep.version)
    | some c ↦ elim (host.load_path w ref.work_dir path) [
      | none ↦ err (load_failed path)
      | some ch ↦ checked_version c dep.version ch
    ]
  ]

  unfoldable pub with_alias : Dependency → Chart V → Chart V
  with_alias dep ch =
      if is_empty dep.alias
      then ch
      else record ch { metadata = record ch.metadata { name = dep.alias } }

  -- `addLocalDependency`, up to the chart
  unfoldable pub local_dependency :
      host.World → LocalReference → Dependency → Result DependencyError (Chart V)
  unfolding secure_local_chart_path load_local with_alias
  local_dependency w ref dep = elim (secure_local_chart_path w ref dep) [
    | err e ↦ err e
    | ok path ↦ elim (host.stat w path) [
      | missing ↦ err no_chart
      | stat_failed ↦ err stat_error
      | found is_dir is_regular size ↦ elim (load_local w ref dep path) [
        | err e ↦ err e
        | ok ch ↦ ok (with_alias dep ch)
      ]
    ]
  ]

  -- `addRemoteDependency` with the downloader, up to the chart: a nil downloader panics.
  get_version :
      Option (Downloader host.World)
      → Dependency
      → Exec (Session host.World) DependencyError ChartVersion
  get_version none dep s = (err nil_downloader, s)
  get_version (some repo) dep s =
      let (r, w) = repo.get_chart_version dep.name dep.version s.world in
      (elim r [ err _ ↦ err (no_version dep.name) | ok cv ↦ ok cv ], record s { world = w })

  download :
      Option (Downloader host.World)
      → ChartVersion
      → Exec (Session host.World) DependencyError (Chart V)
  download none cv s = (err nil_downloader, s)
  download (some repo) cv s =
      let (r, w) = repo.download_chart cv s.world in
      (
        elim r [
          | none ↦ err (download_failed cv.version)
          | some bytes ↦ elim (host.load_archive bytes) [
            | none ↦ err (load_failed cv.version)
            | some ch ↦ ok ch
          ]
        ],
        record s { world = w },
      )

  unfoldable pub remote_dependency :
      Dependency → Exec (Session host.World) DependencyError (Chart V)
  unfolding get_version download with_alias
  remote_dependency dep = do
    repo ← resolve_repository urls dep.repository
    cv ← get_version repo dep
    ch ← download repo cv
    lift (ok (with_alias dep ch))

  -- What a worker does for its dependency before it takes the lock of the chart
  unfoldable pub fetch :
      Reference → Dependency → Exec (Session host.World) DependencyError (Chart V)
  unfolding local_dependency remote_dependency
  fetch ref dep s =
      if is_local_dep dep
      then (elim ref [
        | remote_ref r ↦ (err no_local_reference, s)
        | local_ref r ↦ (local_dependency s.world r dep, s)
      ])
      else remote_dependency dep s
