-- ===== src/Chart/Remote.antt =====
-- internal/helm/chart/builder_remote.go: a chart of a repository, downloaded and perhaps packaged
-- again.
pub mod Cached
pub mod Delivery
pub mod Served
pub mod Erased
-- downloaded and perhaps packaged again.
use flux_build.Base.{Bool, true, false, not, ◌&&◌, ◌||◌, Option, none, some, ◌==◌, if◌then◌else◌}
use flux_build.Base.Exec.{Exec, pure, ◌>>=◌}
use flux_build.Base.Results.{Result, ok, err, map_err}
use flux_build.Base.Text.{Text, codes, text_eq, is_empty}
use flux_build.Chart.Errors.{
  BuildErrorReason, chart_reference, chart_pull, metadata_patch, values_files_merge, chart_package,
  chart_verification, unknown, wrong_reference, invalid_reference, bad_metadata, BuildError, failed,
}
use flux_build.Chart.Host.{Chart, Host}
use flux_build.Chart.Metadata.{load_from_archive, overwrite_default_values}
use flux_build.Chart.Packages.{
  merge_chart_values, validate_package_and_write_to_path, package_to_path,
}
use flux_build.Chart.Options.{get_values_files}
use flux_build.Chart.Reference.{
  Reference, local_ref, remote_ref, RemoteReference, validate, BuildOptions, Build, empty_build,
}
use flux_build.Repository.Versions.{ChartVersion}

-- The errors that `GetChartVersion` may return, by their Go type
pub data DownloadError : Type 0 where
  reference_error external_error other_error : DownloadError

-- `repository.Downloader`, for builders whose file system is part of `W`
pub record Downloader (W : Type 0) : Type 0 where
  pub get_chart_version : Text → Text → Exec W DownloadError ChartVersion
  pub verify_chart : ChartVersion → W → Bool × W
  pub download_chart : ChartVersion → W → Option Text × W
  pub clear : W → Bool × W

-- A build and an error, of which both may be there
abbrev pub Answer : Type 0
Answer = Option Build × Option BuildError

unfoldable pub reason_of : DownloadError → BuildErrorReason
reason_of reference_error = chart_reference
reason_of external_error = chart_pull
reason_of other_error = unknown

unfoldable pub requires_packaging : BuildOptions → Bool
requires_packaging o = not (is_empty (get_values_files o)) || not (is_empty o.version_metadata)

-- `set_metadata` parses a version and sets its build metadata, with the library semver.
module _ {V : Type 0} (host : Host V) (set_metadata : Text → Text → Option Text) where
  -- `setBuildMetaData`
  unfoldable pub set_build_metadata : Text → Text → Result BuildError Text
  set_build_metadata version metadata = elim (set_metadata version metadata) [
    | none ↦ err (failed metadata_patch (codes "set metadata"))
    | some v ↦ ok v
  ]

  -- The version of the build
  unfoldable pub build_version : ChartVersion → BuildOptions → Result BuildError Text
  unfolding set_build_metadata
  build_version cv o =
      if is_empty o.version_metadata
      then ok cv.version
      else set_build_metadata cv.version o.version_metadata

  -- Whether the cached chart is the one that is asked for
  unfoldable pub is_cached : host.World → Build → BuildOptions → Bool
  is_cached w b o =
      if is_empty o.cached_chart || o.force
      then false
      else elim (load_from_archive host w o.cached_chart) [
        | err _ ↦ false
        | ok m ↦ host.is_valid m && b.name == m.name && b.version == m.version
      ]

  -- `generateBuildResult`
  unfoldable pub generate_build_result :
      host.World → ChartVersion → BuildOptions → Result BuildError (Build × Bool)
  unfolding build_version is_cached requires_packaging get_values_files
  generate_build_result w cv o = elim (build_version cv o) [
    | err e ↦ err e
    | ok version ↦
        let b = record empty_build { name = cv.name; version = version } in
        if is_cached w b o
        then ok (
          record b {
            path = o.cached_chart;
            values_files = get_values_files o;
            packaged = requires_packaging o;
          },
          true,
        )
        else ok (b, false)
  ]

  unfoldable pub packaged_answer : Chart V → Build → Text → host.World → Answer × host.World
  unfolding package_to_path
  packaged_answer c b p w =
      let (r, w') = package_to_path host c p w in
      (
        elim r [
          | err e ↦ (none, some e)
          | ok _ ↦ (some (record b { path = p; packaged = true }), none)
        ],
        w',
      )

  -- What becomes of a downloaded chart that is packaged again
  unfoldable pub package_again :
      Text → Build → Text → BuildOptions → host.World → Answer × host.World
  package_again res b p o w = elim (host.load_archive res) [
    | none ↦ ((some b, some (failed chart_package (codes "load"))), w)
    | some loaded ↦
        let c : Chart V = record loaded {
          metadata = record loaded.metadata { version = b.version };
        } in
        elim (merge_chart_values host c host.no_values o.values_files) [
          | err e ↦ ((some b, some e), w)
          | ok merged ↦ elim (overwrite_default_values host c (some merged)) [
            | err e ↦
                ((none, some (record { reason = values_files_merge; cause = bad_metadata e })), w)
            | ok none ↦ packaged_answer c b p w
            | ok (some c') ↦ packaged_answer c' (record b { values_files = get_values_files o }) p w
          ]
        ]
  ]

  unfoldable pub literal_answer : Result BuildError (Unit {0}) → Build → Text → Answer
  literal_answer (err e) b p = (none, some e)
  literal_answer (ok _) b p = (some (record b { path = p }), none)

  -- What becomes of a download
  unfoldable pub deliver :
      Option Text → Build → Text → BuildOptions → host.World → Answer × host.World
  deliver none b p o w = ((some b, none), w)
  deliver (some res) b p o w =
      if requires_packaging o
      then package_again res b p o w
      else (let (r, w') = validate_package_and_write_to_path host res p w in
          (literal_answer r b p, w'))

  module _ (remote : Downloader host.World) where
    unfoldable pub resolve : RemoteReference → Exec host.World BuildError ChartVersion
    unfolding reason_of
    resolve r w =
        let (r', w') = remote.get_chart_version r.name r.version w in
        (map_err (λ e. failed (reason_of e) (codes "get chart version")) r', w')

    -- `VerifyChart` is called if the options say so.
    unfoldable pub verify : ChartVersion → BuildOptions → Exec host.World BuildError (Unit {0})
    verify cv o w =
        if o.verify
        then (let (good, w') = remote.verify_chart cv w in
            (if good then ok tt else err (failed chart_verification (codes "verify")), w'))
        else (ok tt, w)

    unfoldable pub download :
        ChartVersion → Build → Exec host.World BuildError (Option Text × Build)
    download cv b w =
        let (res, w') = remote.download_chart cv w in
        (
          elim res [
            | none ↦ err (failed chart_pull (codes "download"))
            | some bytes ↦ ok (some bytes, b)
          ],
          w',
        )

    -- `downloadFromRepository`
    unfoldable pub download_from_repository :
        RemoteReference → BuildOptions → Exec host.World BuildError (Option Text × Build)
    unfolding resolve verify download
    download_from_repository r o = do
      cv ← resolve r
      _ ← verify cv o
      (b, is_cached) ← λ w. (generate_build_result w cv o, w)
      if is_cached then pure (none, b) else download cv b

    -- `remoteChartBuilder.Build`
    unfoldable pub build : Reference → Text → BuildOptions → host.World → Answer × host.World
    unfolding download_from_repository deliver
    build (local_ref r) p o w =
        ((none, some (record { reason = chart_reference; cause = wrong_reference })), w)
    build (remote_ref r) p o w = elim (validate (remote_ref r)) [
      | err e ↦ ((none, some (record { reason = chart_reference; cause = invalid_reference e })), w)
      | ok _ ↦
          let (downloaded, w') = download_from_repository r o w in
          elim downloaded [ err e ↦ ((none, some e), w') | ok (res, b) ↦ deliver res b p o w' ]
    ]
