-- ===== src/Chart/Local.antt =====
-- internal/helm/chart/builder_local.go: a chart of the file system, copied or packaged.
pub mod Placed
use flux_build.Base.{
  ℕ, Bool, true, false, not, ◌&&◌, ◌||◌, Option, none, some, List, [], ◌∷◌, ◌==◌, if◌then◌else◌,
}
use flux_build.Base.Exec.{Exec}
use flux_build.Base.Results.{Result, ok, err}
use flux_build.Base.Text.{Text, codes, text_eq, is_empty}
use flux_build.Chart.Dependencies.{DependencyError}
use flux_build.Chart.Errors.{
  BuildErrorReason, chart_reference, chart_pull, values_files_merge, dependency_build,
  chart_package, wrong_reference, invalid_reference, bad_metadata, BuildError, failed,
}
use flux_build.Chart.Host.{
  Metadata, Chart, Host, Stat, missing, stat_failed, found, no_file, read_failed, contents,
}
use flux_build.Chart.Metadata.{load_metadata, overwrite_default_values}
use flux_build.Chart.Options.{get_values_files}
use flux_build.Chart.Packages.{package_to_path, path_is_dir, copy_file_to_path}
use flux_build.Chart.Reference.{
  LocalReference, Reference, local_ref, remote_ref, validate, BuildOptions, Build, empty_build,
}
use flux_build.Chart.Remote.{Answer, is_cached, set_build_metadata}

-- `DependencyManager.Build`, which adds what a chart lacks to it and counts it
abbrev pub DependencyBuilder : Type 0 → Type 0 → Type 0
DependencyBuilder V W = Reference → Chart V → W → (Result DependencyError ℕ × Chart V) × W

module _ {V : Type 0} (host : Host V) (set_metadata : Text → Text → Option Text) where
  -- A values file under the base directory
  unfoldable pub read_values_file : host.World → Text → Text → Result BuildError V
  read_values_file w base p = elim (host.secure_join w base p) [
    | none ↦ err (failed values_files_merge p)
    | some path ↦ elim (host.stat w path) [
      | missing ↦ err (failed values_files_merge p)
      | stat_failed ↦ err (failed values_files_merge p)
      | found is_dir is_regular size ↦
          if not is_regular
          then err (failed values_files_merge p)
          else elim (host.read_file w path) [
            | no_file ↦ err (failed values_files_merge p)
            | read_failed ↦ err (failed values_files_merge p)
            | contents text ↦ elim (host.read_values text) [
              | none ↦ err (failed values_files_merge p)
              | some values ↦ ok values
            ]
          ]
    ]
  ]

  -- `mergeFileValues`
  unfoldable pub merge_file_values : host.World → Text → V → List Text → Result BuildError V
  unfolding read_values_file
  merge_file_values w base merged [] = ok merged
  merge_file_values w base merged (p ∷ ps) = elim (read_values_file w base p) [
    | err e ↦ err e
    | ok values ↦ merge_file_values w base (host.merge_maps merged values) ps
  ]

  -- The merged values; nil where no values files are set
  unfoldable pub merged_values :
      host.World → LocalReference → BuildOptions → Result BuildError (Option V)
  unfolding merge_file_values
  merged_values w r o =
      if is_empty (get_values_files o)
      then ok none
      else elim (merge_file_values w r.work_dir host.no_values o.values_files) [
        | err e ↦ err e
        | ok v ↦ ok (some v)
      ]

  -- The metadata of the chart at a path that passed `SecureJoin`
  unfoldable pub metadata_at : host.World → Text → Result BuildError Metadata
  metadata_at w path = elim (load_metadata host w path) [
    | err e ↦ err (record { reason = chart_reference; cause = bad_metadata e })
    | ok m ↦
        if host.is_valid m then ok m else err (failed chart_reference (codes "invalid metadata"))
  ]

  -- The build that is begun: name and version
  unfoldable pub local_version : Metadata → BuildOptions → Result BuildError Text
  local_version m o =
      if is_empty o.version_metadata
      then ok m.version
      else set_build_metadata host set_metadata m.version o.version_metadata

  unfoldable pub begin_build : host.World → Text → BuildOptions → Result BuildError Build
  unfolding metadata_at local_version
  begin_build w path o = elim (metadata_at w path) [
    | err e ↦ err e
    | ok m ↦ elim (local_version m o) [
      | err e ↦ err e
      | ok version ↦ ok (record empty_build { name = m.name; version = version })
    ]
  ]

  unfoldable pub local_requires_packaging : host.World → Text → BuildOptions → Bool
  local_requires_packaging w path o =
      path_is_dir host w path
      || not (is_empty o.version_metadata)
      || not (is_empty (get_values_files o))

  -- The chart with its resolved version and the merged values, and the build
  unfoldable pub prepare :
      host.World → LocalReference → Build → BuildOptions → Result BuildError (Chart V × Build)
  unfolding merged_values
  prepare w r b o = elim (merged_values w r o) [
    | err e ↦ err e
    | ok merged ↦ elim (host.load_path w r.work_dir r.path) [
      | none ↦ err (failed chart_package (codes "load"))
      | some loaded ↦
          let c : Chart V = record loaded {
            metadata = record loaded.metadata { version = b.version };
          } in
          elim (overwrite_default_values host c merged) [
            | err e ↦ err (record { reason = values_files_merge; cause = bad_metadata e })
            | ok none ↦ ok (c, b)
            | ok (some c') ↦ ok (c', record b { values_files = get_values_files o })
          ]
    ]
  ]

  unfoldable pub package_local : Chart V → Build → Text → host.World → Answer × host.World
  unfolding package_to_path
  package_local c b p w =
      let (r, w') = package_to_path host c p w in
      (
        elim r [
          | err e ↦ (some b, some e)
          | ok _ ↦ (some (record b { path = p; packaged = true }), none)
        ],
        w',
      )

  module _ (dm : Option (DependencyBuilder V host.World)) where
    -- The dependencies of a directory are added, and the chart is packaged.
    unfoldable pub with_dependencies :
        Reference → Bool → Chart V → Build → Text → host.World → Answer × host.World
    unfolding package_local
    with_dependencies ref false c b p w = package_local c b p w
    with_dependencies ref true c b p w = elim dm [
      | none ↦ ((some b, some (failed dependency_build (codes "no dependency manager"))), w)
      | some resolve ↦
          let ((r, c'), w') = resolve ref c w in
          elim r [
            | err e ↦ ((some b, some (failed dependency_build (codes "dependencies"))), w')
            | ok n ↦ package_local c' (record b { resolved_dependencies = n }) p w'
          ]
    ]

    unfoldable pub copy_local : Text → Build → Text → host.World → Answer × host.World
    copy_local path b p w =
        let (r, w') = copy_file_to_path host path p w in
        (elim r [ err e ↦ (some b, some e) | ok _ ↦ (some (record b { path = p }), none) ], w')

    -- What follows where the cached chart is not the one that is asked for
    unfoldable pub build_anew :
        LocalReference → Text → Build → Text → BuildOptions → host.World → Answer × host.World
    unfolding with_dependencies copy_local prepare
    build_anew r path b p o w =
        if not (local_requires_packaging w path o)
        then copy_local path b p w
        else elim (prepare w r b o) [
          | err e ↦ ((some b, some e), w)
          | ok (c, b') ↦ with_dependencies (local_ref r) (path_is_dir host w path) c b' p w
        ]

    unfoldable pub build_at :
        LocalReference → Text → Text → BuildOptions → host.World → Answer × host.World
    unfolding begin_build build_anew
    build_at r path p o w = elim (begin_build w path o) [
      | err e ↦ ((none, some e), w)
      | ok b ↦
          if is_cached host set_metadata w b o
          then (
            (
              some (record b {
                path = o.cached_chart;
                values_files = get_values_files o;
                packaged = local_requires_packaging w path o;
              }),
              none,
            ),
            w,
          )
          else build_anew r path b p o w
    ]

    -- `localChartBuilder.Build`
    unfoldable pub build : Reference → Text → BuildOptions → host.World → Answer × host.World
    unfolding build_at
    build (remote_ref r) p o w =
        ((none, some (record { reason = chart_reference; cause = wrong_reference })), w)
    build (local_ref r) p o w = elim (validate (local_ref r)) [
      | err e ↦ ((none, some (record { reason = chart_reference; cause = invalid_reference e })), w)
      | ok _ ↦ elim (host.secure_join w r.work_dir r.path) [
        | none ↦ ((none, some (failed chart_reference (codes "secure join"))), w)
        | some path ↦ build_at r path p o w
      ]
    ]
