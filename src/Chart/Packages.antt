-- ===== src/Chart/Packages.antt =====
-- internal/helm/chart/builder_remote.go and builder.go: the values files of a chart merged, and
-- packages written to a path.
pub mod Atomic
pub mod Stored
use flux_build.Base.{Bool, false, ◌&&◌, none, some, List, [], ◌∷◌, ◌==◌, if◌then◌else◌, find}
use flux_build.Base.Exec.{Exec}
use flux_build.Base.Paths.{clean, base}
use flux_build.Base.Results.{Result, ok, err}
use flux_build.Base.Text.{Text, codes, text_eq}
use flux_build.Chart.Errors.{
  chart_pull, values_files_merge, chart_package, bad_metadata, BuildError, failed,
}
use flux_build.Chart.Host.{Chart, Host, missing, stat_failed, found}
use flux_build.Chart.Metadata.{load_from_archive, values_file}

module _ {V : Type 0} (host : Host V) where
  -- A file of the chart that is merged: the default one stands for the chart's values.
  unfoldable pub merge_file : Chart V → V → Text → Result BuildError V
  merge_file c merged p =
      if clean p == values_file
      then ok (host.merge_maps merged c.values)
      else (elim (find (λ f. f.name == clean p) c.files) [
        | none ↦ err (failed values_files_merge p)
        | some f ↦ elim (host.read_values f.content) [
          | none ↦ err (failed values_files_merge p)
          | some values ↦ ok (host.merge_maps merged values)
        ]
      ])

  -- `mergeChartValues`
  unfoldable pub merge_chart_values : Chart V → V → List Text → Result BuildError V
  unfolding merge_file
  merge_chart_values c merged [] = ok merged
  merge_chart_values c merged (p ∷ ps) = elim (merge_file c merged p) [
    | err e ↦ err e
    | ok merged' ↦ merge_chart_values c merged' ps
  ]

  -- The file that was written is read again and moved to its place.
  unfoldable pub check_and_rename : Text → Text → Exec host.World BuildError (Unit {0})
  check_and_rename temp out w = elim (load_from_archive host w temp) [
    | err e ↦ (err (record { reason = chart_pull; cause = bad_metadata e }), w)
    | ok m ↦
        if host.is_valid m
        then (let (moved, w') = host.rename temp out w in
            (if moved then ok tt else err (failed chart_pull (codes "rename")), w'))
        else (err (failed chart_pull (codes "invalid metadata")), w)
  ]

  -- `validatePackageAndWriteToPath`; the temporary file is removed at the end.
  unfoldable pub validate_package_and_write_to_path :
      Text → Text → Exec host.World BuildError (Unit {0})
  unfolding check_and_rename
  validate_package_and_write_to_path bytes out w =
      let (temp, w1) = host.create_temp (base out) w in
      elim temp [
        | none ↦ (err (failed chart_pull (codes "create")), w1)
        | some name ↦
            let (written, w2) = host.write name bytes w1 in
            let (r, w3) =
              if written && host.close w2 name
              then check_and_rename name out w2
              else (err (failed chart_pull (codes "write")), w2) in
            (r, host.remove name w3)
      ]

  -- `pathIsDir`
  unfoldable pub path_is_dir : host.World → Text → Bool
  path_is_dir w [] = false
  path_is_dir w (b ∷ s) = elim (host.stat w (b ∷ s)) [
    | missing ↦ false
    | stat_failed ↦ false
    | found is_dir _ size ↦ is_dir
  ]

  unfoldable pub save_to : Chart V → Text → Text → Exec host.World BuildError (Unit {0})
  save_to c dir out w =
      let (saved, w1) = host.save c dir w in
      elim saved [
        | none ↦ (err (failed chart_package (codes "save")), w1)
        | some name ↦
            let (moved, w2) = host.rename name out w1 in
            (if moved then ok tt else err (failed chart_package (codes "rename")), w2)
      ]

  -- `packageToPath`; the directory that the chart is saved into is removed at the end.
  unfoldable pub package_to_path : Chart V → Text → Exec host.World BuildError (Unit {0})
  unfolding save_to
  package_to_path c out w =
      let (made, w1) = host.mkdir_temp (codes "chart-build-*") w in
      elim made [
        | none ↦ (err (failed chart_package (codes "mkdir")), w1)
        | some dir ↦ let (r, w2) = save_to c dir out w1 in (r, host.remove_all dir w2)
      ]

  -- The error of a deferred `Close` shows if there is no other.
  unfoldable pub closing : Result BuildError (Unit {0}) → Bool → Result BuildError (Unit {0})
  closing (err e) closed = err e
  closing (ok _) closed = if closed then ok tt else err (failed chart_pull (codes "close"))

  unfoldable pub copy_into : Text → Text → Exec host.World BuildError (Unit {0})
  unfolding closing
  copy_into from to w =
      if host.open_file w from
      then (let (good, w1) = host.transfer from to w in
          let (closed, w2) = host.close_file from w1 in
          (closing (if good then ok tt else err (failed chart_pull (codes "copy"))) closed, w2))
      else (err (failed chart_pull (codes "open")), w)

  -- `copyFileToPath` of builder_local.go
  unfoldable pub copy_file_to_path : Text → Text → Exec host.World BuildError (Unit {0})
  unfolding copy_into closing
  copy_file_to_path from to w =
      let (created, w1) = host.create_file to w in
      if created
      then (let (r, w2) = copy_into from to w1 in
          let (closed, w3) = host.close_file to w2 in (closing r closed, w3))
      else (err (failed chart_pull (codes "create")), w1)
