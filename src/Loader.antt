-- ===== src/Loader.antt =====
-- internal/helm/chart/secureloader/loader.go: a chart loaded from a directory or an archive inside a root.
pub mod Types
pub mod Sympath
pub mod Directory
pub mod Visits
pub mod Kept
pub mod Complete
pub mod Files
pub mod Exact
pub mod Loads
pub mod Ends
pub mod Finite
use flux_build.Base.{ℕ, Bool, true, false, Option, none, some, List, if◌then◌else◌}
use flux_build.Base.Paths.{clean, is_abs}
use flux_build.Base.Results.{Result, ok, err, ◌>>=◌}
use flux_build.Base.Text.{Text}
use flux_build.Chart.Metadata.{max_chart_file_size}
use flux_build.Loader.Directory.{
  SecureDirLoader, new_secure_dir_loader, BufferedFile, secure_load_dir,
}
use flux_build.Loader.Types.{
  Disk, pos, LoadError, no_abs, no_rel, no_join, no_info, bad_chart, is_dir,
}

-- `loader.ChartLoader`, for what is returned here
pub data ChartLoader : Type 0 where
  dir_loader : SecureDirLoader → ChartLoader
  file_loader : Text → ChartLoader

module _ (disk : Disk) where
  -- The name relative to the root
  unfoldable pub relative_name : Text → Text → Result LoadError Text
  relative_name root name =
      if is_abs (clean name)
      then (elim (disk.rel root name) [ none ↦ err no_rel | some relative ↦ ok relative ])
      else ok (clean name)

  -- `Loader`
  unfoldable pub loader : Text → Text → Result LoadError ChartLoader
  unfolding new_secure_dir_loader relative_name
  loader root name = elim (disk.abs root) [
    | none ↦ err no_abs
    | some abs_root ↦ do
      relative ← relative_name abs_root name
      elim (disk.secure_join abs_root relative) [
        | none ↦ err no_join
        | some secure_name ↦ elim (disk.lstat secure_name) [
          | none ↦ err (no_info secure_name)
          | some info ↦
              if is_dir info
              then ok
                  (dir_loader (new_secure_dir_loader abs_root relative (pos max_chart_file_size)))
              else ok (file_loader secure_name)
        ]
      ]
  ]

  -- `Load`; Helm's loaders of files and of an archive are arguments.
  unfoldable pub load_by {ℓ} :
      {C : Type ℓ}
      → (List BufferedFile → Option C)
      → (Text → Option C)
      → ℕ
      → ChartLoader
      → Result LoadError C
  unfolding secure_load_dir
  load_by load_files load_file levels (dir_loader l) =
      secure_load_dir disk load_files levels l.root l.path l.max_size
  load_by load_files load_file levels (file_loader name) = elim (load_file name) [
    | none ↦ err bad_chart
    | some c ↦ ok c
  ]

  unfoldable pub load {ℓ} :
      {C : Type ℓ}
      → (List BufferedFile → Option C)
      → (Text → Option C)
      → ℕ
      → Text
      → Text
      → Result LoadError C
  unfolding loader load_by
  load load_files load_file levels root name = do
    l ← loader root name
    load_by load_files load_file levels l
