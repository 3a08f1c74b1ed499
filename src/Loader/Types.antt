-- ===== src/Loader/Types.antt =====
-- What internal/helm/chart/secureloader asks the file system, and `securejoin`: the disk is read while a
-- chart is loaded, and not written.
use flux_build.Base.{ℕ, Bool, true, false, Option, List}
use flux_build.Base.Text.{Text}

-- Go's `int64`, on the native numbers
pub data ℤ : Type 0 where
  pos : ℕ → ℤ
  negsuc : ℕ → ℤ

pub data FileKind : Type 0 where
  regular directory symlink irregular : FileKind

-- `fs.FileInfo`
pub record FileInfo : Type 0 where
  pub kind : FileKind
  pub size : ℕ

-- `os.Stat`, with the test for `fs.ErrNotExist`
pub data StatResult : Type 0 where
  exists not_exist stat_failed : StatResult

-- `lines` is the file opened and scanned: its lines, and whether the scanner ended without an error.
pub record Disk : Type 0 where
  pub abs : Text → Option Text
  pub rel : Text → Text → Option Text
  pub secure_join : Text → Text → Option Text
  pub lstat : Text → Option FileInfo
  pub stat : Text → StatResult
  pub eval_symlinks : Text → Option Text
  pub read_dir_names : Text → Option (List Text)
  pub read_file : Text → Option Text
  pub lines : Text → Option (List Text × Bool)

pub data BoundaryError : Type 0 where
  no_relative_path no_secure_path : BoundaryError
  traverses : Text → BoundaryError

pub data LoadError : Type 0 where
  skip_dir : LoadError  -- `filepath.SkipDir`
  no_info cannot_evaluate cannot_list : Text → LoadError
  insecure_directory insecure_file : Text → BoundaryError → LoadError
  irregular_file cannot_read : Text → LoadError
  too_large : Text → ℕ → ℤ → LoadError
  no_abs no_rel no_join bad_rules bad_chart : LoadError
  too_deep : LoadError  -- the levels of the model have run out

unfoldable pub is_dir : FileInfo → Bool
is_dir info = elim info.kind [
  | directory ↦ true
  | regular ↦ false
  | symlink ↦ false
  | irregular ↦ false
]

-- `IsSymlink` of sympath
unfoldable pub is_symlink : FileInfo → Bool
is_symlink info = elim info.kind [
  | symlink ↦ true
  | regular ↦ false
  | directory ↦ false
  | irregular ↦ false
]

unfoldable pub is_regular : FileInfo → Bool
is_regular info = elim info.kind [
  | regular ↦ true
  | symlink ↦ false
  | directory ↦ false
  | irregular ↦ false
]
