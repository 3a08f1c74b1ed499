-- ===== src/Fs.antt =====
-- internal/fs/fs.go and internal/fs/rename.go: renaming, with a copy where a device is crossed. `Os` is
-- the package os on Unix, and the branches for Windows are left out.
pub mod LongPath
pub mod Ends
pub mod Source
use flux_build.Base.{
  ℕ, zero, suc, Bool, true, false, not, Option, none, some, List, [], ◌∷◌, if◌then◌else◌,
}
use flux_build.Base.Exec.{Exec, pure, fail, lift, ◌>>=◌}
use flux_build.Base.Paths.{clean, join_path}
use flux_build.Base.Results.{Result, ok, err}
use flux_build.Base.Text.{Text}

pub data FsError : Type 0 where
  cannot_stat other_rename_error link_error cannot_delete : FsError
  lstat_failed src_not_dir dst_stat_failed dst_exists mkdir_failed read_dir_failed : FsError
  read_link_failed symlink_failed open_failed create_failed copy_failed close_failed chmod_failed :
      FsError
  too_deep : FsError  -- the fuel of the model has run out

-- `os.Stat` and `os.Lstat`
pub data Probe : Type 0 where
  absent probe_failed directory file symlink : Probe

pub data Renamed : Type 0 where
  renamed cross_device other_link_error other_error : Renamed

pub record Os : Type 1 where
  pub World : Type 0
  pub stat : World → Text → Probe
  pub lstat : World → Text → Probe
  pub rename : Text → Text → World → Renamed × World
  pub remove_all : Text → World → Bool × World
  pub mkdir_all : Text → World → Bool × World
  pub read_dir : World → Text → Option (List (Text × Bool))
  pub read_link : World → Text → Option Text
  pub make_symlink : Text → Text → World → Bool × World
  pub open_source : World → Text → Bool
  pub create : Text → World → Bool × World
  pub copy : Text → Text → World → Bool × World
  pub close_target : Text → World → Bool × World
  pub close_source : Text → World → Bool × World
  pub chmod : Text → World → Bool × World

unfoldable pub stat_check : Probe → Result FsError (Unit {0})
stat_check absent = err cannot_stat
stat_check probe_failed = err cannot_stat
stat_check _ = ok tt

unfoldable pub source_check : Probe → Result FsError (Unit {0})
source_check absent = err lstat_failed
source_check probe_failed = err lstat_failed
source_check directory = ok tt
source_check _ = err src_not_dir

unfoldable pub target_check : Probe → Result FsError (Unit {0})
target_check absent = ok tt
target_check probe_failed = err dst_stat_failed
target_check _ = err dst_exists

unfoldable pub symlink_check : Probe → Result FsError Bool
symlink_check symlink = ok true
symlink_check directory = ok false
symlink_check file = ok false
symlink_check _ = err lstat_failed

module _ (os : Os) where
  abbrev pub Action : Type 0 → Type 0
  Action A = Exec os.World FsError A

  -- A call that says whether it worked
  unfoldable pub call : (os.World → Bool × os.World) → FsError → Action (Unit {0})
  call f e w = let (good, w') = f w in (if good then ok tt else err e, w')

  unfoldable pub is_dir : os.World → Text → Bool
  is_dir w name = elim (os.stat w name) [
    | directory ↦ true
    | absent ↦ false
    | probe_failed ↦ false
    | file ↦ false
    | symlink ↦ false
  ]

  -- `IsSymlink`
  unfoldable pub is_symlink : os.World → Text → Result FsError Bool
  unfolding symlink_check
  is_symlink w path = symlink_check (os.lstat w path)

  -- `cloneSymlink`
  unfoldable pub clone_to : Option Text → Text → Action (Unit {0})
  unfolding call
  clone_to none dst = fail read_link_failed
  clone_to (some resolved) dst = call (os.make_symlink resolved dst) symlink_failed

  unfoldable pub clone_symlink : Text → Text → Action (Unit {0})
  unfolding clone_to
  clone_symlink sl dst w = clone_to (os.read_link w sl) dst w

  unfoldable pub check_stat : Text → Action (Unit {0})
  unfolding stat_check
  check_stat path w = (stat_check (os.stat w path), w)

  -- The target is closed, whether or not the copy worked.
  unfoldable pub copy_data : Text → Text → Action (Unit {0})
  unfolding call
  copy_data src dst w =
      let (good, w') = os.copy src dst w in
      if good
      then call (os.close_target dst) close_failed w'
      else (err copy_failed, (os.close_target dst w').1)

  -- The copy to an open source's target
  unfoldable pub copy_open : Text → Text → Action (Unit {0})
  unfolding call check_stat copy_data
  copy_open src dst = do
    _ ← call (os.create dst) create_failed
    _ ← copy_data src dst
    _ ← check_stat src
    call (os.chmod dst) chmod_failed

  -- The source is closed at the end; an error of that shows if there is no other.
  unfoldable pub then_close : Text → Result FsError (Unit {0}) → Action (Unit {0})
  unfolding call
  then_close src (ok _) w = call (os.close_source src) close_failed w
  then_close src (err e) w = (err e, (os.close_source src w).1)

  unfoldable pub copy_contents : Text → Text → Action (Unit {0})
  unfolding copy_open then_close
  copy_contents src dst w =
      if os.open_source w src
      then (let (r, w') = copy_open src dst w in then_close src r w')
      else (err open_failed, w)

  -- `copyFile`
  unfoldable pub copy_by : Result FsError Bool → Text → Text → Action (Unit {0})
  unfolding clone_symlink copy_contents
  copy_by (err e) src dst = fail e
  copy_by (ok true) src dst = clone_symlink src dst
  copy_by (ok false) src dst = copy_contents src dst

  unfoldable pub copy_file : Text → Text → Action (Unit {0})
  unfolding is_symlink copy_by
  copy_file src dst w = copy_by (is_symlink w src) src dst w

  -- The checks of `CopyDir`
  unfoldable pub check_source : Text → Action (Unit {0})
  unfolding source_check
  check_source src w = (source_check (os.lstat w src), w)

  unfoldable pub check_target : Text → Action (Unit {0})
  unfolding target_check
  check_target dst w = (target_check (os.stat w dst), w)

  unfoldable pub entries_of : Text → Action (List (Text × Bool))
  entries_of src w =
      (elim (os.read_dir w src) [ none ↦ err read_dir_failed | some entries ↦ ok entries ], w)

  -- The loop over the entries: `descend` copies a directory below.
  unfoldable pub copy_entries :
      (Text → Text → Action (Unit {0})) → Text → Text → List (Text × Bool) → Action (Unit {0})
  unfolding copy_file
  copy_entries descend src dst [] = pure tt
  copy_entries descend src dst ((name, is_directory) ∷ entries) = do
    _ ←
        if is_directory
        then descend (join_path src name) (join_path dst name)
        else copy_file (join_path src name) (join_path dst name)
    copy_entries descend src dst entries

  -- `CopyDir` down to a number of levels
  unfoldable pub copy_dir : ℕ → Text → Text → Action (Unit {0})
  unfolding check_source check_target entries_of copy_entries call
  copy_dir zero src dst = fail too_deep
  copy_dir (suc depth) src dst = do
    _ ← check_source (clean src)
    _ ← check_target (clean dst)
    _ ← call (os.mkdir_all (clean dst)) mkdir_failed
    entries ← entries_of (clean src)
    copy_entries (copy_dir depth) (clean src) (clean dst) entries

  unfoldable pub copy_any : ℕ → Text → Text → Action (Unit {0})
  unfolding copy_dir copy_file is_dir
  copy_any depth src dst w = if is_dir w src then copy_dir depth src dst w else copy_file src dst w

  -- `renameByCopy`
  unfoldable pub rename_by_copy : ℕ → Text → Text → Action (Unit {0})
  unfolding copy_any call
  rename_by_copy depth src dst = do
    _ ← copy_any depth src dst
    call (os.remove_all src) cannot_delete

  -- `renameFallback`
  unfoldable pub rename_fallback : ℕ → Renamed → Text → Text → Action (Unit {0})
  rename_fallback depth renamed src dst = pure tt
  rename_fallback depth cross_device src dst = rename_by_copy depth src dst
  rename_fallback depth other_link_error src dst = fail link_error
  rename_fallback depth other_error src dst = fail other_rename_error

  -- `RenameWithFallback`
  unfoldable pub rename_with_fallback : ℕ → Text → Text → Action (Unit {0})
  unfolding rename_fallback check_stat
  rename_with_fallback depth src dst = do
    _ ← check_stat src
    result ← λ w. let (r, w') = os.rename src dst w in (ok r, w')
    rename_fallback depth result src dst
