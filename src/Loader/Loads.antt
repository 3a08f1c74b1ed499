-- ===== src/Loader/Loads.antt =====
-- internal/helm/chart/secureloader/directory.go: the files of a chart are those that the walk comes to,
-- less what is ignored.
use flux_build.Base.{
  ℕ, Bool, true, false, some, List, [], ◌++◌, ◌≡◌, ◌↔◌, refl, inl, inr, arith, All, Memᴰ-nil,
}
use flux_build.Base.Exec.{Keeps}
use flux_build.Base.Paths.{clean}
use flux_build.Base.Results.{Result, ok, err}
use flux_build.Base.Text.{Text, codes, trim_prefix}
use flux_build.Ignore.{Pattern}
use flux_build.Ignore.Steady.{IsSteady}
use flux_build.Loader.Types.{ℤ, FileInfo, Disk, LoadError}
use flux_build.Loader.Directory.{
  BufferedFile, SecureFileWalker, walk_at, walk_file, walk_chart, new_secure_file_walker,
  load_dir_files, relative_to, secure_load_ignore_rules, files_of,
}
use flux_build.Loader.Complete.{IsWalk, walk-reaches}
use flux_build.Loader.Exact.{walk_file-adds, walk_file-loads, walk_file-opens, walk_file-skips}
use flux_build.Loader.Files.{IsLoaded, IsOpen, IsRunning, walk_file-IsRunning, walk_file-stays}
use flux_build.Loader.Kept.{walk-kept}
use flux_build.Loader.Sympath.{walk}
use flux_build.Loader.Visits.{Node, Visits}
use mathlib.Core.List.{Memᴰ}

abbrev top_node : Text → FileInfo → Node
top_node top info = record { path = top; abs_path = top; info = info }

-- A file of the chart: the walk comes to it from the chart's directory, and it is to be loaded.
pub IsFound : Disk → Text → Text → ℤ → List Pattern → BufferedFile → Type 0
IsFound disk root top max_size rules f =
    (info : FileInfo) × (disk.lstat top ≡ some info)
    × (n : Node) × Visits disk (IsOpen top rules) (top_node top info) n
    × IsLoaded disk root max_size rules (trim_prefix n.path top) n.abs_path n.info f

module _ (disk : Disk) (root top : Text) (max_size : ℤ) (rules : List Pattern) where
  record IsExact (w : SecureFileWalker) : Type 0 where
    running : IsRunning root top max_size rules w
    exact : (f : BufferedFile) → Memᴰ f w.files → IsFound disk root top max_size rules f

  walk_at-failing :
      (at_top : Bool) (n abs_path : Text) (e : LoadError)
      → Keeps IsExact (walk_at disk at_top n abs_path (err e))
  unfolding walk_at
  walk_at-failing true n abs_path e = record { at = λ w h. h }
  walk_at-failing false n abs_path e = record { at = λ w h. h }

  walk_file-failing :
      (path abs_path : Text) (e : LoadError) → Keeps IsExact (walk_file disk path abs_path (err e))
  unfolding walk_file
  walk_file-failing path abs_path e = record { at = λ w h. (walk_at-failing _ _ abs_path e).at w h }

  walk_file-visit :
      (info : FileInfo) (n : Node)
      → disk.lstat top ≡ some info
      → Visits disk (IsOpen top rules) (top_node top info) n
      → Keeps IsExact (walk_file disk n.path n.abs_path (ok n.info))
  unfolding IsFound
  walk_file-visit info n is v = record {
    at = λ w h. record {
      running =
          (walk_file-IsRunning disk root top max_size rules n.path n.abs_path _).at w h.running;
      exact = λ f m. elim (walk_file-adds disk root top max_size rules f n w h.running m) [
        | inl before ↦ h.exact f before
        | inr loaded ↦ (info, is, n, v, loaded)
      ];
    };
  }

  walk_file-IsWalk :
      IsWalk (walk_file disk) (IsOpen top rules) (IsRunning root top max_size rules) (λ n w.
        (f : BufferedFile)
        → IsLoaded disk root max_size rules (trim_prefix n.path top) n.abs_path n.info f
        → Memᴰ f w.files)
  walk_file-IsWalk = record {
    keeps = walk_file-IsRunning disk root top max_size rules;
    stays = λ n path abs_path seen. record {
      at = λ w h f loaded.
          (walk_file-stays disk root top max_size rules f path abs_path seen).at w (h f loaded);
    };
    came = λ n w running fine f loaded.
        walk_file-loads disk root top max_size rules f n w running loaded;
    skipped = λ n w running skip.
        walk_file-skips disk root top max_size rules n.path n.abs_path n.info w running skip;
  }

  walk_iff :
      (levels : ℕ) (w : SecureFileWalker) (f : BufferedFile)
      → IsRunning root top max_size rules w
      → w.files ≡ []
      → (walk disk (walk_file disk) levels top w).0 ≡ ok tt
      → Memᴰ f (walk disk (walk_file disk) levels top w).1.files
        ↔ IsFound disk root top max_size rules f
  unfolding IsFound
  walk_iff levels w f running empty went =
      let start : IsExact w = record {
        running = running;
        exact = λ g m. absurd (Memᴰ-nil (rw empty at m));
      } in
      let kept =
        walk-kept disk (walk_file disk) (IsOpen top rules) IsExact
          (λ path abs_path info s h.
            walk_file-opens disk root top max_size rules path abs_path info s h.running)
          walk_file-failing levels top walk_file-visit in
      (
        (kept.at w start).exact f,
        λ (info, is, n, v, loaded).
            walk-reaches disk (walk_file disk) (IsOpen top rules)
              (IsRunning root top max_size rules) _ walk_file-IsWalk levels top w info n running
              went is v f loaded,
      )

files_of-eq-ok :
    (r : Result LoadError (Unit {0}) × SecureFileWalker) (files : List BufferedFile)
    → files_of r ≡ ok files
    → (r.0 ≡ ok tt) × (r.1.files ≡ files)
unfolding files_of
files_of-eq-ok (ok u, w) files h = (refl, ground arith)
files_of-eq-ok (err e, w) files h = absurd (ground arith)

-- If no rule begins with two slashes, a chart's directory that loads gives a file exactly if the walk
-- comes to it through directories that are not ignored, and links, and it is not ignored itself; such
-- a file is regular, inside the root and within the limit, and has the content that is read, less a
-- byte order mark.
pub load_dir_files_iff :
    (disk : Disk) (levels : ℕ) (root path abs_root relative chart : Text) (max_size : ℤ)
    (rules : List Pattern) (files : List BufferedFile) (f : BufferedFile)
    → disk.abs root ≡ some abs_root
    → relative_to disk abs_root path ≡ ok relative
    → disk.secure_join abs_root relative ≡ some chart
    → secure_load_ignore_rules disk abs_root relative ≡ ok rules
    → All IsSteady rules
    → load_dir_files disk levels root path max_size ≡ ok files
    → Memᴰ f files ↔ IsFound disk abs_root (clean chart ++ codes "/") max_size rules f
unfolding load_dir_files walk_chart new_secure_file_walker
load_dir_files_iff disk levels root path abs_root relative chart max_size rules files f absolute rel
      joined ruled steady loaded =
    let w = new_secure_file_walker abs_root chart max_size rules in
    let walked = walk_chart disk levels abs_root chart max_size rules in
    let running : IsRunning abs_root (clean chart ++ codes "/") max_size rules w = record {
      same_root = refl;
      same_top = refl;
      same_size = refl;
      steady = steady;
      same = λ n d. refl;
    } in
    let (went, is) =
      files_of-eq-ok walked files (rw (load_dir_files, absolute, rel, joined, ruled) at loaded) in
    rw (← is) (
      walk_iff disk abs_root (clean chart ++ codes "/") max_size rules levels w f running refl went)
