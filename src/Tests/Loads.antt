-- ===== src/Tests/Loads.antt =====
-- A chart's directory loaded from a small disk.
use flux_build.Loader.Types.{is_regular}
use flux_build.Base.Text.{trim_suffix}
use flux_build.Base.Text.{has_suffix}
use flux_build.Ignore.Glob.{glob_match}
use flux_build.Base.Text.{contains_text}
use flux_build.Base.Text.{trim}
use flux_build.Base.Paths.{is_abs}
use flux_build.Base.{
  ℕ, ◌<◌, true, false, Option, none, some, List, [], ◌∷◌, ◌++◌, ◌==◌, nat_eq, ◌≡◌, ◌≢◌, ◌↔◌, refl,
  inl, inr, arith, All, if◌then◌else◌, Bool-cases, Memᴰ-cases, Memᴰ-nil,
}
use flux_build.Base.Paths.{clean, join_path}
use flux_build.Base.Results.{ok, err}
use flux_build.Base.Text.{Text, codes, text_eq, text_iff, has_prefix, trim_prefix}
use flux_build.Ignore.{Pattern, add_defaults}
use flux_build.Ignore.Steady.{IsSteady}
use flux_build.Loader.Types.{
  pos, regular, directory, FileInfo, not_exist, Disk, too_deep, is_dir, is_symlink,
}
use flux_build.Loader.Directory.{
  BufferedFile, relative_to, secure_load_ignore_rules, load_dir_files,
}
use flux_build.Loader.Finite.{load_dir_files-ne-too_deep}
use flux_build.Loader.Loads.{IsFound, load_dir_files_iff}
use mathlib.Core.List.{Memᴰ}

abbrev lstat_of : Text → Option FileInfo
lstat_of path =
    if path == codes "/r/c/"
    then some (record { kind = directory; size = 0 })
    else if path == codes "/r/c/v"
    then some (record { kind = regular; size = 3 })
    else none

abbrev disk : Disk
disk = record {
  abs = λ path. some path;
  rel = λ root path. some (trim_prefix path (root ++ codes "/"));
  secure_join = λ root path. some (join_path root path);
  lstat = lstat_of;
  stat = λ path. not_exist;
  eval_symlinks = λ path. none;
  read_dir_names = λ path. if path == codes "/r/c/" then some (codes "v" ∷ []) else none;
  read_file = λ path. some (239 ∷ 187 ∷ 191 ∷ codes "a:");
  lines = λ path. none;
}

abbrev file : BufferedFile
file = record { name = codes "v"; data_of = codes "a:" }

run : load_dir_files disk 2 (codes "/r") (codes "c") (pos 10) ≡ ok (file ∷ [])
unfolding load_dir_files is_abs text_eq clean join_path is_symlink trim_prefix is_dir trim
    contains_text glob_match has_suffix trim_suffix is_regular
run = refl

abbrev rules : List Pattern
rules = add_defaults []

ruled : secure_load_ignore_rules disk (codes "/r") (codes "c") ≡ ok rules
unfolding secure_load_ignore_rules
ruled = refl

rules-IsSteady : All IsSteady rules
unfolding IsSteady has_prefix add_defaults trim contains_text glob_match trim_suffix
rules-IsSteady = (refl, tt)

related : relative_to disk (codes "/r") (codes "c") ≡ ok (codes "c")
unfolding relative_to is_abs
related = refl

joined : disk.secure_join (codes "/r") (codes "c") ≡ some (codes "/r/c")
unfolding join_path
joined = refl

load_dir_files_iff_example :
    Memᴰ file (file ∷ [])
    ↔ IsFound disk (codes "/r") (clean (codes "/r/c") ++ codes "/") (pos 10) rules file
load_dir_files_iff_example =
    load_dir_files_iff disk 2 (codes "/r") (codes "c") (codes "/r") (codes "c") (codes "/r/c")
      (pos 10) rules (file ∷ []) file refl related joined ruled rules-IsSteady run

abbrev rank : Text → FileInfo → ℕ
rank path info = if is_dir info then 1 else 0

resolves :
    (path resolved : Text) (link info : FileInfo)
    → is_symlink link ≡ true
    → disk.eval_symlinks path ≡ some resolved
    → disk.lstat resolved ≡ some info
    → rank path info < rank path link
resolves path resolved link info is evaluated found = absurd (ground arith)

regular-rank : (info : FileInfo) → info.kind ≡ regular → is_dir info ≡ false
unfolding is_dir
regular-rank info e = rw e refl

smaller :
    (path name : Text) (dir info : FileInfo) (names : List Text)
    → is_dir dir ≡ true
    → disk.read_dir_names path ≡ some names
    → Memᴰ name names
    → disk.lstat (join_path path name) ≡ some info
    → rank (join_path path name) info < rank path dir
unfolding join_path clean text_eq
smaller path name dir info names is read m found = elim (Bool-cases (path == codes "/r/c/")) [
  | inr other ↦ absurd (ground arith)
  | inl t ↦
      let top : path ≡ codes "/r/c/" = (text_iff path (codes "/r/c/")).0 t in
      let listed : names ≡ codes "v" ∷ [] = ground arith in
      elim (Memᴰ-cases (rw listed at m)) [
        | inr more ↦ absurd (Memᴰ-nil more)
        | inl v ↦
            let at_v : lstat_of (codes "/r/c/v") ≡ some info = rw (top, v) at found in
            let kind : info.kind ≡ regular = ground arith in
            let file : is_dir info ≡ false = regular-rank info kind in rw (is, file) (omega arith)
      ]
]

enough :
    (chart : Text) (info : FileInfo)
    → disk.lstat (clean chart ++ codes "/") ≡ some info
    → rank (clean chart ++ codes "/") info < 2
enough chart info found = elim (Bool-cases (is_dir info)) [
  | inl dir ↦ rw dir (omega arith)
  | inr other ↦ rw other (omega arith)
]

load_dir_files-ne-too_deep_example :
    load_dir_files disk 2 (codes "/r") (codes "c") (pos 10) ≢ err too_deep
load_dir_files-ne-too_deep_example =
    load_dir_files-ne-too_deep disk rank 2 (codes "/r") (codes "c") (pos 10) resolves smaller enough
