-- ===== src/Loader/Directory.antt =====
-- internal/helm/chart/secureloader/directory.go: a chart loaded from a directory, and no file from outside
-- the root.
use flux_build.Base.{
  ℕ, zero, Bool, true, false, not, ◌&&◌, Option, none, some, List, [], ◌∷◌, ◌++◌, ◌==◌, ltb,
  if◌then◌else◌,
}
use flux_build.Base.Exec.{Exec}
use flux_build.Base.Paths.{clean, is_abs, join_path}
use flux_build.Base.Results.{Result, ok, err, ◌>>=◌, map_err}
use flux_build.Base.Text.{Text, codes, text_eq, is_empty, trim_prefix}
use flux_build.Chart.Metadata.{max_chart_file_size}
use flux_build.Ignore.{Pattern, parse, add_defaults, ignore}
use flux_build.Loader.Types.{
  ℤ, pos, negsuc, FileInfo, StatResult, exists, not_exist, stat_failed, Disk, BoundaryError,
  no_relative_path, no_secure_path, traverses, LoadError, skip_dir, insecure_directory,
  insecure_file, irregular_file, cannot_read, too_large, no_abs, no_rel, no_join, bad_rules,
  bad_chart, is_dir, is_regular,
}
use flux_build.Loader.Sympath.{walk}

pub record SecureDirLoader : Type 0 where
  pub root : Text
  pub path : Text
  pub max_size : ℤ

unfoldable pub new_secure_dir_loader : Text → Text → ℤ → SecureDirLoader
new_secure_dir_loader root path (pos zero) = record {
  root = root;
  path = path;
  max_size = pos max_chart_file_size;
}
new_secure_dir_loader root path max_size = record { root = root; path = path; max_size = max_size }

-- `loader.BufferedFile`
pub record BufferedFile : Type 0 where
  pub name : Text
  pub data_of : Text

pub record SecureFileWalker : Type 0 where
  pub root : Text
  pub abs_chart_path : Text
  pub max_size : ℤ
  pub rules : List Pattern
  pub files : List BufferedFile

unfoldable pub new_secure_file_walker : Text → Text → ℤ → List Pattern → SecureFileWalker
new_secure_file_walker root abs_chart_path max_size rules = record {
  root = root;
  abs_chart_path = clean abs_chart_path ++ codes "/";
  max_size = max_size;
  rules = rules;
  files = [];
}

abbrev pub utf8bom : Text
utf8bom = 239 ∷ 187 ∷ 191 ∷ []

-- Whether a file is larger than the limit, if there is one
unfoldable pub exceeds : ℤ → ℕ → Bool
exceeds (pos max_size) size = ltb 0 max_size && ltb max_size size
exceeds (negsuc _) size = false

-- What is checked of a file that is not ignored
unfoldable pub size_check : SecureFileWalker → Text → FileInfo → Result LoadError (Unit {0})
unfolding exceeds
size_check w n info =
    if not (is_regular info)
    then err (irregular_file n)
    else if exceeds w.max_size info.size
    then err (too_large n info.size w.max_size)
    else ok tt

unfoldable pub append_file :
    Text → Result LoadError Text → SecureFileWalker → Result LoadError (Unit {0}) × SecureFileWalker
append_file n (err e) w = (err e, w)
append_file n (ok content) w =
    (ok tt, record w { files = w.files ++ (record { name = n; data_of = content } ∷ []) })

unfoldable pub files_of :
    Result LoadError (Unit {0}) × SecureFileWalker → Result LoadError (List BufferedFile)
files_of (ok _, w) = ok w.files
files_of (err e, w) = err e

module _ (disk : Disk) where
  -- `isSecureAbsolutePath`
  unfoldable pub is_secure_absolute_path : Text → Text → Result BoundaryError Bool
  is_secure_absolute_path root abs_path =
      if clean root == codes "/" then ok true else elim (disk.rel (clean root) (clean abs_path)) [
        | none ↦ err no_relative_path
        | some unsafe_path ↦ elim (disk.secure_join (clean root) unsafe_path) [
          | none ↦ err no_secure_path
          | some safe_path ↦
              if safe_path == clean abs_path then ok true else err (traverses unsafe_path)
        ]
      ]

  unfoldable pub read_data : Text → Text → Result LoadError Text
  read_data n abs_name = elim (disk.read_file abs_name) [
    | none ↦ err (cannot_read n)
    | some content ↦ ok (trim_prefix content utf8bom)
  ]

  unfoldable pub check_file : SecureFileWalker → Text → Text → FileInfo → Result LoadError Text
  unfolding size_check read_data is_secure_absolute_path
  check_file w n abs_name info = do
    _ ← map_err (insecure_file n) (is_secure_absolute_path w.root abs_name)
    _ ← size_check w n info
    read_data n abs_name

  unfoldable pub check_dir : SecureFileWalker → Text → Text → Result LoadError (Unit {0})
  unfolding is_secure_absolute_path
  check_dir w n abs_name = do
    _ ← map_err (insecure_directory n) (is_secure_absolute_path w.root abs_name)
    ok tt

  -- What is done once the rules were asked, for a directory and for another file
  unfoldable pub visit_dir : Bool → Text → Text → Exec SecureFileWalker LoadError (Unit {0})
  unfolding check_dir
  visit_dir true n abs_name w = (err skip_dir, w)
  visit_dir false n abs_name w = (check_dir w n abs_name, w)

  unfoldable pub visit_file :
      Bool → Text → Text → FileInfo → Exec SecureFileWalker LoadError (Unit {0})
  unfolding check_file append_file
  visit_file true n abs_name info w = (ok tt, w)
  visit_file false n abs_name info w = append_file n (check_file w n abs_name info) w

  -- The first argument says whether it is a directory.
  unfoldable pub visit_kind :
      Bool → Text → Text → FileInfo → Exec SecureFileWalker LoadError (Unit {0})
  unfolding visit_dir visit_file ignore
  visit_kind true n abs_name info w =
      let (ignored, rules) = ignore w.rules n true in
      visit_dir ignored n abs_name (record w { rules = rules })
  visit_kind false n abs_name info w =
      let (ignored, rules) = ignore w.rules n false in
      visit_file ignored n abs_name info (record w { rules = rules })

  unfoldable pub visit : Text → Text → FileInfo → Exec SecureFileWalker LoadError (Unit {0})
  unfolding visit_kind
  visit n abs_name info w = visit_kind (is_dir info) n abs_name info w

  -- `walk` of the walker: the first argument of `walk_at` says whether it is at the top level.
  unfoldable pub walk_at :
      Bool → Text → Text → Result LoadError FileInfo → Exec SecureFileWalker LoadError (Unit {0})
  unfolding visit
  walk_at true n abs_name seen w = (ok tt, w)
  walk_at false n abs_name (err e) w = (err e, w)
  walk_at false n abs_name (ok info) w = visit n abs_name info w

  unfoldable pub walk_file :
      Text → Text → Result LoadError FileInfo → Exec SecureFileWalker LoadError (Unit {0})
  unfolding walk_at
  walk_file name abs_name seen w =
      let n = trim_prefix name w.abs_chart_path in walk_at (is_empty n) n abs_name seen w

  -- `secureLoadIgnoreRules`, with `ParseFile` of the ignore rules
  unfoldable pub parse_file : Text → Result LoadError (List Pattern)
  unfolding parse
  parse_file file = elim (disk.lines file) [
    | none ↦ err bad_rules
    | some (lines, scanned) ↦ elim (parse lines scanned).1 [
      | some _ ↦ err bad_rules
      | none ↦ ok (parse lines scanned).0
    ]
  ]

  -- The rules for what `os.Stat` says of the file
  unfoldable pub rules_at : StatResult → Text → Result LoadError (List Pattern)
  unfolding parse_file add_defaults
  rules_at stat_failed file = err bad_rules
  rules_at not_exist file = ok (add_defaults [])
  rules_at exists file = do rules ← parse_file file; ok (add_defaults rules)

  unfoldable pub secure_load_ignore_rules : Text → Text → Result LoadError (List Pattern)
  unfolding rules_at
  secure_load_ignore_rules root chart_path =
      elim (disk.secure_join root (join_path chart_path (codes ".helmignore"))) [
        | none ↦ err no_join
        | some file ↦ rules_at (disk.stat file) file
      ]

  -- The walk, and the files that it leaves
  unfoldable pub walk_chart :
      ℕ → Text → Text → ℤ → List Pattern → Result LoadError (Unit {0}) × SecureFileWalker
  unfolding walk walk_file new_secure_file_walker
  walk_chart levels root abs_chart_name max_size rules =
      let walker = new_secure_file_walker root abs_chart_name max_size rules in
      walk disk walk_file levels walker.abs_chart_path walker

  unfoldable pub relative_to : Text → Text → Result LoadError Text
  relative_to root path =
      if is_abs path
      then (elim (disk.rel root path) [ none ↦ err no_rel | some relative ↦ ok relative ])
      else ok path

  -- `SecureLoadDir`, up to Helm's `loader.LoadFiles`
  unfoldable pub load_dir_files : ℕ → Text → Text → ℤ → Result LoadError (List BufferedFile)
  unfolding walk_chart secure_load_ignore_rules relative_to files_of
  load_dir_files levels root path max_size = elim (disk.abs root) [
    | none ↦ err no_abs
    | some abs_root ↦ do
      relative ← relative_to abs_root path
      elim (disk.secure_join abs_root relative) [
        | none ↦ err no_join
        | some abs_chart_name ↦ do
          rules ← secure_load_ignore_rules abs_root relative
          files_of (walk_chart levels abs_root abs_chart_name max_size rules)
      ]
  ]

  unfoldable pub secure_load_dir {ℓ} :
      {C : Type ℓ} → (List BufferedFile → Option C) → ℕ → Text → Text → ℤ → Result LoadError C
  unfolding load_dir_files
  secure_load_dir load_files levels root path max_size = do
    files ← load_dir_files levels root path max_size
    elim (load_files files) [ none ↦ err bad_chart | some c ↦ ok c ]
