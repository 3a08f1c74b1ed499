-- ===== src/Loader/Finite.antt =====
-- internal/helm/chart/secureloader/directory.go: a chart's directory is walked to the end.
use flux_build.Base.{
  ℕ, ◌<◌, Bool, true, false, some, List, ◌++◌, ◌≡◌, ◌≢◌, inl, inr, arith, Option-cases, Bool-cases,
}
use flux_build.Base.Paths.{clean, join_path, is_abs}
use flux_build.Base.Results.{Result, ok, err, Result-cases}
use flux_build.Base.Text.{Text, codes}
use flux_build.Ignore.{parse}
use flux_build.Loader.Types.{
  ℤ, FileInfo, Disk, StatResult, exists, not_exist, stat_failed, LoadError, too_deep, is_dir,
  is_symlink,
}
use flux_build.Loader.Directory.{
  SecureFileWalker, is_secure_absolute_path, size_check, read_data, check_file, check_dir,
  append_file, visit_dir, visit_file, visit_kind, visit, walk_at, walk_file, walk_chart, parse_file,
  rules_at, secure_load_ignore_rules, relative_to, files_of, load_dir_files, new_secure_file_walker,
}
use flux_build.Loader.Ends.{walk-Ends}
use mathlib.Core.List.{Memᴰ}

module _ (disk : Disk) where
  check_file-ne-deep :
      (w : SecureFileWalker) (n abs_path : Text) (info : FileInfo)
      → check_file disk w n abs_path info ≢ err too_deep
  unfolding check_file size_check read_data
  check_file-ne-deep w n abs_path info = λ same.
      elim (Result-cases (is_secure_absolute_path disk w.root abs_path)) [
        | inr (e, outside) ↦ ground arith
        | inl (b, inside) ↦ elim (Option-cases (disk.read_file abs_path)) [
          | inl unread ↦ ground arith
          | inr (c, is) ↦ ground arith
        ]
      ]

  visit_dir-ne-deep :
      (ignored : Bool) (n abs_path : Text) (w : SecureFileWalker)
      → (visit_dir disk ignored n abs_path w).0 ≢ err too_deep
  unfolding visit_dir check_dir
  visit_dir-ne-deep true n abs_path w = λ same. ground arith
  visit_dir-ne-deep false n abs_path w = λ same.
      elim (Result-cases (is_secure_absolute_path disk w.root abs_path)) [
        | inr (e, outside) ↦ ground arith
        | inl (b, inside) ↦ ground arith
      ]

  append_file-ne-deep :
      (n : Text) (r : Result LoadError Text) (w : SecureFileWalker)
      → r ≢ err too_deep
      → (append_file n r w).0 ≢ err too_deep
  unfolding append_file
  append_file-ne-deep n (ok content) w other = λ same. ground arith
  append_file-ne-deep n (err e) w other = λ same. other (ground arith)

  visit_file-ne-deep :
      (ignored : Bool) (n abs_path : Text) (info : FileInfo) (w : SecureFileWalker)
      → (visit_file disk ignored n abs_path info w).0 ≢ err too_deep
  unfolding visit_file
  visit_file-ne-deep true n abs_path info w = λ same. ground arith
  visit_file-ne-deep false n abs_path info w =
      append_file-ne-deep n _ w (check_file-ne-deep w n abs_path info)

  visit_kind-ne-deep :
      (dir : Bool) (n abs_path : Text) (info : FileInfo) (w : SecureFileWalker)
      → (visit_kind disk dir n abs_path info w).0 ≢ err too_deep
  unfolding visit_kind
  visit_kind-ne-deep true n abs_path info w = visit_dir-ne-deep _ n abs_path _
  visit_kind-ne-deep false n abs_path info w = visit_file-ne-deep _ n abs_path info _

  walk_at-ne-deep :
      (at_top : Bool) (n abs_path : Text) (seen : Result LoadError FileInfo) (w : SecureFileWalker)
      → seen ≢ err too_deep
      → (walk_at disk at_top n abs_path seen w).0 ≢ err too_deep
  unfolding walk_at visit
  walk_at-ne-deep true n abs_path seen w other = λ same. ground arith
  walk_at-ne-deep false n abs_path (err e) w other = λ same. other (ground arith)
  walk_at-ne-deep false n abs_path (ok info) w other = visit_kind-ne-deep _ n abs_path info w

  walk_file-ne-deep :
      (path abs_path : Text) (seen : Result LoadError FileInfo) (w : SecureFileWalker)
      → seen ≢ err too_deep
      → (walk_file disk path abs_path seen w).0 ≢ err too_deep
  unfolding walk_file
  walk_file-ne-deep path abs_path seen w other = walk_at-ne-deep _ _ abs_path seen w other

  relative_to-ne-deep : (root path : Text) → relative_to disk root path ≢ err too_deep
  unfolding relative_to
  relative_to-ne-deep root path = λ same. elim (Bool-cases (is_abs path)) [
    | inl absolute ↦ elim (Option-cases (disk.rel root path)) [
      | inl unknown ↦ ground arith
      | inr (relative, is) ↦ ground arith
    ]
    | inr relative ↦ ground arith
  ]

  files_of-ne-deep :
      (r : Result LoadError (Unit {0}) × SecureFileWalker)
      → r.0 ≢ err too_deep
      → files_of r ≢ err too_deep
  unfolding files_of
  files_of-ne-deep (ok u, w) other = λ same. ground arith
  files_of-ne-deep (err e, w) other = λ same. other (ground arith)

  parse_file-ne-deep : (file : Text) → parse_file disk file ≢ err too_deep
  unfolding parse_file
  parse_file-ne-deep file = λ same. elim (Option-cases (disk.lines file)) [
    | inl unread ↦ ground arith
    | inr ((lines, scanned), is) ↦ elim (Option-cases (parse lines scanned).1) [
      | inl good ↦ ground arith
      | inr (e, bad) ↦ ground arith
    ]
  ]

  rules_at-ne-deep : (s : StatResult) (file : Text) → rules_at disk s file ≢ err too_deep
  unfolding rules_at
  rules_at-ne-deep stat_failed file = λ same. ground arith
  rules_at-ne-deep not_exist file = λ same. ground arith
  rules_at-ne-deep exists file = λ same. elim (Result-cases (parse_file disk file)) [
    | inl (rules, good) ↦ ground arith
    | inr (e, bad) ↦ parse_file-ne-deep file (ground arith)
  ]

  rules-ne-deep : (root path : Text) → secure_load_ignore_rules disk root path ≢ err too_deep
  unfolding secure_load_ignore_rules
  rules-ne-deep root path = λ same.
      elim (Option-cases (disk.secure_join root (join_path path (codes ".helmignore")))) [
        | inl outside ↦ ground arith
        | inr (file, is) ↦ rules_at-ne-deep (disk.stat file) file (ground arith)
      ]

  -- If what is in a directory, and what a link resolves to, always has a smaller rank, a chart's
  -- directory of a rank below the number of levels is walked to the end: loading it returns its files
  -- or an error of the code.
  pub load_dir_files-ne-too_deep :
      (rank : Text → FileInfo → ℕ) (levels : ℕ) (root path : Text) (max_size : ℤ)
      → ((path resolved : Text) (link info : FileInfo)
          → is_symlink link ≡ true
          → disk.eval_symlinks path ≡ some resolved
          → disk.lstat resolved ≡ some info
          → rank path info < rank path link)
      → ((path name : Text) (dir info : FileInfo) (names : List Text)
          → is_dir dir ≡ true
          → disk.read_dir_names path ≡ some names
          → Memᴰ name names
          → disk.lstat (join_path path name) ≡ some info
          → rank (join_path path name) info < rank path dir)
      → ((chart : Text) (info : FileInfo)
          → disk.lstat (clean chart ++ codes "/") ≡ some info
          → rank (clean chart ++ codes "/") info < levels)
      → load_dir_files disk levels root path max_size ≢ err too_deep
  unfolding load_dir_files walk_chart new_secure_file_walker
  load_dir_files-ne-too_deep rank levels root path max_size resolves smaller enough = λ same.
      elim (Option-cases (disk.abs root)) [
        | inl unknown ↦ ground arith
        | inr (abs_root, absolute) ↦ elim (Result-cases (relative_to disk abs_root path)) [
          | inr (e, failed) ↦ relative_to-ne-deep abs_root path (ground arith)
          | inl (relative, rel) ↦ elim (Option-cases (disk.secure_join abs_root relative)) [
            | inl outside ↦ ground arith
            | inr (chart, joined) ↦
                elim (Result-cases (secure_load_ignore_rules disk abs_root relative)) [
                  | inr (e, failed) ↦ rules-ne-deep abs_root relative (ground arith)
                  | inl (rules, ruled) ↦
                      files_of-ne-deep (walk_chart disk levels abs_root chart max_size rules)
                        (walk-Ends disk (walk_file disk)
                          (λ path abs_path seen w. walk_file-ne-deep path abs_path seen w) rank
                          resolves smaller levels (clean chart ++ codes "/") (enough chart) _)
                        (rw (load_dir_files, absolute, rel, joined, ruled) at same)
                ]
          ]
        ]
      ]
