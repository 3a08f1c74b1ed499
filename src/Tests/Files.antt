-- ===== src/Tests/Files.antt =====
-- Renaming and copying on a small file system, and long paths, at concrete inputs.
use flux_build.Base.{
  ℕ, ◌+◌, ◌≤◌, Bool, true, false, none, some, [], ◌∷◌, ◌==◌, ◌≡◌, refl, arith, if◌then◌else◌,
  length, nat_eq,
}
use flux_build.Base.Results.{err}
use flux_build.Base.Text.{Text, codes, text_eq}
use flux_build.Fs.{
  other_rename_error, absent, directory, file, other_error, Os, rename_with_fallback,
}
use flux_build.Fs.LongPath.{fix_long_path, fix_long_path-length}
use flux_build.Fs.Source.{IsKept, rename_with_fallback-kept}

-- The world says whether the source is there. The directory `s` has a directory `d`.
abbrev top : Text
top = codes "s"

abbrev small_os : Os
small_os = record {
  World = Bool;
  stat = λ w path. if path == codes "t" then absent else file;
  lstat = λ w path. directory;
  rename = λ from to w. (other_error, w);
  remove_all = λ path w. (true, false);
  mkdir_all = λ path w. (true, w);
  read_dir = λ w path. if path == top then some ((codes "d", true) ∷ []) else some [];
  read_link = λ w path. none;
  make_symlink = λ to path w. (true, w);
  open_source = λ w path. true;
  create = λ path w. (true, w);
  copy = λ src dst w. (true, w);
  close_target = λ path w. (true, w);
  close_source = λ path w. (true, w);
  chmod = λ path w. (true, w);
}

abbrev IsThere : Bool → Type 0
IsThere w = w ≡ true

small_os-IsKept : IsKept small_os IsThere
small_os-IsKept = record {
  rename = λ from to w other h. h;
  mkdir_all = λ path w h. h;
  make_symlink = λ to path w h. h;
  create = λ path w h. h;
  copy = λ src dst w h. h;
  close_target = λ path w h. h;
  close_source = λ path w h. h;
  chmod = λ path w h. h;
}

rename_failed :
    (rename_with_fallback small_os 2 (codes "a") (codes "b") true).0 ≡ err other_rename_error
unfolding rename_with_fallback text_eq
rename_failed = refl

rename_with_fallback-kept_example :
    (rename_with_fallback small_os 2 (codes "a") (codes "b") true).1 ≡ true
rename_with_fallback-kept_example =
    rename_with_fallback-kept small_os IsThere small_os-IsKept 2 (codes "a") (codes "b") true
      other_rename_error rename_failed (λ same. ground arith) refl

abbrev is_separator : ℕ → Bool
is_separator b = b == 92

fix_long_path-length_example :
    length (fix_long_path is_separator (codes "c:\\windows")) ≤ length (codes "c:\\windows") + 4
fix_long_path-length_example = fix_long_path-length is_separator (codes "c:\\windows")
