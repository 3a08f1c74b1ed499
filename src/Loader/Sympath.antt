-- ===== src/Loader/Sympath.antt =====
-- internal/helm/chart/secureloader/sympath/walk.go: a walk over a directory that follows links.
use flux_build.Base.{
  ℕ, zero, suc, Bool, true, false, ◌&&◌, ◌||◌, Option, none, some, List, [], ◌∷◌, ◌==◌, nat_eq, ltb,
  if◌then◌else◌,
}
use flux_build.Base.Exec.{Exec, pure, fail, ◌>>=◌}
use flux_build.Base.Paths.{join_path}
use flux_build.Base.Results.{Result, ok, err}
use flux_build.Base.Text.{Text}
use flux_build.Loader.Types.{
  Disk, FileInfo, LoadError, skip_dir, no_info, cannot_evaluate, cannot_list, too_deep, is_dir,
  is_symlink,
}

-- The order of Go's strings, and `sort.Strings`
unfoldable pub text_leb : Text → Text → Bool
text_leb [] t = true
text_leb (b ∷ s) [] = false
text_leb (b ∷ s) (c ∷ t) = ltb b c || (b == c && text_leb s t)

unfoldable pub insert_text : Text → List Text → List Text
unfolding text_leb
insert_text s [] = s ∷ []
insert_text s (t ∷ ts) =
    let rest = insert_text s ts in if text_leb s t then s ∷ t ∷ ts else t ∷ rest

unfoldable pub sort_strings : List Text → List Text
unfolding insert_text
sort_strings [] = []
sort_strings (s ∷ ss) = insert_text s (sort_strings ss)

-- `readDirNames`
unfoldable pub read_dir_names : Disk → Text → Option (List Text)
unfolding sort_strings
read_dir_names disk dirname = elim (disk.read_dir_names dirname) [
  | none ↦ none
  | some names ↦ some (sort_strings names)
]

-- `filepath.SkipDir` where it ends no more than the directory
unfoldable pub forgive : Result LoadError (Unit {0}) → Result LoadError (Unit {0})
forgive (ok _) = ok tt
forgive (err skip_dir) = ok tt
forgive (err e) = err e

-- `AbsWalkFunc`: the information is not read beside an error.
abbrev pub AbsWalkFunc : Type 0 → Type 0
AbsWalkFunc S = Text → Text → Result LoadError FileInfo → Exec S LoadError (Unit {0})

abbrev pub Descent : Type 0 → Type 0
Descent S = Text → Text → FileInfo → Exec S LoadError (Unit {0})

module _ {S : Type 0} where
  unfoldable pub forgiven : Exec S LoadError (Unit {0}) → Exec S LoadError (Unit {0})
  unfolding forgive
  forgiven m s = (forgive (m s).0, (m s).1)

  module _ (disk : Disk) (walk_fn : AbsWalkFunc S) where
    -- The body of the loop, and the loop: `descend` walks what is below.
    unfoldable pub walk_name : Descent S → Text → Text → Exec S LoadError (Unit {0})
    unfolding forgiven
    walk_name descend filename abs_filename s = elim (disk.lstat filename) [
      | none ↦ forgiven (walk_fn filename abs_filename (err (no_info filename))) s
      | some info ↦
          if is_dir info || is_symlink info
          then forgiven (descend filename abs_filename info) s
          else descend filename abs_filename info s
    ]

    unfoldable pub walk_names : Descent S → Text → Text → List Text → Exec S LoadError (Unit {0})
    unfolding walk_name
    walk_names descend path abs_path [] = pure tt
    walk_names descend path abs_path (name ∷ names) = do
      _ ← walk_name descend (join_path path name) (join_path abs_path name)
      walk_names descend path abs_path names

    unfoldable pub list_dir : Descent S → Text → Text → Exec S LoadError (Unit {0})
    unfolding walk_names read_dir_names
    list_dir descend path abs_path s = elim (read_dir_names disk path) [
      | none ↦ walk_fn path abs_path (err (cannot_list path)) s
      | some names ↦ walk_names descend path abs_path names s
    ]

    unfoldable pub enter : Descent S → Descent S
    unfolding list_dir
    enter descend path abs_path info = do
      _ ← walk_fn path abs_path (ok info)
      if is_dir info then list_dir descend path abs_path else pure tt

    -- The link, with what it resolves to as the absolute path
    unfoldable pub follow : Descent S → Text → Exec S LoadError (Unit {0})
    unfolding forgiven
    follow descend path s = elim (disk.eval_symlinks path) [
      | none ↦ (err (cannot_evaluate path), s)
      | some resolved ↦ elim (disk.lstat resolved) [
        | none ↦ (err (no_info resolved), s)
        | some info ↦ forgiven (descend path resolved info) s
      ]
    ]

    -- `symwalk` down to a number of levels
    unfoldable pub symwalk : ℕ → Descent S
    unfolding enter follow
    symwalk zero path abs_path info = fail too_deep
    symwalk (suc levels) path abs_path info =
        if is_symlink info
        then follow (symwalk levels) path
        else enter (symwalk levels) path abs_path info

    -- `Walk`
    unfoldable pub walk : ℕ → Text → Exec S LoadError (Unit {0})
    unfolding symwalk forgiven
    walk levels root s = elim (disk.lstat root) [
      | none ↦ forgiven (walk_fn root root (err (no_info root))) s
      | some info ↦ forgiven (symwalk levels root root info) s
    ]
