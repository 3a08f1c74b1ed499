-- ===== src/Loader/Ends.antt =====
-- internal/helm/chart/secureloader/sympath/walk.go: the number of levels that the model is given is
-- enough.
use flux_build.Base.{
  ℕ, zero, suc, ◌<◌, true, ◌||◌, some, List, [], ◌∷◌, ◌≡◌, ◌≢◌, refl, inl, inr, arith, Bool-cases,
  Option-cases,
}
use flux_build.Base.Exec.{Exec}
use flux_build.Base.Paths.{join_path}
use flux_build.Base.Results.{Result, ok, err, Result-cases}
use flux_build.Base.Text.{Text}
use flux_build.Loader.Types.{
  Disk, FileInfo, LoadError, skip_dir, no_info, cannot_list, too_deep, is_dir, is_symlink,
}
use flux_build.Loader.Sympath.{
  AbsWalkFunc, Descent, read_dir_names, forgive, forgiven, walk_name, walk_names, list_dir, enter,
  follow, symwalk, walk,
}
use flux_build.Loader.Visits.{read_dir_names-Memᴰ}
use mathlib.Core.List.{Memᴰ}

forgive-ne-deep : (r : Result LoadError (Unit {0})) → r ≢ err too_deep → forgive r ≢ err too_deep
unfolding forgive
forgive-ne-deep (ok u) fine = λ same. ground arith
forgive-ne-deep (err skip_dir) fine = λ same. ground arith
forgive-ne-deep (err e) fine = λ same. fine (ground arith)

module _ {S : Type 0} (disk : Disk) (walk_fn : AbsWalkFunc S)
    (honest : (path abs_path : Text) (seen : Result LoadError FileInfo) (s : S)
      → seen ≢ err too_deep
      → (walk_fn path abs_path seen s).0 ≢ err too_deep) where
  -- A walk that does not run out of levels
  abbrev Ends : Exec S LoadError (Unit {0}) → Type 0
  Ends m = (s : S) → (m s).0 ≢ err too_deep

  walk_name-Ends :
      (descend : Descent S) (filename abs_filename : Text)
      → ((info : FileInfo)
          → disk.lstat filename ≡ some info
          → Ends (descend filename abs_filename info))
      → Ends (walk_name disk walk_fn descend filename abs_filename)
  unfolding walk_name forgiven
  walk_name-Ends descend filename abs_filename down s = elim (Option-cases (disk.lstat filename)) [
    | inl absent ↦
        rw (absent, walk_name)
          (forgive-ne-deep _
            (honest filename abs_filename (err (no_info filename)) s (λ same. ground arith)))
    | inr (info, is) ↦
        let ends = down info is s in
        elim (Bool-cases (is_dir info || is_symlink info)) [
          | inl t ↦ rw (is, walk_name, t) (forgive-ne-deep _ ends)
          | inr f ↦ rw (is, walk_name, f) ends
        ]
  ]

  walk_names-Ends :
      (descend : Descent S) (path abs_path : Text) (names : List Text)
      → ((name : Text) (info : FileInfo)
          → Memᴰ name names
          → disk.lstat (join_path path name) ≡ some info
          → Ends (descend (join_path path name) (join_path abs_path name) info))
      → Ends (walk_names disk walk_fn descend path abs_path names)
  unfolding walk_names
  walk_names-Ends descend path abs_path [] down s = λ same. ground arith
  walk_names-Ends descend path abs_path (name ∷ names) down s =
      let first =
        walk_name-Ends descend (join_path path name) (join_path abs_path name)
          (λ info. down name info (Memᴰ.head refl)) s in
      elim (Result-cases
        (walk_name disk walk_fn descend (join_path path name) (join_path abs_path name) s).0) [
          | inr (e, failed) ↦ rw failed (λ same. first (ground arith))
          | inl (u, went) ↦ rw went (
              walk_names-Ends descend path abs_path names
                (λ other info m. down other info (Memᴰ.tail m)) _)
        ]

  list_dir-Ends :
      (descend : Descent S) (path abs_path : Text)
      → ((names : List Text) (name : Text) (info : FileInfo)
          → disk.read_dir_names path ≡ some names
          → Memᴰ name names
          → disk.lstat (join_path path name) ≡ some info
          → Ends (descend (join_path path name) (join_path abs_path name) info))
      → Ends (list_dir disk walk_fn descend path abs_path)
  unfolding list_dir
  list_dir-Ends descend path abs_path down s = elim (Option-cases (read_dir_names disk path)) [
    | inl unread ↦
        rw (unread, list_dir)
          (honest path abs_path (err (cannot_list path)) s (λ same. ground arith))
    | inr (names, read) ↦
        rw (read, list_dir)
          (walk_names-Ends descend path abs_path names
            (λ name info m is.
              let (listed, from, in_list) = read_dir_names-Memᴰ disk path names name read m in
              down listed name info from in_list is)
            s)
  ]

  module _ (rank : Text → FileInfo → ℕ)
      (resolves : (path resolved : Text) (link info : FileInfo)
        → is_symlink link ≡ true
        → disk.eval_symlinks path ≡ some resolved
        → disk.lstat resolved ≡ some info
        → rank path info < rank path link)
      (smaller : (path name : Text) (dir info : FileInfo) (names : List Text)
        → is_dir dir ≡ true
        → disk.read_dir_names path ≡ some names
        → Memᴰ name names
        → disk.lstat (join_path path name) ≡ some info
        → rank (join_path path name) info < rank path dir) where
    symwalk-Ends :
        (levels : ℕ) (path abs_path : Text) (info : FileInfo)
        → rank path info < levels
        → Ends (symwalk disk walk_fn levels path abs_path info)
    unfolding symwalk enter follow forgiven
    symwalk-Ends zero path abs_path info below s = absurd (omega arith)
    symwalk-Ends (suc levels) path abs_path info below s = elim (Bool-cases (is_symlink info)) [
      | inl link ↦ elim (Option-cases (disk.eval_symlinks path)) [
        | inl unknown ↦ rw (link, follow, unknown) (λ same. ground arith)
        | inr (resolved, is) ↦ elim (Option-cases (disk.lstat resolved)) [
          | inl absent ↦ rw (link, follow, is, absent) (λ same. ground arith)
          | inr (target, found) ↦
              let less = resolves path resolved info target link is found in
              rw (link, follow, is, found)
                (forgive-ne-deep _ (symwalk-Ends levels path resolved target (omega arith) s))
        ]
      ]
      | inr plain ↦
          let first = honest path abs_path (ok info) s (λ same. ground arith) in
          elim (Result-cases (walk_fn path abs_path (ok info) s).0) [
            | inr (e, failed) ↦ rw (plain, failed) (λ same. first (ground arith))
            | inl (u, went) ↦ elim (Bool-cases (is_dir info)) [
              | inr file ↦ rw (plain, went, file) (λ same. ground arith)
              | inl dir ↦
                  rw (plain, went, dir)
                    (list_dir-Ends (symwalk disk walk_fn levels) path abs_path
                      (λ names name i read m is.
                        let less = smaller path name info i names dir read m is in
                        symwalk-Ends levels (join_path path name) (join_path abs_path name) i
                          (omega arith))
                      _)
            ]
          ]
    ]

    pub walk-Ends :
        (levels : ℕ) (root : Text)
        → ((info : FileInfo) → disk.lstat root ≡ some info → rank root info < levels)
        → Ends (walk disk walk_fn levels root)
    unfolding walk forgiven
    walk-Ends levels root below s = elim (Option-cases (disk.lstat root)) [
      | inl absent ↦
          rw (absent, walk)
            (forgive-ne-deep _ (honest root root (err (no_info root)) s (λ same. ground arith)))
      | inr (info, is) ↦
          rw (is, walk) (forgive-ne-deep _ (symwalk-Ends levels root root info (below info is) s))
    ]
