-- ===== src/Loader/Kept.antt =====
-- internal/helm/chart/secureloader/sympath/walk.go: what every call of the walk's function keeps, the
-- walk keeps.
use flux_build.Base.{
  ℕ, zero, suc, true, ◌||◌, some, List, [], ◌∷◌, ◌≡◌, refl, inl, inr, Bool-cases, Option-cases,
}
use flux_build.Base.Exec.{Keeps, Keeps-bind}
use flux_build.Base.Paths.{join_path}
use flux_build.Base.Results.{ok, err, Result-cases}
use flux_build.Base.Text.{Text}
use flux_build.Loader.Types.{Disk, FileInfo, LoadError, no_info, cannot_list, is_dir, is_symlink}
use flux_build.Loader.Sympath.{
  AbsWalkFunc, Descent, read_dir_names, forgiven, walk_name, walk_names, list_dir, enter, follow,
  symwalk, walk,
}
use flux_build.Loader.Visits.{Node, below_of, Visits, read_dir_names-Memᴰ}
use mathlib.Core.List.{Memᴰ}

module _ {S : Type 0} (disk : Disk) (walk_fn : AbsWalkFunc S) (Open : Text → Type 0)
    (P : S → Type 0)
    (opened : (path abs_path : Text) (info : FileInfo) (s : S)
      → P s
      → (walk_fn path abs_path (ok info) s).0 ≡ ok tt
      → is_dir info ≡ true
      → Open path)
    (failing : (path abs_path : Text) (e : LoadError)
      → Keeps P (walk_fn path abs_path (err e))) where
  pub walk_name-kept :
      (descend : Descent S) (filename abs_filename : Text)
      → ((info : FileInfo)
          → disk.lstat filename ≡ some info
          → Keeps P (descend filename abs_filename info))
      → Keeps P (walk_name disk walk_fn descend filename abs_filename)
  unfolding walk_name forgiven
  walk_name-kept descend filename abs_filename down = record {
    at = λ s h. elim (Option-cases (disk.lstat filename)) [
      | inl absent ↦
          rw (absent, walk_name) ((failing filename abs_filename (no_info filename)).at s h)
      | inr (info, is) ↦
          let kept = (down info is).at s h in
          elim (Bool-cases (is_dir info || is_symlink info)) [
            | inl t ↦ rw (is, walk_name, t) kept
            | inr f ↦ rw (is, walk_name, f) kept
          ]
    ];
  }

  pub walk_names-kept :
      (descend : Descent S) (path abs_path : Text) (names : List Text)
      → ((name : Text) (info : FileInfo)
          → Memᴰ name names
          → disk.lstat (join_path path name) ≡ some info
          → Keeps P (descend (join_path path name) (join_path abs_path name) info))
      → Keeps P (walk_names disk walk_fn descend path abs_path names)
  unfolding walk_names
  walk_names-kept descend path abs_path [] down = record { at = λ s h. h }
  walk_names-kept descend path abs_path (name ∷ names) down =
      Keeps-bind (walk_name disk walk_fn descend (join_path path name) (join_path abs_path name)) _
        (walk_name-kept descend (join_path path name) (join_path abs_path name)
          (λ info. down name info (Memᴰ.head refl)))
        (λ u.
          walk_names-kept descend path abs_path names
            (λ other info m. down other info (Memᴰ.tail m)))

  pub list_dir-kept :
      (descend : Descent S) (path abs_path : Text)
      → ((names : List Text) (name : Text) (info : FileInfo)
          → disk.read_dir_names path ≡ some names
          → Memᴰ name names
          → disk.lstat (join_path path name) ≡ some info
          → Keeps P (descend (join_path path name) (join_path abs_path name) info))
      → Keeps P (list_dir disk walk_fn descend path abs_path)
  unfolding list_dir
  list_dir-kept descend path abs_path down = record {
    at = λ s h. elim (Option-cases (read_dir_names disk path)) [
      | inl unread ↦ rw (unread, list_dir) ((failing path abs_path (cannot_list path)).at s h)
      | inr (names, read) ↦
          rw (read, list_dir)
            ((walk_names-kept descend path abs_path names (λ name info m is.
                let (listed, from, in_list) = read_dir_names-Memᴰ disk path names name read m in
                down listed name info from in_list is)).at
              s h)
    ];
  }

  follow-kept :
      (descend : Descent S) (path : Text)
      → ((resolved : Text) (info : FileInfo)
          → disk.eval_symlinks path ≡ some resolved
          → disk.lstat resolved ≡ some info
          → Keeps P (descend path resolved info))
      → Keeps P (follow disk walk_fn descend path)
  unfolding follow forgiven
  follow-kept descend path down = record {
    at = λ s h. elim (Option-cases (disk.eval_symlinks path)) [
      | inl unknown ↦ rw (unknown, follow) h
      | inr (resolved, is) ↦ elim (Option-cases (disk.lstat resolved)) [
        | inl absent ↦ rw (is, follow, absent) h
        | inr (info, found) ↦ rw (is, follow, found) ((down resolved info is found).at s h)
      ]
    ];
  }

  enter-kept :
      (descend : Descent S) (path abs_path : Text) (info : FileInfo)
      → Keeps P (walk_fn path abs_path (ok info))
      → ((is_dir info ≡ true) → Open path → Keeps P (list_dir disk walk_fn descend path abs_path))
      → Keeps P (enter disk walk_fn descend path abs_path info)
  unfolding enter
  enter-kept descend path abs_path info first later = record {
    at = λ s h.
        let kept = first.at s h in
        elim (Result-cases (walk_fn path abs_path (ok info) s).0) [
          | inr (e, failed) ↦ rw failed kept
          | inl (u, went) ↦ elim (Bool-cases (is_dir info)) [
            | inr file ↦ rw (went, file) kept
            | inl dir ↦
                let is_open = opened path abs_path info s h went dir in
                rw (went, dir) ((later dir is_open).at _ kept)
          ]
        ];
  }

  pub symwalk-kept :
      (levels : ℕ) (m : Node)
      → ((n : Node) → Visits disk Open m n → Keeps P (walk_fn n.path n.abs_path (ok n.info)))
      → Keeps P (symwalk disk walk_fn levels m.path m.abs_path m.info)
  unfolding symwalk
  symwalk-kept zero m visit = record { at = λ s h. h }
  symwalk-kept (suc levels) m visit = elim (Bool-cases (is_symlink m.info)) [
    | inl link ↦ rw link (
        follow-kept (symwalk disk walk_fn levels) m.path (λ resolved info is found.
          let target : Node = record { path = m.path; abs_path = resolved; info = info } in
          symwalk-kept levels target
            (λ n v. visit n (Visits.through resolved info link is found v))))
    | inr plain ↦ rw plain (
        enter-kept (symwalk disk walk_fn levels) m.path m.abs_path m.info
          (visit m (Visits.here plain refl))
          (λ dir is_open.
            list_dir-kept (symwalk disk walk_fn levels) m.path m.abs_path
              (λ names name info read in_list is. symwalk-kept levels (below_of m name info) (λ n v.
                visit n (Visits.below names name info plain dir is_open read in_list is v)))))
  ]

  -- The walk keeps what its function keeps where it comes to.
  pub walk-kept :
      (levels : ℕ) (root : Text)
      → ((info : FileInfo) (n : Node)
          → disk.lstat root ≡ some info
          → Visits disk Open (record { path = root; abs_path = root; info = info }) n
          → Keeps P (walk_fn n.path n.abs_path (ok n.info)))
      → Keeps P (walk disk walk_fn levels root)
  unfolding walk forgiven
  walk-kept levels root visit = record {
    at = λ s h. elim (Option-cases (disk.lstat root)) [
      | inl absent ↦ rw (absent, walk) ((failing root root (no_info root)).at s h)
      | inr (info, is) ↦
          let top : Node = record { path = root; abs_path = root; info = info } in
          rw (is, walk) ((symwalk-kept levels top (λ n v. visit info n is v)).at s h)
    ];
  }
