-- ===== src/Loader/Complete.antt =====
-- internal/helm/chart/secureloader/sympath/walk.go: a walk that ends without an error has come to
-- everything that it could come to.
use flux_build.Base.{
  ℕ, zero, suc, true, false, ◌||◌, some, List, [], ◌∷◌, ◌≡◌, ◌≢◌, ◌⊎◌, refl, inl, inr, arith,
  Bool-cases, Option-cases, Memᴰ-nil, Memᴰ-cases,
}
use flux_build.Base.Exec.{Keeps}
use flux_build.Base.Paths.{join_path}
use flux_build.Base.Results.{Result, ok, err, Result-cases}
use flux_build.Base.Text.{Text}
use flux_build.Loader.Types.{Disk, FileInfo, LoadError, skip_dir, is_dir, is_symlink}
use flux_build.Loader.Sympath.{
  AbsWalkFunc, sort_strings, read_dir_names, forgive, forgiven, walk_name, walk_names, list_dir,
  enter, follow, symwalk, walk,
}
use flux_build.Loader.Kept.{walk_name-kept, walk_names-kept, list_dir-kept, symwalk-kept}
use flux_build.Loader.Visits.{Node, below_of, Visits, Memᴰ-read_dir_names}
use mathlib.Core.List.{Memᴰ}

-- A result that does not end the walk of what is around
pub IsFine : Result LoadError (Unit {0}) → Type 0
IsFine r = (r ≡ ok tt) ⊎ (r ≡ err skip_dir)

forgive-ne-skip : (r : Result LoadError (Unit {0})) → forgive r ≢ err skip_dir
unfolding forgive
forgive-ne-skip (ok u) = λ h. ground arith
forgive-ne-skip (err skip_dir) = λ h. ground arith
forgive-ne-skip (err e) = λ h. ground arith

forgive-IsFine : (r : Result LoadError (Unit {0})) → forgive r ≡ ok tt → IsFine r
unfolding forgive IsFine
forgive-IsFine (ok u) h = inl refl
forgive-IsFine (err skip_dir) h = inr refl
forgive-IsFine (err e) h = absurd (ground arith)

-- What a call of the walk's function does: it keeps `P`, and `Q` at each node; where it returns or
-- skips, `Q` holds at its node; it skips a directory that is not open, and nothing else.
pub record IsWalk {S : Type 0} (walk_fn : AbsWalkFunc S) (Open : Text → Type 0) (P : S → Type 0)
    (Q : Node → S → Type 0) : Type 0 where
  pub keeps :
      (path abs_path : Text) (seen : Result LoadError FileInfo)
      → Keeps P (walk_fn path abs_path seen)
  pub stays :
      (n : Node) (path abs_path : Text) (seen : Result LoadError FileInfo)
      → Keeps (Q n) (walk_fn path abs_path seen)
  pub came :
      (n : Node) (s : S)
      → P s
      → IsFine (walk_fn n.path n.abs_path (ok n.info) s).0
      → Q n (walk_fn n.path n.abs_path (ok n.info) s).1
  pub skipped :
      (n : Node) (s : S)
      → P s
      → (walk_fn n.path n.abs_path (ok n.info) s).0 ≡ err skip_dir
      → (is_dir n.info ≡ true) × (Open n.path → ⊥)

module _ {S : Type 0} (disk : Disk) (walk_fn : AbsWalkFunc S) (Open : Text → Type 0)
    (P : S → Type 0) (Q : Node → S → Type 0) (good : IsWalk walk_fn Open P Q) where
  -- Every step of the walk keeps what all calls keep.
  module _ (R : S → Type 0)
      (all : (path abs_path : Text) (seen : Result LoadError FileInfo)
        → Keeps R (walk_fn path abs_path seen)) where
    symwalk-Keeps :
        (levels : ℕ) (path abs_path : Text) (info : FileInfo)
        → Keeps R (symwalk disk walk_fn levels path abs_path info)
    symwalk-Keeps levels path abs_path info =
        symwalk-kept disk walk_fn (λ path. Unit {0}) R (λ path abs_path info s h went dir. tt)
          (λ path abs_path e. all path abs_path (err e)) levels
          (record { path = path; abs_path = abs_path; info = info })
          (λ n v. all n.path n.abs_path (ok n.info))

    walk_name-Keeps :
        (levels : ℕ) (path abs_path : Text)
        → Keeps R (walk_name disk walk_fn (symwalk disk walk_fn levels) path abs_path)
    walk_name-Keeps levels path abs_path =
        walk_name-kept disk walk_fn (λ path. Unit {0}) R (λ path abs_path info s h went dir. tt)
          (λ path abs_path e. all path abs_path (err e)) (symwalk disk walk_fn levels) path abs_path
          (λ info is. symwalk-Keeps levels path abs_path info)

    walk_names-Keeps :
        (levels : ℕ) (path abs_path : Text) (names : List Text)
        → Keeps R (walk_names disk walk_fn (symwalk disk walk_fn levels) path abs_path names)
    walk_names-Keeps levels path abs_path names =
        walk_names-kept disk walk_fn (λ path. Unit {0}) R (λ path abs_path info s h went dir. tt)
          (λ path abs_path e. all path abs_path (err e)) (symwalk disk walk_fn levels) path abs_path
          names (λ name info m is. symwalk-Keeps levels _ _ info)

    list_dir-Keeps :
        (levels : ℕ) (path abs_path : Text)
        → Keeps R (list_dir disk walk_fn (symwalk disk walk_fn levels) path abs_path)
    list_dir-Keeps levels path abs_path =
        list_dir-kept disk walk_fn (λ path. Unit {0}) R (λ path abs_path info s h went dir. tt)
          (λ path abs_path e. all path abs_path (err e)) (symwalk disk walk_fn levels) path abs_path
          (λ names name info read m is. symwalk-Keeps levels _ _ info)

  -- What is neither a directory nor a link does not skip the rest of its directory.
  symwalk-ne-skip :
      (levels : ℕ) (m : Node) (s : S)
      → P s
      → is_dir m.info ≡ false
      → is_symlink m.info ≡ false
      → (symwalk disk walk_fn levels m.path m.abs_path m.info s).0 ≢ err skip_dir
  unfolding symwalk enter
  symwalk-ne-skip zero m s h file plain = λ same. ground arith
  symwalk-ne-skip (suc levels) m s h file plain =
      rw plain (elim (Result-cases (walk_fn m.path m.abs_path (ok m.info) s).0) [
        | inl (u, went) ↦ rw (went, file) (λ same. ground arith)
        | inr (e, failed) ↦
            rw failed (λ same. let (dir, shut) = good.skipped m s h (ground arith) in ground arith)
      ])

  walk_name-ne-skip :
      (levels : ℕ) (path abs_path : Text) (s : S)
      → P s
      → (walk_name disk walk_fn (symwalk disk walk_fn levels) path abs_path s).0 ≢ err skip_dir
  unfolding walk_name forgiven
  walk_name-ne-skip levels path abs_path s h = elim (Option-cases (disk.lstat path)) [
    | inl absent ↦ rw (absent, walk_name) (forgive-ne-skip _)
    | inr (info, is) ↦ elim (Bool-cases (is_dir info || is_symlink info)) [
      | inl t ↦ rw (is, walk_name, t) (forgive-ne-skip _)
      | inr f ↦
          let file : is_dir info ≡ false = ground arith in
          let plain : is_symlink info ≡ false = ground arith in
          rw (is, walk_name, f)
            (symwalk-ne-skip levels (record { path = path; abs_path = abs_path; info = info }) s h
              file plain)
    ]
  ]

  abbrev Reaches : ℕ → Type 0
  Reaches levels =
      (m : Node) (s : S)
      → P s
      → IsFine (symwalk disk walk_fn levels m.path m.abs_path m.info s).0
      → (n : Node) → Visits disk Open m n
      → Q n (symwalk disk walk_fn levels m.path m.abs_path m.info s).1

  -- A name that was walked without an error
  walk_name-reaches :
      (levels : ℕ) (path abs_path : Text) (info : FileInfo) (s : S) (n : Node)
      → Reaches levels
      → P s
      → (walk_name disk walk_fn (symwalk disk walk_fn levels) path abs_path s).0 ≡ ok tt
      → disk.lstat path ≡ some info
      → Visits disk Open (record { path = path; abs_path = abs_path; info = info }) n
      → Q n (walk_name disk walk_fn (symwalk disk walk_fn levels) path abs_path s).1
  unfolding walk_name forgiven IsFine
  walk_name-reaches levels path abs_path info s n ih h went is v =
      let m : Node = record { path = path; abs_path = abs_path; info = info } in
      elim (Bool-cases (is_dir info || is_symlink info)) [
        | inl t ↦
            rw (is, walk_name, t) (ih m s h (forgive-IsFine _ (rw (is, walk_name, t) at went)) n v)
        | inr f ↦ rw (is, walk_name, f) (ih m s h (inl (rw (is, walk_name, f) at went)) n v)
      ]

  walk_names-reaches :
      (levels : ℕ) (path abs_path : Text) (names : List Text) (s : S) (n : Node) (name : Text)
      (info : FileInfo)
      → Reaches levels
      → P s
      → IsFine (walk_names disk walk_fn (symwalk disk walk_fn levels) path abs_path names s).0
      → Memᴰ name names
      → disk.lstat (join_path path name) ≡ some info
      → Visits disk Open
          (record { path = join_path path name; abs_path = join_path abs_path name; info = info })
          n
      → Q n (walk_names disk walk_fn (symwalk disk walk_fn levels) path abs_path names s).1
  unfolding walk_names IsFine
  walk_names-reaches levels path abs_path [] s n name info ih h fine m is v = absurd (Memᴰ-nil m)
  walk_names-reaches levels path abs_path (x ∷ xs) s n name info ih h fine m is v =
      let first =
        walk_name disk walk_fn (symwalk disk walk_fn levels) (join_path path x)
          (join_path abs_path x) s in
      elim (Result-cases first.0) [
        | inr (e, failed) ↦ absurd (
            walk_name-ne-skip levels (join_path path x) (join_path abs_path x) s h
              (elim (rw failed at fine) [ inl good ↦ ground arith | inr skip ↦ ground arith ]))
        | inl (u, went) ↦
            let h' : P first.1 = (walk_name-Keeps P good.keeps levels _ _).at s h in
            rw went (elim (Memᴰ-cases m) [
              | inl e ↦ (walk_names-Keeps (Q n) (good.stays n) levels path abs_path xs).at first.1 (
                  walk_name-reaches levels (join_path path x) (join_path abs_path x) info s n ih h
                    went (rw e at is) (rw e at v))
              | inr later ↦
                  walk_names-reaches levels path abs_path xs first.1 n name info ih h'
                    (rw went at fine) later is v
            ])
      ]

  enter-here :
      (levels : ℕ) (m : Node) (s : S)
      → P s
      → IsFine (enter disk walk_fn (symwalk disk walk_fn levels) m.path m.abs_path m.info s).0
      → Q m (enter disk walk_fn (symwalk disk walk_fn levels) m.path m.abs_path m.info s).1
  unfolding enter IsFine
  enter-here levels m s h fine = elim (Result-cases (walk_fn m.path m.abs_path (ok m.info) s).0) [
    | inr (e, failed) ↦ rw failed (
        good.came m s h
          (rw failed (elim (rw failed at fine) [ inl good ↦ inl good | inr skip ↦ inr skip ])))
    | inl (u, went) ↦
        let here = good.came m s h (inl went) in
        elim (Bool-cases (is_dir m.info)) [
          | inr file ↦ rw (went, file) here
          | inl dir ↦ rw (went, dir) ((list_dir-Keeps (Q m) (good.stays m) levels _ _).at _ here)
        ]
  ]

  enter-below :
      (levels : ℕ) (m n : Node) (s : S) (names : List Text) (name : Text) (info : FileInfo)
      → Reaches levels
      → P s
      → IsFine (enter disk walk_fn (symwalk disk walk_fn levels) m.path m.abs_path m.info s).0
      → is_dir m.info ≡ true
      → Open m.path
      → disk.read_dir_names m.path ≡ some names
      → Memᴰ name names
      → disk.lstat (join_path m.path name) ≡ some info
      → Visits disk Open (below_of m name info) n
      → Q n (enter disk walk_fn (symwalk disk walk_fn levels) m.path m.abs_path m.info s).1
  unfolding enter IsFine list_dir read_dir_names
  enter-below levels m n s listed name info ih h fine dir is_open read in_list is v =
      let first = walk_fn m.path m.abs_path (ok m.info) s in
      elim (Result-cases first.0) [
        | inr (e, failed) ↦ absurd (elim (rw failed at fine) [
          | inl good ↦ ground arith
          | inr skip ↦ let (d, shut) = good.skipped m s h (ground arith) in shut is_open
        ])
        | inl (u, went) ↦
            let h' : P first.1 = (good.keeps m.path m.abs_path (ok m.info)).at s h in
            let sorted : read_dir_names disk m.path ≡ some (sort_strings listed) =
              rw (read, read_dir_names) refl in
            rw (went, dir, list_dir, sorted)
              (walk_names-reaches levels m.path m.abs_path (sort_strings listed) first.1 n name info
                ih h' (rw (went, dir, list_dir, sorted) at fine)
                (Memᴰ-read_dir_names disk m.path (sort_strings listed) listed name sorted read
                  in_list)
                is v)
      ]

  symwalk-Reaches : (levels : ℕ) → Reaches levels
  unfolding symwalk follow forgiven IsFine
  symwalk-Reaches zero m s h fine n v =
      absurd (elim fine [ inl e ↦ ground arith | inr e ↦ ground arith ])
  symwalk-Reaches (suc levels) m s h fine n (Visits.here plain e) =
      rw (← e) (rw plain (enter-here levels m s h (rw plain at fine)))
  symwalk-Reaches (suc levels) m s h fine n (Visits.through resolved info link is found v) =
      let target : Node = record { path = m.path; abs_path = resolved; info = info } in
      let fine' = rw (link, follow, is, found) at fine in
      rw (link, follow, is, found)
        (symwalk-Reaches levels target s h
          (forgive-IsFine _
            (elim fine' [ inl good ↦ good | inr skip ↦ absurd (forgive-ne-skip _ skip) ]))
          n v)
  symwalk-Reaches (suc levels) m s h fine n
        (Visits.below names name info plain dir is_open read in_list is v) =
      rw plain (
        enter-below levels m n s names name info (symwalk-Reaches levels) h (rw plain at fine) dir
          is_open read in_list is v)

  -- After a walk without an error, what holds where the walk's function was called holds of all
  -- that there is to come to.
  pub walk-reaches :
      (levels : ℕ) (root : Text) (s : S) (info : FileInfo) (n : Node)
      → P s
      → (walk disk walk_fn levels root s).0 ≡ ok tt
      → disk.lstat root ≡ some info
      → Visits disk Open (record { path = root; abs_path = root; info = info }) n
      → Q n (walk disk walk_fn levels root s).1
  unfolding walk forgiven
  walk-reaches levels root s info n h went is v =
      let top : Node = record { path = root; abs_path = root; info = info } in
      rw (is, walk) (symwalk-Reaches levels top s h (forgive-IsFine _ (rw (is, walk) at went)) n v)
