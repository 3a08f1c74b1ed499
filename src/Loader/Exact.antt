-- ===== src/Loader/Exact.antt =====
-- internal/helm/chart/secureloader/directory.go: a chart is loaded from the files that are not ignored,
-- and from no others.
use flux_build.Base.{
  Bool, true, false, List, ◌≡◌, ◌≢◌, ◌⊎◌, refl, inl, inr, arith, ap, ◌∙◌, sym, Bool-cases,
  Option-cases, Memᴰ-nil, Memᴰ-cases,
}
use flux_build.Base.Results.{Result, ok, err, Result-cases}
use flux_build.Base.Text.{Text, text_eq, is_empty, trim_prefix}
use flux_build.Ignore.{Pattern, ignore}
use flux_build.Loader.Types.{ℤ, FileInfo, Disk, LoadError, is_dir, skip_dir}
use flux_build.Loader.Directory.{
  BufferedFile, SecureFileWalker, exceeds, is_secure_absolute_path, check_file, check_dir,
  size_check, read_data, append_file, visit_dir, visit_file, visit_kind, visit, walk_at, walk_file,
}
use flux_build.Loader.Files.{IsLoaded, IsOpen, IsRunning, check_file_iff, IsRunning-asked}
use flux_build.Loader.Visits.{Node}
use mathlib.Core.List.{Memᴰ}
use mathlib.Core.List.Memᴰ

module _ (disk : Disk) (root top : Text) (max_size : ℤ) (rules : List Pattern) where
  append_file-adds :
      (f : BufferedFile) (n : Text) (r : Result LoadError Text) (w : SecureFileWalker)
      → Memᴰ f (append_file n r w).1.files
      → Memᴰ f w.files ⊎ (r ≡ ok f.data_of) × (f.name ≡ n)
  unfolding append_file
  append_file-adds f n (err e) w m = inl m
  append_file-adds f n (ok content) w m = elim (Memᴰ.append_cases w.files m) [
    | inl before ↦ inl before
    | inr last ↦ elim (Memᴰ-cases last) [
      | inl e ↦ inr (ap ok (sym (ap (λ g. g.data_of) e)), ap (λ g. g.name) e)
      | inr more ↦ absurd (Memᴰ-nil more)
    ]
  ]

  visit_dir-adds :
      (f : BufferedFile) (ignored : Bool) (n abs_path : Text) (w : SecureFileWalker)
      → Memᴰ f (visit_dir disk ignored n abs_path w).1.files
      → Memᴰ f w.files
  unfolding visit_dir
  visit_dir-adds f true n abs_path w m = m
  visit_dir-adds f false n abs_path w m = m

  visit_file-adds :
      (f : BufferedFile) (ignored : Bool) (n abs_path : Text) (info : FileInfo)
      (w : SecureFileWalker)
      → IsRunning root top max_size rules w
      → is_dir info ≡ false
      → is_empty n ≡ false
      → ignored ≡ (ignore rules n false).0
      → Memᴰ f (visit_file disk ignored n abs_path info w).1.files
      → Memᴰ f w.files ⊎ IsLoaded disk root max_size rules n abs_path info f
  unfolding visit_file
  visit_file-adds f true n abs_path info w running file named judged m = inl m
  visit_file-adds f false n abs_path info w running file named judged m =
      elim (append_file-adds f n (check_file disk w n abs_path info) w m) [
        | inl before ↦ inl before
        | inr (checked, name) ↦
            let (secure, regular, small, c, read, e) =
              (check_file_iff disk root top max_size rules w n abs_path info f.data_of).0 checked in
            inr (record {
              plain = file;
              name = name;
              named = named;
              kept = sym judged;
              secure =
                  sym (ap (λ r. is_secure_absolute_path disk r abs_path) running.same_root)
                  ∙ secure;
              regular = regular;
              small = sym (ap (λ m. exceeds m info.size) running.same_size) ∙ small;
              read = (c, read, e);
            })
      ]

  visit_kind-adds :
      (f : BufferedFile) (dir : Bool) (n abs_path : Text) (info : FileInfo) (w : SecureFileWalker)
      → IsRunning root top max_size rules w
      → is_dir info ≡ dir
      → is_empty n ≡ false
      → Memᴰ f (visit_kind disk dir n abs_path info w).1.files
      → Memᴰ f w.files ⊎ IsLoaded disk root max_size rules n abs_path info f
  unfolding visit_kind
  visit_kind-adds f true n abs_path info w running dir named m =
      inl (visit_dir-adds f _ n abs_path _ m)
  visit_kind-adds f false n abs_path info w running file named m =
      visit_file-adds f _ n abs_path info _
        (IsRunning-asked disk root top max_size rules w n false running) file named
        (running.same n false) m

  -- What a call of the walk's function adds, and that it adds what is to be loaded
  pub walk_file-adds :
      (f : BufferedFile) (n : Node) (w : SecureFileWalker)
      → IsRunning root top max_size rules w
      → Memᴰ f (walk_file disk n.path n.abs_path (ok n.info) w).1.files
      → Memᴰ f w.files
        ⊎ IsLoaded disk root max_size rules (trim_prefix n.path top) n.abs_path n.info f
  unfolding walk_file walk_at visit
  walk_file-adds f n w running m =
      let e : trim_prefix n.path w.abs_chart_path ≡ trim_prefix n.path top =
        ap (trim_prefix n.path) running.same_top in
      let m' = rw e at m in
      elim (Bool-cases (is_empty (trim_prefix n.path top))) [
        | inl at_top ↦ inl (rw at_top at m')
        | inr below ↦
            visit_kind-adds f _ (trim_prefix n.path top) n.abs_path n.info w running refl below
              (rw below at m')
      ]

  visit_file-loads :
      (f : BufferedFile) (ignored : Bool) (n abs_path : Text) (info : FileInfo)
      (w : SecureFileWalker)
      → IsRunning root top max_size rules w
      → ignored ≡ false
      → IsLoaded disk root max_size rules n abs_path info f
      → Memᴰ f (visit_file disk ignored n abs_path info w).1.files
  unfolding visit_file append_file
  visit_file-loads f true n abs_path info w running kept loaded = absurd (ground arith)
  visit_file-loads f false n abs_path info w running kept loaded =
      let checked : check_file disk w n abs_path info ≡ ok f.data_of =
        (check_file_iff disk root top max_size rules w n abs_path info f.data_of).1 (
          ap (λ r. is_secure_absolute_path disk r abs_path) running.same_root ∙ loaded.secure,
          loaded.regular,
          ap (λ m. exceeds m info.size) running.same_size ∙ loaded.small,
          loaded.read.0,
          loaded.read.1,
          loaded.read.2,
        ) in
      rw checked (
        Memᴰ.append_right w.files
          (Memᴰ.head (λ i. record { name = loaded.name i; data_of = f.data_of })))

  visit_kind-loads :
      (f : BufferedFile) (dir : Bool) (n abs_path : Text) (info : FileInfo) (w : SecureFileWalker)
      → IsRunning root top max_size rules w
      → dir ≡ false
      → IsLoaded disk root max_size rules n abs_path info f
      → Memᴰ f (visit_kind disk dir n abs_path info w).1.files
  unfolding visit_kind
  visit_kind-loads f true n abs_path info w running plain loaded = absurd (ground arith)
  visit_kind-loads f false n abs_path info w running plain loaded =
      visit_file-loads f _ n abs_path info _
        (IsRunning-asked disk root top max_size rules w n false running)
        (running.same n false ∙ loaded.kept) loaded

  pub walk_file-loads :
      (f : BufferedFile) (n : Node) (w : SecureFileWalker)
      → IsRunning root top max_size rules w
      → IsLoaded disk root max_size rules (trim_prefix n.path top) n.abs_path n.info f
      → Memᴰ f (walk_file disk n.path n.abs_path (ok n.info) w).1.files
  unfolding walk_file walk_at visit
  walk_file-loads f n w running loaded =
      let e : trim_prefix n.path w.abs_chart_path ≡ trim_prefix n.path top =
        ap (trim_prefix n.path) running.same_top in
      rw e (
        rw loaded.named (
          visit_kind-loads f _ (trim_prefix n.path top) n.abs_path n.info w running loaded.plain
            loaded))

  -- A directory that is entered is open, and one that is skipped is not.
  visit_dir-opens :
      (ignored : Bool) (n abs_path : Text) (w : SecureFileWalker)
      → (visit_dir disk ignored n abs_path w).0 ≡ ok tt
      → ignored ≡ false
  unfolding visit_dir
  visit_dir-opens true n abs_path w went = ground arith
  visit_dir-opens false n abs_path w went = refl

  visit_dir-skips :
      (ignored : Bool) (n abs_path : Text) (w : SecureFileWalker)
      → (visit_dir disk ignored n abs_path w).0 ≡ err skip_dir
      → ignored ≡ true
  unfolding visit_dir check_dir
  visit_dir-skips true n abs_path w skipped = refl
  visit_dir-skips false n abs_path w skipped =
      elim (Result-cases (is_secure_absolute_path disk w.root abs_path)) [
        | inl (b, inside) ↦ absurd (ground arith)
        | inr (e, outside) ↦ absurd (ground arith)
      ]

  check_file-ne-skip :
      (w : SecureFileWalker) (n abs_path : Text) (info : FileInfo)
      → check_file disk w n abs_path info ≢ err skip_dir
  unfolding check_file size_check read_data
  check_file-ne-skip w n abs_path info = λ same.
      elim (Result-cases (is_secure_absolute_path disk w.root abs_path)) [
        | inr (e, outside) ↦ ground arith
        | inl (b, inside) ↦ elim (Option-cases (disk.read_file abs_path)) [
          | inl unread ↦ ground arith
          | inr (c, is) ↦ ground arith
        ]
      ]

  append_file-ne-skip :
      (n : Text) (r : Result LoadError Text) (w : SecureFileWalker)
      → r ≢ err skip_dir
      → (append_file n r w).0 ≢ err skip_dir
  unfolding append_file
  append_file-ne-skip n (ok content) w other = λ same. ground arith
  append_file-ne-skip n (err e) w other = λ same. other (ground arith)

  visit_file-ne-skip :
      (ignored : Bool) (n abs_path : Text) (info : FileInfo) (w : SecureFileWalker)
      → (visit_file disk ignored n abs_path info w).0 ≢ err skip_dir
  unfolding visit_file
  visit_file-ne-skip true n abs_path info w = λ same. ground arith
  visit_file-ne-skip false n abs_path info w =
      append_file-ne-skip n _ w (check_file-ne-skip w n abs_path info)

  pub walk_file-opens :
      (path abs_path : Text) (info : FileInfo) (w : SecureFileWalker)
      → IsRunning root top max_size rules w
      → (walk_file disk path abs_path (ok info) w).0 ≡ ok tt
      → is_dir info ≡ true
      → IsOpen top rules path
  unfolding walk_file walk_at visit visit_kind IsOpen
  walk_file-opens path abs_path info w running went dir =
      let e : trim_prefix path w.abs_chart_path ≡ trim_prefix path top =
        ap (trim_prefix path) running.same_top in
      let went' = rw e at went in
      elim (Bool-cases (is_empty (trim_prefix path top))) [
        | inl at_top ↦ inl at_top
        | inr below ↦ inr (
            sym (running.same (trim_prefix path top) true)
            ∙ visit_dir-opens _ (trim_prefix path top) abs_path _ (rw (below, dir) at went'))
      ]

  visit_kind-skips :
      (dir : Bool) (n abs_path : Text) (info : FileInfo) (w : SecureFileWalker)
      → IsRunning root top max_size rules w
      → (visit_kind disk dir n abs_path info w).0 ≡ err skip_dir
      → (dir ≡ true) × ((ignore rules n true).0 ≡ true)
  unfolding visit_kind
  visit_kind-skips true n abs_path info w running skipped =
      (refl, sym (running.same n true) ∙ visit_dir-skips _ n abs_path _ skipped)
  visit_kind-skips false n abs_path info w running skipped =
      absurd (visit_file-ne-skip _ n abs_path info _ skipped)

  pub walk_file-skips :
      (path abs_path : Text) (info : FileInfo) (w : SecureFileWalker)
      → IsRunning root top max_size rules w
      → (walk_file disk path abs_path (ok info) w).0 ≡ err skip_dir
      → (is_dir info ≡ true) × (IsOpen top rules path → ⊥)
  unfolding walk_file walk_at visit IsOpen
  walk_file-skips path abs_path info w running skipped =
      let e : trim_prefix path w.abs_chart_path ≡ trim_prefix path top =
        ap (trim_prefix path) running.same_top in
      let skipped' = rw e at skipped in
      elim (Bool-cases (is_empty (trim_prefix path top))) [
        | inl at_top ↦
            absurd (let broken : ok tt ≡ err skip_dir = rw at_top at skipped' in ground arith)
        | inr below ↦
            let (dir, judged) =
              visit_kind-skips _ (trim_prefix path top) abs_path info w running
                (rw below at skipped') in
            (dir, λ is_open. elim is_open [ inl empty ↦ ground arith | inr kept ↦ ground arith ])
      ]
