-- ===== src/Loader/Files.antt =====
-- internal/helm/chart/secureloader/directory.go: which files a chart is loaded from.
use flux_build.Base.{
  Bool, true, false, some, List, ◌≡◌, ◌↔◌, ◌⊎◌, inl, inr, arith, ◌∙◌, All, Bool-cases, Option-cases,
  ◌==◌,
}
use flux_build.Base.Exec.{Keeps}
use flux_build.Base.Paths.{clean}
use flux_build.Base.Results.{Result, ok, err, Result-cases}
use flux_build.Base.Text.{Text, codes, text_eq, is_empty, trim_prefix}
use flux_build.Ignore.{Pattern, ignore}
use flux_build.Ignore.Steady.{IsSteady, ignore-again, ignore-IsSteady}
use flux_build.Loader.Types.{ℤ, FileInfo, Disk, LoadError, is_dir, is_regular}
use flux_build.Loader.Directory.{
  BufferedFile, SecureFileWalker, exceeds, utf8bom, is_secure_absolute_path, size_check, read_data,
  check_file, append_file, visit_dir, visit_file, visit_kind, visit, walk_at, walk_file,
}
use mathlib.Core.List.{Memᴰ}
use mathlib.Core.List.Memᴰ

-- A file that a chart is loaded with: what is at a path is not ignored under its name, is inside the
-- root, regular and within the limit, and the content is what is read of it.
pub record IsLoaded (disk : Disk) (root : Text) (max_size : ℤ) (rules : List Pattern) (n : Text)
    (abs_path : Text) (info : FileInfo) (f : BufferedFile) : Type 0 where
  pub plain : is_dir info ≡ false
  pub name : f.name ≡ n
  pub named : is_empty n ≡ false
  pub kept : (ignore rules n false).0 ≡ false
  pub secure : is_secure_absolute_path disk root abs_path ≡ ok true
  pub regular : is_regular info ≡ true
  pub small : exceeds max_size info.size ≡ false
  pub read :
      (content : Text) × (disk.read_file abs_path ≡ some content)
      × (f.data_of ≡ trim_prefix content utf8bom)

-- The directories that are entered: the chart's own, and those that are not ignored
unfoldable pub IsOpen : Text → List Pattern → Text → Type 0
IsOpen top rules path =
    (is_empty (trim_prefix path top) ≡ true)
    ⊎ ((ignore rules (trim_prefix path top) true).0 ≡ false)

-- The walker's rules judge as at the beginning.
pub record IsRunning (root top : Text) (max_size : ℤ) (rules : List Pattern) (w : SecureFileWalker)
    : Type 0 where
  pub same_root : w.root ≡ root
  pub same_top : w.abs_chart_path ≡ top
  pub same_size : w.max_size ≡ max_size
  pub steady : All IsSteady w.rules
  pub same : (n : Text) (d : Bool) → (ignore w.rules n d).0 ≡ (ignore rules n d).0

module _ (disk : Disk) (root top : Text) (max_size : ℤ) (rules : List Pattern) where
  secure-true :
      (root abs_path : Text) (b : Bool)
      → is_secure_absolute_path disk root abs_path ≡ ok b
      → is_secure_absolute_path disk root abs_path ≡ ok true
  unfolding is_secure_absolute_path
  secure-true root abs_path b h = elim (Bool-cases (clean root == codes "/")) [
    | inl t ↦ ground arith
    | inr f ↦ elim (Option-cases (disk.rel (clean root) (clean abs_path))) [
      | inl no_rel ↦ ground arith
      | inr (unsafe_path, is) ↦ elim (Option-cases (disk.secure_join (clean root) unsafe_path)) [
        | inl no_join ↦ ground arith
        | inr (safe_path, joined) ↦ elim (Bool-cases (safe_path == clean abs_path)) [
          | inl t ↦ ground arith
          | inr f ↦ ground arith
        ]
      ]
    ]
  ]

  pub check_file_iff :
      (w : SecureFileWalker) (n abs_name : Text) (info : FileInfo) (content : Text)
      → (check_file disk w n abs_name info ≡ ok content) ↔ (
          (is_secure_absolute_path disk w.root abs_name ≡ ok true)
          × (is_regular info ≡ true)
          × (exceeds w.max_size info.size ≡ false)
          × (c : Text) × (disk.read_file abs_name ≡ some c)
          × (content ≡ trim_prefix c utf8bom))
  unfolding check_file size_check read_data
  check_file_iff w n abs_name info content = (
    λ h. elim (Result-cases (is_secure_absolute_path disk w.root abs_name)) [
      | inr (e, outside) ↦ absurd (ground arith)
      | inl (b, inside) ↦ elim (Option-cases (disk.read_file abs_name)) [
        | inl unread ↦ absurd (ground arith)
        | inr (c, is) ↦
            (secure-true w.root abs_name b inside, ground arith, ground arith, c, is, ground arith)
      ]
    ],
    λ (inside, regular, small, c, is, e). ground arith,
  )

  -- Asking the rules leaves the walker running.
  pub IsRunning-asked :
      (w : SecureFileWalker) (n : Text) (d : Bool)
      → IsRunning root top max_size rules w
      → IsRunning root top max_size rules (record w { rules = (ignore w.rules n d).1 })
  IsRunning-asked w n d running = record {
    same_root = running.same_root;
    same_top = running.same_top;
    same_size = running.same_size;
    steady = ignore-IsSteady w.rules n d running.steady;
    same = λ other e. ignore-again w.rules n other d e running.steady ∙ running.same other e;
  }

  append_file-IsRunning :
      (n : Text) (r : Result LoadError Text) (w : SecureFileWalker)
      → IsRunning root top max_size rules w
      → IsRunning root top max_size rules (append_file n r w).1
  unfolding append_file
  append_file-IsRunning n (err e) w running = running
  append_file-IsRunning n (ok content) w running = record {
    same_root = running.same_root;
    same_top = running.same_top;
    same_size = running.same_size;
    steady = running.steady;
    same = running.same;
  }

  visit_dir-IsRunning :
      (ignored : Bool) (n abs_path : Text)
      → Keeps (IsRunning root top max_size rules) (visit_dir disk ignored n abs_path)
  unfolding visit_dir
  visit_dir-IsRunning true n abs_path = record { at = λ w h. h }
  visit_dir-IsRunning false n abs_path = record { at = λ w h. h }

  visit_file-IsRunning :
      (ignored : Bool) (n abs_path : Text) (info : FileInfo)
      → Keeps (IsRunning root top max_size rules) (visit_file disk ignored n abs_path info)
  unfolding visit_file
  visit_file-IsRunning true n abs_path info = record { at = λ w h. h }
  visit_file-IsRunning false n abs_path info = record { at = λ w h. append_file-IsRunning n _ w h }

  visit_kind-IsRunning :
      (dir : Bool) (n abs_path : Text) (info : FileInfo)
      → Keeps (IsRunning root top max_size rules) (visit_kind disk dir n abs_path info)
  unfolding visit_kind
  visit_kind-IsRunning true n abs_path info = record {
    at = λ w h. (visit_dir-IsRunning _ n abs_path).at _ (IsRunning-asked w n true h);
  }
  visit_kind-IsRunning false n abs_path info = record {
    at = λ w h. (visit_file-IsRunning _ n abs_path info).at _ (IsRunning-asked w n false h);
  }

  walk_at-IsRunning :
      (at_top : Bool) (n abs_path : Text) (seen : Result LoadError FileInfo)
      → Keeps (IsRunning root top max_size rules) (walk_at disk at_top n abs_path seen)
  unfolding walk_at visit
  walk_at-IsRunning true n abs_path seen = record { at = λ w h. h }
  walk_at-IsRunning false n abs_path (err e) = record { at = λ w h. h }
  walk_at-IsRunning false n abs_path (ok info) = record {
    at = λ w h. (visit_kind-IsRunning _ n abs_path info).at w h;
  }

  pub walk_file-IsRunning :
      (path abs_path : Text) (seen : Result LoadError FileInfo)
      → Keeps (IsRunning root top max_size rules) (walk_file disk path abs_path seen)
  unfolding walk_file
  walk_file-IsRunning path abs_path seen = record {
    at = λ w h. (walk_at-IsRunning _ _ abs_path seen).at w h;
  }

  -- Files are not taken away.
  append_file-stays :
      (f : BufferedFile) (n : Text) (r : Result LoadError Text) (w : SecureFileWalker)
      → Memᴰ f w.files
      → Memᴰ f (append_file n r w).1.files
  unfolding append_file
  append_file-stays f n (err e) w m = m
  append_file-stays f n (ok content) w m = Memᴰ.append_left _ m

  visited-stays :
      (f : BufferedFile) (ignored : Bool) (n abs_path : Text) (info : FileInfo)
      → Keeps (λ w. Memᴰ f w.files) (visit_dir disk ignored n abs_path)
        × Keeps (λ w. Memᴰ f w.files) (visit_file disk ignored n abs_path info)
  unfolding visit_dir visit_file
  visited-stays f true n abs_path info = (record { at = λ w h. h }, record { at = λ w h. h })
  visited-stays f false n abs_path info =
      (record { at = λ w h. h }, record { at = λ w h. append_file-stays f n _ w h })

  visit-stays :
      (f : BufferedFile) (dir : Bool) (n abs_path : Text) (info : FileInfo)
      → Keeps (λ w. Memᴰ f w.files) (visit_kind disk dir n abs_path info)
  unfolding visit_kind
  visit-stays f true n abs_path info = record {
    at = λ w h. (visited-stays f _ n abs_path info).0.at _ h;
  }
  visit-stays f false n abs_path info = record {
    at = λ w h. (visited-stays f _ n abs_path info).1.at _ h;
  }

  walk_at-stays :
      (f : BufferedFile) (at_top : Bool) (n abs_path : Text) (seen : Result LoadError FileInfo)
      → Keeps (λ w. Memᴰ f w.files) (walk_at disk at_top n abs_path seen)
  unfolding walk_at visit
  walk_at-stays f true n abs_path seen = record { at = λ w h. h }
  walk_at-stays f false n abs_path (err e) = record { at = λ w h. h }
  walk_at-stays f false n abs_path (ok info) = record {
    at = λ w h. (visit-stays f _ n abs_path info).at w h;
  }

  pub walk_file-stays :
      (f : BufferedFile) (path abs_path : Text) (seen : Result LoadError FileInfo)
      → Keeps (λ w. Memᴰ f w.files) (walk_file disk path abs_path seen)
  unfolding walk_file
  walk_file-stays f path abs_path seen = record {
    at = λ w h. (walk_at-stays f _ _ abs_path seen).at w h;
  }
