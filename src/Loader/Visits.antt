-- ===== src/Loader/Visits.antt =====
-- internal/helm/chart/secureloader/sympath/walk.go: what a walk comes to, and what it keeps on the way.
use flux_build.Base.{
  true, false, some, List, [], ◌∷◌, ◌≡◌, inl, inr, arith, Bool-cases, Option-cases, ◌↔◌, Memᴰ-cases,
}
use flux_build.Base.Paths.{join_path}
use flux_build.Base.Text.{Text}
use flux_build.Loader.Types.{Disk, FileInfo, is_dir, is_symlink}
use flux_build.Loader.Sympath.{text_leb, insert_text, sort_strings, read_dir_names}
use mathlib.Core.List.{Memᴰ}

Memᴰ-insert_text :
    {x : Text} (s : Text) (ts : List Text) → Memᴰ x (insert_text s ts) ↔ Memᴰ x (s ∷ ts)
unfolding insert_text
Memᴰ-insert_text s [] = (λ m. m, λ m. m)
Memᴰ-insert_text {x} s (t ∷ ts) =
    let (back, forth) = Memᴰ-insert_text {x = x} s ts in
    elim (Bool-cases (text_leb s t)) [
      | inl before ↦ rw before (λ m. m, λ m. m)
      | inr after ↦ rw after (
        λ m. elim (Memᴰ-cases m) [
          | inl e ↦ Memᴰ.tail (Memᴰ.head e)
          | inr n ↦ elim (Memᴰ-cases (back n)) [
            | inl e ↦ Memᴰ.head e
            | inr n ↦ Memᴰ.tail (Memᴰ.tail n)
          ]
        ],
        λ m. elim (Memᴰ-cases m) [
          | inl e ↦ Memᴰ.tail (forth (Memᴰ.head e))
          | inr n ↦ elim (Memᴰ-cases n) [
            | inl e ↦ Memᴰ.head e
            | inr n ↦ Memᴰ.tail (forth (Memᴰ.tail n))
          ]
        ],
      )
    ]

Memᴰ-sort_strings : {x : Text} (ss : List Text) → Memᴰ x (sort_strings ss) ↔ Memᴰ x ss
unfolding sort_strings
Memᴰ-sort_strings [] = (λ m. m, λ m. m)
Memᴰ-sort_strings {x} (s ∷ ss) =
    let (back, forth) = Memᴰ-insert_text {x = x} s (sort_strings ss) in
    let (out, into) = Memᴰ-sort_strings {x = x} ss in
    (
      λ m. elim (Memᴰ-cases (back m)) [ inl e ↦ Memᴰ.head e | inr n ↦ Memᴰ.tail (out n) ],
      λ m. elim (Memᴰ-cases m) [ inl e ↦ forth (Memᴰ.head e) | inr n ↦ forth (Memᴰ.tail (into n)) ],
    )

-- The names in a directory are listed, in whatever order.
pub read_dir_names-Memᴰ :
    (disk : Disk) (path : Text) (names : List Text) (name : Text)
    → read_dir_names disk path ≡ some names
    → Memᴰ name names
    → (listed : List Text) × (disk.read_dir_names path ≡ some listed) × Memᴰ name listed
unfolding read_dir_names
read_dir_names-Memᴰ disk path names name read m = elim (Option-cases (disk.read_dir_names path)) [
  | inl unread ↦ absurd (ground arith)
  | inr (listed, is) ↦
      let e : names ≡ sort_strings listed = ground arith in
      (listed, is, (Memᴰ-sort_strings listed).0 (rw e at m))
]

pub Memᴰ-read_dir_names :
    (disk : Disk) (path : Text) (names listed : List Text) (name : Text)
    → read_dir_names disk path ≡ some names
    → disk.read_dir_names path ≡ some listed
    → Memᴰ name listed
    → Memᴰ name names
unfolding read_dir_names
Memᴰ-read_dir_names disk path names listed name read is m =
    let e : names ≡ sort_strings listed = ground arith in rw e ((Memᴰ-sort_strings listed).1 m)

-- A file or a directory as the walk comes to it
pub record Node : Type 0 where
  pub path : Text
  pub abs_path : Text
  pub info : FileInfo

abbrev pub below_of : Node → Text → FileInfo → Node
below_of m name info = record {
  path = join_path m.path name;
  abs_path = join_path m.abs_path name;
  info = info;
}

-- What a walk comes to from a node, if it enters the directories that are open
pub data Visits (disk : Disk) (Open : Text → Type 0) : Node → Node → Type 0 where
  here : {m n : Node} → is_symlink m.info ≡ false → m ≡ n → Visits disk Open m n
  through :
      {m n : Node} (resolved : Text) (info : FileInfo)
      → is_symlink m.info ≡ true
      → disk.eval_symlinks m.path ≡ some resolved
      → disk.lstat resolved ≡ some info
      → Visits disk Open (record { path = m.path; abs_path = resolved; info = info }) n
      → Visits disk Open m n
  below :
      {m n : Node} (names : List Text) (name : Text) (info : FileInfo)
      → is_symlink m.info ≡ false
      → is_dir m.info ≡ true
      → Open m.path
      → disk.read_dir_names m.path ≡ some names
      → Memᴰ name names
      → disk.lstat (join_path m.path name) ≡ some info
      → Visits disk Open (below_of m name info) n
      → Visits disk Open m n
