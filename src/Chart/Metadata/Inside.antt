-- ===== src/Chart/Metadata/Inside.antt =====
-- internal/helm/chart/metadata.go: which names and sizes an archive may have to be read.
use flux_build.Base.{
  ℕ, ◌-◌, ◌+◌, ◌≤◌, Bool, true, false, ◌||◌, Option, List, [], ◌∷◌, ◌++◌, ◌==◌, nat_eq, ◌≡◌, refl,
  sym, ap, ◌∙◌, inl, inr, arith, All, length, Bool-cases, if◌then◌else◌,
}
use flux_build.Base.Paths.{is_abs, clean, push_all, push, back, render}
use flux_build.Base.Results.{ok, >>=-eq-ok, Result-cases}
use flux_build.Base.Text.{
  Text, codes, text_eq, text_iff, is_empty, has_prefix, has_prefix-append, split, join,
}
use flux_build.Chart.Host.{
  Metadata, EntryKind, directory, extension_header, content, Header, Archive, end, broken, next,
  Host,
}
use flux_build.Chart.Metadata.{
  name_below, checked_name, delimiter_of, read_part, in_base, read_entry, read_archive, chart_file,
  requirements_file, max_chart_file_size,
}
use mathlib.Core.List.{reverse, reverse-cons, append-nil}

-- A walk along the elements of a path from a directory at some depth: it never leaves the directory
-- at depth 0.
unfoldable pub stays : ℕ → List Text → Bool
stays depth [] = true
stays depth (p ∷ ps) =
    if is_empty p || p == codes "."
    then stays depth ps
    else if p == codes ".."
    then (if depth == 0 then false else stays (depth - 1) ps)
    else stays (depth + 1) ps

-- The path on the stack begins with `..`.
leaves : List Text → Bool
leaves [] = false
leaves (p ∷ []) = p == codes ".."
leaves (p ∷ q ∷ qs) = leaves (q ∷ qs)

no_parent : List Text → Bool
no_parent [] = true
no_parent (p ∷ qs) = if p == codes ".." then false else no_parent qs

leaves-push : (qs : List Text) (p : Text) → leaves qs ≡ true → leaves (push false qs p) ≡ true
unfolding leaves push back
leaves-push [] p h = cc
leaves-push (q ∷ []) p h = ground arith
leaves-push (q ∷ r ∷ qs) p h = ground arith

leaves-push_all : (qs ps : List Text) → leaves qs ≡ true → leaves (push_all false qs ps) ≡ true
unfolding push_all
leaves-push_all qs [] h = h
leaves-push_all qs (p ∷ ps) h = leaves-push_all (push false qs p) ps (leaves-push qs p h)

leaves-false :
    (qs ps : List Text)
    → no_parent qs ≡ true
    → stays (length qs) ps ≡ false
    → leaves (push_all false qs ps) ≡ true
unfolding push_all push back stays no_parent text_eq
leaves-false qs [] clear_stack left = cc
leaves-false [] (p ∷ ps) clear_stack left = elim (Bool-cases (is_empty p || p == codes ".")) [
  | inl skipped ↦ rw skipped (leaves-false [] ps clear_stack (ground arith))
  | inr named ↦ elim (Bool-cases (p == codes "..")) [
    | inl up ↦ rw (named, up) (leaves-push_all (codes ".." ∷ []) ps (unfold leaves in refl))
    | inr down ↦ rw (named, down) (leaves-false (p ∷ []) ps (ground arith) (ground arith))
  ]
]
leaves-false (q ∷ qs) (p ∷ ps) clear_stack left = elim (Bool-cases (is_empty p || p == codes ".")) [
  | inl skipped ↦ rw skipped (leaves-false (q ∷ qs) ps clear_stack (ground arith))
  | inr named ↦ elim (Bool-cases (p == codes "..")) [
    | inl up ↦
        let other : (q == codes "..") ≡ false = ground arith in
        rw (named, up, other) (leaves-false qs ps (ground arith) (ground arith))
    | inr down ↦ rw (named, down) (leaves-false (p ∷ q ∷ qs) ps (ground arith) (ground arith))
  ]
]

reverse-leaves :
    (qs : List Text) → leaves qs ≡ true → (ps : List Text) × (reverse qs ≡ codes ".." ∷ ps)
unfolding leaves
reverse-leaves [] h = cc
reverse-leaves (q ∷ []) h = rw ((text_iff q (codes "..")).0 h) ([], refl)
reverse-leaves (q ∷ r ∷ qs) h =
    let (ps, e) = reverse-leaves (r ∷ qs) h in
    (ps ++ (q ∷ []), rw (reverse-cons q (r ∷ qs), e) refl)

join-has_prefix : (p : Text) (ps : List Text) → has_prefix (join b'/' (p ∷ ps)) p ≡ true
unfolding join
join-has_prefix p [] = ap (λ s. has_prefix s p) (sym (append-nil p)) ∙ has_prefix-append p []
join-has_prefix p (q ∷ ps) = has_prefix-append p (b'/' ∷ join b'/' (q ∷ ps))

render-leaves :
    (qs : List Text) → leaves qs ≡ true → has_prefix (render false qs) (codes "..") ≡ true
unfolding render
render-leaves [] h = unfold leaves in cc
render-leaves (q ∷ qs) h =
    let (ps, e) = reverse-leaves (q ∷ qs) h in rw e (join-has_prefix (codes "..") ps)

clean-stays :
    (s : Text)
    → is_abs s ≡ false
    → has_prefix (clean s) (codes "..") ≡ false
    → stays 0 (split b'/' s) ≡ true
unfolding clean
clean-stays s relative inside = elim (Bool-cases (stays 0 (split b'/' s))) [
  | inl stay ↦ stay
  | inr left ↦
      let out =
        render-leaves (push_all false [] (split b'/' s))
          (leaves-false [] (split b'/' s) (unfold no_parent in refl) left) in
      ground (arith, out)
]

-- What an entry that is read has: a relative name that stays below the base, and no more bytes than
-- a file of a chart may have if metadata is read from it.
is_part : List Text → Bool
is_part (base ∷ part ∷ []) = part == chart_file || part == requirements_file
is_part _ = false

is_content : EntryKind → Bool
is_content content = true
is_content _ = false

unfoldable pub Admissible : Header → Type 0
unfolding is_part
Admissible h =
    (is_abs (name_below h.name) ≡ false)
    × (stays 0 (split b'/' (name_below h.name)) ≡ true)
    × (is_part (split (delimiter_of h.name) h.name) ≡ true → h.size ≤ max_chart_file_size)

unfoldable pub content_headers : Archive → List Header
unfolding is_content
content_headers (next h body rest) =
    let hs = content_headers rest in if is_content h.kind then h ∷ hs else hs
content_headers _ = []

checked_name-stays :
    (name : Text)
    → checked_name name ≡ ok tt
    → (is_abs (name_below name) ≡ false) × (stays 0 (split b'/' (name_below name)) ≡ true)
unfolding checked_name
checked_name-stays name h =
    let relative : is_abs (name_below name) ≡ false = ground arith in
    let inside : has_prefix (clean (name_below name)) (codes "..") ≡ false = ground arith in
    (relative, clean-stays (name_below name) relative inside)

is_content-eq : (k : EntryKind) → is_content k ≡ true → k ≡ content
unfolding is_content
is_content-eq directory h = cc
is_content-eq extension_header h = cc
is_content-eq content h = refl

module _ {V : Type 0} (host : Host V) where
  in_base-size :
      (m : Option Metadata) (h : Header) (body : Option Text) (parts : List Text)
      {r : Option Metadata}
      → in_base host m h body parts ≡ ok r
      → is_part parts ≡ true
      → h.size ≤ max_chart_file_size
  unfolding in_base read_part is_part
  in_base-size m h body [] e p = cc
  in_base-size m h body (base ∷ []) e p = cc
  in_base-size m h body (base ∷ part ∷ []) e p = ground arith
  in_base-size m h body (base ∷ part ∷ x ∷ ps) e p = cc

  read_entry-Admissible :
      (m : Option Metadata) (h : Header) (body : Option Text) {r : Option Metadata}
      → read_entry host m h body ≡ ok r
      → is_content h.kind ≡ true
      → Admissible h
  unfolding read_entry Admissible
  read_entry-Admissible m h body {r} read is =
      let kind : h.kind ≡ content = is_content-eq h.kind is in
      elim (Result-cases (checked_name h.name)) [
        | inl (u, passed) ↦
            let (relative, stay) = checked_name-stays h.name passed in
            let rest : in_base host m h body (split (delimiter_of h.name) h.name) ≡ ok r =
              ground arith in
            (relative, stay, in_base-size m h body (split (delimiter_of h.name) h.name) rest)
        | inr (e, refused) ↦ ground arith
      ]

  -- If the archive is read without an error, all its entries are admissible.
  pub read_archive-Admissible :
      (m : Option Metadata) (archive : Archive) {r : Option Metadata}
      → read_archive host m archive ≡ ok r
      → All Admissible (content_headers archive)
  unfolding read_archive content_headers
  read_archive-Admissible m end read = tt
  read_archive-Admissible m broken read = tt
  read_archive-Admissible m (next h body rest) read =
      let (m', entry, after) =
        >>=-eq-ok (read_entry host m h body) (λ m'. read_archive host m' rest) read in
      let others = read_archive-Admissible m' rest after in
      elim (Bool-cases (is_content h.kind)) [
        | inl is ↦ rw is (read_entry-Admissible m h body entry is, others)
        | inr is_not ↦ rw is_not others
      ]
