-- ===== src/Fs/LongPath.antt =====
-- internal/fs/fs.go, `fixLongPath`: paths of Windows that are made long ones. `is_separator` is
-- `os.IsPathSeparator`. The text of the long path is modelled; the buffer that the source writes it into,
-- and what it has written there when it meets `..` and gives the path back as it is, are not.
use flux_build.Base.{
  ℕ, ◌+◌, ◌-◌, ◌≤◌, Bool, true, false, not, ◌&&◌, ◌||◌, Option, none, some, [], ◌∷◌, ◌++◌, ◌==◌,
  nat_eq, nat_beq_iff, ◌≡◌, inl, inr, arith, Bool-cases, Option-cases, if◌then◌else◌, leb, ltb,
  length, length-append,
}
use flux_build.Base.Text.{Text, has_prefix, is_empty}

unfoldable pub is_drive : ℕ → Bool
is_drive c = (leb b'0' c && leb c b'9') || (leb b'a' c && leb c b'z') || (leb b'A' c && leb c b'Z')

unfoldable pub take : ℕ → Text → Text
take n [] = []
take n (b ∷ s) = if n == 0 then [] else b ∷ take (n - 1) s

unfoldable pub drop : ℕ → Text → Text
drop n [] = []
drop n (b ∷ s) = if n == 0 then b ∷ s else drop (n - 1) s

module _ (is_separator : ℕ → Bool) where
  -- The end of the share's name
  unfoldable pub share_end : ℕ → Text → ℕ
  share_end n [] = n
  share_end n (b ∷ s) = if is_separator b then n else share_end (n + 1) s

  -- The loop over the server's name, from an index
  unfoldable pub unc_end : ℕ → Text → Option ℕ
  unfolding share_end
  unc_end n (a ∷ b ∷ s) =
      let later = unc_end (n + 1) (b ∷ s) in
      if is_separator a
      then (if is_separator b || b == b'.' then none else some (share_end (n + 1) (b ∷ s)))
      else later
  unc_end n _ = none

  unfoldable pub unc_name : Text → Text
  unfolding unc_end take
  unc_name (a ∷ b ∷ c ∷ s) =
      if leb 2 (length s)
        && is_separator a
        && is_separator b
        && not (is_separator c)
        && not (c == b'.')
      then (elim (unc_end 3 s) [ none ↦ [] | some n ↦ take n (a ∷ b ∷ c ∷ s) ])
      else []
  unc_name _ = []

  -- `volumeName`
  unfoldable pub volume_name : Text → Text
  unfolding is_drive unc_name
  volume_name (c ∷ d ∷ s) = if d == b':' && is_drive c then c ∷ d ∷ [] else unc_name (c ∷ d ∷ s)
  volume_name _ = []

  begins : Text → Bool
  begins [] = false
  begins (b ∷ s) = is_separator b

  -- `isAbs`
  unfoldable pub is_abs_path : Text → Bool
  unfolding volume_name begins drop
  is_abs_path path = let v = volume_name path in not (is_empty v) && begins (drop (length v) path)

  -- At the end of an element
  unfoldable pub ends_here : Text → Bool
  ends_here [] = true
  ends_here (b ∷ s) = is_separator b

  unfoldable pub is_parent : Text → Bool
  unfolding ends_here
  is_parent (b ∷ s) = b == b'.' && ends_here s
  is_parent [] = false

  -- The loop, outside of an element or inside; nothing for a path with an element `..`
  unfoldable pub convert : Bool → Text → Option Text
  unfolding ends_here is_parent
  convert inside [] = some []
  convert true (b ∷ s) =
      let outer = convert false s in
      let inner = convert true s in
      if is_separator b then outer else (elim inner [ none ↦ none | some t ↦ some (b ∷ t) ])
  convert false (b ∷ s) =
      let outer = convert false s in
      let inner = convert true s in
      if is_separator b || (b == b'.' && ends_here s)
      then outer
      else if b == b'.' && is_parent s
      then none
      else (elim inner [ none ↦ none | some t ↦ some (92 ∷ b ∷ t) ])

  unfoldable pub with_root : Text → Text
  with_root t = if length t == 6 then t ++ (92 ∷ []) else t

  -- `fixLongPath`
  unfoldable pub fix_long_path : Text → Text
  unfolding is_abs_path convert with_root
  fix_long_path path =
      if ltb (length path) 248
      then path
      else if has_prefix path (92 ∷ 92 ∷ []) || not (is_abs_path path)
      then path
      else (elim (convert false path) [ none ↦ path | some t ↦ with_root (92 ∷ 92 ∷ b'?' ∷ t) ])

  convert-length :
      (inside : Bool) (s : Text) (t : Text)
      → convert inside s ≡ some t
      → length t ≤ length s + (if inside then 0 else 1)
  unfolding convert
  convert-length inside [] t h = ground arith
  convert-length true (b ∷ s) t h = elim (Bool-cases (is_separator b)) [
    | inl separator ↦
        let shorter = convert-length false s t (ground arith) in omega (arith, shorter)
    | inr part ↦ elim (Option-cases (convert true s)) [
      | inl parent ↦ ground arith
      | inr (t', rest) ↦
          let shorter = convert-length true s t' rest in
          let same : t ≡ b ∷ t' = ground arith in rw same (omega (arith, shorter))
    ]
  ]
  convert-length false (b ∷ s) t h =
      elim (Bool-cases (is_separator b || (b == b'.' && ends_here s))) [
        | inl skipped ↦
            let shorter = convert-length false s t (ground arith) in omega (arith, shorter)
        | inr named ↦ elim (Bool-cases (b == b'.' && is_parent s)) [
          | inl parent ↦ ground arith
          | inr other ↦ elim (Option-cases (convert true s)) [
            | inl none_left ↦ ground arith
            | inr (t', rest) ↦
                let shorter = convert-length true s t' rest in
                let same : t ≡ 92 ∷ b ∷ t' = ground arith in rw same (omega (arith, shorter))
          ]
        ]
      ]

  -- What is written never exceeds the buffer, which is four bytes longer than the path, and the
  -- backslash behind the root of a drive fits too.
  pub fix_long_path-length : (path : Text) → length (fix_long_path path) ≤ length path + 4
  unfolding fix_long_path with_root
  fix_long_path-length path = elim (Bool-cases (ltb (length path) 248)) [
    | inl short ↦ ground arith
    | inr long ↦ elim (Bool-cases (has_prefix path (92 ∷ 92 ∷ []) || not (is_abs_path path))) [
      | inl unfit ↦ ground arith
      | inr absolute ↦ elim (Option-cases (convert false path)) [
        | inl parent ↦ ground arith
        | inr (t, converted) ↦
            let bound = convert-length false path t converted in
            elim (Bool-cases (length (92 ∷ 92 ∷ b'?' ∷ t) == 6)) [
              | inl drive ↦ ground (
                arith,
                bound,
                nat_beq_iff (length (92 ∷ 92 ∷ b'?' ∷ t)) 6,
                length-append (92 ∷ 92 ∷ b'?' ∷ t) (92 ∷ []),
              )
              | inr other ↦ ground (arith, bound)
            ]
      ]
    ]
  ]
