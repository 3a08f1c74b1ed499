-- ===== src/Repository/Versions/Latest.antt =====
-- The chosen version is an exact match, or else the newest that satisfies the constraint.
use mathlib.Core.List.{Memᴰ}
use flux_build.Base.{
  ◌≤◌, ◌≡◌, ◌≢◌, ◌⊎◌, inl, inr, refl, sym, ap, ◌∙◌, true, false, none, some, List, [], ◌∷◌, arith,
  ◌==◌, Memᴰ-nil, Memᴰ-cases, All-Memᴰ, find-some, find-none, Bool-cases, Option-cases,
}
use flux_build.Base.Results.{Result, ok, err, Result-cases}
use flux_build.Base.Text.{Text, text_eq, text_iff}
use flux_build.Repository.Sorting.{IsOrder, Sorter}
use flux_build.Repository.Versions.{
  Semver, ChartVersion, VersionError, no_match, bad_constraint, constraint_of, matching,
  newest_first, exact, choose_version, first_of_sorted,
}

module _ (lib : Semver) where
  open lib use {Version, Constraint, parse_version, check, equal, less_than}

  newest_first-IsOrder : IsOrder (newest_first lib)
  unfolding newest_first
  newest_first-IsOrder = record {
    total = λ (v, a) (w, b).
        ground
          (arith, lib.equal_iff v w, lib.equal_iff w v, lib.asymmetric v w, lib.asymmetric w v);
    trans = λ (u, a) (v, b) (w, c) p q. ground (
      arith,
      lib.equal_iff u v,
      lib.equal_iff v w,
      lib.equal_iff u w,
      lib.less-trans u v w,
      lib.less-trans w v u,
      lib.less-trans v w u,
      lib.less-trans w u v,
    );
  }

  module _ {ℓ} {A : Type ℓ} (text : A → Text) (c : Constraint) where
    abbrev matched : List A → List (Version × A)
    matched = matching lib text c

    matched-unparsed :
        (x : A) (xs : List A) → parse_version (text x) ≡ none → matched (x ∷ xs) ≡ matched xs
    unfolding matching
    matched-unparsed x xs e = ground arith

    matched-unfit :
        (x : A) (xs : List A) (w : Version)
        → parse_version (text x) ≡ some w
        → check c w ≡ false
        → matched (x ∷ xs) ≡ matched xs
    unfolding matching
    matched-unfit x xs w e f = ground arith

    matched-fit :
        (x : A) (xs : List A) (w : Version)
        → parse_version (text x) ≡ some w
        → check c w ≡ true
        → matched (x ∷ xs) ≡ (w, x) ∷ matched xs
    unfolding matching
    matched-fit x xs w e f = ground arith

    abbrev IsFit : Version → A → List A → Type ℓ
    IsFit v a xs = Memᴰ a xs × (parse_version (text a) ≡ some v) × (check c v ≡ true)

    -- A version is kept with its parsed form exactly when it parses and satisfies the constraint.
    matched_sound : (v : Version) (a : A) (xs : List A) → Memᴰ (v, a) (matched xs) → IsFit v a xs
    matched_sound v a [] m = unfold matching in elim m [ ]
    matched_sound v a (x ∷ xs) m = elim (Option-cases (parse_version (text x))) [
      | inl e ↦ later (matched_sound v a xs (rw (matched-unparsed x xs e) at m))
      | inr (w, e) ↦ elim (Bool-cases (check c w)) [
        | inr f ↦ later (matched_sound v a xs (rw (matched-unfit x xs w e f) at m))
        | inl f ↦ elim (Memᴰ-cases (rw (matched-fit x xs w e f) at m)) [
          | inl same ↦ (
            Memᴰ.head (ap (λ p. p.1) same),
            rw (ap (λ p. p.1) same, ap (λ p. p.0) same) e,
            rw (ap (λ p. p.0) same) f,
          )
          | inr m' ↦ later (matched_sound v a xs m')
        ]
      ]
    ]
      where
        later : IsFit v a xs → IsFit v a (x ∷ xs)
        later (i, p, q) = (Memᴰ.tail i, p, q)

    matched_complete : (v : Version) (a : A) (xs : List A) → IsFit v a xs → Memᴰ (v, a) (matched xs)
    matched_complete v a [] (i, p, q) = elim i [ ]
    matched_complete v a (x ∷ xs) (Memᴰ.head e, p, q) =
        let p' : parse_version (text x) ≡ some v = rw (← e) p in
        rw (matched-fit x xs v p' q) (Memᴰ.head (ap (λ y. (v, y)) e))
    matched_complete v a (x ∷ xs) (Memᴰ.tail i, p, q) =
        elim (Option-cases (parse_version (text x))) [
          | inl e ↦ rw (matched-unparsed x xs e) (matched_complete v a xs (i, p, q))
          | inr (w, e) ↦ elim (Bool-cases (check c w)) [
            | inr f ↦ rw (matched-unfit x xs w e f) (matched_complete v a xs (i, p, q))
            | inl f ↦ rw (matched-fit x xs w e f) (Memᴰ.tail (matched_complete v a xs (i, p, q)))
          ]
        ]

  -- `cv` is one of the versions, reads as a semantic version that satisfies the constraint, and no
  -- other such entry is newer: none has a greater version, or an equal version and a later date.
  abbrev pub IsNewest : Constraint → List ChartVersion → ChartVersion → Type 0
  IsNewest c cvs cv =
      (v : Version) × Memᴰ cv cvs
      × (parse_version cv.version ≡ some v)
      × (check c v ≡ true)
      × ((w : Version) (d : ChartVersion)
          → Memᴰ d cvs
          → parse_version d.version ≡ some w
          → check c w ≡ true
          → (less_than v w ≡ false) × (equal v w ≡ true → d.created ≤ cv.created))

  -- No entry has the wanted version as its text.
  abbrev pub NoExact : List ChartVersion → Text → Type 0
  NoExact cvs ver = (ver ≡ []) ⊎ ((d : ChartVersion) → Memᴰ d cvs → d.version ≢ ver)

  abbrev pub IsChoice : List ChartVersion → Text → Result VersionError ChartVersion → Type 0
  IsChoice cvs ver (ok cv) =
      (Memᴰ cv cvs × (cv.version ≡ ver))
      ⊎ (NoExact cvs ver × ((c : Constraint) × (constraint_of lib ver ≡ ok c) × IsNewest c cvs cv))
  IsChoice cvs ver (err (no_match v)) =
      NoExact cvs ver
      × ((c : Constraint) × (constraint_of lib ver ≡ ok c)
          × ((d : ChartVersion) (w : Version)
              → Memᴰ d cvs
              → parse_version d.version ≡ some w
              → check c w ≡ false))
  IsChoice cvs ver (err e) = NoExact cvs ver × (constraint_of lib ver ≡ err e)

  newest_first-true :
      (y z : Version × ChartVersion)
      → newest_first lib y z ≡ true
      → (less_than y.0 z.0 ≡ false) × (equal y.0 z.0 ≡ true → z.1.created ≤ y.1.created)
  unfolding newest_first
  newest_first-true (v, a) (w, b) h = ground (arith, lib.equal_iff v w)

  exact-found :
      (cvs : List ChartVersion) (ver : Text) (cv : ChartVersion)
      → exact lib (λ d. d.version) ver cvs ≡ some cv
      → Memᴰ cv cvs × (cv.version ≡ ver)
  unfolding exact
  exact-found cvs [] cv h = cc
  exact-found cvs (b ∷ s) cv h =
      let (m, same) = find-some (λ (d : ChartVersion). (b ∷ s) == d.version) cvs cv h in
      (m, sym ((text_iff (b ∷ s) cv.version).0 same))

  exact-none :
      (cvs : List ChartVersion) (ver : Text)
      → exact lib (λ d. d.version) ver cvs ≡ none
      → NoExact cvs ver
  unfolding exact
  exact-none cvs [] h = inl refl
  exact-none cvs (b ∷ s) h = inr (λ d m e.
      let differ = find-none (λ (x : ChartVersion). (b ∷ s) == x.version) cvs h d m in
      ground (arith, text_iff (b ∷ s) d.version))

  constraint_of-err :
      (ver : Text) (e : VersionError)
      → constraint_of lib ver ≡ err e
      → (b : Text) × (e ≡ bad_constraint b)
  unfolding constraint_of
  constraint_of-err ver e h = ground arith

  module _ (sorter : Sorter (Version × ChartVersion)) where
    module _ (cvs : List ChartVersion) (ver : Text) (no_exact : NoExact cvs ver) where
      newest-IsChoice :
          (c : Constraint)
          → constraint_of lib ver ≡ ok c
          → (l : List (Version × ChartVersion)) → matched (λ d. d.version) c cvs ≡ l
          → IsChoice cvs ver (first_of_sorted lib sorter ver (sorter.sort (newest_first lib) l))
      unfolding first_of_sorted
      newest-IsChoice c k [] e = rw (sorter.sort-nil (newest_first lib)) (
        no_exact,
        (
          c,
          k,
          λ d w m p. elim (Bool-cases (check c w)) [
            | inr f ↦ f
            | inl f ↦
                absurd (Memᴰ-nil (rw e at (matched_complete (λ d. d.version) c w d cvs (m, p, f))))
          ],
        ),
      )
      newest-IsChoice c k (x ∷ xs) e =
          let (y, ys, sorted, m, least) =
            sorter.sort-first (newest_first lib) newest_first-IsOrder x xs in
          let (is_in, parses, fits) = matched_sound (λ d. d.version) c y.0 y.1 cvs (rw e m) in
          rw sorted (
            inr (
              no_exact,
              (
                c,
                k,
                (
                  y.0,
                  is_in,
                  parses,
                  fits,
                  λ w d i p f.
                      newest_first-true y (w, d)
                        (All-Memᴰ (λ z. newest_first lib y z ≡ true) (x ∷ xs) least
                          (rw e at (
                            matched_complete (λ (a : ChartVersion). a.version) c w d cvs
                              (i, p, f)))),
                ),
              ),
            ))

    module _ (cvs : List ChartVersion) (ver : Text) where
      choose_exact :
          (cv : ChartVersion)
          → exact lib (λ d. d.version) ver cvs ≡ some cv
          → choose_version lib sorter cvs ver ≡ ok cv
      unfolding choose_version
      choose_exact cv h = ground arith

      choose_range :
          (c : Constraint)
          → exact lib (λ d. d.version) ver cvs ≡ none
          → constraint_of lib ver ≡ ok c
          → choose_version lib sorter cvs ver
            ≡ first_of_sorted lib sorter ver
                (sorter.sort (newest_first lib) (matched (λ d. d.version) c cvs))
      unfolding choose_version
      choose_range c h k = ground arith

      choose_bad :
          (b : Text)
          → exact lib (λ d. d.version) ver cvs ≡ none
          → constraint_of lib ver ≡ err (bad_constraint b)
          → choose_version lib sorter cvs ver ≡ err (bad_constraint b)
      unfolding choose_version
      choose_bad b h k = ground arith

    -- Whatever the index holds and whatever version is asked for, the choice is an entry with that
    -- very version if there is one; else the newest entry that satisfies the constraint; and it
    -- fails exactly for a bad constraint, or when no entry satisfies the constraint.
    pub choose_version-IsChoice :
        (cvs : List ChartVersion) (ver : Text)
        → IsChoice cvs ver (choose_version lib sorter cvs ver)
    choose_version-IsChoice cvs ver =
        elim (Option-cases (exact lib (λ (d : ChartVersion). d.version) ver cvs)) [
          | inr (cv, found) ↦
              rw (choose_exact cvs ver cv found) (inl (exact-found cvs ver cv found))
          | inl missing ↦ elim (Result-cases (constraint_of lib ver)) [
            | inl (c, k) ↦ rw (choose_range cvs ver c missing k) (
                newest-IsChoice cvs ver (exact-none cvs ver missing) c k
                  (matched (λ (d : ChartVersion). d.version) c cvs) refl)
            | inr (e, k) ↦
                let (b, same) = constraint_of-err ver e k in
                rw (choose_bad cvs ver b missing (k ∙ ap err same))
                  (exact-none cvs ver missing, k ∙ ap err same)
          ]
        ]
