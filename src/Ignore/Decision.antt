-- ===== src/Ignore/Decision.antt =====
-- internal/helm/chart/secureloader/ignore/rules.go: what the rules decide, and what a call leaves.
use flux_build.Base.{
  Bool, true, false, not, ◌&&◌, ◌||◌, some, List, [], ◌∷◌, ◌==◌, ◌≡◌, ◌≢◌, ◌↔◌, refl, sym, ◌⊎◌, inl,
  inr, arith, Bool-cases, Option-cases, List-cases, Memᴰ-nil, Memᴰ-cases, nat_eq,
}
use flux_build.Base.Text.{Text, codes, text_eq, text_iff, is_empty}
use flux_build.Ignore.{Pattern, trimmed, subject, matches, says, ignore_by, ignore}
use flux_build.Ignore.Glob.{Term, terms, glob_match}
use flux_build.Ignore.Glob.Language.{Language, accepts_iff}
use mathlib.Core.List.{Memᴰ}

-- A pattern describes a path.
unfoldable pub Describes : Pattern → Text → Type 0
unfolding subject
Describes p path =
    (ts : List Term) × (terms (trimmed p).rule ≡ some ts) × Language ts (subject p.matcher path)

-- A pattern has a file ignored: a negative one if it does not describe the path, or wants a directory
-- and there is none.
unfoldable pub Hits : Pattern → Text → Bool → Type 0
Hits p path is_dir =
    ((p.negate ≡ false) × (p.must_dir ≡ true → is_dir ≡ true) × Describes p path)
    ⊎ ((p.negate ≡ true) × (((p.must_dir ≡ true) × (is_dir ≡ false)) ⊎ (Describes p path → ⊥)))

matches_iff : (p : Pattern) (path : Text) → (matches p path ≡ true) ↔ Describes p path
unfolding matches Describes subject glob_match
matches_iff p path = elim (Option-cases (terms (trimmed p).rule)) [
  | inl bad ↦ (λ h. ground arith, λ (ts, e, in_it). ground arith)
  | inr (ts, e) ↦ (
    λ h. (ts, e, (accepts_iff ts (subject p.matcher path)).0 (ground arith)),
    λ (ts', e', in_it). ground (arith, (accepts_iff ts' (subject p.matcher path)).1 in_it),
  )
]

says_iff :
    (p : Pattern) (path : Text) (is_dir : Bool)
    → ((says p path is_dir).0 ≡ true) ↔ Hits p path is_dir
unfolding says Hits
says_iff p path is_dir = elim (Bool-cases (p.must_dir && not is_dir)) [
  | inl no_dir ↦ elim (Bool-cases p.negate) [
    | inl negative ↦ (λ h. inr (negative, inl (ground arith, ground arith)), λ h. ground arith)
    | inr positive ↦ (
      λ h. ground arith,
      λ h. elim h [ inl (plain, wants, d) ↦ ground arith | inr (negative, d) ↦ ground arith ],
    )
  ]
  | inr fits ↦ elim (Bool-cases p.negate) [
    | inl negative ↦ (
      λ h. inr (negative, inr (λ d. ground (arith, (matches_iff p path).1 d))),
      λ h. elim h [
        | inl (plain, wants, d) ↦ ground arith
        | inr (n, reason) ↦ elim reason [
          | inl (wants, no_dir) ↦ ground arith
          | inr apart ↦ elim (Bool-cases (matches p path)) [
            | inl hit ↦ absurd (apart ((matches_iff p path).0 hit))
            | inr miss ↦ ground arith
          ]
        ]
      ],
    )
    | inr positive ↦ (
      λ h. inl (positive, λ wants. ground arith, (matches_iff p path).0 (ground arith)),
      λ h. elim h [
        | inl (plain, wants, d) ↦ ground (arith, (matches_iff p path).1 d)
        | inr (negative, d) ↦ ground arith
      ],
    )
  ]
]

ignore_by_iff :
    (ps : List Pattern) (path : Text) (is_dir : Bool)
    → ((ignore_by ps path is_dir).0 ≡ true) ↔ ((p : Pattern) × Memᴰ p ps × Hits p path is_dir)
unfolding ignore_by
ignore_by_iff [] path is_dir = (λ h. cc, λ (p, m, hit). absurd (Memᴰ-nil m))
ignore_by_iff (p ∷ ps) path is_dir = elim (Bool-cases (says p path is_dir).0) [
  | inl hit ↦ (λ h. (p, Memᴰ.head refl, (says_iff p path is_dir).0 hit), λ h. ground arith)
  | inr miss ↦ (
    λ h.
        let (q, m, hits) = (ignore_by_iff ps path is_dir).0 (ground arith) in
        (q, Memᴰ.tail m, hits),
    λ (q, m, hits). elim (Memᴰ-cases m) [
      | inl same ↦ let says_so = (says_iff p path is_dir).1 (rw (sym same) hits) in ground arith
      | inr later ↦ ground (arith, (ignore_by_iff ps path is_dir).1 (q, later, hits))
    ],
  )
]

-- A file is ignored exactly if its path is not empty, `.` or `./`, and some pattern has it ignored,
-- the patterns after it notwithstanding; a negative pattern never saves a file that another pattern
-- has ignored.
pub ignore_iff :
    (ps : List Pattern) (path : Text) (is_dir : Bool)
    → ((ignore ps path is_dir).0 ≡ true) ↔ (
        (path ≢ [])
        × (path ≢ codes ".")
        × (path ≢ codes "./")
        × (p : Pattern) × Memᴰ p ps
        × Hits p path is_dir)
unfolding ignore
ignore_iff ps path is_dir =
    elim (Bool-cases (is_empty path || path == codes "." || path == codes "./")) [
      | inl excluded ↦ (
        λ h. ground arith,
        λ (not_empty, not_dot, not_dot_slash, p, m, hits).
            ground (arith, text_iff path (codes "."), text_iff path (codes "./"), List-cases path),
      )
      | inr usual ↦ (
        λ h.
            let (p, m, hits) = (ignore_by_iff ps path is_dir).0 (ground arith) in
            (
              λ e. ground arith,
              λ e. ground (arith, text_iff path (codes ".")),
              λ e. ground (arith, text_iff path (codes "./")),
              p,
              m,
              hits,
            ),
        λ (not_empty, not_dot, not_dot_slash, p, m, hits).
            ground (arith, (ignore_by_iff ps path is_dir).1 (p, m, hits)),
      )
    ]
