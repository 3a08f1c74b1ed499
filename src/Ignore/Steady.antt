-- ===== src/Ignore/Steady.antt =====
-- internal/helm/chart/secureloader/ignore/rules.go: what a call of `Ignore` leaves of the rules.
use flux_build.Base.{
  Bool, false, ◌||◌, none, some, List, [], ◌∷◌, ◌==◌, ◌≡◌, refl, ap, ◌∙◌, inl, inr, arith, All,
  Bool-cases, nat_eq,
}
use flux_build.Base.Text.{Text, codes, text_eq, is_empty, has_prefix, trim_prefix, drop_prefix}
use flux_build.Ignore.{
  Matcher, rooted, structural, by_name, Pattern, trimmed, subject, matches, says, ignore_by, ignore,
}
use flux_build.Ignore.Glob.{glob_match}

-- A rule that does not begin with two slashes
unfoldable pub IsSteady : Pattern → Type 0
IsSteady p = has_prefix p.rule (codes "//") ≡ false

trim_prefix-twice :
    (s : Text)
    → has_prefix s (codes "//") ≡ false
    → trim_prefix (trim_prefix s (codes "/")) (codes "/") ≡ trim_prefix s (codes "/")
unfolding trim_prefix has_prefix drop_prefix
trim_prefix-twice [] h = refl
trim_prefix-twice (b ∷ []) h = elim (Bool-cases (b == b'/')) [
  | inl slash ↦ rw slash refl
  | inr other ↦ rw other (rw other refl)
]
trim_prefix-twice (b ∷ c ∷ s) h = elim (Bool-cases (b == b'/')) [
  | inl slash ↦ let other : (c == b'/') ≡ false = ground arith in rw slash (rw other refl)
  | inr other ↦ rw other (rw other refl)
]

trimmed-at :
    (m : Matcher) (p : Pattern)
    → p.matcher ≡ m
    → IsSteady p
    → (trimmed (trimmed p) ≡ trimmed p)
      × ((trimmed p).matcher ≡ p.matcher)
      × ((trimmed p).negate ≡ p.negate)
      × ((trimmed p).must_dir ≡ p.must_dir)
unfolding trimmed IsSteady
trimmed-at rooted p e steady =
    let same : trimmed p ≡ record p { rule = trim_prefix p.rule (codes "/") } = ground arith in
    (ground (arith, trim_prefix-twice p.rule steady), ground arith, ground arith, ground arith)
trimmed-at structural p e steady =
    let same : trimmed p ≡ p = ground arith in
    (ap trimmed same, ap (λ q. q.matcher) same, ap (λ q. q.negate) same, ap (λ q. q.must_dir) same)
trimmed-at by_name p e steady =
    let same : trimmed p ≡ p = ground arith in
    (ap trimmed same, ap (λ q. q.matcher) same, ap (λ q. q.negate) same, ap (λ q. q.must_dir) same)

matches-trimmed :
    (p : Pattern) (path : Text) → IsSteady p → matches (trimmed p) path ≡ matches p path
unfolding matches
matches-trimmed p path steady =
    let (twice, matcher, negate, must_dir) = trimmed-at p.matcher p refl steady in
    ap
      (λ r. elim (glob_match r (subject (trimmed p).matcher path)) [
        | none ↦ false
        | some answer ↦ answer
      ])
      (ap (λ q. q.rule) twice)
    ∙ ap
        (λ m. elim (glob_match (trimmed p).rule (subject m path)) [
          | none ↦ false
          | some answer ↦ answer
        ])
        matcher

says-trimmed :
    (p : Pattern) (path : Text) (is_dir : Bool)
    → IsSteady p
    → says (trimmed p) path is_dir ≡ says p path is_dir
unfolding says
says-trimmed p path is_dir steady =
    let (twice, matcher, negate, must_dir) = trimmed-at p.matcher p refl steady in
    ground (arith, matches-trimmed p path steady)

ignore_by-again :
    (ps : List Pattern) (path other : Text) (is_dir other_is_dir : Bool)
    → All IsSteady ps
    → (ignore_by (ignore_by ps path is_dir).1 other other_is_dir).0
      ≡ (ignore_by ps other other_is_dir).0
unfolding ignore_by
ignore_by-again [] path other is_dir other_is_dir steady = refl
ignore_by-again (p ∷ ps) path other is_dir other_is_dir (steady, rest) =
    elim (Bool-cases (says p path is_dir).0) [
      | inl hit ↦ elim (Bool-cases (says p path is_dir).1) [
        | inl called ↦ ground (arith, says-trimmed p other other_is_dir steady)
        | inr uncalled ↦ ground arith
      ]
      | inr miss ↦
          let later = ignore_by-again ps path other is_dir other_is_dir rest in
          elim (Bool-cases (says p path is_dir).1) [
            | inl called ↦ ground (arith, says-trimmed p other other_is_dir steady, later)
            | inr uncalled ↦ ground (arith, later)
          ]
    ]

-- Where no rule begins with two slashes, what a call of Ignore does to the rules does not show: any
-- file is judged after it as it was judged before.
pub ignore-again :
    (ps : List Pattern) (path other : Text) (is_dir other_is_dir : Bool)
    → All IsSteady ps
    → (ignore (ignore ps path is_dir).1 other other_is_dir).0 ≡ (ignore ps other other_is_dir).0
unfolding ignore
ignore-again ps path other is_dir other_is_dir steady =
    elim (Bool-cases (is_empty path || path == codes "." || path == codes "./")) [
      | inl excluded ↦ rw excluded refl
      | inr usual ↦
          rw usual (ground (arith, ignore_by-again ps path other is_dir other_is_dir steady))
    ]

trim_prefix-IsSteady :
    (s : Text)
    → has_prefix s (codes "//") ≡ false
    → has_prefix (trim_prefix s (codes "/")) (codes "//") ≡ false
unfolding trim_prefix has_prefix drop_prefix
trim_prefix-IsSteady [] h = refl
trim_prefix-IsSteady (b ∷ []) h = elim (Bool-cases (b == b'/')) [
  | inl slash ↦ rw slash refl
  | inr other ↦ rw other (rw other refl)
]
trim_prefix-IsSteady (b ∷ c ∷ s) h = elim (Bool-cases (b == b'/')) [
  | inl slash ↦ let other : (c == b'/') ≡ false = ground arith in rw slash (ground arith)
  | inr other ↦ rw other (rw other refl)
]

trimmed-IsSteady : (m : Matcher) (p : Pattern) → p.matcher ≡ m → IsSteady p → IsSteady (trimmed p)
unfolding trimmed IsSteady
trimmed-IsSteady rooted p e steady =
    let same : trimmed p ≡ record p { rule = trim_prefix p.rule (codes "/") } = ground arith in
    ground (arith, trim_prefix-IsSteady p.rule steady)
trimmed-IsSteady structural p e steady = let same : trimmed p ≡ p = ground arith in rw same steady
trimmed-IsSteady by_name p e steady = let same : trimmed p ≡ p = ground arith in rw same steady

ignore_by-IsSteady :
    (ps : List Pattern) (path : Text) (is_dir : Bool)
    → All IsSteady ps
    → All IsSteady (ignore_by ps path is_dir).1
unfolding ignore_by
ignore_by-IsSteady [] path is_dir steady = tt
ignore_by-IsSteady (p ∷ ps) path is_dir (steady, rest) =
    let later = ignore_by-IsSteady ps path is_dir rest in
    let now = trimmed-IsSteady p.matcher p refl steady in
    elim (Bool-cases (says p path is_dir).0) [
      | inl hit ↦ elim (Bool-cases (says p path is_dir).1) [
        | inl called ↦ rw (hit, called) (now, rest)
        | inr uncalled ↦ rw (hit, uncalled) (steady, rest)
      ]
      | inr miss ↦ elim (Bool-cases (says p path is_dir).1) [
        | inl called ↦ rw (miss, called) (now, later)
        | inr uncalled ↦ rw (miss, uncalled) (steady, later)
      ]
    ]

-- The rules stay as they are in this.
pub ignore-IsSteady :
    (ps : List Pattern) (path : Text) (is_dir : Bool)
    → All IsSteady ps
    → All IsSteady (ignore ps path is_dir).1
unfolding ignore
ignore-IsSteady ps path is_dir steady =
    elim (Bool-cases (is_empty path || path == codes "." || path == codes "./")) [
      | inl excluded ↦ rw excluded steady
      | inr usual ↦ rw usual (ignore_by-IsSteady ps path is_dir steady)
    ]
