-- ===== src/Repository/Versions.antt =====
-- The choice of a chart version: `getChartVersion` of internal/helm/repository/chart_repository.go
-- and `getLastMatchingVersionOrConstraint` of oci_chart_repository.go. The semver library is a
-- parameter.
pub mod Latest
use flux_build.Base.{
  ℕ, ◌≡◌, ◌≢◌, ◌⊎◌, ◌↔◌, Bool, true, false, not, ◌||◌, Option, none, some, List, [], ◌∷◌, arith, Eq,
  ◌==◌, find, ltb, if◌then◌else◌,
}
use flux_build.Base.Dict.{Dict, lookup}
use flux_build.Base.Results.{Result, ok, err, ◌>>=◌}
use flux_build.Base.Text.{Text, codes, text_eq, is_empty}
use flux_build.Repository.Sorting.{Sorter}

-- `github.com/Masterminds/semver/v3`, and `version.ParseVersion` of fluxcd/pkg. `Compare` is a total
-- preorder, and `Equal` and `LessThan` are read off it.
pub record Semver : Type 1 where
  pub Version : Type 0
  pub Constraint : Type 0
  pub parse_version : Text → Option Version
  pub new_constraint : Text → Option Constraint
  pub check : Constraint → Version → Bool
  pub original : Version → Text
  pub equal : Version → Version → Bool
  pub less_than : Version → Version → Bool
  pub equal_iff :
      (a b : Version) → (equal a b ≡ true) ↔ ((less_than a b ≡ false) × (less_than b a ≡ false))
  pub asymmetric : (a b : Version) → less_than a b ≡ true → less_than b a ≡ false
  pub less-trans :
      (a b c : Version) → less_than a b ≡ false → less_than b c ≡ false → less_than a c ≡ false

-- repo.ChartVersion, with the fields that are read; `created` is a point in time.
pub record ChartVersion : Type 0 where
  pub name : Text
  pub version : Text
  pub api_version : Text
  pub urls : List Text
  pub created : ℕ

pub data VersionError : Type 0 where
  no_chart_index no_chart_name no_chart_version : VersionError
  bad_constraint : Text → VersionError
  no_match : Text → VersionError

module _ (lib : Semver) where
  -- The constraint: `*` for an empty version and for `*`.
  unfoldable pub constraint_of : Text → Result VersionError lib.Constraint
  constraint_of ver = elim (lib.new_constraint (codes "*")) [
    | none ↦ err (bad_constraint (codes "*"))
    | some any_version ↦
        if is_empty ver || ver == codes "*"
        then ok any_version
        else (elim (lib.new_constraint ver) [ none ↦ err (bad_constraint ver) | some c ↦ ok c ])
  ]

  -- The loop that keeps what parses and satisfies the constraint, with the parsed versions.
  unfoldable pub matching {ℓ} :
      {A : Type ℓ} → (A → Text) → lib.Constraint → List A → List (lib.Version × A)
  matching text c [] = []
  matching text c (a ∷ more) =
      let rest = matching text c more in
      elim (lib.parse_version (text a)) [
        | none ↦ rest
        | some v ↦ if lib.check c v then (v, a) ∷ rest else rest
      ]

  -- The function that `SliceStable` is given: the negation of the chronological order.
  older : lib.Version × ChartVersion → lib.Version × ChartVersion → Bool
  older (v, a) (w, b) = if not (lib.equal v w) then lib.less_than v w else ltb a.created b.created

  unfoldable pub newest_first : lib.Version × ChartVersion → lib.Version × ChartVersion → Bool
  unfolding older
  newest_first l r = not (older l r)

  exact {ℓ} : {A : Type ℓ} → (A → Text) → Text → List A → Option A
  exact text ver xs = if is_empty ver then none else find (λ a. ver == text a) xs

  module _ (sorter : Sorter (lib.Version × ChartVersion)) where
    first_of_sorted : Text → List (lib.Version × ChartVersion) → Result VersionError ChartVersion
    first_of_sorted ver [] = err (no_match ver)
    first_of_sorted ver ((_, cv) ∷ rest) = ok cv

    -- The choice among the versions of one chart.
    unfoldable pub choose_version : List ChartVersion → Text → Result VersionError ChartVersion
    unfolding exact first_of_sorted
    choose_version cvs ver = elim (exact (λ c. c.version) ver cvs) [
      | some cv ↦ ok cv
      | none ↦ do
        c ← constraint_of ver
        first_of_sorted ver (sorter.sort newest_first (matching (λ c. c.version) c cvs))
    ]

    versions_at : Option (List ChartVersion) → Text → Result VersionError ChartVersion
    unfolding choose_version
    versions_at none ver = err no_chart_name
    versions_at (some []) ver = err no_chart_version
    versions_at (some (c ∷ cvs)) ver = choose_version (c ∷ cvs) ver

    -- `ChartRepository.getChartVersion`, on the entries of the index, if it is loaded
    unfoldable pub get_chart_version :
        Option (Dict Text (List ChartVersion)) → Text → Text → Result VersionError ChartVersion
    unfolding versions_at
    get_chart_version none name ver = err no_chart_index
    get_chart_version (some entries) name ver = versions_at (lookup name entries) ver

  -- `sort.Reverse(semver.Collection(...))`, as a test that puts the greatest first
  unfoldable pub greatest_first : lib.Version × Text → lib.Version × Text → Bool
  greatest_first (v, _) (w, _) = not (lib.less_than v w)

  module _ (sorter : Sorter (lib.Version × Text)) where
    first_tag : Text → List (lib.Version × Text) → Result VersionError Text
    first_tag ver [] = err (no_match ver)
    first_tag ver ((v, _) ∷ rest) = ok (lib.original v)

    -- `getLastMatchingVersionOrConstraint`
    unfoldable pub last_matching : List Text → Text → Result VersionError Text
    unfolding exact first_tag
    last_matching cvs ver = elim (exact (λ t. t) ver cvs) [
      | some cv ↦ ok cv
      | none ↦ do
        c ← constraint_of ver
        first_tag ver (sorter.sort greatest_first (matching (λ t. t) c cvs))
    ]
