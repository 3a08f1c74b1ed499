-- ===== src/Chart/Dependencies/Missing.antt =====
-- internal/helm/chart/dependency_manager.go, `collectMissing`: which dependencies are missing.
use flux_build.Base.{
  true, false, Option, none, some, List, [], ◌∷◌, ◌==◌, nat_eq, nat_beq_iff, ◌≡◌, ◌≢◌, ◌↔◌, refl,
  ◌⊎◌, inl, inr, arith, All, length, Bool-cases, Option-cases, if◌then◌else◌,
}
use flux_build.Base.Dict.{Dict, lookup, insert, lookup-nil, lookup-insert}
use flux_build.Base.Text.{Text, is_empty, text_eq, text_iff}
use flux_build.Chart.Dependencies.{key_of, has_name, missing_from, collect_missing}
use flux_build.Chart.Host.{Dependency, Metadata}

-- The last request with a key
unfoldable pub last_request : Text → List Dependency → Option Dependency
last_request name [] = none
last_request name (dep ∷ deps) = elim (last_request name deps) [
  | some d ↦ some d
  | none ↦ if key_of dep == name then some dep else none
]

lookup-missing_from :
    (current : List Metadata) (so_far : Dict Text Dependency) (reqs : List Dependency) (name : Text)
    → has_name name current ≡ false
    → lookup name (missing_from current so_far reqs)
      ≡ elim (last_request name reqs) [ some d ↦ some d | none ↦ lookup name so_far ]
unfolding missing_from last_request
lookup-missing_from current so_far [] name absent = refl
lookup-missing_from current so_far (dep ∷ deps) name absent =
    let keep : Dict Text Dependency =
      if has_name (key_of dep) current then so_far else insert (key_of dep) dep so_far in
    ground (
      arith,
      text_iff (key_of dep) name,
      lookup-missing_from current keep deps name absent,
      lookup-insert name (key_of dep) dep so_far,
    )

lookup-missing_present :
    (current : List Metadata) (so_far : Dict Text Dependency) (reqs : List Dependency) (name : Text)
    → has_name name current ≡ true
    → lookup name (missing_from current so_far reqs) ≡ lookup name so_far
unfolding missing_from
lookup-missing_present current so_far [] name present = refl
lookup-missing_present current so_far (dep ∷ deps) name present =
    let keep : Dict Text Dependency =
      if has_name (key_of dep) current then so_far else insert (key_of dep) dep so_far in
    ground (
      arith,
      text_iff (key_of dep) name,
      lookup-missing_present current keep deps name present,
      lookup-insert name (key_of dep) dep so_far,
    )

-- If the chart has another number of dependencies than are asked for, a name is missing exactly if
-- the chart has no dependency of that name and one is asked for; the last one is taken.
pub collect_missing_iff :
    (current : List Metadata) (reqs : List Dependency) (name : Text) (dep : Dependency)
    → length current ≢ length reqs
    → (lookup name (collect_missing current reqs) ≡ some dep)
      ↔ ((has_name name current ≡ false) × (last_request name reqs ≡ some dep))
unfolding collect_missing
collect_missing_iff current reqs name dep differ =
    let unequal : (length current == length reqs) ≡ false =
      ground (arith, nat_beq_iff (length current) (length reqs)) in
    rw unequal (elim (Bool-cases (has_name name current)) [
      | inl present ↦ ground (
        arith,
        lookup-missing_present current [] reqs name present,
        lookup-nil {V = Dependency} name,
      )
      | inr absent ↦ ground (
        arith,
        lookup-missing_from current [] reqs name absent,
        lookup-nil {V = Dependency} name,
        Option-cases (last_request name reqs),
      )
    ])

insert-entry :
    (k : Text) (dep : Dependency) (m : Dict Text Dependency) → is_empty (insert k dep m) ≡ false
unfolding insert
insert-entry k dep [] = refl
insert-entry k dep ((j, d) ∷ m) = ground arith

keeps_entries :
    (current : List Metadata) (so_far : Dict Text Dependency) (reqs : List Dependency)
    → is_empty so_far ≡ false
    → is_empty (missing_from current so_far reqs) ≡ false
unfolding missing_from
keeps_entries current so_far [] h = h
keeps_entries current so_far (dep ∷ deps) h =
    keeps_entries current
      (if has_name (key_of dep) current then so_far else insert (key_of dep) dep so_far) deps
      (elim (Bool-cases (has_name (key_of dep) current)) [
        | inl present ↦ rw present h
        | inr absent ↦ rw absent (insert-entry (key_of dep) dep so_far)
      ])

missing_from-present :
    (current : List Metadata) (so_far : Dict Text Dependency) (reqs : List Dependency)
    → All (λ dep. has_name (key_of dep) current ≡ true) reqs
    → missing_from current so_far reqs ≡ so_far
unfolding missing_from
missing_from-present current so_far [] h = refl
missing_from-present current so_far (dep ∷ deps) (present, others) =
    rw present (missing_from-present current so_far deps others)

present-missing_from :
    (current : List Metadata) (reqs : List Dependency)
    → missing_from current [] reqs ≡ []
    → All (λ dep. has_name (key_of dep) current ≡ true) reqs
unfolding missing_from insert
present-missing_from current [] h = tt
present-missing_from current (dep ∷ deps) h = elim (Bool-cases (has_name (key_of dep) current)) [
  | inl present ↦ (present, present-missing_from current deps (ground arith))
  | inr absent ↦ let kept = keeps_entries current ((key_of dep, dep) ∷ []) deps refl in ground arith
]

-- Nothing is missing exactly if there are as many dependencies as are asked for, whatever their
-- names, or the chart has all that are asked for.
pub collect_missing-nil_iff :
    (current : List Metadata) (reqs : List Dependency)
    → (collect_missing current reqs ≡ [])
      ↔ ((length current ≡ length reqs) ⊎ All (λ dep. has_name (key_of dep) current ≡ true) reqs)
unfolding collect_missing
collect_missing-nil_iff current reqs = elim (Bool-cases (length current == length reqs)) [
  | inl equal ↦
      let same : length current ≡ length reqs =
        (nat_beq_iff (length current) (length reqs)).0 equal in
      (λ h. inl same, λ h. rw equal refl)
  | inr unequal ↦ (
    λ h. inr (present-missing_from current reqs (ground arith)),
    λ h. elim h [
      | inl same ↦ ground (arith, nat_beq_iff (length current) (length reqs))
      | inr present ↦ rw unequal (missing_from-present current [] reqs present)
    ],
  )
]
