-- ===== src/Chart/Dependencies/Group/Ends.antt =====
-- internal/helm/chart/dependency_manager.go: a group of workers ends, and never runs more of them than
-- it may.
use flux_build.Base.{
  ℕ, zero, suc, ◌+◌, ◌*◌, ◌≤◌, ◌<◌, none, some, List, [], ◌∷◌, ◌≡◌, refl, ◌⊎◌, inl, inr, arith,
  length, ltb, Bool-cases, Option-cases, List-cases,
}
use flux_build.Base.Dict.{Dict}
use flux_build.Base.Results.{Result, Result-cases}
use flux_build.Base.Text.{Text}
use flux_build.Auth.Types.{UrlLibrary}
use flux_build.Chart.Dependencies.{DependencyError, Session}
use flux_build.Chart.Dependencies.Fetch.{fetch}
use flux_build.Chart.Dependencies.Group.{
  Worker, fetching, holding, Event, acquire, stop, work, pick, limit, Group, start, go_on, step,
  run, wait,
}
use flux_build.Chart.Dependencies.Group.Once.{total, pick-total}
use flux_build.Chart.Host.{Dependency, Metadata, Host}
use flux_build.Chart.Reference.{Reference}
use flux_build.Repository.Versions.{Semver}

weight : {V : Type 0} → Worker V → ℕ
weight (fetching n dep) = 2
weight (holding n ch) = 1

total-length : {A : Type 0} (xs : List A) → total (λ _. 1) xs ≡ length xs
total-length [] = refl
total-length (x ∷ xs) = omega (arith, total-length xs)

limit-positive : (n : ℕ) → 0 < limit n
unfolding limit
limit-positive zero = omega arith
limit-positive (suc n) = omega arith

module _ {V : Type 0} (host : Host V) (urls : UrlLibrary) (semver : Semver) (ref : Reference)
    (concurrent : ℕ) where
  -- What is left to do, in events
  measure : Group V host.World → ℕ
  measure g = 3 * length g.pending + total weight g.running

  go_on-measure :
      (worker : Worker V) (others : List (Worker V)) (g : Group V host.World)
      → measure (go_on host urls semver ref concurrent worker others g)
        < 3 * length g.pending + (weight worker + total weight others)
  unfolding go_on measure weight
  go_on-measure (holding n ch) others g = ground arith
  go_on-measure (fetching n dep) others g =
      elim (Result-cases (fetch host urls semver ref dep g.session).0) [
        | inl (ch, fetched) ↦ ground arith
        | inr (e, failed) ↦ ground arith
      ]

  step-measure :
      (e : Event) (g g' : Group V host.World)
      → step host urls semver ref concurrent e g ≡ some g'
      → measure g' < measure g
  unfolding step measure weight
  step-measure acquire g g' h = elim (List-cases g.pending) [
    | inl nothing ↦ ground arith
    | inr ((n, dep), rest, next) ↦ elim (Bool-cases (ltb (length g.running) (limit concurrent))) [
      | inl free ↦
          let same : g' ≡ record g { pending = rest; running = fetching n dep ∷ g.running } =
            ground arith in
          ground arith
      | inr full ↦ ground arith
    ]
  ]
  step-measure stop g g' h = elim (Option-cases g.failure) [
    | inl no_failure ↦ ground arith
    | inr (e, failed) ↦ elim (List-cases g.pending) [
      | inl nothing ↦ ground arith
      | inr (p, rest, next) ↦
          let same : g' ≡ record g { pending = [] } = ground arith in ground arith
    ]
  ]
  step-measure (work i) g g' h = elim (Option-cases (pick i g.running)) [
    | inl out ↦ ground arith
    | inr ((worker, others), picked) ↦
        let same : g' ≡ go_on host urls semver ref concurrent worker others g = ground arith in
        ground (arith, go_on-measure worker others g, pick-total weight i g.running picked)
  ]

  run-measure :
      (es : List Event) (g g' : Group V host.World)
      → run host urls semver ref concurrent es g ≡ some g'
      → length es + measure g' ≤ measure g
  unfolding run
  run-measure [] g g' h = ground arith
  run-measure (e ∷ es) g g' h = elim (Option-cases (step host urls semver ref concurrent e g)) [
    | inl stuck ↦ ground arith
    | inr (g1, stepped) ↦
        omega (arith, run-measure es g1 g' (ground arith), step-measure e g g1 stepped)
  ]

  go_on-running :
      (worker : Worker V) (others : List (Worker V)) (g : Group V host.World)
      → length (go_on host urls semver ref concurrent worker others g).running ≤ suc (length others)
  unfolding go_on
  go_on-running (holding n ch) others g = ground arith
  go_on-running (fetching n dep) others g =
      elim (Result-cases (fetch host urls semver ref dep g.session).0) [
        | inl (ch, fetched) ↦ ground arith
        | inr (e, failed) ↦ ground arith
      ]

  step-running :
      (e : Event) (g g' : Group V host.World)
      → step host urls semver ref concurrent e g ≡ some g'
      → length g.running ≤ limit concurrent
      → length g'.running ≤ limit concurrent
  unfolding step
  step-running acquire g g' h bound = elim (List-cases g.pending) [
    | inl nothing ↦ ground arith
    | inr ((n, dep), rest, next) ↦ elim (Bool-cases (ltb (length g.running) (limit concurrent))) [
      | inl free ↦
          let same : g' ≡ record g { pending = rest; running = fetching n dep ∷ g.running } =
            ground arith in
          rw same (ground arith)
      | inr full ↦ ground arith
    ]
  ]
  step-running stop g g' h bound = elim (Option-cases g.failure) [
    | inl no_failure ↦ ground arith
    | inr (e, failed) ↦ elim (List-cases g.pending) [
      | inl nothing ↦ ground arith
      | inr (p, rest, next) ↦
          let same : g' ≡ record g { pending = [] } = ground arith in rw same bound
    ]
  ]
  step-running (work i) g g' h bound = elim (Option-cases (pick i g.running)) [
    | inl out ↦ ground arith
    | inr ((worker, others), picked) ↦
        let same : g' ≡ go_on host urls semver ref concurrent worker others g = ground arith in
        rw same (
          omega (
            arith,
            go_on-running worker others g,
            pick-total (λ _. 1) i g.running picked,
            total-length g.running,
            total-length others,
          ))
  ]

  run-running :
      (es : List Event) (g g' : Group V host.World)
      → run host urls semver ref concurrent es g ≡ some g'
      → length g.running ≤ limit concurrent
      → length g'.running ≤ limit concurrent
  unfolding run
  run-running [] g g' h bound = ground arith
  run-running (e ∷ es) g g' h bound =
      elim (Option-cases (step host urls semver ref concurrent e g)) [
        | inl stuck ↦ ground arith
        | inr (g1, stepped) ↦
            run-running es g1 g' (ground arith) (step-running e g g1 stepped bound)
      ]

  -- On every schedule, no more workers run at once than the manager allows, which is one if it names
  -- no positive number.
  pub run-limit :
      (deps : Dict Text Dependency) (s : Session host.World) (es : List Event)
      (g : Group V host.World)
      → run host urls semver ref concurrent es (start host urls semver deps s) ≡ some g
      → length g.running ≤ limit concurrent
  unfolding start
  run-limit deps s es g ran =
      run-running es (start host urls semver deps s) g ran
        (omega (arith, limit-positive concurrent))

  step-next :
      (g : Group V host.World)
      → wait host urls semver ref concurrent g ≡ none
      → (e : Event) × (g' : Group V host.World) × (step host urls semver ref concurrent e g
          ≡ some g')
  unfolding wait step pick
  step-next g waits = elim (List-cases g.running) [
    | inr (worker, others, runs) ↦
        (work 0, go_on host urls semver ref concurrent worker others g, rw runs refl)
    | inl none_runs ↦ elim (List-cases g.pending) [
      | inl none_left ↦ absurd (ground arith)
      | inr ((n, dep), rest, next) ↦ (
        acquire,
        record g { pending = rest; running = fetching n dep ∷ g.running },
        ground (arith, limit-positive concurrent),
      )
    ]
  ]

  -- Every schedule ends, after three events for each missing dependency at most, and until the group
  -- has its answer some event can happen.
  pub run-ends :
      (deps : Dict Text Dependency) (s : Session host.World) (es : List Event)
      (g : Group V host.World)
      → run host urls semver ref concurrent es (start host urls semver deps s) ≡ some g
      → (length es ≤ 3 * length deps)
        × (((r : Result DependencyError (Dict Text Metadata)) × (wait host urls semver ref
                  concurrent g
                ≡ some r))
            ⊎ ((e : Event) × (g' : Group V host.World) × (step host urls semver ref concurrent e g
                  ≡ some g')))
  unfolding start measure
  run-ends deps s es g ran = (
    ground (arith, run-measure es (start host urls semver deps s) g ran),
    elim (Option-cases (wait host urls semver ref concurrent g)) [
      | inl waits ↦ inr (step-next g waits)
      | inr (r, ended) ↦ inl (r, ended)
    ],
  )
