-- ===== src/Chart/Dependencies/Group/Once.antt =====
-- internal/helm/chart/dependency_manager.go: a group of workers that ends without an error has added
-- each missing dependency once.
use flux_build.Base.{
  ℕ, zero, suc, ◌+◌, ◌&&◌, none, some, List, [], ◌∷◌, ◌++◌, ◌==◌, ◌≡◌, ◌∙◌, inl, inr, arith,
  if◌then◌else◌, length, ltb, Bool-cases, Option-cases, List-cases,
}
use flux_build.Base.Dict.{Dict}
use flux_build.Base.Results.{ok, Result-cases}
use flux_build.Base.Text.{Text, text_eq, is_empty}
use flux_build.Auth.Types.{UrlLibrary}
use flux_build.Chart.Dependencies.{Session}
use flux_build.Chart.Dependencies.Fetch.{fetch}
use flux_build.Chart.Dependencies.Group.{
  Worker, fetching, holding, Event, acquire, stop, work, pick, limit, Group, keep_first, start,
  go_on, step, run, wait,
}
use flux_build.Chart.Host.{Dependency, Metadata, Host}
use flux_build.Chart.Reference.{Reference}
use flux_build.Repository.Versions.{Semver}

module _ {ℓ} {A : Type ℓ} where
  abbrev pub total : (A → ℕ) → List A → ℕ
  total f [] = 0
  total f (x ∷ xs) = f x + total f xs

  pub total-append : (f : A → ℕ) (xs ys : List A) → total f (xs ++ ys) ≡ total f xs + total f ys
  total-append f [] ys = omega arith
  total-append f (x ∷ xs) ys = omega (arith, total-append f xs ys)

  pub pick-total :
      (f : A → ℕ) (i : ℕ) (xs : List A) {y : A} {ys : List A}
      → pick i xs ≡ some (y, ys)
      → total f xs ≡ f y + total f ys
  unfolding pick
  pick-total f i [] h = cc
  pick-total f zero (x ∷ xs) h = ground arith
  pick-total f (suc i) (x ∷ xs) {y} {ys} h = elim (Option-cases (pick i xs)) [
    | inl out ↦ ground arith
    | inr ((z, zs), inside) ↦ ground (arith, pick-total f i xs inside)
  ]

unfoldable pub one_if {ℓ} : {A : Type ℓ} → Text → Text × A → ℕ
one_if name (n, _) = if n == name then 1 else 0

-- How often a name is among the dependencies
unfoldable pub occurrences {ℓ} : {A : Type ℓ} → Text → Dict Text A → ℕ
unfolding one_if
occurrences name m = total (one_if name) m

worker_one : {V : Type 0} → Text → Worker V → ℕ
worker_one name (fetching n dep) = if n == name then 1 else 0
worker_one name (holding n ch) = if n == name then 1 else 0

module _ {V : Type 0} (host : Host V) (urls : UrlLibrary) (semver : Semver) (ref : Reference)
    (concurrent : ℕ) where
  everywhere : Text → Group V host.World → ℕ
  everywhere name g =
      occurrences name g.pending + total (worker_one name) g.running + occurrences name g.added

  go_on-everywhere :
      (worker : Worker V) (others : List (Worker V)) (g : Group V host.World) (name : Text)
      → (go_on host urls semver ref concurrent worker others g).failure ≡ none
      → (g.failure ≡ none)
        × (everywhere name (go_on host urls semver ref concurrent worker others g)
            ≡ occurrences name g.pending
              + (worker_one name worker + total (worker_one name) others)
              + occurrences name g.added)
  unfolding go_on keep_first everywhere occurrences one_if worker_one
  go_on-everywhere (holding n ch) others g name fine =
      (fine, ground (arith, total-append (one_if name) g.added ((n, ch.metadata) ∷ [])))
  go_on-everywhere (fetching n dep) others g name fine =
      elim (Result-cases (fetch host urls semver ref dep g.session).0) [
        | inl (ch, fetched) ↦ (ground arith, ground arith)
        | inr (e, failed) ↦ elim (Option-cases g.failure) [
          | inl fine' ↦ ground arith
          | inr (e', f) ↦ ground arith
        ]
      ]

  step-everywhere :
      (e : Event) (g g' : Group V host.World) (name : Text)
      → step host urls semver ref concurrent e g ≡ some g'
      → g'.failure ≡ none
      → (g.failure ≡ none) × (everywhere name g' ≡ everywhere name g)
  unfolding step everywhere worker_one occurrences one_if
  step-everywhere acquire g g' name h fine = elim (List-cases g.pending) [
    | inl nothing ↦ ground arith
    | inr ((n, dep), rest, next) ↦ elim (Bool-cases (ltb (length g.running) (limit concurrent))) [
      | inl free ↦
          let same : g' ≡ record g { pending = rest; running = fetching n dep ∷ g.running } =
            ground arith in
          (ground arith, ground arith)
      | inr full ↦ ground arith
    ]
  ]
  step-everywhere stop g g' name h fine = elim (Option-cases g.failure) [
    | inl no_failure ↦ ground arith
    | inr (e, failed) ↦ elim (List-cases g.pending) [
      | inl nothing ↦ ground arith
      | inr (p, rest, next) ↦ ground arith
    ]
  ]
  step-everywhere (work i) g g' name h fine = elim (Option-cases (pick i g.running)) [
    | inl out ↦ ground arith
    | inr ((worker, others), picked) ↦
        let same : g' ≡ go_on host urls semver ref concurrent worker others g = ground arith in
        let (fine', count) = go_on-everywhere worker others g name (ground arith) in
        (fine', ground (arith, pick-total (worker_one name) i g.running picked))
  ]

  run-everywhere :
      (es : List Event) (g g' : Group V host.World) (name : Text)
      → run host urls semver ref concurrent es g ≡ some g'
      → g'.failure ≡ none
      → (g.failure ≡ none) × (everywhere name g' ≡ everywhere name g)
  unfolding run
  run-everywhere [] g g' name h fine = (ground arith, ground arith)
  run-everywhere (e ∷ es) g g' name h fine =
      elim (Option-cases (step host urls semver ref concurrent e g)) [
        | inl stuck ↦ ground arith
        | inr (g1, stepped) ↦
            let (fine1, later) = run-everywhere es g1 g' name (ground arith) fine in
            let (fine0, first) = step-everywhere e g g1 name stepped fine1 in (fine0, later ∙ first)
      ]

  -- When a group of workers ends without an error, whatever the schedule was, each name has been
  -- added as often as it was missing: no dependency is lost, and none is added twice.
  pub wait-occurrences :
      (deps : Dict Text Dependency) (s : Session host.World) (es : List Event)
      (g : Group V host.World) (added : Dict Text Metadata)
      → run host urls semver ref concurrent es (start host urls semver deps s) ≡ some g
      → wait host urls semver ref concurrent g ≡ some (ok added)
      → (name : Text) → occurrences name added ≡ occurrences name deps
  unfolding wait start everywhere occurrences
  wait-occurrences deps s es g added ran ended name =
      elim (Bool-cases (is_empty g.pending && is_empty g.running)) [
        | inr busy ↦ ground arith
        | inl idle ↦ elim (Option-cases g.failure) [
          | inr (e, failed) ↦ ground arith
          | inl fine ↦
              let (_, count) = run-everywhere es (start host urls semver deps s) g name ran fine in
              elim (List-cases g.pending) [
                | inr (p, ps, some_left) ↦ ground arith
                | inl none_left ↦ elim (List-cases g.running) [
                  | inr (p, ps, some_left) ↦ ground arith
                  | inl none_runs ↦ ground arith
                ]
              ]
        ]
      ]
