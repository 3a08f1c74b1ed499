-- ===== src/Chart/Dependencies/Group.antt =====
-- internal/helm/chart/dependency_manager.go, `build` and `Build`: workers that add dependencies at the
-- same time. An event is one of the atomic parts of the goroutines; a list of events is a schedule.
pub mod Once
pub mod Ends
use flux_build.Base.{
  ℕ, zero, suc, ◌+◌, Bool, true, false, Option, none, some, List, [], ◌∷◌, ◌++◌, ◌==◌, nat_eq,
  if◌then◌else◌, length, ltb, map,
}
use flux_build.Base.Dict.{Dict}
use flux_build.Base.Results.{Result, ok, err}
use flux_build.Base.Text.{Text, is_empty}
use flux_build.Auth.Types.{UrlLibrary}
use flux_build.Chart.Dependencies.{DependencyError, Session, collect_missing}
use flux_build.Chart.Dependencies.Fetch.{fetch}
use flux_build.Chart.Host.{Dependency, Metadata, Chart, Host}
use flux_build.Chart.Reference.{Reference}
use flux_build.Repository.Versions.{Semver}

-- A worker that holds a permit: it has its dependency to fetch, or waits for the lock of the chart.
pub data Worker (V : Type 0) : Type 0 where
  fetching : Text → Dependency → Worker V
  holding : Text → Chart V → Worker V

-- The loop gets a permit or sees that the group was cancelled, or the worker at an index goes on.
pub data Event : Type 0 where
  acquire stop : Event
  work : ℕ → Event

-- The element at an index, and the others
unfoldable pub pick {ℓ} : {A : Type ℓ} → ℕ → List A → Option (A × List A)
pick i [] = none
pick zero (x ∷ xs) = some (x, xs)
pick (suc i) (x ∷ xs) = elim (pick i xs) [ none ↦ none | some (y, ys) ↦ some (y, x ∷ ys) ]

-- The number of workers at once: one, if the manager names no positive number
unfoldable pub limit : ℕ → ℕ
limit zero = 1
limit (suc n) = suc n

pub record Group (V : Type 0) (W : Type 0) : Type 0 where
  pub pending : Dict Text Dependency
  pub running : List (Worker V)
  pub added : Dict Text Metadata
  pub failure : Option DependencyError
  pub session : Session W

unfoldable pub keep_first : Option DependencyError → DependencyError → Option DependencyError
keep_first none e = some e
keep_first (some first) e = some first

module _ {V : Type 0} (host : Host V) (urls : UrlLibrary) (semver : Semver) where
  unfoldable pub start : Dict Text Dependency → Session host.World → Group V host.World
  start deps s = record { pending = deps; running = []; added = []; failure = none; session = s }

  module _ (ref : Reference) (concurrent : ℕ) where
    unfoldable pub go_on : Worker V → List (Worker V) → Group V host.World → Group V host.World
    unfolding keep_first
    go_on (holding name ch) others g = record g {
      running = others;
      added = g.added ++ ((name, ch.metadata) ∷ []);
    }
    go_on (fetching name dep) others g =
        let (r, s) = fetch host urls semver ref dep g.session in
        elim r [
          | ok ch ↦ record g { running = holding name ch ∷ others; session = s }
          | err e ↦ record g { running = others; failure = keep_first g.failure e; session = s }
        ]

    -- One event, if it can happen
    unfoldable pub step : Event → Group V host.World → Option (Group V host.World)
    unfolding go_on pick limit
    step acquire g = elim g.pending [
      | [] ↦ none
      | (name, dep) ∷ rest ↦
          if ltb (length g.running) (limit concurrent)
          then some (record g { pending = rest; running = fetching name dep ∷ g.running })
          else none
    ]
    step stop g = elim g.failure [
      | none ↦ none
      | some e ↦ elim g.pending [ [] ↦ none | p ∷ ps ↦ some (record g { pending = [] }) ]
    ]
    step (work i) g = elim (pick i g.running) [
      | none ↦ none
      | some (worker, others) ↦ some (go_on worker others g)
    ]

    unfoldable pub run : List Event → Group V host.World → Option (Group V host.World)
    unfolding step
    run [] g = some g
    run (e ∷ es) g = elim (step e g) [ none ↦ none | some g' ↦ run es g' ]

    -- `group.Wait`: the first error, once all goroutines have ended
    unfoldable pub wait : Group V host.World → Option (Result DependencyError (Dict Text Metadata))
    wait g =
        if is_empty g.pending
        then (if is_empty g.running
            then some (elim g.failure [ none ↦ ok g.added | some e ↦ err e ])
            else none)
        else none

    -- `DependencyManager.Build` on a schedule, which may stop before the end; `order` is the order
    -- in which the map of missing dependencies is gone through.
    unfoldable pub requests : Chart V → List Dependency
    requests c = elim c.lock [ none ↦ c.metadata.dependencies | some deps ↦ deps ]

    unfoldable pub build :
        (Dict Text Dependency → Dict Text Dependency)
        → List Event
        → Chart V
        → Session host.World
        → Option (Result DependencyError ℕ × Chart V)
    unfolding run wait start requests
    build order schedule c s =
        let missing = collect_missing c.dependencies (requests c) in
        if is_empty missing then some (ok 0, c) else elim (run schedule (start (order missing) s)) [
          | none ↦ none
          | some g ↦ elim (wait g) [
            | none ↦ none
            | some (err e) ↦
                some (err e, record c { dependencies = c.dependencies ++ map (λ m. m.1) g.added })
            | some (ok added) ↦ some (
              ok (length missing),
              record c { dependencies = c.dependencies ++ map (λ m. m.1) added },
            )
          ]
        ]
