-- ===== src/Build/FromRepository/Bodies.antt =====
-- `buildFromHelmRepository` of internal/build/helm.go: what its parts leave alone.
use flux_build.Base.{◌≡◌, refl, Bool, Option, inl, inr}
use flux_build.Base.Exec.{lift, ◌>>=◌}
use flux_build.Base.Results.{Result, ok, err, Result-cases}
use flux_build.Base.Text.{Text}
use flux_build.Build.FromRepository.{
  ChartStore, Builder, HelmState, after_defer, build_chart_at, unlock_chart,
}
use flux_build.Build.Objects.{ChartTemplate, BuildError}
use flux_build.Build.Repositories.{Downloader, HelmLibrary}
use flux_build.MemCache.{Cache}

module _ (lib : HelmLibrary) (store : ChartStore) (builder : Builder)
    (others : Cache Text (Option Downloader) → Cache Text (Option Downloader)) where
  abbrev State : Type 0
  State = HelmState lib store builder

  pub repos-body :
      (obj : ChartTemplate) (uncached : Bool) (path : Text) (r : Result BuildError Downloader)
      (s : State)
      → ((lift r >>= λ d. build_chart_at lib store builder others obj uncached path d) s).1.repos
        ≡ s.repos
  unfolding build_chart_at
  repos-body obj uncached path (ok d) s = refl
  repos-body obj uncached path (err e) s = refl

  -- The deferred unlocking of a chart leaves the repositories alone.
  pub repos-unlock_chart :
      {A : Type 0} (key : store.Key) (r : Result BuildError A) (s : State)
      → (after_defer r (unlock_chart lib store builder key s) s).1.repos ≡ s.repos
  unfolding after_defer unlock_chart
  repos-unlock_chart key r s = elim (Result-cases (store.set_unlock key s.charts)) [
    | inl (c, e) ↦ rw (e, after_defer)
    | inr (x, e) ↦ rw (e, after_defer)
  ]
