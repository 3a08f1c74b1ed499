-- ===== src/Build/FromRepository.antt =====
-- internal/build/helm.go, `buildFromHelmRepository`: a chart is built from its repository under two
-- locks, that of the chart in the chart cache and that of the repository in the cache of
-- repositories. The chart cache and the chart builder are parameters (`ChartStore`, `Builder`), which
-- internal/helm/chart/cache and internal/helm/chart implement.
pub mod Bodies
pub mod Locks
pub mod Release
use flux_build.Base.{
  ℕ, Bool, true, false, not, ◌&&◌, Option, none, some, List, [], ◌∷◌, ◌++◌, ◌==◌, length,
  if◌then◌else◌,
}
use flux_build.Base.Exec.{Exec, pure, fail, lift, ◌>>=◌, ◌>>◌}
use flux_build.Base.Results.{Result, ok, err, map_err}
use flux_build.Base.Text.{Text, codes, text_eq, is_empty}
use flux_build.Build.Index.{ResourceIndex}
use flux_build.Build.Objects.{
  ChartTemplate, HelmRepository, Object, helm_repository, HelmRelease, BuildError, bad_url,
  panicked, unsupported_repository, no_chart,
}
use flux_build.Build.Repositories.{Downloader, HelmLibrary, new_repository}
use flux_build.Chart.Reference.{RemoteReference, Build, BuildOptions, with_escaped_name}
use flux_build.Chart.Options.{get_values_files}
use flux_build.MemCache
use flux_build.MemCache.{Cache, Outcome, hit, granted, blocked}
use flux_build.Repository.Urls.{normalize_url}

-- `chartcache.Interface`. `get_or_lock` returns the path and the key to unlock; `set_unlock` may
-- panic, and its error is ignored by the caller.
pub record ChartStore : Type 1 where
  pub State : Type 0
  pub Key : Type 0
  pub get_or_lock : Text → RemoteReference → Exec State BuildError (Text × Key)
  pub set_unlock : Key → State → Result BuildError State

-- `os.Stat` and the remote chart builder, over the state of the world outside
pub record Builder : Type 1 where
  pub World : Type 0
  pub missing : World → Text → Bool
  pub build : Downloader → RemoteReference → Text → BuildOptions → Exec World BuildError Build

-- `defer f()`: `f` runs after the rest, whatever the rest returned; if it panics, so does the whole.
module _ {S A : Type 0} where
  pub after_defer : Result BuildError A → Result BuildError S → S → Result BuildError A × S
  after_defer r (ok s) old = (r, s)
  after_defer r (err e) old = (err e, old)

  unfoldable pub deferring : (S → Result BuildError S) → Exec S BuildError A → Exec S BuildError A
  unfolding after_defer
  deferring f m s = after_defer (m s).0 (f (m s).1) (m s).1

module _ (lib : HelmLibrary) (store : ChartStore) (builder : Builder) where
  -- The parts of `Helm` that change, and the world outside
  pub record HelmState : Type 0 where
    pub charts : store.State
    pub repos : Cache Text (Option Downloader)
    pub world : builder.World

  unfoldable pub lock_chart : Text → RemoteReference → Exec HelmState BuildError (Text × store.Key)
  lock_chart url ref s =
      let (r, c) = store.get_or_lock url (with_escaped_name ref) s.charts in
      (r, record s { charts = c })

  pub unlock_chart : store.Key → HelmState → Result BuildError HelmState
  unlock_chart key s = elim (store.set_unlock key s.charts) [
    | err e ↦ err e
    | ok c ↦ ok (record s { charts = c })
  ]

  -- `r, ok := h.repoCache.GetOrLock(key)` and the type assertion: the repository that was found.
  -- `others` is what other goroutines do to the cache while this one waits.
  module _ (others : Cache Text (Option Downloader) → Cache Text (Option Downloader)) where
    after_outcome :
        Text
        → HelmState
        → Cache Text (Option Downloader)
        → Outcome (Option Downloader)
        → Result BuildError (Option Downloader) × HelmState
    after_outcome url s c (hit r) = (ok r, record s { repos = c })
    after_outcome url s c granted = (ok none, record s { repos = c })
    after_outcome url s c (blocked ch) = (
      ok (elim (MemCache.wake (others c) url) [ none ↦ none | some r ↦ r ]),
      record s { repos = others c },
    )

    lock_repository : Text → Exec HelmState BuildError (Option Downloader)
    unfolding after_outcome
    lock_repository url s = let (c, o) = MemCache.get_or_lock s.repos url in after_outcome url s c o

    -- `h.repoCache.SetUnlock(key, value)`
    unlock_repository : Text → Option Downloader → HelmState → Result BuildError HelmState
    unlock_repository url value s = elim (MemCache.set_unlock s.repos url value) [
      | none ↦ err panicked
      | some c ↦ ok (record s { repos = c })
    ]

    build_options : ChartTemplate → Bool → Text → BuildOptions
    build_options obj uncached path =
        let opts : BuildOptions = record {
          version_metadata = [];
          values_files = obj.values_files;
          cached_chart = if uncached then [] else path;
          force = false;
          verify = false;
        } in
        -- the generation of the object is zero
        if is_empty (get_values_files opts)
        then opts
        else record opts { version_metadata = codes "0" }

    pub build_chart_at : ChartTemplate → Bool → Text → Downloader → Exec HelmState BuildError Build
    unfolding build_options
    build_chart_at obj uncached path repo s =
        let ref : RemoteReference = record { name = obj.chart; version = obj.version } in
        let (r, w) = builder.build repo ref path (build_options obj uncached path) s.world in
        (r, record s { world = w })

    or_new :
        Text
        → HelmRepository
        → ResourceIndex lib.kube
        → Bool
        → Option Downloader
        → Result BuildError Downloader
    or_new url repo db uncached (some r) = ok r
    or_new url repo db uncached none = new_repository lib url repo db uncached

    -- The body under the second `defer`. The arguments of a deferred call are evaluated at the
    -- `defer` statement, so what is stored is the repository that was found in the cache, if any.
    under_repository :
        ChartTemplate
        → HelmRepository
        → ResourceIndex lib.kube
        → Text
        → Text
        → Exec HelmState BuildError Build
    unfolding lock_repository unlock_repository build_chart_at or_new
    under_repository obj repo db url path s =
        let uncached = builder.missing s.world path in
        (lock_repository url >>= λ found.
        deferring (unlock_repository url found)
          (lift (or_new url repo db uncached found) >>= λ r. build_chart_at obj uncached path r))
          s

    -- `buildFromHelmRepository`
    unfoldable pub build_from_helm_repository :
        ChartTemplate → HelmRepository → ResourceIndex lib.kube → Exec HelmState BuildError Build
    unfolding lock_chart unlock_chart under_repository deferring
    build_from_helm_repository obj repo db = do
      url ← lift (map_err (λ _. bad_url repo.url) (normalize_url lib.urls repo.url))
      (path, key) ← lock_chart url (record { name = obj.chart; version = obj.version })
      deferring (unlock_chart key) (under_repository obj repo db url path)
