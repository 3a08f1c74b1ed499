-- ===== src/Build/FromRepository/Locks.antt =====
-- What `buildFromHelmRepository` of internal/build/helm.go leaves in the cache of repositories.
use flux_build.Base.{ℕ, ◌≡◌, refl, ◌≢◌, inl, inr, Option, none, some, arith, Option-cases}
use flux_build.Base.Dict.{lookup, lookup-insert}
use flux_build.Base.Exec.{lift, ◌>>=◌, Keeps, Keeps-lift, Keeps-bind}
use flux_build.Base.Results.{Result, ok, map_err}
use flux_build.Base.Text.{Text, text_eq}
use flux_build.Build.FromRepository.{
  ChartStore, Builder, HelmState, after_defer, after_outcome, deferring, lock_repository,
  unlock_repository, build_chart_at, or_new, under_repository, build_from_helm_repository,
  lock_chart, unlock_chart,
}
use flux_build.Build.FromRepository.Bodies.{repos-body, repos-unlock_chart}
use flux_build.Build.Index.{ResourceIndex}
use flux_build.Build.Objects.{ChartTemplate, HelmRepository, BuildError, bad_url}
use flux_build.Build.Repositories.{Downloader, HelmLibrary}
use flux_build.Chart.Reference.{RemoteReference}
use flux_build.Repository.Urls.{normalize_url}
use flux_build.MemCache
use flux_build.MemCache.{Cache, Item, lock, value, Outcome, hit, granted, blocked}

-- No repository is stored: what is there is a lock or nil.
abbrev pub HoldsNone : Cache Text (Option Downloader) → Type 0
HoldsNone c = (k : Text) (r : Downloader) → lookup k c.items ≢ some (value (some r))

module _ (lib : HelmLibrary) (store : ChartStore) (builder : Builder)
    (others : Cache Text (Option Downloader) → Cache Text (Option Downloader))
    (others-HoldsNone : (c : Cache Text (Option Downloader))
      → HoldsNone c
      → HoldsNone (others c)) where
  abbrev Repos : Type 0
  Repos = Cache Text (Option Downloader)

  abbrev State : Type 0
  State = HelmState lib store builder

  module _ (url : Text) where
    abbrev nil_item : Item (Option Downloader)
    nil_item = value none

    abbrev item : ℕ → Item (Option Downloader)
    item ch = lock ch

    get_or_lock-HoldsNone : (c : Repos) → HoldsNone c → HoldsNone (MemCache.get_or_lock c url).0
    unfolding MemCache.get_or_lock
    get_or_lock-HoldsNone c h k r e =
        ground (arith, h k r, lookup-insert k url (item c.made) c.items)

    get_or_lock-not-hit :
        (c : Repos) → HoldsNone c → (r : Downloader) → (MemCache.get_or_lock c url).1 ≢ hit (some r)
    unfolding MemCache.get_or_lock
    get_or_lock-not-hit c h r e = ground (arith, h url r)

    wake-not-found :
        (c : Repos) → HoldsNone c → (r : Downloader) → MemCache.wake c url ≢ some (some r)
    unfolding MemCache.wake
    wake-not-found c h r e = ground (arith, h url r)

    abbrev NotHit : Outcome (Option Downloader) → Type 0
    NotHit o = (r : Downloader) → o ≢ hit (some r)

    outcome-HoldsNone :
        (s : State) (c : Repos) (o : Outcome (Option Downloader))
        → HoldsNone c
        → HoldsNone (after_outcome lib store builder others url s c o).1.repos
    unfolding after_outcome
    outcome-HoldsNone s c (hit r) h = h
    outcome-HoldsNone s c granted h = h
    outcome-HoldsNone s c (blocked ch) h = others-HoldsNone c h

    outcome-none :
        (s : State) (c : Repos) (o : Outcome (Option Downloader))
        → HoldsNone c
        → NotHit o
        → (after_outcome lib store builder others url s c o).0 ≡ ok none
    unfolding after_outcome
    outcome-none s c (hit none) h n = refl
    outcome-none s c (hit (some r)) h n = absurd (n r refl)
    outcome-none s c granted h n = refl
    outcome-none s c (blocked ch) h n = elim (Option-cases (MemCache.wake (others c) url)) [
      | inl e ↦ ground arith
      | inr (none, e) ↦ ground arith
      | inr (some r, e) ↦ absurd (wake-not-found (others c) (others-HoldsNone c h) r e)
    ]

    lock-HoldsNone :
        (s : State)
        → HoldsNone s.repos
        → HoldsNone (lock_repository lib store builder others url s).1.repos
    unfolding lock_repository
    lock-HoldsNone s h =
        let (c, o) = MemCache.get_or_lock s.repos url in
        outcome-HoldsNone s c o (get_or_lock-HoldsNone s.repos h)

    lock-none :
        (s : State)
        → HoldsNone s.repos
        → (lock_repository lib store builder others url s).0 ≡ ok none
    unfolding lock_repository
    lock-none s h =
        let (c, o) = MemCache.get_or_lock s.repos url in
        outcome-none s c o (get_or_lock-HoldsNone s.repos h) (get_or_lock-not-hit s.repos h)

    -- What is stored at the end is nil.
    after_unlock-HoldsNone :
        {A : Type 0} (r : Result BuildError A) (s : State)
        → HoldsNone s.repos
        → HoldsNone
            (after_defer r (unlock_repository lib store builder others url none s) s).1.repos
    unfolding after_defer unlock_repository MemCache.set_unlock
    after_unlock-HoldsNone r s h k d =
        ground (arith, h k d, lookup-insert k url (nil_item) s.repos.items)

  module _ (obj : ChartTemplate) (repo : HelmRepository) (db : ResourceIndex lib.kube) where
    under-HoldsNone :
        (url path : Text) (s : State)
        → HoldsNone s.repos
        → HoldsNone (under_repository lib store builder others obj repo db url path s).1.repos
    unfolding under_repository deferring
    under-HoldsNone url path s h =
        let s1 = (lock_repository lib store builder others url s).1 in
        let uncached = builder.missing s.world path in
        let made = or_new lib store builder others url repo db uncached none in
        let out =
          (lift made >>= λ d. build_chart_at lib store builder others obj uncached path d) s1 in
        rw (lock-none url s h) (
          after_unlock-HoldsNone url out.0 out.1 (
            rw (repos-body lib store builder others obj uncached path made s1)
              (lock-HoldsNone url s h)))

    abbrev P : State → Type 0
    P s = HoldsNone s.repos

    lock_chart-Keeps :
        (url : Text) (ref : RemoteReference) → Keeps P (lock_chart lib store builder url ref)
    unfolding lock_chart
    lock_chart-Keeps url ref = record { at = λ s h. h }

    chart-Keeps :
        (url path : Text) (key : store.Key)
        → Keeps P (
            deferring
              (unlock_chart lib store builder key)
              (under_repository lib store builder others obj repo db url path))
    unfolding deferring
    chart-Keeps url path key = record {
      at = λ s h.
          let out = under_repository lib store builder others obj repo db url path s in
          rw (repos-unlock_chart lib store builder others key out.0 out.1)
            (under-HoldsNone url path s h);
    }

    -- Whether or not the build of a chart succeeds, the cache of repositories does not come to hold
    -- a repository: if it had none before and other goroutines store none, it has none afterwards.
    pub build_from_helm_repository-HoldsNone :
        (s : State)
        → HoldsNone s.repos
        → HoldsNone (build_from_helm_repository lib store builder others obj repo db s).1.repos
    unfolding build_from_helm_repository
    build_from_helm_repository-HoldsNone =
        (Keeps-bind (lift (map_err (λ _. bad_url repo.url) (normalize_url lib.urls repo.url))) _
          (Keeps-lift _)
          λ url.
            Keeps-bind (lock_chart lib store builder url _) _ (lock_chart-Keeps url _)
              λ (path, key). chart-Keeps url path key).at
