-- ===== src/Build/FromRepository/Release.antt =====
-- `buildFromHelmRepository` of internal/build/helm.go gives the lock of a repository back.
use flux_build.Base.{
  ℕ, ◌≤◌, ◌≡◌, ◌≢◌, refl, false, Option, none, some, arith, beq_refl, Option-cases, inl, inr,
}
use flux_build.Base.Dict.{lookup, lookup-insert}
use flux_build.Base.Exec.{lift, ◌>>=◌}
use flux_build.Base.Results.{Result, ok}
use flux_build.Base.Text.{Text, text_eq}
use flux_build.Build.FromRepository.{
  ChartStore, Builder, HelmState, after_defer, after_outcome, deferring, lock_repository,
  unlock_repository, build_chart_at, or_new, under_repository, build_from_helm_repository,
  lock_chart, unlock_chart,
}
use flux_build.Build.FromRepository.Bodies.{repos-body, repos-unlock_chart}
use flux_build.Build.Index.{ResourceIndex}
use flux_build.Build.Objects.{ChartTemplate, HelmRepository, BuildError}
use flux_build.Build.Repositories.{Downloader, HelmLibrary}
use flux_build.MemCache
use flux_build.MemCache.{Cache, Item, lock, value, Outcome, hit, granted, blocked}
use flux_build.Repository.Urls.{normalize_url}

-- The locks in the map are open channels, and so are channels that are not made yet.
abbrev pub IsSound : Cache Text (Option Downloader) → Type 0
IsSound c =
    ((k : Text) (ch : ℕ) → lookup k c.items ≡ some (lock ch) → c.closed ch ≡ false)
    × ((ch : ℕ) → c.made ≤ ch → c.closed ch ≡ false)

module _ (lib : HelmLibrary) (store : ChartStore) (builder : Builder)
    (others : Cache Text (Option Downloader) → Cache Text (Option Downloader))
    (others-IsSound : (c : Cache Text (Option Downloader)) → IsSound c → IsSound (others c)) where
  abbrev Repos : Type 0
  Repos = Cache Text (Option Downloader)

  abbrev State : Type 0
  State = HelmState lib store builder

  module _ (url : Text) where
    abbrev lock_item : ℕ → Item (Option Downloader)
    lock_item ch = lock ch

    abbrev value_item : Option Downloader → Item (Option Downloader)
    value_item v = value v

    get_or_lock-IsSound : (c : Repos) → IsSound c → IsSound (MemCache.get_or_lock c url).0
    unfolding MemCache.get_or_lock
    get_or_lock-IsSound c (open_locks, unmade) = (
      λ k ch e.
          ground
            (arith, open_locks k ch, unmade ch, lookup-insert k url (lock_item c.made) c.items),
      λ ch h. ground (arith, unmade ch),
    )

    lock-IsSound :
        (s : State)
        → IsSound s.repos
        → IsSound (lock_repository lib store builder others url s).1.repos
    unfolding lock_repository
    lock-IsSound s h =
        let (c, o) = MemCache.get_or_lock s.repos url in
        outcome_lem s c o (get_or_lock-IsSound s.repos h)
      where
        outcome_lem :
            (s : State) (c : Repos) (o : Outcome (Option Downloader))
            → IsSound c
            → IsSound (after_outcome lib store builder others url s c o).1.repos
        outcome_lem s c (hit r) h = h
        outcome_lem s c granted h = h
        outcome_lem s c (blocked ch) h = others-IsSound c h

    abbrev IsReleased : State → Type 0
    IsReleased s = (v : Option Downloader) × (lookup url s.repos.items ≡ some (value v))

    never_panics :
        (v : Option Downloader) (c : Repos)
        → ((k : Text) (ch : ℕ) → lookup k c.items ≡ some (lock ch) → c.closed ch ≡ false)
        → MemCache.set_unlock c url v ≢ none
    unfolding MemCache.set_unlock
    never_panics v c open_locks e = grind (arith, open_locks url)

    set_unlock_total :
        (v : Option Downloader) (c : Repos)
        → IsSound c
        → (d : Repos) × (MemCache.set_unlock c url v ≡ some d)
    set_unlock_total v c (open_locks, _) = elim (Option-cases (MemCache.set_unlock c url v)) [
      | inl e ↦ absurd (never_panics v c (open_locks) e)
      | inr found ↦ found
    ]

    lookup-set_unlock :
        (v : Option Downloader) (c d : Repos)
        → MemCache.set_unlock c url v ≡ some d
        → lookup url d.items ≡ some (value v)
    unfolding MemCache.set_unlock
    lookup-set_unlock v c d e =
        ground (arith, lookup-insert url url (value_item v) c.items, beq_refl url)

    after_unlock-IsReleased :
        {A : Type 0} (r : Result BuildError A) (v : Option Downloader) (s : State)
        → IsSound s.repos
        → IsReleased (after_defer r (unlock_repository lib store builder others url v s) s).1
    unfolding after_defer unlock_repository
    after_unlock-IsReleased r v s h =
        let (d, e) = set_unlock_total v s.repos h in
        (v, rw (e, after_defer) (lookup-set_unlock v s.repos d e))

    outcome_total :
        (s : State) (c : Repos) (o : Outcome (Option Downloader))
        → (r : Option Downloader) × ((after_outcome lib store builder others url s c o).0 ≡ ok r)
    unfolding after_outcome
    outcome_total s c (hit r) = (r, refl)
    outcome_total s c granted = (none, refl)
    outcome_total s c (blocked ch) = (_, refl)

    lock_total :
        (s : State)
        → (r : Option Downloader) × ((lock_repository lib store builder others url s).0 ≡ ok r)
    unfolding lock_repository
    lock_total s = let (c, o) = MemCache.get_or_lock s.repos url in outcome_total s c o

  module _ (obj : ChartTemplate) (repo : HelmRepository) (db : ResourceIndex lib.kube) where
    under-IsReleased :
        (url path : Text) (s : State)
        → IsSound s.repos
        → IsReleased url (under_repository lib store builder others obj repo db url path s).1
    unfolding under_repository deferring
    under-IsReleased url path s h =
        let s1 = (lock_repository lib store builder others url s).1 in
        let uncached = builder.missing s.world path in
        let (found, e) = lock_total url s in
        let made = or_new lib store builder others url repo db uncached found in
        let out =
          (lift made >>= λ d. build_chart_at lib store builder others obj uncached path d) s1 in
        rw e (
          after_unlock-IsReleased url out.0 found out.1 (
            rw (repos-body lib store builder others obj uncached path made s1)
              (lock-IsSound url s h)))

    chart_unlocked-IsReleased :
        (url path : Text) (key : store.Key) (s : State)
        → IsSound s.repos
        → IsReleased url
            (deferring
              (unlock_chart lib store builder key)
              (under_repository lib store builder others obj repo db url path)
              s).1
    unfolding deferring
    chart_unlocked-IsReleased url path key s h =
        let out = under_repository lib store builder others obj repo db url path s in
        rw (repos-unlock_chart lib store builder others key out.0 out.1)
          (under-IsReleased url path s h)

    -- Once the chart's own lock was taken, the lock of the repository is given back on every path,
    -- whether or not the repository is made and the chart is built: if the locks of the cache are
    -- open channels, and other goroutines keep that so, then the item of the repository's URL is a
    -- value at the end.
    pub build_from_helm_repository-releases :
        (url : Text) (locked : Text × store.Key) (s : State)
        → normalize_url lib.urls repo.url ≡ ok url
        → (lock_chart lib store builder url
            (record { name = obj.chart; version = obj.version })
            s).0
          ≡ ok locked
        → IsSound s.repos
        → IsReleased url (build_from_helm_repository lib store builder others obj repo db s).1
    unfolding build_from_helm_repository lock_chart
    build_from_helm_repository-releases url locked s n e h =
        rw (n, e) (chart_unlocked-IsReleased url locked.0 locked.1 _ h)
