-- ===== src/ChartCache/Memory.antt =====
-- The paths that the in-memory chart cache gives out (internal/helm/chart/cache/inmemory.go).
use flux_build.Base.{ℕ, suc, ◌≡◌, Option, none, some, arith, beq_refl}
use flux_build.Base.Dict.{lookup, lookup-insert}
use flux_build.Base.Text.{Text}
use flux_build.Base.Results.{ok}
use flux_build.Chart.Reference.{RemoteReference}
use flux_build.ChartCache.{
  CacheKey, key_eq, InMemory, file_path, memory_get_or_lock, memory_set_unlock,
}
use flux_build.ChartCache.Names.{basename}
use flux_build.MemCache
use flux_build.MemCache.{Cache, lock, value}

module _ (random : ℕ → Text) (others : Cache CacheKey Text → Cache CacheKey Text) (c : InMemory)
    (repo : Text) (ref : RemoteReference) where
  abbrev key : CacheKey
  key = record { ref = ref; repo = repo }

  abbrev first : InMemory × (Text × Option CacheKey)
  first = memory_get_or_lock random others c repo ref

  abbrev base : Text
  base = basename repo ref

  set_unlock-stores :
      (m : InMemory) (d : InMemory)
      → memory_set_unlock random m (some key) ≡ ok d
      → memory_get_or_lock random others d repo ref
        ≡ (d, (file_path random m.dir m.draws base, none))
  unfolding memory_set_unlock memory_get_or_lock MemCache.set_unlock MemCache.get_or_lock
  set_unlock-stores m d e = ground (
    arith,
    beq_refl key,
    lookup-insert key key (value (file_path random m.dir m.draws base)) m.cache.items,
  )

  first_lem :
      lookup key c.cache.items ≡ none
      → first ≡ (
        record c { cache = (MemCache.get_or_lock c.cache key).0; draws = suc c.draws },
        (file_path random c.dir c.draws base, some key),
      )
  unfolding memory_get_or_lock MemCache.get_or_lock
  first_lem n = ground arith

  -- The first to ask for a chart gets the path of the next draw and the key of its lock. Once it
  -- has given the key back, whoever asks next is given the path of the draw after that one, and no
  -- key: not the path that the first was told to write the chart to.
  pub memory_get_or_lock-draws :
      (d : InMemory)
      → lookup key c.cache.items ≡ none
      → memory_set_unlock random first.0 first.1.1 ≡ ok d
      → (first.1 ≡ (file_path random c.dir c.draws base, some key))
        × ((memory_get_or_lock random others d repo ref).1
            ≡ (file_path random c.dir (suc c.draws) base, none))
  memory_get_or_lock-draws d n e = ground (arith, first_lem n, set_unlock-stores first.0 d)
