-- ===== src/ChartCache.antt =====
-- internal/helm/chart/cache: the chart caches. The random bytes that name a cached file are drawn
-- from a supply that the caller gives, `random n` being the hexadecimal digits of the n-th draw.
pub mod Names
pub mod Memory
use flux_build.Base.{
  ℕ, suc, ◌+◌, Option, none, some, Bool, true, false, [], ◌∷◌, ◌++◌, Eq, ◌==◌, ◌&&◌, ◌↔◌, ◌≡◌,
  arith, if◌then◌else◌,
}
use flux_build.Base.Text.{Text, codes, text_eq, text_iff}
use flux_build.Base.Paths.{join_path}
use flux_build.Base.Results.{Result, ok, err}
use flux_build.Chart.Reference.{RemoteReference, to_text}
use flux_build.ChartCache.Names.{basename}
use flux_build.MemCache
use flux_build.MemCache.{Cache, Outcome, hit, granted, blocked}

pub data CacheType : Type 0 where
  none_type in_memory_type fs_type : CacheType

pub data CacheError : Type 0 where
  unsupported : Text → CacheError
  no_dir : CacheError
  flock_failed : CacheError
  bad_key : CacheError
  double_close : CacheError

-- `StringToCacheType`
unfoldable pub string_to_cache_type : Text → Result CacheError CacheType
string_to_cache_type s =
    if s == codes "none"
    then ok none_type
    else if s == codes "inmemory"
    then ok in_memory_type
    else if s == codes "fs"
    then ok fs_type
    else err (unsupported s)

pub record CacheKey : Type 0 where
  pub ref : RemoteReference
  pub repo : Text

unfoldable pub key_beq : CacheKey → CacheKey → Bool
key_beq a b = a.ref.name == b.ref.name && (a.ref.version == b.ref.version && a.repo == b.repo)

pub key_beq_iff : (a b : CacheKey) → (key_beq a b ≡ true) ↔ (a ≡ b)
unfolding key_beq
key_beq_iff a b = ground (
  arith,
  text_iff a.ref.name b.ref.name,
  text_iff a.ref.version b.ref.version,
  text_iff a.repo b.repo,
)

-- Shut in proofs, which go by `key_beq_iff`.
instance unfoldable pub key_eq : Eq CacheKey
key_eq = record { beq = key_beq; beq_iff = key_beq_iff }

pub record InMemory : Type 0 where
  pub dir : Text
  pub cache : Cache CacheKey Text
  pub draws : ℕ

-- `New`: the directories are made by the caller's `mkdir_temp` and `mkdir_all`.
pub data ChartCache : Type 0 where
  in_memory : InMemory → ChartCache
  fs : Text → ChartCache
  null : Text → ℕ → ChartCache

unfoldable pub new_of_type : CacheType → Option Text → Bool → Text → Result CacheError ChartCache
new_of_type in_memory_type (some dir) made cache_dir =
    ok (in_memory (record { dir = dir; cache = MemCache.new; draws = 0 }))
new_of_type none_type (some dir) made cache_dir = ok (null dir 0)
new_of_type fs_type temp made cache_dir = if made then ok (fs cache_dir) else err no_dir
new_of_type _ none made cache_dir = err no_dir

unfoldable pub new :
    (mkdir_temp : Option Text) (mkdir_all : Text → Bool) (cache_type cache_dir : Text)
    → Result CacheError ChartCache
unfolding string_to_cache_type new_of_type
new mkdir_temp mkdir_all cache_type cache_dir = elim (string_to_cache_type cache_type) [
  | err e ↦ err e
  | ok t ↦ new_of_type t mkdir_temp (mkdir_all cache_dir) cache_dir
]

module _ (random : ℕ → Text) where
  -- `filepath`, the same function in inmemory.go and null.go
  unfoldable pub file_path : Text → ℕ → Text → Text
  unfolding join_path
  file_path dir n base = join_path dir (base ++ (b'-' ∷ random n ++ codes ".tgz"))

  -- `InMemory.GetOrLock`: the path, and the key to unlock, which is nil where the item was there.
  -- `others` is what the other goroutines do to the cache while this one waits for a lock of
  -- theirs. The path of a fresh item is drawn anew.
  fresh_path : InMemory → Text → RemoteReference → InMemory × (Text × Option CacheKey)
  unfolding file_path
  fresh_path c repo ref = (
    record c { draws = suc c.draws },
    (file_path c.dir c.draws (basename repo ref), some (record { ref = ref; repo = repo })),
  )

  unfoldable pub memory_get_or_lock :
      (others : Cache CacheKey Text → Cache CacheKey Text)
      → InMemory
      → Text
      → RemoteReference
      → InMemory × (Text × Option CacheKey)
  unfolding fresh_path
  memory_get_or_lock others c repo ref =
      let key : CacheKey = record { ref = ref; repo = repo } in
      let (m, o) = MemCache.get_or_lock c.cache key in
      elim o [
        | hit p ↦ (record c { cache = m }, (p, none))
        | granted ↦ fresh_path (record c { cache = m }) repo ref
        | blocked ch ↦ elim (MemCache.wake (others m) key) [
          | some p ↦ (record c { cache = others m }, (p, none))
          | none ↦ fresh_path (record c { cache = others m }) repo ref
        ]
      ]

  -- `InMemory.SetUnlock`: a nil key does nothing. The path that is stored is drawn anew too.
  unfoldable pub memory_set_unlock : InMemory → Option CacheKey → Result CacheError InMemory
  unfolding file_path
  memory_set_unlock c none = ok c
  memory_set_unlock c (some key) =
      elim (MemCache.set_unlock c.cache key (file_path c.dir c.draws (basename key.repo key.ref))) [
        | none ↦ err double_close
        | some m ↦ ok (record c { cache = m; draws = suc c.draws })
      ]

  -- `FS.GetOrLock`: the lock file is the key. `flock` says whether the lock could be taken.
  unfoldable pub fs_get_or_lock :
      (flock : Text → Bool) → Text → Text → RemoteReference → Text × Result CacheError Text
  unfolding join_path
  fs_get_or_lock flock dir repo ref =
      let file = join_path dir (basename repo ref ++ codes ".tgz") in
      (file, if flock (file ++ codes ".lock") then ok (file ++ codes ".lock") else err flock_failed)

  -- `FS.SetUnlock`: anything but a lock, nil too, is an error. `unlocks` says whether the lock could
  -- be given back.
  unfoldable pub fs_set_unlock :
      (unlocks : Text → Bool) → Option Text → Result CacheError (Unit {0})
  fs_set_unlock unlocks none = err bad_key
  fs_set_unlock unlocks (some lock) = if unlocks lock then ok tt else err flock_failed

  -- `Null.GetOrLock`, with the number of the next draw; `Null.SetUnlock` does nothing.
  unfoldable pub null_get_or_lock : Text → ℕ → Text → RemoteReference → ℕ × (Text × Option CacheKey)
  unfolding file_path
  null_get_or_lock dir draws repo ref = (suc draws, (file_path dir draws (basename repo ref), none))
