-- ===== src/Tests/Caches.antt =====
-- The caches at concrete states.
use flux_build.ChartCache.{key_beq}
use flux_build.Base.Dict.{insert}
use flux_build.Base.{ℕ, nat_eq, Option, ◌≡◌, refl, true, false, none, some, [], ◌∷◌}
use flux_build.Base.Dict.{lookup}
use flux_build.Base.Results.{ok}
use flux_build.Base.Text.{Text, codes, text_eq}
use flux_build.Chart.Reference.{RemoteReference}
use flux_build.ChartCache.{
  CacheKey, key_eq, InMemory, file_path, memory_get_or_lock, memory_set_unlock,
}
use flux_build.ChartCache.Names.{basename}
use flux_build.ChartCache.Memory.{memory_get_or_lock-draws}
use flux_build.MemCache
use flux_build.MemCache.{Cache}
use flux_build.MemCache.Fairness.{grants_unique, set_unlock-releases, wake-finds_value}
use flux_build.MemCache.Stranding.{clear_strands}
use flux_build.MemCache.Threads.{
  waiting, holding, System, call, asks, unlocks, Reach, here, next, MeddledReach, start, stepped,
  init,
}

-- Two calls ask for one key: the first gets the lock, and the second waits.
abbrev asked : System ℕ ℕ
asked = call (call init 0 7) 1 7

asked-Reach : Reach init asked
unfolding MemCache.new call MemCache.get_or_lock
asked-Reach = next (next here (asks init 0 7 refl)) (asks (call init 0 7) 1 7 refl)

asked_holding : asked.calls 0 ≡ holding 7
unfolding MemCache.new call MemCache.get_or_lock lookup
asked_holding = refl

asked_waiting : asked.calls 1 ≡ waiting 7 0
unfolding MemCache.new call MemCache.get_or_lock lookup insert
asked_waiting = refl

asked_open : asked.cache.closed 0 ≡ false
unfolding MemCache.new call MemCache.get_or_lock lookup insert
asked_open = refl

grants_unique_example : ◌≡◌ {A = ℕ} 0 0
grants_unique_example = grants_unique asked-Reach 0 0 7 asked_holding asked_holding

set_unlock-releases_example :
    (c : Cache ℕ ℕ) × (MemCache.set_unlock asked.cache 7 42 ≡ some c)
    × ((t : ℕ) (ch : ℕ)
        → asked.calls t ≡ waiting 7 ch
        → (c.closed ch ≡ true) × (MemCache.wake c 7 ≡ some 42))
set_unlock-releases_example = set_unlock-releases asked-Reach 7 42

abbrev after : System ℕ ℕ
after = record asked { cache = (set_unlock-releases asked-Reach 7 42).0 }

after-Reach : Reach init after
after-Reach =
    let (c, e, _) = set_unlock-releases asked-Reach 7 42 in
    next asked-Reach (unlocks asked 7 42 c e)

after_waiting : after.calls 1 ≡ waiting 7 0
after_waiting = asked_waiting

after_closed : after.cache.closed 0 ≡ true
after_closed = ((set_unlock-releases asked-Reach 7 42).2 1 0 asked_waiting).0

wake-finds_value_example : (v : ℕ) × (MemCache.wake after.cache 7 ≡ some v)
wake-finds_value_example = wake-finds_value after-Reach 1 7 0 after_waiting after_closed

abbrev cleared : System ℕ ℕ
cleared = record asked { cache = MemCache.clear asked.cache }

asked_again : MeddledReach cleared (call cleared 2 7)
unfolding MemCache.new call MemCache.get_or_lock lookup
asked_again = stepped start (asks cleared 2 7 refl)

clear_strands_example :
    ((call cleared 2 7).calls 1 ≡ waiting 7 0) × ((call cleared 2 7).cache.closed 0 ≡ false)
clear_strands_example = clear_strands asked-Reach 1 7 0 asked_waiting asked_open asked_again

abbrev podinfo : RemoteReference
podinfo = record { name = codes "podinfo"; version = codes "1" }

abbrev random : ℕ → Text
random n = n ∷ []

abbrev empty : InMemory
empty = record { dir = codes "/tmp"; cache = MemCache.new; draws = 0 }

abbrev podinfo_key : CacheKey
podinfo_key = record { ref = podinfo; repo = codes "https://charts/" }

abbrev charts : Text
charts = codes "https://charts/"

abbrev first : InMemory × (Text × Option CacheKey)
first = memory_get_or_lock random (λ c. c) empty charts podinfo

first_unlocked : (d : InMemory) × (memory_set_unlock random first.0 first.1.1 ≡ ok d)
unfolding memory_get_or_lock memory_set_unlock MemCache.new MemCache.get_or_lock MemCache.set_unlock
    lookup insert key_eq key_beq
first_unlocked = (_, refl)

not_asked_yet : lookup podinfo_key empty.cache.items ≡ none
unfolding MemCache.new lookup
not_asked_yet = refl

memory_get_or_lock-draws_example :
    (first.1 ≡ (file_path random (codes "/tmp") 0 (basename charts podinfo), some podinfo_key))
    × ((memory_get_or_lock random (λ c. c) first_unlocked.0 charts podinfo).1
        ≡ (file_path random (codes "/tmp") 1 (basename charts podinfo), none))
memory_get_or_lock-draws_example =
    memory_get_or_lock-draws random (λ c. c) empty charts podinfo first_unlocked.0 not_asked_yet
      first_unlocked.1
