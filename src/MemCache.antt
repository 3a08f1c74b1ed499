-- ===== src/MemCache.antt =====
-- internal/cache/cache.go: the generic in-memory cache, in which the first caller to ask for a key
-- gets a lock and the others wait for its value. An item of the map is an `any`: a lock, which is a
-- channel known here by its number, or a value. Each method runs under the mutex, so it is one
-- atomic function; `GetOrLock` leaves the mutex while it waits, so it is two, `get_or_lock` up to
-- the wait and `wake` after it.
pub mod Threads
pub mod Fairness
pub mod Stranding
use flux_build.Base.{
  ℕ, suc, ◌+◌, Bool, true, false, Option, none, some, [], length, Eq, nat_eq, ◌==◌, if◌then◌else◌,
}
use flux_build.Base.Dict.{Dict, lookup, insert, erase}
use flux_build.Base.Results.{Result, ok, err}

pub data Item {ℓ} (V : Type ℓ) : Type ℓ where
  lock : ℕ → Item V
  value : V → Item V

-- `made` counts the channels made so far, and `closed` says which of them are closed.
pub record Cache {ℓ} (K V : Type ℓ) : Type ℓ where
  pub items : Dict K (Item V)
  pub made : ℕ
  pub closed : ℕ → Bool

-- What a caller of `GetOrLock` meets: a value, the lock that it now holds, or a channel to wait on.
pub data Outcome {ℓ} (V : Type ℓ) : Type ℓ where
  hit : V → Outcome V
  granted : Outcome V
  blocked : ℕ → Outcome V

pub data CacheError {ℓ} (K : Type ℓ) : Type ℓ where
  already_exists : K → CacheError K

-- `New`
unfoldable pub new {ℓ} : {K V : Type ℓ} → Cache K V
new = record { items = []; made = 0; closed = λ _. false }

module _ {ℓ} {K V : Type ℓ} ⦃e : Eq K⦄ where
  -- `ItemCount`: locks count too.
  unfoldable pub item_count : Cache K V → ℕ
  item_count c = length c.items

  -- `Set`
  unfoldable pub set : Cache K V → K → V → Cache K V
  set c k v = record c { items = insert k (value v) c.items }

  -- `Add`
  unfoldable pub add : Cache K V → K → V → Result (CacheError K) (Cache K V)
  add c k v = elim (lookup k c.items) [
    | some _ ↦ err (already_exists k)
    | none ↦ ok (record c { items = insert k (value v) c.items })
  ]

  -- `Get`
  unfoldable pub get : Cache K V → K → Option (Item V)
  get c k = lookup k c.items

  -- `GetOrLock`, up to its return or its wait on the channel of another caller's lock
  unfoldable pub get_or_lock : Cache K V → K → Cache K V × Outcome V
  get_or_lock c k = elim (lookup k c.items) [
    | none ↦ (record c { items = insert k (lock c.made) c.items; made = suc c.made }, granted)
    | some (lock ch) ↦ (c, blocked ch)
    | some (value v) ↦ (c, hit v)
  ]

  -- `GetOrLock`, after the wait: `none` is `nil, false`
  unfoldable pub wake : Cache K V → K → Option V
  wake c k = elim (lookup k c.items) [
    | none ↦ none
    | some (lock _) ↦ none
    | some (value v) ↦ some v
  ]

  -- `SetUnlock`: `none` is the panic of `close` on a closed channel
  unfoldable pub set_unlock : Cache K V → K → V → Option (Cache K V)
  set_unlock c k v = elim (lookup k c.items) [
    | none ↦ some (record c { items = insert k (value v) c.items })
    | some (value _) ↦ some (record c { items = insert k (value v) c.items })
    | some (lock ch) ↦
        if c.closed ch
        then none
        else some (record c {
          items = insert k (value v) c.items;
          closed = λ d. if ch == d then true else c.closed d;
        })
  ]

  -- `Delete`
  unfoldable pub delete : Cache K V → K → Cache K V
  delete c k = record c { items = erase k c.items }

  -- `Clear`
  unfoldable pub clear : Cache K V → Cache K V
  clear c = record c { items = [] }
