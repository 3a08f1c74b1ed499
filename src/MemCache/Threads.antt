-- ===== src/MemCache/Threads.antt =====
-- Goroutines over one cache (internal/cache/cache.go). A call of `GetOrLock` is known by a number,
-- and its progress is a `Call`; a step is one critical section of the mutex.
use flux_build.Base.{ℕ, ◌≡◌, true, Option, none, some, Eq, nat_eq, ◌==◌, if◌then◌else◌}
use flux_build.Base.Results.{ok}
use flux_build.MemCache
use flux_build.MemCache.{Cache, Outcome, hit, granted, blocked}

-- `refused` is a return of `nil, false` after a wait.
pub data Call {ℓ} (K V : Type ℓ) : Type ℓ where
  idle : Call K V
  waiting : K → ℕ → Call K V
  holding : K → Call K V
  served : K → V → Call K V
  refused : K → Call K V

pub record System {ℓ} (K V : Type ℓ) : Type ℓ where
  pub cache : Cache K V
  pub calls : ℕ → Call K V

unfoldable pub after_outcome {ℓ} : {K V : Type ℓ} → K → Outcome V → Call K V
after_outcome k (hit v) = served k v
after_outcome k granted = holding k
after_outcome k (blocked ch) = waiting k ch

unfoldable pub after_wake {ℓ} : {K V : Type ℓ} → K → Option V → Call K V
after_wake k (some v) = served k v
after_wake k none = refused k

abbrev pub update {ℓ} : {A : Type ℓ} → (ℕ → A) → ℕ → A → ℕ → A
update f t a u = if t == u then a else f u

module _ {ℓ} {K V : Type ℓ} ⦃e : Eq K⦄ where
  unfoldable pub call : System K V → ℕ → K → System K V
  unfolding after_outcome
  call s t k =
      let (c, o) = MemCache.get_or_lock s.cache k in
      record { cache = c; calls = update s.calls t (after_outcome k o) }

  unfoldable pub resume : System K V → ℕ → K → System K V
  unfolding after_wake
  resume s t k = record s { calls = update s.calls t (after_wake k (MemCache.wake s.cache k)) }

  -- The steps of a program that uses `GetOrLock` and `SetUnlock` only, as this one does. Whoever
  -- likes may call `SetUnlock`, on any key.
  pub data Step : System K V → System K V → Type ℓ where
    asks : (s : System K V) (t : ℕ) (k : K) → s.calls t ≡ idle → Step s (call s t k)
    wakes :
        (s : System K V) (t : ℕ) (k : K) (ch : ℕ)
        → s.calls t ≡ waiting k ch
        → s.cache.closed ch ≡ true
        → Step s (resume s t k)
    unlocks :
        (s : System K V) (k : K) (v : V) (c : Cache K V)
        → MemCache.set_unlock s.cache k v ≡ some c
        → Step s (record s { cache = c })

  -- The other methods that change the map.
  pub data Meddle : System K V → System K V → Type ℓ where
    sets :
        (s : System K V) (k : K) (v : V) → Meddle s (record s { cache = MemCache.set s.cache k v })
    adds :
        (s : System K V) (k : K) (v : V) (c : Cache K V)
        → MemCache.add s.cache k v ≡ ok c
        → Meddle s (record s { cache = c })
    deletes : (s : System K V) (k : K) → Meddle s (record s { cache = MemCache.delete s.cache k })
    clears : (s : System K V) → Meddle s (record s { cache = MemCache.clear s.cache })

  pub data Reach (s : System K V) : System K V → Type ℓ where
    here : Reach s s
    next : {t u : System K V} → Reach s t → Step t u → Reach s u

  pub data MeddledReach (s : System K V) : System K V → Type ℓ where
    start : MeddledReach s s
    stepped : {t u : System K V} → MeddledReach s t → Step t u → MeddledReach s u
    meddled : {t u : System K V} → MeddledReach s t → Meddle t u → MeddledReach s u

abbrev pub init {ℓ} : {K V : Type ℓ} → System K V
init = record { cache = MemCache.new; calls = λ _. idle }
