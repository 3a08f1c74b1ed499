-- ===== src/MemCache/Fairness.antt =====
-- What a program that uses `GetOrLock` and `SetUnlock` only can rely on (internal/cache/cache.go).
use flux_build.Base.{
  ℕ, ◌≤◌, ◌<◌, ◌≡◌, refl, ◌≢◌, ◌⊎◌, inl, inr, true, false, none, some, arith, Eq, nat_eq, beq_refl,
  Option-cases,
}
use flux_build.Base.Dict.{lookup, lookup-insert}
use flux_build.MemCache
use flux_build.MemCache.{Cache, Item, lock, value}
use flux_build.MemCache.Threads.{
  waiting, holding, refused, System, call, resume, Step, asks, wakes, unlocks, Reach, here, next,
  init,
}

module _ {ℓ} {K V : Type ℓ} ⦃e : Eq K⦄ where
  abbrev IsWaited : System K V → K → ℕ → Type ℓ
  IsWaited s k ch =
      (lookup k s.cache.items ≡ some (lock ch))
      ⊎ ((s.cache.closed ch ≡ true) × ((v : V) × (lookup k s.cache.items ≡ some (value v))))

  pub record Inv (s : System K V) : Type ℓ where
    pub made : (k : K) (ch : ℕ) → lookup k s.cache.items ≡ some (lock ch) → ch < s.cache.made
    pub unmade : (ch : ℕ) → s.cache.made ≤ ch → s.cache.closed ch ≡ false
    pub locked :
        (k : K) (ch : ℕ) → lookup k s.cache.items ≡ some (lock ch) → s.cache.closed ch ≡ false
    pub distinct :
        (j k : K) (ch : ℕ)
        → lookup j s.cache.items ≡ some (lock ch)
        → lookup k s.cache.items ≡ some (lock ch)
        → j ≡ k
    pub waited : (t : ℕ) (k : K) (ch : ℕ) → s.calls t ≡ waiting k ch → IsWaited s k ch
    pub held : (t : ℕ) (k : K) → s.calls t ≡ holding k → lookup k s.cache.items ≢ none
    pub single : (t u : ℕ) (k : K) → s.calls t ≡ holding k → s.calls u ≡ holding k → t ≡ u
    pub unrefused : (t : ℕ) (k : K) → s.calls t ≢ refused k

  init-Inv : Inv init
  unfolding MemCache.new lookup
  init-Inv = record {
    made = λ k ch h. cc;
    unmade = λ ch h. refl;
    locked = λ k ch h. cc;
    distinct = λ j k ch h. cc;
    waited = λ t k ch h. cc;
    held = λ t k h. cc;
    single = λ t u k h. cc;
    unrefused = λ t k h. cc;
  }

  asks-Inv : (s : System K V) (t : ℕ) (k : K) → Inv s → Inv (call s t k)
  unfolding call MemCache.get_or_lock
  asks-Inv s t k i = record {
    made =
        λ j ch h. ground (arith, i.made j ch, lookup-insert j k (lock s.cache.made) s.cache.items);
    unmade = λ ch h. ground (arith, i.unmade ch);
    locked = λ j ch h.
        ground
          (arith, i.locked j ch, i.unmade ch, lookup-insert j k (lock s.cache.made) s.cache.items);
    distinct = λ j l ch h g. ground (
      arith,
      i.distinct j l ch,
      i.made j ch,
      i.made l ch,
      e.beq_iff k j,
      e.beq_iff k l,
      lookup-insert j k (lock s.cache.made) s.cache.items,
      lookup-insert l k (lock s.cache.made) s.cache.items,
    );
    waited = λ u j ch h. ground (
      arith,
      i.waited u j ch,
      e.beq_iff k j,
      lookup-insert j k (lock s.cache.made) s.cache.items,
    );
    held = λ u j h.
        ground
          (arith, i.held u j, e.beq_iff k j, lookup-insert j k (lock s.cache.made) s.cache.items);
    single = λ u w j h g. ground (arith, i.single u w j, i.held u j, i.held w j);
    unrefused = λ u j h. ground (arith, i.unrefused u j);
  }

  wakes-Inv :
      (s : System K V) (t : ℕ) (k : K) (ch : ℕ)
      → s.calls t ≡ waiting k ch
      → s.cache.closed ch ≡ true
      → Inv s
      → Inv (resume s t k)
  unfolding resume MemCache.wake
  wakes-Inv s t k ch w c i = record {
    made = i.made;
    unmade = i.unmade;
    locked = i.locked;
    distinct = i.distinct;
    waited = λ u j d h. ground (arith, i.waited u j d);
    held = λ u j h. ground (arith, i.held u j);
    single = λ u x j h g. ground (arith, i.single u x j);
    unrefused = λ u j h. ground (arith, i.unrefused u j, i.waited t k ch, i.locked k ch);
  }

  unlocks-Inv :
      (s : System K V) (k : K) (v : V) (c : Cache K V)
      → MemCache.set_unlock s.cache k v ≡ some c
      → Inv s
      → Inv (record s { cache = c })
  unfolding MemCache.set_unlock
  unlocks-Inv s k v c u i = record {
    made = λ j ch h. ground (arith, i.made j ch, lookup-insert j k (value v) s.cache.items);
    unmade = λ ch h. ground (arith, i.unmade ch, i.made k ch);
    locked = λ j ch h. ground (
      arith,
      i.locked j ch,
      i.distinct j k ch,
      e.beq_iff k j,
      lookup-insert j k (value v) s.cache.items,
    );
    distinct = λ j l ch h g. ground (
      arith,
      i.distinct j l ch,
      lookup-insert j k (value v) s.cache.items,
      lookup-insert l k (value v) s.cache.items,
    );
    waited = λ t j ch h.
        ground (arith, i.waited t j ch, e.beq_iff k j, lookup-insert j k (value v) s.cache.items);
    held = λ t j h. ground (arith, i.held t j, lookup-insert j k (value v) s.cache.items);
    single = i.single;
    unrefused = i.unrefused;
  }

  Step-Inv : {s t : System K V} → Step s t → Inv s → Inv t
  Step-Inv (asks s t k _) i = asks-Inv s t k i
  Step-Inv (wakes s t k ch w c) i = wakes-Inv s t k ch w c i
  Step-Inv (unlocks s k v c u) i = unlocks-Inv s k v c u i

  pub Reach-Inv : {s : System K V} → Reach init s → Inv s
  Reach-Inv here = init-Inv
  Reach-Inv (next r st) = Step-Inv st (Reach-Inv r)

  -- However the calls interleave, at most one call ever gets the lock of a key: two calls of
  -- `GetOrLock` that were granted the lock of one key are the same call.
  pub grants_unique :
      {s : System K V}
      → Reach init s
      → (t u : ℕ) (k : K) → s.calls t ≡ holding k
      → s.calls u ≡ holding k
      → t ≡ u
  grants_unique r = (Reach-Inv r).single

  never_panics : (s : System K V) (k : K) (v : V) → Inv s → MemCache.set_unlock s.cache k v ≢ none
  unfolding MemCache.set_unlock
  never_panics s k v i h = grind (arith, i.locked k)

  set_unlock_ok :
      (s : System K V) (k : K) (v : V)
      → Inv s
      → (c : Cache K V) × (MemCache.set_unlock s.cache k v ≡ some c)
  set_unlock_ok s k v i = elim (Option-cases (MemCache.set_unlock s.cache k v)) [
    | inr found ↦ found
    | inl panics ↦ absurd (never_panics s k v i panics)
  ]

  unlocked_lem :
      (s : System K V) (k : K) (v : V) (c : Cache K V)
      → MemCache.set_unlock s.cache k v ≡ some c
      → Inv s
      → (t : ℕ) (ch : ℕ) → s.calls t ≡ waiting k ch
      → (c.closed ch ≡ true) × (MemCache.wake c k ≡ some v)
  unfolding MemCache.set_unlock MemCache.wake
  unlocked_lem s k v c u i t ch w =
      ground (arith, i.waited t k ch w, beq_refl k, lookup-insert k k (value v) s.cache.items)

  -- In every reachable state `SetUnlock` succeeds (it never closes a closed channel), and after it
  -- every call that waits for the key has its channel closed and, when it wakes, gets the new value.
  pub set_unlock-releases :
      {s : System K V}
      → Reach init s
      → (k : K) (v : V)
      → (c : Cache K V) × (MemCache.set_unlock s.cache k v ≡ some c)
        × ((t : ℕ) (ch : ℕ)
            → s.calls t ≡ waiting k ch
            → (c.closed ch ≡ true) × (MemCache.wake c k ≡ some v))
  set_unlock-releases {s} r k v =
      let i = Reach-Inv r in
      let (c, u) = set_unlock_ok s k v i in (c, u, λ t ch w. unlocked_lem s k v c u i t ch w)

  -- However the calls interleave, no call that waited returns without a value: a call whose channel
  -- is closed finds one when it wakes.
  pub wake-finds_value :
      {s : System K V}
      → Reach init s
      → (t : ℕ) (k : K) (ch : ℕ) → s.calls t ≡ waiting k ch
      → s.cache.closed ch ≡ true
      → (v : V) × (MemCache.wake s.cache k ≡ some v)
  unfolding MemCache.wake
  wake-finds_value r t k ch w c =
      let i = Reach-Inv r in ground (arith, i.waited t k ch w, i.locked k ch)
