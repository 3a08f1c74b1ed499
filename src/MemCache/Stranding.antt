-- ===== src/MemCache/Stranding.antt =====
-- What becomes of a waiting call when its lock is dropped from the map: `Clear`, and what follows it
-- (internal/cache/cache.go).
use flux_build.Base.{ℕ, ◌<◌, ◌≡◌, ◌≢◌, false, some, arith, Eq, nat_eq}
use flux_build.Base.Dict.{lookup, lookup-nil, lookup-insert, lookup-erase}
use flux_build.MemCache
use flux_build.MemCache.{Cache, Item, lock, value}
use flux_build.MemCache.Threads.{
  waiting, System, call, resume, Step, asks, wakes, unlocks, Meddle, sets, adds, deletes, clears,
  Reach, MeddledReach, start, stepped, meddled, init,
}
use flux_build.MemCache.Fairness.{Reach-Inv}

module _ {ℓ} {K V : Type ℓ} ⦃e : Eq K⦄ where
  pub record IsStranded (t : ℕ) (k : K) (ch : ℕ) (s : System K V) : Type ℓ where
    pub waits : s.calls t ≡ waiting k ch
    pub open_still : s.cache.closed ch ≡ false
    pub old : ch < s.cache.made
    pub unlisted : (j : K) → lookup j s.cache.items ≢ some (lock ch)

  module _ (t : ℕ) (k : K) (ch : ℕ) where
    Step-IsStranded : {s u : System K V} → Step s u → IsStranded t k ch s → IsStranded t k ch u
    unfolding call resume MemCache.get_or_lock MemCache.set_unlock
    Step-IsStranded (asks s r j free) i = record {
      waits = ground (arith, i.waits);
      open_still = ground (arith, i.open_still);
      old = ground (arith, i.old);
      unlisted = λ l h.
          ground (arith, i.unlisted l, i.old, lookup-insert l j (lock s.cache.made) s.cache.items);
    }
    Step-IsStranded (wakes s r j d w c) i = record {
      waits = ground (arith, i.waits, i.open_still);
      open_still = i.open_still;
      old = i.old;
      unlisted = i.unlisted;
    }
    Step-IsStranded (unlocks s j v c u) i = record {
      waits = i.waits;
      open_still = ground (arith, i.open_still, i.unlisted j);
      old = ground (arith, i.old);
      unlisted = λ l h. ground (arith, i.unlisted l, lookup-insert l j (value v) s.cache.items);
    }

    Meddle-IsStranded : {s u : System K V} → Meddle s u → IsStranded t k ch s → IsStranded t k ch u
    unfolding MemCache.set MemCache.add MemCache.delete MemCache.clear
    Meddle-IsStranded (sets s j v) i = record {
      waits = i.waits;
      open_still = i.open_still;
      old = i.old;
      unlisted = λ l h. ground (arith, i.unlisted l, lookup-insert l j (value v) s.cache.items);
    }
    Meddle-IsStranded (adds s j v c a) i = record {
      waits = i.waits;
      open_still = ground (arith, i.open_still);
      old = ground (arith, i.old);
      unlisted = λ l h. ground (arith, i.unlisted l, lookup-insert l j (value v) s.cache.items);
    }
    Meddle-IsStranded (deletes s j) i = record {
      waits = i.waits;
      open_still = i.open_still;
      old = i.old;
      unlisted = λ l h. ground (arith, i.unlisted l, lookup-erase l j s.cache.items);
    }
    Meddle-IsStranded (clears s) i = record {
      waits = i.waits;
      open_still = i.open_still;
      old = i.old;
      unlisted = λ l h. cc (lookup-nil {V = Item V} l);
    }

    MeddledReach-IsStranded :
        {s u : System K V} → IsStranded t k ch s → MeddledReach s u → IsStranded t k ch u
    MeddledReach-IsStranded i start = i
    MeddledReach-IsStranded i (stepped r st) = Step-IsStranded st (MeddledReach-IsStranded i r)
    MeddledReach-IsStranded i (meddled r m) = Meddle-IsStranded m (MeddledReach-IsStranded i r)

  -- A call that waits on an open channel when `Clear` runs waits for ever: in every state reached
  -- after the `Clear`, by any methods of the cache, it still waits on that channel, and the channel
  -- is still open.
  pub clear_strands :
      {s u : System K V}
      → Reach init s
      → (t : ℕ) (k : K) (ch : ℕ) → s.calls t ≡ waiting k ch
      → s.cache.closed ch ≡ false
      → MeddledReach (record s { cache = MemCache.clear s.cache }) u
      → (u.calls t ≡ waiting k ch) × (u.cache.closed ch ≡ false)
  unfolding MemCache.clear
  clear_strands {s} r t k ch w o m =
      let i = Reach-Inv r in
      let d =
        MeddledReach-IsStranded t k ch
          (record {
            waits = w;
            open_still = o;
            old = ground (arith, i.waited t k ch w, i.made k ch);
            unlisted = λ j h. cc (lookup-nil {V = Item V} j);
          })
          m in
      (d.waits, d.open_still)
