-- ===== src/Throttle.antt =====
-- internal/middleware/throttle.go: the token bucket, the table of buckets in this process, and the
-- limiter over a store. A bucket's `tokens` (a float64) is kept here as `credit`, the tokens times
-- `Every` in nanoseconds: `d.Seconds() / l.Every.Seconds()` tokens are `d` nanoseconds of credit,
-- so the arithmetic is exact and the rounding of floats is left out. A table is Go's map.
pub mod Key
pub mod Bucket
pub mod Table
pub mod Calls
pub mod Sweep
pub mod Rate
pub mod Guard
pub mod Redis
mod Tests
use loon_site.Prelude.{
  ℕ, ◌+◌, ◌-◌, ◌*◌, Bool, true, false, ◌||◌, Option, none, some, List, [], ◌∷◌, length, keep, not,
  ltb, leb, ◌==◌, nat_eq, if◌then◌else◌, lookup, insert,
}
use loon_site.Prelude.Bytes.{Bytes, bytes_eq}

-- `Burst` tokens, one back every `every` nanoseconds; 0 stands for the values that the code tests
-- with `<= 0`.
pub record Limit : Type 0 where
  pub burst : ℕ
  pub every : ℕ

pub record TokenBucket : Type 0 where
  pub credit : ℕ
  pub last : ℕ

-- What `take` reports: `(allowed, retry)`, the second in nanoseconds.
pub record Answer : Type 0 where
  pub allowed : Bool
  pub retry : ℕ

pub record MemStore : Type 0 where
  pub buckets : List (Bytes × TokenBucket)
  pub max : ℕ

-- `float64(l.Burst)`, as credit.
abbrev pub full : Limit → ℕ
full l = l.burst * l.every

-- `if b.tokens > float64(l.Burst) { b.tokens = float64(l.Burst) }`
abbrev pub clip : Limit → ℕ → ℕ
clip l t = if ltb (full l) t then full l else t

pub refill : Limit → ℕ → TokenBucket → TokenBucket
refill l now b =
    if ltb b.last now then record { credit = clip l (b.credit + (now - b.last)); last = now } else b

pub spend : Limit → TokenBucket → TokenBucket × Answer
spend l b =
    if ltb b.credit l.every
    then (b, record { allowed = false; retry = l.every - b.credit })
    else (record b { credit = b.credit - l.every }, record { allowed = true; retry = 0 })

pub fresh : Limit → ℕ → TokenBucket
fresh l now = record { credit = full l; last = now }

-- `newMemStore`
abbrev pub new_mem_store : MemStore
new_mem_store = record { buckets = []; max = 50000 }

-- `b, ok := m.buckets[key]`, with the bucket that is made when there is none.
pub found_or_fresh : Limit → ℕ → Option TokenBucket → TokenBucket
unfolding fresh
found_or_fresh l now none = fresh l now
found_or_fresh l now (some b) = b

-- At the cap the table is dropped whole.
pub make_room : MemStore → List (Bytes × TokenBucket)
make_room m = if leb m.max (length m.buckets) then [] else m.buckets

-- A refill and a spend of one bucket.
pub take_bucket : Limit → ℕ → TokenBucket → TokenBucket × Answer
unfolding refill spend
take_bucket l now b = spend l (refill l now b)

unfoldable pub take : ℕ → Bytes → Limit → MemStore → MemStore × Answer
take now key l m =
    let table = make_room m in
    let r = take_bucket l now (found_or_fresh l now (lookup key table)) in
    (record m { buckets = insert key r.0 table }, r.1)

pub give_bucket : Limit → TokenBucket → TokenBucket
give_bucket l b = record b { credit = clip l (b.credit + l.every) }

unfoldable pub give : Bytes → Limit → MemStore → MemStore
unfolding give_bucket
give key l m = elim (lookup key m.buckets) [
  | none ↦ m
  | some b ↦ record m { buckets = insert key (give_bucket l b) m.buckets }
]

abbrev pub minute : ℕ
minute = 60_000_000_000

pub idle_time : Limit → ℕ
idle_time l = let idle = full l * 2 in if ltb idle minute then minute else idle

-- `now.Sub(b.last) > idle`
pub is_idle : Limit → ℕ → Bytes × TokenBucket → Bool
unfolding idle_time
is_idle l now (k, b) = ltb (idle_time l) (now - b.last)

unfoldable pub sweep : ℕ → Limit → MemStore → MemStore
unfolding is_idle
sweep now l m = record m { buckets = keep (λ e. not (is_idle l now e)) m.buckets }

-- The interface `store`: `E` is what a call sees of its surroundings (clocks, the network).
pub record Store (S E : Type 0) : Type 0 where
  pub take_from : E → Bytes → Limit → S → S × Answer
  pub give_to : E → Bytes → Limit → S → S

-- The table in this process; its surroundings are the clock.
abbrev pub mem_store : Store MemStore ℕ
mem_store = record { take_from = take; give_to = λ _. give }

-- `t.limit.Burst <= 0 || t.limit.Every <= 0`
pub unconfigured : Limit → Bool
unconfigured l = l.burst == 0 || l.every == 0

module _ {S E : Type 0} (store : Store S E) where
  -- `(*Throttle).allow`
  unfoldable pub allow : Limit → E → Bytes → S → S × Answer
  unfolding unconfigured
  allow l env key s =
      if unconfigured l
      then (s, record { allowed = true; retry = 0 })
      else store.take_from env key l s

  -- `(*Throttle).Refund`, for a limiter that is there.
  unfoldable pub refund : Limit → E → Bytes → S → S
  unfolding unconfigured
  refund l env key s = if unconfigured l then s else store.give_to env key l s
