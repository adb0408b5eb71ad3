-- ===== src/Throttle/Redis.antt =====
-- internal/middleware/throttle_redis.go: the bucket that lives in Redis, and the store that falls
-- back to the local table. The two Lua scripts run on a table of hashes with expiry times; the
-- server's clock and the network are the calls' surroundings. `tokens` is kept as in the local
-- table, times `every`, here in milliseconds, so `every` is at least one millisecond.
pub mod Agreement
pub mod Shared
pub mod Fallback
use Prim.Native.Nat.{min}
use loon_site.Prelude.{
  ℕ, ◌+◌, ◌-◌, ◌*◌, ◌/◌, Bool, true, false, ◌||◌, Option, none, some, List, [], ◌∷◌, ◌++◌, ltb, leb,
  not, if◌then◌else◌, lookup, insert,
}
use loon_site.Prelude.Bytes.{Bytes, bytes_eq, codes}
use loon_site.Throttle.{Limit, Answer, MemStore, Store, full, take, give, new_mem_store}

-- The hash of a key: the fields `n` and `s`, and the time at which the key expires.
pub record Entry : Type 0 where
  pub tokens : ℕ
  pub seen : ℕ
  pub expires : ℕ

-- An expired key is no key.
unfoldable pub live : ℕ → Option Entry → Option Entry
live now none = none
live now (some e) = if leb e.expires now then none else some e

-- `tokens` and `seen` as the script reads them.
start_of : Limit → ℕ → Option Entry → ℕ × ℕ
start_of l now none = (full l, now)
start_of l now (some e) = (e.tokens, e.seen)

refill_script : Limit → ℕ → ℕ × ℕ → ℕ × ℕ
refill_script l now (tokens, seen) =
    if ltb seen now then (min (full l) (tokens + (now - seen)), now) else (tokens, seen)

-- The script's reply is `{allowed, retry}`, the second in milliseconds.
spend_script : Limit → ℕ → ℕ × ℕ → Entry × Bool × ℕ
spend_script l now (tokens, seen) =
    let expires = now + (full l + 1000) in
    if leb l.every tokens
    then (record { tokens = tokens - l.every; seen = seen; expires = expires }, true, 0)
    else (record { tokens = tokens; seen = seen; expires = expires }, false, l.every - tokens)

-- `throttleLua` on the hash of one key.
unfoldable pub throttle_script : Limit → ℕ → Option Entry → Entry × Bool × ℕ
unfolding start_of refill_script spend_script
throttle_script l now e = spend_script l now (refill_script l now (start_of l now (live now e)))

-- `refundLua` on the hash of one key; `none` is the early return.
unfoldable pub refund_script : Limit → ℕ → Option Entry → Option Entry
refund_script l now e = elim (live now e) [
  | none ↦ none
  | some old ↦ some (record old { tokens = min (full l) (old.tokens + l.every) })
]

abbrev pub Hashes : Type 0
Hashes = List (Bytes × Entry)

unfoldable pub run_throttle : Limit → ℕ → Bytes → Hashes → Hashes × Bool × ℕ
run_throttle l now key hashes =
    let r = throttle_script l now (lookup key hashes) in (insert key r.0 hashes, r.1, r.2)

-- The write that `HSET` makes, if the script came to it.
unfoldable pub write : Bytes → Option Entry → Hashes → Hashes
write key none hashes = hashes
write key (some e) hashes = insert key e hashes

unfoldable pub run_refund : Limit → ℕ → Bytes → Hashes → Hashes
run_refund l now key hashes = write key (refund_script l now (lookup key hashes)) hashes

-- What came of a call over the network: an answer, an answer that is not the script's, or an
-- error, before or after the script ran.
pub data Net : Type 0 where
  answered malformed : Net
  failed : Bool → Net

pub record Surroundings : Type 0 where
  pub now : ℕ
  pub redis_now : ℕ
  pub net : Net

pub record RedisStore : Type 0 where
  pub hashes : Hashes
  pub prefix : Bytes
  pub fallen : MemStore
  pub down : Bool
  -- The calls of `OnState`, newest first: whether Redis is up.
  pub reported : List Bool

abbrev pub millisecond : ℕ
millisecond = 1_000_000

-- `l.Burst, l.Every.Milliseconds()`
unfoldable pub in_milliseconds : Limit → Limit
in_milliseconds l = record l { every = l.every / millisecond }

same : Bool → Bool → Bool
same true b = b
same false b = not b

-- The `Load` of `note`: whether the flag says otherwise.
unfoldable pub note_differs : Bool → RedisStore → Bool
unfolding same
note_differs up s = not (same s.down (not up))

-- The `Store` of `note`, and the report.
abbrev pub note_change : Bool → RedisStore → RedisStore
note_change up s = record s { down = not up; reported = up ∷ s.reported }

-- `note`, with no other call between its load and its store: the source does not lock the two, so
-- there calls that fail at once can all see the flag as it was.
unfoldable pub note : Bool → RedisStore → RedisStore
unfolding note_differs
note up s = if note_differs up s then note_change up s else s

-- The script ran, whatever the caller hears of it.
reached : Net → Bool
reached answered = true
reached malformed = true
reached (failed ran) = ran

-- The reply is read only by `take`.
heard : Net → Bool
heard answered = true
heard malformed = false
heard (failed ran) = false

refund_heard : Net → Bool
refund_heard answered = true
refund_heard malformed = true
refund_heard (failed ran) = false

-- `(*redisStore).take`
unfoldable pub redis_take : Surroundings → Bytes → Limit → RedisStore → RedisStore × Answer
unfolding reached heard
redis_take env key l s =
    let r = run_throttle (in_milliseconds l) env.redis_now (s.prefix ++ key) s.hashes in
    let ran = (if reached env.net then record s { hashes = r.0 } else s) in
    if heard env.net
    then (note true ran, record { allowed = r.1; retry = r.2 * millisecond })
    else let fallback = take env.now key l s.fallen in
      (record (note false ran) { fallen = fallback.0 }, fallback.1)

-- `(*redisStore).give`, which notes nothing when the refund went through.
unfoldable pub redis_give : Surroundings → Bytes → Limit → RedisStore → RedisStore
unfolding reached refund_heard
redis_give env key l s =
    let hashes' = run_refund (in_milliseconds l) env.redis_now (s.prefix ++ key) s.hashes in
    let ran = (if reached env.net then record s { hashes = hashes' } else s) in
    if refund_heard env.net then ran else record (note false ran) { fallen = give key l s.fallen }

abbrev pub redis_store : Store RedisStore Surroundings
redis_store = record { take_from = redis_take; give_to = redis_give }

-- `NewRedisThrottle` with a client.
abbrev pub new_redis_store : Bytes → RedisStore
new_redis_store name = record {
  hashes = [];
  prefix = codes "throttle:" ++ name ++ codes ":";
  fallen = new_mem_store;
  down = false;
  reported = [];
}
