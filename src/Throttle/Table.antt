-- ===== src/Throttle/Table.antt =====
-- `take`, `give` and `sweep` of the table in this process, as changes of one key's bucket.
use loon_site.Prelude.{
  ℕ, ◌-◌, ◌<◌, ◌≡◌, Option, true, false, some, none, length, arith, lookup, lookup-insert,
  if◌then◌else◌, ltb, leb, ◌==◌, Bool-cases, inl, inr, Option-cases, beq_refl, Distinct,
  insert-Distinct, keep-Distinct, lookup-keep, [],
}
use loon_site.Prelude.Bytes.{Bytes, bytes_eq, bytes_beq_iff}
use loon_site.Throttle.{
  Limit, TokenBucket, MemStore, found_or_fresh, make_room, take_bucket, take, give_bucket, give,
  sweep, is_idle, idle_time,
}

-- The bucket of a key.
abbrev pub bucket_of : Bytes → MemStore → Option TokenBucket
bucket_of key m = lookup key m.buckets

abbrev pub current : Limit → ℕ → Bytes → MemStore → TokenBucket
current l now key m = found_or_fresh l now (bucket_of key m)

pub make_room_below : (m : MemStore) → length m.buckets < m.max → make_room m ≡ m.buckets
unfolding make_room
make_room_below m h = ground arith

module _ (l : Limit) (now : ℕ) (key : Bytes) (m : MemStore) (room : length m.buckets < m.max) where
  pub take-answer : (take now key l m).1 ≡ (take_bucket l now (current l now key m)).1
  unfolding take
  take-answer = rw (make_room_below m room)

  -- One call changes the bucket of its own key and no other.
  pub bucket_of-take :
      (j : Bytes)
      → bucket_of j (take now key l m).0
        ≡ (if key == j then some (take_bucket l now (current l now key m)).0 else bucket_of j m)
  unfolding take
  bucket_of-take j = rw (make_room_below m room) (lookup-insert key j _ m.buckets)

module _ (l : Limit) (now : ℕ) (key k : Bytes) (m : MemStore)
    (room : length m.buckets < m.max) where
  pub bucket_of-take_self :
      k ≡ key → bucket_of key (take now k l m).0 ≡ some (take_bucket l now (current l now key m)).0
  bucket_of-take_self here = rw (here, bucket_of-take l now key m room key, beq_refl key)

  pub take-answer_self : k ≡ key → (take now k l m).1 ≡ (take_bucket l now (current l now key m)).1
  take-answer_self here = rw here (take-answer l now key m room)

  pub bucket_of-take_other : (k == key) ≡ false → bucket_of key (take now k l m).0 ≡ bucket_of key m
  bucket_of-take_other other = rw (bucket_of-take l now k m room key, other)

unfoldable pub give_option : Limit → Option TokenBucket → Option TokenBucket
give_option l none = none
give_option l (some b) = some (give_bucket l b)

pub bucket_of-give :
    (l : Limit) (key j : Bytes) (m : MemStore)
    → bucket_of j (give key l m)
      ≡ (if key == j then give_option l (bucket_of j m) else bucket_of j m)
unfolding give give_option
bucket_of-give l key j m = elim (Option-cases (lookup key m.buckets)) [
  | inl absent ↦ ground (arith, bytes_beq_iff key j)
  | inr (b, found) ↦
      ground (arith, bytes_beq_iff key j, lookup-insert key j (give_bucket l b) m.buckets)
]

module _ (l : Limit) (key k : Bytes) (m : MemStore) where
  pub bucket_of-give_self :
      (k == key) ≡ true → bucket_of key (give k l m) ≡ give_option l (bucket_of key m)
  bucket_of-give_self same = rw (bucket_of-give l k key m, same)

  pub bucket_of-give_other : (k == key) ≡ false → bucket_of key (give k l m) ≡ bucket_of key m
  bucket_of-give_other other = rw (bucket_of-give l k key m, other)

pub take-Distinct :
    (l : Limit) (now : ℕ) (key : Bytes) (m : MemStore)
    → Distinct m.buckets
    → Distinct (take now key l m).0.buckets
unfolding take make_room
take-Distinct l now key m d = elim (Bool-cases (leb m.max (length m.buckets))) [
  | inl dropped ↦ rw dropped (insert-Distinct key _ [] tt)
  | inr stays ↦ rw stays (insert-Distinct key _ m.buckets d)
]

pub give-Distinct :
    (l : Limit) (key : Bytes) (m : MemStore) → Distinct m.buckets → Distinct (give key l m).buckets
unfolding give
give-Distinct l key m d = elim (Option-cases (lookup key m.buckets)) [
  | inl absent ↦ rw (absent, give, Distinct) d
  | inr (b, found) ↦ rw (found, give, Distinct) (insert-Distinct key _ m.buckets d)
]

pub sweep-Distinct :
    (l : Limit) (now : ℕ) (m : MemStore) → Distinct m.buckets → Distinct (sweep now l m).buckets
unfolding sweep
sweep-Distinct l now m d = keep-Distinct _ m.buckets d

unfoldable pub sweep_option : Limit → ℕ → Option TokenBucket → Option TokenBucket
sweep_option l now none = none
sweep_option l now (some b) = if ltb (idle_time l) (now - b.last) then none else some b

pub bucket_of-sweep :
    (l : Limit) (now : ℕ) (j : Bytes) (m : MemStore)
    → Distinct m.buckets
    → bucket_of j (sweep now l m) ≡ sweep_option l now (bucket_of j m)
unfolding sweep is_idle sweep_option
bucket_of-sweep l now j m d = rw (lookup-keep j _ m.buckets d) (ground arith)
