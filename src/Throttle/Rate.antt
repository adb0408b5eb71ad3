-- ===== src/Throttle/Rate.antt =====
-- How fast a key can spend, over any interleaving of calls.
use loon_site.Prelude.{
  ℕ, ◌+◌, ◌-◌, ltb, ◌*◌, ◌≤◌, ◌<◌, ◌≡◌, Option, some, none, List, [], ◌∷◌, length, arith,
  if◌then◌else◌, ◌==◌, Bool-cases, inl, inr, Option-cases, Distinct,
}
use loon_site.Prelude.Bytes.{Bytes, bytes_eq, bytes_beq_iff}
use loon_site.Throttle.{
  Limit, TokenBucket, MemStore, full, fresh, found_or_fresh, take_bucket, take, give_bucket, give,
  sweep, idle_time,
}
use loon_site.Throttle.Bucket.{
  credit_at, credit_at-later, credit_at-give, take_bucket_budget, take_bucket-last,
  take_bucket-le-full, give_bucket-le-full,
}
use loon_site.Throttle.Table.{
  bucket_of, take-answer_self, bucket_of-take_self, bucket_of-take_other, bucket_of-give_self,
  bucket_of-give_other, bucket_of-sweep, give_option, sweep_option, take-Distinct, give-Distinct,
  sweep-Distinct,
}
use loon_site.Throttle.Calls.{
  Call, take_call, give_call, sweep_call, spent, refunds, Timed, HasRoom, after_call-HasRoom,
}

-- The credit that a key has at a time.
abbrev credit_of : Limit → ℕ → Option TokenBucket → ℕ
credit_of l t none = full l
credit_of l t (some b) = credit_at l t b

-- A bucket that was seen by a time and holds at most a burst.
abbrev pub Before : Limit → ℕ → Option TokenBucket → Type 0
Before l t none = Unit
Before l t (some b) = (b.last ≤ t) × (b.credit ≤ full l)

credit_of-le-full : (l : Limit) (t : ℕ) (o : Option TokenBucket) → credit_of l t o ≤ full l
credit_of-le-full l t none = omega arith
credit_of-le-full l t (some b) = ground arith

module _ (l : Limit) (finish : ℕ) where
  -- What a key may spend until `finish`, given what it holds.
  abbrev Within : ℕ → Option TokenBucket → ℕ → ℕ → Type 0
  Within t o n grants = n * l.every + t ≤ credit_of l t o + grants * l.every + finish

  pay :
      (t now n grants credit : ℕ) (b : TokenBucket)
      → Within now (some (take_bucket l now b).0) n grants
      → (if (take_bucket l now b).1.allowed then l.every else 0)
          + credit_at l now (take_bucket l now b).0
          + t
        ≤ credit + now
      → ((if (take_bucket l now b).1.allowed then 1 else 0) + n) * l.every + t
        ≤ credit + grants * l.every + finish
  pay t now n grants credit b w paid = elim (Bool-cases (take_bucket l now b).1.allowed) [
    | inl passed ↦ let p = rw passed at paid in rw passed (omega arith)
    | inr stopped ↦ let p = rw stopped at paid in rw stopped (omega arith)
  ]

  take_own :
      (t now n grants : ℕ) (o : Option TokenBucket)
      → t ≤ now
      → Before l t o
      → Within now (some (take_bucket l now (found_or_fresh l now o)).0) n grants
      → Within t o
          ((if (take_bucket l now (found_or_fresh l now o)).1.allowed then 1 else 0) + n)
          grants
  unfolding found_or_fresh fresh
  take_own t now n grants none h _ w =
      let paid =
        take_bucket_budget l now now (fresh l now) (omega arith) (omega arith) (omega arith) in
      let le : credit_at l now (fresh l now) ≤ full l = ground arith in
      pay t now n grants (full l) (fresh l now) w (omega arith)
  take_own t now n grants (some b) h (before, le) w =
      pay t now n grants (credit_at l t b) b w (take_bucket_budget l t now b before h le)

  take_own-Before :
      (t now : ℕ) (o : Option TokenBucket)
      → t ≤ now
      → Before l t o
      → Before l now (some (take_bucket l now (found_or_fresh l now o)).0)
  unfolding found_or_fresh fresh
  take_own-Before t now none h _ = (
    omega (arith, take_bucket-last l now (fresh l now)),
    take_bucket-le-full l now (fresh l now) (omega arith),
  )
  take_own-Before t now (some b) h (before, le) =
      (omega (arith, take_bucket-last l now b), take_bucket-le-full l now b le)

  give_own :
      (t n grants : ℕ) (o : Option TokenBucket)
      → Within t (give_option l o) n grants
      → Within t o (0 + n) (1 + grants)
  unfolding give_option
  give_own t n grants none w = omega arith
  give_own t n grants (some b) w = omega (arith, credit_at-give l t b)

  give_own-Before : (t : ℕ) (o : Option TokenBucket) → Before l t o → Before l t (give_option l o)
  unfolding give_option give_bucket
  give_own-Before t none h = tt
  give_own-Before t (some b) (before, le) = (before, give_bucket-le-full l b)

  later_other :
      (t now n grants : ℕ) (o : Option TokenBucket)
      → t ≤ now
      → Before l t o
      → Within now o n grants
      → Within t o (0 + n) grants
  later_other t now n grants none h _ w = omega arith
  later_other t now n grants (some b) h (before, le) w =
      omega (arith, credit_at-later l t now b before h)

  sweep_own :
      (t now n grants : ℕ) (o : Option TokenBucket)
      → t ≤ now
      → Before l t o
      → Within now (sweep_option l now o) n grants
      → Within t o (0 + n) grants
  unfolding sweep_option idle_time
  sweep_own t now n grants none h _ w = omega arith
  sweep_own t now n grants (some b) h before w =
      elim (Bool-cases (ltb (idle_time l) (now - b.last))) [
        | inl idle ↦
            let rested : credit_at l now b ≡ full l = ground arith in
            let w' : Within now none n grants = rw idle at w in
            later_other t now n grants (some b) h before (omega arith)
        | inr stays ↦ later_other t now n grants (some b) h before (rw stays at w)
      ]

  sweep_own-Before :
      (t now : ℕ) (o : Option TokenBucket)
      → t ≤ now
      → Before l t o
      → Before l now (sweep_option l now o)
  unfolding sweep_option
  sweep_own-Before t now none h b = tt
  sweep_own-Before t now (some b) h before = ground arith

  give_other :
      (t n grants : ℕ) (o : Option TokenBucket)
      → Within t o n grants
      → Within t o (0 + n) (0 + grants)
  give_other t n grants o w = omega arith

  later-Before : (t now : ℕ) (o : Option TokenBucket) → t ≤ now → Before l t o → Before l now o
  later-Before t now none h b = tt
  later-Before t now (some b) h (before, le) = (omega arith, le)

  module _ (key : Bytes) where
    spent-Within :
        (calls : List Call) (t : ℕ) (m : MemStore)
        → Timed t calls finish
        → HasRoom calls m
        → Distinct m.buckets
        → Before l t (bucket_of key m)
        → Within t (bucket_of key m) (spent l key calls m) (refunds key calls)
    unfolding spent refunds
    spent-Within [] t m timed room d before = elim (Option-cases (bucket_of key m)) [
      | inl absent ↦ rw absent (omega arith)
      | inr (b, found) ↦ rw found (let h = rw found at before in omega arith)
    ]
    spent-Within (take_call now k ∷ calls) t m (order, timed) room d before =
        let m' = (take now k l m).0 in
        let below : length m.buckets < m.max = omega arith in
        let room' = after_call-HasRoom l (take_call now k) calls m room in
        let ih = spent-Within calls now m' timed room' (take-Distinct l now k m d) in
        elim (Bool-cases (k == key)) [
          | inl same ↦
              let here = (bytes_beq_iff k key).0 same in
              let e = bucket_of-take_self l now key k m below here in
              let ih' =
                rw e at (ih (rw e (take_own-Before t now (bucket_of key m) order before))) in
              rw (same, take-answer_self l now key k m below here)
                (take_own t now _ _ (bucket_of key m) order before ih')
          | inr other ↦
              let e = bucket_of-take_other l now key k m below other in
              let ih' = rw e at (ih (rw e (later-Before t now (bucket_of key m) order before))) in
              rw other (later_other t now _ _ (bucket_of key m) order before ih')
        ]
    spent-Within (give_call k ∷ calls) t m timed room d before =
        let m' = give k l m in
        let room' = after_call-HasRoom l (give_call k) calls m room in
        let ih = spent-Within calls t m' timed room' (give-Distinct l k m d) in
        elim (Bool-cases (k == key)) [
          | inl same ↦
              let e = bucket_of-give_self l key k m same in
              let ih' = rw e at (ih (rw e (give_own-Before t (bucket_of key m) before))) in
              rw same (give_own t _ _ (bucket_of key m) ih')
          | inr other ↦
              let e = bucket_of-give_other l key k m other in
              rw other (give_other t _ _ (bucket_of key m) (rw e at (ih (rw e before))))
        ]
    spent-Within (sweep_call now ∷ calls) t m (order, timed) room d before =
        let e = bucket_of-sweep l now key m d in
        let room' = after_call-HasRoom l (sweep_call now) calls m room in
        let ih = spent-Within calls now (sweep now l m) timed room' (sweep-Distinct l now m d) in
        let ih' = rw e at (ih (rw e (sweep_own-Before t now (bucket_of key m) order before))) in
        sweep_own t now _ _ (bucket_of key m) order before ih'

-- Whatever the interleaving with other keys, refunds and sweeps, a key gets at most a burst
-- through, one more for each refund, and one more for each `every` that passes between `start` and
-- `finish`, whatever it did before: as long as its bucket at the start, if any, holds at most a
-- burst and was seen by then, the clock does not go back and the table cannot fill up. (No key is
-- in the table twice, as in no Go map.)
pub spent_bound :
    (l : Limit) (key : Bytes) (calls : List Call) (m : MemStore) (start finish : ℕ)
    → Timed start calls finish
    → HasRoom calls m
    → Distinct m.buckets
    → Before l start (bucket_of key m)
    → spent l key calls m * l.every + start ≤ (l.burst + refunds key calls) * l.every + finish
spent_bound l key calls m start finish timed room d before = omega (
  arith,
  spent-Within l finish key calls start m timed room d before,
  credit_of-le-full l start (bucket_of key m),
)
