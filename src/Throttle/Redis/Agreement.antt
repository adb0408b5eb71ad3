-- ===== src/Throttle/Redis/Agreement.antt =====
-- The table in Redis decides as the table in one process does, expiry included.
use Prim.Native.Nat.{min}
use loon_site.Prelude.{
  ℕ, ◌+◌, ◌≤◌, ◌<◌, ◌≡◌, ◌⊎◌, refl, Bool, Option, true, false, some, none, length, arith,
  if◌then◌else◌, leb, ◌==◌, Bool-cases, inl, inr, lookup, lookup-insert,
}
use loon_site.Prelude.Bytes.{Bytes, bytes_eq, bytes_beq_iff}
use loon_site.Throttle.{
  Limit, TokenBucket, Answer, MemStore, full, fresh, found_or_fresh, take_bucket, take, give_bucket,
  give,
}
use loon_site.Throttle.Bucket.{take_bucket_rested, take_bucket-last}
use loon_site.Throttle.Redis.{
  Entry, live, throttle_script, refund_script, Hashes, run_throttle, run_refund, write,
}
use loon_site.Throttle.Table.{
  bucket_of, bucket_of-take_self, bucket_of-take_other, bucket_of-give_self, bucket_of-give_other,
  give_option,
}

-- A key in the local table and the key's hash, at time `t`: the same bucket, or a bucket that is
-- full again and an expired hash.
abbrev pub Sim : Limit → ℕ → Option TokenBucket → Option Entry → Type 0
Sim l t none e = e ≡ none
Sim l t (some b) e =
    ((en : Entry) × (e ≡ some en)
      × (en.tokens ≡ b.credit)
      × (en.seen ≡ b.last)
      × (b.last ≤ t)
      × (en.expires ≡ b.last + (full l + 1000)))
    ⊎ ((live t e ≡ none) × (b.last < t) × (b.last + full l ≤ t))

abbrev refunded : Option Entry → Option Entry → Option Entry
refunded e none = e
refunded e (some e') = some e'

module _ (l : Limit) where
  -- The script on a live hash is a refill and a spend of the bucket.
  script_live :
      (now : ℕ) (b : TokenBucket) (e : Option Entry) (en : Entry)
      → live now e ≡ some en
      → en.tokens ≡ b.credit
      → en.seen ≡ b.last
      → b.last ≤ now
      → ((throttle_script l now e).1 ≡ (take_bucket l now b).1.allowed)
        × ((throttle_script l now e).2 ≡ (take_bucket l now b).1.retry)
        × ((throttle_script l now e).0.tokens ≡ (take_bucket l now b).0.credit)
        × ((throttle_script l now e).0.seen ≡ (take_bucket l now b).0.last)
        × ((throttle_script l now e).0.expires ≡ now + (full l + 1000))
  unfolding throttle_script take_bucket
  script_live now b e en alive t s order = rw alive (ground arith)

  script_dead :
      (now : ℕ) (e : Option Entry)
      → live now e ≡ none
      → ((throttle_script l now e).1 ≡ (take_bucket l now (fresh l now)).1.allowed)
        × ((throttle_script l now e).2 ≡ (take_bucket l now (fresh l now)).1.retry)
        × ((throttle_script l now e).0.tokens ≡ (take_bucket l now (fresh l now)).0.credit)
        × ((throttle_script l now e).0.seen ≡ (take_bucket l now (fresh l now)).0.last)
        × ((throttle_script l now e).0.expires ≡ now + (full l + 1000))
  unfolding throttle_script take_bucket fresh
  script_dead now e dead = rw dead (ground arith)

  abbrev pub Replies : Bool × ℕ → Answer → Type 0
  Replies reply answer = (reply.0 ≡ answer.allowed) × (reply.1 ≡ answer.retry)

  abbrev pub own_take : ℕ → Option TokenBucket → TokenBucket × Answer
  own_take now o = take_bucket l now (found_or_fresh l now o)

  -- What a take on both sides must give.
  abbrev pub Agreed : ℕ → TokenBucket × Answer → Entry × Bool × ℕ → Type 0
  Agreed now mine theirs =
      Replies (theirs.1, theirs.2) mine.1 × Sim l now (some mine.0) (some theirs.0)

  take_fresh :
      (now : ℕ) (e : Option Entry)
      → live now e ≡ none
      → Agreed now (take_bucket l now (fresh l now)) (throttle_script l now e)
  take_fresh now e dead =
      let (a, r, n, s, x) = script_dead now e dead in
      let last = take_bucket-last l now (fresh l now) (unfold fresh in omega arith) in
      ((a, r), inl (_, refl, n, s, omega arith, omega arith))

  take_live :
      (now : ℕ) (b : TokenBucket) (e : Option Entry) (en : Entry)
      → live now e ≡ some en
      → en.tokens ≡ b.credit
      → en.seen ≡ b.last
      → b.last ≤ now
      → Agreed now (take_bucket l now b) (throttle_script l now e)
  take_live now b e en alive same_tokens same_seen order =
      let (a, r, n, s, x) = script_live now b e en alive same_tokens same_seen order in
      let last = take_bucket-last l now b order in
      ((a, r), inl (_, refl, n, s, omega arith, omega arith))

  live_later : (t now : ℕ) (e : Option Entry) → t ≤ now → live t e ≡ none → live now e ≡ none
  unfolding live
  live_later t now none h dead = refl
  live_later t now (some e) h dead = ground arith

  pub take-Sim :
      (t now : ℕ) (o : Option TokenBucket) (e : Option Entry)
      → t ≤ now
      → Sim l t o e
      → Agreed now (own_take now o) (throttle_script l now e)
  unfolding found_or_fresh
  take-Sim t now none e h sim = take_fresh now e (rw sim (unfold live in refl))
  take-Sim t now (some b) e h (inr (dead, newer, rested)) =
      rw (take_bucket_rested l now b (omega arith) (omega arith))
        (take_fresh now e (live_later t now e h dead))
  take-Sim t now (some b) e h (inl (en, found, n, s, order, x)) =
      elim (Bool-cases (leb en.expires now)) [
        | inl over ↦
            rw (take_bucket_rested l now b (ground arith) (ground arith))
              (take_fresh now e (rw found (unfold live in rw over)))
        | inr alive ↦ take_live now b e en (rw found (unfold live in rw alive)) n s (omega arith)
      ]

  later-Sim :
      (t now : ℕ) (o : Option TokenBucket) (e : Option Entry)
      → t ≤ now
      → Sim l t o e
      → Sim l now o e
  later-Sim t now none e h sim = sim
  later-Sim t now (some b) e h (inl (en, found, n, s, order, x)) =
      inl (en, found, n, s, omega arith, x)
  later-Sim t now (some b) e h (inr (dead, newer, rested)) =
      inr (live_later t now e h dead, omega arith, omega arith)

  -- The hash of the key after a refund.
  abbrev after_refund : ℕ → Option Entry → Option Entry
  after_refund now e = refunded e (refund_script l now e)

  refund_over :
      (now : ℕ) (e : Entry) → leb e.expires now ≡ true → refund_script l now (some e) ≡ none
  unfolding refund_script live
  refund_over now e over = ground arith

  refund_alive :
      (now : ℕ) (e : Entry)
      → leb e.expires now ≡ false
      → refund_script l now (some e)
        ≡ some (record e { tokens = min (full l) (e.tokens + l.every) })
  unfolding refund_script live
  refund_alive now e alive = ground arith

  give-Sim :
      (t now : ℕ) (o : Option TokenBucket) (e : Option Entry)
      → t ≤ now
      → Sim l t o e
      → Sim l now (give_option l o) (after_refund now e)
  unfolding give_option give_bucket
  give-Sim t now none e h sim = rw sim (unfold refund_script live in refl)
  give-Sim t now (some b) none h (inl (en, found, n, s, order, x)) = absurd (cc)
  give-Sim t now (some b) none h (inr (dead, newer, rested)) =
      unfold refund_script live in inr (refl, omega arith, omega arith)
  give-Sim t now (some b) (some e) h (inl (en, found, n, s, order, x)) =
      elim (Bool-cases (leb e.expires now)) [
        | inl over ↦
            rw (refund_over now e over) (inr (unfold live in rw over, ground arith, ground arith))
        | inr alive ↦
            rw (refund_alive now e alive)
              (inl (_, refl, ground arith, ground arith, omega arith, ground arith))
      ]
  give-Sim t now (some b) (some e) h (inr (dead, newer, rested)) =
      let dead' = live_later t now (some e) h dead in
      let over : leb e.expires now ≡ true = unfold live in ground arith in
      rw (refund_over now e over) (inr (dead', omega arith, omega arith))

lookup-write :
    (k j : Bytes) (e : Option Entry) (hashes : Hashes)
    → lookup j (write k e hashes)
      ≡ (if k == j then refunded (lookup j hashes) e else lookup j hashes)
unfolding write
lookup-write k j none hashes = ground arith
lookup-write k j (some e) hashes = lookup-insert k j e hashes

module _ (l : Limit) where
  -- The two tables, key by key.
  abbrev pub Mirrors : ℕ → MemStore → Hashes → Type 0
  Mirrors t m hashes = (j : Bytes) → Sim l t (bucket_of j m) (lookup j hashes)

  pub take-Mirrors :
      (t now : ℕ) (k : Bytes) (m : MemStore) (hashes : Hashes)
      → t ≤ now
      → length m.buckets < m.max
      → Mirrors t m hashes
      → Mirrors now (take now k l m).0 (run_throttle l now k hashes).0
  unfolding run_throttle
  take-Mirrors t now k m hashes h room mirrors j = elim (Bool-cases (k == j)) [
    | inl same ↦
        let here = (bytes_beq_iff k j).0 same in
        rw (bucket_of-take_self l now j k m room here, lookup-insert k j _ hashes, same, here)
          (take-Sim l t now _ _ h (mirrors j)).1
    | inr other ↦
        rw (bucket_of-take_other l now j k m room other, lookup-insert k j _ hashes, other)
          (later-Sim l t now _ _ h (mirrors j))
  ]

  pub give-Mirrors :
      (t now : ℕ) (k : Bytes) (m : MemStore) (hashes : Hashes)
      → t ≤ now
      → Mirrors t m hashes
      → Mirrors now (give k l m) (run_refund l now k hashes)
  unfolding run_refund
  give-Mirrors t now k m hashes h mirrors j = elim (Bool-cases (k == j)) [
    | inl same ↦
        let here = (bytes_beq_iff k j).0 same in
        rw (bucket_of-give_self l j k m same, lookup-write k j _ hashes, same, here)
          (give-Sim l t now _ _ h (mirrors j))
    | inr other ↦
        rw (bucket_of-give_other l j k m other, lookup-write k j _ hashes, other)
          (later-Sim l t now _ _ h (mirrors j))
  ]
