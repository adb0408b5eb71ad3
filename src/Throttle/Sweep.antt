-- ===== src/Throttle/Sweep.antt =====
-- Sweeping, and forgetting a bucket that rested, change no decision.
use loon_site.Prelude.{
  ℕ, ◌+◌, ◌-◌, ◌≤◌, ◌<◌, ◌≡◌, ◌⊎◌, refl, sym, ap, ◌∙◌, Option, some, none, List, [], ◌∷◌, arith,
  length-keep, ltb, ◌==◌, Bool-cases, inl, inr, Distinct,
}
use loon_site.Prelude.Bytes.{Bytes, bytes_eq, bytes_beq_iff}
use loon_site.Throttle.{
  Limit, TokenBucket, MemStore, full, found_or_fresh, take_bucket, take, give_bucket, sweep,
  idle_time,
}
use loon_site.Throttle.Bucket.{take_bucket_rested}
use loon_site.Throttle.Table.{
  bucket_of, take-answer, bucket_of-take_self, bucket_of-take_other, bucket_of-give_self,
  bucket_of-give_other, bucket_of-sweep, give_option, sweep_option, take-Distinct, give-Distinct,
  sweep-Distinct,
}
use loon_site.Throttle.Calls.{
  Call, take_call, give_call, sweep_call, after_call, answers, Timed, HasRoom, after_call-HasRoom,
}

-- Two states of one key: the same, or a bucket that is full again by time `t` and none.
abbrev pub Agrees : Limit → ℕ → Option TokenBucket → Option TokenBucket → Type 0
Agrees l t o o' =
    (o ≡ o')
    ⊎ ((b : TokenBucket) × (o ≡ some b) × (o' ≡ none) × (b.last < t) × (b.last + full l ≤ t))

module _ (l : Limit) (t : ℕ) where
  take_bucket-Agrees :
      (now : ℕ) (o o' : Option TokenBucket)
      → t ≤ now
      → Agrees l t o o'
      → take_bucket l now (found_or_fresh l now o) ≡ take_bucket l now (found_or_fresh l now o')
  unfolding found_or_fresh
  take_bucket-Agrees now o o' h (inl same) = rw same
  take_bucket-Agrees now o o' h (inr (b, found, gone, newer, rested)) =
      rw (found, gone) (take_bucket_rested l now b (omega arith) (omega arith))

  give_option-Agrees :
      (o o' : Option TokenBucket)
      → Agrees l t o o'
      → Agrees l t (give_option l o) (give_option l o')
  unfolding give_option give_bucket
  give_option-Agrees o o' (inl same) = inl (rw same)
  give_option-Agrees o o' (inr (b, found, gone, newer, rested)) =
      rw (found, gone) (inr (give_bucket l b, refl, refl, newer, rested))

  sweep_option-Agrees :
      (now : ℕ) (o o' : Option TokenBucket)
      → Agrees l t o o'
      → Agrees l t (sweep_option l now o) (sweep_option l now o')
  unfolding sweep_option
  sweep_option-Agrees now o o' (inl same) = inl (rw same)
  sweep_option-Agrees now o o' (inr (b, found, gone, newer, rested)) =
      rw (found, gone)
        (elim (Bool-cases (ltb (idle_time l) (now - b.last))) [
          | inl idle ↦ rw idle (inl refl)
          | inr stays ↦ rw stays (inr (b, refl, refl, newer, rested))
        ])

  -- Every key agrees.
  abbrev AllAgree : MemStore → MemStore → Type 0
  AllAgree m m' = (j : Bytes) → Agrees l t (bucket_of j m) (bucket_of j m')

  after_call-AllAgree :
      (c : Call) (calls : List Call) (start finish : ℕ) (m m' : MemStore)
      → t ≤ start
      → Timed start (c ∷ calls) finish
      → HasRoom (c ∷ calls) m
      → HasRoom (c ∷ calls) m'
      → Distinct m.buckets
      → Distinct m'.buckets
      → AllAgree m m'
      → AllAgree (after_call l c m) (after_call l c m')
  unfolding after_call
  after_call-AllAgree (take_call now k) calls start finish m m' h timed room room' d d' agree j =
      elim (Bool-cases (k == j)) [
        | inl same ↦
            let here = (bytes_beq_iff k j).0 same in
            let e = bucket_of-take_self l now j k m (omega arith) here in
            let e' = bucket_of-take_self l now j k m' (omega arith) here in
            inl
              (e ∙ ap (λ r. some r.0) (take_bucket-Agrees now _ _ (omega arith) (agree j)) ∙ sym e')
        | inr other ↦
            rw
              (
                bucket_of-take_other l now j k m (omega arith) other,
                bucket_of-take_other l now j k m' (omega arith) other,
              )
              (agree j)
      ]
  after_call-AllAgree (give_call k) calls start finish m m' h timed room room' d d' agree j =
      elim (Bool-cases (k == j)) [
        | inl same ↦
            rw (bucket_of-give_self l j k m same, bucket_of-give_self l j k m' same)
              (give_option-Agrees _ _ (agree j))
        | inr other ↦
            rw (bucket_of-give_other l j k m other, bucket_of-give_other l j k m' other) (agree j)
      ]
  after_call-AllAgree (sweep_call now) calls start finish m m' h timed room room' d d' agree j =
      rw (bucket_of-sweep l now j m d, bucket_of-sweep l now j m' d')
        (sweep_option-Agrees now _ _ (agree j))

  answers-AllAgree :
      (calls : List Call) (start finish : ℕ) (m m' : MemStore)
      → t ≤ start
      → Timed start calls finish
      → HasRoom calls m
      → HasRoom calls m'
      → Distinct m.buckets
      → Distinct m'.buckets
      → AllAgree m m'
      → answers l calls m ≡ answers l calls m'
  unfolding answers
  answers-AllAgree [] start finish m m' h timed room room' d d' agree = refl
  answers-AllAgree (take_call now k ∷ calls) start finish m m' h timed room room' d d' agree =
      let c = take_call now k in
      let here : (take now k l m).1 ≡ (take now k l m').1 =
        take-answer l now k m (omega arith)
        ∙ ap (λ r. r.1) (take_bucket-Agrees now _ _ (omega arith) (agree k))
        ∙ sym (take-answer l now k m' (omega arith)) in
      let rest =
        answers-AllAgree calls now finish _ _ (omega arith) timed.1
          (after_call-HasRoom l c calls m room) (after_call-HasRoom l c calls m' room')
          (take-Distinct l now k m d) (take-Distinct l now k m' d')
          (after_call-AllAgree c calls start finish m m' h timed room room' d d' agree) in
      cc
  answers-AllAgree (give_call k ∷ calls) start finish m m' h timed room room' d d' agree =
      let c = give_call k in
      answers-AllAgree calls start finish _ _ h timed (after_call-HasRoom l c calls m room)
        (after_call-HasRoom l c calls m' room') (give-Distinct l k m d) (give-Distinct l k m' d')
        (after_call-AllAgree c calls start finish m m' h timed room room' d d' agree)
  answers-AllAgree (sweep_call now ∷ calls) start finish m m' h timed room room' d d' agree =
      let c = sweep_call now in
      answers-AllAgree calls now finish _ _ (omega arith) timed.1
        (after_call-HasRoom l c calls m room) (after_call-HasRoom l c calls m' room')
        (sweep-Distinct l now m d) (sweep-Distinct l now m' d')
        (after_call-AllAgree c calls start finish m m' h timed room room' d d' agree)

sweep_option-Agrees' :
    (l : Limit) (now : ℕ) (o : Option TokenBucket) → Agrees l now o (sweep_option l now o)
unfolding sweep_option idle_time
sweep_option-Agrees' l now none = inl refl
sweep_option-Agrees' l now (some b) = elim (Bool-cases (ltb (idle_time l) (now - b.last))) [
  | inl idle ↦ rw idle (inr (b, refl, refl, ground arith, ground arith))
  | inr stays ↦ rw stays (inl refl)
]

-- A sweep is not noticed: whatever is called after it, every `take` reports what it would have
-- reported without the sweep, as long as the clock does not go back and the table cannot fill up.
-- (No key is in the table twice, as in no Go map.)
pub answers-sweep :
    (l : Limit) (calls : List Call) (m : MemStore) (now finish : ℕ)
    → Timed now calls finish
    → HasRoom calls m
    → Distinct m.buckets
    → answers l calls (sweep now l m) ≡ answers l calls m
unfolding sweep
answers-sweep l calls m now finish timed room d = sym (
    answers-AllAgree l now calls now finish m (sweep now l m) (omega arith) timed room
      (omega (arith, length-keep _ m.buckets)) d (sweep-Distinct l now m d)
      (λ j. rw (bucket_of-sweep l now j m d) (sweep_option-Agrees' l now (bucket_of j m))))
