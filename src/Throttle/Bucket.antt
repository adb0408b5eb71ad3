-- ===== src/Throttle/Bucket.antt =====
-- One bucket: its bounds, what a wait buys, and how one key's calls leave the others alone.
use loon_site.Prelude.{ℕ, ◌+◌, ◌-◌, ◌≤◌, ◌<◌, ◌≡◌, arith, if◌then◌else◌}
use loon_site.Prelude.Bytes.{bytes_eq}
use loon_site.Throttle.{Limit, TokenBucket, clip, full, fresh, take_bucket, give_bucket}

-- No call leaves more than a full burst.
pub take_bucket-le-full :
    (l : Limit) (now : ℕ) (b : TokenBucket)
    → b.credit ≤ full l
    → (take_bucket l now b).0.credit ≤ full l
unfolding take_bucket
take_bucket-le-full l now b h = ground arith

pub give_bucket-le-full : (l : Limit) (b : TokenBucket) → (give_bucket l b).credit ≤ full l
unfolding give_bucket
give_bucket-le-full l b = ground arith

-- The credit that a bucket has at a time no earlier than its last look, refilled or not.
abbrev pub credit_at : Limit → ℕ → TokenBucket → ℕ
credit_at l t b = clip l (b.credit + (t - b.last))

-- A token spent and the credit left are paid by the credit before and the time that passed.
pub take_bucket_budget :
    (l : Limit) (t now : ℕ) (b : TokenBucket)
    → b.last ≤ t
    → t ≤ now
    → b.credit ≤ full l
    → (if (take_bucket l now b).1.allowed then l.every else 0)
        + credit_at l now (take_bucket l now b).0
        + t
      ≤ credit_at l t b + now
unfolding take_bucket
take_bucket_budget l t now b before h le = ground arith

pub credit_at-later :
    (l : Limit) (t now : ℕ) (b : TokenBucket)
    → b.last ≤ t
    → t ≤ now
    → credit_at l now b + t ≤ credit_at l t b + now
credit_at-later l t now b before h = ground arith

pub credit_at-give :
    (l : Limit) (t : ℕ) (b : TokenBucket)
    → credit_at l t (give_bucket l b) ≤ credit_at l t b + l.every
unfolding give_bucket
credit_at-give l t b = ground arith

pub take_bucket-last :
    (l : Limit) (now : ℕ) (b : TokenBucket) → b.last ≤ now → (take_bucket l now b).0.last ≡ now
unfolding take_bucket
take_bucket-last l now b h = ground arith

-- A bucket that rested for as long as a full refill takes is as good as a fresh one.
pub take_bucket_rested :
    (l : Limit) (now : ℕ) (b : TokenBucket)
    → b.last < now
    → b.last + full l ≤ now
    → take_bucket l now b ≡ take_bucket l now (fresh l now)
unfolding take_bucket fresh
take_bucket_rested l now b newer rested = ground arith
