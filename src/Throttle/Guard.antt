-- ===== src/Throttle/Guard.antt =====
-- `(*Throttle).Guard`: what becomes of a request, and what a refusal tells the client.
use loon_site.Prelude.{
  ℕ, length, length-insert-le, zero, suc, ◌-◌, ◌+◌, ◌*◌, ◌/◌, ◌≤◌, ◌<◌, ◌≡◌, ◌⊎◌, ◌∙◌, ap, sym,
  subst, refl, Bool, ◌||◌, Option, true, false, some, none, arith, if◌then◌else◌, ltb, Bool-cases,
  inl, inr,
}
use native.Mathlib.Nat.{suc-mul}
use loon_site.Prelude.Bytes.{Bytes, bytes_eq}
use loon_site.Throttle.{
  Limit, TokenBucket, Answer, MemStore, Store, mem_store, allow, found_or_fresh, take_bucket, take,
}
use loon_site.Throttle.Key.{SessionUser, throttle_key}
use loon_site.Throttle.Table.{current, make_room_below, bucket_of, take-answer, bucket_of-take_self}

abbrev pub second : ℕ
second = 1_000_000_000

-- The hooks of a limiter; `none` is a nil function. The requests that they look at are the host's.
pub record Hooks (R : Type 0) : Type 0 where
  pub skip : Option (R → Bool)
  pub exempt : Option (R → Bool)
  pub has_refuse : Bool

-- What a refusal writes: the headers `Retry-After`, `X-RateLimit-Limit` and
-- `X-RateLimit-Remaining`, and whether the host's `Refuse` renders it or the plain text.
pub record Refusal : Type 0 where
  pub retry_after : ℕ
  pub rate_limit : ℕ
  pub remaining : ℕ
  pub by_host : Bool

pub data Outcome : Type 0 where
  next : Outcome
  refused : Refusal → Outcome

-- A hook that is nil says no.
unfoldable pub hook {ℓ} : {R : Type ℓ} → Option (R → Bool) → R → Bool
hook none r = false
hook (some f) r = f r

-- `secs := int(retry.Seconds())`, at least 1.
unfoldable pub retry_secs : ℕ → ℕ
retry_secs retry = let secs = retry / second in if ltb secs 1 then 1 else secs

-- `R` is the request's context, from which the session's user and the client's address are read.
module _ {R : Type 0} where
  decide : Hooks R → Limit → R → Answer → Outcome
  unfolding hook retry_secs
  decide hooks l r answer =
      if answer.allowed || hook hooks.exempt r
      then next
      else refused (record {
        retry_after = retry_secs answer.retry;
        rate_limit = l.burst;
        remaining = 0;
        by_host = hooks.has_refuse;
      })

module _ {S E R : Type 0} (user_of : R → SessionUser) (client_ip : R → Bytes) where
  unfoldable pub guard : Store S E → Hooks R → Limit → E → R → S → S × Outcome
  unfolding decide
  guard store hooks l env r s =
      if hook hooks.skip r
      then (s, next)
      else let spent = allow store l env (throttle_key (user_of r) (client_ip r)) s in
        (spent.0, decide hooks l r spent.1)

-- A bucket with `tokens` whole ones, last looked at just now.
abbrev pub holding : Limit → ℕ → ℕ → TokenBucket
holding l now tokens = record { credit = tokens * l.every; last = now }

retry_secs-wait :
    (retry : ℕ)
    → (1 ≤ retry_secs retry)
      × (retry < (retry_secs retry + 1) * second)
      × ((retry_secs retry ≡ 1) ⊎ (retry_secs retry * second ≤ retry))
unfolding retry_secs
retry_secs-wait retry = elim (Bool-cases (ltb (retry / second) 1)) [
  | inl short ↦ rw short (omega arith, ground arith, inl refl)
  | inr long ↦ rw long (ground arith, omega arith, inr (omega arith))
]

module _ (l : Limit) (now : ℕ) (real : 0 < l.every) where
  take_bucket-some :
      (n : ℕ)
      → take_bucket l now (holding l now (suc n))
        ≡ (holding l now n, record { allowed = true; retry = 0 })
  unfolding take_bucket
  take_bucket-some n =
      let one_more : suc n * l.every ≡ l.every + n * l.every = suc-mul n l.every ∙ omega arith in
      rw one_more (ground arith)

  take_bucket-none :
      take_bucket l now (holding l now 0)
      ≡ (holding l now 0, record { allowed = false; retry = l.every })
  unfolding take_bucket
  take_bucket-none = ground arith

  take_bucket-left :
      (left : ℕ) → (take_bucket l now (holding l now left)).0 ≡ holding l now (left - 1)
  take_bucket-left zero = ap (λ t. t.0) take_bucket-none ∙ ap (holding l now) (omega arith)
  take_bucket-left (suc n) = ap (λ t. t.0) (take_bucket-some n) ∙ ap (holding l now) (omega arith)

take-room :
    (l : Limit) (now : ℕ) (key : Bytes) (m : MemStore) (k : ℕ)
    → length m.buckets + suc (suc k) ≤ m.max
    → length (take now key l m).0.buckets + suc k ≤ (take now key l m).0.max
unfolding take
take-room l now key m k h =
    rw (make_room_below m (omega arith)) (omega (arith, length-insert-le key _ m.buckets))

-- The requests of one caller that no hook lets through, at one moment on the local table.
module _ {R : Type 0} (user_of : R → SessionUser) (client_ip : R → Bytes) (hooks : Hooks R)
    (l : Limit) (now : ℕ) (r : R) where
  abbrev pub after_requests : ℕ → MemStore → MemStore
  after_requests zero m = m
  after_requests (suc n) m =
      (guard user_of client_ip mem_store hooks l now r (after_requests n m)).0

  abbrev pub next_outcome : ℕ → MemStore → Outcome
  next_outcome n m = (guard user_of client_ip mem_store hooks l now r (after_requests n m)).1

  abbrev pub caller_key : Bytes
  caller_key = throttle_key (user_of r) (client_ip r)

  module _ (skip : hook hooks.skip r ≡ false) (exempt : hook hooks.exempt r ≡ false)
      (some_burst : 0 < l.burst) (real : 0 < l.every) where
    guard_takes :
        (m : MemStore)
        → guard user_of client_ip mem_store hooks l now r m
          ≡ ((take now caller_key l m).0, decide hooks l r (take now caller_key l m).1)
    unfolding guard allow
    guard_takes m = ground arith

    request-step :
        (n left : ℕ) (m : MemStore)
        → length m.buckets < m.max
        → current l now caller_key m ≡ holding l now left
        → (bucket_of caller_key (take now caller_key l m).0
            ≡ some (take_bucket l now (holding l now left)).0)
          × ((take now caller_key l m).1 ≡ (take_bucket l now (holding l now left)).1)
    request-step n left m room has = (
      bucket_of-take_self l now caller_key caller_key m room refl ∙ rw has refl,
      take-answer l now caller_key m room ∙ rw has refl,
    )

    after_requests-holding :
        (n k : ℕ) (m : MemStore)
        → bucket_of caller_key m ≡ none
        → length m.buckets + n + suc k ≤ m.max
        → (current l now caller_key (after_requests n m) ≡ holding l now (l.burst - n))
          × (length (after_requests n m).buckets + suc k ≤ (after_requests n m).max)
    unfolding found_or_fresh
    after_requests-holding zero k m absent room =
        (rw absent (ap (holding l now) (omega arith)), omega arith)
    after_requests-holding (suc n) k m absent room =
        let (has, small) = after_requests-holding n (suc k) m absent (omega arith) in
        let before = after_requests n m in
        let (kept, _) = request-step n (l.burst - n) before (omega (arith, small)) has in
        let state : after_requests (suc n) m ≡ (take now caller_key l before).0 =
          ap (λ t. t.0) (guard_takes before) in
        let grown = take-room l now caller_key before k small in
        let counted : l.burst - n - 1 ≡ l.burst - suc n = omega arith in
        (
          ap (current l now caller_key) state
              ∙ ap (found_or_fresh l now) kept
              ∙ take_bucket-left l now real (l.burst - n)
              ∙ ap (holding l now) counted,
          subst (λ (m' : MemStore). length m'.buckets + suc k ≤ m'.max) (sym state) grown,
        )

    -- A caller that the local table does not know yet has at one moment exactly Burst requests let
    -- through, whoever else is in the table: the first Burst of any number pass, and every later one
    -- is refused with a message that names Burst, none remaining, and a wait of whole seconds: the
    -- seconds of Every rounded down, but at least one. (No hook lets the requests through, the tier
    -- is configured, and the table has room for a call each.)
    pub burst_admitted :
        (n : ℕ) (m : MemStore)
        → bucket_of caller_key m ≡ none
        → length m.buckets + suc n ≤ m.max
        → (n < l.burst → next_outcome n m ≡ next)
          × (l.burst ≤ n
              → (secs : ℕ) × (next_outcome n m
                  ≡ refused (record {
                    retry_after = secs;
                    rate_limit = l.burst;
                    remaining = 0;
                    by_host = hooks.has_refuse;
                  }))
                × (1 ≤ secs)
                × (l.every < (secs + 1) * second)
                × ((secs ≡ 1) ⊎ (secs * second ≤ l.every)))
    unfolding decide
    burst_admitted n m absent room =
        let (has, small) = after_requests-holding n 0 m absent (omega arith) in
        let before = after_requests n m in
        let (_, answer) = request-step n (l.burst - n) before (omega (arith, small)) has in
        let outcome : next_outcome n m ≡ decide hooks l r (take now caller_key l before).1 =
          ap (λ t. t.1) (guard_takes before) in
        (
          λ early.
              let left : l.burst - n ≡ suc (l.burst - n - 1) = omega arith in
              let said =
                answer
                ∙ ap (λ t. (take_bucket l now (holding l now t)).1) left
                ∙ ap (λ t. t.1) (take_bucket-some l now real (l.burst - n - 1)) in
              outcome ∙ ap (decide hooks l r) said,
          λ late.
              let left : l.burst - n ≡ 0 = omega arith in
              let said =
                answer
                ∙ ap (λ t. (take_bucket l now (holding l now t)).1) left
                ∙ ap (λ t. t.1) (take_bucket-none l now real) in
              let (least, below, above) = retry_secs-wait l.every in
              (
                retry_secs l.every,
                outcome ∙ ap (decide hooks l r) said ∙ rw exempt refl,
                least,
                below,
                above,
              ),
        )
