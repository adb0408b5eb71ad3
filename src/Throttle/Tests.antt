-- ===== src/Throttle/Tests.antt =====
-- Tests of the throttle's model, and its theorems at concrete inputs.
use loon_site.Prelude.{
  ℕ, if◌then◌else◌, ◌&&◌, ◌+◌, ◌*◌, ◌/◌, ◌%◌, ◌≤◌, ◌<◌, ◌≡◌, ◌⊎◌, ◌↔◌, refl, Bool, true, false,
  Option, none, some, List, [], ◌∷◌, ◌++◌, map, length, arith,
}
use loon_site.Prelude.Int.{pos}
use loon_site.Prelude.Bytes.{Bytes, bytes_eq}
use loon_site.Throttle.{
  Limit, Answer, MemStore, take, give, sweep, mem_store, minute, new_mem_store,
}
use loon_site.Throttle.Key.{
  SessionUser, int64, int, no_session, throttle_key, throttle_key_iff, caller,
}
use loon_site.Throttle.Table.{bucket_of}
use loon_site.Throttle.Calls.{Call, take_call, give_call, sweep_call, answers, spent, refunds}
use loon_site.Throttle.Rate.{spent_bound}
use loon_site.Throttle.Sweep.{answers-sweep}
use loon_site.Throttle.Guard.{
  Hooks, Refusal, next, refused, hook, second, next_outcome, caller_key, burst_admitted,
}
use loon_site.Throttle.Redis.{
  Surroundings, failed, answered, new_redis_store, note_differs, note_change,
}
use loon_site.Throttle.Redis.Shared.{SharedCall, shared_take, shared_give}
use loon_site.Throttle.Redis.Fallback.{
  StoreCall, take_with, give_with, store_answers, after_store_calls, fallback_call,
  store_answers_cut_off,
}

-- Two at once, one back every ten.
abbrev pair : Limit
pair = record { burst = 2; every = 10 }

abbrev alice : Bytes
alice = b'u' ∷ b':' ∷ b'7' ∷ []

abbrev bob : Bytes
bob = b'u' ∷ b':' ∷ b'8' ∷ []

abbrev visit : List Call
visit =
    take_call 0 alice
    ∷ take_call 1 alice
    ∷ take_call 2 alice
    ∷ give_call alice
    ∷ take_call 3 alice
    ∷ take_call 4 bob
    ∷ sweep_call 12
    ∷ take_call 14 alice
    ∷ []

spent-visit : spent pair alice visit new_mem_store ≡ 4
unfolding spent take loon_site.Throttle.take_bucket loon_site.Throttle.found_or_fresh
    loon_site.Prelude.lookup loon_site.Throttle.make_room loon_site.Prelude.insert give sweep
spent-visit = refl

-- Alice spent her burst at the start; a sweep finds her bucket idle after two minutes.
abbrev spent_out : MemStore
spent_out = record { buckets = (alice, record { credit = 0; last = 0 }) ∷ []; max = 50000 }

swept : (sweep (3 * minute) pair spent_out).buckets ≡ []
unfolding sweep
swept = refl

spent_bound_example :
    spent pair alice visit spent_out * 10 + 0 ≤ (2 + refunds alice visit) * 10 + 14
unfolding loon_site.Prelude.lookup
spent_bound_example =
    spent_bound pair alice visit spent_out 0 14
      (
        omega arith,
        (
          omega arith,
          (omega arith, (omega arith, (omega arith, (omega arith, (omega arith, omega arith))))),
        ),
      )
      (omega arith) (refl, tt) (omega arith, omega arith)

answers-sweep_example :
    answers pair (take_call (3 * minute) alice ∷ []) (sweep (3 * minute) pair spent_out)
    ≡ answers pair (take_call (3 * minute) alice ∷ []) spent_out
unfolding loon_site.Prelude.lookup
answers-sweep_example =
    answers-sweep pair (take_call (3 * minute) alice ∷ []) spent_out (3 * minute) (3 * minute)
      (omega arith, omega arith) (omega arith) (refl, tt)

-- Requests are their member's id.
abbrev member_of : ℕ → SessionUser
member_of n = int64 (pos n)

abbrev one_address : ℕ → Bytes
one_address n = b'1' ∷ []

abbrev no_hooks : Hooks ℕ
no_hooks = record { skip = none; exempt = none; has_refuse = false }

nine_is_new : bucket_of (caller_key member_of one_address no_hooks pair 5 9) spent_out ≡ none
unfolding loon_site.Prelude.lookup throttle_key loon_site.Throttle.Key.member_id
    loon_site.Prelude.Decimal.format
nine_is_new = refl

burst_admitted_example :
    (1 < 2 → next_outcome member_of one_address no_hooks pair 5 9 1 spent_out ≡ next)
    × (2 ≤ 1
        → (secs : ℕ) × (next_outcome member_of one_address no_hooks pair 5 9 1 spent_out
            ≡ refused
                (record { retry_after = secs; rate_limit = 2; remaining = 0; by_host = false }))
          × (1 ≤ secs)
          × (10 < (secs + 1) * second)
          × ((secs ≡ 1) ⊎ (secs * second ≤ 10)))
unfolding hook
burst_admitted_example =
    burst_admitted member_of one_address no_hooks pair 5 9 refl refl (omega arith) (omega arith) 1
      spent_out nine_is_new (omega arith)

third_is_refused :
    next_outcome member_of one_address no_hooks pair 5 9 2 spent_out
    ≡ refused (record { retry_after = 1; rate_limit = 2; remaining = 0; by_host = false })
unfolding loon_site.Throttle.Guard.guard loon_site.Throttle.allow take
    loon_site.Throttle.take_bucket loon_site.Throttle.found_or_fresh loon_site.Prelude.lookup
    loon_site.Throttle.make_room loon_site.Prelude.insert throttle_key
    loon_site.Throttle.Key.member_id loon_site.Prelude.Decimal.format
third_is_refused = refl

throttle_key_iff_example :
    (throttle_key (int64 (pos 7)) [] ≡ throttle_key (int (pos 7)) alice)
    ↔ (caller (int64 (pos 7)) [] ≡ caller (int (pos 7)) alice)
throttle_key_iff_example = throttle_key_iff (int64 (pos 7)) (int (pos 7)) [] alice

key_of_member : throttle_key (int (pos 7)) [] ≡ alice
unfolding throttle_key loon_site.Throttle.Key.member_id loon_site.Prelude.Decimal.format
key_of_member = refl

abbrev from_replicas : List SharedCall
from_replicas =
    shared_take 0 alice
    ∷ shared_take 0 alice
    ∷ shared_take 1 bob
    ∷ shared_take 2 alice
    ∷ shared_give 3 alice
    ∷ shared_take 5000 alice
    ∷ []

abbrev offline : Surroundings
offline = record { now = 5; redis_now = 5; net = failed false }

abbrev online : Surroundings
online = record { now = 6; redis_now = 6; net = answered }

abbrev outage : List StoreCall
outage = take_with offline alice ∷ give_with offline alice ∷ take_with offline alice ∷ []

store_answers_cut_off_example :
    (store_answers pair outage (new_redis_store [])
      ≡ answers pair (map fallback_call outage) new_mem_store)
    × ((after_store_calls pair outage (new_redis_store [])).hashes ≡ [])
store_answers_cut_off_example =
    store_answers_cut_off pair outage (new_redis_store []) (refl, (refl, (refl, tt)))

-- Two calls that fail at once, each past its load before the other's store, both report.
both_report :
    (let s = new_redis_store [] in
      if note_differs false s && note_differs false s
      then (note_change false (note_change false s)).reported
      else [])
    ≡ false ∷ false ∷ []
unfolding note_differs
both_report = refl
