-- ===== src/Throttle/Calls.antt =====
-- Sequences of calls of one table, in the order in which they hold its lock. A call reads the clock
-- just before it takes the lock.
use loon_site.Prelude.{
  ℕ, ◌+◌, ◌≤◌, Bool, false, List, [], ◌∷◌, length, arith, length-insert-le, length-keep,
  if◌then◌else◌, ◌==◌, leb, Bool-cases, inl, inr, Option-cases, lookup,
}
use loon_site.Prelude.Bytes.{Bytes, bytes_eq}
use loon_site.Throttle.{Limit, Answer, MemStore, take, give, sweep, make_room}

pub data Call : Type 0 where
  take_call : ℕ → Bytes → Call
  give_call : Bytes → Call
  sweep_call : ℕ → Call

unfoldable pub after_call : Limit → Call → MemStore → MemStore
after_call l (take_call now key) m = (take now key l m).0
after_call l (give_call key) m = give key l m
after_call l (sweep_call now) m = sweep now l m

-- What the calls of `take` report, in order.
unfoldable pub answers : Limit → List Call → MemStore → List Answer
unfolding after_call
answers l [] m = []
answers l (take_call now key ∷ calls) m =
    (take now key l m).1 ∷ answers l calls (after_call l (take_call now key) m)
answers l (give_call key ∷ calls) m = answers l calls (after_call l (give_call key) m)
answers l (sweep_call now ∷ calls) m = answers l calls (after_call l (sweep_call now) m)

-- Whether a call is a `take` of the key that is allowed.
unfoldable pub spends : Limit → Bytes → Call → MemStore → Bool
spends l key (take_call now k) m = if k == key then (take now k l m).1.allowed else false
spends l key (give_call k) m = false
spends l key (sweep_call now) m = false

-- How many calls of `take` the key got through.
unfoldable pub spent : Limit → Bytes → List Call → MemStore → ℕ
unfolding spends after_call
spent l key [] m = 0
spent l key (c ∷ calls) m =
    (if spends l key c m then 1 else 0) + spent l key calls (after_call l c m)

-- How many refunds the key got.
unfoldable pub refunds : Bytes → List Call → ℕ
refunds key [] = 0
refunds key (take_call now k ∷ calls) = refunds key calls
refunds key (give_call k ∷ calls) = (if k == key then 1 else 0) + refunds key calls
refunds key (sweep_call now ∷ calls) = refunds key calls

-- The clock does not go back from call to call, and stays between `start` and `finish`.
abbrev pub Timed : ℕ → List Call → ℕ → Type 0
Timed start [] finish = start ≤ finish
Timed start (take_call now key ∷ calls) finish = (start ≤ now) × Timed now calls finish
Timed start (give_call key ∷ calls) finish = Timed start calls finish
Timed start (sweep_call now ∷ calls) finish = (start ≤ now) × Timed now calls finish

-- The calls cannot fill the table, so it is never dropped whole.
abbrev pub HasRoom : List Call → MemStore → Type 0
HasRoom calls m = length m.buckets + length calls ≤ m.max

pub after_call-HasRoom :
    (l : Limit) (c : Call) (calls : List Call) (m : MemStore)
    → HasRoom (c ∷ calls) m
    → HasRoom calls (after_call l c m)
unfolding after_call take give sweep make_room
after_call-HasRoom l (take_call now key) calls m h =
    elim (Bool-cases (leb m.max (length m.buckets))) [
      | inl at_cap ↦ ground arith
      | inr below ↦ rw below (omega (arith, length-insert-le key _ m.buckets))
    ]
after_call-HasRoom l (give_call key) calls m h = elim (Option-cases (lookup key m.buckets)) [
  | inl absent ↦ rw (absent, give) (omega arith)
  | inr (b, found) ↦ rw (found, give) (omega (arith, length-insert-le key _ m.buckets))
]
after_call-HasRoom l (sweep_call now) calls m h = omega (arith, length-keep _ m.buckets)
