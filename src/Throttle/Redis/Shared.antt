-- ===== src/Throttle/Redis/Shared.antt =====
-- Sequences of script runs that several replicas send to one Redis server.
use loon_site.Prelude.{ℕ, ◌≤◌, List, [], ◌∷◌}
use loon_site.Prelude.Bytes.{Bytes, bytes_eq}
use loon_site.Throttle.{Limit, Answer}
use loon_site.Throttle.Redis.{Hashes, run_throttle, run_refund}
use loon_site.Throttle.Calls.{Call, take_call, give_call}

pub data SharedCall : Type 0 where
  shared_take shared_give : ℕ → Bytes → SharedCall

-- The same call of a table in one process.
pub local_call : SharedCall → Call
local_call (shared_take now key) = take_call now key
local_call (shared_give now key) = give_call key

-- What the throttle script replies, in order, times in the server's milliseconds.
unfoldable pub replies : Limit → List SharedCall → Hashes → List Answer
replies l [] hashes = []
replies l (shared_take now key ∷ calls) hashes =
    let r = run_throttle l now key hashes in
    record { allowed = r.1; retry = r.2 } ∷ replies l calls r.0
replies l (shared_give now key ∷ calls) hashes = replies l calls (run_refund l now key hashes)

-- The server's clock does not go back.
abbrev pub InOrder : ℕ → List SharedCall → Type 0
InOrder start [] = Unit
InOrder start (shared_take now key ∷ calls) = (start ≤ now) × InOrder now calls
InOrder start (shared_give now key ∷ calls) = (start ≤ now) × InOrder now calls
