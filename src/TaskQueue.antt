-- ===== src/TaskQueue.antt =====
-- internal/storage/agenttasks.go: the fleet's work queue. The table agent_task is the list of its
-- rows in the order of insertion, with the sequence behind its ids; each SQL statement is a
-- function of the table, run in one piece. `now` is the statement's now(), in seconds.
pub mod Rows
pub mod Invariant
pub mod Lease
pub mod Close
pub mod Dedup
mod Tests
use loon_site.Prelude.{
  ℕ, ◌+◌, ◌-◌, Bool, true, false, ◌&&◌, not, Option, none, some, List, [], ◌∷◌, ◌++◌, String, map,
  ltb, leb, ◌==◌, nat_eq, string_eq, if◌then◌else◌, count_if, any, keep,
}
use loon_site.Prelude.Int.{ℤ, pos, positive?}

pub data TaskState : Type 0 where
  queued leased completed failed : TaskState

-- The columns that `EnqueueTask` writes.
pub record Grab : Type 0 where
  pub info_hash : String
  pub magnet : Option String
  pub download_url : Option String
  pub tracker_slug : Option String
  pub title : String
  pub category : Option String
  pub season : Option ℤ
  pub episode : Option ℤ
  pub imdb_id : Option String
  pub tvdb_id : Option String
  pub tmdb_id : Option String
  pub request_id : ℤ

pub record AgentTask : Type 0 where
  pub id : ℕ
  pub grab : Grab
  pub state : TaskState
  pub leased_agent_id : Option ℕ
  pub leased_at : Option ℕ
  pub progress : Option String
  pub fail_reason : Option String
  pub created_at : ℕ
  pub completed_at : Option ℕ

pub record Queue : Type 0 where
  pub rows : List AgentTask
  pub next_id : ℕ

abbrev pub is_queued : TaskState → Bool
is_queued queued = true
is_queued leased = false
is_queued completed = false
is_queued failed = false

abbrev pub is_leased : TaskState → Bool
is_leased queued = false
is_leased leased = true
is_leased completed = false
is_leased failed = false

-- `WireRequestID`
unfoldable pub wire_request_id : AgentTask → ℤ
wire_request_id t = elim (positive? t.grab.request_id) [ none ↦ pos t.id | some n ↦ pos n ]

abbrev pub has_hash : String → AgentTask → Bool
has_hash hash r = r.grab.info_hash == hash

abbrev pub new_task : ℕ → ℕ → Grab → AgentTask
new_task id now g = record {
  id = id;
  grab = g;
  state = queued;
  leased_agent_id = none;
  leased_at = none;
  progress = none;
  fail_reason = none;
  created_at = now;
  completed_at = none;
}

-- `EnqueueTask`: the id of the new row, none on a conflict. The sequence moves on either way.
unfoldable pub enqueue_task : ℕ → Grab → Queue → Queue × Option ℕ
enqueue_task now g q =
    if any (has_hash g.info_hash) q.rows then (record q { next_id = q.next_id + 1 }, none) else (
      record { rows = q.rows ++ new_task q.next_id now g ∷ []; next_id = q.next_id + 1 },
      some q.next_id,
    )

-- `taskLeaseTTL`
abbrev pub task_lease_ttl : ℕ
task_lease_ttl = 900

-- `leased_at < now() - ttl`, which NULL does not satisfy.
abbrev pub older_than : ℕ → ℕ → Option ℕ → Bool
older_than ttl now none = false
older_than ttl now (some at) = ltb (at + ttl) now

unfoldable pub is_stale : ℕ → AgentTask → Bool
is_stale now r = is_leased r.state && older_than task_lease_ttl now r.leased_at

abbrev pub requeued : AgentTask → AgentTask
requeued r = record r { state = queued; leased_agent_id = none; leased_at = none }

abbrev pub reclaim_row : ℕ → AgentTask → AgentTask
reclaim_row now r = if is_stale now r then requeued r else r

-- The first statement of `LeaseNextTask`.
unfoldable pub reclaim : ℕ → Queue → Queue
reclaim now q = record q { rows = map (reclaim_row now) q.rows }

abbrev pub is_agent : ℕ → Option ℕ → Bool
is_agent agent none = false
is_agent agent (some a) = a == agent

unfoldable pub held_by : ℕ → AgentTask → Bool
held_by agent r = is_leased r.state && is_agent agent r.leased_agent_id

-- `ORDER BY created_at ... LIMIT 1` over the rows that pass a test.
abbrev pub older : AgentTask → Option AgentTask → Option AgentTask
older r none = some r
older r (some best) = if ltb best.created_at r.created_at then some best else some r

unfoldable pub oldest : (AgentTask → Bool) → List AgentTask → Option AgentTask
oldest p [] = none
oldest p (r ∷ rows) = let best = oldest p rows in if p r then older r best else best

-- `UPDATE ... WHERE id = ...`
unfoldable pub update_row : ℕ → (AgentTask → AgentTask) → List AgentTask → List AgentTask
update_row id f rows = map (λ r. if r.id == id then f r else r) rows

abbrev pub leased_to : ℕ → ℕ → AgentTask → AgentTask
leased_to now agent r = record r {
  state = leased;
  leased_agent_id = some agent;
  leased_at = some now;
}

-- What the subselect may take: a queued row that no other transaction holds locked.
abbrev pub is_free : (ℕ → Bool) → AgentTask → Bool
is_free locked r = is_queued r.state && not (locked r.id)

lease_picked : ℕ → ℕ → Queue → Option AgentTask → Queue × Option AgentTask
lease_picked now agent q none = (q, none)
lease_picked now agent q (some t) =
    (record q { rows = update_row t.id (leased_to now agent) q.rows }, some (leased_to now agent t))

-- The second statement of `LeaseNextTask`; `none` is `ErrNoTask`. `locked` are the rows that
-- SKIP LOCKED passes over.
unfoldable pub lease : ℕ → ℕ → ℕ → (ℕ → Bool) → Queue → Queue × Option AgentTask
unfolding lease_picked
lease now agent most locked q =
    if ltb (count_if (held_by agent) q.rows) most
    then lease_picked now agent q (oldest (is_free locked) q.rows)
    else (q, none)

-- `LeaseNextTask` with nothing between its statements.
unfoldable pub lease_next_task : ℕ → ℕ → ℕ → (ℕ → Bool) → Queue → Queue × Option AgentTask
lease_next_task now agent max_concurrent locked q =
    lease now agent (if ltb max_concurrent 1 then 1 else max_concurrent) locked (reclaim now q)

abbrev pub renew_row : ℕ → ℕ → AgentTask → AgentTask
renew_row now agent r = if held_by agent r then record r { leased_at = some now } else r

-- `RenewAgentLeases`
unfoldable pub renew_agent_leases : ℕ → ℕ → Queue → Queue
renew_agent_leases now agent q = record q { rows = map (renew_row now agent) q.rows }

-- `NULLIF(s, '')`
abbrev pub null_if_empty : String → Option String
null_if_empty s = if s == "" then none else some s

-- `id = $1 AND leased_agent_id = $2 AND state = 'leased'`
unfoldable pub is_own_lease : ℕ → ℕ → AgentTask → Bool
unfolding held_by
is_own_lease agent task r = r.id == task && held_by agent r

abbrev pub progress_row : ℕ → ℕ → String → AgentTask → AgentTask
progress_row agent task line r =
    if is_own_lease agent task r then record r { progress = null_if_empty line } else r

-- `RecordTaskProgress`
unfoldable pub record_task_progress : ℕ → ℕ → String → Queue → Queue
record_task_progress agent task line q = record q {
  rows = map (progress_row agent task line) q.rows;
}

abbrev pub closed : ℕ → Bool → String → AgentTask → AgentTask
closed now done reason r = record r {
  state = (if done then completed else failed);
  fail_reason = null_if_empty reason;
  completed_at = some now;
}

abbrev pub close_row : ℕ → ℕ → ℕ → Bool → String → AgentTask → AgentTask
close_row now agent task done reason r =
    if is_own_lease agent task r then closed now done reason r else r

-- `CloseTask`: whether a row was updated.
unfoldable pub close_task : ℕ → ℕ → ℕ → Bool → String → Queue → Queue × Bool
close_task now agent task done reason q = (
  record q { rows = map (close_row now agent task done reason) q.rows },
  ltb 0 (count_if (is_own_lease agent task) q.rows),
)

-- `DeleteTask`
unfoldable pub delete_task : ℕ → Queue → Queue
delete_task task q = record q { rows = keep (λ r. not (r.id == task)) q.rows }

pub record TaskCounts : Type 0 where
  pub queued_count : ℕ
  pub leased_count : ℕ
  pub completed_count : ℕ
  pub failed_count : ℕ

abbrev pub is_completed : TaskState → Bool
is_completed completed = true
is_completed queued = false
is_completed leased = false
is_completed failed = false

abbrev pub is_failed : TaskState → Bool
is_failed failed = true
is_failed queued = false
is_failed leased = false
is_failed completed = false

-- `CountTasks`
unfoldable pub count_tasks : Queue → TaskCounts
count_tasks q = record {
  queued_count = count_if (λ r. is_queued r.state) q.rows;
  leased_count = count_if (λ r. is_leased r.state) q.rows;
  completed_count = count_if (λ r. is_completed r.state) q.rows;
  failed_count = count_if (λ r. is_failed r.state) q.rows;
}
