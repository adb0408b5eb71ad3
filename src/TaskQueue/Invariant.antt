-- ===== src/TaskQueue/Invariant.antt =====
-- The queue's rows stay well formed, whatever statements run in whatever order.
use loon_site.Prelude.{
  ℕ, ◌+◌, ◌<◌, ◌≡◌, refl, ap, Bool, true, false, Option, none, some, List, [], ◌∷◌, String, map,
  ltb, ◌==◌, nat_eq, nat_beq_iff, string_eq, eq_iff, if◌then◌else◌, count_if, any, All, All-keep,
  All-append, arith, Bool-cases, Option-cases, inl, inr,
}
use loon_site.TaskQueue.{
  AgentTask, Grab, Queue, TaskState, queued, leased, completed, failed, enqueue_task, reclaim,
  lease, renew_agent_leases, record_task_progress, close_task, delete_task, new_task, is_stale,
  requeued, held_by, is_own_lease, update_row, leased_to, closed, has_hash, oldest, is_free,
  is_leased, is_queued, null_if_empty,
}
use loon_site.TaskQueue.Rows.{
  Op, enqueue_op, reclaim_op, lease_op, renew_op, progress_op, close_op, delete_op, after_op,
  after_ops, Unlike, map-Unlike, keep-Unlike, snoc-Unlike, All-every, All-apply, All-of_map, Has,
  Has-All, IsOldest, oldest-IsOldest,
}

-- Which columns are NULL in which state.
abbrev pub StateOk : TaskState → Option ℕ → Option ℕ → Option ℕ → Type 0
StateOk queued agent at finished = (agent ≡ none) × (at ≡ none) × (finished ≡ none)
StateOk leased agent at finished =
    ((a : ℕ) × (agent ≡ some a)) × ((t : ℕ) × (at ≡ some t)) × (finished ≡ none)
StateOk completed agent at finished = ((a : ℕ) × (agent ≡ some a)) × ((t : ℕ) × (finished ≡ some t))
StateOk failed agent at finished = ((a : ℕ) × (agent ≡ some a)) × ((t : ℕ) × (finished ≡ some t))

abbrev pub same_id : AgentTask → AgentTask → Bool
same_id r s = s.id == r.id

abbrev pub same_hash : AgentTask → AgentTask → Bool
same_hash r s = has_hash r.grab.info_hash s

abbrev pub RowOk : ℕ → AgentTask → Type 0
RowOk next r = (r.id < next) × StateOk r.state r.leased_agent_id r.leased_at r.completed_at

pub record IsValid (q : Queue) : Type 0 where
  pub rows_ok : All (RowOk q.next_id) q.rows
  pub ids : Unlike same_id q.rows
  pub hashes : Unlike same_hash q.rows

-- A change of rows, one by one, that keeps their id and their grab.
module _ (f : AgentTask → AgentTask) (q : Queue) where
  map-IsValid :
      ((r : AgentTask) → (f r).id ≡ r.id)
      → ((r : AgentTask) → (f r).grab.info_hash ≡ r.grab.info_hash)
      → All (λ r. RowOk q.next_id r → RowOk q.next_id (f r)) q.rows
      → IsValid q
      → IsValid (record q { rows = map f q.rows })
  map-IsValid same_ids same_hashes step v = record {
    rows_ok = All-of_map (RowOk q.next_id) f q.rows (All-apply _ _ q.rows step v.rows_ok);
    ids = map-Unlike same_id f q.rows (λ r s. rw (same_ids r, same_ids s) refl) v.ids;
    hashes = map-Unlike same_hash f q.rows (λ r s. rw (same_hashes r, same_hashes s) refl) v.hashes;
  }

-- A change of the rows that pass a test.
module _ (c : AgentTask → Bool) (g : AgentTask → AgentTask) (q : Queue) where
  update_ok :
      (next : ℕ) (r : AgentTask)
      → (c r ≡ true → RowOk next r → RowOk next (g r))
      → RowOk next r
      → RowOk next (if c r then g r else r)
  update_ok next r step ok = elim (Bool-cases (c r)) [
    | inl here ↦ rw here (step here ok)
    | inr other ↦ rw other ok
  ]

  update-IsValid :
      ((r : AgentTask) → (g r).id ≡ r.id)
      → ((r : AgentTask) → (g r).grab.info_hash ≡ r.grab.info_hash)
      → ((r : AgentTask) → c r ≡ true → RowOk q.next_id r → RowOk q.next_id (g r))
      → IsValid q
      → IsValid (record q { rows = map (λ r. if c r then g r else r) q.rows })
  update-IsValid same_ids same_hashes step =
      map-IsValid (λ r. if c r then g r else r) q (λ r. ground (arith, same_ids r))
        (λ r. ground (arith, same_hashes r))
        (All-every _ q.rows (λ r. update_ok q.next_id r (step r)))

leased_ok :
    (state : TaskState) (agent at finished : Option ℕ)
    → is_leased state ≡ true
    → StateOk state agent at finished
    → ((a : ℕ) × (agent ≡ some a)) × (finished ≡ none)
leased_ok queued agent at finished h ok = absurd (cc)
leased_ok leased agent at finished h (a, t, d) = (a, d)
leased_ok completed agent at finished h ok = absurd (cc)
leased_ok failed agent at finished h ok = absurd (cc)

queued_ok :
    (state : TaskState) (agent at finished : Option ℕ)
    → is_queued state ≡ true
    → StateOk state agent at finished
    → finished ≡ none
queued_ok queued agent at finished h (_, _, d) = d
queued_ok leased agent at finished h ok = absurd (cc)
queued_ok completed agent at finished h ok = absurd (cc)
queued_ok failed agent at finished h ok = absurd (cc)

set_leased_ok :
    (state : TaskState) (agent at finished : Option ℕ) (now : ℕ)
    → is_leased state ≡ true
    → StateOk state agent at finished
    → StateOk state agent (some now) finished
set_leased_ok queued agent at finished now h ok = absurd (cc)
set_leased_ok leased agent at finished now h (a, t, d) = (a, (now, refl), d)
set_leased_ok completed agent at finished now h ok = absurd (cc)
set_leased_ok failed agent at finished now h ok = absurd (cc)

reclaim-IsValid : (now : ℕ) (q : Queue) → IsValid q → IsValid (reclaim now q)
unfolding reclaim
reclaim-IsValid now q =
    update-IsValid (is_stale now) requeued q (λ r. refl) (λ r. refl)
      (λ r stale (id, ok).
        (id, (refl, refl, (leased_ok r.state _ _ _ (unfold is_stale in ground arith) ok).1)))

renew-IsValid : (now agent : ℕ) (q : Queue) → IsValid q → IsValid (renew_agent_leases now agent q)
unfolding renew_agent_leases
renew-IsValid now agent q =
    update-IsValid (held_by agent) (λ r. record r { leased_at = some now }) q (λ r. refl)
      (λ r. refl)
      (λ r held (id, ok). (id, set_leased_ok r.state _ _ _ now (unfold held_by in ground arith) ok))

progress-IsValid :
    (agent task : ℕ) (line : String) (q : Queue)
    → IsValid q
    → IsValid (record_task_progress agent task line q)
unfolding record_task_progress
progress-IsValid agent task line q =
    update-IsValid (is_own_lease agent task) (λ r. record r { progress = null_if_empty line }) q
      (λ r. refl) (λ r. refl) (λ r own ok. ok)

closed_ok :
    (done : Bool) (agent : Option ℕ) (at : Option ℕ) (now : ℕ)
    → (a : ℕ) × (agent ≡ some a)
    → StateOk (if done then completed else failed) agent at (some now)
closed_ok true agent at now a = (a, (now, refl))
closed_ok false agent at now a = (a, (now, refl))

pub close-IsValid :
    (now agent task : ℕ) (done : Bool) (reason : String) (q : Queue)
    → IsValid q
    → IsValid (close_task now agent task done reason q).0
unfolding close_task
close-IsValid now agent task done reason q =
    update-IsValid (is_own_lease agent task) (closed now done reason) q (λ r. refl) (λ r. refl)
      (λ r own (id, ok). (
        id,
        closed_ok done _ _ now (leased_ok r.state _ _ _ (unfold is_own_lease in ground arith) ok).0,
      ))

delete-IsValid : (task : ℕ) (q : Queue) → IsValid q → IsValid (delete_task task q)
unfolding delete_task
delete-IsValid task q v = record {
  rows_ok = All-keep (RowOk q.next_id) _ q.rows v.rows_ok;
  ids = keep-Unlike same_id _ q.rows v.ids;
  hashes = keep-Unlike same_hash _ q.rows v.hashes;
}

any-false-All :
    (p : AgentTask → Bool) (rows : List AgentTask)
    → any p rows ≡ false
    → All (λ r. p r ≡ false) rows
any-false-All p [] h = tt
any-false-All p (r ∷ rows) h = (ground arith, any-false-All p rows (ground arith))

-- The primary key: a row with the id of a row is that row.
same_id-All :
    (t : AgentTask) (rows : List AgentTask)
    → Unlike same_id rows
    → Has t rows
    → All (λ r. (r.id == t.id) ≡ true → r ≡ t) rows
same_id-All t [] u at = elim at [ ]
same_id-All t (s ∷ rows) (new, u) (inl here) = (
  (λ _. here),
  All-apply _ _ rows
      (All-every _ rows (λ r other same. absurd (
        let id : s.id ≡ t.id = ap (λ x. x.id) here in
        ground (arith, nat_beq_iff r.id s.id, nat_beq_iff r.id t.id))))
      (any-false-All (same_id s) rows new),
)
same_id-All t (s ∷ rows) (new, u) (inr later) =
    let other = Has-All _ t rows later (any-false-All (same_id s) rows new) in
    (
      (λ same. absurd (ground (arith, nat_beq_iff s.id t.id, nat_beq_iff t.id s.id))),
      same_id-All t rows u later,
    )

fresh_ids :
    (next now : ℕ) (g : Grab) (rows : List AgentTask)
    → All (RowOk next) rows
    → All (λ r. same_id r (new_task next now g) ≡ false) rows
fresh_ids next now g rows =
    All-apply _ _ rows (All-every _ rows (λ r ok. let below = ok.0 in ground arith))

fresh_hashes :
    (next now : ℕ) (g : Grab) (rows : List AgentTask)
    → any (has_hash g.info_hash) rows ≡ false
    → All (λ r. same_hash r (new_task next now g) ≡ false) rows
fresh_hashes next now g rows new =
    All-apply _ _ rows
      (All-every _ rows (λ r other.
        ground (arith, eq_iff r.grab.info_hash g.info_hash, eq_iff g.info_hash r.grab.info_hash)))
      (any-false-All _ rows new)

weaken_ok : (next : ℕ) (rows : List AgentTask) → All (RowOk next) rows → All (RowOk (next + 1)) rows
weaken_ok next rows =
    All-apply _ _ rows (All-every _ rows (λ r ok. let below = ok.0 in (omega arith, ok.1)))

enqueue-IsValid : (now : ℕ) (g : Grab) (q : Queue) → IsValid q → IsValid (enqueue_task now g q).0
unfolding enqueue_task
enqueue-IsValid now g q v = elim (Bool-cases (any (has_hash g.info_hash) q.rows)) [
  | inl known ↦
      rw known
        (record { rows_ok = weaken_ok q.next_id q.rows v.rows_ok; ids = v.ids; hashes = v.hashes })
  | inr new ↦ rw new (record {
    rows_ok =
        All-append (RowOk (q.next_id + 1)) q.rows _ (weaken_ok q.next_id q.rows v.rows_ok)
          ((omega arith, (refl, refl, refl)), tt);
    ids = snoc-Unlike same_id _ q.rows (fresh_ids q.next_id now g q.rows v.rows_ok) v.ids;
    hashes = snoc-Unlike same_hash _ q.rows (fresh_hashes q.next_id now g q.rows new) v.hashes;
  })
]

lease_picked-IsValid :
    (now agent : ℕ) (locked : ℕ → Bool) (q : Queue) (t : AgentTask)
    → IsOldest (is_free locked) q.rows t
    → IsValid q
    → IsValid (record q { rows = update_row t.id (leased_to now agent) q.rows })
unfolding update_row
lease_picked-IsValid now agent locked q t (there, free, _) v =
    map-IsValid (λ r. if r.id == t.id then leased_to now agent r else r) q (λ r. ground arith)
      (λ r. ground arith)
      (All-apply _ _ q.rows
        (All-every _ q.rows (λ r only.
          update_ok (λ r. r.id == t.id) (leased_to now agent) q q.next_id r
            (λ same (id, ok).
              let here = only same in
              let was_queued : is_queued r.state ≡ true = rw here (ground arith) in
              (id, ((agent, refl), (now, refl), queued_ok r.state _ _ _ was_queued ok)))))
        (same_id-All t q.rows v.ids there))
      v

lease-IsValid :
    (now agent most : ℕ) (locked : ℕ → Bool) (q : Queue)
    → IsValid q
    → IsValid (lease now agent most locked q).0
unfolding lease
lease-IsValid now agent most locked q v =
    elim (Bool-cases (ltb (count_if (held_by agent) q.rows) most)) [
      | inr at_cap ↦ rw at_cap v
      | inl below ↦ elim (Option-cases (oldest (is_free locked) q.rows)) [
        | inl nothing ↦ rw (below, nothing) v
        | inr (t, found) ↦
            rw (below, found)
              (lease_picked-IsValid now agent locked q t (oldest-IsOldest _ q.rows t found) v)
      ]
    ]

pub after_op-IsValid : (op : Op) (q : Queue) → IsValid q → IsValid (after_op op q)
unfolding after_op
after_op-IsValid (enqueue_op now g) q v = enqueue-IsValid now g q v
after_op-IsValid (reclaim_op now) q v = reclaim-IsValid now q v
after_op-IsValid (lease_op now agent most locked) q v = lease-IsValid now agent most locked q v
after_op-IsValid (renew_op now agent) q v = renew-IsValid now agent q v
after_op-IsValid (progress_op agent task line) q v = progress-IsValid agent task line q v
after_op-IsValid (close_op now agent task done reason) q v =
    close-IsValid now agent task done reason q v
after_op-IsValid (delete_op task) q v = delete-IsValid task q v

-- A table that is well formed stays so, whatever statements run, in whatever order and from however
-- many agents: ids are unique and below the sequence, no info hash is in the table twice, and the
-- columns of each row fit its state. A queued row has no agent and no lease time, a leased row has
-- both and is not finished, and a finished row names the agent that finished it and when.
pub after_ops-IsValid : (ops : List Op) (q : Queue) → IsValid q → IsValid (after_ops ops q)
unfolding after_ops
after_ops-IsValid [] q v = v
after_ops-IsValid (op ∷ ops) q v = after_ops-IsValid ops (after_op op q) (after_op-IsValid op q v)
