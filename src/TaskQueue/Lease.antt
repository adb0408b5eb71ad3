-- ===== src/TaskQueue/Lease.antt =====
-- Leasing: what an agent is handed, how many it may hold, and what a heartbeat protects.
use loon_site.Prelude.{
  ℕ, ◌+◌, ◌≤◌, ◌<◌, ◌≡◌, ◌⊎◌, ◌↔◌, refl, Bool, false, none, some, List, [], ◌∷◌, map, ltb, ◌==◌,
  nat_eq, nat_beq_iff, string_eq, if◌then◌else◌, count_if, count_if-append, any, All, arith,
  Bool-cases, Option-cases, inl, inr,
}
use loon_site.TaskQueue.{
  AgentTask, Grab, Queue, enqueue_task, reclaim, lease, renew_agent_leases, record_task_progress,
  close_task, delete_task, new_task, is_stale, held_by, update_row, leased_to, oldest, is_free,
  task_lease_ttl, reclaim_row, renew_row, progress_row, close_row,
}
use loon_site.TaskQueue.Rows.{
  Op, enqueue_op, reclaim_op, lease_op, renew_op, progress_op, close_op, delete_op, after_op,
  after_ops, Unlike, All-every, All-of_map, IsOldest, oldest-IsOldest, oldest-none, count_if-map-le,
  count_if-keep-le, count_if-update-le,
}
use loon_site.TaskQueue.Invariant.{IsValid, same_id, after_op-IsValid}

-- How many tasks an agent holds.
abbrev pub held : ℕ → Queue → ℕ
held agent q = count_if (held_by agent) q.rows

count_if_zero :
    (p : AgentTask → Bool) (rows : List AgentTask) → any p rows ≡ false → count_if p rows ≡ 0
count_if_zero p [] h = refl
count_if_zero p (r ∷ rows) h = ground (arith, count_if_zero p rows)

count_if_one :
    (i : ℕ) (rows : List AgentTask) → Unlike same_id rows → count_if (λ r. r.id == i) rows ≤ 1
count_if_one i [] u = omega arith
count_if_one i (r ∷ rows) (new, u) = elim (Bool-cases (r.id == i)) [
  | inr other ↦ ground (arith, count_if_one i rows u)
  | inl same ↦
      let e : r.id ≡ i = (nat_beq_iff r.id i).0 same in
      let alone = count_if_zero (λ s. s.id == i) rows (rw e at new) in ground arith
]

-- Each statement keeps an agent within a limit that its lease requests keep to.
abbrev pub KeepsTo : ℕ → ℕ → Op → Type 0
KeepsTo agent most (lease_op now a limit locked) = a ≡ agent → limit ≤ most
KeepsTo agent most (enqueue_op now g) = Unit
KeepsTo agent most (reclaim_op now) = Unit
KeepsTo agent most (renew_op now a) = Unit
KeepsTo agent most (progress_op a task line) = Unit
KeepsTo agent most (close_op now a task done reason) = Unit
KeepsTo agent most (delete_op task) = Unit

module _ (agent most : ℕ) where
  lease_picked_own :
      (now : ℕ) (t : AgentTask) (rows : List AgentTask)
      → Unlike same_id rows
      → count_if (held_by agent) rows < most
      → count_if (held_by agent) (update_row t.id (leased_to now agent) rows) ≤ most
  unfolding update_row
  lease_picked_own now t rows u below = omega (
    arith,
    count_if-update-le (held_by agent) (λ r. r.id == t.id) (leased_to now agent) rows,
    count_if_one t.id rows u,
  )

  lease_picked_other :
      (now a : ℕ) (t : AgentTask) (rows : List AgentTask)
      → (a == agent) ≡ false
      → count_if (held_by agent) rows ≤ most
      → count_if (held_by agent) (update_row t.id (leased_to now a) rows) ≤ most
  unfolding update_row held_by
  lease_picked_other now a t rows other h = omega (
    arith,
    count_if-map-le (held_by agent) (λ r. if r.id == t.id then leased_to now a r else r) rows
        (λ r e. ground arith),
  )

  held-lease :
      (now a limit : ℕ) (locked : ℕ → Bool) (q : Queue)
      → (a ≡ agent → limit ≤ most)
      → IsValid q
      → held agent q ≤ most
      → held agent (lease now a limit locked q).0 ≤ most
  unfolding lease
  held-lease now a limit locked q keeps v h =
      elim (Bool-cases (ltb (count_if (held_by a) q.rows) limit)) [
        | inr at_cap ↦ rw (at_cap, lease) h
        | inl below ↦ elim (Option-cases (oldest (is_free locked) q.rows)) [
          | inl nothing ↦ rw (below, nothing, lease) h
          | inr (t, found) ↦ elim (Bool-cases (a == agent)) [
            | inl own ↦
                let e = (nat_beq_iff a agent).0 own in
                let limited = keeps e in
                let room : count_if (held_by agent) q.rows < most = rw (← e) (ground arith) in
                rw (below, found, lease, e) (lease_picked_own now t q.rows v.ids room)
            | inr other ↦ rw (below, found, lease) (lease_picked_other now a t q.rows other h)
          ]
        ]
      ]

  enqueue_held :
      (now : ℕ) (g : Grab) (q : Queue)
      → held agent q ≤ most
      → held agent (enqueue_task now g q).0 ≤ most
  unfolding enqueue_task held_by
  enqueue_held now g q h =
      ground (arith, count_if-append (held_by agent) q.rows (new_task q.next_id now g ∷ []))

  held-after_op :
      (op : Op) (q : Queue)
      → KeepsTo agent most op
      → IsValid q
      → held agent q ≤ most
      → held agent (after_op op q) ≤ most
  unfolding after_op
  held-after_op (enqueue_op now g) q keeps v h = enqueue_held now g q h
  held-after_op (reclaim_op now) q keeps v h =
      unfold reclaim held_by in
      omega (arith, count_if-map-le (held_by agent) (reclaim_row now) q.rows (λ r e. ground arith))
  held-after_op (lease_op now a limit locked) q keeps v h =
      held-lease now a limit locked q keeps v h
  held-after_op (renew_op now a) q keeps v h =
      unfold renew_agent_leases held_by in
      omega (arith, count_if-map-le (held_by agent) (renew_row now a) q.rows (λ r e. ground arith))
  held-after_op (progress_op a task line) q keeps v h =
      unfold record_task_progress held_by in
      omega (
        arith,
        count_if-map-le (held_by agent) (progress_row a task line) q.rows (λ r e. ground arith),
      )
  held-after_op (close_op now a task done reason) q keeps v h =
      unfold close_task held_by in
      omega (
        arith,
        count_if-map-le (held_by agent) (close_row now a task done reason) q.rows
            (λ r e. ground arith),
      )
  held-after_op (delete_op task) q keeps v h =
      unfold delete_task in omega (arith, count_if-keep-le (held_by agent) _ q.rows)

  -- In a well-formed table and with statements that run one at a time, an agent that holds no more
  -- tasks than a cap, and whose lease requests all keep to that cap, never comes to hold more,
  -- however its requests, the other agents' and the reclaims interleave.
  pub held-after_ops :
      (ops : List Op) (q : Queue)
      → All (KeepsTo agent most) ops
      → IsValid q
      → held agent q ≤ most
      → held agent (after_ops ops q) ≤ most
  unfolding after_ops
  held-after_ops [] q keeps v h = h
  held-after_ops (op ∷ ops) q (here, keeps) v h =
      held-after_ops ops (after_op op q) keeps (after_op-IsValid op q v)
        (held-after_op op q here v h)

none-oldest :
    (p : AgentTask → Bool) (rows : List AgentTask)
    → All (λ r. p r ≡ false) rows
    → oldest p rows ≡ none
unfolding oldest
none-oldest p [] h = refl
none-oldest p (r ∷ rows) (fails, h) = ground (arith, none-oldest p rows h)

-- A poll is answered with nothing exactly when the agent is at its cap or no queued row is free.
pub lease-none_iff :
    (now agent most : ℕ) (locked : ℕ → Bool) (q : Queue)
    → ((lease now agent most locked q).1 ≡ none)
      ↔ ((most ≤ held agent q) ⊎ All (λ r. is_free locked r ≡ false) q.rows)
unfolding lease
lease-none_iff now agent most locked q = (refused, idle)
  where
    refused :
        (lease now agent most locked q).1 ≡ none
        → (most ≤ held agent q) ⊎ All (λ r. is_free locked r ≡ false) q.rows
    refused h = elim (Bool-cases (ltb (held agent q) most)) [
      | inr at_cap ↦ inl (ground arith)
      | inl below ↦ inr (oldest-none (is_free locked) q.rows (ground arith))
    ]

    idle :
        (most ≤ held agent q) ⊎ All (λ r. is_free locked r ≡ false) q.rows
        → (lease now agent most locked q).1 ≡ none
    idle (inl full) = ground arith
    idle (inr taken) = ground (arith, none-oldest (is_free locked) q.rows taken)

-- What a poll hands out was queued and free, no free queued row is older, the agent was below its
-- cap, and the row is now leased to the agent from this moment while every other row stays.
pub lease_sound :
    (now agent most : ℕ) (locked : ℕ → Bool) (q : Queue) (t : AgentTask)
    → (lease now agent most locked q).1 ≡ some t
    → (r : AgentTask) × IsOldest (is_free locked) q.rows r
      × (held agent q < most)
      × (t ≡ leased_to now agent r)
      × ((lease now agent most locked q).0.rows ≡ update_row r.id (leased_to now agent) q.rows)
unfolding lease
lease_sound now agent most locked q t h = elim (Bool-cases (ltb (held agent q) most)) [
  | inr at_cap ↦ absurd (ground arith)
  | inl below ↦ elim (Option-cases (oldest (is_free locked) q.rows)) [
    | inl nothing ↦ absurd (ground arith)
    | inr (r, found) ↦ (
      r,
      oldest-IsOldest _ q.rows r found,
      ground arith,
      ground arith,
      rw (below, found, lease) refl,
    )
  ]
]

held_row_kept :
    (now later agent : ℕ) (r : AgentTask)
    → later ≤ now + task_lease_ttl
    → held_by agent (reclaim_row later (renew_row now agent r)) ≡ held_by agent r
unfolding held_by is_stale
held_row_kept now later agent r h = ground arith

held_kept :
    (now later agent : ℕ)
    → later ≤ now + task_lease_ttl
    → (rows : List AgentTask)
    → count_if (held_by agent) (map (reclaim_row later) (map (renew_row now agent) rows))
      ≡ count_if (held_by agent) rows
held_kept now later agent h [] = refl
held_kept now later agent h (r ∷ rows) =
    rw (held_row_kept now later agent r h, held_kept now later agent h rows) refl

-- A heartbeat keeps every lease of the agent for the time to live: a reclaim within it takes none.
pub held-reclaim-renew :
    (now later agent : ℕ) (q : Queue)
    → later ≤ now + task_lease_ttl
    → held agent (reclaim later (renew_agent_leases now agent q)) ≡ held agent q
unfolding reclaim renew_agent_leases
held-reclaim-renew now later agent q h = held_kept now later agent h q.rows

-- After a reclaim no lease is older than the time to live.
pub reclaim_fresh : (now : ℕ) (q : Queue) → All (λ r. is_stale now r ≡ false) (reclaim now q).rows
unfolding reclaim is_stale
reclaim_fresh now q = All-of_map _ _ q.rows (All-every _ q.rows (λ r. ground arith))
