-- ===== src/TaskQueue/Close.antt =====
-- Closing: only by the agent that holds the lease, and at most once.
use loon_site.Prelude.{
  ℕ, ◌<◌, ◌≡◌, refl, Bool, true, false, ◌||◌, List, [], ◌∷◌, String, map, ltb, ◌==◌, nat_eq,
  nat_beq_iff, string_eq, if◌then◌else◌, count_if, any, All, All-append, All-keep, arith,
  Bool-cases, Option-cases, inl, inr,
}
use loon_site.TaskQueue.{
  AgentTask, Grab, Queue, TaskState, enqueue_task, reclaim, lease, renew_agent_leases,
  record_task_progress, close_task, delete_task, is_stale, held_by, is_own_lease, update_row,
  leased_to, has_hash, oldest, is_free, is_completed, is_failed, reclaim_row, renew_row,
  progress_row, close_row,
}
use loon_site.TaskQueue.Rows.{
  Op, enqueue_op, reclaim_op, lease_op, renew_op, progress_op, close_op, delete_op, after_op,
  after_ops, Unlike, All-every, All-apply, All-of_map, Has-All, oldest-IsOldest,
}
use loon_site.TaskQueue.Invariant.{IsValid, RowOk, same_id, close-IsValid, after_op-IsValid}

abbrev pub is_finished : TaskState → Bool
is_finished s = is_completed s || is_failed s

-- No row of the task is unfinished.
abbrev pub RowSettled : ℕ → AgentTask → Type 0
RowSettled task r = (r.id == task) ≡ true → is_finished r.state ≡ true

-- The task was closed: its row is finished or gone, and the sequence is past its id.
abbrev pub IsSettled : ℕ → Queue → Type 0
IsSettled task q = (task < q.next_id) × All (RowSettled task) q.rows

module _ (task : ℕ) where
  map_settled :
      (f : AgentTask → AgentTask) (rows : List AgentTask)
      → ((r : AgentTask) → RowSettled task r → RowSettled task (f r))
      → All (RowSettled task) rows
      → All (RowSettled task) (map f rows)
  map_settled f rows step h = All-of_map _ f rows (All-apply _ _ rows (All-every _ rows step) h)

  reclaim_settled :
      (now : ℕ) (r : AgentTask) → RowSettled task r → RowSettled task (reclaim_row now r)
  unfolding is_stale
  reclaim_settled now r h same = ground (arith, h)

  renew_settled :
      (now a : ℕ) (r : AgentTask) → RowSettled task r → RowSettled task (renew_row now a r)
  unfolding held_by
  renew_settled now a r h same = ground (arith, h)

  progress_settled :
      (a t : ℕ) (line : String) (r : AgentTask)
      → RowSettled task r
      → RowSettled task (progress_row a t line r)
  unfolding is_own_lease
  progress_settled a t line r h same = ground (arith, h)

  close_settled :
      (now a t : ℕ) (finished : Bool) (reason : String) (r : AgentTask)
      → RowSettled task r
      → RowSettled task (close_row now a t finished reason r)
  unfolding is_own_lease
  close_settled now a t finished reason r h same = ground (arith, h)

  enqueue-IsSettled :
      (now : ℕ) (g : Grab) (q : Queue) → IsSettled task q → IsSettled task (enqueue_task now g q).0
  unfolding enqueue_task
  enqueue-IsSettled now g q (below, h) = elim (Bool-cases (any (has_hash g.info_hash) q.rows)) [
    | inl known ↦ rw known (omega arith, h)
    | inr new ↦
        rw new (
          omega arith,
          All-append (RowSettled task) q.rows _ h ((λ same. absurd (ground arith)), tt),
        )
  ]

  leased_other :
      (now a : ℕ) (t r : AgentTask)
      → (t.id == task) ≡ false
      → RowSettled task r
      → RowSettled task (if r.id == t.id then leased_to now a r else r)
  leased_other now a t r other settled same = elim (Bool-cases (r.id == t.id)) [
    | inl alike ↦
        let e = (nat_beq_iff r.id t.id).0 alike in
        absurd (let c : (r.id == task) ≡ true = (rw alike at same) in ground (arith, e, c))
    | inr differs ↦ rw differs (settled (rw differs at same))
  ]

  lease-IsSettled :
      (now a most : ℕ) (locked : ℕ → Bool) (q : Queue)
      → IsValid q
      → IsSettled task q
      → IsSettled task (lease now a most locked q).0
  unfolding lease update_row
  lease-IsSettled now a most locked q v (below, h) =
      elim (Bool-cases (ltb (count_if (held_by a) q.rows) most)) [
        | inr at_cap ↦ rw at_cap (below, h)
        | inl room ↦ elim (Option-cases (oldest (is_free locked) q.rows)) [
          | inl nothing ↦ rw (room, nothing) (below, h)
          | inr (t, found) ↦
              let (there, free, _) = oldest-IsOldest _ q.rows t found in
              let unfinished : is_finished t.state ≡ false = ground arith in
              let other : (t.id == task) ≡ false = elim (Bool-cases (t.id == task)) [
                | inl same ↦ absurd (let f = Has-All _ t q.rows there h same in cc)
                | inr differs ↦ differs
              ] in
              rw (room, found)
                (
                  below,
                  map_settled (λ r. if r.id == t.id then leased_to now a r else r) q.rows
                      (λ r settled same. leased_other now a t r other settled same) h,
                )
        ]
      ]

  after_op-IsSettled :
      (op : Op) (q : Queue) → IsValid q → IsSettled task q → IsSettled task (after_op op q)
  unfolding after_op
  after_op-IsSettled (enqueue_op now g) q v h = enqueue-IsSettled now g q h
  after_op-IsSettled (reclaim_op now) q v (below, h) =
      unfold reclaim in (below, map_settled (reclaim_row now) q.rows (reclaim_settled now) h)
  after_op-IsSettled (lease_op now a most locked) q v h = lease-IsSettled now a most locked q v h
  after_op-IsSettled (renew_op now a) q v (below, h) =
      unfold renew_agent_leases in
      (below, map_settled (renew_row now a) q.rows (renew_settled now a) h)
  after_op-IsSettled (progress_op a t line) q v (below, h) =
      unfold record_task_progress in
      (below, map_settled (progress_row a t line) q.rows (progress_settled a t line) h)
  after_op-IsSettled (close_op now a t finished reason) q v (below, h) =
      unfold close_task in
      (
        below,
        map_settled (close_row now a t finished reason) q.rows
            (close_settled now a t finished reason) h,
      )
  after_op-IsSettled (delete_op t) q v (below, h) =
      unfold delete_task in (below, All-keep (RowSettled task) _ q.rows h)

  after_ops-IsSettled :
      (ops : List Op) (q : Queue) → IsValid q → IsSettled task q → IsSettled task (after_ops ops q)
  unfolding after_ops
  after_ops-IsSettled [] q v h = h
  after_ops-IsSettled (op ∷ ops) q v h =
      after_ops-IsSettled ops (after_op op q) (after_op-IsValid op q v)
        (after_op-IsSettled op q v h)

  settled_closes_nothing :
      (a : ℕ) (rows : List AgentTask)
      → All (RowSettled task) rows
      → count_if (is_own_lease a task) rows ≡ 0
  unfolding is_own_lease held_by
  settled_closes_nothing a [] h = refl
  settled_closes_nothing a (r ∷ rows) (here, h) =
      ground (arith, here, settled_closes_nothing a rows h)

  absent_settled :
      (f : AgentTask → AgentTask) (rows : List AgentTask)
      → ((r : AgentTask) → (f r).id ≡ r.id)
      → any (λ s. s.id == task) rows ≡ false
      → All (RowSettled task) (map f rows)
  absent_settled f [] same absent = tt
  absent_settled f (r ∷ rows) same absent =
      ((λ e. absurd (ground (arith, same r))), absent_settled f rows same (ground arith))

  absent_not_own :
      (a : ℕ) (rows : List AgentTask)
      → any (λ s. s.id == task) rows ≡ false
      → count_if (is_own_lease a task) rows ≡ 0
  unfolding is_own_lease
  absent_not_own a [] absent = refl
  absent_not_own a (r ∷ rows) absent = ground (arith, absent_not_own a rows)

  own_below :
      (a n : ℕ) (rows : List AgentTask)
      → All (RowOk n) rows
      → 0 < count_if (is_own_lease a task) rows
      → task < n
  unfolding is_own_lease
  own_below a n [] ok some_row = absurd (omega arith)
  own_below a n (r ∷ rows) ((lt, _), ok) some_row = elim (Bool-cases (is_own_lease a task r)) [
    | inl own ↦
        let same : (r.id == task) ≡ true = ground arith in
        let e = (nat_beq_iff r.id task).0 same in omega arith
    | inr other ↦ own_below a n rows ok (ground arith)
  ]

  close_settles :
      (now a : ℕ) (finished : Bool) (reason : String) (rows : List AgentTask)
      → Unlike same_id rows
      → 0 < count_if (is_own_lease a task) rows
      → All (RowSettled task) (map (close_row now a task finished reason) rows)
  close_settles now a finished reason [] u some_row = absurd (omega arith)
  close_settles now a finished reason (r ∷ rows) (new, u) some_row =
      elim (Bool-cases (is_own_lease a task r)) [
        | inl own ↦
            let same : (r.id == task) ≡ true = unfold is_own_lease in ground arith in
            let e = (nat_beq_iff r.id task).0 same in
            (
              (λ _. unfold is_own_lease in ground arith),
              absent_settled (close_row now a task finished reason) rows (λ s. ground arith)
                  (rw e at new),
            )
        | inr other ↦
            let some_later : 0 < count_if (is_own_lease a task) rows = ground arith in
            (
              (λ here. absurd (
                  let same : (r.id == task) ≡ true = ground arith in
                  let e = (nat_beq_iff r.id task).0 same in
                  let nothing = absent_not_own a rows (rw e at new) in omega arith)),
              close_settles now a finished reason rows u some_later,
            )
      ]

  closing_settles :
      (now a : ℕ) (finished : Bool) (reason : String) (q : Queue)
      → IsValid q
      → (close_task now a task finished reason q).1 ≡ true
      → IsSettled task (close_task now a task finished reason q).0
  unfolding close_task
  closing_settles now a finished reason q v success =
      let some_row : 0 < count_if (is_own_lease a task) q.rows = ground arith in
      (
        own_below a q.next_id q.rows v.rows_ok some_row,
        close_settles now a finished reason q.rows v.ids some_row,
      )

  settled_stays :
      (now a : ℕ) (finished : Bool) (reason : String) (rows : List AgentTask)
      → All (RowSettled task) rows
      → map (close_row now a task finished reason) rows ≡ rows
  settled_stays now a finished reason [] h = refl
  settled_stays now a finished reason (r ∷ rows) (here, h) =
      let other : is_own_lease a task r ≡ false =
        unfold is_own_lease held_by in ground (arith, here) in
      rw (other, settled_stays now a finished reason rows h) refl

-- In a well-formed table, a task that was closed is never closed again, by its own agent or
-- another, whatever statements run in between: a repeated or a forged completion changes no row,
-- and is reported as such.
pub close_once :
    (task now later a b : ℕ) (finished again : Bool) (reason why : String) (ops : List Op)
    (q : Queue)
    → IsValid q
    → (close_task now a task finished reason q).1 ≡ true
    → let between = after_ops ops (close_task now a task finished reason q).0 in
      ((close_task later b task again why between).1 ≡ false)
      × ((close_task later b task again why between).0 ≡ between)
close_once task now later a b finished again reason why ops q v success =
    let closing = (close_task now a task finished reason q).0 in
    let settled =
      after_ops-IsSettled task ops closing (close-IsValid now a task finished reason q v)
        (closing_settles task now a finished reason q v success) in
    let (_, rows) = settled in
    let between = after_ops ops closing in
    unfold close_task in
    (
      rw (settled_closes_nothing task b between.rows rows) refl,
      rw (settled_stays task later b again why between.rows rows) refl,
    )
