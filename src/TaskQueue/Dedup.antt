-- ===== src/TaskQueue/Dedup.antt =====
-- One row per info hash: `ON CONFLICT (info_hash) DO NOTHING`.
use loon_site.Prelude.{
  ℕ, ◌≡◌, refl, ◌∙◌, Bool, true, none, List, [], ◌∷◌, ◌++◌, String, ltb, ◌==◌, nat_eq, string_eq,
  beq_refl, if◌then◌else◌, any, count_if, All, arith, Bool-cases, Option-cases, inl, inr,
}
use loon_site.TaskQueue.{
  AgentTask, Grab, Queue, enqueue_task, reclaim, lease, renew_agent_leases, record_task_progress,
  close_task, new_task, held_by, update_row, leased_to, has_hash, oldest, is_free, reclaim_row,
  renew_row, progress_row, close_row,
}
use loon_site.TaskQueue.Rows.{
  Op, enqueue_op, reclaim_op, lease_op, renew_op, progress_op, close_op, delete_op, after_op,
  after_ops, any-map,
}

abbrev pub KeepsRows : Op → Type 0
KeepsRows (delete_op task) = ⊥
KeepsRows (enqueue_op now g) = Unit
KeepsRows (reclaim_op now) = Unit
KeepsRows (lease_op now a most locked) = Unit
KeepsRows (renew_op now a) = Unit
KeepsRows (progress_op a t line) = Unit
KeepsRows (close_op now a t finished reason) = Unit

-- The table has a row of this hash.
abbrev pub is_known : String → Queue → Bool
is_known hash q = any (has_hash hash) q.rows

module _ (hash : String) where
  any_left :
      (t : AgentTask) (rows : List AgentTask)
      → any (has_hash hash) rows ≡ true
      → any (has_hash hash) (rows ++ t ∷ []) ≡ true
  any_left t [] h = absurd (cc)
  any_left t (r ∷ rows) h = ground (arith, any_left t rows)

  any_last :
      (t : AgentTask) (rows : List AgentTask)
      → has_hash hash t ≡ true
      → any (has_hash hash) (rows ++ t ∷ []) ≡ true
  any_last t [] h = ground arith
  any_last t (r ∷ rows) h = ground (arith, any_last t rows h)

  lease_known :
      (now a most : ℕ) (locked : ℕ → Bool) (q : Queue)
      → is_known hash q ≡ true
      → is_known hash (lease now a most locked q).0 ≡ true
  unfolding lease update_row
  lease_known now a most locked q h = elim (Bool-cases (ltb (count_if (held_by a) q.rows) most)) [
    | inr at_cap ↦ rw at_cap h
    | inl room ↦ elim (Option-cases (oldest (is_free locked) q.rows)) [
      | inl nothing ↦ rw (room, nothing) h
      | inr (t, found) ↦
          rw (room, found)
            (any-map (has_hash hash) (λ r. if r.id == t.id then leased_to now a r else r) q.rows
                (λ r. ground arith)
              ∙ h)
    ]
  ]

  after_op_known :
      (op : Op) (q : Queue)
      → KeepsRows op
      → is_known hash q ≡ true
      → is_known hash (after_op op q) ≡ true
  unfolding after_op
  after_op_known (enqueue_op now g) q keeps h =
      unfold enqueue_task in ground (arith, any_left (new_task q.next_id now g) q.rows h)
  after_op_known (reclaim_op now) q keeps h =
      unfold reclaim in any-map (has_hash hash) (reclaim_row now) q.rows (λ r. ground arith) ∙ h
  after_op_known (lease_op now a most locked) q keeps h = lease_known now a most locked q h
  after_op_known (renew_op now a) q keeps h =
      unfold renew_agent_leases in
      any-map (has_hash hash) (renew_row now a) q.rows (λ r. ground arith) ∙ h
  after_op_known (progress_op a t line) q keeps h =
      unfold record_task_progress in
      any-map (has_hash hash) (progress_row a t line) q.rows (λ r. ground arith) ∙ h
  after_op_known (close_op now a t finished reason) q keeps h =
      unfold close_task in
      any-map (has_hash hash) (close_row now a t finished reason) q.rows (λ r. ground arith) ∙ h
  after_op_known (delete_op t) q keeps h = elim keeps [ ]

  after_ops_known :
      (ops : List Op) (q : Queue)
      → All KeepsRows ops
      → is_known hash q ≡ true
      → is_known hash (after_ops ops q) ≡ true
  unfolding after_ops
  after_ops_known [] q keeps h = h
  after_ops_known (op ∷ ops) q (here, keeps) h =
      after_ops_known ops (after_op op q) keeps (after_op_known op q here h)

enqueue_known :
    (now : ℕ) (g : Grab) (q : Queue) → is_known g.info_hash (enqueue_task now g q).0 ≡ true
unfolding enqueue_task
enqueue_known now g q = elim (Bool-cases (any (has_hash g.info_hash) q.rows)) [
  | inl known ↦ rw known known
  | inr new ↦ rw new (any_last g.info_hash (new_task q.next_id now g) q.rows (beq_refl g.info_hash))
]

-- An info hash that was queued once is never queued again, whatever runs in between, as long as no
-- row is deleted: every later request for it is a conflict and leaves the rows as they are.
pub enqueue_once :
    (now later : ℕ) (g again : Grab) (ops : List Op) (q : Queue)
    → again.info_hash ≡ g.info_hash
    → All KeepsRows ops
    → let between = after_ops ops (enqueue_task now g q).0 in
      ((enqueue_task later again between).1 ≡ none)
      × ((enqueue_task later again between).0.rows ≡ between.rows)
enqueue_once now later g again ops q same keeps =
    let known =
      after_ops_known g.info_hash ops (enqueue_task now g q).0 keeps (enqueue_known now g q) in
    unfold enqueue_task in rw (same, known) (refl, refl)
