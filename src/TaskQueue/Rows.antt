-- ===== src/TaskQueue/Rows.antt =====
-- The statements of the queue as calls, in any order, and facts about changing rows one by one.
use loon_site.Prelude.{
  ℕ, ◌+◌, ◌≤◌, ◌≡◌, ◌⊎◌, refl, sym, subst, ◌∙◌, Bool, true, false, none, some, List, [], ◌∷◌, ◌++◌,
  String, map, ltb, nat_eq, string_eq, if◌then◌else◌, count_if, any, keep, All, arith, Bool-cases,
  Option-cases, inl, inr,
}
use loon_site.TaskQueue.{
  AgentTask, Grab, Queue, enqueue_task, reclaim, lease, renew_agent_leases, record_task_progress,
  close_task, delete_task, oldest,
}

-- One statement that the program sends.
pub data Op : Type 0 where
  enqueue_op : ℕ → Grab → Op
  reclaim_op : ℕ → Op
  lease_op : ℕ → ℕ → ℕ → (ℕ → Bool) → Op
  renew_op : ℕ → ℕ → Op
  progress_op : ℕ → ℕ → String → Op
  close_op : ℕ → ℕ → ℕ → Bool → String → Op
  delete_op : ℕ → Op

unfoldable pub after_op : Op → Queue → Queue
after_op (enqueue_op now g) q = (enqueue_task now g q).0
after_op (reclaim_op now) q = reclaim now q
after_op (lease_op now agent most locked) q = (lease now agent most locked q).0
after_op (renew_op now agent) q = renew_agent_leases now agent q
after_op (progress_op agent task line) q = record_task_progress agent task line q
after_op (close_op now agent task done reason) q = (close_task now agent task done reason q).0
after_op (delete_op task) q = delete_task task q

unfoldable pub after_ops : List Op → Queue → Queue
after_ops [] q = q
after_ops (op ∷ ops) q = after_ops ops (after_op op q)

abbrev pub empty_queue : Queue
empty_queue = record { rows = []; next_id = 1 }

-- A row of the table.
abbrev pub Has : AgentTask → List AgentTask → Type 0
Has t [] = ⊥
Has t (r ∷ rows) = (r ≡ t) ⊎ Has t rows

pub Has-All :
    (P : AgentTask → Type 0) (t : AgentTask) (rows : List AgentTask) → Has t rows → All P rows → P t
Has-All P t [] at h = elim at [ ]
Has-All P t (r ∷ rows) (inl here) (p, h) = subst P here p
Has-All P t (r ∷ rows) (inr later) (p, h) = Has-All P t rows later h

-- A change of single rows that can only lower a count.
pub count_if-map-le :
    (p : AgentTask → Bool) (f : AgentTask → AgentTask) (rows : List AgentTask)
    → ((r : AgentTask) → p (f r) ≡ true → p r ≡ true)
    → count_if p (map f rows) ≤ count_if p rows
count_if-map-le p f [] h = omega arith
count_if-map-le p f (r ∷ rows) h = ground (arith, h r, count_if-map-le p f rows h)

pub count_if-keep-le :
    (p k : AgentTask → Bool) (rows : List AgentTask) → count_if p (keep k rows) ≤ count_if p rows
count_if-keep-le p k [] = omega arith
count_if-keep-le p k (r ∷ rows) = ground (arith, count_if-keep-le p k rows)

-- A change of the rows that pass a test.
pub count_if-update-le :
    (p c : AgentTask → Bool) (f : AgentTask → AgentTask) (rows : List AgentTask)
    → count_if p (map (λ r. if c r then f r else r) rows) ≤ count_if p rows + count_if c rows
count_if-update-le p c f [] = omega arith
count_if-update-le p c f (r ∷ rows) = ground (arith, count_if-update-le p c f rows)

pub any-map :
    (p : AgentTask → Bool) (f : AgentTask → AgentTask) (rows : List AgentTask)
    → ((r : AgentTask) → p (f r) ≡ p r)
    → any p (map f rows) ≡ any p rows
any-map p f [] h = refl
any-map p f (r ∷ rows) h = ground (arith, h r, any-map p f rows h)

-- No two rows alike, by a test such as the equality of a column.
module _ (same : AgentTask → AgentTask → Bool) where
  abbrev pub Unlike : List AgentTask → Type 0
  Unlike [] = Unit
  Unlike (r ∷ rows) = (any (same r) rows ≡ false) × Unlike rows

  any-map-same :
      (f : AgentTask → AgentTask) (r : AgentTask) (rows : List AgentTask)
      → ((r s : AgentTask) → same (f r) (f s) ≡ same r s)
      → any (same (f r)) (map f rows) ≡ any (same r) rows
  any-map-same f r [] h = refl
  any-map-same f r (s ∷ rows) h = ground (arith, h r s, any-map-same f r rows h)

  pub map-Unlike :
      (f : AgentTask → AgentTask) (rows : List AgentTask)
      → ((r s : AgentTask) → same (f r) (f s) ≡ same r s)
      → Unlike rows
      → Unlike (map f rows)
  map-Unlike f [] h u = u
  map-Unlike f (r ∷ rows) h (new, u) = (any-map-same f r rows h ∙ new, map-Unlike f rows h u)

  any-keep :
      (p k : AgentTask → Bool) (rows : List AgentTask)
      → any p rows ≡ false
      → any p (keep k rows) ≡ false
  any-keep p k [] h = h
  any-keep p k (r ∷ rows) h = ground (arith, any-keep p k rows)

  pub keep-Unlike :
      (k : AgentTask → Bool) (rows : List AgentTask) → Unlike rows → Unlike (keep k rows)
  keep-Unlike k [] u = u
  keep-Unlike k (r ∷ rows) (new, u) =
      ground (arith, any-keep (same r) k rows new, keep-Unlike k rows u)

  any-snoc :
      (p : AgentTask → Bool) (t : AgentTask) (rows : List AgentTask)
      → any p rows ≡ false
      → p t ≡ false
      → any p (rows ++ t ∷ []) ≡ false
  any-snoc p t [] h e = ground arith
  any-snoc p t (r ∷ rows) h e = ground (arith, any-snoc p t rows)

  pub snoc-Unlike :
      (t : AgentTask) (rows : List AgentTask)
      → All (λ r. same r t ≡ false) rows
      → Unlike rows
      → Unlike (rows ++ t ∷ [])
  snoc-Unlike t [] h u = (refl, tt)
  snoc-Unlike t (r ∷ rows) (other, h) (new, u) =
      (any-snoc (same r) t rows new other, snoc-Unlike t rows h u)

pub All-every :
    (P : AgentTask → Type 0) (rows : List AgentTask) → ((r : AgentTask) → P r) → All P rows
All-every P [] h = tt
All-every P (r ∷ rows) h = (h r, All-every P rows h)

pub All-apply :
    (P Q : AgentTask → Type 0) (rows : List AgentTask)
    → All (λ r. P r → Q r) rows
    → All P rows
    → All Q rows
All-apply P Q [] h k = tt
All-apply P Q (r ∷ rows) (f, h) (p, k) = (f p, All-apply P Q rows h k)

pub All-of_map :
    (P : AgentTask → Type 0) (f : AgentTask → AgentTask) (rows : List AgentTask)
    → All (λ r. P (f r)) rows
    → All P (map f rows)
All-of_map P f [] h = tt
All-of_map P f (r ∷ rows) (p, h) = (p, All-of_map P f rows h)

-- What `ORDER BY created_at LIMIT 1` picks: a row of the table that passes the test, and no row
-- that passes it is older.
abbrev pub IsOldest : (AgentTask → Bool) → List AgentTask → AgentTask → Type 0
IsOldest p rows t =
    Has t rows × (p t ≡ true) × All (λ r. p r ≡ true → t.created_at ≤ r.created_at) rows

pub oldest-none :
    (p : AgentTask → Bool) (rows : List AgentTask)
    → oldest p rows ≡ none
    → All (λ r. p r ≡ false) rows
unfolding oldest
oldest-none p [] h = tt
oldest-none p (r ∷ rows) h = elim (Option-cases (oldest p rows)) [
  | inl alone ↦ (ground arith, oldest-none p rows alone)
  | inr (best, found) ↦ absurd (ground arith)
]

pub oldest-IsOldest :
    (p : AgentTask → Bool) (rows : List AgentTask) (t : AgentTask)
    → oldest p rows ≡ some t
    → IsOldest p rows t
unfolding oldest
oldest-IsOldest p [] t h = absurd (cc)
oldest-IsOldest p (r ∷ rows) t h = elim (Bool-cases (p r)) [
  | inr fails ↦
      let (there, passes, oldest_of) = oldest-IsOldest p rows t (rw (fails, oldest) at h) in
      (inr there, passes, ((λ passes'. absurd (let c = sym fails ∙ passes' in cc)), oldest_of))
  | inl passes ↦ elim (Option-cases (oldest p rows)) [
    | inl alone ↦
        let same : r ≡ t = ground arith in
        subst (IsOldest p (r ∷ rows)) same (
          inl refl,
          passes,
          (
            (λ _. omega arith),
            All-apply _ _ rows
                (All-every _ rows (λ s fails ok. absurd (let c = sym fails ∙ ok in cc)))
                (oldest-none p rows alone),
          ),
        )
    | inr (best, found) ↦
        let (there, ok, oldest_of) = oldest-IsOldest p rows best found in
        elim (Bool-cases (ltb best.created_at r.created_at)) [
          | inl newer ↦
              let same : best ≡ t = ground arith in
              subst (IsOldest p (r ∷ rows)) same (inr there, ok, ((λ _. ground arith), oldest_of))
          | inr first ↦
              let same : r ≡ t = ground arith in
              let le : r.created_at ≤ best.created_at = ground arith in
              subst (IsOldest p (r ∷ rows)) same (
                inl refl,
                passes,
                (
                  (λ _. omega arith),
                  All-apply _ _ rows
                      (All-every _ rows (λ s bound ok'. let b = bound ok' in omega arith))
                      oldest_of,
                ),
              )
        ]
  ]
]
