-- ===== src/TaskQueue/Tests.antt =====
-- Tests of the task queue's model, and its theorems at concrete inputs.
use loon_site.Prelude.{ℕ, ◌≤◌, ◌≡◌, refl, String, Bool, true, false, none, List, [], ◌∷◌, arith}
use loon_site.Prelude.Int.{ℤ, pos}
use loon_site.TaskQueue.{
  AgentTask, Grab, Queue, TaskState, queued, leased, completed, enqueue_task, reclaim, lease,
  lease_next_task, renew_agent_leases, close_task, leased_to, new_task, is_stale, is_free,
  update_row, wire_request_id, count_tasks,
}
use loon_site.TaskQueue.Rows.{
  Op, enqueue_op, lease_op, close_op, renew_op, reclaim_op, delete_op, after_ops, empty_queue,
  IsOldest,
}
use loon_site.TaskQueue.Invariant.{IsValid, after_ops-IsValid}
use loon_site.TaskQueue.Lease.{held, held-after_ops}
use loon_site.TaskQueue.Close.{close_once}
use loon_site.TaskQueue.Dedup.{enqueue_once}

abbrev grab_of : String → ℤ → Grab
grab_of hash request = record {
  info_hash = hash;
  magnet = none;
  download_url = none;
  tracker_slug = none;
  title = "a title";
  category = none;
  season = none;
  episode = none;
  imdb_id = none;
  tvdb_id = none;
  tmdb_id = none;
  request_id = request;
}

abbrev first_grab : Grab
first_grab = grab_of "aa" (pos 0)

abbrev second_grab : Grab
second_grab = grab_of "bb" (pos 41)

abbrev unlocked : ℕ → Bool
unlocked id = false

-- Two grabs queued.
abbrev two_queued : Queue
two_queued = record {
  rows = new_task 1 100 first_grab ∷ new_task 2 101 second_grab ∷ [];
  next_id = 3;
}

two_queued_ops :
    after_ops (enqueue_op 100 first_grab ∷ enqueue_op 101 second_grab ∷ []) empty_queue ≡ two_queued
unfolding after_ops loon_site.TaskQueue.Rows.after_op enqueue_task
two_queued_ops = refl

two_queued-IsValid : IsValid two_queued
two_queued-IsValid = record {
  rows_ok = ((omega arith, (refl, refl, refl)), ((omega arith, (refl, refl, refl)), tt));
  ids = (refl, (refl, tt));
  hashes = (refl, (refl, tt));
}

wire_own : wire_request_id (new_task 1 100 first_grab) ≡ pos 1
unfolding wire_request_id
wire_own = refl

abbrev shift : List Op
shift =
    lease_op 110 7 1 unlocked
    ∷ lease_op 111 7 1 unlocked
    ∷ renew_op 500 7
    ∷ close_op 600 7 1 true ""
    ∷ []

after_shift : (count_tasks (after_ops shift two_queued)).completed_count ≡ 1
unfolding after_ops count_tasks loon_site.TaskQueue.Rows.after_op close_task renew_agent_leases
    lease loon_site.TaskQueue.held_by loon_site.TaskQueue.oldest update_row
    loon_site.TaskQueue.is_own_lease
after_shift = refl

after_ops-IsValid_example : IsValid (after_ops shift two_queued)
after_ops-IsValid_example = after_ops-IsValid shift two_queued two_queued-IsValid

held-after_ops_example : held 7 (after_ops shift two_queued) ≤ 1
unfolding loon_site.TaskQueue.held_by
held-after_ops_example =
    held-after_ops 7 1 shift two_queued ((λ e. omega arith), ((λ e. omega arith), (tt, (tt, tt))))
      two_queued-IsValid (unfold held in omega arith)

-- Agent 7 holds the older one.
abbrev one_leased : Queue
one_leased = record two_queued {
  rows = leased_to 110 7 (new_task 1 100 first_grab) ∷ new_task 2 101 second_grab ∷ [];
}

one_leased_op : (lease_next_task 110 7 0 unlocked two_queued).0 ≡ one_leased
unfolding lease_next_task lease reclaim loon_site.TaskQueue.held_by is_stale
    loon_site.TaskQueue.oldest update_row
one_leased_op = refl

one_leased-IsValid : IsValid one_leased
one_leased-IsValid = record {
  rows_ok =
      ((omega arith, ((7, refl), (110, refl), refl)), ((omega arith, (refl, refl, refl)), tt));
  ids = (refl, (refl, tt));
  hashes = (refl, (refl, tt));
}

close_once_example :
    let between =
      after_ops
        (reclaim_op 5000 ∷ lease_op 5001 8 1 unlocked ∷ [])
        (close_task 600 7 1 true "" one_leased).0 in
    ((close_task 6000 8 1 false "late" between).1 ≡ false)
    × ((close_task 6000 8 1 false "late" between).0 ≡ between)
unfolding loon_site.TaskQueue.is_own_lease
close_once_example =
    close_once 1 600 6000 7 8 true false "" "late"
      (reclaim_op 5000 ∷ lease_op 5001 8 1 unlocked ∷ []) one_leased one_leased-IsValid
      (unfold close_task in refl)

enqueue_once_example :
    let between = after_ops shift (enqueue_task 100 second_grab empty_queue).0 in
    ((enqueue_task 900 (grab_of "bb" (pos 0)) between).1 ≡ none)
    × ((enqueue_task 900 (grab_of "bb" (pos 0)) between).0.rows ≡ between.rows)
enqueue_once_example =
    enqueue_once 100 900 second_grab (grab_of "bb" (pos 0)) shift empty_queue refl
      (tt, (tt, (tt, (tt, tt))))

-- A lease of 900 seconds stands, and falls a second later.
ttl_edge : (held 7 (reclaim 1010 one_leased) ≡ 1) × (held 7 (reclaim 1011 one_leased) ≡ 0)
unfolding reclaim loon_site.TaskQueue.held_by is_stale
ttl_edge = (refl, refl)
