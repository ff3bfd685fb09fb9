-- ===== src/Thread.antt =====
-- threads/thread.c: the scheduler. Interrupts are off in every stretch that is one function here.
use os_project.Common.{
  ℕ, ◌+◌, Bool, true, false, not, ◌&&◌, ◌||◌, Option, none, some, List, [], ◌∷◌, ◌++◌, leb, ◌==◌,
  if◌then◌else◌, Result, ok, err, assert, assertion, ◌>>=◌, ◌>>◌, u32,
}
use os_project.Synch.{lock_init, lock_acquire_now, lock_release}
use os_project.Thread.State.{
  Status, running, ready, blocked, dying, is_running, is_blocked, is_dying, Thread, Scheduler,
  time_slice, pri_max, put, put_status, is_idle,
}
pub mod State
pub mod Counts
pub mod Switch
pub mod Moves
pub mod Arrivals
pub mod Create
pub mod Start
pub mod Fair
pub mod Steps
pub mod Tests

-- Zeroed, blocked and on the list of all threads, with the tid 0.
unfoldable pub init_thread : ℕ → ℕ → Scheduler → Result Scheduler
init_thread t priority s = do
  assert (not (t == 0))
  assert (leb priority pri_max)
  ok (record s {
    thread =
        put s.thread t
          (record { tid = 0; status = blocked; priority = priority; is_thread = true });
    all_list = s.all_list ++ (t ∷ []);
  })

unfoldable pub allocate_tid : Scheduler → Result (ℕ × Scheduler)
unfolding lock_acquire_now lock_release
allocate_tid s = do
  taken ← lock_acquire_now s.current s.tid_lock
  (woken, l) ← lock_release s.current taken
  ok (s.next_tid, record s { next_tid = u32 (s.next_tid + 1); tid_lock = l })

abbrev pub thread_current : Scheduler → Result ℕ
thread_current s = do
  assert (s.thread s.current).is_thread
  assert (is_running (s.thread s.current).status)
  ok s.current

unfoldable pub thread_unblock : ℕ → Scheduler → Result Scheduler
thread_unblock t s = do
  assert (s.thread t).is_thread
  assert (is_blocked (s.thread t).status)
  ok (put_status (record s { ready_list = s.ready_list ++ (t ∷ []) }) t ready)

-- `page` is what `palloc_get_page` returned. The new thread's tid, or none for TID_ERROR.
unfoldable pub thread_create : ℕ → ℕ → Scheduler → Result (Option ℕ × Scheduler)
unfolding init_thread allocate_tid thread_unblock
thread_create page priority s = if page == 0 then ok (none, s) else (do
  s1 ← init_thread page priority s
  (tid, s2) ← allocate_tid s1
  s3 ←
      thread_unblock page
        (record s2 { thread = put s2.thread page (record (s2.thread page) { tid = tid }) })
  ok (some tid, s3))

abbrev pub choose : Option ℕ → List ℕ → Option ℕ × List ℕ
choose idle_thread [] = (idle_thread, [])
choose idle_thread (t ∷ ts) = (some t, ts)

-- NULL while there is no idle thread.
abbrev pub next_thread_to_run : Scheduler → Option ℕ × List ℕ
next_thread_to_run s = choose s.idle_thread s.ready_list

-- The page of a thread that has died is filled with 0xcc and given back.
abbrev pub destroy : ℕ → Scheduler → Scheduler
destroy t s = record s {
  thread = put s.thread t (record (s.thread t) { is_thread = false });
  freed = t ∷ s.freed;
}

abbrev pub reap : Option ℕ → Scheduler → Result Scheduler
reap none s = ok s
reap (some prev) s =
    if is_dying (s.thread prev).status && not (prev == s.initial_thread)
    then (do assert (not (prev == s.current)); ok (destroy prev s))
    else ok s

unfoldable pub thread_schedule_tail : Option ℕ → Scheduler → Result Scheduler
thread_schedule_tail prev s =
    reap prev (record (put_status s s.current running) { thread_ticks = 0 })

-- `switch_threads` and what the next thread does behind it.
abbrev pub switch_to : Scheduler → Option ℕ × List ℕ → Result Scheduler
switch_to s (none, rest) = err assertion
switch_to s (some next, rest) = do
  assert (s.thread next).is_thread
  thread_schedule_tail (if s.current == next then none else some s.current)
      (record s { ready_list = rest; current = next })

unfoldable pub schedule : Scheduler → Result Scheduler
unfolding thread_schedule_tail
schedule s = do
  assert (not (is_running (s.thread s.current).status))
  switch_to s (next_thread_to_run s)

unfoldable pub thread_block : Scheduler → Result Scheduler
unfolding schedule
thread_block s = do cur ← thread_current s; schedule (put_status s cur blocked)

-- `list_remove`
abbrev pub remove : ℕ → List ℕ → List ℕ
remove t [] = []
remove t (u ∷ us) = if u == t then us else u ∷ remove t us

unfoldable pub thread_exit : Scheduler → Result Scheduler
unfolding schedule
thread_exit s = do
  cur ← thread_current s
  schedule (put_status (record s { all_list = remove cur s.all_list }) cur dying)

unfoldable pub thread_yield : Scheduler → Result Scheduler
unfolding schedule
thread_yield s = do
  cur ← thread_current s
  let queue = if is_idle s.idle_thread cur then s.ready_list else s.ready_list ++ (cur ∷ [])
  schedule (put_status (record s { ready_list = queue }) cur ready)

unfoldable pub thread_tick : Scheduler → Result Scheduler
thread_tick s = do
  t ← thread_current s
  let idle = is_idle s.idle_thread t
  let ticks = u32 (s.thread_ticks + 1)
  ok (record s {
    idle_ticks = if idle then s.idle_ticks + 1 else s.idle_ticks;
    kernel_ticks = if idle then s.kernel_ticks else s.kernel_ticks + 1;
    thread_ticks = ticks;
    yield_on_return = s.yield_on_return || leb time_slice ticks;
  })

-- The start of `idle`.
unfoldable pub idle : Scheduler → Result Scheduler
idle s = do t ← thread_current s; ok (record s { idle_thread = some t })

-- `page` is the page of the running code, `thread` what memory held before.
unfoldable pub thread_init : ℕ → (ℕ → Thread) → Result Scheduler
unfolding init_thread allocate_tid lock_init
thread_init page thread = do
  s ← init_thread page 31 (record {
    current = page;
    ready_list = [];
    all_list = [];
    idle_thread = none;
    initial_thread = page;
    tid_lock = lock_init;
    next_tid = 1;
    idle_ticks = 0;
    kernel_ticks = 0;
    thread_ticks = 0;
    yield_on_return = false;
    freed = [];
    thread = thread;
  })
  (tid, s') ← allocate_tid (put_status s page running)
  ok (record s' { thread = put s'.thread page (record (s'.thread page) { tid = tid }) })

abbrev pub thread_set_priority : ℕ → Scheduler → Result Scheduler
thread_set_priority priority s = do
  t ← thread_current s
  ok (record s { thread = put s.thread t (record (s.thread t) { priority = priority }) })
