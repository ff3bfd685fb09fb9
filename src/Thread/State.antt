-- ===== src/Thread/State.antt =====
-- The data of threads/thread.c. A thread is named by the address of its page.
use os_project.Common.{ℕ, Bool, true, false, Option, none, some, List, ◌==◌, if◌then◌else◌}
use os_project.Synch.{Lock}

-- `enum thread_status`
pub data Status : Type 0 where
  running ready blocked dying : Status

abbrev pub is_running : Status → Bool
is_running running = true
is_running ready = false
is_running blocked = false
is_running dying = false

abbrev pub is_ready : Status → Bool
is_ready running = false
is_ready ready = true
is_ready blocked = false
is_ready dying = false

abbrev pub is_blocked : Status → Bool
is_blocked running = false
is_blocked ready = false
is_blocked blocked = true
is_blocked dying = false

abbrev pub is_dying : Status → Bool
is_dying running = false
is_dying ready = false
is_dying blocked = false
is_dying dying = true

-- `struct thread`; `is_thread` tells whether the page holds the magic number.
pub record Thread : Type 0 where
  pub tid : ℕ
  pub status : Status
  pub priority : ℕ
  pub is_thread : Bool

-- The variables of the file; `current` is the page of the stack pointer. `yield_on_return` stands
-- for a call of `intr_yield_on_return`, `freed` for the calls of `palloc_free_page`.
pub record Scheduler : Type 0 where
  pub current : ℕ
  pub ready_list : List ℕ
  pub all_list : List ℕ
  pub idle_thread : Option ℕ
  pub initial_thread : ℕ
  pub tid_lock : Lock
  pub next_tid : ℕ
  pub idle_ticks : ℕ
  pub kernel_ticks : ℕ
  pub thread_ticks : ℕ
  pub yield_on_return : Bool
  pub freed : List ℕ
  pub thread : ℕ → Thread

abbrev pub time_slice : ℕ
time_slice = 4

abbrev pub pri_max : ℕ
pri_max = 63

abbrev pub put : (ℕ → Thread) → ℕ → Thread → ℕ → Thread
put thread t x u = if u == t then x else thread u

abbrev pub put_status : Scheduler → ℕ → Status → Scheduler
put_status s t status = record s {
  thread = put s.thread t (record (s.thread t) { status = status });
}

-- `t == idle_thread`
abbrev pub is_idle : Option ℕ → ℕ → Bool
is_idle none t = false
is_idle (some i) t = t == i
