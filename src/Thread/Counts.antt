-- ===== src/Thread/Counts.antt =====
-- How often a thread is on a list of threads/thread.c, and the invariant of the scheduler.
use os_project.Common.{
  one_if, count, ℕ, ◌-◌, ◌≤◌, ◌≡◌, true, false, not, ◌&&◌, some, List, [], ◌∷◌, ◌==◌, if◌then◌else◌,
  arith,
}
use os_project.Thread.State.{running, is_running, is_ready, is_dying, Scheduler, is_idle}
use os_project.Thread.{remove}

pub count-remove : (t u : ℕ) (us : List ℕ) → count t (remove u us) ≡ count t us - one_if (u == t)
count-remove t u [] = ground arith
count-remove t u (v ∷ vs) = ground (arith, count-remove t u vs)

-- A thread is on the list of all threads at most once, then alive; it is on the ready list, once,
-- when it is ready and not the idle thread.
pub record IsPlaced (s : Scheduler) (t : ℕ) : Type 0 where
  pub once : count t s.all_list ≤ 1
  pub queued : count t s.ready_list ≡ (
      if count t s.all_list == 1 && (is_ready (s.thread t).status && not (is_idle s.idle_thread t))
      then 1
      else 0)
  pub alive : count t s.all_list ≡ 1 → (s.thread t).is_thread ≡ true
  pub undead : count t s.all_list ≡ 1 → is_dying (s.thread t).status ≡ false

-- The lists are in order.
pub record IsOrdered (s : Scheduler) : Type 0 where
  pub placed : (t : ℕ) → IsPlaced s t
  pub idle_listed : (i : ℕ) → s.idle_thread ≡ some i → count i s.all_list ≡ 1

-- Between two calls: the running thread is the only one with that status.
pub record IsValid (s : Scheduler) : Type 0 where
  pub ordered : IsOrdered s
  pub current_listed : count s.current s.all_list ≡ 1
  pub current_runs : (s.thread s.current).status ≡ running
  pub others :
      (t : ℕ) → count t s.all_list ≡ 1 → is_running (s.thread t).status ≡ true → t ≡ s.current

-- At the call of `schedule`, when the running thread has got another status.
pub record IsStopped (s : Scheduler) : Type 0 where
  pub ordered : IsOrdered s
  pub stopped : is_running (s.thread s.current).status ≡ false
  pub nobody : (t : ℕ) → count t s.all_list ≡ 1 → is_running (s.thread t).status ≡ false
