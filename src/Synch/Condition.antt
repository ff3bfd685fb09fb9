-- ===== src/Synch/Condition.antt =====
-- Condition variables of threads/synch.c. `cond_wait` is cut where its thread can lose the
-- processor: here it ends behind `lock_release`; `sema_down` on the waiter's semaphore and
-- `lock_acquire` follow.
use os_project.Common.{
  ℕ, zero, suc, ◌≡◌, refl, true, Option, none, some, List, [], ◌∷◌, ◌++◌, length, Result, ok, err,
  out_of_fuel, assert, ◌>>=◌, ◌>>◌,
}
use os_project.Synch.{
  Semaphore, sema_init, sema_up, Lock, lock_release, lock_held_by_current_thread,
}

-- `struct condition`: the semaphores on the stacks of the threads that wait, with the thread.
pub record Condition : Type 0 where
  pub waiters : List (ℕ × Semaphore)

unfoldable pub cond_init : Condition
cond_init = record { waiters = [] }

-- Up to the release of the lock, which may make a thread ready.
unfoldable pub cond_wait : ℕ → Condition → Lock → Result (Option ℕ × Condition × Lock)
unfolding sema_init lock_release
cond_wait cur cond lock = do
  assert (lock_held_by_current_thread cur lock)
  (woken, l) ← lock_release cur lock
  ok (woken, record { waiters = cond.waiters ++ ((cur, sema_init 0) ∷ []) }, l)

abbrev pub listed : Option ℕ → List ℕ
listed none = []
listed (some t) = t ∷ []

-- The threads made ready, the semaphores raised, and the condition.
pub record Signalled : Type 0 where
  pub woken : List ℕ
  pub raised : List (ℕ × Semaphore)
  pub rest : List (ℕ × Semaphore)

-- `list_pop_front` and `sema_up`, if there is a waiter.
unfoldable signal_first : List (ℕ × Semaphore) → Signalled
unfolding sema_up
signal_first [] = record { woken = []; raised = []; rest = [] }
signal_first ((t, s) ∷ ws) =
    let (w, raised) = sema_up s in record { woken = listed w; raised = (t, raised) ∷ []; rest = ws }

unfoldable pub cond_signal : ℕ → Condition → Lock → Result Signalled
unfolding signal_first
cond_signal cur cond lock = do
  assert (lock_held_by_current_thread cur lock)
  ok (signal_first cond.waiters)

-- The loop of `cond_broadcast`: a round for each waiter, and the one that ends it.
unfoldable pub broadcast_loop : ℕ → ℕ → List (ℕ × Semaphore) → Lock → Result Signalled
unfolding cond_signal
broadcast_loop zero cur waiters lock = err out_of_fuel
broadcast_loop (suc fuel) cur [] lock = ok (record { woken = []; raised = []; rest = [] })
broadcast_loop (suc fuel) cur (w ∷ ws) lock = do
  first ← cond_signal cur (record { waiters = w ∷ ws }) lock
  others ← broadcast_loop fuel cur first.rest lock
  ok (record {
    woken = first.woken ++ others.woken;
    raised = first.raised ++ others.raised;
    rest = others.rest;
  })

unfoldable pub cond_broadcast : ℕ → Condition → Lock → Result Signalled
unfolding broadcast_loop
cond_broadcast cur cond lock = broadcast_loop (suc (length cond.waiters)) cur cond.waiters lock

-- The waiters of threads that all sleep in `cond_wait`.
abbrev pub sleepers : List ℕ → List (ℕ × Semaphore)
sleepers [] = []
sleepers (t ∷ ts) = (t, record { value = 0; waiters = t ∷ [] }) ∷ sleepers ts

-- The same semaphores after each has been raised: the next pass of `sema_down` gets through.
abbrev pub raised_for : List ℕ → List (ℕ × Semaphore)
raised_for [] = []
raised_for (t ∷ ts) = (t, record { value = 1; waiters = [] }) ∷ raised_for ts

broadcast_loop_lem :
    (cur : ℕ) (lock : Lock) (ts : List ℕ)
    → lock_held_by_current_thread cur lock ≡ true
    → broadcast_loop (suc (length (sleepers ts))) cur (sleepers ts) lock
      ≡ ok (record { woken = ts; raised = raised_for ts; rest = [] })
unfolding broadcast_loop
broadcast_loop_lem cur lock [] h = refl
broadcast_loop_lem cur lock (t ∷ ts) h = rw (h, broadcast_loop_lem cur lock ts h) refl

-- cond_broadcast by the thread that holds the lock makes every sleeping waiter ready, in the order
-- in which they came to wait, raises each one's semaphore from 0 to 1, and leaves no waiter.
pub cond_broadcast_lem :
    (cur : ℕ) (lock : Lock) (ts : List ℕ)
    → lock_held_by_current_thread cur lock ≡ true
    → cond_broadcast cur (record { waiters = sleepers ts }) lock
      ≡ ok (record { woken = ts; raised = raised_for ts; rest = [] })
unfolding cond_broadcast
cond_broadcast_lem cur lock ts h = broadcast_loop_lem cur lock ts h
