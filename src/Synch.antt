-- ===== src/Synch.antt =====
-- threads/synch.c: semaphores and locks. A thread is a number; the waiting threads are listed in
-- the order in which they came. Interrupts are off inside each function, so it is atomic up to the
-- point where the thread blocks.
pub mod Locks
pub mod Condition
pub mod Tests
use os_project.Common.{
  ℕ, ◌+◌, ◌-◌, Bool, true, false, not, Option, none, some, List, [], ◌∷◌, ◌++◌, ◌==◌, if◌then◌else◌,
  Result, ok, err, sleeps, assert, ◌>>=◌, ◌>>◌, u32,
}

-- `struct semaphore`
pub record Semaphore : Type 0 where
  pub value : ℕ
  pub waiters : List ℕ

-- `struct lock`
pub record Lock : Type 0 where
  pub holder : Option ℕ
  pub semaphore : Semaphore

unfoldable pub sema_init : ℕ → Semaphore
sema_init value = record { value = value; waiters = [] }

-- One pass of the loop in `sema_down`: the thread gets through, or it is queued and blocks, and
-- makes the next pass when it is woken.
pub data Down : Type 0 where
  passed blocked : Semaphore → Down

unfoldable pub sema_down : ℕ → Semaphore → Down
sema_down cur s =
    if s.value == 0
    then blocked (record s { waiters = s.waiters ++ (cur ∷ []) })
    else passed (record s { value = s.value - 1 })

unfoldable pub sema_try_down : Semaphore → Bool × Semaphore
sema_try_down s = if s.value == 0 then (false, s) else (true, record s { value = s.value - 1 })

-- `list_pop_front` of the waiting threads.
abbrev pub pop_waiter : List ℕ → Option ℕ × List ℕ
pop_waiter [] = (none, [])
pop_waiter (t ∷ ts) = (some t, ts)

-- The thread that is handed to `thread_unblock`, if any, and the semaphore.
unfoldable pub sema_up : Semaphore → Option ℕ × Semaphore
sema_up s =
    let (woken, rest) = pop_waiter s.waiters in
    (woken, record { value = u32 (s.value + 1); waiters = rest })

unfoldable pub lock_init : Lock
unfolding sema_init
lock_init = record { holder = none; semaphore = sema_init 1 }

-- `lock->holder == thread_current ()`
abbrev pub is_held_by : Option ℕ → ℕ → Bool
is_held_by none cur = false
is_held_by (some t) cur = t == cur

abbrev pub lock_held_by_current_thread : ℕ → Lock → Bool
lock_held_by_current_thread cur l = is_held_by l.holder cur

-- A thread that does not get through at once blocks, with itself on the list of waiters.
pub data Acquire : Type 0 where
  acquired waiting : Lock → Acquire

abbrev pub finish_acquire : ℕ → Lock → Down → Acquire
finish_acquire cur l (passed s) = acquired (record { holder = some cur; semaphore = s })
finish_acquire cur l (blocked s) = waiting (record l { semaphore = s })

unfoldable pub lock_acquire : ℕ → Lock → Result Acquire
unfolding sema_down
lock_acquire cur l = do
  assert (not (lock_held_by_current_thread cur l))
  ok (finish_acquire cur l (sema_down cur l.semaphore))

unfoldable pub lock_try_acquire : ℕ → Lock → Result (Bool × Lock)
unfolding sema_try_down
lock_try_acquire cur l = do
  assert (not (lock_held_by_current_thread cur l))
  let (success, s) = sema_try_down l.semaphore
  ok (success, record { holder = if success then some cur else l.holder; semaphore = s })

-- The woken thread, if any, and the lock.
unfoldable pub lock_release : ℕ → Lock → Result (Option ℕ × Lock)
unfolding sema_up
lock_release cur l = do
  assert (lock_held_by_current_thread cur l)
  let (woken, s) = sema_up l.semaphore
  ok (woken, record { holder = none; semaphore = s })

-- For a caller that does not model what happens while it sleeps.
abbrev enter : Acquire → Result Lock
enter (acquired l) = ok l
enter (waiting l) = err sleeps

unfoldable pub lock_acquire_now : ℕ → Lock → Result Lock
unfolding lock_acquire
lock_acquire_now cur l = do a ← lock_acquire cur l; enter a
