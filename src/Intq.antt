-- ===== src/Intq.antt =====
-- devices/intq.c: the byte queue between threads and interrupt handlers. Interrupts are off in
-- every function, as its first line asserts, so a call is atomic between the points at which its
-- thread blocks; each stretch is a function here.
use os_project.Common.{
  ℕ, ◌+◌, ◌%◌, Bool, true, false, not, Option, none, some, List, [], ◌∷◌, ◌++◌, get_or, set,
  replicate, ◌==◌, if◌then◌else◌, Result, ok, assert, ◌>>=◌, ◌>>◌,
}
use os_project.Synch.{
  Lock, Acquire, acquired, waiting, lock_init, lock_acquire, lock_release, sema_down,
  finish_acquire,
}
pub mod Queue
pub mod Waiting
pub mod TwoReaders
pub mod Tests

abbrev pub bufsize : ℕ
bufsize = 64

-- `struct intq`; the threads that wait for the two conditions.
pub record Intq : Type 0 where
  pub lock : Lock
  pub not_full : Option ℕ
  pub not_empty : Option ℕ
  pub buf : List ℕ
  pub head : ℕ
  pub tail : ℕ

-- The buffer's bytes are left as they are.
unfoldable pub intq_init : List ℕ → Intq
unfolding lock_init
intq_init bytes = record {
  lock = lock_init;
  not_full = none;
  not_empty = none;
  buf = bytes;
  head = 0;
  tail = 0;
}

abbrev pub next : ℕ → ℕ
next pos = (pos + 1) % bufsize

abbrev pub intq_empty : Intq → Bool
intq_empty q = q.head == q.tail

abbrev pub intq_full : Intq → Bool
intq_full q = next q.head == q.tail

-- How far a call has come: it has returned a value, or its thread is blocked in `lock_acquire` or
-- in `wait`. The list is the threads that it has handed to `thread_unblock`.
pub data Progress {ℓ} (A : Type ℓ) : Type ℓ where
  returned : A → List ℕ → Intq → Progress A
  at_lock at_wait : List ℕ → Intq → Progress A

abbrev pub as_list : Option ℕ → List ℕ
as_list none = []
as_list (some t) = t ∷ []

-- `wait` and `signal` for the two members.
unfoldable pub wait_not_empty : ℕ → Intq → Result Intq
wait_not_empty cur q = do assert (intq_empty q); ok (record q { not_empty = some cur })

unfoldable pub wait_not_full : ℕ → Intq → Result Intq
wait_not_full cur q = do assert (intq_full q); ok (record q { not_full = some cur })

unfoldable pub signal_not_full : Intq → Result (List ℕ × Intq)
signal_not_full q = do
  assert (not (intq_full q))
  ok (as_list q.not_full, record q { not_full = none })

unfoldable pub signal_not_empty : Intq → Result (List ℕ × Intq)
signal_not_empty q = do
  assert (not (intq_empty q))
  ok (as_list q.not_empty, record q { not_empty = none })

-- What follows `lock_acquire` in `intq_getc`.
unfoldable pub getc_locked : ℕ → List ℕ → Intq → Acquire → Result (Progress ℕ)
unfolding wait_not_empty
getc_locked cur woken q (acquired l) = do
  q' ← wait_not_empty cur (record q { lock = l })
  ok (at_wait woken q')
getc_locked cur woken q (waiting l) = ok (at_lock woken (record q { lock = l }))

-- `intq_getc` from the loop on; `intr_context` tells whether an interrupt handler calls it.
unfoldable pub getc_loop : ℕ → Bool → List ℕ → Intq → Result (Progress ℕ)
unfolding getc_locked signal_not_full lock_acquire
getc_loop cur intr_context woken q =
    if intq_empty q
    then (do assert (not intr_context); a ← lock_acquire cur q.lock; getc_locked cur woken q a)
    else (do
      let byte = get_or q.buf q.tail 0
      (signalled, q') ← signal_not_full (record q { tail = next q.tail })
      ok (returned byte (woken ++ signalled) q'))

unfoldable pub intq_getc : ℕ → Bool → Intq → Result (Progress ℕ)
unfolding getc_loop
intq_getc cur intr_context q = getc_loop cur intr_context [] q

-- The thread runs again after `lock_acquire` blocked: the loop of `sema_down` makes another pass.
unfoldable pub getc_retry_lock : ℕ → Intq → Result (Progress ℕ)
unfolding getc_locked sema_down
getc_retry_lock cur q =
    getc_locked cur [] q (finish_acquire cur q.lock (sema_down cur q.lock.semaphore))

-- The thread runs again after `wait` blocked.
unfoldable pub getc_woken : ℕ → Intq → Result (Progress ℕ)
unfolding getc_loop lock_release
getc_woken cur q = do
  (woken, l) ← lock_release cur q.lock
  getc_loop cur false (as_list woken) (record q { lock = l })

unfoldable pub putc_locked : ℕ → List ℕ → Intq → Acquire → Result (Progress (Unit {0}))
unfolding wait_not_full
putc_locked cur woken q (acquired l) = do
  q' ← wait_not_full cur (record q { lock = l })
  ok (at_wait woken q')
putc_locked cur woken q (waiting l) = ok (at_lock woken (record q { lock = l }))

unfoldable pub putc_loop : ℕ → Bool → ℕ → List ℕ → Intq → Result (Progress (Unit {0}))
unfolding putc_locked signal_not_empty lock_acquire
putc_loop cur intr_context byte woken q =
    if intq_full q
    then (do assert (not intr_context); a ← lock_acquire cur q.lock; putc_locked cur woken q a)
    else (do
      (signalled, q') ←
          signal_not_empty (record q { buf = set q.buf q.head byte; head = next q.head })
      ok (returned tt (woken ++ signalled) q'))

unfoldable pub intq_putc : ℕ → Bool → ℕ → Intq → Result (Progress (Unit {0}))
unfolding putc_loop
intq_putc cur intr_context byte q = putc_loop cur intr_context byte [] q

unfoldable pub putc_retry_lock : ℕ → Intq → Result (Progress (Unit {0}))
unfolding putc_locked sema_down
putc_retry_lock cur q =
    putc_locked cur [] q (finish_acquire cur q.lock (sema_down cur q.lock.semaphore))

unfoldable pub putc_woken : ℕ → ℕ → Intq → Result (Progress (Unit {0}))
unfolding putc_loop lock_release
putc_woken cur byte q = do
  (woken, l) ← lock_release cur q.lock
  putc_loop cur false byte (as_list woken) (record q { lock = l })
