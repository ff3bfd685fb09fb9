-- ===== src/Intq/Waiting.antt =====
-- Blocking in devices/intq.c.
use os_project.Common.{
  ℕ, ◌<◌, ◌≡◌, refl, sym, Bool, true, false, some, [], ◌∷◌, ◌==◌, arith, if◌then◌else◌, ok, err,
  assertion,
}
use mathlib.Core.Path.{subst}
use os_project.Synch.{lock_init, lock_acquire}
use os_project.Synch.Locks.{IsFree, held, lock_init-IsFree}
use os_project.Intq.{
  Intq, returned, at_wait, as_list, intq_getc, getc_woken, getc_locked, wait_not_empty,
}
use os_project.Intq.Queue.{IsValid, used, bytes, intq_getc_lem}

-- intq_getc in an empty queue fails its assertion in an interrupt handler; a thread that finds the
-- lock free blocks until a byte comes, as the queue's waiting thread and the holder of its lock.
pub intq_getc-empty :
    (cur : ℕ) (intr_context : Bool) (q : Intq)
    → IsValid q
    → used q ≡ 0
    → IsFree q.lock
    → intq_getc cur intr_context q ≡ (
        if intr_context
        then err assertion
        else ok (at_wait [] (record q { lock = held cur; not_empty = some cur })))
unfolding intq_getc lock_acquire getc_locked wait_not_empty
intq_getc-empty cur true q v empty free =
    let e : (q.head == q.tail) ≡ true = ground (arith, v.head_in, v.tail_in) in rw e refl
intq_getc-empty cur false q v empty free =
    let e : (q.head == q.tail) ≡ true = ground (arith, v.head_in, v.tail_in) in
    rw (e, free.holder, free.value, e, free.waiters) refl

-- When the thread that waits runs again and finds a byte, it returns it and leaves the lock free.
pub getc_woken_lem :
    (cur : ℕ) (q : Intq)
    → IsValid q
    → 0 < used q
    → q.lock ≡ held cur
    → (b : ℕ) × (q' : Intq) × (getc_woken cur q ≡ ok (returned b (as_list q.not_full) q'))
      × IsFree q'.lock
      × (bytes q ≡ b ∷ bytes q')
unfolding getc_woken intq_getc lock_init
getc_woken_lem cur q v some_bytes h =
    let self : (cur == cur) ≡ true = ground arith in
    let unlocked = record q { lock = lock_init } in
    let (b, q', e, got) =
      intq_getc_lem cur false unlocked
        (record { buffer = v.buffer; head_in = v.head_in; tail_in = v.tail_in }) some_bytes in
    (b, q', rw (h, self) e, subst IsFree (sym got.lock_kept) lock_init-IsFree, got.contents)
