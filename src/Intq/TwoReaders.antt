-- ===== src/Intq/TwoReaders.antt =====
-- Two threads that wait for a byte of devices/intq.c at the same time.
use os_project.Common.{
  ℕ, suc, ◌<◌, ◌≡◌, refl, sym, ap, ◌∙◌, true, false, Option, none, some, List, [], ◌∷◌, ◌++◌,
  length, get_or, ◌==◌, arith, ok, err, assertion,
}
use os_project.Synch.{
  Lock, acquired, sema_down, finish_acquire, lock_init, lock_acquire, lock_release,
}
use os_project.Synch.Locks.{IsFree, held, lock_init-IsFree}
use os_project.Intq.{
  Intq, next, returned, at_lock, at_wait, as_list, intq_getc, intq_putc, getc_retry_lock,
  getc_woken, getc_locked, wait_not_empty,
}
use os_project.Intq.Queue.{IsValid, used, bytes, length-bytes, bytes-none, get_bytes, intq_putc_lem}
use os_project.Intq.Waiting.{intq_getc-empty}

-- The lock that `cur` holds and `other` waits for.
abbrev contended : ℕ → ℕ → Lock
contended cur other = record {
  holder = some cur;
  semaphore = record { value = 0; waiters = other ∷ [] };
}

-- A second thread blocks at the lock.
second_reader :
    (cur other : ℕ) (q : Intq)
    → IsValid q
    → used q ≡ 0
    → q.lock ≡ held cur
    → (cur == other) ≡ false
    → intq_getc other false q ≡ ok (at_lock [] (record q { lock = contended cur other }))
unfolding intq_getc lock_acquire getc_locked
second_reader cur other q v empty h apart =
    let e : (q.head == q.tail) ≡ true = ground (arith, empty, v.head_in, v.tail_in) in
    rw (e, h, apart) refl

-- The first thread wakes, frees the lock and takes the oldest byte.
first_wakes :
    (cur other : ℕ) (q : Intq)
    → IsValid q
    → 0 < used q
    → q.lock ≡ contended cur other
    → (b : ℕ) × (q' : Intq) × (getc_woken cur q ≡ ok (returned b (other ∷ as_list q.not_full) q'))
      × IsFree q'.lock
      × IsValid q'
      × (bytes q ≡ b ∷ bytes q')
unfolding getc_woken intq_getc lock_release lock_init
first_wakes cur other q v some_bytes h =
    let self : (cur == cur) ≡ true = ground arith in
    let full : (q.head == q.tail) ≡ false = ground (arith, some_bytes, v.head_in, v.tail_in) in
    let room : (next q.head == next q.tail) ≡ false =
      ground (arith, some_bytes, v.head_in, v.tail_in) in
    (
      get_or q.buf q.tail 0,
      record q { lock = lock_init; tail = next q.tail; not_full = none },
      rw (h, self, full, room) refl,
      lock_init-IsFree,
      record { buffer = v.buffer; head_in = v.head_in; tail_in = omega arith },
      get_bytes q v some_bytes,
    )

-- With the lock free, the second thread gets it, but wait refuses a queue with bytes.
second_fails :
    (other : ℕ) (q : Intq)
    → IsValid q
    → 0 < used q
    → IsFree q.lock
    → (finish_acquire other q.lock (sema_down other q.lock.semaphore) ≡ acquired (held other))
      × (wait_not_empty other (record q { lock = held other }) ≡ err assertion)
      × (getc_retry_lock other q ≡ err assertion)
unfolding getc_retry_lock getc_locked wait_not_empty sema_down
second_fails other q v some_bytes free =
    let e : (q.head == q.tail) ≡ false = ground (arith, some_bytes, v.head_in, v.tail_in) in
    (rw (free.value, free.waiters) refl, rw e refl, rw (free.value, free.waiters, e) refl)

-- The calls of two_readers_lem, one after the other.
pub record TwoReaders (cur other handler b c : ℕ) (q : Intq) : Type 0 where
  pub q1 : Intq
  pub q2 : Intq
  pub q3 : Intq
  pub q4 : Intq
  pub q5 : Intq
  pub first_waits : intq_getc cur false q ≡ ok (at_wait [] q1)
  pub second_at_lock : intq_getc other false q1 ≡ ok (at_lock [] q2)
  pub first_byte : intq_putc handler true b q2 ≡ ok (returned tt (cur ∷ []) q3)
  pub second_byte : intq_putc handler true c q3 ≡ ok (returned tt [] q4)
  pub first_returns : getc_woken cur q4 ≡ ok (returned b (other ∷ as_list q.not_full) q5)
  pub left : bytes q5 ≡ c ∷ []
  pub second_gets_lock :
      finish_acquire other q5.lock (sema_down other q5.lock.semaphore) ≡ acquired (held other)
  pub second_refused : wait_not_empty other (record q5 { lock = held other }) ≡ err assertion
  pub second_fails : getc_retry_lock other q5 ≡ err assertion

cons-head : (b c : ℕ) (s t : List ℕ) → (b ∷ s) ≡ (c ∷ t) → b ≡ c
cons-head b c s t e = cc

cons-tail : (b c : ℕ) (s t : List ℕ) → (b ∷ s) ≡ (c ∷ t) → s ≡ t
cons-tail b c s t e = cc

-- Two bytes in an empty queue.
two_bytes :
    (handler b c : ℕ) (q : Intq)
    → IsValid q
    → used q ≡ 0
    → (q3 q4 : Intq) × (intq_putc handler true b q ≡ ok (returned tt (as_list q.not_empty) q3))
      × (intq_putc handler true c q3 ≡ ok (returned tt [] q4))
      × IsValid q4
      × (bytes q4 ≡ b ∷ c ∷ [])
      × (q4.lock ≡ q.lock)
      × (q4.not_full ≡ q.not_full)
two_bytes handler b c q v empty =
    let (q3, e3, k3) = intq_putc_lem handler true b q v (omega (arith, empty)) in
    let bytes3 : bytes q3 ≡ b ∷ [] = k3.contents ∙ ap (λ s. s ++ (b ∷ [])) (bytes-none q empty) in
    let used3 : used q3 ≡ 1 = sym (length-bytes q3) ∙ ap length bytes3 in
    let (q4, e4, k4) = intq_putc_lem handler true c q3 k3.valid (omega (arith, used3)) in
    (
      q3,
      q4,
      e3,
      e4 ∙ ap (λ o. ok (returned tt (as_list o) q4)) k3.reset,
      k4.valid,
      k4.contents ∙ ap (λ s. s ++ (c ∷ [])) bytes3,
      k4.lock_kept ∙ k3.lock_kept,
      k4.not_full_kept ∙ k3.not_full_kept,
    )

-- The first thread wakes to a queue whose bytes are known.
first_returns_byte :
    (cur other b : ℕ) (rest : List ℕ) (o : Option ℕ) (q : Intq)
    → IsValid q
    → bytes q ≡ b ∷ rest
    → q.lock ≡ contended cur other
    → q.not_full ≡ o
    → (q' : Intq) × (getc_woken cur q ≡ ok (returned b (other ∷ as_list o) q'))
      × IsFree q'.lock
      × IsValid q'
      × (bytes q' ≡ rest)
first_returns_byte cur other b rest o q v contents h full_kept =
    let some_bytes : used q ≡ suc (length rest) = sym (length-bytes q) ∙ ap length contents in
    let (b', q', e, free, v', split) = first_wakes cur other q v (omega (arith, some_bytes)) h in
    (
      q',
      rw (sym (cons-head b' b (bytes q') rest (sym split ∙ contents)), sym full_kept) e,
      free,
      v',
      cons-tail b' b (bytes q') rest (sym split ∙ contents),
    )

-- Two different threads ask for a byte of an empty queue whose lock is free, an interrupt handler
-- puts two bytes, and both threads run again. The first thread waits, as the holder of the lock,
-- for which the second one waits; the first byte wakes the first thread, which frees the lock,
-- wakes the second thread and returns that byte. The second thread then gets the lock, and although
-- its byte is in the queue, its call fails: the assertion in wait that the queue is empty does not
-- hold. All calls before that succeed.
pub two_readers_lem :
    (cur other handler b c : ℕ) (q : Intq)
    → IsValid q
    → used q ≡ 0
    → IsFree q.lock
    → (cur == other) ≡ false
    → TwoReaders cur other handler b c q
two_readers_lem cur other handler b c q v empty free apart =
    let q1 = record q { lock = held cur; not_empty = some cur } in
    let q2 = record q { lock = contended cur other; not_empty = some cur } in
    let v1 : IsValid q1 = record { buffer = v.buffer; head_in = v.head_in; tail_in = v.tail_in } in
    let v2 : IsValid q2 = record { buffer = v.buffer; head_in = v.head_in; tail_in = v.tail_in } in
    let (q3, q4, e3, e4, v4, bytes4, lock4, full4) = two_bytes handler b c q2 v2 empty in
    let (q5, e5, free5, v5, bytes5) =
      first_returns_byte cur other b (c ∷ []) q.not_full q4 v4 bytes4 lock4 full4 in
    let used5 : used q5 ≡ 1 = sym (length-bytes q5) ∙ ap length bytes5 in
    let (gets, refused, fails) = second_fails other q5 v5 (omega (arith, used5)) free5 in
    record {
      q1 = q1;
      q2 = q2;
      q3 = q3;
      q4 = q4;
      q5 = q5;
      first_waits = intq_getc-empty cur false q v empty free;
      second_at_lock = second_reader cur other q1 v1 empty refl apart;
      first_byte = e3;
      second_byte = e4;
      first_returns = e5;
      left = bytes5;
      second_gets_lock = gets;
      second_refused = refused;
      second_fails = fails;
    }
