-- ===== src/Thread/Steps.antt =====
-- What the threads and the timer can make of the scheduler of threads/thread.c, call by call.
use os_project.Common.{
  count, ℕ, ◌-◌, ◌^◌, ◌≤◌, ◌<◌, ◌≡◌, refl, sym, ap, ◌∙◌, false, Option, none, List, Result, ok, err,
}
use mathlib.Core.Path.{subst}
use os_project.Synch.Locks.{IsFree}
use os_project.Thread.State.{blocked, Thread, Scheduler, is_idle, pri_max}
use os_project.Thread.{
  thread_init, thread_block, thread_yield, thread_exit, thread_unblock, thread_create, thread_tick,
  idle,
}
use os_project.Thread.Counts.{IsValid}
use os_project.Thread.Switch.{Next, Switched}
use os_project.Thread.Moves.{yield_queue, thread_yield_lem, thread_block_lem, thread_exit_lem}
use os_project.Thread.Arrivals.{thread_unblock_lem}
use os_project.Thread.Create.{thread_create_lem}
use os_project.Thread.Start.{thread_tick_lem, thread_init_lem, idle_lem}

-- One call that returned. Somebody else can run; a thread that is made ready is a blocked one, and
-- the page of a new thread is not a thread's. The idle thread does not exit.
pub data Step (s s' : Scheduler) : Type 0 where
  block : (next : ℕ) (rest : List ℕ) → Next s next rest → thread_block s ≡ ok s' → Step s s'
  yield :
      (next : ℕ) (rest : List ℕ)
      → Next (record s { ready_list = yield_queue s }) next rest
      → thread_yield s ≡ ok s'
      → Step s s'
  exit :
      (next : ℕ) (rest : List ℕ)
      → Next s next rest
      → is_idle s.idle_thread s.current ≡ false
      → thread_exit s ≡ ok s'
      → Step s s'
  unblock :
      (t : ℕ)
      → count t s.all_list ≡ 1
      → (s.thread t).status ≡ blocked
      → is_idle s.idle_thread t ≡ false
      → thread_unblock t s ≡ ok s'
      → Step s s'
  create :
      (page priority : ℕ) (tid : Option ℕ)
      → 0 < page
      → count page s.all_list ≡ 0
      → priority ≤ pri_max
      → thread_create page priority s ≡ ok (tid, s')
      → Step s s'
  begin_idle : s.idle_thread ≡ none → idle s ≡ ok s' → Step s s'
  tick : s.thread_ticks < 2 ^ 32 - 1 → thread_tick s ≡ ok s' → Step s s'

-- The states of a kernel whose initial thread has the page `page`.
pub data Reachable (page : ℕ) (thread : ℕ → Thread) : Scheduler → Type 0 where
  start : (s : Scheduler) → thread_init page thread ≡ ok s → Reachable page thread s
  step : (r s : Scheduler) → Reachable page thread r → Step r s → Reachable page thread s

abbrev value_or {ℓ} : {A : Type ℓ} → A → Result A → A
value_or d (ok a) = a
value_or d (err e) = d

ok-inj {ℓ} : {A : Type ℓ} {a b : A} → ok a ≡ ok b → a ≡ b
ok-inj {A} {a} {b} e = ap (λ (r : Result A). value_or a r) e

-- What every call keeps.
pub record IsSound (s : Scheduler) : Type 0 where
  pub valid : IsValid s
  pub tids : IsFree s.tid_lock

same_result : {r : Result Scheduler} {a b : Scheduler} → r ≡ ok a → r ≡ ok b → IsSound a → IsSound b
same_result e f = subst IsSound (ok-inj (sym e ∙ f))

switch-IsSound :
    {s u s' : Scheduler} {next : ℕ} {rest : List ℕ}
    → IsSound s
    → u.tid_lock ≡ s.tid_lock
    → Switched u next rest s'
    → IsSound s'
switch-IsSound h l w = record { valid = w.valid; tids = subst IsFree (sym (w.lock ∙ l)) h.tids }

Step-IsSound : {s s' : Scheduler} → Step s s' → IsSound s → IsSound s'
Step-IsSound {s} (block next rest n e) h =
    let (a, run, w) = thread_block_lem s next rest h.valid n in
    same_result run e (switch-IsSound h refl w)
Step-IsSound {s} (yield next rest n e) h =
    let (a, run, w) = thread_yield_lem s next rest h.valid n in
    same_result run e (switch-IsSound h refl w)
Step-IsSound {s} (exit next rest n busy e) h =
    let (a, run, w) = thread_exit_lem s next rest h.valid busy n in
    same_result run e (switch-IsSound h refl w)
Step-IsSound {s} (unblock t listed asleep busy e) h =
    let (run, v) = thread_unblock_lem s t h.valid listed asleep busy in
    same_result run e (record { valid = v; tids = h.tids })
Step-IsSound {s} (create page priority tid pos fresh range e) h =
    let (failed, made) = thread_create_lem page priority s h.valid fresh range h.tids in
    let (a, run, done) = made pos in
    let same = ok-inj (sym run ∙ e) in
    subst IsSound (ap (λ (p : Option ℕ × Scheduler). p.1) same)
      (record { valid = done.valid; tids = done.unlocked })
Step-IsSound {s} (begin_idle unknown e) h =
    let (run, v) = idle_lem s h.valid unknown in
    same_result run e (record { valid = v; tids = h.tids })
Step-IsSound {s} (tick small e) h =
    let (a, run, w) = thread_tick_lem s h.valid small in
    same_result run e (record { valid = w.valid; tids = subst IsFree (sym w.lock) h.tids })

-- In every state that calls can lead to from thread_init on a page that is not NULL, one thread
-- runs, the ready list holds exactly the other ready threads, each once, except the idle thread, and
-- every thread is on the list of all threads once and is alive. The calls are those of Step: some
-- thread can run next, only a blocked thread other than the idle one is unblocked, the idle thread
-- does not exit, and the page of a new thread is not in use.
pub Reachable-IsSound :
    (page : ℕ) (thread : ℕ → Thread) (s : Scheduler)
    → 0 < page
    → Reachable page thread s
    → IsSound s
Reachable-IsSound page thread _ pos (start s e) =
    let (a, run, v, tids, c, t) = thread_init_lem page thread pos in
    same_result run e (record { valid = v; tids = tids })
Reachable-IsSound page thread _ pos (step r s path move) =
    Step-IsSound move (Reachable-IsSound page thread r pos path)
