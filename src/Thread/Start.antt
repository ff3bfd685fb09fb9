-- ===== src/Thread/Start.antt =====
-- thread_init and thread_tick of threads/thread.c.
use os_project.Common.{
  ℕ, ◌+◌, ◌-◌, ◌^◌, ◌<◌, ◌≡◌, inl, inr, refl, sym, true, false, ◌||◌, none, some, [], ◌∷◌, ◌==◌,
  leb, ==_iff, Bool-cases, if◌then◌else◌, arith, ok, u32,
}
use mathlib.Core.Path.{subst}
use os_project.Synch.{lock_init}
use os_project.Synch.Locks.{IsFree, lock_init-IsFree}
use os_project.Thread.State.{running, blocked, Thread, Scheduler, is_idle, put, time_slice}
use os_project.Thread.{thread_tick, idle, thread_init}
use os_project.Thread.Counts.{IsValid}
use os_project.Thread.Moves.{thread_current_lem}

-- The state behind `thread_tick`.
abbrev ticked : Scheduler → Scheduler
ticked s =
    let on_idle = is_idle s.idle_thread s.current in
    let ticks = u32 (s.thread_ticks + 1) in
    record s {
      idle_ticks = if on_idle then s.idle_ticks + 1 else s.idle_ticks;
      kernel_ticks = if on_idle then s.kernel_ticks else s.kernel_ticks + 1;
      thread_ticks = ticks;
      yield_on_return = s.yield_on_return || leb time_slice ticks;
    }

-- What a timer tick did.
pub record Ticked (s s' : Scheduler) : Type 0 where
  pub valid : IsValid s'
  pub counted : s'.idle_ticks + s'.kernel_ticks ≡ s.idle_ticks + s.kernel_ticks + 1
  pub slice : s'.thread_ticks ≡ s.thread_ticks + 1
  pub preempts : s'.yield_on_return ≡ s.yield_on_return || leb time_slice (s.thread_ticks + 1)
  pub same_thread : s'.current ≡ s.current
  pub lock : s'.tid_lock ≡ s.tid_lock

-- The timer tick charges the running thread's kind and asks for a yield once the running thread has
-- had 4 ticks, if the count of its ticks does not wrap. It touches neither the lists nor the threads, and the scheduler stays valid.
pub thread_tick_lem :
    (s : Scheduler)
    → IsValid s
    → s.thread_ticks < 2 ^ 32 - 1
    → (s' : Scheduler) × (thread_tick s ≡ ok s') × Ticked s s'
unfolding thread_tick
thread_tick_lem s v small =
    let inner = v.ordered in
    let no_wrap : u32 (s.thread_ticks + 1) ≡ s.thread_ticks + 1 = omega arith in
    (
      ticked s,
      rw (thread_current_lem v) refl,
      record {
        valid = record {
          ordered = record {
            placed = λ t. record {
              once = (inner.placed t).once;
              queued = (inner.placed t).queued;
              alive = (inner.placed t).alive;
              undead = (inner.placed t).undead;
            };
            idle_listed = inner.idle_listed;
          };
          current_listed = v.current_listed;
          current_runs = v.current_runs;
          others = v.others;
        };
        counted = ground arith;
        slice = no_wrap;
        preempts = rw no_wrap refl;
        same_thread = refl;
        lock = refl;
      },
    )

-- The state behind `thread_init`.
abbrev pub initial : ℕ → (ℕ → Thread) → Scheduler
initial page thread =
    let born : Thread = record { tid = 0; status = blocked; priority = 31; is_thread = true } in
    record {
      current = page;
      ready_list = [];
      all_list = page ∷ [];
      idle_thread = none;
      initial_thread = page;
      tid_lock = lock_init;
      next_tid = 2;
      idle_ticks = 0;
      kernel_ticks = 0;
      thread_ticks = 0;
      yield_on_return = false;
      freed = [];
      thread =
          put (put (put thread page born) page (record born { status = running })) page
            (record born { status = running; tid = 1 });
    }

initial-IsValid : (page : ℕ) (thread : ℕ → Thread) → IsValid (initial page thread)
initial-IsValid page thread = record {
  ordered = record {
    placed = λ t. record {
      once = ground arith;
      queued = ground arith;
      alive = ground arith;
      undead = ground arith;
    };
    idle_listed = λ i e. ground (arith, e);
  };
  current_listed = ground arith;
  current_runs = ground arith;
  others = λ t h r. ground arith;
}

-- The first run of the idle thread makes it known, while there is no idle thread.
pub idle_lem :
    (s : Scheduler)
    → IsValid s
    → s.idle_thread ≡ none
    → (idle s ≡ ok (record s { idle_thread = some s.current }))
      × IsValid (record s { idle_thread = some s.current })
unfolding idle
idle_lem s v unknown =
    let before : (t : ℕ) → is_idle s.idle_thread t ≡ false = λ t. rw unknown refl in
    (
      rw (thread_current_lem v) refl,
      record {
        ordered = record {
          placed = λ t. record {
            once = (v.ordered.placed t).once;
            queued = elim (Bool-cases (t == s.current)) [
              | inl e ↦
                  let runs =
                    subst (λ (u : ℕ). (s.thread u).status ≡ running)
                      (sym ((==_iff t s.current).0 e)) v.current_runs in
                  ground (arith, (v.ordered.placed t).queued, before t, runs)
              | inr e ↦ ground (arith, (v.ordered.placed t).queued, before t, e)
            ];
            alive = (v.ordered.placed t).alive;
            undead = (v.ordered.placed t).undead;
          };
          idle_listed = λ i e. grind (arith, e, v.current_listed);
        };
        current_listed = v.current_listed;
        current_runs = v.current_runs;
        others = v.others;
      },
    )

-- thread_init makes the running code a thread, alone, with the tid 1, in a valid scheduler.
pub thread_init_lem :
    (page : ℕ) (thread : ℕ → Thread)
    → 0 < page
    → (s : Scheduler) × (thread_init page thread ≡ ok s)
      × IsValid s
      × IsFree s.tid_lock
      × (s.current ≡ page)
      × ((s.thread page).tid ≡ 1)
unfolding thread_init lock_init
thread_init_lem page thread pos =
    let positive : (page == 0) ≡ false = ground arith in
    let self : (page == page) ≡ true = ground arith in
    (
      initial page thread,
      rw (positive, self, put, self) refl,
      initial-IsValid page thread,
      lock_init-IsFree,
      refl,
      rw self refl,
    )
