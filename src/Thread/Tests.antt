-- ===== src/Thread/Tests.antt =====
-- Runs of threads/thread.c.
use os_project.Common.{
  ℕ, ◌≡◌, ◌<◌, refl, true, false, Option, none, some, [], ◌∷◌, ◌==◌, if◌then◌else◌, arith, Result,
  ok, err,
}
use os_project.Synch.{lock_init}
use os_project.Synch.Locks.{lock_init-IsFree}
use os_project.Thread.State.{running, ready, blocked, dying, Thread, Scheduler}
use os_project.Thread.{thread_init, thread_exit, thread_create}
use os_project.Thread.Counts.{IsValid}
use os_project.Thread.Switch.{from_list, Switched}
use os_project.Thread.Moves.{stop, thread_exit_lem}
use os_project.Thread.Create.{Created, thread_create_lem}
use os_project.Thread.Start.{initial}
use os_project.Thread.Fair.{yields, yields_lem}
use os_project.Thread.Steps.{create, Reachable, start, step, IsSound, Reachable-IsSound}

-- Thread 4096 runs, the threads 8192 and 12288 are ready.
abbrev three : Scheduler
three = record {
  current = 4096;
  ready_list = 8192 ∷ 12288 ∷ [];
  all_list = 4096 ∷ 8192 ∷ 12288 ∷ [];
  idle_thread = none;
  initial_thread = 4096;
  tid_lock = lock_init;
  next_tid = 4;
  idle_ticks = 0;
  kernel_ticks = 9;
  thread_ticks = 3;
  yield_on_return = false;
  freed = [];
  thread = λ t. record {
    tid = 0;
    status = if t == 4096 then running else ready;
    priority = 31;
    is_thread = true;
  };
}

three-IsValid : IsValid three
three-IsValid = record {
  ordered = record {
    placed = λ t. record {
      once = ground arith;
      queued = ground arith;
      alive = λ h. refl;
      undead = λ h. ground arith;
    };
    idle_listed = λ i e. ground (arith, e);
  };
  current_listed = refl;
  current_runs = refl;
  others = λ t h r. ground arith;
}

thread_exit_lem_example :
    (s' : Scheduler) × (thread_exit three ≡ ok s')
    × Switched (stop three three.ready_list (8192 ∷ 12288 ∷ []) dying) 8192 (12288 ∷ []) s'
thread_exit_lem_example =
    thread_exit_lem three 8192 (12288 ∷ []) three-IsValid refl (from_list refl)

thread_create_lem_example :
    (thread_create 0 31 three ≡ ok (none, three))
    × (0 < 16384
        → (s' : Scheduler) × (thread_create 16384 31 three ≡ ok (some 4, s'))
          × Created 16384 31 three s')
thread_create_lem_example =
    thread_create_lem 16384 31 three three-IsValid refl (omega arith) lock_init-IsFree

yields_lem_example :
    (s' : Scheduler) × (yields 2 three ≡ ok s')
    × IsValid s'
    × (s'.current ≡ 12288)
    × (s'.ready_list ≡ 4096 ∷ 8192 ∷ [])
yields_lem_example = yields_lem (8192 ∷ []) [] 12288 three three-IsValid refl refl

abbrev blank : ℕ → Thread
blank t = record { tid = 0; status = blocked; priority = 0; is_thread = false }

abbrev state_of : Result (Option ℕ × Scheduler) → Scheduler
state_of (ok (tid, s)) = s
state_of (err e) = three

abbrev after_create : Scheduler
after_create = state_of (thread_create 8192 31 (initial 4096 blank))

after_create-Reachable : Reachable 4096 blank after_create
unfolding thread_init thread_create lock_init
after_create-Reachable =
    step (initial 4096 blank) after_create (start (initial 4096 blank) refl)
      (create 8192 31 (some 2) (omega arith) refl (omega arith) refl)

Reachable-IsSound_example : IsSound after_create
Reachable-IsSound_example =
    Reachable-IsSound 4096 blank after_create (omega arith) after_create-Reachable
