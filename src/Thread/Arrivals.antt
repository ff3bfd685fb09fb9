-- ===== src/Thread/Arrivals.antt =====
-- thread_unblock of threads/thread.c.
use os_project.Common.{
  count, count-append, ℕ, ◌≡◌, ◌≢◌, inl, inr, sym, ap, ◌∙◌, false, [], ◌∷◌, ◌++◌, ◌==◌, ==_iff,
  Bool-cases, arith, ok,
}
use mathlib.Core.Path.{subst}
use os_project.Thread.State.{running, ready, blocked, is_running, Scheduler, is_idle, put_status}
use os_project.Thread.{thread_unblock}
use os_project.Thread.Counts.{IsPlaced, IsOrdered, IsValid}

-- The state in which a blocked thread has been made ready.
abbrev pub woken : Scheduler → ℕ → Scheduler
woken s t = put_status (record s { ready_list = s.ready_list ++ (t ∷ []) }) t ready

woken-IsPlaced :
    {s : Scheduler} (t u : ℕ)
    → IsOrdered s
    → count t s.all_list ≡ 1
    → (s.thread t).status ≡ blocked
    → is_idle s.idle_thread t ≡ false
    → IsPlaced (woken s t) u
woken-IsPlaced {s} t u v listed asleep busy = elim (Bool-cases (u == t)) [
  | inl e ↦ subst (IsPlaced (woken s t)) (sym ((==_iff u t).0 e)) (record {
    once = (v.placed t).once;
    queued =
        ground
          (arith, listed, asleep, busy, (v.placed t).queued, count-append t s.ready_list (t ∷ []));
    alive = λ h. ground (arith, (v.placed t).alive listed);
    undead = λ h. ground arith;
  })
  | inr e ↦
      let p = v.placed u in
      record {
        once = p.once;
        queued = ground (arith, e, p.queued, count-append u s.ready_list (t ∷ []));
        alive = ground (arith, e, p.alive);
        undead = ground (arith, e, p.undead);
      }
]

blocked-ne-running : blocked ≢ running
blocked-ne-running e = ground (arith, ap is_running e)

pub woken-IsValid :
    {s : Scheduler} (t : ℕ)
    → IsValid s
    → count t s.all_list ≡ 1
    → (s.thread t).status ≡ blocked
    → is_idle s.idle_thread t ≡ false
    → IsValid (woken s t)
woken-IsValid {s} t v listed asleep busy =
    let apart : (s.current == t) ≡ false = elim (Bool-cases (s.current == t)) [
      | inl e ↦
          let runs =
            subst (λ (u : ℕ). (s.thread u).status ≡ running) ((==_iff s.current t).0 e)
              v.current_runs in
          absurd (blocked-ne-running (sym asleep ∙ runs))
      | inr e ↦ e
    ] in
    record {
      ordered = record {
        placed = λ u. woken-IsPlaced t u v.ordered listed asleep busy;
        idle_listed = v.ordered.idle_listed;
      };
      current_listed = v.current_listed;
      current_runs = ground (arith, apart, v.current_runs);
      others = λ u h r. ground (arith, v.others u);
    }

-- thread_unblock of a blocked thread, other than the idle thread, puts it at the end of the ready
-- list. The scheduler stays valid, and the running thread goes on.
pub thread_unblock_lem :
    (s : Scheduler) (t : ℕ)
    → IsValid s
    → count t s.all_list ≡ 1
    → (s.thread t).status ≡ blocked
    → is_idle s.idle_thread t ≡ false
    → (thread_unblock t s ≡ ok (woken s t)) × IsValid (woken s t)
unfolding thread_unblock
thread_unblock_lem s t v listed asleep busy =
    let alive = (v.ordered.placed t).alive listed in
    (ground (arith, alive, asleep), woken-IsValid t v listed asleep busy)
