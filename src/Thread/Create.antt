-- ===== src/Thread/Create.antt =====
-- thread_create of threads/thread.c.
use os_project.Common.{
  one_if, count, count-append, ℕ, ◌+◌, ◌≤◌, ◌<◌, ◌≡◌, inl, inr, refl, sym, ◌∙◌, true, false, Option,
  none, some, List, [], ◌∷◌, ◌++◌, ◌==◌, leb, ==_iff, Bool-cases, arith, ok, u32,
}
use mathlib.Core.Path.{subst}
use os_project.Synch.{lock_init}
use os_project.Synch.Locks.{IsFree, lock_init-IsFree}
use os_project.Thread.State.{blocked, ready, is_running, Thread, Scheduler, is_idle, put, pri_max}
use os_project.Thread.{thread_create}
use os_project.Thread.Counts.{IsPlaced, IsOrdered, IsValid}
use os_project.Thread.Arrivals.{woken, woken-IsValid}

-- The state s' is s with one more thread, blocked and on the list of all threads.
record Added (s : Scheduler) (t : ℕ) (s' : Scheduler) : Type 0 where
  current : s'.current ≡ s.current
  ready_list : s'.ready_list ≡ s.ready_list
  all_list : s'.all_list ≡ s.all_list ++ (t ∷ [])
  idle_thread : s'.idle_thread ≡ s.idle_thread
  asleep : (s'.thread t).status ≡ blocked
  alive : (s'.thread t).is_thread ≡ true
  others : (u : ℕ) → (u == t) ≡ false → s'.thread u ≡ s.thread u

Added-new :
    {s s' : Scheduler} (t : ℕ)
    → IsPlaced s t
    → count t s.all_list ≡ 0
    → Added s t s'
    → IsPlaced s' t
Added-new {s} {s'} t p fresh a =
    let self : (t == t) ≡ true = ground arith in
    let all : count t s'.all_list ≡ 1 =
      rw a.all_list (ground (arith, fresh, self, count-append t s.all_list (t ∷ []))) in
    let queue : count t s'.ready_list ≡ 0 = rw a.ready_list (ground (arith, fresh, p.queued)) in
    record {
      once = omega (arith, all);
      queued = rw a.asleep (ground (arith, queue));
      alive = λ h. a.alive;
      undead = λ h. rw a.asleep refl;
    }

Added-IsPlaced :
    {s s' : Scheduler} (t u : ℕ)
    → IsOrdered s
    → count t s.all_list ≡ 0
    → Added s t s'
    → IsPlaced s' u
Added-IsPlaced {s} {s'} t u v fresh a =
    let all : count u s'.all_list ≡ count u s.all_list + one_if (t == u) =
      rw a.all_list (omega (arith, count-append u s.all_list (t ∷ []))) in
    let queue : count u s'.ready_list ≡ count u s.ready_list = rw a.ready_list refl in
    elim (Bool-cases (u == t)) [
      | inl e ↦ subst (IsPlaced s') (sym ((==_iff u t).0 e)) (Added-new t (v.placed t) fresh a)
      | inr e ↦
          let p = v.placed u in
          let old = a.others u e in
          record {
            once = ground (arith, e, all, p.once);
            queued = rw (old, a.idle_thread) (ground (arith, e, all, queue, p.queued));
            alive = rw old (ground (arith, e, all, p.alive));
            undead = rw old (ground (arith, e, all, p.undead));
          }
    ]

-- A thread on the list of all threads is not one that is not.
listed-ne : (us : List ℕ) (t u : ℕ) → count t us ≡ 0 → count u us ≡ 1 → (u == t) ≡ false
listed-ne us t u fresh listed = elim (Bool-cases (u == t)) [
  | inl e ↦
      let here = subst (λ (x : ℕ). count x us ≡ 1) ((==_iff u t).0 e) listed in
      absurd (omega (arith, here, fresh))
  | inr e ↦ e
]

Added-running :
    {s s' : Scheduler} (t u : ℕ)
    → Added s t s'
    → is_running (s'.thread u).status ≡ true
    → (u == t) ≡ false
Added-running {s} {s'} t u a r = elim (Bool-cases (u == t)) [
  | inl e ↦
      let asleep =
        subst (λ (x : ℕ). (s'.thread x).status ≡ blocked) (sym ((==_iff u t).0 e)) a.asleep in
      absurd (ground (arith, asleep, r))
  | inr e ↦ e
]

Added-IsValid :
    {s s' : Scheduler} (t : ℕ) → IsValid s → count t s.all_list ≡ 0 → Added s t s' → IsValid s'
Added-IsValid {s} {s'} t v fresh a =
    let all : (u : ℕ) → count u s'.all_list ≡ count u s.all_list + one_if (t == u) =
      λ u. rw a.all_list (omega (arith, count-append u s.all_list (t ∷ []))) in
    let kept : (u : ℕ) → count u s.all_list ≡ 1 → count u s'.all_list ≡ 1 =
      λ u h. ground (arith, all u, listed-ne s.all_list t u fresh h) in
    let apart = listed-ne s.all_list t s.current fresh v.current_listed in
    record {
      ordered = record {
        placed = λ u. Added-IsPlaced t u v.ordered fresh a;
        idle_listed = λ i e. kept i (v.ordered.idle_listed i (sym a.idle_thread ∙ e));
      };
      current_listed = rw a.current (kept s.current v.current_listed);
      current_runs = rw (a.current, a.others s.current apart) v.current_runs;
      others = λ u h r.
          let e = Added-running t u a r in
          rw a.current (
            v.others u (ground (arith, all u, e, h))
              (subst (λ (x : Thread). is_running x.status ≡ true) (a.others u e) r));
    }

idle-ne_fresh :
    {s : Scheduler} (t : ℕ) (o : Option ℕ)
    → IsOrdered s
    → s.idle_thread ≡ o
    → count t s.all_list ≡ 0
    → is_idle o t ≡ false
idle-ne_fresh t none v e fresh = refl
idle-ne_fresh {s} t (some i) v e fresh =
    let apart = listed-ne s.all_list t i fresh (v.idle_listed i e) in ground (arith, apart)

-- What is known of the scheduler after thread_create.
pub record Created (page priority : ℕ) (s s' : Scheduler) : Type 0 where
  pub thread :
      s'.thread page
      ≡ record { tid = s.next_tid; status = ready; priority = priority; is_thread = true }
  pub next_tid : s'.next_tid ≡ u32 (s.next_tid + 1)
  pub ready_list : s'.ready_list ≡ s.ready_list ++ (page ∷ [])
  pub all_list : s'.all_list ≡ s.all_list ++ (page ∷ [])
  pub current : s'.current ≡ s.current
  pub others : (u : ℕ) → (u == page) ≡ false → s'.thread u ≡ s.thread u
  pub unlocked : IsFree s'.tid_lock
  pub valid : IsValid s'

-- thread_create on a free page, with a valid priority, returns the next tid. The page holds a
-- thread with this tid and the priority, which is ready, at the end of the ready list and of the
-- list of all threads; the tid after that, modulo 2 to the 32, is the next one. The same thread
-- runs, the other threads are as before, no assertion fails, the lock of the tids is free again,
-- and the scheduler stays valid. It fails with no tid, and changes nothing, when there is no page.
pub thread_create_lem :
    (page priority : ℕ) (s : Scheduler)
    → IsValid s
    → count page s.all_list ≡ 0
    → priority ≤ pri_max
    → IsFree s.tid_lock
    → (thread_create 0 priority s ≡ ok (none, s))
      × (0 < page
          → (s' : Scheduler) × (thread_create page priority s ≡ ok (some s.next_tid, s'))
            × Created page priority s s')
unfolding thread_create lock_init
thread_create_lem page priority s v fresh range free = (
  refl,
  λ pos.
      let fresh_thread : Thread = record {
        tid = 0;
        status = blocked;
        priority = priority;
        is_thread = true;
      } in
      let named : Thread = record {
        tid = s.next_tid;
        status = blocked;
        priority = priority;
        is_thread = true;
      } in
      let s2 = record s {
        thread = put (put s.thread page fresh_thread) page named;
        all_list = s.all_list ++ (page ∷ []);
        next_tid = u32 (s.next_tid + 1);
        tid_lock = lock_init;
      } in
      let self : (page == page) ≡ true = ground arith in
      let added : Added s page s2 = record {
        current = refl;
        ready_list = refl;
        all_list = refl;
        idle_thread = refl;
        asleep = rw self refl;
        alive = rw self refl;
        others = λ u e. rw e refl;
      } in
      let listed : count page (s.all_list ++ (page ∷ [])) ≡ 1 =
        ground (arith, fresh, self, count-append page s.all_list (page ∷ [])) in
      let busy = idle-ne_fresh page s.idle_thread v.ordered refl fresh in
      let here : (s.current == s.current) ≡ true = ground arith in
      let positive : (page == 0) ≡ false = ground arith in
      let in_range : leb priority pri_max ≡ true = ground arith in
      let v2 = Added-IsValid page v fresh added in
      (
        woken s2 page,
        rw (positive, in_range, free.holder, free.value, here, free.waiters, self) refl,
        record {
          thread = rw self refl;
          next_tid = refl;
          ready_list = refl;
          all_list = refl;
          current = refl;
          others = λ u e. rw e refl;
          unlocked = lock_init-IsFree;
          valid = woken-IsValid page v2 listed (rw self refl) busy;
        },
      ),
)
