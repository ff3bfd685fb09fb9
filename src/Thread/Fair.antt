-- ===== src/Thread/Fair.antt =====
-- Round-robin scheduling in threads/thread.c.
use os_project.Common.{
  count, one_if, ℕ, zero, suc, ◌+◌, ◌≡◌, refl, ap, ◌∙◌, false, List, [], ◌∷◌, ◌++◌, length, ◌==◌,
  arith, Result, ok, ◌>>=◌,
}
use mathlib.Core.List.{append_assoc}
use os_project.Thread.State.{Scheduler, is_idle}
use os_project.Thread.{thread_yield}
use os_project.Thread.Counts.{IsOrdered, IsValid}
use os_project.Thread.Switch.{from_list}
use os_project.Thread.Moves.{yield_queue, thread_yield_lem}

-- Every thread that gets the processor yields at once.
unfoldable pub yields : ℕ → Scheduler → Result Scheduler
yields zero s = ok s
yields (suc n) s = do s' ← thread_yield s; yields n s'

head-busy :
    {s : Scheduler} {t : ℕ} {rest : List ℕ}
    → IsOrdered s
    → s.ready_list ≡ t ∷ rest
    → is_idle s.idle_thread t ≡ false
head-busy {s} {t} {rest} v e =
    let c : count t s.ready_list ≡ one_if (t == t) + count t rest =
      ap (λ (us : List ℕ). count t us) e in
    ground (arith, (v.placed t).queued, c)

yield_to_head :
    (s : Scheduler) (t : ℕ) (rest : List ℕ)
    → IsValid s
    → is_idle s.idle_thread s.current ≡ false
    → s.ready_list ≡ t ∷ rest
    → (s' : Scheduler) × (thread_yield s ≡ ok s')
      × IsValid s'
      × (s'.current ≡ t)
      × (s'.ready_list ≡ rest ++ (s.current ∷ []))
      × (is_idle s'.idle_thread t ≡ false)
yield_to_head s t rest v busy e =
    let queue : yield_queue s ≡ t ∷ (rest ++ (s.current ∷ [])) = rw (busy, e) refl in
    let (s', run, w) = thread_yield_lem s t (rest ++ (s.current ∷ [])) v (from_list queue) in
    (s', run, w.valid, w.current, w.queue, rw w.idle (head-busy v.ordered e))

-- Round robin, from a running thread that is not the idle thread: a thread that stands behind n others on the ready list runs after n + 1 yields, and
-- the threads before it, the yielding one first, then stand at the end of the list in their order.
pub yields_lem :
    (front back : List ℕ) (t : ℕ) (s : Scheduler)
    → IsValid s
    → is_idle s.idle_thread s.current ≡ false
    → s.ready_list ≡ front ++ (t ∷ back)
    → (s' : Scheduler) × (yields (suc (length front)) s ≡ ok s')
      × IsValid s'
      × (s'.current ≡ t)
      × (s'.ready_list ≡ back ++ (s.current ∷ front))
unfolding yields
yields_lem [] back t s v busy e =
    let (s', run, v', c, q, b) = yield_to_head s t back v busy e in (s', rw run refl, v', c, q)
yields_lem (f ∷ front) back t s v busy e =
    let (s1, run, v1, c1, q1, b1) = yield_to_head s f (front ++ (t ∷ back)) v busy e in
    let e1 = q1 ∙ append_assoc front (t ∷ back) (s.current ∷ []) in
    let (s2, runs, v2, c2, q2) =
      yields_lem front (back ++ (s.current ∷ [])) t s1 v1 (rw c1 b1) e1 in
    (s2, rw run runs, v2, c2, q2 ∙ rw c1 (append_assoc back (s.current ∷ []) (f ∷ front)))
