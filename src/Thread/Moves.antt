-- ===== src/Thread/Moves.antt =====
-- Giving up the processor in threads/thread.c: block, yield and exit.
use os_project.Common.{
  one_if, count, count-append, ℕ, ◌+◌, ◌-◌, ◌≡◌, inl, inr, refl, sym, ap, ◌∙◌, true, false, not,
  ◌&&◌, List, [], ◌∷◌, ◌++◌, ◌==◌, ==_iff, Bool-cases, if◌then◌else◌, arith, ok,
}
use mathlib.Core.Path.{subst}
use os_project.Thread.State.{
  Status, running, ready, blocked, dying, is_running, is_ready, is_dying, Scheduler, is_idle,
  put_status,
}
use os_project.Thread.{thread_current, thread_block, thread_yield, thread_exit, remove}
use os_project.Thread.Counts.{count-remove, IsPlaced, IsValid, IsStopped}
use os_project.Thread.Switch.{Next, from_list, from_idle, Switched, schedule_lem}

-- The state in which the running thread has got another status and moved between the lists.
abbrev pub stop : Scheduler → List ℕ → List ℕ → Status → Scheduler
stop s queue all status =
    put_status (record s { ready_list = queue; all_list = all }) s.current status

module _ (s : Scheduler) (queue all : List ℕ) (status : Status) (v : IsValid s)
    (not_running : is_running status ≡ false)
    (queued : (t : ℕ)
      → count t queue
        ≡ count t s.ready_list
          + one_if (s.current == t && (is_ready status && not (is_idle s.idle_thread t))))
    (listed : (t : ℕ)
      → count t all ≡ count t s.all_list - one_if (s.current == t && is_dying status))
    (not_idle : is_dying status ≡ true → is_idle s.idle_thread s.current ≡ false) where
  stop-IsPlaced : (t : ℕ) → IsPlaced (stop s queue all status) t
  stop-IsPlaced t =
      let p = v.ordered.placed t in
      record {
        once = ground (arith, p.once, listed t);
        queued = elim (Bool-cases (s.current == t)) [
          | inl e ↦
              let same : s.current ≡ t = (==_iff s.current t).0 e in
              let here : count t s.all_list ≡ 1 =
                subst (λ (u : ℕ). count u s.all_list ≡ 1) same v.current_listed in
              let runs : (s.thread t).status ≡ running =
                subst (λ (u : ℕ). (s.thread u).status ≡ running) same v.current_runs in
              ground (arith, e, here, runs, p.queued, queued t, listed t, same, not_running)
          | inr e ↦ ground (arith, e, p.queued, queued t, listed t)
        ];
        alive = ground (arith, p.alive, p.once, listed t);
        undead = ground (arith, p.undead, p.once, listed t);
      }

  stop-IsStopped : IsStopped (stop s queue all status)
  stop-IsStopped = record {
    ordered = record {
      placed = stop-IsPlaced;
      idle_listed = λ i e. ground (arith, v.ordered.idle_listed i e, listed i, not_idle);
    };
    stopped = ground (arith, not_running);
    nobody = λ t h. ground (arith, v.others t, listed t, (v.ordered.placed t).once);
  }

pub thread_current_lem : {s : Scheduler} → IsValid s → thread_current s ≡ ok s.current
thread_current_lem {s} v =
    let alive = (v.ordered.placed s.current).alive v.current_listed in
    rw (alive, v.current_runs) refl

-- The choice looks at the ready list and the idle thread only.
Next-same :
    {s u : Scheduler} {next : ℕ} {rest : List ℕ}
    → s.ready_list ≡ u.ready_list
    → s.idle_thread ≡ u.idle_thread
    → Next s next rest
    → Next u next rest
Next-same q i (from_list e) = from_list (sym q ∙ e)
Next-same q i (from_idle e j r) = from_idle (sym q ∙ e) (sym i ∙ j) r

-- thread_block: the running thread becomes blocked, and the head of the ready list runs, or the
-- idle thread if nobody is ready. No assertion fails, and the scheduler stays valid.
pub thread_block_lem :
    (s : Scheduler) (next : ℕ) (rest : List ℕ)
    → IsValid s
    → Next s next rest
    → (s' : Scheduler) × (thread_block s ≡ ok s')
      × Switched (stop s s.ready_list s.all_list blocked) next rest s'
unfolding thread_block
thread_block_lem s next rest v n =
    let stopped =
      stop-IsStopped s s.ready_list s.all_list blocked v refl (λ t. ground arith)
        (λ t. ground arith) (λ e. ground arith) in
    let (s', e, w) = schedule_lem stopped (Next-same refl refl n) in
    (s', rw (thread_current_lem v) e, w)

-- thread_exit by a thread that is not the idle thread: it leaves the list of all threads, the next
-- one runs, and the page of the old one is freed, unless it is the initial thread.
pub thread_exit_lem :
    (s : Scheduler) (next : ℕ) (rest : List ℕ)
    → IsValid s
    → is_idle s.idle_thread s.current ≡ false
    → Next s next rest
    → (s' : Scheduler) × (thread_exit s ≡ ok s')
      × Switched (stop s s.ready_list (remove s.current s.all_list) dying) next rest s'
unfolding thread_exit
thread_exit_lem s next rest v busy n =
    let stopped =
      stop-IsStopped s s.ready_list (remove s.current s.all_list) dying v refl (λ t. ground arith)
        (λ t. ground (arith, count-remove t s.current s.all_list)) (λ e. busy) in
    let (s', e, w) = schedule_lem stopped (Next-same refl refl n) in
    (s', rw (thread_current_lem v) e, w)

-- What `thread_yield` puts on the ready list, and who is next.
abbrev pub yield_queue : Scheduler → List ℕ
yield_queue s =
    if is_idle s.idle_thread s.current then s.ready_list else s.ready_list ++ (s.current ∷ [])

yield_count :
    (s : Scheduler) (t : ℕ)
    → count t (yield_queue s)
      ≡ count t s.ready_list + one_if (s.current == t && not (is_idle s.idle_thread t))
yield_count s t = elim (Bool-cases (s.current == t)) [
  | inl e ↦
      let same : s.current ≡ t = (==_iff s.current t).0 e in
      let idle = ap (λ (u : ℕ). is_idle s.idle_thread u) same in
      ground (arith, e, idle, count-append t s.ready_list (s.current ∷ []))
  | inr e ↦ ground (arith, e, count-append t s.ready_list (s.current ∷ []))
]

-- thread_yield: the running thread goes to the end of the ready list, except the idle thread, and
-- the head of the list runs. No assertion fails, and the scheduler stays valid.
pub thread_yield_lem :
    (s : Scheduler) (next : ℕ) (rest : List ℕ)
    → IsValid s
    → Next (record s { ready_list = yield_queue s }) next rest
    → (s' : Scheduler) × (thread_yield s ≡ ok s')
      × Switched (stop s (yield_queue s) s.all_list ready) next rest s'
unfolding thread_yield
thread_yield_lem s next rest v n =
    let stopped =
      stop-IsStopped s (yield_queue s) s.all_list ready v refl (λ t. yield_count s t)
        (λ t. ground arith) (λ e. ground arith) in
    let (s', e, w) = schedule_lem stopped (Next-same refl refl n) in
    (s', rw (thread_current_lem v) e, w)
