-- ===== src/Thread/Switch.antt =====
-- `schedule` of threads/thread.c keeps the scheduler's invariant.
use os_project.Common.{
  one_if, count, ℕ, ◌+◌, ◌≡◌, inl, inr, refl, sym, ap, ◌∙◌, not, ◌&&◌, none, some, List, [], ◌∷◌,
  ◌==◌, ==_iff, Bool-cases, if◌then◌else◌, arith, ok, assert-true,
}
use mathlib.Core.Path.{subst}
use os_project.Thread.State.{running, is_ready, is_dying, Scheduler, is_idle, put_status}
use os_project.Thread.{choose, schedule, reap, destroy}
use os_project.Thread.Counts.{IsPlaced, IsOrdered, IsValid, IsStopped}

-- The scheduler's choice: the head of the ready list, or the idle thread.
pub data Next (s : Scheduler) (next : ℕ) (rest : List ℕ) : Type 0 where
  from_list : s.ready_list ≡ next ∷ rest → Next s next rest
  from_idle : s.ready_list ≡ [] → s.idle_thread ≡ some next → rest ≡ [] → Next s next rest

-- The state when `next` runs.
abbrev pub switched : Scheduler → ℕ → List ℕ → Scheduler
switched s next rest =
    record (put_status (record s { ready_list = rest; current = next }) next running) {
      thread_ticks = 0;
    }

Next-listed :
    {s : Scheduler} {next : ℕ} {rest : List ℕ}
    → IsOrdered s
    → Next s next rest
    → count next s.all_list ≡ 1
Next-listed {s} {next} {rest} v (from_list e) =
    let c : count next s.ready_list ≡ one_if (next == next) + count next rest =
      ap (λ (us : List ℕ). count next us) e in
    ground (arith, (v.placed next).queued, c)
Next-listed {s} {next} v (from_idle e i r) = v.idle_listed next i

-- The queue as `IsPlaced` has it, after the switch.
switched-queued :
    {s : Scheduler} {next : ℕ} {rest : List ℕ} (t : ℕ)
    → IsPlaced s t
    → Next s next rest
    → count t rest ≡ (
        if count t s.all_list == 1
          && (is_ready ((switched s next rest).thread t).status && not (is_idle s.idle_thread t))
        then 1
        else 0)
switched-queued {s} {next} {rest} t p (from_list e) =
    let c : count t s.ready_list ≡ one_if (next == t) + count t rest =
      ap (λ (us : List ℕ). count t us) e in
    ground (arith, p.queued, c)
switched-queued {s} {next} {rest} t p (from_idle e i r) =
    let c : count t s.ready_list ≡ 0 = ap (λ (us : List ℕ). count t us) e in
    let d : count t rest ≡ 0 = ap (λ (us : List ℕ). count t us) r in ground (arith, p.queued, c, d)

switched-IsPlaced :
    {s : Scheduler} {next : ℕ} {rest : List ℕ} (t : ℕ)
    → IsOrdered s
    → Next s next rest
    → IsPlaced (switched s next rest) t
switched-IsPlaced {s} {next} {rest} t v n = record {
  once = (v.placed t).once;
  queued = switched-queued t (v.placed t) n;
  alive = ground (arith, (v.placed t).alive);
  undead = ground (arith, (v.placed t).undead);
}

switched-IsValid :
    {s : Scheduler} {next : ℕ} {rest : List ℕ}
    → IsStopped s
    → Next s next rest
    → IsValid (switched s next rest)
switched-IsValid {s} {next} {rest} v n = record {
  ordered = record {
    placed = λ t. switched-IsPlaced t v.ordered n;
    idle_listed = v.ordered.idle_listed;
  };
  current_listed = Next-listed v.ordered n;
  current_runs = ground arith;
  others = λ t listed r. ground (arith, v.nobody t);
}

-- A thread that is on no list any more can be destroyed.
destroy-IsValid :
    {s : Scheduler} (prev : ℕ) → count prev s.all_list ≡ 0 → IsValid s → IsValid (destroy prev s)
destroy-IsValid {s} prev gone v = record {
  ordered = record {
    placed = λ t. record {
      once = (v.ordered.placed t).once;
      queued = ground (arith, (v.ordered.placed t).queued);
      alive = ground (arith, (v.ordered.placed t).alive, gone);
      undead = ground (arith, (v.ordered.placed t).undead);
    };
    idle_listed = v.ordered.idle_listed;
  };
  current_listed = v.current_listed;
  current_runs = ground (arith, v.current_runs);
  others = λ t listed r. ground (arith, v.others t);
}

-- What a call of `schedule` in `s` leaves.
pub record Switched (s : Scheduler) (next : ℕ) (rest : List ℕ) (s' : Scheduler) : Type 0 where
  pub valid : IsValid s'
  pub current : s'.current ≡ next
  pub queue : s'.ready_list ≡ rest
  pub all : s'.all_list ≡ s.all_list
  pub idle : s'.idle_thread ≡ s.idle_thread
  pub lock : s'.tid_lock ≡ s.tid_lock
  pub slice : s'.thread_ticks ≡ 0
  pub freed : s'.freed ≡ (
      if is_dying (s.thread s.current).status && not (s.current == s.initial_thread)
      then s.current ∷ s.freed
      else s.freed)

Next-choose :
    {s : Scheduler} {next : ℕ} {rest : List ℕ}
    → Next s next rest
    → choose s.idle_thread s.ready_list ≡ (some next, rest)
Next-choose (from_list e) = rw e refl
Next-choose (from_idle e i r) = rw (e, i, r) refl

reap-switched :
    {s : Scheduler} {next : ℕ} {rest : List ℕ}
    → IsStopped s
    → Next s next rest
    → (s' : Scheduler) × (reap
          (if s.current == next then none else some s.current)
          (switched s next rest)
        ≡ ok s')
      × Switched s next rest s'
reap-switched {s} {next} {rest} v n =
    let dies = is_dying (s.thread s.current).status && not (s.current == s.initial_thread) in
    let valid = switched-IsValid v n in
    let here = v.ordered.placed s.current in
    elim (Bool-cases (s.current == next)) [
      | inl e ↦
          let listed : count s.current s.all_list ≡ 1 =
            subst (λ (t : ℕ). count t s.all_list ≡ 1) (sym ((==_iff s.current next).0 e))
              (Next-listed v.ordered n) in
          (
            switched s next rest,
            rw e refl,
            record {
              valid = valid;
              current = refl;
              queue = refl;
              all = refl;
              idle = refl;
              lock = refl;
              slice = refl;
              freed = rw (here.undead listed) refl;
            },
          )
      | inr e ↦ elim (Bool-cases dies) [
        | inl d ↦
            let gone : count s.current s.all_list ≡ 0 = ground (arith, here.undead, here.once, d) in
            (
              destroy s.current (switched s next rest),
              ground (arith, e, d),
              record {
                valid = destroy-IsValid s.current gone valid;
                current = refl;
                queue = refl;
                all = refl;
                idle = refl;
                lock = refl;
                slice = refl;
                freed = rw d refl;
              },
            )
        | inr d ↦ (
          switched s next rest,
          ground (arith, e, d),
          record {
            valid = valid;
            current = refl;
            queue = refl;
            all = refl;
            idle = refl;
            lock = refl;
            slice = refl;
            freed = rw d refl;
          },
        )
      ]
    ]

pub schedule_lem :
    {s : Scheduler} {next : ℕ} {rest : List ℕ}
    → IsStopped s
    → Next s next rest
    → (s' : Scheduler) × (schedule s ≡ ok s') × Switched s next rest s'
unfolding schedule
schedule_lem {s} {next} {rest} v n =
    let alive = (v.ordered.placed next).alive (Next-listed v.ordered n) in
    let (s', e, w) = reap-switched v n in
    (s', rw (v.stopped, Next-choose n) (assert-true _ alive ∙ e), w)
