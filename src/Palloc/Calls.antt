-- ===== src/Palloc/Calls.antt =====
-- get_from_pool and free_to_pool: the parts of palloc_get_multiple and palloc_free_multiple that run
-- under the lock of a pool, and the mode switch.
use os_project.Common.{
  ℕ, ◌+◌, ◌≤◌, ◌<◌, ◌≡◌, refl, true, false, arith, ok, err, assertion, inl, inr, Bool-cases,
}
use os_project.Bitmap.{Bitmap}
use os_project.Bitmap.Range.{IsRun, IsFill, bitmap_set_multiple_lem, range_tests}
use os_project.Bitmap.Scan.{FirstRun}
use os_project.Synch.{lock_init}
use os_project.Synch.Locks.{
  IsFree, held, lock_acquire_now-IsFree, lock_release-held, lock_init-IsFree,
}
use os_project.Palloc.State.{Pool, Mode}
use os_project.Palloc.Search.{find_fit}
use os_project.Palloc.Alloc.{get_from_pool, free_to_pool}
use os_project.Palloc.Placement.{Placed, IsPool, Searched, Searches}
use os_project.Palloc.Policies.{NextRun, find_first_fit_lem, find_next_fit_lem}
use os_project.Palloc.BestHole.{BestHole}
use os_project.Palloc.BestFit.{find_best_fit_lem}

-- Where each mode places `cnt` pages; the buddy mode does what first fit does.
abbrev pub Policy : Mode → Bitmap → ℕ → ℕ → ℕ → Type 0
Policy Mode.first_fit map start cnt r = FirstRun map 0 cnt false r
Policy Mode.next_fit map start cnt r = NextRun map start cnt r
Policy Mode.best_fit map start cnt r = BestHole map cnt r
Policy Mode.buddy map start cnt r = FirstRun map 0 cnt false r

find_fit_lem :
    (mode : Mode) (p : Pool) (cnt : ℕ)
    → IsPool p
    → 0 < cnt
    → Searches
        (find_fit mode p cnt)
        (λ r q. Searched p cnt r q × Policy mode p.used_map p.next_fit_start_idx cnt r)
unfolding find_fit
find_fit_lem Mode.first_fit p cnt v pos =
    let (r, q, e, (s, f, _)) = find_first_fit_lem p cnt v in (r, q, e, (s, f))
find_fit_lem Mode.next_fit p cnt v pos =
    let (r, q, e, (s, f, _)) = find_next_fit_lem p cnt v in (r, q, e, (s, f))
find_fit_lem Mode.best_fit p cnt v pos =
    let (r, q, e, (s, f, _)) = find_best_fit_lem p cnt v pos in (r, q, e, (s, f))
find_fit_lem Mode.buddy p cnt v pos =
    let (r, q, e, (s, f, _)) = find_first_fit_lem p cnt v in (r, q, e, (s, f))

-- What a request for `cnt` pages does to a pool, the lock included.
pub record Gets (mode : Mode) (p : Pool) (cnt r : ℕ) (q : Pool) : Type 0 where
  pub placement : Placed p.used_map cnt r q.used_map
  pub policy : Policy mode p.used_map p.next_fit_start_idx cnt r
  pub pool : IsPool q
  pub lock : IsFree q.lock
  pub same_base : q.base ≡ p.base
  pub same_size : q.used_map.bit_cnt ≡ p.used_map.bit_cnt

-- In every mode, a request for at least one page from a pool whose lock is free returns with the
-- lock free again. If a run of that many free pages exists, one is found where the mode says, and
-- exactly its pages become used; if none exists, the answer is BITMAP_ERROR and the map is as before.
pub get_from_pool_lem :
    (cur : ℕ) (mode : Mode) (p : Pool) (cnt : ℕ)
    → IsPool p
    → IsFree p.lock
    → 0 < cnt
    → Searches (get_from_pool cur mode p cnt) (Gets mode p cnt)
unfolding get_from_pool
get_from_pool_lem cur mode p cnt v free pos =
    let p' : Pool = record p { lock = held cur } in
    let v' : IsPool p' = record { valid = v.valid; cursor = v.cursor } in
    let (r, q, e, (s, policy)) = find_fit_lem mode p' cnt v' pos in
    (
      r,
      record q { lock = lock_init },
      rw (lock_acquire_now-IsFree cur free, e, s.same_lock, lock_release-held cur),
      record {
        placement = s.placement;
        policy = policy;
        pool = record { valid = s.pool.valid; cursor = s.pool.cursor };
        lock = lock_init-IsFree;
        same_base = s.same_base;
        same_size = s.same_size;
      },
    )

-- What freeing `cnt` pages from index `idx` on does to a pool.
pub record Frees (p : Pool) (idx cnt : ℕ) (q : Pool) : Type 0 where
  pub fill : IsFill p.used_map q.used_map idx (idx + cnt) false
  pub pool : IsPool q
  pub lock : IsFree q.lock
  pub same_base : q.base ≡ p.base
  pub same_cursor : q.next_fit_start_idx ≡ p.next_fit_start_idx

-- If all the pages are used they become free and nothing else changes.
pub free_to_pool_lem :
    (cur : ℕ) (p : Pool) (idx cnt : ℕ)
    → IsPool p
    → IsFree p.lock
    → idx + cnt ≤ p.used_map.bit_cnt
    → IsRun p.used_map idx cnt true
    → (q : Pool) × (free_to_pool cur p idx cnt ≡ ok q) × Frees p idx cnt q
unfolding free_to_pool
free_to_pool_lem cur p idx cnt v free inside used =
    let (t, et, iff) = (range_tests p.used_map idx cnt v.valid inside).0 in
    let is_true : t ≡ true = iff.1 used in
    let (c, ec, fill) = bitmap_set_multiple_lem p.used_map idx cnt false v.valid inside in
    (
      record p { lock = lock_init; used_map = c },
      rw (lock_acquire_now-IsFree cur free, et, is_true, ec, lock_release-held cur),
      record {
        fill = fill;
        pool = record { valid = fill.valid; cursor = omega (arith, v.cursor, fill.same_size) };
        lock = lock_init-IsFree;
        same_base = refl;
        same_cursor = refl;
      },
    )

-- If one of the pages is free the call fails its assertion: a double free is caught.
pub free_to_pool_twice :
    (cur : ℕ) (p : Pool) (idx cnt : ℕ)
    → IsPool p
    → IsFree p.lock
    → idx + cnt ≤ p.used_map.bit_cnt
    → ¬ (IsRun p.used_map idx cnt true)
    → free_to_pool cur p idx cnt ≡ err assertion
unfolding free_to_pool
free_to_pool_twice cur p idx cnt v free inside not_used =
    let (t, et, iff) = (range_tests p.used_map idx cnt v.valid inside).0 in
    elim (Bool-cases t) [
      | inl yes' ↦ absurd (not_used (iff.0 yes'))
      | inr no' ↦ rw (lock_acquire_now-IsFree cur free, et, no')
    ]
