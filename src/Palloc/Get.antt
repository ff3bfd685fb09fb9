-- ===== src/Palloc/Get.antt =====
-- palloc_get_multiple: the address it returns, and what it does to the pools and to memory.
use os_project.Common.{
  ℕ, ◌+◌, ◌*◌, ◌%◌, ◌^◌, ◌≤◌, ◌<◌, ◌≡◌, ◌≢◌, ◌↔◌, refl, Bool, true, false, not, ◌==◌, ◌&&◌,
  if◌then◌else◌, arith, ok, err, panic, inl, inr, Bool-cases, u32, ◌⊎◌, ltb, leb, ℕ_discrete,
}
use os_project.Bitmap.{Bitmap, bitmap_error}
use os_project.Bitmap.Bits.{IsValid}
use os_project.Synch.Locks.{IsFree}
use os_project.Palloc.State.{
  Allocator, Pool, Mode, page_size, pal_assert, pal_zero, pal_user, has_flag, memset, the_pool,
  put_pool,
}
use os_project.Palloc.Alloc.{get_from_pool, palloc_get_multiple, finish_get}
use os_project.Palloc.Placement.{Full, Placed, placed, full, IsPool}
use os_project.Palloc.Calls.{Gets, get_from_pool_lem}

-- A pool between calls: its lock is free and its pages are whole pages of the address space.
pub record IsReady (p : Pool) : Type 0 where
  pub pool : IsPool p
  pub lock : IsFree p.lock
  pub aligned : p.base % page_size ≡ 0
  pub not_null : 0 < p.base
  pub ends : p.base + page_size * p.used_map.bit_cnt ≤ 2 ^ 32

-- The allocator between calls: the user pool lies behind the kernel pool.
pub record IsAllocator (a : Allocator) : Type 0 where
  pub kernel : IsReady a.kernel_pool
  pub user : IsReady a.user_pool
  pub apart : a.kernel_pool.base + page_size * a.kernel_pool.used_map.bit_cnt ≤ a.user_pool.base

pub the_pool-IsReady : {a : Allocator} (user : Bool) → IsAllocator a → IsReady (the_pool user a)
the_pool-IsReady true v = v.user
the_pool-IsReady false v = v.kernel

-- The address for the index `r`: 0 for BITMAP_ERROR.
abbrev pub address : Pool → ℕ → ℕ
address p r = if r == bitmap_error then 0 else p.base + page_size * r

-- What palloc_get_multiple did: `r` is the index found in the pool.
pub record Got (user zero : Bool) (cnt : ℕ) (a : Allocator) (r pages : ℕ) (b : Allocator)
    : Type 0 where
  pub gets : Gets a.current_palloc_mode (the_pool user a) cnt r (the_pool user b)
  pub other : the_pool (not user) b ≡ the_pool (not user) a
  pub same_mode : b.current_palloc_mode ≡ a.current_palloc_mode
  pub result : pages ≡ address (the_pool user a) r
  pub memory :
      (addr : ℕ)
      → b.mem addr ≡ (
          if not (pages == 0) && zero && leb pages addr && ltb addr (pages + page_size * cnt)
          then 0
          else a.mem addr)

module _ {mode : Mode} {p q : Pool} {cnt r : ℕ} (v : IsReady p) (g : Gets mode p cnt r q) where
  Gets-IsReady : IsReady q
  Gets-IsReady = record {
    pool = g.pool;
    lock = g.lock;
    aligned = ground (arith, v.aligned, g.same_base);
    not_null = omega (arith, v.not_null, g.same_base);
    ends = omega (arith, v.ends, g.same_base, g.same_size);
  }

  -- An index that was found is real, and its pages end inside the pool.
  Gets-inside : r ≢ bitmap_error → r + cnt ≤ p.used_map.bit_cnt
  Gets-inside ne = inside g.placement
    where
      inside : Placed p.used_map cnt r q.used_map → r + cnt ≤ p.used_map.bit_cnt
      inside (placed h _ _) = h
      inside (full e _ _) = absurd (ne e)

  found_address :
      0 < cnt
      → r ≢ bitmap_error
      → (u32 (q.base + u32 (page_size * r)) ≡ p.base + page_size * r)
        × (u32 (page_size * cnt) ≡ page_size * cnt)
  found_address pos ne = (
    omega (arith, v.ends, v.not_null, g.same_base, Gets-inside ne),
    omega (arith, v.ends, v.not_null, Gets-inside ne),
  )

-- Memory after the call, for the address `pages`.
abbrev zeroed : Bool → ℕ → ℕ → (ℕ → ℕ) → ℕ → ℕ
zeroed zero cnt pages mem =
    if not (pages == 0) && zero then memset pages 0 (page_size * cnt) mem else mem

zeroed_lem :
    (zero : Bool) (cnt pages : ℕ) (mem : ℕ → ℕ) (addr : ℕ)
    → zeroed zero cnt pages mem addr ≡ (
        if not (pages == 0) && zero && leb pages addr && ltb addr (pages + page_size * cnt)
        then 0
        else mem addr)
zeroed_lem zero cnt pages mem addr = elim (Bool-cases (not (pages == 0))) [
  | inl t ↦ rw t (elim zero as (λ z. zeroed_by z ≡ expected z) [ true ↦ refl | false ↦ refl ])
  | inr t ↦ rw t
]
  where
    zeroed_by : Bool → ℕ
    zeroed_by z = (if z then memset pages 0 (page_size * cnt) mem else mem) addr

    expected : Bool → ℕ
    expected z = if z && leb pages addr && ltb addr (pages + page_size * cnt) then 0 else mem addr

finish_get_lem :
    {mode : Mode} {p q : Pool} (flags cnt r : ℕ) (mem : ℕ → ℕ)
    → IsReady p
    → 0 < cnt
    → (has_flag flags pal_assert ≡ false) ⊎ (r ≢ bitmap_error)
    → Gets mode p cnt r q
    → finish_get flags cnt r q mem
      ≡ ok (address p r, zeroed (has_flag flags pal_zero) cnt (address p r) mem)
finish_get_lem {p} {q} flags cnt r mem v pos calm g = elim (ℕ_discrete r bitmap_error) [
  | yes e ↦
      let missing : (r == bitmap_error) ≡ true = ground arith in
      rw missing (elim calm [ inl quiet ↦ rw quiet | inr real ↦ absurd (real e) ])
  | no ne ↦
      let real : (r == bitmap_error) ≡ false = ground arith in
      let (eb, ec) = found_address v g pos ne in
      let nonnull : ((p.base + page_size * r) == 0) ≡ false = ground (arith, v.not_null) in
      rw (real, eb, ec, nonnull)
]

-- A call that does not panic: without PAL_ASSERT, or with a run of free pages at hand.
abbrev pub IsCalm : Bool → Bitmap → ℕ → Type 0
IsCalm assert map cnt = (assert ≡ false) ⊎ (¬ (Full map cnt))

calm_index :
    {cnt r : ℕ} {b c : Bitmap} (assert : Bool)
    → IsCalm assert b cnt
    → Placed b cnt r c
    → IsValid b
    → (assert ≡ false) ⊎ (r ≢ bitmap_error)
calm_index assert (inl quiet) pl v = inl quiet
calm_index assert (inr room) (placed inside _ _) v = inr (omega (arith, v.room, inside))
calm_index assert (inr room) (full e _ none_fit) v = absurd (room none_fit)

put_pool-IsAllocator :
    {a : Allocator} {mode : Mode} {cnt r : ℕ} {q : Pool} (user : Bool) (mem : ℕ → ℕ)
    → IsAllocator a
    → Gets mode (the_pool user a) cnt r q
    → IsAllocator (put_pool user q (record a { mem = mem }))
put_pool-IsAllocator true mem v g = record {
  kernel = v.kernel;
  user = Gets-IsReady v.user g;
  apart = omega (arith, v.apart, g.same_base);
}
put_pool-IsAllocator false mem v g = record {
  kernel = Gets-IsReady v.kernel g;
  user = v.user;
  apart = omega (arith, v.apart, g.same_base, g.same_size);
}

put_pool-Got :
    {a : Allocator} {cnt r : ℕ} {q : Pool} (user zero : Bool)
    → Gets a.current_palloc_mode (the_pool user a) cnt r q
    → let pages = address (the_pool user a) r in
      Got user zero cnt a r pages (put_pool user q (record a { mem = zeroed zero cnt pages a.mem }))
put_pool-Got {a} {cnt} {r} true zero g = record {
  gets = g;
  other = refl;
  same_mode = refl;
  result = refl;
  memory = zeroed_lem zero cnt (address a.user_pool r) a.mem;
}
put_pool-Got {a} {cnt} {r} false zero g = record {
  gets = g;
  other = refl;
  same_mode = refl;
  result = refl;
  memory = zeroed_lem zero cnt (address a.kernel_pool r) a.mem;
}

-- palloc_get_multiple, asked for at least one page, returns unless it must panic. The address is
-- that of the index which `get_from_pool` answers, or NULL; under PAL_ZERO the pages, and no other
-- byte, are zero; the other pool is untouched, and the allocator is ready for the next call.
pub palloc_get_multiple_lem :
    (cur flags cnt : ℕ) (a : Allocator)
    → IsAllocator a
    → 0 < cnt
    → IsCalm (has_flag flags pal_assert) (the_pool (has_flag flags pal_user) a).used_map cnt
    → (pages : ℕ) × (b : Allocator) × (r : ℕ) × (palloc_get_multiple cur flags cnt a
        ≡ ok (pages, b))
      × Got (has_flag flags pal_user) (has_flag flags pal_zero) cnt a r pages b
      × IsAllocator b
unfolding palloc_get_multiple
palloc_get_multiple_lem cur flags cnt a v pos calm =
    let user = has_flag flags pal_user in
    let some_pages : (cnt == 0) ≡ false = ground arith in
    let ready = the_pool-IsReady user v in
    let (r, q, e, g) =
      get_from_pool_lem cur a.current_palloc_mode (the_pool user a) cnt ready.pool ready.lock pos in
    let calm' = calm_index (has_flag flags pal_assert) calm g.placement ready.pool.valid in
    let pages = address (the_pool user a) r in
    (
      pages,
      put_pool user q (record a { mem = zeroed (has_flag flags pal_zero) cnt pages a.mem }),
      r,
      rw (some_pages, e, finish_get_lem flags cnt r a.mem ready pos calm' g),
      put_pool-Got user (has_flag flags pal_zero) g,
      put_pool-IsAllocator user (zeroed (has_flag flags pal_zero) cnt pages a.mem) v g,
    )

Full-missing :
    {map c : Bitmap} {cnt r : ℕ} → Full map cnt → Placed map cnt r c → (r == bitmap_error) ≡ true
Full-missing {r} none_fit (placed inside run _) = absurd (none_fit r inside run)
Full-missing none_fit (full e _ _) = ground arith

-- With PAL_ASSERT set, palloc_get_multiple panics exactly when the pool has no run of `cnt` free pages.
pub palloc_get_multiple_panic_iff :
    (cur flags cnt : ℕ) (a : Allocator)
    → IsAllocator a
    → 0 < cnt
    → has_flag flags pal_assert ≡ true
    → (palloc_get_multiple cur flags cnt a ≡ err panic)
      ↔ Full (the_pool (has_flag flags pal_user) a).used_map cnt
palloc_get_multiple_panic_iff cur flags cnt a v pos loud =
    let (r, q, e, g) =
      get_from_pool_lem cur a.current_palloc_mode (the_pool user a) cnt ready.pool ready.lock pos in
    (no_room g.placement, panics r q e g)
  where
    user : Bool
    user = has_flag flags pal_user

    ready : IsReady (the_pool user a)
    ready = the_pool-IsReady user v

    no_room :
        {r : ℕ} {c : Bitmap}
        → Placed (the_pool user a).used_map cnt r c
        → palloc_get_multiple cur flags cnt a ≡ err panic
        → Full (the_pool user a).used_map cnt
    no_room (full _ _ none_fit) h = none_fit
    no_room {r} (placed inside run _) h =
        let (pages, b, i, e, _, _) =
          palloc_get_multiple_lem cur flags cnt a v pos (inr (λ nf. nf r inside run)) in
        cc

    panics :
        (r : ℕ) (q : Pool)
        → get_from_pool cur a.current_palloc_mode (the_pool user a) cnt ≡ ok (r, q)
        → Gets a.current_palloc_mode (the_pool user a) cnt r q
        → Full (the_pool user a).used_map cnt
        → palloc_get_multiple cur flags cnt a ≡ err panic
    panics r q e g none_fit =
        let some_pages : (cnt == 0) ≡ false = ground arith in
        unfold palloc_get_multiple in rw (some_pages, e, Full-missing none_fit g.placement, loud)
