-- ===== src/Palloc/Free.antt =====
-- palloc_free_multiple and palloc_get_page_index.
use os_project.Common.{
  ℕ, ◌+◌, ◌*◌, ◌%◌, ◌≤◌, ◌<◌, ◌≡◌, refl, sym, ◌∙◌, Bool, true, false, not, ◌==◌, ◌||◌, arith, ok,
  err, assertion, ◌>>=◌, inr, u32,
}
use mathlib.Core.Path.{subst}
use os_project.Bitmap.{Bitmap, bitmap_error}
use os_project.Bitmap.Bits.{bit_of}
use os_project.Bitmap.Range.{IsRun, IsFill}
use os_project.Palloc.State.{
  Allocator, Pool, page_size, the_pool, put_pool, memset, has_flag, pal_user, pal_zero,
}
use os_project.Palloc.Alloc.{
  page_from_pool, page_index, free_to_pool, palloc_free_multiple, palloc_get_page_index,
  palloc_get_multiple,
}
use os_project.Palloc.Placement.{Full, Placed, placed, full}
use os_project.Palloc.Calls.{Frees, free_to_pool_lem, free_to_pool_twice}
use os_project.Palloc.Get.{IsReady, IsAllocator, the_pool-IsReady, Got, palloc_get_multiple_lem}

-- The page with index `idx` of a pool.
abbrev pub page_at : Pool → ℕ → ℕ
page_at p idx = p.base + page_size * idx

page_from_pool-own :
    {p : Pool} (idx : ℕ)
    → IsReady p
    → idx < p.used_map.bit_cnt
    → (page_from_pool p (page_at p idx) ≡ true) × (page_index p (page_at p idx) ≡ idx)
unfolding page_from_pool
page_from_pool-own idx v h = (ground (arith, v.aligned, v.ends), omega (arith, v.aligned, v.ends))

page_from_pool-other :
    {a : Allocator} (idx : ℕ)
    → IsAllocator a
    → page_from_pool a.kernel_pool (page_at a.user_pool idx) ≡ false
unfolding page_from_pool
page_from_pool-other idx v = ground (arith, v.kernel.aligned, v.user.aligned, v.apart)

-- palloc_get_page_index gives back the index of every page of both pools.
pub palloc_get_page_index_lem :
    (a : Allocator) (user : Bool) (idx : ℕ)
    → IsAllocator a
    → idx < (the_pool user a).used_map.bit_cnt
    → palloc_get_page_index (page_at (the_pool user a) idx) a ≡ idx
unfolding palloc_get_page_index
palloc_get_page_index_lem a true idx v h =
    let (own, e) = page_from_pool-own idx v.user h in rw (page_from_pool-other idx v, own) e
palloc_get_page_index_lem a false idx v h =
    let (own, e) = page_from_pool-own idx v.kernel h in rw own e

-- What palloc_free_multiple did to `cnt` pages from index `idx` on.
pub record Freed (user : Bool) (idx cnt : ℕ) (a b : Allocator) : Type 0 where
  pub frees : Frees (the_pool user a) idx cnt (the_pool user b)
  pub other : the_pool (not user) b ≡ the_pool (not user) a
  pub same_mode : b.current_palloc_mode ≡ a.current_palloc_mode
  pub memory :
      (addr : ℕ)
      → b.mem addr ≡ memset (page_at (the_pool user a) idx) 0xcc (page_size * cnt) a.mem addr
  pub valid : IsAllocator b

Frees-IsReady : {p q : Pool} {idx cnt : ℕ} → IsReady p → Frees p idx cnt q → IsReady q
Frees-IsReady v f = record {
  pool = f.pool;
  lock = f.lock;
  aligned = ground (arith, v.aligned, f.same_base);
  not_null = omega (arith, v.not_null, f.same_base);
  ends = omega (arith, v.ends, f.same_base, f.fill.same_size);
}

-- What the guards of palloc_free_multiple see of the pages of a pool.
free_guards :
    {p : Pool} (idx cnt : ℕ)
    → IsReady p
    → 0 < cnt
    → idx + cnt ≤ p.used_map.bit_cnt
    → (((page_at p idx % page_size) == 0) ≡ true)
      × (((page_at p idx == 0) || (cnt == 0)) ≡ false)
      × (u32 (page_size * cnt) ≡ page_size * cnt)
free_guards idx cnt v pos inside =
    (ground (arith, v.aligned), ground (arith, v.not_null), omega (arith, v.ends, v.not_null))

-- The call finds the pool and the index of its pages.
free_dispatch :
    (cur : ℕ) (a : Allocator) (user : Bool) (idx cnt : ℕ)
    → IsAllocator a
    → 0 < cnt
    → idx + cnt ≤ (the_pool user a).used_map.bit_cnt
    → let pages = page_at (the_pool user a) idx in
      palloc_free_multiple cur pages cnt a ≡ (
        free_to_pool cur (the_pool user a) idx cnt >>= λ q.
        ok (put_pool user q (record a { mem = memset pages 0xcc (page_size * cnt) a.mem })))
unfolding palloc_free_multiple
free_dispatch cur a true idx cnt v pos inside =
    let (aligned, real, size) = free_guards idx cnt v.user pos inside in
    let (own, e) = page_from_pool-own idx v.user (omega arith) in
    rw (aligned, real, size, page_from_pool-other idx v, own, e)
free_dispatch cur a false idx cnt v pos inside =
    let (aligned, real, size) = free_guards idx cnt v.kernel pos inside in
    let (own, e) = page_from_pool-own idx v.kernel (omega arith) in rw (aligned, real, size, own, e)

put_pool-Freed :
    {a : Allocator} {q : Pool} {idx cnt : ℕ} (user : Bool)
    → IsAllocator a
    → Frees (the_pool user a) idx cnt q
    → let mem = memset (page_at (the_pool user a) idx) 0xcc (page_size * cnt) a.mem in
      Freed user idx cnt a (put_pool user q (record a { mem = mem }))
put_pool-Freed true v f = record {
  frees = f;
  other = refl;
  same_mode = refl;
  memory = λ addr. refl;
  valid = record {
    kernel = v.kernel;
    user = Frees-IsReady v.user f;
    apart = omega (arith, v.apart, f.same_base);
  };
}
put_pool-Freed false v f = record {
  frees = f;
  other = refl;
  same_mode = refl;
  memory = λ addr. refl;
  valid = record {
    kernel = Frees-IsReady v.kernel f;
    user = v.user;
    apart = omega (arith, v.apart, f.same_base, f.fill.same_size);
  };
}

-- palloc_free_multiple on pages of a pool that are all used makes them free and changes no other
-- page of either pool; it fills exactly their bytes with 0xcc.
pub palloc_free_multiple_lem :
    (cur : ℕ) (a : Allocator) (user : Bool) (idx cnt : ℕ)
    → IsAllocator a
    → 0 < cnt
    → idx + cnt ≤ (the_pool user a).used_map.bit_cnt
    → IsRun (the_pool user a).used_map idx cnt true
    → (b : Allocator) × (palloc_free_multiple cur (page_at (the_pool user a) idx) cnt a ≡ ok b)
      × Freed user idx cnt a b
palloc_free_multiple_lem cur a user idx cnt v pos inside used =
    let ready = the_pool-IsReady user v in
    let (q, e, f) =
      free_to_pool_lem cur (the_pool user a) idx cnt ready.pool ready.lock inside used in
    (_, rw (free_dispatch cur a user idx cnt v pos inside, e), put_pool-Freed user v f)

-- If one of the pages is free already, palloc_free_multiple fails its assertion.
pub palloc_free_multiple_twice :
    (cur : ℕ) (a : Allocator) (user : Bool) (idx cnt : ℕ)
    → IsAllocator a
    → 0 < cnt
    → idx + cnt ≤ (the_pool user a).used_map.bit_cnt
    → ¬ (IsRun (the_pool user a).used_map idx cnt true)
    → palloc_free_multiple cur (page_at (the_pool user a) idx) cnt a ≡ err assertion
palloc_free_multiple_twice cur a user idx cnt v pos inside not_used =
    let ready = the_pool-IsReady user v in
    rw (
      free_dispatch cur a user idx cnt v pos inside,
      free_to_pool_twice cur (the_pool user a) idx cnt ready.pool ready.lock inside not_used,
    )

-- A fill of free pages is undone by the opposite fill.
IsFill-undo :
    {a b c : Bitmap} {r : ℕ} (cnt : ℕ)
    → IsRun a r cnt false
    → IsFill a b r (r + cnt) true
    → IsFill b c r (r + cnt) false
    → (j : ℕ) → bit_of c j ≡ bit_of a j
IsFill-undo cnt run f g j = ground (arith, run j, f.inside j, f.outside j, g.inside j, g.outside j)

-- What was got can be given back: if palloc_get_multiple finds room, palloc_free_multiple accepts
-- the address it returned, and afterwards every page of the pool is used or free as it was before.
pub free-get :
    (cur flags cnt : ℕ) (a : Allocator)
    → IsAllocator a
    → 0 < cnt
    → ¬ (Full (the_pool (has_flag flags pal_user) a).used_map cnt)
    → (pages : ℕ) × (b : Allocator) × (c : Allocator) × (palloc_get_multiple cur flags cnt a
        ≡ ok (pages, b))
      × (palloc_free_multiple cur pages cnt b ≡ ok c)
      × ((j : ℕ)
          → let user = has_flag flags pal_user in
            bit_of (the_pool user c).used_map j ≡ bit_of (the_pool user a).used_map j)
      × IsAllocator c
free-get cur flags cnt a v pos room =
    let (pages, b, r, e, got, vb) = palloc_get_multiple_lem cur flags cnt a v pos (inr room) in
    let (here, used, inside) = where_placed got got.gets.placement in
    let (c, ec, freed) = palloc_free_multiple_lem cur b user r cnt vb pos inside used in
    (
      pages,
      b,
      c,
      e,
      subst (λ x. palloc_free_multiple cur x cnt b ≡ ok c) (sym here) ec,
      restored got.gets.placement freed,
      freed.valid,
    )
  where
    user : Bool
    user = has_flag flags pal_user

    where_placed :
        {r pages : ℕ} {b : Allocator}
        → Got user (has_flag flags pal_zero) cnt a r pages b
        → Placed (the_pool user a).used_map cnt r (the_pool user b).used_map
        → (pages ≡ page_at (the_pool user b) r)
          × IsRun (the_pool user b).used_map r cnt true
          × (r + cnt ≤ (the_pool user b).used_map.bit_cnt)
    where_placed {r} got (placed inside _ fill) =
        let real : (r == bitmap_error) ≡ false =
          ground (arith, (the_pool-IsReady user v).pool.valid.room) in
        (
          got.result ∙ rw (real, got.gets.same_base),
          (λ j p q. fill.inside j p q),
          omega (arith, got.gets.same_size),
        )
    where_placed got (full _ _ none_fit) = absurd (room none_fit)

    restored :
        {r : ℕ} {b c : Allocator}
        → Placed (the_pool user a).used_map cnt r (the_pool user b).used_map
        → Freed user r cnt b c
        → (j : ℕ) → bit_of (the_pool user c).used_map j ≡ bit_of (the_pool user a).used_map j
    restored (placed _ run fill) freed j = IsFill-undo cnt run fill freed.frees.fill j
    restored (full _ _ none_fit) freed j = absurd (room none_fit)
