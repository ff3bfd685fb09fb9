-- ===== src/Palloc/Buddy.antt =====
-- buddy_system_free frees more than one allocation.
use os_project.Common.{
  ℕ, zero, suc, ◌+◌, ◌≤◌, ◌<◌, ◌≡◌, true, false, ◌==◌, arith, ok, inl, inr, Bool-cases, u32, ◌⊎◌,
  ltb, dec_lt,
}
use os_project.Bitmap.{Bitmap}
use os_project.Bitmap.Bits.{bit_of, IsValid}
use os_project.Bitmap.Single.{bitmap_test_lem}
use os_project.Bitmap.Range.{IsRun, range_tests, bitmap_set_multiple_lem}
use os_project.Synch.{lock_init}
use os_project.Synch.Locks.{lock_acquire_now-IsFree, lock_release-held}
use os_project.Palloc.State.{Pool}
use os_project.Palloc.Alloc.{page_index, extend_used, buddy_system_free}
use os_project.Palloc.Get.{IsReady}
use os_project.Palloc.Free.{page_at}

-- The `n` used pages from `idx` on, up to the next free page or the end of the map.
record UsedUpTo (b : Bitmap) (idx n : ℕ) : Type 0 where
  run : IsRun b idx n true
  fits : idx + n ≤ b.bit_cnt
  end : (idx + n ≡ b.bit_cnt) ⊎ (bit_of b (idx + n) ≡ false)

extend_used_lem :
    (fuel : ℕ) (b : Bitmap) (idx cnt : ℕ)
    → IsValid b
    → IsRun b idx cnt true
    → idx + cnt ≤ b.bit_cnt
    → b.bit_cnt < fuel + (idx + cnt)
    → (n : ℕ) × (extend_used fuel b idx cnt ≡ ok n) × UsedUpTo b idx n
unfolding extend_used
extend_used_lem zero b idx cnt v run inside enough = absurd (omega arith)
extend_used_lem (suc fuel) b idx cnt v run inside enough =
    let no_wrap : u32 (idx + cnt) ≡ idx + cnt = omega (arith, v.room) in
    let no_wrap' : u32 (cnt + 1) ≡ cnt + 1 = omega (arith, v.room) in
    elim (Bool-cases (ltb (idx + cnt) b.bit_cnt)) [
      | inr t ↦
          (cnt, rw (no_wrap, t), record { run = run; fits = inside; end = inl (ground arith) })
      | inl t ↦ elim (Bool-cases (bit_of b (idx + cnt))) [
        | inr free ↦ (
          cnt,
          rw (no_wrap, t, bitmap_test_lem b (idx + cnt) v (ground arith), free),
          record { run = run; fits = inside; end = inr free },
        )
        | inl used ↦
            rw (no_wrap, no_wrap', t, bitmap_test_lem b (idx + cnt) v (ground arith), used)
              (extend_used_lem fuel b idx (cnt + 1) v
                (λ j p q. elim (dec_lt j (idx + cnt)) [
                  | yes old ↦ run j p old
                  | no new ↦ let e : idx + cnt ≡ j = omega arith in rw (← e) used
                ])
                (ground arith) (omega arith))
      ]
    ]

-- Used pages from `idx` to `j` are all covered.
UsedUpTo-covers :
    {b : Bitmap} {idx n j : ℕ}
    → UsedUpTo b idx n
    → j < b.bit_cnt
    → idx ≤ j
    → ((i : ℕ) → idx ≤ i → i ≤ j → bit_of b i ≡ true)
    → j < idx + n
UsedUpTo-covers {b} {idx} {n} {j} up inside ge used = elim (dec_lt j (idx + n)) [
  | yes h ↦ h
  | no h ↦ absurd (ground (arith, up.end, used (idx + n)))
]

-- buddy_system_free on the address of a used page returns, and frees every used page from there to
-- the next free page or the end of the pool, whatever allocations they belong to: if all pages from
-- `idx` to `j` are used, page `j` is free afterwards.
pub buddy_system_free-run :
    (cur : ℕ) (p : Pool) (idx j : ℕ)
    → IsReady p
    → idx ≤ j
    → j < p.used_map.bit_cnt
    → ((i : ℕ) → idx ≤ i → i ≤ j → bit_of p.used_map i ≡ true)
    → (q : Pool) × (buddy_system_free cur p (page_at p idx) ≡ ok q) × (bit_of q.used_map j ≡ false)
unfolding buddy_system_free
buddy_system_free-run cur p idx j v ge inside used =
    let map = p.used_map in
    let valid = v.pool.valid in
    let (n, en, up) =
      extend_used_lem (map.bit_cnt + 2) map idx 1 valid (λ i p q. used i p (omega arith))
        (omega arith) (omega arith) in
    let (t, et, iff) = (range_tests map idx n valid up.fits).0 in
    let is_true : t ≡ true = iff.1 up.run in
    let (c, ec, fill) = bitmap_set_multiple_lem map idx n false valid up.fits in
    let index : page_index p (page_at p idx) ≡ idx = omega (arith, v.aligned, v.ends) in
    let real : (page_at p idx == 0) ≡ false = ground (arith, v.not_null) in
    (
      record p { lock = lock_init; used_map = c },
      rw (
        index,
        real,
        lock_acquire_now-IsFree cur v.lock,
        en,
        et,
        is_true,
        ec,
        lock_release-held cur,
      ),
      fill.inside j ge (UsedUpTo-covers up inside ge used),
    )
