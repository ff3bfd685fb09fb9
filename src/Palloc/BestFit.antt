-- ===== src/Palloc/BestFit.antt =====
-- find_best_fit returns the first of the smallest holes that are large enough.
use os_project.Common.{
  ℕ, zero, suc, ◌+◌, ◌-◌, ◌≤◌, ◌<◌, ◌≡◌, ◌⊎◌, inl, inr, refl, ap, ◌∙◌, true, false, ◌==◌, ◌&&◌,
  if◌then◌else◌, arith, ok, Bool-cases, dec_lt, ℕ_discrete, ltb, u32, size_max, Result, ◌>>=◌,
}
use os_project.Bitmap.{Bitmap, bitmap_error, bitmap_set_multiple}
use os_project.Bitmap.Bits.{bit_of, IsValid}
use os_project.Bitmap.Range.{IsRun, bitmap_set_multiple_lem}
use os_project.Bitmap.Scan.{bitmap_scan_lem}
use os_project.Palloc.State.{Pool}
use os_project.Palloc.Search.{count_free, best_loop, find_best_fit}
use os_project.Palloc.Placement.{Full, IsPool, Searched, Searches}
use os_project.Palloc.Policies.{Searched-Placed, Searched-Full}
use os_project.Palloc.Holes.{
  IsHole, count_free_lem, Used, NextFree, at, nowhere, NextFree-of, hole_outside, run_extends,
}
use os_project.Palloc.BestHole.{
  Best, none_yet, BestHole, fits, too_small, Best-done, NextHole, better, Best-better, Best-same,
  Best-exact,
}

-- The loop from `idx` on ends with the answer.
abbrev Answers : Result ℕ → Bitmap → ℕ → Type 0
Answers m b cnt = (r : ℕ) × (m ≡ ok r) × BestHole b cnt r

-- What the hole found next makes of the best so far.
abbrev next_idx : ℕ → ℕ → ℕ → ℕ → ℕ → ℕ
next_idx cnt n bs fs bi = if better cnt n bs then fs else bi

abbrev next_size : ℕ → ℕ → ℕ → ℕ
next_size cnt n bs = if better cnt n bs then n else bs

Best-next :
    {b : Bitmap} {cnt idx fs n bi bs : ℕ}
    → IsValid b
    → NextHole b idx fs n
    → Best b cnt idx bi bs
    → Best b cnt (fs + n) (next_idx cnt n bs fs bi) (next_size cnt n bs)
Best-next {cnt} {n} {bs} v x known = elim (Bool-cases (better cnt n bs)) [
  | inl t ↦ rw t (Best-better x t known)
  | inr t ↦ rw t (Best-same x v t known)
]

-- One round that finds a hole: the exact fit ends the loop, else the loop goes on behind the hole.
round_end :
    {b : Bitmap} {cnt idx fs n bi bs : ℕ} {rest : Result ℕ}
    → NextHole b idx fs n
    → Best b cnt idx bi bs
    → Answers rest b cnt
    → Answers (if better cnt n bs && n == cnt then ok (next_idx cnt n bs fs bi) else rest) b cnt
round_end {cnt} {fs} {n} {bs} x known rest = elim (Bool-cases (better cnt n bs)) [
  | inl t ↦ elim (ℕ_discrete n cnt) [
    | yes e ↦ (fs, ground arith, Best-exact x t e known)
    | no ne ↦ let (r, er, a) = rest in (r, ground arith, a)
  ]
  | inr t ↦ let (r, er, a) = rest in (r, rw t er, a)
]

-- Where the loop may stand: no hole reaches across `idx`.
abbrev Edge : Bitmap → ℕ → Type 0
Edge b idx = (idx ≡ 0) ⊎ ((b.bit_cnt ≤ idx) ⊎ (bit_of b idx ≡ true))

-- The free page found at `r` and the count of free pages from there are a hole.
next_hole :
    {b : Bitmap} {idx r : ℕ} (n : ℕ)
    → Edge b idx
    → idx ≤ r
    → r < b.bit_cnt
    → bit_of b r ≡ false
    → Used b idx r
    → r + n ≤ b.bit_cnt
    → IsRun b r n false
    → (r + n ≡ b.bit_cnt) ⊎ (bit_of b (r + n) ≡ true)
    → NextHole b idx r n
next_hole {b} {idx} {r} n edge p q free used inside run right = record {
  hole = record { pos = pos n right; fits = inside; run = run; left = left; right = right };
  after = p;
  gap = used;
}
  where
    pos : (k : ℕ) → (r + k ≡ b.bit_cnt) ⊎ (bit_of b (r + k) ≡ true) → 0 < k
    pos zero end = let e : r + 0 ≡ r = omega arith in absurd (ground (arith, ap (bit_of b) e))
    pos (suc k) end = omega arith

    left : (r ≡ 0) ⊎ (bit_of b (r - 1) ≡ true)
    left = elim (dec_lt idx r) [
      | yes later ↦ inr (used (r - 1) (omega arith) (omega arith))
      | no here ↦ let e : idx ≡ r = omega arith in ground (arith, ap (bit_of b) e)
    ]

-- The edge behind a hole.
NextHole-Edge : {b : Bitmap} {idx fs n : ℕ} → NextHole b idx fs n → Edge b (fs + n)
NextHole-Edge x = elim (x.hole.right) [ inl e ↦ inr (inl (omega arith)) | inr e ↦ inr (inr e) ]

-- What the loop does inside the map, with `loop` for its later rounds.
abbrev round_from : Bitmap → ℕ → ℕ → ℕ → (ℕ → ℕ → ℕ → Result ℕ) → ℕ → Result ℕ
round_from b cnt bi bs loop r =
    if r == bitmap_error
    then ok bi
    else (count_free b (b.bit_cnt - r) r 0 >>= λ n.
        let rest = loop (u32 (r + n)) (next_idx cnt n bs r bi) (next_size cnt n bs) in
        if better cnt n bs && n == cnt then ok (next_idx cnt n bs r bi) else rest)

round_from_lem :
    {b : Bitmap} {cnt idx bi bs fuel : ℕ} (loop : ℕ → ℕ → ℕ → Result ℕ)
    → IsValid b
    → Edge b idx
    → idx < b.bit_cnt
    → b.bit_cnt - idx < suc fuel
    → Best b cnt idx bi bs
    → ((idx' bi' bs' : ℕ)
        → Edge b idx'
        → b.bit_cnt - idx' < fuel
        → Best b cnt idx' bi' bs'
        → Answers (loop idx' bi' bs') b cnt)
    → (r : ℕ) → NextFree b idx r
    → Answers (round_from b cnt bi bs loop r) b cnt
round_from_lem {bi} loop v edge inside enough known later r (nowhere e used) = (
  bi,
  ground arith,
  Best-done known (λ lo m h. hole_outside used h (omega (arith, h.fits, h.pos))),
)
round_from_lem {b} {cnt} {idx} {bi} {bs} loop v edge inside enough known later r
      (at p q free used) =
    let (n, ec, inside', run, right) = count_free_lem b (b.bit_cnt - r) r 0 v (omega arith) in
    let real : (r == bitmap_error) ≡ false = ground (arith, v.room) in
    let no_wrap : u32 (r + n) ≡ r + n = omega (arith, v.room) in
    let x : NextHole b idx r n = next_hole n edge p q free used inside' run right in
    let count : count_free b (b.bit_cnt - r) r 0 ≡ ok n = ec ∙ ap ok (omega arith) in
    rw (real, count, no_wrap)
      (round_end x known (
        later (r + n) (next_idx cnt n bs r bi) (next_size cnt n bs) (NextHole-Edge x)
          (omega (arith, x.hole.pos)) (Best-next v x known)))

best_loop_lem :
    (fuel : ℕ) (b : Bitmap) (cnt idx bi bs : ℕ)
    → IsValid b
    → Edge b idx
    → b.bit_cnt - idx < fuel
    → Best b cnt idx bi bs
    → Answers (best_loop fuel b cnt idx bi bs) b cnt
unfolding best_loop
best_loop_lem zero b cnt idx bi bs v edge enough known = absurd (omega arith)
best_loop_lem (suc fuel) b cnt idx bi bs v edge enough known =
    elim (Bool-cases (ltb idx b.bit_cnt)) [
      | inr t ↦ rw t (bi, refl, Best-done known (λ lo m h. ground (arith, h.fits, h.pos)))
      | inl t ↦
          let (r, er, f) = bitmap_scan_lem b idx 1 false v (ground arith) in
          rw (t, er)
            (round_from_lem (best_loop fuel b cnt) v edge (ground arith) enough known
              (λ i bi' bs'. best_loop_lem fuel b cnt i bi' bs' v) r (NextFree-of f))
    ]

-- If no hole is large enough there is no room at all.
too_small-Full :
    {b : Bitmap} {cnt : ℕ} → 0 < cnt → ((lo m : ℕ) → IsHole b lo m → m < cnt) → Full b cnt
too_small-Full {b} {cnt} pos small i inside run =
    let (lo, m, h, large) = run_extends b i cnt pos inside run in omega (arith, small lo m h)

-- find_best_fit, asked for at least one page, claims the first of the smallest holes that are large
-- enough, or reports that there is no room; its loops end, and the cursor of next fit stays.
pub find_best_fit_lem :
    (p : Pool) (cnt : ℕ)
    → IsPool p
    → 0 < cnt
    → Searches (find_best_fit p cnt) (λ r q.
      Searched p cnt r q
      × BestHole p.used_map cnt r
      × (q.next_fit_start_idx ≡ p.next_fit_start_idx))
unfolding find_best_fit
find_best_fit_lem p cnt v pos =
    let start : Best p.used_map cnt 0 bitmap_error size_max =
      none_yet refl refl (λ lo m h below. absurd (omega arith)) in
    let (r, er, a) =
      best_loop_lem (p.used_map.bit_cnt + 1) p.used_map cnt 0 bitmap_error size_max v.valid
        (inl refl) (omega arith) start in
    rw er (claim r a)
  where
    claim :
        (r : ℕ)
        → BestHole p.used_map cnt r
        → Searches
            (if◌then◌else◌ {A = Result (ℕ × Pool)} (r == bitmap_error) (ok (r, p)) (
              bitmap_set_multiple p.used_map r cnt true >>= λ map.
              ok (r, record p { used_map = map })))
            (λ r q.
              Searched p cnt r q
              × BestHole p.used_map cnt r
              × (q.next_fit_start_idx ≡ p.next_fit_start_idx))
    claim r (fits n h large least) =
        let inside : r + cnt ≤ p.used_map.bit_cnt = omega (arith, h.fits) in
        let (c, ec, fill) = bitmap_set_multiple_lem p.used_map r cnt true v.valid inside in
        let real : (r == bitmap_error) ≡ false = ground (arith, v.valid.room, h.fits, h.pos) in
        (
          r,
          record p { used_map = c },
          rw (real, ec),
          (
            Searched-Placed inside (λ j ge lt. h.run j ge (omega arith)) fill v.cursor refl refl,
            fits n h large least,
            refl,
          ),
        )
    claim r (too_small e small) = (
      r,
      p,
      ground arith,
      (Searched-Full v e (too_small-Full pos small), too_small e small, refl),
    )
