-- ===== src/Palloc/Holes.antt =====
-- Maximal runs of free pages, which `find_best_fit` visits from left to right.
use os_project.Common.{
  ℕ, zero, suc, ◌+◌, ◌-◌, ◌≤◌, ◌<◌, ◌≡◌, ◌⊎◌, inl, inr, refl, ap, ◌∙◌, true, false, arith, ok,
  Bool-cases, dec_lt, ℕ_discrete,
}
use os_project.Bitmap.{Bitmap, bitmap_error}
use os_project.Bitmap.Bits.{bit_of, IsValid}
use os_project.Bitmap.Single.{bitmap_test_lem}
use os_project.Bitmap.Range.{IsRun}
use os_project.Bitmap.Scan.{FirstRun, found, missing}
use os_project.Palloc.Search.{count_free}

-- `n` free pages from `lo` on, with a used page or an end of the map on both sides.
pub record IsHole (b : Bitmap) (lo n : ℕ) : Type 0 where
  pub pos : 0 < n
  pub fits : lo + n ≤ b.bit_cnt
  pub run : IsRun b lo n false
  pub left : (lo ≡ 0) ⊎ (bit_of b (lo - 1) ≡ true)
  pub right : (lo + n ≡ b.bit_cnt) ⊎ (bit_of b (lo + n) ≡ true)

-- Two holes that overlap are one.
pub holes_meet :
    {b : Bitmap} {fs n lo m : ℕ}
    → IsHole b fs n
    → IsHole b lo m
    → fs ≤ lo
    → lo < fs + n
    → (lo ≡ fs) × (m ≡ n)
holes_meet {b} {fs} {n} {lo} {m} h k p q = elim (dec_lt fs lo) [
  | yes later ↦ absurd (ground (arith, h.run (lo - 1), k.left))
  | no same ↦
      let e : lo ≡ fs = omega arith in
      (e, ground (arith, h.run (lo + m), k.run (fs + n), h.right, k.right, h.fits, k.fits))
]

-- Every page of the run counted by the inner loop is free, and the run cannot go on.
pub count_free_lem :
    (b : Bitmap) (left cur acc : ℕ)
    → IsValid b
    → cur + left ≡ b.bit_cnt
    → (n : ℕ) × (count_free b left cur acc ≡ ok (acc + n))
      × (cur + n ≤ b.bit_cnt)
      × IsRun b cur n false
      × ((cur + n ≡ b.bit_cnt) ⊎ (bit_of b (cur + n) ≡ true))
unfolding count_free
count_free_lem b zero cur acc v e =
    (0, ap ok (omega arith), omega arith, (λ j p q. absurd (omega arith)), inl (omega arith))
count_free_lem b (suc left) cur acc v e =
    rw (bitmap_test_lem b cur v (omega arith)) (elim (Bool-cases (bit_of b cur)) [
      | inl used ↦ (
        0,
        rw used (ap ok (omega arith)),
        omega arith,
        (λ j p q. absurd (omega arith)),
        inr (let e0 : cur + 0 ≡ cur = omega arith in rw e0 used),
      )
      | inr free ↦ rw free (go free (count_free_lem b left (cur + 1) (acc + 1) v (omega arith)))
    ])
  where
    go :
        bit_of b cur ≡ false
        → (n : ℕ) × (count_free b left (cur + 1) (acc + 1) ≡ ok (acc + 1 + n))
          × (cur + 1 + n ≤ b.bit_cnt)
          × IsRun b (cur + 1) n false
          × ((cur + 1 + n ≡ b.bit_cnt) ⊎ (bit_of b (cur + 1 + n) ≡ true))
        → (n : ℕ) × (count_free b left (cur + 1) (acc + 1) ≡ ok (acc + n))
          × (cur + n ≤ b.bit_cnt)
          × IsRun b cur n false
          × ((cur + n ≡ b.bit_cnt) ⊎ (bit_of b (cur + n) ≡ true))
    go free (n, ec, fits, run, right) =
        let shift : cur + 1 + n ≡ cur + suc n = omega arith in
        (
          suc n,
          ec ∙ ap ok (omega arith),
          omega arith,
          (λ j p q. elim (ℕ_discrete cur j) [
            | yes e ↦ rw (← e) free
            | no ne ↦ run j (omega arith) (omega arith)
          ]),
          rw shift at right,
        )

-- Between `idx` and `fs` all pages are used.
abbrev pub Used : Bitmap → ℕ → ℕ → Type 0
Used b idx fs = (i : ℕ) → idx ≤ i → i < fs → bit_of b i ≡ true

-- A search for one free page that fails at `i` shows that the page is used.
no_run-used : (b : Bitmap) (i : ℕ) → ¬ (IsRun b i 1 false) → bit_of b i ≡ true
no_run-used b i no_run = elim (Bool-cases (bit_of b i)) [
  | inl used ↦ used
  | inr free ↦ absurd (no_run (λ j p q. (let e : i ≡ j = omega arith in rw (← e) free)))
]

-- `bitmap_scan` for one free page finds the next one, or there is none.
pub data NextFree (b : Bitmap) (idx r : ℕ) : Type 0 where
  at : idx ≤ r → r < b.bit_cnt → bit_of b r ≡ false → Used b idx r → NextFree b idx r
  nowhere : r ≡ bitmap_error → Used b idx b.bit_cnt → NextFree b idx r

pub NextFree-of : {b : Bitmap} {idx r : ℕ} → FirstRun b idx 1 false r → NextFree b idx r
NextFree-of {b} {idx} {r} (found p q run none_before) =
    at p (omega arith) (run r (omega arith) (omega arith))
      (λ i ge lt. no_run-used b i (none_before i ge lt))
NextFree-of {b} (missing e none_run) =
    nowhere e (λ i ge lt. no_run-used b i (none_run i ge (omega arith)))

-- A hole does not start among used pages.
pub hole_outside :
    {b : Bitmap} {idx fs lo m : ℕ} → Used b idx fs → IsHole b lo m → lo < fs → lo < idx
hole_outside {b} {idx} {fs} {lo} {m} used h below = elim (dec_lt lo idx) [
  | yes p ↦ p
  | no p ↦ absurd (ground (arith, used lo, h.run lo, h.pos))
]

-- A run of free pages lies in a hole.
hole_right :
    (b : Bitmap) (left lo n : ℕ)
    → lo + n + left ≡ b.bit_cnt
    → IsRun b lo n false
    → (m : ℕ) × (n ≤ m)
      × (lo + m ≤ b.bit_cnt)
      × IsRun b lo m false
      × ((lo + m ≡ b.bit_cnt) ⊎ (bit_of b (lo + m) ≡ true))
hole_right b zero lo n e run = (n, omega arith, omega arith, run, inl (omega arith))
hole_right b (suc left) lo n e run = elim (Bool-cases (bit_of b (lo + n))) [
  | inl used ↦ (n, omega arith, omega arith, run, inr used)
  | inr free ↦
      let (m, p, q, run', right) = hole_right b left lo (n + 1) (omega arith) (λ j ge lt.
        elim (dec_lt j (lo + n)) [
          | yes old ↦ run j ge old
          | no new ↦ let e' : lo + n ≡ j = omega arith in rw (← e') free
        ]) in
      (m, omega arith, q, run', right)
]

hole_left :
    (b : Bitmap) (lo n : ℕ)
    → IsRun b lo n false
    → (lo' : ℕ) × (lo' ≤ lo)
      × IsRun b lo' (lo - lo' + n) false
      × ((lo' ≡ 0) ⊎ (bit_of b (lo' - 1) ≡ true))
hole_left b zero n run = (0, omega arith, (λ j p q. run j p (omega arith)), inl refl)
hole_left b (suc lo) n run = elim (Bool-cases (bit_of b lo)) [
  | inl used ↦ (suc lo, omega arith, (λ j p q. run j p (omega arith)), inr (ground arith))
  | inr free ↦
      let (lo', p, run', left) = hole_left b lo (suc n) (λ j ge lt. elim (ℕ_discrete lo j) [
        | yes e ↦ rw (← e) free
        | no ne ↦ run j (omega arith) (omega arith)
      ]) in
      (lo', omega arith, (λ j ge lt. run' j ge (omega arith)), left)
]

pub run_extends :
    (b : Bitmap) (lo n : ℕ)
    → 0 < n
    → lo + n ≤ b.bit_cnt
    → IsRun b lo n false
    → (lo' : ℕ) × (m : ℕ) × IsHole b lo' m × (n ≤ m)
run_extends b lo n pos inside run =
    let (lo', p, run', left) = hole_left b lo n run in
    let (m, q, inside', run'', right) =
      hole_right b (b.bit_cnt - (lo + n)) lo' (lo - lo' + n) (omega arith) run' in
    (
      lo',
      m,
      record { pos = omega arith; fits = inside'; run = run''; left = left; right = right },
      omega arith,
    )
