-- ===== src/Palloc/BestHole.antt =====
-- How find_best_fit keeps the best hole: the invariant of its outer loop.
use os_project.Common.{
  ℕ, ◌+◌, ◌≤◌, ◌<◌, ◌≡◌, ◌⊎◌, inl, inr, Bool, true, false, ◌&&◌, arith, dec_lt, leb, ltb, size_max,
}
use os_project.Bitmap.{Bitmap, bitmap_error}
use os_project.Bitmap.Bits.{IsValid}
use os_project.Palloc.Holes.{IsHole, holes_meet, Used, hole_outside}

-- What the loop knows of the holes that start before `idx`.
pub data Best (b : Bitmap) (cnt idx best_idx best_size : ℕ) : Type 0 where
  none_yet :
      best_idx ≡ bitmap_error
      → best_size ≡ size_max
      → ((lo m : ℕ) → IsHole b lo m → lo < idx → m < cnt)
      → Best b cnt idx best_idx best_size
  best :
      IsHole b best_idx best_size
      → best_idx < idx
      → cnt ≤ best_size
      → ((lo m : ℕ)
          → IsHole b lo m
          → lo < idx
          → cnt ≤ m
          → (best_size ≤ m) × (m ≡ best_size → best_idx ≤ lo))
      → Best b cnt idx best_idx best_size

-- The answer of best fit: the start of a hole of `n ≥ cnt` pages, where no hole that is large
-- enough is smaller, and none of that size lies before; or there is no hole large enough.
pub data BestHole (b : Bitmap) (cnt r : ℕ) : Type 0 where
  fits :
      (n : ℕ)
      → IsHole b r n
      → cnt ≤ n
      → ((lo m : ℕ) → IsHole b lo m → cnt ≤ m → (n ≤ m) × (m ≡ n → r ≤ lo))
      → BestHole b cnt r
  too_small : r ≡ bitmap_error → ((lo m : ℕ) → IsHole b lo m → m < cnt) → BestHole b cnt r

-- The loop has passed all holes.
pub Best-done :
    {b : Bitmap} {cnt idx bi bs : ℕ}
    → Best b cnt idx bi bs
    → ((lo m : ℕ) → IsHole b lo m → lo < idx)
    → BestHole b cnt bi
Best-done (none_yet e _ small) passed = too_small e (λ lo m h. small lo m h (passed lo m h))
Best-done {bs} (best h _ large least) passed =
    fits bs h large (λ lo m k large'. least lo m k (passed lo m k) large')

-- The next hole after `idx`, of `n` pages from `fs` on.
pub record NextHole (b : Bitmap) (idx fs n : ℕ) : Type 0 where
  pub hole : IsHole b fs n
  pub after : idx ≤ fs
  pub gap : Used b idx fs

-- A hole that starts before the end of the next hole lies before it or is it.
NextHole-split :
    {b : Bitmap} {idx fs n : ℕ}
    → NextHole b idx fs n
    → (lo m : ℕ) → IsHole b lo m
    → lo < fs + n
    → (lo < idx) ⊎ ((lo ≡ fs) × (m ≡ n))
NextHole-split {fs} x lo m h below = elim (dec_lt lo fs) [
  | yes p ↦ inl (hole_outside x.gap h p)
  | no p ↦ inr (holes_meet x.hole h (omega arith) below)
]

abbrev pub better : ℕ → ℕ → ℕ → Bool
better cnt n bs = leb cnt n && ltb n bs

module _ {b : Bitmap} {cnt idx fs n : ℕ} (x : NextHole b idx fs n) where
  pub Best-better :
      {bi bs : ℕ} → better cnt n bs ≡ true → Best b cnt idx bi bs → Best b cnt (fs + n) fs n
  Best-better {bi} {bs} t (none_yet e es small) =
      best x.hole (omega (arith, x.hole.pos)) (ground arith) (λ lo m h below large.
        elim (NextHole-split x lo m h below) [
          | inl before ↦ absurd (omega (arith, small lo m h before))
          | inr same ↦ (omega (arith, same.1), (λ _. omega (arith, same.0)))
        ])
  Best-better {bi} {bs} t (best k early large least) =
      best x.hole (omega (arith, x.hole.pos)) (ground arith) (λ lo m h below large'.
        elim (NextHole-split x lo m h below) [
          | inl before ↦
              let l : bs ≤ m = (least lo m h before large').0 in
              (ground arith, (λ e. absurd (ground arith)))
          | inr same ↦ (omega (arith, same.1), (λ _. omega (arith, same.0)))
        ])

  pub Best-same :
      {bi bs : ℕ}
      → IsValid b
      → better cnt n bs ≡ false
      → Best b cnt idx bi bs
      → Best b cnt (fs + n) bi bs
  Best-same {bi} {bs} v t (none_yet e es small) = none_yet e es (λ lo m h below.
      elim (NextHole-split x lo m h below) [
        | inl before ↦ small lo m h before
        | inr same ↦ ground (arith, same.1, x.hole.fits, v.room)
      ])
  Best-same {bi} {bs} v t (best k early large least) =
      best k (omega (arith, x.after)) large (λ lo m h below large'.
        elim (NextHole-split x lo m h below) [
          | inl before ↦ least lo m h before large'
          | inr same ↦ (ground (arith, same.1), (λ _. omega (arith, same.0, x.after)))
        ])

  pub Best-exact :
      {bi bs : ℕ} → better cnt n bs ≡ true → n ≡ cnt → Best b cnt idx bi bs → BestHole b cnt fs
  Best-exact {bi} {bs} t exact known = fits n x.hole (omega arith) (λ lo m h large. (
    omega arith,
    (λ e. elim (dec_lt lo fs) [
      | yes p ↦ absurd (before known lo m h (hole_outside x.gap h p) e)
      | no p ↦ omega arith
    ]),
  ))
    where
      before : Best b cnt idx bi bs → (lo m : ℕ) → IsHole b lo m → lo < idx → m ≡ n → ⊥
      before (none_yet _ _ small) lo m h p e = omega (arith, small lo m h p)
      before (best _ _ _ least) lo m h p e =
          let l : bs ≤ m = (least lo m h p (omega arith)).0 in ground arith
