-- ===== src/Bitmap/Scan.antt =====
-- bitmap_scan, bitmap_scan_and_flip and bitmap_create_in_buf.
use os_project.Common.{
  ℕ, zero, suc, ◌+◌, ◌-◌, ◌≤◌, ◌<◌, ◌^◌, ◌≡◌, ◌≢◌, inl, inr, refl, Bool, true, false, not, ◌==◌,
  if◌then◌else◌, arith, ok, err, assertion, Result, leb, ◌>>=◌, Bool-cases, ℕ_discrete, List,
  length, get_or,
}
use os_project.Bitmap.{
  Bitmap, bitmap_error, bitmap_scan, bitmap_scan_and_flip, scan_loop, bitmap_set_multiple,
  bitmap_set_all, bitmap_create_in_buf, bitmap_buf_size, elem_cnt, elem_bits,
}
use os_project.Bitmap.Bits.{IsValid}
use os_project.Bitmap.Range.{
  IsRun, IsFill, all_bits, all_bits-IsRun, IsRun-all_bits, bitmap_contains_lem,
  bitmap_set_multiple_lem,
}

-- What a first-fit search for `cnt` bits `v` at or after `start` may return: the first index where
-- such a run fits, or BITMAP_ERROR if there is none.
pub data FirstRun (b : Bitmap) (start cnt : ℕ) (v : Bool) (r : ℕ) : Type 0 where
  found :
      start ≤ r
      → r + cnt ≤ b.bit_cnt
      → IsRun b r cnt v
      → ((i : ℕ) → start ≤ i → i < r → ¬ (IsRun b i cnt v))
      → FirstRun b start cnt v r
  missing :
      r ≡ bitmap_error
      → ((i : ℕ) → start ≤ i → i + cnt ≤ b.bit_cnt → ¬ (IsRun b i cnt v))
      → FirstRun b start cnt v r

abbrev Scans : Result ℕ → Bitmap → ℕ → ℕ → Bool → Type 0
Scans m b start cnt v = (r : ℕ) × (m ≡ ok r) × FirstRun b start cnt v r

-- The search goes on past an index where no run starts.
FirstRun-later :
    {b : Bitmap} {i cnt : ℕ} {v : Bool} {r : ℕ}
    → ¬ (IsRun b i cnt v)
    → FirstRun b (i + 1) cnt v r
    → FirstRun b i cnt v r
FirstRun-later {b} {i} {cnt} {v} no_run (found p q run first) =
    found (omega arith) q run (λ j ge lt. elim (ℕ_discrete i j) [
      | yes e ↦ rw (← e) no_run
      | no ne ↦ first j (omega arith) lt
    ])
FirstRun-later {b} {i} {cnt} {v} no_run (missing e none_run) = missing e (λ j ge fits.
    elim (ℕ_discrete i j) [ yes e ↦ rw (← e) no_run | no ne ↦ none_run j (omega arith) fits ])

Scans-step :
    {b : Bitmap} {i cnt : ℕ} {v : Bool} {rest : Result ℕ} (t : Bool)
    → all_bits b i cnt v ≡ t
    → i + cnt ≤ b.bit_cnt
    → Scans rest b (i + 1) cnt v
    → Scans (if not (not t) then ok i else rest) b i cnt v
Scans-step {b} {i} {cnt} {v} true e h later =
    (i, refl, found (omega arith) h (all_bits-IsRun b i cnt v e) (λ j p q. absurd (omega arith)))
Scans-step {b} {i} {cnt} {v} false e h (r, er, f) =
    (r, er, FirstRun-later (λ run. (let e' = IsRun-all_bits b i cnt v run in ground arith)) f)

scan_loop_lem :
    (b : Bitmap) (left i cnt : ℕ) (v : Bool)
    → IsValid b
    → cnt ≤ b.bit_cnt
    → left ≡ b.bit_cnt - cnt + 1 - i
    → Scans (scan_loop b left i cnt v) b i cnt v
unfolding scan_loop
scan_loop_lem b zero i cnt v valid h e =
    (bitmap_error, refl, missing refl (λ j p q. absurd (omega arith)))
scan_loop_lem b (suc left) i cnt v valid h e =
    rw (bitmap_contains_lem b i cnt v valid (omega arith)) (
      Scans-step (all_bits b i cnt v) refl (omega arith)
        (scan_loop_lem b left (i + 1) cnt v valid h (omega arith)))

-- bitmap_scan from an index inside a valid bitmap returns: the first index from there on where `cnt`
-- bits are all `v`, or BITMAP_ERROR if there is none.
pub bitmap_scan_lem :
    (b : Bitmap) (start cnt : ℕ) (v : Bool)
    → IsValid b
    → start ≤ b.bit_cnt
    → (r : ℕ) × (bitmap_scan b start cnt v ≡ ok r) × FirstRun b start cnt v r
unfolding bitmap_scan
bitmap_scan_lem b start cnt v valid h =
    let ge : leb start b.bit_cnt ≡ true = ground arith in
    elim (Bool-cases (leb cnt b.bit_cnt)) [
      | inl fits ↦
          rw (ge, fits)
            (scan_loop_lem b (b.bit_cnt - cnt + 1 - start) start cnt v valid (ground arith) refl)
      | inr wide ↦ rw (ge, wide) (bitmap_error, refl, missing refl (λ j p q. absurd (ground arith)))
    ]

-- A start past the end fails the assertion.
pub bitmap_scan_past :
    (b : Bitmap) (start cnt : ℕ) (v : Bool)
    → b.bit_cnt < start
    → bitmap_scan b start cnt v ≡ err assertion
unfolding bitmap_scan
bitmap_scan_past b start cnt v h = ground arith

-- What bitmap_scan_and_flip may return: the first fit, flipped and nothing else, or BITMAP_ERROR
-- and the bitmap as it was.
pub record Flipped (b : Bitmap) (start cnt : ℕ) (v : Bool) (r : ℕ) (c : Bitmap) : Type 0 where
  pub first : FirstRun b start cnt v r
  pub flipped : r ≢ bitmap_error → IsFill b c r (r + cnt) (not v)
  pub untouched : r ≡ bitmap_error → c ≡ b

-- bitmap_scan_and_flip from an index inside the bitmap returns the first fit and flips exactly its
-- bits, or returns BITMAP_ERROR and leaves the bitmap alone.
pub bitmap_scan_and_flip_lem :
    (b : Bitmap) (start cnt : ℕ) (v : Bool)
    → IsValid b
    → start ≤ b.bit_cnt
    → (r : ℕ) × (c : Bitmap) × (bitmap_scan_and_flip b start cnt v ≡ ok (r, c))
      × Flipped b start cnt v r c
unfolding bitmap_scan_and_flip
bitmap_scan_and_flip_lem b start cnt v valid h =
    let (r, er, first) = bitmap_scan_lem b start cnt v valid h in rw er (flip r first)
  where
    flip :
        (r : ℕ)
        → FirstRun b start cnt v r
        → (r' : ℕ) × (c : Bitmap) × (if◌then◌else◌ {A = Result (ℕ × Bitmap)}
              (r == bitmap_error)
              (ok (r, b))
              (bitmap_set_multiple b r cnt (not v) >>= λ b'. ok (r, b'))
            ≡ ok (r', c))
          × Flipped b start cnt v r' c
    flip r (found p q run none_before) =
        let (c, ec, f) = bitmap_set_multiple_lem b r cnt (not v) valid q in
        let real : r ≢ bitmap_error = omega (arith, valid.room) in
        (
          r,
          c,
          rw ec (ground arith),
          record {
            first = found p q run none_before;
            flipped = λ _. f;
            untouched = λ e. absurd (real e);
          },
        )
    flip r (missing e none_run) = (
      r,
      b,
      ground arith,
      record { first = missing e none_run; flipped = λ ne. absurd (ne e); untouched = λ _. refl },
    )

-- bitmap_create_in_buf over a block that is large enough, whatever the block holds, returns a valid
-- bitmap of `bit_cnt` bits that are all off.
pub bitmap_create_in_buf_lem :
    (bit_cnt : ℕ) (storage : List ℕ) (block_size : ℕ)
    → bit_cnt + elem_bits ≤ 2 ^ 32
    → bitmap_buf_size bit_cnt ≤ block_size
    → elem_cnt bit_cnt ≤ length storage
    → ((i : ℕ) → get_or storage i 0 < 2 ^ 32)
    → (b : Bitmap) × (bitmap_create_in_buf bit_cnt storage block_size ≡ ok b)
      × IsValid b
      × (b.bit_cnt ≡ bit_cnt)
      × IsRun b 0 bit_cnt false
unfolding bitmap_create_in_buf bitmap_set_all
bitmap_create_in_buf_lem bit_cnt storage block_size room big enough words =
    let raw : Bitmap = record { bit_cnt = bit_cnt; bits = storage } in
    let valid : IsValid raw = record { room = room; enough = enough; words = words } in
    let ge : leb (bitmap_buf_size bit_cnt) block_size ≡ true = ground arith in
    let (c, ec, f) = bitmap_set_multiple_lem raw 0 bit_cnt false valid (omega arith) in
    (c, rw (ge, ec), f.valid, f.same_size, λ j p q. f.inside j p q)
