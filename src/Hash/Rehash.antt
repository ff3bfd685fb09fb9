-- ===== src/Hash/Rehash.antt =====
-- rehash of lib/kernel/hash.c gives the elements the number of buckets they need, and keeps them.
use native.Mathlib.Nat.{pow-suc}
use os_project.Common.{
  ℕ, zero, suc, ◌+◌, ◌*◌, ◌/◌, ◌^◌, ◌≤◌, ◌<◌, ◌≡◌, refl, sym, ap, Bool, true, false, not,
  if◌then◌else◌, ltb, ok, count, count-append, length, length-append, arith, ℕ_discrete, dec_lt,
  inl, inr, ◌⊎◌, Returns, Returns-weaken,
}
use os_project.Common.Bits.{pow-lt}
use os_project.Links.Lists.{ne-false}
use os_project.Hash.{Table, move_buckets, rehash, fresh_buckets, best_bucket_cnt, power_loop}
use os_project.Hash.Powers.{power_loop_lem}
use os_project.Hash.Elements.{
  equal-true, from_bucket, from_bucket_lem, gather_none, elements, gather,
}
use os_project.Hash.Moves.{Moved, move_buckets_lem}
use os_project.Hash.Find.{IsPlaced}

zero_plus : (n : ℕ) → 0 + n ≡ n
zero_plus n = omega arith

module _ (hash : ℕ → ℕ) (less : ℕ → ℕ → Bool) where
  -- The ideal bucket count is between the new one and twice as many.
  abbrev pub IsBest : Table → Type 0
  IsBest h = (h.bucket_cnt ≤ best_bucket_cnt h) × (best_bucket_cnt h < h.bucket_cnt * 2)

  pub record Rehashed (room : Bool) (h h' : Table) : Type 0 where
    pub layout : IsPlaced hash less h'
    pub same_cnt : h'.elem_cnt ≡ h.elem_cnt
    pub counts : (t : ℕ) → count t (elements h') ≡ count t (elements h)
    pub size : length (elements h') ≡ length (elements h)
    pub best : (room ≡ false) ⊎ IsBest h'

  fresh-IsPlaced :
      (h : Table) (j : ℕ) → 2 ≤ j → j < 32 → IsPlaced hash less (fresh_buckets h (2 ^ j))
  fresh-IsPlaced h j four few = record {
    digits = j;
    power = refl;
    few = few;
    four = four;
    placed = λ i t below inside. let no : ⊥ = omega (arith, inside) in elim no [ ];
  }

  log2 : (bound x : ℕ) → x < bound → 0 < x → (j : ℕ) × (2 ^ j ≤ x) × (x < 2 ^ suc j)
  log2 zero x below pos = let no : ⊥ = omega arith in elim no [ ]
  log2 (suc bound) x below pos = elim (ℕ_discrete (x / 2) 0) [
    | yes one ↦ (0, omega (arith, pos), omega (arith, one))
    | no more ↦
        let (j, low, high) = log2 bound (x / 2) (omega (arith, below, pos)) (omega (arith, more)) in
        (suc j, omega (arith, low, pow-suc 2 j), omega (arith, high, pow-suc 2 (suc j)))
  ]

  digits_bound : (j n x : ℕ) → 2 ^ j ≤ x → x < 2 ^ n → j < n
  digits_bound j n x low high = elim (dec_lt j n) [
    | yes below ↦ below
    | no above ↦ elim (ℕ_discrete n j) [
      | yes same ↦ let no : ⊥ = omega (arith, low, high, ap (λ k. 2 ^ k) same) in elim no [ ]
      | no other ↦
          let no : ⊥ = omega (arith, low, high, pow-lt n j (omega (arith, above, other))) in
          elim no [ ]
    ]
  ]

  -- The bucket count that rehash chooses.
  record Chosen (h : Table) : Type 0 where
    digits : ℕ
    four : 2 ≤ digits
    few : digits < 32
    low : 2 ^ digits ≤ best_bucket_cnt h
    high : best_bucket_cnt h < 2 ^ suc digits
    found : power_loop 32 (best_bucket_cnt h) ≡ ok (2 ^ digits)

  chosen : (h : Table) → h.elem_cnt < 0x1_0000_0000 → Chosen h
  chosen h small =
      let least : 4 ≤ best_bucket_cnt h = ground (arith, small) in
      let most : best_bucket_cnt h < 0x8000_0000 = ground (arith, small) in
      let (j, low, high) =
        log2 (suc (best_bucket_cnt h)) (best_bucket_cnt h) (omega arith) (omega (arith, least)) in
      let few = digits_bound j 32 (best_bucket_cnt h) low (omega (arith, most)) in
      record {
        digits = j;
        four =
            omega (arith, digits_bound 2 (suc j) (best_bucket_cnt h) (omega (arith, least)) high);
        few = few;
        low = low;
        high = high;
        found = power_loop_lem j (best_bucket_cnt h) 32 low high (omega (arith, most)) few;
      }

  unchanged :
      (room : Bool) (h : Table)
      → IsPlaced hash less h
      → (room ≡ false) ⊎ IsBest h
      → Rehashed room h h
  unchanged room h p best = record {
    layout = p;
    same_cnt = refl;
    counts = λ t. refl;
    size = refl;
    best = best;
  }

  best_lem :
      (h h' : Table) (c : Chosen h)
      → h'.bucket_cnt ≡ 2 ^ c.digits
      → h'.elem_cnt ≡ h.elem_cnt
      → IsBest h'
  best_lem h h' c power same =
      let e = ap (λ n. if ltb (n / 2) 4 then 4 else (n / 2)) same in
      (omega (arith, c.low, power, e), omega (arith, c.high, power, e, pow-suc 2 c.digits))

  moved_all :
      (h : Table) (c : Chosen h)
      → Returns
          (Rehashed true h)
          (move_buckets hash h.bucket_cnt 0 h.buckets (fresh_buckets h (2 ^ c.digits)))
  moved_all h c =
      let new = fresh_buckets h (2 ^ c.digits) in
      Returns-weaken (Moved hash less new (from_bucket h.bucket_cnt 0 h.buckets)) (Rehashed true h)
        (move_buckets hash h.bucket_cnt 0 h.buckets new)
        (λ h' d. record {
          layout = d.layout;
          same_cnt = d.same_cnt;
          counts = λ t. omega (
            arith,
            d.counts t,
            gather_none (λ us. count t us) (count-append t) refl (2 ^ c.digits),
            from_bucket_lem (λ us. count t us) (count-append t) refl h.bucket_cnt 0 h.buckets,
            ap (λ k. count t (gather k h.buckets)) (zero_plus h.bucket_cnt),
          );
          size = omega (
            arith,
            d.size,
            gather_none (λ us. length us) length-append refl (2 ^ c.digits),
            from_bucket_lem (λ us. length us) length-append refl h.bucket_cnt 0 h.buckets,
            ap (λ k. length (gather k h.buckets)) (zero_plus h.bucket_cnt),
          );
          best = inr (best_lem h h' c d.same_buckets d.same_cnt);
        })
        (move_buckets_lem hash less h.bucket_cnt 0 h.buckets new
          (fresh-IsPlaced h c.digits c.four c.few))

  rehash_moved :
      (room : Bool) (h : Table) (c : Chosen h)
      → IsPlaced hash less h
      → Returns (Rehashed room h) (
          if not room
          then ok h
          else move_buckets hash h.bucket_cnt 0 h.buckets (fresh_buckets h (2 ^ c.digits)))
  rehash_moved true h c p = moved_all h c
  rehash_moved false h c p = unchanged false h p (inl refl)

  -- rehash ends with every element in its bucket: the table has the same elements as before, and unless
  -- no memory is left, as many buckets as the greatest power of 2 that is not above the ideal number.
  pub rehash_lem :
      (room : Bool) (h : Table)
      → IsPlaced hash less h
      → h.elem_cnt < 0x1_0000_0000
      → Returns (Rehashed room h) (rehash hash room h)
  unfolding rehash
  rehash_lem room h p small =
      let c = chosen h small in
      rw c.found (elim (ℕ_discrete (2 ^ c.digits) h.bucket_cnt) [
        | yes same ↦
            rw (equal-true (2 ^ c.digits) h.bucket_cnt same)
              (unchanged room h p (inr (best_lem h h c (sym same) refl)))
        | no other ↦ rw (ne-false (2 ^ c.digits) h.bucket_cnt other) (rehash_moved room h c p)
      ])
