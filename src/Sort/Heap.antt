-- ===== src/Sort/Heap.antt =====
-- The heap sort of lib/stdlib.c: what a heap is, and what the steps of heapify do. Indexes start at 1.
use Prim.Native.Nat.{Ordering}
use os_project.Common.{
  ℕ, ◌-◌, ◌/◌, ◌≤◌, ◌<◌, ◌≡◌, ◌≢◌, ◌⊎◌, inl, inr, refl, ◌∙◌, arith, true, false, Bool-cases, List,
  length, get_or, set, length-set, get_or-set_self, get_or-set_ne, get_elem?-eq-get_or, leb, ok,
  ℕ_discrete,
}
use os_project.Sort.{do_swap, do_compare_more, larger, is_more}

-- `compare` orders the elements.
pub record IsOrder {ℓ} {A : Type ℓ} (compare : A → A → Ordering) : Type ℓ where
  pub flip : (x y : A) → is_more (compare x y) ≡ true → is_more (compare y x) ≡ false
  pub trans :
      (x y z : A)
      → is_more (compare x y) ≡ false
      → is_more (compare y z) ≡ false
      → is_more (compare x z) ≡ false

module _ {ℓ} {A : Type ℓ} (d : A) where
  -- The element with index i.
  abbrev pub element : List A → ℕ → A
  element xs i = get_or xs (i - 1) d

  pub record Swapped (xs ys : List A) (a b : ℕ) : Type ℓ where
    pub as_long : length ys ≡ length xs
    pub at_first : element ys a ≡ element xs b
    pub at_second : element ys b ≡ element xs a
    pub elsewhere : (c : ℕ) → 0 < c → c ≢ a → c ≢ b → element ys c ≡ element xs c

  pub do_swap-Swapped :
      (xs : List A) (a b : ℕ)
      → 0 < a
      → a < b
      → b ≤ length xs
      → (ys : List A) × (do_swap xs a b ≡ ok ys) × Swapped xs ys a b
  unfolding do_swap
  do_swap-Swapped xs a b pos order inside =
      let x = element xs a in
      let y = element xs b in
      let once = set xs (a - 1) y in
      let len : length once ≡ length xs = length-set xs (a - 1) y in
      (
        set once (b - 1) x,
        rw (get_elem?-eq-get_or xs (a - 1) d (omega (arith, order, inside, pos)))
            (rw (get_elem?-eq-get_or xs (b - 1) d (omega (arith, order, inside))) refl),
        record {
          as_long = length-set once (b - 1) x ∙ len;
          at_first =
              get_or-set_ne once (b - 1) (a - 1) x d (λ e. omega (arith, e, order, pos))
              ∙ get_or-set_self xs (a - 1) y d (omega (arith, order, inside, pos));
          at_second = get_or-set_self once (b - 1) x d (omega (arith, len, inside, order));
          elsewhere = λ c above a_not b_not.
              get_or-set_ne once (b - 1) (c - 1) x d
                (λ e. b_not (omega (arith, e, above, order, pos)))
              ∙ get_or-set_ne xs (a - 1) (c - 1) y d (λ e. a_not (omega (arith, e, above, pos)));
        },
      )

module _ {ℓ} {A : Type ℓ} (d : A) (compare : A → A → Ordering) (order : IsOrder compare) where
  -- x is not more than y.
  abbrev pub Le : A → A → Type 0
  Le x y = is_more (compare x y) ≡ false

  pub Le-refl : (x : A) → Le x x
  Le-refl x = elim (Bool-cases (is_more (compare x x))) [
    | inl more ↦ order.flip x x more
    | inr less ↦ less
  ]

  -- The larger of two elements.
  pub record IsLarger (xs : List A) (cnt child max m : ℕ) : Type ℓ where
    pub which : (m ≡ max) ⊎ ((m ≡ child) × (child ≤ cnt))
    pub first_le : Le (element d xs max) (element d xs m)
    pub second_le : child ≤ cnt → Le (element d xs child) (element d xs m)

  pub larger-IsLarger :
      (xs : List A) (cnt child max : ℕ)
      → cnt ≤ length xs
      → 0 < child
      → 0 < max
      → max ≤ cnt
      → (m : ℕ) × (larger compare xs cnt child max ≡ ok m) × IsLarger xs cnt child max m
  unfolding larger do_compare_more
  larger-IsLarger xs cnt child max inside pos pos' le = elim (Bool-cases (leb child cnt)) [
    | inl e ↦
        let below : child ≤ cnt = ground (arith, e) in
        let rc = get_elem?-eq-get_or xs (child - 1) d (omega (arith, below, inside, pos)) in
        let rm = get_elem?-eq-get_or xs (max - 1) d (omega (arith, le, inside, pos')) in
        elim (Bool-cases (is_more (compare (element d xs child) (element d xs max)))) [
          | inl more ↦ (
            child,
            rw (e, rc, rm, more) refl,
            record {
              which = inr (refl, below);
              first_le = order.flip (element d xs child) (element d xs max) more;
              second_le = λ h. Le-refl (element d xs child);
            },
          )
          | inr less ↦ (
            max,
            rw (e, rc, rm, less) refl,
            record {
              which = inl refl;
              first_le = Le-refl (element d xs max);
              second_le = λ h. less;
            },
          )
        ]
    | inr e ↦ (
      max,
      rw e refl,
      record {
        which = inl refl;
        first_le = Le-refl (element d xs max);
        second_le = λ h. absurd (ground (arith, e, h));
      },
    )
  ]

  -- Below the indexes from lo on, no element is more than its parent.
  abbrev pub IsHeap : List A → ℕ → ℕ → Type 0
  IsHeap xs lo cnt =
      (c : ℕ) → 2 ≤ c → c ≤ cnt → lo ≤ c / 2 → Le (element d xs c) (element d xs (c / 2))

  -- The same but for the children of i, which are not more than the parent of i.
  pub record IsAlmostHeap (xs : List A) (lo cnt i : ℕ) : Type ℓ where
    pub others :
        (c : ℕ)
        → 2 ≤ c
        → c ≤ cnt
        → lo ≤ c / 2
        → c / 2 ≢ i
        → Le (element d xs c) (element d xs (c / 2))
    pub above :
        (c : ℕ)
        → c ≤ cnt
        → c / 2 ≡ i
        → 2 ≤ i
        → lo ≤ i / 2
        → Le (element d xs c) (element d xs (i / 2))

  -- What stays true of the elements while one floats down among the first cnt.
  pub record Sifted (cnt : ℕ) (xs ys : List A) : Type ℓ where
    pub as_long : length ys ≡ length xs
    pub outside : (c : ℕ) → cnt < c → element d ys c ≡ element d xs c
    pub bounded :
        (x : A)
        → ((c : ℕ) → 0 < c → c ≤ cnt → Le (element d xs c) x)
        → (c : ℕ) → 0 < c
        → c ≤ cnt
        → Le (element d ys c) x

  pub Sifted-trans :
      {cnt : ℕ} {xs ys zs : List A} → Sifted cnt xs ys → Sifted cnt ys zs → Sifted cnt xs zs
  Sifted-trans p q = record {
    as_long = q.as_long ∙ p.as_long;
    outside = λ c h. q.outside c h ∙ p.outside c h;
    bounded = λ x h. q.bounded x (p.bounded x h);
  }

  pub Swapped-Sifted :
      (cnt a b : ℕ) (xs ys : List A)
      → 0 < a
      → a < b
      → b ≤ cnt
      → Swapped d xs ys a b
      → Sifted cnt xs ys
  Swapped-Sifted cnt a b xs ys pos less inside s = record {
    as_long = s.as_long;
    outside = λ c h.
        s.elsewhere c (omega (arith, h)) (λ e. omega (arith, e, h, less, inside))
          (λ e. omega (arith, e, h, inside));
    bounded = λ x h c above below. elim (ℕ_discrete c a) [
      | yes e ↦ rw e (rw s.at_first (h b (omega (arith, less)) inside))
      | no c_a ↦ elim (ℕ_discrete c b) [
        | yes e ↦ rw e (rw s.at_second (h a pos (omega (arith, less, inside))))
        | no c_b ↦ rw (s.elsewhere c above c_a c_b) (h c above below)
      ]
    ];
  }
