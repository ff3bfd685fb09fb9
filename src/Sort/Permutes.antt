-- ===== src/Sort/Permutes.antt =====
-- The heap sort of lib/stdlib.c ends, stays inside the array and only moves elements.
use Prim.Native.Nat.{Ordering}
use os_project.Common.{
  ℕ, zero, suc, ◌+◌, ◌-◌, ◌*◌, ◌/◌, ◌^◌, ◌≤◌, ◌<◌, ◌≡◌, inl, inr, refl, ap, ◌∙◌, arith, Bool,
  Bool-cases, ==_iff, List, [], ◌∷◌, length, get_or, set, length-set, get_or-set_self,
  get_or-set_ne, get_elem?-eq-get_or, one_if, leb, ◌==◌, Result, ok, ◌>>=◌, if◌then◌else◌, u32,
}
use os_project.Sort.{
  do_swap, do_compare_more, larger, is_more, heapify, build_loop, sort_loop, sort,
}

-- How many elements satisfy a test.
abbrev pub count_if {ℓ} : {A : Type ℓ} → (A → Bool) → List A → ℕ
count_if p [] = 0
count_if p (x ∷ xs) = one_if (p x) + count_if p xs

module _ {ℓ} {A : Type ℓ} where
  -- The same elements, each as often.
  pub record Permuted (xs ys : List A) : Type ℓ where
    pub as_long : length ys ≡ length xs
    pub as_often : (p : A → Bool) → count_if p ys ≡ count_if p xs

  abbrev pub Permutes : List A → Result (List A) → Type ℓ
  Permutes xs r = (ys : List A) × (r ≡ ok ys) × Permuted xs ys

  count_if-set :
      (p : A → Bool) (xs : List A) (i : ℕ) (x d : A)
      → i < length xs
      → count_if p (set xs i x) + one_if (p (get_or xs i d)) ≡ count_if p xs + one_if (p x)
  count_if-set p [] i x d h = absurd (omega arith)
  count_if-set p (y ∷ ys) zero x d h = omega arith
  count_if-set p (y ∷ ys) (suc i) x d h = omega (arith, count_if-set p ys i x d (omega arith))

  reread :
      (xs : List A) (a b : ℕ) (d : A)
      → b < length xs
      → get_or (set xs a (get_or xs b d)) b d ≡ get_or xs b d
  reread xs a b d h = elim (Bool-cases (a == b)) [
    | inl e ↦ rw ((==_iff a b).0 e) (get_or-set_self xs b (get_or xs b d) d h)
    | inr e ↦ get_or-set_ne xs a b (get_or xs b d) d (λ p. ground (arith, e, p))
  ]

  do_swap_lem :
      (xs : List A) (d : A) (a b : ℕ)
      → 0 < a
      → a ≤ length xs
      → 0 < b
      → b ≤ length xs
      → Permutes xs (do_swap xs a b)
  unfolding do_swap
  do_swap_lem xs d a b pa ha pb hb =
      let x = get_or xs (a - 1) d in
      let y = get_or xs (b - 1) d in
      let la : a - 1 < length xs = omega arith in
      let lb : b - 1 < length xs = omega arith in
      let once = set xs (a - 1) y in
      let len : length once ≡ length xs = length-set xs (a - 1) y in
      (
        set once (b - 1) x,
        rw (get_elem?-eq-get_or xs (a - 1) d la, get_elem?-eq-get_or xs (b - 1) d lb) refl,
        record {
          as_long = length-set once (b - 1) x ∙ len;
          as_often = λ p. omega (
            arith,
            count_if-set p xs (a - 1) y d la,
            count_if-set p once (b - 1) x d (omega (arith, len, lb)),
            ap (λ (z : A). one_if (p z)) (reread xs (a - 1) (b - 1) d lb),
          );
        },
      )

  larger_lem :
      (compare : A → A → Ordering) (xs : List A) (d : A) (cnt child max : ℕ)
      → cnt ≤ length xs
      → 0 < max
      → max ≤ cnt
      → max ≤ child
      → (m : ℕ) × (larger compare xs cnt child max ≡ ok m) × (max ≤ m) × (m ≤ child) × (m ≤ cnt)
  unfolding larger do_compare_more
  larger_lem compare xs d cnt child max inside pm hm mc = elim (Bool-cases (leb child cnt)) [
    | inl e ↦
        let c = get_or xs (child - 1) d in
        let m = get_or xs (max - 1) d in
        let le : child ≤ cnt = ground arith in
        let rc = get_elem?-eq-get_or xs (child - 1) d (omega arith) in
        let rm = get_elem?-eq-get_or xs (max - 1) d (omega arith) in
        elim (Bool-cases (is_more (compare c m))) [
          | inl more ↦ (child, rw (e, rc, rm, more) refl, mc, omega arith, le)
          | inr less ↦ (max, rw (e, rc, rm, less) refl, omega arith, mc, hm)
        ]
    | inr e ↦ (max, rw e refl, omega arith, mc, hm)
  ]

  Permuted-trans : {xs ys zs : List A} → Permuted xs ys → Permuted ys zs → Permuted xs zs
  Permuted-trans p q = record {
    as_long = q.as_long ∙ p.as_long;
    as_often = λ t. q.as_often t ∙ p.as_often t;
  }

  -- One call behind another.
  then_Permutes :
      {xs : List A} {r : Result (List A)} (k : List A → Result (List A))
      → Permutes xs r
      → ((ys : List A) → Permuted xs ys → Permutes ys (k ys))
      → Permutes xs (r >>= k)
  then_Permutes k (ys, e, p) next = let (zs, f, q) = next ys p in (zs, rw e f, Permuted-trans p q)

  same-Permutes : (xs : List A) → Permutes xs (ok xs)
  same-Permutes xs = (xs, refl, record { as_long = refl; as_often = λ p. refl })

  module _ (compare : A → A → Ordering) (d : A) where
    -- The end of a round, once the largest index n is known.
    heapify_end :
        (fuel : ℕ) (xs : List A) (i n cnt : ℕ)
        → 0 < i
        → i ≤ n
        → n ≤ cnt
        → cnt ≤ length xs
        → ((ys : List A) → Permuted xs ys → i < n → Permutes ys (heapify compare fuel ys n cnt))
        → Permutes xs
            (if n == i then ok xs else (do_swap xs i n >>= λ ys. heapify compare fuel ys n cnt))
    heapify_end fuel xs i n cnt pos order n_in inside next = elim (Bool-cases (n == i)) [
      | inl same ↦ rw same (same-Permutes xs)
      | inr apart ↦
          let later : i < n = ground arith in
          rw apart (
            then_Permutes (λ ys. heapify compare fuel ys n cnt)
              (do_swap_lem xs d i n pos (omega arith) (omega arith) (omega arith))
              (λ ys p. next ys p later))
    ]

    heapify_round :
        (fuel : ℕ) (xs : List A) (i m n cnt : ℕ)
        → larger compare xs cnt (u32 (2 * i)) i ≡ ok m
        → larger compare xs cnt (u32 (2 * i + 1)) m ≡ ok n
        → Permutes xs
            (if n == i then ok xs else (do_swap xs i n >>= λ ys. heapify compare fuel ys n cnt))
        → Permutes xs (heapify compare (suc fuel) xs i cnt)
    unfolding heapify
    heapify_round fuel xs i m n cnt e f p = rw (e, f) p

    heapify_lem :
        (fuel : ℕ) (xs : List A) (i cnt : ℕ)
        → 0 < i
        → i ≤ cnt
        → cnt ≤ length xs
        → cnt < 2 ^ 31
        → cnt < i + fuel
        → Permutes xs (heapify compare fuel xs i cnt)
    unfolding heapify
    heapify_lem zero xs i cnt pos le inside small enough = absurd (omega arith)
    heapify_lem (suc fuel) xs i cnt pos le inside small enough =
        let (m, e, from_i, to_left, m_in) =
          larger_lem compare xs d cnt (u32 (2 * i)) i inside pos le (omega arith) in
        let (n, f, from_m, to_right, n_in) =
          larger_lem compare xs d cnt (u32 (2 * i + 1)) m inside (omega (arith, pos, from_i)) m_in
            (omega (arith, to_left, le, small)) in
        heapify_round fuel xs i m n cnt e f (
          heapify_end fuel xs i n cnt pos (omega (arith, from_i, from_m)) n_in inside (λ ys p apart.
            heapify_lem fuel ys n cnt (omega (arith, pos, from_i, from_m)) n_in
              (omega (arith, p.as_long, inside)) small (omega (arith, enough, apart))))

    build_loop_lem :
        (cnt i : ℕ) (xs : List A)
        → i ≤ cnt
        → cnt ≤ length xs
        → cnt < 2 ^ 31
        → Permutes xs (build_loop compare cnt i xs)
    unfolding build_loop
    build_loop_lem cnt zero xs le inside small = same-Permutes xs
    build_loop_lem cnt (suc i) xs le inside small =
        then_Permutes (λ ys. build_loop compare cnt i ys)
          (heapify_lem (cnt + 1) xs (suc i) cnt (omega arith) le inside small (omega arith))
          (λ ys p. build_loop_lem cnt i ys (omega arith) (omega (arith, p.as_long)) small)

    sort_loop_lem :
        (left : ℕ) (xs : List A)
        → left < length xs
        → left < 2 ^ 31
        → Permutes xs (sort_loop compare left xs)
    unfolding sort_loop
    sort_loop_lem zero xs inside small = same-Permutes xs
    sort_loop_lem (suc left) xs inside small =
        then_Permutes _
          (do_swap_lem xs d 1 (suc left + 1) (omega arith) (omega arith) (omega arith)
            (omega arith))
          (λ ys p.
            then_Permutes (λ zs. sort_loop compare left zs)
              (heapify_lem (suc left + 1) ys 1 (suc left) (omega arith) (omega arith)
                (omega (arith, p.as_long)) small (omega arith))
              (λ zs q. sort_loop_lem left zs (omega (arith, p.as_long, q.as_long)) (omega arith)))

  -- sort of all elements of an array of fewer than 2 ^ 31 returns, with no access outside the
  -- array, and leaves the same elements, each as often, whatever compare answers.
  pub sort_lem :
      (compare : A → A → Ordering) (xs : List A)
      → length xs < 2 ^ 31
      → (ys : List A) × (sort compare xs (length xs) ≡ ok ys) × Permuted xs ys
  unfolding sort build_loop sort_loop
  sort_lem compare [] small = same-Permutes []
  sort_lem compare (x ∷ xs) small =
      let cnt = suc (length xs) in
      then_Permutes (λ ys. sort_loop compare (cnt - 1) ys)
        (build_loop_lem compare x cnt (cnt / 2) (x ∷ xs) (omega arith) (omega arith) small)
        (λ ys p. sort_loop_lem compare x (cnt - 1) ys (omega (arith, p.as_long)) (omega arith))
