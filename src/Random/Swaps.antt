-- ===== src/Random/Swaps.antt =====
-- What a list holds, after a write, a swap, or when it is 0, 1, 2 and so on.
use os_project.Common.{
  ℕ, zero, suc, ◌+◌, ◌≤◌, ◌<◌, ◌≡◌, ap, arith, ◌&&◌, ltb, leb, ◌==◌, Bool-cases, ==_iff, inl, inr,
  List, [], ◌∷◌, length, get_or, set, length-set, get_or-set_self, get_or-set_ne, one_if, count,
}
use os_project.Random.{swap_byte}

count-set :
    (v : ℕ) (xs : List ℕ) (i x d : ℕ)
    → i < length xs
    → count v (set xs i x) + one_if (get_or xs i d == v) ≡ count v xs + one_if (x == v)
count-set v [] i x d h = absurd (omega arith)
count-set v (y ∷ ys) zero x d h = omega arith
count-set v (y ∷ ys) (suc i) x d h = omega (arith, count-set v ys i x d (omega arith))

-- Reading at b after a write of the old value of b anywhere.
get_or-set_copy :
    (xs : List ℕ) (a b d : ℕ)
    → b < length xs
    → get_or (set xs a (get_or xs b d)) b d ≡ get_or xs b d
get_or-set_copy xs a b d h = elim (Bool-cases (a == b)) [
  | inl e ↦ rw ((==_iff a b).0 e) (get_or-set_self xs b (get_or xs b d) d h)
  | inr e ↦ get_or-set_ne xs a b (get_or xs b d) d (λ p. ground (arith, e, p))
]

pub count-swap_byte :
    (v : ℕ) (xs : List ℕ) (a b : ℕ)
    → a < length xs
    → b < length xs
    → count v (swap_byte xs a b) ≡ count v xs
count-swap_byte v xs a b ha hb =
    let once = set xs a (get_or xs b 0) in
    let first = count-set v xs a (get_or xs b 0) 0 ha in
    let second =
      count-set v once b (get_or xs a 0) 0 (omega (arith, hb, length-set xs a (get_or xs b 0))) in
    let old = ap (λ (x : ℕ). one_if (x == v)) (get_or-set_copy xs a b 0 hb) in
    omega (arith, first, second, old)

pub length-swap_byte : (xs : List ℕ) (a b : ℕ) → length (swap_byte xs a b) ≡ length xs
length-swap_byte xs a b = omega (
  arith,
  length-set xs a (get_or xs b 0),
  length-set (set xs a (get_or xs b 0)) b (get_or xs a 0),
)

-- An item is counted.
pub count-get_or : (xs : List ℕ) (i d : ℕ) → i < length xs → 1 ≤ count (get_or xs i d) xs
count-get_or [] i d h = absurd (omega arith)
count-get_or (x ∷ xs) zero d h = ground arith
count-get_or (x ∷ xs) (suc i) d h = omega (arith, count-get_or xs i d (omega arith))

pub count-numbers :
    (v : ℕ) (xs : List ℕ) (base : ℕ)
    → ((k : ℕ) → k < length xs → get_or xs k 0 ≡ base + k)
    → count v xs ≡ one_if (leb base v && ltb v (base + length xs))
count-numbers v [] base h = ground arith
count-numbers v (x ∷ xs) base h =
    let rest = count-numbers v xs (base + 1) (λ k p. omega (arith, h (suc k) (omega arith))) in
    ground (arith, h 0 (omega arith), rest)
