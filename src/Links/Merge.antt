-- ===== src/Links/Merge.antt =====
-- Sorted sequences of elements, and the merge of two of them.
use mathlib.Core.Path.{subst}
use os_project.Common.{
  ℕ, suc, ◌+◌, ◌≤◌, ◌≡◌, refl, sym, ap, List, [], ◌∷◌, ◌++◌, arith, count, one_if, length, true,
  false, Bool, Bool-cases, inl, inr, if◌then◌else◌,
}

pub one_if-zero : (b : Bool) → one_if b ≡ 0 → b ≡ false
one_if-zero true e = let no : ⊥ = omega (arith, e) in elim no [ ]
one_if-zero false e = refl

one_if-le_one : (b : Bool) → one_if b ≤ 1
one_if-le_one true = omega arith
one_if-le_one false = omega arith

module _ (less : ℕ → ℕ → Bool) where
  -- How many elements are less than the one before them.
  abbrev pub descents_from : ℕ → List ℕ → ℕ
  descents_from p [] = 0
  descents_from p (y ∷ ys) = one_if (less y p) + descents_from y ys

  -- How many runs without a descent there are.
  abbrev pub runs : List ℕ → ℕ
  runs [] = 0
  runs (x ∷ xs) = suc (descents_from x xs)

  abbrev pub merge : List ℕ → List ℕ → List ℕ
  merge [] rs = rs
  merge (a ∷ ls) [] = a ∷ ls
  merge (a ∷ ls) (b ∷ rs) = if less b a then (b ∷ merge (a ∷ ls) rs) else (a ∷ merge ls (b ∷ rs))

  pub descents_from-merge :
      (p : ℕ) (ls rs : List ℕ)
      → ((a b : ℕ) → less a b ≡ true → less b a ≡ false)
      → descents_from p ls ≡ 0
      → descents_from p rs ≡ 0
      → descents_from p (merge ls rs) ≡ 0
  descents_from-merge p [] rs asym l r = r
  descents_from-merge p (a ∷ ls) [] asym l r = l
  descents_from-merge p (a ∷ ls) (b ∷ rs) asym l r = elim (Bool-cases (less b a)) [
    | inl first ↦
        subst
          (λ t.
            descents_from p (if t then (b ∷ merge (a ∷ ls) rs) else (a ∷ merge ls (b ∷ rs))) ≡ 0)
          (sym first)
          (let rest =
              descents_from-merge b (a ∷ ls) rs asym (rw (asym b a first) (omega (arith, l)))
                (omega (arith, r)) in
            omega (arith, r, rest))
    | inr second ↦
        subst
          (λ t.
            descents_from p (if t then (b ∷ merge (a ∷ ls) rs) else (a ∷ merge ls (b ∷ rs))) ≡ 0)
          (sym second)
          (let rest =
              descents_from-merge a ls (b ∷ rs) asym (omega (arith, l))
                (rw second (omega (arith, r))) in
            omega (arith, l, rest))
  ]

  pub count-merge : (t : ℕ) (ls rs : List ℕ) → count t (merge ls rs) ≡ count t ls + count t rs
  count-merge t [] rs = omega arith
  count-merge t (a ∷ ls) [] = omega arith
  count-merge t (a ∷ ls) (b ∷ rs) = elim (Bool-cases (less b a)) [
    | inl first ↦ rw first (omega (arith, count-merge t (a ∷ ls) rs))
    | inr second ↦ rw second (omega (arith, count-merge t ls (b ∷ rs)))
  ]

  pub length-merge : (ls rs : List ℕ) → length (merge ls rs) ≡ length ls + length rs
  length-merge [] rs = omega arith
  length-merge (a ∷ ls) [] = omega arith
  length-merge (a ∷ ls) (b ∷ rs) = elim (Bool-cases (less b a)) [
    | inl first ↦ rw first (omega (arith, length-merge (a ∷ ls) rs))
    | inr second ↦ rw second (omega (arith, length-merge ls (b ∷ rs)))
  ]

  -- The elements behind p up to the next descent, and the others.
  abbrev pub run_of : ℕ → List ℕ → List ℕ
  run_of p [] = []
  run_of p (y ∷ ys) = if less y p then [] else (y ∷ run_of y ys)

  abbrev pub after_run : ℕ → List ℕ → List ℕ
  after_run p [] = []
  after_run p (y ∷ ys) = if less y p then (y ∷ ys) else after_run y ys

  pub run_split : (p : ℕ) (xs : List ℕ) → run_of p xs ++ after_run p xs ≡ xs
  run_split p [] = refl
  run_split p (y ∷ ys) = elim (Bool-cases (less y p)) [
    | inl falls ↦ rw falls refl
    | inr rises ↦ rw rises (ap (λ us. y ∷ us) (run_split y ys))
  ]

  pub descents_from-run : (p : ℕ) (xs : List ℕ) → descents_from p (run_of p xs) ≡ 0
  descents_from-run p [] = refl
  descents_from-run p (y ∷ ys) = elim (Bool-cases (less y p)) [
    | inl falls ↦ rw falls refl
    | inr rises ↦ rw rises (rw rises (omega (arith, descents_from-run y ys)))
  ]

  pub runs-after_run : (p : ℕ) (xs : List ℕ) → descents_from p xs ≡ runs (after_run p xs)
  runs-after_run p [] = refl
  runs-after_run p (y ∷ ys) = elim (Bool-cases (less y p)) [
    | inl falls ↦ rw falls (omega arith)
    | inr rises ↦ rw rises (omega (arith, runs-after_run y ys))
  ]

  descents_from-append :
      (p : ℕ) (xs ys : List ℕ) → descents_from p (xs ++ ys) ≤ descents_from p xs + runs ys
  descents_from-append p [] [] = omega arith
  descents_from-append p [] (y ∷ ys) = omega (arith, one_if-le_one (less y p))
  descents_from-append p (x ∷ xs) ys = omega (arith, descents_from-append x xs ys)

  descents_from-le : (p : ℕ) (xs : List ℕ) → descents_from p xs ≤ length xs
  descents_from-le p [] = omega arith
  descents_from-le p (x ∷ xs) = omega (arith, descents_from-le x xs, one_if-le_one (less x p))

  pub runs-append : (xs ys : List ℕ) → runs (xs ++ ys) ≤ runs xs + runs ys
  runs-append [] ys = omega arith
  runs-append (x ∷ xs) ys = omega (arith, descents_from-append x xs ys)

  -- Two runs are merged to one.
  pub runs-merge :
      (a : ℕ) (ls : List ℕ) (b : ℕ) (rs : List ℕ)
      → ((a b : ℕ) → less a b ≡ true → less b a ≡ false)
      → descents_from a ls ≡ 0
      → descents_from b rs ≡ 0
      → runs (merge (a ∷ ls) (b ∷ rs)) ≡ 1
  runs-merge a ls b rs asym l r = elim (Bool-cases (less b a)) [
    | inl first ↦ rw first (
        let rest =
          descents_from-merge b (a ∷ ls) rs asym (rw (asym b a first) (omega (arith, l))) r in
        omega (arith, rest))
    | inr second ↦ rw second (
        let rest = descents_from-merge a ls (b ∷ rs) asym l (rw second (omega (arith, r))) in
        omega (arith, rest))
  ]

  pub runs-le : (xs : List ℕ) → runs xs ≤ length xs
  runs-le [] = omega arith
  runs-le (x ∷ xs) = omega (arith, descents_from-le x xs)
