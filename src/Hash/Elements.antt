-- ===== src/Hash/Elements.antt =====
-- The elements in the buckets of a table of lib/kernel/hash.c.
use mathlib.Core.Path.{subst}
use os_project.Common.{
  ℕ, zero, suc, ◌+◌, ◌≤◌, ◌<◌, ◌≡◌, ◌≢◌, refl, ap, true, ◌==◌, if◌then◌else◌, List, [], ◌∷◌, ◌++◌,
  count, one_if, count-append, length, arith, ℕ_discrete, Bool-cases, inl, inr,
}
use os_project.Links.Lists.{ne-false}
use os_project.Hash.{Table, remove}

pub equal-true : (a b : ℕ) → a ≡ b → (a == b) ≡ true
equal-true a b e = ground (arith, e)

elsewhere : (x e : ℕ) (xs : List ℕ) → x ≢ e → 0 < count e (x ∷ xs) → 0 < count e xs
elsewhere x e xs other more =
    let none : one_if (x == e) ≡ 0 = rw (ne-false x e other) refl in omega (arith, more, none)

-- The elements of the first n buckets.
abbrev pub gather : ℕ → (ℕ → List ℕ) → List ℕ
gather zero buckets = []
gather (suc n) buckets = gather n buckets ++ buckets n

abbrev pub elements : Table → List ℕ
elements h = gather h.bucket_cnt h.buckets

abbrev pub put : (ℕ → List ℕ) → ℕ → List ℕ → ℕ → List ℕ
put buckets i bucket j = if j == i then bucket else buckets j

pub gather_same :
    (n : ℕ) (f g : ℕ → List ℕ) → ((j : ℕ) → j < n → f j ≡ g j) → gather n f ≡ gather n g
gather_same zero f g e = refl
gather_same (suc n) f g e =
    rw (gather_same n f g (λ j below. e j (omega (arith, below)))) (rw (e n (omega arith)) refl)

-- What counts in lists, by their parts.
module _ (m : List ℕ → ℕ) (m_append : (xs ys : List ℕ) → m (xs ++ ys) ≡ m xs + m ys) where
  gather-put_behind :
      (n i : ℕ) (f : ℕ → List ℕ) (v : List ℕ) → n ≤ i → m (gather n (put f i v)) ≡ m (gather n f)
  gather-put_behind n i f v behind = ap m (
      gather_same n (put f i v) f
        (λ j below. rw (ne-false j i (λ e. omega (arith, e, below, behind))) refl))

  pub gather-put :
      (n i : ℕ) (f : ℕ → List ℕ) (v : List ℕ)
      → i < n
      → m (gather n (put f i v)) + m (f i) ≡ m (gather n f) + m v
  gather-put zero i f v below = let no : ⊥ = omega arith in elim no [ ]
  gather-put (suc n) i f v below = elim (ℕ_discrete n i) [
    | yes last ↦
        let here : put f i v n ≡ v = rw (equal-true n i last) refl in
        omega (
          arith,
          m_append (gather n (put f i v)) (put f i v n),
          m_append (gather n f) (f n),
          ap m here,
          ap (λ k. m (f k)) last,
          gather-put_behind n i f v (omega (arith, last)),
        )
    | no other ↦
        let there : put f i v n ≡ f n = rw (ne-false n i other) refl in
        omega (
          arith,
          m_append (gather n (put f i v)) (put f i v n),
          m_append (gather n f) (f n),
          ap m there,
          gather-put n i f v (omega (arith, below, other)),
        )
  ]

-- An element is in one of the buckets.
pub count-gather :
    (n : ℕ) (f : ℕ → List ℕ) (t : ℕ)
    → 0 < count t (gather n f)
    → (j : ℕ) × (j < n) × (0 < count t (f j))
count-gather zero f t more = let no : ⊥ = omega (arith, more) in elim no [ ]
count-gather (suc n) f t more = elim (ℕ_discrete (count t (f n)) 0) [
  | yes none ↦
      let (j, below, inside) =
        count-gather n f t (omega (arith, more, none, count-append t (gather n f) (f n))) in
      (j, omega (arith, below), inside)
  | no some ↦ (n, omega arith, omega (arith, some))
]

pub count-bucket : (n j : ℕ) (f : ℕ → List ℕ) (t : ℕ) → j < n → count t (f j) ≤ count t (gather n f)
count-bucket zero j f t below = let no : ⊥ = omega arith in elim no [ ]
count-bucket (suc n) j f t below = elim (ℕ_discrete n j) [
  | yes last ↦
      subst (λ i. count t (f i) ≤ count t (gather n f ++ f n)) last
        (omega (arith, count-append t (gather n f) (f n)))
  | no other ↦
      omega (
        arith,
        count-append t (gather n f) (f n),
        count-bucket n j f t (omega (arith, below, other)),
      )
]

pub remove_absent : (e : ℕ) (xs : List ℕ) → count e xs ≡ 0 → remove e xs ≡ xs
remove_absent e [] none = refl
remove_absent e (x ∷ xs) none = elim (Bool-cases (x == e)) [
  | inl here ↦ let no : ⊥ = omega (arith, none, ap one_if here) in elim no [ ]
  | inr other ↦ rw other (ap (λ us. x ∷ us) (remove_absent e xs (omega (arith, none))))
]

pub count-remove :
    (t e : ℕ) (xs : List ℕ) → 0 < count e xs → count t (remove e xs) + one_if (e == t) ≡ count t xs
count-remove t e [] more = let no : ⊥ = omega (arith, more) in elim no [ ]
count-remove t e (x ∷ xs) more = elim (ℕ_discrete x e) [
  | yes here ↦ rw (equal-true x e here) (omega (arith, ap (λ u. one_if (u == t)) here))
  | no other ↦
      rw (ne-false x e other) (omega (arith, count-remove t e xs (elsewhere x e xs other more)))
]

pub length-remove : (e : ℕ) (xs : List ℕ) → 0 < count e xs → length (remove e xs) + 1 ≡ length xs
length-remove e [] more = let no : ⊥ = omega (arith, more) in elim no [ ]
length-remove e (x ∷ xs) more = elim (ℕ_discrete x e) [
  | yes here ↦ rw (equal-true x e here) (omega arith)
  | no other ↦
      rw (ne-false x e other) (omega (arith, length-remove e xs (elsewhere x e xs other more)))
]

pub count-remove_le : (t e : ℕ) (xs : List ℕ) → count t (remove e xs) ≤ count t xs
count-remove_le t e xs = elim (ℕ_discrete (count e xs) 0) [
  | yes none ↦ rw (remove_absent e xs none) (omega arith)
  | no some ↦ omega (arith, count-remove t e xs (omega (arith, some)))
]

-- The elements of n buckets from bucket i on.
abbrev pub from_bucket : ℕ → ℕ → (ℕ → List ℕ) → List ℕ
from_bucket zero i buckets = []
from_bucket (suc n) i buckets = buckets i ++ from_bucket n (suc i) buckets

module _ (m : List ℕ → ℕ) (m_append : (xs ys : List ℕ) → m (xs ++ ys) ≡ m xs + m ys)
    (m_nil : m [] ≡ 0) where
  pub from_bucket_lem :
      (n i : ℕ) (f : ℕ → List ℕ) → m (gather i f) + m (from_bucket n i f) ≡ m (gather (i + n) f)
  from_bucket_lem zero i f =
      let e : i + 0 ≡ i = omega arith in omega (arith, m_nil, ap (λ k. m (gather k f)) e)
  from_bucket_lem (suc n) i f =
      let e : i + suc n ≡ suc i + n = omega arith in
      omega (
        arith,
        m_append (f i) (from_bucket n (suc i) f),
        m_append (gather i f) (f i),
        from_bucket_lem n (suc i) f,
        ap (λ k. m (gather k f)) e,
      )

  pub gather_none : (n : ℕ) → m (gather n (λ i. [])) ≡ 0
  gather_none zero = m_nil
  gather_none (suc n) = omega (arith, m_append (gather n (λ i. [])) [], m_nil, gather_none n)
