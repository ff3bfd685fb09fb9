-- ===== src/Links/Chain.antt =====
-- The elements that the links of lib/kernel/list.c lead through.
use os_project.Common.{
  ℕ, ◌+◌, ◌≤◌, ◌<◌, ◌≡◌, ◌≢◌, sym, ap, ◌∙◌, List, [], ◌∷◌, ◌++◌, arith, count, count-append, length,
}
use os_project.Links.{Links}

pub count-ne : (a b : ℕ) (xs : List ℕ) → count b (a ∷ xs) ≤ 1 → 0 < count b xs → a ≢ b
count-ne a b xs once more = ground arith

-- From p the links lead through xs to q, and back.
abbrev pub Chain : Links → ℕ → List ℕ → ℕ → Type 0
Chain h p [] q = (h.next p ≡ q) × (h.prev q ≡ p)
Chain h p (x ∷ xs) q = (h.next p ≡ x) × (h.prev x ≡ p) × Chain h x xs q

pub count_self : (a : ℕ) (xs : List ℕ) → 0 < count a (a ∷ xs)
count_self a xs = ground arith

-- The element at which a part of a list begins that ends before q.
abbrev pub front_or : List ℕ → ℕ → ℕ
front_or [] q = q
front_or (y ∷ ys) q = y

-- The links behind the first of the elements.
abbrev pub Rest : Links → List ℕ → ℕ → Type 0
Rest h [] q = Unit
Rest h (y ∷ ys) q = Chain h y ys q

pub count-front_or : (ys : List ℕ) (q : ℕ) → 0 < count (front_or ys q) (ys ++ (q ∷ []))
count-front_or [] q = count_self q []
count-front_or (y ∷ ys) q = count_self y (ys ++ (q ∷ []))

pub Chain-cut :
    (h : Links) (p : ℕ) (xs ys : List ℕ) (q : ℕ)
    → Chain h p (xs ++ ys) q
    → Chain h p xs (front_or ys q) × Rest h ys q
Chain-cut h p [] [] q (n, b) = ((n, b), tt)
Chain-cut h p [] (y ∷ ys) q (n, b, c) = ((n, b), c)
Chain-cut h p (x ∷ xs) ys q (n, b, c) = let (l, r) = Chain-cut h x xs ys q c in ((n, b, l), r)

pub Chain-join :
    (h : Links) (p : ℕ) (xs ys : List ℕ) (q : ℕ)
    → Chain h p xs (front_or ys q)
    → Rest h ys q
    → Chain h p (xs ++ ys) q
Chain-join h p [] [] q (n, b) r = (n, b)
Chain-join h p [] (y ∷ ys) q (n, b) r = (n, b, r)
Chain-join h p (x ∷ xs) ys q (n, b, c) r = (n, b, Chain-join h x xs ys q c r)

pub Chain-cons :
    (h : Links) (p : ℕ) (ys : List ℕ) (q : ℕ)
    → h.next p ≡ front_or ys q
    → h.prev (front_or ys q) ≡ p
    → Rest h ys q
    → Chain h p ys q
Chain-cons h p [] q n b r = (n, b)
Chain-cons h p (y ∷ ys) q n b r = (n, b, r)

pub Chain-uncons :
    (h : Links) (p : ℕ) (ys : List ℕ) (q : ℕ)
    → Chain h p ys q
    → (h.next p ≡ front_or ys q) × Rest h ys q
Chain-uncons h p [] q (n, b) = (n, tt)
Chain-uncons h p (y ∷ ys) q (n, b, r) = (n, r)

-- What stands before the end of a chain.
pub Chain-last :
    (h : Links) (p : ℕ) (xs : List ℕ) (q : ℕ) → Chain h p xs q → 0 < count (h.prev q) (p ∷ xs)
Chain-last h p [] q (n, b) = rw b (count_self p [])
Chain-last h p (x ∷ xs) q (n, b, c) = omega (arith, Chain-last h x xs q c)

-- A chain whose links are kept is a chain.
pub Chain-frame :
    (h h' : Links) (p : ℕ) (xs : List ℕ) (q : ℕ)
    → ((a : ℕ) → 0 < count a (p ∷ xs) → h'.next a ≡ h.next a)
    → ((a : ℕ) → 0 < count a (xs ++ (q ∷ [])) → h'.prev a ≡ h.prev a)
    → Chain h p xs q
    → Chain h' p xs q
Chain-frame h h' p [] q nx pv (n, b) = (nx p (count_self p []) ∙ n, pv q (count_self q []) ∙ b)
Chain-frame h h' p (x ∷ xs) q nx pv (n, b, c) = (
  nx p (count_self p (x ∷ xs)) ∙ n,
  pv x (count_self x (xs ++ (q ∷ []))) ∙ b,
  Chain-frame h h' x xs q (λ a i. nx a (omega arith)) (λ a i. pv a (omega arith)) c,
)

pub Rest-frame :
    (h h' : Links) (ys : List ℕ) (q : ℕ)
    → ((a : ℕ) → 0 < count a ys → h'.next a ≡ h.next a)
    → ((a : ℕ) → 0 < count a ys + count a (q ∷ []) → a ≢ front_or ys q → h'.prev a ≡ h.prev a)
    → ((t : ℕ) → count t (ys ++ (q ∷ [])) ≤ 1)
    → Rest h ys q
    → Rest h' ys q
Rest-frame h h' [] q nx pv once c = tt
Rest-frame h h' (y ∷ ys) q nx pv once c =
    Chain-frame h h' y ys q nx
      (λ a i.
        pv a (omega (arith, i, count-append a ys (q ∷ [])))
          (λ e. count-ne y a (ys ++ (q ∷ [])) (once a) i (sym e)))
      c

-- The last link of a chain is led to another end.
pub Chain-retarget :
    (h h' : Links) (p : ℕ) (xs : List ℕ) (q q' : ℕ)
    → h'.next (h.prev q) ≡ q'
    → h'.prev q' ≡ h.prev q
    → ((a : ℕ) → 0 < count a (p ∷ xs) → a ≢ h.prev q → h'.next a ≡ h.next a)
    → ((a : ℕ) → 0 < count a xs → h'.prev a ≡ h.prev a)
    → ((t : ℕ) → count t (p ∷ xs) ≤ 1)
    → Chain h p xs q
    → Chain h' p xs q'
Chain-retarget h h' p [] q q' l r nx pv once (n, b) = (ap h'.next (sym b) ∙ l, r ∙ b)
Chain-retarget h h' p (x ∷ xs) q q' l r nx pv once (n, b, c) = (
  nx p (count_self p (x ∷ xs))
        (count-ne p (h.prev q) (x ∷ xs) (once (h.prev q)) (Chain-last h x xs q c))
      ∙ n,
  pv x (count_self x xs) ∙ b,
  Chain-retarget h h' x xs q q' l r (λ a i. nx a (omega arith)) (λ a i. pv a (omega arith))
      (λ t. omega (arith, once t)) c,
)

-- Both ends of a chain are exchanged for others.
pub Chain-transplant :
    (h h' : Links) (p p' : ℕ) (xs : List ℕ) (q q' : ℕ)
    → 0 < length xs
    → h'.next p' ≡ h.next p
    → h'.prev (h.next p) ≡ p'
    → h'.next (h.prev q) ≡ q'
    → h'.prev q' ≡ h.prev q
    → ((a : ℕ) → 0 < count a xs → a ≢ h.prev q → h'.next a ≡ h.next a)
    → ((a : ℕ) → 0 < count a xs → a ≢ h.next p → h'.prev a ≡ h.prev a)
    → ((t : ℕ) → count t xs ≤ 1)
    → Chain h p xs q
    → Chain h' p' xs q'
Chain-transplant h h' p p' [] q q' some l1 l2 r1 r2 nx pv once c =
    let no : ⊥ = omega arith in elim no [ ]
Chain-transplant h h' p p' (x ∷ xs) q q' some l1 l2 r1 r2 nx pv once (n, b, c) = (
  l1 ∙ n,
  ap h'.prev (sym n) ∙ l2,
  Chain-retarget h h' x xs q q' r1 r2 nx
      (λ a o. pv a (omega (arith, o)) (λ e. count-ne x a xs (once a) o (sym (e ∙ n)))) once c,
)

-- The first link of a chain is doubled.
pub Chain-first : (h : Links) (p : ℕ) (xs : List ℕ) (q : ℕ) → Chain h p xs q → h.prev (h.next p) ≡ p
Chain-first h p [] q (n, b) = ap h.prev n ∙ b
Chain-first h p (x ∷ xs) q (n, b, c) = ap h.prev n ∙ b
