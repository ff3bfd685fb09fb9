-- ===== src/Links/Walk.antt =====
-- The loops of lib/kernel/list.c step from an element to its neighbour: what the steps find, and
-- list_size.
use mathlib.Core.Path.{subst}
use os_project.Common.{
  ℕ, zero, suc, ◌+◌, ◌<◌, ◌≡◌, ◌≢◌, refl, sym, ap, ◌∙◌, List, [], ◌∷◌, ◌++◌, arith, count,
  count-append, assert-true, length, u32, ok, true,
}
use os_project.Links.{Links, Ends, list_next, list_prev, list_size, size_loop, is_interior}
use os_project.Links.Chain.{
  Chain, Chain-uncons, Chain-last, Chain-cut, Chain-first, front_or, count-front_or, count_self,
}
use os_project.Links.Lists.{ne-false, same-true, IsList, not_null, count-halves}

-- Each element is not the end, and list_next and list_prev lead from it to its neighbours.
abbrev pub Walk : Links → ℕ → List ℕ → ℕ → Type 0
Walk h p [] q = Unit
Walk h p (y ∷ ys) q =
    (y ≢ q) × (list_next y h ≡ ok (front_or ys q)) × (list_prev y h ≡ ok p) × Walk h y ys q

list_next_lem : (h : Links) (e : ℕ) → e ≢ 0 → h.next e ≢ 0 → list_next e h ≡ ok (h.next e)
unfolding list_next
list_next_lem h e e0 n0 = assert-true (ok (h.next e)) (ground arith)

list_prev_lem : (h : Links) (e : ℕ) → e ≢ 0 → h.prev e ≢ 0 → list_prev e h ≡ ok (h.prev e)
unfolding list_prev
list_prev_lem h e e0 p0 = assert-true (ok (h.prev e)) (ground arith)

pub Chain-Walk :
    (h : Links) (p : ℕ) (xs : List ℕ) (q : ℕ)
    → p ≢ 0
    → ((a : ℕ) → 0 < count a (xs ++ (q ∷ [])) → a ≢ 0)
    → ((a : ℕ) → 0 < count a xs → a ≢ q)
    → Chain h p xs q
    → Walk h p xs q
Chain-Walk h p [] q p0 all0 other c = tt
Chain-Walk h p (x ∷ xs) q p0 all0 other (n, b, c) =
    let x0 = all0 x (count_self x (xs ++ (q ∷ []))) in
    let nx = (Chain-uncons h x xs q c).0 in
    (
      other x (count_self x xs),
      list_next_lem h x x0
            (λ e. all0 (front_or xs q) (omega (arith, count-front_or xs q)) (sym nx ∙ e))
          ∙ ap ok nx,
      list_prev_lem h x x0 (λ e. p0 (sym b ∙ e)) ∙ ap ok b,
      Chain-Walk h x xs q x0 (λ a o. all0 a (omega arith)) (λ a o. other a (omega arith)) c,
    )

pub IsList-Walk : (h : Links) (l : Ends) (xs : List ℕ) → IsList h l xs → Walk h l.head xs l.tail
IsList-Walk h l xs s =
    Chain-Walk h l.head xs l.tail
      (not_null l xs l.head s.once (count_self l.head (xs ++ (l.tail ∷ []))))
      (λ a o. not_null l xs a s.once (omega arith))
      (λ a o e. omega (
        arith,
        s.once l.tail,
        count-append l.tail xs (l.tail ∷ []),
        count_self l.tail [],
        subst (λ u. 0 < count u xs) e o,
      ))
      s.chain

size_loop_lem :
    (h : Links) (p : ℕ) (xs : List ℕ) (q fuel cnt : ℕ)
    → Walk h p xs q
    → length xs < fuel
    → cnt < 0x1_0000_0000
    → size_loop fuel q (front_or xs q) cnt h ≡ ok (u32 (cnt + length xs))
unfolding size_loop
size_loop_lem h p xs q zero cnt w enough c = let no : ⊥ = omega arith in elim no [ ]
size_loop_lem h p [] q (suc fuel) cnt w enough c = rw (same-true q) (ap ok (omega arith))
size_loop_lem h p (x ∷ xs) q (suc fuel) cnt (other, nx, pv, w) enough c = rw (ne-false x q other) (
    rw nx (
      size_loop_lem h x xs q fuel (u32 (cnt + 1)) w (omega arith) (omega arith)
      ∙ ap ok (omega arith)))

-- list_size of a list comes to an end and returns the number of its elements, modulo the width of a
-- size_t; one round of the loop more than there are elements is enough.
pub list_size_lem :
    (h : Links) (l : Ends) (xs : List ℕ) (fuel : ℕ)
    → IsList h l xs
    → length xs < fuel
    → list_size fuel l h ≡ ok (u32 (length xs))
unfolding list_size
list_size_lem h l xs fuel s enough = rw (Chain-uncons h l.head xs l.tail s.chain).0 (
    size_loop_lem h l.head xs l.tail fuel 0 (IsList-Walk h l xs s) enough (omega arith)
    ∙ ap (λ u. ok (u32 u)) (omega arith))

-- The last of the elements behind p, or p itself.
abbrev pub last_or : ℕ → List ℕ → ℕ
last_or p [] = p
last_or p (x ∷ xs) = last_or x xs

pub Walk-drop :
    (h : Links) (p : ℕ) (xs ys : List ℕ) (q : ℕ)
    → Walk h p (xs ++ ys) q
    → Walk h (last_or p xs) ys q
Walk-drop h p [] ys q w = w
Walk-drop h p (x ∷ xs) ys q (other, nx, pv, w) = Walk-drop h x xs ys q w

pub front_or-append : (xs ys : List ℕ) (q : ℕ) → front_or (xs ++ ys) q ≡ front_or xs (front_or ys q)
front_or-append [] ys q = refl
front_or-append (x ∷ xs) ys q = refl

pub Walk-take :
    (h : Links) (p : ℕ) (xs ys : List ℕ) (q : ℕ)
    → ((a : ℕ) → 0 < count a xs → a ≢ front_or ys q)
    → Walk h p (xs ++ ys) q
    → Walk h p xs (front_or ys q)
Walk-take h p [] ys q other w = tt
Walk-take h p (x ∷ xs) ys q other (n, nx, pv, w) = (
  other x (count_self x xs),
  nx ∙ ap ok (front_or-append xs ys q),
  pv,
  Walk-take h x xs ys q (λ a o. other a (omega (arith, o))) w,
)

-- list_next and list_prev at a place of a list.
module _ (h : Links) (l : Ends) (xs : List ℕ) (e : ℕ) (ys : List ℕ)
    (s : IsList h l (xs ++ (e ∷ ys))) where
  pub next-IsList : list_next e h ≡ ok (front_or ys l.tail)
  next-IsList = (Walk-drop h l.head xs (e ∷ ys) l.tail (IsList-Walk h l (xs ++ (e ∷ ys)) s)).1

  pub not_end : e ≢ l.tail
  not_end = (Walk-drop h l.head xs (e ∷ ys) l.tail (IsList-Walk h l (xs ++ (e ∷ ys)) s)).0

  pub prev-IsList : list_prev (front_or ys l.tail) h ≡ ok e
  prev-IsList =
      let c = (Chain-cut h l.head xs (e ∷ ys) l.tail s.chain).1 in
      let m = front_or ys l.tail in
      let back = ap h.prev (sym (Chain-uncons h e ys l.tail c).0) ∙ Chain-first h e ys l.tail c in
      let e0 =
        not_null l (xs ++ (e ∷ ys)) e s.once
          (omega (arith, count-halves e l xs (e ∷ ys), count_self e ys)) in
      let m0 = not_null l (xs ++ (e ∷ ys)) m s.once (
        omega (
          arith,
          count-halves m l xs (e ∷ ys),
          count-front_or ys l.tail,
          count-append m ys (l.tail ∷ []),
        )) in
      list_prev_lem h m m0 (λ none. e0 (sym back ∙ none)) ∙ ap ok back

  pub interior-IsList : is_interior h e ≡ true
  interior-IsList =
      let c = (Chain-cut h l.head xs (e ∷ ys) l.tail s.chain).1 in
      let m = front_or ys l.tail in
      let p = Chain-last h l.head xs e (Chain-cut h l.head xs (e ∷ ys) l.tail s.chain).0 in
      let e0 =
        not_null l (xs ++ (e ∷ ys)) e s.once
          (omega (arith, count-halves e l xs (e ∷ ys), count_self e ys)) in
      let p0 =
        not_null l (xs ++ (e ∷ ys)) (h.prev e) s.once
          (omega (arith, count-halves (h.prev e) l xs (e ∷ ys), p)) in
      let m0 = not_null l (xs ++ (e ∷ ys)) m s.once (
        omega (
          arith,
          count-halves m l xs (e ∷ ys),
          count-front_or ys l.tail,
          count-append m ys (l.tail ∷ []),
        )) in
      rw (ne-false e 0 e0) (
        rw (ne-false (h.prev e) 0 p0)
          (rw (Chain-uncons h e ys l.tail c).0 (rw (ne-false m 0 m0) refl)))
