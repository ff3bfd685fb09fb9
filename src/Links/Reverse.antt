-- ===== src/Links/Reverse.antt =====
-- list_reverse of lib/kernel/list.c turns the sequence of the elements around.
use os_project.Common.{
  ℕ, ◌+◌, ◌≤◌, ◌<◌, ◌≡◌, ◌≢◌, refl, sym, ap, ◌∙◌, List, [], ◌∷◌, ◌++◌, arith, count, count-append,
  length, length-append, Returns, Returns-bind,
}
use os_project.Links.{Links, Ends, list_reverse, reverse_loop, swap_ends, swap_back}
use os_project.Links.Chain.{
  Chain, Chain-transplant, Chain-first, Chain-last, Chain-join, count-ne, count_self,
}
use os_project.Links.Lists.{IsList, ne-false, same-true}
use os_project.Links.Exchange.{Exchanged, reverse_loop_lem}

abbrev pub reverse : List ℕ → List ℕ
reverse [] = []
reverse (x ∷ xs) = reverse xs ++ (x ∷ [])

-- The links with both directions exchanged.
abbrev flipped : Links → Links
flipped h = record { prev = h.next; next = h.prev }

Chain-flipped :
    (h : Links) (p : ℕ) (xs : List ℕ) (q : ℕ) → Chain h p xs q → Chain (flipped h) q (reverse xs) p
Chain-flipped h p [] q (n, b) = (b, n)
Chain-flipped h p (x ∷ xs) q (n, b, c) =
    Chain-join (flipped h) q (reverse xs) (x ∷ []) p (Chain-flipped h x xs q c) (b, n)

-- What the last two swaps change.
record Turned (h : Links) (l : Ends) (first last : ℕ) (h' : Links) : Type 0 where
  next_head : h'.next l.head ≡ last
  prev_last : h'.prev last ≡ l.head
  next_first : h'.next first ≡ l.tail
  prev_tail : h'.prev l.tail ≡ first
  next_else : (a : ℕ) → a ≢ l.head → a ≢ first → h'.next a ≡ h.next a
  prev_else : (a : ℕ) → a ≢ l.tail → a ≢ last → h'.prev a ≡ h.prev a

swap_lem :
    (h : Links) (l : Ends) (first last : ℕ)
    → h.next l.head ≡ first
    → h.prev l.tail ≡ last
    → h.next first ≡ l.head
    → h.prev last ≡ l.tail
    → first ≢ l.head
    → last ≢ l.tail
    → Turned h l first last
        (swap_back ((swap_ends l h).next l.head) ((swap_ends l h).prev l.tail) (swap_ends l h))
swap_lem h l first last e1 e2 e3 e4 first_head last_tail = record {
  next_head = ground arith;
  prev_last = ground arith;
  next_first = ground arith;
  prev_tail = ground arith;
  next_else = λ a n1 n2. ground arith;
  prev_else = λ a n1 n2. ground arith;
}

count-reverse : (t : ℕ) (xs : List ℕ) → count t (reverse xs) ≡ count t xs
count-reverse t [] = refl
count-reverse t (x ∷ xs) = omega (arith, count-append t (reverse xs) (x ∷ []), count-reverse t xs)

module _ (h : Links) (l : Ends) (x : ℕ) (xs : List ℕ) (s : IsList h l (x ∷ xs)) where
  counts : (t : ℕ) → count t (0 ∷ l.head ∷ []) + count t (x ∷ xs) + count t (l.tail ∷ []) ≤ 1
  counts t = omega (arith, s.once t, count-append t xs (l.tail ∷ []))

  last_in : 0 < count (h.prev l.tail) (x ∷ xs)
  last_in = Chain-last h x xs l.tail s.chain.2

  inside-ne_head : (a : ℕ) → 0 < count a (x ∷ xs) → a ≢ l.head
  inside-ne_head a o e = count-ne l.head a (x ∷ xs) (omega (arith, counts a)) o (sym e)

  inside-ne_tail : (a : ℕ) → 0 < count a (x ∷ xs) → a ≢ l.tail
  inside-ne_tail a o e = count-ne l.tail a (x ∷ xs) (omega (arith, counts a)) o (sym e)

  head-ne-tail : l.head ≢ l.tail
  head-ne-tail =
      count-ne l.head l.tail (l.tail ∷ []) (omega (arith, counts l.tail)) (count_self l.tail [])

  back : Chain (flipped h) l.tail (reverse (x ∷ xs)) l.head
  back = Chain-flipped h l.head (x ∷ xs) l.tail s.chain

  Turned-IsList :
      (h1 h2 : Links)
      → Exchanged h (x ∷ xs) h1
      → Turned h1 l x (h.prev l.tail) h2
      → IsList h2 l (reverse (x ∷ xs))
  Turned-IsList h1 h2 i j = record {
    chain =
        Chain-transplant (flipped h) h2 l.tail l.head (reverse (x ∷ xs)) l.head l.tail
          (omega (arith, length-append (reverse xs) (x ∷ []))) j.next_head j.prev_last
          (ap h2.next s.chain.0 ∙ j.next_first) (j.prev_tail ∙ sym s.chain.0)
          (λ a o n.
            j.next_else a (inside-ne_head a (omega (arith, o, count-reverse a (x ∷ xs))))
              (λ e. n (e ∙ sym s.chain.0))
            ∙ i.next_in a (omega (arith, o, count-reverse a (x ∷ xs))))
          (λ a o n.
            j.prev_else a (inside-ne_tail a (omega (arith, o, count-reverse a (x ∷ xs)))) n
            ∙ i.prev_in a (omega (arith, o, count-reverse a (x ∷ xs))))
          (λ t. omega (arith, counts t, count-reverse t (x ∷ xs))) back;
    once = λ t. omega (
      arith,
      counts t,
      count-reverse t (x ∷ xs),
      count-append t (reverse (x ∷ xs)) (l.tail ∷ []),
    );
    first =
        j.prev_else l.head head-ne-tail (λ e. inside-ne_head (h.prev l.tail) last_in (sym e))
        ∙ i.prev_out l.head (omega (arith, counts l.head, count_self l.head []))
        ∙ s.first;
    last =
        j.next_else l.tail (λ e. head-ne-tail (sym e))
          (λ e. inside-ne_tail x (count_self x xs) (sym e))
        ∙ i.next_out l.tail (omega (arith, counts l.tail, count_self l.tail []))
        ∙ s.last;
  }

-- list_reverse of a list comes to an end, and the list then holds its elements in the opposite
-- order; one round of the loop more than there are elements is enough.
pub list_reverse-IsList :
    (h : Links) (l : Ends) (xs : List ℕ) (fuel : ℕ)
    → IsList h l xs
    → length xs < fuel
    → Returns (λ h'. IsList h' l (reverse xs)) (list_reverse fuel l h)
unfolding list_reverse
list_reverse-IsList h l [] fuel s enough = rw s.chain.0 (rw (same-true l.tail) s)
list_reverse-IsList h l (x ∷ xs) fuel s enough =
    let x_in = count_self x xs in
    rw s.chain.0 (
      rw (ne-false x l.tail (inside-ne_tail h l x xs s x x_in)) (
        Returns-bind (Exchanged h (x ∷ xs)) (λ h'. IsList h' l (reverse (x ∷ xs)))
          (reverse_loop fuel l.tail x h) _
          (reverse_loop_lem h (x ∷ xs) l.tail fuel s.chain.2 (λ t. omega (arith, s.once t)) enough)
          (λ h1 i. Turned-IsList h l x xs s h1 _ i (
            swap_lem h1 l x (h.prev l.tail)
              (i.next_out l.head (omega (arith, counts h l x xs s l.head, count_self l.head []))
                ∙ s.chain.0)
              (i.prev_out l.tail (omega (arith, counts h l x xs s l.tail, count_self l.tail [])))
              (i.next_in x x_in ∙ s.chain.1)
              (i.prev_in (h.prev l.tail) (last_in h l x xs s)
                ∙ Chain-first (flipped h) l.tail (reverse (x ∷ xs)) l.head (back h l x xs s))
              (inside-ne_head h l x xs s x x_in)
              (inside-ne_tail h l x xs s (h.prev l.tail) (last_in h l x xs s))))))
