-- ===== src/Hash/Moves.antt =====
-- rehash of lib/kernel/hash.c moves the elements of the old buckets into the new ones.
use mathlib.Core.Path.{subst}
use os_project.Common.{
  ℕ, zero, suc, ◌+◌, ◌<◌, ◌≡◌, refl, sym, ap, ◌∙◌, Bool, List, [], ◌∷◌, ok, count, count-append,
  length, length-append, arith, ℕ_discrete, inl, inr, Returns, Returns-bind, Returns-weaken,
}
use os_project.Links.Lists.{ne-false}
use os_project.Links.Extreme.{among}
use os_project.Hash.{Table, find_bucket, put_bucket, move_elems, move_buckets}
use os_project.Hash.Elements.{equal-true, from_bucket, elements, gather-put, put}
use os_project.Hash.Find.{IsPlaced, find_bucket_lem}

module _ (hash : ℕ → ℕ) (less : ℕ → ℕ → Bool) where
  -- The elements xs have been put into their buckets.
  pub record Moved (h : Table) (xs : List ℕ) (h' : Table) : Type 0 where
    pub layout : IsPlaced hash less h'
    pub same_buckets : h'.bucket_cnt ≡ h.bucket_cnt
    pub same_cnt : h'.elem_cnt ≡ h.elem_cnt
    pub counts : (t : ℕ) → count t (elements h') ≡ count t (elements h) + count t xs
    pub size : length (elements h') ≡ length (elements h) + length xs

  pub push-IsPlaced :
      (h : Table) (x i : ℕ)
      → IsPlaced hash less h
      → find_bucket hash h x ≡ ok i
      → IsPlaced hash less (put_bucket h i (x ∷ h.buckets i))
  unfolding find_bucket
  push-IsPlaced h x i p at = record {
    digits = p.digits;
    power = p.power;
    few = p.few;
    four = p.four;
    placed = λ j t below inside. elim (ℕ_discrete j i) [
      | yes here ↦
          let e : put h.buckets i (x ∷ h.buckets i) j ≡ x ∷ h.buckets i =
            rw (equal-true j i here) refl in
          elim (among t x (h.buckets i) (subst (λ us. 0 < count t us) e inside)) [
            | inl same ↦ subst (λ u. find_bucket hash h u ≡ ok j) same (at ∙ ap ok (sym here))
            | inr inner ↦
                p.placed j t below (subst (λ k. 0 < count t (h.buckets k)) (sym here) inner)
          ]
      | no other ↦
          let e : put h.buckets i (x ∷ h.buckets i) j ≡ h.buckets j =
            rw (ne-false j i other) refl in
          p.placed j t below (subst (λ us. 0 < count t us) e inside)
    ];
  }

  move_elems_lem :
      (xs : List ℕ) (h : Table) → IsPlaced hash less h → Returns (Moved h xs) (move_elems hash xs h)
  unfolding move_elems
  move_elems_lem [] h p = record {
    layout = p;
    same_buckets = refl;
    same_cnt = refl;
    counts = λ t. omega arith;
    size = omega arith;
  }
  move_elems_lem (x ∷ xs) h p =
      let (i, below, at) = find_bucket_lem hash less h p.digits x p.power p.few in
      let h1 = put_bucket h i (x ∷ h.buckets i) in
      rw at (
        Returns-weaken (Moved h1 xs) (Moved h (x ∷ xs)) (move_elems hash xs h1)
          (λ h' d. record {
            layout = d.layout;
            same_buckets = d.same_buckets;
            same_cnt = d.same_cnt;
            counts = λ t. omega (
              arith,
              d.counts t,
              gather-put (λ us. count t us) (count-append t) h.bucket_cnt i h.buckets
                  (x ∷ h.buckets i) below,
            );
            size = omega (
              arith,
              d.size,
              gather-put (λ us. length us) length-append h.bucket_cnt i h.buckets (x ∷ h.buckets i)
                  below,
            );
          })
          (move_elems_lem xs h1 (push-IsPlaced h x i p at)))

  pub move_buckets_lem :
      (rounds i : ℕ) (old : ℕ → List ℕ) (h : Table)
      → IsPlaced hash less h
      → Returns (Moved h (from_bucket rounds i old)) (move_buckets hash rounds i old h)
  unfolding move_buckets
  move_buckets_lem zero i old h p = record {
    layout = p;
    same_buckets = refl;
    same_cnt = refl;
    counts = λ t. omega arith;
    size = omega arith;
  }
  move_buckets_lem (suc rounds) i old h p =
      Returns-bind (Moved h (old i)) (Moved h (from_bucket (suc rounds) i old))
        (move_elems hash (old i) h) _ (move_elems_lem (old i) h p)
        (λ h1 d.
          Returns-weaken (Moved h1 (from_bucket rounds (suc i) old))
            (Moved h (from_bucket (suc rounds) i old)) (move_buckets hash rounds (suc i) old h1)
            (λ h' d'. record {
              layout = d'.layout;
              same_buckets = d'.same_buckets ∙ d.same_buckets;
              same_cnt = d'.same_cnt ∙ d.same_cnt;
              counts = λ t. omega (
                arith,
                d'.counts t,
                d.counts t,
                count-append t (old i) (from_bucket rounds (suc i) old),
              );
              size =
                  omega (
                    arith,
                    d'.size,
                    d.size,
                    length-append (old i) (from_bucket rounds (suc i) old),
                  );
            })
            (move_buckets_lem rounds (suc i) old h1 d.layout))
