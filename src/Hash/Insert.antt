-- ===== src/Hash/Insert.antt =====
-- hash_insert of lib/kernel/hash.c puts an element into the table unless it holds an equal one.
use mathlib.Core.Path.{subst}
use os_project.Common.{
  ℕ, ◌+◌, ◌<◌, ◌≡◌, refl, sym, ap, ◌∙◌, Bool, true, false, not, ◌&&◌, ◌==◌, List, ◌∷◌, Option, none,
  some, ok, ◌>>=◌, u32, count, one_if, count-append, length, length-append, arith, ℕ_discrete, inl,
  inr, Returns, Returns-bind,
}
use os_project.Links.Lists.{once_more}
use os_project.Links.Extreme.{among}
use os_project.Hash.{
  Table, find_bucket, find_elem, are_equal, put_bucket, rehash, insert_elem, insert_unless,
  hash_insert,
}
use os_project.Hash.Elements.{elements, gather-put}
use os_project.Hash.Find.{
  IsKeyed, IsTable, IsPlaced, IsFound, IsFound-elements, find_elem_lem, find_bucket_lem,
}
use os_project.Hash.Moves.{push-IsPlaced}
use os_project.Hash.Rehash.{Rehashed, rehash_lem}

and_comm : (a b : Bool) → (a && b) ≡ (b && a)
and_comm true true = refl
and_comm true false = refl
and_comm false true = refl
and_comm false false = refl

pub clash : (b : Bool) → b ≡ true → b ≡ false → ⊥
clash b yes_b no_b = omega (arith, ap one_if yes_b, ap one_if no_b)

-- What an insertion adds to the elements, by what was found.
abbrev pub added : Option ℕ → ℕ → ℕ → ℕ
added none new t = one_if (new == t)
added (some old) new t = 0

module _ (hash : ℕ → ℕ) (less : ℕ → ℕ → Bool) where
  pub are_equal_sym : (a b : ℕ) → are_equal less a b ≡ are_equal less b a
  are_equal_sym a b = and_comm (not (less a b)) (not (less b a))

  pub are_equal_refl : (a : ℕ) → IsKeyed hash less → are_equal less a a ≡ true
  are_equal_refl a keyed = rw (keyed.irrefl a) refl

  -- The table after rehash.
  pub Rehashed-IsTable :
      (room : Bool) (h h' : Table)
      → IsTable hash less h
      → Rehashed hash less room h h'
      → IsTable hash less h'
  Rehashed-IsTable room h h' t r = record {
    layout = r.layout;
    counted = r.same_cnt ∙ t.counted ∙ sym r.size;
    once = λ u. omega (arith, t.once u, r.counts u);
    apart = λ a b i j. t.apart a b (omega (arith, i, r.counts a)) (omega (arith, j, r.counts b));
  }

  recounted-IsPlaced :
      (h : Table) (n : ℕ) → IsPlaced hash less h → IsPlaced hash less (record h { elem_cnt = n })
  unfolding find_bucket
  recounted-IsPlaced h n p = record {
    digits = p.digits;
    power = p.power;
    few = p.few;
    four = p.four;
    placed = p.placed;
  }

  -- An element without an equal one is put among others.
  module _ (keyed : IsKeyed hash less) (xs : List ℕ) (e : ℕ)
      (new : IsFound hash less xs e none) where
    pub absent : count e xs ≡ 0
    absent = elim (ℕ_discrete (count e xs) 0) [
      | yes nowhere ↦ nowhere
      | no somewhere ↦
          let no : ⊥ =
            clash (are_equal less e e) (are_equal_refl e keyed)
              (new e (omega (arith, somewhere))) in
          elim no [ ]
    ]

    pub apart_more :
        (a b : ℕ)
        → ((c d : ℕ) → 0 < count c xs → 0 < count d xs → are_equal less c d ≡ true → c ≡ d)
        → 0 < one_if (e == a) + count a xs
        → 0 < one_if (e == b) + count b xs
        → are_equal less a b ≡ true
        → a ≡ b
    apart_more a b apart ia ib equal = elim (among a e xs ia) [
      | inl ea ↦ elim (among b e xs ib) [
        | inl eb ↦ sym ea ∙ eb
        | inr jb ↦
            let back = are_equal_sym b e ∙ subst (λ u. are_equal less u b ≡ true) (sym ea) equal in
            let no : ⊥ = clash (are_equal less b e) back (new b jb) in elim no [ ]
      ]
      | inr ja ↦ elim (among b e xs ib) [
        | inl eb ↦
            let forth = subst (λ u. are_equal less a u ≡ true) (sym eb) equal in
            let no : ⊥ = clash (are_equal less a e) forth (new a ja) in elim no [ ]
        | inr jb ↦ apart a b ja jb equal
      ]
    ]

  -- A new element is put into its bucket.
  module _ (h : Table) (e i : ℕ) (below : i < h.bucket_cnt) where
    pub insert_elem-counts :
        (u : ℕ) → count u (elements (insert_elem h i e)) ≡ one_if (e == u) + count u (elements h)
    unfolding insert_elem
    insert_elem-counts u = omega (
      arith,
      gather-put (λ us. count u us) (count-append u) h.bucket_cnt i h.buckets (e ∷ h.buckets i)
          below,
    )

    insert_elem-length : length (elements (insert_elem h i e)) ≡ length (elements h) + 1
    unfolding insert_elem
    insert_elem-length = omega (
      arith,
      gather-put (λ us. length us) length-append h.bucket_cnt i h.buckets (e ∷ h.buckets i) below,
    )

    pub insert_elem-cnt : (insert_elem h i e).elem_cnt ≡ u32 (h.elem_cnt + 1)
    unfolding insert_elem
    insert_elem-cnt = refl

    insert_elem-IsPlaced :
        IsPlaced hash less h → find_bucket hash h e ≡ ok i → IsPlaced hash less (insert_elem h i e)
    unfolding insert_elem
    insert_elem-IsPlaced p at =
        recounted-IsPlaced (put_bucket h i (e ∷ h.buckets i)) (u32 (h.elem_cnt + 1))
          (push-IsPlaced hash less h e i p at)

    pub insert_elem-IsTable :
        IsKeyed hash less
        → IsTable hash less h
        → length (elements h) < 0xffff_ffff
        → find_bucket hash h e ≡ ok i
        → IsFound hash less (elements h) e none
        → IsTable hash less (insert_elem h i e)
    insert_elem-IsTable keyed t short at new = record {
      layout = insert_elem-IsPlaced t.layout at;
      counted = insert_elem-cnt ∙ omega (arith, t.counted, short, insert_elem-length);
      once = λ u. omega (
        arith,
        insert_elem-counts u,
        once_more e u (λ v. count v (elements h)) (absent keyed (elements h) e new) (t.once u),
      );
      apart = λ a b ia ib equal.
          apart_more keyed (elements h) e new a b t.apart (omega (arith, ia, insert_elem-counts a))
            (omega (arith, ib, insert_elem-counts b)) equal;
    }

  inserted :
      (room : Bool) (h : Table) (new i : ℕ)
      → IsKeyed hash less
      → IsTable hash less h
      → length (elements h) < 0xffff_ffff
      → i < h.bucket_cnt
      → find_bucket hash h new ≡ ok i
      → (old : Option ℕ) → IsFound hash less (elements h) new old
      → Returns {A = Option ℕ × Table}
          (λ r.
            IsFound hash less (elements h) new r.0
            × IsTable hash less r.1
            × ((t : ℕ) → count t (elements r.1) ≡ added r.0 new t + count t (elements h)))
          (rehash hash room (insert_unless old h i new) >>= (λ h'. ok (old, h')))
  unfolding insert_unless
  inserted room h new i keyed t short below at none f =
      let h1 = insert_elem h i new in
      let t1 = insert_elem-IsTable h new i below keyed t short at f in
      Returns-bind (Rehashed hash less room h1) _ (rehash hash room h1) (λ h'. ok (none, h'))
        (rehash_lem hash less room h1 t1.layout (omega (arith, insert_elem-cnt h new i below)))
        (λ h' r. (
          f,
          Rehashed-IsTable room h1 h' t1 r,
          λ u. r.counts u ∙ insert_elem-counts h new i below u,
        ))
  inserted room h new i keyed t short below at (some old) f =
      Returns-bind (Rehashed hash less room h) _ (rehash hash room h) (λ h'. ok (some old, h'))
        (rehash_lem hash less room h t.layout (omega (arith, t.counted, short)))
        (λ h' r. (f, Rehashed-IsTable room h h' t r, λ u. omega (arith, r.counts u)))

  -- hash_insert of an element, into a table of less than 2 to the 32 minus 1 elements, returns an equal
  -- element of the table, which then has the same elements as before, or NULL if there was none, and
  -- then the table also has the new one; it is a table again, whether malloc finds memory or not.
  pub hash_insert_lem :
      (room : Bool) (h : Table) (new : ℕ)
      → IsKeyed hash less
      → IsTable hash less h
      → length (elements h) < 0xffff_ffff
      → Returns
          (λ r.
            IsFound hash less (elements h) new r.0
            × IsTable hash less r.1
            × ((t : ℕ) → count t (elements r.1) ≡ added r.0 new t + count t (elements h)))
          (hash_insert hash less room h new)
  unfolding hash_insert
  hash_insert_lem room h new keyed t short =
      let (i, below, at) =
        find_bucket_lem hash less h t.layout.digits new t.layout.power t.layout.few in
      rw at (
        inserted room h new i keyed t short below at (find_elem less (h.buckets i) new) (
          IsFound-elements hash less h new i (find_elem less (h.buckets i) new) keyed t.layout below
            at (find_elem_lem hash less (h.buckets i) new)))
