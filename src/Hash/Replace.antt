-- ===== src/Hash/Replace.antt =====
-- What hash_delete and hash_replace of lib/kernel/hash.c return, and the table after them.
use mathlib.Core.Path.{subst}
use os_project.Common.{
  ℕ, ◌+◌, ◌<◌, ◌≡◌, sym, ◌∙◌, Bool, true, ◌==◌, [], Option, none, some, ok, ◌>>=◌, count, one_if,
  length, arith, Bool-cases, inl, inr, Returns, Returns-bind,
}
use os_project.Links.Chain.{count_self}
use os_project.Hash.{
  Table, find_bucket, find_elem, are_equal, rehash, insert_elem, remove_elem, remove_found,
  delete_found, hash_delete, hash_replace,
}
use os_project.Hash.Elements.{elements}
use os_project.Hash.Find.{
  IsKeyed, IsTable, IsFound, IsFound-elements, find_elem_lem, find_bucket_lem,
}
use os_project.Hash.Rehash.{Rehashed, rehash_lem}
use os_project.Hash.Insert.{
  Rehashed-IsTable, insert_elem-IsTable, insert_elem-counts, are_equal_sym, insert_elem-cnt,
}
use os_project.Hash.Delete.{
  remove_elem-IsTable, remove_elem-counts, remove_elem-length, remove_elem-bucket_cnt,
  remove_elem-find_bucket,
}

-- What an operation took out of the elements, by what it returns.
abbrev pub taken : Option ℕ → ℕ → ℕ
taken none u = 0
taken (some old) u = one_if (old == u)

module _ (hash : ℕ → ℕ) (less : ℕ → ℕ → Bool) where
  IsTable-small :
      (h : Table)
      → IsTable hash less h
      → length (elements h) < 0x1_0000_0000
      → h.elem_cnt < 0x1_0000_0000
  IsTable-small h t short = omega (arith, t.counted, short)

  deleted :
      (room : Bool) (h : Table) (e : ℕ)
      → IsTable hash less h
      → length (elements h) < 0x1_0000_0000
      → (found : Option ℕ) → IsFound hash less (elements h) e found
      → Returns {A = Option ℕ × Table}
          (λ r.
            IsFound hash less (elements h) e r.0
            × IsTable hash less r.1
            × ((u : ℕ) → count u (elements r.1) + taken r.0 u ≡ count u (elements h)))
          (delete_found hash room found h >>= (λ h'. ok (found, h')))
  unfolding delete_found
  deleted room h e t short none f = (f, t, λ u. omega arith)
  deleted room h e t short (some x) f =
      let h1 = remove_elem h x in
      let t1 = remove_elem-IsTable hash less h x t f.0 short in
      Returns-bind (Rehashed hash less room h1) _ (rehash hash room h1) (λ h'. ok (some x, h'))
        (rehash_lem hash less room h1 t1.layout
          (IsTable-small h1 t1 (omega (arith, short, remove_elem-length hash less h x t f.0))))
        (λ h' r. (
          f,
          Rehashed-IsTable hash less room h1 h' t1 r,
          λ u. omega (arith, r.counts u, remove_elem-counts hash less h x t f.0 u),
        ))

  -- hash_delete returns an element of the table that is equal to the given one, and the table then has
  -- all its elements but that one; or NULL, if there is none, and the table stays the same.
  pub hash_delete_lem :
      (room : Bool) (h : Table) (e : ℕ)
      → IsKeyed hash less
      → IsTable hash less h
      → length (elements h) < 0x1_0000_0000
      → Returns
          (λ r.
            IsFound hash less (elements h) e r.0
            × IsTable hash less r.1
            × ((u : ℕ) → count u (elements r.1) + taken r.0 u ≡ count u (elements h)))
          (hash_delete hash less room h e)
  unfolding hash_delete
  hash_delete_lem room h e keyed t short =
      let (i, below, at) =
        find_bucket_lem hash less h t.layout.digits e t.layout.power t.layout.few in
      rw at (
        deleted room h e t short (find_elem less (h.buckets i) e) (
          IsFound-elements hash less h e i (find_elem less (h.buckets i) e) keyed t.layout below at
            (find_elem_lem hash less (h.buckets i) e)))

  -- Once the equal element is out, there is none.
  none_left :
      (h : Table) (e x : ℕ)
      → IsKeyed hash less
      → (t : IsTable hash less h) → (inside : 0 < count x (elements h)) → are_equal less x e ≡ true
      → IsFound hash less (elements (remove_elem h x)) e none
  none_left h e x keyed t inside equal = λ a there. elim (Bool-cases (are_equal less a e)) [
    | inl also ↦
        let counts = remove_elem-counts hash less h x t inside in
        let same =
          t.apart a x (omega (arith, there, counts a)) inside
            (keyed.trans a e x also (are_equal_sym hash less e x ∙ equal)) in
        let no : ⊥ = omega (
          arith,
          t.once x,
          counts x,
          count_self x [],
          subst (λ v. 0 < count v (elements (remove_elem h x))) same there,
        ) in
        elim no [ ]
    | inr other ↦ other
  ]

  replaced :
      (room : Bool) (h : Table) (new i : ℕ)
      → IsKeyed hash less
      → IsTable hash less h
      → length (elements h) < 0xffff_ffff
      → i < h.bucket_cnt
      → find_bucket hash h new ≡ ok i
      → (old : Option ℕ) → IsFound hash less (elements h) new old
      → Returns {A = Option ℕ × Table}
          (λ r.
            IsFound hash less (elements h) new r.0
            × IsTable hash less r.1
            × ((u : ℕ)
                → count u (elements r.1) + taken r.0 u ≡ one_if (new == u) + count u (elements h)))
          (rehash hash room (insert_elem (remove_found old h) i new) >>= (λ h'. ok (old, h')))
  unfolding remove_found
  replaced room h new i keyed t short below at none f =
      let h1 = insert_elem h i new in
      let t1 = insert_elem-IsTable hash less h new i below keyed t short at f in
      Returns-bind (Rehashed hash less room h1) _ (rehash hash room h1) (λ h'. ok (none, h'))
        (rehash_lem hash less room h1 t1.layout
          (omega (arith, insert_elem-cnt hash less h new i below)))
        (λ h' r. (
          f,
          Rehashed-IsTable hash less room h1 h' t1 r,
          λ u. omega (arith, r.counts u, insert_elem-counts hash less h new i below u),
        ))
  replaced room h new i keyed t short below at (some x) f =
      let h0 = remove_elem h x in
      let h1 = insert_elem h0 i new in
      let below0 = subst (λ n. i < n) (sym (remove_elem-bucket_cnt hash less h x t f.0)) below in
      let t0 = remove_elem-IsTable hash less h x t f.0 (omega (arith, short)) in
      let t1 =
        insert_elem-IsTable hash less h0 new i below0 keyed t0
          (omega (arith, short, remove_elem-length hash less h x t f.0))
          (remove_elem-find_bucket hash less h x t f.0 new ∙ at)
          (none_left h new x keyed t f.0 f.1) in
      Returns-bind (Rehashed hash less room h1) _ (rehash hash room h1) (λ h'. ok (some x, h'))
        (rehash_lem hash less room h1 t1.layout
          (omega (arith, insert_elem-cnt hash less h0 new i below0)))
        (λ h' r. (
          f,
          Rehashed-IsTable hash less room h1 h' t1 r,
          λ u. omega (
            arith,
            r.counts u,
            insert_elem-counts hash less h0 new i below0 u,
            remove_elem-counts hash less h x t f.0 u,
          ),
        ))

  -- hash_replace puts the new element, into a table of less than 2 to the 32 minus 1 elements, in place
  -- of an equal one, which it returns, or besides the others, and then it returns NULL.
  pub hash_replace_lem :
      (room : Bool) (h : Table) (new : ℕ)
      → IsKeyed hash less
      → IsTable hash less h
      → length (elements h) < 0xffff_ffff
      → Returns
          (λ r.
            IsFound hash less (elements h) new r.0
            × IsTable hash less r.1
            × ((u : ℕ)
                → count u (elements r.1) + taken r.0 u ≡ one_if (new == u) + count u (elements h)))
          (hash_replace hash less room h new)
  unfolding hash_replace
  hash_replace_lem room h new keyed t short =
      let (i, below, at) =
        find_bucket_lem hash less h t.layout.digits new t.layout.power t.layout.few in
      rw at (
        replaced room h new i keyed t short below at (find_elem less (h.buckets i) new) (
          IsFound-elements hash less h new i (find_elem less (h.buckets i) new) keyed t.layout below
            at (find_elem_lem hash less (h.buckets i) new)))
