-- ===== src/Hash/Clear.antt =====
-- hash_init and hash_clear of lib/kernel/hash.c make a table without elements.
use os_project.Common.{
  ℕ, zero, suc, ◌^◌, ◌≤◌, ◌<◌, ◌≡◌, refl, sym, ap, Bool, List, [], Option, none, some, length,
  count, arith,
}
use os_project.Hash.{Table, hash_clear, act_all}
use os_project.Hash.Elements.{elements, gather}
use os_project.Hash.Find.{IsTable}
use os_project.Hash.Iterate.{apply_all_lem}

gather_empty : (n : ℕ) → gather n (λ i. []) ≡ []
gather_empty zero = refl
gather_empty (suc n) = rw (gather_empty n) refl

-- What the calls of the destructor, if there is one, do to the state.
abbrev pub destroyed : {State : Type 0} → Option (ℕ → State → State) → List ℕ → State → State
destroyed none xs s = s
destroyed (some destructor) xs s = act_all destructor xs s

module _ (hash : ℕ → ℕ) (less : ℕ → ℕ → Bool) where
  pub empty-IsTable :
      (n digits : ℕ)
      → n ≡ 2 ^ digits
      → digits < 32
      → 2 ≤ digits
      → IsTable hash less (record { elem_cnt = 0; bucket_cnt = n; buckets = λ i. [] })
  empty-IsTable n digits power few four = record {
    layout = record {
      digits = digits;
      power = power;
      few = few;
      four = four;
      placed = λ i t below inside. let no : ⊥ = omega (arith, inside) in elim no [ ];
    };
    counted = ap (λ us. length us) (sym (gather_empty n));
    once = λ t. omega (arith, ap (λ us. count t us) (gather_empty n));
    apart = λ a b i j equal.
        let no : ⊥ = omega (arith, i, ap (λ us. count a us) (gather_empty n)) in elim no [ ];
  }

  -- hash_clear leaves a table without elements that has as many buckets as before; the destructor, if
  -- there is one, was called for each element, one after the other.
  pub hash_clear_lem :
      {State : Type 0} (destructor : Option (ℕ → State → State)) (h : Table) (s : State)
      → IsTable hash less h
      → IsTable hash less (hash_clear destructor h s).0
        × (elements (hash_clear destructor h s).0 ≡ [])
        × ((hash_clear destructor h s).0.bucket_cnt ≡ h.bucket_cnt)
        × ((hash_clear destructor h s).1 ≡ destroyed destructor (elements h) s)
  unfolding hash_clear
  hash_clear_lem none h s t =
      let l = t.layout in
      (
        empty-IsTable h.bucket_cnt l.digits l.power l.few l.four,
        gather_empty h.bucket_cnt,
        refl,
        refl,
      )
  hash_clear_lem (some destructor) h s t =
      let l = t.layout in
      (
        empty-IsTable h.bucket_cnt l.digits l.power l.few l.four,
        gather_empty h.bucket_cnt,
        refl,
        apply_all_lem h destructor s,
      )
