-- ===== src/Random/Permutation.antt =====
-- The state of the generator in lib/random.c stays a permutation of the bytes.
use os_project.Common.{
  ℕ, zero, suc, ◌+◌, ◌%◌, ◌<◌, ◌≡◌, refl, ap, ◌∙◌, arith, Bool, true, false, ltb, dec_lt, List, ◌∷◌,
  length, get_or, set, length-set, get_or-set_self, get_or-set_ne, one_if, count, if◌then◌else◌,
}
use mathlib.Core.Path.{subst}
use os_project.Random.{
  Rc4, byte, swap_byte, fill_loop, mix_loop, seed_byte, random_init, next_byte, bytes_loop,
  random_bytes,
}
use os_project.Random.Swaps.{count-swap_byte, length-swap_byte, count-get_or, count-numbers}

-- Each of the 256 bytes once, and nothing else.
pub record IsPermutation (s : List ℕ) : Type 0 where
  pub full : length s ≡ 256
  pub once : (v : ℕ) → count v s ≡ one_if (ltb v 256)

swap_byte-IsPermutation :
    {s : List ℕ} (a b : ℕ) → IsPermutation s → a < 256 → b < 256 → IsPermutation (swap_byte s a b)
swap_byte-IsPermutation {s} a b p ha hb = record {
  full = length-swap_byte s a b ∙ p.full;
  once = λ v.
      count-swap_byte v s a b (omega (arith, ha, p.full)) (omega (arith, hb, p.full)) ∙ p.once v;
}

get_or-IsPermutation : {s : List ℕ} (i : ℕ) → IsPermutation s → i < 256 → get_or s i 0 < 256
get_or-IsPermutation {s} i p h =
    ground (arith, p.once (get_or s i 0), count-get_or s i 0 (omega (arith, p.full, h)))

-- s[k] = k below i: the loop extends this to i + left.
pub fill_loop_lem :
    (left i : ℕ) (s : List ℕ)
    → length s ≡ 256
    → i + left ≡ 256
    → ((k : ℕ) → k < i → get_or s k 0 ≡ k)
    → (length (fill_loop left i s) ≡ 256)
      × ((k : ℕ) → k < 256 → get_or (fill_loop left i s) k 0 ≡ k)
unfolding fill_loop
fill_loop_lem zero i s full e h = (full, λ k p. h k (omega arith))
fill_loop_lem (suc left) i s full e h =
    fill_loop_lem left (i + 1) (set s i (byte i)) (length-set s i (byte i) ∙ full) (omega arith)
      (λ k p. elim (dec_lt k i) [
        | yes q ↦ get_or-set_ne s i k (byte i) 0 (λ z. omega (arith, z, q)) ∙ h k q
        | no q ↦
            let last : i ≡ k = omega arith in
            let same : byte i ≡ i = omega (arith, e) in
            subst (λ (x : ℕ). get_or (set s i (byte i)) x 0 ≡ x) last
              (get_or-set_self s i (byte i) 0 (omega (arith, full, e)) ∙ same)
      ])

mix_loop-IsPermutation :
    (left seed i j : ℕ) (s : List ℕ)
    → i + left ≡ 256
    → IsPermutation s
    → IsPermutation (mix_loop left seed i j s)
unfolding mix_loop
mix_loop-IsPermutation zero seed i j s e p = p
mix_loop-IsPermutation (suc left) seed i j s e p =
    let j' = byte (j + (get_or s i 0 + seed_byte seed (i % 4))) in
    mix_loop-IsPermutation left seed (i + 1) j' (swap_byte s i j') (omega arith)
      (swap_byte-IsPermutation i j' p (omega (arith, e)) (omega arith))

numbers-IsPermutation :
    (s : List ℕ) → length s ≡ 256 → ((k : ℕ) → k < 256 → get_or s k 0 ≡ k) → IsPermutation s
numbers-IsPermutation s full numbers = record {
  full = full;
  once = λ v.
      count-numbers v s 0 (λ k p. omega (arith, numbers k (omega (arith, full))))
      ∙ ap (λ (b : Bool). one_if b) (ground (arith, full));
}

random_init-IsPermutation :
    (seed : ℕ) (r : Rc4) → length r.s ≡ 256 → IsPermutation (random_init seed r).s
unfolding random_init
random_init-IsPermutation seed r full =
    let (same, numbers) = fill_loop_lem 256 0 r.s full refl (λ k p. absurd (omega arith)) in
    mix_loop-IsPermutation 256 seed 0 0 (fill_loop 256 0 r.s) refl
      (numbers-IsPermutation _ same numbers)

-- What a run of `random_bytes` gives.
pub record Bytes (size : ℕ) (bs : List ℕ) (r : Rc4) : Type 0 where
  pub all : length bs ≡ size
  pub bounded : (k : ℕ) → get_or bs k 0 < 256
  pub state : IsPermutation r.s

cons-bounded :
    {b : ℕ} (bs : List ℕ)
    → b < 256
    → ((k : ℕ) → get_or bs k 0 < 256)
    → (k : ℕ) → get_or (b ∷ bs) k 0 < 256
cons-bounded bs h hs zero = h
cons-bounded bs h hs (suc k) = hs k

bytes_loop_lem :
    (size : ℕ) (r : Rc4) → IsPermutation r.s → let (bs, r') = bytes_loop size r in Bytes size bs r'
unfolding bytes_loop
bytes_loop_lem zero r p = record { all = refl; bounded = λ k. omega arith; state = p }
bytes_loop_lem (suc size) r p =
    let (b, r') = next_byte r in
    let i = byte (r.s_i + 1) in
    let j = byte (r.s_j + get_or r.s i 0) in
    let swapped : IsPermutation r'.s = swap_byte-IsPermutation i j p (omega arith) (omega arith) in
    let rest = bytes_loop_lem size r' swapped in
    let small =
      get_or-IsPermutation (byte (get_or r'.s i 0 + get_or r'.s j 0)) swapped (omega arith) in
    record {
      all = ap suc rest.all;
      bounded = cons-bounded _ small rest.bounded;
      state = rest.state;
    }

either-IsPermutation :
    (r x : Rc4) (b : Bool)
    → (b ≡ true → IsPermutation r.s)
    → IsPermutation x.s
    → IsPermutation (if b then r else x).s
either-IsPermutation r x true h p = h refl
either-IsPermutation r x false h p = p

-- random_bytes gives as many bytes as asked for, sets the generator up first if that has not been
-- done, whatever the 256 bytes of the old state, and leaves a permutation of the 256 bytes as its
-- state.
pub random_bytes_lem :
    (size : ℕ) (r : Rc4)
    → length r.s ≡ 256
    → (r.inited ≡ true → IsPermutation r.s)
    → let (bs, r') = random_bytes size r in Bytes size bs r'
unfolding random_bytes
random_bytes_lem size r full ready =
    bytes_loop_lem size (if r.inited then r else random_init 0 r)
      (either-IsPermutation r _ r.inited ready (random_init-IsPermutation 0 r full))
