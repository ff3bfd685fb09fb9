-- ===== src/Random.antt =====
-- lib/random.c: the pseudo-random numbers of an RC4 state. Bytes are numbers below 256.
use os_project.Common.{
  ℕ, zero, suc, ◌+◌, ◌-◌, ◌*◌, ◌/◌, ◌%◌, ◌^◌, Bool, true, false, List, [], ◌∷◌, get_or, set,
  if◌then◌else◌,
}
pub mod Swaps
pub mod Permutation
pub mod Cipher
pub mod Keystream
pub mod Tests

-- The static variables: S, i, j, and whether they are set up.
pub record Rc4 : Type 0 where
  pub s : List ℕ
  pub s_i : ℕ
  pub s_j : ℕ
  pub inited : Bool

abbrev pub byte : ℕ → ℕ
byte n = n % 256

abbrev pub swap_byte : List ℕ → ℕ → ℕ → List ℕ
swap_byte s a b = set (set s a (get_or s b 0)) b (get_or s a 0)

-- s[i] = i, from i on.
unfoldable pub fill_loop : ℕ → ℕ → List ℕ → List ℕ
fill_loop zero i s = s
fill_loop (suc left) i s = fill_loop left (i + 1) (set s i (byte i))

-- The bytes of the seed in memory: the i386 is little-endian.
abbrev pub seed_byte : ℕ → ℕ → ℕ
seed_byte seed k = byte (seed / 256 ^ k)

unfoldable pub mix_loop : ℕ → ℕ → ℕ → ℕ → List ℕ → List ℕ
mix_loop zero seed i j s = s
mix_loop (suc left) seed i j s =
    let j' = byte (j + (get_or s i 0 + seed_byte seed (i % 4))) in
    mix_loop left seed (i + 1) j' (swap_byte s i j')

unfoldable pub random_init : ℕ → Rc4 → Rc4
unfolding fill_loop mix_loop
random_init seed r = record {
  s = mix_loop 256 seed 0 0 (fill_loop 256 0 r.s);
  s_i = 0;
  s_j = 0;
  inited = true;
}

-- One round of `random_bytes`: the byte and the state.
abbrev pub next_byte : Rc4 → ℕ × Rc4
next_byte r =
    let i = byte (r.s_i + 1) in
    let j = byte (r.s_j + get_or r.s i 0) in
    let s = swap_byte r.s i j in
    let k = byte (get_or s i 0 + get_or s j 0) in
    (get_or s k 0, record r { s = s; s_i = i; s_j = j })

unfoldable pub bytes_loop : ℕ → Rc4 → List ℕ × Rc4
bytes_loop zero r = ([], r)
bytes_loop (suc size) r =
    let (b, r') = next_byte r in let (bs, r'') = bytes_loop size r' in (b ∷ bs, r'')

unfoldable pub random_bytes : ℕ → Rc4 → List ℕ × Rc4
unfolding random_init bytes_loop
random_bytes size r = bytes_loop size (if r.inited then r else random_init 0 r)

-- The four bytes as an `unsigned long`.
abbrev little_endian : List ℕ → ℕ
little_endian [] = 0
little_endian (b ∷ bs) = b + 256 * little_endian bs

unfoldable pub random_ulong : Rc4 → ℕ × Rc4
unfolding random_bytes
random_ulong r = let (bs, r') = random_bytes 4 r in (little_endian bs, r')
