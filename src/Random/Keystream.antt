-- ===== src/Random/Keystream.antt =====
-- random_bytes of lib/random.c gives the bytes of the cipher of Random.Cipher.
use os_project.Common.{
  ℕ, zero, suc, ◌+◌, ◌%◌, ◌<◌, ◌≡◌, refl, ap, ◌∙◌, arith, Bool, true, false, if◌then◌else◌, List,
  length, get_or,
}
use mathlib.Core.Path.{subst}
use os_project.Random.{
  Rc4, byte, swap_byte, fill_loop, mix_loop, seed_byte, random_init, next_byte, bytes_loop,
  random_bytes,
}
use os_project.Random.Permutation.{IsPermutation, Bytes, fill_loop_lem, random_bytes_lem}
use os_project.Random.Cipher.{
  exchange, scheduled, key_byte, Cipher, start, advance, output, keystream, after, Holds,
  Represents, swap_byte-exchange,
}

scheduled-suc :
    (key : ℕ → ℕ) (n : ℕ)
    → let (f, j) = scheduled key n in
      let j' = (j + (f n + key n)) % 256 in scheduled key (n + 1) ≡ (exchange f n j', j')
unfolding scheduled
scheduled-suc key n = let next : n + 1 ≡ suc n = omega arith in rw next refl

scheduled-zero : (key : ℕ → ℕ) → scheduled key 0 ≡ (λ k. k, 0)
unfolding scheduled
scheduled-zero key = refl

module _ (seed : ℕ) where
  abbrev rounds : ℕ → (ℕ → ℕ) × ℕ
  rounds n = scheduled (key_byte seed) n

  mix_round :
      (i : ℕ) (s : List ℕ)
      → i < 256
      → Holds s (rounds i).0
      → let j = byte ((rounds i).1 + (get_or s i 0 + seed_byte seed (i % 4))) in
        (j ≡ (rounds (i + 1)).1) × Holds (swap_byte s i j) (rounds (i + 1)).0
  mix_round i s below h =
      let j = byte ((rounds i).1 + (get_or s i 0 + seed_byte seed (i % 4))) in
      let same : j ≡ ((rounds i).1 + ((rounds i).0 i + key_byte seed i)) % 256 =
        ap (λ x. byte ((rounds i).1 + (x + seed_byte seed (i % 4)))) (h.same i below) in
      rw (scheduled-suc (key_byte seed) i) (
        same,
        subst (λ (x : ℕ). Holds (swap_byte s i j) (exchange (rounds i).0 i x)) same
            (swap_byte-exchange s (rounds i).0 i j h below (omega arith)),
      )

  mix_loop-scheduled :
      (left i j : ℕ) (s : List ℕ)
      → i + left ≡ 256
      → j ≡ (rounds i).1
      → Holds s (rounds i).0
      → Holds (mix_loop left seed i j s) (rounds (i + left)).0
  unfolding mix_loop
  mix_loop-scheduled zero i j s e same h = subst (λ (n : ℕ). Holds s (rounds n).0) (omega arith) h
  mix_loop-scheduled (suc left) i j s e same h =
      let (same', h') = mix_round i s (omega (arith, e)) h in
      let j' = byte ((rounds i).1 + (get_or s i 0 + seed_byte seed (i % 4))) in
      let total : i + 1 + left ≡ i + suc left = omega arith in
      rw same (
        subst (λ (n : ℕ). Holds (mix_loop left seed (i + 1) j' (swap_byte s i j')) (rounds n).0)
          total (mix_loop-scheduled left (i + 1) j' (swap_byte s i j') (omega (arith, e)) same' h'))

  random_init-Represents :
      (r : Rc4) → length r.s ≡ 256 → Represents (random_init seed r) (start seed)
  unfolding random_init
  random_init-Represents r full =
      let (same, numbers) = fill_loop_lem 256 0 r.s full refl (λ k p. absurd (omega arith)) in
      record {
        holds =
            mix_loop-scheduled 256 0 0 (fill_loop 256 0 r.s) refl
              (rw (scheduled-zero (key_byte seed)) refl)
              (rw (scheduled-zero (key_byte seed)) (record { full = same; same = numbers }));
        at_i = refl;
        at_j = refl;
        inited = refl;
      }

-- The byte behind an exchange.
output-exchange :
    (s : List ℕ) (f : ℕ → ℕ) (i j : ℕ)
    → Holds s f
    → i < 256
    → j < 256
    → get_or s (byte (get_or s i 0 + get_or s j 0)) 0 ≡ f ((f i + f j) % 256)
output-exchange s f i j h i_in j_in =
    h.same (byte (get_or s i 0 + get_or s j 0)) (omega arith)
    ∙ ap f (
        ap (λ x. byte (x + get_or s j 0)) (h.same i i_in)
        ∙ ap (λ x. byte (f i + x)) (h.same j j_in))

pair : {a b c d : ℕ} → a ≡ c → b ≡ d → ◌≡◌ {A = ℕ × ℕ} (a, b) (c, d)
pair e f = λ k. (e k, f k)

-- One byte.
next_byte-Represents :
    (r : Rc4) (c : Cipher)
    → Represents r c
    → let (b, r') = next_byte r in (b ≡ output (advance c)) × Represents r' (advance c)
next_byte-Represents r c p =
    let i = byte (r.s_i + 1) in
    let j = byte (r.s_j + get_or r.s i 0) in
    let i_eq : i ≡ (c.i + 1) % 256 = ap (λ x. byte (x + 1)) p.at_i in
    let j_eq : j ≡ (c.j + c.table ((c.i + 1) % 256)) % 256 =
      ap (λ x. byte (r.s_j + x)) (p.holds.same i (omega arith) ∙ ap c.table i_eq)
      ∙ ap (λ x. byte (x + c.table ((c.i + 1) % 256))) p.at_j in
    let h = swap_byte-exchange r.s c.table i j p.holds (omega arith) (omega arith) in
    let out =
      output-exchange (swap_byte r.s i j) (exchange c.table i j) i j h (omega arith)
        (omega arith) in
    let both = pair i_eq j_eq in
    (
      out
          ∙ ap
              (λ (x : ℕ × ℕ).
                exchange c.table x.0 x.1
                  ((exchange c.table x.0 x.1 x.0 + exchange c.table x.0 x.1 x.1) % 256))
              both,
      record {
        holds = subst (λ (x : ℕ × ℕ). Holds (swap_byte r.s i j) (exchange c.table x.0 x.1)) both h;
        at_i = i_eq;
        at_j = j_eq;
        inited = p.inited;
      },
    )

bytes_loop-keystream :
    (size : ℕ) (r : Rc4) (c : Cipher)
    → Represents r c
    → let (bs, r') = bytes_loop size r in (bs ≡ keystream size c) × Represents r' (after size c)
unfolding bytes_loop
bytes_loop-keystream zero r c p = (refl, p)
bytes_loop-keystream (suc size) r c p =
    let (same, p') = next_byte-Represents r c p in
    let (others, done) = bytes_loop-keystream size (next_byte r).1 (advance c) p' in
    (rw (same, others) refl, done)

-- The cipher that the generator goes on with: the one in its variables, or one with the key 0.
abbrev pub cipher_of : Rc4 → Cipher
cipher_of r =
    if r.inited then record { table = λ k. get_or r.s k 0; i = r.s_i; j = r.s_j } else start 0

either-Represents :
    (r x : Rc4) (c c' : Cipher) (b : Bool)
    → (b ≡ true → Represents r c)
    → Represents x c'
    → Represents (if b then r else x) (if b then c else c')
either-Represents r x c c' true h p = h refl
either-Represents r x c c' false h p = p

cipher_of-Represents :
    (r : Rc4)
    → length r.s ≡ 256
    → Represents (if r.inited then r else random_init 0 r) (cipher_of r)
cipher_of-Represents r full =
    either-Represents r (random_init 0 r)
      (record { table = λ k. get_or r.s k 0; i = r.s_i; j = r.s_j }) (start 0) r.inited
      (λ e. record {
        holds = record { full = full; same = λ k below. refl };
        at_i = refl;
        at_j = refl;
        inited = e;
      })
      (random_init-Represents 0 r full)

-- random_bytes writes the next bytes of RC4, as many as asked for: of the cipher whose state is in
-- the static variables, or, if they are not set up, of one that is set up with the key 0 of four
-- bytes. Afterwards the variables are set up and hold the state of the cipher after these bytes,
-- and the array is a permutation of the 256 bytes, if it was one before or was not set up.
pub random_bytes-keystream :
    (size : ℕ) (r : Rc4)
    → length r.s ≡ 256
    → (r.inited ≡ true → IsPermutation r.s)
    → let (bs, r') = random_bytes size r in
      (bs ≡ keystream size (cipher_of r))
      × Represents r' (after size (cipher_of r))
      × Bytes size bs r'
unfolding random_bytes
random_bytes-keystream size r full ready =
    let (same, state) =
      bytes_loop-keystream size (if r.inited then r else random_init 0 r) (cipher_of r)
        (cipher_of-Represents r full) in
    (same, state, random_bytes_lem size r full ready)
