-- ===== src/Random/Tests.antt =====
-- Runs of lib/random.c.
use os_project.Common.{refl, ◌≡◌, replicate, false, arith}
use os_project.Random.{Rc4, random_bytes}
use os_project.Random.Permutation.{Bytes}
use os_project.Random.Cipher.{Represents, keystream, after}
use os_project.Random.Keystream.{cipher_of, random_bytes-keystream}

-- The static variables before the first call.
abbrev fresh : Rc4
fresh = record { s = replicate 256 0; s_i = 0; s_j = 0; inited = false }

random_bytes-keystream_example :
    let (bs, r') = random_bytes 3 fresh in
    (bs ≡ keystream 3 (cipher_of fresh)) × Represents r' (after 3 (cipher_of fresh)) × Bytes 3 bs r'
random_bytes-keystream_example =
    random_bytes-keystream 3 fresh refl (λ e. absurd (ground (arith, e)))
