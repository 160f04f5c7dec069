-- ===== src/Hash/Jenkins.antt =====
-- hashkit/nc_jenkins.c: `hash_jenkins` on a little-endian machine, with its three ways to read a key.
mod Aligned
pub mod Whole
use wx_cache_proxy.Base.{
  ℕ, zero, suc, ◌+◌, ◌-◌, ◌*◌, ◌%◌, ◌^◌, Bool, true, false, List, ltb, ◌==◌, if◌then◌else◌, get_or,
  drop,
}
use wx_cache_proxy.Hash.Words.{xor, add, sub, rot}

pub record Abc : Type 0 where
  pub a : ℕ
  pub b : ℕ
  pub c : ℕ

-- `x -= z;  x ^= rot(z, k);  z += y;` gives `x` and `z`.
abbrev pub mix_step : ℕ → ℕ → ℕ → ℕ → ℕ × ℕ
mix_step k x y z = (xor (sub x z) (rot z k), add z y)

unfoldable pub mix : Abc → Abc
mix s =
    let (a1, c1) = mix_step 4 s.a s.b s.c in
    let (b1, a2) = mix_step 6 s.b c1 a1 in
    let (c2, b2) = mix_step 8 c1 a2 b1 in
    let (a3, c3) = mix_step 16 a2 b2 c2 in
    let (b3, a4) = mix_step 19 b2 c3 a3 in
    let (c4, b4) = mix_step 4 c3 a4 b3 in record { a = a4; b = b4; c = c4 }

-- `x ^= y; x -= rot(y, k);`
abbrev pub final_step : ℕ → ℕ → ℕ → ℕ
final_step k x y = sub (xor x y) (rot y k)

unfoldable pub final : Abc → Abc
final s =
    let c1 = final_step 14 s.c s.b in
    let a1 = final_step 11 s.a c1 in
    let b1 = final_step 25 s.b a1 in
    let c2 = final_step 16 c1 b1 in
    let a2 = final_step 4 a1 c2 in
    let b2 = final_step 14 b1 a2 in
    let c3 = final_step 24 c2 b2 in record { a = a2; b = b2; c = c3 }

-- The byte at `k8[i]`, the 16-bit word at `k[i]`, and the 32-bit word at `k[i]`, of the memory from the
-- pointer on. It goes on behind the key.
abbrev pub at8 : List ℕ → ℕ → ℕ
at8 k i = get_or k i 0

abbrev pub at16 : List ℕ → ℕ → ℕ
at16 k i = at8 k (2 * i) + at8 k (2 * i + 1) * 2 ^ 8

abbrev pub at32 : List ℕ → ℕ → ℕ
at32 k i = at16 k (2 * i) + at16 k (2 * i + 1) * 2 ^ 16

-- Two 16-bit words.
abbrev pub pair16 : List ℕ → ℕ → ℕ
pair16 k i = at16 k i + at16 k (i + 1) * 2 ^ 16

unfoldable pub block32 : List ℕ → Abc → Abc
block32 k s = record { a = add s.a (at32 k 0); b = add s.b (at32 k 1); c = add s.c (at32 k 2) }

unfoldable pub block16 : List ℕ → Abc → Abc
block16 k s = record {
  a = add s.a (pair16 k 0);
  b = add s.b (pair16 k 2);
  c = add s.c (pair16 k 4);
}

-- Four bytes from `i` on are added one by one.
abbrev pub add_bytes : List ℕ → ℕ → ℕ → ℕ
add_bytes k i x =
    add (add (add (add x (at8 k i)) (at8 k (i + 1) * 2 ^ 8)) (at8 k (i + 2) * 2 ^ 16))
      (at8 k (i + 3) * 2 ^ 24)

unfoldable pub block8 : List ℕ → Abc → Abc
block8 k s = record { a = add_bytes k 0 s.a; b = add_bytes k 4 s.b; c = add_bytes k 8 s.c }

abbrev pub add_a : ℕ → Abc → Abc
add_a x s = record s { a = add s.a x }

abbrev pub add_b : ℕ → Abc → Abc
add_b x s = record s { b = add s.b x }

abbrev pub add_c : ℕ → Abc → Abc
add_c x s = record s { c = add s.c x }

-- The last block of up to twelve bytes. `& 0xffffff` is `% 2 ^ 24`.
unfoldable pub tail32 : ℕ → List ℕ → Abc → Abc
tail32 n k s =
    if n == 12
    then add_a (at32 k 0) (add_b (at32 k 1) (add_c (at32 k 2) s))
    else if n == 11
    then add_a (at32 k 0) (add_b (at32 k 1) (add_c (at32 k 2 % 2 ^ 24) s))
    else if n == 10
    then add_a (at32 k 0) (add_b (at32 k 1) (add_c (at32 k 2 % 2 ^ 16) s))
    else if n == 9
    then add_a (at32 k 0) (add_b (at32 k 1) (add_c (at32 k 2 % 2 ^ 8) s))
    else if n == 8
    then add_a (at32 k 0) (add_b (at32 k 1) s)
    else if n == 7
    then add_a (at32 k 0) (add_b (at32 k 1 % 2 ^ 24) s)
    else if n == 6
    then add_a (at32 k 0) (add_b (at32 k 1 % 2 ^ 16) s)
    else if n == 5
    then add_a (at32 k 0) (add_b (at32 k 1 % 2 ^ 8) s)
    else if n == 4
    then add_a (at32 k 0) s
    else if n == 3
    then add_a (at32 k 0 % 2 ^ 24) s
    else if n == 2
    then add_a (at32 k 0 % 2 ^ 16) s
    else if n == 1
    then add_a (at32 k 0 % 2 ^ 8) s
    else s

unfoldable pub tail16 : ℕ → List ℕ → Abc → Abc
tail16 n k s =
    if n == 12
    then add_a (pair16 k 0) (add_b (pair16 k 2) (add_c (pair16 k 4) s))
    else if n == 11
    then add_a (pair16 k 0) (add_b (pair16 k 2) (add_c (at16 k 4) (add_c (at8 k 10 * 2 ^ 16) s)))
    else if n == 10
    then add_a (pair16 k 0) (add_b (pair16 k 2) (add_c (at16 k 4) s))
    else if n == 9
    then add_a (pair16 k 0) (add_b (pair16 k 2) (add_c (at8 k 8) s))
    else if n == 8
    then add_a (pair16 k 0) (add_b (pair16 k 2) s)
    else if n == 7
    then add_a (pair16 k 0) (add_b (at16 k 2) (add_b (at8 k 6 * 2 ^ 16) s))
    else if n == 6
    then add_a (pair16 k 0) (add_b (at16 k 2) s)
    else if n == 5
    then add_a (pair16 k 0) (add_b (at8 k 4) s)
    else if n == 4
    then add_a (pair16 k 0) s
    else if n == 3
    then add_a (at16 k 0) (add_a (at8 k 2 * 2 ^ 16) s)
    else if n == 2
    then add_a (at16 k 0) s
    else if n == 1
    then add_a (at8 k 0) s
    else s

-- All the cases fall through: byte `i` is added if there is one.
abbrev pub add_byte : (ℕ → Abc → Abc) → ℕ → ℕ → ℕ → List ℕ → Abc → Abc
add_byte to n i shift k s = if ltb i n then to (at8 k i * 2 ^ shift) s else s

unfoldable pub tail8 : ℕ → List ℕ → Abc → Abc
tail8 n k s =
    let s0 = add_byte add_c n 11 24 k s in
    let s1 = add_byte add_c n 10 16 k s0 in
    let s2 = add_byte add_c n 9 8 k s1 in
    let s3 = add_byte add_c n 8 0 k s2 in
    let s4 = add_byte add_b n 7 24 k s3 in
    let s5 = add_byte add_b n 6 16 k s4 in
    let s6 = add_byte add_b n 5 8 k s5 in
    let s7 = add_byte add_b n 4 0 k s6 in
    let s8 = add_byte add_a n 3 24 k s7 in
    let s9 = add_byte add_a n 2 16 k s8 in
    let s10 = add_byte add_a n 1 8 k s9 in let s11 = add_byte add_a n 0 0 k s10 in s11

-- How a key is read: a block of twelve bytes, and the last block.
pub record Reader : Type 0 where
  pub block : List ℕ → Abc → Abc
  pub tail : ℕ → List ℕ → Abc → Abc

-- The result for the last block; keys of no bytes are not mixed.
unfoldable pub last_block : Reader → ℕ → List ℕ → Abc → ℕ
last_block reader length k s =
    if length == 0 then s.c else if ltb 12 length then s.c else (final (reader.tail length k s)).c

-- The loop over all blocks but the last one. The first number is the fuel.
unfoldable pub blocks : Reader → ℕ → ℕ → List ℕ → Abc → ℕ
blocks reader zero length k s = last_block reader length k s
blocks reader (suc f) length k s = elim (ltb 12 length) [
  | true ↦ blocks reader f (length - 12) (drop 12 k) (mix (reader.block k s))
  | false ↦ last_block reader length k s
]

abbrev pub reader8 : Reader
reader8 = record { block = block8; tail = tail8 }

-- The reader for a key at an address.
unfoldable pub reader_at : ℕ → Reader
reader_at address =
    if address % 4 == 0
    then record { block = block32; tail = tail32 }
    else if address % 2 == 0
    then record { block = block16; tail = tail16 }
    else reader8

unfoldable pub jenkins_start : ℕ → Abc
jenkins_start length = let x = (0xdeadbeef + length + 13) % 2 ^ 32 in record { a = x; b = x; c = x }

-- `memory` is what stands from the address on.
unfoldable pub hash_jenkins : ℕ → List ℕ → ℕ → ℕ
hash_jenkins address memory length =
    blocks (reader_at address) length length memory (jenkins_start length)
