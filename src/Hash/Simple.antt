-- ===== src/Hash/Simple.antt =====
-- hashkit: the hash functions that walk over a key byte by byte or word by word, but for nc_jenkins.c.
use wx_cache_proxy.Base.{ℕ, ◌+◌, ◌-◌, ◌*◌, ◌%◌, ◌^◌, Bool, List, [], ◌∷◌, length, get_or}
use wx_cache_proxy.Hash.Words.{xor, add, mul, shl, shr, complement, char_at}
use wx_cache_proxy.Hash.Tables.{crc16tab, crc32tab}

-- The sign of a `char` does not matter where only eight bits are kept.
unfoldable pub crc16_from : ℕ → List ℕ → ℕ
crc16_from crc [] = crc
crc16_from crc (ch ∷ key) =
    crc16_from (xor (shl crc 8) (get_or crc16tab (xor (shr crc 8) ch % 2 ^ 8) 0)) key

unfoldable pub hash_crc16 : List ℕ → ℕ
hash_crc16 key = crc16_from 0 key

unfoldable pub crc32_from : ℕ → List ℕ → ℕ
crc32_from crc [] = crc
crc32_from crc (ch ∷ key) =
    crc32_from (xor (shr crc 8) (get_or crc32tab (xor crc ch % 2 ^ 8) 0)) key

unfoldable pub hash_crc32 : List ℕ → ℕ
hash_crc32 key = shr (complement (crc32_from (2 ^ 32 - 1) key)) 16 % 2 ^ 15

unfoldable pub hash_crc32a : List ℕ → ℕ
hash_crc32a key = xor (crc32_from (2 ^ 32 - 1) key) (2 ^ 32 - 1)

abbrev pub fnv_64_init : ℕ
fnv_64_init = 0xcbf29ce484222325

abbrev pub fnv_64_prime : ℕ
fnv_64_prime = 0x100000001b3

abbrev pub fnv_32_init : ℕ
fnv_32_init = 2166136261

abbrev pub fnv_32_prime : ℕ
fnv_32_prime = 16777619

module _ (signed : Bool) where
  unfoldable pub fnv1_64_from : ℕ → List ℕ → ℕ
  fnv1_64_from hash [] = hash % 2 ^ 32
  fnv1_64_from hash (ch ∷ key) =
      fnv1_64_from (xor ((hash * fnv_64_prime) % 2 ^ 64) (char_at signed 64 ch)) key

  unfoldable pub hash_fnv1_64 : List ℕ → ℕ
  hash_fnv1_64 key = fnv1_64_from fnv_64_init key

  unfoldable pub fnv1a_from : ℕ → ℕ → List ℕ → ℕ
  fnv1a_from prime hash [] = hash
  fnv1a_from prime hash (ch ∷ key) =
      fnv1a_from prime (mul (xor hash (char_at signed 32 ch)) prime) key

  -- The hash and the prime are cut down to 32 bits here.
  unfoldable pub hash_fnv1a_64 : List ℕ → ℕ
  hash_fnv1a_64 key = fnv1a_from (fnv_64_prime % 2 ^ 32) (fnv_64_init % 2 ^ 32) key

  unfoldable pub hash_fnv1a_32 : List ℕ → ℕ
  hash_fnv1a_32 key = fnv1a_from fnv_32_prime fnv_32_init key

  unfoldable pub fnv1_32_from : ℕ → List ℕ → ℕ
  fnv1_32_from hash [] = hash
  fnv1_32_from hash (ch ∷ key) =
      fnv1_32_from (xor (mul hash fnv_32_prime) (char_at signed 32 ch)) key

  unfoldable pub hash_fnv1_32 : List ℕ → ℕ
  hash_fnv1_32 key = fnv1_32_from fnv_32_init key

  unfoldable pub one_at_a_time_from : ℕ → List ℕ → ℕ
  one_at_a_time_from value [] =
      let v1 = add value (shl value 3) in let v2 = xor v1 (shr v1 11) in add v2 (shl v2 15)
  one_at_a_time_from value (ch ∷ key) =
      let v1 = add value (char_at signed 32 ch) in
      let v2 = add v1 (shl v1 10) in one_at_a_time_from (xor v2 (shr v2 6)) key

  unfoldable pub hash_one_at_a_time : List ℕ → ℕ
  hash_one_at_a_time key = one_at_a_time_from 0 key

  -- `get16bits`, where it is not a read of two aligned bytes.
  abbrev pub get16bits : ℕ → ℕ → ℕ
  get16bits b0 b1 = b1 * 2 ^ 8 + b0

  unfoldable pub hsieh_avalanche : ℕ → ℕ
  hsieh_avalanche h0 =
      let h1 = xor h0 (shl h0 3) in
      let h2 = add h1 (shr h1 5) in
      let h3 = xor h2 (shl h2 4) in
      let h4 = add h3 (shr h3 17) in let h5 = xor h4 (shl h4 25) in add h5 (shr h5 6)

  -- The main loop, and behind it the three, two, one or no bytes that are left.
  unfoldable pub hsieh_from : ℕ → List ℕ → ℕ
  hsieh_from hash [] = hash
  hsieh_from hash (b0 ∷ []) =
      let h1 = add hash b0 in let h2 = xor h1 (shl h1 10) in add h2 (shr h2 1)
  hsieh_from hash (b0 ∷ b1 ∷ []) =
      let h1 = add hash (get16bits b0 b1) in let h2 = xor h1 (shl h1 11) in add h2 (shr h2 17)
  hsieh_from hash (b0 ∷ b1 ∷ b2 ∷ []) =
      let h1 = add hash (get16bits b0 b1) in
      let h2 = xor h1 (shl h1 16) in
      let h3 = xor h2 (shl (char_at signed 32 b2) 18) in add h3 (shr h3 11)
  hsieh_from hash (b0 ∷ b1 ∷ b2 ∷ b3 ∷ key) =
      let h1 = add hash (get16bits b0 b1) in
      let tmp = xor (shl (get16bits b2 b3) 11) h1 in
      let h2 = xor (shl h1 16) tmp in hsieh_from (add h2 (shr h2 11)) key

  unfoldable pub hash_hsieh : List ℕ → ℕ
  hash_hsieh [] = 0
  hash_hsieh (ch ∷ key) = hsieh_avalanche (hsieh_from 0 (ch ∷ key))

abbrev pub murmur_m : ℕ
murmur_m = 0x5bd1e995

unfoldable pub murmur_end : ℕ → ℕ
murmur_end h0 = let h1 = xor h0 (shr h0 13) in let h2 = mul h1 murmur_m in xor h2 (shr h2 15)

-- The words of four bytes, read on a little-endian machine, and behind them the bytes that are left.
unfoldable pub murmur_from : ℕ → List ℕ → ℕ
murmur_from h [] = murmur_end h
murmur_from h (b0 ∷ []) = murmur_end (mul (xor h b0) murmur_m)
murmur_from h (b0 ∷ b1 ∷ []) = murmur_end (mul (xor (xor h (b1 * 2 ^ 8)) b0) murmur_m)
murmur_from h (b0 ∷ b1 ∷ b2 ∷ []) =
    murmur_end (mul (xor (xor (xor h (b2 * 2 ^ 16)) (b1 * 2 ^ 8)) b0) murmur_m)
murmur_from h (b0 ∷ b1 ∷ b2 ∷ b3 ∷ key) =
    let k1 = mul (b0 + b1 * 2 ^ 8 + b2 * 2 ^ 16 + b3 * 2 ^ 24) murmur_m in
    let k2 = mul (xor k1 (shr k1 24)) murmur_m in murmur_from (xor (mul h murmur_m) k2) key

unfoldable pub hash_murmur : List ℕ → ℕ
hash_murmur key = let n = length key % 2 ^ 32 in murmur_from (xor (mul 0xdeadbeef n) n) key
