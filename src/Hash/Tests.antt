-- ===== src/Hash/Tests.antt =====
-- hashkit: the hash functions on short texts, and the theorems at one key.
use Prim.Native.Nat.{bit_xor}
use wx_cache_proxy.Base.{ℕ, ◌-◌, ◌/◌, ◌%◌, ◌^◌, ◌≡◌, refl, true, List, [], ◌∷◌, ◌++◌, arith}
use wx_cache_proxy.Hash.Words.{rot, char_at}
use wx_cache_proxy.Hash.Tables.{crc16tab, crc32tab}
use wx_cache_proxy.Hash.Simple.{
  crc16_from, hash_crc16, crc32_from, hash_crc32, hash_crc32a, fnv1a_from, hash_fnv1a_32,
  one_at_a_time_from, hash_one_at_a_time, murmur_from, murmur_end, hash_murmur,
}
use wx_cache_proxy.Hash.Jenkins.{
  mix, final, block32, tail32, last_block, blocks, reader_at, jenkins_start, hash_jenkins,
}
use wx_cache_proxy.Hash.Jenkins.Whole.{hash_jenkins-bytes}
use wx_cache_proxy.Hash.Crc.{remainder, hash_crc32a-remainder}

abbrev nine_digits : List ℕ
nine_digits = b'1' ∷ b'2' ∷ b'3' ∷ b'4' ∷ b'5' ∷ b'6' ∷ b'7' ∷ b'8' ∷ b'9' ∷ []

abbrev sixteen_letters : List ℕ
sixteen_letters =
    b'a' ∷ b'b' ∷ b'c' ∷ b'd' ∷ b'e' ∷ b'f' ∷ b'g' ∷ b'h' ∷ b'i' ∷ b'j' ∷ b'k' ∷ b'l' ∷ b'm' ∷ b'n'
    ∷ b'o' ∷ b'p' ∷ []

-- What stands behind the key.
abbrev noise : List ℕ
noise = 255 ∷ 7 ∷ 13 ∷ []

crc32a_checked : hash_crc32a nine_digits ≡ 0xcbf43926
unfolding hash_crc32a crc32_from crc32tab
crc32a_checked = refl

crc16_checked : hash_crc16 nine_digits % 2 ^ 16 ≡ 0x31c3
unfolding hash_crc16 crc16_from crc16tab
crc16_checked = refl

fnv1a_checked : hash_fnv1a_32 true nine_digits ≡ 3146166556
unfolding hash_fnv1a_32 fnv1a_from char_at
fnv1a_checked = refl

one_at_a_time_checked : hash_one_at_a_time true nine_digits ≡ 3328923845
unfolding hash_one_at_a_time one_at_a_time_from char_at
one_at_a_time_checked = refl

murmur_checked : hash_murmur nine_digits ≡ 3077965456
unfolding hash_murmur murmur_from murmur_end
murmur_checked = refl

jenkins_checked : hash_jenkins 8 (sixteen_letters ++ noise) 16 ≡ 3358681140
unfolding hash_jenkins blocks last_block reader_at jenkins_start mix final rot block32 tail32
jenkins_checked = refl

hash_jenkins-bytes_example :
    hash_jenkins 8 (sixteen_letters ++ noise) 16 ≡ hash_jenkins 1 sixteen_letters 16
hash_jenkins-bytes_example = hash_jenkins-bytes 8 sixteen_letters noise (omega arith)

hash_crc32a-remainder_example :
    (hash_crc32a nine_digits ≡ bit_xor (remainder (2 ^ 32 - 1) nine_digits) (2 ^ 32 - 1))
    × (hash_crc32 nine_digits ≡ (2 ^ 32 - 1 - remainder (2 ^ 32 - 1) nine_digits) / 2 ^ 16 % 2 ^ 15)
hash_crc32a-remainder_example = hash_crc32a-remainder nine_digits (omega arith)
