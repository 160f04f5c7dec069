-- ===== src/Hash/Crc.antt =====
-- hashkit/nc_crc32.c: the table-driven loop and the division by the polynomial, bit by bit.
use Prim.Native.Nat.{bit_xor}
use native.Mathlib.Nat.{pow-suc, mul_assoc}
use wx_cache_proxy.Base.{
  ℕ, zero, suc, ◌+◌, ◌-◌, ◌*◌, ◌/◌, ◌%◌, ◌^◌, ◌<◌, ◌≡◌, refl, sym, ap, ◌∙◌, List, [], ◌∷◌, ◌==◌,
  if◌then◌else◌, get_or, All, arith, Bool-cases, inl, inr,
}
use wx_cache_proxy.Hash.Tables.{crc32tab}
use wx_cache_proxy.Hash.Simple.{crc32_from, hash_crc32a, hash_crc32}
use wx_cache_proxy.Hash.Xor.{xor-half, xor-odd, xor_comm, xor_swap, xor-add, xor_bounds}

-- The polynomial of CRC-32, its lowest coefficient in the highest bit.
abbrev pub polynomial : ℕ
polynomial = 0xedb88320

-- One bit is shifted out, and the polynomial taken off if it was set.
unfoldable pub crc_bit : ℕ → ℕ
crc_bit y = if y % 2 == 1 then bit_xor (y / 2) polynomial else y / 2

unfoldable pub crc_bits : ℕ → ℕ → ℕ
crc_bits zero y = y
crc_bits (suc k) y = crc_bits k (crc_bit y)

-- The remainder of a text, each byte of it eight bits.
unfoldable pub remainder : ℕ → List ℕ → ℕ
remainder crc [] = crc
remainder crc (ch ∷ key) = remainder (crc_bits 8 (bit_xor crc ch)) key

-- A bit that is higher than the lowest one is only shifted.
crc_bit-xor : (y z : ℕ) → crc_bit (bit_xor y (z * 2)) ≡ bit_xor (crc_bit y) z
unfolding crc_bit
crc_bit-xor y z =
    let half : bit_xor y (z * 2) / 2 ≡ bit_xor (y / 2) z =
      xor-half y (z * 2) ∙ ap (bit_xor (y / 2)) (omega arith) in
    let odd : bit_xor y (z * 2) % 2 ≡ y % 2 = omega (arith, xor-odd y (z * 2)) in
    elim (Bool-cases (y % 2 == 1)) [
      | inl e ↦ rw (crc_bit, odd, half, e) (xor_swap (y / 2) z polynomial)
      | inr e ↦ rw (crc_bit, odd, half, e) refl
    ]

crc_bits-xor : (k y z : ℕ) → crc_bits k (bit_xor y (z * 2 ^ k)) ≡ bit_xor (crc_bits k y) z
unfolding crc_bits
crc_bits-xor zero y z = let e : z * 2 ^ zero ≡ z = omega arith in ap (bit_xor y) e
crc_bits-xor (suc k) y z =
    let double : z * 2 ^ suc k ≡ z * 2 ^ k * 2 =
      ap (λ x. z * x) (pow-suc 2 k) ∙ sym (mul_assoc z (2 ^ k) 2) in
    ap (λ x. crc_bits k (crc_bit (bit_xor y x))) double
    ∙ ap (crc_bits k) (crc_bit-xor y (z * 2 ^ k))
    ∙ crc_bits-xor k (crc_bit y) z

-- A byte meets the low byte only.
module _ (crc ch : ℕ) (small : ch < 256) where
  abbrev low : ℕ
  low = bit_xor (crc % 2 ^ 8) ch

  xor-low : bit_xor crc ch ≡ bit_xor low (crc / 2 ^ 8 * 2 ^ 8)
  xor-low =
      let split : crc ≡ bit_xor (crc % 2 ^ 8) (crc / 2 ^ 8 * 2 ^ 8) =
        omega (arith, xor-add 8 (crc % 2 ^ 8) (crc / 2 ^ 8) (omega arith)) in
      ap (λ x. bit_xor x ch) split ∙ xor_swap (crc % 2 ^ 8) (crc / 2 ^ 8 * 2 ^ 8) ch

  low-lt : low < 256
  low-lt = xor_bounds 8 (crc % 2 ^ 8) ch (omega arith) small

  low_index : bit_xor crc ch % 2 ^ 8 ≡ low
  low_index = omega (arith, xor-low, xor-add 8 low (crc / 2 ^ 8) low-lt, low-lt)

  crc_bits-byte : crc_bits 8 (bit_xor crc ch) ≡ bit_xor (crc_bits 8 low) (crc / 2 ^ 8)
  crc_bits-byte = ap (crc_bits 8) xor-low ∙ crc_bits-xor 8 low (crc / 2 ^ 8)

-- The remainders of `n` bytes from `x` on.
abbrev remainders : ℕ → ℕ → List ℕ
remainders zero x = []
remainders (suc n) x = crc_bits 8 x ∷ remainders n (suc x)

table_checked : crc32tab ≡ remainders 256 0
unfolding crc32tab crc_bits crc_bit
table_checked = refl

get_or-remainders : (n x i : ℕ) → i < n → get_or (remainders n x) i 0 ≡ crc_bits 8 (x + i)
get_or-remainders zero x i l = absurd (omega arith)
get_or-remainders (suc n) x zero l = let e : x ≡ x + 0 = omega arith in ap (crc_bits 8) e
get_or-remainders (suc n) x (suc i) l =
    let e : suc x + i ≡ x + suc i = omega arith in
    get_or-remainders n (suc x) i (omega arith) ∙ ap (crc_bits 8) e

table_lem : (x : ℕ) → x < 256 → get_or crc32tab x 0 ≡ crc_bits 8 x
table_lem x l =
    let e : 0 + x ≡ x = omega arith in
    ap (λ t. get_or t x 0) table_checked ∙ get_or-remainders 256 0 x l ∙ ap (crc_bits 8) e

crc32_from-remainder :
    (crc : ℕ) (key : List ℕ) → All (λ ch. ch < 256) key → crc32_from crc key ≡ remainder crc key
unfolding crc32_from remainder
crc32_from-remainder crc [] bytes = refl
crc32_from-remainder crc (ch ∷ key) bytes =
    let byte : bit_xor (crc / 2 ^ 8) (get_or crc32tab (bit_xor crc ch % 2 ^ 8) 0)
        ≡ crc_bits 8 (bit_xor crc ch) =
      ap (λ x. bit_xor (crc / 2 ^ 8) (get_or crc32tab x 0)) (low_index crc ch bytes.0)
      ∙ ap (bit_xor (crc / 2 ^ 8)) (table_lem (low crc ch bytes.0) (low-lt crc ch bytes.0))
      ∙ xor_comm (crc / 2 ^ 8) (crc_bits 8 (low crc ch bytes.0))
      ∙ sym (crc_bits-byte crc ch bytes.0) in
    ap (λ x. crc32_from x key) byte ∙ crc32_from-remainder (crc_bits 8 (bit_xor crc ch)) key bytes.1

-- `hash_crc32a` is CRC-32: the table-driven loop gives the remainder by the polynomial 0xedb88320,
-- taken off bit by bit, from and with all bits inverted; and `hash_crc32` is made of the same
-- remainder, its complement shifted by 16 bits and cut down to 15. The key consists of bytes.
pub hash_crc32a-remainder :
    (key : List ℕ)
    → All (λ ch. ch < 256) key
    → (hash_crc32a key ≡ bit_xor (remainder (2 ^ 32 - 1) key) (2 ^ 32 - 1))
      × (hash_crc32 key ≡ (2 ^ 32 - 1 - remainder (2 ^ 32 - 1) key) / 2 ^ 16 % 2 ^ 15)
unfolding hash_crc32a hash_crc32
hash_crc32a-remainder key bytes =
    let e = crc32_from-remainder (2 ^ 32 - 1) key bytes in
    (ap (λ x. bit_xor x (2 ^ 32 - 1)) e, ap (λ x. (2 ^ 32 - 1 - x) / 2 ^ 16 % 2 ^ 15) e)
