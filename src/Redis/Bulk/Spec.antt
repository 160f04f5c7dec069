-- ===== src/Redis/Bulk/Spec.antt =====
-- What a bulk is in the Redis protocol, and how nc_redis.c finds its length.
use wx_cache_proxy.Parser.Bytes.{byte_at, isdigit, shift_digit}
use wx_cache_proxy.Base.{
  ℕ, ◌+◌, ◌-◌, ◌*◌, ◌%◌, ◌^◌, ◌≤◌, ◌<◌, ◌≡◌, refl, ap, ◌∙◌, true, false, List, [], ◌∷◌, ◌++◌, ◌==◌,
  length, length-append, All, arith,
}
use mathlib.Core.List.{append_assoc}
use wx_cache_proxy.Redis.Bulk.{read_digits, after_dollar, bulk_length}

-- A bulk: the null bulk, or the digits of a length and so many bytes.
pub data Bulk : Type 0 where
  null_bulk : Bulk
  bulk : List ℕ → List ℕ → Bulk

-- "$-1" or "$<digits>\r", by which the length is found.
abbrev pub head_of : Bulk → List ℕ
head_of null_bulk = b'$' ∷ b'-' ∷ b'1' ∷ []
head_of (bulk digits payload) = b'$' ∷ (digits ++ 13 ∷ [])

abbrev pub tail_of : Bulk → List ℕ
tail_of null_bulk = 13 ∷ 10 ∷ []
tail_of (bulk digits payload) = 10 ∷ (payload ++ 13 ∷ 10 ∷ [])

-- "$-1\r\n" or "$<digits>\r\n<payload>\r\n".
abbrev pub text : Bulk → List ℕ
text b = head_of b ++ tail_of b

-- The number that digits denote, with `n` in front.
abbrev pub value : ℕ → List ℕ → ℕ
value n [] = n
value n (ch ∷ chs) = value (n * 10 + (ch - b'0')) chs

-- The digits denote the length of the bytes, and the whole is shorter than 2^32.
abbrev pub IsBulk : Bulk → Type 0
IsBulk null_bulk = Unit
IsBulk (bulk digits payload) =
    All (λ ch. isdigit ch ≡ true) digits
    × (value 0 digits ≡ length payload)
    × (length (text (bulk digits payload)) < 2 ^ 32)

pub value_grows : (n : ℕ) (chs : List ℕ) → n ≤ value n chs
value_grows n [] = omega arith
value_grows n (ch ∷ chs) = omega (arith, value_grows (n * 10 + (ch - b'0')) chs)

read_digits-value :
    (n : ℕ) (chs rest : List ℕ)
    → All (λ ch. isdigit ch ≡ true) chs
    → value n chs < 2 ^ 32
    → read_digits n (chs ++ 13 ∷ rest) ≡ (value n chs, length chs)
unfolding read_digits isdigit
read_digits-value n [] rest d h = refl
read_digits-value n (ch ∷ chs) rest d h =
    let small : shift_digit n ch ≡ n * 10 + (ch - b'0') =
      omega (arith, value_grows (n * 10 + (ch - b'0')) chs) in
    rw (d.0, small, read_digits-value (n * 10 + (ch - b'0')) chs rest d.1 h) refl

length-text :
    (digits payload : List ℕ)
    → length (text (bulk digits payload)) ≡ length payload + 4 + (1 + length digits)
length-text digits payload = omega (
  arith,
  length-append (digits ++ 13 ∷ []) (10 ∷ (payload ++ 13 ∷ 10 ∷ [])),
  length-append digits (13 ∷ []),
  length-append payload (13 ∷ 10 ∷ []),
)

-- A length does not start with a minus.
no_minus :
    (digits rest : List ℕ)
    → All (λ ch. isdigit ch ≡ true) digits
    → (byte_at (b'$' ∷ ((digits ++ 13 ∷ []) ++ rest)) 1 == b'-') ≡ false
unfolding isdigit
no_minus [] rest h = refl
no_minus (ch ∷ chs) rest h = let d = h.0 in ground arith

bulk_length-digits :
    (first : List ℕ) (len n : ℕ)
    → (byte_at first 1 == b'-') ≡ false
    → read_digits 0 (after_dollar first) ≡ (len, n)
    → bulk_length first ≡ (len + 4 + (1 + n)) % 2 ^ 32
unfolding bulk_length
bulk_length-digits first len n e d = rw (bulk_length, e, d) refl

pub bulk_length-text :
    (b : Bulk) (rest : List ℕ) → IsBulk b → bulk_length (head_of b ++ rest) ≡ length (text b)
unfolding bulk_length
bulk_length-text null_bulk rest h = refl
bulk_length-text (bulk digits payload) rest h =
    let small : value 0 digits < 2 ^ 32 = omega (arith, h.1, h.2, length-text digits payload) in
    let found : read_digits 0 ((digits ++ 13 ∷ []) ++ rest) ≡ (value 0 digits, length digits) =
      ap (read_digits 0) (append_assoc digits (13 ∷ []) rest)
      ∙ read_digits-value 0 digits rest h.0 small in
    bulk_length-digits (b'$' ∷ ((digits ++ 13 ∷ []) ++ rest)) (value 0 digits) (length digits)
      (no_minus digits rest h.0) found
    ∙ omega (arith, h.1, h.2, length-text digits payload)
