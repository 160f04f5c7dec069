-- ===== src/Hash/Xor.antt =====
-- Laws of the exclusive or of numbers, digit by digit.
use Prim.Native.Nat.{bit_xor, digits, differ, bit_xor-bitwise}
use native.Mathlib.Nat.{pow-suc, mul_assoc}
use wx_cache_proxy.Base.{
  ℕ, zero, suc, ◌+◌, ◌-◌, ◌*◌, ◌/◌, ◌%◌, ◌^◌, ◌≤◌, ◌<◌, ◌≡◌, refl, sym, ap, ap₂, ◌∙◌, arith,
}

-- What the exclusive or computes to, with the number of places to go.
abbrev with_places : ℕ → ℕ → ℕ → ℕ
with_places places a b = digits (λ y. y) differ places a b

-- A number of places that is enough may grow.
with_places-suc :
    (places a b : ℕ) → a ≤ places → with_places (suc places) a b ≡ with_places places a b
with_places-suc zero zero b enough = refl
with_places-suc (suc places) zero b enough = refl
with_places-suc zero (suc a) b enough = absurd (omega arith)
with_places-suc (suc places) (suc a) b enough =
    ap (λ high. high * 2 + differ (suc a % 2) (b % 2))
      (with_places-suc places (suc a / 2) (b / 2) (omega arith))

abbrev raise : ℕ → ℕ → ℕ
raise zero places = places
raise (suc k) places = suc (raise k places)

raise-eq-add : (k places : ℕ) → raise k places ≡ k + places
raise-eq-add zero places = omega arith
raise-eq-add (suc k) places = omega (arith, raise-eq-add k places)

with_places-raise :
    (k places a b : ℕ) → a ≤ places → with_places (raise k places) a b ≡ with_places places a b
with_places-raise zero places a b enough = refl
with_places-raise (suc k) places a b enough =
    with_places-suc (raise k places) a b (omega (arith, raise-eq-add k places))
    ∙ with_places-raise k places a b enough

pub zero-xor : (b : ℕ) → bit_xor 0 b ≡ b
zero-xor b = bit_xor-bitwise 0 b

differ_sum : (a b : ℕ) → a < 2 → b < 2 → differ a b ≡ (a + b) % 2
differ_sum zero b p q = omega arith
differ_sum (suc zero) zero p q = refl
differ_sum (suc zero) (suc zero) p q = refl
differ_sum (suc zero) (suc (suc b)) p q = absurd (omega arith)
differ_sum (suc (suc a)) b p q = absurd (omega arith)

-- The lowest place apart.
xor_step : (a b : ℕ) → bit_xor a b ≡ bit_xor (a / 2) (b / 2) * 2 + (a % 2 + b % 2) % 2
xor_step zero b = omega (arith, zero-xor b, zero-xor (b / 2))
xor_step (suc a) b =
    let half = suc a / 2 in
    let spare : a ≡ raise (a - half) half = omega (arith, raise-eq-add (a - half) half) in
    let high : with_places a half (b / 2) ≡ bit_xor half (b / 2) =
      ap (λ places. with_places places half (b / 2)) spare
      ∙ with_places-raise (a - half) half half (b / 2) (omega arith)
      ∙ sym (bit_xor-bitwise half (b / 2)) in
    bit_xor-bitwise (suc a) b
    ∙ ap₂ (λ x d. x * 2 + d) high (differ_sum (suc a % 2) (b % 2) (omega arith) (omega arith))

pub xor-half : (a b : ℕ) → bit_xor a b / 2 ≡ bit_xor (a / 2) (b / 2)
xor-half a b = omega (arith, xor_step a b)

pub xor-odd : (a b : ℕ) → bit_xor a b % 2 ≡ (a % 2 + b % 2) % 2
xor-odd a b = omega (arith, xor_step a b)

xor_comm_fuel : (n a b : ℕ) → a ≤ n → b ≤ n → bit_xor a b ≡ bit_xor b a
xor_comm_fuel zero zero zero p q = refl
xor_comm_fuel zero zero (suc b) p q = absurd (omega arith)
xor_comm_fuel zero (suc a) b p q = absurd (omega arith)
xor_comm_fuel (suc n) a b p q =
    omega (
      arith,
      xor_step a b,
      xor_step b a,
      xor_comm_fuel n (a / 2) (b / 2) (omega arith) (omega arith),
    )

pub xor_comm : (a b : ℕ) → bit_xor a b ≡ bit_xor b a
xor_comm a b = xor_comm_fuel (a + b) a b (omega arith) (omega arith)

xor_assoc_fuel :
    (n a b c : ℕ) → a ≤ n → b ≤ n → c ≤ n → bit_xor (bit_xor a b) c ≡ bit_xor a (bit_xor b c)
xor_assoc_fuel zero zero b c p q r =
    ap (λ x. bit_xor x c) (zero-xor b) ∙ sym (zero-xor (bit_xor b c))
xor_assoc_fuel zero (suc a) b c p q r = absurd (omega arith)
xor_assoc_fuel (suc n) a b c p q r =
    let left = xor_step (bit_xor a b) c in
    let right = xor_step a (bit_xor b c) in
    let halves : bit_xor (bit_xor a b / 2) (c / 2) ≡ bit_xor (a / 2) (bit_xor b c / 2) =
      ap (λ x. bit_xor x (c / 2)) (xor-half a b)
      ∙ xor_assoc_fuel n (a / 2) (b / 2) (c / 2) (omega arith) (omega arith) (omega arith)
      ∙ ap (bit_xor (a / 2)) (sym (xor-half b c)) in
    omega (arith, left, right, halves, xor-odd a b, xor-odd b c)

pub xor_assoc : (a b c : ℕ) → bit_xor (bit_xor a b) c ≡ bit_xor a (bit_xor b c)
xor_assoc a b c = xor_assoc_fuel (a + b + c) a b c (omega arith) (omega arith) (omega arith)

pub xor-zero : (a : ℕ) → bit_xor a 0 ≡ a
xor-zero a = xor_comm a 0 ∙ zero-xor a

-- The last two change places.
pub xor_swap : (a b c : ℕ) → bit_xor (bit_xor a b) c ≡ bit_xor (bit_xor a c) b
xor_swap a b c = xor_assoc a b c ∙ ap (bit_xor a) (xor_comm b c) ∙ sym (xor_assoc a c b)

-- Digits in different places are added.
pub xor-add : (k a b : ℕ) → a < 2 ^ k → bit_xor a (b * 2 ^ k) ≡ a + b * 2 ^ k
xor-add zero a b l =
    let e : a ≡ 0 = omega arith in
    omega (arith, ap (λ x. bit_xor x (b * 2 ^ zero)) e, zero-xor (b * 2 ^ zero))
xor-add (suc k) a b l =
    let power = pow-suc 2 k in
    let double : b * 2 ^ suc k ≡ b * 2 ^ k * 2 =
      ap (λ x. b * x) power ∙ sym (mul_assoc b (2 ^ k) 2) in
    let half : b * 2 ^ k * 2 / 2 ≡ b * 2 ^ k = omega arith in
    let small : a / 2 < 2 ^ k = omega (arith, power) in
    omega (
      arith,
      double,
      ap (bit_xor a) double,
      xor_step a (b * 2 ^ k * 2),
      ap (bit_xor (a / 2)) half,
      xor-add k (a / 2) b small,
    )

pub xor_bounds : (k a b : ℕ) → a < 2 ^ k → b < 2 ^ k → bit_xor a b < 2 ^ k
xor_bounds zero a b p q =
    let e : a ≡ 0 = omega arith in omega (arith, ap (λ x. bit_xor x b) e, zero-xor b)
xor_bounds (suc k) a b p q =
    let power = pow-suc 2 k in
    omega (
      arith,
      power,
      xor_step a b,
      xor_bounds k (a / 2) (b / 2) (omega (arith, power)) (omega (arith, power)),
    )
