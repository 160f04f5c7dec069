-- ===== src/Hash/Words.antt =====
-- The arithmetic of `uint32_t`.
use Prim.Native.Nat.{bit_xor, bit_or}
use wx_cache_proxy.Base.{ℕ, ◌+◌, ◌-◌, ◌*◌, ◌/◌, ◌%◌, ◌^◌, Bool, ◌&&◌, leb, if◌then◌else◌}

abbrev pub xor : ℕ → ℕ → ℕ
xor a b = bit_xor a b

abbrev pub add : ℕ → ℕ → ℕ
add a b = (a + b) % 2 ^ 32

abbrev pub sub : ℕ → ℕ → ℕ
sub a b = (a + 2 ^ 32 - b) % 2 ^ 32

abbrev pub mul : ℕ → ℕ → ℕ
mul a b = (a * b) % 2 ^ 32

abbrev pub shl : ℕ → ℕ → ℕ
shl a k = (a * 2 ^ k) % 2 ^ 32

abbrev pub shr : ℕ → ℕ → ℕ
shr a k = a / 2 ^ k

-- `~a`
abbrev pub complement : ℕ → ℕ
complement a = 2 ^ 32 - 1 - a

-- The `rot` of nc_jenkins.c.
unfoldable pub rot : ℕ → ℕ → ℕ
rot x k = bit_or (shl x k) (shr x (32 - k))

-- A byte read as a `char`, at a width of the word: with its sign, where the platform's `char` has one.
unfoldable pub char_at : Bool → ℕ → ℕ → ℕ
char_at signed width ch = if signed && leb 128 ch then 2 ^ width - 256 + ch else ch
