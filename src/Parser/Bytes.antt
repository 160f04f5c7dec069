-- ===== src/Parser/Bytes.antt =====
-- The bytes that the parsers of both protocols look at.
use wx_cache_proxy.Base.{
  ◌==◌, true, false, [], ◌∷◌, if◌then◌else◌, ℕ, ◌+◌, ◌-◌, ◌*◌, ◌%◌, ◌^◌, Bool, ◌&&◌, List, leb,
  take, drop, get_or,
}
use wx_cache_proxy.Parser.Kind.{MsgType}

abbrev pub cr : ℕ
cr = 13

abbrev pub lf : ℕ
lf = 10

unfoldable pub isdigit : ℕ → Bool
isdigit ch = leb b'0' ch && leb ch b'9'

-- `n * 10 + (uint32_t)(ch - '0')` in 32 bits.
abbrev pub shift_digit : ℕ → ℕ → ℕ
shift_digit n ch = (n * 10 + (ch - b'0')) % 2 ^ 32

-- The bytes of a buffer from `m` up to `p`.
abbrev pub slice : List ℕ → ℕ → ℕ → List ℕ
slice buf m p = take (p - m) (drop m buf)

abbrev pub byte_at : List ℕ → ℕ → ℕ
byte_at buf p = get_or buf p 0

unfoldable pub same_bytes : List ℕ → List ℕ → Bool
same_bytes [] [] = true
same_bytes (b ∷ m) (c ∷ cs) = b == c && same_bytes m cs
same_bytes _ _ = false

-- The type whose name is `m`, and `kind` if none of the comparisons holds.
unfoldable pub find_kind : List (List ℕ × MsgType) → List ℕ → MsgType → MsgType
find_kind [] m kind = kind
find_kind ((name, found) ∷ rows) m kind =
    let later = find_kind rows m kind in if same_bytes m name then found else later
