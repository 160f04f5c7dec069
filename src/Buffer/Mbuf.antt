-- ===== src/Buffer/Mbuf.antt =====
-- nc_mbuf.[ch]: one buffer, and the queue of a message's buffers.
use wx_cache_proxy.Base.{
  ℕ, ◌-◌, ◌%◌, ◌^◌, Bool, List, [], ◌∷◌, ◌++◌, Option, none, some, ◌==◌, if◌then◌else◌, length,
  take, drop,
}

-- `struct mbuf`. Pointers are offsets from `start`: `bytes` are those from `start` up to `last`,
-- and `pos` is the read marker. Every buffer has room for `mbuf_offset` bytes.
pub record Mbuf : Type 0 where
  pub bytes : List ℕ
  pub pos : ℕ

abbrev pub last : Mbuf → ℕ
last m = length m.bytes

-- `mbuf_get`, where memory is available, and `mbuf_rewind`.
abbrev pub fresh : Mbuf
fresh = record { bytes = []; pos = 0 }

unfoldable pub mbuf_get : Bool → Option Mbuf
mbuf_get memory = if memory then some fresh else none

unfoldable pub mbuf_rewind : Mbuf → Mbuf
mbuf_rewind m = fresh

unfoldable pub mbuf_empty : Mbuf → Bool
mbuf_empty m = m.pos == last m

-- `(uint32_t) (last - pos)`
unfoldable pub mbuf_length : Mbuf → ℕ
mbuf_length m = (last m - m.pos) % 2 ^ 32

-- Nothing is written for n = 0. The assertions ask for room; `IsValid` is kept where there is.
unfoldable pub mbuf_copy : Mbuf → List ℕ → Mbuf
mbuf_copy m source = if length source == 0 then m else record m { bytes = m.bytes ++ source }

module _ (mbuf_offset : ℕ) where
  unfoldable pub mbuf_full : Mbuf → Bool
  mbuf_full m = last m == mbuf_offset

  unfoldable pub mbuf_size : Mbuf → ℕ
  mbuf_size m = (mbuf_offset - last m) % 2 ^ 32

-- `STAILQ_LAST`, with the buffers before it; `STAILQ_INSERT_TAIL` is `mbuf_insert`.
unfoldable pub split_last : List Mbuf → Option (List Mbuf × Mbuf)
split_last [] = none
split_last (m ∷ h) = elim (split_last h) [
  | none ↦ some ([], m)
  | some (front, l) ↦ some (m ∷ front, l)
]

unfoldable pub mbuf_insert : List Mbuf → Mbuf → List Mbuf
mbuf_insert h m = h ++ m ∷ []

-- The split of the last buffer at `pos`: the queue with that buffer cut short, and the new buffer.
-- `precopy` is what the callback does to the new buffer.
unfoldable pub mbuf_split : List Mbuf → ℕ → (Mbuf → Mbuf) → Bool → Option (List Mbuf × Mbuf)
mbuf_split h pos precopy memory = elim (split_last h) [
  | none ↦ none
  | some (front, m) ↦ elim (mbuf_get memory) [
    | none ↦ none
    | some n ↦ some (
      front ++ record m { bytes = take pos m.bytes } ∷ [],
      mbuf_copy (precopy n) (drop pos m.bytes),
    )
  ]
]
