-- ===== src/Buffer/Message.antt =====
-- nc_message.c: the operations that build and cut the buffer queue of a message.
use mathlib.Core.Option
use wx_cache_proxy.Base.{
  ℕ, ◌+◌, ◌-◌, ◌%◌, ◌^◌, Bool, List, [], ◌∷◌, ◌++◌, Option, none, some, ltb, leb, ◌==◌, ◌||◌,
  if◌then◌else◌, length, Status, nc_ok, nc_error, nc_enomem,
}
use wx_cache_proxy.Buffer.Mbuf.{
  Mbuf, last, mbuf_get, mbuf_size, mbuf_length, mbuf_full, mbuf_copy, mbuf_split, mbuf_insert,
  split_last,
}

-- The fields of `struct msg` that these operations use. `pos` is the parser's position, an offset
-- into the last buffer.
pub record Message : Type 0 where
  pub mhdr : List Mbuf
  pub mlen : ℕ
  pub pos : ℕ

abbrev pub no_message : Message
no_message = record { mhdr = []; mlen = 0; pos = 0 }

unfoldable pub msg_empty : Message → Bool
msg_empty msg = msg.mlen == 0

-- The outcome of `msg_parsed`: the message handed on alone, or with the next one, or no memory.
pub data Parsed : Type 0 where
  whole : Message → Parsed
  divided : Message → Message → Parsed
  no_memory : Parsed

-- What `conn_recv` returns: some bytes, `NC_EAGAIN`, or an error.
pub data Arrival : Type 0 where
  arrived : List ℕ → Arrival
  again failed : Arrival

-- `mbuf_copy` into the last buffer, and the new length.
unfoldable pub copy_last : Message → List Mbuf → List ℕ → Message
copy_last msg h source = elim (split_last h) [
  | none ↦ msg
  | some (front, m) ↦ record msg {
    mhdr = front ++ mbuf_copy m source ∷ [];
    mlen = (msg.mlen + length source) % 2 ^ 32;
  }
]

module _ (mbuf_offset : ℕ) where
  -- The queue whose last buffer is the one that the function returns.
  unfoldable pub msg_ensure_mbuf : List Mbuf → ℕ → Bool → Option (List Mbuf)
  msg_ensure_mbuf h len memory =
      let with_new = Option.map (mbuf_insert h) (mbuf_get memory) in
      elim (split_last h) [
        | none ↦ with_new
        | some (front, m) ↦ if ltb (mbuf_size mbuf_offset m) len then with_new else some h
      ]

  unfoldable pub msg_append : Message → List ℕ → Bool → Status × Message
  msg_append msg source memory = elim (msg_ensure_mbuf msg.mhdr (length source) memory) [
    | none ↦ (nc_enomem, msg)
    | some h ↦ (nc_ok, copy_last msg h source)
  ]

unfoldable pub msg_prepend : Message → List ℕ → Bool → Status × Message
msg_prepend msg source memory = elim (mbuf_get memory) [
  | none ↦ (nc_enomem, msg)
  | some m ↦ (
    nc_ok,
    record msg { mhdr = mbuf_copy m source ∷ msg.mhdr; mlen = (msg.mlen + length source) % 2 ^ 32 },
  )
]

-- `text` is what `nc_vsnprintf` would print into a buffer of any size.
unfoldable pub msg_prepend_format : ℕ → Message → List ℕ → Bool → Status × Message
msg_prepend_format mbuf_offset msg text memory = elim (mbuf_get memory) [
  | none ↦ (nc_enomem, msg)
  | some m ↦
      if length text == 0 || leb (mbuf_size mbuf_offset m) (length text) then (nc_error, msg) else (
        nc_ok,
        record msg {
          mhdr = record m { bytes = text } ∷ msg.mhdr;
          mlen = (msg.mlen + length text) % 2 ^ 32;
        },
      )
]

-- `buffers` and `messages` say whether `mbuf_get` and `msg_get` find memory.
unfoldable pub msg_parsed : Message → Bool → Bool → Parsed
msg_parsed msg buffers messages = elim (split_last msg.mhdr) [
  | none ↦ whole msg
  | some (front, m) ↦
      if msg.pos == last m then whole msg else elim (mbuf_split msg.mhdr msg.pos (λ n. n) buffers) [
        | none ↦ no_memory
        | some (h, n) ↦
            if messages
            then divided
                (record msg { mhdr = h; mlen = (msg.mlen + 2 ^ 32 - mbuf_length n) % 2 ^ 32 })
                (record { mhdr = mbuf_insert [] n; mlen = mbuf_length n; pos = n.pos })
            else no_memory
      ]
]

unfoldable pub msg_repair : Message → Bool → Status × Message
msg_repair msg memory = elim (mbuf_split msg.mhdr msg.pos (λ n. n) memory) [
  | none ↦ (nc_enomem, msg)
  | some (h, n) ↦ (nc_ok, record msg { mhdr = mbuf_insert h n; pos = n.pos })
]

-- `msg_recv_chain` up to the parsing loop: the buffer to read into, and what is read. The bytes that
-- arrive are at most `msize`, the room of that buffer, which the second function gives.
unfoldable pub recv_buffer : ℕ → Message → Bool → Option Message
recv_buffer mbuf_offset msg memory =
    let with_new =
      Option.map (λ n. record msg { mhdr = mbuf_insert msg.mhdr n; pos = n.pos })
        (mbuf_get memory) in
    elim (split_last msg.mhdr) [
      | none ↦ with_new
      | some (front, m) ↦ if mbuf_full mbuf_offset m then with_new else some msg
    ]

unfoldable pub recv_bytes : Message → Arrival → Status × Message
recv_bytes msg again = (nc_ok, msg)
recv_bytes msg failed = (nc_error, msg)
recv_bytes msg (arrived bytes) = elim (split_last msg.mhdr) [
  | none ↦ (nc_error, msg)
  | some (front, m) ↦ (
    nc_ok,
    record msg {
      mhdr = front ++ record m { bytes = m.bytes ++ bytes } ∷ [];
      mlen = (msg.mlen + length bytes) % 2 ^ 32;
    },
  )
]
