-- ===== src/Redis/Bulk.antt =====
-- nc_redis.c: `redis_copy_bulk`.
pub mod Spec
pub mod Copy
pub mod Moves
use wx_cache_proxy.Parser.Bytes.{byte_at, isdigit, shift_digit}
use wx_cache_proxy.Base.{
  ℕ, zero, suc, ◌+◌, ◌-◌, ◌*◌, ◌%◌, ◌^◌, Bool, true, false, ◌&&◌, List, [], ◌∷◌, ◌++◌, Option, none,
  some, ltb, leb, ◌==◌, if◌then◌else◌, length, take, Status, nc_ok, nc_error, nc_enomem,
}
use wx_cache_proxy.Buffer.Mbuf.{Mbuf, mbuf_length, mbuf_empty, mbuf_insert}
use wx_cache_proxy.Buffer.Content.{unread}
use wx_cache_proxy.Buffer.Message.{Message, msg_append}

-- The empty buffers in front go back to the pool.
unfoldable pub skip_empty : List Mbuf → List Mbuf
skip_empty [] = []
skip_empty (m ∷ h) = let rest = skip_empty h in if mbuf_empty m then rest else m ∷ h

-- The loop over the digits of a length: the length, and how many digits it has.
unfoldable pub read_digits : ℕ → List ℕ → ℕ × ℕ
read_digits len [] = (len, 0)
read_digits len (ch ∷ chs) =
    let rest = read_digits (shift_digit len ch) chs in
    if isdigit ch then (rest.0, suc rest.1) else (len, 0)

abbrev pub after_dollar : List ℕ → List ℕ
after_dollar [] = []
after_dollar (ch ∷ chs) = chs

-- How many bytes the bulk has whose first bytes, those of one buffer, are given. What is read behind
-- the end of the buffer is taken as 0.
unfoldable pub bulk_length : List ℕ → ℕ
bulk_length unread =
    if byte_at unread 1 == b'-' && byte_at unread 2 == b'1'
    then 5
    else (let (len, digits) = read_digits 0 (after_dollar unread) in
        (len + 4 + (1 + digits)) % 2 ^ 32)

-- `dst` may be NULL, and then the bytes are dropped.
unfoldable pub steal : Option Message → Mbuf → Option Message
steal none m = none
steal (some dst) m = some (record dst { mhdr = mbuf_insert dst.mhdr m })

unfoldable pub count_bytes : Option Message → ℕ → Option Message
count_bytes none bytes = none
count_bytes (some dst) bytes = some (record dst { mlen = (dst.mlen + bytes) % 2 ^ 32 })

module _ (mbuf_offset : ℕ) (memory : Bool) where
  unfoldable pub append_part : Option Message → List ℕ → Status × Option Message
  append_part none part = (nc_ok, none)
  append_part (some dst) part =
      let (status, dst') = msg_append mbuf_offset dst part memory in (status, some dst')

  -- The buffer that holds the end of the bulk.
  unfoldable pub split_part :
      ℕ → Mbuf → List Mbuf → Status × Option Message → Status × Option Message × List Mbuf
  split_part len m h (nc_ok, dst) = (nc_ok, dst, record m { pos = m.pos + len } ∷ h)
  split_part len m h (status, dst) = (status, dst, m ∷ h)

  unfoldable pub copy_bytes : ℕ → List Mbuf → Option Message → Status × Option Message × List Mbuf
  copy_bytes len [] dst = (nc_ok, dst, [])
  copy_bytes len (m ∷ h) dst =
      let rest = copy_bytes (len - mbuf_length m) h (steal dst m) in
      if leb (mbuf_length m) len
      then rest
      else split_part len m h (append_part dst (take len (unread m)))

  unfoldable pub count_bulk :
      ℕ → Message → Status × Option Message × List Mbuf → Status × Option Message × Message
  count_bulk bytes src (nc_ok, dst, h) = (
    nc_ok,
    count_bytes dst bytes,
    record src { mhdr = h; mlen = (src.mlen + 2 ^ 32 - bytes) % 2 ^ 32 },
  )
  count_bulk bytes src (status, dst, h) = (status, dst, record src { mhdr = h })

  unfoldable pub redis_copy_bulk : Option Message → Message → Status × Option Message × Message
  redis_copy_bulk dst src = elim (skip_empty src.mhdr) [
    | [] ↦ (nc_error, dst, record src { mhdr = [] })
    | m ∷ h ↦
        let bytes = bulk_length (unread m) in count_bulk bytes src (copy_bytes bytes (m ∷ h) dst)
  ]
