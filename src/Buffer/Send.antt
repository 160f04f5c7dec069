-- ===== src/Buffer/Send.antt =====
-- nc_message.c: `msg_send_chain`, which writes the messages of a connection in one call and settles
-- what was written of each.
pub mod Gather
pub mod Settle
use wx_cache_proxy.Base.{
  ℕ, ◌+◌, ◌-◌, ◌%◌, ◌^◌, Bool, true, false, ◌&&◌, ◌||◌, List, [], ◌∷◌, Option, none, some, ltb, leb,
  ◌==◌, if◌then◌else◌, length, take,
}
use wx_cache_proxy.Buffer.Mbuf.{Mbuf, last, mbuf_empty, mbuf_length}
use wx_cache_proxy.Buffer.Content.{unread}
use wx_cache_proxy.Buffer.Message.{Message}

-- `NC_IOV_MAX`, as the file defines it where `IOV_MAX` is larger, and `SSIZE_MAX`.
abbrev pub nc_iov_max : ℕ
nc_iov_max = 128

abbrev pub ssize_max : ℕ
ssize_max = 2 ^ 63 - 1

-- The vector under construction: its entries, as the bytes that they point to, `array_n(&sendv)`
-- and `nsend`.
pub record Vector : Type 0 where
  pub entries : List (List ℕ)
  pub n : ℕ
  pub nsend : ℕ

unfoldable pub has_space : Vector → Bool
has_space v = ltb v.n nc_iov_max && ltb v.nsend ssize_max

-- The length of the entry for one buffer, cut off at the limit.
unfoldable pub entry_length : Vector → Mbuf → ℕ
entry_length v m =
    if ltb ssize_max (v.nsend + mbuf_length m) then ssize_max - v.nsend else mbuf_length m

-- Entries are consed and so stand in reverse.
unfoldable pub push_entry : Vector → Mbuf → Vector
push_entry v m = record {
  entries = take (entry_length v m) (unread m) ∷ v.entries;
  n = v.n + 1;
  nsend = v.nsend + entry_length v m;
}

-- The inner loop, over the buffers of one message.
pub gather : List Mbuf → Vector → Vector
gather [] v = v
gather (m ∷ h) v = elim (has_space v) [
  | false ↦ v
  | true ↦ gather h (if mbuf_empty m then v else push_entry v m)
]

-- The outer loop: the first message is at hand, the others are what `send_next` returns, in order.
-- The result lists the messages put into `send_msgq`.
pub gather_all : List Message → Vector → List Message × Vector
gather_all [] v = ([], v)
gather_all (msg ∷ rest) v =
    let v' = gather msg.mhdr v in
    elim (leb nc_iov_max v'.n || leb ssize_max v'.nsend) [
      | true ↦ (msg ∷ [], v')
      | false ↦ let (taken, out) = gather_all rest v' in (msg ∷ taken, out)
    ]

-- The adjustment of a message's buffers after `nsent` bytes: the buffers, the bytes that are left
-- over, and whether the loop reached the end.
pub adjust : List Mbuf → ℕ → List Mbuf × ℕ × Bool
adjust [] nsent = ([], nsent, true)
adjust (m ∷ h) nsent =
    let skip = adjust h nsent in
    let full = adjust h (nsent - mbuf_length m) in
    if mbuf_empty m
    then (m ∷ skip.0, skip.1, skip.2)
    else (if ltb nsent (mbuf_length m)
        then (record m { pos = m.pos + nsent } ∷ h, 0, false)
        else (record m { pos = last m } ∷ full.0, full.1, full.2))

-- One message of `send_msgq`: the message, what is left of `nsent`, and whether `send_done` is
-- called for it.
unfoldable pub settle_one : Message → ℕ → Message × ℕ × Bool
settle_one msg nsent =
    let adjusted = adjust msg.mhdr nsent in
    if nsent == 0
    then (msg, 0, msg.mlen == 0)
    else (record msg { mhdr = adjusted.0 }, adjusted.1, adjusted.2)

-- The second loop, over all of `send_msgq`.
pub settle : List Message → ℕ → List (Message × Bool)
settle [] nsent = []
settle (msg ∷ rest) nsent =
    let (msg', left, done) = settle_one msg nsent in (msg', done) ∷ settle rest left
