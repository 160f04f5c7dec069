-- ===== src/Redis/Fragment.antt =====
-- nc_redis.c: `redis_fragment`, which divides MGET, DEL and MSET.
pub mod Whole
use wx_cache_proxy.Base.{
  ℕ, zero, suc, ◌+◌, ◌%◌, ◌^◌, Bool, List, [], ◌∷◌, ◌++◌, Option, none, some, ◌==◌, if◌then◌else◌,
  length, Status, nc_ok, nc_error, nc_enomem,
}
use wx_cache_proxy.Buffer.Mbuf.{Mbuf}
use wx_cache_proxy.Buffer.Message.{
  Message, msg_ensure_mbuf, copy_last, msg_append, msg_prepend_format,
}
use wx_cache_proxy.Parser.Kind.{MsgType, req_redis_mget, req_redis_del, req_redis_mset}
use wx_cache_proxy.Parser.Bytes.{cr, lf}
use wx_cache_proxy.Redis.Bulk.{redis_copy_bulk}
use wx_cache_proxy.Redis.RoundTrip.Many.{format_of}
use wx_cache_proxy.Fragment.{Sub, Division, one_more, and_then, last_end, divide}

abbrev pub crlf : List ℕ
crlf = cr ∷ lf ∷ []

-- The distance from the start of a buffer to behind its `n`-th line.
unfoldable pub behind_lines : ℕ → List ℕ → ℕ
behind_lines zero bytes = 0
behind_lines (suc n) [] = 0
behind_lines (suc n) (ch ∷ bytes) =
    let rest = if ch == lf then behind_lines n bytes else behind_lines (suc n) bytes in suc rest

unfoldable pub eat_lines : Message → Message
eat_lines msg = elim msg.mhdr [
  | [] ↦ msg
  | m ∷ h ↦ record msg { mhdr = record m { pos = behind_lines 3 m.bytes } ∷ h }
]

-- What memory is found for: the two arrays, the messages, the steps for each key and the places in
-- `keys`, and the first line of a fragment by its server.
pub record Supply : Type 0 where
  pub tables : Bool
  pub messages : ℕ → Bool
  pub buffers : ℕ → ℕ → Bool
  pub room : ℕ → Bool
  pub headers : ℕ → Bool

-- `print` is what `nc_snprintf` and `nc_vsnprintf` print for %d.
module _ (mbuf_offset : ℕ) (print : ℕ → List ℕ) where
  -- The key, behind the line of its length.
  unfoldable pub append_bytes : Bool → (ℕ → Bool) → List ℕ → Sub → Status × Sub
  append_bytes memory room key sub =
      elim (msg_ensure_mbuf mbuf_offset sub.message.mhdr (length key) memory) [
        | none ↦ (nc_enomem, sub)
        | some h ↦
            let start = last_end h in
            if room (length sub.keys)
            then (
              nc_ok,
              record sub {
                keys = sub.keys ++ (start, start + length key) ∷ [];
                message = copy_last sub.message h key;
              },
            )
            else (nc_enomem, record sub { message = record (sub.message) { mhdr = h } })
      ]

  unfoldable pub append_line : Bool → List ℕ → Sub → Status × Sub
  append_line memory source sub =
      let (status, m) = msg_append mbuf_offset sub.message source memory in
      (status, record sub { message = m })

  unfoldable pub redis_append_key : (ℕ → Bool) → (ℕ → Bool) → Sub → List ℕ → Status × Sub
  redis_append_key memory room sub key =
      let measured = append_line (memory 0) (b'$' ∷ (print (length key) ++ crlf)) sub in
      let named = and_then measured (append_bytes (memory 1) room key) measured.1 in
      and_then named (append_line (memory 2) crlf) named.1

  -- The value of a key of MSET, copied behind the key; the key itself is dropped before.
  unfoldable pub take_value : Sub → Status × Option Message × Message → Status × Sub × Message
  take_value sub (nc_ok, some m, request) =
      (nc_ok, record sub { message = m; narg = one_more sub.narg }, request)
  take_value sub (status, some m, request) = (status, record sub { message = m }, request)
  take_value sub (status, none, request) = (status, sub, request)

  unfoldable pub drop_key : Bool → Sub → Status × Option Message × Message → Status × Sub × Message
  drop_key memory sub (nc_ok, dst, request) =
      take_value sub (redis_copy_bulk mbuf_offset memory (some sub.message) request)
  drop_key memory sub (status, dst, request) = (status, sub, request)

  unfoldable pub copy_value : (ℕ → Bool) → Message → Status × Sub → Status × Sub × Message
  copy_value memory request (nc_ok, sub) =
      drop_key (memory 4) sub (redis_copy_bulk mbuf_offset (memory 3) none request)
  copy_value memory request (status, sub) = (status, sub, request)

  unfoldable pub put : Supply → ℕ → ℕ → List ℕ → Message → Sub → Status × Sub × Message
  put supply key_step i key request sub =
      let appended = redis_append_key (supply.buffers i) supply.room sub key in
      if key_step == 1
      then (appended.0, appended.1, request)
      else copy_value (supply.buffers i) request appended

  -- "*<narg>\r\n$<digit>\r\n<name>\r\n"
  abbrev pub header_of : ℕ → ℕ × List ℕ → List ℕ
  header_of narg (ch, name) = b'*' ∷ (print narg ++ 13 ∷ 10 ∷ b'$' ∷ ch ∷ 13 ∷ 10 ∷ (name ++ crlf))

  unfoldable pub prepend_header : MsgType → Bool → Sub → Status × Sub
  prepend_header kind memory sub =
      let (status, m) =
        msg_prepend_format mbuf_offset sub.message (header_of (one_more sub.narg) (format_of kind))
          memory in
      (status, record sub { message = m })

  module _ (backend : List ℕ → ℕ) (supply : Supply) where
    unfoldable pub redis_fragment_argx :
        MsgType → ℕ → ℕ → ℕ → List (List ℕ) → Division → Status × Division
    redis_fragment_argx kind key_step counter ncontinuum keys d =
        divide supply.tables supply.messages backend (put supply key_step)
          (λ i. prepend_header kind (supply.headers i)) eat_lines kind counter ncontinuum keys d

    -- A request of several keys, by its type.
    unfoldable pub fragment_as : MsgType → ℕ → ℕ → List (List ℕ) → Division → Status × Division
    fragment_as req_redis_mget counter n keys d =
        redis_fragment_argx req_redis_mget 1 counter n keys d
    fragment_as req_redis_del counter n keys d =
        redis_fragment_argx req_redis_del 1 counter n keys d
    fragment_as req_redis_mset counter n keys d =
        redis_fragment_argx req_redis_mset 2 counter n keys d
    fragment_as _ counter n keys d = (nc_ok, d)

    unfoldable pub redis_fragment : MsgType → ℕ → ℕ → List (List ℕ) → Division → Status × Division
    redis_fragment kind counter ncontinuum keys d =
        if length keys == 1 then (nc_ok, d) else fragment_as kind counter ncontinuum keys d
