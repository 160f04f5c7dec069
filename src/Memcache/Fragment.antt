-- ===== src/Memcache/Fragment.antt =====
-- nc_memcache.c: `memcache_fragment`, which divides a retrieval of several keys.
pub mod Whole
use wx_cache_proxy.Base.{
  ℕ, zero, suc, ◌+◌, ◌%◌, ◌^◌, Bool, List, [], ◌∷◌, ◌++◌, none, some, ◌==◌, if◌then◌else◌, length,
  Status, nc_ok, nc_enomem,
}
use wx_cache_proxy.Buffer.Message.{Message, msg_ensure_mbuf, copy_last, msg_append, msg_prepend}
use wx_cache_proxy.Parser.Kind.{MsgType, req_mc_get, req_mc_gets}
use wx_cache_proxy.Parser.Bytes.{cr, lf}
use wx_cache_proxy.Memcache.Class.{memcache_retrieval}
use wx_cache_proxy.Memcache.Request.{space}
use wx_cache_proxy.Fragment.{Sub, Division, and_then, last_end, divide}

-- `room` says whether `array_push` finds memory after so many keys.
unfoldable pub memcache_append_key : ℕ → Bool → (ℕ → Bool) → Sub → List ℕ → Status × Sub
memcache_append_key mbuf_offset memory room sub key =
    elim (msg_ensure_mbuf mbuf_offset sub.message.mhdr (length key + 2) memory) [
      | none ↦ (nc_enomem, sub)
      | some h ↦
          let start = last_end h in
          let m1 = copy_last sub.message h key in
          if room (length sub.keys)
          then (
            nc_ok,
            record sub {
              keys = sub.keys ++ (start, start + length key) ∷ [];
              message = copy_last m1 m1.mhdr (space ∷ []);
            },
          )
          else (nc_enomem, record sub { message = record (sub.message) { mhdr = h } })
    ]

-- The distance from the start of a buffer to behind its first space.
unfoldable pub behind_space : List ℕ → ℕ
behind_space [] = 0
behind_space (ch ∷ bytes) = let rest = behind_space bytes in if ch == space then 1 else suc rest

unfoldable pub eat_name : Message → Message
eat_name msg = elim msg.mhdr [
  | [] ↦ msg
  | m ∷ h ↦ record msg { mhdr = record m { pos = behind_space m.bytes } ∷ h }
]

-- "get " and "gets "
abbrev pub get_header : List ℕ
get_header = b'g' ∷ b'e' ∷ b't' ∷ space ∷ []

abbrev pub gets_header : List ℕ
gets_header = b'g' ∷ b'e' ∷ b't' ∷ b's' ∷ space ∷ []

unfoldable pub prepend_name : MsgType → Message → Bool → Status × Message
prepend_name req_mc_get msg memory = msg_prepend msg get_header memory
prepend_name req_mc_gets msg memory = msg_prepend msg gets_header memory
prepend_name _ msg memory = (nc_ok, msg)

abbrev pub crlf : List ℕ
crlf = cr ∷ lf ∷ []

-- The name in front of the keys, and the end of the line behind them.
unfoldable pub complete : ℕ → MsgType → Bool → Bool → Sub → Status × Sub
complete mbuf_offset kind header tail sub =
    and_then (prepend_name kind sub.message header)
      (λ m.
        let (status, m') = msg_append mbuf_offset m crlf tail in
        (status, record sub { message = m' }))
      sub

-- What memory is found for: the two arrays, the messages and the keys in the order of the keys, and
-- the two ends of a fragment by its server.
pub record Supply : Type 0 where
  pub tables : Bool
  pub messages : ℕ → Bool
  pub buffers : ℕ → Bool
  pub room : ℕ → Bool
  pub headers : ℕ → Bool
  pub tails : ℕ → Bool

module _ (mbuf_offset : ℕ) (backend : List ℕ → ℕ) (supply : Supply) where
  abbrev pub put : ℕ → List ℕ → Message → Sub → Status × Sub × Message
  put i key request sub =
      let (status, sub') = memcache_append_key mbuf_offset (supply.buffers i) supply.room sub key in
      (status, sub', request)

  unfoldable pub memcache_fragment_retrieval :
      MsgType → ℕ → ℕ → List (List ℕ) → Division → Status × Division
  memcache_fragment_retrieval kind counter ncontinuum keys d =
      divide supply.tables supply.messages backend put
        (λ i. complete mbuf_offset kind (supply.headers i) (supply.tails i)) eat_name kind counter
        ncontinuum keys d

  unfoldable pub memcache_fragment : MsgType → ℕ → ℕ → List (List ℕ) → Division → Status × Division
  memcache_fragment kind counter ncontinuum keys d =
      if memcache_retrieval kind
      then memcache_fragment_retrieval kind counter ncontinuum keys d
      else (nc_ok, d)
