-- ===== src/Redis/Coalesce.antt =====
-- nc_redis.c: the responses to the fragments of a request are joined to one: `redis_pre_coalesce` and
-- `redis_post_coalesce`.
pub mod Join
pub mod Count
pub mod Missing
mod Tests
use wx_cache_proxy.Base.{
  ℕ, zero, suc, ◌+◌, ◌-◌, ◌%◌, ◌^◌, Bool, true, false, ◌||◌, List, [], ◌∷◌, ◌++◌, Option, none,
  some, ◌==◌, if◌then◌else◌, length, Status, nc_ok, nc_error, nc_enomem,
}
use wx_cache_proxy.Buffer.Mbuf.{Mbuf, mbuf_length, mbuf_rewind}
use wx_cache_proxy.Buffer.Message.{Message, msg_append, msg_prepend_format}
use wx_cache_proxy.Parser.Kind.{
  MsgType, req_redis_mget, req_redis_mset, req_redis_del, rsp_redis_integer, rsp_redis_multibulk,
  rsp_redis_status,
}
use wx_cache_proxy.Redis.Reply.{decrement}
use wx_cache_proxy.Redis.Bulk.{redis_copy_bulk}

-- A response to a fragment: the message and what the parser found.
pub record Response : Type 0 where
  pub message : Message
  pub kind : MsgType
  pub integer : ℕ
  pub narg_start : ℕ
  pub narg_end : ℕ

-- The request of the fragment, and what the handler counts in its owner.
pub record Fragment : Type 0 where
  pub frag_id : ℕ
  pub kind : MsgType
  pub error : Bool
  pub invalid : Bool

pub record Owner : Type 0 where
  pub nfrag_done : ℕ
  pub integer : ℕ

pub record Coalesced : Type 0 where
  pub response : Response
  pub fragment : Fragment
  pub owner : Owner

-- The first buffer is rewound, and its bytes taken off the length.
unfoldable pub discard_first : Message → Message
discard_first msg = elim msg.mhdr [
  | [] ↦ msg
  | m ∷ h ↦ record msg {
    mhdr = mbuf_rewind m ∷ h;
    mlen = (msg.mlen + 2 ^ 32 - mbuf_length m) % 2 ^ 32;
  }
]

-- The first buffer is read up to `pos`, and `bytes` are taken off the length.
unfoldable pub skip_first : ℕ → ℕ → Message → Message
skip_first pos bytes msg = elim msg.mhdr [
  | [] ↦ msg
  | m ∷ h ↦ record msg {
    mhdr = record m { pos = pos } ∷ h;
    mlen = (msg.mlen + 2 ^ 32 - bytes) % 2 ^ 32;
  }
]

unfoldable pub coalesce_as : MsgType → Coalesced → Coalesced
coalesce_as rsp_redis_integer c = record c {
  response = record (c.response) { message = discard_first (c.response).message };
  owner = record (c.owner) { integer = ((c.owner).integer + (c.response).integer) % 2 ^ 32 };
}
coalesce_as rsp_redis_multibulk c =
    let r = c.response in
    let narg_end = r.narg_end + 2 in
    record c {
      response = record r {
        narg_end = narg_end;
        message = skip_first narg_end (narg_end - r.narg_start) r.message;
      };
    }
coalesce_as rsp_redis_status c = elim (c.fragment).kind [
  | req_redis_mset ↦ record c {
    response = record (c.response) { message = discard_first (c.response).message };
  }
  | _ ↦ c
]
coalesce_as _ c = record c { fragment = record (c.fragment) { error = true; invalid = true } }

unfoldable pub redis_pre_coalesce : Coalesced → Coalesced
redis_pre_coalesce c =
    if (c.fragment).frag_id == 0
    then c
    else coalesce_as (c.response).kind
        (record c { owner = record (c.owner) { nfrag_done = ((c.owner).nfrag_done + 1) % 2 ^ 32 } })

-- The response of the owner and its flag `error`, the responses of the fragments by their number, and
-- whether the connection of the client is marked for closing.
pub record Joined : Type 0 where
  pub response : Message
  pub error : Bool
  pub fragments : ℕ → Option Message
  pub closed : Bool

unfoldable pub update : (ℕ → Option Message) → ℕ → Message → ℕ → Option Message
update fragments k msg i = if i == k then some msg else fragments i

-- "+OK\r\n"
abbrev pub rsp_ok : List ℕ
rsp_ok = b'+' ∷ b'O' ∷ b'K' ∷ 13 ∷ 10 ∷ []

-- `print` is what `nc_vsnprintf` prints for "%d".
module _ (mbuf_offset : ℕ) (print : ℕ → List ℕ) where
  -- What follows the copy of one bulk from fragment `k`.
  unfoldable pub join_next :
      Joined → ℕ → (Joined → Joined) → Status × Option Message × Message → Joined
  join_next j k next (nc_ok, some response, sub) =
      next (record j { response = response; fragments = update j.fragments k sub })
  join_next j k next (nc_ok, none, sub) = next j
  join_next j k next (status, some response, sub) = record j {
    response = response;
    fragments = update j.fragments k sub;
    closed = true;
  }
  join_next j k next (status, none, sub) = record j { closed = true }

  -- The loop over `frag_seq`. The head of `memory` says whether the copy finds memory.
  unfoldable pub join_bulks : (ℕ → Bool) → List ℕ → Joined → Joined
  join_bulks memory [] j = j
  join_bulks memory (k ∷ ks) j = elim (j.fragments k) [
    | none ↦ record j { closed = true }
    | some sub ↦
        join_next j k (join_bulks (λ i. memory (suc i)) ks)
          (redis_copy_bulk mbuf_offset (memory 0) (some j.response) sub)
  ]

  -- What follows the first line.
  unfoldable pub after_count : (ℕ → Bool) → List ℕ → Joined → Status × Message → Joined
  after_count memory frag_seq j (nc_ok, response) =
      join_bulks memory frag_seq (record j { response = response })
  after_count memory frag_seq j (status, response) = record j { response = response; closed = true }

  -- `narg` and `frag_seq` are those of the request. `header` and `memory` say whether memory is found
  -- for the first line and for each bulk.
  unfoldable pub redis_post_coalesce_mget : Bool → (ℕ → Bool) → ℕ → List ℕ → Joined → Joined
  redis_post_coalesce_mget header memory narg frag_seq j = after_count memory frag_seq j (
      msg_prepend_format mbuf_offset j.response (b'*' ∷ (print (decrement narg) ++ 13 ∷ 10 ∷ []))
        header)

  unfoldable pub mark : Joined → Status × Message → Joined
  mark j (nc_ok, response) = record j { response = response }
  mark j (status, response) = record j { response = response; error = true }

  unfoldable pub redis_post_coalesce_del : Bool → ℕ → Joined → Joined
  redis_post_coalesce_del header integer j =
      mark j
        (msg_prepend_format mbuf_offset j.response (b':' ∷ (print integer ++ 13 ∷ 10 ∷ [])) header)

  unfoldable pub redis_post_coalesce_mset : Bool → Joined → Joined
  redis_post_coalesce_mset header j = mark j (msg_append mbuf_offset j.response rsp_ok header)

  -- `failed` is `r->error || r->ferror`. Requests of other types do not come here.
  unfoldable pub redis_post_coalesce :
      Bool → MsgType → Bool → (ℕ → Bool) → ℕ → ℕ → List ℕ → Joined → Joined
  redis_post_coalesce failed kind header memory narg integer frag_seq j =
      if failed then j else elim kind [
        | req_redis_mget ↦ redis_post_coalesce_mget header memory narg frag_seq j
        | req_redis_del ↦ redis_post_coalesce_del header integer j
        | req_redis_mset ↦ redis_post_coalesce_mset header j
        | _ ↦ j
      ]
