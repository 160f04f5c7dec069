-- ===== src/Fragment.antt =====
-- nc_redis.c and nc_memcache.c: what `redis_fragment_argx` and `memcache_fragment_retrieval` have in
-- common. They divide a request of several keys into one fragment for each server.
pub mod Keys
pub mod Placed
pub mod Divides
mod Tests
use wx_cache_proxy.Base.{
  ℕ, zero, suc, ◌+◌, ◌%◌, ◌^◌, Bool, true, false, List, [], ◌∷◌, ◌++◌, Option, none, some, ◌==◌,
  ltb, if◌then◌else◌, Status, nc_ok, nc_error, nc_enomem,
}
use wx_cache_proxy.Buffer.Mbuf.{Mbuf, last, split_last}
use wx_cache_proxy.Buffer.Message.{Message, no_message}
use wx_cache_proxy.Parser.Kind.{MsgType, msg_unknown}

-- A fragment: the fields of its `struct msg` that are set here. A key is its start and its end in the
-- buffer that took it.
pub record Sub : Type 0 where
  pub message : Message
  pub narg : ℕ
  pub keys : List (ℕ × ℕ)
  pub kind : MsgType
  pub frag_id : ℕ

-- What `msg_get` gives.
abbrev pub blank_sub : Sub
blank_sub = record { message = no_message; narg = 0; keys = []; kind = msg_unknown; frag_id = 0 }

-- Where the next byte goes in the last buffer.
unfoldable pub last_end : List Mbuf → ℕ
last_end h = elim (split_last h) [ none ↦ 0 | some (front, m) ↦ last m ]

-- The request `r` with the array `sub_msgs`, by the index of a server. `frag_seq` holds the index of the
-- fragment of each key; `queue` is `frag_msgq`. `overrun` says that an index was not within `sub_msgs`.
pub record Division : Type 0 where
  pub request : Message
  pub subs : ℕ → Option Sub
  pub frag_seq : List ℕ
  pub frag_id : ℕ
  pub nfrag : ℕ
  pub queue : List Sub
  pub overrun : Bool

-- `n++` on 32 bits.
abbrev pub one_more : ℕ → ℕ
one_more n = (n + 1) % 2 ^ 32

-- To go on if the status is NC_OK.
abbrev pub and_then : {A B : Type 0} → Status × A → (A → Status × B) → B → Status × B
and_then (nc_ok, a) f b = f a
and_then (nc_error, a) f b = (nc_error, b)
and_then (nc_enomem, a) f b = (nc_enomem, b)

abbrev pub update : ℕ → Sub → (ℕ → Option Sub) → ℕ → Option Sub
update i sub subs j = if j == i then some sub else subs j

-- The fragment of a server, a new one if there is none; `memory` is what `msg_get` finds.
unfoldable pub sub_or : Bool → Option Sub → Option Sub
sub_or memory none = if memory then some blank_sub else none
sub_or memory (some sub) = some sub

-- `messages` says for each key whether there is memory for a message, `backend` is `msg_backend_idx`,
-- `put` what the protocol does to add a key to a fragment, and `ncontinuum` the length of `sub_msgs`.
module _ (ncontinuum : ℕ) (messages : ℕ → Bool) (backend : List ℕ → ℕ)
    (put : ℕ → List ℕ → Message → Sub → Status × Sub × Message) where
  unfoldable pub put_in : ℕ → List ℕ → Sub → Division → Status × Division
  put_in i key sub d =
      let (status, sub', request) = put i key d.request (record sub { narg = one_more sub.narg }) in
      (
        status,
        record d {
          request = request;
          subs = update (backend key) sub' d.subs;
          frag_seq = d.frag_seq ++ backend key ∷ [];
        },
      )

  -- An index behind the end of `sub_msgs` has no outcome in the source, which reads and writes there:
  -- the model stops and says so in `overrun`.
  unfoldable pub put_key : ℕ → List ℕ → Division → Status × Division
  put_key i key d =
      if ltb (backend key) ncontinuum
      then elim (sub_or (messages i) (d.subs (backend key))) [
        | none ↦ (nc_enomem, d)
        | some sub ↦ put_in i key sub d
      ]
      else (nc_error, record d { overrun = true })

  -- The loop over the keys, from key `i` on.
  unfoldable pub put_keys : ℕ → List (List ℕ) → Division → Status × Division
  put_keys i [] d = (nc_ok, d)
  put_keys i (key ∷ keys) d =
      let done = put_key i key d in and_then done (λ d'. put_keys (suc i) keys d') done.1

-- `finish` is what the protocol does to complete the fragment of server `i`.
module _ (kind : MsgType) (finish : ℕ → Sub → Status × Sub) where
  unfoldable pub enqueue : Division → Sub → Division
  enqueue d sub = record d {
    queue = d.queue ++ record sub { kind = kind; frag_id = d.frag_id } ∷ [];
    nfrag = one_more d.nfrag;
  }

  -- The loop over the servers, for the first number of rounds from server `i` on.
  unfoldable pub queue_subs : ℕ → ℕ → Division → Status × Division
  queue_subs zero i d = (nc_ok, d)
  queue_subs (suc n) i d = elim (d.subs i) [
    | none ↦ queue_subs n (suc i) d
    | some sub ↦ and_then (finish i sub) (λ sub'. queue_subs n (suc i) (enqueue d sub')) d
  ]

-- The whole division. `tables` says whether there is memory for `sub_msgs` and `frag_seq`, `eat` moves
-- the first buffer behind the name of the command, and `counter` is the last `frag_id` given.
unfoldable pub divide :
    (tables : Bool) (messages : ℕ → Bool) (backend : List ℕ → ℕ)
    (put : ℕ → List ℕ → Message → Sub → Status × Sub × Message) (finish : ℕ → Sub → Status × Sub)
    (eat : Message → Message)
    → MsgType
    → ℕ
    → ℕ
    → List (List ℕ)
    → Division
    → Status × Division
divide tables messages backend put finish eat kind counter ncontinuum keys d =
    if tables
    then (let d1 = record d {
      request = eat d.request;
      subs = λ i. none;
      frag_id = (counter + 1) % 2 ^ 64;
      nfrag = 0;
      overrun = false;
    } in
        let placed = put_keys ncontinuum messages backend put 0 keys d1 in
        and_then placed (queue_subs kind finish ncontinuum 0) placed.1)
    else (nc_enomem, d)
