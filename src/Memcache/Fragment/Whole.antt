-- ===== src/Memcache/Fragment/Whole.antt =====
-- nc_memcache.c: what the fragments of a retrieval hold.
use wx_cache_proxy.Base.{
  ℕ, ◌+◌, ◌^◌, ◌≤◌, ◌<◌, ◌≡◌, refl, sym, ap, ◌∙◌, Bool, true, List, [], ◌∷◌, ◌++◌, some, length,
  length-append, All, arith, nc_ok,
}
use mathlib.Core.List.{append_assoc}
use wx_cache_proxy.Buffer.Mbuf.{Mbuf, last, split_last}
use wx_cache_proxy.Buffer.Content.{content, total, split_last-snoc}
use wx_cache_proxy.Buffer.Message.{msg_append, msg_prepend}
use wx_cache_proxy.Buffer.Append.{IsSound, msg_ensure_mbuf-HasRoom, msg_prepend-content}
use wx_cache_proxy.Buffer.Adds.{
  copy_last-copy_last, msg_ensure_mbuf-some, ensured-Adds, msg_append-Adds,
}
use wx_cache_proxy.Parser.Kind.{MsgType, req_mc_get, req_mc_gets}
use wx_cache_proxy.Memcache.Class.{memcache_retrieval}
use wx_cache_proxy.Memcache.Request.{space}
use wx_cache_proxy.Fragment.{Sub, one_more, Division, and_then}
use wx_cache_proxy.Fragment.Divides.{Divides, divide-Divides, text}
use wx_cache_proxy.Memcache.Fragment.{
  memcache_append_key, prepend_name, get_header, gets_header, crlf, complete, Supply, put, eat_name,
  memcache_fragment_retrieval, memcache_fragment,
}

-- The keys, each with a space behind it.
unfoldable pub keys_text : List (List ℕ) → List ℕ
keys_text [] = []
keys_text (key ∷ keys) = key ++ space ∷ keys_text keys

keys_text-append :
    (keys : List (List ℕ)) (key : List ℕ)
    → keys_text (keys ++ key ∷ []) ≡ keys_text keys ++ (key ++ space ∷ [])
unfolding keys_text
keys_text-append [] key = refl
keys_text-append (k ∷ keys) key =
    ap (λ l. k ++ space ∷ l) (keys_text-append keys key)
    ∙ sym (append_assoc k (space ∷ keys_text keys) (key ++ space ∷ []))

-- A whole fragment.
unfoldable pub line : MsgType → List (List ℕ) → List ℕ
line req_mc_get keys = get_header ++ (keys_text keys ++ crlf)
line req_mc_gets keys = gets_header ++ (keys_text keys ++ crlf)
line _ keys = keys_text keys ++ crlf

record Carries (offset : ℕ) (keys : List (List ℕ)) (sub : Sub) : Type 0 where
  sound : IsSound offset sub.message
  holds : text sub ≡ keys_text keys

module _ (offset : ℕ) (small : offset < 2 ^ 32) where
  memcache_append_key-Carries :
      (room : ℕ → Bool) (key : List ℕ) (keys : List (List ℕ)) (sub : Sub)
      → room (length sub.keys) ≡ true
      → length key + 2 ≤ offset
      → Carries offset keys sub
      → let done = memcache_append_key offset true room sub key in
        (done.0 ≡ nc_ok) × Carries offset (keys ++ key ∷ []) done.1
  unfolding memcache_append_key
  memcache_append_key-Carries room key keys sub b l c =
      let (h, e) = msg_ensure_mbuf-some offset small sub.message.mhdr (length key + 2) in
      let (front, m, r) =
        msg_ensure_mbuf-HasRoom offset small sub.message.mhdr (length key + 2) true c.sound.buffers
          l e in
      let q : split_last h ≡ some (front, m) = rw r.shape (split_last-snoc front m) in
      let added =
        ensured-Adds offset small sub.message (key ++ space ∷ []) (length key + 2) h c.sound
          (omega (arith, length-append key (space ∷ []))) l e in
      rw (memcache_append_key, e, b, copy_last-copy_last sub.message h front m key (space ∷ []) q)
        (
          refl,
          record {
            sound = added.sound;
            holds =
                added.adds
                ∙ ap (λ l. l ++ (key ++ space ∷ [])) c.holds
                ∙ sym (keys_text-append keys key);
          },
        )

  named-Carries :
      (name : List ℕ) (keys : List (List ℕ)) (sub : Sub)
      → length name ≤ offset
      → 2 ≤ offset
      → Carries offset keys sub
      → let done =
          and_then
            (msg_prepend sub.message name true)
            (λ m.
              let (status, m') = msg_append offset m crlf true in
              (status, record sub { message = m' }))
            sub in
        (done.0 ≡ nc_ok) × (text done.1 ≡ name ++ (keys_text keys ++ crlf))
  unfolding msg_prepend wx_cache_proxy.Buffer.Mbuf.mbuf_get
  named-Carries name keys sub l two c =
      let headed = msg_prepend-content offset small sub.message name true c.sound l refl in
      let closed = msg_append-Adds offset small _ crlf headed.0 two in
      (
        closed.0,
        closed.1.adds
            ∙ ap (λ l. l ++ crlf) (headed.1 ∙ ap (◌++◌ name) c.holds)
            ∙ append_assoc name (keys_text keys) crlf,
      )

  complete-line :
      (kind : MsgType) (key : List ℕ) (keys : List (List ℕ)) (sub : Sub)
      → memcache_retrieval kind ≡ true
      → 5 ≤ offset
      → Carries offset (key ∷ keys) sub
      → ((complete offset kind true true sub).0 ≡ nc_ok)
        × (text (complete offset kind true true sub).1 ≡ line kind (key ∷ keys))
  unfolding complete prepend_name memcache_retrieval line
  complete-line req_mc_get key keys sub e l c =
      named-Carries get_header (key ∷ keys) sub (omega arith) (omega arith) c
  complete-line req_mc_gets key keys sub e l c =
      named-Carries gets_header (key ∷ keys) sub l (omega arith) c
  complete-line _ key keys sub e l c = cc

-- All memory that is asked for is found.
pub record IsAmple (supply : Supply) : Type 0 where
  pub tables : supply.tables ≡ true
  pub messages : (i : ℕ) → supply.messages i ≡ true
  pub buffers : (i : ℕ) → supply.buffers i ≡ true
  pub room : (n : ℕ) → supply.room n ≡ true
  pub headers : (i : ℕ) → supply.headers i ≡ true
  pub tails : (i : ℕ) → supply.tails i ≡ true

-- `memcache_fragment` divides a retrieval. Where all memory is found, the division succeeds: for
-- each server that has keys, in the order of the servers, there is one fragment, which holds the
-- name of the command, the keys that go to this server, each with a space behind it, and the end of
-- the line, in the order of the request; `frag_seq` says for each key its server; the fragments
-- have the type of the request and the `frag_id` that it gets, one more than the last, modulo 2^64;
-- `nfrag` is their number, modulo 2^32; and no index was behind the end of `sub_msgs`. The server
-- of each key is below `ncontinuum`, the length of `sub_msgs`. A key fits a buffer with two bytes
-- more, buffers are shorter than 2^32 and have room for 5 bytes, and before nothing is in
-- `frag_seq` and in the queue.
pub memcache_fragment-Divides :
    (offset : ℕ) (backend : List ℕ → ℕ) (supply : Supply) (kind : MsgType) (counter ncontinuum : ℕ)
    (keys : List (List ℕ)) (d : Division)
    → offset < 2 ^ 32
    → 5 ≤ offset
    → memcache_retrieval kind ≡ true
    → All (λ key. length key + 2 ≤ offset) keys
    → All (λ key. backend key < ncontinuum) keys
    → IsAmple supply
    → d.frag_seq ≡ []
    → d.queue ≡ []
    → Divides backend
        (line kind)
        kind
        counter
        ncontinuum
        keys
        (memcache_fragment offset backend supply kind counter ncontinuum keys d)
unfolding memcache_fragment memcache_fragment_retrieval content total keys_text
memcache_fragment-Divides offset backend supply kind counter ncontinuum keys d small five k good
      inside ample seq empty =
    rw (k, ample.tables)
      (divide-Divides supply.messages backend (put offset backend supply)
        (λ i. complete offset kind (supply.headers i) (supply.tails i))
        (λ key. length key + 2 ≤ offset) (Carries offset) (line kind) ample.messages
        (record { sound = record { buffers = tt; measured = omega arith }; holds = refl })
        (λ i key request keys sub l c. rw (ample.buffers i) (
          memcache_append_key-Carries offset small supply.room key keys
            (record sub { narg = one_more sub.narg }) (ample.room (length sub.keys)) l
            (record { sound = c.sound; holds = c.holds })))
        (λ i key keys sub c.
          rw (ample.headers i, ample.tails i)
            (complete-line offset small kind key keys sub k five c))
        kind eat_name counter ncontinuum keys d good inside seq empty)
