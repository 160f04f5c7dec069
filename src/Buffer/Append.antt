-- ===== src/Buffer/Append.antt =====
-- nc_message.c: `msg_append` and `msg_prepend`.
use wx_cache_proxy.Base.{
  ℕ, ◌+◌, ◌%◌, ◌^◌, ◌≤◌, ◌<◌, ◌≡◌, refl, sym, ap, ◌∙◌, subst, Bool, true, false, List, [], ◌∷◌,
  ◌++◌, some, arith, ltb, length, length-append, nc_ok, Option-cases, Bool-cases, inl, inr,
}
use mathlib.Core.List.{append-nil}
use wx_cache_proxy.Buffer.Mbuf.{
  Mbuf, fresh, mbuf_get, mbuf_size, mbuf_copy, mbuf_insert, split_last,
}
use wx_cache_proxy.Buffer.Content.{
  content, total, content-append, total-append, IsValid, AreValid, AreValid-append, AreValid-front,
  AreValid-last, content-extend, total-extend, split_last-append, split_last-snoc,
}
use wx_cache_proxy.Buffer.Message.{Message, msg_ensure_mbuf, copy_last, msg_append, msg_prepend}

-- The buffers are in order and within their space, and `mlen` counts their bytes modulo 2^32.
pub record IsSound (offset : ℕ) (msg : Message) : Type 0 where
  pub buffers : AreValid offset msg.mhdr
  pub measured : msg.mlen ≡ total msg.mhdr % 2 ^ 32

-- A queue whose last buffer has room for `n` bytes and that reads like `h`.
pub record HasRoom (offset n : ℕ) (h h' : List Mbuf) (front : List Mbuf) (m : Mbuf) : Type 0 where
  pub shape : h' ≡ front ++ m ∷ []
  pub same : content h' ≡ content h
  pub size : total h' ≡ total h
  pub valid : AreValid offset h'
  pub room : length m.bytes + n ≤ offset

pub mbuf_copy_lem :
    (m : Mbuf) (source : List ℕ) → mbuf_copy m source ≡ record m { bytes = m.bytes ++ source }
unfolding mbuf_copy
mbuf_copy_lem m [] = λ i. record m { bytes = sym (append-nil m.bytes) i }
mbuf_copy_lem m (x ∷ source) = ground arith

new-HasRoom :
    (offset n : ℕ) (h : List Mbuf)
    → AreValid offset h
    → n ≤ offset
    → HasRoom offset n h (mbuf_insert h fresh) h fresh
unfolding mbuf_insert content total
new-HasRoom offset n h v l = record {
  shape = refl;
  same = content-append h (fresh ∷ []) ∙ append-nil (content h);
  size = omega (arith, total-append h (fresh ∷ []));
  valid =
      AreValid-append offset h (fresh ∷ []) v
        (record { ordered = omega arith; within = omega arith }, tt);
  room = omega arith;
}

module _ (offset : ℕ) (small : offset < 2 ^ 32) where
  room_of_size :
      (n : ℕ) (m : Mbuf)
      → IsValid offset m
      → ltb (mbuf_size offset m) n ≡ false
      → length m.bytes + n ≤ offset
  unfolding mbuf_size
  room_of_size n m v e = ground arith

  pub msg_ensure_mbuf-HasRoom :
      (h : List Mbuf) (n : ℕ) (memory : Bool) {h' : List Mbuf}
      → AreValid offset h
      → n ≤ offset
      → msg_ensure_mbuf offset h n memory ≡ some h'
      → (front : List Mbuf) × (m : Mbuf) × HasRoom offset n h h' front m
  unfolding msg_ensure_mbuf mbuf_get
  msg_ensure_mbuf-HasRoom h n memory {h'} v l e =
      let when_new : mbuf_insert h fresh ≡ h'
          → (front : List Mbuf) × (m : Mbuf) × HasRoom offset n h h' front m =
        λ q. (
          h,
          fresh,
          subst (λ (g : List Mbuf). HasRoom offset n h g h fresh) q (new-HasRoom offset n h v l),
        ) in
      elim (Option-cases (split_last h)) [
        | inl q ↦ when_new (ground arith)
        | inr ((front, m), q) ↦ elim (Bool-cases (ltb (mbuf_size offset m) n)) [
          | inl short ↦ when_new (ground arith)
          | inr fits ↦
              let at : h ≡ front ++ m ∷ [] = split_last-append h front m q in
              let same : h ≡ h' = ground arith in
              (
                front,
                m,
                subst (λ (g : List Mbuf). HasRoom offset n h g front m) same
                    (record {
                      shape = at;
                      same = refl;
                      size = refl;
                      valid = v;
                      room =
                          room_of_size n m
                            (AreValid-last offset front m (subst (AreValid offset) at v)) fits;
                    }),
              )
        ]
      ]

  -- Bytes copied into a buffer with room for them.
  pub copy_last-IsSound :
      (msg : Message) (h front : List Mbuf) (m : Mbuf) (source : List ℕ)
      → HasRoom offset (length source) msg.mhdr h front m
      → msg.mlen ≡ total msg.mhdr % 2 ^ 32
      → let msg' = copy_last msg h source in
        IsSound offset msg' × (content msg'.mhdr ≡ content msg.mhdr ++ source)
  unfolding copy_last
  copy_last-IsSound msg h front m source r e =
      let q : split_last h ≡ some (front, m) = rw r.shape (split_last-snoc front m) in
      let v : AreValid offset (front ++ m ∷ []) = subst (AreValid offset) r.shape r.valid in
      let here : IsValid offset m = AreValid-last offset front m v in
      let m' : Mbuf = record m { bytes = m.bytes ++ source } in
      rw (q, copy_last, mbuf_copy_lem m source)
        (
          record {
            buffers =
                AreValid-append offset front (m' ∷ []) (AreValid-front offset front (m ∷ []) v) (
                  record {
                    ordered = omega (arith, here.ordered, length-append m.bytes source);
                    within = omega (arith, r.room, length-append m.bytes source);
                  },
                  tt,
                );
            measured = omega (arith, e, r.size, ap total r.shape, total-extend front m source);
          },
          content-extend offset front m source here
              ∙ ap (λ l. l ++ source) (ap content (sym r.shape) ∙ r.same),
        )

  -- An append to a sound message that succeeds leaves a sound message and adds exactly its bytes at
  -- the end of what the message holds. The bytes fit one buffer, and buffers are shorter than 2^32.
  pub msg_append-content :
      (msg : Message) (source : List ℕ) (memory : Bool) {msg' : Message}
      → IsSound offset msg
      → length source ≤ offset
      → msg_append offset msg source memory ≡ (nc_ok, msg')
      → IsSound offset msg' × (content msg'.mhdr ≡ content msg.mhdr ++ source)
  unfolding msg_append
  msg_append-content msg source memory {msg'} v l e =
      elim (Option-cases (msg_ensure_mbuf offset msg.mhdr (length source) memory)) [
        | inl q ↦ ground arith
        | inr (h, q) ↦
            let (front, m, r) =
              msg_ensure_mbuf-HasRoom msg.mhdr (length source) memory v.buffers l q in
            let done : copy_last msg h source ≡ msg' = ground arith in
            subst
              (λ (n : Message). IsSound offset n × (content n.mhdr ≡ content msg.mhdr ++ source))
              done (copy_last-IsSound msg h front m source r v.measured)
      ]

  prepended :
      (msg : Message) (source : List ℕ)
      → IsSound offset msg
      → length source ≤ offset
      → let new : Message = record msg {
        mhdr = record { bytes = source; pos = 0 } ∷ msg.mhdr;
        mlen = (msg.mlen + length source) % 2 ^ 32;
      } in
        IsSound offset new × (content new.mhdr ≡ source ++ content msg.mhdr)
  unfolding content total
  prepended msg source v l = (
    record {
      buffers = (record { ordered = omega arith; within = l }, v.buffers);
      measured = omega (arith, v.measured);
    },
    refl,
  )

  -- A prepend to a sound message that succeeds leaves a sound message and adds exactly its bytes in
  -- front. The bytes fit one buffer, and buffers are shorter than 2^32.
  pub msg_prepend-content :
      (msg : Message) (source : List ℕ) (memory : Bool) {msg' : Message}
      → IsSound offset msg
      → length source ≤ offset
      → msg_prepend msg source memory ≡ (nc_ok, msg')
      → IsSound offset msg' × (content msg'.mhdr ≡ source ++ content msg.mhdr)
  unfolding msg_prepend mbuf_get
  msg_prepend-content msg source true {msg'} v l e =
      let new : Message = record msg {
        mhdr = record { bytes = source; pos = 0 } ∷ msg.mhdr;
        mlen = (msg.mlen + length source) % 2 ^ 32;
      } in
      let same : new ≡ msg' = ground (arith, mbuf_copy_lem fresh source) in
      subst (λ (n : Message). IsSound offset n × (content n.mhdr ≡ source ++ content msg.mhdr)) same
        (prepended msg source v l)
  msg_prepend-content msg source false v l e = cc
