-- ===== src/Buffer/Adds.antt =====
-- nc_message.c: `msg_ensure_mbuf`, `msg_append` and `msg_prepend_format` where there is memory.
use wx_cache_proxy.Base.{
  ℕ, ◌+◌, ◌%◌, ◌^◌, ◌≤◌, ◌<◌, ◌≡◌, refl, sym, ap, ◌∙◌, true, List, [], ◌∷◌, ◌++◌, some, arith, ltb,
  length, length-append, nc_ok, Option-cases, Bool-cases, inl, inr,
}
use mathlib.Core.List.{append_assoc}
use wx_cache_proxy.Buffer.Mbuf.{Mbuf, fresh, mbuf_get, mbuf_size, mbuf_insert, split_last}
use wx_cache_proxy.Buffer.Content.{content, split_last-snoc}
use wx_cache_proxy.Buffer.Message.{Message, msg_ensure_mbuf, copy_last, msg_append}
use wx_cache_proxy.Buffer.Append.{
  IsSound, HasRoom, mbuf_copy_lem, msg_ensure_mbuf-HasRoom, copy_last-IsSound,
}

abbrev copied : Message → List Mbuf → Mbuf → List ℕ → Message
copied msg front m source = record msg {
  mhdr = front ++ record m { bytes = m.bytes ++ source } ∷ [];
  mlen = (msg.mlen + length source) % 2 ^ 32;
}

copy_last_lem :
    (msg : Message) (h front : List Mbuf) (m : Mbuf) (source : List ℕ)
    → split_last h ≡ some (front, m)
    → copy_last msg h source ≡ copied msg front m source
unfolding copy_last
copy_last_lem msg h front m source e = rw (copy_last, e, mbuf_copy_lem m source) refl

-- Two copies into the last buffer are one.
pub copy_last-copy_last :
    (msg : Message) (h front : List Mbuf) (m : Mbuf) (xs ys : List ℕ)
    → split_last h ≡ some (front, m)
    → copy_last (copy_last msg h xs) (copy_last msg h xs).mhdr ys ≡ copy_last msg h (xs ++ ys)
copy_last-copy_last msg h front m xs ys e =
    let m' : Mbuf = record m { bytes = m.bytes ++ xs } in
    let msg' = copied msg front m xs in
    let length_eq : (msg'.mlen + length ys) % 2 ^ 32 ≡ (msg.mlen + length (xs ++ ys)) % 2 ^ 32 =
      omega (arith, length-append xs ys) in
    ap (λ n. copy_last n n.mhdr ys) (copy_last_lem msg h front m xs e)
    ∙ copy_last_lem msg' msg'.mhdr front m' ys (split_last-snoc front m')
    ∙ (λ i. record msg {
      mhdr = front ++ record m { bytes = append_assoc m.bytes xs ys i } ∷ [];
      mlen = length_eq i;
    })
    ∙ sym (copy_last_lem msg h front m (xs ++ ys) e)

-- The bytes are added at the end, and the message stays sound.
pub record Adds (offset : ℕ) (source : List ℕ) (msg msg' : Message) : Type 0 where
  pub sound : IsSound offset msg'
  pub adds : content msg'.mhdr ≡ content msg.mhdr ++ source

module _ (offset : ℕ) (small : offset < 2 ^ 32) where
  pub msg_ensure_mbuf-some :
      (h : List Mbuf) (n : ℕ) → (h' : List Mbuf) × (msg_ensure_mbuf offset h n true ≡ some h')
  unfolding msg_ensure_mbuf mbuf_get
  msg_ensure_mbuf-some h n = elim (Option-cases (split_last h)) [
    | inl e ↦ (mbuf_insert h fresh, rw (msg_ensure_mbuf, e) refl)
    | inr ((front, m), e) ↦ elim (Bool-cases (ltb (mbuf_size offset m) n)) [
      | inl b ↦ (mbuf_insert h fresh, rw (msg_ensure_mbuf, e, b) refl)
      | inr b ↦ (h, rw (msg_ensure_mbuf, e, b) refl)
    ]
  ]

  -- A copy of no more bytes than the room that was asked for.
  pub ensured-Adds :
      (msg : Message) (source : List ℕ) (n : ℕ) (h : List Mbuf)
      → IsSound offset msg
      → length source ≤ n
      → n ≤ offset
      → msg_ensure_mbuf offset msg.mhdr n true ≡ some h
      → Adds offset source msg (copy_last msg h source)
  ensured-Adds msg source n h v l w e =
      let (front, m, r) = msg_ensure_mbuf-HasRoom offset small msg.mhdr n true v.buffers w e in
      let r' : HasRoom offset (length source) msg.mhdr h front m = record {
        shape = r.shape;
        same = r.same;
        size = r.size;
        valid = r.valid;
        room = omega (arith, r.room);
      } in
      let done = copy_last-IsSound offset small msg h front m source r' v.measured in
      record { sound = done.0; adds = done.1 }

  pub msg_append-Adds :
      (msg : Message) (source : List ℕ)
      → IsSound offset msg
      → length source ≤ offset
      → ((msg_append offset msg source true).0 ≡ nc_ok)
        × Adds offset source msg (msg_append offset msg source true).1
  unfolding msg_append
  msg_append-Adds msg source v l =
      let (h, e) = msg_ensure_mbuf-some msg.mhdr (length source) in
      rw (msg_append, e) (refl, ensured-Adds msg source (length source) h v (omega arith) l e)
