-- ===== src/Redis/Bulk/Copy.antt =====
-- nc_redis.c: what `redis_copy_bulk` moves from one message to another.
use wx_cache_proxy.Base.{
  ℕ, ◌+◌, ◌-◌, ◌%◌, ◌^◌, ◌≤◌, ◌<◌, ◌≡◌, refl, sym, ap, subst, ◌∙◌, true, List, [], ◌∷◌, ◌++◌,
  Option, some, leb, ltb, if◌then◌else◌, length, length-drop, length-take, take, drop, take-nil,
  take-past, drop-past, drop-nil, drop-drop, drop-all, Status, nc_ok, arith, Bool-cases,
  Option-cases, inl, inr,
}
use mathlib.Core.List.{append_assoc, append-nil}
use wx_cache_proxy.Buffer.Mbuf.{
  Mbuf, fresh, mbuf_get, mbuf_size, mbuf_length, mbuf_empty, mbuf_insert, split_last,
}
use wx_cache_proxy.Buffer.Content.{
  unread, content, total, content-append, content_one, drop-append, IsValid, AreValid,
  AreValid-append,
}
use wx_cache_proxy.Buffer.Message.{Message, msg_ensure_mbuf, copy_last, msg_append}
use wx_cache_proxy.Buffer.Append.{msg_append-content}
use wx_cache_proxy.Parser.Slice.{take-within}
use wx_cache_proxy.Redis.Bulk.{skip_empty, steal, append_part, split_part, copy_bytes}

-- A queue of which the first `len` bytes have been read, whole buffers being taken off.
abbrev pub advance : ℕ → List Mbuf → List Mbuf
advance len [] = []
advance len (m ∷ h) =
    let rest = advance (len - mbuf_length m) h in
    if leb (mbuf_length m) len then rest else record m { pos = m.pos + len } ∷ h

ensure-some :
    (offset : ℕ) (h : List Mbuf) (n : ℕ)
    → (g : List Mbuf) × (msg_ensure_mbuf offset h n true ≡ some g)
unfolding msg_ensure_mbuf mbuf_get
ensure-some offset h n = elim (Option-cases (split_last h)) [
  | inl e ↦ (mbuf_insert h fresh, rw (e, msg_ensure_mbuf) refl)
  | inr ((front, m), e) ↦ elim (Bool-cases (ltb (mbuf_size offset m) n)) [
    | inl t ↦ (mbuf_insert h fresh, rw (e, t, msg_ensure_mbuf) refl)
    | inr t ↦ (h, rw (e, t, msg_ensure_mbuf) refl)
  ]
]

-- What is copied does not depend on the length that is counted.
copy_last-mlen :
    (d : Message) (n : ℕ) (h : List Mbuf) (part : List ℕ)
    → (copy_last d h part).mhdr ≡ (copy_last (record d { mlen = n }) h part).mhdr
unfolding copy_last
copy_last-mlen d n h part = elim (Option-cases (split_last h)) [
  | inl e ↦ rw (e, copy_last) refl
  | inr (f, e) ↦ rw (e, copy_last) refl
]

module _ (offset : ℕ) (small : offset < 2 ^ 32) where
  -- A message whose buffers are valid and hold `bytes`.
  abbrev pub Holds : List Mbuf → List ℕ → Type 0
  Holds h bytes = AreValid offset h × (content h ≡ bytes)

  mbuf_length-unread : (m : Mbuf) → IsValid offset m → mbuf_length m ≡ length (unread m)
  unfolding mbuf_length
  mbuf_length-unread m v = omega (arith, length-drop m.pos m.bytes, v.ordered, v.within)

  append-Holds :
      (d : Message) (part : List ℕ)
      → AreValid offset d.mhdr
      → length part ≤ offset
      → (d' : Message) × (msg_append offset d part true ≡ (nc_ok, d'))
        × Holds d'.mhdr (content d.mhdr ++ part)
  unfolding msg_append
  append-Holds d part v l =
      let (h, e) = ensure-some offset d.mhdr (length part) in
      let n = total d.mhdr % 2 ^ 32 in
      let d0 = record d { mlen = n } in
      let ok : msg_append offset d0 part true ≡ (nc_ok, copy_last d0 h part) =
        rw (e, msg_append) refl in
      let (s, c) =
        msg_append-content offset small d0 part true (record { buffers = v; measured = refl }) l
          ok in
      let same = sym (copy_last-mlen d n h part) in
      (
        copy_last d h part,
        rw (e, msg_append) refl,
        (
          subst (AreValid offset) same s.buffers,
          subst (λ g. content g ≡ content d.mhdr ++ part) same c,
        ),
      )

  pub skip_empty-Holds : (h : List Mbuf) → AreValid offset h → Holds (skip_empty h) (content h)
  unfolding skip_empty content mbuf_empty
  skip_empty-Holds [] v = (tt, refl)
  skip_empty-Holds (m ∷ h) v = elim (Bool-cases (mbuf_empty m)) [
    | inl e ↦
        let (w, c) = skip_empty-Holds h v.1 in
        let nothing : unread m ≡ [] = drop-all m.pos m.bytes (ground arith) in
        rw (e, skip_empty) (w, c ∙ ap (λ l. l ++ content h) (sym nothing))
    | inr e ↦ rw (e, skip_empty) (v, refl)
  ]

  -- The outcome of a copy of `len` bytes from `q` to the end of `d`.
  abbrev pub Copied : ℕ → List Mbuf → Message → Status × Option Message × List Mbuf → Type 0
  Copied len q d out =
      (d' : Message) × (out ≡ (nc_ok, some d', advance len q))
      × Holds d'.mhdr (content d.mhdr ++ take len (content q))

  pub copy_bytes-Copied :
      (len : ℕ) (q : List Mbuf) (d : Message)
      → AreValid offset q
      → AreValid offset d.mhdr
      → Copied len q d (copy_bytes offset true len q (some d))
  unfolding copy_bytes content steal mbuf_insert append_part split_part
  copy_bytes-Copied len [] d v w =
      (d, refl, (w, sym (ap (◌++◌ (content d.mhdr)) (take-nil len) ∙ append-nil (content d.mhdr))))
  copy_bytes-Copied len (m ∷ h) d v w = elim (Bool-cases (leb (mbuf_length m) len)) [
    | inl e ↦
        let le : length (unread m) ≤ len = ground (arith, mbuf_length-unread m v.0) in
        let (d', out, (valid, c)) =
          copy_bytes-Copied (len - mbuf_length m) h (record d { mhdr = mbuf_insert d.mhdr m }) v.1
            (AreValid-append offset d.mhdr (m ∷ []) w (v.0, tt)) in
        rw e (
          d',
          out,
          (
            valid,
            c
                ∙ ap (λ l. l ++ take (len - mbuf_length m) (content h))
                    (content-append d.mhdr (m ∷ []) ∙ ap (◌++◌ (content d.mhdr)) (content_one m))
                ∙ append_assoc (content d.mhdr) (unread m) (take (len - mbuf_length m) (content h))
                ∙ ap (λ k. content d.mhdr ++ (unread m ++ take (len - k) (content h)))
                    (mbuf_length-unread m v.0)
                ∙ ap (◌++◌ (content d.mhdr)) (sym (take-past len (unread m) (content h) le)),
          ),
        )
    | inr e ↦
        let le : len ≤ length (unread m) = ground (arith, mbuf_length-unread m v.0) in
        let (d', ok, (valid, c)) =
          append-Holds d (take len (unread m)) w
            (omega (arith, length-take len (unread m), length-drop m.pos m.bytes, (v.0).within)) in
        rw e (
          d',
          ap (λ o. split_part offset true len m h (let (s, x) = o in (s, some x))) ok,
          (valid, c ∙ ap (◌++◌ (content d.mhdr)) (sym (take-within len (unread m) (content h) le))),
        )
  ]

  pub advance-Holds :
      (len : ℕ) (q : List Mbuf) → AreValid offset q → Holds (advance len q) (drop len (content q))
  unfolding content
  advance-Holds len [] v = (tt, sym (drop-nil len))
  advance-Holds len (m ∷ h) v = elim (Bool-cases (leb (mbuf_length m) len)) [
    | inl e ↦
        let le : length (unread m) ≤ len = ground (arith, mbuf_length-unread m v.0) in
        let (valid, c) = advance-Holds (len - mbuf_length m) h v.1 in
        rw e (
          valid,
          c
              ∙ ap (λ k. drop (len - k) (content h)) (mbuf_length-unread m v.0)
              ∙ sym (drop-past len (unread m) (content h) le),
        )
    | inr e ↦
        let le : len ≤ length (unread m) = ground (arith, mbuf_length-unread m v.0) in
        rw e (
          (
            record {
              ordered = omega (arith, length-drop m.pos m.bytes, (v.0).ordered);
              within = (v.0).within;
            },
            v.1,
          ),
          ap (λ l. l ++ content h) (sym (drop-drop m.pos len m.bytes))
              ∙ sym (drop-append len (unread m) (content h) le),
        )
  ]
