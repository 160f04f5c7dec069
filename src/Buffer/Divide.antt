-- ===== src/Buffer/Divide.antt =====
-- nc_message.c: the cut of a message by `msg_parsed`.
use wx_cache_proxy.Base.{
  ℕ, zero, suc, ◌+◌, ◌-◌, ◌%◌, ◌^◌, ◌≤◌, ◌<◌, ◌≡◌, refl, sym, ap, ◌∙◌, subst, true, false, List, [],
  ◌∷◌, ◌++◌, ◌⊎◌, ◌≢◌, some, arith, ◌==◌, length, take, drop, take-append-drop, length-take,
  length-drop, Bool-cases, inl, inr,
}
use mathlib.Core.List.{append_assoc}
use wx_cache_proxy.Buffer.Mbuf.{
  Mbuf, last, fresh, mbuf_get, mbuf_split, mbuf_length, mbuf_insert, split_last,
}
use wx_cache_proxy.Buffer.Content.{
  content, total, content-append, total-append, content_one, IsValid, AreValid, AreValid-append,
  AreValid-front, AreValid-last, split_last-snoc,
}
use wx_cache_proxy.Buffer.Message.{Message, whole, divided, msg_parsed}
use wx_cache_proxy.Buffer.Append.{IsSound, mbuf_copy_lem}

-- The parser has stopped inside the last buffer, behind what was read of it.
pub record IsParsedTo (msg : Message) (front : List Mbuf) (m : Mbuf) : Type 0 where
  pub shape : msg.mhdr ≡ front ++ m ∷ []
  pub after_read : m.pos ≤ msg.pos
  pub within : msg.pos ≤ last m

ne_of_test : (a b : ℕ) → (a == b) ≡ false → a ≢ b
ne_of_test a b h = ground arith

total_one : (m : Mbuf) → total (m ∷ []) ≡ length m.bytes
unfolding total
total_one m = omega arith

drop-take : (i n : ℕ) (xs : List ℕ) → i ≤ n → drop i (take n xs) ++ drop n xs ≡ drop i xs
drop-take zero n xs h = take-append-drop n xs
drop-take (suc i) zero xs h = absurd (omega arith)
drop-take (suc i) (suc n) [] h = refl
drop-take (suc i) (suc n) (x ∷ xs) h = drop-take i n xs (omega arith)

abbrev cut : Mbuf → ℕ → Mbuf
cut m n = record m { bytes = take n m.bytes }

abbrev rest_of : Mbuf → ℕ → Mbuf
rest_of m n = record { bytes = drop n m.bytes; pos = 0 }

module _ (front : List Mbuf) (m : Mbuf) (n : ℕ) where
  mbuf_split_lem :
      {h : List Mbuf}
      → h ≡ front ++ m ∷ []
      → mbuf_split h n (λ b. b) true ≡ some (front ++ cut m n ∷ [], rest_of m n)
  unfolding mbuf_split mbuf_get
  mbuf_split_lem e =
      let q : split_last _ ≡ some (front, m) = ap split_last e ∙ split_last-snoc front m in
      rw (q, mbuf_split)
        (ap (λ b. some (front ++ cut m n ∷ [], b)) (mbuf_copy_lem fresh (drop n m.bytes)))

  content-cut :
      m.pos ≤ n → content (front ++ m ∷ []) ≡ content (front ++ cut m n ∷ []) ++ drop n m.bytes
  content-cut h =
      content-append front (m ∷ [])
      ∙ ap (◌++◌ (content front)) (
          content_one m
          ∙ sym (drop-take m.pos n m.bytes h)
          ∙ ap (λ l. l ++ drop n m.bytes) (sym (content_one (cut m n))))
      ∙ sym (append_assoc (content front) (content (cut m n ∷ [])) (drop n m.bytes))
      ∙ ap (λ l. l ++ drop n m.bytes) (sym (content-append front (cut m n ∷ [])))

  total-cut :
      n ≤ length m.bytes
      → total (front ++ cut m n ∷ []) + length (drop n m.bytes) ≡ total (front ++ m ∷ [])
  unfolding total
  total-cut h = omega (
    arith,
    total-append front (cut m n ∷ []),
    total-append front (m ∷ []),
    length-take n m.bytes,
    length-drop n m.bytes,
  )

-- What a division of a message must give: nothing is lost, reordered or counted twice, the second
-- part starts with the first byte that was not parsed, and it is not empty.
pub record Divides (offset : ℕ) (msg : Message) (m : Mbuf) (a b : Message) : Type 0 where
  pub bytes : content msg.mhdr ≡ content a.mhdr ++ content b.mhdr
  pub unparsed : content b.mhdr ≡ drop msg.pos m.bytes
  pub more : 0 < length (content b.mhdr)
  pub first : IsSound offset a
  pub second : IsSound offset b
  pub lengths : (a.mlen + b.mlen) % 2 ^ 32 ≡ msg.mlen
  pub start : b.pos ≡ 0

module _ (offset : ℕ) (small : offset < 2 ^ 32) where
  AreValid-cut :
      (front : List Mbuf) (m : Mbuf) (n : ℕ)
      → AreValid offset (front ++ m ∷ [])
      → m.pos ≤ n
      → n ≤ length m.bytes
      → AreValid offset (front ++ cut m n ∷ []) × IsValid offset (rest_of m n)
  AreValid-cut front m n v h l =
      let here = AreValid-last offset front m v in
      (
        AreValid-append offset front (cut m n ∷ []) (AreValid-front offset front (m ∷ []) v) (
          record {
            ordered = omega (arith, length-take n m.bytes);
            within = omega (arith, here.within, length-take n m.bytes);
          },
          tt,
        ),
        record {
          ordered = omega arith;
          within = omega (arith, here.within, length-drop n m.bytes);
        },
      )

  divided_lem :
      (msg : Message) (front : List Mbuf) (m : Mbuf)
      → IsSound offset msg
      → IsParsedTo msg front m
      → msg.pos < last m
      → let n = rest_of m msg.pos in
        Divides offset msg m
          (record msg {
            mhdr = front ++ cut m msg.pos ∷ [];
            mlen = (msg.mlen + 2 ^ 32 - mbuf_length n) % 2 ^ 32;
          })
          (record { mhdr = mbuf_insert [] n; mlen = mbuf_length n; pos = n.pos })
  unfolding mbuf_insert mbuf_length
  divided_lem msg front m s p more =
      let n = msg.pos in
      let v =
        AreValid-cut front m n (subst (AreValid offset) p.shape s.buffers) p.after_read p.within in
      let held = content_one (rest_of m n) in
      let count = length-drop n m.bytes in
      let whole_is = ap total p.shape ∙ sym (total-cut front m n p.within) in
      let one = total_one (rest_of m n) in
      record {
        bytes =
            ap content p.shape
            ∙ content-cut front m n p.after_read
            ∙ ap (◌++◌ (content (front ++ cut m n ∷ []))) (sym held);
        unparsed = held;
        more = rw held (omega (arith, count));
        first = record { buffers = v.0; measured = omega (arith, s.measured, whole_is) };
        second = record { buffers = (v.1, tt); measured = omega (arith, one) };
        lengths = omega (arith, s.measured, whole_is);
        start = refl;
      }

  -- `msg_parsed`, with memory at hand, hands the message on unchanged if the parser stopped at its
  -- end; where the parser stopped before, it divides the message in two sound ones that hold its
  -- bytes in order, the second the unparsed ones, of which there are some, with `pos` at the start.
  -- The message is sound, the parser stopped in the last buffer behind what was read of it, and
  -- buffers are shorter than 2^32.
  pub msg_parsed-Divides :
      (msg : Message) (front : List Mbuf) (m : Mbuf)
      → IsSound offset msg
      → IsParsedTo msg front m
      → ((msg.pos ≡ last m) × (msg_parsed msg true true ≡ whole msg))
        ⊎ ((a : Message) × (b : Message) × (msg_parsed msg true true ≡ divided a b)
            × Divides offset msg m a b)
  unfolding msg_parsed
  msg_parsed-Divides msg front m s p =
      let q : split_last msg.mhdr ≡ some (front, m) =
        ap split_last p.shape ∙ split_last-snoc front m in
      elim (Bool-cases (msg.pos == last m)) [
        | inl done ↦ inl (ground arith, rw (q, msg_parsed) (rw (done)))
        | inr more ↦ inr (
          _,
          _,
          rw (q, msg_parsed) (rw (more) (rw (mbuf_split_lem front m msg.pos p.shape) refl)),
          divided_lem msg front m s p (omega (arith, p.within, ne_of_test _ _ more)),
        )
      ]
