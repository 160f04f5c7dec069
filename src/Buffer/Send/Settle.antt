-- ===== src/Buffer/Send/Settle.antt =====
-- nc_message.c: the loops of `msg_send_chain` after the system call.
use wx_cache_proxy.Base.{
  ℕ, zero, suc, ◌+◌, ◌-◌, ◌^◌, ◌≤◌, ◌<◌, ◌≡◌, refl, sym, ap, ◌∙◌, Bool, true, false, List, [], ◌∷◌,
  ◌++◌, arith, ltb, ◌==◌, length, length-append, drop, length-drop, All, Bool-cases, inl, inr,
}
use wx_cache_proxy.Buffer.Mbuf.{Mbuf, last, mbuf_empty, mbuf_length}
use wx_cache_proxy.Buffer.Content.{unread, content, total, IsValid, AreValid, drop-append}
use wx_cache_proxy.Buffer.Message.{Message}
use wx_cache_proxy.Buffer.Send.{adjust, settle_one, settle}

pub drop_all : (n : ℕ) (xs : List ℕ) → length xs ≤ n → drop n xs ≡ []
drop_all zero [] h = refl
drop_all zero (x ∷ xs) h = absurd (omega arith)
drop_all (suc n) [] h = refl
drop_all (suc n) (x ∷ xs) h = drop_all n xs (omega arith)

drop_past : (n : ℕ) (xs ys : List ℕ) → length xs ≤ n → drop n (xs ++ ys) ≡ drop (n - length xs) ys
drop_past n [] ys h = ap (λ k. drop k ys) (omega arith)
drop_past zero (x ∷ xs) ys h = absurd (omega arith)
drop_past (suc n) (x ∷ xs) ys h =
    drop_past n xs ys (omega arith) ∙ ap (λ k. drop k ys) (omega arith)

drop-append_any :
    (n : ℕ) (xs ys : List ℕ) → drop n (xs ++ ys) ≡ drop n xs ++ drop (n - length xs) ys
drop-append_any zero xs ys = let e : 0 ≡ 0 - length xs = omega arith in ap (λ k. xs ++ drop k ys) e
drop-append_any (suc n) [] ys = let e : suc n ≡ suc n - 0 = omega arith in ap (λ k. drop k ys) e
drop-append_any (suc n) (x ∷ xs) ys =
    let e : n - length xs ≡ suc n - suc (length xs) = omega arith in
    drop-append_any n xs ys ∙ ap (λ k. drop n xs ++ drop k ys) e

drop_more : (i n : ℕ) (xs : List ℕ) → drop (i + n) xs ≡ drop n (drop i xs)
drop_more zero n xs = let e : 0 + n ≡ n = omega arith in ap (λ k. drop k xs) e
drop_more (suc i) n [] = drop_all (suc i + n) [] (omega arith) ∙ sym (drop_all n [] (omega arith))
drop_more (suc i) n (x ∷ xs) =
    let e : suc i + n ≡ suc (i + n) = omega arith in ap (λ k. drop k (x ∷ xs)) e ∙ drop_more i n xs

module _ (offset : ℕ) (small : offset < 2 ^ 32) where
  pub mbuf_length-unread : (m : Mbuf) → IsValid offset m → mbuf_length m ≡ length (unread m)
  unfolding mbuf_length
  mbuf_length-unread m v = omega (arith, v.ordered, v.within, length-drop m.pos m.bytes)

  pub empty-unread : (m : Mbuf) → mbuf_empty m ≡ true → unread m ≡ []
  unfolding mbuf_empty
  empty-unread m e = drop_all m.pos m.bytes (ground arith)

  -- What the adjustment of one message promises.
  record Adjusts (h : List Mbuf) (nsent : ℕ) (r : List Mbuf × ℕ × Bool) : Type 0 where
    bytes : content r.0 ≡ drop nsent (content h)
    left : r.1 ≡ nsent - length (content h)
    done : r.2 ≡ true → length (content h) ≤ nsent
    undone : r.2 ≡ false → nsent < length (content h)

  skipped :
      (m : Mbuf) (h : List Mbuf) (nsent : ℕ) {r : List Mbuf × ℕ × Bool}
      → unread m ≡ []
      → Adjusts h nsent r
      → Adjusts (m ∷ h) nsent (m ∷ r.0, r.1, r.2)
  unfolding content
  skipped m h nsent {r} e a = record {
    bytes = rw e a.bytes;
    left = rw e a.left;
    done = λ d. rw e (a.done d);
    undone = λ d. rw e (a.undone d);
  }

  partial :
      (m : Mbuf) (h : List Mbuf) (nsent : ℕ)
      → IsValid offset m
      → nsent < mbuf_length m
      → Adjusts (m ∷ h) nsent (record m { pos = m.pos + nsent } ∷ h, 0, false)
  unfolding content
  partial m h nsent v l =
      let short : nsent < length (unread m) = omega (arith, mbuf_length-unread m v) in
      record {
        bytes =
            ap (λ l. l ++ content h) (drop_more m.pos nsent m.bytes)
            ∙ sym (drop-append nsent (unread m) (content h) (omega arith));
        left = omega (arith, length-append (unread m) (content h));
        done = λ d. cc;
        undone = λ d. omega (arith, length-append (unread m) (content h));
      }

  finished :
      (m : Mbuf) (h : List Mbuf) (nsent : ℕ) {r : List Mbuf × ℕ × Bool}
      → IsValid offset m
      → mbuf_length m ≤ nsent
      → Adjusts h (nsent - mbuf_length m) r
      → Adjusts (m ∷ h) nsent (record m { pos = last m } ∷ r.0, r.1, r.2)
  unfolding content
  finished m h nsent {r} v l a =
      let size = mbuf_length-unread m v in
      let all = length-append (unread m) (content h) in
      record {
        bytes =
            ap (λ l. l ++ content r.0) (drop_all (last m) m.bytes (omega arith))
            ∙ a.bytes
            ∙ ap (λ k. drop (nsent - k) (content h)) size
            ∙ sym (drop_past nsent (unread m) (content h) (omega (arith, size)));
        left = omega (arith, a.left, size, all);
        done = λ d. omega (arith, a.done d, size, all);
        undone = λ d. omega (arith, a.undone d, size, all);
      }

  adjust-Adjusts :
      (h : List Mbuf) (nsent : ℕ) → AreValid offset h → Adjusts h nsent (adjust h nsent)
  unfolding adjust content
  adjust-Adjusts [] nsent v = record {
    bytes = sym (drop_all nsent [] (omega arith));
    left = omega arith;
    done = λ e. omega arith;
    undone = λ e. cc;
  }
  adjust-Adjusts (m ∷ h) nsent v = elim (Bool-cases (mbuf_empty m)) [
    | inl none_left ↦
        rw (none_left, adjust)
          (skipped m h nsent (empty-unread m none_left) (adjust-Adjusts h nsent v.1))
    | inr some_left ↦ elim (Bool-cases (ltb nsent (mbuf_length m))) [
      | inl short ↦ rw (some_left, adjust) (rw (short) (partial m h nsent v.0 (ground arith)))
      | inr enough ↦
          rw (some_left, adjust)
            (rw (enough) (
              finished m h nsent v.0 (ground arith) (adjust-Adjusts h (nsent - mbuf_length m) v.1)))
    ]
  ]

abbrev pub contents : List Message → List ℕ
contents [] = []
contents (msg ∷ rest) = content msg.mhdr ++ contents rest

abbrev pub remaining : List (Message × Bool) → List ℕ
remaining [] = []
remaining ((msg, done) ∷ rest) = content msg.mhdr ++ remaining rest

-- What becomes of one message: `send_done` is called only if no byte is left, and it is called if
-- the last of its bytes went out now.
pub record Settled (before after : Message) (done : Bool) : Type 0 where
  pub sent_if_done : done ≡ true → content after.mhdr ≡ []
  pub done_if_sent : 0 < length (content before.mhdr) → content after.mhdr ≡ [] → done ≡ true

abbrev pub AllSettled : List Message → List (Message × Bool) → Type 0
AllSettled [] [] = Unit
AllSettled [] (r ∷ rest) = ⊥
AllSettled (msg ∷ msgs) [] = ⊥
AllSettled (msg ∷ msgs) ((after, done) ∷ rest) = Settled msg after done × AllSettled msgs rest

length-content-le : (h : List Mbuf) → length (content h) ≤ total h
unfolding content total
length-content-le [] = omega arith
length-content-le (m ∷ h) =
    omega
      (arith, length-append (unread m) (content h), length-drop m.pos m.bytes, length-content-le h)

nil_of_length : (xs : List ℕ) → length xs ≤ 0 → xs ≡ []
nil_of_length [] h = refl
nil_of_length (x ∷ xs) h = absurd (omega arith)

-- What the second loop of `msg_send_chain` may rely on: sound buffers, and `mlen` their size.
pub record IsCounted (offset : ℕ) (msg : Message) : Type 0 where
  pub buffers : AreValid offset msg.mhdr
  pub counted : msg.mlen ≡ total msg.mhdr

module _ (offset : ℕ) (small : offset < 2 ^ 32) where
  record OneSettled (msg : Message) (nsent : ℕ) (r : Message × ℕ × Bool) : Type 0 where
    bytes : content r.0.mhdr ≡ drop nsent (content msg.mhdr)
    left : r.1 ≡ nsent - length (content msg.mhdr)
    settled : Settled msg r.0 r.2

  settle_one-zero :
      (msg : Message) → IsCounted offset msg → OneSettled msg 0 (msg, 0, msg.mlen == 0)
  settle_one-zero msg v = record {
    bytes = refl;
    left = omega arith;
    settled = record {
      sent_if_done = λ d.
          nil_of_length (content msg.mhdr) (ground (arith, length-content-le msg.mhdr, v.counted));
      done_if_sent = λ p e. absurd (omega (arith, ap length e));
    };
  }

  settle_one-some :
      (msg : Message) (nsent : ℕ)
      → IsCounted offset msg
      → let r = adjust msg.mhdr nsent in OneSettled msg nsent (record msg { mhdr = r.0 }, r.1, r.2)
  settle_one-some msg nsent v =
      let a = adjust-Adjusts offset small msg.mhdr nsent v.buffers in
      let r = adjust msg.mhdr nsent in
      record {
        bytes = a.bytes;
        left = a.left;
        settled = record {
          sent_if_done = λ d. a.bytes ∙ drop_all nsent (content msg.mhdr) (a.done d);
          done_if_sent = λ p e. elim (Bool-cases r.2) [
            | inl d ↦ d
            | inr d ↦ absurd (
                omega (
                  arith,
                  a.undone d,
                  ap length (sym a.bytes ∙ e),
                  length-drop nsent (content msg.mhdr),
                ))
          ];
        };
      }

  settle_one-OneSettled :
      (msg : Message) (nsent : ℕ)
      → IsCounted offset msg
      → OneSettled msg nsent (settle_one msg nsent)
  unfolding settle_one
  settle_one-OneSettled msg zero v = settle_one-zero msg v
  settle_one-OneSettled msg (suc n) v =
      let e : (suc n == 0) ≡ false = ground arith in
      rw (e, settle_one) (settle_one-some msg (suc n) v)

  -- After a write of `nsent` bytes the messages of `send_msgq` hold what they held before less the
  -- first `nsent` bytes, in order; `send_done` is called for a message only if none of its bytes is
  -- left, and it is called for each message that the write emptied. The buffers are valid and
  -- shorter than 2^32, and `mlen` is the sum of the bytes in them.
  pub settle-contents :
      (msgs : List Message) (nsent : ℕ)
      → All (IsCounted offset) msgs
      → (remaining (settle msgs nsent) ≡ drop nsent (contents msgs))
        × AllSettled msgs (settle msgs nsent)
  unfolding settle
  settle-contents [] nsent v = (sym (drop_all nsent [] (omega arith)), tt)
  settle-contents (msg ∷ msgs) nsent v =
      let one = settle_one-OneSettled msg nsent v.0 in
      let (rest, all) = settle-contents msgs (settle_one msg nsent).1 v.1 in
      (
        ap (◌++◌ (content (settle_one msg nsent).0.mhdr)) rest
            ∙ ap (λ l. l ++ drop (settle_one msg nsent).1 (contents msgs)) one.bytes
            ∙ ap (λ k. drop nsent (content msg.mhdr) ++ drop k (contents msgs)) one.left
            ∙ sym (drop-append_any nsent (content msg.mhdr) (contents msgs)),
        (one.settled, all),
      )
