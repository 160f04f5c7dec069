-- ===== src/Buffer/Send/Gather.antt =====
-- nc_message.c: the loops of `msg_send_chain` before the system call.
use wx_cache_proxy.Base.{
  ℕ, ◌+◌, ◌^◌, ◌≤◌, ◌<◌, ◌≡◌, refl, sym, ap, ◌∙◌, true, false, not, ◌||◌, List, [], ◌∷◌, ◌++◌,
  arith, leb, length, length-append, take, drop, take-append-drop, length-take, All, Bool-cases,
  inl, inr,
}
use mathlib.Core.List.{append_assoc, append-nil}
use wx_cache_proxy.Buffer.Mbuf.{Mbuf, mbuf_empty}
use wx_cache_proxy.Buffer.Content.{unread, content, IsValid, AreValid}
use wx_cache_proxy.Buffer.Message.{Message}
use wx_cache_proxy.Buffer.Send.{
  Vector, nc_iov_max, ssize_max, has_space, entry_length, push_entry, gather, gather_all,
}
use wx_cache_proxy.Buffer.Send.Settle.{contents, mbuf_length-unread, empty-unread, drop_all}

-- The bytes of a vector in the order in which they are written.
abbrev pub joined : List (List ℕ) → List ℕ
joined [] = []
joined (e ∷ older) = joined older ++ e

-- The vector holds `nsend` bytes, within both limits.
pub record IsWithin (v : Vector) : Type 0 where
  pub counted : v.nsend ≡ length (joined v.entries)
  pub entries : v.n ≡ length v.entries
  pub few : v.n ≤ nc_iov_max
  pub short : v.nsend ≤ ssize_max

-- `v'` goes on where `v` ended, with the first bytes of `bytes`; `rest` are the others, and they
-- are none unless a limit was met.
pub record Extends (v v' : Vector) (bytes rest : List ℕ) : Type 0 where
  pub prefix : joined v'.entries ++ rest ≡ joined v.entries ++ bytes
  pub complete : has_space v' ≡ true → rest ≡ []
  pub within : IsWithin v'

module _ (offset : ℕ) (small : offset < 2 ^ 32) where
  -- How long an entry is.
  record Fits (v : Vector) (m : Mbuf) (k : ℕ) : Type 0 where
    short : v.nsend + k ≤ ssize_max
    part : k ≤ length (unread m)
    all : v.nsend + k < ssize_max → k ≡ length (unread m)

  entry_length-Fits :
      (v : Vector) (m : Mbuf) → IsWithin v → IsValid offset m → Fits v m (entry_length v m)
  unfolding entry_length
  entry_length-Fits v m w i =
      let e = mbuf_length-unread offset small m i in
      let s = w.short in
      record { short = ground arith; part = ground arith; all = λ h. ground arith }

  push-Extends :
      (v : Vector) (m : Mbuf)
      → IsWithin v
      → IsValid offset m
      → has_space v ≡ true
      → Extends v (push_entry v m) (unread m) (drop (entry_length v m) (unread m))
  unfolding push_entry has_space
  push-Extends v m w i s =
      let k = entry_length v m in
      let f = entry_length-Fits v m w i in
      let size = length-take k (unread m) in
      record {
        prefix =
            append_assoc (joined v.entries) (take k (unread m)) (drop k (unread m))
            ∙ ap (◌++◌ (joined v.entries)) (take-append-drop k (unread m));
        complete = λ h. drop_all k (unread m) (omega (arith, f.all (ground arith)));
        within = record {
          counted = omega (
            arith,
            w.counted,
            f.part,
            size,
            length-append (joined v.entries) (take k (unread m)),
          );
          entries = omega (arith, w.entries);
          few = ground arith;
          short = f.short;
        };
      }

  gather_full : (h : List Mbuf) (v : Vector) → has_space v ≡ false → gather h v ≡ v
  unfolding gather
  gather_full [] v e = refl
  gather_full (m ∷ h) v e = rw (e, gather)

  -- An extension that met a limit stays as it is, and what follows is left over too.
  stopped :
      {v v' : Vector} {bytes rest : List ℕ} (more : List ℕ)
      → Extends v v' bytes rest
      → has_space v' ≡ false
      → Extends v v' (bytes ++ more) (rest ++ more)
  stopped {v} {v'} {bytes} {rest} more x e = record {
    prefix =
        sym (append_assoc (joined v'.entries) rest more)
        ∙ ap (λ l. l ++ more) x.prefix
        ∙ append_assoc (joined v.entries) bytes more;
    complete = λ h. cc;
    within = x.within;
  }

  joined_up :
      {v v' w : Vector} {bytes rest more left : List ℕ}
      → Extends v v' bytes rest
      → rest ≡ []
      → Extends v' w more left
      → Extends v w (bytes ++ more) left
  joined_up {v} {v'} {w} {bytes} {rest} {more} {left} x e y = record {
    prefix =
        y.prefix
        ∙ ap (λ l. l ++ more)
            (sym (append-nil (joined v'.entries))
              ∙ ap (◌++◌ (joined v'.entries)) (sym e)
              ∙ x.prefix)
        ∙ append_assoc (joined v.entries) bytes more;
    complete = y.complete;
    within = y.within;
  }

  compose :
      (h : List Mbuf) {v v' : Vector} {bytes rest more : List ℕ}
      → Extends v v' bytes rest
      → ((left : List ℕ) × Extends v' (gather h v') more left)
      → (left : List ℕ) × Extends v (gather h v') (bytes ++ more) left
  compose h {v} {v'} {bytes} {rest} {more} x (left, y) = elim (Bool-cases (has_space v')) [
    | inl space ↦ (left, joined_up x (x.complete space) y)
    | inr full ↦ (rest ++ more, rw (gather_full h v' full) (stopped more x full))
  ]

  -- The buffers of one message extend a vector by their content, as far as the limits allow.
  gather-Extends :
      (h : List Mbuf) (v : Vector)
      → IsWithin v
      → AreValid offset h
      → (rest : List ℕ) × Extends v (gather h v) (content h) rest
  unfolding gather content
  gather-Extends [] v w a = ([], record { prefix = refl; complete = λ h. refl; within = w })
  gather-Extends (m ∷ h) v w a = elim (Bool-cases (has_space v)) [
    | inr full ↦
        rw (full, gather)
          (content (m ∷ h), record { prefix = refl; complete = λ e. cc; within = w })
    | inl space ↦ elim (Bool-cases (mbuf_empty m)) [
      | inl e ↦
          rw (space, gather)
            (rw (e) (rw (empty-unread offset small m e) (gather-Extends h v w a.1)))
      | inr e ↦
          let one = push-Extends v m w a.0 space in
          rw (space, gather)
            (rw (e) (compose h one (gather-Extends h (push_entry v m) one.within a.1)))
    ]
  ]

  full_of_test : (v : Vector) → (leb nc_iov_max v.n || leb ssize_max v.nsend) ≡ not (has_space v)
  unfolding has_space
  full_of_test v = ground arith

  -- `msg_send_chain` takes a prefix of the messages at hand and hands over a vector that goes on,
  -- from one within the limits on entries and bytes, with the first bytes of their content, in
  -- order, and stays within the limits; with all of their content, if neither limit was met. The
  -- buffers are valid and shorter than 2^32.
  pub gather_all-Extends :
      (msgs : List Message) (v : Vector)
      → IsWithin v
      → All (λ msg. AreValid offset msg.mhdr) msgs
      → let (taken, out) = gather_all msgs v in
        ((others : List Message) × (msgs ≡ taken ++ others))
        × ((rest : List ℕ) × Extends v out (contents taken) rest)
  unfolding gather_all
  gather_all-Extends [] v w a =
      (([], refl), ([], record { prefix = refl; complete = λ h. refl; within = w }))
  gather_all-Extends (msg ∷ msgs) v w a =
      let v' = gather msg.mhdr v in
      let (rest, one) = gather-Extends msg.mhdr v w a.0 in
      elim (Bool-cases (has_space v')) [
        | inl space ↦
            let test : (leb nc_iov_max v'.n || leb ssize_max v'.nsend) ≡ false =
              full_of_test v' ∙ ap not space in
            let ((others, split), (left, more)) = gather_all-Extends msgs v' one.within a.1 in
            rw (test, gather_all)
              ((others, ap (◌∷◌ msg) split), (left, joined_up one (one.complete space) more))
        | inr full ↦
            let test : (leb nc_iov_max v'.n || leb ssize_max v'.nsend) ≡ true =
              full_of_test v' ∙ ap not full in
            rw (test, gather_all) ((msgs, refl), (rest ++ [], stopped [] one full))
      ]
