-- ===== src/Buffer/Content.antt =====
-- The bytes that a queue of buffers still holds, and the buffers' representation invariant.
use wx_cache_proxy.Base.{
  ℕ, zero, suc, ◌+◌, ◌≤◌, ◌≡◌, refl, sym, ap, ◌∙◌, List, [], ◌∷◌, ◌++◌, none, some, arith,
  Option-cases, inl, inr, length, drop, length-append,
}
use mathlib.Core.List.{append_assoc, append-nil}
use wx_cache_proxy.Buffer.Mbuf.{Mbuf, last, split_last}

-- The unread bytes of a buffer, and of a queue.
abbrev pub unread : Mbuf → List ℕ
unread m = drop m.pos m.bytes

unfoldable pub content : List Mbuf → List ℕ
content [] = []
content (m ∷ h) = unread m ++ content h

-- All bytes of a queue, read or not: what `mlen` counts.
unfoldable pub total : List Mbuf → ℕ
total [] = 0
total (m ∷ h) = length m.bytes + total h

module _ (mbuf_offset : ℕ) where
  -- start ≤ pos ≤ last ≤ end
  pub record IsValid (m : Mbuf) : Type 0 where
    pub ordered : m.pos ≤ last m
    pub within : last m ≤ mbuf_offset

  abbrev pub AreValid : List Mbuf → Type 0
  AreValid [] = Unit
  AreValid (m ∷ h) = IsValid m × AreValid h

pub drop-append : (n : ℕ) (xs ys : List ℕ) → n ≤ length xs → drop n (xs ++ ys) ≡ drop n xs ++ ys
drop-append zero xs ys h = refl
drop-append (suc n) [] ys h = absurd (omega arith)
drop-append (suc n) (x ∷ xs) ys h = drop-append n xs ys (omega arith)

pub content-append : (g h : List Mbuf) → content (g ++ h) ≡ content g ++ content h
unfolding content
content-append [] h = refl
content-append (m ∷ g) h =
    ap (◌++◌ (unread m)) (content-append g h)
    ∙ sym (append_assoc (unread m) (content g) (content h))

pub content_one : (m : Mbuf) → content (m ∷ []) ≡ unread m
unfolding content
content_one m = append-nil (unread m)

pub total-append : (g h : List Mbuf) → total (g ++ h) ≡ total g + total h
unfolding total
total-append [] h = omega arith
total-append (m ∷ g) h = omega (arith, total-append g h)

pub split_last-none : (h : List Mbuf) → split_last h ≡ none → h ≡ []
unfolding split_last
split_last-none [] e = refl
split_last-none (x ∷ h) e = ground arith

pub split_last-append :
    (h front : List Mbuf) (m : Mbuf) → split_last h ≡ some (front, m) → h ≡ front ++ m ∷ []
unfolding split_last
split_last-append [] front m e = cc
split_last-append (x ∷ h) front m e = elim (Option-cases (split_last h)) [
  | inl n ↦ ground (arith, split_last-none h n)
  | inr ((g, l), q) ↦ ground (arith, split_last-append h g l q)
]

pub split_last-snoc :
    (front : List Mbuf) (m : Mbuf) → split_last (front ++ m ∷ []) ≡ some (front, m)
unfolding split_last
split_last-snoc [] m = refl
split_last-snoc (x ∷ front) m = rw (split_last-snoc front m, split_last)

module _ (offset : ℕ) where
  pub AreValid-append :
      (g h : List Mbuf) → AreValid offset g → AreValid offset h → AreValid offset (g ++ h)
  AreValid-append [] h v w = w
  AreValid-append (m ∷ g) h v w = (v.0, AreValid-append g h v.1 w)

  pub AreValid-front : (g h : List Mbuf) → AreValid offset (g ++ h) → AreValid offset g
  AreValid-front [] h v = tt
  AreValid-front (m ∷ g) h v = (v.0, AreValid-front g h v.1)

  pub AreValid-last : (g : List Mbuf) (m : Mbuf) → AreValid offset (g ++ m ∷ []) → IsValid offset m
  AreValid-last [] m v = v.0
  AreValid-last (x ∷ g) m v = AreValid-last g m v.1

-- Writing at the end of the last buffer writes at the end of the content.
pub content-extend :
    (offset : ℕ) (front : List Mbuf) (m : Mbuf) (source : List ℕ)
    → IsValid offset m
    → content (front ++ record m { bytes = m.bytes ++ source } ∷ [])
      ≡ content (front ++ m ∷ []) ++ source
content-extend offset front m source v =
    let m' : Mbuf = record m { bytes = m.bytes ++ source } in
    content-append front (m' ∷ [])
    ∙ ap (◌++◌ (content front)) (
        content_one m'
        ∙ drop-append m.pos m.bytes source v.ordered
        ∙ ap (λ l. l ++ source) (sym (content_one m)))
    ∙ sym (append_assoc (content front) (content (m ∷ [])) source)
    ∙ ap (λ l. l ++ source) (sym (content-append front (m ∷ [])))

pub total-extend :
    (front : List Mbuf) (m : Mbuf) (source : List ℕ)
    → total (front ++ record m { bytes = m.bytes ++ source } ∷ [])
      ≡ total (front ++ m ∷ []) + length source
unfolding total
total-extend front m source =
    let m' : Mbuf = record m { bytes = m.bytes ++ source } in
    omega (
      arith,
      total-append front (m' ∷ []),
      total-append front (m ∷ []),
      length-append m.bytes source,
    )
