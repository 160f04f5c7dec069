-- ===== src/Hash/Jenkins/Whole.antt =====
-- nc_jenkins.c: the hash of a key depends on its bytes alone.
use wx_cache_proxy.Base.{
  ℕ, zero, suc, ◌+◌, ◌-◌, ◌*◌, ◌%◌, ◌^◌, ◌≤◌, ◌<◌, ◌≡◌, refl, sym, ap, ap₂, ◌∙◌, List, [], ◌∷◌,
  ◌++◌, ltb, ◌==◌, if◌then◌else◌, drop, length, All, arith, Bool-cases, inl, inr,
}
use wx_cache_proxy.Hash.Jenkins.{
  Abc, mix, final, at8, block8, add_a, add_b, add_c, add_byte, tail8, Reader, last_block, blocks,
  reader8, reader_at, jenkins_start, hash_jenkins,
}
use wx_cache_proxy.Hash.Jenkins.Aligned.{
  AreBytes, block32-bytes, block16-bytes, tail32-bytes, tail16-bytes,
}

at8-drop : (n i : ℕ) (k : List ℕ) → at8 (drop n k) i ≡ at8 k (n + i)
at8-drop zero i k = let e : i ≡ 0 + i = omega arith in ap (at8 k) e
at8-drop (suc n) i [] = refl
at8-drop (suc n) i (x ∷ k) =
    let e : suc (n + i) ≡ suc n + i = omega arith in at8-drop n i k ∙ ap (at8 (x ∷ k)) e

at8-append : (k more : List ℕ) (i : ℕ) → i < length k → at8 (k ++ more) i ≡ at8 k i
at8-append [] more i l = absurd (omega arith)
at8-append (x ∷ k) more zero l = refl
at8-append (x ∷ k) more (suc i) l = at8-append k more i (omega arith)

AreBytes-of_All : (k : List ℕ) → All (λ ch. ch < 256) k → AreBytes k
AreBytes-of_All [] h i = omega arith
AreBytes-of_All (x ∷ k) h zero = h.0
AreBytes-of_All (x ∷ k) h (suc i) = AreBytes-of_All k h.1 i

drop-AreBytes : (n : ℕ) (k : List ℕ) → AreBytes k → AreBytes (drop n k)
drop-AreBytes n k bytes i = omega (arith, at8-drop n i k, bytes (n + i))

-- A reader that adds the same as bytes one by one do.
record IsBytewise (reader : Reader) : Type 0 where
  block : (k : List ℕ) (s : Abc) → reader.block k s ≡ block8 k s
  tail : (k : List ℕ) → AreBytes k → (s : Abc) (n : ℕ) → n ≤ 12 → reader.tail n k s ≡ tail8 n k s

reader_at-IsBytewise : (address : ℕ) → IsBytewise (reader_at address)
unfolding reader_at
reader_at-IsBytewise address = elim (Bool-cases (address % 4 == 0)) [
  | inl e ↦ rw (reader_at, e) (record { block = block32-bytes; tail = tail32-bytes })
  | inr e ↦ elim (Bool-cases (address % 2 == 0)) [
    | inl d ↦ rw (reader_at, e, d) (record { block = block16-bytes; tail = tail16-bytes })
    | inr d ↦ rw (reader_at, e, d) (record { block = λ k s. refl; tail = λ k bytes s n l. refl })
  ]
]

module _ (reader : Reader) (same : IsBytewise reader) where
  last_block-bytes :
      (n : ℕ) (k : List ℕ) (s : Abc)
      → AreBytes k
      → last_block reader n k s ≡ last_block reader8 n k s
  unfolding last_block
  last_block-bytes n k s bytes = elim (Bool-cases (ltb 12 n)) [
    | inl e ↦ rw (last_block, e) refl
    | inr e ↦
        rw (last_block, e)
          (ap (λ x. if n == 0 then s.c else (final x).c) (same.tail k bytes s n (ground arith)))
  ]

  blocks-bytes :
      (f n : ℕ) (k : List ℕ) (s : Abc) → AreBytes k → blocks reader f n k s ≡ blocks reader8 f n k s
  unfolding blocks
  blocks-bytes zero n k s bytes = last_block-bytes n k s bytes
  blocks-bytes (suc f) n k s bytes = elim (Bool-cases (ltb 12 n)) [
    | inl e ↦
        rw (blocks, e)
          (ap (λ x. blocks reader f (n - 12) (drop 12 k) (mix x)) (same.block k s)
            ∙ blocks-bytes f (n - 12) (drop 12 k) (mix (block8 k s)) (drop-AreBytes 12 k bytes))
    | inr e ↦ rw (blocks, e) (last_block-bytes n k s bytes)
  ]

-- Memory that agrees on the first `n` bytes.
abbrev AgreeOn : ℕ → List ℕ → List ℕ → Type 0
AgreeOn n k k' = (i : ℕ) → i < n → at8 k i ≡ at8 k' i

add_byte-local :
    (to : ℕ → Abc → Abc) (n i shift : ℕ) (k k' : List ℕ) (s s' : Abc)
    → AgreeOn n k k'
    → s ≡ s'
    → add_byte to n i shift k s ≡ add_byte to n i shift k' s'
add_byte-local to n i shift k k' s s' h e = elim (Bool-cases (ltb i n)) [
  | inl b ↦ rw b (ap₂ (λ x y. to (x * 2 ^ shift) y) (h i (ground arith)) e)
  | inr b ↦ rw b e
]

tail8-local : (n : ℕ) (k k' : List ℕ) (s : Abc) → AgreeOn n k k' → tail8 n k s ≡ tail8 n k' s
unfolding tail8
tail8-local n k k' s h =
    let e12 : s ≡ s = refl in
    let e11 = add_byte-local add_c n 11 24 k k' _ _ h e12 in
    let e10 = add_byte-local add_c n 10 16 k k' _ _ h e11 in
    let e9 = add_byte-local add_c n 9 8 k k' _ _ h e10 in
    let e8 = add_byte-local add_c n 8 0 k k' _ _ h e9 in
    let e7 = add_byte-local add_b n 7 24 k k' _ _ h e8 in
    let e6 = add_byte-local add_b n 6 16 k k' _ _ h e7 in
    let e5 = add_byte-local add_b n 5 8 k k' _ _ h e6 in
    let e4 = add_byte-local add_b n 4 0 k k' _ _ h e5 in
    let e3 = add_byte-local add_a n 3 24 k k' _ _ h e4 in
    let e2 = add_byte-local add_a n 2 16 k k' _ _ h e3 in
    let e1 = add_byte-local add_a n 1 8 k k' _ _ h e2 in add_byte-local add_a n 0 0 k k' _ _ h e1

block8-local : (k k' : List ℕ) (s : Abc) → AgreeOn 12 k k' → block8 k s ≡ block8 k' s
unfolding block8
block8-local k k' s h =
    rw
      (
        block8,
        h 0 (omega arith),
        h 1 (omega arith),
        h 2 (omega arith),
        h 3 (omega arith),
        h 4 (omega arith),
        h 5 (omega arith),
        h 6 (omega arith),
        h 7 (omega arith),
        h 8 (omega arith),
        h 9 (omega arith),
        h 10 (omega arith),
        h 11 (omega arith),
      )
      refl

-- Nothing behind the key is read to an effect.
blocks-local :
    (f n : ℕ) (k k' : List ℕ) (s : Abc)
    → AgreeOn n k k'
    → blocks reader8 f n k s ≡ blocks reader8 f n k' s
unfolding blocks last_block
blocks-local zero n k k' s h =
    ap (λ x. if n == 0 then s.c else if ltb 12 n then s.c else (final x).c) (tail8-local n k k' s h)
blocks-local (suc f) n k k' s h = elim (Bool-cases (ltb 12 n)) [
  | inl e ↦
      let more : 12 < n = ground arith in
      rw (blocks, e)
        (ap (λ x. blocks reader8 f (n - 12) (drop 12 k) (mix x))
            (block8-local k k' s (λ i l. h i (omega arith)))
          ∙ blocks-local f (n - 12) (drop 12 k) (drop 12 k') (mix (block8 k' s))
              (λ i l. at8-drop 12 i k ∙ h (12 + i) (omega arith) ∙ sym (at8-drop 12 i k')))
  | inr e ↦
      rw (blocks, e)
        (ap (λ x. if n == 0 then s.c else if ltb 12 n then s.c else (final x).c)
          (tail8-local n k k' s h))
]

-- `hash_jenkins`, on a little-endian machine, depends on the bytes of the key alone: at every
-- address it gives the hash that the reading byte by byte gives, whatever bytes stand behind the
-- key, though the aligned readings take words that go beyond its end.
pub hash_jenkins-bytes :
    (address : ℕ) (key more : List ℕ)
    → All (λ ch. ch < 256) (key ++ more)
    → hash_jenkins address (key ++ more) (length key) ≡ hash_jenkins 1 key (length key)
unfolding hash_jenkins reader_at
hash_jenkins-bytes address key more bytes =
    let n = length key in
    blocks-bytes (reader_at address) (reader_at-IsBytewise address) n n (key ++ more)
      (jenkins_start n) (AreBytes-of_All (key ++ more) bytes)
    ∙ blocks-local n n (key ++ more) key (jenkins_start n) (λ i l. at8-append key more i l)
