-- ===== src/Hash/Jenkins/Aligned.antt =====
-- nc_jenkins.c: the three ways to read a key give one hash.
use wx_cache_proxy.Base.{ℕ, zero, suc, ◌+◌, ◌*◌, ◌%◌, ◌^◌, ◌≤◌, ◌<◌, ◌≡◌, refl, List, arith}
use wx_cache_proxy.Hash.Words.{add}
use wx_cache_proxy.Hash.Jenkins.{Abc, at8, block32, block16, block8, tail32, tail16, tail8}

-- The bytes are less than 256.
abbrev pub AreBytes : List ℕ → Type 0
AreBytes k = (i : ℕ) → at8 k i < 256

word-add :
    (x b0 b1 b2 b3 : ℕ)
    → add x (b0 + b1 * 2 ^ 8 + (b2 + b3 * 2 ^ 8) * 2 ^ 16)
      ≡ add (add (add (add x b0) (b1 * 2 ^ 8)) (b2 * 2 ^ 16)) (b3 * 2 ^ 24)
word-add x b0 b1 b2 b3 = omega arith

pub block32-bytes : (k : List ℕ) (s : Abc) → block32 k s ≡ block8 k s
unfolding block32 block8
block32-bytes k s = λ i. record {
  a = word-add s.a (at8 k 0) (at8 k 1) (at8 k 2) (at8 k 3) i;
  b = word-add s.b (at8 k 4) (at8 k 5) (at8 k 6) (at8 k 7) i;
  c = word-add s.c (at8 k 8) (at8 k 9) (at8 k 10) (at8 k 11) i;
}

pub block16-bytes : (k : List ℕ) (s : Abc) → block16 k s ≡ block8 k s
unfolding block16 block32
block16-bytes k s = block32-bytes k s

-- A word cut down to one, two or three bytes, and its bytes added from the last to the first.
module _ (x b0 b1 b2 b3 : ℕ) (l0 : b0 < 256) (l1 : b1 < 256) (l2 : b2 < 256) where
  abbrev word : ℕ
  word = b0 + b1 * 2 ^ 8 + (b2 + b3 * 2 ^ 8) * 2 ^ 16

  one-add : add x (word % 2 ^ 8) ≡ add x (b0 * 2 ^ 0)
  one-add = omega arith

  two-add : add x (word % 2 ^ 16) ≡ add (add x (b1 * 2 ^ 8)) (b0 * 2 ^ 0)
  two-add = omega arith

  three-add : add x (word % 2 ^ 24) ≡ add (add (add x (b2 * 2 ^ 16)) (b1 * 2 ^ 8)) (b0 * 2 ^ 0)
  three-add = omega arith

four-add :
    (x b0 b1 b2 b3 : ℕ)
    → add x (b0 + b1 * 2 ^ 8 + (b2 + b3 * 2 ^ 8) * 2 ^ 16)
      ≡ add (add (add (add x (b3 * 2 ^ 24)) (b2 * 2 ^ 16)) (b1 * 2 ^ 8)) (b0 * 2 ^ 0)
four-add x b0 b1 b2 b3 = omega arith

pair-add : (x b0 b1 : ℕ) → add x (b0 + b1 * 2 ^ 8) ≡ add (add x (b1 * 2 ^ 8)) (b0 * 2 ^ 0)
pair-add x b0 b1 = omega arith

single-add : (x b0 : ℕ) → add x b0 ≡ add x (b0 * 2 ^ 0)
single-add x b0 = omega arith

module _ (k : List ℕ) (bytes : AreBytes k) (s : Abc) where
  pub tail32-bytes : (n : ℕ) → n ≤ 12 → tail32 n k s ≡ tail8 n k s
  unfolding tail32 tail8
  tail32-bytes zero l = refl
  tail32-bytes (suc zero) l = λ i. record s {
    a = (one-add s.a (at8 k 0) (at8 k 1) (at8 k 2) (at8 k 3) (bytes 0) (bytes 1) (bytes 2)) i;
  }
  tail32-bytes (suc (suc zero)) l = λ i. record s {
    a = (two-add s.a (at8 k 0) (at8 k 1) (at8 k 2) (at8 k 3) (bytes 0) (bytes 1) (bytes 2)) i;
  }
  tail32-bytes (suc (suc (suc zero))) l = λ i. record s {
    a = (three-add s.a (at8 k 0) (at8 k 1) (at8 k 2) (at8 k 3) (bytes 0) (bytes 1) (bytes 2)) i;
  }
  tail32-bytes (suc (suc (suc (suc zero)))) l =
      λ i. record s { a = (four-add s.a (at8 k 0) (at8 k 1) (at8 k 2) (at8 k 3)) i }
  tail32-bytes (suc (suc (suc (suc (suc zero))))) l = λ i. record s {
    a = (four-add s.a (at8 k 0) (at8 k 1) (at8 k 2) (at8 k 3)) i;
    b = (one-add s.b (at8 k 4) (at8 k 5) (at8 k 6) (at8 k 7) (bytes 4) (bytes 5) (bytes 6)) i;
  }
  tail32-bytes (suc (suc (suc (suc (suc (suc zero)))))) l = λ i. record s {
    a = (four-add s.a (at8 k 0) (at8 k 1) (at8 k 2) (at8 k 3)) i;
    b = (two-add s.b (at8 k 4) (at8 k 5) (at8 k 6) (at8 k 7) (bytes 4) (bytes 5) (bytes 6)) i;
  }
  tail32-bytes (suc (suc (suc (suc (suc (suc (suc zero))))))) l = λ i. record s {
    a = (four-add s.a (at8 k 0) (at8 k 1) (at8 k 2) (at8 k 3)) i;
    b = (three-add s.b (at8 k 4) (at8 k 5) (at8 k 6) (at8 k 7) (bytes 4) (bytes 5) (bytes 6)) i;
  }
  tail32-bytes (suc (suc (suc (suc (suc (suc (suc (suc zero)))))))) l = λ i. record s {
    a = (four-add s.a (at8 k 0) (at8 k 1) (at8 k 2) (at8 k 3)) i;
    b = (four-add s.b (at8 k 4) (at8 k 5) (at8 k 6) (at8 k 7)) i;
  }
  tail32-bytes (suc (suc (suc (suc (suc (suc (suc (suc (suc zero))))))))) l = λ i. record s {
    a = (four-add s.a (at8 k 0) (at8 k 1) (at8 k 2) (at8 k 3)) i;
    b = (four-add s.b (at8 k 4) (at8 k 5) (at8 k 6) (at8 k 7)) i;
    c = (one-add s.c (at8 k 8) (at8 k 9) (at8 k 10) (at8 k 11) (bytes 8) (bytes 9) (bytes 10)) i;
  }
  tail32-bytes (suc (suc (suc (suc (suc (suc (suc (suc (suc (suc zero)))))))))) l = λ i. record s {
    a = (four-add s.a (at8 k 0) (at8 k 1) (at8 k 2) (at8 k 3)) i;
    b = (four-add s.b (at8 k 4) (at8 k 5) (at8 k 6) (at8 k 7)) i;
    c = (two-add s.c (at8 k 8) (at8 k 9) (at8 k 10) (at8 k 11) (bytes 8) (bytes 9) (bytes 10)) i;
  }
  tail32-bytes (suc (suc (suc (suc (suc (suc (suc (suc (suc (suc (suc zero))))))))))) l = λ i.
      record s {
        a = (four-add s.a (at8 k 0) (at8 k 1) (at8 k 2) (at8 k 3)) i;
        b = (four-add s.b (at8 k 4) (at8 k 5) (at8 k 6) (at8 k 7)) i;
        c =
            (three-add s.c (at8 k 8) (at8 k 9) (at8 k 10) (at8 k 11) (bytes 8) (bytes 9) (bytes 10))
              i;
      }
  tail32-bytes (suc (suc (suc (suc (suc (suc (suc (suc (suc (suc (suc (suc zero)))))))))))) l = λ i.
      record s {
        a = (four-add s.a (at8 k 0) (at8 k 1) (at8 k 2) (at8 k 3)) i;
        b = (four-add s.b (at8 k 4) (at8 k 5) (at8 k 6) (at8 k 7)) i;
        c = (four-add s.c (at8 k 8) (at8 k 9) (at8 k 10) (at8 k 11)) i;
      }
  tail32-bytes (suc (suc (suc (suc (suc (suc (suc (suc (suc (suc (suc (suc (suc n))))))))))))) l =
      absurd (omega arith)

  pub tail16-bytes : (n : ℕ) → n ≤ 12 → tail16 n k s ≡ tail8 n k s
  unfolding tail16 tail8
  tail16-bytes zero l = refl
  tail16-bytes (suc zero) l = λ i. record s { a = (single-add s.a (at8 k 0)) i }
  tail16-bytes (suc (suc zero)) l = λ i. record s { a = (pair-add s.a (at8 k 0) (at8 k 1)) i }
  tail16-bytes (suc (suc (suc zero))) l =
      λ i. record s { a = (pair-add (add s.a (at8 k 2 * 2 ^ 16)) (at8 k 0) (at8 k 1)) i }
  tail16-bytes (suc (suc (suc (suc zero)))) l =
      λ i. record s { a = (four-add s.a (at8 k 0) (at8 k 1) (at8 k 2) (at8 k 3)) i }
  tail16-bytes (suc (suc (suc (suc (suc zero))))) l = λ i. record s {
    a = (four-add s.a (at8 k 0) (at8 k 1) (at8 k 2) (at8 k 3)) i;
    b = (single-add s.b (at8 k 4)) i;
  }
  tail16-bytes (suc (suc (suc (suc (suc (suc zero)))))) l = λ i. record s {
    a = (four-add s.a (at8 k 0) (at8 k 1) (at8 k 2) (at8 k 3)) i;
    b = (pair-add s.b (at8 k 4) (at8 k 5)) i;
  }
  tail16-bytes (suc (suc (suc (suc (suc (suc (suc zero))))))) l = λ i. record s {
    a = (four-add s.a (at8 k 0) (at8 k 1) (at8 k 2) (at8 k 3)) i;
    b = (pair-add (add s.b (at8 k 6 * 2 ^ 16)) (at8 k 4) (at8 k 5)) i;
  }
  tail16-bytes (suc (suc (suc (suc (suc (suc (suc (suc zero)))))))) l = λ i. record s {
    a = (four-add s.a (at8 k 0) (at8 k 1) (at8 k 2) (at8 k 3)) i;
    b = (four-add s.b (at8 k 4) (at8 k 5) (at8 k 6) (at8 k 7)) i;
  }
  tail16-bytes (suc (suc (suc (suc (suc (suc (suc (suc (suc zero))))))))) l = λ i. record s {
    a = (four-add s.a (at8 k 0) (at8 k 1) (at8 k 2) (at8 k 3)) i;
    b = (four-add s.b (at8 k 4) (at8 k 5) (at8 k 6) (at8 k 7)) i;
    c = (single-add s.c (at8 k 8)) i;
  }
  tail16-bytes (suc (suc (suc (suc (suc (suc (suc (suc (suc (suc zero)))))))))) l = λ i. record s {
    a = (four-add s.a (at8 k 0) (at8 k 1) (at8 k 2) (at8 k 3)) i;
    b = (four-add s.b (at8 k 4) (at8 k 5) (at8 k 6) (at8 k 7)) i;
    c = (pair-add s.c (at8 k 8) (at8 k 9)) i;
  }
  tail16-bytes (suc (suc (suc (suc (suc (suc (suc (suc (suc (suc (suc zero))))))))))) l = λ i.
      record s {
        a = (four-add s.a (at8 k 0) (at8 k 1) (at8 k 2) (at8 k 3)) i;
        b = (four-add s.b (at8 k 4) (at8 k 5) (at8 k 6) (at8 k 7)) i;
        c = (pair-add (add s.c (at8 k 10 * 2 ^ 16)) (at8 k 8) (at8 k 9)) i;
      }
  tail16-bytes (suc (suc (suc (suc (suc (suc (suc (suc (suc (suc (suc (suc zero)))))))))))) l = λ i.
      record s {
        a = (four-add s.a (at8 k 0) (at8 k 1) (at8 k 2) (at8 k 3)) i;
        b = (four-add s.b (at8 k 4) (at8 k 5) (at8 k 6) (at8 k 7)) i;
        c = (four-add s.c (at8 k 8) (at8 k 9) (at8 k 10) (at8 k 11)) i;
      }
  tail16-bytes (suc (suc (suc (suc (suc (suc (suc (suc (suc (suc (suc (suc (suc n))))))))))))) l =
      absurd (omega arith)
