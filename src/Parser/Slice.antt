-- ===== src/Parser/Slice.antt =====
-- nc_redis.c and nc_memcache.c: bytes and slices of a buffer to which bytes are added.
use wx_cache_proxy.Parser.Bytes.{slice, byte_at}
use wx_cache_proxy.Base.{
  ℕ, zero, suc, ◌-◌, ◌≤◌, ◌<◌, ◌≡◌, refl, sym, ap, ◌∙◌, List, [], ◌∷◌, ◌++◌, length, take, drop,
  arith,
}

pub byte_at-append :
    (buf more : List ℕ) (i : ℕ) → i < length buf → byte_at (buf ++ more) i ≡ byte_at buf i
byte_at-append [] more i h = absurd (omega arith)
byte_at-append (x ∷ buf) more zero h = refl
byte_at-append (x ∷ buf) more (suc i) h = byte_at-append buf more i (omega arith)

pub take-within : (n : ℕ) (buf more : List ℕ) → n ≤ length buf → take n (buf ++ more) ≡ take n buf
take-within zero buf more h = refl
take-within (suc n) [] more h = absurd (omega arith)
take-within (suc n) (x ∷ buf) more h = ap (◌∷◌ x) (take-within n buf more (omega arith))

pub slice-append :
    (buf more : List ℕ) (t m : ℕ) → m ≤ length buf → slice (buf ++ more) t m ≡ slice buf t m
slice-append buf more zero m h = take-within (m - 0) buf more (omega arith)
slice-append [] more (suc t) m h =
    let e : m - suc t ≡ 0 = omega arith in
    ap (λ n. take n (drop (suc t) more)) e ∙ ap (λ n. take n (drop {A = ℕ} (suc t) [])) (sym e)
slice-append (x ∷ buf) more (suc t) zero h =
    let e : zero - suc t ≡ 0 = omega arith in
    ap (λ n. take n (drop t (buf ++ more))) e ∙ ap (λ n. take n (drop t buf)) (sym e)
slice-append (x ∷ buf) more (suc t) (suc m) h =
    let e : suc m - suc t ≡ m - t = omega arith in
    ap (λ n. take n (drop t (buf ++ more))) e
    ∙ slice-append buf more t m (omega arith)
    ∙ ap (λ n. take n (drop t buf)) (sym e)
