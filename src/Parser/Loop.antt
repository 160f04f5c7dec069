-- ===== src/Parser/Loop.antt =====
-- nc_redis.c and nc_memcache.c: the loop of a parser, followed round by round.
use wx_cache_proxy.Parser.Bytes.{byte_at}
use wx_cache_proxy.Base.{ℕ, zero, suc, ◌<◌, ◌≡◌, ap, subst, ◌∙◌, List, [], ◌∷◌, length, drop, arith}
use wx_cache_proxy.Parser.Machine.{
  go, done, Left, left_done, Parser, leave, cost, scan, Advances, IsParser,
}
use wx_cache_proxy.Parser.Resume.{scan_round, scan_fuel, goes}

-- What a position of the buffer says when the bytes from there on are known.
pub record Reads (buf : List ℕ) (p ch : ℕ) (rest : List ℕ) : Type 0 where
  pub within : p < length buf
  pub byte : byte_at buf p ≡ ch
  pub next : drop (suc p) buf ≡ rest

pub reads : (buf : List ℕ) (p ch : ℕ) (rest : List ℕ) → drop p buf ≡ ch ∷ rest → Reads buf p ch rest
reads [] zero ch rest e = absurd (nothing ch rest e)
  where
    nothing : (ch : ℕ) (rest : List ℕ) → ¬ ([] ≡ ch ∷ rest)
    nothing ch rest e = cc
reads [] (suc p) ch rest e = absurd (nothing ch rest e)
  where
    nothing : (ch : ℕ) (rest : List ℕ) → ¬ ([] ≡ ch ∷ rest)
    nothing ch rest e = cc
reads (x ∷ buf) zero ch rest e = record { within = omega arith; byte = cc; next = cc }
reads (x ∷ buf) (suc p) ch rest e =
    let r = reads buf p ch rest e in
    record { within = omega (arith, r.within); byte = r.byte; next = r.next }

module _ {R : Type 0} (m : Parser R) (IsReady : ℕ → R → Type 0) (laws : IsParser m IsReady)
    (buf : List ℕ) where
  -- The loop with the fuel that is enough.
  abbrev pub loop : ℕ → R → Left R
  loop p r = scan m (cost m buf p r) buf p r

  loop-round :
      (p : ℕ) (r : R)
      → p < length buf
      → IsReady p r
      → loop p r ≡ leave (scan m (cost m buf p r) buf) (m.step buf p r)
  loop-round p r lt ready =
      scan_fuel m IsReady (goes m IsReady laws) (cost m buf p r) (suc (cost m buf p r)) buf p r
        (omega arith) (omega arith) ready
      ∙ scan_round m (cost m buf p r) buf p r lt

  pub loop-go :
      (p q : ℕ) (r r' : R)
      → p < length buf
      → IsReady p r
      → m.step buf p r ≡ go q r'
      → loop p r ≡ loop q r'
  unfolding leave
  loop-go p q r r' lt ready e =
      let a = subst (Advances m IsReady (length buf) p r) e (laws.advances buf p r lt ready) in
      loop-round p r lt ready
      ∙ ap (leave (scan m (cost m buf p r) buf)) e
      ∙ scan_fuel m IsReady (goes m IsReady laws) (cost m buf p r) (cost m buf q r') buf q r'
          (let less = a.0.1 (length buf) lt a.1 in omega (arith, less)) (omega arith) a.2

  pub loop-done :
      (p q : ℕ) (r r' : R)
      → p < length buf
      → IsReady p r
      → m.step buf p r ≡ done q r'
      → loop p r ≡ left_done q r'
  unfolding leave
  loop-done p q r r' lt ready e =
      loop-round p r lt ready ∙ ap (leave (scan m (cost m buf p r) buf)) e
