-- ===== src/Parser/Bounds.antt =====
-- nc_redis.c and nc_memcache.c: where the loop of a parser ends.
use wx_cache_proxy.Base.{
  ℕ, zero, suc, ◌-◌, ◌≤◌, ◌<◌, ◌≡◌, sym, ap, subst, Bool, List, ltb, length, arith, Bool-cases, inl,
  inr,
}
use wx_cache_proxy.Parser.Machine.{
  Move, go, done, error, enomem, Left, more, left_done, left_error, left_enomem, starved, Parser,
  leave, cost, scan, finish, parse, Nearer, Advances, Goes,
}
use wx_cache_proxy.Parser.Resume.{scan_end, scan_round, scan_fuel}

-- The loop has ended: by its test exactly at `last`, with the parser ready for the next call, at a byte
-- between `pos` and `last` that ends the message, or by an error. It has not run out of fuel.
abbrev pub Ends : {R : Type 0} → (ℕ → R → Type 0) → ℕ → ℕ → Left R → Type 0
Ends IsReady last pos (more p r) = (p ≡ last) × IsReady p r
Ends IsReady last pos (left_done p r) = (pos ≤ p) × (p < last)
Ends IsReady last pos left_error = Unit
Ends IsReady last pos left_enomem = Unit
Ends IsReady last pos starved = ⊥

module _ {R : Type 0} (m : Parser R) (IsReady : ℕ → R → Type 0) (laws : Goes m IsReady) where
  Ends-earlier : (last p q : ℕ) (l : Left R) → p ≤ q → Ends IsReady last q l → Ends IsReady last p l
  Ends-earlier last p q (more n r) h s = s
  Ends-earlier last p q (left_done n r) h s = (let a : q ≤ n = s.0 in omega arith, s.1)
  Ends-earlier last p q left_error h s = tt
  Ends-earlier last p q left_enomem h s = tt
  Ends-earlier last p q starved h s = elim s [ ]

  leave-Ends :
      (last p : ℕ) (r : R) (k : ℕ → R → Left R) (x : Move R)
      → Advances m IsReady last p r x
      → ((q : ℕ) (r' : R)
          → Nearer m p r q r'
          → q ≤ last
          → IsReady q r'
          → Ends IsReady last q (k q r'))
      → Ends IsReady last p (leave k x)
  unfolding leave
  leave-Ends last p r k (go q r') a h = Ends-earlier last p q (k q r') a.0.0 (h q r' a.0 a.1 a.2)
  leave-Ends last p r k (done q r') a h = a
  leave-Ends last p r k error a h = tt
  leave-Ends last p r k enomem a h = tt

  scan-at_last :
      (f : ℕ) (buf : List ℕ) (p : ℕ) (r : R)
      → p ≡ length buf
      → IsReady p r
      → Ends IsReady (length buf) p (scan m f buf p r)
  scan-at_last f buf p r e ready =
      subst (Ends IsReady (length buf) p) (sym (scan_end m f buf p r (omega (arith, e)))) (e, ready)

  pub scan-Ends :
      (f : ℕ) (buf : List ℕ) (p : ℕ) (r : R)
      → cost m buf p r ≤ f
      → p ≤ length buf
      → IsReady p r
      → Ends IsReady (length buf) p (scan m f buf p r)
  scan-Ends zero buf p r hf h ready =
      scan-at_last zero buf p r (omega (arith, laws.enough (length buf - p) r)) ready
  scan-Ends (suc f) buf p r hf h ready = elim (Bool-cases (ltb p (length buf))) [
    | inl t ↦
        let lt : p < length buf = ground arith in
        subst (Ends IsReady (length buf) p) (sym (scan_round m f buf p r lt)) (
          leave-Ends (length buf) p r (scan m f buf) _ (laws.advances buf p r lt ready)
            (λ q r' near within rdy.
              let less = near.1 (length buf) lt within in
              scan-Ends f buf q r' (omega (arith, less)) within rdy))
    | inr t ↦ scan-at_last (suc f) buf p r (ground arith) ready
  ]

  -- With enough fuel the loop ends, and the parser returns what follows from how it does.
  pub parse-Ends :
      (f : ℕ) (full : Bool) (buf : List ℕ) (pos : ℕ) (r : R)
      → cost m buf pos r ≤ f
      → pos ≤ length buf
      → IsReady pos r
      → Ends IsReady (length buf) pos (scan m f buf pos r)
        × (finish m full (scan m f buf pos r) ≡ parse m full buf pos r)
  unfolding parse
  parse-Ends f full buf pos r hf h ready = (
    scan-Ends f buf pos r hf h ready,
    ap (finish m full)
        (scan_fuel m IsReady laws f (cost m buf pos r) buf pos r hf (omega arith) ready),
  )
