-- ===== src/Parser/Resume.antt =====
-- nc_redis.c and nc_memcache.c: a parser called again when more bytes have come into the same buffer.
use wx_cache_proxy.Base.{
  ℕ, zero, suc, ◌-◌, ◌-◌, ◌≤◌, ◌<◌, ◌≡◌, refl, sym, ap, subst, ◌∙◌, Bool, true, false, List, ◌∷◌,
  ◌++◌, none, some, ltb, length, length-append, arith, Bool-cases, inl, inr,
}
use wx_cache_proxy.Parser.Machine.{
  Move, go, done, error, enomem, Left, more, left_done, left_error, left_enomem, starved, Result,
  parse_again, Parser, leave, cost, scan, finish, parse, Nearer, Advances, Goes, IsParser,
}

-- At the end of the buffer no fuel is needed.
pub scan_end :
    {R : Type 0}
    → (m : Parser R) (f : ℕ) (buf : List ℕ) (p : ℕ) (r : R) → length buf ≤ p
    → scan m f buf p r ≡ more p r
unfolding scan
scan_end m zero buf p r h = let e : ltb p (length buf) ≡ false = ground arith in rw (scan, e) refl
scan_end m (suc f) buf p r h =
    let e : ltb p (length buf) ≡ false = ground arith in rw (scan, e) refl

pub scan_round :
    {R : Type 0}
    → (m : Parser R) (f : ℕ) (buf : List ℕ) (p : ℕ) (r : R) → p < length buf
    → scan m (suc f) buf p r ≡ leave (scan m f buf) (m.step buf p r)
unfolding scan
scan_round m f buf p r h = let e : ltb p (length buf) ≡ true = ground arith in rw (scan, e) refl

-- To call the parser again at the position where it asked for more.
unfoldable pub again_on : {R : Type 0} → (ℕ → R → Result R) → Result R → Result R
again_on again (parse_again q r) = again q r
again_on again result = result

module _ {R : Type 0} (m : Parser R) (IsReady : ℕ → R → Type 0) where
  -- What a law says of each position that a round goes on to.
  abbrev Onward : ℕ → ℕ → R → (ℕ → R → Type 0) → Type 0
  Onward last p r0 P = (q : ℕ) (r : R) → Nearer m p r0 q r → q ≤ last → IsReady q r → P q r

  leave-cong :
      (last p : ℕ) (r : R) (k l : ℕ → R → Left R) (x : Move R)
      → Advances m IsReady last p r x
      → Onward last p r (λ q r'. k q r' ≡ l q r')
      → leave k x ≡ leave l x
  unfolding leave
  leave-cong last p r k l (go q r') a h = h q r' a.0 a.1 a.2
  leave-cong last p r k l (done q r') a h = refl
  leave-cong last p r k l error a h = refl
  leave-cong last p r k l enomem a h = refl

  module _ (laws : Goes m IsReady) where
    -- The cost is fuel enough.
    pub scan_fuel :
        (f g : ℕ) (buf : List ℕ) (p : ℕ) (r : R)
        → cost m buf p r ≤ f
        → cost m buf p r ≤ g
        → IsReady p r
        → scan m f buf p r ≡ scan m g buf p r
    scan_fuel zero g buf p r hf hg ready =
        let past : length buf ≤ p = omega (arith, laws.enough (length buf - p) r) in
        scan_end m zero buf p r past ∙ sym (scan_end m g buf p r past)
    scan_fuel (suc f) zero buf p r hf hg ready =
        let past : length buf ≤ p = omega (arith, laws.enough (length buf - p) r) in
        scan_end m (suc f) buf p r past ∙ sym (scan_end m zero buf p r past)
    scan_fuel (suc f) (suc g) buf p r hf hg ready = elim (Bool-cases (ltb p (length buf))) [
      | inl t ↦
          let lt : p < length buf = ground arith in
          scan_round m f buf p r lt
          ∙ leave-cong (length buf) p r _ _ _ (laws.advances buf p r lt ready)
              (λ q r' near within rdy.
                let less = near.1 (length buf) lt within in
                scan_fuel f g buf q r' (omega (arith, less)) (omega (arith, less)) rdy)
          ∙ sym (scan_round m g buf p r lt)
      | inr t ↦
          let ge : length buf ≤ p = ground arith in
          scan_end m (suc f) buf p r ge ∙ sym (scan_end m (suc g) buf p r ge)
    ]

  abbrev pub goes : IsParser m IsReady → Goes m IsReady
  goes laws = record { enough = laws.enough; advances = laws.advances }

  module _ (laws : IsParser m IsReady) where
    module _ (buf : List ℕ) (x : ℕ) (xs : List ℕ) where
      abbrev whole : List ℕ
      whole = buf ++ (x ∷ xs)

      longer : length buf < length whole
      longer = omega (arith, length-append buf (x ∷ xs))

      -- To go on where the shorter buffer ended.
      unfoldable resume : Left R → Left R
      resume (more p r) = scan m (cost m whole p r) whole p r
      resume l = l

      resume-leave :
          (p : ℕ) (r : R) (k l : ℕ → R → Left R) (y : Move R)
          → Advances m IsReady (length buf) p r y
          → Onward (length buf) p r (λ q r'. k q r' ≡ resume (l q r'))
          → leave k y ≡ resume (leave l y)
      unfolding leave resume
      resume-leave p r k l (go q r') a h = h q r' a.0 a.1 a.2
      resume-leave p r k l (done q r') a h = refl
      resume-leave p r k l error a h = refl
      resume-leave p r k l enomem a h = refl

      -- The scan of the longer buffer from the end of the shorter one.
      scan-at_end :
          (f g p : ℕ) (r : R)
          → cost m whole p r ≤ g
          → length buf ≤ p
          → IsReady p r
          → scan m g whole p r ≡ resume (scan m f buf p r)
      unfolding resume
      scan-at_end f g p r hg e ready =
          scan_fuel (goes laws) g (cost m whole p r) whole p r hg (omega arith) ready
          ∙ ap resume (sym (scan_end m f buf p r e))

      scan-append :
          (f g p : ℕ) (r : R)
          → cost m whole p r ≤ g
          → cost m buf p r ≤ f
          → p ≤ length buf
          → IsReady p r
          → scan m g whole p r ≡ resume (scan m f buf p r)
      unfolding resume leave
      scan-append f zero p r hg hf h ready =
          absurd (omega (arith, longer, laws.enough (length whole - p) r))
      scan-append zero (suc g) p r hg hf h ready =
          scan-at_end zero (suc g) p r hg (omega (arith, laws.enough (length buf - p) r)) ready
      scan-append (suc f) (suc g) p r hg hf h ready = elim (Bool-cases (ltb p (length buf))) [
        | inr t ↦ scan-at_end (suc f) (suc g) p r hg (ground arith) ready
        | inl t ↦
            let lt : p < length buf = ground arith in
            let lt' : p < length whole = omega (arith, longer) in
            let adv = laws.advances buf p r lt ready in
            scan_round m g whole p r lt'
            ∙ elim (laws.agrees buf (x ∷ xs) p r lt) [
              | inl same ↦
                  ap (leave (scan m g whole)) same
                  ∙ resume-leave p r _ _ _ adv (λ q r' near within rdy.
                    let less = near.1 (length buf) lt within in
                    let less' = near.1 (length whole) lt' (omega (arith, longer, within)) in
                    scan-append f g q r' (omega (arith, less')) (omega (arith, less)) within rdy)
              | inr (r1, stalls, again) ↦
                  let next = subst (λ y. Advances m IsReady (length buf) p r y) stalls adv in
                  let enough : cost m whole (length buf) r1 ≤ suc g =
                    let less' = next.0.1 (length whole) lt' (omega (arith, longer)) in
                    omega (arith, less') in
                  ap (leave (scan m g whole)) again
                  ∙ sym (scan_round m g whole (length buf) r1 longer)
                  ∙ scan-at_end f (suc g) (length buf) r1 enough (omega arith) next.2
                  ∙ ap resume (sym (ap (leave (scan m f buf)) stalls))
            ]
            ∙ ap resume (sym (scan_round m f buf p r lt))
      ]

      finish-resume :
          (again : ℕ → R → Result R) (full : Bool) (l : Left R)
          → ((q : ℕ) (r : R) → again q r ≡ parse m full whole q r)
          → finish m full (resume l) ≡ again_on again (finish m false l)
      unfolding finish resume parse again_on
      finish-resume again full (more p r) h =
          elim (m.token r)
            as (λ o.
              finish m full (resume (more p r))
              ≡ again_on again (elim o [ none ↦ parse_again p r | some t ↦ parse_again p r ])) [
                | none ↦ sym (h p r)
                | some t ↦ sym (h p r)
              ]
      finish-resume again full (left_done q r) h = refl
      finish-resume again full left_error h = refl
      finish-resume again full left_enomem h = refl
      finish-resume again full starved h = refl

      pub parse-append :
          (full : Bool) (pos : ℕ) (r : R)
          → pos ≤ length buf
          → IsReady pos r
          → parse m full whole pos r ≡ again_on (parse m full whole) (parse m false buf pos r)
      unfolding parse
      parse-append full pos r h ready =
          ap (finish m full) (
            scan-append (cost m buf pos r) (cost m whole pos r) pos r (omega arith) (omega arith) h
              ready)
          ∙ finish-resume (parse m full whole) full (scan m (cost m buf pos r) buf pos r)
              (λ q r'. refl)
