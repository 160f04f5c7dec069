-- ===== src/Parser/Stall.antt =====
-- A round that steps over a value with its length known, in a parser that says how long the value is
-- still: with the whole value in the buffer, and with a part of it.
use wx_cache_proxy.Base.{
  ℕ, suc, ◌+◌, ◌-◌, ◌≤◌, ◌<◌, ◌≡◌, ◌⊎◌, refl, sym, ap, ap₂, ◌∙◌, false, List, ◌++◌, leb, ◌==◌,
  if◌then◌else◌, length, length-append, arith, Bool-cases, inl, inr,
}
use wx_cache_proxy.Parser.Bytes.{byte_at, cr}
use wx_cache_proxy.Parser.Slice.{byte_at-append}
use wx_cache_proxy.Parser.Machine.{Move, go, error, Parser}
use wx_cache_proxy.Parser.Forward.{Counts, Forward, if-Forward, ahead-Forward, error-Forward}
use wx_cache_proxy.Parser.Settle.{settle_move}

module _ {R : Type 0} (len : R → ℕ) (less : ℕ → R → R) (out : ℕ → R → R) where
  -- Over the bytes up to `q`, and the carriage return there; `n` bytes are left where the buffer ends
  -- before.
  abbrev skip_to : List ℕ → ℕ → ℕ → R → Move R
  skip_to buf q n r =
      if leb (length buf) q
      then go (length buf) (less n r)
      else if byte_at buf q == cr
      then go (suc q) (out q r)
      else error

  abbrev pub skip : List ℕ → ℕ → R → Move R
  skip buf p r = skip_to buf (p + len r) (len r - (length buf - p)) r

  pub skip-Forward :
      (m : Parser R) (counts : Counts m) (buf : List ℕ) (p : ℕ)
      → p < length buf
      → (r : R) → Forward m (length buf) p r (skip buf p r)
  skip-Forward m counts buf p lt r = elim (Bool-cases (leb (length buf) (p + len r))) [
    | inl e ↦ rw e (ahead-Forward m (length buf) p r counts (length buf) _ lt (omega arith))
    | inr e ↦
        let within : p + len r < length buf = ground arith in
        rw e (
          if-Forward m (length buf) p r (byte_at buf (p + len r) == cr) _ _
            (ahead-Forward m (length buf) p r counts (suc (p + len r)) _ (omega arith)
              (omega arith))
            (error-Forward m (length buf) p r))
  ]

  module _ (settle : R → R) (len-less : (n : ℕ) (r : R) → len (less n r) ≡ n)
      (less-less : (n k : ℕ) (r : R) → less n (less k r) ≡ less n r)
      (settle-out : (n q : ℕ) (r : R) → settle (out q (less n r)) ≡ settle (out q r))
      (buf xs : List ℕ) (p : ℕ) (lt : p < length buf) (r : R) where
    abbrev whole : List ℕ
    whole = buf ++ xs

    abbrev rest : ℕ
    rest = len r - (length buf - p)

    skip_to-less :
        (q n k : ℕ)
        → settle_move settle (skip_to whole q n r)
          ≡ settle_move settle (skip_to whole q n (less k r))
    skip_to-less q n k = elim (Bool-cases (leb (length whole) q)) [
      | inl b ↦ rw (b, less-less n k r) refl
      | inr b ↦ elim (Bool-cases (byte_at whole q == cr)) [
        | inl c ↦ rw (b, c, settle-out k q r) refl
        | inr c ↦ rw (b, c) refl
      ]
    ]

    skip-again :
        length buf ≤ p + len r
        → settle_move settle (skip whole p r)
          ≡ settle_move settle (skip whole (length buf) (less rest r))
    skip-again h =
        let e : p + len r ≡ length buf + rest = omega arith in
        let k : len r - (length whole - p) ≡ rest - (length whole - length buf) =
          omega (arith, length-append buf xs) in
        ap₂ (λ q n. settle_move settle (skip_to whole q n r)) e k
        ∙ skip_to-less (length buf + rest) (rest - (length whole - length buf)) rest
        ∙ sym (
            ap
              (λ n.
                settle_move settle
                  (skip_to whole (length buf + n) (n - (length whole - length buf)) (less rest r)))
              (len-less rest r))

    pub skip-append :
        settle (less rest r) ≡ less rest r
        → (settle_move settle (skip whole p r) ≡ settle_move settle (skip buf p r))
          ⊎ ((settle_move settle (skip buf p r) ≡ go (length buf) (less rest r))
              × (settle_move settle (skip whole p r)
                  ≡ settle_move settle (skip whole (length buf) (less rest r))))
    skip-append s = elim (Bool-cases (leb (length buf) (p + len r))) [
      | inl f ↦ inr (rw f (ap (go (length buf)) s), skip-again (ground arith))
      | inr f ↦
          let within : p + len r < length buf = ground arith in
          let g : leb (length whole) (p + len r) ≡ false = ground (arith, length-append buf xs) in
          inl (rw (f, g, byte_at-append buf xs (p + len r) within) refl)
    ]
