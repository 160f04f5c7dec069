-- ===== src/Parser/Settle.antt =====
-- A parser of which some field is not in use in some of its states: what the loop does when such a
-- field is cleared after each round.
use wx_cache_proxy.Base.{
  ℕ, zero, suc, ◌-◌, ◌≤◌, ◌≡◌, refl, sym, ap, ◌∙◌, Bool, false, List, ◌∷◌, ◌++◌, ltb, length,
  Bool-cases, Option-cases, inl, inr,
}
use wx_cache_proxy.Parser.Machine.{
  Move, go, done, error, enomem, Left, more, left_done, left_error, left_enomem, starved, Result,
  parse_ok, parse_repair, parse_again, parse_error, parse_enomem, parse_starved, Parser, leave,
  cost, scan, finish, parse, Advances, IsParser,
}
use wx_cache_proxy.Parser.Resume.{again_on, parse-append}
use wx_cache_proxy.Parser.Forward.{Anywhere, Forward}

module _ {R : Type 0} (settle : R → R) where
  abbrev pub settle_move : Move R → Move R
  settle_move (go q r) = go q (settle r)
  settle_move (done q r) = done q (settle r)
  settle_move error = error
  settle_move enomem = enomem

  abbrev settle_left : Left R → Left R
  settle_left (more p r) = more p (settle r)
  settle_left (left_done q r) = left_done q (settle r)
  settle_left left_error = left_error
  settle_left left_enomem = left_enomem
  settle_left starved = starved

  -- A result with the fields that are not in use cleared.
  abbrev pub settle_result : Result R → Result R
  settle_result (parse_ok q r) = parse_ok q (settle r)
  settle_result (parse_repair q r) = parse_repair q (settle r)
  settle_result (parse_again q r) = parse_again q (settle r)
  settle_result parse_error = parse_error
  settle_result parse_enomem = parse_enomem
  settle_result parse_starved = parse_starved

  -- The parser that clears them after each round.
  abbrev pub settled : Parser R → Parser R
  settled m = record {
    step = λ buf p r. settle_move (m.step buf p r);
    token = m.token;
    forget = λ r. settle (m.forget r);
    restart = λ r. settle (m.restart r);
    rounds = m.rounds;
  }

  -- The fields that are cleared make no difference to the fields that are not.
  pub record Settles (m : Parser R) : Type 0 where
    pub rounds : (n : ℕ) (r : R) → m.rounds n (settle r) ≡ m.rounds n r
    pub step :
        (buf : List ℕ) (p : ℕ) (r : R)
        → settle_move (m.step buf p (settle r)) ≡ settle_move (m.step buf p r)
    pub token : (r : R) → m.token (settle r) ≡ m.token r
    pub forget : (r : R) → settle (m.forget (settle r)) ≡ settle (m.forget r)
    pub restart : (r : R) → settle (m.restart (settle r)) ≡ settle (m.restart r)

  module _ (m : Parser R) (laws : Settles m) where
    leave-settle :
        (k l : ℕ → R → Left R) (x : Move R)
        → ((q : ℕ) (r : R) → k q (settle r) ≡ settle_left (l q r))
        → leave k (settle_move x) ≡ settle_left (leave l x)
    unfolding leave
    leave-settle k l (go q r) h = h q r
    leave-settle k l (done q r) h = refl
    leave-settle k l error h = refl
    leave-settle k l enomem h = refl

    scan-settle :
        (f : ℕ) (buf : List ℕ) (p : ℕ) (r : R)
        → scan (settled m) f buf p (settle r) ≡ settle_left (scan m f buf p r)
    unfolding scan
    scan-settle zero buf p r = elim (Bool-cases (ltb p (length buf))) [
      | inl e ↦ rw (scan, e) refl
      | inr e ↦ rw (scan, e) refl
    ]
    scan-settle (suc f) buf p r = elim (Bool-cases (ltb p (length buf))) [
      | inl e ↦
          rw (scan, e)
            (ap (leave (scan (settled m) f buf)) (laws.step buf p r)
              ∙ leave-settle (scan (settled m) f buf) (scan m f buf) (m.step buf p r)
                  (λ q r'. scan-settle f buf q r'))
      | inr e ↦ rw (scan, e) refl
    ]

    finish-settle :
        (full : Bool) (l : Left R)
        → finish (settled m) full (settle_left l) ≡ settle_result (finish m full l)
    unfolding finish
    finish-settle full (more p r) = elim (Option-cases (m.token r)) [
      | inl e ↦ rw (finish, laws.token r, e) refl
      | inr (t, e) ↦ elim (Bool-cases full) [
        | inl b ↦ rw (finish, laws.token r, e, b) (ap (parse_repair t) (laws.forget r))
        | inr b ↦ rw (finish, laws.token r, e, b) refl
      ]
    ]
    finish-settle full (left_done q r) = ap (parse_ok (suc q)) (laws.restart r)
    finish-settle full left_error = refl
    finish-settle full left_enomem = refl
    finish-settle full starved = refl

    pub parse-settle :
        (full : Bool) (buf : List ℕ) (pos : ℕ) (r : R)
        → parse (settled m) full buf pos (settle r) ≡ settle_result (parse m full buf pos r)
    unfolding parse
    parse-settle full buf pos r =
        ap (λ f. finish (settled m) full (scan (settled m) f buf pos (settle r)))
          (laws.rounds (length buf - pos) r)
        ∙ ap (finish (settled m) full) (scan-settle (cost m buf pos r) buf pos r)
        ∙ finish-settle full (scan m (cost m buf pos r) buf pos r)

    again_on-settle :
        (full : Bool) (buf : List ℕ) (x : Result R)
        → again_on (parse (settled m) full buf) (settle_result x)
          ≡ settle_result (again_on (parse m full buf) x)
    unfolding again_on
    again_on-settle full buf (parse_again q r) = parse-settle full buf q r
    again_on-settle full buf (parse_ok q r) = refl
    again_on-settle full buf (parse_repair q r) = refl
    again_on-settle full buf parse_error = refl
    again_on-settle full buf parse_enomem = refl
    again_on-settle full buf parse_starved = refl

    pub settle-Forward :
        (last p : ℕ) (r : R) (x : Move R)
        → Forward m last p r x
        → Advances (settled m) Anywhere last p r (settle_move x)
    unfolding Forward
    settle-Forward last p r (go q r') h =
        ((h.0.0, λ n k l. rw (laws.rounds (n - q) r') (h.0.1 n k l)), h.1, tt)
    settle-Forward last p r (done q r') h = h
    settle-Forward last p r error h = tt
    settle-Forward last p r enomem h = tt

    pub settle-append :
        IsParser (settled m) Anywhere
        → (buf : List ℕ) (x : ℕ) (xs : List ℕ) (full : Bool) (pos : ℕ) (r : R) → pos ≤ length buf
        → settle_result (parse m full (buf ++ x ∷ xs) pos r)
          ≡ settle_result (again_on (parse m full (buf ++ x ∷ xs)) (parse m false buf pos r))
    settle-append sound buf x xs full pos r h =
        sym (parse-settle full (buf ++ x ∷ xs) pos r)
        ∙ parse-append (settled m) Anywhere sound buf x xs full pos (settle r) h tt
        ∙ ap (again_on (parse (settled m) full (buf ++ x ∷ xs))) (parse-settle false buf pos r)
        ∙ again_on-settle full (buf ++ x ∷ xs) (parse m false buf pos r)
