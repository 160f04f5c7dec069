-- ===== src/Parser/Forward.antt =====
-- Rounds that go forward, for parsers that ask nothing of a position.
use wx_cache_proxy.Base.{
  ℕ, suc, ◌-◌, ◌≤◌, ◌<◌, ◌≡◌, refl, Bool, true, false, Option, none, some, if◌then◌else◌, arith,
}
use wx_cache_proxy.Parser.Machine.{Move, go, done, error, enomem, Parser, Advances}

-- A parser of this kind keeps no promise at a position.
abbrev pub Anywhere : {R : Type 0} → ℕ → R → Type 0
Anywhere p r = Unit

module _ {R : Type 0} (m : Parser R) where
  -- Fewer bytes left are fewer rounds, in any state.
  abbrev pub Counts : Type 0
  Counts = (n k : ℕ) (r r' : R) → n < k → m.rounds n r' < m.rounds k r

  unfoldable pub Forward : ℕ → ℕ → R → Move R → Type 0
  Forward last p r x = Advances m Anywhere last p r x

  pub forward :
      (last p : ℕ) (r : R) (x : Move R) → Forward last p r x → Advances m Anywhere last p r x
  unfolding Forward
  forward last p r x h = h

  module _ (last p : ℕ) (r : R) where
    pub if-Forward :
        (b : Bool) (x y : Move R)
        → Forward last p r x
        → Forward last p r y
        → Forward last p r (if b then x else y)
    if-Forward true x y h k = h
    if-Forward false x y h k = k

    pub token-Forward :
        (o : Option ℕ) (x : Move R) (f : ℕ → Move R)
        → (o ≡ none → Forward last p r x)
        → ((t : ℕ) → o ≡ some t → Forward last p r (f t))
        → Forward last p r (elim o [ none ↦ x | some t ↦ f t ])
    token-Forward none x f h k = h refl
    token-Forward (some t) x f h k = k t refl

    pub error-Forward : Forward last p r error
    unfolding Forward
    error-Forward = tt

    pub enomem-Forward : Forward last p r enomem
    unfolding Forward
    enomem-Forward = tt

    pub ahead-Forward : Counts → (q : ℕ) (r' : R) → p < q → q ≤ last → Forward last p r (go q r')
    unfolding Forward
    ahead-Forward counts q r' h within =
        ((omega arith, λ n k l. counts (n - q) (n - p) r r' (omega arith)), within, tt)

    pub next-Forward : Counts → p < last → (r' : R) → Forward last p r (go (suc p) r')
    next-Forward counts lt r' = ahead-Forward counts (suc p) r' (omega arith) (omega arith)

    pub done-Forward : p < last → (r' : R) → Forward last p r (done p r')
    unfolding Forward
    done-Forward lt r' = (omega arith, lt)

    -- A step back leads to a state with fewer rounds to come.
    pub back-Forward :
        p < last → (r' : R) → ((n : ℕ) → m.rounds n r' < m.rounds n r) → Forward last p r (go p r')
    unfolding Forward
    back-Forward lt r' fewer = ((omega arith, λ n k l. fewer (n - p)), omega arith, tt)
