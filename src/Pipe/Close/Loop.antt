-- ===== src/Pipe/Close/Loop.antt =====
-- The loops of `server_close` (nc_server.c) have one shape: a turn for each message of a queue.
use wx_cache_proxy.Base.{
  ℕ, ◌≡◌, refl, subst, ap, ◌∙◌, Bool, true, List, [], ◌∷◌, ◌==◌, arith, Bool-cases, inl, inr,
}
use wx_cache_proxy.Pipe.State.{Msg, World}
use wx_cache_proxy.Pipe.Done.Runs.{elem}
use wx_cache_proxy.Pipe.Close.Firm.{IsFirm, AreFirm, firm_trans, firm_refl}

-- A request that failed.
pub record IsSettled (x : Msg) : Type 0 where
  pub done : x.done ≡ true
  pub error : x.error ≡ true

pub IsSettled-IsFirm : (x y : Msg) → IsSettled x → IsFirm x y → IsSettled y
IsSettled-IsFirm x y a f = record { done = f.done a.done; error = f.error a.error }

module _ (turn : World → ℕ → World) where
  unfoldable pub loop : World → List ℕ → World
  loop w [] = w
  loop w (m ∷ ms) = loop (turn w m) ms

  pub loop-empties :
      (queue : World → List ℕ)
      → ((w : World) (m : ℕ) (ms : List ℕ) → queue w ≡ m ∷ ms → queue (turn w m) ≡ ms)
      → (ms : List ℕ) (w : World) → queue w ≡ ms
      → queue (loop w ms) ≡ []
  unfolding loop
  loop-empties queue takes [] w e = e
  loop-empties queue takes (m ∷ ms) w e = loop-empties queue takes ms (turn w m) (takes w m ms e)

  pub loop-keeps :
      (queue : World → List ℕ)
      → ((w : World) (m : ℕ) → queue (turn w m) ≡ queue w)
      → (ms : List ℕ) (w : World) → queue (loop w ms) ≡ queue w
  unfolding loop
  loop-keeps queue keeps [] w = refl
  loop-keeps queue keeps (m ∷ ms) w = loop-keeps queue keeps ms (turn w m) ∙ keeps w m

  module _ (firm : (w : World) (m : ℕ) → AreFirm w (turn w m)) where
    pub loop-firm : (ms : List ℕ) (w : World) → AreFirm w (loop w ms)
    unfolding loop
    loop-firm [] w = firm_refl w
    loop-firm (m ∷ ms) w = firm_trans w (turn w m) _ (firm w m) (loop-firm ms (turn w m))

    -- `fails` tells which messages a turn settles.
    pub loop-settles :
        (fails : Msg → Bool)
        → ((x y : Msg) → IsFirm x y → fails y ≡ fails x)
        → ((w : World) (m : ℕ) → fails (w.msg m) ≡ true → IsSettled ((turn w m).msg m))
        → (ms : List ℕ) (w : World) (j : ℕ) → elem j ms ≡ true
        → fails (w.msg j) ≡ true
        → IsSettled ((loop w ms).msg j)
    unfolding loop elem AreFirm
    loop-settles fails stays settles [] w j h c = cc
    loop-settles fails stays settles (m ∷ ms) w j h c = elim (Bool-cases (m == j)) [
      | inl here ↦
          let same : m ≡ j = ground arith in
          let now : IsSettled ((turn w m).msg m) =
            settles w m (ap (λ (k : ℕ). fails (w.msg k)) same ∙ c) in
          IsSettled-IsFirm ((turn w m).msg j) _ (subst (λ k. IsSettled ((turn w m).msg k)) same now)
            (loop-firm ms (turn w m) j)
      | inr there ↦
          loop-settles fails stays settles ms (turn w m) j (ground arith)
            (stays (w.msg j) ((turn w m).msg j) (firm w m j) ∙ c)
    ]
