-- ===== src/Fragment/Keys.antt =====
-- The keys of a server among those of a request, and what the array of fragments holds of them.
use wx_cache_proxy.Base.{
  ℕ, zero, suc, ◌≡◌, ◌≢◌, refl, ap, ◌∙◌, true, false, List, [], ◌∷◌, ◌++◌, Option, none, some, ◌==◌,
  if◌then◌else◌, arith, Bool-cases, inl, inr,
}
use mathlib.Core.List.{append-nil}
use wx_cache_proxy.Fragment.{Sub, update}

abbrev pub framed_or : (List (List ℕ) → List ℕ) → List (List ℕ) → List (List ℕ) → List (List ℕ)
framed_or framed [] rest = rest
framed_or framed (key ∷ keys) rest = framed (key ∷ keys) ∷ rest

module _ (backend : List ℕ → ℕ) where
  -- The keys that go to server `i`, in their order.
  unfoldable pub keys_at : ℕ → List (List ℕ) → List (List ℕ)
  keys_at i [] = []
  keys_at i (key ∷ keys) = if backend key == i then key ∷ keys_at i keys else keys_at i keys

  keys_at-append :
      (i : ℕ) (keys more : List (List ℕ))
      → keys_at i (keys ++ more) ≡ keys_at i keys ++ keys_at i more
  unfolding keys_at
  keys_at-append i [] more = refl
  keys_at-append i (key ∷ keys) more = ground (arith, keys_at-append i keys more)

  keys_at-here :
      (i : ℕ) (keys : List (List ℕ)) (key : List ℕ)
      → (backend key == i) ≡ true
      → keys_at i (keys ++ key ∷ []) ≡ keys_at i keys ++ key ∷ []
  unfolding keys_at
  keys_at-here i keys key e =
      keys_at-append i keys (key ∷ []) ∙ ap (λ b. keys_at i keys ++ (if b then key ∷ [] else [])) e

  keys_at-other :
      (i : ℕ) (keys : List (List ℕ)) (key : List ℕ)
      → (backend key == i) ≡ false
      → keys_at i (keys ++ key ∷ []) ≡ keys_at i keys
  unfolding keys_at
  keys_at-other i keys key e =
      keys_at-append i keys (key ∷ [])
      ∙ ap (λ b. keys_at i keys ++ (if b then key ∷ [] else [])) e
      ∙ append-nil (keys_at i keys)

  -- The texts of the fragments, one for each server that has keys, in the order of the servers.
  unfoldable pub fragments : (List (List ℕ) → List ℕ) → ℕ → ℕ → List (List ℕ) → List (List ℕ)
  fragments framed zero i keys = []
  fragments framed (suc n) i keys =
      framed_or framed (keys_at i keys) (fragments framed n (suc i) keys)

module _ (backend : List ℕ → ℕ) (Carries : List (List ℕ) → Sub → Type 0) where
  -- What the array holds for a server whose keys so far are these.
  abbrev pub Holds : List (List ℕ) → Option Sub → Type 0
  Holds keys none = keys ≡ []
  Holds keys (some sub) = Carries keys sub × (keys ≢ [])

  abbrev pub HoldsAll : List (List ℕ) → (ℕ → Option Sub) → Type 0
  HoldsAll keys subs = (i : ℕ) → Holds (keys_at backend i keys) (subs i)

  no_end : (keys : List (List ℕ)) (key : List ℕ) → keys ++ key ∷ [] ≢ []
  no_end [] key e = cc
  no_end (k ∷ keys) key e = cc

  pub put_in-HoldsAll :
      (key : List ℕ) (keys : List (List ℕ)) (sub : Sub) (subs : ℕ → Option Sub)
      → HoldsAll keys subs
      → Carries (keys_at backend (backend key) keys ++ key ∷ []) sub
      → HoldsAll (keys ++ key ∷ []) (update (backend key) sub subs)
  unfolding keys_at
  put_in-HoldsAll key keys sub subs h c i = elim (Bool-cases (i == backend key)) [
    | inl e ↦
        let same : i ≡ backend key = ground arith in
        let here : keys_at backend i (keys ++ key ∷ [])
            ≡ keys_at backend (backend key) keys ++ key ∷ [] =
          keys_at-here backend i keys key (ground arith)
          ∙ ap (λ j. keys_at backend j keys ++ key ∷ []) same in
        rw (e, here) (c, no_end (keys_at backend (backend key) keys) key)
    | inr e ↦
        let other : keys_at backend i (keys ++ key ∷ []) ≡ keys_at backend i keys =
          keys_at-other backend i keys key (ground arith) in
        rw (e, other) (h i)
  ]
