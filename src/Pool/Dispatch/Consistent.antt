-- ===== src/Pool/Dispatch/Consistent.antt =====
-- Consistent hashing: what a change of the servers does to the owners of hashes.
use wx_cache_proxy.Base.{
  ℕ, ◌≤◌, ◌≡◌, ◌≢◌, refl, ap, sym, ◌∙◌, List, [], ◌∷◌, none, some, arith, ◌==◌, if◌then◌else◌,
  length, Option-cases, inl, inr, All, get_or,
}
use wx_cache_proxy.Pool.State.{Point}
use wx_cache_proxy.Pool.Dispatch.{no_point, ketama_dispatch}
use wx_cache_proxy.Pool.Dispatch.Search.{
  IsSorted, find_point, owner, owner_of_some, owner_of_none, ketama_dispatch-eq-owner,
}

-- The continuum without the points of one server.
unfoldable pub without : ℕ → List Point → List Point
without s [] = []
without s (p ∷ c) = if p.index == s then without s c else p ∷ without s c

without-All : (P : Point → Type 0) (s : ℕ) (c : List Point) → All P c → All P (without s c)
unfolding without
without-All P s [] h = tt
without-All P s (p ∷ c) h = ground (arith, without-All P s c h.1)

pub without-IsSorted : (s : ℕ) (c : List Point) → IsSorted c → IsSorted (without s c)
unfolding without
without-IsSorted s [] h = tt
without-IsSorted s (p ∷ c) h =
    ground (arith, without-IsSorted s c h.1, without-All (λ q. p.value ≤ q.value) s c h.0)

find_point-without :
    (s hash : ℕ) (c : List Point) (p : Point)
    → find_point hash c ≡ some p
    → p.index ≢ s
    → find_point hash (without s c) ≡ some p
unfolding without find_point
find_point-without s hash [] p e n = cc
find_point-without s hash (q ∷ c) p e n = ground (arith, find_point-without s hash c p)

find_point-without-none :
    (s hash : ℕ) (c : List Point) → find_point hash c ≡ none → find_point hash (without s c) ≡ none
unfolding without find_point
find_point-without-none s hash [] e = refl
find_point-without-none s hash (q ∷ c) e = ground (arith, find_point-without-none s hash c)

without-keep :
    (s : ℕ) (q : Point) (c : List Point) → q.index ≢ s → without s (q ∷ c) ≡ q ∷ without s c
unfolding without
without-keep s q c n = ground arith

owner-without :
    (s hash : ℕ) (c : List Point)
    → c ≢ []
    → (owner hash c).index ≢ s
    → owner hash (without s c) ≡ owner hash c
owner-without s hash [] ne n = absurd (ne refl)
owner-without s hash (q ∷ c) ne n = elim (Option-cases (find_point hash (q ∷ c))) [
  | inl e ↦
      let head = owner_of_none hash (q ∷ c) e in
      let stays = without-keep s q c (λ h. n (ap (λ p. p.index) head ∙ h)) in
      owner_of_none hash (without s (q ∷ c)) (find_point-without-none s hash (q ∷ c) e)
      ∙ ap (λ l. get_or l 0 no_point) stays
      ∙ sym head
  | inr (p, e) ↦
      let here = owner_of_some hash (q ∷ c) e in
      owner_of_some hash (without s (q ∷ c))
        (find_point-without s hash (q ∷ c) p e (λ h. n (ap (λ r. r.index) here ∙ h)))
      ∙ sym here
]

-- Taking a server off a sorted continuum that is not empty moves no hash but those that went to
-- this server.
pub ketama_dispatch-without :
    (s hash : ℕ) (c : List Point)
    → IsSorted c
    → c ≢ []
    → ketama_dispatch c (length c) hash ≢ s
    → ketama_dispatch (without s c) (length (without s c)) hash ≡ ketama_dispatch c (length c) hash
ketama_dispatch-without s hash c o ne n =
    let here = ketama_dispatch-eq-owner c hash o in
    ketama_dispatch-eq-owner (without s c) hash (without-IsSorted s c o)
    ∙ ap (λ p. p.index) (owner-without s hash c ne (λ e. n (here ∙ e)))
    ∙ sym here
