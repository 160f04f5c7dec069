-- ===== src/Redis/Coalesce/Missing.antt =====
-- nc_redis.c: a fragment without a response, in the answer to MGET.
use wx_cache_proxy.Base.{
  ℕ, suc, ◌≡◌, refl, sym, ap, ◌∙◌, Bool, true, List, [], ◌∷◌, ◌++◌, Option, none, some, ◌==◌,
  Status, nc_ok, nc_error, nc_enomem, arith, Bool-cases, Option-cases, inl, inr,
}
use wx_cache_proxy.Buffer.Message.{Message}
use wx_cache_proxy.Redis.Coalesce.{
  Joined, update, join_next, join_bulks, after_count, redis_post_coalesce_mget,
}

-- Another fragment's response changes nothing for the one that has none.
update-none :
    (fragments : ℕ → Option Message) (i k : ℕ) (old sub : Message)
    → fragments i ≡ some old
    → fragments k ≡ none
    → update fragments i sub k ≡ none
unfolding update
update-none fragments i k old sub found missing = elim (Bool-cases (k == i)) [
  | inl e ↦
      let same : k ≡ i = ground arith in absurd (apart (sym missing ∙ ap fragments same ∙ found))
  | inr e ↦ rw e missing
]
  where
    apart : {m : Message} → ¬ (none ≡ some m)
    apart e = cc

module _ (offset : ℕ) (print : ℕ → List ℕ) where
  join_next-closed :
      (j : Joined) (i k : ℕ) (old : Message) (next : Joined → Joined)
      (out : Status × Option Message × Message)
      → j.fragments i ≡ some old
      → j.fragments k ≡ none
      → ((j1 : Joined) → j1.fragments k ≡ none → (next j1).closed ≡ true)
      → (join_next offset print j i next out).closed ≡ true
  unfolding join_next
  join_next-closed j i k old next (nc_ok, some response, sub) found missing h =
      h _ (update-none j.fragments i k old sub found missing)
  join_next-closed j i k old next (nc_ok, none, sub) found missing h = h j missing
  join_next-closed j i k old next (nc_error, some response, sub) found missing h = refl
  join_next-closed j i k old next (nc_error, none, sub) found missing h = refl
  join_next-closed j i k old next (nc_enomem, some response, sub) found missing h = refl
  join_next-closed j i k old next (nc_enomem, none, sub) found missing h = refl

  join_bulks-closed :
      (memory : ℕ → Bool) (before after : List ℕ) (k : ℕ) (j : Joined)
      → j.fragments k ≡ none
      → (join_bulks offset print memory (before ++ k ∷ after) j).closed ≡ true
  unfolding join_bulks
  join_bulks-closed memory [] after k j missing = rw (missing, join_bulks) refl
  join_bulks-closed memory (i ∷ before) after k j missing = elim (Option-cases (j.fragments i)) [
    | inl e ↦ rw (e, join_bulks) refl
    | inr (old, e) ↦
        rw (e, join_bulks)
          (join_next-closed j i k old
            (join_bulks offset print (λ n. memory (suc n)) (before ++ k ∷ after)) _ e missing
            (λ j1 m. join_bulks-closed (λ n. memory (suc n)) before after k j1 m))
  ]

  after_count-closed :
      (memory : ℕ → Bool) (before after : List ℕ) (k : ℕ) (j : Joined) (out : Status × Message)
      → j.fragments k ≡ none
      → (after_count offset print memory (before ++ k ∷ after) j out).closed ≡ true
  unfolding after_count
  after_count-closed memory before after k j (nc_ok, response) missing =
      join_bulks-closed memory before after k (record j { response = response }) missing
  after_count-closed memory before after k j (nc_error, response) missing = refl
  after_count-closed memory before after k j (nc_enomem, response) missing = refl

  -- If the fragment of one of the keys of a divided MGET has no response,
  -- `redis_post_coalesce_mget` marks the connection of the client for closing, whatever memory is
  -- found and whatever the other responses hold.
  pub redis_post_coalesce_mget-closes :
      (header : Bool) (memory : ℕ → Bool) (narg : ℕ) (before after : List ℕ) (k : ℕ) (j : Joined)
      → j.fragments k ≡ none
      → (redis_post_coalesce_mget offset print header memory narg (before ++ k ∷ after) j).closed
        ≡ true
  unfolding redis_post_coalesce_mget
  redis_post_coalesce_mget-closes header memory narg before after k j missing =
      after_count-closed memory before after k j _ missing
