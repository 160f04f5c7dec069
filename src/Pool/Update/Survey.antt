-- ===== src/Pool/Update/Survey.antt =====
-- What the counting loop leaves behind: the servers with their retry times cleared, the numbers of
-- live servers and of their weights, and the time of the next rebuild.
use wx_cache_proxy.Base.{
  ℕ, suc, ◌+◌, ◌%◌, ◌^◌, ◌≤◌, ◌<◌, ◌≡◌, refl, ap₂, Bool, true, false, ◌&&◌, ◌||◌, List, [], ◌∷◌,
  map, arith, ltb, leb, ◌==◌, if◌then◌else◌, ◌⊎◌, inl,
}
use wx_cache_proxy.Pool.State.{Server}
use wx_cache_proxy.Pool.Update.{
  Tally, no_tally, count_server, weigh_server, each_server, survey, survey_unweighted, skips,
  add_u32,
}

-- A live server's retry time is cleared.
unfoldable pub refresh : Bool → ℕ → Server → Server
refresh auto_eject now s =
    if auto_eject && leb s.next_retry now then record s { next_retry = 0 } else s

-- The number of live servers, and the sum of their weights.
unfoldable pub live_count : Bool → ℕ → List Server → ℕ
live_count auto_eject now [] = 0
live_count auto_eject now (s ∷ ss) =
    if skips auto_eject now s
    then live_count auto_eject now ss
    else suc (live_count auto_eject now ss)

unfoldable pub live_weight : Bool → ℕ → List Server → ℕ
live_weight auto_eject now [] = 0
live_weight auto_eject now (s ∷ ss) =
    if skips auto_eject now s
    then live_weight auto_eject now ss
    else s.weight + live_weight auto_eject now ss

pub skips-refresh :
    (a : Bool) (now : ℕ) (s : Server) → skips a now (refresh a now s) ≡ skips a now s
unfolding skips refresh
skips-refresh a now s = ground arith

pub weight-refresh : (a : Bool) (now : ℕ) (s : Server) → (refresh a now s).weight ≡ s.weight
unfolding refresh
weight-refresh a now s = ground arith

-- One round of the loop, in terms of the test that the building loop makes.
record Counts (a : Bool) (now : ℕ) (s : Server) (t t' : Tally) : Type 0 where
  live : t'.nlive_server ≡ (if skips a now s then t.nlive_server else add_u32 t.nlive_server 1)
  rebuild : t'.next_rebuild ≡ (
      if skips a now s && (t.next_rebuild == 0 || ltb s.next_retry t.next_rebuild)
      then s.next_retry
      else t.next_rebuild)

abbrev one_round : Bool → ℕ → Server → Tally → Server × Tally
one_round a now s t = weigh_server a now (count_server a now s t)

count-Counts :
    (a : Bool) (now : ℕ) (s : Server) (t : Tally) → Counts a now s t (count_server a now s t).1
unfolding count_server skips
count-Counts true now s t = ground arith
count-Counts false now s t = ground arith

count-refresh :
    (a : Bool) (now : ℕ) (s : Server) (t : Tally) → (count_server a now s t).0 ≡ refresh a now s
unfolding count_server refresh
count-refresh true now s t = ground arith
count-refresh false now s t = ground arith

round-Counts :
    (a : Bool) (now : ℕ) (s : Server) (t : Tally) → Counts a now s t (one_round a now s t).1
unfolding weigh_server
round-Counts a now s t = ground (arith, count-Counts a now s t)

round-refresh :
    (a : Bool) (now : ℕ) (s : Server) (t : Tally) → (one_round a now s t).0 ≡ refresh a now s
unfolding weigh_server
round-refresh a now s t = ground (arith, count-refresh a now s t)

round-weight :
    (a : Bool) (now : ℕ) (s : Server) (t : Tally)
    → (one_round a now s t).1.total_weight
      ≡ (if skips a now s then t.total_weight else add_u32 t.total_weight s.weight)
unfolding count_server weigh_server skips
round-weight true now s t = ground arith
round-weight false now s t = ground arith

-- `r` is positive and no later than the retry time of each server that is not live.
abbrev pub NoLater : Bool → ℕ → ℕ → List Server → Type 0
NoLater a now r [] = Unit
NoLater a now r (s ∷ ss) =
    (skips a now s ≡ true → (0 < r) × (r ≤ s.next_retry)) × NoLater a now r ss

-- `r` is the retry time of a server that is not live.
abbrev pub Attained : Bool → ℕ → ℕ → List Server → Type 0
Attained a now r [] = ⊥
Attained a now r (s ∷ ss) = ((skips a now s ≡ true) × (s.next_retry ≡ r)) ⊎ Attained a now r ss

-- The loop, for either of the two bodies.
module _ (a : Bool) (now : ℕ) (body : Server → Tally → Server × Tally)
    (counts : (s : Server) (t : Tally) → Counts a now s t (body s t).1)
    (fresh : (s : Server) (t : Tally) → (body s t).0 ≡ refresh a now s) where
  each-refresh : (ss : List Server) (t : Tally) → (each_server body ss t).0 ≡ map (refresh a now) ss
  unfolding each_server
  each-refresh [] t = refl
  each-refresh (s ∷ ss) t = ap₂ ◌∷◌ (fresh s t) (each-refresh ss (body s t).1)

  each-live :
      (ss : List Server) (t : Tally)
      → (each_server body ss t).1.nlive_server % 2 ^ 32
        ≡ (t.nlive_server + live_count a now ss) % 2 ^ 32
  unfolding each_server live_count
  each-live [] t = ground arith
  each-live (s ∷ ss) t = ground (arith, (counts s t).live, each-live ss (body s t).1)

  each-le :
      (ss : List Server) (t : Tally)
      → 0 < t.next_rebuild
      → let r = (each_server body ss t).1.next_rebuild in (0 < r) × (r ≤ t.next_rebuild)
  unfolding each_server skips
  each-le [] t h = omega arith
  each-le (s ∷ ss) t h = ground (arith, (counts s t).rebuild, each-le ss (body s t).1)

  each-NoLater :
      (ss : List Server) (t : Tally) → NoLater a now (each_server body ss t).1.next_rebuild ss
  unfolding each_server skips
  each-NoLater [] t = tt
  each-NoLater (s ∷ ss) t = (
    λ dead. ground (arith, (counts s t).rebuild, each-le ss (body s t).1),
    each-NoLater ss (body s t).1,
  )

  each-Attained :
      (ss : List Server) (t : Tally)
      → let r = (each_server body ss t).1.next_rebuild in (r ≡ t.next_rebuild) ⊎ Attained a now r ss
  unfolding each_server skips
  each-Attained [] t = inl refl
  each-Attained (s ∷ ss) t = ground (arith, (counts s t).rebuild, each-Attained ss (body s t).1)

-- The weights, for the body that adds them.
each-weight :
    (a : Bool) (now : ℕ) (ss : List Server) (t : Tally)
    → (each_server (one_round a now) ss t).1.total_weight % 2 ^ 32
      ≡ (t.total_weight + live_weight a now ss) % 2 ^ 32
unfolding each_server live_weight
each-weight a now [] t = ground arith
each-weight a now (s ∷ ss) t =
    ground (arith, round-weight a now s t, each-weight a now ss (one_round a now s t).1)

-- The result of a survey: the servers refreshed, the live ones counted modulo 2^32, and the next
-- rebuild at the earliest retry time, or 0.
pub record Surveyed (a : Bool) (now : ℕ) (ss : List Server) (r : List Server × Tally) : Type 0 where
  pub servers : r.0 ≡ map (refresh a now) ss
  pub live : r.1.nlive_server % 2 ^ 32 ≡ live_count a now ss % 2 ^ 32
  pub no_later : NoLater a now r.1.next_rebuild ss
  pub attained : (r.1.next_rebuild ≡ 0) ⊎ Attained a now r.1.next_rebuild ss

pub survey-Surveyed : (a : Bool) (now : ℕ) (ss : List Server) → Surveyed a now ss (survey a now ss)
unfolding survey
survey-Surveyed a now ss = record {
  servers = each-refresh a now (one_round a now) (round-Counts a now) (round-refresh a now) ss _;
  live = ground (
    arith,
    each-live a now (one_round a now) (round-Counts a now) (round-refresh a now) ss no_tally,
  );
  no_later = each-NoLater a now (one_round a now) (round-Counts a now) (round-refresh a now) ss _;
  attained = each-Attained a now (one_round a now) (round-Counts a now) (round-refresh a now) ss _;
}

pub survey_unweighted-Surveyed :
    (a : Bool) (now : ℕ) (ss : List Server) → Surveyed a now ss (survey_unweighted a now ss)
unfolding survey_unweighted
survey_unweighted-Surveyed a now ss = record {
  servers = each-refresh a now (count_server a now) (count-Counts a now) (count-refresh a now) ss _;
  live = ground (
    arith,
    each-live a now (count_server a now) (count-Counts a now) (count-refresh a now) ss no_tally,
  );
  no_later =
      each-NoLater a now (count_server a now) (count-Counts a now) (count-refresh a now) ss _;
  attained =
      each-Attained a now (count_server a now) (count-Counts a now) (count-refresh a now) ss _;
}

each-weight-lt :
    (a : Bool) (now : ℕ) (ss : List Server) (t : Tally)
    → t.total_weight < 2 ^ 32
    → (each_server (one_round a now) ss t).1.total_weight < 2 ^ 32
unfolding each_server
each-weight-lt a now [] t h = h
each-weight-lt a now (s ∷ ss) t h =
    each-weight-lt a now ss (one_round a now s t).1 (ground (arith, round-weight a now s t))

-- The surveyed weight is the sum of the live weights, if that is below 2^32.
pub survey-weight :
    (a : Bool) (now : ℕ) (ss : List Server)
    → live_weight a now ss < 2 ^ 32
    → (survey a now ss).1.total_weight ≡ live_weight a now ss
unfolding survey
survey-weight a now ss h =
    omega (arith, each-weight a now ss no_tally, each-weight-lt a now ss no_tally (omega arith))
