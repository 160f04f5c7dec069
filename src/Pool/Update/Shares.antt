-- ===== src/Pool/Update/Shares.antt =====
-- The shares of the servers in a continuum built by `modula_update`, and the space that it takes.
use wx_cache_proxy.Base.{
  ℕ, zero, suc, ◌+◌, ◌^◌, ◌≤◌, ◌<◌, ◌≡◌, ◌≢◌, refl, ap, ◌∙◌, Bool, List, [], ◌∷◌, map, some, arith,
  ◌==◌, if◌then◌else◌, length, length-append, length-replicate, replicate, nc_ok,
}
use wx_cache_proxy.Pool.State.{Point, Server, Pool}
use wx_cache_proxy.Pool.Update.{
  Tally, build, modula_points, skips, install, grow, survey, modula_rebuild,
}
use wx_cache_proxy.Pool.Update.Survey.{
  refresh, skips-refresh, weight-refresh, live_weight, survey-Surveyed, survey-weight,
}
use wx_cache_proxy.Pool.Update.Live.{count, count-append, modula_points-Own}

-- What the server at an index is due: its weight if it is live, and nothing otherwise.
unfoldable pub weight_at : (Server → Bool) → List Server → ℕ → ℕ
weight_at skip [] k = 0
weight_at skip (s ∷ ss) zero = if skip s then 0 else s.weight
weight_at skip (s ∷ ss) (suc k) = weight_at skip ss k

abbrev pub at_index : ℕ → Point → Bool
at_index k p = p.index == k

count-replicate : (i n : ℕ) → count (at_index i) (replicate n (record { index = i; value = 0 })) ≡ n
unfolding count
count-replicate i zero = refl
count-replicate i (suc n) = ground (arith, count-replicate i n)

other_points : (i k : ℕ) (s : Server) → i ≢ k → count (at_index k) (modula_points i s) ≡ 0
other_points i k s ne = modula_points-Own (at_index k) i s (λ v. ground arith)

module _ (skip : Server → Bool) where
  earlier_index :
      (ss : List Server) (i k : ℕ) → k < i → count (at_index k) (build skip modula_points i ss) ≡ 0
  unfolding build count
  earlier_index [] i k h = refl
  earlier_index (s ∷ ss) i k h = ground (
    arith,
    earlier_index ss (i + 1) k,
    other_points i k s,
    count-append (at_index k) (modula_points i s) (build skip modula_points (i + 1) ss),
  )

  -- Each live server has as many points as its weight, and no other server has any.
  pub build-weight_at :
      (ss : List Server) (i k j : ℕ)
      → i + k ≡ j
      → count (at_index j) (build skip modula_points i ss) ≡ weight_at skip ss k
  unfolding build count weight_at
  build-weight_at [] i k j e = refl
  build-weight_at (s ∷ ss) i zero j e =
      let here : count (at_index j) (modula_points i s) ≡ s.weight =
        unfold modula_points in ground (arith, count-replicate i s.weight) in
      ground (
        arith,
        earlier_index ss (i + 1) j,
        here,
        count-append (at_index j) (modula_points i s) (build skip modula_points (i + 1) ss),
      )
  build-weight_at (s ∷ ss) i (suc k) j e = ground (
    arith,
    build-weight_at ss (i + 1) k j,
    other_points i j s,
    count-append (at_index j) (modula_points i s) (build skip modula_points (i + 1) ss),
  )

length-modula_points : (i : ℕ) (s : Server) → length (modula_points i s) ≡ s.weight
unfolding modula_points
length-modula_points i s = length-replicate s.weight _

length-build :
    (a : Bool) (now : ℕ) (ss : List Server) (i : ℕ)
    → length (build (skips a now) modula_points i ss) ≡ live_weight a now ss
unfolding build live_weight
length-build a now [] i = refl
length-build a now (s ∷ ss) i = ground (
  arith,
  length-build a now ss (i + 1),
  length-append (modula_points i s) (build (skips a now) modula_points (i + 1) ss),
  length-modula_points i s,
)

live_weight-refresh :
    (a : Bool) (now : ℕ) (ss : List Server)
    → live_weight a now (map (refresh a now) ss) ≡ live_weight a now ss
unfolding live_weight
live_weight-refresh a now [] = refl
live_weight-refresh a now (s ∷ ss) =
    ground (arith, live_weight-refresh a now ss, skips-refresh a now s, weight-refresh a now s)

pub install_new :
    (pool : Pool) (counted : List Server × Tally) (wanted : ℕ) (ok : Bool) (pointers : ℕ)
    (points : List Point) {p : Pool}
    → install pool counted wanted ok pointers points ≡ (nc_ok, p)
    → 0 < p.nlive_server
    → (p.continuum ≡ points)
      × (p.ncontinuum ≡ pointers)
      × (p.server ≡ counted.0)
      × (p.auto_eject_hosts ≡ pool.auto_eject_hosts)
      × (grow wanted pool.nserver_continuum ok ≡ some p.nserver_continuum)
unfolding install
install_new pool counted wanted ok pointers points u h = ground arith

grow_enough :
    (wanted n : ℕ) (ok : Bool) {n' : ℕ}
    → wanted + 10 < 2 ^ 32
    → grow wanted n ok ≡ some n'
    → wanted ≤ n'
unfolding grow
grow_enough wanted n ok h e = ground arith

-- After a successful `modula_update` with a live server, whose live weights sum up to less than
-- 2^32 - 10: the points number the live weights, fit the space allocated for the continuum, and
-- each server has as many of them as its weight if it is live, and none otherwise.
pub modula_rebuild-shares :
    (pool : Pool) (now : ℕ) (ok : Bool) {p : Pool}
    → modula_rebuild pool now ok ≡ (nc_ok, p)
    → 0 < p.nlive_server
    → live_weight pool.auto_eject_hosts now pool.server + 10 < 2 ^ 32
    → (p.ncontinuum ≡ live_weight pool.auto_eject_hosts now pool.server)
      × (p.ncontinuum ≤ p.nserver_continuum)
      × ((k : ℕ)
          → count (at_index k) p.continuum ≡ weight_at (skips p.auto_eject_hosts now) p.server k)
unfolding modula_rebuild
modula_rebuild-shares pool now ok {p} u h small =
    let a = pool.auto_eject_hosts in
    let counted = survey a now pool.server in
    let points = build (skips a now) modula_points 0 counted.0 in
    let new = install_new pool counted (counted.1).total_weight ok _ points u h in
    let total = survey-weight a now pool.server (omega arith) in
    let size : length points ≡ live_weight a now pool.server =
      length-build a now counted.0 0
      ∙ ap (live_weight a now) (survey-Surveyed a now pool.server).servers
      ∙ live_weight-refresh a now pool.server in
    let measured : p.ncontinuum ≡ live_weight a now pool.server = omega (arith, new.1, size) in
    (
      measured,
      omega (
        arith,
        grow_enough _ pool.nserver_continuum ok (omega (arith, total)) new.4,
        total,
        size,
        new.1,
      ),
      λ k. rw (new.0, new.2, new.3) (build-weight_at (skips a now) counted.0 0 k k (omega arith)),
    )
