-- ===== src/Pool/Update/Ketama.antt =====
-- hashkit/nc_ketama.c: the points of a continuum built by `ketama_update`, and their order.
use wx_cache_proxy.Base.{
  ℕ, zero, suc, ◌+◌, ◌*◌, ◌/◌, ◌%◌, ◌^◌, ◌≤◌, ◌<◌, ◌≡◌, ◌≢◌, refl, sym, ap, ◌∙◌, Bool, true, List,
  [], ◌∷◌, ◌++◌, arith, if◌then◌else◌, length, take, drop, nc_ok, subst,
}
use wx_cache_proxy.Pool.State.{Point, Server, Pool, Platform}
use wx_cache_proxy.Pool.Dispatch.Search.{IsSorted}
use wx_cache_proxy.Pool.Update.{
  Tally, build, survey, install, skips, pointer_per_server, host_points, ketama_points,
  count_pointers, sort_first, ketama_rebuild,
}
use wx_cache_proxy.Pool.Update.Survey.{live_weight, survey-weight}
use wx_cache_proxy.Pool.Update.Live.{count, count-append, count_all, ketama_points-Own}
use wx_cache_proxy.Pool.Update.Fresh.{Sorts, Quadruples, count-sort_first, count_pointers-length}
use wx_cache_proxy.Pool.Update.Shares.{at_index, install_new}

-- What the server at an index is due: its number of points if it is live, and nothing otherwise.
unfoldable pub points_at : (Server → Bool) → (Server → ℕ) → List Server → ℕ → ℕ
points_at skip number [] k = 0
points_at skip number (s ∷ ss) zero = if skip s then 0 else number s
points_at skip number (s ∷ ss) (suc k) = points_at skip number ss k

install_live :
    (pool : Pool) (counted : List Server × Tally) (wanted : ℕ) (ok : Bool) (pointers : ℕ)
    (points : List Point) {p : Pool}
    → install pool counted wanted ok pointers points ≡ (nc_ok, p)
    → p.nlive_server ≡ counted.1.nlive_server
unfolding install
install_live pool counted wanted ok pointers points u = ground arith

take-append : (xs ys : List Point) → take (length xs) (xs ++ ys) ≡ xs
take-append [] ys = refl
take-append (x ∷ xs) ys = ap (◌∷◌ x) (take-append xs ys)

length-take : (n : ℕ) (xs : List Point) → n ≤ length xs → length (take n xs) ≡ n
length-take zero xs h = refl
length-take (suc n) [] h = absurd (omega arith)
length-take (suc n) (x ∷ xs) h = ap suc (length-take n xs (omega arith))

module _ {F : Type 0} (platform : Platform F) where
  count-host_points :
      (i : ℕ) (s : Server) (n k : ℕ) → count (at_index i) (host_points platform i s k n) ≡ 4 * n
  unfolding host_points count
  count-host_points i s zero k = omega arith
  count-host_points i s (suc n) k = ground (arith, count-host_points i s n (k + 1))

  module _ (total nlive : ℕ) where
    own_points :
        Quadruples platform
        → (i : ℕ) (s : Server)
        → count (at_index i) (ketama_points platform total nlive i s)
          ≡ pointer_per_server platform total nlive s
    unfolding ketama_points
    own_points fourfold i s = omega (
      arith,
      fourfold total nlive s,
      count-host_points i s (pointer_per_server platform total nlive s / 4) 0,
    )

    other_points :
        (i k : ℕ) (s : Server)
        → i ≢ k
        → count (at_index k) (ketama_points platform total nlive i s) ≡ 0
    other_points i k s ne =
        ketama_points-Own platform total nlive (at_index k) i s (λ v. ground arith)

    module _ (skip : Server → Bool) where
      abbrev all_points : ℕ → List Server → List Point
      all_points = build skip (ketama_points platform total nlive)

      earlier_index :
          (ss : List Server) (i k : ℕ) → k < i → count (at_index k) (all_points i ss) ≡ 0
      unfolding build count
      earlier_index [] i k h = refl
      earlier_index (s ∷ ss) i k h = ground (
        arith,
        earlier_index ss (i + 1) k,
        other_points i k s,
        count-append (at_index k) (ketama_points platform total nlive i s) (all_points (i + 1) ss),
      )

      build-points_at :
          Quadruples platform
          → (ss : List Server) (i k j : ℕ) → i + k ≡ j
          → count (at_index j) (all_points i ss)
            ≡ points_at skip (pointer_per_server platform total nlive) ss k
      unfolding build count points_at
      build-points_at fourfold [] i k j e = refl
      build-points_at fourfold (s ∷ ss) i zero j e =
          let same : i ≡ j = omega arith in
          let here : count (at_index j) (ketama_points platform total nlive i s)
              ≡ pointer_per_server platform total nlive s =
            rw (← same) (own_points fourfold i s) in
          ground (
            arith,
            earlier_index ss (i + 1) j,
            here,
            count-append (at_index j) (ketama_points platform total nlive i s)
                (all_points (i + 1) ss),
          )
      build-points_at fourfold (s ∷ ss) i (suc k) j e = ground (
        arith,
        build-points_at fourfold ss (i + 1) k j,
        other_points i j s,
        count-append (at_index j) (ketama_points platform total nlive i s) (all_points (i + 1) ss),
      )

  -- The points that are sorted are sorted.
  take-sort_first :
      Sorts F platform
      → (n : ℕ) (c : List Point) → n ≤ length c
      → IsSorted (take n (sort_first platform n c))
  unfolding sort_first
  take-sort_first sorts n c h =
      let sorted = platform.sort (take n c) in
      let size : length sorted ≡ n =
        sym (count_all sorted)
        ∙ sorts.same (λ p. true) (take n c)
        ∙ count_all (take n c)
        ∙ length-take n c h in
      let e : take n (sorted ++ drop n c) ≡ sorted =
        ap (λ k. take k (sorted ++ drop n c)) (sym size) ∙ take-append sorted (drop n c) in
      subst IsSorted (sym e) (sorts.sorted (take n c))

  -- After a successful `ketama_update` with a live server, whose live weights sum up to less than
  -- 2^32: the first `ncontinuum` points are sorted, as the binary search needs it; `ncontinuum` is
  -- the number of points, modulo 2^32; and each server has as many points as the formula gives for
  -- its weight, the sum of the live weights and the number of live servers, if it is live, and none
  -- otherwise. The platform sorts as qsort documents, and converts floorf(x) * 4 to a multiple of
  -- four.
  pub ketama_rebuild-shares :
      Sorts F platform
      → Quadruples platform
      → (pool : Pool) (now : ℕ) (ok : Bool) {p : Pool}
      → ketama_rebuild platform pool now ok ≡ (nc_ok, p)
      → 0 < p.nlive_server
      → live_weight pool.auto_eject_hosts now pool.server < 2 ^ 32
      → IsSorted (take p.ncontinuum p.continuum)
        × (p.ncontinuum ≡ length p.continuum % 2 ^ 32)
        × ((k : ℕ)
            → count (at_index k) p.continuum
              ≡ points_at
                  (skips p.auto_eject_hosts now)
                  (pointer_per_server platform
                    (live_weight pool.auto_eject_hosts now pool.server)
                    p.nlive_server)
                  p.server
                  k)
  unfolding ketama_rebuild
  ketama_rebuild-shares sorts fourfold pool now ok {p} u h small =
      let a = pool.auto_eject_hosts in
      let counted = survey a now pool.server in
      let skip = skips a now in
      let total = (counted.1).total_weight in
      let nlive = (counted.1).nlive_server in
      let points = build skip (ketama_points platform total nlive) 0 counted.0 in
      let n = count_pointers platform skip (pointer_per_server platform total nlive) counted.0 in
      let new = install_new pool counted nlive ok n _ u h in
      let size : n ≡ length points % 2 ^ 32 =
        count_pointers-length platform fourfold skip total nlive counted.0 0 in
      let live : p.nlive_server ≡ nlive = install_live pool counted nlive ok n _ u in
      let weight : total ≡ live_weight a now pool.server = survey-weight a now pool.server small in
      let number : (k : ℕ)
          → count (at_index k) points
            ≡ points_at skip (pointer_per_server platform (live_weight a now pool.server) nlive)
                counted.0 k =
        λ k.
          build-points_at total nlive skip fourfold counted.0 0 k k (omega arith)
          ∙ ap (λ t. points_at skip (pointer_per_server platform t nlive) counted.0 k) weight in
      rw (new.0, new.1, new.2, new.3, live)
        (
          take-sort_first sorts n points (omega (arith, size)),
          size
              ∙ ap (λ k. k % 2 ^ 32)
                  (sym (count_all points)
                    ∙ sym (count-sort_first sorts (λ q. true) n points)
                    ∙ count_all (sort_first platform n points)),
          λ k. count-sort_first sorts (at_index k) n points ∙ number k,
        )
