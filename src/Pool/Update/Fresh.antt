-- ===== src/Pool/Update/Fresh.antt =====
-- What a successful rebuild leaves in the pool, for each of the three distributions.
use wx_cache_proxy.Base.{
  ℕ, zero, suc, ◌+◌, ◌*◌, ◌/◌, ◌%◌, ◌^◌, ◌<◌, ◌≡◌, refl, sym, ap, ◌∙◌, Bool, true, List, [], ◌∷◌,
  arith, length, length-append, take, drop, ◌++◌, nc_ok,
}
use wx_cache_proxy.Pool.State.{Point, Server, Pool, Platform}
use wx_cache_proxy.Pool.Dispatch.Search.{IsSorted}
use wx_cache_proxy.Pool.Update.{
  Tally, build, survey, survey_unweighted, modula_points, random_points, ketama_points, host_points,
  pointer_per_server, count_pointers, skips, install, sort_first, modula_rebuild, random_rebuild,
  ketama_rebuild,
}
use wx_cache_proxy.Pool.Update.Live.{
  count, count-append, count_all, misses, build-misses, modula_points-Own, random_points-Own,
  ketama_points-Own,
}

-- `qsort` is documented to order the points by value and to keep each of them.
pub record Sorts (F : Type 0) (platform : Platform F) : Type 0 where
  pub sorted : (c : List Point) → IsSorted (platform.sort c)
  pub same : (test : Point → Bool) (c : List Point) → count test (platform.sort c) ≡ count test c

-- The float expression ends in `floorf(...) * 4`, which converts to a multiple of four.
abbrev pub Quadruples : {F : Type 0} → Platform F → Type 0
Quadruples platform =
    (total nlive : ℕ) (s : Server) → pointer_per_server platform total nlive s % 4 ≡ 0

take-drop : (n : ℕ) (c : List Point) → take n c ++ drop n c ≡ c
take-drop zero c = refl
take-drop (suc n) [] = refl
take-drop (suc n) (x ∷ c) = ap (◌∷◌ x) (take-drop n c)

pub count-sort_first :
    {F : Type 0} {platform : Platform F}
    → Sorts F platform
    → (test : Point → Bool) (n : ℕ) (c : List Point)
    → count test (sort_first platform n c) ≡ count test c
unfolding sort_first
count-sort_first {platform = platform} sorts test n c =
    count-append test (platform.sort (take n c)) (drop n c)
    ∙ ap (λ k. k + count test (drop n c)) (sorts.same test (take n c))
    ∙ sym (count-append test (take n c) (drop n c))
    ∙ ap (count test) (take-drop n c)

length-sort_first :
    {F : Type 0} {platform : Platform F}
    → Sorts F platform
    → (n : ℕ) (c : List Point) → length (sort_first platform n c) ≡ length c
length-sort_first {platform = platform} sorts n c =
    sym (count_all (sort_first platform n c)) ∙ count-sort_first sorts (λ p. true) n c ∙ count_all c

-- The continuum of `p` was built at time `now`: its length is recorded modulo 2^32, and no point
-- misses the live servers.
pub record IsFresh (now : ℕ) (p : Pool) : Type 0 where
  pub measured : p.ncontinuum ≡ length p.continuum % 2 ^ 32
  pub lands : count (misses (skips p.auto_eject_hosts now) p.server) p.continuum ≡ 0

module _ (pool : Pool) (counted : List Server × Tally) (wanted : ℕ) (ok : Bool) (pointers : ℕ)
    (points : List Point) {p : Pool} where
  pub install-IsFresh :
      (now : ℕ)
      → pointers ≡ length points % 2 ^ 32
      → count (misses (skips pool.auto_eject_hosts now) counted.0) points ≡ 0
      → install pool counted wanted ok pointers points ≡ (nc_ok, p)
      → 0 < p.nlive_server
      → IsFresh now p
  unfolding install
  install-IsFresh now m l e h = ground arith

pub modula_rebuild-IsFresh :
    (pool : Pool) (now : ℕ) (ok : Bool) {p : Pool}
    → modula_rebuild pool now ok ≡ (nc_ok, p)
    → 0 < p.nlive_server
    → IsFresh now p
unfolding modula_rebuild
modula_rebuild-IsFresh pool now ok u h =
    let counted = survey pool.auto_eject_hosts now pool.server in
    install-IsFresh pool counted _ ok _ _ now refl
      (build-misses (skips pool.auto_eject_hosts now) modula_points modula_points-Own counted.0 []
        counted.0 0 refl refl)
      u h

pub random_rebuild-IsFresh :
    (pool : Pool) (now : ℕ) (ok : Bool) {p : Pool}
    → random_rebuild pool now ok ≡ (nc_ok, p)
    → 0 < p.nlive_server
    → IsFresh now p
unfolding random_rebuild
random_rebuild-IsFresh pool now ok u h =
    let counted = survey_unweighted pool.auto_eject_hosts now pool.server in
    install-IsFresh pool counted _ ok _ _ now refl
      (build-misses (skips pool.auto_eject_hosts now) random_points random_points-Own counted.0 []
        counted.0 0 refl refl)
      u h

module _ {F : Type 0} (platform : Platform F) (fourfold : Quadruples platform) where
  length-host_points :
      (i : ℕ) (s : Server) (n k : ℕ) → length (host_points platform i s k n) ≡ 4 * n
  unfolding host_points
  length-host_points i s zero k = omega arith
  length-host_points i s (suc n) k = omega (arith, length-host_points i s n (k + 1))

  length-ketama_points :
      (total nlive i : ℕ) (s : Server)
      → length (ketama_points platform total nlive i s) ≡ pointer_per_server platform total nlive s
  unfolding ketama_points
  length-ketama_points total nlive i s = omega (
    arith,
    fourfold total nlive s,
    length-host_points i s (pointer_per_server platform total nlive s / 4) 0,
  )

  pub count_pointers-length :
      (skip : Server → Bool) (total nlive : ℕ) (ss : List Server) (i : ℕ)
      → count_pointers platform skip (pointer_per_server platform total nlive) ss
        ≡ length (build skip (ketama_points platform total nlive) i ss) % 2 ^ 32
  unfolding count_pointers build
  count_pointers-length skip total nlive [] i = omega arith
  count_pointers-length skip total nlive (s ∷ ss) i = ground (
    arith,
    count_pointers-length skip total nlive ss (i + 1),
    length-ketama_points total nlive i s,
    length-append (ketama_points platform total nlive i s)
        (build skip (ketama_points platform total nlive) (i + 1) ss),
  )

  pub ketama_rebuild-IsFresh :
      Sorts F platform
      → (pool : Pool) (now : ℕ) (ok : Bool) {p : Pool}
      → ketama_rebuild platform pool now ok ≡ (nc_ok, p)
      → 0 < p.nlive_server
      → IsFresh now p
  unfolding ketama_rebuild
  ketama_rebuild-IsFresh sorts pool now ok u h =
      let counted = survey pool.auto_eject_hosts now pool.server in
      let total = (counted.1).total_weight in
      let nlive = (counted.1).nlive_server in
      let skip = skips pool.auto_eject_hosts now in
      let points = build skip (ketama_points platform total nlive) 0 counted.0 in
      let n = count_pointers platform skip (pointer_per_server platform total nlive) counted.0 in
      install-IsFresh pool counted _ ok _ _ now
        (count_pointers-length skip total nlive counted.0 0
          ∙ ap (λ k. k % 2 ^ 32) (sym (length-sort_first sorts n points)))
        (count-sort_first sorts _ n points
          ∙ build-misses skip (ketama_points platform total nlive)
              (ketama_points-Own platform total nlive) counted.0 [] counted.0 0 refl refl)
        u h
