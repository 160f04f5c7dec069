-- ===== src/Pool/Route/Landing.antt =====
-- nc_server.c: the servers that a key can reach after a rebuild.
use wx_cache_proxy.Base.{
  ℕ, ◌%◌, ◌^◌, ◌<◌, ◌≡◌, refl, Bool, false, List, some, arith, length, get_elem?, nc_ok,
}
use wx_cache_proxy.Pool.State.{
  Point, Server, Pool, Dist, dist_ketama, dist_modula, dist_random, Platform, Moment,
}
use wx_cache_proxy.Pool.Dispatch.{point_at, modula_dispatch, random_dispatch}
use wx_cache_proxy.Pool.Dispatch.Search.{ketama_dispatch_point}
use wx_cache_proxy.Pool.Update.{skips, modula_update, random_update, ketama_update}
use wx_cache_proxy.Pool.Update.Live.{misses, count_zero}
use wx_cache_proxy.Pool.Update.Fresh.{
  IsFresh, Sorts, Quadruples, modula_rebuild-IsFresh, random_rebuild-IsFresh,
  ketama_rebuild-IsFresh,
}
use wx_cache_proxy.Pool.Route.{
  dispatch, server_pool_idx, server_pool_server, server_pool_run, run_dist, server_pool_hash,
  tagged_key,
}

-- Every distribution picks a point of the continuum.
dispatch_point :
    (d : Dist) (p : Pool) (hash rand : ℕ)
    → p.ncontinuum ≡ length p.continuum
    → 0 < length p.continuum
    → (i : ℕ) × (i < length p.continuum) × (dispatch d p hash rand ≡ (point_at p.continuum i).index)
unfolding dispatch modula_dispatch random_dispatch
dispatch_point dist_ketama p hash rand m h = rw m (ketama_dispatch_point p.continuum hash h)
dispatch_point dist_modula p hash rand m h = (hash % p.ncontinuum, omega arith, refl)
dispatch_point dist_random p hash rand m h = (rand % p.ncontinuum, omega arith, refl)

lands_of_point :
    (skip : Server → Bool) (servers : List Server) (p : Point)
    → misses skip servers p ≡ false
    → (s : Server) × (get_elem? servers p.index ≡ some s) × (skip s ≡ false)
unfolding misses
lands_of_point skip servers p h = ground arith

-- A live server of the pool, at index `i`.
abbrev pub IsLiveAt : ℕ → Pool → ℕ → Type 0
IsLiveAt now p i =
    (s : Server) × (get_elem? p.server i ≡ some s) × (skips p.auto_eject_hosts now s ≡ false)

pub IsFresh-lands :
    (now : ℕ) (p : Pool) (key : List ℕ) (rand : ℕ)
    → IsFresh now p
    → length p.continuum < 2 ^ 32
    → 0 < p.ncontinuum
    → IsLiveAt now p (server_pool_idx p key rand)
unfolding server_pool_idx
IsFresh-lands now p key rand f small h =
    let full : p.ncontinuum ≡ length p.continuum = omega (arith, f.measured) in
    let (i, within, at) =
      dispatch_point p.dist_type p (server_pool_hash p (tagged_key p.hash_tag key)) rand full
        (omega arith) in
    let (s, there, live) =
      lands_of_point (skips p.auto_eject_hosts now) p.server (point_at p.continuum i)
        (count_zero _ p.continuum i f.lands within) in
    (s, rw at there, live)

pub run_dist-IsFresh :
    {F : Type 0} (platform : Platform F) (d : Dist) (pool : Pool) (m : Moment) (now : ℕ) {p : Pool}
    → Sorts F platform
    → Quadruples platform
    → m.now ≡ some now
    → run_dist platform d pool m ≡ (nc_ok, p)
    → 0 < p.nlive_server
    → IsFresh now p
unfolding run_dist modula_update random_update ketama_update
run_dist-IsFresh platform dist_ketama pool m now sorts fourfold e u h =
    ketama_rebuild-IsFresh platform fourfold sorts pool now m.realloc_ok (ground arith) h
run_dist-IsFresh platform dist_modula pool m now sorts fourfold e u h =
    modula_rebuild-IsFresh pool now m.realloc_ok (ground arith) h
run_dist-IsFresh platform dist_random pool m now sorts fourfold e u h =
    random_rebuild-IsFresh pool now m.realloc_ok (ground arith) h

-- After a successful rebuild at time `now` with a live server and a continuum that is not empty and
-- has fewer than 2^32 points, every key goes to a server of the pool that is live at `now`. The
-- platform sorts as qsort documents, and converts floorf(x) * 4 to a multiple of four.
pub server_pool_run-lands :
    {F : Type 0} (platform : Platform F) (pool : Pool) (m : Moment) (now : ℕ) {p : Pool}
    (key : List ℕ) (rand : ℕ)
    → Sorts F platform
    → Quadruples platform
    → m.now ≡ some now
    → server_pool_run platform pool m ≡ (nc_ok, p)
    → 0 < p.nlive_server
    → length p.continuum < 2 ^ 32
    → 0 < p.ncontinuum
    → (s : Server) × (server_pool_server p key rand ≡ some s)
      × (skips p.auto_eject_hosts now s ≡ false)
unfolding server_pool_run server_pool_server
server_pool_run-lands platform pool m now {p} key rand sorts fourfold e u h small full =
    IsFresh-lands now p key rand
      (run_dist-IsFresh platform pool.dist_type pool m now sorts fourfold e u h) small full
