-- ===== src/Pool/Route/Eject.antt =====
-- nc_server.c: `server_failure` and the ejection of a server.
use wx_cache_proxy.Base.{
  ℕ, zero, suc, ◌+◌, ◌^◌, ◌≤◌, ◌<◌, ◌≡◌, ◌≢◌, refl, ap, subst, Bool, true, false, List, [], ◌∷◌,
  map, none, some, arith, length, get_elem?, set, Status, nc_ok,
}
use wx_cache_proxy.Pool.State.{
  Server, Pool, Dist, dist_ketama, dist_modula, dist_random, Platform, Moment,
}
use wx_cache_proxy.Pool.Update.{skips, modula_update, random_update, ketama_update}
use wx_cache_proxy.Pool.Update.Survey.{refresh, skips-refresh}
use wx_cache_proxy.Pool.Update.Kept.{
  Rebuilt, modula_rebuild-Rebuilt, random_rebuild-Rebuilt, ketama_rebuild-Rebuilt,
}
use wx_cache_proxy.Pool.Update.Fresh.{Sorts, Quadruples}
use wx_cache_proxy.Pool.Route.{server_pool_idx, server_pool_run, run_dist, server_failure}
use wx_cache_proxy.Pool.Route.Landing.{IsFresh-lands, run_dist-IsFresh}

run_dist-Rebuilt :
    {F : Type 0} (platform : Platform F) (d : Dist) (pool : Pool) (m : Moment) (now : ℕ)
    → m.now ≡ some now
    → Rebuilt now pool (run_dist platform d pool m).1
unfolding run_dist modula_update random_update ketama_update
run_dist-Rebuilt platform dist_ketama pool m now e =
    rw (e, ketama_update) (ketama_rebuild-Rebuilt platform pool now m.realloc_ok)
run_dist-Rebuilt platform dist_modula pool m now e =
    rw (e, modula_update) (modula_rebuild-Rebuilt pool now m.realloc_ok)
run_dist-Rebuilt platform dist_random pool m now e =
    rw (e, random_update) (random_rebuild-Rebuilt pool now m.realloc_ok)

-- A rebuild, whether it succeeds or not, clears the retry times of the live servers and changes
-- nothing else about the servers, and sets the next rebuild to the earliest retry time of the
-- servers that stay ejected: no later than any of them and equal to one, or 0. The clock can be
-- read.
pub server_pool_run-Rebuilt :
    {F : Type 0} (platform : Platform F) (pool : Pool) (m : Moment) (now : ℕ)
    → m.now ≡ some now
    → Rebuilt now pool (server_pool_run platform pool m).1
unfolding server_pool_run
server_pool_run-Rebuilt platform pool m now e =
    run_dist-Rebuilt platform pool.dist_type pool m now e

get_elem?-set :
    (xs : List Server) (i : ℕ) (s t : Server)
    → get_elem? xs i ≡ some t
    → get_elem? (set xs i s) i ≡ some s
get_elem?-set [] i s t e = cc
get_elem?-set (x ∷ xs) zero s t e = refl
get_elem?-set (x ∷ xs) (suc i) s t e = get_elem?-set xs i s t e

pub get_elem?-map :
    (f : Server → Server) (xs : List Server) (i : ℕ) (s : Server)
    → get_elem? xs i ≡ some s
    → get_elem? (map f xs) i ≡ some (f s)
get_elem?-map f [] i s e = cc
get_elem?-map f (x ∷ xs) zero s e = ap (λ o. elim o [ none ↦ none | some y ↦ some (f y) ]) e
get_elem?-map f (x ∷ xs) (suc i) s e = get_elem?-map f xs i s e

-- A server that is ejected in the pool before a successful rebuild is chosen for no key after it, if
-- a server is live and the continuum is not empty and has fewer than 2^32 points.
pub ejected_not_chosen :
    {F : Type 0} (platform : Platform F) (pool : Pool) (m : Moment) (now i : ℕ) (s : Server)
    {p : Pool} (key : List ℕ) (rand : ℕ)
    → Sorts F platform
    → Quadruples platform
    → m.now ≡ some now
    → get_elem? pool.server i ≡ some s
    → skips pool.auto_eject_hosts now s ≡ true
    → server_pool_run platform pool m ≡ (nc_ok, p)
    → 0 < p.nlive_server
    → length p.continuum < 2 ^ 32
    → 0 < p.ncontinuum
    → server_pool_idx p key rand ≢ i
unfolding server_pool_run
ejected_not_chosen platform pool m now i s {p} key rand sorts four e at dead u h small full same =
    let fresh = run_dist-IsFresh platform pool.dist_type pool m now sorts four e u h in
    let r : Rebuilt now pool p =
      subst (λ (q : Status × Pool). Rebuilt now pool q.1) u
        (run_dist-Rebuilt platform pool.dist_type pool m now e) in
    let (t, there, live) = IsFresh-lands now p key rand fresh small full in
    let a = pool.auto_eject_hosts in
    let mine : get_elem? p.server i ≡ some (refresh a now s) =
      rw r.servers (get_elem?-map (refresh a now) pool.server i s at) in
    let theirs : get_elem? p.server i ≡ some t =
      subst (λ (j : ℕ). get_elem? p.server j ≡ some t) same there in
    let alive : skips a now t ≡ false = subst (λ (b : Bool). skips b now t ≡ false) r.auto live in
    cc (mine, theirs, alive, skips-refresh a now s, dead)

-- The pool and the server that `server_failure` hands to the rebuild.
abbrev ejected : Pool → ℕ → Server → Server
ejected pool t s = record s { failure_count = 0; next_retry = t + pool.server_retry_timeout }

-- A failure that brings the count of server `i` to the limit, in a pool that ejects hosts, ejects
-- it: `server_failure` leaves the pool that the rebuild returns, and in it no key goes to `i`, if
-- the rebuild succeeds, at a time before the retry time, with a live server left and a continuum
-- that is not empty and has fewer than 2^32 points. The count stays below 2^32 and the clock can be
-- read. The platform sorts as qsort documents, and converts floorf(x) * 4 to a multiple of four.
pub server_failure-ejects :
    {F : Type 0} (platform : Platform F) (pool : Pool) (i : ℕ) (s : Server) (t now : ℕ) (m : Moment)
    {p : Pool} (key : List ℕ) (rand : ℕ)
    → Sorts F platform
    → Quadruples platform
    → pool.auto_eject_hosts ≡ true
    → get_elem? pool.server i ≡ some s
    → pool.server_failure_limit ≤ s.failure_count + 1
    → s.failure_count + 1 < 2 ^ 32
    → m.now ≡ some now
    → now < t + pool.server_retry_timeout
    → server_pool_run platform (record pool { server = set pool.server i (ejected pool t s) }) m
      ≡ (nc_ok, p)
    → 0 < p.nlive_server
    → length p.continuum < 2 ^ 32
    → 0 < p.ncontinuum
    → (server_failure platform pool i s (some t) m ≡ p) × (server_pool_idx p key rand ≢ i)
unfolding server_failure skips
server_failure-ejects platform pool i s t now m key rand sorts four auto at limit small e soon u h
      lt full =
    (
      ground arith,
      ejected_not_chosen platform _ m now i (ejected pool t s) key rand sorts four e
          (get_elem?-set pool.server i (ejected pool t s) s at) (ground arith) u h lt full,
    )
