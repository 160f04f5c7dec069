-- ===== src/Pool/Route.antt =====
-- nc_server.c: from a key to a server of the pool, and the ejection of servers that fail.
pub mod Tag
pub mod Landing
pub mod Eject
pub mod Readmit
use mathlib.Core.Option
use wx_cache_proxy.Base.{
  ℕ, suc, ◌+◌, ◌*◌, ◌%◌, ◌^◌, Bool, true, false, not, List, [], ◌∷◌, Option, none, some, ltb, leb,
  ◌==◌, if◌then◌else◌, length, get_elem?, get_or, set, take, drop, Status, nc_ok, nc_error,
}
use wx_cache_proxy.Pool.State.{
  Server, Pool, Dist, dist_ketama, dist_modula, dist_random, Platform, Moment,
}
use wx_cache_proxy.Pool.Dispatch.{ketama_dispatch, modula_dispatch, random_dispatch}
use wx_cache_proxy.Pool.Update.{modula_update, random_update, ketama_update, add_u32}

-- `_nc_strchr` of nc_string.h, on the bytes from `p` up to `last`; the result is an offset.
unfoldable pub strchr : ℕ → List ℕ → Option ℕ
strchr c [] = none
strchr c (x ∷ xs) = if x == c then some 0 else Option.map suc (strchr c xs)

-- The first part of `server_pool_idx`: the part of the key that is hashed. The second byte of a
-- tag of length one is its closing NUL.
unfoldable pub tagged_key : List ℕ → List ℕ → List ℕ
tagged_key hash_tag key =
    if length hash_tag == 0 then key else elim (strchr (get_or hash_tag 0 0) key) [
      | none ↦ key
      | some tag_start ↦
          let inner = drop (suc tag_start) key in
          elim (strchr (get_or hash_tag 1 0) inner) [
            | none ↦ key
            | some off ↦ if ltb 1 (suc off) then take off inner else key
          ]
    ]

unfoldable pub server_pool_hash : Pool → List ℕ → ℕ
server_pool_hash pool key =
    if length pool.server == 1 then 0 else (if length key == 0 then 0 else pool.key_hash key)

-- `rand` is what `random` returns, if it is called.
unfoldable pub dispatch : Dist → Pool → ℕ → ℕ → ℕ
dispatch dist_ketama pool hash rand = ketama_dispatch pool.continuum pool.ncontinuum hash
dispatch dist_modula pool hash rand = modula_dispatch pool.continuum pool.ncontinuum hash
dispatch dist_random pool hash rand = random_dispatch pool.continuum pool.ncontinuum rand

-- `rand` is what `random` returns in this call.
unfoldable pub server_pool_idx : Pool → List ℕ → ℕ → ℕ
server_pool_idx pool key rand =
    dispatch pool.dist_type pool (server_pool_hash pool (tagged_key pool.hash_tag key)) rand

-- `array_get`, whose assertion fails out of range.
unfoldable pub server_pool_server : Pool → List ℕ → ℕ → Option Server
server_pool_server pool key rand = get_elem? pool.server (server_pool_idx pool key rand)

unfoldable pub server_ok : Server → Server
server_ok s =
    if not (s.failure_count == 0) then record s { failure_count = 0; next_retry = 0 } else s

-- `server_pool_each_calc_connections`: `max_nsconn` after one more pool.
unfoldable pub calc_connections : Pool → ℕ → ℕ
calc_connections pool max_nsconn =
    add_u32 (add_u32 max_nsconn (pool.server_connections * length pool.server)) 1

module _ {F : Type 0} (platform : Platform F) where
  unfoldable pub run_dist : Dist → Pool → Moment → Status × Pool
  run_dist dist_ketama pool m = ketama_update platform pool m
  run_dist dist_modula pool m = modula_update pool m
  run_dist dist_random pool m = random_update pool m

  unfoldable pub server_pool_run : Pool → Moment → Status × Pool
  server_pool_run pool m = run_dist pool.dist_type pool m

  -- `now` is the function's own reading of the clock, `m` that of the update that it may call.
  unfoldable pub server_pool_update : Pool → Option ℕ → Moment → Status × Pool
  server_pool_update pool now m =
      if not pool.auto_eject_hosts
      then (nc_ok, pool)
      else (if pool.next_rebuild == 0 then (nc_ok, pool) else elim now [
        | none ↦ (nc_error, pool)
        | some t ↦
            if leb t pool.next_rebuild
            then (if pool.nlive_server == 0 then (nc_error, pool) else (nc_ok, pool))
            else server_pool_run pool m
      ])

  -- `server_failure` for the server `i` of the pool. The status of the update is only logged.
  unfoldable pub server_failure : Pool → ℕ → Server → Option ℕ → Moment → Pool
  server_failure pool i s now m =
      if not pool.auto_eject_hosts
      then pool
      else (let count = add_u32 s.failure_count 1 in
          let counted = record pool {
            server = set pool.server i (record s { failure_count = count });
          } in
          if ltb count pool.server_failure_limit then counted else elim now [
            | none ↦ counted
            | some t ↦
                let ejected = record s {
                  failure_count = 0;
                  next_retry = t + pool.server_retry_timeout;
                } in
                (server_pool_run (record pool { server = set pool.server i ejected }) m).1
          ])
