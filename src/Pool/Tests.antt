-- ===== src/Pool/Tests.antt =====
-- The pool on small inputs.
use wx_cache_proxy.Base.{
  take, ◌%◌, ◌^◌, get_elem?, ℕ, ◌≤◌, ◌≡◌, ◌≢◌, refl, true, false, List, [], ◌∷◌, ◌++◌, some, arith,
  length, nc_ok,
}
use wx_cache_proxy.Pool.State.{Point, Server, Pool, Dist, dist_ketama, dist_modula, Moment}
use wx_cache_proxy.Pool.Dispatch.{ketama_dispatch}
use wx_cache_proxy.Pool.Dispatch.Search.{IsSorted, owner, ketama_dispatch-eq-owner}
use wx_cache_proxy.Pool.Dispatch.Consistent.{without, ketama_dispatch-without}
use wx_cache_proxy.Pool.Update.{
  modula_update, install, survey, each_server, count_server, weigh_server, grow, build,
  modula_points, skips, modula_rebuild, ketama_rebuild, pointer_per_server,
}
use wx_cache_proxy.Pool.Update.Live.{count}
use wx_cache_proxy.Pool.Update.Ketama.{points_at, ketama_rebuild-shares}
use wx_cache_proxy.Pool.Dispatch.{bisect}
use wx_cache_proxy.Pool.Route.{
  run_dist, server_pool_run, server_pool_server, server_pool_idx, server_failure, tagged_key,
}
use wx_cache_proxy.Pool.Update.Kept.{Rebuilt}
use wx_cache_proxy.Pool.Update.Survey.{live_weight}
use wx_cache_proxy.Pool.Update.Shares.{at_index, weight_at, modula_rebuild-shares}
use wx_cache_proxy.Pool.Route.Tag.{tagged_key-between}
use wx_cache_proxy.Pool.Route.Eject.{server_pool_run-Rebuilt, server_failure-ejects}
use wx_cache_proxy.Pool.Route.{server_pool_update}
use wx_cache_proxy.Pool.Route.Readmit.{server_pool_update-readmits}
use wx_cache_proxy.Pool.Route.Landing.{server_pool_run-lands}
use wx_cache_proxy.Pool.Sample.{platform, platform-Sorts, platform-Quadruples}

-- Keys and names are bytes; `{` is 123 and `}` is 125.
abbrev server_of : ℕ → ℕ → ℕ → Server
server_of i weight retry = record {
  idx = i;
  pname = 112 ∷ i ∷ [];
  name = 110 ∷ i ∷ [];
  weight = weight;
  ns_conn_q = 0;
  s_conn_q = [];
  next_retry = retry;
  failure_count = 2;
}

abbrev pool_of : Dist → List Server → Pool
pool_of d servers = record {
  server = servers;
  ncontinuum = 0;
  nserver_continuum = 0;
  continuum = [];
  nlive_server = 0;
  next_rebuild = 0;
  dist_type = d;
  key_hash = λ key. length key;
  hash_tag = 123 ∷ 125 ∷ [];
  timeout = 0;
  server_connections = 1;
  server_retry_timeout = 30;
  server_failure_limit = 3;
  auto_eject_hosts = true;
  preconnect = false;
}

abbrev servers : List Server
servers = server_of 0 1 0 ∷ server_of 1 2 90 ∷ server_of 2 3 4 ∷ []

abbrev points : List Point
points =
    record { index = 1; value = 10 }
    ∷ record { index = 0; value = 20 }
    ∷ record { index = 1; value = 30 }
    ∷ []

points-IsSorted : IsSorted points
points-IsSorted = ((omega arith, (omega arith, tt)), ((omega arith, tt), (tt, tt)))

ketama_dispatch-eq-owner_example :
    ketama_dispatch points (length points) 15 ≡ (owner 15 points).index
ketama_dispatch-eq-owner_example = ketama_dispatch-eq-owner points 15 points-IsSorted

goes_to_0 : ketama_dispatch points (length points) 15 ≡ 0
unfolding ketama_dispatch bisect
goes_to_0 = refl

ketama_dispatch-without_example :
    ketama_dispatch (without 1 points) (length (without 1 points)) 15
    ≡ ketama_dispatch points (length points) 15
ketama_dispatch-without_example =
    ketama_dispatch-without 1 15 points points-IsSorted (λ e. cc) (λ e. ground (arith, goes_to_0))

abbrev modula_pool : Pool
modula_pool = pool_of dist_modula servers

abbrev noon : Moment
noon = record { now = some 5; realloc_ok = true }

abbrev modula_done : Pool
modula_done = (server_pool_run platform modula_pool noon).1

modula_runs : server_pool_run platform modula_pool noon ≡ (nc_ok, modula_done)
unfolding server_pool_run run_dist modula_update modula_rebuild install survey each_server
    count_server weigh_server grow build skips modula_points
modula_runs = refl

modula_counts :
    (modula_done.nlive_server ≡ 2)
    × (length modula_done.continuum ≡ 4)
    × (modula_done.ncontinuum ≡ 4)
unfolding server_pool_run run_dist modula_update modula_rebuild install survey each_server
    count_server weigh_server grow build skips modula_points
modula_counts = (refl, refl, refl)

server_pool_run-lands_example :
    (s : Server) × (server_pool_server modula_done (1 ∷ 2 ∷ []) 7 ≡ some s)
    × (skips modula_done.auto_eject_hosts 5 s ≡ false)
server_pool_run-lands_example =
    server_pool_run-lands platform modula_pool noon 5 (1 ∷ 2 ∷ []) 7 platform-Sorts
      platform-Quadruples refl modula_runs (omega (arith, modula_counts.0))
      (omega (arith, modula_counts.1)) (omega (arith, modula_counts.2))

server_pool_run-Rebuilt_example : Rebuilt 5 modula_pool modula_done
server_pool_run-Rebuilt_example = server_pool_run-Rebuilt platform modula_pool noon 5 refl

abbrev shared : Pool
shared = (modula_rebuild modula_pool 5 true).1

shares : (modula_rebuild modula_pool 5 true ≡ (nc_ok, shared)) × (shared.nlive_server ≡ 2)
unfolding modula_rebuild install survey each_server count_server weigh_server grow build skips
    modula_points
shares = (refl, refl)

weights : live_weight true 5 servers ≡ 4
unfolding live_weight skips
weights = refl

modula_rebuild-shares_example :
    (shared.ncontinuum ≡ live_weight true 5 servers)
    × (shared.ncontinuum ≤ shared.nserver_continuum)
    × ((k : ℕ)
        → count (at_index k) shared.continuum
          ≡ weight_at (skips shared.auto_eject_hosts 5) shared.server k)
modula_rebuild-shares_example =
    modula_rebuild-shares modula_pool 5 true shares.0 (omega (arith, shares.1))
      (omega (arith, weights))

abbrev ketama_pool : Pool
ketama_pool = pool_of dist_ketama (server_of 0 1 0 ∷ [])

abbrev ketama_done : Pool
ketama_done = (ketama_rebuild platform ketama_pool 5 true).1

ketama_runs :
    (ketama_rebuild platform ketama_pool 5 true ≡ (nc_ok, ketama_done))
    × (ketama_done.nlive_server ≡ 1)
unfolding ketama_rebuild install survey each_server count_server weigh_server grow build skips
ketama_runs = (refl, refl)

ketama_weight : live_weight true 5 (server_of 0 1 0 ∷ []) ≡ 1
unfolding live_weight skips
ketama_weight = refl

ketama_rebuild-shares_example :
    IsSorted (take ketama_done.ncontinuum ketama_done.continuum)
    × (ketama_done.ncontinuum ≡ length ketama_done.continuum % 2 ^ 32)
    × ((k : ℕ)
        → count (at_index k) ketama_done.continuum
          ≡ points_at
              (skips ketama_done.auto_eject_hosts 5)
              (pointer_per_server platform
                (live_weight true 5 (server_of 0 1 0 ∷ []))
                ketama_done.nlive_server)
              ketama_done.server
              k)
ketama_rebuild-shares_example =
    ketama_rebuild-shares platform platform-Sorts platform-Quadruples ketama_pool 5 true
      ketama_runs.0 (omega (arith, ketama_runs.1)) (omega (arith, ketama_weight))

abbrev failing : Server
failing = server_of 2 3 4

-- The pool after server 2 has been ejected at time 5, and the rebuild that follows.
abbrev down_pool : Pool
down_pool = pool_of dist_modula (
    server_of 0 1 0 ∷ server_of 1 2 90 ∷ record failing { failure_count = 0; next_retry = 35 } ∷ [])

abbrev down_done : Pool
down_done = (server_pool_run platform down_pool noon).1

down_runs :
    (server_pool_run platform down_pool noon ≡ (nc_ok, down_done))
    × (down_done.nlive_server ≡ 1)
    × (length down_done.continuum ≡ 1)
    × (down_done.ncontinuum ≡ 1)
unfolding server_pool_run run_dist modula_update modula_rebuild install survey each_server
    count_server weigh_server grow build skips modula_points
down_runs = (refl, refl, refl, refl)

server_failure-ejects_example :
    (server_failure platform modula_pool 2 failing (some 5) noon ≡ down_done)
    × (server_pool_idx down_done (1 ∷ 2 ∷ []) 7 ≢ 2)
server_failure-ejects_example =
    server_failure-ejects platform modula_pool 2 failing 5 5 noon (1 ∷ 2 ∷ []) 7 platform-Sorts
      platform-Quadruples refl refl (omega arith) (omega arith) refl (omega arith) down_runs.0
      (omega (arith, down_runs.1)) (omega (arith, down_runs.2)) (omega (arith, down_runs.3))

-- The keys `a{b}` and `{b}c`.
tagged_key-between_example :
    tagged_key (123 ∷ 125 ∷ []) ((97 ∷ []) ++ (123 ∷ ((98 ∷ []) ++ (125 ∷ [])))) ≡ 98 ∷ []
tagged_key-between_example =
    tagged_key-between 123 125 (97 ∷ []) (98 ∷ []) [] (λ e. omega arith, tt) (λ e. omega arith, tt)
      (λ e. cc)

-- A rebuild is due, and the retry time of server 2 has passed.
abbrev due_pool : Pool
due_pool = record modula_pool { next_rebuild = 3 }

abbrev due_done : Pool
due_done = (server_pool_update platform due_pool (some 5) noon).1

due_runs :
    (server_pool_update platform due_pool (some 5) noon ≡ (nc_ok, due_done))
    × (due_done.nlive_server ≡ 2)
unfolding server_pool_update server_pool_run run_dist modula_update modula_rebuild install survey
    each_server count_server weigh_server grow build skips modula_points
due_runs = (refl, refl)

server_pool_update-readmits_example :
    (get_elem? due_done.server 2 ≡ some (record failing { next_retry = 0 }))
    × (count (at_index 2) due_done.continuum ≡ 3)
server_pool_update-readmits_example =
    server_pool_update-readmits platform due_pool 5 5 2 failing noon refl refl (λ e. omega arith)
      (omega arith) refl refl (omega arith) due_runs.0 (omega (arith, due_runs.1))
      (omega (arith, weights))
