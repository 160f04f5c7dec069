-- ===== src/Pool/Route/Readmit.antt =====
-- nc_server.c: `server_pool_update` and servers that come back.
use wx_cache_proxy.Base.{
  ℕ, zero, suc, ◌+◌, ◌^◌, ◌≤◌, ◌<◌, ◌≡◌, ◌≢◌, refl, sym, ap, subst, ◌∙◌, Bool, true, false, List,
  [], ◌∷◌, some, arith, get_elem?, Status, nc_ok,
}
use wx_cache_proxy.Pool.State.{Server, Pool, dist_modula, Platform, Moment}
use wx_cache_proxy.Pool.Update.{skips, modula_update, modula_rebuild}
use wx_cache_proxy.Pool.Update.Survey.{refresh, live_weight}
use wx_cache_proxy.Pool.Update.Kept.{Rebuilt}
use wx_cache_proxy.Pool.Update.Live.{count}
use wx_cache_proxy.Pool.Update.Shares.{at_index, weight_at, modula_rebuild-shares}
use wx_cache_proxy.Pool.Route.{server_pool_update, server_pool_run, run_dist}
use wx_cache_proxy.Pool.Route.Eject.{server_pool_run-Rebuilt, get_elem?-map}

weight_at_lem :
    (skip : Server → Bool) (ss : List Server) (k : ℕ) (s : Server)
    → get_elem? ss k ≡ some s
    → skip s ≡ false
    → weight_at skip ss k ≡ s.weight
unfolding weight_at
weight_at_lem skip [] k s e h = cc
weight_at_lem skip (x ∷ ss) zero s e h = ground arith
weight_at_lem skip (x ∷ ss) (suc k) s e h = weight_at_lem skip ss k s e h

update_runs :
    {F : Type 0} (platform : Platform F) (pool : Pool) (t : ℕ) (m : Moment)
    → pool.auto_eject_hosts ≡ true
    → pool.next_rebuild ≢ 0
    → pool.next_rebuild < t
    → server_pool_update platform pool (some t) m ≡ server_pool_run platform pool m
unfolding server_pool_update
update_runs platform pool t m auto due past = ground arith

modula_runs :
    {F : Type 0} (platform : Platform F) (pool : Pool) (now : ℕ) (m : Moment)
    → pool.dist_type ≡ dist_modula
    → m.now ≡ some now
    → server_pool_run platform pool m ≡ modula_rebuild pool now m.realloc_ok
unfolding server_pool_run run_dist modula_update
modula_runs platform pool now m d e = rw (server_pool_run, d, modula_update, e) refl

live_again :
    (now : ℕ) (s : Server)
    → s.next_retry ≤ now
    → (refresh true now s ≡ record s { next_retry = 0 })
      × (skips true now (record s { next_retry = 0 }) ≡ false)
unfolding refresh skips
live_again now s h = (ground arith, ground arith)

-- In a pool with the modula distribution that ejects hosts, once the time of the next rebuild has
-- passed, a successful `server_pool_update` takes back a server whose retry time has come: its
-- retry time is cleared, and it has as many points as its weight. A server is live afterwards, the
-- clock can be read, and the live weights sum up to less than 2^32 - 10.
pub server_pool_update-readmits :
    {F : Type 0} (platform : Platform F) (pool : Pool) (t now i : ℕ) (s : Server) (m : Moment)
    {p : Pool}
    → pool.dist_type ≡ dist_modula
    → pool.auto_eject_hosts ≡ true
    → pool.next_rebuild ≢ 0
    → pool.next_rebuild < t
    → m.now ≡ some now
    → get_elem? pool.server i ≡ some s
    → s.next_retry ≤ now
    → server_pool_update platform pool (some t) m ≡ (nc_ok, p)
    → 0 < p.nlive_server
    → live_weight pool.auto_eject_hosts now pool.server + 10 < 2 ^ 32
    → (get_elem? p.server i ≡ some (record s { next_retry = 0 }))
      × (count (at_index i) p.continuum ≡ s.weight)
server_pool_update-readmits platform pool t now i s m {p} d auto due past e at back u lt small =
    let ran = sym (update_runs platform pool t m auto due past) ∙ u in
    let built = sym (modula_runs platform pool now m d e) ∙ ran in
    let r : Rebuilt now pool p =
      subst (λ (q : Status × Pool). Rebuilt now pool q.1) ran
        (server_pool_run-Rebuilt platform pool m now e) in
    let live = live_again now s back in
    let there : get_elem? p.server i ≡ some (record s { next_retry = 0 }) =
      ap (λ l. get_elem? l i) r.servers
      ∙ get_elem?-map (refresh pool.auto_eject_hosts now) pool.server i s at
      ∙ ap (λ b. some (refresh b now s)) auto
      ∙ ap (λ x. some x) live.0 in
    let open_skip : skips p.auto_eject_hosts now (record s { next_retry = 0 }) ≡ false =
      ap (λ b. skips b now (record s { next_retry = 0 })) (r.auto ∙ auto) ∙ live.1 in
    (
      there,
      (modula_rebuild-shares pool now m.realloc_ok built lt small).2 i
          ∙ weight_at_lem (skips p.auto_eject_hosts now) p.server i (record s { next_retry = 0 })
              there open_skip,
    )
