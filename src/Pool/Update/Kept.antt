-- ===== src/Pool/Update/Kept.antt =====
-- What a rebuild does to the servers and to the time of the next rebuild, whatever its status.
use wx_cache_proxy.Base.{ℕ, ◌≡◌, ◌∙◌, Bool, List, map, arith, ◌⊎◌}
use wx_cache_proxy.Pool.State.{Point, Server, Pool, Platform}
use wx_cache_proxy.Pool.Update.{Tally, install, modula_rebuild, random_rebuild, ketama_rebuild}
use wx_cache_proxy.Pool.Update.Survey.{
  refresh, Surveyed, survey-Surveyed, survey_unweighted-Surveyed, NoLater, Attained,
}

-- The servers are refreshed, and the next rebuild is at the earliest retry time of those that stay
-- ejected, or 0.
pub record Rebuilt (now : ℕ) (pool p : Pool) : Type 0 where
  pub servers : p.server ≡ map (refresh pool.auto_eject_hosts now) pool.server
  pub auto : p.auto_eject_hosts ≡ pool.auto_eject_hosts
  pub no_later : NoLater pool.auto_eject_hosts now p.next_rebuild pool.server
  pub attained :
      (p.next_rebuild ≡ 0) ⊎ Attained pool.auto_eject_hosts now p.next_rebuild pool.server

module _ (pool : Pool) (counted : List Server × Tally) (wanted : ℕ) (ok : Bool) (pointers : ℕ)
    (points : List Point) where
  install_fields :
      let p = (install pool counted wanted ok pointers points).1 in
      (p.server ≡ counted.0)
      × (p.auto_eject_hosts ≡ pool.auto_eject_hosts)
      × (p.next_rebuild ≡ counted.1.next_rebuild)
  unfolding install
  install_fields = ground arith

  pub install-Rebuilt :
      (now : ℕ)
      → Surveyed pool.auto_eject_hosts now pool.server counted
      → Rebuilt now pool (install pool counted wanted ok pointers points).1
  install-Rebuilt now s = record {
    servers = install_fields.0 ∙ s.servers;
    auto = install_fields.1;
    no_later = rw install_fields.2 s.no_later;
    attained = rw install_fields.2 s.attained;
  }

pub modula_rebuild-Rebuilt :
    (pool : Pool) (now : ℕ) (ok : Bool) → Rebuilt now pool (modula_rebuild pool now ok).1
unfolding modula_rebuild
modula_rebuild-Rebuilt pool now ok =
    install-Rebuilt pool _ _ ok _ _ now (survey-Surveyed pool.auto_eject_hosts now pool.server)

pub random_rebuild-Rebuilt :
    (pool : Pool) (now : ℕ) (ok : Bool) → Rebuilt now pool (random_rebuild pool now ok).1
unfolding random_rebuild
random_rebuild-Rebuilt pool now ok =
    install-Rebuilt pool _ _ ok _ _ now
      (survey_unweighted-Surveyed pool.auto_eject_hosts now pool.server)

pub ketama_rebuild-Rebuilt :
    {F : Type 0} (platform : Platform F) (pool : Pool) (now : ℕ) (ok : Bool)
    → Rebuilt now pool (ketama_rebuild platform pool now ok).1
unfolding ketama_rebuild
ketama_rebuild-Rebuilt platform pool now ok =
    install-Rebuilt pool _ _ ok _ _ now (survey-Surveyed pool.auto_eject_hosts now pool.server)
