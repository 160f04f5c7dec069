-- ===== src/Memcache/Class.antt =====
-- nc_memcache.c: the classes of commands.
use wx_cache_proxy.Base.{Bool, true, false}
use wx_cache_proxy.Parser.Kind.{
  MsgType, req_mc_get, req_mc_gets, req_mc_delete, req_mc_cas, req_mc_set, req_mc_add,
  req_mc_replace, req_mc_append, req_mc_prepend, req_mc_incr, req_mc_decr, req_mc_touch,
}

unfoldable pub memcache_storage : MsgType → Bool
memcache_storage req_mc_set = true
memcache_storage req_mc_cas = true
memcache_storage req_mc_add = true
memcache_storage req_mc_replace = true
memcache_storage req_mc_append = true
memcache_storage req_mc_prepend = true
memcache_storage _ = false

unfoldable pub memcache_cas : MsgType → Bool
memcache_cas req_mc_cas = true
memcache_cas _ = false

unfoldable pub memcache_retrieval : MsgType → Bool
memcache_retrieval req_mc_get = true
memcache_retrieval req_mc_gets = true
memcache_retrieval _ = false

unfoldable pub memcache_arithmetic : MsgType → Bool
memcache_arithmetic req_mc_incr = true
memcache_arithmetic req_mc_decr = true
memcache_arithmetic _ = false

unfoldable pub memcache_delete : MsgType → Bool
memcache_delete req_mc_delete = true
memcache_delete _ = false

unfoldable pub memcache_touch : MsgType → Bool
memcache_touch req_mc_touch = true
memcache_touch _ = false
