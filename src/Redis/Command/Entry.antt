-- ===== src/Redis/Command/Entry.antt =====
-- One `if (strNicmp(m, ...)) { r->type = ...; break; }` of `redis_parse_req` in nc_redis.c.
use wx_cache_proxy.Base.{ℕ, Bool, List}
use wx_cache_proxy.Parser.Kind.{MsgType}

-- The name in small letters, the type, and the flags `noforward` and `quit` that the branch sets.
pub data Row : Type 0 where
  row : List ℕ → MsgType → Bool → Bool → Row
