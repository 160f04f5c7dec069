-- ===== src/Redis/Command/Short.antt =====
-- nc_redis.c: the commands whose names have at most five letters.
use wx_cache_proxy.Base.{true, false, List, [], ◌∷◌}
use wx_cache_proxy.Parser.Kind.{
  req_redis_auth, req_redis_decr, req_redis_del, req_redis_dump, req_redis_eval, req_redis_get,
  req_redis_hdel, req_redis_hget, req_redis_hkeys, req_redis_hlen, req_redis_hmget, req_redis_hmset,
  req_redis_hscan, req_redis_hset, req_redis_hvals, req_redis_incr, req_redis_llen, req_redis_lpop,
  req_redis_lpush, req_redis_lrem, req_redis_lset, req_redis_ltrim, req_redis_mget, req_redis_mset,
  req_redis_pfadd, req_redis_ping, req_redis_pttl, req_redis_quit, req_redis_rpop, req_redis_rpush,
  req_redis_sadd, req_redis_scard, req_redis_sdiff, req_redis_set, req_redis_setex, req_redis_setnx,
  req_redis_smove, req_redis_sort, req_redis_spop, req_redis_srem, req_redis_sscan, req_redis_ttl,
  req_redis_type, req_redis_zadd, req_redis_zcard, req_redis_zrank, req_redis_zrem, req_redis_zscan,
}
use wx_cache_proxy.Redis.Command.Entry.{Row, row}

abbrev pub commands_of_3 : List Row
commands_of_3 =
    row (b'g' ∷ b'e' ∷ b't' ∷ []) req_redis_get false false
    ∷ row (b's' ∷ b'e' ∷ b't' ∷ []) req_redis_set false false
    ∷ row (b't' ∷ b't' ∷ b'l' ∷ []) req_redis_ttl false false
    ∷ row (b'd' ∷ b'e' ∷ b'l' ∷ []) req_redis_del false false
    ∷ []

abbrev pub commands_of_4 : List Row
commands_of_4 =
    row (b'p' ∷ b't' ∷ b't' ∷ b'l' ∷ []) req_redis_pttl false false
    ∷ row (b'd' ∷ b'e' ∷ b'c' ∷ b'r' ∷ []) req_redis_decr false false
    ∷ row (b'd' ∷ b'u' ∷ b'm' ∷ b'p' ∷ []) req_redis_dump false false
    ∷ row (b'h' ∷ b'd' ∷ b'e' ∷ b'l' ∷ []) req_redis_hdel false false
    ∷ row (b'h' ∷ b'g' ∷ b'e' ∷ b't' ∷ []) req_redis_hget false false
    ∷ row (b'h' ∷ b'l' ∷ b'e' ∷ b'n' ∷ []) req_redis_hlen false false
    ∷ row (b'h' ∷ b's' ∷ b'e' ∷ b't' ∷ []) req_redis_hset false false
    ∷ row (b'i' ∷ b'n' ∷ b'c' ∷ b'r' ∷ []) req_redis_incr false false
    ∷ row (b'l' ∷ b'l' ∷ b'e' ∷ b'n' ∷ []) req_redis_llen false false
    ∷ row (b'l' ∷ b'p' ∷ b'o' ∷ b'p' ∷ []) req_redis_lpop false false
    ∷ row (b'l' ∷ b'r' ∷ b'e' ∷ b'm' ∷ []) req_redis_lrem false false
    ∷ row (b'l' ∷ b's' ∷ b'e' ∷ b't' ∷ []) req_redis_lset false false
    ∷ row (b'r' ∷ b'p' ∷ b'o' ∷ b'p' ∷ []) req_redis_rpop false false
    ∷ row (b's' ∷ b'a' ∷ b'd' ∷ b'd' ∷ []) req_redis_sadd false false
    ∷ row (b's' ∷ b'p' ∷ b'o' ∷ b'p' ∷ []) req_redis_spop false false
    ∷ row (b's' ∷ b'r' ∷ b'e' ∷ b'm' ∷ []) req_redis_srem false false
    ∷ row (b't' ∷ b'y' ∷ b'p' ∷ b'e' ∷ []) req_redis_type false false
    ∷ row (b'm' ∷ b'g' ∷ b'e' ∷ b't' ∷ []) req_redis_mget false false
    ∷ row (b'm' ∷ b's' ∷ b'e' ∷ b't' ∷ []) req_redis_mset false false
    ∷ row (b'z' ∷ b'a' ∷ b'd' ∷ b'd' ∷ []) req_redis_zadd false false
    ∷ row (b'z' ∷ b'r' ∷ b'e' ∷ b'm' ∷ []) req_redis_zrem false false
    ∷ row (b'e' ∷ b'v' ∷ b'a' ∷ b'l' ∷ []) req_redis_eval false false
    ∷ row (b's' ∷ b'o' ∷ b'r' ∷ b't' ∷ []) req_redis_sort false false
    ∷ row (b'p' ∷ b'i' ∷ b'n' ∷ b'g' ∷ []) req_redis_ping true false
    ∷ row (b'q' ∷ b'u' ∷ b'i' ∷ b't' ∷ []) req_redis_quit false true
    ∷ row (b'a' ∷ b'u' ∷ b't' ∷ b'h' ∷ []) req_redis_auth true false
    ∷ []

abbrev pub commands_of_5 : List Row
commands_of_5 =
    row (b'h' ∷ b'k' ∷ b'e' ∷ b'y' ∷ b's' ∷ []) req_redis_hkeys false false
    ∷ row (b'h' ∷ b'm' ∷ b'g' ∷ b'e' ∷ b't' ∷ []) req_redis_hmget false false
    ∷ row (b'h' ∷ b'm' ∷ b's' ∷ b'e' ∷ b't' ∷ []) req_redis_hmset false false
    ∷ row (b'h' ∷ b'v' ∷ b'a' ∷ b'l' ∷ b's' ∷ []) req_redis_hvals false false
    ∷ row (b'h' ∷ b's' ∷ b'c' ∷ b'a' ∷ b'n' ∷ []) req_redis_hscan false false
    ∷ row (b'l' ∷ b'p' ∷ b'u' ∷ b's' ∷ b'h' ∷ []) req_redis_lpush false false
    ∷ row (b'l' ∷ b't' ∷ b'r' ∷ b'i' ∷ b'm' ∷ []) req_redis_ltrim false false
    ∷ row (b'r' ∷ b'p' ∷ b'u' ∷ b's' ∷ b'h' ∷ []) req_redis_rpush false false
    ∷ row (b's' ∷ b'c' ∷ b'a' ∷ b'r' ∷ b'd' ∷ []) req_redis_scard false false
    ∷ row (b's' ∷ b'd' ∷ b'i' ∷ b'f' ∷ b'f' ∷ []) req_redis_sdiff false false
    ∷ row (b's' ∷ b'e' ∷ b't' ∷ b'e' ∷ b'x' ∷ []) req_redis_setex false false
    ∷ row (b's' ∷ b'e' ∷ b't' ∷ b'n' ∷ b'x' ∷ []) req_redis_setnx false false
    ∷ row (b's' ∷ b'm' ∷ b'o' ∷ b'v' ∷ b'e' ∷ []) req_redis_smove false false
    ∷ row (b's' ∷ b's' ∷ b'c' ∷ b'a' ∷ b'n' ∷ []) req_redis_sscan false false
    ∷ row (b'z' ∷ b'c' ∷ b'a' ∷ b'r' ∷ b'd' ∷ []) req_redis_zcard false false
    ∷ row (b'z' ∷ b'r' ∷ b'a' ∷ b'n' ∷ b'k' ∷ []) req_redis_zrank false false
    ∷ row (b'z' ∷ b's' ∷ b'c' ∷ b'a' ∷ b'n' ∷ []) req_redis_zscan false false
    ∷ row (b'p' ∷ b'f' ∷ b'a' ∷ b'd' ∷ b'd' ∷ []) req_redis_pfadd false false
    ∷ []
