-- ===== src/Redis/Command/Middle.antt =====
-- nc_redis.c: the commands whose names have six to eight letters.
use wx_cache_proxy.Base.{true, false, List, [], ◌∷◌}
use wx_cache_proxy.Parser.Kind.{
  req_redis_append, req_redis_bitcount, req_redis_bitpos, req_redis_decrby, req_redis_evalsha,
  req_redis_exists, req_redis_expire, req_redis_expireat, req_redis_getbit, req_redis_getrange,
  req_redis_getset, req_redis_hexists, req_redis_hgetall, req_redis_hincrby, req_redis_hsetnx,
  req_redis_incrby, req_redis_lindex, req_redis_linsert, req_redis_lpushx, req_redis_lrange,
  req_redis_persist, req_redis_pexpire, req_redis_pfcount, req_redis_pfmerge, req_redis_psetex,
  req_redis_restore, req_redis_rpushx, req_redis_select_client, req_redis_setbit,
  req_redis_setrange, req_redis_sinter, req_redis_smembers, req_redis_strlen, req_redis_sunion,
  req_redis_zcount, req_redis_zincrby, req_redis_zrange, req_redis_zrevrank, req_redis_zscore,
}
use wx_cache_proxy.Redis.Command.Entry.{Row, row}

abbrev pub commands_of_6 : List Row
commands_of_6 =
    row (b'a' ∷ b'p' ∷ b'p' ∷ b'e' ∷ b'n' ∷ b'd' ∷ []) req_redis_append false false
    ∷ row (b'b' ∷ b'i' ∷ b't' ∷ b'p' ∷ b'o' ∷ b's' ∷ []) req_redis_bitpos false false
    ∷ row (b'd' ∷ b'e' ∷ b'c' ∷ b'r' ∷ b'b' ∷ b'y' ∷ []) req_redis_decrby false false
    ∷ row (b'e' ∷ b'x' ∷ b'i' ∷ b's' ∷ b't' ∷ b's' ∷ []) req_redis_exists false false
    ∷ row (b'e' ∷ b'x' ∷ b'p' ∷ b'i' ∷ b'r' ∷ b'e' ∷ []) req_redis_expire false false
    ∷ row (b'g' ∷ b'e' ∷ b't' ∷ b'b' ∷ b'i' ∷ b't' ∷ []) req_redis_getbit false false
    ∷ row (b'g' ∷ b'e' ∷ b't' ∷ b's' ∷ b'e' ∷ b't' ∷ []) req_redis_getset false false
    ∷ row (b'p' ∷ b's' ∷ b'e' ∷ b't' ∷ b'e' ∷ b'x' ∷ []) req_redis_psetex false false
    ∷ row (b'h' ∷ b's' ∷ b'e' ∷ b't' ∷ b'n' ∷ b'x' ∷ []) req_redis_hsetnx false false
    ∷ row (b'i' ∷ b'n' ∷ b'c' ∷ b'r' ∷ b'b' ∷ b'y' ∷ []) req_redis_incrby false false
    ∷ row (b'l' ∷ b'i' ∷ b'n' ∷ b'd' ∷ b'e' ∷ b'x' ∷ []) req_redis_lindex false false
    ∷ row (b'l' ∷ b'p' ∷ b'u' ∷ b's' ∷ b'h' ∷ b'x' ∷ []) req_redis_lpushx false false
    ∷ row (b'l' ∷ b'r' ∷ b'a' ∷ b'n' ∷ b'g' ∷ b'e' ∷ []) req_redis_lrange false false
    ∷ row (b'r' ∷ b'p' ∷ b'u' ∷ b's' ∷ b'h' ∷ b'x' ∷ []) req_redis_rpushx false false
    ∷ row (b's' ∷ b'e' ∷ b'l' ∷ b'e' ∷ b'c' ∷ b't' ∷ []) req_redis_select_client true false
    ∷ row (b's' ∷ b'e' ∷ b't' ∷ b'b' ∷ b'i' ∷ b't' ∷ []) req_redis_setbit false false
    ∷ row (b's' ∷ b'i' ∷ b'n' ∷ b't' ∷ b'e' ∷ b'r' ∷ []) req_redis_sinter false false
    ∷ row (b's' ∷ b't' ∷ b'r' ∷ b'l' ∷ b'e' ∷ b'n' ∷ []) req_redis_strlen false false
    ∷ row (b's' ∷ b'u' ∷ b'n' ∷ b'i' ∷ b'o' ∷ b'n' ∷ []) req_redis_sunion false false
    ∷ row (b'z' ∷ b'c' ∷ b'o' ∷ b'u' ∷ b'n' ∷ b't' ∷ []) req_redis_zcount false false
    ∷ row (b'z' ∷ b'r' ∷ b'a' ∷ b'n' ∷ b'g' ∷ b'e' ∷ []) req_redis_zrange false false
    ∷ row (b'z' ∷ b's' ∷ b'c' ∷ b'o' ∷ b'r' ∷ b'e' ∷ []) req_redis_zscore false false
    ∷ []

abbrev pub commands_of_7 : List Row
commands_of_7 =
    row (b'p' ∷ b'e' ∷ b'r' ∷ b's' ∷ b'i' ∷ b's' ∷ b't' ∷ []) req_redis_persist false false
    ∷ row (b'p' ∷ b'e' ∷ b'x' ∷ b'p' ∷ b'i' ∷ b'r' ∷ b'e' ∷ []) req_redis_pexpire false false
    ∷ row (b'h' ∷ b'e' ∷ b'x' ∷ b'i' ∷ b's' ∷ b't' ∷ b's' ∷ []) req_redis_hexists false false
    ∷ row (b'h' ∷ b'g' ∷ b'e' ∷ b't' ∷ b'a' ∷ b'l' ∷ b'l' ∷ []) req_redis_hgetall false false
    ∷ row (b'h' ∷ b'i' ∷ b'n' ∷ b'c' ∷ b'r' ∷ b'b' ∷ b'y' ∷ []) req_redis_hincrby false false
    ∷ row (b'l' ∷ b'i' ∷ b'n' ∷ b's' ∷ b'e' ∷ b'r' ∷ b't' ∷ []) req_redis_linsert false false
    ∷ row (b'z' ∷ b'i' ∷ b'n' ∷ b'c' ∷ b'r' ∷ b'b' ∷ b'y' ∷ []) req_redis_zincrby false false
    ∷ row (b'e' ∷ b'v' ∷ b'a' ∷ b'l' ∷ b's' ∷ b'h' ∷ b'a' ∷ []) req_redis_evalsha false false
    ∷ row (b'r' ∷ b'e' ∷ b's' ∷ b't' ∷ b'o' ∷ b'r' ∷ b'e' ∷ []) req_redis_restore false false
    ∷ row (b'p' ∷ b'f' ∷ b'c' ∷ b'o' ∷ b'u' ∷ b'n' ∷ b't' ∷ []) req_redis_pfcount false false
    ∷ row (b'p' ∷ b'f' ∷ b'm' ∷ b'e' ∷ b'r' ∷ b'g' ∷ b'e' ∷ []) req_redis_pfmerge false false
    ∷ []

abbrev pub commands_of_8 : List Row
commands_of_8 =
    row (b'e' ∷ b'x' ∷ b'p' ∷ b'i' ∷ b'r' ∷ b'e' ∷ b'a' ∷ b't' ∷ []) req_redis_expireat false false
    ∷ row (b'b' ∷ b'i' ∷ b't' ∷ b'c' ∷ b'o' ∷ b'u' ∷ b'n' ∷ b't' ∷ []) req_redis_bitcount false
        false
    ∷ row (b'g' ∷ b'e' ∷ b't' ∷ b'r' ∷ b'a' ∷ b'n' ∷ b'g' ∷ b'e' ∷ []) req_redis_getrange false
        false
    ∷ row (b's' ∷ b'e' ∷ b't' ∷ b'r' ∷ b'a' ∷ b'n' ∷ b'g' ∷ b'e' ∷ []) req_redis_setrange false
        false
    ∷ row (b's' ∷ b'm' ∷ b'e' ∷ b'm' ∷ b'b' ∷ b'e' ∷ b'r' ∷ b's' ∷ []) req_redis_smembers false
        false
    ∷ row (b'z' ∷ b'r' ∷ b'e' ∷ b'v' ∷ b'r' ∷ b'a' ∷ b'n' ∷ b'k' ∷ []) req_redis_zrevrank false
        false
    ∷ []
