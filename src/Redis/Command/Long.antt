-- ===== src/Redis/Command/Long.antt =====
-- nc_redis.c: the commands whose names have more than eight letters.
use wx_cache_proxy.Base.{true, false, List, [], ◌∷◌}
use wx_cache_proxy.Parser.Kind.{
  req_redis_hincrbyfloat, req_redis_incrbyfloat, req_redis_pexpireat, req_redis_rpoplpush,
  req_redis_sdiffstore, req_redis_set_slow_threshold, req_redis_sinterstore, req_redis_sismember,
  req_redis_srandmember, req_redis_sunionstore, req_redis_zinterstore, req_redis_zlexcount,
  req_redis_zrangebylex, req_redis_zrangebyscore, req_redis_zremrangebylex,
  req_redis_zremrangebyrank, req_redis_zremrangebyscore, req_redis_zrevrange,
  req_redis_zrevrangebyscore, req_redis_zunionstore,
}
use wx_cache_proxy.Redis.Command.Entry.{Row, row}

abbrev pub commands_of_9 : List Row
commands_of_9 =
    row (b'p' ∷ b'e' ∷ b'x' ∷ b'p' ∷ b'i' ∷ b'r' ∷ b'e' ∷ b'a' ∷ b't' ∷ []) req_redis_pexpireat
      false false
    ∷ row (b'r' ∷ b'p' ∷ b'o' ∷ b'p' ∷ b'l' ∷ b'p' ∷ b'u' ∷ b's' ∷ b'h' ∷ []) req_redis_rpoplpush
        false false
    ∷ row (b's' ∷ b'i' ∷ b's' ∷ b'm' ∷ b'e' ∷ b'm' ∷ b'b' ∷ b'e' ∷ b'r' ∷ []) req_redis_sismember
        false false
    ∷ row (b'z' ∷ b'r' ∷ b'e' ∷ b'v' ∷ b'r' ∷ b'a' ∷ b'n' ∷ b'g' ∷ b'e' ∷ []) req_redis_zrevrange
        false false
    ∷ row (b'z' ∷ b'l' ∷ b'e' ∷ b'x' ∷ b'c' ∷ b'o' ∷ b'u' ∷ b'n' ∷ b't' ∷ []) req_redis_zlexcount
        false false
    ∷ row (b't' ∷ b'h' ∷ b'r' ∷ b'e' ∷ b's' ∷ b'h' ∷ b'o' ∷ b'l' ∷ b'd' ∷ [])
        req_redis_set_slow_threshold true false
    ∷ []

abbrev pub commands_of_10 : List Row
commands_of_10 =
    row (b's' ∷ b'd' ∷ b'i' ∷ b'f' ∷ b'f' ∷ b's' ∷ b't' ∷ b'o' ∷ b'r' ∷ b'e' ∷ [])
      req_redis_sdiffstore false false
    ∷ []

abbrev pub commands_of_11 : List Row
commands_of_11 =
    row (b'i' ∷ b'n' ∷ b'c' ∷ b'r' ∷ b'b' ∷ b'y' ∷ b'f' ∷ b'l' ∷ b'o' ∷ b'a' ∷ b't' ∷ [])
      req_redis_incrbyfloat false false
    ∷ row (b's' ∷ b'i' ∷ b'n' ∷ b't' ∷ b'e' ∷ b'r' ∷ b's' ∷ b't' ∷ b'o' ∷ b'r' ∷ b'e' ∷ [])
        req_redis_sinterstore false false
    ∷ row (b's' ∷ b'r' ∷ b'a' ∷ b'n' ∷ b'd' ∷ b'm' ∷ b'e' ∷ b'm' ∷ b'b' ∷ b'e' ∷ b'r' ∷ [])
        req_redis_srandmember false false
    ∷ row (b's' ∷ b'u' ∷ b'n' ∷ b'i' ∷ b'o' ∷ b'n' ∷ b's' ∷ b't' ∷ b'o' ∷ b'r' ∷ b'e' ∷ [])
        req_redis_sunionstore false false
    ∷ row (b'z' ∷ b'i' ∷ b'n' ∷ b't' ∷ b'e' ∷ b'r' ∷ b's' ∷ b't' ∷ b'o' ∷ b'r' ∷ b'e' ∷ [])
        req_redis_zinterstore false false
    ∷ row (b'z' ∷ b'u' ∷ b'n' ∷ b'i' ∷ b'o' ∷ b'n' ∷ b's' ∷ b't' ∷ b'o' ∷ b'r' ∷ b'e' ∷ [])
        req_redis_zunionstore false false
    ∷ row (b'z' ∷ b'r' ∷ b'a' ∷ b'n' ∷ b'g' ∷ b'e' ∷ b'b' ∷ b'y' ∷ b'l' ∷ b'e' ∷ b'x' ∷ [])
        req_redis_zrangebylex false false
    ∷ []

abbrev pub commands_of_12 : List Row
commands_of_12 =
    row (b'h' ∷ b'i' ∷ b'n' ∷ b'c' ∷ b'r' ∷ b'b' ∷ b'y' ∷ b'f' ∷ b'l' ∷ b'o' ∷ b'a' ∷ b't' ∷ [])
      req_redis_hincrbyfloat false false
    ∷ []

abbrev pub commands_of_13 : List Row
commands_of_13 =
    row
      (b'z' ∷ b'r' ∷ b'a' ∷ b'n' ∷ b'g' ∷ b'e' ∷ b'b' ∷ b'y' ∷ b's' ∷ b'c' ∷ b'o' ∷ b'r' ∷ b'e'
        ∷ [])
      req_redis_zrangebyscore false false
    ∷ []

abbrev pub commands_of_14 : List Row
commands_of_14 =
    row
      (b'z' ∷ b'r' ∷ b'e' ∷ b'm' ∷ b'r' ∷ b'a' ∷ b'n' ∷ b'g' ∷ b'e' ∷ b'b' ∷ b'y' ∷ b'l' ∷ b'e'
        ∷ b'x' ∷ [])
      req_redis_zremrangebylex false false
    ∷ []

abbrev pub commands_of_15 : List Row
commands_of_15 =
    row
      (b'z' ∷ b'r' ∷ b'e' ∷ b'm' ∷ b'r' ∷ b'a' ∷ b'n' ∷ b'g' ∷ b'e' ∷ b'b' ∷ b'y' ∷ b'r' ∷ b'a'
        ∷ b'n' ∷ b'k' ∷ [])
      req_redis_zremrangebyrank false false
    ∷ []

abbrev pub commands_of_16 : List Row
commands_of_16 =
    row
      (b'z' ∷ b'r' ∷ b'e' ∷ b'm' ∷ b'r' ∷ b'a' ∷ b'n' ∷ b'g' ∷ b'e' ∷ b'b' ∷ b'y' ∷ b's' ∷ b'c'
        ∷ b'o' ∷ b'r' ∷ b'e' ∷ [])
      req_redis_zremrangebyscore false false
    ∷ row
        (b'z' ∷ b'r' ∷ b'e' ∷ b'v' ∷ b'r' ∷ b'a' ∷ b'n' ∷ b'g' ∷ b'e' ∷ b'b' ∷ b'y' ∷ b's' ∷ b'c'
          ∷ b'o' ∷ b'r' ∷ b'e' ∷ [])
        req_redis_zrevrangebyscore false false
    ∷ []
