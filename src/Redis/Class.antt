-- ===== src/Redis/Class.antt =====
-- nc_redis.c: which arguments a command takes, and which responses are errors.
use wx_cache_proxy.Base.{Bool, true, false}
use wx_cache_proxy.Parser.Kind.{
  MsgType, req_redis_append, req_redis_auth, req_redis_bitcount, req_redis_bitpos, req_redis_decr,
  req_redis_decrby, req_redis_del, req_redis_dump, req_redis_eval, req_redis_evalsha,
  req_redis_exists, req_redis_expire, req_redis_expireat, req_redis_get, req_redis_getbit,
  req_redis_getrange, req_redis_getset, req_redis_hdel, req_redis_hexists, req_redis_hget,
  req_redis_hgetall, req_redis_hincrby, req_redis_hincrbyfloat, req_redis_hkeys, req_redis_hlen,
  req_redis_hmget, req_redis_hmset, req_redis_hscan, req_redis_hset, req_redis_hsetnx,
  req_redis_hvals, req_redis_incr, req_redis_incrby, req_redis_incrbyfloat, req_redis_lindex,
  req_redis_linsert, req_redis_llen, req_redis_lpop, req_redis_lpush, req_redis_lpushx,
  req_redis_lrange, req_redis_lrem, req_redis_lset, req_redis_ltrim, req_redis_mget, req_redis_mset,
  req_redis_persist, req_redis_pexpire, req_redis_pexpireat, req_redis_pfadd, req_redis_pfcount,
  req_redis_pfmerge, req_redis_ping, req_redis_psetex, req_redis_pttl, req_redis_quit,
  req_redis_restore, req_redis_rpop, req_redis_rpoplpush, req_redis_rpush, req_redis_rpushx,
  req_redis_sadd, req_redis_scard, req_redis_sdiff, req_redis_sdiffstore, req_redis_select_client,
  req_redis_set, req_redis_set_slow_threshold, req_redis_setbit, req_redis_setex, req_redis_setnx,
  req_redis_setrange, req_redis_sinter, req_redis_sinterstore, req_redis_sismember,
  req_redis_smembers, req_redis_smove, req_redis_sort, req_redis_spop, req_redis_srandmember,
  req_redis_srem, req_redis_sscan, req_redis_strlen, req_redis_sunion, req_redis_sunionstore,
  req_redis_ttl, req_redis_type, req_redis_zadd, req_redis_zcard, req_redis_zcount,
  req_redis_zincrby, req_redis_zinterstore, req_redis_zlexcount, req_redis_zrange,
  req_redis_zrangebylex, req_redis_zrangebyscore, req_redis_zrank, req_redis_zrem,
  req_redis_zremrangebylex, req_redis_zremrangebyrank, req_redis_zremrangebyscore,
  req_redis_zrevrange, req_redis_zrevrangebyscore, req_redis_zrevrank, req_redis_zscan,
  req_redis_zscore, req_redis_zunionstore, rsp_redis_error, rsp_redis_error_busy,
  rsp_redis_error_busykey, rsp_redis_error_err, rsp_redis_error_execabort, rsp_redis_error_loading,
  rsp_redis_error_masterdown, rsp_redis_error_misconf, rsp_redis_error_noauth,
  rsp_redis_error_noreplicas, rsp_redis_error_noscript, rsp_redis_error_oom,
  rsp_redis_error_readonly, rsp_redis_error_wrongtype,
}

unfoldable pub redis_argz : MsgType → Bool
redis_argz req_redis_ping = true
redis_argz req_redis_quit = true
redis_argz _ = false

unfoldable pub redis_arg0 : MsgType → Bool
redis_arg0 req_redis_exists = true
redis_arg0 req_redis_persist = true
redis_arg0 req_redis_pttl = true
redis_arg0 req_redis_ttl = true
redis_arg0 req_redis_type = true
redis_arg0 req_redis_dump = true
redis_arg0 req_redis_decr = true
redis_arg0 req_redis_get = true
redis_arg0 req_redis_incr = true
redis_arg0 req_redis_strlen = true
redis_arg0 req_redis_hgetall = true
redis_arg0 req_redis_hkeys = true
redis_arg0 req_redis_hlen = true
redis_arg0 req_redis_hvals = true
redis_arg0 req_redis_llen = true
redis_arg0 req_redis_lpop = true
redis_arg0 req_redis_rpop = true
redis_arg0 req_redis_scard = true
redis_arg0 req_redis_smembers = true
redis_arg0 req_redis_spop = true
redis_arg0 req_redis_zcard = true
redis_arg0 req_redis_pfcount = true
redis_arg0 req_redis_auth = true
redis_arg0 req_redis_select_client = true
redis_arg0 req_redis_set_slow_threshold = true
redis_arg0 _ = false

unfoldable pub redis_arg1 : MsgType → Bool
redis_arg1 req_redis_expire = true
redis_arg1 req_redis_expireat = true
redis_arg1 req_redis_pexpire = true
redis_arg1 req_redis_pexpireat = true
redis_arg1 req_redis_append = true
redis_arg1 req_redis_decrby = true
redis_arg1 req_redis_getbit = true
redis_arg1 req_redis_getset = true
redis_arg1 req_redis_incrby = true
redis_arg1 req_redis_incrbyfloat = true
redis_arg1 req_redis_setnx = true
redis_arg1 req_redis_hexists = true
redis_arg1 req_redis_hget = true
redis_arg1 req_redis_lindex = true
redis_arg1 req_redis_lpushx = true
redis_arg1 req_redis_rpoplpush = true
redis_arg1 req_redis_rpushx = true
redis_arg1 req_redis_sismember = true
redis_arg1 req_redis_zrank = true
redis_arg1 req_redis_zrevrank = true
redis_arg1 req_redis_zscore = true
redis_arg1 _ = false

unfoldable pub redis_arg2 : MsgType → Bool
redis_arg2 req_redis_getrange = true
redis_arg2 req_redis_psetex = true
redis_arg2 req_redis_setbit = true
redis_arg2 req_redis_setex = true
redis_arg2 req_redis_setrange = true
redis_arg2 req_redis_hincrby = true
redis_arg2 req_redis_hincrbyfloat = true
redis_arg2 req_redis_hset = true
redis_arg2 req_redis_hsetnx = true
redis_arg2 req_redis_lrange = true
redis_arg2 req_redis_lrem = true
redis_arg2 req_redis_lset = true
redis_arg2 req_redis_ltrim = true
redis_arg2 req_redis_smove = true
redis_arg2 req_redis_zcount = true
redis_arg2 req_redis_zlexcount = true
redis_arg2 req_redis_zincrby = true
redis_arg2 req_redis_zremrangebylex = true
redis_arg2 req_redis_zremrangebyrank = true
redis_arg2 req_redis_zremrangebyscore = true
redis_arg2 req_redis_restore = true
redis_arg2 _ = false

unfoldable pub redis_arg3 : MsgType → Bool
redis_arg3 req_redis_linsert = true
redis_arg3 _ = false

unfoldable pub redis_argn : MsgType → Bool
redis_argn req_redis_sort = true
redis_argn req_redis_bitcount = true
redis_argn req_redis_bitpos = true
redis_argn req_redis_set = true
redis_argn req_redis_hdel = true
redis_argn req_redis_hmget = true
redis_argn req_redis_hmset = true
redis_argn req_redis_hscan = true
redis_argn req_redis_lpush = true
redis_argn req_redis_rpush = true
redis_argn req_redis_sadd = true
redis_argn req_redis_sdiff = true
redis_argn req_redis_sdiffstore = true
redis_argn req_redis_sinter = true
redis_argn req_redis_sinterstore = true
redis_argn req_redis_srem = true
redis_argn req_redis_sunion = true
redis_argn req_redis_sunionstore = true
redis_argn req_redis_srandmember = true
redis_argn req_redis_sscan = true
redis_argn req_redis_pfadd = true
redis_argn req_redis_pfmerge = true
redis_argn req_redis_zadd = true
redis_argn req_redis_zinterstore = true
redis_argn req_redis_zrange = true
redis_argn req_redis_zrangebyscore = true
redis_argn req_redis_zrem = true
redis_argn req_redis_zrevrange = true
redis_argn req_redis_zrangebylex = true
redis_argn req_redis_zrevrangebyscore = true
redis_argn req_redis_zunionstore = true
redis_argn req_redis_zscan = true
redis_argn _ = false

unfoldable pub redis_argx : MsgType → Bool
redis_argx req_redis_mget = true
redis_argx req_redis_del = true
redis_argx _ = false

unfoldable pub redis_argkvx : MsgType → Bool
redis_argkvx req_redis_mset = true
redis_argkvx _ = false

unfoldable pub redis_argeval : MsgType → Bool
redis_argeval req_redis_eval = true
redis_argeval req_redis_evalsha = true
redis_argeval _ = false

unfoldable pub redis_error : MsgType → Bool
redis_error rsp_redis_error = true
redis_error rsp_redis_error_err = true
redis_error rsp_redis_error_oom = true
redis_error rsp_redis_error_busy = true
redis_error rsp_redis_error_noauth = true
redis_error rsp_redis_error_loading = true
redis_error rsp_redis_error_busykey = true
redis_error rsp_redis_error_misconf = true
redis_error rsp_redis_error_noscript = true
redis_error rsp_redis_error_readonly = true
redis_error rsp_redis_error_wrongtype = true
redis_error rsp_redis_error_execabort = true
redis_error rsp_redis_error_masterdown = true
redis_error rsp_redis_error_noreplicas = true
redis_error _ = false

unfoldable pub redis_failure : MsgType → Bool
redis_failure rsp_redis_error_oom = true
redis_failure rsp_redis_error_busy = true
redis_failure rsp_redis_error_loading = true
redis_failure _ = false
