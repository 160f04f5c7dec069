-- ===== src/Parser/Kind.antt =====
-- `msg_type_t` of nc_message.h, under the names of its constants.
pub data MsgType : Type 0 where
  msg_unknown req_mc_get req_mc_gets req_mc_delete req_mc_cas req_mc_set req_mc_add : MsgType
  req_mc_replace req_mc_append req_mc_prepend req_mc_incr req_mc_decr req_mc_touch : MsgType
  req_mc_quit rsp_mc_num rsp_mc_stored rsp_mc_not_stored rsp_mc_exists rsp_mc_not_found : MsgType
  rsp_mc_end rsp_mc_value rsp_mc_deleted rsp_mc_touched rsp_mc_error : MsgType
  rsp_mc_client_error rsp_mc_server_error req_redis_del req_redis_exists : MsgType
  req_redis_expire req_redis_expireat req_redis_pexpire req_redis_pexpireat : MsgType
  req_redis_persist req_redis_pttl req_redis_sort req_redis_ttl req_redis_type : MsgType
  req_redis_append req_redis_bitcount req_redis_bitpos req_redis_decr req_redis_decrby : MsgType
  req_redis_dump req_redis_get req_redis_getbit req_redis_getrange req_redis_getset : MsgType
  req_redis_incr req_redis_incrby req_redis_incrbyfloat req_redis_mget req_redis_mset : MsgType
  req_redis_psetex req_redis_restore req_redis_set req_redis_setbit req_redis_setex : MsgType
  req_redis_setnx req_redis_setrange req_redis_strlen req_redis_hdel req_redis_hexists : MsgType
  req_redis_hget req_redis_hgetall req_redis_hincrby req_redis_hincrbyfloat : MsgType
  req_redis_hkeys req_redis_hlen req_redis_hmget req_redis_hmset req_redis_hset : MsgType
  req_redis_hsetnx req_redis_hscan req_redis_hvals req_redis_lindex req_redis_linsert : MsgType
  req_redis_llen req_redis_lpop req_redis_lpush req_redis_lpushx req_redis_lrange : MsgType
  req_redis_lrem req_redis_lset req_redis_ltrim req_redis_pfadd req_redis_pfcount : MsgType
  req_redis_pfmerge req_redis_rpop req_redis_rpoplpush req_redis_rpush req_redis_rpushx : MsgType
  req_redis_sadd req_redis_scard req_redis_sdiff req_redis_sdiffstore req_redis_sinter : MsgType
  req_redis_sinterstore req_redis_sismember req_redis_smembers req_redis_smove : MsgType
  req_redis_spop req_redis_srandmember req_redis_srem req_redis_sunion : MsgType
  req_redis_sunionstore req_redis_sscan req_redis_zadd req_redis_zcard req_redis_zcount : MsgType
  req_redis_zincrby req_redis_zinterstore req_redis_zlexcount req_redis_zrange : MsgType
  req_redis_zrangebylex req_redis_zrangebyscore req_redis_zrank req_redis_zrem : MsgType
  req_redis_zremrangebyrank req_redis_zremrangebylex req_redis_zremrangebyscore : MsgType
  req_redis_zrevrange req_redis_zrevrangebyscore req_redis_zrevrank req_redis_zscore : MsgType
  req_redis_zunionstore req_redis_zscan req_redis_eval req_redis_evalsha req_redis_ping : MsgType
  req_redis_quit req_redis_auth req_redis_select_client req_redis_select : MsgType
  rsp_redis_status rsp_redis_error rsp_redis_error_err rsp_redis_error_oom : MsgType
  rsp_redis_error_busy rsp_redis_error_noauth rsp_redis_error_loading : MsgType
  rsp_redis_error_busykey rsp_redis_error_misconf rsp_redis_error_noscript : MsgType
  rsp_redis_error_readonly rsp_redis_error_wrongtype rsp_redis_error_execabort : MsgType
  rsp_redis_error_masterdown rsp_redis_error_noreplicas rsp_redis_integer : MsgType
  rsp_redis_bulk rsp_redis_multibulk msg_sentinel req_redis_set_slow_threshold : MsgType
