-- ===== src/Redis/Errors.antt =====
-- nc_redis.c: the errors of servers that the response parser tells apart.
use wx_cache_proxy.Base.{ℕ, List, [], ◌∷◌}
use wx_cache_proxy.Parser.Kind.{
  MsgType, rsp_redis_error_busy, rsp_redis_error_busykey, rsp_redis_error_err,
  rsp_redis_error_execabort, rsp_redis_error_loading, rsp_redis_error_masterdown,
  rsp_redis_error_misconf, rsp_redis_error_noauth, rsp_redis_error_noreplicas,
  rsp_redis_error_noscript, rsp_redis_error_oom, rsp_redis_error_readonly,
  rsp_redis_error_wrongtype,
}

abbrev pub errors : List (List ℕ × MsgType)
errors =
    (b'-' ∷ b'E' ∷ b'R' ∷ b'R' ∷ [], rsp_redis_error_err)
    ∷ (b'-' ∷ b'O' ∷ b'O' ∷ b'M' ∷ [], rsp_redis_error_oom)
    ∷ (b'-' ∷ b'B' ∷ b'U' ∷ b'S' ∷ b'Y' ∷ [], rsp_redis_error_busy)
    ∷ (b'-' ∷ b'N' ∷ b'O' ∷ b'A' ∷ b'U' ∷ b'T' ∷ b'H' ∷ [], rsp_redis_error_noauth)
    ∷ (b'-' ∷ b'L' ∷ b'O' ∷ b'A' ∷ b'D' ∷ b'I' ∷ b'N' ∷ b'G' ∷ [], rsp_redis_error_loading)
    ∷ (b'-' ∷ b'B' ∷ b'U' ∷ b'S' ∷ b'Y' ∷ b'K' ∷ b'E' ∷ b'Y' ∷ [], rsp_redis_error_busykey)
    ∷ (b'-' ∷ b'M' ∷ b'I' ∷ b'S' ∷ b'C' ∷ b'O' ∷ b'N' ∷ b'F' ∷ [], rsp_redis_error_misconf)
    ∷ (b'-' ∷ b'N' ∷ b'O' ∷ b'S' ∷ b'C' ∷ b'R' ∷ b'I' ∷ b'P' ∷ b'T' ∷ [], rsp_redis_error_noscript)
    ∷ (b'-' ∷ b'R' ∷ b'E' ∷ b'A' ∷ b'D' ∷ b'O' ∷ b'N' ∷ b'L' ∷ b'Y' ∷ [], rsp_redis_error_readonly)
    ∷ (
      b'-' ∷ b'W' ∷ b'R' ∷ b'O' ∷ b'N' ∷ b'G' ∷ b'T' ∷ b'Y' ∷ b'P' ∷ b'E' ∷ [],
      rsp_redis_error_wrongtype,
    )
    ∷ (
      b'-' ∷ b'E' ∷ b'X' ∷ b'E' ∷ b'C' ∷ b'A' ∷ b'B' ∷ b'O' ∷ b'R' ∷ b'T' ∷ [],
      rsp_redis_error_execabort,
    )
    ∷ (
      b'-' ∷ b'M' ∷ b'A' ∷ b'S' ∷ b'T' ∷ b'E' ∷ b'R' ∷ b'D' ∷ b'O' ∷ b'W' ∷ b'N' ∷ [],
      rsp_redis_error_masterdown,
    )
    ∷ (
      b'-' ∷ b'N' ∷ b'O' ∷ b'R' ∷ b'E' ∷ b'P' ∷ b'L' ∷ b'I' ∷ b'C' ∷ b'A' ∷ b'S' ∷ [],
      rsp_redis_error_noreplicas,
    )
    ∷ []
