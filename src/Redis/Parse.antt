-- ===== src/Redis/Parse.antt =====
-- nc_redis.c: `redis_parse_req`.
use wx_cache_proxy.Base.{ℕ, Bool, List, none, length}
use wx_cache_proxy.Parser.Machine.{Parser, Result, parse}
use wx_cache_proxy.Redis.Request.{sw_start, Request}
use wx_cache_proxy.Redis.Round.{round}

module _ (mbuf_data : ℕ) (room : ℕ → Bool) where
  abbrev pub request_parser : Parser Request
  request_parser = record {
    step = λ buf p r. round mbuf_data room (length buf) buf p r;
    token = λ r. r.token;
    forget = λ r. record r { token = none };
    restart = λ r. record r { state = sw_start; token = none };
    rounds = λ n r. n;
  }

  unfoldable pub redis_parse_req : Bool → List ℕ → ℕ → Request → Result Request
  redis_parse_req full buf pos r = parse request_parser full buf pos r
