-- ===== src/Redis/Tests.antt =====
-- The parsers of the Redis protocol on small inputs.
use wx_cache_proxy.Base.{
  inl, length, ℕ, ◌≡◌, refl, Bool, true, false, List, [], ◌∷◌, ◌++◌, none, arith,
}
use wx_cache_proxy.Parser.Kind.{msg_unknown, req_redis_get, req_redis_mget, rsp_redis_multibulk}
use wx_cache_proxy.Parser.Machine.{finish, scan, Result, parse_ok, parse_again}
use wx_cache_proxy.Redis.Request.{sw_start, Request}
use wx_cache_proxy.Redis.Parse.{request_parser, redis_parse_req}
use wx_cache_proxy.Redis.Forward.{IsReady}
use wx_cache_proxy.Parser.Resume.{again_on}
use wx_cache_proxy.Parser.Bounds.{Ends}
use wx_cache_proxy.Redis.Whole.{redis_parse_req-append, redis_parse_req-Ends}
use wx_cache_proxy.Redis.RoundTrip.Many.{
  format_of, fragment_text, read_request, redis_parse_req-reads_keys,
}
use wx_cache_proxy.Redis.Reply
use wx_cache_proxy.Redis.Reply.{Reply, reply_parser, redis_parse_rsp}
use wx_cache_proxy.Parser.Forward.{Anywhere}
use wx_cache_proxy.Redis.Reply.Whole.{redis_parse_rsp-append, redis_parse_rsp-Ends}

abbrev always : ℕ → Bool
always n = true

abbrev new_request : Request
new_request = record {
  state = sw_start;
  token = none;
  rlen = 0;
  rnarg = 0;
  narg = 0;
  narg_start = 0;
  narg_end = 0;
  kind = msg_unknown;
  keys = [];
  noforward = false;
  quit = false;
}

-- "*2\r\n$3\r\nG"
abbrev get_head : List ℕ
get_head = b'*' ∷ b'2' ∷ 13 ∷ 10 ∷ b'$' ∷ b'3' ∷ 13 ∷ 10 ∷ b'G' ∷ []

-- "T\r\n$1\r\na\r\n"
abbrev get_tail : List ℕ
get_tail = b'T' ∷ 13 ∷ 10 ∷ b'$' ∷ b'1' ∷ 13 ∷ 10 ∷ b'a' ∷ 13 ∷ 10 ∷ []

parsed_get :
    redis_parse_req 512 always true (get_head ++ b'e' ∷ get_tail) 0 new_request
    ≡ parse_ok 20
        (record new_request { narg = 2; narg_end = 2; kind = req_redis_get; keys = (17, 18) ∷ [] })
unfolding redis_parse_req wx_cache_proxy.Parser.Machine.parse wx_cache_proxy.Parser.Machine.finish
    wx_cache_proxy.Parser.Machine.scan wx_cache_proxy.Parser.Machine.leave
    wx_cache_proxy.Redis.Round.round wx_cache_proxy.Redis.Round.round_in
    wx_cache_proxy.Redis.Round.read_type wx_cache_proxy.Redis.Round.read_key
    wx_cache_proxy.Redis.Request.read_narg wx_cache_proxy.Parser.Bytes.isdigit
    wx_cache_proxy.Redis.Request.read_lf wx_cache_proxy.Redis.Request.turn
    wx_cache_proxy.Redis.Request.read_length wx_cache_proxy.Redis.Request.after_type
    wx_cache_proxy.Redis.Request.after_key wx_cache_proxy.Redis.Lookup.find_command
    wx_cache_proxy.Redis.Lookup.find_row wx_cache_proxy.Redis.Lookup.commands
    wx_cache_proxy.Redis.Lookup.icmp wx_cache_proxy.Redis.Class.redis_arg0
    wx_cache_proxy.Redis.Class.redis_arg1 wx_cache_proxy.Redis.Class.redis_arg2
    wx_cache_proxy.Redis.Class.redis_arg3 wx_cache_proxy.Redis.Class.redis_argn
    wx_cache_proxy.Redis.Class.redis_argx wx_cache_proxy.Redis.Class.redis_argz
    wx_cache_proxy.Redis.Class.redis_argeval wx_cache_proxy.Redis.Class.redis_argkvx
parsed_get = refl

redis_parse_req-append_example :
    redis_parse_req 512 always true (get_head ++ b'e' ∷ get_tail) 0 new_request
    ≡ again_on
        (redis_parse_req 512 always true (get_head ++ b'e' ∷ get_tail))
        (redis_parse_req 512 always false get_head 0 new_request)
redis_parse_req-append_example =
    redis_parse_req-append 512 always get_head b'e' get_tail true 0 new_request (omega arith) tt

abbrev new_reply : Reply
new_reply = record {
  state = Reply.sw_start;
  token = none;
  rlen = 0;
  rnarg = 0;
  narg = 0;
  narg_start = 0;
  narg_end = 0;
  kind = msg_unknown;
  integer = 0;
}

-- "*1\r\n$1\r"
abbrev mget_head : List ℕ
mget_head = b'*' ∷ b'1' ∷ 13 ∷ 10 ∷ b'$' ∷ b'1' ∷ 13 ∷ []

-- "a\r\n"
abbrev mget_tail : List ℕ
mget_tail = b'a' ∷ 13 ∷ 10 ∷ []

parsed_mget :
    redis_parse_rsp true (mget_head ++ 10 ∷ mget_tail) 0 new_reply
    ≡ parse_ok 11 (record new_reply { narg = 1; narg_end = 2; kind = rsp_redis_multibulk })
unfolding redis_parse_rsp wx_cache_proxy.Parser.Machine.parse wx_cache_proxy.Parser.Machine.finish
    wx_cache_proxy.Parser.Machine.scan Reply.goes_back wx_cache_proxy.Parser.Machine.leave
    Reply.reply_round Reply.reply_round_in Reply.start_reply Reply.read_multibulk
    wx_cache_proxy.Parser.Bytes.isdigit Reply.read_argn_len Reply.end_length Reply.skip_bulk
parsed_mget = refl

redis_parse_rsp-append_example :
    redis_parse_rsp true (mget_head ++ 10 ∷ mget_tail) 0 new_reply
    ≡ again_on
        (redis_parse_rsp true (mget_head ++ 10 ∷ mget_tail))
        (redis_parse_rsp false mget_head 0 new_reply)
redis_parse_rsp-append_example =
    redis_parse_rsp-append mget_head 10 mget_tail true 0 new_reply (omega arith)

redis_parse_req-Ends_example :
    let left = scan (request_parser 512 always) 40 get_head 0 new_request in
    Ends IsReady 9 0 left
    × (finish (request_parser 512 always) true left
        ≡ redis_parse_req 512 always true get_head 0 new_request)
redis_parse_req-Ends_example =
    redis_parse_req-Ends 512 always 40 true get_head 0 new_request (omega arith) (omega arith) tt

redis_parse_rsp-Ends_example :
    let left = scan reply_parser 30 mget_head 0 new_reply in
    Ends Anywhere 7 0 left
    × (finish reply_parser true left ≡ redis_parse_rsp true mget_head 0 new_reply)
redis_parse_rsp-Ends_example =
    redis_parse_rsp-Ends 30 true mget_head 0 new_reply (omega arith) (omega arith)

-- "*2\r\n$4\r\nmget\r\n$1\r\nk\r\n"
redis_parse_req-reads_keys_example :
    let text = fragment_text req_redis_mget (b'2' ∷ []) ((b'1' ∷ [], b'k' ∷ []) ∷ []) in
    redis_parse_req 512 always true text 0 (record new_request { state = sw_start; token = none })
    ≡ parse_ok (length text) (
        read_request new_request req_redis_mget
          (b'2' ∷ [])
          (format_of req_redis_mget).1
          ((b'1' ∷ [], b'k' ∷ []) ∷ []))
unfolding wx_cache_proxy.Parser.Bytes.isdigit
redis_parse_req-reads_keys_example =
    redis_parse_req-reads_keys 512 always (omega arith) (λ k. refl) true new_request req_redis_mget
      (b'2' ∷ []) (b'1' ∷ []) (b'k' ∷ []) [] (inl refl) (refl, tt) refl (omega arith)
      (((refl, tt), refl, omega arith), tt)
