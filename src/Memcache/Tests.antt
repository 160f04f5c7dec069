-- ===== src/Memcache/Tests.antt =====
-- nc_memcache.c: the parsers on small inputs.
use wx_cache_proxy.Base.{
  ℕ, ◌≡◌, refl, ◌∷◌, ◌++◌, Bool, true, false, List, [], none, some, length, arith,
}
use wx_cache_proxy.Parser.Kind.{msg_unknown, req_mc_get, req_mc_set, rsp_mc_end}
use wx_cache_proxy.Parser.Machine.{
  Result, parse_ok, parse_repair, parse_again, parse_error, parse_enomem, leave, scan, finish,
  parse,
}
use wx_cache_proxy.Parser.Resume.{again_on}
use wx_cache_proxy.Parser.Forward.{Anywhere}
use wx_cache_proxy.Parser.Bounds.{Ends}
use wx_cache_proxy.Memcache.Request.Ends.{memcache_parse_req-Ends}
use wx_cache_proxy.Memcache.Reply.Ends.{memcache_parse_rsp-Ends}
use wx_cache_proxy.Parser.Settle.{settle_result}
use wx_cache_proxy.Memcache.Request
use wx_cache_proxy.Memcache.Reply
use wx_cache_proxy.Memcache.Request.{Command, memcache_parse_req}
use wx_cache_proxy.Memcache.Reply.{Rep, memcache_parse_rsp}
use wx_cache_proxy.Memcache.Request.Whole.{settle_command, memcache_parse_req-append}
use wx_cache_proxy.Memcache.Reply.Whole.{settle_rep, memcache_parse_rsp-append}

abbrev always : ℕ → Bool
always n = true

abbrev new_command : Command
new_command = record {
  state = Request.sw_start;
  token = none;
  vlen = 0;
  narg = 0;
  kind = msg_unknown;
  keys = [];
  noreply = false;
  quit = false;
}

abbrev new_rep : Rep
new_rep = record { state = Reply.sw_start; token = none; vlen = 0; kind = msg_unknown; end = none }

abbrev get_two : List ℕ
get_two = b'g' ∷ b'e' ∷ b't' ∷ b' ' ∷ b'a' ∷ b' ' ∷ b'b' ∷ b'c' ∷ 13 ∷ 10 ∷ []

abbrev set_head : List ℕ
set_head =
    b's' ∷ b'e' ∷ b't' ∷ b' ' ∷ b'k' ∷ b' ' ∷ b'5' ∷ b' ' ∷ b'0' ∷ b' ' ∷ b'4' ∷ b' ' ∷ b'n' ∷ b'o'
    ∷ b'r' ∷ b'e' ∷ b'p' ∷ b'l' ∷ b'y' ∷ 13 ∷ 10 ∷ b'a' ∷ b'b' ∷ []

abbrev set_tail : List ℕ
set_tail = b'd' ∷ 13 ∷ 10 ∷ []

abbrev value_head : List ℕ
value_head =
    b'V' ∷ b'A' ∷ b'L' ∷ b'U' ∷ b'E' ∷ b' ' ∷ b'k' ∷ b' ' ∷ b'0' ∷ b' ' ∷ b'4' ∷ 13 ∷ 10 ∷ b'a'
    ∷ b'b' ∷ []

abbrev value_tail : List ℕ
value_tail = b'd' ∷ 13 ∷ 10 ∷ b'E' ∷ b'N' ∷ b'D' ∷ 13 ∷ 10 ∷ []

get_two_parsed :
    memcache_parse_req always true get_two 0 new_command
    ≡ parse_ok 10 (record new_command { narg = 3; kind = req_mc_get; keys = (4, 5) ∷ (6, 8) ∷ [] })
unfolding memcache_parse_req wx_cache_proxy.Parser.Machine.parse
    wx_cache_proxy.Parser.Machine.finish wx_cache_proxy.Parser.Machine.scan
    wx_cache_proxy.Parser.Machine.leave wx_cache_proxy.Parser.Bytes.isdigit
    wx_cache_proxy.Parser.Bytes.same_bytes wx_cache_proxy.Parser.Bytes.find_kind
    wx_cache_proxy.Memcache.Request.islower wx_cache_proxy.Memcache.Request.start_command
    wx_cache_proxy.Memcache.Request.command_kind wx_cache_proxy.Memcache.Request.name_read
    wx_cache_proxy.Memcache.Request.read_command wx_cache_proxy.Memcache.Request.key_read
    wx_cache_proxy.Memcache.Request.end_key wx_cache_proxy.Memcache.Request.read_mc_key
    wx_cache_proxy.Memcache.Request.before_keys wx_cache_proxy.Memcache.Request.before_number
    wx_cache_proxy.Memcache.Request.in_number wx_cache_proxy.Memcache.Request.last_number
    wx_cache_proxy.Memcache.Request.before_vlen wx_cache_proxy.Memcache.Request.read_vlen
    wx_cache_proxy.Memcache.Request.skip_val wx_cache_proxy.Memcache.Request.runto_crlf
    wx_cache_proxy.Memcache.Request.read_noreply wx_cache_proxy.Memcache.Request.after_noreply
    wx_cache_proxy.Memcache.Request.wait_cr wx_cache_proxy.Memcache.Request.command_round_in
    wx_cache_proxy.Memcache.Request.command_round wx_cache_proxy.Memcache.Request.command_backs
    wx_cache_proxy.Memcache.Class.memcache_storage wx_cache_proxy.Memcache.Class.memcache_cas
    wx_cache_proxy.Memcache.Class.memcache_retrieval
    wx_cache_proxy.Memcache.Class.memcache_arithmetic wx_cache_proxy.Memcache.Class.memcache_delete
    wx_cache_proxy.Memcache.Class.memcache_touch
get_two_parsed = refl

set_parsed :
    memcache_parse_req always true (set_head ++ b'c' ∷ set_tail) 0 new_command
    ≡ parse_ok 27 (record new_command {
      narg = 2;
      kind = req_mc_set;
      keys = (4, 5) ∷ [];
      vlen = 4;
      noreply = true;
    })
unfolding memcache_parse_req wx_cache_proxy.Parser.Machine.parse
    wx_cache_proxy.Parser.Machine.finish wx_cache_proxy.Parser.Machine.scan
    wx_cache_proxy.Parser.Machine.leave wx_cache_proxy.Parser.Bytes.isdigit
    wx_cache_proxy.Parser.Bytes.same_bytes wx_cache_proxy.Parser.Bytes.find_kind
    wx_cache_proxy.Memcache.Request.islower wx_cache_proxy.Memcache.Request.start_command
    wx_cache_proxy.Memcache.Request.command_kind wx_cache_proxy.Memcache.Request.name_read
    wx_cache_proxy.Memcache.Request.read_command wx_cache_proxy.Memcache.Request.key_read
    wx_cache_proxy.Memcache.Request.end_key wx_cache_proxy.Memcache.Request.read_mc_key
    wx_cache_proxy.Memcache.Request.before_keys wx_cache_proxy.Memcache.Request.before_number
    wx_cache_proxy.Memcache.Request.in_number wx_cache_proxy.Memcache.Request.last_number
    wx_cache_proxy.Memcache.Request.before_vlen wx_cache_proxy.Memcache.Request.read_vlen
    wx_cache_proxy.Memcache.Request.skip_val wx_cache_proxy.Memcache.Request.runto_crlf
    wx_cache_proxy.Memcache.Request.read_noreply wx_cache_proxy.Memcache.Request.after_noreply
    wx_cache_proxy.Memcache.Request.wait_cr wx_cache_proxy.Memcache.Request.command_round_in
    wx_cache_proxy.Memcache.Request.command_round wx_cache_proxy.Memcache.Request.command_backs
    wx_cache_proxy.Memcache.Class.memcache_storage wx_cache_proxy.Memcache.Class.memcache_cas
    wx_cache_proxy.Memcache.Class.memcache_retrieval
    wx_cache_proxy.Memcache.Class.memcache_arithmetic wx_cache_proxy.Memcache.Class.memcache_delete
    wx_cache_proxy.Memcache.Class.memcache_touch
set_parsed = refl

value_parsed :
    memcache_parse_rsp true (value_head ++ b'c' ∷ value_tail) 0 new_rep
    ≡ parse_ok 24 (record new_rep { vlen = 4; kind = rsp_mc_end; end = some 19 })
unfolding memcache_parse_rsp wx_cache_proxy.Parser.Machine.parse
    wx_cache_proxy.Parser.Machine.finish wx_cache_proxy.Parser.Machine.scan
    wx_cache_proxy.Parser.Machine.leave wx_cache_proxy.Parser.Bytes.isdigit
    wx_cache_proxy.Parser.Bytes.same_bytes wx_cache_proxy.Parser.Bytes.find_kind
    wx_cache_proxy.Memcache.Reply.token_or wx_cache_proxy.Memcache.Reply.rsp_num
    wx_cache_proxy.Memcache.Reply.reply_kind wx_cache_proxy.Memcache.Reply.word_read
    wx_cache_proxy.Memcache.Reply.rsp_str wx_cache_proxy.Memcache.Reply.before_number
    wx_cache_proxy.Memcache.Reply.read_flags wx_cache_proxy.Memcache.Reply.before_vlen
    wx_cache_proxy.Memcache.Reply.read_vlen wx_cache_proxy.Memcache.Reply.skip_val
    wx_cache_proxy.Memcache.Reply.runto_crlf wx_cache_proxy.Memcache.Reply.wait_cr
    wx_cache_proxy.Memcache.Reply.rep_round_in wx_cache_proxy.Memcache.Reply.rep_round
    wx_cache_proxy.Memcache.Reply.rep_backs
value_parsed = refl

memcache_parse_req-append_example :
    settle_result settle_command
      (memcache_parse_req always true (set_head ++ b'c' ∷ set_tail) 0 new_command)
    ≡ settle_result settle_command (
        again_on
          (memcache_parse_req always true (set_head ++ b'c' ∷ set_tail))
          (memcache_parse_req always false set_head 0 new_command))
memcache_parse_req-append_example =
    memcache_parse_req-append always set_head b'c' set_tail true 0 new_command (omega arith)

memcache_parse_rsp-append_example :
    settle_result settle_rep (memcache_parse_rsp true (value_head ++ b'c' ∷ value_tail) 0 new_rep)
    ≡ settle_result settle_rep (
        again_on
          (memcache_parse_rsp true (value_head ++ b'c' ∷ value_tail))
          (memcache_parse_rsp false value_head 0 new_rep))
memcache_parse_rsp-append_example =
    memcache_parse_rsp-append value_head b'c' value_tail true 0 new_rep (omega arith)

memcache_parse_req-Ends_example :
    let left = scan (Request.command_parser always) 90 set_head 0 new_command in
    Ends Anywhere (length set_head) 0 left
    × (finish (Request.command_parser always) true left
        ≡ memcache_parse_req always true set_head 0 new_command)
memcache_parse_req-Ends_example =
    memcache_parse_req-Ends always 90 true set_head 0 new_command (omega arith) (omega arith)

memcache_parse_rsp-Ends_example :
    let left = scan Reply.rep_parser 90 value_head 0 new_rep in
    Ends Anywhere (length value_head) 0 left
    × (finish Reply.rep_parser true left ≡ memcache_parse_rsp true value_head 0 new_rep)
memcache_parse_rsp-Ends_example =
    memcache_parse_rsp-Ends 90 true value_head 0 new_rep (omega arith) (omega arith)
