-- ===== src/Redis/Reply.antt =====
-- nc_redis.c: `redis_parse_rsp`, its states and one round of its loop.
pub mod Forward
pub mod Whole
use wx_cache_proxy.Parser.Bytes.{
  same_bytes, find_kind, slice, byte_at, cr, lf, isdigit, shift_digit,
}
use wx_cache_proxy.Base.{
  ℕ, zero, suc, ◌+◌, ◌-◌, ◌*◌, ◌%◌, ◌^◌, Bool, true, false, not, ◌&&◌, ◌||◌, List, [], ◌∷◌, ◌++◌,
  Option, none, some, ltb, leb, ◌==◌, if◌then◌else◌, length,
}
use wx_cache_proxy.Parser.Kind.{
  MsgType, msg_unknown, rsp_redis_status, rsp_redis_error, rsp_redis_integer, rsp_redis_bulk,
  rsp_redis_multibulk,
}
use wx_cache_proxy.Redis.Errors.{errors}
use wx_cache_proxy.Parser.Machine.{Move, go, done, error, Parser, Result, parse}

pub data ReplyState : Type 0 where
  sw_start sw_status sw_error sw_integer sw_integer_start sw_simple sw_bulk sw_bulk_lf : ReplyState
  sw_bulk_arg sw_bulk_arg_lf sw_multibulk sw_multibulk_narg_lf sw_multibulk_argn_len : ReplyState
  sw_multibulk_argn_len_lf sw_multibulk_argn sw_multibulk_argn_lf sw_runto_crlf : ReplyState
  sw_almost_done : ReplyState

-- The fields of `struct msg` that the parser keeps. Pointers are offsets into the buffer.
pub record Reply : Type 0 where
  pub state : ReplyState
  pub token : Option ℕ
  pub rlen : ℕ
  pub rnarg : ℕ
  pub narg : ℕ
  pub narg_start : ℕ
  pub narg_end : ℕ
  pub kind : MsgType
  pub integer : ℕ

-- SW_START. A byte that starts a reply is read again in the state of the reply.
unfoldable pub start_reply : ℕ → ℕ → Reply → Move Reply
start_reply p ch r =
    if ch == b'+'
    then go p (record r { kind = rsp_redis_status; state = sw_status })
    else if ch == b'-'
    then go p (record r { kind = rsp_redis_error; state = sw_error })
    else if ch == b':'
    then go p (record r { kind = rsp_redis_integer; state = sw_integer })
    else if ch == b'$'
    then go p (record r { kind = rsp_redis_bulk; state = sw_bulk })
    else if ch == b'*'
    then go p (record r { kind = rsp_redis_multibulk; state = sw_multibulk })
    else error

-- `if (ch == LF)` and `goto error` otherwise.
abbrev pub on_lf : ℕ → Move Reply → Move Reply
on_lf ch move = if ch == lf then move else error

-- SW_ERROR behind the test of the first byte: `t` is the token.
unfoldable pub end_error : List ℕ → ℕ → ℕ → ℕ → Reply → Move Reply
end_error buf t p ch r =
    if ch == b' ' || ch == cr
    then go (suc p) (record r {
      token = none;
      kind = find_kind errors (slice buf t p) r.kind;
      state = sw_runto_crlf;
    })
    else go (suc p) (record r { token = some t })

unfoldable pub read_error : List ℕ → ℕ → ℕ → Reply → Move Reply
read_error buf p ch r = elim r.token [
  | none ↦ if ch == b'-' then end_error buf p p ch r else error
  | some t ↦ end_error buf t p ch r
]

unfoldable pub read_integer : ℕ → ℕ → Reply → Move Reply
read_integer p ch r =
    if ch == cr
    then go (suc p) (record r { state = sw_almost_done })
    else if ch == b'-'
    then go (suc p) r
    else if isdigit ch
    then go (suc p) (record r { integer = shift_digit r.integer ch })
    else error

-- `r->rnarg--` in 32 bits.
unfoldable pub decrement : ℕ → ℕ
decrement n = (n + 2 ^ 32 - 1) % 2 ^ 32

unfoldable pub read_simple : ℕ → ℕ → Reply → Move Reply
read_simple p ch r =
    if ch == cr
    then go (suc p) (record r { state = sw_multibulk_argn_lf; rnarg = decrement r.rnarg })
    else go (suc p) r

unfoldable pub read_bulk : ℕ → ℕ → Reply → Move Reply
read_bulk p ch r = elim r.token [
  | none ↦ if ch == b'$' then go (suc p) (record r { token = some p; rlen = 0 }) else error
  | some t ↦
      if ch == b'-'
      then go (suc p) (record r { state = sw_runto_crlf })
      else if isdigit ch
      then go (suc p) (record r { rlen = shift_digit r.rlen ch })
      else if ch == cr
      then (if leb (p - t) 1
          then error
          else go (suc p) (record r { token = none; state = sw_bulk_lf }))
      else error
]

unfoldable pub read_multibulk : ℕ → ℕ → Reply → Move Reply
read_multibulk p ch r = elim r.token [
  | none ↦
      if ch == b'*'
      then go (suc p) (record r { token = some p; narg_start = p; rnarg = 0 })
      else error
  | some t ↦
      if ch == b'-'
      then go (suc p) (record r { state = sw_runto_crlf })
      else if isdigit ch
      then go (suc p) (record r { rnarg = shift_digit r.rnarg ch })
      else if ch == cr
      then (if leb (p - t) 1
          then error
          else go (suc p) (record r {
            narg = r.rnarg;
            narg_end = p;
            token = none;
            state = sw_multibulk_narg_lf;
          }))
      else error
]

-- The end of the length of an element: a length of one digit 1 behind a minus has no bulk behind it.
unfoldable pub end_length : ℕ → ℕ → Reply → Move Reply
end_length t p r =
    if leb (p - t) 1 || r.rnarg == 0
    then error
    else if r.rlen == 1 && p - t == 3
    then go (suc p)
        (record r { rlen = 0; rnarg = r.rnarg - 1; token = none; state = sw_multibulk_argn_lf })
    else go (suc p)
        (record r { rnarg = r.rnarg - 1; token = none; state = sw_multibulk_argn_len_lf })

unfoldable pub read_argn_len : ℕ → ℕ → Reply → Move Reply
read_argn_len p ch r = elim r.token [
  | none ↦
      if ch == b'*'
      then go p (record r { state = sw_multibulk })
      else if ch == b':' || ch == b'+' || ch == b'-'
      then go (suc p) (record r { state = sw_simple })
      else if ch == b'$'
      then go (suc p) (record r { token = some p; rlen = 0 })
      else error
  | some t ↦
      if isdigit ch
      then go (suc p) (record r { rlen = shift_digit r.rlen ch })
      else if ch == b'-'
      then go (suc p) r
      else if ch == cr
      then end_length t p r
      else error
]

-- SW_BULK_ARG and SW_MULTIBULK_ARGN.
unfoldable pub skip_bulk : List ℕ → ReplyState → ℕ → Reply → Move Reply
skip_bulk buf next p r =
    let m = p + r.rlen in
    if leb (length buf) m
    then go (length buf) (record r { rlen = r.rlen - (length buf - p) })
    else if not (byte_at buf m == cr)
    then error
    else go (suc m) (record r { rlen = 0; state = next })

abbrev pub end_or : ReplyState → ℕ → Reply → Move Reply
end_or next p r = if r.rnarg == 0 then done p r else go (suc p) (record r { state = next })

unfoldable pub reply_round_in : ReplyState → List ℕ → ℕ → ℕ → Reply → Move Reply
reply_round_in sw_start buf p ch r = start_reply p ch r
reply_round_in sw_status buf p ch r = go (suc p) (record r { state = sw_runto_crlf })
reply_round_in sw_error buf p ch r = read_error buf p ch r
reply_round_in sw_integer buf p ch r =
    go (suc p) (record r { integer = 0; state = sw_integer_start })
reply_round_in sw_integer_start buf p ch r = read_integer p ch r
reply_round_in sw_simple buf p ch r = read_simple p ch r
reply_round_in sw_bulk buf p ch r = read_bulk p ch r
reply_round_in sw_bulk_lf buf p ch r = on_lf ch (go (suc p) (record r { state = sw_bulk_arg }))
reply_round_in sw_bulk_arg buf p ch r = skip_bulk buf sw_bulk_arg_lf p r
reply_round_in sw_bulk_arg_lf buf p ch r = on_lf ch (done p r)
reply_round_in sw_multibulk buf p ch r = read_multibulk p ch r
reply_round_in sw_multibulk_narg_lf buf p ch r = on_lf ch (end_or sw_multibulk_argn_len p r)
reply_round_in sw_multibulk_argn_len buf p ch r = read_argn_len p ch r
reply_round_in sw_multibulk_argn_len_lf buf p ch r =
    on_lf ch (go (suc p) (record r { state = sw_multibulk_argn }))
reply_round_in sw_multibulk_argn buf p ch r = skip_bulk buf sw_multibulk_argn_lf p r
reply_round_in sw_multibulk_argn_lf buf p ch r = on_lf ch (end_or sw_multibulk_argn_len p r)
reply_round_in sw_runto_crlf buf p ch r =
    if ch == cr then go (suc p) (record r { state = sw_almost_done }) else go (suc p) r
reply_round_in sw_almost_done buf p ch r = on_lf ch (done p r)

unfoldable pub reply_round : List ℕ → ℕ → Reply → Move Reply
reply_round buf p r = reply_round_in r.state buf p (byte_at buf p) r

-- The states that may go back by one byte.
unfoldable pub goes_back : ReplyState → ℕ
goes_back sw_start = 1
goes_back sw_multibulk_argn_len = 1
goes_back _ = 0

abbrev pub reply_parser : Parser Reply
reply_parser = record {
  step = reply_round;
  token = λ r. r.token;
  forget = λ r. record r { token = none };
  restart = λ r. record r { state = sw_start; token = none };
  rounds = λ n r. 2 * n + goes_back r.state;
}

unfoldable pub redis_parse_rsp : Bool → List ℕ → ℕ → Reply → Result Reply
redis_parse_rsp full buf pos r = parse reply_parser full buf pos r
