-- ===== src/Memcache/Reply.antt =====
-- nc_memcache.c: `memcache_parse_rsp`, its states and one round of its loop.
mod Forward
pub mod Whole
pub mod Ends
use wx_cache_proxy.Base.{
  ℕ, zero, suc, ◌+◌, ◌-◌, ◌*◌, ◌%◌, ◌^◌, Bool, true, false, not, ◌&&◌, ◌||◌, List, [], ◌∷◌, ◌++◌,
  Option, none, some, ltb, leb, ◌==◌, if◌then◌else◌, length,
}
use wx_cache_proxy.Parser.Kind.{
  MsgType, msg_unknown, rsp_mc_num, rsp_mc_stored, rsp_mc_not_stored, rsp_mc_exists,
  rsp_mc_not_found, rsp_mc_deleted, rsp_mc_touched, rsp_mc_end, rsp_mc_value, rsp_mc_error,
  rsp_mc_client_error, rsp_mc_server_error,
}
use wx_cache_proxy.Parser.Bytes.{
  slice, byte_at, cr, lf, isdigit, shift_digit, same_bytes, find_kind,
}
use wx_cache_proxy.Parser.Machine.{Move, go, done, error, enomem, Parser, Result, parse}
use wx_cache_proxy.Memcache.Names.{short_replies, replies_longer}

pub data RepState : Type 0 where
  sw_start sw_rsp_num sw_rsp_str sw_spaces_before_key sw_key : RepState
  sw_spaces_before_flags sw_flags sw_spaces_before_vlen sw_vlen sw_runto_val sw_val : RepState
  sw_val_lf sw_end sw_runto_crlf sw_crlf sw_almost_done : RepState

-- The fields of `struct msg` that the parser keeps, with pointers as offsets into the buffer; `end` is
-- where the line END of a retrieval stands.
pub record Rep : Type 0 where
  pub state : RepState
  pub token : Option ℕ
  pub vlen : ℕ
  pub kind : MsgType
  pub end : Option ℕ

abbrev pub space : ℕ
space = b' '

-- The token, set at `p` where there is none.
unfoldable pub token_or : ℕ → Option ℕ → ℕ
token_or p none = p
token_or p (some t) = t

-- SW_RSP_NUM
unfoldable pub rsp_num : ℕ → ℕ → Rep → Move Rep
rsp_num p ch r =
    if isdigit ch
    then go (suc p) (record r { token = some (token_or p r.token) })
    else if ch == space || ch == cr
    then go p (record r { token = none; kind = rsp_mc_num; state = sw_crlf })
    else error

-- The kind of the response whose first word stands from `t` to `p`. END counts with the byte behind it.
unfoldable pub reply_kind : List ℕ → ℕ → ℕ → MsgType
reply_kind buf t p =
    if p - t == 3
    then find_kind short_replies (slice buf t (suc p)) msg_unknown
    else find_kind replies_longer (slice buf t p) msg_unknown

-- The state behind the first word; kinds that the word cannot have are not reached.
unfoldable pub word_read : MsgType → ℕ → ℕ → Rep → Move Rep
word_read rsp_mc_stored t p r = go p (record r { state = sw_crlf })
word_read rsp_mc_not_stored t p r = go p (record r { state = sw_crlf })
word_read rsp_mc_exists t p r = go p (record r { state = sw_crlf })
word_read rsp_mc_not_found t p r = go p (record r { state = sw_crlf })
word_read rsp_mc_deleted t p r = go p (record r { state = sw_crlf })
word_read rsp_mc_touched t p r = go p (record r { state = sw_crlf })
word_read rsp_mc_end t p r = go p (record r { end = some t; state = sw_crlf })
word_read rsp_mc_value t p r = go p (record r { state = sw_spaces_before_key })
word_read rsp_mc_error t p r = go p (record r { state = sw_crlf })
word_read rsp_mc_client_error t p r = go p (record r { state = sw_runto_crlf })
word_read rsp_mc_server_error t p r = go p (record r { state = sw_runto_crlf })
word_read _ t p r = error

-- SW_RSP_STR
unfoldable pub rsp_str : List ℕ → ℕ → ℕ → Rep → Move Rep
rsp_str buf p ch r =
    let t = token_or p r.token in
    let kind = reply_kind buf t p in
    if ch == space || ch == cr
    then word_read kind t p (record r { token = some t; kind = kind })
    else go (suc p) (record r { token = some t })

unfoldable pub before_number : RepState → ℕ → ℕ → Rep → Move Rep
before_number next p ch r =
    if ch == space
    then go (suc p) r
    else if isdigit ch
    then go p (record r { state = next })
    else error

-- SW_FLAGS
unfoldable pub read_flags : ℕ → ℕ → Rep → Move Rep
read_flags p ch r =
    if isdigit ch
    then go (suc p) r
    else if ch == space
    then go (suc p) (record r { state = sw_spaces_before_vlen })
    else error

-- SW_SPACES_BEFORE_VLEN
unfoldable pub before_vlen : ℕ → ℕ → Rep → Move Rep
before_vlen p ch r =
    if ch == space
    then go (suc p) r
    else if isdigit ch
    then go p (record r { vlen = 0; state = sw_vlen })
    else error

unfoldable pub read_vlen : ℕ → ℕ → Rep → Move Rep
read_vlen p ch r =
    if isdigit ch
    then go (suc p) (record r { vlen = shift_digit r.vlen ch })
    else if ch == space || ch == cr
    then go p (record r { state = sw_runto_crlf })
    else error

-- SW_VAL
unfoldable pub skip_val : List ℕ → ℕ → Rep → Move Rep
skip_val buf p r =
    let m = p + r.vlen in
    if leb (length buf) m
    then go (length buf) (record r { vlen = r.vlen - (length buf - p) })
    else if byte_at buf m == cr
    then go (suc m) (record r { state = sw_val_lf })
    else error

-- END and the byte behind it.
abbrev pub end_word : List ℕ
end_word = b'E' ∷ b'N' ∷ b'D' ∷ cr ∷ []

-- SW_END, to which no state of this loop leads. A word of three bytes that is not END keeps the state.
unfoldable pub read_end : List ℕ → ℕ → ℕ → Rep → Move Rep
read_end buf p ch r = elim r.token [
  | none ↦ if ch == b'E' then go (suc p) (record r { token = some p }) else error
  | some t ↦
      if ch == cr
      then (if p - t == 3
          then (if same_bytes (slice buf t (suc p)) end_word
              then go (suc p) (record r { token = none; end = some t; state = sw_almost_done })
              else go (suc p) (record r { token = none }))
          else error)
      else go (suc p) r
]

-- SW_RUNTO_CRLF
unfoldable pub runto_crlf : MsgType → ℕ → ℕ → Rep → Move Rep
runto_crlf rsp_mc_value p ch r =
    if ch == cr then go (suc p) (record r { state = sw_runto_val }) else go (suc p) r
runto_crlf kind p ch r =
    if ch == cr then go (suc p) (record r { state = sw_almost_done }) else go (suc p) r

-- SW_CRLF
unfoldable pub wait_cr : ℕ → ℕ → Rep → Move Rep
wait_cr p ch r =
    if ch == space
    then go (suc p) r
    else if ch == cr
    then go (suc p) (record r { state = sw_almost_done })
    else error

unfoldable pub rep_round_in : RepState → List ℕ → ℕ → ℕ → Rep → Move Rep
rep_round_in sw_start buf p ch r =
    if isdigit ch
    then go p (record r { state = sw_rsp_num })
    else go p (record r { state = sw_rsp_str })
rep_round_in sw_rsp_num buf p ch r = rsp_num p ch r
rep_round_in sw_rsp_str buf p ch r = rsp_str buf p ch r
rep_round_in sw_spaces_before_key buf p ch r =
    if ch == space then go (suc p) r else go p (record r { state = sw_key })
rep_round_in sw_key buf p ch r =
    if ch == space then go (suc p) (record r { state = sw_spaces_before_flags }) else go (suc p) r
rep_round_in sw_spaces_before_flags buf p ch r = before_number sw_flags p ch r
rep_round_in sw_flags buf p ch r = read_flags p ch r
rep_round_in sw_spaces_before_vlen buf p ch r = before_vlen p ch r
rep_round_in sw_vlen buf p ch r = read_vlen p ch r
rep_round_in sw_runto_val buf p ch r =
    if ch == lf then go (suc p) (record r { state = sw_val; token = none }) else error
rep_round_in sw_val buf p ch r = skip_val buf p r
rep_round_in sw_val_lf buf p ch r =
    if ch == lf then go (suc p) (record r { state = sw_rsp_str }) else error
rep_round_in sw_end buf p ch r = read_end buf p ch r
rep_round_in sw_runto_crlf buf p ch r = runto_crlf r.kind p ch r
rep_round_in sw_crlf buf p ch r = wait_cr p ch r
rep_round_in sw_almost_done buf p ch r = if ch == lf then done p r else error

unfoldable pub rep_round : List ℕ → ℕ → Rep → Move Rep
rep_round buf p r = rep_round_in r.state buf p (byte_at buf p) r

-- How often a state may go back before a byte is taken.
unfoldable pub rep_backs : RepState → ℕ
rep_backs sw_start = 3
rep_backs sw_rsp_num = 1
rep_backs sw_rsp_str = 2
rep_backs sw_spaces_before_key = 1
rep_backs sw_spaces_before_flags = 1
rep_backs sw_spaces_before_vlen = 2
rep_backs sw_vlen = 1
rep_backs _ = 0

-- Where a repair starts again.
unfoldable pub repaired : RepState → RepState
repaired sw_val = sw_val
repaired sw_val_lf = sw_val_lf
repaired sw_end = sw_end
repaired sw_runto_crlf = sw_runto_crlf
repaired _ = sw_start

abbrev pub rep_parser : Parser Rep
rep_parser = record {
  step = rep_round;
  token = λ r. r.token;
  forget = λ r. record r { state = repaired r.state; token = none };
  restart = λ r. record r { state = sw_start; token = none };
  rounds = λ n r. 4 * n + rep_backs r.state;
}

unfoldable pub memcache_parse_rsp : Bool → List ℕ → ℕ → Rep → Result Rep
memcache_parse_rsp full buf pos r = parse rep_parser full buf pos r
