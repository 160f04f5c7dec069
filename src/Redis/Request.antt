-- ===== src/Redis/Request.antt =====
-- nc_redis.c: the state machine of `redis_parse_req`, one round of its loop at a time.
use wx_cache_proxy.Parser.Bytes.{cr, lf, isdigit, shift_digit}
use wx_cache_proxy.Base.{
  ℕ, suc, ◌-◌, ◌%◌, Bool, not, ◌||◌, List, Option, none, some, ltb, leb, ◌==◌, if◌then◌else◌,
}
use wx_cache_proxy.Parser.Kind.{MsgType}
use wx_cache_proxy.Redis.Class.{
  redis_argz, redis_arg0, redis_arg1, redis_arg2, redis_arg3, redis_argn, redis_argx, redis_argkvx,
  redis_argeval,
}
use wx_cache_proxy.Parser.Machine.{Move, go, done, error}

pub data State : Type 0 where
  sw_start sw_narg sw_narg_lf sw_req_type_len sw_req_type_len_lf sw_req_type sw_req_type_lf : State
  sw_key_len sw_key_len_lf sw_key sw_key_lf sw_arg1_len sw_arg1_len_lf sw_arg1 sw_arg1_lf : State
  sw_arg2_len sw_arg2_len_lf sw_arg2 sw_arg2_lf sw_arg3_len sw_arg3_len_lf sw_arg3 sw_arg3_lf :
      State
  sw_argn_len sw_argn_len_lf sw_argn sw_argn_lf : State

-- The fields of `struct msg` that the parser keeps. Pointers are offsets into the buffer that is
-- parsed; those in `keys` are start and end of a key in the buffer that held it.
pub record Request : Type 0 where
  pub state : State
  pub token : Option ℕ
  pub rlen : ℕ
  pub rnarg : ℕ
  pub narg : ℕ
  pub narg_start : ℕ
  pub narg_end : ℕ
  pub kind : MsgType
  pub keys : List (ℕ × ℕ)
  pub noforward : Bool
  pub quit : Bool

-- Where a line feed leads.
pub data Turn : Type 0 where
  to : State → Turn
  ends fails : Turn

-- SW_START and SW_NARG. The first byte is taken whatever it is.
unfoldable pub read_narg : ℕ → ℕ → Request → Move Request
read_narg p ch r = elim r.token [
  | none ↦ go (suc p) (record r { token = some p; narg_start = p; rnarg = 0; state = sw_narg })
  | some t ↦
      if isdigit ch
      then go (suc p) (record r { rnarg = shift_digit r.rnarg ch })
      else if ch == cr
      then (if r.rnarg == 0
          then error
          else go (suc p)
              (record r { narg = r.rnarg; narg_end = p; token = none; state = sw_narg_lf }))
      else error
]

-- The states that read a length. `fits` is the condition at the carriage return, which depends on
-- where the token starts.
unfoldable pub read_length : (ℕ → Bool) → State → ℕ → ℕ → Request → Move Request
read_length fits next p ch r = elim r.token [
  | none ↦ if ch == b'$' then go (suc p) (record r { token = some p; rlen = 0 }) else error
  | some t ↦
      if isdigit ch
      then go (suc p) (record r { rlen = shift_digit r.rlen ch })
      else if ch == cr
      then (if fits t
          then go (suc p) (record r { rnarg = r.rnarg - 1; token = none; state = next })
          else error)
      else error
]

-- The condition of the argument states: `(p - r->token) <= 1 || r->rnarg == 0` is an error.
abbrev pub some_digits : ℕ → Request → ℕ → Bool
some_digits p r t = not (leb (p - t) 1 || r.rnarg == 0)

unfoldable pub turn : Turn → ℕ → Request → Move Request
turn (to s) p r = go (suc p) (record r { state = s })
turn ends p r = done p r
turn fails p r = error

-- The states that wait for a line feed.
unfoldable pub read_lf : Turn → ℕ → ℕ → Request → Move Request
read_lf t p ch r = if ch == lf then turn t p r else error

unfoldable pub after_type : Request → Turn
after_type r =
    if redis_argz r.kind
    then ends
    else if r.narg == 1
    then fails
    else if redis_argeval r.kind
    then to sw_arg1_len
    else to sw_key_len

abbrev pub exactly : ℕ → Turn → Request → Turn
exactly n t r = if r.rnarg == n then t else fails

abbrev pub unless_last : Turn → Request → Turn
unless_last t r = if r.rnarg == 0 then ends else t

unfoldable pub after_key : Request → Turn
after_key r =
    if redis_arg0 r.kind
    then exactly 0 ends r
    else if redis_arg1 r.kind
    then exactly 1 (to sw_arg1_len) r
    else if redis_arg2 r.kind
    then exactly 2 (to sw_arg1_len) r
    else if redis_arg3 r.kind
    then exactly 3 (to sw_arg1_len) r
    else if redis_argn r.kind
    then unless_last (to sw_arg1_len) r
    else if redis_argx r.kind
    then unless_last (to sw_key_len) r
    else if redis_argkvx r.kind
    then (if r.narg % 2 == 0 then fails else to sw_arg1_len)
    else if redis_argeval r.kind
    then unless_last (to sw_argn_len) r
    else fails

unfoldable pub after_arg1 : Request → Turn
after_arg1 r =
    if redis_arg1 r.kind
    then exactly 0 ends r
    else if redis_arg2 r.kind
    then exactly 1 (to sw_arg2_len) r
    else if redis_arg3 r.kind
    then exactly 2 (to sw_arg2_len) r
    else if redis_argn r.kind
    then unless_last (to sw_argn_len) r
    else if redis_argeval r.kind
    then (if ltb r.rnarg 2 then fails else to sw_arg2_len)
    else if redis_argkvx r.kind
    then unless_last (to sw_key_len) r
    else fails

unfoldable pub after_arg2 : Request → Turn
after_arg2 r =
    if redis_arg2 r.kind
    then exactly 0 ends r
    else if redis_arg3 r.kind
    then exactly 1 (to sw_arg3_len) r
    else if redis_argn r.kind
    then unless_last (to sw_argn_len) r
    else if redis_argeval r.kind
    then (if ltb r.rnarg 1 then fails else to sw_key_len)
    else fails

unfoldable pub after_arg3 : Request → Turn
after_arg3 r =
    if redis_arg3 r.kind
    then exactly 0 ends r
    else if redis_argn r.kind
    then unless_last (to sw_argn_len) r
    else fails

unfoldable pub after_argn : Request → Turn
after_argn r =
    if redis_argn r.kind || redis_argeval r.kind then unless_last (to sw_argn_len) r else fails
