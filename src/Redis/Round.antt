-- ===== src/Redis/Round.antt =====
-- nc_redis.c: one round of the loop of `redis_parse_req` in the states that look ahead in the buffer,
-- and the choice of the state.
use wx_cache_proxy.Parser.Bytes.{cr, shift_digit, isdigit, slice, byte_at}
use wx_cache_proxy.Base.{
  ℕ, suc, ◌+◌, ◌-◌, Bool, false, not, ◌&&◌, ◌||◌, List, [], ◌∷◌, ◌++◌, Option, none, some, ltb, leb,
  ◌==◌, if◌then◌else◌, length,
}
use wx_cache_proxy.Redis.Class.{redis_argeval}
use wx_cache_proxy.Redis.Command.{row}
use wx_cache_proxy.Redis.Lookup.{find_command}
use wx_cache_proxy.Redis.Request.{
  State, sw_start, sw_narg, sw_narg_lf, sw_req_type_len, sw_req_type_len_lf, sw_req_type,
  sw_req_type_lf, sw_key_len, sw_key_len_lf, sw_key, sw_key_lf, sw_arg1_len, sw_arg1_len_lf,
  sw_arg1, sw_arg1_lf, sw_arg2_len, sw_arg2_len_lf, sw_arg2, sw_arg2_lf, sw_arg3_len,
  sw_arg3_len_lf, sw_arg3, sw_arg3_lf, sw_argn_len, sw_argn_len_lf, sw_argn, sw_argn_lf, Request,
  to, read_narg, read_length, some_digits, read_lf, after_type, after_key, after_arg1, after_arg2,
  after_arg3, after_argn,
}
use wx_cache_proxy.Parser.Machine.{Move, go, error, enomem}

abbrev pub token_or : Request → ℕ → ℕ
token_or r p = elim r.token [ none ↦ p | some t ↦ t ]

-- The number of keys of EVAL, by the loop over its digits: `none` if there is another byte.
unfoldable pub count_keys : ℕ → List ℕ → Option ℕ
count_keys nkey [] = some nkey
count_keys nkey (ch ∷ word) =
    let rest = count_keys (shift_digit nkey ch) word in if isdigit ch then rest else none

-- Whether `bytes`, the third argument of EVAL, is a number of keys that the proxy accepts.
unfoldable pub accepts_count : List ℕ → Bool
accepts_count [] = false
accepts_count (ch ∷ word) = elim (count_keys 0 (ch ∷ word)) [ none ↦ false | some n ↦ not (n == 0) ]

-- `mbuf_data` is `mbuf_data_size()`, and `room` tells whether an array of so many keys can take
-- another one. `last` is the end of the buffer.
module _ (mbuf_data : ℕ) (room : ℕ → Bool) (last : ℕ) (buf : List ℕ) where
  unfoldable pub read_type : ℕ → Request → Move Request
  read_type p r =
      let t = token_or r p in
      let m = t + r.rlen in
      if leb last m
      then go last (record r { token = some t })
      else if not (byte_at buf m == cr)
      then error
      else elim (find_command (slice buf t m)) [
        | none ↦ error
        | some (row name kind noforward quit) ↦ go (suc m) (record r {
          rlen = 0;
          token = none;
          kind = kind;
          noforward = r.noforward || noforward;
          quit = r.quit || quit;
          state = sw_req_type_lf;
        })
      ]

  unfoldable pub read_key : ℕ → Request → Move Request
  read_key p r =
      let t = token_or r p in
      let m = t + r.rlen in
      if leb last m
      then go last (record r { token = some t })
      else if not (byte_at buf m == cr)
      then error
      else if room (length r.keys)
      then go (suc m)
          (record r { rlen = 0; token = none; keys = r.keys ++ (t, m) ∷ []; state = sw_key_lf })
      else enomem

  -- SW_ARG1, SW_ARG3 and SW_ARGN.
  unfoldable pub skip_arg : State → ℕ → Request → Move Request
  skip_arg next p r =
      let m = p + r.rlen in
      if leb last m
      then go last (record r { rlen = r.rlen - (last - p) })
      else if not (byte_at buf m == cr)
      then error
      else go (suc m) (record r { rlen = 0; state = next })

  -- SW_ARG2 of EVAL and EVALSHA, whose token is set.
  unfoldable pub read_count : ℕ → ℕ → Request → Move Request
  read_count t p r =
      let m = p + r.rlen in
      if leb last m
      then go last (record r { token = some t; rlen = r.rlen - (last - p) })
      else if not (byte_at buf m == cr)
      then error
      else if accepts_count (slice buf t m)
      then go (suc m) (record r { token = none; rlen = 0; state = sw_arg2_lf })
      else error

  unfoldable pub round_in : State → ℕ → ℕ → Request → Move Request
  round_in sw_start p ch r = read_narg p ch r
  round_in sw_narg p ch r = read_narg p ch r
  round_in sw_narg_lf p ch r = read_lf (to sw_req_type_len) p ch r
  round_in sw_req_type_len p ch r =
      read_length (λ t. not (r.rlen == 0 || r.rnarg == 0)) sw_req_type_len_lf p ch r
  round_in sw_req_type_len_lf p ch r = read_lf (to sw_req_type) p ch r
  round_in sw_req_type p ch r = read_type p r
  round_in sw_req_type_lf p ch r = read_lf (after_type r) p ch r
  round_in sw_key_len p ch r =
      read_length (λ t. ltb r.rlen mbuf_data && not (r.rnarg == 0)) sw_key_len_lf p ch r
  round_in sw_key_len_lf p ch r = read_lf (to sw_key) p ch r
  round_in sw_key p ch r = read_key p r
  round_in sw_key_lf p ch r = read_lf (after_key r) p ch r
  round_in sw_arg1_len p ch r = read_length (some_digits p r) sw_arg1_len_lf p ch r
  round_in sw_arg1_len_lf p ch r = read_lf (to sw_arg1) p ch r
  round_in sw_arg1 p ch r = skip_arg sw_arg1_lf p r
  round_in sw_arg1_lf p ch r = read_lf (after_arg1 r) p ch r
  round_in sw_arg2_len p ch r = read_length (some_digits p r) sw_arg2_len_lf p ch r
  round_in sw_arg2_len_lf p ch r = read_lf (to sw_arg2) p ch r
  round_in sw_arg2 p ch r =
      if redis_argeval r.kind then read_count (token_or r p) p r else skip_arg sw_arg2_lf p r
  round_in sw_arg2_lf p ch r = read_lf (after_arg2 r) p ch r
  round_in sw_arg3_len p ch r = read_length (some_digits p r) sw_arg3_len_lf p ch r
  round_in sw_arg3_len_lf p ch r = read_lf (to sw_arg3) p ch r
  round_in sw_arg3 p ch r = skip_arg sw_arg3_lf p r
  round_in sw_arg3_lf p ch r = read_lf (after_arg3 r) p ch r
  round_in sw_argn_len p ch r = read_length (some_digits p r) sw_argn_len_lf p ch r
  round_in sw_argn_len_lf p ch r = read_lf (to sw_argn) p ch r
  round_in sw_argn p ch r = skip_arg sw_argn_lf p r
  round_in sw_argn_lf p ch r = read_lf (after_argn r) p ch r

  unfoldable pub round : ℕ → Request → Move Request
  round p r = round_in r.state p (byte_at buf p) r
