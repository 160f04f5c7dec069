-- ===== src/Redis/Reply/Forward.antt =====
-- nc_redis.c: each round of `redis_parse_rsp` and the positions in the buffer.
use wx_cache_proxy.Parser.Bytes.{byte_at, cr, lf, isdigit}
use wx_cache_proxy.Base.{
  ℕ, suc, ◌+◌, ◌-◌, ◌≤◌, ◌<◌, ◌≡◌, refl, ap, Bool, not, ◌&&◌, ◌||◌, List, Option, none, some, leb,
  ◌==◌, if◌then◌else◌, length, arith, Bool-cases, inl, inr,
}
use wx_cache_proxy.Parser.Machine.{Move, go, done, error, Advances}
use wx_cache_proxy.Parser.Forward
use wx_cache_proxy.Parser.Forward.{Anywhere, Counts, Forward, forward}
use wx_cache_proxy.Redis.Reply.{
  ReplyState, sw_start, sw_status, sw_error, sw_integer, sw_integer_start, sw_simple, sw_bulk,
  sw_bulk_lf, sw_bulk_arg, sw_bulk_arg_lf, sw_multibulk, sw_multibulk_narg_lf,
  sw_multibulk_argn_len, sw_multibulk_argn_len_lf, sw_multibulk_argn, sw_multibulk_argn_lf,
  sw_runto_crlf, sw_almost_done, Reply, start_reply, on_lf, end_error, read_error, read_integer,
  read_simple, read_bulk, read_multibulk, end_length, read_argn_len, skip_bulk, end_or,
  reply_round_in, reply_round, goes_back, reply_parser,
}

pub goes_back-light : (s : ReplyState) → goes_back s ≤ 1
unfolding goes_back
goes_back-light sw_start = omega arith
goes_back-light sw_multibulk_argn_len = omega arith
goes_back-light _ = omega arith

counts : Counts reply_parser
counts n k r r' lt = omega (arith, goes_back-light r'.state)

abbrev Onward : ℕ → ℕ → Reply → Move Reply → Type 0
Onward last p r x = Forward reply_parser last p r x

module _ (last p : ℕ) (lt : p < last) (r : Reply) where
  if-Forward :
      (b : Bool) (x y : Move Reply)
      → Onward last p r x
      → Onward last p r y
      → Onward last p r (if b then x else y)
  if-Forward = Forward.if-Forward reply_parser last p r

  token-Forward :
      (o : Option ℕ) (x : Move Reply) (f : ℕ → Move Reply)
      → Onward last p r x
      → ((t : ℕ) → Onward last p r (f t))
      → Onward last p r (elim o [ none ↦ x | some t ↦ f t ])
  token-Forward o x f h k = Forward.token-Forward reply_parser last p r o x f (λ e. h) (λ t e. k t)

  next-Forward : (r' : Reply) → Onward last p r (go (suc p) r')
  next-Forward = Forward.next-Forward reply_parser last p r counts lt

  -- A step back leads from a state that may go back to one that does not.
  back-Forward :
      (r' : Reply) → goes_back r.state ≡ 1 → goes_back r'.state ≡ 0 → Onward last p r (go p r')
  back-Forward r' e e' =
      Forward.back-Forward reply_parser last p r lt r' (λ n. omega (arith, e, e'))

  done-Forward : (r' : Reply) → Onward last p r (done p r')
  done-Forward = Forward.done-Forward reply_parser last p r lt

  error-Forward : Onward last p r error
  error-Forward = Forward.error-Forward reply_parser last p r

  on_lf-Forward : (ch : ℕ) (x : Move Reply) → Onward last p r x → Onward last p r (on_lf ch x)
  on_lf-Forward ch x h = if-Forward (ch == lf) x error h error-Forward

  end_or-Forward : (next : ReplyState) (r' : Reply) → Onward last p r (end_or next p r')
  end_or-Forward next r' = if-Forward (r'.rnarg == 0) _ _ (done-Forward r') (next-Forward _)

  start_reply-Forward : (ch : ℕ) → r.state ≡ sw_start → Onward last p r (start_reply p ch r)
  unfolding start_reply goes_back
  start_reply-Forward ch e =
      let w : goes_back r.state ≡ 1 = ap goes_back e in
      if-Forward (ch == b'+') _ _ (back-Forward _ w refl) (
        if-Forward (ch == b'-') _ _ (back-Forward _ w refl) (
          if-Forward (ch == b':') _ _ (back-Forward _ w refl) (
            if-Forward (ch == b'$') _ _ (back-Forward _ w refl)
              (if-Forward (ch == b'*') _ _ (back-Forward _ w refl) error-Forward))))

  end_error-Forward : (buf : List ℕ) (t ch : ℕ) → Onward last p r (end_error buf t p ch r)
  unfolding end_error
  end_error-Forward buf t ch =
      if-Forward (ch == b' ' || ch == cr) _ _ (next-Forward _) (next-Forward _)

  read_error-Forward : (buf : List ℕ) (ch : ℕ) → Onward last p r (read_error buf p ch r)
  unfolding read_error
  read_error-Forward buf ch =
      token-Forward r.token _ _
        (if-Forward (ch == b'-') _ _ (end_error-Forward buf p ch) error-Forward)
        (λ t. (end_error-Forward buf t ch))

  read_integer-Forward : (ch : ℕ) → Onward last p r (read_integer p ch r)
  unfolding read_integer
  read_integer-Forward ch = if-Forward (ch == cr) _ _ (next-Forward _) (
      if-Forward (ch == b'-') _ _ (next-Forward _)
        (if-Forward (isdigit ch) _ _ (next-Forward _) error-Forward))

  read_simple-Forward : (ch : ℕ) → Onward last p r (read_simple p ch r)
  unfolding read_simple
  read_simple-Forward ch = if-Forward (ch == cr) _ _ (next-Forward _) (next-Forward _)

  read_bulk-Forward : (ch : ℕ) → Onward last p r (read_bulk p ch r)
  unfolding read_bulk
  read_bulk-Forward ch =
      token-Forward r.token _ _ (if-Forward (ch == b'$') _ _ (next-Forward _) error-Forward) (λ t.
        (if-Forward (ch == b'-') _ _ (next-Forward _) (
          if-Forward (isdigit ch) _ _ (next-Forward _) (
            if-Forward (ch == cr) _ _
              (if-Forward (leb (p - t) 1) _ _ error-Forward (next-Forward _)) error-Forward))))

  read_multibulk-Forward : (ch : ℕ) → Onward last p r (read_multibulk p ch r)
  unfolding read_multibulk
  read_multibulk-Forward ch =
      token-Forward r.token _ _ (if-Forward (ch == b'*') _ _ (next-Forward _) error-Forward) (λ t.
        (if-Forward (ch == b'-') _ _ (next-Forward _) (
          if-Forward (isdigit ch) _ _ (next-Forward _) (
            if-Forward (ch == cr) _ _
              (if-Forward (leb (p - t) 1) _ _ error-Forward (next-Forward _)) error-Forward))))

  end_length-Forward : (t : ℕ) → Onward last p r (end_length t p r)
  unfolding end_length
  end_length-Forward t =
      if-Forward (leb (p - t) 1 || r.rnarg == 0) _ _ error-Forward
        (if-Forward (r.rlen == 1 && p - t == 3) _ _ (next-Forward _) (next-Forward _))

  read_argn_len-Forward :
      (ch : ℕ) → r.state ≡ sw_multibulk_argn_len → Onward last p r (read_argn_len p ch r)
  unfolding read_argn_len goes_back
  read_argn_len-Forward ch s =
      token-Forward r.token _ _
        (if-Forward (ch == b'*') _ _ (back-Forward _ (ap goes_back s) refl) (
          if-Forward (ch == b':' || ch == b'+' || ch == b'-') _ _ (next-Forward _)
            (if-Forward (ch == b'$') _ _ (next-Forward _) error-Forward)))
        (λ t.
          (if-Forward (isdigit ch) _ _ (next-Forward _) (
            if-Forward (ch == b'-') _ _ (next-Forward _)
              (if-Forward (ch == cr) _ _ (end_length-Forward t) error-Forward))))

module _ (buf : List ℕ) (p : ℕ) (lt : p < length buf) where
  skip_bulk-Forward :
      (next : ReplyState) (r : Reply) → Onward (length buf) p r (skip_bulk buf next p r)
  unfolding skip_bulk
  skip_bulk-Forward next r =
      let m = p + r.rlen in
      elim (Bool-cases (leb (length buf) m)) [
        | inl h ↦
            rw (skip_bulk, h)
              (Forward.ahead-Forward reply_parser (length buf) p r counts (length buf) _ lt
                (omega arith))
        | inr h ↦
            let within : m < length buf = ground arith in
            rw (skip_bulk, h)
              (if-Forward (length buf) p lt r (not (byte_at buf m == cr)) _ _
                (error-Forward (length buf) p lt r)
                (Forward.ahead-Forward reply_parser (length buf) p r counts (suc m) _ (omega arith)
                  (omega arith)))
      ]

  reply_round_in-Forward :
      (s : ReplyState) (ch : ℕ) (r : Reply)
      → r.state ≡ s
      → Onward (length buf) p r (reply_round_in s buf p ch r)
  unfolding reply_round_in
  reply_round_in-Forward sw_start ch r e = start_reply-Forward (length buf) p lt r ch e
  reply_round_in-Forward sw_status ch r e = next-Forward (length buf) p lt r _
  reply_round_in-Forward sw_error ch r e = read_error-Forward (length buf) p lt r buf ch
  reply_round_in-Forward sw_integer ch r e = next-Forward (length buf) p lt r _
  reply_round_in-Forward sw_integer_start ch r e = read_integer-Forward (length buf) p lt r ch
  reply_round_in-Forward sw_simple ch r e = read_simple-Forward (length buf) p lt r ch
  reply_round_in-Forward sw_bulk ch r e = read_bulk-Forward (length buf) p lt r ch
  reply_round_in-Forward sw_bulk_lf ch r e =
      on_lf-Forward (length buf) p lt r ch _ (next-Forward (length buf) p lt r _)
  reply_round_in-Forward sw_bulk_arg ch r e = skip_bulk-Forward _ r
  reply_round_in-Forward sw_bulk_arg_lf ch r e =
      on_lf-Forward (length buf) p lt r ch _ (done-Forward (length buf) p lt r r)
  reply_round_in-Forward sw_multibulk ch r e = read_multibulk-Forward (length buf) p lt r ch
  reply_round_in-Forward sw_multibulk_narg_lf ch r e =
      on_lf-Forward (length buf) p lt r ch _ (end_or-Forward (length buf) p lt r _ r)
  reply_round_in-Forward sw_multibulk_argn_len ch r e =
      read_argn_len-Forward (length buf) p lt r ch e
  reply_round_in-Forward sw_multibulk_argn_len_lf ch r e =
      on_lf-Forward (length buf) p lt r ch _ (next-Forward (length buf) p lt r _)
  reply_round_in-Forward sw_multibulk_argn ch r e = skip_bulk-Forward _ r
  reply_round_in-Forward sw_multibulk_argn_lf ch r e =
      on_lf-Forward (length buf) p lt r ch _ (end_or-Forward (length buf) p lt r _ r)
  reply_round_in-Forward sw_runto_crlf ch r e =
      if-Forward (length buf) p lt r (ch == cr) _ _ (next-Forward (length buf) p lt r _)
        (next-Forward (length buf) p lt r _)
  reply_round_in-Forward sw_almost_done ch r e =
      on_lf-Forward (length buf) p lt r ch _ (done-Forward (length buf) p lt r r)

  pub reply_round-Forward :
      (r : Reply) → Advances reply_parser Anywhere (length buf) p r (reply_round buf p r)
  unfolding reply_round
  reply_round-Forward r =
      forward reply_parser (length buf) p r _
        (reply_round_in-Forward r.state (byte_at buf p) r refl)
