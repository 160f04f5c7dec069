-- ===== src/Redis/Reply/Whole.antt =====
-- nc_redis.c: `redis_parse_rsp` keeps the laws of a parser, and what follows for its calls.
use wx_cache_proxy.Parser.Bytes.{find_kind, byte_at, cr}
use wx_cache_proxy.Base.{
  ◌*◌, ℕ, suc, ◌+◌, ◌-◌, ◌≤◌, ◌<◌, ◌≡◌, ◌⊎◌, refl, sym, ap, ap₂, ◌∙◌, Bool, false, not, ◌||◌, List,
  ◌∷◌, ◌++◌, none, some, leb, ◌==◌, if◌then◌else◌, length, length-append, arith, Bool-cases,
  Option-cases, inl, inr,
}
use wx_cache_proxy.Parser.Machine.{scan, finish, Move, go, error, Agrees, IsParser}
use wx_cache_proxy.Redis.Errors.{errors}
use wx_cache_proxy.Parser.Slice.{byte_at-append, slice-append}
use wx_cache_proxy.Parser.Resume.{again_on, goes, parse-append}
use wx_cache_proxy.Parser.Bounds.{Ends, parse-Ends}
use wx_cache_proxy.Redis.Reply.{
  ReplyState, sw_start, sw_status, sw_error, sw_integer, sw_integer_start, sw_simple, sw_bulk,
  sw_bulk_lf, sw_bulk_arg, sw_bulk_arg_lf, sw_multibulk, sw_multibulk_narg_lf,
  sw_multibulk_argn_len, sw_multibulk_argn_len_lf, sw_multibulk_argn, sw_multibulk_argn_lf,
  sw_runto_crlf, sw_almost_done, Reply, end_error, read_error, skip_bulk, reply_round_in,
  reply_round, reply_parser, redis_parse_rsp,
}
use wx_cache_proxy.Parser.Forward.{Anywhere}
use wx_cache_proxy.Redis.Reply.Forward.{goes_back-light, reply_round-Forward}

module _ (buf xs : List ℕ) (p : ℕ) (lt : p < length buf) where
  abbrev whole : List ℕ
  whole = buf ++ xs

  abbrev Same : Move Reply → Move Reply → Type 0
  Same x y =
      (y ≡ x)
      ⊎ ((r : Reply) × (x ≡ go (length buf) r)
          × (y ≡ reply_round_in r.state whole (length buf) (byte_at whole (length buf)) r))

  end_error-append : (t ch : ℕ) (r : Reply) → end_error whole t p ch r ≡ end_error buf t p ch r
  unfolding end_error
  end_error-append t ch r =
      ap
        (λ m.
          if ch == b' ' || ch == cr
          then go (suc p)
              (record r { token = none; kind = find_kind errors m r.kind; state = sw_runto_crlf })
          else go (suc p) (record r { token = some t }))
        (slice-append buf xs t p (omega arith))

  read_error-append : (ch : ℕ) (r : Reply) → read_error whole p ch r ≡ read_error buf p ch r
  unfolding read_error
  read_error-append ch r = elim (Option-cases r.token) [
    | inl e ↦
        rw (read_error, e) (ap (λ x. if ch == b'-' then x else error) (end_error-append p ch r))
    | inr (t, e) ↦ rw (read_error, e) (end_error-append t ch r)
  ]

  skip_bulk-again :
      (next : ReplyState) (r : Reply)
      → length buf ≤ p + r.rlen
      → skip_bulk whole next p r
        ≡ skip_bulk whole next (length buf) (record r { rlen = r.rlen - (length buf - p) })
  unfolding skip_bulk
  skip_bulk-again next r h =
      let e : p + r.rlen ≡ length buf + (r.rlen - (length buf - p)) = omega arith in
      let k : r.rlen - (length whole - p)
          ≡ r.rlen - (length buf - p) - (length whole - length buf) =
        omega (arith, length-append buf xs) in
      ap₂
        (λ m n.
          if leb (length whole) m
          then go (length whole) (record r { rlen = n })
          else if not (byte_at whole m == cr)
          then error
          else go (suc m) (record r { rlen = 0; state = next }))
        e k

  skip_bulk-Same :
      (s next : ReplyState) (r : Reply)
      → r.state ≡ s
      → ((q ch : ℕ) (r' : Reply) → reply_round_in s whole q ch r' ≡ skip_bulk whole next q r')
      → Same (skip_bulk buf next p r) (skip_bulk whole next p r)
  unfolding skip_bulk
  skip_bulk-Same s next r e h =
      let m = p + r.rlen in
      let r1 = record r { rlen = r.rlen - (length buf - p) } in
      elim (Bool-cases (leb (length buf) m)) [
        | inl f ↦ inr (
          r1,
          rw (skip_bulk, f) refl,
          skip_bulk-again next r (ground arith)
              ∙ sym (h (length buf) (byte_at whole (length buf)) r1)
              ∙ sym
                  (ap (λ k. reply_round_in k whole (length buf) (byte_at whole (length buf)) r1) e),
        )
        | inr f ↦
            let within : m < length buf = ground arith in
            let g : leb (length whole) m ≡ false = ground (arith, length-append buf xs) in
            inl (rw (skip_bulk, f, g, byte_at-append buf xs m within) refl)
      ]

  reply_round_in-Same :
      (s : ReplyState) (ch : ℕ) (r : Reply)
      → r.state ≡ s
      → Same (reply_round_in s buf p ch r) (reply_round_in s whole p ch r)
  unfolding reply_round_in
  reply_round_in-Same sw_start ch r e = inl refl
  reply_round_in-Same sw_status ch r e = inl refl
  reply_round_in-Same sw_error ch r e = inl (read_error-append ch r)
  reply_round_in-Same sw_integer ch r e = inl refl
  reply_round_in-Same sw_integer_start ch r e = inl refl
  reply_round_in-Same sw_simple ch r e = inl refl
  reply_round_in-Same sw_bulk ch r e = inl refl
  reply_round_in-Same sw_bulk_lf ch r e = inl refl
  reply_round_in-Same sw_bulk_arg ch r e = skip_bulk-Same sw_bulk_arg _ r e (λ q c r'. refl)
  reply_round_in-Same sw_bulk_arg_lf ch r e = inl refl
  reply_round_in-Same sw_multibulk ch r e = inl refl
  reply_round_in-Same sw_multibulk_narg_lf ch r e = inl refl
  reply_round_in-Same sw_multibulk_argn_len ch r e = inl refl
  reply_round_in-Same sw_multibulk_argn_len_lf ch r e = inl refl
  reply_round_in-Same sw_multibulk_argn ch r e =
      skip_bulk-Same sw_multibulk_argn _ r e (λ q c r'. refl)
  reply_round_in-Same sw_multibulk_argn_lf ch r e = inl refl
  reply_round_in-Same sw_runto_crlf ch r e = inl refl
  reply_round_in-Same sw_almost_done ch r e = inl refl

  reply_round-Agrees : (r : Reply) → Agrees reply_round buf xs p r
  unfolding reply_round
  reply_round-Agrees r =
      rw (byte_at-append buf xs p lt) (reply_round_in-Same r.state (byte_at buf p) r refl)

reply-IsParser : IsParser reply_parser Anywhere
reply-IsParser = record {
  enough = λ n r. omega arith;
  advances = λ buf p r lt ready. reply_round-Forward buf p lt r;
  agrees = λ buf xs p r lt. reply_round-Agrees buf xs p lt r;
  bare = λ p r. tt;
}

-- `redis_parse_rsp` does not depend on how a response is cut into reads: on a buffer with more
-- bytes it returns what it returns when it is first called with the shorter buffer and, if it asks
-- for more, again with the longer one at the position and in the state in which it stopped.
pub redis_parse_rsp-append :
    (buf : List ℕ) (x : ℕ) (xs : List ℕ) (full : Bool) (pos : ℕ) (r : Reply)
    → pos ≤ length buf
    → redis_parse_rsp full (buf ++ x ∷ xs) pos r
      ≡ again_on (redis_parse_rsp full (buf ++ x ∷ xs)) (redis_parse_rsp false buf pos r)
unfolding redis_parse_rsp
redis_parse_rsp-append buf x xs full pos r h =
    parse-append reply_parser Anywhere reply-IsParser buf x xs full pos r h tt

-- The loop of `redis_parse_rsp` ends, though it may go back by one byte: with fuel for two rounds
-- for each byte that is left, and one more, it does not run out of fuel. It ends by its test
-- exactly at the end of the buffer, or at a byte of the buffer that ends the message and does not
-- stand before the start, or by an error; and what follows from how it ends is what the function
-- returns. The parser starts within the buffer.
pub redis_parse_rsp-Ends :
    (f : ℕ) (full : Bool) (buf : List ℕ) (pos : ℕ) (r : Reply)
    → 2 * (length buf - pos) + 1 ≤ f
    → pos ≤ length buf
    → let left = scan reply_parser f buf pos r in
      Ends Anywhere (length buf) pos left
      × (finish reply_parser full left ≡ redis_parse_rsp full buf pos r)
unfolding redis_parse_rsp
redis_parse_rsp-Ends f full buf pos r enough h =
    parse-Ends reply_parser Anywhere (goes reply_parser Anywhere reply-IsParser) f full buf pos r
      (omega (arith, goes_back-light r.state)) h tt
