-- ===== src/Redis/RoundTrip.antt =====
-- nc_redis.c: what `redis_fragment_argx` prints for the fragments of MGET and DEL is read back by
-- `redis_parse_req`.
pub mod Many
use wx_cache_proxy.Parser.Bytes.{byte_at, slice, isdigit, shift_digit}
use wx_cache_proxy.Base.{
  ℕ, zero, suc, ◌+◌, ◌-◌, ◌*◌, ◌%◌, ◌^◌, ◌≤◌, ◌<◌, ◌≡◌, ◌⊎◌, refl, sym, ap, ap₂, subst, ◌∙◌, Bool,
  true, false, not, ◌&&◌, ◌||◌, List, [], ◌∷◌, ◌++◌, Option, none, some, leb, ltb, ◌==◌,
  if◌then◌else◌, length, take, drop, drop-drop, All, arith, Bool-cases, inl, inr,
}
use wx_cache_proxy.Parser.Kind.{MsgType, msg_unknown, req_redis_mget, req_redis_del, req_redis_mset}
use wx_cache_proxy.Redis.Class.{
  redis_argz, redis_arg0, redis_arg1, redis_arg2, redis_arg3, redis_argn, redis_argx, redis_argkvx,
  redis_argeval,
}
use wx_cache_proxy.Redis.Command.{Row, row}
use wx_cache_proxy.Redis.Lookup.{find_command, find_row, commands, icmp}
use wx_cache_proxy.Parser.Machine.{Result, parse_ok, parse, finish, Left, left_done}
use wx_cache_proxy.Redis.Request.{
  State, sw_start, sw_narg, sw_narg_lf, sw_req_type_len, sw_req_type_len_lf, sw_req_type,
  sw_req_type_lf, sw_key_len, Request, read_narg, read_length, read_lf, turn, to, unless_last,
  after_type, after_key,
}
use wx_cache_proxy.Redis.Round.{token_or, read_type, round, round_in}
use wx_cache_proxy.Redis.Parse.{request_parser, redis_parse_req}
use wx_cache_proxy.Redis.Bulk.Moves.{take_first, drop_first}
use wx_cache_proxy.Redis.Bulk.Spec.{value, value_grows}
use wx_cache_proxy.Parser.Loop.{Reads, reads}
use wx_cache_proxy.Redis.Keys.{
  Key, keys_text, spans, AreKeys, TakesKeys, before_key, after_keys, run, step_go, keys-run,
}

module _ (mbuf_data : ℕ) (room : ℕ → Bool) (buf : List ℕ) where
  abbrev pub go_on : ℕ → Request → Left Request
  go_on = run mbuf_data room buf

  -- The parser within the number of arguments, the first of whose bytes stands at `t`.
  abbrev in_narg : Request → ℕ → ℕ → Request
  in_narg r t n = record r { state = sw_narg; token = some t; narg_start = t; rnarg = n }

  narg-run :
      (r : Request) (t n p : ℕ) (chs rest : List ℕ)
      → All (λ ch. isdigit ch ≡ true) chs
      → value n chs < 2 ^ 32
      → drop p buf ≡ chs ++ rest
      → (go_on p (in_narg r t n) ≡ go_on (p + length chs) (in_narg r t (value n chs)))
        × (drop (p + length chs) buf ≡ rest)
  unfolding round round_in read_narg
  narg-run r t n p [] rest d h e =
      let z : p + 0 ≡ p = omega arith in
      (ap (λ q. go_on q (in_narg r t n)) (sym z), ap (λ q. drop q buf) z ∙ e)
  narg-run r t n p (ch ∷ chs) rest d h e =
      let at = reads buf p ch (chs ++ rest) e in
      let small : shift_digit n ch ≡ n * 10 + (ch - b'0') =
        omega (arith, value_grows (n * 10 + (ch - b'0')) chs, h) in
      let digit : isdigit (byte_at buf p) ≡ true = ap isdigit at.byte ∙ d.0 in
      let z : suc p + length chs ≡ p + suc (length chs) = omega arith in
      let (more, left) = narg-run r t (n * 10 + (ch - b'0')) (suc p) chs rest d.1 h at.next in
      (
        step_go mbuf_data room buf p (suc p) (in_narg r t n) (in_narg r t (n * 10 + (ch - b'0')))
              at.within tt (rw (digit, at.byte, small) refl)
            ∙ more
            ∙ ap (λ q. go_on q (in_narg r t (value n (ch ∷ chs)))) z,
        ap (λ q. drop q buf) (sym z) ∙ left,
      )

  -- The parser at the start of a request.
  abbrev pub fresh : Request → Request
  fresh r = record r { state = sw_start; token = none }

  -- The parser before the type of the request.
  abbrev pub before_type : Request → ℕ → ℕ → ℕ → Request
  before_type r t z n = record r {
    state = sw_req_type_len;
    token = none;
    narg_start = t;
    narg_end = z;
    narg = n;
    rnarg = n;
  }

  pub count-run :
      (r : Request) (p : ℕ) (chs rest : List ℕ)
      → All (λ ch. isdigit ch ≡ true) chs
      → value 0 chs < 2 ^ 32
      → 0 < value 0 chs
      → drop p buf ≡ b'*' ∷ (chs ++ 13 ∷ 10 ∷ rest)
      → let z = suc p + length chs in
        (go_on p (fresh r) ≡ go_on (suc (suc z)) (before_type r p z (value 0 chs)))
        × (drop (suc (suc z)) buf ≡ rest)
  unfolding round round_in read_narg read_lf turn isdigit
  count-run r p chs rest d h some_args e =
      let star = reads buf p b'*' (chs ++ 13 ∷ 10 ∷ rest) e in
      let (digits, after) = narg-run r p 0 (suc p) chs (13 ∷ 10 ∷ rest) d h star.next in
      let q = suc p + length chs in
      let n = value 0 chs in
      let back = reads buf q 13 (10 ∷ rest) after in
      let feed = reads buf (suc q) 10 rest back.next in
      let counted : (n == 0) ≡ false = ground arith in
      let waits = record r {
        state = sw_narg_lf;
        token = none;
        narg_start = p;
        narg_end = q;
        narg = n;
        rnarg = n;
      } in
      (
        step_go mbuf_data room buf p (suc p) (fresh r) (in_narg r p 0) star.within tt refl
            ∙ digits
            ∙ step_go mbuf_data room buf q (suc q) (in_narg r p n) waits back.within tt
                (rw (back.byte, counted) refl)
            ∙ step_go mbuf_data room buf (suc q) (suc (suc q)) waits (before_type r p q n)
                feed.within refl (rw feed.byte refl),
        feed.next,
      )

  -- The parser behind the name of a command.
  abbrev pub typed : Request → MsgType → ℕ → Request
  typed r kind n = record r {
    state = sw_req_type_lf;
    token = none;
    rlen = 0;
    rnarg = n;
    kind = kind;
    noforward = r.noforward || false;
    quit = r.quit || false;
  }

  pub type-run :
      (r : Request) (kind : MsgType) (n p ch : ℕ) (word name rest : List ℕ)
      → isdigit ch ≡ true
      → ch - b'0' ≡ length name
      → 0 < length name
      → length name < 10
      → find_command name ≡ some (row word kind false false)
      → drop p buf ≡ b'$' ∷ ch ∷ 13 ∷ 10 ∷ (name ++ 13 ∷ 10 ∷ rest)
      → (go_on p (record r { state = sw_req_type_len; token = none; rnarg = suc n })
          ≡ go_on (suc (p + 4 + length name)) (typed r kind n))
        × (drop (suc (p + 4 + length name)) buf ≡ 10 ∷ rest)
  unfolding round round_in read_length read_lf turn read_type isdigit
  type-run r kind n p ch word name rest d len pos lim found e =
      let k = length name in
      let dollar = reads buf p b'$' (ch ∷ 13 ∷ 10 ∷ (name ++ 13 ∷ 10 ∷ rest)) e in
      let digit = reads buf (suc p) ch (13 ∷ 10 ∷ (name ++ 13 ∷ 10 ∷ rest)) dollar.next in
      let back = reads buf (suc (suc p)) 13 (10 ∷ (name ++ 13 ∷ 10 ∷ rest)) digit.next in
      let feed = reads buf (suc (suc (suc p))) 10 (name ++ 13 ∷ 10 ∷ rest) back.next in
      let q = suc (suc (suc (suc p))) in
      let m = q + k in
      let behind =
        reads buf m 13 (10 ∷ rest)
          (sym (drop-drop q k buf) ∙ ap (drop k) feed.next ∙ drop_first name (13 ∷ 10 ∷ rest)) in
      let small : shift_digit 0 ch ≡ k = omega (arith, len) in
      let less : suc n - 1 ≡ n = omega arith in
      let some_left : (suc n == 0) ≡ false = ground arith in
      let some_bytes : (k == 0) ≡ false = ground arith in
      let ahead : leb (length buf) m ≡ false = ground (arith, behind.within) in
      let is_digit : isdigit (byte_at buf (suc p)) ≡ true = ap isdigit digit.byte ∙ d in
      let z : suc m ≡ suc (p + 4 + k) = omega arith in
      let word_here : slice buf q m ≡ name =
        let w : m - q ≡ k = omega arith in
        ap₂ take w feed.next ∙ take_first name (13 ∷ 10 ∷ rest) in
      let r0 = record r { state = sw_req_type_len; token = none; rnarg = suc n } in
      let r1 = record r { state = sw_req_type_len; token = some p; rlen = 0; rnarg = suc n } in
      let r2 = record r { state = sw_req_type_len; token = some p; rlen = k; rnarg = suc n } in
      let r3 = record r { state = sw_req_type_len_lf; token = none; rlen = k; rnarg = n } in
      let r4 = record r { state = sw_req_type; token = none; rlen = k; rnarg = n } in
      let go_to = step_go mbuf_data room buf in
      (
        go_to p (suc p) r0 r1 dollar.within tt (rw dollar.byte refl)
            ∙ go_to (suc p) (suc (suc p)) r1 r2 digit.within tt
                (rw (is_digit, digit.byte, small) refl)
            ∙ go_to (suc (suc p)) (suc (suc (suc p))) r2 r3 back.within tt
                (rw (back.byte, some_bytes, some_left, less) refl)
            ∙ go_to (suc (suc (suc p))) q r3 r4 feed.within refl (rw feed.byte refl)
            ∙ go_to q (suc m) r4 (typed r kind n) (omega (arith, behind.within)) (omega arith)
                (rw (ahead, behind.byte, word_here, found) refl)
            ∙ ap (λ i. go_on i (typed r kind n)) z,
        ap (λ i. drop i buf) (sym z) ∙ behind.next,
      )

  -- From the line feed behind the name to the end of the last key.
  pub many-run :
      (r : Request) (kind : MsgType) (p : ℕ) (digits key : List ℕ) (keys : List Key)
      → mbuf_data ≤ 2 ^ 32
      → ((k : ℕ) → room k ≡ true)
      → redis_argz kind ≡ false
      → redis_argeval kind ≡ false
      → TakesKeys mbuf_data room buf (typed r kind 0)
      → r.narg ≡ suc (suc (length keys))
      → AreKeys mbuf_data ((digits, key) ∷ keys)
      → drop p buf ≡ 10 ∷ keys_text ((digits, key) ∷ keys) []
      → (q : ℕ) × (go_on p (typed r kind (suc (length keys)))
          ≡ left_done q
              (after_keys mbuf_data room buf (typed r kind 0) (suc p) ((digits, key) ∷ keys)))
        × (q < length buf)
        × (drop (suc q) buf ≡ [])
  unfolding round round_in read_lf turn after_type
  many-run r kind p digits key keys m roomy z ev takes args good e =
      let n = suc (length keys) in
      let feed = reads buf p 10 (keys_text ((digits, key) ∷ keys) []) e in
      let more_args : (r.narg == 1) ≡ false = ground (arith, args) in
      let (q, runs, within, rest) =
        keys-run mbuf_data room buf (typed r kind 0) (suc p) digits key keys [] m roomy takes good
          feed.next in
      (
        q,
        step_go mbuf_data room buf p (suc p) (typed r kind n)
              (before_key mbuf_data room buf (typed r kind 0) n) feed.within refl
              (rw (feed.byte, z, ev, more_args) refl)
            ∙ runs,
        within,
        rest,
      )
