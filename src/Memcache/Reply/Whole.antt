-- ===== src/Memcache/Reply/Whole.antt =====
-- nc_memcache.c: calls of `memcache_parse_rsp` on a buffer that grows.
use wx_cache_proxy.Base.{
  ℕ, suc, ◌-◌, ◌≤◌, ◌<◌, ◌≡◌, ◌⊎◌, refl, ap, sym, ◌∙◌, Bool, true, false, ◌||◌, List, ◌∷◌, ◌++◌,
  ◌==◌, if◌then◌else◌, length, arith, Bool-cases, Option-cases, inl, inr,
}
use wx_cache_proxy.Parser.Kind.{
  MsgType, rsp_mc_value, rsp_mc_stored, rsp_mc_not_stored, rsp_mc_exists, rsp_mc_not_found,
  rsp_mc_deleted, rsp_mc_touched, rsp_mc_end, rsp_mc_error, rsp_mc_client_error,
  rsp_mc_server_error,
}
use wx_cache_proxy.Parser.Bytes.{byte_at, cr}
use wx_cache_proxy.Parser.Slice.{byte_at-append, slice-append}
use wx_cache_proxy.Parser.Machine.{Move, go, Agrees, IsParser}
use wx_cache_proxy.Memcache.Reply.{
  RepState, sw_start, sw_rsp_num, sw_rsp_str, sw_spaces_before_key, sw_key, sw_spaces_before_flags,
  sw_flags, sw_spaces_before_vlen, sw_vlen, sw_runto_val, sw_val, sw_val_lf, sw_end, sw_runto_crlf,
  sw_crlf, sw_almost_done, Rep, space, token_or, rsp_num, reply_kind, word_read, rsp_str,
  before_number, read_flags, before_vlen, read_vlen, skip_val, read_end, runto_crlf, wait_cr,
  rep_round_in, rep_round, repaired, rep_parser, memcache_parse_rsp,
}
use wx_cache_proxy.Parser.Resume.{again_on}
use wx_cache_proxy.Parser.Forward.{Anywhere}
use wx_cache_proxy.Parser.Settle.{
  settle_move, settle_result, settled, Settles, settle-Forward, settle-append,
}
use wx_cache_proxy.Parser.Stall.{skip-append}
use wx_cache_proxy.Memcache.Reply.Forward.{rep_round-Forward}

unfoldable is_value : MsgType → Bool
is_value rsp_mc_value = true
is_value _ = false

-- The states from which `vlen` is still read before it is set.
unfoldable uses_vlen : RepState → MsgType → Bool
uses_vlen sw_vlen kind = true
uses_vlen sw_runto_val kind = true
uses_vlen sw_val kind = true
uses_vlen sw_runto_crlf kind = is_value kind
uses_vlen _ kind = false

-- A response with `vlen` cleared where it is not read again: the parser leaves there how many bytes of
-- a value the last buffer held.
unfoldable pub settle_rep : Rep → Rep
unfolding uses_vlen is_value
settle_rep r = record r { vlen = if uses_vlen r.state r.kind then r.vlen else 0 }

abbrev settle : Move Rep → Move Rep
settle x = settle_move settle_rep x

module _ (buf : List ℕ) (p : ℕ) where
  word_read-settle :
      (kind : MsgType) (t n : ℕ) (r : Rep)
      → r.kind ≡ kind
      → settle (word_read kind t p (record r { vlen = n })) ≡ settle (word_read kind t p r)
  unfolding word_read settle_rep
  word_read-settle rsp_mc_stored t n r e = refl
  word_read-settle rsp_mc_not_stored t n r e = refl
  word_read-settle rsp_mc_exists t n r e = refl
  word_read-settle rsp_mc_not_found t n r e = refl
  word_read-settle rsp_mc_deleted t n r e = refl
  word_read-settle rsp_mc_touched t n r e = refl
  word_read-settle rsp_mc_end t n r e = refl
  word_read-settle rsp_mc_value t n r e = refl
  word_read-settle rsp_mc_error t n r e = refl
  word_read-settle rsp_mc_client_error t n r e = ground arith
  word_read-settle rsp_mc_server_error t n r e = ground arith
  word_read-settle _ t n r e = refl

  rsp_str-settle :
      (ch n : ℕ) (r : Rep)
      → r.state ≡ sw_rsp_str
      → settle (rsp_str buf p ch (record r { vlen = n })) ≡ settle (rsp_str buf p ch r)
  unfolding rsp_str settle_rep
  rsp_str-settle ch n r e = elim (Bool-cases (ch == space || ch == cr)) [
    | inl b ↦
        rw (rsp_str, b)
          (word_read-settle (reply_kind buf (token_or p r.token) p) (token_or p r.token) n _ refl)
    | inr b ↦ rw (rsp_str, b) (ground arith)
  ]

  runto_crlf-settle :
      (kind : MsgType) (ch : ℕ) (r : Rep)
      → r.kind ≡ kind
      → r.state ≡ sw_runto_crlf
      → settle (runto_crlf kind p ch (settle_rep r)) ≡ settle (runto_crlf kind p ch r)
  unfolding runto_crlf settle_rep
  runto_crlf-settle rsp_mc_value ch r e s = ground arith
  runto_crlf-settle _ ch r e s = ground arith

  rep_round_in-settle :
      (s : RepState) (ch : ℕ) (r : Rep)
      → r.state ≡ s
      → settle (rep_round_in s buf p ch (settle_rep r)) ≡ settle (rep_round_in s buf p ch r)
  unfolding rep_round_in settle_rep rsp_num before_number read_flags before_vlen read_vlen skip_val
      read_end wait_cr
  rep_round_in-settle sw_start ch r e = ground arith
  rep_round_in-settle sw_rsp_num ch r e = ground arith
  rep_round_in-settle sw_rsp_str ch r e = rsp_str-settle ch _ r e
  rep_round_in-settle sw_spaces_before_key ch r e = ground arith
  rep_round_in-settle sw_key ch r e = ground arith
  rep_round_in-settle sw_spaces_before_flags ch r e = ground arith
  rep_round_in-settle sw_flags ch r e = ground arith
  rep_round_in-settle sw_spaces_before_vlen ch r e = ground arith
  rep_round_in-settle sw_vlen ch r e = ground arith
  rep_round_in-settle sw_runto_val ch r e = ground arith
  rep_round_in-settle sw_val ch r e = ground arith
  rep_round_in-settle sw_val_lf ch r e = ground arith
  rep_round_in-settle sw_end ch r e = ground arith
  rep_round_in-settle sw_runto_crlf ch r e = runto_crlf-settle r.kind ch r refl e
  rep_round_in-settle sw_crlf ch r e = ground arith
  rep_round_in-settle sw_almost_done ch r e = ground arith

rep_parser-Settles : Settles settle_rep rep_parser
unfolding settle_rep rep_round repaired
rep_parser-Settles = record {
  rounds = λ n r. refl;
  step = λ buf p r. rep_round_in-settle buf p r.state (byte_at buf p) r refl;
  token = λ r. refl;
  forget = λ r. ground arith;
  restart = λ r. refl;
}

module _ (buf xs : List ℕ) (p : ℕ) (lt : p < length buf) where
  abbrev whole : List ℕ
  whole = buf ++ xs

  reply_kind-append : (t : ℕ) → reply_kind whole t p ≡ reply_kind buf t p
  unfolding reply_kind
  reply_kind-append t =
      rw
        (
          reply_kind,
          slice-append buf xs t p (omega arith),
          slice-append buf xs t (suc p) (omega arith),
        )
        refl

  read_end-append : (ch : ℕ) (r : Rep) → read_end whole p ch r ≡ read_end buf p ch r
  unfolding read_end
  read_end-append ch r = elim (Option-cases r.token) [
    | inl e ↦ rw (read_end, e) refl
    | inr (t, e) ↦ rw (read_end, e, slice-append buf xs t (suc p) (omega arith)) refl
  ]

  abbrev Same : Move Rep → Move Rep → Type 0
  Same x y =
      (settle y ≡ settle x)
      ⊎ ((r1 : Rep) × (settle x ≡ go (length buf) r1)
          × (settle y
              ≡ settle (rep_round_in r1.state whole (length buf) (byte_at whole (length buf)) r1)))

  skip_val-Same : (r : Rep) → r.state ≡ sw_val → Same (skip_val buf p r) (skip_val whole p r)
  unfolding skip_val rep_round_in settle_rep uses_vlen
  skip_val-Same r e =
      let left = r.vlen - (length buf - p) in
      elim (skip-append (λ c. c.vlen) (λ n c. record c { vlen = n })
        (λ q c. record c { state = sw_val_lf }) settle_rep (λ n c. refl) (λ n k c. refl)
        (λ n q c. refl) buf xs p lt r
        (ap (λ s. record r { vlen = if uses_vlen s r.kind then left else 0 }) e)) [
          | inl h ↦ inl h
          | inr (h, k) ↦ inr (
            record r { vlen = left },
            h,
            k
                ∙ sym (
                    ap
                      (λ s. settle (
                        rep_round_in s whole (length buf) (byte_at whole (length buf))
                          (record r { vlen = left })))
                      e),
          )
        ]

  rep_round_in-Same :
      (s : RepState) (ch : ℕ) (r : Rep)
      → r.state ≡ s
      → Same (rep_round_in s buf p ch r) (rep_round_in s whole p ch r)
  unfolding rep_round_in rsp_str
  rep_round_in-Same sw_start ch r e = inl refl
  rep_round_in-Same sw_rsp_num ch r e = inl refl
  rep_round_in-Same sw_rsp_str ch r e = inl (rw (reply_kind-append (token_or p r.token)) refl)
  rep_round_in-Same sw_spaces_before_key ch r e = inl refl
  rep_round_in-Same sw_key ch r e = inl refl
  rep_round_in-Same sw_spaces_before_flags ch r e = inl refl
  rep_round_in-Same sw_flags ch r e = inl refl
  rep_round_in-Same sw_spaces_before_vlen ch r e = inl refl
  rep_round_in-Same sw_vlen ch r e = inl refl
  rep_round_in-Same sw_runto_val ch r e = inl refl
  rep_round_in-Same sw_val ch r e = skip_val-Same r e
  rep_round_in-Same sw_val_lf ch r e = inl refl
  rep_round_in-Same sw_end ch r e = inl (ap settle (read_end-append ch r))
  rep_round_in-Same sw_runto_crlf ch r e = inl refl
  rep_round_in-Same sw_crlf ch r e = inl refl
  rep_round_in-Same sw_almost_done ch r e = inl refl

  rep_round-Agrees : (r : Rep) → Agrees (λ b q c. settle (rep_round b q c)) buf xs p r
  unfolding rep_round
  rep_round-Agrees r =
      rw (byte_at-append buf xs p lt) (rep_round_in-Same r.state (byte_at buf p) r refl)

rep_parser-IsParser : IsParser (settled settle_rep rep_parser) Anywhere
rep_parser-IsParser = record {
  enough = λ n r. omega arith;
  advances = λ buf p r lt ready.
      settle-Forward settle_rep rep_parser rep_parser-Settles (length buf) p r _
        (rep_round-Forward buf p lt r);
  agrees = λ buf xs p r lt. rep_round-Agrees buf xs p lt r;
  bare = λ p r. tt;
}

-- `memcache_parse_rsp` does not depend on how a response is cut into reads: on a buffer with more
-- bytes it returns what it returns when it is first called with the shorter buffer and, if it asks
-- for more, again with the longer one at the position and in the state in which it stopped. The
-- results are compared without `vlen` where it is not read again. The parser starts within the
-- shorter buffer.
pub memcache_parse_rsp-append :
    (buf : List ℕ) (x : ℕ) (xs : List ℕ) (full : Bool) (pos : ℕ) (r : Rep)
    → pos ≤ length buf
    → settle_result settle_rep (memcache_parse_rsp full (buf ++ x ∷ xs) pos r)
      ≡ settle_result settle_rep
          (again_on (memcache_parse_rsp full (buf ++ x ∷ xs)) (memcache_parse_rsp false buf pos r))
unfolding memcache_parse_rsp
memcache_parse_rsp-append buf x xs full pos r h =
    settle-append settle_rep rep_parser rep_parser-Settles rep_parser-IsParser buf x xs full pos r h
