-- ===== src/Memcache/Reply/Forward.antt =====
-- nc_memcache.c: each round of `memcache_parse_rsp` and the positions in the buffer.
use wx_cache_proxy.Base.{
  ℕ, suc, ◌-◌, ◌≤◌, ◌<◌, ◌≡◌, refl, ap, Bool, ◌||◌, List, ◌==◌, if◌then◌else◌, length, arith,
}
use wx_cache_proxy.Parser.Kind.{
  MsgType, rsp_mc_value, rsp_mc_stored, rsp_mc_not_stored, rsp_mc_exists, rsp_mc_not_found,
  rsp_mc_deleted, rsp_mc_touched, rsp_mc_end, rsp_mc_error, rsp_mc_client_error,
  rsp_mc_server_error,
}
use wx_cache_proxy.Parser.Bytes.{byte_at, cr, lf, isdigit, same_bytes, slice}
use wx_cache_proxy.Parser.Machine.{Move, go, error}
use wx_cache_proxy.Memcache.Reply.{
  RepState, sw_start, sw_rsp_num, sw_rsp_str, sw_spaces_before_key, sw_key, sw_spaces_before_flags,
  sw_flags, sw_spaces_before_vlen, sw_vlen, sw_runto_val, sw_val, sw_val_lf, sw_end, sw_runto_crlf,
  sw_crlf, sw_almost_done, Rep, space, token_or, rsp_num, reply_kind, word_read, rsp_str,
  before_number, read_flags, before_vlen, read_vlen, skip_val, end_word, read_end, runto_crlf,
  wait_cr, rep_round_in, rep_round, rep_backs, rep_parser,
}
use wx_cache_proxy.Parser.Forward
use wx_cache_proxy.Parser.Forward.{Counts, Forward}
use wx_cache_proxy.Parser.Stall.{skip-Forward}

pub rep_backs-le : (s : RepState) → rep_backs s ≤ 3
unfolding rep_backs
rep_backs-le sw_start = omega arith
rep_backs-le _ = omega arith

counts : Counts rep_parser
counts n k r r' lt = omega (arith, rep_backs-le r'.state)

module _ (last p : ℕ) (lt : p < last) (r : Rep) where
  abbrev Onward : Move Rep → Type 0
  Onward x = Forward rep_parser last p r x

  choose : (b : Bool) (x y : Move Rep) → Onward x → Onward y → Onward (if b then x else y)
  choose = Forward.if-Forward rep_parser last p r

  next : (r' : Rep) → Onward (go (suc p) r')
  next = Forward.next-Forward rep_parser last p r counts lt

  fail : Onward error
  fail = Forward.error-Forward rep_parser last p r

  back :
      (s : RepState) (r' : Rep) → r.state ≡ s → rep_backs r'.state < rep_backs s → Onward (go p r')
  back s r' e h =
      Forward.back-Forward rep_parser last p r lt r' (λ k. omega (arith, ap rep_backs e, h))

  rsp_num-Forward : (ch : ℕ) → r.state ≡ sw_rsp_num → Onward (rsp_num p ch r)
  unfolding rsp_num rep_backs
  rsp_num-Forward ch e =
      choose (isdigit ch) _ _ (next _)
        (choose (ch == space || ch == cr) _ _ (back sw_rsp_num _ e (omega arith)) fail)

  word_read-Forward :
      (kind : MsgType) (t : ℕ) (r' : Rep) → r.state ≡ sw_rsp_str → Onward (word_read kind t p r')
  unfolding word_read rep_backs
  word_read-Forward rsp_mc_stored t r' e = back sw_rsp_str _ e (omega arith)
  word_read-Forward rsp_mc_not_stored t r' e = back sw_rsp_str _ e (omega arith)
  word_read-Forward rsp_mc_exists t r' e = back sw_rsp_str _ e (omega arith)
  word_read-Forward rsp_mc_not_found t r' e = back sw_rsp_str _ e (omega arith)
  word_read-Forward rsp_mc_deleted t r' e = back sw_rsp_str _ e (omega arith)
  word_read-Forward rsp_mc_touched t r' e = back sw_rsp_str _ e (omega arith)
  word_read-Forward rsp_mc_end t r' e = back sw_rsp_str _ e (omega arith)
  word_read-Forward rsp_mc_value t r' e = back sw_rsp_str _ e (omega arith)
  word_read-Forward rsp_mc_error t r' e = back sw_rsp_str _ e (omega arith)
  word_read-Forward rsp_mc_client_error t r' e = back sw_rsp_str _ e (omega arith)
  word_read-Forward rsp_mc_server_error t r' e = back sw_rsp_str _ e (omega arith)
  word_read-Forward _ t r' e = fail

  rsp_str-Forward : (buf : List ℕ) (ch : ℕ) → r.state ≡ sw_rsp_str → Onward (rsp_str buf p ch r)
  unfolding rsp_str
  rsp_str-Forward buf ch e =
      choose (ch == space || ch == cr) _ _
        (word_read-Forward (reply_kind buf (token_or p r.token) p) (token_or p r.token) _ e)
        (next _)

  before_number-Forward :
      (s s' : RepState) (ch : ℕ)
      → r.state ≡ s
      → rep_backs s' < rep_backs s
      → Onward (before_number s' p ch r)
  unfolding before_number
  before_number-Forward s s' ch e h =
      choose (ch == space) _ _ (next _) (choose (isdigit ch) _ _ (back s _ e h) fail)

  read_flags-Forward : (ch : ℕ) → Onward (read_flags p ch r)
  unfolding read_flags
  read_flags-Forward ch = choose (isdigit ch) _ _ (next _) (choose (ch == space) _ _ (next _) fail)

  before_vlen-Forward : (ch : ℕ) → r.state ≡ sw_spaces_before_vlen → Onward (before_vlen p ch r)
  unfolding before_vlen rep_backs
  before_vlen-Forward ch e =
      choose (ch == space) _ _ (next _)
        (choose (isdigit ch) _ _ (back sw_spaces_before_vlen _ e (omega arith)) fail)

  read_vlen-Forward : (ch : ℕ) → r.state ≡ sw_vlen → Onward (read_vlen p ch r)
  unfolding read_vlen rep_backs
  read_vlen-Forward ch e =
      choose (isdigit ch) _ _ (next _)
        (choose (ch == space || ch == cr) _ _ (back sw_vlen _ e (omega arith)) fail)

  read_end-Forward : (buf : List ℕ) (ch : ℕ) → Onward (read_end buf p ch r)
  unfolding read_end
  read_end-Forward buf ch =
      Forward.token-Forward rep_parser last p r r.token _ _
        (λ n. choose (ch == b'E') _ _ (next _) fail)
        (λ t n.
          choose (ch == cr) _ _
            (choose (p - t == 3) _ _
              (choose (same_bytes (slice buf t (suc p)) end_word) _ _ (next _) (next _)) fail)
            (next _))

  runto_crlf-Forward : (kind : MsgType) (ch : ℕ) → Onward (runto_crlf kind p ch r)
  unfolding runto_crlf
  runto_crlf-Forward rsp_mc_value ch = choose (ch == cr) _ _ (next _) (next _)
  runto_crlf-Forward _ ch = choose (ch == cr) _ _ (next _) (next _)

  wait_cr-Forward : (ch : ℕ) → Onward (wait_cr p ch r)
  unfolding wait_cr
  wait_cr-Forward ch = choose (ch == space) _ _ (next _) (choose (ch == cr) _ _ (next _) fail)

module _ (buf : List ℕ) (p : ℕ) (lt : p < length buf) where
  skip_val-Forward : (r : Rep) → Forward rep_parser (length buf) p r (skip_val buf p r)
  unfolding skip_val
  skip_val-Forward r =
      skip-Forward (λ c. c.vlen) (λ n c. record c { vlen = n })
        (λ q c. record c { state = sw_val_lf }) rep_parser counts buf p lt r

  rep_round_in-Forward :
      (s : RepState) (ch : ℕ) (r : Rep)
      → r.state ≡ s
      → Forward rep_parser (length buf) p r (rep_round_in s buf p ch r)
  unfolding rep_round_in rep_backs
  rep_round_in-Forward sw_start ch r e =
      choose (length buf) p lt r (isdigit ch) _ _
        (back (length buf) p lt r sw_start _ e (omega arith))
        (back (length buf) p lt r sw_start _ e (omega arith))
  rep_round_in-Forward sw_rsp_num ch r e = rsp_num-Forward (length buf) p lt r ch e
  rep_round_in-Forward sw_rsp_str ch r e = rsp_str-Forward (length buf) p lt r buf ch e
  rep_round_in-Forward sw_spaces_before_key ch r e =
      choose (length buf) p lt r (ch == space) _ _ (next (length buf) p lt r _)
        (back (length buf) p lt r sw_spaces_before_key _ e (omega arith))
  rep_round_in-Forward sw_key ch r e =
      choose (length buf) p lt r (ch == space) _ _ (next (length buf) p lt r _)
        (next (length buf) p lt r _)
  rep_round_in-Forward sw_spaces_before_flags ch r e =
      before_number-Forward (length buf) p lt r sw_spaces_before_flags sw_flags ch e (omega arith)
  rep_round_in-Forward sw_flags ch r e = read_flags-Forward (length buf) p lt r ch
  rep_round_in-Forward sw_spaces_before_vlen ch r e = before_vlen-Forward (length buf) p lt r ch e
  rep_round_in-Forward sw_vlen ch r e = read_vlen-Forward (length buf) p lt r ch e
  rep_round_in-Forward sw_runto_val ch r e =
      choose (length buf) p lt r (ch == lf) _ _ (next (length buf) p lt r _)
        (fail (length buf) p lt r)
  rep_round_in-Forward sw_val ch r e = skip_val-Forward r
  rep_round_in-Forward sw_val_lf ch r e =
      choose (length buf) p lt r (ch == lf) _ _ (next (length buf) p lt r _)
        (fail (length buf) p lt r)
  rep_round_in-Forward sw_end ch r e = read_end-Forward (length buf) p lt r buf ch
  rep_round_in-Forward sw_runto_crlf ch r e = runto_crlf-Forward (length buf) p lt r r.kind ch
  rep_round_in-Forward sw_crlf ch r e = wait_cr-Forward (length buf) p lt r ch
  rep_round_in-Forward sw_almost_done ch r e =
      choose (length buf) p lt r (ch == lf) _ _
        (Forward.done-Forward rep_parser (length buf) p r lt r) (fail (length buf) p lt r)

  -- Each round goes forward, or back to a state that goes back less often.
  pub rep_round-Forward : (r : Rep) → Forward rep_parser (length buf) p r (rep_round buf p r)
  unfolding rep_round
  rep_round-Forward r = rep_round_in-Forward r.state (byte_at buf p) r refl
