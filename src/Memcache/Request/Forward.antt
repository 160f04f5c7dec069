-- ===== src/Memcache/Request/Forward.antt =====
-- nc_memcache.c: each round of `memcache_parse_req` and the positions in the buffer.
use wx_cache_proxy.Base.{
  ℕ, suc, ◌≤◌, ◌<◌, ◌≡◌, refl, ap, ◌∙◌, Bool, ◌||◌, List, Option, none, some, ◌==◌, if◌then◌else◌,
  length, arith,
}
use wx_cache_proxy.Parser.Kind.{MsgType, msg_unknown, req_mc_quit}
use wx_cache_proxy.Parser.Bytes.{byte_at, cr, lf, isdigit, same_bytes, slice}
use wx_cache_proxy.Parser.Machine.{Move, go, error, Parser}
use wx_cache_proxy.Parser.Forward
use wx_cache_proxy.Parser.Forward.{Counts, Forward}
use wx_cache_proxy.Parser.Stall.{skip-Forward}
use wx_cache_proxy.Memcache.Class.{memcache_cas}
use wx_cache_proxy.Memcache.Request.{
  CommandState, sw_start, sw_req_type, sw_spaces_before_key, sw_key, sw_spaces_before_keys,
  sw_spaces_before_flags, sw_flags, sw_spaces_before_expiry, sw_expiry, sw_spaces_before_vlen,
  sw_vlen, sw_spaces_before_cas, sw_cas, sw_runto_val, sw_val, sw_spaces_before_num, sw_num,
  sw_runto_crlf, sw_crlf, sw_noreply, sw_after_noreply, sw_almost_done, Command, islower, space,
  start_command, name_read, read_command, key_read, end_key, read_mc_key, before_keys,
  before_number, in_number, last_number, before_vlen, read_vlen, skip_val, takes_noreply,
  runto_crlf, read_noreply, noreply_word, after_noreply, wait_cr, command_round_in, command_round,
  command_backs, command_parser, command_kind,
}

pub command_backs-le : (s : CommandState) (t : Option ℕ) → command_backs s t ≤ 2
unfolding command_backs
command_backs-le sw_key none = omega arith
command_backs-le sw_key (some t) = omega arith
command_backs-le _ t = omega arith

key_read-backs : (kind : MsgType) → command_backs (key_read kind) none ≤ 1
unfolding key_read command_backs
key_read-backs kind = ground arith

module _ (room : ℕ → Bool) where
  abbrev m : Parser Command
  m = command_parser room

  counts : Counts m
  counts n k r r' lt = omega (arith, command_backs-le r'.state r'.token)

  module _ (last p : ℕ) (lt : p < last) (r : Command) where
    abbrev Onward : Move Command → Type 0
    Onward x = Forward m last p r x

    choose : (b : Bool) (x y : Move Command) → Onward x → Onward y → Onward (if b then x else y)
    choose = Forward.if-Forward m last p r

    next : (r' : Command) → Onward (go (suc p) r')
    next = Forward.next-Forward m last p r counts lt

    fail : Onward error
    fail = Forward.error-Forward m last p r

    back :
        (n : ℕ) (r' : Command)
        → command_backs r.state r.token ≡ suc n
        → command_backs r'.state r'.token ≤ n
        → Onward (go p r')
    back n r' e h = Forward.back-Forward m last p r lt r' (λ k. omega (arith, e, h))

    start_command-Forward : (ch : ℕ) → Onward (start_command p ch r)
    unfolding start_command
    start_command-Forward ch =
        choose (ch == space) _ _ (next _) (choose (islower ch) _ _ (next _) fail)

    name_read-Forward :
        (kind : MsgType) (ch : ℕ) (r' : Command)
        → command_backs r.state r.token ≡ 1
        → Onward (name_read kind p ch r')
    unfolding name_read command_backs
    name_read-Forward msg_unknown ch r' e = fail
    name_read-Forward req_mc_quit ch r' e = back 0 _ e (omega arith)
    name_read-Forward _ ch r' e = choose (ch == cr) _ _ fail (next _)

    read_command-Forward :
        (buf : List ℕ) (ch : ℕ)
        → command_backs r.state r.token ≡ 1
        → Onward (read_command buf p ch r)
    unfolding read_command
    read_command-Forward buf ch e =
        choose (ch == space || ch == cr) _ _
          (Forward.token-Forward m last p r r.token _ _ (λ n. fail)
            (λ t n. name_read-Forward (command_kind buf t p) ch _ e))
          (choose (islower ch) _ _ (next _) fail)

    end_key-Forward :
        (t ch : ℕ) → command_backs r.state r.token ≡ 2 → Onward (end_key room t p ch r)
    unfolding end_key
    end_key-Forward t ch e = choose _ _ _ fail (
        choose _ _ _ fail (
          choose (room (length r.keys)) _ _
            (choose (ch == cr) _ _ (choose _ _ _ fail (back 1 _ e (key_read-backs r.kind)))
              (next _))
            (Forward.enomem-Forward m last p r)))

    read_mc_key-Forward : (ch : ℕ) → r.state ≡ sw_key → Onward (read_mc_key room p ch r)
    unfolding read_mc_key command_backs
    read_mc_key-Forward ch s =
        Forward.token-Forward m last p r r.token _ _
          (λ e. choose (ch == space || ch == cr) _ _ fail (next _))
          (λ t e.
            choose (ch == space || ch == cr) _ _
              (end_key-Forward t ch
                (ap (λ s. command_backs s r.token) s ∙ ap (command_backs sw_key) e))
              (next _))

    before_keys-Forward : (ch : ℕ) → r.state ≡ sw_spaces_before_keys → Onward (before_keys p ch r)
    unfolding before_keys command_backs
    before_keys-Forward ch s =
        choose (ch == space) _ _ (next _)
          (choose (ch == cr) _ _ (next _) (back 0 _ (rw s refl) (omega arith)))

    before_number-Forward :
        (starts : ℕ → Bool) (s : CommandState) (ch : ℕ) → Onward (before_number starts s p ch r)
    unfolding before_number
    before_number-Forward starts s ch =
        choose (ch == space) _ _ (next _) (choose (starts ch) _ _ (next _) fail)

    in_number-Forward : (s : CommandState) (ch : ℕ) → Onward (in_number s p ch r)
    unfolding in_number
    in_number-Forward s ch =
        choose (isdigit ch) _ _ (next _) (choose (ch == space) _ _ (next _) fail)

    last_number-Forward : (ch : ℕ) → command_backs r.state r.token ≡ 1 → Onward (last_number p ch r)
    unfolding last_number command_backs
    last_number-Forward ch e =
        choose (isdigit ch) _ _ (next _)
          (choose (ch == space || ch == cr) _ _ (back 0 _ e (omega arith)) fail)

    before_vlen-Forward : (ch : ℕ) → Onward (before_vlen p ch r)
    unfolding before_vlen
    before_vlen-Forward ch =
        choose (ch == space) _ _ (next _) (choose (isdigit ch) _ _ (next _) fail)

    read_vlen-Forward : (ch : ℕ) → command_backs r.state r.token ≡ 1 → Onward (read_vlen p ch r)
    unfolding read_vlen command_backs
    read_vlen-Forward ch e = choose (isdigit ch) _ _ (next _) (
        choose (memcache_cas r.kind) _ _ (choose (ch == space) _ _ (back 0 _ e (omega arith)) fail)
          (choose (ch == space || ch == cr) _ _ (back 0 _ e (omega arith)) fail))

    runto_crlf-Forward : (ch : ℕ) → Onward (runto_crlf p ch r)
    unfolding runto_crlf
    runto_crlf-Forward ch = choose (ch == space) _ _ (next _) (
        choose (ch == b'n') _ _ (choose (takes_noreply r.kind) _ _ (next _) fail)
          (choose (ch == cr) _ _ (next _) fail))

    read_noreply-Forward :
        (buf : List ℕ) (ch : ℕ)
        → command_backs r.state r.token ≡ 1
        → Onward (read_noreply buf p ch r)
    unfolding read_noreply command_backs
    read_noreply-Forward buf ch e =
        choose (ch == space || ch == cr) _ _
          (Forward.token-Forward m last p r r.token _ _ (λ n. fail)
            (λ t n.
              (choose (same_bytes (slice buf t p) noreply_word) _ _ (back 0 _ e (omega arith))
                fail)))
          (next _)

    after_noreply-Forward : (ch : ℕ) → Onward (after_noreply p ch r)
    unfolding after_noreply
    after_noreply-Forward ch =
        choose (ch == space) _ _ (next _) (choose (ch == cr) _ _ (next _) fail)

    wait_cr-Forward : (ch : ℕ) → Onward (wait_cr p ch r)
    unfolding wait_cr
    wait_cr-Forward ch = choose (ch == space) _ _ (next _) (choose (ch == cr) _ _ (next _) fail)

  module _ (buf : List ℕ) (p : ℕ) (lt : p < length buf) where
    skip_val-Forward : (r : Command) → Forward m (length buf) p r (skip_val buf p r)
    unfolding skip_val
    skip_val-Forward r =
        skip-Forward (λ c. c.vlen) (λ n c. record c { vlen = n })
          (λ q c. record c { state = sw_almost_done }) m counts buf p lt r

    command_round_in-Forward :
        (s : CommandState) (ch : ℕ) (r : Command)
        → r.state ≡ s
        → Forward m (length buf) p r (command_round_in room s buf p ch r)
    unfolding command_round_in command_backs
    command_round_in-Forward sw_start ch r e = start_command-Forward (length buf) p lt r ch
    command_round_in-Forward sw_req_type ch r e =
        read_command-Forward (length buf) p lt r buf ch (ap (λ s. command_backs s r.token) e)
    command_round_in-Forward sw_spaces_before_key ch r e =
        choose (length buf) p lt r (ch == space) _ _ (next (length buf) p lt r _)
          (back (length buf) p lt r 0 _ (ap (λ s. command_backs s r.token) e) (omega arith))
    command_round_in-Forward sw_key ch r e = read_mc_key-Forward (length buf) p lt r ch e
    command_round_in-Forward sw_spaces_before_keys ch r e =
        before_keys-Forward (length buf) p lt r ch e
    command_round_in-Forward sw_spaces_before_flags ch r e =
        before_number-Forward (length buf) p lt r _ _ ch
    command_round_in-Forward sw_flags ch r e = in_number-Forward (length buf) p lt r _ ch
    command_round_in-Forward sw_spaces_before_expiry ch r e =
        before_number-Forward (length buf) p lt r _ _ ch
    command_round_in-Forward sw_expiry ch r e = in_number-Forward (length buf) p lt r _ ch
    command_round_in-Forward sw_spaces_before_vlen ch r e =
        before_vlen-Forward (length buf) p lt r ch
    command_round_in-Forward sw_vlen ch r e =
        read_vlen-Forward (length buf) p lt r ch (ap (λ s. command_backs s r.token) e)
    command_round_in-Forward sw_spaces_before_cas ch r e =
        before_number-Forward (length buf) p lt r _ _ ch
    command_round_in-Forward sw_cas ch r e =
        last_number-Forward (length buf) p lt r ch (ap (λ s. command_backs s r.token) e)
    command_round_in-Forward sw_runto_val ch r e =
        choose (length buf) p lt r (ch == lf) _ _ (next (length buf) p lt r _)
          (fail (length buf) p lt r)
    command_round_in-Forward sw_val ch r e = skip_val-Forward r
    command_round_in-Forward sw_spaces_before_num ch r e =
        before_number-Forward (length buf) p lt r _ _ ch
    command_round_in-Forward sw_num ch r e =
        last_number-Forward (length buf) p lt r ch (ap (λ s. command_backs s r.token) e)
    command_round_in-Forward sw_runto_crlf ch r e = runto_crlf-Forward (length buf) p lt r ch
    command_round_in-Forward sw_crlf ch r e = wait_cr-Forward (length buf) p lt r ch
    command_round_in-Forward sw_noreply ch r e =
        read_noreply-Forward (length buf) p lt r buf ch (ap (λ s. command_backs s r.token) e)
    command_round_in-Forward sw_after_noreply ch r e = after_noreply-Forward (length buf) p lt r ch
    command_round_in-Forward sw_almost_done ch r e =
        choose (length buf) p lt r (ch == lf) _ _ (Forward.done-Forward m (length buf) p r lt r)
          (fail (length buf) p lt r)

    -- Each round goes forward, or back to a state that takes the byte.
    pub command_round-Forward :
        (r : Command) → Forward m (length buf) p r (command_round room buf p r)
    unfolding command_round
    command_round-Forward r = command_round_in-Forward r.state (byte_at buf p) r refl
