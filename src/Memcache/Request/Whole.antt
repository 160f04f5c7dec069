-- ===== src/Memcache/Request/Whole.antt =====
-- nc_memcache.c: calls of `memcache_parse_req` on a buffer that grows.
use wx_cache_proxy.Base.{
  ℕ, suc, ◌-◌, ◌≤◌, ◌<◌, ◌≡◌, ◌⊎◌, refl, ap, sym, ◌∙◌, Bool, true, false, List, ◌∷◌, ◌++◌,
  if◌then◌else◌, length, arith, Option-cases, inl, inr,
}
use wx_cache_proxy.Parser.Kind.{MsgType}
use wx_cache_proxy.Parser.Bytes.{byte_at}
use wx_cache_proxy.Parser.Slice.{byte_at-append, slice-append}
use wx_cache_proxy.Parser.Machine.{Move, go, Agrees, IsParser}
use wx_cache_proxy.Parser.Resume.{again_on}
use wx_cache_proxy.Parser.Forward.{Anywhere}
use wx_cache_proxy.Parser.Settle.{
  settle_move, settle_result, settled, Settles, settle-Forward, settle-append,
}
use wx_cache_proxy.Parser.Stall.{skip-append}
use wx_cache_proxy.Memcache.Class.{memcache_storage}
use wx_cache_proxy.Memcache.Request.{
  CommandState, sw_start, sw_req_type, sw_spaces_before_key, sw_key, sw_spaces_before_keys,
  sw_spaces_before_flags, sw_flags, sw_spaces_before_expiry, sw_expiry, sw_spaces_before_vlen,
  sw_vlen, sw_spaces_before_cas, sw_cas, sw_runto_val, sw_val, sw_spaces_before_num, sw_num,
  sw_runto_crlf, sw_crlf, sw_noreply, sw_after_noreply, sw_almost_done, Command, start_command,
  name_read, read_command, key_read, end_key, read_mc_key, before_keys, before_number, in_number,
  last_number, before_vlen, read_vlen, skip_val, runto_crlf, read_noreply, after_noreply, wait_cr,
  command_round_in, command_round, command_parser, command_kind, memcache_parse_req,
}
use wx_cache_proxy.Memcache.Request.Forward.{command_round-Forward}

-- The states from which `vlen` is still read before it is set.
unfoldable uses_vlen : CommandState → MsgType → Bool
uses_vlen sw_vlen kind = true
uses_vlen sw_spaces_before_cas kind = true
uses_vlen sw_cas kind = true
uses_vlen sw_runto_val kind = true
uses_vlen sw_val kind = true
uses_vlen sw_spaces_before_num kind = memcache_storage kind
uses_vlen sw_num kind = memcache_storage kind
uses_vlen sw_runto_crlf kind = memcache_storage kind
uses_vlen sw_noreply kind = memcache_storage kind
uses_vlen sw_after_noreply kind = memcache_storage kind
uses_vlen _ kind = false

-- A command with `vlen` cleared where it is not read again: the parser leaves there how many bytes of
-- a value the last buffer held.
unfoldable pub settle_command : Command → Command
unfolding uses_vlen
settle_command r = record r { vlen = if uses_vlen r.state r.kind then r.vlen else 0 }

module _ (room : ℕ → Bool) (buf : List ℕ) (p : ℕ) where
  command_round_in-settle :
      (s : CommandState) (ch : ℕ) (r : Command)
      → r.state ≡ s
      → settle_move settle_command (command_round_in room s buf p ch (settle_command r))
        ≡ settle_move settle_command (command_round_in room s buf p ch r)
  unfolding command_round_in settle_command start_command read_command name_read read_mc_key end_key
      key_read before_keys before_number in_number last_number before_vlen read_vlen skip_val
      runto_crlf read_noreply after_noreply wait_cr
  command_round_in-settle sw_start ch r e = ground arith
  command_round_in-settle sw_req_type ch r e = ground arith
  command_round_in-settle sw_spaces_before_key ch r e = ground arith
  command_round_in-settle sw_key ch r e = ground arith
  command_round_in-settle sw_spaces_before_keys ch r e = ground arith
  command_round_in-settle sw_spaces_before_flags ch r e = ground arith
  command_round_in-settle sw_flags ch r e = ground arith
  command_round_in-settle sw_spaces_before_expiry ch r e = ground arith
  command_round_in-settle sw_expiry ch r e = ground arith
  command_round_in-settle sw_spaces_before_vlen ch r e = ground arith
  command_round_in-settle sw_vlen ch r e = ground arith
  command_round_in-settle sw_spaces_before_cas ch r e = ground arith
  command_round_in-settle sw_cas ch r e = ground arith
  command_round_in-settle sw_runto_val ch r e = ground arith
  command_round_in-settle sw_val ch r e = ground arith
  command_round_in-settle sw_spaces_before_num ch r e = ground arith
  command_round_in-settle sw_num ch r e = ground arith
  command_round_in-settle sw_runto_crlf ch r e = ground arith
  command_round_in-settle sw_crlf ch r e = ground arith
  command_round_in-settle sw_noreply ch r e = ground arith
  command_round_in-settle sw_after_noreply ch r e = ground arith
  command_round_in-settle sw_almost_done ch r e = ground arith

command_parser-Settles : (room : ℕ → Bool) → Settles settle_command (command_parser room)
unfolding settle_command command_round
command_parser-Settles room = record {
  rounds = λ n r. refl;
  step = λ buf p r. command_round_in-settle room buf p r.state (byte_at buf p) r refl;
  token = λ r. refl;
  forget = λ r. ground arith;
  restart = λ r. refl;
}

module _ (room : ℕ → Bool) (buf xs : List ℕ) (p : ℕ) (lt : p < length buf) where
  abbrev whole : List ℕ
  whole = buf ++ xs

  command_kind-append : (t : ℕ) → command_kind whole t p ≡ command_kind buf t p
  unfolding command_kind
  command_kind-append t =
      rw
        (
          command_kind,
          slice-append buf xs t p (omega arith),
          slice-append buf xs t (suc p) (omega arith),
        )
        refl

  read_command-append : (ch : ℕ) (r : Command) → read_command whole p ch r ≡ read_command buf p ch r
  unfolding read_command
  read_command-append ch r = elim (Option-cases r.token) [
    | inl e ↦ rw (read_command, e) refl
    | inr (t, e) ↦ rw (read_command, e, command_kind-append t) refl
  ]

  read_noreply-append : (ch : ℕ) (r : Command) → read_noreply whole p ch r ≡ read_noreply buf p ch r
  unfolding read_noreply
  read_noreply-append ch r = elim (Option-cases r.token) [
    | inl e ↦ rw (read_noreply, e) refl
    | inr (t, e) ↦ rw (read_noreply, e, slice-append buf xs t p (omega arith)) refl
  ]

  abbrev Same : Move Command → Move Command → Type 0
  Same x y =
      (settle_move settle_command y ≡ settle_move settle_command x)
      ⊎ ((r1 : Command) × (settle_move settle_command x ≡ go (length buf) r1)
          × (settle_move settle_command y
              ≡ settle_move settle_command (
                  command_round_in room r1.state whole (length buf) (byte_at whole (length buf))
                    r1)))

  skip_val-Same :
      (ch : ℕ) (r : Command) → r.state ≡ sw_val → Same (skip_val buf p r) (skip_val whole p r)
  unfolding skip_val command_round_in settle_command uses_vlen
  skip_val-Same ch r e =
      elim (skip-append (λ c. c.vlen) (λ n c. record c { vlen = n })
        (λ q c. record c { state = sw_almost_done }) settle_command (λ n c. refl) (λ n k c. refl)
        (λ n q c. refl) buf xs p lt r
        (ap (λ s. record r { vlen = if uses_vlen s r.kind then r.vlen - (length buf - p) else 0 })
          e)) [
            | inl h ↦ inl h
            | inr (h, k) ↦ inr (
              _,
              h,
              k
                  ∙ sym (
                      ap
                        (λ s. settle_move settle_command (
                          command_round_in room s whole (length buf) (byte_at whole (length buf))
                            (record r { vlen = r.vlen - (length buf - p) })))
                        e),
            )
          ]

  command_round_in-Same :
      (s : CommandState) (ch : ℕ) (r : Command)
      → r.state ≡ s
      → Same (command_round_in room s buf p ch r) (command_round_in room s whole p ch r)
  unfolding command_round_in
  command_round_in-Same sw_start ch r e = inl refl
  command_round_in-Same sw_req_type ch r e =
      inl (ap (settle_move settle_command) (read_command-append ch r))
  command_round_in-Same sw_spaces_before_key ch r e = inl refl
  command_round_in-Same sw_key ch r e = inl refl
  command_round_in-Same sw_spaces_before_keys ch r e = inl refl
  command_round_in-Same sw_spaces_before_flags ch r e = inl refl
  command_round_in-Same sw_flags ch r e = inl refl
  command_round_in-Same sw_spaces_before_expiry ch r e = inl refl
  command_round_in-Same sw_expiry ch r e = inl refl
  command_round_in-Same sw_spaces_before_vlen ch r e = inl refl
  command_round_in-Same sw_vlen ch r e = inl refl
  command_round_in-Same sw_spaces_before_cas ch r e = inl refl
  command_round_in-Same sw_cas ch r e = inl refl
  command_round_in-Same sw_runto_val ch r e = inl refl
  command_round_in-Same sw_val ch r e = skip_val-Same ch r e
  command_round_in-Same sw_spaces_before_num ch r e = inl refl
  command_round_in-Same sw_num ch r e = inl refl
  command_round_in-Same sw_runto_crlf ch r e = inl refl
  command_round_in-Same sw_crlf ch r e = inl refl
  command_round_in-Same sw_noreply ch r e =
      inl (ap (settle_move settle_command) (read_noreply-append ch r))
  command_round_in-Same sw_after_noreply ch r e = inl refl
  command_round_in-Same sw_almost_done ch r e = inl refl

  command_round-Agrees :
      (r : Command)
      → Agrees (λ b q c. settle_move settle_command (command_round room b q c)) buf xs p r
  unfolding command_round
  command_round-Agrees r =
      rw (byte_at-append buf xs p lt) (command_round_in-Same r.state (byte_at buf p) r refl)

command_parser-IsParser :
    (room : ℕ → Bool) → IsParser (settled settle_command (command_parser room)) Anywhere
command_parser-IsParser room = record {
  enough = λ n r. omega arith;
  advances = λ buf p r lt ready.
      settle-Forward settle_command (command_parser room) (command_parser-Settles room) (length buf)
        p r _ (command_round-Forward room buf p lt r);
  agrees = λ buf xs p r lt. command_round-Agrees room buf xs p lt r;
  bare = λ p r. tt;
}

-- `memcache_parse_req` does not depend on how a request is cut into reads: on a buffer with more
-- bytes it returns what it returns when it is first called with the shorter buffer and, if it asks
-- for more, again with the longer one at the position and in the state in which it stopped. The
-- results are compared without `vlen` where it is not read again. The parser starts within the
-- shorter buffer.
pub memcache_parse_req-append :
    (room : ℕ → Bool) (buf : List ℕ) (x : ℕ) (xs : List ℕ) (full : Bool) (pos : ℕ) (r : Command)
    → pos ≤ length buf
    → settle_result settle_command (memcache_parse_req room full (buf ++ x ∷ xs) pos r)
      ≡ settle_result settle_command (
          again_on
            (memcache_parse_req room full (buf ++ x ∷ xs))
            (memcache_parse_req room false buf pos r))
unfolding memcache_parse_req
memcache_parse_req-append room buf x xs full pos r h =
    settle-append settle_command (command_parser room) (command_parser-Settles room)
      (command_parser-IsParser room) buf x xs full pos r h
