-- ===== src/Memcache/Request.antt =====
-- nc_memcache.c: `memcache_parse_req`, its states and one round of its loop.
mod Forward
pub mod Whole
pub mod Ends
use wx_cache_proxy.Base.{
  ℕ, zero, suc, ◌+◌, ◌-◌, ◌*◌, ◌%◌, ◌^◌, Bool, true, false, not, ◌&&◌, ◌||◌, List, [], ◌∷◌, ◌++◌,
  Option, none, some, ltb, leb, ◌==◌, if◌then◌else◌, length,
}
use wx_cache_proxy.Parser.Kind.{MsgType, msg_unknown, req_mc_quit}
use wx_cache_proxy.Parser.Bytes.{
  slice, byte_at, cr, lf, isdigit, shift_digit, same_bytes, find_kind,
}
use wx_cache_proxy.Parser.Machine.{Move, go, done, error, enomem, Parser, Result, parse}
use wx_cache_proxy.Memcache.Class.{
  memcache_storage, memcache_cas, memcache_retrieval, memcache_arithmetic, memcache_delete,
  memcache_touch,
}
use wx_cache_proxy.Memcache.Names.{short_commands, commands_longer}

pub data CommandState : Type 0 where
  sw_start sw_req_type sw_spaces_before_key sw_key sw_spaces_before_keys : CommandState
  sw_spaces_before_flags sw_flags sw_spaces_before_expiry sw_expiry : CommandState
  sw_spaces_before_vlen sw_vlen sw_spaces_before_cas sw_cas sw_runto_val sw_val : CommandState
  sw_spaces_before_num sw_num sw_runto_crlf sw_crlf sw_noreply sw_after_noreply : CommandState
  sw_almost_done : CommandState

-- The fields of `struct msg` that the parser keeps. Pointers are offsets into the buffer that is
-- parsed; those in `keys` are start and end of a key in the buffer that held it.
pub record Command : Type 0 where
  pub state : CommandState
  pub token : Option ℕ
  pub vlen : ℕ
  pub narg : ℕ
  pub kind : MsgType
  pub keys : List (ℕ × ℕ)
  pub noreply : Bool
  pub quit : Bool

unfoldable pub islower : ℕ → Bool
islower ch = leb b'a' ch && leb ch b'z'

abbrev pub space : ℕ
space = b' '

abbrev pub memcache_max_key_length : ℕ
memcache_max_key_length = 250

-- `r->narg++`
abbrev pub one_more : ℕ → ℕ
one_more n = (n + 1) % 2 ^ 32

unfoldable pub start_command : ℕ → ℕ → Command → Move Command
start_command p ch r =
    if ch == space
    then go (suc p) r
    else if islower ch
    then go (suc p) (record r { token = some p; state = sw_req_type })
    else error

-- The type of the command whose name stands from `t` to `p`.
unfoldable pub command_kind : List ℕ → ℕ → ℕ → MsgType
command_kind buf t p =
    if p - t == 3
    then find_kind short_commands (slice buf t (suc p)) msg_unknown
    else find_kind commands_longer (slice buf t p) msg_unknown

-- The state behind the name of a command.
unfoldable pub name_read : MsgType → ℕ → ℕ → Command → Move Command
name_read msg_unknown p ch r = error
name_read req_mc_quit p ch r = go p (record r { quit = true; state = sw_crlf })
name_read kind p ch r =
    if ch == cr then error else go (suc p) (record r { state = sw_spaces_before_key })

-- SW_REQ_TYPE. Without a token, as after a repair, the name is as long as an address, and unknown.
unfoldable pub read_command : List ℕ → ℕ → ℕ → Command → Move Command
read_command buf p ch r =
    if ch == space || ch == cr
    then elim r.token [
      | none ↦ error
      | some t ↦
          let kind = command_kind buf t p in
          name_read kind p ch (record r { token = none; kind = kind; narg = one_more r.narg })
    ]
    else if islower ch
    then go (suc p) r
    else error

-- The state behind a key.
unfoldable pub key_read : MsgType → CommandState
key_read kind =
    if memcache_storage kind
    then sw_spaces_before_flags
    else if memcache_arithmetic kind || memcache_touch kind
    then sw_spaces_before_num
    else if memcache_delete kind
    then sw_runto_crlf
    else if memcache_retrieval kind
    then sw_spaces_before_keys
    else sw_runto_crlf

-- SW_KEY at a space or a carriage return, with the token at `t`.
unfoldable pub end_key : (ℕ → Bool) → ℕ → ℕ → ℕ → Command → Move Command
end_key room t p ch r =
    if ltb memcache_max_key_length (p - t)
    then error
    else if p - t == 0
    then error
    else if room (length r.keys)
    then (let r1 = record r {
      keys = r.keys ++ (t, p) ∷ [];
      narg = one_more r.narg;
      token = none;
      state = key_read r.kind;
    } in
        if ch == cr
        then (if memcache_storage r.kind || memcache_arithmetic r.kind then error else go p r1)
        else go (suc p) r1)
    else enomem

unfoldable pub read_mc_key : (ℕ → Bool) → ℕ → ℕ → Command → Move Command
read_mc_key room p ch r = elim r.token [
  | none ↦ if ch == space || ch == cr then error else go (suc p) (record r { token = some p })
  | some t ↦ if ch == space || ch == cr then end_key room t p ch r else go (suc p) r
]

unfoldable pub before_keys : ℕ → ℕ → Command → Move Command
before_keys p ch r =
    if ch == space
    then go (suc p) r
    else if ch == cr
    then go (suc p) (record r { state = sw_almost_done })
    else go p (record r { token = none; state = sw_key })

-- The states in front of a number that is not kept, and in it.
unfoldable pub before_number : (ℕ → Bool) → CommandState → ℕ → ℕ → Command → Move Command
before_number starts next p ch r =
    if ch == space
    then go (suc p) r
    else if starts ch
    then go (suc p) (record r { token = some p; state = next })
    else error

unfoldable pub in_number : CommandState → ℕ → ℕ → Command → Move Command
in_number next p ch r =
    if isdigit ch
    then go (suc p) r
    else if ch == space
    then go (suc p) (record r { token = none; state = next })
    else error

-- SW_CAS and SW_NUM: the byte behind the number is read again.
unfoldable pub last_number : ℕ → ℕ → Command → Move Command
last_number p ch r =
    if isdigit ch
    then go (suc p) r
    else if ch == space || ch == cr
    then go p (record r { token = none; state = sw_runto_crlf })
    else error

unfoldable pub before_vlen : ℕ → ℕ → Command → Move Command
before_vlen p ch r =
    if ch == space
    then go (suc p) r
    else if isdigit ch
    then go (suc p) (record r { vlen = ch - b'0'; state = sw_vlen })
    else error

unfoldable pub read_vlen : ℕ → ℕ → Command → Move Command
read_vlen p ch r =
    if isdigit ch
    then go (suc p) (record r { vlen = shift_digit r.vlen ch })
    else if memcache_cas r.kind
    then (if ch == space
        then go p (record r { token = none; state = sw_spaces_before_cas })
        else error)
    else if ch == space || ch == cr
    then go p (record r { token = none; state = sw_runto_crlf })
    else error

-- SW_VAL
unfoldable pub skip_val : List ℕ → ℕ → Command → Move Command
skip_val buf p r =
    let m = p + r.vlen in
    if leb (length buf) m
    then go (length buf) (record r { vlen = r.vlen - (length buf - p) })
    else if byte_at buf m == cr
    then go (suc m) (record r { state = sw_almost_done })
    else error

abbrev pub takes_noreply : MsgType → Bool
takes_noreply kind =
    memcache_storage kind || memcache_arithmetic kind || memcache_delete kind || memcache_touch kind

-- A carriage return behind the last argument.
abbrev pub end_of_line : Command → CommandState
end_of_line r = if memcache_storage r.kind then sw_runto_val else sw_almost_done

unfoldable pub runto_crlf : ℕ → ℕ → Command → Move Command
runto_crlf p ch r =
    if ch == space
    then go (suc p) r
    else if ch == b'n'
    then (if takes_noreply r.kind
        then go (suc p) (record r { token = some p; state = sw_noreply })
        else error)
    else if ch == cr
    then go (suc p) (record r { state = end_of_line r })
    else error

abbrev pub noreply_word : List ℕ
noreply_word = b'n' ∷ b'o' ∷ b'r' ∷ b'e' ∷ b'p' ∷ b'l' ∷ b'y' ∷ []

-- SW_NOREPLY. Without a token, as after a repair, the word is as long as an address.
unfoldable pub read_noreply : List ℕ → ℕ → ℕ → Command → Move Command
read_noreply buf p ch r =
    if ch == space || ch == cr
    then elim r.token [
      | none ↦ error
      | some t ↦
          if same_bytes (slice buf t p) noreply_word
          then go p (record r { token = none; noreply = true; state = sw_after_noreply })
          else error
    ]
    else go (suc p) r

unfoldable pub after_noreply : ℕ → ℕ → Command → Move Command
after_noreply p ch r =
    if ch == space
    then go (suc p) r
    else if ch == cr
    then go (suc p) (record r { state = end_of_line r })
    else error

-- SW_CRLF
unfoldable pub wait_cr : ℕ → ℕ → Command → Move Command
wait_cr p ch r =
    if ch == space
    then go (suc p) r
    else if ch == cr
    then go (suc p) (record r { state = sw_almost_done })
    else error

-- How often a state may go back before a byte is taken.
unfoldable pub command_backs : CommandState → Option ℕ → ℕ
command_backs sw_req_type t = 1
command_backs sw_spaces_before_key t = 1
command_backs sw_spaces_before_keys t = 1
command_backs sw_key none = 0
command_backs sw_key (some t) = 2
command_backs sw_vlen t = 1
command_backs sw_cas t = 1
command_backs sw_num t = 1
command_backs sw_noreply t = 1
command_backs _ t = 0

module _ (room : ℕ → Bool) where
  unfoldable pub command_round_in : CommandState → List ℕ → ℕ → ℕ → Command → Move Command
  command_round_in sw_start buf p ch r = start_command p ch r
  command_round_in sw_req_type buf p ch r = read_command buf p ch r
  command_round_in sw_spaces_before_key buf p ch r =
      if ch == space then go (suc p) r else go p (record r { token = none; state = sw_key })
  command_round_in sw_key buf p ch r = read_mc_key room p ch r
  command_round_in sw_spaces_before_keys buf p ch r = before_keys p ch r
  command_round_in sw_spaces_before_flags buf p ch r = before_number isdigit sw_flags p ch r
  command_round_in sw_flags buf p ch r = in_number sw_spaces_before_expiry p ch r
  command_round_in sw_spaces_before_expiry buf p ch r = before_number isdigit sw_expiry p ch r
  command_round_in sw_expiry buf p ch r = in_number sw_spaces_before_vlen p ch r
  command_round_in sw_spaces_before_vlen buf p ch r = before_vlen p ch r
  command_round_in sw_vlen buf p ch r = read_vlen p ch r
  command_round_in sw_spaces_before_cas buf p ch r = before_number isdigit sw_cas p ch r
  command_round_in sw_cas buf p ch r = last_number p ch r
  command_round_in sw_runto_val buf p ch r =
      if ch == lf then go (suc p) (record r { state = sw_val }) else error
  command_round_in sw_val buf p ch r = skip_val buf p r
  command_round_in sw_spaces_before_num buf p ch r =
      before_number (λ c. isdigit c || c == b'-') sw_num p ch r
  command_round_in sw_num buf p ch r = last_number p ch r
  command_round_in sw_runto_crlf buf p ch r = runto_crlf p ch r
  command_round_in sw_crlf buf p ch r = wait_cr p ch r
  command_round_in sw_noreply buf p ch r = read_noreply buf p ch r
  command_round_in sw_after_noreply buf p ch r = after_noreply p ch r
  command_round_in sw_almost_done buf p ch r = if ch == lf then done p r else error

  unfoldable pub command_round : List ℕ → ℕ → Command → Move Command
  command_round buf p r = command_round_in r.state buf p (byte_at buf p) r

  abbrev pub command_parser : Parser Command
  command_parser = record {
    step = command_round;
    token = λ r. r.token;
    forget = λ r. record r { token = none };
    restart = λ r. record r { state = sw_start };
    rounds = λ n r. 3 * n + command_backs r.state r.token;
  }

  unfoldable pub memcache_parse_req : Bool → List ℕ → ℕ → Command → Result Command
  memcache_parse_req full buf pos r = parse command_parser full buf pos r
