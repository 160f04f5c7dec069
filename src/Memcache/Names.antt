-- ===== src/Memcache/Names.antt =====
-- nc_memcache.c: the names of commands and of responses, in the order of their comparison.
use wx_cache_proxy.Base.{ℕ, List, [], ◌∷◌}
use wx_cache_proxy.Parser.Kind.{
  MsgType, req_mc_add, req_mc_append, req_mc_cas, req_mc_decr, req_mc_delete, req_mc_get,
  req_mc_gets, req_mc_incr, req_mc_prepend, req_mc_quit, req_mc_replace, req_mc_set, req_mc_touch,
  rsp_mc_client_error, rsp_mc_deleted, rsp_mc_end, rsp_mc_error, rsp_mc_exists, rsp_mc_not_found,
  rsp_mc_not_stored, rsp_mc_server_error, rsp_mc_stored, rsp_mc_touched, rsp_mc_value,
}

-- Names of three letters are compared together with the byte behind them.
abbrev pub short_commands : List (List ℕ × MsgType)
short_commands =
    (b'g' ∷ b'e' ∷ b't' ∷ b' ' ∷ [], req_mc_get)
    ∷ (b's' ∷ b'e' ∷ b't' ∷ b' ' ∷ [], req_mc_set)
    ∷ (b'a' ∷ b'd' ∷ b'd' ∷ b' ' ∷ [], req_mc_add)
    ∷ (b'c' ∷ b'a' ∷ b's' ∷ b' ' ∷ [], req_mc_cas)
    ∷ []

abbrev pub commands_longer : List (List ℕ × MsgType)
commands_longer =
    (b'g' ∷ b'e' ∷ b't' ∷ b's' ∷ [], req_mc_gets)
    ∷ (b'i' ∷ b'n' ∷ b'c' ∷ b'r' ∷ [], req_mc_incr)
    ∷ (b'd' ∷ b'e' ∷ b'c' ∷ b'r' ∷ [], req_mc_decr)
    ∷ (b'q' ∷ b'u' ∷ b'i' ∷ b't' ∷ [], req_mc_quit)
    ∷ (b't' ∷ b'o' ∷ b'u' ∷ b'c' ∷ b'h' ∷ [], req_mc_touch)
    ∷ (b'a' ∷ b'p' ∷ b'p' ∷ b'e' ∷ b'n' ∷ b'd' ∷ [], req_mc_append)
    ∷ (b'd' ∷ b'e' ∷ b'l' ∷ b'e' ∷ b't' ∷ b'e' ∷ [], req_mc_delete)
    ∷ (b'p' ∷ b'r' ∷ b'e' ∷ b'p' ∷ b'e' ∷ b'n' ∷ b'd' ∷ [], req_mc_prepend)
    ∷ (b'r' ∷ b'e' ∷ b'p' ∷ b'l' ∷ b'a' ∷ b'c' ∷ b'e' ∷ [], req_mc_replace)
    ∷ []

abbrev pub short_replies : List (List ℕ × MsgType)
short_replies = (b'E' ∷ b'N' ∷ b'D' ∷ 13 ∷ [], rsp_mc_end) ∷ []

abbrev pub replies_longer : List (List ℕ × MsgType)
replies_longer =
    (b'V' ∷ b'A' ∷ b'L' ∷ b'U' ∷ b'E' ∷ [], rsp_mc_value)
    ∷ (b'E' ∷ b'R' ∷ b'R' ∷ b'O' ∷ b'R' ∷ [], rsp_mc_error)
    ∷ (b'S' ∷ b'T' ∷ b'O' ∷ b'R' ∷ b'E' ∷ b'D' ∷ [], rsp_mc_stored)
    ∷ (b'E' ∷ b'X' ∷ b'I' ∷ b'S' ∷ b'T' ∷ b'S' ∷ [], rsp_mc_exists)
    ∷ (b'D' ∷ b'E' ∷ b'L' ∷ b'E' ∷ b'T' ∷ b'E' ∷ b'D' ∷ [], rsp_mc_deleted)
    ∷ (b'T' ∷ b'O' ∷ b'U' ∷ b'C' ∷ b'H' ∷ b'E' ∷ b'D' ∷ [], rsp_mc_touched)
    ∷ (b'N' ∷ b'O' ∷ b'T' ∷ b'_' ∷ b'F' ∷ b'O' ∷ b'U' ∷ b'N' ∷ b'D' ∷ [], rsp_mc_not_found)
    ∷ (b'N' ∷ b'O' ∷ b'T' ∷ b'_' ∷ b'S' ∷ b'T' ∷ b'O' ∷ b'R' ∷ b'E' ∷ b'D' ∷ [], rsp_mc_not_stored)
    ∷ (
      b'C' ∷ b'L' ∷ b'I' ∷ b'E' ∷ b'N' ∷ b'T' ∷ b'_' ∷ b'E' ∷ b'R' ∷ b'R' ∷ b'O' ∷ b'R' ∷ [],
      rsp_mc_client_error,
    )
    ∷ (
      b'S' ∷ b'E' ∷ b'R' ∷ b'V' ∷ b'E' ∷ b'R' ∷ b'_' ∷ b'E' ∷ b'R' ∷ b'R' ∷ b'O' ∷ b'R' ∷ [],
      rsp_mc_server_error,
    )
    ∷ []
