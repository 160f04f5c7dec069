-- ===== src/Memcache/Request/Ends.antt =====
-- nc_memcache.c: where the loop of `memcache_parse_req` ends.
use wx_cache_proxy.Base.{ℕ, ◌+◌, ◌-◌, ◌*◌, ◌≤◌, ◌≡◌, Bool, List, length, arith}
use wx_cache_proxy.Parser.Machine.{scan, finish, Goes}
use wx_cache_proxy.Parser.Forward.{Anywhere, forward}
use wx_cache_proxy.Parser.Bounds.{Ends, parse-Ends}
use wx_cache_proxy.Memcache.Request.{Command, command_round, command_parser, memcache_parse_req}
use wx_cache_proxy.Memcache.Request.Forward.{command_backs-le, command_round-Forward}

module _ (room : ℕ → Bool) where
  command_parser-Goes : Goes (command_parser room) Anywhere
  command_parser-Goes = record {
    enough = λ n r. omega arith;
    advances = λ buf p r lt ready.
        forward (command_parser room) (length buf) p r (command_round room buf p r)
          (command_round-Forward room buf p lt r);
  }

  -- The loop of `memcache_parse_req` ends, though it may stay at a byte: with fuel for three rounds
  -- for each byte that is left, and two more, it does not run out of fuel. It ends by its test
  -- exactly at the end of the buffer, or at a byte of the buffer that ends the message and does not
  -- stand before the start, or by an error; and what follows from how it ends is what the function
  -- returns. The parser starts within the buffer.
  pub memcache_parse_req-Ends :
      (f : ℕ) (full : Bool) (buf : List ℕ) (pos : ℕ) (r : Command)
      → 3 * (length buf - pos) + 2 ≤ f
      → pos ≤ length buf
      → let left = scan (command_parser room) f buf pos r in
        Ends Anywhere (length buf) pos left
        × (finish (command_parser room) full left ≡ memcache_parse_req room full buf pos r)
  unfolding memcache_parse_req
  memcache_parse_req-Ends f full buf pos r enough h =
      parse-Ends (command_parser room) Anywhere command_parser-Goes f full buf pos r
        (omega (arith, command_backs-le r.state r.token)) h tt
