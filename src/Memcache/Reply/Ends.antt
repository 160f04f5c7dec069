-- ===== src/Memcache/Reply/Ends.antt =====
-- nc_memcache.c: where the loop of `memcache_parse_rsp` ends.
use wx_cache_proxy.Base.{ℕ, ◌+◌, ◌-◌, ◌*◌, ◌≤◌, ◌≡◌, Bool, List, length, arith}
use wx_cache_proxy.Parser.Machine.{scan, finish, Goes}
use wx_cache_proxy.Parser.Forward.{Anywhere, forward}
use wx_cache_proxy.Parser.Bounds.{Ends, parse-Ends}
use wx_cache_proxy.Memcache.Reply.{Rep, rep_round, rep_parser, memcache_parse_rsp}
use wx_cache_proxy.Memcache.Reply.Forward.{rep_backs-le, rep_round-Forward}

rep_parser-Goes : Goes rep_parser Anywhere
rep_parser-Goes = record {
  enough = λ n r. omega arith;
  advances = λ buf p r lt ready.
      forward rep_parser (length buf) p r (rep_round buf p r) (rep_round-Forward buf p lt r);
}

-- The loop of `memcache_parse_rsp` ends, though it may stay at a byte: with fuel for four rounds
-- for each byte that is left, and three more, it does not run out of fuel. It ends by its test
-- exactly at the end of the buffer, or at a byte of the buffer that ends the message and does not
-- stand before the start, or by an error; and what follows from how it ends is what the function
-- returns. The parser starts within the buffer.
pub memcache_parse_rsp-Ends :
    (f : ℕ) (full : Bool) (buf : List ℕ) (pos : ℕ) (r : Rep)
    → 4 * (length buf - pos) + 3 ≤ f
    → pos ≤ length buf
    → let left = scan rep_parser f buf pos r in
      Ends Anywhere (length buf) pos left
      × (finish rep_parser full left ≡ memcache_parse_rsp full buf pos r)
unfolding memcache_parse_rsp
memcache_parse_rsp-Ends f full buf pos r enough h =
    parse-Ends rep_parser Anywhere rep_parser-Goes f full buf pos r
      (omega (arith, rep_backs-le r.state)) h tt
