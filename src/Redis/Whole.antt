-- ===== src/Redis/Whole.antt =====
-- nc_redis.c: `redis_parse_req` keeps the laws of a parser, and what follows for its calls.
use wx_cache_proxy.Base.{ℕ, ◌≤◌, ◌≡◌, refl, Bool, false, List, ◌∷◌, ◌++◌, none, length, ◌-◌, arith}
use wx_cache_proxy.Parser.Machine.{Move, go, done, error, enomem, scan, finish, Advances, IsParser}
use wx_cache_proxy.Redis.Request.{Request}
use wx_cache_proxy.Redis.Round.{round}
use wx_cache_proxy.Redis.Parse.{request_parser, redis_parse_req}
use wx_cache_proxy.Redis.Forward.{IsReady, Ready-none, round-Advances}
use wx_cache_proxy.Redis.Forward
use wx_cache_proxy.Redis.Chunk.{round-Agrees}
use wx_cache_proxy.Parser.Resume.{again_on, goes, parse-append}
use wx_cache_proxy.Parser.Bounds.{Ends, parse-Ends}

module _ (mbuf_data : ℕ) (room : ℕ → Bool) where
  go_forward :
      (last p : ℕ) (r : Request) (x : Move Request)
      → Forward.Advances last p x
      → Advances (request_parser mbuf_data room) IsReady last p r x
  go_forward last p r (go q r') a = ((omega (arith, a.0), λ n h k. omega (arith, a.0)), a.1, a.2)
  go_forward last p r (done q r') a = a
  go_forward last p r error a = tt
  go_forward last p r enomem a = tt

  pub request-IsParser : IsParser (request_parser mbuf_data room) IsReady
  unfolding round
  request-IsParser = record {
    enough = λ n r. omega arith;
    advances = λ buf p r lt ready.
        go_forward (length buf) p r _ (round-Advances mbuf_data room (length buf) buf p lt r ready);
    agrees = λ buf xs p r lt. round-Agrees mbuf_data room buf xs p lt r;
    bare = λ p r. Ready-none r.state p (record r { token = none }) refl;
  }

  -- `redis_parse_req` does not depend on how a request is cut into reads: on a buffer with more
  -- bytes it returns what it returns when it is first called with the shorter buffer and, if it
  -- asks for more, again with the longer one at the position and in the state in which it stopped.
  -- The parser is ready at the position it starts from: in the states that wait for a line feed or
  -- for an argument no token is kept, and a name does not end before the position.
  pub redis_parse_req-append :
      (buf : List ℕ) (x : ℕ) (xs : List ℕ) (full : Bool) (pos : ℕ) (r : Request)
      → pos ≤ length buf
      → IsReady pos r
      → redis_parse_req mbuf_data room full (buf ++ x ∷ xs) pos r
        ≡ again_on
            (redis_parse_req mbuf_data room full (buf ++ x ∷ xs))
            (redis_parse_req mbuf_data room false buf pos r)
  unfolding redis_parse_req
  redis_parse_req-append buf x xs full pos r h ready =
      parse-append (request_parser mbuf_data room) IsReady request-IsParser buf x xs full pos r h
        ready

  -- The loop of `redis_parse_req` ends: with fuel for one round for each byte that is left it does
  -- not run out of fuel. It ends by its test exactly at the end of the buffer, with the parser
  -- ready for the next call, or at a byte of the buffer that ends the message and does not stand
  -- before the start, or by an error; and what follows from how it ends is what the function
  -- returns. The parser starts within the buffer, ready: in the states that wait for a line feed or
  -- for an argument no token is kept, and a name does not end before the position.
  pub redis_parse_req-Ends :
      (f : ℕ) (full : Bool) (buf : List ℕ) (pos : ℕ) (r : Request)
      → length buf - pos ≤ f
      → pos ≤ length buf
      → IsReady pos r
      → let left = scan (request_parser mbuf_data room) f buf pos r in
        Ends IsReady (length buf) pos left
        × (finish (request_parser mbuf_data room) full left
            ≡ redis_parse_req mbuf_data room full buf pos r)
  unfolding redis_parse_req
  redis_parse_req-Ends f full buf pos r enough h ready =
      parse-Ends (request_parser mbuf_data room) IsReady
        (goes (request_parser mbuf_data room) IsReady request-IsParser) f full buf pos r
        (omega arith) h ready
