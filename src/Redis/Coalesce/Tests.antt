-- ===== src/Redis/Coalesce/Tests.antt =====
-- The responses to a request of three keys in two fragments, in buffers of 64 bytes.
use wx_cache_proxy.Parser.Bytes.{isdigit}
use wx_cache_proxy.Base.{
  ℕ, suc, zero, ◌+◌, ◌≡◌, refl, true, false, List, [], ◌∷◌, ◌++◌, none, some, ◌==◌, if◌then◌else◌,
  arith,
}
use wx_cache_proxy.Buffer.Mbuf.{Mbuf, mbuf_length, mbuf_empty}
use wx_cache_proxy.Buffer.Content.{content, AreValid}
use wx_cache_proxy.Buffer.Message.{Message}
use wx_cache_proxy.Parser.Kind.{rsp_redis_integer, req_redis_del}
use wx_cache_proxy.Redis.Bulk.{skip_empty, redis_copy_bulk}
use wx_cache_proxy.Redis.Bulk.Spec.{Bulk, null_bulk, bulk, text, IsBulk}
use wx_cache_proxy.Redis.Bulk.Copy.{advance}
use wx_cache_proxy.Redis.Bulk.Moves.{StartsWith, Moves, redis_copy_bulk-Moves}
use wx_cache_proxy.Redis.Coalesce.{
  Joined, Response, Fragment, redis_post_coalesce_mget, redis_post_coalesce,
}
use wx_cache_proxy.Redis.Coalesce.Join.{
  Carries, Collects, of_fragment, seq_of, texts, count_line, redis_post_coalesce_mget-Collects,
}
use wx_cache_proxy.Redis.Coalesce.Missing.{redis_post_coalesce_mget-closes}
use wx_cache_proxy.Redis.Coalesce.Count.{coalesce_all, integer_line, redis_post_coalesce-sums}

abbrev one_byte : Bulk
one_byte = bulk (b'1' ∷ []) (b'a' ∷ [])

abbrev two_bytes : Bulk
two_bytes = bulk (b'2' ∷ []) (b'b' ∷ b'c' ∷ [])

-- "$1\r\na\r\n$2\r\nb" and "c\r\n"
abbrev front : Mbuf
front = record { bytes = text one_byte ++ b'$' ∷ b'2' ∷ 13 ∷ 10 ∷ b'b' ∷ []; pos = 0 }

abbrev back : Mbuf
back = record { bytes = b'c' ∷ 13 ∷ 10 ∷ []; pos = 0 }

abbrev sub_0 : Message
sub_0 = record { mhdr = front ∷ back ∷ []; mlen = 15; pos = 0 }

abbrev sub_1 : Message
sub_1 = record { mhdr = record { bytes = text null_bulk; pos = 0 } ∷ []; mlen = 5; pos = 0 }

abbrev empty_message : Message
empty_message = record { mhdr = []; mlen = 0; pos = 0 }

one_byte-IsBulk : IsBulk one_byte
unfolding isdigit
one_byte-IsBulk = ((refl, tt), refl, omega arith)

two_bytes-IsBulk : IsBulk two_bytes
unfolding isdigit
two_bytes-IsBulk = ((refl, tt), refl, omega arith)

sub_0-starts : StartsWith one_byte sub_0.mhdr
unfolding skip_empty mbuf_empty content
sub_0-starts = record {
  first = front;
  others = back ∷ [];
  more = 10 ∷ b'a' ∷ 13 ∷ 10 ∷ b'$' ∷ b'2' ∷ 13 ∷ 10 ∷ b'b' ∷ [];
  rest = text two_bytes;
  found = refl;
  line = refl;
  held = refl;
}

sub_0-next : StartsWith two_bytes (advance 7 (skip_empty sub_0.mhdr))
unfolding skip_empty mbuf_empty mbuf_length content
sub_0-next = record {
  first = record front { pos = 7 };
  others = back ∷ [];
  more = 10 ∷ b'b' ∷ [];
  rest = [];
  found = refl;
  line = refl;
  held = refl;
}

sub_1-starts : StartsWith null_bulk sub_1.mhdr
unfolding skip_empty mbuf_empty content
sub_1-starts = record {
  first = record { bytes = text null_bulk; pos = 0 };
  others = [];
  more = 13 ∷ 10 ∷ [];
  rest = [];
  found = refl;
  line = refl;
  held = refl;
}

sub_0-AreValid : AreValid 64 sub_0.mhdr
sub_0-AreValid = (
  record { ordered = omega arith; within = omega arith },
  (record { ordered = omega arith; within = omega arith }, tt),
)

sub_1-AreValid : AreValid 64 sub_1.mhdr
sub_1-AreValid = (record { ordered = omega arith; within = omega arith }, tt)

redis_copy_bulk-Moves_example :
    Moves 64
      (omega arith)
      one_byte
      sub_0-starts.rest
      empty_message
      sub_0
      (redis_copy_bulk 64 true (some empty_message) sub_0)
redis_copy_bulk-Moves_example =
    redis_copy_bulk-Moves 64 (omega arith) empty_message sub_0 one_byte tt sub_0-AreValid
      one_byte-IsBulk sub_0-starts

abbrev joined : Joined
joined = record {
  response = empty_message;
  error = false;
  fragments = λ k. if k == 0 then some sub_0 else if k == 1 then some sub_1 else none;
  closed = false;
}

abbrev parts : List (ℕ × Bulk)
parts = (0, one_byte) ∷ (1, null_bulk) ∷ (0, two_bytes) ∷ []

-- A single digit, as the platform prints it.
abbrev print_digit : ℕ → List ℕ
print_digit n = (b'0' + n) ∷ []

parts-Carries :
    (k : ℕ) → Carries 64 (omega arith) print_digit (joined.fragments k) (of_fragment k parts)
parts-Carries zero =
    (sub_0-AreValid, (one_byte-IsBulk, sub_0-starts, (two_bytes-IsBulk, sub_0-next, tt)))
parts-Carries (suc zero) = (sub_1-AreValid, (tt, sub_1-starts, tt))
parts-Carries (suc (suc k)) =
    let e : (suc (suc k) == 0) ≡ false = ground arith in
    let f : (suc (suc k) == 1) ≡ false = ground arith in
    let g : (0 == suc (suc k)) ≡ false = ground arith in
    let h : (1 == suc (suc k)) ≡ false = ground arith in rw (e, f, g, h) refl

redis_post_coalesce_mget-Collects_example :
    Collects 64
      (omega arith)
      print_digit
      joined
      (count_line 64 (omega arith) print_digit 4 ++ [] ++ texts parts)
      (redis_post_coalesce_mget 64 print_digit true (λ i. true) 4 (seq_of parts) joined)
unfolding content
redis_post_coalesce_mget-Collects_example =
    redis_post_coalesce_mget-Collects 64 (omega arith) print_digit 4 parts joined tt (omega arith)
      parts-Carries

abbrev response_of : ℕ → Response
response_of n = record {
  message = sub_1;
  kind = rsp_redis_integer;
  integer = n;
  narg_start = 0;
  narg_end = 0;
}

abbrev fragment_7 : Fragment
fragment_7 = record { frag_id = 7; kind = req_redis_del; error = false; invalid = false }

abbrev deleted : List (Response × Fragment)
deleted = (response_of 1, fragment_7) ∷ (response_of 2, fragment_7) ∷ []

redis_post_coalesce-sums_example :
    let owner = coalesce_all deleted (record { nfrag_done = 0; integer = 0 }) in
    let out =
      redis_post_coalesce 64 print_digit false req_redis_del true
        (λ i. true)
        3
        owner.integer
        (0 ∷ 1 ∷ [])
        joined in
    (owner.nfrag_done ≡ 2)
    × (out.error ≡ false)
    × (out.closed ≡ false)
    × (content out.response.mhdr ≡ integer_line 64 (omega arith) print_digit 3 ++ content [])
redis_post_coalesce-sums_example =
    redis_post_coalesce-sums 64 (omega arith) print_digit deleted (λ i. true) 3 (0 ∷ 1 ∷ []) joined
      (refl, omega arith, (refl, omega arith, tt)) (omega arith)

redis_post_coalesce_mget-closes_example :
    (redis_post_coalesce_mget 64 print_digit true (λ i. true) 4 (0 ∷ 2 ∷ 1 ∷ []) joined).closed
    ≡ true
redis_post_coalesce_mget-closes_example =
    redis_post_coalesce_mget-closes 64 print_digit true (λ i. true) 4 (0 ∷ []) (1 ∷ []) 2 joined
      refl
