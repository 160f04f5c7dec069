-- ===== src/Fragment/Tests.antt =====
-- nc_redis.c and nc_memcache.c: the division of requests of several keys, on small inputs.
use wx_cache_proxy.Base.{
  ℕ, ◌%◌, ◌≡◌, refl, ◌+◌, true, false, List, [], ◌∷◌, none, inl, length, arith,
}
use wx_cache_proxy.Buffer.Message.{no_message}
use wx_cache_proxy.Parser.Kind.{req_mc_get, req_redis_mget}
use wx_cache_proxy.Fragment.{Division}
use wx_cache_proxy.Fragment.Divides.{Divides}
use wx_cache_proxy.Memcache.Class.{memcache_retrieval}
use wx_cache_proxy.Memcache.Fragment as McFragment
use wx_cache_proxy.Memcache.Fragment.{memcache_fragment}
use wx_cache_proxy.Memcache.Fragment.Whole.{line, memcache_fragment-Divides}
use wx_cache_proxy.Redis.Fragment as RedisFragment
use wx_cache_proxy.Redis.Fragment.{redis_fragment}
use wx_cache_proxy.Redis.Fragment.Whole.{framed, redis_fragment-Divides}

-- Three keys; the server of a key is told by its length.
abbrev keys : List (List ℕ)
keys = (b'a' ∷ []) ∷ (b'b' ∷ b'c' ∷ []) ∷ (b'd' ∷ []) ∷ []

abbrev by_length : List ℕ → ℕ
by_length key = length key % 3

abbrev undivided : Division
undivided = record {
  request = no_message;
  subs = λ i. none;
  frag_seq = [];
  frag_id = 0;
  nfrag = 0;
  queue = [];
  overrun = false;
}

abbrev mc_supply : McFragment.Supply
mc_supply = record {
  tables = true;
  messages = λ i. true;
  buffers = λ i. true;
  room = λ n. true;
  headers = λ i. true;
  tails = λ i. true;
}

abbrev redis_supply : RedisFragment.Supply
redis_supply = record {
  tables = true;
  messages = λ i. true;
  buffers = λ i k. true;
  room = λ n. true;
  headers = λ i. true;
}

-- A single digit, as the platform prints it.
abbrev print_digit : ℕ → List ℕ
print_digit n = (b'0' + n) ∷ []

get_IsRetrieval : memcache_retrieval req_mc_get ≡ true
unfolding memcache_retrieval
get_IsRetrieval = refl

memcache_fragment-Divides_example :
    Divides by_length
      (line req_mc_get)
      req_mc_get
      6
      3
      keys
      (memcache_fragment 512 by_length mc_supply req_mc_get 6 3 keys undivided)
memcache_fragment-Divides_example =
    memcache_fragment-Divides 512 by_length mc_supply req_mc_get 6 3 keys undivided (omega arith)
      (omega arith) get_IsRetrieval (omega arith) (omega arith)
      (record {
        tables = refl;
        messages = λ i. refl;
        buffers = λ i. refl;
        room = λ n. refl;
        headers = λ i. refl;
        tails = λ i. refl;
      })
      refl refl

redis_fragment-Divides_example :
    Divides by_length
      (framed print_digit req_redis_mget)
      req_redis_mget
      6
      3
      keys
      (redis_fragment 512 print_digit by_length redis_supply req_redis_mget 6 3 keys undivided)
redis_fragment-Divides_example =
    redis_fragment-Divides 512 print_digit by_length redis_supply (omega arith) (omega arith)
      (λ n l. omega arith)
      (record {
        tables = refl;
        messages = λ i. refl;
        buffers = λ i k. refl;
        room = λ n. refl;
        headers = λ i. refl;
      })
      req_redis_mget 6 3 keys undivided (inl refl) (omega arith) (omega arith) (omega arith) refl
      refl
