-- ===== src/Redis/RoundTrip/Many.antt =====
-- nc_redis.c: a fragment of MGET or DEL, as `redis_fragment_argx` and `redis_append_key` print it, is
-- read by `redis_parse_req`.
use wx_cache_proxy.Parser.Bytes.{isdigit}
use wx_cache_proxy.Base.{
  ℕ, suc, ◌+◌, ◌-◌, ◌^◌, ◌≤◌, ◌<◌, ◌≡◌, ◌⊎◌, refl, sym, ap, subst, ◌∙◌, Bool, true, false, ◌||◌,
  List, [], ◌∷◌, ◌++◌, none, some, length, length-drop, All, arith, inl, inr,
}
use wx_cache_proxy.Parser.Kind.{MsgType, req_redis_mget, req_redis_del, req_redis_mset}
use wx_cache_proxy.Redis.Class.{
  redis_argz, redis_arg0, redis_arg1, redis_arg2, redis_arg3, redis_argn, redis_argx, redis_argeval,
}
use wx_cache_proxy.Redis.Command.{row}
use wx_cache_proxy.Redis.Lookup.{find_command, find_row, commands, icmp}
use wx_cache_proxy.Parser.Machine.{parse_ok, parse, finish}
use wx_cache_proxy.Redis.Request.{sw_start, sw_key_len, to, Request, unless_last, after_key}
use wx_cache_proxy.Redis.Parse.{request_parser, redis_parse_req}
use wx_cache_proxy.Redis.Bulk.Spec.{value}
use wx_cache_proxy.Redis.Keys.{Key, keys_text, spans, AreKeys}
use wx_cache_proxy.Redis.RoundTrip.{go_on, before_type, count-run, type-run, many-run}

-- The digit of the length and the name in the format of a fragment's first lines.
unfoldable pub format_of : MsgType → ℕ × List ℕ
format_of req_redis_mget = (b'4', b'm' ∷ b'g' ∷ b'e' ∷ b't' ∷ [])
format_of req_redis_del = (b'3', b'd' ∷ b'e' ∷ b'l' ∷ [])
format_of req_redis_mset = (b'4', b'm' ∷ b's' ∷ b'e' ∷ b't' ∷ [])
format_of _ = (0, [])

-- "*<narg>\r\n$<digit>\r\n<name>\r\n" and the keys, each behind the line of its length.
abbrev pub named_text : List ℕ → ℕ × List ℕ → List Key → List ℕ
named_text narg (ch, name) keys =
    b'*' ∷ (narg ++ 13 ∷ 10 ∷ b'$' ∷ ch ∷ 13 ∷ 10 ∷ (name ++ 13 ∷ 10 ∷ keys_text keys []))

abbrev pub fragment_text : MsgType → List ℕ → List Key → List ℕ
fragment_text kind narg keys = named_text narg (format_of kind) keys

-- Where the keys start: behind the number of arguments and the name.
abbrev pub keys_start : List ℕ → List ℕ → ℕ
keys_start narg name = suc (suc (suc (suc (1 + length narg)) + 4 + length name))

-- What the parser leaves for a request of these keys.
abbrev pub read_request : Request → MsgType → List ℕ → List ℕ → List Key → Request
read_request r kind narg name keys = record r {
  state = sw_start;
  token = none;
  rlen = 0;
  rnarg = 0;
  narg = suc (length keys);
  narg_start = 0;
  narg_end = 1 + length narg;
  kind = kind;
  keys = r.keys ++ spans (keys_start narg name) keys;
  noforward = r.noforward || false;
  quit = r.quit || false;
}

module _ (mbuf_data : ℕ) (room : ℕ → Bool) (small : mbuf_data ≤ 2 ^ 32)
    (roomy : (k : ℕ) → room k ≡ true) where
  named-reads :
      (full : Bool) (r : Request) (kind : MsgType) (narg word : List ℕ) (ch : ℕ) (name : List ℕ)
      (digits key : List ℕ) (keys : List Key)
      → isdigit ch ≡ true
      → ch - b'0' ≡ length name
      → 0 < length name
      → length name < 10
      → find_command name ≡ some (row word kind false false)
      → redis_argz kind ≡ false
      → redis_argeval kind ≡ false
      → ((q : Request) → q.kind ≡ kind → after_key q ≡ unless_last (to sw_key_len) q)
      → All (λ c. isdigit c ≡ true) narg
      → value 0 narg ≡ suc (suc (length keys))
      → suc (suc (length keys)) < 2 ^ 32
      → AreKeys mbuf_data ((digits, key) ∷ keys)
      → let text = named_text narg (ch, name) ((digits, key) ∷ keys) in
        redis_parse_req mbuf_data room full text 0 (record r { state = sw_start; token = none })
        ≡ parse_ok (length text) (read_request r kind narg name ((digits, key) ∷ keys))
  unfolding redis_parse_req parse finish
  named-reads full r kind narg word ch name digits key keys d len pos lim found z ev takes ds val
        fits good =
      let ks = (digits, key) ∷ keys in
      let text = named_text narg (ch, name) ks in
      let n = suc (length keys) in
      let c = suc 0 + length narg in
      let (counts, at_type) =
        count-run mbuf_data room text r 0 narg
          (b'$' ∷ ch ∷ 13 ∷ 10 ∷ (name ++ 13 ∷ 10 ∷ keys_text ks [])) ds (omega (arith, val))
          (omega (arith, val)) refl in
      let r1 = before_type mbuf_data room text r 0 c (suc n) in
      let (types, at_keys) =
        type-run mbuf_data room text r1 kind n (suc (suc c)) ch word name (keys_text ks []) d len
          pos lim found at_type in
      let (q, reads_all, within, rest) =
        many-run mbuf_data room text r1 kind (suc (suc (suc c) + 4 + length name)) digits key keys
          small roomy z ev takes refl good at_keys in
      let ended : suc q ≡ length text =
        omega (arith, within, length-drop (suc q) text, ap length rest) in
      let all =
        counts
        ∙ ap
            (λ k. go_on mbuf_data room text (suc (suc c)) (before_type mbuf_data room text r 0 c k))
            val
        ∙ types
        ∙ reads_all in
      ap (finish (request_parser mbuf_data room) full) all
      ∙ ap (λ k. parse_ok k (read_request r kind narg name ks)) ended

  -- A fragment of MGET or DEL is read back as it was printed: from the number of arguments, the
  -- name in the format of its type, and one key or more, each behind its length, `redis_parse_req`
  -- returns at the end of the text a request of that type, with that number of arguments, and with
  -- the start and the end of each key, in order, behind the keys that it had; the flags `noforward`
  -- and `quit` stay. The digits denote the numbers they stand for, 2^32 is not reached, each key is
  -- shorter than `mbuf_data`, which is at most 2^32, and there is memory for the keys.
  pub redis_parse_req-reads_keys :
      (full : Bool) (r : Request) (kind : MsgType) (narg digits key : List ℕ) (keys : List Key)
      → (kind ≡ req_redis_mget) ⊎ (kind ≡ req_redis_del)
      → All (λ c. isdigit c ≡ true) narg
      → value 0 narg ≡ suc (suc (length keys))
      → suc (suc (length keys)) < 2 ^ 32
      → AreKeys mbuf_data ((digits, key) ∷ keys)
      → let text = fragment_text kind narg ((digits, key) ∷ keys) in
        redis_parse_req mbuf_data room full text 0 (record r { state = sw_start; token = none })
        ≡ parse_ok
            (length text)
            (read_request r kind narg (format_of kind).1 ((digits, key) ∷ keys))
  unfolding format_of isdigit find_command find_row commands icmp redis_argz redis_argeval
      redis_arg0 redis_arg1 redis_arg2 redis_arg3 redis_argn redis_argx after_key
  redis_parse_req-reads_keys full r kind narg digits key keys (inl e) ds val fits good =
      subst
        (λ k.
          redis_parse_req mbuf_data room full (fragment_text k narg ((digits, key) ∷ keys)) 0
            (record r { state = sw_start; token = none })
          ≡ parse_ok (length (fragment_text k narg ((digits, key) ∷ keys)))
              (read_request r k narg (format_of k).1 ((digits, key) ∷ keys)))
        (sym e)
        (named-reads full r req_redis_mget narg (b'm' ∷ b'g' ∷ b'e' ∷ b't' ∷ []) b'4'
          (b'm' ∷ b'g' ∷ b'e' ∷ b't' ∷ []) digits key keys refl refl (omega arith) (omega arith)
          refl refl refl (λ q m. rw (after_key, m) refl) ds val fits good)
  redis_parse_req-reads_keys full r kind narg digits key keys (inr e) ds val fits good =
      subst
        (λ k.
          redis_parse_req mbuf_data room full (fragment_text k narg ((digits, key) ∷ keys)) 0
            (record r { state = sw_start; token = none })
          ≡ parse_ok (length (fragment_text k narg ((digits, key) ∷ keys)))
              (read_request r k narg (format_of k).1 ((digits, key) ∷ keys)))
        (sym e)
        (named-reads full r req_redis_del narg (b'd' ∷ b'e' ∷ b'l' ∷ []) b'3'
          (b'd' ∷ b'e' ∷ b'l' ∷ []) digits key keys refl refl (omega arith) (omega arith) refl refl
          refl (λ q m. rw (after_key, m) refl) ds val fits good)
