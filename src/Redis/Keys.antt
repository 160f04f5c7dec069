-- ===== src/Redis/Keys.antt =====
-- nc_redis.c: a request of keys, as `redis_append_key` prints them, read back by `redis_parse_req`.
use wx_cache_proxy.Parser.Bytes.{byte_at, isdigit, shift_digit}
use wx_cache_proxy.Base.{
  ℕ, suc, ◌+◌, ◌-◌, ◌*◌, ◌^◌, ◌≤◌, ◌<◌, ◌≡◌, refl, sym, ap, ◌∙◌, Bool, true, false, List, [], ◌∷◌,
  ◌++◌, none, some, leb, ltb, ◌==◌, length, drop, drop-drop, All, arith,
}
use mathlib.Core.List.{append_assoc}
use wx_cache_proxy.Parser.Machine.{go, Left, left_done}
use wx_cache_proxy.Redis.Request.{
  sw_key_len, sw_key_len_lf, sw_key, sw_key_lf, Request, read_length, read_lf, turn, to,
  unless_last, after_key,
}
use wx_cache_proxy.Redis.Round.{read_key, round, round_in}
use wx_cache_proxy.Redis.Parse.{request_parser}
use wx_cache_proxy.Redis.Forward.{IsReady}
use wx_cache_proxy.Redis.Whole.{request-IsParser}
use wx_cache_proxy.Parser.Loop.{reads, loop, loop-go, loop-done}
use wx_cache_proxy.Redis.Bulk.Moves.{drop_first}
use wx_cache_proxy.Redis.Bulk.Spec.{value, value_grows}

-- A key with the digits of its length, and the bytes of several of them in front of `rest`.
abbrev pub Key : Type 0
Key = List ℕ × List ℕ

abbrev pub keys_text : List Key → List ℕ → List ℕ
keys_text [] rest = rest
keys_text ((digits, key) ∷ keys) rest =
    b'$' ∷ (digits ++ 13 ∷ 10 ∷ (key ++ 13 ∷ 10 ∷ keys_text keys rest))

-- Where the first key's bytes start, if its length line starts at `p`.
abbrev pub key_start : ℕ → List ℕ → ℕ
key_start p digits = p + length digits + 3

-- Start and end of each key.
abbrev pub spans : ℕ → List Key → List (ℕ × ℕ)
spans p [] = []
spans p ((digits, key) ∷ keys) =
    let s = key_start p digits in (s, s + length key) ∷ spans (suc (suc (s + length key))) keys

-- The digits denote the length of the key, which the proxy takes.
abbrev pub AreKeys : ℕ → List Key → Type 0
AreKeys mbuf_data [] = Unit
AreKeys mbuf_data ((digits, key) ∷ keys) =
    (All (λ ch. isdigit ch ≡ true) digits
      × (value 0 digits ≡ length key)
      × (length key < mbuf_data))
    × AreKeys mbuf_data keys

module _ (mbuf_data : ℕ) (room : ℕ → Bool) (buf : List ℕ) where
  abbrev pub run : ℕ → Request → Left Request
  run p r = loop (request_parser mbuf_data room) IsReady (request-IsParser mbuf_data room) buf p r

  -- The parser before a key, in the middle of its length, and before its bytes.
  abbrev pub before_key : Request → ℕ → Request
  before_key r n = record r { state = sw_key_len; token = none; rlen = 0; rnarg = n }

  abbrev in_length : Request → ℕ → ℕ → ℕ → Request
  in_length r n t len = record r { state = sw_key_len; token = some t; rlen = len; rnarg = n }

  abbrev at_bytes : Request → ℕ → ℕ → Request
  at_bytes r n len = record r { state = sw_key; token = none; rlen = len; rnarg = n }

  pub step_go :
      (p q : ℕ) (r r' : Request)
      → p < length buf
      → IsReady p r
      → round mbuf_data room (length buf) buf p r ≡ go q r'
      → run p r ≡ run q r'
  step_go = loop-go (request_parser mbuf_data room) IsReady (request-IsParser mbuf_data room) buf

  digits-run :
      (r : Request) (n t len p : ℕ) (chs rest : List ℕ)
      → All (λ ch. isdigit ch ≡ true) chs
      → value len chs < 2 ^ 32
      → drop p buf ≡ chs ++ rest
      → (run p (in_length r n t len) ≡ run (p + length chs) (in_length r n t (value len chs)))
        × (drop (p + length chs) buf ≡ rest)
  unfolding round round_in read_length
  digits-run r n t len p [] rest d h e =
      let z : p + 0 ≡ p = omega arith in
      (ap (λ q. run q (in_length r n t len)) (sym z), ap (λ q. drop q buf) z ∙ e)
  digits-run r n t len p (ch ∷ chs) rest d h e =
      let at = reads buf p ch (chs ++ rest) e in
      let small : shift_digit len ch ≡ len * 10 + (ch - b'0') =
        omega (arith, value_grows (len * 10 + (ch - b'0')) chs, h) in
      let digit : isdigit (byte_at buf p) ≡ true = ap isdigit at.byte ∙ d.0 in
      let z : suc p + length chs ≡ p + suc (length chs) = omega arith in
      let (more, left) = digits-run r n t (len * 10 + (ch - b'0')) (suc p) chs rest d.1 h at.next in
      (
        step_go p (suc p) (in_length r n t len) (in_length r n t (len * 10 + (ch - b'0'))) at.within
              tt (rw (digit, at.byte, small) refl)
            ∙ more
            ∙ ap (λ q. run q (in_length r n t (value len (ch ∷ chs)))) z,
        ap (λ q. drop q buf) (sym z) ∙ left,
      )

  length-run :
      (r : Request) (n p : ℕ) (chs rest : List ℕ)
      → All (λ ch. isdigit ch ≡ true) chs
      → value 0 chs < 2 ^ 32
      → value 0 chs < mbuf_data
      → drop p buf ≡ b'$' ∷ (chs ++ 13 ∷ 10 ∷ rest)
      → (run p (before_key r (suc n)) ≡ run (p + length chs + 3) (at_bytes r n (value 0 chs)))
        × (drop (p + length chs + 3) buf ≡ rest)
  unfolding round round_in read_length read_lf turn isdigit
  length-run r n p chs rest d h fits e =
      let dollar = reads buf p b'$' (chs ++ 13 ∷ 10 ∷ rest) e in
      let (digits, after) = digits-run r (suc n) p 0 (suc p) chs (13 ∷ 10 ∷ rest) d h dollar.next in
      let q = suc p + length chs in
      let len = value 0 chs in
      let back = reads buf q 13 (10 ∷ rest) after in
      let feed = reads buf (suc q) 10 rest back.next in
      let less : suc n - 1 ≡ n = omega arith in
      let some_left : (suc n == 0) ≡ false = ground arith in
      let short : ltb len mbuf_data ≡ true = ground arith in
      let z : suc (suc q) ≡ p + length chs + 3 = omega arith in
      let waits = record r { state = sw_key_len_lf; token = none; rlen = len; rnarg = n } in
      (
        step_go p (suc p) (before_key r (suc n)) (in_length r (suc n) p 0) dollar.within tt
              (rw dollar.byte refl)
            ∙ digits
            ∙ step_go q (suc q) (in_length r (suc n) p len) waits back.within tt
                (rw (back.byte, short, some_left, less) refl)
            ∙ step_go (suc q) (suc (suc q)) waits (at_bytes r n len) feed.within refl
                (rw feed.byte refl)
            ∙ ap (λ i. run i (at_bytes r n len)) z,
        ap (λ i. drop i buf) (sym z) ∙ feed.next,
      )

  -- The parser behind the bytes of a key that start at `p`.
  abbrev after_bytes : Request → ℕ → ℕ → ℕ → Request
  after_bytes r n p len = record r {
    state = sw_key_lf;
    token = none;
    rlen = 0;
    rnarg = n;
    keys = r.keys ++ (p, p + len) ∷ [];
  }

  bytes-run :
      (r : Request) (n p : ℕ) (key rest : List ℕ)
      → room (length r.keys) ≡ true
      → drop p buf ≡ key ++ 13 ∷ 10 ∷ rest
      → (run p (at_bytes r n (length key))
          ≡ run (suc (p + length key)) (after_bytes r n p (length key)))
        × (drop (suc (p + length key)) buf ≡ 10 ∷ rest)
  unfolding round round_in read_key
  bytes-run r n p key rest roomy e =
      let m = p + length key in
      let at = reads buf m 13 (10 ∷ rest) (
        sym (drop-drop p (length key) buf)
        ∙ ap (drop (length key)) e
        ∙ drop_first key (13 ∷ 10 ∷ rest)) in
      let ahead : leb (length buf) m ≡ false = ground (arith, at.within) in
      (
        step_go p (suc m) (at_bytes r n (length key)) (after_bytes r n p (length key))
            (omega (arith, at.within)) (omega arith) (rw (ahead, at.byte, roomy) refl),
        at.next,
      )

  -- The parser behind all keys.
  abbrev pub after_keys : Request → ℕ → List Key → Request
  after_keys r p keys = record r {
    state = sw_key_lf;
    token = none;
    rlen = 0;
    rnarg = 0;
    keys = r.keys ++ spans p keys;
  }

  -- A command that takes one key after another.
  abbrev pub TakesKeys : Request → Type 0
  TakesKeys r = (q : Request) → q.kind ≡ r.kind → after_key q ≡ unless_last (to sw_key_len) q

  key-run :
      (r : Request) (n p : ℕ) (digits key rest : List ℕ)
      → mbuf_data ≤ 2 ^ 32
      → ((k : ℕ) → room k ≡ true)
      → AreKeys mbuf_data ((digits, key) ∷ [])
      → drop p buf ≡ b'$' ∷ (digits ++ 13 ∷ 10 ∷ (key ++ 13 ∷ 10 ∷ rest))
      → let s = key_start p digits in
        (run p (before_key r (suc n)) ≡ run (suc (s + length key)) (after_bytes r n s (length key)))
        × (drop (suc (s + length key)) buf ≡ 10 ∷ rest)
  key-run r n p digits key rest m roomy ((ds, e, l), u) at =
      let s = key_start p digits in
      let (line, behind) =
        length-run r n p digits (key ++ 13 ∷ 10 ∷ rest) ds (omega (arith, e)) (omega (arith, e))
          at in
      let (bytes, left) = bytes-run r n s key rest (roomy (length r.keys)) behind in
      (line ∙ ap (λ k. run s (at_bytes r n k)) e ∙ bytes, left)

  pub keys-run :
      (r : Request) (p : ℕ) (digits key : List ℕ) (keys : List Key) (rest : List ℕ)
      → mbuf_data ≤ 2 ^ 32
      → ((k : ℕ) → room k ≡ true)
      → TakesKeys r
      → AreKeys mbuf_data ((digits, key) ∷ keys)
      → drop p buf ≡ keys_text ((digits, key) ∷ keys) rest
      → (q : ℕ) × (run p (before_key r (suc (length keys)))
          ≡ left_done q (after_keys r p ((digits, key) ∷ keys)))
        × (q < length buf)
        × (drop (suc q) buf ≡ rest)
  unfolding round round_in read_lf turn
  keys-run r p digits key [] rest m roomy takes good at =
      let s = key_start p digits in
      let q = suc (s + length key) in
      let (runs, left) = key-run r 0 p digits key rest m roomy good at in
      let feed = reads buf q 10 rest left in
      let r1 = after_bytes r 0 s (length key) in
      (
        q,
        runs
            ∙ loop-done (request_parser mbuf_data room) IsReady (request-IsParser mbuf_data room)
                buf q q r1 r1 feed.within refl (rw (takes r1 refl, feed.byte) refl),
        feed.within,
        feed.next,
      )
  keys-run r p digits key ((ds, k) ∷ keys) rest m roomy takes good at =
      let s = key_start p digits in
      let q = suc (s + length key) in
      let n = length ((ds, k) ∷ keys) in
      let (runs, left) =
        key-run r n p digits key (keys_text ((ds, k) ∷ keys) rest) m roomy (good.0, tt) at in
      let feed = reads buf q 10 (keys_text ((ds, k) ∷ keys) rest) left in
      let r1 = after_bytes r n s (length key) in
      let r2 = record r { keys = r.keys ++ (s, s + length key) ∷ [] } in
      let some_left : (n == 0) ≡ false = ground arith in
      let (z, more, within, next) =
        keys-run r2 (suc q) ds k keys rest m roomy takes good.1 feed.next in
      (
        z,
        runs
            ∙ step_go q (suc q) r1 (before_key r2 n) feed.within refl
                (rw (takes r1 refl, feed.byte, some_left) refl)
            ∙ more
            ∙ ap
                (λ l.
                  left_done z
                    (record r { state = sw_key_lf; token = none; rlen = 0; rnarg = 0; keys = l }))
                (append_assoc r.keys ((s, s + length key) ∷ []) (spans (suc q) ((ds, k) ∷ keys))),
        within,
        next,
      )
