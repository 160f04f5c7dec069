-- ===== src/Redis/Fragment/Whole.antt =====
-- nc_redis.c: what the fragments of MGET and DEL hold.
use wx_cache_proxy.Base.{
  ℕ, ◌+◌, ◌%◌, ◌^◌, ◌≤◌, ◌<◌, ◌≡◌, ◌≢◌, ◌⊎◌, inl, inr, refl, sym, ap, ◌∙◌, Bool, true, false, List,
  [], ◌∷◌, ◌++◌, map, ◌==◌, length, length-append, All, arith, nc_ok,
}
use mathlib.Core.List.{append_assoc}
use wx_cache_proxy.Buffer.Content.{content, total}
use wx_cache_proxy.Buffer.Message.{msg_prepend_format, Message}
use wx_cache_proxy.Buffer.Append.{IsSound}
use wx_cache_proxy.Buffer.Adds.{Adds, msg_ensure_mbuf-some, ensured-Adds, msg_append-Adds}
use wx_cache_proxy.Parser.Kind.{MsgType, req_redis_mget, req_redis_del}
use wx_cache_proxy.Redis.Coalesce.Join.{prepend-ok}
use wx_cache_proxy.Redis.Keys.{Key, keys_text}
use wx_cache_proxy.Redis.RoundTrip.Many.{format_of, fragment_text}
use wx_cache_proxy.Fragment.{Sub, one_more, Division}
use wx_cache_proxy.Fragment.Divides.{Divides, divide-Divides, text}
use wx_cache_proxy.Fragment.Placed.{and_then-ok}
use wx_cache_proxy.Redis.Fragment.{
  crlf, Supply, append_bytes, append_line, redis_append_key, put, header_of, prepend_header,
  eat_lines, redis_fragment_argx, fragment_as, redis_fragment,
}

keys_text-append :
    (keys more : List Key) (rest : List ℕ)
    → keys_text (keys ++ more) rest ≡ keys_text keys [] ++ keys_text more rest
keys_text-append [] more rest = refl
keys_text-append ((digits, key) ∷ keys) more rest =
    let tail = keys_text keys [] in
    ap (λ l. b'$' ∷ (digits ++ 13 ∷ 10 ∷ (key ++ 13 ∷ 10 ∷ l))) (keys_text-append keys more rest)
    ∙ ap (λ l. b'$' ∷ (digits ++ 13 ∷ 10 ∷ l))
        (sym (append_assoc key (13 ∷ 10 ∷ tail) (keys_text more rest)))
    ∙ ap (◌∷◌ b'$')
        (sym (append_assoc digits (13 ∷ 10 ∷ (key ++ 13 ∷ 10 ∷ tail)) (keys_text more rest)))

map-append : {A B : Type 0} (f : A → B) (xs ys : List A) → map f (xs ++ ys) ≡ map f xs ++ map f ys
map-append f [] ys = refl
map-append f (x ∷ xs) ys = ap (◌∷◌ (f x)) (map-append f xs ys)

piece-append :
    (t digits key : List ℕ)
    → ((t ++ (b'$' ∷ (digits ++ crlf))) ++ key) ++ crlf ≡ t ++ keys_text ((digits, key) ∷ []) []
piece-append t digits key = simp append_assoc

header-append :
    (digits name rest : List ℕ) (ch : ℕ)
    → (b'*' ∷ (digits ++ 13 ∷ 10 ∷ b'$' ∷ ch ∷ 13 ∷ 10 ∷ (name ++ crlf))) ++ rest
      ≡ b'*' ∷ (digits ++ 13 ∷ 10 ∷ b'$' ∷ ch ∷ 13 ∷ 10 ∷ (name ++ 13 ∷ 10 ∷ rest))
header-append digits name rest ch = simp append_assoc

module _ (print : ℕ → List ℕ) where
  -- The keys with the digits of their lengths.
  abbrev pub measured : List (List ℕ) → List Key
  measured keys = map (λ key. (print (length key), key)) keys

  -- A whole fragment, with the number of its arguments.
  abbrev pub framed : MsgType → List (List ℕ) → List ℕ
  framed kind keys = fragment_text kind (print (one_more (length keys % 2 ^ 32))) (measured keys)

  -- At most eleven characters for a number of 32 bits.
  abbrev pub IsShort : Type 0
  IsShort = (n : ℕ) → n < 2 ^ 32 → length (print n) ≤ 11

module _ (offset : ℕ) (small : offset < 2 ^ 32) (print : ℕ → List ℕ) where
  record Carries (keys : List (List ℕ)) (sub : Sub) : Type 0 where
    sound : IsSound offset sub.message
    holds : text sub ≡ keys_text (measured print keys) []
    counted : sub.narg ≡ length keys % 2 ^ 32

  append_line-Adds :
      (source : List ℕ) (sub : Sub)
      → IsSound offset sub.message
      → length source ≤ offset
      → let done = append_line offset print true source sub in
        (done.0 ≡ nc_ok) × Adds offset source sub.message done.1.message × (done.1.narg ≡ sub.narg)
  unfolding append_line
  append_line-Adds source sub v l =
      let added = msg_append-Adds offset small sub.message source v l in (added.0, added.1, refl)

  append_bytes-Adds :
      (room : ℕ → Bool) (key : List ℕ) (sub : Sub)
      → ((n : ℕ) → room n ≡ true)
      → IsSound offset sub.message
      → length key ≤ offset
      → let done = append_bytes offset print true room key sub in
        (done.0 ≡ nc_ok) × Adds offset key sub.message done.1.message × (done.1.narg ≡ sub.narg)
  unfolding append_bytes
  append_bytes-Adds room key sub all v l =
      let (h, e) = msg_ensure_mbuf-some offset small sub.message.mhdr (length key) in
      rw (append_bytes, e, all (length sub.keys))
        (refl, ensured-Adds offset small sub.message key (length key) h v (omega arith) l e, refl)

  redis_append_key-Carries :
      (memory room : ℕ → Bool) (key : List ℕ) (keys : List (List ℕ)) (sub : Sub)
      → ((i : ℕ) → memory i ≡ true)
      → ((n : ℕ) → room n ≡ true)
      → 14 ≤ offset
      → IsShort print
      → length key ≤ offset
      → Carries keys sub
      → let done =
          redis_append_key offset print memory room (record sub { narg = one_more sub.narg }) key in
        (done.0 ≡ nc_ok) × Carries (keys ++ key ∷ []) done.1
  unfolding redis_append_key
  redis_append_key-Carries memory room key keys sub found all wide digits l c =
      let sub0 : Sub = record sub { narg = one_more sub.narg } in
      let line = b'$' ∷ (print (length key) ++ crlf) in
      let a = append_line-Adds line sub0 c.sound (
        omega
          (arith, digits (length key) (omega arith), length-append (print (length key)) crlf)) in
      let sub1 = (append_line offset print true line sub0).1 in
      let b = append_bytes-Adds room key sub1 all a.1.sound l in
      let sub2 = (append_bytes offset print true room key sub1).1 in
      let z = append_line-Adds crlf sub2 b.1.sound (omega arith) in
      rw
        (
          found 0,
          found 1,
          found 2,
          and_then-ok (append_line offset print true line sub0)
              (append_bytes offset print true room key) sub1 a.0,
          and_then-ok (append_bytes offset print true room key sub1)
              (append_line offset print true crlf) sub2 b.0,
        )
        (
          z.0,
          record {
            sound = z.1.sound;
            holds =
                z.1.adds
                ∙ ap (λ t. t ++ crlf)
                    (b.1.adds ∙ ap (λ t. t ++ key) (a.1.adds ∙ ap (λ t. t ++ line) c.holds))
                ∙ piece-append (keys_text (measured print keys) []) (print (length key)) key
                ∙ sym (
                    ap (λ ks. keys_text ks []) (map-append _ keys (key ∷ []))
                    ∙ keys_text-append (measured print keys) (measured print (key ∷ [])) []);
            counted = omega (arith, z.2, b.2, a.2, c.counted, length-append keys (key ∷ []));
          },
        )

  headed :
      (msg : Message) (narg ch : ℕ) (name : List ℕ)
      → length name ≤ 4
      → 25 ≤ offset
      → length (print narg) ≤ 11
      → let line = header_of offset print narg (ch, name) in
        let done = msg_prepend_format offset msg line true in
        (done.0 ≡ nc_ok) × (content done.1.mhdr ≡ line ++ content msg.mhdr)
  unfolding content
  headed msg narg ch name short wide digits =
      let line = header_of offset print narg (ch, name) in
      let long : length line ≡ length (print narg) + (length name + 9) = omega (
        arith,
        length-append (print narg) (13 ∷ 10 ∷ b'$' ∷ ch ∷ 13 ∷ 10 ∷ (name ++ crlf)),
        length-append name crlf,
      ) in
      rw (prepend-ok offset small print msg line (omega (arith, long)) (omega (arith, long)))
        (refl, refl)

  prepend_header-framed :
      (kind : MsgType) (keys : List (List ℕ)) (sub : Sub)
      → length (format_of kind).1 ≤ 4
      → 25 ≤ offset
      → IsShort print
      → Carries keys sub
      → let done = prepend_header offset print kind true sub in
        (done.0 ≡ nc_ok) × (text done.1 ≡ framed print kind keys)
  unfolding prepend_header
  prepend_header-framed kind keys sub short wide digits c =
      let narg = one_more sub.narg in
      let h =
        headed sub.message narg (format_of kind).0 (format_of kind).1 short wide
          (digits narg (omega arith)) in
      (
        h.0,
        h.1
            ∙ ap (λ t. header_of offset print narg (format_of kind) ++ t) c.holds
            ∙ header-append (print narg) (format_of kind).1 (keys_text (measured print keys) [])
                (format_of kind).0
            ∙ ap (λ n. fragment_text kind (print (one_more n)) (measured print keys)) c.counted,
      )

-- All memory that is asked for is found.
pub record IsAmple (supply : Supply) : Type 0 where
  pub tables : supply.tables ≡ true
  pub messages : (i : ℕ) → supply.messages i ≡ true
  pub buffers : (i k : ℕ) → supply.buffers i k ≡ true
  pub room : (n : ℕ) → supply.room n ≡ true
  pub headers : (i : ℕ) → supply.headers i ≡ true

module _ (offset : ℕ) (print : ℕ → List ℕ) (backend : List ℕ → ℕ) (supply : Supply)
    (small : offset < 2 ^ 32) (wide : 25 ≤ offset) (digits : IsShort print)
    (ample : IsAmple supply) where
  redis_fragment_argx-Divides :
      (kind : MsgType) (counter ncontinuum : ℕ) (keys : List (List ℕ)) (d : Division)
      → length (format_of kind).1 ≤ 4
      → All (λ key. length key ≤ offset) keys
      → All (λ key. backend key < ncontinuum) keys
      → d.frag_seq ≡ []
      → d.queue ≡ []
      → Divides backend
          (framed print kind)
          kind
          counter
          ncontinuum
          keys
          (redis_fragment_argx offset print backend supply kind 1 counter ncontinuum keys d)
  unfolding redis_fragment_argx put content total
  redis_fragment_argx-Divides kind counter ncontinuum keys d short good inside seq empty =
      rw ample.tables (
        divide-Divides supply.messages backend (put offset print supply 1)
          (λ i. prepend_header offset print kind (supply.headers i)) (λ key. length key ≤ offset)
          (Carries offset small print) (framed print kind) ample.messages
          (record {
            sound = record { buffers = tt; measured = omega arith };
            holds = refl;
            counted = omega arith;
          })
          (λ i key request keys sub l c.
            redis_append_key-Carries offset small print (supply.buffers i) supply.room key keys sub
              (ample.buffers i) ample.room (omega arith) digits l c)
          (λ i key keys sub c.
            rw (ample.headers i)
              (prepend_header-framed offset small print kind (key ∷ keys) sub short wide digits c))
          kind eat_lines counter ncontinuum keys d good inside seq empty)

  -- `redis_fragment` divides MGET and DEL of several keys, or of none. Where all memory is found,
  -- the division succeeds: for each server that has keys, in the order of the servers, there is one
  -- fragment, which holds the text of a request of exactly the keys that go to this server, in the
  -- order of the request; `frag_seq` says for each key its server; the fragments have the type of
  -- the request and the `frag_id` that it gets, one more than the last, modulo 2^64; `nfrag` is
  -- their number, modulo 2^32; and no index was behind the end of `sub_msgs`. The server of each
  -- key is below `ncontinuum`, the length of `sub_msgs`. A key fits a buffer, buffers are shorter
  -- than 2^32 and have room for 25 bytes, the platform prints a number of 32 bits with eleven
  -- characters at most, and before nothing is in `frag_seq` and in the queue.
  pub redis_fragment-Divides :
      (kind : MsgType) (counter ncontinuum : ℕ) (keys : List (List ℕ)) (d : Division)
      → (kind ≡ req_redis_mget) ⊎ (kind ≡ req_redis_del)
      → length keys ≢ 1
      → All (λ key. length key ≤ offset) keys
      → All (λ key. backend key < ncontinuum) keys
      → d.frag_seq ≡ []
      → d.queue ≡ []
      → Divides backend
          (framed print kind)
          kind
          counter
          ncontinuum
          keys
          (redis_fragment offset print backend supply kind counter ncontinuum keys d)
  unfolding redis_fragment fragment_as format_of
  redis_fragment-Divides kind counter ncontinuum keys d (inl e) several good inside seq empty =
      let many : (length keys == 1) ≡ false = ground arith in
      rw (many, e)
        (redis_fragment_argx-Divides req_redis_mget counter ncontinuum keys d (omega arith) good
          inside seq empty)
  redis_fragment-Divides kind counter ncontinuum keys d (inr e) several good inside seq empty =
      let many : (length keys == 1) ≡ false = ground arith in
      rw (many, e)
        (redis_fragment_argx-Divides req_redis_del counter ncontinuum keys d (omega arith) good
          inside seq empty)
