-- ===== src/Redis/Chunk.antt =====
-- nc_redis.c: the rounds of `redis_parse_req` on a buffer to which bytes are added.
use wx_cache_proxy.Parser.Bytes.{slice, byte_at, cr}
use wx_cache_proxy.Base.{
  ℕ, suc, ◌+◌, ◌-◌, ◌≤◌, ◌<◌, ◌≡◌, ◌⊎◌, refl, sym, ap, ap₂, ◌∙◌, Bool, false, not, List, ◌++◌,
  Option, none, some, leb, ◌==◌, if◌then◌else◌, length, length-append, arith, Bool-cases, inl, inr,
}
use wx_cache_proxy.Redis.Class.{redis_argeval}
use wx_cache_proxy.Redis.Request.{
  State, sw_start, sw_narg, sw_narg_lf, sw_req_type_len, sw_req_type_len_lf, sw_req_type,
  sw_req_type_lf, sw_key_len, sw_key_len_lf, sw_key, sw_key_lf, sw_arg1_len, sw_arg1_len_lf,
  sw_arg1, sw_arg1_lf, sw_arg2_len, sw_arg2_len_lf, sw_arg2, sw_arg2_lf, sw_arg3_len,
  sw_arg3_len_lf, sw_arg3, sw_arg3_lf, sw_argn_len, sw_argn_len_lf, sw_argn, sw_argn_lf, Request,
}
use wx_cache_proxy.Redis.Round.{
  token_or, accepts_count, read_type, read_key, skip_arg, read_count, round_in, round,
}
use wx_cache_proxy.Parser.Machine.{Move, go, error}
use wx_cache_proxy.Parser.Slice.{byte_at-append, slice-append}

-- A round at `p` on a buffer `buf` against the same round when `more` has been added: it is the
-- same round, or it runs into the end of `buf`, and then the round at that end, on the longer
-- buffer, does what the round at `p` does there.
module _ (mbuf_data : ℕ) (room : ℕ → Bool) (buf more : List ℕ) (p : ℕ) (lt : p < length buf) where
  abbrev short : List ℕ
  short = buf

  abbrev last : ℕ
  last = length buf

  abbrev whole : List ℕ
  whole = buf ++ more

  abbrev pub Agrees :
      (State → ℕ → ℕ → Request → Move Request) → Move Request → Move Request → Type 0
  Agrees at x y =
      (y ≡ x) ⊎ ((r : Request) × (x ≡ go last r) × (y ≡ at r.state last (byte_at whole last) r))

  abbrev pub next_round : State → ℕ → ℕ → Request → Move Request
  next_round s q ch r = round_in mbuf_data room (length whole) whole s q ch r

  later : (m : ℕ) → m < last → leb (length whole) m ≡ false
  later m h = ground (arith, length-append buf more)

  read_type-Agrees :
      (r : Request)
      → r.state ≡ sw_req_type
      → Agrees next_round
          (read_type mbuf_data room last short p r)
          (read_type mbuf_data room (length whole) whole p r)
  unfolding read_type round_in
  read_type-Agrees r e =
      let t = token_or r p in
      let m = t + r.rlen in
      elim (Bool-cases (leb last m)) [
        | inl h ↦ inr (
          record r { token = some t },
          rw (read_type, h) refl,
          sym (ap (λ k. next_round k last (byte_at whole last) (record r { token = some t })) e),
        )
        | inr h ↦
            let within : m < last = ground arith in
            inl (
              rw
                (
                  read_type,
                  h,
                  later m within,
                  byte_at-append buf more m within,
                  slice-append buf more t m (omega arith),
                )
                refl)
      ]

  read_key-Agrees :
      (r : Request)
      → r.state ≡ sw_key
      → Agrees next_round
          (read_key mbuf_data room last short p r)
          (read_key mbuf_data room (length whole) whole p r)
  unfolding read_key round_in
  read_key-Agrees r e =
      let t = token_or r p in
      let m = t + r.rlen in
      elim (Bool-cases (leb last m)) [
        | inl h ↦ inr (
          record r { token = some t },
          rw (read_key, h) refl,
          sym (ap (λ k. next_round k last (byte_at whole last) (record r { token = some t })) e),
        )
        | inr h ↦
            let within : m < last = ground arith in
            inl (rw (read_key, h, later m within, byte_at-append buf more m within) refl)
      ]

  -- The two sides of an argument's end, as seen from `p` and from the end of `buf`.
  end_again : (r : Request) → last ≤ p + r.rlen → last + (r.rlen - (last - p)) ≡ p + r.rlen
  end_again r h = omega arith

  rlen_again :
      (r : Request)
      → last ≤ p + r.rlen
      → r.rlen - (last - p) - (length whole - last) ≡ r.rlen - (length whole - p)
  rlen_again r h = omega (arith, length-append buf more)

  skip_arg-again :
      (next : State) (r : Request)
      → last ≤ p + r.rlen
      → skip_arg mbuf_data room (length whole) whole next p r
        ≡ skip_arg mbuf_data room
            (length whole)
            whole
            next
            last
            (record r { rlen = r.rlen - (last - p) })
  unfolding skip_arg
  skip_arg-again next r h =
      ap₂
        (λ m n.
          if leb (length whole) m
          then go (length whole) (record r { rlen = n })
          else if not (byte_at whole m == cr)
          then error
          else go (suc m) (record r { rlen = 0; state = next }))
        (sym (end_again r h)) (sym (rlen_again r h))

  skip_arg-Agrees :
      (next s : State) (r : Request)
      → ((q ch : ℕ) (x : Request)
          → x.kind ≡ r.kind
          → next_round r.state q ch x ≡ skip_arg mbuf_data room (length whole) whole next q x)
      → Agrees next_round
          (skip_arg mbuf_data room last short next p r)
          (skip_arg mbuf_data room (length whole) whole next p r)
  unfolding skip_arg
  skip_arg-Agrees next s r e =
      let m = p + r.rlen in
      elim (Bool-cases (leb last m)) [
        | inl h ↦ inr (
          record r { rlen = r.rlen - (last - p) },
          rw (skip_arg, h) refl,
          skip_arg-again next r (ground arith) ∙ sym (e last _ _ refl),
        )
        | inr h ↦
            let within : m < last = ground arith in
            inl (rw (skip_arg, h, later m within, byte_at-append buf more m within) refl)
      ]

  read_count-again :
      (t : ℕ) (r : Request)
      → last ≤ p + r.rlen
      → read_count mbuf_data room (length whole) whole t p r
        ≡ read_count mbuf_data room
            (length whole)
            whole
            t
            last
            (record r { token = some t; rlen = r.rlen - (last - p) })
  unfolding read_count
  read_count-again t r h =
      ap₂
        (λ m n.
          if leb (length whole) m
          then go (length whole) (record r { token = some t; rlen = n })
          else if not (byte_at whole m == cr)
          then error
          else if accepts_count (slice whole t m)
          then go (suc m) (record r { token = none; rlen = 0; state = sw_arg2_lf })
          else error)
        (sym (end_again r h)) (sym (rlen_again r h))

  read_count-Agrees :
      (t : ℕ) (r : Request)
      → ((q ch : ℕ) (x : Request)
          → x.kind ≡ r.kind
          → x.token ≡ some t
          → next_round r.state q ch x ≡ read_count mbuf_data room (length whole) whole t q x)
      → Agrees next_round
          (read_count mbuf_data room last short t p r)
          (read_count mbuf_data room (length whole) whole t p r)
  unfolding read_count
  read_count-Agrees t r e =
      let m = p + r.rlen in
      elim (Bool-cases (leb last m)) [
        | inl h ↦ inr (
          record r { token = some t; rlen = r.rlen - (last - p) },
          rw (read_count, h) refl,
          read_count-again t r (ground arith) ∙ sym (e last _ _ refl refl),
        )
        | inr h ↦
            let within : m < last = ground arith in
            inl (
              rw
                (
                  read_count,
                  h,
                  later m within,
                  byte_at-append buf more m within,
                  slice-append buf more t m (omega arith),
                )
                refl)
      ]

  arg2-Agrees :
      (ch : ℕ) (r : Request)
      → r.state ≡ sw_arg2
      → Agrees next_round
          (round_in mbuf_data room last short sw_arg2 p ch r)
          (next_round sw_arg2 p ch r)
  unfolding round_in
  arg2-Agrees ch r e = elim (Bool-cases (redis_argeval r.kind)) [
    | inl f ↦
        rw (round_in, f)
          (read_count-Agrees (token_or r p) r (λ q c x k t.
            ap (λ s. next_round s q c x) e
            ∙ ap
                (λ b.
                  if b
                  then read_count mbuf_data room (length whole) whole (token_or x q) q x
                  else skip_arg mbuf_data room (length whole) whole sw_arg2_lf q x)
                (ap redis_argeval k ∙ f)
            ∙ ap
                (λ (o : Option ℕ).
                  read_count mbuf_data room (length whole) whole (elim o [ none ↦ q | some z ↦ z ])
                    q x)
                t))
    | inr f ↦
        rw (round_in, f)
          (skip_arg-Agrees sw_arg2_lf sw_arg2 r (λ q c x k.
            ap (λ s. next_round s q c x) e
            ∙ ap
                (λ b.
                  if b
                  then read_count mbuf_data room (length whole) whole (token_or x q) q x
                  else skip_arg mbuf_data room (length whole) whole sw_arg2_lf q x)
                (ap redis_argeval k ∙ f)))
  ]

  round_in-Agrees :
      (s : State) (ch : ℕ) (r : Request)
      → r.state ≡ s
      → Agrees next_round (round_in mbuf_data room last short s p ch r) (next_round s p ch r)
  unfolding round_in
  round_in-Agrees sw_start ch r e = inl refl
  round_in-Agrees sw_narg ch r e = inl refl
  round_in-Agrees sw_narg_lf ch r e = inl refl
  round_in-Agrees sw_req_type_len ch r e = inl refl
  round_in-Agrees sw_req_type_len_lf ch r e = inl refl
  round_in-Agrees sw_req_type ch r e = read_type-Agrees r e
  round_in-Agrees sw_req_type_lf ch r e = inl refl
  round_in-Agrees sw_key_len ch r e = inl refl
  round_in-Agrees sw_key_len_lf ch r e = inl refl
  round_in-Agrees sw_key ch r e = read_key-Agrees r e
  round_in-Agrees sw_key_lf ch r e = inl refl
  round_in-Agrees sw_arg1_len ch r e = inl refl
  round_in-Agrees sw_arg1_len_lf ch r e = inl refl
  round_in-Agrees sw_arg1 ch r e =
      skip_arg-Agrees _ sw_arg1 r (λ q c x k. ap (λ s. next_round s q c x) e)
  round_in-Agrees sw_arg1_lf ch r e = inl refl
  round_in-Agrees sw_arg2_len ch r e = inl refl
  round_in-Agrees sw_arg2_len_lf ch r e = inl refl
  round_in-Agrees sw_arg2 ch r e = arg2-Agrees ch r e
  round_in-Agrees sw_arg2_lf ch r e = inl refl
  round_in-Agrees sw_arg3_len ch r e = inl refl
  round_in-Agrees sw_arg3_len_lf ch r e = inl refl
  round_in-Agrees sw_arg3 ch r e =
      skip_arg-Agrees _ sw_arg3 r (λ q c x k. ap (λ s. next_round s q c x) e)
  round_in-Agrees sw_arg3_lf ch r e = inl refl
  round_in-Agrees sw_argn_len ch r e = inl refl
  round_in-Agrees sw_argn_len_lf ch r e = inl refl
  round_in-Agrees sw_argn ch r e =
      skip_arg-Agrees _ sw_argn r (λ q c x k. ap (λ s. next_round s q c x) e)
  round_in-Agrees sw_argn_lf ch r e = inl refl

  pub round-Agrees :
      (r : Request)
      → Agrees next_round
          (round mbuf_data room last short p r)
          (round mbuf_data room (length whole) whole p r)
  unfolding round
  round-Agrees r =
      rw (byte_at-append buf more p lt) (round_in-Agrees r.state (byte_at buf p) r refl)
