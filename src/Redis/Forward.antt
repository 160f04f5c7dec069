-- ===== src/Redis/Forward.antt =====
-- nc_redis.c: each round of `redis_parse_req` and the positions in the buffer.
use wx_cache_proxy.Parser.Bytes.{slice, byte_at, cr, lf, isdigit}
use wx_cache_proxy.Base.{
  ℕ, suc, ◌+◌, ◌-◌, ◌≤◌, ◌<◌, ◌≡◌, refl, sym, subst, Bool, true, false, not, List, none, some, leb,
  ◌==◌, if◌then◌else◌, length, arith, Option-cases, inl, inr,
}
use wx_cache_proxy.Redis.Class.{redis_argeval}
use wx_cache_proxy.Redis.Command.{row}
use wx_cache_proxy.Redis.Lookup.{find_command}
use wx_cache_proxy.Redis.Request.{
  State, sw_start, sw_narg, sw_narg_lf, sw_req_type_len, sw_req_type_len_lf, sw_req_type,
  sw_req_type_lf, sw_key_len, sw_key_len_lf, sw_key, sw_key_lf, sw_arg1_len, sw_arg1_len_lf,
  sw_arg1, sw_arg1_lf, sw_arg2_len, sw_arg2_len_lf, sw_arg2, sw_arg2_lf, sw_arg3_len,
  sw_arg3_len_lf, sw_arg3, sw_arg3_lf, sw_argn_len, sw_argn_len_lf, sw_argn, sw_argn_lf, Request,
  Turn, to, ends, fails, turn, read_narg, read_length, read_lf,
}
use wx_cache_proxy.Redis.Round.{
  token_or, accepts_count, read_type, read_key, skip_arg, read_count, round_in, round,
}
use wx_cache_proxy.Parser.Machine.{Move, go, done}

-- What holds of the parser at a position: a token is kept in the states that read a length or
-- look for the end of a name, and there it stands no further than the name's end lies ahead.
abbrev pub Ready : State → ℕ → Request → Type 0
Ready sw_start p r = Unit
Ready sw_narg p r = Unit
Ready sw_req_type_len p r = Unit
Ready sw_req_type p r = p ≤ token_or r p + r.rlen
Ready sw_key_len p r = Unit
Ready sw_key p r = p ≤ token_or r p + r.rlen
Ready sw_arg1_len p r = Unit
Ready sw_arg2_len p r = Unit
Ready sw_arg2 p r = redis_argeval r.kind ≡ false → r.token ≡ none
Ready sw_arg3_len p r = Unit
Ready sw_argn_len p r = Unit
Ready _ p r = r.token ≡ none

abbrev pub IsReady : ℕ → Request → Type 0
IsReady p r = Ready r.state p r

ready_name : (p : ℕ) (r : Request) → r.token ≡ none → p ≤ token_or r p + r.rlen
ready_name p r e = ground arith

-- Without a token nothing can be wrong.
pub Ready-none : (s : State) (p : ℕ) (r : Request) → r.token ≡ none → Ready s p r
Ready-none sw_start p r e = tt
Ready-none sw_narg p r e = tt
Ready-none sw_narg_lf p r e = e
Ready-none sw_req_type_len p r e = tt
Ready-none sw_req_type_len_lf p r e = e
Ready-none sw_req_type p r e = ready_name p r e
Ready-none sw_req_type_lf p r e = e
Ready-none sw_key_len p r e = tt
Ready-none sw_key_len_lf p r e = e
Ready-none sw_key p r e = ready_name p r e
Ready-none sw_key_lf p r e = e
Ready-none sw_arg1_len p r e = tt
Ready-none sw_arg1_len_lf p r e = e
Ready-none sw_arg1 p r e = e
Ready-none sw_arg1_lf p r e = e
Ready-none sw_arg2_len p r e = tt
Ready-none sw_arg2_len_lf p r e = e
Ready-none sw_arg2 p r e = λ h. e
Ready-none sw_arg2_lf p r e = e
Ready-none sw_arg3_len p r e = tt
Ready-none sw_arg3_len_lf p r e = e
Ready-none sw_arg3 p r e = e
Ready-none sw_arg3_lf p r e = e
Ready-none sw_argn_len p r e = tt
Ready-none sw_argn_len_lf p r e = e
Ready-none sw_argn p r e = e
Ready-none sw_argn_lf p r e = e

-- A round that goes on goes forward, stays within the buffer and keeps the parser
-- ready; the message ends within the buffer too.
abbrev pub Advances : ℕ → ℕ → Move Request → Type 0
Advances last p (go q r) = (p < q) × (q ≤ last) × IsReady q r
Advances last p (done q r) = (p ≤ q) × (q < last)
Advances last p _ = Unit

Advances-if :
    (last p : ℕ) (b : Bool) (x y : Move Request)
    → (b ≡ true → Advances last p x)
    → (b ≡ false → Advances last p y)
    → Advances last p (if b then x else y)
Advances-if last p true x y h k = h refl
Advances-if last p false x y h k = k refl

module _ (last p : ℕ) (lt : p < last) where
  read_narg-Advances :
      (ch : ℕ) (r : Request)
      → ((q : ℕ) (r' : Request) → Ready r.state q r')
      → Advances last p (read_narg p ch r)
  unfolding read_narg
  read_narg-Advances ch r keeps = elim (Option-cases r.token) [
    | inl e ↦ rw (read_narg, e) (omega arith, omega arith, tt)
    | inr (t, e) ↦
        rw (read_narg, e)
          (Advances-if last p (isdigit ch) _ _ (λ d. (omega arith, omega arith, keeps (suc p) _))
            (λ d.
              Advances-if last p (ch == cr) _ _
                (λ c.
                  Advances-if last p (r.rnarg == 0) _ _ (λ z. tt)
                    (λ z. (omega arith, omega arith, refl)))
                (λ c. tt)))
  ]

  read_length-Advances :
      (fits : ℕ → Bool) (next : State) (ch : ℕ) (r : Request)
      → ((q : ℕ) (r' : Request) → Ready r.state q r')
      → Advances last p (read_length fits next p ch r)
  unfolding read_length
  read_length-Advances fits next ch r keeps = elim (Option-cases r.token) [
    | inl e ↦
        rw (read_length, e)
          (Advances-if last p (ch == b'$') _ _ (λ d. (omega arith, omega arith, keeps (suc p) _))
            (λ d. tt))
    | inr (t, e) ↦
        rw (read_length, e)
          (Advances-if last p (isdigit ch) _ _ (λ d. (omega arith, omega arith, keeps (suc p) _))
            (λ d.
              Advances-if last p (ch == cr) _ _
                (λ c.
                  Advances-if last p (fits t) _ _
                    (λ z. (omega arith, omega arith, Ready-none next (suc p) _ refl)) (λ z. tt))
                (λ c. tt)))
  ]

  read_lf-Advances :
      (t : Turn) (ch : ℕ) (r : Request) → r.token ≡ none → Advances last p (read_lf t p ch r)
  unfolding read_lf turn
  read_lf-Advances (to s) ch r e =
      Advances-if last p (ch == lf) _ _
        (λ d. (omega arith, omega arith, Ready-none s (suc p) (record r { state = s }) e)) (λ d. tt)
  read_lf-Advances ends ch r e =
      Advances-if last p (ch == lf) _ _ (λ d. (omega arith, lt)) (λ d. tt)
  read_lf-Advances fails ch r e = Advances-if last p (ch == lf) _ _ (λ d. tt) (λ d. tt)

module _ (mbuf_data : ℕ) (room : ℕ → Bool) (last : ℕ) (buf : List ℕ) (p : ℕ) (lt : p < last) where
  read_type-Advances :
      (r : Request)
      → r.state ≡ sw_req_type
      → p ≤ token_or r p + r.rlen
      → Advances last p (read_type mbuf_data room last buf p r)
  unfolding read_type
  read_type-Advances r e ready =
      let t = token_or r p in
      let m = t + r.rlen in
      Advances-if last p (leb last m) _ _
        (λ h. (
          lt,
          omega arith,
          subst (λ s. Ready s last (record r { token = some t })) (sym e) (ground arith),
        ))
        (λ h.
          let within : m < last = ground arith in
          Advances-if last p (not (byte_at buf m == cr)) _ _ (λ c. tt)
            (λ c. elim (Option-cases (find_command (slice buf t m))) [
              | inl none_found ↦ rw none_found tt
              | inr (row name kind noforward quit, found) ↦
                  rw found (omega arith, omega arith, refl)
            ]))

  read_key-Advances :
      (r : Request)
      → r.state ≡ sw_key
      → p ≤ token_or r p + r.rlen
      → Advances last p (read_key mbuf_data room last buf p r)
  unfolding read_key
  read_key-Advances r e ready =
      let t = token_or r p in
      let m = t + r.rlen in
      Advances-if last p (leb last m) _ _
        (λ h. (
          lt,
          omega arith,
          subst (λ s. Ready s last (record r { token = some t })) (sym e) (ground arith),
        ))
        (λ h.
          let within : m < last = ground arith in
          Advances-if last p (not (byte_at buf m == cr)) _ _ (λ c. tt)
            (λ c.
              Advances-if last p (room (length r.keys)) _ _ (λ z. (omega arith, omega arith, refl))
                (λ z. tt)))

  skip_arg-Advances :
      (next : State) (r : Request)
      → r.token ≡ none
      → Advances last p (skip_arg mbuf_data room last buf next p r)
  unfolding skip_arg
  skip_arg-Advances next r e =
      let m = p + r.rlen in
      Advances-if last p (leb last m) _ _
        (λ h.
          (lt, omega arith, Ready-none r.state last (record r { rlen = r.rlen - (last - p) }) e))
        (λ h.
          let within : m < last = ground arith in
          Advances-if last p (not (byte_at buf m == cr)) _ _ (λ c. tt)
            (λ c. (
              omega arith,
              omega arith,
              Ready-none next (suc m) (record r { rlen = 0; state = next }) e,
            )))

  read_count-Advances :
      (t : ℕ) (r : Request)
      → r.state ≡ sw_arg2
      → redis_argeval r.kind ≡ true
      → Advances last p (read_count mbuf_data room last buf t p r)
  unfolding read_count
  read_count-Advances t r e eval =
      let m = p + r.rlen in
      Advances-if last p (leb last m) _ _
        (λ h. (
          lt,
          omega arith,
          subst (λ s. Ready s last (record r { token = some t; rlen = r.rlen - (last - p) }))
              (sym e) (λ f. cc),
        ))
        (λ h.
          let within : m < last = ground arith in
          Advances-if last p (not (byte_at buf m == cr)) _ _ (λ c. tt)
            (λ c.
              Advances-if last p (accepts_count (slice buf t m)) _ _
                (λ z. (omega arith, omega arith, refl)) (λ z. tt)))

  -- Every state at which `Ready` asks for nothing.
  free :
      (s : State) (r : Request)
      → r.state ≡ s
      → ((q : ℕ) (r' : Request) → Ready s q r')
      → (q : ℕ) (r' : Request) → Ready r.state q r'
  free s r e h = subst (λ k. (q : ℕ) (r' : Request) → Ready k q r') (sym e) h

  round_in-Advances :
      (s : State) (ch : ℕ) (r : Request)
      → r.state ≡ s
      → Ready s p r
      → Advances last p (round_in mbuf_data room last buf s p ch r)
  unfolding round_in
  round_in-Advances sw_start ch r e h =
      read_narg-Advances last p lt ch r (free sw_start r e (λ q r'. tt))
  round_in-Advances sw_narg ch r e h =
      read_narg-Advances last p lt ch r (free sw_narg r e (λ q r'. tt))
  round_in-Advances sw_narg_lf ch r e h = read_lf-Advances last p lt _ ch r h
  round_in-Advances sw_req_type_len ch r e h =
      read_length-Advances last p lt _ _ ch r (free sw_req_type_len r e (λ q r'. tt))
  round_in-Advances sw_req_type_len_lf ch r e h = read_lf-Advances last p lt _ ch r h
  round_in-Advances sw_req_type ch r e h = read_type-Advances r e h
  round_in-Advances sw_req_type_lf ch r e h = read_lf-Advances last p lt _ ch r h
  round_in-Advances sw_key_len ch r e h =
      read_length-Advances last p lt _ _ ch r (free sw_key_len r e (λ q r'. tt))
  round_in-Advances sw_key_len_lf ch r e h = read_lf-Advances last p lt _ ch r h
  round_in-Advances sw_key ch r e h = read_key-Advances r e h
  round_in-Advances sw_key_lf ch r e h = read_lf-Advances last p lt _ ch r h
  round_in-Advances sw_arg1_len ch r e h =
      read_length-Advances last p lt _ _ ch r (free sw_arg1_len r e (λ q r'. tt))
  round_in-Advances sw_arg1_len_lf ch r e h = read_lf-Advances last p lt _ ch r h
  round_in-Advances sw_arg1 ch r e h = skip_arg-Advances _ r h
  round_in-Advances sw_arg1_lf ch r e h = read_lf-Advances last p lt _ ch r h
  round_in-Advances sw_arg2_len ch r e h =
      read_length-Advances last p lt _ _ ch r (free sw_arg2_len r e (λ q r'. tt))
  round_in-Advances sw_arg2_len_lf ch r e h = read_lf-Advances last p lt _ ch r h
  round_in-Advances sw_arg2 ch r e h =
      Advances-if last p (redis_argeval r.kind) _ _ (λ f. read_count-Advances (token_or r p) r e f)
        (λ f. skip_arg-Advances sw_arg2_lf r (h f))
  round_in-Advances sw_arg2_lf ch r e h = read_lf-Advances last p lt _ ch r h
  round_in-Advances sw_arg3_len ch r e h =
      read_length-Advances last p lt _ _ ch r (free sw_arg3_len r e (λ q r'. tt))
  round_in-Advances sw_arg3_len_lf ch r e h = read_lf-Advances last p lt _ ch r h
  round_in-Advances sw_arg3 ch r e h = skip_arg-Advances _ r h
  round_in-Advances sw_arg3_lf ch r e h = read_lf-Advances last p lt _ ch r h
  round_in-Advances sw_argn_len ch r e h =
      read_length-Advances last p lt _ _ ch r (free sw_argn_len r e (λ q r'. tt))
  round_in-Advances sw_argn_len_lf ch r e h = read_lf-Advances last p lt _ ch r h
  round_in-Advances sw_argn ch r e h = skip_arg-Advances _ r h
  round_in-Advances sw_argn_lf ch r e h = read_lf-Advances last p lt _ ch r h

  pub round-Advances :
      (r : Request) → IsReady p r → Advances last p (round mbuf_data room last buf p r)
  unfolding round
  round-Advances r ready = round_in-Advances r.state (byte_at buf p) r refl ready
