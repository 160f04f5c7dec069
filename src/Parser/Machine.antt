-- ===== src/Parser/Machine.antt =====
-- nc_redis.c and nc_memcache.c: what the loops of `redis_parse_req`, `redis_parse_rsp`,
-- `memcache_parse_req` and `memcache_parse_rsp` have in common: the loop over the bytes up to
-- `b->last`, its labels, and the choice of a result behind it.
use wx_cache_proxy.Base.{
  ℕ, zero, suc, ◌-◌, ◌≤◌, ◌<◌, ◌≡◌, ◌⊎◌, Bool, true, false, List, ◌++◌, Option, none, some, ltb,
  if◌then◌else◌, length,
}

-- What a round does: go on at a position, or leave by one of the labels. After an error the message is
-- given up, and what its fields hold then is left out.
pub data Move (R : Type 0) : Type 0 where
  go : ℕ → R → Move R
  done : ℕ → R → Move R
  error enomem : Move R

-- How the loop is left; `more` is its end by the test of `p < b->last`, with the value of `p`. After
-- `starved` it is not left yet: the fuel has run out on it.
pub data Left (R : Type 0) : Type 0 where
  more left_done : ℕ → R → Left R
  left_error left_enomem starved : Left R

-- `msg_parse_result_t`, with `r->pos` where the function sets it. `EINVAL` is set on `parse_error`,
-- and nothing if there is no memory for a key. `parse_starved` is no result of the source: the fuel
-- was not enough for the loop.
pub data Result (R : Type 0) : Type 0 where
  parse_ok parse_repair parse_again : ℕ → R → Result R
  parse_error parse_enomem parse_starved : Result R

-- One parser: a round at a position of the buffer, `r->token`, the assignment `r->token = NULL`, and
-- what the label `done` sets. `rounds` are enough for so many bytes that are left.
pub record Parser (R : Type 0) : Type 0 where
  pub step : List ℕ → ℕ → R → Move R
  pub token : R → Option ℕ
  pub forget : R → R
  pub restart : R → R
  pub rounds : ℕ → R → ℕ

unfoldable pub leave : {R : Type 0} → (ℕ → R → Left R) → Move R → Left R
leave next (go q r) = next q r
leave next (done q r) = left_done q r
leave next error = left_error
leave next enomem = left_enomem

-- The fuel that is enough.
abbrev pub cost : {R : Type 0} → Parser R → List ℕ → ℕ → R → ℕ
cost m buf p r = m.rounds (length buf - p) r

-- The first number is the fuel.
unfoldable pub scan : {R : Type 0} → Parser R → ℕ → List ℕ → ℕ → R → Left R
scan m zero buf p r = elim (ltb p (length buf)) [ false ↦ more p r | true ↦ starved ]
scan m (suc f) buf p r = elim (ltb p (length buf)) [
  | false ↦ more p r
  | true ↦ leave (scan m f buf) (m.step buf p r)
]

-- `full` says that `b->last` is `b->end`.
unfoldable pub finish : {R : Type 0} → Parser R → Bool → Left R → Result R
finish m full (more p r) = elim (m.token r) [
  | none ↦ parse_again p r
  | some t ↦ if full then parse_repair t (m.forget r) else parse_again p r
]
finish m full (left_done p r) = parse_ok (suc p) (m.restart r)
finish m full left_error = parse_error
finish m full left_enomem = parse_enomem
finish m full starved = parse_starved

-- `buf` are the bytes of the last buffer of the message up to `b->last`, and `pos` is `r->pos`.
unfoldable pub parse : {R : Type 0} → Parser R → Bool → List ℕ → ℕ → R → Result R
parse m full buf pos r = finish m full (scan m (cost m buf pos r) buf pos r)

-- From `p` to `q`, not backwards, and with fewer rounds to come, wherever the buffer ends.
abbrev pub Nearer : {R : Type 0} → Parser R → ℕ → R → ℕ → R → Type 0
Nearer m p r q r' = (p ≤ q) × ((n : ℕ) → p < n → q ≤ n → m.rounds (n - q) r' < m.rounds (n - p) r)

-- A round that goes on has less to do, stays within the buffer and keeps the parser ready; the
-- message ends within the buffer too.
abbrev pub Advances : {R : Type 0} → Parser R → (ℕ → R → Type 0) → ℕ → ℕ → R → Move R → Type 0
Advances m IsReady last p r (go q r') = Nearer m p r q r' × (q ≤ last) × IsReady q r'
Advances m IsReady last p r (done q r') = (p ≤ q) × (q < last)
Advances m IsReady last p r _ = Unit

-- With more bytes behind `buf` a round does the same, or it stopped at the end of `buf` and does with
-- them what the round there does.
abbrev pub Agrees :
    {R : Type 0} → (step : List ℕ → ℕ → R → Move R) → List ℕ → List ℕ → ℕ → R → Type 0
Agrees {R} step buf xs p r =
    (step (buf ++ xs) p r ≡ step buf p r)
    ⊎ ((r1 : R) × (step buf p r ≡ go (length buf) r1)
        × (step (buf ++ xs) p r ≡ step (buf ++ xs) (length buf) r1))

-- What makes the loop end: what holds at a position is `IsReady`.
pub record Goes {R : Type 0} (m : Parser R) (IsReady : ℕ → R → Type 0) : Type 0 where
  pub enough : (n : ℕ) (r : R) → n ≤ m.rounds n r
  pub advances :
      (buf : List ℕ) (p : ℕ) (r : R)
      → p < length buf
      → IsReady p r
      → Advances m IsReady (length buf) p r (m.step buf p r)

-- The laws of a parser.
pub record IsParser {R : Type 0} (m : Parser R) (IsReady : ℕ → R → Type 0) : Type 0 where
  pub enough : (n : ℕ) (r : R) → n ≤ m.rounds n r
  pub advances :
      (buf : List ℕ) (p : ℕ) (r : R)
      → p < length buf
      → IsReady p r
      → Advances m IsReady (length buf) p r (m.step buf p r)
  pub agrees : (buf xs : List ℕ) (p : ℕ) (r : R) → p < length buf → Agrees m.step buf xs p r
  pub bare : (p : ℕ) (r : R) → IsReady p (m.forget r)
