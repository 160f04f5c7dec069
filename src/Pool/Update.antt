-- ===== src/Pool/Update.antt =====
-- The three update functions of hashkit/: they count the live servers of a pool and rebuild its
-- continuum. Times do not wrap; `uint32_t` counters do.
pub mod Survey
pub mod Live
pub mod Fresh
pub mod Kept
pub mod Shares
pub mod Ketama
use wx_cache_proxy.Base.{
  ℕ, zero, suc, ◌+◌, ◌*◌, ◌/◌, ◌%◌, ◌^◌, Bool, true, false, not, ◌&&◌, ◌||◌, List, [], ◌∷◌, ◌++◌,
  Option, none, some, ltb, leb, ◌==◌, if◌then◌else◌, length, get_or, replicate, take, drop, Status,
  nc_ok, nc_error, nc_enomem,
}
use wx_cache_proxy.Pool.State.{Point, Server, Pool, FloatOps, Platform, Moment}

-- The variables `nlive_server` and `total_weight`, and `pool->next_rebuild`.
pub record Tally : Type 0 where
  pub nlive_server : ℕ
  pub total_weight : ℕ
  pub next_rebuild : ℕ

abbrev pub no_tally : Tally
no_tally = record { nlive_server = 0; total_weight = 0; next_rebuild = 0 }

abbrev pub add_u32 : ℕ → ℕ → ℕ
add_u32 a b = (a + b) % 2 ^ 32

-- The first part of the counting loop's body, which the three functions share.
unfoldable pub count_server : Bool → ℕ → Server → Tally → Server × Tally
count_server auto_eject now s t =
    if auto_eject
    then (if leb s.next_retry now
        then (record s { next_retry = 0 }, record t { nlive_server = add_u32 t.nlive_server 1 })
        else (if t.next_rebuild == 0 || ltb s.next_retry t.next_rebuild
            then (s, record t { next_rebuild = s.next_retry })
            else (s, t)))
    else (s, record t { nlive_server = add_u32 t.nlive_server 1 })

-- The second part, which `random_update` does not have.
unfoldable pub weigh_server : Bool → ℕ → Server × Tally → Server × Tally
weigh_server auto_eject now (s, t) =
    if not auto_eject || leb s.next_retry now
    then (s, record t { total_weight = add_u32 t.total_weight s.weight })
    else (s, t)

unfoldable pub each_server :
    (Server → Tally → Server × Tally) → List Server → Tally → List Server × Tally
each_server body [] t = ([], t)
each_server body (s ∷ ss) t =
    let (s', t') = body s t in let (ss', t'') = each_server body ss t' in (s' ∷ ss', t'')

unfoldable pub survey : Bool → ℕ → List Server → List Server × Tally
survey auto_eject now ss =
    each_server (λ s t. weigh_server auto_eject now (count_server auto_eject now s t)) ss no_tally

unfoldable pub survey_unweighted : Bool → ℕ → List Server → List Server × Tally
survey_unweighted auto_eject now ss = each_server (count_server auto_eject now) ss no_tally

-- The test by which the building loops skip a server.
unfoldable pub skips : Bool → ℕ → Server → Bool
skips auto_eject now s = auto_eject && ltb now s.next_retry

-- The building loop: the points of each live server in turn, `i` its index.
unfoldable pub build : (Server → Bool) → (ℕ → Server → List Point) → ℕ → List Server → List Point
build skip points i [] = []
build skip points i (s ∷ ss) =
    let rest = build skip points (i + 1) ss in if skip s then rest else points i s ++ rest

-- `nserver_continuum` after the allocation: `none` if it fails. 10 is ..._CONTINUUM_ADDITION.
unfoldable pub grow : ℕ → ℕ → Bool → Option ℕ
grow wanted nserver_continuum realloc_ok =
    if ltb nserver_continuum wanted
    then (if realloc_ok then some (add_u32 wanted 10) else none)
    else some nserver_continuum

-- What all three do once the servers are counted: stop when none is live, and otherwise allocate
-- for `wanted` and install the new points.
unfoldable pub install : Pool → List Server × Tally → ℕ → Bool → ℕ → List Point → Status × Pool
install pool (servers, t) wanted realloc_ok pointer_counter points =
    let p = record pool {
      server = servers;
      next_rebuild = t.next_rebuild;
      nlive_server = t.nlive_server;
    } in
    if t.nlive_server == 0
    then (nc_ok, p)
    else elim (grow wanted pool.nserver_continuum realloc_ok) [
      | none ↦ (nc_enomem, p)
      | some n ↦ (
        nc_ok,
        record p { nserver_continuum = n; continuum = points; ncontinuum = pointer_counter },
      )
    ]

unfoldable pub modula_points : ℕ → Server → List Point
modula_points i s = replicate s.weight (record { index = i; value = 0 })

-- The three updates once the clock is read.
unfoldable pub modula_rebuild : Pool → ℕ → Bool → Status × Pool
modula_rebuild pool now realloc_ok =
    let counted = survey pool.auto_eject_hosts now pool.server in
    let points = build (skips pool.auto_eject_hosts now) modula_points 0 counted.0 in
    install pool counted (counted.1).total_weight realloc_ok (length points % 2 ^ 32) points

unfoldable pub modula_update : Pool → Moment → Status × Pool
modula_update pool m = elim m.now [
  | none ↦ (nc_error, pool)
  | some now ↦ modula_rebuild pool now m.realloc_ok
]

unfoldable pub random_points : ℕ → Server → List Point
random_points i s = record { index = i; value = 0 } ∷ []

unfoldable pub random_rebuild : Pool → ℕ → Bool → Status × Pool
random_rebuild pool now realloc_ok =
    let counted = survey_unweighted pool.auto_eject_hosts now pool.server in
    let points = build (skips pool.auto_eject_hosts now) random_points 0 counted.0 in
    install pool counted (counted.1).nlive_server realloc_ok (length points % 2 ^ 32) points

unfoldable pub random_update : Pool → Moment → Status × Pool
random_update pool m = elim m.now [
  | none ↦ (nc_error, pool)
  | some now ↦ random_rebuild pool now m.realloc_ok
]

module _ {F : Type 0} (platform : Platform F) where
  -- Four bytes of the digest, the last one highest. The shifted bytes do not overlap, so that `|`
  -- is `+`.
  unfoldable pub ketama_hash : List ℕ → ℕ → ℕ
  ketama_hash key alignment =
      let results = platform.md5 key in
      let byte = λ (k : ℕ). get_or results (k + alignment * 4) 0 % 256 in
      byte 3 * 2 ^ 24 + byte 2 * 2 ^ 16 + byte 1 * 2 ^ 8 + byte 0

  abbrev pub ketama_point : ℕ → List ℕ → ℕ → Point
  ketama_point i host x = record { index = i; value = ketama_hash host x }

  -- The loops over `pointer_index - 1`, from `k` on with `n` rounds left, and over `x`.
  unfoldable pub host_points : ℕ → Server → ℕ → ℕ → List Point
  host_points i s k zero = []
  host_points i s k (suc n) =
      let host = platform.host s.name k in
      ketama_point i host 0
      ∷ ketama_point i host 1
      ∷ ketama_point i host 2
      ∷ ketama_point i host 3
      ∷ host_points i s (k + 1) n

  -- (uint32_t) (floorf(pct * 160 / 4 * nlive_server + 1e-10) * 4)
  unfoldable pub pointer_per_server : ℕ → ℕ → Server → ℕ
  pointer_per_server total_weight nlive_server s =
      let pct = div (of_u32 s.weight) (of_u32 total_weight) in
      let share = mul (div (mul pct (of_u32 160)) (of_u32 4)) (of_u32 nlive_server) in
      to_u32 (mul (floor (add_tiny share)) (of_u32 4))
    where
      open platform.float use {of_u32, div, mul, add_tiny, floor, to_u32}

  unfoldable pub ketama_points : ℕ → ℕ → ℕ → Server → List Point
  ketama_points total_weight nlive_server i s =
      host_points i s 0 (pointer_per_server total_weight nlive_server s / 4)

  unfoldable pub count_pointers : (Server → Bool) → (Server → ℕ) → List Server → ℕ
  count_pointers skip pointers [] = 0
  count_pointers skip pointers (s ∷ ss) =
      let rest = count_pointers skip pointers ss in
      if skip s then rest else add_u32 (pointers s) rest

  -- `qsort` of the first `ncontinuum` points.
  unfoldable pub sort_first : ℕ → List Point → List Point
  sort_first ncontinuum c = platform.sort (take ncontinuum c) ++ drop ncontinuum c

  unfoldable pub ketama_rebuild : Pool → ℕ → Bool → Status × Pool
  ketama_rebuild pool now realloc_ok =
      let counted = survey pool.auto_eject_hosts now pool.server in
      let total = (counted.1).total_weight in
      let nlive = (counted.1).nlive_server in
      let skip = skips pool.auto_eject_hosts now in
      install pool counted nlive realloc_ok
        (count_pointers skip (pointer_per_server total nlive) counted.0)
        (sort_first (count_pointers skip (pointer_per_server total nlive) counted.0)
          (build skip (ketama_points total nlive) 0 counted.0))

  unfoldable pub ketama_update : Pool → Moment → Status × Pool
  ketama_update pool m = elim m.now [
    | none ↦ (nc_error, pool)
    | some now ↦ ketama_rebuild pool now m.realloc_ok
  ]
