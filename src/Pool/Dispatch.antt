-- ===== src/Pool/Dispatch.antt =====
-- The three dispatch functions of hashkit/nc_ketama.c, nc_modula.c and nc_random.c.
pub mod Search
pub mod Consistent
use wx_cache_proxy.Base.{
  ℕ, zero, suc, ◌+◌, ◌-◌, ◌/◌, ◌%◌, List, true, false, ltb, ◌==◌, if◌then◌else◌, get_or,
}
use wx_cache_proxy.Pool.State.{Point}

-- What lies behind the last point is never read.
abbrev pub no_point : Point
no_point = record { index = 0; value = 0 }

abbrev pub point_at : List Point → ℕ → Point
point_at c i = get_or c i no_point

-- The `while` loop of `ketama_dispatch`; pointers are indices. The first number is the fuel.
unfoldable pub bisect : ℕ → List Point → ℕ → ℕ → ℕ → ℕ
bisect zero c hash left right = right
bisect (suc f) c hash left right = elim (ltb left right) [
  | true ↦
      let middle = left + (right - left) / 2 in
      elim (ltb (point_at c middle).value hash) [
        | true ↦ bisect f c hash (middle + 1) right
        | false ↦ bisect f c hash left middle
      ]
  | false ↦ right
]

-- The interval starts with `ncontinuum` points and shrinks in each round.
unfoldable pub ketama_dispatch : List Point → ℕ → ℕ → ℕ
ketama_dispatch c ncontinuum hash =
    let right = bisect ncontinuum c hash 0 ncontinuum in
    (point_at c (if right == ncontinuum then 0 else right)).index

unfoldable pub modula_dispatch : List Point → ℕ → ℕ → ℕ
modula_dispatch c ncontinuum hash = (point_at c (hash % ncontinuum)).index

-- `rand` is what `random` returns.
unfoldable pub random_dispatch : List Point → ℕ → ℕ → ℕ
random_dispatch c ncontinuum rand = (point_at c (rand % ncontinuum)).index
