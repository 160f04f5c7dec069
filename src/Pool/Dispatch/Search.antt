-- ===== src/Pool/Dispatch/Search.antt =====
-- The binary search of `ketama_dispatch` against a scan of the continuum.
use wx_cache_proxy.Base.{
  ℕ, zero, suc, ◌+◌, ◌-◌, ◌/◌, ◌≤◌, ◌<◌, ◌≡◌, refl, ap, sym, ◌∙◌, ◌⊎◌, inl, inr, true, All,
  All-get_or, false, List, [], ◌∷◌, Option, none, some, arith, ltb, ◌==◌, if◌then◌else◌, length,
  get_or, Bool-cases,
}
use wx_cache_proxy.Pool.State.{Point}
use wx_cache_proxy.Pool.Dispatch.{no_point, point_at, bisect, ketama_dispatch}

-- Values do not fall along the continuum.
abbrev pub IsSorted : List Point → Type 0
IsSorted [] = Unit
IsSorted (p ∷ c) = All (λ q. p.value ≤ q.value) c × IsSorted c

-- The number of points before the first whose value reaches the hash.
unfoldable pub scan : ℕ → List Point → ℕ
scan hash [] = 0
scan hash (p ∷ c) = if ltb p.value hash then suc (scan hash c) else 0

-- The first point whose value reaches the hash.
unfoldable pub find_point : ℕ → List Point → Option Point
find_point hash [] = none
find_point hash (p ∷ c) = if ltb p.value hash then find_point hash c else some p

-- The point that owns a hash on the ring: the first one at or after it, or the first of all.
unfoldable pub owner : ℕ → List Point → Point
owner hash c = elim (find_point hash c) [ some p ↦ p | none ↦ get_or c 0 no_point ]

scan-le-length : (hash : ℕ) (c : List Point) → scan hash c ≤ length c
unfolding scan
scan-le-length hash [] = omega arith
scan-le-length hash (p ∷ c) = ground (arith, scan-le-length hash c)

below_scan : (hash : ℕ) (c : List Point) (i : ℕ) → i < scan hash c → (point_at c i).value < hash
unfolding scan
below_scan hash [] i h = absurd (omega arith)
below_scan hash (p ∷ c) zero h = ground arith
below_scan hash (p ∷ c) (suc i) h = below_scan hash c i (ground arith)

from_scan :
    (hash : ℕ) (c : List Point) (i : ℕ)
    → IsSorted c
    → scan hash c ≤ i
    → i < length c
    → hash ≤ (point_at c i).value
unfolding scan
from_scan hash [] i s h l = absurd (omega arith)
from_scan hash (p ∷ c) zero s h l = ground arith
from_scan hash (p ∷ c) (suc i) s h l = elim (Bool-cases (ltb p.value hash)) [
  | inl e ↦
      let below : suc (scan hash c) ≤ suc i = rw (e, scan) at h in
      from_scan hash c i s.1 (omega arith) (omega arith)
  | inr e ↦ ground (arith, All-get_or (λ q. p.value ≤ q.value) c i no_point s.0)
]

right_of_scan :
    (hash : ℕ) (c : List Point) (i : ℕ)
    → IsSorted c
    → ltb (point_at c i).value hash ≡ true
    → i < length c
    → i + 1 ≤ scan hash c
right_of_scan hash c i s e l = elim (Bool-cases (ltb i (scan hash c))) [
  | inl h ↦ ground arith
  | inr h ↦ ground (arith, from_scan hash c i s)
]

left_of_scan :
    (hash : ℕ) (c : List Point) (i : ℕ) → ltb (point_at c i).value hash ≡ false → scan hash c ≤ i
left_of_scan hash c i e = elim (Bool-cases (ltb i (scan hash c))) [
  | inl h ↦ ground (arith, below_scan hash c i)
  | inr h ↦ ground arith
]

-- The loop ends at the scan's index whenever the interval holds it and the fuel covers the interval.
pub bisect-eq-scan :
    (f : ℕ) (c : List Point) (hash left right : ℕ)
    → IsSorted c
    → right - left ≤ f
    → right ≤ length c
    → left ≤ scan hash c
    → scan hash c ≤ right
    → bisect f c hash left right ≡ scan hash c
unfolding bisect
bisect-eq-scan zero c hash left right s hf hr hl hs = omega arith
bisect-eq-scan (suc f) c hash left right s hf hr hl hs =
    let middle = left + (right - left) / 2 in
    elim (Bool-cases (ltb left right)) [
      | inr done ↦ rw (done, bisect) (ground arith)
      | inl more ↦ elim (Bool-cases (ltb (point_at c middle).value hash)) [
        | inl low ↦
            rw (more, low, bisect)
              (bisect-eq-scan f c hash (middle + 1) right s (ground arith) hr
                (right_of_scan hash c middle s low (ground arith)) hs)
        | inr high ↦
            rw (more, high, bisect)
              (bisect-eq-scan f c hash left middle s (ground arith) (ground arith) hl
                (left_of_scan hash c middle high))
      ]
    ]

pub owner_of_some :
    (hash : ℕ) (c : List Point) {p : Point} → find_point hash c ≡ some p → owner hash c ≡ p
unfolding owner
owner_of_some hash c e = rw (e, owner)

pub owner_of_none :
    (hash : ℕ) (c : List Point) → find_point hash c ≡ none → owner hash c ≡ get_or c 0 no_point
unfolding owner
owner_of_none hash c e = rw (e, owner)

abbrev Found : ℕ → List Point → Type 0
Found hash c =
    ((find_point hash c ≡ none) × (scan hash c ≡ length c))
    ⊎ ((p : Point) × (find_point hash c ≡ some p)
        × (scan hash c < length c)
        × (point_at c (scan hash c) ≡ p))

find_point-scan : (hash : ℕ) (c : List Point) → Found hash c
unfolding find_point scan
find_point-scan hash [] = inl (refl, refl)
find_point-scan hash (p ∷ c) = elim (Bool-cases (ltb p.value hash)) [
  | inr e ↦ rw (e, find_point, scan) (inr (p, refl, omega arith, refl))
  | inl e ↦ elim (find_point-scan hash c) [
    | inl (n, l) ↦ rw (e, find_point, scan) (inl (n, ap suc l))
    | inr (q, f, l, at) ↦ rw (e, find_point, scan) (inr (q, f, omega arith, at))
  ]
]

owner-eq-scan :
    (hash : ℕ) (c : List Point)
    → owner hash c ≡ point_at c (if scan hash c == length c then 0 else scan hash c)
unfolding owner
owner-eq-scan hash c = ground (arith, find_point-scan hash c)

-- On a sorted continuum the binary search picks the owner of the hash: the first point whose value
-- reaches the hash, and the first point of all if there is none.
pub ketama_dispatch-eq-owner :
    (c : List Point) (hash : ℕ)
    → IsSorted c
    → ketama_dispatch c (length c) hash ≡ (owner hash c).index
unfolding ketama_dispatch
ketama_dispatch-eq-owner c hash s =
    ap (λ r. (point_at c (if r == length c then 0 else r)).index)
      (bisect-eq-scan (length c) c hash 0 (length c) s (omega arith) (omega arith) (omega arith)
        (scan-le-length hash c))
    ∙ ap (λ p. p.index) (sym (owner-eq-scan hash c))

bisect-le :
    (f : ℕ) (c : List Point) (hash left right : ℕ)
    → left ≤ right
    → bisect f c hash left right ≤ right
unfolding bisect
bisect-le zero c hash left right h = omega arith
bisect-le (suc f) c hash left right h =
    let middle = left + (right - left) / 2 in
    ground (arith, bisect-le f c hash (middle + 1) right, bisect-le f c hash left middle)

-- The point that a dispatch reads lies within the continuum, sorted or not.
pub ketama_dispatch_point :
    (c : List Point) (hash : ℕ)
    → 0 < length c
    → (i : ℕ) × (i < length c) × (ketama_dispatch c (length c) hash ≡ (point_at c i).index)
unfolding ketama_dispatch
ketama_dispatch_point c hash h =
    let right = bisect (length c) c hash 0 (length c) in
    (
      if right == length c then 0 else right,
      ground (arith, bisect-le (length c) c hash 0 (length c)),
      refl,
    )
