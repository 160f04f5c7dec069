-- ===== src/Pool/Update/Live.antt =====
-- The distributions of hashkit/: the points of a rebuilt continuum and their servers.
use wx_cache_proxy.Base.{
  ℕ, zero, suc, ◌+◌, ◌<◌, ◌≡◌, refl, sym, ap, ◌∙◌, Bool, true, false, List, [], ◌∷◌, ◌++◌, none,
  some, arith, if◌then◌else◌, length, get_elem?, replicate, Bool-cases, inl, inr,
}
use mathlib.Core.List.{append_assoc}
use wx_cache_proxy.Pool.State.{Point, Server, Platform}
use wx_cache_proxy.Pool.Dispatch.{point_at}
use wx_cache_proxy.Pool.Update.{
  build, modula_points, random_points, ketama_points, host_points, ketama_hash,
}

-- How many points pass a test.
unfoldable pub count : (Point → Bool) → List Point → ℕ
count test [] = 0
count test (p ∷ c) = if test p then suc (count test c) else count test c

pub count-append :
    (test : Point → Bool) (xs ys : List Point)
    → count test (xs ++ ys) ≡ count test xs + count test ys
unfolding count
count-append test [] ys = omega arith
count-append test (x ∷ xs) ys = ground (arith, count-append test xs ys)

pub count_all : (c : List Point) → count (λ p. true) c ≡ length c
unfolding count
count_all [] = refl
count_all (p ∷ c) = ap suc (count_all c)

-- If no point passes a test, the point at an index within range does not.
pub count_zero :
    (test : Point → Bool) (c : List Point) (i : ℕ)
    → count test c ≡ 0
    → i < length c
    → test (point_at c i) ≡ false
unfolding count
count_zero test [] i e l = absurd (omega arith)
count_zero test (p ∷ c) zero e l = ground arith
count_zero test (p ∷ c) (suc i) e l = ground (arith, count_zero test c i)

-- Whether a point names no server, or one that the building loop skips.
unfoldable pub misses : (Server → Bool) → List Server → Point → Bool
misses skip servers p = elim (get_elem? servers p.index) [ none ↦ true | some s ↦ skip s ]

get_elem?-append :
    (xs : List Server) (s : Server) (ys : List Server)
    → get_elem? (xs ++ (s ∷ ys)) (length xs) ≡ some s
get_elem?-append [] s ys = refl
get_elem?-append (x ∷ xs) s ys = get_elem?-append xs s ys

length-snoc : (xs : List Server) (s : Server) → length (xs ++ s ∷ []) ≡ length xs + 1
length-snoc [] s = omega arith
length-snoc (x ∷ xs) s = omega (arith, length-snoc xs s)

-- A server's points carry its index, so that a test on the index decides for all of them.
abbrev pub Own : (ℕ → Server → List Point) → Type 0
Own points =
    (test : Point → Bool) (i : ℕ) (s : Server)
    → ((v : ℕ) → test (record { index = i; value = v }) ≡ false)
    → count test (points i s) ≡ 0

module _ (skip : Server → Bool) (points : ℕ → Server → List Point) (own : Own points) where
  pub build-misses :
      (servers pre ss : List Server) (i : ℕ)
      → servers ≡ pre ++ ss
      → i ≡ length pre
      → count (misses skip servers) (build skip points i ss) ≡ 0
  unfolding build count misses
  build-misses servers pre [] i e l = refl
  build-misses servers pre (s ∷ ss) i e l =
      let here : get_elem? servers i ≡ some s = rw (e, l) (get_elem?-append pre s ss) in
      let rest =
        build-misses servers (pre ++ s ∷ []) ss (i + 1) (e ∙ sym (append_assoc pre (s ∷ []) ss))
          (rw (length-snoc, l)) in
      elim (Bool-cases (skip s)) [
        | inl dead ↦ rw (dead, build) rest
        | inr live ↦
            rw (live, build)
              (omega (
                arith,
                count-append (misses skip servers) (points i s) (build skip points (i + 1) ss),
                own (misses skip servers) i s (λ v. rw (here, misses) live),
                rest,
              ))
      ]

none_of_replicate :
    (test : Point → Bool) (p : Point) → test p ≡ false → (n : ℕ) → count test (replicate n p) ≡ 0
unfolding count
none_of_replicate test p h zero = refl
none_of_replicate test p h (suc n) = ground (arith, none_of_replicate test p h n)

pub modula_points-Own : Own modula_points
unfolding modula_points
modula_points-Own test i s h = none_of_replicate test _ (h 0) s.weight

pub random_points-Own : Own random_points
unfolding random_points count
random_points-Own test i s h = ground (arith, h 0)

module _ {F : Type 0} (platform : Platform F) where
  host_points-Own :
      (test : Point → Bool) (i : ℕ) (s : Server)
      → ((v : ℕ) → test (record { index = i; value = v }) ≡ false)
      → (n k : ℕ) → count test (host_points platform i s k n) ≡ 0
  unfolding host_points count
  host_points-Own test i s h zero k = refl
  host_points-Own test i s h (suc n) k =
      let host = platform.host s.name k in
      let value = ketama_hash platform host in
      ground (
        arith,
        h (value 0),
        h (value 1),
        h (value 2),
        h (value 3),
        host_points-Own test i s h n (k + 1),
      )

  pub ketama_points-Own : (total nlive : ℕ) → Own (ketama_points platform total nlive)
  unfolding ketama_points
  ketama_points-Own total nlive test i s h = host_points-Own test i s h _ 0
