-- ===== src/Pool/Sample.antt =====
-- A platform for the tests: it sorts by insertion and counts in thousandths.
use wx_cache_proxy.Base.{
  ℕ, ◌*◌, ◌/◌, ◌%◌, ◌^◌, ◌≤◌, ◌≡◌, refl, Bool, List, [], ◌∷◌, ◌++◌, arith, leb, if◌then◌else◌,
  Bool-cases, inl, inr, ◌∙◌, All,
}
use wx_cache_proxy.Pool.State.{Point, FloatOps, Platform}
use wx_cache_proxy.Pool.Dispatch.Search.{IsSorted}
use wx_cache_proxy.Pool.Update.{pointer_per_server}
use wx_cache_proxy.Pool.Update.Live.{count}
use wx_cache_proxy.Pool.Update.Fresh.{Sorts, Quadruples}

unfoldable pub insert : Point → List Point → List Point
insert p [] = p ∷ []
insert p (q ∷ c) = let rest = insert p c in if leb p.value q.value then p ∷ q ∷ c else q ∷ rest

abbrev pub insertion_sort : List Point → List Point
insertion_sort [] = []
insertion_sort (p ∷ c) = insert p (insertion_sort c)

insert-All :
    (v : ℕ) (p : Point) (c : List Point)
    → v ≤ p.value
    → All (λ q. v ≤ q.value) c
    → All (λ q. v ≤ q.value) (insert p c)
unfolding insert
insert-All v p [] h a = (h, tt)
insert-All v p (q ∷ c) h a = elim (Bool-cases (leb p.value q.value)) [
  | inl e ↦ rw e (h, a)
  | inr e ↦ rw e (a.0, insert-All v p c h a.1)
]

All-le : (u v : ℕ) (c : List Point) → u ≤ v → All (λ q. v ≤ q.value) c → All (λ q. u ≤ q.value) c
All-le u v [] h a = tt
All-le u v (q ∷ c) h a = (let b : v ≤ q.value = a.0 in omega (arith, b), All-le u v c h a.1)

insert-IsSorted : (p : Point) (c : List Point) → IsSorted c → IsSorted (insert p c)
unfolding insert
insert-IsSorted p [] s = (tt, tt)
insert-IsSorted p (q ∷ c) s = elim (Bool-cases (leb p.value q.value)) [
  | inl e ↦
      let le : p.value ≤ q.value = ground arith in rw e ((le, All-le p.value q.value c le s.0), s)
  | inr e ↦
      let le : q.value ≤ p.value = ground arith in
      rw e (insert-All q.value p c le s.0, insert-IsSorted p c s.1)
]

insertion_sort-IsSorted : (c : List Point) → IsSorted (insertion_sort c)
insertion_sort-IsSorted [] = tt
insertion_sort-IsSorted (p ∷ c) = insert-IsSorted p (insertion_sort c) (insertion_sort-IsSorted c)

count-insert :
    (test : Point → Bool) (p : Point) (c : List Point)
    → count test (insert p c) ≡ count test (p ∷ c)
unfolding insert count
count-insert test p [] = refl
count-insert test p (q ∷ c) = ground (arith, count-insert test p c)

count-insertion_sort :
    (test : Point → Bool) (c : List Point) → count test (insertion_sort c) ≡ count test c
unfolding count
count-insertion_sort test [] = refl
count-insertion_sort test (p ∷ c) =
    count-insert test p (insertion_sort c) ∙ ground (arith, count-insertion_sort test c)

-- A number of thousandths.
abbrev pub thousandths : FloatOps ℕ
thousandths = record {
  of_u32 = λ n. n * 1000;
  div = λ a b. a * 1000 / b;
  mul = λ a b. a * b / 1000;
  add_tiny = λ a. a;
  floor = λ a. a / 1000 * 1000;
  to_u32 = λ a. a / 1000 % 2 ^ 32;
}

abbrev pub platform : Platform ℕ
platform = record {
  float = thousandths;
  sort = insertion_sort;
  md5 = λ s. s ++ (1 ∷ 2 ∷ 3 ∷ 4 ∷ 5 ∷ 6 ∷ 7 ∷ 8 ∷ 9 ∷ 10 ∷ 11 ∷ 12 ∷ 13 ∷ 14 ∷ 15 ∷ 16 ∷ []);
  host = λ name k. k ∷ name;
}

pub platform-Sorts : Sorts ℕ platform
platform-Sorts = record { sorted = insertion_sort-IsSorted; same = count-insertion_sort }

pub platform-Quadruples : Quadruples platform
unfolding pointer_per_server
platform-Quadruples total nlive s = omega arith
