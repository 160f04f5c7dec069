-- ===== src/Pool/Route/Tag.antt =====
-- nc_server.c: hash tags in `server_pool_idx`.
use wx_cache_proxy.Base.{
  ℕ, suc, ◌≡◌, ◌≢◌, refl, ap, List, [], ◌∷◌, ◌++◌, some, arith, length, take, drop, All,
}
use wx_cache_proxy.Pool.Route.{strchr, tagged_key}

strchr-append :
    (c : ℕ) (xs ys : List ℕ) → All (λ x. x ≢ c) xs → strchr c (xs ++ c ∷ ys) ≡ some (length xs)
unfolding strchr
strchr-append c [] ys h = ground arith
strchr-append c (x ∷ xs) ys h = ground (arith, h.0, strchr-append c xs ys h.1)

drop-append : (xs : List ℕ) (c : ℕ) (ys : List ℕ) → drop (suc (length xs)) (xs ++ c ∷ ys) ≡ ys
drop-append [] c ys = refl
drop-append (x ∷ xs) c ys = drop-append xs c ys

take-append : (xs ys : List ℕ) → take (length xs) (xs ++ ys) ≡ xs
take-append [] ys = refl
take-append (x ∷ xs) ys = ap (◌∷◌ x) (take-append xs ys)

-- The bytes between the first opening byte and the next closing byte are hashed, if there are any.
pub tagged_key-between :
    (open_byte close_byte : ℕ) (pre inner post : List ℕ)
    → All (λ x. x ≢ open_byte) pre
    → All (λ x. x ≢ close_byte) inner
    → inner ≢ []
    → tagged_key (open_byte ∷ close_byte ∷ []) (pre ++ (open_byte ∷ (inner ++ (close_byte ∷ post))))
      ≡ inner
unfolding tagged_key
tagged_key-between o c pre [] post hp hi ne = absurd (ne refl)
tagged_key-between o c pre (x ∷ inner) post hp hi ne =
    let whole = (x ∷ inner) ++ (c ∷ post) in
    rw (strchr-append o pre whole hp, tagged_key)
      (rw (drop-append pre o whole) (
        rw (strchr-append c (x ∷ inner) post hi, tagged_key)
          (ground (
            arith,
            ap (take (suc (length inner))) (drop-append pre o whole),
            take-append (x ∷ inner) (c ∷ post),
          ))))
