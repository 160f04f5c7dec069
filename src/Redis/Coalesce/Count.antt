-- ===== src/Redis/Coalesce/Count.antt =====
-- nc_redis.c: what `redis_pre_coalesce` counts while the responses to the fragments of DEL come in.
use wx_cache_proxy.Base.{
  ℕ, ◌+◌, ◌%◌, ◌^◌, ◌<◌, ◌≡◌, ◌≢◌, refl, ap, ap₂, ◌∙◌, Bool, true, false, List, [], ◌∷◌, ◌++◌, ◌==◌,
  length, arith,
}
use wx_cache_proxy.Buffer.Content.{content}
use wx_cache_proxy.Buffer.Message.{msg_prepend_format}
use wx_cache_proxy.Parser.Kind.{rsp_redis_integer, req_redis_del}
use wx_cache_proxy.Redis.Coalesce.{
  Response, Fragment, Owner, coalesce_as, redis_pre_coalesce, Joined, mark, redis_post_coalesce_del,
  redis_post_coalesce,
}
use wx_cache_proxy.Redis.Coalesce.Join.{prepend-ok}

-- One call of the handler for each pair of a response and its request, on the owner they share.
abbrev pub coalesce_all : List (Response × Fragment) → Owner → Owner
coalesce_all [] owner = owner
coalesce_all ((r, f) ∷ parts) owner =
    coalesce_all parts
      (redis_pre_coalesce (record { response = r; fragment = f; owner = owner })).owner

abbrev pub sum_of : List (Response × Fragment) → ℕ
sum_of [] = 0
sum_of ((r, f) ∷ parts) = r.integer + sum_of parts

-- Every response is an integer and answers a fragment.
abbrev pub AreIntegers : List (Response × Fragment) → Type 0
AreIntegers [] = Unit
AreIntegers ((r, f) ∷ parts) = (r.kind ≡ rsp_redis_integer) × (f.frag_id ≢ 0) × AreIntegers parts

one-integer :
    (r : Response) (f : Fragment) (owner : Owner)
    → r.kind ≡ rsp_redis_integer
    → f.frag_id ≢ 0
    → (redis_pre_coalesce (record { response = r; fragment = f; owner = owner })).owner ≡ record {
      nfrag_done = (owner.nfrag_done + 1) % 2 ^ 32;
      integer = (owner.integer + r.integer) % 2 ^ 32;
    }
unfolding redis_pre_coalesce coalesce_as
one-integer r f owner k h =
    let e : (f.frag_id == 0) ≡ false = ground arith in rw (redis_pre_coalesce, e, k) refl

coalesce_all-sum :
    (parts : List (Response × Fragment)) (owner : Owner)
    → owner.nfrag_done < 2 ^ 32
    → owner.integer < 2 ^ 32
    → AreIntegers parts
    → coalesce_all parts owner ≡ record {
      nfrag_done = (owner.nfrag_done + length parts) % 2 ^ 32;
      integer = (owner.integer + sum_of parts) % 2 ^ 32;
    }
coalesce_all-sum [] owner n h ok =
    ap₂ (λ k i. record { nfrag_done = k; integer = i }) (omega arith) (omega arith)
coalesce_all-sum ((r, f) ∷ parts) owner n h ok =
    ap (coalesce_all parts) (one-integer r f owner ok.0 ok.1)
    ∙ coalesce_all-sum parts _ (omega arith) (omega arith) ok.2
    ∙ ap₂ (λ k i. record { nfrag_done = k; integer = i }) (omega arith) (omega arith)

module _ (offset : ℕ) (small : offset < 2 ^ 32) (print : ℕ → List ℕ) where
  -- ":<integer>\r\n"
  abbrev pub integer_line : ℕ → List ℕ
  integer_line n = b':' ∷ (print n ++ 13 ∷ 10 ∷ [])

  -- The answer to a divided DEL: after `redis_pre_coalesce` of each of the fragments' responses on
  -- one owner, all of them integers, the owner has counted them, and `redis_post_coalesce` puts the
  -- line with their sum, modulo 2^32, in front of the response, without an error. The count is
  -- modulo 2^32 too; that line is shorter than a buffer, and buffers are shorter than 2^32.
  pub redis_post_coalesce-sums :
      (parts : List (Response × Fragment)) (memory : ℕ → Bool) (narg : ℕ) (frag_seq : List ℕ)
      (j : Joined)
      → AreIntegers parts
      → length (integer_line (sum_of parts % 2 ^ 32)) < offset
      → let owner = coalesce_all parts (record { nfrag_done = 0; integer = 0 }) in
        let out =
          redis_post_coalesce offset print false req_redis_del true memory narg owner.integer
            frag_seq j in
        (owner.nfrag_done ≡ length parts % 2 ^ 32)
        × (out.error ≡ j.error)
        × (out.closed ≡ j.closed)
        × (content out.response.mhdr
            ≡ integer_line (sum_of parts % 2 ^ 32) ++ content j.response.mhdr)
  unfolding redis_post_coalesce redis_post_coalesce_del mark content
  redis_post_coalesce-sums parts memory narg frag_seq j ok room =
      let e =
        coalesce_all-sum parts (record { nfrag_done = 0; integer = 0 }) (omega arith) (omega arith)
          ok in
      let line = integer_line (sum_of parts % 2 ^ 32) in
      let n : (coalesce_all parts (record { nfrag_done = 0; integer = 0 })).integer
          ≡ sum_of parts % 2 ^ 32 =
        ap (λ (o : Owner). o.integer) e ∙ omega arith in
      let done =
        ap (λ i. mark offset print j (msg_prepend_format offset j.response (integer_line i) true)) n
        ∙ ap (mark offset print j)
            (prepend-ok offset small print j.response line (omega arith) room) in
      (
        ap (λ (o : Owner). o.nfrag_done) e ∙ omega arith,
        ap (λ (o : Joined). o.error) done,
        ap (λ (o : Joined). o.closed) done,
        ap (λ (o : Joined). content o.response.mhdr) done,
      )
