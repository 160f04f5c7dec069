-- ===== src/Redis/Bulk/Moves.antt =====
-- nc_redis.c: `redis_copy_bulk` moves one bulk.
use wx_cache_proxy.Base.{
  ℕ, ◌+◌, ◌-◌, ◌%◌, ◌^◌, ◌<◌, ◌≡◌, sym, ap, subst, ◌∙◌, true, List, ◌∷◌, ◌++◌, Option, some, length,
  take, drop, take-past, drop-past, Status, nc_ok, arith,
}
use mathlib.Core.List.{append-nil}
use wx_cache_proxy.Buffer.Mbuf.{Mbuf}
use wx_cache_proxy.Buffer.Content.{unread, content, AreValid}
use wx_cache_proxy.Buffer.Message.{Message}
use wx_cache_proxy.Redis.Bulk.{
  skip_empty, bulk_length, count_bytes, copy_bytes, count_bulk, redis_copy_bulk,
}
use wx_cache_proxy.Redis.Bulk.Spec.{Bulk, head_of, text, IsBulk, bulk_length-text}
use wx_cache_proxy.Redis.Bulk.Copy.{
  advance, Holds, skip_empty-Holds, copy_bytes-Copied, advance-Holds,
}

-- The bulk `b` stands at the start of what the queue holds, its length line within the first buffer
-- that is not empty.
pub record StartsWith (b : Bulk) (h : List Mbuf) : Type 0 where
  pub first : Mbuf
  pub others : List Mbuf
  pub more : List ℕ
  pub rest : List ℕ
  pub found : skip_empty h ≡ first ∷ others
  pub line : unread first ≡ head_of b ++ more
  pub held : content h ≡ text b ++ rest

pub take_first : (xs ys : List ℕ) → take (length xs) (xs ++ ys) ≡ xs
take_first xs ys =
    let e : length xs - length xs ≡ 0 = omega arith in
    take-past (length xs) xs ys (omega arith) ∙ ap (λ k. xs ++ take k ys) e ∙ append-nil xs

pub drop_first : (xs ys : List ℕ) → drop (length xs) (xs ++ ys) ≡ ys
drop_first xs ys =
    let e : length xs - length xs ≡ 0 = omega arith in
    drop-past (length xs) xs ys (omega arith) ∙ ap (λ k. drop k ys) e

module _ (offset : ℕ) (small : offset < 2 ^ 32) where
  -- The outcome of a copy that succeeds: `dst` has got the bulk behind what it held, and `src` holds
  -- what followed the bulk.
  pub record Moves (b : Bulk) (rest : List ℕ) (dst src : Message)
      (out : Status × Option Message × Message) : Type 0 where
    pub dst' : Message
    pub src' : Message
    pub succeeds : out ≡ (nc_ok, some dst', src')
    pub received : Holds offset small dst'.mhdr (content dst.mhdr ++ text b)
    pub left : Holds offset small src'.mhdr rest
    pub queue : src'.mhdr ≡ advance (length (text b)) (skip_empty src.mhdr)

  -- `redis_copy_bulk`, with memory at hand, succeeds on a message that starts with a bulk: the bulk
  -- is put behind what `dst` held, and `src` holds what followed it. The line of the bulk's length
  -- stands within the first buffer that is not empty; the buffers are valid and shorter than 2^32,
  -- and so is the bulk.
  pub redis_copy_bulk-Moves :
      (dst src : Message) (b : Bulk)
      → AreValid offset dst.mhdr
      → AreValid offset src.mhdr
      → IsBulk b
      → (starts : StartsWith b src.mhdr)
      → Moves b starts.rest dst src (redis_copy_bulk offset true (some dst) src)
  unfolding redis_copy_bulk count_bulk count_bytes
  redis_copy_bulk-Moves dst src b w v ok starts =
      let n = length (text b) in
      let q = starts.first ∷ starts.others in
      let (vq, cq) = skip_empty-Holds offset small src.mhdr v in
      let valid : AreValid offset q = subst (AreValid offset) starts.found vq in
      let whole : content q ≡ text b ++ starts.rest =
        ap content (sym starts.found) ∙ cq ∙ starts.held in
      let len : bulk_length (unread starts.first) ≡ n =
        ap bulk_length starts.line ∙ bulk_length-text b starts.more ok in
      let (d, out, (vd, cd)) = copy_bytes-Copied offset small n q dst valid w in
      let (va, ca) = advance-Holds offset small n q valid in
      let s = record src { mhdr = advance n q; mlen = (src.mlen + 2 ^ 32 - n) % 2 ^ 32 } in
      record {
        dst' = record d { mlen = (d.mlen + n) % 2 ^ 32 };
        src' = s;
        succeeds =
            rw (starts.found, redis_copy_bulk)
              (ap (λ k. count_bulk offset true k src (copy_bytes offset true k q (some dst))) len
                ∙ ap (count_bulk offset true n src) out);
        received = (
          vd,
          cd
              ∙ ap (λ l. content dst.mhdr ++ take n l) whole
              ∙ ap (◌++◌ (content dst.mhdr)) (take_first (text b) starts.rest),
        );
        left = (va, ca ∙ ap (drop n) whole ∙ drop_first (text b) starts.rest);
        queue = ap (advance n) (sym starts.found);
      }
