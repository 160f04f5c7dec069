-- ===== src/Redis/Coalesce/Join.antt =====
-- nc_redis.c: the response to MGET is put together from the responses to its fragments.
use wx_cache_proxy.Base.{
  ℕ, ◌+◌, ◌-◌, ◌%◌, ◌^◌, ◌<◌, ◌≡◌, refl, sym, ap, subst, ◌∙◌, true, false, List, [], ◌∷◌, ◌++◌,
  Option, none, some, leb, ◌==◌, if◌then◌else◌, length, nc_ok, arith, Bool-cases, Option-cases, inl,
  inr,
}
use mathlib.Core.List.{append_assoc, append-nil}
use wx_cache_proxy.Buffer.Mbuf.{Mbuf, mbuf_get, mbuf_size}
use wx_cache_proxy.Buffer.Content.{content, AreValid}
use wx_cache_proxy.Buffer.Message.{Message, msg_prepend_format}
use wx_cache_proxy.Redis.Bulk.{skip_empty}
use wx_cache_proxy.Redis.Bulk.Spec.{Bulk, text, IsBulk}
use wx_cache_proxy.Redis.Bulk.Copy.{advance, Holds}
use wx_cache_proxy.Redis.Bulk.Moves.{StartsWith, redis_copy_bulk-Moves}
use wx_cache_proxy.Redis.Reply.{decrement}
use wx_cache_proxy.Redis.Coalesce.{
  Joined, update, join_next, join_bulks, after_count, redis_post_coalesce_mget,
}

-- A queue that holds `bs` one behind the other, each length line within one buffer.
abbrev pub Laid : List Mbuf → List Bulk → Type 0
Laid h [] = Unit
Laid h (b ∷ bs) = IsBulk b × StartsWith b h × Laid (advance (length (text b)) (skip_empty h)) bs

-- The answer to a request of several keys: for each key the fragment it went to, and its bulk.
abbrev pub texts : List (ℕ × Bulk) → List ℕ
texts [] = []
texts ((k, b) ∷ parts) = text b ++ texts parts

abbrev pub seq_of : List (ℕ × Bulk) → List ℕ
seq_of [] = []
seq_of ((k, b) ∷ parts) = k ∷ seq_of parts

-- The bulks of one fragment.
abbrev pub of_fragment : ℕ → List (ℕ × Bulk) → List Bulk
of_fragment k [] = []
of_fragment k ((i, b) ∷ parts) = let rest = of_fragment k parts in if i == k then b ∷ rest else rest

module _ (offset : ℕ) (small : offset < 2 ^ 32) (print : ℕ → List ℕ) where
  -- The response of a fragment holds the bulks `bs`; without bulks there may be none.
  abbrev pub Carries : Option Message → List Bulk → Type 0
  Carries none bs = bs ≡ []
  Carries (some sub) bs = AreValid offset sub.mhdr × Laid sub.mhdr bs

  abbrev AllCarry : Joined → List (ℕ × Bulk) → Type 0
  AllCarry j parts = (k : ℕ) → Carries (j.fragments k) (of_fragment k parts)

  own :
      (k : ℕ) (b : Bulk) (parts : List (ℕ × Bulk))
      → of_fragment k ((k, b) ∷ parts) ≡ b ∷ of_fragment k parts
  own k b parts = let e : (k == k) ≡ true = ground arith in rw e refl

  other :
      (i k : ℕ) (b : Bulk) (parts : List (ℕ × Bulk))
      → (i == k) ≡ false
      → of_fragment i ((k, b) ∷ parts) ≡ of_fragment i parts
  other i k b parts h = let e : (k == i) ≡ false = ground arith in rw e refl

  -- Every other fragment is left as it was.
  update-Carries :
      (j : Joined) (k : ℕ) (b : Bulk) (parts : List (ℕ × Bulk)) (response sub : Message)
      → AllCarry j ((k, b) ∷ parts)
      → Carries (some sub) (of_fragment k parts)
      → AllCarry (record j { response = response; fragments = update j.fragments k sub }) parts
  unfolding update
  update-Carries j k b parts response sub all c i = elim (Bool-cases (i == k)) [
    | inl e ↦
        let same : k ≡ i = ground arith in
        rw e (subst (λ n. Carries (some sub) (of_fragment n parts)) same c)
    | inr e ↦ rw e (subst (Carries (j.fragments i)) (other i k b parts e) (all i))
  ]

  -- The outcome: nothing is closed, and the bulks stand in the order of the keys.
  abbrev pub Collects : Joined → List ℕ → Joined → Type 0
  Collects j bytes out = (out.closed ≡ j.closed) × Holds offset small out.response.mhdr bytes

  not_nil : (b : Bulk) (bs : List Bulk) → ¬ (b ∷ bs ≡ [])
  not_nil b bs e = cc

  join_bulks-Collects :
      (parts : List (ℕ × Bulk)) (j : Joined)
      → AreValid offset j.response.mhdr
      → AllCarry j parts
      → Collects j
          (content j.response.mhdr ++ texts parts)
          (join_bulks offset print (λ i. true) (seq_of parts) j)
  unfolding join_bulks join_next
  join_bulks-Collects [] j v all = (refl, (v, sym (append-nil (content j.response.mhdr))))
  join_bulks-Collects ((k, b) ∷ parts) j v all =
      let here = subst (Carries (j.fragments k)) (own k b parts) (all k) in
      elim (Option-cases (j.fragments k)) [
        | inl e ↦ absurd (
            not_nil b (of_fragment k parts)
              (subst (λ o. Carries o (b ∷ of_fragment k parts)) e here))
        | inr (sub, e) ↦
            let (valid, laid) = subst (λ o. Carries o (b ∷ of_fragment k parts)) e here in
            let mv = redis_copy_bulk-Moves offset small j.response sub b v valid laid.0 laid.1 in
            let next = join_bulks offset print (λ i. true) (seq_of parts) in
            let j1 = record j { response = mv.dst'; fragments = update j.fragments k mv.src' } in
            let run : join_bulks offset print (λ i. true) (k ∷ seq_of parts) j ≡ next j1 =
              rw (e, join_bulks) (ap (join_next offset print j k next) mv.succeeds) in
            let remains : Carries (some mv.src') (of_fragment k parts) =
              (mv.left.0, subst (λ h. Laid h (of_fragment k parts)) (sym mv.queue) laid.2) in
            let (c, (w, held)) =
              join_bulks-Collects parts j1 mv.received.0
                (update-Carries j k b parts mv.dst' mv.src' all remains) in
            subst (Collects j (content j.response.mhdr ++ (text b ++ texts parts))) (sym run) (
              c,
              (
                w,
                held
                    ∙ ap (λ l. l ++ texts parts) mv.received.1
                    ∙ append_assoc (content j.response.mhdr) (text b) (texts parts),
              ),
            )
      ]

  -- The first line of the answer.
  abbrev pub count_line : ℕ → List ℕ
  count_line narg = b'*' ∷ (print (decrement narg) ++ 13 ∷ 10 ∷ [])

  pub prepend-ok :
      (msg : Message) (line : List ℕ)
      → 0 < length line
      → length line < offset
      → msg_prepend_format offset msg line true ≡ (
        nc_ok,
        record msg {
          mhdr = record { bytes = line; pos = 0 } ∷ msg.mhdr;
          mlen = (msg.mlen + length line) % 2 ^ 32;
        },
      )
  unfolding msg_prepend_format mbuf_get mbuf_size
  prepend-ok msg line h k =
      let some_bytes : (length line == 0) ≡ false = ground arith in
      let room : leb ((offset - 0) % 2 ^ 32) (length line) ≡ false = ground arith in
      rw (msg_prepend_format, some_bytes, room) refl

  -- The answer to a divided MGET: `redis_post_coalesce_mget`, with memory at hand, puts behind the
  -- line with the number of bulks, and behind what the response held, one bulk for each key, in the
  -- order of the keys, and closes nothing. The response to each fragment holds the bulks of its
  -- keys in their order, each with the line of its length within one buffer; the first line is
  -- shorter than a buffer; the buffers are valid and shorter than 2^32.
  pub redis_post_coalesce_mget-Collects :
      (narg : ℕ) (parts : List (ℕ × Bulk)) (j : Joined)
      → AreValid offset j.response.mhdr
      → length (count_line narg) < offset
      → ((k : ℕ) → Carries (j.fragments k) (of_fragment k parts))
      → Collects j
          (count_line narg ++ content j.response.mhdr ++ texts parts)
          (redis_post_coalesce_mget offset print true (λ i. true) narg (seq_of parts) j)
  unfolding redis_post_coalesce_mget after_count content
  redis_post_coalesce_mget-Collects narg parts j v room all =
      let line = count_line narg in
      let headed : Message = record (j.response) {
        mhdr = record { bytes = line; pos = 0 } ∷ j.response.mhdr;
        mlen = (j.response.mlen + length line) % 2 ^ 32;
      } in
      let (c, (w, held)) =
        join_bulks-Collects parts (record j { response = headed })
          (record { ordered = omega arith; within = omega arith }, v) all in
      subst (Collects j (line ++ content j.response.mhdr ++ texts parts))
        (sym (
          ap (after_count offset print (λ i. true) (seq_of parts) j)
            (prepend-ok j.response line (omega arith) room)))
        (c, (w, held))
