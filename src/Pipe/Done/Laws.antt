-- ===== src/Pipe/Done/Laws.antt =====
-- nc_request.c: the answers of `req_done` and `req_error`, and their marks.
use wx_cache_proxy.Base.{
  ℕ, ◌≡◌, ◌≢◌, refl, sym, ap, ◌∙◌, Bool, true, false, ◌&&◌, ◌||◌, not, List, [], ◌∷◌, ◌++◌, Option,
  arith, leb, ◌==◌, if◌then◌else◌, Bool-cases, inl, inr,
}
use mathlib.Core.List.{reverse, reverse-cons}
use wx_cache_proxy.Pipe.State.{Msg, World}
use wx_cache_proxy.Pipe.Done.{
  siblings, every, some_of, mark_fdone, mark_ferror, req_done, req_error,
}
use wx_cache_proxy.Pipe.Done.Runs.{
  IsRun, siblings-IsRun, every-append, every-reverse, some_of-append, some_of-reverse, elem,
  mark_fdone_lem, mark_ferror_lem,
}

elem-append : (j : ℕ) (xs ys : List ℕ) → elem j (xs ++ ys) ≡ (elem j xs || elem j ys)
unfolding elem
elem-append j [] ys = ground arith
elem-append j (x ∷ xs) ys = ground (arith, elem-append j xs ys)

elem-reverse : (j : ℕ) (xs : List ℕ) → elem j (reverse xs) ≡ elem j xs
unfolding elem
elem-reverse j [] = refl
elem-reverse j (x ∷ xs) =
    ap (elem j) (reverse-cons x xs)
    ∙ elem-append j (reverse xs) (x ∷ [])
    ∙ ground (arith, elem-reverse j xs)

every-elem :
    (test : Msg → Bool) (msg : ℕ → Msg) (q : List ℕ) (j : ℕ)
    → every test msg q ≡ true
    → elem j q ≡ true
    → test (msg j) ≡ true
unfolding every elem
every-elem test msg [] j e h = cc
every-elem test msg (x ∷ q) j e h = elim (Bool-cases (x == j)) [
  | inl here ↦
      let same : x ≡ j = ground arith in ap (λ (k : ℕ). test (msg k)) (sym same) ∙ ground arith
  | inr there ↦ every-elem test msg q j (ground arith) (ground arith)
]

flagged :
    (post_coalesce : World → Option ℕ → World) (w : World) (q : List ℕ) (k : ℕ)
    → (w.msg k).done ≡ true
    → (w.msg k).fdone ≡ true
    → req_done post_coalesce w q k ≡ (true, w)
unfolding req_done
flagged post_coalesce w q k d f = ground arith

ferror_flagged :
    (msg : ℕ → Msg) (q : List ℕ) (k : ℕ)
    → (msg k).ferror ≡ true
    → (msg k).frag_id ≢ 0
    → (req_error msg q k).0 ≡ true
unfolding req_error
ferror_flagged msg q k e f = ground arith

req_error_marks :
    (msg : ℕ → Msg) (q : List ℕ) (m : ℕ)
    → (msg m).error ≡ false
    → (msg m).ferror ≡ false
    → (req_error msg q m).0 ≡ true
    → (req_error msg q m).1 ≡ mark_ferror msg (m ∷ siblings msg m q)
unfolding req_error
req_error_marks msg q m c u h = ground arith

module _ (msg : ℕ → Msg) (q : List ℕ) (m : ℕ) (pre left right post : List ℕ)
    (run : IsRun msg q m pre left right post) where
  every-siblings :
      (test : Msg → Bool) → every test msg (siblings msg m q) ≡ every test msg (left ++ right)
  every-siblings test =
      ap (every test msg) (siblings-IsRun msg q m pre left right post run)
      ∙ every-append test msg (reverse left) right
      ∙ ap (λ b. b && every test msg right) (every-reverse test msg left)
      ∙ sym (every-append test msg left right)

  some_of-siblings :
      (test : Msg → Bool) → some_of test msg (siblings msg m q) ≡ some_of test msg (left ++ right)
  some_of-siblings test =
      ap (some_of test msg) (siblings-IsRun msg q m pre left right post run)
      ∙ some_of-append test msg (reverse left) right
      ∙ ap (λ b. b || some_of test msg right) (some_of-reverse test msg left)
      ∙ sym (some_of-append test msg left right)

  elem-siblings : (j : ℕ) → elem j (m ∷ siblings msg m q) ≡ elem j (m ∷ (left ++ right))
  unfolding elem
  elem-siblings j =
      ap (λ b. m == j || b)
        (ap (elem j) (siblings-IsRun msg q m pre left right post run)
          ∙ elem-append j (reverse left) right
          ∙ ap (λ b. b || elem j right) (elem-reverse j left)
          ∙ sym (elem-append j left right))

  -- `req_error` holds of a request that is in error itself, or is fragmented and already marked, or
  -- is fragmented and has a fragment in error; of no other request. `m` is linked once in the
  -- queue, and its fragments `left` and `right` stand around it, between messages with another
  -- `frag_id`.
  pub req_error-answer : (req_error msg q m).0 ≡ (
      (msg m).error
      || (not ((msg m).frag_id == 0)
          && ((msg m).ferror || some_of (λ y. y.error) msg (left ++ right))))
  unfolding req_error
  req_error-answer = ground (arith, some_of-siblings (λ y. y.error))

  -- An error in one fragment reaches all of them: once `req_error` holds of a request that is
  -- neither in error itself nor marked, it holds of each of its fragments that has a `frag_id`,
  -- whatever the queue. `m` is linked once in the queue, and its fragments `left` and `right` stand
  -- around it, between messages with another `frag_id`.
  pub req_error-sticky :
      (msg m).error ≡ false
      → (msg m).ferror ≡ false
      → (req_error msg q m).0 ≡ true
      → (k : ℕ) (q' : List ℕ) → elem k (m ∷ (left ++ right)) ≡ true
      → (msg k).frag_id ≢ 0
      → (req_error (req_error msg q m).1 q' k).0 ≡ true
  req_error-sticky clean unmarked holds k q' h f =
      let e = req_error_marks msg q m clean unmarked holds in
      let mine : mark_ferror msg (m ∷ siblings msg m q) k ≡ record (msg k) { ferror = true } =
        mark_ferror_lem msg (m ∷ siblings msg m q) k
        ∙ ap (λ b. if b then record (msg k) { ferror = true } else msg k) (elem-siblings k ∙ h) in
      rw e (
        ferror_flagged _ q' k (ap (λ y. y.ferror) mine)
          (λ z. f (sym (ap (λ y. y.frag_id) mine) ∙ z)))

module _ (w : World) (q : List ℕ) (m : ℕ) (pre left right post : List ℕ)
    (run : IsRun w.msg q m pre left right post) where
  -- `req_done` holds of a request that is done itself and that is not fragmented, or already
  -- marked, or has at least `nfrag` fragments answered and stands among fragments that are all
  -- done; of no other request. `m` is linked once in the queue, and its fragments `left` and
  -- `right` stand around it, between messages with another `frag_id`.
  pub req_done-answer :
      (post_coalesce : World → Option ℕ → World)
      → (req_done post_coalesce w q m).0 ≡ (
          (w.msg m).done
          && ((w.msg m).frag_id == 0
              || ((w.msg m).fdone
                  || (leb (w.msg m).nfrag (w.msg m).nfrag_done
                      && every (λ y. y.done) w.msg (left ++ right)))))
  unfolding req_done
  req_done-answer post_coalesce =
      ground (arith, every-siblings w.msg q m pre left right post run (λ y. y.done))

  -- What is left behind when `req_done` finds a fragmented request done for the first time: every
  -- fragment is marked, no other message is, and then the handler runs on the fragments' owner.
  module _ (post_coalesce : World → Option ℕ → World) (fragmented : (w.msg m).frag_id ≢ 0)
      (unmarked : (w.msg m).fdone ≡ false) (holds : (req_done post_coalesce w q m).0 ≡ true) where
    req_done-marked :
        (req_done post_coalesce w q m).1
        ≡ post_coalesce
            (record w { msg = mark_fdone w.msg (m ∷ siblings w.msg m q) })
            (w.msg m).frag_owner
    unfolding req_done
    req_done-marked = ground arith

    all_done : (k : ℕ) → elem k (m ∷ (left ++ right)) ≡ true → (w.msg k).done ≡ true
    unfolding every
    all_done k h =
        every-elem (λ y. y.done) w.msg (m ∷ (left ++ right)) k
          (ground (arith, req_done-answer post_coalesce)) h

    -- The marks make the answer stick: once a fragmented request that was not marked has been found
    -- done, `req_done` holds at once of each of its fragments, whatever the queue, and changes
    -- nothing more. The handler changes no flag `done` or `fdone`. `m` is linked once in the queue,
    -- and its fragments `left` and `right` stand around it, between messages with another
    -- `frag_id`.
    pub req_done-sticky :
        ((f : World) (o : Option ℕ) (j : ℕ)
          → (((post_coalesce f o).msg j).done ≡ (f.msg j).done)
            × (((post_coalesce f o).msg j).fdone ≡ (f.msg j).fdone))
        → (k : ℕ) (q' : List ℕ) → elem k (m ∷ (left ++ right)) ≡ true
        → let after = (req_done post_coalesce w q m).1 in
          req_done post_coalesce after q' k ≡ (true, after)
    req_done-sticky keeps k q' h =
        let marked : World = record w { msg = mark_fdone w.msg (m ∷ siblings w.msg m q) } in
        let e = req_done-marked in
        let kept = keeps marked (w.msg m).frag_owner k in
        let mine : marked.msg k ≡ record (w.msg k) { fdone = true } =
          mark_fdone_lem w.msg (m ∷ siblings w.msg m q) k
          ∙ ap (λ b. if b then record (w.msg k) { fdone = true } else w.msg k)
              (elem-siblings w.msg q m pre left right post run k ∙ h) in
        let done : ((post_coalesce marked (w.msg m).frag_owner).msg k).done ≡ true =
          kept.0 ∙ ap (λ y. y.done) mine ∙ all_done k h in
        let fdone : ((post_coalesce marked (w.msg m).frag_owner).msg k).fdone ≡ true =
          kept.1 ∙ ap (λ y. y.fdone) mine in
        rw e (flagged post_coalesce _ q' k done fdone)
