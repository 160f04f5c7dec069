-- ===== src/Pipe/Done/Runs.antt =====
-- nc_request.c: the walks of `req_done` and `req_error` along the fragments in the queue.
use wx_cache_proxy.Base.{
  Option, ◌⊎◌, ℕ, ◌≡◌, ◌≢◌, refl, sym, ap, ap₂, ◌∙◌, Bool, true, false, ◌&&◌, ◌||◌, List, [], ◌∷◌,
  ◌++◌, arith, ◌==◌, if◌then◌else◌, All, All-append,
}
use mathlib.Core.List.{reverse, reverse-cons, reverse-append, append_assoc, append-nil}
use wx_cache_proxy.Pipe.State.{Msg, World, before, before_from, behind, update}
use wx_cache_proxy.Pipe.Done.{run_of, siblings, every, some_of, mark_fdone, mark_ferror, req_done}

-- The queue around the request `m`: its fragments `left`, `m` and `right` are all those with its
-- `frag_id`, and `m` is linked once.
pub record IsRun (msg : ℕ → Msg) (q : List ℕ) (m : ℕ) (pre left right post : List ℕ) : Type 0 where
  pub shape : q ≡ (pre ++ left) ++ (m ∷ (right ++ post))
  pub once : All (λ x. x ≢ m) (pre ++ left)
  pub left_same : All (λ x. (msg x).frag_id ≡ (msg m).frag_id) left
  pub right_same : All (λ x. (msg x).frag_id ≡ (msg m).frag_id) right
  pub pre_other : All (λ x. (msg x).frag_id ≢ (msg m).frag_id) pre
  pub post_other : All (λ x. (msg x).frag_id ≢ (msg m).frag_id) post

behind-append : (m : ℕ) (xs ys : List ℕ) → All (λ x. x ≢ m) xs → behind m (xs ++ (m ∷ ys)) ≡ ys
unfolding behind
behind-append m [] ys h = ground arith
behind-append m (x ∷ xs) ys h = ground (arith, h.0, behind-append m xs ys h.1)

before-append :
    (seen : List ℕ) (m : ℕ) (xs ys : List ℕ)
    → All (λ x. x ≢ m) xs
    → before_from seen m (xs ++ (m ∷ ys)) ≡ reverse xs ++ seen
unfolding before_from
before-append seen m [] ys h = ground arith
before-append seen m (x ∷ xs) ys h =
    let e : before_from seen m ((x ∷ xs) ++ (m ∷ ys)) ≡ before_from (x ∷ seen) m (xs ++ (m ∷ ys)) =
      ground (arith, h.0) in
    e
    ∙ before-append (x ∷ seen) m xs ys h.1
    ∙ sym (append_assoc (reverse xs) (x ∷ []) seen)
    ∙ ap (λ l. l ++ seen) (sym (reverse-cons x xs))

All-reverse : (P : ℕ → Type 0) (xs : List ℕ) → All P xs → All P (reverse xs)
All-reverse P [] h = tt
All-reverse P (x ∷ xs) h =
    rw (reverse-cons x xs) (All-append P (reverse xs) (x ∷ []) (All-reverse P xs h.1) (h.0, tt))

module _ (msg : ℕ → Msg) (id : ℕ) where
  run_of_none : (ys : List ℕ) → All (λ x. (msg x).frag_id ≢ id) ys → run_of msg id ys ≡ []
  unfolding run_of
  run_of_none [] h = refl
  run_of_none (y ∷ ys) h = ground (arith, h.0)

  run_of-append :
      (xs ys : List ℕ)
      → All (λ x. (msg x).frag_id ≡ id) xs
      → All (λ x. (msg x).frag_id ≢ id) ys
      → run_of msg id (xs ++ ys) ≡ xs
  unfolding run_of
  run_of-append [] ys h k = run_of_none ys k
  run_of-append (x ∷ xs) ys h k = ground (arith, h.0, run_of-append xs ys h.1 k)

-- The walks find exactly the other fragments.
pub siblings-IsRun :
    (msg : ℕ → Msg) (q : List ℕ) (m : ℕ) (pre left right post : List ℕ)
    → IsRun msg q m pre left right post
    → siblings msg m q ≡ reverse left ++ right
unfolding siblings
siblings-IsRun msg q m pre left right post r =
    let id = (msg m).frag_id in
    let back : before m q ≡ reverse left ++ reverse pre =
      ap (before m) r.shape
      ∙ before-append [] m (pre ++ left) (right ++ post) r.once
      ∙ append-nil (reverse (pre ++ left))
      ∙ reverse-append pre left in
    let on : behind m q ≡ right ++ post =
      ap (behind m) r.shape ∙ behind-append m (pre ++ left) (right ++ post) r.once in
    ap₂ ◌++◌
      (ap (run_of msg id) back
        ∙ run_of-append msg id (reverse left) (reverse pre) (All-reverse _ left r.left_same)
            (All-reverse _ pre r.pre_other))
      (ap (run_of msg id) on ∙ run_of-append msg id right post r.right_same r.post_other)

module _ (test : Msg → Bool) (msg : ℕ → Msg) where
  pub every-append :
      (xs ys : List ℕ) → every test msg (xs ++ ys) ≡ (every test msg xs && every test msg ys)
  unfolding every
  every-append [] ys = ground arith
  every-append (x ∷ xs) ys = ground (arith, every-append xs ys)

  pub every-reverse : (xs : List ℕ) → every test msg (reverse xs) ≡ every test msg xs
  unfolding every
  every-reverse [] = refl
  every-reverse (x ∷ xs) =
      ap (every test msg) (reverse-cons x xs)
      ∙ every-append (reverse xs) (x ∷ [])
      ∙ ground (arith, every-reverse xs)

  pub some_of-append :
      (xs ys : List ℕ) → some_of test msg (xs ++ ys) ≡ (some_of test msg xs || some_of test msg ys)
  unfolding some_of
  some_of-append [] ys = ground arith
  some_of-append (x ∷ xs) ys = ground (arith, some_of-append xs ys)

  pub some_of-reverse : (xs : List ℕ) → some_of test msg (reverse xs) ≡ some_of test msg xs
  unfolding some_of
  some_of-reverse [] = refl
  some_of-reverse (x ∷ xs) =
      ap (some_of test msg) (reverse-cons x xs)
      ∙ some_of-append (reverse xs) (x ∷ [])
      ∙ ground (arith, some_of-reverse xs)

unfoldable pub elem : ℕ → List ℕ → Bool
elem j [] = false
elem j (x ∷ q) = x == j || elem j q

pub mark_fdone_lem :
    (msg : ℕ → Msg) (q : List ℕ) (j : ℕ)
    → mark_fdone msg q j ≡ (if elem j q then record (msg j) { fdone = true } else msg j)
unfolding mark_fdone elem
mark_fdone_lem msg [] j = refl
mark_fdone_lem msg (x ∷ q) j =
    ground (arith, mark_fdone_lem (update msg x (record (msg x) { fdone = true })) q j)

pub mark_ferror_lem :
    (msg : ℕ → Msg) (q : List ℕ) (j : ℕ)
    → mark_ferror msg q j ≡ (if elem j q then record (msg j) { ferror = true } else msg j)
unfolding mark_ferror elem
mark_ferror_lem msg [] j = refl
mark_ferror_lem msg (x ∷ q) j =
    ground (arith, mark_ferror_lem (update msg x (record (msg x) { ferror = true })) q j)

-- `req_done` leaves the world as it is, or marks the fragments and runs the handler.
pub req_done-cases :
    (post_coalesce : World → Option ℕ → World) (w : World) (q : List ℕ) (m : ℕ)
    → ((req_done post_coalesce w q m).1 ≡ w)
      ⊎ ((req_done post_coalesce w q m).1
          ≡ post_coalesce
              (record w { msg = mark_fdone w.msg (m ∷ siblings w.msg m q) })
              (w.msg m).frag_owner)
unfolding req_done
req_done-cases post_coalesce w q m = ground arith

pub mark_fdone-noreply :
    (msg : ℕ → Msg) (q : List ℕ) (j : ℕ) → (mark_fdone msg q j).noreply ≡ (msg j).noreply
unfolding mark_fdone
mark_fdone-noreply msg [] j = refl
mark_fdone-noreply msg (x ∷ q) j =
    mark_fdone-noreply (update msg x (record (msg x) { fdone = true })) q j ∙ ground arith
