-- ===== src/Pipe/Done.antt =====
-- nc_request.c: `req_done` and `req_error`, which look at all fragments of a request.
pub mod Runs
pub mod Laws
use wx_cache_proxy.Base.{
  ℕ, ◌+◌, Bool, true, false, not, ◌&&◌, ◌||◌, List, [], ◌∷◌, ◌++◌, Option, none, some, ltb, ◌==◌,
  if◌then◌else◌,
}
use wx_cache_proxy.Pipe.State.{Msg, World, before, behind, update}

-- The messages that a walk along the queue visits: as long as `frag_id` is `id`.
unfoldable pub run_of : (ℕ → Msg) → ℕ → List ℕ → List ℕ
run_of msg id [] = []
run_of msg id (x ∷ q) = let rest = run_of msg id q in if (msg x).frag_id == id then x ∷ rest else []

-- The other fragments of `m` in a queue, as the two loops find them.
unfoldable pub siblings : (ℕ → Msg) → ℕ → List ℕ → List ℕ
siblings msg m q =
    run_of msg (msg m).frag_id (before m q) ++ run_of msg (msg m).frag_id (behind m q)

unfoldable pub every : (Msg → Bool) → (ℕ → Msg) → List ℕ → Bool
every test msg [] = true
every test msg (x ∷ q) = test (msg x) && every test msg q

unfoldable pub some_of : (Msg → Bool) → (ℕ → Msg) → List ℕ → Bool
some_of test msg [] = false
some_of test msg (x ∷ q) = test (msg x) || some_of test msg q

unfoldable pub mark_fdone : (ℕ → Msg) → List ℕ → ℕ → Msg
mark_fdone msg [] = msg
mark_fdone msg (x ∷ q) = mark_fdone (update msg x (record (msg x) { fdone = true })) q

unfoldable pub mark_ferror : (ℕ → Msg) → List ℕ → ℕ → Msg
mark_ferror msg [] = msg
mark_ferror msg (x ∷ q) = mark_ferror (update msg x (record (msg x) { ferror = true })) q

-- `post_coalesce` is the protocol's handler, applied to `msg->frag_owner`.
module _ (post_coalesce : World → Option ℕ → World) where
  -- `q` is the queue of the client's requests, `conn->omsg_q`.
  unfoldable pub req_done : World → List ℕ → ℕ → Bool × World
  req_done w q m =
      let x = w.msg m in
      let others = siblings w.msg m q in
      if not x.done
      then (false, w)
      else if x.frag_id == 0
      then (true, w)
      else if x.fdone
      then (true, w)
      else if ltb x.nfrag_done x.nfrag
      then (false, w)
      else if every (λ y. y.done) w.msg others
      then (true, post_coalesce (record w { msg = mark_fdone w.msg (m ∷ others) }) x.frag_owner)
      else (false, w)

unfoldable pub req_error : (ℕ → Msg) → List ℕ → ℕ → Bool × (ℕ → Msg)
req_error msg q m =
    let x = msg m in
    let others = siblings msg m q in
    if x.error
    then (true, msg)
    else if x.frag_id == 0
    then (false, msg)
    else if x.ferror
    then (true, msg)
    else if some_of (λ y. y.error) msg others
    then (true, mark_ferror msg (m ∷ others))
    else (false, msg)
