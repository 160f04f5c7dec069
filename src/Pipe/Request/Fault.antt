-- ===== src/Pipe/Request/Fault.antt =====
-- nc_request.c: what `req_recv_done` puts into the client's queue.
use wx_cache_proxy.Base.{
  ℕ, ◌≡◌, ◌≢◌, refl, ap, ◌∙◌, Bool, true, false, List, [], ◌∷◌, ◌++◌, Option, if◌then◌else◌, arith,
  Bool-cases, Option-cases, inl, inr, Status, nc_ok, nc_error, nc_enomem,
}
use wx_cache_proxy.Pipe.State.{Msg, Client, World, first, linked, set_client, set_msg}
use wx_cache_proxy.Pipe.Queue.{req_client_enqueue_omsgq}
use wx_cache_proxy.Pipe.Done.Runs.{req_done-cases, mark_fdone-noreply}
use wx_cache_proxy.Pipe.Done.{siblings}
use wx_cache_proxy.Pipe.Request.{
  Protocol, Env, req_filter, req_done, wake_client, req_forward_error, req_forward, report,
  forward_fragments, answer_here, req_recv_done,
}
use wx_cache_proxy.Pipe.Request.Queued.{
  SparesClient, queue_of, inserted, client_out-msg, enqueue-queue_of, error-queue_of,
  req_forward-queue_of,
}

-- What becomes of the queue of a request that is forwarded whole.
unfoldable pub Enqueues : Status → ℕ → Client → Client → Type 0
Enqueues nc_ok m before after =
    (after.omsg_q ≡ before.omsg_q ++ m ∷ []) × (after.looped ≡ before.looped)
Enqueues _ m before after = after.looped ≡ true

module _ (c : ℕ) (protocol : Protocol) (q : SparesClient c protocol) where
  req_done-noreply :
      (w : World) (m j : ℕ) → ((req_done protocol w c m).1.msg j).noreply ≡ (w.msg j).noreply
  unfolding req_done
  req_done-noreply w m j = elim (req_done-cases protocol.post_coalesce w (w.client c).omsg_q m) [
    | inl e ↦ ap (λ (v : World). (v.msg j).noreply) e
    | inr e ↦
        ap (λ (v : World). (v.msg j).noreply) e
        ∙ q.flags _ (w.msg m).frag_owner j
        ∙ mark_fdone-noreply w.msg (m ∷ siblings w.msg m (w.client c).omsg_q) j
  ]

  wake_client-noreply :
      (env : Env) (w : World) (j : ℕ)
      → ((wake_client protocol env w c).msg j).noreply ≡ (w.msg j).noreply
  unfolding wake_client
  wake_client-noreply env w j = elim (Option-cases (first (w.client c).omsg_q)) [
    | inl e ↦ rw (wake_client, e) refl
    | inr (m, e) ↦ elim (Bool-cases (req_done protocol w c m).0) [
      | inl t ↦
          rw (wake_client, e, t)
            (ap (λ (f : ℕ → Msg). (f j).noreply) (client_out-msg env (req_done protocol w c m).1 c)
              ∙ req_done-noreply w m j)
      | inr f ↦ rw (wake_client, e, f) (req_done-noreply w m j)
    ]
  ]

  -- What `report` does about a failure.
  failed-queue_of :
      (env : Env) (w : World) (m : ℕ)
      → (w.msg m).noreply ≡ false
      → queue_of (
          (req_forward_error protocol env
              (if (w.msg m).noreply then w else req_client_enqueue_omsgq w c m)
              c
              m).client
            c)
        ≡ inserted m (queue_of (w.client c))
  failed-queue_of env w m e =
      rw e (
        error-queue_of c protocol q env (req_client_enqueue_omsgq w c m) m ∙ enqueue-queue_of w c m)

  error-noreply :
      (env : Env) (w : World) (m : ℕ)
      → (w.msg m).noreply ≡ false
      → ((req_forward_error protocol env w c m).msg m).noreply ≡ false
  unfolding req_forward_error
  error-noreply env w m e =
      let failed : World =
        set_msg w m (record (w.msg m) { done = true; error = true; err = env.errno }) in
      let kept : (failed.msg m).noreply ≡ (w.msg m).noreply = ground arith in
      let wake = wake_client-noreply env failed m in ground (arith, kept, wake)

  failed-noreply :
      (env : Env) (w : World) (m : ℕ)
      → (w.msg m).noreply ≡ false
      → ((req_forward_error protocol env
            (if (w.msg m).noreply then w else req_client_enqueue_omsgq w c m)
            c
            m).msg
          m).noreply
        ≡ false
  unfolding req_client_enqueue_omsgq
  failed-noreply env w m e = rw e (error-noreply env (req_client_enqueue_omsgq w c m) m e)

  -- What `report` inserts.
  abbrev on_failure : Status → ℕ → List ℕ × Bool → List ℕ × Bool
  on_failure nc_ok m k = k
  on_failure _ m k = inserted m k

  report-queue_of :
      (env : Env) (st : Status) (w : World) (m : ℕ)
      → (w.msg m).noreply ≡ false
      → queue_of ((report protocol env st w c m).client c) ≡ on_failure st m (queue_of (w.client c))
  unfolding report
  report-queue_of env nc_ok w m e = refl
  report-queue_of env nc_error w m e = failed-queue_of env w m e
  report-queue_of env nc_enomem w m e = failed-queue_of env w m e

  report-noreply :
      (env : Env) (st : Status) (w : World) (m : ℕ)
      → (w.msg m).noreply ≡ false
      → ((report protocol env st w c m).msg m).noreply ≡ false
  unfolding report
  report-noreply env nc_ok w m e = e
  report-noreply env nc_error w m e = failed-noreply env w m e
  report-noreply env nc_enomem w m e = failed-noreply env w m e

  passes :
      (w : World) (m : ℕ)
      → (w.msg m).mlen ≢ 0
      → (w.msg m).quit ≡ false
      → (w.client c).authenticated ≡ true
      → req_filter w c m ≡ (false, w)
  unfolding req_filter
  passes w m full stays known = ground arith

  unfragmented :
      (env : Env) (w : World) (m : ℕ)
      → (protocol.fragment w m).1 ≡ []
      → forward_fragments protocol env w c m
        ≡ req_forward protocol env
            (report protocol env (protocol.fragment w m).0 (protocol.fragment w m).2 c m)
            c
            m
  unfolding forward_fragments
  unfragmented env w m whole = rw (forward_fragments, whole) refl

  unanswered :
      (env : Env) (w w1 : World) (m : ℕ) (nmsg : Option ℕ)
      → req_filter (set_client w c (record (w.client c) { rmsg = nmsg })) c m ≡ (false, w1)
      → (w1.msg m).noforward ≡ false
      → req_recv_done protocol env w c m nmsg ≡ forward_fragments protocol env w1 c m
  unfolding req_recv_done
  unanswered env w w1 m nmsg e ours =
      ap
        (λ (p : Bool × World).
          if p.0
          then p.1
          else if (p.1.msg m).noforward
          then answer_here protocol env p.1 c m
          else forward_fragments protocol env p.1 c m)
        e
      ∙ rw ours refl

  -- The request is inserted once or twice.
  req_recv_done-inserted :
      (env : Env) (w : World) (m : ℕ) (nmsg : Option ℕ)
      → let w1 : World = set_client w c (record (w.client c) { rmsg = nmsg }) in
        (w.msg m).mlen ≢ 0
        → (w.msg m).quit ≡ false
        → (w.client c).authenticated ≡ true
        → (w.msg m).noforward ≡ false
        → (protocol.fragment w1 m).1 ≡ []
        → ((protocol.fragment w1 m).2.msg m).noreply ≡ false
        → queue_of ((req_recv_done protocol env w c m nmsg).client c)
          ≡ inserted m (on_failure (protocol.fragment w1 m).0 m (queue_of (w.client c)))
  req_recv_done-inserted env w m nmsg full stays known ours whole asks =
      let w1 : World = set_client w c (record (w.client c) { rmsg = nmsg }) in
      let status = (protocol.fragment w1 m).0 in
      let v : World = (protocol.fragment w1 m).2 in
      let r : World = report protocol env status v c m in
      let known1 : (w1.client c).authenticated ≡ true = ground arith in
      let passed : req_filter w1 c m ≡ (false, w1) = passes w1 m full stays known1 in
      let start : queue_of (w1.client c) ≡ queue_of (w.client c) = ground arith in
      let reported : queue_of (r.client c) ≡ on_failure status m (queue_of (w.client c)) =
        report-queue_of env status v m asks ∙ ap (on_failure status m) (q.fragment w1 m ∙ start) in
      ap (λ (v : World). queue_of (v.client c))
        (unanswered env w w1 m nmsg passed ours ∙ unfragmented env w1 m whole)
      ∙ req_forward-queue_of c protocol q env r m (report-noreply env status v m asks)
      ∙ ap (inserted m) reported

  linked-last : (q : List ℕ) (m : ℕ) → linked m (q ++ m ∷ []) ≡ true
  unfolding linked
  linked-last [] m = ground arith
  linked-last (x ∷ q) m = ground (arith, linked-last q m)

  inserted-Enqueues :
      (st : Status) (m : ℕ) (before after : Client)
      → linked m before.omsg_q ≡ false
      → queue_of after ≡ inserted m (on_failure st m (queue_of before))
      → Enqueues st m before after
  unfolding Enqueues
  inserted-Enqueues nc_ok m before after fresh e =
      (ap (λ k. k.0) e, ap (λ k. k.1) e ∙ rw fresh (ground arith))
  inserted-Enqueues nc_error m before after fresh e =
      ap (λ k. k.1) e ∙ rw (linked-last before.omsg_q m) (ground arith)
  inserted-Enqueues nc_enomem m before after fresh e =
      ap (λ k. k.1) e ∙ rw (linked-last before.omsg_q m) (ground arith)

  -- A request that has a reply and yields no fragments comes to stand once, at the end, in the
  -- client's queue, which is not looped by that, if the handler `fragment` succeeds. If it fails,
  -- the queue is looped afterwards: the function does not return after the failure, and
  -- `req_forward` inserts the request while it is linked in the queue. The request is neither empty
  -- nor a `quit` nor in the queue before, the client is authenticated, and the proxy does not
  -- answer the request itself. The handlers leave the client's queue alone, and `post_coalesce` the
  -- flag `noreply`.
  pub req_recv_done-Enqueues :
      (env : Env) (w : World) (m : ℕ) (nmsg : Option ℕ)
      → let w1 : World = set_client w c (record (w.client c) { rmsg = nmsg }) in
        (w.msg m).mlen ≢ 0
        → (w.msg m).quit ≡ false
        → (w.client c).authenticated ≡ true
        → (w.msg m).noforward ≡ false
        → linked m (w.client c).omsg_q ≡ false
        → (protocol.fragment w1 m).1 ≡ []
        → ((protocol.fragment w1 m).2.msg m).noreply ≡ false
        → Enqueues
            (protocol.fragment w1 m).0
            m
            (w.client c)
            ((req_recv_done protocol env w c m nmsg).client c)
  req_recv_done-Enqueues env w m nmsg full stays known ours fresh whole asks =
      inserted-Enqueues _ m (w.client c) _ fresh
        (req_recv_done-inserted env w m nmsg full stays known ours whole asks)
