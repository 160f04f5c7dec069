-- ===== src/Pipe/Response/Order.antt =====
-- The requests of one server connection, as the handlers of nc_request.c and nc_response.c pass them
-- through its two queues.
use wx_cache_proxy.Base.{
  ℕ, ◌≡◌, refl, sym, ap, ◌∙◌, true, List, [], ◌∷◌, ◌++◌, Option, none, some, ◌==◌, if◌then◌else◌,
  arith, Bool-cases, Option-cases, inl, inr,
}
use mathlib.Core.List.{append_assoc, append-nil}
use wx_cache_proxy.Pipe.State.{World, set_msg, set_link, update, first}
use wx_cache_proxy.Pipe.Queue.{rsp_put, req_put, req_server_enqueue_imsgq, req_server_dequeue_omsgq}
use wx_cache_proxy.Pipe.Request.{Protocol, Env, req_send_done}
use wx_cache_proxy.Pipe.Response.Quiet.{
  IsQuiet, AreQuiet, IsQuiet-trans, IsQuiet-msg, rsp_put-IsQuiet, req_put-IsQuiet,
  wake_client-IsQuiet,
}
use wx_cache_proxy.Pipe.Response.{fail_link, rsp_filter, rsp_forward, rsp_recv_done}
use wx_cache_proxy.Pipe.Response.Waiting.{waiting, waiting-IsQuiet, answers, sends, arrives}

-- What happens on a server connection: a request arrives, the head of the queue has been written, or
-- a response has been read.
pub data Event : Type 0 where
  arrived : ℕ → ℕ → Event
  written : Event
  received : ℕ → Option ℕ → Event

module _ (protocol : Protocol) where
  unfoldable pub step : Env → ℕ → World → Event → World
  step env s w (arrived m now) = req_server_enqueue_imsgq w s m now
  step env s w written = elim (first (w.link s).imsg_q) [ none ↦ w | some m ↦ req_send_done w s m ]
  step env s w (received r nmsg) = rsp_recv_done protocol env w s r nmsg

  unfoldable pub run : Env → ℕ → World → List Event → World
  run env s w [] = w
  run env s w (e ∷ es) = run env s (step env s w e) es

  -- The request that an event adds to those that wait.
  unfoldable pub entering : World → Event → List ℕ
  entering w (arrived m now) = if (w.msg m).noreply then [] else m ∷ []
  entering w _ = []

  -- The request that an event answers: the oldest one that was sent, unless the response is empty,
  -- announces a failure, or comes when no request was sent.
  unfoldable pub answering : ℕ → World → Event → List ℕ
  answering s w (received r nmsg) =
      if (w.msg r).mlen == 0 then [] else elim (first (w.link s).omsg_q) [
        | none ↦ []
        | some m ↦
            if protocol.failure
              (record w { link = update w.link s (record (w.link s) { rmsg = nmsg }) }) r
            then []
            else m ∷ []
      ]
  answering s w _ = []

  unfoldable pub entered : Env → ℕ → World → List Event → List ℕ
  entered env s w [] = []
  entered env s w (e ∷ es) = entering w e ++ entered env s (step env s w e) es

  unfoldable pub answered : Env → ℕ → World → List Event → List ℕ
  answered env s w [] = []
  answered env s w (e ∷ es) = answering s w e ++ answered env s (step env s w e) es

module _ (env : Env) (s : ℕ) (protocol : Protocol) (q : AreQuiet s protocol) where
  -- A response that is forwarded.
  forward-fifo :
      (v w : World) (r m : ℕ)
      → IsQuiet s v w
      → first (w.link s).omsg_q ≡ some m
      → m ∷ waiting (rsp_forward protocol env w s r) s ≡ waiting v s
  unfolding rsp_forward waiting
  forward-fifo v w r m h e =
      let d : World = req_server_dequeue_omsgq w s m in
      let w2 : World = set_msg d m (record (d.msg m) { done = true; peer = some r }) in
      let w3 : World = set_msg w2 r (record (w2.msg r) { peer = some m }) in
      let w4 : World = protocol.pre_coalesce w3 r in
      let marked : IsQuiet s d w3 = IsQuiet-msg s d w3 refl (λ j. ground arith) in
      rw (rsp_forward, e)
        (answers s v w _ m (ap first (sym h.sent) ∙ e) h (
          IsQuiet-trans s d w3 _ marked (
            IsQuiet-trans s w3 w4 _ (q.pre w3 r)
              (wake_client-IsQuiet s protocol q env w4 (w4.msg m).owner))))

  -- A response to a request that the proxy made itself.
  swallow-fifo :
      (v w : World) (r m : ℕ)
      → IsQuiet s v w
      → first (v.link s).omsg_q ≡ some m
      → let w1 : World = req_server_dequeue_omsgq w s m in
        let w2 : World = set_msg w1 m (record (w1.msg m) { done = true }) in
        m ∷ waiting (req_put (rsp_put w2 r) m) s ≡ waiting v s
  swallow-fifo v w r m h e =
      let w1 : World = req_server_dequeue_omsgq w s m in
      let w2 : World = set_msg w1 m (record (w1.msg m) { done = true }) in
      answers s v w _ m e h (
        IsQuiet-trans s w1 w2 _ (IsQuiet-msg s w1 w2 refl (λ j. ground arith)) (
          IsQuiet-trans s w2 (rsp_put w2 r) _ (rsp_put-IsQuiet s w2 r)
            (req_put-IsQuiet s (rsp_put w2 r) m)))

  -- A response that is thrown away.
  stray-fifo :
      (v w : World) (r : ℕ) → IsQuiet s v w → waiting (fail_link (rsp_put w r) s) s ≡ waiting v s
  stray-fifo v w r h =
      let p : World = rsp_put w r in
      waiting-IsQuiet s v _ (
        IsQuiet-trans s v w _ h (
          IsQuiet-trans s w p _ (rsp_put-IsQuiet s w r)
            (record { sent = ground arith; unsent = ground arith; flags = λ j. refl })))

  received-fifo :
      (w : World) (r : ℕ) (nmsg : Option ℕ)
      → answering protocol s w (received r nmsg)
          ++ waiting (rsp_recv_done protocol env w s r nmsg) s
        ≡ waiting w s
  unfolding answering rsp_recv_done rsp_filter
  received-fifo w r nmsg =
      let w1 : World = set_link w s (record (w.link s) { rmsg = nmsg }) in
      let start : IsQuiet s w w1 = record {
        sent = ground arith;
        unsent = ground arith;
        flags = λ j. refl;
      } in
      elim (Bool-cases ((w.msg r).mlen == 0)) [
        | inl z ↦
            rw (answering, rsp_recv_done, rsp_filter, z)
              (waiting-IsQuiet s w _ (IsQuiet-trans s w w1 _ start (rsp_put-IsQuiet s w1 r)))
        | inr z ↦ elim (Option-cases (first (w.link s).omsg_q)) [
          | inl e ↦
              let e1 : first (w1.link s).omsg_q ≡ none = ap first start.sent ∙ e in
              rw (answering, rsp_recv_done, rsp_filter, z, e, e1) (stray-fifo w w1 r start)
          | inr (m, e) ↦
              let e1 : first (w1.link s).omsg_q ≡ some m = ap first start.sent ∙ e in
              elim (Bool-cases (protocol.failure w1 r)) [
                | inl f ↦
                    rw (answering, rsp_recv_done, rsp_filter, z, e, e1, f) (stray-fifo w w1 r start)
                | inr f ↦ elim (Bool-cases (w.msg m).swallow) [
                  | inl y ↦
                      rw (answering, rsp_recv_done, rsp_filter, z, e, e1, f, y)
                        (swallow-fifo w (protocol.swallow_msg w1 s m r) r m
                          (IsQuiet-trans s w w1 _ start (q.swallow w1 s m r)) e)
                  | inr y ↦
                      rw (answering, rsp_recv_done, rsp_filter, z, e, e1, f, y)
                        (forward-fifo w w1 r m start e1)
                ]
              ]
        ]
      ]

  step-fifo :
      (w : World) (e : Event)
      → answering protocol s w e ++ waiting (step protocol env s w e) s
        ≡ waiting w s ++ entering protocol w e
  unfolding step answering entering
  step-fifo w (arrived m now) = arrives w s m now
  step-fifo w written = elim (Option-cases (first (w.link s).imsg_q)) [
    | inl e ↦ rw (step, e) (sym (append-nil (waiting w s)))
    | inr (m, e) ↦ rw (step, e) (sends w s m e ∙ sym (append-nil (waiting w s)))
  ]
  step-fifo w (received r nmsg) = received-fifo w r nmsg ∙ sym (append-nil (waiting w s))

  -- A connection to a server is first in, first out: over any sequence of arrivals, writes and
  -- responses, the requests taken off as answered, followed by those that still wait, are those
  -- that waited at the start followed by those that arrived, without the ones that have no reply.
  -- The protocol's handlers leave the connection's queues and the flag `noreply` alone.
  pub run-fifo :
      (es : List Event) (w : World)
      → answered protocol env s w es ++ waiting (run protocol env s w es) s
        ≡ waiting w s ++ entered protocol env s w es
  unfolding run answered entered
  run-fifo [] w = sym (append-nil (waiting w s))
  run-fifo (e ∷ es) w =
      let a = answering protocol s w e in
      let b = entering protocol w e in
      let w' : World = step protocol env s w e in
      append_assoc a (answered protocol env s w' es) (waiting (run protocol env s w' es) s)
      ∙ ap (a ++◌) (run-fifo es w')
      ∙ sym (append_assoc a (waiting w' s) (entered protocol env s w' es))
      ∙ ap (◌++ entered protocol env s w' es) (step-fifo w e)
      ∙ append_assoc (waiting w s) b (entered protocol env s w' es)
