-- ===== src/Pipe/Close.antt =====
-- nc_server.c: `server_close` and the requests of the connection that goes down.
pub mod Firm
pub mod Loop
pub mod Turn
pub mod Settled
use wx_cache_proxy.Base.{
  ℕ, ◌+◌, ◌%◌, ◌^◌, Bool, true, false, ◌&&◌, ◌||◌, List, [], ◌∷◌, Option, none, some, if◌then◌else◌,
}
use wx_cache_proxy.Pipe.State.{Msg, Client, Link, World, set_msg, set_client, set_link, first}
use wx_cache_proxy.Pipe.Queue.{req_put, rsp_put, req_server_dequeue_imsgq, req_server_dequeue_omsgq}
use wx_cache_proxy.Pipe.Request.{Protocol, Env, req_done}

-- `if (msg->frag_owner != NULL) { msg->frag_owner->nfrag_done++; }`
unfoldable pub count_fragment : World → Option ℕ → World
count_fragment w none = w
count_fragment w (some o) =
    set_msg w o (record (w.msg o) { nfrag_done = ((w.msg o).nfrag_done + 1) % 2 ^ 32 })

module _ (protocol : Protocol) where
  -- `if (req_done(c_conn, TAILQ_FIRST(&c_conn->omsg_q))) { event_add_out(ctx->evb, msg->owner); }`,
  -- where a failure of `event_add_out` goes unnoticed. Of an empty queue
  -- `req_done` gets a null pointer.
  unfoldable pub call_client : Env → World → ℕ → World
  call_client env w c = elim (first (w.client c).omsg_q) [
    | none ↦ record w { crashed = true }
    | some m ↦
        let (answer, w1) = req_done protocol w c m in
        if answer && env.client_event
        then set_client w1 c (record (w1.client c) { out = true })
        else w1
  ]

  -- A request that a client waits for is marked done and in error.
  unfoldable pub fail_request : Env → World → ℕ → ℕ → World
  fail_request env w s m =
      let w1 = set_msg w m (record (w.msg m) { done = true; error = true; err = (w.link s).err }) in
      let w2 = count_fragment w1 (w1.msg m).frag_owner in call_client env w2 (w2.msg m).owner

  unfoldable pub close_in : Env → World → ℕ → List ℕ → World
  close_in env w s [] = w
  close_in env w s (m ∷ ms) =
      let w1 = req_server_dequeue_imsgq w s m in
      close_in env
        (if (w1.msg m).swallow || (w1.msg m).noreply then req_put w1 m else fail_request env w1 s m)
        s ms

  unfoldable pub close_out : Env → World → ℕ → List ℕ → World
  close_out env w s [] = w
  close_out env w s (m ∷ ms) =
      let w1 = req_server_dequeue_omsgq w s m in
      close_out env (if (w1.msg m).swallow then req_put w1 m else fail_request env w1 s m) s ms

  -- `server_failure`, `unref` and `conn_put` concern the server, not the messages.
  unfoldable pub server_close : Env → World → ℕ → World
  server_close env w s =
      let w1 = set_link w s (record (w.link s) { connected = false }) in
      if (w1.link s).open_sd
      then (let w2 = close_in env w1 s (w1.link s).imsg_q in
          let w3 = close_out env w2 s (w2.link s).omsg_q in
          let w4 : World = elim (w3.link s).rmsg [
            | none ↦ w3
            | some r ↦ rsp_put (set_link w3 s (record (w3.link s) { rmsg = none })) r
          ] in
          set_link w4 s (record (w4.link s) { open_sd = false }))
      else w1
