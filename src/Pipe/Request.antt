-- ===== src/Pipe/Request.antt =====
-- nc_request.c: the handlers of a client's requests, from the filter to the server's queue.
pub mod Queued
pub mod Fault
use wx_cache_proxy.Base.{
  ℕ, ◌+◌, Bool, true, false, not, ◌&&◌, List, [], ◌∷◌, ◌++◌, Option, none, some, ◌==◌,
  if◌then◌else◌, Status, nc_ok, nc_error, nc_enomem,
}
use wx_cache_proxy.Pipe.State.{
  Msg, Client, Link, World, set_msg, set_client, set_link, first, behind,
}
use wx_cache_proxy.Pipe.Queue.{
  Memory, msg_get, req_put, req_server_enqueue_imsgq, req_server_dequeue_imsgq,
  req_client_enqueue_omsgq, req_server_enqueue_omsgq,
}
use wx_cache_proxy.Pipe.Done

-- The handlers that a message or a connection carries, which depend on the protocol, and the choice
-- of a server connection (`server_pool_conn`). `fragment` returns the fragments in order.
pub record Protocol : Type 0 where
  pub post_coalesce : World → Option ℕ → World
  pub pre_coalesce : World → ℕ → World
  pub fragment : World → ℕ → Status × List ℕ × World
  pub reply : World → ℕ → Status × World
  pub add_auth : World → ℕ → ℕ → Status × World
  pub failure : World → ℕ → Bool
  pub swallow_msg : World → ℕ → ℕ → ℕ → World
  pub post_connect : World → ℕ → World
  pub route : World → ℕ → ℕ → Option ℕ × World

-- The rest of the outside world of one handler: whether changes of a connection's event interest
-- succeed, what memory there is for a message, `errno` and the time.
pub record Env : Type 0 where
  pub client_event : Bool
  pub link_event : Bool
  pub memory : Memory
  pub errno : ℕ
  pub now : ℕ

-- `conn->err = errno`
abbrev pub client_err : Env → World → ℕ → World
client_err env w c = set_client w c (record (w.client c) { err = env.errno })

abbrev pub link_err : Env → World → ℕ → World
link_err env w s = set_link w s (record (w.link s) { err = env.errno })

-- `event_add_out` on a client's connection, and the test of its status.
unfoldable pub client_out : Env → World → ℕ → World
client_out env w c =
    if env.client_event
    then set_client w c (record (w.client c) { out = true })
    else client_err env w c

unfoldable pub req_make_reply : Env → World → ℕ → ℕ → Status × World
req_make_reply env w c m =
    let (got, w1) = msg_get w c false env.memory in
    elim got [
      | none ↦ (nc_enomem, client_err env w1 c)
      | some r ↦
          let w2 = set_msg w1 m (record (w1.msg m) { peer = some r; done = true }) in
          (nc_ok, req_client_enqueue_omsgq (set_msg w2 r (record (w2.msg r) { peer = some m })) c m)
    ]

unfoldable pub req_filter : World → ℕ → ℕ → Bool × World
req_filter w c m =
    let x = w.msg m in
    if x.mlen == 0
    then (true, req_put w m)
    else if x.quit
    then (true, req_put (set_client w c (record (w.client c) { eof = true; recv_ready = false })) m)
    else if not (w.client c).authenticated
    then (false, set_msg w m (record x { noforward = true }))
    else (false, w)

module _ (protocol : Protocol) where
  -- `req_done` on the queue of a client.
  unfoldable pub req_done : World → ℕ → ℕ → Bool × World
  req_done w c m = Done.req_done protocol.post_coalesce w (w.client c).omsg_q m

  -- `if (req_done(conn, TAILQ_FIRST(&conn->omsg_q))) { event_add_out... }`: of an empty queue
  -- `req_done` gets a null pointer, and reads `msg->done` first.
  unfoldable pub wake_client : Env → World → ℕ → World
  wake_client env w c = elim (first (w.client c).omsg_q) [
    | none ↦ record w { crashed = true }
    | some m ↦ let (answer, w1) = req_done w c m in if answer then client_out env w1 c else w1
  ]

  unfoldable pub req_forward_error : Env → World → ℕ → ℕ → World
  req_forward_error env w c m =
      let failed = set_msg w m (record (w.msg m) { done = true; error = true; err = env.errno }) in
      if (w.msg m).noreply then req_put failed m else wake_client env failed c

  -- `event_add_out` for a server connection whose queue is empty.
  unfoldable pub open_link : Env → World → ℕ → Option World
  open_link env w s = elim (w.link s).imsg_q [
    | m ∷ rest ↦ some w
    | [] ↦ if env.link_event then some (set_link w s (record (w.link s) { out = true })) else none
  ]

  -- `req_forward` once the server connection is known.
  unfoldable pub req_forward_to : Env → World → ℕ → ℕ → ℕ → World
  req_forward_to env w c s m = elim (open_link env w s) [
    | none ↦ link_err env (req_forward_error env w c m) s
    | some w1 ↦
        let (status, w2) =
          if not (w1.link s).authenticated then protocol.add_auth w1 c s else (nc_ok, w1) in
        elim status [
          | nc_ok ↦ req_server_enqueue_imsgq w2 s m env.now
          | _ ↦ link_err env (req_forward_error env w2 c m) s
        ]
  ]

  unfoldable pub req_forward : Env → World → ℕ → ℕ → World
  req_forward env w c m =
      let w1 = if (w.msg m).noreply then w else req_client_enqueue_omsgq w c m in
      let (chosen, w2) = protocol.route w1 c m in
      elim chosen [ none ↦ req_forward_error env w2 c m | some s ↦ req_forward_to env w2 c s m ]

  unfoldable pub forward_all : Env → World → ℕ → List ℕ → World
  forward_all env w c [] = w
  forward_all env w c (m ∷ ms) = forward_all env (req_forward env w c m) c ms

  -- The two lines that follow a failed step of `req_recv_done`, which goes on after them.
  unfoldable pub report : Env → Status → World → ℕ → ℕ → World
  report env nc_ok w c m = w
  report env _ w c m =
      req_forward_error env (if (w.msg m).noreply then w else req_client_enqueue_omsgq w c m) c m

  -- The branch for a request that the proxy answers itself.
  unfoldable pub answer_here : Env → World → ℕ → ℕ → World
  answer_here env w c m =
      let (made, w1) = req_make_reply env w c m in
      elim made [
        | nc_ok ↦
            let (replied, w2) = protocol.reply w1 m in
            elim replied [ nc_ok ↦ client_out env w2 c | _ ↦ client_err env w2 c ]
        | _ ↦ client_err env w1 c
      ]

  -- The part from `/* do fragment */` on.
  unfoldable pub forward_fragments : Env → World → ℕ → ℕ → World
  forward_fragments env w c m =
      let (status, fragments, w1) = protocol.fragment w m in
      let w2 = report env status w1 c m in
      elim fragments [
        | [] ↦ req_forward env w2 c m
        | f ∷ fs ↦
            let (made, w3) = req_make_reply env w2 c m in
            forward_all env (report env made w3 c m) c (f ∷ fs)
      ]

  unfoldable pub req_recv_done : Env → World → ℕ → ℕ → Option ℕ → World
  req_recv_done env w c m nmsg =
      let w1 = set_client w c (record (w.client c) { rmsg = nmsg }) in
      let (filtered, w2) = req_filter w1 c m in
      if filtered
      then w2
      else if (w2.msg m).noforward
      then answer_here env w2 c m
      else forward_fragments env w2 c m

  -- `server_connected`
  unfoldable pub server_connected : World → ℕ → World
  server_connected w s =
      protocol.post_connect
        (set_link w s (record (w.link s) { connecting = false; connected = true })) s

  -- `req_send_next` after the connection is up: the message to send next, if any.
  unfoldable pub send_next : Env → World → ℕ → Option ℕ × World
  send_next env w s = elim (first (w.link s).imsg_q) [
    | none ↦ (
      none,
      if env.link_event then set_link w s (record (w.link s) { out = false }) else link_err env w s,
    )
    | some head ↦
        let next : Option ℕ = elim (w.link s).smsg [
          | none ↦ some head
          | some m ↦ first (behind m (w.link s).imsg_q)
        ] in
        (next, set_link w s (record (w.link s) { smsg = next }))
  ]

  unfoldable pub req_send_next : Env → World → ℕ → Option ℕ × World
  req_send_next env w s =
      send_next env (if (w.link s).connecting then server_connected w s else w) s

unfoldable pub req_send_done : World → ℕ → ℕ → World
req_send_done w s m =
    let w1 = req_server_dequeue_imsgq w s m in
    if not (w1.msg m).noreply then req_server_enqueue_omsgq w1 s m else req_put w1 m

-- `client_active`, the test that decides whether a half-closed client connection is finished.
unfoldable pub client_active : Client → Bool
client_active c = elim c.omsg_q [
  | m ∷ rest ↦ true
  | [] ↦ elim c.rmsg [ some m ↦ true | none ↦ elim c.smsg [ some m ↦ true | none ↦ false ] ]
]

unfoldable pub req_recv_next : Env → World → ℕ → Bool → Option ℕ × World
req_recv_next env w c alloc =
    if (w.client c).eof
    then (let w1 : World = elim (w.client c).rmsg [
      | none ↦ w
      | some m ↦ req_put (set_client w c (record (w.client c) { rmsg = none })) m
    ] in
        (
          none,
          if not (client_active (w1.client c))
              then set_client w1 c (record (w1.client c) { done = true })
              else w1,
        ))
    else elim (w.client c).rmsg [
      | some m ↦ (some m, w)
      | none ↦
          if not alloc
          then (none, w)
          else let (got, w1) = msg_get w c true env.memory in
            elim got [
              | none ↦ (none, client_err env w1 c)
              | some m ↦ (some m, set_client w1 c (record (w1.client c) { rmsg = some m }))
            ]
    ]
