-- ===== src/Pipe/Response.antt =====
-- nc_response.c: the handlers of a server's responses, from the filter to the client.
pub mod Quiet
pub mod Waiting
pub mod Order
use wx_cache_proxy.Base.{
  ℕ, ◌+◌, Bool, true, false, not, ◌&&◌, List, [], ◌∷◌, ◌++◌, Option, none, some, ◌==◌,
  if◌then◌else◌, Status,
}
use wx_cache_proxy.Pipe.State.{
  Msg, Client, Link, World, set_msg, set_client, set_link, first, behind,
}
use wx_cache_proxy.Pipe.Queue.{
  msg_get, req_put, rsp_put, drop_peer, req_client_dequeue_omsgq, req_server_dequeue_omsgq,
}
use wx_cache_proxy.Pipe.Done.{run_of}
use wx_cache_proxy.Pipe.Done
use wx_cache_proxy.Pipe.Request.{Protocol, Env, client_err, link_err, req_done, wake_client}

-- `EINVAL`
abbrev pub einval : ℕ
einval = 22

unfoldable pub rsp_recv_next : Env → World → ℕ → Bool → Option ℕ × World
rsp_recv_next env w s alloc =
    if (w.link s).eof
    then (let w1 : World = elim (w.link s).rmsg [
      | none ↦ w
      | some m ↦ rsp_put (set_link w s (record (w.link s) { rmsg = none })) m
    ] in
        (none, set_link w1 s (record (w1.link s) { done = true })))
    else elim (w.link s).rmsg [
      | some m ↦ (some m, w)
      | none ↦
          if not alloc
          then (none, w)
          else let (got, w1) = msg_get w s false env.memory in
            elim got [
              | none ↦ (none, link_err env w1 s)
              | some m ↦ (some m, set_link w1 s (record (w1.link s) { rmsg = some m }))
            ]
    ]

-- `conn->err = EINVAL; conn->done = 1`
abbrev pub fail_link : World → ℕ → World
fail_link w s = set_link w s (record (w.link s) { err = einval; done = true })

-- `req_error` on the queue of a client.
unfoldable pub req_error : World → ℕ → ℕ → Bool × World
req_error w c m =
    let (answer, msg) = Done.req_error w.msg (w.client c).omsg_q m in
    (answer, record w { msg = msg })

-- The loop of `rsp_make_error`: the fragments behind the request leave the queue, and the first
-- error number among them is kept.
unfoldable pub drop_fragments : World → ℕ → ℕ → List ℕ → ℕ × World
drop_fragments w c err [] = (err, w)
drop_fragments w c err (m ∷ ms) =
    let w1 = req_client_dequeue_omsgq w c m in
    drop_fragments (req_put w1 m) c (if err == 0 then (w1.msg m).err else err) ms

-- `rsp_make_error` up to the message that `msg_get_error` builds from the error number.
unfoldable pub rsp_make_error : World → ℕ → ℕ → ℕ × World
rsp_make_error w c m =
    let x = w.msg m in
    let (err, w1) =
      if not (x.frag_id == 0)
      then drop_fragments w c 0 (run_of w.msg x.frag_id (behind m (w.client c).omsg_q))
      else (x.err, w) in
    (err, drop_peer w1 m)

module _ (protocol : Protocol) where
  unfoldable pub rsp_filter : World → ℕ → ℕ → Bool × World
  rsp_filter w s r =
      if (w.msg r).mlen == 0 then (true, rsp_put w r) else elim (first (w.link s).omsg_q) [
        | none ↦ (true, fail_link (rsp_put w r) s)
        | some m ↦
            if protocol.failure w r
            then (true, fail_link (rsp_put w r) s)
            else if (w.msg m).swallow
            then (let w1 = req_server_dequeue_omsgq (protocol.swallow_msg w s m r) s m in
                let w2 = set_msg w1 m (record (w1.msg m) { done = true }) in
                (true, req_put (rsp_put w2 r) m))
            else (false, w)
      ]

  -- The response `r` is paired with the oldest request that the server has not answered. `server_ok`
  -- and the statistics touch nothing here.
  unfoldable pub rsp_forward : Env → World → ℕ → ℕ → World
  rsp_forward env w s r = elim (first (w.link s).omsg_q) [
    | none ↦ w
    | some m ↦
        let w1 = req_server_dequeue_omsgq w s m in
        let w2 = set_msg w1 m (record (w1.msg m) { done = true; peer = some r }) in
        let w3 = protocol.pre_coalesce (set_msg w2 r (record (w2.msg r) { peer = some m })) r in
        wake_client protocol env w3 (w3.msg m).owner
  ]

  unfoldable pub rsp_recv_done : Env → World → ℕ → ℕ → Option ℕ → World
  rsp_recv_done env w s r nmsg =
      let w1 = set_link w s (record (w.link s) { rmsg = nmsg }) in
      let (filtered, w2) = rsp_filter w1 s r in if filtered then w2 else rsp_forward env w2 s r

  -- `event_del_out` on a client's connection.
  unfoldable pub client_quiet : Env → World → ℕ → World
  client_quiet env w c =
      if env.client_event
      then set_client w c (record (w.client c) { out = false })
      else client_err env w c

  -- The end of `rsp_send_next`, for the request `m` whose response is to be sent. `new` is the
  -- message that `msg_get_error` returns, if it is needed and there is memory.
  unfoldable pub send_response : Env → World → ℕ → ℕ → Option ℕ → Option ℕ × World
  send_response env w c m new =
      let (failed, w1) = req_error w c m in
      if failed
      then (let (err, w2) = rsp_make_error w1 c m in
          elim new [
            | none ↦ (none, client_err env w2 c)
            | some e ↦
                let w3 = set_msg w2 e (record (w2.msg e) { peer = some m }) in
                let w4 = set_msg w3 m (record (w3.msg m) { peer = some e }) in
                (some e, set_client w4 c (record (w4.client c) { smsg = some e }))
          ])
      else ((w1.msg m).peer, set_client w1 c (record (w1.client c) { smsg = (w1.msg m).peer }))

  -- The request behind the one whose response was sent last, or the head of the queue.
  unfoldable pub next_request : World → ℕ → ℕ → Option ℕ
  next_request w c head = elim (w.client c).smsg [
    | none ↦ some head
    | some r ↦ elim (w.msg r).peer [ none ↦ none | some m ↦ first (behind m (w.client c).omsg_q) ]
  ]

  unfoldable pub rsp_send_next : Env → World → ℕ → Option ℕ → Option ℕ × World
  rsp_send_next env w c new = elim (first (w.client c).omsg_q) [
    | none ↦ (
      none,
      client_quiet env
          (if (w.client c).eof then set_client w c (record (w.client c) { done = true }) else w) c,
    )
    | some head ↦
        let (ready, w1) = req_done protocol w c head in
        if not ready then (none, client_quiet env w1 c) else elim (next_request w1 c head) [
          | none ↦ (none, set_client w1 c (record (w1.client c) { smsg = none }))
          | some m ↦
              let (done, w2) = req_done protocol w1 c m in
              if not done
              then (none, set_client w2 c (record (w2.client c) { smsg = none }))
              else send_response env w2 c m new
        ]
  ]

unfoldable pub rsp_send_done : World → ℕ → ℕ → World
rsp_send_done w c r = elim (w.msg r).peer [
  | none ↦ w
  | some m ↦ req_put (req_client_dequeue_omsgq w c m) m
]
