-- ===== src/Pipe/Queue.antt =====
-- The small steps of the pipeline: messages got and put back, timers, and the queues of clients and
-- servers. Statistics and log lines are left out.
use wx_cache_proxy.Base.{
  ℕ, suc, ◌+◌, ◌%◌, ◌^◌, Bool, false, [], ◌∷◌, ◌++◌, Option, none, some, ◌==◌, ◌||◌, if◌then◌else◌,
}
use wx_cache_proxy.Pipe.State.{Msg, World, set_msg, set_client, set_link, remove, linked}

-- What `_msg_get` sets; `owner` and `request` are `msg_get`'s.
abbrev pub blank : ℕ → ℕ → Bool → Msg
blank id owner request = record {
  id = id;
  peer = none;
  owner = owner;
  timer = none;
  mlen = 0;
  frag_owner = none;
  nfrag = 0;
  nfrag_done = 0;
  frag_id = 0;
  err = 0;
  error = false;
  ferror = false;
  request = request;
  quit = false;
  noreply = false;
  noforward = false;
  done = false;
  fdone = false;
  swallow = false;
}

-- What `_msg_get` finds memory for: a new `struct msg` if the free queue is empty, and the array of
-- the keys.
pub record Memory : Type 0 where
  pub message : Bool
  pub keys : Bool

-- The first part of `_msg_get`: the head of the free queue, or a new message.
unfoldable pub msg_take : World → Bool → Option ℕ × World
msg_take w memory = elim w.free [
  | m ∷ rest ↦ (some m, record w { free = rest })
  | [] ↦ if memory then (some w.made, record w { made = suc w.made }) else (none, w)
]

-- `msg_get`, with the initialisation of `_msg_get`. Without memory for the array of the keys the
-- message is freed: it is in no queue then.
unfoldable pub msg_get : World → ℕ → Bool → Memory → Option ℕ × World
msg_get w conn request memory =
    let (taken, w1) = msg_take w memory.message in
    elim taken [
      | none ↦ (none, w1)
      | some m ↦
          let id = (w1.msg_id + 1) % 2 ^ 64 in
          let w2 = record w1 { msg_id = id } in
          if memory.keys then (some m, set_msg w2 m (blank id conn request)) else (none, w2)
    ]

-- `msg_put`: the message goes to the head of the free queue, its fields stay.
unfoldable pub msg_put : World → ℕ → World
msg_put w m = record w { free = m ∷ w.free }

unfoldable pub rsp_put : World → ℕ → World
rsp_put w m = msg_put w m

-- `msg->peer = NULL; pmsg->peer = NULL; rsp_put(pmsg)` for a message that has a peer.
unfoldable pub drop_peer : World → ℕ → World
drop_peer w m = elim (w.msg m).peer [
  | none ↦ w
  | some p ↦
      let w1 = set_msg w m (record (w.msg m) { peer = none }) in
      rsp_put (set_msg w1 p (record (w1.msg p) { peer = none })) p
]

-- `msg_tmo_insert`: `now` is the time in milliseconds.
unfoldable pub msg_tmo_insert : World → ℕ → ℕ → ℕ → World
msg_tmo_insert w m s now =
    let timeout = (w.link s).timeout in
    if timeout == 0 then w else set_msg w m (record (w.msg m) { timer = some (now + timeout, s) })

-- `msg_tmo_delete`, which does nothing to a message that is not in the tree.
unfoldable pub msg_tmo_delete : World → ℕ → World
msg_tmo_delete w m = set_msg w m (record (w.msg m) { timer = none })

unfoldable pub req_put : World → ℕ → World
req_put w m = msg_put (msg_tmo_delete (drop_peer w m) m) m

unfoldable pub req_server_enqueue_imsgq : World → ℕ → ℕ → ℕ → World
req_server_enqueue_imsgq w s m now =
    let w1 = if (w.msg m).noreply then w else msg_tmo_insert w m s now in
    set_link w1 s (record (w1.link s) { imsg_q = (w1.link s).imsg_q ++ m ∷ [] })

unfoldable pub req_server_enqueue_imsgq_head : World → ℕ → ℕ → ℕ → World
req_server_enqueue_imsgq_head w s m now =
    let w1 = if (w.msg m).noreply then w else msg_tmo_insert w m s now in
    set_link w1 s (record (w1.link s) { imsg_q = m ∷ (w1.link s).imsg_q })

unfoldable pub req_server_dequeue_imsgq : World → ℕ → ℕ → World
req_server_dequeue_imsgq w s m =
    set_link w s (record (w.link s) { imsg_q = remove m (w.link s).imsg_q })

-- `TAILQ_INSERT_TAIL`, which does not test whether the message is linked already.
unfoldable pub req_client_enqueue_omsgq : World → ℕ → ℕ → World
req_client_enqueue_omsgq w c m =
    let q = (w.client c).omsg_q in
    set_client w c
      (record (w.client c) { omsg_q = q ++ m ∷ []; looped = (w.client c).looped || linked m q })

unfoldable pub req_server_enqueue_omsgq : World → ℕ → ℕ → World
req_server_enqueue_omsgq w s m =
    set_link w s (record (w.link s) { omsg_q = (w.link s).omsg_q ++ m ∷ [] })

unfoldable pub req_client_dequeue_omsgq : World → ℕ → ℕ → World
req_client_dequeue_omsgq w c m =
    set_client w c (record (w.client c) { omsg_q = remove m (w.client c).omsg_q })

unfoldable pub req_server_dequeue_omsgq : World → ℕ → ℕ → World
req_server_dequeue_omsgq w s m =
    let w1 = msg_tmo_delete w m in
    set_link w1 s (record (w1.link s) { omsg_q = remove m (w1.link s).omsg_q })
