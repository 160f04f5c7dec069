-- ===== src/Pipe/Request/Queued.antt =====
-- nc_request.c: the steps of a request and the queue of its client.
use wx_cache_proxy.Base.{
  ℕ, ◌≡◌, refl, ap, ◌∙◌, Bool, true, false, not, ◌||◌, List, [], ◌∷◌, ◌++◌, Option, some,
  if◌then◌else◌, arith, Bool-cases, Option-cases, inl, inr, Status, nc_ok,
}
use wx_cache_proxy.Pipe.State.{World, Client, first, set_msg, linked}
use wx_cache_proxy.Pipe.Queue.{
  msg_put, rsp_put, drop_peer, msg_tmo_insert, msg_tmo_delete, req_put, req_server_enqueue_imsgq,
  req_client_enqueue_omsgq,
}
use wx_cache_proxy.Pipe.Done.Runs.{req_done-cases}
use wx_cache_proxy.Pipe.Request.{
  Protocol, Env, client_out, req_done, wake_client, req_forward_error, open_link, req_forward_to,
  req_forward,
}

-- The messages that were inserted into a client's queue, and whether one was linked there already.
abbrev pub queue_of : Client → List ℕ × Bool
queue_of k = (k.omsg_q, k.looped)

-- To insert a message at the tail.
abbrev pub inserted : ℕ → List ℕ × Bool → List ℕ × Bool
inserted m (q, looped) = (q ++ m ∷ [], looped || linked m q)

-- The handlers leave the queue of the client `c` alone, and `post_coalesce` the flag `noreply` too.
pub record SparesClient (c : ℕ) (protocol : Protocol) : Type 0 where
  pub post :
      (w : World) (o : Option ℕ)
      → queue_of ((protocol.post_coalesce w o).client c) ≡ queue_of (w.client c)
  pub flags :
      (w : World) (o : Option ℕ) (j : ℕ)
      → ((protocol.post_coalesce w o).msg j).noreply ≡ (w.msg j).noreply
  pub auth :
      (w : World) (d s : ℕ)
      → queue_of ((protocol.add_auth w d s).1.client c) ≡ queue_of (w.client c)
  pub fragment :
      (w : World) (m : ℕ) → queue_of ((protocol.fragment w m).2.client c) ≡ queue_of (w.client c)
  pub route :
      (w : World) (d m : ℕ) → queue_of ((protocol.route w d m).1.client c) ≡ queue_of (w.client c)

req_put-client : (w : World) (m : ℕ) → (req_put w m).client ≡ w.client
unfolding req_put msg_put msg_tmo_delete drop_peer rsp_put
req_put-client w m = ground arith

pub enqueue-queue_of :
    (w : World) (c m : ℕ)
    → queue_of ((req_client_enqueue_omsgq w c m).client c) ≡ inserted m (queue_of (w.client c))
unfolding req_client_enqueue_omsgq
enqueue-queue_of w c m = ground arith

client_out-queue_of :
    (env : Env) (w : World) (c : ℕ)
    → queue_of ((client_out env w c).client c) ≡ queue_of (w.client c)
unfolding client_out
client_out-queue_of env w c = ground arith

pub client_out-msg : (env : Env) (w : World) (c : ℕ) → (client_out env w c).msg ≡ w.msg
unfolding client_out
client_out-msg env w c = ground arith

enqueue_in-client :
    (w : World) (s m now : ℕ) → (req_server_enqueue_imsgq w s m now).client ≡ w.client
unfolding req_server_enqueue_imsgq msg_tmo_insert
enqueue_in-client w s m now = ground arith

module _ (c : ℕ) (protocol : Protocol) (q : SparesClient c protocol) where
  req_done-queue_of :
      (w : World) (m : ℕ) → queue_of ((req_done protocol w c m).1.client c) ≡ queue_of (w.client c)
  unfolding req_done
  req_done-queue_of w m = elim (req_done-cases protocol.post_coalesce w (w.client c).omsg_q m) [
    | inl e ↦ ap (λ (v : World). queue_of (v.client c)) e
    | inr e ↦ ap (λ (v : World). queue_of (v.client c)) e ∙ q.post _ (w.msg m).frag_owner
  ]

  wake_client-queue_of :
      (env : Env) (w : World)
      → queue_of ((wake_client protocol env w c).client c) ≡ queue_of (w.client c)
  unfolding wake_client
  wake_client-queue_of env w = elim (Option-cases (first (w.client c).omsg_q)) [
    | inl e ↦ rw (wake_client, e) refl
    | inr (m, e) ↦ elim (Bool-cases (req_done protocol w c m).0) [
      | inl t ↦
          rw (wake_client, e, t)
            (client_out-queue_of env (req_done protocol w c m).1 c ∙ req_done-queue_of w m)
      | inr f ↦ rw (wake_client, e, f) (req_done-queue_of w m)
    ]
  ]

  pub error-queue_of :
      (env : Env) (w : World) (m : ℕ)
      → queue_of ((req_forward_error protocol env w c m).client c) ≡ queue_of (w.client c)
  unfolding req_forward_error
  error-queue_of env w m =
      let failed : World =
        set_msg w m (record (w.msg m) { done = true; error = true; err = env.errno }) in
      let put = ap (λ (f : ℕ → _). queue_of (f c)) (req_put-client failed m) in
      let wake = wake_client-queue_of env failed in ground (arith, put, wake)

  open_link-queue_of :
      (env : Env) (w w1 : World) (s : ℕ)
      → open_link protocol env w s ≡ some w1
      → queue_of (w1.client c) ≡ queue_of (w.client c)
  unfolding open_link
  open_link-queue_of env w w1 s e = ground arith

  -- `add_auth` if it is needed.
  abbrev authenticate : World → ℕ → Status × World
  authenticate w s = if not (w.link s).authenticated then protocol.add_auth w c s else (nc_ok, w)

  authenticate-queue_of :
      (w : World) (s : ℕ) → queue_of ((authenticate w s).1.client c) ≡ queue_of (w.client c)
  authenticate-queue_of w s = let a = q.auth w c s in ground (arith, a)

  forward_to-queue_of :
      (env : Env) (w : World) (s m : ℕ)
      → queue_of ((req_forward_to protocol env w c s m).client c) ≡ queue_of (w.client c)
  unfolding req_forward_to
  forward_to-queue_of env w s m = elim (Option-cases (open_link protocol env w s)) [
    | inl e ↦ rw (req_forward_to, e) (error-queue_of env w m)
    | inr (w1, e) ↦
        let w2 : World = (authenticate w1 s).1 in
        let kept = authenticate-queue_of w1 s ∙ open_link-queue_of env w w1 s e in
        let put = ap (λ (f : ℕ → _). queue_of (f c)) (enqueue_in-client w2 s m env.now) in
        let failed = error-queue_of env w2 m in
        rw (req_forward_to, e) (ground (arith, kept, put, failed))
  ]

  pub req_forward-queue_of :
      (env : Env) (w : World) (m : ℕ)
      → (w.msg m).noreply ≡ false
      → queue_of ((req_forward protocol env w c m).client c) ≡ inserted m (queue_of (w.client c))
  unfolding req_forward
  req_forward-queue_of env w m asks =
      let w1 : World = if (w.msg m).noreply then w else req_client_enqueue_omsgq w c m in
      let entered : queue_of (w1.client c) ≡ inserted m (queue_of (w.client c)) =
        rw asks (enqueue-queue_of w c m) in
      let w2 : World = (protocol.route w1 c m).1 in
      let routed : queue_of (w2.client c) ≡ inserted m (queue_of (w.client c)) =
        q.route w1 c m ∙ entered in
      elim (Option-cases (protocol.route w1 c m).0) [
        | inl e ↦ rw (req_forward, e) (error-queue_of env w2 m ∙ routed)
        | inr (s, e) ↦ rw (req_forward, e) (forward_to-queue_of env w2 s m ∙ routed)
      ]
